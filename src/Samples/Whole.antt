-- ===== src/Samples/Whole.antt =====
-- A credential that is minted and used.
use ai_agent_security.Base.{
  ◌+◌, ◌*◌, bytes, ◌==◌, [], none, some, ok, ◌≡◌, refl, second, arith, lookup,
}
use ai_agent_security.Keys.Base64.{encode}
use ai_agent_security.Cb4a.Audit.{append}
use ai_agent_security.Cb4a.Pdp.{parse_decision_token}
use ai_agent_security.Cb4a.Cdp.{
  dpop_proof_type, MintedCredential, DpopProofClaims, CdpState, Jwts, minted_claims, prepare, mint,
}
use ai_agent_security.Cb4a.Calls.{proof_claims, token_hash, generate_dpop_proof, simulate_api_call}
use ai_agent_security.Cb4a.EndToEnd.{simulate_api_call-mint}
use ai_agent_security.Samples.OneToken.{Signed, sample_jwt, sample_sign_self, sample_jwt-IsComplete}
use ai_agent_security.Samples.Stubs.{
  std, std-IsFaithful, base_point, base_key, raw_jwk, base_point-is_on_curve, json_of_jwk-base_jwk,
  public_key_to_jwk-base_point,
}
use ai_agent_security.Samples.Agents.{signed_at}
use ai_agent_security.Samples.Credentials.{
  scope, thumb, decision, decision_jwt, token_signed, same_token, same_proof, broker,
  thumbprint-base_point,
}

abbrev claims : DpopProofClaims
claims = record {
  registered = record {
    issuer = [];
    subject = [];
    audience = [];
    expires_at = some (signed_at + 120 * second);
    not_before = none;
    issued_at = some signed_at;
    id = bytes "p1";
  };
  http_method = bytes "GET";
  http_uri = bytes "/report";
  ath = encode (bytes "credential");
}

abbrev proof_signed : Signed DpopProofClaims
proof_signed = record {
  header = record { typ = some dpop_proof_type; kid = none; jwk = some raw_jwk };
  claims = claims;
  signer = base_key;
  token = bytes "dpop";
}

abbrev jwts : Jwts
jwts = record {
  decision = decision_jwt;
  token = sample_jwt (λ c. c.registered) same_token token_signed;
  proof = sample_jwt (λ c. c.registered) same_proof proof_signed;
}

abbrev credential : MintedCredential
credential = record {
  token = bytes "credential";
  ephemeral_key = base_key;
  ephemeral_pub = base_point;
  scope = scope;
  expires_at = signed_at + 900 * second;
}

prepared :
    prepare std jwts broker.cdp (bytes "decision") (some base_key) signed_at (bytes "c1")
    ≡ ok (decision, thumb, credential)
unfolding prepare parse_decision_token minted_claims lookup ◌==◌
prepared =
    ground
      (arith, thumbprint-base_point, sample_sign_self (λ c. c.registered) same_token token_signed)

abbrev minted_state : CdpState
minted_state = (mint std jwts broker (bytes "decision") (some base_key) signed_at (bytes "c1")).0

minted :
    mint std jwts broker (bytes "decision") (some base_key) signed_at (bytes "c1")
    ≡ (minted_state, ok credential)
unfolding mint append
minted = ground (arith, prepared)

fresh : lookup (bytes "p1") minted_state.cdp.dpop_jti ≡ none
unfolding mint append lookup
fresh = ground (arith, prepared)

made :
    generate_dpop_proof std jwts
      (some credential)
      (bytes "GET")
      (bytes "/report")
      signed_at
      (bytes "p1")
    ≡ ok (bytes "dpop")
unfolding generate_dpop_proof proof_claims token_hash
made = ground (
  arith,
  public_key_to_jwk-base_point,
  json_of_jwk-base_jwk,
  sample_sign_self (λ c. c.registered) same_proof proof_signed,
)

simulate_api_call-mint_example :
    (simulate_api_call std jwts minted_state
      (bytes "credential")
      (bytes "dpop")
      (bytes "GET")
      (bytes "/report")
      (signed_at + 5)).1
    ≡ ok tt
simulate_api_call-mint_example =
    simulate_api_call-mint std jwts std-IsFaithful broker minted_state (bytes "decision") base_key
      signed_at signed_at (signed_at + 5) (bytes "c1") (bytes "p1") credential (bytes "GET")
      (bytes "/report") (bytes "dpop")
      (sample_jwt-IsComplete (λ c. c.registered) same_token token_signed)
      (sample_jwt-IsComplete (λ c. c.registered) same_proof proof_signed) minted
      base_point-is_on_curve made refl fresh (omega arith) (omega arith) (omega arith) (omega arith)
