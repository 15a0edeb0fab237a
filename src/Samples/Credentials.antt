-- ===== src/Samples/Credentials.antt =====
-- A minted credential, a proof made with it, and the delivery point that minted it.
use native.Mathlib.Decide.{ℕ_discrete}
use ai_agent_security.Base.{
  ◌+◌, ◌*◌, Str, bytes, [], ◌∷◌, none, some, ok, true, ◌≡◌, refl, Time, pos, second,
}
use ai_agent_security.Keys.{PrivateKey}
use ai_agent_security.Keys.Base64.{encode}
use ai_agent_security.Jwt.{Header, Jwt, RegisteredClaims, IsSound}
use ai_agent_security.Cb4a.Pdp.{PdpDecisionClaims}
use ai_agent_security.Cb4a.Cdp.{
  cb4a_token_type, dpop_proof_type, TokenClaims, DpopProofClaims, CdpState, Jwts, canonical_jwk,
  jwk_thumbprint,
}
use ai_agent_security.Samples.OneToken.{Signed, sample_jwt, sample_jwt-IsSound}
use ai_agent_security.Samples.Stubs.{
  std, base_point, base_key, base_jwk, raw_jwk, public_key_to_jwk-base_point,
}
use ai_agent_security.Samples.Agents.{agent_id, signed_at}

abbrev pub now : Time
now = signed_at + 5

abbrev pub registered_at : Time → Time → Str → RegisteredClaims
registered_at t e id = record {
  issuer = bytes "cdp";
  subject = agent_id;
  audience = [];
  expires_at = some e;
  not_before = some t;
  issued_at = some t;
  id = id;
}

abbrev pub thumb : Str
thumb = encode (canonical_jwk base_jwk)

abbrev pub scope : Str
scope = bytes "payment:AGENT_CREDIT:50"

abbrev pub token_claims : TokenClaims
token_claims = record {
  registered = registered_at signed_at (signed_at + 900 * second) (bytes "c1");
  agent_svid = agent_id;
  target = bytes "shop";
  action = bytes "pay";
  scope = scope;
  request_id = bytes "r1";
  jkt = thumb;
}

abbrev pub token_signed : Signed TokenClaims
token_signed = record {
  header = record { typ = some cb4a_token_type; kid = none; jwk = none };
  claims = token_claims;
  signer = base_key;
  token = bytes "credential";
}

pub same_token : Discrete (Header × TokenClaims × PrivateKey)
same_token = hlevel ℕ_discrete

abbrev pub proof_claims : DpopProofClaims
proof_claims = record {
  registered = registered_at signed_at (signed_at + 120 * second) (bytes "p1");
  http_method = bytes "GET";
  http_uri = bytes "/report";
  ath = encode (bytes "credential");
}

abbrev pub proof_signed : Signed DpopProofClaims
proof_signed = record {
  header = record { typ = some dpop_proof_type; kid = none; jwk = some raw_jwk };
  claims = proof_claims;
  signer = base_key;
  token = bytes "dpop";
}

pub same_proof : Discrete (Header × DpopProofClaims × PrivateKey)
same_proof = hlevel ℕ_discrete

abbrev pub decision : PdpDecisionClaims
decision = record {
  registered = registered_at signed_at (signed_at + 900 * second) (bytes "d1");
  agent_svid = agent_id;
  target = bytes "shop";
  action = bytes "pay";
  scope = scope;
  tier = 1;
  approved = true;
  request_id = bytes "r1";
  approver_id = bytes "auto";
}

-- Every decision parses to this one.
abbrev pub decision_jwt : Jwt PdpDecisionClaims
decision_jwt = record {
  parse = λ opts t token keyfunc. some (record {
    header = record { typ = none; kid = none; jwk = none };
    claims = decision;
    valid = true;
  });
  sign = λ h c key. none;
  numeric_date = λ t. t;
}

abbrev pub jwts : Jwts
jwts = record {
  decision = decision_jwt;
  token = sample_jwt (λ c. c.registered) same_token token_signed;
  proof = sample_jwt (λ c. c.registered) same_proof proof_signed;
}

abbrev pub token_sound : IsSound (λ c. c.registered) jwts.token
token_sound = sample_jwt-IsSound (λ c. c.registered) same_token token_signed

abbrev pub proof_sound : IsSound (λ c. c.registered) jwts.proof
proof_sound = sample_jwt-IsSound (λ c. c.registered) same_proof proof_signed

abbrev pub broker : CdpState
broker = record {
  cdp = record {
    vault = (scope, bytes "secret") ∷ [];
    pdp_pub = some base_point;
    sig_key = base_key;
    issuer_id = bytes "cdp";
    token_ttl = pos (900 * second);
    dpop_jti = [];
  };
  log = [];
}

pub thumbprint-base_point : jwk_thumbprint std base_point ≡ ok thumb
unfolding jwk_thumbprint
thumbprint-base_point = rw public_key_to_jwk-base_point refl
