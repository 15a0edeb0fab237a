-- ===== src/Cb4a/Envelope.antt =====
-- pkg/cb4a/envelope.go: NewEnvelope and ParseEnvelope.
use ai_agent_security.Base.{
  Str, bytes, is_empty, not, Option, none, some, Result, ok, ◌>>=◌, ◌>>◌, guard, require, [], Time,
  ℤ, add_time, is_zero, minutes, if◌then◌else◌,
}
use ai_agent_security.Keys.{PublicKey, PrivateKey}
use ai_agent_security.Keys
use ai_agent_security.Jwt.{RegisteredClaims, Jwt}
use ai_agent_security.Identity.Token.{default_options, keyfunc_for}

-- The errors of pkg/cb4a, a constructor for each place that makes one.
pub data Error : Type 0 where
  svid_required target_required action_required scope_required key_required sign_failed : Error
  agent_pub_required parse_envelope invalid_envelope : Error
  env_claims_required unknown_request already_decided : Error
  credential_required assertion_invalid : Error
  pdp_pub_required parse_decision invalid_decision : Error
  invalid_pdp_decision : Error → Error
  not_approved no_credential generate_key : Error
  thumbprint : Keys.Error → Error
  audit_failed : Error
  minted_required method_uri_required : Error
  serialize_key : Keys.Error → Error
  marshal_jwk : Error
  invalid_token invalid_proof htm_mismatch htu_mismatch ath_mismatch no_proof_key : Error
  key_mismatch missing_jti replay nil_pointer : Error

abbrev pub envelope_type : Str
envelope_type = bytes "tre+jwt"

pub record EnvelopeClaims : Type 0 where
  pub registered : RegisteredClaims
  pub agent_svid : Str
  pub target : Str
  pub action : Str
  pub scope : Str
  pub justification : Str

-- The registered claims that the broker's tokens carry, signed at `now` for `ttl`.
abbrev pub lifetime : {C : Type 0} → Jwt C → Str → Str → Time → ℤ → Str → RegisteredClaims
lifetime jwt issuer subject now ttl id = record {
  issuer = issuer;
  subject = subject;
  audience = [];
  expires_at = some (jwt.numeric_date (add_time now ttl));
  not_before = some (jwt.numeric_date now);
  issued_at = some (jwt.numeric_date now);
  id = id;
}

module _ (jwt : Jwt EnvelopeClaims) where
  -- NewEnvelope, at `now` and with the random id `jti`
  unfoldable pub new_envelope :
      Str → Str → Str → Str → Str → ℤ → Option PrivateKey → Time → Str → Result Error Str
  new_envelope svid target action scope justification ttl key now jti = do
    guard (not (is_empty svid)) svid_required
    guard (not (is_empty target)) target_required
    guard (not (is_empty action)) action_required
    guard (not (is_empty scope)) scope_required
    sig_key ← require key key_required
    require
        (jwt.sign (record { typ = some envelope_type; kid = none; jwk = none })
          (record {
            registered = lifetime jwt [] svid now (if is_zero ttl then minutes 5 else ttl) jti;
            agent_svid = svid;
            target = target;
            action = action;
            scope = scope;
            justification = justification;
          })
          sig_key)
        sign_failed

  -- ParseEnvelope
  unfoldable pub parse_envelope_token : Str → Option PublicKey → Time → Result Error EnvelopeClaims
  parse_envelope_token token agent_pub now = do
    key ← require agent_pub agent_pub_required
    parsed ←
        require (jwt.parse default_options now token (keyfunc_for envelope_type key)) parse_envelope
    guard parsed.valid invalid_envelope
    ok parsed.claims
