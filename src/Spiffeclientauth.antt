-- ===== src/Spiffeclientauth.antt =====
-- pkg/spiffeclientauth/authenticator.go: client authentication with agent tokens.
pub mod Laws
use ai_agent_security.Base.{
  zero, suc, ℕ, ◌/◌, Str, bytes, ◌==◌, is_empty, not, Result, ok, ◌>>=◌, ◌>>◌, guard, map_err, Time,
  ℤ, pos, negsuc, minutes, second, is_nonpos, if◌then◌else◌,
}
use ai_agent_security.Keys.Base64.{encode}
use ai_agent_security.Platform.{Platform}
use ai_agent_security.Jwt.{Jwt}
use ai_agent_security.Identity.Errors
use ai_agent_security.Identity.Token.{AgentClaims, AgentValidator, validate}

abbrev pub jwt_bearer : Str
jwt_bearer = bytes "urn:ietf:params:oauth:client-assertion-type:jwt-bearer"

pub record AuthRequest : Type 0 where
  pub client_assertion : Str
  pub client_assertion_type : Str
  pub scope : Str

-- `expires_in` is in seconds.
pub record AccessToken : Type 0 where
  pub token : Str
  pub token_type : Str
  pub expires_in : ℤ
  pub scope : Str
  pub sub : Str

pub record Authenticator : Type 0 where
  pub issuer_id : Str
  pub agent_validator : AgentValidator
  pub token_ttl : ℤ

pub data Error : Type 0 where
  unsupported_type assertion_required : Error
  invalid_assertion : Errors.Error → Error

-- NewAuthenticator
unfoldable pub new_authenticator : Str → AgentValidator → ℤ → Authenticator
new_authenticator issuer_id agent_validator ttl = record {
  issuer_id = issuer_id;
  agent_validator = agent_validator;
  token_ttl = if is_nonpos ttl then minutes 60 else ttl;
}

-- The integer -n.
abbrev negative : ℕ → ℤ
negative zero = pos 0
negative (suc n) = negsuc n

-- `int(ttl.Seconds())`, the whole seconds towards zero. The rounding of the float64 between is left
-- out: it shows from lifetimes of some hundred days on, a nanosecond before a whole second.
unfoldable pub seconds_of : ℤ → ℤ
seconds_of (pos d) = pos (d / second)
seconds_of (negsuc d) = negative (suc d / second)

-- Authenticate, with the random bytes `drawn`
unfoldable pub authenticate :
    Platform → Jwt AgentClaims → Authenticator → AuthRequest → Time → Str → Result Error AccessToken
authenticate std jwt a req now drawn = do
  guard (req.client_assertion_type == jwt_bearer) unsupported_type
  guard (not (is_empty req.client_assertion)) assertion_required
  agent ← map_err invalid_assertion (validate std jwt a.agent_validator now req.client_assertion)
  ok (record {
    token = encode drawn;
    token_type = bytes "Bearer";
    expires_in = seconds_of a.token_ttl;
    scope = req.scope;
    sub = agent.claims.registered.subject;
  })
