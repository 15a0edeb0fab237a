-- ===== src/Identity/Token.antt =====
-- pkg/identity/token.go: AgentIssuer.Issue and AgentValidator.Validate.
use ai_agent_security.Base.{
  Str, bytes, ◌==◌, is_empty, not, List, [], ◌∷◌, ◌++◌, Option, none, some, Result, ok, ◌>>=◌, ◌>>◌,
  guard, require, map_err, Time, ℤ, add_time, if◌then◌else◌,
}
use ai_agent_security.Keys.{PublicKey, PrivateKey, public_key_to_jwk, jwk_to_public_key}
use ai_agent_security.Platform.{Platform}
use ai_agent_security.Jwt.{
  Header, RegisteredClaims, ParserOption, with_expiration_required, with_issued_at,
  with_valid_methods, Jwt,
}
use ai_agent_security.Identity.Errors.{
  Error, subject_required, role_required, workload_key_required, serialize_key, marshal_jwk,
  sign_failed, parse_agent_token, invalid_agent_claims, issuer_mismatch, missing_cnf, unmarshal_cnf,
  deserialize_key,
}

abbrev pub agent_token_type : Str
agent_token_type = bytes "agent+jwt"

-- `cnf_jwk` is the raw JSON of `cnf.jwk`, from the embedded wit.Claims.
pub record AgentClaims : Type 0 where
  pub registered : RegisteredClaims
  pub trust_domain : Str
  pub cnf_jwk : Str
  pub role : Str
  pub chain_depth : ℤ
  pub mission : Str

pub record ValidatedAgent : Type 0 where
  pub claims : AgentClaims
  pub workload_key : PublicKey

pub record IssueOptions : Type 0 where
  pub subject : Str
  pub audiences : List Str
  pub trust_domain : Str
  pub role : Str
  pub chain_depth : ℤ
  pub key_id : Str
  pub workload_key : Option PublicKey
  pub mission : Str

pub record AgentIssuer : Type 0 where
  pub issuer_id : Str
  pub sig_key : PrivateKey
  pub ttl : ℤ

pub record AgentValidator : Type 0 where
  pub issuer_id : Str
  pub idp_pub : PublicKey
  pub parser : List ParserOption

-- The options of every parser that the program makes without an issuer or an audience.
abbrev pub default_options : List ParserOption
default_options =
    with_expiration_required ∷ with_issued_at ∷ with_valid_methods (bytes "ES256" ∷ []) ∷ []

-- NewAgentValidator
unfoldable pub new_agent_validator : Str → PublicKey → List ParserOption → AgentValidator
new_agent_validator issuer_id idp_pub opts = record {
  issuer_id = issuer_id;
  idp_pub = idp_pub;
  parser = default_options ++ opts;
}

-- A keyfunc that gives `key` for tokens whose `typ` header is `want`.
unfoldable pub keyfunc_for : Str → PublicKey → Header → Option PublicKey
keyfunc_for want key h = elim h.typ [
  | none ↦ if [] == want then some key else none
  | some typ ↦ if typ == want then some key else none
]

-- The `kid` header, set where an id is given.
abbrev kid_header : Str → Option Str
kid_header kid = if is_empty kid then none else some kid

unfoldable pub agent_header : IssueOptions → Header
agent_header opts = record { typ = some agent_token_type; kid = kid_header opts.key_id; jwk = none }

-- The claims that Issue signs at `now`, with the random id `jti`.
unfoldable pub issued_claims :
    Jwt AgentClaims → AgentIssuer → IssueOptions → Time → Str → Str → AgentClaims
issued_claims jwt i opts now jti jwk_raw = record {
  registered = record {
    issuer = i.issuer_id;
    subject = opts.subject;
    audience = opts.audiences;
    expires_at = some (jwt.numeric_date (add_time now i.ttl));
    not_before = some (jwt.numeric_date now);
    issued_at = some (jwt.numeric_date now);
    id = jti;
  };
  trust_domain = opts.trust_domain;
  cnf_jwk = jwk_raw;
  role = opts.role;
  chain_depth = opts.chain_depth;
  mission = opts.mission;
}

module _ (std : Platform) (jwt : Jwt AgentClaims) where
  -- AgentIssuer.Issue
  unfoldable pub issue : AgentIssuer → IssueOptions → Time → Str → Result Error Str
  issue i opts now jti = do
    guard (not (is_empty opts.subject)) subject_required
    guard (not (is_empty opts.role)) role_required
    workload_key ← require opts.workload_key workload_key_required
    jwk ← map_err serialize_key (public_key_to_jwk (some workload_key) opts.key_id)
    jwk_raw ← require (std.json_of_jwk jwk) marshal_jwk
    require (jwt.sign (agent_header opts) (issued_claims jwt i opts now jti jwk_raw) i.sig_key)
        sign_failed

  -- AgentValidator.Validate
  unfoldable pub validate : AgentValidator → Time → Str → Result Error ValidatedAgent
  validate v now token = do
    parsed ←
        require (jwt.parse v.parser now token (keyfunc_for agent_token_type v.idp_pub))
          parse_agent_token
    guard parsed.valid invalid_agent_claims
    guard (parsed.claims.registered.issuer == v.issuer_id) issuer_mismatch
    guard (not (is_empty parsed.claims.cnf_jwk)) missing_cnf
    jwk ← require (std.jwk_of_json parsed.claims.cnf_jwk) unmarshal_cnf
    workload_key ← map_err deserialize_key (jwk_to_public_key jwk)
    ok (record { claims = parsed.claims; workload_key = workload_key })
