-- ===== src/Identitychaining.antt =====
-- pkg/identitychaining: grants across domains, grant.go, issuer.go and validator.go.
pub mod Laws
use ai_agent_security.Base.{
  Str, bytes, is_empty, not, List, [], ◌∷◌, Option, none, some, Result, ok, ◌>>=◌, ◌>>◌, guard,
  require, map_err, Time, ℤ, minutes, is_zero, if◌then◌else◌,
}
use ai_agent_security.Keys.{PublicKey, PrivateKey}
use ai_agent_security.Platform.{Platform}
use ai_agent_security.Jwt.{RegisteredClaims, Jwt}
use ai_agent_security.Identity.Errors
use ai_agent_security.Identity.Token
use ai_agent_security.Identity.Token.{AgentClaims, AgentValidator}
use ai_agent_security.Tokens
use ai_agent_security.Tokens.{registered_for, typed_header, audience_options, parse_typed}

abbrev pub grant_token_type : Str
grant_token_type = bytes "jwt-authz-grant"

abbrev pub default_grant_ttl : ℤ
default_grant_ttl = minutes 5

-- ActorClaims: the current actor, alone or with the prior actors.
pub data ActorClaims : Type 0 where
  actor : Str → ActorClaims
  actor_after : Str → ActorClaims → ActorClaims

pub record GrantClaims : Type 0 where
  pub registered : RegisteredClaims
  pub act : Option ActorClaims

pub data Error : Type 0 where
  subject_token_required audience_required sign_failed : Error
  agent_refused : Errors.Error → Error
  grant_required endpoint_required missing_sub : Error
  invalid_token : Tokens.Error → Error

pub record GrantIssuer : Type 0 where
  pub issuer_id : Str
  pub key : PrivateKey
  pub agent_validator : AgentValidator
  pub ttl : ℤ

-- NewGrantIssuer
unfoldable pub new_grant_issuer : Str → PrivateKey → AgentValidator → ℤ → GrantIssuer
new_grant_issuer issuer_id key agent_validator ttl = record {
  issuer_id = issuer_id;
  key = key;
  agent_validator = agent_validator;
  ttl = if is_zero ttl then default_grant_ttl else ttl;
}

pub record GrantValidator : Type 0 where
  pub issuer_id : Str
  pub pub_key : PublicKey

-- The first of the optional actors, or nil.
abbrev pub first_actor : List (Option ActorClaims) → Option ActorClaims
first_actor [] = none
first_actor (a ∷ as_) = a

module _ (jwt : Jwt GrantClaims) where
  -- The claims that Issue signs.
  unfoldable pub grant_claims :
      GrantIssuer → Str → Str → List (Option ActorClaims) → Time → Str → GrantClaims
  grant_claims g subject target_audience actors now jti = record {
    registered = registered_for jwt g.issuer_id subject (target_audience ∷ []) now g.ttl jti;
    act = first_actor actors;
  }

  -- GrantIssuer.Issue: the agent validator reads the clock at `checked_at`, and `jti` is the random id.
  unfoldable pub issue :
      Platform
      → Jwt AgentClaims
      → GrantIssuer
      → Str
      → Str
      → List (Option ActorClaims)
      → Time
      → Time
      → Str
      → Result Error Str
  issue std agent_jwt g subject_token target_audience actors checked_at now jti = do
    guard (not (is_empty subject_token)) subject_token_required
    guard (not (is_empty target_audience)) audience_required
    agent ←
        map_err agent_refused
          (Token.validate std agent_jwt g.agent_validator checked_at subject_token)
    require
        (jwt.sign (typed_header grant_token_type)
          (grant_claims g agent.claims.registered.subject target_audience actors now jti) g.key)
        sign_failed

  -- GrantValidator.Validate
  unfoldable pub validate : GrantValidator → Str → Str → Time → Result Error GrantClaims
  validate v grant_token token_endpoint now = do
    guard (not (is_empty grant_token)) grant_required
    guard (not (is_empty token_endpoint)) endpoint_required
    claims ← map_err invalid_token (
        parse_typed jwt (audience_options v.issuer_id token_endpoint) grant_token_type v.pub_key now
          grant_token)
    guard (not (is_empty claims.registered.subject)) missing_sub
    ok claims
