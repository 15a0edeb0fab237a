-- ===== src/Obo/Delegation.antt =====
-- pkg/obo/issuer.go and validator.go: OBOIssuer.Issue and OBOValidator.Validate.
use ai_agent_security.Base.{
  Str, bytes, is_empty, not, contains_str, [], ◌∷◌, Option, none, some, Result, ok, err, ◌>>=◌,
  ◌>>◌, guard, require, map_err, Map, lookup, Time, ℤ, if◌then◌else◌,
}
use ai_agent_security.Keys.{PublicKey, PrivateKey}
use ai_agent_security.Platform.{Platform, TextsJson}
use ai_agent_security.Jwt.{Jwt}
use ai_agent_security.Identity.Token.{AgentClaims, AgentValidator, validate}
use ai_agent_security.Identity.Chain.{tilde}
use ai_agent_security.Tokens.{registered_for, typed_header, audience_options, parse_typed}
use ai_agent_security.Obo.{
  obo_token_type, default_obo_ttl, ActorClaims, OboClaims, UserClaims, Error, token_required,
  sign_failed, invalid_token, agent_token_required, user_token_required, target_required,
  agent_refused, no_sd_validator, missing_sub, missing_act, ttl_or, resolve_scope,
}
use ai_agent_security.Obo.User.{UserValidator, validate_user}
use ai_agent_security.Obo.Sdjwt.{SdUserClaims, SdUserValidator, validate_sd}

-- The JWT library at the claims of the four kinds of token.
pub record Jwts : Type 0 where
  pub agent : Jwt AgentClaims
  pub user : Jwt UserClaims
  pub sd_user : Jwt SdUserClaims
  pub obo : Jwt OboClaims

pub record OboIssuer : Type 0 where
  pub issuer_id : Str
  pub key : PrivateKey
  pub agent_validator : AgentValidator
  pub user_validator : UserValidator
  pub sd_user_validator : Option SdUserValidator
  pub ttl : ℤ

-- NewOBOIssuer
unfoldable pub new_obo_issuer : Str → PrivateKey → AgentValidator → UserValidator → ℤ → OboIssuer
new_obo_issuer issuer_id key agent_validator user_validator ttl = record {
  issuer_id = issuer_id;
  key = key;
  agent_validator = agent_validator;
  user_validator = user_validator;
  sd_user_validator = none;
  ttl = ttl_or default_obo_ttl ttl;
}

-- WithSDUserValidator
unfoldable pub with_sd_user_validator : OboIssuer → Option SdUserValidator → OboIssuer
with_sd_user_validator o v = record o { sd_user_validator = v }

-- The locals userSubject, userScope and userEmail of Issue.
pub record UserContext : Type 0 where
  pub subject : Str
  pub scope : Str
  pub email : Str

-- A map's value at a key, or the empty text.
abbrev pub text_at : Str → Map Str → Str
text_at key m = elim (lookup key m) [ none ↦ [] | some v ↦ v ]

-- The instants at which Issue reads the clock: in the agent validator, in the user validator, and for
-- the new token.
pub record Instants : Type 0 where
  pub agent_at : Time
  pub user_at : Time
  pub issued_at : Time

pub record OboValidator : Type 0 where
  pub issuer_id : Str
  pub pub_key : PublicKey

pub record ValidateResult : Type 0 where
  pub claims : OboClaims
  pub user_id : Str
  pub agent_id : Str
  pub scope : Str
  pub email : Str

-- `claims.Act == nil || claims.Act.Subject == ""`
abbrev pub actor_of : Option ActorClaims → Result Error Str
actor_of none = err missing_act
actor_of (some act) = if is_empty act.subject then err missing_act else ok act.subject

module _ (std : Platform) (json : TextsJson) (jwts : Jwts) where
  unfoldable pub sd_user_context :
      Option SdUserValidator → Str → Str → Time → Result Error UserContext
  sd_user_context none user_token audience now = err no_sd_validator
  sd_user_context (some v) user_token audience now = do
    r ← validate_sd std json jwts.sd_user v user_token audience now
    ok (record {
      subject = r.subject;
      scope = r.scope;
      email = text_at (bytes "email") r.revealed_claims;
    })

  -- The validation of the user token in Issue, by its kind.
  unfoldable pub user_context : OboIssuer → Str → Time → Result Error UserContext
  user_context o user_token now =
      if contains_str user_token (tilde ∷ [])
      then sd_user_context o.sd_user_validator user_token o.issuer_id now
      else do
        claims ← validate_user jwts.user o.user_validator user_token o.issuer_id now
        ok (record { subject = claims.registered.subject; scope = claims.scope; email = [] })

  -- The claims that Issue signs.
  unfoldable pub obo_claims : OboIssuer → UserContext → Str → Str → Str → Time → Str → OboClaims
  obo_claims o user agent_id target_audience granted_scope now jti = record {
    registered =
        registered_for jwts.obo o.issuer_id user.subject (target_audience ∷ []) now o.ttl jti;
    act = some (record { subject = agent_id });
    scope = granted_scope;
    email = user.email;
  }

  -- OBOIssuer.Issue, with the random id `jti`
  unfoldable pub issue_obo : OboIssuer → Str → Str → Str → Str → Instants → Str → Result Error Str
  issue_obo o agent_token user_token target_audience requested_scope clock jti = do
    guard (not (is_empty agent_token)) agent_token_required
    guard (not (is_empty user_token)) user_token_required
    guard (not (is_empty target_audience)) target_required
    agent ←
        map_err agent_refused (validate std jwts.agent o.agent_validator clock.agent_at agent_token)
    user ← user_context o user_token clock.user_at
    granted_scope ← resolve_scope user.scope requested_scope
    require
        (jwts.obo.sign (typed_header obo_token_type)
          (obo_claims o user agent.claims.registered.subject target_audience granted_scope
            clock.issued_at jti)
          o.key)
        sign_failed

-- OBOValidator.Validate
unfoldable pub validate_obo :
    Jwt OboClaims → OboValidator → Str → Str → Time → Result Error ValidateResult
validate_obo jwt v token audience now = do
  guard (not (is_empty token)) token_required
  claims ←
      map_err invalid_token
        (parse_typed jwt (audience_options v.issuer_id audience) obo_token_type v.pub_key now token)
  guard (not (is_empty claims.registered.subject)) missing_sub
  agent_id ← actor_of claims.act
  ok (record {
    claims = claims;
    user_id = claims.registered.subject;
    agent_id = agent_id;
    scope = claims.scope;
    email = claims.email;
  })
