-- ===== src/Obo/User.antt =====
-- pkg/obo/user.go: UserIssuer and UserValidator.
use ai_agent_security.Base.{
  Str, is_empty, not, [], ◌∷◌, Result, ◌>>◌, guard, require, map_err, Time, ℤ,
}
use ai_agent_security.Keys.{PublicKey, PrivateKey}
use ai_agent_security.Jwt.{Jwt}
use ai_agent_security.Tokens.{registered_for, typed_header, audience_options, parse_typed}
use ai_agent_security.Obo.{
  user_token_type, default_user_ttl, UserClaims, Error, sub_required, audience_required,
  token_required, sign_failed, invalid_token, ttl_or,
}

pub record UserIssuer : Type 0 where
  pub issuer_id : Str
  pub key : PrivateKey
  pub ttl : ℤ

-- NewUserIssuer
unfoldable pub new_user_issuer : Str → PrivateKey → ℤ → UserIssuer
new_user_issuer issuer_id key ttl = record {
  issuer_id = issuer_id;
  key = key;
  ttl = ttl_or default_user_ttl ttl;
}

pub record UserValidator : Type 0 where
  pub issuer_id : Str
  pub pub_key : PublicKey

module _ (jwt : Jwt UserClaims) where
  -- The claims that UserIssuer.Issue signs.
  unfoldable pub user_claims : UserIssuer → Str → Str → Str → Str → Time → Str → UserClaims
  user_claims u sub email scope audience now jti = record {
    registered = registered_for jwt u.issuer_id sub (audience ∷ []) now u.ttl jti;
    scope = scope;
    email = email;
  }

  -- UserIssuer.Issue, with the random id `jti`
  unfoldable pub issue_user : UserIssuer → Str → Str → Str → Str → Time → Str → Result Error Str
  issue_user u sub email scope audience now jti = do
    guard (not (is_empty sub)) sub_required
    guard (not (is_empty audience)) audience_required
    require
        (jwt.sign (typed_header user_token_type) (user_claims u sub email scope audience now jti)
          u.key)
        sign_failed

  -- UserValidator.Validate
  unfoldable pub validate_user : UserValidator → Str → Str → Time → Result Error UserClaims
  validate_user v token audience now = do
    guard (not (is_empty token)) token_required
    map_err invalid_token (
        parse_typed jwt (audience_options v.issuer_id audience) user_token_type v.pub_key now token)
