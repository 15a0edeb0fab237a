-- ===== src/Obo/UserLaws.antt =====
-- User tokens of pkg/obo/user.go: validated ones and issued ones.
use ai_agent_security.Base.{
  Str, is_empty-false, ◌≡◌, refl, ◌≢◌, ◌≤◌, ◌<◌, inl, inr, [], ok, Any, Time, add_time, arith,
}
use ai_agent_security.Jwt.{Jwt, IsSound, IsComplete}
use ai_agent_security.Tokens.{audience_options, parse_typed}
use ai_agent_security.Tokens.Laws.{
  IsVerified, parse_typed-IsVerified, parse_typed-issuer, parse_typed-audience, parse_typed-issued,
}
use ai_agent_security.Obo.{user_token_type, UserClaims}
use ai_agent_security.Obo.User.{UserIssuer, UserValidator, user_claims, issue_user, validate_user}

-- What a validated user token is known to be.
pub record IsUser (jwt : Jwt UserClaims) (sound : IsSound (λ c. c.registered) jwt)
    (v : UserValidator) (token audience : Str) (now : Time) (c : UserClaims) : Type 0 where
  pub verified : IsVerified (λ c. c.registered) jwt sound user_token_type v.pub_key now token c
  pub issued : c.registered.issuer ≡ v.issuer_id
  pub addressed : Any (λ a. a ≡ audience) c.registered.audience

module _ (jwt : Jwt UserClaims) where
  pub validate_user-IsUser :
      (sound : IsSound (λ c. c.registered) jwt) (v : UserValidator) (token audience : Str)
      (now : Time) (c : UserClaims)
      → validate_user jwt v token audience now ≡ ok c
      → IsUser jwt sound v token audience now c
  unfolding validate_user
  validate_user-IsUser sound v token audience now c h =
      let opts = audience_options v.issuer_id audience in
      let parsed : parse_typed jwt opts user_token_type v.pub_key now token ≡ ok c = ground arith in
      record {
        verified =
            parse_typed-IsVerified (λ c. c.registered) jwt sound opts user_token_type v.pub_key now
              token c parsed (cc) (inr (inr (inl refl)));
        issued =
            parse_typed-issuer (λ c. c.registered) jwt sound opts user_token_type v.pub_key now
              token c parsed v.issuer_id (inl refl);
        addressed =
            parse_typed-audience (λ c. c.registered) jwt sound opts user_token_type v.pub_key now
              token c parsed audience (inr (inl refl));
      }

  -- An issued user token validates, for the audience that it was issued for, until it expires.
  pub validate_user-issue_user :
      (u : UserIssuer) (sub email scope audience jti token : Str) (issued_at now : Time)
      → IsComplete (λ c. c.registered) jwt
      → issue_user jwt u sub email scope audience issued_at jti ≡ ok token
      → token ≢ []
      → issued_at ≤ now
      → now < jwt.numeric_date (add_time issued_at u.ttl)
      → validate_user jwt
          (record { issuer_id = u.issuer_id; pub_key = u.key.public })
          token
          audience
          now
        ≡ ok (user_claims jwt u sub email scope audience issued_at jti)
  unfolding issue_user validate_user user_claims
  validate_user-issue_user u sub email scope audience jti token issued_at now complete made full
        begun live =
      let parsed =
        parse_typed-issued (λ c. c.registered) jwt user_token_type u.issuer_id sub audience jti
          u.ttl u.key issued_at now token (user_claims jwt u sub email scope audience issued_at jti)
          complete refl (ground arith) begun live in
      ground (arith, parsed, is_empty-false token full)
