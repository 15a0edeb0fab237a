-- ===== src/Identitychaining/Laws.antt =====
-- Grants across domains: what a grant rests on, and what the other domain reads from it.
use ai_agent_security.Base.{Str, ◌≡◌, refl, ◌≢◌, inl, inr, [], ok, Any, Time, Result-cases, arith}
use ai_agent_security.Platform.{Platform}
use ai_agent_security.Jwt.{Jwt, IsSound}
use ai_agent_security.Identity.Token
use ai_agent_security.Tokens.{audience_options, parse_typed}
use ai_agent_security.Tokens.Laws.{
  IsVerified, parse_typed-IsVerified, parse_typed-issuer, parse_typed-audience,
}
use ai_agent_security.Identitychaining.{grant_token_type, GrantClaims, GrantValidator, validate}

pub record IsGrant (jwt : Jwt GrantClaims) (sound : IsSound (λ c. c.registered) jwt)
    (v : GrantValidator) (grant_token token_endpoint : Str) (now : Time) (c : GrantClaims)
    : Type 0 where
  pub verified :
      IsVerified (λ c. c.registered) jwt sound grant_token_type v.pub_key now grant_token c
  pub issued : c.registered.issuer ≡ v.issuer_id
  pub addressed : Any (λ a. a ≡ token_endpoint) c.registered.audience
  pub named : c.registered.subject ≢ []

module _ (jwt : Jwt GrantClaims) where
  -- A grant that is accepted is of the type "jwt-authz-grant", verified under the key of the other
  -- domain, of its issuer, for this endpoint and not expired, and names an agent, if the JWT library
  -- is sound.
  pub validate-IsGrant :
      (sound : IsSound (λ c. c.registered) jwt) (v : GrantValidator)
      (grant_token token_endpoint : Str) (now : Time) (c : GrantClaims)
      → validate jwt v grant_token token_endpoint now ≡ ok c
      → IsGrant jwt sound v grant_token token_endpoint now c
  unfolding validate
  validate-IsGrant sound v grant_token token_endpoint now c h =
      let opts = audience_options v.issuer_id token_endpoint in
      elim (Result-cases (parse_typed jwt opts grant_token_type v.pub_key now grant_token)) [
        | inr (e, bad) ↦ ground arith
        | inl (c', parsed) ↦
            let claims_are : c ≡ c' = ground arith in
            let parsed' : parse_typed jwt opts grant_token_type v.pub_key now grant_token ≡ ok c =
              rw claims_are parsed in
            record {
              verified =
                  parse_typed-IsVerified (λ c. c.registered) jwt sound opts grant_token_type
                    v.pub_key now grant_token c parsed' (cc) (inr (inr (inl refl)));
              issued =
                  parse_typed-issuer (λ c. c.registered) jwt sound opts grant_token_type v.pub_key
                    now grant_token c parsed' v.issuer_id (inl refl);
              addressed =
                  parse_typed-audience (λ c. c.registered) jwt sound opts grant_token_type v.pub_key
                    now grant_token c parsed' token_endpoint (inr (inl refl));
              named = λ e. ground (arith, e);
            }
      ]
