-- ===== src/Obo/DelegationLaws.antt =====
-- On-behalf-of tokens of pkg/obo/issuer.go and validator.go: what an issued token rests on, and what
-- a resource server reads from it.
use ai_agent_security.Base.{
  Str, bytes, contains_str, ◌≡◌, refl, ◌≢◌, inl, inr, false, [], ◌∷◌, some, ok, Any, Time,
  Option-cases, Bool-cases, Result-cases, arith,
}
use ai_agent_security.Platform.{Platform, TextsJson}
use ai_agent_security.Jwt.{Jwt, IsSound}
use ai_agent_security.Identity.Token.{ValidatedAgent, validate}
use ai_agent_security.Identity.Chain.{tilde}
use ai_agent_security.Tokens.{audience_options, typed_header, parse_typed}
use ai_agent_security.Tokens.Laws.{
  IsVerified, parse_typed-IsVerified, parse_typed-issuer, parse_typed-audience,
}
use ai_agent_security.Obo.{obo_token_type, ActorClaims, OboClaims, UserClaims, resolve_scope}
use ai_agent_security.Obo.User.{validate_user}
use ai_agent_security.Obo.Sdjwt.{SdUserValidator, SdUserValidateResult, validate_sd}
use ai_agent_security.Obo.ScopeLaws.{Grants, resolve_scope_iff}
use ai_agent_security.Obo.UserLaws.{IsUser, validate_user-IsUser}
use ai_agent_security.Obo.SdjwtLaws.{IsPresented, validate_sd-IsPresented}
use ai_agent_security.Obo.Delegation.{
  Jwts, OboIssuer, UserContext, Instants, OboValidator, ValidateResult, text_at, sd_user_context,
  user_context, obo_claims, issue_obo, validate_obo,
}

-- The parts of a successful Issue.
pub record IsIssued (std : Platform) (json : TextsJson) (jwts : Jwts) (o : OboIssuer)
    (agent_token user_token target_audience requested_scope : Str) (clock : Instants) (jti : Str)
    (token : Str) : Type 0 where
  pub agent : ValidatedAgent
  pub accepted : validate std jwts.agent o.agent_validator clock.agent_at agent_token ≡ ok agent
  pub user : UserContext
  pub vouched : user_context std json jwts o user_token clock.user_at ≡ ok user
  pub granted_scope : Str
  pub granted : Grants user.scope requested_scope granted_scope
  pub addressed : target_audience ≢ []
  pub signed :
      jwts.obo.sign
        (typed_header obo_token_type)
        (obo_claims std json jwts o user agent.claims.registered.subject target_audience
          granted_scope clock.issued_at jti)
        o.key
      ≡ some token

module _ (std : Platform) (json : TextsJson) (jwts : Jwts) where
  pub issue_obo-IsIssued :
      (o : OboIssuer) (agent_token user_token target_audience requested_scope : Str)
      (clock : Instants) (jti token : Str)
      → issue_obo std json jwts o agent_token user_token target_audience requested_scope clock jti
        ≡ ok token
      → IsIssued std json jwts o agent_token user_token target_audience requested_scope clock jti
          token
  unfolding issue_obo
  issue_obo-IsIssued o agent_token user_token target_audience requested_scope clock jti token h =
      elim (Result-cases (validate std jwts.agent o.agent_validator clock.agent_at agent_token)) [
        | inr (e, bad) ↦ ground arith
        | inl (agent, accepted) ↦
            elim (Result-cases (user_context std json jwts o user_token clock.user_at)) [
              | inr (e, bad) ↦ ground arith
              | inl (user, vouched) ↦
                  elim (Result-cases (resolve_scope user.scope requested_scope)) [
                    | inr (e, bad) ↦ ground arith
                    | inl (granted_scope, resolved) ↦ record {
                      agent = agent;
                      accepted = accepted;
                      user = user;
                      vouched = vouched;
                      granted_scope = granted_scope;
                      granted =
                          (resolve_scope_iff user.scope requested_scope granted_scope).0 resolved;
                      addressed = λ e. ground (arith, e);
                      signed = ground arith;
                    }
                  ]
            ]
      ]

  -- What vouches for a user: a plain user token, which shows no email, or a presentation of an SD-JWT
  -- token, which shows the email that it reveals.
  pub data IsVouched (user_sound : IsSound (λ c. c.registered) jwts.user)
      (sd_sound : IsSound (λ c. c.registered) jwts.sd_user) (o : OboIssuer) (user_token : Str)
      (now : Time) (user : UserContext) : Type 0 where
    plain :
        (c : UserClaims)
        → contains_str user_token (tilde ∷ []) ≡ false
        → IsUser jwts.user user_sound o.user_validator user_token o.issuer_id now c
        → user ≡ record { subject = c.registered.subject; scope = c.scope; email = [] }
        → IsVouched user_sound sd_sound o user_token now user
    selective :
        (v : SdUserValidator) (r : SdUserValidateResult)
        → o.sd_user_validator ≡ some v
        → IsPresented std json jwts.sd_user sd_sound v user_token o.issuer_id now r
        → user ≡ record {
          subject = r.subject;
          scope = r.scope;
          email = text_at (bytes "email") r.revealed_claims;
        }
        → IsVouched user_sound sd_sound o user_token now user

  module _ (user_sound : IsSound (λ c. c.registered) jwts.user)
      (sd_sound : IsSound (λ c. c.registered) jwts.sd_user) where
    user_context-IsVouched :
        (o : OboIssuer) (user_token : Str) (now : Time) (user : UserContext)
        → user_context std json jwts o user_token now ≡ ok user
        → IsVouched user_sound sd_sound o user_token now user
    unfolding user_context sd_user_context
    user_context-IsVouched o user_token now user h =
        elim (Bool-cases (contains_str user_token (tilde ∷ []))) [
          | inl sd ↦ elim (Option-cases o.sd_user_validator) [
            | inl missing ↦ ground arith
            | inr (v, there) ↦
                elim (Result-cases
                  (validate_sd std json jwts.sd_user v user_token o.issuer_id now)) [
                    | inr (e, bad) ↦ ground arith
                    | inl (r, shown) ↦
                        selective v r there
                          (validate_sd-IsPresented std json jwts.sd_user sd_sound v user_token
                            o.issuer_id now r shown)
                          (ground arith)
                  ]
          ]
          | inr not_sd ↦
              elim (Result-cases
                (validate_user jwts.user o.user_validator user_token o.issuer_id now)) [
                  | inr (e, bad) ↦ ground arith
                  | inl (c, valid) ↦
                      plain c not_sd
                        (validate_user-IsUser jwts.user user_sound o.user_validator user_token
                          o.issuer_id now c valid)
                        (ground arith)
                ]
        ]

    -- An on-behalf-of token is issued only with an agent token that the agent validator accepts and a
    -- user token that vouches for the user to this issuer (a verified plain token, or a verified
    -- SD-JWT presentation); it is signed over claims that name the user as subject, the agent as
    -- actor, the target as audience, a scope that the request should be granted of the user's, and no
    -- email but the one revealed, if the JWT library is sound.
    pub issue_obo-IsDelegated :
        (o : OboIssuer) (agent_token user_token target_audience requested_scope : Str)
        (clock : Instants) (jti token : Str)
        → issue_obo std json jwts o agent_token user_token target_audience requested_scope clock jti
          ≡ ok token
        → (i : IsIssued std json jwts o agent_token user_token target_audience requested_scope clock
            jti token)
          × IsVouched user_sound sd_sound o user_token clock.user_at i.user
    issue_obo-IsDelegated o agent_token user_token target_audience requested_scope clock jti token
          h =
        let i =
          issue_obo-IsIssued o agent_token user_token target_audience requested_scope clock jti
            token h in
        (i, user_context-IsVouched o user_token clock.user_at i.user i.vouched)

-- What a validated on-behalf-of token is known to be.
pub record IsObo (jwt : Jwt OboClaims) (sound : IsSound (λ c. c.registered) jwt) (v : OboValidator)
    (token audience : Str) (now : Time) (r : ValidateResult) : Type 0 where
  pub verified :
      IsVerified (λ c. c.registered) jwt sound obo_token_type v.pub_key now token r.claims
  pub issued : r.claims.registered.issuer ≡ v.issuer_id
  pub addressed : Any (λ a. a ≡ audience) r.claims.registered.audience
  pub actor : ActorClaims
  pub acting : r.claims.act ≡ some actor
  pub agent : r.agent_id ≡ actor.subject
  pub user : r.user_id ≡ r.claims.registered.subject
  pub agent_named : r.agent_id ≢ []
  pub user_named : r.user_id ≢ []
  pub same_scope : r.scope ≡ r.claims.scope
  pub same_email : r.email ≡ r.claims.email

module _ (jwt : Jwt OboClaims) where
  -- A resource server accepts only an on-behalf-of token that is verified under the issuer's key, of
  -- that issuer, for its own address and not expired, and that names both a user and an agent; it
  -- reads the two, the scope and the email from the token, if the JWT library is sound.
  pub validate_obo-IsObo :
      (sound : IsSound (λ c. c.registered) jwt) (v : OboValidator) (token audience : Str)
      (now : Time) (r : ValidateResult)
      → validate_obo jwt v token audience now ≡ ok r
      → IsObo jwt sound v token audience now r
  unfolding validate_obo
  validate_obo-IsObo sound v token audience now r h =
      let opts = audience_options v.issuer_id audience in
      elim (Result-cases (parse_typed jwt opts obo_token_type v.pub_key now token)) [
        | inr (e, bad) ↦ ground arith
        | inl (c, parsed) ↦ elim (Option-cases c.act) [
          | inl missing ↦ ground arith
          | inr (actor, acting) ↦
              let claims_are : r.claims ≡ c = ground arith in
              let parsed' : parse_typed jwt opts obo_token_type v.pub_key now token ≡ ok r.claims =
                rw claims_are parsed in
              record {
                verified =
                    parse_typed-IsVerified (λ c. c.registered) jwt sound opts obo_token_type
                      v.pub_key now token r.claims parsed' (cc) (inr (inr (inl refl)));
                issued =
                    parse_typed-issuer (λ c. c.registered) jwt sound opts obo_token_type v.pub_key
                      now token r.claims parsed' v.issuer_id (inl refl);
                addressed =
                    parse_typed-audience (λ c. c.registered) jwt sound opts obo_token_type v.pub_key
                      now token r.claims parsed' audience (inr (inl refl));
                actor = actor;
                acting = ground arith;
                agent = ground arith;
                user = ground arith;
                agent_named = λ e. ground (arith, e);
                user_named = λ e. ground (arith, e);
                same_scope = ground arith;
                same_email = ground arith;
              }
        ]
      ]
