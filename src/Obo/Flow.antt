-- ===== src/Obo/Flow.antt =====
-- The flow of pkg/obo from the tokens of a user and an agent to the resource server.
use mathlib.Core.List.{append-nil, append_assoc}
use ai_agent_security.Base.{
  Str, bytes, is_empty-false, contains_str, contains_str_iff, Free, ◌≡◌, refl, sym, ap, ◌∙◌, ◌≢◌,
  ◌≤◌, ◌<◌, true, false, [], ◌∷◌, none, some, ok, lookup, Time, add_time, if◌then◌else◌, Bool, List,
  ◌++◌, map, join, Map, arith,
}
use ai_agent_security.Keys.Base64.{AreBytes}
use ai_agent_security.Platform.{Platform, TextsJson, IsFaithfulJson}
use ai_agent_security.Jwt.{IsComplete}
use ai_agent_security.Identity.Token.{ValidatedAgent, validate}
use ai_agent_security.Identity.Chain.{tilde}
use ai_agent_security.Tokens.Laws.{parse_typed-issued}
use ai_agent_security.Obo.{obo_token_type, member}
use ai_agent_security.Obo.Sdjwt.{
  Disclosure, SdUserIssuer, SdUserToken, SdUserValidator, SdUserValidateResult, build_sd_jwt,
  select, issue_sd, present, validate_sd,
}
use ai_agent_security.Obo.ScopeLaws.{Grants}
use ai_agent_security.Obo.Presenting.{validate_sd-present}
use ai_agent_security.Obo.Delegation.{
  Jwts, OboIssuer, UserContext, Instants, ValidateResult, text_at, actor_of, sd_user_context,
  user_context, obo_claims, issue_obo, validate_obo,
}
use ai_agent_security.Obo.DelegationLaws.{IsIssued, issue_obo-IsIssued}

module _ (std : Platform) (json : TextsJson) (jwts : Jwts) where
  actor_of-named :
      (agent_id : Str)
      → agent_id ≢ []
      → actor_of (some (record { subject = agent_id })) ≡ ok agent_id
  actor_of-named [] named = absurd (named refl)
  actor_of-named (b ∷ s) named = refl

  -- What was issued for a user and an agent that have names validates at its target.
  validated_issued :
      (o : OboIssuer) (agent_token user_token target_audience requested_scope : Str)
      (clock : Instants) (jti token : Str) (now : Time)
      (i : IsIssued std json jwts o agent_token user_token target_audience requested_scope clock jti
        token)
      → IsComplete (λ c. c.registered) jwts.obo
      → i.user.subject ≢ []
      → i.agent.claims.registered.subject ≢ []
      → token ≢ []
      → clock.issued_at ≤ now
      → now < jwts.obo.numeric_date (add_time clock.issued_at o.ttl)
      → validate_obo jwts.obo
          (record { issuer_id = o.issuer_id; pub_key = o.key.public })
          token
          target_audience
          now
        ≡ ok (record {
          claims =
              obo_claims std json jwts o i.user i.agent.claims.registered.subject target_audience
                i.granted_scope clock.issued_at jti;
          user_id = i.user.subject;
          agent_id = i.agent.claims.registered.subject;
          scope = i.granted_scope;
          email = i.user.email;
        })
  unfolding validate_obo obo_claims
  validated_issued o agent_token user_token target_audience requested_scope clock jti token now i
        complete user_named agent_named full begun live =
      let parsed =
        parse_typed-issued (λ c. c.registered) jwts.obo obo_token_type o.issuer_id i.user.subject
          target_audience jti o.ttl o.key clock.issued_at now token
          (obo_claims std json jwts o i.user i.agent.claims.registered.subject target_audience
            i.granted_scope clock.issued_at jti)
          complete refl i.signed begun live in
      rw
        (
          is_empty-false token full,
          parsed,
          is_empty-false i.user.subject user_named,
          actor_of-named i.agent.claims.registered.subject agent_named,
        )
        refl

  built-contains_str :
      (jwt_str : Str) (ds : List Disclosure)
      → contains_str (build_sd_jwt jwt_str ds) (tilde ∷ []) ≡ true
  unfolding build_sd_jwt join
  built-contains_str jwt_str [] =
      (contains_str_iff (jwt_str ++ tilde ∷ []) (tilde ∷ [])).1 (jwt_str, [], simp append-nil)
  built-contains_str jwt_str (d ∷ ds) =
      (contains_str_iff (build_sd_jwt jwt_str (d ∷ ds)) (tilde ∷ [])).1 (
        jwt_str,
        join tilde (d.wire ∷ (map (λ (e : Disclosure). e.wire) ds ++ [] ∷ [])),
        simp append_assoc,
      )

  -- The user that a presentation shows to the issuer.
  presented_user :
      (o : OboIssuer) (v : SdUserValidator) (t : SdUserToken) (reveal : List Str) (now : Time)
      (r : SdUserValidateResult) (user : UserContext)
      → o.sd_user_validator ≡ some v
      → validate_sd std json jwts.sd_user v (present t reveal) o.issuer_id now ≡ ok r
      → user_context std json jwts o (present t reveal) now ≡ ok user
      → user ≡ record {
        subject = r.subject;
        scope = r.scope;
        email = text_at (bytes "email") r.revealed_claims;
      }
  unfolding user_context sd_user_context present
  presented_user o v t reveal now r user there shown vouched =
      ground (arith, built-contains_str t.jwt (select reveal t.disclosures))

  chosen_text :
      (b : Bool) (m : Map Str) (key value : Str)
      → lookup key m ≡ (if b then some value else none)
      → text_at key m ≡ (if b then value else [])
  chosen_text true m key value h = ground arith
  chosen_text false m key value h = ground arith

  -- An on-behalf-of token that was issued for a presentation of an SD-JWT token of a user, and an agent
  -- token, validates at its target until it expires: the resource server reads the subject of the
  -- user token, the subject of the agent token, a scope that the request should be granted of the
  -- user's, and the email of the user exactly if the presentation was made to reveal it, if the
  -- issuer trusts the provider of the user token, which has not expired, the values are UTF-8, the
  -- salts bytes, the compact user token free of tildes, the names and the tokens not empty, the JSON
  -- library faithful and the JWT library complete.
  pub validate_obo-issue_sd :
      (o : OboIssuer) (u : SdUserIssuer) (sub email given_name scope : Str) (signed_at : Time)
      (salts : Str × Str) (t : SdUserToken) (reveal : List Str)
      (agent_token target_audience requested_scope : Str) (agent : ValidatedAgent)
      (clock : Instants) (jti token : Str) (now : Time)
      → IsFaithfulJson json
      → IsComplete (λ c. c.registered) jwts.sd_user
      → IsComplete (λ c. c.registered) jwts.obo
      → issue_sd std json jwts.sd_user u sub email given_name scope o.issuer_id signed_at salts
        ≡ ok t
      → AreBytes salts.0
      → AreBytes salts.1
      → json.valid_utf8 email ≡ true
      → json.valid_utf8 given_name ≡ true
      → Free tilde t.jwt
      → signed_at ≤ clock.user_at
      → clock.user_at < jwts.sd_user.numeric_date (add_time signed_at u.ttl)
      → o.sd_user_validator ≡ some (record { issuer_id = u.issuer_id; pub_key = u.key.public })
      → validate std jwts.agent o.agent_validator clock.agent_at agent_token ≡ ok agent
      → issue_obo std json jwts o agent_token
          (present t reveal)
          target_audience
          requested_scope
          clock
          jti
        ≡ ok token
      → sub ≢ []
      → agent.claims.registered.subject ≢ []
      → token ≢ []
      → clock.issued_at ≤ now
      → now < jwts.obo.numeric_date (add_time clock.issued_at o.ttl)
      → (r : ValidateResult) × (validate_obo jwts.obo
            (record { issuer_id = o.issuer_id; pub_key = o.key.public })
            token
            target_audience
            now
          ≡ ok r)
        × (r.user_id ≡ sub)
        × (r.agent_id ≡ agent.claims.registered.subject)
        × Grants scope requested_scope r.scope
        × (r.email ≡ (if member (bytes "email") reveal then email else []))
  validate_obo-issue_sd o u sub email given_name scope signed_at salts t reveal agent_token
        target_audience requested_scope agent clock jti token now faithful sd_complete obo_complete
        made salt_bytes name_salt_bytes email_valid name_valid free begun live trusts accepted
        issued named agent_named full issued_before obo_live =
      let i =
        issue_obo-IsIssued std json jwts o agent_token (present t reveal) target_audience
          requested_scope clock jti token issued in
      let (r, shown, subject_is, scope_is, email_is, name_is) =
        validate_sd-present std json jwts.sd_user faithful u sub email given_name scope o.issuer_id
          signed_at clock.user_at salts t reveal sd_complete made salt_bytes name_salt_bytes
          email_valid name_valid free begun live in
      let user_is =
        presented_user o (record { issuer_id = u.issuer_id; pub_key = u.key.public }) t reveal
          clock.user_at r i.user trusts shown i.vouched in
      let subject' : i.user.subject ≡ sub =
        ap (λ (c : UserContext). c.subject) user_is ∙ subject_is in
      let scope' : i.user.scope ≡ scope = ap (λ (c : UserContext). c.scope) user_is ∙ scope_is in
      let email' =
        ap (λ (c : UserContext). c.email) user_is
        ∙ chosen_text (member (bytes "email") reveal) r.revealed_claims (bytes "email") email
            email_is in
      let agent_is : i.agent ≡ agent = ground (arith, i.accepted) in
      (
        _,
        validated_issued o agent_token (present t reveal) target_audience requested_scope clock jti
            token now i obo_complete (λ e. named (sym subject' ∙ e))
            (λ e.
              agent_named
                (ap (λ (a : ValidatedAgent). a.claims.registered.subject) (sym agent_is) ∙ e))
            full issued_before obo_live,
        subject',
        ap (λ (a : ValidatedAgent). a.claims.registered.subject) agent_is,
        rw scope' at i.granted,
        email',
      )
