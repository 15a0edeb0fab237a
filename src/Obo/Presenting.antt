-- ===== src/Obo/Presenting.antt =====
-- Presentations of pkg/obo/sdjwt.go: what Present reveals of an issued token is what Validate finds.
use ai_agent_security.Base.{
  Str, bytes, ◌==◌, Free, ◌≡◌, refl, ap, ◌∙◌, ◌≤◌, ◌<◌, inl, inr, true, List, [], ◌∷◌, none, some,
  ok, Any, lookup, insert, Result-cases, Time, add_time, if◌then◌else◌, arith,
}
use ai_agent_security.Keys.Base64.{AreBytes}
use ai_agent_security.Platform.{Platform, TextsJson, IsFaithfulJson}
use ai_agent_security.Jwt.{Jwt, IsComplete}
use ai_agent_security.Identity.Chain.{tilde}
use ai_agent_security.Tokens.{typed_header}
use ai_agent_security.Tokens.Laws.{parse_typed-issued}
use ai_agent_security.Obo.{sd_user_token_type, member}
use ai_agent_security.Obo.Sdjwt.{
  Disclosure, SdUserClaims, SdUserToken, SdUserIssuer, SdUserValidateResult, digest, new_disclosure,
  select, present, sd_claims, issue_sd, validate_sd,
}
use ai_agent_security.Obo.Disclosures.{
  insert_all, IsMade, new_disclosure-IsMade, All-select, validate_sd-built,
}

-- What selecting among the two disclosures of an issued token reveals.
selected_email :
    (reveal : List Str) (d e : Disclosure)
    → d.name ≡ bytes "email"
    → e.name ≡ bytes "given_name"
    → lookup (bytes "email") (insert_all (select reveal (d ∷ e ∷ [])) [])
      ≡ (if member (bytes "email") reveal then some d.value else none)
unfolding select insert_all insert lookup ◌==◌
selected_email reveal d e is_email is_name = ground arith

selected_name :
    (reveal : List Str) (d e : Disclosure)
    → d.name ≡ bytes "email"
    → e.name ≡ bytes "given_name"
    → lookup (bytes "given_name") (insert_all (select reveal (d ∷ e ∷ [])) [])
      ≡ (if member (bytes "given_name") reveal then some e.value else none)
unfolding select insert_all insert lookup ◌==◌
selected_name reveal d e is_email is_name = ground arith

module _ (std : Platform) (json : TextsJson) (jwt : Jwt SdUserClaims)
    (faithful : IsFaithfulJson json) where
  -- The last step of `validate_sd-present`, once the two disclosures and the signature are there.
  present_made :
      (u : SdUserIssuer) (sub email given_name scope audience : Str) (issued_at now : Time)
      (reveal : List Str) (d e : Disclosure) (signed : Str)
      → IsComplete (λ c. c.registered) jwt
      → IsMade json d
      → IsMade json e
      → jwt.sign
          (typed_header sd_user_token_type)
          (sd_claims std json jwt u sub scope audience d e issued_at)
          u.key
        ≡ some signed
      → Free tilde signed
      → issued_at ≤ now
      → now < jwt.numeric_date (add_time issued_at u.ttl)
      → validate_sd std json jwt
          (record { issuer_id = u.issuer_id; pub_key = u.key.public })
          (present (record { jwt = signed; disclosures = d ∷ e ∷ [] }) reveal)
          audience
          now
        ≡ ok (record {
          claims = sd_claims std json jwt u sub scope audience d e issued_at;
          subject = sub;
          scope = scope;
          revealed_claims = insert_all (select reveal (d ∷ e ∷ [])) [];
        })
  unfolding present sd_claims
  present_made u sub email given_name scope audience issued_at now reveal d e signed complete d_made
        e_made sealed free begun live =
      let c = sd_claims std json jwt u sub scope audience d e issued_at in
      let parsed =
        parse_typed-issued (λ c. c.registered) jwt sd_user_token_type u.issuer_id sub audience []
          u.ttl u.key issued_at now signed c complete refl sealed begun live in
      validate_sd-built json std jwt (record { issuer_id = u.issuer_id; pub_key = u.key.public })
        signed (select reveal (d ∷ e ∷ [])) audience now c free
        (All-select json (IsMade json) reveal (d ∷ e ∷ []) (d_made, (e_made, tt)))
        (All-select json (λ (f : Disclosure). Any (λ t. t ≡ digest std f) c.sd) reveal (d ∷ e ∷ [])
          (inl refl, (inr (inl refl), tt)))
        parsed

  -- The two disclosures of an issued token, and its signature.
  issue_sd-pieces :
      (u : SdUserIssuer) (sub email given_name scope audience : Str) (issued_at : Time)
      (salts : Str × Str) (t : SdUserToken)
      → issue_sd std json jwt u sub email given_name scope audience issued_at salts ≡ ok t
      → (d : Disclosure) × (e : Disclosure) × (new_disclosure json salts.0 (bytes "email") email
          ≡ ok d)
        × (new_disclosure json salts.1 (bytes "given_name") given_name ≡ ok e)
        × (jwt.sign
              (typed_header sd_user_token_type)
              (sd_claims std json jwt u sub scope audience d e issued_at)
              u.key
            ≡ some t.jwt)
        × (t ≡ record { jwt = t.jwt; disclosures = d ∷ e ∷ [] })
  unfolding issue_sd
  issue_sd-pieces u sub email given_name scope audience issued_at salts t made =
      elim (Result-cases (new_disclosure json salts.0 (bytes "email") email)) [
        | inr (err_, bad) ↦ ground arith
        | inl (d, d_made) ↦
            elim (Result-cases (new_disclosure json salts.1 (bytes "given_name") given_name)) [
              | inr (err_, bad) ↦ ground arith
              | inl (e, e_made) ↦ (d, e, d_made, e_made, ground arith, ground arith)
            ]
      ]

  -- An issued SD-JWT token whose compact form holds no tilde, presented with any list of names to
  -- reveal, validates for its audience from its issue until it expires, to its subject and scope, and
  -- reveals the email exactly if "email" is in the list and the given name exactly if "given_name"
  -- is, if the two values are UTF-8, the salts are bytes, the JSON library is faithful and the JWT
  -- library complete.
  pub validate_sd-present :
      (u : SdUserIssuer) (sub email given_name scope audience : Str) (issued_at now : Time)
      (salts : Str × Str) (t : SdUserToken) (reveal : List Str)
      → IsComplete (λ c. c.registered) jwt
      → issue_sd std json jwt u sub email given_name scope audience issued_at salts ≡ ok t
      → AreBytes salts.0
      → AreBytes salts.1
      → json.valid_utf8 email ≡ true
      → json.valid_utf8 given_name ≡ true
      → Free tilde t.jwt
      → issued_at ≤ now
      → now < jwt.numeric_date (add_time issued_at u.ttl)
      → (r : SdUserValidateResult) × (validate_sd std json jwt
            (record { issuer_id = u.issuer_id; pub_key = u.key.public })
            (present t reveal)
            audience
            now
          ≡ ok r)
        × (r.subject ≡ sub)
        × (r.scope ≡ scope)
        × (lookup (bytes "email") r.revealed_claims
            ≡ (if member (bytes "email") reveal then some email else none))
        × (lookup (bytes "given_name") r.revealed_claims
            ≡ (if member (bytes "given_name") reveal then some given_name else none))
  validate_sd-present u sub email given_name scope audience issued_at now salts t reveal complete
        made salt_bytes name_salt_bytes email_valid name_valid free begun live =
      let (d, e, d_made, e_made, sealed, t_is) =
        issue_sd-pieces u sub email given_name scope audience issued_at salts t made in
      let (d_is, d_name, d_value) =
        new_disclosure-IsMade json salts.0 (bytes "email") email d faithful salt_bytes
          (faithful.ascii-valid_utf8 (bytes "email") (omega arith)) email_valid d_made in
      let (e_is, e_name, e_value) =
        new_disclosure-IsMade json salts.1 (bytes "given_name") given_name e faithful
          name_salt_bytes (faithful.ascii-valid_utf8 (bytes "given_name") (omega arith)) name_valid
          e_made in
      let shown =
        present_made u sub email given_name scope audience issued_at now reveal d e t.jwt complete
          d_is e_is sealed free begun live in
      (
        _,
        ap
              (λ (k : SdUserToken).
                validate_sd std json jwt
                  (record { issuer_id = u.issuer_id; pub_key = u.key.public }) (present k reveal)
                  audience now)
              t_is
            ∙ shown,
        refl,
        refl,
        selected_email reveal d e d_name e_name
            ∙ ap (λ v. if member (bytes "email") reveal then some v else none) d_value,
        selected_name reveal d e d_name e_name
            ∙ ap (λ v. if member (bytes "given_name") reveal then some v else none) e_value,
      )
