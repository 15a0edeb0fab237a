-- ===== src/Obo/SdjwtLaws.antt =====
-- SD-JWT user tokens of pkg/obo/sdjwt.go: what a validated presentation reveals.
use ai_agent_security.Base.{
  Str, ◌==◌, eq_iff, ◌≡◌, refl, ◌⊎◌, inl, inr, List, [], ◌∷◌, Option, none, some, ok, Any, Map,
  lookup, insert, lookup-insert, Option-cases, Bool-cases, Result-cases, Time, split, arith,
}
use ai_agent_security.Keys.Base64.{decode}
use ai_agent_security.Platform.{Platform, TextsJson}
use ai_agent_security.Jwt.{Jwt, IsSound}
use ai_agent_security.Identity.Chain.{tilde}
use ai_agent_security.Tokens.{audience_options, parse_typed}
use ai_agent_security.Tokens.Laws.{
  IsVerified, parse_typed-IsVerified, parse_typed-issuer, parse_typed-audience,
}
use ai_agent_security.Obo.{sd_user_token_type}
use ai_agent_security.Obo.ScopeLaws.{member_sound}
use ai_agent_security.Obo.Sdjwt.{
  SdUserClaims, SdUserValidator, SdUserValidateResult, digest_of, name_and_value, open_disclosure,
  reveal_all, non_empty, validate_parts, validate_sd,
}

module _ (std : Platform) (json : TextsJson) where
  -- A disclosure that reveals a value under a name: its digest is in the token, and it is the
  -- encoding of an array of a salt, the name and the value.
  pub record Discloses (sd : List Str) (name value wire : Str) : Type 0 where
    pub listed : Any (λ d. d ≡ digest_of std wire) sd
    pub raw : Str
    pub decoded : decode wire ≡ some raw
    pub salt : Str
    pub read : json.texts_of_json raw ≡ some (salt ∷ name ∷ value ∷ [])

  name_and_value_sound :
      (texts : Option (List Str)) (name value : Str)
      → name_and_value texts ≡ some (name, value)
      → (salt : Str) × (texts ≡ some (salt ∷ name ∷ value ∷ []))
  name_and_value_sound none name value h = cc
  name_and_value_sound (some []) name value h = cc
  name_and_value_sound (some (a ∷ [])) name value h = cc
  name_and_value_sound (some (a ∷ b ∷ [])) name value h = cc
  name_and_value_sound (some (a ∷ b ∷ c ∷ [])) name value h = (a, ground arith)
  name_and_value_sound (some (a ∷ b ∷ c ∷ d ∷ rest)) name value h = cc

  open_disclosure-Discloses :
      (sd : List Str) (wire name value : Str)
      → open_disclosure std json sd wire ≡ ok (name, value)
      → Discloses sd name value wire
  unfolding open_disclosure
  open_disclosure-Discloses sd wire name value h = elim (Option-cases (decode wire)) [
    | inl bad ↦ ground arith
    | inr (raw, decoded) ↦
        let (salt, read) =
          name_and_value_sound (json.texts_of_json raw) name value (ground arith) in
        record {
          listed = member_sound (digest_of std wire) sd (ground arith);
          raw = raw;
          decoded = decoded;
          salt = salt;
          read = read;
        }
  ]

  -- A revealed value was there before, or one of the disclosures reveals it.
  reveal_all_sound :
      (sd wires : List Str) (m m' : Map Str) (name value : Str)
      → reveal_all std json sd wires m ≡ ok m'
      → lookup name m' ≡ some value
      → (lookup name m ≡ some value) ⊎ Any (Discloses sd name value) wires
  unfolding reveal_all
  reveal_all_sound sd [] m m' name value h found = inl (ground arith)
  reveal_all_sound sd (w ∷ ws) m m' name value h found =
      elim (Result-cases (open_disclosure std json sd w)) [
        | inr (e, bad) ↦ ground arith
        | inl ((n, v), opened) ↦
            elim (reveal_all_sound sd ws (insert n v m) m' name value (ground arith) found) [
              | inr later ↦ inr (inr later)
              | inl here ↦ elim (Bool-cases (n == name)) [
                | inl same ↦
                    let n_is : n ≡ name = (eq_iff n name).0 same in
                    let v_is : v ≡ value = ground (arith, lookup-insert n name v m) in
                    inr
                      (inl (open_disclosure-Discloses sd w name value (rw (← n_is, ← v_is) opened)))
                | inr other ↦ inl (ground (arith, lookup-insert n name v m))
              ]
            ]
      ]

  Any-non_empty : (P : Str → Type 0) (parts : List Str) → Any P (non_empty parts) → Any P parts
  unfolding non_empty
  Any-non_empty P [] h = absurd h
  Any-non_empty P ([] ∷ ps) h = inr (Any-non_empty P ps h)
  Any-non_empty P ((b ∷ p) ∷ ps) (inl here) = inl here
  Any-non_empty P ((b ∷ p) ∷ ps) (inr there) = inr (Any-non_empty P ps there)

  -- What a validated presentation is known to be: its first part is a verified token of the issuer
  -- for the audience, and each revealed value is in a disclosure that the token lists.
  pub record IsPresented (jwt : Jwt SdUserClaims) (sound : IsSound (λ c. c.registered) jwt)
      (v : SdUserValidator) (presentation audience : Str) (now : Time) (r : SdUserValidateResult)
      : Type 0 where
    pub jwt_str : Str
    pub parts : List Str
    pub cut : split tilde presentation ≡ jwt_str ∷ parts
    pub verified :
        IsVerified (λ c. c.registered) jwt sound sd_user_token_type v.pub_key now jwt_str r.claims
    pub issued : r.claims.registered.issuer ≡ v.issuer_id
    pub addressed : Any (λ a. a ≡ audience) r.claims.registered.audience
    pub same_subject : r.subject ≡ r.claims.registered.subject
    pub same_scope : r.scope ≡ r.claims.scope
    pub disclosed :
        (name value : Str)
        → lookup name r.revealed_claims ≡ some value
        → Any (Discloses r.claims.sd name value) parts

  module _ (jwt : Jwt SdUserClaims) (sound : IsSound (λ c. c.registered) jwt) where
    presented :
        (v : SdUserValidator) (presentation jwt_str : Str) (parts : List Str) (audience : Str)
        (now : Time) (r : SdUserValidateResult)
        → split tilde presentation ≡ jwt_str ∷ parts
        → parse_typed jwt
            (audience_options v.issuer_id audience)
            sd_user_token_type
            v.pub_key
            now
            jwt_str
          ≡ ok r.claims
        → reveal_all std json r.claims.sd (non_empty parts) [] ≡ ok r.revealed_claims
        → r.subject ≡ r.claims.registered.subject
        → r.scope ≡ r.claims.scope
        → IsPresented jwt sound v presentation audience now r
    unfolding lookup
    presented v presentation jwt_str parts audience now r cut parsed revealed subjects scopes =
        let opts = audience_options v.issuer_id audience in
        record {
          jwt_str = jwt_str;
          parts = parts;
          cut = cut;
          verified =
              parse_typed-IsVerified (λ c. c.registered) jwt sound opts sd_user_token_type v.pub_key
                now jwt_str r.claims parsed (cc) (inr (inr (inl refl)));
          issued =
              parse_typed-issuer (λ c. c.registered) jwt sound opts sd_user_token_type v.pub_key now
                jwt_str r.claims parsed v.issuer_id (inl refl);
          addressed =
              parse_typed-audience (λ c. c.registered) jwt sound opts sd_user_token_type v.pub_key
                now jwt_str r.claims parsed audience (inr (inl refl));
          same_subject = subjects;
          same_scope = scopes;
          disclosed = λ name value found.
              elim (reveal_all_sound r.claims.sd (non_empty parts) [] r.revealed_claims name value
                revealed found) [
                  | inl before ↦ cc
                  | inr among ↦ Any-non_empty (Discloses r.claims.sd name value) parts among
                ];
        }

    parts-IsPresented :
        (v : SdUserValidator) (presentation : Str) (pieces : List Str) (audience : Str) (now : Time)
        (r : SdUserValidateResult)
        → split tilde presentation ≡ pieces
        → validate_parts std json jwt v pieces audience now ≡ ok r
        → IsPresented jwt sound v presentation audience now r
    unfolding validate_parts
    parts-IsPresented v presentation [] audience now r cut h = cc
    parts-IsPresented v presentation (j ∷ []) audience now r cut h = cc
    parts-IsPresented v presentation (j ∷ p ∷ ps) audience now r cut h =
        elim (Result-cases (
          parse_typed jwt (audience_options v.issuer_id audience) sd_user_token_type v.pub_key now
            j)) [
              | inr (e, bad) ↦ ground arith
              | inl (c, parsed) ↦
                  elim (Result-cases (reveal_all std json c.sd (non_empty (p ∷ ps)) [])) [
                    | inr (e, bad) ↦ ground arith
                    | inl (m, revealed) ↦
                        let claims_are : r.claims ≡ c = ground arith in
                        let map_is : r.revealed_claims ≡ m = ground arith in
                        presented v presentation j (p ∷ ps) audience now r cut
                          (rw claims_are parsed) (rw (claims_are, map_is) revealed) (ground arith)
                          (ground arith)
                  ]
            ]

    -- A presentation that validates begins with an SD-JWT that is verified under the key of the
    -- identity provider, of the expected issuer, for the audience and not expired; the subject and
    -- the scope of the result are those of the token, and every value that the result reveals under
    -- a name is in a disclosure of the presentation whose digest the token lists, if the JWT
    -- library is sound.
    pub validate_sd-IsPresented :
        (v : SdUserValidator) (presentation audience : Str) (now : Time) (r : SdUserValidateResult)
        → validate_sd std json jwt v presentation audience now ≡ ok r
        → IsPresented jwt sound v presentation audience now r
    unfolding validate_sd
    validate_sd-IsPresented v presentation audience now r h =
        parts-IsPresented v presentation (split tilde presentation) audience now r refl
          (ground arith)
