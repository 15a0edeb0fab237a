-- ===== src/Obo/Disclosures.antt =====
-- Disclosures of pkg/obo/sdjwt.go: a presentation of disclosures that were made is validated.
use ai_agent_security.Base.{
  Str, is_empty, is_empty-false, split, split-join, Free, ◌≡◌, refl, sym, ap, ◌∙◌, inl, inr, true,
  false, List, [], ◌∷◌, ◌++◌, map, some, ok, All, Any, Map, insert, Option-cases, Bool-cases, Time,
  arith,
}
use ai_agent_security.Keys.Base64.{encode, decode, decode-encode, AreBytes}
use ai_agent_security.Keys.Alphabet.{encode-ascii, encode-no_tilde, encode-ne-nil}
use ai_agent_security.Platform.{Platform, TextsJson, IsFaithfulJson}
use ai_agent_security.Jwt.{Jwt}
use ai_agent_security.Identity.Chain.{tilde}
use ai_agent_security.Tokens.{audience_options, parse_typed}
use ai_agent_security.Obo.{sd_user_token_type, member}
use ai_agent_security.Obo.ScopeLaws.{member_complete}
use ai_agent_security.Obo.Sdjwt.{
  Disclosure, SdUserClaims, SdUserValidator, digest_of, digest, new_disclosure, build_sd_jwt,
  select, open_disclosure, reveal_all, non_empty, validate_parts, validate_sd,
}

abbrev wire_of : Disclosure → Str
wire_of d = d.wire

-- The entries that disclosures reveal, in their order.
unfoldable pub insert_all : List Disclosure → Map Str → Map Str
insert_all [] m = m
insert_all (d ∷ ds) m = insert_all ds (insert d.name d.value m)

module _ (json : TextsJson) where
  -- A disclosure that reads back as it was made.
  pub record IsMade (d : Disclosure) : Type 0 where
    pub raw : Str
    pub decoded : decode d.wire ≡ some raw
    pub read : json.texts_of_json raw ≡ some (d.salt ∷ d.name ∷ d.value ∷ [])
    pub free : Free tilde d.wire
    pub full : is_empty d.wire ≡ false

  pub new_disclosure-IsMade :
      (salt_bytes name value : Str) (d : Disclosure)
      → IsFaithfulJson json
      → AreBytes salt_bytes
      → json.valid_utf8 name ≡ true
      → json.valid_utf8 value ≡ true
      → new_disclosure json salt_bytes name value ≡ ok d
      → IsMade d × (d.name ≡ name) × (d.value ≡ value)
  unfolding new_disclosure
  new_disclosure-IsMade salt_bytes name value d faithful are_bytes name_valid value_valid made =
      let texts = encode salt_bytes ∷ name ∷ value ∷ [] in
      elim (Option-cases (json.json_of_texts texts)) [
        | inl bad ↦ ground arith
        | inr (raw, marshalled) ↦
            let raw_bytes = faithful.json_of_texts-AreBytes texts raw marshalled in
            let salt_valid =
              faithful.ascii-valid_utf8 (encode salt_bytes) (encode-ascii salt_bytes are_bytes) in
            let d_is : d ≡ record {
              name = name;
              value = value;
              salt = encode salt_bytes;
              wire = encode raw;
            } =
              ground arith in
            rw d_is (
              record {
                raw = raw;
                decoded = decode-encode raw raw_bytes;
                read =
                    faithful.texts_of_json-json_of_texts texts raw
                      (salt_valid, (name_valid, (value_valid, tt))) marshalled;
                free = encode-no_tilde raw raw_bytes;
                full =
                    is_empty-false (encode raw)
                      (encode-ne-nil raw (λ e. faithful.json_of_texts-ne-nil texts (cc)));
              },
              refl,
              refl,
            )
      ]

  pub All-select :
      (P : Disclosure → Type 0) (reveal : List Str) (ds : List Disclosure)
      → All P ds
      → All P (select reveal ds)
  unfolding select
  All-select P reveal [] h = tt
  All-select P reveal (d ∷ ds) (p, h) = elim (Bool-cases (member d.name reveal)) [
    | inl wanted ↦ rw wanted (p, All-select P reveal ds h)
    | inr other ↦ rw other (All-select P reveal ds h)
  ]

  wires-Free : (ds : List Disclosure) → All IsMade ds → All (Free tilde) (map wire_of ds ++ [] ∷ [])
  wires-Free [] h = (tt, tt)
  wires-Free (d ∷ ds) (made, h) = (made.free, wires-Free ds h)

  non_empty-wires :
      (ds : List Disclosure)
      → All IsMade ds
      → non_empty (map wire_of ds ++ [] ∷ []) ≡ map wire_of ds
  unfolding non_empty
  non_empty-wires [] h = refl
  non_empty-wires (d ∷ ds) (made, h) = ground (arith, non_empty-wires ds h, made.full)

  split-build_sd_jwt :
      (jwt_str : Str) (ds : List Disclosure)
      → Free tilde jwt_str
      → All IsMade ds
      → split tilde (build_sd_jwt jwt_str ds) ≡ jwt_str ∷ (map wire_of ds ++ [] ∷ [])
  unfolding build_sd_jwt
  split-build_sd_jwt jwt_str ds free h =
      split-join tilde (jwt_str ∷ (map wire_of ds ++ [] ∷ [])) (λ e. cc) (free, wires-Free ds h)

  module _ (std : Platform) where
    open_disclosure-made :
        (sd : List Str) (d : Disclosure)
        → IsMade d
        → Any (λ t. t ≡ digest std d) sd
        → open_disclosure std json sd d.wire ≡ ok (d.name, d.value)
    unfolding open_disclosure digest
    open_disclosure-made sd d made listed =
        ground (arith, member_complete (digest_of std d.wire) sd listed, made.decoded, made.read)

    -- Made disclosures that the token lists reveal their values.
    reveal_all-made :
        (sd : List Str) (ds : List Disclosure) (m : Map Str)
        → All IsMade ds
        → All (λ (d : Disclosure). Any (λ t. t ≡ digest std d) sd) ds
        → reveal_all std json sd (map wire_of ds) m ≡ ok (insert_all ds m)
    unfolding reveal_all insert_all
    reveal_all-made sd [] m h listed = refl
    reveal_all-made sd (d ∷ ds) m (made, h) (there, listed) =
        rw (open_disclosure-made sd d made there)
          (reveal_all-made sd ds (insert d.name d.value m) h listed)

    module _ (jwt : Jwt SdUserClaims) where
      validate_sd-pieces :
          (v : SdUserValidator) (presentation j q : Str) (qs : List Str) (audience : Str)
          (now : Time) (c : SdUserClaims) (m : Map Str)
          → split tilde presentation ≡ j ∷ q ∷ qs
          → parse_typed jwt
              (audience_options v.issuer_id audience)
              sd_user_token_type
              v.pub_key
              now
              j
            ≡ ok c
          → reveal_all std json c.sd (non_empty (q ∷ qs)) [] ≡ ok m
          → validate_sd std json jwt v presentation audience now
            ≡ ok (record {
              claims = c;
              subject = c.registered.subject;
              scope = c.scope;
              revealed_claims = m;
            })
      unfolding validate_sd validate_parts split
      validate_sd-pieces v [] j q qs audience now c m cut parsed revealed = cc
      validate_sd-pieces v (b ∷ p) j q qs audience now c m cut parsed revealed =
          rw (cut, parsed, revealed) refl

      tail-cons :
          (ds : List Disclosure)
          → (q : Str) × (qs : List Str) × (map wire_of ds ++ [] ∷ [] ≡ q ∷ qs)
      tail-cons [] = ([], [], refl)
      tail-cons (d ∷ ds) = (d.wire, map wire_of ds ++ [] ∷ [], refl)

      -- A presentation of made disclosures that the token lists is validated, and reveals them.
      pub validate_sd-built :
          (v : SdUserValidator) (jwt_str : Str) (ds : List Disclosure) (audience : Str) (now : Time)
          (c : SdUserClaims)
          → Free tilde jwt_str
          → All IsMade ds
          → All (λ (d : Disclosure). Any (λ t. t ≡ digest std d) c.sd) ds
          → parse_typed jwt
              (audience_options v.issuer_id audience)
              sd_user_token_type
              v.pub_key
              now
              jwt_str
            ≡ ok c
          → validate_sd std json jwt v (build_sd_jwt jwt_str ds) audience now
            ≡ ok (record {
              claims = c;
              subject = c.registered.subject;
              scope = c.scope;
              revealed_claims = insert_all ds [];
            })
      validate_sd-built v jwt_str ds audience now c free made listed parsed =
          let (q, qs, shape) = tail-cons ds in
          let cut = split-build_sd_jwt jwt_str ds free made in
          let revealed = reveal_all-made c.sd ds [] made listed in
          let wires = non_empty-wires ds made in
          validate_sd-pieces v (build_sd_jwt jwt_str ds) jwt_str q qs audience now c
            (insert_all ds []) (cut ∙ ap (λ l. jwt_str ∷ l) shape) parsed
            (ap (λ l. reveal_all std json c.sd l []) (ap non_empty (sym shape) ∙ wires) ∙ revealed)
