-- ===== src/Federation/Built.antt =====
-- Entity statements that were built with a key verify under it.
use ai_agent_security.Base.{
  Str, ◌≡◌, refl, ap, ◌∙◌, ◌<◌, inl, inr, true, List, none, some, Result, ok, ◌>>=◌, require, Time,
  ℤ, add_time, Option-cases, Result-cases, arith,
}
use ai_agent_security.Keys.{
  PublicKey, PrivateKey, Jwk, is_on_curve, public_key_to_jwk, jwk_to_public_key,
}
use ai_agent_security.Keys.Laws.{jwk_to_public_key-public_key_to_jwk}
use ai_agent_security.Platform.{Platform}
use ai_agent_security.Jwt.{RegisteredClaims, Jwt, IsComplete}
use ai_agent_security.Ssf.{unix}
use ai_agent_security.Tokens.Laws.{parse_typed-sign}
use ai_agent_security.Federation.{
  entity_statement_typ, EntityConfiguration, SubordinateStatement, ClaimsJson, unix_time,
}
use ai_agent_security.Federation.Entity.{
  unmarshal_verified, entity_header, entity_options, peek_payload, jwk_for, built_configuration,
  build_entity_configuration, built_statement, build_subordinate_statement,
  parse_entity_configuration, verify_entity_statement, verify_entity_configuration,
  verify_subordinate_statement,
}
use ai_agent_security.Federation.Resolver.{live}
use ai_agent_security.Federation.Entity

module _ (std : Platform) {M : Type 0} (registered : M → RegisteredClaims) (json : ClaimsJson M)
    (jwt : Jwt M) where
  -- The claims map of a struct reads back as the struct, and the JWT library reads its expiry.
  pub record ReadsStatement (ss : SubordinateStatement) : Type 0 where
    pub back : json.statement_of (json.of_statement ss) ≡ some ss
    pub expires : (registered (json.of_statement ss)).expires_at ≡ some (unix_time ss.expires_at)
    pub no_start : (registered (json.of_statement ss)).not_before ≡ none

  -- So too for a configuration, also from the payload of its compact token.
  pub record ReadsConfiguration (ec : EntityConfiguration) (token : Str) : Type 0 where
    pub back : json.configuration_of (json.of_configuration ec) ≡ some ec
    pub expires :
        (registered (json.of_configuration ec)).expires_at ≡ some (unix_time ec.expires_at)
    pub no_start : (registered (json.of_configuration ec)).not_before ≡ none
    pub payload : Str
    pub peeked : peek_payload token ≡ ok payload
    pub unmarshalled : json.configuration_of_json payload ≡ some ec

  verify-signed :
      (kid : Str) (c : M) (key : PrivateKey) (token : Str) (now exp : Time)
      → IsComplete registered jwt
      → jwt.sign (entity_header kid) c key ≡ some token
      → (registered c).expires_at ≡ some exp
      → (registered c).not_before ≡ none
      → now < exp
      → verify_entity_statement std json jwt token key.public now ≡ ok c
  unfolding verify_entity_statement
  verify-signed kid c key token now exp complete signed expires no_start ahead =
      rw
        (parse_typed-sign registered jwt entity_options entity_statement_typ (entity_header kid) key
          now token c complete refl signed (λ t e. cc) ((exp, expires, ahead), (inl refl, tt)))
        refl

  pub jwk_for-key :
      (key : PublicKey) (kid : Str) (jwk : Jwk)
      → is_on_curve key.x key.y ≡ true
      → jwk_for std key kid ≡ ok jwk
      → jwk_to_public_key jwk ≡ ok key
  unfolding jwk_for
  jwk_for-key key kid jwk on h = elim (Result-cases (public_key_to_jwk (some key) kid)) [
    | inr (e, bad) ↦ ground arith
    | inl (j, built) ↦ elim (Option-cases (std.json_of_jwk j)) [
      | inl bad ↦ ground arith
      | inr (raw, marshalled) ↦
          let j_is : j ≡ jwk = ground arith in
          rw j_is at (jwk_to_public_key-public_key_to_jwk key kid j on built)
    ]
  ]

  signed_statement :
      (anchor_id id kid : Str) (pub_key : PublicKey) (anchor_key : PrivateKey) (anchor_kid : Str)
      (ttl : ℤ) (t : Time) (jwk : Jwk) (token : Str)
      → jwk_for std pub_key kid ≡ ok jwk
      → build_subordinate_statement std json jwt anchor_id id pub_key kid anchor_key anchor_kid ttl
          t
        ≡ ok token
      → jwt.sign
          (entity_header anchor_kid)
          (json.of_statement (built_statement std json jwt anchor_id id jwk ttl t))
          anchor_key
        ≡ some token
  unfolding build_subordinate_statement
  signed_statement anchor_id id kid pub_key anchor_key anchor_kid ttl t jwk token made h =
      ground arith

  signed_configuration :
      (id kid org : Str) (key : PrivateKey) (hints : List Str) (ttl : ℤ) (t : Time) (jwk : Jwk)
      (token : Str)
      → jwk_for std key.public kid ≡ ok jwk
      → build_entity_configuration std json jwt id key kid org hints ttl t ≡ ok token
      → jwt.sign
          (entity_header kid)
          (json.of_configuration (built_configuration std json jwt id jwk org hints ttl t))
          key
        ≡ some token
  unfolding build_entity_configuration
  signed_configuration id kid org key hints ttl t jwk token made h = ground arith

  -- A statement that was built verifies under the key it was built with until it expires.
  pub verified_statement :
      (anchor_id id kid : Str) (pub_key : PublicKey) (anchor_key : PrivateKey) (anchor_kid : Str)
      (ttl : ℤ) (t now : Time) (jwk : Jwk) (token : Str)
      → IsComplete registered jwt
      → jwk_for std pub_key kid ≡ ok jwk
      → build_subordinate_statement std json jwt anchor_id id pub_key kid anchor_key anchor_kid ttl
          t
        ≡ ok token
      → ReadsStatement (built_statement std json jwt anchor_id id jwk ttl t)
      → now < unix_time (unix (add_time t ttl))
      → verify_subordinate_statement std json jwt token anchor_key.public now
        ≡ ok (built_statement std json jwt anchor_id id jwk ttl t)
  unfolding verify_subordinate_statement built_statement
  verified_statement anchor_id id kid pub_key anchor_key anchor_kid ttl t now jwk token complete
        made stated reads live =
      let ss = built_statement std json jwt anchor_id id jwk ttl t in
      let verified =
        verify-signed anchor_kid (json.of_statement ss) anchor_key token now
          (unix_time ss.expires_at) complete
          (signed_statement anchor_id id kid pub_key anchor_key anchor_kid ttl t jwk token made
            stated)
          reads.expires reads.no_start live in
      ap
        (λ (x : Result Entity.Error M). x >>= λ m. require (json.statement_of m) unmarshal_verified)
        verified
      ∙ rw reads.back refl

  -- So does a configuration.
  pub verified_configuration :
      (id kid org : Str) (key : PrivateKey) (hints : List Str) (ttl : ℤ) (t now : Time) (jwk : Jwk)
      (token : Str)
      → IsComplete registered jwt
      → jwk_for std key.public kid ≡ ok jwk
      → build_entity_configuration std json jwt id key kid org hints ttl t ≡ ok token
      → ReadsConfiguration (built_configuration std json jwt id jwk org hints ttl t) token
      → now < unix_time (unix (add_time t ttl))
      → verify_entity_configuration std json jwt token key.public now
        ≡ ok (built_configuration std json jwt id jwk org hints ttl t)
  unfolding verify_entity_configuration built_configuration
  verified_configuration id kid org key hints ttl t now jwk token complete made configured reads
        live =
      let ec = built_configuration std json jwt id jwk org hints ttl t in
      let verified =
        verify-signed kid (json.of_configuration ec) key token now (unix_time ec.expires_at)
          complete (signed_configuration id kid org key hints ttl t jwk token made configured)
          reads.expires reads.no_start live in
      ap
        (λ (x : Result Entity.Error M).
          x >>= λ m. require (json.configuration_of m) unmarshal_verified)
        verified
      ∙ rw reads.back refl
