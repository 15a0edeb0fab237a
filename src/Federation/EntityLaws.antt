-- ===== src/Federation/EntityLaws.antt =====
-- Entity statements: what their verification shows, and that the clock has no part in it until they
-- expire.
use ai_agent_security.Base.{Str, ◌≡◌, refl, ◌≤◌, ◌<◌, inl, inr, some, ok, Time, Result-cases, arith}
use ai_agent_security.Keys.{PublicKey}
use ai_agent_security.Platform.{Platform}
use ai_agent_security.Jwt.{Header, RegisteredClaims, Jwt, IsSound, IsTimely}
use ai_agent_security.Tokens.{parse_typed}
use ai_agent_security.Tokens.Laws.{IsVerified, parse_typed-IsVerified, parse_typed_later}
use ai_agent_security.Federation.{
  entity_statement_typ, EntityConfiguration, SubordinateStatement, ClaimsJson, unix_time,
}
use ai_agent_security.Federation.Entity.{
  entity_options, parse_entity_configuration, verify_entity_statement, verify_entity_configuration,
  verify_subordinate_statement,
}

module _ (std : Platform) {M : Type 0} (registered : M → RegisteredClaims) (json : ClaimsJson M)
    (jwt : Jwt M) where
  -- The field `exp` of the structs is the expiry that the JWT library reads, whether the struct comes
  -- from the verified claims or from the payload.
  pub record HasExpiries (sound : IsSound registered jwt) : Type 0 where
    pub statement_expiry :
        (m : M) (ss : SubordinateStatement) (e : Time)
        → json.statement_of m ≡ some ss
        → (registered m).expires_at ≡ some e
        → unix_time ss.expires_at ≡ e
    pub configuration_expiry :
        (m : M) (ec : EntityConfiguration) (e : Time)
        → json.configuration_of m ≡ some ec
        → (registered m).expires_at ≡ some e
        → unix_time ec.expires_at ≡ e
    pub payload_expiry :
        (token : Str) (h : Header) (m : M) (ec : EntityConfiguration) (e : Time)
        → sound.decode token ≡ some (h, m)
        → parse_entity_configuration std json jwt token ≡ ok ec
        → (registered m).expires_at ≡ some e
        → unix_time ec.expires_at ≡ e

  module _ (sound : IsSound registered jwt) where
    -- The verified claims of an entity statement.
    abbrev pub IsStatement : PublicKey → Time → Str → M → Type 0
    IsStatement key now token m =
        IsVerified registered jwt sound entity_statement_typ key now token m

    pub verify_entity_statement-IsStatement :
        (token : Str) (key : PublicKey) (now : Time) (m : M)
        → verify_entity_statement std json jwt token key now ≡ ok m
        → IsStatement key now token m
    unfolding verify_entity_statement
    verify_entity_statement-IsStatement token key now m h =
        let parsed : parse_typed jwt entity_options entity_statement_typ key now token ≡ ok m =
          elim (Result-cases (parse_typed jwt entity_options entity_statement_typ key now token)) [
            | inl (c, e) ↦ ground arith
            | inr (e, bad) ↦ ground arith
          ] in
        parse_typed-IsVerified registered jwt sound entity_options entity_statement_typ key now
          token m parsed (cc) (inl refl)

    pub verify_subordinate_statement_sound :
        (token : Str) (key : PublicKey) (now : Time) (ss : SubordinateStatement)
        → verify_subordinate_statement std json jwt token key now ≡ ok ss
        → (m : M) × (verify_entity_statement std json jwt token key now ≡ ok m)
          × (json.statement_of m ≡ some ss)
          × IsStatement key now token m
    unfolding verify_subordinate_statement
    verify_subordinate_statement_sound token key now ss h =
        elim (Result-cases (verify_entity_statement std json jwt token key now)) [
          | inr (e, bad) ↦ ground arith
          | inl (m, verified) ↦ (
            m,
            verified,
            ground arith,
            verify_entity_statement-IsStatement token key now m verified,
          )
        ]

    pub verify_entity_configuration_sound :
        (token : Str) (key : PublicKey) (now : Time) (ec : EntityConfiguration)
        → verify_entity_configuration std json jwt token key now ≡ ok ec
        → (m : M) × (verify_entity_statement std json jwt token key now ≡ ok m)
          × (json.configuration_of m ≡ some ec)
          × IsStatement key now token m
    unfolding verify_entity_configuration
    verify_entity_configuration_sound token key now ec h =
        elim (Result-cases (verify_entity_statement std json jwt token key now)) [
          | inr (e, bad) ↦ ground arith
          | inl (m, verified) ↦ (
            m,
            verified,
            ground arith,
            verify_entity_statement-IsStatement token key now m verified,
          )
        ]

  pub verify_entity_statement_later :
      (token : Str) (key key' : PublicKey) (earlier now : Time) (m : M)
      → IsTimely registered jwt
      → verify_entity_statement std json jwt token key earlier ≡ ok m
      → earlier ≤ now
      → ((e : Time) → (registered m).expires_at ≡ some e → now < e)
      → verify_entity_statement std json jwt token key' now
        ≡ verify_entity_statement std json jwt token key' earlier
  unfolding verify_entity_statement
  verify_entity_statement_later token key key' earlier now m timely h past live =
      let parsed : parse_typed jwt entity_options entity_statement_typ key earlier token ≡ ok m =
        elim (Result-cases
          (parse_typed jwt entity_options entity_statement_typ key earlier token)) [
            | inl (c, e) ↦ ground arith
            | inr (e, bad) ↦ ground arith
          ] in
      rw
        (parse_typed_later registered jwt entity_options entity_statement_typ key key' earlier now
          token m timely parsed past live)
        refl
