-- ===== src/Federation/Certified.antt =====
-- Trust chains of pkg/federation/resolver.go: what a chain that is accepted certifies, and that it
-- stays accepted until it expires.
use ai_agent_security.Base.{
  Str, ◌==◌, eq_iff, ◌≡◌, refl, sym, ap, ◌∙◌, inl, inr, List, [], ◌∷◌, some, ok, Any, Map, lookup,
  Time, Bool-cases, Option-cases, Result-cases, arith,
}
use ai_agent_security.Keys.{PublicKey, Jwk, jwk_to_public_key}
use ai_agent_security.Platform.{Platform}
use ai_agent_security.Jwt.{RegisteredClaims, Jwt}
use ai_agent_security.Federation.{EntityConfiguration, SubordinateStatement, ClaimsJson, unix_time}
use ai_agent_security.Federation.Entity.{
  parse_entity_configuration, verify_entity_configuration, verify_subordinate_statement,
}
use ai_agent_security.Federation.Resolver.{
  ResolvedEntity, earlier, first_key, statement_under, first_verified, check_chain,
}

module _ (std : Platform) {M : Type 0} (registered : M → RegisteredClaims) (json : ClaimsJson M)
    (jwt : Jwt M) where
  -- A statement about `id` that the key of the anchor `hint` verifies.
  pub record IsVouchedBy (anchors : Map PublicKey) (id ss_jwt : Str) (now : Time) (hint : Str)
      (ss : SubordinateStatement) : Type 0 where
    pub anchor : PublicKey
    pub trusted : lookup hint anchors ≡ some anchor
    pub verified : verify_subordinate_statement std json jwt ss_jwt anchor now ≡ ok ss
    pub about : ss.subject ≡ id

  statement_under-IsVouchedBy :
      (anchors : Map PublicKey) (id ss_jwt : Str) (now : Time) (hint : Str)
      (ss : SubordinateStatement)
      → statement_under std json jwt id ss_jwt now (lookup hint anchors) ≡ some ss
      → IsVouchedBy anchors id ss_jwt now hint ss
  unfolding statement_under
  statement_under-IsVouchedBy anchors id ss_jwt now hint ss h =
      elim (Option-cases (lookup hint anchors)) [
        | inl unknown ↦ ground arith
        | inr (key, trusted) ↦
            elim (Result-cases (verify_subordinate_statement std json jwt ss_jwt key now)) [
              | inr (e, bad) ↦ ground arith
              | inl (s, verified) ↦ elim (Bool-cases (s.subject == id)) [
                | inr other ↦ ground arith
                | inl same ↦
                    let ss_is : ss ≡ s = ground arith in
                    record {
                      anchor = key;
                      trusted = trusted;
                      verified = rw ss_is verified;
                      about = rw ss_is ((eq_iff s.subject id).0 same);
                    }
              ]
            ]
      ]

  pub first_verified-IsVouchedBy :
      (anchors : Map PublicKey) (id ss_jwt : Str) (now : Time) (hints : List Str)
      (ss : SubordinateStatement)
      → first_verified std json jwt anchors id ss_jwt now hints ≡ some ss
      → (hint : Str) × Any (λ h. h ≡ hint) hints × IsVouchedBy anchors id ss_jwt now hint ss
  unfolding first_verified
  first_verified-IsVouchedBy anchors id ss_jwt now [] ss h = cc
  first_verified-IsVouchedBy anchors id ss_jwt now (hint ∷ hints) ss h =
      elim (Option-cases (statement_under std json jwt id ss_jwt now (lookup hint anchors))) [
        | inr (s, there) ↦
            let ss_is : ss ≡ s = ground arith in
            (
              hint,
              inl refl,
              statement_under-IsVouchedBy anchors id ss_jwt now hint ss
                  (there ∙ ap some (sym ss_is)),
            )
        | inl missing ↦
            let (g, among, vouched) =
              first_verified-IsVouchedBy anchors id ss_jwt now hints ss (ground arith) in
            (g, inr among, vouched)
      ]

  -- The parts of a chain that was accepted.
  pub record IsChain (anchors : Map PublicKey) (id ec_jwt ss_jwt : Str) (now : Time)
      (e : ResolvedEntity) : Type 0 where
    pub leaf : EntityConfiguration
    pub parsed : parse_entity_configuration std json jwt ec_jwt ≡ ok leaf
    pub ss : SubordinateStatement
    pub found : first_verified std json jwt anchors id ss_jwt now leaf.authority_hints ≡ some ss
    pub jwk : Jwk
    pub first : first_key id ss.jwks ≡ ok jwk
    pub leaf_key : PublicKey
    pub decoded : jwk_to_public_key jwk ≡ ok leaf_key
    pub ec : EntityConfiguration
    pub verified : verify_entity_configuration std json jwt ec_jwt leaf_key now ≡ ok ec
    pub entity_is : e ≡ record {
      jwks = ss.jwks;
      expires_at = earlier (unix_time ss.expires_at) (unix_time leaf.expires_at);
    }

  pub check_chain-IsChain :
      (anchors : Map PublicKey) (id ec_jwt ss_jwt : Str) (now : Time) (e : ResolvedEntity)
      → check_chain std json jwt anchors id ec_jwt ss_jwt now ≡ ok e
      → IsChain anchors id ec_jwt ss_jwt now e
  unfolding check_chain
  check_chain-IsChain anchors id ec_jwt ss_jwt now e h =
      elim (Result-cases (parse_entity_configuration std json jwt ec_jwt)) [
        | inr (_, bad) ↦ ground arith
        | inl (leaf, parsed) ↦
            elim (Option-cases
              (first_verified std json jwt anchors id ss_jwt now leaf.authority_hints)) [
                | inl bad ↦ ground arith
                | inr (ss, found) ↦ elim (Result-cases (first_key id ss.jwks)) [
                  | inr (_, bad) ↦ ground arith
                  | inl (jwk, first) ↦ elim (Result-cases (jwk_to_public_key jwk)) [
                    | inr (_, bad) ↦ ground arith
                    | inl (leaf_key, decoded) ↦
                        elim (Result-cases
                          (verify_entity_configuration std json jwt ec_jwt leaf_key now)) [
                            | inr (_, bad) ↦ ground arith
                            | inl (ec, verified) ↦ record {
                              leaf = leaf;
                              parsed = parsed;
                              ss = ss;
                              found = found;
                              jwk = jwk;
                              first = first;
                              leaf_key = leaf_key;
                              decoded = decoded;
                              ec = ec;
                              verified = verified;
                              entity_is = ground arith;
                            }
                          ]
                  ]
                ]
              ]
      ]

  pub check_chain_of_IsChain :
      (anchors : Map PublicKey) (id ec_jwt ss_jwt : Str) (now : Time) (e : ResolvedEntity)
      → IsChain anchors id ec_jwt ss_jwt now e
      → check_chain std json jwt anchors id ec_jwt ss_jwt now ≡ ok e
  unfolding check_chain
  check_chain_of_IsChain anchors id ec_jwt ss_jwt now e c =
      rw (c.parsed, c.found, c.first, c.decoded, c.verified, c.entity_is) refl
