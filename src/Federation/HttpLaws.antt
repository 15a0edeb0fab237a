-- ===== src/Federation/HttpLaws.antt =====
-- HTTPResolver: what the entities that it resolves are certified by.
use ai_agent_security.Base.{
  Str, ◌==◌, eq_iff, ◌≡◌, refl, ap, ◌∙◌, inl, inr, List, [], ◌∷◌, Option, some, ok, Any, Map,
  lookup, Time, Bool-cases, Option-cases, Result-cases, arith,
}
use ai_agent_security.Keys.{PublicKey, Jwk, jwk_to_public_key}
use ai_agent_security.Platform.{Platform}
use ai_agent_security.Jwt.{RegisteredClaims, Jwt, IsSound}
use ai_agent_security.Federation.{EntityConfiguration, SubordinateStatement, ClaimsJson, unix_time}
use ai_agent_security.Federation.Entity.{
  parse_entity_configuration, verify_entity_configuration, verify_subordinate_statement,
}
use ai_agent_security.Federation.Resolver.{ResolvedEntity, earlier, first_key}
use ai_agent_security.Federation.EntityLaws.{
  HasExpiries, verify_subordinate_statement_sound, verify_entity_configuration_sound,
}
use ai_agent_security.Federation.ChainLaws.{IsCertified, lt_earlier}
use ai_agent_security.Federation.Http.{
  configuration_url, statement_url, entity_of, round_under, first_entity, fetch_chain,
}

module _ (std : Platform) {M : Type 0} (registered : M → RegisteredClaims) (json : ClaimsJson M)
    (jwt : Jwt M) (sound : IsSound registered jwt)
    (expiries : HasExpiries std registered json jwt sound) (escape : Str → Str)
    (anchors : Map PublicKey) where
  -- The key and the configuration that an entity of a statement rests on.
  entity_of-pieces :
      (fetch : Str → Option Str) (id ec_jwt : Str) (now : Time) (ss : SubordinateStatement)
      (e : ResolvedEntity)
      → entity_of std json jwt escape fetch ec_jwt now ss ≡ some e
      → (jwk : Jwk) × (leaf_key : PublicKey) × (ec : EntityConfiguration) × (first_key id ss.jwks
          ≡ ok jwk)
        × (jwk_to_public_key jwk ≡ ok leaf_key)
        × (verify_entity_configuration std json jwt ec_jwt leaf_key now ≡ ok ec)
        × (e.jwks ≡ ss.jwks)
        × (e.expires_at ≡ earlier (unix_time ss.expires_at) (unix_time ec.expires_at))
  unfolding entity_of
  entity_of-pieces fetch id ec_jwt now ss e h = elim (Result-cases (first_key id ss.jwks)) [
    | inr (x, empty) ↦ ground arith
    | inl (jwk, first) ↦ elim (Result-cases (jwk_to_public_key jwk)) [
      | inr (x, bad) ↦ ground arith
      | inl (leaf_key, decoded) ↦
          elim (Result-cases (verify_entity_configuration std json jwt ec_jwt leaf_key now)) [
            | inr (x, bad) ↦ ground arith
            | inl (ec, self) ↦
                let e_is : e ≡ record {
                  jwks = ss.jwks;
                  expires_at = earlier (unix_time ss.expires_at) (unix_time ec.expires_at);
                } =
                  ground arith in
                (
                  jwk,
                  leaf_key,
                  ec,
                  first,
                  decoded,
                  self,
                  ap (λ (x : ResolvedEntity). x.jwks) e_is,
                  ap (λ (x : ResolvedEntity). x.expires_at) e_is,
                )
          ]
    ]
  ]

  entity_of-IsCertified :
      (fetch : Str → Option Str) (id ec_jwt ss_jwt : Str) (now : Time) (leaf : EntityConfiguration)
      (hint : Str) (anchor : PublicKey) (ss : SubordinateStatement) (e : ResolvedEntity)
      → parse_entity_configuration std json jwt ec_jwt ≡ ok leaf
      → Any (λ h. h ≡ hint) leaf.authority_hints
      → lookup hint anchors ≡ some anchor
      → verify_subordinate_statement std json jwt ss_jwt anchor now ≡ ok ss
      → ss.subject ≡ id
      → entity_of std json jwt escape fetch ec_jwt now ss ≡ some e
      → (c : IsCertified std registered json jwt sound anchors id ec_jwt ss_jwt now e) × (c.hint
          ≡ hint)
  entity_of-IsCertified fetch id ec_jwt ss_jwt now leaf hint anchor ss e parsed hinted trusted
        verified about h =
      let (jwk, leaf_key, ec, first, decoded, self, jwks_are, exp_is) =
        entity_of-pieces fetch id ec_jwt now ss e h in
      let (sm, s_verified, s_said, s_is) =
        verify_subordinate_statement_sound std registered json jwt sound ss_jwt anchor now ss
          verified in
      let (em, e_verified, e_said, e_is) =
        verify_entity_configuration_sound std registered json jwt sound ec_jwt leaf_key now ec
          self in
      let s_exp = expiries.statement_expiry sm ss s_is.expiry s_said s_is.expires in
      let e_exp = expiries.configuration_expiry em ec e_is.expiry e_said e_is.expires in
      (
        record {
          leaf = leaf;
          parsed = parsed;
          hint = hint;
          hinted = hinted;
          anchor = anchor;
          trusted = trusted;
          ss_claims = sm;
          vouched = s_is;
          ss = ss;
          stated = s_said;
          about = about;
          keys = jwks_are;
          jwk = jwk;
          first = ap (first_key id) jwks_are ∙ first;
          leaf_key = leaf_key;
          decoded = decoded;
          ec_claims = em;
          self_signed = e_is;
          unexpired = rw exp_is (
              lt_earlier now (unix_time ss.expires_at) (unix_time ec.expires_at)
                (rw s_exp s_is.unexpired) (rw e_exp e_is.unexpired));
        },
        refl,
      )

  -- An entity with the documents that the web gave for it: certified by them, and the statement is the
  -- one that the address of the anchor gave.
  pub record IsFetched (fetch : Str → Option Str) (id : Str) (now : Time) (e : ResolvedEntity)
      : Type 0 where
    pub ec_jwt : Str
    pub configured : fetch (configuration_url id) ≡ some ec_jwt
    pub ss_jwt : Str
    pub certified : IsCertified std registered json jwt sound anchors id ec_jwt ss_jwt now e
    pub stated : fetch (statement_url escape certified.hint id) ≡ some ss_jwt

  module _ (fetch : Str → Option Str) (id ec_jwt : Str) (now : Time) (leaf : EntityConfiguration)
      (parsed : parse_entity_configuration std json jwt ec_jwt ≡ ok leaf)
      (configured : fetch (configuration_url id) ≡ some ec_jwt) where
    round_under-IsFetched :
        (hint : Str) (e : ResolvedEntity)
        → Any (λ h. h ≡ hint) leaf.authority_hints
        → round_under std json jwt escape fetch id ec_jwt now hint (lookup hint anchors) ≡ some e
        → IsFetched fetch id now e
    unfolding round_under
    round_under-IsFetched hint e hinted h = elim (Option-cases (lookup hint anchors)) [
      | inl unknown ↦ ground arith
      | inr (anchor, trusted) ↦ elim (Option-cases (fetch (statement_url escape hint id))) [
        | inl missing ↦ ground arith
        | inr (ss_jwt, stated) ↦
            elim (Result-cases (verify_subordinate_statement std json jwt ss_jwt anchor now)) [
              | inr (x, bad) ↦ ground arith
              | inl (ss, verified) ↦ elim (Bool-cases (ss.subject == id)) [
                | inr other ↦ ground arith
                | inl same ↦
                    let (c, hint_is) =
                      entity_of-IsCertified fetch id ec_jwt ss_jwt now leaf hint anchor ss e parsed
                        hinted trusted verified ((eq_iff ss.subject id).0 same) (ground arith) in
                    record {
                      ec_jwt = ec_jwt;
                      configured = configured;
                      ss_jwt = ss_jwt;
                      certified = c;
                      stated = ap (λ h. fetch (statement_url escape h id)) hint_is ∙ stated;
                    }
              ]
            ]
      ]
    ]

    first_entity-IsFetched :
        (hints : List Str) (e : ResolvedEntity)
        → ((hint : Str) → Any (λ h. h ≡ hint) hints → Any (λ h. h ≡ hint) leaf.authority_hints)
        → first_entity std json jwt escape fetch anchors id ec_jwt now hints ≡ some e
        → IsFetched fetch id now e
    unfolding first_entity
    first_entity-IsFetched [] e within h = cc
    first_entity-IsFetched (hint ∷ hints) e within h =
        elim (Option-cases
          (round_under std json jwt escape fetch id ec_jwt now hint (lookup hint anchors))) [
            | inr (x, found) ↦ round_under-IsFetched hint e (within hint (inl refl)) (ground arith)
            | inl missing ↦
                first_entity-IsFetched hints e (λ g there. within g (inr there)) (ground arith)
          ]

  pub fetch_chain-IsFetched :
      (fetch : Str → Option Str) (id : Str) (now : Time) (e : ResolvedEntity)
      → fetch_chain std json jwt escape fetch anchors now id ≡ ok e
      → IsFetched fetch id now e
  unfolding fetch_chain
  fetch_chain-IsFetched fetch id now e h = elim (Option-cases (fetch (configuration_url id))) [
    | inl missing ↦ ground arith
    | inr (ec_jwt, configured) ↦
        elim (Result-cases (parse_entity_configuration std json jwt ec_jwt)) [
          | inr (x, bad) ↦ ground arith
          | inl (leaf, parsed) ↦
              first_entity-IsFetched fetch id ec_jwt now leaf parsed configured leaf.authority_hints
                e (λ g there. there)
                (elim (Option-cases (
                  first_entity std json jwt escape fetch anchors id ec_jwt now
                    leaf.authority_hints)) [
                      | inl missing ↦ ground arith
                      | inr (x, found) ↦ ground arith
                    ])
        ]
  ]
