-- ===== src/Federation/Flow.antt =====
-- From the building of entity statements to the resolution of the entity's key.
use ai_agent_security.Base.{
  Str, eq_iff, eq_refl, is_empty-false, ◌≡◌, refl, ap, ◌∙◌, ◌≢◌, ◌<◌, true, List, [], ◌∷◌, none,
  some, ok, Map, lookup, delete, lookup-insert_self, lookup-delete, Time, ℤ, add_time, arith,
}
use ai_agent_security.Keys.{PublicKey, PrivateKey, Jwk, is_on_curve}
use ai_agent_security.Platform.{Platform}
use ai_agent_security.Jwt.{RegisteredClaims, Jwt, IsComplete}
use ai_agent_security.Ssf.{unix}
use ai_agent_security.Gateway.{entity_key}
use ai_agent_security.Federation.{EntityConfiguration, SubordinateStatement, ClaimsJson, unix_time}
use ai_agent_security.Federation.Entity.{
  jwk_for, built_configuration, build_entity_configuration, built_statement,
  build_subordinate_statement, parse_entity_configuration, verify_subordinate_statement,
}
use ai_agent_security.Federation.Resolver.{
  ResolvedEntity, InMemoryResolver, register_entity_config, register_subordinate_statement, earlier,
  live, statement_under, first_verified, check_chain, resolve_chain, stored, resolve,
}
use ai_agent_security.Federation.Certified.{check_chain_of_IsChain}
use ai_agent_security.Federation.CacheLaws.{resolve_stale}
use ai_agent_security.Federation.Built.{
  ReadsStatement, ReadsConfiguration, verified_statement, verified_configuration, jwk_for-key,
}

module _ (std : Platform) {M : Type 0} (registered : M → RegisteredClaims) (json : ClaimsJson M)
    (jwt : Jwt M) where
  -- A resolver resolves an entity from the documents that were just registered for it.
  resolve-registered :
      (r : InMemoryResolver) (id ec_jwt ss_jwt : Str) (now : Time) (e : ResolvedEntity)
      → check_chain std json jwt r.trust_anchors id ec_jwt ss_jwt now ≡ ok e
      → (resolve std json jwt now id
          (register_subordinate_statement id ss_jwt (register_entity_config id ec_jwt r))).1
        ≡ ok e
  unfolding register_subordinate_statement register_entity_config resolve_chain stored live
  resolve-registered r id ec_jwt ss_jwt now e h =
      let s = register_subordinate_statement id ss_jwt (register_entity_config id ec_jwt r) in
      let gone : live now (lookup id s.cache) ≡ none =
        ground (arith, lookup-delete id id (delete id r.cache), eq_refl id) in
      let answer : resolve_chain std json jwt s now id ≡ ok e =
        rw
          (
            lookup-insert_self id ec_jwt r.entity_configs,
            lookup-insert_self id ss_jwt r.sub_statements,
          )
          h in
      ap (λ x. x.1) (resolve_stale std json jwt s id now gone) ∙ rw answer refl

  parsed_configuration :
      (ec : EntityConfiguration) (token : Str)
      → ec.issuer ≢ []
      → ec.subject ≢ []
      → ReadsConfiguration std registered json jwt ec token
      → parse_entity_configuration std json jwt token ≡ ok ec
  unfolding parse_entity_configuration
  parsed_configuration ec token issuer_named subject_named reads =
      rw
        (
          reads.peeked,
          reads.unmarshalled,
          is_empty-false ec.issuer issuer_named,
          is_empty-false ec.subject subject_named,
        )
        refl

  -- The first hint is an anchor whose key verifies the statement.
  found_first :
      (anchors : Map PublicKey) (id hint ss_jwt : Str) (now : Time) (hints : List Str)
      (ss : SubordinateStatement) (anchor : PublicKey)
      → lookup hint anchors ≡ some anchor
      → verify_subordinate_statement std json jwt ss_jwt anchor now ≡ ok ss
      → ss.subject ≡ id
      → first_verified std json jwt anchors id ss_jwt now (hint ∷ hints) ≡ some ss
  unfolding first_verified statement_under
  found_first anchors id hint ss_jwt now hints ss anchor trusted verified about =
      ground (arith, eq_iff ss.subject id)

  -- An entity whose configuration was built with its key and names a trust anchor first, and about
  -- which a statement was built with the key of that anchor, is resolved once both are registered,
  -- while neither has expired, and the key that it resolves to is its own; if the key is on the curve,
  -- its identity is not empty, the JSON library reads the two structs back, and the JWT library is
  -- complete.
  pub resolve-built :
      (r : InMemoryResolver) (id anchor_id kid ss_kid anchor_kid org : Str)
      (key anchor_key : PrivateKey) (hints : List Str) (ec_ttl ss_ttl : ℤ) (ec_at ss_at now : Time)
      (ec_jwk ss_jwk : Jwk) (ec_jwt ss_jwt : Str)
      → IsComplete registered jwt
      → is_on_curve key.public.x key.public.y ≡ true
      → id ≢ []
      → jwk_for std key.public kid ≡ ok ec_jwk
      → jwk_for std key.public ss_kid ≡ ok ss_jwk
      → build_entity_configuration std json jwt id key kid org (anchor_id ∷ hints) ec_ttl ec_at
        ≡ ok ec_jwt
      → build_subordinate_statement std json jwt anchor_id id key.public ss_kid anchor_key
          anchor_kid ss_ttl ss_at
        ≡ ok ss_jwt
      → ReadsConfiguration std registered json jwt
          (built_configuration std json jwt id ec_jwk org (anchor_id ∷ hints) ec_ttl ec_at)
          ec_jwt
      → ReadsStatement std registered json jwt
          (built_statement std json jwt anchor_id id ss_jwk ss_ttl ss_at)
      → lookup anchor_id r.trust_anchors ≡ some anchor_key.public
      → now < unix_time (unix (add_time ec_at ec_ttl))
      → now < unix_time (unix (add_time ss_at ss_ttl))
      → (e : ResolvedEntity) × ((resolve std json jwt now id
            (register_subordinate_statement id ss_jwt (register_entity_config id ec_jwt r))).1
          ≡ ok e)
        × (entity_key e.jwks ≡ some key.public)
  unfolding built_configuration built_statement entity_key
  resolve-built r id anchor_id kid ss_kid anchor_kid org key anchor_key hints ec_ttl ss_ttl ec_at
        ss_at now ec_jwk ss_jwk ec_jwt ss_jwt complete on named ec_made ss_made configured stated
        ec_reads ss_reads trusted ec_live ss_live =
      let ss = built_statement std json jwt anchor_id id ss_jwk ss_ttl ss_at in
      let ec = built_configuration std json jwt id ec_jwk org (anchor_id ∷ hints) ec_ttl ec_at in
      let ss_verified =
        verified_statement std registered json jwt anchor_id id ss_kid key.public anchor_key
          anchor_kid ss_ttl ss_at now ss_jwk ss_jwt complete ss_made stated ss_reads ss_live in
      let ec_verified =
        verified_configuration std registered json jwt id kid org key (anchor_id ∷ hints) ec_ttl
          ec_at now ec_jwk ec_jwt complete ec_made configured ec_reads ec_live in
      let decoded = jwk_for-key std registered json jwt key.public ss_kid ss_jwk on ss_made in
      let e : ResolvedEntity = record {
        jwks = ss_jwk ∷ [];
        expires_at = earlier (unix_time ss.expires_at) (unix_time ec.expires_at);
      } in
      let checked : check_chain std json jwt r.trust_anchors id ec_jwt ss_jwt now ≡ ok e =
        check_chain_of_IsChain std registered json jwt r.trust_anchors id ec_jwt ss_jwt now e
          (record {
            leaf = ec;
            parsed = parsed_configuration ec ec_jwt named named ec_reads;
            ss = ss;
            found =
                found_first r.trust_anchors id anchor_id ss_jwt now hints ss anchor_key.public
                  trusted ss_verified refl;
            jwk = ss_jwk;
            first = refl;
            leaf_key = key.public;
            decoded = decoded;
            ec = ec;
            verified = ec_verified;
            entity_is = refl;
          }) in
      (e, resolve-registered r id ec_jwt ss_jwt now e checked, ground (arith, decoded))
