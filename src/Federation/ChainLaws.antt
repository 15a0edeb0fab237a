-- ===== src/Federation/ChainLaws.antt =====
-- Accepted trust chains: certified by a trust anchor, and accepted until they expire.
use ai_agent_security.Base.{
  Str, ◌≡◌, refl, ap, ◌∙◌, ◌≤◌, ◌<◌, List, [], ◌∷◌, Option, none, some, ok, Any, Map, lookup, Time,
  arith,
}
use ai_agent_security.Keys.{PublicKey, Jwk, jwk_to_public_key}
use ai_agent_security.Platform.{Platform}
use ai_agent_security.Jwt.{RegisteredClaims, Jwt, IsSound, IsTimely}
use ai_agent_security.Federation.{EntityConfiguration, SubordinateStatement, ClaimsJson, unix_time}
use ai_agent_security.Federation.Entity.{
  parse_entity_configuration, verify_entity_configuration, verify_subordinate_statement,
}
use ai_agent_security.Federation.Resolver.{
  ResolvedEntity, earlier, first_key, statement_under, first_verified, check_chain,
}
use ai_agent_security.Federation.EntityLaws.{
  HasExpiries, IsStatement, verify_subordinate_statement_sound, verify_entity_configuration_sound,
  verify_entity_statement_later,
}
use ai_agent_security.Federation.Certified.{
  first_verified-IsVouchedBy, check_chain-IsChain, check_chain_of_IsChain,
}

-- Both expiries lie ahead if the earlier one does.
earlier_lt : (now a b : Time) → now < earlier a b → (now < a) × (now < b)
earlier_lt now a b h = ground arith

pub lt_earlier : (now a b : Time) → now < a → now < b → now < earlier a b
lt_earlier now a b h k = ground arith

module _ (std : Platform) {M : Type 0} (registered : M → RegisteredClaims) (json : ClaimsJson M)
    (jwt : Jwt M) (sound : IsSound registered jwt) where
  -- What an entity that was resolved is known to be: its keys are those of a statement about it that
  -- is verified under the key of a trust anchor which its configuration names, the configuration is
  -- verified under the first of the keys, and neither has expired.
  pub record IsCertified (anchors : Map PublicKey) (id ec_jwt ss_jwt : Str) (now : Time)
      (e : ResolvedEntity) : Type 0 where
    pub leaf : EntityConfiguration
    pub parsed : parse_entity_configuration std json jwt ec_jwt ≡ ok leaf
    pub hint : Str
    pub hinted : Any (λ h. h ≡ hint) leaf.authority_hints
    pub anchor : PublicKey
    pub trusted : lookup hint anchors ≡ some anchor
    pub ss_claims : M
    pub vouched : IsStatement std registered json jwt sound anchor now ss_jwt ss_claims
    pub ss : SubordinateStatement
    pub stated : json.statement_of ss_claims ≡ some ss
    pub about : ss.subject ≡ id
    pub keys : e.jwks ≡ ss.jwks
    pub jwk : Jwk
    pub first : first_key id e.jwks ≡ ok jwk
    pub leaf_key : PublicKey
    pub decoded : jwk_to_public_key jwk ≡ ok leaf_key
    pub ec_claims : M
    pub self_signed : IsStatement std registered json jwt sound leaf_key now ec_jwt ec_claims
    pub unexpired : now < e.expires_at

  pub check_chain-IsCertified :
      (anchors : Map PublicKey) (id ec_jwt ss_jwt : Str) (now : Time) (e : ResolvedEntity)
      → HasExpiries std registered json jwt sound
      → check_chain std json jwt anchors id ec_jwt ss_jwt now ≡ ok e
      → IsCertified anchors id ec_jwt ss_jwt now e
  check_chain-IsCertified anchors id ec_jwt ss_jwt now e expiries h =
      let c = check_chain-IsChain std registered json jwt anchors id ec_jwt ss_jwt now e h in
      let (hint, among, v) =
        first_verified-IsVouchedBy std registered json jwt anchors id ss_jwt now
          c.leaf.authority_hints c.ss c.found in
      let (sm, s_verified, s_said, s_is) =
        verify_subordinate_statement_sound std registered json jwt sound ss_jwt v.anchor now c.ss
          v.verified in
      let (em, e_verified, e_said, e_is) =
        verify_entity_configuration_sound std registered json jwt sound ec_jwt c.leaf_key now c.ec
          c.verified in
      let s_exp = expiries.statement_expiry sm c.ss s_is.expiry s_said s_is.expires in
      let e_exp =
        expiries.payload_expiry ec_jwt e_is.header em c.leaf e_is.expiry e_is.decoded c.parsed
          e_is.expires in
      let jwks_are : e.jwks ≡ c.ss.jwks = ap (λ (x : ResolvedEntity). x.jwks) c.entity_is in
      let exp_is = ap (λ (x : ResolvedEntity). x.expires_at) c.entity_is in
      record {
        leaf = c.leaf;
        parsed = c.parsed;
        hint = hint;
        hinted = among;
        anchor = v.anchor;
        trusted = v.trusted;
        ss_claims = sm;
        vouched = s_is;
        ss = c.ss;
        stated = s_said;
        about = v.about;
        keys = jwks_are;
        jwk = c.jwk;
        first = rw jwks_are c.first;
        leaf_key = c.leaf_key;
        decoded = c.decoded;
        ec_claims = em;
        self_signed = e_is;
        unexpired = rw exp_is (
            lt_earlier now (unix_time c.ss.expires_at) (unix_time c.leaf.expires_at)
              (rw s_exp s_is.unexpired) (rw e_exp e_is.unexpired));
      }

  module _ (expiries : HasExpiries std registered json jwt sound)
      (timely : IsTimely registered jwt) where
    -- Until a statement expires, the clock has no part in its verification under any key.
    statement_later :
        (token : Str) (key key' : PublicKey) (t now : Time) (ss : SubordinateStatement)
        → verify_subordinate_statement std json jwt token key t ≡ ok ss
        → t ≤ now
        → now < unix_time ss.expires_at
        → verify_subordinate_statement std json jwt token key' now
          ≡ verify_subordinate_statement std json jwt token key' t
    unfolding verify_subordinate_statement
    statement_later token key key' t now ss h past live =
        let (m, verified, said, is) =
          verify_subordinate_statement_sound std registered json jwt sound token key t ss h in
        rw
          (verify_entity_statement_later std registered json jwt token key key' t now m timely
            verified past (λ e expires. rw (expiries.statement_expiry m ss e said expires) at live))
          refl

    statement_under_later :
        (id ss_jwt : Str) (t now : Time) (anchor : Option PublicKey)
        → ((key' : PublicKey)
            → verify_subordinate_statement std json jwt ss_jwt key' now
              ≡ verify_subordinate_statement std json jwt ss_jwt key' t)
        → statement_under std json jwt id ss_jwt now anchor
          ≡ statement_under std json jwt id ss_jwt t anchor
    unfolding statement_under
    statement_under_later id ss_jwt t now none same = refl
    statement_under_later id ss_jwt t now (some key) same = ground (arith, same key)

    first_verified_later :
        (anchors : Map PublicKey) (id ss_jwt : Str) (t now : Time) (hints : List Str)
        → ((key' : PublicKey)
            → verify_subordinate_statement std json jwt ss_jwt key' now
              ≡ verify_subordinate_statement std json jwt ss_jwt key' t)
        → first_verified std json jwt anchors id ss_jwt now hints
          ≡ first_verified std json jwt anchors id ss_jwt t hints
    unfolding first_verified
    first_verified_later anchors id ss_jwt t now [] same = refl
    first_verified_later anchors id ss_jwt t now (hint ∷ hints) same = ground (
      arith,
      statement_under_later id ss_jwt t now (lookup hint anchors) same,
      first_verified_later anchors id ss_jwt t now hints same,
    )

    configuration_later :
        (token : Str) (key : PublicKey) (t now : Time) (ec leaf : EntityConfiguration)
        → verify_entity_configuration std json jwt token key t ≡ ok ec
        → parse_entity_configuration std json jwt token ≡ ok leaf
        → t ≤ now
        → now < unix_time leaf.expires_at
        → verify_entity_configuration std json jwt token key now ≡ ok ec
    unfolding verify_entity_configuration
    configuration_later token key t now ec leaf h parsed past live =
        let (m, verified, said, is) =
          verify_entity_configuration_sound std registered json jwt sound token key t ec h in
        rw
          (verify_entity_statement_later std registered json jwt token key key t now m timely
            verified past
            (λ e expires.
              rw (expiries.payload_expiry token is.header m leaf e is.decoded parsed expires) at
                live))
          h

    -- A chain that was accepted is accepted, as the same entity, until the entity expires.
    pub check_chain_later :
        (anchors : Map PublicKey) (id ec_jwt ss_jwt : Str) (t now : Time) (e : ResolvedEntity)
        → check_chain std json jwt anchors id ec_jwt ss_jwt t ≡ ok e
        → t ≤ now
        → now < e.expires_at
        → check_chain std json jwt anchors id ec_jwt ss_jwt now ≡ ok e
    check_chain_later anchors id ec_jwt ss_jwt t now e h past live =
        let c = check_chain-IsChain std registered json jwt anchors id ec_jwt ss_jwt t e h in
        let (hint, among, v) =
          first_verified-IsVouchedBy std registered json jwt anchors id ss_jwt t
            c.leaf.authority_hints c.ss c.found in
        let exp_is = ap (λ (x : ResolvedEntity). x.expires_at) c.entity_is in
        let (ss_live, ec_live) =
          earlier_lt now (unix_time c.ss.expires_at) (unix_time c.leaf.expires_at)
            (rw exp_is at live) in
        let same = λ (key' : PublicKey).
          statement_later ss_jwt v.anchor key' t now c.ss v.verified past ss_live in
        check_chain_of_IsChain std registered json jwt anchors id ec_jwt ss_jwt now e (record {
          leaf = c.leaf;
          parsed = c.parsed;
          ss = c.ss;
          found =
              first_verified_later anchors id ss_jwt t now c.leaf.authority_hints same ∙ c.found;
          jwk = c.jwk;
          first = c.first;
          leaf_key = c.leaf_key;
          decoded = c.decoded;
          ec = c.ec;
          verified =
              configuration_later ec_jwt c.leaf_key t now c.ec c.leaf c.verified c.parsed past
                ec_live;
          entity_is = c.entity_is;
        })
