-- ===== src/Federation/Answers.antt =====
-- InMemoryResolver.Resolve, cached or not: what it answers is what the registered documents say.
use ai_agent_security.Base.{
  Str, ◌≡◌, refl, sym, ap, ◌∙◌, ◌≤◌, ◌<◌, inl, inr, some, Result, ok, err, Map, lookup, Time,
  Option-cases, Result-cases, arith,
}
use ai_agent_security.Keys.{PublicKey}
use ai_agent_security.Platform.{Platform}
use ai_agent_security.Jwt.{RegisteredClaims, Jwt, IsSound, IsTimely}
use ai_agent_security.Federation.{ClaimsJson}
use ai_agent_security.Federation.Resolver.{
  ResolvedEntity, Error, InMemoryResolver, new_in_memory_resolver, register_entity_config,
  register_subordinate_statement, live, check_chain, resolve_chain, stored, resolve,
}
use ai_agent_security.Federation.EntityLaws.{HasExpiries}
use ai_agent_security.Federation.ChainLaws.{IsCertified, check_chain-IsCertified, check_chain_later}
use ai_agent_security.Federation.CacheLaws.{
  live_sound, Reaches, Reaches-IsCurrent, resolve-live, resolve_stale,
}

module _ (std : Platform) {M : Type 0} (json : ClaimsJson M) (jwt : Jwt M) where
  resolve-anchors :
      (r : InMemoryResolver) (key : Str) (now : Time)
      → (resolve std json jwt now key r).0.trust_anchors ≡ r.trust_anchors
  unfolding stored
  resolve-anchors r key now = elim (Option-cases (live now (lookup key r.cache))) [
    | inr (e, there) ↦ rw (resolve-live std json jwt r key now e there) refl
    | inl gone ↦
        rw (resolve_stale std json jwt r key now gone)
          (elim (Result-cases (resolve_chain std json jwt r now key)) [
            | inl (e, accepted) ↦ rw accepted refl
            | inr (e, refused) ↦ rw refused refl
          ])
  ]

  -- The anchors are those that the resolver was made with.
  anchors_kept :
      (anchors : Map PublicKey) (r : InMemoryResolver) (now : Time)
      → Reaches std json jwt anchors r now
      → r.trust_anchors ≡ anchors
  unfolding new_in_memory_resolver register_entity_config register_subordinate_statement
  anchors_kept anchors _ _ (Reaches.start now) = refl
  anchors_kept anchors _ _ (Reaches.wait r earlier now before past) =
      anchors_kept anchors r earlier before
  anchors_kept anchors _ _ (Reaches.config r id ec_jwt now before) =
      anchors_kept anchors r now before
  anchors_kept anchors _ _ (Reaches.statement r id ss_jwt now before) =
      anchors_kept anchors r now before
  anchors_kept anchors _ _ (Reaches.resolved r id now before) =
      resolve-anchors r id now ∙ anchors_kept anchors r now before

  pub stored-snd :
      (id : Str) (r : InMemoryResolver) (e : Result Error ResolvedEntity)
      → (stored std json jwt id r e).1 ≡ e
  unfolding stored
  stored-snd id r (ok e) = refl
  stored-snd id r (err e) = refl

  -- The documents of a chain that the resolver accepts.
  chain_documents :
      (r : InMemoryResolver) (now : Time) (id : Str) (e : ResolvedEntity)
      → resolve_chain std json jwt r now id ≡ ok e
      → (ec_jwt : Str) × (ss_jwt : Str) × (lookup id r.entity_configs ≡ some ec_jwt)
        × (lookup id r.sub_statements ≡ some ss_jwt)
        × (check_chain std json jwt r.trust_anchors id ec_jwt ss_jwt now ≡ ok e)
  unfolding resolve_chain
  chain_documents r now id e h = elim (Option-cases (lookup id r.entity_configs)) [
    | inl missing ↦ ground arith
    | inr (ec_jwt, configured) ↦ elim (Option-cases (lookup id r.sub_statements)) [
      | inl missing ↦ ground arith
      | inr (ss_jwt, stated) ↦ (ec_jwt, ss_jwt, configured, stated, ground arith)
    ]
  ]

  module _ (registered : M → RegisteredClaims) (sound : IsSound registered jwt)
      (expiries : HasExpiries std registered json jwt sound) where
    -- What was accepted is accepted until it expires.
    resolve_chain_later :
        (r : InMemoryResolver) (t now : Time) (id : Str) (e : ResolvedEntity)
        → IsTimely registered jwt
        → resolve_chain std json jwt r t id ≡ ok e
        → t ≤ now
        → now < e.expires_at
        → resolve_chain std json jwt r now id ≡ ok e
    unfolding resolve_chain
    resolve_chain_later r t now id e timely h past ahead =
        let (ec_jwt, ss_jwt, configured, stated, accepted) = chain_documents r t id e h in
        rw (configured, stated)
          (check_chain_later std registered json jwt sound expiries timely r.trust_anchors id ec_jwt
            ss_jwt t now e accepted past ahead)

    -- In every state that a new resolver gets into by registrations and resolutions, at instants that
    -- do not run backwards, Resolve answers exactly what the documents that are registered then give
    -- without a cache, accepted or refused, if the JWT library is sound and keeps accepting a token
    -- until it expires, and the expiries that it and the JSON library read agree.
    pub resolve-resolve_chain :
        (anchors : Map PublicKey) (r : InMemoryResolver) (now : Time) (id : Str)
        → IsTimely registered jwt
        → Reaches std json jwt anchors r now
        → (resolve std json jwt now id r).1 ≡ resolve_chain std json jwt r now id
    resolve-resolve_chain anchors r now id timely reached =
        elim (Option-cases (live now (lookup id r.cache))) [
          | inl gone ↦
              rw (resolve_stale std json jwt r id now gone)
                (stored-snd id r (resolve_chain std json jwt r now id))
          | inr (e, there) ↦
              let (cached, ahead) = live_sound now (lookup id r.cache) e there in
              let (t, past, was) =
                Reaches-IsCurrent std json jwt anchors r now reached id e cached in
              rw (resolve-live std json jwt r id now e there)
                (sym (resolve_chain_later r t now id e timely was past ahead))
        ]

    -- In those states an entity that is resolved is certified at that instant by the documents that are
    -- registered: its keys are those of a statement about it that is verified under the key of a trust
    -- anchor which its configuration names, its configuration is verified under the first of these
    -- keys, and it has not expired, under the same conditions.
    pub resolve-IsCertified :
        (anchors : Map PublicKey) (r : InMemoryResolver) (now : Time) (id : Str)
        (e : ResolvedEntity)
        → IsTimely registered jwt
        → Reaches std json jwt anchors r now
        → (resolve std json jwt now id r).1 ≡ ok e
        → (ec_jwt : Str) × (ss_jwt : Str) × (lookup id r.entity_configs ≡ some ec_jwt)
          × (lookup id r.sub_statements ≡ some ss_jwt)
          × IsCertified std registered json jwt sound anchors id ec_jwt ss_jwt now e
    resolve-IsCertified anchors r now id e timely reached h =
        let accepted = sym (resolve-resolve_chain anchors r now id timely reached) ∙ h in
        let (ec_jwt, ss_jwt, configured, stated, checked) = chain_documents r now id e accepted in
        (
          ec_jwt,
          ss_jwt,
          configured,
          stated,
          check_chain-IsCertified std registered json jwt sound anchors id ec_jwt ss_jwt now e
              expiries
              (ap (λ a. check_chain std json jwt a id ec_jwt ss_jwt now)
                  (sym (anchors_kept anchors r now reached))
                ∙ checked),
        )
