-- ===== src/Federation/CacheLaws.antt =====
-- The cache of InMemoryResolver: each entry is what the documents gave.
use ai_agent_security.Base.{
  Str, ◌==◌, eq_iff, ◌≡◌, refl, sym, ap, ◌∙◌, ◌≤◌, ◌<◌, inl, inr, Option, none, some, ok, Map,
  lookup, insert, delete, lookup-insert, lookup-delete, Time, ltb, ltb→lt, Bool-cases, Option-cases,
  Result-cases, arith,
}
use ai_agent_security.Keys.{PublicKey}
use ai_agent_security.Platform.{Platform}
use ai_agent_security.Jwt.{Jwt}
use ai_agent_security.Federation.{ClaimsJson}
use ai_agent_security.Federation.Resolver.{
  ResolvedEntity, InMemoryResolver, new_in_memory_resolver, register_entity_config,
  register_subordinate_statement, live, resolve_chain, stored, resolve,
}

pub live_sound :
    (now : Time) (o : Option ResolvedEntity) (e : ResolvedEntity)
    → live now o ≡ some e
    → (o ≡ some e) × (now < e.expires_at)
unfolding live
live_sound now none e h = cc
live_sound now (some x) e h = elim (Bool-cases (ltb now x.expires_at)) [
  | inl there ↦
      let e_is : e ≡ x = ground arith in
      (ap some (sym e_is), rw e_is (ltb→lt now x.expires_at there))
  | inr gone ↦ ground arith
]

module _ (std : Platform) {M : Type 0} (json : ClaimsJson M) (jwt : Jwt M) where
  -- The states of a resolver with these anchors, and the instants at which it is in them: a new one,
  -- and after time has passed, a registration or a resolution.
  pub data Reaches (anchors : Map PublicKey) : InMemoryResolver → Time → Type 0 where
    start : (now : Time) → Reaches anchors (new_in_memory_resolver anchors) now
    wait :
        (r : InMemoryResolver) (earlier now : Time)
        → Reaches anchors r earlier
        → earlier ≤ now
        → Reaches anchors r now
    config :
        (r : InMemoryResolver) (id ec_jwt : Str) (now : Time)
        → Reaches anchors r now
        → Reaches anchors (register_entity_config id ec_jwt r) now
    statement :
        (r : InMemoryResolver) (id ss_jwt : Str) (now : Time)
        → Reaches anchors r now
        → Reaches anchors (register_subordinate_statement id ss_jwt r) now
    resolved :
        (r : InMemoryResolver) (id : Str) (now : Time)
        → Reaches anchors r now
        → Reaches anchors (resolve std json jwt now id r).0 now

  -- Each cached entity is what the registered documents gave at some instant before.
  abbrev pub IsCurrent : InMemoryResolver → Time → Type 0
  IsCurrent r now =
      (id : Str) (e : ResolvedEntity)
      → lookup id r.cache ≡ some e
      → (t : Time) × (t ≤ now) × (resolve_chain std json jwt r t id ≡ ok e)

  -- The answer for an entity depends on its two documents and the anchors alone.
  chain_of_documents :
      (r s : InMemoryResolver) (t : Time) (id : Str)
      → lookup id s.entity_configs ≡ lookup id r.entity_configs
      → lookup id s.sub_statements ≡ lookup id r.sub_statements
      → s.trust_anchors ≡ r.trust_anchors
      → resolve_chain std json jwt s t id ≡ resolve_chain std json jwt r t id
  unfolding resolve_chain
  chain_of_documents r s t id configs statements anchors = rw (configs, statements, anchors) refl

  config-IsCurrent :
      (r : InMemoryResolver) (key ec_jwt : Str) (now : Time)
      → IsCurrent r now
      → IsCurrent (register_entity_config key ec_jwt r) now
  unfolding register_entity_config
  config-IsCurrent r key ec_jwt now current id e h = elim (Bool-cases (key == id)) [
    | inl same ↦ ground (arith, lookup-delete key id r.cache)
    | inr other ↦
        let (t, past, was) = current id e (ground (arith, lookup-delete key id r.cache)) in
        (
          t,
          past,
          chain_of_documents r
                (record r {
                  entity_configs = insert key ec_jwt r.entity_configs;
                  cache = delete key r.cache;
                })
                t id (ground (arith, lookup-insert key id ec_jwt r.entity_configs)) refl refl
              ∙ was,
        )
  ]

  statement-IsCurrent :
      (r : InMemoryResolver) (key ss_jwt : Str) (now : Time)
      → IsCurrent r now
      → IsCurrent (register_subordinate_statement key ss_jwt r) now
  unfolding register_subordinate_statement
  statement-IsCurrent r key ss_jwt now current id e h = elim (Bool-cases (key == id)) [
    | inl same ↦ ground (arith, lookup-delete key id r.cache)
    | inr other ↦
        let (t, past, was) = current id e (ground (arith, lookup-delete key id r.cache)) in
        (
          t,
          past,
          chain_of_documents r
                (record r {
                  sub_statements = insert key ss_jwt r.sub_statements;
                  cache = delete key r.cache;
                })
                t id refl (ground (arith, lookup-insert key id ss_jwt r.sub_statements)) refl
              ∙ was,
        )
  ]

  stored-IsCurrent :
      (r : InMemoryResolver) (key : Str) (now : Time)
      → IsCurrent r now
      → IsCurrent (stored std json jwt key r (resolve_chain std json jwt r now key)).0 now
  unfolding stored
  stored-IsCurrent r key now current id e =
      elim (Result-cases (resolve_chain std json jwt r now key)) [
        | inr (x, refused) ↦ rw refused λ h.
            let (t, past, was) = current id e (ground (arith, lookup-delete key id r.cache)) in
            (
              t,
              past,
              chain_of_documents r (record r { cache = delete key r.cache }) t id refl refl refl
                  ∙ was,
            )
        | inl (x, accepted) ↦ rw accepted λ h. elim (Bool-cases (key == id)) [
          | inl same ↦
              let id_is : key ≡ id = (eq_iff key id).0 same in
              let e_is : x ≡ e = ground (arith, lookup-insert key id x (delete key r.cache)) in
              (
                now,
                omega arith,
                chain_of_documents r (record r { cache = insert key x (delete key r.cache) }) now id
                      refl refl refl
                    ∙ ap (resolve_chain std json jwt r now) (sym id_is)
                    ∙ accepted
                    ∙ ap ok e_is,
              )
          | inr other ↦
              let (t, past, was) = current id e (
                ground (
                  arith,
                  lookup-insert key id x (delete key r.cache),
                  lookup-delete key id r.cache,
                )) in
              (
                t,
                past,
                chain_of_documents r (record r { cache = insert key x (delete key r.cache) }) t id
                      refl refl refl
                    ∙ was,
              )
        ]
      ]

  pub resolve-live :
      (r : InMemoryResolver) (key : Str) (now : Time) (e : ResolvedEntity)
      → live now (lookup key r.cache) ≡ some e
      → resolve std json jwt now key r ≡ (r, ok e)
  unfolding resolve
  resolve-live r key now e there = ground arith

  pub resolve_stale :
      (r : InMemoryResolver) (key : Str) (now : Time)
      → live now (lookup key r.cache) ≡ none
      → resolve std json jwt now key r
        ≡ stored std json jwt key r (resolve_chain std json jwt r now key)
  unfolding resolve
  resolve_stale r key now gone = ground arith

  resolve-IsCurrent :
      (r : InMemoryResolver) (key : Str) (now : Time)
      → IsCurrent r now
      → IsCurrent (resolve std json jwt now key r).0 now
  resolve-IsCurrent r key now current = elim (Option-cases (live now (lookup key r.cache))) [
    | inr (e, there) ↦ rw (resolve-live r key now e there) current
    | inl gone ↦ rw (resolve_stale r key now gone) (stored-IsCurrent r key now current)
  ]

  pub Reaches-IsCurrent :
      (anchors : Map PublicKey) (r : InMemoryResolver) (now : Time)
      → Reaches anchors r now
      → IsCurrent r now
  unfolding new_in_memory_resolver lookup
  Reaches-IsCurrent anchors _ _ (Reaches.start now) = λ id e h. cc
  Reaches-IsCurrent anchors _ _ (Reaches.wait r earlier now before past) = λ id e h.
      let (t, old, was) = Reaches-IsCurrent anchors r earlier before id e h in (t, omega arith, was)
  Reaches-IsCurrent anchors _ _ (Reaches.config r id ec_jwt now before) =
      config-IsCurrent r id ec_jwt now (Reaches-IsCurrent anchors r now before)
  Reaches-IsCurrent anchors _ _ (Reaches.statement r id ss_jwt now before) =
      statement-IsCurrent r id ss_jwt now (Reaches-IsCurrent anchors r now before)
  Reaches-IsCurrent anchors _ _ (Reaches.resolved r id now before) =
      resolve-IsCurrent r id now (Reaches-IsCurrent anchors r now before)
