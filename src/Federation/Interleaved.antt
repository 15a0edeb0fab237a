-- ===== src/Federation/Interleaved.antt =====
-- InMemoryResolver under interleaved calls: how old an answer can be.
use ai_agent_security.Base.{
  ℕ, zero, suc, Str, ◌==◌, eq_iff, ◌≡◌, refl, sym, ap, ◌∙◌, ◌<◌, ◌⊎◌, inl, inr, List, [], ◌∷◌,
  Option, none, some, ok, All, Map, lookup, delete, lookup-insert, lookup-insert_self,
  lookup-delete, Time, Bool-cases, Option-cases, Result-cases, arith,
}
use ai_agent_security.Keys.{PublicKey}
use ai_agent_security.Platform.{Platform}
use ai_agent_security.Jwt.{Jwt}
use ai_agent_security.Federation.{ClaimsJson}
use ai_agent_security.Federation.Resolver.{
  ResolvedEntity, Error, InMemoryResolver, new_in_memory_resolver, register_entity_config,
  register_subordinate_statement, live, resolve_chain, resolve,
}
use ai_agent_security.Federation.Resolver
use ai_agent_security.Federation.Answers.{stored-snd}
use ai_agent_security.Federation.CacheLaws.{live_sound, resolve-live, resolve_stale}
use ai_agent_security.Federation.Concurrent.{
  Step, config, statement, evicted, verified, stored, evict, store, nth, take_off, step, run,
}

deleted :
    (key id : Str) (m : Map ResolvedEntity) (e : ResolvedEntity)
    → lookup id (delete key m) ≡ some e
    → lookup id m ≡ some e
deleted key id m e h = ground (arith, lookup-delete key id m)

nothing_cached : (id : Str) (e : ResolvedEntity) → ¬ (lookup id [] ≡ some e)
unfolding lookup
nothing_cached id e h = cc

live_held :
    (now : Time) (o : Option ResolvedEntity) (e : ResolvedEntity)
    → o ≡ some e
    → now < e.expires_at
    → live now o ≡ some e
unfolding live
live_held now o e held ahead = rw held (ground arith)

store_cases :
    (o : Option (Str × ResolvedEntity)) (r : InMemoryResolver) (id : Str) (e : ResolvedEntity)
    → lookup id (store o r).cache ≡ some e
    → (o ≡ some (id, e)) ⊎ (lookup id r.cache ≡ some e)
unfolding store
store_cases none r id e h = inr h
store_cases (some (key, x)) r id e h = elim (Bool-cases (key == id)) [
  | inl same ↦
      let key_is : key ≡ id = (eq_iff key id).0 same in
      let x_is : x ≡ e = ground (arith, lookup-insert key id x r.cache) in
      inl (rw (key_is, x_is) refl)
  | inr other ↦ inr (ground (arith, lookup-insert key id x r.cache))
]

module _ (std : Platform) {M : Type 0} (json : ClaimsJson M) (jwt : Jwt M)
    (anchors : Map PublicKey) where
  -- A call verified the entity once, and the documents that were registered then gave it.
  abbrev pub Gave : List Step → Str → ResolvedEntity → Type 0
  Gave [] id e = ⊥
  Gave (s ∷ before) id e =
      ((t : Time) × (s ≡ verified id t)
        × (resolve_chain std json jwt (run std json jwt anchors before).resolver t id ≡ ok e))
      ⊎ Gave before id e

  HasGiven : List Step → List (Str × ResolvedEntity) → Type 0
  HasGiven before flying = All (λ x. Gave before x.0 x.1) flying

  HasGiven-later :
      (s : Step) (before : List Step) (flying : List (Str × ResolvedEntity))
      → HasGiven before flying
      → HasGiven (s ∷ before) flying
  unfolding HasGiven
  HasGiven-later s before [] h = tt
  HasGiven-later s before (x ∷ xs) (here, later) = (inr here, HasGiven-later s before xs later)

  nth-HasGiven :
      (before : List Step) (n : ℕ) (flying : List (Str × ResolvedEntity)) (id : Str)
      (e : ResolvedEntity)
      → HasGiven before flying
      → nth n flying ≡ some (id, e)
      → Gave before id e
  unfolding HasGiven nth
  nth-HasGiven before n [] id e h there = cc
  nth-HasGiven before zero (x ∷ xs) id e (here, later) there =
      let x_is : x ≡ (id, e) = ground arith in rw x_is at here
  nth-HasGiven before (suc n) (x ∷ xs) id e (here, later) there =
      nth-HasGiven before n xs id e later there

  in_flight-HasGiven :
      (before : List Step) → HasGiven before (run std json jwt anchors before).in_flight
  unfolding run step HasGiven take_off
  in_flight-HasGiven [] = tt
  in_flight-HasGiven (config id ec_jwt ∷ before) =
      HasGiven-later _ before _ (in_flight-HasGiven before)
  in_flight-HasGiven (statement id ss_jwt ∷ before) =
      HasGiven-later _ before _ (in_flight-HasGiven before)
  in_flight-HasGiven (evicted id ∷ before) = HasGiven-later _ before _ (in_flight-HasGiven before)
  in_flight-HasGiven (stored n ∷ before) = HasGiven-later _ before _ (in_flight-HasGiven before)
  in_flight-HasGiven (verified id t ∷ before) =
      let r = (run std json jwt anchors before).resolver in
      let later = HasGiven-later (verified id t) before _ (in_flight-HasGiven before) in
      elim (Result-cases (resolve_chain std json jwt r t id)) [
        | inr (x, refused) ↦ rw refused later
        | inl (e, accepted) ↦ rw accepted (inl (t, refl, accepted), later)
      ]

  -- Each cached entity was given once.
  cache-Gave :
      (before : List Step) (id : Str) (e : ResolvedEntity)
      → lookup id (run std json jwt anchors before).resolver.cache ≡ some e
      → Gave before id e
  unfolding run step register_entity_config register_subordinate_statement new_in_memory_resolver
      evict
  cache-Gave [] id e h = absurd (nothing_cached id e h)
  cache-Gave (config key ec_jwt ∷ before) id e h =
      inr (cache-Gave before id e (deleted key id _ e h))
  cache-Gave (statement key ss_jwt ∷ before) id e h =
      inr (cache-Gave before id e (deleted key id _ e h))
  cache-Gave (evicted key ∷ before) id e h = inr (cache-Gave before id e (deleted key id _ e h))
  cache-Gave (verified key t ∷ before) id e h = inr (cache-Gave before id e h)
  cache-Gave (stored n ∷ before) id e h =
      let now_ = run std json jwt anchors before in
      inr (elim (store_cases (nth n now_.in_flight) now_.resolver id e h) [
        | inl there ↦ nth-HasGiven before n now_.in_flight id e (in_flight-HasGiven before) there
        | inr held ↦ cache-Gave before id e held
      ])

  kept_chain :
      (r : InMemoryResolver) (now : Time) (id : Str)
      → resolve_chain std json jwt (record r { cache = delete id r.cache }) now id
        ≡ resolve_chain std json jwt r now id
  unfolding resolve_chain
  kept_chain r now id = refl

  -- A Resolve that finds nothing in the cache and runs alone is its steps.
  resolve-steps :
      (r : InMemoryResolver) (now : Time) (id : Str)
      → live now (lookup id r.cache) ≡ none
      → (resolve std json jwt now id r).0
        ≡ (step std json jwt (stored 0) (
            step std json jwt
              (verified id now)
              (step std json jwt (evicted id) (record { resolver = r; in_flight = [] })))).resolver
  unfolding Resolver.stored step nth store take_off evict
  resolve-steps r now id gone =
      rw (resolve_stale std json jwt r id now gone)
        (elim (Result-cases (resolve_chain std json jwt r now id)) [
          | inr (x, refused) ↦ rw (kept_chain r now id, refused) refl
          | inl (e, accepted) ↦ rw (kept_chain r now id, accepted) refl
        ])

  -- Whatever calls interleave, and however old the verifications are that they store late: what Resolve
  -- answers for an entity is either what the documents registered now give, or an entity that has not
  -- expired and that a call has verified from the documents that were registered then.
  pub resolve-Gave :
      (before : List Step) (now : Time) (id : Str) (e : ResolvedEntity)
      → (resolve std json jwt now id (run std json jwt anchors before).resolver).1 ≡ ok e
      → (resolve_chain std json jwt (run std json jwt anchors before).resolver now id ≡ ok e)
        ⊎ ((now < e.expires_at) × Gave before id e)
  resolve-Gave before now id e h =
      let r = (run std json jwt anchors before).resolver in
      elim (Option-cases (live now (lookup id r.cache))) [
        | inr (x, there) ↦
            let (cached, ahead) = live_sound now (lookup id r.cache) x there in
            let x_is : ok x ≡ ok e =
              sym (ap (λ p. p.1) (resolve-live std json jwt r id now x there)) ∙ h in
            let same : x ≡ e = ground arith in
            let found : (now < x.expires_at) × Gave before id x =
              (ahead, cache-Gave before id x cached) in
            inr (rw same at found)
        | inl gone ↦ inl (
            sym (stored-snd std json jwt id r (resolve_chain std json jwt r now id))
            ∙ sym (ap (λ p. p.1) (resolve_stale std json jwt r id now gone))
            ∙ h)
      ]

  -- The registration of a new configuration between the verification and the store of a call has no
  -- effect: until the old entity expires Resolve answers it, whatever the documents registered give.
  pub resolve_raced :
      (before : List Step) (t now : Time) (id ec_jwt : Str) (e : ResolvedEntity)
      → resolve_chain std json jwt (run std json jwt anchors before).resolver t id ≡ ok e
      → now < e.expires_at
      → (resolve std json jwt now id
          (run std json jwt anchors
            (stored 0 ∷ config id ec_jwt ∷ verified id t ∷ before)).resolver).1
        ≡ ok e
  unfolding run step nth store take_off
  resolve_raced before t now id ec_jwt e accepted ahead = rw accepted (
      ap (λ p. p.1)
        (resolve-live std json jwt _ id now e
          (live_held now _ e (lookup-insert_self id e _) ahead)))
