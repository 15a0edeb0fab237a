-- ===== src/Federation/Concurrent.antt =====
-- InMemoryResolver with several calls at once: the steps that its mutex and its cache let interleave.
-- Resolve is an eviction, a reading of the two documents with their verification, and a store.
use ai_agent_security.Base.{
  ℕ, zero, suc, Str, List, [], ◌∷◌, Option, none, some, Result, ok, err, Map, insert, delete, Time,
}
use ai_agent_security.Keys.{PublicKey}
use ai_agent_security.Platform.{Platform}
use ai_agent_security.Jwt.{Jwt}
use ai_agent_security.Federation.{ClaimsJson}
use ai_agent_security.Federation.Resolver.{
  ResolvedEntity, Error, InMemoryResolver, new_in_memory_resolver, register_entity_config,
  register_subordinate_statement, resolve_chain,
}

-- A step; `stored` is of the call that stands there among those in flight.
pub data Step : Type 0 where
  config statement : Str → Str → Step
  evicted : Str → Step
  verified : Str → Time → Step
  stored : ℕ → Step

-- The resolver, and the entities that calls have verified and may yet store, the newest first.
pub record Running : Type 0 where
  pub resolver : InMemoryResolver
  pub in_flight : List (Str × ResolvedEntity)

-- `r.cache.Delete`, where an entry has expired
unfoldable pub evict : Str → InMemoryResolver → InMemoryResolver
evict id r = record r { cache = delete id r.cache }

-- `r.cache.Store`
unfoldable pub store : Option (Str × ResolvedEntity) → InMemoryResolver → InMemoryResolver
store none r = r
store (some (id, e)) r = record r { cache = insert id e r.cache }

unfoldable pub nth : ℕ → List (Str × ResolvedEntity) → Option (Str × ResolvedEntity)
nth n [] = none
nth zero (x ∷ xs) = some x
nth (suc n) (x ∷ xs) = nth n xs

-- A call that has verified its chain goes on to store it.
unfoldable pub take_off :
    Str → Result Error ResolvedEntity → List (Str × ResolvedEntity) → List (Str × ResolvedEntity)
take_off id (err e) flying = flying
take_off id (ok e) flying = (id, e) ∷ flying

module _ (std : Platform) {M : Type 0} (json : ClaimsJson M) (jwt : Jwt M) where
  unfoldable pub step : Step → Running → Running
  step (config id ec_jwt) s = record s { resolver = register_entity_config id ec_jwt s.resolver }
  step (statement id ss_jwt) s = record s {
    resolver = register_subordinate_statement id ss_jwt s.resolver;
  }
  step (evicted id) s = record s { resolver = evict id s.resolver }
  step (verified id at) s = record s {
    in_flight = take_off id (resolve_chain std json jwt s.resolver at id) s.in_flight;
  }
  step (stored n) s = record s { resolver = store (nth n s.in_flight) s.resolver }

  -- A history of steps, the newest first, on a new resolver.
  unfoldable pub run : Map PublicKey → List Step → Running
  run anchors [] = record { resolver = new_in_memory_resolver anchors; in_flight = [] }
  run anchors (s ∷ before) = step s (run anchors before)
