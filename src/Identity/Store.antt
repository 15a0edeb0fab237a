-- ===== src/Identity/Store.antt =====
-- pkg/identity/store.go: the interface JTIStore and its in-memory implementation.
use ai_agent_security.Base.{
  Str, Option, none, some, Result, ok, err, Map, lookup, insert, keep, Time, leb,
}
use ai_agent_security.Identity.Errors.{Error, replayed}

-- JTIStore: `Record(jti, exp)` at an instant, on the store's state.
pub record JtiStore (S : Type 0) : Type 0 where
  pub record_jti : Time → Str → Time → S → S × Result Error (Unit {0})

-- InMemoryJTIStore.seen
abbrev pub Seen : Type 0
Seen = Map Time

-- The sweep: an entry stays unless `now.After(expiry)`.
unfoldable pub sweep : Time → Seen → Seen
sweep now seen = keep (λ expiry. leb now expiry) seen

-- The test of the map after the sweep, and the write.
abbrev record_swept : Str → Time → Seen → Option Time → Seen × Result Error (Unit {0})
record_swept jti exp seen none = (insert jti exp seen, ok tt)
record_swept jti exp seen (some e) = (seen, err replayed)

-- InMemoryJTIStore.Record
unfoldable pub record_in_memory : Time → Str → Time → Seen → Seen × Result Error (Unit {0})
unfolding sweep
record_in_memory now jti exp seen =
    record_swept jti exp (sweep now seen) (lookup jti (sweep now seen))

-- NewInMemoryJTIStore, as an implementation of the interface
abbrev pub in_memory : JtiStore Seen
in_memory = record { record_jti = record_in_memory }
