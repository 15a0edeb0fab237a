-- ===== src/Identity/StoreLaws.antt =====
-- The in-memory replay store of pkg/identity/store.go over sequences of calls.
use ai_agent_security.Base.{
  refl, inl, inr, ◌<◌, keep, Option-cases, HasDistinctKeys, keep-HasDistinctKeys,
  insert-HasDistinctKeys, lookup-keep_failed, Str, eq_iff, ◌≡◌, ◌⊎◌, ◌≤◌, some, List, [], ◌∷◌, ok,
  err, All, lookup, lookup-insert, lookup-insert_self, lookup-keep, test_of_lookup-keep, Time, leb,
  leb→le, arith,
}
use ai_agent_security.Identity.Errors.{replayed}
use ai_agent_security.Identity.Store.{Seen, sweep, record_in_memory}

lookup-sweep :
    (now : Time) (j : Str) (e : Time) (seen : Seen)
    → lookup j seen ≡ some e
    → now ≤ e
    → lookup j (sweep now seen) ≡ some e
unfolding sweep
lookup-sweep now j e seen h live = lookup-keep (λ x. leb now x) j e seen h (ground arith)

live_of_sweep :
    (now : Time) (j : Str) (e : Time) (seen : Seen) → lookup j (sweep now seen) ≡ some e → now ≤ e
unfolding sweep
live_of_sweep now j e seen h = leb→le now e (test_of_lookup-keep (λ x. leb now x) j e seen h)

-- A JTI whose entry has not expired is refused.
pub record_in_memory-replayed :
    (now : Time) (jti : Str) (exp e : Time) (seen : Seen)
    → lookup jti seen ≡ some e
    → now ≤ e
    → (record_in_memory now jti exp seen).1 ≡ err replayed
unfolding record_in_memory
record_in_memory-replayed now jti exp e seen h live = rw (lookup-sweep now jti e seen h live)

-- A JTI whose entry has expired is accepted.
pub record_in_memory_expired :
    (now : Time) (jti : Str) (exp e : Time) (seen : Seen)
    → HasDistinctKeys seen
    → lookup jti seen ≡ some e
    → e < now
    → (record_in_memory now jti exp seen).1 ≡ ok tt
unfolding record_in_memory sweep
record_in_memory_expired now jti exp e seen distinct held late =
    rw (lookup-keep_failed (λ x. leb now x) jti e seen distinct held (ground arith)) refl

pub record_in_memory-HasDistinctKeys :
    (now : Time) (jti : Str) (exp : Time) (seen : Seen)
    → HasDistinctKeys seen
    → HasDistinctKeys (record_in_memory now jti exp seen).0
unfolding record_in_memory sweep
record_in_memory-HasDistinctKeys now jti exp seen distinct =
    let swept = keep-HasDistinctKeys (λ x. leb now x) seen distinct in
    elim (Option-cases (lookup jti (keep (λ x. leb now x) seen))) [
      | inl fresh ↦ rw fresh (insert-HasDistinctKeys jti exp (keep (λ x. leb now x) seen) swept)
      | inr (e, there) ↦ rw there swept
    ]

-- A JTI that is accepted is remembered with its expiry.
pub lookup-record_in_memory :
    (now : Time) (jti : Str) (exp : Time) (seen : Seen)
    → (record_in_memory now jti exp seen).1 ≡ ok tt
    → lookup jti (record_in_memory now jti exp seen).0 ≡ some exp
unfolding record_in_memory
lookup-record_in_memory now jti exp seen h =
    ground (arith, lookup-insert_self jti exp (sweep now seen))

-- A call keeps every entry that has not expired, whatever its outcome.
pub lookup-record_in_memory_live :
    (now : Time) (jti : Str) (exp : Time) (j : Str) (e : Time) (seen : Seen)
    → lookup j seen ≡ some e
    → now ≤ e
    → lookup j (record_in_memory now jti exp seen).0 ≡ some e
unfolding record_in_memory
lookup-record_in_memory_live now jti exp j e seen h live = ground (
  arith,
  lookup-sweep now j e seen h live,
  lookup-insert jti j exp (sweep now seen),
  eq_iff jti j,
)

-- After a call at `now`, the store holds live entries only, and the one that the call wrote.
pub record_in_memory-bounded :
    (now : Time) (jti : Str) (exp : Time) (seen : Seen) (j : Str) (e : Time)
    → lookup j (record_in_memory now jti exp seen).0 ≡ some e
    → (now ≤ e) ⊎ ((j ≡ jti) × (e ≡ exp))
unfolding record_in_memory
record_in_memory-bounded now jti exp seen j e =
    ground
      (arith, live_of_sweep now j e seen, lookup-insert jti j exp (sweep now seen), eq_iff jti j)

-- A call of Record by some request.
pub record Call : Type 0 where
  pub at : Time
  pub jti : Str
  pub exp : Time

unfoldable pub run_calls : List Call → Seen → Seen
run_calls [] seen = seen
run_calls (c ∷ cs) seen = run_calls cs (record_in_memory c.at c.jti c.exp seen).0

lookup-run_calls :
    (cs : List Call) (j : Str) (e : Time) (seen : Seen)
    → All (λ c. c.at ≤ e) cs
    → lookup j seen ≡ some e
    → lookup j (run_calls cs seen) ≡ some e
unfolding run_calls
lookup-run_calls [] j e seen _ h = h
lookup-run_calls (c ∷ cs) j e seen (early, rest) h =
    lookup-run_calls cs j e _ rest (lookup-record_in_memory_live c.at c.jti c.exp j e seen h early)

-- From any state, once a JTI is accepted with an expiry it is refused up to that expiry, whatever
-- calls come between at instants up to the expiry, and whatever expiry the second call names.
pub record_in_memory-no_replay :
    (seen : Seen) (first second : Time) (jti : Str) (exp exp' : Time) (between : List Call)
    → (record_in_memory first jti exp seen).1 ≡ ok tt
    → All (λ c. c.at ≤ exp) between
    → second ≤ exp
    → (record_in_memory second jti exp'
        (run_calls between (record_in_memory first jti exp seen).0)).1
      ≡ err replayed
record_in_memory-no_replay seen first second jti exp exp' between accepted early live =
    record_in_memory-replayed second jti exp' exp _
      (lookup-run_calls between jti exp _ early
        (lookup-record_in_memory first jti exp seen accepted))
      live
