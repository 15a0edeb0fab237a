-- ===== src/Memory/Isolation.antt =====
-- The namespaces of agents in pkg/memory/memory.go, over sequences of operations.
use ai_agent_security.Base.{
  Str, take, eq_iff, ◌≡◌, refl, sym, ap, ◌∙◌, ◌≢◌, inl, inr, List, [], ◌∷◌, ◌++◌, none, some,
  Result, ok, err, Result-cases, Option-cases, All, Map, insert, lookup-insert, Time, arith,
}
use ai_agent_security.Platform.{Platform}
use ai_agent_security.Memory.{
  MemoryEntry, AuditRecord, Event, wrote, deleted, integrity_fail, write_rejected, Error,
  integrity_error, Store, slice_at, validate_content, log_event, remove_first, delete_entry,
  tamper_first, tamper_for_testing, new_entry, store_entry, write, first_tampered, read,
}

pub data Op : Type 0 where
  write_op : Str → Str → Str → Time → Op
  read_op : Str → Time → Op
  delete_op : Str → Str → Time → Op
  tamper_op : Str → Str → Str → Op

-- The agent whose operation it is.
abbrev pub agent_of : Op → Str
agent_of (write_op sub id content now) = sub
agent_of (read_op sub now) = sub
agent_of (delete_op sub id now) = sub
agent_of (tamper_op sub id content) = sub

unfoldable pub run_op : Platform → Op → Store → Store
run_op std (write_op sub id content now) st = (write std st sub id content now).0
run_op std (read_op sub now) st = (read std st sub now).0
run_op std (delete_op sub id now) st = (delete_entry st sub id now).0
run_op std (tamper_op sub id content) st = (tamper_for_testing st sub id content).0

unfoldable pub run_ops : Platform → List Op → Store → Store
run_ops std [] st = st
run_ops std (op ∷ ops) st = run_ops std ops (run_op std op st)

slice_at-insert_ne {ℓ} :
    {A : Type ℓ} (k j : Str) (xs : List A) (m : Map (List A))
    → k ≢ j
    → slice_at j (insert k xs m) ≡ slice_at j m
unfolding slice_at
slice_at-insert_ne k j xs m ne = ground (arith, lookup-insert k j xs m, eq_iff k j)

-- What an agent has in a store: its entries and its audit trail.
abbrev pub view : Str → Store → List MemoryEntry × List AuditRecord
view sub st = (slice_at sub st.entries, slice_at sub st.audit)

view-log_event :
    (st : Store) (sub id other : Str) (event : Event) (now : Time)
    → sub ≢ other
    → view other (log_event st sub id event now) ≡ view other st
unfolding log_event
view-log_event st sub id other event now ne = rw (slice_at-insert_ne sub other _ st.audit ne)

view-set_entries :
    (st : Store) (sub other : Str) (es : List MemoryEntry)
    → sub ≢ other
    → view other (record st { entries = insert sub es st.entries }) ≡ view other st
view-set_entries st sub other es ne = rw (slice_at-insert_ne sub other es st.entries ne)

view-run_op :
    (std : Platform) (op : Op) (st : Store) (other : Str)
    → agent_of op ≢ other
    → view other (run_op std op st) ≡ view other st
unfolding run_op write read delete_entry tamper_for_testing store_entry
view-run_op std (write_op sub id content now) st other ne =
    elim (Result-cases (validate_content std content)) [
      | inr (e, bad) ↦ ground (arith, view-log_event st sub id other (write_rejected e) now ne)
      | inl (u, good) ↦
          let e = new_entry std sub id content now in
          let es = slice_at sub st.entries ++ e ∷ [] in
          ground (
            arith,
            view-log_event (record st { entries = insert sub es st.entries }) sub e.id other
                (wrote (take 8 e.integrity)) now ne,
            view-set_entries st sub other es ne,
          )
    ]
view-run_op std (read_op sub now) st other ne =
    elim (Option-cases (first_tampered std (slice_at sub st.entries))) [
      | inl clean ↦ ground arith
      | inr (e, bad) ↦ ground (arith, view-log_event st sub e.id other integrity_fail now ne)
    ]
view-run_op std (delete_op sub id now) st other ne =
    elim (Option-cases (remove_first id (slice_at sub st.entries))) [
      | inl missing ↦ ground arith
      | inr (es, found) ↦ ground (
        arith,
        view-log_event (record st { entries = insert sub es st.entries }) sub id other deleted now
            ne,
        view-set_entries st sub other es ne,
      )
    ]
view-run_op std (tamper_op sub id content) st other ne =
    elim (Option-cases (tamper_first id content (slice_at sub st.entries))) [
      | inl missing ↦ ground arith
      | inr (es, found) ↦ ground (arith, view-set_entries st sub other es ne)
    ]

view-run_ops :
    (std : Platform) (ops : List Op) (st : Store) (other : Str)
    → All (λ op. agent_of op ≢ other) ops
    → view other (run_ops std ops st) ≡ view other st
unfolding run_ops
view-run_ops std [] st other _ = refl
view-run_ops std (op ∷ ops) st other (ne, h) =
    view-run_ops std ops (run_op std op st) other h ∙ view-run_op std op st other ne

read_result : Platform → Str → List MemoryEntry → Result Error (List MemoryEntry)
read_result std sub es = elim (first_tampered std es) [
  | none ↦ ok es
  | some e ↦ err (integrity_error e.id sub)
]

read-eq-read_result :
    (std : Platform) (st : Store) (sub : Str) (now : Time)
    → (read std st sub now).1 ≡ read_result std sub (slice_at sub st.entries)
unfolding read read_result
read-eq-read_result std st sub now = ground arith

-- What an agent has and reads is untouched by whatever other agents write, read, delete or have
-- tampered with.
pub read-run_ops :
    (std : Platform) (ops : List Op) (st : Store) (other : Str) (now : Time)
    → All (λ op. agent_of op ≢ other) ops
    → (view other (run_ops std ops st) ≡ view other st)
      × ((read std (run_ops std ops st) other now).1 ≡ (read std st other now).1)
read-run_ops std ops st other now h =
    let same = view-run_ops std ops st other h in
    (
      same,
      read-eq-read_result std (run_ops std ops st) other now
          ∙ ap (λ (v : List MemoryEntry × List AuditRecord). read_result std other v.0) same
          ∙ sym (read-eq-read_result std st other now),
    )
