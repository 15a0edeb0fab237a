-- ===== src/Samples/Memories.antt =====
-- Memories of two agents.
use ai_agent_security.Base.{contains_str, bytes, List, [], ◌∷◌, ok, ◌≡◌, refl, arith}
use ai_agent_security.Memory.{
  MemoryEntry, new_store, to_lower, validate_content, find_pattern, is_ascii, lower_byte, new_entry,
  write, read,
}
use ai_agent_security.Memory.Isolation.{Op, write_op, tamper_op, view, run_ops, read-run_ops}
use ai_agent_security.Samples.Stubs.{std}

abbrev others : List Op
others =
    write_op (bytes "b") (bytes "m1") (bytes "note") 3
    ∷ tamper_op (bytes "b") (bytes "m1") (bytes "forged")
    ∷ []

read-run_ops_example :
    (view (bytes "a") (run_ops std others new_store) ≡ view (bytes "a") new_store)
    × ((read std (run_ops std others new_store) (bytes "a") 9).1
        ≡ (read std new_store (bytes "a") 9).1)
read-run_ops_example =
    read-run_ops std others new_store (bytes "a") 9 (λ e. ground arith, (λ e. ground arith, tt))

abbrev entry : MemoryEntry
entry = new_entry std (bytes "a") (bytes "m1") (bytes "note") 3

written : (write std new_store (bytes "a") (bytes "m1") (bytes "note") 3).1 ≡ ok entry
unfolding write validate_content find_pattern to_lower is_ascii lower_byte contains_str
written = refl
