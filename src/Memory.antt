-- ===== src/Memory.antt =====
-- pkg/memory/memory.go: integrity-checked memory, a namespace for each agent. A map of slices of
-- pointers is a map of lists; that callers hold the same pointers is `tamper_for_testing`, a step
-- that changes a stored entry from outside. Each operation reads the clock once.
pub mod Laws
pub mod Isolation
use ai_agent_security.Base.{
  ℕ, ◌+◌, ◌*◌, ◌/◌, ◌%◌, take, Str, bytes, ◌==◌, is_empty, not, contains_str, Bool, true, false,
  ◌&&◌, List, [], ◌∷◌, ◌++◌, map, Option, none, some, Result, ok, err, ◌>>=◌, ◌>>◌, guard, Map,
  lookup, insert, Time, ltb, leb, length, if◌then◌else◌,
}
use ai_agent_security.Platform.{Platform}

pub record MemoryEntry : Type 0 where
  pub id : Str
  pub agent_sub : Str
  pub content : Str
  pub created_at : Time
  pub updated_at : Time
  pub integrity : Str

-- ValidationError: the size that was met, or the pattern that was found.
pub data ValidationError : Type 0 where
  size_anomaly : ℕ → ValidationError
  prompt_injection : Str → ValidationError

pub data Error : Type 0 where
  agent_sub_required id_required : Error
  rejected : ValidationError → Error
  integrity_error : Str → Str → Error
  not_found : Str → Error

-- The operation and the detail of an audit record.
pub data Event : Type 0 where
  wrote : Str → Event
  deleted integrity_fail : Event
  write_rejected : ValidationError → Event

pub record AuditRecord : Type 0 where
  pub at : Time
  pub agent_sub : Str
  pub entry_id : Str
  pub event : Event

-- InMemoryStore
pub record Store : Type 0 where
  pub entries : Map (List MemoryEntry)
  pub audit : Map (List AuditRecord)

-- NewInMemoryStore
abbrev pub new_store : Store
new_store = record { entries = []; audit = [] }

-- `m[k]` of a map of slices: nil where there is none.
abbrev or_nil {ℓ} : {A : Type ℓ} → Option (List A) → List A
or_nil none = []
or_nil (some xs) = xs

unfoldable pub slice_at {ℓ} : {A : Type ℓ} → Str → Map (List A) → List A
slice_at k m = or_nil (lookup k m)

-- injectionPatterns
abbrev pub injection_patterns : List Str
injection_patterns =
    bytes "ignore previous"
    ∷ bytes "ignore all previous"
    ∷ bytes "disregard your"
    ∷ bytes "new instructions:"
    ∷ bytes "system prompt:"
    ∷ bytes "you are now"
    ∷ bytes "act as if"
    ∷ bytes "forget everything"
    ∷ bytes "your true purpose"
    ∷ bytes "<|system|>"
    ∷ bytes "[system]"
    ∷ bytes "<!-- system -->"
    ∷ (bytes "---" ++ 10 ∷ bytes "system:")
    ∷ []

abbrev pub max_content_bytes : ℕ
max_content_bytes = 50 * 1024

-- `strings.ToLower`
unfoldable pub lower_byte : ℕ → ℕ
lower_byte c = if leb 65 c && leb c 90 then c + 32 else c

unfoldable pub is_ascii : Str → Bool
is_ascii [] = true
is_ascii (c ∷ s) = ltb c 128 && is_ascii s

unfoldable pub to_lower : Platform → Str → Str
unfolding lower_byte is_ascii
to_lower std s = if is_ascii s then map lower_byte s else std.lower_unicode s

-- The first pattern of the list that the text contains.
unfoldable pub find_pattern : List Str → Str → Option Str
find_pattern [] lower = none
find_pattern (p ∷ ps) lower = if contains_str lower p then some p else find_pattern ps lower

abbrev pub no_pattern : Option Str → Result ValidationError (Unit {0})
no_pattern none = ok tt
no_pattern (some p) = err (prompt_injection p)

-- validateContent
unfoldable pub validate_content : Platform → Str → Result ValidationError (Unit {0})
validate_content std content = do
  guard (not (ltb max_content_bytes (length content))) (size_anomaly (length content))
  no_pattern (find_pattern injection_patterns (to_lower std content))

-- logLocked
unfoldable pub log_event : Store → Str → Str → Event → Time → Store
log_event st sub id event now = record st {
  audit =
      insert sub
        (slice_at sub st.audit
          ++ record { at = now; agent_sub = sub; entry_id = id; event = event } ∷ [])
        st.audit;
}

-- The first entry with this id taken out.
unfoldable pub remove_first : Str → List MemoryEntry → Option (List MemoryEntry)
remove_first id [] = none
remove_first id (e ∷ es) =
    let rest = remove_first id es in
    if e.id == id then some es else elim rest [ none ↦ none | some es' ↦ some (e ∷ es') ]

abbrev delete_found :
    Store → Str → Str → Time → Option (List MemoryEntry) → Store × Result Error (Unit {0})
delete_found st sub id now none = (st, err (not_found id))
delete_found st sub id now (some es) =
    (log_event (record st { entries = insert sub es st.entries }) sub id deleted now, ok tt)

-- Delete
unfoldable pub delete_entry : Store → Str → Str → Time → Store × Result Error (Unit {0})
delete_entry st sub id now = delete_found st sub id now (remove_first id (slice_at sub st.entries))

-- Audit
unfoldable pub audit_of : Store → Str → List AuditRecord
audit_of st sub = slice_at sub st.audit

-- The first entry with this id given another content, its hash left as it was.
unfoldable pub tamper_first : Str → Str → List MemoryEntry → Option (List MemoryEntry)
tamper_first id content [] = none
tamper_first id content (e ∷ es) =
    let rest = tamper_first id content es in
    if e.id == id
    then some (record e { content = content } ∷ es)
    else elim rest [ none ↦ none | some es' ↦ some (e ∷ es') ]

abbrev tamper_found : Store → Str → Option (List MemoryEntry) → Store × Bool
tamper_found st sub none = (st, false)
tamper_found st sub (some es) = (record st { entries = insert sub es st.entries }, true)

-- TamperForTesting
unfoldable pub tamper_for_testing : Store → Str → Str → Str → Store × Bool
tamper_for_testing st sub id content =
    tamper_found st sub (tamper_first id content (slice_at sub st.entries))

-- hex.EncodeToString
hex_digit : ℕ → ℕ
hex_digit n = if ltb n 10 then n + 48 else n + 87

unfoldable pub hex_encode : Str → Str
unfolding hex_digit
hex_encode [] = []
hex_encode (b ∷ s) = hex_digit (b / 16) ∷ hex_digit (b % 16) ∷ hex_encode s

module _ (std : Platform) where
  -- ComputeIntegrity
  unfoldable pub compute_integrity : Str → Str → Time → Str
  compute_integrity sub content created_at =
      hex_encode (std.sha256 (sub ++ 0 ∷ content ++ 0 ∷ std.format_time created_at))

  -- The entry that Write makes.
  unfoldable pub new_entry : Str → Str → Str → Time → MemoryEntry
  new_entry sub id content now = record {
    id = id;
    agent_sub = sub;
    content = content;
    created_at = now;
    updated_at = now;
    integrity = compute_integrity sub content now;
  }

  unfoldable pub store_entry : Store → MemoryEntry → Str → Time → Store
  store_entry st e sub now =
      log_event (record st { entries = insert sub (slice_at sub st.entries ++ e ∷ []) st.entries })
        sub e.id (wrote (take 8 e.integrity)) now

  abbrev write_valid :
      Store
      → Str
      → Str
      → Str
      → Time
      → Result ValidationError (Unit {0})
      → Store × Result Error MemoryEntry
  write_valid st sub id content now (err e) =
      (log_event st sub id (write_rejected e) now, err (rejected e))
  write_valid st sub id content now (ok u) =
      (store_entry st (new_entry sub id content now) sub now, ok (new_entry sub id content now))

  -- Write
  unfoldable pub write : Store → Str → Str → Str → Time → Store × Result Error MemoryEntry
  write st sub id content now =
      if is_empty sub
      then (st, err agent_sub_required)
      else if is_empty id
      then (st, err id_required)
      else write_valid st sub id content now (validate_content std content)

  -- The test of Read on one entry.
  unfoldable pub is_intact : MemoryEntry → Bool
  is_intact e = compute_integrity e.agent_sub e.content e.created_at == e.integrity

  -- The first entry that fails it.
  unfoldable pub first_tampered : List MemoryEntry → Option MemoryEntry
  first_tampered [] = none
  first_tampered (e ∷ es) = if is_intact e then first_tampered es else some e

  abbrev read_checked :
      Store → Str → Time → Option MemoryEntry → Store × Result Error (List MemoryEntry)
  read_checked st sub now none = (st, ok (slice_at sub st.entries))
  read_checked st sub now (some e) =
      (log_event st sub e.id integrity_fail now, err (integrity_error e.id sub))

  -- Read
  unfoldable pub read : Store → Str → Time → Store × Result Error (List MemoryEntry)
  read st sub now = read_checked st sub now (first_tampered (slice_at sub st.entries))
