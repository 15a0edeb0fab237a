-- ===== src/Memory/Laws.antt =====
-- pkg/memory/memory.go: the detectors, writes and reads.
use ai_agent_security.Base.{
  ℕ, ◌≤◌, Str, eq_refl, is_empty, empty-cases, contains_str, contains_str_iff, Occurs, ◌≡◌, refl,
  sym, ◌↔◌, ◌⊎◌, inl, inr, true, false, List, [], ◌∷◌, ◌++◌, Option, none, some, Result, ok, err,
  guard, ◌>>=◌, not, Result-cases, Option-cases, Bool-cases, All, All-append, length, ltb,
  lookup-insert_self, Time, arith,
}
use ai_agent_security.Platform.{Platform}
use ai_agent_security.Memory.{
  size_anomaly, MemoryEntry, write_rejected, ValidationError, agent_sub_required, id_required,
  rejected, Store, slice_at, injection_patterns, max_content_bytes, to_lower, find_pattern,
  no_pattern, validate_content, log_event, compute_integrity, new_entry, store_entry, write,
  is_intact, first_tampered, read,
}

find_pattern-none :
    (ps : List Str) (s : Str) → find_pattern ps s ≡ none → All (λ p. ¬ (Occurs p s)) ps
unfolding find_pattern
find_pattern-none [] s h = tt
find_pattern-none (p ∷ ps) s h = elim (Bool-cases (contains_str s p)) [
  | inl found ↦ ground arith
  | inr absent ↦ (λ o. cc ((contains_str_iff s p).1 o), find_pattern-none ps s (ground arith))
]

none-find_pattern :
    (ps : List Str) (s : Str) → All (λ p. ¬ (Occurs p s)) ps → find_pattern ps s ≡ none
unfolding find_pattern
none-find_pattern [] s h = refl
none-find_pattern (p ∷ ps) s (absent, h) = elim (Bool-cases (contains_str s p)) [
  | inl found ↦ absurd (absent ((contains_str_iff s p).0 found))
  | inr missing ↦ rw missing (none-find_pattern ps s h)
]

no_pattern-cases : (o : Option Str) → (no_pattern o ≡ ok tt) ↔ (o ≡ none)
no_pattern-cases none = (λ h. refl, λ h. refl)
no_pattern-cases (some p) = (λ h. ground arith, λ h. ground arith)

find_pattern_iff :
    (ps : List Str) (s : Str)
    → (no_pattern (find_pattern ps s) ≡ ok tt) ↔ All (λ p. ¬ (Occurs p s)) ps
find_pattern_iff ps s =
    let cases = no_pattern-cases (find_pattern ps s) in
    (λ h. find_pattern-none ps s (cases.0 h), λ h. cases.1 (none-find_pattern ps s h))

guard_then_iff :
    {P : Type 0} (n : ℕ) (r : Result ValidationError (Unit {0}))
    → (r ≡ ok tt) ↔ P
    → ((guard (not (ltb max_content_bytes n)) (size_anomaly n) >>= (λ u. r)) ≡ ok tt)
      ↔ ((n ≤ max_content_bytes) × P)
guard_then_iff n r both = elim (Bool-cases (ltb max_content_bytes n)) [
  | inl large ↦ rw large (λ h. ground arith, λ (fits, h). ground arith)
  | inr small ↦ rw small (λ h. (ground arith, both.0 h), λ (fits, h). both.1 h)
]

-- The detectors pass a content exactly if it has at most 51200 bytes and no injection pattern occurs
-- in its lower case.
pub validate_content_iff :
    (std : Platform) (content : Str)
    → (validate_content std content ≡ ok tt) ↔ (
        (length content ≤ max_content_bytes)
        × All (λ p. ¬ (Occurs p (to_lower std content))) injection_patterns)
unfolding validate_content
validate_content_iff std content =
    guard_then_iff (length content)
      (no_pattern (find_pattern injection_patterns (to_lower std content)))
      (find_pattern_iff injection_patterns (to_lower std content))

first_tampered_iff :
    (std : Platform) (es : List MemoryEntry)
    → (first_tampered std es ≡ none) ↔ All (λ e. is_intact std e ≡ true) es
unfolding first_tampered
first_tampered_iff std [] = (λ h. tt, λ h. refl)
first_tampered_iff std (e ∷ es) =
    let rest = first_tampered_iff std es in
    elim (Bool-cases (is_intact std e)) [
      | inl intact ↦ (λ h. (intact, rest.0 (ground arith)), λ (i, h). rw intact (rest.1 h))
      | inr tampered ↦ (λ h. ground arith, λ (i, h). cc)
    ]

-- A read returns a list exactly if it is the agent's entries and each of them has the hash of its
-- agent, content and creation time.
pub read_iff :
    (std : Platform) (st : Store) (sub : Str) (now : Time) (es : List MemoryEntry)
    → ((read std st sub now).1 ≡ ok es)
      ↔ ((es ≡ slice_at sub st.entries) × All (λ e. is_intact std e ≡ true) es)
unfolding read
read_iff std st sub now es = elim (Option-cases (first_tampered std (slice_at sub st.entries))) [
  | inl clean ↦ (
    λ h.
        let here : es ≡ slice_at sub st.entries = ground arith in
        (here, rw here ((first_tampered_iff std (slice_at sub st.entries)).0 clean)),
    λ (here, all). ground arith,
  )
  | inr (e, found) ↦ (
    λ h. ground arith,
    λ (here, all).
        let all' : All (λ e. is_intact std e ≡ true) (slice_at sub st.entries) =
          rw (sym here) all in
        let clean = (first_tampered_iff std (slice_at sub st.entries)).1 all' in ground arith,
  )
]

is_intact-new_entry :
    (std : Platform) (sub id content : Str) (now : Time)
    → is_intact std (new_entry std sub id content now) ≡ true
unfolding is_intact new_entry
is_intact-new_entry std sub id content now = eq_refl (compute_integrity std sub content now)

-- What a write does on each of its branches: an entry added at the end of the agent's list, or only a
-- record of the rejection, or nothing.
pub write-outcome :
    (std : Platform) (st : Store) (sub id content : Str) (now : Time)
    → ((e : MemoryEntry) × (write std st sub id content now ≡ (store_entry std st e sub now, ok e))
        × (e ≡ new_entry std sub id content now)
        × (validate_content std content ≡ ok tt)
        × (is_empty sub ≡ false)
        × (is_empty id ≡ false))
      ⊎ (((e : ValidationError) × (write std st sub id content now
              ≡ (log_event st sub id (write_rejected e) now, err (rejected e)))
            × (validate_content std content ≡ err e))
          ⊎ (((write std st sub id content now ≡ (st, err agent_sub_required)) × (sub ≡ []))
              ⊎ ((write std st sub id content now ≡ (st, err id_required)) × (id ≡ []))))
unfolding write
write-outcome std st sub id content now = elim (empty-cases sub) [
  | inl no_sub ↦ rw no_sub (inr (inr (inl (refl, refl))))
  | inr has_sub ↦ elim (empty-cases id) [
    | inl no_id ↦ inr (inr (inr (ground arith, no_id)))
    | inr has_id ↦ elim (Result-cases (validate_content std content)) [
      | inl (u, valid) ↦
          inl (new_entry std sub id content now, ground arith, refl, ground arith, has_sub, has_id)
      | inr (e, invalid) ↦ inr (inl (e, ground arith, invalid))
    ]
  ]
]

slice_at-store_entry :
    (std : Platform) (st : Store) (e : MemoryEntry) (sub : Str) (now : Time)
    → slice_at sub (store_entry std st e sub now).entries ≡ slice_at sub st.entries ++ e ∷ []
unfolding store_entry log_event slice_at
slice_at-store_entry std st e sub now =
    rw (lookup-insert_self sub (slice_at sub st.entries ++ e ∷ []) st.entries) refl

-- After a write that returns an entry the agent reads its earlier entries and this one at the end, if
-- the earlier ones are intact.
pub read-write :
    (std : Platform) (st : Store) (sub id content : Str) (now later : Time) (e : MemoryEntry)
    → (write std st sub id content now).1 ≡ ok e
    → All (λ e. is_intact std e ≡ true) (slice_at sub st.entries)
    → (read std (write std st sub id content now).0 sub later).1
      ≡ ok (slice_at sub st.entries ++ e ∷ [])
read-write std st sub id content now later e h intact =
    elim (write-outcome std st sub id content now) [
      | inl (e', written, made, valid, has_sub, has_id) ↦
          let same : e' ≡ e = ground arith in
          let here : (write std st sub id content now).0 ≡ store_entry std st e sub now =
            ground arith in
          let intact' : is_intact std e ≡ true =
            rw (sym same) (rw made (is_intact-new_entry std sub id content now)) in
          (read_iff std (write std st sub id content now).0 sub later
              (slice_at sub st.entries ++ e ∷ [])).1
            (
              rw here (sym (slice_at-store_entry std st e sub now)),
              All-append (λ e. is_intact std e ≡ true) (slice_at sub st.entries) (e ∷ []) intact
                  (intact', tt),
            )
      | inr (inl (e', denied, invalid)) ↦ ground arith
      | inr (inr (inl (missing, absent))) ↦ ground arith
      | inr (inr (inr (missing, absent))) ↦ ground arith
    ]
