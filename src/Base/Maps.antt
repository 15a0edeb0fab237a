-- ===== src/Base/Maps.antt =====
-- Go maps with string keys, as association lists. `lookup` is `m[k]` with its second result,
-- `insert` is `m[k] = v`, `delete` is `delete(m, k)`.
use mathlib.Core.Path.{◌≡◌, refl}
use mathlib.Core.Bool.{Bool, true, false}
use mathlib.Core.Option.{Option, none, some}
use mathlib.Core.List.{List, [], ◌∷◌}
use mathlib.Core.Logic.{inl, inr}
use native.Mathlib.Omega.{arith}
use ai_agent_security.Base.Tests.{Bool-cases, if◌then◌else◌}
use ai_agent_security.Base.Text.{Str, ◌==◌}
use ai_agent_security.Base.TextLaws.{eq_iff, eq_refl}

abbrev pub Map {ℓ} : Type ℓ → Type ℓ
Map V = List (Str × V)

module _ {ℓ} {V : Type ℓ} where
  unfoldable pub lookup : Str → Map V → Option V
  lookup key [] = none
  lookup key ((j, v) ∷ rest) = if j == key then some v else lookup key rest

  unfoldable pub insert : Str → V → Map V → Map V
  insert key v [] = (key, v) ∷ []
  insert key v ((j, w) ∷ rest) = if j == key then (key, v) ∷ rest else (j, w) ∷ insert key v rest

  -- Keep the entries whose value passes the test: a sweep `for k, v := range m { delete }`.
  unfoldable pub keep : (V → Bool) → Map V → Map V
  keep p [] = []
  keep p ((j, v) ∷ m) = let rest = keep p m in if p v then (j, v) ∷ rest else rest

  unfoldable pub delete : Str → Map V → Map V
  delete key [] = []
  delete key ((j, v) ∷ m) = let rest = delete key m in if j == key then rest else (j, v) ∷ rest

  pub lookup-insert :
      (key j : Str) (v : V) (rest : Map V)
      → lookup j (insert key v rest) ≡ (if key == j then some v else lookup j rest)
  unfolding lookup insert
  lookup-insert key j v [] = refl
  lookup-insert key j v ((i, w) ∷ rest) =
      ground (arith, eq_iff key j, eq_iff i key, eq_iff i j, lookup-insert key j v rest)

  pub lookup-delete :
      (key j : Str) (rest : Map V)
      → lookup j (delete key rest) ≡ (if key == j then none else lookup j rest)
  unfolding lookup delete
  lookup-delete key j [] = ground arith
  lookup-delete key j ((i, v) ∷ rest) =
      ground (arith, eq_iff key j, eq_iff i key, eq_iff i j, lookup-delete key j rest)

  pub lookup-insert_self :
      (key : Str) (v : V) (rest : Map V) → lookup key (insert key v rest) ≡ some v
  lookup-insert_self key v rest = simp (lookup-insert, eq_refl)

  -- A sweep keeps an entry that passes the test, brings none in, and leaves none that fails it.
  pub lookup-keep :
      (p : V → Bool) (key : Str) (v : V) (rest : Map V)
      → lookup key rest ≡ some v
      → p v ≡ true
      → lookup key (keep p rest) ≡ some v
  unfolding lookup keep
  lookup-keep p key v [] h pv = cc
  lookup-keep p key v ((j, w) ∷ m) h pv = ground (arith, eq_iff j key, lookup-keep p key v m)

  pub lookup-keep-none :
      (p : V → Bool) (key : Str) (m : Map V) → lookup key m ≡ none → lookup key (keep p m) ≡ none
  unfolding lookup keep
  lookup-keep-none p key [] h = refl
  lookup-keep-none p key ((j, w) ∷ m) h = ground (arith, eq_iff j key, lookup-keep-none p key m)

  pub test_of_lookup-keep :
      (p : V → Bool) (key : Str) (v : V) (m : Map V) → lookup key (keep p m) ≡ some v → p v ≡ true
  unfolding lookup keep
  test_of_lookup-keep p key v [] h = cc
  test_of_lookup-keep p key v ((j, w) ∷ m) h =
      ground (arith, eq_iff j key, test_of_lookup-keep p key v m)

  -- No key stands twice, as in a map of Go.
  unfoldable pub HasDistinctKeys : Map V → Type ℓ
  HasDistinctKeys [] = Unit
  HasDistinctKeys ((j, v) ∷ m) = (lookup j m ≡ none) × HasDistinctKeys m

  pub keep-HasDistinctKeys :
      (p : V → Bool) (m : Map V) → HasDistinctKeys m → HasDistinctKeys (keep p m)
  unfolding HasDistinctKeys keep
  keep-HasDistinctKeys p [] d = d
  keep-HasDistinctKeys p ((j, v) ∷ m) (new, d) = elim (Bool-cases (p v)) [
    | inl kept ↦ rw kept (lookup-keep-none p j m new, keep-HasDistinctKeys p m d)
    | inr gone ↦ rw gone (keep-HasDistinctKeys p m d)
  ]

  pub insert-HasDistinctKeys :
      (key : Str) (v : V) (m : Map V) → HasDistinctKeys m → HasDistinctKeys (insert key v m)
  unfolding HasDistinctKeys insert lookup
  insert-HasDistinctKeys key v [] d = (refl, tt)
  insert-HasDistinctKeys key v ((j, w) ∷ m) (new, d) = elim (Bool-cases (j == key)) [
    | inl same ↦ rw same (ground (arith, eq_iff j key), d)
    | inr other ↦ rw other (
      ground (arith, eq_iff j key, eq_iff key j, lookup-insert key j v m),
      insert-HasDistinctKeys key v m d,
    )
  ]

  -- A sweep leaves no entry under the key of one that fails the test.
  pub lookup-keep_failed :
      (p : V → Bool) (key : Str) (v : V) (m : Map V)
      → HasDistinctKeys m
      → lookup key m ≡ some v
      → p v ≡ false
      → lookup key (keep p m) ≡ none
  unfolding HasDistinctKeys lookup keep
  lookup-keep_failed p key v [] d h fails = refl
  lookup-keep_failed p key v ((j, w) ∷ m) (new, d) h fails = elim (Bool-cases (j == key)) [
    | inl same ↦
        let key_is : j ≡ key = (eq_iff j key).0 same in
        let gone = lookup-keep-none p j m new in
        let gone' : lookup key (keep p m) ≡ none = rw key_is at gone in ground (arith, gone')
    | inr other ↦ ground (arith, lookup-keep_failed p key v m d)
  ]
