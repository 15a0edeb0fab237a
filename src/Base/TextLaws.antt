-- ===== src/Base/TextLaws.antt =====
-- Laws of the text functions.
use Prim.Native.Nat.{ℕ, zero, suc}
use mathlib.Core.Path.{◌≡◌, refl, ap, ◌∙◌}
use mathlib.Core.Logic.{◌⊎◌, ◌≢◌, ◌↔◌, inl, inr}
use mathlib.Core.Bool.{true, false}
use mathlib.Core.List.{List, [], ◌∷◌, ◌++◌}
use native.Mathlib.Omega.{arith}
use ai_agent_security.Base.Tests.{eqb, eqb_iff, Bool-cases}
use ai_agent_security.Base.Lists.{All}
use ai_agent_security.Base.Text.{
  is_empty, Str, ◌==◌, push_first, split, split_n, join, has_prefix, contains_str,
}

pub eq_refl : (s : Str) → (s == s) ≡ true
unfolding ◌==◌
eq_refl [] = refl
eq_refl (b ∷ s) = ground (arith, eq_refl s)

eq_of_test : (s t : Str) → (s == t) ≡ true → s ≡ t
unfolding ◌==◌
eq_of_test [] [] h = refl
eq_of_test [] (c ∷ t) h = cc
eq_of_test (b ∷ s) [] h = cc
eq_of_test (b ∷ s) (c ∷ t) h = ground (arith, eq_of_test s t)

pub eq_iff : (s t : Str) → ((s == t) ≡ true) ↔ (s ≡ t)
eq_iff s t = (eq_of_test s t, λ e. rw e (eq_refl t))

-- A text without the byte `sep`.
abbrev pub Free : ℕ → Str → Type 0
Free sep s = All (λ b. b ≢ sep) s

join-push_first :
    (sep b : ℕ) (ps : List Str) → ps ≢ [] → join sep (push_first b ps) ≡ b ∷ join sep ps
unfolding join
join-push_first sep b [] h = absurd (h refl)
join-push_first sep b (p ∷ []) h = refl
join-push_first sep b (p ∷ q ∷ ps) h = refl

pub split-ne-nil : (sep : ℕ) (s : Str) → split sep s ≢ []
unfolding split
split-ne-nil sep [] = cc
split-ne-nil sep (b ∷ s) = ground arith

join-nil_cons : (sep : ℕ) (ps : List Str) → ps ≢ [] → join sep ([] ∷ ps) ≡ sep ∷ join sep ps
unfolding join
join-nil_cons sep [] h = absurd (h refl)
join-nil_cons sep (p ∷ ps) h = refl

-- Joining the parts of a split gives the text back.
pub join-split : (sep : ℕ) (s : Str) → join sep (split sep s) ≡ s
unfolding split
join-split sep [] = unfold join in refl
join-split sep (b ∷ s) = elim (Bool-cases (eqb b sep)) [
  | inl same ↦ rw same (
      join-nil_cons sep (split sep s) (split-ne-nil sep s)
      ∙ cc (join-split sep s, (eqb_iff b sep).0 same))
  | inr other ↦ rw other (
      join-push_first sep b (split sep s) (split-ne-nil sep s) ∙ ap (λ t. b ∷ t) (join-split sep s))
]

split-Free_lem : (sep : ℕ) (p : Str) → Free sep p → split sep p ≡ p ∷ []
unfolding split
split-Free_lem sep [] h = refl
split-Free_lem sep (b ∷ p) (ne, h) = ground (arith, split-Free_lem sep p h)

split-append : (sep : ℕ) (p s : Str) → Free sep p → split sep (p ++ sep ∷ s) ≡ p ∷ split sep s
unfolding split
split-append sep [] s h = ground arith
split-append sep (b ∷ p) s (ne, h) = ground (arith, split-append sep p s h)

-- Splitting a join gives the parts back, if there is a part and none holds the separator.
pub split-join :
    (sep : ℕ) (ps : List Str) → ps ≢ [] → All (Free sep) ps → split sep (join sep ps) ≡ ps
unfolding join
split-join sep [] ne h = absurd (ne refl)
split-join sep (p ∷ []) ne (h, _) = split-Free_lem sep p h
split-join sep (p ∷ q ∷ ps) ne (h, hs) =
    split-append sep p (join sep (q ∷ ps)) h ∙ ap (λ l. p ∷ l) (split-join sep (q ∷ ps) (cc) hs)

Free-push_first :
    (sep b : ℕ) (ps : List Str) → b ≢ sep → All (Free sep) ps → All (Free sep) (push_first b ps)
Free-push_first sep b [] ne h = ((ne, tt), tt)
Free-push_first sep b (p ∷ ps) ne (h, hs) = ((ne, h), hs)

-- No part of a split holds the separator.
pub split-Free : (sep : ℕ) (s : Str) → All (Free sep) (split sep s)
unfolding split
split-Free sep [] = (tt, tt)
split-Free sep (b ∷ s) = elim (Bool-cases (eqb b sep)) [
  | inl same ↦ rw same (tt, split-Free sep s)
  | inr other ↦
      rw other
        (Free-push_first sep b (split sep s) (λ e. cc ((eqb_iff b sep).1 e)) (split-Free sep s))
]

-- A text is empty, or its test fails.
pub empty-cases : (s : Str) → (s ≡ []) ⊎ (is_empty s ≡ false)
empty-cases [] = inl refl
empty-cases (b ∷ s) = inr refl

pub is_empty-false : (s : Str) → s ≢ [] → is_empty s ≡ false
is_empty-false [] ne = absurd (ne refl)
is_empty-false (b ∷ s) ne = refl

split_n-ne-nil : (sep n : ℕ) (s : Str) → split_n sep n s ≢ []
unfolding split_n
split_n-ne-nil sep zero s = cc
split_n-ne-nil sep (suc n) [] = cc
split_n-ne-nil sep (suc n) (b ∷ s) = ground arith

-- Joining the parts of a split with a bound gives the text back.
pub join-split_n : (sep n : ℕ) (s : Str) → join sep (split_n sep n s) ≡ s
unfolding split_n
join-split_n sep zero s = unfold join in refl
join-split_n sep (suc n) [] = unfold join in refl
join-split_n sep (suc n) (b ∷ s) = elim (Bool-cases (eqb b sep)) [
  | inl same ↦ rw same (
      join-nil_cons sep (split_n sep n s) (split_n-ne-nil sep n s)
      ∙ cc (join-split_n sep n s, (eqb_iff b sep).0 same))
  | inr other ↦ rw other (
      join-push_first sep b (split_n sep (suc n) s) (split_n-ne-nil sep (suc n) s)
      ∙ ap (λ t. b ∷ t) (join-split_n sep (suc n) s))
]

-- `sub` stands somewhere in `s`.
abbrev pub Occurs : Str → Str → Type 0
Occurs sub s = (u : Str) × (v : Str) × (s ≡ u ++ sub ++ v)

has_prefix_sound : (s p : Str) → has_prefix s p ≡ true → (v : Str) × (s ≡ p ++ v)
unfolding has_prefix
has_prefix_sound s [] h = (s, refl)
has_prefix_sound [] (b ∷ p) h = cc
has_prefix_sound (c ∷ s) (b ∷ p) h =
    let (v, e) = has_prefix_sound s p (ground arith) in
    let same : c ≡ b = ground (arith, eqb_iff c b) in (v, cc)

has_prefix_complete : (p v : Str) → has_prefix (p ++ v) p ≡ true
unfolding has_prefix
has_prefix_complete [] v = refl
has_prefix_complete (b ∷ p) v = ground (arith, has_prefix_complete p v)

contains_str_sound : (s sub : Str) → contains_str s sub ≡ true → Occurs sub s
unfolding contains_str
contains_str_sound [] sub h = let (v, e) = has_prefix_sound [] sub h in ([], v, e)
contains_str_sound (c ∷ s) sub h = elim (Bool-cases (has_prefix (c ∷ s) sub)) [
  | inl here ↦ let (v, e) = has_prefix_sound (c ∷ s) sub here in ([], v, e)
  | inr later ↦
      let (u, v, e) = contains_str_sound s sub (ground arith) in (c ∷ u, v, ap (λ t. c ∷ t) e)
]

contains_of_prefix : (s sub : Str) → has_prefix s sub ≡ true → contains_str s sub ≡ true
unfolding contains_str
contains_of_prefix [] sub h = h
contains_of_prefix (c ∷ s) sub h = ground arith

contains_append : (u sub v : Str) → contains_str (u ++ sub ++ v) sub ≡ true
unfolding contains_str
contains_append [] sub v = contains_of_prefix (sub ++ v) sub (has_prefix_complete sub v)
contains_append (c ∷ u) sub v = ground (arith, contains_append u sub v)

-- The search finds a text exactly if it occurs.
pub contains_str_iff : (s sub : Str) → (contains_str s sub ≡ true) ↔ Occurs sub s
contains_str_iff s sub = (contains_str_sound s sub, λ (u, v, e). rw e (contains_append u sub v))
