-- ===== src/Cb4a/GlobLaws.antt =====
-- An independent description of what a pattern of pkg/cb4a/pdp.go matches.
use ai_agent_security.Base.{
  ℕ, Str, ◌≡◌, refl, ap, ◌≢◌, ◌↔◌, inl, inr, true, List, [], ◌∷◌, ◌++◌, All, Bool-cases, eqb_iff,
  arith,
}
use ai_agent_security.Cb4a.Glob.{One, Item, star, one, slash, accepts, match_items}

-- A star matches a stretch without a slash, every other item one character.
pub data Matches : List Item → Str → Type 0 where
  at_end : Matches [] []
  stretch :
      {ps : List Item} {s : Str} (u t : Str)
      → All (λ c. c ≢ slash) u
      → Matches ps t
      → s ≡ u ++ t
      → Matches (star ∷ ps) s
  single :
      {p : One} {ps : List Item} {c : ℕ} {s : Str}
      → accepts p c ≡ true
      → Matches ps s
      → Matches (one p ∷ ps) (c ∷ s)

longer :
    {ps : List Item} (c : ℕ) (s : Str)
    → c ≢ slash
    → Matches (star ∷ ps) s
    → Matches (star ∷ ps) (c ∷ s)
longer c s ne (stretch u t free m e) = stretch (c ∷ u) t (ne, free) m (ap (λ r. c ∷ r) e)

match_items_sound : (ps : List Item) (s : Str) → match_items ps s ≡ true → Matches ps s
unfolding match_items
match_items_sound [] [] h = at_end
match_items_sound [] (c ∷ s) h = cc
match_items_sound (star ∷ ps) [] h = stretch [] [] tt (match_items_sound ps [] h) refl
match_items_sound (star ∷ ps) (c ∷ s) h = elim (Bool-cases (match_items ps (c ∷ s))) [
  | inl here ↦ stretch [] (c ∷ s) tt (match_items_sound ps (c ∷ s) here) refl
  | inr later ↦
      longer c s (ground (arith, eqb_iff c slash)) (match_items_sound (star ∷ ps) s (ground arith))
]
match_items_sound (one p ∷ ps) [] h = cc
match_items_sound (one p ∷ ps) (c ∷ s) h =
    single (ground arith) (match_items_sound ps s (ground arith))

star_empty : (ps : List Item) (t : Str) → match_items ps t ≡ true → match_items (star ∷ ps) t ≡ true
unfolding match_items
star_empty ps [] h = h
star_empty ps (c ∷ t) h = ground arith

star_step :
    (ps : List Item) (c : ℕ) (s : Str)
    → c ≢ slash
    → match_items (star ∷ ps) s ≡ true
    → match_items (star ∷ ps) (c ∷ s) ≡ true
unfolding match_items
star_step ps c s ne h = ground (arith, eqb_iff c slash)

star_stretch :
    (ps : List Item) (u t : Str)
    → All (λ c. c ≢ slash) u
    → match_items ps t ≡ true
    → match_items (star ∷ ps) (u ++ t) ≡ true
star_stretch ps [] t _ h = star_empty ps t h
star_stretch ps (c ∷ u) t (ne, free) h = star_step ps c (u ++ t) ne (star_stretch ps u t free h)

single_step :
    (p : One) (ps : List Item) (c : ℕ) (s : Str)
    → accepts p c ≡ true
    → match_items ps s ≡ true
    → match_items (one p ∷ ps) (c ∷ s) ≡ true
unfolding match_items
single_step p ps c s a h = ground arith

match_items_complete : {ps : List Item} {s : Str} → Matches ps s → match_items ps s ≡ true
match_items_complete at_end = unfold match_items in refl
match_items_complete (stretch {ps} u t free m e) =
    rw e (star_stretch ps u t free (match_items_complete m))
match_items_complete (single {p} {ps} {c} {s} a m) = single_step p ps c s a (match_items_complete m)

-- The backtracking matcher accepts exactly the texts that the pattern describes.
pub match_items_iff : (ps : List Item) (s : Str) → (match_items ps s ≡ true) ↔ Matches ps s
match_items_iff ps s = (match_items_sound ps s, match_items_complete)

-- What a match of a pattern tells, by its first item.
pub Matches-nil : {s : Str} → Matches [] s → s ≡ []
Matches-nil at_end = refl

pub Matches-one :
    {p : One} {ps : List Item} {s : Str}
    → Matches (one p ∷ ps) s
    → (c : ℕ) × (t : Str) × (s ≡ c ∷ t) × (accepts p c ≡ true) × Matches ps t
Matches-one (single {c} {s} a m) = (c, s, refl, a, m)

pub Matches-star :
    {ps : List Item} {s : Str}
    → Matches (star ∷ ps) s
    → (u : Str) × (t : Str) × (s ≡ u ++ t) × Matches ps t
Matches-star (stretch u t free m e) = (u, t, e, m)
