-- ===== src/Cb4a/Glob.antt =====
-- `path.Match` of Go's package path, on texts of one-byte characters. A malformed pattern never
-- matches: the program drops the error and keeps the result, which is then false. A star is tried at
-- every place, where Go keeps the first at which the items up to the next star fit.
use mathlib.Core.Option
use ai_agent_security.Base.{
  ℕ, Str, Bool, true, false, not, ◌&&◌, ◌||◌, List, [], ◌∷◌, ◌++◌, Option, none, some, eqb, leb,
  if◌then◌else◌,
}

-- A pattern that stands for one character: any but '/', a given one, or a class of ranges.
pub data One : Type 0 where
  any : One
  lit : ℕ → One
  class : Bool → List (ℕ × ℕ) → One

pub data Item : Type 0 where
  star : Item
  one : One → Item

abbrev pub slash : ℕ
slash = 47

unfoldable pub in_ranges : ℕ → List (ℕ × ℕ) → Bool
in_ranges c [] = false
in_ranges c ((lo, hi) ∷ rs) = leb lo c && leb c hi || in_ranges c rs

abbrev negate_if : Bool → Bool → Bool
negate_if true b = not b
negate_if false b = b

unfoldable pub accepts : One → ℕ → Bool
unfolding in_ranges
accepts any c = not (eqb c slash)
accepts (lit d) c = eqb c d
accepts (class negated rs) c = negate_if negated (in_ranges c rs)

-- Where the reader of a pattern stands: outside a class; behind a backslash; behind '['; before a
-- range; behind its backslash; behind its lower end; before its upper end; behind that's backslash.
pub data Mode : Type 0 where
  plain escaped opened : Mode
  range range_escaped : Bool → List (ℕ × ℕ) → Mode
  lower upper upper_escaped : Bool → List (ℕ × ℕ) → ℕ → Mode

abbrev is_nil_ranges : List (ℕ × ℕ) → Bool
is_nil_ranges [] = true
is_nil_ranges (r ∷ rs) = false

-- The next byte of a class, where a range may begin or the class may end.
range_step : Bool → List (ℕ × ℕ) → ℕ → Option (Mode × List Item)
range_step negated rs c =
    if eqb c b']' && not (is_nil_ranges rs)
    then some (plain, one (class negated rs) ∷ [])
    else if eqb c b'-' || eqb c b']'
    then none
    else if eqb c 92
    then some (range_escaped negated rs, [])
    else some (lower negated rs c, [])

read_byte : Mode → ℕ → Option (Mode × List Item)
unfolding range_step
read_byte plain c =
    if eqb c b'*'
    then some (plain, star ∷ [])
    else if eqb c b'?'
    then some (plain, one any ∷ [])
    else if eqb c 92
    then some (escaped, [])
    else if eqb c b'['
    then some (opened, [])
    else some (plain, one (lit c) ∷ [])
read_byte escaped c = some (plain, one (lit c) ∷ [])
read_byte opened c = if eqb c b'^' then some (range true [], []) else range_step false [] c
read_byte (range negated rs) c = range_step negated rs c
read_byte (range_escaped negated rs) c = some (lower negated rs c, [])
read_byte (lower negated rs lo) c =
    if eqb c b'-' then some (upper negated rs lo, []) else range_step negated ((lo, lo) ∷ rs) c
read_byte (upper negated rs lo) c =
    if eqb c b'-' || eqb c b']'
    then none
    else if eqb c 92
    then some (upper_escaped negated rs lo, [])
    else some (range negated ((lo, c) ∷ rs), [])
read_byte (upper_escaped negated rs lo) c = some (range negated ((lo, c) ∷ rs), [])

abbrev at_end : Mode → Option (List Item)
at_end plain = some []
at_end _ = none

read_pattern : Mode → Str → Option (List Item)
read_pattern m [] = at_end m
read_pattern m (c ∷ s) = elim (read_byte m c) [
  | none ↦ none
  | some (m', items) ↦ Option.map (λ rest. items ++ rest) (read_pattern m' s)
]

-- The items of a pattern; `none` is ErrBadPattern.
unfoldable pub items_of : Str → Option (List Item)
unfolding read_pattern read_byte
items_of pattern_text = read_pattern plain pattern_text

unfoldable pub match_items : List Item → Str → Bool
unfolding accepts
match_items [] [] = true
match_items [] (c ∷ s) = false
match_items (star ∷ ps) [] = match_items ps []
match_items (star ∷ ps) (c ∷ s) = elim (match_items ps (c ∷ s)) [
  | true ↦ true
  | false ↦ not (eqb c slash) && match_items (star ∷ ps) s
]
match_items (one p ∷ ps) [] = false
match_items (one p ∷ ps) (c ∷ s) = accepts p c && match_items ps s

-- `matched, _ := path.Match(pattern, name)`
unfoldable pub path_match : Str → Str → Bool
unfolding items_of match_items
path_match pattern_text name = elim (items_of pattern_text) [
  | none ↦ false
  | some items ↦ match_items items name
]
