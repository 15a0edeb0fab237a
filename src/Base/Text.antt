-- ===== src/Base/Text.antt =====
-- Go strings as their bytes, and the functions of the packages strings and bytes that the program
-- calls.
use Prim.Native.Nat.{ℕ, zero, suc}
use Prim.Native.Char.{code}
use Prim.Native.String.{String}
use mathlib.Core.Bool.{Bool, true, false, ◌&&◌, ◌||◌}
use mathlib.Core.List.{List, [], ◌∷◌, ◌++◌}
use ai_agent_security.Base.Tests.{eqb, leb, if◌then◌else◌}

abbrev pub Str : Type 0
Str = List ℕ

-- The bytes of an ASCII literal.
abbrev pub bytes : String → Str
bytes String.[] = []
bytes (String.◌∷◌ c s) = code c ∷ bytes s

infix 50 ◌==◌
unfoldable pub ◌==◌ : Str → Str → Bool
[] == [] = true
[] == (c ∷ t) = false
(b ∷ s) == [] = false
(b ∷ s) == (c ∷ t) = eqb b c && s == t

abbrev pub is_empty : Str → Bool
is_empty [] = true
is_empty (b ∷ s) = false

-- A byte in front of the first part.
abbrev pub push_first : ℕ → List Str → List Str
push_first b [] = (b ∷ []) ∷ []
push_first b (p ∷ ps) = (b ∷ p) ∷ ps

-- `strings.Split(s, sep)` for a separator of one byte.
unfoldable pub split : ℕ → Str → List Str
split sep [] = [] ∷ []
split sep (b ∷ s) = if eqb b sep then [] ∷ split sep s else push_first b (split sep s)

-- `strings.SplitN(s, sep, n + 1)` for a separator of one byte: at most `n` cuts.
unfoldable pub split_n : ℕ → ℕ → Str → List Str
split_n sep zero s = s ∷ []
split_n sep (suc n) [] = [] ∷ []
split_n sep (suc n) (b ∷ s) =
    if eqb b sep then [] ∷ split_n sep n s else push_first b (split_n sep (suc n) s)

-- `strings.Join(parts, sep)` for a separator of one byte.
unfoldable pub join : ℕ → List Str → Str
join sep [] = []
join sep (p ∷ []) = p
join sep (p ∷ q ∷ ps) = p ++ sep ∷ join sep (q ∷ ps)

unfoldable pub has_prefix : Str → Str → Bool
has_prefix s [] = true
has_prefix [] (b ∷ p) = false
has_prefix (c ∷ s) (b ∷ p) = eqb c b && has_prefix s p

-- `strings.Contains(s, sub)`
unfoldable pub contains_str : Str → Str → Bool
unfolding has_prefix
contains_str [] sub = has_prefix [] sub
contains_str (c ∷ s) sub = has_prefix (c ∷ s) sub || contains_str s sub

-- `unicode.IsSpace` of a rune of one byte
abbrev is_space : ℕ → Bool
is_space c = leb 9 c && leb c 13 || eqb c 32

-- Of a rune of three bytes in UTF-8: U+1680, U+2000 to U+200A, U+2028, U+2029, U+202F, U+205F, U+3000
abbrev is_wide_space : ℕ → ℕ → ℕ → Bool
is_wide_space b c d =
    eqb b 225 && eqb c 154 && eqb d 128
    || eqb b 226
      && (eqb c 128 && (leb 128 d && leb d 138 || eqb d 168 || eqb d 169 || eqb d 175)
          || eqb c 129 && eqb d 159)
    || eqb b 227 && eqb c 128 && eqb d 128

three_bytes : ℕ → ℕ → Str → ℕ
three_bytes b c [] = 0
three_bytes b c (d ∷ s) = if is_wide_space b c d then 3 else 0

-- Of two bytes: U+0085, U+00A0
more_bytes : ℕ → Str → ℕ
more_bytes b [] = 0
more_bytes b (c ∷ s) = if eqb b 194 && (eqb c 133 || eqb c 160) then 2 else three_bytes b c s

-- The bytes of the white space that a text starts with, 0 if it starts with another rune. The first
-- bytes are those of no other rune, so that no cut falls inside one.
space_width : Str → ℕ
space_width [] = 0
space_width (b ∷ s) = if is_space b then 1 else more_bytes b s

before_last : ℕ → ℕ
before_last zero = zero
before_last (suc n) = n

-- The last word is put in front if it is not empty.
abbrev cons_word : Str → List Str → List Str
cons_word [] ws = ws
cons_word (b ∷ w) ws = (b ∷ w) ∷ ws

-- The words of a text after the given number of bytes, the rest of a white space: the first word, which
-- may be empty, and those after it.
words : ℕ → Str → Str × List Str
unfolding space_width more_bytes three_bytes before_last
words n [] = ([], [])
words (suc n) (b ∷ s) = words n s
words zero (b ∷ s) =
    let width = space_width (b ∷ s) in
    let (w, ws) = words (before_last width) s in
    if eqb width 0 then (b ∷ w, ws) else ([], cons_word w ws)

-- `strings.Fields(s)`
unfoldable pub fields : Str → List Str
unfolding words
fields s = let (w, ws) = words 0 s in cons_word w ws
