-- ===== src/Keys/Base64.antt =====
-- base64.RawURLEncoding of Go's encoding/base64: no padding, and line ends skipped on decoding.
use mathlib.Core.Option
use ai_agent_security.Base.{
  ℕ, ◌+◌, ◌-◌, ◌*◌, ◌/◌, ◌%◌, ◌<◌, ◌≡◌, refl, Str, List, [], ◌∷◌, Option, none, some, ◌&&◌, ◌||◌,
  All, ltb, leb, eqb, if◌then◌else◌, arith,
}

-- A character for 6 bits.
unfoldable pub char_of : ℕ → ℕ
char_of n =
    if ltb n 26
    then 65 + n
    else if ltb n 52
    then 71 + n
    else if ltb n 62
    then n - 4
    else if eqb n 62
    then 45
    else 95

value_of : ℕ → Option ℕ
value_of c =
    if leb 65 c && leb c 90
    then some (c - 65)
    else if leb 97 c && leb c 122
    then some (c - 71)
    else if leb 48 c && leb c 57
    then some (c + 4)
    else if eqb c 45
    then some 62
    else if eqb c 95
    then some 63
    else none

-- EncodeToString
unfoldable pub encode : Str → Str
encode [] = []
encode (a ∷ []) = char_of (a / 4) ∷ char_of (a % 4 * 16) ∷ []
encode (a ∷ b ∷ []) = char_of (a / 4) ∷ char_of (a % 4 * 16 + b / 16) ∷ char_of (b % 16 * 4) ∷ []
encode (a ∷ b ∷ c ∷ s) =
    char_of (a / 4)
    ∷ char_of (a % 4 * 16 + b / 16)
    ∷ char_of (b % 16 * 4 + c / 64)
    ∷ char_of (c % 64)
    ∷ encode s

-- The values of the characters, line ends left out.
values : Str → Option (List ℕ)
unfolding value_of
values [] = some []
values (c ∷ s) =
    if eqb c 10 || eqb c 13
    then values s
    else elim (value_of c) [ none ↦ none | some v ↦ Option.map (λ vs. v ∷ vs) (values s) ]

-- The whole bytes of a row of values; a last value alone is an error, and trailing bits are dropped.
pack : List ℕ → Option Str
pack [] = some []
pack (a ∷ []) = none
pack (a ∷ b ∷ []) = some ((a * 4 + b / 16) ∷ [])
pack (a ∷ b ∷ c ∷ []) = some ((a * 4 + b / 16) ∷ (b % 16 * 16 + c / 4) ∷ [])
pack (a ∷ b ∷ c ∷ d ∷ vs) =
    Option.map (λ s. (a * 4 + b / 16) ∷ (b % 16 * 16 + c / 4) ∷ (c % 4 * 64 + d) ∷ s) (pack vs)

-- DecodeString
unfoldable pub decode : Str → Option Str
unfolding values pack
decode s = elim (values s) [ none ↦ none | some vs ↦ pack vs ]

abbrev pub AreBytes : Str → Type 0
AreBytes s = All (λ b. b < 256) s

value-char : (n : ℕ) → n < 64 → value_of (char_of n) ≡ some n
unfolding value_of char_of
value-char n h = ground arith

-- The values that `encode` writes.
sextets : Str → List ℕ
sextets [] = []
sextets (a ∷ []) = (a / 4) ∷ (a % 4 * 16) ∷ []
sextets (a ∷ b ∷ []) = (a / 4) ∷ (a % 4 * 16 + b / 16) ∷ (b % 16 * 4) ∷ []
sextets (a ∷ b ∷ c ∷ s) =
    (a / 4) ∷ (a % 4 * 16 + b / 16) ∷ (b % 16 * 4 + c / 64) ∷ (c % 64) ∷ sextets s

values-char :
    (n : ℕ) (s : Str) → n < 64 → values (char_of n ∷ s) ≡ Option.map (λ vs. n ∷ vs) (values s)
unfolding values char_of
values-char n s h = ground arith

values_nil : values [] ≡ some []
unfolding values
values_nil = refl

values-encode : (s : Str) → AreBytes s → values (encode s) ≡ some (sextets s)
unfolding sextets encode
values-encode [] h = values_nil
values-encode (a ∷ []) h = ground (
  arith,
  values-char (a / 4) (char_of (a % 4 * 16) ∷ []),
  values-char (a % 4 * 16) [],
  values_nil,
)
values-encode (a ∷ b ∷ []) h =
    let last = char_of (b % 16 * 4) ∷ [] in
    let middle = char_of (a % 4 * 16 + b / 16) ∷ last in
    ground (
      arith,
      values-char (a / 4) middle,
      values-char (a % 4 * 16 + b / 16) last,
      values-char (b % 16 * 4) [],
      values_nil,
    )
values-encode (a ∷ b ∷ c ∷ s) h =
    let fourth = char_of (c % 64) ∷ encode s in
    let third = char_of (b % 16 * 4 + c / 64) ∷ fourth in
    let second = char_of (a % 4 * 16 + b / 16) ∷ third in
    ground (
      arith,
      values-char (a / 4) second,
      values-char (a % 4 * 16 + b / 16) third,
      values-char (b % 16 * 4 + c / 64) fourth,
      values-char (c % 64) (encode s),
      values-encode s,
    )

pack-sextets : (s : Str) → AreBytes s → pack (sextets s) ≡ some s
unfolding pack sextets
pack-sextets [] h = refl
pack-sextets (a ∷ []) h = ground arith
pack-sextets (a ∷ b ∷ []) h = ground arith
pack-sextets (a ∷ b ∷ c ∷ s) h = ground (arith, pack-sextets s)

-- Decoding an encoded text gives its bytes back.
pub decode-encode : (s : Str) → AreBytes s → decode (encode s) ≡ some s
unfolding decode
decode-encode s h = rw (values-encode s h, decode) (pack-sextets s h)
