-- ===== src/Keys/BigEndian.antt =====
-- big.Int.Bytes and SetBytes of Go's math/big, and the left padding of encodeCoord.
use mathlib.Core.List.{foldl, foldl-append}
use ai_agent_security.Base.{
  ℕ, zero, suc, ◌+◌, ◌-◌, ◌*◌, ◌/◌, ◌%◌, ◌≤◌, ◌≡◌, refl, Str, [], ◌∷◌, ◌++◌, All-append, length,
  Bool-cases, inl, inr, eqb, ltb, if◌then◌else◌, arith,
}
use ai_agent_security.Keys.Base64.{AreBytes}

-- The digits of `n` to the base 256, the highest first; `fuel` is at least `n`.
digits : ℕ → ℕ → Str
digits zero n = []
digits (suc fuel) n =
    let rest = digits fuel (n / 256) in if eqb n 0 then [] else rest ++ (n % 256) ∷ []

-- `n.Bytes()`
unfoldable pub to_bytes : ℕ → Str
unfolding digits
to_bytes n = digits n n

-- `new(big.Int).SetBytes(s)`
unfoldable pub of_bytes : Str → ℕ
of_bytes = foldl (λ n b. n * 256 + b) 0

zeros : ℕ → Str
zeros zero = []
zeros (suc n) = 0 ∷ zeros n

-- The copy into the end of a zeroed slice of `width` bytes, where the text is shorter.
unfoldable pub pad : ℕ → Str → Str
unfolding zeros
pad width s = if ltb (length s) width then zeros (width - length s) ++ s else s

of_bytes-append_one : (s : Str) (b : ℕ) → of_bytes (s ++ b ∷ []) ≡ of_bytes s * 256 + b
unfolding of_bytes
of_bytes-append_one s b = rw foldl-append

of_bytes_nil : of_bytes [] ≡ 0
unfolding of_bytes
of_bytes_nil = refl

of_bytes-digits : (fuel n : ℕ) → n ≤ fuel → of_bytes (digits fuel n) ≡ n
unfolding digits
of_bytes-digits zero n h = unfold of_bytes in omega arith
of_bytes-digits (suc fuel) n h = ground (
  arith,
  of_bytes-append_one (digits fuel (n / 256)) (n % 256),
  of_bytes-digits fuel (n / 256),
  of_bytes_nil,
)

of_bytes-zeros : (k : ℕ) (s : Str) → of_bytes (zeros k ++ s) ≡ of_bytes s
unfolding zeros of_bytes
of_bytes-zeros zero s = refl
of_bytes-zeros (suc k) s = of_bytes-zeros k s

-- Padding keeps the number, and the number is that of its bytes.
pub of_bytes-pad-to_bytes : (width n : ℕ) → of_bytes (pad width (to_bytes n)) ≡ n
unfolding pad to_bytes
of_bytes-pad-to_bytes width n =
    ground (arith, of_bytes-zeros (width - length (digits n n)) (digits n n), of_bytes-digits n n)

digits-AreBytes : (fuel n : ℕ) → AreBytes (digits fuel n)
unfolding digits
digits-AreBytes zero n = tt
digits-AreBytes (suc fuel) n = elim (Bool-cases (eqb n 0)) [
  | inl stop ↦ rw stop tt
  | inr more ↦
      rw more
        (All-append _ (digits fuel (n / 256)) _ (digits-AreBytes fuel (n / 256)) (omega arith, tt))
]

zeros-AreBytes : (k : ℕ) → AreBytes (zeros k)
unfolding zeros
zeros-AreBytes zero = tt
zeros-AreBytes (suc k) = (omega arith, zeros-AreBytes k)

pub pad-to_bytes-AreBytes : (width n : ℕ) → AreBytes (pad width (to_bytes n))
unfolding pad to_bytes
pad-to_bytes-AreBytes width n = elim (Bool-cases (ltb (length (digits n n)) width)) [
  | inl shorter ↦ rw shorter (
      All-append _ (zeros (width - length (digits n n))) _ (zeros-AreBytes _) (digits-AreBytes n n))
  | inr full ↦ rw full (digits-AreBytes n n)
]
