-- ===== src/Keys/Alphabet.antt =====
-- The characters that base64url writes.
use ai_agent_security.Base.{ℕ, ◌<◌, ◌≢◌, Str, [], ◌∷◌, All, arith}
use ai_agent_security.Keys.Base64.{char_of, encode, AreBytes}

module _ (P : ℕ → Type 0) (each : (n : ℕ) → n < 64 → P (char_of n)) where
  -- What holds of the characters of the alphabet holds of every character that is written.
  pub All-encode : (s : Str) → AreBytes s → All P (encode s)
  unfolding encode
  All-encode [] h = tt
  All-encode (a ∷ []) (ha, _) = (each _ (omega arith), (each _ (omega arith), tt))
  All-encode (a ∷ b ∷ []) (ha, (hb, _)) =
      (each _ (omega arith), (each _ (omega arith), (each _ (omega arith), tt)))
  All-encode (a ∷ b ∷ c ∷ s) (ha, (hb, (hc, hs))) = (
    each _ (omega arith),
    (each _ (omega arith), (each _ (omega arith), (each _ (omega arith), All-encode s hs))),
  )

char_of-lt : (n : ℕ) → n < 64 → char_of n < 128
unfolding char_of
char_of-lt n h = ground arith

char_of-ne-tilde : (n : ℕ) → n < 64 → char_of n ≢ 126
unfolding char_of
char_of-ne-tilde n h = ground arith

pub encode-ascii : (s : Str) → AreBytes s → All (λ b. b < 128) (encode s)
encode-ascii s h = All-encode (λ b. b < 128) char_of-lt s h

pub encode-no_tilde : (s : Str) → AreBytes s → All (λ b. b ≢ 126) (encode s)
encode-no_tilde s h = All-encode (λ b. b ≢ 126) char_of-ne-tilde s h

pub encode-ne-nil : (s : Str) → s ≢ [] → encode s ≢ []
unfolding encode
encode-ne-nil [] ne e = ne e
encode-ne-nil (a ∷ []) ne e = cc
encode-ne-nil (a ∷ b ∷ []) ne e = cc
encode-ne-nil (a ∷ b ∷ c ∷ s) ne e = cc
