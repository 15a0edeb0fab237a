-- ===== src/Platform.antt =====
-- What the program calls of Go's crypto/sha256, crypto/ecdsa, encoding/json, time and strings as
-- parameters: digests, signatures, the layout of instants, the lower case beyond ASCII, and the
-- encoding and decoding of the few JSON shapes that it reads by itself.
use ai_agent_security.Base.{ℕ, ◌<◌, Bool, true, ◌≡◌, ◌≢◌, List, [], Str, Option, some, All, Time}
use ai_agent_security.Keys.{Jwk, PublicKey, PrivateKey}
use ai_agent_security.Keys.Base64.{AreBytes}

pub record Platform : Type 0 where
  -- `sha256.Sum256`
  pub sha256 : Str → Str
  -- `t.Format(time.RFC3339Nano)`, and `strings.ToLower` of a text that is not all ASCII
  pub format_time : Time → Str
  pub lower_unicode : Str → Str
  -- `json.Unmarshal(payload, &claims)` into the struct with the one field `iss`; `none` is an error,
  -- and a payload without the claim leaves it empty.
  pub iss_of_json : Str → Option Str
  -- `json.Unmarshal` into a `keys.JWK`, and `json.Marshal` of one.
  pub jwk_of_json : Str → Option Jwk
  pub json_of_jwk : Jwk → Option Str
  -- `json.Unmarshal` of a session-revoked payload: the fields `sub` and `uri` of its subject.
  pub subject_of_json : Str → Option (Str × Str)
  -- `ecdsa.Verify(key, digest, r, s)` and `ecdsa.Sign(rand.Reader, key, digest)`
  pub ecdsa_verify : PublicKey → Str → ℕ → ℕ → Bool
  pub ecdsa_sign : PrivateKey → Str → Option (ℕ × ℕ)

-- Unmarshalling undoes marshalling of a JWK, whose JSON is not empty.
pub record IsFaithful (std : Platform) : Type 0 where
  pub jwk_of_json-json_of_jwk :
      (jwk : Jwk) (raw : Str) → std.json_of_jwk jwk ≡ some raw → std.jwk_of_json raw ≡ some jwk
  pub json_of_jwk-ne-nil : (jwk : Jwk) → std.json_of_jwk jwk ≢ some []

-- `json.Marshal` and `json.Unmarshal` of a `[]string`; `valid_utf8` is `utf8.ValidString`.
pub record TextsJson : Type 0 where
  pub json_of_texts : List Str → Option Str
  pub texts_of_json : Str → Option (List Str)
  pub valid_utf8 : Str → Bool

-- Unmarshalling undoes marshalling of texts that are UTF-8; what is marshalled is not empty and is
-- made of bytes.
pub record IsFaithfulJson (json : TextsJson) : Type 0 where
  pub texts_of_json-json_of_texts :
      (texts : List Str) (raw : Str)
      → All (λ s. json.valid_utf8 s ≡ true) texts
      → json.json_of_texts texts ≡ some raw
      → json.texts_of_json raw ≡ some texts
  pub json_of_texts-ne-nil : (texts : List Str) → json.json_of_texts texts ≢ some []
  pub json_of_texts-AreBytes :
      (texts : List Str) (raw : Str) → json.json_of_texts texts ≡ some raw → AreBytes raw
  pub ascii-valid_utf8 : (s : Str) → All (λ b. b < 128) s → json.valid_utf8 s ≡ true
