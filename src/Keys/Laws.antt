-- ===== src/Keys/Laws.antt =====
-- The round trip of pkg/keys/ec.go.
use ai_agent_security.Base.{bytes, ℕ, Str, ◌≡◌, true, some, ok, eq_refl, arith}
use ai_agent_security.Keys.{
  PublicKey, Jwk, is_on_curve, encode_coord, public_key_to_jwk, jwk_to_public_key,
}
use ai_agent_security.Keys.Base64.{decode, decode-encode}
use ai_agent_security.Keys.BigEndian.{to_bytes, pad, of_bytes-pad-to_bytes, pad-to_bytes-AreBytes}

decode-encode_coord : (n : ℕ) → decode (encode_coord n) ≡ some (pad 32 (to_bytes n))
unfolding encode_coord
decode-encode_coord n = decode-encode _ (pad-to_bytes-AreBytes 32 n)

-- A P-256 key on the curve survives the trip through its JSON Web Key, whatever the key id.
pub jwk_to_public_key-public_key_to_jwk :
    (key : PublicKey) (kid : Str) (jwk : Jwk)
    → is_on_curve key.x key.y ≡ true
    → public_key_to_jwk (some key) kid ≡ ok jwk
    → jwk_to_public_key jwk ≡ ok key
unfolding public_key_to_jwk jwk_to_public_key
jwk_to_public_key-public_key_to_jwk key kid jwk on made = ground (
  arith,
  decode-encode_coord key.x,
  decode-encode_coord key.y,
  of_bytes-pad-to_bytes 32 key.x,
  of_bytes-pad-to_bytes 32 key.y,
  eq_refl (bytes "EC"),
  eq_refl (bytes "P-256"),
)
