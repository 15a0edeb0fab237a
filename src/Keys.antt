-- ===== src/Keys.antt =====
-- pkg/keys/ec.go: P-256 public keys and their JSON Web Keys. The children hold the encodings of
-- encoding/base64 and math/big that it calls.
pub mod Base64
pub mod BigEndian
pub mod Alphabet
pub mod Laws
use ai_agent_security.Base.{
  ℕ, ◌+◌, ◌*◌, ◌%◌, ◌-◌, ◌^◌, Str, bytes, ◌==◌, Bool, ◌&&◌, ◌||◌, not, List, ◌++◌, Option, none,
  some, Result, ok, err, ◌>>=◌, ◌>>◌, guard, require, ltb, eqb, if◌then◌else◌,
}
use ai_agent_security.Keys.Base64.{encode, decode}
use ai_agent_security.Keys.BigEndian.{to_bytes, of_bytes, pad}

pub data Curve : Type 0 where
  p224 p256 p384 p521 : Curve

-- `ecdsa.PublicKey`
pub record PublicKey : Type 0 where
  pub curve : Curve
  pub x : ℕ
  pub y : ℕ

-- `ecdsa.PrivateKey`
pub record PrivateKey : Type 0 where
  pub public : PublicKey
  pub d : ℕ

pub record Jwk : Type 0 where
  pub kty : Str
  pub crv : Str
  pub x : Str
  pub y : Str
  pub kid : Str
  pub alg : Str

pub data Error : Type 0 where
  nil_key only_p256 unsupported decode_x decode_y not_on_curve : Error

abbrev pub is_p256 : Curve → Bool
is_p256 p256 = Bool.true
is_p256 _ = Bool.false

-- The prime and the constant term of P-256, and its equation y² = x³ - 3x + b.
abbrev pub prime : ℕ
prime = 2 ^ 256 - 2 ^ 224 + 2 ^ 192 + 2 ^ 96 - 1

abbrev constant_term : ℕ
constant_term = 0x5ac635d8aa3a93e7b3ebbd55769886bc651d06b0cc53b0f63bce3c3e27d2604b

unfoldable pub is_on_curve : ℕ → ℕ → Bool
is_on_curve x y =
    ltb x prime
    && ltb y prime
    && eqb (y * y % prime) ((x * x * x + (prime - 3) * x + constant_term) % prime)

-- encodeCoord
unfoldable pub encode_coord : ℕ → Str
encode_coord n = encode (pad 32 (to_bytes n))

-- PublicKeyToJWK; `none` is the nil pointer.
unfoldable pub public_key_to_jwk : Option PublicKey → Str → Result Error Jwk
public_key_to_jwk none kid = err nil_key
public_key_to_jwk (some pub_key) kid = do
  guard (is_p256 pub_key.curve) only_p256
  ok (record {
    kty = bytes "EC";
    crv = bytes "P-256";
    x = encode_coord pub_key.x;
    y = encode_coord pub_key.y;
    kid = kid;
    alg = bytes "ES256";
  })

-- JWKToPublicKey
unfoldable pub jwk_to_public_key : Jwk → Result Error PublicKey
jwk_to_public_key jwk = do
  guard (jwk.kty == bytes "EC" && jwk.crv == bytes "P-256") unsupported
  x_bytes ← require (decode jwk.x) decode_x
  y_bytes ← require (decode jwk.y) decode_y
  guard (is_on_curve (of_bytes x_bytes) (of_bytes y_bytes)) not_on_curve
  ok (record { curve = p256; x = of_bytes x_bytes; y = of_bytes y_bytes })
