-- ===== src/Samples/Stubs.antt =====
-- A platform for tests, with the identity as digest and one key in JSON, and the base point of P-256.
use mathlib.Core.Path.{◌≡◌, refl}
use native.Mathlib.Decide.{ℕ_discrete}
use ai_agent_security.Base.{
  Str, ◌==◌, bytes, true, [], ◌∷◌, Option, none, some, eqb, ok, if◌then◌else◌, eq_refl, arith,
}
use ai_agent_security.Keys.{
  p256, PublicKey, PrivateKey, Jwk, is_on_curve, encode_coord, public_key_to_jwk, jwk_to_public_key,
}
use ai_agent_security.Keys.Laws.{jwk_to_public_key-public_key_to_jwk}
use ai_agent_security.Platform.{Platform, IsFaithful}
use ai_agent_security.Samples.OneToken.{chosen, chosen-yes, chosen_sound}

abbrev pub base_point : PublicKey
base_point = record {
  curve = p256;
  x = 0x6b17d1f2e12c4247f8bce6e563a440f277037d812deb33a0f4a13945d898c296;
  y = 0x4fe342e2fe1a7f9b8ee7eb4a7c0f9e162bce33576b315ececbb6406837bf51f5;
}

abbrev pub base_key : PrivateKey
base_key = record { public = base_point; d = 1 }

pub base_point-is_on_curve : is_on_curve base_point.x base_point.y ≡ true
unfolding is_on_curve
base_point-is_on_curve = refl

unfoldable pub base_jwk : Jwk
base_jwk = record {
  kty = bytes "EC";
  crv = bytes "P-256";
  x = encode_coord base_point.x;
  y = encode_coord base_point.y;
  kid = [];
  alg = bytes "ES256";
}

pub public_key_to_jwk-base_point : public_key_to_jwk (some base_point) [] ≡ ok base_jwk
unfolding public_key_to_jwk base_jwk
public_key_to_jwk-base_point = refl

abbrev pub raw_jwk : Str
raw_jwk = bytes "{}"

pub same_jwk : Discrete Jwk
same_jwk = hlevel ℕ_discrete

unfoldable pub sample_jwk_of_json : Str → Option Jwk
sample_jwk_of_json raw = if raw == raw_jwk then some base_jwk else none

unfoldable pub sample_json_of_jwk : Jwk → Option Str
sample_json_of_jwk jwk = chosen raw_jwk (same_jwk jwk base_jwk)

abbrev pub std : Platform
std = record {
  sha256 = λ s. s;
  format_time = λ t. t ∷ [];
  lower_unicode = λ s. s;
  iss_of_json = λ payload. some payload;
  jwk_of_json = sample_jwk_of_json;
  json_of_jwk = sample_json_of_jwk;
  subject_of_json = λ payload. some (payload, []);
  ecdsa_verify = λ key digest r s. eqb r 1;
  ecdsa_sign = λ key digest. some (1, 1);
}

pub json_of_jwk-base_jwk : sample_json_of_jwk base_jwk ≡ some raw_jwk
unfolding sample_json_of_jwk
json_of_jwk-base_jwk = chosen-yes raw_jwk (same_jwk base_jwk base_jwk) refl

json-round_trip :
    (jwk : Jwk) (raw : Str) → sample_json_of_jwk jwk ≡ some raw → sample_jwk_of_json raw ≡ some jwk
unfolding sample_json_of_jwk sample_jwk_of_json
json-round_trip jwk raw h =
    let (is_base, is_raw) = chosen_sound raw_jwk raw (same_jwk jwk base_jwk) h in
    rw (is_base, is_raw) (ground (arith, eq_refl raw_jwk))

json-ne-nil : (jwk : Jwk) → ¬ (sample_json_of_jwk jwk ≡ some [])
unfolding sample_json_of_jwk
json-ne-nil jwk h = let (is_base, is_raw) = chosen_sound raw_jwk [] (same_jwk jwk base_jwk) h in cc

pub std-IsFaithful : IsFaithful std
std-IsFaithful = record {
  jwk_of_json-json_of_jwk = json-round_trip;
  json_of_jwk-ne-nil = json-ne-nil;
}

pub jwk_to_public_key-base_jwk : jwk_to_public_key base_jwk ≡ ok base_point
jwk_to_public_key-base_jwk =
    jwk_to_public_key-public_key_to_jwk base_point [] base_jwk base_point-is_on_curve
      public_key_to_jwk-base_point
