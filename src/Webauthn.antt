-- ===== src/Webauthn.antt =====
-- pkg/webauthn: a simulated passkey; assertions are ECDSA signatures over a challenge.
use ai_agent_security.Base.{
  ℕ, Str, is_empty, not, ◌++◌, Option, some, Result, ok, ◌>>=◌, ◌>>◌, guard, require, length, eqb,
  take, drop,
}
use ai_agent_security.Keys.{PublicKey, PrivateKey}
use ai_agent_security.Keys.Base64.{encode, decode}
use ai_agent_security.Keys.BigEndian.{to_bytes, of_bytes, pad}
use ai_agent_security.Platform.{Platform}

-- Credential
pub record Credential : Type 0 where
  pub id : Str
  pub public_key : Option PublicKey
  pub user_id : Str
  pub private_key : PrivateKey
  pub prf_secret : Str

pub data Error : Type 0 where
  user_id_required key_generation : Error
  challenge_required sign_failed public_key_required : Error
  bad_encoding bad_length not_verified : Error

-- Register, with the key pair, the 16 bytes of the id and the 32 bytes of the secret drawn at random
unfoldable pub register : Str → Option PrivateKey → Str → Str → Result Error Credential
register user_id drawn raw_id prf_secret = do
  guard (not (is_empty user_id)) user_id_required
  priv ← require drawn key_generation
  ok (record {
    id = encode raw_id;
    public_key = some priv.public;
    user_id = user_id;
    private_key = priv;
    prf_secret = prf_secret;
  })

-- rawSig, for numbers of at most 32 bytes each
unfoldable pub raw_sig : ℕ → ℕ → Str
raw_sig r s = pad 32 (to_bytes r) ++ pad 32 (to_bytes s)

-- Credential.MakeAssertion
unfoldable pub make_assertion : Platform → Credential → Str → Result Error Str
make_assertion std c challenge = do
  guard (not (is_empty challenge)) challenge_required
  sig ← require (std.ecdsa_sign c.private_key (std.sha256 challenge)) sign_failed
  ok (encode (raw_sig sig.0 sig.1))

-- VerifyAssertion
unfoldable pub verify_assertion : Platform → Option PublicKey → Str → Str → Result Error (Unit {0})
verify_assertion std pub_key challenge assertion = do
  key ← require pub_key public_key_required
  guard (not (is_empty challenge)) challenge_required
  raw ← require (decode assertion) bad_encoding
  guard (eqb (length raw) 64) bad_length
  guard
      (std.ecdsa_verify key (std.sha256 challenge) (of_bytes (take 32 raw))
        (of_bytes (drop 32 raw)))
      not_verified
