-- ===== src/Obo/Sdjwt.antt =====
-- pkg/obo/sdjwt.go: disclosures, SD-JWT user tokens, their presentation and their validation.
use ai_agent_security.Base.{
  Str, bytes, is_empty, not, split, join, List, [], ◌∷◌, ◌++◌, map, Option, none, some, Result, ok,
  err, ◌>>=◌, ◌>>◌, guard, require, map_err, Map, insert, Time, ℤ, if◌then◌else◌,
}
use ai_agent_security.Keys.{PublicKey, PrivateKey}
use ai_agent_security.Keys.Base64.{encode, decode}
use ai_agent_security.Platform.{Platform, TextsJson}
use ai_agent_security.Jwt.{RegisteredClaims, Jwt}
use ai_agent_security.Identity.Chain.{tilde}
use ai_agent_security.Tokens.{registered_for, typed_header, audience_options, parse_typed}
use ai_agent_security.Obo.{
  sd_user_token_type, default_user_ttl, Error, sub_required, audience_required, sign_failed,
  invalid_token, presentation_required, missing_separator, marshal_disclosure, unknown_digest,
  decode_disclosure, bad_disclosure, ttl_or, member,
}

abbrev pub sd_hash_alg : Str
sd_hash_alg = bytes "sha-256"

pub record Disclosure : Type 0 where
  pub name : Str
  pub value : Str
  pub salt : Str
  pub wire : Str

pub record SdUserClaims : Type 0 where
  pub registered : RegisteredClaims
  pub scope : Str
  pub sd : List Str
  pub sd_alg : Str

pub record SdUserToken : Type 0 where
  pub jwt : Str
  pub disclosures : List Disclosure

pub record SdUserIssuer : Type 0 where
  pub issuer_id : Str
  pub key : PrivateKey
  pub ttl : ℤ

-- NewSDUserIssuer
unfoldable pub new_sd_user_issuer : Str → PrivateKey → ℤ → SdUserIssuer
new_sd_user_issuer issuer_id key ttl = record {
  issuer_id = issuer_id;
  key = key;
  ttl = ttl_or default_user_ttl ttl;
}

pub record SdUserValidator : Type 0 where
  pub issuer_id : Str
  pub pub_key : PublicKey

pub record SdUserValidateResult : Type 0 where
  pub claims : SdUserClaims
  pub subject : Str
  pub scope : Str
  pub revealed_claims : Map Str

-- newDisclosure, with the random bytes of the salt
unfoldable pub new_disclosure : TextsJson → Str → Str → Str → Result Error Disclosure
new_disclosure json salt_bytes name value = do
  arr ← require (json.json_of_texts (encode salt_bytes ∷ name ∷ value ∷ [])) marshal_disclosure
  ok (record { name = name; value = value; salt = encode salt_bytes; wire = encode arr })

-- The digest of a disclosure's wire encoding.
unfoldable pub digest_of : Platform → Str → Str
digest_of std wire = encode (std.sha256 wire)

-- Disclosure.Digest
unfoldable pub digest : Platform → Disclosure → Str
unfolding digest_of
digest std d = digest_of std d.wire

-- buildSDJWT
unfoldable pub build_sd_jwt : Str → List Disclosure → Str
build_sd_jwt jwt_str disclosures =
    join tilde (jwt_str ∷ (map (λ (d : Disclosure). d.wire) disclosures ++ [] ∷ []))

-- SDUserToken.Wire
unfoldable pub wire : SdUserToken → Str
unfolding build_sd_jwt
wire t = build_sd_jwt t.jwt t.disclosures

-- The loop of Present over the disclosures.
unfoldable pub select : List Str → List Disclosure → List Disclosure
select reveal [] = []
select reveal (d ∷ ds) =
    let rest = select reveal ds in if member d.name reveal then d ∷ rest else rest

-- SDUserToken.Present
unfoldable pub present : SdUserToken → List Str → Str
unfolding build_sd_jwt select
present t reveal = build_sd_jwt t.jwt (select reveal t.disclosures)

-- The loop of Validate over the parts: those that are not empty.
unfoldable pub non_empty : List Str → List Str
non_empty [] = []
non_empty (p ∷ ps) = let rest = non_empty ps in if is_empty p then rest else p ∷ rest

-- `json.Unmarshal` to an array of three texts: the name and the value
abbrev pub name_and_value : Option (List Str) → Option (Str × Str)
name_and_value (some (salt ∷ name ∷ value ∷ [])) = some (name, value)
name_and_value _ = none

module _ (std : Platform) (json : TextsJson) where
  -- One round of the loop of Validate: the name and the value that a disclosure reveals.
  unfoldable pub open_disclosure : List Str → Str → Result Error (Str × Str)
  open_disclosure sd wire = do
    guard (member (digest_of std wire) sd) unknown_digest
    raw ← require (decode wire) decode_disclosure
    require (name_and_value (json.texts_of_json raw)) bad_disclosure

  -- The loop of Validate over the presented disclosures.
  unfoldable pub reveal_all : List Str → List Str → Map Str → Result Error (Map Str)
  reveal_all sd [] revealed = ok revealed
  reveal_all sd (w ∷ ws) revealed =
      open_disclosure sd w >>= λ (nv : Str × Str). reveal_all sd ws (insert nv.0 nv.1 revealed)

  module _ (jwt : Jwt SdUserClaims) where
    -- The claims that SDUserIssuer.Issue signs; no id is set.
    unfoldable pub sd_claims :
        SdUserIssuer → Str → Str → Str → Disclosure → Disclosure → Time → SdUserClaims
    sd_claims u sub scope audience email_disc name_disc now = record {
      registered = registered_for jwt u.issuer_id sub (audience ∷ []) now u.ttl [];
      scope = scope;
      sd = digest std email_disc ∷ digest std name_disc ∷ [];
      sd_alg = sd_hash_alg;
    }

    -- SDUserIssuer.Issue, with the random bytes of the two salts
    unfoldable pub issue_sd :
        SdUserIssuer → Str → Str → Str → Str → Str → Time → Str × Str → Result Error SdUserToken
    issue_sd u sub email given_name scope audience now salts = do
      guard (not (is_empty sub)) sub_required
      guard (not (is_empty audience)) audience_required
      email_disc ← new_disclosure json salts.0 (bytes "email") email
      name_disc ← new_disclosure json salts.1 (bytes "given_name") given_name
      signed ←
          require
            (jwt.sign (typed_header sd_user_token_type)
              (sd_claims u sub scope audience email_disc name_disc now) u.key)
            sign_failed
      ok (record { jwt = signed; disclosures = email_disc ∷ name_disc ∷ [] })

    -- Validate, from the parts of the presentation
    unfoldable pub validate_parts :
        SdUserValidator → List Str → Str → Time → Result Error SdUserValidateResult
    validate_parts v (jwt_str ∷ part ∷ parts) audience now = do
      claims ← map_err invalid_token (
          parse_typed jwt (audience_options v.issuer_id audience) sd_user_token_type v.pub_key now
            jwt_str)
      revealed ← reveal_all claims.sd (non_empty (part ∷ parts)) []
      ok (record {
        claims = claims;
        subject = claims.registered.subject;
        scope = claims.scope;
        revealed_claims = revealed;
      })
    validate_parts v _ audience now = err missing_separator

    -- SDUserValidator.Validate
    unfoldable pub validate_sd :
        SdUserValidator → Str → Str → Time → Result Error SdUserValidateResult
    validate_sd v presentation audience now = do
      guard (not (is_empty presentation)) presentation_required
      validate_parts v (split tilde presentation) audience now
