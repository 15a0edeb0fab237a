-- ===== src/Samples/Delegations.antt =====
-- A user's SD-JWT token, presented by an agent for an on-behalf-of token.
use native.Mathlib.Decide.{ℕ_discrete}
use ai_agent_security.Base.{
  ◌+◌, ◌*◌, bytes, ◌==◌, split, join, lookup, insert, [], ◌∷◌, none, some, ok, ◌≡◌, refl, minutes,
  second, if◌then◌else◌, arith,
}
use ai_agent_security.Keys.{PrivateKey}
use ai_agent_security.Keys.Base64.{encode, char_of, decode}
use ai_agent_security.Jwt.{Header, Jwt}
use ai_agent_security.Identity.Token.{keyfunc_for}
use ai_agent_security.Tokens.{parse_typed, typed_header}
use ai_agent_security.Obo.{sd_user_token_type, member}
use ai_agent_security.Obo.Sdjwt.{
  sd_hash_alg, Disclosure, SdUserClaims, SdUserToken, SdUserIssuer, SdUserValidator,
  SdUserValidateResult, new_disclosure, digest, digest_of, sd_claims, issue_sd, present,
  validate_sd, validate_parts, reveal_all, open_disclosure, non_empty, build_sd_jwt, select,
}
use ai_agent_security.Obo.SdjwtLaws.{IsPresented, validate_sd-IsPresented}
use ai_agent_security.Obo.Presenting.{validate_sd-present}
use ai_agent_security.Samples.OneToken.{
  Signed, sample_jwt, sample_parse, sample_jwt-IsSound, sample_jwt-IsComplete, sample_sign_self,
  same_key, before, since, is_met, all_met,
}
use ai_agent_security.Samples.OneToken
use ai_agent_security.Samples.Stubs.{std, base_point, base_key}
use ai_agent_security.Samples.Texts.{
  email_salt, name_salt, email_raw, name_raw, email_texts, name_texts, texts_json,
  texts_json-IsFaithful, json-email_texts, json-name_texts, sample_json_of_texts,
  sample_texts_of_json,
}
use ai_agent_security.Samples.Agents.{signed_at}

abbrev pub provider : SdUserIssuer
provider = record { issuer_id = bytes "idp"; key = base_key; ttl = minutes 60 }

abbrev pub email_disc : Disclosure
email_disc = record {
  name = bytes "email";
  value = bytes "a@b";
  salt = encode email_salt;
  wire = encode email_raw;
}

abbrev pub name_disc : Disclosure
name_disc = record {
  name = bytes "given_name";
  value = bytes "Ann";
  salt = encode name_salt;
  wire = encode name_raw;
}

abbrev pub user_claims : SdUserClaims
user_claims = record {
  registered = record {
    issuer = bytes "idp";
    subject = bytes "user:ann";
    audience = bytes "as" ∷ [];
    expires_at = some (signed_at + 60 * (60 * second));
    not_before = none;
    issued_at = some signed_at;
    id = [];
  };
  scope = bytes "read write";
  sd = digest std email_disc ∷ digest std name_disc ∷ [];
  sd_alg = sd_hash_alg;
}

abbrev pub user_signed : Signed SdUserClaims
user_signed = record {
  header = typed_header sd_user_token_type;
  claims = user_claims;
  signer = base_key;
  token = bytes "j";
}

pub same_user : Discrete (Header × SdUserClaims × PrivateKey)
same_user = hlevel ℕ_discrete

abbrev pub user_jwt : Jwt SdUserClaims
user_jwt = sample_jwt (λ c. c.registered) same_user user_signed

abbrev pub user_token : SdUserToken
user_token = record { jwt = bytes "j"; disclosures = email_disc ∷ name_disc ∷ [] }

pub issued_user :
    issue_sd std texts_json user_jwt provider
      (bytes "user:ann")
      (bytes "a@b")
      (bytes "Ann")
      (bytes "read write")
      (bytes "as")
      signed_at
      (email_salt, name_salt)
    ≡ ok user_token
unfolding issue_sd new_disclosure sd_claims
issued_user =
    let known_email : sample_json_of_texts (encode email_salt ∷ bytes "email" ∷ bytes "a@b" ∷ [])
        ≡ some email_raw =
      unfold email_texts in json-email_texts in
    let known_name : sample_json_of_texts (encode name_salt ∷ bytes "given_name" ∷ bytes "Ann" ∷ [])
        ≡ some name_raw =
      unfold name_texts in json-name_texts in
    rw (known_email, known_name)
      (rw (sample_sign_self (λ c. c.registered) same_user user_signed) refl)

abbrev pub idp_validator : SdUserValidator
idp_validator = record { issuer_id = bytes "idp"; pub_key = base_point }

abbrev pub shown : SdUserValidateResult
shown = record {
  claims = user_claims;
  subject = bytes "user:ann";
  scope = bytes "read write";
  revealed_claims = (bytes "email", bytes "a@b") ∷ [];
}

pub validate-presented :
    validate_sd std texts_json user_jwt idp_validator
      (present user_token (bytes "email" ∷ []))
      (bytes "as")
      (signed_at + 5)
    ≡ ok shown
unfolding validate_sd validate_parts reveal_all open_disclosure non_empty digest digest_of member
    present build_sd_jwt select split join insert parse_typed sample_parse keyfunc_for same_key
    OneToken.member before since is_met all_met sample_texts_of_json email_texts ◌==◌ encode char_of
    decode
validate-presented = refl

validate_sd-IsPresented_example :
    IsPresented std texts_json user_jwt
      (sample_jwt-IsSound (λ c. c.registered) same_user user_signed)
      idp_validator
      (present user_token (bytes "email" ∷ []))
      (bytes "as")
      (signed_at + 5)
      shown
validate_sd-IsPresented_example =
    validate_sd-IsPresented std texts_json user_jwt
      (sample_jwt-IsSound (λ c. c.registered) same_user user_signed) idp_validator
      (present user_token (bytes "email" ∷ [])) (bytes "as") (signed_at + 5) shown
      validate-presented

validate_sd-present_example :
    (r : SdUserValidateResult) × (validate_sd std texts_json user_jwt idp_validator
        (present user_token (bytes "given_name" ∷ []))
        (bytes "as")
        (signed_at + 5)
      ≡ ok r)
    × (r.subject ≡ bytes "user:ann")
    × (r.scope ≡ bytes "read write")
    × (lookup (bytes "email") r.revealed_claims
        ≡ (if member (bytes "email") (bytes "given_name" ∷ []) then some (bytes "a@b") else none))
    × (lookup (bytes "given_name") r.revealed_claims ≡ (
        if member (bytes "given_name") (bytes "given_name" ∷ []) then some (bytes "Ann") else none))
validate_sd-present_example =
    validate_sd-present std texts_json user_jwt texts_json-IsFaithful provider (bytes "user:ann")
      (bytes "a@b") (bytes "Ann") (bytes "read write") (bytes "as") signed_at (signed_at + 5)
      (email_salt, name_salt) user_token (bytes "given_name" ∷ [])
      (sample_jwt-IsComplete (λ c. c.registered) same_user user_signed) issued_user (omega arith)
      (omega arith) refl refl (omega arith) (omega arith) (omega arith)
