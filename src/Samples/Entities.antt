-- ===== src/Samples/Entities.antt =====
-- An entity of a federation and its trust anchor, with their two statements.
use native.Mathlib.Decide.{ℕ_discrete}
use ai_agent_security.Base.{
  ◌+◌, ◌*◌, Str, bytes, ◌==◌, ◌++◌, split_n, ◌≡◌, refl, sym, ◌∙◌, inl, inr, false, [], ◌∷◌, Option,
  none, some, ok, err, ℤ, pos, Time, minutes, second, if◌then◌else◌, arith,
}
use ai_agent_security.Keys.{PrivateKey}
use ai_agent_security.Keys.Base64.{encode, decode, char_of}
use ai_agent_security.Jwt.{Header, RegisteredClaims, Jwt, IsSound, IsComplete, IsTimely}
use ai_agent_security.Ssf.{unix}
use ai_agent_security.Federation.{EntityConfiguration, SubordinateStatement, ClaimsJson, unix_time}
use ai_agent_security.Federation.Entity.{
  entity_header, jwk_for, built_configuration, build_entity_configuration, built_statement,
  build_subordinate_statement, parse_entity_configuration, peek_payload, not_compact,
}
use ai_agent_security.Federation.EntityLaws.{HasExpiries}
use ai_agent_security.Federation.Built.{ReadsStatement, ReadsConfiguration}
use ai_agent_security.Samples.OneToken.{Signed}
use ai_agent_security.Samples.TwoTokens.{
  two_jwt, two_jwt-IsSound, two_jwt-IsComplete, two_jwt-IsTimely, two_jwt-decode, sign_first,
  sign_second,
}
use ai_agent_security.Samples.Stubs.{
  std, base_point, base_key, base_jwk, json_of_jwk-base_jwk, public_key_to_jwk-base_point,
}

-- The claims map of a struct is the struct.
pub data Statement : Type 0 where
  configuration : EntityConfiguration → Statement
  subordinate : SubordinateStatement → Statement

abbrev registered_until : ℤ → RegisteredClaims
registered_until exp = record {
  issuer = [];
  subject = [];
  audience = [];
  expires_at = some (unix_time exp);
  not_before = none;
  issued_at = none;
  id = [];
}

abbrev pub registered : Statement → RegisteredClaims
registered (configuration ec) = registered_until ec.expires_at
registered (subordinate ss) = registered_until ss.expires_at

abbrev pub made_at : Time
made_at = (62_135_596_800 + 100) * second

abbrev pub leaf_id : Str
leaf_id = bytes "https://leaf"

abbrev pub anchor_id : Str
anchor_id = bytes "https://anchor"

abbrev pub leaf : EntityConfiguration
leaf = record {
  issuer = leaf_id;
  subject = leaf_id;
  issued_at = pos 100;
  expires_at = pos 700;
  jwks = base_jwk ∷ [];
  metadata = some (record {
    agent_idp = some (record {
      issuer = leaf_id;
      jwks_uri = leaf_id ++ bytes "/.well-known/jwks.json";
      token_endpoint = leaf_id ++ bytes "/agent/issue";
    });
    federation_entity = some (record {
      federation_fetch_endpoint = leaf_id ++ bytes "/federation/fetch";
      organization_name = bytes "Leaf";
    });
  });
  authority_hints = anchor_id ∷ [];
}

abbrev pub statement : SubordinateStatement
statement = record {
  issuer = anchor_id;
  subject = leaf_id;
  issued_at = pos 100;
  expires_at = pos 400;
  jwks = base_jwk ∷ [];
  metadata = none;
}

abbrev pub leaf_token : Str
leaf_token = bytes "h." ++ encode (bytes "ec") ++ bytes ".s"

abbrev pub statement_token : Str
statement_token = bytes "ss"

configuration_or_none : Statement → Option EntityConfiguration
configuration_or_none (configuration ec) = some ec
configuration_or_none (subordinate ss) = none

statement_or_none : Statement → Option SubordinateStatement
statement_or_none (configuration ec) = none
statement_or_none (subordinate ss) = some ss

unfoldable pub known_payload : Str → Option EntityConfiguration
known_payload payload = if payload == bytes "ec" then some leaf else none

unfoldable pub claims_json : ClaimsJson Statement
unfolding configuration_or_none statement_or_none
claims_json = record {
  of_configuration = configuration;
  of_statement = subordinate;
  configuration_of = configuration_or_none;
  statement_of = statement_or_none;
  configuration_of_json = known_payload;
  statement_of_json = λ payload. none;
}

abbrev pub leaf_signed : Signed Statement
leaf_signed = record {
  header = entity_header [];
  claims = configuration leaf;
  signer = base_key;
  token = leaf_token;
}

abbrev pub statement_signed : Signed Statement
statement_signed = record {
  header = entity_header [];
  claims = subordinate statement;
  signer = base_key;
  token = statement_token;
}

pub same_statement : Discrete (Header × Statement × PrivateKey)
same_statement = hlevel ℕ_discrete

abbrev pub entity_jwt : Jwt Statement
entity_jwt = two_jwt registered same_statement leaf_signed statement_signed

pub distinct : (leaf_token == statement_token) ≡ false
unfolding ◌==◌ encode char_of
distinct = refl

abbrev pub entity_sound : IsSound registered entity_jwt
entity_sound = two_jwt-IsSound registered same_statement leaf_signed statement_signed

abbrev pub entity_timely : IsTimely registered entity_jwt
entity_timely = two_jwt-IsTimely registered same_statement leaf_signed statement_signed

abbrev pub entity_complete : IsComplete registered entity_jwt
entity_complete = two_jwt-IsComplete registered same_statement leaf_signed statement_signed distinct

statement_token-err :
    parse_entity_configuration std claims_json entity_jwt statement_token ≡ err not_compact
unfolding parse_entity_configuration peek_payload split_n
statement_token-err = refl

parsed_leaf :
    (token : Str) (ec : EntityConfiguration)
    → parse_entity_configuration std claims_json entity_jwt token ≡ ok ec
    → ec ≡ leaf
unfolding parse_entity_configuration claims_json known_payload
parsed_leaf token ec h = ground arith

statement_expiry :
    (m : Statement) (ss : SubordinateStatement) (e : Time)
    → claims_json.statement_of m ≡ some ss
    → (registered m).expires_at ≡ some e
    → unix_time ss.expires_at ≡ e
unfolding claims_json statement_or_none
statement_expiry (configuration ec) ss e said expires = cc
statement_expiry (subordinate s) ss e said expires = cc

configuration_expiry :
    (m : Statement) (ec : EntityConfiguration) (e : Time)
    → claims_json.configuration_of m ≡ some ec
    → (registered m).expires_at ≡ some e
    → unix_time ec.expires_at ≡ e
unfolding claims_json configuration_or_none
configuration_expiry (configuration c) ec e said expires = cc
configuration_expiry (subordinate s) ec e said expires = cc

payload_expiry :
    (token : Str) (h : Header) (m : Statement) (ec : EntityConfiguration) (e : Time)
    → entity_sound.decode token ≡ some (h, m)
    → parse_entity_configuration std claims_json entity_jwt token ≡ ok ec
    → (registered m).expires_at ≡ some e
    → unix_time ec.expires_at ≡ e
payload_expiry token h m ec e decoded parsed expires =
    let ec_is = parsed_leaf token ec parsed in
    elim (two_jwt-decode registered same_statement leaf_signed statement_signed token h m decoded) [
      | inl (token_is, m_is) ↦
          let given : some (unix_time leaf.expires_at) ≡ some e = rw m_is at expires in
          rw ec_is (cc given)
      | inr (token_is, m_is) ↦
          let refused : parse_entity_configuration std claims_json entity_jwt statement_token
              ≡ ok ec =
            rw token_is at parsed in
          cc (sym statement_token-err ∙ refused)
    ]

pub entity_expiries : HasExpiries std registered claims_json entity_jwt entity_sound
entity_expiries = record {
  statement_expiry = statement_expiry;
  configuration_expiry = configuration_expiry;
  payload_expiry = payload_expiry;
}

pub leaf_jwk : jwk_for std base_point [] ≡ ok base_jwk
unfolding jwk_for
leaf_jwk = rw (public_key_to_jwk-base_point, json_of_jwk-base_jwk) refl

pub built_leaf :
    built_configuration std claims_json entity_jwt leaf_id base_jwk
      (bytes "Leaf")
      (anchor_id ∷ [])
      (minutes 10)
      made_at
    ≡ leaf
unfolding built_configuration unix
built_leaf = refl

pub built_ss :
    built_statement std claims_json entity_jwt anchor_id leaf_id base_jwk (minutes 5) made_at
    ≡ statement
unfolding built_statement unix
built_ss = refl

pub configured :
    build_entity_configuration std claims_json entity_jwt leaf_id base_key []
      (bytes "Leaf")
      (anchor_id ∷ [])
      (minutes 10)
      made_at
    ≡ ok leaf_token
unfolding build_entity_configuration claims_json
configured =
    rw (leaf_jwk, built_leaf)
      (rw (sign_first registered same_statement leaf_signed statement_signed) refl)

pub stated :
    build_subordinate_statement std claims_json entity_jwt anchor_id leaf_id base_point [] base_key
      []
      (minutes 5)
      made_at
    ≡ ok statement_token
unfolding build_subordinate_statement claims_json
stated =
    rw (leaf_jwk, built_ss)
      (rw (sign_second registered same_statement leaf_signed statement_signed (λ e. cc e)) refl)

pub leaf_reads : ReadsConfiguration std registered claims_json entity_jwt leaf leaf_token
unfolding claims_json configuration_or_none known_payload peek_payload split_n decode encode char_of
    ◌==◌
leaf_reads = record {
  back = refl;
  expires = refl;
  no_start = refl;
  payload = bytes "ec";
  peeked = refl;
  unmarshalled = refl;
}

pub statement_reads : ReadsStatement std registered claims_json entity_jwt statement
unfolding claims_json statement_or_none
statement_reads = record { back = refl; expires = refl; no_start = refl }
