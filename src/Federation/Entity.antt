-- ===== src/Federation/Entity.antt =====
-- pkg/federation/entity.go: building, parsing and verifying entity statements.
use ai_agent_security.Base.{
  Str, bytes, is_empty, not, ◌||◌, List, [], ◌∷◌, ◌++◌, Option, none, some, Result, ok, ◌>>=◌, ◌>>◌,
  guard, require, map_err, split_n, Time, ℤ, add_time,
}
use ai_agent_security.Keys
use ai_agent_security.Keys.{PublicKey, PrivateKey, Jwk, public_key_to_jwk}
use ai_agent_security.Keys.Base64.{decode}
use ai_agent_security.Platform.{Platform}
use ai_agent_security.Jwt.{Header, ParserOption, with_expiration_required, with_valid_methods, Jwt}
use ai_agent_security.Identity.Chain.{dot}
use ai_agent_security.Ssf.{unix}
use ai_agent_security.Tokens
use ai_agent_security.Tokens.{parse_typed}
use ai_agent_security.Federation.{
  entity_statement_typ, EntityConfiguration, SubordinateStatement, ClaimsJson,
}

pub data Error : Type 0 where
  serialize_jwk : Keys.Error → Error
  convert_jwk sign_failed : Error
  not_compact decode_payload unmarshal missing_iss_or_sub : Error
  invalid_statement : Tokens.Error → Error
  unmarshal_verified : Error

abbrev pub entity_header : Str → Header
entity_header kid = record { typ = some entity_statement_typ; kid = some kid; jwk = none }

abbrev pub entity_options : List ParserOption
entity_options = with_expiration_required ∷ with_valid_methods (bytes "ES256" ∷ []) ∷ []

-- The payload of a compact token, from its parts.
abbrev payload_of : List Str → Option Str
payload_of (header ∷ payload ∷ signature ∷ []) = some payload
payload_of _ = none

-- peekPayload
unfoldable pub peek_payload : Str → Result Error Str
peek_payload token = do
  part ← require (payload_of (split_n dot 2 token)) not_compact
  require (decode part) decode_payload

module _ (std : Platform) where
  -- The key that a statement certifies, as a JWK that toMap can convert.
  unfoldable pub jwk_for : PublicKey → Str → Result Error Jwk
  jwk_for key kid = do
    jwk ← map_err serialize_jwk (public_key_to_jwk (some key) kid)
    raw ← require (std.json_of_jwk jwk) convert_jwk
    ok jwk

  module _ {M : Type 0} (json : ClaimsJson M) (jwt : Jwt M) where
    -- The claims that BuildEntityConfiguration signs.
    unfoldable pub built_configuration : Str → Jwk → Str → List Str → ℤ → Time → EntityConfiguration
    built_configuration issuer_id jwk org_name authority_hints ttl now = record {
      issuer = issuer_id;
      subject = issuer_id;
      issued_at = unix now;
      expires_at = unix (add_time now ttl);
      jwks = jwk ∷ [];
      metadata = some (record {
        agent_idp = some (record {
          issuer = issuer_id;
          jwks_uri = issuer_id ++ bytes "/.well-known/jwks.json";
          token_endpoint = issuer_id ++ bytes "/agent/issue";
        });
        federation_entity = some (record {
          federation_fetch_endpoint = issuer_id ++ bytes "/federation/fetch";
          organization_name = org_name;
        });
      });
      authority_hints = authority_hints;
    }

    -- BuildEntityConfiguration
    unfoldable pub build_entity_configuration :
        Str → PrivateKey → Str → Str → List Str → ℤ → Time → Result Error Str
    build_entity_configuration issuer_id signing_key kid org_name authority_hints ttl now = do
      jwk ← jwk_for signing_key.public kid
      require
          (jwt.sign (entity_header kid)
            (json.of_configuration
              (built_configuration issuer_id jwk org_name authority_hints ttl now))
            signing_key)
          sign_failed

    -- The claims that BuildSubordinateStatement signs.
    unfoldable pub built_statement : Str → Str → Jwk → ℤ → Time → SubordinateStatement
    built_statement anchor_id subject_id jwk ttl now = record {
      issuer = anchor_id;
      subject = subject_id;
      issued_at = unix now;
      expires_at = unix (add_time now ttl);
      jwks = jwk ∷ [];
      metadata = none;
    }

    -- BuildSubordinateStatement
    unfoldable pub build_subordinate_statement :
        Str → Str → PublicKey → Str → PrivateKey → Str → ℤ → Time → Result Error Str
    build_subordinate_statement anchor_id subject_id subject_pub subject_kid anchor_key anchor_kid
          ttl now =
        do
          jwk ← jwk_for subject_pub subject_kid
          require
              (jwt.sign (entity_header anchor_kid)
                (json.of_statement (built_statement anchor_id subject_id jwk ttl now)) anchor_key)
              sign_failed

    -- ParseEntityConfiguration
    unfoldable pub parse_entity_configuration : Str → Result Error EntityConfiguration
    parse_entity_configuration token = do
      payload ← peek_payload token
      ec ← require (json.configuration_of_json payload) unmarshal
      guard (not (is_empty ec.issuer || is_empty ec.subject)) missing_iss_or_sub
      ok ec

    -- ParseSubordinateStatement
    unfoldable pub parse_subordinate_statement : Str → Result Error SubordinateStatement
    parse_subordinate_statement token = do
      payload ← peek_payload token
      ss ← require (json.statement_of_json payload) unmarshal
      guard (not (is_empty ss.issuer || is_empty ss.subject)) missing_iss_or_sub
      ok ss

    -- verifyEntityStatement
    unfoldable pub verify_entity_statement : Str → PublicKey → Time → Result Error M
    verify_entity_statement token key now =
        map_err invalid_statement
          (parse_typed jwt entity_options entity_statement_typ key now token)

    -- VerifyEntityConfiguration
    unfoldable pub verify_entity_configuration :
        Str → PublicKey → Time → Result Error EntityConfiguration
    verify_entity_configuration token key now = do
      claims ← verify_entity_statement token key now
      require (json.configuration_of claims) unmarshal_verified

    -- VerifySubordinateStatement
    unfoldable pub verify_subordinate_statement :
        Str → PublicKey → Time → Result Error SubordinateStatement
    verify_subordinate_statement token key now = do
      claims ← verify_entity_statement token key now
      require (json.statement_of claims) unmarshal_verified
