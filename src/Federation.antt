-- ===== src/Federation.antt =====
-- pkg/federation: entity statements (Entity, from entity.go) and the resolvers of trust chains
-- (Resolver and Http, from resolver.go). Here are the payloads and what is taken of encoding/json.
pub mod Entity
pub mod Resolver
pub mod Http
pub mod EntityLaws
pub mod Certified
pub mod ChainLaws
pub mod CacheLaws
pub mod Answers
pub mod Addresses
pub mod HttpLaws
pub mod Visits
pub mod Built
pub mod Flow
pub mod Concurrent
pub mod Interleaved
pub mod GatewayLaws
use ai_agent_security.Base.{
  ℕ, Str, bytes, List, Option, ℤ, pos, negsuc, Time, ◌+◌, ◌-◌, ◌*◌, second, suc,
}
use ai_agent_security.Keys.{Jwk}
use ai_agent_security.Jwt.{RegisteredClaims}

abbrev pub entity_statement_typ : Str
entity_statement_typ = bytes "entity-statement+jwt"

pub record AgentIdpMetadata : Type 0 where
  pub issuer : Str
  pub jwks_uri : Str
  pub token_endpoint : Str

pub record FederationEntityMetadata : Type 0 where
  pub federation_fetch_endpoint : Str
  pub organization_name : Str

pub record EntityMetadata : Type 0 where
  pub agent_idp : Option AgentIdpMetadata
  pub federation_entity : Option FederationEntityMetadata

-- `issued_at` and `expires_at` are seconds since 1970; `jwks` is the field `keys` of the key set.
pub record EntityConfiguration : Type 0 where
  pub issuer : Str
  pub subject : Str
  pub issued_at : ℤ
  pub expires_at : ℤ
  pub jwks : List Jwk
  pub metadata : Option EntityMetadata
  pub authority_hints : List Str

pub record SubordinateStatement : Type 0 where
  pub issuer : Str
  pub subject : Str
  pub issued_at : ℤ
  pub expires_at : ℤ
  pub jwks : List Jwk
  pub metadata : Option EntityMetadata

-- encoding/json between the two structs and `jwt.MapClaims`, which is `M`: a map written out with the
-- fields of a struct, a map marshalled and unmarshalled into a struct, and the payload of a token
-- unmarshalled into a struct.
pub record ClaimsJson (M : Type 0) : Type 0 where
  pub of_configuration : EntityConfiguration → M
  pub of_statement : SubordinateStatement → M
  pub configuration_of : M → Option EntityConfiguration
  pub statement_of : M → Option SubordinateStatement
  pub configuration_of_json : Str → Option EntityConfiguration
  pub statement_of_json : Str → Option SubordinateStatement

-- The seconds from Go's zero time to 1970.
abbrev epoch : ℕ
epoch = 62_135_596_800

-- `time.Unix(s, 0)`
unfoldable pub unix_time : ℤ → Time
unix_time (pos s) = (epoch + s) * second
unix_time (negsuc s) = (epoch - suc s) * second
