-- ===== src/Federation/Resolver.antt =====
-- pkg/federation/resolver.go: InMemoryResolver, its registrations and its cache.
use ai_agent_security.Base.{
  Str, ◌==◌, List, [], ◌∷◌, Option, none, some, Result, ok, err, ◌>>=◌, require, map_err, Map,
  lookup, insert, delete, Time, ltb, if◌then◌else◌,
}
use ai_agent_security.Keys
use ai_agent_security.Keys.{PublicKey, Jwk, jwk_to_public_key}
use ai_agent_security.Platform.{Platform}
use ai_agent_security.Jwt.{Jwt}
use ai_agent_security.Gateway
use ai_agent_security.Federation.{SubordinateStatement, ClaimsJson, unix_time}
use ai_agent_security.Federation.Entity
use ai_agent_security.Federation.Entity.{
  parse_entity_configuration, verify_entity_configuration, verify_subordinate_statement,
}

pub record ResolvedEntity : Type 0 where
  pub jwks : List Jwk
  pub expires_at : Time

pub data Error : Type 0 where
  no_configuration no_statement : Str → Error
  bad_configuration : Entity.Error → Error
  no_authority empty_jwks : Str → Error
  bad_leaf_key : Keys.Error → Error
  not_self_signed : Entity.Error → Error
  -- HTTPResolver
  fetch_failed no_anchor : Str → Error

pub record InMemoryResolver : Type 0 where
  pub entity_configs : Map Str
  pub sub_statements : Map Str
  pub trust_anchors : Map PublicKey
  pub cache : Map ResolvedEntity

-- NewInMemoryResolver
unfoldable pub new_in_memory_resolver : Map PublicKey → InMemoryResolver
new_in_memory_resolver trust_anchors = record {
  entity_configs = [];
  sub_statements = [];
  trust_anchors = trust_anchors;
  cache = [];
}

-- RegisterEntityConfig
unfoldable pub register_entity_config : Str → Str → InMemoryResolver → InMemoryResolver
register_entity_config id ec_jwt r = record r {
  entity_configs = insert id ec_jwt r.entity_configs;
  cache = delete id r.cache;
}

-- RegisterSubordinateStatement
unfoldable pub register_subordinate_statement : Str → Str → InMemoryResolver → InMemoryResolver
register_subordinate_statement id ss_jwt r = record r {
  sub_statements = insert id ss_jwt r.sub_statements;
  cache = delete id r.cache;
}

-- The earlier of the two expiries.
abbrev pub earlier : Time → Time → Time
earlier exp ec_exp = if ltb ec_exp exp then ec_exp else exp

-- `&jwks.Keys[0]`
abbrev pub first_key : Str → List Jwk → Result Error Jwk
first_key id [] = err (empty_jwks id)
first_key id (k ∷ ks) = ok k

-- A cached entity, if it is there and has not expired.
unfoldable pub live : Time → Option ResolvedEntity → Option ResolvedEntity
live now none = none
live now (some e) = if ltb now e.expires_at then some e else none

module _ (std : Platform) {M : Type 0} (json : ClaimsJson M) (jwt : Jwt M) where
  -- The statement about `id`, as one anchor's key verifies it.
  unfoldable pub statement_under : Str → Str → Time → Option PublicKey → Option SubordinateStatement
  statement_under id ss_jwt now none = none
  statement_under id ss_jwt now (some key) =
      elim (verify_subordinate_statement std json jwt ss_jwt key now) [
        | err e ↦ none
        | ok ss ↦ if ss.subject == id then some ss else none
      ]

  -- The loop of Resolve over the authority hints.
  unfoldable pub first_verified :
      Map PublicKey → Str → Str → Time → List Str → Option SubordinateStatement
  first_verified anchors id ss_jwt now [] = none
  first_verified anchors id ss_jwt now (hint ∷ hints) =
      elim (statement_under id ss_jwt now (lookup hint anchors)) [
        | some ss ↦ some ss
        | none ↦ first_verified anchors id ss_jwt now hints
      ]

  -- Resolve from the two documents: the chain from a trust anchor to the keys of the entity.
  unfoldable pub check_chain : Map PublicKey → Str → Str → Str → Time → Result Error ResolvedEntity
  check_chain anchors id ec_jwt ss_jwt now = do
    leaf ← map_err bad_configuration (parse_entity_configuration std json jwt ec_jwt)
    ss ← require (first_verified anchors id ss_jwt now leaf.authority_hints) (no_authority id)
    jwk ← first_key id ss.jwks
    leaf_key ← map_err bad_leaf_key (jwk_to_public_key jwk)
    ec ← map_err not_self_signed (verify_entity_configuration std json jwt ec_jwt leaf_key now)
    ok (record {
      jwks = ss.jwks;
      expires_at = earlier (unix_time ss.expires_at) (unix_time leaf.expires_at);
    })

  -- Resolve where the cache has nothing: from the documents that are registered.
  unfoldable pub resolve_chain : InMemoryResolver → Time → Str → Result Error ResolvedEntity
  resolve_chain r now id = do
    ec_jwt ← require (lookup id r.entity_configs) (no_configuration id)
    ss_jwt ← require (lookup id r.sub_statements) (no_statement id)
    check_chain r.trust_anchors id ec_jwt ss_jwt now

  -- `r.cache.Store`, where the chain was verified
  unfoldable pub stored :
      Str
      → InMemoryResolver
      → Result Error ResolvedEntity
      → InMemoryResolver × Result Error ResolvedEntity
  stored id r (err e) = (record r { cache = delete id r.cache }, err e)
  stored id r (ok e) = (record r { cache = insert id e (delete id r.cache) }, ok e)

  -- InMemoryResolver.Resolve
  unfoldable pub resolve :
      Time → Str → InMemoryResolver → InMemoryResolver × Result Error ResolvedEntity
  resolve now id r = elim (live now (lookup id r.cache)) [
    | some e ↦ (r, ok e)
    | none ↦ stored id r (resolve_chain r now id)
  ]

  -- The keys that the gateway's interface gives.
  abbrev pub keys_of : Result Error ResolvedEntity → Option (List Jwk)
  keys_of (ok e) = some e.jwks
  keys_of (err e) = none

  -- The resolver behind the interface federation.Resolver.
  unfoldable pub in_memory_resolver : Gateway.Resolver InMemoryResolver
  in_memory_resolver = record {
    resolve = λ now id r. let (r', e) = resolve now id r in (r', keys_of e);
  }
