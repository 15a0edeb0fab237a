-- ===== src/Federation/Http.antt =====
-- pkg/federation/resolver.go: HTTPResolver. The web is a parameter: the body that an address answers
-- with, `none` where fetchJWT fails.
use ai_agent_security.Base.{
  ℕ, zero, suc, Str, bytes, ◌==◌, Bool, false, List, [], ◌∷◌, ◌++◌, length, Option, none, some,
  Result, ok, err, ◌>>=◌, require, map_err, Map, lookup, insert, delete, Time, eqb, if◌then◌else◌,
}
use ai_agent_security.Keys.{PublicKey, jwk_to_public_key}
use ai_agent_security.Platform.{Platform}
use ai_agent_security.Jwt.{Jwt}
use ai_agent_security.Federation.{SubordinateStatement, ClaimsJson, unix_time}
use ai_agent_security.Federation.Entity.{
  parse_entity_configuration, verify_entity_configuration, verify_subordinate_statement,
}
use ai_agent_security.Federation.Resolver.{
  ResolvedEntity, Error, fetch_failed, bad_configuration, no_anchor, earlier, live,
}

pub record HttpResolver : Type 0 where
  pub trust_anchors : Map PublicKey
  pub cache : Map ResolvedEntity

-- The last byte of a text that is not empty, and the text without it.
unfoldable pub last : Str → Option ℕ
last [] = none
last (b ∷ []) = some b
last (b ∷ c ∷ s) = last (c ∷ s)

unfoldable pub without_last : Str → Str
without_last [] = []
without_last (b ∷ []) = []
without_last (b ∷ c ∷ s) = b ∷ without_last (c ∷ s)

unfoldable pub ends_in_slash : Str → Bool
unfolding last
ends_in_slash s = elim (last s) [ none ↦ false | some b ↦ eqb b 47 ]

-- The loop of stripTrailingSlash, with fuel; `none` means that the fuel ran out.
unfoldable pub strip_loop : ℕ → Str → Option Str
strip_loop zero s = none
strip_loop (suc fuel) s =
    let rest = strip_loop fuel (without_last s) in if ends_in_slash s then rest else some s

abbrev or_empty : Option Str → Str
or_empty none = []
or_empty (some s) = s

-- stripTrailingSlash, with fuel for one round more than the text has bytes
unfoldable pub strip_trailing_slash : Str → Str
strip_trailing_slash s = or_empty (strip_loop (suc (length s)) s)

-- The addresses of an entity's configuration, and of an anchor's statement about it; `escape` is
-- `url.QueryEscape`.
unfoldable pub configuration_url : Str → Str
configuration_url id = strip_trailing_slash id ++ bytes "/.well-known/openid-federation"

unfoldable pub statement_url : (Str → Str) → Str → Str → Str
statement_url escape hint id =
    strip_trailing_slash hint ++ (bytes "/federation/fetch?sub=" ++ escape id)

module _ (std : Platform) {M : Type 0} (json : ClaimsJson M) (jwt : Jwt M) (escape : Str → Str)
    (fetch : Str → Option Str) where
  -- The rest of a round of the loop, once the statement is verified and is about the entity.
  unfoldable pub entity_of : Str → Time → SubordinateStatement → Option ResolvedEntity
  entity_of ec_jwt now ss = elim ss.jwks [
    | [] ↦ none
    | jwk ∷ jwks ↦ elim (jwk_to_public_key jwk) [
      | err e ↦ none
      | ok leaf_key ↦ elim (verify_entity_configuration std json jwt ec_jwt leaf_key now) [
        | err e ↦ none
        | ok ec ↦ some (record {
          jwks = ss.jwks;
          expires_at = earlier (unix_time ss.expires_at) (unix_time ec.expires_at);
        })
      ]
    ]
  ]

  unfoldable pub round_under : Str → Str → Time → Str → Option PublicKey → Option ResolvedEntity
  round_under id ec_jwt now hint none = none
  round_under id ec_jwt now hint (some anchor) = elim (fetch (statement_url escape hint id)) [
    | none ↦ none
    | some ss_jwt ↦ elim (verify_subordinate_statement std json jwt ss_jwt anchor now) [
      | err e ↦ none
      | ok ss ↦ if ss.subject == id then entity_of ec_jwt now ss else none
    ]
  ]

  -- The loop over the authority hints.
  unfoldable pub first_entity : Map PublicKey → Str → Str → Time → List Str → Option ResolvedEntity
  first_entity anchors id ec_jwt now [] = none
  first_entity anchors id ec_jwt now (hint ∷ hints) =
      elim (round_under id ec_jwt now hint (lookup hint anchors)) [
        | some e ↦ some e
        | none ↦ first_entity anchors id ec_jwt now hints
      ]

  -- Resolve where the cache has nothing.
  unfoldable pub fetch_chain : Map PublicKey → Time → Str → Result Error ResolvedEntity
  fetch_chain anchors now id = do
    ec_jwt ← require (fetch (configuration_url id)) (fetch_failed id)
    leaf ← map_err bad_configuration (parse_entity_configuration std json jwt ec_jwt)
    require (first_entity anchors id ec_jwt now leaf.authority_hints) (no_anchor id)

  -- `r.cache.Store`, where the chain was verified
  unfoldable pub stored_http :
      Str → HttpResolver → Result Error ResolvedEntity → HttpResolver × Result Error ResolvedEntity
  stored_http id r (err e) = (record r { cache = delete id r.cache }, err e)
  stored_http id r (ok e) = (record r { cache = insert id e (delete id r.cache) }, ok e)

  -- HTTPResolver.Resolve
  unfoldable pub resolve_http :
      Time → Str → HttpResolver → HttpResolver × Result Error ResolvedEntity
  resolve_http now id r = elim (live now (lookup id r.cache)) [
    | some e ↦ (r, ok e)
    | none ↦ stored_http id r (fetch_chain r.trust_anchors now id)
  ]
