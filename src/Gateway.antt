-- ===== src/Gateway.antt =====
-- internal/gateway: the pieces that the middleware of the agent gateway calls. The children hold the
-- middleware and the theorems.
pub mod Pieces
pub mod Middleware
pub mod Admission
use ai_agent_security.Base.{
  ℕ, ◌^◌, Str, ◌==◌, split_n, is_empty, not, take, Bool, true, false, List, [], ◌∷◌, Option, none,
  some, Result, ok, err, ◌>>=◌, ◌>>◌, guard, require, map_err, Map, Time, eqb, if◌then◌else◌,
}
use ai_agent_security.Keys.{PublicKey, Jwk, jwk_to_public_key}
use ai_agent_security.Keys.Base64.{decode}
use ai_agent_security.Platform.{Platform}
use ai_agent_security.Jwt.{Jwt}
use ai_agent_security.Identity.Errors
use ai_agent_security.Identity.Chain.{dot}
use ai_agent_security.Identity.Token.{
  AgentClaims, ValidatedAgent, AgentValidator, new_agent_validator, validate,
}
use ai_agent_security.X402.{colon}

pub data Error : Type 0 where
  not_compact bad_encoding bad_json missing_iss : Error
  invalid_token : Errors.Error → Error
  no_validators resolve_failed no_key : Error
  no_certificate san_mismatch : Error

-- federation.Resolver, on the state of its cache; the keys of the entity that it resolves
pub record Resolver (R : Type 0) : Type 0 where
  pub resolve : Time → Str → R → R × Option (List Jwk)

-- ResolvedEntity.PublicKey
unfoldable pub entity_key : List Jwk → Option PublicKey
entity_key [] = none
entity_key (j ∷ js) =
    let rest = entity_key js in elim (jwk_to_public_key j) [ ok key ↦ some key | err e ↦ rest ]

-- The payload of a compact token.
abbrev payload_of : List Str → Option Str
payload_of (header ∷ payload ∷ signature ∷ []) = some payload
payload_of _ = none

-- peekIssuer
unfoldable pub peek_issuer : Platform → Str → Result Error Str
peek_issuer std token = do
  part ← require (payload_of (split_n dot 2 token)) not_compact
  payload ← require (decode part) bad_encoding
  issuer ← require (std.iss_of_json payload) bad_json
  guard (not (is_empty issuer)) missing_iss
  ok issuer

-- What the loop of validateWithAny returns when it ends.
abbrev none_valid : Option Errors.Error → Result Error ValidatedAgent
none_valid none = err no_validators
none_valid (some e) = err (invalid_token e)

module _ (std : Platform) (jwt : Jwt AgentClaims) where
  validate_from :
      Option Errors.Error → Map AgentValidator → Time → Str → Result Error ValidatedAgent
  validate_from last [] now token = none_valid last
  validate_from last ((issuer, v) ∷ vs) now token = elim (validate std jwt v now token) [
    | ok va ↦ ok va
    | err e ↦ validate_from (some e) vs now token
  ]

  -- validateWithAny, in the order of the map
  unfoldable pub validate_with_any : Map AgentValidator → Time → Str → Result Error ValidatedAgent
  unfolding validate_from
  validate_with_any vs now token = validate_from none vs now token

  abbrev with_key : Str → Time → Str → Option PublicKey → Result Error ValidatedAgent
  with_key issuer now token none = err no_key
  with_key issuer now token (some key) =
      map_err invalid_token (validate std jwt (new_agent_validator issuer key []) now token)

  abbrev with_entity :
      {R : Type 0} → Str → Time → Str → R × Option (List Jwk) → R × Result Error ValidatedAgent
  with_entity issuer now token (r, none) = (r, err resolve_failed)
  with_entity issuer now token (r, some jwks) = (r, with_key issuer now token (entity_key jwks))

  -- The federation fallback of resolveAndValidate.
  unfoldable pub federated :
      {R : Type 0} → Resolver R → Time → Str → R → R × Result Error ValidatedAgent
  federated resolver now token r = elim (peek_issuer std token) [
    | err e ↦ (r, err e)
    | ok issuer ↦ with_entity issuer now token (resolver.resolve now issuer r)
  ]

  abbrev or_federated :
      {R : Type 0}
      → Option (Resolver R)
      → Time
      → Str
      → R
      → Result Error ValidatedAgent
      → R × Result Error ValidatedAgent
  or_federated resolver now token r (ok va) = (r, ok va)
  or_federated none now token r (err e) = (r, err e)
  or_federated (some resolver) now token r (err e) = federated resolver now token r

  -- resolveAndValidate
  unfoldable pub resolve_and_validate :
      {R : Type 0}
      → Map AgentValidator
      → Option (Resolver R)
      → Time
      → Str
      → R
      → R × Result Error ValidatedAgent
  resolve_and_validate vs resolver now token r =
      or_federated resolver now token r (validate_with_any vs now token)

-- The URI SANs of the peer certificates of a TLS connection.
pub record Tls : Type 0 where
  pub peer_uris : List (List Str)

unfoldable pub has_uri : List Str → Str → Bool
has_uri [] want = false
has_uri (u ∷ us) want = if u == want then true else has_uri us want

-- verifyMTLSBinding
unfoldable pub verify_mtls_binding : Option Tls → Str → Result Error (Unit {0})
verify_mtls_binding none want_sub = err no_certificate
verify_mtls_binding (some tls) want_sub = elim tls.peer_uris [
  | [] ↦ err no_certificate
  | uris ∷ rest ↦ guard (has_uri uris want_sub) san_mismatch
]

-- A request's body: absent (or of length 0), one whose reading fails, or its bytes.
pub data Body : Type 0 where
  absent unreadable : Body
  readable : Str → Body

-- The JSON object of a text, or nil.
abbrev params_or_nil : Option (Map Str) → Map Str
params_or_nil none = []
params_or_nil (some params) = params

-- extractToolParams, with encoding/json as `parse_params`: the parameters, and the body that is left
-- for the upstream.
unfoldable pub extract_tool_params : (Str → Option (Map Str)) → Body → Map Str × Body
extract_tool_params parse_params absent = ([], absent)
extract_tool_params parse_params unreadable = ([], unreadable)
extract_tool_params parse_params (readable s) =
    let body = take (2 ^ 20) s in
    if is_empty body then ([], readable s) else (params_or_nil (parse_params body), readable body)

after_colon : Str → Option Str
after_colon [] = none
after_colon (c ∷ s) = let rest = after_colon s in if eqb c colon then some s else rest

-- toolNameToPath
unfoldable pub tool_name_to_path : Str → Str
unfolding after_colon
tool_name_to_path name = elim (after_colon name) [ none ↦ name | some path ↦ path ]
