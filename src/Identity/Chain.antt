-- ===== src/Identity/Chain.antt =====
-- pkg/identity/chain.go: AgentChain and its validation.
use ai_agent_security.Base.{
  ℕ, suc, Str, split, split_n, join, is_empty, not, Bool, false, List, [], ◌∷◌, ◌++◌, Option, none,
  some, Result, ok, err, ◌>>=◌, ◌>>◌, guard, require, map_err, Map, lookup, Time, ℤ, pos, negsuc,
  eqb, if◌then◌else◌,
}
use ai_agent_security.Keys.Base64.{encode, decode}
use ai_agent_security.Platform.{Platform}
use ai_agent_security.Jwt.{Jwt}
use ai_agent_security.Identity.Errors.{
  Error, empty_chain_string, empty_token_at, extend_with_empty, empty_chain, chain_at, not_compact,
  decode_payload, unmarshal_claims, missing_iss, no_validator, wrong_depth,
}
use ai_agent_security.Identity.Token.{AgentClaims, ValidatedAgent, AgentValidator, validate}

abbrev pub AgentChain : Type 0
AgentChain = List Str

-- '~' and '.'
abbrev pub tilde : ℕ
tilde = 126

abbrev pub dot : ℕ
dot = 46

-- The first empty part, by its position.
unfoldable pub check_parts : ℕ → List Str → Result Error (Unit {0})
check_parts i [] = ok tt
check_parts i (p ∷ ps) = if is_empty p then err (empty_token_at i) else check_parts (suc i) ps

-- ParseChain
unfoldable pub parse_chain : Str → Result Error AgentChain
parse_chain s = do
  guard (not (is_empty s)) empty_chain_string
  check_parts 0 (split tilde s)
  ok (split tilde s)

-- AgentChain.String
unfoldable pub to_string : AgentChain → Str
to_string c = join tilde c

-- AgentChain.Extend
unfoldable pub extend : AgentChain → Str → Result Error AgentChain
extend c token = do guard (not (is_empty token)) extend_with_empty; ok (c ++ token ∷ [])

-- AgentChain.Hash
unfoldable pub hash : Platform → AgentChain → Str
hash std c = encode (std.sha256 (to_string c))

-- `va.Claims.ChainDepth == i`
unfoldable pub is_depth : ℕ → ℤ → Bool
is_depth i (pos n) = eqb n i
is_depth i (negsuc n) = false

-- The payload of a compact token: the second of exactly three parts.
payload_part : List Str → Option Str
payload_part (header ∷ payload ∷ signature ∷ []) = some payload
payload_part _ = none

-- peekIssuer
unfoldable pub peek_issuer : Platform → Str → Result Error Str
unfolding payload_part
peek_issuer std token = do
  part ← require (payload_part (split_n dot 2 token)) not_compact
  payload ← require (decode part) decode_payload
  iss ← require (std.iss_of_json payload) unmarshal_claims
  guard (not (is_empty iss)) missing_iss
  ok iss

module _ (std : Platform) (jwt : Jwt AgentClaims) (validators : Map AgentValidator)
    (now : Time) where
  -- One round of the loop of Validate, at position `i`.
  unfoldable pub validate_token : ℕ → Str → Result Error ValidatedAgent
  validate_token i tok = do
    issuer ← map_err (chain_at i) (peek_issuer std tok)
    v ← require (lookup issuer validators) (chain_at i (no_validator issuer))
    va ← map_err (chain_at i) (validate std jwt v now tok)
    guard (is_depth i va.claims.chain_depth) (chain_at i wrong_depth)
    ok va

  unfoldable pub validate_from : ℕ → AgentChain → Result Error (List ValidatedAgent)
  validate_from i [] = ok []
  validate_from i (tok ∷ toks) = do
    va ← validate_token i tok
    rest ← validate_from (suc i) toks
    ok (va ∷ rest)

  -- AgentChain.Validate
  unfoldable pub validate_chain : AgentChain → Result Error (List ValidatedAgent)
  validate_chain [] = err empty_chain
  validate_chain (tok ∷ toks) = validate_from 0 (tok ∷ toks)
