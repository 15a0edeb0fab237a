-- ===== src/Authz/Middleware.antt =====
-- internal/authz/middleware.go: the middleware AgentAuth, as a function from a request and the state
-- of the replay store to a refusal or to what it puts into the context of the handler.
use ai_agent_security.Base.{
  Str, bytes, ◌++◌, is_empty, not, true, some, Result, ok, err, ◌>>=◌, ◌>>◌, guard, map_err, Map,
  Time, [],
}
use ai_agent_security.Platform.{Platform}
use ai_agent_security.Jwt.{Jwt}
use ai_agent_security.Identity.Errors
use ai_agent_security.Identity.Token.{AgentClaims, ValidatedAgent, AgentValidator, validate}
use ai_agent_security.Identity.Chain.{AgentChain, parse_chain, validate_chain}
use ai_agent_security.Identity.Store.{JtiStore}
use ai_agent_security.Identity.Proof.{AgentProofClaims, ProofValidateOptions, validate_proof}
use ai_agent_security.Authz.{Action, Error, Authorizer, Reason}

-- The headers and the address of an HTTP request; a header that is absent is empty.
pub record HttpRequest : Type 0 where
  pub identity_token : Str
  pub chain_token : Str
  pub proof_token : Str
  pub host : Str
  pub request_uri : Str

-- The responses that end a request: 401, 500 and 403.
pub data Refusal : Type 0 where
  missing_identity_token missing_chain_token missing_proof_token : Refusal
  invalid_identity_token invalid_chain chain_failed invalid_proof : Errors.Error → Refusal
  authz_error : Error → Refusal
  access_denied : Reason → Refusal

-- The status of each.
unfoldable pub status_of : Refusal → Str
status_of (authz_error e) = bytes "500"
status_of (access_denied r) = bytes "403"
status_of _ = bytes "401"

-- The instants at which the request reads the clock.
pub record Instants : Type 0 where
  pub leaf : Time
  pub chain : Time
  pub parsed : Time
  pub recorded : Time

unfoldable pub uri_of : HttpRequest → Str
uri_of q = bytes "https://" ++ q.host ++ q.request_uri

module _ (std : Platform) (agent_jwt : Jwt AgentClaims) (proof_jwt : Jwt AgentProofClaims) where
  -- Steps 1 and 2: the leaf token, the chain, and that there is a proof.
  unfoldable pub identify :
      AgentValidator
      → Map AgentValidator
      → Instants
      → HttpRequest
      → Result Refusal (ValidatedAgent × AgentChain)
  identify leaf_validator chain_validators at q = do
    guard (not (is_empty q.identity_token)) missing_identity_token
    va ←
        map_err invalid_identity_token
          (validate std agent_jwt leaf_validator at.leaf q.identity_token)
    guard (not (is_empty q.chain_token)) missing_chain_token
    chain ← map_err invalid_chain (parse_chain q.chain_token)
    vas ← map_err chain_failed (validate_chain std agent_jwt chain_validators at.chain chain)
    guard (not (is_empty q.proof_token)) missing_proof_token
    ok (va, chain)

  -- Step 3: what is validated.
  unfoldable pub proof_options : HttpRequest → ValidatedAgent → AgentChain → ProofValidateOptions
  proof_options q va chain = record {
    proof_token = q.proof_token;
    chain = chain;
    request_uri = uri_of q;
    workload_key = some va.workload_key;
    check_replay = true;
    txn_token = [];
  }

  module _ {S A : Type 0} (store : JtiStore S) (authorizer : Authorizer A) (policy : A)
      (object : Str) (action : Action) where
    -- Step 4: the authorization check.
    unfoldable pub check_access :
        ValidatedAgent → AgentChain → Result Refusal (ValidatedAgent × AgentChain)
    check_access va chain = do
      decision ← map_err authz_error (
          authorizer.authorize policy (record {
            subject = va.claims.registered.subject;
            object = object;
            action = action;
            tool_params = [];
          }))
      guard decision.allowed (access_denied decision.reason)
      ok (va, chain)

    abbrev after_proof :
        ValidatedAgent
        → AgentChain
        → S × Result Errors.Error AgentProofClaims
        → S × Result Refusal (ValidatedAgent × AgentChain)
    after_proof va chain (s, err e) = (s, err (invalid_proof e))
    after_proof va chain (s, ok claims) = (s, check_access va chain)

    -- AgentAuth
    unfoldable pub agent_auth :
        AgentValidator
        → Map AgentValidator
        → Instants
        → HttpRequest
        → S
        → S × Result Refusal (ValidatedAgent × AgentChain)
    agent_auth leaf_validator chain_validators at q s =
        elim (identify leaf_validator chain_validators at q) [
          | err e ↦ (s, err e)
          | ok (va, chain) ↦ after_proof va chain (
              validate_proof std proof_jwt store at.parsed at.recorded (proof_options q va chain) s)
        ]
