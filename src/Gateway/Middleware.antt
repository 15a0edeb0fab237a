-- ===== src/Gateway/Middleware.antt =====
-- internal/gateway/server.go: agentAuthMiddleware, as a function from a request and the state of the
-- replay store and of the resolver to a refusal or to what is forwarded to the tool.
use ai_agent_security.Base.{
  Str, bytes, ◌++◌, is_empty, not, Bool, true, false, Option, none, some, Result, ok, err, ◌>>=◌,
  ◌>>◌, guard, map_err, Map, Time, [], if◌then◌else◌,
}
use ai_agent_security.Platform.{Platform}
use ai_agent_security.Jwt.{Jwt}
use ai_agent_security.Identity.Errors
use ai_agent_security.Identity.Token.{AgentClaims, ValidatedAgent, AgentValidator}
use ai_agent_security.Identity.Chain.{AgentChain, parse_chain, validate_chain}
use ai_agent_security.Identity.Store.{JtiStore}
use ai_agent_security.Identity.Proof.{AgentProofClaims, ProofValidateOptions, validate_proof}
use ai_agent_security.Authz
use ai_agent_security.Authz.{action_call, Request, Decision, Authorizer, Reason}
use ai_agent_security.Authz.Middleware.{Instants}
use ai_agent_security.Ssf.{Revoked, is_revoked}
use ai_agent_security.Gateway.{
  Error, Resolver, resolve_and_validate, Tls, verify_mtls_binding, Body, extract_tool_params,
}

-- Config, without the routes; the state of the remediation is read only.
pub record Config (R A : Type 0) : Type 0 where
  pub validators : Map AgentValidator
  pub resolver : Option (Resolver R)
  pub authorizer : Authorizer A
  pub policy : A
  pub wants_certificate : Bool
  pub remediation : Option Revoked

-- What the middleware reads of a request.
pub record GatewayRequest : Type 0 where
  pub identity_token : Str
  pub chain_token : Str
  pub proof_token : Str
  pub tls : Option Tls
  pub host : Str
  pub request_uri : Str
  pub body : Body

-- The responses that end a request.
pub data Refusal : Type 0 where
  missing_identity_token missing_chain_token missing_proof_token revoked : Refusal
  invalid_identity_token mtls_binding : Error → Refusal
  invalid_chain chain_failed invalid_proof : Errors.Error → Refusal
  authz_error : Authz.Error → Refusal
  access_pending : Str → Reason → Refusal
  access_denied : Reason → Refusal

-- What goes on to the handler: the agent, the chain and the body.
pub record Forwarded : Type 0 where
  pub agent : ValidatedAgent
  pub chain : AgentChain
  pub body : Body

abbrev scheme_of : Option Tls → Str
scheme_of none = bytes "http"
scheme_of (some tls) = bytes "https"

unfoldable pub uri_of : GatewayRequest → Str
uri_of q = scheme_of q.tls ++ bytes "://" ++ q.host ++ q.request_uri

abbrev pub is_revoked_by : Option Revoked → Str → Bool
is_revoked_by none subject = false
is_revoked_by (some rs) subject = is_revoked rs subject

-- What is validated of the proof.
unfoldable pub proof_options : GatewayRequest → ValidatedAgent → AgentChain → ProofValidateOptions
proof_options q va chain = record {
  proof_token = q.proof_token;
  chain = chain;
  request_uri = uri_of q;
  workload_key = some va.workload_key;
  check_replay = true;
  txn_token = [];
}

module _ (std : Platform) (agent_jwt : Jwt AgentClaims) (proof_jwt : Jwt AgentProofClaims)
    (parse_params : Str → Option (Map Str)) where
  module _ {R A : Type 0} (cfg : Config R A) (tool_name : Str) where
    abbrev pub check_certificate : GatewayRequest → Str → Result Error (Unit {0})
    check_certificate q subject = elim cfg.wants_certificate [
      | true ↦ verify_mtls_binding q.tls subject
      | false ↦ ok tt
    ]

    -- Steps 2 to 4, and that there is a proof.
    unfoldable pub check_agent : Time → GatewayRequest → ValidatedAgent → Result Refusal AgentChain
    check_agent now q va = do
      guard (not (is_revoked_by cfg.remediation va.claims.registered.subject)) revoked
      map_err mtls_binding (check_certificate q va.claims.registered.subject)
      guard (not (is_empty q.chain_token)) missing_chain_token
      chain ← map_err invalid_chain (parse_chain q.chain_token)
      vas ← map_err chain_failed (validate_chain std agent_jwt cfg.validators now chain)
      guard (not (is_empty q.proof_token)) missing_proof_token
      ok chain

    -- Step 6: the question and what becomes of the decision.
    unfoldable pub question : GatewayRequest → ValidatedAgent → Request
    question q va = record {
      subject = va.claims.registered.subject;
      object = tool_name;
      action = action_call;
      tool_params = (extract_tool_params parse_params q.body).0;
    }

    unfoldable pub check_access :
        GatewayRequest → ValidatedAgent → AgentChain → Result Refusal Forwarded
    check_access q va chain = do
      decision ← map_err authz_error (cfg.authorizer.authorize cfg.policy (question q va))
      guard (not decision.pending) (access_pending decision.approval_endpoint decision.reason)
      guard decision.allowed (access_denied decision.reason)
      ok (record { agent = va; chain = chain; body = (extract_tool_params parse_params q.body).1 })

    module _ {S : Type 0} (store : JtiStore S) where
      abbrev after_proof :
          GatewayRequest
          → ValidatedAgent
          → AgentChain
          → S × Result Errors.Error AgentProofClaims
          → S × Result Refusal Forwarded
      after_proof q va chain (s, err e) = (s, err (invalid_proof e))
      after_proof q va chain (s, ok claims) = (s, check_access q va chain)

      -- Step 5 on.
      unfoldable pub check_request :
          Instants → GatewayRequest → ValidatedAgent → S → S × Result Refusal Forwarded
      check_request at q va s = elim (check_agent at.chain q va) [
        | err e ↦ (s, err e)
        | ok chain ↦
            after_proof q va chain (
              validate_proof std proof_jwt store at.parsed at.recorded (proof_options q va chain) s)
      ]

      abbrev identified :
          Instants
          → GatewayRequest
          → S
          → R × Result Error ValidatedAgent
          → R × S × Result Refusal Forwarded
      identified at q s (r, err e) = (r, s, err (invalid_identity_token e))
      identified at q s (r, ok va) = let (s', result) = check_request at q va s in (r, s', result)

      -- agentAuthMiddleware
      unfoldable pub agent_auth_middleware :
          Instants → GatewayRequest → R → S → R × S × Result Refusal Forwarded
      agent_auth_middleware at q r s =
          if is_empty q.identity_token
          then (r, s, err missing_identity_token)
          else identified at q s (
              resolve_and_validate std agent_jwt cfg.validators cfg.resolver at.leaf
                q.identity_token r)
