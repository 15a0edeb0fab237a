-- ===== src/Gateway/Admission.antt =====
-- internal/gateway/server.go: what a forwarded request has proved.
use ai_agent_security.Base.{Str, ◌≡◌, true, false, List, Option, some, ok, Map}
use ai_agent_security.Platform.{Platform}
use ai_agent_security.Jwt.{Jwt, IsSound}
use ai_agent_security.Identity.Token.{AgentClaims, ValidatedAgent}
use ai_agent_security.Identity.Chain.{to_string}
use ai_agent_security.Identity.ChainLaws.{AttestsFrom}
use ai_agent_security.Identity.Store.{JtiStore}
use ai_agent_security.Identity.Proof.{AgentProofClaims}
use ai_agent_security.Identity.ProofLaws.{IsBound}
use ai_agent_security.Authz.{Decision}
use ai_agent_security.Authz.Middleware.{Instants}
use ai_agent_security.Ssf.{Revoked, is_revoked}
use ai_agent_security.Gateway.{extract_tool_params}
use ai_agent_security.Gateway.Pieces.{IsKnown, IsBoundTo}
use ai_agent_security.Gateway.Middleware.{
  Config, GatewayRequest, Forwarded, proof_options, question,
}

module _ (std : Platform) (agent_jwt : Jwt AgentClaims) (proof_jwt : Jwt AgentProofClaims)
    (proof_sound : IsSound (λ c. c.registered) proof_jwt) (parse_params : Str → Option (Map Str))
    {R A S : Type 0} (cfg : Config R A) (tool_name : Str) (store : JtiStore S) where
  -- What a forwarded request has proved.
  pub record IsForwarded (at : Instants) (q : GatewayRequest) (r : R) (f : Forwarded) : Type 0 where
    pub known : IsKnown std agent_jwt cfg.validators cfg.resolver at.leaf q.identity_token r f.agent
    pub not_revoked :
        (rs : Revoked)
        → cfg.remediation ≡ some rs
        → is_revoked rs f.agent.claims.registered.subject ≡ false
    pub certified : cfg.wants_certificate ≡ true → IsBoundTo f.agent.claims.registered.subject q.tls
    pub wire : to_string f.chain ≡ q.chain_token
    pub agents : List ValidatedAgent
    pub attested : AttestsFrom std agent_jwt cfg.validators at.chain 0 f.chain agents
    pub proof : AgentProofClaims
    pub bound : IsBound std proof_jwt proof_sound at.parsed (proof_options q f.agent f.chain) proof
    pub decision : Decision
    pub decided :
        cfg.authorizer.authorize cfg.policy
          (question std agent_jwt proof_jwt parse_params cfg tool_name q f.agent)
        ≡ ok decision
    pub allowed : decision.allowed ≡ true
    pub settled : decision.pending ≡ false
    pub body : f.body ≡ (extract_tool_params parse_params q.body).1
