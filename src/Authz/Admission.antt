-- ===== src/Authz/Admission.antt =====
-- internal/authz/middleware.go: what an admitted request has proved.
use ai_agent_security.Base.{Str, ◌≡◌, ap, inl, inr, true, List, [], ok, Result-cases, Map, arith}
use ai_agent_security.Platform.{Platform}
use ai_agent_security.Jwt.{Jwt, IsSound}
use ai_agent_security.Identity.Token.{AgentClaims, ValidatedAgent, AgentValidator, validate}
use ai_agent_security.Identity.Chain.{AgentChain, parse_chain, validate_chain, to_string}
use ai_agent_security.Identity.ChainLaws.{parse_chain_iff, AttestsFrom, validate_chain_iff}
use ai_agent_security.Identity.Store.{JtiStore}
use ai_agent_security.Identity.Proof.{AgentProofClaims, validate_proof}
use ai_agent_security.Identity.ProofChecks.{validate_proof-check_proof}
use ai_agent_security.Identity.ProofLaws.{IsBound, check_proof-IsBound}
use ai_agent_security.Authz.{Action, Decision, Authorizer}
use ai_agent_security.Authz.Middleware.{
  HttpRequest, Instants, identify, proof_options, check_access, agent_auth,
}

module _ (std : Platform) (agent_jwt : Jwt AgentClaims) (proof_jwt : Jwt AgentProofClaims)
    (proof_sound : IsSound (λ c. c.registered) proof_jwt) {S A : Type 0} (store : JtiStore S)
    (authorizer : Authorizer A) (policy : A) (object : Str) (action : Action)
    (leaf_validator : AgentValidator) (chain_validators : Map AgentValidator) where
  -- What an admitted request has proved.
  pub record IsAdmitted (at : Instants) (q : HttpRequest) (va : ValidatedAgent) (chain : AgentChain)
      : Type 0 where
    pub leaf : validate std agent_jwt leaf_validator at.leaf q.identity_token ≡ ok va
    pub wire : to_string chain ≡ q.chain_token
    pub agents : List ValidatedAgent
    pub attested : AttestsFrom std agent_jwt chain_validators at.chain 0 chain agents
    pub proof : AgentProofClaims
    pub bound :
        IsBound std proof_jwt proof_sound at.parsed
          (proof_options std agent_jwt proof_jwt q va chain)
          proof
    pub decision : Decision
    pub decided :
        authorizer.authorize policy (record {
          subject = va.claims.registered.subject;
          object = object;
          action = action;
          tool_params = [];
        })
        ≡ ok decision
    pub allowed : decision.allowed ≡ true

  identify_sound :
      (at : Instants) (q : HttpRequest) (va : ValidatedAgent) (chain : AgentChain)
      → identify std agent_jwt proof_jwt leaf_validator chain_validators at q ≡ ok (va, chain)
      → (validate std agent_jwt leaf_validator at.leaf q.identity_token ≡ ok va)
        × (parse_chain q.chain_token ≡ ok chain)
        × ((vas : List ValidatedAgent) × (validate_chain std agent_jwt chain_validators at.chain
                chain
              ≡ ok vas))
  unfolding identify
  identify_sound at q va chain h =
      elim (Result-cases (validate std agent_jwt leaf_validator at.leaf q.identity_token)) [
        | inr (e, bad) ↦ ground arith
        | inl (va', good) ↦ elim (Result-cases (parse_chain q.chain_token)) [
          | inr (e, bad) ↦ ground arith
          | inl (c, parsed) ↦
              elim (Result-cases (validate_chain std agent_jwt chain_validators at.chain c)) [
                | inr (e, bad) ↦ ground arith
                | inl (vas, valid) ↦
                    let same : chain ≡ c = ground arith in
                    (ground arith, ground arith, (vas, rw same valid))
              ]
        ]
      ]

  check_access_sound :
      (va va' : ValidatedAgent) (chain chain' : AgentChain)
      → check_access std agent_jwt proof_jwt store authorizer policy object action va chain
        ≡ ok (va', chain')
      → (va' ≡ va)
        × (chain' ≡ chain)
        × ((d : Decision) × (authorizer.authorize policy (record {
          subject = va.claims.registered.subject;
          object = object;
          action = action;
          tool_params = [];
        })
              ≡ ok d)
            × (d.allowed ≡ true))
  unfolding check_access
  check_access_sound va va' chain chain' h =
      elim (Result-cases (
        authorizer.authorize policy (record {
          subject = va.claims.registered.subject;
          object = object;
          action = action;
          tool_params = [];
        }))) [
          | inr (e, bad) ↦ ground arith
          | inl (d, good) ↦ (ground arith, ground arith, (d, good, ground arith))
        ]

  pub agent_auth_cases :
      (at : Instants) (q : HttpRequest) (s s' : S) (va : ValidatedAgent) (chain : AgentChain)
      → agent_auth std agent_jwt proof_jwt store authorizer policy object action leaf_validator
          chain_validators at q s
        ≡ (s', ok (va, chain))
      → (identify std agent_jwt proof_jwt leaf_validator chain_validators at q ≡ ok (va, chain))
        × ((claims : AgentProofClaims) × (validate_proof std proof_jwt store at.parsed at.recorded
                (proof_options std agent_jwt proof_jwt q va chain)
                s
              ≡ (s', ok claims)))
        × (check_access std agent_jwt proof_jwt store authorizer policy object action va chain
            ≡ ok (va, chain))
  unfolding agent_auth
  agent_auth_cases at q s s' va chain h =
      elim (Result-cases (identify std agent_jwt proof_jwt leaf_validator chain_validators at q)) [
        | inr (e, bad) ↦ ground arith
        | inl ((v, c), good) ↦
            elim (Result-cases
              (validate_proof std proof_jwt store at.parsed at.recorded
                (proof_options std agent_jwt proof_jwt q v c) s).1) [
                  | inr (e, bad) ↦ ground arith
                  | inl (claims, proved) ↦
                      let access : check_access std agent_jwt proof_jwt store authorizer policy
                            object action v c
                          ≡ ok (va, chain) =
                        ground arith in
                      let (v_is, c_is, _) = check_access_sound v va c chain access in
                      rw (v_is, c_is) (good, (claims, ground arith), rw (v_is, c_is) at access)
                ]
      ]

  -- A request that is admitted came with a leaf token that its validator accepts, the wire format of a
  -- chain whose every token is attested, and a proof bound to that chain, this address and the
  -- workload key of the leaf token, if the JWT library is sound; and the authorizer allowed the action
  -- to the subject of the leaf token. What the handler gets are that agent and that chain.
  pub agent_auth-IsAdmitted :
      (at : Instants) (q : HttpRequest) (s s' : S) (va : ValidatedAgent) (chain : AgentChain)
      → agent_auth std agent_jwt proof_jwt store authorizer policy object action leaf_validator
          chain_validators at q s
        ≡ (s', ok (va, chain))
      → IsAdmitted at q va chain
  agent_auth-IsAdmitted at q s s' va chain h =
      let (identified, (claims, proved), access) = agent_auth_cases at q s s' va chain h in
      let (leaf, parsed, (vas, valid)) = identify_sound at q va chain identified in
      let (_, _, (d, decided, allowed)) = check_access_sound va va chain chain access in
      let checked =
        validate_proof-check_proof std proof_jwt store at.parsed at.recorded
          (proof_options std agent_jwt proof_jwt q va chain) s claims (ap (λ x. x.1) proved) in
      record {
        leaf = leaf;
        wire = ((parse_chain_iff q.chain_token chain).0 parsed).0;
        agents = vas;
        attested =
            ((validate_chain_iff std agent_jwt chain_validators at.chain chain vas).0 valid).1;
        proof = claims;
        bound =
            check_proof-IsBound std proof_jwt proof_sound at.parsed
              (proof_options std agent_jwt proof_jwt q va chain) claims checked;
        decision = d;
        decided = decided;
        allowed = allowed;
      }
