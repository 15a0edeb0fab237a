-- ===== src/Authz/Once.antt =====
-- The middleware of internal/authz/middleware.go over several requests that share a replay store.
use ai_agent_security.Base.{
  Str, ◌≡◌, refl, sym, ap, ◌∙◌, ◌≢◌, ◌≤◌, ◌⊎◌, inl, inr, All, List, [], ◌∷◌, some, Result, ok,
  Result-cases, Map, Time, arith,
}
use ai_agent_security.Platform.{Platform}
use ai_agent_security.Jwt.{Jwt, IsSound}
use ai_agent_security.Identity.Token.{AgentClaims, ValidatedAgent, AgentValidator}
use ai_agent_security.Identity.Chain.{AgentChain}
use ai_agent_security.Identity.Store.{Seen, in_memory}
use ai_agent_security.Identity.Proof.{
  AgentProofClaims, ProofValidateOptions, validate_proof, check_proof,
}
use ai_agent_security.Identity.ProofLaws.{Request, serve, validate_proof-no_replay}
use ai_agent_security.Authz.{Action, Authorizer}
use ai_agent_security.Authz.Middleware.{
  HttpRequest, Refusal, Instants, identify, proof_options, agent_auth,
}
use ai_agent_security.Authz.Admission.{agent_auth_cases}
use ai_agent_security.Identity.ProofChecks.{validate_proof-check_proof}

-- A request to a resource, with the instants at which it reads the clock.
pub record Visit : Type 0 where
  pub at : Instants
  pub request : HttpRequest
  pub object : Str
  pub action : Action

module _ (std : Platform) (agent_jwt : Jwt AgentClaims) (proof_jwt : Jwt AgentProofClaims)
    (proof_sound : IsSound (λ c. c.registered) proof_jwt) {A : Type 0} (authorizer : Authorizer A)
    (policy : A) (leaf_validator : AgentValidator) (chain_validators : Map AgentValidator) where
  abbrev pub visit : Visit → Seen → Seen × Result Refusal (ValidatedAgent × AgentChain)
  visit v s =
      agent_auth std agent_jwt proof_jwt in_memory authorizer policy v.object v.action
        leaf_validator chain_validators v.at v.request s

  unfoldable pub visit_all : List Visit → Seen → Seen
  visit_all [] s = s
  visit_all (v ∷ vs) s = visit_all vs (visit v s).0

  -- What a visit does to the store is what at most one validation of a proof does.
  visit_state :
      (v : Visit) (s : Seen)
      → ((visit v s).0 ≡ s)
        ⊎ ((opts : ProofValidateOptions) × ((visit v s).0
              ≡ (validate_proof std proof_jwt in_memory v.at.parsed v.at.recorded opts s).0))
  unfolding agent_auth
  visit_state v s =
      elim (Result-cases
        (identify std agent_jwt proof_jwt leaf_validator chain_validators v.at v.request)) [
          | inr (e, bad) ↦ inl (ground arith)
          | inl ((va, chain), good) ↦ inr (
            proof_options std agent_jwt proof_jwt v.request va chain,
            elim (Result-cases
                (validate_proof std proof_jwt in_memory v.at.parsed v.at.recorded
                  (proof_options std agent_jwt proof_jwt v.request va chain) s).1) [
                    | inr (e, bad) ↦ ground arith
                    | inl (claims, proved) ↦ ground arith
                  ],
          )
        ]

  visit_all-serve :
      (vs : List Visit) (s : Seen) (exp : Time)
      → All (λ v. v.at.recorded ≤ exp) vs
      → (rs : List Request) × All (λ r. r.recorded_at ≤ exp) rs
        × (visit_all vs s ≡ serve std proof_jwt rs s)
  unfolding visit_all serve
  visit_all-serve [] s exp early = ([], tt, refl)
  visit_all-serve (v ∷ vs) s exp (first, early) =
      let (rs, early', same) = visit_all-serve vs (visit v s).0 exp early in
      elim (visit_state v s) [
        | inl unchanged ↦ (rs, early', same ∙ ap (λ x. serve std proof_jwt rs x) unchanged)
        | inr (opts, changed) ↦ (
          record { parsed_at = v.at.parsed; recorded_at = v.at.recorded; opts = opts } ∷ rs,
          (first, early'),
          same ∙ ap (λ x. serve std proof_jwt rs x) changed,
        )
      ]

  -- After a request was admitted, no request with the same proof token is admitted to any resource up
  -- to the expiry of the proof, whatever requests come between, if the JWT library is sound.
  pub agent_auth-once :
      (first second : Visit) (between : List Visit) (s s' s'' : Seen) (va va' : ValidatedAgent)
      (chain chain' : AgentChain) (claims : AgentProofClaims) (exp : Time)
      → visit first s ≡ (s', ok (va, chain))
      → check_proof std proof_jwt first.at.parsed
          (proof_options std agent_jwt proof_jwt first.request va chain)
        ≡ ok claims
      → claims.registered.expires_at ≡ some exp
      → second.request.proof_token ≡ first.request.proof_token
      → All (λ v. v.at.recorded ≤ exp) between
      → second.at.recorded ≤ exp
      → visit second (visit_all between s') ≢ (s'', ok (va', chain'))
  unfolding proof_options
  agent_auth-once first second between s s' s'' va va' chain chain' claims exp admitted checked
        expires same early live again =
      let (_, (c, proved), _) =
        agent_auth_cases std agent_jwt proof_jwt proof_sound in_memory authorizer policy
          first.object first.action leaf_validator chain_validators first.at first.request s s' va
          chain admitted in
      let (_, (c', proved'), _) =
        agent_auth_cases std agent_jwt proof_jwt proof_sound in_memory authorizer policy
          second.object second.action leaf_validator chain_validators second.at second.request
          (visit_all between s') s'' va' chain' again in
      let o1 = proof_options std agent_jwt proof_jwt first.request va chain in
      let o2 = proof_options std agent_jwt proof_jwt second.request va' chain' in
      let checked' =
        validate_proof-check_proof std proof_jwt in_memory first.at.parsed first.at.recorded o1 s c
          (ap (λ x. x.1) proved) in
      let is_c : c ≡ claims = ground arith in
      let (rs, early', served) = visit_all-serve between s' exp early in
      let stored : s'
          ≡ (validate_proof std proof_jwt in_memory first.at.parsed first.at.recorded o1 s).0 =
        ap (λ x. x.0) (sym proved) in
      let again' : (validate_proof std proof_jwt in_memory second.at.parsed second.at.recorded o2
            (visit_all between s')).1
          ≡ ok c' =
        ap (λ x. x.1) proved' in
      validate_proof-no_replay std proof_jwt proof_sound
        (record { parsed_at = first.at.parsed; recorded_at = first.at.recorded; opts = o1 })
        (record { parsed_at = second.at.parsed; recorded_at = second.at.recorded; opts = o2 }) rs s
        claims exp refl refl same (ap (λ x. x.1) proved ∙ ap ok is_c) expires early' live c'
        (rw (← stored) (rw (← served) again'))
