-- ===== src/Cb4a/PdpPolicy.antt =====
-- What the decision point of pkg/cb4a/pdp.go signs, and the policy.
use mathlib.Core.Path.{subst}
use ai_agent_security.Base.{
  Str, ◌≡◌, refl, inl, inr, true, List, none, some, ok, Option-cases, lookup, Time, ℤ, arith, bytes,
  add_time, is_nonpos, minutes, if◌then◌else◌,
}
use ai_agent_security.Platform.{Platform}
use ai_agent_security.Keys.{PrivateKey}
use ai_agent_security.Jwt.{Jwt}
use ai_agent_security.Cb4a.Audit.{AuditLog}
use ai_agent_security.Cb4a.Envelope.{EnvelopeClaims}
use ai_agent_security.Cb4a.Policy.{PolicyRule}
use ai_agent_security.Cb4a.Pdp.{
  PdpDecisionClaims, state_pending, PendingRequest, Pdp, PdpState, new_pdp, entry_for, audited,
  set_request, issue_decision, decision_claims, evaluate, approve,
}
use ai_agent_security.Cb4a.PdpLaws.{Op, run_ops}
use ai_agent_security.Cb4a.PdpRequests.{
  Fits, run_ops-IsWellFormed, config-run_ops, new_pdp-IsWellFormed,
}

-- The token `j` is signed with the key over a decision that approves the request: of the issuer, for
-- the agent, the target, the action and the scope of its envelope, at its tier, in the approver's
-- name, and until the lifetime has passed.
pub record IsApproval (jwt : Jwt PdpDecisionClaims) (issuer_id : Str) (sig_key : PrivateKey)
    (ttl : ℤ) (r : PendingRequest) (id approver : Str) (now : Time) (j : Str) : Type 0 where
  pub claims : PdpDecisionClaims
  pub signed :
      jwt.sign
        (record { typ = some (bytes "pdp-decision+jwt"); kid = none; jwk = none })
        claims
        sig_key
      ≡ some j
  pub issuer : claims.registered.issuer ≡ issuer_id
  pub subject : claims.registered.subject ≡ r.env_claims.agent_svid
  pub expires : claims.registered.expires_at ≡ some (jwt.numeric_date (add_time now ttl))
  pub agent : claims.agent_svid ≡ r.env_claims.agent_svid
  pub target : claims.target ≡ r.env_claims.target
  pub action : claims.action ≡ r.env_claims.action
  pub scope : claims.scope ≡ r.env_claims.scope
  pub tier : claims.tier ≡ r.tier
  pub approves : claims.approved ≡ true
  pub request : claims.request_id ≡ id
  pub approver_is : claims.approver_id ≡ approver

module _ (std : Platform) (jwt : Jwt PdpDecisionClaims) where
  approve-ok :
      (st : PdpState) (id approver : Str) (now : Time) (jti j : Str)
      → (approve jwt st id approver now jti).1 ≡ ok j
      → (r : PendingRequest) × (lookup id st.pdp.pending ≡ some r)
        × (r.state ≡ state_pending)
        × (issue_decision jwt st.pdp r.env_claims r.tier true id approver now jti ≡ some j)
  unfolding approve
  approve-ok st id approver now jti j h = elim (Option-cases (lookup id st.pdp.pending)) [
    | inl unknown ↦ ground arith
    | inr (r, found) ↦ (r, found, ground arith, ground arith)
  ]

  -- What issueDecision signs for a request.
  issue_decision-IsApproval :
      (p : Pdp) (r : PendingRequest) (id approver : Str) (now : Time) (jti j : Str)
      → issue_decision jwt p r.env_claims r.tier true id approver now jti ≡ some j
      → IsApproval jwt p.issuer_id p.sig_key p.ttl r id approver now j
  unfolding issue_decision decision_claims
  issue_decision-IsApproval p r id approver now jti j h = record {
    claims = decision_claims jwt p r.env_claims r.tier true id approver now jti;
    signed = h;
    issuer = refl;
    subject = refl;
    expires = refl;
    agent = refl;
    target = refl;
    action = refl;
    scope = refl;
    tier = refl;
    approves = refl;
    request = refl;
    approver_is = refl;
  }

  -- From a new decision point, whatever was submitted, approved and denied: what Approve returns is
  -- signed with the key of the decision point over a decision that approves a pending request with
  -- that id, for the agent, the target, the action and the scope of its envelope, in the approver's
  -- name, until the configured lifetime has passed, or 15 minutes if that is not positive; and its tier
  -- is the one that the policy gives that agent and scope, which is not automatic.
  pub approve-policy :
      (issuer_id : Str) (sig_key : PrivateKey) (rules : List PolicyRule) (ttl : ℤ) (log : AuditLog)
      (ops : List Op) (id approver : Str) (now : Time) (jti j : Str)
      → (approve jwt
          (run_ops std jwt ops (new_pdp issuer_id sig_key rules ttl log))
          id
          approver
          now
          jti).1
        ≡ ok j
      → (r : PendingRequest) × (lookup id
            (run_ops std jwt ops (new_pdp issuer_id sig_key rules ttl log)).pdp.pending
          ≡ some r)
        × (r.state ≡ state_pending)
        × Fits rules id r
        × IsApproval jwt issuer_id sig_key
            (if is_nonpos ttl then minutes 15 else ttl)
            r
            id
            approver
            now
            j
  approve-policy issuer_id sig_key rules ttl log ops id approver now jti j h =
      let new = new_pdp issuer_id sig_key rules ttl log in
      let reached =
        run_ops-IsWellFormed std jwt rules ops new (unfold new_pdp in refl)
          (new_pdp-IsWellFormed std jwt issuer_id sig_key rules ttl log) in
      let (r, found, open_, signed) = approve-ok _ id approver now jti j h in
      let given = issue_decision-IsApproval _ r id approver now jti j signed in
      let made =
        subst (λ (p : Pdp). IsApproval jwt p.issuer_id p.sig_key p.ttl r id approver now j)
          (config-run_ops std jwt ops new) given in
      (r, found, open_, reached.1 id r found, unfold new_pdp in made)

  -- The justification of an envelope has no part in the outcome: with another justification, the
  -- result and the audit log of Evaluate are the same.
  pub evaluate-justification :
      (st : PdpState) (env : EnvelopeClaims) (other : Str) (now : Time) (req_id jti : Str)
      → ((evaluate jwt st (some (record env { justification = other })) now req_id jti).1
          ≡ (evaluate jwt st (some env) now req_id jti).1)
        × ((evaluate jwt st (some (record env { justification = other })) now req_id jti).0.log
            ≡ (evaluate jwt st (some env) now req_id jti).0.log)
  unfolding evaluate audited set_request issue_decision decision_claims entry_for
  evaluate-justification st env other now req_id jti = (ground arith, ground arith)
