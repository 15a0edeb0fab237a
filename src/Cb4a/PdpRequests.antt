-- ===== src/Cb4a/PdpRequests.antt =====
-- The requests that the decision point of pkg/cb4a/pdp.go keeps: each fits the policy.
use ai_agent_security.Base.{
  Str, ◌==◌, eq_iff, ◌≡◌, refl, ◌∙◌, ◌≢◌, ◌⊎◌, inl, inr, List, [], ◌∷◌, none, some, Result-cases,
  Option-cases, Bool-cases, Map, lookup, insert, lookup-insert, Time, ℤ, arith, ap,
}
use ai_agent_security.Platform.{Platform}
use ai_agent_security.Keys.{PrivateKey}
use ai_agent_security.Jwt.{Jwt}
use ai_agent_security.Webauthn.{Credential, verify_assertion}
use ai_agent_security.Cb4a.Audit.{AuditLog}
use ai_agent_security.Cb4a.Envelope.{EnvelopeClaims}
use ai_agent_security.Cb4a.Policy.{tier_auto, PolicyRule, evaluate_tier}
use ai_agent_security.Cb4a.Pdp.{
  PdpDecisionClaims, state_pending, state_approved, state_denied, PendingRequest, Pdp, PdpState,
  new_pdp, audited, set_request, is_pending, evaluate, approve, approve_with_passkey, deny,
}
use ai_agent_security.Cb4a.PdpLaws.{
  Op, submit, approve_by, approve_passkey, deny_by, run_op, run_ops,
}

-- A request that a human has to decide: with the policy's tier for it, which is not automatic.
abbrev pub Fits : List PolicyRule → Str → PendingRequest → Type 0
Fits rules id r =
    (r.id ≡ id)
    × (r.tier ≡ evaluate_tier rules r.env_claims.agent_svid r.env_claims.scope)
    × (r.tier ≢ tier_auto)

-- Every request in the store fits its key and the policy.
abbrev pub IsWellFormed : List PolicyRule → Map PendingRequest → Type 0
IsWellFormed rules pending =
    (id : Str) (r : PendingRequest) → lookup id pending ≡ some r → Fits rules id r

IsWellFormed-insert :
    (rules : List PolicyRule) (m : Map PendingRequest) (id : Str) (r : PendingRequest)
    → IsWellFormed rules m
    → Fits rules id r
    → IsWellFormed rules (insert id r m)
IsWellFormed-insert rules m id r w f j q h = elim (Bool-cases (id == j)) [
  | inl same ↦
      let here : some r ≡ some q = ground (arith, lookup-insert id j r m) in
      let known : id ≡ j = (eq_iff id j).0 same in ground arith
  | inr other ↦ w j q (ground (arith, lookup-insert id j r m))
]

-- The parked request of a submission.
abbrev pub parked_request : PdpState → EnvelopeClaims → Time → Str → PendingRequest
parked_request st env now req_id = record {
  id = req_id;
  env_claims = env;
  tier = evaluate_tier st.pdp.rules env.agent_svid env.scope;
  state = state_pending;
  created_at = now;
}

module _ (std : Platform) (jwt : Jwt PdpDecisionClaims) where
  evaluate-pending :
      (st : PdpState) (env : EnvelopeClaims) (now : Time) (req_id jti : Str)
      → ((evaluate jwt st (some env) now req_id jti).0.pdp.pending ≡ st.pdp.pending)
        ⊎ (((evaluate jwt st (some env) now req_id jti).0.pdp.pending
              ≡ insert req_id (parked_request st env now req_id) st.pdp.pending)
            × (evaluate_tier st.pdp.rules env.agent_svid env.scope ≢ tier_auto))
  unfolding evaluate audited set_request
  evaluate-pending st env now req_id jti = ground arith

  -- An operation changes the requests alone.
  config-run_op :
      (op : Op) (st : PdpState)
      → (run_op std jwt op st).pdp ≡ record st.pdp { pending = (run_op std jwt op st).pdp.pending }
  unfolding run_op evaluate approve approve_with_passkey deny audited set_request
  config-run_op (submit none now req_id jti) st = refl
  config-run_op (submit (some env) now req_id jti) st = ground arith
  config-run_op (approve_by id approver now jti) st = ground arith
  config-run_op (approve_passkey id none challenge assertion now jti) st = refl
  config-run_op (approve_passkey id (some cred) challenge assertion now jti) st = ground arith
  config-run_op (deny_by id approver now) st = ground arith

  pub config-run_ops :
      (ops : List Op) (st : PdpState)
      → (run_ops std jwt ops st).pdp
        ≡ record st.pdp { pending = (run_ops std jwt ops st).pdp.pending }
  unfolding run_ops
  config-run_ops [] st = refl
  config-run_ops (op ∷ ops) st =
      config-run_ops ops (run_op std jwt op st)
      ∙ ap (λ (p : Pdp). record p { pending = (run_ops std jwt (op ∷ ops) st).pdp.pending })
          (config-run_op op st)

  rules-run_op : (op : Op) (st : PdpState) → (run_op std jwt op st).pdp.rules ≡ st.pdp.rules
  rules-run_op op st = ap (λ (p : Pdp). p.rules) (config-run_op op st)

  approve_with_passkey-cases :
      (st : PdpState) (id : Str) (cred : Credential) (challenge assertion : Str) (now : Time)
      (jti : Str)
      → ((approve_with_passkey jwt std st id (some cred) challenge assertion now jti).0
          ≡ (approve jwt st id cred.id now jti).0)
        ⊎ ((approve_with_passkey jwt std st id (some cred) challenge assertion now jti).0 ≡ st)
  unfolding approve_with_passkey
  approve_with_passkey-cases st id cred challenge assertion now jti =
      elim (Result-cases (verify_assertion std cred.public_key challenge assertion)) [
        | inl (u, good) ↦ inl (ground arith)
        | inr (e, bad) ↦ inr (ground arith)
      ]

  -- Deciding a request changes its state alone.
  approve-pending :
      (st : PdpState) (id approver : Str) (now : Time) (jti : Str)
      → ((approve jwt st id approver now jti).0.pdp.pending ≡ st.pdp.pending)
        ⊎ ((r : PendingRequest) × (lookup id st.pdp.pending ≡ some r)
            × ((approve jwt st id approver now jti).0.pdp.pending
                ≡ insert id (record r { state = state_approved }) st.pdp.pending))
  unfolding approve audited set_request
  approve-pending st id approver now jti = elim (Option-cases (lookup id st.pdp.pending)) [
    | inl unknown ↦ inl (ground arith)
    | inr (r, found) ↦ elim (Bool-cases (is_pending r.state)) [
      | inl open_ ↦ inr (r, found, ground arith)
      | inr done ↦ inl (ground arith)
    ]
  ]

  deny-pending :
      (st : PdpState) (id approver : Str) (now : Time)
      → ((deny st id approver now).0.pdp.pending ≡ st.pdp.pending)
        ⊎ ((r : PendingRequest) × (lookup id st.pdp.pending ≡ some r)
            × ((deny st id approver now).0.pdp.pending
                ≡ insert id (record r { state = state_denied }) st.pdp.pending))
  unfolding deny audited set_request
  deny-pending st id approver now = elim (Option-cases (lookup id st.pdp.pending)) [
    | inl unknown ↦ inl (ground arith)
    | inr (r, found) ↦ elim (Bool-cases (is_pending r.state)) [
      | inl open_ ↦ inr (r, found, ground arith)
      | inr done ↦ inl (ground arith)
    ]
  ]

  approve-IsWellFormed :
      (rules : List PolicyRule) (st : PdpState) (id approver : Str) (now : Time) (jti : Str)
      → IsWellFormed rules st.pdp.pending
      → IsWellFormed rules (approve jwt st id approver now jti).0.pdp.pending
  approve-IsWellFormed rules st id approver now jti w =
      elim (approve-pending st id approver now jti) [
        | inl same ↦ rw same w
        | inr (r, found, e) ↦ rw e (
            IsWellFormed-insert rules st.pdp.pending id (record r { state = state_approved }) w
              (w id r found))
      ]

  run_op-IsWellFormed :
      (rules : List PolicyRule) (op : Op) (st : PdpState)
      → st.pdp.rules ≡ rules
      → IsWellFormed rules st.pdp.pending
      → IsWellFormed rules (run_op std jwt op st).pdp.pending
  unfolding run_op
  run_op-IsWellFormed rules (submit none now req_id jti) st e w = unfold evaluate in w
  run_op-IsWellFormed rules (submit (some env) now req_id jti) st e w =
      elim (evaluate-pending st env now req_id jti) [
        | inl same ↦ rw same w
        | inr (grown, human) ↦ rw grown (
            IsWellFormed-insert rules st.pdp.pending req_id (parked_request st env now req_id) w
              (refl, rw e refl, human))
      ]
  run_op-IsWellFormed rules (approve_by id approver now jti) st e w =
      approve-IsWellFormed rules st id approver now jti w
  run_op-IsWellFormed rules (approve_passkey id none challenge assertion now jti) st e w =
      unfold approve_with_passkey in w
  run_op-IsWellFormed rules (approve_passkey id (some cred) challenge assertion now jti) st e w =
      elim (approve_with_passkey-cases st id cred challenge assertion now jti) [
        | inl same ↦ rw same (approve-IsWellFormed rules st id cred.id now jti w)
        | inr same ↦ rw same w
      ]
  run_op-IsWellFormed rules (deny_by id approver now) st e w =
      elim (deny-pending st id approver now) [
        | inl same ↦ rw same w
        | inr (r, found, d) ↦ rw d (
            IsWellFormed-insert rules st.pdp.pending id (record r { state = state_denied }) w
              (w id r found))
      ]

  -- Whatever is submitted, approved and denied, the rules stay, and if every stored request fits its
  -- id and the policy before, every stored request does afterwards.
  pub run_ops-IsWellFormed :
      (rules : List PolicyRule) (ops : List Op) (st : PdpState)
      → st.pdp.rules ≡ rules
      → IsWellFormed rules st.pdp.pending
      → ((run_ops std jwt ops st).pdp.rules ≡ rules)
        × IsWellFormed rules (run_ops std jwt ops st).pdp.pending
  unfolding run_ops
  run_ops-IsWellFormed rules [] st e w = (e, w)
  run_ops-IsWellFormed rules (op ∷ ops) st e w =
      run_ops-IsWellFormed rules ops (run_op std jwt op st) (rules-run_op op st ∙ e)
        (run_op-IsWellFormed rules op st e w)

  pub new_pdp-IsWellFormed :
      (issuer_id : Str) (sig_key : PrivateKey) (rules : List PolicyRule) (ttl : ℤ) (log : AuditLog)
      → IsWellFormed rules (new_pdp issuer_id sig_key rules ttl log).pdp.pending
  unfolding new_pdp lookup
  new_pdp-IsWellFormed issuer_id sig_key rules ttl log id r h = cc
