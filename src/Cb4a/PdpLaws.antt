-- ===== src/Cb4a/PdpLaws.antt =====
-- The life of a request at the policy decision point of pkg/cb4a/pdp.go.
use ai_agent_security.Base.{
  Str, eq_iff, ◌≡◌, refl, ◌≢◌, ◌⊎◌, inl, inr, List, [], ◌∷◌, Option, none, some, ok, err,
  Option-cases, All, lookup, lookup-insert, lookup-insert_self, Time, arith,
}
use ai_agent_security.Platform.{Platform}
use ai_agent_security.Webauthn.{Credential}
use ai_agent_security.Jwt.{Jwt}
use ai_agent_security.Cb4a.Envelope.{already_decided, EnvelopeClaims}
use ai_agent_security.Cb4a.Policy.{evaluate_tier}
use ai_agent_security.Cb4a.Pdp.{
  PdpDecisionClaims, state_pending, state_approved, state_denied, PendingRequest, PdpState, audited,
  set_request, evaluate, approve, approve_with_passkey, deny,
}

-- What clients and approvers do.
pub data Op : Type 0 where
  submit : Option EnvelopeClaims → Time → Str → Str → Op
  approve_by : Str → Str → Time → Str → Op
  approve_passkey : Str → Option Credential → Str → Str → Time → Str → Op
  deny_by : Str → Str → Time → Op

-- A submission draws another id.
abbrev pub IsFresh : Str → Op → Type 0
IsFresh id (submit env now req_id jti) = req_id ≢ id
IsFresh id _ = Unit

module _ (std : Platform) (jwt : Jwt PdpDecisionClaims) where
  unfoldable pub run_op : Op → PdpState → PdpState
  run_op (submit env now req_id jti) st = (evaluate jwt st env now req_id jti).0
  run_op (approve_by id approver now jti) st = (approve jwt st id approver now jti).0
  run_op (approve_passkey id cred challenge assertion now jti) st =
      (approve_with_passkey jwt std st id cred challenge assertion now jti).0
  run_op (deny_by id approver now) st = (deny st id approver now).0

  unfoldable pub run_ops : List Op → PdpState → PdpState
  run_ops [] st = st
  run_ops (op ∷ ops) st = run_ops ops (run_op op st)

  evaluate-keeps :
      (st : PdpState) (env : Option EnvelopeClaims) (now : Time) (req_id jti id : Str)
      → req_id ≢ id
      → lookup id (evaluate jwt st env now req_id jti).0.pdp.pending ≡ lookup id st.pdp.pending
  unfolding evaluate audited set_request
  evaluate-keeps st none now req_id jti id ne = refl
  evaluate-keeps st (some env) now req_id jti id ne = ground (
    arith,
    eq_iff req_id id,
    lookup-insert req_id id
        (record {
          id = req_id;
          env_claims = env;
          tier = evaluate_tier st.pdp.rules env.agent_svid env.scope;
          state = state_pending;
          created_at = now;
        })
        st.pdp.pending,
  )

  module _ (id : Str) (r : PendingRequest) (done : r.state ≢ state_pending) where
    approve-keeps :
        (st : PdpState) (j approver : Str) (now : Time) (jti : Str)
        → lookup id st.pdp.pending ≡ some r
        → lookup id (approve jwt st j approver now jti).0.pdp.pending ≡ some r
    unfolding approve audited set_request
    approve-keeps st j approver now jti held = elim (Option-cases (lookup j st.pdp.pending)) [
      | inl unknown ↦ ground arith
      | inr (q, found) ↦ ground (
        arith,
        eq_iff j id,
        lookup-insert j id (record q { state = state_approved }) st.pdp.pending,
      )
    ]

    deny-keeps :
        (st : PdpState) (j approver : Str) (now : Time)
        → lookup id st.pdp.pending ≡ some r
        → lookup id (deny st j approver now).0.pdp.pending ≡ some r
    unfolding deny audited set_request
    deny-keeps st j approver now held = elim (Option-cases (lookup j st.pdp.pending)) [
      | inl unknown ↦ ground arith
      | inr (q, found) ↦ ground (
        arith,
        eq_iff j id,
        lookup-insert j id (record q { state = state_denied }) st.pdp.pending,
      )
    ]

    run_op-keeps :
        (op : Op) (st : PdpState)
        → IsFresh id op
        → lookup id st.pdp.pending ≡ some r
        → lookup id (run_op op st).pdp.pending ≡ some r
    unfolding run_op approve_with_passkey
    run_op-keeps (submit env now req_id jti) st fresh held =
        rw (evaluate-keeps st env now req_id jti id fresh) held
    run_op-keeps (approve_by j approver now jti) st fresh held =
        approve-keeps st j approver now jti held
    run_op-keeps (approve_passkey j none challenge assertion now jti) st fresh held = held
    run_op-keeps (approve_passkey j (some cred) challenge assertion now jti) st fresh held =
        ground (arith, approve-keeps st j cred.id now jti held)
    run_op-keeps (deny_by j approver now) st fresh held = deny-keeps st j approver now held

    run_ops-keeps :
        (ops : List Op) (st : PdpState)
        → All (IsFresh id) ops
        → lookup id st.pdp.pending ≡ some r
        → lookup id (run_ops ops st).pdp.pending ≡ some r
    unfolding run_ops
    run_ops-keeps [] st fresh held = held
    run_ops-keeps (op ∷ ops) st (f, fresh) held =
        run_ops-keeps ops (run_op op st) fresh (run_op-keeps op st f held)

    refused :
        (st : PdpState) (approver : Str) (now : Time) (jti : Str)
        → lookup id st.pdp.pending ≡ some r
        → (approve jwt st id approver now jti ≡ (st, err already_decided))
          × (deny st id approver now ≡ (st, err already_decided))
    unfolding approve deny
    refused st approver now jti held = (ground arith, ground arith)

  -- A decision, either way.
  abbrev pub IsDecidedBy : Str → Str → Time → Str → PdpState → PdpState → Type 0
  IsDecidedBy id approver now jti st st' =
      ((j : Str) × (approve jwt st id approver now jti ≡ (st', ok j)))
      ⊎ (deny st id approver now ≡ (st', ok tt))

  approved_state :
      (st st' : PdpState) (id approver : Str) (now : Time) (jti j : Str)
      → approve jwt st id approver now jti ≡ (st', ok j)
      → (r : PendingRequest) × (lookup id st'.pdp.pending ≡ some r) × (r.state ≡ state_approved)
  unfolding approve audited set_request
  approved_state st st' id approver now jti j h = elim (Option-cases (lookup id st.pdp.pending)) [
    | inl unknown ↦ ground arith
    | inr (q, found) ↦ (
      record q { state = state_approved },
      ground (arith, lookup-insert_self id (record q { state = state_approved }) st.pdp.pending),
      refl,
    )
  ]

  denied_state :
      (st st' : PdpState) (id approver : Str) (now : Time)
      → deny st id approver now ≡ (st', ok tt)
      → (r : PendingRequest) × (lookup id st'.pdp.pending ≡ some r) × (r.state ≡ state_denied)
  unfolding deny audited set_request
  denied_state st st' id approver now h = elim (Option-cases (lookup id st.pdp.pending)) [
    | inl unknown ↦ ground arith
    | inr (q, found) ↦ (
      record q { state = state_denied },
      ground (arith, lookup-insert_self id (record q { state = state_denied }) st.pdp.pending),
      refl,
    )
  ]

  decided_state :
      (st st' : PdpState) (id approver : Str) (now : Time) (jti : Str)
      → IsDecidedBy id approver now jti st st'
      → (r : PendingRequest) × (lookup id st'.pdp.pending ≡ some r) × (r.state ≢ state_pending)
  decided_state st st' id approver now jti (inl (j, h)) =
      let (r, held, s) = approved_state st st' id approver now jti j h in (r, held, cc)
  decided_state st st' id approver now jti (inr h) =
      let (r, held, s) = denied_state st st' id approver now h in (r, held, cc)

  -- A request is decided at most once: after it was approved or denied, and whatever submissions
  -- with other ids, approvals and denials follow, approving and denying it both fail with "already
  -- decided" and change nothing.
  pub decided_once :
      (st st' : PdpState) (id approver : Str) (now : Time) (jti : Str) (ops : List Op)
      → IsDecidedBy id approver now jti st st'
      → All (IsFresh id) ops
      → (approver' : Str) (now' : Time) (jti' : Str)
      → (approve jwt (run_ops ops st') id approver' now' jti'
          ≡ (run_ops ops st', err already_decided))
        × (deny (run_ops ops st') id approver' now' ≡ (run_ops ops st', err already_decided))
  decided_once st st' id approver now jti ops decided fresh approver' now' jti' =
      let (r, held, done) = decided_state st st' id approver now jti decided in
      refused id r done (run_ops ops st') approver' now' jti'
        (run_ops-keeps id r done ops st' fresh held)
