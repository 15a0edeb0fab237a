-- ===== src/Cb4a/Pdp.antt =====
-- The policy decision point of pkg/cb4a/pdp.go. Its audit log is shared with the delivery point, so
-- it is a component of the state beside it. Each operation reads the clock once, at `now`.
use ai_agent_security.Base.{
  ℕ, Str, bytes, Bool, true, false, List, [], ◌∷◌, Option, none, some, Result, ok, err, ◌>>=◌, ◌>>◌,
  guard, require, Map, lookup, insert, Time, ℤ, is_nonpos, minutes, eqb, if◌then◌else◌,
}
use ai_agent_security.Keys.{PublicKey, PrivateKey}
use ai_agent_security.Platform.{Platform}
use ai_agent_security.Webauthn
use ai_agent_security.Webauthn.{Credential, verify_assertion}
use ai_agent_security.Jwt.{RegisteredClaims, Jwt}
use ai_agent_security.Identity.Token.{default_options, keyfunc_for}
use ai_agent_security.Cb4a.Audit.{
  Event, policy_evaluated, approved, denied, Detail, tier_is, auto_approved, approved_by, denied_by,
  AuditEntry, AuditLog, append,
}
use ai_agent_security.Cb4a.Envelope.{
  Error, env_claims_required, unknown_request, already_decided, credential_required,
  assertion_invalid, pdp_pub_required, parse_decision, invalid_decision, sign_failed,
  EnvelopeClaims, lifetime,
}
use ai_agent_security.Cb4a.Policy.{tier_auto, PolicyRule, evaluate_tier}

abbrev pub pdp_decision_type : Str
pdp_decision_type = bytes "pdp-decision+jwt"

pub record PdpDecisionClaims : Type 0 where
  pub registered : RegisteredClaims
  pub agent_svid : Str
  pub target : Str
  pub action : Str
  pub scope : Str
  pub tier : ℕ
  pub approved : Bool
  pub request_id : Str
  pub approver_id : Str

pub data RequestState : Type 0 where
  state_pending state_approved state_denied : RequestState

pub record PendingRequest : Type 0 where
  pub id : Str
  pub env_claims : EnvelopeClaims
  pub tier : ℕ
  pub state : RequestState
  pub created_at : Time

-- InMemoryPDP, without its audit log
pub record Pdp : Type 0 where
  pub rules : List PolicyRule
  pub sig_key : PrivateKey
  pub issuer_id : Str
  pub ttl : ℤ
  pub pending : Map PendingRequest

pub record PdpState : Type 0 where
  pub pdp : Pdp
  pub log : AuditLog

-- NewInMemoryPDP
unfoldable pub new_pdp : Str → PrivateKey → List PolicyRule → ℤ → AuditLog → PdpState
new_pdp issuer_id sig_key rules ttl log = record {
  pdp = record {
    rules = rules;
    sig_key = sig_key;
    issuer_id = issuer_id;
    ttl = if is_nonpos ttl then minutes 15 else ttl;
    pending = [];
  };
  log = log;
}

abbrev pub is_pending : RequestState → Bool
is_pending state_pending = true
is_pending _ = false

-- An audit entry about an envelope, before Append stamps it.
unfoldable pub entry_for : Event → EnvelopeClaims → ℕ → Str → Detail → Bool → AuditEntry
entry_for event env tier request_id detail success = record {
  timestamp = 0;
  event = event;
  agent_svid = env.agent_svid;
  target = env.target;
  action = env.action;
  scope = env.scope;
  tier = tier;
  request_id = request_id;
  detail = detail;
  success = success;
}

-- `_ = p.audit.Append(...)`: the error is dropped.
unfoldable pub audited : Time → AuditEntry → PdpState → PdpState
audited now e st = record st { log = (append now e st.log).0 }

unfoldable pub set_request : PdpState → Str → PendingRequest → PdpState
set_request st id r = record st { pdp = record st.pdp { pending = insert id r st.pdp.pending } }

module _ (jwt : Jwt PdpDecisionClaims) where
  -- The claims of a decision.
  unfoldable pub decision_claims :
      Pdp → EnvelopeClaims → ℕ → Bool → Str → Str → Time → Str → PdpDecisionClaims
  decision_claims p env tier is_approved request_id approver_id now jti = record {
    registered = lifetime jwt p.issuer_id env.agent_svid now p.ttl jti;
    agent_svid = env.agent_svid;
    target = env.target;
    action = env.action;
    scope = env.scope;
    tier = tier;
    approved = is_approved;
    request_id = request_id;
    approver_id = approver_id;
  }

  -- issueDecision; `none` is an error of the signer.
  unfoldable pub issue_decision :
      Pdp → EnvelopeClaims → ℕ → Bool → Str → Str → Time → Str → Option Str
  issue_decision p env tier is_approved request_id approver_id now jti =
      jwt.sign (record { typ = some pdp_decision_type; kid = none; jwk = none })
        (decision_claims p env tier is_approved request_id approver_id now jti) p.sig_key

  -- The branch of Evaluate for TierAuto, after the signature.
  abbrev auto_decided :
      PdpState → EnvelopeClaims → ℕ → Str → Time → Option Str → PdpState × Result Error (Str × Str)
  auto_decided st env tier req_id now none = (st, err sign_failed)
  auto_decided st env tier req_id now (some j) =
      (audited now (entry_for approved env tier req_id auto_approved true) st, ok (j, []))

  -- Evaluate, with the random ids of the request and of the decision. The result is the decision or
  -- the id of the parked request, the other being empty.
  unfoldable pub evaluate :
      PdpState → Option EnvelopeClaims → Time → Str → Str → PdpState × Result Error (Str × Str)
  evaluate st none now req_id jti = (st, err env_claims_required)
  evaluate st (some env) now req_id jti =
      let tier = evaluate_tier st.pdp.rules env.agent_svid env.scope in
      let st' = audited now (entry_for policy_evaluated env tier req_id (tier_is tier) true) st in
      if eqb tier tier_auto
      then auto_decided st' env tier req_id now
          (issue_decision st.pdp env tier true req_id (bytes "auto") now jti)
      else (
        set_request st' req_id (record {
          id = req_id;
          env_claims = env;
          tier = tier;
          state = state_pending;
          created_at = now;
        }),
        ok ([], req_id),
      )

  abbrev approved_with :
      PdpState → PendingRequest → Str → Str → Time → Option Str → PdpState × Result Error Str
  approved_with st r request_id approver_id now none = (st, err sign_failed)
  approved_with st r request_id approver_id now (some j) = (
    audited now (entry_for approved r.env_claims r.tier request_id (approved_by approver_id) true)
        st,
    ok j,
  )

  approve_found :
      PdpState → Str → Str → Time → Str → Option PendingRequest → PdpState × Result Error Str
  approve_found st request_id approver_id now jti none = (st, err unknown_request)
  approve_found st request_id approver_id now jti (some r) =
      if is_pending r.state
      then approved_with (set_request st request_id (record r { state = state_approved })) r
          request_id approver_id now
          (issue_decision st.pdp r.env_claims r.tier true request_id approver_id now jti)
      else (st, err already_decided)

  -- Approve
  unfoldable pub approve : PdpState → Str → Str → Time → Str → PdpState × Result Error Str
  unfolding approve_found
  approve st request_id approver_id now jti =
      approve_found st request_id approver_id now jti (lookup request_id st.pdp.pending)

  abbrev approve_verified :
      PdpState
      → Str
      → Str
      → Time
      → Str
      → Result Webauthn.Error (Unit {0})
      → PdpState × Result Error Str
  approve_verified st request_id cred_id now jti (ok u) = approve st request_id cred_id now jti
  approve_verified st request_id cred_id now jti (err e) = (st, err assertion_invalid)

  -- ApproveWithPasskey
  unfoldable pub approve_with_passkey :
      Platform
      → PdpState
      → Str
      → Option Credential
      → Str
      → Str
      → Time
      → Str
      → PdpState × Result Error Str
  approve_with_passkey std st request_id none challenge assertion now jti =
      (st, err credential_required)
  approve_with_passkey std st request_id (some cred) challenge assertion now jti =
      approve_verified st request_id cred.id now jti
        (verify_assertion std cred.public_key challenge assertion)

  -- ParseDecision
  unfoldable pub parse_decision_token :
      Str → Option PublicKey → Time → Result Error PdpDecisionClaims
  parse_decision_token token pdp_pub now = do
    key ← require pdp_pub pdp_pub_required
    parsed ←
        require (jwt.parse default_options now token (keyfunc_for pdp_decision_type key))
          parse_decision
    guard parsed.valid invalid_decision
    ok parsed.claims

deny_found :
    PdpState → Str → Str → Time → Option PendingRequest → PdpState × Result Error (Unit {0})
deny_found st request_id approver_id now none = (st, err unknown_request)
deny_found st request_id approver_id now (some r) =
    if is_pending r.state
    then (
      audited now (entry_for denied r.env_claims r.tier request_id (denied_by approver_id) false)
          (set_request st request_id (record r { state = state_denied })),
      ok tt,
    )
    else (st, err already_decided)

-- Deny
unfoldable pub deny : PdpState → Str → Str → Time → PdpState × Result Error (Unit {0})
unfolding deny_found
deny st request_id approver_id now =
    deny_found st request_id approver_id now (lookup request_id st.pdp.pending)

-- Get
unfoldable pub get : PdpState → Str → Option PendingRequest
get st request_id = lookup request_id st.pdp.pending

pending_of : Map PendingRequest → List PendingRequest
pending_of [] = []
pending_of ((k, r) ∷ m) = let rest = pending_of m in if is_pending r.state then r ∷ rest else rest

-- ListPending, in the order of the map
unfoldable pub list_pending : PdpState → List PendingRequest
unfolding pending_of
list_pending st = pending_of st.pdp.pending
