-- ===== src/Samples/Broker.antt =====
-- Requests at the decision point.
use ai_agent_security.Base.{
  bytes, ◌==◌, List, [], ◌∷◌, none, some, ok, err, ◌≡◌, refl, ◌⊎◌, inl, pos, arith, lookup, insert,
}
use ai_agent_security.Jwt.{Jwt}
use ai_agent_security.Cb4a.Envelope.{already_decided, EnvelopeClaims}
use ai_agent_security.Cb4a.Glob.{path_match}
use ai_agent_security.Cb4a.Policy.{
  PolicyRule, tier_hitl, evaluate_tier, rule_matches, match_pattern, default_policy_rules,
}
use ai_agent_security.Cb4a.PolicyLaws.{EndsWith, read_suffix, default_policy_rules-auto}
use ai_agent_security.Cb4a.Pdp.{
  PdpDecisionClaims, PendingRequest, PdpState, state_pending, new_pdp, evaluate, approve, deny,
  issue_decision, audited, set_request,
}
use ai_agent_security.Cb4a.PdpLaws.{Op, submit, deny_by, run_op, run_ops, decided_once}
use ai_agent_security.Cb4a.PdpPolicy.{IsApproval, approve-policy}
use ai_agent_security.Cb4a.PdpRequests.{Fits}
use ai_agent_security.Samples.Stubs.{std, base_key}

default_policy_rules-auto_example :
    (bytes "repos:read" ≡ bytes "payment:AGENT_CREDIT:50")
    ⊎ EndsWith read_suffix (bytes "repos:read")
unfolding evaluate_tier default_policy_rules rule_matches match_pattern ◌==◌ path_match
default_policy_rules-auto_example =
    default_policy_rules-auto (bytes "spiffe://d/agent") (bytes "repos:read") refl

-- A signer that always answers.
abbrev decision_jwt : Jwt PdpDecisionClaims
decision_jwt = record {
  parse = λ opts now token keyfunc. none;
  sign = λ h c key. some (bytes "decision");
  numeric_date = λ t. t;
}

abbrev envelope : EnvelopeClaims
envelope = record {
  registered = record {
    issuer = [];
    subject = bytes "spiffe://d/agent";
    audience = [];
    expires_at = some 900;
    not_before = some 100;
    issued_at = some 100;
    id = bytes "e1";
  };
  agent_svid = bytes "spiffe://d/agent";
  target = bytes "github";
  action = bytes "push";
  scope = bytes "repos:write";
  justification = bytes "release";
}

abbrev house_rules : List PolicyRule
house_rules = record { agent_pattern = bytes "*"; scope_pattern = bytes "*"; tier = tier_hitl } ∷ []

abbrev start : PdpState
start = new_pdp (bytes "pdp") base_key house_rules (pos 60) []

abbrev submission : List Op
submission = submit (some envelope) 100 (bytes "r1") (bytes "d1") ∷ []

abbrev parked : PdpState
parked = run_ops std decision_jwt submission start

abbrev decided : PdpState
decided = (approve decision_jwt parked (bytes "r1") (bytes "alice") 110 (bytes "d2")).0

approved_first :
    (approve decision_jwt parked (bytes "r1") (bytes "alice") 110 (bytes "d2")).1
    ≡ ok (bytes "decision")
unfolding approve run_ops run_op lookup insert evaluate evaluate_tier rule_matches match_pattern
    new_pdp set_request audited issue_decision ◌==◌
approved_first = refl

approved_whole :
    approve decision_jwt parked (bytes "r1") (bytes "alice") 110 (bytes "d2")
    ≡ (decided, ok (bytes "decision"))
approved_whole = ground (arith, approved_first)

decided_once_example :
    (approve decision_jwt
        (run_ops std decision_jwt (deny_by (bytes "r1") (bytes "bob") 120 ∷ []) decided)
        (bytes "r1")
        (bytes "carol")
        130
        (bytes "d3")
      ≡ (
        run_ops std decision_jwt (deny_by (bytes "r1") (bytes "bob") 120 ∷ []) decided,
        err already_decided,
      ))
    × (deny
          (run_ops std decision_jwt (deny_by (bytes "r1") (bytes "bob") 120 ∷ []) decided)
          (bytes "r1")
          (bytes "carol")
          130
        ≡ (
          run_ops std decision_jwt (deny_by (bytes "r1") (bytes "bob") 120 ∷ []) decided,
          err already_decided,
        ))
decided_once_example =
    decided_once std decision_jwt parked decided (bytes "r1") (bytes "alice") 110 (bytes "d2")
      (deny_by (bytes "r1") (bytes "bob") 120 ∷ []) (inl (bytes "decision", approved_whole))
      (tt, tt) (bytes "carol") 130 (bytes "d3")

approve-policy_example :
    (r : PendingRequest) × (lookup (bytes "r1") parked.pdp.pending ≡ some r)
    × (r.state ≡ state_pending)
    × Fits house_rules (bytes "r1") r
    × IsApproval decision_jwt
        (bytes "pdp")
        base_key
        (pos 60)
        r
        (bytes "r1")
        (bytes "alice")
        110
        (bytes "decision")
approve-policy_example =
    approve-policy std decision_jwt (bytes "pdp") base_key house_rules (pos 60) [] submission
      (bytes "r1") (bytes "alice") 110 (bytes "d2") (bytes "decision") approved_first
