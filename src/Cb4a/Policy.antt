-- ===== src/Cb4a/Policy.antt =====
-- The policy of pkg/cb4a/pdp.go: rules, matching and the default rule set.
use ai_agent_security.Base.{ℕ, Str, bytes, ◌==◌, Bool, true, ◌&&◌, List, [], ◌∷◌, if◌then◌else◌}
use ai_agent_security.Cb4a.Glob.{path_match}

-- ApprovalTier
abbrev pub tier_auto : ℕ
tier_auto = 1

abbrev pub tier_hitl : ℕ
tier_hitl = 2

abbrev pub tier_mfa : ℕ
tier_mfa = 3

pub record PolicyRule : Type 0 where
  pub agent_pattern : Str
  pub scope_pattern : Str
  pub tier : ℕ

-- matchPattern
unfoldable pub match_pattern : Str → Str → Bool
match_pattern pattern_text value =
    if pattern_text == bytes "*" then true else path_match pattern_text value

-- The test of one rule in evaluateTier.
unfoldable pub rule_matches : PolicyRule → Str → Str → Bool
rule_matches rule svid scope =
    match_pattern rule.agent_pattern svid && match_pattern rule.scope_pattern scope

-- evaluateTier
unfoldable pub evaluate_tier : List PolicyRule → Str → Str → ℕ
evaluate_tier [] svid scope = tier_hitl
evaluate_tier (rule ∷ rules) svid scope =
    if rule_matches rule svid scope then rule.tier else evaluate_tier rules svid scope

abbrev rule_for : Str → Str → ℕ → PolicyRule
rule_for agent scope tier = record { agent_pattern = agent; scope_pattern = scope; tier = tier }

-- DefaultPolicyRules
unfoldable pub default_policy_rules : List PolicyRule
default_policy_rules =
    rule_for (bytes "spiffe://*/admin/*") (bytes "*") tier_mfa
    ∷ rule_for (bytes "spiffe://*/ci/*") (bytes "*") tier_hitl
    ∷ rule_for (bytes "*") (bytes "billing:*:write") tier_hitl
    ∷ rule_for (bytes "*") (bytes "stripe:*:write") tier_hitl
    ∷ rule_for (bytes "*") (bytes "payment:AGENT_CREDIT:50") tier_auto
    ∷ rule_for (bytes "*") (bytes "payment:*") tier_hitl
    ∷ rule_for (bytes "*") (bytes "*:read") tier_auto
    ∷ rule_for (bytes "*") (bytes "*:*:read") tier_auto
    ∷ rule_for (bytes "*") (bytes "*") tier_hitl
    ∷ []
