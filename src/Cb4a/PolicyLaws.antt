-- ===== src/Cb4a/PolicyLaws.antt =====
-- The policy of pkg/cb4a/pdp.go and an independent description of it.
use ai_agent_security.Base.{
  ℕ, Str, bytes, ◌==◌, ◌≡◌, sym, ap, ◌∙◌, ◌↔◌, ◌⊎◌, inl, inr, true, false, List, [], ◌∷◌, ◌++◌, map,
  Bool-cases, eqb_iff, arith,
}
use mathlib.Core.List.{append_assoc}
use mathlib.Core.Path.{ap₂}
use ai_agent_security.Cb4a.Glob.{lit, Item, star, one, accepts, match_items, path_match}
use ai_agent_security.Cb4a.GlobLaws.{
  Matches, Matches-nil, Matches-one, Matches-star, match_items_iff,
}
use ai_agent_security.Cb4a.Policy.{
  tier_auto, tier_hitl, PolicyRule, match_pattern, rule_matches, evaluate_tier,
  default_policy_rules,
}

-- The tier of the first rule that matches; a human decides where none does.
pub data FirstMatch (svid scope : Str) : List PolicyRule → ℕ → Type 0 where
  fallback : {t : ℕ} → t ≡ tier_hitl → FirstMatch svid scope [] t
  hit :
      {r : PolicyRule} {rs : List PolicyRule} {t : ℕ}
      → rule_matches r svid scope ≡ true
      → t ≡ r.tier
      → FirstMatch svid scope (r ∷ rs) t
  miss :
      {r : PolicyRule} {rs : List PolicyRule} {t : ℕ}
      → rule_matches r svid scope ≡ false
      → FirstMatch svid scope rs t
      → FirstMatch svid scope (r ∷ rs) t

FirstMatch-sound :
    (svid scope : Str) (rs : List PolicyRule) (t : ℕ)
    → evaluate_tier rs svid scope ≡ t
    → FirstMatch svid scope rs t
unfolding evaluate_tier
FirstMatch-sound svid scope [] t h = fallback (sym h)
FirstMatch-sound svid scope (r ∷ rs) t h = elim (Bool-cases (rule_matches r svid scope)) [
  | inl yes_ ↦ hit yes_ (ground arith)
  | inr no_ ↦ miss no_ (FirstMatch-sound svid scope rs t (ground arith))
]

FirstMatch-complete :
    {svid scope : Str} {rs : List PolicyRule} {t : ℕ}
    → FirstMatch svid scope rs t
    → evaluate_tier rs svid scope ≡ t
unfolding evaluate_tier
FirstMatch-complete (fallback e) = sym e
FirstMatch-complete (hit yes_ e) = rw yes_ (sym e)
FirstMatch-complete (miss no_ m) = rw no_ (FirstMatch-complete m)

-- The tier of a request is the tier of the first rule whose two patterns match, and human approval
-- where none does.
pub evaluate_tier_iff :
    (rs : List PolicyRule) (svid scope : Str) (t : ℕ)
    → (evaluate_tier rs svid scope ≡ t) ↔ FirstMatch svid scope rs t
evaluate_tier_iff rs svid scope t = (FirstMatch-sound svid scope rs t, FirstMatch-complete)

literals : Str → List Item
literals w = map (λ c. one (lit c)) w

Matches-literals : (w s : Str) → Matches (literals w) s → s ≡ w
unfolding literals accepts
Matches-literals [] s m = Matches-nil m
Matches-literals (d ∷ w) s m =
    let (c, t, e, a, rest) = Matches-one m in
    let same : c ≡ d = (eqb_iff c d).0 a in e ∙ ap₂ (λ b r. b ∷ r) same (Matches-literals w t rest)

-- A text that ends in `suffix`.
abbrev pub EndsWith : Str → Str → Type 0
EndsWith suffix s = (u : Str) × (s ≡ u ++ suffix)

match_star_literals : (w s : Str) → match_items (star ∷ literals w) s ≡ true → EndsWith w s
match_star_literals w s h =
    let (u, t, e, m) = Matches-star ((match_items_iff _ s).0 h) in
    (u, e ∙ ap (λ r. u ++ r) (Matches-literals w t m))

abbrev pub read_suffix : Str
read_suffix = bytes ":read"

-- The three patterns of the default rules that lead to automatic approval.
auto_payment :
    (scope : Str)
    → match_pattern (bytes "payment:AGENT_CREDIT:50") scope ≡ true
    → scope ≡ bytes "payment:AGENT_CREDIT:50"
unfolding match_pattern path_match literals ◌==◌
auto_payment scope h =
    Matches-literals (bytes "payment:AGENT_CREDIT:50") scope ((match_items_iff _ scope).0 h)

auto_read : (scope : Str) → match_pattern (bytes "*:read") scope ≡ true → EndsWith read_suffix scope
unfolding match_pattern path_match literals ◌==◌
auto_read scope h = match_star_literals read_suffix scope h

auto_read_deep :
    (scope : Str) → match_pattern (bytes "*:*:read") scope ≡ true → EndsWith read_suffix scope
unfolding match_pattern path_match literals ◌==◌
auto_read_deep scope h =
    let (u, t, e, m) = Matches-star ((match_items_iff _ scope).0 h) in
    let (c, t', e', a, m') = Matches-one {p = lit b':'} m in
    let (u', t'', e'', m'') = Matches-star m' in
    let tail_eq = Matches-literals read_suffix t'' m'' in
    (
      u ++ c ∷ u',
      e
          ∙ ap (λ r. u ++ r) (e' ∙ ap (λ r. c ∷ r) (e'' ∙ ap (λ r. u' ++ r) tail_eq))
          ∙ sym (append_assoc u (c ∷ u') read_suffix),
    )

-- Under the default rules nothing is approved without a human but the scope of the payment of 50
-- and scopes that end in ":read", whatever the agent.
pub default_policy_rules-auto :
    (svid scope : Str)
    → evaluate_tier default_policy_rules svid scope ≡ tier_auto
    → (scope ≡ bytes "payment:AGENT_CREDIT:50") ⊎ EndsWith read_suffix scope
unfolding evaluate_tier default_policy_rules rule_matches
default_policy_rules-auto svid scope h =
    elim (Bool-cases (match_pattern (bytes "payment:AGENT_CREDIT:50") scope)) [
      | inl yes_ ↦ inl (auto_payment scope yes_)
      | inr no_ ↦ elim (Bool-cases (match_pattern (bytes "*:read") scope)) [
        | inl yes_ ↦ inr (auto_read scope yes_)
        | inr no_' ↦ elim (Bool-cases (match_pattern (bytes "*:*:read") scope)) [
          | inl yes_ ↦ inr (auto_read_deep scope yes_)
          | inr no_'' ↦ ground arith
        ]
      ]
    ]
