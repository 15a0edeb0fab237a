-- ===== src/Authz/RuleLaws.antt =====
-- The rule table of internal/authz/authz.go and an independent description of what its rules grant.
use ai_agent_security.Base.{
  Str, bytes, ◌==◌, eq_iff, is_empty-false, ◌≡◌, refl, ◌≢◌, ◌↔◌, ◌⊎◌, inl, inr, true, List, [], ◌∷◌,
  ◌++◌, Any, Bool-cases, ok, arith,
}
use ai_agent_security.Authz.{
  Action, action_call, action_read, action_write, Rule, Request, Decision, allow, match_subject,
  action_satisfies, permits, first_permitting, authorize_rules,
}

-- What a granted action implies: itself, and reading.
pub data Implies : Action → Action → Type 0 where
  itself : {a b : Action} → a ≡ b → Implies a b
  call_reads : {a b : Action} → a ≡ action_call → b ≡ action_read → Implies a b
  write_reads : {a b : Action} → a ≡ action_write → b ≡ action_read → Implies a b

-- A rule grants a request.
abbrev pub Grants : Request → Rule → Type 0
Grants req r =
    ((r.subject ≡ bytes "*") ⊎ (r.subject ≡ req.subject))
    × (r.object ≡ req.object)
    × Implies r.action req.action

action_satisfies_sound : (a b : Action) → action_satisfies a b ≡ true → Implies a b
unfolding action_satisfies
action_satisfies_sound a b h = elim (Bool-cases (a == b)) [
  | inl same ↦ itself ((eq_iff a b).0 same)
  | inr other ↦ elim (Bool-cases (a == action_call)) [
    | inl call ↦
        call_reads ((eq_iff a action_call).0 call) ((eq_iff b action_read).0 (ground arith))
    | inr not_call ↦
        write_reads ((eq_iff a action_write).0 (ground arith))
          ((eq_iff b action_read).0 (ground arith))
  ]
]

action_satisfies_complete : {a b : Action} → Implies a b → action_satisfies a b ≡ true
unfolding action_satisfies ◌==◌
action_satisfies_complete (itself {a} {b} e) = ground (arith, (eq_iff a b).1 e)
action_satisfies_complete (call_reads {a} {b} e d) = rw (e, d) refl
action_satisfies_complete (write_reads {a} {b} e d) = rw (e, d) refl

match_subject_sound : (s t : Str) → match_subject s t ≡ true → (s ≡ bytes "*") ⊎ (s ≡ t)
unfolding match_subject
match_subject_sound s t h = elim (Bool-cases (s == bytes "*")) [
  | inl star ↦ inl ((eq_iff s (bytes "*")).0 star)
  | inr other ↦ inr ((eq_iff s t).0 (ground arith))
]

match_subject_complete : (s t : Str) → (s ≡ bytes "*") ⊎ (s ≡ t) → match_subject s t ≡ true
unfolding match_subject
match_subject_complete s t (inl star) = ground (arith, (eq_iff s (bytes "*")).1 star)
match_subject_complete s t (inr same) = ground (arith, (eq_iff s t).1 same)

permits_iff : (r : Rule) (req : Request) → (permits r req ≡ true) ↔ Grants req r
unfolding permits
permits_iff r req = (
  λ h. (
    match_subject_sound r.subject req.subject (ground arith),
    (eq_iff r.object req.object).0 (ground arith),
    action_satisfies_sound r.action req.action (ground arith),
  ),
  λ (s, o, a). ground (
    arith,
    match_subject_complete r.subject req.subject s,
    (eq_iff r.object req.object).1 o,
    action_satisfies_complete a,
  ),
)

first_permitting_iff :
    (rules : List Rule) (req : Request)
    → ((first_permitting rules req).allowed ≡ true) ↔ Any (Grants req) rules
unfolding first_permitting
first_permitting_iff [] req = (λ h. cc, λ h. absurd h)
first_permitting_iff (r ∷ rs) req =
    let rest = first_permitting_iff rs req in
    elim (Bool-cases (permits r req)) [
      | inl yes_ ↦ (λ h. inl ((permits_iff r req).0 yes_), λ h. ground arith)
      | inr no_ ↦ (
        λ h. inr (rest.0 (ground arith)),
        λ h. elim h [
          | inl g ↦ let granted = (permits_iff r req).1 g in cc
          | inr later ↦ let allowed = rest.1 later in ground arith
        ],
      )
    ]

-- The table allows a request exactly if its subject and its object are given and one of the rules
-- grants it: to this subject or to all, on this object, for an action that implies the requested one.
pub authorize_rules_iff :
    (rules : List Rule) (req : Request)
    → ((d : Decision) × (authorize_rules rules req ≡ ok d) × (d.allowed ≡ true))
      ↔ ((req.subject ≢ []) × (req.object ≢ []) × Any (Grants req) rules)
unfolding authorize_rules
authorize_rules_iff rules req =
    let table = first_permitting_iff rules req in
    (
      λ (d, e, allowed).
          (λ no_subject. ground arith, λ no_object. ground arith, table.0 (ground arith)),
      λ (subject, object, granted). (
        first_permitting rules req,
        ground (arith, is_empty-false req.subject subject, is_empty-false req.object object),
        table.1 granted,
      ),
    )

Any-append :
    (req : Request) (rules : List Rule) (r : Rule)
    → Any (Grants req) rules ⊎ Grants req r
    → Any (Grants req) (rules ++ r ∷ [])
Any-append req [] r (inl h) = absurd h
Any-append req [] r (inr g) = inl g
Any-append req (q ∷ rules) r (inl (inl g)) = inl g
Any-append req (q ∷ rules) r (inl (inr h)) = inr (Any-append req rules r (inl h))
Any-append req (q ∷ rules) r (inr g) = inr (Any-append req rules r (inr g))

-- A request that a table allows stays allowed when a rule is added, and the rule that is added
-- allows what it grants.
pub authorize_rules-allow :
    (rules : List Rule) (subject object : Str) (action : Action) (req : Request)
    → req.subject ≢ []
    → req.object ≢ []
    → Any (Grants req) rules
      ⊎ Grants req (record { subject = subject; object = object; action = action })
    → (d : Decision) × (authorize_rules (allow rules subject object action) req ≡ ok d)
      × (d.allowed ≡ true)
unfolding allow
authorize_rules-allow rules subject object action req some_subject some_object h =
    (authorize_rules_iff (allow rules subject object action) req).1 (
      some_subject,
      some_object,
      Any-append req rules (record { subject = subject; object = object; action = action }) h,
    )
