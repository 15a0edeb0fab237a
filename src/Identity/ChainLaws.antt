-- ===== src/Identity/ChainLaws.antt =====
-- Delegation chains of pkg/identity/chain.go: the wire format and validation.
use ai_agent_security.Base.{
  ℕ, suc, Str, split, join, join-split, split-join, split-ne-nil, split-Free, Free, is_empty-false,
  ◌≡◌, refl, ◌≢◌, ◌↔◌, inl, inr, Result-cases, Option-cases, List, [], ◌∷◌, some, ok, All, Map,
  lookup, Time, pos, arith,
}
use ai_agent_security.Platform.{Platform}
use ai_agent_security.Jwt.{Jwt}
use ai_agent_security.Identity.Token.{AgentClaims, ValidatedAgent, AgentValidator, validate}
use ai_agent_security.Identity.Chain.{
  AgentChain, tilde, check_parts, parse_chain, to_string, is_depth, peek_issuer, validate_token,
  validate_from, validate_chain,
}

-- A token that can stand in the wire format.
abbrev pub IsToken : Str → Type 0
IsToken t = (t ≢ []) × Free tilde t

check_parts_sound : (i : ℕ) (ps : List Str) → check_parts i ps ≡ ok tt → All (λ p. p ≢ []) ps
unfolding check_parts
check_parts_sound i [] h = tt
check_parts_sound i ([] ∷ ps) h = cc
check_parts_sound i ((b ∷ p) ∷ ps) h = (cc, check_parts_sound (suc i) ps h)

check_parts_complete : (i : ℕ) (ps : List Str) → All IsToken ps → check_parts i ps ≡ ok tt
unfolding check_parts
check_parts_complete i [] h = refl
check_parts_complete i ([] ∷ ps) ((ne, _), _) = absurd (ne refl)
check_parts_complete i ((b ∷ p) ∷ ps) (_, h) = check_parts_complete (suc i) ps h

All-both : (P Q : Str → Type 0) (xs : List Str) → All P xs → All Q xs → All (λ x. P x × Q x) xs
All-both P Q [] h k = tt
All-both P Q (x ∷ xs) (p, h) (q, k) = ((p, q), All-both P Q xs h k)

All-second : (P Q : Str → Type 0) (xs : List Str) → All (λ x. P x × Q x) xs → All Q xs
All-second P Q [] h = tt
All-second P Q (x ∷ xs) ((p, q), h) = (q, All-second P Q xs h)

join-ne-nil : (ps : List Str) → ps ≢ [] → All IsToken ps → join tilde ps ≢ []
unfolding join
join-ne-nil [] ne h = absurd (ne refl)
join-ne-nil (p ∷ []) ne ((h, _), _) = h
join-ne-nil ([] ∷ q ∷ ps) ne ((h, _), _) = absurd (h refl)
join-ne-nil ((b ∷ p) ∷ q ∷ ps) ne h = cc

parse_chain_sound :
    (s : Str) (c : AgentChain) → parse_chain s ≡ ok c → (to_string c ≡ s) × (c ≢ []) × All IsToken c
unfolding parse_chain to_string
parse_chain_sound s c h = elim (Result-cases (check_parts 0 (split tilde s))) [
  | inr (e, bad) ↦ ground arith
  | inl (u, good) ↦
      let same : c ≡ split tilde s = ground arith in
      rw same (
        join-split tilde s,
        split-ne-nil tilde s,
        All-both _ _ (split tilde s) (check_parts_sound 0 (split tilde s) good)
            (split-Free tilde s),
      )
]

parse_chain_complete : (c : AgentChain) → c ≢ [] → All IsToken c → parse_chain (to_string c) ≡ ok c
unfolding parse_chain to_string
parse_chain_complete c ne h = ground (
  arith,
  split-join tilde c ne (All-second _ _ c h),
  check_parts_complete 0 c h,
  is_empty-false (join tilde c) (join-ne-nil c ne h),
)

-- ParseChain accepts a text exactly as the chain whose wire format it is: a chain with a token, and
-- with no token empty or holding a '~'.
pub parse_chain_iff :
    (s : Str) (c : AgentChain)
    → (parse_chain s ≡ ok c) ↔ ((to_string c ≡ s) × (c ≢ []) × All IsToken c)
parse_chain_iff s c = (parse_chain_sound s c, λ (e, ne, h). rw (← e) (parse_chain_complete c ne h))

module _ (std : Platform) (jwt : Jwt AgentClaims) (validators : Map AgentValidator)
    (now : Time) where
  -- What validation establishes of one token at one position.
  pub record Attests (i : ℕ) (tok : Str) (va : ValidatedAgent) : Type 0 where
    pub issuer : Str
    pub validator : AgentValidator
    pub peeked : peek_issuer std tok ≡ ok issuer
    pub trusted : lookup issuer validators ≡ some validator
    pub validated : validate std jwt validator now tok ≡ ok va
    pub at_depth : va.claims.chain_depth ≡ pos i

  -- Token by token, from position `i` on.
  abbrev pub AttestsFrom : ℕ → AgentChain → List ValidatedAgent → Type 0
  AttestsFrom i [] [] = Unit
  AttestsFrom i [] (va ∷ vas) = ⊥
  AttestsFrom i (tok ∷ toks) [] = ⊥
  AttestsFrom i (tok ∷ toks) (va ∷ vas) = Attests i tok va × AttestsFrom (suc i) toks vas

  validate_token_sound :
      (i : ℕ) (tok : Str) (va : ValidatedAgent)
      → validate_token std jwt validators now i tok ≡ ok va
      → Attests i tok va
  unfolding validate_token is_depth
  validate_token_sound i tok va h = elim (Result-cases (peek_issuer std tok)) [
    | inr (e, bad) ↦ ground arith
    | inl (issuer, peeked) ↦ elim (Option-cases (lookup issuer validators)) [
      | inl missing ↦ ground arith
      | inr (v, trusted) ↦ record {
        issuer = issuer;
        validator = v;
        peeked = peeked;
        trusted = trusted;
        validated = ground arith;
        at_depth = ground arith;
      }
    ]
  ]

  validate_token_complete :
      (i : ℕ) (tok : Str) (va : ValidatedAgent)
      → Attests i tok va
      → validate_token std jwt validators now i tok ≡ ok va
  unfolding validate_token is_depth
  validate_token_complete i tok va a =
      rw (a.peeked, a.trusted, a.validated, a.at_depth) (ground arith)

  validate_from_sound :
      (i : ℕ) (c : AgentChain) (vas : List ValidatedAgent)
      → validate_from std jwt validators now i c ≡ ok vas
      → AttestsFrom i c vas
  unfolding validate_from
  validate_from_sound i [] [] h = tt
  validate_from_sound i [] (va ∷ vas) h = cc
  validate_from_sound i (tok ∷ toks) vas h =
      elim (Result-cases (validate_token std jwt validators now i tok)) [
        | inr (e, bad) ↦ cc (rw (bad) at h)
        | inl (va, good) ↦ elim (Result-cases (validate_from std jwt validators now (suc i) toks)) [
          | inr (e, bad) ↦ ground arith
          | inl (rest, goods) ↦
              let same : vas ≡ va ∷ rest = ground arith in
              rw same
                (validate_token_sound i tok va good, validate_from_sound (suc i) toks rest goods)
        ]
      ]

  validate_from_complete :
      (i : ℕ) (c : AgentChain) (vas : List ValidatedAgent)
      → AttestsFrom i c vas
      → validate_from std jwt validators now i c ≡ ok vas
  unfolding validate_from
  validate_from_complete i [] [] h = refl
  validate_from_complete i [] (va ∷ vas) h = absurd h
  validate_from_complete i (tok ∷ toks) [] h = absurd h
  validate_from_complete i (tok ∷ toks) (va ∷ vas) (a, h) =
      rw (validate_token_complete i tok va a, validate_from_complete (suc i) toks vas h)

  -- Validate returns a list of agents exactly when the chain has a token, and at each position `i`
  -- the token's own issuer has a validator that accepts it as the agent at `i`, with depth `i`.
  pub validate_chain_iff :
      (c : AgentChain) (vas : List ValidatedAgent)
      → (validate_chain std jwt validators now c ≡ ok vas) ↔ ((c ≢ []) × AttestsFrom 0 c vas)
  unfolding validate_chain
  validate_chain_iff [] vas = (λ h. cc, λ (ne, _). absurd (ne refl))
  validate_chain_iff (tok ∷ toks) vas = (
    λ h. (cc, validate_from_sound 0 (tok ∷ toks) vas h),
    λ (_, a). validate_from_complete 0 (tok ∷ toks) vas a,
  )
