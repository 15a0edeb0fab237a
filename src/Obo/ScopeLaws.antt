-- ===== src/Obo/ScopeLaws.antt =====
-- Scopes of on-behalf-of tokens: what resolveScope grants.
use ai_agent_security.Base.{
  Str, ◌==◌, eq_iff, is_empty-false, fields, join, ◌≡◌, refl, ◌≢◌, ◌↔◌, ◌⊎◌, inl, inr, true, List,
  [], ◌∷◌, ok, All, Any, Bool-cases, Result-cases, arith,
}
use ai_agent_security.Obo.{member, check_scopes, resolve_scope}

pub member_sound : (s : Str) (ts : List Str) → member s ts ≡ true → Any (λ t. t ≡ s) ts
unfolding member
member_sound s [] h = cc
member_sound s (t ∷ ts) h = elim (Bool-cases (t == s)) [
  | inl same ↦ inl ((eq_iff t s).0 same)
  | inr other ↦ inr (member_sound s ts (ground arith))
]

pub member_complete : (s : Str) (ts : List Str) → Any (λ t. t ≡ s) ts → member s ts ≡ true
unfolding member
member_complete s [] h = absurd h
member_complete s (t ∷ ts) (inl same) = ground (arith, (eq_iff t s).1 same)
member_complete s (t ∷ ts) (inr rest) = ground (arith, member_complete s ts rest)

-- Each of the scopes is among the granted ones.
abbrev pub AreGranted : List Str → List Str → Type 0
AreGranted granted ss = All (λ s. Any (λ g. g ≡ s) granted) ss

check_scopes_sound :
    (granted ss : List Str) → check_scopes granted ss ≡ ok tt → AreGranted granted ss
unfolding check_scopes
check_scopes_sound granted [] h = tt
check_scopes_sound granted (s ∷ ss) h =
    (member_sound s granted (ground arith), check_scopes_sound granted ss (ground arith))

check_scopes_complete :
    (granted ss : List Str) → AreGranted granted ss → check_scopes granted ss ≡ ok tt
unfolding check_scopes
check_scopes_complete granted [] h = refl
check_scopes_complete granted (s ∷ ss) (there, rest) =
    ground (arith, member_complete s granted there, check_scopes_complete granted ss rest)

-- What a request for scopes should be granted: all that the user has if nothing is requested, else
-- the requested words, each of which the user has.
abbrev pub Grants : Str → Str → Str → Type 0
Grants granted requested s =
    ((requested ≡ []) × (s ≡ granted))
    ⊎ ((requested ≢ [])
        × (s ≡ join 32 (fields requested))
        × AreGranted (fields granted) (fields requested))

Grants_of_resolve :
    (granted requested s : Str)
    → resolve_scope granted requested ≡ ok s
    → Grants granted requested s
unfolding resolve_scope
Grants_of_resolve granted [] s h = inl (refl, ground arith)
Grants_of_resolve granted (b ∷ r) s h =
    elim (Result-cases (check_scopes (fields granted) (fields (b ∷ r)))) [
      | inl (u, passed) ↦
          inr ((λ e. cc), ground arith, check_scopes_sound (fields granted) (fields (b ∷ r)) passed)
      | inr (e, refused) ↦ ground arith
    ]

resolve_of_Grants :
    (granted requested s : Str)
    → Grants granted requested s
    → resolve_scope granted requested ≡ ok s
unfolding resolve_scope
resolve_of_Grants granted requested s (inl (none_asked, all)) = rw (none_asked, all) refl
resolve_of_Grants granted requested s (inr (asked, words, there)) = ground (
  arith,
  is_empty-false requested asked,
  check_scopes_complete (fields granted) (fields requested) there,
)

-- resolveScope grants a scope exactly if it is the one that the request should be granted: all that
-- the user has if nothing is requested, else the requested words joined by blanks, and each of them
-- is a word of what the user has.
pub resolve_scope_iff :
    (granted requested s : Str)
    → (resolve_scope granted requested ≡ ok s) ↔ Grants granted requested s
resolve_scope_iff granted requested s =
    (Grants_of_resolve granted requested s, resolve_of_Grants granted requested s)
