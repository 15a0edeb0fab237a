-- ===== src/Gateway/Pieces.antt =====
-- The pieces of the middleware of internal/gateway: validators, certificates, paths and bodies.
use ai_agent_security.Base.{
  ℕ, ◌^◌, ◌≤◌, Str, ◌==◌, eq_iff, Free, is_empty, take, length, ◌≡◌, refl, sym, ap, zero, suc,
  if◌then◌else◌, ◌∙◌, ◌⊎◌, inl, inr, Any, true, List, [], ◌∷◌, ◌++◌, Option, none, some, ok,
  Result-cases, Option-cases, Bool-cases, Map, Time, eqb, eqb_iff, arith,
}
use ai_agent_security.Keys.{PublicKey, Jwk}
use ai_agent_security.Platform.{Platform}
use ai_agent_security.Jwt.{Jwt}
use ai_agent_security.Identity.Errors
use ai_agent_security.Identity.Token.{
  AgentClaims, ValidatedAgent, AgentValidator, new_agent_validator, validate,
}
use ai_agent_security.X402.{colon}
use ai_agent_security.Gateway.{
  Resolver, entity_key, peek_issuer, validate_from, validate_with_any, federated,
  resolve_and_validate, Tls, has_uri, verify_mtls_binding, Body, readable, extract_tool_params,
  after_colon, tool_name_to_path,
}

module _ (std : Platform) (jwt : Jwt AgentClaims) where
  validate_from_sound :
      (last : Option Errors.Error) (vs : Map AgentValidator) (now : Time) (token : Str)
      (va : ValidatedAgent)
      → validate_from std jwt last vs now token ≡ ok va
      → Any (λ v. validate std jwt v.1 now token ≡ ok va) vs
  unfolding validate_from
  validate_from_sound none [] now token va h = cc
  validate_from_sound (some e) [] now token va h = cc
  validate_from_sound last ((issuer, v) ∷ vs) now token va h =
      elim (Result-cases (validate std jwt v now token)) [
        | inl (va', good) ↦ inl (ground arith)
        | inr (e, bad) ↦ inr (validate_from_sound (some e) vs now token va (ground arith))
      ]

  validate_from_complete :
      (last : Option Errors.Error) (vs : Map AgentValidator) (now : Time) (token : Str)
      → Any (λ v. (va : ValidatedAgent) × (validate std jwt v.1 now token ≡ ok va)) vs
      → (va : ValidatedAgent) × (validate_from std jwt last vs now token ≡ ok va)
  unfolding validate_from
  validate_from_complete last [] now token h = absurd h
  validate_from_complete last ((issuer, v) ∷ vs) now token h =
      elim (Result-cases (validate std jwt v now token)) [
        | inl (va', good) ↦ (va', ground arith)
        | inr (e, bad) ↦ elim h [
          | inl (va, good) ↦ ground arith
          | inr later ↦
              let (va, found) = validate_from_complete (some e) vs now token later in
              (va, ground arith)
        ]
      ]

  -- Validation with any of several issuers accepts a token only as an agent that one of the validators
  -- accepts it as, and accepts it whenever one of them does.
  pub validate_with_any-outcome :
      (vs : Map AgentValidator) (now : Time) (token : Str)
      → ((va : ValidatedAgent)
          → validate_with_any std jwt vs now token ≡ ok va
          → Any (λ v. validate std jwt v.1 now token ≡ ok va) vs)
        × (Any (λ v. (va : ValidatedAgent) × (validate std jwt v.1 now token ≡ ok va)) vs
            → (va : ValidatedAgent) × (validate_with_any std jwt vs now token ≡ ok va))
  unfolding validate_with_any
  validate_with_any-outcome vs now token = (
    λ va h. validate_from_sound none vs now token va h,
    λ h. validate_from_complete none vs now token h,
  )

  -- A token of an issuer in the federation: its own issuer was resolved to keys, and it validates
  -- under the first that is a P-256 key.
  pub record IsFederated {R : Type 0} (resolver : Resolver R) (now : Time) (token : Str) (r : R)
      (va : ValidatedAgent) : Type 0 where
    pub issuer : Str
    pub peeked : peek_issuer std token ≡ ok issuer
    pub jwks : List Jwk
    pub resolved : (resolver.resolve now issuer r).1 ≡ some jwks
    pub key : PublicKey
    pub first_key : entity_key jwks ≡ some key
    pub validated : validate std jwt (new_agent_validator issuer key []) now token ≡ ok va

  federated_sound :
      {R : Type 0} (resolver : Resolver R) (now : Time) (token : Str) (r : R) (va : ValidatedAgent)
      → (federated std jwt resolver now token r).1 ≡ ok va
      → IsFederated resolver now token r va
  unfolding federated
  federated_sound resolver now token r va h = elim (Result-cases (peek_issuer std token)) [
    | inr (e, bad) ↦ ground arith
    | inl (issuer, peeked) ↦ elim (Option-cases (resolver.resolve now issuer r).1) [
      | inl unresolved ↦ ground arith
      | inr (jwks, resolved) ↦ elim (Option-cases (entity_key jwks)) [
        | inl keyless ↦ ground arith
        | inr (key, first) ↦
            elim (Result-cases (validate std jwt (new_agent_validator issuer key []) now token)) [
              | inr (e, bad) ↦ ground arith
              | inl (va', good) ↦ record {
                issuer = issuer;
                peeked = peeked;
                jwks = jwks;
                resolved = resolved;
                key = key;
                first_key = first;
                validated = ground arith;
              }
            ]
      ]
    ]
  ]

  -- The agent of a leaf token is one that a static validator accepts, or one of the federation.
  abbrev pub IsKnown :
      {R : Type 0}
      → Map AgentValidator
      → Option (Resolver R)
      → Time
      → Str
      → R
      → ValidatedAgent
      → Type 0
  IsKnown vs none now token r va = Any (λ v. validate std jwt v.1 now token ≡ ok va) vs
  IsKnown vs (some resolver) now token r va =
      Any (λ v. validate std jwt v.1 now token ≡ ok va) vs ⊎ IsFederated resolver now token r va

  pub resolve_and_validate_sound :
      {R : Type 0} (vs : Map AgentValidator) (resolver : Option (Resolver R)) (now : Time)
      (token : Str) (r : R) (va : ValidatedAgent)
      → (resolve_and_validate std jwt vs resolver now token r).1 ≡ ok va
      → IsKnown vs resolver now token r va
  unfolding resolve_and_validate
  resolve_and_validate_sound vs none now token r va h =
      elim (Result-cases (validate_with_any std jwt vs now token)) [
        | inl (va', good) ↦ (validate_with_any-outcome vs now token).0 va (ground arith)
        | inr (e, bad) ↦ ground arith
      ]
  resolve_and_validate_sound vs (some resolver) now token r va h =
      elim (Result-cases (validate_with_any std jwt vs now token)) [
        | inl (va', good) ↦ inl ((validate_with_any-outcome vs now token).0 va (ground arith))
        | inr (e, bad) ↦ inr (federated_sound resolver now token r va (ground arith))
      ]

has_uri_sound : (us : List Str) (want : Str) → has_uri us want ≡ true → Any (λ u. u ≡ want) us
unfolding has_uri
has_uri_sound [] want h = cc
has_uri_sound (u ∷ us) want h = elim (Bool-cases (u == want)) [
  | inl same ↦ inl ((eq_iff u want).0 same)
  | inr other ↦ inr (has_uri_sound us want (ground arith))
]

-- The first peer certificate of the connection has this URI.
abbrev pub IsBoundTo : Str → Option Tls → Type 0
IsBoundTo want none = ⊥
IsBoundTo want (some tls) =
    (uris : List Str) × (rest : List (List Str)) × (tls.peer_uris ≡ uris ∷ rest)
    × Any (λ u. u ≡ want) uris

certificates_sound :
    (certs : List (List Str)) (want : Str)
    → verify_mtls_binding (some (record { peer_uris = certs })) want ≡ ok tt
    → IsBoundTo want (some (record { peer_uris = certs }))
unfolding verify_mtls_binding
certificates_sound [] want h = cc
certificates_sound (uris ∷ rest) want h = elim (Bool-cases (has_uri uris want)) [
  | inl there ↦ (uris, rest, refl, has_uri_sound uris want there)
  | inr missing ↦ ground arith
]

pub verify_mtls_binding_sound :
    (tls : Option Tls) (want : Str) → verify_mtls_binding tls want ≡ ok tt → IsBoundTo want tls
verify_mtls_binding_sound none want h = unfold verify_mtls_binding in cc
verify_mtls_binding_sound (some tls) want h = certificates_sound tls.peer_uris want h

after_colon-Free : (s : Str) → after_colon s ≡ none → Free colon s
unfolding after_colon
after_colon-Free [] h = tt
after_colon-Free (c ∷ s) h =
    (ground (arith, eqb_iff c colon), after_colon-Free s (ground (arith, eqb_iff c colon)))

after_colon_split :
    (s t : Str) → after_colon s ≡ some t → (p : Str) × Free colon p × (s ≡ p ++ colon ∷ t)
unfolding after_colon
after_colon_split [] t h = cc
after_colon_split (c ∷ s) t h = elim (Bool-cases (eqb c colon)) [
  | inl here ↦ ([], tt, ground (arith, eqb_iff c colon))
  | inr other ↦
      let (p, free, e) = after_colon_split s t (ground arith) in
      (c ∷ p, (ground (arith, eqb_iff c colon), free), ap (λ r. c ∷ r) e)
]

path_is : (name t : Str) → after_colon name ≡ some t → tool_name_to_path name ≡ t
unfolding tool_name_to_path
path_is name t found = ground arith

-- The path of a tool is what follows the first colon of its name, or the name if it has none.
pub tool_name_to_path-outcome :
    (name : Str)
    → ((p : Str) × Free colon p × (name ≡ p ++ colon ∷ tool_name_to_path name))
      ⊎ (Free colon name × (tool_name_to_path name ≡ name))
unfolding tool_name_to_path
tool_name_to_path-outcome name = elim (Option-cases (after_colon name)) [
  | inl none_ ↦ inr (after_colon-Free name none_, ground arith)
  | inr (t, found) ↦
      let (p, free, e) = after_colon_split name t found in
      inl (p, free, e ∙ ap (λ r. p ++ colon ∷ r) (sym (path_is name t found)))
]

take_all : (n : ℕ) (s : Str) → length s ≤ n → take n s ≡ s
take_all zero [] h = refl
take_all zero (c ∷ s) h = absurd (omega arith)
take_all (suc n) [] h = refl
take_all (suc n) (c ∷ s) h = ap (λ r. c ∷ r) (take_all n s (omega arith))

restored :
    (params : Map Str) (s body : Str)
    → body ≡ s
    → (if◌then◌else◌ {A = Map Str × Body}
        (is_empty body)
        ([], readable s)
        (params, readable body)).1
      ≡ readable s
restored params s body same = elim (Bool-cases (is_empty body)) [
  | inl nothing ↦ ground arith
  | inr full ↦ ground arith
]

-- A body of at most a megabyte reaches the upstream as it came.
pub extract_tool_params-body :
    (parse_params : Str → Option (Map Str)) (s : Str)
    → length s ≤ 2 ^ 20
    → (extract_tool_params parse_params (readable s)).1 ≡ readable s
unfolding extract_tool_params
extract_tool_params-body parse_params s h = restored _ s (take (2 ^ 20) s) (take_all (2 ^ 20) s h)
