-- ===== src/Identity/ProofLaws.antt =====
-- Per-request proofs of pkg/identity/proof.go: what they are bound to, and their replays.
use ai_agent_security.Base.{
  Bool-cases, Str, ◌==◌, eq_iff, empty-cases, ◌≡◌, refl, ◌≢◌, ◌⊎◌, ◌≤◌, ◌<◌, inl, inr, Any, All,
  true, List, [], ◌∷◌, some, ok, Result-cases, Option-cases, Bool-cases, lookup, Time, arith,
}
use ai_agent_security.Keys.{PublicKey}
use ai_agent_security.Platform.{Platform}
use ai_agent_security.Jwt.{Header, Jwt, IsSound}
use ai_agent_security.Identity.Token.{default_options, keyfunc_for}
use ai_agent_security.Identity.TokenLaws.{keyfunc_for_sound}
use ai_agent_security.Identity.Chain.{hash}
use ai_agent_security.Identity.Store.{Seen, in_memory, record_in_memory}
use ai_agent_security.Identity.StoreLaws.{
  lookup-record_in_memory, lookup-record_in_memory_live, record_in_memory-replayed,
}
use ai_agent_security.Identity.Proof.{
  agent_proof_type, AgentProofClaims, ProofValidateOptions, hash_token, has_audience, check_proof,
  check_replay, validate_proof,
}

has_audience_sound :
    (uri : Str) (as_ : List Str) → has_audience uri as_ ≡ true → Any (λ a. a ≡ uri) as_
unfolding has_audience
has_audience_sound uri [] h = cc
has_audience_sound uri (a ∷ as_) h = elim (Bool-cases (a == uri)) [
  | inl same ↦ inl ((eq_iff a uri).0 same)
  | inr other ↦ inr (has_audience_sound uri as_ (ground arith))
]

-- What an accepted proof is known to be.
pub record IsBound (std : Platform) (jwt : Jwt AgentProofClaims)
    (sound : IsSound (λ c. c.registered) jwt) (now : Time) (opts : ProofValidateOptions)
    (claims : AgentProofClaims) : Type 0 where
  pub key : PublicKey
  pub keyed : opts.workload_key ≡ some key
  pub header : Header
  pub decoded : sound.decode opts.proof_token ≡ some (header, claims)
  pub typed : header.typ ≡ some agent_proof_type
  pub signed : sound.verify key opts.proof_token ≡ true
  pub aimed : Any (λ a. a ≡ opts.request_uri) claims.registered.audience
  pub chained : claims.chain_hash ≡ hash std opts.chain
  pub transaction : (opts.txn_token ≡ []) ⊎ (claims.tth ≡ hash_token std opts.txn_token)
  pub expiry : Time
  pub expires : claims.registered.expires_at ≡ some expiry
  pub unexpired : now < expiry

-- One request to a validator that detects replays, with the two instants at which it reads the
-- clock.
pub record Request : Type 0 where
  pub parsed_at : Time
  pub recorded_at : Time
  pub opts : ProofValidateOptions

unfoldable pub serve : Platform → Jwt AgentProofClaims → List Request → Seen → Seen
serve std jwt [] seen = seen
serve std jwt (q ∷ qs) seen =
    serve std jwt qs (validate_proof std jwt in_memory q.parsed_at q.recorded_at q.opts seen).0

module _ (std : Platform) (jwt : Jwt AgentProofClaims)
    (sound : IsSound (λ c. c.registered) jwt) where
  pub check_proof-IsBound :
      (now : Time) (opts : ProofValidateOptions) (claims : AgentProofClaims)
      → check_proof std jwt now opts ≡ ok claims
      → IsBound std jwt sound now opts claims
  unfolding check_proof
  check_proof-IsBound now opts claims h = elim (Option-cases opts.workload_key) [
    | inl bad ↦ ground arith
    | inr (key, keyed) ↦
        elim (Option-cases
          (jwt.parse default_options now opts.proof_token (keyfunc_for agent_proof_type key))) [
            | inl bad ↦ ground arith
            | inr (p, parsed) ↦
                let (k, given, verified) = sound.parse_verifies _ now opts.proof_token _ p parsed in
                let (typed, same) = keyfunc_for_sound agent_proof_type key p.header k (cc) given in
                let (e, expires, live) =
                  sound.parse_expiry _ now opts.proof_token _ p parsed (inl refl) in
                let claimed : claims ≡ p.claims = ground arith in
                record {
                  key = key;
                  keyed = keyed;
                  header = p.header;
                  decoded = rw claimed (sound.parse_decodes _ now opts.proof_token _ p parsed);
                  typed = typed;
                  signed = rw same at verified;
                  aimed = rw claimed (
                      has_audience_sound opts.request_uri p.claims.registered.audience
                        (ground arith));
                  chained = ground (arith, eq_iff p.claims.chain_hash (hash std opts.chain));
                  transaction = elim (empty-cases opts.txn_token) [
                    | inl absent ↦ inl absent
                    | inr there ↦
                        inr (ground (arith, eq_iff p.claims.tth (hash_token std opts.txn_token)))
                  ];
                  expiry = e;
                  expires = rw claimed expires;
                  unexpired = live;
                }
          ]
  ]

  lookup-validate_proof :
      (q : Request) (j : Str) (e : Time) (seen : Seen)
      → q.recorded_at ≤ e
      → lookup j seen ≡ some e
      → lookup j (validate_proof std jwt in_memory q.parsed_at q.recorded_at q.opts seen).0 ≡ some e
  unfolding validate_proof check_replay
  lookup-validate_proof q j e seen early h =
      elim (Result-cases (check_proof std jwt q.parsed_at q.opts)) [
        | inr (x, bad) ↦ ground arith
        | inl (c, good) ↦ elim (Option-cases c.registered.expires_at) [
          | inl missing ↦ ground arith
          | inr (exp, expires) ↦ ground (
            arith,
            lookup-record_in_memory_live q.recorded_at c.registered.id exp j e seen h early,
          )
        ]
      ]

  pub lookup-serve :
      (qs : List Request) (j : Str) (e : Time) (seen : Seen)
      → All (λ q. q.recorded_at ≤ e) qs
      → lookup j seen ≡ some e
      → lookup j (serve std jwt qs seen) ≡ some e
  unfolding serve
  lookup-serve [] j e seen _ h = h
  lookup-serve (q ∷ qs) j e seen (early, rest) h =
      lookup-serve qs j e _ rest (lookup-validate_proof q j e seen early h)

  -- An accepted proof passed the checks, has an expiry, and is in the store with it.
  pub accepted_remembered :
      (t r : Time) (opts : ProofValidateOptions) (seen : Seen) (claims : AgentProofClaims)
      → opts.check_replay ≡ true
      → (validate_proof std jwt in_memory t r opts seen).1 ≡ ok claims
      → (e : Time) × (check_proof std jwt t opts ≡ ok claims)
        × (claims.registered.expires_at ≡ some e)
        × (lookup claims.registered.id (validate_proof std jwt in_memory t r opts seen).0 ≡ some e)
  unfolding validate_proof check_replay
  accepted_remembered t r opts seen claims on h = elim (Result-cases (check_proof std jwt t opts)) [
    | inr (x, bad) ↦ ground arith
    | inl (c, good) ↦ elim (Option-cases c.registered.expires_at) [
      | inl missing ↦ ground arith
      | inr (exp, expires) ↦ elim (Result-cases (record_in_memory r c.registered.id exp seen).1) [
        | inr (x, bad) ↦ ground arith
        | inl (u, fresh) ↦
            let same : claims ≡ c = ground arith in
            (
              exp,
              ground arith,
              ground arith,
              ground (arith, lookup-record_in_memory r c.registered.id exp seen fresh),
            )
      ]
    ]
  ]

  -- A proof whose id is in the store with a live entry is refused.
  remembered_refused :
      (t r : Time) (opts : ProofValidateOptions) (seen : Seen) (claims : AgentProofClaims)
      (e : Time)
      → opts.check_replay ≡ true
      → lookup claims.registered.id seen ≡ some e
      → r ≤ e
      → (validate_proof std jwt in_memory t r opts seen).1 ≢ ok claims
  unfolding validate_proof check_replay
  remembered_refused t r opts seen claims e on held live h =
      elim (Result-cases (check_proof std jwt t opts)) [
        | inr (x, bad) ↦ ground arith
        | inl (c, good) ↦ elim (Option-cases c.registered.expires_at) [
          | inl missing ↦ ground arith
          | inr (exp, expires) ↦
              elim (Result-cases (record_in_memory r c.registered.id exp seen).1) [
                | inr (x, bad) ↦ ground arith
                | inl (u, fresh) ↦
                    let same : claims ≡ c = ground arith in
                    ground
                      (arith, record_in_memory-replayed r claims.registered.id exp e seen held live)
              ]
        ]
      ]

  same_token_same_claims :
      (t t' : Time) (opts opts' : ProofValidateOptions) (claims claims' : AgentProofClaims)
      → opts'.proof_token ≡ opts.proof_token
      → check_proof std jwt t opts ≡ ok claims
      → check_proof std jwt t' opts' ≡ ok claims'
      → claims' ≡ claims
  same_token_same_claims t t' opts opts' claims claims' same h h' =
      let one = check_proof-IsBound t opts claims h in
      let two = check_proof-IsBound t' opts' claims' h' in
      let d : sound.decode opts.proof_token ≡ some (two.header, claims') =
        rw (← same) two.decoded in
      cc (one.decoded, d)

  -- A proof token that was accepted is refused whenever it comes again, at whatever instant it is
  -- parsed and with whatever options, if the store reads the clock no later than the token's
  -- expiry, and whatever requests come between at instants up to the expiry.
  pub validate_proof-no_replay :
      (first second : Request) (between : List Request) (seen : Seen) (claims : AgentProofClaims)
      (exp : Time)
      → first.opts.check_replay ≡ true
      → second.opts.check_replay ≡ true
      → second.opts.proof_token ≡ first.opts.proof_token
      → (validate_proof std jwt in_memory first.parsed_at first.recorded_at first.opts seen).1
        ≡ ok claims
      → claims.registered.expires_at ≡ some exp
      → All (λ q. q.recorded_at ≤ exp) between
      → second.recorded_at ≤ exp
      → (claims' : AgentProofClaims)
      → (validate_proof std jwt in_memory second.parsed_at second.recorded_at second.opts (
          serve std jwt between
            (validate_proof std jwt in_memory first.parsed_at first.recorded_at first.opts
              seen).0)).1
        ≢ ok claims'
  validate_proof-no_replay first second between seen claims exp on on' same accepted expires early
        live claims' again =
      let (e, checked, expires', held) =
        accepted_remembered first.parsed_at first.recorded_at first.opts seen claims on accepted in
      let (e', checked', _, _) =
        accepted_remembered second.parsed_at second.recorded_at second.opts _ claims' on' again in
      let equal : claims' ≡ claims =
        same_token_same_claims first.parsed_at second.parsed_at first.opts second.opts claims
          claims' same checked checked' in
      let at_exp : e ≡ exp = cc in
      let kept = lookup-serve between claims.registered.id exp _ early (rw at_exp at held) in
      remembered_refused second.parsed_at second.recorded_at second.opts _ claims exp on' kept live
        (rw (equal) at again)
