-- ===== src/Txntoken/Laws.antt =====
-- Transaction tokens: what Validate accepts, and that it accepts what Issue made.
use ai_agent_security.Base.{
  Bool-cases, eqb, eqb_iff, ap, sym, some, false, ◌⊎◌, ℤ, pos, negsuc, is_zero, empty-cases, Str,
  is_empty-false, ◌≡◌, refl, ◌≢◌, ◌≤◌, ◌<◌, inl, inr, [], ◌∷◌, ok, Time, add_time, Result-cases,
  arith,
}
use ai_agent_security.Jwt.{Jwt, IsSound, IsComplete}
use ai_agent_security.Memory.{hex_encode}
use ai_agent_security.Tokens.{typed_header, issuer_options, parse_typed}
use ai_agent_security.Tokens.Laws.{
  IsVerified, parse_typed-IsVerified, parse_typed-issuer, parse_typed-sign,
}
use ai_agent_security.Txntoken.{
  token_type, Claims, Issuer, IssueOptions, Validator, txn_id_of, ttl_of, issued_claims, issue,
  validate,
}

pub record IsTransaction (jwt : Jwt Claims) (sound : IsSound (λ c. c.registered) jwt)
    (v : Validator) (token : Str) (now : Time) (c : Claims) : Type 0 where
  pub verified : IsVerified (λ c. c.registered) jwt sound token_type v.pub_key now token c
  pub issued : c.registered.issuer ≡ v.issuer_id
  pub identified : c.txn ≢ []

is_zero-false : (d : ℤ) → d ≢ pos 0 → is_zero d ≡ false
is_zero-false (pos n) h = elim (Bool-cases (eqb n 0)) [
  | inl zero_ ↦ absurd (h (ap pos ((eqb_iff n 0).0 zero_)))
  | inr other ↦ other
]
is_zero-false (negsuc n) h = refl

txn_id_of-ne-nil : (opts : IssueOptions) (drawn : Str) → drawn ≢ [] → txn_id_of opts drawn ≢ []
unfolding txn_id_of hex_encode
txn_id_of-ne-nil opts [] full = absurd (full refl)
txn_id_of-ne-nil opts (b ∷ s) full = λ e. ground (arith, e)

-- The lifetime of a token: the one given, or that of the issuer where zero is.
abbrev pub HasLifetime : Issuer → IssueOptions → ℤ → Type 0
HasLifetime s opts ttl =
    ((opts.ttl ≡ pos 0) × (ttl ≡ s.ttl)) ⊎ ((opts.ttl ≢ pos 0) × (ttl ≡ opts.ttl))

-- The claims that a token should have that was issued for these options.
pub record IsIssued (jwt : Jwt Claims) (s : Issuer) (opts : IssueOptions) (ttl : ℤ)
    (issued_at : Time) (drawn : Str) (c : Claims) : Type 0 where
  pub issuer : c.registered.issuer ≡ s.issuer_id
  pub subject : c.registered.subject ≡ opts.subject
  pub audiences : c.registered.audience ≡ opts.audiences
  pub expires : c.registered.expires_at ≡ some (jwt.numeric_date (add_time issued_at ttl))
  pub begun : c.registered.issued_at ≡ some (jwt.numeric_date issued_at)
  pub transaction :
      ((opts.txn_id ≢ []) × (c.txn ≡ opts.txn_id))
      ⊎ ((opts.txn_id ≡ []) × (c.txn ≡ hex_encode drawn))
  pub actor_is : c.act ≡ opts.actor
  pub context : c.req_ctx ≡ opts.req_ctx
  pub details : c.az_details ≡ opts.az_details

ttl_of-HasLifetime :
    (s : Issuer) (opts : IssueOptions) (ttl : ℤ) → HasLifetime s opts ttl → ttl_of s opts ≡ ttl
unfolding ttl_of
ttl_of-HasLifetime s opts ttl (inl (zero_, lasts)) = rw zero_ (sym lasts)
ttl_of-HasLifetime s opts ttl (inr (given, lasts)) = rw (is_zero-false opts.ttl given) (sym lasts)

txn_id_of-cases :
    (opts : IssueOptions) (drawn : Str)
    → ((opts.txn_id ≢ []) × (txn_id_of opts drawn ≡ opts.txn_id))
      ⊎ ((opts.txn_id ≡ []) × (txn_id_of opts drawn ≡ hex_encode drawn))
unfolding txn_id_of
txn_id_of-cases opts drawn = elim (empty-cases opts.txn_id) [
  | inl absent ↦ inr (absent, rw absent refl)
  | inr there ↦ inl ((λ e. ground (arith, e)), ground arith)
]

module _ (jwt : Jwt Claims) where
  issued_claims-IsIssued :
      (s : Issuer) (opts : IssueOptions) (ttl : ℤ) (issued_at : Time) (drawn : Str)
      → HasLifetime s opts ttl
      → IsIssued jwt s opts ttl issued_at drawn (issued_claims jwt s opts issued_at drawn)
  unfolding issued_claims
  issued_claims-IsIssued s opts ttl issued_at drawn lasts = record {
    issuer = refl;
    subject = refl;
    audiences = refl;
    expires =
        ap (λ d. some (jwt.numeric_date (add_time issued_at d)))
          (ttl_of-HasLifetime s opts ttl lasts);
    begun = refl;
    transaction = txn_id_of-cases opts drawn;
    actor_is = refl;
    context = refl;
    details = refl;
  }

  -- A transaction token that is accepted is of the type "txntoken+jwt", verified under the key of the
  -- issuer, of that issuer, not expired, and names a transaction, if the JWT library is sound.
  pub validate-IsTransaction :
      (sound : IsSound (λ c. c.registered) jwt) (v : Validator) (token : Str) (now : Time)
      (c : Claims)
      → validate jwt v token now ≡ ok c
      → IsTransaction jwt sound v token now c
  unfolding validate
  validate-IsTransaction sound v token now c h =
      let opts = issuer_options v.issuer_id in
      elim (Result-cases (parse_typed jwt opts token_type v.pub_key now token)) [
        | inr (e, bad) ↦ ground arith
        | inl (c', parsed) ↦
            let claims_are : c ≡ c' = ground arith in
            let parsed' : parse_typed jwt opts token_type v.pub_key now token ≡ ok c =
              rw claims_are parsed in
            record {
              verified =
                  parse_typed-IsVerified (λ c. c.registered) jwt sound opts token_type v.pub_key now
                    token c parsed' (cc) (inr (inl refl));
              issued =
                  parse_typed-issuer (λ c. c.registered) jwt sound opts token_type v.pub_key now
                    token c parsed' v.issuer_id (inl refl);
              identified = λ e. ground (arith, e);
            }
      ]

  -- A transaction token that was issued validates at its issuer from its issue until its lifetime has
  -- passed: that of the options, or of the issuer where they have zero. It validates to claims of the
  -- issuer, for the subject and the audiences, with the actor, the context and the details that it was
  -- issued for, and the id of the transaction that was given, or the drawn bytes in hexadecimal where
  -- none was; if the drawn bytes and the token are not empty and the JWT library is complete.
  pub validate-issue_txn :
      (s : Issuer) (opts : IssueOptions) (ttl : ℤ) (issued_at now : Time) (drawn token : Str)
      → IsComplete (λ c. c.registered) jwt
      → issue jwt s opts issued_at drawn ≡ ok token
      → drawn ≢ []
      → token ≢ []
      → HasLifetime s opts ttl
      → issued_at ≤ now
      → now < jwt.numeric_date (add_time issued_at ttl)
      → (c : Claims) × (validate jwt
            (record { issuer_id = s.issuer_id; pub_key = s.key.public })
            token
            now
          ≡ ok c)
        × IsIssued jwt s opts ttl issued_at drawn c
  unfolding issue validate issued_claims
  validate-issue_txn s opts ttl issued_at now drawn token complete made drew full lasts begun live =
      let rounded = complete.numeric_date-le issued_at in
      let ttl_is = ttl_of-HasLifetime s opts ttl lasts in
      let parsed =
        parse_typed-sign (λ c. c.registered) jwt (issuer_options s.issuer_id) token_type
          (typed_header token_type) s.key now token (issued_claims jwt s opts issued_at drawn)
          complete refl (ground arith) (λ t e. ground arith)
          (refl, ((_, refl, rw ttl_is live), ((_, refl, omega arith), (inl refl, tt)))) in
      (
        issued_claims jwt s opts issued_at drawn,
        rw
            (
              is_empty-false token full,
              parsed,
              is_empty-false (txn_id_of opts drawn) (txn_id_of-ne-nil opts drawn drew),
            )
            refl,
        issued_claims-IsIssued s opts ttl issued_at drawn lasts,
      )
