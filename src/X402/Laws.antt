-- ===== src/X402/Laws.antt =====
-- pkg/x402/gateway.go: payment scopes and verified payments.
use ai_agent_security.Base.{
  ℕ, suc, join, join-split_n, Str, bytes, eq_iff, eq_refl, Free, split_n, ◌≡◌, refl, sym, ap, ◌∙◌,
  ◌≢◌, ◌↔◌, inl, inr, true, List, [], ◌∷◌, ◌++◌, some, ok, Result-cases, Option-cases, Time, arith,
}
use ai_agent_security.Platform.{Platform}
use ai_agent_security.Jwt.{Header, Jwt, IsSound}
use ai_agent_security.Identity.Token.{AgentClaims, ValidatedAgent, default_options, validate}
use ai_agent_security.Cb4a.Cdp.{TokenClaims, DpopProofClaims, CdpState, Jwts}
use ai_agent_security.Cb4a.Calls.{simulate_api_call}
use ai_agent_security.Cb4a.CallChecks.{IsAuthorized}
use ai_agent_security.Cb4a.CdpLaws.{
  Call, run_calls, simulate_api_call-IsAuthorized, simulate_api_call-no_replay,
}
use ai_agent_security.X402.{
  PaymentGateway, PaymentPayload, PaymentResult, colon, check_parts, check_scope, check_payment,
  check_payer, verify,
}

-- "payment:<asset>:<amount>"
abbrev pub payment_scope : PaymentGateway → Str
payment_scope g = bytes "payment" ++ colon ∷ g.asset ++ colon ∷ g.amount

split_n-append :
    (sep n : ℕ) (p s : Str) → Free sep p → split_n sep (suc n) (p ++ sep ∷ s) ≡ p ∷ split_n sep n s
unfolding split_n
split_n-append sep n [] s h = ground arith
split_n-append sep n (b ∷ p) s (ne, h) = ground (arith, split_n-append sep n p s h)

payment-Free : Free colon (bytes "payment")
payment-Free = ground arith

split-payment_scope :
    (g : PaymentGateway)
    → Free colon g.asset
    → split_n colon 2 (payment_scope g) ≡ bytes "payment" ∷ g.asset ∷ g.amount ∷ []
split-payment_scope g h =
    split_n-append colon 1 (bytes "payment") (g.asset ++ colon ∷ g.amount) payment-Free
    ∙ ap (λ l. bytes "payment" ∷ l)
        (split_n-append colon 0 g.asset g.amount h ∙ unfold split_n in refl)

check_parts_sound :
    (g : PaymentGateway) (parts : List Str)
    → check_parts g parts ≡ ok tt
    → parts ≡ bytes "payment" ∷ g.asset ∷ g.amount ∷ []
unfolding check_parts
check_parts_sound g (kind ∷ asset ∷ amount ∷ []) h =
    ground (arith, eq_iff kind (bytes "payment"), eq_iff asset g.asset, eq_iff amount g.amount)
check_parts_sound g _ h = cc

check_scope_sound :
    (g : PaymentGateway) (scope : Str) → check_scope g scope ≡ ok tt → scope ≡ payment_scope g
unfolding check_scope
check_scope_sound g scope h =
    let parts = check_parts_sound g (split_n colon 2 scope) h in
    sym (join-split_n colon 2 scope) ∙ ap (join colon) parts ∙ unfold join in refl

check_scope_complete :
    (g : PaymentGateway) → Free colon g.asset → check_scope g (payment_scope g) ≡ ok tt
unfolding check_scope check_parts
check_scope_complete g free =
    rw (split-payment_scope g free)
      (ground (arith, eq_refl (bytes "payment"), eq_refl g.asset, eq_refl g.amount))

-- A gateway whose asset has no colon accepts exactly the scope "payment:<asset>:<amount>" of its own
-- asset and amount.
pub check_scope_iff :
    (g : PaymentGateway) (scope : Str)
    → Free colon g.asset
    → (check_scope g scope ≡ ok tt) ↔ (scope ≡ payment_scope g)
check_scope_iff g scope free = (check_scope_sound g scope, λ e. rw e (check_scope_complete g free))

module _ (std : Platform) (jwts : Jwts) (agent_jwt : Jwt AgentClaims)
    (token_sound : IsSound (λ c. c.registered) jwts.token)
    (proof_sound : IsSound (λ c. c.registered) jwts.proof) where
  check_payment_sound :
      (g : PaymentGateway) (p : PaymentPayload) (now : Time) (claims : TokenClaims)
      → check_payment std jwts g p now ≡ ok claims
      → (h : Header) × (token_sound.decode p.cb4a_token ≡ some (h, claims))
        × (token_sound.verify g.cdp_pub p.cb4a_token ≡ true)
        × (claims.scope ≡ payment_scope g)
  unfolding check_payment
  check_payment_sound g p now claims h =
      elim (Option-cases
        (jwts.token.parse default_options now p.cb4a_token (λ h. some g.cdp_pub))) [
          | inl bad ↦ ground arith
          | inr (t, parsed) ↦
              let (key, given, verified) =
                token_sound.parse_verifies _ now p.cb4a_token _ t parsed in
              let same : key ≡ g.cdp_pub = cc in
              let claimed : claims ≡ t.claims = ground arith in
              elim (Result-cases (check_scope g t.claims.scope)) [
                | inr (e, bad) ↦ ground arith
                | inl (u, good) ↦ (
                  t.header,
                  rw claimed (token_sound.parse_decodes _ now p.cb4a_token _ t parsed),
                  rw same at verified,
                  rw claimed (check_scope_sound g t.claims.scope good),
                )
              ]
        ]

  -- What a verified payment has proved.
  pub record IsPaid (g : PaymentGateway) (st st' : CdpState) (p : PaymentPayload) (method uri : Str)
      (now : Time) (r : PaymentResult) : Type 0 where
    pub tok : TokenClaims
    pub prf : DpopProofClaims
    pub authorized :
        IsAuthorized std jwts token_sound proof_sound st.cdp p.cb4a_token p.dpop_proof method uri
          now tok prf
    pub delivered :
        simulate_api_call std jwts st p.cb4a_token p.dpop_proof method uri now ≡ (st', ok tt)
    pub signed : token_sound.verify g.cdp_pub p.cb4a_token ≡ true
    pub exact_scope : tok.scope ≡ payment_scope g
    pub payer : ValidatedAgent
    pub identified : validate std agent_jwt g.agent_validator now p.agent_token ≡ ok payer
    pub same_agent : payer.claims.registered.subject ≡ tok.agent_svid
    pub result : r ≡ record {
      agent_svid = tok.agent_svid;
      asset = g.asset;
      amount = g.amount;
      scope = payment_scope g;
      resource = uri;
    }

  check_payer_sound :
      (g : PaymentGateway) (p : PaymentPayload) (claims : TokenClaims) (uri : Str) (now : Time)
      (r : PaymentResult)
      → check_payer std jwts agent_jwt g p claims uri now ≡ ok r
      → (va : ValidatedAgent) × (validate std agent_jwt g.agent_validator now p.agent_token ≡ ok va)
        × (va.claims.registered.subject ≡ claims.agent_svid)
        × (r ≡ record {
          agent_svid = claims.agent_svid;
          asset = g.asset;
          amount = g.amount;
          scope = claims.scope;
          resource = uri;
        })
  unfolding check_payer
  check_payer_sound g p claims uri now r h =
      elim (Result-cases (validate std agent_jwt g.agent_validator now p.agent_token)) [
        | inr (e, bad) ↦ ground arith
        | inl (va, good) ↦ (
          va,
          good,
          ground (arith, eq_iff va.claims.registered.subject claims.agent_svid),
          ground arith,
        )
      ]

  verify_delivered :
      (g : PaymentGateway) (st st' : CdpState) (p : PaymentPayload) (method uri : Str) (now : Time)
      (r : PaymentResult)
      → verify std jwts agent_jwt g st p method uri now ≡ (st', ok r)
      → (claims : TokenClaims) × (check_payment std jwts g p now ≡ ok claims)
        × (simulate_api_call std jwts st p.cb4a_token p.dpop_proof method uri now ≡ (st', ok tt))
        × (check_payer std jwts agent_jwt g p claims uri now ≡ ok r)
  unfolding verify
  verify_delivered g st st' p method uri now r h =
      elim (Result-cases (check_payment std jwts g p now)) [
        | inr (e, bad) ↦ ground arith
        | inl (claims, good) ↦
            elim (Result-cases
              (simulate_api_call std jwts st p.cb4a_token p.dpop_proof method uri now).1) [
                | inr (e, bad) ↦ ground arith
                | inl (u, done) ↦ (claims, good, ground arith, ground arith)
              ]
      ]

  -- A payment that is verified was made with a token of the delivery point for exactly this asset
  -- and amount, a fresh proof for this method and address, and an agent token of the agent that the
  -- credential names; the result repeats these.
  pub verify-IsPaid :
      (g : PaymentGateway) (st st' : CdpState) (p : PaymentPayload) (method uri : Str) (now : Time)
      (r : PaymentResult)
      → verify std jwts agent_jwt g st p method uri now ≡ (st', ok r)
      → IsPaid g st st' p method uri now r
  verify-IsPaid g st st' p method uri now r h =
      let (claims, checked, delivered, paid) = verify_delivered g st st' p method uri now r h in
      let (head, decoded, signed, scoped) = check_payment_sound g p now claims checked in
      let (tok, prf, auth, _) =
        simulate_api_call-IsAuthorized std jwts token_sound proof_sound st st' p.cb4a_token
          p.dpop_proof method uri now delivered in
      let (va, identified, same_agent, result) = check_payer_sound g p claims uri now r paid in
      let equal : claims ≡ tok = cc (decoded, auth.token_decoded) in
      record {
        tok = tok;
        prf = prf;
        authorized = auth;
        delivered = delivered;
        signed = signed;
        exact_scope = rw (equal) at scoped;
        payer = va;
        identified = identified;
        same_agent = rw (equal) at same_agent;
        result = ground (arith, equal, scoped, result);
      }

  -- A proof pays once: after a payment was verified, and whatever calls the delivery point gets in
  -- between, no payload with the same proof is verified, by this or another gateway in front of it.
  pub verify-once :
      (g g' : PaymentGateway) (st st' st'' : CdpState) (p p' : PaymentPayload)
      (method uri method' uri' : Str) (now now' : Time) (r r' : PaymentResult) (between : List Call)
      → verify std jwts agent_jwt g st p method uri now ≡ (st', ok r)
      → p'.dpop_proof ≡ p.dpop_proof
      → verify std jwts agent_jwt g' (run_calls std jwts between st') p' method' uri' now'
        ≢ (st'', ok r')
  verify-once g g' st st' st'' p p' method uri method' uri' now now' r r' between h same again =
      let (_, _, first, _) = verify_delivered g st st' p method uri now r h in
      let (_, _, second, _) =
        verify_delivered g' (run_calls std jwts between st') st'' p' method' uri' now' r' again in
      simulate_api_call-no_replay std jwts token_sound proof_sound st st' st'' p.cb4a_token
        p.dpop_proof method uri now between p'.cb4a_token method' uri' now' first
        (rw (same) at second)
