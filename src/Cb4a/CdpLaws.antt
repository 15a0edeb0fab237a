-- ===== src/Cb4a/CdpLaws.antt =====
-- pkg/cb4a/cdp.go: calls with a minted token, replays of proofs and the trail of both.
use ai_agent_security.Base.{
  Str, eq_iff, is_empty, ◌≡◌, ap, sym, ◌∙◌, ◌≢◌, ◌⊎◌, inl, inr, true, false, List, [], ◌∷◌, ◌++◌,
  none, some, ok, err, Result-cases, Option-cases, Bool-cases, lookup, lookup-insert,
  lookup-insert_self, Time, arith,
}
use ai_agent_security.Platform.{Platform}
use ai_agent_security.Jwt.{IsSound}
use ai_agent_security.Cb4a.Audit.{
  append, stamped, api_call, replay_rejected, duplicate_jti, authorized,
}
use ai_agent_security.Cb4a.Envelope.{Error, replay}
use ai_agent_security.Cb4a.Cdp.{TokenClaims, DpopProofClaims, CdpState, Jwts}
use ai_agent_security.Cb4a.Calls.{
  check_call, call_entry, noted, remember, check_seen, simulate_api_call,
}
use ai_agent_security.Cb4a.CallChecks.{IsAuthorized, check_call-IsAuthorized, check_call-ne-replay}

-- A call in a trace.
pub record Call : Type 0 where
  pub token : Str
  pub proof : Str
  pub method : Str
  pub uri : Str
  pub at : Time

unfoldable pub run_calls : Platform → Jwts → List Call → CdpState → CdpState
run_calls std jwts [] st = st
run_calls std jwts (c ∷ cs) st =
    run_calls std jwts cs (simulate_api_call std jwts st c.token c.proof c.method c.uri c.at).0

module _ (std : Platform) (jwts : Jwts) (token_sound : IsSound (λ c. c.registered) jwts.token)
    (proof_sound : IsSound (λ c. c.registered) jwts.proof) where
  check_seen-keeps :
      (st : CdpState) (tok : TokenClaims) (prf : DpopProofClaims) (method uri : Str) (now : Time)
      (id : Str) (e : Time)
      → lookup id st.cdp.dpop_jti ≡ some e
      → lookup id
          (check_seen std jwts st tok prf method uri now
            (lookup prf.registered.id st.cdp.dpop_jti)).0.cdp.dpop_jti
        ≡ some e
  unfolding check_seen noted remember
  check_seen-keeps st tok prf method uri now id e held =
      elim (Option-cases (lookup prf.registered.id st.cdp.dpop_jti)) [
        | inr (x, seen) ↦ ground arith
        | inl unseen ↦ elim (Option-cases prf.registered.expires_at) [
          | inl missing ↦ ground arith
          | inr (exp, expires) ↦ ground (
            arith,
            eq_iff prf.registered.id id,
            lookup-insert prf.registered.id id exp st.cdp.dpop_jti,
          )
        ]
      ]

  simulate_api_call-keeps :
      (st : CdpState) (c : Call) (id : Str) (e : Time)
      → lookup id st.cdp.dpop_jti ≡ some e
      → lookup id (simulate_api_call std jwts st c.token c.proof c.method c.uri c.at).0.cdp.dpop_jti
        ≡ some e
  unfolding simulate_api_call
  simulate_api_call-keeps st c id e held =
      elim (Result-cases (check_call std jwts st.cdp c.token c.proof c.method c.uri c.at)) [
        | inr (x, bad) ↦ ground arith
        | inl ((tok, prf), good) ↦
            ground (arith, check_seen-keeps st tok prf c.method c.uri c.at id e held)
      ]

  run_calls-keeps :
      (cs : List Call) (st : CdpState) (id : Str) (e : Time)
      → lookup id st.cdp.dpop_jti ≡ some e
      → lookup id (run_calls std jwts cs st).cdp.dpop_jti ≡ some e
  unfolding run_calls
  run_calls-keeps [] st id e held = held
  run_calls-keeps (c ∷ cs) st id e held =
      run_calls-keeps cs _ id e (simulate_api_call-keeps st c id e held)

  -- A call succeeds exactly by a checked proof whose id is new; then the id is in the store and the
  -- log has one more entry.
  simulate_api_call-ok :
      (st st' : CdpState) (token proof method uri : Str) (now : Time)
      → simulate_api_call std jwts st token proof method uri now ≡ (st', ok tt)
      → (tok : TokenClaims) × (prf : DpopProofClaims) × (exp : Time) × (check_call std jwts st.cdp
            token proof method uri now
          ≡ ok (tok, prf))
        × (lookup prf.registered.id st.cdp.dpop_jti ≡ none)
        × (lookup prf.registered.id st'.cdp.dpop_jti ≡ some exp)
        × (st'.log
            ≡ st.log
              ++ record {
                timestamp = now;
                event = api_call;
                agent_svid = tok.agent_svid;
                target = uri;
                action = method;
                scope = tok.scope;
                tier = 0;
                request_id = tok.request_id;
                detail = authorized;
                success = true;
              }
                ∷ [])
  unfolding simulate_api_call check_seen noted remember append stamped call_entry
  simulate_api_call-ok st st' token proof method uri now h =
      elim (Result-cases (check_call std jwts st.cdp token proof method uri now)) [
        | inr (x, bad) ↦ ground arith
        | inl ((tok, prf), good) ↦ elim (Option-cases (lookup prf.registered.id st.cdp.dpop_jti)) [
          | inr (x, seen) ↦ ground arith
          | inl unseen ↦ elim (Option-cases prf.registered.expires_at) [
            | inl missing ↦ ground arith
            | inr (exp, expires) ↦ (
              tok,
              prf,
              exp,
              good,
              unseen,
              ground (arith, lookup-insert_self prf.registered.id exp st.cdp.dpop_jti),
              ground arith,
            )
          ]
        ]
      ]

  -- A successful call is authorised, and leaves exactly one entry, of the kind "api_call" and about
  -- the token's agent, in the audit log.
  pub simulate_api_call-IsAuthorized :
      (st st' : CdpState) (token proof method uri : Str) (now : Time)
      → simulate_api_call std jwts st token proof method uri now ≡ (st', ok tt)
      → (tok : TokenClaims) × (prf : DpopProofClaims) × IsAuthorized std jwts token_sound
          proof_sound st.cdp token proof method uri now tok prf
        × (st'.log
            ≡ st.log
              ++ record {
                timestamp = now;
                event = api_call;
                agent_svid = tok.agent_svid;
                target = uri;
                action = method;
                scope = tok.scope;
                tier = 0;
                request_id = tok.request_id;
                detail = authorized;
                success = true;
              }
                ∷ [])
  simulate_api_call-IsAuthorized st st' token proof method uri now h =
      let (tok, prf, exp, good, unseen, seen, logged) =
        simulate_api_call-ok st st' token proof method uri now h in
      (
        tok,
        prf,
        check_call-IsAuthorized std jwts token_sound proof_sound st.cdp token proof method uri now
            tok prf good,
        logged,
      )

  -- A proof authorises one call: after it did, and whatever calls come between, the same proof is
  -- refused with any token, for any method and address and at any instant.
  pub simulate_api_call-no_replay :
      (st st' st'' : CdpState) (token proof method uri : Str) (now : Time) (between : List Call)
      (token' method' uri' : Str) (now' : Time)
      → simulate_api_call std jwts st token proof method uri now ≡ (st', ok tt)
      → simulate_api_call std jwts (run_calls std jwts between st') token' proof method' uri' now'
        ≢ (st'', ok tt)
  simulate_api_call-no_replay st st' st'' token proof method uri now between token' method' uri'
        now' h again =
      let (tok, prf, exp, good, _, seen, _) =
        simulate_api_call-ok st st' token proof method uri now h in
      let (tok', prf', _, good', unseen', _, _) =
        simulate_api_call-ok (run_calls std jwts between st') st'' token' proof method' uri' now'
          again in
      let one =
        check_call-IsAuthorized std jwts token_sound proof_sound st.cdp token proof method uri now
          tok prf good in
      let two =
        check_call-IsAuthorized std jwts token_sound proof_sound
          (run_calls std jwts between st').cdp token' proof method' uri' now' tok' prf' good' in
      let equal : prf' ≡ prf = cc (one.proof_decoded, two.proof_decoded) in
      let held = run_calls-keeps between st' prf.registered.id exp seen in
      cc (
        held,
        unseen',
        ap
            (λ (q : DpopProofClaims).
              lookup q.registered.id (run_calls std jwts between st').cdp.dpop_jti)
            equal,
      )

  -- A call that fails with another error than that of a replay changes nothing. One that fails with
  -- that error has all that authorises a call, but the id of its proof is in the store; it adds exactly
  -- one entry to the audit log, of the kind "replay_rejected", at that instant and about the agent of
  -- the token, the call and that id, and changes nothing else; if the JWT library is sound.
  pub simulate_api_call-err :
      (st st' : CdpState) (token proof method uri : Str) (now : Time) (e : Error)
      → simulate_api_call std jwts st token proof method uri now ≡ (st', err e)
      → ((st' ≡ st) × (e ≢ replay))
        ⊎ ((e ≡ replay)
            × (tok : TokenClaims) × (prf : DpopProofClaims) × (seen_until : Time) × IsAuthorized std
                jwts token_sound proof_sound st.cdp token proof method uri now tok prf
            × (lookup prf.registered.id st.cdp.dpop_jti ≡ some seen_until)
            × (st'.cdp ≡ st.cdp)
            × (st'.log
                ≡ st.log
                  ++ record {
                    timestamp = now;
                    event = replay_rejected;
                    agent_svid = tok.agent_svid;
                    target = uri;
                    action = method;
                    scope = tok.scope;
                    tier = 0;
                    request_id = tok.request_id;
                    detail = duplicate_jti prf.registered.id;
                    success = false;
                  }
                    ∷ []))
  unfolding simulate_api_call check_seen noted append stamped call_entry
  simulate_api_call-err st st' token proof method uri now e h =
      elim (Result-cases (check_call std jwts st.cdp token proof method uri now)) [
        | inr (x, bad) ↦
            let e_is : e ≡ x = ground arith in
            inl (
              ground arith,
              λ r.
                  check_call-ne-replay std jwts token_sound proof_sound st.cdp token proof method
                    uri now (bad ∙ ap err (sym e_is ∙ r)),
            )
        | inl ((tok, prf), good) ↦ elim (Bool-cases (is_empty prf.registered.id)) [
          | inl missing ↦ inl (ground arith, λ r. ground (arith, r))
          | inr there ↦ elim (Option-cases (lookup prf.registered.id st.cdp.dpop_jti)) [
            | inr (until, seen) ↦ inr (
              ground arith,
              tok,
              prf,
              until,
              check_call-IsAuthorized std jwts token_sound proof_sound st.cdp token proof method uri
                  now tok prf good,
              seen,
              ground arith,
              ground arith,
            )
            | inl unseen ↦ elim (Option-cases prf.registered.expires_at) [
              | inl missing ↦ inl (ground arith, λ r. ground (arith, r))
              | inr (exp, expires) ↦ ground arith
            ]
          ]
        ]
      ]
