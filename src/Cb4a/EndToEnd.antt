-- ===== src/Cb4a/EndToEnd.antt =====
-- pkg/cb4a/cdp.go: a minted credential, a proof made with it and the call that uses both.
use ai_agent_security.Base.{
  Str, eq_iff, eq_refl, is_empty, ◌≡◌, refl, sym, ap, ◌∙◌, ◌≤◌, ◌<◌, inl, inr, true, false, [],
  none, some, ok, Result-cases, Option-cases, lookup, Time, add_time, minutes, arith,
}
use ai_agent_security.Keys.{PrivateKey, is_on_curve, public_key_to_jwk}
use ai_agent_security.Keys.Laws.{jwk_to_public_key-public_key_to_jwk}
use ai_agent_security.Platform.{Platform, IsFaithful}
use ai_agent_security.Jwt.{Header, IsComplete}
use ai_agent_security.Identity.Token.{default_options, keyfunc_for}
use ai_agent_security.Identity.TokenLaws.{keyfunc_for_self}
use ai_agent_security.Cb4a.Pdp.{PdpDecisionClaims}
use ai_agent_security.Cb4a.Cdp.{
  cb4a_token_type, dpop_proof_type, MintedCredential, Cdp, CdpState, Jwts, jwk_thumbprint,
  minted_claims, mint,
}
use ai_agent_security.Cb4a.Calls.{
  token_hash, dpop_key, proof_claims, generate_dpop_proof, check_call, check_seen,
  simulate_api_call,
}
use ai_agent_security.Cb4a.MintLaws.{IsMinted, mint-outcome}

abbrev token_header : Header
token_header = record { typ = some cb4a_token_type; kid = none; jwk = none }

abbrev proof_header : Str → Header
proof_header raw = record { typ = some dpop_proof_type; kid = none; jwk = some raw }

module _ (std : Platform) (jwts : Jwts) (faithful : IsFaithful std) where
  -- What a generated proof is.
  generated :
      (cred : MintedCredential) (method uri : Str) (t : Time) (id proof : Str)
      → is_on_curve cred.ephemeral_pub.x cred.ephemeral_pub.y ≡ true
      → generate_dpop_proof std jwts (some cred) method uri t id ≡ ok proof
      → (raw : Str) × (dpop_key std (proof_header raw) ≡ some cred.ephemeral_pub)
        × (jwts.proof.sign
              (proof_header raw)
              (proof_claims std jwts cred method uri t id)
              cred.ephemeral_key
            ≡ some proof)
  unfolding generate_dpop_proof dpop_key
  generated cred method uri t id proof on made =
      elim (Result-cases (public_key_to_jwk (some cred.ephemeral_pub) [])) [
        | inr (e, bad) ↦ ground arith
        | inl (jwk, built) ↦ elim (Option-cases (std.json_of_jwk jwk)) [
          | inl bad ↦ ground arith
          | inr (raw, marshalled) ↦
              let read = faithful.jwk_of_json-json_of_jwk jwk raw marshalled in
              let decoded =
                jwk_to_public_key-public_key_to_jwk cred.ephemeral_pub [] jwk on built in
              (raw, ground (arith, eq_refl dpop_proof_type), ground arith)
        ]
      ]

  token_parsed :
      (c : Cdp) (d : PdpDecisionClaims) (jkt token : Str) (t now : Time) (id : Str)
      → IsComplete (λ c. c.registered) jwts.token
      → jwts.token.sign token_header (minted_claims std jwts c d jkt t id) c.sig_key ≡ some token
      → t ≤ now
      → now < jwts.token.numeric_date (add_time t c.token_ttl)
      → jwts.token.parse default_options now token (keyfunc_for cb4a_token_type c.sig_key.public)
        ≡ some (record {
          header = token_header;
          claims = minted_claims std jwts c d jkt t id;
          valid = true;
        })
  unfolding minted_claims
  token_parsed c d jkt token t now id complete signed begun live =
      let rounded = complete.numeric_date-le t in
      complete.parse-sign token_header (minted_claims std jwts c d jkt t id) c.sig_key token
        default_options now (keyfunc_for cb4a_token_type c.sig_key.public) signed
        (keyfunc_for_self cb4a_token_type c.sig_key.public token_header refl) (λ t e. ground arith)
        ((_, refl, live), ((_, refl, omega arith), (inl refl, tt)))

  proof_parsed :
      (cred : MintedCredential) (method uri raw proof : Str) (t now : Time) (id : Str)
      → IsComplete (λ c. c.registered) jwts.proof
      → jwts.proof.sign
          (proof_header raw)
          (proof_claims std jwts cred method uri t id)
          cred.ephemeral_key
        ≡ some proof
      → dpop_key std (proof_header raw) ≡ some cred.ephemeral_key.public
      → t ≤ now
      → now < jwts.proof.numeric_date (add_time t (minutes 2))
      → jwts.proof.parse default_options now proof (dpop_key std)
        ≡ some (record {
          header = proof_header raw;
          claims = proof_claims std jwts cred method uri t id;
          valid = true;
        })
  unfolding proof_claims
  proof_parsed cred method uri raw proof t now id complete signed keyed begun live =
      let rounded = complete.numeric_date-le t in
      complete.parse-sign (proof_header raw) (proof_claims std jwts cred method uri t id)
        cred.ephemeral_key proof default_options now (dpop_key std) signed keyed (λ t e. cc)
        ((_, refl, live), ((_, refl, omega arith), (inl refl, tt)))

  -- The checks of a call, from what the two tokens parse to.
  checked_call :
      (c : Cdp) (d : PdpDecisionClaims) (jkt token proof raw method uri : Str)
      (cred : MintedCredential) (t t' now : Time) (id id' : Str)
      → cred.token ≡ token
      → jwts.token.parse default_options now token (keyfunc_for cb4a_token_type c.sig_key.public)
        ≡ some (record {
          header = token_header;
          claims = minted_claims std jwts c d jkt t id;
          valid = true;
        })
      → jwts.proof.parse default_options now proof (dpop_key std)
        ≡ some (record {
          header = proof_header raw;
          claims = proof_claims std jwts cred method uri t' id';
          valid = true;
        })
      → dpop_key std (proof_header raw) ≡ some cred.ephemeral_pub
      → jwk_thumbprint std cred.ephemeral_pub ≡ ok jkt
      → check_call std jwts c token proof method uri now
        ≡ ok (minted_claims std jwts c d jkt t id, proof_claims std jwts cred method uri t' id')
  unfolding check_call minted_claims proof_claims
  checked_call c d jkt token proof raw method uri cred t t' now id id' same t_parsed p_parsed keyed
        thumb =
      ground (
        arith,
        eq_refl method,
        eq_refl uri,
        eq_refl jkt,
        eq_iff (token_hash std cred.token) (token_hash std token),
        ap (λ x. token_hash std x) same,
      )

  -- A credential that was minted over a key on the curve, and a proof made with it for a method and an
  -- address, authorise the call of that method at that address at any time that is not before the
  -- minting or the making and at which neither has expired, if the id of the proof is not empty and
  -- new, the JSON library is faithful and the JWT library complete.
  pub simulate_api_call-mint :
      (st st' : CdpState) (decision_jwt : Str) (key : PrivateKey) (minted_at made_at now : Time)
      (token_id proof_id : Str) (cred : MintedCredential) (method uri proof : Str)
      → IsComplete (λ c. c.registered) jwts.token
      → IsComplete (λ c. c.registered) jwts.proof
      → mint std jwts st decision_jwt (some key) minted_at token_id ≡ (st', ok cred)
      → is_on_curve key.public.x key.public.y ≡ true
      → generate_dpop_proof std jwts (some cred) method uri made_at proof_id ≡ ok proof
      → is_empty proof_id ≡ false
      → lookup proof_id st'.cdp.dpop_jti ≡ none
      → minted_at ≤ now
      → made_at ≤ now
      → now < jwts.token.numeric_date (add_time minted_at st.cdp.token_ttl)
      → now < jwts.proof.numeric_date (add_time made_at (minutes 2))
      → (simulate_api_call std jwts st' cred.token proof method uri now).1 ≡ ok tt
  unfolding simulate_api_call check_seen proof_claims
  simulate_api_call-mint st st' decision_jwt key minted_at made_at now token_id proof_id cred method
        uri proof token_complete proof_complete minted on made named fresh begun made_before live
        proof_live =
      elim (mint-outcome std jwts st st' decision_jwt (some key) minted_at token_id (ok cred)
        minted) [
          | inl (e, bad, same) ↦ ground arith
          | inr (cred', d, jkt, is_cred, rests, same_cdp, logged) ↦
              let cred_is : cred' ≡ cred = ground arith in
              let m : IsMinted std jwts st.cdp decision_jwt (some key) minted_at token_id cred d
                  jkt =
                rw cred_is at rests in
              let drawn : key ≡ cred.ephemeral_key = ground (arith, m.key_drawn) in
              let half : cred.ephemeral_pub ≡ cred.ephemeral_key.public = m.public_half in
              let pub_is : cred.ephemeral_pub ≡ key.public =
                half ∙ ap (λ (k : PrivateKey). k.public) (sym drawn) in
              let (raw, keyed, signed) =
                generated cred method uri made_at proof_id proof (rw pub_is on) made in
              let t_parsed =
                token_parsed st.cdp d jkt cred.token minted_at now token_id token_complete
                  (unfold minted_claims in m.token_signed) begun live in
              let p_parsed =
                proof_parsed cred method uri raw proof made_at now proof_id proof_complete signed
                  (keyed ∙ ap some half) made_before proof_live in
              let checked =
                checked_call st.cdp d jkt cred.token proof raw method uri cred minted_at made_at now
                  token_id proof_id refl t_parsed p_parsed keyed m.thumb in
              let checked' : check_call std jwts st'.cdp cred.token proof method uri now
                  ≡ ok (
                    minted_claims std jwts st.cdp d jkt minted_at token_id,
                    proof_claims std jwts cred method uri made_at proof_id,
                  ) =
                rw same_cdp checked in
              ground (arith, checked')
        ]
