-- ===== src/Cb4a/CallChecks.antt =====
-- pkg/cb4a/cdp.go: what the checks of a call with a minted token have proved.
use ai_agent_security.Base.{
  err, ◌≢◌, Str, eq_iff, ◌≡◌, refl, ◌<◌, inl, inr, true, some, ok, Result-cases, Option-cases, Time,
  arith,
}
use ai_agent_security.Platform.{Platform}
use ai_agent_security.Keys.{PublicKey}
use ai_agent_security.Jwt.{Header, Parsed, IsSound}
use ai_agent_security.Identity.Token.{default_options, keyfunc_for}
use ai_agent_security.Identity.TokenLaws.{keyfunc_for_sound}
use ai_agent_security.Cb4a.Envelope.{replay}
use ai_agent_security.Cb4a.Cdp.{
  cb4a_token_type, TokenClaims, DpopProofClaims, Cdp, Jwts, jwk_thumbprint,
}
use ai_agent_security.Cb4a.Calls.{token_hash, dpop_key, check_call}

-- What an authorised call has proved: a token of the delivery point and a fresh proof, signed by
-- the key that the token names, for this method, this address and this token.
pub record IsAuthorized (std : Platform) (jwts : Jwts)
    (token_sound : IsSound (λ c. c.registered) jwts.token)
    (proof_sound : IsSound (λ c. c.registered) jwts.proof) (c : Cdp) (token proof method uri : Str)
    (now : Time) (tok : TokenClaims) (prf : DpopProofClaims) : Type 0 where
  pub token_header : Header
  pub token_decoded : token_sound.decode token ≡ some (token_header, tok)
  pub token_typed : token_header.typ ≡ some cb4a_token_type
  pub token_signed : token_sound.verify c.sig_key.public token ≡ true
  pub token_expiry : Time
  pub token_expires : tok.registered.expires_at ≡ some token_expiry
  pub token_unexpired : now < token_expiry
  pub proof_header : Header
  pub proof_decoded : proof_sound.decode proof ≡ some (proof_header, prf)
  pub key : PublicKey
  pub carried : dpop_key std proof_header ≡ some key
  pub proof_signed : proof_sound.verify key proof ≡ true
  pub proof_expiry : Time
  pub proof_expires : prf.registered.expires_at ≡ some proof_expiry
  pub proof_unexpired : now < proof_expiry
  pub for_method : prf.http_method ≡ method
  pub for_uri : prf.http_uri ≡ uri
  pub for_token : prf.ath ≡ token_hash std token
  pub bound : jwk_thumbprint std key ≡ ok tok.jkt

module _ (std : Platform) (jwts : Jwts) (token_sound : IsSound (λ c. c.registered) jwts.token)
    (proof_sound : IsSound (λ c. c.registered) jwts.proof) where
  -- The tokens that a checked call was parsed to, and what was tested of them.
  check_call-pieces :
      (c : Cdp) (token proof method uri : Str) (now : Time) (tok : TokenClaims)
      (prf : DpopProofClaims)
      → check_call std jwts c token proof method uri now ≡ ok (tok, prf)
      → (t : Parsed TokenClaims) × (p : Parsed DpopProofClaims) × (jwts.token.parse default_options
            now token
            (keyfunc_for cb4a_token_type c.sig_key.public)
          ≡ some t)
        × (jwts.proof.parse default_options now proof (dpop_key std) ≡ some p)
        × (tok ≡ t.claims)
        × (prf ≡ p.claims)
        × (p.claims.http_method ≡ method)
        × (p.claims.http_uri ≡ uri)
        × (p.claims.ath ≡ token_hash std token)
        × ((key : PublicKey)
            → dpop_key std p.header ≡ some key
            → jwk_thumbprint std key ≡ ok t.claims.jkt)
  unfolding check_call
  check_call-pieces c token proof method uri now tok prf h =
      elim (Option-cases (
        jwts.token.parse default_options now token
          (keyfunc_for cb4a_token_type c.sig_key.public))) [
            | inl bad ↦ ground arith
            | inr (t, t_parsed) ↦
                elim (Option-cases (jwts.proof.parse default_options now proof (dpop_key std))) [
                  | inl bad ↦ ground arith
                  | inr (p, p_parsed) ↦ (
                    t,
                    p,
                    t_parsed,
                    p_parsed,
                    ground arith,
                    ground arith,
                    ground (arith, eq_iff p.claims.http_method method),
                    ground (arith, eq_iff p.claims.http_uri uri),
                    ground (arith, eq_iff p.claims.ath (token_hash std token)),
                    λ key given. elim (Result-cases (jwk_thumbprint std key)) [
                      | inr (e, bad) ↦ ground arith
                      | inl (jkt, thumb) ↦ ground (arith, eq_iff t.claims.jkt jkt)
                    ],
                  )
                ]
          ]

  pub check_call-IsAuthorized :
      (c : Cdp) (token proof method uri : Str) (now : Time) (tok : TokenClaims)
      (prf : DpopProofClaims)
      → check_call std jwts c token proof method uri now ≡ ok (tok, prf)
      → IsAuthorized std jwts token_sound proof_sound c token proof method uri now tok prf
  check_call-IsAuthorized c token proof method uri now tok prf h =
      let (t, p, t_parsed, p_parsed, tok_is, prf_is, method_is, uri_is, token_is, bound) =
        check_call-pieces c token proof method uri now tok prf h in
      let (tk, t_given, t_verified) = token_sound.parse_verifies _ now token _ t t_parsed in
      let (typed, same) =
        keyfunc_for_sound cb4a_token_type c.sig_key.public t.header tk (cc) t_given in
      let (te, t_expires, t_live) = token_sound.parse_expiry _ now token _ t t_parsed (inl refl) in
      let (key, given, verified) = proof_sound.parse_verifies _ now proof _ p p_parsed in
      let (pe, p_expires, p_live) = proof_sound.parse_expiry _ now proof _ p p_parsed (inl refl) in
      rw (tok_is, prf_is)
        (record {
          token_header = t.header;
          token_decoded = token_sound.parse_decodes _ now token _ t t_parsed;
          token_typed = typed;
          token_signed = rw same at t_verified;
          token_expiry = te;
          token_expires = t_expires;
          token_unexpired = t_live;
          proof_header = p.header;
          proof_decoded = proof_sound.parse_decodes _ now proof _ p p_parsed;
          key = key;
          carried = given;
          proof_signed = verified;
          proof_expiry = pe;
          proof_expires = p_expires;
          proof_unexpired = p_live;
          for_method = method_is;
          for_uri = uri_is;
          for_token = token_is;
          bound = bound key given;
        })

  -- None of the checks fails as a replay does.
  pub check_call-ne-replay :
      (c : Cdp) (token proof method uri : Str) (now : Time)
      → check_call std jwts c token proof method uri now ≢ err replay
  unfolding check_call
  check_call-ne-replay c token proof method uri now h =
      elim (Option-cases (
        jwts.token.parse default_options now token
          (keyfunc_for cb4a_token_type c.sig_key.public))) [
            | inl bad ↦ ground (arith, h)
            | inr (t, t_parsed) ↦
                elim (Option-cases (jwts.proof.parse default_options now proof (dpop_key std))) [
                  | inl bad ↦ ground (arith, h)
                  | inr (p, p_parsed) ↦ elim (Option-cases (dpop_key std p.header)) [
                    | inl keyless ↦ ground (arith, h)
                    | inr (key, carried) ↦ elim (Result-cases (jwk_thumbprint std key)) [
                      | inr (e, bad) ↦ ground (arith, h)
                      | inl (jkt, thumb) ↦ ground (arith, h)
                    ]
                  ]
                ]
          ]
