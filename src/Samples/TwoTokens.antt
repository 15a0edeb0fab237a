-- ===== src/Samples/TwoTokens.antt =====
-- A JWT library for tests that knows two tokens, each as Samples/OneToken does.
use ai_agent_security.Base.{
  Str, ◌==◌, eq_iff, ◌≡◌, refl, sym, ◌∙◌, ap, true, false, List, Option, none, some, Time, inl, inr,
  Bool-cases, Option-cases, if◌then◌else◌, arith, ◌⊎◌,
}
use ai_agent_security.Keys.{PublicKey, PrivateKey}
use ai_agent_security.Jwt.{
  Header, RegisteredClaims, ParserOption, Parsed, Jwt, IsSound, IsComplete, IsTimely,
}
use ai_agent_security.Samples.OneToken.{
  Signed, chosen_sound, sample_parse, sample_sign, sample_jwt, sample_jwt-IsSound,
  sample_jwt-IsComplete, sample_sign_self, chosen-yes, chosen-no, decode_sound,
}
use ai_agent_security.Samples.LaterToken.{sample_jwt-IsTimely}

abbrev first_or : Option Str → Option Str → Option Str
first_or none b = b
first_or (some a) b = some a

module _ {C : Type 0} (registered : C → RegisteredClaims)
    (same : Discrete (Header × C × PrivateKey)) (a b : Signed C) where
  unfoldable pub parse_either :
      List ParserOption → Time → Str → (Header → Option PublicKey) → Option (Parsed C)
  parse_either opts now token keyfunc =
      if token == a.token
      then sample_parse registered same a opts now token keyfunc
      else sample_parse registered same b opts now token keyfunc

  unfoldable pub sign_either : Header → C → PrivateKey → Option Str
  sign_either h c key =
      first_or (sample_sign registered same a h c key) (sample_sign registered same b h c key)

  abbrev pub two_jwt : Jwt C
  two_jwt = record { parse = parse_either; sign = sign_either; numeric_date = λ t. t }

  -- The library that knows a token.
  abbrev side : Str → Signed C
  side token = if token == a.token then a else b

  parse-side :
      (opts : List ParserOption) (now : Time) (token : Str) (keyfunc : Header → Option PublicKey)
      → parse_either opts now token keyfunc
        ≡ sample_parse registered same (side token) opts now token keyfunc
  unfolding parse_either
  parse-side opts now token keyfunc = elim (Bool-cases (token == a.token)) [
    | inl one ↦ rw one refl
    | inr other ↦ rw other refl
  ]

  abbrev one_sound : (token : Str) → IsSound registered (sample_jwt registered same (side token))
  one_sound token = sample_jwt-IsSound registered same (side token)

  pub two_jwt-IsSound : IsSound registered two_jwt
  two_jwt-IsSound = record {
    decode = λ token. (one_sound token).decode token;
    verify = λ key token. (one_sound token).verify key token;
    parse_decodes = λ opts now token keyfunc p h.
        (one_sound token).parse_decodes opts now token keyfunc p
          (rw (parse-side opts now token keyfunc) at h);
    parse_verifies = λ opts now token keyfunc p h.
        (one_sound token).parse_verifies opts now token keyfunc p
          (rw (parse-side opts now token keyfunc) at h);
    parse_expiry = λ opts now token keyfunc p h there.
        (one_sound token).parse_expiry opts now token keyfunc p
          (rw (parse-side opts now token keyfunc) at h) there;
    parse_issuer = λ opts now token keyfunc p iss h there.
        (one_sound token).parse_issuer opts now token keyfunc p iss
          (rw (parse-side opts now token keyfunc) at h) there;
    parse_audience = λ opts now token keyfunc p aud h there.
        (one_sound token).parse_audience opts now token keyfunc p aud
          (rw (parse-side opts now token keyfunc) at h) there;
  }

  -- Only the two tokens are decoded, each to its claims.
  pub two_jwt-decode :
      (token : Str) (h : Header) (c : C)
      → two_jwt-IsSound.decode token ≡ some (h, c)
      → ((token ≡ a.token) × (c ≡ a.claims)) ⊎ ((token ≡ b.token) × (c ≡ b.claims))
  unfolding two_jwt-IsSound
  two_jwt-decode token h c e =
      let (known, claims) = decode_sound registered same (side token) token h c e in
      elim (Bool-cases (token == a.token)) [
        | inl one ↦ inl ((eq_iff token a.token).0 one, rw one at claims)
        | inr other ↦ inr (rw other at known, rw other at claims)
      ]

  pub two_jwt-IsTimely : IsTimely registered two_jwt
  two_jwt-IsTimely = record {
    parse_later = λ opts t now token keyfunc keyfunc' p h past live.
        parse-side opts now token keyfunc'
        ∙ (sample_jwt-IsTimely registered same (side token)).parse_later opts t now token keyfunc
            keyfunc' p (rw (parse-side opts t token keyfunc) at h) past live
        ∙ sym (parse-side opts t token keyfunc');
  }

  -- What is signed is signed by the library that knows the token.
  sign-side :
      (h : Header) (c : C) (key : PrivateKey) (token : Str)
      → (a.token == b.token) ≡ false
      → sign_either h c key ≡ some token
      → sample_sign registered same (side token) h c key ≡ some token
  unfolding sign_either sample_sign
  sign-side h c key token distinct signed =
      elim (Option-cases (sample_sign registered same a h c key)) [
        | inr (t, first) ↦
            let t_is : t ≡ token = ground arith in
            let (e, known) =
              chosen_sound a.token t (same (h, c, key) (a.header, a.claims, a.signer)) first in
            let mine : (token == a.token) ≡ true = ground (arith, eq_iff token a.token) in
            rw mine (first ∙ ap some t_is)
        | inl missing ↦
            let second_ : sample_sign registered same b h c key ≡ some token = ground arith in
            let (e, known) =
              chosen_sound b.token token (same (h, c, key) (b.header, b.claims, b.signer))
                second_ in
            let other : (token == a.token) ≡ false =
              ground (arith, eq_iff token a.token, eq_iff a.token b.token) in
            rw other second_
      ]

  pub two_jwt-IsComplete : (a.token == b.token) ≡ false → IsComplete registered two_jwt
  two_jwt-IsComplete distinct = record {
    parse-sign = λ h c key token opts now keyfunc signed given begun met.
        parse-side opts now token keyfunc
        ∙ (sample_jwt-IsComplete registered same (side token)).parse-sign h c key token opts now
            keyfunc (sign-side h c key token distinct signed) given begun met;
    numeric_date-le = λ t. omega arith;
  }

  pub sign_first : sign_either a.header a.claims a.signer ≡ some a.token
  unfolding sign_either
  sign_first = rw (sample_sign_self registered same a) refl

  pub sign_second :
      ¬ (
        ◌≡◌ {A = Header × C × PrivateKey}
          (b.header, b.claims, b.signer)
          (a.header, a.claims, a.signer))
      → sign_either b.header b.claims b.signer ≡ some b.token
  unfolding sign_either sample_sign
  sign_second other =
      rw
        (
          chosen-no a.token (same (b.header, b.claims, b.signer) (a.header, a.claims, a.signer))
              other,
          chosen-yes b.token (same (b.header, b.claims, b.signer) (b.header, b.claims, b.signer))
              refl,
        )
        refl
