-- ===== src/Tokens/Laws.antt =====
-- Typed tokens: what a parse of one has checked, and that an issued one is parsed.
use ai_agent_security.Base.{
  Str, ◌≡◌, refl, ◌≢◌, ◌≤◌, ◌<◌, inl, inr, true, [], ◌∷◌, List, some, ok, All, Any, Option-cases,
  Time, ℤ, add_time, arith,
}
use ai_agent_security.Keys.{PublicKey, PrivateKey}
use ai_agent_security.Jwt.{
  Header, RegisteredClaims, ParserOption, with_issuer, with_audience, with_expiration_required, Jwt,
  IsSound, Meets, HasBegun, IsComplete, IsTimely,
}
use ai_agent_security.Identity.Token.{keyfunc_for}
use ai_agent_security.Identity.TokenLaws.{keyfunc_for_sound, keyfunc_for_self}
use ai_agent_security.Tokens.{parse_typed, registered_for, typed_header, audience_options}

-- What a token that was parsed is known to be: of the type asked for, signed under the key, and not
-- expired.
pub record IsVerified {C : Type 0} (registered : C → RegisteredClaims) (jwt : Jwt C)
    (sound : IsSound registered jwt) (want : Str) (key : PublicKey) (now : Time) (token : Str)
    (c : C) : Type 0 where
  pub header : Header
  pub decoded : sound.decode token ≡ some (header, c)
  pub typed : header.typ ≡ some want
  pub signed : sound.verify key token ≡ true
  pub expiry : Time
  pub expires : (registered c).expires_at ≡ some expiry
  pub unexpired : now < expiry

module _ {C : Type 0} (registered : C → RegisteredClaims) (jwt : Jwt C) where
  module _ (sound : IsSound registered jwt) (opts : List ParserOption) (want : Str)
      (key : PublicKey) (now : Time) (token : Str) (c : C)
      (h : parse_typed jwt opts want key now token ≡ ok c) where
    pub parse_typed-IsVerified :
        want ≢ []
        → Any (λ o. o ≡ with_expiration_required) opts
        → IsVerified registered jwt sound want key now token c
    unfolding parse_typed
    parse_typed-IsVerified ne required =
        elim (Option-cases (jwt.parse opts now token (keyfunc_for want key))) [
          | inl bad ↦ ground arith
          | inr (p, parsed) ↦
              let claimed : c ≡ p.claims = ground arith in
              let (k, given, verified) = sound.parse_verifies _ now token _ p parsed in
              let (typed, same) = keyfunc_for_sound want key p.header k ne given in
              let (e, expires, live) = sound.parse_expiry _ now token _ p parsed required in
              record {
                header = p.header;
                decoded = rw claimed (sound.parse_decodes _ now token _ p parsed);
                typed = typed;
                signed = rw same at verified;
                expiry = e;
                expires = rw claimed expires;
                unexpired = live;
              }
        ]

    pub parse_typed-issuer :
        (iss : Str) → Any (λ o. o ≡ with_issuer iss) opts → (registered c).issuer ≡ iss
    unfolding parse_typed
    parse_typed-issuer iss asked =
        elim (Option-cases (jwt.parse opts now token (keyfunc_for want key))) [
          | inl bad ↦ ground arith
          | inr (p, parsed) ↦
              let claimed : c ≡ p.claims = ground arith in
              rw claimed (sound.parse_issuer _ now token _ p iss parsed asked)
        ]

    pub parse_typed-audience :
        (aud : Str)
        → Any (λ o. o ≡ with_audience aud) opts
        → Any (λ a. a ≡ aud) (registered c).audience
    unfolding parse_typed
    parse_typed-audience aud asked =
        elim (Option-cases (jwt.parse opts now token (keyfunc_for want key))) [
          | inl bad ↦ ground arith
          | inr (p, parsed) ↦
              let claimed : c ≡ p.claims = ground arith in
              rw claimed (sound.parse_audience _ now token _ p aud parsed asked)
        ]

  pub parse_typed-sign :
      (opts : List ParserOption) (want : Str) (h : Header) (key : PrivateKey) (now : Time)
      (token : Str) (c : C)
      → IsComplete registered jwt
      → h.typ ≡ some want
      → jwt.sign h c key ≡ some token
      → HasBegun now (registered c)
      → All (Meets now (registered c)) opts
      → parse_typed jwt opts want key.public now token ≡ ok c
  unfolding parse_typed
  parse_typed-sign opts want h key now token c complete typed signed begun met =
      let parsed =
        complete.parse-sign h c key token opts now (keyfunc_for want key.public) signed
          (keyfunc_for_self want key.public h typed) begun met in
      ground (arith, parsed)

  -- A token of an issuer for one audience is parsed by a validator of that issuer and audience, from
  -- its issue until it expires.
  pub parse_typed-issued :
      (want iss sub aud id : Str) (ttl : ℤ) (key : PrivateKey) (issued_at now : Time) (token : Str)
      (c : C)
      → IsComplete registered jwt
      → registered c ≡ registered_for jwt iss sub (aud ∷ []) issued_at ttl id
      → jwt.sign (typed_header want) c key ≡ some token
      → issued_at ≤ now
      → now < jwt.numeric_date (add_time issued_at ttl)
      → parse_typed jwt (audience_options iss aud) want key.public now token ≡ ok c
  parse_typed-issued want iss sub aud id ttl key issued_at now token c complete same signed begun
        live =
      let rounded = complete.numeric_date-le issued_at in
      parse_typed-sign (audience_options iss aud) want (typed_header want) key now token c complete
        refl signed (rw same (λ t e. cc))
        (rw same (refl, (inl refl, ((_, refl, live), ((_, refl, omega arith), (inl refl, tt))))))

  -- Until a token expires, the clock has no part in its parse any more.
  pub parse_typed_later :
      (opts : List ParserOption) (want : Str) (key key' : PublicKey) (earlier now : Time)
      (token : Str) (c : C)
      → IsTimely registered jwt
      → parse_typed jwt opts want key earlier token ≡ ok c
      → earlier ≤ now
      → ((e : Time) → (registered c).expires_at ≡ some e → now < e)
      → parse_typed jwt opts want key' now token ≡ parse_typed jwt opts want key' earlier token
  unfolding parse_typed
  parse_typed_later opts want key key' earlier now token c timely h past live =
      elim (Option-cases (jwt.parse opts earlier token (keyfunc_for want key))) [
        | inl bad ↦ ground arith
        | inr (p, parsed) ↦
            let claimed : c ≡ p.claims = ground arith in
            rw
              (timely.parse_later opts earlier now token (keyfunc_for want key)
                (keyfunc_for want key') p parsed past (rw claimed at live))
              refl
      ]
