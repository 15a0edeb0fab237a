-- ===== src/Samples/OneToken.antt =====
-- A JWT library for tests that knows one token: it signs only what that token carries, and parses
-- only that token. It has what the hypotheses `IsSound` and `IsComplete` ask for.
use mathlib.Core.Path.{◌≡◌, refl, ap}
use ai_agent_security.Base.{
  ◌<◌, Str, ◌==◌, eq_iff, eq_refl, bytes, Bool, true, false, ◌&&◌, List, [], ◌∷◌, Option, none,
  some, All, Any, Time, inl, inr, Bool-cases, Option-cases, ltb, leb, eqb, eqb_iff, if◌then◌else◌,
  arith,
}
use ai_agent_security.Keys.{Curve, p224, p256, p384, p521, PublicKey, PrivateKey}
use ai_agent_security.Jwt.{
  Header, RegisteredClaims, ParserOption, with_issuer, with_audience, with_expiration_required,
  with_issued_at, with_valid_methods, Parsed, Jwt, IsSound, Meets, HasBegun, IsComplete,
}

pub record Signed (C : Type 0) : Type 0 where
  pub header : Header
  pub claims : C
  pub signer : PrivateKey
  pub token : Str

same_curve : Curve → Curve → Bool
same_curve p224 p224 = true
same_curve p256 p256 = true
same_curve p384 p384 = true
same_curve p521 p521 = true
same_curve _ _ = false

same_curve_sound : (c d : Curve) → same_curve c d ≡ true → c ≡ d
unfolding same_curve
same_curve_sound p224 p224 h = refl
same_curve_sound p256 p256 h = refl
same_curve_sound p384 p384 h = refl
same_curve_sound p521 p521 h = refl
same_curve_sound _ _ h = cc

same_curve_refl : (c : Curve) → same_curve c c ≡ true
unfolding same_curve
same_curve_refl p224 = refl
same_curve_refl p256 = refl
same_curve_refl p384 = refl
same_curve_refl p521 = refl

unfoldable pub same_key : PublicKey → PublicKey → Bool
unfolding same_curve
same_key a b = same_curve a.curve b.curve && eqb a.x b.x && eqb a.y b.y

same_key_sound : (a b : PublicKey) → same_key a b ≡ true → a ≡ b
unfolding same_key
same_key_sound a b h =
    let curves : a.curve ≡ b.curve = same_curve_sound a.curve b.curve (ground arith) in
    let xs : a.x ≡ b.x = (eqb_iff a.x b.x).0 (ground arith) in
    let ys : a.y ≡ b.y = (eqb_iff a.y b.y).0 (ground arith) in cc

same_key_refl : (a : PublicKey) → same_key a a ≡ true
unfolding same_key
same_key_refl a =
    ground (arith, same_curve_refl a.curve, (eqb_iff a.x a.x).1 refl, (eqb_iff a.y a.y).1 refl)

unfoldable pub member : Str → List Str → Bool
member a [] = false
member a (b ∷ bs) = if b == a then true else member a bs

member_sound : (a : Str) (bs : List Str) → member a bs ≡ true → Any (λ b. b ≡ a) bs
unfolding member
member_sound a [] h = cc
member_sound a (b ∷ bs) h = elim (Bool-cases (b == a)) [
  | inl same ↦ inl ((eq_iff b a).0 same)
  | inr other ↦ inr (member_sound a bs (ground arith))
]

member_complete : (a : Str) (bs : List Str) → Any (λ b. b ≡ a) bs → member a bs ≡ true
unfolding member
member_complete a [] h = absurd h
member_complete a (b ∷ bs) (inl same) = ground (arith, (eq_iff b a).1 same)
member_complete a (b ∷ bs) (inr rest) = ground (arith, member_complete a bs rest)

unfoldable pub before : Time → Option Time → Bool
before now none = false
before now (some e) = ltb now e

unfoldable pub since : Time → Option Time → Bool
since now none = false
since now (some t) = leb t now

unfoldable pub is_met : Time → RegisteredClaims → ParserOption → Bool
unfolding before since
is_met now c (with_issuer iss) = c.issuer == iss
is_met now c (with_audience aud) = member aud c.audience
is_met now c with_expiration_required = before now c.expires_at
is_met now c with_issued_at = since now c.issued_at
is_met now c (with_valid_methods ms) = member (bytes "ES256") ms

unfoldable pub all_met : Time → RegisteredClaims → List ParserOption → Bool
all_met now c [] = true
all_met now c (o ∷ os) = is_met now c o && all_met now c os

all_met-is_met :
    (now : Time) (c : RegisteredClaims) (os : List ParserOption) (o : ParserOption)
    → all_met now c os ≡ true
    → Any (λ p. p ≡ o) os
    → is_met now c o ≡ true
unfolding all_met
all_met-is_met now c [] o h there = absurd there
all_met-is_met now c (p ∷ os) o h (inl same) =
    let met : is_met now c p ≡ true = ground arith in rw same at met
all_met-is_met now c (p ∷ os) o h (inr there) = all_met-is_met now c os o (ground arith) there

Meets-is_met :
    (now : Time) (c : RegisteredClaims) (o : ParserOption) → Meets now c o → is_met now c o ≡ true
unfolding is_met before since
Meets-is_met now c (with_issuer iss) h = (eq_iff c.issuer iss).1 h
Meets-is_met now c (with_audience aud) h = member_complete aud c.audience h
Meets-is_met now c with_expiration_required (e, expires, live) = ground arith
Meets-is_met now c with_issued_at (t, issued, past) = ground arith
Meets-is_met now c (with_valid_methods ms) h = member_complete (bytes "ES256") ms h

Meets-all_met :
    (now : Time) (c : RegisteredClaims) (os : List ParserOption)
    → All (Meets now c) os
    → all_met now c os ≡ true
unfolding all_met
Meets-all_met now c [] h = refl
Meets-all_met now c (o ∷ os) (m, h) =
    ground (arith, Meets-is_met now c o m, Meets-all_met now c os h)

abbrev pub chosen : {P : Type 0} → Str → Dec P → Option Str
chosen token (yes e) = some token
chosen token (no ne) = none

pub chosen-yes : {P : Type 0} (token : Str) (d : Dec P) → P → chosen token d ≡ some token
chosen-yes token (yes e) h = refl
chosen-yes token (no ne) h = absurd (ne h)

pub chosen-no : {P : Type 0} (token : Str) (d : Dec P) → ¬ P → chosen token d ≡ none
chosen-no token (yes e) ne = absurd (ne e)
chosen-no token (no ne) ne' = refl

pub chosen_sound :
    {P : Type 0} (token t : Str) (d : Dec P) → chosen token d ≡ some t → P × (t ≡ token)
chosen_sound token t (yes e) h = (e, cc)
chosen_sound token t (no ne) h = cc

module _ {C : Type 0} (registered : C → RegisteredClaims)
    (same : Discrete (Header × C × PrivateKey)) (s : Signed C) where
  unfoldable pub under : List ParserOption → Time → Option PublicKey → Option (Parsed C)
  under opts now none = none
  under opts now (some key) =
      if same_key key s.signer.public && all_met now (registered s.claims) opts
      then some (record { header = s.header; claims = s.claims; valid = true })
      else none

  unfoldable pub sample_parse :
      List ParserOption → Time → Str → (Header → Option PublicKey) → Option (Parsed C)
  unfolding under
  sample_parse opts now token keyfunc =
      if token == s.token then under opts now (keyfunc s.header) else none

  unfoldable pub sample_sign : Header → C → PrivateKey → Option Str
  sample_sign h c key = chosen s.token (same (h, c, key) (s.header, s.claims, s.signer))

  abbrev pub sample_jwt : Jwt C
  sample_jwt = record { parse = sample_parse; sign = sample_sign; numeric_date = λ t. t }

  sample_decode : Str → Option (Header × C)
  sample_decode token = if token == s.token then some (s.header, s.claims) else none

  sample_verify : PublicKey → Str → Bool
  sample_verify key token = (token == s.token) && same_key key s.signer.public

  -- What a successful parse has found.
  pub parsed_facts :
      (opts : List ParserOption) (now : Time) (token : Str) (keyfunc : Header → Option PublicKey)
      (p : Parsed C)
      → sample_parse opts now token keyfunc ≡ some p
      → ((token == s.token) ≡ true)
        × (p ≡ record { header = s.header; claims = s.claims; valid = true })
        × ((key : PublicKey) × (keyfunc s.header ≡ some key)
            × (same_key key s.signer.public ≡ true))
        × (all_met now (registered s.claims) opts ≡ true)
  unfolding sample_parse
  parsed_facts opts now token keyfunc p h = elim (Option-cases (keyfunc s.header)) [
    | inl missing ↦ ground arith
    | inr (key, given) ↦ (ground arith, ground arith, (key, given, ground arith), ground arith)
  ]

  decode-parsed :
      (opts : List ParserOption) (now : Time) (token : Str) (keyfunc : Header → Option PublicKey)
      (p : Parsed C)
      → sample_parse opts now token keyfunc ≡ some p
      → sample_decode token ≡ some (p.header, p.claims)
  unfolding sample_decode
  decode-parsed opts now token keyfunc p h =
      let (known, is_p, its, met) = parsed_facts opts now token keyfunc p h in rw (known, is_p) refl

  verify-parsed :
      (opts : List ParserOption) (now : Time) (token : Str) (keyfunc : Header → Option PublicKey)
      (p : Parsed C)
      → sample_parse opts now token keyfunc ≡ some p
      → (key : PublicKey) × (keyfunc p.header ≡ some key) × (sample_verify key token ≡ true)
  unfolding sample_verify
  verify-parsed opts now token keyfunc p h =
      let (known, is_p, (key, given, its), met) = parsed_facts opts now token keyfunc p h in
      (key, rw is_p given, rw (known, its) refl)

  met-parsed :
      (opts : List ParserOption) (now : Time) (token : Str) (keyfunc : Header → Option PublicKey)
      (p : Parsed C) (o : ParserOption)
      → sample_parse opts now token keyfunc ≡ some p
      → Any (λ q. q ≡ o) opts
      → is_met now (registered p.claims) o ≡ true
  met-parsed opts now token keyfunc p o h there =
      let (known, is_p, its, met) = parsed_facts opts now token keyfunc p h in
      rw is_p (all_met-is_met now (registered s.claims) opts o met there)

  before_sound :
      (now : Time) (e : Option Time) → before now e ≡ true → (t : Time) × (e ≡ some t) × (now < t)
  unfolding before
  before_sound now none h = cc
  before_sound now (some t) h = (t, refl, ground arith)

  pub sample_jwt-IsSound : IsSound registered sample_jwt
  unfolding is_met
  sample_jwt-IsSound = record {
    decode = sample_decode;
    verify = sample_verify;
    parse_decodes = decode-parsed;
    parse_verifies = verify-parsed;
    parse_expiry = λ opts now token keyfunc p h there.
        before_sound now (registered p.claims).expires_at
          (met-parsed opts now token keyfunc p with_expiration_required h there);
    parse_issuer = λ opts now token keyfunc p iss h there.
        (eq_iff (registered p.claims).issuer iss).0
          (met-parsed opts now token keyfunc p (with_issuer iss) h there);
    parse_audience = λ opts now token keyfunc p aud h there.
        member_sound aud (registered p.claims).audience
          (met-parsed opts now token keyfunc p (with_audience aud) h there);
  }

  -- Only the known token is decoded, to its claims.
  pub decode_sound :
      (token : Str) (h : Header) (c : C)
      → sample_jwt-IsSound.decode token ≡ some (h, c)
      → (token ≡ s.token) × (c ≡ s.claims)
  unfolding sample_jwt-IsSound sample_decode
  decode_sound token h c e = (ground (arith, eq_iff token s.token), ground arith)

  pub sample_sign_self : sample_sign s.header s.claims s.signer ≡ some s.token
  unfolding sample_sign
  sample_sign_self =
      chosen-yes s.token (same (s.header, s.claims, s.signer) (s.header, s.claims, s.signer)) refl

  parse-signed :
      (h : Header) (c : C) (key : PrivateKey) (token : Str) (opts : List ParserOption) (now : Time)
      (keyfunc : Header → Option PublicKey)
      → sample_sign h c key ≡ some token
      → keyfunc h ≡ some key.public
      → HasBegun now (registered c)
      → All (Meets now (registered c)) opts
      → sample_parse opts now token keyfunc ≡ some (record { header = h; claims = c; valid = true })
  unfolding sample_sign sample_parse
  parse-signed h c key token opts now keyfunc signed given begun met =
      let (e, is_token) =
        chosen_sound s.token token (same (h, c, key) (s.header, s.claims, s.signer)) signed in
      let h_is : h ≡ s.header = ap (λ t. t.0) e in
      let c_is : c ≡ s.claims = ap (λ t. t.1) e in
      let key_is : key ≡ s.signer = ap (λ t. t.2) e in
      let given' : keyfunc s.header ≡ some s.signer.public = ground arith in
      let met' : all_met now (registered s.claims) opts ≡ true =
        Meets-all_met now (registered s.claims) opts (rw c_is at met) in
      rw (h_is, c_is, is_token) (ground (arith, eq_refl s.token, same_key_refl s.signer.public))

  pub sample_jwt-IsComplete : IsComplete registered sample_jwt
  sample_jwt-IsComplete = record { parse-sign = parse-signed; numeric_date-le = λ t. omega arith }
