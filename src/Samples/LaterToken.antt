-- ===== src/Samples/LaterToken.antt =====
-- The JWT library of Samples/OneToken keeps accepting its token until it expires.
use ai_agent_security.Base.{
  ◌≤◌, ◌<◌, Str, ◌≡◌, refl, true, List, [], ◌∷◌, Option, none, some, Time, Option-cases, inl, inr,
  arith,
}
use ai_agent_security.Keys.{PublicKey, PrivateKey}
use ai_agent_security.Jwt.{
  Header, RegisteredClaims, ParserOption, with_issuer, with_audience, with_expiration_required,
  with_issued_at, with_valid_methods, Parsed, IsTimely,
}
use ai_agent_security.Samples.OneToken.{
  Signed, is_met, all_met, before, since, sample_parse, sample_jwt, parsed_facts, under,
}

is_met_later :
    (t now : Time) (c : RegisteredClaims) (o : ParserOption)
    → t ≤ now
    → ((e : Time) → c.expires_at ≡ some e → now < e)
    → is_met t c o ≡ true
    → is_met now c o ≡ true
unfolding is_met before since
is_met_later t now c (with_issuer iss) past live h = h
is_met_later t now c (with_audience aud) past live h = h
is_met_later t now c with_expiration_required past live h = elim (Option-cases c.expires_at) [
  | inl missing ↦ ground arith
  | inr (e, expires) ↦ ground (arith, live e)
]
is_met_later t now c with_issued_at past live h = elim (Option-cases c.issued_at) [
  | inl missing ↦ ground arith
  | inr (i, issued) ↦ ground arith
]
is_met_later t now c (with_valid_methods ms) past live h = h

all_met_later :
    (t now : Time) (c : RegisteredClaims) (os : List ParserOption)
    → t ≤ now
    → ((e : Time) → c.expires_at ≡ some e → now < e)
    → all_met t c os ≡ true
    → all_met now c os ≡ true
unfolding all_met
all_met_later t now c [] past live h = refl
all_met_later t now c (o ∷ os) past live h = ground (
  arith,
  is_met_later t now c o past live (ground arith),
  all_met_later t now c os past live (ground arith),
)

module _ {C : Type 0} (registered : C → RegisteredClaims)
    (same : Discrete (Header × C × PrivateKey)) (s : Signed C) where
  under_later :
      (opts : List ParserOption) (t now : Time) (key : Option PublicKey)
      → all_met t (registered s.claims) opts ≡ true
      → all_met now (registered s.claims) opts ≡ true
      → under registered same s opts now key ≡ under registered same s opts t key
  unfolding under
  under_later opts t now none was is = refl
  under_later opts t now (some key) was is = rw (was, is) refl

  parsed_later :
      (opts : List ParserOption) (t now : Time) (token : Str)
      (keyfunc keyfunc' : Header → Option PublicKey) (p : Parsed C)
      → sample_parse registered same s opts t token keyfunc ≡ some p
      → t ≤ now
      → ((e : Time) → (registered p.claims).expires_at ≡ some e → now < e)
      → sample_parse registered same s opts now token keyfunc'
        ≡ sample_parse registered same s opts t token keyfunc'
  unfolding sample_parse
  parsed_later opts t now token keyfunc keyfunc' p h past live =
      let (known, p_is, its, met) = parsed_facts registered same s opts t token keyfunc p h in
      let met' =
        all_met_later t now (registered s.claims) opts past (λ e expires. live e (rw p_is expires))
          met in
      rw (known, under_later opts t now (keyfunc' s.header) met met') refl

  pub sample_jwt-IsTimely : IsTimely registered (sample_jwt registered same s)
  sample_jwt-IsTimely = record { parse_later = parsed_later }
