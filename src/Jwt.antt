-- ===== src/Jwt.antt =====
-- The library github.com/golang-jwt/jwt/v5 as the program calls it. It is not part of the
-- repository, so it is a parameter: its calls are the fields of `Jwt`, and what its documentation
-- promises of them are the fields of `IsSound` and `IsComplete`, hypotheses of theorems.
use ai_agent_security.Base.{
  ◌≤◌, ◌<◌, Str, bytes, ◌≡◌, Bool, true, List, Option, some, All, Any, Time,
}
use ai_agent_security.Keys.{PublicKey, PrivateKey}

-- The header fields that the program sets or reads; `jwk` is raw JSON.
pub record Header : Type 0 where
  pub typ : Option Str
  pub kid : Option Str
  pub jwk : Option Str

-- jwt.RegisteredClaims
pub record RegisteredClaims : Type 0 where
  pub issuer : Str
  pub subject : Str
  pub audience : List Str
  pub expires_at : Option Time
  pub not_before : Option Time
  pub issued_at : Option Time
  pub id : Str

pub data ParserOption : Type 0 where
  with_issuer with_audience : Str → ParserOption
  with_expiration_required with_issued_at : ParserOption
  with_valid_methods : List Str → ParserOption

-- The parsed jwt.Token
pub record Parsed (C : Type 0) : Type 0 where
  pub header : Header
  pub claims : C
  pub valid : Bool

pub record Jwt (C : Type 0) : Type 0 where
  -- `jwt.NewParser(options...).ParseWithClaims(token, &C{}, keyfunc)` at an instant; `none` is an
  -- error, also one of the keyfunc.
  pub parse : List ParserOption → Time → Str → (Header → Option PublicKey) → Option (Parsed C)
  -- `NewWithClaims(SigningMethodES256, claims)`, the header fields and `SignedString(key)`
  pub sign : Header → C → PrivateKey → Option Str
  -- `NewNumericDate`, which truncates to the precision of the library
  pub numeric_date : Time → Time

module _ {C : Type 0} (registered : C → RegisteredClaims) (jwt : Jwt C) where
  -- A parse that succeeds has decoded the token, taken the key from the keyfunc, verified the
  -- signature under it, and checked what the options ask for.
  pub record IsSound : Type 0 where
    pub decode : Str → Option (Header × C)
    pub verify : PublicKey → Str → Bool
    pub parse_decodes :
        (opts : List ParserOption) (now : Time) (token : Str) (keyfunc : Header → Option PublicKey)
        (p : Parsed C)
        → jwt.parse opts now token keyfunc ≡ some p
        → decode token ≡ some (p.header, p.claims)
    pub parse_verifies :
        (opts : List ParserOption) (now : Time) (token : Str) (keyfunc : Header → Option PublicKey)
        (p : Parsed C)
        → jwt.parse opts now token keyfunc ≡ some p
        → (key : PublicKey) × (keyfunc p.header ≡ some key) × (verify key token ≡ true)
    pub parse_expiry :
        (opts : List ParserOption) (now : Time) (token : Str) (keyfunc : Header → Option PublicKey)
        (p : Parsed C)
        → jwt.parse opts now token keyfunc ≡ some p
        → Any (λ o. o ≡ with_expiration_required) opts
        → (e : Time) × ((registered p.claims).expires_at ≡ some e) × (now < e)
    pub parse_issuer :
        (opts : List ParserOption) (now : Time) (token : Str) (keyfunc : Header → Option PublicKey)
        (p : Parsed C) (iss : Str)
        → jwt.parse opts now token keyfunc ≡ some p
        → Any (λ o. o ≡ with_issuer iss) opts
        → (registered p.claims).issuer ≡ iss
    pub parse_audience :
        (opts : List ParserOption) (now : Time) (token : Str) (keyfunc : Header → Option PublicKey)
        (p : Parsed C) (aud : Str)
        → jwt.parse opts now token keyfunc ≡ some p
        → Any (λ o. o ≡ with_audience aud) opts
        → Any (λ a. a ≡ aud) (registered p.claims).audience

-- What an option asks of the claims.
abbrev pub Meets : Time → RegisteredClaims → ParserOption → Type 0
Meets now c (with_issuer iss) = c.issuer ≡ iss
Meets now c (with_audience aud) = Any (λ a. a ≡ aud) c.audience
Meets now c with_expiration_required = (e : Time) × (c.expires_at ≡ some e) × (now < e)
Meets now c with_issued_at = (t : Time) × (c.issued_at ≡ some t) × (t ≤ now)
Meets now c (with_valid_methods ms) = Any (λ m. m ≡ bytes "ES256") ms

-- The parser always looks at `nbf`, where it is there.
abbrev pub HasBegun : Time → RegisteredClaims → Type 0
HasBegun now c = (t : Time) → c.not_before ≡ some t → t ≤ now

-- A token that was signed is parsed, under the public key of its signer, to what was signed.
pub record IsComplete {C : Type 0} (registered : C → RegisteredClaims) (jwt : Jwt C) : Type 0 where
  pub parse-sign :
      (h : Header) (c : C) (key : PrivateKey) (token : Str) (opts : List ParserOption) (now : Time)
      (keyfunc : Header → Option PublicKey)
      → jwt.sign h c key ≡ some token
      → keyfunc h ≡ some key.public
      → HasBegun now (registered c)
      → All (Meets now (registered c)) opts
      → jwt.parse opts now token keyfunc ≡ some (record { header = h; claims = c; valid = true })
  pub numeric_date-le : (t : Time) → jwt.numeric_date t ≤ t

-- Once a token has passed the checks of an instant, the clock has no part in its parse at a later
-- instant before its expiry, under whatever key.
pub record IsTimely {C : Type 0} (registered : C → RegisteredClaims) (jwt : Jwt C) : Type 0 where
  pub parse_later :
      (opts : List ParserOption) (earlier now : Time) (token : Str)
      (keyfunc keyfunc' : Header → Option PublicKey) (p : Parsed C)
      → jwt.parse opts earlier token keyfunc ≡ some p
      → earlier ≤ now
      → ((e : Time) → (registered p.claims).expires_at ≡ some e → now < e)
      → jwt.parse opts now token keyfunc' ≡ jwt.parse opts earlier token keyfunc'
