-- ===== src/Tokens.antt =====
-- What the issuers and validators of pkg/obo, pkg/txntoken and pkg/identitychaining share: the claims
-- that they set alike, the options of their parsers, and the parse with a test of the `typ` header.
pub mod Laws
use ai_agent_security.Base.{
  Str, List, [], ◌∷◌, none, some, Result, ok, ◌>>=◌, ◌>>◌, guard, require, Time, ℤ, add_time,
}
use ai_agent_security.Keys.{PublicKey}
use ai_agent_security.Jwt.{Header, RegisteredClaims, ParserOption, with_issuer, with_audience, Jwt}
use ai_agent_security.Identity.Token.{default_options, keyfunc_for}

pub data Error : Type 0 where
  parse_failed not_valid : Error

-- `jwt.RegisteredClaims{...}`, issued at `now` for `ttl`
abbrev pub registered_for :
    {C : Type 0} → Jwt C → Str → Str → List Str → Time → ℤ → Str → RegisteredClaims
registered_for jwt issuer_id subject audience now ttl id = record {
  issuer = issuer_id;
  subject = subject;
  audience = audience;
  expires_at = some (jwt.numeric_date (add_time now ttl));
  not_before = none;
  issued_at = some (jwt.numeric_date now);
  id = id;
}

abbrev pub typed_header : Str → Header
typed_header typ = record { typ = some typ; kid = none; jwk = none }

abbrev pub issuer_options : Str → List ParserOption
issuer_options issuer_id = with_issuer issuer_id ∷ default_options

abbrev pub audience_options : Str → Str → List ParserOption
audience_options issuer_id audience =
    with_issuer issuer_id ∷ with_audience audience ∷ default_options

-- `ParseWithClaims` with a keyfunc that asks for the type `want`, and the test of `t.Valid`
unfoldable pub parse_typed :
    {C : Type 0} → Jwt C → List ParserOption → Str → PublicKey → Time → Str → Result Error C
parse_typed jwt opts want key now token = do
  parsed ← require (jwt.parse opts now token (keyfunc_for want key)) parse_failed
  guard parsed.valid not_valid
  ok parsed.claims
