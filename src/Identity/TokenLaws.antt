-- ===== src/Identity/TokenLaws.antt =====
-- Agent tokens of pkg/identity/token.go: validated tokens and issued ones.
use ai_agent_security.Base.{
  Str, eq_iff, eq_refl, ◌≡◌, refl, ◌≢◌, ◌<◌, inl, inr, true, List, [], ◌++◌, some, ok, Option-cases,
  Time, arith,
}
use ai_agent_security.Keys.{PublicKey, Jwk, jwk_to_public_key}
use ai_agent_security.Platform.{Platform}
use ai_agent_security.Jwt.{Header, ParserOption, Jwt, IsSound}
use ai_agent_security.Identity.Token.{
  agent_token_type, AgentClaims, ValidatedAgent, default_options, new_agent_validator, keyfunc_for,
  validate,
}

-- A keyfunc gives its key exactly to tokens of its type.
pub keyfunc_for_sound :
    (want : Str) (key : PublicKey) (h : Header) (k : PublicKey)
    → want ≢ []
    → keyfunc_for want key h ≡ some k
    → (h.typ ≡ some want) × (k ≡ key)
unfolding keyfunc_for
keyfunc_for_sound want key h k ne e = elim (Option-cases h.typ) [
  | inl missing ↦ ground (arith, eq_iff [] want)
  | inr (typ, there) ↦ ground (arith, eq_iff typ want)
]

pub keyfunc_for_self :
    (want : Str) (key : PublicKey) (h : Header)
    → h.typ ≡ some want
    → keyfunc_for want key h ≡ some key
unfolding keyfunc_for
keyfunc_for_self want key h e = ground (arith, eq_refl want)

-- What a validated agent token is known to be: of the type "agent+jwt", signed by the IdP, of its
-- issuer, not expired, and with the workload key that the token confirms.
pub record IsGenuine (std : Platform) (jwt : Jwt AgentClaims)
    (sound : IsSound (λ c. c.registered) jwt) (issuer : Str) (idp_pub : PublicKey) (now : Time)
    (token : Str) (va : ValidatedAgent) : Type 0 where
  pub header : Header
  pub decoded : sound.decode token ≡ some (header, va.claims)
  pub typed : header.typ ≡ some agent_token_type
  pub signed : sound.verify idp_pub token ≡ true
  pub issued : va.claims.registered.issuer ≡ issuer
  pub expiry : Time
  pub expires : va.claims.registered.expires_at ≡ some expiry
  pub unexpired : now < expiry
  pub jwk : Jwk
  pub confirmed : std.jwk_of_json va.claims.cnf_jwk ≡ some jwk
  pub bound : jwk_to_public_key jwk ≡ ok va.workload_key

module _ (std : Platform) (jwt : Jwt AgentClaims) (sound : IsSound (λ c. c.registered) jwt) where
  -- Every token that an agent validator accepts is genuine.
  pub validate-IsGenuine :
      (issuer : Str) (idp_pub : PublicKey) (opts : List ParserOption) (now : Time) (token : Str)
      (va : ValidatedAgent)
      → validate std jwt (new_agent_validator issuer idp_pub opts) now token ≡ ok va
      → IsGenuine std jwt sound issuer idp_pub now token va
  unfolding validate new_agent_validator
  validate-IsGenuine issuer idp_pub opts now token va h =
      elim (Option-cases
        (jwt.parse (default_options ++ opts) now token (keyfunc_for agent_token_type idp_pub))) [
          | inl bad ↦ ground arith
          | inr (p, parsed) ↦ elim (Option-cases (std.jwk_of_json p.claims.cnf_jwk)) [
            | inl bad ↦ ground arith
            | inr (jwk, read) ↦
                let (key, given, verified) = sound.parse_verifies _ now token _ p parsed in
                let (typed, same) =
                  keyfunc_for_sound agent_token_type idp_pub p.header key (cc) given in
                let (e, expires, live) = sound.parse_expiry _ now token _ p parsed (inl refl) in
                let claimed : va.claims ≡ p.claims = ground arith in
                record {
                  header = p.header;
                  decoded = rw claimed (sound.parse_decodes _ now token _ p parsed);
                  typed = typed;
                  signed = rw same at verified;
                  issued = ground (arith, eq_iff p.claims.registered.issuer issuer);
                  expiry = e;
                  expires = rw claimed expires;
                  unexpired = live;
                  jwk = jwk;
                  confirmed = rw claimed read;
                  bound = ground arith;
                }
          ]
        ]
