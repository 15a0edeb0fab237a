-- ===== src/Spiffeclientauth/Laws.antt =====
-- Client authentication: which requests get an access token, and for whom.
use ai_agent_security.Base.{
  Str, ℕ, zero, ◌/◌, ◌*◌, ◌+◌, ◌≤◌, ◌<◌, bytes, eq_iff, ◌≡◌, refl, inl, inr, List, ok, Time, ℤ, pos,
  negsuc, suc, is_nonpos, minutes, Result-cases, arith, if◌then◌else◌,
}
use ai_agent_security.Keys.{PublicKey}
use ai_agent_security.Keys.Base64.{encode}
use ai_agent_security.Platform.{Platform}
use ai_agent_security.Jwt.{Jwt, ParserOption, IsSound}
use ai_agent_security.Identity.Token.{AgentClaims, ValidatedAgent, new_agent_validator, validate}
use ai_agent_security.Identity.TokenLaws.{IsGenuine, validate-IsGenuine}
use ai_agent_security.Spiffeclientauth.{
  jwt_bearer, AuthRequest, AccessToken, new_authenticator, negative, seconds_of, authenticate,
}

-- A duration in nanoseconds is that many seconds, the rest being cut off towards zero.
abbrev pub AreSeconds : ℤ → ℤ → Type 0
AreSeconds (pos d) (pos n) = (n * 1_000_000_000 ≤ d) × (d < (n + 1) * 1_000_000_000)
AreSeconds (pos d) (negsuc n) = ⊥
AreSeconds (negsuc d) (pos n) = (n ≡ 0) × (suc d < 1_000_000_000)
AreSeconds (negsuc d) (negsuc n) =
    (suc n * 1_000_000_000 ≤ suc d) × (suc d < (suc n + 1) * 1_000_000_000)

negative-AreSeconds :
    (d n : ℕ)
    → n * 1_000_000_000 ≤ suc d
    → suc d < (n + 1) * 1_000_000_000
    → AreSeconds (negsuc d) (negative n)
negative-AreSeconds d zero least most = (refl, omega arith)
negative-AreSeconds d (suc n) least most = (omega arith, omega arith)

seconds_of-AreSeconds : (d : ℤ) → AreSeconds d (seconds_of d)
unfolding seconds_of
seconds_of-AreSeconds (pos d) = (omega arith, omega arith)
seconds_of-AreSeconds (negsuc d) =
    negative-AreSeconds d (suc d / 1_000_000_000) (omega arith) (omega arith)

-- What a client that gets an access token has proved, and what the token says of it.
pub record IsClient (std : Platform) (jwt : Jwt AgentClaims)
    (sound : IsSound (λ c. c.registered) jwt) (idp : Str) (idp_pub : PublicKey) (ttl : ℤ)
    (req : AuthRequest) (now : Time) (drawn : Str) (t : AccessToken) : Type 0 where
  pub bearer :
      req.client_assertion_type ≡ bytes "urn:ietf:params:oauth:client-assertion-type:jwt-bearer"
  pub agent : ValidatedAgent
  pub genuine : IsGenuine std jwt sound idp idp_pub now req.client_assertion agent
  pub subject : t.sub ≡ agent.claims.registered.subject
  pub scope_is : t.scope ≡ req.scope
  pub type_is : t.token_type ≡ bytes "Bearer"
  pub token_is : t.token ≡ encode drawn
  pub lasts : AreSeconds ttl t.expires_in

module _ (std : Platform) (jwt : Jwt AgentClaims) (sound : IsSound (λ c. c.registered) jwt) where
  -- A new authenticator gives an access token only for an assertion of the JWT bearer type that is a
  -- genuine agent token of its provider: of that issuer, verified under its key, of the agent type and
  -- not expired. The token is a bearer token of the random bytes, with the agent's subject and the
  -- scope of the request, and lasts the configured lifetime in whole seconds, or an hour if that is
  -- not positive; if the JWT library is sound.
  pub authenticate-IsClient :
      (issuer_id idp : Str) (idp_pub : PublicKey) (opts : List ParserOption) (ttl : ℤ)
      (req : AuthRequest) (now : Time) (drawn : Str) (t : AccessToken)
      → authenticate std jwt
          (new_authenticator issuer_id (new_agent_validator idp idp_pub opts) ttl)
          req
          now
          drawn
        ≡ ok t
      → IsClient std jwt sound idp idp_pub
          (if is_nonpos ttl then minutes 60 else ttl)
          req
          now
          drawn
          t
  unfolding authenticate new_authenticator
  authenticate-IsClient issuer_id idp idp_pub opts ttl req now drawn t h =
      let lifetime = if is_nonpos ttl then minutes 60 else ttl in
      elim (Result-cases
        (validate std jwt (new_agent_validator idp idp_pub opts) now req.client_assertion)) [
          | inr (e, bad) ↦ ground (arith, h)
          | inl (agent, accepted) ↦
              let t_is : t ≡ record {
                token = encode drawn;
                token_type = bytes "Bearer";
                expires_in = seconds_of lifetime;
                scope = req.scope;
                sub = agent.claims.registered.subject;
              } =
                ground arith in
              record {
                bearer = ground (arith, eq_iff req.client_assertion_type jwt_bearer);
                agent = agent;
                genuine =
                    validate-IsGenuine std jwt sound idp idp_pub opts now req.client_assertion agent
                      accepted;
                subject = rw t_is refl;
                scope_is = rw t_is refl;
                type_is = rw t_is refl;
                token_is = rw t_is refl;
                lasts = rw t_is (seconds_of-AreSeconds lifetime);
              }
        ]
