-- ===== src/Federation/GatewayLaws.antt =====
-- The gateway's resolveAndValidate over an InMemoryResolver: whose key an agent's token is under.
use ai_agent_security.Base.{
  Str, ◌≡◌, refl, ap, ◌∙◌, ◌⊎◌, inl, inr, List, [], ◌∷◌, some, Result, ok, err, Any, Map, lookup,
  Time, arith,
}
use ai_agent_security.Keys.{PublicKey, Jwk, jwk_to_public_key}
use ai_agent_security.Platform.{Platform}
use ai_agent_security.Jwt.{RegisteredClaims, Jwt, IsSound, IsTimely}
use ai_agent_security.Identity.Token.{
  AgentClaims, ValidatedAgent, AgentValidator, new_agent_validator, validate,
}
use ai_agent_security.Gateway
use ai_agent_security.Gateway.{
  Resolver, entity_key, peek_issuer, validate_with_any, federated, resolve_and_validate,
}
use ai_agent_security.Gateway.Pieces.{IsFederated, resolve_and_validate_sound}
use ai_agent_security.Federation.{ClaimsJson}
use ai_agent_security.Federation.EntityLaws.{HasExpiries}
use ai_agent_security.Federation.Resolver.{
  ResolvedEntity, Error, InMemoryResolver, first_key, resolve, in_memory_resolver, keys_of,
}
use ai_agent_security.Federation.ChainLaws.{IsCertified}
use ai_agent_security.Federation.CacheLaws.{Reaches}
use ai_agent_security.Federation.Answers.{resolve-IsCertified}

-- The gateway takes the first key of the statement when it is a P-256 key.
pub entity_key-first :
    (id : Str) (jwks : List Jwk) (jwk : Jwk) (key : PublicKey)
    → first_key id jwks ≡ ok jwk
    → jwk_to_public_key jwk ≡ ok key
    → entity_key jwks ≡ some key
unfolding entity_key
entity_key-first id [] jwk key first decoded = cc
entity_key-first id (j ∷ js) jwk key first decoded =
    let same : j ≡ jwk = ground arith in
    let reads : jwk_to_public_key j ≡ ok key = ap jwk_to_public_key same ∙ decoded in ground arith

-- A token that no static validator accepts, and that validates under the key of its issuer.
pub resolve_and_validate_complete :
    {R : Type 0} (std : Platform) (agent_jwt : Jwt AgentClaims) (vs : Map AgentValidator)
    (resolver : Resolver R) (now : Time) (token : Str) (r : R) (issuer : Str) (jwks : List Jwk)
    (key : PublicKey) (va : ValidatedAgent)
    → (e : Gateway.Error) × (validate_with_any std agent_jwt vs now token ≡ err e)
    → peek_issuer std token ≡ ok issuer
    → (resolver.resolve now issuer r).1 ≡ some jwks
    → entity_key jwks ≡ some key
    → validate std agent_jwt (new_agent_validator issuer key []) now token ≡ ok va
    → (resolve_and_validate std agent_jwt vs (some resolver) now token r).1 ≡ ok va
unfolding resolve_and_validate federated
resolve_and_validate_complete std agent_jwt vs resolver now token r issuer jwks key va (e, refused)
      peeked resolved keyed validated =
    ground arith

module _ (std : Platform) {M : Type 0} (json : ClaimsJson M) (jwt : Jwt M)
    (registered : M → RegisteredClaims) (sound : IsSound registered jwt)
    (agent_jwt : Jwt AgentClaims) where
  -- The token names an issuer that is registered with the resolver and certified by a trust anchor,
  -- and it validates under the key with which the issuer's configuration is verified.
  pub record IsVouched (anchors : Map PublicKey) (r : InMemoryResolver) (now : Time) (token : Str)
      (va : ValidatedAgent) : Type 0 where
    pub issuer : Str
    pub peeked : peek_issuer std token ≡ ok issuer
    pub ec_jwt : Str
    pub configured : lookup issuer r.entity_configs ≡ some ec_jwt
    pub ss_jwt : Str
    pub stated : lookup issuer r.sub_statements ≡ some ss_jwt
    pub entity : ResolvedEntity
    pub certified :
        IsCertified std registered json jwt sound anchors issuer ec_jwt ss_jwt now entity
    pub validated :
        validate std agent_jwt (new_agent_validator issuer certified.leaf_key []) now token ≡ ok va

  module _ (expiries : HasExpiries std registered json jwt sound) where
    keys_of_ok :
        (e : Result Error ResolvedEntity) (jwks : List Jwk)
        → keys_of std json jwt e ≡ some jwks
        → (entity : ResolvedEntity) × (e ≡ ok entity) × (entity.jwks ≡ jwks)
    keys_of_ok (ok entity) jwks h = (entity, refl, cc)
    keys_of_ok (err e) jwks h = cc

    federated-IsVouched :
        (anchors : Map PublicKey) (r : InMemoryResolver) (now : Time) (token : Str)
        (va : ValidatedAgent)
        → IsTimely registered jwt
        → Reaches std json jwt anchors r now
        → IsFederated std agent_jwt (in_memory_resolver std json jwt) now token r va
        → IsVouched anchors r now token va
    unfolding in_memory_resolver
    federated-IsVouched anchors r now token va timely reached f =
        let (entity, answered, keys) =
          keys_of_ok (resolve std json jwt now f.issuer r).1 f.jwks f.resolved in
        let (ec_jwt, ss_jwt, configured, stated, certified) =
          resolve-IsCertified std json jwt registered sound expiries anchors r now f.issuer entity
            timely reached answered in
        let first : entity_key entity.jwks ≡ some certified.leaf_key =
          entity_key-first f.issuer entity.jwks certified.jwk certified.leaf_key certified.first
            certified.decoded in
        let same : f.key ≡ certified.leaf_key = cc (first, keys, f.first_key) in
        record {
          issuer = f.issuer;
          peeked = f.peeked;
          ec_jwt = ec_jwt;
          configured = configured;
          ss_jwt = ss_jwt;
          stated = stated;
          entity = entity;
          certified = certified;
          validated = rw same at f.validated;
        }

    -- A gateway whose resolver got into its state from a new one by registrations and resolutions, at
    -- instants that do not run backwards, takes a leaf token for an agent only if one of its own
    -- validators accepts the token as this agent, or the token names an issuer that the documents
    -- registered then certify under a trust anchor, and validates as this agent under the key that
    -- the anchor states and the issuer's configuration is verified with. The conditions are that the
    -- JWT library is sound and keeps accepting a token until it expires, and that the expiries that it
    -- and the JSON library read agree.
    pub resolve_and_validate-IsVouched :
        (vs : Map AgentValidator) (anchors : Map PublicKey) (r : InMemoryResolver) (now : Time)
        (token : Str) (va : ValidatedAgent)
        → IsTimely registered jwt
        → Reaches std json jwt anchors r now
        → (resolve_and_validate std agent_jwt vs
            (some (in_memory_resolver std json jwt))
            now
            token
            r).1
          ≡ ok va
        → Any (λ v. validate std agent_jwt v.1 now token ≡ ok va) vs
          ⊎ IsVouched anchors r now token va
    resolve_and_validate-IsVouched vs anchors r now token va timely reached accepted =
        elim (resolve_and_validate_sound std agent_jwt vs (some (in_memory_resolver std json jwt))
          now token r va accepted) [
            | inl static ↦ inl static
            | inr f ↦ inr (federated-IsVouched anchors r now token va timely reached f)
          ]
