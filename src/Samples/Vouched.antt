-- ===== src/Samples/Vouched.antt =====
-- An agent of the entity of Samples/Entities, at a gateway that resolves it.
use ai_agent_security.Base.{
  ◌+◌, ◌*◌, Str, bytes, ◌==◌, ◌++◌, split_n, [], some, ok, err, ap, ◌≡◌, refl, pos, second, Any,
  Map, ◌⊎◌,
}
use ai_agent_security.Keys.Base64.{encode, decode, char_of}
use ai_agent_security.Jwt.{Jwt}
use ai_agent_security.Identity.Token.{
  AgentClaims, ValidatedAgent, AgentValidator, agent_header, new_agent_validator, validate,
  keyfunc_for,
}
use ai_agent_security.Gateway.{
  Resolver, no_validators, entity_key, peek_issuer, validate_with_any, resolve_and_validate,
}
use ai_agent_security.Federation.Resolver.{InMemoryResolver, in_memory_resolver, keys_of}
use ai_agent_security.Federation.GatewayLaws.{
  entity_key-first, resolve_and_validate_complete, IsVouched, resolve_and_validate-IsVouched,
}
use ai_agent_security.Samples.OneToken.{
  Signed, sample_jwt, sample_parse, same_key, member, before, since, is_met, all_met,
}
use ai_agent_security.Samples.Stubs.{
  std, base_key, base_point, base_jwk, jwk_to_public_key-base_jwk, raw_jwk, sample_jwk_of_json,
}
use ai_agent_security.Samples.Agents.{agent_id, agent_options, same_agent}
use ai_agent_security.Samples.Entities.{
  registered, made_at, leaf_id, claims_json, entity_jwt, entity_sound, entity_timely,
  entity_expiries,
}
use ai_agent_security.Samples.Federations.{anchors, full, full_reached, entity, resolved}

abbrev leaf_claims : AgentClaims
leaf_claims = record {
  registered = record {
    issuer = leaf_id;
    subject = agent_id;
    audience = [];
    expires_at = some (made_at + 600 * second);
    not_before = some made_at;
    issued_at = some made_at;
    id = bytes "t2";
  };
  trust_domain = bytes "d";
  cnf_jwk = raw_jwk;
  role = bytes "reader";
  chain_depth = pos 0;
  mission = [];
}

abbrev agent_token : Str
agent_token = bytes "h." ++ encode leaf_id ++ bytes ".s"

abbrev agent_signed : Signed AgentClaims
agent_signed = record {
  header = agent_header agent_options;
  claims = leaf_claims;
  signer = base_key;
  token = agent_token;
}

abbrev leaf_jwt : Jwt AgentClaims
leaf_jwt = sample_jwt (λ c. c.registered) same_agent agent_signed

abbrev agent : ValidatedAgent
agent = record { claims = leaf_claims; workload_key = base_point }

validate-agent_token :
    validate std leaf_jwt (new_agent_validator leaf_id base_point []) (made_at + 5) agent_token
    ≡ ok agent
unfolding validate new_agent_validator sample_parse keyfunc_for agent_header same_key member before
    since is_met all_met sample_jwk_of_json ◌==◌ encode char_of
validate-agent_token = rw jwk_to_public_key-base_jwk refl

peeked : peek_issuer std agent_token ≡ ok leaf_id
unfolding peek_issuer split_n decode encode char_of
peeked = refl

keyed : entity_key entity.jwks ≡ some base_point
keyed = entity_key-first leaf_id entity.jwks base_jwk base_point refl jwk_to_public_key-base_jwk

abbrev gateway_resolver : Resolver InMemoryResolver
gateway_resolver = in_memory_resolver std claims_json entity_jwt

answered : (gateway_resolver.resolve (made_at + 5) leaf_id full).1 ≡ some entity.jwks
unfolding in_memory_resolver
answered = ap (keys_of std claims_json entity_jwt) resolved

abbrev no_static : Map AgentValidator
no_static = []

refused : validate_with_any std leaf_jwt no_static (made_at + 5) agent_token ≡ err no_validators
unfolding validate_with_any
refused = refl

accepted :
    (resolve_and_validate std leaf_jwt no_static
      (some gateway_resolver)
      (made_at + 5)
      agent_token
      full).1
    ≡ ok agent
accepted =
    resolve_and_validate_complete std leaf_jwt no_static gateway_resolver (made_at + 5) agent_token
      full leaf_id entity.jwks base_point agent (no_validators, refused) peeked answered keyed
      validate-agent_token

resolve_and_validate-IsVouched_example :
    Any (λ v. validate std leaf_jwt v.1 (made_at + 5) agent_token ≡ ok agent) no_static
    ⊎ IsVouched std claims_json entity_jwt registered entity_sound leaf_jwt anchors full
        (made_at + 5)
        agent_token
        agent
resolve_and_validate-IsVouched_example =
    resolve_and_validate-IsVouched std claims_json entity_jwt registered entity_sound leaf_jwt
      entity_expiries no_static anchors full (made_at + 5) agent_token agent entity_timely
      full_reached accepted
