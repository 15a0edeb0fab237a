-- ===== src/Samples/Admissions.antt =====
-- A rule table and a request that it admits.
use native.Mathlib.Decide.{ℕ_discrete}
use ai_agent_security.Base.{
  ◌+◌, ◌*◌, join, split, split_n, bytes, ◌==◌, List, [], ◌∷◌, none, some, ok, true, ◌≡◌, ◌≢◌, refl,
  ◌↔◌, second, arith, Any, lookup, keep, Map, eq_refl,
}
use ai_agent_security.Keys.{PrivateKey}
use ai_agent_security.Keys.Base64.{encode, decode, char_of}
use ai_agent_security.Jwt.{Header, Jwt, IsSound}
use ai_agent_security.Identity.Token.{AgentValidator, keyfunc_for}
use ai_agent_security.Identity.Chain.{
  parse_chain, check_parts, hash, to_string, is_depth, peek_issuer, validate_token, validate_from,
  validate_chain,
}
use ai_agent_security.Identity.Store.{Seen, sweep, record_in_memory, in_memory}
use ai_agent_security.Identity.Proof.{
  AgentProofClaims, agent_proof_type, has_audience, check_proof, check_replay, validate_proof,
}
use ai_agent_security.Authz.{
  Rule, Request, Decision, action_read, action_call, match_subject, action_satisfies, permits,
  first_permitting, authorize_rules, in_memory_authorizer,
}
use ai_agent_security.Authz.RuleLaws.{Grants, authorize_rules_iff}
use ai_agent_security.Authz.Middleware.{
  HttpRequest, Instants, uri_of, identify, proof_options, check_access, agent_auth,
}
use ai_agent_security.Authz.Admission.{IsAdmitted, agent_auth-IsAdmitted}
use ai_agent_security.Authz.Once.{Visit, visit, visit_all, agent_auth-once}
use ai_agent_security.Samples.OneToken.{
  Signed, sample_jwt, sample_parse, sample_jwt-IsSound, same_key, member, before, since, is_met,
  all_met,
}
use ai_agent_security.Samples.Stubs.{std, base_key}
use ai_agent_security.Samples.Agents.{
  agent, agent_id, agent_jwt, agent_token, agent_validator, signed_at, validate-agent_token,
}

abbrev pub rules : List Rule
rules = record { subject = agent_id; object = bytes "tool:echo"; action = action_call } ∷ []

abbrev question : Request
question = record {
  subject = agent_id;
  object = bytes "tool:echo";
  action = action_read;
  tool_params = [];
}

authorize_rules_iff_example :
    ((d : Decision) × (authorize_rules rules question ≡ ok d) × (d.allowed ≡ true))
    ↔ ((question.subject ≢ []) × (question.object ≢ []) × Any (Grants question) rules)
authorize_rules_iff_example = authorize_rules_iff rules question

abbrev request : HttpRequest
request = record {
  identity_token = agent_token;
  chain_token = agent_token;
  proof_token = bytes "proof";
  host = bytes "h";
  request_uri = bytes "/t";
}

abbrev pub claims : AgentProofClaims
claims = record {
  registered = record {
    issuer = [];
    subject = [];
    audience = bytes "https://h/t" ∷ [];
    expires_at = some (signed_at + 300 * second);
    not_before = some signed_at;
    issued_at = some signed_at;
    id = bytes "p1";
  };
  chain_hash = hash std (agent_token ∷ []);
  tth = [];
}

abbrev pub proof_signed : Signed AgentProofClaims
proof_signed = record {
  header = record { typ = some agent_proof_type; kid = none; jwk = none };
  claims = claims;
  signer = base_key;
  token = bytes "proof";
}

pub same_proof : Discrete (Header × AgentProofClaims × PrivateKey)
same_proof = hlevel ℕ_discrete

abbrev pub proof_jwt : Jwt AgentProofClaims
proof_jwt = sample_jwt (λ c. c.registered) same_proof proof_signed

abbrev pub proof_sound : IsSound (λ c. c.registered) proof_jwt
proof_sound = sample_jwt-IsSound (λ c. c.registered) same_proof proof_signed

abbrev pub validators : Map AgentValidator
validators = (bytes "idp", agent_validator) ∷ []

abbrev pub instants : Instants
instants = record {
  leaf = signed_at + 5;
  chain = signed_at + 5;
  parsed = signed_at + 6;
  recorded = signed_at + 7;
}

abbrev first_visit : Visit
first_visit = record {
  at = instants;
  request = request;
  object = bytes "tool:echo";
  action = action_read;
}

pub parsed_chain : parse_chain agent_token ≡ ok (agent_token ∷ [])
unfolding parse_chain check_parts split encode char_of
parsed_chain = refl

peeked : peek_issuer std agent_token ≡ ok (bytes "idp")
unfolding peek_issuer split_n encode char_of decode
peeked = refl

pub validated_chain :
    validate_chain std agent_jwt validators (signed_at + 5) (agent_token ∷ []) ≡ ok (agent ∷ [])
unfolding validate_chain validate_from validate_token is_depth lookup
validated_chain = ground (arith, peeked, validate-agent_token, eq_refl (bytes "idp"))

identified :
    identify std agent_jwt proof_jwt agent_validator validators instants request
    ≡ ok (agent, agent_token ∷ [])
unfolding identify
identified = ground (arith, validate-agent_token, parsed_chain, validated_chain)

checked :
    check_proof std proof_jwt
      (signed_at + 6)
      (proof_options std agent_jwt proof_jwt request agent (agent_token ∷ []))
    ≡ ok claims
unfolding check_proof proof_options uri_of sample_parse keyfunc_for same_key member before since
    is_met all_met has_audience hash ◌==◌ encode char_of to_string join
checked = refl

accessed :
    check_access std agent_jwt proof_jwt in_memory in_memory_authorizer rules
      (bytes "tool:echo")
      action_read
      agent
      (agent_token ∷ [])
    ≡ ok (agent, agent_token ∷ [])
unfolding check_access authorize_rules first_permitting permits match_subject action_satisfies ◌==◌
accessed = refl

abbrev after : Seen
after =
    (visit std agent_jwt proof_jwt proof_sound in_memory_authorizer rules agent_validator validators
      first_visit []).0

admitted :
    visit std agent_jwt proof_jwt proof_sound in_memory_authorizer rules agent_validator validators
      first_visit []
    ≡ (after, ok (agent, agent_token ∷ []))
unfolding agent_auth validate_proof check_replay record_in_memory sweep keep lookup proof_options
admitted = ground (arith, identified, checked, accessed)

agent_auth-IsAdmitted_example :
    IsAdmitted std agent_jwt proof_jwt proof_sound in_memory in_memory_authorizer rules
      (bytes "tool:echo")
      action_read
      agent_validator
      validators
      instants
      request
      agent
      (agent_token ∷ [])
agent_auth-IsAdmitted_example =
    agent_auth-IsAdmitted std agent_jwt proof_jwt proof_sound in_memory in_memory_authorizer rules
      (bytes "tool:echo") action_read agent_validator validators instants request [] after agent
      (agent_token ∷ []) admitted

abbrev second_visit : Visit
second_visit = record first_visit {
  at = record instants { parsed = signed_at + 8; recorded = signed_at + 9 };
}

agent_auth-once_example :
    visit std agent_jwt proof_jwt proof_sound in_memory_authorizer rules agent_validator validators
      second_visit
      (visit_all std agent_jwt proof_jwt proof_sound in_memory_authorizer rules agent_validator
        validators [] after)
    ≢ (after, ok (agent, agent_token ∷ []))
agent_auth-once_example =
    agent_auth-once std agent_jwt proof_jwt proof_sound in_memory_authorizer rules agent_validator
      validators first_visit second_visit [] [] after after agent agent (agent_token ∷ [])
      (agent_token ∷ []) claims (signed_at + 300 * second) admitted checked refl refl tt
      (omega arith)
