-- ===== src/Samples/Agents.antt =====
-- An agent's token, with its issuer and its validator.
use native.Mathlib.Decide.{ℕ_discrete}
use ai_agent_security.Base.{
  ◌+◌, ◌*◌, Str, bytes, ◌==◌, ◌++◌, [], some, ok, ◌≡◌, refl, Time, pos, minutes, second,
}
use ai_agent_security.Keys.{PrivateKey}
use ai_agent_security.Keys.Base64.{encode, char_of}
use ai_agent_security.Jwt.{Header, Jwt}
use ai_agent_security.Identity.Token.{
  AgentClaims, ValidatedAgent, IssueOptions, AgentIssuer, AgentValidator, new_agent_validator,
  agent_header, validate, keyfunc_for,
}
use ai_agent_security.Identity.TokenLaws.{IsGenuine, validate-IsGenuine}
use ai_agent_security.Samples.OneToken.{
  Signed, sample_jwt, sample_parse, sample_jwt-IsSound, same_key, member, before, since, is_met,
  all_met,
}
use ai_agent_security.Samples.Stubs.{
  std, base_point, base_key, jwk_to_public_key-base_jwk, raw_jwk, sample_jwk_of_json,
}

abbrev pub signed_at : Time
signed_at = 1_000 + second

abbrev pub idp : AgentIssuer
idp = record { issuer_id = bytes "idp"; sig_key = base_key; ttl = minutes 10 }

abbrev pub agent_id : Str
agent_id = bytes "spiffe://d/agent"

abbrev pub agent_options : IssueOptions
agent_options = record {
  subject = agent_id;
  audiences = [];
  trust_domain = bytes "d";
  role = bytes "reader";
  chain_depth = pos 0;
  key_id = [];
  workload_key = some base_point;
  mission = [];
}

abbrev pub agent_claims : AgentClaims
agent_claims = record {
  registered = record {
    issuer = bytes "idp";
    subject = agent_id;
    audience = [];
    expires_at = some (signed_at + 600 * second);
    not_before = some signed_at;
    issued_at = some signed_at;
    id = bytes "t1";
  };
  trust_domain = bytes "d";
  cnf_jwk = raw_jwk;
  role = bytes "reader";
  chain_depth = pos 0;
  mission = [];
}

-- Its payload carries the issuer alone.
abbrev pub agent_token : Str
agent_token = bytes "h." ++ encode (bytes "idp") ++ bytes ".s"

abbrev pub agent_signed : Signed AgentClaims
agent_signed = record {
  header = agent_header agent_options;
  claims = agent_claims;
  signer = base_key;
  token = agent_token;
}

pub same_agent : Discrete (Header × AgentClaims × PrivateKey)
same_agent = hlevel ℕ_discrete

abbrev pub agent_jwt : Jwt AgentClaims
agent_jwt = sample_jwt (λ c. c.registered) same_agent agent_signed

abbrev pub agent : ValidatedAgent
agent = record { claims = agent_claims; workload_key = base_point }

abbrev pub agent_validator : AgentValidator
agent_validator = new_agent_validator (bytes "idp") base_point []

pub validate-agent_token :
    validate std agent_jwt agent_validator (signed_at + 5) agent_token ≡ ok agent
unfolding validate new_agent_validator sample_parse keyfunc_for agent_header same_key member before
    since is_met all_met sample_jwk_of_json ◌==◌ encode char_of
validate-agent_token = rw jwk_to_public_key-base_jwk refl

validate-IsGenuine_example :
    IsGenuine std agent_jwt
      (sample_jwt-IsSound (λ c. c.registered) same_agent agent_signed)
      (bytes "idp")
      base_point
      (signed_at + 5)
      agent_token
      agent
validate-IsGenuine_example =
    validate-IsGenuine std agent_jwt
      (sample_jwt-IsSound (λ c. c.registered) same_agent agent_signed) (bytes "idp") base_point []
      (signed_at + 5) agent_token agent validate-agent_token
