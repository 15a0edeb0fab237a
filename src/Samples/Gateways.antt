-- ===== src/Samples/Gateways.antt =====
-- A request that the gateway forwards.
use ai_agent_security.Base.{Str, bytes, List, [], ◌∷◌, Option, none, some, true, Map}
use ai_agent_security.Authz.{Rule, in_memory_authorizer}
use ai_agent_security.Gateway.{absent}
use ai_agent_security.Gateway.Middleware.{Config, GatewayRequest, Forwarded}
use ai_agent_security.Samples.Agents.{agent, agent_id, agent_token}
use ai_agent_security.Samples.Admissions.{validators, rules}

abbrev config : Config (Unit {0}) (List Rule)
config = record {
  validators = validators;
  resolver = none;
  authorizer = in_memory_authorizer;
  policy = rules;
  wants_certificate = true;
  remediation = some [];
}

abbrev no_params : Str → Option (Map Str)
no_params body = none

abbrev request : GatewayRequest
request = record {
  identity_token = agent_token;
  chain_token = agent_token;
  proof_token = bytes "proof";
  tls = some (record { peer_uris = (agent_id ∷ []) ∷ [] });
  host = bytes "h";
  request_uri = bytes "/t";
  body = absent;
}

abbrev forwarded : Forwarded
forwarded = record { agent = agent; chain = agent_token ∷ []; body = absent }
