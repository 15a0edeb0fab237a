-- ===== src/Samples/Requests.antt =====
-- Chains of one token, replay stores and proofs of requests.
use native.Mathlib.Decide.{ℕ_discrete}
use ai_agent_security.Base.{
  ℕ, ◌+◌, ◌≤◌, join, bytes, ◌==◌, [], ◌∷◌, none, some, ok, true, ◌≡◌, ◌≢◌, refl, ◌↔◌, ◌⊎◌, arith,
  All, lookup, insert, keep, Map,
}
use ai_agent_security.Keys.{PrivateKey}
use ai_agent_security.Keys.Base64.{encode, char_of}
use ai_agent_security.Jwt.{Header, Jwt, IsSound}
use ai_agent_security.Identity.Token.{AgentValidator, keyfunc_for}
use ai_agent_security.Identity.Chain.{parse_chain, to_string, hash, validate_chain}
use ai_agent_security.Identity.ChainLaws.{IsToken, parse_chain_iff, AttestsFrom, validate_chain_iff}
use ai_agent_security.Identity.Store.{sweep, record_in_memory, in_memory}
use ai_agent_security.Identity.StoreLaws.{record_in_memory-bounded}
use ai_agent_security.Identity.Proof.{
  AgentProofClaims, ProofValidateOptions, agent_proof_type, has_audience, check_proof, check_replay,
  validate_proof,
}
use ai_agent_security.Identity.ProofLaws.{Request, serve, validate_proof-no_replay}
use ai_agent_security.Samples.OneToken.{
  Signed, sample_jwt, sample_parse, sample_jwt-IsSound, same_key, member, before, since, is_met,
  all_met,
}
use ai_agent_security.Samples.Stubs.{std, base_point, base_key}
use ai_agent_security.Samples.Agents.{agent, agent_jwt, agent_token, agent_validator, signed_at}

parse_chain_iff_example : (parse_chain (bytes "a~b") ≡ ok (bytes "a" ∷ bytes "b" ∷ [])) ↔ (
    (to_string (bytes "a" ∷ bytes "b" ∷ []) ≡ bytes "a~b")
    × ((bytes "a" ∷ bytes "b" ∷ []) ≢ [])
    × All IsToken (bytes "a" ∷ bytes "b" ∷ []))
parse_chain_iff_example = parse_chain_iff (bytes "a~b") (bytes "a" ∷ bytes "b" ∷ [])

abbrev validators : Map AgentValidator
validators = (bytes "idp", agent_validator) ∷ []

validate_chain_iff_example :
    (validate_chain std agent_jwt validators (signed_at + 5) (agent_token ∷ []) ≡ ok (agent ∷ []))
    ↔ (((agent_token ∷ []) ≢ [])
        × AttestsFrom std agent_jwt validators (signed_at + 5) 0 (agent_token ∷ []) (agent ∷ []))
validate_chain_iff_example =
    validate_chain_iff std agent_jwt validators (signed_at + 5) (agent_token ∷ []) (agent ∷ [])

record_in_memory-bounded_example : (5 ≤ 10) ⊎ ((bytes "j" ≡ bytes "j") × (◌≡◌ {A = ℕ} 10 10))
unfolding record_in_memory sweep lookup keep insert ◌==◌
record_in_memory-bounded_example = record_in_memory-bounded 5 (bytes "j") 10 [] (bytes "j") 10 refl

abbrev proof_claims : AgentProofClaims
proof_claims = record {
  registered = record {
    issuer = [];
    subject = [];
    audience = bytes "/tools" ∷ [];
    expires_at = some 300;
    not_before = some 100;
    issued_at = some 100;
    id = bytes "p1";
  };
  chain_hash = hash std (agent_token ∷ []);
  tth = [];
}

abbrev proof_signed : Signed AgentProofClaims
proof_signed = record {
  header = record { typ = some agent_proof_type; kid = none; jwk = none };
  claims = proof_claims;
  signer = base_key;
  token = bytes "proof";
}

same_proof : Discrete (Header × AgentProofClaims × PrivateKey)
same_proof = hlevel ℕ_discrete

abbrev proof_jwt : Jwt AgentProofClaims
proof_jwt = sample_jwt (λ c. c.registered) same_proof proof_signed

abbrev proof_sound : IsSound (λ c. c.registered) proof_jwt
proof_sound = sample_jwt-IsSound (λ c. c.registered) same_proof proof_signed

abbrev request_options : ProofValidateOptions
request_options = record {
  proof_token = bytes "proof";
  chain = agent_token ∷ [];
  request_uri = bytes "/tools";
  workload_key = some base_point;
  check_replay = true;
  txn_token = [];
}

abbrev request : ℕ → Request
request t = record { parsed_at = t; recorded_at = t + 1; opts = request_options }

check_proof-request : check_proof std proof_jwt 150 request_options ≡ ok proof_claims
unfolding check_proof sample_parse keyfunc_for same_key member before since is_met all_met
    has_audience hash ◌==◌ encode char_of to_string join
check_proof-request = refl

accepted_first :
    (validate_proof std proof_jwt in_memory 150 151 request_options []).1 ≡ ok proof_claims
unfolding validate_proof check_replay record_in_memory sweep lookup keep
accepted_first = ground (arith, check_proof-request)

validate_proof-no_replay_example :
    (validate_proof std proof_jwt in_memory 200 201 request_options (
      serve std proof_jwt
        (request 170 ∷ [])
        (validate_proof std proof_jwt in_memory 150 151 request_options []).0)).1
    ≢ ok proof_claims
validate_proof-no_replay_example =
    validate_proof-no_replay std proof_jwt proof_sound (request 150) (request 200)
      (request 170 ∷ []) [] proof_claims 300 refl refl refl accepted_first refl (omega arith, tt)
      (omega arith) proof_claims
