-- ===== src/Identity/Errors.antt =====
-- The errors of pkg/identity, a constructor for each place that makes one. A wrapped error is an
-- argument; texts are not modelled.
use ai_agent_security.Base.{ℕ, Str}
use ai_agent_security.Keys

pub data Error : Type 0 where
  -- token.go
  subject_required role_required workload_key_required : Error
  serialize_key : Keys.Error → Error
  marshal_jwk sign_failed : Error
  parse_agent_token invalid_agent_claims issuer_mismatch missing_cnf unmarshal_cnf : Error
  deserialize_key : Keys.Error → Error
  -- chain.go
  empty_chain_string : Error
  empty_token_at : ℕ → Error
  extend_with_empty empty_chain : Error
  chain_at : ℕ → Error → Error
  not_compact decode_payload unmarshal_claims missing_iss : Error
  no_validator : Str → Error
  wrong_depth : Error
  -- store.go
  replayed : Error
  -- proof.go
  target_required chain_required : Error
  proof_required key_required parse_proof invalid_proof_claims : Error
  aud_mismatch chain_hash_mismatch tth_mismatch missing_jti : Error
  -- A nil pointer that Go would panic on.
  nil_pointer : Error
