-- ===== src/Identity/ProofChecks.antt =====
-- Validate of pkg/identity/proof.go with any replay store.
use ai_agent_security.Base.{
  is_empty, ◌≡◌, inl, inr, Option-cases, Bool-cases, Result-cases, ok, Time, arith,
}
use ai_agent_security.Platform.{Platform}
use ai_agent_security.Jwt.{Jwt}
use ai_agent_security.Identity.Store.{JtiStore}
use ai_agent_security.Identity.Proof.{
  AgentProofClaims, ProofValidateOptions, check_proof, check_replay, validate_proof,
}

module _ (std : Platform) (proof_jwt : Jwt AgentProofClaims) {S : Type 0} (store : JtiStore S) where
  check_replay_same :
      (r : Time) (opts : ProofValidateOptions) (c claims : AgentProofClaims) (s : S)
      → (check_replay std proof_jwt store r opts c s).1 ≡ ok claims
      → claims ≡ c
  unfolding check_replay
  check_replay_same r opts c claims s h = elim (Bool-cases opts.check_replay) [
    | inr off ↦ ground arith
    | inl on ↦ elim (Bool-cases (is_empty c.registered.id)) [
      | inl missing ↦ ground arith
      | inr there ↦ elim (Option-cases c.registered.expires_at) [
        | inl missing ↦ ground arith
        | inr (exp, expires) ↦ elim (Result-cases (store.record_jti r c.registered.id exp s).1) [
          | inr (e, bad) ↦ ground arith
          | inl (u, fresh) ↦ ground arith
        ]
      ]
    ]
  ]

  -- Validate returns claims only after the checks of the proof.
  pub validate_proof-check_proof :
      (t r : Time) (opts : ProofValidateOptions) (s : S) (claims : AgentProofClaims)
      → (validate_proof std proof_jwt store t r opts s).1 ≡ ok claims
      → check_proof std proof_jwt t opts ≡ ok claims
  unfolding validate_proof check_replay
  validate_proof-check_proof t r opts s claims h =
      elim (Result-cases (check_proof std proof_jwt t opts)) [
        | inr (e, bad) ↦ ground arith
        | inl (c, good) ↦
            let same = check_replay_same r opts c claims s (ground arith) in rw same good
      ]
