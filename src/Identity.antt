-- ===== src/Identity.antt =====
-- pkg/identity: agent tokens, delegation chains, the replay store and per-request proofs.
pub mod Errors
pub mod Token
pub mod Chain
pub mod Store
pub mod Proof
pub mod StoreLaws
pub mod ChainLaws
pub mod TokenLaws
pub mod ProofLaws
pub mod ReplayWindow
pub mod ProofChecks
