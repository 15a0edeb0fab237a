-- ===== src/Cb4a.antt =====
-- pkg/cb4a: the credential broker. Envelopes, the policy decision point, the credential delivery
-- point and the audit trail that the two share.
pub mod Audit
pub mod Envelope
pub mod Glob
pub mod Policy
pub mod Pdp
pub mod Cdp
pub mod Calls
pub mod GlobLaws
pub mod PolicyLaws
pub mod PdpLaws
pub mod PdpRequests
pub mod PdpPolicy
pub mod CallChecks
pub mod CdpLaws
pub mod MintLaws
pub mod EndToEnd
