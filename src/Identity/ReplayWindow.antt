-- ===== src/Identity/ReplayWindow.antt =====
-- pkg/identity/proof.go and store.go: a proof that comes again when the store has swept its id.
use ai_agent_security.Base.{Bool-cases, Bool-cases}
use ai_agent_security.Platform.{Platform}
use ai_agent_security.Jwt.{Jwt}
