-- ===== src/Federation/Addresses.antt =====
-- The addresses that HTTPResolver fetches: stripTrailingSlash.
use ai_agent_security.Base.{ℕ, zero, suc, Str, [], ◌∷◌}

abbrev pub slashes : ℕ → Str
slashes zero = []
slashes (suc n) = 47 ∷ slashes n
