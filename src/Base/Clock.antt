-- ===== src/Base/Clock.antt =====
-- Go's `time.Time` and `time.Duration` in nanoseconds. An instant counts from Go's zero time (year
-- 1), so `IsZero` is `eqb t 0`; a duration may be negative.
use Prim.Native.Nat.{ℕ, suc, ◌+◌, ◌-◌, ◌*◌}
use mathlib.Core.Bool.{Bool, true, false}
use ai_agent_security.Base.Tests.{eqb}

pub data ℤ : Type 0 where
  pos : ℕ → ℤ
  negsuc : ℕ → ℤ

abbrev pub Time : Type 0
Time = ℕ

-- `t.Add(d)`
abbrev pub add_time : Time → ℤ → Time
add_time t (pos d) = t + d
add_time t (negsuc d) = t - suc d

-- `d == 0`
abbrev pub is_zero : ℤ → Bool
is_zero (pos n) = eqb n 0
is_zero (negsuc n) = false

-- `d <= 0`
abbrev pub is_nonpos : ℤ → Bool
is_nonpos (pos n) = eqb n 0
is_nonpos (negsuc n) = true

abbrev pub second : ℕ
second = 1_000_000_000

abbrev pub minutes : ℕ → ℤ
minutes n = pos (n * (60 * second))
