-- ===== src/Base/Int.antt =====
-- Signed integers over the native numbers, for Go's durations.
use Prim.Native.Nat.{ℕ, ◌+◌}
use mathlib.Core.Bool.{Bool}
use caddy_dev_local.Base.Tests.{ltb}

-- `negsuc n` is -(n + 1).
pub data ℤ : Type 0 where
  pos : ℕ → ℤ
  negsuc : ℕ → ℤ

-- `a - b > d`, for two points in time and a duration.
abbrev pub exceeds : ℕ → ℕ → ℤ → Bool
exceeds a b (pos n) = ltb (b + n) a
exceeds a b (negsuc n) = ltb b (a + n + 1)
