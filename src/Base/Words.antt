-- ===== src/Base/Words.antt =====
-- 32-bit machine words as native numbers. An `int` is its bit pattern: -1 is `minus_one`.
use Prim.Native.Nat.{ℕ, ◌+◌, ◌-◌, ◌%◌, ◌^◌}
use mathlib.Core.Bool.{Bool}
use claude_os_20day_challeng.Base.Tests.{leb}

abbrev pub u32_mod : ℕ
u32_mod = 2 ^ 32

abbrev pub minus_one : ℕ
minus_one = 2 ^ 32 - 1

abbrev pub add32 : ℕ → ℕ → ℕ
add32 a b = (a + b) % u32_mod

abbrev pub sub32 : ℕ → ℕ → ℕ
sub32 a b = (a + u32_mod - b) % u32_mod

-- The test `x < 0` of an `int`.
abbrev pub is_negative : ℕ → Bool
is_negative w = leb (2 ^ 31) w
