-- ===== src/Base/Int64.antt =====
-- Go's `int64` as its bit pattern, a number below 2 ^ 64, and `int` values that a client sends.
use duplicatefinder.Base.Tests.{ltb, if◌then◌else◌}
use Prim.Native.Nat.{ℕ, ◌+◌, ◌-◌, ◌*◌, ◌/◌, ◌%◌, ◌^◌}
use mathlib.Core.Bool.{Bool}

unfoldable pub add64 : ℕ → ℕ → ℕ
add64 a b = (a + b) % 2 ^ 64

unfoldable pub sub64 : ℕ → ℕ → ℕ
sub64 a b = (a + 2 ^ 64 - b) % 2 ^ 64

unfoldable pub mul64 : ℕ → ℕ → ℕ
mul64 a b = a * b % 2 ^ 64

-- The signed order: shifted by 2 ^ 63 it is the order of the patterns.
unfoldable pub lt64 : ℕ → ℕ → Bool
lt64 a b = ltb ((a + 2 ^ 63) % 2 ^ 64) ((b + 2 ^ 63) % 2 ^ 64)

-- Division by a positive constant, towards zero.
unfoldable pub div64 : ℕ → ℕ → ℕ
div64 a k = if ltb a (2 ^ 63) then a / k else (2 ^ 64 - (2 ^ 64 - a) / k) % 2 ^ 64

-- An `int`; `negsuc n` is -(n + 1).
pub data ℤ : Type 0 where
  pos : ℕ → ℤ
  negsuc : ℕ → ℤ
