-- ===== src/Prelude/Word.antt =====
-- C integers as bit patterns: an `int` or a `uint` is a number below 2 ^ 32, an `unsigned long` one
-- below 2 ^ 64. Arithmetic wraps; a signed value is negative from 2 ^ 31 on.
use Prim.Native.Nat.{ℕ, ◌+◌, ◌-◌, ◌%◌, ◌^◌, ◌<◌}
use mathlib.Core.Path.{◌≡◌}
use mathlib.Core.Bool.{Bool}
use native.Mathlib.Omega.{arith}
use mc.Prelude.Tests.{ltb, leb}

abbrev pub u32 : ℕ → ℕ
u32 n = n % 2 ^ 32

abbrev pub add32 : ℕ → ℕ → ℕ
add32 a b = (a + b) % 2 ^ 32

abbrev pub sub32 : ℕ → ℕ → ℕ
sub32 a b = (a + 2 ^ 32 - b) % 2 ^ 32

-- the sign of an `int`
abbrev pub is_neg : ℕ → Bool
is_neg a = leb (2 ^ 31) a

-- -1 as an `int`
abbrev pub minus_one : ℕ
minus_one = 2 ^ 32 - 1

-- `a < b` between two values of type `int`
abbrev pub lt_int : ℕ → ℕ → Bool
lt_int a b = ltb (add32 a (2 ^ 31)) (add32 b (2 ^ 31))

-- The wrapped difference undoes the wrapped sum.
pub add32-sub32 : (a b : ℕ) → a < 2 ^ 32 → b < 2 ^ 32 → add32 b (sub32 a b) ≡ a
add32-sub32 a b h k = omega arith
