-- ===== src/Vm/Bits.antt =====
-- The bits of page table entries: what `|` leaves in the low bits and above them.
use Prim.Native.Nat.{max, digits, bit_or, bit_or-bitwise}
use mc.Prelude.{ℕ, zero, suc, ◌+◌, ◌*◌, ◌/◌, ◌%◌, ◌≤◌, ◌<◌, ◌≡◌, refl, sym, ap, ◌∙◌, arith}

abbrev or_digits : ℕ → ℕ → ℕ → ℕ
or_digits n a b = digits (λ b. b) max n a b

or_digits_fuel : (n m a b : ℕ) → a ≤ n → a ≤ m → or_digits n a b ≡ or_digits m a b
or_digits_fuel zero zero a b p q = refl
or_digits_fuel zero (suc m) zero b p q = refl
or_digits_fuel zero (suc m) (suc a) b p q = absurd (omega arith)
or_digits_fuel (suc n) zero zero b p q = refl
or_digits_fuel (suc n) zero (suc a) b p q = absurd (omega arith)
or_digits_fuel (suc n) (suc m) zero b p q = refl
or_digits_fuel (suc n) (suc m) (suc a) b p q =
    omega (arith, or_digits_fuel n m (suc a / 2) (b / 2) (omega arith) (omega arith))

zero-bit_or : (b : ℕ) → bit_or 0 b ≡ b
zero-bit_or b = bit_or-bitwise 0 b

-- The lowest bit apart.
bit_or_step : (a b : ℕ) → bit_or a b ≡ bit_or (a / 2) (b / 2) * 2 + max (a % 2) (b % 2)
bit_or_step zero b = omega (arith, zero-bit_or b, zero-bit_or (b / 2))
bit_or_step (suc a) b = omega (
  arith,
  bit_or-bitwise (suc a) b,
  bit_or-bitwise (suc a / 2) (b / 2),
  or_digits_fuel a (suc a / 2) (suc a / 2) (b / 2) (omega arith) (omega arith),
)

bit_or-zero_fuel : (n a : ℕ) → a ≤ n → bit_or a 0 ≡ a
bit_or-zero_fuel n zero h = refl
bit_or-zero_fuel zero (suc a) h = absurd (omega arith)
bit_or-zero_fuel (suc n) (suc a) h =
    omega (arith, bit_or_step (suc a) 0, bit_or-zero_fuel n (suc a / 2) (omega arith))

bit_or-zero : (a : ℕ) → bit_or a 0 ≡ a
bit_or-zero a = bit_or-zero_fuel a a (omega arith)

half-bit_or : (a b : ℕ) → bit_or a b / 2 ≡ bit_or (a / 2) (b / 2)
half-bit_or a b = omega (arith, bit_or_step a b)

-- `| PTE_V` sets the lowest bit and leaves the ones from bit 10 on, as any flags do.
pub bit_or-odd : (a : ℕ) → bit_or a 1 % 2 ≡ 1
bit_or-odd a = omega (arith, bit_or_step a 1)

-- The bits above the lowest one, `n` times.
abbrev halves : ℕ → ℕ → ℕ
halves zero a = a
halves (suc n) a = halves n (a / 2)

halves-bit_or : (n a b : ℕ) → halves n (bit_or a b) ≡ bit_or (halves n a) (halves n b)
halves-bit_or zero a b = refl
halves-bit_or (suc n) a b = rw (half-bit_or a b) (halves-bit_or n (a / 2) (b / 2))

halves_10 : (a : ℕ) → halves 10 a ≡ a / 1024
halves_10 a = omega arith

pub bit_or-high : (a b : ℕ) → b < 1024 → bit_or a b / 1024 ≡ a / 1024
bit_or-high a b h =
    let z : halves 10 b ≡ 0 = halves_10 b ∙ omega arith in
    sym (halves_10 (bit_or a b))
    ∙ halves-bit_or 10 a b
    ∙ rw (z, halves_10 a) (bit_or-zero (a / 1024))

pub bit_or-mod : (a b : ℕ) → bit_or a b % 2 ≡ max (a % 2) (b % 2)
bit_or-mod a b = omega (arith, bit_or_step a b)

-- Two flags below 2 ^ 10 make one.
pub bit_or-small : (a b : ℕ) → a < 1024 → b < 1024 → bit_or a b < 1024
bit_or-small a b h k = omega (arith, bit_or-high a b k)

-- Bit 1, PTE_R, is set if it is set in either.
pub bit_or-second : (a b : ℕ) → bit_or a b / 2 % 2 ≡ max (a / 2 % 2) (b / 2 % 2)
bit_or-second a b = ap (λ x. x % 2) (half-bit_or a b) ∙ bit_or-mod (a / 2) (b / 2)
