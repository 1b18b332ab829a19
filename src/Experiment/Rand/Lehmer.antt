-- ===== src/Experiment/Rand/Lehmer.antt =====
-- do_rand against the multiplicative generator with factor 16807 modulo 2 ^ 31 - 1.
use mc.Prelude.{ℕ, ◌/◌, ◌+◌, ◌*◌, ◌%◌, ◌^◌, ◌≤◌, ◌<◌, ◌≡◌, arith}
use mc.Experiment.Rand.{modulus, seed, do_rand, rand, draw_split}

-- 16807 has an inverse modulo 2 ^ 31 - 1, so no product of it with a seed vanishes.
product_pos : (x : ℕ) → 0 < x → x < modulus → 0 < 16807 * x % modulus
product_pos x h l = omega arith

-- do_rand computes 16807 * x modulo 2 ^ 31 - 1 less one, where x is the seed; so its value is below
-- 2 ^ 31 - 2. Neither of its two products, of 16807 and of 2836, reaches 2 ^ 63, so that they fit a `long`.
pub do_rand_lem :
    (ctx : ℕ)
    → (do_rand ctx + 1 ≡ 16807 * seed ctx % modulus)
      × (do_rand ctx < 0x7ffffffe)
      × (16807 * (seed ctx % 127773) < 2 ^ 63)
      × (2836 * (seed ctx / 127773) < 2 ^ 63)
unfolding do_rand
do_rand_lem ctx = ground (arith, product_pos (seed ctx))

product_injective :
    (x y : ℕ)
    → 0 < x
    → x < modulus
    → 0 < y
    → y < modulus
    → 16807 * x % modulus ≡ 16807 * y % modulus
    → x ≡ y
product_injective x y hx lx hy ly e = omega arith

-- do_rand never brings two states of the generator together: below 2 ^ 31 - 2 it is injective.
pub do_rand_injective : (a b : ℕ) → a < 0x7ffffffe → b < 0x7ffffffe → do_rand a ≡ do_rand b → a ≡ b
do_rand_injective a b ha hb e =
    let same : seed a ≡ seed b =
      product_injective (seed a) (seed b) (omega arith) (omega arith) (omega arith) (omega arith)
        (omega (arith, do_rand_lem a, do_rand_lem b)) in
    omega arith

-- rand answers a non-negative `int` and moves on to a state below 2 ^ 31 - 2; a round has from 6 to 14
-- CPU-bound processes, and IO-bound ones for the rest of the 20.
pub draw_split_lem :
    (next : ℕ)
    → (6 ≤ (draw_split next).0.0)
      × ((draw_split next).0.0 ≤ 14)
      × ((draw_split next).0.0 + (draw_split next).0.1 ≡ 20)
      × ((rand next).0 < 2 ^ 31)
      × ((draw_split next).1 ≡ do_rand next)
unfolding draw_split
draw_split_lem next = ground (arith, do_rand_lem next)
