-- ===== src/Experiment/Rand.antt =====
-- do_rand, the same in user/run_experiment.c, user/graphs.c and user/rows.c, and what run_experiment.c
-- draws with it. `long` and `unsigned long` have 64 bits; a `long` is negative from 2 ^ 63 on.
pub mod Lehmer
use mc.Prelude.{ℕ, ◌+◌, ◌-◌, ◌*◌, ◌/◌, ◌%◌, ◌^◌, Bool, if◌then◌else◌, leb}

abbrev pub modulus : ℕ
modulus = 0x7fffffff

abbrev pub add64 : ℕ → ℕ → ℕ
add64 a b = (a + b) % 2 ^ 64

abbrev pub sub64 : ℕ → ℕ → ℕ
sub64 a b = (a + 2 ^ 64 - b) % 2 ^ 64

-- the seed as a number from 1 to 0x7ffffffe
abbrev pub seed : ℕ → ℕ
seed ctx = ctx % 0x7ffffffe + 1

abbrev pub mul64 : ℕ → ℕ → ℕ
mul64 a b = a * b % 2 ^ 64

-- 16807 * lo - 2836 * hi
abbrev pub schrage : ℕ → ℕ
schrage x = sub64 (mul64 16807 (x % 127773)) (mul64 2836 (x / 127773))

abbrev pub positive : ℕ → ℕ
positive x = if leb (2 ^ 63) x then add64 x modulus else x

-- The new `*ctx`; the value returned is the same number, as an `int`.
unfoldable pub do_rand : ℕ → ℕ
do_rand ctx = sub64 (positive (schrage (seed ctx))) 1

-- rand: the value and the new `rand_next`
unfoldable pub rand : ℕ → ℕ × ℕ
unfolding do_rand
rand next = (do_rand next % 2 ^ 32, do_rand next)

-- run_experiment.c: how many of the 20 processes of a round are CPU-bound (`X`), and how many IO-bound
unfoldable pub draw_split : ℕ → (ℕ × ℕ) × ℕ
unfolding rand
draw_split next = let (r, next') = rand next in ((r % 9 + 6, 20 - (r % 9 + 6)), next')
