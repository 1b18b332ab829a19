-- ===== src/Experiment/Scores/Normal.antt =====
-- The normalised throughput of a round in which no process finishes in the first bucket.
use mc.Prelude.{
  ℕ, zero, suc, ◌+◌, ◌-◌, ◌*◌, ◌/◌, ◌%◌, ◌^◌, ◌≤◌, ◌<◌, ◌≡◌, refl, List, [], ◌∷◌, false, some,
  if◌then◌else◌, ◌==◌, All, length, arith, take, leb, ap,
}
use mc.Experiment.Rand.{sub64}
use mc.Experiment.Terminos.Lost.{total}
use mc.Experiment.Scores.{unit, lt64, largest, smallest, normalised, vazao_norm}

div-le : (a b n : ℕ) → 0 < n → a ≤ n * b → a / n ≤ b
div-le a b n h l = grind arith

div-le_self : (a n : ℕ) → a / n ≤ a
div-le_self a n = grind arith

-- `most` is the largest bucket after the first one.
normalised_bounds :
    (lim most : ℕ)
    → 0 < lim
    → most ≤ 20
    → 20 ≤ lim * most
    → (q : ℕ) × (normalised lim most 0 ≡ some q) × (q ≤ unit)
unfolding normalised
normalised_bounds lim most pos few enough =
    let media : ℕ = 20 * unit / lim in
    let low : media ≤ 2000000 = div-le_self 2000000 lim in
    let high : media ≤ most * 100000 = div-le 2000000 (most * 100000) lim pos (omega arith) in
    let some_most : 0 < most = positive_most most enough in
    let q : media * 100000 / (most * 100000) ≤ 100000 =
      div-le (media * 100000) 100000 (most * 100000) (omega arith) (omega arith) in
    let a : (lim == 0) ≡ false = ground arith in
    let n : sub64 media (0 * unit % 2 ^ 64) ≡ media = omega arith in
    let d : sub64 (most * unit % 2 ^ 64) (0 * unit % 2 ^ 64) ≡ most * 100000 = omega arith in
    let b : (most * 100000 == 0) ≡ false = ground arith in
    let p : media * 100000 % 2 ^ 64 ≡ media * 100000 = omega arith in
    let c : leb (2 ^ 63) (media * 100000) ≡ false = ground arith in
    (
      unit - media * 100000 / (most * 100000),
      rw (a, n, d, b, p, c) (ap some (omega arith)),
      omega arith,
    )
  where
    positive_most : (m : ℕ) → 20 ≤ lim * m → 0 < m
    positive_most zero h = omega arith
    positive_most (suc m) h = omega arith

-- Buckets hold at most the 20 processes.
abbrev Few : List ℕ → Type 0
Few ws = All (λ w. w ≤ 20) ws

largest_bounds :
    (m : ℕ) (ws : List ℕ)
    → m ≤ 20
    → Few ws
    → (largest m ws ≤ 20) × (m ≤ largest m ws) × (total ws ≤ length ws * largest m ws)
unfolding largest
largest_bounds m [] h f = omega arith
largest_bounds m (w ∷ ws) h f =
    let m' : ℕ = if lt64 m w then w else m in
    let (up, low, sum) = largest_bounds m' ws (ground (arith, f.0)) f.1 in
    let both : (m ≤ m') × (w ≤ m') = ground (arith, f.0) in (up, omega arith, omega arith)

smallest_zero : (ws : List ℕ) → Few ws → smallest 0 ws ≡ 0
unfolding smallest
smallest_zero [] f = refl
smallest_zero (w ∷ ws) f =
    let e : lt64 w 0 ≡ false = ground (arith, f.0) in rw e (smallest_zero ws f.1)

Few-of_total : (ws : List ℕ) → total ws ≤ 20 → Few ws
Few-of_total [] h = tt
Few-of_total (w ∷ ws) h = (omega arith, Few-of_total ws (omega arith))

-- In a round where no process finishes in the first bucket and the 20 finish in the `lim` next ones, the
-- normalised throughput is defined and between 0 and 1.
pub vazao_norm_bounds :
    (lim : ℕ) (v ws : List ℕ)
    → 0 < lim
    → take (lim + 1) v ≡ 0 ∷ ws
    → length ws ≤ lim
    → total ws ≡ 20
    → (q : ℕ) × (vazao_norm lim v ≡ some q) × (q ≤ unit)
unfolding vazao_norm
vazao_norm_bounds lim v ws pos e len sum =
    let few : Few ws = Few-of_total ws (omega arith) in
    let (up, low, cover) = largest_bounds 0 ws (omega arith) few in
    let enough : 20 ≤ lim * largest 0 ws = grind arith in
    let (q, value, bound) = normalised_bounds lim (largest 0 ws) pos up enough in
    (q, rw (e, vazao_norm) (rw (smallest_zero ws few) value), bound)
