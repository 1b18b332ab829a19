-- ===== src/Experiment/Scores/Fairness.antt =====
-- Jain's index, the fairness of a round in user/run_experiment.c.
use mc.Prelude.{
  ℕ, zero, suc, ◌+◌, ◌*◌, ◌/◌, ◌%◌, ◌^◌, ◌≤◌, ◌<◌, ◌≡◌, refl, ◌⊎◌, inl, inr, List, [], ◌∷◌, none,
  some, ◌==◌, All, length, arith, Bool-cases,
}
use mc.Experiment.Scores.{unit, soma, soma_quadrado, justica_fim}

-- The sums without any wrap-around.
abbrev pub sum : List ℕ → ℕ
sum [] = 0
sum (x ∷ xs) = x + sum xs

abbrev pub squares : List ℕ → ℕ
squares [] = 0
squares (x ∷ xs) = x * x + squares xs

-- 2 * x * y ≤ x * x + y * y
am_gm : (x y : ℕ) → 2 * x * y ≤ x * x + y * y
am_gm zero y = omega arith
am_gm (suc x) zero = omega arith
am_gm (suc x) (suc y) = omega (arith, am_gm x y)

-- 2 * x * Σ y ≤ n * x * x + Σ y * y
cross : (x : ℕ) (ys : List ℕ) → 2 * x * sum ys ≤ length ys * (x * x) + squares ys
cross x [] = omega arith
cross x (y ∷ ys) = omega (arith, am_gm x y, cross x ys)

cauchy_schwarz : (xs : List ℕ) → sum xs * sum xs ≤ length xs * squares xs
cauchy_schwarz [] = omega arith
cauchy_schwarz (x ∷ xs) = omega (arith, cross x xs, cauchy_schwarz xs)

-- The squares make at most the square of the sum.
squares-le : (xs : List ℕ) → squares xs ≤ sum xs * sum xs
squares-le [] = omega arith
squares-le (x ∷ xs) = omega (arith, squares-le xs)

-- Times whose square fits an `int`.
abbrev pub IsSmall : List ℕ → Type 0
IsSmall xs = All (λ x. x < 46341) xs

square_small : (x : ℕ) → x < 46341 → x * x ≤ 2147395600
square_small x h = grind arith

sums_small :
    (xs : List ℕ)
    → IsSmall xs
    → length xs ≤ 20
    → (sum xs ≤ length xs * 46340)
      × (squares xs ≤ length xs * 2147395600)
      × (soma xs ≡ sum xs)
      × (soma_quadrado xs ≡ squares xs)
unfolding soma soma_quadrado
sums_small [] h l = omega arith
sums_small (x ∷ xs) h l = ground (arith, h.0, square_small x h.0, sums_small xs h.1 (omega arith))

product_small : (s : ℕ) → s ≤ 926800 → s * s ≤ 858958240000
product_small s h = grind arith

-- The quotient of Jain's index lies between 1 / 20 and 1.
quotient_bounds :
    (a b : ℕ)
    → 0 < b
    → a ≤ 20 * b
    → b ≤ a
    → (5000 ≤ a * 100000 / (20 * b)) × (a * 100000 / (20 * b) ≤ 100000)
quotient_bounds a b pos up low = grind arith

-- For 20 times whose squares fit an `int`, the fairness of a round is between 0.05 and 1, and it is
-- undefined, a division by zero, exactly when every time is 0.
pub justica_fim_lem :
    (xs : List ℕ)
    → length xs ≡ 20
    → IsSmall xs
    → ((justica_fim xs ≡ none) × (sum xs ≡ 0))
      ⊎ ((0 < sum xs) × ((q : ℕ) × (justica_fim xs ≡ some q) × (5000 ≤ q) × (q ≤ unit)))
unfolding justica_fim
justica_fim_lem xs l h =
    let (ts, tq, es, eq) = sums_small xs h (omega arith) in
    let room : sum xs * sum xs ≤ 858958240000 = product_small (sum xs) (omega arith) in
    let upper : sum xs * sum xs ≤ 20 * squares xs = rw l at (cauchy_schwarz xs) in
    let nom : sum xs * sum xs % 2 ^ 64 * unit % 2 ^ 64 ≡ sum xs * sum xs * 100000 = omega arith in
    let den : 20 * squares xs % 2 ^ 64 ≡ 20 * squares xs = omega arith in
    elim (Bool-cases (20 * squares xs == 0)) [
      | inl e ↦ inl (rw (es, eq, nom, den, e), square_zero (sum xs) (ground arith))
      | inr e ↦ inr (
        sum_pos (sum xs) (squares xs) (ground (arith, e)) (squares-le xs),
        (
          sum xs * sum xs * 100000 / (20 * squares xs),
          rw (es, eq, nom, den, e),
          (quotient_bounds (sum xs * sum xs) (squares xs) (ground arith) upper (squares-le xs)).0,
          (quotient_bounds (sum xs * sum xs) (squares xs) (ground arith) upper (squares-le xs)).1,
        ),
      )
    ]
  where
    sum_pos : (s b : ℕ) → 0 < b → b ≤ s * s → 0 < s
    sum_pos zero b p l = omega arith
    sum_pos (suc s) b p l = omega arith

    square_zero : (s : ℕ) → s * s ≡ 0 → s ≡ 0
    square_zero zero e = refl
    square_zero (suc s) e = absurd (omega arith)
