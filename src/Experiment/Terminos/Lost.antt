-- ===== src/Experiment/Terminos/Lost.antt =====
-- The loops that are meant to sort the times, and the times they lose.
use mc.Prelude.{ℕ, zero, suc, ◌+◌, ◌≤◌, ◌<◌, ◌≡◌, refl, ◌∙◌, List, [], ◌∷◌, arith, get_or, length}
use mathlib.Core.List.{Perm, Permᴰ}
use mathlib.Core.Logic.{∥∥₁_elim}
use native.Mathlib.Nat.{ℕ_set}
use mc.Experiment.Terminos.{sort_inner, sort_outer, sort_terminos, processes}
use mc.Experiment.Terminos.Sorted.{length-sort_inner, sort_terminos-IsSorted}

abbrev pub total : List ℕ → ℕ
total [] = 0
total (x ∷ xs) = x + total xs

total-le :
    (xs ys : List ℕ)
    → length xs ≡ length ys
    → ((i : ℕ) → i < length ys → get_or xs i 0 ≤ get_or ys i 0)
    → total xs ≤ total ys
total-le [] ys l h = omega arith
total-le (x ∷ xs) [] l h = absurd (omega arith)
total-le (x ∷ xs) (y ∷ ys) l h =
    omega (arith, h 0 (omega arith), total-le xs ys (omega arith) (λ i u. h (suc i) (omega arith)))

total-lt :
    (xs ys : List ℕ) (k : ℕ)
    → length xs ≡ length ys
    → ((i : ℕ) → i < length ys → get_or xs i 0 ≤ get_or ys i 0)
    → k < length ys
    → get_or xs k 0 < get_or ys k 0
    → total xs < total ys
total-lt xs [] k l h u s = absurd (omega arith)
total-lt [] (y ∷ ys) k l h u s = absurd (omega arith)
total-lt (x ∷ xs) (y ∷ ys) zero l h u s =
    omega (arith, total-le xs ys (omega arith) (λ i v. h (suc i) (omega arith)))
total-lt (x ∷ xs) (y ∷ ys) (suc k) l h u s = omega (
  arith,
  h 0 (omega arith),
  total-lt xs ys k (omega arith) (λ i v. h (suc i) (omega arith)) (omega arith) s,
)

length-sort_outer : (left j : ℕ) (t : List ℕ) → length (sort_outer left j t) ≡ length t
unfolding sort_outer
length-sort_outer zero j t = refl
length-sort_outer (suc left) j t =
    length-sort_outer left (j + 1) (sort_inner left (j + 1) j t)
    ∙ length-sort_inner left (j + 1) j t

pub length-sort_terminos : (t : List ℕ) → length (sort_terminos t) ≡ length t
unfolding sort_terminos
length-sort_terminos t = length-sort_outer processes 0 t

total-perm_data : {xs ys : List ℕ} → Permᴰ xs ys → total xs ≡ total ys
total-perm_data Permᴰ.nil = refl
total-perm_data (Permᴰ.cons e p) = omega (arith, total-perm_data p)
total-perm_data (Permᴰ.swap e f) = omega arith
total-perm_data (Permᴰ.trans p q) = total-perm_data p ∙ total-perm_data q

total-perm : {xs ys : List ℕ} → Perm xs ys → total xs ≡ total ys
total-perm p = ∥∥₁_elim p (ℕ_set _ _) total-perm_data

-- Where the times are out of order, the loops lose some: if a later time is smaller than an earlier one,
-- the result is no rearrangement of the times.
pub sort_terminos-loses :
    (t : List ℕ) (i j : ℕ)
    → length t ≡ processes
    → i < j
    → j < processes
    → get_or t j 0 < get_or t i 0
    → ¬ Perm (sort_terminos t) t
sort_terminos-loses t i j l h u out p = absurd (
    omega (
      arith,
      total-perm p,
      total-lt (sort_terminos t) t i (length-sort_terminos t)
          (λ k v. (sort_terminos-IsSorted t k k l (omega arith) (omega arith)).1) (omega arith)
          (omega (arith, (sort_terminos-IsSorted t i j l (omega arith) u).1)),
    ))
