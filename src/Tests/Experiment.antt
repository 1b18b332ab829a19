-- ===== src/Tests/Experiment.antt =====
-- The experiment at concrete numbers.
use mc.Prelude.{
  ℕ, zero, suc, ◌+◌, ◌-◌, ◌*◌, ◌%◌, ◌^◌, ◌/◌, ◌≤◌, ◌<◌, ◌≡◌, refl, ◌⊎◌, List, [], ◌∷◌, none, some,
  arith, replicate, get_or,
}
use mathlib.Core.List.{Perm}
use mc.Experiment.Rand.{do_rand, rand, draw_split, seed, modulus}
use mc.Experiment.Rand.Lehmer.{do_rand_lem, draw_split_lem}
use mc.Experiment.Terminos.{sort_terminos, processes}
use mc.Experiment.Terminos.Sorted.{least_after, sort_terminos_lem, sort_terminos-IsSorted}
use mc.Experiment.Terminos.Lost.{sort_terminos-loses}
use mc.Experiment.Terminos.Counted.{IsOrdered}
use mc.Experiment.Scores.{justica_fim, vazao_norm, unit}
use mc.Experiment.Scores.Fairness.{justica_fim_lem, sum}
use mc.Experiment.Names.{filename}
use mc.Experiment.Names.Files.{filename_clash}

do_rand_lem_example :
    (do_rand 7 + 1 ≡ 16807 * seed 7 % modulus)
    × (do_rand 7 < 0x7ffffffe)
    × (16807 * (seed 7 % 127773) < 2 ^ 63)
    × (2836 * (seed 7 / 127773) < 2 ^ 63)
do_rand_lem_example = do_rand_lem 7

do_rand_value : do_rand 7 ≡ 134455
unfolding do_rand
do_rand_value = refl

same_state : do_rand 7 ≡ do_rand 7
same_state = refl

draw_split_lem_example :
    (6 ≤ (draw_split 7).0.0)
    × ((draw_split 7).0.0 ≤ 14)
    × ((draw_split 7).0.0 + (draw_split 7).0.1 ≡ 20)
    × ((rand 7).0 < 2147483648)
    × ((draw_split 7).1 ≡ do_rand 7)
draw_split_lem_example = draw_split_lem 7

-- 30 and then nineteen times 20
abbrev late_first : List ℕ
late_first = 30 ∷ replicate 19 20

sort_terminos_lem_example :
    get_or (sort_terminos late_first) 0 0 ≡ least_after processes 0 late_first
sort_terminos_lem_example = sort_terminos_lem late_first 0 refl (omega arith)

sort_terminos-IsSorted_example :
    (get_or (sort_terminos late_first) 0 0 ≤ get_or (sort_terminos late_first) 3 0)
    × (get_or (sort_terminos late_first) 0 0 ≤ get_or late_first 3 0)
sort_terminos-IsSorted_example =
    sort_terminos-IsSorted late_first 0 3 refl (omega arith) (omega arith)

sort_terminos-loses_example : ¬ Perm (sort_terminos late_first) late_first
sort_terminos-loses_example =
    sort_terminos-loses late_first 0 1 refl (omega arith) (omega arith) (omega arith)

-- all at 25 ticks
abbrev together : List ℕ
together = replicate 20 25

get_or-replicate : (n i a : ℕ) → i < n → get_or (replicate n a) i 0 ≡ a
get_or-replicate zero i a h = absurd (omega arith)
get_or-replicate (suc n) zero a h = refl
get_or-replicate (suc n) (suc i) a h = get_or-replicate n i a (omega arith)

together-IsOrdered : IsOrdered together
together-IsOrdered = record {
  ordered =
      λ i j h l. omega (arith, get_or-replicate 20 i 25 (omega arith), get_or-replicate 20 j 25 l);
  below = λ i l. omega (arith, get_or-replicate 20 i 25 l);
}

justica_fim_lem_example :
    ((justica_fim together ≡ none) × (sum together ≡ 0))
    ⊎ ((0 < sum together) × ((q : ℕ) × (justica_fim together ≡ some q) × (5000 ≤ q) × (q ≤ unit)))
justica_fim_lem_example = justica_fim_lem together refl (omega arith)

justica_even : justica_fim together ≡ some 100000
unfolding justica_fim
justica_even = refl

-- With processes in the first bucket the score leaves the range: -450000 as an `int`.
vazao_negative : vazao_norm 1 (11 ∷ 9 ∷ []) ≡ some (4294967296 - 450000)
unfolding vazao_norm
vazao_negative = refl

filename_clash_example : filename 3 ≡ filename 103
filename_clash_example = filename_clash 3 103 (omega arith) (omega arith) refl
