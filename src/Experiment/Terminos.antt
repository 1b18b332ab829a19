-- ===== src/Experiment/Terminos.antt =====
-- user/run_experiment.c: the finishing times `terminos` of a round, the loops that are meant to sort
-- them, and the throughput `vazoes` counted from them. The times are `int`s that are not negative:
-- differences of the clock within a round.
pub mod Sorted
pub mod Lost
pub mod Counted
use mc.Prelude.{
  ℕ, zero, suc, ◌+◌, ◌-◌, ◌*◌, ◌/◌, List, [], Bool, true, false, Option, none, some, if◌then◌else◌,
  leb, ltb, get_or, get_elem?, set, replicate,
}

-- int temp = terminos[k]; terminos[j] = terminos[k]; terminos[k] = temp;
abbrev pub exchange : (j k : ℕ) → List ℕ → List ℕ
exchange j k t = let temp = get_or t k 0 in let t1 = set t j (get_or t k 0) in set t1 k temp

-- the loop over `k`, with `left` rounds to go
unfoldable pub sort_inner : (left k j : ℕ) → List ℕ → List ℕ
sort_inner zero k j t = t
sort_inner (suc left) k j t =
    sort_inner left (k + 1) j (if ltb (get_or t k 0) (get_or t j 0) then exchange j k t else t)

-- the loop over `j`
unfoldable pub sort_outer : (left j : ℕ) → List ℕ → List ℕ
unfolding sort_inner
sort_outer zero j t = t
sort_outer (suc left) j t = sort_outer left (j + 1) (sort_inner left (j + 1) j t)

abbrev pub processes : ℕ
processes = 20

unfoldable pub sort_terminos : List ℕ → List ℕ
unfolding sort_outer
sort_terminos t = sort_outer processes 0 t

abbrev pub seconds : ℕ
seconds = 300

-- The `while` of the throughput: the bucket of 10 ticks that `segundo_atual` names takes the processes
-- that finished in it. `none` is a write past the 300 buckets, or fuel that ran out.
unfoldable pub count_loop :
    (fuel index segundo : ℕ) → (terminos vazoes : List ℕ) → Option (ℕ × List ℕ)
count_loop zero index segundo t v = none
count_loop (suc fuel) index segundo t v =
    let finished : Option (ℕ × List ℕ) = elim (get_elem? v segundo) [
      | none ↦ none
      | some n ↦ count_loop fuel (index + 1) segundo t (set v segundo (n + 1))
    ] in
    let later = count_loop fuel index (segundo + 1) t v in
    if ltb index processes
    then (if leb (get_or t index 0) (10 * segundo) then finished else later)
    else some (segundo, v)

-- `lim` and the buckets
unfoldable pub throughput : ℕ → List ℕ → Option (ℕ × List ℕ)
unfolding count_loop
throughput fuel t = count_loop fuel 0 0 t (replicate seconds 0)
