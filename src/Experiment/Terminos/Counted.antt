-- ===== src/Experiment/Terminos/Counted.antt =====
-- The throughput loop of user/run_experiment.c on times in order.
use mc.Prelude.{
  ℕ, zero, suc, ◌+◌, ◌-◌, ◌*◌, ◌/◌, ◌≤◌, ◌<◌, ◌≡◌, refl, sym, ◌∙◌, inl, inr, List, arith, Option,
  none, some, if◌then◌else◌, ltb, leb, get_or, set, length, length-set, get_or-set, Bool-cases,
  ◌==◌, ==_iff, replicate, get_elem?-get_or, length-replicate,
}
use mc.Experiment.Terminos.{count_loop, throughput, processes, seconds}

-- the bucket of a time: the least `s` with `time ≤ 10 * s`
abbrev pub bucket : ℕ → ℕ
bucket time = (time + 9) / 10

-- how many of the first `n` times fall into bucket `s`
unfoldable pub in_bucket : (n s : ℕ) → List ℕ → ℕ
in_bucket zero s t = 0
in_bucket (suc n) s t = in_bucket n s t + (if bucket (get_or t n 0) == s then 1 else 0)

in_bucket_next :
    (n s : ℕ) (t : List ℕ)
    → in_bucket (n + 1) s t ≡ in_bucket n s t + (if bucket (get_or t n 0) == s then 1 else 0)
unfolding in_bucket
in_bucket_next n s t = let e : n + 1 ≡ suc n = omega arith in rw e

-- Times that are in order and below the end of the last bucket.
pub record IsOrdered (t : List ℕ) : Type 0 where
  pub ordered : (i j : ℕ) → i ≤ j → j < processes → get_or t i 0 ≤ get_or t j 0
  pub below : (i : ℕ) → i < processes → get_or t i 0 ≤ 10 * (seconds - 1)

-- Where the loop stands after `index` processes, at bucket `segundo`.
record IsCounted (index segundo : ℕ) (t v : List ℕ) : Type 0 where
  counts : (s : ℕ) → get_or v s 0 ≡ in_bucket index s t
  size : length v ≡ seconds
  reached : (k : ℕ) → index ≤ k → k < processes → 10 * segundo < get_or t k 0 + 10
  inside : segundo < seconds
  few : index ≤ processes
  last : index ≡ processes → segundo ≡ bucket (get_or t (processes - 1) 0)

abbrev Counts : List ℕ → Option (ℕ × List ℕ) → Type 0
Counts t none = ⊥
Counts t (some (lim, v)) =
    ((s : ℕ) → get_or v s 0 ≡ in_bucket processes s t)
    × (length v ≡ seconds)
    × (lim ≡ bucket (get_or t (processes - 1) 0))

finished_IsCounted :
    (index segundo : ℕ) (t v : List ℕ)
    → IsOrdered t
    → IsCounted index segundo t v
    → index < processes
    → get_or t index 0 ≤ 10 * segundo
    → IsCounted (index + 1) segundo t (set v segundo (get_or v segundo 0 + 1))
finished_IsCounted index segundo t v o c l h = record {
  counts = λ s.
      rw
        (
          get_or-set v segundo s (get_or v segundo 0 + 1) 0 (omega (arith, c.size, c.inside)),
          in_bucket_next index s t,
          here,
        )
        (elim (Bool-cases (segundo == s)) [
          | inl e ↦ rw e (rw (← (==_iff segundo s).0 e) (omega (arith, c.counts segundo)))
          | inr e ↦ rw e (omega (arith, c.counts s))
        ]);
  size = length-set v segundo _ ∙ c.size;
  reached = λ k a b. c.reached k (omega arith) b;
  inside = c.inside;
  few = omega arith;
  last = λ e. let at : index ≡ processes - 1 = omega arith in rw (← at) (sym here);
}
  where
    here : bucket (get_or t index 0) ≡ segundo
    here = omega (arith, c.reached index (omega arith) l)

later_IsCounted :
    (index segundo : ℕ) (t v : List ℕ)
    → IsOrdered t
    → IsCounted index segundo t v
    → index < processes
    → 10 * segundo < get_or t index 0
    → IsCounted index (segundo + 1) t v
later_IsCounted index segundo t v o c l h = record {
  counts = c.counts;
  size = c.size;
  reached = λ k a b. omega (arith, o.ordered index k a b);
  inside = omega (arith, o.below index l);
  few = c.few;
  last = λ e. absurd (omega arith);
}

count_loop_lem :
    (fuel index segundo : ℕ) (t v : List ℕ)
    → IsOrdered t
    → IsCounted index segundo t v
    → (processes - index) + (seconds - segundo) < fuel
    → Counts t (count_loop fuel index segundo t v)
unfolding count_loop
count_loop_lem zero index segundo t v o c f = absurd (omega arith)
count_loop_lem (suc fuel) index segundo t v o c f = elim (Bool-cases (ltb index processes)) [
  | inl more ↦ elim (Bool-cases (leb (get_or t index 0) (10 * segundo))) [
    | inl e ↦
        rw (more, e, get_elem?-get_or v segundo 0 (omega (arith, c.size, c.inside)))
          (count_loop_lem fuel (index + 1) segundo t _ o
            (finished_IsCounted index segundo t v o c (ground arith) (ground arith)) (ground arith))
    | inr e ↦
        rw (more, e)
          (count_loop_lem fuel index (segundo + 1) t v o
            (later_IsCounted index segundo t v o c (ground arith) (ground arith))
            (ground (arith, c.inside)))
  ]
  | inr done ↦
      let at : index ≡ processes = ground (arith, c.few) in
      rw done ((λ s. rw (← at) (c.counts s)), c.size, c.last at)
]

in_bucket_zero : (s : ℕ) (t : List ℕ) → in_bucket 0 s t ≡ 0
unfolding in_bucket
in_bucket_zero s t = refl

zero_entry : (n s : ℕ) → ◌≡◌ {A = ℕ} (get_or (replicate n 0) s 0) 0
zero_entry zero s = refl
zero_entry (suc n) zero = refl
zero_entry (suc n) (suc s) = zero_entry n s

-- With 321 rounds at hand, the loop on 20 times in order, none over 2990 ticks, ends within the 300
-- buckets; then each bucket holds the number of processes whose time falls into it, and `lim` is the
-- bucket of the last.
pub throughput_lem :
    (t : List ℕ)
    → IsOrdered t
    → (lim : ℕ) × (v : List ℕ) × (throughput 321 t ≡ some (lim, v))
      × ((s : ℕ) → get_or v s 0 ≡ in_bucket processes s t)
      × (length v ≡ seconds)
      × (lim ≡ bucket (get_or t (processes - 1) 0))
unfolding throughput
throughput_lem t o =
    result (throughput 321 t) refl
      (count_loop_lem 321 0 0 t (replicate seconds 0) o begin (omega arith))
  where
    begin : IsCounted 0 0 t (replicate seconds 0)
    begin = record {
      counts = λ s. zero_entry seconds s ∙ sym (in_bucket_zero s t);
      size = length-replicate {A = ℕ} seconds 0;
      reached = λ k a b. omega arith;
      inside = omega arith;
      few = omega arith;
      last = λ e. absurd (omega arith);
    }

    result :
        (r : Option (ℕ × List ℕ))
        → throughput 321 t ≡ r
        → Counts t r
        → (lim : ℕ) × (v : List ℕ) × (throughput 321 t ≡ some (lim, v))
          × ((s : ℕ) → get_or v s 0 ≡ in_bucket processes s t)
          × (length v ≡ seconds)
          × (lim ≡ bucket (get_or t (processes - 1) 0))
    result none e c = absurd c
    result (some (lim, v)) e c = (lim, v, e, c.0, c.1, c.2)
