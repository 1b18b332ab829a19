-- ===== src/Proc/Metrics/Counters.antt =====
-- Runs of sys_increment_metric on the three tables of counters.
use mc.Prelude.{
  ℕ, zero, suc, false, ◌+◌, ◌%◌, ◌^◌, ◌<◌, ◌≡◌, refl, ap, ◌∙◌, List, [], ◌∷◌, Option, some, arith,
  if◌then◌else◌, ◌==◌, ==_iff, Bool-cases, add32, minus_one, set, length, length-set, inl, inr,
  get_or, get_or-set, leb, ltb, ◌&&◌, get_elem?-get_or, All,
}
use mathlib.Core.Option
use mc.Proc.Metrics.{
  Metrics, mode_overhead, mode_eficiencia, add_at, sys_increment_metric, sys_initialize_metrics,
  clear_from,
}

-- The tables have 20 entries of 32 bits.
pub record IsSized (m : Metrics) : Type 0 where
  pub overheads_size : length m.overheads ≡ 20
  pub eficiencias_size : length m.eficiencias ≡ 20
  pub justicas_size : length m.justicas ≡ 20

-- A call of increment_metric.
pub record Bump : Type 0 where
  pub index : ℕ
  pub amount : ℕ
  pub mode : ℕ

-- A run of calls; `none` if one of them is out of range.
unfoldable pub run_bumps : List Bump → Metrics → Option Metrics
run_bumps [] m = some m
run_bumps (b ∷ bs) m =
    Option.bind (sys_increment_metric b.index b.amount b.mode m) (λ r. run_bumps bs r.0)

-- What a run adds to the entry `index` of the table of `mode`.
unfoldable pub added : List Bump → (mode index : ℕ) → ℕ
added [] mode index = 0
added (b ∷ bs) mode index =
    (if b.mode == mode then (if b.index == index then b.amount else 0) else 0) + added bs mode index

add_at_lem :
    (t : List ℕ) (i a : ℕ) → i < length t → add_at t i a ≡ some (set t i (add32 (get_or t i 0) a))
unfolding add_at
add_at_lem t i a l = rw (get_elem?-get_or t i 0 l)

-- One call with an index in range: the entry of its mode grows by the amount, and nothing else changes.
pub record IsBumped (b : Bump) (m m' : Metrics) : Type 0 where
  pub sized : IsSized m'
  pub overhead :
      (i : ℕ)
      → get_or m'.overheads i 0 % 2 ^ 32
        ≡ (get_or m.overheads i 0
            + (if b.mode == mode_overhead then (if b.index == i then b.amount else 0) else 0))
          % 2 ^ 32
  pub eficiencia :
      (i : ℕ)
      → get_or m'.eficiencias i 0 % 2 ^ 32
        ≡ (get_or m.eficiencias i 0
            + (if b.mode == mode_eficiencia then (if b.index == i then b.amount else 0) else 0))
          % 2 ^ 32
  pub justica : m'.justicas ≡ m.justicas

entry_added :
    (t : List ℕ) (i a j : ℕ)
    → i < length t
    → get_or (set t i (add32 (get_or t i 0) a)) j 0 % 2 ^ 32
      ≡ (get_or t j 0 + (if i == j then a else 0)) % 2 ^ 32
entry_added t i a j l =
    rw (get_or-set t i j (add32 (get_or t i 0) a) 0 l) (elim (Bool-cases (i == j)) [
      | inl e ↦ rw (e, (==_iff i j).0 e) (omega arith)
      | inr e ↦ rw e (omega arith)
    ])

bump_lem :
    (b : Bump) (m : Metrics)
    → IsSized m
    → b.index < 20
    → (m' : Metrics) × (status : ℕ) × (sys_increment_metric b.index b.amount b.mode m
        ≡ some (m', status))
      × IsBumped b m m'
unfolding sys_increment_metric
bump_lem b m s l = elim (Bool-cases (b.mode == mode_overhead)) [
  | inl e ↦ (
    record m {
      overheads = set m.overheads b.index (add32 (get_or m.overheads b.index 0) b.amount);
    },
    0,
    rw (e, add_at_lem m.overheads b.index b.amount (omega arith)),
    record {
      sized = record {
        overheads_size = length-set m.overheads b.index _ ∙ s.overheads_size;
        eficiencias_size = s.eficiencias_size;
        justicas_size = s.justicas_size;
      };
      overhead = λ i. rw e (entry_added m.overheads b.index b.amount i (omega arith));
      eficiencia =
          λ i. let f : (b.mode == mode_eficiencia) ≡ false = ground arith in rw f (omega arith);
      justica = refl;
    },
  )
  | inr e ↦ elim (Bool-cases (b.mode == mode_eficiencia)) [
    | inl f ↦ (
      record m {
        eficiencias = set m.eficiencias b.index (add32 (get_or m.eficiencias b.index 0) b.amount);
      },
      0,
      rw (e, f, add_at_lem m.eficiencias b.index b.amount (omega arith)),
      record {
        sized = record {
          overheads_size = s.overheads_size;
          eficiencias_size = length-set m.eficiencias b.index _ ∙ s.eficiencias_size;
          justicas_size = s.justicas_size;
        };
        overhead = λ i. rw e (omega arith);
        eficiencia = λ i. rw f (entry_added m.eficiencias b.index b.amount i (omega arith));
        justica = refl;
      },
    )
    | inr f ↦ (
      m,
      minus_one,
      rw (e, f),
      record {
        sized = s;
        overhead = λ i. rw e (omega arith);
        eficiencia = λ i. rw f (omega arith);
        justica = refl;
      },
    )
  ]
]

-- Any run of increment_metric calls with indices below 20 goes through, and leaves in each entry of
-- the two tables what was there plus all the amounts given for it, modulo 2 ^ 32. The third table
-- keeps its contents.
pub run_bumps-added :
    (bs : List Bump) (m : Metrics)
    → IsSized m
    → All (λ b. b.index < 20) bs
    → (m' : Metrics) × (run_bumps bs m ≡ some m')
      × IsSized m'
      × ((i : ℕ)
          → get_or m'.overheads i 0 % 2 ^ 32
            ≡ (get_or m.overheads i 0 + added bs mode_overhead i) % 2 ^ 32)
      × ((i : ℕ)
          → get_or m'.eficiencias i 0 % 2 ^ 32
            ≡ (get_or m.eficiencias i 0 + added bs mode_eficiencia i) % 2 ^ 32)
      × (m'.justicas ≡ m.justicas)
unfolding run_bumps added Option.bind
run_bumps-added [] m s l = (m, refl, s, (λ i. omega arith), (λ i. omega arith), refl)
run_bumps-added (b ∷ bs) m s l =
    let (m1, status, e, o) = bump_lem b m s l.0 in
    let (m2, e2, s2, ov, ef, ju) = run_bumps-added bs m1 o.sized l.1 in
    (
      m2,
      rw e e2,
      s2,
      (λ i. omega (arith, ov i, o.overhead i)),
      (λ i. omega (arith, ef i, o.eficiencia i)),
      ju ∙ o.justica,
    )

length-clear_from : (left k : ℕ) (t : List ℕ) → length (clear_from left k t) ≡ length t
unfolding clear_from
length-clear_from zero k t = refl
length-clear_from (suc left) k t = length-clear_from left (k + 1) (set t k 0) ∙ length-set t k 0

initialized-IsSized : (m : Metrics) → IsSized m → IsSized (sys_initialize_metrics m)
unfolding sys_initialize_metrics
initialized-IsSized m s = record {
  overheads_size = length-clear_from 20 0 m.overheads ∙ s.overheads_size;
  eficiencias_size = length-clear_from 20 0 m.eficiencias ∙ s.eficiencias_size;
  justicas_size = length-clear_from 20 0 m.justicas ∙ s.justicas_size;
}

set_zero : (t : List ℕ) (k i : ℕ) → get_or (set t k 0) i 0 ≡ (if k == i then 0 else get_or t i 0)
set_zero [] k i = ground arith
set_zero (x ∷ t) zero zero = refl
set_zero (x ∷ t) zero (suc i) = ground arith
set_zero (x ∷ t) (suc k) zero = ground arith
set_zero (x ∷ t) (suc k) (suc i) = ground (arith, set_zero t k i)

clear_from-lem :
    (left k : ℕ) (t : List ℕ) (i : ℕ)
    → get_or (clear_from left k t) i 0 ≡ (if leb k i && ltb i (k + left) then 0 else get_or t i 0)
unfolding clear_from
clear_from-lem zero k t i = ground arith
clear_from-lem (suc left) k t i =
    clear_from-lem left (k + 1) (set t k 0) i ∙ rw (set_zero t k i) (ground arith)

-- After initialize_metrics a run of increment_metric calls with indices below 20 goes through, and leaves in
-- each of the 20 entries of overheads and eficiencias the amounts given for it in the run, modulo 2 ^ 32,
-- and 0 in each of the 20 entries of justicas.
pub run_bumps_fresh :
    (bs : List Bump) (m : Metrics)
    → IsSized m
    → All (λ b. b.index < 20) bs
    → (m' : Metrics) × (run_bumps bs (sys_initialize_metrics m) ≡ some m')
      × ((i : ℕ) → i < 20 → get_or m'.overheads i 0 % 2 ^ 32 ≡ added bs mode_overhead i % 2 ^ 32)
      × ((i : ℕ)
          → i < 20
          → get_or m'.eficiencias i 0 % 2 ^ 32 ≡ added bs mode_eficiencia i % 2 ^ 32)
      × ((i : ℕ) → i < 20 → get_or m'.justicas i 0 ≡ 0)
unfolding sys_initialize_metrics
run_bumps_fresh bs m s l =
    let (m', e, sized, ov, ef, ju) =
      run_bumps-added bs (sys_initialize_metrics m) (initialized-IsSized m s) l in
    (
      m',
      e,
      (λ i h. omega (arith, ov i, cleared_entry m.overheads i h)),
      (λ i h. omega (arith, ef i, cleared_entry m.eficiencias i h)),
      (λ i h. ap (λ t. get_or t i 0) ju ∙ cleared_entry m.justicas i h),
    )
  where
    cleared_entry : (t : List ℕ) (i : ℕ) → i < 20 → get_or (clear_from 20 0 t) i 0 ≡ 0
    cleared_entry t i h = ground (arith, clear_from-lem 20 0 t i)
