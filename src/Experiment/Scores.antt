-- ===== src/Experiment/Scores.antt =====
-- user/run_experiment.c: the scores of a round, in units of 1e-5. `int` sums wrap at 32 bits, as the
-- compiler's arithmetic does; the `long long` ones of the fairness have 64 bits. A division by zero
-- is `none`.
pub mod Fairness
pub mod Normal
use mc.Prelude.{
  ℕ, zero, suc, ◌+◌, ◌-◌, ◌*◌, ◌/◌, ◌%◌, ◌^◌, List, [], ◌∷◌, Bool, true, false, Option, none, some,
  if◌then◌else◌, ltb, leb, ◌==◌, add32, is_neg, take,
}
use mc.Experiment.Rand.{add64, sub64}

abbrev pub unit : ℕ
unit = 100000

-- The sum of a table of `int`s.
unfoldable pub sum32 : ℕ → List ℕ → ℕ
sum32 acc [] = acc
sum32 acc (x ∷ xs) = sum32 (add32 acc x) xs

abbrev pub div? : ℕ → ℕ → Option ℕ
div? a b = if b == 0 then none else some (a / b)

-- The efficiencies that are not negative: those of the IO-bound processes.
unfoldable pub kept : List ℕ → List ℕ
kept [] = []
kept (x ∷ xs) = if is_neg x then kept xs else x ∷ kept xs

-- eficiencia_fim, for sums that are not negative as an `int`. The loop of the sum reads the first `y`
-- entries of the table of those kept.
unfoldable pub eficiencia_fim : ℕ → List ℕ → Option ℕ
unfolding sum32 kept
eficiencia_fim y eficiencias = div? unit (sum32 0 (take y (kept eficiencias)))

unfoldable pub overhead_fim : List ℕ → Option ℕ
unfolding sum32
overhead_fim overheads = div? unit (sum32 0 overheads)

-- An `int` as a `long long`.
abbrev pub extend : ℕ → ℕ
extend x = if is_neg x then x + (2 ^ 64 - 2 ^ 32) else x

-- justica_soma and justica_soma_quadrado; the product is taken in `int`.
unfoldable pub soma : List ℕ → ℕ
soma [] = 0
soma (x ∷ xs) = (extend x + soma xs) % 2 ^ 64

unfoldable pub soma_quadrado : List ℕ → ℕ
soma_quadrado [] = 0
soma_quadrado (x ∷ xs) = (extend (x * x % 2 ^ 32) + soma_quadrado xs) % 2 ^ 64

-- justica_fim
unfoldable pub justica_fim : List ℕ → Option ℕ
unfolding soma soma_quadrado
justica_fim justicas =
    let nominador = soma justicas * soma justicas % 2 ^ 64 in
    let denominador = 20 * soma_quadrado justicas % 2 ^ 64 in
    div? (nominador * unit % 2 ^ 64) denominador

-- `a < b` between two values of type `long long`
abbrev pub lt64 : ℕ → ℕ → Bool
lt64 a b = ltb (add64 a (2 ^ 63)) (add64 b (2 ^ 63))

-- The largest and the smallest bucket among the first ones, from the starting values on.
unfoldable pub largest : ℕ → List ℕ → ℕ
largest m [] = m
largest m (x ∷ xs) = largest (if lt64 m x then x else m) xs

unfoldable pub smallest : ℕ → List ℕ → ℕ
smallest m [] = m
smallest m (x ∷ xs) = smallest (if lt64 x m then x else m) xs

-- The signed division, which rounds to 0, by a number that is not negative.
abbrev pub quot64 : ℕ → ℕ → ℕ
quot64 a b = if leb (2 ^ 63) a then sub64 0 (sub64 0 a / b) else a / b

-- -10 as a `long long`
abbrev pub vazao_start : ℕ
vazao_start = 2 ^ 64 - 10

-- vazao_norm from `vazao_max`, `vazao_min` and `lim`
unfoldable pub normalised : (lim most least : ℕ) → Option ℕ
normalised lim most least =
    let vazao_max = most * unit % 2 ^ 64 in
    let vazao_min = least * unit % 2 ^ 64 in
    let media = 20 * unit / lim in
    let nominador = sub64 media vazao_min in
    let denominador = sub64 vazao_max vazao_min in
    if lim == 0
    then none
    else if denominador == 0
    then none
    else some (sub64 unit (quot64 (nominador * unit % 2 ^ 64) denominador) % 2 ^ 32)

unfoldable pub vazao_norm : ℕ → List ℕ → Option ℕ
unfolding largest smallest normalised
vazao_norm lim vazoes =
    normalised lim (largest vazao_start (take (lim + 1) vazoes))
      (smallest 10000 (take (lim + 1) vazoes))
