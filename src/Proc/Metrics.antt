-- ===== src/Proc/Metrics.antt =====
-- kernel/proc.c: the system calls of the experiments: the three tables of counters, and those that
-- find a process by its pid. Arguments are `int`s. An index out of a table reads or writes other
-- memory in C: there the model answers `none`.
pub mod Counters
pub mod Pid
use mc.Prelude.{
  ℕ, ◌+◌, List, [], ◌∷◌, Bool, true, false, Option, none, some, if◌then◌else◌, ◌==◌, add32, is_neg,
  minus_one, set, get_elem?, find_index, replicate,
}
use mathlib.Core.Option
use mc.Proc.State.{Proc, Kernel, slot, put}

pub record Metrics : Type 0 where
  pub overheads : List ℕ
  pub eficiencias : List ℕ
  pub justicas : List ℕ

-- kernel/fcntl.h
abbrev pub mode_overhead : ℕ
mode_overhead = 8

abbrev pub mode_eficiencia : ℕ
mode_eficiencia = 10

unfoldable pub sys_get_overhead : ℕ → Metrics → Option ℕ
sys_get_overhead index m = get_elem? m.overheads index

unfoldable pub sys_get_eficiencia : ℕ → Metrics → Option ℕ
sys_get_eficiencia index m = get_elem? m.eficiencias index

unfoldable pub sys_get_justica : ℕ → Metrics → Option ℕ
sys_get_justica index m = get_elem? m.justicas index

-- `table[index] += amount`
unfoldable pub add_at : List ℕ → ℕ → ℕ → Option (List ℕ)
add_at table index amount =
    Option.map (λ old. set table index (add32 old amount)) (get_elem? table index)

-- 0, or -1 with nothing changed on an unknown mode
unfoldable pub sys_increment_metric : (index amount mode : ℕ) → Metrics → Option (Metrics × ℕ)
unfolding add_at
sys_increment_metric index amount mode m =
    if mode == mode_overhead
    then Option.map (λ t. (record m { overheads = t }, 0)) (add_at m.overheads index amount)
    else if mode == mode_eficiencia
    then Option.map (λ t. (record m { eficiencias = t }, 0)) (add_at m.eficiencias index amount)
    else some (m, minus_one)

-- The loop of sys_initialize_metrics, for `k` from 20 - `left` on.
unfoldable pub clear_from : (left k : ℕ) → List ℕ → List ℕ
clear_from ℕ.zero k t = t
clear_from (ℕ.suc left) k t = clear_from left (k + 1) (set t k 0)

unfoldable pub sys_initialize_metrics : Metrics → Metrics
unfolding clear_from
sys_initialize_metrics m = record {
  overheads = clear_from 20 0 m.overheads;
  eficiencias = clear_from 20 0 m.eficiencias;
  justicas = clear_from 20 0 m.justicas;
}

-- The first slot that holds a pid.
abbrev pub has_pid : ℕ → Proc → Bool
has_pid pid p = p.pid == pid

unfoldable pub sys_tempo_total : ℕ → Kernel → ℕ
sys_tempo_total pid k = if is_neg pid then minus_one else elim (find_index (has_pid pid) k.procs) [
  | none ↦ minus_one
  | some i ↦ (slot k i).tempo_total
]

unfoldable pub sys_set_justica : (index pid : ℕ) → Kernel → Metrics → Option (Metrics × ℕ)
sys_set_justica index pid k m = elim (find_index (has_pid pid) k.procs) [
  | none ↦ some (m, minus_one)
  | some i ↦
      Option.map (λ _. (record m { justicas = set m.justicas index (slot k i).tempo_total }, 0))
        (get_elem? m.justicas index)
]

unfoldable pub sys_set_type : (type pid : ℕ) → Kernel → Kernel × ℕ
sys_set_type type pid k = elim (find_index (has_pid pid) k.procs) [
  | none ↦ (k, minus_one)
  | some i ↦ (put k i (record (slot k i) { type = type }), 0)
]
