-- ===== src/Proc/Scheduler.antt =====
-- kernel/proc.c: `scheduler`, one round of its `for(;;)`. The scan of the table picks a process; the
-- loop below it dispatches that process until it comes back in another state than RUNNABLE.
pub mod Choice
pub mod Slices
use mc.Prelude.{
  ℕ, suc, List, [], ◌∷◌, Bool, true, false, ◌&&◌, Option, none, some, if◌then◌else◌, ◌==◌, add32,
  sub32, set, get_or,
}
use mc.Proc.State.{
  ProcState, runnable, running, Proc, is_state, cpu_bound, io_bound, default_type, zero_proc,
}

-- The pointers `cpu_proc`, `io_proc` and `default_proc`.
pub record Picks : Type 0 where
  pub cpu_proc : Option ℕ
  pub io_proc : Option ℕ
  pub default_proc : Option ℕ

abbrev pub is_null : Option ℕ → Bool
is_null none = true
is_null (some i) = false

abbrev pub note_proc : ℕ → Proc → Picks → Picks
note_proc i p k =
    if is_state p.state runnable
    then (if p.type == cpu_bound && is_null k.cpu_proc
        then record k { cpu_proc = some i }
        else if p.type == io_bound && is_null k.io_proc
        then record k { io_proc = some i }
        else if p.type == default_type && is_null k.default_proc
        then record k { default_proc = some i }
        else k)
    else k

-- the slots from `i` on
unfoldable pub scan : ℕ → List Proc → Picks → Picks
scan i [] k = k
scan i (p ∷ ps) k = scan (suc i) ps (note_proc i p k)

-- IO before CPU, and the default type only if there is neither
abbrev pub select : Picks → Option ℕ
select k = elim k.io_proc [
  | some i ↦ some i
  | none ↦ elim k.cpu_proc [ some i ↦ some i | none ↦ k.default_proc ]
]

unfoldable pub pick_proc : List Proc → Option ℕ
unfolding scan
pick_proc ps = select (scan 0 ps (record { cpu_proc = none; io_proc = none; default_proc = none }))

-- One dispatch: the ticks before and after `swtch`, and what happens to the table between the two,
-- by this process and by the other CPUs.
pub record Slice : Type 0 where
  pub tempo_inicio : ℕ
  pub tempo_final : ℕ
  pub runs : List Proc → List Proc

abbrev pub at : List Proc → ℕ → Proc
at ps i = get_or ps i zero_proc

abbrev pub start_running : ℕ → List Proc → List Proc
start_running i ps = set ps i (record (at ps i) { state = running })

-- the ticks of a dispatch, as the scheduler reads them
abbrev pub elapsed : Slice → ℕ
elapsed s = sub32 s.tempo_final s.tempo_inicio

abbrev pub charge : ℕ → ℕ → List Proc → List Proc
charge i t ps = set ps i (record (at ps i) { tempo_total = add32 (at ps i).tempo_total t })

unfoldable pub dispatch : Slice → ℕ → List Proc → List Proc
dispatch s i ps = charge i (elapsed s) (s.runs (start_running i ps))

-- The loop, over the dispatches to come: the table that it leaves, and the dispatches that it did not
-- need. With none left over the loop may still be running.
unfoldable pub run_loop : List Slice → ℕ → List Proc → List Proc × List Slice
unfolding dispatch
run_loop [] i ps = (ps, [])
run_loop (s ∷ ss) i ps = elim (is_state (at ps i).state runnable) [
  | true ↦ run_loop ss i (dispatch s i ps)
  | false ↦ (ps, s ∷ ss)
]

-- A round of the scheduler; with nothing to run the CPU waits for an interrupt.
unfoldable pub round : List Slice → List Proc → List Proc × List Slice
unfolding pick_proc run_loop
round ss ps = elim (pick_proc ps) [ none ↦ (ps, ss) | some i ↦ run_loop ss i ps ]
