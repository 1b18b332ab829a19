-- ===== src/Tests/Scheduler.antt =====
-- The scheduler on a table of three processes.
use mc.Prelude.{
  ℕ, ◌+◌, ◌%◌, ◌≡◌, refl, ◌≢◌, List, [], ◌∷◌, none, some, arith, set, length-set, get_or-set_self,
}
use mc.Proc.State.{runnable, Proc, zero_proc, io_bound, cpu_bound, default_type}
use mc.Proc.Scheduler.{Slice, at, pick_proc, run_loop, round}
use mc.Proc.Scheduler.Choice.{
  by_priority, IsChoice, pick_proc-by_priority, pick_proc-IsChoice, pick_proc-none,
}
use mc.Proc.Scheduler.Slices.{
  dispatch_all, round-KeepsReady, run_loop-tempo_total, total_elapsed, KeepsReady, KeepsTime,
}

abbrev ready : ℕ → Proc
ready t = record zero_proc { state = runnable; type = t }

-- a CPU-bound process, then two IO-bound ones
abbrev three : List Proc
three = ready cpu_bound ∷ ready io_bound ∷ ready io_bound ∷ []

pick_proc-by_priority_example : pick_proc three ≡ by_priority three
pick_proc-by_priority_example = pick_proc-by_priority three

picks_io : pick_proc three ≡ some 1
unfolding pick_proc
picks_io = refl

pick_proc-IsChoice_example : IsChoice three 1
pick_proc-IsChoice_example = pick_proc-IsChoice three 1 picks_io

-- a runnable process of a type that set_type does not know
abbrev odd_type : List Proc
odd_type = ready 7 ∷ []

passes_over : pick_proc odd_type ≡ none
unfolding pick_proc
passes_over = refl

pick_proc-none_example :
    ((ready 7).type ≢ io_bound) × ((ready 7).type ≢ cpu_bound) × ((ready 7).type ≢ default_type)
pick_proc-none_example = pick_proc-none odd_type 0 (ready 7) passes_over refl refl

-- A dispatch of slot 1 that a timer interrupt ends after 3 ticks.
abbrev preempted : Slice
preempted = record {
  tempo_inicio = 10;
  tempo_final = 13;
  runs = λ ps. set ps 1 (record (at ps 1) { state = runnable });
}

preempted_ready : KeepsReady 1 preempted
preempted_ready ps l = (
  rw (get_or-set_self ps 1 (record (at ps 1) { state = runnable }) zero_proc l) refl,
  length-set ps 1 _,
)

preempted_time : KeepsTime 1 preempted
preempted_time ps l = (
  rw (get_or-set_self ps 1 (record (at ps 1) { state = runnable }) zero_proc l) refl,
  length-set ps 1 _,
)

abbrev slices : List Slice
slices = preempted ∷ preempted ∷ []

round-KeepsReady_example : round slices three ≡ (dispatch_all 1 slices three, [])
round-KeepsReady_example =
    round-KeepsReady 1 slices three (omega arith) picks_io refl
      (preempted_ready, (preempted_ready, tt))

run_loop-tempo_total_example :
    ((at (run_loop slices 1 three).0 1).tempo_total + total_elapsed (run_loop slices 1 three).1)
      % 4294967296
    ≡ ((at three 1).tempo_total + total_elapsed slices) % 4294967296
run_loop-tempo_total_example =
    run_loop-tempo_total 1 slices three (omega arith) (preempted_time, (preempted_time, tt))

six_ticks : (at (round slices three).0 1).tempo_total ≡ 6
unfolding round
six_ticks = refl
