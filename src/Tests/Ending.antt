-- ===== src/Tests/Ending.antt =====
-- exit at a table of three processes: the one that exits, init, which sleeps in wait, and a child.
use mc.Prelude.{ℕ, ◌≡◌, refl, List, [], ◌∷◌, Option, none, some}
use mc.Proc.State.{
  running, sleeping, zombie, runnable, on_proc, Proc, Kernel, Trapframe, zero_proc, slot,
}
use mc.Proc.Table.{reparent, wakeup}
use mc.Proc.Lifecycle.{exit, exit_last, exit_family, exit_close}

abbrev family : List Proc
family =
    record zero_proc { state = running; pid = 2; parent = some 1; ofile = 8 ∷ 0 ∷ []; cwd = 9 }
    ∷ record zero_proc { state = sleeping; pid = 1; chan = on_proc 1 }
    ∷ record zero_proc { state = zombie; pid = 3; parent = some 0 }
    ∷ []

abbrev frame : Trapframe
frame = record { epc = 0; sp = 0; a0 = 0; regs = [] }

abbrev leaving : Kernel
leaving = record {
  procs = family;
  nextpid = 4;
  initproc = 1;
  frames = λ _. frame;
  forkret = 4096;
  calls = [];
}

abbrev pid_of : Option Proc → ℕ
pid_of none = 0
pid_of (some p) = p.pid

exited : Kernel
unfolding exit
exited = exit_last 0 7 (exit_family 0 (exit_close 0 leaving))

wakes_init :
    ((slot exited 1).state ≡ runnable)
    × ((slot exited 0).state ≡ zombie)
    × ((slot exited 2).parent ≡ some 1)
unfolding exit exited reparent wakeup
wakes_init = (refl, refl, refl)
