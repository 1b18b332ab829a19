-- ===== src/Tests/Proc.antt =====
-- The process table at concrete kernels.
use mc.Prelude.{
  ℕ, ◌+◌, ◌%◌, ◌<◌, ◌≡◌, refl, ◌≢◌, ◌⊎◌, List, [], ◌∷◌, true, false, none, some, arith, replicate,
  get_or, length, minus_one, find_index, NonePasses, inr,
}
use mc.Proc.State.{Call, unused, runnable, Kernel, Trapframe, zero_proc, slot}
use mc.Proc.Table.{allocproc, kill, is_unused}
use mc.Proc.Lifecycle.{procinit, fork, wait_pass}
use mc.Proc.Pids.{IsValid}
use mc.Proc.Pids.Boot.{IsZero, procinit-IsValid}
use mc.Proc.Pids.Alloc.{allocproc-IsValid, allocproc_takes, IsAllocated}
use mc.Proc.Pids.Exit.{wait_pass-IsValid}
use mc.Proc.Fork.{fork_lem, fork_fails, IsForked, IsSame}
use mc.Proc.Metrics.{
  Metrics, sys_tempo_total, sys_initialize_metrics, has_pid, mode_overhead, mode_eficiencia,
}
use mc.Proc.Metrics.Counters.{Bump, run_bumps, added, IsSized, run_bumps-added, run_bumps_fresh}
use mc.Proc.Metrics.Pid.{IsKilled, kill_lem, sys_tempo_total_lem, allocproc-kill_zero}

abbrev blank_frame : Trapframe
blank_frame = record { epc = 0; sp = 0; a0 = 0; regs = [] }

abbrev loaded : Kernel
loaded = record {
  procs = zero_proc ∷ zero_proc ∷ [];
  nextpid = 1;
  initproc = 0;
  frames = λ _. blank_frame;
  forkret = 4096;
  calls = [];
}

abbrev booted : Kernel
booted = procinit loaded

IsZero-slot : IsZero zero_proc
IsZero-slot = (refl, refl, refl, refl, refl)

booted-IsValid : IsValid booted
booted-IsValid = procinit-IsValid loaded (IsZero-slot, (IsZero-slot, tt)) (omega arith)

-- one process, with pid 1, in slot 0
abbrev one : Kernel
one = (allocproc 8192 12288 booted).0

one-IsValid : IsValid one
unfolding procinit
one-IsValid = allocproc-IsValid 8192 12288 booted booted-IsValid (omega arith)

allocproc-IsValid_example : IsValid (allocproc 8192 12288 booted).0
unfolding procinit
allocproc-IsValid_example = allocproc-IsValid 8192 12288 booted booted-IsValid (omega arith)

allocproc_takes_example :
    ((allocproc 8192 12288 booted ≡ (booted, none)) × NonePasses is_unused booted.procs)
    ⊎ ((i : ℕ) × ((allocproc 8192 12288 booted).1 ≡ some i)
        × IsAllocated 8192 12288 booted (allocproc 8192 12288 booted).0 i)
unfolding procinit
allocproc_takes_example =
    allocproc_takes 8192 12288 booted (omega arith) (omega arith) (omega arith)

-- A failed allocproc gives its page back.
allocproc_gives_back : (allocproc 8192 0 booted).0.calls ≡ Call.kfree 8192 ∷ []
unfolding allocproc procinit
allocproc_gives_back = refl

one_live : (slot one 0).state ≢ unused
unfolding allocproc procinit
one_live e = cc

one_next : one.nextpid ≡ 2
unfolding allocproc procinit
one_next = refl

one_pid : (slot one 0).pid ≡ 1
unfolding allocproc procinit
one_pid = refl

one_length : length one.procs ≡ 2
unfolding allocproc procinit
one_length = refl

fork_lem_example :
    ((fork 0 16384 20480 true one ≡ (one, minus_one)) × NonePasses is_unused one.procs)
    ⊎ (((fork 0 16384 20480 true one).1 ≡ one.nextpid)
        × (j : ℕ) × IsForked 0 16384 one (fork 0 16384 20480 true one).0 j)
fork_lem_example =
    fork_lem 0 16384 20480 one one_live (omega arith) (omega arith) (omega (arith, one_next))

fork_fails_example :
    ((fork 0 16384 20480 false one).1 ≡ minus_one)
    × IsSame 0 16384 20480 one (fork 0 16384 20480 false one).0
fork_fails_example =
    fork_fails 0 16384 20480 one false one-IsValid (omega (arith, one_next)) (inr refl)

-- two processes; the second one is the child of the first
abbrev two : Kernel
two = (fork 0 16384 20480 true one).0

two_states :
    ((slot two 1).state ≡ runnable) × ((slot two 1).parent ≡ some 0) × ((slot two 1).pid ≡ 2)
unfolding fork allocproc procinit
two_states = (refl, refl, refl)

wait_pass-IsValid_example : IsValid (wait_pass 0 0 true one).0
wait_pass-IsValid_example = wait_pass-IsValid 0 0 true one one-IsValid

kill_lem_example :
    ((kill (slot one 0).pid one).1 ≡ 0) × IsKilled one (kill (slot one 0).pid one).0 0
kill_lem_example = kill_lem one 0 one-IsValid (omega (arith, one_length)) (omega (arith, one_pid))

sys_tempo_total_lem_example :
    (sys_tempo_total (slot one 0).pid one ≡ (slot one 0).tempo_total)
    × ((pid : ℕ) → NonePasses (has_pid pid) one.procs → sys_tempo_total pid one ≡ minus_one)
sys_tempo_total_lem_example =
    sys_tempo_total_lem one 0 one-IsValid (omega (arith, one_length)) (omega (arith, one_pid))
      (omega (arith, one_pid))

abbrev blank_metrics : Metrics
blank_metrics = record {
  overheads = replicate 20 5;
  eficiencias = replicate 20 0;
  justicas = replicate 20 0;
}

booted_free : find_index is_unused booted.procs ≡ some 0
unfolding procinit
booted_free = refl

allocproc-kill_zero_example :
    ((kill 0 booted).1 ≡ 0)
    × ((allocproc 8192 12288 (kill 0 booted).0).1 ≡ some 0)
    × ((slot (allocproc 8192 12288 (kill 0 booted).0).0 0).killed ≡ 1)
unfolding procinit
allocproc-kill_zero_example =
    allocproc-kill_zero booted 0 8192 12288 booted-IsValid booted_free (omega arith) (omega arith)
      (omega arith)

abbrev blank_sized : IsSized blank_metrics
blank_sized = record { overheads_size = refl; eficiencias_size = refl; justicas_size = refl }

abbrev two_bumps : List Bump
two_bumps =
    record { index = 3; amount = 7; mode = mode_overhead }
    ∷ record { index = 3; amount = 4; mode = mode_overhead }
    ∷ []

run_bumps-added_example :
    (m' : Metrics) × (run_bumps two_bumps blank_metrics ≡ some m')
    × IsSized m'
    × ((i : ℕ)
        → get_or m'.overheads i 0 % 4294967296
          ≡ (get_or blank_metrics.overheads i 0 + added two_bumps mode_overhead i) % 4294967296)
    × ((i : ℕ)
        → get_or m'.eficiencias i 0 % 4294967296
          ≡ (get_or blank_metrics.eficiencias i 0 + added two_bumps mode_eficiencia i) % 4294967296)
    × (m'.justicas ≡ blank_metrics.justicas)
run_bumps-added_example =
    run_bumps-added two_bumps blank_metrics blank_sized (omega arith, (omega arith, tt))

run_bumps_fresh_example :
    (m' : Metrics) × (run_bumps two_bumps (sys_initialize_metrics blank_metrics) ≡ some m')
    × ((i : ℕ)
        → i < 20
        → get_or m'.overheads i 0 % 4294967296 ≡ added two_bumps mode_overhead i % 4294967296)
    × ((i : ℕ)
        → i < 20
        → get_or m'.eficiencias i 0 % 4294967296 ≡ added two_bumps mode_eficiencia i % 4294967296)
    × ((i : ℕ) → i < 20 → get_or m'.justicas i 0 ≡ 0)
run_bumps_fresh_example =
    run_bumps_fresh two_bumps blank_metrics blank_sized (omega arith, (omega arith, tt))

two_bumps-added : added two_bumps mode_overhead 3 ≡ 11
unfolding added
two_bumps-added = refl
