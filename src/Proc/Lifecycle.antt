-- ===== src/Proc/Lifecycle.antt =====
-- kernel/proc.c: procinit, userinit, fork, exit, wait, sleep, yield. What other parts of the kernel
-- answer is an argument: the page from kalloc, the table from proc_pagetable (0 if they fail), the
-- outcome of uvmcopy, of copyout and the inode from namei.
use mc.Prelude.{
  ℕ, suc, ◌+◌, ◌-◌, ◌*◌, ◌^◌, List, [], ◌∷◌, ◌++◌, Bool, false, not, ◌&&◌, ◌||◌, Option, none, some,
  if◌then◌else◌, ◌==◌, minus_one, update, map,
}
use mc.Str.{safestrcpy}
use mc.Proc.State.{
  unused, sleeping, runnable, zombie, Chan, no_chan, on_proc, Proc, Trapframe, Call, filedup,
  fileclose, idup, iput, begin_op, end_op, Kernel, slot, put, call, is_state, points_to, pgsize,
}
use mc.Proc.Table.{allocproc, freeproc, wakeup, reparent, killed}

-- kernel/memlayout.h
abbrev pub trampoline : ℕ
trampoline = 2 ^ 38 - pgsize

abbrev pub kstack_addr : ℕ → ℕ
kstack_addr i = trampoline - (i + 1) * 2 * pgsize

-- procinit: the slots from `i` on
unfoldable pub procinit_from : ℕ → List Proc → List Proc
procinit_from i [] = []
procinit_from i (p ∷ ps) =
    record p { state = unused; kstack = kstack_addr i } ∷ procinit_from (suc i) ps

unfoldable pub procinit : Kernel → Kernel
unfolding procinit_from
procinit k = record k { procs = procinit_from 0 k.procs }

-- "initcode", with its 0
abbrev pub initcode_name : List ℕ
initcode_name = b'i' ∷ b'n' ∷ b'i' ∷ b't' ∷ b'c' ∷ b'o' ∷ b'd' ∷ b'e' ∷ 0 ∷ []

-- userinit; with no slot the C code would go through a null pointer, here `none`.
unfoldable pub boot : ℕ → ℕ → Kernel → Kernel
boot cwd i k =
    let p : Proc = slot k i in
    let f : Trapframe = record (k.frames p.trapframe) { epc = 0; sp = pgsize } in
    let k1 : Kernel = record k { initproc = i; frames = update k.frames p.trapframe f } in
    put k1 i (record p {
      sz = pgsize;
      name = safestrcpy 16 p.name initcode_name;
      cwd = cwd;
      state = runnable;
    })

unfoldable pub boot_result : ℕ → Kernel × Option ℕ → Option Kernel
boot_result cwd (k, none) = none
boot_result cwd (k, some i) = some (boot cwd i k)

pub userinit : (frame table cwd : ℕ) → Kernel → Option Kernel
unfolding boot boot_result
userinit frame table cwd k = boot_result cwd (allocproc frame table k)

-- The child's files: each open one of the parent is taken over, with a call of filedup.
abbrev pub dup_files : List ℕ → List ℕ → List ℕ
dup_files [] np = np
dup_files (f ∷ fs) [] = []
dup_files (f ∷ fs) (g ∷ np) = (if f == 0 then g else f) ∷ dup_files fs np

abbrev pub open_files : List ℕ → List ℕ
open_files [] = []
open_files (f ∷ fs) = if f == 0 then open_files fs else f ∷ open_files fs

-- fork once the child has slot `j`: what it takes from the parent in slot `me`.
unfoldable pub fork_child : ℕ → ℕ → Kernel → Kernel × ℕ
fork_child me j k =
    let p : Proc = slot k me in
    let np : Proc = slot k j in
    let f : Trapframe = record (k.frames p.trapframe) { a0 = 0 } in
    let k1 : Kernel = record k { frames = update k.frames np.trapframe f } in
    let k2 : Kernel = call k1 (map filedup (open_files p.ofile) ++ (idup p.cwd ∷ [])) in
    (
      put k2 j (record np {
        sz = p.sz;
        ofile = dup_files p.ofile np.ofile;
        cwd = p.cwd;
        name = safestrcpy 16 np.name p.name;
        parent = some me;
        state = runnable;
      }),
      np.pid,
    )

unfoldable pub fork_result : ℕ → Bool → Kernel × Option ℕ → Kernel × ℕ
unfolding fork_child
fork_result me copied (k, none) = (k, minus_one)
fork_result me copied (k, some j) = if copied then fork_child me j k else (freeproc j k, minus_one)

-- fork by the process in slot `me`: the pid of the child, or -1.
unfoldable pub fork : (me frame table : ℕ) (copied : Bool) → Kernel → Kernel × ℕ
unfolding fork_result
fork me frame table copied k = fork_result me copied (allocproc frame table k)

-- The part of exit before the process gives up the CPU; `none` is the panic of init exiting.
abbrev pub exit_calls : Proc → List Call
exit_calls p = map fileclose (open_files p.ofile) ++ (begin_op ∷ iput p.cwd ∷ end_op ∷ [])

abbrev pub files_closed : Proc → Proc
files_closed p = record p { ofile = map (λ _. 0) p.ofile; cwd = 0 }

abbrev pub wake_parent : ℕ → Option ℕ → Kernel → Kernel
wake_parent me none k = wakeup (some me) no_chan k
wake_parent me (some i) k = wakeup (some me) (on_proc i) k

-- close the files and give up the directory
unfoldable pub exit_close : ℕ → Kernel → Kernel
exit_close me k = put (call k (exit_calls (slot k me))) me (files_closed (slot k me))

-- give the children to init, and wake the parent
unfoldable pub exit_family : ℕ → Kernel → Kernel
exit_family me k =
    let k2 : Kernel = reparent (some me) me k in wake_parent me (slot k2 me).parent k2

unfoldable pub exit_last : ℕ → ℕ → Kernel → Kernel
exit_last me status k = put k me (record (slot k me) { xstate = status; state = zombie })

unfoldable pub exit : (me status : ℕ) → Kernel → Option Kernel
unfolding exit_close exit_family exit_last
exit me status k =
    if me == k.initproc then none else some (exit_last me status (exit_family me (exit_close me k)))

-- One pass of wait over the table.
pub data WaitStep : Type 0 where
  reap : ℕ → WaitStep  -- a zombie child, in this slot
  kids : Bool → WaitStep  -- no zombie; are there children at all?

unfoldable pub scan_children : ℕ → ℕ → Bool → List Proc → WaitStep
scan_children me i havekids [] = kids havekids
scan_children me i havekids (p ∷ ps) =
    let next = scan_children me (suc i) (points_to p.parent me || havekids) ps in
    if points_to p.parent me && is_state p.state zombie then reap i else next

pub data WaitResult : Type 0 where
  returns : ℕ → WaitResult
  sleeps : WaitResult  -- on the waiting process itself, then the next pass

-- `addr` is where the status goes, 0 for nowhere; `copied` says whether copyout succeeds.
unfoldable pub wait_result : (me addr : ℕ) (copied : Bool) → WaitStep → Kernel → Kernel × WaitResult
wait_result me addr copied (reap i) k =
    if not (addr == 0) && not copied
    then (k, returns minus_one)
    else (freeproc i k, returns (slot k i).pid)
wait_result me addr copied (kids havekids) k =
    if not havekids || killed me k then (k, returns minus_one) else (k, sleeps)

unfoldable pub wait_pass : (me addr : ℕ) (copied : Bool) → Kernel → Kernel × WaitResult
unfolding wait_result
wait_pass me addr copied k = wait_result me addr copied (scan_children me 0 false k.procs) k

-- sleep up to `sched`, and from its return on
unfoldable pub sleep_enter : ℕ → Chan → Kernel → Kernel
sleep_enter me c k = put k me (record (slot k me) { chan = c; state = sleeping })

unfoldable pub sleep_leave : ℕ → Kernel → Kernel
sleep_leave me k = put k me (record (slot k me) { chan = no_chan })

-- yield up to `sched`
unfoldable pub yield_cpu : ℕ → Kernel → Kernel
yield_cpu me k = put k me (record (slot k me) { state = runnable })
