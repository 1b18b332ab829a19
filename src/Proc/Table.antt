-- ===== src/Proc/Table.antt =====
-- kernel/proc.c: allocpid, allocproc, freeproc, and the walks over the table that wake, kill and
-- reparent. A critical section under a process's lock is one step of the model.
use mc.Prelude.{
  ℕ, zero, suc, ◌+◌, List, [], ◌∷◌, ◌++◌, Bool, not, ◌&&◌, Option, none, some, if◌then◌else◌, ◌==◌,
  add32, set, find_index, minus_one, length,
}
use mc.Proc.State.{
  unused, used, sleeping, runnable, Chan, no_chan, on_proc, Proc, Context, Call, kfree,
  proc_freepagetable, Kernel, slot, put, call, is_state, same_chan, points_to, default_type, pgsize,
}

-- allocpid: the pid handed out, and the kernel with the next one.
unfoldable pub allocpid : Kernel → ℕ × Kernel
allocpid k = (k.nextpid, record k { nextpid = add32 k.nextpid 1 })

abbrev pub zero_context : Context
zero_context = record { ra = 0; sp = 0; regs = 0 ∷ 0 ∷ 0 ∷ 0 ∷ 0 ∷ 0 ∷ 0 ∷ 0 ∷ 0 ∷ 0 ∷ 0 ∷ 0 ∷ [] }

-- The slot that freeproc leaves. Its kernel stack, context, files, directory, counters and type stay.
abbrev pub cleared : Proc → Proc
cleared p = record p {
  trapframe = 0;
  pagetable = 0;
  sz = 0;
  pid = 0;
  parent = none;
  name = set p.name 0 0;
  chan = no_chan;
  killed = 0;
  xstate = 0;
  state = unused;
}

-- What freeproc gives back: the trapframe page, and the page table with the user's pages.
abbrev pub released : Proc → List Call
released p =
    (if p.trapframe == 0 then [] else kfree p.trapframe ∷ [])
    ++ (if p.pagetable == 0 then [] else proc_freepagetable p.pagetable p.sz ∷ [])

unfoldable pub freeproc : ℕ → Kernel → Kernel
freeproc i k = put (call k (released (slot k i))) i (cleared (slot k i))

-- The loop of allocproc over the table.
abbrev pub is_unused : Proc → Bool
is_unused p = is_state p.state unused

abbrev pub started : Proc → ℕ → Proc
started p pid = record p {
  pid = pid;
  state = used;
  tempo_total = 0;
  overhead = 0;
  eficiencia = 0;
  type = default_type;
}

-- `frame` and `table` are what kalloc and proc_pagetable return, 0 if they fail.
unfoldable pub allocproc_at : ℕ → ℕ → ℕ → Kernel → Kernel × Option ℕ
unfolding allocpid freeproc
allocproc_at i frame table k =
    let (pid, k1) = allocpid k in
    let p : Proc = started (slot k i) pid in
    if frame == 0
    then (freeproc i (put k1 i (record p { trapframe = 0 })), none)
    else if table == 0
    then (freeproc i (put k1 i (record p { trapframe = frame; pagetable = 0 })), none)
    else (
      put k1 i (record p {
        trapframe = frame;
        pagetable = table;
        context = record zero_context { ra = k.forkret; sp = p.kstack + pgsize };
      }),
      some i,
    )

unfoldable pub allocproc : ℕ → ℕ → Kernel → Kernel × Option ℕ
unfolding allocproc_at
allocproc frame table k = elim (find_index is_unused k.procs) [
  | none ↦ (k, none)
  | some i ↦ allocproc_at i frame table k
]

-- wakeup: `me` is the slot of the process that runs, if there is one; `i` counts the slots.
abbrev pub woken : Chan → Proc → Proc
woken c p =
    if is_state p.state sleeping && same_chan p.chan c then record p { state = runnable } else p

unfoldable pub wakeup_from : ℕ → Option ℕ → Chan → List Proc → List Proc
wakeup_from i me c [] = []
wakeup_from i me c (p ∷ ps) =
    (if points_to me i then p else woken c p) ∷ wakeup_from (suc i) me c ps

unfoldable pub wakeup : Option ℕ → Chan → Kernel → Kernel
unfolding wakeup_from
wakeup me c k = record k { procs = wakeup_from 0 me c k.procs }

-- kill: 0 or -1, and the table.
abbrev pub struck : Proc → Proc
struck p =
    if is_state p.state sleeping
    then record p { killed = 1; state = runnable }
    else record p { killed = 1 }

unfoldable pub kill : ℕ → Kernel → Kernel × ℕ
kill pid k = elim (find_index (λ p. p.pid == pid) k.procs) [
  | none ↦ (k, minus_one)
  | some i ↦ (put k i (struck (slot k i)), 0)
]

unfoldable pub setkilled : ℕ → Kernel → Kernel
setkilled i k = put k i (record (slot k i) { killed = 1 })

unfoldable pub killed : ℕ → Kernel → Bool
killed i k = not ((slot k i).killed == 0)

-- reparent: each child of slot `i` goes to init, which is woken for it.
abbrev pub reparent_one : ℕ → Option ℕ → ℕ → Kernel → Kernel
reparent_one j me i k =
    if points_to (slot k j).parent i
    then wakeup me (on_proc k.initproc) (put k j (record (slot k j) { parent = some k.initproc }))
    else k

-- the slots from `j` on, `left` of them
unfoldable pub reparent_from : ℕ → ℕ → Option ℕ → ℕ → Kernel → Kernel
reparent_from zero j me i k = k
reparent_from (suc left) j me i k = reparent_from left (j + 1) me i (reparent_one j me i k)

unfoldable pub reparent : Option ℕ → ℕ → Kernel → Kernel
unfolding reparent_from
reparent me i k = reparent_from (length k.procs) 0 me i k
