-- ===== src/Proc/State.antt =====
-- kernel/proc.h and kernel/proc.c: a process, the process table and what else proc.c keeps.
-- A pointer to a `struct proc` is the index of its slot; any other pointer is an address, 0 for null.
use mc.Prelude.{ℕ, List, ◌++◌, Bool, true, false, Option, none, some, ◌==◌}
use mc.Prelude.{get_or, set, replicate}

pub data ProcState : Type 0 where
  unused used sleeping runnable running zombie : ProcState

-- `void *chan`: a sleeping process waits on nothing, on a slot of the table, or on another object.
pub data Chan : Type 0 where
  no_chan : Chan
  on_proc : ℕ → Chan
  on_addr : ℕ → Chan

-- The registers that swtch saves; `regs` are s0 to s11.
pub record Context : Type 0 where
  pub ra : ℕ
  pub sp : ℕ
  pub regs : List ℕ

-- A trapframe page; `regs` are the registers that are only copied.
pub record Trapframe : Type 0 where
  pub epc : ℕ
  pub sp : ℕ
  pub a0 : ℕ
  pub regs : List ℕ

pub record Proc : Type 0 where
  pub state : ProcState
  pub chan : Chan
  pub killed : ℕ
  pub xstate : ℕ
  pub pid : ℕ
  pub parent : Option ℕ
  pub kstack : ℕ
  pub sz : ℕ
  pub pagetable : ℕ
  pub trapframe : ℕ
  pub context : Context
  pub ofile : List ℕ
  pub cwd : ℕ
  pub name : List ℕ
  pub tempo_total : ℕ
  pub overhead : ℕ
  pub eficiencia : ℕ
  pub type : ℕ

-- kernel/fcntl.h: the process types
abbrev pub default_type : ℕ
default_type = 1

abbrev pub cpu_bound : ℕ
cpu_bound = 2

abbrev pub io_bound : ℕ
io_bound = 3

abbrev pub pgsize : ℕ
pgsize = 4096

abbrev pub nproc : ℕ
nproc = 256

abbrev pub is_state : ProcState → ProcState → Bool
is_state unused unused = true
is_state used used = true
is_state sleeping sleeping = true
is_state runnable runnable = true
is_state running running = true
is_state zombie zombie = true
is_state _ _ = false

abbrev pub same_chan : Chan → Chan → Bool
same_chan no_chan no_chan = true
same_chan (on_proc i) (on_proc j) = i == j
same_chan (on_addr a) (on_addr b) = a == b
same_chan _ _ = false

-- `p == q` between two pointers to slots, the first of which may be null
abbrev pub points_to : Option ℕ → ℕ → Bool
points_to none i = false
points_to (some j) i = j == i

-- The calls that proc.c makes into the other components, in the order in which it makes them.
pub data Call : Type 0 where
  kfree : ℕ → Call
  proc_freepagetable : ℕ → ℕ → Call
  filedup : ℕ → Call
  fileclose : ℕ → Call
  idup : ℕ → Call
  iput : ℕ → Call
  begin_op : Call
  end_op : Call

pub record Kernel : Type 0 where
  pub procs : List Proc
  pub nextpid : ℕ
  pub initproc : ℕ
  pub frames : ℕ → Trapframe  -- the trapframe pages, by address
  pub forkret : ℕ  -- the address of `forkret`
  pub calls : List Call

-- A slot of the table as the loader leaves it: all zero.
abbrev pub zero_proc : Proc
zero_proc = record {
  state = unused;
  chan = no_chan;
  killed = 0;
  xstate = 0;
  pid = 0;
  parent = none;
  kstack = 0;
  sz = 0;
  pagetable = 0;
  trapframe = 0;
  context = record { ra = 0; sp = 0; regs = replicate 12 0 };
  ofile = replicate 16 0;
  cwd = 0;
  name = replicate 16 0;
  tempo_total = 0;
  overhead = 0;
  eficiencia = 0;
  type = 0;
}

-- The slot that a pointer names. Every pointer of proc.c is within the table.
abbrev pub slot : Kernel → ℕ → Proc
slot k i = get_or k.procs i zero_proc

abbrev pub put : Kernel → ℕ → Proc → Kernel
put k i p = record k { procs = set k.procs i p }

abbrev pub call : Kernel → List Call → Kernel
call k cs = record k { calls = k.calls ++ cs }
