-- ===== src/Proc/Ending.antt =====
-- exit in kernel/proc.c: the process, its children, its parent and init.
use mc.Prelude.{ℕ, ◌<◌, ◌≡◌, ◌≢◌, ◌++◌, some, length, map, true, false}
use mc.Proc.State.{runnable, zombie, Proc, Kernel, slot, points_to}
use mc.Proc.Table.{reparent}
use mc.Proc.Lifecycle.{exit_close, exit_family, exit_last, exit_calls}
use mc.Proc.Pids.{IsValid}
use mc.Proc.Rousing.{IsRoused, Awaits}

-- What exit leaves of the table: the process itself, its children, its parent, and the others.
pub record IsExited (me status : ℕ) (k k' : Kernel) : Type 0 where
  pub valid : IsValid k'
  pub same_length : length k'.procs ≡ length k.procs
  pub is_zombie : (slot k' me).state ≡ zombie
  pub keeps_status : (slot k' me).xstate ≡ status
  pub keeps_pid : (slot k' me).pid ≡ (slot k me).pid
  pub closes_files : (slot k' me).ofile ≡ map (λ _. 0) (slot k me).ofile
  pub leaves_cwd : (slot k' me).cwd ≡ 0
  pub calls : k'.calls ≡ k.calls ++ exit_calls (slot k me)
  pub orphans :
      (x : ℕ)
      → x < length k.procs
      → points_to (slot k x).parent me ≡ true
      → (slot k' x).parent ≡ some k.initproc
  pub families :
      (x : ℕ) → points_to (slot k x).parent me ≡ false → (slot k' x).parent ≡ (slot k x).parent
  -- init and the parent, where they sleep in wait
  pub init_wakes :
      (x : ℕ)
      → x < length k.procs
      → points_to (slot k x).parent me ≡ true
      → Awaits k.initproc (slot k k.initproc)
      → (slot k' k.initproc).state ≡ runnable
  pub parent_wakes :
      (i : ℕ)
      → (slot k me).parent ≡ some i
      → i ≢ me
      → Awaits i (slot k i)
      → (slot k' i).state ≡ runnable
  pub others : (x : ℕ) → x ≢ me → IsRoused (slot k x) (slot k' x)

-- exit by a process other than init, within a valid table.
module _ (me status : ℕ) (k : Kernel) (within : me < length k.procs) (ne : me ≢ k.initproc) where
  closed : Kernel
  closed = exit_close me k

  adoptive : Kernel
  adoptive = reparent (some me) me closed

  family : Kernel
  family = exit_family me closed

  last : Kernel
  last = exit_last me status family
