-- ===== src/Spinlock.antt =====
-- kernel/spinlock.c: the spin locks, and the nesting of the sections without interrupts. A CPU is its
-- number; what the other CPUs do between two steps is not part of a step. A panic is `none`.
pub mod Nesting
use mc.Prelude.{
  ℕ, ◌+◌, ◌-◌, Bool, true, false, not, ◌&&◌, Option, none, some, if◌then◌else◌, ◌==◌, ltb, add32,
  is_neg, ◌||◌,
}

-- the fields of `struct cpu` that the locks use, and whether its interrupts are on
pub record Cpu : Type 0 where
  pub intr : Bool
  pub noff : ℕ
  pub intena : Bool

pub record Spinlock : Type 0 where
  pub locked : ℕ
  pub cpu : Option ℕ

abbrev pub initlock : Spinlock
initlock = record { locked = 0; cpu = none }

abbrev is_cpu : ℕ → Option ℕ → Bool
is_cpu me none = false
is_cpu me (some c) = c == me

unfoldable pub holding : (me : ℕ) → Spinlock → Bool
holding me lk = not (lk.locked == 0) && is_cpu me lk.cpu

unfoldable pub push_off : Cpu → Cpu
push_off c = record {
  intr = false;
  noff = add32 c.noff 1;
  intena = if c.noff == 0 then c.intr else c.intena;
}

unfoldable pub pop_off : Cpu → Option Cpu
pop_off c =
    if c.intr
    then none
    else if is_neg c.noff || ltb c.noff 1
    then none
    else some (record c { noff = c.noff - 1; intr = c.noff == 1 && c.intena })

-- What acquire comes to: it spins while another CPU holds the lock, it panics, or it has the lock.
pub data Acquired : Type 0 where
  spins : Cpu → Acquired
  panics : Acquired
  has_lock : Cpu → Spinlock → Acquired

unfoldable pub acquire : (me : ℕ) → Cpu → Spinlock → Acquired
unfolding push_off holding
acquire me c lk =
    if holding me lk
    then panics
    else if lk.locked == 0
    then has_lock (push_off c) (record { locked = 1; cpu = some me })
    else spins (push_off c)

unfoldable pub release : (me : ℕ) → Cpu → Spinlock → Option (Cpu × Spinlock)
unfolding pop_off holding
release me c lk =
    if holding me lk
    then (elim (pop_off c) [ none ↦ none | some c1 ↦ some (c1, record { locked = 0; cpu = none }) ])
    else none
