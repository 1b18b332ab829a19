-- ===== src/Proc/Pids.antt =====
-- What holds of the process table between two calls of kernel/proc.c: a free slot holds nothing, and
-- the pids of the others are positive, below `nextpid` and all different.
pub mod Boot
pub mod Alloc
pub mod Keep
pub mod Exit
use mc.Prelude.{
  ℕ, zero, suc, ◌+◌, ◌^◌, ◌≤◌, ◌<◌, ◌≡◌, refl, ◌≢◌, ◌⊎◌, inl, inr, List, [], ◌∷◌, Option, none,
  some, arith, get_elem?, set, get_or, length, All, All-map, All-set, All-get, All-get_or,
  get_elem?-set, get_elem?-get_or, length-set,
}
use mc.Proc.State.{
  ProcState, unused, used, sleeping, runnable, running, zombie, Proc, Kernel, slot, put, call, Call,
  zero_proc,
}

-- A slot by its state.
abbrev pub StateOk : ProcState → ℕ → Proc → Type 0
StateOk unused n p =
    (p.pid ≡ 0) × (p.parent ≡ none) × (p.trapframe ≡ 0) × (p.pagetable ≡ 0) × (p.sz ≡ 0)
StateOk _ n p = (0 < p.pid) × (p.pid < n)

abbrev pub SlotOk : ℕ → Proc → Type 0
SlotOk n p = StateOk p.state n p

abbrev pub PidsDiffer : List Proc → Type 0
PidsDiffer ps =
    (i j : ℕ) (p q : Proc)
    → get_elem? ps i ≡ some p
    → get_elem? ps j ≡ some q
    → p.pid ≡ q.pid
    → p.pid ≢ 0
    → i ≡ j

pub record IsValid (k : Kernel) : Type 0 where
  pub slots : All (SlotOk k.nextpid) k.procs
  pub differ : PidsDiffer k.procs
  pub next_pos : 0 < k.nextpid

StateOk-mono : (s : ProcState) (m n : ℕ) (p : Proc) → m ≤ n → StateOk s m p → StateOk s n p
StateOk-mono unused m n p h o = o
StateOk-mono used m n p h o = omega arith
StateOk-mono sleeping m n p h o = omega arith
StateOk-mono runnable m n p h o = omega arith
StateOk-mono running m n p h o = omega arith
StateOk-mono zombie m n p h o = omega arith

pub SlotOk-mono : (m n : ℕ) (p : Proc) → m ≤ n → SlotOk m p → SlotOk n p
SlotOk-mono m n p h o = StateOk-mono p.state m n p h o

set-PidsDiffer :
    (ps : List Proc) (i : ℕ) (q : Proc)
    → PidsDiffer ps
    → ((j : ℕ) (r : Proc) → get_elem? ps j ≡ some r → r.pid ≡ q.pid → q.pid ≢ 0 → i ≡ j)
    → PidsDiffer (set ps i q)
set-PidsDiffer ps i q d fresh a b p r pa rb same pos =
    go (get_elem?-set ps i a q p pa) (get_elem?-set ps i b q r rb)
  where
    go :
        ((i ≡ a) × (p ≡ q)) ⊎ ((i ≢ a) × (get_elem? ps a ≡ some p))
        → ((i ≡ b) × (r ≡ q)) ⊎ ((i ≢ b) × (get_elem? ps b ≡ some r))
        → a ≡ b
    go (inl x) (inl y) = omega arith
    go (inl x) (inr y) = omega (arith, fresh b r y.1 (ground arith) (ground arith))
    go (inr x) (inl y) = omega (arith, fresh a p x.1 (ground arith) (ground arith))
    go (inr x) (inr y) = d a b p r x.1 y.1 same pos

-- A write to slot `i`, under a `nextpid` that may have grown: the new pid is 0 or no other slot's.
pub set-IsValid :
    (k k' : Kernel) (i : ℕ) (q : Proc)
    → IsValid k
    → k'.procs ≡ set k.procs i q
    → k.nextpid ≤ k'.nextpid
    → SlotOk k'.nextpid q
    → ((j : ℕ) (r : Proc) → get_elem? k.procs j ≡ some r → r.pid ≡ q.pid → q.pid ≢ 0 → i ≡ j)
    → IsValid k'
set-IsValid k k' i q v e h o fresh = record {
  slots = rw e (
      All-set (SlotOk k'.nextpid) k.procs i q
        (All-map (SlotOk k.nextpid) (SlotOk k'.nextpid) k.procs
          (λ p s. SlotOk-mono k.nextpid k'.nextpid p h s) v.slots)
        o);
  differ = rw e (set-PidsDiffer k.procs i q v.differ fresh);
  next_pos = omega (arith, v.next_pos);
}
