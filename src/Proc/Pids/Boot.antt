-- ===== src/Proc/Pids/Boot.antt =====
-- The process table that procinit of kernel/proc.c leaves.
use mc.Prelude.{ℕ, suc, ◌<◌, ◌≡◌, List, [], ◌∷◌, none, All, All-get}
use mc.Proc.State.{Proc, Kernel}
use mc.Proc.Lifecycle.{procinit, procinit_from}
use mc.Proc.Pids.{SlotOk, IsValid}

-- A slot that the loader has set to zero.
abbrev pub IsZero : Proc → Type 0
IsZero p = (p.pid ≡ 0) × (p.parent ≡ none) × (p.trapframe ≡ 0) × (p.pagetable ≡ 0) × (p.sz ≡ 0)

procinit_from-free :
    (n i : ℕ) (ps : List Proc)
    → All IsZero ps
    → All (λ p. SlotOk n p × (p.pid ≡ 0)) (procinit_from i ps)
unfolding procinit_from
procinit_from-free n i [] h = tt
procinit_from-free n i (p ∷ ps) h = ((h.0, h.0.0), procinit_from-free n (suc i) ps h.1)

slots_of : (n : ℕ) (ps : List Proc) → All (λ p. SlotOk n p × (p.pid ≡ 0)) ps → All (SlotOk n) ps
slots_of n [] h = tt
slots_of n (p ∷ ps) h = (h.0.0, slots_of n ps h.1)

-- On a table of zeroes procinit leaves a valid table.
pub procinit-IsValid : (k : Kernel) → All IsZero k.procs → 0 < k.nextpid → IsValid (procinit k)
unfolding procinit
procinit-IsValid k h n = record {
  slots = slots_of k.nextpid (procinit_from 0 k.procs) free;
  differ = λ i j p q pi qj same pos. absurd (
      pos
        (All-get (λ p. SlotOk k.nextpid p × (p.pid ≡ 0)) (procinit_from 0 k.procs) i p free pi).1);
  next_pos = n;
}
  where
    free : All (λ p. SlotOk k.nextpid p × (p.pid ≡ 0)) (procinit_from 0 k.procs)
    free = procinit_from-free k.nextpid 0 k.procs h
