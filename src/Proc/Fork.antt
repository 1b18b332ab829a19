-- ===== src/Proc/Fork.antt =====
-- What fork of kernel/proc.c makes of the table.
use mc.Prelude.{
  ℕ, ◌-◌, ◌^◌, ◌<◌, ◌≡◌, refl, sym, ap, ◌∙◌, ◌≢◌, ◌⊎◌, inl, inr, Option, some, arith, length, Bool,
  true, false, if◌then◌else◌, ◌==◌, ==_iff, ==_self, get_or-set, ==_self, Bool-cases, subst,
  minus_one, get_or-set_self, get_or-set_ne, NonePasses, get_or-set,
}
use mc.Proc.State.{unused, runnable, Proc, Kernel, slot, zero_proc}
use mc.Proc.Table.{allocproc, freeproc, is_unused, cleared}
use mc.Proc.Lifecycle.{fork, fork_result, fork_child}
use mc.Proc.Pids.{StateOk, IsValid}
use mc.Proc.Pids.Alloc.{allocproc_takes, allocproc_fails, IsAllocated, IsUndone, unused_slot}

-- The child in slot `j`, made by the process in slot `me` with the page `frame`.
pub record IsForked (me frame : ℕ) (k k' : Kernel) (j : ℕ) : Type 0 where
  pub was_free : (slot k j).state ≡ unused
  pub ready : (slot k' j).state ≡ runnable
  pub child_pid : (slot k' j).pid ≡ k.nextpid
  pub child_of : (slot k' j).parent ≡ some me
  pub same_size : (slot k' j).sz ≡ (slot k me).sz
  pub returns_zero : (k'.frames frame).a0 ≡ 0
  pub same_pc : (k'.frames frame).epc ≡ (k.frames (slot k me).trapframe).epc
  pub others : (i : ℕ) → j ≢ i → slot k' i ≡ slot k i

module _ (me frame table : ℕ) (k : Kernel) where
  abbrev allocated : Kernel
  allocated = (allocproc frame table k).0

  child_made :
      (j : ℕ)
      → (slot k me).state ≢ unused
      → IsAllocated frame table k allocated j
      → IsForked me frame k (fork_child me j allocated).0 j
  unfolding fork_child
  child_made j live a =
      let me_same : slot allocated me ≡ slot k me = a.others me (λ e. live (rw (← e) a.was_free)) in
      let inside : j < length allocated.procs = omega (arith, a.within, a.same_size) in
      record {
        was_free = a.was_free;
        ready = rw (get_or-set_self allocated.procs j _ zero_proc inside) refl;
        child_pid = rw (get_or-set_self allocated.procs j _ zero_proc inside) a.new_pid;
        child_of = rw (get_or-set_self allocated.procs j _ zero_proc inside) refl;
        same_size =
            rw (get_or-set_self allocated.procs j _ zero_proc inside)
              (ap (λ (p : Proc). p.sz) me_same);
        returns_zero = rw (a.page, ==_self frame) refl;
        same_pc = rw (a.page, ==_self frame, me_same, a.same_frames) refl;
        others = λ i ne. get_or-set_ne allocated.procs j i _ zero_proc ne ∙ a.others i ne;
      }

  -- fork by a live process, with a page, a page table and a copy of the memory: either no slot was
  -- free and it answers -1 with the table as it was, or it answers the next pid, and a slot that was
  -- free holds a runnable child of that pid, whose fork returns 0 at the parent's program counter.
  -- No other slot changes.
  pub fork_lem :
      (slot k me).state ≢ unused
      → frame ≢ 0
      → table ≢ 0
      → k.nextpid < 2 ^ 31 - 1
      → ((fork me frame table true k ≡ (k, minus_one)) × NonePasses is_unused k.procs)
        ⊎ (((fork me frame table true k).1 ≡ k.nextpid)
            × (j : ℕ) × IsForked me frame k (fork me frame table true k).0 j)
  unfolding fork fork_child
  fork_lem live hf ht small = elim (allocproc_takes frame table k small hf ht) [
    | inl (e, full) ↦ inl (rw e refl, full)
    | inr (j, e, a) ↦
        inr (rw (e, fork_result) a.new_pid, j, rw (e, fork_result) (child_made j live a))
  ]

  -- the state and the pid of every slot
  pub record IsSame (k' : Kernel) : Type 0 where
    pub states : (i : ℕ) → (slot k' i).state ≡ (slot k i).state
    pub pids : (i : ℕ) → (slot k' i).pid ≡ (slot k i).pid

  freed-IsSame :
      (j : ℕ) → IsValid k → IsAllocated frame table k allocated j → IsSame (freeproc j allocated)
  unfolding freeproc
  freed-IsSame j v a = record {
    states = λ i. elim (Bool-cases (j == i)) [
      | inl e ↦ rw (at_freed i, e) (rw (← (==_iff j i).0 e) (sym a.was_free))
      | inr e ↦ rw (at_freed i, e) (ap (λ (p : Proc). p.state) (elsewhere i e))
    ];
    pids = λ i. elim (Bool-cases (j == i)) [
      | inl e ↦ rw (at_freed i, e) (rw (← (==_iff j i).0 e) (sym no_pid))
      | inr e ↦ rw (at_freed i, e) (ap (λ (p : Proc). p.pid) (elsewhere i e))
    ];
  }
    where
      at_freed :
          (i : ℕ)
          → slot (freeproc j allocated) i
            ≡ (if j == i then cleared (slot allocated j) else slot allocated i)
      at_freed i =
          get_or-set allocated.procs j i (cleared (slot allocated j)) zero_proc
            (omega (arith, a.within, a.same_size))

      elsewhere : (i : ℕ) → (j == i) ≡ false → slot allocated i ≡ slot k i
      elsewhere i e = a.others i (ground arith)

      no_pid : (slot k j).pid ≡ 0
      no_pid =
          (subst (λ s. StateOk s k.nextpid (slot k j)) a.was_free (unused_slot k j v a.within)).0

  unallocated-IsSame : (allocated ≡ k) ⊎ IsUndone frame k allocated → IsSame allocated
  unallocated-IsSame (inl e) = record { states = λ i. rw e; pids = λ i. rw e }
  unallocated-IsSame (inr u) = record { states = u.states; pids = u.pids }

  -- fork that gets no page, no page table or no copy of the memory answers -1, and every slot keeps its
  -- state and its pid.
  pub fork_fails :
      (copied : Bool)
      → IsValid k
      → k.nextpid < 2 ^ 31 - 1
      → ((frame ≡ 0) ⊎ (table ≡ 0)) ⊎ (copied ≡ false)
      → ((fork me frame table copied k).1 ≡ minus_one) × IsSame (fork me frame table copied k).0
  unfolding fork
  fork_fails copied v small bad = elim (no_memory bad) [
    | inl h ↦
        let (e, same) = allocproc_fails frame table k v h in
        (rw (e, fork_result), rw (e, fork_result) (unallocated-IsSame same))
    | inr (hf, ht, c) ↦ elim (allocproc_takes frame table k small hf ht) [
      | inl (e, full) ↦ (
        rw (e, fork_result),
        rw (e, fork_result) (unallocated-IsSame (inl (ap (λ (r : Kernel × Option ℕ). r.0) e))),
      )
      | inr (j, e, a) ↦ (rw (e, c, fork_result), rw (e, c, fork_result) (freed-IsSame j v a))
    ]
  ]
    where
      no_memory :
          ((frame ≡ 0) ⊎ (table ≡ 0)) ⊎ (copied ≡ false)
          → ((frame ≡ 0) ⊎ (table ≡ 0)) ⊎ ((frame ≢ 0) × (table ≢ 0) × (copied ≡ false))
      no_memory b = go (Bool-cases (frame == 0)) (Bool-cases (table == 0)) b
        where
          go :
              ((frame == 0) ≡ true) ⊎ ((frame == 0) ≡ false)
              → ((table == 0) ≡ true) ⊎ ((table == 0) ≡ false)
              → ((frame ≡ 0) ⊎ (table ≡ 0)) ⊎ (copied ≡ false)
              → ((frame ≡ 0) ⊎ (table ≡ 0)) ⊎ ((frame ≢ 0) × (table ≢ 0) × (copied ≡ false))
          go (inl e) q b = inl (inl ((==_iff frame 0).0 e))
          go (inr e) (inl f) b = inl (inr ((==_iff table 0).0 f))
          go (inr e) (inr f) (inl (inl z)) = inl (inl z)
          go (inr e) (inr f) (inl (inr z)) = inl (inr z)
          go (inr e) (inr f) (inr c) = inr (ground arith, ground arith, c)
