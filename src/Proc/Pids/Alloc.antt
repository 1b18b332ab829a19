-- ===== src/Proc/Pids/Alloc.antt =====
-- The validity of the process table under allocproc and freeproc of kernel/proc.c.
use mc.Prelude.{
  ℕ, zero, suc, ◌+◌, ◌-◌, ◌^◌, ◌≤◌, ◌<◌, ◌≡◌, refl, sym, ap, ◌∙◌, ◌≢◌, ◌⊎◌, inl, inr, List, [], ◌∷◌,
  ◌++◌, none, some, arith, get_elem?, set, get_or, length, All-get, All-get_or, get_elem?-lt,
  get_or_of_get_elem?, find_index, find_index-some, true, false, if◌then◌else◌, ◌==◌, Bool-cases,
  get_elem?-get_or, Option-cases, find_index-none, NonePasses, subst, ==_iff, get_or-set_self,
  get_or-set_ne, length-set, get_or-set,
}
use mc.Proc.State.{
  ProcState, unused, used, sleeping, runnable, running, zombie, Proc, Kernel, slot, zero_proc,
  kfree,
}
use mc.Proc.Table.{allocproc, allocproc_at, freeproc, cleared, released, is_unused}
use mc.Proc.Pids.{SlotOk, StateOk, IsValid, set-IsValid}

slot_pid_lt : (n : ℕ) (s : ProcState) (p : Proc) → 0 < n → StateOk s n p → p.pid < n
slot_pid_lt n unused p h o = omega arith
slot_pid_lt n used p h o = o.1
slot_pid_lt n sleeping p h o = o.1
slot_pid_lt n runnable p h o = o.1
slot_pid_lt n running p h o = o.1
slot_pid_lt n zombie p h o = o.1

-- Every pid in the table is below `nextpid`.
pub pid-lt-nextpid :
    (k : Kernel) (j : ℕ) (r : Proc) → IsValid k → get_elem? k.procs j ≡ some r → r.pid < k.nextpid
pid-lt-nextpid k j r v e =
    slot_pid_lt k.nextpid r.state r v.next_pos (All-get (SlotOk k.nextpid) k.procs j r v.slots e)

-- A write that keeps the slot's pid.
pub keep-IsValid :
    (k k' : Kernel) (i : ℕ) (q : Proc)
    → IsValid k
    → i < length k.procs
    → k'.procs ≡ set k.procs i q
    → k.nextpid ≡ k'.nextpid
    → SlotOk k.nextpid q
    → q.pid ≡ (slot k i).pid
    → IsValid k'
keep-IsValid k k' i q v l e n o same =
    set-IsValid k k' i q v e (omega arith) (rw (← n) o) (λ j r at eq pos.
      v.differ i j (slot k i) r (get_elem?-get_or k.procs i zero_proc l) at (omega arith)
        (omega arith))

-- A write that frees the slot.
pub clear-IsValid :
    (k k' : Kernel) (i : ℕ) (p : Proc)
    → IsValid k
    → k'.procs ≡ set k.procs i (cleared p)
    → k.nextpid ≤ k'.nextpid
    → IsValid k'
clear-IsValid k k' i p v e n =
    set-IsValid k k' i (cleared p) v e n (refl, refl, refl, refl, refl)
      (λ j r at eq pos. absurd (pos refl))

pub freeproc-IsValid : (i : ℕ) (k : Kernel) → IsValid k → IsValid (freeproc i k)
unfolding freeproc
freeproc-IsValid i k v = clear-IsValid k (freeproc i k) i (slot k i) v refl (omega arith)

-- A write that starts the slot under the next pid.
pub start-IsValid :
    (k k' : Kernel) (i : ℕ) (q : Proc)
    → IsValid k
    → k'.procs ≡ set k.procs i q
    → k'.nextpid ≡ k.nextpid + 1
    → q.pid ≡ k.nextpid
    → q.state ≡ used
    → IsValid k'
start-IsValid k k' i q v e n new st =
    set-IsValid k k' i q v e (omega arith) (rw st (omega (arith, v.next_pos), omega arith))
      (λ j r at eq pos. absurd (omega (arith, pid-lt-nextpid k j r v at)))

allocproc_at-IsValid :
    (i frame table : ℕ) (k : Kernel)
    → IsValid k
    → k.nextpid < 2 ^ 31 - 1
    → IsValid (allocproc_at i frame table k).0
unfolding allocproc_at
allocproc_at-IsValid i frame table k v small = elim (Bool-cases (frame == 0)) [
  | inl e ↦ rw e (freeproc-IsValid i _ (start-IsValid k _ i _ v refl (omega arith) refl refl))
  | inr e ↦ elim (Bool-cases (table == 0)) [
    | inl f ↦
        rw (e, f) (freeproc-IsValid i _ (start-IsValid k _ i _ v refl (omega arith) refl refl))
    | inr f ↦ rw (e, f) (start-IsValid k _ i _ v refl (omega arith) refl refl)
  ]
]

-- allocproc keeps the table valid on every path, as long as the pids have not run out of `int`.
pub allocproc-IsValid :
    (frame table : ℕ) (k : Kernel)
    → IsValid k
    → k.nextpid < 2 ^ 31 - 1
    → IsValid (allocproc frame table k).0
unfolding allocproc
allocproc-IsValid frame table k v small = elim (Option-cases (find_index is_unused k.procs)) [
  | inl e ↦ rw (e, allocproc) v
  | inr (i, e) ↦ rw (e, allocproc) (allocproc_at-IsValid i frame table k v small)
]

-- What allocproc answers with slot `i`: a slot that was free, and no other, now holds a process.
pub record IsAllocated (frame table : ℕ) (k k' : Kernel) (i : ℕ) : Type 0 where
  pub within : i < length k.procs
  pub was_free : (slot k i).state ≡ unused
  pub in_use : (slot k' i).state ≡ used
  pub new_pid : (slot k' i).pid ≡ k.nextpid
  pub next : k'.nextpid ≡ k.nextpid + 1
  pub page : (slot k' i).trapframe ≡ frame
  pub user_table : (slot k' i).pagetable ≡ table
  pub others : (j : ℕ) → i ≢ j → slot k' j ≡ slot k j
  pub same_size : length k'.procs ≡ length k.procs
  pub same_calls : k'.calls ≡ k.calls
  pub same_frames : k'.frames ≡ k.frames
  pub same_killed : (slot k' i).killed ≡ (slot k i).killed

pub free_slot :
    (k : Kernel) (i : ℕ)
    → find_index is_unused k.procs ≡ some i
    → (i < length k.procs) × ((slot k i).state ≡ unused)
free_slot k i e =
    let f = find_index-some is_unused k.procs i e in
    (
      get_elem?-lt k.procs i f.item f.here,
      rw (get_or_of_get_elem? k.procs i zero_proc f.item f.here) (is_unused_state f.item f.passes),
    )
  where
    is_unused_state : (p : Proc) → is_unused p ≡ true → p.state ≡ unused
    is_unused_state p h = ground arith

pub IsAllocated-at :
    (frame table : ℕ) (k : Kernel) (i : ℕ)
    → i < length k.procs
    → (slot k i).state ≡ unused
    → frame ≢ 0
    → table ≢ 0
    → k.nextpid < 2 ^ 31 - 1
    → ((allocproc_at i frame table k).1 ≡ some i)
      × IsAllocated frame table k (allocproc_at i frame table k).0 i
unfolding allocproc_at
IsAllocated-at frame table k i l st hf ht small =
    let e : (frame == 0) ≡ false = ground arith in
    let f : (table == 0) ≡ false = ground arith in
    rw (e, f)
      (
        refl,
        record {
          within = l;
          was_free = st;
          in_use = rw (get_or-set_self k.procs i _ zero_proc l) refl;
          new_pid = rw (get_or-set_self k.procs i _ zero_proc l) refl;
          next = omega arith;
          page = rw (get_or-set_self k.procs i _ zero_proc l) refl;
          user_table = rw (get_or-set_self k.procs i _ zero_proc l) refl;
          others = λ j ne. get_or-set_ne k.procs i j _ zero_proc ne;
          same_size = length-set k.procs i _;
          same_calls = refl;
          same_frames = refl;
          same_killed = rw (get_or-set_self k.procs i _ zero_proc l) refl;
        },
      )

-- A second write to a slot hides the first.
pub set-set : (ps : List Proc) (i : ℕ) (p q : Proc) → set (set ps i p) i q ≡ set ps i q
set-set [] i p q = refl
set-set (x ∷ ps) zero p q = refl
set-set (x ∷ ps) (suc i) p q = rw (set-set ps i p q)

-- allocproc that fails for want of memory leaves the slot cleared, and gives back the trapframe page
-- if it had one; every other slot is untouched.
pub record IsUndone (frame : ℕ) (k k' : Kernel) : Type 0 where
  pub returned : k'.calls ≡ k.calls ++ (if frame == 0 then [] else kfree frame ∷ [])
  pub states : (j : ℕ) → (slot k' j).state ≡ (slot k j).state
  pub pids : (j : ℕ) → (slot k' j).pid ≡ (slot k j).pid

module _ (ps : List Proc) (i : ℕ) (p q : Proc) (l : i < length ps) where
  cleared_state :
      (get_or ps i zero_proc).state ≡ unused
      → p.state ≡ unused
      → (j : ℕ) → (get_or (set (set ps i q) i p) j zero_proc).state ≡ (get_or ps j zero_proc).state
  cleared_state old new j = elim (Bool-cases (i == j)) [
    | inl e ↦
        rw (set-set ps i q p, get_or-set ps i j p zero_proc l, e, ← (==_iff i j).0 e)
          (new ∙ sym old)
    | inr e ↦ rw (set-set ps i q p, get_or-set ps i j p zero_proc l, e)
  ]

  cleared_pid :
      (get_or ps i zero_proc).pid ≡ 0
      → p.pid ≡ 0
      → (j : ℕ) → (get_or (set (set ps i q) i p) j zero_proc).pid ≡ (get_or ps j zero_proc).pid
  cleared_pid old new j = elim (Bool-cases (i == j)) [
    | inl e ↦
        rw (set-set ps i q p, get_or-set ps i j p zero_proc l, e, ← (==_iff i j).0 e)
          (new ∙ sym old)
    | inr e ↦ rw (set-set ps i q p, get_or-set ps i j p zero_proc l, e)
  ]

released_bare :
    (p q : Proc) (frame : ℕ)
    → p ≡ q
    → q.trapframe ≡ frame
    → q.pagetable ≡ 0
    → released p ≡ (if frame == 0 then [] else kfree frame ∷ [])
released_bare p q frame e tf pt = rw (e, tf, pt) (ground arith)

IsUndone-at :
    (frame table : ℕ) (k : Kernel) (i : ℕ)
    → i < length k.procs
    → SlotOk k.nextpid (slot k i)
    → (slot k i).state ≡ unused
    → (frame ≡ 0) ⊎ (table ≡ 0)
    → ((allocproc_at i frame table k).1 ≡ none) × IsUndone frame k (allocproc_at i frame table k).0
unfolding allocproc_at
IsUndone-at frame table k i l ok st bad = elim (Bool-cases (frame == 0)) [
  | inl e ↦ rw e (
    refl,
    record {
      returned =
          ap (λ cs. k.calls ++ cs)
            (released_bare _ _ 0 (get_or-set_self k.procs i _ zero_proc l) refl free.3 ∙ rw e);
      states = cleared_state k.procs i _ _ l st refl;
      pids = cleared_pid k.procs i _ _ l free.0 refl;
    },
  )
  | inr e ↦
      let f : (table == 0) ≡ true = ground arith in
      rw (e, f)
        (
          refl,
          record {
            returned =
                ap (λ cs. k.calls ++ cs)
                  (released_bare _ _ frame (get_or-set_self k.procs i _ zero_proc l) refl refl);
            states = cleared_state k.procs i _ _ l st refl;
            pids = cleared_pid k.procs i _ _ l free.0 refl;
          },
        )
]
  where
    free : StateOk unused k.nextpid (slot k i)
    free = subst (λ s. StateOk s k.nextpid (slot k i)) st ok

pub unused_slot :
    (k : Kernel) (i : ℕ) → IsValid k → i < length k.procs → SlotOk k.nextpid (slot k i)
unused_slot k i v l = All-get_or (SlotOk k.nextpid) k.procs i zero_proc v.slots l

-- allocproc with a page and a page table takes a free slot and gives it the next pid, the page and
-- the table; it fails only if no slot is free.
pub allocproc_takes :
    (frame table : ℕ) (k : Kernel)
    → k.nextpid < 2 ^ 31 - 1
    → frame ≢ 0
    → table ≢ 0
    → ((allocproc frame table k ≡ (k, none)) × NonePasses is_unused k.procs)
      ⊎ ((i : ℕ) × ((allocproc frame table k).1 ≡ some i)
          × IsAllocated frame table k (allocproc frame table k).0 i)
unfolding allocproc
allocproc_takes frame table k small hf ht = elim (Option-cases (find_index is_unused k.procs)) [
  | inl e ↦ inl (rw (e, allocproc) refl, find_index-none is_unused k.procs e)
  | inr (i, e) ↦
      let (l, st) = free_slot k i e in
      let (res, facts) = IsAllocated-at frame table k i l st hf ht small in
      inr (i, rw (e, allocproc) res, rw (e, allocproc) facts)
]

-- allocproc without a page or without a page table fails, gives back the page if it got one, and
-- leaves the state and the pid of every slot as they were.
pub allocproc_fails :
    (frame table : ℕ) (k : Kernel)
    → IsValid k
    → (frame ≡ 0) ⊎ (table ≡ 0)
    → ((allocproc frame table k).1 ≡ none)
      × ((allocproc frame table k).0 ≡ k ⊎ IsUndone frame k (allocproc frame table k).0)
unfolding allocproc
allocproc_fails frame table k v bad = elim (Option-cases (find_index is_unused k.procs)) [
  | inl e ↦ (rw (e, allocproc) refl, inl (rw (e, allocproc) refl))
  | inr (i, e) ↦
      let (l, st) = free_slot k i e in
      let (res, facts) = IsUndone-at frame table k i l (unused_slot k i v l) st bad in
      (rw (e, allocproc) res, inr (rw (e, allocproc) facts))
]
