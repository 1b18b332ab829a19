-- ===== src/Proc/Metrics/Pid.antt =====
-- The calls that find a process by its pid: kill, tempo_total, set_justica and set_type.
use mc.Prelude.{
  ℕ, ◌-◌, ◌^◌, ◌<◌, ◌≡◌, refl, ap, sym, ◌∙◌, ◌≢◌, ◌⊎◌, none, some, arith, true, false, ==_iff,
  Bool-cases, Option-cases, is_neg, minus_one, set, length, inl, inr, get_or-set_self,
  get_or-set_ne, find_index, find_index-some, find_index-none, NonePasses, NonePasses-get,
  get_elem?-get_or, NonePasses-find_index, get_elem?-set_self, get_elem?-set_ne, find_index-congr,
  find_index-set, All-map,
}
use mc.Proc.State.{sleeping, runnable, Proc, Kernel, slot, put, zero_proc}
use mc.Proc.Table.{kill, struck, allocproc, is_unused}
use mc.Proc.Pids.{IsValid, SlotOk}
use mc.Proc.Pids.Alloc.{IsAllocated-at, free_slot}
use mc.Proc.Metrics.{Metrics, has_pid, sys_tempo_total, sys_set_justica, sys_get_justica}

-- In a valid table the loop over the slots finds a live process in its own slot.
pub find_pid :
    (k : Kernel) (i : ℕ)
    → IsValid k
    → i < length k.procs
    → (slot k i).pid ≢ 0
    → find_index (has_pid (slot k i).pid) k.procs ≡ some i
find_pid k i v l live = elim (Option-cases (find_index (has_pid (slot k i).pid) k.procs)) [
  | inl e ↦
      let absent : has_pid (slot k i).pid (slot k i) ≡ false =
        NonePasses-get (has_pid (slot k i).pid) k.procs i (slot k i)
          (find_index-none (has_pid (slot k i).pid) k.procs e)
          (get_elem?-get_or k.procs i zero_proc l) in
      absurd (ground arith)
  | inr (j, e) ↦
      let f = find_index-some (has_pid (slot k i).pid) k.procs j e in
      let same : f.item.pid ≡ (slot k i).pid = (==_iff f.item.pid (slot k i).pid).0 f.passes in
      e
      ∙ ap some (
          sym (
            v.differ i j (slot k i) f.item (get_elem?-get_or k.procs i zero_proc l) f.here
              (sym same) live))
]

-- A pid that no slot holds is not found.
pub find_pid_none :
    (k : Kernel) (pid : ℕ)
    → NonePasses (has_pid pid) k.procs
    → find_index (has_pid pid) k.procs ≡ none
find_pid_none k pid n = NonePasses-find_index (has_pid pid) k.procs n

-- kill of a live process answers 0, marks that process as killed, makes it runnable if it slept and
-- leaves its state otherwise, and changes no other slot.
pub record IsKilled (k k' : Kernel) (i : ℕ) : Type 0 where
  pub marked : (slot k' i).killed ≡ 1
  pub woken : (slot k i).state ≡ sleeping → (slot k' i).state ≡ runnable
  pub same_state : (slot k i).state ≢ sleeping → (slot k' i).state ≡ (slot k i).state
  pub same_pid : (slot k' i).pid ≡ (slot k i).pid
  pub others : (j : ℕ) → i ≢ j → slot k' j ≡ slot k j

struck_marked : (p : Proc) → (struck p).killed ≡ 1
struck_marked p = ground arith

struck_pid : (p : Proc) → (struck p).pid ≡ p.pid
struck_pid p = ground arith

struck_woken : (p : Proc) → p.state ≡ sleeping → (struck p).state ≡ runnable
struck_woken p h = ground arith

struck_same : (p : Proc) → p.state ≢ sleeping → (struck p).state ≡ p.state
struck_same p h = ground arith

-- In a valid table, kill of the pid of a live process answers 0 and kills that process only: it is
-- marked, it is made runnable exactly if it slept, and every other slot is as before.
pub kill_lem :
    (k : Kernel) (i : ℕ)
    → IsValid k
    → i < length k.procs
    → (slot k i).pid ≢ 0
    → ((kill (slot k i).pid k).1 ≡ 0) × IsKilled k (kill (slot k i).pid k).0 i
unfolding kill
kill_lem k i v l live =
    let e = find_pid k i v l live in
    rw (e, kill)
      (
        refl,
        record {
          marked =
              rw (get_or-set_self k.procs i (struck (slot k i)) zero_proc l)
                (struck_marked (slot k i));
          woken = λ h.
              rw (get_or-set_self k.procs i (struck (slot k i)) zero_proc l)
                (struck_woken (slot k i) h);
          same_state = λ h.
              rw (get_or-set_self k.procs i (struck (slot k i)) zero_proc l)
                (struck_same (slot k i) h);
          same_pid =
              rw (get_or-set_self k.procs i (struck (slot k i)) zero_proc l)
                (struck_pid (slot k i));
          others = λ j ne. get_or-set_ne k.procs i j (struck (slot k i)) zero_proc ne;
        },
      )

-- In a valid table tempo_total answers the time of the live process with the pid, and -1 for a pid
-- that no slot holds or that is negative.
pub sys_tempo_total_lem :
    (k : Kernel) (i : ℕ)
    → IsValid k
    → i < length k.procs
    → (slot k i).pid ≢ 0
    → (slot k i).pid < 2 ^ 31
    → (sys_tempo_total (slot k i).pid k ≡ (slot k i).tempo_total)
      × ((pid : ℕ) → NonePasses (has_pid pid) k.procs → sys_tempo_total pid k ≡ minus_one)
unfolding sys_tempo_total
sys_tempo_total_lem k i v l live small =
    let e = find_pid k i v l live in
    let positive : is_neg (slot k i).pid ≡ false = ground arith in
    (rw (positive, e, sys_tempo_total), λ pid n. missing pid n (Bool-cases (is_neg pid)))
  where
    missing :
        (pid : ℕ)
        → NonePasses (has_pid pid) k.procs
        → (is_neg pid ≡ true) ⊎ (is_neg pid ≡ false)
        → sys_tempo_total pid k ≡ minus_one
    missing pid n (inl b) = rw (b, sys_tempo_total)
    missing pid n (inr b) = rw (b, find_pid_none k pid n, sys_tempo_total)

-- In a valid table set_justica of a live process and an index below 20 stores the time that the process
-- has run, which get_justica then reads; the other entries stay.
pub get_justica-set_justica :
    (k : Kernel) (m : Metrics) (index i : ℕ)
    → IsValid k
    → i < length k.procs
    → (slot k i).pid ≢ 0
    → index < length m.justicas
    → (m' : Metrics) × (sys_set_justica index (slot k i).pid k m ≡ some (m', 0))
      × (sys_get_justica index m' ≡ some (slot k i).tempo_total)
      × ((j : ℕ) → index ≢ j → sys_get_justica j m' ≡ sys_get_justica j m)
unfolding sys_set_justica sys_get_justica
get_justica-set_justica k m index i v l live h =
    let e = find_pid k i v l live in
    (
      record m { justicas = set m.justicas index (slot k i).tempo_total },
      rw (e, sys_set_justica) (rw (get_elem?-get_or m.justicas index 0 h)),
      get_elem?-set_self m.justicas index (slot k i).tempo_total h,
      λ j ne. get_elem?-set_ne m.justicas (slot k i).tempo_total ne,
    )

-- A free slot is found under pid 0.
free_has_pid_zero : (n : ℕ) (p : Proc) → SlotOk n p → has_pid 0 p ≡ is_unused p
free_has_pid_zero n p o = ground arith

struck_unused : (p : Proc) → is_unused p ≡ true → is_unused (struck p) ≡ true
struck_unused p h = ground arith

-- In a valid table with a free slot, kill(0) answers 0 and marks the free slot that allocproc takes
-- next, and allocproc does not clear the mark: the next process starts as killed.
pub allocproc-kill_zero :
    (k : Kernel) (i frame table : ℕ)
    → IsValid k
    → find_index is_unused k.procs ≡ some i
    → frame ≢ 0
    → table ≢ 0
    → k.nextpid < 2 ^ 31 - 1
    → ((kill 0 k).1 ≡ 0)
      × ((allocproc frame table (kill 0 k).0).1 ≡ some i)
      × ((slot (allocproc frame table (kill 0 k).0).0 i).killed ≡ 1)
unfolding kill allocproc
allocproc-kill_zero k i frame table v e hf ht small =
    let by_zero : find_index (has_pid 0) k.procs ≡ some i =
      find_index-congr (has_pid 0) is_unused k.procs (
        All-map (SlotOk k.nextpid) (λ p. has_pid 0 p ≡ is_unused p) k.procs
          (free_has_pid_zero k.nextpid) v.slots)
      ∙ e in
    let (l, st) = free_slot k i e in
    let q : Proc = struck (slot k i) in
    let k1 : Kernel = put k i q in
    let unused_q : is_unused q ≡ true = struck_unused (slot k i) (rw st) in
    let again : find_index is_unused k1.procs ≡ some i =
      find_index-set is_unused k.procs i q e unused_q in
    let (l1, st1) = free_slot k1 i again in
    let (res, a) = IsAllocated-at frame table k1 i l1 st1 hf ht small in
    let mark : (slot k1 i).killed ≡ 1 =
      rw (get_or-set_self k.procs i q zero_proc l) (struck_marked (slot k i)) in
    (
      rw (by_zero, kill),
      rw (by_zero, kill) (rw (again, allocproc) res),
      rw (by_zero, kill) (rw (again, allocproc) (a.same_killed ∙ mark)),
    )
