-- ===== src/Proc/Rousing.antt =====
-- wakeup in kernel/proc.c, slot by slot.
use mc.Prelude.{
  ℕ, zero, suc, ◌+◌, ◌<◌, ◌≡◌, refl, sym, ap, ◌∙◌, ◌≢◌, ◌⊎◌, inl, inr, List, [], ◌∷◌, Option, some,
  arith, length, get_or, get_or-set_self, get_or-set_ne, true, false, ◌&&◌, ◌==◌, ==_self,
  Bool-cases, if◌then◌else◌,
}
use mc.Proc.State.{
  ProcState, sleeping, runnable, Chan, on_proc, Proc, Kernel, slot, put, points_to, zero_proc,
  is_state, same_chan,
}
use mc.Proc.Table.{woken, wakeup, wakeup_from}

-- A process that keeps what it holds, and at most wakes up.
pub record IsRoused (p p' : Proc) : Type 0 where
  pub same_pid : p'.pid ≡ p.pid
  pub same_chan : p'.chan ≡ p.chan
  pub same_status : p'.xstate ≡ p.xstate
  pub same_files : p'.ofile ≡ p.ofile
  pub same_cwd : p'.cwd ≡ p.cwd
  pub state : (p'.state ≡ p.state) ⊎ ((p.state ≡ sleeping) × (p'.state ≡ runnable))

pub IsRoused-refl : (p : Proc) → IsRoused p p
IsRoused-refl p = record {
  same_pid = refl;
  same_chan = refl;
  same_status = refl;
  same_files = refl;
  same_cwd = refl;
  state = inl refl;
}

pub IsRoused-trans : (p q r : Proc) → IsRoused p q → IsRoused q r → IsRoused p r
IsRoused-trans p q r a b = record {
  same_pid = b.same_pid ∙ a.same_pid;
  same_chan = b.same_chan ∙ a.same_chan;
  same_status = b.same_status ∙ a.same_status;
  same_files = b.same_files ∙ a.same_files;
  same_cwd = b.same_cwd ∙ a.same_cwd;
  state = both a.state b.state;
}
  where
    both :
        (q.state ≡ p.state) ⊎ ((p.state ≡ sleeping) × (q.state ≡ runnable))
        → (r.state ≡ q.state) ⊎ ((q.state ≡ sleeping) × (r.state ≡ runnable))
        → (r.state ≡ p.state) ⊎ ((p.state ≡ sleeping) × (r.state ≡ runnable))
    both (inl x) (inl y) = inl (y ∙ x)
    both (inl x) (inr y) = inr (sym x ∙ y.0, y.1)
    both (inr x) (inl y) = inr (x.0, y ∙ x.1)
    both (inr x) (inr y) = inr (x.0, y.1)

pub is_sleeping : (s : ProcState) → is_state s sleeping ≡ true → s ≡ sleeping
is_sleeping sleeping e = refl
is_sleeping _ e = absurd (cc)

pub woken-IsRoused : (c : Chan) (p : Proc) → IsRoused p (woken c p)
woken-IsRoused c p = elim (Bool-cases (is_state p.state sleeping && same_chan p.chan c)) [
  | inl e ↦ rw e (record {
    same_pid = refl;
    same_chan = refl;
    same_status = refl;
    same_files = refl;
    same_cwd = refl;
    state = inr (is_sleeping p.state (ground (arith, e)), refl);
  })
  | inr e ↦ rw e (IsRoused-refl p)
]

pub woken_parent : (c : Chan) (p : Proc) → (woken c p).parent ≡ p.parent
woken_parent c p = ground arith

-- wakeup, slot by slot
pub wakeup_from-get_or :
    (i : ℕ) (me : Option ℕ) (c : Chan) (ps : List Proc) (j : ℕ)
    → get_or (wakeup_from i me c ps) j zero_proc
      ≡ (if points_to me (i + j) then get_or ps j zero_proc else woken c (get_or ps j zero_proc))
unfolding wakeup_from
wakeup_from-get_or i me c [] j = elim (Bool-cases (points_to me (i + j))) [
  | inl e ↦ rw e refl
  | inr e ↦ rw e refl
]
wakeup_from-get_or i me c (p ∷ ps) zero =
    let z : i ≡ i + zero = omega arith in ap (λ n. if points_to me n then p else woken c p) z
wakeup_from-get_or i me c (p ∷ ps) (suc j) =
    let z : suc i + j ≡ i + suc j = omega arith in
    wakeup_from-get_or (suc i) me c ps j
    ∙ ap (λ n. if points_to me n then get_or ps j zero_proc else woken c (get_or ps j zero_proc)) z

pub slot-wakeup :
    (me : Option ℕ) (c : Chan) (k : Kernel) (x : ℕ)
    → slot (wakeup me c k) x ≡ (if points_to me x then slot k x else woken c (slot k x))
unfolding wakeup
slot-wakeup me c k x =
    let z : 0 + x ≡ x = omega arith in
    wakeup_from-get_or 0 me c k.procs x
    ∙ ap (λ n. if points_to me n then slot k x else woken c (slot k x)) z

pub length-wakeup_from :
    (i : ℕ) (me : Option ℕ) (c : Chan) (ps : List Proc) → length (wakeup_from i me c ps) ≡ length ps
unfolding wakeup_from
length-wakeup_from i me c [] = refl
length-wakeup_from i me c (p ∷ ps) = ap suc (length-wakeup_from (suc i) me c ps)

-- What wakeup and reparent leave: each process holds what it held, and at most wakes up.
pub record IsStirred (k k' : Kernel) : Type 0 where
  pub same_length : length k'.procs ≡ length k.procs
  pub each : (x : ℕ) → IsRoused (slot k x) (slot k' x)
  pub same_init : k'.initproc ≡ k.initproc
  pub same_calls : k'.calls ≡ k.calls

pub IsStirred-trans : (k k1 k2 : Kernel) → IsStirred k k1 → IsStirred k1 k2 → IsStirred k k2
IsStirred-trans k k1 k2 a b = record {
  same_length = b.same_length ∙ a.same_length;
  each = λ x. IsRoused-trans _ _ _ (a.each x) (b.each x);
  same_init = b.same_init ∙ a.same_init;
  same_calls = b.same_calls ∙ a.same_calls;
}

pub wakeup-IsStirred : (me : Option ℕ) (c : Chan) (k : Kernel) → IsStirred k (wakeup me c k)
unfolding wakeup
wakeup-IsStirred me c k = record {
  same_length = length-wakeup_from 0 me c k.procs;
  each = λ x. elim (Bool-cases (points_to me x)) [
    | inl e ↦ rw (slot-wakeup me c k x, e) (IsRoused-refl _)
    | inr e ↦ rw (slot-wakeup me c k x, e) (woken-IsRoused c _)
  ];
  same_init = refl;
  same_calls = refl;
}

pub wakeup_parent :
    (me : Option ℕ) (c : Chan) (k : Kernel) (x : ℕ)
    → (slot (wakeup me c k) x).parent ≡ (slot k x).parent
wakeup_parent me c k x = elim (Bool-cases (points_to me x)) [
  | inl e ↦ rw (slot-wakeup me c k x, e) refl
  | inr e ↦ rw (slot-wakeup me c k x, e) (woken_parent c _)
]

-- One that sleeps on its own slot, or is awake by then, is runnable after the wakeup of that slot.
unfoldable pub Awaits : ℕ → Proc → Type 0
Awaits i p = (p.chan ≡ on_proc i) × ((p.state ≡ sleeping) ⊎ (p.state ≡ runnable))

pub wakeup_wakes :
    (me i : ℕ) (k : Kernel)
    → i ≢ me
    → Awaits i (slot k i)
    → (slot (wakeup (some me) (on_proc i) k) i).state ≡ runnable
unfolding Awaits
wakeup_wakes me i k ne (c, s) =
    let e : (me == i) ≡ false = ground arith in rw (slot-wakeup (some me) (on_proc i) k i, e) (go s)
  where
    go :
        ((slot k i).state ≡ sleeping) ⊎ ((slot k i).state ≡ runnable)
        → (woken (on_proc i) (slot k i)).state ≡ runnable
    go (inl h) = rw (h, c, ==_self i)
    go (inr h) = rw (h, h)

pub IsRoused-Awaits : (i : ℕ) (p q : Proc) → IsRoused p q → Awaits i p → Awaits i q
unfolding Awaits
IsRoused-Awaits i p q r (c, s) = (r.same_chan ∙ c, go r.state s)
  where
    go :
        (q.state ≡ p.state) ⊎ ((p.state ≡ sleeping) × (q.state ≡ runnable))
        → (p.state ≡ sleeping) ⊎ (p.state ≡ runnable)
        → (q.state ≡ sleeping) ⊎ (q.state ≡ runnable)
    go (inl x) (inl y) = inl (x ∙ y)
    go (inl x) (inr y) = inr (x ∙ y)
    go (inr x) y = inr x.1

pub IsRoused-runnable : (p q : Proc) → IsRoused p q → p.state ≡ runnable → q.state ≡ runnable
IsRoused-runnable p q r h = elim r.state [ inl x ↦ x ∙ h | inr x ↦ x.1 ]

-- A write to a slot of the table.
pub slot-put_ne : (k : Kernel) (i j : ℕ) (p : Proc) → i ≢ j → slot (put k i p) j ≡ slot k j
slot-put_ne k i j p h = get_or-set_ne k.procs i j p zero_proc h

pub slot-put_self : (k : Kernel) (i : ℕ) (p : Proc) → i < length k.procs → slot (put k i p) i ≡ p
slot-put_self k i p h = get_or-set_self k.procs i p zero_proc h
