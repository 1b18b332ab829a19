-- ===== src/Proc/Pids/Exit.antt =====
-- The validity of the process table under kill, exit, wait and the start of sleep, of kernel/proc.c.
use mc.Prelude.{
  ℕ, zero, suc, ◌+◌, ◌≡◌, refl, ◌∙◌, ◌≢◌, inl, inr, Option, none, some, arith, length, find_index,
  Option-cases, Bool, true, false, not, ◌==◌, ◌&&◌, ◌||◌, Bool-cases, subst,
}
use mc.Proc.State.{
  ProcState, unused, sleeping, zombie, Chan, no_chan, on_proc, Proc, Kernel, slot, put, points_to,
}
use mc.Proc.Table.{wakeup, kill, struck, reparent, reparent_from, reparent_one, killed}
use mc.Proc.Lifecycle.{
  exit, exit_close, exit_family, exit_last, files_closed, wake_parent, wait_pass, wait_result,
  WaitStep, reap, kids, scan_children, sleep_enter,
}
use mc.Proc.Pids.{IsValid}
use mc.Proc.Pids.Keep.{
  IsKept, Follows, Follows-refl, Follows-trans, Follows-IsValid, set-Follows, wakeup-Follows,
}
use mc.Proc.Pids.Alloc.{freeproc-IsValid}

-- kill keeps the table valid.
pub kill-IsValid : (pid : ℕ) (k : Kernel) → IsValid k → IsValid (kill pid k).0
unfolding kill
kill-IsValid pid k v = elim (Option-cases (find_index (λ p. p.pid == pid) k.procs)) [
  | inl e ↦ rw (e, kill) v
  | inr (i, e) ↦
      rw (e, kill)
        (Follows-IsValid k (put k i (struck (slot k i))) v
          (set-Follows k.procs i _ (struck-IsKept (slot k i))) refl)
]
  where
    struck-IsKept : (p : Proc) → IsKept p (struck p)
    struck-IsKept p = record { same_pid = ground arith; in_order = λ n o. ground arith }

-- A child of slot `i` is no free slot, since a free slot has no parent.
adopted-IsKept :
    (p : Proc) (i init : ℕ)
    → points_to p.parent i ≡ true
    → IsKept p (record p { parent = some init })
adopted-IsKept p i init h = record { same_pid = refl; in_order = λ n o. ground arith }

reparent_one-Follows :
    (j : ℕ) (me : Option ℕ) (i : ℕ) (k : Kernel) → Follows k.procs (reparent_one j me i k).procs
reparent_one-Follows j me i k = elim (Bool-cases (points_to (slot k j).parent i)) [
  | inl e ↦ rw e (
      Follows-trans _ _ _ (set-Follows k.procs j _ (adopted-IsKept (slot k j) i k.initproc e))
        (wakeup-Follows me (on_proc k.initproc) _))
  | inr e ↦ rw e (Follows-refl k.procs)
]

reparent_one_rest :
    (j : ℕ) (me : Option ℕ) (i : ℕ) (k : Kernel) → ((reparent_one j me i k).nextpid ≡ k.nextpid)
unfolding wakeup
reparent_one_rest j me i k = ground arith

pub reparent_from-Follows :
    (left j : ℕ) (me : Option ℕ) (i : ℕ) (k : Kernel)
    → Follows k.procs (reparent_from left j me i k).procs
      × ((reparent_from left j me i k).nextpid ≡ k.nextpid)
unfolding reparent_from
reparent_from-Follows zero j me i k = (Follows-refl k.procs, refl)
reparent_from-Follows (suc left) j me i k =
    let (f, n) = reparent_from-Follows left (j + 1) me i (reparent_one j me i k) in
    (Follows-trans _ _ _ (reparent_one-Follows j me i k) f, n ∙ reparent_one_rest j me i k)

wake_parent-Follows :
    (me : ℕ) (o : Option ℕ) (k : Kernel)
    → Follows k.procs (wake_parent me o k).procs × ((wake_parent me o k).nextpid ≡ k.nextpid)
unfolding wakeup
wake_parent-Follows me none k = (wakeup-Follows (some me) no_chan k, refl)
wake_parent-Follows me (some i) k = (wakeup-Follows (some me) (on_proc i) k, refl)

zombie-IsKept :
    (p : Proc) (status n : ℕ) → p.pid ≢ 0 → IsKept p (record p { xstate = status; state = zombie })
zombie-IsKept p status n h = record { same_pid = refl; in_order = λ m o. ground arith }

closed-IsKept : (p : Proc) → IsKept p (files_closed p)
closed-IsKept p = record { same_pid = refl; in_order = λ n o. ground arith }

exit_close-Follows : (me : ℕ) (k : Kernel) → Follows k.procs (exit_close me k).procs
unfolding exit_close
exit_close-Follows me k = set-Follows k.procs me _ (closed-IsKept (slot k me))

exit_family-Follows :
    (me : ℕ) (k : Kernel)
    → Follows k.procs (exit_family me k).procs × ((exit_family me k).nextpid ≡ k.nextpid)
unfolding exit_family reparent
exit_family-Follows me k =
    let (f, n) = reparent_from-Follows (length k.procs) 0 (some me) me k in
    let (g, m) = wake_parent-Follows me _ (reparent (some me) me k) in
    (Follows-trans _ _ _ f g, m ∙ n)

exit_body-IsValid :
    (me status : ℕ) (k : Kernel)
    → IsValid k
    → (slot k me).pid ≢ 0
    → IsValid (exit_last me status (exit_family me (exit_close me k)))
unfolding exit_last exit_close
exit_body-IsValid me status k v live =
    let k1 : Kernel = exit_close me k in
    let k2 : Kernel = exit_family me k1 in
    let c : Follows k.procs k1.procs = exit_close-Follows me k in
    let (f, n) = exit_family-Follows me k1 in
    let z : IsKept (slot k2 me) _ =
      zombie-IsKept (slot k2 me) status 0
        (omega (arith, (c.each me).same_pid, (f.each me).same_pid)) in
    Follows-IsValid k (exit_last me status k2) v
      (Follows-trans _ _ _ c (Follows-trans _ _ _ f (set-Follows k2.procs me _ z))) n

-- exit by a process, not by a free slot, keeps the table valid.
pub exit-IsValid :
    (me status : ℕ) (k k' : Kernel)
    → IsValid k
    → (slot k me).pid ≢ 0
    → exit me status k ≡ some k'
    → IsValid k'
unfolding exit
exit-IsValid me status k k' v live e = elim (Bool-cases (me == k.initproc)) [
  | inl b ↦ absurd (ground (arith, b))
  | inr b ↦ subst IsValid (ground (arith, b)) (exit_body-IsValid me status k v live)
]

-- wait keeps the table valid, whatever it answers.
pub wait_pass-IsValid :
    (me addr : ℕ) (copied : Bool) (k : Kernel) → IsValid k → IsValid (wait_pass me addr copied k).0
unfolding wait_pass
wait_pass-IsValid me addr copied k v = go (scan_children me 0 false k.procs)
  where
    go : (s : WaitStep) → IsValid (wait_result me addr copied s k).0
    go (reap i) = elim (Bool-cases (not (addr == 0) && not copied)) [
      | inl e ↦ rw e v
      | inr e ↦ rw e (freeproc-IsValid i k v)
    ]
    go (kids b) = elim (Bool-cases (not b || killed me k)) [ inl e ↦ rw e v | inr e ↦ rw e v ]

runs-IsKept :
    (p : Proc) (s : ProcState) (c : Chan)
    → s ≢ unused
    → p.pid ≢ 0
    → IsKept p (record p { state = s; chan = c })
runs-IsKept p s c h l = record { same_pid = refl; in_order = λ n o. ground arith }

-- sleep by a process keeps the table valid, up to where it gives up the CPU.
pub sleep_enter-IsValid :
    (me : ℕ) (c : Chan) (k : Kernel)
    → IsValid k
    → (slot k me).pid ≢ 0
    → IsValid (sleep_enter me c k)
unfolding sleep_enter
sleep_enter-IsValid me c k v l =
    Follows-IsValid k _ v
      (set-Follows k.procs me _ (runs-IsKept (slot k me) sleeping c (λ e. cc) l)) refl
