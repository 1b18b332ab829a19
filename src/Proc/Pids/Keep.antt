-- ===== src/Proc/Pids/Keep.antt =====
-- Changes of the process table that keep its pids, such as those of wakeup in kernel/proc.c.
use mc.Prelude.{
  ℕ, zero, suc, ◌≡◌, refl, sym, ap, ◌∙◌, inl, inr, List, [], ◌∷◌, Option, some, arith, get_elem?,
  set, get_or, length, All-of_get_or, All-get_or, get_elem?-lt, get_or_of_get_elem?,
  get_elem?-get_or, get_or-set_cases, length-set, Bool, true, false, if◌then◌else◌,
}
use mc.Proc.State.{Chan, Proc, Kernel, slot, zero_proc, points_to}
use mc.Proc.Table.{woken, wakeup, wakeup_from}
use mc.Proc.Pids.{SlotOk, IsValid}

-- A slot keeps its pid, and stays in order.
pub record IsKept (p p' : Proc) : Type 0 where
  pub same_pid : p'.pid ≡ p.pid
  pub in_order : (n : ℕ) → SlotOk n p → SlotOk n p'

pub record Follows (ps ps' : List Proc) : Type 0 where
  pub same_length : length ps' ≡ length ps
  pub each : (j : ℕ) → IsKept (get_or ps j zero_proc) (get_or ps' j zero_proc)

IsKept-refl : (p : Proc) → IsKept p p
IsKept-refl p = record { same_pid = refl; in_order = λ n o. o }

IsKept-trans : (p q r : Proc) → IsKept p q → IsKept q r → IsKept p r
IsKept-trans p q r a b = record {
  same_pid = b.same_pid ∙ a.same_pid;
  in_order = λ n o. b.in_order n (a.in_order n o);
}

pub Follows-refl : (ps : List Proc) → Follows ps ps
Follows-refl ps = record { same_length = refl; each = λ j. IsKept-refl _ }

pub Follows-trans : (ps qs rs : List Proc) → Follows ps qs → Follows qs rs → Follows ps rs
Follows-trans ps qs rs a b = record {
  same_length = b.same_length ∙ a.same_length;
  each = λ j. IsKept-trans _ _ _ (a.each j) (b.each j);
}

pub Follows-IsValid :
    (k k' : Kernel) → IsValid k → Follows k.procs k'.procs → k'.nextpid ≡ k.nextpid → IsValid k'
Follows-IsValid k k' v f n = record {
  slots = All-of_get_or (SlotOk k'.nextpid) k'.procs zero_proc (λ i l. rw n (
      (f.each i).in_order k.nextpid (
        All-get_or (SlotOk k.nextpid) k.procs i zero_proc v.slots (omega (arith, f.same_length)))));
  differ = λ i j p q pi qj same pos.
      v.differ i j (slot k i) (slot k j)
        (get_elem?-get_or k.procs i zero_proc
          (omega (arith, f.same_length, get_elem?-lt k'.procs i p pi)))
        (get_elem?-get_or k.procs j zero_proc
          (omega (arith, f.same_length, get_elem?-lt k'.procs j q qj)))
        (omega (arith, pid_back i p pi, pid_back j q qj)) (omega (arith, pid_back i p pi));
  next_pos = omega (arith, v.next_pos);
}
  where
    pid_back : (i : ℕ) (p : Proc) → get_elem? k'.procs i ≡ some p → (slot k i).pid ≡ p.pid
    pid_back i p e =
        sym (f.each i).same_pid
        ∙ ap (λ (r : Proc). r.pid) (get_or_of_get_elem? k'.procs i zero_proc p e)

-- A write to one slot that keeps it.
pub set-Follows :
    (ps : List Proc) (i : ℕ) (q : Proc) → IsKept (get_or ps i zero_proc) q → Follows ps (set ps i q)
set-Follows ps i q h = record {
  same_length = length-set ps i q;
  each = λ j. elim (get_or-set_cases ps i j q zero_proc) [
    | inl e ↦ rw e.1 (rw (← e.0) h)
    | inr e ↦ rw e (IsKept-refl _)
  ];
}

woken-IsKept : (c : Chan) (p : Proc) → IsKept p (woken c p)
woken-IsKept c p = record { same_pid = ground arith; in_order = λ n o. ground arith }

wakeup_from-Follows :
    (i : ℕ) (me : Option ℕ) (c : Chan) (ps : List Proc) → Follows ps (wakeup_from i me c ps)
unfolding wakeup_from
wakeup_from-Follows i me c [] = Follows-refl []
wakeup_from-Follows i me c (p ∷ ps) =
    let ih = wakeup_from-Follows (suc i) me c ps in
    record {
      same_length = omega (arith, ih.same_length);
      each = elim [ zero ↦ head_kept (points_to me i) | suc j ↦ ih.each j ];
    }
  where
    head_kept : (b : Bool) → IsKept p (if b then p else woken c p)
    head_kept true = IsKept-refl p
    head_kept false = woken-IsKept c p

pub wakeup-Follows : (me : Option ℕ) (c : Chan) (k : Kernel) → Follows k.procs (wakeup me c k).procs
unfolding wakeup
wakeup-Follows me c k = wakeup_from-Follows 0 me c k.procs
