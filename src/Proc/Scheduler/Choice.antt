-- ===== src/Proc/Scheduler/Choice.antt =====
-- Which process a round of the scheduler in kernel/proc.c picks.
use mc.Prelude.{
  ℕ, suc, ◌+◌, ◌≡◌, refl, sym, ap, ◌∙◌, ◌≢◌, ◌⊎◌, inl, inr, List, [], ◌∷◌, Option, none, some,
  arith, Bool, true, false, ◌&&◌, if◌then◌else◌, ◌==◌, find_index, find_index-some, find_index-none,
  NonePasses-get, get_elem?,
}
use mathlib.Core.Option
use mathlib.Core.Bool.{cond}
use mc.Proc.State.{runnable, Proc, is_state, cpu_bound, io_bound, default_type}
use mc.Proc.Scheduler.{Picks, is_null, note_proc, scan, select, pick_proc}

-- runnable, of this type
abbrev pub waits_as : ℕ → Proc → Bool
waits_as t p = is_state p.state runnable && (p.type == t)

-- The first process that waits to run under a type.
abbrev pub first_of : ℕ → List Proc → Option ℕ
first_of t ps = find_index (waits_as t) ps

abbrev or_else : Option ℕ → Option ℕ → Option ℕ
or_else none b = b
or_else (some a) b = some a

abbrev shift : ℕ → Option ℕ → Option ℕ
shift i none = none
shift i (some j) = some (i + j)

shift-suc : (i : ℕ) (o : Option ℕ) → shift i (Option.map suc o) ≡ shift (suc i) o
shift-suc i none = refl
shift-suc i (some j) = ap some (omega arith)

shift_zero : (o : Option ℕ) → shift 0 o ≡ o
shift_zero none = refl
shift_zero (some j) = ap some (omega arith)

-- One step of the scan, for one type: `o` is what was found before, `f` what the rest holds.
noted_eq :
    (i : ℕ) (o f : Option ℕ) (b : Bool)
    → or_else (if b && is_null o then some i else o) (shift (suc i) f)
      ≡ or_else o (shift i (cond b (some 0) (Option.map suc f)))
noted_eq i none f true = ap some (omega arith)
noted_eq i none f false = sym (shift-suc i f)
noted_eq i (some j) f true = refl
noted_eq i (some j) f false = refl

note-cpu :
    (i : ℕ) (p : Proc) (k : Picks)
    → (note_proc i p k).cpu_proc
      ≡ (if waits_as cpu_bound p && is_null k.cpu_proc then some i else k.cpu_proc)
note-cpu i p k = ground arith

note-io :
    (i : ℕ) (p : Proc) (k : Picks)
    → (note_proc i p k).io_proc
      ≡ (if waits_as io_bound p && is_null k.io_proc then some i else k.io_proc)
note-io i p k = ground arith

note-default :
    (i : ℕ) (p : Proc) (k : Picks)
    → (note_proc i p k).default_proc
      ≡ (if waits_as default_type p && is_null k.default_proc then some i else k.default_proc)
note-default i p k = ground arith

-- The scan finds, for each type, what was found before or else the first that waits.
scan-eq :
    (i : ℕ) (ps : List Proc) (k : Picks)
    → ((scan i ps k).cpu_proc ≡ or_else k.cpu_proc (shift i (first_of cpu_bound ps)))
      × ((scan i ps k).io_proc ≡ or_else k.io_proc (shift i (first_of io_bound ps)))
      × ((scan i ps k).default_proc ≡ or_else k.default_proc (shift i (first_of default_type ps)))
unfolding scan
scan-eq i [] k = ground arith
scan-eq i (p ∷ ps) k =
    let (c, o, d) = scan-eq (suc i) ps (note_proc i p k) in
    (
      c
          ∙ rw (note-cpu i p k)
              (noted_eq i k.cpu_proc (first_of cpu_bound ps) (waits_as cpu_bound p)),
      o ∙ rw (note-io i p k) (noted_eq i k.io_proc (first_of io_bound ps) (waits_as io_bound p)),
      d
          ∙ rw (note-default i p k)
              (noted_eq i k.default_proc (first_of default_type ps) (waits_as default_type p)),
    )

-- The scheduler's choice by priority: IO-bound, then CPU-bound, then default, the first of each.
abbrev pub by_priority : List Proc → Option ℕ
by_priority ps =
    or_else (first_of io_bound ps) (or_else (first_of cpu_bound ps) (first_of default_type ps))

select-or_else :
    (c o d : Option ℕ)
    → select (record { cpu_proc = c; io_proc = o; default_proc = d }) ≡ or_else o (or_else c d)
select-or_else c none d = ground arith
select-or_else c (some i) d = refl

-- The scheduler picks the first runnable process of the IO-bound type; if there is none, the first of
-- the CPU-bound type; if there is none, the first of the default type; and else nothing.
pub pick_proc-by_priority : (ps : List Proc) → pick_proc ps ≡ by_priority ps
unfolding pick_proc
pick_proc-by_priority ps =
    let start : Picks = record { cpu_proc = none; io_proc = none; default_proc = none } in
    let (c, o, d) = scan-eq 0 ps start in
    select-or_else (scan 0 ps start).cpu_proc (scan 0 ps start).io_proc
      (scan 0 ps start).default_proc
    ∙ rw (c, o, d)
        (rw (
          shift_zero (first_of io_bound ps),
          shift_zero (first_of cpu_bound ps),
          shift_zero (first_of default_type ps),
        ))

first_of-some :
    (t : ℕ) (ps : List Proc) (i : ℕ)
    → first_of t ps ≡ some i
    → (p : Proc) × (get_elem? ps i ≡ some p) × (p.state ≡ runnable) × (p.type ≡ t)
first_of-some t ps i e =
    let f = find_index-some (waits_as t) ps i e in
    let (s, ty) = ready f.item f.passes in (f.item, f.here, s, ty)
  where
    ready : (p : Proc) → waits_as t p ≡ true → (p.state ≡ runnable) × (p.type ≡ t)
    ready p h = ground arith

-- The process that a round picks, and what it means for the others.
pub record IsChoice (ps : List Proc) (i : ℕ) : Type 0 where
  pub chosen : Proc
  pub here : get_elem? ps i ≡ some chosen
  pub ready : chosen.state ≡ runnable
  -- an IO-bound process that is runnable keeps the others out
  pub io_first :
      (j : ℕ) (p : Proc)
      → get_elem? ps j ≡ some p
      → p.state ≡ runnable
      → p.type ≡ io_bound
      → chosen.type ≡ io_bound
  -- and so does a CPU-bound one the default type
  pub cpu_next :
      (j : ℕ) (p : Proc)
      → get_elem? ps j ≡ some p
      → p.state ≡ runnable
      → p.type ≡ cpu_bound
      → (chosen.type ≡ io_bound) ⊎ (chosen.type ≡ cpu_bound)
  pub typed : (chosen.type ≡ io_bound) ⊎ ((chosen.type ≡ cpu_bound) ⊎ (chosen.type ≡ default_type))

waits-true : (t : ℕ) (p : Proc) → p.state ≡ runnable → p.type ≡ t → waits_as t p ≡ true
waits-true t p s e = rw (s, e) (ground arith)

none-excludes :
    (t : ℕ) (ps : List Proc) (j : ℕ) (p : Proc)
    → first_of t ps ≡ none
    → get_elem? ps j ≡ some p
    → p.state ≡ runnable
    → p.type ≢ t
none-excludes t ps j p e at s ty =
    let absent : waits_as t p ≡ false =
      NonePasses-get (waits_as t) ps j p (find_index-none (waits_as t) ps e) at in
    let present : waits_as t p ≡ true = waits-true t p s ty in cc

priority-IsChoice :
    (ps : List Proc) (o c d : Option ℕ) (i : ℕ)
    → first_of io_bound ps ≡ o
    → first_of cpu_bound ps ≡ c
    → first_of default_type ps ≡ d
    → or_else o (or_else c d) ≡ some i
    → IsChoice ps i
priority-IsChoice ps (some j) c d i eo ec ed e =
    let (p, here, ready, ty) = first_of-some io_bound ps i (eo ∙ e) in
    record {
      chosen = p;
      here = here;
      ready = ready;
      typed = inl ty;
      io_first = λ j q at s t. ty;
      cpu_next = λ j q at s t. inl ty;
    }
priority-IsChoice ps none (some j) d i eo ec ed e =
    let (p, here, ready, ty) = first_of-some cpu_bound ps i (ec ∙ e) in
    record {
      chosen = p;
      here = here;
      ready = ready;
      typed = inr (inl ty);
      io_first = λ j q at s t. absurd (none-excludes io_bound ps j q eo at s t);
      cpu_next = λ j q at s t. inr ty;
    }
priority-IsChoice ps none none d i eo ec ed e =
    let (p, here, ready, ty) = first_of-some default_type ps i (ed ∙ e) in
    record {
      chosen = p;
      here = here;
      ready = ready;
      typed = inr (inr ty);
      io_first = λ j q at s t. absurd (none-excludes io_bound ps j q eo at s t);
      cpu_next = λ j q at s t. absurd (none-excludes cpu_bound ps j q ec at s t);
    }

-- What the scheduler picks is runnable and has one of the three types; a runnable IO-bound process
-- keeps every other type from being picked, and a runnable CPU-bound one keeps out the default type.
pub pick_proc-IsChoice : (ps : List Proc) (i : ℕ) → pick_proc ps ≡ some i → IsChoice ps i
pick_proc-IsChoice ps i e =
    priority-IsChoice ps (first_of io_bound ps) (first_of cpu_bound ps) (first_of default_type ps) i
      refl refl refl (sym (pick_proc-by_priority ps) ∙ e)

or_else-none :
    (o c d : Option ℕ) → or_else o (or_else c d) ≡ none → (o ≡ none) × (c ≡ none) × (d ≡ none)
or_else-none none none none h = (refl, refl, refl)
or_else-none none none (some i) h = absurd (cc)
or_else-none none (some i) d h = absurd (cc)
or_else-none (some i) c d h = absurd (cc)

-- The scheduler leaves the CPU idle only if no runnable process has one of the three types: a runnable
-- process that set_type gave another type is passed over, and nothing else is.
pub pick_proc-none :
    (ps : List Proc) (j : ℕ) (p : Proc)
    → pick_proc ps ≡ none
    → get_elem? ps j ≡ some p
    → p.state ≡ runnable
    → (p.type ≢ io_bound) × (p.type ≢ cpu_bound) × (p.type ≢ default_type)
pick_proc-none ps j p e at s =
    let (a, b, c) =
      or_else-none (first_of io_bound ps) (first_of cpu_bound ps) (first_of default_type ps)
        (sym (pick_proc-by_priority ps) ∙ e) in
    (
      none-excludes io_bound ps j p a at s,
      none-excludes cpu_bound ps j p b at s,
      none-excludes default_type ps j p c at s,
    )
