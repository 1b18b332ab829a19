-- ===== src/Proc/Orphans.antt =====
-- reparent in kernel/proc.c, slot by slot.
use mc.Prelude.{
  ℕ, zero, suc, ◌+◌, ◌≤◌, ◌<◌, ◌≡◌, refl, sym, ap, ◌∙◌, ◌≢◌, ◌⊎◌, inl, inr, some, arith, length,
  length-set, true, false, ◌==◌, ==_iff, Bool-cases, subst,
}
use mc.Proc.State.{runnable, on_proc, Proc, Kernel, slot, put, points_to}
use mc.Proc.Table.{wakeup, reparent, reparent_from, reparent_one}
use mc.Proc.Rousing.{
  IsRoused, IsRoused-refl, IsStirred, IsStirred-trans, wakeup-IsStirred, wakeup_parent, Awaits,
  wakeup_wakes, IsRoused-Awaits, IsRoused-runnable, slot-put_ne, slot-put_self,
}

pub adopted : ℕ → Proc → Proc
adopted init p = record p { parent = some init }

adopts :
    (j me : ℕ) (k : Kernel)
    → j < length k.procs
    → points_to (slot k j).parent me ≡ true
    → reparent_one j (some me) me k
      ≡ wakeup (some me) (on_proc k.initproc) (put k j (adopted k.initproc (slot k j)))
unfolding adopted
adopts j me k h e = rw e refl

put-IsStirred :
    (j init : ℕ) (k : Kernel) → j < length k.procs → IsStirred k (put k j (adopted init (slot k j)))
unfolding adopted
put-IsStirred j init k h = record {
  same_length = length-set k.procs j _;
  each = λ x. elim (Bool-cases (j == x)) [
    | inl e ↦
        let q : j ≡ x = (==_iff j x).0 e in
        subst (λ x. IsRoused (slot k x) (slot (put k j (adopted init (slot k j))) x)) q
          (rw (slot-put_self k j (adopted init (slot k j)) h) (same_but (slot k j)))
    | inr e ↦ rw (slot-put_ne k j x (adopted init (slot k j)) (ground (arith, e))) (IsRoused-refl _)
  ];
  same_init = refl;
  same_calls = refl;
}
  where
    same_but : (p : Proc) → IsRoused p (adopted init p)
    same_but p = record {
      same_pid = refl;
      same_chan = refl;
      same_status = refl;
      same_files = refl;
      same_cwd = refl;
      state = inl refl;
    }

-- The slots from `j` on, `left` of them, after reparent's turn on each.
pub record IsReparented (me left j : ℕ) (k k' : Kernel) : Type 0 where
  pub stirred : IsStirred k k'
  pub orphans :
      (x : ℕ)
      → j ≤ x
      → x < j + left
      → points_to (slot k x).parent me ≡ true
      → (slot k' x).parent ≡ some k.initproc
  pub stays :
      (x : ℕ)
      → (points_to (slot k x).parent me ≡ false) ⊎ (x < j)
      → (slot k' x).parent ≡ (slot k x).parent
  pub init_wakes :
      (x : ℕ)
      → j ≤ x
      → x < j + left
      → points_to (slot k x).parent me ≡ true
      → k.initproc ≢ me
      → Awaits k.initproc (slot k k.initproc)
      → (slot k' k.initproc).state ≡ runnable

IsReparented-none : (me j : ℕ) (k : Kernel) → IsReparented me 0 j k k
IsReparented-none me j k = record {
  stirred = record {
    same_length = refl;
    each = λ x. IsRoused-refl _;
    same_init = refl;
    same_calls = refl;
  };
  orphans = λ x a b h. absurd (omega arith);
  stays = λ x h. refl;
  init_wakes = λ x a b h n w. absurd (omega arith);
}

put_parent :
    (j : ℕ) (k : Kernel)
    → j < length k.procs
    → (slot (put k j (adopted k.initproc (slot k j))) j).parent ≡ some k.initproc
unfolding adopted
put_parent j k h = ap (λ (p : Proc). p.parent) (slot-put_self k j (adopted k.initproc (slot k j)) h)

-- One turn.
reparent_one_lem :
    (j me : ℕ) (k : Kernel)
    → j < length k.procs
    → IsReparented me 1 j k (reparent_one j (some me) me k)
      × ((x : ℕ) → x ≢ j → (slot (reparent_one j (some me) me k) x).parent ≡ (slot k x).parent)
reparent_one_lem j me k h = elim (Bool-cases (points_to (slot k j).parent me)) [
  | inl e ↦
      let k1 : Kernel = put k j (adopted k.initproc (slot k j)) in
      let s1 = put-IsStirred j k.initproc k h in
      let other : (x : ℕ)
          → x ≢ j
          → (slot (wakeup (some me) (on_proc k.initproc) k1) x).parent ≡ (slot k x).parent =
        λ x ne.
          wakeup_parent (some me) (on_proc k.initproc) k1 x
          ∙ ap (λ (p : Proc). p.parent) (slot-put_ne k j x _ (λ q. ne (sym q))) in
      rw (adopts j me k h e) (
        record {
          stirred = IsStirred-trans k k1 _ s1 (wakeup-IsStirred (some me) (on_proc k.initproc) k1);
          orphans = λ x a b c.
              let q : j ≡ x = omega arith in
              wakeup_parent (some me) (on_proc k.initproc) k1 x
              ∙ subst (λ x. (slot k1 x).parent ≡ some k.initproc) q (put_parent j k h);
          stays = λ x d. other x (unlike x d e);
          init_wakes = λ x a b c ne w.
              wakeup_wakes me k.initproc k1 ne (IsRoused-Awaits _ _ _ (s1.each k.initproc) w);
        },
        other,
      )
  | inr e ↦ rw e (
    record {
      stirred = (IsReparented-none me j k).stirred;
      orphans = λ x a b c. absurd (let z = not_here x a b c e in cc);
      stays = λ x d. refl;
      init_wakes = λ x a b c ne w. absurd (let z = not_here x a b c e in cc);
    },
    λ x ne. refl,
  )
]
  where
    unlike :
        (x : ℕ)
        → (points_to (slot k x).parent me ≡ false) ⊎ (x < j)
        → points_to (slot k j).parent me ≡ true
        → x ≢ j
    unlike x (inl d) e q =
        let c : points_to (slot k j).parent me ≡ false =
          subst (λ x. points_to (slot k x).parent me ≡ false) q d in
        absurd (cc)
    unlike x (inr d) e q = absurd (omega arith)

    not_here :
        (x : ℕ)
        → j ≤ x
        → x < j + 1
        → points_to (slot k x).parent me ≡ true
        → points_to (slot k j).parent me ≡ false
        → false ≡ true
    not_here x a b c e =
        let q : x ≡ j = omega arith in
        sym e ∙ subst (λ x. points_to (slot k x).parent me ≡ true) q c

IsReparented-suc :
    (me left j : ℕ) (k k1 k2 : Kernel)
    → IsReparented me 1 j k k1
    → ((x : ℕ) → x ≢ j → (slot k1 x).parent ≡ (slot k x).parent)
    → IsReparented me left (j + 1) k1 k2
    → IsReparented me (suc left) j k k2
IsReparented-suc me left j k k1 k2 r other s = record {
  stirred = IsStirred-trans k k1 k2 r.stirred s.stirred;
  orphans = λ x a b c. elim (Bool-cases (x == j)) [
    | inl e ↦
        let q : x ≡ j = (==_iff x j).0 e in
        s.stays x (inr (omega arith)) ∙ r.orphans x a (omega arith) c
    | inr e ↦
        s.orphans x (ground (arith, e)) (omega arith) (still x (ground (arith, e)) c) ∙ ap some same
  ];
  stays = λ x d. s.stays x (later x d) ∙ r.stays x d;
  init_wakes = λ x a b c ne w. elim (Bool-cases (x == j)) [
    | inl e ↦
        let q : x ≡ j = (==_iff x j).0 e in
        IsRoused-runnable _ _ (s.stirred.each k.initproc) (r.init_wakes x a (omega arith) c ne w)
    | inr e ↦
        subst (λ i. (slot k2 i).state ≡ runnable) same
          (s.init_wakes x (ground (arith, e)) (omega arith) (still x (ground (arith, e)) c)
            (λ q. ne (sym same ∙ q))
            (subst (λ i. Awaits i (slot k1 i)) (sym same)
              (IsRoused-Awaits _ _ _ (r.stirred.each k.initproc) w)))
  ];
}
  where
    same : k1.initproc ≡ k.initproc
    same = r.stirred.same_init

    still :
        (x : ℕ)
        → x ≢ j
        → points_to (slot k x).parent me ≡ true
        → points_to (slot k1 x).parent me ≡ true
    still x ne c = ap (λ o. points_to o me) (other x ne) ∙ c

    later :
        (x : ℕ)
        → (points_to (slot k x).parent me ≡ false) ⊎ (x < j)
        → (points_to (slot k1 x).parent me ≡ false) ⊎ (x < j + 1)
    later x (inl d) = inl (ap (λ o. points_to o me) (r.stays x (inl d)) ∙ d)
    later x (inr d) = inr (omega arith)

reparent_from_lem :
    (left j me : ℕ) (k : Kernel)
    → j + left ≤ length k.procs
    → IsReparented me left j k (reparent_from left j (some me) me k)
unfolding reparent_from
reparent_from_lem zero j me k h = IsReparented-none me j k
reparent_from_lem (suc left) j me k h =
    let k1 : Kernel = reparent_one j (some me) me k in
    let (r, o) = reparent_one_lem j me k (omega arith) in
    let l = r.stirred.same_length in
    IsReparented-suc me left j k k1 _ r o (reparent_from_lem left (j + 1) me k1 (omega (arith, l)))

pub reparent_lem :
    (me : ℕ) (k : Kernel) → IsReparented me (length k.procs) 0 k (reparent (some me) me k)
unfolding reparent
reparent_lem me k = reparent_from_lem (length k.procs) 0 me k (omega arith)
