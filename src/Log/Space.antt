-- ===== src/Log/Space.antt =====
-- kernel/log.c: the room that begin_op sees to, and the room that log_write finds. The size of the log is
-- that of the disk's super block, for which mkfs/mkfs.c takes LOGSIZE.
use mc.Prelude.{
  sum, ℕ, suc, ◌+◌, ◌-◌, ◌*◌, ◌≤◌, ◌<◌, ◌≡◌, refl, sym, inl, inr, List, [], ◌∷◌, ◌++◌, Bool, true,
  false, ◌||◌, ◌⊎◌, Bool-cases, arith, if◌then◌else◌, ltb, leb, length, All, none, some, sub32,
  length-append, subst,
}
use mc.Log.Cases.{begin_op-cases, log_write-cases, end_op-cases}
use mc.Log.{Log, begin_op, end_op, log_write, commit, maxopblocks, logsize}

abbrev pub AtMost : List ℕ → Type 0
AtMost left = All (λ n. n ≤ maxopblocks) left

sum-append : (xs ys : List ℕ) (n : ℕ) → sum (xs ++ (n ∷ ys)) ≡ n + sum (xs ++ ys)
sum-append [] ys n = refl
sum-append (x ∷ xs) ys n = omega (arith, sum-append xs ys n)

length-append_cons : (xs ys : List ℕ) (n : ℕ) → length (xs ++ (n ∷ ys)) ≡ suc (length (xs ++ ys))
length-append_cons [] ys n = refl
length-append_cons (x ∷ xs) ys n = omega (arith, length-append_cons xs ys n)

AtMost-out :
    (xs ys : List ℕ) (n : ℕ) → AtMost (xs ++ (n ∷ ys)) → (n ≤ maxopblocks) × AtMost (xs ++ ys)
AtMost-out [] ys n h = h
AtMost-out (x ∷ xs) ys n h = let (a, b) = AtMost-out xs ys n h.1 in (a, (h.0, b))

AtMost-in : (xs ys : List ℕ) (n : ℕ) → n ≤ maxopblocks → AtMost (xs ++ ys) → AtMost (xs ++ (n ∷ ys))
AtMost-in [] ys n a h = (a, h)
AtMost-in (x ∷ xs) ys n a h = (h.0, AtMost-in xs ys n a h.1)

AtMost-sum : (xs : List ℕ) → AtMost xs → sum xs ≤ length xs * maxopblocks
AtMost-sum [] h = omega arith
AtMost-sum (x ∷ xs) h = omega (arith, AtMost-sum xs h.1, h.0)

some_past {ℓ} :
    {A : Type ℓ} (f o : Bool) (x : A)
    → f ≡ false
    → o ≡ false
    → (y : A) × ((if f then none else if o then none else some x) ≡ some y)
some_past true o x e g = absurd (ground arith)
some_past false true x e g = absurd (ground arith)
some_past false false x e g = (x, refl)

some_whichever {ℓ} :
    {A : Type ℓ} (c z : Bool) (x y : A)
    → c ≡ false
    → (r : A) × ((if c then none else if z then some x else some y) ≡ some r)
some_whichever true z x y e = absurd (ground arith)
some_whichever false true x y e = (x, refl)
some_whichever false false x y e = (y, refl)

module _ {B : Type 0} where
  -- The file system's operations: each begins, changes cached blocks, writes at most maxopblocks of them
  -- and ends. `Steps size l left` are the states they reach, with what each outstanding operation may
  -- still write.
  pub data Steps (size : ℕ) : Log B → List ℕ → Type 0 where
    booted :
        {l : Log B}
        → l.lh ≡ []
        → l.outstanding ≡ 0
        → l.committing ≡ false
        → l.size ≡ size
        → Steps size l []
    begins :
        {l l' : Log B} {left : List ℕ}
        → Steps size l left
        → begin_op l ≡ some l'
        → Steps size l' (maxopblocks ∷ left)
    changes :
        {l : Log B} {left : List ℕ} (c : ℕ → B)
        → Steps size l left
        → Steps size (record l { cache = c }) left
    writes :
        {l l' : Log B} (b n : ℕ) (before after : List ℕ)
        → Steps size l (before ++ (suc n ∷ after))
        → log_write b l ≡ some l'
        → Steps size l' (before ++ (n ∷ after))
    ends :
        {l l' : Log B} (n : ℕ) (before after : List ℕ)
        → Steps size l (before ++ (n ∷ after))
        → end_op l ≡ some l'
        → Steps size l' (before ++ after)

  -- What holds of the log between two operations.
  pub record HasRoom (size : ℕ) (l : Log B) (left : List ℕ) : Type 0 where
    pub idle : l.committing ≡ false
    pub counted : l.outstanding ≡ length left
    pub room : length l.lh + sum left ≤ logsize
    pub sized : l.size ≡ size
    pub few : length left ≤ 3
    pub each : AtMost left

  begin_op-HasRoom :
      (size : ℕ) (l l' : Log B) (left : List ℕ)
      → HasRoom size l left
      → begin_op l ≡ some l'
      → HasRoom size l' (maxopblocks ∷ left)
  begin_op-HasRoom size l l' left r h =
      let (s, q) = begin_op-cases l l' r.idle h in
      let t : length l.lh + (length left + 1) * maxopblocks ≤ logsize =
        subst (λ n. length l.lh + (n + 1) * maxopblocks ≤ logsize) r.counted s in
      let b = AtMost-sum left r.each in
      subst (λ x. HasRoom size x (maxopblocks ∷ left)) (sym q)
        (record {
          idle = r.idle;
          counted = omega (arith, r.counted);
          room = omega arith;
          sized = r.sized;
          few = omega arith;
          each = (omega arith, r.each);
        })

  log_write-HasRoom :
      (size b n : ℕ) (l l' : Log B) (before after : List ℕ)
      → HasRoom size l (before ++ (suc n ∷ after))
      → log_write b l ≡ some l'
      → HasRoom size l' (before ++ (n ∷ after))
  log_write-HasRoom size b n l l' before after r h =
      let (small, rest) = AtMost-out before after (suc n) r.each in
      let p = sum-append before after (suc n) in
      let p' = sum-append before after n in
      let q = length-append_cons before after (suc n) in
      let q' = length-append_cons before after n in
      let g = length-append l.lh (b ∷ []) in
      elim (log_write-cases b l l' h) [
        | inl e ↦
            subst (λ x. HasRoom size x (before ++ (n ∷ after))) (sym e)
              (record {
                idle = r.idle;
                counted = omega (arith, r.counted);
                room = omega (arith, r.room);
                sized = r.sized;
                few = omega (arith, r.few);
                each = AtMost-in before after n (omega arith) rest;
              })
        | inr e ↦
            subst (λ x. HasRoom size x (before ++ (n ∷ after))) (sym e)
              (record {
                idle = r.idle;
                counted = omega (arith, r.counted);
                room = omega (arith, r.room);
                sized = r.sized;
                few = omega (arith, r.few);
                each = AtMost-in before after n (omega arith) rest;
              })
      ]

  end_op-HasRoom :
      (size n : ℕ) (l l' : Log B) (before after : List ℕ)
      → HasRoom size l (before ++ (n ∷ after))
      → end_op l ≡ some l'
      → HasRoom size l' (before ++ after)
  unfolding commit
  end_op-HasRoom size n l l' before after r h =
      let (small, rest) = AtMost-out before after n r.each in
      let p = sum-append before after n in
      let q = length-append_cons before after n in
      let c : sub32 l.outstanding 1 ≡ length (before ++ after) = omega (arith, r.counted, r.few) in
      let b = AtMost-sum (before ++ after) rest in
      elim (end_op-cases l l' h) [
        | inl e ↦
            subst (λ x. HasRoom size x (before ++ after)) (sym e)
              (record {
                idle = refl;
                counted = c;
                room = omega (arith, r.few);
                sized = r.sized;
                few = omega (arith, r.few);
                each = rest;
              })
        | inr e ↦
            subst (λ x. HasRoom size x (before ++ after)) (sym e)
              (record {
                idle = r.idle;
                counted = c;
                room = omega (arith, r.room);
                sized = r.sized;
                few = omega (arith, r.few);
                each = rest;
              })
      ]

  Steps-HasRoom : (size : ℕ) (l : Log B) (left : List ℕ) → Steps size l left → HasRoom size l left
  Steps-HasRoom size l left (booted e o c s) = record {
    idle = c;
    counted = o;
    room = rw e (omega arith);
    sized = s;
    few = omega arith;
    each = tt;
  }
  Steps-HasRoom size l left (begins st h) =
      begin_op-HasRoom size _ _ _ (Steps-HasRoom size _ _ st) h
  Steps-HasRoom size l left (changes c st) =
      let r = Steps-HasRoom size _ _ st in
      record {
        idle = r.idle;
        counted = r.counted;
        room = r.room;
        sized = r.sized;
        few = r.few;
        each = r.each;
      }
  Steps-HasRoom size l left (writes b n before after st h) =
      log_write-HasRoom size b n _ _ before after (Steps-HasRoom size _ _ st) h
  Steps-HasRoom size l left (ends n before after st h) =
      end_op-HasRoom size n _ _ before after (Steps-HasRoom size _ _ st) h

  -- A log of logsize blocks, as mkfs makes it, holds one block less than begin_op counts on. In every state
  -- that the operations reach, where one of them may still write a block: log_write panics exactly when
  -- there are 29 blocks in the log, and then this block is the only one that the outstanding operations may
  -- still write; else it returns.
  pub log_write_lem :
      (b n : ℕ) (l : Log B) (before after : List ℕ)
      → Steps logsize l (before ++ (suc n ∷ after))
      → ((log_write b l ≡ none)
          × (length l.lh + 1 ≡ logsize)
          × (sum (before ++ (suc n ∷ after)) ≡ 1))
        ⊎ ((length l.lh + 1 < logsize) × ((l' : Log B) × (log_write b l ≡ some l')))
  unfolding log_write
  log_write_lem b n l before after st =
      let r = Steps-HasRoom logsize l _ st in
      let p = sum-append before after (suc n) in
      let q = length-append_cons before after (suc n) in
      let o : ltb l.outstanding 1 ≡ false = ground (arith, r.counted) in
      elim (Bool-cases (leb logsize (length l.lh) || leb (l.size - 1) (length l.lh))) [
        | inl f ↦
            let full : length l.lh + 1 ≡ logsize = ground (arith, f, r.room, r.sized, p) in
            inl (rw f, full, omega (arith, r.room, p))
        | inr f ↦
            let less : length l.lh + 1 < logsize = ground (arith, f, r.sized) in
            inr (less, some_past _ _ _ f o)
      ]

  -- In every state they reach no commit is under way between two operations, `outstanding` counts the
  -- operations, of which there are 3 at most, and an end_op of one of them returns.
  pub end_op-no_panic :
      (size n : ℕ) (l : Log B) (before after : List ℕ)
      → Steps size l (before ++ (n ∷ after))
      → (l.committing ≡ false)
        × (l.outstanding ≡ length (before ++ (n ∷ after)))
        × (l.outstanding ≤ 3)
        × ((l' : Log B) × (end_op l ≡ some l'))
  unfolding end_op
  end_op-no_panic size n l before after st =
      let r = Steps-HasRoom size l _ st in
      (r.idle, r.counted, omega (arith, r.few, r.counted), some_whichever _ _ _ _ r.idle)
