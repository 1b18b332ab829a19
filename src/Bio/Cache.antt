-- ===== src/Bio/Cache.antt =====
-- What bget finds in the cache, and what it puts there.
use mc.Prelude.{
  ℕ, ◌≡◌, refl, ap, inl, inr, List, [], ◌∷◌, ◌++◌, Bool, true, false, Option, none, some,
  if◌then◌else◌, ◌==◌, Bool-cases, All, add32,
}
use mc.Bio.{Buf, is_block, look_up, recycled, recycle, bget}

module _ {B : Type 0} where
  abbrev pub Absent : (dev blockno : ℕ) → List (Buf B) → Type 0
  Absent dev blockno bs = All (λ b. is_block dev blockno b ≡ false) bs

  abbrev pub InUse : List (Buf B) → Type 0
  InUse bs = All (λ (b : Buf B). (b.refcnt == 0) ≡ false) bs

  -- What bget of a block may answer from the list `bs`.
  pub data Outcome (dev blockno : ℕ) (bs : List (Buf B)) : Option (ℕ × List (Buf B)) → Type 0 where
    -- the first buffer with the block, with one more reference
    hit :
        (pre post : List (Buf B)) (b : Buf B)
        → bs ≡ pre ++ (b ∷ post)
        → Absent dev blockno pre
        → is_block dev blockno b ≡ true
        → Outcome dev blockno bs
            (some (b.place, pre ++ (record b { refcnt = add32 b.refcnt 1 } ∷ post)))
    -- the last buffer without references, where no buffer has the block
    miss :
        (pre post : List (Buf B)) (b : Buf B)
        → Absent dev blockno bs
        → bs ≡ pre ++ (b ∷ post)
        → (b.refcnt == 0) ≡ true
        → InUse post
        → Outcome dev blockno bs (some (b.place, pre ++ (recycled dev blockno b ∷ post)))
    panics : Absent dev blockno bs → InUse bs → Outcome dev blockno bs none

  data Looked (dev blockno : ℕ) (bs : List (Buf B)) : Option (ℕ × List (Buf B)) → Type 0 where
    there :
        (pre post : List (Buf B)) (b : Buf B)
        → bs ≡ pre ++ (b ∷ post)
        → Absent dev blockno pre
        → is_block dev blockno b ≡ true
        → Looked dev blockno bs
            (some (b.place, pre ++ (record b { refcnt = add32 b.refcnt 1 } ∷ post)))
    not_there : Absent dev blockno bs → Looked dev blockno bs none

  look_up_lem :
      (dev blockno : ℕ) (bs : List (Buf B)) → Looked dev blockno bs (look_up dev blockno bs)
  unfolding look_up
  look_up_lem dev blockno [] = not_there tt
  look_up_lem dev blockno (b ∷ bs) = elim (Bool-cases (is_block dev blockno b)) [
    | inl e ↦ rw e (there [] bs b refl tt e)
    | inr e ↦ rw e (later (look_up dev blockno bs) (look_up_lem dev blockno bs) e)
  ]
    where
      later :
          (o : Option (ℕ × List (Buf B)))
          → Looked dev blockno bs o
          → is_block dev blockno b ≡ false
          → Looked dev blockno (b ∷ bs) (elim o [ none ↦ none | some r ↦ some (r.0, b ∷ r.1) ])
      later _ (there pre post c q a t) e = there (b ∷ pre) post c (ap (λ l. b ∷ l) q) (e, a) t
      later _ (not_there a) e = not_there (e, a)

  data Recycled (dev blockno : ℕ) (bs : List (Buf B)) : Option (ℕ × List (Buf B)) → Type 0 where
    last :
        (pre post : List (Buf B)) (b : Buf B)
        → bs ≡ pre ++ (b ∷ post)
        → (b.refcnt == 0) ≡ true
        → InUse post
        → Recycled dev blockno bs (some (b.place, pre ++ (recycled dev blockno b ∷ post)))
    all_used : InUse bs → Recycled dev blockno bs none

  recycle_lem :
      (dev blockno : ℕ) (bs : List (Buf B)) → Recycled dev blockno bs (recycle dev blockno bs)
  unfolding recycle
  recycle_lem dev blockno [] = all_used tt
  recycle_lem dev blockno (b ∷ bs) = later (recycle dev blockno bs) (recycle_lem dev blockno bs)
    where
      here_or_none :
          (t : Bool)
          → (b.refcnt == 0) ≡ t
          → InUse bs
          → Recycled dev blockno
              (b ∷ bs)
              (if t then some (b.place, recycled dev blockno b ∷ bs) else none)
      here_or_none true e u = last [] bs b refl e u
      here_or_none false e u = all_used (e, u)

      later :
          (o : Option (ℕ × List (Buf B)))
          → Recycled dev blockno bs o
          → Recycled dev blockno (b ∷ bs) (elim o [
            | some r ↦ some (r.0, b ∷ r.1)
            | none ↦ if b.refcnt == 0 then some (b.place, recycled dev blockno b ∷ bs) else none
          ])
      later _ (last pre post c q z u) = last (b ∷ pre) post c (ap (λ l. b ∷ l) q) z u
      later _ (all_used u) = here_or_none (b.refcnt == 0) refl u

  -- bget answers the first buffer that has the block, with one more reference; if none has it, the last
  -- one without references, which it gives to the block; and it panics only if no buffer has the block
  -- and all of them are in use. No other buffer changes, and the order stays.
  pub bget_lem :
      (dev blockno : ℕ) (bs : List (Buf B)) → Outcome dev blockno bs (bget dev blockno bs)
  unfolding bget
  bget_lem dev blockno bs = go (look_up dev blockno bs) (look_up_lem dev blockno bs)
    where
      second :
          (o : Option (ℕ × List (Buf B)))
          → Absent dev blockno bs
          → Recycled dev blockno bs o
          → Outcome dev blockno bs o
      second _ a (last pre post b q z u) = miss pre post b a q z u
      second _ a (all_used u) = panics a u

      go :
          (o : Option (ℕ × List (Buf B)))
          → Looked dev blockno bs o
          → Outcome dev blockno bs (elim o [ some r ↦ some r | none ↦ recycle dev blockno bs ])
      go _ (there pre post b q a t) = hit pre post b q a t
      go _ (not_there a) = second (recycle dev blockno bs) a (recycle_lem dev blockno bs)
