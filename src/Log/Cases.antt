-- ===== src/Log/Cases.antt =====
-- The results of begin_op, log_write and end_op, where they have one.
use mc.Prelude.{
  ℕ, ◌+◌, ◌-◌, ◌*◌, ◌≤◌, ◌≡◌, refl, sym, ◌⊎◌, inl, inr, [], ◌∷◌, ◌++◌, Bool, true, false, ◌||◌,
  arith, if◌then◌else◌, ◌==◌, ltb, leb, length, update, Option, none, some, sub32, find_index,
  some_inj,
}
use mc.Log.{Log, begin_op, end_op, log_write, commit, maxopblocks, logsize}

module _ {B : Type 0} where
  pub begin_op-cases :
      (l l' : Log B)
      → l.committing ≡ false
      → begin_op l ≡ some l'
      → (length l.lh + (l.outstanding + 1) * maxopblocks ≤ logsize)
        × (l' ≡ record l { outstanding = l.outstanding + 1 })
  unfolding begin_op
  begin_op-cases l l' idle h = go l.committing _ idle (λ e. ground (arith, e)) h
    where
      go :
          (c f : Bool)
          → c ≡ false
          → (f ≡ false → length l.lh + (l.outstanding + 1) * maxopblocks ≤ logsize)
          → (if c
              then none
              else if f
              then none
              else some (record l { outstanding = l.outstanding + 1 }))
            ≡ some l'
          → (length l.lh + (l.outstanding + 1) * maxopblocks ≤ logsize)
            × (l' ≡ record l { outstanding = l.outstanding + 1 })
      go true f i b e = absurd (ground arith)
      go false true i b e = absurd (ground arith)
      go false false i b e = (b refl, sym (some_inj _ _ e))

  pub log_write-cases :
      (b : ℕ) (l l' : Log B)
      → log_write b l ≡ some l'
      → (l' ≡ l) ⊎ (l' ≡ record l { lh = l.lh ++ (b ∷ []); pins = update l.pins b (l.pins b + 1) })
  unfolding log_write
  log_write-cases b l l' h =
      go (leb logsize (length l.lh) || leb (l.size - 1) (length l.lh)) (ltb l.outstanding 1)
        (find_index (λ a. a == b) l.lh) h
    where
      go :
          (f o : Bool) (i : Option ℕ)
          → (if f
              then none
              else if o
              then none
              else some (elim i [
                | some i ↦ l
                | none ↦ record l { lh = l.lh ++ (b ∷ []); pins = update l.pins b (l.pins b + 1) }
              ]))
            ≡ some l'
          → (l' ≡ l)
            ⊎ (l' ≡ record l { lh = l.lh ++ (b ∷ []); pins = update l.pins b (l.pins b + 1) })
      go true o i e = absurd (ground arith)
      go false true i e = absurd (ground arith)
      go false false none e = inr (sym (some_inj _ _ e))
      go false false (some i) e = inl (sym (some_inj _ _ e))

  pub end_op-cases :
      (l l' : Log B)
      → end_op l ≡ some l'
      → (l'
          ≡ record (commit (record l { outstanding = sub32 l.outstanding 1; committing = true })) {
            committing = false;
          })
        ⊎ (l' ≡ record l { outstanding = sub32 l.outstanding 1 })
  unfolding end_op
  end_op-cases l l' h = go l.committing (sub32 l.outstanding 1 == 0) h
    where
      go :
          (c z : Bool)
          → (if c
              then none
              else if z
              then some
                  (record (commit
                    (record l { outstanding = sub32 l.outstanding 1; committing = true })) {
                      committing = false;
                    })
              else some (record l { outstanding = sub32 l.outstanding 1 }))
            ≡ some l'
          → (l'
              ≡ record (commit
                  (record l { outstanding = sub32 l.outstanding 1; committing = true })) {
                    committing = false;
                  })
            ⊎ (l' ≡ record l { outstanding = sub32 l.outstanding 1 })
      go true z e = absurd (ground arith)
      go false true e = inl (sym (some_inj _ _ e))
      go false false e = inr (sym (some_inj _ _ e))
