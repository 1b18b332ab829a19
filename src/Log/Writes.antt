-- ===== src/Log/Writes.antt =====
-- Lists of disk writes: which blocks they touch, and what the log blocks hold after them.
use mc.Prelude.{
  ℕ, zero, suc, ◌+◌, ◌≤◌, ◌<◌, ◌≡◌, refl, ap, ◌∙◌, inl, inr, List, [], ◌∷◌, ◌++◌, Bool, true, false,
  ◌||◌, ==_self, arith, if◌then◌else◌, ◌==◌, ==_iff, ltb, length, take, Bool-cases, All,
}
use mc.Log.{Disk, DiskWrite, write_block, write_header, apply, apply_all, write_log, install_trans}

abbrev pub mem : ℕ → List ℕ → Bool
mem a [] = false
mem a (b ∷ bs) = b == a || mem a bs

-- The blocks that are neither the header of the log nor among its `n` entries.
abbrev pub outside : (start n a : ℕ) → Bool
outside start n a = ltb a start || ltb (start + n) a

abbrev pub AllOutside : (start n : ℕ) → List ℕ → Type 0
AllOutside start n bs = All (λ b. outside start n b ≡ true) bs

not_same : (P : ℕ → Bool) (a b : ℕ) → P b ≡ true → P a ≡ false → (b == a) ≡ false
not_same P a b t h = elim (Bool-cases (b == a)) [
  | inl e ↦ let q : b ≡ a = (==_iff b a).0 e in absurd (cc)
  | inr e ↦ e
]

module _ {B : Type 0} where
  -- Every write is of a block that passes the test.
  abbrev pub Touches : (ℕ → Bool) → List (DiskWrite B) → Type 0
  Touches P [] = Unit
  Touches P (write_block a b ∷ ws) = (P a ≡ true) × Touches P ws
  Touches P (write_header h ∷ ws) = ⊥

  pub Touches-take :
      (P : ℕ → Bool) (k : ℕ) (ws : List (DiskWrite B)) → Touches P ws → Touches P (take k ws)
  Touches-take P zero ws t = tt
  Touches-take P (suc k) [] t = tt
  Touches-take P (suc k) (write_block a b ∷ ws) t = (t.0, Touches-take P k ws t.1)
  Touches-take P (suc k) (write_header h ∷ ws) t = absurd t

  pub block-apply_all :
      (P : ℕ → Bool) (ws : List (DiskWrite B)) (d : Disk B) (a : ℕ)
      → Touches P ws
      → P a ≡ false
      → (apply_all ws d).block a ≡ d.block a
  block-apply_all P [] d a t h = refl
  block-apply_all P (write_block b x ∷ ws) d a t h =
      block-apply_all P ws (apply (write_block b x) d) a t.1 h ∙ rw (not_same P a b t.0 h)
  block-apply_all P (write_header g ∷ ws) d a t h = absurd t

  pub header-apply_all :
      (P : ℕ → Bool) (ws : List (DiskWrite B)) (d : Disk B)
      → Touches P ws
      → (apply_all ws d).header ≡ d.header
  header-apply_all P [] d t = refl
  header-apply_all P (write_block b x ∷ ws) d t =
      header-apply_all P ws (apply (write_block b x) d) t.1
  header-apply_all P (write_header g ∷ ws) d t = absurd t

  pub apply_all-append :
      (xs ys : List (DiskWrite B)) (d : Disk B)
      → apply_all (xs ++ ys) d ≡ apply_all ys (apply_all xs d)
  apply_all-append [] ys d = refl
  apply_all-append (x ∷ xs) ys d = apply_all-append xs ys (apply x d)

  -- The blocks of the log, from entry `tail` on, hold what the cache has of the logged blocks.
  abbrev pub LogHolds : (start tail : ℕ) → (ℕ → B) → List ℕ → Disk B → Type 0
  LogHolds start tail cache [] d = Unit
  LogHolds start tail cache (b ∷ bs) d =
      (d.block (start + tail + 1) ≡ cache b) × LogHolds start (tail + 1) cache bs d

  -- It does, if it did in a disk with the same log blocks.
  pub LogHolds-same :
      (start tail : ℕ) (cache : ℕ → B) (bs : List ℕ) (d d' : Disk B)
      → ((i : ℕ) → tail < i → i ≤ tail + length bs → d'.block (start + i) ≡ d.block (start + i))
      → LogHolds start tail cache bs d
      → LogHolds start tail cache bs d'
  LogHolds-same start tail cache [] d d' same h = tt
  LogHolds-same start tail cache (b ∷ bs) d d' same h = (
    ap d'.block (omega arith)
        ∙ same (tail + 1) (omega arith) (omega arith)
        ∙ ap d.block (omega arith)
        ∙ h.0,
    LogHolds-same start (tail + 1) cache bs d d' (λ i l u. same i (omega arith) (omega arith)) h.1,
  )

  -- write_log touches the log blocks only, and leaves the cached contents in them.
  pub Touches-write_log :
      (start tail : ℕ) (cache : ℕ → B) (bs : List ℕ) (P : ℕ → Bool)
      → ((i : ℕ) → tail < i → i ≤ tail + length bs → P (start + i) ≡ true)
      → Touches P (write_log start tail cache bs)
  unfolding write_log
  Touches-write_log start tail cache [] P h = tt
  Touches-write_log start tail cache (b ∷ bs) P h = (
    ap P (omega arith) ∙ h (tail + 1) (omega arith) (omega arith),
    Touches-write_log start (tail + 1) cache bs P (λ i l u. h i (omega arith) (omega arith)),
  )

  pub LogHolds-write_log :
      (start tail : ℕ) (cache : ℕ → B) (bs : List ℕ) (d : Disk B)
      → LogHolds start tail cache bs (apply_all (write_log start tail cache bs) d)
  unfolding write_log
  LogHolds-write_log start tail cache [] d = tt
  LogHolds-write_log start tail cache (b ∷ bs) d = (
    block-apply_all (λ a. ltb (start + tail + 1) a) (write_log start (tail + 1) cache bs) _
          (start + tail + 1) (Touches-write_log start (tail + 1) cache bs _ (λ i l u. ground arith))
          (ground arith)
        ∙ rw (==_self (start + tail + 1)),
    LogHolds-write_log start (tail + 1) cache bs _,
  )

  -- install_trans touches the logged blocks only.
  pub Touches-install_trans :
      (start tail : ℕ) (bs : List ℕ) (d : Disk B) (P : ℕ → Bool)
      → All (λ b. P b ≡ true) bs
      → Touches P (install_trans start tail bs d)
  unfolding install_trans
  Touches-install_trans start tail [] d P h = tt
  Touches-install_trans start tail (b ∷ bs) d P h =
      (h.0, Touches-install_trans start (tail + 1) bs _ P h.1)

  -- From a log that holds the cached contents install_trans brings every logged block in place.
  pub install_trans_lem :
      (start tail n : ℕ) (cache : ℕ → B) (bs : List ℕ) (d : Disk B) (a : ℕ)
      → tail + length bs ≤ n
      → AllOutside start n bs
      → LogHolds start tail cache bs d
      → (apply_all (install_trans start tail bs d) d).block a
        ≡ (if mem a bs then cache a else d.block a)
  unfolding install_trans
  install_trans_lem start tail n cache [] d a l o h = refl
  install_trans_lem start tail n cache (b ∷ bs) d a l o h =
      let w : DiskWrite B = write_block b (d.block (start + tail + 1)) in
      install_trans_lem start (tail + 1) n cache bs (apply w d) a (omega arith) o.1 (
        LogHolds-same start (tail + 1) cache bs d (apply w d)
          (λ i u v. let e : (b == start + i) ≡ false = ground (arith, o.0) in rw e) h.1)
      ∙ (elim (Bool-cases (b == a)) [
        | inl e ↦
            let q : b ≡ a = (==_iff b a).0 e in rw (e, h.0, q) (same_both (mem a bs) (cache a))
        | inr e ↦ rw e
      ])
    where
      same_both : (t : Bool) (x : B) → (if t then x else x) ≡ x
      same_both true x = refl
      same_both false x = refl
