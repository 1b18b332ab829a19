-- ===== src/Log/Crash.antt =====
-- The disk writes of a commit, cut at any point, and the recovery from them.
use mc.Prelude.{
  take-nil, take-append, ℕ, suc, ◌+◌, ◌≤◌, ◌<◌, ◌≡◌, refl, ap, ◌∙◌, ◌⊎◌, inl, inr, List, [], ◌∷◌,
  ◌++◌, true, false, not, arith, if◌then◌else◌, ◌==◌, ltb, length, take, Bool-cases, All, ==_self,
}
use mc.Log.{
  Disk, Log, DiskWrite, write_header, apply, apply_all, write_log, install_trans, log_writes,
  install_writes, commit_writes, recover, commit,
}
use mc.Log.Writes.{
  mem, outside, AllOutside, Touches, Touches-take, block-apply_all, header-apply_all,
  apply_all-append, LogHolds, LogHolds-same, Touches-write_log, LogHolds-write_log,
  Touches-install_trans, install_trans_lem,
}

-- The members of a list pass the test of membership.
All-mem :
    (bs whole : List ℕ)
    → ((b : ℕ) → mem b bs ≡ true → mem b whole ≡ true)
    → All (λ b. mem b whole ≡ true) bs
All-mem [] whole f = tt
All-mem (b ∷ bs) whole f = (f b (rw (==_self b)), All-mem bs whole (λ c m. f c (ground (arith, m))))

mem-none : (a : ℕ) (bs : List ℕ) → ltb 0 (length bs) ≡ false → mem a bs ≡ false
mem-none a [] h = refl
mem-none a (b ∷ bs) h = ground (arith, h)

module _ {B : Type 0} where
  -- Between two commits: the header on the disk is clear, and no logged block is in the log itself.
  pub record IsSafe (l : Log B) : Type 0 where
    pub clear : l.disk.header ≡ []
    pub apart : AllOutside l.start (length l.lh) l.lh

  -- What the disk is to hold after the commit.
  abbrev pub committed : Log B → ℕ → B
  committed l a = if mem a l.lh then l.cache a else l.disk.block a

  abbrev pub Home : Log B → ℕ → Type 0
  Home l a = outside l.start (length l.lh) a ≡ true

  -- The two disks that a crash may leave behind, outside the log.
  abbrev pub IsBefore : Log B → Disk B → Type 0
  IsBefore l d = (a : ℕ) → Home l a → d.block a ≡ l.disk.block a

  abbrev pub IsAfter : Log B → Disk B → Type 0
  IsAfter l d = (a : ℕ) → Home l a → d.block a ≡ committed l a

  recover_clear :
      (start : ℕ) (d : Disk B) (a : ℕ) → d.header ≡ [] → (recover start d).block a ≡ d.block a
  unfolding recover
  recover_clear start d a h = rw h

  module _ (l : Log B) (safe : IsSafe l) where
    abbrev logged : Disk B
    logged = apply_all (log_writes l) l.disk

    Touches-log :
        (k : ℕ)
        → Touches
            (λ a. not (outside l.start (length l.lh) a))
            (take k (write_log l.start 0 l.cache l.lh))
    Touches-log k =
        Touches-take _ k _ (Touches-write_log l.start 0 l.cache l.lh _ (λ i p q. ground arith))

    log-IsBefore :
        (k : ℕ)
        → IsBefore l
            (recover l.start (apply_all (take k (write_log l.start 0 l.cache l.lh)) l.disk))
    log-IsBefore k a h =
        recover_clear l.start _ a (header-apply_all _ _ l.disk (Touches-log k) ∙ safe.clear)
        ∙ block-apply_all _ _ l.disk a (Touches-log k) (ground arith)

    header-logged : logged.header ≡ l.lh
    unfolding log_writes
    header-logged =
        ap (λ (d : Disk B). d.header) (apply_all-append (write_log l.start 0 l.cache l.lh) _ l.disk)

    block-logged : (a : ℕ) → Home l a → logged.block a ≡ l.disk.block a
    unfolding log_writes
    block-logged a h =
        ap (λ (d : Disk B). d.block a)
          (apply_all-append (write_log l.start 0 l.cache l.lh) _ l.disk)
        ∙ block-apply_all (λ b. not (outside l.start (length l.lh) b)) _ l.disk a
            (Touches-write_log l.start 0 l.cache l.lh _ (λ i p q. ground arith)) (ground arith)

    LogHolds-logged : LogHolds l.start 0 l.cache l.lh logged
    unfolding log_writes
    LogHolds-logged =
        LogHolds-same l.start 0 l.cache l.lh (apply_all (write_log l.start 0 l.cache l.lh) l.disk)
          logged
          (λ i p q.
            ap (λ (d : Disk B). d.block (l.start + i))
              (apply_all-append (write_log l.start 0 l.cache l.lh) _ l.disk))
          (LogHolds-write_log l.start 0 l.cache l.lh l.disk)

    Touches-install :
        (j : ℕ) → Touches (λ a. mem a l.lh) (take j (install_trans l.start 0 l.lh logged))
    Touches-install j =
        Touches-take _ j _
          (Touches-install_trans l.start 0 l.lh logged _ (All-mem l.lh l.lh (λ b m. m)))

    -- No block of the log is a logged block.
    log_not_mem :
        (i : ℕ) (bs : List ℕ)
        → AllOutside l.start (length l.lh) bs
        → 0 < i
        → i ≤ length l.lh
        → mem (l.start + i) bs ≡ false
    log_not_mem i [] o p q = refl
    log_not_mem i (b ∷ bs) o p q =
        let e : (b == l.start + i) ≡ false = ground (arith, o.0) in rw (e, log_not_mem i bs o.1 p q)

    install-IsAfter :
        (j : ℕ)
        → IsAfter l
            (recover l.start (apply_all (take j (install_trans l.start 0 l.lh logged)) logged))
    unfolding recover
    install-IsAfter j a h =
        let d : Disk B = apply_all (take j (install_trans l.start 0 l.lh logged)) logged in
        let e : d.header ≡ l.lh = header-apply_all _ _ logged (Touches-install j) ∙ header-logged in
        let holds : LogHolds l.start 0 l.cache l.lh d =
          LogHolds-same l.start 0 l.cache l.lh logged d
            (λ i p q.
              block-apply_all _ _ logged (l.start + i) (Touches-install j)
                (log_not_mem i l.lh safe.apart p (omega arith)))
            LogHolds-logged in
        let same : (mem a l.lh ≡ false) → d.block a ≡ l.disk.block a =
          λ m. block-apply_all _ _ logged a (Touches-install j) m ∙ block-logged a h in
        let back : (if mem a l.lh then l.cache a else d.block a) ≡ committed l a =
          elim (Bool-cases (mem a l.lh)) [ inl m ↦ rw m | inr m ↦ rw m (same m) ] in
        rw e (
          install_trans_lem l.start 0 (length l.lh) l.cache l.lh d a (omega arith) safe.apart holds
          ∙ back)

    committed_install :
        IsAfter l (apply (write_header []) (apply_all (install_trans l.start 0 l.lh logged) logged))
    committed_install a h =
        install_trans_lem l.start 0 (length l.lh) l.cache l.lh logged a (omega arith) safe.apart
          LogHolds-logged
        ∙ rw (block-logged a h)

    recover-committed_install : IsAfter l (
        recover l.start
          (apply (write_header []) (apply_all (install_trans l.start 0 l.lh logged) logged)))
    recover-committed_install a h =
        recover_clear l.start
          (apply (write_header []) (apply_all (install_trans l.start 0 l.lh logged) logged)) a refl
        ∙ committed_install a h

    header-recover : (d : Disk B) → (recover l.start d).header ≡ []
    unfolding recover
    header-recover d = refl

    -- The three stretches of a commit.
    log_stretch :
        (k : ℕ)
        → IsBefore l (recover l.start (apply_all (take k (log_writes l)) l.disk))
          ⊎ IsAfter l (recover l.start (apply_all (take k (log_writes l)) l.disk))
    unfolding log_writes
    log_stretch k =
        elim (take-append k (write_log l.start 0 l.cache l.lh) (write_header l.lh ∷ [])) [
          | inl e ↦ inl (rw e (log-IsBefore k))
          | inr (j, e) ↦ inr (rw (e, take-nil {A = DiskWrite B} j) (install-IsAfter 0))
        ]

    install_stretch :
        (j : ℕ) → IsAfter l (recover l.start (apply_all (take j (install_writes l)) logged))
    unfolding install_writes
    install_stretch j =
        elim (take-append j (install_trans l.start 0 l.lh logged) (write_header [] ∷ [])) [
          | inl e ↦ rw e (install-IsAfter j)
          | inr (i, e) ↦
              rw
                (
                  e,
                  take-nil {A = DiskWrite B} i,
                  apply_all-append (install_trans l.start 0 l.lh logged) (write_header [] ∷ [])
                      logged,
                )
                recover-committed_install
        ]

    commit_stretch :
        (k : ℕ)
        → IsBefore l
            (recover l.start (apply_all (take k (log_writes l ++ install_writes l)) l.disk))
          ⊎ IsAfter l
              (recover l.start (apply_all (take k (log_writes l ++ install_writes l)) l.disk))
    commit_stretch k = elim (take-append k (log_writes l) (install_writes l)) [
      | inl e ↦ rw e (log_stretch k)
      | inr (j, e) ↦ inr (
          rw (e, apply_all-append (log_writes l) (take (suc j) (install_writes l)) l.disk)
            (install_stretch (suc j)))
    ]

  -- Wherever in its disk writes a commit is cut off, recovery clears the header and leaves, of the blocks
  -- outside the log, either each one as it was before the commit, or each logged one with its cached
  -- contents and the others as they were. The log must be safe: its header on the disk clear, and no
  -- logged block within the log.
  pub crash_atomic :
      (l : Log B) (k : ℕ)
      → IsSafe l
      → (((recover l.start (apply_all (take k (commit_writes l)) l.disk)).header ≡ [])
          × (IsBefore l (recover l.start (apply_all (take k (commit_writes l)) l.disk))
              ⊎ IsAfter l (recover l.start (apply_all (take k (commit_writes l)) l.disk))))
  unfolding commit_writes
  crash_atomic l k safe = (
    header-recover l safe _,
    elim (Bool-cases (ltb 0 (length l.lh))) [
      | inl e ↦ rw e (commit_stretch l safe k)
      | inr e ↦
          rw (e, take-nil {A = DiskWrite B} k)
            (inl (λ a h. recover_clear l.start l.disk a safe.clear))
    ],
  )

  all_writes :
      (l : Log B)
      → apply_all (log_writes l ++ install_writes l) l.disk
        ≡ apply (write_header []) (
            apply_all
              (install_trans l.start 0 l.lh (apply_all (log_writes l) l.disk))
              (apply_all (log_writes l) l.disk))
  unfolding install_writes
  all_writes l =
      apply_all-append (log_writes l) _ l.disk
      ∙ apply_all-append (install_trans l.start 0 l.lh (apply_all (log_writes l) l.disk)) _ _

  -- A commit of a safe log that is not cut off empties the log in memory and the header on the disk, and
  -- puts the cached contents of every logged block in place, the other blocks outside the log unchanged.
  pub commit_lem :
      (l : Log B)
      → IsSafe l
      → ((commit l).lh ≡ []) × ((commit l).disk.header ≡ []) × IsAfter l (commit l).disk
  unfolding commit commit_writes
  commit_lem l safe = elim (Bool-cases (ltb 0 (length l.lh))) [
    | inl e ↦
        (refl, rw (e, all_writes l), λ a h. rw (e, all_writes l) (committed_install l safe a h))
    | inr e ↦ (refl, rw e safe.clear, λ a h. rw (e, mem-none a l.lh e))
  ]
