-- ===== src/File/Handles.antt =====
-- The reference counts of the file table, and the handles on each file in the descriptors of the
-- processes.
use mc.Prelude.{
  ℕ, zero, suc, ◌+◌, ◌-◌, ◌<◌, ◌≡◌, refl, sym, ap, ◌∙◌, ◌⊎◌, inl, inr, List, [], ◌∷◌, ◌++◌, Bool,
  true, false, Option, none, some, arith, if◌then◌else◌, ◌==◌, ==_iff, ==_self, ltb, set, replicate,
  length, Bool-cases, some_inj, find_index, find_index-some, get_or-set, get_or_of_get_elem?,
  get_elem?-lt, IsFirst,
}
use mc.File.{
  File, fd_none, zero_file, nfile, file_at, filealloc, filedup, fileclose, Closing, still_open,
  closing,
}

abbrev pub count : ℕ → List ℕ → ℕ
count i [] = 0
count i (h ∷ hs) = if h == i then suc (count i hs) else count i hs

-- The tables that the operations reach, with the handles there are on the files of each.
pub data Open : List File → List ℕ → Type 0 where
  booted : Open (replicate nfile zero_file) []
  opens :
      {fs fs' : List File} {hs : List ℕ} (i : ℕ)
      → Open fs hs
      → filealloc fs ≡ (fs', some i)
      → Open fs' (i ∷ hs)
  -- the fields of a file change, but not its references
  changes :
      {fs : List File} (i : ℕ) (f : File) (before after : List ℕ)
      → Open fs (before ++ (i ∷ after))
      → f.ref ≡ (file_at fs i).ref
      → Open (set fs i f) (before ++ (i ∷ after))
  dups :
      {fs fs' : List File} (i : ℕ) (before after : List ℕ)
      → Open fs (before ++ (i ∷ after))
      → filedup i fs ≡ some fs'
      → Open fs' (i ∷ before ++ (i ∷ after))
  closes :
      {fs fs' : List File} {c : Closing} (i : ℕ) (before after : List ℕ)
      → Open fs (before ++ (i ∷ after))
      → fileclose i fs ≡ some (fs', c)
      → Open fs' (before ++ after)

abbrev pub Counts : List File → List ℕ → Type 0
Counts fs hs = (i : ℕ) → (file_at fs i).ref ≡ count i hs

count-append :
    (j i : ℕ) (before after : List ℕ)
    → count j (before ++ (i ∷ after)) ≡ count j (i ∷ before ++ after)
count-append j i [] after = refl
count-append j i (b ∷ before) after = elim (Bool-cases (b == j)) [
  | inl e ↦ elim (Bool-cases (i == j)) [
    | inl f ↦ let ih = count-append j i before after in rw (e, f) (ap suc (rw f at ih))
    | inr f ↦ let ih = count-append j i before after in rw (e, f) (ap suc (rw f at ih))
  ]
  | inr e ↦ rw e (count-append j i before after)
]

-- A file that has references is in the table.
in_table : (fs : List File) (i : ℕ) → 0 < (file_at fs i).ref → i < length fs
in_table [] i h = absurd (omega arith)
in_table (f ∷ fs) zero h = omega arith
in_table (f ∷ fs) (suc i) h = omega (arith, in_table fs i h)

-- Another number of references in one file.
Counts-set :
    (fs : List File) (i : ℕ) (f : File) (hs hs' : List ℕ)
    → i < length fs
    → f.ref ≡ count i hs'
    → ((j : ℕ) → (i == j) ≡ false → count j hs' ≡ count j hs)
    → Counts fs hs
    → Counts (set fs i f) hs'
Counts-set fs i f hs hs' l e same c j = elim (Bool-cases (i == j)) [
  | inl q ↦
      let p : i ≡ j = (==_iff i j).0 q in
      rw (get_or-set fs i j f zero_file l, q) (e ∙ ap (λ x. count x hs') p)
  | inr q ↦ rw (get_or-set fs i j f zero_file l, q) (c j ∙ sym (same j q))
]

-- The results of the operations.
filealloc-cases :
    (fs fs' : List File) (i : ℕ)
    → filealloc fs ≡ (fs', some i)
    → (i < length fs)
      × ((file_at fs i).ref ≡ 0)
      × (fs' ≡ set fs i (record (file_at fs i) { ref = 1 }))
unfolding filealloc
filealloc-cases fs fs' i h =
    go (find_index (λ f. f.ref == 0) fs) (find_index-some (λ f. f.ref == 0) fs) h
  where
    go :
        (o : Option ℕ)
        → ((k : ℕ) → o ≡ some k → IsFirst (λ f. f.ref == 0) fs k)
        → ◌≡◌ {A = List File × Option ℕ}
            (elim o [
              | none ↦ (fs, none)
              | some i ↦ (set fs i (record (file_at fs i) { ref = 1 }), some i)
            ])
            (fs', some i)
        → (i < length fs)
          × ((file_at fs i).ref ≡ 0)
          × (fs' ≡ set fs i (record (file_at fs i) { ref = 1 }))
    go none first e = absurd (ground (arith, ap (λ r. r.1) e))
    go (some k) first e =
        let q : k ≡ i = some_inj k i (ap (λ r. r.1) e) in
        let f = first i (ap some q) in
        let a : file_at fs i ≡ f.item = get_or_of_get_elem? fs i zero_file f.item f.here in
        (
          get_elem?-lt fs i f.item f.here,
          rw a ((==_iff f.item.ref 0).0 f.passes),
          sym (ap (λ r. r.0) e) ∙ ap (λ x. set fs x (record (file_at fs x) { ref = 1 })) q,
        )

filedup-cases :
    (fs fs' : List File) (i : ℕ)
    → filedup i fs ≡ some fs'
    → (0 < (file_at fs i).ref)
      × (fs' ≡ set fs i (record (file_at fs i) { ref = (file_at fs i).ref + 1 }))
unfolding filedup
filedup-cases fs fs' i h = elim (Bool-cases (ltb (file_at fs i).ref 1)) [
  | inl e ↦ absurd (ground (arith, rw e at h))
  | inr e ↦ (ground (arith, e), sym (some_inj _ _ (rw e at h)))
]

fileclose-cases :
    (fs fs' : List File) (c : Closing) (i : ℕ)
    → fileclose i fs ≡ some (fs', c)
    → (0 < (file_at fs i).ref)
      × ((f : File) × (f.ref ≡ (file_at fs i).ref - 1) × (fs' ≡ set fs i f))
unfolding fileclose
fileclose-cases fs fs' c i h = go (ltb (file_at fs i).ref 1) _ refl refl h
  where
    go :
        (x y : Bool)
        → ltb (file_at fs i).ref 1 ≡ x
        → ltb 0 ((file_at fs i).ref - 1) ≡ y
        → ◌≡◌ {A = Option (List File × Closing)}
            (if x
              then none
              else if y
              then some
                  (set fs i (record (file_at fs i) { ref = (file_at fs i).ref - 1 }), still_open)
              else some (
                set fs i (record (file_at fs i) { ref = 0; type = fd_none }),
                closing (file_at fs i),
              ))
            (some (fs', c))
        → (0 < (file_at fs i).ref)
          × ((f : File) × (f.ref ≡ (file_at fs i).ref - 1) × (fs' ≡ set fs i f))
    go true y a b e = absurd (ground arith)
    go false true a b e = (ground (arith, a), (_, refl, sym (ap (λ r. r.0) (some_inj _ _ e))))
    go false false a b e =
        (ground (arith, a), (_, ground (arith, b), sym (ap (λ r. r.0) (some_inj _ _ e))))

file_at-replicate : (n i : ℕ) → (file_at (replicate n zero_file) i).ref ≡ 0
file_at-replicate zero i = refl
file_at-replicate (suc n) zero = refl
file_at-replicate (suc n) (suc i) = file_at-replicate n i

count_handle :
    (i : ℕ) (before after : List ℕ)
    → count i (before ++ (i ∷ after)) ≡ suc (count i (before ++ after))
count_handle i before after = count-append i i before after ∙ rw (==_self i)

Open-Counts : {fs : List File} {hs : List ℕ} → Open fs hs → Counts fs hs
Open-Counts booted = file_at-replicate nfile
Open-Counts (opens {fs} {fs'} {hs} i o e) =
    let (l, z, q) = filealloc-cases fs fs' i e in
    let c = Open-Counts o in
    rw q (Counts-set fs i _ hs (i ∷ hs) l (rw (==_self i, sym (c i) ∙ z)) (λ j d. rw d) c)
Open-Counts (changes {fs} i f before after o e) =
    let c = Open-Counts o in
    let k = count_handle i before after in
    Counts-set fs i f (before ++ (i ∷ after)) (before ++ (i ∷ after))
      (in_table fs i (omega (arith, c i, k))) (e ∙ c i) (λ j d. refl) c
Open-Counts (dups {fs} {fs'} i before after o e) =
    let (l, q) = filedup-cases fs fs' i e in
    let c = Open-Counts o in
    rw q (
      Counts-set fs i _ (before ++ (i ∷ after)) (i ∷ before ++ (i ∷ after)) (in_table fs i l)
        (rw (==_self i, ← (c i)) (omega arith)) (λ j d. rw d) c)
Open-Counts (closes {fs} {fs'} i before after o e) =
    let (l, (f, r, q)) = fileclose-cases fs fs' _ i e in
    let c = Open-Counts o in
    rw q (
      Counts-set fs i f (before ++ (i ∷ after)) (before ++ after) (in_table fs i l)
        (omega (arith, r, c i, count_handle i before after))
        (λ j d. sym (count-append j i before after ∙ rw d)) c)

close_open :
    (fs : List File) (i : ℕ)
    → ltb (file_at fs i).ref 1 ≡ false
    → ltb 0 ((file_at fs i).ref - 1) ≡ true
    → (fs' : List File) × (fileclose i fs ≡ some (fs', still_open))
unfolding fileclose
close_open fs i e f = (set fs i (record (file_at fs i) { ref = (file_at fs i).ref - 1 }), rw (e, f))

close_last :
    (fs : List File) (i : ℕ)
    → ltb (file_at fs i).ref 1 ≡ false
    → ltb 0 ((file_at fs i).ref - 1) ≡ false
    → (fs' : List File) × (fileclose i fs ≡ some (fs', closing (file_at fs i)))
unfolding fileclose
close_last fs i e f = (set fs i (record (file_at fs i) { ref = 0; type = fd_none }), rw (e, f))

-- In every table that the operations reach, fileclose of a handle does not panic, and it closes the pipe
-- or gives up the inode exactly when no other handle on the file is left.
pub fileclose_lem :
    {fs : List File} (i : ℕ) (before after : List ℕ)
    → Open fs (before ++ (i ∷ after))
    → ((0 < count i (before ++ after))
        × ((fs' : List File) × (fileclose i fs ≡ some (fs', still_open))))
      ⊎ ((count i (before ++ after) ≡ 0)
          × ((fs' : List File) × (fileclose i fs ≡ some (fs', closing (file_at fs i)))))
fileclose_lem {fs} i before after o =
    let r : (file_at fs i).ref ≡ suc (count i (before ++ after)) =
      Open-Counts o i ∙ count_handle i before after in
    let e : ltb (file_at fs i).ref 1 ≡ false = ground (arith, r) in
    elim (Bool-cases (ltb 0 ((file_at fs i).ref - 1))) [
      | inl f ↦ inl (ground (arith, r, f), close_open fs i e f)
      | inr f ↦ inr (ground (arith, r, f), close_last fs i e f)
    ]

-- In every table that the operations reach, filealloc gives out only a file of the table on which there is
-- no handle.
pub filealloc_lem :
    {fs fs' : List File} {hs : List ℕ} (i : ℕ)
    → Open fs hs
    → filealloc fs ≡ (fs', some i)
    → (i < length fs) × (count i hs ≡ 0)
filealloc_lem {fs} {fs'} i o e =
    let (l, z, q) = filealloc-cases fs fs' i e in (l, sym (Open-Counts o i) ∙ z)
