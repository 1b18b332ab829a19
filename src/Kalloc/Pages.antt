-- ===== src/Kalloc/Pages.antt =====
-- The free list in memory, and the list of the free pages that it stands for.
use mc.Prelude.{
  ℕ, zero, suc, ◌+◌, ◌-◌, ◌*◌, ◌%◌, ◌/◌, ◌≤◌, ◌<◌, ◌≡◌, refl, ◌⊎◌, inl, inr, List, [], ◌∷◌, true,
  false, some, arith, ◌==◌, ==_self, leb, update, All,
}
use mc.Kalloc.{
  Kmem, phystop, page_size, pg_round_up, is_bad, kfree, kalloc, free_from, kinit, junk_free,
  junk_alloc,
}

-- `Chain word r ps`: the links from `r` on lead through the pages `ps` and end in a null pointer.
abbrev pub Chain : (ℕ → ℕ) → ℕ → List ℕ → Type 0
Chain word r [] = r ≡ 0
Chain word r (p ∷ ps) = (r ≡ p) × ((p == 0) ≡ false) × Chain word (word p) ps

abbrev pub NotIn : ℕ → List ℕ → Type 0
NotIn a ps = All (λ p. (a == p) ≡ false) ps

abbrev pub Distinct : List ℕ → Type 0
Distinct [] = Unit
Distinct (p ∷ ps) = NotIn p ps × Distinct ps

-- The allocator has the free pages `ps`, the first to be handed out first; each is a page of the memory
-- that it manages, and none is there twice.
pub record Holds (image_end : ℕ) (k : Kmem) (ps : List ℕ) : Type 0 where
  pub chain : Chain k.word k.freelist ps
  pub distinct : Distinct ps
  pub good : All (λ p. is_bad image_end p ≡ false) ps

Chain-update :
    (word : ℕ → ℕ) (a x r : ℕ) (ps : List ℕ)
    → NotIn a ps
    → Chain word r ps
    → Chain (update word a x) r ps
Chain-update word a x r [] n c = c
Chain-update word a x r (p ∷ ps) n c =
    (c.0, c.1, rw n.0 (Chain-update word a x (word p) ps n.1 c.2))

-- kfree of a page that is not free puts it first on the list of the free pages.
pub kfree_lem :
    (image_end pa : ℕ) (k : Kmem) (ps : List ℕ)
    → 0 < image_end
    → Holds image_end k ps
    → NotIn pa ps
    → is_bad image_end pa ≡ false
    → (k' : Kmem) × (kfree image_end pa k ≡ some k') × Holds image_end k' (pa ∷ ps)
unfolding kfree
kfree_lem image_end pa k ps pos h n g =
    let w : ℕ → ℕ = update (update k.word pa junk_free) pa k.freelist in
    (
      record { freelist = pa; word = w },
      rw g,
      record {
        chain = (
          refl,
          nonzero,
          rw (==_self pa) (
              Chain-update _ pa k.freelist k.freelist ps n
                (Chain-update k.word pa junk_free k.freelist ps n h.chain)),
        );
        distinct = (n, h.distinct);
        good = (g, h.good);
      },
    )
  where
    nonzero : (pa == 0) ≡ false
    nonzero = ground (arith, g)

-- kalloc answers 0 and changes nothing if there is no free page, else it takes the first one off.
pub kalloc_lem :
    (image_end : ℕ) (k : Kmem) (ps : List ℕ)
    → Holds image_end k ps
    → ((ps ≡ []) × (kalloc k ≡ (0, k)))
      ⊎ ((p : ℕ) × (rest : List ℕ) × (ps ≡ p ∷ rest)
          × ((kalloc k).0 ≡ p)
          × NotIn p rest
          × Holds image_end (kalloc k).1 rest)
unfolding kalloc
kalloc_lem image_end k [] h = inl (refl, rw h.chain)
kalloc_lem image_end k (p ∷ ps) h =
    let e : (k.freelist == 0) ≡ false = rw h.chain.0 h.chain.1 in
    let same : k.freelist ≡ p = h.chain.0 in
    inr (
      p,
      ps,
      refl,
      rw e h.chain.0,
      h.distinct.0,
      rw e (record {
        chain = rw same (Chain-update k.word p junk_alloc (k.word p) ps h.distinct.0 h.chain.2);
        distinct = h.distinct.1;
        good = h.good.1;
      }),
    )

-- the `n` pages from page `p` on, the last one first
abbrev pub pages_from : (n p : ℕ) → List ℕ → List ℕ
pages_from zero p ps = ps
pages_from (suc n) p ps = pages_from n (p + page_size) (p ∷ ps)

-- Pages from `p` on are not yet in the list.
abbrev pub Below : ℕ → List ℕ → Type 0
Below p ps = All (λ q. q < p) ps

NotIn-Below : (p : ℕ) (ps : List ℕ) → Below p ps → NotIn p ps
NotIn-Below p [] b = tt
NotIn-Below p (q ∷ ps) b = let l : q < p = b.0 in (ground arith, NotIn-Below p ps b.1)

Below-grow : (p p' : ℕ) (ps : List ℕ) → p ≤ p' → Below p ps → Below p' ps
Below-grow p p' [] l b = tt
Below-grow p p' (q ∷ ps) l b = (omega (arith, b.0), Below-grow p p' ps l b.1)

-- The loop of freerange over `n` pages.
free_from_lem :
    (n fuel image_end p pa_end : ℕ) (k : Kmem) (ps : List ℕ)
    → n < fuel
    → 0 < image_end
    → image_end ≤ p
    → pa_end ≤ phystop
    → p % page_size ≡ 0
    → p + n * page_size ≤ pa_end
    → pa_end < p + (n + 1) * page_size
    → Below p ps
    → Holds image_end k ps
    → (k' : Kmem) × (free_from fuel image_end p pa_end k ≡ some k')
      × Holds image_end k' (pages_from n p ps)
unfolding free_from
free_from_lem n zero image_end p pa_end k ps f pos lo hi al in_range top b h = absurd (omega arith)
free_from_lem zero (suc fuel) image_end p pa_end k ps f pos lo hi al in_range top b h =
    let e : leb (p + page_size) pa_end ≡ false = ground arith in (k, rw (free_from, e), h)
free_from_lem (suc n) (suc fuel) image_end p pa_end k ps f pos lo hi al in_range top b h =
    let e : leb (p + page_size) pa_end ≡ true = ground arith in
    let g : is_bad image_end p ≡ false = ground arith in
    let (k1, e1, h1) = kfree_lem image_end p k ps pos h (NotIn-Below p ps b) g in
    let (k', e', h') =
      free_from_lem n fuel image_end (p + page_size) pa_end k1 (p ∷ ps) (omega arith) pos
        (omega arith) hi (omega arith) (omega arith) (omega arith)
        (omega arith, Below-grow p (p + page_size) ps (omega arith) b) h1 in
    (k', rw (free_from, e, e1) e', h')

-- kinit ends, does not panic, and frees every whole page between the end of the kernel's image and the
-- end of the memory, each once. The image lies within the memory.
pub kinit_lem :
    (image_end : ℕ) (word : ℕ → ℕ)
    → 0 < image_end
    → pg_round_up image_end ≤ phystop
    → (k : Kmem) × (kinit image_end word ≡ some k)
      × Holds image_end k
          (pages_from ((phystop - pg_round_up image_end) / page_size) (pg_round_up image_end) [])
unfolding kinit
kinit_lem image_end word pos fits =
    free_from_lem ((phystop - pg_round_up image_end) / page_size) 557057 image_end
      (pg_round_up image_end) phystop (record { freelist = 0; word = word }) [] (omega arith) pos
      (omega arith) (omega arith) (omega arith) (omega arith) (omega arith) tt
      (record { chain = refl; distinct = tt; good = tt })
