-- ===== src/Vm/User/Alloc.antt =====
-- What uvmalloc does where it fails.
use mc.Prelude.{
  ℕ, zero, suc, ◌+◌, ◌-◌, ◌*◌, ◌/◌, ◌%◌, ◌≤◌, ◌<◌, ◌≡◌, sym, ◌∙◌, ◌⊎◌, inl, inr, true, false,
  Option, some, arith, ◌==◌, ==_iff, Bool-cases, ◌≢◌, leb, ltb, All, List, [], ◌∷◌, Bool, ap,
  length, subst, refl,
}
use mc.Kalloc.{page_size, pg_round_up}
use mc.Vm.{Memory, maxva, pte2pa}
use mc.Vm.Walk.{LinkedIn, LinkedIn-back}
use mc.Vm.Roles.{Role, table, vpn, IsValid}
use mc.Vm.Map.{translation}
use mc.Vm.Leaf.{entry-page}
use mc.Vm.User.Range.{pages, put_all, IsUnmapped, uvmunmap_lem}
use mc.Vm.User.Grow.{IsGrown, grown_root}
use mc.Vm.User.{uvmdealloc, uvmunmap, give_up}

-- The page tables are as they were, and each page that was free is free or a lower page table, linked from
-- one above it.
pub record IsRefused (role0 role' : ℕ → Role) (m0 m' : Memory) : Type 0 where
  pub valid : IsValid role' m'
  pub taken :
      (P : ℕ → Bool)
      → LinkedIn P role' m'
      → All (λ q. P q ≡ true) m'.free
      → All (λ q. P q ≡ true) m0.free
  pub same :
      (r va' : ℕ)
      → role0 r ≡ table r 2 0
      → va' < maxva
      → translation r va' m' ≡ translation r va' m0

-- What uvmalloc may come to: all pages up to the new size are mapped, each to a page of its own; or 0, with
-- the page tables as they were, and with no more free pages than the pages asked for, since there was
-- none when kalloc or walk failed.
pub data GrowOutcome (image_end : ℕ) (role0 : ℕ → Role) (root start perm : ℕ) (m0 : Memory)
    (newsz : ℕ) : Option (ℕ × Memory) → Type 0 where
  grown :
      (n : ℕ) (role' : ℕ → Role) (m' : Memory)
      → newsz ≤ start + n * page_size
      → start + n * page_size < newsz + page_size
      → IsGrown image_end role0 root start perm m0 n role' m'
      → GrowOutcome image_end role0 root start perm m0 newsz (some (newsz, m'))
  refused :
      (role' : ℕ → Role) (m' : Memory)
      → IsRefused role0 role' m0 m'
      → start + length m'.free * page_size < newsz + page_size
      → GrowOutcome image_end role0 root start perm m0 newsz (some (0, m'))

length-put_all : (ps l : List ℕ) → length (put_all ps l) ≡ length ps + length l
length-put_all [] l = omega arith
length-put_all (p ∷ ps) l = omega (arith, length-put_all ps (p ∷ l))

length-pages : (n root va : ℕ) (m : Memory) → length (pages n root va m) ≡ n
length-pages zero root va m = refl
length-pages (suc n) root va m = ap suc (length-pages n root (va + page_size) m)

All-put_all :
    (P : ℕ → Bool) (ps l : List ℕ)
    → All (λ q. P q ≡ true) (put_all ps l)
    → All (λ q. P q ≡ true) ps × All (λ q. P q ≡ true) l
All-put_all P [] l a = (tt, a)
All-put_all P (p ∷ ps) l a = let (b, c) = All-put_all P ps (p ∷ l) a in ((c.0, b), c.1)

All-pages :
    (P : ℕ → Bool) (n root va : ℕ) (m : Memory)
    → All (λ q. P q ≡ true) (pages n root va m)
    → (j : ℕ) → j < n
    → P (pte2pa (translation root (va + j * page_size) m)) ≡ true
All-pages P zero root va m a j h = absurd (omega arith)
All-pages P (suc n) root va m a zero h =
    let e : va + 0 * page_size ≡ va = omega arith in
    ap (λ x. P (pte2pa (translation root x m))) e ∙ a.0
All-pages P (suc n) root va m a (suc j) h =
    let e : va + suc j * page_size ≡ va + page_size + j * page_size = omega arith in
    ap (λ x. P (pte2pa (translation root x m))) e
    ∙ All-pages P n root (va + page_size) m a.1 j (omega arith)

module _ (image_end : ℕ) (role0 : ℕ → Role) (root start perm : ℕ) (m0 : Memory)
    (al : start % page_size ≡ 0) (is_root : role0 root ≡ table root 2 0) where
  dealloc_none : (a : ℕ) (m : Memory) → a ≤ start → give_up image_end root a start m ≡ some (0, m)
  unfolding give_up uvmdealloc
  dealloc_none a m h = let e : leb a start ≡ true = ground arith in rw (give_up, uvmdealloc, e)

  dealloc_some :
      (k : ℕ) (m m' : Memory)
      → uvmunmap image_end root start (suc k) true m ≡ some m'
      → give_up image_end root (start + suc k * page_size) start m ≡ some (0, m')
  unfolding give_up uvmdealloc
  dealloc_some k m m' h =
      let e : leb (start + suc k * page_size) start ≡ false = ground arith in
      let r1 : pg_round_up start ≡ start = omega arith in
      let r2 : pg_round_up (start + suc k * page_size) ≡ start + suc k * page_size = omega arith in
      let l : ltb start (start + suc k * page_size) ≡ true = ground arith in
      let n : (start + suc k * page_size - start) / page_size ≡ suc k = omega arith in
      rw (give_up, uvmdealloc, e, r1, r2, l, n, h)

  -- The pages given back, the page tables are as before.
  pub give_up_lem :
      (k : ℕ) (role : ℕ → Role) (m : Memory)
      → start + k * page_size ≤ maxva
      → IsGrown image_end role0 root start perm m0 k role m
      → ((j : ℕ) → j < k → translation root (start + j * page_size) m0 ≡ 0)
      → (m' : Memory) × (give_up image_end root (start + k * page_size) start m ≡ some (0, m'))
        × (length m'.free ≡ k + length m.free)
        × ((role' : ℕ → Role) × IsRefused role0 role' m0 m')
  give_up_lem zero role m fits i u = (
    m,
    dealloc_none (start + 0 * page_size) m (omega arith),
    omega arith,
    (
      role,
      record {
        valid = i.valid;
        taken = λ P t a. i.taken P t (λ j h. absurd (omega arith)) a;
        same = λ r va' h b. i.others r va' h b (elim (Bool-cases (ltb va' start)) [
          | inl e ↦ inr (inl (ground (arith, e)))
          | inr e ↦ inr (inr (ground (arith, e)))
        ]);
      },
    ),
  )
  give_up_lem (suc k) role m fits i u =
      let (role', m', e, un) =
        uvmunmap_lem image_end role root start (suc k) m al fits (grown_root i root is_root) i.valid
          i.removable in
      (
        m',
        dealloc_some k m m' e,
        ap length un.freed
            ∙ length-put_all (pages (suc k) root start m) m.free
            ∙ ap (λ n. n + length m.free) (length-pages (suc k) root start m),
        (
          role',
          record {
            valid = un.valid;
            taken = taken role' m' un;
            same = λ r va' h b. back role' m' un r va' h b;
          },
        ),
      )
    where
      taken :
          (role' : ℕ → Role) (m' : Memory)
          → IsUnmapped role role' (suc k) root start m m'
          → (P : ℕ → Bool) → LinkedIn P role' m'
          → All (λ q. P q ≡ true) m'.free
          → All (λ q. P q ≡ true) m0.free
      taken role' m' un P t a =
          let (here, rest) =
            All-put_all P (pages (suc k) root start m) m.free
              (subst (All (λ q. P q ≡ true)) un.freed a) in
          i.taken P (LinkedIn-back P role role' m m' un.tables un.links t)
            (All-pages P (suc k) root start m here) rest

      within :
          (role' : ℕ → Role) (m' : Memory)
          → IsUnmapped role role' (suc k) root start m m'
          → (va' : ℕ) → start ≤ va'
          → va' < start + suc k * page_size
          → translation root va' m' ≡ translation root va' m0
      within role' m' un va' lo hi =
          let j : ℕ = (va' - start) / page_size in
          let page : vpn 0 va' ≡ vpn 0 (start + j * page_size) = omega arith in
          let jk : j < suc k = omega arith in
          entry-page m' 2 root va' (start + j * page_size) (omega arith) page
          ∙ un.unmapped j jk
          ∙ sym (u j jk)
          ∙ sym (entry-page m0 2 root va' (start + j * page_size) (omega arith) page)

      outside :
          (role' : ℕ → Role) (m' : Memory)
          → IsUnmapped role role' (suc k) root start m m'
          → (r va' : ℕ) → role0 r ≡ table r 2 0
          → va' < maxva
          → (r ≢ root) ⊎ (va' < start) ⊎ (start + suc k * page_size ≤ va')
          → translation r va' m' ≡ translation r va' m0
      outside role' m' un r va' h b d =
          un.others r va' (grown_root i r h) b d ∙ i.others r va' h b d

      back :
          (role' : ℕ → Role) (m' : Memory)
          → IsUnmapped role role' (suc k) root start m m'
          → (r va' : ℕ) → role0 r ≡ table r 2 0
          → va' < maxva
          → translation r va' m' ≡ translation r va' m0
      back role' m' un r va' h b = elim (Bool-cases (r == root)) [
        | inr n ↦ outside role' m' un r va' h b (inl (λ e. absurd (ground (arith, e, n))))
        | inl y ↦
            let e : r ≡ root = (==_iff r root).0 y in
            elim (Bool-cases (ltb va' start)) [
              | inl l ↦ outside role' m' un r va' h b (inr (inl (ground (arith, l))))
              | inr l ↦ elim (Bool-cases (ltb va' (start + suc k * page_size))) [
                | inl t ↦ rw e (within role' m' un va' (ground (arith, l)) (ground (arith, t)))
                | inr t ↦ outside role' m' un r va' h b (inr (inr (ground (arith, t))))
              ]
            ]
      ]
