-- ===== src/Vm/User/Range.antt =====
-- uvmunmap of a range whose pages are mapped.
use mc.Prelude.{
  ℕ, zero, suc, ◌+◌, ◌*◌, ◌%◌, ◌≤◌, ◌<◌, ◌≡◌, refl, sym, ap, ap₂, ◌∙◌, ◌⊎◌, inl, inr, List, [], ◌∷◌,
  true, false, not, ◌||◌, Option, none, some, arith, ◌==◌, Option-cases, subst, ◌≢◌, leb, update,
}
use mc.Kalloc.{page_size, is_bad}
use mathlib.Core.Option
use mc.Vm.{Memory, px, maxva, is_valid, pte2pa, pte_flags, set_pte, walk_from, walk}
use mc.Vm.Roles.{Role, unused, other, table, vpn, IsValid, find, entry_of}
use mc.Vm.Install.{differs}
use mc.Vm.Walk.{LinksStay}
use mc.Vm.Leaf.{set_pte-IsValid, set_pte-entry_same, set_pte-entry_other, find-role}
use mc.Vm.Map.{translation, top, beyond_next, beyond_first}
use mc.Vm.Address.{walk_from-find}
use mc.Vm.User.{kfree, free_if, unmap_from, uvmunmap}
use mc.Vm.User.Unmap.{IsReleased-translation, kfree_lem}

-- the pages of a range, and the list with each of them put in front
abbrev pub pages : (n root va : ℕ) → Memory → List ℕ
pages zero root va m = []
pages (suc n) root va m = pte2pa (translation root va m) ∷ pages n root (va + page_size) m

abbrev pub put_all : List ℕ → List ℕ → List ℕ
put_all [] l = l
put_all (p ∷ ps) l = put_all ps (p ∷ l)

-- uvmunmap goes through: each page of the range has a leaf entry, to a page of another use than tables
-- that kfree takes, and no two to the same one.
pub record IsRemovable (image_end : ℕ) (role : ℕ → Role) (n root va : ℕ) (m : Memory) : Type 0 where
  pub leaf :
      (k : ℕ)
      → k < n
      → (not (is_valid (translation root (va + k * page_size) m))
          || pte_flags (translation root (va + k * page_size) m) == 1)
        ≡ false
  pub page :
      (k : ℕ)
      → k < n
      → (role (pte2pa (translation root (va + k * page_size) m)) ≡ other)
        × (is_bad image_end (pte2pa (translation root (va + k * page_size) m)) ≡ false)
  pub apart :
      (j k : ℕ)
      → j < k
      → k < n
      → (pte2pa (translation root (va + j * page_size) m)
          == pte2pa (translation root (va + k * page_size) m))
        ≡ false

pub record IsUnmapped (role role' : ℕ → Role) (n root va : ℕ) (m m' : Memory) : Type 0 where
  pub valid : IsValid role' m'
  pub tables : (a r l x : ℕ) → role a ≡ table r l x → role' a ≡ table r l x
  pub links : LinksStay role m m'
  pub unmapped : (k : ℕ) → k < n → translation root (va + k * page_size) m' ≡ 0
  pub others :
      (r va' : ℕ)
      → role r ≡ table r 2 0
      → va' < maxva
      → (r ≢ root) ⊎ (va' < va) ⊎ (va + n * page_size ≤ va')
      → translation r va' m' ≡ translation r va' m
  pub freed : m'.free ≡ put_all (pages n root va m) m.free

pages-same :
    (n root va : ℕ) (m m' : Memory)
    → ((k : ℕ)
        → k < n
        → translation root (va + k * page_size) m' ≡ translation root (va + k * page_size) m)
    → pages n root va m' ≡ pages n root va m
pages-same zero root va m m' h = refl
pages-same (suc n) root va m m' h =
    let e : va ≡ va + 0 * page_size = omega arith in
    let first : translation root va m' ≡ translation root va m =
      ap (λ a. translation root a m') e
      ∙ h 0 (omega arith)
      ∙ ap (λ a. translation root a m) (sym e) in
    let rest = pages-same n root (va + page_size) m m' (λ k b.
      let q : va + page_size + k * page_size ≡ va + suc k * page_size = omega arith in
      ap (λ a. translation root a m') q
      ∙ h (suc k) (omega arith)
      ∙ ap (λ a. translation root a m) (sym q)) in
    ap (λ x. pte2pa x ∷ pages n root (va + page_size) m') first
    ∙ ap (λ l. pte2pa (translation root va m) ∷ l) rest

abbrev one_turn : (image_end n root va : ℕ) → Option (ℕ × ℕ) × Memory → Option Memory
one_turn image_end n root va r = elim r.0 [
  | none ↦ none
  | some (p, i) ↦ elim (not (is_valid (r.1.pte p i)) || pte_flags (r.1.pte p i) == 1) [
    | true ↦ none
    | false ↦ elim (free_if image_end true (pte2pa (r.1.pte p i)) r.1) [
      | none ↦ none
      | some m1 ↦ unmap_from image_end n root (va + page_size) true (set_pte p i 0 m1)
    ]
  ]
]

unmap_turn :
    (image_end n root va s : ℕ) (m m1 : Memory)
    → va < maxva
    → find 2 root va m ≡ some s
    → (not (is_valid (m.pte s (px 0 va))) || pte_flags (m.pte s (px 0 va)) == 1) ≡ false
    → kfree image_end (pte2pa (m.pte s (px 0 va))) m ≡ some m1
    → unmap_from image_end (suc n) root va true m
      ≡ unmap_from image_end n root (va + page_size) true (set_pte s (px 0 va) 0 m1)
unfolding unmap_from walk free_if
unmap_turn image_end n root va s m m1 low f leaf free =
    let e : leb maxva va ≡ false = ground arith in
    let q : walk_from false 2 root va m ≡ (some (s, px 0 va), m) =
      walk_from-find 2 root va m ∙ ap (λ o. (Option.map (λ s. (s, px 0 va)) o, m)) f in
    let first : unmap_from image_end (suc n) root va true m
        ≡ one_turn image_end n root va (walk_from false 2 root va m) =
      rw (unmap_from, walk, e) in
    first ∙ ap (one_turn image_end n root va) q ∙ rw (one_turn, leaf, free_if, free)

-- One page: what the loop does to it.
module _ (image_end : ℕ) (role : ℕ → Role) (root va : ℕ) (m : Memory) (low : va < maxva)
    (al : va % page_size ≡ 0) (is_root : role root ≡ table root 2 0) (w : IsValid role m)
    (leaf : (not (is_valid (translation root va m)) || pte_flags (translation root va m) == 1)
      ≡ false)
    (o : role (pte2pa (translation root va m)) ≡ other)
    (g : is_bad image_end (pte2pa (translation root va m)) ≡ false) where
  -- The memory after one page, and where the loop goes on.
  one_page :
      (m2 : Memory) × ((n : ℕ)
        → unmap_from image_end (suc n) root va true m
          ≡ unmap_from image_end n root (va + page_size) true m2)
      × IsValid (update role (pte2pa (translation root va m)) unused) m2
      × (m2.free ≡ pte2pa (translation root va m) ∷ m.free)
      × LinksStay role m m2
      × (translation root va m2 ≡ 0)
      × ((r va' : ℕ)
          → role r ≡ table r 2 0
          → va' < maxva
          → (r ≢ root) ⊎ (vpn 0 va' ≢ vpn 0 va)
          → translation r va' m2 ≡ translation r va' m)
  one_page = elim (Option-cases (find 2 root va m)) [
    | inl f ↦ let z : (not (is_valid 0) || pte_flags 0 == 1) ≡ false = rw f at leaf in absurd (cc)
    | inr (s, f) ↦
        let t : translation root va m ≡ m.pte s (px 0 va) = ap (λ o. entry_of o va m) f in
        let (m1, e1, fr, k) = kfree_lem image_end role (pte2pa (translation root va m)) m w g o in
        let is_leaf =
          find-role role m 2 root va root s w (omega arith) (top role root va low is_root) f in
        let is_leaf1 = k.tables s root 0 _ is_leaf in
        let role1 = update role (pte2pa (translation root va m)) unused in
        let root1 = k.tables root root 2 0 is_root in
        let stay = IsReleased-translation role role1 (pte2pa (translation root va m)) m m1 w k in
        (
          set_pte s (px 0 va) 0 m1,
          λ n.
              unmap_turn image_end n root va s m m1 low f
                (subst (λ x. (not (is_valid x) || pte_flags x == 1) ≡ false) t leaf)
                (subst (λ x. kfree image_end (pte2pa x) m ≡ some m1) t e1),
          set_pte-IsValid role1 m1 s va root 0 k.valid is_leaf1,
          fr,
          λ a i r' l x h y.
              let n : (a == s) ≡ false = differs role a s (λ e. absurd (cc)) in
              rw n (k.same a r' (suc l) x i h),
          set_pte-entry_same role1 m1 s va root 0 k.valid is_leaf1 2 root (omega arith)
              (top role1 root va low root1) ((stay root va is_root low).0 ∙ f),
          λ r va' h b d.
              set_pte-entry_other role1 m1 s va root 0 k.valid is_leaf1 2 r va' r (omega arith)
                (top role1 r va' b (k.tables r r 2 0 h)) d
              ∙ (stay r va' h b).1,
        )
  ]

-- The range from the next page on, once a page is taken out.
module _ (role role1 role' : ℕ → Role) (n root va : ℕ) (m m2 m' : Memory) (al : va % page_size ≡ 0)
    (fits : va + suc n * page_size ≤ maxva) (is_root : role root ≡ table root 2 0)
    (tables : (a r l x : ℕ) → role a ≡ table r l x → role1 a ≡ table r l x)
    (links : LinksStay role m m2) (gone : translation root va m2 ≡ 0)
    (stay : (r va' : ℕ)
      → role r ≡ table r 2 0
      → va' < maxva
      → (r ≢ root) ⊎ (vpn 0 va' ≢ vpn 0 va)
      → translation r va' m2 ≡ translation r va' m) where
  later :
      (k : ℕ)
      → k < n
      → translation root (va + page_size + k * page_size) m2
        ≡ translation root (va + suc k * page_size) m
  later k h =
      let q : va + page_size + k * page_size ≡ va + suc k * page_size = omega arith in
      ap (λ a. translation root a m2) q
      ∙ stay root (va + suc k * page_size) is_root (omega arith) (inr (λ e. absurd (omega arith)))

  IsUnmapped-suc :
      m2.free ≡ pte2pa (translation root va m) ∷ m.free
      → IsUnmapped role1 role' n root (va + page_size) m2 m'
      → IsUnmapped role role' (suc n) root va m m'
  IsUnmapped-suc fr u = record {
    valid = u.valid;
    tables = λ a r l x h. u.tables a r l x (tables a r l x h);
    links = λ a i r l x h v.
        let e = links a i r l x h v in
        u.links a i r l x (tables a r (suc l) x h) (ap is_valid e ∙ v) ∙ e;
    unmapped = unmapped;
    others = λ r va' h b d.
        u.others r va' (tables r r 2 0 h) b (beyond_next root r va n va' d)
        ∙ stay r va' h b (beyond_first root r va n va' al d);
    freed =
        u.freed
        ∙ ap₂ put_all
            (pages-same n root (va + page_size) m m2
              (λ k h. later k h ∙ ap (λ a. translation root a m) (omega arith)))
            fr;
  }
    where
      unmapped : (k : ℕ) → k < suc n → translation root (va + k * page_size) m' ≡ 0
      unmapped zero h =
          let e : va + 0 * page_size ≡ va = omega arith in
          ap (λ a. translation root a m') e
          ∙ u.others root va (tables root root 2 0 is_root) (omega arith) (inr (inl (omega arith)))
          ∙ gone
      unmapped (suc k) h =
          let e : va + suc k * page_size ≡ va + page_size + k * page_size = omega arith in
          ap (λ a. translation root a m') e ∙ u.unmapped k (omega arith)

  IsRemovable-suc :
      (image_end pa : ℕ)
      → pa ≡ pte2pa (translation root va m)
      → ((a : ℕ) → (pa == a) ≡ false → role1 a ≡ role a)
      → IsRemovable image_end role (suc n) root va m
      → IsRemovable image_end role1 n root (va + page_size) m2
  IsRemovable-suc image_end pa p same c = record {
    leaf = λ k h. rw (later k h) (c.leaf (suc k) (omega arith));
    page = λ k h.
        let zero_add : va ≡ va + 0 * page_size = omega arith in
        let ne : (pa == pte2pa (translation root (va + suc k * page_size) m)) ≡ false =
          ap (λ x. x == pte2pa (translation root (va + suc k * page_size) m)) p
          ∙ ap
              (λ a.
                pte2pa (translation root a m)
                == pte2pa (translation root (va + suc k * page_size) m))
              zero_add
          ∙ c.apart 0 (suc k) (omega arith) (omega arith) in
        rw (later k h)
          (same _ ne ∙ (c.page (suc k) (omega arith)).0, (c.page (suc k) (omega arith)).1);
    apart = λ j k h h'.
        rw (later j (omega arith), later k h')
          (c.apart (suc j) (suc k) (omega arith) (omega arith));
  }

unmap_from_lem :
    (image_end n : ℕ) (role : ℕ → Role) (root va : ℕ) (m : Memory)
    → va % page_size ≡ 0
    → va + n * page_size ≤ maxva
    → role root ≡ table root 2 0
    → IsValid role m
    → IsRemovable image_end role n root va m
    → (role' : ℕ → Role) × (m' : Memory) × (unmap_from image_end n root va true m ≡ some m')
      × IsUnmapped role role' n root va m m'
unfolding unmap_from
unmap_from_lem image_end zero role root va m al fits r w c = (
  role,
  m,
  refl,
  record {
    valid = w;
    tables = λ a r l x h. h;
    links = λ a i r l x h v. refl;
    unmapped = λ k h. absurd (omega arith);
    others = λ r va' h b d. refl;
    freed = refl;
  },
)
unmap_from_lem image_end (suc n) role root va m al fits r w c =
    let zero_add : va ≡ va + 0 * page_size = omega arith in
    let (o, g) =
      subst
        (λ a.
          (role (pte2pa (translation root a m)) ≡ other)
          × (is_bad image_end (pte2pa (translation root a m)) ≡ false))
        (sym zero_add) (c.page 0 (omega arith)) in
    let lf =
      subst
        (λ a.
          (not (is_valid (translation root a m)) || pte_flags (translation root a m) == 1) ≡ false)
        (sym zero_add) (c.leaf 0 (omega arith)) in
    let (m2, step, w2, fr, links, gone, stay) =
      one_page image_end role root va m (omega arith) al r w lf o g in
    let pa : ℕ = pte2pa (translation root va m) in
    let tables : (a r l x : ℕ) → role a ≡ table r l x → update role pa unused a ≡ table r l x =
      λ a r l x h. let e : (pa == a) ≡ false = differs role pa a (λ q. absurd (cc)) in rw e h in
    let role1 = update role pa unused in
    let c2 =
      IsRemovable-suc role role1 role1 n root va m m2 m2 al fits r tables links gone stay image_end
        pa refl (λ a h. rw h) c in
    let (role', m', e, u) =
      unmap_from_lem image_end n role1 root (va + page_size) m2 (omega arith) (omega arith)
        (tables root root 2 0 r) w2 c2 in
    (
      role',
      m',
      step n ∙ e,
      IsUnmapped-suc role role1 role' n root va m m2 m' al fits r tables links gone stay fr u,
    )

-- uvmunmap that frees, of a range that it can remove from a page table, does not panic. The pages of the
-- range have no entries afterwards, the entries of all other pages and page tables stay, the page tables
-- stay trees that share no page, and the pages that the range led to are free, the last one first.
pub uvmunmap_lem :
    (image_end : ℕ) (role : ℕ → Role) (root va npages : ℕ) (m : Memory)
    → va % page_size ≡ 0
    → va + npages * page_size ≤ maxva
    → role root ≡ table root 2 0
    → IsValid role m
    → IsRemovable image_end role npages root va m
    → (role' : ℕ → Role) × (m' : Memory) × (uvmunmap image_end root va npages true m ≡ some m')
      × IsUnmapped role role' npages root va m m'
unfolding uvmunmap
uvmunmap_lem image_end role root va npages m al fits r w c =
    let e : not (va % page_size == 0) ≡ false = ground arith in
    rw e (unmap_from_lem image_end npages role root va m al fits r w c)
