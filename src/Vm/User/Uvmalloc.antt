-- ===== src/Vm/User/Uvmalloc.antt =====
-- uvmalloc in kernel/vm.c, turn by turn.
use Prim.Native.Nat.{bit_or}
use mc.Prelude.{
  ℕ, zero, suc, ◌+◌, ◌*◌, ◌/◌, ◌%◌, ◌≤◌, ◌<◌, ◌≡◌, refl, sym, ap, ◌∙◌, ◌⊎◌, inl, inr, List, [], ◌∷◌,
  Bool, true, false, Option, none, some, arith, ◌==◌, ==_self, Bool-cases, List-cases, subst, ◌≢◌,
  All, update, ltb, length,
}
use mc.Kalloc.{page_size, is_bad, pg_round_up, junk_alloc}
use mc.Vm.{Memory, maxva, is_valid, zero_page, mappages}
use mc.Vm.Bits.{bit_or-small, bit_or-second}
use mc.Vm.Roles.{Role, unused, other, table, IsValid}
use mc.Vm.Walk.{LinkedIn, LinksStay, LinkedIn-back}
use mc.Vm.Map.{translation, top, Outcome, all_mapped, out_of_memory, remap}
use mc.Vm.Mappages.{mappages_lem}
use mc.Vm.User.Unmap.{kfree_lem, IsReleased-translation}
use mc.Vm.User.Page.{IsTaken, take_page-IsTaken}
use mc.Vm.Install.{differs}
use mc.Vm.User.Grow.{IsGrown, IsGrown-same, IsGrown-zero, IsGrown-suc, grown_root}
use mc.Vm.User.{kalloc, kfree, fill_page, give_up, alloc_from, uvmalloc, pte_r, pte_u}
use mc.Vm.User.Alloc.{GrowOutcome, grown, refused, give_up_lem}

abbrev pub user_perm : ℕ → ℕ
user_perm xperm = bit_or (bit_or pte_r pte_u) xperm

user_perm_lem :
    (xperm : ℕ) → xperm < 1024 → (user_perm xperm < 1024) × (user_perm xperm / 2 % 2 ≡ 1)
user_perm_lem xperm h = (
  bit_or-small (bit_or pte_r pte_u) xperm (omega arith) h,
  bit_or-second (bit_or pte_r pte_u) xperm ∙ omega arith,
)

abbrev fresh : (q : ℕ) → List ℕ → Memory → Memory
fresh q rest m = zero_page q (fill_page q junk_alloc 5 (record m { free = rest }))

-- A turn of the loop, once mappages has answered.
abbrev after :
    (image_end fuel root a start newsz xperm q : ℕ) → Option (Bool × Memory) → Option (ℕ × Memory)
after image_end fuel root a start newsz xperm q o = elim o [
  | none ↦ none
  | some r ↦ elim r.0 [
    | true ↦ alloc_from image_end fuel root (a + page_size) start newsz xperm r.1
    | false ↦ elim (kfree image_end q r.1) [
      | none ↦ none
      | some m2 ↦ give_up image_end root a start m2
    ]
  ]
]

kalloc-none : (m : Memory) → m.free ≡ [] → kalloc m ≡ none
unfolding kalloc
kalloc-none m f = rw (kalloc, f)

turn_full :
    (image_end fuel root a start newsz xperm : ℕ) (m : Memory)
    → ltb a newsz ≡ true
    → m.free ≡ []
    → alloc_from image_end (suc fuel) root a start newsz xperm m ≡ give_up image_end root a start m
unfolding alloc_from
turn_full image_end fuel root a start newsz xperm m h f = rw (alloc_from, h, kalloc-none m f)

turn_page :
    (image_end fuel root a start newsz xperm q : ℕ) (rest : List ℕ) (m : Memory)
    → ltb a newsz ≡ true
    → m.free ≡ q ∷ rest
    → alloc_from image_end (suc fuel) root a start newsz xperm m
      ≡ after image_end fuel root a start newsz xperm q
          (mappages root a page_size q (user_perm xperm) (fresh q rest m))
unfolding alloc_from kalloc
turn_page image_end fuel root a start newsz xperm q rest m h f = rw (alloc_from, h, kalloc, f)

module _ (image_end : ℕ) (role0 : ℕ → Role) (root start newsz xperm : ℕ) (m0 : Memory)
    (pos : 0 < image_end) (al : start % page_size ≡ 0) (is_root : role0 root ≡ table root 2 0)
    (small : xperm < 1024) (fits : newsz + page_size ≤ maxva)
    (gap : (j : ℕ)
      → start + j * page_size < newsz
      → translation root (start + j * page_size) m0 ≡ 0) where
  Loop : Option (ℕ × Memory) → Type 0
  Loop = GrowOutcome image_end role0 root start (user_perm xperm) m0 newsz

  Grown : ℕ → (ℕ → Role) → Memory → Type 0
  Grown = IsGrown image_end role0 root start (user_perm xperm) m0

  gives_up :
      (k : ℕ) (role : ℕ → Role) (m : Memory)
      → start + (k + length m.free) * page_size < newsz + page_size
      → Grown k role m
      → Loop (give_up image_end root (start + k * page_size) start m)
  unfolding Loop Grown
  gives_up k role m b i =
      let (m', e, n, (role', r)) =
        give_up_lem image_end role0 root start (user_perm xperm) m0 al is_root k role m
          (omega arith) i (λ j h. gap j (omega arith)) in
      rw e (refused role' m' r (omega (arith, n)))

  -- The page that kalloc gives.
  module _ (k q : ℕ) (rest : List ℕ) (role : ℕ → Role) (m : Memory)
      (b : start + k * page_size < newsz) (i : Grown k role m) (f : m.free ≡ q ∷ rest) where
    q_facts : (role q ≡ unused) × (q % 4096 ≡ 0) × (is_bad image_end q ≡ false)
    unfolding Grown
    q_facts =
        let (u, a) =
          (subst (All (λ q. (role q ≡ unused) × (q % 4096 ≡ 0))) f i.valid.free_pages).0 in
        (u, a, (subst (All (λ q. is_bad image_end q ≡ false)) f i.good).0)

    kept : IsTaken role (update role q other) m (fresh q rest m)
    unfolding Grown
    kept =
        take_page-IsTaken role m (fresh q rest m) q rest i.valid f refl (λ a j h. rw h)
          (λ a j h. rw h)

    next :
        (fuel : ℕ)
        → ((role2 : ℕ → Role) (m2 : Memory)
            → Grown (suc k) role2 m2
            → Loop
                (alloc_from image_end fuel root (start + suc k * page_size) start newsz xperm m2))
        → (o : Option (Bool × Memory))
        → Outcome
            (update role q other)
            1
            root
            (start + k * page_size)
            q
            (user_perm xperm)
            (fresh q rest m)
            o
        → Loop (after image_end fuel root (start + k * page_size) start newsz xperm q o)
    unfolding Grown
    next fuel ih _ (all_mapped role2 m2 mp) =
        let (small', readable) = user_perm_lem xperm small in
        let g =
          IsGrown-suc image_end role0 root start (user_perm xperm) m0 al is_root small' readable k q
            role (update role q other) role2 m (fresh q rest m) m2 (omega arith) i q_facts.0
            q_facts.1 q_facts.2 (rw (==_self q)) kept f (λ l. rw (==_self q)) mp in
        let e : start + k * page_size + page_size ≡ start + suc k * page_size = omega arith in
        rw e (ih role2 m2 g)
    next fuel ih _ (out_of_memory j role2 m2 h mp full) =
        let role1 = update role q other in
        let q1 : role1 q ≡ other = rw (==_self q) in
        let q2 : role2 q ≡ other = mp.roles q (λ u. absurd (cc)) ∙ q1 in
        let (m3, e, fr, rel) = kfree_lem image_end role2 q m2 mp.valid q_facts.2 q2 in
        let good2 = mp.frees (is_bad image_end) (kept.frees (is_bad image_end) i.good) in
        let keep : (a : ℕ) → role a ≢ unused → update role2 q unused a ≡ role a = λ a h'.
          let ne : (q == a) ≡ false = differs role q a (λ x. h' (sym x ∙ q_facts.0)) in
          let k1 = kept.roles a h' in rw ne (mp.roles a (λ u. h' (sym k1 ∙ u)) ∙ k1) in
        let taken3 : (P : ℕ → Bool)
            → LinkedIn P (update role2 q unused) m3
            → All (λ q. P q ≡ true) m3.free
            → All (λ q. P q ≡ true) m.free =
          λ P t a.
            let (here, rest2) = subst (All (λ q. P q ≡ true)) fr a in
            subst (All (λ q. P q ≡ true)) (sym f) (
              here,
              mp.taken P
                  (LinkedIn-back P role2 (update role2 q unused) m2 m3 rel.tables
                    (λ a j r l x h v. rel.same a r (suc l) x j h) t)
                  rest2,
            ) in
        let links3 : LinksStay role m m3 = λ a j r l x h v.
          let e = kept.same a r (suc l) x j h in
          let t1 = kept.roles a (λ u. absurd (cc)) ∙ h in
          let e2 = mp.links a j r l x t1 (ap is_valid e ∙ v) in
          rel.same a r (suc l) x j (mp.roles a (λ u. absurd (cc)) ∙ t1) ∙ e2 ∙ e in
        let bytes3 : (a l : ℕ) → role a ≢ unused → m3.byte a l ≡ m.byte a l = λ a l h'.
          let k1 = kept.roles a h' in
          rel.bytes a l (differs role a q (λ x. h' (x ∙ q_facts.0)))
          ∙ mp.bytes a l (λ u. h' (sym k1 ∙ u))
          ∙ kept.bytes a l h' in
        let same : (r va' : ℕ)
            → role r ≡ table r 2 0
            → va' < maxva
            → translation r va' m3 ≡ translation r va' m =
          λ r va' t bv.
            let t1 = kept.roles r (λ u. absurd (cc)) ∙ t in
            let t2 = mp.roles r (λ u. absurd (cc)) ∙ t1 in
            (IsReleased-translation role2 (update role2 q unused) q m2 m3 mp.valid rel r va' t2
              bv).1
            ∙ mp.others r va' t1 bv (inr (anywhere j va' h))
            ∙ kept.entries 2 r va' r (omega arith) (top role r va' bv t) in
        let g =
          IsGrown-same k role (update role2 q unused) m m3 is_root (omega arith) i rel.valid keep
            (subst (All (λ q. is_bad image_end q ≡ false)) (sym fr) (q_facts.2, good2)) links3
            taken3 bytes3 same in
        rw (after, e)
          (gives_up k (update role2 q unused) m3 (omega (arith, ap length fr, ap length full)) g)
      where
        anywhere :
            (j va' : ℕ)
            → j < 1
            → (va' < start + k * page_size) ⊎ (start + k * page_size + j * page_size ≤ va')
        anywhere j va' h = elim (Bool-cases (ltb va' (start + k * page_size))) [
          | inl e ↦ inl (ground (arith, e))
          | inr e ↦ inr (let l : start + k * page_size ≤ va' = ground (arith, e) in omega arith)
        ]
    next fuel ih _ (remap j h v) =
        let e : start + k * page_size + j * page_size ≡ start + k * page_size = omega arith in
        let rt = grown_root i root is_root in
        let z : translation root (start + k * page_size + j * page_size) (fresh q rest m) ≡ 0 =
          ap (λ a. translation root a (fresh q rest m)) e
          ∙ kept.entries 2 root (start + k * page_size) root (omega arith)
              (top role root (start + k * page_size) (omega arith) rt)
          ∙ i.others root (start + k * page_size) is_root (omega arith) (inr (inr (omega arith)))
          ∙ gap k b in
        let c : is_valid 0 ≡ true = ap is_valid (sym z) ∙ v in absurd (cc)

  loop :
      (fuel k : ℕ) (role : ℕ → Role) (m : Memory)
      → start + k * page_size < newsz + page_size
      → newsz / page_size + 1 < k + fuel
      → Grown k role m
      → Loop (alloc_from image_end fuel root (start + k * page_size) start newsz xperm m)
  unfolding Grown Loop alloc_from
  loop zero k role m b f i = absurd (omega arith)
  loop (suc fuel) k role m b f i = elim (Bool-cases (ltb (start + k * page_size) newsz)) [
    | inr e ↦ rw (alloc_from, e) (grown k role m (ground (arith, e)) b i)
    | inl e ↦ elim (List-cases m.free) [
      | inl z ↦
          subst Loop
            (sym (turn_full image_end fuel root (start + k * page_size) start newsz xperm m e z))
            (gives_up k role m (omega (arith, ap length z)) i)
      | inr (q, rest, z) ↦
          let l : start + k * page_size < newsz = ground (arith, e) in
          let (u, a, g) = q_facts k q rest role m l i z in
          let kp = kept k q rest role m l i z in
          let o =
            mappages_lem (update role q other) root (start + k * page_size) page_size q
              (user_perm xperm) (fresh q rest m) (omega arith) (omega arith) (omega arith)
              (omega arith) (ground (arith, g))
              (kp.roles root (λ u. let z = grown_root i root is_root in absurd (cc))
                ∙ grown_root i root is_root)
              kp.valid in
          subst Loop
            (sym (
              turn_page image_end fuel root (start + k * page_size) start newsz xperm q rest m e z))
            (next k q rest role m l i z fuel
              (λ role2 m2 g. loop fuel (suc k) role2 m2 (omega arith) (omega arith) g) _ o)
    ]
  ]

-- uvmalloc from a size to one that is not smaller, in a page table whose pages between the two are unmapped,
-- does not panic. Either it answers the new size, and each page up to it is mapped to a page of its own,
-- which is zero, with the permissions asked for; the pages that were free are free, linked from a page table or mapped.
-- Or it answers 0, and the entries of all page tables are as before; the pages that were free are free or
-- linked from a page table, and there are no more free pages than the pages asked for. In both cases no other entry
-- changes, and the page tables stay trees that share no page. The free pages are pages that kfree takes,
-- and the permissions are below 2 ^ 10.
pub uvmalloc_lem :
    (image_end : ℕ) (role : ℕ → Role) (root oldsz newsz xperm : ℕ) (m : Memory)
    → 0 < image_end
    → oldsz ≤ newsz
    → newsz + page_size ≤ maxva
    → xperm < 1024
    → role root ≡ table root 2 0
    → IsValid role m
    → All (λ q. is_bad image_end q ≡ false) m.free
    → ((j : ℕ)
        → pg_round_up oldsz + j * page_size < newsz
        → translation root (pg_round_up oldsz + j * page_size) m ≡ 0)
    → GrowOutcome image_end role root
        (pg_round_up oldsz)
        (user_perm xperm)
        m
        newsz
        (uvmalloc image_end root oldsz newsz xperm m)
unfolding uvmalloc Grown Loop
uvmalloc_lem image_end role root oldsz newsz xperm m pos le fits small is_root w good gap =
    let start : ℕ = pg_round_up oldsz in
    let al : start % page_size ≡ 0 = omega arith in
    let (small', readable) = user_perm_lem xperm small in
    let e : ltb newsz oldsz ≡ false = ground arith in
    let z : start + 0 * page_size ≡ start = omega arith in
    let g =
      IsGrown-zero image_end role root start (user_perm xperm) m al is_root small' readable w
        good in
    let l =
      loop image_end role root start newsz xperm m pos al is_root small fits gap
        (newsz / page_size + 2) 0 role m (omega arith) (omega arith) g in
    rw e (
      subst
        (λ a.
          GrowOutcome image_end role root start (user_perm xperm) m newsz
            (alloc_from image_end (newsz / page_size + 2) root a start newsz xperm m))
        z l)
