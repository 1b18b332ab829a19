-- ===== src/Vm/User/Grow.antt =====
-- One page more for a process, and the pages of a process back.
use mc.Prelude.{
  ℕ, suc, ◌+◌, ◌*◌, ◌/◌, ◌%◌, ◌≤◌, ◌<◌, ◌≡◌, refl, sym, ap, ◌∙◌, ◌⊎◌, inl, inr, false, not, ◌||◌,
  Bool, true, subst, ◌∷◌, arith, ◌==◌, Bool-cases, ◌≢◌, All, ltb,
}
use mc.Kalloc.{page_size, is_bad}
use mc.Vm.{Memory, maxva, is_valid, pte2pa, pte_flags, leaf_pte}
use mc.Vm.Roles.{Role, unused, other, table, IsValid}
use mc.Vm.Install.{differs}
use mc.Vm.Walk.{LinkedIn, LinksStay, LinkedIn-back}
use mc.Vm.Map.{translation, top, IsMapped}
use mc.Vm.User.Range.{IsRemovable}
use mc.Vm.User.Page.{IsTaken, leaf_pte_lem}

lt_cases : (j k : ℕ) → j < suc k → (j < k) ⊎ (j ≡ k)
lt_cases j k h = elim (Bool-cases (ltb j k)) [
  | inl e ↦ inl (ground (arith, e))
  | inr e ↦ inr (ground (arith, e))
]

-- From `m0` on, `k` pages from `start` on are mapped to pages of their own, with permissions `perm`; the
-- entries of all other pages and page tables are as before.
pub record IsGrown (image_end : ℕ) (role0 : ℕ → Role) (root start perm : ℕ) (m0 : Memory) (k : ℕ)
    (role : ℕ → Role) (m : Memory) : Type 0 where
  pub valid : IsValid role m
  pub roles : (a : ℕ) → role0 a ≢ unused → role a ≡ role0 a
  pub good : All (λ q. is_bad image_end q ≡ false) m.free
  -- the pages that were free are free, linked from a table or mapped
  pub taken :
      (P : ℕ → Bool)
      → LinkedIn P role m
      → ((j : ℕ) → j < k → P (pte2pa (translation root (start + j * page_size) m)) ≡ true)
      → All (λ q. P q ≡ true) m.free
      → All (λ q. P q ≡ true) m0.free
  -- the pages that were in use keep their bytes, the new ones are zero
  pub bytes : (a i : ℕ) → role0 a ≢ unused → m.byte a i ≡ m0.byte a i
  pub zeroed :
      (j i : ℕ) → j < k → m.byte (pte2pa (translation root (start + j * page_size) m)) i ≡ 0
  pub removable : IsRemovable image_end role k root start m
  pub mapped :
      (j : ℕ) → j < k → (pa : ℕ) × (translation root (start + j * page_size) m ≡ leaf_pte pa perm)
  pub others :
      (r va' : ℕ)
      → role0 r ≡ table r 2 0
      → va' < maxva
      → (r ≢ root) ⊎ (va' < start) ⊎ (start + k * page_size ≤ va')
      → translation r va' m ≡ translation r va' m0

pub grown_root :
    {image_end : ℕ} {role0 : ℕ → Role} {root start perm : ℕ} {m0 : Memory} {k : ℕ} {role : ℕ → Role}
    {m : Memory}
    → IsGrown image_end role0 root start perm m0 k role m
    → (r : ℕ) → role0 r ≡ table r 2 0
    → role r ≡ table r 2 0
grown_root i r h = i.roles r (λ u. absurd (cc)) ∙ h

-- Nothing has changed for the process.
pub IsGrown-same :
    {image_end : ℕ} {role0 : ℕ → Role} {root start perm : ℕ} {m0 : Memory} (k : ℕ)
    (role role' : ℕ → Role) (m m' : Memory)
    → role0 root ≡ table root 2 0
    → start + k * page_size ≤ maxva
    → IsGrown image_end role0 root start perm m0 k role m
    → IsValid role' m'
    → ((a : ℕ) → role a ≢ unused → role' a ≡ role a)
    → All (λ q. is_bad image_end q ≡ false) m'.free
    → LinksStay role m m'
    → ((P : ℕ → Bool)
        → LinkedIn P role' m'
        → All (λ q. P q ≡ true) m'.free
        → All (λ q. P q ≡ true) m.free)
    → ((a i : ℕ) → role a ≢ unused → m'.byte a i ≡ m.byte a i)
    → ((r va' : ℕ)
        → role r ≡ table r 2 0
        → va' < maxva
        → translation r va' m' ≡ translation r va' m)
    → IsGrown image_end role0 root start perm m0 k role' m'
IsGrown-same {root} {start} k role role' m m' is_root fits i w keep good links taken bytes same =
    record {
      valid = w;
      roles = λ a h. let e = i.roles a h in keep a (λ u. h (sym e ∙ u)) ∙ e;
      good = good;
      taken = λ P t h a.
          i.taken P
            (LinkedIn-back P role role' m m' (λ a r l x e. keep a (λ u. absurd (cc)) ∙ e) links t)
            (λ j b. ap (λ x. P (pte2pa x)) (sym (at j b)) ∙ h j b) (taken P t a);
      bytes = λ a j h. bytes a j (λ u. let e = i.roles a h in h (sym e ∙ u)) ∙ i.bytes a j h;
      zeroed = λ j l h.
          rw (at j h)
            (bytes _ l (λ u. let z = (i.removable.page j h).0 in absurd (cc)) ∙ i.zeroed j l h);
      removable = record {
        leaf = λ j h. rw (at j h) (i.removable.leaf j h);
        page = λ j h.
            let (a, b) = i.removable.page j h in rw (at j h) (keep _ (λ u. absurd (cc)) ∙ a, b);
        apart = λ j l h h'. rw (at j (omega arith), at l h') (i.removable.apart j l h h');
      };
      mapped = λ j h. let (pa, e) = i.mapped j h in (pa, at j h ∙ e);
      others = λ r va' h b d. same r va' (grown_root i r h) b ∙ i.others r va' h b d;
    }
  where
    at :
        (j : ℕ)
        → j < k
        → translation root (start + j * page_size) m' ≡ translation root (start + j * page_size) m
    at j h = same root (start + j * page_size) (grown_root i root is_root) (omega arith)

module _ (image_end : ℕ) (role0 : ℕ → Role) (root start perm : ℕ) (m0 : Memory)
    (al : start % page_size ≡ 0) (is_root : role0 root ≡ table root 2 0) (small : perm < 1024)
    (readable : perm / 2 % 2 ≡ 1) where
  pub IsGrown-zero :
      IsValid role0 m0
      → All (λ q. is_bad image_end q ≡ false) m0.free
      → IsGrown image_end role0 root start perm m0 0 role0 m0
  IsGrown-zero w g = record {
    valid = w;
    roles = λ a h. refl;
    good = g;
    taken = λ P t h a. a;
    bytes = λ a j h. refl;
    zeroed = λ j l h. absurd (omega arith);
    removable = record {
      leaf = λ k h. absurd (omega arith);
      page = λ k h. absurd (omega arith);
      apart = λ j k h h'. absurd (omega arith);
    };
    mapped = λ j h. absurd (omega arith);
    others = λ r va' h b d. refl;
  }

  pub IsGrown-suc :
      (k q : ℕ) (role role1 role2 : ℕ → Role) (m m1 m2 : Memory)
      → start + suc k * page_size ≤ maxva
      → IsGrown image_end role0 root start perm m0 k role m
      → role q ≡ unused
      → q % 4096 ≡ 0
      → is_bad image_end q ≡ false
      → role1 q ≡ other
      → IsTaken role role1 m m1
      → m.free ≡ q ∷ m1.free
      → ((l : ℕ) → m1.byte q l ≡ 0)
      → IsMapped role1 role2 1 root (start + k * page_size) q perm m1 m2
      → IsGrown image_end role0 root start perm m0 (suc k) role2 m2
  IsGrown-suc k q role role1 role2 m m1 m2 fits i qu qa qg qo kept fr zq mp = record {
    valid = mp.valid;
    roles = roles2;
    good = mp.frees (is_bad image_end) (kept.frees (is_bad image_end) i.good);
    taken = taken;
    bytes = bytes;
    zeroed = zeroed;
    removable = record { leaf = leaf; page = page; apart = apart };
    mapped = mapped;
    others = others;
  }
    where
      later : (a : ℕ) → role a ≢ unused → role2 a ≡ role a
      later a h = let e = kept.roles a h in mp.roles a (λ u. h (sym e ∙ u)) ∙ e

      roles2 : (a : ℕ) → role0 a ≢ unused → role2 a ≡ role0 a
      roles2 a h = let e = i.roles a h in later a (λ u. h (sym e ∙ u)) ∙ e

      stay :
          (r va' : ℕ)
          → role0 r ≡ table r 2 0
          → va' < maxva
          → (r ≢ root)
            ⊎ (va' < start + k * page_size)
            ⊎ (start + k * page_size + 1 * page_size ≤ va')
          → translation r va' m2 ≡ translation r va' m
      stay r va' h b d =
          let t = grown_root i r h in
          mp.others r va' (kept.roles r (λ u. absurd (cc)) ∙ t) b d
          ∙ kept.entries 2 r va' r (omega arith) (top role r va' b t)

      old :
          (j : ℕ)
          → j < k
          → translation root (start + j * page_size) m2 ≡ translation root (start + j * page_size) m
      old j h = stay root (start + j * page_size) is_root (omega arith) (inr (inl (omega arith)))

      new : translation root (start + k * page_size) m2 ≡ leaf_pte q perm
      new =
          let e : start + k * page_size ≡ start + k * page_size + 0 * page_size = omega arith in
          let e' : q + 0 * page_size ≡ q = omega arith in
          ap (λ a. translation root a m2) e
          ∙ mp.mapped 0 (omega arith)
          ∙ ap (λ x. leaf_pte x perm) e'

      leads :
          ((not (is_valid (leaf_pte q perm)) || pte_flags (leaf_pte q perm) == 1) ≡ false)
          × (pte2pa (leaf_pte q perm) ≡ q)
      leads = leaf_pte_lem q perm qa small readable

      leaf :
          (j : ℕ)
          → j < suc k
          → (not (is_valid (translation root (start + j * page_size) m2))
              || pte_flags (translation root (start + j * page_size) m2) == 1)
            ≡ false
      leaf j h = elim (lt_cases j k h) [
        | inl l ↦ rw (old j l) (i.removable.leaf j l)
        | inr e ↦ rw (e, new) leads.0
      ]

      page :
          (j : ℕ)
          → j < suc k
          → (role2 (pte2pa (translation root (start + j * page_size) m2)) ≡ other)
            × (is_bad image_end (pte2pa (translation root (start + j * page_size) m2)) ≡ false)
      page j h = elim (lt_cases j k h) [
        | inl l ↦
            let (a, b) = i.removable.page j l in rw (old j l) (later _ (λ u. absurd (cc)) ∙ a, b)
        | inr e ↦ rw (e, new, leads.1) (mp.roles q (λ u. absurd (cc)) ∙ qo, qg)
      ]

      apart :
          (j l : ℕ)
          → j < l
          → l < suc k
          → (pte2pa (translation root (start + j * page_size) m2)
              == pte2pa (translation root (start + l * page_size) m2))
            ≡ false
      apart j l h h' = elim (lt_cases l k h') [
        | inl b ↦ rw (old j (omega arith), old l b) (i.removable.apart j l h b)
        | inr e ↦
            let jk : j < k = omega arith in
            let (a, b) = i.removable.page j jk in
            rw (e, new, old j jk, leads.1) (differs role _ q (λ u. absurd (cc)))
      ]

      links : LinksStay role m m2
      links a j r l x h v =
          let e = kept.same a r (suc l) x j h in
          mp.links a j r l x (kept.roles a (λ u. absurd (cc)) ∙ h) (ap is_valid e ∙ v) ∙ e

      taken :
          (P : ℕ → Bool)
          → LinkedIn P role2 m2
          → ((j : ℕ) → j < suc k → P (pte2pa (translation root (start + j * page_size) m2)) ≡ true)
          → All (λ q. P q ≡ true) m2.free
          → All (λ q. P q ≡ true) m0.free
      taken P t h a =
          let here : P q ≡ true = sym (ap P (ap pte2pa new ∙ leads.1)) ∙ h k (omega arith) in
          i.taken P
            (LinkedIn-back P role role2 m m2 (λ a r l x e. later a (λ u. absurd (cc)) ∙ e) links t)
            (λ j b. ap (λ x. P (pte2pa x)) (sym (old j b)) ∙ h j (omega arith))
            (subst (All (λ q. P q ≡ true)) (sym fr) (here, mp.taken P t a))

      was : (a j : ℕ) → role a ≢ unused → m2.byte a j ≡ m.byte a j
      was a j h = mp.bytes a j (λ u. let e = kept.roles a h in h (sym e ∙ u)) ∙ kept.bytes a j h

      bytes : (a j : ℕ) → role0 a ≢ unused → m2.byte a j ≡ m0.byte a j
      bytes a j h = was a j (λ u. let e = i.roles a h in h (sym e ∙ u)) ∙ i.bytes a j h

      zeroed :
          (j l : ℕ)
          → j < suc k
          → m2.byte (pte2pa (translation root (start + j * page_size) m2)) l ≡ 0
      zeroed j l h = elim (lt_cases j k h) [
        | inl b ↦
            rw (old j b)
              (was _ l (λ u. let z = (i.removable.page j b).0 in absurd (cc)) ∙ i.zeroed j l b)
        | inr e ↦ rw (e, new, leads.1) (mp.bytes q l (λ u. absurd (cc)) ∙ zq l)
      ]

      mapped :
          (j : ℕ)
          → j < suc k
          → (pa : ℕ) × (translation root (start + j * page_size) m2 ≡ leaf_pte pa perm)
      mapped j h = elim (lt_cases j k h) [
        | inl l ↦ let (pa, e) = i.mapped j l in (pa, old j l ∙ e)
        | inr e ↦ (q, rw e new)
      ]

      others :
          (r va' : ℕ)
          → role0 r ≡ table r 2 0
          → va' < maxva
          → (r ≢ root) ⊎ (va' < start) ⊎ (start + suc k * page_size ≤ va')
          → translation r va' m2 ≡ translation r va' m0
      others r va' h b (inl n) = stay r va' h b (inl n) ∙ i.others r va' h b (inl n)
      others r va' h b (inr (inl l)) =
          stay r va' h b (inr (inl (omega arith))) ∙ i.others r va' h b (inr (inl l))
      others r va' h b (inr (inr l)) =
          stay r va' h b (inr (inr (omega arith))) ∙ i.others r va' h b (inr (inr (omega arith)))
