-- ===== src/Vm/User/Page.antt =====
-- A page from kalloc, and the entry that leads to it.
use Prim.Native.Nat.{bit_or}
use mc.Prelude.{
  ℕ, suc, ◌≤◌, Bool, ◌/◌, ◌%◌, ◌<◌, ◌≡◌, sym, ◌∙◌, inl, inr, List, [], ◌∷◌, false, not, ◌||◌, arith,
  ◌==◌, Bool-cases, subst, ◌≢◌, All, update,
}
use mc.Kalloc.Pages.{NotIn, Distinct}
use mc.Vm.{Memory, is_valid, pte2pa, pa2pte, pte_flags, leaf_pte}
use mc.Vm.Bits.{bit_or-odd, bit_or-high, bit_or-second}
use mc.Vm.Roles.{Role, unused, other, table, vpn, IsValid, entry}
use mc.Vm.Install.{differs}
use mc.Vm.Leaf.{entry-same}

-- A free page that has a use of its own from now on: the pages in use keep their roles, bytes and entries.
pub record IsTaken (role role' : ℕ → Role) (m m' : Memory) : Type 0 where
  pub valid : IsValid role' m'
  pub roles : (a : ℕ) → role a ≢ unused → role' a ≡ role a
  pub entries :
      (l a va root : ℕ)
      → l ≤ 2
      → role a ≡ table root l (vpn (suc l) va)
      → entry l a va m' ≡ entry l a va m
  pub same : (a root l x i : ℕ) → role a ≡ table root l x → m'.pte a i ≡ m.pte a i
  pub frees : (P : ℕ → Bool) → All (λ q. P q ≡ false) m.free → All (λ q. P q ≡ false) m'.free
  pub bytes : (a i : ℕ) → role a ≢ unused → m'.byte a i ≡ m.byte a i

-- The page first on the free list, filled with zeros, and of another use from now on.
module _ (role : ℕ → Role) (m m' : Memory) (q : ℕ) (rest : List ℕ) (w : IsValid role m)
    (f : m.free ≡ q ∷ rest) (f' : m'.free ≡ rest)
    (g : (a i : ℕ) → (a == q) ≡ false → m'.pte a i ≡ m.pte a i)
    (g' : (a i : ℕ) → (a == q) ≡ false → m'.byte a i ≡ m.byte a i) where
  q_was : (role q ≡ unused) × (q % 4096 ≡ 0)
  q_was = (subst (All (λ q. (role q ≡ unused) × (q % 4096 ≡ 0))) f w.free_pages).0

  used : ℕ → Role
  used = update role q other

  used_same : (a : ℕ) → role a ≢ unused → used a ≡ role a
  unfolding used
  used_same a h = let e : (q == a) ≡ false = differs role q a (λ x. h (sym x ∙ q_was.0)) in rw e

  was_table : (a root l x : ℕ) → used a ≡ table root l x → role a ≡ table root l x
  unfolding used
  was_table a root l x h = elim (Bool-cases (q == a)) [
    | inl e ↦ let z : other ≡ table root l x = rw e at h in absurd (cc)
    | inr e ↦ rw e at h
  ]

  same : (a root l x i : ℕ) → role a ≡ table root l x → m'.pte a i ≡ m.pte a i
  same a root l x i h = g a i (differs role a q (λ e. absurd (let u = q_was.0 in cc)))

  still_free :
      (xs : List ℕ)
      → NotIn q xs
      → All (λ x. (role x ≡ unused) × (x % 4096 ≡ 0)) xs
      → All (λ x. (used x ≡ unused) × (x % 4096 ≡ 0)) xs
  unfolding used
  still_free [] n a = tt
  still_free (x ∷ xs) n a = ((rw n.0 a.0.0, a.0.1), still_free xs n.1 a.1)

  take_page-IsValid : IsValid used m'
  take_page-IsValid =
      let d = subst Distinct f w.distinct in
      let a = subst (All (λ x. (role x ≡ unused) × (x % 4096 ≡ 0))) f w.free_pages in
      record {
        children = λ p i root l x h lt v.
            let t = was_table p root (suc l) x h in
            let e = same p root (suc l) x i t in
            let c = w.children p i root l x t lt (rw e at v) in
            rw e (used_same _ (λ u. absurd (cc)) ∙ c);
        free_pages =
            subst (All (λ x. (used x ≡ unused) × (x % 4096 ≡ 0))) (sym f')
              (still_free rest d.0 a.1);
        distinct = subst Distinct (sym f') d.1;
      }

  pub take_page-IsTaken : IsTaken role (update role q other) m m'
  unfolding used
  take_page-IsTaken = record {
    valid = take_page-IsValid;
    roles = used_same;
    entries = entry-same role m m' w same;
    same = same;
    frees = λ P a. subst (All (λ q. P q ≡ false)) (sym f') (subst (All (λ q. P q ≡ false)) f a).1;
    bytes = λ a i h. g' a i (differs role a q (λ x. h (x ∙ q_was.0)));
  }

-- An entry with PTE_R for a page is a leaf, and leads to the page.
pub leaf_pte_lem :
    (pa perm : ℕ)
    → pa % 4096 ≡ 0
    → perm < 1024
    → perm / 2 % 2 ≡ 1
    → ((not (is_valid (leaf_pte pa perm)) || pte_flags (leaf_pte pa perm) == 1) ≡ false)
      × (pte2pa (leaf_pte pa perm) ≡ pa)
leaf_pte_lem pa perm al small readable =
    let e : ℕ = bit_or (pa2pte pa) perm in
    let odd = bit_or-odd e in
    let second : bit_or e 1 / 2 % 2 ≡ 1 =
      bit_or-second e 1 ∙ omega (arith, bit_or-second (pa2pte pa) perm, readable) in
    let high = bit_or-high e 1 (omega arith) ∙ bit_or-high (pa2pte pa) perm small in
    (ground (arith, odd, second), omega (arith, high))
