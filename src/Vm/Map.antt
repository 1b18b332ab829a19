-- ===== src/Vm/Map.antt =====
-- The pages that mappages of kernel/vm.c maps, and the others.
use mc.Prelude.{
  ℕ, zero, suc, ◌+◌, ◌*◌, ◌%◌, ◌≤◌, ◌<◌, ◌≡◌, ◌==◌, sym, ap, ◌∙◌, ◌⊎◌, inl, inr, [], Bool, true,
  false, Option, none, some, arith, ◌≢◌, All,
}
use mc.Kalloc.{page_size}
use mc.Vm.{Memory, px, maxva, is_valid, set_pte, leaf_pte}
use mc.Vm.Roles.{Role, unused, table, vpn, IsValid, find, entry}
use mc.Vm.Walk.{IsKept, LinkedIn, LinksStay, LinkedIn-back, keeps_table}
use mc.Vm.Install.{differs}
use mc.Vm.Leaf.{set_pte-entry_same, set_pte-entry_other}

-- The entry of an address in the page table `root`.
abbrev pub translation : (root va : ℕ) → Memory → ℕ
translation root va m = entry 2 root va m

-- The first `n` pages from `va` on are mapped to those from `pa` on; the entries of all other pages, and
-- all other page tables, are as before.
pub record IsMapped (role role' : ℕ → Role) (n root va pa perm : ℕ) (m m' : Memory) : Type 0 where
  pub valid : IsValid role' m'
  pub roles : (a : ℕ) → role a ≢ unused → role' a ≡ role a
  pub frees : (P : ℕ → Bool) → All (λ q. P q ≡ false) m.free → All (λ q. P q ≡ false) m'.free
  pub links : LinksStay role m m'
  pub taken :
      (P : ℕ → Bool)
      → LinkedIn P role' m'
      → All (λ q. P q ≡ true) m'.free
      → All (λ q. P q ≡ true) m.free
  pub bytes : (a i : ℕ) → role a ≢ unused → m'.byte a i ≡ m.byte a i
  pub mapped :
      (k : ℕ)
      → k < n
      → translation root (va + k * page_size) m' ≡ leaf_pte (pa + k * page_size) perm
  pub others :
      (r va' : ℕ)
      → role r ≡ table r 2 0
      → va' < maxva
      → (r ≢ root) ⊎ (va' < va) ⊎ (va + n * page_size ≤ va')
      → translation r va' m' ≡ translation r va' m

-- What mappages may come to. Where it runs out of pages, those before are mapped.
pub data Outcome (role : ℕ → Role) (n root va pa perm : ℕ) (m : Memory)
    : Option (Bool × Memory) → Type 0 where
  all_mapped :
      (role' : ℕ → Role) (m' : Memory)
      → IsMapped role role' n root va pa perm m m'
      → Outcome role n root va pa perm m (some (true, m'))
  out_of_memory :
      (j : ℕ) (role' : ℕ → Role) (m' : Memory)
      → j < n
      → IsMapped role role' j root va pa perm m m'
      → m'.free ≡ []
      → Outcome role n root va pa perm m (some (false, m'))
  remap :
      (j : ℕ)
      → j < n
      → is_valid (translation root (va + j * page_size) m) ≡ true
      → Outcome role n root va pa perm m none

pub top :
    (role : ℕ → Role) (r va : ℕ) → va < maxva → role r ≡ table r 2 0 → role r ≡ table r 2 (vpn 3 va)
top role r va h e = e ∙ ap (λ x. table r 2 x) (omega arith)

-- A step of walk, with no page mapped.
pub IsMapped-walk :
    (role role' : ℕ → Role) (root va pa perm : ℕ) (m m' : Memory)
    → IsKept role role' m m'
    → IsMapped role role' 0 root va pa perm m m'
IsMapped-walk role role' root va pa perm m m' k = record {
  valid = k.valid;
  roles = k.roles;
  frees = k.frees;
  links = k.links;
  taken = k.taken;
  bytes = k.bytes;
  mapped = λ i h. absurd (omega arith);
  others = λ r va' h b d. k.entries 2 r va' r (omega arith) (top role r va' b h);
}

-- A page beyond a range is beyond the range without its first page, and is not that page.
pub beyond_next :
    (root r va n va' : ℕ)
    → (r ≢ root) ⊎ (va' < va) ⊎ (va + suc n * page_size ≤ va')
    → (r ≢ root) ⊎ (va' < va + page_size) ⊎ (va + page_size + n * page_size ≤ va')
beyond_next root r va n va' (inl h) = inl h
beyond_next root r va n va' (inr (inl h)) = inr (inl (omega arith))
beyond_next root r va n va' (inr (inr h)) = inr (inr (omega arith))

pub beyond_first :
    (root r va n va' : ℕ)
    → va % page_size ≡ 0
    → (r ≢ root) ⊎ (va' < va) ⊎ (va + suc n * page_size ≤ va')
    → (r ≢ root) ⊎ (vpn 0 va' ≢ vpn 0 va)
beyond_first root r va n va' al (inl h) = inl h
beyond_first root r va n va' al (inr (inl h)) = inr (λ e. absurd (omega arith))
beyond_first root r va n va' al (inr (inr h)) = inr (λ e. absurd (omega arith))

module _ (role : ℕ → Role) (root va pa perm : ℕ) (m : Memory) (aligned : va % page_size ≡ 0)
    (low : va < maxva) (is_root : role root ≡ table root 2 0) (role1 : ℕ → Role) (m1 : Memory)
    (s : ℕ) (k : IsKept role role1 m m1) (f : find 2 root va m1 ≡ some s)
    (r : role1 s ≡ table root 0 (vpn 1 va)) where
  abbrev m2 : Memory
  m2 = set_pte s (px 0 va) (leaf_pte pa perm) m1

  root1 : role1 root ≡ table root 2 0
  root1 = keeps_table k root root 2 0 is_root

  first_page : translation root va m2 ≡ leaf_pte pa perm
  first_page =
      set_pte-entry_same role1 m1 s va root (leaf_pte pa perm) k.valid r 2 root (omega arith)
        (top role1 root va low root1) f

  pub other_page :
      (r' va' : ℕ)
      → role r' ≡ table r' 2 0
      → va' < maxva
      → (r' ≢ root) ⊎ (vpn 0 va' ≢ vpn 0 va)
      → translation r' va' m2 ≡ translation r' va' m
  other_page r' va' h b d =
      set_pte-entry_other role1 m1 s va root (leaf_pte pa perm) k.valid r 2 r' va' r' (omega arith)
        (top role1 r' va' b (keeps_table k r' r' 2 0 h)) d
      ∙ k.entries 2 r' va' r' (omega arith) (top role r' va' b h)

  pub IsMapped-suc :
      (n : ℕ) (role' : ℕ → Role) (m' : Memory)
      → va + suc n * page_size ≤ maxva
      → IsMapped role1 role' n root (va + page_size) (pa + page_size) perm m2 m'
      → IsMapped role role' (suc n) root va pa perm m m'
  IsMapped-suc n role' m' fits i = record {
    valid = i.valid;
    roles = λ a h. let e = k.roles a h in i.roles a (λ u. h (sym e ∙ u)) ∙ e;
    frees = λ P a. i.frees P (k.frees P a);
    taken = λ P t a.
        k.taken P
          (LinkedIn-back P role1 role' m1 m' (λ a r' l x h. i.roles a (λ u. absurd (cc)) ∙ h) links1
            t)
          (i.taken P t a);
    links = λ a j r' l x h v.
        let e = k.links a j r' l x h v in
        links1 a j r' l x (keeps_table k a r' (suc l) x h) (ap is_valid e ∙ v) ∙ e;
    bytes = λ a j h. i.bytes a j (λ u. let e = k.roles a h in h (sym e ∙ u)) ∙ k.bytes a j h;
    mapped = mapped;
    others = λ r' va' h b d.
        i.others r' va' (keeps_table k r' r' 2 0 h) b (beyond_next root r' va n va' d)
        ∙ other_page r' va' h b (beyond_first root r' va n va' aligned d);
  }
    where
      links1 : LinksStay role1 m1 m'
      links1 a j r' l x h v =
          let ne : (a == s) ≡ false = differs role1 a s (λ e. absurd (cc)) in
          let e : m2.pte a j ≡ m1.pte a j = rw ne in i.links a j r' l x h (ap is_valid e ∙ v) ∙ e

      mapped :
          (j : ℕ)
          → j < suc n
          → translation root (va + j * page_size) m' ≡ leaf_pte (pa + j * page_size) perm
      mapped zero h =
          let e : va + 0 * page_size ≡ va = omega arith in
          let e' : pa ≡ pa + 0 * page_size = omega arith in
          ap (λ a. translation root a m') e
          ∙ i.others root va root1 low (inr (inl (omega arith)))
          ∙ first_page
          ∙ ap (λ b. leaf_pte b perm) e'
      mapped (suc j) h =
          let e : va + suc j * page_size ≡ va + page_size + j * page_size = omega arith in
          let e' : pa + page_size + j * page_size ≡ pa + suc j * page_size = omega arith in
          ap (λ a. translation root a m') e
          ∙ i.mapped j (omega arith)
          ∙ ap (λ b. leaf_pte b perm) e'
