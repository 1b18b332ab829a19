-- ===== src/Vm/Leaf.antt =====
-- A write to the slot of an address in kernel/vm.c, and the entries of other addresses.
use mc.Prelude.{
  ℕ, zero, suc, ◌/◌, ◌%◌, ◌≤◌, ◌≡◌, refl, sym, ap, ◌∙◌, ◌⊎◌, inl, inr, false, ◌&&◌, Option, none,
  some, arith, ◌==◌, ==_iff, ==_self, Bool-cases, ◌≢◌, some_inj,
}
use mc.Vm.{Memory, px, is_valid, set_pte}
use mc.Vm.Roles.{Role, table, vpn, px_lem, IsValid, find, entry_of, entry, child}
use mc.Vm.Install.{differs, same_level}

pub find-role :
    (role : ℕ → Role) (m : Memory) (l a va root s : ℕ)
    → IsValid role m
    → l ≤ 2
    → role a ≡ table root l (vpn (suc l) va)
    → find l a va m ≡ some s
    → role s ≡ table root 0 (vpn 1 va)
find-role role m zero a va root s w b h e = ap role (sym (some_inj a s e)) ∙ h
find-role role m (suc l) a va root s w b h e =
    elim (Bool-cases (is_valid (m.pte a (px (suc l) va)))) [
      | inl v ↦
          find-role role m l _ va root s w (omega arith)
            (child role m l a va root w (omega arith) h v) (rw v at e)
      | inr v ↦ let z : none ≡ some s = rw v at e in absurd (cc)
    ]

-- Where the tables are the same, so are the entries.
pub find-same :
    (role : ℕ → Role) (m m' : Memory)
    → IsValid role m
    → ((a root l x i : ℕ) → role a ≡ table root l x → m'.pte a i ≡ m.pte a i)
    → (l a va root : ℕ) → l ≤ 2
    → role a ≡ table root l (vpn (suc l) va)
    → find l a va m' ≡ find l a va m
find-same role m m' w same zero a va root b h = refl
find-same role m m' w same (suc l) a va root b h =
    let e = same a root (suc l) _ (px (suc l) va) h in
    elim (Bool-cases (is_valid (m.pte a (px (suc l) va)))) [
      | inl v ↦
          rw (e, v)
            (find-same role m m' w same l _ va root (omega arith)
              (child role m l a va root w (omega arith) h v))
      | inr v ↦ rw (e, v)
    ]

pub entry-same :
    (role : ℕ → Role) (m m' : Memory)
    → IsValid role m
    → ((a root l x i : ℕ) → role a ≡ table root l x → m'.pte a i ≡ m.pte a i)
    → (l a va root : ℕ) → l ≤ 2
    → role a ≡ table root l (vpn (suc l) va)
    → entry l a va m' ≡ entry l a va m
entry-same role m m' w same l a va root b h =
    ap (λ o. entry_of o va m') (find-same role m m' w same l a va root b h)
    ∙ go (find l a va m) (λ s e. find-role role m l a va root s w b h e)
  where
    go :
        (o : Option ℕ)
        → ((s : ℕ) → o ≡ some s → role s ≡ table root 0 (vpn 1 va))
        → entry_of o va m' ≡ entry_of o va m
    go none f = refl
    go (some s) f = same s root 0 _ (px 0 va) (f s refl)

-- Addresses of one page have the same entry.
pub entry-page :
    (m : Memory) (l a va va' : ℕ) → l ≤ 2 → vpn 0 va ≡ vpn 0 va' → entry l a va m ≡ entry l a va' m
entry-page m zero a va va' b e = let p : px 0 va ≡ px 0 va' = omega arith in rw p
entry-page m (suc l) a va va' b e =
    let p : px (suc l) va ≡ px (suc l) va' =
      px_lem (suc l) va b ∙ ap (λ x. x % 512) (same (suc l)) ∙ sym (px_lem (suc l) va' b) in
    rw p (elim (Bool-cases (is_valid (m.pte a (px (suc l) va')))) [
      | inl v ↦ rw v (entry-page m l _ va va' (omega arith) e)
      | inr v ↦ rw v
    ])
  where
    same : (k : ℕ) → vpn k va ≡ vpn k va'
    same zero = e
    same (suc k) = ap (λ x. x / 512) (same k)

module _ (role : ℕ → Role) (m : Memory) (s va root x : ℕ) (w : IsValid role m)
    (r : role s ≡ table root 0 (vpn 1 va)) where
  abbrev m' : Memory
  m' = set_pte s (px 0 va) x m

  upper : (a i root' l y : ℕ) → role a ≡ table root' (suc l) y → m'.pte a i ≡ m.pte a i
  upper a i root' l y h = let e : (a == s) ≡ false = differs role a s (λ q. absurd (cc)) in rw e

  pub set_pte-IsValid : IsValid role m'
  set_pte-IsValid = record {
    children = λ a i root' l y h lt v.
        let e = upper a i root' l y h in rw e (w.children a i root' l y h lt (rw e at v));
    free_pages = w.free_pages;
    distinct = w.distinct;
  }

  set_pte-find :
      (l a va' root' : ℕ)
      → l ≤ 2
      → role a ≡ table root' l (vpn (suc l) va')
      → find l a va' m' ≡ find l a va' m
  set_pte-find zero a va' root' b h = refl
  set_pte-find (suc l) a va' root' b h =
      let e = upper a (px (suc l) va') root' l _ h in
      elim (Bool-cases (is_valid (m.pte a (px (suc l) va')))) [
        | inl v ↦
            rw (e, v)
              (set_pte-find l _ va' root' (omega arith)
                (child role m l a va' root' w (omega arith) h v))
        | inr v ↦ rw (e, v)
      ]

  pub set_pte-entry_same :
      (l a : ℕ)
      → l ≤ 2
      → role a ≡ table root l (vpn (suc l) va)
      → find l a va m ≡ some s
      → entry l a va m' ≡ x
  set_pte-entry_same l a b h f = rw (set_pte-find l a va root b h, f, ==_self s, ==_self (px 0 va))

  pub set_pte-entry_other :
      (l a va' root' : ℕ)
      → l ≤ 2
      → role a ≡ table root' l (vpn (suc l) va')
      → (root' ≢ root) ⊎ (vpn 0 va' ≢ vpn 0 va)
      → entry l a va' m' ≡ entry l a va' m
  set_pte-entry_other l a va' root' b h d =
      rw (set_pte-find l a va' root' b h) (go (find l a va' m) (find-role role m l a va' root'))
    where
      go :
          (o : Option ℕ)
          → ((s' : ℕ)
              → IsValid role m
              → l ≤ 2
              → role a ≡ table root' l (vpn (suc l) va')
              → o ≡ some s'
              → role s' ≡ table root' 0 (vpn 1 va'))
          → entry_of o va' m' ≡ entry_of o va' m
      go none f = refl
      go (some s') f = elim (Bool-cases (s' == s && px 0 va' == px 0 va)) [
        | inr t ↦ rw t
        | inl t ↦
            let s_s : s' ≡ s = (==_iff s' s).0 (ground (arith, t)) in
            let p_p : px 0 va' ≡ px 0 va = (==_iff (px 0 va') (px 0 va)).0 (ground (arith, t)) in
            let k = same_level (sym (f s' w b h refl) ∙ ap role s_s ∙ r) in
            let k2 : va' / 4096 / 512 ≡ va / 4096 / 512 = k.2 in
            let v_v : va' / 4096 ≡ va / 4096 = omega arith in
            absurd (elim d [ inl n ↦ n k.0 | inr n ↦ n v_v ])
      ]
