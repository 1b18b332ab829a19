-- ===== src/Vm/Install.antt =====
-- What a new page-table page of walk changes.
use Prim.Native.Nat.{bit_or}
use mc.Prelude.{
  ℕ, zero, suc, ◌+◌, ◌*◌, ◌%◌, ◌≤◌, ◌<◌, ◌≡◌, sym, ap, ◌∙◌, inl, inr, List, [], ◌∷◌, true, false,
  ◌&&◌, arith, if◌then◌else◌, ◌==◌, ==_iff, ==_self, Bool-cases, All, update, subst, ◌≢◌,
}
use mc.Kalloc.Pages.{NotIn, Distinct}
use mc.Vm.{Memory, px, pte2pa, pa2pte, is_valid, install}
use mc.Vm.Bits.{bit_or-odd, bit_or-high}
use mc.Vm.Roles.{Role, unused, table, vpn, px_lem, IsValid, entry, child}

-- Pages with different roles are different pages.
pub differs : (role : ℕ → Role) (a b : ℕ) → role a ≢ role b → (a == b) ≡ false
differs role a b h = elim (Bool-cases (a == b)) [
  | inl e ↦ absurd (h (ap role ((==_iff a b).0 e)))
  | inr e ↦ e
]

pub table_unused :
    (role : ℕ → Role) (a b root level x : ℕ)
    → role a ≡ table root level x
    → role b ≡ unused
    → role a ≢ role b
table_unused role a b root level x h k e = cc

pub same_level :
    {r r' l l' x x' : ℕ} → table r l x ≡ table r' l' x' → (r ≡ r') × (l ≡ l') × (x ≡ x')
same_level e = (cc, cc, cc)

pub installed_entry :
    (q : ℕ)
    → q % 4096 ≡ 0
    → (is_valid (bit_or (pa2pte q) 1) ≡ true) × (pte2pa (bit_or (pa2pte q) 1) ≡ q)
installed_entry q h =
    let o = bit_or-odd (pa2pte q) in
    let t = bit_or-high (pa2pte q) 1 (omega arith) in (ground (arith, o), omega arith)

-- A page of zeros has no entries.
zero-entry : (level q va : ℕ) (m : Memory) → ((i : ℕ) → m.pte q i ≡ 0) → entry level q va m ≡ 0
zero-entry zero q va m h = h (px 0 va)
zero-entry (suc level) q va m h = rw (h (px (suc level) va))

module _ (role : ℕ → Role) (m : Memory) (level p va root q : ℕ) (rest : List ℕ) (w : IsValid role m)
    (low : level ≤ 1) (r : role p ≡ table root (suc level) (vpn (suc (suc level)) va))
    (v : is_valid (m.pte p (px (suc level) va)) ≡ false) (f : m.free ≡ q ∷ rest) where
  abbrev m' : Memory
  m' = install p (px (suc level) va) q rest m

  abbrev pub role_after : ℕ → Role
  role_after = update role q (table root level (vpn (suc level) va))

  pub q_free : (role q ≡ unused) × (q % 4096 ≡ 0)
  q_free = (subst (λ l. All (λ q. (role q ≡ unused) × (q % 4096 ≡ 0)) l) f w.free_pages).0

  pub role_kept : (a : ℕ) → role a ≢ unused → role_after a ≡ role a
  role_kept a h = let e : (q == a) ≡ false = differs role q a (λ x. h (sym x ∙ q_free.0)) in rw e

  -- the entries of a page that is in use
  pub read :
      (a i root' level' x : ℕ)
      → role a ≡ table root' level' x
      → m'.pte a i ≡ (if a == p && i == px (suc level) va then bit_or (pa2pte q) 1 else m.pte a i)
  read a i root' level' x h =
      rw (differs role a q (table_unused role a q root' level' x h q_free.0))

  read-q : (i : ℕ) → m'.pte q i ≡ 0
  read-q i =
      let e : (q == p) ≡ false =
        differs role q p (λ x. table_unused role p q root (suc level) _ r q_free.0 (sym x)) in
      rw (e, ==_self q)

  pub install-entry :
      (l a va' root' : ℕ)
      → l ≤ 2
      → role a ≡ table root' l (vpn (suc l) va')
      → entry l a va' m' ≡ entry l a va' m
  install-entry zero a va' root' b h =
      let e : (a == p) ≡ false = differs role a p (λ x. absurd (cc)) in
      read a (px 0 va') root' 0 _ h ∙ rw e
  install-entry (suc l) a va' root' b h =
      elim (Bool-cases (a == p && px (suc l) va' == px (suc level) va)) [
        | inl e ↦
            let a_p : a ≡ p = (==_iff a p).0 (ground (arith, e)) in
            let i_i : px (suc l) va' ≡ px (suc level) va =
              (==_iff (px (suc l) va') (px (suc level) va)).0 (ground (arith, e)) in
            let after : m'.pte a (px (suc l) va') ≡ bit_or (pa2pte q) 1 =
              read a _ root' (suc l) _ h ∙ rw e in
            let before : is_valid (m.pte a (px (suc l) va')) ≡ false = rw (a_p, i_i) v in
            let i = installed_entry q q_free.1 in
            rw (after, i.0, i.1, before) (zero-entry l q va' m' read-q)
        | inr e ↦
            let same : m'.pte a (px (suc l) va') ≡ m.pte a (px (suc l) va') =
              read a _ root' (suc l) _ h ∙ rw e in
            elim (Bool-cases (is_valid (m.pte a (px (suc l) va')))) [
              | inl y ↦
                  rw (same, y)
                    (install-entry l _ va' root' (omega arith)
                      (child role m l a va' root' w (omega arith) h y))
              | inr n ↦ rw (same, n)
            ]
      ]

  pieces : NotIn q rest × Distinct rest × All (λ x. (role x ≡ unused) × (x % 4096 ≡ 0)) rest
  pieces =
      let d = subst Distinct f w.distinct in
      (d.0, d.1, (subst (λ l. All (λ q. (role q ≡ unused) × (q % 4096 ≡ 0)) l) f w.free_pages).1)

  still_free :
      (xs : List ℕ)
      → NotIn q xs
      → All (λ x. (role x ≡ unused) × (x % 4096 ≡ 0)) xs
      → All (λ x. (role_after x ≡ unused) × (x % 4096 ≡ 0)) xs
  still_free [] n a = tt
  still_free (x ∷ xs) n a = ((rw n.0 a.0.0, a.0.1), still_free xs n.1 a.1)

  install-children :
      (a i root' l x : ℕ)
      → role_after a ≡ table root' (suc l) x
      → i < 512
      → is_valid (m'.pte a i) ≡ true
      → role_after (pte2pa (m'.pte a i)) ≡ table root' l (x * 512 + i)
  install-children a i root' l x h lt y = elim (Bool-cases (q == a)) [
    | inl e ↦
        let z : is_valid (m'.pte a i) ≡ false =
          ap (λ b. is_valid (m'.pte b i)) (sym ((==_iff q a).0 e)) ∙ ap is_valid (read-q i) in
        absurd (cc)
    | inr e ↦
        let k : role a ≡ table root' (suc l) x = rw e at h in
        elim (Bool-cases (a == p && i == px (suc level) va)) [
          | inl t ↦
              let a_p : a ≡ p = (==_iff a p).0 (ground (arith, t)) in
              let i_i : i ≡ px (suc level) va =
                (==_iff i (px (suc level) va)).0 (ground (arith, t)) in
              let s = same_level (sym k ∙ ap role a_p ∙ r) in
              let o = installed_entry q q_free.1 in
              let x_x : x * 512 + i ≡ vpn (suc level) va =
                let j : i ≡ vpn (suc level) va % 512 = i_i ∙ px_lem (suc level) va (omega arith) in
                omega (arith, j, s.2) in
              let s0 : root' ≡ root = s.0 in
              let s1 : suc l ≡ suc level = s.1 in
              rw (read a i root' (suc l) x k, t, o.1, ==_self q) (cc)
          | inr t ↦
              let c = w.children a i root' l x k lt (rw (read a i root' (suc l) x k, t) at y) in
              rw (read a i root' (suc l) x k, t) (role_kept _ (λ u. absurd (cc)) ∙ c)
        ]
  ]

  pub install-IsValid : IsValid role_after m'
  install-IsValid = record {
    children = install-children;
    free_pages = still_free rest pieces.0 pieces.2;
    distinct = pieces.1;
  }
