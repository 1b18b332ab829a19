-- ===== src/Vm/Walk.antt =====
-- walk of kernel/vm.c: where it leads, and what it changes.
use Prim.Native.Nat.{bit_or}
use mc.Prelude.{
  ℕ, zero, suc, ◌≤◌, ◌<◌, ◌≡◌, refl, sym, ap, ◌∙◌, inl, inr, List, [], ◌∷◌, Bool, true, false, ◌&&◌,
  Option, none, some, arith, if◌then◌else◌, ◌==◌, ==_iff, ==_self, Bool-cases, List-cases, All,
  subst, ◌≢◌,
}
use mc.Vm.{Memory, px, pte2pa, pa2pte, is_valid, install, walk_from}
use mc.Vm.Roles.{Role, unused, table, vpn, IsValid, find, entry, child}
use mc.Vm.Install.{
  differs, install-entry, install-IsValid, role_after, role_kept, read, q_free, installed_entry,
}

-- The links from tables to lower tables lead to pages with a property, or stay from one memory to another.
abbrev pub LinkedIn : (ℕ → Bool) → (ℕ → Role) → Memory → Type 0
LinkedIn P role m =
    (a i root l x : ℕ)
    → role a ≡ table root (suc l) x
    → i < 512
    → is_valid (m.pte a i) ≡ true
    → P (pte2pa (m.pte a i)) ≡ true

abbrev pub LinksStay : (ℕ → Role) → Memory → Memory → Type 0
LinksStay role m m' =
    (a i root l x : ℕ)
    → role a ≡ table root (suc l) x
    → is_valid (m.pte a i) ≡ true
    → m'.pte a i ≡ m.pte a i

pub LinkedIn-back :
    (P : ℕ → Bool) (role role' : ℕ → Role) (m m' : Memory)
    → ((a root l x : ℕ) → role a ≡ table root l x → role' a ≡ table root l x)
    → LinksStay role m m'
    → LinkedIn P role' m'
    → LinkedIn P role m
LinkedIn-back P role role' m m' keeps links t a i root l x h b v =
    let e = links a i root l x h v in
    ap (λ y. P (pte2pa y)) (sym e) ∙ t a i root l x (keeps a root (suc l) x h) b (ap is_valid e ∙ v)

-- From one memory to another: pages in use keep their roles, and the entries of all addresses in all page
-- tables stay.
pub record IsKept (role role' : ℕ → Role) (m m' : Memory) : Type 0 where
  pub valid : IsValid role' m'
  pub roles : (a : ℕ) → role a ≢ unused → role' a ≡ role a
  pub entries :
      (l a va root : ℕ)
      → l ≤ 2
      → role a ≡ table root l (vpn (suc l) va)
      → entry l a va m' ≡ entry l a va m
  -- the links to lower tables stay
  pub links :
      (a i root l x : ℕ)
      → role a ≡ table root (suc l) x
      → is_valid (m.pte a i) ≡ true
      → m'.pte a i ≡ m.pte a i
  -- the pages that are free were free
  pub frees : (P : ℕ → Bool) → All (λ q. P q ≡ false) m.free → All (λ q. P q ≡ false) m'.free
  -- the pages that were free are free or linked from a table
  pub taken :
      (P : ℕ → Bool)
      → LinkedIn P role' m'
      → All (λ q. P q ≡ true) m'.free
      → All (λ q. P q ≡ true) m.free
  -- the bytes of pages in use stay
  pub bytes : (a i : ℕ) → role a ≢ unused → m'.byte a i ≡ m.byte a i

pub IsKept-refl : (role : ℕ → Role) (m : Memory) → IsValid role m → IsKept role role m m
IsKept-refl role m w = record {
  valid = w;
  roles = λ a h. refl;
  entries = λ l a va root b h. refl;
  links = λ a i root l x h v. refl;
  frees = λ P a. a;
  taken = λ P t a. a;
  bytes = λ a i h. refl;
}

pub keeps_table :
    {role role' : ℕ → Role} {m m' : Memory} (k : IsKept role role' m m') (a root l x : ℕ)
    → role a ≡ table root l x
    → role' a ≡ table root l x
keeps_table k a root l x h = k.roles a (λ u. absurd (cc)) ∙ h

IsKept-trans :
    (role role' role'' : ℕ → Role) (m m' m'' : Memory)
    → IsKept role role' m m'
    → IsKept role' role'' m' m''
    → IsKept role role'' m m''
IsKept-trans role role' role'' m m' m'' k k' = record {
  valid = k'.valid;
  roles = λ a h. let e = k.roles a h in k'.roles a (λ u. h (sym e ∙ u)) ∙ e;
  entries = λ l a va root b h.
      k'.entries l a va root b (keeps_table k a root l _ h) ∙ k.entries l a va root b h;
  links = λ a i root l x h v.
      let e = k.links a i root l x h v in
      k'.links a i root l x (keeps_table k a root (suc l) x h) (rw e v) ∙ e;
  frees = λ P a. k'.frees P (k.frees P a);
  taken = λ P t a.
      k.taken P (LinkedIn-back P role' role'' m' m'' (keeps_table k') k'.links t) (k'.taken P t a);
  bytes = λ a i h. k'.bytes a i (λ u. let e = k.roles a h in h (sym e ∙ u)) ∙ k.bytes a i h;
}

install-IsKept :
    (role : ℕ → Role) (m : Memory) (level p va root q : ℕ) (rest : List ℕ) (w : IsValid role m)
    (low : level ≤ 1) (r : role p ≡ table root (suc level) (vpn (suc (suc level)) va))
    (v : is_valid (m.pte p (px (suc level) va)) ≡ false) (f : m.free ≡ q ∷ rest)
    → IsKept role
        (role_after role m level p va root q rest w low r v f)
        m
        (install p (px (suc level) va) q rest m)
install-IsKept role m level p va root q rest w low r v f = record {
  valid = install-IsValid role m level p va root q rest w low r v f;
  roles = role_kept role m level p va root q rest w low r v f;
  entries = install-entry role m level p va root q rest w low r v f;
  links = λ a i root' l x h y.
      read role m level p va root q rest w low r v f a i root' (suc l) x h ∙ not_there a i y;
  frees = λ P a. (subst (All (λ q. P q ≡ false)) f a).1;
  taken = λ P t a. subst (All (λ q. P q ≡ true)) (sym f) (linked P t, a);
  bytes = λ a i h.
      let u = (q_free role m level p va root q rest w low r v f).0 in
      let e : (a == q) ≡ false = differs role a q (λ x. h (x ∙ u)) in rw e;
}
  where
    m' : Memory
    m' = install p (px (suc level) va) q rest m

    linked :
        (P : ℕ → Bool)
        → LinkedIn P (role_after role m level p va root q rest w low r v f) m'
        → P q ≡ true
    linked P t =
        let z = q_free role m level p va root q rest w low r v f in
        let o = installed_entry q z.1 in
        let e : m'.pte p (px (suc level) va) ≡ bit_or (pa2pte q) 1 =
          read role m level p va root q rest w low r v f p (px (suc level) va) root (suc level) _ r
          ∙ rw (==_self p, ==_self (px (suc level) va)) in
        let h =
          t p (px (suc level) va) root level (vpn (suc (suc level)) va)
            (role_kept role m level p va root q rest w low r v f p (λ u. absurd (cc)) ∙ r)
            (omega arith) (ap is_valid e ∙ o.0) in
        sym (ap P (ap pte2pa e ∙ o.1)) ∙ h

    not_there :
        (a i : ℕ)
        → is_valid (m.pte a i) ≡ true
        → (if a == p && i == px (suc level) va then bit_or (pa2pte q) 1 else m.pte a i) ≡ m.pte a i
    not_there a i y = elim (Bool-cases (a == p && i == px (suc level) va)) [
      | inl t ↦
          let a_p : a ≡ p = (==_iff a p).0 (ground (arith, t)) in
          let i_i : i ≡ px (suc level) va = (==_iff i (px (suc level) va)).0 (ground (arith, t)) in
          let z : is_valid (m.pte a i) ≡ false = rw (a_p, i_i) v in absurd (cc)
      | inr t ↦ rw t
    ]

-- Where walk leads: to the slot of the address, in the leaf table that the address finds; or nowhere, for
-- want of a page.
abbrev pub Leads : (ℕ → Role) → Memory → (level p va root : ℕ) → Option (ℕ × ℕ) → Type 0
Leads role m level p va root none = m.free ≡ []
Leads role m level p va root (some (s, i)) =
    (find level p va m ≡ some s) × (role s ≡ table root 0 (vpn 1 va)) × (i ≡ px 0 va)

abbrev pub IsWalked : (ℕ → Role) → Memory → (level p va root : ℕ) → Option (ℕ × ℕ) × Memory → Type 0
IsWalked role m level p va root res =
    (role' : ℕ → Role) × IsKept role role' m res.1 × Leads role' res.1 level p va root res.0

Leads-up :
    (role : ℕ → Role) (m : Memory) (level p va root c : ℕ) (o : Option (ℕ × ℕ))
    → is_valid (m.pte p (px (suc level) va)) ≡ true
    → pte2pa (m.pte p (px (suc level) va)) ≡ c
    → Leads role m level c va root o
    → Leads role m (suc level) p va root o
Leads-up role m level p va root c none v e h = h
Leads-up role m level p va root c (some (s, i)) v e h = (rw (v, e) h.0, h.1, h.2)

walk_valid :
    (alloc : Bool) (level p va : ℕ) (m : Memory)
    → is_valid (m.pte p (px (suc level) va)) ≡ true
    → walk_from alloc (suc level) p va m
      ≡ walk_from alloc level (pte2pa (m.pte p (px (suc level) va))) va m
unfolding walk_from
walk_valid alloc level p va m v = rw (walk_from, v)

walk_stops :
    (level p va : ℕ) (m : Memory)
    → is_valid (m.pte p (px (suc level) va)) ≡ false
    → m.free ≡ []
    → walk_from true (suc level) p va m ≡ (none, m)
unfolding walk_from
walk_stops level p va m v f =
    rw (walk_from, v)
      (ap
        (λ l. elim l [
          | [] ↦ (none, m)
          | q ∷ rest ↦ walk_from true level q va (install p (px (suc level) va) q rest m)
        ])
        f)

walk_allocates :
    (level p va q : ℕ) (rest : List ℕ) (m : Memory)
    → is_valid (m.pte p (px (suc level) va)) ≡ false
    → m.free ≡ q ∷ rest
    → walk_from true (suc level) p va m
      ≡ walk_from true level q va (install p (px (suc level) va) q rest m)
unfolding walk_from
walk_allocates level p va q rest m v f = rw (walk_from, v, f)

pub walk_from_lem :
    (level : ℕ) (role : ℕ → Role) (m : Memory) (p va root : ℕ)
    → level ≤ 2
    → IsValid role m
    → role p ≡ table root level (vpn (suc level) va)
    → IsWalked role m level p va root (walk_from true level p va m)
unfolding walk_from
walk_from_lem zero role m p va root b w r = (role, IsKept-refl role m w, (refl, r, refl))
walk_from_lem (suc level) role m p va root b w r =
    elim (Bool-cases (is_valid (m.pte p (px (suc level) va)))) [
      | inl v ↦
          let c = child role m level p va root w (omega arith) r v in
          let (role', k, h) = walk_from_lem level role m _ va root (omega arith) w c in
          let same = k.links p (px (suc level) va) root level _ r v in
          subst (IsWalked role m (suc level) p va root) (sym (walk_valid true level p va m v))
            (role', k, Leads-up role' _ level p va root _ _ (rw same v) (ap pte2pa same) h)
      | inr v ↦ elim (List-cases m.free) [
        | inl f ↦
            subst (IsWalked role m (suc level) p va root) (sym (walk_stops level p va m v f))
              (role, IsKept-refl role m w, f)
        | inr (q, rest, f) ↦
            let low : level ≤ 1 = omega arith in
            let role1 = role_after role m level p va root q rest w low r v f in
            let k1 = install-IsKept role m level p va root q rest w low r v f in
            let (role', k, h) =
              walk_from_lem level role1 _ q va root (omega arith) k1.valid (rw (==_self q)) in
            let p1 = keeps_table k1 p root (suc level) _ r in
            let o = installed_entry q (q_free role m level p va root q rest w low r v f).1 in
            let read1 =
              read role m level p va root q rest w low r v f p (px (suc level) va) root (suc level)
                _ r
              ∙ rw (==_self p, ==_self (px (suc level) va)) in
            let same = k.links p (px (suc level) va) root level _ p1 (rw read1 o.0) ∙ read1 in
            subst (IsWalked role m (suc level) p va root)
              (sym (walk_allocates level p va q rest m v f))
              (
                role',
                IsKept-trans role role1 role' m _ _ k1 k,
                Leads-up role' _ level p va root q _ (rw same o.0) (ap pte2pa same ∙ o.1) h,
              )
      ]
    ]
