-- ===== src/Vm/Mappages.antt =====
-- The loop of mappages, page by page.
use mc.Prelude.{
  ℕ, zero, suc, ◌+◌, ◌-◌, ◌*◌, ◌/◌, ◌%◌, ◌^◌, ◌≤◌, ◌<◌, ◌≡◌, sym, ap, ◌∙◌, inl, inr, Bool, true,
  false, not, Option, none, some, arith, ◌==◌, Bool-cases, subst, leb,
}
use mc.Kalloc.{page_size}
use mc.Vm.{Memory, px, maxva, is_valid, set_pte, leaf_pte, walk_from, walk, map_from, mappages}
use mc.Vm.Roles.{Role, table, vpn, IsValid, find, entry_of}
use mc.Vm.Walk.{IsKept, IsKept-refl, IsWalked, walk_from_lem, keeps_table}
use mc.Vm.Leaf.{set_pte-IsValid}
use mc.Vm.Map.{
  translation, top, Outcome, all_mapped, out_of_memory, remap, IsMapped-walk, IsMapped-suc,
  other_page,
}

-- A turn of the loop, once walk has answered.
abbrev last_or_next : (fuel root a last pa perm : ℕ) → Memory → Option (Bool × Memory)
last_or_next fuel root a last pa perm m2 = elim (a == last) [
  | true ↦ some (true, m2)
  | false ↦ map_from fuel root ((a + page_size) % 2 ^ 64) last ((pa + page_size) % 2 ^ 64) perm m2
]

abbrev after : (fuel root a last pa perm : ℕ) → Option (ℕ × ℕ) × Memory → Option (Bool × Memory)
after fuel root a last pa perm r = elim r.0 [
  | none ↦ some (false, r.1)
  | some (p, i) ↦ elim (is_valid (r.1.pte p i)) [
    | true ↦ none
    | false ↦ last_or_next fuel root a last pa perm (set_pte p i (leaf_pte pa perm) r.1)
  ]
]

turn :
    (fuel root a last pa perm : ℕ) (m : Memory)
    → a < maxva
    → map_from (suc fuel) root a last pa perm m
      ≡ after fuel root a last pa perm (walk_from true 2 root a m)
unfolding map_from walk
turn fuel root a last pa perm m h =
    let e : leb maxva a ≡ false = ground arith in rw (map_from, walk, e)

module _ (role : ℕ → Role) (n root va pa perm : ℕ) (m : Memory) (al : va % page_size ≡ 0)
    (fits : va + suc n * page_size ≤ maxva) (is_root : role root ≡ table root 2 0)
    (w : IsValid role m) where
  low : va < maxva
  low = omega arith

  turn_lem :
      ((role1 : ℕ → Role) (m1 : Memory) (s : ℕ)
        → IsKept role role1 m m1
        → find 2 root va m1 ≡ some s
        → role1 s ≡ table root 0 (vpn 1 va)
        → Outcome role (suc n) root va pa perm m (
            last_or_next n root va
              (va + n * page_size)
              pa
              perm
              (set_pte s (px 0 va) (leaf_pte pa perm) m1)))
      → Outcome role
          (suc n)
          root
          va
          pa
          perm
          m
          (map_from (suc n) root va (va + n * page_size) pa perm m)
  turn_lem next =
      subst (Outcome role (suc n) root va pa perm m)
        (sym (turn n root va (va + n * page_size) pa perm m low))
        (go (walk_from true 2 root va m)
          (walk_from_lem 2 role m root va root (omega arith) w (top role root va low is_root)))
    where
      go :
          (res : Option (ℕ × ℕ) × Memory)
          → IsWalked role m 2 root va root res
          → Outcome role
              (suc n)
              root
              va
              pa
              perm
              m
              (after n root va (va + n * page_size) pa perm res)
      go (none, m1) (role1, k, h) =
          out_of_memory 0 role1 m1 (omega arith) (IsMapped-walk role role1 root va pa perm m m1 k) h
      go (some (s, i), m1) (role1, k, (f, l, p)) = elim (Bool-cases (is_valid (m1.pte s i))) [
        | inl v ↦
            let t : translation root va m ≡ m1.pte s (px 0 va) =
              sym (k.entries 2 root va root (omega arith) (top role root va low is_root))
              ∙ ap (λ o. entry_of o va m1) f in
            let e : va + 0 * page_size ≡ va = omega arith in
            rw (after, v)
              (remap 0 (omega arith) (
                ap (λ a. is_valid (translation root a m)) e
                ∙ ap is_valid t
                ∙ ap (λ x. is_valid (m1.pte s x)) (sym p)
                ∙ v))
        | inr v ↦
            rw (after, v)
              (subst
                (λ x. Outcome role (suc n) root va pa perm m (
                  last_or_next n root va (va + n * page_size) pa perm
                    (set_pte s x (leaf_pte pa perm) m1)))
                (sym p) (next role1 m1 s k f l))
      ]

-- The outcome from the next page on, once a page is mapped.
Outcome-suc :
    (role role1 : ℕ → Role) (n root va pa perm s : ℕ) (m m1 : Memory) (o : Option (Bool × Memory))
    (al : va % page_size ≡ 0) (fits : va + suc (suc n) * page_size ≤ maxva)
    (is_root : role root ≡ table root 2 0) (k : IsKept role role1 m m1)
    (f : find 2 root va m1 ≡ some s) (r : role1 s ≡ table root 0 (vpn 1 va))
    → Outcome role1
        (suc n)
        root
        (va + page_size)
        (pa + page_size)
        perm
        (set_pte s (px 0 va) (leaf_pte pa perm) m1)
        o
    → Outcome role (suc (suc n)) root va pa perm m o
Outcome-suc role role1 n root va pa perm s m m1 o al fits is_root k f r (all_mapped role' m' i) =
    all_mapped role' m' (
      IsMapped-suc role root va pa perm m al (omega arith) is_root role1 m1 s k f r (suc n) role' m'
        fits i)
Outcome-suc role role1 n root va pa perm s m m1 o al fits is_root k f r
      (out_of_memory j role' m' h i e) =
    out_of_memory (suc j) role' m' (omega arith)
      (IsMapped-suc role root va pa perm m al (omega arith) is_root role1 m1 s k f r j role' m'
        (omega arith) i)
      e
Outcome-suc role role1 n root va pa perm s m m1 o al fits is_root k f r (remap j h v) =
    let e : va + suc j * page_size ≡ va + page_size + j * page_size = omega arith in
    let t =
      other_page role root va pa perm m al (omega arith) is_root role1 m1 s k f r root
        (va + page_size + j * page_size) is_root (omega arith) (inr (λ q. absurd (omega arith))) in
    remap (suc j) (omega arith)
      (ap (λ a. is_valid (translation root a m)) e ∙ ap is_valid (sym t) ∙ v)

map_from_lem :
    (n : ℕ) (role : ℕ → Role) (root va pa perm : ℕ) (m : Memory)
    → va % page_size ≡ 0
    → va + suc n * page_size ≤ maxva
    → pa + suc n * page_size < 2 ^ 64
    → role root ≡ table root 2 0
    → IsValid role m
    → Outcome role
        (suc n)
        root
        va
        pa
        perm
        m
        (map_from (suc n) root va (va + n * page_size) pa perm m)
map_from_lem zero role root va pa perm m al fits pfits r w =
    turn_lem role 0 root va pa perm m al fits r w (λ role1 m1 s k f l.
      let e : (va == va + 0 * page_size) ≡ true = ground arith in
      let w2 = set_pte-IsValid role1 m1 s va root (leaf_pte pa perm) k.valid l in
      rw (last_or_next, e)
        (all_mapped role1 _ (
          IsMapped-suc role root va pa perm m al (omega arith) r role1 m1 s k f l 0 role1 _ fits (
            IsMapped-walk role1 role1 root (va + page_size) (pa + page_size) perm _ _
              (IsKept-refl role1 _ w2)))))
map_from_lem (suc n) role root va pa perm m al fits pfits r w =
    turn_lem role (suc n) root va pa perm m al fits r w (λ role1 m1 s k f l.
      let e : (va == va + suc n * page_size) ≡ false = ground arith in
      let a1 : (va + page_size) % 2 ^ 64 ≡ va + page_size = omega arith in
      let p1 : (pa + page_size) % 2 ^ 64 ≡ pa + page_size = omega arith in
      let last : va + suc n * page_size ≡ va + page_size + n * page_size = omega arith in
      let w2 = set_pte-IsValid role1 m1 s va root (leaf_pte pa perm) k.valid l in
      let next =
        map_from_lem n role1 root (va + page_size) (pa + page_size) perm
          (set_pte s (px 0 va) (leaf_pte pa perm) m1) (omega arith) (omega arith) (omega arith)
          (keeps_table k root root 2 0 r) w2 in
      rw (last_or_next, e, a1, p1, last)
        (Outcome-suc role role1 n root va pa perm s m m1 _ al (omega arith) r k f l next))

-- mappages of whole pages below MAXVA has one of three outcomes. It maps each page of the range to the
-- corresponding physical page with the permissions given; or it runs out of memory, with no page left
-- free, having mapped the pages before; or it panics, and then some page of the range was mapped already.
-- In the first two all other pages of all page tables keep their entries, and the page tables stay trees
-- that share no page. No hypothesis is made on what else is mapped.
pub mappages_lem :
    (role : ℕ → Role) (root va size pa perm : ℕ) (m : Memory)
    → va % page_size ≡ 0
    → size % page_size ≡ 0
    → 0 < size
    → va + size ≤ maxva
    → pa + size < 2 ^ 64
    → role root ≡ table root 2 0
    → IsValid role m
    → Outcome role (size / page_size) root va pa perm m (mappages root va size pa perm m)
unfolding mappages
mappages_lem role root va size pa perm m al whole pos fits pfits r w =
    let n : ℕ = size / page_size - 1 in
    let e1 : not (va % page_size == 0) ≡ false = ground arith in
    let e2 : not (size % page_size == 0) ≡ false = ground arith in
    let e3 : (size == 0) ≡ false = ground arith in
    let pages : size / page_size ≡ suc n = omega arith in
    let last : (va + size + 2 ^ 64 - page_size) % 2 ^ 64 ≡ va + n * page_size = omega arith in
    rw (e1, e2, e3, pages, last)
      (map_from_lem n role root va pa perm m al (omega arith) (omega arith) r w)
