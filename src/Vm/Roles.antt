-- ===== src/Vm/Roles.antt =====
-- What each page is used for.
use mc.Prelude.{
  ℕ, zero, suc, ◌+◌, ◌*◌, ◌/◌, ◌%◌, ◌≤◌, ◌<◌, ◌≡◌, ap, ◌∙◌, true, Option, none, some, arith,
  if◌then◌else◌, All,
}
use mc.Kalloc.Pages.{Distinct}
use mc.Vm.{Memory, px, pte2pa, is_valid}

-- A page is free, a page-table page, or of another use. A table is of a page table `root`, at a level, for
-- the addresses that begin with `prefix`.
pub data Role : Type 0 where
  unused other : Role
  table : (root level prefix : ℕ) → Role

-- the virtual page number without its last `level` indices
abbrev pub vpn : (level va : ℕ) → ℕ
vpn zero va = va / 4096
vpn (suc level) va = vpn level va / 512

pub px_lem : (level va : ℕ) → level ≤ 2 → px level va ≡ vpn level va % 512
px_lem zero va h = omega arith
px_lem (suc zero) va h = omega arith
px_lem (suc (suc zero)) va h = omega arith
px_lem (suc (suc (suc level))) va h = absurd (omega arith)

pub record IsValid (role : ℕ → Role) (m : Memory) : Type 0 where
  pub children :
      (p i root level prefix : ℕ)
      → role p ≡ table root (suc level) prefix
      → i < 512
      → is_valid (m.pte p i) ≡ true
      → role (pte2pa (m.pte p i)) ≡ table root level (prefix * 512 + i)
  pub free_pages : All (λ q. (role q ≡ unused) × (q % 4096 ≡ 0)) m.free
  pub distinct : Distinct m.free

-- The leaf table that an address leads to.
abbrev pub find : (level page va : ℕ) → Memory → Option ℕ
find zero p va m = some p
find (suc level) p va m =
    let next = find level (pte2pa (m.pte p (px (suc level) va))) va m in
    if is_valid (m.pte p (px (suc level) va)) then next else none

abbrev pub entry_of : Option ℕ → (va : ℕ) → Memory → ℕ
entry_of none va m = 0
entry_of (some s) va m = m.pte s (px 0 va)

-- The entry of an address, 0 where its page table has no place for one.
abbrev pub entry : (level page va : ℕ) → Memory → ℕ
entry level p va m = entry_of (find level p va m) va m

-- An index leads from a table to the table for the longer prefix.
pub child :
    (role : ℕ → Role) (m : Memory) (level p va root : ℕ)
    → IsValid role m
    → level ≤ 1
    → role p ≡ table root (suc level) (vpn (suc (suc level)) va)
    → is_valid (m.pte p (px (suc level) va)) ≡ true
    → role (pte2pa (m.pte p (px (suc level) va))) ≡ table root level (vpn (suc level) va)
child role m level p va root w l r v =
    let e = w.children p (px (suc level) va) root level _ r (omega arith) v in
    let q = px_lem (suc level) va (omega arith) in e ∙ ap (λ x. table root level x) (omega arith)
