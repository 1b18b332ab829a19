-- ===== src/Vm.antt =====
-- kernel/vm.c and the page table entries of kernel/riscv.h. A page is named by its address. It holds 512
-- page table entries or 4096 bytes; the free pages are the list that kernel/kalloc.c keeps, first the one
-- that kalloc gives out next. A panic is `none`.
pub mod Bits
pub mod Roles
pub mod Install
pub mod Walk
pub mod Leaf
pub mod Map
pub mod Mappages
pub mod Address
pub mod User
pub mod Copy
use Prim.Native.Nat.{bit_or}
use mc.Prelude.{
  ℕ, zero, suc, ◌+◌, ◌-◌, ◌*◌, ◌/◌, ◌%◌, ◌^◌, List, [], ◌∷◌, Bool, true, false, not, ◌&&◌, Option,
  none, some, if◌then◌else◌, ◌==◌, ltb, leb,
}
use mc.Kalloc.{page_size}

abbrev pub maxva : ℕ
maxva = 2 ^ (9 + 9 + 9 + 12 - 1)

-- the page table index of an address
abbrev pub px : (level va : ℕ) → ℕ
px level va = va / 2 ^ (12 + 9 * level) % 512

abbrev pub pa2pte : ℕ → ℕ
pa2pte pa = pa / 2 ^ 12 * 2 ^ 10

abbrev pub pte2pa : ℕ → ℕ
pte2pa e = e / 2 ^ 10 * 2 ^ 12

abbrev pub pte_flags : ℕ → ℕ
pte_flags e = e % 2 ^ 10

-- the tests of PTE_V, PTE_W and PTE_U
abbrev pub is_valid : ℕ → Bool
is_valid e = e % 2 == 1

abbrev pub is_writable : ℕ → Bool
is_writable e = e / 2 ^ 2 % 2 == 1

abbrev pub is_user : ℕ → Bool
is_user e = e / 2 ^ 4 % 2 == 1

pub record Memory : Type 0 where
  pub free : List ℕ
  pub pte : (page index : ℕ) → ℕ
  pub byte : (page offset : ℕ) → ℕ

abbrev pub set_at : (ℕ → ℕ → ℕ) → (p i v : ℕ) → ℕ → ℕ → ℕ
set_at f p i v q j = if q == p && j == i then v else f q j

abbrev pub set_pte : (p i v : ℕ) → Memory → Memory
set_pte p i v m = record m { pte = set_at m.pte p i v }

-- memset(page, 0, PGSIZE)
abbrev pub zero_page : ℕ → Memory → Memory
zero_page p m = record m {
  pte = λ q i. if q == p then 0 else m.pte q i;
  byte = λ q i. if q == p then 0 else m.byte q i;
}

-- a new page-table page `q` under entry `i` of `p`
abbrev pub install : (p i q : ℕ) → List ℕ → Memory → Memory
install p i q rest m = set_pte p i (bit_or (pa2pte q) 1) (zero_page q (record m { free = rest }))

-- The loop of walk from `level` on, and the slot that it leads to.
unfoldable pub walk_from : (alloc : Bool) (level page va : ℕ) → Memory → Option (ℕ × ℕ) × Memory
walk_from alloc zero p va m = (some (p, px 0 va), m)
walk_from alloc (suc level) p va m = elim (is_valid (m.pte p (px (suc level) va))) [
  | true ↦ walk_from alloc level (pte2pa (m.pte p (px (suc level) va))) va m
  | false ↦ elim alloc [
    | false ↦ (none, m)
    | true ↦ elim m.free [
      | [] ↦ (none, m)
      | q ∷ rest ↦ walk_from alloc level q va (install p (px (suc level) va) q rest m)
    ]
  ]
]

unfoldable pub walk : (pagetable va : ℕ) (alloc : Bool) → Memory → Option (Option (ℕ × ℕ) × Memory)
unfolding walk_from
walk pagetable va alloc m = if leb maxva va then none else some (walk_from alloc 2 pagetable va m)

-- the physical address, or 0
unfoldable pub walkaddr : (pagetable va : ℕ) → Memory → ℕ
unfolding walk_from
walkaddr pagetable va m = if leb maxva va then 0 else (elim (walk_from false 2 pagetable va m).0 [
  | none ↦ 0
  | some (p, i) ↦ if is_valid (m.pte p i) && is_user (m.pte p i) then pte2pa (m.pte p i) else 0
])

abbrev pub leaf_pte : (pa perm : ℕ) → ℕ
leaf_pte pa perm = bit_or (bit_or (pa2pte pa) perm) 1

-- The loop of mappages, with fuel for its pages: whether all are mapped. none also where the fuel runs out.
unfoldable pub map_from : (fuel pagetable a last pa perm : ℕ) → Memory → Option (Bool × Memory)
unfolding walk
map_from zero pagetable a last pa perm m = none
map_from (suc fuel) pagetable a last pa perm m = elim (walk pagetable a true m) [
  | none ↦ none
  | some r ↦ elim r.0 [
    | none ↦ some (false, r.1)
    | some (p, i) ↦ elim (is_valid (r.1.pte p i)) [
      | true ↦ none
      | false ↦ elim (a == last) [
        | true ↦ some (true, set_pte p i (leaf_pte pa perm) r.1)
        | false ↦
            map_from fuel pagetable ((a + page_size) % 2 ^ 64) last ((pa + page_size) % 2 ^ 64) perm
              (set_pte p i (leaf_pte pa perm) r.1)
      ]
    ]
  ]
]

-- mappages, true where it returns 0 and false where -1
unfoldable pub mappages : (pagetable va size pa perm : ℕ) → Memory → Option (Bool × Memory)
unfolding map_from
mappages pagetable va size pa perm m =
    if not (va % page_size == 0)
    then none
    else if not (size % page_size == 0)
    then none
    else if size == 0
    then none
    else map_from (size / page_size) pagetable va ((va + size + 2 ^ 64 - page_size) % 2 ^ 64) pa
        perm m
