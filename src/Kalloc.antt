-- ===== src/Kalloc.antt =====
-- kernel/kalloc.c: the free list of pages. A page's first word is the link of the list; the rest of a
-- page is not kept. The end of the kernel's image, which the linker gives, is the argument `image_end`.
pub mod Pages
use mc.Prelude.{
  ℕ, zero, suc, ◌+◌, ◌-◌, ◌*◌, ◌%◌, Bool, true, false, ◌||◌, Option, none, some, if◌then◌else◌,
  ◌==◌, leb, ltb, update, not,
}

-- kernel/memlayout.h
abbrev pub phystop : ℕ
phystop = 2281701376

-- kernel/riscv.h
abbrev pub page_size : ℕ
page_size = 4096

abbrev pub pg_round_up : ℕ → ℕ
pg_round_up a = a + (page_size - 1) - (a + (page_size - 1)) % page_size

-- `kmem`, with the first word of each page
pub record Kmem : Type 0 where
  pub freelist : ℕ
  pub word : ℕ → ℕ

-- a word of bytes 1, and one of bytes 5
abbrev pub junk_free : ℕ
junk_free = 72340172838076673

abbrev pub junk_alloc : ℕ
junk_alloc = 361700864190383365

abbrev pub is_bad : (image_end pa : ℕ) → Bool
is_bad image_end pa = not (pa % page_size == 0) || ltb pa image_end || leb phystop pa

-- kfree; none is its panic
unfoldable pub kfree : (image_end pa : ℕ) → Kmem → Option Kmem
kfree image_end pa k =
    if is_bad image_end pa
    then none
    else (let w : ℕ → ℕ = update k.word pa junk_free in
        some (record { freelist = pa; word = update w pa k.freelist }))

-- kalloc: the page, or 0
unfoldable pub kalloc : Kmem → ℕ × Kmem
kalloc k = if k.freelist == 0 then (0, k) else (
  k.freelist,
  record { freelist = k.word k.freelist; word = update k.word k.freelist junk_alloc },
)

-- The loop of freerange from page `p` on, with fuel; none also where the fuel runs out.
unfoldable pub free_from : ℕ → (image_end p pa_end : ℕ) → Kmem → Option Kmem
unfolding kfree
free_from zero image_end p pa_end k = none
free_from (suc fuel) image_end p pa_end k = elim (leb (p + page_size) pa_end) [
  | true ↦ elim (kfree image_end p k) [
    | none ↦ none
    | some k' ↦ free_from fuel image_end (p + page_size) pa_end k'
  ]
  | false ↦ some k
]

-- kinit, with fuel for each page of the range
unfoldable pub kinit : (image_end : ℕ) → (ℕ → ℕ) → Option Kmem
unfolding free_from
kinit image_end word =
    free_from 557057 image_end (pg_round_up image_end) phystop
      (record { freelist = 0; word = word })
