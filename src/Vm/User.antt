-- ===== src/Vm/User.antt =====
-- kernel/vm.c: the memory of a process, through its page table. The end of the kernel's image, which the
-- linker gives and kfree checks, is an argument. Sizes stay below MAXVA, so that no address wraps.
pub mod Unmap
pub mod Range
pub mod Page
pub mod Grow
pub mod Alloc
pub mod Uvmalloc
use Prim.Native.Nat.{bit_or}
use mc.Prelude.{
  ℕ, zero, suc, ◌+◌, ◌-◌, ◌*◌, ◌/◌, ◌%◌, ◌^◌, List, [], ◌∷◌, ◌++◌, Bool, true, false, not, ◌&&◌,
  ◌||◌, Option, none, some, if◌then◌else◌, ◌==◌, ltb, leb, get_or, length, min,
}
use mc.Kalloc.{page_size, pg_round_up, is_bad, junk_free, junk_alloc}
use mc.Vm.{
  Memory, maxva, px, pte2pa, pte_flags, is_valid, is_user, is_writable, set_at, set_pte, zero_page,
  walk_from, walk, walkaddr, mappages,
}

abbrev pub pte_r : ℕ
pte_r = 2

abbrev pub pte_w : ℕ
pte_w = 4

abbrev pub pte_x : ℕ
pte_x = 8

abbrev pub pte_u : ℕ
pte_u = 16

-- the junk that kalloc and kfree leave in a page, in both its views
abbrev pub fill_page : (p word byte : ℕ) → Memory → Memory
fill_page p word byte m = record m {
  pte = λ q i. if q == p then word else m.pte q i;
  byte = λ q i. if q == p then byte else m.byte q i;
}

-- kalloc, none for a null pointer
unfoldable pub kalloc : Memory → Option (ℕ × Memory)
kalloc m = elim m.free [
  | [] ↦ none
  | p ∷ rest ↦ some (p, fill_page p junk_alloc 5 (record m { free = rest }))
]

unfoldable pub uvmcreate : Memory → Option (ℕ × Memory)
unfolding kalloc
uvmcreate m = elim (kalloc m) [ none ↦ none | some (p, m1) ↦ some (p, zero_page p m1) ]

-- kvmmap, none where it panics
unfoldable pub kvmmap : (kpgtbl va pa sz perm : ℕ) → Memory → Option Memory
kvmmap kpgtbl va pa sz perm m = elim (mappages kpgtbl va sz pa perm m) [
  | none ↦ none
  | some r ↦ if r.0 then some r.1 else none
]

-- uvmclear: *pte &= ~PTE_U
unfoldable pub uvmclear : (pagetable va : ℕ) → Memory → Option Memory
uvmclear pagetable va m = elim (walk pagetable va false m) [
  | none ↦ none
  | some r ↦ elim r.0 [
    | none ↦ none
    | some (p, i) ↦
        let e = r.1.pte p i in some (set_pte p i (if is_user e then e - pte_u else e) r.1)
  ]
]

-- memmove of `n` bytes within physical memory
unfoldable pub move_page : (n from to i : ℕ) → Memory → Memory
move_page zero from to i m = m
move_page (suc n) from to i m =
    move_page n from to (i + 1) (record m { byte = set_at m.byte to i (m.byte from i) })

-- `n` bytes from a list into a page, from `i` on
unfoldable pub put_bytes : (page i : ℕ) → List ℕ → Memory → Memory
put_bytes page i [] m = m
put_bytes page i (b ∷ bs) m = put_bytes page (i + 1) bs (record m { byte = set_at m.byte page i b })

-- uvmfirst; the results of kalloc and mappages are not looked at
unfoldable pub uvmfirst : (pagetable : ℕ) → List ℕ → Memory → Option Memory
unfolding kalloc put_bytes
uvmfirst pagetable src m = if leb page_size (length src) then none else (elim (kalloc m) [
  | none ↦ none
  | some (mem, m1) ↦
      elim (mappages pagetable 0 page_size mem (bit_or (bit_or (bit_or pte_w pte_r) pte_x) pte_u)
        (zero_page mem m1)) [ none ↦ none | some r ↦ some (put_bytes mem 0 src r.1) ]
])

module _ (image_end : ℕ) where
  -- kfree; the page's first word, the link of the free list, is not kept
  unfoldable pub kfree : ℕ → Memory → Option Memory
  kfree pa m =
      if is_bad image_end pa
      then none
      else (let m1 = fill_page pa junk_free 1 m in some (record m1 { free = pa ∷ m1.free }))

  unfoldable pub free_if : Bool → ℕ → Memory → Option Memory
  unfolding kfree
  free_if do_free pa m = if do_free then kfree pa m else some m

  -- the loop of uvmunmap, over the pages that are left
  unfoldable pub unmap_from : (npages pagetable a : ℕ) (do_free : Bool) → Memory → Option Memory
  unfolding free_if
  unmap_from zero pagetable a do_free m = some m
  unmap_from (suc n) pagetable a do_free m = elim (walk pagetable a false m) [
    | none ↦ none
    | some r ↦ elim r.0 [
      | none ↦ none
      | some (p, i) ↦ elim (not (is_valid (r.1.pte p i)) || pte_flags (r.1.pte p i) == 1) [
        | true ↦ none
        | false ↦ elim (free_if do_free (pte2pa (r.1.pte p i)) r.1) [
          | none ↦ none
          | some m1 ↦ unmap_from n pagetable (a + page_size) do_free (set_pte p i 0 m1)
        ]
      ]
    ]
  ]

  unfoldable pub uvmunmap : (pagetable va npages : ℕ) (do_free : Bool) → Memory → Option Memory
  unfolding unmap_from
  uvmunmap pagetable va npages do_free m =
      if not (va % page_size == 0) then none else unmap_from npages pagetable va do_free m

  -- uvmdealloc: the new size
  unfoldable pub uvmdealloc : (pagetable oldsz newsz : ℕ) → Memory → Option (ℕ × Memory)
  unfolding uvmunmap
  uvmdealloc pagetable oldsz newsz m =
      if leb oldsz newsz
      then some (oldsz, m)
      else if ltb (pg_round_up newsz) (pg_round_up oldsz)
      then (elim (uvmunmap pagetable (pg_round_up newsz)
          ((pg_round_up oldsz - pg_round_up newsz) / page_size) true m) [
            | none ↦ none
            | some m1 ↦ some (newsz, m1)
          ])
      else some (newsz, m)

  -- what uvmalloc does where it fails: it gives back the pages up to `a` and answers 0
  unfoldable pub give_up : (pagetable a oldsz : ℕ) → Memory → Option (ℕ × Memory)
  unfolding uvmdealloc
  give_up pagetable a oldsz m = elim (uvmdealloc pagetable a oldsz m) [
    | none ↦ none
    | some r ↦ some (0, r.1)
  ]

  -- the loop of uvmalloc from `a` on, with fuel; none also where it runs out
  unfoldable pub alloc_from :
      (fuel pagetable a oldsz newsz xperm : ℕ) → Memory → Option (ℕ × Memory)
  unfolding kalloc kfree give_up
  alloc_from zero pagetable a oldsz newsz xperm m = none
  alloc_from (suc fuel) pagetable a oldsz newsz xperm m = elim (ltb a newsz) [
    | false ↦ some (newsz, m)
    | true ↦ elim (kalloc m) [
      | none ↦ give_up pagetable a oldsz m
      | some (mem, m1) ↦
          elim (mappages pagetable a page_size mem (bit_or (bit_or pte_r pte_u) xperm)
            (zero_page mem m1)) [
              | none ↦ none
              | some r ↦ elim r.0 [
                | true ↦ alloc_from fuel pagetable (a + page_size) oldsz newsz xperm r.1
                | false ↦ elim (kfree mem r.1) [
                  | none ↦ none
                  | some m2 ↦ give_up pagetable a oldsz m2
                ]
              ]
            ]
    ]
  ]

  unfoldable pub uvmalloc : (pagetable oldsz newsz xperm : ℕ) → Memory → Option (ℕ × Memory)
  unfolding alloc_from
  uvmalloc pagetable oldsz newsz xperm m =
      if ltb newsz oldsz
      then some (oldsz, m)
      else alloc_from (newsz / page_size + 2) pagetable (pg_round_up oldsz) (pg_round_up oldsz)
          newsz xperm m

  -- the loop of freewalk over the entries of a table, with what it does to a lower table
  unfoldable pub free_entries :
      (ℕ → Memory → Option Memory) → (left pagetable i : ℕ) → Memory → Option Memory
  free_entries walks zero pagetable i m = some m
  free_entries walks (suc left) pagetable i m = elim (is_valid (m.pte pagetable i)) [
    | false ↦ free_entries walks left pagetable (i + 1) m
    | true ↦ elim (m.pte pagetable i / 2 % 2 ^ 3 == 0) [
      | false ↦ none
      | true ↦ elim (walks (pte2pa (m.pte pagetable i)) m) [
        | none ↦ none
        | some m1 ↦ free_entries walks left pagetable (i + 1) (set_pte pagetable i 0 m1)
      ]
    ]
  ]

  -- freewalk of a table with `levels` levels; none also where there are more
  unfoldable pub freewalk : (levels pagetable : ℕ) → Memory → Option Memory
  unfolding free_entries kfree
  freewalk zero pagetable m = none
  freewalk (suc levels) pagetable m = elim (free_entries (freewalk levels) 512 pagetable 0 m) [
    | none ↦ none
    | some m1 ↦ kfree pagetable m1
  ]

  unfoldable pub uvmfree : (pagetable sz : ℕ) → Memory → Option Memory
  unfolding uvmunmap freewalk
  uvmfree pagetable sz m =
      if ltb 0 sz
      then (elim (uvmunmap pagetable 0 (pg_round_up sz / page_size) true m) [
        | none ↦ none
        | some m1 ↦ freewalk 3 pagetable m1
      ])
      else freewalk 3 pagetable m

  -- the failure of uvmcopy at byte `i`: -1
  unfoldable pub copy_fails : (new i : ℕ) → Memory → Option (Bool × Memory)
  unfolding uvmunmap
  copy_fails new i m = elim (uvmunmap new 0 (i / page_size) true m) [
    | none ↦ none
    | some m1 ↦ some (false, m1)
  ]

  -- the loop of uvmcopy from byte `i` on, with fuel; none also where it runs out
  unfoldable pub copy_from : (fuel old new i sz : ℕ) → Memory → Option (Bool × Memory)
  unfolding kalloc kfree copy_fails move_page
  copy_from zero old new i sz m = none
  copy_from (suc fuel) old new i sz m = elim (ltb i sz) [
    | false ↦ some (true, m)
    | true ↦ elim (walk old i false m) [
      | none ↦ none
      | some w ↦ elim w.0 [
        | none ↦ none
        | some (p, j) ↦ elim (is_valid (m.pte p j)) [
          | false ↦ none
          | true ↦ elim (kalloc m) [
            | none ↦ copy_fails new i m
            | some (mem, m1) ↦
                elim (mappages new i page_size mem (pte_flags (m.pte p j))
                  (move_page page_size (pte2pa (m.pte p j)) mem 0 m1)) [
                    | none ↦ none
                    | some r ↦ elim r.0 [
                      | true ↦ copy_from fuel old new (i + page_size) sz r.1
                      | false ↦ elim (kfree mem r.1) [ none ↦ none | some m2 ↦ copy_fails new i m2 ]
                    ]
                  ]
          ]
        ]
      ]
    ]
  ]

  -- uvmcopy, true where it returns 0 and false where -1
  unfoldable pub uvmcopy : (old new sz : ℕ) → Memory → Option (Bool × Memory)
  unfolding copy_from
  uvmcopy old new sz m = copy_from (sz / page_size + 2) old new 0 sz m
