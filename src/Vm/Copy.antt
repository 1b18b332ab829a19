-- ===== src/Vm/Copy.antt =====
-- kernel/vm.c: copyin, copyout and copyinstr, between the kernel and a process, page by page. What is
-- copied into the kernel is a list of bytes. The loops have fuel for their bytes; none where it runs out.
pub mod Bytes
use mc.Prelude.{
  ℕ, zero, suc, ◌+◌, ◌-◌, ◌*◌, ◌/◌, ◌%◌, List, [], ◌∷◌, ◌++◌, Bool, true, false, not, ◌&&◌, ◌||◌,
  Option, none, some, if◌then◌else◌, ◌==◌, ltb, leb, length, min, take, drop,
}
use mc.Kalloc.{page_size}
use mc.Vm.{Memory, maxva, is_valid, is_user, is_writable, pte2pa, walk_from, walkaddr}
use mc.Vm.User.{put_bytes}

abbrev pub pg_round_down : ℕ → ℕ
pg_round_down a = a / page_size * page_size

-- the bytes of a page from an offset on
unfoldable pub read_bytes : (n page i : ℕ) → Memory → List ℕ
read_bytes zero page i m = []
read_bytes (suc n) page i m = m.byte page i ∷ read_bytes n page (i + 1) m

-- the number of bytes of a turn: up to the end of the page
abbrev pub piece : (va len : ℕ) → ℕ
piece va len = min (page_size - (va - pg_round_down va)) len

unfoldable pub copyin_loop : (fuel pagetable srcva len : ℕ) → Memory → Option (Bool × List ℕ)
unfolding read_bytes
copyin_loop zero pagetable srcva len m = none
copyin_loop (suc fuel) pagetable srcva len m = elim (len == 0) [
  | true ↦ some (true, [])
  | false ↦ elim (walkaddr pagetable (pg_round_down srcva) m == 0) [
    | true ↦ some (false, [])
    | false ↦
        elim (copyin_loop fuel pagetable (pg_round_down srcva + page_size) (len - piece srcva len)
          m) [
            | none ↦ none
            | some r ↦ some (
              r.0,
              read_bytes (piece srcva len) (walkaddr pagetable (pg_round_down srcva) m)
                    (srcva - pg_round_down srcva) m
                  ++ r.1,
            )
          ]
  ]
]

-- copyin of `len` bytes, true where it returns 0, with the bytes copied
unfoldable pub copyin : (pagetable srcva len : ℕ) → Memory → Option (Bool × List ℕ)
unfolding copyin_loop
copyin pagetable srcva len m = copyin_loop (suc len) pagetable srcva len m

-- the page that copyout may write to at a page's address
unfoldable pub writable_page : (pagetable va0 : ℕ) → Memory → Option ℕ
writable_page pagetable va0 m =
    if leb maxva va0 then none else (elim (walk_from false 2 pagetable va0 m).0 [
      | none ↦ none
      | some (p, i) ↦
          if is_valid (m.pte p i) && is_user (m.pte p i) && is_writable (m.pte p i)
          then some (pte2pa (m.pte p i))
          else none
    ])

unfoldable pub copyout_loop : (fuel pagetable dstva : ℕ) → List ℕ → Memory → Option (Bool × Memory)
unfolding writable_page
copyout_loop zero pagetable dstva src m = none
copyout_loop (suc fuel) pagetable dstva src m = elim (length src == 0) [
  | true ↦ some (true, m)
  | false ↦ elim (writable_page pagetable (pg_round_down dstva) m) [
    | none ↦ some (false, m)
    | some pa0 ↦
        copyout_loop fuel pagetable (pg_round_down dstva + page_size)
          (drop (piece dstva (length src)) src)
          (put_bytes pa0 (dstva - pg_round_down dstva) (take (piece dstva (length src)) src) m)
  ]
]

-- copyout of bytes, true where it returns 0
unfoldable pub copyout : (pagetable dstva : ℕ) → List ℕ → Memory → Option (Bool × Memory)
unfolding copyout_loop
copyout pagetable dstva src m = copyout_loop (suc (length src)) pagetable dstva src m

-- The inner loop of copyinstr over `n` bytes: whether the 0 was met, and the bytes copied, with the 0.
unfoldable pub until_null : (n page i : ℕ) → Memory → Bool × List ℕ
until_null zero page i m = (false, [])
until_null (suc n) page i m =
    let r = until_null n page (i + 1) m in
    if m.byte page i == 0 then (true, 0 ∷ []) else (r.0, m.byte page i ∷ r.1)

unfoldable pub copyinstr_loop : (fuel pagetable srcva max : ℕ) → Memory → Option (Bool × List ℕ)
unfolding until_null
copyinstr_loop zero pagetable srcva max m = none
copyinstr_loop (suc fuel) pagetable srcva max m = elim (max == 0) [
  | true ↦ some (false, [])
  | false ↦ elim (walkaddr pagetable (pg_round_down srcva) m == 0) [
    | true ↦ some (false, [])
    | false ↦
        elim (until_null (piece srcva max) (walkaddr pagetable (pg_round_down srcva) m)
          (srcva - pg_round_down srcva) m).0 [
            | true ↦ some (
              true,
              (until_null (piece srcva max) (walkaddr pagetable (pg_round_down srcva) m)
                  (srcva - pg_round_down srcva) m).1,
            )
            | false ↦
                elim (copyinstr_loop fuel pagetable (pg_round_down srcva + page_size)
                  (max - piece srcva max) m) [
                    | none ↦ none
                    | some r ↦ some (
                      r.0,
                      (until_null (piece srcva max) (walkaddr pagetable (pg_round_down srcva) m)
                            (srcva - pg_round_down srcva) m).1
                          ++ r.1,
                    )
                  ]
          ]
  ]
]

-- copyinstr of `max` bytes at most, true where it returns 0, with the bytes copied
unfoldable pub copyinstr : (pagetable srcva max : ℕ) → Memory → Option (Bool × List ℕ)
unfolding copyinstr_loop
copyinstr pagetable srcva max m = copyinstr_loop (suc max) pagetable srcva max m
