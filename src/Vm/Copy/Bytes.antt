-- ===== src/Vm/Copy/Bytes.antt =====
-- The copies page by page against copies byte by byte.
use mc.Prelude.{
  ℕ, zero, suc, ◌+◌, ◌-◌, ◌%◌, ◌≤◌, ◌<◌, ◌≡◌, refl, sym, ap, ap₂, ◌∙◌, inl, inr, List, [], ◌∷◌,
  ◌++◌, Bool, true, false, some, if◌then◌else◌, ◌==◌, leb, Bool-cases, arith, subst,
}
use mc.Kalloc.{page_size}
use mc.Vm.{Memory, walkaddr}
use mc.Vm.Copy.{pg_round_down, read_bytes, piece, copyin_loop, copyin}

-- The `len` bytes of a process from an address on, up to the first page that it may not read.
abbrev pub user_bytes : (pagetable va len : ℕ) → Memory → Bool × List ℕ
user_bytes pagetable va zero m = (true, [])
user_bytes pagetable va (suc len) m =
    let r = user_bytes pagetable (va + 1) len m in
    if walkaddr pagetable (pg_round_down va) m == 0
    then (false, [])
    else (r.0, m.byte (walkaddr pagetable (pg_round_down va) m) (va % page_size) ∷ r.1)

-- One byte that may be read.
step :
    (pagetable va len pa : ℕ) (m : Memory)
    → walkaddr pagetable (pg_round_down va) m ≡ pa
    → (pa == 0) ≡ false
    → user_bytes pagetable va (suc len) m ≡ (
      (user_bytes pagetable (va + 1) len m).0,
      m.byte pa (va % page_size) ∷ (user_bytes pagetable (va + 1) len m).1,
    )
step pagetable va len pa m e z = rw (e, z)

-- The bytes of one page.
piece-user_bytes :
    (pagetable va n rest pa : ℕ) (m : Memory)
    → va % page_size + n ≤ page_size
    → walkaddr pagetable (pg_round_down va) m ≡ pa
    → (pa == 0) ≡ false
    → user_bytes pagetable va (n + rest) m ≡ (
      (user_bytes pagetable (va + n) rest m).0,
      read_bytes n pa (va % page_size) m ++ (user_bytes pagetable (va + n) rest m).1,
    )
unfolding read_bytes
piece-user_bytes pagetable va zero rest pa m l e z =
    let a : va ≡ va + 0 = omega arith in
    let r : 0 + rest ≡ rest = omega arith in ap₂ (λ x y. user_bytes pagetable x y m) a r
piece-user_bytes pagetable va (suc n) rest pa m l e z =
    let s : suc n + rest ≡ suc (n + rest) = omega arith in
    let t : va + suc n ≡ va + 1 + n = omega arith in
    rw (s, t)
      (step pagetable va (n + rest) pa m e z ∙ (elim (Bool-cases (n == 0)) [
        | inl y ↦
            let n0 : n ≡ 0 = ground (arith, y) in
            let r0 : 0 + rest ≡ rest = omega arith in
            let v0 : va + 1 + 0 ≡ va + 1 = omega arith in rw (n0, r0, v0)
        | inr y ↦
            let next : pg_round_down (va + 1) ≡ pg_round_down va = ground (arith, l, y) in
            let off : (va + 1) % page_size ≡ va % page_size + 1 = ground (arith, l, y) in
            let l' : (va + 1) % page_size + n ≤ page_size = ground (arith, l, y) in
            let ih =
              piece-user_bytes pagetable (va + 1) n rest pa m l'
                (ap (λ a. walkaddr pagetable a m) next ∙ e) z in
            rw (ih, off)
      ]))

-- The rest after a turn is copied from the next page on, where there is a rest.
next_turn :
    (pagetable va len : ℕ) (m : Memory)
    → (len == 0) ≡ false
    → user_bytes pagetable (va + piece va len) (len - piece va len) m
      ≡ user_bytes pagetable (pg_round_down va + page_size) (len - piece va len) m
next_turn pagetable va len m z = elim (Bool-cases (leb len (piece va len))) [
  | inl y ↦ let e : len - piece va len ≡ 0 = ground (arith, y) in rw (e)
  | inr y ↦ let e : va + piece va len ≡ pg_round_down va + page_size = ground (arith, y) in rw (e)
]

refused :
    (pagetable va len : ℕ) (m : Memory)
    → (len == 0) ≡ false
    → (walkaddr pagetable (pg_round_down va) m == 0) ≡ true
    → user_bytes pagetable va len m ≡ (false, [])
refused pagetable va zero m y z = absurd (ground (arith, y))
refused pagetable va (suc len) m y z = rw (z)

copyin_loop_lem :
    (fuel pagetable va len : ℕ) (m : Memory)
    → len < fuel
    → copyin_loop fuel pagetable va len m ≡ some (user_bytes pagetable va len m)
unfolding copyin_loop
copyin_loop_lem zero pagetable va len m l = absurd (omega arith)
copyin_loop_lem (suc fuel) pagetable va len m l = elim (Bool-cases (len == 0)) [
  | inl y ↦ let e : len ≡ 0 = ground (arith, y) in rw (e)
  | inr y ↦ elim (Bool-cases (walkaddr pagetable (pg_round_down va) m == 0)) [
    | inl z ↦ rw (copyin_loop, y, z) (sym (ap some (refused pagetable va len m y z)))
    | inr z ↦
        let n : piece va len + (len - piece va len) ≡ len = ground (arith, y) in
        let off : va - pg_round_down va ≡ va % page_size = ground arith in
        let l' : len - piece va len < fuel = ground (arith, y, l) in
        let fits : va % page_size + piece va len ≤ page_size = ground (arith, y) in
        let split : user_bytes pagetable va len m
            ≡ user_bytes pagetable va (piece va len + (len - piece va len)) m =
          ap (λ x. user_bytes pagetable va x m) (sym n) in
        let r : Bool × List ℕ = user_bytes pagetable (va + piece va len) (len - piece va len) m in
        let pa : ℕ = walkaddr pagetable (pg_round_down va) m in
        let turn : user_bytes pagetable va len m
            ≡ (r.0, read_bytes (piece va len) pa (va - pg_round_down va) m ++ r.1) =
          split
          ∙ subst
              (λ o.
                user_bytes pagetable va (piece va len + (len - piece va len)) m
                ≡ (r.0, read_bytes (piece va len) pa o m ++ r.1))
              (sym off)
              (piece-user_bytes pagetable va (piece va len) (len - piece va len) pa m fits refl
                z) in
        let ih : copyin_loop fuel pagetable (pg_round_down va + page_size) (len - piece va len) m
            ≡ some r =
          copyin_loop_lem fuel pagetable (pg_round_down va + page_size) (len - piece va len) m l'
          ∙ ap some (sym (next_turn pagetable va len m y)) in
        rw (copyin_loop, y, z, ih) (sym (ap some turn))
  ]
]

-- copyin of `len` bytes answers as the copy byte by byte does: the bytes up to the first page that the
-- process may not read, and 0 just where there is no such page.
pub copyin_lem :
    (pagetable va len : ℕ) (m : Memory)
    → copyin pagetable va len m ≡ some (user_bytes pagetable va len m)
unfolding copyin
copyin_lem pagetable va len m = copyin_loop_lem (suc len) pagetable va len m (omega arith)
