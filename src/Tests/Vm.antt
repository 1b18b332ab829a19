-- ===== src/Tests/Vm.antt =====
-- Page tables: an empty one that grows, and one with a page.
use mc.Prelude.{
  ℕ, suc, ◌+◌, ◌*◌, ◌/◌, ◌<◌, ◌≡◌, refl, ap, ap₂, ◌∙◌, inl, inr, [], ◌∷◌, true, false, some, arith,
  if◌then◌else◌, ◌==◌, ==_iff, Bool-cases,
}
use mc.Kalloc.{pg_round_up}
use mc.Vm.{Memory, is_valid, pte2pa, mappages, walkaddr}
use mc.Vm.Roles.{Role, unused, other, table, IsValid}
use mc.Vm.Install.{same_level}
use mc.Vm.Map.{translation, Outcome}
use mc.Vm.Mappages.{mappages_lem}
use mc.Vm.User.{uvmunmap, uvmalloc}
use mc.Vm.User.Range.{IsRemovable, IsUnmapped, uvmunmap_lem}
use mc.Vm.User.Alloc.{GrowOutcome}
use mc.Vm.Copy.{copyin}
use mc.Vm.Copy.Bytes.{user_bytes, copyin_lem}
use mc.Vm.User.Uvmalloc.{uvmalloc_lem, user_perm}

-- the end of the kernel's image, and pages behind it
abbrev image_end : ℕ
image_end = 2147618800

abbrev page : ℕ → ℕ
page n = 2147622912 + n * 4096

abbrev root : ℕ
root = 2147622912

abbrev empty : Memory
empty = record { free = page 1 ∷ page 2 ∷ page 3 ∷ page 4 ∷ []; pte = λ p i. 0; byte = λ p i. 0 }

abbrev empty_role : ℕ → Role
empty_role p = if p == root then table root 2 0 else unused

empty-IsValid : IsValid empty_role empty
empty-IsValid = record {
  children = λ p i r l x h lt v. absurd (cc);
  free_pages = ((refl, refl), ((refl, refl), ((refl, refl), ((refl, refl), tt))));
  distinct = ((refl, (refl, (refl, tt))), ((refl, (refl, tt)), ((refl, tt), (tt, tt))));
}

mappages_lem_example :
    Outcome empty_role 2 root 4096 root 6 empty (mappages root 4096 8192 root 6 empty)
mappages_lem_example =
    mappages_lem empty_role root 4096 8192 root 6 empty refl refl (omega arith) (omega arith)
      (omega arith) refl empty-IsValid

uvmalloc_lem_example :
    GrowOutcome image_end empty_role root
      (pg_round_up 100)
      (user_perm 4)
      empty
      5000
      (uvmalloc image_end root 100 5000 4 empty)
uvmalloc_lem_example =
    uvmalloc_lem image_end empty_role root 100 5000 4 empty (omega arith) (omega arith)
      (omega arith) (omega arith) refl empty-IsValid (refl, (refl, (refl, (refl, tt))))
      (λ j h. refl)

-- a page table with two lower tables, and one page at address 0
abbrev with_page : Memory
with_page = record {
  free = page 4 ∷ [];
  pte = λ p i.
      if i == 0
      then (if p == root
          then page 1 / 4 + 1
          else if p == page 1
          then page 2 / 4 + 1
          else if p == page 2
          then page 3 / 4 + 23
          else 0)
      else 0;
  byte = λ p i. 0;
}

abbrev role : ℕ → Role
role p =
    if p == root
    then table root 2 0
    else if p == page 1
    then table root 1 0
    else if p == page 2
    then table root 0 0
    else if p == page 3
    then other
    else unused

with_page-IsValid : IsValid role with_page
with_page-IsValid = record { children = kids; free_pages = ((refl, refl), tt); distinct = (tt, tt) }
  where
    kids :
        (p i r l x : ℕ)
        → role p ≡ table r (suc l) x
        → i < 512
        → is_valid (with_page.pte p i) ≡ true
        → role (pte2pa (with_page.pte p i)) ≡ table r l (x * 512 + i)
    kids p i r l x h lt v = elim (Bool-cases (i == 0)) [
      | inr n ↦ let z : is_valid 0 ≡ true = rw n at v in absurd (cc)
      | inl y ↦
          let i0 : i ≡ 0 = (==_iff i 0).0 y in
          elim (Bool-cases (p == root)) [
            | inl e ↦
                let k : table root 2 0 ≡ table r (suc l) x = rw e at h in
                let s = same_level k in
                rw (y, e)
                  (ap₂ (λ a b. table a 1 b) s.0 (omega (arith, s.2))
                    ∙ ap (λ a. table r a (x * 512 + i)) (omega (arith, s.1)))
            | inr n ↦ elim (Bool-cases (p == page 1)) [
              | inl e ↦
                  let k : table root 1 0 ≡ table r (suc l) x = rw (n, e) at h in
                  let s = same_level k in
                  rw (y, n, e)
                    (ap₂ (λ a b. table a 0 b) s.0 (omega (arith, s.2))
                      ∙ ap (λ a. table r a (x * 512 + i)) (omega (arith, s.1)))
              | inr n1 ↦ elim (Bool-cases (p == page 2)) [
                | inl e ↦
                    let k : table root 0 0 ≡ table r (suc l) x = rw (n, n1, e) at h in
                    absurd (let q : 0 ≡ suc l = (same_level k).1 in omega arith)
                | inr n2 ↦ let z : is_valid 0 ≡ true = rw (y, n, n1, n2) at v in absurd (cc)
              ]
            ]
          ]
    ]

walks : translation root 5 with_page ≡ page 3 / 4 + 23
walks = refl

one_page-IsRemovable : IsRemovable image_end role 1 root 0 with_page
one_page-IsRemovable = record {
  leaf = λ k h. (let z : k ≡ 0 = omega arith in rw z);
  page = λ k h. (let z : k ≡ 0 = omega arith in rw z (refl, refl));
  apart = λ j k h h'. absurd (omega arith);
}

uvmunmap_lem_example :
    (role' : ℕ → Role) × (m' : Memory) × (uvmunmap image_end root 0 1 true with_page ≡ some m')
    × IsUnmapped role role' 1 root 0 with_page m'
uvmunmap_lem_example =
    uvmunmap_lem image_end role root 0 1 with_page refl (omega arith) refl with_page-IsValid
      one_page-IsRemovable

-- from a page that is mapped into one that is not
copyin_lem_example : copyin root 4090 8 with_page ≡ some (user_bytes root 4090 8 with_page)
copyin_lem_example = copyin_lem root 4090 8 with_page

reads_up_to_the_page : copyin root 4090 8 with_page ≡ some (false, 0 ∷ 0 ∷ 0 ∷ 0 ∷ 0 ∷ 0 ∷ [])
unfolding copyin walkaddr
reads_up_to_the_page = refl
