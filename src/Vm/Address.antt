-- ===== src/Vm/Address.antt =====
-- walk that does not allocate, and walkaddr.
use mc.Prelude.{
  ℕ, zero, suc, ◌≡◌, refl, inl, inr, true, false, ◌&&◌, Option, none, some, arith, if◌then◌else◌,
  Bool-cases, leb, ltb,
}
use mathlib.Core.Option
use mc.Vm.{Memory, px, maxva, is_valid, is_user, pte2pa, walk_from, walkaddr}
use mc.Vm.Roles.{find, entry_of}
use mc.Vm.Map.{translation}

-- walk that does not allocate finds what the address finds.
pub walk_from-find :
    (level p va : ℕ) (m : Memory)
    → walk_from false level p va m ≡ (Option.map (λ s. (s, px 0 va)) (find level p va m), m)
unfolding walk_from
walk_from-find zero p va m = refl
walk_from-find (suc level) p va m = elim (Bool-cases (is_valid (m.pte p (px (suc level) va)))) [
  | inl v ↦ rw (walk_from, v) (walk_from-find level _ va m)
  | inr v ↦ rw (walk_from, v)
]

-- walkaddr answers the page of an address below MAXVA whose entry is valid and for the user, and else 0.
pub walkaddr_lem :
    (root va : ℕ) (m : Memory)
    → walkaddr root va m ≡ (
        if ltb va maxva && is_valid (translation root va m) && is_user (translation root va m)
        then pte2pa (translation root va m)
        else 0)
unfolding walkaddr
walkaddr_lem root va m = elim (Bool-cases (leb maxva va)) [
  | inl h ↦ let e : ltb va maxva ≡ false = ground (arith, h) in rw (h, e)
  | inr h ↦
      let e : ltb va maxva ≡ true = ground (arith, h) in
      rw (h, e, walk_from-find 2 root va m) (go (find 2 root va m))
]
  where
    go :
        (o : Option ℕ)
        → (elim (Option.map {B = ℕ × ℕ} (λ s. (s, px 0 va)) o) [
          | none ↦ 0
          | some (p, i) ↦
              if is_valid (m.pte p i) && is_user (m.pte p i) then pte2pa (m.pte p i) else 0
        ])
          ≡ (if is_valid (entry_of o va m) && is_user (entry_of o va m)
              then pte2pa (entry_of o va m)
              else 0)
    go none = refl
    go (some s) = refl
