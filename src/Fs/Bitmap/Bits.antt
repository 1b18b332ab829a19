-- ===== src/Fs/Bitmap/Bits.antt =====
-- The bits of a byte, and of a block.
use native.Mathlib.Nat.{div-div-eq-div-mul}
use mc.Prelude.{
  ℕ, zero, suc, ◌+◌, ◌-◌, ◌*◌, ◌/◌, ◌%◌, ◌^◌, ◌≤◌, ◌≡◌, ◌≢◌, refl, sym, ap, ◌∙◌, inl, inr, Bool,
  true, false, not, ◌&&◌, ◌||◌, ◌==◌, Bool-cases, arith,
}
use mc.Fs.{bit, set_bit, clear_bit}

abbrev bit_at : ℕ → ℕ → Bool
bit_at x k = x / 2 ^ k % 2 == 1

halves : (x k : ℕ) → x / 2 ^ suc k ≡ x / 2 / 2 ^ k
halves x k =
    let e : 2 ^ suc k ≡ 2 * 2 ^ k = omega arith in
    ap (λ p. x / p) e ∙ sym (div-div-eq-div-mul x 2 (2 ^ k))

bit_at-suc : (x k : ℕ) → bit_at x (suc k) ≡ bit_at (x / 2) k
bit_at-suc x k = ap (λ y. y % 2 == 1) (halves x k)

add-half : (x k : ℕ) → (x + 2 ^ suc k) / 2 ≡ x / 2 + 2 ^ k
add-half x k = let e : 2 ^ suc k ≡ 2 * 2 ^ k = omega arith in omega arith

sub-half : (x k : ℕ) → (x - 2 ^ suc k) / 2 ≡ x / 2 - 2 ^ k
sub-half x k = let e : 2 ^ suc k ≡ 2 * 2 ^ k = omega arith in omega arith

set_same : (k x : ℕ) → bit_at x k ≡ false → bit_at (x + 2 ^ k) k ≡ true
set_same zero x h = ground (arith, h)
set_same (suc k) x h =
    bit_at-suc (x + 2 ^ suc k) k
    ∙ ap (λ y. bit_at y k) (add-half x k)
    ∙ set_same k (x / 2) (sym (bit_at-suc x k) ∙ h)

set_other : (k j x : ℕ) → k ≢ j → bit_at x k ≡ false → bit_at (x + 2 ^ k) j ≡ bit_at x j
set_other zero zero x n h = absurd (n refl)
set_other zero (suc j) x n h =
    let e : (x + 2 ^ 0) / 2 ≡ x / 2 = ground (arith, h) in
    bit_at-suc (x + 2 ^ 0) j ∙ ap (λ y. bit_at y j) e ∙ sym (bit_at-suc x j)
set_other (suc k) zero x n h =
    let p : 2 ^ suc k ≡ 2 * 2 ^ k = omega arith in
    let e : (x + 2 ^ suc k) / 1 % 2 ≡ x / 1 % 2 = omega arith in ap (λ y. y == 1) e
set_other (suc k) (suc j) x n h =
    bit_at-suc (x + 2 ^ suc k) j
    ∙ ap (λ y. bit_at y j) (add-half x k)
    ∙ set_other k j (x / 2) (λ e. n (ap suc e)) (sym (bit_at-suc x k) ∙ h)
    ∙ sym (bit_at-suc x j)

bit_at-le : (k x : ℕ) → bit_at x k ≡ true → 2 ^ k ≤ x
bit_at-le zero x h = ground (arith, h)
bit_at-le (suc k) x h =
    let p : 2 ^ suc k ≡ 2 * 2 ^ k = omega arith in
    omega (arith, bit_at-le k (x / 2) (sym (bit_at-suc x k) ∙ h))

clear_same : (k x : ℕ) → bit_at x k ≡ true → bit_at (x - 2 ^ k) k ≡ false
clear_same zero x h = ground (arith, h)
clear_same (suc k) x h =
    bit_at-suc (x - 2 ^ suc k) k
    ∙ ap (λ y. bit_at y k) (sub-half x k)
    ∙ clear_same k (x / 2) (sym (bit_at-suc x k) ∙ h)

clear_other : (k j x : ℕ) → k ≢ j → bit_at x k ≡ true → bit_at (x - 2 ^ k) j ≡ bit_at x j
clear_other zero zero x n h = absurd (n refl)
clear_other zero (suc j) x n h =
    let e : (x - 2 ^ 0) / 2 ≡ x / 2 = ground (arith, h) in
    bit_at-suc (x - 2 ^ 0) j ∙ ap (λ y. bit_at y j) e ∙ sym (bit_at-suc x j)
clear_other (suc k) zero x n h =
    let p : 2 ^ suc k ≡ 2 * 2 ^ k = omega arith in
    let l = bit_at-le (suc k) x h in
    let e : (x - 2 ^ suc k) / 1 % 2 ≡ x / 1 % 2 = omega arith in ap (λ y. y == 1) e
clear_other (suc k) (suc j) x n h =
    bit_at-suc (x - 2 ^ suc k) j
    ∙ ap (λ y. bit_at y j) (sub-half x k)
    ∙ clear_other k j (x / 2) (λ e. n (ap suc e)) (sym (bit_at-suc x k) ∙ h)
    ∙ sym (bit_at-suc x j)

pub bit-set_bit :
    (bi bj : ℕ) (f : ℕ → ℕ) → bit f bi ≡ false → bit (set_bit bi f) bj ≡ ((bi == bj) || bit f bj)
bit-set_bit bi bj f h = elim (Bool-cases (bi / 8 == bj / 8)) [
  | inr n ↦ let m : (bi == bj) ≡ false = ground (arith, n) in rw (h, n, m)
  | inl y ↦ elim (Bool-cases (bi == bj)) [
    | inl z ↦
        let e : bi ≡ bj = ground (arith, z) in
        rw (h, y, z)
          (ap (λ r. bit_at (f (bi / 8) + 2 ^ (bi % 8)) (r % 8)) (sym e)
            ∙ set_same (bi % 8) (f (bi / 8)) h)
    | inr z ↦
        let m : bi % 8 ≢ bj % 8 = ground (arith, y, z) in
        let e : bi / 8 ≡ bj / 8 = ground (arith, y) in
        rw (h, y, z)
          (set_other (bi % 8) (bj % 8) (f (bi / 8)) m h ∙ ap (λ r. bit_at (f r) (bj % 8)) e)
  ]
]

pub bit-clear_bit :
    (bi bj : ℕ) (f : ℕ → ℕ)
    → bit f bi ≡ true
    → bit (clear_bit bi f) bj ≡ (not (bi == bj) && bit f bj)
bit-clear_bit bi bj f h = elim (Bool-cases (bi / 8 == bj / 8)) [
  | inr n ↦ let m : (bi == bj) ≡ false = ground (arith, n) in rw (h, n, m)
  | inl y ↦ elim (Bool-cases (bi == bj)) [
    | inl z ↦
        let e : bi ≡ bj = ground (arith, z) in
        rw (h, y, z)
          (ap (λ r. bit_at (f (bi / 8) - 2 ^ (bi % 8)) (r % 8)) (sym e)
            ∙ clear_same (bi % 8) (f (bi / 8)) h)
    | inr z ↦
        let m : bi % 8 ≢ bj % 8 = ground (arith, y, z) in
        let e : bi / 8 ≡ bj / 8 = ground (arith, y) in
        rw (h, y, z)
          (clear_other (bi % 8) (bj % 8) (f (bi / 8)) m h ∙ ap (λ r. bit_at (f r) (bj % 8)) e)
  ]
]
