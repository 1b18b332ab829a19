-- ===== src/Fs/Bitmap/Balloc.antt =====
-- balloc and bfree on the map.
use mc.Prelude.{
  ℕ, zero, suc, ◌+◌, ◌-◌, ◌*◌, ◌/◌, ◌%◌, ◌≤◌, ◌<◌, ◌≡◌, ◌≢◌, refl, sym, ap, ap₂, ◌∙◌, ◌⊎◌, inl, inr,
  true, false, not, ◌&&◌, ◌||◌, ◌==◌, ==_self, ==_iff, Option, none, some, Bool-cases, arith, ltb,
  update, subst,
}
use mathlib.Core.Bool.{false≢true}
use mc.Fs.{
  Superblock, Blocks, bpb, bblock, bit, set_bit, clear_bit, bzero, free_bit, balloc_from, balloc,
  bfree,
}
use mc.Fs.Bitmap.{used, IsAllocated, IsGuarded}
use mc.Fs.Bitmap.Bits.{bit-set_bit, bit-clear_bit}

-- What the inner loop finds from a bit on.
abbrev FirstBit : (left size b bi : ℕ) → (ℕ → ℕ) → Option ℕ → Type 0
FirstBit left size b bi f none = (k : ℕ) → bi ≤ k → k < bi + left → b + k < size → bit f k ≡ true
FirstBit left size b bi f (some r) =
    (bi ≤ r)
    × (r < bi + left)
    × (b + r < size)
    × (bit f r ≡ false)
    × ((k : ℕ) → bi ≤ k → k < r → bit f k ≡ true)

free_bit-FirstBit :
    (left size b bi : ℕ) (f : ℕ → ℕ) → FirstBit left size b bi f (free_bit left size b bi f)
unfolding free_bit
free_bit-FirstBit zero size b bi f = λ k l u s. absurd (omega arith)
free_bit-FirstBit (suc left) size b bi f = elim (Bool-cases (ltb (b + bi) size)) [
  | inr n ↦ rw (free_bit, n) (λ k l u s. absurd (ground (arith, n, l, s)))
  | inl y ↦ elim (Bool-cases (bit f bi)) [
    | inr z ↦
        rw (free_bit, y, z)
          (omega arith, omega arith, ground (arith, y), z, λ k l u. absurd (omega arith))
    | inl z ↦
        rw (free_bit, y, z)
          (go (free_bit left size b (bi + 1) f) (free_bit-FirstBit left size b (bi + 1) f) z)
  ]
]
  where
    at_least : (k : ℕ) → bi ≤ k → bit f bi ≡ true → (bi + 1 ≤ k → bit f k ≡ true) → bit f k ≡ true
    at_least k l z h = elim (Bool-cases (bi == k)) [
      | inl y ↦ subst (λ i. bit f i ≡ true) ((==_iff bi k).0 y) z
      | inr n ↦ h (ground (arith, l, n))
    ]

    go :
        (o : Option ℕ)
        → FirstBit left size b (bi + 1) f o
        → bit f bi ≡ true
        → FirstBit (suc left) size b bi f o
    go none h z = λ k l u s. at_least k l z (λ m. h k m (omega arith) s)
    go (some r) (p, q, s, t, h) z =
        (omega arith, omega arith, s, t, λ k l u. at_least k l z (λ m. h k m u))

abbrev taken : Superblock → ℕ → Blocks → Blocks
taken sb r d = bzero r (update d (bblock sb r) (set_bit (r % bpb) (d (bblock sb r))))

-- What the outer loop finds from a block on.
abbrev FirstBlock : Superblock → (b : ℕ) → Blocks → ℕ × Blocks → Type 0
FirstBlock sb b d res =
    (((c : ℕ) → b ≤ c → c < sb.size → used sb d c ≡ true) × (res ≡ (0, d)))
    ⊎ ((r : ℕ) × (b ≤ r)
        × (r < sb.size)
        × (used sb d r ≡ false)
        × ((c : ℕ) → b ≤ c → c < r → used sb d c ≡ true)
        × (res ≡ (r, taken sb r d)))

module _ (sb : Superblock) (d : Blocks) where
  -- the bit of a block in a part of the map
  used-bit : (b k : ℕ) → b % bpb ≡ 0 → k < bpb → used sb d (b + k) ≡ bit (d (bblock sb b)) k
  used-bit b k e l =
      let q : (b + k) / bpb ≡ b / bpb = omega arith in
      let r : (b + k) % bpb ≡ k = omega arith in ap₂ (λ x y. bit (d (x + sb.bmapstart)) y) q r

  used-part :
      (b c : ℕ) → b % bpb ≡ 0 → b ≤ c → c < b + bpb → used sb d c ≡ bit (d (bblock sb b)) (c - b)
  used-part b c e l u =
      let s : c ≡ b + (c - b) = omega arith in ap (used sb d) s ∙ used-bit b (c - b) e (omega arith)

  used-all :
      (b c : ℕ)
      → b % bpb ≡ 0
      → FirstBit bpb sb.size b 0 (d (bblock sb b)) none
      → b ≤ c
      → c < sb.size
      → (b + bpb ≤ c → used sb d c ≡ true)
      → used sb d c ≡ true
  used-all b c e h p q later = elim (Bool-cases (ltb c (b + bpb))) [
    | inl y ↦
        let u : c < b + bpb = ground (arith, y) in
        used-part b c e p u ∙ h (c - b) (omega arith) (omega arith) (omega arith)
    | inr n ↦ later (ground (arith, n))
  ]

  taken-bit :
      (b bi : ℕ)
      → b % bpb ≡ 0
      → bi < bpb
      → ◌≡◌ {A = ℕ × Blocks}
          (b + bi, bzero (b + bi) (update d (bblock sb b) (set_bit bi (d (bblock sb b)))))
          (b + bi, taken sb (b + bi) d)
  taken-bit b bi e l =
      let q : b / bpb ≡ (b + bi) / bpb = omega arith in
      let r : bi ≡ (b + bi) % bpb = omega arith in
      ap₂
        (λ x y.
          (b + bi, bzero (b + bi) (update d (x + sb.bmapstart) (set_bit y (d (x + sb.bmapstart))))))
        q r

  balloc_from-FirstBlock :
      (fuel b : ℕ)
      → b % bpb ≡ 0
      → sb.size < b + fuel * bpb
      → FirstBlock sb b d (balloc_from fuel sb b d)
  unfolding balloc_from
  balloc_from-FirstBlock zero b e l = inl (λ c p q. absurd (omega arith), refl)
  balloc_from-FirstBlock (suc fuel) b e l = elim (Bool-cases (ltb b sb.size)) [
    | inr n ↦ rw (balloc_from, n) (inl (λ c p q. absurd (ground (arith, n, p, q)), refl))
    | inl y ↦
        rw (balloc_from, y)
          (go (free_bit bpb sb.size b 0 (d (bblock sb b)))
            (free_bit-FirstBit bpb sb.size b 0 (d (bblock sb b)))
            (balloc_from-FirstBlock fuel (b + bpb) (omega arith) (omega arith)))
  ]
    where
      go :
          (o : Option ℕ)
          → FirstBit bpb sb.size b 0 (d (bblock sb b)) o
          → FirstBlock sb (b + bpb) d (balloc_from fuel sb (b + bpb) d)
          → FirstBlock sb b d (elim o [
            | none ↦ balloc_from fuel sb (b + bpb) d
            | some bi ↦
                (b + bi, bzero (b + bi) (update d (bblock sb b) (set_bit bi (d (bblock sb b)))))
          ])
      go none h (inl (all, res)) = inl (λ c p q. used-all b c e h p q (λ m. all c m q), res)
      go none h (inr (r, p, q, z, all, res)) =
          inr
            (r, omega arith, q, z, λ c m n. used-all b c e h m (omega arith) (λ x. all c x n), res)
      go (some bi) (p, q, s, z, all) h = inr (
        b + bi,
        omega arith,
        s,
        used-bit b bi e q ∙ z,
        λ c l u. used-part b c e l (omega arith) ∙ all (c - b) (omega arith) (omega arith),
        taken-bit b bi e q,
      )

  taken-used :
      (r c : ℕ)
      → used sb d r ≡ false
      → bblock sb c ≢ r
      → used sb (taken sb r d) c ≡ ((r == c) || used sb d c)
  taken-used r c z n = elim (Bool-cases (bblock sb r == bblock sb c)) [
    | inl y ↦
        let e : bblock sb r ≡ bblock sb c = (==_iff (bblock sb r) (bblock sb c)).0 y in
        let m : (r == bblock sb c) ≡ false = ground (arith, n) in
        let q : (r % bpb == c % bpb) ≡ (r == c) = ground (arith, e) in
        rw (m, y)
          (bit-set_bit (r % bpb) (c % bpb) (d (bblock sb r)) z
            ∙ ap₂ (λ a b. a || bit (d b) (c % bpb)) q e)
    | inr y ↦
        let m : (r == bblock sb c) ≡ false = ground (arith, n) in
        let q : (r == c) ≡ false = ground (arith, y) in rw (m, y, q)
  ]

  taken-IsAllocated :
      (r : ℕ)
      → IsGuarded sb d
      → r < sb.size
      → used sb d r ≡ false
      → ((c : ℕ) → c < r → used sb d c ≡ true)
      → IsAllocated sb r d (taken sb r d)
  taken-IsAllocated r g l z all = record {
    in_range = l;
    was_free = z;
    is_first = all;
    now_used = λ c m. taken-used r c z (λ e. false≢true (sym z ∙ ap (used sb d) (sym e) ∙ g c m));
    zeroed = λ j. rw (==_self r);
    others = λ c j a b.
        (let m : (r == c) ≡ false = ground (arith, a) in
          let n : (bblock sb r == c) ≡ false = ground (arith, b) in rw (m, n));
  }

-- balloc of a disk whose map is not free itself gives the first free block, marked as used and zeroed, and
-- changes nothing else; or it answers 0 and changes nothing, and then every block is in use.
pub balloc_lem :
    (sb : Superblock) (d : Blocks)
    → IsGuarded sb d
    → (((c : ℕ) → c < sb.size → used sb d c ≡ true) × (balloc sb d ≡ (0, d)))
      ⊎ ((r : ℕ) × (d' : Blocks) × (balloc sb d ≡ (r, d')) × IsAllocated sb r d d')
unfolding balloc
balloc_lem sb d g =
    elim (balloc_from-FirstBlock sb d (sb.size / bpb + 1) 0 (omega arith) (omega arith)) [
      | inl (all, res) ↦ inl (λ c l. all c (omega arith) l, res)
      | inr (r, p, q, z, all, res) ↦
          inr (r, taken sb r d, res, taken-IsAllocated sb d r g q z (λ c l. all c (omega arith) l))
    ]

-- bfree of a block that is in use makes it free, and of no other block does it change the use; it changes no
-- block but that of the map. It panics where the block is free.
pub bfree_lem :
    (sb : Superblock) (b : ℕ) (d : Blocks)
    → ((used sb d b ≡ false) × (bfree sb b d ≡ none))
      ⊎ ((used sb d b ≡ true)
          × ((d' : Blocks) × (bfree sb b d ≡ some d')
              × ((c : ℕ) → used sb d' c ≡ (not (b == c) && used sb d c))
              × ((c : ℕ) → c ≢ bblock sb b → d' c ≡ d c)))
unfolding bfree
bfree_lem sb b d = elim (Bool-cases (used sb d b)) [
  | inr z ↦ inl (z, rw (z))
  | inl z ↦
      inr (
        z,
        (update d (bblock sb b) (clear_bit (b % bpb) (d (bblock sb b))), rw (z), freed z, others),
      )
]
  where
    freed :
        used sb d b ≡ true
        → (c : ℕ)
        → used sb (update d (bblock sb b) (clear_bit (b % bpb) (d (bblock sb b)))) c
          ≡ (not (b == c) && used sb d c)
    freed z c = elim (Bool-cases (bblock sb b == bblock sb c)) [
      | inl y ↦
          let e : bblock sb b ≡ bblock sb c = (==_iff (bblock sb b) (bblock sb c)).0 y in
          let q : (b % bpb == c % bpb) ≡ (b == c) = ground (arith, e) in
          rw (y) (
            bit-clear_bit (b % bpb) (c % bpb) (d (bblock sb b)) z
            ∙ ap₂ (λ a k. not a && bit (d k) (c % bpb)) q e)
      | inr y ↦ let q : (b == c) ≡ false = ground (arith, y) in rw (y, q)
    ]

    others :
        (c : ℕ)
        → c ≢ bblock sb b
        → update d (bblock sb b) (clear_bit (b % bpb) (d (bblock sb b))) c ≡ d c
    others c n = let m : (bblock sb b == c) ≡ false = ground (arith, n) in rw (m)
