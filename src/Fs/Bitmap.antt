-- ===== src/Fs/Bitmap.antt =====
-- The map of the blocks in use.
pub mod Bits
pub mod Balloc
use mc.Prelude.{
  ℕ, zero, suc, ◌+◌, ◌-◌, ◌*◌, ◌/◌, ◌%◌, ◌^◌, ◌≤◌, ◌<◌, ◌≡◌, ◌≢◌, refl, sym, ap, ap₂, ◌∙◌, ◌⊎◌, inl,
  inr, Bool, true, false, ◌||◌, ◌==◌, Option, none, some,
}
use mc.Fs.{Superblock, Blocks, bpb, bblock, bit}

-- whether the map has a block in use
abbrev pub used : Superblock → Blocks → ℕ → Bool
used sb d b = bit (d (bblock sb b)) (b % bpb)

-- `r` is a block that was free, the first one; it is in use now, and all zeros. No other block changed, but
-- for the bit of `r`.
pub record IsAllocated (sb : Superblock) (r : ℕ) (d d' : Blocks) : Type 0 where
  pub in_range : r < sb.size
  pub was_free : used sb d r ≡ false
  pub is_first : (c : ℕ) → c < r → used sb d c ≡ true
  pub now_used : (c : ℕ) → c < sb.size → used sb d' c ≡ ((r == c) || used sb d c)
  pub zeroed : (j : ℕ) → d' r j ≡ 0
  pub others : (c j : ℕ) → c ≢ r → c ≢ bblock sb r → d' c j ≡ d c j

-- No block of the map is free itself.
abbrev pub IsGuarded : Superblock → Blocks → Type 0
IsGuarded sb d = (c : ℕ) → c < sb.size → used sb d (bblock sb c) ≡ true
