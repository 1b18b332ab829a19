-- ===== src/Fs.antt =====
-- kernel/fs.c and kernel/fs.h: the file system on one disk. What bread gives of a block and log_write
-- keeps of it is one function from blocks and offsets to bytes; the log and the buffer cache have modules
-- of their own. Block numbers stay below 2 ^ 31, so that none wraps. A panic is `none`.
pub mod Bytes
pub mod Inode
pub mod Content
pub mod Dir
pub mod Bitmap
use mc.Prelude.{
  ℕ, zero, suc, ◌+◌, ◌-◌, ◌*◌, ◌/◌, ◌%◌, ◌^◌, List, [], ◌∷◌, Bool, true, false, Option, none, some,
  if◌then◌else◌, ◌==◌, ltb, update,
}
use mc.File.{bsize}

pub record Superblock : Type 0 where
  pub magic : ℕ
  pub size : ℕ
  pub nblocks : ℕ
  pub ninodes : ℕ
  pub nlog : ℕ
  pub logstart : ℕ
  pub inodestart : ℕ
  pub bmapstart : ℕ

abbrev pub Blocks : Type 0
Blocks = ℕ → ℕ → ℕ

-- a number of `w` bytes at an offset of a block, least byte first
unfoldable pub get_le : (w off : ℕ) → (ℕ → ℕ) → ℕ
get_le zero off f = 0
get_le (suc w) off f = f off + 256 * get_le w (off + 1) f

unfoldable pub put_le : (w off v : ℕ) → (ℕ → ℕ) → ℕ → ℕ
put_le zero off v f = f
put_le (suc w) off v f = put_le w (off + 1) (v / 256) (update f off (v % 256))

unfoldable pub readsb : Blocks → Superblock
unfolding get_le
readsb d = record {
  magic = get_le 4 0 (d 1);
  size = get_le 4 4 (d 1);
  nblocks = get_le 4 8 (d 1);
  ninodes = get_le 4 12 (d 1);
  nlog = get_le 4 16 (d 1);
  logstart = get_le 4 20 (d 1);
  inodestart = get_le 4 24 (d 1);
  bmapstart = get_le 4 28 (d 1);
}

abbrev pub fsmagic : ℕ
fsmagic = 270544960

-- fsinit up to initlog
unfoldable pub fsinit : Blocks → Option Superblock
unfolding readsb
fsinit d = if (readsb d).magic == fsmagic then some (readsb d) else none

abbrev pub bzero : ℕ → Blocks → Blocks
bzero bno d = update d bno (λ j. 0)

abbrev pub bpb : ℕ
bpb = bsize * 8

abbrev pub bblock : Superblock → ℕ → ℕ
bblock sb b = b / bpb + sb.bmapstart

-- bit `bi` of a block of the map
abbrev pub bit : (ℕ → ℕ) → ℕ → Bool
bit f bi = f (bi / 8) / 2 ^ (bi % 8) % 2 == 1

-- data[bi / 8] |= m and data[bi / 8] &= ~m
abbrev pub set_bit : ℕ → (ℕ → ℕ) → ℕ → ℕ
set_bit bi f = if bit f bi then f else update f (bi / 8) (f (bi / 8) + 2 ^ (bi % 8))

abbrev pub clear_bit : ℕ → (ℕ → ℕ) → ℕ → ℕ
clear_bit bi f = if bit f bi then update f (bi / 8) (f (bi / 8) - 2 ^ (bi % 8)) else f

-- the inner loop of balloc over a block of the map: the first bit that is clear
unfoldable pub free_bit : (left size b bi : ℕ) → (ℕ → ℕ) → Option ℕ
free_bit zero size b bi f = none
free_bit (suc left) size b bi f = elim (ltb (b + bi) size) [
  | false ↦ none
  | true ↦ elim (bit f bi) [ false ↦ some bi | true ↦ free_bit left size b (bi + 1) f ]
]

-- The outer loop, with fuel for the blocks of the map: the block, or 0. It answers 0 also where the fuel
-- runs out.
unfoldable pub balloc_from : (fuel : ℕ) → Superblock → (b : ℕ) → Blocks → ℕ × Blocks
unfolding free_bit
balloc_from zero sb b d = (0, d)
balloc_from (suc fuel) sb b d = elim (ltb b sb.size) [
  | false ↦ (0, d)
  | true ↦ elim (free_bit bpb sb.size b 0 (d (bblock sb b))) [
    | none ↦ balloc_from fuel sb (b + bpb) d
    | some bi ↦ (b + bi, bzero (b + bi) (update d (bblock sb b) (set_bit bi (d (bblock sb b)))))
  ]
]

unfoldable pub balloc : Superblock → Blocks → ℕ × Blocks
unfolding balloc_from
balloc sb d = balloc_from (sb.size / bpb + 1) sb 0 d

unfoldable pub bfree : Superblock → ℕ → Blocks → Option Blocks
bfree sb b d =
    if bit (d (bblock sb b)) (b % bpb)
    then some (update d (bblock sb b) (clear_bit (b % bpb) (d (bblock sb b))))
    else none
