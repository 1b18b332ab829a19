-- ===== src/Tests/Fs.antt =====
-- A disk of four blocks, of which the first three are in use; block 2 is the map.
use mc.Prelude.{
  ℕ, zero, suc, ap, ◌∙◌, ◌+◌, ◌/◌, ◌<◌, ◌≡◌, ◌≢◌, refl, ◌⊎◌, List, [], ◌∷◌, true, false, not, ◌&&◌,
  ◌==◌, none, some, arith, if◌then◌else◌, length, take, map, ltb, subst, get_elem?, some_inj, ◌^◌,
}
use mc.Bio.{initsleeplock}
use mc.Fs.{Superblock, Blocks, bpb, bblock, balloc, bfree}
use mc.Fs.Bitmap.{used, IsAllocated, IsGuarded}
use mc.Fs.Bitmap.Balloc.{balloc_lem, bfree_lem}
use mc.Fs.Inode.Table.{AllUsed, IsUnique, NoMatch, IsGot, iget_lem}
use mathlib.Core.Bool.{false≢true}
use mc.Fs.Inode.{is_inode, iget, Inode, iblock, iupdate, read_inode}
use mc.Fs.Inode.Copy.{IsFit, IsSame, iupdate_lem}
use mc.Fs.Dir.{dirsiz, skipelem}
use mc.Fs.Dir.Path.{walk_path, elements, skipelem_lem}

abbrev sb : Superblock
sb = record {
  magic = 0;
  size = 4;
  nblocks = 1;
  ninodes = 32;
  nlog = 0;
  logstart = 0;
  inodestart = 1;
  bmapstart = 2;
}

abbrev disk : Blocks
disk b j = if b == 2 && j == 0 then 7 else 0

disk-IsGuarded : IsGuarded sb disk
disk-IsGuarded c l = let e : c / bpb ≡ 0 = omega arith in rw (e)

balloc_lem_example :
    (((c : ℕ) → c < sb.size → used sb disk c ≡ true) × (balloc sb disk ≡ (0, disk)))
    ⊎ ((r : ℕ) × (d' : Blocks) × (balloc sb disk ≡ (r, d')) × IsAllocated sb r disk d')
balloc_lem_example = balloc_lem sb disk disk-IsGuarded

gives_the_last : (balloc sb disk).0 ≡ 3
unfolding balloc
gives_the_last = refl

bfree_lem_example :
    ((used sb disk 1 ≡ false) × (bfree sb 1 disk ≡ none))
    ⊎ ((used sb disk 1 ≡ true)
        × ((d' : Blocks) × (bfree sb 1 disk ≡ some d')
            × ((c : ℕ) → used sb d' c ≡ (not (1 == c) && used sb disk c))
            × ((c : ℕ) → c ≢ bblock sb 1 → d' c ≡ disk c)))
bfree_lem_example = bfree_lem sb 1 disk

abbrev file : ℕ → Inode
file inum = record {
  dev = 1;
  inum = inum;
  ref = 1;
  lock = initsleeplock;
  valid = 1;
  kind = 2;
  major = 0;
  minor = 0;
  nlink = 1;
  size = 70000;
  addrs = λ i. 3;
}

file-IsFit : IsFit (file 5)
file-IsFit = record {
  kind = omega arith;
  major = omega arith;
  minor = omega arith;
  nlink = omega arith;
  size = omega arith;
  addrs = λ i l. omega arith;
}

-- two inodes in the same block
iupdate_lem_example :
    ((file 6).inum ≡ (file 5).inum
      → IsSame (read_inode (iupdate sb (file 5) disk (iblock sb (file 6).inum)) (file 6)) (file 5))
    × ((file 6).inum ≢ (file 5).inum
        → IsSame
            (read_inode (iupdate sb (file 5) disk (iblock sb (file 6).inum)) (file 6))
            (read_inode (disk (iblock sb (file 6).inum)) (file 6)))
iupdate_lem_example = iupdate_lem sb (file 5) (file 6) disk file-IsFit

-- `//a/bb/`
abbrev path : List ℕ
path = 47 ∷ 47 ∷ 97 ∷ 47 ∷ 98 ∷ 98 ∷ 47 ∷ []

skipelem_lem_example : walk_path (suc (length path)) path ≡ map (take dirsiz) (elements [] path)
skipelem_lem_example = skipelem_lem path

two_elements : walk_path 8 path ≡ (97 ∷ []) ∷ (98 ∷ 98 ∷ []) ∷ []
unfolding skipelem
two_elements = refl

-- an inode in use, and an empty entry
abbrev idle : Inode
idle = record (file 6) { ref = 0 }

abbrev two : List Inode
two = file 5 ∷ idle ∷ []

two-IsUnique : IsUnique two
two-IsUnique zero zero a b g h m r = refl
two-IsUnique (suc zero) (suc zero) a b g h m r = refl
two-IsUnique zero (suc zero) a b g h m r =
    absurd (false≢true (ap (λ z. ltb 0 z.ref) (some_inj idle b h) ∙ r))
two-IsUnique (suc zero) zero a b g h m r =
    absurd (false≢true (ap (λ z. is_inode b.dev b.inum z) (some_inj idle a g) ∙ m))
two-IsUnique zero (suc (suc j)) a b g h m r = absurd (cc)
two-IsUnique (suc zero) (suc (suc j)) a b g h m r = absurd (cc)
two-IsUnique (suc (suc i)) j a b g h m r = absurd (cc)

no_wrap : (j : ℕ) (a : Inode) → get_elem? two j ≡ some a → a.ref + 1 < 2 ^ 32
no_wrap zero a g = subst (λ z. z.ref + 1 < 2 ^ 32) (some_inj (file 5) a g) (omega arith)
no_wrap (suc zero) a g = subst (λ z. z.ref + 1 < 2 ^ 32) (some_inj idle a g) (omega arith)
no_wrap (suc (suc j)) a g = absurd (cc)

-- an inode that takes the empty entry
iget_lem_example :
    ((iget 1 9 two ≡ none) × NoMatch 1 9 two × AllUsed two)
    ⊎ ((i : ℕ) × (ips' : List Inode) × (iget 1 9 two ≡ some (i, ips')) × IsGot 1 9 i two ips')
iget_lem_example = iget_lem 1 9 two two-IsUnique no_wrap
