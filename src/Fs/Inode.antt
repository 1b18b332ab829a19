-- ===== src/Fs/Inode.antt =====
-- kernel/fs.c: the table of the inodes in use, and their copies on the disk. An inode of the table is an
-- index into the list, in place of a pointer. What holds of itable.lock is one step.
pub mod Copy
pub mod Table
use mc.Prelude.{
  ℕ, zero, suc, ◌+◌, ◌-◌, ◌*◌, ◌/◌, ◌%◌, ◌^◌, List, [], ◌∷◌, Bool, true, false, not, ◌&&◌, ◌||◌,
  Option, none, some, if◌then◌else◌, ◌==◌, ltb, update, replicate, get_elem?, set, add32, sub32,
}
use mc.File.{bsize}
use mc.Bio.{Sleeplock, initsleeplock, acquiresleep, releasesleep, holdingsleep}
use mc.Fs.{Superblock, Blocks, get_le, put_le}

abbrev pub ndirect : ℕ
ndirect = 12

abbrev pub ipb : ℕ
ipb = bsize / 64

abbrev pub iblock : Superblock → ℕ → ℕ
iblock sb i = i / ipb + sb.inodestart

pub record Inode : Type 0 where
  pub dev : ℕ
  pub inum : ℕ
  pub ref : ℕ
  pub lock : Sleeplock
  pub valid : ℕ
  pub kind : ℕ
  pub major : ℕ
  pub minor : ℕ
  pub nlink : ℕ
  pub size : ℕ
  pub addrs : ℕ → ℕ

abbrev pub ninode : ℕ
ninode = 50

abbrev zero_inode : Inode
zero_inode = record {
  dev = 0;
  inum = 0;
  ref = 0;
  lock = initsleeplock;
  valid = 0;
  kind = 0;
  major = 0;
  minor = 0;
  nlink = 0;
  size = 0;
  addrs = λ i. 0;
}

abbrev pub iinit : List Inode
iinit = replicate ninode zero_inode

-- where the disk copy of an inode starts in its block
abbrev pub dinode_off : ℕ → ℕ
dinode_off inum = inum % ipb * 64

-- memmove between the addresses of an inode and of its disk copy, `n` from the `i`-th on
unfoldable pub put_addrs : (n i off : ℕ) → (ℕ → ℕ) → (ℕ → ℕ) → ℕ → ℕ
unfolding put_le
put_addrs zero i off addrs f = f
put_addrs (suc n) i off addrs f = put_addrs n (i + 1) off addrs (put_le 4 (off + 4 * i) (addrs i) f)

-- the disk copy of an inode, in its block
unfoldable pub dinode : Inode → (ℕ → ℕ) → ℕ → ℕ
unfolding put_addrs
dinode ip f = put_addrs (ndirect + 1) 0 (dinode_off ip.inum + 12) ip.addrs (
    put_le 4 (dinode_off ip.inum + 8) ip.size (
      put_le 2 (dinode_off ip.inum + 6) ip.nlink (
        put_le 2 (dinode_off ip.inum + 4) ip.minor
          (put_le 2 (dinode_off ip.inum + 2) ip.major (put_le 2 (dinode_off ip.inum) ip.kind f)))))

unfoldable pub iupdate : Superblock → Inode → Blocks → Blocks
unfolding dinode
iupdate sb ip d = update d (iblock sb ip.inum) (dinode ip (d (iblock sb ip.inum)))

-- what ilock reads of the disk copy
unfoldable pub read_inode : (ℕ → ℕ) → Inode → Inode
unfolding get_le
read_inode f ip = record ip {
  valid = 1;
  kind = get_le 2 (dinode_off ip.inum) f;
  major = get_le 2 (dinode_off ip.inum + 2) f;
  minor = get_le 2 (dinode_off ip.inum + 4) f;
  nlink = get_le 2 (dinode_off ip.inum + 6) f;
  size = get_le 4 (dinode_off ip.inum + 8) f;
  addrs =
      λ i. if ltb i (ndirect + 1) then get_le 4 (dinode_off ip.inum + 12 + 4 * i) f else ip.addrs i;
}

-- The loop of iget: the place of the inode if it is in the table, and else the first empty one.
pub data Found : Type 0 where
  here : ℕ → Found
  empty_at : ℕ → Found
  full : Found

abbrev pub is_inode : (dev inum : ℕ) → Inode → Bool
is_inode dev inum ip = ltb 0 ip.ref && (ip.dev == dev && ip.inum == inum)

unfoldable pub find_inode : (dev inum i : ℕ) (empty : Found) → List Inode → Found
find_inode dev inum i empty [] = empty
find_inode dev inum i empty (ip ∷ ips) =
    let keep = find_inode dev inum (i + 1) empty ips in
    let note = find_inode dev inum (i + 1) (empty_at i) ips in
    if is_inode dev inum ip
    then here i
    else (elim empty [ full ↦ if ip.ref == 0 then note else keep | _ ↦ keep ])

abbrev pub at_index : ℕ → (Inode → Inode) → List Inode → List Inode
at_index i f [] = []
at_index zero f (ip ∷ ips) = f ip ∷ ips
at_index (suc i) f (ip ∷ ips) = ip ∷ at_index i f ips

abbrev pub counted : Inode → Inode
counted ip = record ip { ref = add32 ip.ref 1 }

abbrev pub recycled_for : (dev inum : ℕ) → Inode → Inode
recycled_for dev inum ip = record ip { dev = dev; inum = inum; ref = 1; valid = 0 }

abbrev pub iget_end : (dev inum : ℕ) → List Inode → Found → Option (ℕ × List Inode)
iget_end dev inum ips (here i) = some (i, at_index i counted ips)
iget_end dev inum ips (empty_at i) = some (i, at_index i (recycled_for dev inum) ips)
iget_end dev inum ips full = none

-- iget: the place in the table
unfoldable pub iget : (dev inum : ℕ) → List Inode → Option (ℕ × List Inode)
unfolding find_inode
iget dev inum ips = iget_end dev inum ips (find_inode dev inum 0 full ips)

abbrev pub idup : ℕ → List Inode → List Inode
idup i ips = at_index i counted ips

-- ialloc's loop over the inodes from `inum` on: the number of a free one
unfoldable pub free_inode : (left : ℕ) → Superblock → (inum : ℕ) → Blocks → Option ℕ
unfolding get_le
free_inode zero sb inum d = none
free_inode (suc left) sb inum d = elim (get_le 2 (dinode_off inum) (d (iblock sb inum)) == 0) [
  | true ↦ some inum
  | false ↦ free_inode left sb (inum + 1) d
]

-- memset of a disk copy
unfoldable pub clear_bytes : (n off : ℕ) → (ℕ → ℕ) → ℕ → ℕ
clear_bytes zero off f = f
clear_bytes (suc n) off f = clear_bytes n (off + 1) (update f off 0)

-- The inner option is the null pointer where no inode is free.
unfoldable pub ialloc :
    Superblock → (dev kind : ℕ) → List Inode → Blocks → Option (Option ℕ × List Inode × Blocks)
unfolding free_inode put_le clear_bytes iget
ialloc sb dev kind ips d = elim (free_inode (sb.ninodes - 1) sb 1 d) [
  | none ↦ some (none, ips, d)
  | some inum ↦ elim (iget dev inum ips) [
    | none ↦ none
    | some (i, ips1) ↦ some (
      some i,
      ips1,
      update d (iblock sb inum)
          (put_le 2 (dinode_off inum) kind (clear_bytes 64 (dinode_off inum) (d (iblock sb inum)))),
    )
  ]
]

-- What ilock of an inode comes to: it sleeps, it panics, or it holds the inode's lock.
pub data Locking : Type 0 where
  asleep : Locking
  panics : Locking
  holds_lock : Inode → Locking

unfoldable pub ilock : Superblock → (pid : ℕ) → Blocks → Inode → Locking
unfolding read_inode acquiresleep
ilock sb pid d ip = if ltb ip.ref 1 then panics else (elim (acquiresleep pid ip.lock) [
  | none ↦ asleep
  | some lk ↦
      let there = record ip { lock = lk } in
      let read = read_inode (d (iblock sb ip.inum)) there in
      if ip.valid == 0
      then (if read.kind == 0 then panics else holds_lock read)
      else holds_lock there
])

unfoldable pub iunlock : (pid : ℕ) → Inode → Option Inode
unfolding holdingsleep releasesleep
iunlock pid ip =
    if not (holdingsleep pid ip.lock) || ltb ip.ref 1
    then none
    else some (record ip { lock = releasesleep ip.lock })

pub record Stat : Type 0 where
  pub dev : ℕ
  pub ino : ℕ
  pub kind : ℕ
  pub nlink : ℕ
  pub size : ℕ

abbrev pub stati : Inode → Stat
stati ip = record { dev = ip.dev; ino = ip.inum; kind = ip.kind; nlink = ip.nlink; size = ip.size }
