-- ===== src/Fs/Content.antt =====
-- kernel/fs.c: the bytes of a file, in the blocks that its inode lists. The caller holds the inode's lock.
-- The inode is a value that the operations take and give back.
use mc.Prelude.{
  ℕ, zero, suc, ◌+◌, ◌-◌, ◌*◌, ◌/◌, ◌%◌, List, [], ◌∷◌, ◌++◌, Bool, true, false, not, ◌&&◌, ◌||◌,
  Option, none, some, if◌then◌else◌, ◌==◌, ltb, update, min, take, drop, length, add32, sub32,
  minus_one,
}
use mc.File.{bsize}
use mc.Bio.{acquiresleep, releasesleep}
use mc.Fs.{Superblock, Blocks, get_le, put_le, balloc, bfree}
use mc.Fs.Inode.{Inode, ndirect, iupdate}

abbrev pub nindirect : ℕ
nindirect = bsize / 4

abbrev pub maxfile : ℕ
maxfile = ndirect + nindirect

pub record Mapped : Type 0 where
  pub addr : ℕ
  pub inode : Inode
  pub blocks : Blocks

-- the address at a place of the inode, allocated where it is 0
unfoldable pub inode_addr : Superblock → (i : ℕ) → Inode → Blocks → Mapped
unfolding balloc
inode_addr sb i ip d =
    let (addr, d1) = balloc sb d in
    if not (ip.addrs i == 0)
    then record { addr = ip.addrs i; inode = ip; blocks = d }
    else if addr == 0
    then record { addr = 0; inode = ip; blocks = d1 }
    else record { addr = addr; inode = record ip { addrs = update ip.addrs i addr }; blocks = d1 }

-- the address in the block of the addresses at `table`; balloc runs while that block is held, and it is
-- written after
unfoldable pub indirect_addr : Superblock → (table bn : ℕ) → Inode → Blocks → Mapped
unfolding balloc get_le put_le
indirect_addr sb table bn ip d =
    let there = get_le 4 (4 * bn) (d table) in
    let (addr, d1) = balloc sb d in
    if not (there == 0)
    then record { addr = there; inode = ip; blocks = d }
    else if addr == 0
    then record { addr = 0; inode = ip; blocks = d1 }
    else record {
      addr = addr;
      inode = ip;
      blocks = update d1 table (put_le 4 (4 * bn) addr (d1 table));
    }

unfoldable pub bmap : Superblock → (bn : ℕ) → Inode → Blocks → Option Mapped
unfolding inode_addr indirect_addr
bmap sb bn ip d =
    let table = inode_addr sb ndirect ip d in
    if ltb bn ndirect
    then some (inode_addr sb bn ip d)
    else if ltb (bn - ndirect) nindirect
    then some (
        if table.addr == 0
        then table
        else indirect_addr sb table.addr (bn - ndirect) table.inode table.blocks)
    else none

-- the first loop of itrunc, over the addresses of the inode
unfoldable pub free_direct :
    (n : ℕ) → Superblock → (i : ℕ) → Inode → Blocks → Option (Inode × Blocks)
unfolding bfree
free_direct zero sb i ip d = some (ip, d)
free_direct (suc n) sb i ip d = elim (ip.addrs i == 0) [
  | true ↦ free_direct n sb (i + 1) ip d
  | false ↦ elim (bfree sb (ip.addrs i) d) [
    | none ↦ none
    | some d1 ↦ free_direct n sb (i + 1) (record ip { addrs = update ip.addrs i 0 }) d1
  ]
]

-- the second, over the addresses in a block
unfoldable pub free_indirect :
    (n : ℕ) → Superblock → (j : ℕ) → (table : ℕ → ℕ) → Blocks → Option Blocks
unfolding bfree get_le
free_indirect zero sb j table d = some d
free_indirect (suc n) sb j table d = elim (get_le 4 (4 * j) table == 0) [
  | true ↦ free_indirect n sb (j + 1) table d
  | false ↦ elim (bfree sb (get_le 4 (4 * j) table) d) [
    | none ↦ none
    | some d1 ↦ free_indirect n sb (j + 1) table d1
  ]
]

unfoldable pub free_table : Superblock → Inode → Blocks → Option (Inode × Blocks)
unfolding free_indirect
free_table sb ip d = elim (ip.addrs ndirect == 0) [
  | true ↦ some (ip, d)
  | false ↦ elim (free_indirect nindirect sb 0 (d (ip.addrs ndirect)) d) [
    | none ↦ none
    | some d1 ↦ elim (bfree sb (ip.addrs ndirect) d1) [
      | none ↦ none
      | some d2 ↦ some (record ip { addrs = update ip.addrs ndirect 0 }, d2)
    ]
  ]
]

unfoldable pub itrunc : Superblock → Inode → Blocks → Option (Inode × Blocks)
unfolding free_direct free_table iupdate
itrunc sb ip d = elim (free_direct ndirect sb 0 ip d) [
  | none ↦ none
  | some (ip1, d1) ↦ elim (free_table sb ip1 d1) [
    | none ↦ none
    | some (ip2, d2) ↦ let ip3 = record ip2 { size = 0 } in some (ip3, iupdate sb ip3 d2)
  ]
]

-- iput by the process `pid` with the inode that it drops; none also where acquiresleep would sleep
unfoldable pub iput : Superblock → (pid : ℕ) → Inode → Blocks → Option (Inode × Blocks)
unfolding itrunc iupdate acquiresleep releasesleep
iput sb pid ip d = elim (ip.ref == 1 && (not (ip.valid == 0) && ip.nlink == 0)) [
  | false ↦ some (record ip { ref = sub32 ip.ref 1 }, d)
  | true ↦ elim (acquiresleep pid ip.lock) [
    | none ↦ none
    | some lk ↦ elim (itrunc sb (record ip { lock = lk }) d) [
      | none ↦ none
      | some (ip1, d1) ↦
          let ip2 = record ip1 { kind = 0 } in
          some (
            record ip2 { valid = 0; lock = releasesleep ip2.lock; ref = sub32 ip2.ref 1 },
            iupdate sb ip2 d1,
          )
    ]
  ]
]

-- `n` bytes of a block from an offset on, and bytes put there
unfoldable pub block_bytes : (n off : ℕ) → (ℕ → ℕ) → List ℕ
block_bytes zero off f = []
block_bytes (suc n) off f = f off ∷ block_bytes n (off + 1) f

unfoldable pub put_block : (off : ℕ) → List ℕ → (ℕ → ℕ) → ℕ → ℕ
put_block off [] f = f
put_block off (b ∷ bs) f = put_block (off + 1) bs (update f off b)

-- What readi returns: the count, the bytes that were copied out, the inode and the disk.
pub record Read : Type 0 where
  pub count : ℕ
  pub bytes : List ℕ
  pub inode : Inode
  pub blocks : Blocks

-- The loop of readi with `tot` bytes read, `copies` telling of each turn's copyout whether it succeeds.
-- A turn reads a byte at least, so that the number of bytes is fuel enough.
unfoldable pub readi_loop :
    (fuel : ℕ) (copies : ℕ → Bool) → Superblock → (tot off n : ℕ) → Inode → Blocks → Option Read
unfolding bmap block_bytes
readi_loop zero copies sb tot off n ip d = none
readi_loop (suc fuel) copies sb tot off n ip d = elim (ltb tot n) [
  | false ↦ some (record { count = tot; bytes = []; inode = ip; blocks = d })
  | true ↦ elim (bmap sb (off / bsize) ip d) [
    | none ↦ none
    | some r ↦ elim (r.addr == 0) [
      | true ↦ some (record { count = tot; bytes = []; inode = r.inode; blocks = r.blocks })
      | false ↦
          let m = min (n - tot) (bsize - off % bsize) in
          elim (copies tot) [
            | false ↦
                some (record { count = minus_one; bytes = []; inode = r.inode; blocks = r.blocks })
            | true ↦ elim (readi_loop fuel copies sb (tot + m) (off + m) n r.inode r.blocks) [
              | none ↦ none
              | some s ↦
                  some
                    (record s { bytes = block_bytes m (off % bsize) (r.blocks r.addr) ++ s.bytes })
            ]
          ]
    ]
  ]
]

unfoldable pub readi : (copies : ℕ → Bool) → Superblock → (off n : ℕ) → Inode → Blocks → Option Read
unfolding readi_loop
readi copies sb off n ip d =
    if ltb ip.size off || ltb (add32 off n) off
    then some (record { count = 0; bytes = []; inode = ip; blocks = d })
    else if ltb ip.size (add32 off n)
    then readi_loop (suc n) copies sb 0 off (ip.size - off) ip d
    else readi_loop (suc n) copies sb 0 off n ip d

-- What the loop of writei leaves: the count, the offset, the inode and the disk.
pub record Wrote : Type 0 where
  pub count : ℕ
  pub off : ℕ
  pub inode : Inode
  pub blocks : Blocks

-- The loop of writei with `tot` bytes written and `src` left. `fails` tells of each turn's copyin whether it
-- fails, and after how many bytes in the block.
unfoldable pub writei_loop :
    (fuel : ℕ) (fails : ℕ → Option ℕ)
    → Superblock
    → (tot off : ℕ) → (src : List ℕ) → Inode
    → Blocks
    → Option Wrote
unfolding bmap put_block
writei_loop zero fails sb tot off src ip d = none
writei_loop (suc fuel) fails sb tot off src ip d = elim (length src == 0) [
  | true ↦ some (record { count = tot; off = off; inode = ip; blocks = d })
  | false ↦ elim (bmap sb (off / bsize) ip d) [
    | none ↦ none
    | some r ↦ elim (r.addr == 0) [
      | true ↦ some (record { count = tot; off = off; inode = r.inode; blocks = r.blocks })
      | false ↦
          let m = min (length src) (bsize - off % bsize) in
          elim (fails tot) [
            | some k ↦ some (record {
              count = tot;
              off = off;
              inode = r.inode;
              blocks =
                  update r.blocks r.addr
                    (put_block (off % bsize) (take k (take m src)) (r.blocks r.addr));
            })
            | none ↦
                writei_loop fuel fails sb (tot + m) (off + m) (drop m src) r.inode
                  (update r.blocks r.addr (put_block (off % bsize) (take m src) (r.blocks r.addr)))
          ]
    ]
  ]
]

-- writei; a count of -1 where it refuses
unfoldable pub writei :
    (fails : ℕ → Option ℕ) → Superblock → (off : ℕ) → (src : List ℕ) → Inode → Blocks → Option Wrote
unfolding writei_loop iupdate
writei fails sb off src ip d =
    if ltb ip.size off
      || ltb (add32 off (length src)) off
      || ltb (maxfile * bsize) (add32 off (length src))
    then some (record { count = minus_one; off = off; inode = ip; blocks = d })
    else (elim (writei_loop (suc (length src)) fails sb 0 off src ip d) [
      | none ↦ none
      | some r ↦
          let ip1 = record r.inode {
            size = if ltb r.inode.size r.off then r.off else r.inode.size;
          } in
          some (record r { inode = ip1; blocks = iupdate sb ip1 r.blocks })
    ])
