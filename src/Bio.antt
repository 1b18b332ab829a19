-- ===== src/Bio.antt =====
-- kernel/bio.c: the cache of disk blocks, and kernel/sleeplock.c: the lock of each buffer. The linked list of the
-- buffers is a list, most recently used first, and `place` is the index of a buffer in `bcache.buf`. The
-- disk is an argument. What holds of a critical section is one step; none is a panic.
pub mod Cache
use mc.Prelude.{
  ℕ, zero, suc, ◌+◌, ◌-◌, List, [], ◌∷◌, ◌++◌, Bool, true, false, not, ◌&&◌, ◌||◌, Option, none,
  some, if◌then◌else◌, ◌==◌, add32, sub32,
}

-- `struct sleeplock`
pub record Sleeplock : Type 0 where
  pub locked : ℕ
  pub pid : ℕ

abbrev pub initsleeplock : Sleeplock
initsleeplock = record { locked = 0; pid = 0 }

-- acquiresleep by the process `pid`, none where it sleeps
unfoldable pub acquiresleep : ℕ → Sleeplock → Option Sleeplock
acquiresleep pid lk = if lk.locked == 0 then some (record { locked = 1; pid = pid }) else none

unfoldable pub releasesleep : Sleeplock → Sleeplock
releasesleep lk = record { locked = 0; pid = 0 }

unfoldable pub holdingsleep : ℕ → Sleeplock → Bool
holdingsleep pid lk = not (lk.locked == 0) && lk.pid == pid

pub record Buf (B : Type 0) : Type 0 where
  pub place : ℕ
  pub valid : ℕ
  pub dev : ℕ
  pub blockno : ℕ
  pub lock : Sleeplock
  pub refcnt : ℕ
  pub content : B

abbrev pub nbuf : ℕ
nbuf = 30

-- binit puts each buffer of the array in front of those before it.
module _ {B : Type 0} (zeros : B) where
  unfoldable pub binit_from : ℕ → ℕ → List (Buf B) → List (Buf B)
  binit_from zero i bs = bs
  binit_from (suc n) i bs = binit_from n (suc i) (
      record {
        place = i;
        valid = 0;
        dev = 0;
        blockno = 0;
        lock = initsleeplock;
        refcnt = 0;
        content = zeros;
      }
      ∷ bs)

  unfoldable pub binit : List (Buf B)
  unfolding binit_from
  binit = binit_from nbuf 0 []

module _ {B : Type 0} where
  abbrev pub is_block : (dev blockno : ℕ) → Buf B → Bool
  is_block dev blockno b = b.dev == dev && b.blockno == blockno

  -- the first loop of bget: the buffer found, and the list with one more reference to it
  unfoldable pub look_up : (dev blockno : ℕ) → List (Buf B) → Option (ℕ × List (Buf B))
  look_up dev blockno [] = none
  look_up dev blockno (b ∷ bs) =
      let next = look_up dev blockno bs in
      if is_block dev blockno b
      then some (b.place, record b { refcnt = add32 b.refcnt 1 } ∷ bs)
      else elim next [ none ↦ none | some r ↦ some (r.0, b ∷ r.1) ]

  abbrev pub recycled : (dev blockno : ℕ) → Buf B → Buf B
  recycled dev blockno b = record b { dev = dev; blockno = blockno; valid = 0; refcnt = 1 }

  -- the second loop, from the end of the list
  unfoldable pub recycle : (dev blockno : ℕ) → List (Buf B) → Option (ℕ × List (Buf B))
  recycle dev blockno [] = none
  recycle dev blockno (b ∷ bs) = elim (recycle dev blockno bs) [
    | some r ↦ some (r.0, b ∷ r.1)
    | none ↦ if b.refcnt == 0 then some (b.place, recycled dev blockno b ∷ bs) else none
  ]

  -- bget up to acquiresleep
  unfoldable pub bget : (dev blockno : ℕ) → List (Buf B) → Option (ℕ × List (Buf B))
  unfolding look_up recycle
  bget dev blockno bs = elim (look_up dev blockno bs) [
    | some r ↦ some r
    | none ↦ recycle dev blockno bs
  ]

  -- bread once the buffer is locked
  unfoldable pub fill : (disk : ℕ → ℕ → B) → Buf B → Buf B
  fill disk b = if b.valid == 0 then record b { content = disk b.dev b.blockno; valid = 1 } else b

  -- bwrite by the process `pid`: the disk
  unfoldable pub bwrite : (pid : ℕ) → Buf B → (ℕ → ℕ → B) → Option (ℕ → ℕ → B)
  unfolding holdingsleep
  bwrite pid b disk =
      if holdingsleep pid b.lock
      then some (λ d n. if is_block d n b then b.content else disk d n)
      else none

  -- The buffer at `place`, and the list without it.
  unfoldable pub take_out : (place : ℕ) → List (Buf B) → Option (Buf B × List (Buf B))
  take_out place [] = none
  take_out place (b ∷ bs) =
      let next = take_out place bs in
      if b.place == place
      then some (b, bs)
      else elim next [ none ↦ none | some r ↦ some (r.0, b ∷ r.1) ]

  -- The buffer at `place` with another one for it.
  unfoldable pub change : (place : ℕ) → (Buf B → Buf B) → List (Buf B) → List (Buf B)
  change place f [] = []
  change place f (b ∷ bs) = if b.place == place then f b ∷ bs else b ∷ change place f bs

  abbrev pub let_go : Buf B → Buf B
  let_go b = record b { lock = releasesleep b.lock; refcnt = sub32 b.refcnt 1 }

  -- brelse by the process `pid` of the buffer at `place`
  unfoldable pub brelse : (pid place : ℕ) → List (Buf B) → Option (List (Buf B))
  unfolding take_out change holdingsleep
  brelse pid place bs = elim (take_out place bs) [
    | none ↦ none
    | some (b, rest) ↦
        if holdingsleep pid b.lock
        then some (if sub32 b.refcnt 1 == 0 then let_go b ∷ rest else change place let_go bs)
        else none
  ]

  unfoldable pub bpin : (place : ℕ) → List (Buf B) → List (Buf B)
  unfolding change
  bpin place bs = change place (λ b. record b { refcnt = add32 b.refcnt 1 }) bs

  unfoldable pub bunpin : (place : ℕ) → List (Buf B) → List (Buf B)
  unfolding change
  bunpin place bs = change place (λ b. record b { refcnt = sub32 b.refcnt 1 }) bs
