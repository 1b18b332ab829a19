-- ===== src/Log.antt =====
-- kernel/log.c: the redo log of the file system. A block's contents are of a type of their own; the disk
-- and the buffer cache are functions from block numbers to contents, with the header block of the log apart,
-- since it is written at once. The header holds the numbers of the logged blocks. An operation that would
-- sleep says so; a panic is `none`.
pub mod Writes
pub mod Crash
pub mod Cases
pub mod Space
use mc.Prelude.{
  ℕ, zero, suc, ◌+◌, ◌-◌, ◌*◌, ◌≤◌, List, [], ◌∷◌, ◌++◌, Bool, true, false, not, ◌&&◌, ◌||◌, Option,
  none, some, if◌then◌else◌, ◌==◌, leb, ltb, length, update, sub32, find_index,
}
use mathlib.Core.Option

-- kernel/param.h
abbrev pub maxopblocks : ℕ
maxopblocks = 10

abbrev pub logsize : ℕ
logsize = 30

-- What a crash leaves: the blocks, and the header block of the log.
pub record Disk (B : Type 0) : Type 0 where
  pub block : ℕ → B
  pub header : List ℕ

-- `struct log`; `lh` is the list of the first `n` entries of `lh.block`. `pins` are the references that
-- bpin keeps.
pub record Log (B : Type 0) : Type 0 where
  pub start : ℕ
  pub size : ℕ
  pub outstanding : ℕ
  pub committing : Bool
  pub lh : List ℕ
  pub cache : ℕ → B
  pub pins : ℕ → ℕ
  pub disk : Disk B

-- A write of one block to the disk.
pub data DiskWrite (B : Type 0) : Type 0 where
  write_block : ℕ → B → DiskWrite B
  write_header : List ℕ → DiskWrite B

-- bunpin of each logged block
unfoldable pub unpin : List ℕ → (ℕ → ℕ) → ℕ → ℕ
unpin [] pins = pins
unpin (b ∷ bs) pins = unpin bs (update pins b (pins b - 1))

module _ {B : Type 0} where
  abbrev pub apply : DiskWrite B → Disk B → Disk B
  apply (write_block a b) d = record d { block = update d.block a b }
  apply (write_header h) d = record d { header = h }

  abbrev pub apply_all : List (DiskWrite B) → Disk B → Disk B
  apply_all [] d = d
  apply_all (w ∷ ws) d = apply_all ws (apply w d)

  -- write_log: the cached blocks into the log, from entry `tail` on
  unfoldable pub write_log : (start tail : ℕ) → (cache : ℕ → B) → List ℕ → List (DiskWrite B)
  write_log start tail cache [] = []
  write_log start tail cache (b ∷ bs) =
      write_block (start + tail + 1) (cache b) ∷ write_log start (tail + 1) cache bs

  -- install_trans: the blocks in the log to their places, from entry `tail` on. Each copy reads the disk
  -- as the copies before have left it.
  unfoldable pub install_trans : (start tail : ℕ) → List ℕ → Disk B → List (DiskWrite B)
  install_trans start tail [] d = []
  install_trans start tail (b ∷ bs) d =
      let w : DiskWrite B = write_block b (d.block (start + tail + 1)) in
      w ∷ install_trans start (tail + 1) bs (apply w d)

  -- write_log and the first write_head
  unfoldable pub log_writes : Log B → List (DiskWrite B)
  unfolding write_log
  log_writes l = write_log l.start 0 l.cache l.lh ++ (write_header l.lh ∷ [])

  -- install_trans and the second write_head, on the disk as the first two have left it
  unfoldable pub install_writes : Log B → List (DiskWrite B)
  unfolding install_trans log_writes
  install_writes l =
      install_trans l.start 0 l.lh (apply_all (log_writes l) l.disk) ++ (write_header [] ∷ [])

  -- the writes of commit, in order
  unfoldable pub commit_writes : Log B → List (DiskWrite B)
  unfolding log_writes install_writes
  commit_writes l = if ltb 0 (length l.lh) then log_writes l ++ install_writes l else []

  unfoldable pub commit : Log B → Log B
  unfolding commit_writes unpin
  commit l = record l {
    disk = apply_all (commit_writes l) l.disk;
    pins = unpin l.lh l.pins;
    lh = [];
  }

  -- recover_from_log: read the header, install what it names, and clear it
  unfoldable pub recover : ℕ → Disk B → Disk B
  unfolding install_trans
  recover start d = apply (write_header []) (apply_all (install_trans start 0 d.header d) d)

  -- begin_op up to its return, none where it would sleep
  unfoldable pub begin_op : Log B → Option (Log B)
  begin_op l =
      if l.committing
      then none
      else if ltb logsize (length l.lh + (l.outstanding + 1) * maxopblocks)
      then none
      else some (record l { outstanding = l.outstanding + 1 })

  -- end_op; none is the panic of an end within a commit
  unfoldable pub end_op : Log B → Option (Log B)
  unfolding commit
  end_op l =
      if l.committing
      then none
      else if sub32 l.outstanding 1 == 0
      then some
          (record (commit (record l { outstanding = sub32 l.outstanding 1; committing = true })) {
            committing = false;
          })
      else some (record l { outstanding = sub32 l.outstanding 1 })

  -- log_write of the cached block `b`
  unfoldable pub log_write : ℕ → Log B → Option (Log B)
  log_write b l =
      if leb logsize (length l.lh) || leb (l.size - 1) (length l.lh)
      then none
      else if ltb l.outstanding 1
      then none
      else some (elim (find_index (λ a. a == b) l.lh) [
        | some i ↦ l
        | none ↦ record l { lh = l.lh ++ (b ∷ []); pins = update l.pins b (l.pins b + 1) }
      ])
