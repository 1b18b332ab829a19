-- ===== src/File.antt =====
-- kernel/file.c: the table of open files. A pointer to a file is its index in the table. The results of
-- piperead, pipewrite, the devices' functions, readi and writei are arguments, as `int`s. A panic is `none`.
pub mod Handles
pub mod Writing
use mc.Prelude.{
  ℕ, zero, suc, ◌+◌, ◌-◌, ◌*◌, ◌%◌, ◌^◌, ◌/◌, List, [], ◌∷◌, Bool, true, false, not, ◌&&◌, ◌||◌,
  Option, none, some, if◌then◌else◌, ◌==◌, leb, ltb, add32, get_or, set, replicate, find_index,
  minus_one, is_neg,
}
use mc.Log.{maxopblocks}

pub data FileType : Type 0 where
  fd_none fd_pipe fd_inode fd_device : FileType

-- `struct file`, with pointers as numbers
pub record File : Type 0 where
  pub type : FileType
  pub ref : ℕ
  pub readable : ℕ
  pub writable : ℕ
  pub pipe : ℕ
  pub ip : ℕ
  pub off : ℕ
  pub major : ℕ

abbrev pub zero_file : File
zero_file = record {
  type = fd_none;
  ref = 0;
  readable = 0;
  writable = 0;
  pipe = 0;
  ip = 0;
  off = 0;
  major = 0;
}

abbrev pub nfile : ℕ
nfile = 100

abbrev pub file_at : List File → ℕ → File
file_at fs i = get_or fs i zero_file

-- filealloc: the slot, none for a null pointer
unfoldable pub filealloc : List File → List File × Option ℕ
filealloc fs = elim (find_index (λ f. f.ref == 0) fs) [
  | none ↦ (fs, none)
  | some i ↦ (set fs i (record (file_at fs i) { ref = 1 }), some i)
]

unfoldable pub filedup : ℕ → List File → Option (List File)
filedup i fs =
    if ltb (file_at fs i).ref 1
    then none
    else some (set fs i (record (file_at fs i) { ref = (file_at fs i).ref + 1 }))

-- What fileclose closes with the last reference.
pub data Closing : Type 0 where
  still_open : Closing
  close_pipe : (pipe writable : ℕ) → Closing
  put_inode : (ip : ℕ) → Closing
  nothing : Closing

abbrev pub closing : File → Closing
closing f = elim f.type [
  | fd_none ↦ nothing
  | fd_pipe ↦ close_pipe f.pipe f.writable
  | fd_inode ↦ put_inode f.ip
  | fd_device ↦ put_inode f.ip
]

unfoldable pub fileclose : ℕ → List File → Option (List File × Closing)
fileclose i fs =
    let f : File = file_at fs i in
    if ltb f.ref 1
    then none
    else if ltb 0 (f.ref - 1)
    then some (set fs i (record f { ref = f.ref - 1 }), still_open)
    else some (set fs i (record f { ref = 0; type = fd_none }), closing f)

-- kernel/param.h
abbrev pub ndev : ℕ
ndev = 10

-- `major` is a `short`: its negative values are from 2 ^ 15 on
abbrev pub no_device : (has : ℕ → Bool) → File → Bool
no_device has f = leb (2 ^ 15) f.major || leb ndev f.major || not (has f.major)

-- fileread: the result, and the file. `has` says which devices can read, `r` is what the function called
-- returns.
unfoldable pub fileread : (has : ℕ → Bool) → (r : ℕ) → File → Option (ℕ × File)
fileread has r f = if f.readable == 0 then some (minus_one, f) else (elim f.type [
  | fd_none ↦ none
  | fd_pipe ↦ some (r, f)
  | fd_device ↦ if no_device has f then some (minus_one, f) else some (r, f)
  | fd_inode ↦
      if not (is_neg r) && ltb 0 r then some (r, record f { off = add32 f.off r }) else some (r, f)
])

-- kernel/fs.h
abbrev pub bsize : ℕ
bsize = 1024

-- the bytes of one transaction
abbrev pub max_write : ℕ
max_write = (maxopblocks - 1 - 1 - 2) / 2 * bsize

-- the number of bytes of the next transaction, at byte `i` of `n`
abbrev pub chunk : (n i : ℕ) → ℕ
chunk n i = if ltb max_write (n - i) then max_write else n - i

-- The loop of filewrite, from byte `i` on, over what writei returns, called with the offset and the number
-- of bytes. It gives `i` and `off` at the end, and the number of bytes of each transaction. The fuel is the
-- number of transactions; none where it runs out.
pub record Written : Type 0 where
  pub count : ℕ
  pub off : ℕ
  pub chunks : List ℕ

unfoldable pub write_loop : ℕ → (writei : ℕ → ℕ → ℕ) → (n i off : ℕ) → Option Written
write_loop zero writei n i off = none
write_loop (suc fuel) writei n i off =
    let n1 = chunk n i in
    let r = writei off n1 in
    let off' = if not (is_neg r) && ltb 0 r then add32 off r else off in
    elim (ltb i n) [
      | false ↦ some (record { count = i; off = off; chunks = [] })
      | true ↦ elim (r == n1) [
        | false ↦ some (record { count = i; off = off'; chunks = n1 ∷ [] })
        | true ↦ elim (write_loop fuel writei n (i + r) off') [
          | none ↦ none
          | some w ↦ some (record w { chunks = n1 ∷ w.chunks })
        ]
      ]
    ]

-- filewrite of `n` bytes, `n` not negative, with fuel for one byte a transaction
unfoldable pub filewrite :
    (has : ℕ → Bool) → (r : ℕ) → (writei : ℕ → ℕ → ℕ) → (n : ℕ) → File → Option (ℕ × File)
filewrite has r writei n f = if f.writable == 0 then some (minus_one, f) else (elim f.type [
  | fd_none ↦ none
  | fd_pipe ↦ some (r, f)
  | fd_device ↦ if no_device has f then some (minus_one, f) else some (r, f)
  | fd_inode ↦ elim (write_loop (suc n) writei n 0 f.off) [
    | none ↦ none
    | some w ↦ some (if w.count == n then n else minus_one, record f { off = w.off })
  ]
])
