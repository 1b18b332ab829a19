-- ===== src/Fs/Dir/Names.antt =====
-- kernel/fs.c: namex, and the operations on inodes of the table that it calls. none is a panic, or a sleep
-- for the lock of an inode.
use mc.Prelude.{
  ℕ, zero, suc, List, [], ◌∷◌, Bool, true, false, ◌&&◌, Option, none, some, ◌==◌, get_elem?, set,
  length,
}
use mc.Fs.{Superblock, Blocks}
use mc.Fs.Inode.{Inode, Locking, asleep, panics, holds_lock, ilock, iunlock, iget, idup}
use mc.Fs.Content.{iput}
use mc.Fs.Dir.{t_dir, dirlookup, de_inum, skipelem}

pub record FileSystem : Type 0 where
  pub sb : Superblock
  pub inodes : List Inode
  pub disk : Blocks

infixl 5 ◌>>=◌
abbrev ◌>>=◌ : {A B : Type 0} → Option A → (A → Option B) → Option B
none >>= f = none
some a >>= f = f a

abbrev store : ℕ → Inode → Blocks → FileSystem → FileSystem
store i ip d fs = record fs { inodes = set fs.inodes i ip; disk = d }

lock_result : Locking → Option Inode
lock_result (holds_lock ip) = some ip
lock_result asleep = none
lock_result panics = none

unfoldable pub lock_at : (pid i : ℕ) → FileSystem → Option FileSystem
unfolding ilock lock_result
lock_at pid i fs = do
  ip ← get_elem? fs.inodes i
  ip1 ← lock_result (ilock fs.sb pid fs.disk ip)
  some (store i ip1 fs.disk fs)

unfoldable pub unlock_at : (pid i : ℕ) → FileSystem → Option FileSystem
unfolding iunlock
unlock_at pid i fs = do
  ip ← get_elem? fs.inodes i
  ip1 ← iunlock pid ip
  some (store i ip1 fs.disk fs)

unfoldable pub put_at : (pid i : ℕ) → FileSystem → Option FileSystem
unfolding iput
put_at pid i fs = do
  ip ← get_elem? fs.inodes i
  (ip1, d) ← iput fs.sb pid ip fs.disk
  some (store i ip1 d fs)

unfoldable pub iunlockput : (pid i : ℕ) → FileSystem → Option FileSystem
unfolding unlock_at put_at
iunlockput pid i fs = do fs1 ← unlock_at pid i fs; put_at pid i fs1

-- dirlookup with its iget
unfoldable pub look_in : (name : List ℕ) → (i : ℕ) → FileSystem → Option (Option ℕ × FileSystem)
unfolding dirlookup iget
look_in name i fs = do
  dp ← get_elem? fs.inodes i
  e ← dirlookup fs.sb name dp fs.disk
  let fs1 = store i e.inode e.blocks fs
  elim e.is_found [
    | false ↦ some (none, fs1)
    | true ↦ elim (iget dp.dev (de_inum e.entry) fs1.inodes) [
      | none ↦ none
      | some (j, ips) ↦ some (some j, record fs1 { inodes = ips })
    ]
  ]

-- What namex answers: an inode or the null pointer, and the last element that was copied to `name`.
abbrev pub NameResult : Type 0
NameResult = Option (Option ℕ × List ℕ × FileSystem)

-- The end of namex, with `i` for `ip`.
unfoldable pub namex_end :
    (pid : ℕ) (parent : Bool) (i : ℕ) (name : List ℕ) → FileSystem → NameResult
unfolding put_at
namex_end pid parent i name fs = elim parent [
  | false ↦ some (some i, name, fs)
  | true ↦ do fs1 ← put_at pid i fs; some (none, name, fs1)
]

-- The loop of namex, with fuel for the bytes of the path; none also where it runs out.
unfoldable pub namex_loop :
    (fuel pid : ℕ) (parent : Bool) (i : ℕ) (path name : List ℕ) → FileSystem → NameResult
unfolding namex_end lock_at unlock_at iunlockput look_in skipelem
namex_loop zero pid parent i path name fs = none
namex_loop (suc fuel) pid parent i path name fs = elim (skipelem path) [
  | none ↦ namex_end pid parent i name fs
  | some (element, later) ↦ do
    fs1 ← lock_at pid i fs
    ip ← get_elem? fs1.inodes i
    elim (ip.kind == t_dir) [
      | false ↦ do fs2 ← iunlockput pid i fs1; some (none, element, fs2)
      | true ↦ elim (parent && length later == 0) [
        | true ↦ do fs2 ← unlock_at pid i fs1; some (some i, element, fs2)
        | false ↦ do
          (next, fs2) ← look_in element i fs1
          fs3 ← iunlockput pid i fs2
          elim next [
            | none ↦ some (none, element, fs3)
            | some j ↦ namex_loop fuel pid parent j later element fs3
          ]
      ]
    ]
]

is_rooted : List ℕ → Bool
is_rooted [] = false
is_rooted (c ∷ path) = c == b'/'

abbrev pub rootdev : ℕ
rootdev = 1

abbrev pub rootino : ℕ
rootino = 1

-- namex of a process with the working directory `cwd`
unfoldable pub namex : (pid cwd : ℕ) (parent : Bool) (path : List ℕ) → FileSystem → NameResult
unfolding namex_loop is_rooted iget
namex pid cwd parent path fs = elim (is_rooted path) [
  | false ↦
      namex_loop (suc (length path)) pid parent cwd path []
        (record fs { inodes = idup cwd fs.inodes })
  | true ↦ elim (iget rootdev rootino fs.inodes) [
    | none ↦ none
    | some (i, ips) ↦
        namex_loop (suc (length path)) pid parent i path [] (record fs { inodes = ips })
  ]
]

unfoldable pub namei : (pid cwd : ℕ) (path : List ℕ) → FileSystem → NameResult
unfolding namex
namei pid cwd path fs = namex pid cwd false path fs

unfoldable pub nameiparent : (pid cwd : ℕ) (path : List ℕ) → FileSystem → NameResult
unfolding namex
nameiparent pid cwd path fs = namex pid cwd true path fs
