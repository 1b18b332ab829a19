-- ===== src/Tests/File.antt =====
-- The file table with two handles on one file, and a write of two transactions.
use mc.Prelude.{
  List, Bool, if◌then◌else◌, ℕ, ◌+◌, ◌<◌, ◌≡◌, refl, ◌⊎◌, List, [], ◌∷◌, ◌++◌, some, true, arith,
  replicate, set, minus_one, if◌then◌else◌, ltb,
}
use mc.File.{
  File, zero_file, fd_inode, nfile, file_at, filealloc, filedup, fileclose, still_open, closing,
  filewrite, write_loop,
}
use mc.File.Handles.{count, Open, booted, opens, dups, fileclose_lem}
use mc.File.Writing.{Transactions, filewrite_lem}

abbrev with_refs : ℕ → List File
with_refs r = set (replicate nfile zero_file) 0 (record zero_file { ref = r })

allocates : filealloc (replicate nfile zero_file) ≡ (with_refs 1, some 0)
unfolding filealloc
allocates = refl

duplicates : filedup 0 (with_refs 1) ≡ some (with_refs 2)
unfolding filedup
duplicates = refl

shared : Open (with_refs 2) ([] ++ (0 ∷ 0 ∷ []))
shared = dups 0 [] [] (opens 0 booted allocates) duplicates

fileclose_lem_example :
    ((0 < count 0 (0 ∷ []))
      × ((fs : List File) × (fileclose 0 (with_refs 2) ≡ some (fs, still_open))))
    ⊎ ((count 0 (0 ∷ []) ≡ 0)
        × ((fs : List File) × (fileclose 0 (with_refs 2)
              ≡ some (fs, closing (file_at (with_refs 2) 0)))))
fileclose_lem_example = fileclose_lem 0 [] (0 ∷ []) shared

abbrev inode_file : File
inode_file = record zero_file { type = fd_inode; ref = 1; writable = 1; off = 10 }

-- a disk that has room up to byte 4000
abbrev writei : ℕ → ℕ → ℕ
writei off n = if ltb 4000 (off + n) then minus_one else n

filewrite_lem_example :
    (cs : List ℕ) × (full : Bool) × (off' : ℕ) × Transactions writei 5000 0 10 cs full off'
    × (filewrite (λ d. true) 0 writei 5000 inode_file
        ≡ some (if full then 5000 else minus_one, record inode_file { off = off' }))
filewrite_lem_example = filewrite_lem (λ d. true) 0 writei 5000 inode_file (omega arith) refl refl

stops_when_full :
    write_loop 5 writei 5000 0 10
    ≡ some (record { count = 3072; off = 3082; chunks = 3072 ∷ 1928 ∷ [] })
unfolding write_loop
stops_when_full = refl
