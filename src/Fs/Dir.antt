-- ===== src/Fs/Dir.antt =====
-- kernel/fs.c: directories and paths. A directory is a file of entries of 16 bytes; a path is a list of bytes
-- before its 0.
pub mod Path
pub mod Names
use mc.Prelude.{
  ℕ, zero, suc, ◌+◌, ◌-◌, ◌*◌, ◌/◌, ◌%◌, ◌^◌, List, [], ◌∷◌, ◌++◌, Bool, true, false, not, ◌&&◌,
  ◌||◌, Option, none, some, if◌then◌else◌, ◌==◌, ltb, leb, take, drop, length, replicate,
}
use mc.Str.{strncmp, strncpy}
use mc.Fs.{Superblock, Blocks, get_le}
use mc.Fs.Inode.{Inode}
use mc.Fs.Content.{Read, readi, writei, block_bytes}

abbrev pub dirsiz : ℕ
dirsiz = 14

abbrev pub t_dir : ℕ
t_dir = 1

abbrev pub namecmp : List ℕ → List ℕ → ℕ
namecmp s t = strncmp dirsiz s t

-- inum of an entry's bytes, and its name
abbrev pub de_inum : List ℕ → ℕ
de_inum [] = 0
de_inum (a ∷ []) = a
de_inum (a ∷ b ∷ bs) = a + 256 * b

abbrev pub de_name : List ℕ → List ℕ
de_name de = drop 2 de

-- readi of an entry within the kernel; none where it does not give all of it
unfoldable pub read_entry : Superblock → (off : ℕ) → Inode → Blocks → Option Read
unfolding readi
read_entry sb off dp d = elim (readi (λ t. true) sb off 16 dp d) [
  | none ↦ none
  | some r ↦ if r.count == 16 then some r else none
]

-- Where a loop over the entries of a directory ends: at an entry with its offset, or behind the last one.
pub record Entry : Type 0 where
  pub is_found : Bool
  pub off : ℕ
  pub entry : List ℕ
  pub inode : Inode
  pub blocks : Blocks

-- The loop of dirlookup and that of dirlink, with the test that ends each, and a turn for each entry.
unfoldable pub find_entry :
    (fuel : ℕ) → (List ℕ → Bool) → Superblock → (off : ℕ) → Inode → Blocks → Option Entry
unfolding read_entry
find_entry zero is_it sb off dp d = none
find_entry (suc fuel) is_it sb off dp d = elim (ltb off dp.size) [
  | false ↦ some (record { is_found = false; off = off; entry = []; inode = dp; blocks = d })
  | true ↦ elim (read_entry sb off dp d) [
    | none ↦ none
    | some r ↦ elim (is_it r.bytes) [
      | true ↦ some (record {
        is_found = true;
        off = off;
        entry = r.bytes;
        inode = r.inode;
        blocks = r.blocks;
      })
      | false ↦ find_entry fuel is_it sb (off + 16) r.inode r.blocks
    ]
  ]
]

abbrev pub has_name : List ℕ → List ℕ → Bool
has_name name de = not (de_inum de == 0) && namecmp name (de_name de) == 0

-- dirlookup up to iget: the entry, whose inode number iget then takes
unfoldable pub dirlookup : Superblock → (name : List ℕ) → Inode → Blocks → Option Entry
unfolding find_entry
dirlookup sb name dp d =
    if not (dp.kind == t_dir) then none else find_entry (dp.size / 16 + 2) (has_name name) sb 0 dp d

-- the bytes of a new entry
abbrev pub new_entry : (name : List ℕ) → (inum : ℕ) → List ℕ
new_entry name inum = inum % 256 ∷ inum / 256 % 256 ∷ name

-- dirlink: whether it returns 0. The iget of the entry that is found, and the iput after it, are left out.
unfoldable pub dirlink :
    Superblock → (name : List ℕ) → (inum : ℕ) → Inode → Blocks → Option (Bool × Inode × Blocks)
unfolding dirlookup find_entry writei strncpy
dirlink sb name inum dp d = elim (dirlookup sb name dp d) [
  | none ↦ none
  | some e ↦ elim e.is_found [
    | true ↦ some (false, e.inode, e.blocks)
    | false ↦
        elim (find_entry (e.inode.size / 16 + 2) (λ de. de_inum de == 0) sb 0 e.inode e.blocks) [
          | none ↦ none
          | some s ↦
              elim (writei (λ t. none) sb s.off
                (new_entry (strncpy dirsiz (replicate dirsiz 0) name) inum) s.inode s.blocks) [
                  | none ↦ none
                  | some w ↦ some (w.count == 16, w.inode, w.blocks)
                ]
        ]
  ]
]

-- the loops of skipelem over slashes, and over an element
abbrev pub skip_slashes : List ℕ → List ℕ
skip_slashes [] = []
skip_slashes (c ∷ path) = if c == b'/' then skip_slashes path else c ∷ path

unfoldable pub split_element : List ℕ → List ℕ × List ℕ
split_element [] = ([], [])
split_element (c ∷ path) =
    let r = split_element path in if c == b'/' then ([], c ∷ path) else (c ∷ r.0, r.1)

unfoldable pub after_slashes : List ℕ → Option (List ℕ × List ℕ)
unfolding split_element
after_slashes [] = none
after_slashes (c ∷ rest) =
    some (take dirsiz (split_element (c ∷ rest)).0, skip_slashes (split_element (c ∷ rest)).1)

-- skipelem: the element, of 14 bytes at most, and the path behind it; none for the null pointer
unfoldable pub skipelem : List ℕ → Option (List ℕ × List ℕ)
unfolding after_slashes
skipelem path = after_slashes (skip_slashes path)
