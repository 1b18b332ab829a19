-- ===== src/Experiment/Names.antt =====
-- The texts that the programs of the experiment exchange: the index of a process, which
-- user/run_experiment.c writes and user/rows.c and user/graphs.c read, and the name of the file of
-- user/rows.c. A byte is an `int` below 256; the buffers start with every byte 0.
pub mod Index
pub mod Files
use mc.Prelude.{
  ℕ, zero, suc, ◌+◌, ◌-◌, ◌*◌, ◌/◌, ◌%◌, List, [], ◌∷◌, Bool, true, false, if◌then◌else◌, ◌==◌, ltb,
  get_or, set, replicate,
}

-- run_experiment.c: index_str
unfoldable pub index_str : ℕ → List ℕ
index_str index =
    if ltb index 10 then b'0' ∷ (index + b'0') ∷ 0 ∷ [] else b'1' ∷ (index - 10 + b'0') ∷ 0 ∷ []

-- rows.c and graphs.c: the index from argv[1]. The digits are at least '0'.
unfoldable pub read_index : List ℕ → ℕ
read_index s = (get_or s 0 0 - b'0') * 10 + (get_or s 1 0 - b'0')

-- rows.c: the digits of the pid from the last on; `i` and the buffer after the do-while
unfoldable pub pid_digits : (fuel pid i : ℕ) → List ℕ → ℕ × List ℕ
pid_digits zero pid i s = (i, s)
pid_digits (suc fuel) pid i s =
    let s1 = set s i (pid % 10 + b'0') in
    let more = pid_digits fuel (pid / 10) (i + 1) s1 in
    if ltb 0 (pid / 10) then more else (i + 1, s1)

-- The loop that turns the digits round, with `j` as it leaves it.
unfoldable pub turn_digits : (fuel j i : ℕ) → List ℕ → ℕ × List ℕ
turn_digits zero j i s = (j, s)
turn_digits (suc fuel) j i s =
    let temp = get_or s j 0 in
    let s1 = set (set s j (get_or s i 0)) i temp in
    let more = turn_digits fuel (j + 1) (i - 1) s1 in if ltb j i then more else (j, s)

-- while (from[j] != '\0') to[i++] = from[j++];
unfoldable pub append_from : (fuel j i : ℕ) → (from to : List ℕ) → ℕ × List ℕ
append_from zero j i from to = (i, to)
append_from (suc fuel) j i from to =
    let more = append_from fuel (j + 1) (i + 1) from (set to i (get_or from j 0)) in
    if get_or from j 0 == 0 then (i, to) else more

abbrev pub suffix : List ℕ
suffix = b'.' ∷ b't' ∷ b'x' ∷ b't' ∷ 0 ∷ []

-- char filename[20] = "iobound"
abbrev pub iobound : List ℕ
iobound =
    b'i' ∷ b'o' ∷ b'b' ∷ b'o' ∷ b'u' ∷ b'n' ∷ b'd' ∷ 0 ∷ 0 ∷ 0 ∷ 0 ∷ 0 ∷ 0 ∷ 0 ∷ 0 ∷ 0 ∷ 0 ∷ 0 ∷ 0
    ∷ 0 ∷ []

-- The file name, from the buffer of digits and the place where the copying starts.
unfoldable pub name_file : ℕ × List ℕ → List ℕ
unfolding append_from
name_file (j, pid_str) =
    let (i, name) = append_from 10 j 7 pid_str iobound in
    let (i', name') = append_from 10 0 i suffix name in set name' i' 0

-- `pid_str[i] = '\0'` and what follows, from `i` and the digits
unfoldable pub name_digits : ℕ × List ℕ → List ℕ
name_digits (n, digits) = name_file (turn_digits 10 0 (n - 1) (set digits n 0))

unfoldable pub filename : ℕ → List ℕ
filename pid = name_digits (pid_digits 10 (pid + 1000) 0 (replicate 10 0))
