-- ===== src/Experiment/Names/Files.antt =====
-- The name of the file that a process of user/rows.c writes.
use mc.Prelude.{
  ℕ, ◌+◌, ◌/◌, ◌%◌, ◌<◌, ◌≤◌, ◌≡◌, sym, ◌∙◌, ap₂, List, [], ◌∷◌, arith, ltb, ◌==◌, replicate, true,
  false,
}
use mc.Experiment.Names.{pid_digits, turn_digits, name_file, filename, name_digits}

-- "iobound", two digits and ".txt"
abbrev pub two_digit_name : ℕ → ℕ → List ℕ
two_digit_name c d =
    b'i'
    ∷ b'o'
    ∷ b'b'
    ∷ b'o'
    ∷ b'u'
    ∷ b'n'
    ∷ b'd'
    ∷ (c + b'0')
    ∷ (d + b'0')
    ∷ b'.'
    ∷ b't'
    ∷ b'x'
    ∷ b't'
    ∷ 0
    ∷ 0
    ∷ 0
    ∷ 0
    ∷ 0
    ∷ 0
    ∷ 0
    ∷ []

abbrev digits_of : ℕ → List ℕ
digits_of n =
    (n % 10 + b'0')
    ∷ (n / 10 % 10 + b'0')
    ∷ (n / 10 / 10 % 10 + b'0')
    ∷ (n / 10 / 10 / 10 % 10 + b'0')
    ∷ 0
    ∷ 0
    ∷ 0
    ∷ 0
    ∷ 0
    ∷ 0
    ∷ []

pid_digits_lem :
    (n : ℕ) → 1000 ≤ n → n < 10000 → pid_digits 10 n 0 (replicate 10 0) ≡ (4, digits_of n)
unfolding pid_digits
pid_digits_lem n h l =
    let a : ltb 0 (n / 10) ≡ true = ground arith in
    let b : ltb 0 (n / 10 / 10) ≡ true = ground arith in
    let c : ltb 0 (n / 10 / 10 / 10) ≡ true = ground arith in
    let d : ltb 0 (n / 10 / 10 / 10 / 10) ≡ false = ground arith in rw (a, b, c, d)

name_file_lem :
    (a b c d : ℕ)
    → name_file (
        turn_digits 10 0 3
          ((d + b'0') ∷ (c + b'0') ∷ (b + b'0') ∷ (a + b'0') ∷ 0 ∷ 0 ∷ 0 ∷ 0 ∷ 0 ∷ 0 ∷ []))
      ≡ two_digit_name c d
unfolding name_file turn_digits
name_file_lem a b c d =
    let e : (c + b'0' == 0) ≡ false = ground arith in
    let f : (d + b'0' == 0) ≡ false = ground arith in rw (e, f)

-- For a pid below 9000 the file is "iobound", the last two digits of the pid, and ".txt".
pub filename_lem : (pid : ℕ) → pid < 9000 → filename pid ≡ two_digit_name (pid / 10 % 10) (pid % 10)
unfolding filename name_digits
filename_lem pid h =
    let n : ℕ = pid + 1000 in
    rw (pid_digits_lem n (omega arith) (omega arith)) (
      name_file_lem (n / 10 / 10 / 10 % 10) (n / 10 / 10 % 10) (n / 10 % 10) (n % 10)
      ∙ ap₂ two_digit_name (omega arith) (omega arith))

-- Two processes whose pids, below 9000, end in the same two digits write, read and unlink the same file.
pub filename_clash : (p q : ℕ) → p < 9000 → q < 9000 → p % 100 ≡ q % 100 → filename p ≡ filename q
filename_clash p q hp hq e =
    filename_lem p hp ∙ ap₂ two_digit_name (omega arith) (omega arith) ∙ sym (filename_lem q hq)
