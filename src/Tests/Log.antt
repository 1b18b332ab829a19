-- ===== src/Tests/Log.antt =====
-- A log with two blocks, and a run of the operations on an empty one.
use mc.Prelude.{
  zero, suc, ◌<◌, update, length, sum, ℕ, ◌+◌, ◌≡◌, refl, ◌⊎◌, [], ◌∷◌, ◌++◌, take, false, none,
  some,
}
use mc.Log.{Disk, Log, begin_op, log_write, commit, commit_writes, recover, apply_all, logsize}
use mc.Log.Crash.{IsSafe, IsBefore, IsAfter, crash_atomic, commit_lem}
use mc.Log.Space.{Steps, booted, begins, writes, log_write_lem}

abbrev empty : Log ℕ
empty = record {
  start = 2;
  size = 30;
  outstanding = 0;
  committing = false;
  lh = [];
  cache = λ a. a + 100;
  pins = λ a. 1;
  disk = record { block = λ a. a; header = [] };
}

abbrev two_blocks : Log ℕ
two_blocks = record empty { lh = 40 ∷ 41 ∷ [] }

two_blocks-IsSafe : IsSafe two_blocks
two_blocks-IsSafe = record { clear = refl; apart = (refl, (refl, tt)) }

-- after 3 writes: both blocks are in the log, and the header
abbrev after_crash : Disk ℕ
after_crash = recover 2 (apply_all (take 3 (commit_writes two_blocks)) two_blocks.disk)

crash_atomic_example :
    (after_crash.header ≡ []) × (IsBefore two_blocks after_crash ⊎ IsAfter two_blocks after_crash)
crash_atomic_example = crash_atomic two_blocks 3 two_blocks-IsSafe

commit_lem_example :
    ((commit two_blocks).lh ≡ [])
    × ((commit two_blocks).disk.header ≡ [])
    × IsAfter two_blocks (commit two_blocks).disk
commit_lem_example = commit_lem two_blocks two_blocks-IsSafe

-- Three operations have begun, and written the first `n` blocks.
abbrev logged : ℕ → Log ℕ
logged zero = record empty { outstanding = 3 }
logged (suc n) = record (logged n) {
  lh = (logged n).lh ++ (n ∷ []);
  pins = update (logged n).pins n ((logged n).pins n + 1);
}

three_operations : Steps 30 (logged 0) (10 ∷ 10 ∷ 10 ∷ [])
unfolding begin_op
three_operations = begins (begins (begins (booted {l = empty} refl refl refl refl) refl) refl) refl

first_is_done : Steps 30 (logged 10) (0 ∷ 10 ∷ 10 ∷ [])
unfolding log_write
first_is_done =
    writes 9 0 [] (10 ∷ 10 ∷ [])
      (writes 8 1 [] (10 ∷ 10 ∷ [])
        (writes 7 2 [] (10 ∷ 10 ∷ [])
          (writes 6 3 [] (10 ∷ 10 ∷ [])
            (writes 5 4 [] (10 ∷ 10 ∷ [])
              (writes 4 5 [] (10 ∷ 10 ∷ [])
                (writes 3 6 [] (10 ∷ 10 ∷ [])
                  (writes 2 7 [] (10 ∷ 10 ∷ [])
                    (writes 1 8 [] (10 ∷ 10 ∷ [])
                      (writes 0 9 [] (10 ∷ 10 ∷ []) (three_operations) refl) refl)
                    refl)
                  refl)
                refl)
              refl)
            refl)
          refl)
        refl)
      refl

second_is_done : Steps 30 (logged 20) (0 ∷ 0 ∷ 10 ∷ [])
unfolding log_write
second_is_done =
    writes 19 0 (0 ∷ []) (10 ∷ [])
      (writes 18 1 (0 ∷ []) (10 ∷ [])
        (writes 17 2 (0 ∷ []) (10 ∷ [])
          (writes 16 3 (0 ∷ []) (10 ∷ [])
            (writes 15 4 (0 ∷ []) (10 ∷ [])
              (writes 14 5 (0 ∷ []) (10 ∷ [])
                (writes 13 6 (0 ∷ []) (10 ∷ [])
                  (writes 12 7 (0 ∷ []) (10 ∷ [])
                    (writes 11 8 (0 ∷ []) (10 ∷ [])
                      (writes 10 9 (0 ∷ []) (10 ∷ []) (first_is_done) refl) refl)
                    refl)
                  refl)
                refl)
              refl)
            refl)
          refl)
        refl)
      refl

third_has_one_left : Steps 30 (logged 29) (0 ∷ 0 ∷ 1 ∷ [])
unfolding log_write
third_has_one_left =
    writes 28 1 (0 ∷ 0 ∷ []) []
      (writes 27 2 (0 ∷ 0 ∷ []) []
        (writes 26 3 (0 ∷ 0 ∷ []) []
          (writes 25 4 (0 ∷ 0 ∷ []) []
            (writes 24 5 (0 ∷ 0 ∷ []) []
              (writes 23 6 (0 ∷ 0 ∷ []) []
                (writes 22 7 (0 ∷ 0 ∷ []) []
                  (writes 21 8 (0 ∷ 0 ∷ []) [] (writes 20 9 (0 ∷ 0 ∷ []) [] (second_is_done) refl)
                    refl)
                  refl)
                refl)
              refl)
            refl)
          refl)
        refl)
      refl

-- the thirtieth block
log_write_lem_example :
    ((log_write 29 (logged 29) ≡ none)
      × (length (logged 29).lh + 1 ≡ logsize)
      × (sum (0 ∷ 0 ∷ 1 ∷ []) ≡ 1))
    ⊎ ((length (logged 29).lh + 1 < logsize)
        × ((l' : Log ℕ) × (log_write 29 (logged 29) ≡ some l')))
log_write_lem_example = log_write_lem 29 0 (logged 29) (0 ∷ 0 ∷ []) [] third_has_one_left

panics_at_the_last : log_write 29 (logged 29) ≡ none
unfolding log_write
panics_at_the_last = refl

-- a block that is logged already is not logged, or pinned, again
absorbs :
    log_write 41 (record two_blocks { outstanding = 1 })
    ≡ some (record two_blocks { outstanding = 1 })
unfolding log_write
absorbs = refl

-- the log is full for a fourth operation
fourth_waits : begin_op (record empty { outstanding = 3 }) ≡ none
unfolding begin_op
fourth_waits = refl
