-- ===== src/Tests/Pipe.antt =====
-- A pipe through which a few bytes go.
use mc.Prelude.{
  ℕ, ◌≡◌, refl, List, [], ◌∷◌, ◌++◌, false, Option, none, some, replicate, length-replicate,
  minus_one,
}
use mc.Pipe.{
  Pipe, pipesize, pipealloc, pipewrite, piperead, copy_out, push, pop, returned, asleep, received,
}
use mc.Pipe.Ring.{IsValid, contents, pipealloc-IsValid}
use mc.Pipe.Order.{Run, done, put, get, Run-fifo}

abbrev fresh : Pipe
fresh = pipealloc (replicate pipesize 0)

fresh-IsValid : IsValid fresh
fresh-IsValid = (pipealloc-IsValid (replicate pipesize 0) (length-replicate {A = ℕ} pipesize 0)).0

abbrev holding : Pipe
holding = (pop (push 8 (push 7 fresh))).1

two_in_one_out : Run (7 ∷ 8 ∷ []) (7 ∷ []) fresh holding
unfolding push pop pipealloc
two_in_one_out = put 7 refl (put 8 refl (get refl done))

Run-fifo_example : (contents fresh ++ (7 ∷ 8 ∷ []) ≡ 7 ∷ contents holding) × IsValid holding
Run-fifo_example = Run-fifo fresh-IsValid two_in_one_out

abbrev source : List (Option ℕ)
source = some 7 ∷ some 8 ∷ none ∷ some 9 ∷ []

write_stops_at_fault : (pipewrite (λ i. false) source 0 fresh).0 ≡ returned 2
unfolding pipewrite push pipealloc
write_stops_at_fault = refl

write_to_closed :
    (pipewrite (λ i. false) source 0 (record fresh { readopen = 0 })).0 ≡ returned minus_one
unfolding pipewrite push pipealloc
write_to_closed = refl

write_sleeps_when_full :
    (pipewrite (λ i. false) source 0 (record fresh { nwrite = 511 })).0 ≡ asleep 1
unfolding pipewrite push pipealloc
write_sleeps_when_full = refl

reads_what_there_is : (piperead false (λ i. false) 5 holding).0 ≡ received 1 (8 ∷ [])
unfolding piperead copy_out push pop pipealloc
reads_what_there_is = refl
