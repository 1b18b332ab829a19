-- ===== src/Pipe.antt =====
-- kernel/pipe.c: a pipe, pipeclose, and pipewrite and piperead from one sleep to the next. The counters
-- `nread` and `nwrite` are `uint`s that wrap. What the user's memory delivers, and whether the process
-- has been killed, are arguments, asked anew for each byte.
pub mod Ring
pub mod Transfer
pub mod Order
use mc.Prelude.{
  ℕ, zero, suc, ◌+◌, ◌-◌, ◌%◌, ◌^◌, List, [], ◌∷◌, ◌++◌, Bool, true, false, not, ◌&&◌, ◌||◌, Option,
  none, some, if◌then◌else◌, ◌==◌, add32, get_or, set, replicate, minus_one,
}

abbrev pub pipesize : ℕ
pipesize = 512

-- `data` is the array, `readopen` and `writeopen` are flags.
pub record Pipe : Type 0 where
  pub bytes : List ℕ
  pub nread : ℕ
  pub nwrite : ℕ
  pub readopen : ℕ
  pub writeopen : ℕ

-- The fields that pipealloc sets on a fresh page.
unfoldable pub pipealloc : List ℕ → Pipe
pipealloc page = record { bytes = page; nread = 0; nwrite = 0; readopen = 1; writeopen = 1 }

-- pipeclose: the pipe, and whether its page is given back
unfoldable pub pipeclose : ℕ → Pipe → Pipe × Bool
pipeclose writable p =
    let p' : Pipe =
      if writable == 0 then record p { readopen = 0 } else record p { writeopen = 0 } in
    (p', p'.readopen == 0 && p'.writeopen == 0)

abbrev pub is_full : Pipe → Bool
is_full p = p.nwrite == add32 p.nread pipesize

abbrev pub is_empty : Pipe → Bool
is_empty p = p.nread == p.nwrite

-- pi->data[pi->nwrite++ % PIPESIZE] = ch
unfoldable pub push : ℕ → Pipe → Pipe
push ch p = record p { bytes = set p.bytes (p.nwrite % pipesize) ch; nwrite = add32 p.nwrite 1 }

-- ch = pi->data[pi->nread++ % PIPESIZE]
unfoldable pub pop : Pipe → ℕ × Pipe
pop p = (get_or p.bytes (p.nread % pipesize) 0, record p { nread = add32 p.nread 1 })

pub data WriteStep : Type 0 where
  returned : ℕ → WriteStep
  asleep : ℕ → WriteStep  -- on a full pipe, with this many bytes written

-- The loop of pipewrite from byte `i` on. The list is what copyin gives for the bytes that are left, none
-- where it fails.
unfoldable pub pipewrite : (killed : ℕ → Bool) → List (Option ℕ) → ℕ → Pipe → WriteStep × Pipe
pipewrite killed [] i p = (returned i, p)
pipewrite killed (none ∷ src) i p =
    if p.readopen == 0 || killed i
    then (returned minus_one, p)
    else if is_full p
    then (asleep i, p)
    else (returned i, p)
pipewrite killed (some ch ∷ src) i p =
    let next = pipewrite killed src (i + 1) (push ch p) in
    if p.readopen == 0 || killed i
    then (returned minus_one, p)
    else if is_full p
    then (asleep i, p)
    else next

pub data ReadStep : Type 0 where
  received : ℕ → List ℕ → ReadStep  -- the number returned, and the bytes given to the user
  interrupted : ReadStep  -- -1, killed while the pipe is empty
  waiting : ReadStep  -- on an empty pipe

-- The copying loop: `n` bytes at most from byte `i` on; `faults` says where copyout fails.
unfoldable pub copy_out : (faults : ℕ → Bool) → (n i : ℕ) → Pipe → (ℕ × List ℕ) × Pipe
unfolding pop
copy_out faults zero i p = ((i, []), p)
copy_out faults (suc n) i p =
    let (ch, p') = pop p in
    let next = copy_out faults n (i + 1) p' in
    if is_empty p
    then ((i, []), p)
    else if faults i
    then ((i, []), p')
    else ((next.0.0, ch ∷ next.0.1), next.1)

unfoldable pub piperead : (killed : Bool) → (faults : ℕ → Bool) → (n : ℕ) → Pipe → ReadStep × Pipe
unfolding copy_out
piperead killed faults n p =
    if is_empty p && not (p.writeopen == 0)
    then (if killed then (interrupted, p) else (waiting, p))
    else let ((i, out), p') = copy_out faults n 0 p in (received i out, p')
