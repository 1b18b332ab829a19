-- ===== src/Pipe/Transfer.antt =====
-- pipewrite and piperead of kernel/pipe.c, a pass at a time, as runs of pushes and of pops.
use mc.Prelude.{
  ℕ, ◌+◌, ◌≤◌, ◌≡◌, ◌⊎◌, List, [], ◌∷◌, ◌++◌, map, Bool, true, false, ◌||◌, Option, none, some,
  ◌==◌, length, minus_one,
}
use mc.Pipe.{
  Pipe, is_full, is_empty, WriteStep, returned, asleep, ReadStep, received, interrupted, waiting,
}

-- Whether the loop of pipewrite gives up before byte `i`: the reading end is closed, or the process killed.
abbrev pub gives_up : (killed : ℕ → Bool) → (i : ℕ) → Pipe → Bool
gives_up killed i p = p.readopen == 0 || killed i

-- What a pass of pipewrite may answer, from byte `i` on, once it has put in the bytes `ws`, the first ones
-- of the source.
pub data WriteOutcome (killed : ℕ → Bool) (src : List (Option ℕ)) (i : ℕ) (ws : List ℕ) (p' : Pipe)
    : WriteStep → Type 0 where
  -- all bytes
  all_put : src ≡ map some ws → WriteOutcome killed src i ws p' (returned (i + length ws))
  -- copyin fails at the next byte, for which there is room
  faulted :
      (rest : List (Option ℕ))
      → src ≡ map some ws ++ (none ∷ rest)
      → gives_up killed (i + length ws) p' ≡ false
      → is_full p' ≡ false
      → WriteOutcome killed src i ws p' (returned (i + length ws))
  -- there are bytes left, and the loop gives up: those put in are not reported
  refused :
      (b : Option ℕ) (rest : List (Option ℕ))
      → src ≡ map some ws ++ (b ∷ rest)
      → gives_up killed (i + length ws) p' ≡ true
      → WriteOutcome killed src i ws p' (returned minus_one)
  -- there are bytes left, and the pipe is full
  blocked :
      (b : Option ℕ) (rest : List (Option ℕ))
      → src ≡ map some ws ++ (b ∷ rest)
      → gives_up killed (i + length ws) p' ≡ false
      → is_full p' ≡ true
      → WriteOutcome killed src i ws p' (asleep (i + length ws))

-- How the copying loop of piperead ends, once it has taken out the bytes `rs` and given out `out`.
pub record CopyOutcome (n i k : ℕ) (rs out : List ℕ) (p' : Pipe) : Type 0 where
  pub count : k ≡ i + length out
  pub bounded : length out ≤ n
  -- all that was taken out was given out, until the pipe was empty or the number was reached; or a fault of
  -- copyout lost the last byte
  pub ended :
      ((rs ≡ out) × ((is_empty p' ≡ true) ⊎ (length out ≡ n)))
      ⊎ ((ch : ℕ) × (rs ≡ out ++ (ch ∷ [])))

-- What a pass of piperead may answer, once it has taken out the bytes `rs`.
pub data ReadOutcome (killed : Bool) (n : ℕ) (rs : List ℕ) (p p' : Pipe) : ReadStep → Type 0 where
  -- the pipe holds bytes, or its writing end is closed
  copied :
      {k : ℕ} {out : List ℕ}
      → (is_empty p ≡ false) ⊎ (p.writeopen ≡ 0)
      → CopyOutcome n 0 k rs out p'
      → ReadOutcome killed n rs p p' (received k out)
  -- an empty pipe whose writing end is open
  dry :
      is_empty p ≡ true
      → (p.writeopen == 0) ≡ false
      → rs ≡ []
      → killed ≡ false
      → ReadOutcome killed n rs p p' waiting
  broken :
      is_empty p ≡ true
      → (p.writeopen == 0) ≡ false
      → rs ≡ []
      → killed ≡ true
      → ReadOutcome killed n rs p p' interrupted
