-- ===== src/Pipe/Ring.antt =====
-- The bytes that a pipe holds, oldest first, and what push and pop do to them.
use mc.Prelude.{
  ℕ, zero, suc, ◌+◌, ◌%◌, ◌^◌, ◌≤◌, ◌<◌, ◌≡◌, refl, ◌∙◌, ap, ap₂, List, [], ◌∷◌, ◌++◌, false, arith,
  add32, sub32, get_or, set, length, length-set, get_or-set_self, get_or-set_ne,
}
use mc.Pipe.{Pipe, pipesize, pipealloc, is_full, is_empty, push, pop}

pub record IsValid (p : Pipe) : Type 0 where
  pub size : length p.bytes ≡ pipesize
  pub read_range : p.nread < 2 ^ 32
  pub write_range : p.nwrite < 2 ^ 32
  pub held : sub32 p.nwrite p.nread ≤ pipesize

-- `n` bytes from counter `r` on
abbrev pub window : List ℕ → ℕ → ℕ → List ℕ
window d r zero = []
window d r (suc n) = get_or d (r % pipesize) 0 ∷ window d (add32 r 1) n

abbrev pub contents : Pipe → List ℕ
contents p = window p.bytes p.nread (sub32 p.nwrite p.nread)

length-window : (d : List ℕ) (r n : ℕ) → length (window d r n) ≡ n
length-window d r zero = refl
length-window d r (suc n) = ap suc (length-window d (add32 r 1) n)

pub length-contents : (p : Pipe) → length (contents p) ≡ sub32 p.nwrite p.nread
length-contents p = length-window p.bytes p.nread (sub32 p.nwrite p.nread)

-- A byte written just behind the window joins it.
window-set :
    (d : List ℕ) (r n w x : ℕ)
    → length d ≡ pipesize
    → r < 2 ^ 32
    → n < pipesize
    → w ≡ (r + n) % 2 ^ 32
    → window (set d (w % pipesize) x) r (suc n) ≡ window d r n ++ (x ∷ [])
window-set d r zero w x l hr hn e =
    let i : w % pipesize ≡ r % pipesize = omega arith in
    rw (i, get_or-set_self d (r % pipesize) x 0 (omega arith))
window-set d r (suc n) w x l hr hn e =
    ap₂ ◌∷◌ (get_or-set_ne d (w % pipesize) (r % pipesize) x 0 (omega arith))
      (window-set d (add32 r 1) n w x l (omega arith) (omega arith) (omega arith))

pub push-IsValid : (ch : ℕ) (p : Pipe) → IsValid p → is_full p ≡ false → IsValid (push ch p)
unfolding push
push-IsValid ch p v h = record {
  size = length-set p.bytes (p.nwrite % pipesize) ch ∙ v.size;
  read_range = v.read_range;
  write_range = omega arith;
  held = ground arith;
}

pub contents-push :
    (ch : ℕ) (p : Pipe)
    → IsValid p
    → is_full p ≡ false
    → contents (push ch p) ≡ contents p ++ (ch ∷ [])
unfolding push
contents-push ch p v h =
    let n : ℕ = sub32 p.nwrite p.nread in
    let room : n < pipesize = ground arith in
    let grown : sub32 (add32 p.nwrite 1) p.nread ≡ suc n = omega arith in
    rw grown (window-set p.bytes p.nread n p.nwrite ch v.size v.read_range room (omega arith))

pub pop-IsValid : (p : Pipe) → IsValid p → is_empty p ≡ false → IsValid (pop p).1
unfolding pop
pop-IsValid p v h = record {
  size = v.size;
  read_range = omega arith;
  write_range = v.write_range;
  held = ground arith;
}

pub contents-pop :
    (p : Pipe) → IsValid p → is_empty p ≡ false → contents p ≡ (pop p).0 ∷ contents (pop p).1
unfolding pop
contents-pop p v h =
    let n : ℕ = sub32 p.nwrite (add32 p.nread 1) in
    let shrunk : sub32 p.nwrite p.nread ≡ suc n = ground arith in rw shrunk

-- A new pipe is valid, and holds nothing.
pub pipealloc-IsValid :
    (page : List ℕ)
    → length page ≡ pipesize
    → IsValid (pipealloc page) × (contents (pipealloc page) ≡ [])
unfolding pipealloc
pipealloc-IsValid page h = (
  record { size = h; read_range = omega arith; write_range = omega arith; held = omega arith },
  refl,
)
