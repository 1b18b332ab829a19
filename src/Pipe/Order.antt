-- ===== src/Pipe/Order.antt =====
-- Interleavings of pushes on a pipe that is not full and pops on one that is not empty.
use mc.Prelude.{ℕ, ◌≡◌, sym, ap, ◌∙◌, List, [], ◌∷◌, ◌++◌, false}
use mathlib.Core.List.{append-nil, append_assoc}
use mc.Pipe.{Pipe, is_full, is_empty, push, pop}
use mc.Pipe.Ring.{IsValid, contents, push-IsValid, pop-IsValid, contents-push, contents-pop}

-- A run from one pipe to another, with the bytes put in and those taken out.
pub data Run : List ℕ → List ℕ → Pipe → Pipe → Type 0 where
  done : {p : Pipe} → Run [] [] p p
  put :
      {ws rs : List ℕ} {p q : Pipe} (ch : ℕ)
      → is_full p ≡ false
      → Run ws rs (push ch p) q
      → Run (ch ∷ ws) rs p q
  get :
      {ws rs : List ℕ} {p q : Pipe}
      → is_empty p ≡ false
      → Run ws rs (pop p).1 q
      → Run ws ((pop p).0 ∷ rs) p q

pub Run-append :
    {ws rs ws' rs' : List ℕ} {p q r : Pipe}
    → Run ws rs p q
    → Run ws' rs' q r
    → Run (ws ++ ws') (rs ++ rs') p r
Run-append done b = b
Run-append (put ch h a) b = put ch h (Run-append a b)
Run-append (get h a) b = get h (Run-append a b)

-- From a valid pipe, what was in it followed by what was put in is what was taken out followed by what is
-- left in it; and the pipe stays valid.
pub Run-fifo :
    {ws rs : List ℕ} {p q : Pipe}
    → IsValid p
    → Run ws rs p q
    → (contents p ++ ws ≡ rs ++ contents q) × IsValid q
Run-fifo {p} v done = (append-nil (contents p), v)
Run-fifo {p} v (put {ws} ch h r) =
    let (e, v') = Run-fifo (push-IsValid ch p v h) r in
    (
      sym (append_assoc (contents p) (ch ∷ []) ws)
          ∙ ap (λ c. c ++ ws) (sym (contents-push ch p v h))
          ∙ e,
      v',
    )
Run-fifo {p} v (get {ws} h r) =
    let (e, v') = Run-fifo (pop-IsValid p v h) r in
    (ap (λ c. c ++ ws) (contents-pop p v h) ∙ ap (λ c. (pop p).0 ∷ c) e, v')
