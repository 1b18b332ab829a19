-- ===== src/File/Writing.antt =====
-- filewrite of kernel/file.c to an inode.
use mathlib.Core.Bool.{false≢true}
use mc.Prelude.{
  List, sym, ◌-◌, ◌≢◌, min, subst, ap₂, ℕ, zero, suc, ◌+◌, ◌≤◌, ◌<◌, ◌%◌, ◌^◌, ◌≡◌, ap, ◌∙◌, inl,
  inr, [], ◌∷◌, Bool, true, false, some, arith, if◌then◌else◌, ◌==◌, ==_iff, ltb, Bool-cases, add32,
  not, ◌&&◌, is_neg, minus_one,
}
use mc.File.{File, max_write, chunk, Written, write_loop, filewrite, fd_inode}

-- `off` after a transaction that writei answers with `r`
abbrev pub moved : (r off : ℕ) → ℕ
moved r off = if not (is_neg r) && ltb 0 r then add32 off r else off

-- The transactions of filewrite from byte `i` of `n` and offset `off` on, with their lengths, whether all of
-- them are done in full, and the offset at the end. Each is of the bytes that are left, but of no more
-- than max_write; the next follows only on one that writei did in full.
pub data Transactions (writei : ℕ → ℕ → ℕ) (n : ℕ) : (i off : ℕ) → List ℕ → Bool → ℕ → Type 0 where
  complete : {off : ℕ} → Transactions writei n n off [] true off
  cut_off :
      {i off c : ℕ}
      → i < n
      → c ≡ min max_write (n - i)
      → writei off c ≢ c
      → Transactions writei n i off (c ∷ []) false (moved (writei off c) off)
  onward :
      {i off c off' : ℕ} {cs : List ℕ} {full : Bool}
      → i < n
      → c ≡ min max_write (n - i)
      → writei off c ≡ c
      → Transactions writei n (i + c) ((off + c) % 2 ^ 32) cs full off'
      → Transactions writei n i off (c ∷ cs) full off'

-- How the loop of filewrite ends, from byte `i` of `n` on.
pub record WriteEnd (writei : ℕ → ℕ → ℕ) (n i off : ℕ) (w : Written) : Type 0 where
  pub full : Bool
  pub done : Transactions writei n i off w.chunks full w.off
  pub counted : (w.count == n) ≡ full

go_on : (r off : ℕ) → 0 < r → r < 2 ^ 31 → moved r off ≡ (off + r) % 2 ^ 32
go_on r off p l = let e : (not (is_neg r) && ltb 0 r) ≡ true = ground arith in rw e

-- The loop of filewrite ends, with fuel for one byte a transaction.
write_loop_lem :
    (fuel : ℕ) (writei : ℕ → ℕ → ℕ) (n i off : ℕ)
    → n < i + fuel
    → i ≤ n
    → n < 2 ^ 31
    → (w : Written) × (write_loop fuel writei n i off ≡ some w) × WriteEnd writei n i off w
unfolding write_loop
write_loop_lem zero writei n i off f l b = absurd (omega arith)
write_loop_lem (suc fuel) writei n i off f l b = elim (Bool-cases (ltb i n)) [
  | inr e ↦
      let same : i ≡ n = ground (arith, e) in
      (
        record { count = i; off = off; chunks = [] },
        rw (write_loop, e),
        record {
          full = true;
          done = subst (λ k. Transactions writei n k off [] true off) (sym same) complete;
          counted = (==_iff i n).1 same;
        },
      )
  | inl e ↦
      let before : i < n = ground (arith, e) in
      let size : chunk n i ≡ min max_write (n - i) = ground arith in
      let c0 : 0 < chunk n i = ground (arith, e) in
      let c1 : chunk n i ≤ max_write = ground (arith, e) in
      let c2 : i + chunk n i ≤ n = ground (arith, e) in
      elim (Bool-cases (writei off (chunk n i) == chunk n i)) [
        | inr g ↦ (
          record { count = i; off = moved (writei off (chunk n i)) off; chunks = chunk n i ∷ [] },
          rw (write_loop, e, g),
          record {
            full = false;
            done = cut_off before size (λ q. false≢true (sym g ∙ (==_iff _ _).1 q));
            counted = ground (arith, before);
          },
        )
        | inl g ↦
            let q : writei off (chunk n i) ≡ chunk n i = (==_iff _ _).0 g in
            let m : moved (writei off (chunk n i)) off ≡ (off + chunk n i) % 2 ^ 32 =
              ap (λ r. moved r off) q ∙ go_on (chunk n i) off c0 (omega arith) in
            let (w, e1, h) =
              write_loop_lem fuel writei n (i + chunk n i) ((off + chunk n i) % 2 ^ 32)
                (omega arith) c2 b in
            let e2 : write_loop fuel writei n (i + writei off (chunk n i))
                  (moved (writei off (chunk n i)) off)
                ≡ some w =
              ap₂ (λ r o. write_loop fuel writei n (i + r) o) q m ∙ e1 in
            (
              record w { chunks = chunk n i ∷ w.chunks },
              rw (write_loop, e, g, e2),
              record { full = h.full; done = onward before size q h.done; counted = h.counted },
            )
      ]
]

filewrite_inode :
    (has : ℕ → Bool) (r : ℕ) (writei : ℕ → ℕ → ℕ) (n : ℕ) (f : File) (w : Written)
    → f.type ≡ fd_inode
    → (f.writable == 0) ≡ false
    → write_loop (suc n) writei n 0 f.off ≡ some w
    → filewrite has r writei n f
      ≡ some (if w.count == n then n else minus_one, record f { off = w.off })
unfolding filewrite
filewrite_inode has r writei n f w t a e =
    rw (a, t, e)
      (ap (λ x. some (if w.count == n then n else minus_one, record f { type = x; off = w.off })) t)

-- filewrite to an inode ends. It writes in transactions of 3072 bytes, what begin_op reserves room for, and
-- a last one of the bytes that are left; it goes on as long as writei does all of a transaction, and
-- answers `n` if writei does all of all of them, and -1 if not. The offset of the file moves by what
-- writei answers, unless that is negative.
pub filewrite_lem :
    (has : ℕ → Bool) (r : ℕ) (writei : ℕ → ℕ → ℕ) (n : ℕ) (f : File)
    → n < 2 ^ 31
    → f.type ≡ fd_inode
    → (f.writable == 0) ≡ false
    → (cs : List ℕ) × (full : Bool) × (off' : ℕ) × Transactions writei n 0 f.off cs full off'
      × (filewrite has r writei n f ≡ some (if full then n else minus_one, record f { off = off' }))
filewrite_lem has r writei n f b t a =
    let (w, e, h) = write_loop_lem (suc n) writei n 0 f.off (omega arith) (omega arith) b in
    (
      w.chunks,
      h.full,
      w.off,
      h.done,
      filewrite_inode has r writei n f w t a e
          ∙ ap (λ c. some (if c then n else minus_one, record f { off = w.off })) h.counted,
    )
