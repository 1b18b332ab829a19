-- ===== src/Grep/Lines.antt =====
-- The loop of grep against the lines of the file.
use mc.Prelude.{
  ℕ, zero, suc, ◌+◌, ◌-◌, ◌≤◌, ◌<◌, List, [], ◌∷◌, ◌++◌, true, false, none, some, if◌then◌else◌,
  ◌==◌, ◌≡◌, refl, sym, ap, ◌∙◌, inl, inr, Bool-cases, arith, length, min, take, drop, All, subst,
  take-append-drop, length-append, length-drop,
}
use mathlib.Core.List.{append-nil, append_assoc}
use mc.Grep.{match, split_line, scan_lines, buf_size, grep}

-- The lines of a file with a word of the pattern, each with its newline; `l` is what is read of the
-- first one. A last line without a newline is left out.
abbrev pub matching_lines : (pattern l file : List ℕ) → List ℕ
matching_lines pattern l [] = []
matching_lines pattern l (c ∷ s) =
    let next = matching_lines pattern [] s in
    let more = matching_lines pattern (l ++ (c ∷ [])) s in
    if c == 10 then (if match pattern l then l ++ (10 ∷ next) else next) else more

-- Every line of a file has room in the buffer with its newline, and there is no byte 0.
abbrev pub IsShort : (l file : List ℕ) → Type 0
IsShort l [] = length l + 1 < buf_size
IsShort l (c ∷ s) =
    ((c == 0) ≡ false)
    × (length l + 1 < buf_size)
    × (((c == 10) ≡ true) → IsShort [] s)
    × (((c == 10) ≡ false) → IsShort (l ++ (c ∷ [])) s)

-- Neither a newline nor a 0.
abbrev IsPlain : List ℕ → Type 0
IsPlain l = All (λ c. ((c == 0) ≡ false) × ((c == 10) ≡ false)) l

abbrev feed : (pattern l s : List ℕ) → List ℕ × List ℕ
feed pattern l [] = ([], l)
feed pattern l (c ∷ s) =
    let next = feed pattern [] s in
    let more = feed pattern (l ++ (c ∷ [])) s in
    if c == 10 then (if match pattern l then l ++ (10 ∷ next.0) else next.0, next.1) else more

split_line-plain : (l : List ℕ) → IsPlain l → split_line l ≡ none
unfolding split_line
split_line-plain [] h = refl
split_line-plain (c ∷ l) ((z, n), h) = rw (z, n, split_line-plain l h)

split_line-newline : (l s : List ℕ) → IsPlain l → split_line (l ++ (10 ∷ s)) ≡ some (l, s)
unfolding split_line
split_line-newline [] s h = refl
split_line-newline (c ∷ l) s ((z, n), h) = rw (z, n, split_line-newline l s h)

append-IsPlain :
    (l : List ℕ) (c : ℕ)
    → IsPlain l
    → (c == 0) ≡ false
    → (c == 10) ≡ false
    → IsPlain (l ++ (c ∷ []))
append-IsPlain [] c h z n = ((z, n), tt)
append-IsPlain (x ∷ l) c (p, h) z n = (p, append-IsPlain l c h z n)

append_one : (l : List ℕ) (c : ℕ) (s : List ℕ) → l ++ (c ∷ s) ≡ (l ++ (c ∷ [])) ++ s
append_one [] c s = refl
append_one (x ∷ l) c s = ap (λ r. x ∷ r) (append_one l c s)

abbrev HasNoNul : List ℕ → Type 0
HasNoNul s = All (λ c. (c == 0) ≡ false) s

scan_lines-feed :
    (fuel : ℕ) (pattern l s : List ℕ)
    → IsPlain l
    → HasNoNul s
    → length s < fuel
    → scan_lines fuel pattern (l ++ s) ≡ feed pattern l s
unfolding scan_lines
scan_lines-feed zero pattern l s h z f = absurd (omega arith)
scan_lines-feed (suc fuel) pattern l [] h z f =
    ap (scan_lines (suc fuel) pattern) (append-nil l) ∙ rw (scan_lines, split_line-plain l h)
scan_lines-feed (suc fuel) pattern l (c ∷ s) h (z, zs) f = elim (Bool-cases (c == 10)) [
  | inl y ↦
      let e : c ≡ 10 = ground (arith, y) in
      rw (
        e,
        scan_lines,
        split_line-newline l s h,
        scan_lines-feed fuel pattern [] s tt zs (omega arith),
      )
  | inr n ↦
      append_same
      ∙ scan_lines-feed (suc fuel) pattern (l ++ (c ∷ [])) s (append-IsPlain l c h z n) zs
          (omega arith)
      ∙ feed_same n
]
  where
    append_same :
        scan_lines (suc fuel) pattern (l ++ (c ∷ s))
        ≡ scan_lines (suc fuel) pattern ((l ++ (c ∷ [])) ++ s)
    append_same = ap (λ r. scan_lines (suc fuel) pattern r) (append_one l c s)

    feed_same : (c == 10) ≡ false → feed pattern (l ++ (c ∷ [])) s ≡ feed pattern l (c ∷ s)
    feed_same n = rw (n)

-- Bytes that are fed first, and the rest of the file.
matching_lines-feed :
    (pattern l a b : List ℕ)
    → matching_lines pattern l (a ++ b)
      ≡ (feed pattern l a).0 ++ matching_lines pattern (feed pattern l a).1 b
matching_lines-feed pattern l [] b = refl
matching_lines-feed pattern l (c ∷ a) b = elim (Bool-cases (c == 10)) [
  | inl y ↦ elim (Bool-cases (match pattern l)) [
    | inl t ↦
        rw (y, t, matching_lines-feed pattern [] a b)
          (sym (
            append_assoc l (10 ∷ (feed pattern [] a).0)
              (matching_lines pattern (feed pattern [] a).1 b)))
    | inr t ↦ rw (y, t, matching_lines-feed pattern [] a b)
  ]
  | inr n ↦ rw (n, matching_lines-feed pattern (l ++ (c ∷ [])) a b)
]

feed-IsShort : (pattern l a b : List ℕ) → IsShort l (a ++ b) → IsShort (feed pattern l a).1 b
feed-IsShort pattern l [] b h = h
feed-IsShort pattern l (c ∷ a) b (z, r, x, y) = elim (Bool-cases (c == 10)) [
  | inl t ↦ rw (t) (feed-IsShort pattern [] a b (x t))
  | inr t ↦ rw (t) (feed-IsShort pattern (l ++ (c ∷ [])) a b (y t))
]

feed-IsPlain : (pattern l a : List ℕ) → IsPlain l → HasNoNul a → IsPlain (feed pattern l a).1
feed-IsPlain pattern l [] h z = h
feed-IsPlain pattern l (c ∷ a) h (z, zs) = elim (Bool-cases (c == 10)) [
  | inl t ↦ rw (t) (feed-IsPlain pattern [] a tt zs)
  | inr t ↦ rw (t) (feed-IsPlain pattern (l ++ (c ∷ [])) a (append-IsPlain l c h z t) zs)
]

IsShort-HasNoNul : (l s : List ℕ) → IsShort l s → HasNoNul s
IsShort-HasNoNul l [] h = tt
IsShort-HasNoNul l (c ∷ s) (z, r, x, y) = elim (Bool-cases (c == 10)) [
  | inl t ↦ (z, IsShort-HasNoNul [] s (x t))
  | inr t ↦ (z, IsShort-HasNoNul (l ++ (c ∷ [])) s (y t))
]

take-HasNoNul : (n : ℕ) (s : List ℕ) → HasNoNul s → HasNoNul (take n s)
take-HasNoNul zero s h = tt
take-HasNoNul (suc n) [] h = tt
take-HasNoNul (suc n) (c ∷ s) (z, h) = (z, take-HasNoNul n s h)

IsShort-room : (l s : List ℕ) → IsShort l s → length l + 1 < buf_size
IsShort-room l [] h = h
IsShort-room l (c ∷ s) h = h.1

matching_lines-nil :
    (pattern l file : List ℕ) → length file ≡ 0 → matching_lines pattern l file ≡ []
matching_lines-nil pattern l [] e = refl
matching_lines-nil pattern l (c ∷ s) e = absurd (omega arith)

min_fits : (k room n : ℕ) → (k == 0) ≡ false → 0 < room → (min (min k room) n == 0) ≡ true → n ≡ 0
min_fits k room n a b c = ground (arith, a, c)

-- A turn with n bytes, given the turns after it.
grep-turn :
    (ready pattern file l : List ℕ) (n : ℕ)
    → IsPlain l
    → IsShort l file
    → (n == 0) ≡ false
    → length file ≤ suc (length ready)
    → ((file' l' : List ℕ)
        → IsPlain l'
        → IsShort l' file'
        → length file' ≤ length ready
        → grep ready pattern file' l' ≡ matching_lines pattern l' file')
    → (scan_lines (suc (length (l ++ take n file))) pattern (l ++ take n file)).0
        ++ grep ready pattern
            (drop n file)
            (scan_lines (suc (length (l ++ take n file))) pattern (l ++ take n file)).1
      ≡ matching_lines pattern l file
grep-turn ready pattern file l n h z t e ih =
    let enough : length (take n file) < suc (length (l ++ take n file)) =
      omega (arith, length-append l (take n file)) in
    let both : IsShort l (take n file ++ drop n file) =
      subst (λ f. IsShort l f) (sym (take-append-drop n file)) z in
    let no_nul : HasNoNul (take n file) = take-HasNoNul n file (IsShort-HasNoNul l file z) in
    let less : length (drop n file) ≤ length ready = ground (arith, length-drop n file, t, e) in
    rw
      (
        scan_lines-feed (suc (length (l ++ take n file))) pattern l (take n file) h no_nul enough,
        ih (drop n file) (feed pattern l (take n file)).1
            (feed-IsPlain pattern l (take n file) h no_nul)
            (feed-IsShort pattern l (take n file) (drop n file) both) less,
      )
      (sym (matching_lines-feed pattern l (take n file) (drop n file))
        ∙ ap (matching_lines pattern l) (take-append-drop n file))

grep-from :
    (ready pattern file l : List ℕ)
    → IsPlain l
    → IsShort l file
    → All (λ k. (k == 0) ≡ false) ready
    → length file ≤ length ready
    → grep ready pattern file l ≡ matching_lines pattern l file
unfolding grep
grep-from [] pattern file l h z a e = sym (matching_lines-nil pattern l file (omega arith))
grep-from (k ∷ ready) pattern file l h z (k0, a) e =
    elim (Bool-cases (min (min k (buf_size - length l - 1)) (length file) == 0)) [
      | inl t ↦
          let room : 0 < buf_size - length l - 1 = omega (arith, IsShort-room l file z) in
          rw (grep, t)
            (sym (
              matching_lines-nil pattern l file
                (min_fits k (buf_size - length l - 1) (length file) k0 room t)))
      | inr t ↦
          rw (grep, t)
            (grep-turn ready pattern file l (min (min k (buf_size - length l - 1)) (length file)) h
              z t e (λ f m p q r. grep-from ready pattern f m p q a r))
    ]

-- grep writes, of the lines of a file that end with a newline, those that match, in order, each with its
-- newline, however the reads split the file; a last line without a newline is not written, matching or
-- not. This is so where it holds no 0, each line has room in the buffer with its newline, and the reads come
-- with a byte at least until the end.
pub grep_lem :
    (ready pattern file : List ℕ)
    → IsShort [] file
    → All (λ k. (k == 0) ≡ false) ready
    → length file ≤ length ready
    → grep ready pattern file [] ≡ matching_lines pattern [] file
grep_lem ready pattern file z a e = grep-from ready pattern file [] tt z a e
