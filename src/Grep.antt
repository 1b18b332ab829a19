-- ===== src/Grep.antt =====
-- user/grep.c: the matcher of regular expressions, and the loop over the lines of a file. A C string is
-- the list of its bytes before the 0.
pub mod Words
pub mod Lines
use mc.Prelude.{
  ℕ, List, [], ◌∷◌, Bool, true, false, not, ◌&&◌, ◌||◌, if◌then◌else◌, ◌==◌, ◌-◌, zero, suc, ◌++◌,
  Option, none, some, length, min, take, drop,
}

abbrev pub is_end : List ℕ → Bool
is_end [] = true
is_end (c ∷ s) = false

-- a character of the expression against one of the text
abbrev pub accepts : (c x : ℕ) → Bool
accepts c x = c == b'.' || c == x

-- The loop of matchstar, given what matchhere does with the rest of the expression.
unfoldable pub star_loop : (List ℕ → Bool) → (c : ℕ) → List ℕ → Bool
star_loop here c [] = here []
star_loop here c (x ∷ text) = here (x ∷ text) || (accepts c x && star_loop here c text)

abbrev pub one_char : (List ℕ → Bool) → (c : ℕ) → List ℕ → Bool
one_char here c [] = false
one_char here c (x ∷ text) = accepts c x && here text

unfoldable pub matchhere : (re text : List ℕ) → Bool
unfolding star_loop
matchhere [] text = true
matchhere (c ∷ []) text = if c == b'$' then is_end text else one_char (matchhere []) c text
matchhere (c ∷ d ∷ re) text =
    if d == b'*' then star_loop (matchhere re) c text else one_char (matchhere (d ∷ re)) c text

unfoldable pub matchstar : (c : ℕ) → (re text : List ℕ) → Bool
unfolding matchhere
matchstar c re text = star_loop (matchhere re) c text

-- the loop of match
unfoldable pub match_from : (re text : List ℕ) → Bool
unfolding matchhere
match_from re [] = matchhere re []
match_from re (x ∷ text) = matchhere re (x ∷ text) || match_from re text

unfoldable pub match : (re text : List ℕ) → Bool
unfolding match_from
match [] text = match_from [] text
match (c ∷ re) text = if c == b'^' then matchhere re text else match_from (c ∷ re) text

-- strchr(p, '\n'): the bytes before the newline, and those behind it
unfoldable pub split_line : List ℕ → Option (List ℕ × List ℕ)
split_line [] = none
split_line (c ∷ p) =
    if c == 0
    then none
    else if c == 10
    then some ([], p)
    else (elim (split_line p) [ none ↦ none | some (line, rest) ↦ some (c ∷ line, rest) ])

-- The lines in the buffer: the bytes that are written, and those that are left. A line takes a byte of
-- the buffer at least, so that its length is fuel enough.
unfoldable pub scan_lines : (fuel : ℕ) (pattern p : List ℕ) → List ℕ × List ℕ
unfolding split_line match
scan_lines zero pattern p = ([], p)
scan_lines (suc fuel) pattern p = elim (split_line p) [
  | none ↦ ([], p)
  | some (line, rest) ↦
      let r = scan_lines fuel pattern rest in
      (if match pattern line then line ++ (10 ∷ r.0) else r.0, r.1)
]

abbrev pub buf_size : ℕ
buf_size = 1024

-- The loop of grep: what it writes. Each read gets as many bytes as are ready, of what is left of the
-- file and has room in the buffer; after the last of them read answers 0.
unfoldable pub grep : (ready : List ℕ) (pattern file kept : List ℕ) → List ℕ
unfolding scan_lines
grep [] pattern file kept = []
grep (k ∷ ready) pattern file kept =
    let n = min (min k (buf_size - length kept - 1)) (length file) in
    let r = scan_lines (suc (length (kept ++ take n file))) pattern (kept ++ take n file) in
    let later = grep ready pattern (drop n file) r.1 in if n == 0 then [] else r.0 ++ later
