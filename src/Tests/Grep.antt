-- ===== src/Tests/Grep.antt =====
-- An expression with all the operators, and a file of three lines read in four pieces.
use mc.Prelude.{ℕ, List, [], ◌∷◌, true, false, ◌≡◌, refl, ◌↔◌, arith}
use mc.Grep.{match, grep}
use mc.Grep.Words.{Occurs, parse, untied, tied, match_lem}
use mc.Grep.Lines.{matching_lines, grep_lem}

-- `^a.*b$` and `acb`
abbrev expression : List ℕ
expression = 94 ∷ 97 ∷ 46 ∷ 42 ∷ 98 ∷ 36 ∷ []

abbrev text : List ℕ
text = 97 ∷ 99 ∷ 98 ∷ []

match_lem_example :
    (match expression text ≡ true) ↔ Occurs (parse (untied expression)) (tied expression) text
match_lem_example = match_lem expression text

matches : match expression text ≡ true
unfolding match
matches = refl

matches_no_more : match expression (97 ∷ 98 ∷ 99 ∷ []) ≡ false
unfolding match
matches_no_more = refl

-- three lines, the last without its newline
abbrev file : List ℕ
file = 97 ∷ 98 ∷ 10 ∷ 99 ∷ 10 ∷ 98 ∷ []

abbrev ready : List ℕ
ready = 2 ∷ 1 ∷ 9 ∷ 1 ∷ 1 ∷ 1 ∷ []

grep_lem_example : grep ready (98 ∷ []) file [] ≡ matching_lines (98 ∷ []) [] file
grep_lem_example =
    grep_lem ready (98 ∷ []) file
      (
        refl,
        omega arith,
        λ t. absurd (cc),
        λ t. (
          refl,
          omega arith,
          λ t. absurd (cc),
          λ t. (
            refl,
            omega arith,
            λ t. (
              refl,
              omega arith,
              λ t. absurd (cc),
              λ t. (
                refl,
                omega arith,
                λ t. (refl, omega arith, λ t. absurd (cc), λ t. omega arith),
                λ t. absurd (cc),
              ),
            ),
            λ t. absurd (cc),
          ),
        ),
      )
      (refl, (refl, (refl, (refl, (refl, (refl, tt)))))) (omega arith)

one_line : grep ready (98 ∷ []) file [] ≡ 97 ∷ 98 ∷ 10 ∷ []
unfolding grep
one_line = refl
