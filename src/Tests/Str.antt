-- ===== src/Tests/Str.antt =====
-- kernel/string.c on concrete texts.
use mc.Prelude.{ℕ, ◌≡◌, refl, List, [], ◌∷◌}
use mc.Str.{memmove, strlen}
use mc.Str.Move.{moved, memmove_lem}

-- bytes 10, 11, 12, … at 10, 11, 12, …
abbrev identity : ℕ → ℕ
identity a = a

memmove_lem_example : memmove 4 12 10 identity 13 ≡ moved 4 12 10 identity 13
memmove_lem_example = memmove_lem 4 12 10 identity 13

memmove_overlap : memmove 4 12 10 identity 15 ≡ 13
unfolding memmove
memmove_overlap = refl

abbrev sh : List ℕ
sh = b's' ∷ b'h' ∷ 0 ∷ []

abbrev init : List ℕ
init = b'i' ∷ b'n' ∷ b'i' ∷ b't' ∷ 0 ∷ []

strlen-init : strlen init ≡ 4
unfolding strlen
strlen-init = refl
