-- ===== src/Str/Move.antt =====
-- memmove of kernel/string.c against a copy through a buffer of its own.
use mc.Prelude.{
  ℕ, zero, suc, ◌+◌, ◌-◌, ◌≤◌, ◌<◌, ◌≡◌, ◌⊎◌, arith, if◌then◌else◌, ltb, leb, ◌&&◌, update,
}
use mc.Str.{copy_up, copy_down, memmove}

-- What stands at `a` once the `n` bytes from `s` are at `d`.
abbrev pub moved : ℕ → ℕ → ℕ → (ℕ → ℕ) → ℕ → ℕ
moved n d s m a = if leb d a && ltb a (d + n) then m (s + (a - d)) else m a

copy_up-moved :
    (n d s : ℕ) (m : ℕ → ℕ) (a : ℕ) → (d ≤ s) ⊎ (s + n ≤ d) → copy_up n d s m a ≡ moved n d s m a
unfolding copy_up
copy_up-moved zero d s m a h = ground arith
copy_up-moved (suc n) d s m a h =
    ground (arith, copy_up-moved n (d + 1) (s + 1) (update m d (m s)) a)

copy_down-moved : (n d s : ℕ) (m : ℕ → ℕ) (a : ℕ) → s < d → copy_down n d s m a ≡ moved n d s m a
unfolding copy_down
copy_down-moved zero d s m a h = ground arith
copy_down-moved (suc n) d s m a h =
    ground (arith, copy_down-moved n d s (update m (d + n) (m (s + n))) a)

-- After memmove the `n` bytes at `d` are those that stood at `s` before, and every other byte is as
-- it was, also where the two regions overlap.
pub memmove_lem : (n d s : ℕ) (m : ℕ → ℕ) (a : ℕ) → memmove n d s m a ≡ moved n d s m a
unfolding memmove
memmove_lem n d s m a = ground (arith, copy_up-moved n d s m a, copy_down-moved n d s m a)
