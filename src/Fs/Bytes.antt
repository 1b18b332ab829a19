-- ===== src/Fs/Bytes.antt =====
-- Numbers in the bytes of a block.
use mc.Prelude.{
  ℕ, zero, suc, ◌+◌, ◌*◌, ◌/◌, ◌%◌, ◌^◌, ◌≤◌, ◌<◌, ◌≡◌, refl, ap₂, ◌∙◌, ◌⊎◌, inl, false, ◌==◌,
  arith, update, ==_self,
}
use mc.Fs.{get_le, put_le}

pub put_le-other :
    (w off v : ℕ) (f : ℕ → ℕ) (j : ℕ) → (j < off) ⊎ (off + w ≤ j) → put_le w off v f j ≡ f j
unfolding put_le
put_le-other zero off v f j h = refl
put_le-other (suc w) off v f j h =
    let n : (off == j) ≡ false = ground (arith, h) in
    let h' : (j < off + 1) ⊎ (off + 1 + w ≤ j) = ground (arith, h) in
    put_le-other w (off + 1) (v / 256) (update f off (v % 256)) j h' ∙ rw (n)

pub get_le-same :
    (w off : ℕ) (f g : ℕ → ℕ)
    → ((j : ℕ) → off ≤ j → j < off + w → f j ≡ g j)
    → get_le w off f ≡ get_le w off g
unfolding get_le
get_le-same zero off f g h = refl
get_le-same (suc w) off f g h =
    ap₂ (λ a b. a + 256 * b) (h off (omega arith) (omega arith))
      (get_le-same w (off + 1) f g (λ j l u. h j (omega arith) (omega arith)))

pub get_le-put_le : (w off v : ℕ) (f : ℕ → ℕ) → v < 256 ^ w → get_le w off (put_le w off v f) ≡ v
unfolding get_le put_le
get_le-put_le zero off v f h = omega arith
get_le-put_le (suc w) off v f h =
    let below : put_le w (off + 1) (v / 256) (update f off (v % 256)) off ≡ v % 256 =
      put_le-other w (off + 1) (v / 256) (update f off (v % 256)) off (inl (omega arith))
      ∙ rw (==_self off) in
    let s : 256 ^ suc w ≡ 256 * 256 ^ w = omega arith in
    let less : v / 256 < 256 ^ w = omega arith in
    let later = get_le-put_le w (off + 1) (v / 256) (update f off (v % 256)) less in
    ap₂ (λ a b. a + 256 * b) below later ∙ omega arith

pub get_le-put_le_other :
    (w off w' off' v : ℕ) (f : ℕ → ℕ)
    → (off + w ≤ off') ⊎ (off' + w' ≤ off)
    → get_le w off (put_le w' off' v f) ≡ get_le w off f
get_le-put_le_other w off w' off' v f h =
    get_le-same w off (put_le w' off' v f) f
      (λ j l u. put_le-other w' off' v f j (ground (arith, h, l, u)))
