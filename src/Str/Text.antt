-- ===== src/Str/Text.antt =====
-- The string functions against the text that a buffer holds: its bytes before the first 0.
use mc.Prelude.{
  ℕ, zero, suc, ◌-◌, ◌≤◌, ◌<◌, ◌≡◌, refl, ◌↔◌, List, [], ◌∷◌, arith, if◌then◌else◌, ◌==◌, length,
  take, All,
}
use mc.Str.{byte, rest, write, strlen, strncmp, safestrcpy, memcmp}

abbrev pub text : List ℕ → List ℕ
text [] = []
text (c ∷ s) = if c == 0 then [] else c ∷ text s

abbrev pub IsBytes : List ℕ → Type 0
IsBytes s = All (λ c. c < 256) s

-- strlen is the length of the text.
pub strlen-text : (s : List ℕ) → strlen s ≡ length (text s)
unfolding strlen
strlen-text [] = refl
strlen-text (c ∷ s) = ground (arith, strlen-text s)

text-write : (s : List ℕ) → text (write s 0) ≡ []
text-write [] = refl
text-write (x ∷ s) = refl

-- safestrcpy into a buffer of at least `n` bytes, with `0 < n`, leaves in it the first `n - 1` bytes
-- of the text, with a 0 behind them.
pub text-safestrcpy :
    (n : ℕ) (s t : List ℕ) → 0 < n → n ≤ length s → text (safestrcpy n s t) ≡ take (n - 1) (text t)
unfolding safestrcpy
text-safestrcpy zero s t h l = absurd (omega arith)
text-safestrcpy (suc zero) s t h l = text-write s
text-safestrcpy (suc (suc n)) [] t h l = absurd (omega arith)
text-safestrcpy (suc (suc n)) (x ∷ s) [] h l = let e : suc (suc n) - 1 ≡ suc n = omega arith in rw e
text-safestrcpy (suc (suc n)) (x ∷ s) (c ∷ t) h l =
    ground (arith, text-write s, text-safestrcpy (suc n) s t)

-- safestrcpy writes inside the buffer: its length stays.
pub length-safestrcpy : (n : ℕ) (s t : List ℕ) → length (safestrcpy n s t) ≡ length s
unfolding safestrcpy
length-safestrcpy zero s t = refl
length-safestrcpy (suc zero) [] t = refl
length-safestrcpy (suc zero) (x ∷ s) t = refl
length-safestrcpy (suc (suc n)) [] t = refl
length-safestrcpy (suc (suc n)) (x ∷ []) t = ground (arith, length-safestrcpy (suc n) [] (rest t))
length-safestrcpy (suc (suc n)) (x ∷ y ∷ s) t =
    ground (arith, length-safestrcpy (suc n) (y ∷ s) (rest t))

IsBytes-rest : (s : List ℕ) → IsBytes s → IsBytes (rest s)
IsBytes-rest [] h = tt
IsBytes-rest (c ∷ s) h = h.1

byte-lt : (s : List ℕ) → IsBytes s → byte s < 256
byte-lt [] h = omega arith
byte-lt (c ∷ s) h = h.0

take-text :
    (n : ℕ) (s : List ℕ)
    → take (suc n) (text s) ≡ (if byte s == 0 then [] else byte s ∷ take n (text (rest s)))
take-text n [] = refl
take-text n (c ∷ s) = ground arith

-- strncmp of two strings of bytes is 0 exactly when their texts agree on the first `n` bytes.
pub strncmp-eq_zero_iff :
    (n : ℕ) (p q : List ℕ)
    → IsBytes p
    → IsBytes q
    → (strncmp n p q ≡ 0) ↔ (take n (text p) ≡ take n (text q))
unfolding strncmp
strncmp-eq_zero_iff zero p q hp hq = (λ _. refl, λ _. refl)
strncmp-eq_zero_iff (suc n) p q hp hq =
    let ih = strncmp-eq_zero_iff n (rest p) (rest q) (IsBytes-rest p hp) (IsBytes-rest q hq) in
    rw (take-text n p, take-text n q) (ground (arith, ih, byte-lt p hp, byte-lt q hq))

-- memcmp of two regions of bytes is 0 exactly when they agree on the first `n` bytes.
pub memcmp-eq_zero_iff :
    (n : ℕ) (p q : List ℕ)
    → IsBytes p
    → IsBytes q
    → n ≤ length p
    → n ≤ length q
    → (memcmp n p q ≡ 0) ↔ (take n p ≡ take n q)
unfolding memcmp
memcmp-eq_zero_iff zero p q hp hq lp lq = (λ _. refl, λ _. refl)
memcmp-eq_zero_iff (suc n) [] q hp hq lp lq = absurd (omega arith)
memcmp-eq_zero_iff (suc n) (x ∷ p) [] hp hq lp lq = absurd (omega arith)
memcmp-eq_zero_iff (suc n) (x ∷ p) (y ∷ q) hp hq lp lq =
    ground (arith, memcmp-eq_zero_iff n p q hp.1 hq.1 (omega arith) (omega arith), hp.0, hq.0)
