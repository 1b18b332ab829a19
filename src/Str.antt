-- ===== src/Str.antt =====
-- kernel/string.c. A string is the list of its bytes with the 0 that ends it; where the C code would
-- read past the end of a list, the model reads 0. A buffer keeps its length: a write past its end
-- is dropped. `memmove` works on a memory, a function from addresses to bytes.
pub mod Text
pub mod Move
use mc.Prelude.{
  ℕ, zero, suc, ◌+◌, ◌-◌, ◌<◌, List, [], ◌∷◌, Bool, true, false, not, ◌&&◌, if◌then◌else◌, ◌==◌,
  ltb, sub32, update,
}

-- `*s` and `s + 1`
abbrev pub byte : List ℕ → ℕ
byte [] = 0
byte (c ∷ s) = c

abbrev pub rest : List ℕ → List ℕ
rest [] = []
rest (c ∷ s) = s

-- `*s = c`
abbrev pub write : List ℕ → ℕ → List ℕ
write [] c = []
write (x ∷ s) c = c ∷ s

unfoldable pub strlen : List ℕ → ℕ
strlen [] = 0
strlen (c ∷ s) = if c == 0 then 0 else suc (strlen s)

-- The bytes are unsigned; the result is an `int`.
unfoldable pub strncmp : ℕ → List ℕ → List ℕ → ℕ
strncmp zero p q = 0
strncmp (suc n) p q =
    let next = strncmp n (rest p) (rest q) in
    if not (byte p == 0) && (byte p == byte q) then next else sub32 (byte p) (byte q)

unfoldable pub memcmp : ℕ → List ℕ → List ℕ → ℕ
memcmp zero s1 s2 = 0
memcmp (suc n) s1 s2 =
    let next = memcmp n (rest s1) (rest s2) in
    if byte s1 == byte s2 then next else sub32 (byte s1) (byte s2)

-- memset: the first `n` bytes of the buffer
unfoldable pub memset : ℕ → ℕ → List ℕ → List ℕ
memset zero c dst = dst
memset (suc n) c [] = []
memset (suc n) c (x ∷ dst) = c ∷ memset n c dst

-- strncpy: once the 0 is copied, the rest of the `n` bytes is filled with 0.
unfoldable pub strncpy : ℕ → List ℕ → List ℕ → List ℕ
unfolding memset
strncpy zero s t = s
strncpy (suc n) [] t = []
strncpy (suc n) (x ∷ s) t = byte t ∷ (if byte t == 0 then memset n 0 s else strncpy n s (rest t))

-- safestrcpy: at most `n - 1` bytes, then a 0.
unfoldable pub safestrcpy : ℕ → List ℕ → List ℕ → List ℕ
safestrcpy zero s t = s
safestrcpy (suc zero) s t = write s 0
safestrcpy (suc (suc n)) [] t = []
safestrcpy (suc (suc n)) (x ∷ s) t =
    byte t ∷ (if byte t == 0 then write s 0 else safestrcpy (suc n) s (rest t))

-- memmove, from the low end up and from the high end down
unfoldable pub copy_up : ℕ → ℕ → ℕ → (ℕ → ℕ) → ℕ → ℕ
copy_up zero d s m = m
copy_up (suc n) d s m = copy_up n (d + 1) (s + 1) (update m d (m s))

unfoldable pub copy_down : ℕ → ℕ → ℕ → (ℕ → ℕ) → ℕ → ℕ
copy_down zero d s m = m
copy_down (suc n) d s m = copy_down n d s (update m (d + n) (m (s + n)))

unfoldable pub memmove : ℕ → ℕ → ℕ → (ℕ → ℕ) → ℕ → ℕ
unfolding copy_up copy_down
memmove n d s m =
    if n == 0 then m else if ltb s d && ltb d (s + n) then copy_down n d s m else copy_up n d s m
