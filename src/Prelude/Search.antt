-- ===== src/Prelude/Search.antt =====
-- The `for` loops over a table that stop at the first entry which passes a test.
use Prim.Native.Nat.{ℕ, zero, suc}
use mathlib.Core.Path.{◌≡◌, refl}
use mathlib.Core.Logic.{inl, inr}
use mathlib.Core.Bool.{Bool, true, false, cond}
use mathlib.Core.List.{List, [], ◌∷◌}
use mathlib.Core.Option
use mathlib.Core.Option.{Option, none, some}
use native.Mathlib.Omega.{arith}
use mc.Prelude.Tests.{Bool-cases}
use mc.Prelude.Lists.{get_elem?, set, get_elem?-set_self, get_elem?-lt, All}

module _ {ℓ} {A : Type ℓ} (test : A → Bool) where
  abbrev pub find_index : List A → Option ℕ
  find_index [] = none
  find_index (x ∷ xs) = cond (test x) (some 0) (Option.map suc (find_index xs))

  -- No item before place `i` passes the test.
  abbrev pub NoneBefore : List A → ℕ → Type 0
  NoneBefore [] i = Unit
  NoneBefore (x ∷ xs) zero = Unit
  NoneBefore (x ∷ xs) (suc i) = (test x ≡ false) × NoneBefore xs i

  abbrev pub NonePasses : List A → Type 0
  NonePasses [] = Unit
  NonePasses (x ∷ xs) = (test x ≡ false) × NonePasses xs

module _ {ℓ} {A : Type ℓ} (test : A → Bool) where
  -- Place `i` is the first to pass.
  pub record IsFirst (xs : List A) (i : ℕ) : Type ℓ where
    pub item : A
    pub here : get_elem? xs i ≡ some item
    pub passes : test item ≡ true
    pub before : NoneBefore test xs i

  found_later :
      (x : A) (xs : List A) (o : Option ℕ)
      → ((k : ℕ) → o ≡ some k → IsFirst xs k)
      → test x ≡ false
      → (i : ℕ) → Option.map suc o ≡ some i
      → IsFirst (x ∷ xs) i
  found_later x xs none rec e i h = absurd (cc)
  found_later x xs (some k) rec e zero h = absurd (ground arith)
  found_later x xs (some k) rec e (suc i) h =
      let f = rec i (ground arith) in
      record { item = f.item; here = f.here; passes = f.passes; before = (e, f.before) }

  pub find_index-some : (xs : List A) (i : ℕ) → find_index test xs ≡ some i → IsFirst xs i
  find_index-some [] i h = absurd (cc)
  find_index-some (x ∷ xs) i h = elim (Bool-cases (test x)) [
    | inl e ↦ found i (rw e at h) e
    | inr e ↦ found_later x xs (find_index test xs) (find_index-some xs) e i (rw e at h)
  ]
    where
      found : (i : ℕ) → some 0 ≡ some i → test x ≡ true → IsFirst (x ∷ xs) i
      found zero h e = record { item = x; here = refl; passes = e; before = tt }
      found (suc i) h e = absurd (ground arith)

  pub find_index-none : (xs : List A) → find_index test xs ≡ none → NonePasses test xs
  find_index-none [] h = tt
  find_index-none (x ∷ xs) h = elim (Bool-cases (test x)) [
    | inl e ↦ absurd (ground arith)
    | inr e ↦ (e, find_index-none xs (ground arith))
  ]

  pub NonePasses-get :
      (xs : List A) (i : ℕ) (a : A) → NonePasses test xs → get_elem? xs i ≡ some a → test a ≡ false
  NonePasses-get [] i a n h = cc
  NonePasses-get (x ∷ xs) zero a n h = ground arith
  NonePasses-get (x ∷ xs) (suc i) a n h = NonePasses-get xs i a n.1 h

  pub NonePasses-find_index : (xs : List A) → NonePasses test xs → find_index test xs ≡ none
  NonePasses-find_index [] n = refl
  NonePasses-find_index (x ∷ xs) n = rw (n.0, NonePasses-find_index xs n.1) refl

  pub IsFirst-find_index :
      (xs : List A) (i : ℕ) (a : A)
      → get_elem? xs i ≡ some a
      → test a ≡ true
      → NoneBefore test xs i
      → find_index test xs ≡ some i
  IsFirst-find_index [] i a h p n = absurd (cc)
  IsFirst-find_index (x ∷ xs) zero a h p n = let e : test x ≡ true = ground arith in rw e
  IsFirst-find_index (x ∷ xs) (suc i) a h p n = rw (n.0, IsFirst-find_index xs i a h p n.1)

  before-set : (xs : List A) (i : ℕ) (v : A) → NoneBefore test xs i → NoneBefore test (set xs i v) i
  before-set [] i v n = tt
  before-set (x ∷ xs) zero v n = tt
  before-set (x ∷ xs) (suc i) v n = (n.0, before-set xs i v n.1)

  pub find_index-set :
      (xs : List A) (i : ℕ) (v : A)
      → find_index test xs ≡ some i
      → test v ≡ true
      → find_index test (set xs i v) ≡ some i
  find_index-set xs i v h p =
      let f = find_index-some xs i h in
      IsFirst-find_index (set xs i v) i v
        (get_elem?-set_self xs i v (get_elem?-lt xs i f.item f.here)) p (before-set xs i v f.before)

-- Two tests that agree on a list find the same place.
pub find_index-congr {ℓ} :
    {A : Type ℓ} (test test' : A → Bool) (xs : List A)
    → All (λ a. test a ≡ test' a) xs
    → find_index test xs ≡ find_index test' xs
find_index-congr test test' [] h = refl
find_index-congr test test' (x ∷ xs) h = rw (h.0, find_index-congr test test' xs h.1)
