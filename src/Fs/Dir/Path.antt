-- ===== src/Fs/Dir/Path.antt =====
-- skipelem against the elements of a path.
use mc.Prelude.{
  ℕ, zero, suc, ◌≤◌, ◌<◌, List, [], ◌∷◌, ◌++◌, false, none, some, if◌then◌else◌, ◌==◌, ◌≡◌, refl,
  sym, ap, ap₂, ◌∙◌, ◌⊎◌, inl, inr, Bool-cases, arith, length, take, map, subst,
}
use mathlib.Core.List.{append-nil, append_assoc}
use mc.Fs.Dir.{dirsiz, skip_slashes, split_element, after_slashes, skipelem}

-- The elements that the loop of namex takes off a path, with fuel.
abbrev pub walk_path : (fuel : ℕ) → List ℕ → List (List ℕ)
walk_path zero path = []
walk_path (suc fuel) path = elim (skipelem path) [ none ↦ [] | some r ↦ r.0 ∷ walk_path fuel r.1 ]

-- The pieces of a path between slashes that are not empty; `e` is what is read of the first one.
abbrev pub elements : (e path : List ℕ) → List (List ℕ)
elements [] [] = []
elements (x ∷ e) [] = (x ∷ e) ∷ []
elements [] (c ∷ path) =
    let next = elements [] path in
    let more = elements (c ∷ []) path in if c == b'/' then next else more
elements (x ∷ e) (c ∷ path) =
    let next = elements [] path in
    let more = elements (x ∷ (e ++ (c ∷ []))) path in if c == b'/' then (x ∷ e) ∷ next else more

skip_slashes-elements : (path : List ℕ) → elements [] (skip_slashes path) ≡ elements [] path
skip_slashes-elements [] = refl
skip_slashes-elements (c ∷ path) = elim (Bool-cases (c == b'/')) [
  | inl y ↦ rw (y) (skip_slashes-elements path)
  | inr n ↦ rw (skip_slashes, n, elements, n)
]

-- An element that is begun goes up to the next slash.
split_element-elements :
    (x : ℕ) (e path : List ℕ)
    → elements (x ∷ e) path
      ≡ (x ∷ (e ++ (split_element path).0)) ∷ elements [] (split_element path).1
unfolding split_element
split_element-elements x e [] = ap (λ r. (x ∷ r) ∷ []) (sym (append-nil e))
split_element-elements x e (c ∷ path) = elim (Bool-cases (c == b'/')) [
  | inl y ↦ rw (y, split_element) (ap₂ (λ r t. (x ∷ r) ∷ t) (sym (append-nil e)) (rw (y)))
  | inr n ↦
      rw (n, split_element, split_element-elements x (e ++ (c ∷ [])) path)
        (ap (λ r. (x ∷ r) ∷ elements [] (split_element path).1)
          (append_assoc e (c ∷ []) (split_element path).0))
]

length-split_element : (path : List ℕ) → length (split_element path).1 ≤ length path
unfolding split_element
length-split_element [] = omega arith
length-split_element (c ∷ path) = elim (Bool-cases (c == b'/')) [
  | inl y ↦ rw (split_element, y) (omega arith)
  | inr n ↦ rw (split_element, n) (omega (arith, length-split_element path))
]

length-skip_slashes : (path : List ℕ) → length (skip_slashes path) ≤ length path
length-skip_slashes [] = omega arith
length-skip_slashes (c ∷ path) = elim (Bool-cases (c == b'/')) [
  | inl y ↦ rw (y) (omega (arith, length-skip_slashes path))
  | inr n ↦ rw (n) (omega arith)
]

-- What is behind the slashes is nothing, or starts with another byte.
skip_slashes-cases :
    (path : List ℕ)
    → (skip_slashes path ≡ [])
      ⊎ ((c : ℕ) × (rest : List ℕ) × (skip_slashes path ≡ c ∷ rest) × ((c == b'/') ≡ false))
skip_slashes-cases [] = inl refl
skip_slashes-cases (c ∷ path) = elim (Bool-cases (c == b'/')) [
  | inl y ↦ rw (y) (skip_slashes-cases path)
  | inr n ↦ rw (n) (inr (c, path, refl, n))
]

skipelem-after_slashes : (path p : List ℕ) → skip_slashes path ≡ p → skipelem path ≡ after_slashes p
unfolding skipelem
skipelem-after_slashes path p e = ap after_slashes e

walk_path-elements :
    (fuel : ℕ) (path : List ℕ)
    → length path < fuel
    → walk_path fuel path ≡ map (take dirsiz) (elements [] path)
unfolding after_slashes split_element
walk_path-elements zero path l = absurd (omega arith)
walk_path-elements (suc fuel) path l = elim (skip_slashes-cases path) [
  | inl e ↦
      let none_left : elements [] path ≡ [] =
        sym (skip_slashes-elements path) ∙ ap (elements []) e in
      rw (walk_path, skipelem-after_slashes path [] e, none_left)
  | inr (c, rest, e, n) ↦
      let first : split_element (c ∷ rest) ≡ (c ∷ (split_element rest).0, (split_element rest).1) =
        rw (split_element, n) in
      let all : elements [] path
          ≡ (c ∷ (split_element rest).0) ∷ elements [] (split_element rest).1 =
        sym (skip_slashes-elements path)
        ∙ ap (elements []) e
        ∙ rw (elements, n) (split_element-elements c [] rest) in
      let size : length (c ∷ rest) ≤ length path =
        subst (λ p. length p ≤ length path) e (length-skip_slashes path) in
      let less : length (skip_slashes (split_element rest).1) < fuel =
        omega
          (arith, length-skip_slashes (split_element rest).1, length-split_element rest, size) in
      rw (
        walk_path,
        skipelem-after_slashes path (c ∷ rest) e,
        after_slashes,
        first,
        all,
        walk_path-elements fuel (skip_slashes (split_element rest).1) less,
        skip_slashes-elements (split_element rest).1,
      )
]

-- The elements that namex takes off a path are its pieces between slashes that are not empty, in order,
-- each cut to 14 bytes.
pub skipelem_lem :
    (path : List ℕ) → walk_path (suc (length path)) path ≡ map (take dirsiz) (elements [] path)
skipelem_lem path = walk_path-elements (suc (length path)) path (omega arith)
