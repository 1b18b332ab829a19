-- ===== src/Experiment/Terminos/Sorted.antt =====
-- The loops that are meant to sort the times, and what they leave in each place.
use mc.Prelude.{
  ℕ, zero, suc, ◌+◌, ◌-◌, ◌≤◌, ◌<◌, ◌≡◌, refl, sym, ap, ◌∙◌, ◌⊎◌, inl, inr, List, true, false,
  arith, if◌then◌else◌, ltb, get_or, set, length, length-set, get_or-set, Bool-cases, ◌==◌, ==_iff,
  ==_self, leb, ◌&&◌,
}
use mc.Experiment.Terminos.{exchange, sort_inner, sort_outer, sort_terminos, processes}

-- The least of `a` and the `left` entries from `k` on.
abbrev pub least_from : (left k : ℕ) → List ℕ → ℕ → ℕ
least_from zero k t a = a
least_from (suc left) k t a =
    least_from left (k + 1) t (if ltb (get_or t k 0) a then get_or t k 0 else a)

-- The exchange puts the later entry in the earlier place and leaves all else.
exchange_lem :
    (j k : ℕ) (t : List ℕ) (i : ℕ)
    → j < length t
    → k < length t
    → get_or (exchange j k t) i 0 ≡ (if j == i then get_or t k 0 else get_or t i 0)
exchange_lem j k t i hj hk =
    rw
      (
        get_or-set (set t j (get_or t k 0)) k i (get_or t k 0) 0
            (omega (arith, length-set t j (get_or t k 0))),
        get_or-set t j i (get_or t k 0) 0 hj,
      )
      (elim (Bool-cases (k == i)) [
        | inl e ↦ rw (e, ← (==_iff k i).0 e) (ground arith)
        | inr e ↦ rw e
      ])

-- One round of the inner loop.
abbrev sort_step : (j k : ℕ) → List ℕ → List ℕ
sort_step j k t = if ltb (get_or t k 0) (get_or t j 0) then exchange j k t else t

step_lem :
    (j k : ℕ) (t : List ℕ) (i : ℕ)
    → j < length t
    → k < length t
    → get_or (sort_step j k t) i 0 ≡ (
        if j == i
        then (if ltb (get_or t k 0) (get_or t j 0) then get_or t k 0 else get_or t j 0)
        else get_or t i 0)
step_lem j k t i hj hk = elim (Bool-cases (ltb (get_or t k 0) (get_or t j 0))) [
  | inl e ↦ rw e (exchange_lem j k t i hj hk)
  | inr e ↦ rw e (elim (Bool-cases (j == i)) [ inl f ↦ rw (f, (==_iff j i).0 f) | inr f ↦ rw f ])
]

length-step : (j k : ℕ) (t : List ℕ) → length (sort_step j k t) ≡ length t
length-step j k t = elim (Bool-cases (ltb (get_or t k 0) (get_or t j 0))) [
  | inl e ↦
      rw e (length-set (set t j (get_or t k 0)) k (get_or t k 0) ∙ length-set t j (get_or t k 0))
  | inr e ↦ rw e
]

least_from-congr :
    (left k : ℕ) (t t' : List ℕ) (a : ℕ)
    → ((i : ℕ) → k ≤ i → get_or t' i 0 ≡ get_or t i 0)
    → least_from left k t' a ≡ least_from left k t a
least_from-congr zero k t t' a h = refl
least_from-congr (suc left) k t t' a h =
    rw (h k (omega arith)) (least_from-congr left (k + 1) t t' _ (λ i l. h i (omega arith)))

sort_inner_lem :
    (left k j : ℕ) (t : List ℕ) (i : ℕ)
    → j < k
    → k + left ≤ length t
    → get_or (sort_inner left k j t) i 0
      ≡ (if j == i then least_from left k t (get_or t j 0) else get_or t i 0)
unfolding sort_inner
sort_inner_lem zero k j t i h l = elim (Bool-cases (j == i)) [
  | inl f ↦ rw (f, (==_iff j i).0 f)
  | inr f ↦ rw f
]
sort_inner_lem (suc left) k j t i h l =
    sort_inner_lem left (k + 1) j (sort_step j k t) i (omega arith)
      (omega (arith, length-step j k t))
    ∙ elim (Bool-cases (j == i)) [
      | inl f ↦ rw (f, at_j, least_from-congr left (k + 1) t (sort_step j k t) _ later)
      | inr f ↦ rw f (step_lem j k t i (omega arith) (omega arith) ∙ rw f)
    ]
  where
    at_j :
        get_or (sort_step j k t) j 0
        ≡ (if ltb (get_or t k 0) (get_or t j 0) then get_or t k 0 else get_or t j 0)
    at_j = step_lem j k t j (omega arith) (omega arith) ∙ rw (==_self j)

    later : (i : ℕ) → k + 1 ≤ i → get_or (sort_step j k t) i 0 ≡ get_or t i 0
    later i b =
        let e : (j == i) ≡ false = ground arith in
        step_lem j k t i (omega arith) (omega arith) ∙ rw e

pub length-sort_inner : (left k j : ℕ) (t : List ℕ) → length (sort_inner left k j t) ≡ length t
unfolding sort_inner
length-sort_inner zero k j t = refl
length-sort_inner (suc left) k j t =
    length-sort_inner left (k + 1) j (sort_step j k t) ∙ length-step j k t

-- The least of the entries from place `i` on, of `n`.
abbrev pub least_after : ℕ → ℕ → List ℕ → ℕ
least_after n i t = least_from (n - (i + 1)) (i + 1) t (get_or t i 0)

module _ (left j n : ℕ) (t : List ℕ) (sum : j + suc left ≡ n) (size : n ≡ length t) where
  abbrev first_done : List ℕ
  first_done = sort_inner left (j + 1) j t

  first_done-at : get_or first_done j 0 ≡ least_after n j t
  first_done-at =
      let e : n - (j + 1) ≡ left = omega arith in
      sort_inner_lem left (j + 1) j t j (omega arith) (omega arith) ∙ rw (==_self j, e)

  first_done-ne : (i : ℕ) → (j == i) ≡ false → get_or first_done i 0 ≡ get_or t i 0
  first_done-ne i e = sort_inner_lem left (j + 1) j t i (omega arith) (omega arith) ∙ rw e

  least_after-first_done : (i : ℕ) → j < i → least_after n i first_done ≡ least_after n i t
  least_after-first_done i h =
      least_from-congr (n - (i + 1)) (i + 1) t first_done _ (λ k l. first_done-ne k (ground arith))
      ∙ ap (λ a. least_from (n - (i + 1)) (i + 1) t a) (first_done-ne i (ground arith))

sort_outer_lem :
    (left j n : ℕ) (t : List ℕ) (i : ℕ)
    → j + left ≡ n
    → n ≡ length t
    → get_or (sort_outer left j t) i 0
      ≡ (if leb j i && ltb i n then least_after n i t else get_or t i 0)
unfolding sort_outer
sort_outer_lem zero j n t i s l = let e : (leb j i && ltb i n) ≡ false = ground arith in rw e
sort_outer_lem (suc left) j n t i s l =
    sort_outer_lem left (j + 1) n (first_done left j n t s l) i (omega arith)
      (l ∙ sym (length-sort_inner left (j + 1) j t))
    ∙ place (Bool-cases (j == i)) (Bool-cases (leb (j + 1) i && ltb i n))
  where
    place :
        ((j == i) ≡ true) ⊎ ((j == i) ≡ false)
        → ((leb (j + 1) i && ltb i n) ≡ true) ⊎ ((leb (j + 1) i && ltb i n) ≡ false)
        → (if leb (j + 1) i && ltb i n
            then least_after n i (first_done left j n t s l)
            else get_or (first_done left j n t s l) i 0)
          ≡ (if leb j i && ltb i n then least_after n i t else get_or t i 0)
    place (inl e) q =
        let f : (leb (j + 1) i && ltb i n) ≡ false = ground arith in
        let g : (leb j i && ltb i n) ≡ true = ground arith in
        rw (f, g, ← (==_iff j i).0 e) (first_done-at left j n t s l)
    place (inr e) (inl f) =
        let g : (leb j i && ltb i n) ≡ true = ground arith in
        rw (f, g) (least_after-first_done left j n t s l i (ground arith))
    place (inr e) (inr f) =
        let g : (leb j i && ltb i n) ≡ false = ground arith in
        rw (f, g) (first_done-ne left j n t s l i e)

-- The loops over the 20 times leave in each place the least of the times from that place on.
pub sort_terminos_lem :
    (t : List ℕ) (i : ℕ)
    → length t ≡ processes
    → i < processes
    → get_or (sort_terminos t) i 0 ≡ least_after processes i t
unfolding sort_terminos
sort_terminos_lem t i l h =
    let e : (leb 0 i && ltb i processes) ≡ true = ground arith in
    sort_outer_lem processes 0 processes t i refl (sym l) ∙ rw e

least_from-le : (left k : ℕ) (t : List ℕ) (a : ℕ) → least_from left k t a ≤ a
least_from-le zero k t a = omega arith
least_from-le (suc left) k t a =
    ground (arith, least_from-le left (k + 1) t (if ltb (get_or t k 0) a then get_or t k 0 else a))

least_from-le_entry :
    (left k : ℕ) (t : List ℕ) (a i : ℕ)
    → k ≤ i
    → i < k + left
    → least_from left k t a ≤ get_or t i 0
least_from-le_entry zero k t a i h l = absurd (omega arith)
least_from-le_entry (suc left) k t a i h l = elim (Bool-cases (k == i)) [
  | inl e ↦ rw (← (==_iff k i).0 e) (ground (arith, least_from-le left (k + 1) t (next_least a)))
  | inr e ↦ least_from-le_entry left (k + 1) t (next_least a) i (ground arith) (omega arith)
]
  where
    next_least : ℕ → ℕ
    next_least b = if ltb (get_or t k 0) b then get_or t k 0 else b

le-least_from :
    (left k : ℕ) (t : List ℕ) (a b : ℕ)
    → b ≤ a
    → ((i : ℕ) → k ≤ i → i < k + left → b ≤ get_or t i 0)
    → b ≤ least_from left k t a
le-least_from zero k t a b h f = h
le-least_from (suc left) k t a b h f =
    le-least_from left (k + 1) t _ b (ground (arith, f k (omega arith) (omega arith)))
      (λ i l u. f i (omega arith) (omega arith))

least_after-le : (n i j : ℕ) (t : List ℕ) → i ≤ j → j < n → least_after n i t ≤ get_or t j 0
least_after-le n i j t h l = elim (Bool-cases (i == j)) [
  | inl e ↦ rw (← (==_iff i j).0 e) (least_from-le (n - (i + 1)) (i + 1) t (get_or t i 0))
  | inr e ↦
      least_from-le_entry (n - (i + 1)) (i + 1) t (get_or t i 0) j (ground arith) (omega arith)
]

-- The 20 times come out in order, and none has grown.
pub sort_terminos-IsSorted :
    (t : List ℕ) (i j : ℕ)
    → length t ≡ processes
    → i ≤ j
    → j < processes
    → (get_or (sort_terminos t) i 0 ≤ get_or (sort_terminos t) j 0)
      × (get_or (sort_terminos t) i 0 ≤ get_or t j 0)
sort_terminos-IsSorted t i j l h u =
    rw (sort_terminos_lem t i l (omega arith), sort_terminos_lem t j l u)
      (
        le-least_from (processes - (j + 1)) (j + 1) t (get_or t j 0) (least_after processes i t)
            (least_after-le processes i j t h u)
            (λ k a b. least_after-le processes i k t (omega arith) (omega arith)),
        least_after-le processes i j t h u,
      )
