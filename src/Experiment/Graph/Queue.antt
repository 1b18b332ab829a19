-- ===== src/Experiment/Graph/Queue.antt =====
-- The queue of the search in user/graphs.c, and its turns.
use mc.Prelude.{
  ℕ, zero, suc, ◌+◌, ◌≤◌, ◌<◌, ◌≡◌, refl, sym, ◌∙◌, inl, inr, List, [], ◌∷◌, true, not, ◌&&◌, some,
  arith, if◌then◌else◌, ◌==◌, leb, get_or, set, replicate, length, length-set, length-replicate,
  Bool-cases,
}
use mc.Experiment.Graph.{Search, max_vert, start, visit, visit_from, turn, search}

-- How many entries are not 0.
abbrev marks : List ℕ → ℕ
marks [] = 0
marks (x ∷ xs) = if x == 0 then marks xs else suc (marks xs)

marks_le : (xs : List ℕ) → marks xs ≤ length xs
marks_le [] = omega arith
marks_le (x ∷ xs) = ground (arith, marks_le xs)

marks-replicate : (n : ℕ) → marks (replicate n 0) ≡ 0
marks-replicate zero = refl
marks-replicate (suc n) = marks-replicate n

marks-set :
    (xs : List ℕ) (j : ℕ)
    → (get_or xs j 0 == 0) ≡ true
    → j < length xs
    → marks (set xs j 1) ≡ suc (marks xs)
marks-set [] j z l = absurd (omega arith)
marks-set (x ∷ xs) zero z l = rw z
marks-set (x ∷ xs) (suc j) z l = let ih = marks-set xs j z (omega arith) in ground (arith, ih)

-- Each vertex in the queue but the first has been marked, once.
record IsQueue (s : Search) : Type 0 where
  size : length s.visitado ≡ max_vert
  marked : s.dir ≡ marks s.visitado
  order : s.esq ≤ s.dir + 1

dir_le : (s : Search) → IsQueue s → s.dir ≤ max_vert
dir_le s q = omega (arith, marks_le s.visitado, q.size, q.marked)

module _ (matrix : ℕ → ℕ → ℕ) where
  -- One vertex: the queue stays one, and its left end where it is.
  record Kept (s s' : Search) : Type 0 where
    queue : IsQueue s'
    left_end : s'.esq ≡ s.esq
    grows : s.dir ≤ s'.dir

  visit-Kept :
      (atual j : ℕ) (s : Search) → j < max_vert → IsQueue s → Kept s (visit matrix atual j s)
  unfolding visit
  visit-Kept atual j s l q =
      elim (Bool-cases (not (matrix atual j == 0) && get_or s.visitado j 0 == 0)) [
        | inl e ↦
            let z : (get_or s.visitado j 0 == 0) ≡ true = ground (arith, e) in
            rw e (record {
              queue = record {
                size = length-set s.visitado j 1 ∙ q.size;
                marked = omega (arith, q.marked, marks-set s.visitado j z (omega (arith, q.size)));
                order = omega (arith, q.order);
              };
              left_end = refl;
              grows = omega arith;
            })
        | inr e ↦ rw e (record { queue = q; left_end = refl; grows = omega arith })
      ]

  visit_from-Kept :
      (left atual j : ℕ) (s : Search)
      → j + left ≤ max_vert
      → IsQueue s
      → Kept s (visit_from matrix left atual j s)
  unfolding visit_from
  visit_from-Kept zero atual j s l q = record { queue = q; left_end = refl; grows = omega arith }
  visit_from-Kept (suc left) atual j s l q =
      let k = visit-Kept atual j s (omega arith) q in
      let k' = visit_from-Kept left atual (j + 1) (visit matrix atual j s) (omega arith) k.queue in
      record {
        queue = k'.queue;
        left_end = k'.left_end ∙ k.left_end;
        grows = omega (arith, k.grows, k'.grows);
      }

  turn-IsQueue :
      (n : ℕ) (s : Search)
      → n ≤ max_vert
      → s.esq ≤ s.dir
      → IsQueue s
      → IsQueue (turn matrix n s) × ((turn matrix n s).esq ≡ s.esq + 1)
  unfolding turn
  turn-IsQueue n s b l q =
      let k = visit_from-Kept n (get_or s.fila s.esq 0) 0 s (omega arith) q in
      let r = k.queue in
      (
        record { size = r.size; marked = r.marked; order = omega (arith, k.left_end, k.grows) },
        omega (arith, k.left_end),
      )

  search_ends :
      (fuel n : ℕ) (s : Search)
      → n ≤ max_vert
      → max_vert + 1 < s.esq + fuel
      → IsQueue s
      → (s' : Search) × (search matrix fuel n s ≡ some s')
        × ((s'.dir < s'.esq) × (s'.dir ≤ max_vert))
  unfolding search
  search_ends zero n s b f q = absurd (omega (arith, dir_le s q, q.order))
  search_ends (suc fuel) n s b f q = elim (Bool-cases (leb s.esq s.dir)) [
    | inl e ↦
        let (q', m) = turn-IsQueue n s b (ground (arith, e)) q in
        let (s', e', o) = search_ends fuel n (turn matrix n s) b (omega (arith, m)) q' in
        (s', rw (search, e) e', o)
    | inr e ↦ (s, rw (search, e), (ground (arith, e), dir_le s q))
  ]

  -- In a graph of at most 200 vertices the search ends, after at most 201 turns of its outer loop. Then the
  -- queue is empty, and its right end is at most 200, within its array of 400.
  pub search_lem :
      (n u : ℕ) (fila : List ℕ)
      → n ≤ max_vert
      → (s : Search) × (search matrix 202 n (start u fila) ≡ some s)
        × ((s.dir < s.esq) × (s.dir ≤ max_vert))
  unfolding start
  search_lem n u fila b = search_ends 202 n (start u fila) b (omega arith) (record {
    size = length-replicate {A = ℕ} max_vert 0;
    marked = sym (marks-replicate max_vert);
    order = omega arith;
  })
