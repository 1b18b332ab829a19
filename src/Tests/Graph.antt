-- ===== src/Tests/Graph.antt =====
-- The search in a graph of two vertices, each with an edge to the other.
use mc.Prelude.{ℕ, zero, suc, ◌≤◌, ◌<◌, ◌≡◌, refl, Option, none, some, arith, get_or, replicate}
use mc.Experiment.Graph.{Search, max_vert, tam, start, search, turn, visit_from, visit}
use mc.Experiment.Graph.Queue.{search_lem}

abbrev both : ℕ → ℕ → ℕ
both zero (suc zero) = 1
both (suc zero) zero = 1
both i j = 0

abbrev begun : Search
begun = start 0 (replicate tam 0)

search_lem_example :
    (s : Search) × (search both 202 2 begun ≡ some s) × ((s.dir < s.esq) × (s.dir ≤ max_vert))
search_lem_example = search_lem both 2 0 (replicate tam 0) (omega arith)

abbrev distance : Option Search → ℕ → ℕ
distance none i = 0
distance (some s) i = get_or s.distancia i 0

-- The start is not marked, so an edge back to it overwrites its distance.
distance_of_start : distance (search both 5 2 begun) 0 ≡ 2
unfolding search start turn visit_from visit
distance_of_start = refl
