-- ===== src/Experiment/Graph.antt =====
-- user/graphs.c: the search for the shortest paths in a random graph, of at most 200 vertices. The edges
-- are an argument; the arrays are lists, of which `fila` holds what malloc gives.
pub mod Queue
use mc.Prelude.{
  ℕ, zero, suc, ◌+◌, ◌*◌, List, Bool, true, false, not, ◌&&◌, Option, none, some, if◌then◌else◌,
  ◌==◌, leb, get_or, set, replicate,
}

abbrev pub inf : ℕ
inf = 100000

abbrev pub max_vert : ℕ
max_vert = 200

-- the length of `fila`
abbrev pub tam : ℕ
tam = 2 * max_vert

pub record Search : Type 0 where
  pub distancia : List ℕ
  pub visitado : List ℕ
  pub fila : List ℕ
  pub esq : ℕ
  pub dir : ℕ

-- The search is about to start from `u`.
unfoldable pub start : (u : ℕ) → List ℕ → Search
start u fila = record {
  distancia = set (replicate max_vert inf) u 0;
  visitado = replicate max_vert 0;
  fila = set fila 0 u;
  esq = 0;
  dir = 0;
}

module _ (matrix : ℕ → ℕ → ℕ) where
  unfoldable pub visit : (atual j : ℕ) → Search → Search
  visit atual j s =
      if not (matrix atual j == 0) && get_or s.visitado j 0 == 0
      then record s {
        visitado = set s.visitado j 1;
        distancia = set s.distancia j (get_or s.distancia atual 0 + 1);
        dir = s.dir + 1;
        fila = set s.fila (s.dir + 1) j;
      }
      else s

  -- the vertices from `j` on, `left` of them
  unfoldable pub visit_from : (left atual j : ℕ) → Search → Search
  unfolding visit
  visit_from zero atual j s = s
  visit_from (suc left) atual j s = visit_from left atual (j + 1) (visit atual j s)

  -- one turn of the outer loop
  unfoldable pub turn : (num_vertices : ℕ) → Search → Search
  unfolding visit_from
  turn num_vertices s =
      let s' = visit_from num_vertices (get_or s.fila s.esq 0) 0 s in record s' { esq = s'.esq + 1 }

  -- the outer loop, with fuel; none where it runs out
  unfoldable pub search : (fuel num_vertices : ℕ) → Search → Option Search
  unfolding turn
  search zero num_vertices s = none
  search (suc fuel) num_vertices s = elim (leb s.esq s.dir) [
    | true ↦ search fuel num_vertices (turn num_vertices s)
    | false ↦ some s
  ]
