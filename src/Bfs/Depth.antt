-- ===== src/Bfs/Depth.antt =====
-- The `depth` array of the searches of bfs/graph.cpp and the variables that their loops share.
use graph_accelerator.Common.{
  ℕ, ◌+◌, Bool, true, false, List, [], ◌∷◌, ℤ, pos, minus_one, eq_ℤ, get_or, set, replicate,
}
use graph_accelerator.Bfs.Csr.{Csr}
use graph_accelerator.Bfs.Stats.{Stats, no_traffic}

-- `depth[v]`
abbrev pub depth_at : List ℤ → ℕ → ℤ
depth_at d v = get_or d v minus_one

-- `depth[v] == level`
abbrev pub at_level : ℕ → List ℤ → ℕ → Bool
at_level level d v = eq_ℤ (depth_at d v) (pos level)

-- `depth[v] == -1`
abbrev pub unvisited : List ℤ → ℕ → Bool
unvisited d v = eq_ℤ (depth_at d v) minus_one

-- The variables that live across the rounds of the `do` loop.
pub record Search : Type 0 where
  pub level : ℕ
  pub depth : List ℤ
  pub frontier_dist : List ℕ
  pub stats : Stats

-- The state of the loops that write depths.
pub record Sweep : Type 0 where
  pub depth : List ℤ
  pub stats : Stats

abbrev pub is_empty : List ℕ → Bool
is_empty [] = true
is_empty (_ ∷ _) = false

-- All vertices unvisited but the source.
abbrev pub start_depth : Csr → ℕ → List ℤ
start_depth c src = set (replicate c.v_num minus_one) src (pos 0)

unfoldable pub start_search : Csr → ℕ → Search
start_search c src = record {
  level = 0;
  depth = start_depth c src;
  frontier_dist = [];
  stats = no_traffic;
}

-- The rounds that suffice for every search.
abbrev pub enough_rounds : Csr → ℕ
enough_rounds c = c.v_num + 2
