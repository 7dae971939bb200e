-- ===== src/Bfs/Hybrid.antt =====
-- `CSR::hybridBfs`: rounds that go top-down or bottom-up, as the hub vertices of the frontier and
-- the vertices found say. What it prints is left out.
pub mod Round
pub mod Correct
use graph_accelerator.Common.{
  ℕ, zero, suc, ◌+◌, Bool, true, false, not, ◌&&◌, ◌||◌, ◌==◌, leb, List, [], ◌∷◌, ◌++◌, ℤ, Option,
  if◌then◌else◌, length, for_range,
}
use graph_accelerator.Bfs.Csr.{Csr, out_degree}
use graph_accelerator.Bfs.Depth.{at_level, unvisited, is_empty, start_depth, enough_rounds, Sweep}
use graph_accelerator.Bfs.Loop.{do_while}
use graph_accelerator.Bfs.Params.{Params, hub_vertex_num}
use graph_accelerator.Bfs.Stats.{Stats, no_traffic, read, burst_num}
use graph_accelerator.Bfs.TopDown.{expand_frontier}
use graph_accelerator.Bfs.BottomUp.{Adoption, adopt_frontier}

-- The variables that live across the rounds; `visited` is `visitedNgbNum`.
pub record Hybrid : Type 0 where
  pub level : ℕ
  pub depth : List ℤ
  pub top_down : Bool
  pub visited : ℕ
  pub bfs_type : List Bool
  pub frontier_dist : List ℕ
  pub frontier_hub_vertex : List ℕ
  pub stats : Stats

-- The state of the loop that looks for the frontier; `hub` is `frontierHubVertexNum`.
pub record HubScan : Type 0 where
  pub frontier : List ℕ
  pub hub : ℕ
  pub stats : Stats

abbrev count_hub : Csr → Params → ℕ → ℕ → ℕ
count_hub c p idx hub = if leb p.hub_vertex_threshold (out_degree c idx) then hub + 1 else hub

-- One index of the scan, top-down and bottom-up.
td_hub_scan_at : Csr → Params → Hybrid → ℕ → HubScan → HubScan
td_hub_scan_at c p s idx t =
    let stats = read 1 0 t.stats in
    if at_level s.level s.depth idx
    then record { frontier = t.frontier ++ idx ∷ []; hub = count_hub c p idx t.hub; stats = stats }
    else record t { stats = stats }

bu_hub_scan_at : Csr → Params → Hybrid → ℕ → HubScan → HubScan
bu_hub_scan_at c p s idx t =
    let stats = read 1 0 t.stats in
    if unvisited s.depth idx
    then record t { frontier = t.frontier ++ idx ∷ []; stats = stats }
    else if at_level s.level s.depth idx
    then record t { hub = count_hub c p idx t.hub; stats = stats }
    else record t { stats = stats }

pub hub_scan : Csr → Params → Hybrid → HubScan
hub_scan c p s =
    for_range c.v_num 0 (if s.top_down then td_hub_scan_at c p s else bu_hub_scan_at c p s)
      (record { frontier = []; hub = 0; stats = read 0 (burst_num c.v_num 1) s.stats })

-- The traversal of the frontier: the depths with the vertices found and the traffic.
pub hybrid_traverse : Csr → Hybrid → HubScan → Adoption
hybrid_traverse c s scan =
    if s.top_down
    then (let sweep =
          expand_frontier c s.level (record { depth = s.depth; stats = scan.stats })
            scan.frontier in
        record { depth = sweep.depth; visited = s.visited; stats = sweep.stats })
    else adopt_frontier c s.level (record { depth = s.depth; visited = 0; stats = scan.stats })
        scan.frontier

-- The direction of the next round.
pub next_top_down : Params → Bool → ℕ → ℕ → ℕ → Bool
next_top_down p top_down hub total visited =
    if top_down && p.alpha_reached hub total
    then false
    else if not top_down && p.within_beta visited
    then true
    else top_down

-- `frontier.empty() || (topDown == false && visitedNgbNum == 0)`
unfoldable pub hybrid_eof : Bool → List ℕ → ℕ → Bool
hybrid_eof top_down frontier visited = is_empty frontier || (not top_down && visited == 0)

-- The body of the `do` loop, with `eofBfs`.
pub hybrid_round : Csr → Params → Hybrid → Hybrid × Bool
hybrid_round c p s =
    let scan = hub_scan c p s in
    let found = hybrid_traverse c s scan in
    (
      record {
        level = suc s.level;
        depth = found.depth;
        top_down = next_top_down p s.top_down scan.hub (hub_vertex_num c p) found.visited;
        visited = found.visited;
        bfs_type = s.bfs_type ++ s.top_down ∷ [];
        frontier_dist = s.frontier_dist ++ length scan.frontier ∷ [];
        frontier_hub_vertex = s.frontier_hub_vertex ++ scan.hub ∷ [];
        stats = found.stats;
      },
      hybrid_eof s.top_down scan.frontier found.visited,
    )

pub start_hybrid : Csr → ℕ → Hybrid
start_hybrid c src = record {
  level = 0;
  depth = start_depth c src;
  top_down = true;
  visited = 0;
  bfs_type = [];
  frontier_dist = [];
  frontier_hub_vertex = [];
  stats = no_traffic;
}

-- `none` means that the fuel ran out.
pub hybrid_bfs : Csr → Params → ℕ → Option Hybrid
hybrid_bfs c p src = do_while (enough_rounds c) (hybrid_round c p) (start_hybrid c src)
