-- ===== src/Bfs/Cache.antt =====
-- `CSR::cacheHybridBfs`: the hybrid search with a buffer of the level's high-degree vertices, whose
-- depths need no read. `pingBuffer` is cleared at the end of each round and `pongBuffer` stays
-- empty, so the buffer is a variable of the round. What it prints is left out.
pub mod Out
pub mod In
pub mod Correct
use graph_accelerator.Common.{
  ℕ, zero, suc, ◌+◌, ◌*◌, Bool, true, false, leb, List, [], ◌∷◌, ◌++◌, foldl, ℤ, pos, Option,
  if◌then◌else◌, length, set, for_range, contains,
}
use graph_accelerator.Bfs.Csr.{Csr, entry, out_degree, in_degree}
use graph_accelerator.Bfs.Depth.{at_level, unvisited, start_depth, enough_rounds}
use graph_accelerator.Bfs.Hybrid.{next_top_down, hybrid_eof}
use graph_accelerator.Bfs.Loop.{do_while}
use graph_accelerator.Bfs.Params.{Params, hub_vertex_num}
use graph_accelerator.Bfs.Stats.{Stats, no_traffic, read, write, burst_num}

-- The variables that live across the rounds; `visited` is `visitedNgbNum`.
pub record Cached : Type 0 where
  pub level : ℕ
  pub depth : List ℤ
  pub top_down : Bool
  pub visited : ℕ
  pub frontier_dist : List ℕ
  pub stats : Stats

-- The state of the loop that looks for the frontier; `ping` is `pingBuffer`.
pub record CacheScan : Type 0 where
  pub frontier : List ℕ
  pub ping : List ℕ
  pub stats : Stats

-- The state of the loops that write depths; `hub` is `frontierHubVertexNum`.
pub record CacheSweep : Type 0 where
  pub depth : List ℤ
  pub hub : ℕ
  pub visited : ℕ
  pub stats : Stats

abbrev fill_ping : Csr → Params → ℕ → List ℕ → List ℕ
fill_ping c p idx ping = if leb p.cache_threshold (out_degree c idx) then ping ++ idx ∷ [] else ping

-- One index of the scan, top-down and bottom-up.
td_cache_scan_at : Csr → Params → Cached → ℕ → CacheScan → CacheScan
td_cache_scan_at c p s idx t =
    let stats = read 1 0 t.stats in
    if at_level s.level s.depth idx
    then record {
      frontier = t.frontier ++ idx ∷ [];
      ping = fill_ping c p idx t.ping;
      stats = stats;
    }
    else record t { stats = stats }

bu_cache_scan_at : Csr → Params → Cached → ℕ → CacheScan → CacheScan
bu_cache_scan_at c p s idx t =
    let stats = read 1 0 t.stats in
    if unvisited s.depth idx
    then record t { frontier = t.frontier ++ idx ∷ []; stats = stats }
    else if at_level s.level s.depth idx
    then record t { ping = fill_ping c p idx t.ping; stats = stats }
    else record t { stats = stats }

pub cache_scan : Csr → Params → Cached → CacheScan
cache_scan c p s =
    for_range c.v_num 0 (if s.top_down then td_cache_scan_at c p s else bu_cache_scan_at c p s)
      (record { frontier = []; ping = []; stats = read 0 (burst_num c.v_num 1) s.stats })

abbrev pub is_hub : Params → ℕ → Bool
is_hub p degree = leb p.hub_vertex_threshold degree

-- One outgoing neighbour; one in the buffer is skipped.
pub cache_visit_out : Csr → ℕ → List ℕ → ℕ → CacheSweep → CacheSweep
cache_visit_out c level ping cidx s =
    let out_ngb = entry c.ciao cidx in
    let stats = read 4 0 s.stats in
    if contains out_ngb ping
    then record s { stats = stats }
    else if unvisited s.depth out_ngb
    then record s {
      depth = set s.depth out_ngb (pos (suc level));
      stats = write 1 1 (read 1 1 stats);
    }
    else record s { stats = read 1 1 stats }

-- One frontier vertex, top-down.
pub cache_expand : Csr → Params → ℕ → List ℕ → CacheSweep → ℕ → CacheSweep
cache_expand c p level ping s vidx =
    let degree = out_degree c vidx in
    for_range degree (entry c.rpao vidx) (cache_visit_out c level ping) (record s {
      hub = if is_hub p degree then s.hub + 1 else s.hub;
      stats = read 0 (burst_num degree 4) (read (4 * 2) 1 s.stats);
    })

-- The loop over the `n` incoming neighbours of `vidx` from `cidx` on; it breaks at the first that
-- is in the buffer or at the level.
pub cache_find_parent : Csr → Params → ℕ → List ℕ → ℕ → ℕ → ℕ → CacheSweep → CacheSweep
cache_find_parent c p level ping vidx zero cidx s = s
cache_find_parent c p level ping vidx (suc n) cidx s =
    let in_ngb = entry c.ciai cidx in
    let stats = read 4 0 s.stats in
    let found = record s {
      depth = set s.depth vidx (pos (suc level));
      hub = if is_hub p (in_degree c vidx) then s.hub + 1 else s.hub;
      visited = s.visited + 1;
    } in
    let rest =
      cache_find_parent c p level ping vidx n (suc cidx) (record s { stats = read 1 1 stats }) in
    if contains in_ngb ping
    then record found { stats = write 1 1 stats }
    else if at_level level s.depth in_ngb
    then record found { stats = write 1 1 (read 1 1 stats) }
    else rest

-- One frontier vertex, bottom-up.
pub cache_adopt : Csr → Params → ℕ → List ℕ → CacheSweep → ℕ → CacheSweep
cache_adopt c p level ping s vidx =
    let degree = in_degree c vidx in
    cache_find_parent c p level ping vidx degree (entry c.rpai vidx)
      (record s { stats = read 0 (burst_num degree 4) (read (4 * 2) 1 s.stats) })

-- The traversal of the frontier.
pub cache_traverse : Csr → Params → Cached → CacheScan → CacheSweep
cache_traverse c p s scan =
    if s.top_down
    then foldl (cache_expand c p s.level scan.ping)
        (record { depth = s.depth; hub = 0; visited = s.visited; stats = scan.stats }) scan.frontier
    else foldl (cache_adopt c p s.level scan.ping)
        (record { depth = s.depth; hub = 0; visited = 0; stats = scan.stats }) scan.frontier

-- The body of the `do` loop, with `eofBfs`.
pub cache_round : Csr → Params → Cached → Cached × Bool
cache_round c p s =
    let scan = cache_scan c p s in
    let found = cache_traverse c p s scan in
    (
      record {
        level = suc s.level;
        depth = found.depth;
        top_down = next_top_down p s.top_down found.hub (hub_vertex_num c p) found.visited;
        visited = found.visited;
        frontier_dist = s.frontier_dist ++ length scan.frontier ∷ [];
        stats = found.stats;
      },
      hybrid_eof s.top_down scan.frontier found.visited,
    )

pub start_cached : Csr → ℕ → Cached
start_cached c src = record {
  level = 0;
  depth = start_depth c src;
  top_down = true;
  visited = 0;
  frontier_dist = [];
  stats = no_traffic;
}

-- `none` means that the fuel ran out.
pub cache_hybrid_bfs : Csr → Params → ℕ → Option Cached
cache_hybrid_bfs c p src = do_while (enough_rounds c) (cache_round c p) (start_cached c src)
