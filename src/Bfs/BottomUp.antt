-- ===== src/Bfs/BottomUp.antt =====
-- `CSR::buBfs`: in each round a scan of the depths finds the unvisited vertices, and those with an
-- incoming neighbour at the level get the next depth. What it prints is left out.
pub mod Round
pub mod Correct
use graph_accelerator.Common.{
  ℕ, zero, suc, ◌+◌, ◌*◌, ◌==◌, Bool, ◌||◌, List, [], ◌∷◌, ◌++◌, foldl, Option, pos, if◌then◌else◌,
  length, set, for_range, ℤ,
}
use graph_accelerator.Bfs.Depth.{at_level, unvisited, Search, is_empty, start_search, enough_rounds}
use graph_accelerator.Bfs.Csr.{Csr, entry, in_degree}
use graph_accelerator.Bfs.Loop.{do_while}
use graph_accelerator.Bfs.Stats.{Stats, read, write, burst_num}

-- The state of the loop that looks for the frontier.
pub record Scan : Type 0 where
  pub frontier : List ℕ
  pub stats : Stats

-- The state of the loops that write depths; `visited` is `visitedNgbNum`.
pub record Adoption : Type 0 where
  pub depth : List ℤ
  pub visited : ℕ
  pub stats : Stats

-- One index of the scan.
bu_scan_at : Search → ℕ → Scan → Scan
bu_scan_at s idx t =
    let stats = read 1 0 t.stats in
    if unvisited s.depth idx
    then record { frontier = t.frontier ++ idx ∷ []; stats = stats }
    else record t { stats = stats }

pub bu_scan : Csr → Search → Scan
bu_scan c s =
    for_range c.v_num 0 (bu_scan_at s)
      (record { frontier = []; stats = read 0 (burst_num c.v_num 1) s.stats })

-- The loop over the `n` incoming neighbours of `vidx` from `cidx` on; it breaks at the first that
-- is at the level.
pub find_parent : Csr → ℕ → ℕ → ℕ → ℕ → Adoption → Adoption
find_parent c level vidx zero cidx s = s
find_parent c level vidx (suc n) cidx s =
    let in_ngb = entry c.ciai cidx in
    let stats = read 1 1 (read 4 0 s.stats) in
    let rest = find_parent c level vidx n (suc cidx) (record s { stats = stats }) in
    if at_level level s.depth in_ngb
    then record {
      depth = set s.depth vidx (pos (suc level));
      visited = s.visited + 1;
      stats = write 1 1 stats;
    }
    else rest

-- One vertex of the frontier.
pub adopt_vertex : Csr → ℕ → Adoption → ℕ → Adoption
adopt_vertex c level s vidx =
    let degree = in_degree c vidx in
    find_parent c level vidx degree (entry c.rpai vidx)
      (record s { stats = read 0 (burst_num degree 4) (read (4 * 2) 1 s.stats) })

-- The loop over the frontier.
pub adopt_frontier : Csr → ℕ → Adoption → List ℕ → Adoption
adopt_frontier c level = foldl (adopt_vertex c level)

-- The body of the `do` loop, with `eofBfs`.
pub bu_round : Csr → Search → Search × Bool
bu_round c s =
    let scan = bu_scan c s in
    let found =
      adopt_frontier c s.level (record { depth = s.depth; visited = 0; stats = scan.stats })
        scan.frontier in
    (
      record {
        level = suc s.level;
        depth = found.depth;
        frontier_dist = s.frontier_dist ++ length scan.frontier ∷ [];
        stats = found.stats;
      },
      is_empty scan.frontier || found.visited == 0,
    )

-- `none` means that the fuel ran out.
pub bu_bfs : Csr → ℕ → Option Search
bu_bfs c src = do_while (enough_rounds c) (bu_round c) (start_search c src)
