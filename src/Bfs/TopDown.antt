-- ===== src/Bfs/TopDown.antt =====
-- `CSR::tdBfs`: in each round a scan of the depths finds the frontier, and the neighbours of the
-- frontier that are unvisited get the next depth. What it prints is left out.
pub mod Round
pub mod Correct
use graph_accelerator.Common.{
  ℕ, zero, suc, ◌*◌, Bool, true, false, List, [], ◌∷◌, ◌++◌, foldl, Option, none, some, pos,
  if◌then◌else◌, length, set, for_range,
}
use graph_accelerator.Bfs.Depth.{
  at_level, unvisited, Search, Sweep, is_empty, start_search, enough_rounds,
}
use graph_accelerator.Bfs.Csr.{Csr, entry, out_degree}
use graph_accelerator.Bfs.Loop.{do_while}
use graph_accelerator.Bfs.Stats.{Stats, read, write, burst_num}

-- The state of the loop that looks for the frontier.
pub record Scan : Type 0 where
  pub frontier : List ℕ
  pub stats : Stats

-- One index of the scan.
td_scan_at : Search → ℕ → Scan → Scan
td_scan_at s idx t =
    let stats = read 1 0 t.stats in
    if at_level s.level s.depth idx
    then record { frontier = t.frontier ++ idx ∷ []; stats = stats }
    else record t { stats = stats }

pub td_scan : Csr → Search → Scan
td_scan c s =
    for_range c.v_num 0 (td_scan_at s)
      (record { frontier = []; stats = read 0 (burst_num c.v_num 1) s.stats })

-- One neighbour of a frontier vertex.
pub visit_out : Csr → ℕ → ℕ → Sweep → Sweep
visit_out c level cidx s =
    let out_ngb = entry c.ciao cidx in
    let stats = read 1 1 (read 4 0 s.stats) in
    if unvisited s.depth out_ngb
    then record { depth = set s.depth out_ngb (pos (suc level)); stats = write 1 1 stats }
    else record s { stats = stats }

-- One frontier vertex.
pub expand_out : Csr → ℕ → Sweep → ℕ → Sweep
expand_out c level s vidx =
    let degree = out_degree c vidx in
    for_range degree (entry c.rpao vidx) (visit_out c level)
      (record s { stats = read 0 (burst_num degree 4) (read (4 * 2) 1 s.stats) })

-- The loop over the frontier.
pub expand_frontier : Csr → ℕ → Sweep → List ℕ → Sweep
expand_frontier c level = foldl (expand_out c level)

-- The body of the `do` loop, with `eofBfs`.
pub td_round : Csr → Search → Search × Bool
td_round c s =
    let scan = td_scan c s in
    let sweep =
      expand_frontier c s.level (record { depth = s.depth; stats = scan.stats }) scan.frontier in
    (
      record {
        level = suc s.level;
        depth = sweep.depth;
        frontier_dist = s.frontier_dist ++ length scan.frontier ∷ [];
        stats = sweep.stats;
      },
      is_empty scan.frontier,
    )

-- `none` means that the fuel ran out.
pub td_bfs : Csr → ℕ → Option Search
td_bfs c src = do_while (enough_rounds c) (td_round c) (start_search c src)
