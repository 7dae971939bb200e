-- ===== src/Bfs/Basic.antt =====
-- `CSR::basicBfs`: the vertices that a round writes are the frontier of the next. What it prints is
-- left out.
pub mod Round
pub mod Correct
use graph_accelerator.Common.{
  ℕ, zero, suc, ◌+◌, ◌*◌, Bool, true, false, List, [], ◌∷◌, ◌++◌, foldl, ℤ, pos, Option, none, some,
  if◌then◌else◌, length, set, for_range,
}
use graph_accelerator.Bfs.Csr.{Csr, entry, out_degree}
use graph_accelerator.Bfs.Depth.{unvisited, is_empty, start_depth, enough_rounds}
use graph_accelerator.Bfs.Stats.{Stats, no_traffic, read, write, burst_num}

-- The variables that live across the rounds of the `while` loop.
pub record Basic : Type 0 where
  pub level : ℕ
  pub depth : List ℤ
  pub frontier : List ℕ
  pub frontier_dist : List ℕ
  pub stats : Stats

-- The state of the loops that write depths; `next` is `nextFrontier`.
pub record Push : Type 0 where
  pub depth : List ℤ
  pub next : List ℕ
  pub stats : Stats

-- One neighbour of a frontier vertex.
pub push_out : Csr → ℕ → ℕ → Push → Push
push_out c level cidx s =
    let out_ngb = entry c.ciao cidx in
    let stats = read 1 1 (read 4 0 s.stats) in
    if unvisited s.depth out_ngb
    then record {
      depth = set s.depth out_ngb (pos (suc level));
      next = s.next ++ out_ngb ∷ [];
      stats = write 4 0 (write 1 1 stats);
    }
    else record s { stats = stats }

-- One frontier vertex.
pub push_vertex : Csr → ℕ → Push → ℕ → Push
push_vertex c level s vidx =
    let degree = out_degree c vidx in
    for_range degree (entry c.rpao vidx) (push_out c level)
      (record s { stats = read 0 (burst_num degree 4) (read (4 * 2) 1 (read 4 0 s.stats)) })

-- The loop over the frontier.
pub push_frontier : Csr → ℕ → Push → List ℕ → Push
push_frontier c level = foldl (push_vertex c level)

-- The body of the `while` loop.
pub basic_round : Csr → Basic → Basic
basic_round c s =
    let found =
      push_frontier c s.level
        (record {
          depth = s.depth;
          next = [];
          stats = read 0 (burst_num (length s.frontier) 4) s.stats;
        })
        s.frontier in
    record {
      level = suc s.level;
      depth = found.depth;
      frontier = found.next;
      frontier_dist = s.frontier_dist ++ length s.frontier ∷ [];
      stats = write 0 (burst_num (length found.next) 4) found.stats;
    }

-- `while (!frontier.empty())`; `none` means that the fuel ran out.
pub basic_loop : Csr → ℕ → Basic → Option Basic
basic_loop c zero s = none
basic_loop c (suc fuel) s = elim (is_empty s.frontier) [
  | true ↦ some s
  | false ↦ basic_loop c fuel (basic_round c s)
]

pub start_basic : Csr → ℕ → Basic
start_basic c src = record {
  level = 0;
  depth = start_depth c src;
  frontier = src ∷ [];
  frontier_dist = [];
  stats = no_traffic;
}

pub basic_bfs : Csr → ℕ → Option Basic
basic_bfs c src = basic_loop c (enough_rounds c) (start_basic c src)
