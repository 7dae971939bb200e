-- ===== src/Pe/Analysis.antt =====
-- `inspectDepthAnalysis`: the depths of the four partitions, byte by byte, become the frontier. Flags
-- that only print are left out. A depth is a `char`, the bytes that arrive are signed.
pub mod Found
pub mod Turns
use graph_accelerator.Common.{
  ℕ, ◌+◌, ◌*◌, ◌/◌, Bool, true, false, ◌&&◌, ◌||◌, ◌==◌, ltb, List, [], ◌∷◌, ◌++◌, ℤ, pos, eq_ℤ,
  if◌then◌else◌, length, for_range,
}
use graph_accelerator.Common.{update}

-- `idx`, `depthBuffer0`, `frontierBuffer` and `frontierSize`; arrays of four are functions.
pub record Analysis : Type 0 where
  pub idx : ℕ → ℕ
  pub depth_buffer : ℕ → List ℤ
  pub frontier_buffer : List ℕ
  pub frontier_size : ℕ

-- `resetIdx`
pub reset_idx : ℕ → ℕ → ℕ
reset_idx vertex_num i = i * (vertex_num / 4)

no_depths : List ℤ → Bool
no_depths [] = true
no_depths (d ∷ ds) = false

-- `notEmpty`
pub any_depth : Analysis → Bool
any_depth s =
    for_range 4 0 (λ i found. found || (if no_depths (s.depth_buffer i) then false else true)) false

-- The body of the loop over the partitions.
pub analyze_one : ℕ → ℕ → Analysis → Analysis
analyze_one level i s = elim (s.depth_buffer i) [
  | [] ↦ s
  | d ∷ rest ↦ record {
    idx = update s.idx i (s.idx i + 1);
    depth_buffer = update s.depth_buffer i rest;
    frontier_buffer =
        if eq_ℤ d (pos level) then s.frontier_buffer ++ s.idx i ∷ [] else s.frontier_buffer;
    frontier_size = if eq_ℤ d (pos level) then s.frontier_size + 1 else s.frontier_size;
  }
]

-- A turn of the thread.
pub analysis_turn : ℕ → ℕ → Analysis → Analysis
analysis_turn frontier_depth level s =
    if any_depth s && ltb (length s.frontier_buffer) frontier_depth
    then for_range 4 0 (analyze_one level) s
    else s

-- `allAnalyzed`
pub all_analyzed : ℕ → Analysis → Bool
all_analyzed vertex_num s =
    for_range 4 0
      (λ i ok. ok && s.idx i == (if ltb i 3 then (i + 1) * (vertex_num / 4) else vertex_num)) true
