-- ===== src/Bfs/Examples.antt =====
-- Runs of the searches and of the reader on a small graph.
use graph_accelerator.Common.{
  ℕ, ◌<◌, ◌≡◌, ◌≢◌, refl, true, false, List, [], ◌∷◌, none, some, leb, contains, arith,
}
use graph_accelerator.Bfs.Csr.{Csr, IsCsr, out_ngbs}
use graph_accelerator.Bfs.Checked.{is_csr, is_csr_sound}
use graph_accelerator.Bfs.Depth.{Search}
use graph_accelerator.Bfs.Params.{Params}
use graph_accelerator.Bfs.Shortest.{IsShortest}
use graph_accelerator.Bfs.TopDown.{td_bfs}
use graph_accelerator.Bfs.TopDown.Correct.{td_bfs-IsShortest}
use graph_accelerator.Bfs.BottomUp.{bu_bfs}
use graph_accelerator.Bfs.BottomUp.Correct.{bu_bfs-IsShortest}
use graph_accelerator.Bfs.Hybrid.{Hybrid, hybrid_bfs}
use graph_accelerator.Bfs.Hybrid.Correct.{hybrid_bfs-IsShortest}
use graph_accelerator.Bfs.Basic.{Basic, basic_bfs}
use graph_accelerator.Bfs.Basic.Correct.{basic_bfs-IsShortest}
use graph_accelerator.Bfs.Cache.{Cached, cache_hybrid_bfs}
use graph_accelerator.Bfs.Cache.Correct.{cache_hybrid_bfs-IsShortest}
use graph_accelerator.Bfs.Agree.{searches_agree}
use graph_accelerator.Bfs.Graph.{Graph, new_graph}
use graph_accelerator.Bfs.Graph.Links.{outs}
use graph_accelerator.Bfs.Graph.Read.{IsGraph, new_graph-IsGraph, new_graph_fault}
use graph_accelerator.Bfs.Graph.Rows.{any_states}
use graph_accelerator.Bfs.CsrBuild.{new_csr}
use graph_accelerator.Bfs.CsrBuild.Correct.{IsCsr-new_csr-new_graph}
use graph_accelerator.Common.{all_in, slice}
use graph_accelerator.Bfs.Checked.{eq_bool}
use graph_accelerator.Bfs.Graph.Rows.{HavePairs}
use graph_accelerator.Common.{all_from}

-- The edges 0 → 1, 0 → 2, 1 → 3, 2 → 3 and 3 → 0, and a vertex without edges.
abbrev diamond : Csr
diamond = record {
  v_num = 5;
  e_num = 5;
  rpao = 0 ∷ 2 ∷ 3 ∷ 4 ∷ 5 ∷ 5 ∷ [];
  ciao = 1 ∷ 2 ∷ 3 ∷ 3 ∷ 0 ∷ [];
  rpai = 0 ∷ 1 ∷ 2 ∷ 3 ∷ 5 ∷ 5 ∷ [];
  ciai = 3 ∷ 0 ∷ 0 ∷ 1 ∷ 2 ∷ [];
}

abbrev thresholds : Params
thresholds = record {
  alpha_reached = λ hub total. leb total hub;
  within_beta = λ n. leb n 0;
  hub_vertex_threshold = 2;
  cache_threshold = 1;
  bucket_num = 1024;
}

diamond-is_csr : is_csr diamond ≡ true
unfolding is_csr contains all_from all_in slice eq_bool
diamond-is_csr = refl

diamond-IsCsr : IsCsr diamond
diamond-IsCsr = is_csr_sound diamond diamond-is_csr

td_bfs_example : (t : Search) × (td_bfs diamond 0 ≡ some t) × IsShortest diamond 0 t.depth
td_bfs_example = td_bfs-IsShortest diamond 0 diamond-IsCsr (omega arith)

bu_bfs_example : (t : Search) × (bu_bfs diamond 0 ≡ some t) × IsShortest diamond 0 t.depth
bu_bfs_example = bu_bfs-IsShortest diamond 0 diamond-IsCsr (omega arith)

basic_bfs_example : (t : Basic) × (basic_bfs diamond 0 ≡ some t) × IsShortest diamond 0 t.depth
basic_bfs_example = basic_bfs-IsShortest diamond 0 diamond-IsCsr (omega arith)

hybrid_bfs_example :
    (t : Hybrid) × (hybrid_bfs diamond thresholds 0 ≡ some t) × IsShortest diamond 0 t.depth
hybrid_bfs_example = hybrid_bfs-IsShortest diamond thresholds 0 diamond-IsCsr (omega arith)

cache_hybrid_bfs_example :
    (t : Cached) × (cache_hybrid_bfs diamond thresholds 0 ≡ some t) × IsShortest diamond 0 t.depth
cache_hybrid_bfs_example =
    cache_hybrid_bfs-IsShortest diamond thresholds 0 diamond-IsCsr (omega arith)

searches_agree_example :
    (basic : Basic) × (td : Search) × (bu : Search) × (hybrid : Hybrid) × (cached : Cached)
    × (basic_bfs diamond 0 ≡ some basic)
    × (td_bfs diamond 0 ≡ some td)
    × (bu_bfs diamond 0 ≡ some bu)
    × (hybrid_bfs diamond thresholds 0 ≡ some hybrid)
    × (cache_hybrid_bfs diamond thresholds 0 ≡ some cached)
    × (td.depth ≡ basic.depth)
    × (bu.depth ≡ basic.depth)
    × (hybrid.depth ≡ basic.depth)
    × (cached.depth ≡ basic.depth)
searches_agree_example = searches_agree diamond thresholds 0 diamond-IsCsr (omega arith)

-- The lines of a file; the last is a loop.
abbrev lines : List (List ℕ)
lines = (0 ∷ 1 ∷ []) ∷ (0 ∷ 2 ∷ []) ∷ (1 ∷ 3 ∷ []) ∷ (2 ∷ 2 ∷ []) ∷ []

lines-nonempty : lines ≢ []
lines-nonempty e = cc

lines-HavePairs : HavePairs lines
lines-HavePairs = (omega arith, (omega arith, (omega arith, (omega arith, tt))))

new_graph_example :
    (g : Graph) × (new_graph true lines ≡ some g)
    × IsGraph g
    × ((u v : ℕ) → contains v (outs g.vertices u) ≡ any_states true u v lines)
new_graph_example = new_graph-IsGraph true lines lines-nonempty lines-HavePairs

IsCsr-new_csr-new_graph_example :
    (g : Graph) × (new_graph true lines ≡ some g)
    × IsCsr (new_csr g)
    × ((u v : ℕ)
        → u < (new_csr g).v_num
        → contains v (out_ngbs (new_csr g) u) ≡ any_states true u v lines)
IsCsr-new_csr-new_graph_example = IsCsr-new_csr-new_graph true lines lines-nonempty lines-HavePairs

new_graph_fault_example : (new_graph false [] ≡ none) × (new_graph false ((7 ∷ []) ∷ lines) ≡ none)
new_graph_fault_example = new_graph_fault false (7 ∷ []) lines (omega arith)
