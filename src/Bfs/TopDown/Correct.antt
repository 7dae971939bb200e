-- ===== src/Bfs/TopDown/Correct.antt =====
-- `tdBfs` computes the lengths of the shortest walks.
use graph_accelerator.Common.{ℕ, suc, ◌<◌, ◌≡◌, ◌∙◌, sym, refl, some}
use graph_accelerator.Bfs.Csr.{Csr, IsCsr}
use graph_accelerator.Bfs.Depth.{Search, at_level, start_search}
use graph_accelerator.Bfs.Levels.{is_empty-select, select-is_empty, NoneAt-IsQuiet}
use graph_accelerator.Bfs.Loop.{IsRound, search-IsShortest}
use graph_accelerator.Bfs.Shortest.{IsShortest}
use graph_accelerator.Bfs.TopDown.{td_round, td_bfs}
use graph_accelerator.Bfs.TopDown.Round.{td_round-advance}

td_round-level : (c : Csr) (s : Search) → (td_round c s).0.level ≡ suc s.level
unfolding td_round
td_round-level c s = refl

td_round-IsRound :
    (c : Csr) → IsCsr c → IsRound c (λ (s : Search). s.level) (λ s. s.depth) (td_round c)
td_round-IsRound c ok = record {
  advances = λ s n. (td_round-advance c s ok n).0;
  counts = λ s. td_round-level c s;
  stops = λ s n e.
      NoneAt-IsQuiet c s.level s.depth ok (
        is_empty-select c.v_num (at_level s.level s.depth) (sym (td_round-advance c s ok n).2 ∙ e));
  exhausted = λ s n none.
      (td_round-advance c s ok n).2 ∙ select-is_empty c.v_num (at_level s.level s.depth) none;
}

-- From a vertex of a well-formed graph `tdBfs` ends, and it leaves in `depth` the number of edges of
-- a shortest walk to each vertex, or -1 where there is no walk.
pub td_bfs-IsShortest :
    (c : Csr) (src : ℕ)
    → IsCsr c
    → src < c.v_num
    → (t : Search) × (td_bfs c src ≡ some t) × IsShortest c src t.depth
unfolding td_bfs start_search
td_bfs-IsShortest c src ok h =
    search-IsShortest c src (λ s. s.level) (λ s. s.depth) (td_round c) (start_search c src) ok h
      (td_round-IsRound c ok) refl refl
