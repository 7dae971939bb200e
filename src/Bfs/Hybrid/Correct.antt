-- ===== src/Bfs/Hybrid/Correct.antt =====
-- `hybridBfs` computes the lengths of the shortest walks, whatever the switching tests say.
use graph_accelerator.Common.{ℕ, suc, ◌<◌, ◌≡◌, ◌∙◌, true, sym, refl, some, inl, inr, Bool-cases}
use graph_accelerator.Bfs.BottomUp.Correct.{bu_eof-IsQuiet, NoneAt-bu_eof}
use graph_accelerator.Bfs.Csr.{Csr, IsCsr}
use graph_accelerator.Bfs.Depth.{at_level}
use graph_accelerator.Bfs.Hybrid.{Hybrid, hybrid_round, start_hybrid, hybrid_bfs}
use graph_accelerator.Bfs.Hybrid.Round.{hybrid_round-advance, hybrid_round-eof}
use graph_accelerator.Bfs.Levels.{is_empty-select, select-is_empty, NoneAt, NoneAt-IsQuiet}
use graph_accelerator.Bfs.Loop.{IsRound, search-IsShortest}
use graph_accelerator.Bfs.Params.{Params}
use graph_accelerator.Bfs.Shortest.{IsShortest, IsQuiet}

module _ (c : Csr) (p : Params) where
  hybrid_round-stops :
      (s : Hybrid) → IsCsr c → (hybrid_round c p s).1 ≡ true → IsQuiet c s.level s.depth
  hybrid_round-stops s ok e =
      let eof = sym (hybrid_round-eof c p s) ∙ e in
      elim (Bool-cases s.top_down) [
        | inl down ↦
            NoneAt-IsQuiet c s.level s.depth ok
              (is_empty-select c.v_num (at_level s.level s.depth) (simp down at eof))
        | inr up ↦ bu_eof-IsQuiet c s.level s.depth (simp up at eof)
      ]

  hybrid_round-exhausted :
      (s : Hybrid) → IsCsr c → NoneAt c s.level s.depth → (hybrid_round c p s).1 ≡ true
  hybrid_round-exhausted s ok none = hybrid_round-eof c p s ∙ elim (Bool-cases s.top_down) [
    | inl down ↦ simp down (select-is_empty c.v_num (at_level s.level s.depth) none)
    | inr up ↦ simp up (NoneAt-bu_eof c s.level s.depth ok none)
  ]

  hybrid_round-level : (s : Hybrid) → (hybrid_round c p s).0.level ≡ suc s.level
  unfolding hybrid_round
  hybrid_round-level s = refl

  hybrid_round-IsRound :
      IsCsr c → IsRound c (λ (s : Hybrid). s.level) (λ s. s.depth) (hybrid_round c p)
  hybrid_round-IsRound ok = record {
    advances = λ s n. hybrid_round-advance c p s ok n;
    counts = hybrid_round-level;
    stops = λ s n e. hybrid_round-stops s ok e;
    exhausted = λ s n none. hybrid_round-exhausted s ok none;
  }

-- From a vertex of a well-formed graph, for any thresholds and any outcome of the tests that switch
-- the direction, `hybridBfs` ends, and it leaves in `depth` the number of edges of a shortest walk
-- to each vertex, or -1 where there is no walk.
pub hybrid_bfs-IsShortest :
    (c : Csr) (p : Params) (src : ℕ)
    → IsCsr c
    → src < c.v_num
    → (t : Hybrid) × (hybrid_bfs c p src ≡ some t) × IsShortest c src t.depth
unfolding hybrid_bfs start_hybrid
hybrid_bfs-IsShortest c p src ok h =
    search-IsShortest c src (λ s. s.level) (λ s. s.depth) (hybrid_round c p) (start_hybrid c src) ok
      h (hybrid_round-IsRound c p ok) refl refl
