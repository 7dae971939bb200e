-- ===== src/Bfs/Hybrid/Round.antt =====
-- One round of `hybridBfs` advances the depths by one level, whichever its direction.
use graph_accelerator.Common.{
  ℕ, ◌≡◌, refl, ap, ◌∙◌, true, false, ◌∷◌, [], ◌++◌, if◌then◌else◌, length, for_range-select, inl,
  inr, Bool-cases, arith,
}
use graph_accelerator.Bfs.Advance.{mark_all, advance, adopt_all}
use graph_accelerator.Bfs.BottomUp.{Adoption}
use graph_accelerator.Bfs.BottomUp.Correct.{bu_eof}
use graph_accelerator.Bfs.BottomUp.Round.{
  unvisited_set, adopt_frontier_lem, adopt_all-unvisited_set,
}
use graph_accelerator.Bfs.Csr.{Csr, IsCsr}
use graph_accelerator.Bfs.Depth.{at_level, unvisited, is_empty}
use graph_accelerator.Bfs.Hybrid.{
  Hybrid, HubScan, td_hub_scan_at, bu_hub_scan_at, hub_scan, hybrid_traverse, hybrid_eof,
  hybrid_round,
}
use graph_accelerator.Bfs.Levels.{level_set}
use graph_accelerator.Bfs.Params.{Params}
use graph_accelerator.Bfs.TopDown.Round.{all_out, expand_frontier-depth, mark_all-level_set}

module _ (c : Csr) (p : Params) where
  hub_scan-frontier :
      (s : Hybrid)
      → (hub_scan c p s).frontier
        ≡ (if s.top_down then level_set c s.level s.depth else unvisited_set c s.depth)
  unfolding hub_scan
  hub_scan-frontier s = elim (Bool-cases s.top_down) [
    | inl e ↦ simp e (
        for_range-select (λ (t : HubScan). t.frontier) (at_level s.level s.depth)
          (td_hub_scan_at c p s) down c.v_num 0 _)
    | inr e ↦ simp e (
        for_range-select (λ (t : HubScan). t.frontier) (unvisited s.depth) (bu_hub_scan_at c p s) up
          c.v_num 0 _)
  ]
    where
      down :
          (k : ℕ) (t : HubScan)
          → (td_hub_scan_at c p s k t).frontier
            ≡ (if at_level s.level s.depth k then t.frontier ++ k ∷ [] else t.frontier)
      down k t = unfold td_hub_scan_at in ground arith

      up :
          (k : ℕ) (t : HubScan)
          → (bu_hub_scan_at c p s k t).frontier
            ≡ (if unvisited s.depth k then t.frontier ++ k ∷ [] else t.frontier)
      up k t = unfold bu_hub_scan_at in ground arith

  hub_scan-top_down :
      (s : Hybrid) → s.top_down ≡ true → (hub_scan c p s).frontier ≡ level_set c s.level s.depth
  hub_scan-top_down s e = hub_scan-frontier s ∙ simp e

  hub_scan-bottom_up :
      (s : Hybrid) → s.top_down ≡ false → (hub_scan c p s).frontier ≡ unvisited_set c s.depth
  hub_scan-bottom_up s e = hub_scan-frontier s ∙ simp e

  -- The depths advance.
  pub hybrid_round-advance :
      (s : Hybrid)
      → IsCsr c
      → length s.depth ≡ c.v_num
      → (hybrid_round c p s).0.depth ≡ advance c s.level s.depth
  unfolding hybrid_round hybrid_traverse
  hybrid_round-advance s ok n = elim (Bool-cases s.top_down) [
    | inl e ↦ simp e (
        expand_frontier-depth c s.level _ (hub_scan c p s).frontier
        ∙ ap (λ us. mark_all s.level s.depth (all_out c us)) (hub_scan-top_down s e)
        ∙ mark_all-level_set c s.level s.depth _ ok n (λ v h. refl))
    | inr e ↦ simp e (
        (adopt_frontier_lem c s.level _ (hub_scan c p s).frontier).0
        ∙ ap (adopt_all c s.level s.depth) (hub_scan-bottom_up s e)
        ∙ adopt_all-unvisited_set c s.level s.depth n)
  ]

  -- The loop stops as the search of that direction would.
  pub hybrid_round-eof :
      (s : Hybrid)
      → (hybrid_round c p s).1
        ≡ (if s.top_down then is_empty (level_set c s.level s.depth) else bu_eof c s.level s.depth)
  unfolding hybrid_round hybrid_traverse hybrid_eof
  hybrid_round-eof s = elim (Bool-cases s.top_down) [
    | inl e ↦ simp (e, hub_scan-top_down s e) (ground arith)
    | inr e ↦
        let start : Adoption = record {
          depth = s.depth;
          visited = 0;
          stats = (hub_scan c p s).stats;
        } in
        simp (e, hub_scan-bottom_up s e)
          (ground (arith, adopt_frontier_lem c s.level start (unvisited_set c s.depth)))
  ]
