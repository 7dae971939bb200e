-- ===== src/Bfs/Cache/Correct.antt =====
-- `cacheHybridBfs` computes the lengths of the shortest walks, whatever the switching tests say.
use graph_accelerator.Common.{
  ℕ, suc, ◌<◌, ◌≡◌, ◌∙◌, ap, true, false, sym, refl, some, List, ℤ, ◌∷◌, [], ◌++◌, length, contains,
  contains-concat, for_range_inv, for_range-select, if◌then◌else◌, inl, inr, Bool-cases, arith,
}
use graph_accelerator.Bfs.Advance.{mark_all, advance, adopt_all}
use graph_accelerator.Bfs.BottomUp.Correct.{bu_eof, bu_eof-IsQuiet, NoneAt-bu_eof}
use graph_accelerator.Bfs.BottomUp.Round.{
  unvisited_set, adopt_all-unvisited_set, unvisited_set-away,
}
use graph_accelerator.Bfs.Csr.{Csr, IsCsr}
use graph_accelerator.Bfs.Depth.{at_level, unvisited, is_empty}
use graph_accelerator.Bfs.Cache.{
  Cached, CacheScan, CacheSweep, td_cache_scan_at, bu_cache_scan_at, cache_scan, cache_traverse,
  cache_round, start_cached, cache_hybrid_bfs,
}
use graph_accelerator.Bfs.Cache.Out.{IsCache, cache_expand_all}
use graph_accelerator.Bfs.Cache.In.{cache_adopt_all}
use graph_accelerator.Bfs.Hybrid.{hybrid_eof}
use graph_accelerator.Bfs.Levels.{
  level_set, is_empty-select, select-is_empty, NoneAt, NoneAt-IsQuiet,
}
use graph_accelerator.Bfs.Loop.{IsRound, search-IsShortest}
use graph_accelerator.Bfs.Params.{Params}
use graph_accelerator.Bfs.Shortest.{IsShortest, IsQuiet}
use graph_accelerator.Bfs.TopDown.Round.{all_out, mark_all-level_set}

module _ (c : Csr) (p : Params) where
  td_scan_push :
      (s : Cached) (k : ℕ) (t : CacheScan)
      → (td_cache_scan_at c p s k t).frontier
        ≡ (if at_level s.level s.depth k then t.frontier ++ k ∷ [] else t.frontier)
  unfolding td_cache_scan_at
  td_scan_push s k t = ground arith

  bu_scan_push :
      (s : Cached) (k : ℕ) (t : CacheScan)
      → (bu_cache_scan_at c p s k t).frontier
        ≡ (if unvisited s.depth k then t.frontier ++ k ∷ [] else t.frontier)
  unfolding bu_cache_scan_at
  bu_scan_push s k t = ground arith

  cache_scan-top_down :
      (s : Cached) → s.top_down ≡ true → (cache_scan c p s).frontier ≡ level_set c s.level s.depth
  unfolding cache_scan
  cache_scan-top_down s e = simp e (
      for_range-select (λ (t : CacheScan). t.frontier) (at_level s.level s.depth)
        (td_cache_scan_at c p s) (td_scan_push s) c.v_num 0 _)

  cache_scan-bottom_up :
      (s : Cached) → s.top_down ≡ false → (cache_scan c p s).frontier ≡ unvisited_set c s.depth
  unfolding cache_scan
  cache_scan-bottom_up s e = simp e (
      for_range-select (λ (t : CacheScan). t.frontier) (unvisited s.depth) (bu_cache_scan_at c p s)
        (bu_scan_push s) c.v_num 0 _)

  IsCache-nil : (level : ℕ) (d : List ℤ) → IsCache level d []
  unfolding contains
  IsCache-nil level d u m = cc

  td_scan-IsCache :
      (s : Cached) (k : ℕ) (t : CacheScan)
      → IsCache s.level s.depth t.ping
      → IsCache s.level s.depth (td_cache_scan_at c p s k t).ping
  unfolding td_cache_scan_at
  td_scan-IsCache s k t cache u m = ground (arith, cache u, contains-concat u k t.ping)

  bu_scan-IsCache :
      (s : Cached) (k : ℕ) (t : CacheScan)
      → IsCache s.level s.depth t.ping
      → IsCache s.level s.depth (bu_cache_scan_at c p s k t).ping
  unfolding bu_cache_scan_at
  bu_scan-IsCache s k t cache u m = ground (arith, cache u, contains-concat u k t.ping)

  -- The scan fills the buffer with vertices at the level.
  pub cache_scan-IsCache : (s : Cached) → IsCache s.level s.depth (cache_scan c p s).ping
  unfolding cache_scan
  cache_scan-IsCache s = elim (Bool-cases s.top_down) [
    | inl e ↦ simp e (
        for_range_inv (λ _ (t : CacheScan). IsCache s.level s.depth t.ping) c.v_num
          (td_cache_scan_at c p s) (λ k t _ cache. td_scan-IsCache s k t cache) c.v_num 0 _
          (omega arith) (IsCache-nil s.level s.depth))
    | inr e ↦ simp e (
        for_range_inv (λ _ (t : CacheScan). IsCache s.level s.depth t.ping) c.v_num
          (bu_cache_scan_at c p s) (λ k t _ cache. bu_scan-IsCache s k t cache) c.v_num 0 _
          (omega arith) (IsCache-nil s.level s.depth))
  ]

  -- The depths advance.
  pub cache_round-advance :
      (s : Cached)
      → IsCsr c
      → length s.depth ≡ c.v_num
      → (cache_round c p s).0.depth ≡ advance c s.level s.depth
  unfolding cache_round cache_traverse
  cache_round-advance s ok n = elim (Bool-cases s.top_down) [
    | inl e ↦ simp e (
        (cache_expand_all c p s.level (cache_scan c p s).ping _ (cache_scan c p s).frontier
          (cache_scan-IsCache s)).0
        ∙ ap (λ us. mark_all s.level s.depth (all_out c us)) (cache_scan-top_down s e)
        ∙ mark_all-level_set c s.level s.depth _ ok n (λ v h. refl))
    | inr e ↦ simp e (
        (cache_adopt_all c p s.level (cache_scan c p s).ping _ (cache_scan c p s).frontier
          (cache_scan-IsCache s)
          (rw (cache_scan-bottom_up s e) (unvisited_set-away c s.level s.depth n))).0
        ∙ ap (adopt_all c s.level s.depth) (cache_scan-bottom_up s e)
        ∙ adopt_all-unvisited_set c s.level s.depth n)
  ]

  -- The loop stops as the search of that direction would.
  pub cache_round-eof :
      (s : Cached)
      → length s.depth ≡ c.v_num
      → (cache_round c p s).1
        ≡ (if s.top_down then is_empty (level_set c s.level s.depth) else bu_eof c s.level s.depth)
  unfolding cache_round cache_traverse hybrid_eof
  cache_round-eof s n = elim (Bool-cases s.top_down) [
    | inl e ↦ simp (e, cache_scan-top_down s e) (ground arith)
    | inr e ↦
        let start : CacheSweep = record {
          depth = s.depth;
          hub = 0;
          visited = 0;
          stats = (cache_scan c p s).stats;
        } in
        let all =
          cache_adopt_all c p s.level (cache_scan c p s).ping start (unvisited_set c s.depth)
            (cache_scan-IsCache s) (unvisited_set-away c s.level s.depth n) in
        simp (e, cache_scan-bottom_up s e) (ground (arith, all.1))
  ]

  cache_round-stops :
      (s : Cached)
      → IsCsr c
      → length s.depth ≡ c.v_num
      → (cache_round c p s).1 ≡ true
      → IsQuiet c s.level s.depth
  cache_round-stops s ok n e =
      let eof = sym (cache_round-eof s n) ∙ e in
      elim (Bool-cases s.top_down) [
        | inl down ↦
            NoneAt-IsQuiet c s.level s.depth ok
              (is_empty-select c.v_num (at_level s.level s.depth) (simp down at eof))
        | inr up ↦ bu_eof-IsQuiet c s.level s.depth (simp up at eof)
      ]

  cache_round-exhausted :
      (s : Cached)
      → IsCsr c
      → length s.depth ≡ c.v_num
      → NoneAt c s.level s.depth
      → (cache_round c p s).1 ≡ true
  cache_round-exhausted s ok n none = cache_round-eof s n ∙ elim (Bool-cases s.top_down) [
    | inl down ↦ simp down (select-is_empty c.v_num (at_level s.level s.depth) none)
    | inr up ↦ simp up (NoneAt-bu_eof c s.level s.depth ok none)
  ]

  cache_round-level : (s : Cached) → (cache_round c p s).0.level ≡ suc s.level
  unfolding cache_round
  cache_round-level s = refl

  cache_round-IsRound :
      IsCsr c → IsRound c (λ (s : Cached). s.level) (λ s. s.depth) (cache_round c p)
  cache_round-IsRound ok = record {
    advances = λ s n. cache_round-advance s ok n;
    counts = cache_round-level;
    stops = λ s n e. cache_round-stops s ok n e;
    exhausted = λ s n none. cache_round-exhausted s ok n none;
  }

-- From a vertex of a well-formed graph, for any thresholds and any outcome of the tests that switch
-- the direction, `cacheHybridBfs` ends, and it leaves in `depth` the number of edges of a shortest
-- walk to each vertex, or -1 where there is no walk.
pub cache_hybrid_bfs-IsShortest :
    (c : Csr) (p : Params) (src : ℕ)
    → IsCsr c
    → src < c.v_num
    → (t : Cached) × (cache_hybrid_bfs c p src ≡ some t) × IsShortest c src t.depth
unfolding cache_hybrid_bfs start_cached
cache_hybrid_bfs-IsShortest c p src ok h =
    search-IsShortest c src (λ s. s.level) (λ s. s.depth) (cache_round c p) (start_cached c src) ok
      h (cache_round-IsRound c p ok) refl refl
