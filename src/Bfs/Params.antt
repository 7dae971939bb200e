-- ===== src/Bfs/Params.antt =====
-- The parameters of a search, `CSR::setBfsParam`, and the degree counts that read them. The tests
-- on `float`s are arguments: `alpha_reached hub total` is `hub * 1.0 / total >= alpha` and
-- `within_beta n` is `n <= beta`.
use graph_accelerator.Common.{ℕ, ◌+◌, Bool, if◌then◌else◌, leb, ◌==◌, for_range}
use graph_accelerator.Bfs.Csr.{Csr, out_degree, in_degree}

pub record Params : Type 0 where
  pub alpha_reached : ℕ → ℕ → Bool
  pub within_beta : ℕ → Bool
  pub hub_vertex_threshold : ℕ
  pub cache_threshold : ℕ
  pub bucket_num : ℕ

-- `getHubVertexNum()`, without the largest degree, which it computes and drops.
pub hub_vertex_num : Csr → Params → ℕ
hub_vertex_num c p =
    let n =
      for_range {S = ℕ} c.v_num 0
        (λ idx n. if leb p.hub_vertex_threshold (out_degree c idx) then n + 1 else n) 0 in
    if n == 0 then 1 else n

-- `getPotentialCacheSaving()`
pub potential_cache_saving : Csr → Params → ℕ
potential_cache_saving c p =
    for_range {S = ℕ} c.v_num 0
      (λ idx total.
        if leb p.cache_threshold (in_degree c idx) then total + in_degree c idx else total)
      0
