-- ===== src/Bfs/Csr.antt =====
-- The compressed sparse rows of a graph, class `CSR` of bfs/graph.h, and the walks that they hold.
use graph_accelerator.Common.{ℕ, suc, ◌-◌, ◌<◌, ◌≡◌, true, List, get_or, slice, contains}

-- `weight` is filled with random numbers and never read, so it is left out.
pub record Csr : Type 0 where
  pub v_num : ℕ
  pub e_num : ℕ
  pub rpao : List ℕ
  pub ciao : List ℕ
  pub rpai : List ℕ
  pub ciai : List ℕ

-- `v[i]`; out of range, where the source's behaviour is undefined, 0. `IsCsr` does not bound the lengths
-- of the arrays; `CSR::CSR` gives them the lengths that keep every index of the searches in range.
abbrev pub entry : List ℕ → ℕ → ℕ
entry xs i = get_or xs i 0

-- `rpao[v + 1] - rpao[v]`
abbrev pub out_degree : Csr → ℕ → ℕ
out_degree c v = entry c.rpao (suc v) - entry c.rpao v

-- `rpai[v + 1] - rpai[v]`
abbrev pub in_degree : Csr → ℕ → ℕ
in_degree c v = entry c.rpai (suc v) - entry c.rpai v

-- The targets of the edges out of `v`, and the sources of those into it.
abbrev pub out_ngbs : Csr → ℕ → List ℕ
out_ngbs c v = slice c.ciao (entry c.rpao v) (out_degree c v)

abbrev pub in_ngbs : Csr → ℕ → List ℕ
in_ngbs c v = slice c.ciai (entry c.rpai v) (in_degree c v)

-- Both directions list the same edges, between vertices of the graph.
pub record IsCsr (c : Csr) : Type 0 where
  pub out_lt : (u v : ℕ) → u < c.v_num → contains v (out_ngbs c u) ≡ true → v < c.v_num
  pub in_lt : (u v : ℕ) → v < c.v_num → contains u (in_ngbs c v) ≡ true → u < c.v_num
  pub transposed :
      (u v : ℕ) → u < c.v_num → v < c.v_num → contains v (out_ngbs c u) ≡ contains u (in_ngbs c v)

abbrev pub Edge : Csr → ℕ → ℕ → Type 0
Edge c u v = (u < c.v_num) × (v < c.v_num) × (contains v (out_ngbs c u) ≡ true)

-- A walk of `n` edges from `src` to `v`.
pub data Walk (c : Csr) (src : ℕ) : ℕ → ℕ → Type 0 where
  here : Walk c src 0 src
  step : {n u v : ℕ} → Walk c src n u → Edge c u v → Walk c src (suc n) v
