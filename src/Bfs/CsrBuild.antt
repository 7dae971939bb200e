-- ===== src/Bfs/CsrBuild.antt =====
-- `CSR::CSR`: the rows of a graph, flattened. The random weights are left out.
pub mod Slices
pub mod Correct
use graph_accelerator.Common.{
  ℕ, zero, suc, ◌+◌, List, [], ◌∷◌, ◌++◌, foldl, set, replicate, for_range,
}
use graph_accelerator.Bfs.Csr.{Csr, entry}
use graph_accelerator.Bfs.Graph.{Graph}
use graph_accelerator.Bfs.Graph.Links.{vertex_at, outs, ins}

-- `rpao.resize(vNum + 1); rpao[0] = 0; for(…) rpao[i + 1] = rpao[i] + degree(i);`
unfoldable pub offsets : ℕ → (ℕ → ℕ) → List ℕ
offsets n degree =
    for_range n 0 (λ i s. set s (suc i) (entry s i + degree i)) (set (replicate (suc n) 0) 0 0)

-- `for(auto id : ids) ciao.push_back(id);`
abbrev pub push_all : List ℕ → List ℕ → List ℕ
push_all = foldl (λ s id. s ++ id ∷ [])

pub columns : ℕ → (ℕ → List ℕ) → List ℕ
columns n ids = for_range n 0 (λ i s. push_all s (ids i)) []

unfoldable pub new_csr : Graph → Csr
new_csr g = record {
  v_num = g.vertex_num;
  e_num = g.edge_num;
  rpao = offsets g.vertex_num (λ i. (vertex_at g.vertices i).out_deg);
  ciao = columns g.vertex_num (outs g.vertices);
  rpai = offsets g.vertex_num (λ i. (vertex_at g.vertices i).in_deg);
  ciai = columns g.vertex_num (ins g.vertices);
}
