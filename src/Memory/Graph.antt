-- ===== src/Memory/Graph.antt =====
-- The simulator's copy of the graph: `Graph::Graph` of src/graph.cpp, which is that of bfs/graph.cpp
-- with twice the edges for an undirected graph, and the arrays that `ramInit` makes of it.
pub mod Sizes
use graph_accelerator.Common.{ℕ, ◌*◌, Bool, List, Option, none, some, if◌then◌else◌}
use graph_accelerator.Bfs.Csr.{Csr}
use graph_accelerator.Bfs.Graph.{Graph, new_graph}
use graph_accelerator.Bfs.Graph.Links.{vertex_at, outs, ins}
use graph_accelerator.Bfs.CsrBuild.{offsets, columns}

-- `if(isUgraph) edge_num *= 2;`
pub double_edges : Bool → Graph → Graph
double_edges is_ugraph g = record g { edge_num = if is_ugraph then g.edge_num * 2 else g.edge_num }

pub load_graph : Bool → List (List ℕ) → Option Graph
load_graph is_ugraph rows = elim (new_graph is_ugraph rows) [
  | none ↦ none
  | some g ↦ some (double_edges is_ugraph g)
]

-- `rpao`, `ciao`, `rpai` and `ciai` of `ramInit`.
pub init_arrays : Graph → Csr
init_arrays g = record {
  v_num = g.vertex_num;
  e_num = g.edge_num;
  rpao = offsets g.vertex_num (λ i. (vertex_at g.vertices i).out_deg);
  ciao = columns g.vertex_num (outs g.vertices);
  rpai = offsets g.vertex_num (λ i. (vertex_at g.vertices i).in_deg);
  ciai = columns g.vertex_num (ins g.vertices);
}
