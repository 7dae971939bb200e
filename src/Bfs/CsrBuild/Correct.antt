-- ===== src/Bfs/CsrBuild/Correct.antt =====
-- The compressed rows of a well-formed graph are well formed and list its edges.
use graph_accelerator.Common.{
  ℕ, suc, ◌-◌, ◌<◌, ◌≡◌, ◌≢◌, refl, Bool, List, [], some, length, slice, contains, arith,
}
use mathlib.Core.Path.{fun_ext}
use graph_accelerator.Bfs.Csr.{IsCsr, entry, out_ngbs, in_ngbs}
use graph_accelerator.Bfs.CsrBuild.{offsets, columns, new_csr}
use graph_accelerator.Bfs.CsrBuild.Slices.{
  sum_below_width, entry-offsets, columns_lem, slice-rows_below,
}
use graph_accelerator.Bfs.Graph.{Graph, new_graph}
use graph_accelerator.Bfs.Graph.Links.{vertex_at, outs, ins}
use graph_accelerator.Bfs.Graph.Read.{IsGraph, new_graph-IsGraph}
use graph_accelerator.Bfs.Graph.Rows.{HavePairs, any_states}

-- With the lengths of the rows as degrees, row `v` of the columns is what was pushed for `v`.
row_lem :
    (n v : ℕ) (degree : ℕ → ℕ) (ids : ℕ → List ℕ)
    → v < n
    → ((u : ℕ) → degree u ≡ length (ids u))
    → slice
        (columns n ids)
        (entry (offsets n degree) v)
        (entry (offsets n degree) (suc v) - entry (offsets n degree) v)
      ≡ ids v
row_lem n v degree ids h same =
    let same' : degree ≡ (λ u. length (ids u)) = fun_ext same in
    rw
      (
        entry-offsets n degree v (omega arith),
        entry-offsets n degree (suc v) h,
        columns_lem n ids,
        same',
        sum_below_width (λ u. length (ids u)) v,
      )
      (slice-rows_below ids n v h)

-- Row `v` of each direction is the vertex's list.
new_csr-ngbs :
    (g : Graph) (v : ℕ)
    → IsGraph g
    → v < g.vertex_num
    → (out_ngbs (new_csr g) v ≡ outs g.vertices v) × (in_ngbs (new_csr g) v ≡ ins g.vertices v)
unfolding new_csr
new_csr-ngbs g v ok h = (
  row_lem g.vertex_num v (λ u. (vertex_at g.vertices u).out_deg) (outs g.vertices) h ok.out_degree,
  row_lem g.vertex_num v (λ u. (vertex_at g.vertices u).in_deg) (ins g.vertices) h ok.in_degree,
)

v_num-new_csr : (g : Graph) → (new_csr g).v_num ≡ g.vertex_num
unfolding new_csr
v_num-new_csr g = refl

new_csr-IsCsr : (g : Graph) → IsGraph g → IsCsr (new_csr g)
new_csr-IsCsr g ok = record {
  out_lt = λ u v hu m. rw (v_num-new_csr g) (
      ok.linked.out_lt u v (rw (v_num-new_csr g) at hu)
        (rw (new_csr-ngbs g u ok (rw (v_num-new_csr g) at hu)).0 at m));
  in_lt = λ u v hv m. rw (v_num-new_csr g) (
      ok.linked.in_lt u v (rw (v_num-new_csr g) at hv)
        (rw (new_csr-ngbs g v ok (rw (v_num-new_csr g) at hv)).1 at m));
  transposed = λ u v hu hv.
      rw
        (
          (new_csr-ngbs g u ok (rw (v_num-new_csr g) at hu)).0,
          (new_csr-ngbs g v ok (rw (v_num-new_csr g) at hv)).1,
        )
        (ok.linked.transposed u v (rw (v_num-new_csr g) at hu) (rw (v_num-new_csr g) at hv));
}

-- From a file with at least one line and two numbers on each, `Graph` and then `CSR` build arrays
-- that are well formed, and that hold an edge from a vertex `u` to `v` exactly if some line states it
-- (in either direction for an undirected graph).
pub IsCsr-new_csr-new_graph :
    (is_ugraph : Bool) (rows : List (List ℕ))
    → rows ≢ []
    → HavePairs rows
    → (g : Graph) × (new_graph is_ugraph rows ≡ some g)
      × IsCsr (new_csr g)
      × ((u v : ℕ)
          → u < (new_csr g).v_num
          → contains v (out_ngbs (new_csr g) u) ≡ any_states is_ugraph u v rows)
IsCsr-new_csr-new_graph is_ugraph rows ne pairs =
    let (g, e, ok, edges) = new_graph-IsGraph is_ugraph rows ne pairs in
    (
      g,
      e,
      new_csr-IsCsr g ok,
      λ u v h. rw (new_csr-ngbs g u ok (rw (v_num-new_csr g) at h)).0 (edges u v),
    )
