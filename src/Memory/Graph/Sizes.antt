-- ===== src/Memory/Graph/Sizes.antt =====
-- The sizes of the arrays that `ramInit` of src/MemWrapper.cpp makes of the simulator's graph, beside
-- the number of edges for which it lays out the memory.
use graph_accelerator.Common.{
  ℕ, suc, ◌+◌, ◌≡◌, ◌≢◌, refl, sym, ap, ◌∙◌, Bool, List, [], map, some, if◌then◌else◌, length, set,
  replicate, for_range_inv, length-set, length-replicate, arith, ◌*◌,
}
use graph_accelerator.Bfs.Csr.{entry}
use graph_accelerator.Bfs.CsrBuild.{offsets, columns}
use graph_accelerator.Bfs.CsrBuild.Slices.{columns_lem, length-rows_below}
use graph_accelerator.Bfs.Graph.{Graph, Vertex, max_over, new_vertices, set_degrees, new_graph}
use graph_accelerator.Bfs.Graph.Links.{outs, ins}
use graph_accelerator.Bfs.Graph.Read.{first_number}
use graph_accelerator.Bfs.Graph.Rows.{HavePairs, AreRows-max_over}
use graph_accelerator.Bfs.Graph.Totals.{
  total, sum_below-total, outs_of, ins_of, loops, edges_of, edges_of-loops, total-add_rows,
  total-set_degrees, total-new_vertices,
}
use graph_accelerator.Memory.Graph.{double_edges, load_graph, init_arrays}
use graph_accelerator.Memory.Contents.Init.{HasSizes}

length-offsets : (n : ℕ) (degree : ℕ → ℕ) → length (offsets n degree) ≡ suc n
unfolding offsets
length-offsets n degree =
    for_range_inv (λ i s. length s ≡ suc n) n _
      (λ i s lt e. length-set s (suc i) (entry s i + degree i) ∙ e) n 0
      (set (replicate (suc n) 0) 0 0) (omega arith)
      (length-set (replicate {A = ℕ} (suc n) 0) 0 0 ∙ length-replicate {A = ℕ} (suc n) 0)

length-columns :
    (vs : List Vertex) (n : ℕ)
    → length vs ≡ n
    → (length (columns n (outs vs)) ≡ total outs_of vs)
      × (length (columns n (ins vs)) ≡ total ins_of vs)
length-columns vs n size = (
  ap length (columns_lem n (outs vs))
      ∙ length-rows_below (outs vs) n
      ∙ rw (← size) (sum_below-total outs_of vs),
  ap length (columns_lem n (ins vs))
      ∙ length-rows_below (ins vs) n
      ∙ rw (← size) (sum_below-total ins_of vs),
)

new_graph-total :
    (is_ugraph : Bool) (rows : List (List ℕ))
    → rows ≢ []
    → HavePairs rows
    → (g : Graph) × (new_graph is_ugraph rows ≡ some g)
      × (g.edge_num ≡ length rows)
      × (length g.vertices ≡ g.vertex_num)
      × (total outs_of g.vertices ≡ edges_of is_ugraph rows)
      × (total ins_of g.vertices ≡ edges_of is_ugraph rows)
unfolding new_graph
new_graph-total is_ugraph rows ne pairs =
    let (m, top) = first_number rows ne pairs in
    let n = max_over m rows + 1 in
    let (o0, i0, n0) = total-new_vertices n 0 in
    let (ws, e, o, i, size) =
      total-add_rows is_ugraph n (new_vertices n 0) rows n0
        (AreRows-max_over m n rows pairs (omega arith)) in
    let (o1, i1, n1) = total-set_degrees ws in
    (
      record { vertex_num = n; edge_num = length rows; vertices = map set_degrees ws },
      rw (top, e) refl,
      refl,
      n1 ∙ size,
      omega (arith, o0, o, o1),
      omega (arith, i0, i, i1),
    )

-- From a file with at least one line and two numbers on each, the arrays that `ramInit` makes have the
-- sizes for which it lays out the memory with the graph's vertex and edge numbers; and the edge number is
-- the length of each of the two columns, and for an undirected graph the number of lines that state an
-- edge from a vertex to itself in addition.
pub HasSizes-init_arrays-load_graph :
    (is_ugraph : Bool) (rows : List (List ℕ))
    → rows ≢ []
    → HavePairs rows
    → (g : Graph) × (load_graph is_ugraph rows ≡ some g)
      × HasSizes (init_arrays g) g.edge_num
      × (length (init_arrays g).ciao + (if is_ugraph then loops rows else 0) ≡ g.edge_num)
      × (length (init_arrays g).ciai + (if is_ugraph then loops rows else 0) ≡ g.edge_num)
unfolding load_graph init_arrays double_edges
HasSizes-init_arrays-load_graph is_ugraph rows ne pairs =
    let (g, e, num, size, o, i) = new_graph-total is_ugraph rows ne pairs in
    let (co, ci) = length-columns g.vertices g.vertex_num size in
    let all = edges_of-loops is_ugraph rows in
    let doubled : (if is_ugraph then g.edge_num * 2 else g.edge_num)
        ≡ edges_of is_ugraph rows + (if is_ugraph then loops rows else 0) =
      rw num (sym all) in
    (
      double_edges is_ugraph g,
      rw (e, load_graph) refl,
      record {
        rpao_size = length-offsets g.vertex_num _ ∙ omega arith;
        rpai_size = length-offsets g.vertex_num _ ∙ omega arith;
        ciao_size = omega (arith, co, o, doubled);
        ciai_size = omega (arith, ci, i, doubled);
      },
      omega (arith, co, o, doubled),
      omega (arith, ci, i, doubled),
    )
