-- ===== src/Bfs/Graph/Read.antt =====
-- What `Graph::Graph` builds from the lines of a file.
use graph_accelerator.Common.{
  ℕ, zero, suc, ◌+◌, ◌<◌, ◌≡◌, ◌≢◌, refl, ap, ◌∙◌, Bool, ◌||◌, List, [], ◌∷◌, map, some, none,
  length, contains, arith,
}
use graph_accelerator.Bfs.Graph.{
  Vertex, Graph, max_over, get_max_idx, new_vertices, add_row, add_rows, set_degrees, new_graph,
}
use graph_accelerator.Bfs.Graph.Links.{
  outs, ins, vertex_at, IsLinked, IsLinked-new_vertices, contains-outs_new,
}
use graph_accelerator.Bfs.Graph.Rows.{any_states, HavePairs, AreRows-max_over, add_rows_lem}

-- The vertex lists are transposed to one another and inside the graph, and the degrees count them.
pub record IsGraph (g : Graph) : Type 0 where
  pub linked : IsLinked g.vertex_num g.vertices
  pub out_degree : (u : ℕ) → (vertex_at g.vertices u).out_deg ≡ length (outs g.vertices u)
  pub in_degree : (u : ℕ) → (vertex_at g.vertices u).in_deg ≡ length (ins g.vertices u)

length-set_degrees : (vs : List Vertex) → length (map set_degrees vs) ≡ length vs
length-set_degrees [] = refl
length-set_degrees (v ∷ vs) = ap suc (length-set_degrees vs)

outs-set_degrees :
    (vs : List Vertex) (u : ℕ)
    → (outs (map set_degrees vs) u ≡ outs vs u) × (ins (map set_degrees vs) u ≡ ins vs u)
outs-set_degrees [] u = (refl, refl)
outs-set_degrees (v ∷ vs) zero = (refl, refl)
outs-set_degrees (v ∷ vs) (suc u) = outs-set_degrees vs u

degrees-set_degrees :
    (vs : List Vertex) (u : ℕ)
    → ((vertex_at (map set_degrees vs) u).out_deg ≡ length (outs vs u))
      × ((vertex_at (map set_degrees vs) u).in_deg ≡ length (ins vs u))
degrees-set_degrees [] u = (refl, refl)
degrees-set_degrees (v ∷ vs) zero = (refl, refl)
degrees-set_degrees (v ∷ vs) (suc u) = degrees-set_degrees vs u

set_degrees-IsGraph :
    (n e : ℕ) (vs : List Vertex)
    → IsLinked n vs
    → IsGraph (record { vertex_num = n; edge_num = e; vertices = map set_degrees vs })
set_degrees-IsGraph n e vs ok = record {
  linked = record {
    size = length-set_degrees vs ∙ ok.size;
    transposed = λ u v hu hv.
        rw ((outs-set_degrees vs u).0, (outs-set_degrees vs v).1) (ok.transposed u v hu hv);
    out_lt = λ u v hu m. ok.out_lt u v hu (rw (outs-set_degrees vs u).0 at m);
    in_lt = λ u v hv m. ok.in_lt u v hv (rw (outs-set_degrees vs v).1 at m);
  };
  out_degree = λ u. rw ((outs-set_degrees vs u).0) (degrees-set_degrees vs u).0;
  in_degree = λ u. rw ((outs-set_degrees vs u).1) (degrees-set_degrees vs u).1;
}

pub first_number :
    (rows : List (List ℕ))
    → rows ≢ []
    → HavePairs rows
    → (m : ℕ) × (get_max_idx rows ≡ some (max_over m rows))
unfolding get_max_idx
first_number [] ne h = absurd (ne refl)
first_number ([] ∷ rows) ne (len, rest) = absurd (omega arith)
first_number ((x ∷ row) ∷ rows) ne h = (x, refl)

-- From a file with at least one line and two numbers on each, `Graph` reads a well-formed graph that
-- has the edge from `u` to `v` exactly if some line states it.
pub new_graph-IsGraph :
    (is_ugraph : Bool) (rows : List (List ℕ))
    → rows ≢ []
    → HavePairs rows
    → (g : Graph) × (new_graph is_ugraph rows ≡ some g)
      × IsGraph g
      × ((u v : ℕ) → contains v (outs g.vertices u) ≡ any_states is_ugraph u v rows)
unfolding new_graph
new_graph-IsGraph is_ugraph rows ne pairs =
    let (m, top) = first_number rows ne pairs in
    let n = max_over m rows + 1 in
    let (ws, e, linked, all) =
      add_rows_lem is_ugraph n (new_vertices n 0) rows (IsLinked-new_vertices n)
        (AreRows-max_over m n rows pairs (omega arith)) in
    (
      record { vertex_num = n; edge_num = length rows; vertices = map set_degrees ws },
      rw (top, e),
      set_degrees-IsGraph n (length rows) ws linked,
      λ u v.
          rw ((outs-set_degrees ws u).0)
            (all u v ∙ ap (λ t. t || any_states is_ugraph u v rows) (contains-outs_new n u v)),
    )

-- An empty file, or a first line of fewer than two numbers, is read out of range.
pub new_graph_fault :
    (is_ugraph : Bool) (row : List ℕ) (rows : List (List ℕ))
    → length row < 2
    → (new_graph is_ugraph [] ≡ none) × (new_graph is_ugraph (row ∷ rows) ≡ none)
unfolding new_graph get_max_idx add_rows add_row
new_graph_fault is_ugraph [] rows h = (refl, refl)
new_graph_fault is_ugraph (x ∷ []) rows h = (refl, refl)
new_graph_fault is_ugraph (x ∷ y ∷ row) rows h = absurd (omega arith)
