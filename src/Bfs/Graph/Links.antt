-- ===== src/Bfs/Graph/Links.antt =====
-- The vertex lists stay transposed to one another and inside the graph as edges are added.
use graph_accelerator.Common.{
  ℕ, zero, suc, ◌<◌, ◌≡◌, refl, sym, ap, ◌∙◌, true, false, ◌||◌, ◌&&◌, ◌==◌, List, [], ◌∷◌, ◌++◌,
  if◌then◌else◌, length, get_or, contains, contains-concat, arith,
}
use graph_accelerator.Bfs.Graph.{
  Vertex, new_vertex, new_vertices, modify, push_out_vid, push_in_vid, link,
}

-- `*vertices[i]`; the invariant bounds the indices, so the default is never seen.
abbrev pub vertex_at : List Vertex → ℕ → Vertex
vertex_at vs i = get_or vs i (new_vertex 0)

abbrev pub outs : List Vertex → ℕ → List ℕ
outs vs u = (vertex_at vs u).out_vid

abbrev pub ins : List Vertex → ℕ → List ℕ
ins vs u = (vertex_at vs u).in_vid

pub length-modify :
    (vs : List Vertex) (i : ℕ) (f : Vertex → Vertex) → length (modify vs i f) ≡ length vs
unfolding modify
length-modify [] i f = refl
length-modify (v ∷ vs) zero f = refl
length-modify (v ∷ vs) (suc i) f = ap suc (length-modify vs i f)

vertex_at-modify :
    (vs : List Vertex) (i u : ℕ) (f : Vertex → Vertex)
    → i < length vs
    → vertex_at (modify vs i f) u ≡ (if u == i then f (vertex_at vs u) else vertex_at vs u)
unfolding modify
vertex_at-modify [] i u f h = absurd (omega arith)
vertex_at-modify (v ∷ vs) zero zero f h = refl
vertex_at-modify (v ∷ vs) zero (suc u) f h = ground arith
vertex_at-modify (v ∷ vs) (suc i) zero f h = ground arith
vertex_at-modify (v ∷ vs) (suc i) (suc u) f h =
    vertex_at-modify vs i u f (omega arith) ∙ ground arith

pub length-link : (src dst : ℕ) (vs : List Vertex) → length (link src dst vs) ≡ length vs
unfolding link
length-link src dst vs = length-modify _ dst _ ∙ length-modify vs src _

pub link_lem :
    (src dst : ℕ) (vs : List Vertex) (u : ℕ)
    → src < length vs
    → dst < length vs
    → (outs (link src dst vs) u ≡ (if u == src then outs vs u ++ dst ∷ [] else outs vs u))
      × (ins (link src dst vs) u ≡ (if u == dst then ins vs u ++ src ∷ [] else ins vs u))
unfolding link
link_lem src dst vs u hs hd =
    let size = length-modify vs src (push_out_vid dst) in
    let second =
      vertex_at-modify (modify vs src (push_out_vid dst)) dst u (push_in_vid src) (omega arith) in
    let first = vertex_at-modify vs src u (push_out_vid dst) hs in
    let both = second ∙ ap (λ w. if u == dst then push_in_vid src w else w) first in
    (
      ap (λ (w : Vertex). w.out_vid) both ∙ ground arith,
      ap (λ (w : Vertex). w.in_vid) both ∙ ground arith,
    )

-- `u → v` is listed at `u` if and only if it is listed at `v`, and no list leaves the graph.
pub record IsLinked (n : ℕ) (vs : List Vertex) : Type 0 where
  pub size : length vs ≡ n
  pub transposed : (u v : ℕ) → u < n → v < n → contains v (outs vs u) ≡ contains u (ins vs v)
  pub out_lt : (u v : ℕ) → u < n → contains v (outs vs u) ≡ true → v < n
  pub in_lt : (u v : ℕ) → v < n → contains u (ins vs v) ≡ true → u < n

module _ (n src dst : ℕ) (vs : List Vertex) (ok : IsLinked n vs) (hs : src < n) (hd : dst < n) where
  -- The edges after `link` are those before and the one from `src` to `dst`.
  pub contains-outs-link :
      (u v : ℕ)
      → contains v (outs (link src dst vs) u) ≡ (contains v (outs vs u) || (u == src && v == dst))
  contains-outs-link u v =
      let size = ok.size in
      let (o, _) = link_lem src dst vs u (omega arith) (omega arith) in
      rw o (ground (arith, contains-concat v dst (outs vs u)))

  contains-ins-link :
      (u v : ℕ)
      → contains v (ins (link src dst vs) u) ≡ (contains v (ins vs u) || (u == dst && v == src))
  contains-ins-link u v =
      let size = ok.size in
      let (_, i) = link_lem src dst vs u (omega arith) (omega arith) in
      rw i (ground (arith, contains-concat v src (ins vs u)))

  pub IsLinked-link : IsLinked n (link src dst vs)
  IsLinked-link = record {
    size = length-link src dst vs ∙ ok.size;
    transposed = λ u v hu hv.
        ground (arith, contains-outs-link u v, contains-ins-link v u, ok.transposed u v hu hv);
    out_lt = λ u v hu m. ground (arith, contains-outs-link u v, ok.out_lt u v hu);
    in_lt = λ u v hv m. ground (arith, contains-ins-link v u, ok.in_lt u v hv);
  }

vertex_at-new_vertices :
    (n i u : ℕ) → (outs (new_vertices n i) u ≡ []) × (ins (new_vertices n i) u ≡ [])
unfolding new_vertices
vertex_at-new_vertices zero i u = (refl, refl)
vertex_at-new_vertices (suc n) i zero = (refl, refl)
vertex_at-new_vertices (suc n) i (suc u) = vertex_at-new_vertices n (suc i) u

length-new_vertices : (n i : ℕ) → length (new_vertices n i) ≡ n
unfolding new_vertices
length-new_vertices zero i = refl
length-new_vertices (suc n) i = ap suc (length-new_vertices n (suc i))

pub contains-outs_new : (n u v : ℕ) → contains v (outs (new_vertices n 0) u) ≡ false
contains-outs_new n u v = rw (vertex_at-new_vertices n 0 u).0 (unfold contains in refl)

contains-ins_new : (n u v : ℕ) → contains v (ins (new_vertices n 0) u) ≡ false
contains-ins_new n u v = rw (vertex_at-new_vertices n 0 u).1 (unfold contains in refl)

pub IsLinked-new_vertices : (n : ℕ) → IsLinked n (new_vertices n 0)
IsLinked-new_vertices n = record {
  size = length-new_vertices n 0;
  transposed = λ u v hu hv. contains-outs_new n u v ∙ sym (contains-ins_new n v u);
  out_lt = λ u v hu m. cc (contains-outs_new n u v);
  in_lt = λ u v hv m. cc (contains-ins_new n v u);
}
