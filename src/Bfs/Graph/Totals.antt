-- ===== src/Bfs/Graph/Totals.antt =====
-- How many edges the vertex lists of `Graph::Graph` hold, of bfs/graph.cpp and of src/graph.cpp.
use graph_accelerator.Common.{
  ℕ, zero, suc, ◌+◌, ◌*◌, ◌<◌, ◌≡◌, refl, ap, ◌∙◌, Bool, true, false, not, ◌&&◌, ◌==◌, List, [],
  ◌∷◌, map, some, if◌then◌else◌, length, length-append, arith, Bool-cases, inl, inr,
}
use graph_accelerator.Bfs.Graph.{
  Vertex, new_vertices, modify, push_out_vid, push_in_vid, link, add_rows, set_degrees,
}
use graph_accelerator.Bfs.Graph.Links.{vertex_at, length-modify, length-link}
use graph_accelerator.Bfs.Graph.Rows.{AreRows, row_src, row_dst, row_links, add_row_lem}
use graph_accelerator.Bfs.CsrBuild.Slices.{sum_below}

-- The sum over the vertices.
unfoldable pub total : (Vertex → ℕ) → List Vertex → ℕ
total f [] = 0
total f (v ∷ vs) = f v + total f vs

sum_below-cons : (f : ℕ → ℕ) (n : ℕ) → sum_below f (suc n) ≡ f 0 + sum_below (λ i. f (suc i)) n
unfolding sum_below
sum_below-cons f zero = omega arith
sum_below-cons f (suc n) = let e = sum_below-cons f n in omega (arith, e)

pub sum_below-total :
    (f : Vertex → ℕ) (vs : List Vertex)
    → sum_below (λ i. f (vertex_at vs i)) (length vs) ≡ total f vs
unfolding sum_below total
sum_below-total f [] = refl
sum_below-total f (v ∷ vs) =
    sum_below-cons (λ i. f (vertex_at (v ∷ vs) i)) (length vs)
    ∙ ap (λ n. f v + n) (sum_below-total f vs)

total-modify :
    (f : Vertex → ℕ) (g : Vertex → Vertex) (k : ℕ)
    → ((v : Vertex) → f (g v) ≡ f v + k)
    → (vs : List Vertex) (i : ℕ) → i < length vs
    → total f (modify vs i g) ≡ total f vs + k
unfolding total modify
total-modify f g k h [] i lt = absurd (omega arith)
total-modify f g k h (v ∷ vs) zero lt = let e = h v in omega (arith, e)
total-modify f g k h (v ∷ vs) (suc i) lt =
    let e = total-modify f g k h vs i (omega arith) in omega (arith, e)

-- The number of edges out of a vertex, and into it.
abbrev pub outs_of : Vertex → ℕ
outs_of v = length v.out_vid

abbrev pub ins_of : Vertex → ℕ
ins_of v = length v.in_vid

total-link :
    (src dst : ℕ) (vs : List Vertex)
    → src < length vs
    → dst < length vs
    → (total outs_of (link src dst vs) ≡ total outs_of vs + 1)
      × (total ins_of (link src dst vs) ≡ total ins_of vs + 1)
unfolding link
total-link src dst vs hs hd =
    let n = length-modify vs src (push_out_vid dst) in
    let hd' : dst < length (modify vs src (push_out_vid dst)) = omega (arith, n, hd) in
    let o1 =
      total-modify outs_of (push_out_vid dst) 1 (λ v. length-append v.out_vid (dst ∷ [])) vs src
        hs in
    let i1 = total-modify ins_of (push_out_vid dst) 0 (λ v. omega arith) vs src hs in
    let o2 =
      total-modify outs_of (push_in_vid src) 0 (λ v. omega arith) (modify vs src (push_out_vid dst))
        dst hd' in
    let i2 =
      total-modify ins_of (push_in_vid src) 1 (λ v. length-append v.in_vid (src ∷ []))
        (modify vs src (push_out_vid dst)) dst hd' in
    (omega (arith, o1, o2), omega (arith, i1, i2))

-- The lines that state an edge from a vertex to itself.
unfoldable pub loops : List (List ℕ) → ℕ
loops [] = 0
loops (row ∷ rows) = (if row_src row == row_dst row then 1 else 0) + loops rows

-- The edges that the lines bring: an undirected edge counts twice, but not from a vertex to itself.
unfoldable pub edges_of : Bool → List (List ℕ) → ℕ
edges_of is_ugraph [] = 0
edges_of is_ugraph (row ∷ rows) =
    (if is_ugraph && not (row_src row == row_dst row) then 2 else 1) + edges_of is_ugraph rows

pub edges_of-loops :
    (is_ugraph : Bool) (rows : List (List ℕ))
    → edges_of is_ugraph rows + (if is_ugraph then loops rows else 0)
      ≡ (if is_ugraph then length rows * 2 else length rows)
unfolding edges_of loops
edges_of-loops true [] = refl
edges_of-loops false [] = refl
edges_of-loops true (row ∷ rows) = ground (arith, edges_of-loops true rows)
edges_of-loops false (row ∷ rows) = ground (arith, edges_of-loops false rows)

module _ (is_ugraph : Bool) (n : ℕ) where
  total-row_links :
      (vs : List Vertex) (row : List ℕ)
      → length vs ≡ n
      → row_src row < n
      → row_dst row < n
      → (total outs_of (row_links is_ugraph n vs row)
          ≡ total outs_of vs + (if is_ugraph && not (row_src row == row_dst row) then 2 else 1))
        × (total ins_of (row_links is_ugraph n vs row)
            ≡ total ins_of vs + (if is_ugraph && not (row_src row == row_dst row) then 2 else 1))
        × (length (row_links is_ugraph n vs row) ≡ n)
  total-row_links vs row size hs hd =
      let one = link (row_src row) (row_dst row) vs in
      let len = length-link (row_src row) (row_dst row) vs in
      let (o1, i1) = total-link (row_src row) (row_dst row) vs (omega arith) (omega arith) in
      let (o2, i2) = total-link (row_dst row) (row_src row) one (omega arith) (omega arith) in
      let len2 = length-link (row_dst row) (row_src row) one in
      elim (Bool-cases (is_ugraph && not (row_src row == row_dst row))) [
        | inl e ↦
            rw e (omega (arith, o1, o2), omega (arith, i1, i2), omega (arith, len, len2, size))
        | inr e ↦ rw e (o1, i1, len ∙ size)
      ]

  pub total-add_rows :
      (vs : List Vertex) (rows : List (List ℕ))
      → length vs ≡ n
      → AreRows n rows
      → (ws : List Vertex) × (add_rows is_ugraph vs rows ≡ some ws)
        × (total outs_of ws ≡ total outs_of vs + edges_of is_ugraph rows)
        × (total ins_of ws ≡ total ins_of vs + edges_of is_ugraph rows)
        × (length ws ≡ n)
  unfolding add_rows edges_of
  total-add_rows vs [] size h = (vs, refl, omega arith, omega arith, size)
  total-add_rows vs (row ∷ rows) size (len, hs, hd, rest) =
      let (o, i, size') = total-row_links vs row size hs hd in
      let (ws, e, o', i', size'') = total-add_rows (row_links is_ugraph n vs row) rows size' rest in
      (
        ws,
        rw (add_row_lem is_ugraph n vs row len) e,
        omega (arith, o, o'),
        omega (arith, i, i'),
        size'',
      )

pub total-set_degrees :
    (vs : List Vertex)
    → (total outs_of (map set_degrees vs) ≡ total outs_of vs)
      × (total ins_of (map set_degrees vs) ≡ total ins_of vs)
      × (length (map set_degrees vs) ≡ length vs)
unfolding total
total-set_degrees [] = (refl, refl, refl)
total-set_degrees (v ∷ vs) =
    let (o, i, n) = total-set_degrees vs in
    (ap (λ m. length v.out_vid + m) o, ap (λ m. length v.in_vid + m) i, ap suc n)

pub total-new_vertices :
    (n i : ℕ)
    → (total outs_of (new_vertices n i) ≡ 0)
      × (total ins_of (new_vertices n i) ≡ 0)
      × (length (new_vertices n i) ≡ n)
unfolding total new_vertices
total-new_vertices zero i = (refl, refl, refl)
total-new_vertices (suc n) i =
    let (a, b, c) = total-new_vertices n (suc i) in (omega (arith, a), omega (arith, b), ap suc c)
