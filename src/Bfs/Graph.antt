-- ===== src/Bfs/Graph.antt =====
-- The adjacency lists of class `Graph`, bfs/graph.h and bfs/graph.cpp: `Graph::Graph` after
-- `loadFile`, whose result, a list of numbers for each line of the file, is an argument, as is
-- whether the file's name holds `ungraph`. The numbers are taken to be non-negative.
pub mod Links
pub mod Rows
pub mod Read
pub mod Totals
use graph_accelerator.Common.{
  ℕ, zero, suc, ◌+◌, Bool, true, false, not, ◌&&◌, ◌==◌, leb, List, [], ◌∷◌, ◌++◌, map, Option,
  none, some, if◌then◌else◌, length, get_elem?, for_range,
}

pub record Vertex : Type 0 where
  pub idx : ℕ
  pub in_deg : ℕ
  pub out_deg : ℕ
  pub in_vid : List ℕ
  pub out_vid : List ℕ

pub record Graph : Type 0 where
  pub vertex_num : ℕ
  pub edge_num : ℕ
  pub vertices : List Vertex

infixl 5 ◌>>=◌
abbrev ◌>>=◌ {ℓ κ} : {A : Type ℓ} {B : Type κ} → Option A → (A → Option B) → Option B
none >>= f = none
some a >>= f = f a

-- The loops of `getMaxIdx` and `getMinIdx` over one line.
max_in : ℕ → List ℕ → ℕ
max_in m [] = m
max_in m (x ∷ xs) = max_in (if leb m x then x else m) xs

min_in : ℕ → List ℕ → ℕ
min_in m [] = m
min_in m (x ∷ xs) = min_in (if leb x m then x else m) xs

pub max_over : ℕ → List (List ℕ) → ℕ
max_over m [] = m
max_over m (row ∷ rows) = max_over (max_in m row) rows

pub min_over : ℕ → List (List ℕ) → ℕ
min_over m [] = m
min_over m (row ∷ rows) = min_over (min_in m row) rows

-- `none` is the read of `data[0][0]` out of range.
pub get_max_idx : List (List ℕ) → Option ℕ
get_max_idx rows = do row ← get_elem? rows 0; m ← get_elem? row 0; some (max_over m rows)

pub get_min_idx : List (List ℕ) → Option ℕ
get_min_idx rows = do row ← get_elem? rows 0; m ← get_elem? row 0; some (min_over m rows)

-- `new Vertex(i)`; the degrees are set after the edges.
abbrev pub new_vertex : ℕ → Vertex
new_vertex i = record { idx = i; in_deg = 0; out_deg = 0; in_vid = []; out_vid = [] }

unfoldable pub new_vertices : ℕ → ℕ → List Vertex
new_vertices zero i = []
new_vertices (suc n) i = new_vertex i ∷ new_vertices n (suc i)

-- Work on `*vertices[i]`.
unfoldable pub modify : List Vertex → ℕ → (Vertex → Vertex) → List Vertex
modify [] i f = []
modify (v ∷ vs) zero f = f v ∷ vs
modify (v ∷ vs) (suc i) f = v ∷ modify vs i f

abbrev pub push_out_vid : ℕ → Vertex → Vertex
push_out_vid x v = record v { out_vid = v.out_vid ++ x ∷ [] }

abbrev pub push_in_vid : ℕ → Vertex → Vertex
push_in_vid x v = record v { in_vid = v.in_vid ++ x ∷ [] }

-- `vertices[src]->outVid.push_back(dst); vertices[dst]->inVid.push_back(src);`
unfoldable pub link : ℕ → ℕ → List Vertex → List Vertex
link src dst vs = modify (modify vs src (push_out_vid dst)) dst (push_in_vid src)

-- One line of the file. `none` is a read of the line out of range.
unfoldable pub add_row : Bool → List Vertex → List ℕ → Option (List Vertex)
add_row is_ugraph vs row = do
  src ← get_elem? row 0
  dst ← get_elem? row 1
  some (if is_ugraph && not (src == dst) then link dst src (link src dst vs) else link src dst vs)

pub add_rows : Bool → List Vertex → List (List ℕ) → Option (List Vertex)
add_rows is_ugraph vs [] = some vs
add_rows is_ugraph vs (row ∷ rows) = do ws ← add_row is_ugraph vs row; add_rows is_ugraph ws rows

-- `(*it)->inDeg = inVid.size(); (*it)->outDeg = outVid.size();`
abbrev pub set_degrees : Vertex → Vertex
set_degrees v = record v { in_deg = length v.in_vid; out_deg = length v.out_vid }

unfoldable pub new_graph : Bool → List (List ℕ) → Option Graph
new_graph is_ugraph rows = do
  max_idx ← get_max_idx rows
  vs ← add_rows is_ugraph (new_vertices (max_idx + 1) 0) rows
  some (record { vertex_num = max_idx + 1; edge_num = length rows; vertices = map set_degrees vs })
