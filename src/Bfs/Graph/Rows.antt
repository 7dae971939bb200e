-- ===== src/Bfs/Graph/Rows.antt =====
-- A graph that was read has the edges that the lines of the file state.
use graph_accelerator.Common.{
  ℕ, zero, suc, ◌≤◌, ◌<◌, ◌≡◌, refl, Bool, false, not, ◌||◌, ◌&&◌, ◌==◌, leb, List, [], ◌∷◌, some,
  if◌then◌else◌, length, get_elem?, get_or, contains, inl, inr, Bool-cases, arith,
}
use graph_accelerator.Bfs.Graph.{Vertex, max_in, max_over, link, add_row, add_rows}
use graph_accelerator.Bfs.Graph.Links.{outs, IsLinked, contains-outs-link, IsLinked-link}

-- The first two numbers of a line, where it has them.
abbrev pub row_src : List ℕ → ℕ
row_src row = get_or row 0 0

abbrev pub row_dst : List ℕ → ℕ
row_dst row = get_or row 1 0

-- The line states the edge from `u` to `v`; a line of an undirected graph states both directions.
abbrev pub states : Bool → ℕ → ℕ → List ℕ → Bool
states is_ugraph u v row =
    (u == row_src row && v == row_dst row) || (is_ugraph && u == row_dst row && v == row_src row)

pub any_states : Bool → ℕ → ℕ → List (List ℕ) → Bool
any_states is_ugraph u v [] = false
any_states is_ugraph u v (row ∷ rows) = states is_ugraph u v row || any_states is_ugraph u v rows

-- Every line has two numbers, both below `n`.
abbrev pub AreRows : ℕ → List (List ℕ) → Type 0
AreRows n [] = Unit {0}
AreRows n (row ∷ rows) = (1 < length row) × (row_src row < n) × (row_dst row < n) × AreRows n rows

get_elem?-eq : (row : List ℕ) (i : ℕ) → i < length row → get_elem? row i ≡ some (get_or row i 0)
get_elem?-eq [] i h = absurd (omega arith)
get_elem?-eq (x ∷ row) zero h = refl
get_elem?-eq (x ∷ row) (suc i) h = get_elem?-eq row i (omega arith)

module _ (is_ugraph : Bool) (n : ℕ) where
  -- The vertices after a line.
  abbrev pub row_links : List Vertex → List ℕ → List Vertex
  row_links vs row =
      if is_ugraph && not (row_src row == row_dst row)
      then link (row_dst row) (row_src row) (link (row_src row) (row_dst row) vs)
      else link (row_src row) (row_dst row) vs

  pub add_row_lem :
      (vs : List Vertex) (row : List ℕ)
      → 1 < length row
      → add_row is_ugraph vs row ≡ some (row_links vs row)
  unfolding add_row
  add_row_lem vs row h = rw (get_elem?-eq row 0 (omega arith), get_elem?-eq row 1 (omega arith))

  IsLinked-row_links :
      (vs : List Vertex) (row : List ℕ)
      → IsLinked n vs
      → row_src row < n
      → row_dst row < n
      → IsLinked n (row_links vs row)
        × ((u v : ℕ)
            → contains v (outs (row_links vs row) u)
              ≡ (contains v (outs vs u) || states is_ugraph u v row))
  IsLinked-row_links vs row ok hs hd =
      let first = IsLinked-link n (row_src row) (row_dst row) vs ok hs hd in
      elim (Bool-cases (is_ugraph && not (row_src row == row_dst row))) [
        | inl e ↦ rw e (
          IsLinked-link n (row_dst row) (row_src row) _ first hd hs,
          λ u v. ground (
            arith,
            contains-outs-link n (row_src row) (row_dst row) vs ok hs hd u v,
            contains-outs-link n (row_dst row) (row_src row) _ first hd hs u v,
          ),
        )
        | inr e ↦ rw e (
          first,
          λ u v. ground (arith, contains-outs-link n (row_src row) (row_dst row) vs ok hs hd u v),
        )
      ]

  pub add_rows_lem :
      (vs : List Vertex) (rows : List (List ℕ))
      → IsLinked n vs
      → AreRows n rows
      → (ws : List Vertex) × (add_rows is_ugraph vs rows ≡ some ws)
        × IsLinked n ws
        × ((u v : ℕ)
            → contains v (outs ws u) ≡ (contains v (outs vs u) || any_states is_ugraph u v rows))
  unfolding add_rows any_states
  add_rows_lem vs [] ok h = (vs, refl, ok, λ u v. ground arith)
  add_rows_lem vs (row ∷ rows) ok (len, hs, hd, rest) =
      let (ok', one) = IsLinked-row_links vs row ok hs hd in
      let (ws, e, linked, all) = add_rows_lem (row_links vs row) rows ok' rest in
      (ws, rw (add_row_lem vs row len) e, linked, λ u v. ground (arith, one u v, all u v))

-- `getMaxIdx` bounds every number of every line.
le-max_in : (m : ℕ) (xs : List ℕ) → m ≤ max_in m xs
unfolding max_in
le-max_in m [] = omega arith
le-max_in m (x ∷ xs) = ground (arith, le-max_in (if leb m x then x else m) xs)

get_or-le-max_in : (m : ℕ) (xs : List ℕ) (i : ℕ) → i < length xs → get_or xs i 0 ≤ max_in m xs
unfolding max_in
get_or-le-max_in m [] i h = absurd (omega arith)
get_or-le-max_in m (x ∷ xs) zero h = ground (arith, le-max_in (if leb m x then x else m) xs)
get_or-le-max_in m (x ∷ xs) (suc i) h =
    get_or-le-max_in (if leb m x then x else m) xs i (omega arith)

le-max_over : (m : ℕ) (rows : List (List ℕ)) → m ≤ max_over m rows
unfolding max_over
le-max_over m [] = omega arith
le-max_over m (row ∷ rows) = omega (arith, le-max_in m row, le-max_over (max_in m row) rows)

-- Every line has two numbers.
abbrev pub HavePairs : List (List ℕ) → Type 0
HavePairs [] = Unit {0}
HavePairs (row ∷ rows) = (1 < length row) × HavePairs rows

pub AreRows-max_over :
    (m n : ℕ) (rows : List (List ℕ)) → HavePairs rows → max_over m rows < n → AreRows n rows
unfolding max_over
AreRows-max_over m n [] h le = tt
AreRows-max_over m n (row ∷ rows) (len, rest) le =
    let top = le-max_over (max_in m row) rows in
    let first = get_or-le-max_in m row 0 (omega arith) in
    let second = get_or-le-max_in m row 1 (omega arith) in
    (len, omega arith, omega arith, AreRows-max_over (max_in m row) n rows rest le)
