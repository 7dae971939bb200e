-- ===== src/Bfs/BottomUp/Round.antt =====
-- One round of `buBfs` advances the depths by one level.
use graph_accelerator.Common.{
  ℕ, zero, suc, ◌+◌, ◌<◌, ◌≡◌, refl, ap, ◌∙◌, true, false, ◌||◌, List, [], ◌∷◌, ◌++◌, ℤ, pos,
  if◌then◌else◌, length, set, slice, contains, any, select, contains-select, inl, inr,
  for_range-select, Bool-eq, Bool-cases, ◌==◌, arith,
}
use graph_accelerator.Bfs.Csr.{Csr, entry, in_degree}
use graph_accelerator.Bfs.Depth.{at_level, unvisited, Search, is_empty}
use graph_accelerator.Bfs.Advance.{
  adopt, adopt_all, length-adopt_all, depth_at-adopt_all, advance, advance-eq, has_parent,
}
use graph_accelerator.Bfs.BottomUp.{
  Scan, Adoption, bu_scan_at, bu_scan, find_parent, adopt_vertex, adopt_frontier, bu_round,
}

-- The unvisited vertices, in order.
abbrev pub unvisited_set : Csr → List ℤ → List ℕ
unvisited_set c d = select c.v_num 0 (unvisited d)

bu_scan-frontier : (c : Csr) (s : Search) → (bu_scan c s).frontier ≡ unvisited_set c s.depth
unfolding bu_scan
bu_scan-frontier c s =
    for_range-select (λ (t : Scan). t.frontier) (unvisited s.depth) (bu_scan_at s) push c.v_num 0 _
  where
    push :
        (k : ℕ) (t : Scan)
        → (bu_scan_at s k t).frontier
          ≡ (if unvisited s.depth k then t.frontier ++ k ∷ [] else t.frontier)
    push k t = unfold bu_scan_at in ground arith

-- The inner loop finds a neighbour at the level exactly if there is one, and counts that.
find_parent_lem :
    (c : Csr) (level v n i : ℕ) (s : Adoption)
    → let found = any (at_level level s.depth) (slice c.ciai i n) in
      ((find_parent c level v n i s).depth
        ≡ (if found then set s.depth v (pos (suc level)) else s.depth))
      × ((find_parent c level v n i s).visited ≡ (if found then s.visited + 1 else s.visited))
unfolding find_parent any slice
find_parent_lem c level v zero i s = (refl, refl)
find_parent_lem c level v (suc n) i s =
    elim (Bool-cases (at_level level s.depth (entry c.ciai i))) [
      | inl e ↦ rw e (refl, refl)
      | inr e ↦ rw e (find_parent_lem c level v n (suc i) _)
    ]

pub adopt_vertex_lem :
    (c : Csr) (level : ℕ) (s : Adoption) (v : ℕ)
    → ((adopt_vertex c level s v).depth ≡ adopt c level s.depth v)
      × ((adopt_vertex c level s v).visited
          ≡ s.visited + (if has_parent c level s.depth v then 1 else 0))
unfolding adopt_vertex
adopt_vertex_lem c level s v =
    let (d, n) = find_parent_lem c level v (in_degree c v) (entry c.rpai v) _ in
    (d, n ∙ ground arith)

-- The number of vertices that have a parent when their turn comes.
unfoldable pub adopted : Csr → ℕ → List ℤ → List ℕ → ℕ
adopted c level d [] = 0
adopted c level d (v ∷ vs) =
    (if has_parent c level d v then 1 else 0) + adopted c level (adopt c level d v) vs

pub adopt_frontier_lem :
    (c : Csr) (level : ℕ) (s : Adoption) (vs : List ℕ)
    → ((adopt_frontier c level s vs).depth ≡ adopt_all c level s.depth vs)
      × ((adopt_frontier c level s vs).visited ≡ s.visited + adopted c level s.depth vs)
unfolding adopt_frontier adopt_all adopted
adopt_frontier_lem c level s [] = (refl, omega arith)
adopt_frontier_lem c level s (v ∷ vs) =
    let (d, n) = adopt_vertex_lem c level s v in
    let (ds, ns) = adopt_frontier_lem c level (adopt_vertex c level s v) vs in
    (
      ds ∙ ap (λ e. adopt_all c level e vs) d,
      ns ∙ ap (λ e. (adopt_vertex c level s v).visited + adopted c level e vs) d ∙ omega arith,
    )

pub adopted-zero :
    (c : Csr) (level : ℕ) (d : List ℤ) (vs : List ℕ)
    → adopted c level d vs ≡ 0
    → (v : ℕ) → contains v vs ≡ true
    → has_parent c level d v ≡ false
unfolding adopted contains
adopted-zero c level d [] e v m = cc
adopted-zero c level d (u ∷ us) e v m = elim (Bool-cases (has_parent c level d u)) [
  | inl p ↦ absurd (let e' = rw p at e in omega arith)
  | inr p ↦
      let rest = adopted-zero c level d us (let e' = rw p at e in omega arith) v in
      elim (Bool-cases (v == u)) [
        | inl q ↦ let same : v ≡ u = ground arith in rw (same, p)
        | inr q ↦ rest (ground arith)
      ]
]

pub adopted_none :
    (c : Csr) (level : ℕ) (d : List ℤ) (vs : List ℕ)
    → ((v : ℕ) → contains v vs ≡ true → has_parent c level d v ≡ false)
    → adopted c level d vs ≡ 0
unfolding adopted contains
adopted_none c level d [] none = refl
adopted_none c level d (u ∷ us) none =
    rw (none u (ground arith))
      (let rest = adopted_none c level d us (λ v m. none v (ground arith)) in omega arith)

contains-unvisited_set :
    (c : Csr) (d : List ℤ) (v : ℕ) → v < c.v_num → contains v (unvisited_set c d) ≡ unvisited d v
contains-unvisited_set c d v h =
    Bool-eq _ _ (λ m. ((contains-select c.v_num 0 v (unvisited d)).0 m).2)
      (λ at. (contains-select c.v_num 0 v (unvisited d)).1 (omega arith, omega arith, at))

pub unvisited_set-away :
    (c : Csr) (level : ℕ) (d : List ℤ)
    → length d ≡ c.v_num
    → (u : ℕ) → contains u (unvisited_set c d) ≡ true
    → (u < length d) × (at_level level d u ≡ false)
unvisited_set-away c level d n u m =
    let (_, lt, new) = (contains-select c.v_num 0 u (unvisited d)).0 m in
    (omega arith, ground arith)

-- Adopting the unvisited vertices is the advance by one level.
pub adopt_all-unvisited_set :
    (c : Csr) (level : ℕ) (d : List ℤ)
    → length d ≡ c.v_num
    → adopt_all c level d (unvisited_set c d) ≡ advance c level d
adopt_all-unvisited_set c level d n =
    advance-eq c level d (adopt_all c level d (unvisited_set c d))
      (length-adopt_all c level d (unvisited_set c d) ∙ n)
      λ v h.
        depth_at-adopt_all c level d (unvisited_set c d) v (unvisited_set-away c level d n)
          (omega arith)
        ∙ rw (contains-unvisited_set c d v h)

-- One round of `buBfs`: the depths advance, and the loop stops if no vertex is unvisited or none of
-- those has a parent.
pub bu_round-advance :
    (c : Csr) (s : Search)
    → length s.depth ≡ c.v_num
    → ((bu_round c s).0.depth ≡ advance c s.level s.depth)
      × ((bu_round c s).1 ≡ (
          is_empty (unvisited_set c s.depth)
          || adopted c s.level s.depth (unvisited_set c s.depth) == 0))
unfolding bu_round
bu_round-advance c s n =
    let (d, k) =
      adopt_frontier_lem c s.level
        (record { depth = s.depth; visited = 0; stats = (bu_scan c s).stats })
        (bu_scan c s).frontier in
    (
      d
          ∙ ap (adopt_all c s.level s.depth) (bu_scan-frontier c s)
          ∙ adopt_all-unvisited_set c s.level s.depth n,
      rw (k, bu_scan-frontier c s) (ground arith),
    )
