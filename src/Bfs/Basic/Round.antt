-- ===== src/Bfs/Basic/Round.antt =====
-- One round of `basicBfs`: the depths advance, and the vertices pushed are those that it wrote.
use graph_accelerator.Common.{
  ℕ, zero, suc, ◌<◌, ◌≡◌, refl, sym, ap, ◌∙◌, true, ◌&&◌, List, [], ◌∷◌, ◌++◌, ℤ, pos,
  if◌then◌else◌, length, for_range, slice, contains, length-set, inl, inr, Bool-cases, Bool-eq,
  contains-select, arith,
}
use mathlib.Core.List.{append_assoc, append-nil}
use graph_accelerator.Bfs.Csr.{Csr, IsCsr, entry, out_degree, out_ngbs}
use graph_accelerator.Bfs.Depth.{at_level, unvisited}
use graph_accelerator.Bfs.Advance.{mark, mark_all, mark_all-append, depth_at-set, advance}
use graph_accelerator.Bfs.Basic.{Basic, Push, push_out, push_vertex, push_frontier, basic_round}
use graph_accelerator.Bfs.Levels.{level_set, contains-level_set}
use graph_accelerator.Bfs.TopDown.Round.{all_out, all_out-intro, all_out-elim, mark_all-level_set}

-- The pushed vertices: the unvisited ones among the targets, in the order of the first visit.
pub pushed : ℕ → List ℤ → List ℕ → List ℕ
pushed level d [] = []
pushed level d (v ∷ vs) =
    if unvisited d v then v ∷ pushed level (mark level d v) vs else pushed level (mark level d v) vs

pushed-append :
    (level : ℕ) (d : List ℤ) (us vs : List ℕ)
    → pushed level d us ++ pushed level (mark_all level d us) vs ≡ pushed level d (us ++ vs)
unfolding pushed mark_all
pushed-append level d [] vs = refl
pushed-append level d (u ∷ us) vs = ground (arith, pushed-append level (mark level d u) us vs)

-- `t` is `s` after the targets `vs` have been visited.
abbrev Visited : ℕ → Push → List ℕ → Push → Type 0
Visited level s vs t =
    (t.depth ≡ mark_all level s.depth vs) × (t.next ≡ s.next ++ pushed level s.depth vs)

Visited-append :
    (level : ℕ) (s t u : Push) (vs ws : List ℕ)
    → Visited level s vs t
    → Visited level t ws u
    → Visited level s (vs ++ ws) u
Visited-append level s t u vs ws (d, q) (ds, qs) = (
  ds ∙ rw d (mark_all-append level s.depth vs ws),
  qs
      ∙ rw (d, q)
          (append_assoc s.next (pushed level s.depth vs) _
            ∙ ap (λ l. s.next ++ l) (pushed-append level s.depth vs ws)),
)

push_out_lem :
    (c : Csr) (level i : ℕ) (s : Push)
    → Visited level s (entry c.ciao i ∷ []) (push_out c level i s)
unfolding push_out mark_all pushed
push_out_lem c level i s = elim (Bool-cases (unvisited s.depth (entry c.ciao i))) [
  | inl e ↦ rw e (refl, refl)
  | inr e ↦ rw e (refl, sym (append-nil s.next))
]

push_out_loop :
    (c : Csr) (level n i : ℕ) (s : Push)
    → Visited level s (slice c.ciao i n) (for_range n i (push_out c level) s)
unfolding for_range mark_all pushed slice
push_out_loop c level zero i s = (refl, sym (append-nil s.next))
push_out_loop c level (suc n) i s =
    Visited-append level s (push_out c level i s)
      (for_range n (suc i) (push_out c level) (push_out c level i s)) (entry c.ciao i ∷ [])
      (slice c.ciao (suc i) n) (push_out_lem c level i s)
      (push_out_loop c level n (suc i) (push_out c level i s))

push_vertex_lem :
    (c : Csr) (level : ℕ) (s : Push) (u : ℕ)
    → Visited level s (out_ngbs c u) (push_vertex c level s u)
unfolding push_vertex
push_vertex_lem c level s u = push_out_loop c level (out_degree c u) (entry c.rpao u) _

push_frontier_lem :
    (c : Csr) (level : ℕ) (s : Push) (us : List ℕ)
    → Visited level s (all_out c us) (push_frontier c level s us)
unfolding push_frontier mark_all pushed all_out
push_frontier_lem c level s [] = (refl, sym (append-nil s.next))
push_frontier_lem c level s (u ∷ us) =
    Visited-append level s (push_vertex c level s u)
      (push_frontier c level (push_vertex c level s u) us) (out_ngbs c u) (all_out c us)
      (push_vertex_lem c level s u) (push_frontier_lem c level (push_vertex c level s u) us)

-- Only targets are pushed.
pub contains-pushed_target :
    (level : ℕ) (d : List ℤ) (vs : List ℕ) (v : ℕ)
    → contains v (pushed level d vs) ≡ true
    → contains v vs ≡ true
unfolding pushed contains
contains-pushed_target level d [] v m = m
contains-pushed_target level d (u ∷ us) v m =
    ground (arith, contains-pushed_target level (mark level d u) us v)

pub contains-pushed :
    (level : ℕ) (d : List ℤ) (vs : List ℕ) (v : ℕ)
    → v < length d
    → contains v (pushed level d vs) ≡ (unvisited d v && contains v vs)
unfolding pushed contains
contains-pushed level d [] v h = ground arith
contains-pushed level d (u ∷ us) v h = ground (
  arith,
  contains-pushed level (mark level d u) us v,
  length-set d u (pos (suc level)),
  depth_at-set d u v (pos (suc level)),
)

-- The frontier holds the vertices at the level.
pub record IsFrontier (c : Csr) (s : Basic) : Type 0 where
  pub at : (v : ℕ) → v < c.v_num → contains v s.frontier ≡ at_level s.level s.depth v
  pub inside : (v : ℕ) → contains v s.frontier ≡ true → v < c.v_num

module _ (c : Csr) (ok : IsCsr c) (s : Basic) (n : length s.depth ≡ c.v_num)
    (f : IsFrontier c s) where
  pub targets :
      (v : ℕ)
      → v < c.v_num
      → contains v (all_out c s.frontier) ≡ contains v (all_out c (level_set c s.level s.depth))
  targets v h =
      Bool-eq _ _
        (λ m.
          let (u, mu, e) = all_out-elim c s.frontier v m in
          let lt = f.inside u mu in
          all_out-intro c (level_set c s.level s.depth) u v
            (contains-level_set c s.level s.depth u lt ∙ sym (f.at u lt) ∙ mu) e)
        (λ m.
          let (u, mu, e) = all_out-elim c (level_set c s.level s.depth) v m in
          let (_, lt, at) = (contains-select c.v_num 0 u (at_level s.level s.depth)).0 mu in
          all_out-intro c s.frontier u v (f.at u (omega arith) ∙ at) e)

  -- The depths advance.
  pub basic_round-advance : (basic_round c s).depth ≡ advance c s.level s.depth
  unfolding basic_round
  basic_round-advance =
      (push_frontier_lem c s.level _ s.frontier).0
      ∙ mark_all-level_set c s.level s.depth s.frontier ok n targets

  pub basic_round-frontier :
      (basic_round c s).frontier ≡ pushed s.level s.depth (all_out c s.frontier)
  unfolding basic_round
  basic_round-frontier = (push_frontier_lem c s.level _ s.frontier).1
