-- ===== src/Bfs/TopDown/Round.antt =====
-- One round of `tdBfs` advances the depths by one level.
use graph_accelerator.Common.{
  ℕ, zero, suc, ◌<◌, ◌≡◌, refl, sym, ap, ◌∙◌, true, List, [], ◌∷◌, ◌++◌, ℤ, if◌then◌else◌, length,
  for_range, slice, contains, any-intro, any-elim, contains-append, contains-select, inl, inr,
  for_range-select, Bool-eq, Bool-cases, ◌==◌, arith,
}
use graph_accelerator.Bfs.Csr.{Csr, IsCsr, entry, out_degree, out_ngbs, in_ngbs}
use graph_accelerator.Bfs.Depth.{is_empty, at_level, Search, Sweep}
use graph_accelerator.Bfs.Advance.{
  mark_all, length-mark_all, mark_all-append, depth_at-mark_all, advance, advance-eq, has_parent,
}
use graph_accelerator.Bfs.Levels.{level_set}
use graph_accelerator.Bfs.TopDown.{
  Scan, td_scan_at, td_scan, visit_out, expand_out, expand_frontier, td_round,
}

td_scan-frontier : (c : Csr) (s : Search) → (td_scan c s).frontier ≡ level_set c s.level s.depth
unfolding td_scan
td_scan-frontier c s =
    for_range-select (λ (t : Scan). t.frontier) (at_level s.level s.depth) (td_scan_at s) push _ 0 _
  where
    push :
        (k : ℕ) (t : Scan)
        → (td_scan_at s k t).frontier
          ≡ (if at_level s.level s.depth k then t.frontier ++ k ∷ [] else t.frontier)
    push k t = unfold td_scan_at in ground arith

visit_out_loop :
    (c : Csr) (level n i : ℕ) (s : Sweep)
    → (for_range n i (visit_out c level) s).depth ≡ mark_all level s.depth (slice c.ciao i n)
unfolding for_range visit_out mark_all slice
visit_out_loop c level zero i s = refl
visit_out_loop c level (suc n) i s =
    visit_out_loop c level n (suc i) (visit_out c level i s)
    ∙ ap (λ d. mark_all level d (slice c.ciao (suc i) n)) (ground arith)

-- The targets of the edges out of some vertices.
unfoldable pub all_out : Csr → List ℕ → List ℕ
all_out c [] = []
all_out c (u ∷ us) = out_ngbs c u ++ all_out c us

pub expand_frontier-depth :
    (c : Csr) (level : ℕ) (s : Sweep) (us : List ℕ)
    → (expand_frontier c level s us).depth ≡ mark_all level s.depth (all_out c us)
unfolding expand_frontier mark_all all_out
expand_frontier-depth c level s [] = refl
expand_frontier-depth c level s (u ∷ us) =
    expand_frontier-depth c level (expand_out c level s u) us
    ∙ ap (λ d. mark_all level d (all_out c us)) (first s)
    ∙ mark_all-append level s.depth (out_ngbs c u) (all_out c us)
  where
    first : (t : Sweep) → (expand_out c level t u).depth ≡ mark_all level t.depth (out_ngbs c u)
    first t = unfold expand_out in visit_out_loop c level (out_degree c u) (entry c.rpao u) _

pub all_out-intro :
    (c : Csr) (us : List ℕ) (u v : ℕ)
    → contains u us ≡ true
    → contains v (out_ngbs c u) ≡ true
    → contains v (all_out c us) ≡ true
unfolding all_out contains
all_out-intro c [] u v m e = cc
all_out-intro c (w ∷ us) u v m e = elim (Bool-cases (u == w)) [
  | inl q ↦
      let same : u ≡ w = ground arith in
      rw (contains-append v (out_ngbs c w) (all_out c us), ← same, e)
  | inr q ↦ ground (arith, contains-append v (out_ngbs c w) (all_out c us), all_out-intro c us u v)
]

pub all_out-elim :
    (c : Csr) (us : List ℕ) (v : ℕ)
    → contains v (all_out c us) ≡ true
    → (u : ℕ) × (contains u us ≡ true) × (contains v (out_ngbs c u) ≡ true)
unfolding all_out contains
all_out-elim c [] v e = cc
all_out-elim c (w ∷ us) v e = elim (Bool-cases (contains v (out_ngbs c w))) [
  | inl q ↦ (w, ground arith, q)
  | inr q ↦
      let (u, m, p) =
        all_out-elim c us v (ground (arith, contains-append v (out_ngbs c w) (all_out c us))) in
      (u, ground arith, p)
]

-- The targets of the level's edges are the vertices with a parent at the level.
pub all_out-has_parent :
    (c : Csr) (level : ℕ) (d : List ℤ) (v : ℕ)
    → IsCsr c
    → v < c.v_num
    → contains v (all_out c (level_set c level d)) ≡ has_parent c level d v
all_out-has_parent c level d v ok h = Bool-eq _ _ forth back
  where
    forth : contains v (all_out c (level_set c level d)) ≡ true → has_parent c level d v ≡ true
    forth e =
        let (u, m, p) = all_out-elim c (level_set c level d) v e in
        let (_, lt, at) = (contains-select c.v_num 0 u (at_level level d)).0 m in
        any-intro (at_level level d) u (in_ngbs c v) (sym (ok.transposed u v (omega arith) h) ∙ p)
          at

    back : has_parent c level d v ≡ true → contains v (all_out c (level_set c level d)) ≡ true
    back e =
        let (u, m, at) = any-elim (at_level level d) (in_ngbs c v) e in
        let lt = ok.in_lt u v h m in
        all_out-intro c (level_set c level d) u v
          ((contains-select c.v_num 0 u (at_level level d)).1 (omega arith, omega arith, at))
          (ok.transposed u v lt h ∙ m)

-- Marking the targets of the level's edges is the advance by one level.
pub mark_all-level_set :
    (c : Csr) (level : ℕ) (d : List ℤ) (us : List ℕ)
    → IsCsr c
    → length d ≡ c.v_num
    → ((v : ℕ)
        → v < c.v_num
        → contains v (all_out c us) ≡ contains v (all_out c (level_set c level d)))
    → mark_all level d (all_out c us) ≡ advance c level d
mark_all-level_set c level d us ok n same =
    advance-eq c level d (mark_all level d (all_out c us))
      (length-mark_all level d (all_out c us) ∙ n)
      λ v h.
        depth_at-mark_all level d (all_out c us) v (omega arith)
        ∙ rw (same v h, all_out-has_parent c level d v ok h)

-- One round of `tdBfs`: the depths advance, and the loop stops if no vertex is at the level.
pub td_round-advance :
    (c : Csr) (s : Search)
    → IsCsr c
    → length s.depth ≡ c.v_num
    → ((td_round c s).0.depth ≡ advance c s.level s.depth)
      × ((td_round c s).0.level ≡ suc s.level)
      × ((td_round c s).1 ≡ is_empty (level_set c s.level s.depth))
unfolding td_round
td_round-advance c s ok n = (
  expand_frontier-depth c s.level _ (td_scan c s).frontier
      ∙ ap (λ us. mark_all s.level s.depth (all_out c us)) (td_scan-frontier c s)
      ∙ mark_all-level_set c s.level s.depth _ ok n (λ v h. refl),
  refl,
  ap is_empty (td_scan-frontier c s),
)
