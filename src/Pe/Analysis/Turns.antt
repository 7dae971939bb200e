-- ===== src/Pe/Analysis/Turns.antt =====
-- The analysis over a level: what an interleaving of its turns puts into the frontier.
use graph_accelerator.Common.{
  ℕ, ◌≡◌, refl, sym, ap, ◌∙◌, ◌==◌, ltb, ◌&&◌, List, [], ◌∷◌, ◌++◌, ℤ, length, for_range,
  Bool-cases, inl, inr, arith,
}
use mathlib.Core.List.{append_assoc}
use graph_accelerator.Pe.Analysis.{Analysis, any_depth, analyze_one, analysis_turn}
use graph_accelerator.Common.{count}
use graph_accelerator.Pe.Analysis.Found.{
  Run, begins, arrives, analyzes, takes, marked, sum4, HasFound, HasFound-one,
}
use graph_accelerator.Common.{update}

HasFound-turn :
    (vertex_num level frontier_depth : ℕ) (s : Analysis) (came : ℕ → List ℤ) (taken : List ℕ)
    → HasFound vertex_num level s came taken
    → HasFound vertex_num level (analysis_turn frontier_depth level s) came taken
unfolding analysis_turn for_range
HasFound-turn vertex_num level frontier_depth s came taken ok =
    elim (Bool-cases (any_depth s && ltb (length s.frontier_buffer) frontier_depth)) [
      | inr waits ↦ simp waits ok
      | inl goes ↦
          let s1 = analyze_one level 0 s in
          let s2 = analyze_one level 1 s1 in
          let s3 = analyze_one level 2 s2 in
          let h1 = HasFound-one vertex_num level 0 s came taken (omega arith) ok in
          let h2 = HasFound-one vertex_num level 1 s1 came taken (omega arith) h1 in
          let h3 = HasFound-one vertex_num level 2 s2 came taken (omega arith) h2 in
          simp goes (HasFound-one vertex_num level 3 s3 came taken (omega arith) h3)
    ]

split-arrives :
    (came buffer consumed : ℕ → List ℤ) (i : ℕ) (d : ℤ)
    → ((j : ℕ) → came j ≡ consumed j ++ buffer j)
    → (j : ℕ)
    → update came i (came i ++ d ∷ []) j ≡ consumed j ++ update buffer i (buffer i ++ d ∷ []) j
split-arrives came buffer consumed i d before j = elim (Bool-cases (i == j)) [
  | inl e ↦
      let same : i ≡ j = ground arith in
      rw (e, same)
        (ap (λ t. t ++ d ∷ []) (before j) ∙ append_assoc (consumed j) (buffer j) (d ∷ []))
  | inr e ↦ rw e (before j)
]

moved :
    (taken rest frontier : List ℕ) (v : ℕ)
    → frontier ≡ v ∷ rest
    → taken ++ frontier ≡ (taken ++ v ∷ []) ++ rest
moved taken rest frontier v e = ap (λ t. taken ++ t) e ∙ sym (append_assoc taken (v ∷ []) rest)

-- Over every interleaving of arriving depths, turns of the analysis and vertices taken by the next thread
-- within a level: the depths that arrived in a partition are those analysed followed by those in its
-- buffer, its index is its first vertex plus the number analysed, a vertex is put into the frontier as
-- often as an analysed depth of it equals the level, and `frontierSize` counts what was put there.
pub Run-HasFound :
    {vertex_num level : ℕ} {s : Analysis} {came : ℕ → List ℤ} {taken : List ℕ}
    → Run vertex_num level s came taken
    → HasFound vertex_num level s came taken
unfolding HasFound marked sum4 count
Run-HasFound begins =
    (λ i. [], record { split = λ i. refl; at = λ i. omega arith; found = λ v. refl; size = refl })
Run-HasFound (arrives {s} {came} i d run) =
    let (consumed, ok) = Run-HasFound run in
    (
      consumed,
      record {
        split = split-arrives came s.depth_buffer consumed i d ok.split;
        at = ok.at;
        found = ok.found;
        size = ok.size;
      },
    )
Run-HasFound {vertex_num} {level} (analyzes {s} {came} {taken} frontier_depth run) =
    HasFound-turn vertex_num level frontier_depth s came taken (Run-HasFound run)
Run-HasFound (takes {s} {came} {taken} v rest run e) =
    let (consumed, ok) = Run-HasFound run in
    let p = moved taken rest s.frontier_buffer v e in
    (
      consumed,
      record {
        split = ok.split;
        at = ok.at;
        found = λ u. ap (count u) (sym p) ∙ ok.found u;
        size = ok.size ∙ ap length p;
      },
    )
