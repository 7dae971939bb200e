-- ===== src/Bfs/BottomUp/Correct.antt =====
-- `buBfs` computes the lengths of the shortest walks.
use graph_accelerator.Common.{
  ℕ, suc, ◌<◌, ◌≡◌, ◌∙◌, ◌||◌, ◌==◌, List, ℤ, Bool, true, contains-select, inl, inr, Bool-cases,
  sym, refl, some, arith,
}
use graph_accelerator.Bfs.Csr.{Csr, IsCsr}
use graph_accelerator.Bfs.Depth.{Search, is_empty, unvisited, start_search}
use graph_accelerator.Bfs.Levels.{is_empty-select, NoneAt, NoneAt-has_parent}
use graph_accelerator.Bfs.Loop.{IsRound, search-IsShortest}
use graph_accelerator.Bfs.Shortest.{IsShortest, IsQuiet}
use graph_accelerator.Bfs.BottomUp.{bu_round, bu_bfs}
use graph_accelerator.Bfs.BottomUp.Round.{
  unvisited_set, adopted, adopted-zero, adopted_none, bu_round-advance,
}

-- `frontier.empty() || visitedNgbNum == 0`
abbrev pub bu_eof : Csr → ℕ → List ℤ → Bool
bu_eof c level d = is_empty (unvisited_set c d) || adopted c level d (unvisited_set c d) == 0

pub bu_eof-IsQuiet :
    (c : Csr) (level : ℕ) (d : List ℤ) → bu_eof c level d ≡ true → IsQuiet c level d
bu_eof-IsQuiet c level d e v h = elim (Bool-cases (unvisited d v)) [
  | inl new ↦
      let m = (contains-select c.v_num 0 v (unvisited d)).1 (omega arith, omega arith, new) in
      rw new (elim (Bool-cases (is_empty (unvisited_set c d))) [
        | inl none ↦ cc (is_empty-select c.v_num (unvisited d) none v h)
        | inr more ↦ adopted-zero c level d (unvisited_set c d) (ground arith) v m
      ])
  | inr old ↦ rw old
]

pub NoneAt-bu_eof :
    (c : Csr) (level : ℕ) (d : List ℤ) → IsCsr c → NoneAt c level d → bu_eof c level d ≡ true
NoneAt-bu_eof c level d ok none =
    let zero_found = adopted_none c level d (unvisited_set c d) (λ v m.
      NoneAt-has_parent c level d ok none v
        (let (_, lt, _) = (contains-select c.v_num 0 v (unvisited d)).0 m in omega arith)) in
    ground arith

bu_round-level : (c : Csr) (s : Search) → (bu_round c s).0.level ≡ suc s.level
unfolding bu_round
bu_round-level c s = refl

bu_round-IsRound :
    (c : Csr) → IsCsr c → IsRound c (λ (s : Search). s.level) (λ s. s.depth) (bu_round c)
bu_round-IsRound c ok = record {
  advances = λ s n. (bu_round-advance c s n).0;
  counts = λ s. bu_round-level c s;
  stops = λ s n e. bu_eof-IsQuiet c s.level s.depth (sym (bu_round-advance c s n).1 ∙ e);
  exhausted = λ s n none. (bu_round-advance c s n).1 ∙ NoneAt-bu_eof c s.level s.depth ok none;
}

-- From a vertex of a well-formed graph `buBfs` ends, and it leaves in `depth` the number of edges of
-- a shortest walk to each vertex, or -1 where there is no walk.
pub bu_bfs-IsShortest :
    (c : Csr) (src : ℕ)
    → IsCsr c
    → src < c.v_num
    → (t : Search) × (bu_bfs c src ≡ some t) × IsShortest c src t.depth
unfolding bu_bfs start_search
bu_bfs-IsShortest c src ok h =
    search-IsShortest c src (λ s. s.level) (λ s. s.depth) (bu_round c) (start_search c src) ok h
      (bu_round-IsRound c ok) refl refl
