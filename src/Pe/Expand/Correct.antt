-- ===== src/Pe/Expand/Correct.antt =====
-- What the expansion threads achieve: no fault, the edges of the frontier in order, the depths of the
-- next level, and over the levels the shortest distances.
use graph_accelerator.Common.{
  ℕ, suc, ◌%◌, ◌<◌, ◌≡◌, refl, ◌∙◌, true, List, [], ℤ, Option, none, some, arith, Bool-eq, contains,
  length, contains-select, ◌≤◌,
}
use graph_accelerator.Bfs.Csr.{Csr, IsCsr}
use graph_accelerator.Bfs.Depth.{at_level, start_depth}
use graph_accelerator.Bfs.Advance.{advance}
use graph_accelerator.Bfs.Levels.{level_set, contains-level_set, NoneAt, NoneAt-IsQuiet}
use graph_accelerator.Bfs.Shortest.{
  IsShortest, IsSettled, IsSettled-start, IsSettled-advance, IsShortest-quiet,
}
use graph_accelerator.Bfs.TopDown.Round.{all_out, all_out-intro, all_out-elim, mark_all-level_set}
use graph_accelerator.Memory.Layout.{Layout}
use graph_accelerator.Pe.Expand.{Sizes, Expand}
use graph_accelerator.Pe.Expand.Run.{System, Action, run, is_idle}
use graph_accelerator.Pe.Expand.Reading.{Succeeds}
use graph_accelerator.Pe.Expand.Level.{IsLevel}
use graph_accelerator.Pe.Expand.Level.Steps.{IsLevel-run}
use graph_accelerator.Pe.Expand.Level.Done.{IsLevel-start, depth-IsLevel}

-- The system when a level begins.
abbrev pub begin_level : Expand → List ℤ → System
begin_level s d = record { element = s; depth = d; found = [] }

pub Succeeds-some {ℓ} :
    {A : Type ℓ} (P : A → Type 0) (o : Option A) → Succeeds P o → (a : A) × (o ≡ some a) × P a
Succeeds-some P none h = absurd h
Succeeds-some P (some a) h = (a, refl, h)

module _ (c : Csr) (z : Sizes) (l : Layout) (level : ℕ) (s : Expand) (d : List ℤ)
    (actions : List Action) where
  pub run-IsLevel :
      z.base_len % 4 ≡ 0
      → is_idle s ≡ true
      → Succeeds (IsLevel c l level d) (run c z l level actions (begin_level s d))
  run-IsLevel b h =
      IsLevel-run c z l level d actions (begin_level s d) b (IsLevel-start c l level d s h)

  -- A level: from an idle element, with chunks of whole words, well-formed arrays and a depth for each
  -- vertex, at a level below 127, when a run in any order of the steps has been given every vertex of the level and has left the
  -- element idle, the depths in the memory are those of one level further: every unvisited vertex with
  -- an incoming neighbour at the level has the next depth, and no other depth has changed.
  pub run-advance :
      z.base_len % 4 ≡ 0
      → is_idle s ≡ true
      → IsCsr c
      → length d ≡ c.v_num
      → level < 127
      → (t : System) → run c z l level actions (begin_level s d) ≡ some t
      → ((u : ℕ) → u < c.v_num → at_level level d u ≡ true → contains u t.found ≡ true)
      → is_idle t.element ≡ true
      → t.depth ≡ advance c level d
  run-advance b h ok n low t e all idle =
      let inv : IsLevel c l level d t = rw e at (run-IsLevel b h) in
      depth-IsLevel c l level d t inv idle low
      ∙ mark_all-level_set c level d t.found ok n (λ v lt. same inv v)
    where
      same :
          IsLevel c l level d t
          → (v : ℕ) → contains v (all_out c t.found) ≡ contains v (all_out c (level_set c level d))
      same inv v =
          Bool-eq _ _
            (λ m.
              let (u, f, g) = all_out-elim c t.found v m in
              let (lt, at) = inv.in_level u f in
              all_out-intro c (level_set c level d) u v (contains-level_set c level d u lt ∙ at) g)
            (λ m.
              let (u, f, g) = all_out-elim c (level_set c level d) v m in
              let (low, lt, at) = (contains-select c.v_num 0 u (at_level level d)).0 f in
              all_out-intro c t.found u v (all u (omega arith) at) g)

-- Levels in turn: each begins with the element as the one before has left it, is given every vertex of
-- the level, and ends with an idle element.
pub data Levels (c : Csr) (z : Sizes) (l : Layout) (src : ℕ) : ℕ → Expand → List ℤ → Type 0 where
  start : {s : Expand} → is_idle s ≡ true → Levels c z l src 0 s (start_depth c src)
  next :
      {level : ℕ} {s : Expand} {d : List ℤ} (actions : List Action) (t : System)
      → Levels c z l src level s d
      → run c z l level actions (begin_level s d) ≡ some t
      → ((u : ℕ) → u < c.v_num → at_level level d u ≡ true → contains u t.found ≡ true)
      → is_idle t.element ≡ true
      → Levels c z l src (suc level) t.element t.depth

module _ (c : Csr) (z : Sizes) (l : Layout) (src : ℕ) (b : z.base_len % 4 ≡ 0) (ok : IsCsr c)
    (h : src < c.v_num) where
  Levels-IsSettled :
      {level : ℕ} {s : Expand} {d : List ℤ}
      → Levels c z l src level s d
      → level ≤ 127
      → (is_idle s ≡ true) × IsSettled c src level d
  Levels-IsSettled (start i) low = (i, IsSettled-start c src h)
  Levels-IsSettled (next {level} {s} {d} actions t before e all idle) low =
      let (i, k) = Levels-IsSettled before (omega arith) in
      (
        idle,
        rw (run-advance c z l level s d actions b i ok k.size (omega arith) t e all idle)
            (IsSettled-advance c ok src level d k),
      )

  -- When at most 127 levels have been run in turn from the start, in any order of the steps within each, and no
  -- vertex is at the next level, the depths in the memory are the shortest distances from the source and
  -- -1 for the vertices that no walk reaches. The arrays are well formed, the source is a vertex and chunks
  -- are whole words.
  pub IsShortest-Levels :
      (level : ℕ) (s : Expand) (d : List ℤ)
      → Levels c z l src level s d
      → level ≤ 127
      → NoneAt c level d
      → IsShortest c src d
  IsShortest-Levels level s d k low none_at =
      let (i, settled) = Levels-IsSettled k low in
      IsShortest-quiet c ok src level d settled h (NoneAt-IsQuiet c level d ok none_at)
