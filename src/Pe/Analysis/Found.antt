-- ===== src/Pe/Analysis/Found.antt =====
-- What the analysis puts into the frontier.
use graph_accelerator.Common.{
  ℕ, zero, suc, ◌+◌, ◌<◌, ◌≡◌, refl, sym, ap, ◌∙◌, Bool, true, false, ◌==◌, ◌&&◌, List, [], ◌∷◌,
  ◌++◌, ℤ, pos, eq_ℤ, if◌then◌else◌, length, Bool-cases, inl, inr, arith,
}
use mathlib.Core.List.{append_assoc}
use graph_accelerator.Pe.Analysis.{Analysis, reset_idx, analyze_one, analysis_turn}
use graph_accelerator.Common.{count, count-concat}
use mathlib.Core.Logic.{◌⊎◌}
use graph_accelerator.Common.{update}

-- An interleaving from the start of a level: a depth arrives in a partition, the thread has a turn, or
-- the next thread takes a vertex. With what arrived and the vertices taken.
pub data Run (vertex_num level : ℕ) : Analysis → (ℕ → List ℤ) → List ℕ → Type 0 where
  begins :
      Run vertex_num level
        (record {
          idx = reset_idx vertex_num;
          depth_buffer = λ i. [];
          frontier_buffer = [];
          frontier_size = 0;
        })
        (λ i. [])
        []
  arrives :
      {s : Analysis} {came : ℕ → List ℤ} {taken : List ℕ} (i : ℕ) (d : ℤ)
      → Run vertex_num level s came taken
      → Run vertex_num level
          (record s { depth_buffer = update s.depth_buffer i (s.depth_buffer i ++ d ∷ []) })
          (update came i (came i ++ d ∷ []))
          taken
  analyzes :
      {s : Analysis} {came : ℕ → List ℤ} {taken : List ℕ} (frontier_depth : ℕ)
      → Run vertex_num level s came taken
      → Run vertex_num level (analysis_turn frontier_depth level s) came taken
  takes :
      {s : Analysis} {came : ℕ → List ℤ} {taken : List ℕ} (v : ℕ) (rest : List ℕ)
      → Run vertex_num level s came taken
      → s.frontier_buffer ≡ v ∷ rest
      → Run vertex_num level (record s { frontier_buffer = rest }) came (taken ++ v ∷ [])

-- The vertices that a prefix of the depths of a partition from `base` on puts into the frontier.
unfoldable pub marked : ℕ → ℕ → ℕ → List ℤ → ℕ
marked level v base [] = 0
marked level v base (d ∷ ds) =
    if eq_ℤ d (pos level) && v == base
    then suc (marked level v (suc base) ds)
    else marked level v (suc base) ds

marked-concat :
    (level v base : ℕ) (ds : List ℤ) (d : ℤ)
    → marked level v base (ds ++ d ∷ []) ≡ (
        if eq_ℤ d (pos level) && v == base + length ds
        then suc (marked level v base ds)
        else marked level v base ds)
unfolding marked
marked-concat level v base [] d = ground arith
marked-concat level v base (x ∷ ds) d = ground (arith, marked-concat level v (suc base) ds d)

unfoldable pub sum4 : (ℕ → ℕ) → ℕ
sum4 f = f 0 + f 1 + f 2 + f 3

-- One more for one of the four.
sum4-more :
    (f g : ℕ → ℕ) (i : ℕ) (more : Bool)
    → i < 4
    → g i ≡ (if more then suc (f i) else f i)
    → ((j : ℕ) → i == j ≡ false → g j ≡ f j)
    → sum4 g ≡ (if more then suc (sum4 f) else sum4 f)
unfolding sum4
sum4-more f g zero more h here there = ground (arith, here, there 1, there 2, there 3)
sum4-more f g (suc zero) more h here there = ground (arith, here, there 0, there 2, there 3)
sum4-more f g (suc (suc zero)) more h here there = ground (arith, here, there 0, there 1, there 3)
sum4-more f g (suc (suc (suc zero))) more h here there =
    ground (arith, here, there 0, there 1, there 2)
sum4-more f g (suc (suc (suc (suc i)))) more h here there = absurd (omega arith)

-- `consumed` holds the depths analysed in each partition.
pub record IsFound (vertex_num level : ℕ) (s : Analysis) (came : ℕ → List ℤ) (taken : List ℕ)
    (consumed : ℕ → List ℤ) : Type 0 where
  pub split : (i : ℕ) → came i ≡ consumed i ++ s.depth_buffer i
  pub at : (i : ℕ) → s.idx i ≡ reset_idx vertex_num i + length (consumed i)
  pub found :
      (v : ℕ)
      → count v (taken ++ s.frontier_buffer)
        ≡ sum4 (λ i. marked level v (reset_idx vertex_num i) (consumed i))
  pub size : s.frontier_size ≡ length (taken ++ s.frontier_buffer)

unfoldable pub HasFound : ℕ → ℕ → Analysis → (ℕ → List ℤ) → List ℕ → Type 0
HasFound vertex_num level s came taken =
    (consumed : ℕ → List ℤ) × IsFound vertex_num level s came taken consumed

length-concat : (xs : List ℕ) (x : ℕ) → length (xs ++ x ∷ []) ≡ length xs + 1
length-concat [] x = refl
length-concat (y ∷ xs) x = let e = length-concat xs x in omega (arith, e)

length-concat_depth : (xs : List ℤ) (x : ℤ) → length (xs ++ x ∷ []) ≡ length xs + 1
length-concat_depth [] x = refl
length-concat_depth (y ∷ xs) x = let e = length-concat_depth xs x in omega (arith, e)

count-push :
    (v : ℕ) (taken frontier : List ℕ) (x : ℕ) (push : Bool)
    → count v (taken ++ (if push then frontier ++ x ∷ [] else frontier))
      ≡ (if push && v == x then suc (count v (taken ++ frontier)) else count v (taken ++ frontier))
count-push v taken frontier x true =
    ap (count v) (sym (append_assoc taken frontier (x ∷ []))) ∙ count-concat v x (taken ++ frontier)
count-push v taken frontier x false = refl

length-push :
    (taken frontier : List ℕ) (x n : ℕ) (push : Bool)
    → n ≡ length (taken ++ frontier)
    → (if push then n + 1 else n)
      ≡ length (taken ++ (if push then frontier ++ x ∷ [] else frontier))
length-push taken frontier x n true e =
    let one = length-concat (taken ++ frontier) x in
    let all = ap (length {A = ℕ}) (append_assoc taken frontier (x ∷ [])) in
    omega (arith, e, one, all)
length-push taken frontier x n false e = e

List-cases : (xs : List ℤ) → (xs ≡ []) ⊎ ((x : ℤ) × (rest : List ℤ) × (xs ≡ x ∷ rest))
List-cases [] = inl refl
List-cases (x ∷ xs) = inr (x, xs, refl)

-- A partition's analysed depths with one more.
grow : (ℕ → List ℤ) → ℕ → ℤ → ℕ → List ℤ
grow consumed i d = update consumed i (consumed i ++ d ∷ [])

module _ (vertex_num level i : ℕ) (s : Analysis) (came : ℕ → List ℤ) (taken : List ℕ)
    (consumed : ℕ → List ℤ) (lt : i < 4) (ok : IsFound vertex_num level s came taken consumed)
    (d : ℤ) (rest : List ℤ) (front : s.depth_buffer i ≡ d ∷ rest) where
  split-grow : (j : ℕ) → came j ≡ grow consumed i d j ++ update s.depth_buffer i rest j
  unfolding grow
  split-grow j = elim (Bool-cases (i == j)) [
    | inl e ↦
        let same : i ≡ j = ground arith in
        rw e (
          ap came (sym same)
          ∙ ok.split i
          ∙ ap (λ t. consumed i ++ t) front
          ∙ sym (append_assoc (consumed i) (d ∷ []) rest))
    | inr e ↦ rw e (ok.split j)
  ]

  at-grow :
      (j : ℕ)
      → update s.idx i (s.idx i + 1) j ≡ reset_idx vertex_num j + length (grow consumed i d j)
  unfolding grow
  at-grow j = elim (Bool-cases (i == j)) [
    | inl e ↦
        let same : j ≡ i = ground arith in
        let at = ok.at i in rw (e, length-concat_depth (consumed i) d, same) (omega (arith, at))
    | inr e ↦ rw e (ok.at j)
  ]

  marked-here :
      (v : ℕ)
      → marked level v (reset_idx vertex_num i) (grow consumed i d i) ≡ (
          if eq_ℤ d (pos level) && v == s.idx i
          then suc (marked level v (reset_idx vertex_num i) (consumed i))
          else marked level v (reset_idx vertex_num i) (consumed i))
  unfolding grow
  marked-here v =
      let self : i == i ≡ true = ground arith in
      rw (self, ok.at i) (marked-concat level v (reset_idx vertex_num i) (consumed i) d)

  marked-there :
      (v : ℕ)
      → (j : ℕ) → i == j ≡ false
      → marked level v (reset_idx vertex_num j) (grow consumed i d j)
        ≡ marked level v (reset_idx vertex_num j) (consumed j)
  unfolding grow
  marked-there v j e = rw e refl

  found-grow :
      (v : ℕ)
      → count v (
          taken
          ++ (if eq_ℤ d (pos level) then s.frontier_buffer ++ s.idx i ∷ [] else s.frontier_buffer))
        ≡ sum4 (λ j. marked level v (reset_idx vertex_num j) (grow consumed i d j))
  found-grow v =
      count-push v taken s.frontier_buffer (s.idx i) (eq_ℤ d (pos level))
      ∙ ap (λ n. if eq_ℤ d (pos level) && v == s.idx i then suc n else n) (ok.found v)
      ∙ sym (
          sum4-more (λ j. marked level v (reset_idx vertex_num j) (consumed j))
            (λ j. marked level v (reset_idx vertex_num j) (grow consumed i d j)) i
            (eq_ℤ d (pos level) && v == s.idx i) lt (marked-here v) (marked-there v))

  size-grow :
      (if eq_ℤ d (pos level) then s.frontier_size + 1 else s.frontier_size)
      ≡ length (
          taken
          ++ (if eq_ℤ d (pos level) then s.frontier_buffer ++ s.idx i ∷ [] else s.frontier_buffer))
  size-grow =
      length-push taken s.frontier_buffer (s.idx i) s.frontier_size (eq_ℤ d (pos level)) ok.size

  IsFound-front : HasFound vertex_num level (analyze_one level i s) came taken
  unfolding analyze_one HasFound
  IsFound-front =
      rw (front, analyze_one)
        (
          grow consumed i d,
          record { split = split-grow; at = at-grow; found = found-grow; size = size-grow },
        )

pub HasFound-one :
    (vertex_num level i : ℕ) (s : Analysis) (came : ℕ → List ℤ) (taken : List ℕ)
    → i < 4
    → HasFound vertex_num level s came taken
    → HasFound vertex_num level (analyze_one level i s) came taken
unfolding analyze_one HasFound
HasFound-one vertex_num level i s came taken lt (consumed, ok) =
    elim (List-cases (s.depth_buffer i)) [
      | inl empty ↦ rw (empty, analyze_one) (consumed, ok)
      | inr (d, rest, front) ↦
          IsFound-front vertex_num level i s came taken consumed lt ok d rest front
    ]
