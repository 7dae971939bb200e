-- ===== src/Bfs/Levels.antt =====
-- The vertices at a level, in index order, as the scans of the searches collect them.
use graph_accelerator.Common.{
  ℕ, ◌<◌, ◌≡◌, ◌⊎◌, inl, inr, refl, Bool, true, false, List, [], ◌∷◌, ℤ, select, contains-select,
  contains, Bool-cases, Bool-eq, arith, any-elim,
}
use graph_accelerator.Bfs.Csr.{Csr, IsCsr, in_ngbs}
use graph_accelerator.Bfs.Depth.{at_level, is_empty}
use graph_accelerator.Bfs.Advance.{has_parent}
use graph_accelerator.Bfs.Shortest.{IsQuiet}

abbrev pub level_set : Csr → ℕ → List ℤ → List ℕ
level_set c level d = select c.v_num 0 (at_level level d)

-- No vertex is at the level.
abbrev pub NoneAt : Csr → ℕ → List ℤ → Type 0
NoneAt c level d = (v : ℕ) → v < c.v_num → at_level level d v ≡ false

pub NoneAt-cases :
    (c : Csr) (level : ℕ) (d : List ℤ)
    → NoneAt c level d ⊎ ((v : ℕ) × (v < c.v_num) × (at_level level d v ≡ true))
NoneAt-cases c level d = go (level_set c level d) refl
  where
    go :
        (l : List ℕ)
        → level_set c level d ≡ l
        → NoneAt c level d ⊎ ((v : ℕ) × (v < c.v_num) × (at_level level d v ≡ true))
    go [] e = inl (λ v h. elim (Bool-cases (at_level level d v)) [
      | inl at ↦
          let m =
            (contains-select c.v_num 0 v (at_level level d)).1 (omega arith, omega arith, at) in
          unfold contains in cc (rw e at m)
      | inr at ↦ at
    ])
    go (v ∷ l) e =
        let m =
          (contains-select c.v_num 0 v (at_level level d)).0
            (rw e (unfold contains in ground arith)) in
        inr (v, omega arith, m.2)

pub contains-level_set :
    (c : Csr) (level : ℕ) (d : List ℤ) (v : ℕ)
    → v < c.v_num
    → contains v (level_set c level d) ≡ at_level level d v
contains-level_set c level d v h =
    Bool-eq _ _ (λ m. ((contains-select c.v_num 0 v (at_level level d)).0 m).2)
      (λ at. (contains-select c.v_num 0 v (at_level level d)).1 (omega arith, omega arith, at))

-- An empty selection has no index that passes.
pub is_empty-select :
    (n : ℕ) (p : ℕ → Bool) → is_empty (select n 0 p) ≡ true → (v : ℕ) → v < n → p v ≡ false
is_empty-select n p e v h = elim (Bool-cases (p v)) [
  | inl at ↦ go (select n 0 p) e ((contains-select n 0 v p).1 (omega arith, omega arith, at))
  | inr at ↦ at
]
  where
    go : (l : List ℕ) → is_empty l ≡ true → contains v l ≡ true → p v ≡ false
    go [] e m = unfold contains in cc
    go (x ∷ l) e m = cc

pub select-is_empty :
    (n : ℕ) (p : ℕ → Bool) → ((v : ℕ) → v < n → p v ≡ false) → is_empty (select n 0 p) ≡ true
select-is_empty n p none = go (select n 0 p) refl
  where
    go : (l : List ℕ) → select n 0 p ≡ l → is_empty l ≡ true
    go [] e = refl
    go (v ∷ l) e =
        let m = (contains-select n 0 v p).0 (rw e (unfold contains in ground arith)) in
        cc (none v (omega arith), m.2)

-- With no vertex at the level no vertex has a parent.
pub NoneAt-has_parent :
    (c : Csr) (level : ℕ) (d : List ℤ)
    → IsCsr c
    → NoneAt c level d
    → (v : ℕ) → v < c.v_num
    → has_parent c level d v ≡ false
NoneAt-has_parent c level d ok none v h = elim (Bool-cases (has_parent c level d v)) [
  | inl p ↦
      let (u, m, at) = any-elim (at_level level d) (in_ngbs c v) p in
      cc (none u (ok.in_lt u v h m), at)
  | inr p ↦ p
]

pub NoneAt-IsQuiet :
    (c : Csr) (level : ℕ) (d : List ℤ) → IsCsr c → NoneAt c level d → IsQuiet c level d
NoneAt-IsQuiet c level d ok none v h = ground (arith, NoneAt-has_parent c level d ok none v h)
