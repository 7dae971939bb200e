-- ===== src/Bfs/Loop.antt =====
-- The `do … while (!eofBfs)` loop of the searches, and why it ends with the depths right: a round
-- advances the depths, it asks for no other only if it changed nothing, and it asks for no other
-- once no vertex is at the level.
use graph_accelerator.Common.{
  ℕ, zero, suc, ◌+◌, ◌≤◌, ◌<◌, ◌≡◌, ◌⊎◌, inl, inr, sym, ◌∙◌, Bool, true, false, List, [], ◌∷◌, ℤ,
  minus_one, eq_ℤ, if◌then◌else◌, length, Option, none, some, Bool-cases, arith,
}
use graph_accelerator.Bfs.Csr.{Csr, IsCsr}
use graph_accelerator.Bfs.Depth.{at_level, unvisited, start_depth, enough_rounds}
use graph_accelerator.Bfs.Advance.{advance, length-advance, depth_at-advance}
use graph_accelerator.Bfs.Levels.{NoneAt, NoneAt-cases}
use graph_accelerator.Bfs.Shortest.{
  IsShortest, IsSettled, IsSettled-start, IsSettled-advance, IsQuiet, IsShortest-quiet,
  advance-quiet, at_level-advance,
}

-- `do { … } while (!eof)`; a round returns `eof`, and `none` means that the fuel ran out.
unfoldable pub do_while {ℓ} : {S : Type ℓ} → ℕ → (S → S × Bool) → S → Option S
do_while zero round s = none
do_while (suc fuel) round s =
    let (t, eof) = round s in elim eof [ true ↦ some t | false ↦ do_while fuel round t ]

-- The entries -1 of a depth array.
unfoldable pub unvisited_num : List ℤ → ℕ
unvisited_num [] = 0
unvisited_num (x ∷ xs) = if eq_ℤ x minus_one then suc (unvisited_num xs) else unvisited_num xs

pub unvisited_num-le : (d : List ℤ) → unvisited_num d ≤ length d
unfolding unvisited_num
unvisited_num-le [] = omega arith
unvisited_num-le (x ∷ xs) = ground (arith, unvisited_num-le xs)

unvisited_num_mono :
    (d e : List ℤ)
    → length e ≡ length d
    → ((v : ℕ) → v < length d → unvisited e v ≡ true → unvisited d v ≡ true)
    → unvisited_num e ≤ unvisited_num d
unfolding unvisited_num
unvisited_num_mono [] [] n keep = omega arith
unvisited_num_mono [] (y ∷ e) n keep = absurd (omega arith)
unvisited_num_mono (x ∷ d) [] n keep = absurd (omega arith)
unvisited_num_mono (x ∷ d) (y ∷ e) n keep =
    let rest = unvisited_num_mono d e (omega arith) (λ v h. keep (suc v) (omega arith)) in
    ground (arith, rest, keep 0)

unvisited_num_lt :
    (d e : List ℤ) (w : ℕ)
    → length e ≡ length d
    → ((v : ℕ) → v < length d → unvisited e v ≡ true → unvisited d v ≡ true)
    → w < length d
    → unvisited d w ≡ true
    → unvisited e w ≡ false
    → unvisited_num e < unvisited_num d
unfolding unvisited_num
unvisited_num_lt [] e w n keep h old new = absurd (omega arith)
unvisited_num_lt (x ∷ d) [] w n keep h old new = absurd (omega arith)
unvisited_num_lt (x ∷ d) (y ∷ e) zero n keep h old new =
    let rest = unvisited_num_mono d e (omega arith) (λ v h. keep (suc v) (omega arith)) in
    rw (old, new) (omega arith)
unvisited_num_lt (x ∷ d) (y ∷ e) (suc w) n keep h old new =
    let rest =
      unvisited_num_lt d e w (omega arith) (λ v h. keep (suc v) (omega arith)) (omega arith) old
        new in
    ground (arith, rest, keep 0)

-- Fuel for one round more than there are unvisited vertices, and one to see that nothing is left.
abbrev pub HasFuel : Csr → ℕ → ℕ → List ℤ → Type 0
HasFuel c fuel level d = (unvisited_num d + 2 ≤ fuel) ⊎ (NoneAt c level d × (1 ≤ fuel))

module _ (c : Csr) (ok : IsCsr c) (src level : ℕ) (d : List ℤ)
    (settled : IsSettled c src level d) where
  -- A round that puts a vertex at the next level leaves fewer unvisited vertices.
  progress :
      (v : ℕ)
      → v < c.v_num
      → at_level (suc level) (advance c level d) v ≡ true
      → unvisited_num (advance c level d) < unvisited_num d
  progress v lt at =
      let (old, new) = at_level-advance c ok src level d settled v lt at in
      let n = settled.size in
      unvisited_num_lt d (advance c level d) v (length-advance c level d ∙ sym settled.size)
        (λ w lw e. ground (arith, depth_at-advance c level d w)) (omega arith) (rw old) (rw new)

  pub HasFuel-advance :
      (fuel : ℕ) → unvisited_num d + 2 ≤ suc fuel → HasFuel c fuel (suc level) (advance c level d)
  HasFuel-advance fuel room = elim (NoneAt-cases c (suc level) (advance c level d)) [
    | inl quiet ↦ inr (quiet, omega arith)
    | inr (v, lt, at) ↦ inl (omega (arith, progress v lt at))
  ]

-- What the loop needs of a round over states with a level and a depth array.
pub record IsRound {ℓ} {S : Type ℓ} (c : Csr) (level : S → ℕ) (depth : S → List ℤ)
    (round : S → S × Bool) : Type ℓ where
  pub advances :
      (s : S) → length (depth s) ≡ c.v_num → depth (round s).0 ≡ advance c (level s) (depth s)
  pub counts : (s : S) → level (round s).0 ≡ suc (level s)
  pub stops :
      (s : S) → length (depth s) ≡ c.v_num → (round s).1 ≡ true → IsQuiet c (level s) (depth s)
  pub exhausted :
      (s : S) → length (depth s) ≡ c.v_num → NoneAt c (level s) (depth s) → (round s).1 ≡ true

module _ {ℓ} {S : Type ℓ} (c : Csr) (ok : IsCsr c) (src : ℕ) (h : src < c.v_num) (level : S → ℕ)
    (depth : S → List ℤ) (round : S → S × Bool) (r : IsRound c level depth round) where
  IsSettled-round :
      (s : S)
      → IsSettled c src (level s) (depth s)
      → IsSettled c src (level (round s).0) (depth (round s).0)
  IsSettled-round s settled =
      rw (r.counts s, r.advances s settled.size)
        (IsSettled-advance c ok src (level s) (depth s) settled)

  HasFuel-round :
      (fuel : ℕ) (s : S)
      → IsSettled c src (level s) (depth s)
      → HasFuel c (suc fuel) (level s) (depth s)
      → (round s).1 ≡ false
      → HasFuel c fuel (suc (level s)) (advance c (level s) (depth s))
  HasFuel-round fuel s settled (inl room) e =
      HasFuel-advance c ok src (level s) (depth s) settled fuel room
  HasFuel-round fuel s settled (inr (quiet, room)) e = cc (r.exhausted s settled.size quiet)

  -- With that fuel the loop returns the depths of the shortest walks.
  do_while-IsShortest :
      (fuel : ℕ) (s : S)
      → IsSettled c src (level s) (depth s)
      → HasFuel c fuel (level s) (depth s)
      → (t : S) × (do_while fuel round s ≡ some t) × IsShortest c src (depth t)
  unfolding do_while
  do_while-IsShortest zero s settled (inl room) = absurd (omega arith)
  do_while-IsShortest zero s settled (inr (quiet, room)) = absurd (omega arith)
  do_while-IsShortest (suc fuel) s settled room = elim (Bool-cases (round s).1) [
    | inl e ↦
        let quiet = r.stops s settled.size e in
        let same = advance-quiet c ok src (level s) (depth s) settled quiet in
        (
          (round s).0,
          rw (e, do_while),
          rw (r.advances s settled.size, same)
              (IsShortest-quiet c ok src (level s) (depth s) settled h quiet),
        )
    | inr e ↦
        let (t, runs, right) =
          do_while-IsShortest fuel (round s).0 (IsSettled-round s settled)
            (rw (r.counts s, r.advances s settled.size) (HasFuel-round fuel s settled room e)) in
        (t, rw (e, do_while) runs, right)
  ]

-- `enough_rounds` is that much at the start.
pub enough-HasFuel :
    (c : Csr) (src : ℕ) → src < c.v_num → HasFuel c (enough_rounds c) 0 (start_depth c src)
enough-HasFuel c src h =
    let start = IsSettled-start c src h in
    let bound = unvisited_num-le (start_depth c src) in let size = start.size in inl (omega arith)

-- A search that starts at its source with the fuel of `enough_rounds` returns the right depths.
pub search-IsShortest {ℓ} :
    {S : Type ℓ} (c : Csr) (src : ℕ) (level : S → ℕ) (depth : S → List ℤ) (round : S → S × Bool)
    (s : S)
    → IsCsr c
    → src < c.v_num
    → IsRound c level depth round
    → level s ≡ 0
    → depth s ≡ start_depth c src
    → (t : S) × (do_while (enough_rounds c) round s ≡ some t) × IsShortest c src (depth t)
search-IsShortest c src level depth round s ok h r el ed =
    do_while-IsShortest c ok src h level depth round r (enough_rounds c) s
      (rw (el, ed) (IsSettled-start c src h)) (rw (el, ed) (enough-HasFuel c src h))
