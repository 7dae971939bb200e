-- ===== src/Bfs/Advance.antt =====
-- What a round does to the depths, whatever its direction: every unvisited vertex with an incoming
-- neighbour at the level gets the next depth, and nothing else changes.
use graph_accelerator.Common.{
  ℕ, suc, ◌<◌, ◌≡◌, inl, inr, refl, sym, ap, ◌∙◌, Bool, true, false, ◌&&◌, List, [], ◌∷◌, ◌++◌, ℤ,
  pos, minus_one, if◌then◌else◌, length, set, tabulate, contains, any, ◌==◌, Bool-cases, arith,
  length-set, get_or-set_self, get_or-set_ne, get_or-tabulate, length-tabulate, List-ext,
}
use mathlib.Core.Path.{fun_ext}
use graph_accelerator.Bfs.Csr.{Csr, in_ngbs}
use graph_accelerator.Bfs.Depth.{depth_at, at_level, unvisited}

-- Some incoming neighbour of `v` is at the level.
abbrev pub has_parent : Csr → ℕ → List ℤ → ℕ → Bool
has_parent c level d v = any (at_level level d) (in_ngbs c v)

-- The depth of `v` after the round.
abbrev pub next_depth : Csr → ℕ → List ℤ → ℕ → ℤ
next_depth c level d v =
    if unvisited d v && has_parent c level d v then pos (suc level) else depth_at d v

pub advance : Csr → ℕ → List ℤ → List ℤ
advance c level d = tabulate c.v_num 0 (next_depth c level d)

pub length-advance : (c : Csr) (level : ℕ) (d : List ℤ) → length (advance c level d) ≡ c.v_num
unfolding advance
length-advance c level d = length-tabulate c.v_num 0 (next_depth c level d)

pub depth_at-advance :
    (c : Csr) (level : ℕ) (d : List ℤ) (v : ℕ)
    → v < c.v_num
    → depth_at (advance c level d) v ≡ next_depth c level d v
unfolding advance
depth_at-advance c level d v h =
    get_or-tabulate c.v_num 0 v (next_depth c level d) minus_one h
    ∙ ap (next_depth c level d) (omega arith)

pub advance-eq :
    (c : Csr) (level : ℕ) (d e : List ℤ)
    → length e ≡ c.v_num
    → ((v : ℕ) → v < c.v_num → depth_at e v ≡ next_depth c level d v)
    → e ≡ advance c level d
advance-eq c level d e n h =
    List-ext minus_one e (advance c level d) (n ∙ sym (length-advance c level d))
      λ v p. h v (omega arith) ∙ sym (depth_at-advance c level d v (omega arith))

-- Top-down: the targets in turn, each written if it is unvisited.
abbrev pub mark : ℕ → List ℤ → ℕ → List ℤ
mark level d v = if unvisited d v then set d v (pos (suc level)) else d

unfoldable pub mark_all : ℕ → List ℤ → List ℕ → List ℤ
mark_all level d [] = d
mark_all level d (v ∷ vs) = mark_all level (mark level d v) vs

pub length-mark_all :
    (level : ℕ) (d : List ℤ) (vs : List ℕ) → length (mark_all level d vs) ≡ length d
unfolding mark_all
length-mark_all level d [] = refl
length-mark_all level d (v ∷ vs) =
    ground (arith, length-mark_all level (mark level d v) vs, length-set d v (pos (suc level)))

pub mark_all-append :
    (level : ℕ) (d : List ℤ) (us vs : List ℕ)
    → mark_all level (mark_all level d us) vs ≡ mark_all level d (us ++ vs)
unfolding mark_all
mark_all-append level d [] vs = refl
mark_all-append level d (u ∷ us) vs = mark_all-append level (mark level d u) us vs

pub depth_at-set :
    (d : List ℤ) (v w : ℕ) (x : ℤ)
    → w < length d
    → depth_at (set d v x) w ≡ (if w == v then x else depth_at d w)
depth_at-set d v w x h =
    ground (arith, get_or-set_self d w x minus_one, get_or-set_ne d v w x minus_one)

pub depth_at-mark_all :
    (level : ℕ) (d : List ℤ) (vs : List ℕ) (v : ℕ)
    → v < length d
    → depth_at (mark_all level d vs) v
      ≡ (if unvisited d v && contains v vs then pos (suc level) else depth_at d v)
unfolding mark_all contains
depth_at-mark_all level d [] v h = ground arith
depth_at-mark_all level d (u ∷ us) v h = ground (
  arith,
  depth_at-mark_all level (mark level d u) us v,
  length-set d u (pos (suc level)),
  depth_at-set d u v (pos (suc level)),
)

-- Bottom-up: the vertices in turn, each written if it has a parent.
abbrev pub adopt : Csr → ℕ → List ℤ → ℕ → List ℤ
adopt c level d v = if has_parent c level d v then set d v (pos (suc level)) else d

unfoldable pub adopt_all : Csr → ℕ → List ℤ → List ℕ → List ℤ
adopt_all c level d [] = d
adopt_all c level d (v ∷ vs) = adopt_all c level (adopt c level d v) vs

pub length-adopt_all :
    (c : Csr) (level : ℕ) (d : List ℤ) (vs : List ℕ) → length (adopt_all c level d vs) ≡ length d
unfolding adopt_all
length-adopt_all c level d [] = refl
length-adopt_all c level d (v ∷ vs) =
    ground
      (arith, length-adopt_all c level (adopt c level d v) vs, length-set d v (pos (suc level)))

-- A vertex that is not at the level may be written without a change to who is.
at_level-set :
    (level : ℕ) (d : List ℤ) (v u : ℕ)
    → v < length d
    → at_level level d v ≡ false
    → at_level level (set d v (pos (suc level))) u ≡ at_level level d u
at_level-set level d v u h e = ground (
  arith,
  get_or-set_self d v (pos (suc level)) minus_one,
  get_or-set_ne d v u (pos (suc level)) minus_one,
)

pub at_level-adopt :
    (c : Csr) (level : ℕ) (d : List ℤ) (v w : ℕ)
    → v < length d
    → at_level level d v ≡ false
    → (at_level level (adopt c level d v) w ≡ at_level level d w)
      × (length (adopt c level d v) ≡ length d)
at_level-adopt c level d v w h e =
    ground (arith, at_level-set level d v w h e, length-set d v (pos (suc level)))

has_parent-adopt :
    (c : Csr) (level : ℕ) (d : List ℤ) (v w : ℕ)
    → v < length d
    → at_level level d v ≡ false
    → has_parent c level (adopt c level d v) w ≡ has_parent c level d w
has_parent-adopt c level d v w h e = elim (Bool-cases (has_parent c level d v)) [
  | inl p ↦ rw p (ap (λ t. any t (in_ngbs c w)) (fun_ext (λ u. at_level-set level d v u h e)))
  | inr p ↦ rw p
]

pub depth_at-adopt_all :
    (c : Csr) (level : ℕ) (d : List ℤ) (vs : List ℕ) (v : ℕ)
    → ((u : ℕ) → contains u vs ≡ true → (u < length d) × (at_level level d u ≡ false))
    → v < length d
    → depth_at (adopt_all c level d vs) v
      ≡ (if contains v vs && has_parent c level d v then pos (suc level) else depth_at d v)
unfolding adopt_all contains
depth_at-adopt_all c level d [] v away h = refl
depth_at-adopt_all c level d (u ∷ us) v away h =
    let (lu, eu) = away u (ground arith) in
    let rest =
      depth_at-adopt_all c level (adopt c level d u) us v
        (λ w m.
          let (same, size) = at_level-adopt c level d u w lu eu in
          let (lw, ew) = away w (ground arith) in (omega arith, same ∙ ew))
        (let (_, size) = at_level-adopt c level d u u lu eu in omega arith) in
    rest
    ∙ rw (has_parent-adopt c level d u v lu eu)
        (ground (arith, depth_at-set d u v (pos (suc level))))
