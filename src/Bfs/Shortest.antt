-- ===== src/Bfs/Shortest.antt =====
-- What a search has to compute, the number of edges of a shortest walk to each vertex, and why
-- advancing the depths level by level computes it.
use graph_accelerator.Common.{
  ℕ, zero, suc, ◌≤◌, ◌<◌, ◌≡◌, ◌≢◌, refl, sym, ◌∙◌, Bool, true, false, ◌&&◌, List, ℤ, pos, negsuc,
  minus_one, eq_ℤ, eq_ℤ_iff, eq_ℤ_refl, if◌then◌else◌, length, replicate, any-intro, any-elim,
  arith, length-set, length-replicate, get_or-replicate, get_or-set_self, get_or-set_ne,
}
use mathlib.Core.Path.{subst}
use native.Mathlib.Decide.{ℕ_discrete, dec_le}
use graph_accelerator.Bfs.Csr.{Csr, IsCsr, Edge, Walk, here, step, in_ngbs}
use graph_accelerator.Bfs.Depth.{depth_at, at_level, unvisited, start_depth}
use graph_accelerator.Bfs.Advance.{
  advance-eq, advance, length-advance, depth_at-advance, has_parent,
}

-- `x` is the depth of `v`: the length of a shortest walk, or -1 if there is no walk.
abbrev pub IsDistance : Csr → ℕ → ℕ → ℤ → Type 0
IsDistance c src v (pos n) = Walk c src n v × ((m : ℕ) → Walk c src m v → n ≤ m)
IsDistance c src v (negsuc zero) = (m : ℕ) → ¬ Walk c src m v
IsDistance c src v (negsuc (suc _)) = ⊥

pub record IsShortest (c : Csr) (src : ℕ) (d : List ℤ) : Type 0 where
  pub size : length d ≡ c.v_num
  pub each : (v : ℕ) → v < c.v_num → IsDistance c src v (depth_at d v)

-- The same as far as walks of at most `level` edges go.
abbrev pub Settled : Csr → ℕ → ℕ → ℕ → ℤ → Type 0
Settled c src level v (pos n) = (n ≤ level) × Walk c src n v × ((m : ℕ) → Walk c src m v → n ≤ m)
Settled c src level v (negsuc zero) = (m : ℕ) → m ≤ level → ¬ Walk c src m v
Settled c src level v (negsuc (suc _)) = ⊥

pub record IsSettled (c : Csr) (src level : ℕ) (d : List ℤ) : Type 0 where
  pub size : length d ≡ c.v_num
  pub each : (v : ℕ) → v < c.v_num → Settled c src level v (depth_at d v)

Walk-zero : {c : Csr} {src n v : ℕ} → Walk c src n v → n ≡ 0 → v ≡ src
Walk-zero here e = refl
Walk-zero (step w edge) e = absurd (omega arith)

Walk-suc :
    {c : Csr} {src n v : ℕ} (k : ℕ)
    → Walk c src n v
    → n ≡ suc k
    → (u : ℕ) × Walk c src k u × Edge c u v
Walk-suc k here e = absurd (omega arith)
Walk-suc {c} {src} k (step {n} {u} w edge) e =
    (u, subst (λ j. Walk c src j u) (omega arith) w, edge)

pub IsSettled-start : (c : Csr) (src : ℕ) → src < c.v_num → IsSettled c src 0 (start_depth c src)
IsSettled-start c src h = record {
  size = length-set _ src (pos 0) ∙ length-replicate c.v_num minus_one;
  each = λ v lt. elim (ℕ_discrete v src) [
    | yes e ↦
        rw
          (
            e,
            get_or-set_self (replicate c.v_num minus_one) src (pos 0) minus_one
                (let size = length-replicate c.v_num minus_one in omega arith),
          )
          (omega arith, here, λ m w. omega arith)
    | no n ↦
        rw
          (
            get_or-set_ne (replicate c.v_num minus_one) src v (pos 0) minus_one n,
            get_or-replicate c.v_num v minus_one,
          )
          (λ m le w. n (Walk-zero w (omega arith)))
  ];
}

-- No unvisited vertex has a parent: the round changes nothing.
abbrev pub IsQuiet : Csr → ℕ → List ℤ → Type 0
IsQuiet c level d = (v : ℕ) → v < c.v_num → (unvisited d v && has_parent c level d v) ≡ false

module _ (c : Csr) (ok : IsCsr c) (src level : ℕ) (d : List ℤ)
    (settled : IsSettled c src level d) where
  -- A vertex with a parent is one edge further.
  parent-Walk : (v : ℕ) → v < c.v_num → has_parent c level d v ≡ true → Walk c src (suc level) v
  parent-Walk v h e =
      let (u, m, at) = any-elim (at_level level d) (in_ngbs c v) e in
      let lt = ok.in_lt u v h m in
      let here_u : depth_at d u ≡ pos level = (eq_ℤ_iff (depth_at d u) (pos level)).0 at in
      let facts = subst (Settled c src level u) here_u (settled.each u lt) in
      step facts.1 (lt, h, ok.transposed u v lt h ∙ m)

  -- A vertex that the walks of `level` edges do not reach, and that has no parent, is not reached
  -- by one more edge.
  no-Walk :
      (v : ℕ)
      → v < c.v_num
      → ((m : ℕ) → m ≤ level → ¬ Walk c src m v)
      → has_parent c level d v ≡ false
      → (m : ℕ) → m ≤ suc level
      → ¬ Walk c src m v
  no-Walk v h far orphan m le w = elim (dec_le m level) [
    | yes p ↦ far m p w
    | no p ↦
        let (u, wu, edge) = Walk-suc level w (omega arith) in last u wu edge (depth_at d u) refl
  ]
    where
      last : (u : ℕ) → Walk c src level u → Edge c u v → (x : ℤ) → depth_at d u ≡ x → ⊥
      last u wu edge (pos n) e =
          let facts = subst (Settled c src level u) e (settled.each u edge.0) in
          let parent =
            any-intro (at_level level d) u (in_ngbs c v)
              (sym (ok.transposed u v edge.0 h) ∙ edge.2) in
          elim (ℕ_discrete n level) [
            | yes q ↦ cc (parent (rw (e, q) (eq_ℤ_refl (pos level))))
            | no q ↦ far (suc n) (let le = facts.2 level wu in omega arith) (step facts.1 edge)
          ]
      last u wu edge (negsuc zero) e =
          subst (Settled c src level u) e (settled.each u edge.0) level (omega arith) wu
      last u wu edge (negsuc (suc k)) e = subst (Settled c src level u) e (settled.each u edge.0)

  next :
      (v : ℕ) (x : ℤ) (p : Bool)
      → Settled c src level v x
      → (p ≡ true → Walk c src (suc level) v)
      → (p ≡ false
          → ((m : ℕ) → m ≤ level → ¬ Walk c src m v)
          → (m : ℕ) → m ≤ suc level
          → ¬ Walk c src m v)
      → Settled c src (suc level) v (if eq_ℤ x minus_one && p then pos (suc level) else x)
  next v (pos n) p s yes_p no_p = (omega (arith, s.0), s.1, s.2)
  next v (negsuc zero) true s yes_p no_p = (
    omega arith,
    yes_p refl,
    λ m w. elim (dec_le m level) [ yes q ↦ absurd (s m q w) | no q ↦ omega arith ],
  )
  next v (negsuc zero) false s yes_p no_p = no_p refl s
  next v (negsuc (suc k)) p s yes_p no_p = absurd s

  pub IsSettled-advance : IsSettled c src (suc level) (advance c level d)
  IsSettled-advance = record {
    size = length-advance c level d;
    each = λ v h. rw (depth_at-advance c level d v h) (
        next v (depth_at d v) (has_parent c level d v) (settled.each v h) (parent-Walk v h)
          (λ e far. no-Walk v h far e));
  }

  -- After a round that changes nothing every walk is accounted for.
  reached_step :
      (u v : ℕ)
      → Edge c u v
      → IsQuiet c level d
      → depth_at d v ≡ minus_one
      → (x : ℤ) → depth_at d u ≡ x
      → x ≢ minus_one
      → ⊥
  reached_step u v edge quiet ev (pos n) eu ne =
      let facts = subst (Settled c src level u) eu (settled.each u edge.0) in
      let far = subst (Settled c src level v) ev (settled.each v edge.1) in
      elim (ℕ_discrete n level) [
        | yes q ↦
            let parent =
              any-intro (at_level level d) u (in_ngbs c v)
                (sym (ok.transposed u v edge.0 edge.1) ∙ edge.2)
                (rw (eu, q) (eq_ℤ_refl (pos level))) in
            let calm = quiet v edge.1 in
            let new : unvisited d v ≡ true = rw ev in cc (rw (new, parent) at calm)
        | no q ↦ far (suc n) (omega arith) (step facts.1 edge)
      ]
  reached_step u v edge quiet ev (negsuc zero) eu ne = ne refl
  reached_step u v edge quiet ev (negsuc (suc k)) eu ne =
      subst (Settled c src level u) eu (settled.each u edge.0)

  reached :
      src < c.v_num
      → IsQuiet c level d
      → {m v : ℕ} → Walk c src m v
      → v < c.v_num
      → depth_at d v ≢ minus_one
  reached hs quiet here h e =
      subst (Settled c src level src) e (settled.each src h) 0 (omega arith) here
  reached hs quiet (step {u} {v} w edge) h e =
      reached_step u v edge quiet e (depth_at d u) refl (reached hs quiet w edge.0)

  finished :
      (v : ℕ) (x : ℤ)
      → Settled c src level v x
      → (x ≡ minus_one → (m : ℕ) → ¬ Walk c src m v)
      → IsDistance c src v x
  finished v (pos n) s far = (s.1, s.2)
  finished v (negsuc zero) s far = far refl
  finished v (negsuc (suc k)) s far = s

  -- When a round changes nothing the depths are right.
  pub IsShortest-quiet : src < c.v_num → IsQuiet c level d → IsShortest c src d
  IsShortest-quiet hs quiet = record {
    size = settled.size;
    each = λ v h. finished v (depth_at d v) (settled.each v h) (λ e m w. reached hs quiet w h e);
  }

  pub advance-quiet : IsQuiet c level d → advance c level d ≡ d
  advance-quiet quiet = sym (advance-eq c level d d settled.size (λ v h. rw (quiet v h)))

  -- Only an unvisited vertex with a parent gets the next depth.
  at_next_level :
      (v : ℕ) (x : ℤ) (p : Bool)
      → Settled c src level v x
      → (if eq_ℤ x minus_one && p then pos (suc level) else x) ≡ pos (suc level)
      → (x ≡ minus_one) × (p ≡ true)
  at_next_level v (pos n) p s e = ground arith
  at_next_level v (negsuc zero) true s e = (refl, refl)
  at_next_level v (negsuc zero) false s e = cc
  at_next_level v (negsuc (suc k)) p s e = absurd s

  pub at_level-advance :
      (v : ℕ)
      → v < c.v_num
      → at_level (suc level) (advance c level d) v ≡ true
      → (depth_at d v ≡ minus_one) × (depth_at (advance c level d) v ≡ pos (suc level))
  at_level-advance v h e =
      let reads = depth_at-advance c level d v h in
      let next_d : depth_at (advance c level d) v ≡ pos (suc level) =
        (eq_ℤ_iff (depth_at (advance c level d) v) (pos (suc level))).0 e in
      let (old, _) =
        at_next_level v (depth_at d v) (has_parent c level d v) (settled.each v h)
          (sym reads ∙ next_d) in
      (old, next_d)

  test_next_level :
      (v : ℕ) (x : ℤ) (p : Bool)
      → Settled c src level v x
      → eq_ℤ (if eq_ℤ x minus_one && p then pos (suc level) else x) (pos (suc level))
        ≡ (eq_ℤ x minus_one && p)
  test_next_level v (pos n) p s = ground arith
  test_next_level v (negsuc zero) true s = eq_ℤ_refl (pos (suc level))
  test_next_level v (negsuc zero) false s = refl
  test_next_level v (negsuc (suc k)) p s = absurd s

  -- After the round the next level holds the unvisited vertices that have a parent.
  pub at_level-advance_lem :
      (v : ℕ)
      → v < c.v_num
      → at_level (suc level) (advance c level d) v ≡ (unvisited d v && has_parent c level d v)
  at_level-advance_lem v h =
      rw (depth_at-advance c level d v h)
        (test_next_level v (depth_at d v) (has_parent c level d v) (settled.each v h))
