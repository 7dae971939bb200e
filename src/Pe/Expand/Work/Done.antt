-- ===== src/Pe/Expand/Work/Done.antt =====
-- Every level can be brought to its end.
use graph_accelerator.Common.{
  ℕ, zero, suc, ◌/◌, ◌%◌, ◌≤◌, ◌<◌, ◌≡◌, ◌⊎◌, refl, ap, ◌∙◌, true, List, [], ◌∷◌, ◌++◌, ℤ, none,
  some, length, length-append, contains, arith, inl, inr, Option-cases,
}
use graph_accelerator.Bfs.Csr.{Csr, IsCsr}
use graph_accelerator.Bfs.Depth.{at_level}
use graph_accelerator.Bfs.Advance.{advance}
use graph_accelerator.Bfs.TopDown.Round.{all_out}
use graph_accelerator.Memory.Layout.{Layout}
use graph_accelerator.Pe.Expand.{Sizes, Expand}
use graph_accelerator.Pe.Expand.Run.{System, Action, step, run, is_idle}
use graph_accelerator.Pe.Expand.Pending.{reads_left}
use graph_accelerator.Pe.Expand.Level.{IsLevel}
use graph_accelerator.Pe.Expand.Level.Steps.{IsLevel-step}
use graph_accelerator.Pe.Expand.Correct.{begin_level, run-IsLevel, run-advance}
use graph_accelerator.Pe.Expand.Stalls.{is_full}
use graph_accelerator.Pe.Expand.Work.{work, length-reads_left}
use graph_accelerator.Pe.Expand.Work.Progress.{progress}

-- A run of some more steps to a state where the level is done or `ciaoBuffer` full.
abbrev pub Ends : Csr → Sizes → Layout → ℕ → System → Type 0
Ends c z l level t =
    (more : List Action) × (t' : System) × (run c z l level more t ≡ some t')
    × (t'.found ≡ t.found)
    × (length more ≤ work c l t.element)
    × ((is_idle t'.element ≡ true) ⊎ (is_full z t'.element ≡ true))

-- The loop of the chunks makes progress, and a row and a chunk fit in their buffers.
pub record HasRoom (z : Sizes) : Type 0 where
  pub whole : z.base_len % 4 ≡ 0
  pub some_len : 0 < z.base_len
  pub ciao_room : z.base_len / 4 < z.ciao_buffer_depth
  pub rpao_room : 2 < z.rpao_buffer_depth

module _ (c : Csr) (z : Sizes) (l : Layout) (level : ℕ) where
  run-nil : (t : System) → run c z l level [] t ≡ some t
  unfolding run
  run-nil t = refl

  run-cons :
      (a : Action) (more : List Action) (t t' : System)
      → step c z l level a t ≡ some t'
      → run c z l level (a ∷ more) t ≡ run c z l level more t'
  unfolding run
  run-cons a more t t' e = rw (e, run) refl

  run-append :
      (actions more : List Action) (t t' : System)
      → run c z l level actions t ≡ some t'
      → run c z l level (actions ++ more) t ≡ run c z l level more t'
  unfolding run
  run-append [] more t t' e = ap (λ o. elim o [ none ↦ none | some u ↦ run c z l level more u ]) e
  run-append (a ∷ rest) more t t' e = elim (Option-cases (step c z l level a t)) [
    | inl f ↦ let g : none ≡ some t' = rw (f, run) at e in absurd cc
    | inr (u, f) ↦ rw (f, run) (run-append rest more u t' (rw (f, run) at e))
  ]

-- The targets of few edges do not fill the buffer.
not_full :
    (c : Csr) (z : Sizes) (l : Layout) (level : ℕ) (d0 : List ℤ) (t : System)
    → IsLevel c l level d0 t
    → length (all_out c t.found) < z.depth_buffer_depth
    → is_full z t.element ≡ true
    → ⊥
unfolding is_full
not_full c z l level d0 t inv few full =
    let e = ap length inv.order in
    let f = length-append inv.seen (t.element.vidx_buffer ++ reads_left c l t.element) in
    let g = length-append t.element.vidx_buffer (reads_left c l t.element) in
    let h = length-reads_left c l t.element in
    let top : z.depth_buffer_depth ≤ length t.element.ciao_buffer = ground (arith, full) in
    omega (arith, e, f, g, h, top, few)

module _ (c : Csr) (z : Sizes) (l : Layout) (level : ℕ) (d0 : List ℤ) (room : HasRoom z) where
  ends :
      (fuel : ℕ) (t : System)
      → work c l t.element < fuel
      → IsLevel c l level d0 t
      → Ends c z l level t
  ends zero t lt inv = absurd (omega arith)
  ends (suc fuel) t lt inv =
      elim (progress c z l level d0 t inv room.whole room.some_len room.ciao_room room.rpao_room) [
        | inl idle ↦ ([], t, run-nil c z l level t, refl, omega arith, inl idle)
        | inr next ↦ elim next [
          | inl full ↦ ([], t, run-nil c z l level t, refl, omega arith, inr full)
          | inr (a, low) ↦
              let (t', e, f, less) = low in
              let inv' : IsLevel c l level d0 t' =
                rw e at (IsLevel-step c z l level d0 a t room.whole inv) in
              let (more, u, g, h, small, done) = ends fuel t' (omega arith) inv' in
              (a ∷ more, u, run-cons c z l level a more t t' e ∙ g, h ∙ f, omega arith, done)
        ]
      ]

module _ (c : Csr) (z : Sizes) (l : Layout) (level : ℕ) (s : Expand) (d : List ℤ)
    (actions : List Action) (room : HasRoom z) (idle : is_idle s ≡ true) (t : System)
    (reached : run c z l level actions (begin_level s d) ≡ some t) where
  reached-IsLevel : IsLevel c l level d t
  reached-IsLevel = rw reached at (run-IsLevel c z l level s d actions room.whole idle)

  -- From every state that a run from an idle element has reached, at most as many more steps as it has work left
  -- bring the level to its end or to a state where `ciaoBuffer` is full, with no more vertices given. Chunks
  -- are of whole words, at least one, and a row and a chunk fit in their buffers.
  pub run-Ends : Ends c z l level t
  run-Ends = ends c z l level d room (suc (work c l t.element)) t (omega arith) reached-IsLevel

  -- When a run from an idle element has been given every vertex of the level, and the edges out of them are
  -- fewer than the places of `depthBuffer`, more steps can end the level, and the depths in the memory
  -- are then those of one level further. Chunks are of whole words, at least one, a row and a chunk fit
  -- in their buffers, the arrays are well formed, each vertex has a depth and the level is below 127.
  pub run-completes :
      IsCsr c
      → length d ≡ c.v_num
      → level < 127
      → ((u : ℕ) → u < c.v_num → at_level level d u ≡ true → contains u t.found ≡ true)
      → length (all_out c t.found) < z.depth_buffer_depth
      → (more : List Action) × (t' : System) × (run c z l level more t ≡ some t')
        × (is_idle t'.element ≡ true)
        × (t'.depth ≡ advance c level d)
  run-completes ok n low all few =
      let (more, t', e, f, small, done) = run-Ends in
      let whole : run c z l level (actions ++ more) (begin_level s d) ≡ some t' =
        run-append c z l level actions more (begin_level s d) t reached ∙ e in
      let inv : IsLevel c l level d t' =
        rw whole at (run-IsLevel c z l level s d (actions ++ more) room.whole idle) in
      let finished : is_idle t'.element ≡ true = elim done [
        | inl k ↦ k
        | inr k ↦ absurd (not_full c z l level d t' inv (rw f few) k)
      ] in
      (
        more,
        t',
        e,
        finished,
        run-advance c z l level s d (actions ++ more) room.whole idle ok n low t' whole
            (λ u lt at. rw f (all u lt at)) finished,
      )
