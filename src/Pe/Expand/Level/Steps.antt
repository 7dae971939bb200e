-- ===== src/Pe/Expand/Level/Steps.antt =====
-- Every step keeps the invariant, so every run does.
use graph_accelerator.Common.{
  ℕ, ◌%◌, ◌<◌, ◌≡◌, refl, true, ◌&&◌, ◌==◌, ltb, List, [], ◌∷◌, ◌++◌, ℤ, inl, inr, arith,
  Bool-cases, Option-cases, contains-concat, to_char-next,
}
use mathlib.Core.List.{append_assoc, append-nil}
use graph_accelerator.Bfs.Csr.{Csr}
use graph_accelerator.Bfs.Depth.{at_level}
use graph_accelerator.Bfs.TopDown.Round.{all_out}
use graph_accelerator.Memory.Layout.{Layout}
use graph_accelerator.Pe.Port.Flow.{List-cases}
use graph_accelerator.Pe.Expand.{Sizes}
use graph_accelerator.Pe.Expand.Run.{
  System, Action, finds, turn_frontier, place_frontier, send_rpao, receive_rpao, turn_rpao_resp,
  take_ciao, turn_ciao, place_ciao, send_ciao, receive_ciao, turn_ciao_resp, turn_depth,
  place_depth, send_depth, receive_depth, turn_depth_resp, turn_depth_analysis, place_write,
  sends_write, receives_write, turn_write_resp, step, run, receive_write,
}
use graph_accelerator.Pe.Expand.Pending.{reads_left, offsets_left}
use graph_accelerator.Pe.Expand.Reading.{IsReading-kept, Succeeds, down}
use graph_accelerator.Pe.Expand.Reading.Rows
use graph_accelerator.Pe.Expand.Reading.Targets
use graph_accelerator.Pe.Expand.Writing.{is_cell}
use graph_accelerator.Pe.Expand.Writing.Reads
use graph_accelerator.Pe.Expand.Writing.Writes
use graph_accelerator.Pe.Expand.Writing.Store.{IsWriting-receive_write}
use graph_accelerator.Pe.Expand.Level.{
  IsLevel, IsLevel-Looks, IsLevel-Drains, IsLevel-Moves, IsLevel-result, all_out-append,
  reads_left-finds,
}

module _ (c : Csr) (z : Sizes) (l : Layout) (level : ℕ) (d0 : List ℤ) where
  at_level-before :
      (t : System) (u : ℕ)
      → IsLevel c l level d0 t
      → at_level level t.depth u ≡ true
      → at_level level d0 u ≡ true
  unfolding is_cell
  at_level-before t u inv h = let k = inv.writing.cell u in ground (arith, h, k, to_char-next level)

  IsLevel-finds :
      (t : System) (u : ℕ)
      → IsLevel c l level d0 t
      → u < c.v_num
      → at_level level t.depth u ≡ true
      → IsLevel c l level d0 (record t {
        element = record (t.element) { frontier_buffer = t.element.frontier_buffer ++ u ∷ [] };
        found = t.found ++ u ∷ [];
      })
  unfolding all_out
  IsLevel-finds t u inv lt h =
      let (e, r) = reads_left-finds c l level d0 t.element u inv.reading in
      record {
        seen = inv.seen;
        order = simp (e, all_out-append, ← inv.order, append_assoc, append-nil, all_out);
        reading = r;
        writing = inv.writing;
        in_level = λ v m. elim (Bool-cases (v == u)) [
          | inl q ↦ let q' : v ≡ u = ground (arith, q) in rw q' (lt, at_level-before t u inv h)
          | inr q ↦ inv.in_level v (ground (arith, q, m, contains-concat v u t.found))
        ];
      }

  IsLevel-receive_write :
      (t : System) → IsLevel c l level d0 t → IsLevel c l level d0 (receive_write l t)
  unfolding receive_write reads_left offsets_left
  IsLevel-receive_write t inv = elim (List-cases t.element.write_flight) [
    | inl e ↦ simp (e, receive_write) inv
    | inr (w, rest, e) ↦
        simp (e, receive_write)
          (record {
            seen = inv.seen;
            order = inv.order;
            reading = IsReading-kept t.element _ inv.reading refl refl refl refl;
            writing =
                IsWriting-receive_write l level d0 inv.seen t.depth (down t.element) inv.writing w
                  rest e;
            in_level = inv.in_level;
          })
  ]

  pub IsLevel-step :
      (a : Action) (t : System)
      → z.base_len % 4 ≡ 0
      → IsLevel c l level d0 t
      → Succeeds (IsLevel c l level d0) (step c z l level a t)
  unfolding step
  IsLevel-step (finds u) t b inv = elim (Bool-cases (ltb u c.v_num && at_level level t.depth u)) [
    | inl h ↦ rw h (IsLevel-finds t u inv (ground (arith, h)) (ground (arith, h)))
    | inr h ↦ rw h inv
  ]
  IsLevel-step turn_frontier t b inv =
      IsLevel-Moves c l level d0 t _ inv (Rows.Moves-frontier_turn c l z t.element inv.reading)
  IsLevel-step place_frontier t b inv =
      IsLevel-Moves c l level d0 t _ inv (Rows.Moves-frontier_place c l t.element inv.reading)
  IsLevel-step send_rpao t b inv =
      IsLevel-Moves c l level d0 t _ inv (Rows.Moves-send_rpao c l t.element inv.reading)
  IsLevel-step receive_rpao t b inv =
      IsLevel-Moves c l level d0 t _ inv (Rows.Moves-receive_rpao c l t.element inv.reading)
  IsLevel-step turn_rpao_resp t b inv =
      IsLevel-result c l level d0 _ t _ (λ s. IsLevel-Moves c l level d0 t s inv)
        (Rows.Moves-rpao_resp_turn c l t.element inv.reading)
  IsLevel-step take_ciao t b inv =
      IsLevel-Moves c l level d0 t _ inv (Rows.Moves-ciao_take c l t.element inv.reading)
  IsLevel-step turn_ciao t b inv =
      IsLevel-Moves c l level d0 t _ inv (Targets.Moves-ciao_turn c l z t.element b inv.reading)
  IsLevel-step place_ciao t b inv =
      IsLevel-Moves c l level d0 t _ inv (Targets.Moves-ciao_place c l t.element inv.reading)
  IsLevel-step send_ciao t b inv =
      IsLevel-Moves c l level d0 t _ inv (Targets.Moves-send_ciao c l t.element inv.reading)
  IsLevel-step receive_ciao t b inv =
      IsLevel-Moves c l level d0 t _ inv (Targets.Moves-receive_ciao c l t.element inv.reading)
  IsLevel-step turn_ciao_resp t b inv =
      IsLevel-result c l level d0 _ t _ (λ s. IsLevel-Moves c l level d0 t s inv)
        (Targets.Moves-ciao_resp_turn c l t.element inv.reading)
  IsLevel-step turn_depth t b inv =
      IsLevel-Drains c l level d0 t _ inv
        (Reads.Drains-depth_turn c l level d0 inv.seen t.depth z t.element inv.reading inv.writing)
  IsLevel-step place_depth t b inv =
      IsLevel-Drains c l level d0 t _ inv
        (Reads.Drains-depth_place c l level d0 inv.seen t.depth t.element inv.reading inv.writing)
  IsLevel-step send_depth t b inv =
      IsLevel-Drains c l level d0 t _ inv
        (Reads.Drains-send_depth c l level d0 inv.seen t.depth t.element inv.reading inv.writing)
  IsLevel-step receive_depth t b inv =
      IsLevel-Drains c l level d0 t _ inv
        (Reads.Drains-receive_depth c l level d0 inv.seen t.depth t.element inv.reading inv.writing)
  IsLevel-step turn_depth_resp t b inv =
      IsLevel-Drains c l level d0 t _ inv (
        Reads.Drains-depth_resp_turn c l level d0 inv.seen t.depth t.element inv.reading
          inv.writing)
  IsLevel-step turn_depth_analysis t b inv =
      IsLevel-result c l level d0 _ t _ (λ s. IsLevel-Looks c l level d0 t s inv)
        (Writes.Looks-depth_analysis_turn c l level d0 inv.seen t.depth z t.element inv.reading
          inv.writing)
  IsLevel-step place_write t b inv =
      IsLevel-result c l level d0 _ t _ (λ s. IsLevel-Drains c l level d0 t s inv)
        (Writes.Drains-write_place c l level d0 inv.seen t.depth t.element inv.reading inv.writing)
  IsLevel-step sends_write t b inv =
      IsLevel-Drains c l level d0 t _ inv
        (Writes.Drains-send_write c l level d0 inv.seen t.depth t.element inv.reading inv.writing)
  IsLevel-step receives_write t b inv = IsLevel-receive_write t inv
  IsLevel-step turn_write_resp t b inv = IsLevel-Drains c l level d0 t _ inv (
      Writes.Drains-write_resp_turn c l level d0 inv.seen t.depth t.element inv.reading inv.writing)

  pub IsLevel-run :
      (actions : List Action) (t : System)
      → z.base_len % 4 ≡ 0
      → IsLevel c l level d0 t
      → Succeeds (IsLevel c l level d0) (run c z l level actions t)
  unfolding run
  IsLevel-run [] t b inv = inv
  IsLevel-run (a ∷ rest) t b inv =
      let k = IsLevel-step a t b inv in
      elim (Option-cases (step c z l level a t)) [
        | inl e ↦ absurd (rw e at k)
        | inr (t', e) ↦ rw (e, run) (IsLevel-run rest t' b (rw e at k))
      ]
