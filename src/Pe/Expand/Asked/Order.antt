-- ===== src/Pe/Expand/Asked/Order.antt =====
-- A run asks for the depths of the targets in order.
use graph_accelerator.Common.{
  ℕ, ◌%◌, ◌≡◌, refl, sym, ap, ◌∙◌, true, ◌&&◌, ltb, List, [], ◌∷◌, ◌++◌, ℤ, Option, none, some, inl,
  inr, Bool-cases, Option-cases,
}
use mathlib.Core.List.{append_assoc, append-nil, map-append}
use graph_accelerator.Bfs.Csr.{Csr, out_ngbs}
use graph_accelerator.Bfs.Depth.{at_level}
use graph_accelerator.Bfs.TopDown.Round.{all_out}
use graph_accelerator.Memory.Layout.{Layout}
use graph_accelerator.Pe.Port.Flow.{List-cases}
use graph_accelerator.Pe.Expand.{Sizes, Expand}
use graph_accelerator.Pe.Expand.Run.{
  System, Action, finds, turn_frontier, place_frontier, send_rpao, receive_rpao, turn_rpao_resp,
  take_ciao, turn_ciao, place_ciao, send_ciao, receive_ciao, turn_ciao_resp, turn_depth,
  place_depth, send_depth, receive_depth, turn_depth_resp, turn_depth_analysis, place_write,
  sends_write, receives_write, turn_write_resp, step, run, receive_write, with_element, with_result,
  is_idle,
}
use graph_accelerator.Pe.Expand.Pending.{reads_left, offsets_left}
use graph_accelerator.Pe.Expand.Reading.Rows
use graph_accelerator.Pe.Expand.Reading.Targets
use graph_accelerator.Pe.Expand.Level.{IsLevel, reads_left-finds, all_out-append}
use graph_accelerator.Pe.Expand.Level.Steps.{IsLevel-step}
use graph_accelerator.Pe.Expand.Level.Done.{IsLevel-start, Idle-is_idle, reads_left-Idle}
use graph_accelerator.Pe.Expand.Correct.{begin_level, run-IsLevel, Succeeds-some}
use graph_accelerator.Pe.Expand.Asked.{
  new_read, depth_reads, addresses, new_read-kept, Quiet, Quiet-kept, Quiet-Moves,
  Quiet-depth_place, Quiet-depth_resp_turn, Quietly, Quietly-Moves, Quietly-write_place,
  Quietly-depth_analysis_turn, Quiet-send_write, Quiet-write_resp_turn, asked-depth_turn,
}

module _ (c : Csr) (z : Sizes) (l : Layout) (level : ℕ) (d0 : List ℤ) where
  -- A step begins to read at the next target of those left, or at none, and may bring a vertex.
  record Asks (t t' : System) : Type 0 where
    new : List ℕ
    found_eq : t'.found ≡ t.found ++ new
    asked :
        new_read t.element t'.element ++ addresses l (reads_left c l t'.element)
        ≡ addresses l (reads_left c l t.element ++ all_out c new)

  abbrev AsksOr : System → Option System → Type 0
  AsksOr t none = Unit
  AsksOr t (some t') = Asks t t'

  Asks-Quiet : (t t' : System) → t'.found ≡ t.found → Quiet c l t.element t'.element → Asks t t'
  unfolding all_out
  Asks-Quiet t t' e q = record {
    new = [];
    found_eq = e ∙ sym (append-nil t.found);
    asked = rw (q.no_read, q.same) (ap (addresses l) (sym (append-nil _)));
  }

  AsksOr-Quietly :
      (t : System) (o : Option Expand) → Quietly c l t.element o → AsksOr t (with_result t o)
  AsksOr-Quietly t none q = tt
  AsksOr-Quietly t (some s) q = Asks-Quiet t (with_element t s) refl q

  AsksOr-step :
      (a : Action) (t : System)
      → z.base_len % 4 ≡ 0
      → IsLevel c l level d0 t
      → AsksOr t (step c z l level a t)
  unfolding step reads_left offsets_left receive_write all_out
  AsksOr-step (finds u) t b inv = elim (Bool-cases (ltb u c.v_num && at_level level t.depth u)) [
    | inl h ↦ rw h (
        let (e, r) = reads_left-finds c l level d0 t.element u inv.reading in
        let same =
          new_read-kept t.element
            (record (t.element) { frontier_buffer = t.element.frontier_buffer ++ u ∷ [] }) refl in
        record {
          new = u ∷ [];
          found_eq = refl;
          asked = rw (same, e, append-nil (out_ngbs c u)) refl;
        })
    | inr h ↦ rw h (Asks-Quiet t t refl (Quiet-kept c l t.element t.element refl refl))
  ]
  AsksOr-step turn_frontier t b inv =
      Asks-Quiet t _ refl
        (Quiet-Moves c l t.element _ (Rows.Moves-frontier_turn c l z t.element inv.reading))
  AsksOr-step place_frontier t b inv =
      Asks-Quiet t _ refl
        (Quiet-Moves c l t.element _ (Rows.Moves-frontier_place c l t.element inv.reading))
  AsksOr-step send_rpao t b inv =
      Asks-Quiet t _ refl
        (Quiet-Moves c l t.element _ (Rows.Moves-send_rpao c l t.element inv.reading))
  AsksOr-step receive_rpao t b inv =
      Asks-Quiet t _ refl
        (Quiet-Moves c l t.element _ (Rows.Moves-receive_rpao c l t.element inv.reading))
  AsksOr-step turn_rpao_resp t b inv =
      AsksOr-Quietly t _
        (Quietly-Moves c l t.element _ (Rows.Moves-rpao_resp_turn c l t.element inv.reading))
  AsksOr-step take_ciao t b inv =
      Asks-Quiet t _ refl
        (Quiet-Moves c l t.element _ (Rows.Moves-ciao_take c l t.element inv.reading))
  AsksOr-step turn_ciao t b inv =
      Asks-Quiet t _ refl
        (Quiet-Moves c l t.element _ (Targets.Moves-ciao_turn c l z t.element b inv.reading))
  AsksOr-step place_ciao t b inv =
      Asks-Quiet t _ refl
        (Quiet-Moves c l t.element _ (Targets.Moves-ciao_place c l t.element inv.reading))
  AsksOr-step send_ciao t b inv =
      Asks-Quiet t _ refl
        (Quiet-Moves c l t.element _ (Targets.Moves-send_ciao c l t.element inv.reading))
  AsksOr-step receive_ciao t b inv =
      Asks-Quiet t _ refl
        (Quiet-Moves c l t.element _ (Targets.Moves-receive_ciao c l t.element inv.reading))
  AsksOr-step turn_ciao_resp t b inv =
      AsksOr-Quietly t _
        (Quietly-Moves c l t.element _ (Targets.Moves-ciao_resp_turn c l t.element inv.reading))
  AsksOr-step turn_depth t b inv = record {
    new = [];
    found_eq = sym (append-nil t.found);
    asked = asked-depth_turn c l z t.element ∙ ap (addresses l) (sym (append-nil _));
  }
  AsksOr-step place_depth t b inv = Asks-Quiet t _ refl (Quiet-depth_place c l t.element)
  AsksOr-step send_depth t b inv = Asks-Quiet t _ refl (Quiet-kept c l t.element _ refl refl)
  AsksOr-step receive_depth t b inv = Asks-Quiet t _ refl (Quiet-kept c l t.element _ refl refl)
  AsksOr-step turn_depth_resp t b inv = Asks-Quiet t _ refl (Quiet-depth_resp_turn c l t.element)
  AsksOr-step turn_depth_analysis t b inv =
      AsksOr-Quietly t _ (Quietly-depth_analysis_turn c l z level t.element)
  AsksOr-step place_write t b inv = AsksOr-Quietly t _ (Quietly-write_place c l t.element)
  AsksOr-step sends_write t b inv = Asks-Quiet t _ refl (Quiet-send_write c l t.element)
  AsksOr-step receives_write t b inv = elim (List-cases t.element.write_flight) [
    | inl e ↦
        simp (e, receive_write) (Asks-Quiet t t refl (Quiet-kept c l t.element t.element refl refl))
    | inr (w, rest, e) ↦
        simp (e, receive_write) (Asks-Quiet t _ refl (Quiet-kept c l t.element _ refl refl))
  ]
  AsksOr-step turn_write_resp t b inv = Asks-Quiet t _ refl (Quiet-write_resp_turn c l t.element)

  -- The same of a run.
  run-asks :
      (actions : List Action) (t t' : System)
      → z.base_len % 4 ≡ 0
      → IsLevel c l level d0 t
      → run c z l level actions t ≡ some t'
      → (new : List ℕ) × (t'.found ≡ t.found ++ new)
        × (depth_reads c z l level actions t ++ addresses l (reads_left c l t'.element)
            ≡ addresses l (reads_left c l t.element ++ all_out c new))
  unfolding run depth_reads all_out
  run-asks [] t t' b inv e =
      let same : t' ≡ t = ap (λ o. elim o [ none ↦ t | some r ↦ r ]) (sym e) in
      (
        [],
        ap (λ r. r.found) same ∙ sym (append-nil t.found),
        ap (λ r. addresses l (reads_left c l r.element)) same
            ∙ ap (addresses l) (sym (append-nil _)),
      )
  run-asks (a ∷ rest) t t' b inv e = elim (Option-cases (step c z l level a t)) [
    | inl f ↦ let g : none ≡ some t' = rw (f, run) at e in absurd cc
    | inr (u, f) ↦
        let k : Asks t u = rw f at (AsksOr-step a t b inv) in
        let inv' : IsLevel c l level d0 u = rw f at (IsLevel-step c z l level d0 a t b inv) in
        let (more, g, h) = run-asks rest u t' b inv' (rw (f, run) at e) in
        (
          k.new ++ more,
          g ∙ ap (λ r. r ++ more) k.found_eq ∙ append_assoc t.found k.new more,
          rw (f, depth_reads) (asks-append t u t' k.new more _ _ k.asked h),
        )
  ]
    where
      asks-append :
          (t u t' : System) (new more read reads : List ℕ)
          → read ++ addresses l (reads_left c l u.element)
            ≡ addresses l (reads_left c l t.element ++ all_out c new)
          → reads ++ addresses l (reads_left c l t'.element)
            ≡ addresses l (reads_left c l u.element ++ all_out c more)
          → (read ++ reads) ++ addresses l (reads_left c l t'.element)
            ≡ addresses l (reads_left c l t.element ++ all_out c (new ++ more))
      asks-append t u t' new more read reads e f =
          append_assoc read reads _
          ∙ ap (λ r. read ++ r) f
          ∙ ap (λ r. read ++ r) (map-append _ (reads_left c l u.element) (all_out c more))
          ∙ sym (append_assoc read _ _)
          ∙ ap (λ r. r ++ addresses l (all_out c more)) e
          ∙ sym (map-append _ (reads_left c l t.element ++ all_out c new) (all_out c more))
          ∙ ap (addresses l) (
              append_assoc (reads_left c l t.element) (all_out c new) (all_out c more)
              ∙ ap (λ r. reads_left c l t.element ++ r) (sym (all_out-append c new more)))

module _ (c : Csr) (z : Sizes) (l : Layout) (level : ℕ) (s : Expand) (d : List ℤ)
    (actions : List Action) where
  -- From an idle element, with chunks of whole words, the threads run without a fault in any order of
  -- their steps, the ports' and the memory's. At any time the addresses of the depths that they have begun to
  -- read, followed by those of the targets still pending in the buffers, bursts and the loop before, are
  -- the addresses of the depths of the targets of the edges out of the vertices given, each edge once
  -- and in order.
  pub run-order :
      z.base_len % 4 ≡ 0
      → is_idle s ≡ true
      → (t : System) × (run c z l level actions (begin_level s d) ≡ some t)
        × (depth_reads c z l level actions (begin_level s d)
              ++ addresses l (reads_left c l t.element)
            ≡ addresses l (all_out c t.found))
  run-order b h =
      let (t, e, inv) = Succeeds-some _ _ (run-IsLevel c z l level s d actions b h) in
      let (new, f, g) =
        run-asks c z l level d actions (begin_level s d) t b (IsLevel-start c l level d s h) e in
      let none_yet = reads_left-Idle c l level d s (Idle-is_idle s h) in
      (
        t,
        e,
        g
            ∙ ap (λ r. addresses l (r ++ all_out c new)) none_yet
            ∙ ap (λ r. addresses l (all_out c r)) (sym f),
      )
