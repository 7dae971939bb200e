-- ===== src/Pe/Expand/Level.antt =====
-- The invariant of a level, which every step keeps: the targets looked at and those pending are, in
-- their order, the targets of the edges out of the vertices found.
pub mod Steps
pub mod Done
use graph_accelerator.Common.{
  ℕ, ◌-◌, ◌<◌, ◌≡◌, refl, sym, ap, ◌∙◌, Bool, true, ltb, List, [], ◌∷◌, ◌++◌, ℤ, Option, none, some,
  contains, slice,
}
use mathlib.Core.List.{append_assoc, append-nil}
use graph_accelerator.Bfs.Csr.{Csr, out_ngbs}
use graph_accelerator.Bfs.Depth.{at_level}
use graph_accelerator.Bfs.TopDown.Round.{all_out}
use graph_accelerator.Memory.Layout.{Layout}
use graph_accelerator.Pe.Port.Flow.{flat, flat-append}
use graph_accelerator.Pe.Expand.{Expand}
use graph_accelerator.Pe.Expand.Run.{System, with_element, with_result}
use graph_accelerator.Pe.Expand.Pending.{
  reads_left, offsets_left, offset_pair, rows, rows-append, is_even, is_even-append,
}
use graph_accelerator.Pe.Expand.Reading.{IsReading, Moves, Succeeds, down}
use graph_accelerator.Pe.Expand.Writing.{IsWriting, Drains, Drains-Moves}
use graph_accelerator.Pe.Expand.Writing.Writes.{Looks}

pub record IsLevel (c : Csr) (l : Layout) (level : ℕ) (d0 : List ℤ) (t : System) : Type 0 where
  pub seen : List ℕ
  pub order : seen ++ (t.element.vidx_buffer ++ reads_left c l t.element) ≡ all_out c t.found
  pub reading : IsReading c l t.element
  pub writing : IsWriting l level d0 seen t.depth (down t.element)
  pub in_level : (u : ℕ) → contains u t.found ≡ true → (u < c.v_num) × (at_level level d0 u ≡ true)

pub all_out-append :
    (c : Csr) (us vs : List ℕ) → all_out c (us ++ vs) ≡ all_out c us ++ all_out c vs
unfolding all_out
all_out-append c [] vs = refl
all_out-append c (u ∷ us) vs =
    ap (λ r. out_ngbs c u ++ r) (all_out-append c us vs)
    ∙ sym (append_assoc (out_ngbs c u) (all_out c us) (all_out c vs))

module _ (c : Csr) (l : Layout) (level : ℕ) (d0 : List ℤ) where
  pub IsLevel-Looks :
      (t : System) (s : Expand) (inv : IsLevel c l level d0 t)
      → Looks c l level d0 inv.seen t.depth t.element s
      → IsLevel c l level d0 (with_element t s)
  IsLevel-Looks t s inv k = record {
    seen = k.looked;
    order = k.same ∙ inv.order;
    reading = k.reading;
    writing = k.writing;
    in_level = inv.in_level;
  }

  pub IsLevel-Drains :
      (t : System) (s : Expand) (inv : IsLevel c l level d0 t)
      → Drains c l level d0 inv.seen t.depth t.element s
      → IsLevel c l level d0 (with_element t s)
  IsLevel-Drains t s inv k = record {
    seen = inv.seen;
    order = ap (λ r. inv.seen ++ r) k.same ∙ inv.order;
    reading = k.reading;
    writing = k.writing;
    in_level = inv.in_level;
  }

  pub IsLevel-Moves :
      (t : System) (s : Expand) (inv : IsLevel c l level d0 t)
      → Moves c l t.element s
      → IsLevel c l level d0 (with_element t s)
  IsLevel-Moves t s inv m = IsLevel-Drains t s inv (Drains-Moves t.element s inv.writing m)

  -- A turn with a result keeps the invariant if its results do.
  pub IsLevel-result :
      (P : Expand → Type 0) (t : System) (o : Option Expand)
      → ((s : Expand) → P s → IsLevel c l level d0 (with_element t s))
      → Succeeds P o
      → Succeeds (IsLevel c l level d0) (with_result t o)
  IsLevel-result P t none k h = h
  IsLevel-result P t (some s) k h = k s h

  -- A vertex that is found brings its edges.
  offsets_left-finds :
      (s : Expand) (u : ℕ)
      → offsets_left c l (record s { frontier_buffer = s.frontier_buffer ++ u ∷ [] })
        ≡ offsets_left c l s ++ offset_pair c u
  unfolding offsets_left flat
  offsets_left-finds s u = simp (flat-append, append_assoc, append-nil, flat)

  pub reads_left-finds :
      (s : Expand) (u : ℕ)
      → IsReading c l s
      → (reads_left c l (record s { frontier_buffer = s.frontier_buffer ++ u ∷ [] })
          ≡ reads_left c l s ++ out_ngbs c u)
        × IsReading c l (record s { frontier_buffer = s.frontier_buffer ++ u ∷ [] })
  unfolding reads_left rows slice is_even
  reads_left-finds s u r =
      let o = offsets_left-finds s u in
      let e = rows-append c (offsets_left c l s) (offset_pair c u) r.even in
      (
        simp (o, e, append_assoc, append-nil, rows, slice),
        record {
          even = ap is_even o ∙ is_even-append (offsets_left c l s) (offset_pair c u) refl ∙ r.even;
          rpao_words = r.rpao_words;
          ciao_words = r.ciao_words;
          loop = r.loop;
        },
      )
