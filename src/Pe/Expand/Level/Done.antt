-- ===== src/Pe/Expand/Level/Done.antt =====
-- The beginning and the end of a level: nothing is left to do.
use graph_accelerator.Common.{
  ℕ, suc, ◌+◌, ◌≡◌, refl, sym, ◌∙◌, Bool, true, ◌&&◌, ◌||◌, not, List, [], ◌∷◌, ℤ, pos, eq_ℤ_iff,
  eq_ℤ_refl, Option, none, some, arith, contains, if◌then◌else◌, List-ext, minus_one, eq_ℤ, to_char,
  to_char-lt, ◌<◌, ap,
}
use mathlib.Core.List.{append-nil}
use graph_accelerator.Bfs.Csr.{Csr}
use graph_accelerator.Bfs.Depth.{depth_at, unvisited}
use graph_accelerator.Bfs.Advance.{mark_all, depth_at-mark_all, length-mark_all}
use graph_accelerator.Bfs.TopDown.Round.{all_out}
use graph_accelerator.Memory.Layout.{Layout}
use graph_accelerator.Pe.Port.{Port, Access, Reply}
use graph_accelerator.Pe.Port.Flow.{flat, contents}
use graph_accelerator.Pe.Expand.{Expand}
use graph_accelerator.Pe.Expand.Run.{
  System, is_idle, none_left, nothing_held, port_idle, load_words,
}
use graph_accelerator.Pe.Expand.Pending.{reads_left, offsets_left, rows, is_even, values_of}
use graph_accelerator.Pe.Expand.Reading.{all_words, lens_left, access_len, reply_len}
use graph_accelerator.Pe.Expand.Writing.{
  entries, fits, writes_left, all_next, writing, is_cell, ask_depth, got_depth, is_open,
  is_open-low,
}
use graph_accelerator.Pe.Expand.Level.{IsLevel}

pub none_left-nil {ℓ} : {A : Type ℓ} (xs : List A) → none_left xs ≡ true → xs ≡ []
none_left-nil [] h = refl
none_left-nil (x ∷ xs) h = cc

nothing_held-none {ℓ} : {A : Type ℓ} (o : Option A) → nothing_held o ≡ true → o ≡ none
nothing_held-none none h = refl
nothing_held-none (some a) h = cc

pub contents-idle {κ} :
    {T : Type 0} {B : Type κ} (ask : Access → List B) (got : Reply T → List B) (p : Port T)
    → port_idle p ≡ true
    → contents ask got p ≡ []
unfolding contents flat
contents-idle ask got p h =
    let e1 = none_left-nil p.req (ground (arith, h)) in
    let e2 = none_left-nil p.flight (ground (arith, h)) in
    let e3 = none_left-nil p.resp (ground (arith, h)) in simp (e1, e2, e3, flat)

-- What is empty in an idle element.
pub record Idle (s : Expand) : Type 0 where
  pub frontier : s.frontier_buffer ≡ []
  pub rpao_creating : s.rpao_creating ≡ none
  pub rpao_port : port_idle s.rpao_port ≡ true
  pub rpao_buffer : s.rpao_buffer ≡ []
  pub ciao_loop : s.ciao_loop ≡ none
  pub ciao_creating : s.ciao_creating ≡ none
  pub ciao_port : port_idle s.ciao_port ≡ true
  pub ciao_buffer : s.ciao_buffer ≡ []
  pub vidx_buffer : s.vidx_buffer ≡ []
  pub depth_creating : s.depth_creating ≡ none
  pub depth_port : port_idle s.depth_port ≡ true
  pub depth_buffer1 : s.depth_buffer1 ≡ []
  pub depth_buffer2 : s.depth_buffer2 ≡ []
  pub write_creating : s.write_creating ≡ none
  pub write_req : s.write_req ≡ []
  pub write_flight : s.write_flight ≡ []

&&-cases : (a b : Bool) → (a && b) ≡ true → (a ≡ true) × (b ≡ true)
&&-cases a b h = ground (arith, h)

pub Idle-is_idle : (s : Expand) → is_idle s ≡ true → Idle s
unfolding is_idle
Idle-is_idle s h =
    let (h1, a1) = &&-cases _ _ h in
    let (h2, a2) = &&-cases _ _ h1 in
    let (h3, a3) = &&-cases _ _ h2 in
    let (h4, a4) = &&-cases _ _ h3 in
    let (h5, a5) = &&-cases _ _ h4 in
    let (h6, a6) = &&-cases _ _ h5 in
    let (h7, a7) = &&-cases _ _ h6 in
    let (h8, a8) = &&-cases _ _ h7 in
    let (h9, a9) = &&-cases _ _ h8 in
    let (h10, a10) = &&-cases _ _ h9 in
    let (h11, a11) = &&-cases _ _ h10 in
    let (h12, a12) = &&-cases _ _ h11 in
    let (h13, a13) = &&-cases _ _ h12 in
    let (h14, a14) = &&-cases _ _ h13 in
    let (h15, a15) = &&-cases _ _ h14 in
    record {
      frontier = none_left-nil _ h15;
      rpao_creating = nothing_held-none _ a15;
      rpao_port = a14;
      rpao_buffer = none_left-nil _ a13;
      ciao_loop = nothing_held-none _ a12;
      ciao_creating = nothing_held-none _ a11;
      ciao_port = a10;
      ciao_buffer = none_left-nil _ a9;
      vidx_buffer = none_left-nil _ a8;
      depth_creating = nothing_held-none _ a7;
      depth_port = a6;
      depth_buffer1 = none_left-nil _ a5;
      depth_buffer2 = none_left-nil _ a4;
      write_creating = nothing_held-none _ a3;
      write_req = none_left-nil _ a2;
      write_flight = none_left-nil _ a1;
    }

-- What the invariant says of one vertex when nothing is left.
settled :
    (level v : ℕ) (d d0 : List ℤ) (m : Bool)
    → (eq_ℤ (depth_at d v) (depth_at d0 v)
        || (eq_ℤ (depth_at d v) (to_char (level + 1)) && (unvisited d0 v && m)))
      ≡ true
    → (m ≡ true → not (is_open level d v) ≡ true)
    → level < 127
    → depth_at d v ≡ (if unvisited d0 v && m then pos (suc level) else depth_at d0 v)
settled level v d d0 m cell done low =
    let e : to_char (level + 1) ≡ pos (suc level) =
      to_char-lt (level + 1) (omega (arith, low)) ∙ ap pos (omega arith) in
    let cell' = rw e at cell in
    let done' = rw (is_open-low level d v low) at done in
    ground (
      arith,
      cell',
      done',
      eq_ℤ_iff (depth_at d v) (depth_at d0 v),
      eq_ℤ_iff (depth_at d v) (pos (suc level)),
    )

module _ (c : Csr) (l : Layout) (level : ℕ) (d0 : List ℤ) where
  offsets_left-Idle : (s : Expand) → Idle s → offsets_left c l s ≡ []
  unfolding offsets_left flat
  offsets_left-Idle s i = simp (
    i.rpao_buffer,
    i.rpao_creating,
    i.frontier,
    contents-idle (load_words c.rpao l.rpao) values_of s.rpao_port i.rpao_port,
    flat,
    offsets_left,
  )

  pub reads_left-Idle : (s : Expand) → Idle s → reads_left c l s ≡ []
  unfolding reads_left rows
  reads_left-Idle s i = simp (
    i.ciao_buffer,
    i.ciao_creating,
    i.ciao_loop,
    contents-idle (load_words c.ciao l.ciao) values_of s.ciao_port i.ciao_port,
    offsets_left-Idle s i,
    rows,
    reads_left,
  )

  pub IsLevel-start :
      (s : Expand)
      → is_idle s ≡ true
      → IsLevel c l level d0 (record { element = s; depth = d0; found = [] })
  unfolding reads_left offsets_left rows is_even lens_left all_words entries fits writes_left
      all_next contains all_out is_cell flat
  IsLevel-start s h =
      let i = Idle-is_idle s h in
      record {
        seen = [];
        order = simp (i.vidx_buffer, reads_left-Idle s i);
        reading = record {
          even = simp (offsets_left-Idle s i);
          rpao_words = simp (
            i.rpao_creating,
            contents-idle access_len reply_len s.rpao_port i.rpao_port,
            lens_left,
          );
          ciao_words = simp (
            i.ciao_creating,
            contents-idle access_len reply_len s.ciao_port i.ciao_port,
            lens_left,
          );
          loop = simp i.ciao_loop;
        };
        writing = record {
          fit = simp (
            i.vidx_buffer,
            i.depth_buffer1,
            i.depth_creating,
            contents-idle ask_depth got_depth s.depth_port i.depth_port,
            entries,
            fits,
          );
          stage = simp (i.write_creating, i.depth_buffer2);
          next = simp (i.write_flight, i.write_req, i.write_creating, writes_left, all_next);
          done = λ v m k. cc;
          cell = λ v. ground (arith, eq_ℤ_refl (depth_at d0 v));
          size = refl;
        };
        in_level = λ u m. cc;
      }

  -- At the end the depths are those with every target of the vertices found marked.
  pub depth-IsLevel :
      (t : System)
      → IsLevel c l level d0 t
      → is_idle t.element ≡ true
      → level < 127
      → t.depth ≡ mark_all level d0 (all_out c t.found)
  unfolding writes_left writing is_cell
  depth-IsLevel t inv h low =
      let i = Idle-is_idle t.element h in
      let all : inv.seen ≡ all_out c t.found =
        sym (append-nil inv.seen)
        ∙ simp (i.vidx_buffer, reads_left-Idle t.element i) at inv.order in
      let w = inv.writing in
      List-ext minus_one t.depth (mark_all level d0 (all_out c t.found))
        (w.size ∙ sym (length-mark_all level d0 (all_out c t.found)))
        λ v lt.
          let k = depth_at-mark_all level d0 (all_out c t.found) v (omega (arith, w.size, lt)) in
          let cell = w.cell v in
          let done : contains v inv.seen ≡ true → not (is_open level t.depth v) ≡ true = λ m.
            ground (
              arith,
              simp (i.write_flight, i.write_req, i.write_creating, writes_left, writing) at
                  (w.done v m lt),
            ) in
          settled level v t.depth d0 (contains v inv.seen) cell done low ∙ rw all (sym k)
