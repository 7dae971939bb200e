-- ===== src/Pe/Expand/Writing/Reads.antt =====
-- The threads that read the depths of the targets.
use graph_accelerator.Common.{
  ℕ, ◌-◌, ◌+◌, ◌*◌, ◌≡◌, refl, sym, ap, ◌∙◌, true, ltb, List, [], ◌∷◌, ◌++◌, map, ℤ, some, inl, inr,
  arith, Bool-cases, Option-cases, length,
}
use mathlib.Core.List.{append_assoc, append-nil, map-append}
use graph_accelerator.Bfs.Csr.{Csr}
use graph_accelerator.Bfs.Depth.{depth_at}
use graph_accelerator.Memory.Layout.{Layout}
use graph_accelerator.Pe.Port.{Access, send, receive}
use graph_accelerator.Pe.Port.Flow.{
  List-cases, flat, flat-append, contents, contents-push_req, contents-send, held,
}
use graph_accelerator.Pe.Expand.{
  Sizes, Expand, new_access, depth_turn, depth_place, depth_resp_turn,
}
use graph_accelerator.Pe.Expand.Run.{load_depth, load_depths}
use graph_accelerator.Pe.Expand.Pending.{reads_left, offsets_left}
use graph_accelerator.Pe.Expand.Reading.{IsReading, down, Down, IsReading-kept}
use graph_accelerator.Pe.Expand.Writing.{
  known, asked, entries, ask_depth, got_depth, fits, fits_one, is_cell, writes_left, IsWriting,
  IsWriting-kept, Drains, Drains-refl, is_open-visited,
}
use graph_accelerator.Pe.Expand.Writing.Fits.{fits-concat, fits-replace, fits-len}

module _ (c : Csr) (l : Layout) (level : ℕ) (d0 : List ℤ) (seen : List ℕ) (d : List ℤ) where
  pub Drains-depth_turn :
      (z : Sizes) (s : Expand)
      → IsReading c l s
      → IsWriting l level d0 seen d (down s)
      → Drains c l level d0 seen d s (depth_turn z l s)
  unfolding depth_turn reads_left offsets_left writes_left entries fits_one
  Drains-depth_turn z s r w = elim (Option-cases s.depth_creating) [
    | inr (a, e) ↦ simp (e, depth_turn) (Drains-refl s r w)
    | inl e ↦ elim (List-cases s.ciao_buffer) [
      | inl f ↦ simp (e, f, depth_turn) (Drains-refl s r w)
      | inr (v, rest, f) ↦ elim (Bool-cases (ltb (length s.ciao_buffer) z.depth_buffer_depth)) [
        | inr t ↦ simp (e, f, (simp f at t), depth_turn) (Drains-refl s r w)
        | inl t ↦
            simp (e, f, (simp f at t), depth_turn)
              (record {
                reading = IsReading-kept s _ r refl refl refl refl;
                writing = record {
                  fit =
                      (let new = new_access s (l.depth + v * 1) 1 in
                        let eq : entries (down (record s { depth_creating = some new }))
                            ≡ entries (down s) ++ asked new ∷ [] =
                          simp (e, append_assoc, append-nil) in
                        ap (fits l level d0 d (s.vidx_buffer ++ v ∷ [])) eq
                        ∙ fits-concat l level d0 d s.vidx_buffer (entries (down s)) v (asked new)
                            w.fit (ground arith));
                  stage = w.stage;
                  next = w.next;
                  done = w.done;
                  cell = w.cell;
                  size = w.size;
                };
                same = simp (f, append_assoc);
              })
      ]
    ]
  ]

  pub Drains-depth_place :
      (s : Expand)
      → IsReading c l s
      → IsWriting l level d0 seen d (down s)
      → Drains c l level d0 seen d s (depth_place s)
  unfolding depth_place reads_left offsets_left writes_left entries
  Drains-depth_place s r w = elim (Option-cases s.depth_creating) [
    | inl e ↦ simp (e, depth_place) (Drains-refl s r w)
    | inr (a, e) ↦
        simp (e, depth_place)
          (record {
            reading = IsReading-kept s _ r refl refl refl refl;
            writing =
                IsWriting-kept (down s) _ w refl
                  (simp (e, contents-push_req, append_assoc, append-nil)) w.stage refl;
            same = refl;
          })
  ]

  pub Drains-send_depth :
      (s : Expand)
      → IsReading c l s
      → IsWriting l level d0 seen d (down s)
      → Drains c l level d0 seen d s (record s { depth_port = send s.depth_port })
  unfolding reads_left offsets_left writes_left entries
  Drains-send_depth s r w = record {
    reading = IsReading-kept s _ r refl refl refl refl;
    writing = IsWriting-kept (down s) _ w refl (simp contents-send) w.stage refl;
    same = refl;
  }

  pub Drains-depth_resp_turn :
      (s : Expand)
      → IsReading c l s
      → IsWriting l level d0 seen d (down s)
      → Drains c l level d0 seen d s (depth_resp_turn s)
  unfolding depth_resp_turn reads_left offsets_left writes_left entries contents flat
  Drains-depth_resp_turn s r w = elim (List-cases s.depth_port.resp) [
    | inl e ↦ simp (e, depth_resp_turn) (Drains-refl s r w)
    | inr (q, rest, e) ↦
        simp (e, depth_resp_turn)
          (record {
            reading = IsReading-kept s _ r refl refl refl refl;
            writing =
                IsWriting-kept (down s) _ w refl
                  (simp (e, append_assoc, map-append, contents, flat)) w.stage refl;
            same = refl;
          })
  ]

  -- The depth of now is one that fits.
  fits_one-load :
      (s : Down) (a : Access)
      → IsWriting l level d0 seen d s
      → (v : ℕ) → fits_one l level d0 d v (asked a) ≡ true
      → fits_one l level d0 d v (known (depth_at d (a.addr - l.depth))) ≡ true
  unfolding fits_one is_cell
  fits_one-load s a w v h =
      let e : a.addr - l.depth ≡ v = ground (arith, h) in
      let k = w.cell v in simp e (ground (arith, k, is_open-visited level d v))

  pub Drains-receive_depth :
      (s : Expand)
      → IsReading c l s
      → IsWriting l level d0 seen d (down s)
      → Drains c l level d0 seen d s
          (record s { depth_port = receive (load_depth d l) s.depth_port })
  unfolding receive reads_left offsets_left writes_left entries contents flat load_depths
  Drains-receive_depth s r w = elim (List-cases s.depth_port.flight) [
    | inl e ↦ simp (e, receive) (Drains-refl s r w)
    | inr (a, rest, e) ↦
        simp (e, receive)
          (record {
            reading = IsReading-kept s _ r refl refl refl refl;
            writing = record {
              fit =
                  (let before = map known s.depth_buffer1 ++ flat got_depth s.depth_port.resp in
                    let after =
                      flat ask_depth rest
                      ++ (flat ask_depth s.depth_port.req ++ held ask_depth s.depth_creating) in
                    let old : entries (down s) ≡ before ++ asked a ∷ after =
                      simp (e, append_assoc) in
                    let fit : fits l level d0 d s.vidx_buffer (before ++ asked a ∷ after) ≡ true =
                      ap (fits l level d0 d s.vidx_buffer) (sym old) ∙ w.fit in
                    let len = fits-len l level d0 d s.vidx_buffer before after a fit in
                    simp (flat-append, append_assoc, len, load_depths)
                      (simp append_assoc at (
                        fits-replace l level d0 d s.vidx_buffer before after (asked a)
                          (known (depth_at d (a.addr - l.depth))) (fits_one-load (down s) a w)
                          fit)));
              stage = w.stage;
              next = w.next;
              done = w.done;
              cell = w.cell;
              size = w.size;
            };
            same = refl;
          })
  ]
