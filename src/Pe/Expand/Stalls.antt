-- ===== src/Pe/Expand/Stalls.antt =====
-- `issueExpandDepthReadReq` waits when `ciaoBuffer`, which only it empties, has reached the depth of
-- another buffer.
use graph_accelerator.Common.{
  ℕ, ◌<◌, ◌≡◌, sym, ap, ◌∙◌, Bool, true, false, ◌%◌, ◌==◌, leb, List, [], ◌∷◌, Option, none, some,
  inl, inr, arith, Bool-cases, Option-cases, length, length-append,
}
use graph_accelerator.Bfs.Csr.{Csr}
use graph_accelerator.Memory.Layout.{Layout}
use graph_accelerator.Pe.Port.Flow.{List-cases}
use graph_accelerator.Pe.Expand.Run.{
  System, Action, finds, turn_frontier, place_frontier, send_rpao, receive_rpao, turn_rpao_resp,
  take_ciao, turn_ciao, place_ciao, send_ciao, receive_ciao, turn_ciao_resp, turn_depth,
  place_depth, send_depth, receive_depth, turn_depth_resp, turn_depth_analysis, place_write,
  sends_write, receives_write, turn_write_resp, step, run, receive_write, send_write, is_idle,
}
use graph_accelerator.Pe.Expand.{
  Sizes, Expand, frontier_turn, frontier_place, rpao_resp_turn, ciao_take, ciao_turn, ciao_place,
  ciao_resp_turn, depth_turn, depth_place, depth_resp_turn, depth_analysis_turn, write_place,
  write_resp_turn,
}

-- The buffer has reached that depth.
unfoldable pub is_full : Sizes → Expand → Bool
is_full z s = leb z.depth_buffer_depth (length s.ciao_buffer)

module _ (c : Csr) (z : Sizes) (l : Layout) (level : ℕ) where
  abbrev stays : Option System → Bool
  stays none = true
  stays (some t) = is_full z t.element

  stays-step :
      (a : Action) (t : System) → is_full z t.element ≡ true → stays (step c z l level a t) ≡ true
  unfolding step is_full frontier_turn frontier_place rpao_resp_turn ciao_take ciao_turn ciao_place
      ciao_resp_turn depth_turn depth_place depth_resp_turn depth_analysis_turn write_place
      write_resp_turn send_write receive_write
  stays-step (finds u) t h = ground (arith, h)
  stays-step turn_frontier t h = ground (arith, h)
  stays-step place_frontier t h = ground (arith, h)
  stays-step send_rpao t h = ground (arith, h)
  stays-step receive_rpao t h = ground (arith, h)
  stays-step turn_rpao_resp t h = ground (arith, h)
  stays-step take_ciao t h = ground (arith, h)
  stays-step turn_ciao t h = ground (arith, h)
  stays-step place_ciao t h = ground (arith, h)
  stays-step send_ciao t h = ground (arith, h)
  stays-step receive_ciao t h = ground (arith, h)
  stays-step turn_ciao_resp t h = elim (List-cases t.element.ciao_port.resp) [
    | inl e ↦ simp (e, ciao_resp_turn) h
    | inr (r, rest, e) ↦ elim (Bool-cases (r.access.len % 4 == 0)) [
      | inl q ↦
          simp (e, q, ciao_resp_turn)
            (ground (arith, h, length-append t.element.ciao_buffer r.values))
      | inr q ↦ simp (e, q, ciao_resp_turn)
    ]
  ]
  stays-step turn_depth t h = ground (arith, h)
  stays-step place_depth t h = ground (arith, h)
  stays-step send_depth t h = ground (arith, h)
  stays-step receive_depth t h = ground (arith, h)
  stays-step turn_depth_resp t h = ground (arith, h)
  stays-step turn_depth_analysis t h = ground (arith, h)
  stays-step place_write t h = ground (arith, h)
  stays-step sends_write t h = ground (arith, h)
  stays-step receives_write t h = ground (arith, h)
  stays-step turn_write_resp t h = ground (arith, h)

  is_full-is_idle : (s : Expand) → 0 < z.depth_buffer_depth → is_full z s ≡ true → is_idle s ≡ false
  unfolding is_full is_idle
  is_full-is_idle s pos h = elim (List-cases s.ciao_buffer) [
    | inl e ↦ let k = simp e at h in ground (arith, k, pos)
    | inr (x, xs, e) ↦ simp (e, is_idle) (ground arith)
  ]

  -- When `ciaoBuffer` holds as many targets as `GL::depthBufferDepth`, it does so after every run, so that no
  -- run ever ends the level.
  pub run_stalls :
      (actions : List Action) (t t' : System)
      → 0 < z.depth_buffer_depth
      → is_full z t.element ≡ true
      → run c z l level actions t ≡ some t'
      → (is_full z t'.element ≡ true) × (is_idle t'.element ≡ false)
  unfolding run
  run_stalls [] t t' pos h e =
      let k : is_full z t'.element ≡ true = ap stays (sym e) ∙ h in
      (k, is_full-is_idle t'.element pos k)
  run_stalls (a ∷ rest) t t' pos h e =
      let k = stays-step a t h in
      elim (Option-cases (step c z l level a t)) [
        | inl f ↦ let g : none ≡ some t' = rw (f, run) at e in absurd cc
        | inr (u, f) ↦ run_stalls rest u t' pos (rw f at k) (rw (f, run) at e)
      ]
