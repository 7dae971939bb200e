-- ===== src/Pe/Expand/Work/Progress.antt =====
-- Whatever the element has left to do, some step can lower the work, unless `ciaoBuffer` is full.
use graph_accelerator.Common.{
  ℕ, ◌+◌, ◌/◌, ◌%◌, ◌≤◌, ◌<◌, ◌≡◌, ◌⊎◌, refl, ap, ◌∙◌, true, false, ltb, leb, List, [], ◌∷◌, ℤ,
  none, length, arith, inl, inr, Bool-cases, Option-cases, slice,
}
use graph_accelerator.Bfs.Csr.{Csr}
use graph_accelerator.Memory.Layout.{Layout}
use graph_accelerator.Pe.Port.{Access, Reply, Port}
use graph_accelerator.Pe.Port.Flow.{List-cases, flat}
use graph_accelerator.Pe.Expand.{Sizes, Expand, chunk_len}
use graph_accelerator.Pe.Expand.Run.{
  System, Action, is_idle, port_idle, turn_frontier, place_frontier, send_rpao, receive_rpao,
  turn_rpao_resp, take_ciao, turn_ciao, place_ciao, send_ciao, receive_ciao, turn_ciao_resp,
  turn_depth, place_depth, send_depth, receive_depth, turn_depth_resp, turn_depth_analysis,
  place_write, sends_write, receives_write, load_words,
}
use graph_accelerator.Pe.Expand.Pending.{offset_pair, offsets_left, is_even, values_of}
use graph_accelerator.Pe.Expand.Writing.{entries, fits, ask_depth, got_depth}
use graph_accelerator.Pe.Expand.Level.{IsLevel}
use graph_accelerator.Pe.Expand.Level.Done.{contents-idle}
use graph_accelerator.Pe.Expand.Stalls.{is_full}
use graph_accelerator.Pe.Expand.Work.{Lowers}
use graph_accelerator.Pe.Expand.Work.Rows
use graph_accelerator.Pe.Expand.Work.Targets
use graph_accelerator.Pe.Expand.Work.Depths

-- An odd number of offsets cannot be left.
is_even-pairs : (c : Csr) (us : List ℕ) → is_even (flat (offset_pair c) us) ≡ true
unfolding is_even flat slice
is_even-pairs c [] = refl
is_even-pairs c (u ∷ us) = let k = is_even-pairs c us in ground (arith, k)

module _ (c : Csr) (z : Sizes) (l : Layout) (level : ℕ) (d0 : List ℤ) (t : System)
    (inv : IsLevel c l level d0 t) where
  abbrev s : Expand
  s = t.element

  abbrev pub Busy : Type 0
  Busy = (a : Action) × Lowers c z l level a t

  port_free :
      {T : Type 0} (p : Port T)
      → ((a : Access) (rest : List Access) → p.req ≡ a ∷ rest → Busy)
      → ((a : Access) (rest : List Access) → p.flight ≡ a ∷ rest → Busy)
      → ((q : Reply T) (rest : List (Reply T)) → p.resp ≡ q ∷ rest → Busy)
      → (port_idle p ≡ true) ⊎ Busy
  port_free p req flight resp = elim (List-cases p.req) [
    | inr (a, rest, e) ↦ inr (req a rest e)
    | inl e ↦ elim (List-cases p.flight) [
      | inr (a, rest, f) ↦ inr (flight a rest f)
      | inl f ↦ elim (List-cases p.resp) [
        | inr (q, rest, g) ↦ inr (resp q rest g)
        | inl g ↦ inl (simp (e, f, g))
      ]
    ]
  ]

  rpao_free : ((s.rpao_creating ≡ none) × (port_idle s.rpao_port ≡ true)) ⊎ Busy
  rpao_free = elim (Option-cases s.rpao_creating) [
    | inr (a, e) ↦ inr (place_frontier, Rows.Lowers-place_frontier c z l level t inv.reading a e)
    | inl e ↦
        elim (port_free s.rpao_port
          (λ a rest f. (send_rpao, Rows.Lowers-send_rpao c z l level t inv.reading a rest f))
          (λ a rest f. (receive_rpao, Rows.Lowers-receive_rpao c z l level t inv.reading a rest f))
          (λ q rest f.
            (turn_rpao_resp, Rows.Lowers-turn_rpao_resp c z l level t inv.reading q rest f))) [
              | inl p ↦ inl (e, p)
              | inr b ↦ inr b
            ]
  ]

  ciao_free : ((s.ciao_creating ≡ none) × (port_idle s.ciao_port ≡ true)) ⊎ Busy
  ciao_free = elim (Option-cases s.ciao_creating) [
    | inr (a, e) ↦ inr (place_ciao, Targets.Lowers-place_ciao c z l level t inv.reading a e)
    | inl e ↦
        elim (port_free s.ciao_port
          (λ a rest f. (send_ciao, Targets.Lowers-send_ciao c z l level t inv.reading a rest f))
          (λ a rest f.
            (receive_ciao, Targets.Lowers-receive_ciao c z l level t inv.reading a rest f))
          (λ q rest f.
            (turn_ciao_resp, Targets.Lowers-turn_ciao_resp c z l level t inv.reading q rest f))) [
              | inl p ↦ inl (e, p)
              | inr b ↦ inr b
            ]
  ]

  depth_free : ((s.depth_creating ≡ none) × (port_idle s.depth_port ≡ true)) ⊎ Busy
  depth_free = elim (Option-cases s.depth_creating) [
    | inr (a, e) ↦ inr (place_depth, Depths.Lowers-place_depth c z l level t a e)
    | inl e ↦
        elim (port_free s.depth_port
          (λ a rest f. (send_depth, Depths.Lowers-send_depth c z l level t a rest f))
          (λ a rest f. (receive_depth, Depths.Lowers-receive_depth c z l level t a rest f))
          (λ q rest f. (turn_depth_resp, Depths.Lowers-turn_depth_resp c z l level t q rest f))) [
            | inl p ↦ inl (e, p)
            | inr b ↦ inr b
          ]
  ]

  write_free :
      ((s.write_creating ≡ none)
        × (s.depth_buffer2 ≡ [])
        × (s.write_req ≡ [])
        × (s.write_flight ≡ []))
      ⊎ Busy
  write_free = elim (Option-cases s.write_creating) [
    | inr (a, e) ↦ elim (List-cases s.depth_buffer2) [
      | inl f ↦ let k : false ≡ true = simp (e, f) at inv.writing.stage in absurd cc
      | inr (x, xs, f) ↦ inr (place_write, Depths.Lowers-place_write c z l level t a x xs e f)
    ]
    | inl e ↦ elim (List-cases s.depth_buffer2) [
      | inr (x, xs, f) ↦ let k : false ≡ true = simp (e, f) at inv.writing.stage in absurd cc
      | inl f ↦ elim (List-cases s.write_req) [
        | inr (w, rest, g) ↦ inr (sends_write, Depths.Lowers-sends_write c z l level t w rest g)
        | inl g ↦ elim (List-cases s.write_flight) [
          | inr (w, rest, h) ↦
              inr (receives_write, Depths.Lowers-receives_write c z l level t w rest h)
          | inl h ↦ inl (e, f, g, h)
        ]
      ]
    ]
  ]

  -- The depths that are read belong to vertices that wait for them, and only they wait.
  analysis_free :
      s.depth_creating ≡ none
      → port_idle s.depth_port ≡ true
      → s.write_creating ≡ none
      → s.depth_buffer2 ≡ []
      → ((s.vidx_buffer ≡ []) × (s.depth_buffer1 ≡ [])) ⊎ Busy
  unfolding entries fits
  analysis_free e p f g =
      let none_asked = contents-idle ask_depth got_depth s.depth_port p in
      elim (List-cases s.vidx_buffer) [
        | inl h ↦ elim (List-cases s.depth_buffer1) [
          | inl i ↦ inl (h, i)
          | inr (x, xs, i) ↦
              let k : false ≡ true = simp (h, i, entries, fits) at inv.writing.fit in absurd cc
        ]
        | inr (v, vs, h) ↦ elim (List-cases s.depth_buffer1) [
          | inl i ↦
              let k : false ≡ true = simp (h, i, e, none_asked, entries, fits) at inv.writing.fit in
              absurd cc
          | inr (x, xs, i) ↦
              let room : leb (length s.depth_buffer2) z.depth_buffer_depth ≡ true =
                simp g (ground arith) in
              inr (
                turn_depth_analysis,
                Depths.Lowers-turn_depth_analysis c z l level t x xs v vs f i h room,
              )
        ]
      ]

  targets_free : s.depth_creating ≡ none → (s.ciao_buffer ≡ []) ⊎ ((is_full z s ≡ true) ⊎ Busy)
  unfolding is_full
  targets_free e = elim (List-cases s.ciao_buffer) [
    | inl f ↦ inl f
    | inr (v, rest, f) ↦ elim (Bool-cases (ltb (length s.ciao_buffer) z.depth_buffer_depth)) [
      | inl h ↦ inr (inr (turn_depth, Depths.Lowers-turn_depth c z l level t v rest e f h))
      | inr h ↦ inr (inl (ground (arith, h)))
    ]
  ]

  module _ (whole : z.base_len % 4 ≡ 0) (some_len : 0 < z.base_len)
      (ciao_room : z.base_len / 4 < z.ciao_buffer_depth) (rpao_room : 2 < z.rpao_buffer_depth) where
    loop_free : s.ciao_creating ≡ none → s.ciao_buffer ≡ [] → (s.ciao_loop ≡ none) ⊎ Busy
    loop_free e f = elim (Option-cases s.ciao_loop) [
      | inl g ↦ inl g
      | inr (p, g) ↦ elim (Bool-cases (ltb p.len p.max_len)) [
        | inr h ↦
            inr (turn_ciao, Targets.Lowers-turn_ciao_end c z l level t inv.reading p whole g e h)
        | inl h ↦
            let small : chunk_len z p ≤ z.base_len = ground (arith, h) in
            let room : ltb (length s.ciao_buffer + chunk_len z p / 4) z.ciao_buffer_depth ≡ true =
              simp f (ground (arith, small, ciao_room)) in
            inr (
              turn_ciao,
              Targets.Lowers-turn_ciao c z l level t inv.reading p whole some_len g e h room,
            )
      ]
    ]

    offsets_free :
        s.rpao_creating ≡ none
        → port_idle s.rpao_port ≡ true
        → s.ciao_loop ≡ none
        → ((s.rpao_buffer ≡ []) × (s.frontier_buffer ≡ [])) ⊎ Busy
    unfolding offsets_left is_even
    offsets_free e p f = elim (List-cases s.rpao_buffer) [
      | inr (src, ds, g) ↦ elim (List-cases ds) [
        | inr (dst, rest, h) ↦ inr (
          take_ciao,
          Rows.Lowers-take_ciao c z l level t inv.reading src dst rest f (g ∙ ap (λ r. src ∷ r) h),
        )
        | inl h ↦
            let no_more = contents-idle (load_words c.rpao l.rpao) values_of s.rpao_port p in
            let odd = simp (g, h, e, no_more, offsets_left, is_even) at inv.reading.even in
            let k = is_even-pairs c s.frontier_buffer in
            let both : false ≡ true = ground (arith, odd, k) in absurd cc
      ]
      | inl g ↦ elim (List-cases s.frontier_buffer) [
        | inl h ↦ inl (g, h)
        | inr (u, rest, h) ↦
            let room : ltb (length s.rpao_buffer + 2) z.rpao_buffer_depth ≡ true =
              simp g (ground (arith, rpao_room)) in
            inr (turn_frontier, Rows.Lowers-turn_frontier c z l level t inv.reading u rest e h room)
      ]
    ]

    -- Idle, full or busy.
    pub progress : (is_idle s ≡ true) ⊎ ((is_full z s ≡ true) ⊎ Busy)
    unfolding is_idle
    progress = elim rpao_free [
      | inr b ↦ inr (inr b)
      | inl (e1, e2) ↦ elim ciao_free [
        | inr b ↦ inr (inr b)
        | inl (f1, f2) ↦ elim depth_free [
          | inr b ↦ inr (inr b)
          | inl (g1, g2) ↦ elim write_free [
            | inr b ↦ inr (inr b)
            | inl (h1, h2, h3, h4) ↦ elim (analysis_free g1 g2 h1 h2) [
              | inr b ↦ inr (inr b)
              | inl (i1, i2) ↦ elim (targets_free g1) [
                | inr b ↦ inr b
                | inl j ↦ elim (loop_free f1 j) [
                  | inr b ↦ inr (inr b)
                  | inl k ↦ elim (offsets_free e1 e2 k) [
                    | inr b ↦ inr (inr b)
                    | inl (l1, l2) ↦ inl (
                        simp
                          (e1, e2, f1, f2, g1, g2, h1, h2, h3, h4, i1, i2, j, k, l1, l2, is_idle))
                  ]
                ]
              ]
            ]
          ]
        ]
      ]
    ]
