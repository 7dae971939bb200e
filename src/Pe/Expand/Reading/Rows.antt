-- ===== src/Pe/Expand/Reading/Rows.antt =====
-- The threads that read the offsets of the frontier.
use graph_accelerator.Common.{
  ℕ, ◌+◌, ◌-◌, ◌*◌, ◌/◌, ◌≡◌, refl, sym, ap, ◌∙◌, true, ◌&&◌, ltb, List, ◌∷◌, none, some, inl, inr,
  arith, ◌%◌, ◌==◌, slice, Bool-cases, Option-cases, length,
}
use mathlib.Core.List.{append_assoc}
use graph_accelerator.Bfs.Csr.{Csr}
use graph_accelerator.Memory.Layout.{Layout}
use graph_accelerator.Pe.Port.{send, receive}
use graph_accelerator.Pe.Port.Flow.{
  List-cases, flat, contents, contents-push_req, contents-send, contents-receive,
}
use graph_accelerator.Pe.Expand.{
  Sizes, Expand, new_access, frontier_turn, frontier_place, rpao_resp_turn, ciao_take,
}
use graph_accelerator.Pe.Expand.Run.{load_words}
use graph_accelerator.Pe.Expand.Pending.{
  offsets_left, reads_left, values_of, offset_pair, is_even, rows,
}
use graph_accelerator.Pe.Expand.Reading.{
  IsReading, Moves, Moves-refl, down, lens_left, lens_left-send, lens_left-receive,
  lens_left-push_req, lens_left-cons, all_words, all_words-some, Succeeds,
}

even-drop : (x y : ℕ) (xs : List ℕ) → is_even (x ∷ y ∷ xs) ≡ true → is_even xs ≡ true
unfolding is_even
even-drop x y xs h = ground (arith, h)

module _ (c : Csr) (l : Layout) where
  -- Turns that keep the offsets and the rest.
  Moves-offsets :
      (s t : Expand)
      → IsReading c l s
      → offsets_left c l t ≡ offsets_left c l s
      → all_words (lens_left t.rpao_creating t.rpao_port) ≡ true
      → (t.ciao_buffer ≡ s.ciao_buffer)
        × (t.ciao_port ≡ s.ciao_port)
        × (t.ciao_creating ≡ s.ciao_creating)
        × (t.ciao_loop ≡ s.ciao_loop)
        × (down t ≡ down s)
      → Moves c l s t
  unfolding reads_left contents flat rows offsets_left
  Moves-offsets s t r o w (e1, e2, e3, e4, e5) = record {
    reading = record {
      even = rw o r.even;
      rpao_words = w;
      ciao_words = rw (e2, e3) r.ciao_words;
      loop = rw e4 r.loop;
    };
    same = rw (e1, e2, e3, e4, o, reads_left) refl;
    down_eq = e5;
  }

  load-new_access :
      (s : Expand) (u : ℕ)
      → load_words c.rpao l.rpao (new_access s (l.rpao + u * 4) (4 * 2)) ≡ offset_pair c u
  load-new_access s u =
      let e : (l.rpao + u * 4 - l.rpao) / 4 ≡ u = omega arith in ap (λ k. slice c.rpao k 2) e

  pub offsets_left-new :
      (s t : Expand) (u : ℕ)
      → s.rpao_creating ≡ none
      → s.frontier_buffer ≡ u ∷ t.frontier_buffer
      → t.rpao_buffer ≡ s.rpao_buffer
      → t.rpao_port ≡ s.rpao_port
      → t.rpao_creating ≡ some (new_access s (l.rpao + u * 4) (4 * 2))
      → offsets_left c l t ≡ offsets_left c l s
  unfolding offsets_left flat
  offsets_left-new s t u e f g h i = simp (e, f, g, h, i, load-new_access s u, offsets_left, flat)

  pub Moves-frontier_turn :
      (z : Sizes) (s : Expand) → IsReading c l s → Moves c l s (frontier_turn z l s)
  unfolding frontier_turn
  Moves-frontier_turn z s r = elim (Option-cases s.rpao_creating) [
    | inr (a, e) ↦ simp (e, frontier_turn) (Moves-refl s r)
    | inl e ↦ elim (List-cases s.frontier_buffer) [
      | inl f ↦ simp (e, f, frontier_turn) (Moves-refl s r)
      | inr (u, rest, f) ↦ elim (Bool-cases (ltb (length s.rpao_buffer + 2) z.rpao_buffer_depth)) [
        | inr t ↦ simp (e, f, t, frontier_turn) (Moves-refl s r)
        | inl t ↦
            simp (e, f, t, frontier_turn)
              (Moves-offsets s _ r (offsets_left-new s _ u e f refl refl refl)
                (all_words-some none s.rpao_port _ refl (simp (← e) r.rpao_words))
                (refl, refl, refl, refl, refl))
      ]
    ]
  ]

  pub Moves-frontier_place : (s : Expand) → IsReading c l s → Moves c l s (frontier_place s)
  unfolding frontier_place offsets_left
  Moves-frontier_place s r = elim (Option-cases s.rpao_creating) [
    | inl e ↦ simp (e, frontier_place) (Moves-refl s r)
    | inr (a, e) ↦
        simp (e, frontier_place)
          (Moves-offsets s _ r (simp (e, contents-push_req, append_assoc))
            (ap all_words (lens_left-push_req none s.rpao_port a) ∙ simp (← e) r.rpao_words)
            (refl, refl, refl, refl, refl))
  ]

  pub Moves-send_rpao :
      (s : Expand) → IsReading c l s → Moves c l s (record s { rpao_port = send s.rpao_port })
  unfolding offsets_left
  Moves-send_rpao s r =
      Moves-offsets s _ r (simp (contents-send))
        (ap all_words (lens_left-send s.rpao_creating s.rpao_port) ∙ r.rpao_words)
        (refl, refl, refl, refl, refl)

  pub Moves-receive_rpao :
      (s : Expand)
      → IsReading c l s
      → Moves c l s (record s { rpao_port = receive (load_words c.rpao l.rpao) s.rpao_port })
  unfolding offsets_left
  Moves-receive_rpao s r =
      let load = load_words c.rpao l.rpao in
      Moves-offsets s _ r (rw (contents-receive load values_of load s.rpao_port (λ a. refl)) refl)
        (ap all_words (lens_left-receive s.rpao_creating s.rpao_port load) ∙ r.rpao_words)
        (refl, refl, refl, refl, refl)

  pub Moves-rpao_resp_turn :
      (s : Expand) → IsReading c l s → Succeeds (Moves c l s) (rpao_resp_turn s)
  unfolding rpao_resp_turn offsets_left contents flat all_words
  Moves-rpao_resp_turn s r = elim (List-cases s.rpao_port.resp) [
    | inl e ↦ simp (e, rpao_resp_turn) (Moves-refl s r)
    | inr (q, rest, e) ↦
        let w : (q.access.len % 4 == 0)
              && all_words (lens_left s.rpao_creating (record s.rpao_port { resp = rest }))
            ≡ true =
          ap all_words (sym (lens_left-cons s.rpao_creating s.rpao_port q rest e)) ∙ r.rpao_words in
        let (w1, w2) : (q.access.len % 4 == 0 ≡ true)
            × (all_words (lens_left s.rpao_creating (record s.rpao_port { resp = rest })) ≡ true) =
          ground (arith, w) in
        simp (e, w1, rpao_resp_turn)
          (Moves-offsets s _ r (simp (e, append_assoc, flat, contents)) w2
            (refl, refl, refl, refl, refl))
  ]

  -- The two offsets at the front of the buffer become a loop.
  pub Moves-ciao_take : (s : Expand) → IsReading c l s → Moves c l s (ciao_take l s)
  unfolding ciao_take reads_left offsets_left rows contents
  Moves-ciao_take s r = elim (Option-cases s.ciao_loop) [
    | inr (p, e) ↦ simp (e, ciao_take) (Moves-refl s r)
    | inl e ↦ elim (List-cases s.rpao_buffer) [
      | inl f ↦ simp (e, f, ciao_take) (Moves-refl s r)
      | inr (src, ds, f) ↦ elim (List-cases ds) [
        | inl g ↦ simp (e, f, g, ciao_take) (Moves-refl s r)
        | inr (dst, rest, g) ↦
            let o : offsets_left c l s
                ≡ src ∷ dst ∷ offsets_left c l (record s { rpao_buffer = rest }) =
              simp (f, g, offsets_left) in
            let i : (l.ciao + src * 4 - l.ciao) / 4 ≡ src = omega arith in
            let j : (4 * (dst - src) - 0) / 4 ≡ dst - src = omega arith in
            simp (e, f, g, ciao_take)
              (record {
                reading = record {
                  even = even-drop src dst _ (simp o at r.even);
                  rpao_words = r.rpao_words;
                  ciao_words = r.ciao_words;
                  loop = ground arith;
                };
                same = simp (e, o, i, j, reads_left, rows);
                down_eq = refl;
              })
      ]
    ]
  ]
