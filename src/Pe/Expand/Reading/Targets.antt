-- ===== src/Pe/Expand/Reading/Targets.antt =====
-- The threads that read the targets of the edges.
use graph_accelerator.Common.{
  ◌+◌, ◌-◌, ◌/◌, ◌%◌, ◌==◌, ◌≤◌, ◌≡◌, refl, sym, ap, ◌∙◌, true, ◌&&◌, ltb, [], ◌++◌, none, some,
  inl, inr, arith, false, slice, Bool-cases, Option-cases, length, slice-append,
}
use mathlib.Core.List.{append_assoc}
use graph_accelerator.Bfs.Csr.{Csr}
use graph_accelerator.Memory.Layout.{Layout}
use graph_accelerator.Pe.Port.{send, receive}
use graph_accelerator.Pe.Port.Flow.{
  List-cases, flat, contents, contents-push_req, contents-send, contents-receive,
}
use graph_accelerator.Pe.Expand.{
  Sizes, CiaoLoop, Expand, new_access, chunk_len, ciao_turn, ciao_place, ciao_resp_turn,
}
use graph_accelerator.Pe.Expand.Run.{load_words}
use graph_accelerator.Pe.Expand.Pending.{offsets_left, reads_left, values_of, chunks_left, is_even}
use graph_accelerator.Pe.Expand.Reading.{
  IsReading, Moves, Moves-refl, Succeeds, down, is_aligned, lens_left, lens_left-send,
  lens_left-receive, lens_left-push_req, lens_left-cons, all_words, all_words-some,
}

module _ (c : Csr) (l : Layout) where
  -- Turns that leave the offsets alone.
  Moves-targets :
      (s t : Expand)
      → IsReading c l s
      → offsets_left c l t ≡ offsets_left c l s
      → t.rpao_creating ≡ s.rpao_creating
      → t.rpao_port ≡ s.rpao_port
      → reads_left c l t ≡ reads_left c l s
      → all_words (lens_left t.ciao_creating t.ciao_port) ≡ true
      → is_aligned l t.ciao_loop ≡ true
      → down t ≡ down s
      → Moves c l s t
  Moves-targets s t r o f g e w a d = record {
    reading = record {
      even = ap is_even o ∙ r.even;
      rpao_words = simp (f, g) r.rpao_words;
      ciao_words = w;
      loop = a;
    };
    same = e;
    down_eq = d;
  }

  pub Moves-ciao_place : (s : Expand) → IsReading c l s → Moves c l s (ciao_place s)
  unfolding ciao_place reads_left offsets_left
  Moves-ciao_place s r = elim (Option-cases s.ciao_creating) [
    | inl e ↦ simp (e, ciao_place) (Moves-refl s r)
    | inr (a, e) ↦
        simp (e, ciao_place)
          (Moves-targets s _ r refl refl refl (simp (e, contents-push_req, append_assoc))
            (ap all_words (lens_left-push_req none s.ciao_port a) ∙ simp (← e) r.ciao_words) r.loop
            refl)
  ]

  pub Moves-send_ciao :
      (s : Expand) → IsReading c l s → Moves c l s (record s { ciao_port = send s.ciao_port })
  unfolding reads_left offsets_left
  Moves-send_ciao s r =
      Moves-targets s _ r refl refl refl (simp contents-send)
        (ap all_words (lens_left-send s.ciao_creating s.ciao_port) ∙ r.ciao_words) r.loop refl

  pub Moves-receive_ciao :
      (s : Expand)
      → IsReading c l s
      → Moves c l s (record s { ciao_port = receive (load_words c.ciao l.ciao) s.ciao_port })
  unfolding reads_left offsets_left
  Moves-receive_ciao s r =
      let load = load_words c.ciao l.ciao in
      Moves-targets s _ r refl refl refl
        (rw (contents-receive load values_of load s.ciao_port (λ a. refl)) refl)
        (ap all_words (lens_left-receive s.ciao_creating s.ciao_port load) ∙ r.ciao_words) r.loop
        refl

  pub Moves-ciao_resp_turn :
      (s : Expand) → IsReading c l s → Succeeds (Moves c l s) (ciao_resp_turn s)
  unfolding ciao_resp_turn reads_left offsets_left contents flat all_words
  Moves-ciao_resp_turn s r = elim (List-cases s.ciao_port.resp) [
    | inl e ↦ simp (e, ciao_resp_turn) (Moves-refl s r)
    | inr (q, rest, e) ↦
        let w : (q.access.len % 4 == 0)
              && all_words (lens_left s.ciao_creating (record s.ciao_port { resp = rest }))
            ≡ true =
          ap all_words (sym (lens_left-cons s.ciao_creating s.ciao_port q rest e)) ∙ r.ciao_words in
        let (w1, w2) : (q.access.len % 4 == 0 ≡ true)
            × (all_words (lens_left s.ciao_creating (record s.ciao_port { resp = rest })) ≡ true) =
          ground (arith, w) in
        simp (e, w1, ciao_resp_turn)
          (Moves-targets s _ r refl refl refl (simp (e, append_assoc, flat, contents)) w2 r.loop
            refl)
  ]

  -- A chunk, and what the loop has left after it.
  chunks_left-chunk :
      (z : Sizes) (s : Expand) (p : CiaoLoop)
      → z.base_len % 4 ≡ 0
      → is_aligned l (some p) ≡ true
      → ltb p.len p.max_len ≡ true
      → (load_words c.ciao l.ciao (new_access s p.mem_addr (chunk_len z p))
            ++ chunks_left c l
                (record p { mem_addr = p.mem_addr + chunk_len z p; len = p.len + chunk_len z p })
          ≡ chunks_left c l p)
        × (chunk_len z p % 4 ≡ 0)
        × (is_aligned l (
              some
                (record p { mem_addr = p.mem_addr + chunk_len z p; len = p.len + chunk_len z p }))
            ≡ true)
  chunks_left-chunk z s p b a t =
      let n = chunk_len z p in
      let at : (l.ciao ≤ p.mem_addr)
          × ((p.mem_addr - l.ciao) % 4 ≡ 0)
          × (p.len % 4 ≡ 0)
          × (p.max_len % 4 ≡ 0)
          × (p.len + 1 ≤ p.max_len) =
        ground (arith, a, t) in
      let (a1, a2, a3, a4, a5) = at in
      let size : (n % 4 ≡ 0) × (p.len + n ≤ p.max_len) = ground (arith, a2, a3, a4, a5, b) in
      let (m1, m2) = size in
      let e : (p.mem_addr + n - l.ciao) / 4 ≡ (p.mem_addr - l.ciao) / 4 + n / 4 = omega arith in
      let f : n / 4 + (p.max_len - (p.len + n)) / 4 ≡ (p.max_len - p.len) / 4 = omega arith in
      (
        ap
              (λ k.
                slice c.ciao ((p.mem_addr - l.ciao) / 4) (n / 4)
                ++ slice c.ciao k ((p.max_len - (p.len + n)) / 4))
              e
            ∙ slice-append c.ciao ((p.mem_addr - l.ciao) / 4) (n / 4)
                ((p.max_len - (p.len + n)) / 4)
            ∙ ap (slice c.ciao ((p.mem_addr - l.ciao) / 4)) f,
        m1,
        ground (arith, a1, a2, a3, a4, m1),
      )

  chunks_left-end : (p : CiaoLoop) → ltb p.len p.max_len ≡ false → chunks_left c l p ≡ []
  unfolding slice
  chunks_left-end p t =
      let e : (p.max_len - p.len) / 4 ≡ 0 = ground (arith, t) in
      ap (slice c.ciao ((p.mem_addr - l.ciao) / 4)) e

  pub Moves-ciao_turn :
      (z : Sizes) (s : Expand) → z.base_len % 4 ≡ 0 → IsReading c l s → Moves c l s (ciao_turn z s)
  unfolding ciao_turn reads_left offsets_left
  Moves-ciao_turn z s b r = elim (Option-cases s.ciao_loop) [
    | inl e ↦ simp (e, ciao_turn) (Moves-refl s r)
    | inr (p, e) ↦ elim (Option-cases s.ciao_creating) [
      | inr (a, f) ↦ simp (e, f, ciao_turn) (Moves-refl s r)
      | inl f ↦ elim (Bool-cases (ltb p.len p.max_len)) [
        | inr t ↦
            let eq : ciao_turn z s ≡ record s { ciao_loop = none } = simp (e, f, t, ciao_turn) in
            rw eq (
              Moves-targets s (record s { ciao_loop = none }) r refl refl refl
                (simp (e, chunks_left-end p t)) r.ciao_words refl refl)
        | inl t ↦
            elim (Bool-cases (ltb (length s.ciao_buffer + chunk_len z p / 4) z.ciao_buffer_depth)) [
              | inr u ↦ simp (e, f, t, u, ciao_turn) (Moves-refl s r)
              | inl u ↦
                  let (same, whole, al) = chunks_left-chunk z s p b (simp e at r.loop) t in
                  simp (e, f, t, u, ciao_turn)
                    (Moves-targets s _ r refl refl refl (simp (e, f, ← same, append_assoc))
                      (all_words-some none s.ciao_port _ whole (simp (← f) r.ciao_words)) al refl)
            ]
      ]
    ]
  ]
