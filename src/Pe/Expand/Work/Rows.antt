-- ===== src/Pe/Expand/Work/Rows.antt =====
-- Steps of the threads that read offsets and targets lower the work.
use graph_accelerator.Common.{
  ℕ, ◌+◌, ◌-◌, ◌*◌, ◌/◌, ◌%◌, ◌==◌, ◌≡◌, refl, sym, ap, ◌∙◌, true, ltb, List, [], ◌∷◌, ◌++◌, none,
  some, length, length-append, arith, ◌&&◌, length-slice,
}
use graph_accelerator.Bfs.Csr.{Csr}
use graph_accelerator.Memory.Layout.{Layout}
use graph_accelerator.Pe.Port.{Access, Reply, push_req, send, receive}
use graph_accelerator.Pe.Port.Flow.{
  contents, contents-push_req, contents-send, contents-receive, flat,
}
use graph_accelerator.Pe.Expand.{
  Sizes, Expand, new_access, frontier_turn, frontier_place, rpao_resp_turn, ciao_take, erase_status,
}
use graph_accelerator.Pe.Expand.Run.{
  System, step, with_element, load_words, turn_frontier, place_frontier, send_rpao, receive_rpao,
  turn_rpao_resp, take_ciao, with_result,
}
use graph_accelerator.Pe.Expand.Pending.{values_of}
use graph_accelerator.Pe.Expand.Reading.{IsReading, Moves, all_words, lens_left, lens_left-cons}
use graph_accelerator.Pe.Expand.Reading.Rows
use graph_accelerator.Pe.Expand.Work.{
  offsets_asked, upper_work, work-Moves, unread-Moves, Lowers, Lowers-turn, port_steps-push_req,
  port_steps-send, port_steps-receive,
}
use mathlib.Core.List.{append_assoc}

module _ (c : Csr) (z : Sizes) (l : Layout) (level : ℕ) (t : System)
    (r : IsReading c l t.element) where
  abbrev s : Expand
  s = t.element

  pub Lowers-turn_frontier :
      (u : ℕ) (rest : List ℕ)
      → s.rpao_creating ≡ none
      → s.frontier_buffer ≡ u ∷ rest
      → ltb (length s.rpao_buffer + 2) z.rpao_buffer_depth ≡ true
      → Lowers c z l level turn_frontier t
  unfolding step upper_work offsets_asked frontier_turn
  Lowers-turn_frontier u rest e f h =
      let s' : Expand = record s {
        frontier_buffer = rest;
        rpao_creating = some (new_access s (l.rpao + u * 4) (4 * 2));
        next_burst = s.next_burst + 1;
      } in
      let eq : frontier_turn z l s ≡ s' = simp (e, f, h, frontier_turn) in
      let m : Moves c l s s' = rw eq at (Rows.Moves-frontier_turn c l z s r) in
      let k = unread-Moves c l s s' m refl refl refl in
      let n = length-slice c.rpao ((l.rpao + u * 4 - l.rpao) / 4) 2 in
      Lowers-turn c z l level turn_frontier t s' (ap (λ x. some (with_element t x)) eq)
        (work-Moves c l s s' m (simp (e, f) (omega (arith, k, n))))

  pub Lowers-place_frontier :
      (a : Access) → s.rpao_creating ≡ some a → Lowers c z l level place_frontier t
  unfolding step upper_work offsets_asked frontier_place
  Lowers-place_frontier a e =
      let load = load_words c.rpao l.rpao in
      let s' : Expand = record s {
        rpao_creating = none;
        rpao_port = push_req s.rpao_port a;
        op_status = s.op_status ++ a.burst_idx ∷ [];
      } in
      let eq : frontier_place s ≡ s' = simp (e, frontier_place) in
      let m : Moves c l s s' = rw eq at (Rows.Moves-frontier_place c l s r) in
      let k = unread-Moves c l s s' m refl refl refl in
      let n =
        ap length (contents-push_req load values_of s.rpao_port a)
        ∙ length-append (contents load values_of s.rpao_port) (load a) in
      let p = port_steps-push_req s.rpao_port a in
      Lowers-turn c z l level place_frontier t s' (ap (λ x. some (with_element t x)) eq)
        (work-Moves c l s s' m (simp e (omega (arith, k, n, p))))

  pub Lowers-send_rpao :
      (a : Access) (rest : List Access)
      → s.rpao_port.req ≡ a ∷ rest
      → Lowers c z l level send_rpao t
  unfolding step upper_work offsets_asked
  Lowers-send_rpao a rest e =
      let load = load_words c.rpao l.rpao in
      let s' : Expand = record s { rpao_port = send s.rpao_port } in
      let m = Rows.Moves-send_rpao c l s r in
      let k = unread-Moves c l s s' m refl refl refl in
      let n = ap length (contents-send load values_of s.rpao_port) in
      let p = port_steps-send s.rpao_port a rest e in
      Lowers-turn c z l level send_rpao t s' refl (work-Moves c l s s' m (omega (arith, k, n, p)))

  pub Lowers-receive_rpao :
      (a : Access) (rest : List Access)
      → s.rpao_port.flight ≡ a ∷ rest
      → Lowers c z l level receive_rpao t
  unfolding step upper_work offsets_asked
  Lowers-receive_rpao a rest e =
      let load = load_words c.rpao l.rpao in
      let s' : Expand = record s { rpao_port = receive load s.rpao_port } in
      let m = Rows.Moves-receive_rpao c l s r in
      let k = unread-Moves c l s s' m refl refl refl in
      let n = ap length (contents-receive load values_of load s.rpao_port (λ a. refl)) in
      let p = port_steps-receive load s.rpao_port a rest e in
      Lowers-turn c z l level receive_rpao t s' refl
        (work-Moves c l s s' m (omega (arith, k, n, p)))

  -- The front of the answers is of whole words.
  pub Lowers-turn_rpao_resp :
      (q : Reply ℕ) (rest : List (Reply ℕ))
      → s.rpao_port.resp ≡ q ∷ rest
      → Lowers c z l level turn_rpao_resp t
  unfolding step upper_work offsets_asked rpao_resp_turn contents flat all_words
  Lowers-turn_rpao_resp q rest e =
      let s' : Expand = record s {
        op_status = erase_status q.access.burst_idx s.op_status;
        rpao_buffer = s.rpao_buffer ++ q.values;
        rpao_port = record s.rpao_port { resp = rest };
      } in
      let w : (q.access.len % 4 == 0)
            && all_words (lens_left s.rpao_creating (record s.rpao_port { resp = rest }))
          ≡ true =
        ap all_words (sym (lens_left-cons s.rpao_creating s.rpao_port q rest e)) ∙ r.rpao_words in
      let w1 : q.access.len % 4 == 0 ≡ true = ground (arith, w) in
      let eq : rpao_resp_turn s ≡ some s' = simp (e, w1, rpao_resp_turn) in
      let m : Moves c l s s' = rw eq at (Rows.Moves-rpao_resp_turn c l s r) in
      let k = unread-Moves c l s s' m refl refl refl in
      let load = load_words c.rpao l.rpao in
      let left = flat load s.rpao_port.flight ++ flat load s.rpao_port.req in
      let e1 = ap length e in
      let e2 = length-append s.rpao_buffer q.values in
      let e3 =
        ap (λ x. length (flat values_of x ++ left)) e
        ∙ ap length (append_assoc q.values (flat values_of rest) left)
        ∙ length-append q.values (flat values_of rest ++ left) in
      Lowers-turn c z l level turn_rpao_resp t s' (ap (with_result t) eq)
        (work-Moves c l s s' m (omega (arith, k, e1, e2, e3)))

  pub Lowers-take_ciao :
      (src dst : ℕ) (rest : List ℕ)
      → s.ciao_loop ≡ none
      → s.rpao_buffer ≡ src ∷ dst ∷ rest
      → Lowers c z l level take_ciao t
  unfolding step upper_work offsets_asked ciao_take
  Lowers-take_ciao src dst rest e f =
      let s' : Expand = record s {
        rpao_buffer = rest;
        ciao_loop =
            some (record { mem_addr = l.ciao + src * 4; len = 0; max_len = 4 * (dst - src) });
      } in
      let eq : ciao_take l s ≡ s' = simp (e, f, ciao_take) in
      let m : Moves c l s s' = rw eq at (Rows.Moves-ciao_take c l s r) in
      let k = unread-Moves c l s s' m refl refl refl in
      Lowers-turn c z l level take_ciao t s' (ap (λ x. some (with_element t x)) eq)
        (work-Moves c l s s' m (simp (e, f) (omega (arith, k))))
