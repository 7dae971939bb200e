-- ===== src/Pe/Expand/Work/Targets.antt =====
-- Steps of the threads that read targets lower the work.
use graph_accelerator.Common.{
  ℕ, ◌+◌, ◌-◌, ◌/◌, ◌%◌, ◌==◌, ◌≤◌, ◌<◌, ◌≡◌, refl, sym, ap, ◌∙◌, true, false, ltb, List, [], ◌∷◌,
  ◌++◌, none, some, length, arith, ◌&&◌, length-slice,
}
use graph_accelerator.Bfs.Csr.{Csr}
use graph_accelerator.Memory.Layout.{Layout}
use graph_accelerator.Pe.Port.{Access, Reply, push_req, send, receive}
use graph_accelerator.Pe.Port.Flow.{held}
use graph_accelerator.Pe.Expand.{
  Sizes, CiaoLoop, Expand, new_access, chunk_len, ciao_turn, ciao_place, ciao_resp_turn,
  erase_status,
}
use graph_accelerator.Pe.Expand.Run.{
  System, step, with_element, load_words, turn_ciao, place_ciao, send_ciao, receive_ciao,
  turn_ciao_resp, with_result,
}
use graph_accelerator.Pe.Expand.Pending.{offsets_left}
use graph_accelerator.Pe.Expand.Reading.{
  IsReading, Moves, all_words, lens_left, lens_left-cons, is_aligned,
}
use graph_accelerator.Pe.Expand.Reading.Targets
use graph_accelerator.Pe.Expand.Work.{
  unread, offsets_asked, upper_work, work-Moves, unread-Moves, Lowers, Lowers-turn,
  length-reads_left, port_steps-push_req, port_steps-send, port_steps-receive,
}

module _ (c : Csr) (z : Sizes) (l : Layout) (level : ℕ) (t : System)
    (r : IsReading c l t.element) where
  abbrev s : Expand
  s = t.element

  pub Lowers-place_ciao : (a : Access) → s.ciao_creating ≡ some a → Lowers c z l level place_ciao t
  unfolding step upper_work offsets_asked unread offsets_left ciao_place
  Lowers-place_ciao a e =
      let s' : Expand = record s {
        ciao_creating = none;
        ciao_port = push_req s.ciao_port a;
        op_status = s.op_status ++ a.burst_idx ∷ [];
      } in
      let eq : ciao_place s ≡ s' = simp (e, ciao_place) in
      let m : Moves c l s s' = rw eq at (Targets.Moves-ciao_place c l s r) in
      let p = port_steps-push_req s.ciao_port a in
      Lowers-turn c z l level place_ciao t s' (ap (λ x. some (with_element t x)) eq)
        (work-Moves c l s s' m (simp e (omega (arith, p))))

  pub Lowers-send_ciao :
      (a : Access) (rest : List Access)
      → s.ciao_port.req ≡ a ∷ rest
      → Lowers c z l level send_ciao t
  unfolding step upper_work offsets_asked unread offsets_left
  Lowers-send_ciao a rest e =
      let s' : Expand = record s { ciao_port = send s.ciao_port } in
      let m = Targets.Moves-send_ciao c l s r in
      let p = port_steps-send s.ciao_port a rest e in
      Lowers-turn c z l level send_ciao t s' refl (work-Moves c l s s' m (omega (arith, p)))

  pub Lowers-receive_ciao :
      (a : Access) (rest : List Access)
      → s.ciao_port.flight ≡ a ∷ rest
      → Lowers c z l level receive_ciao t
  unfolding step upper_work offsets_asked unread offsets_left
  Lowers-receive_ciao a rest e =
      let load = load_words c.ciao l.ciao in
      let s' : Expand = record s { ciao_port = receive load s.ciao_port } in
      let m = Targets.Moves-receive_ciao c l s r in
      let p = port_steps-receive load s.ciao_port a rest e in
      Lowers-turn c z l level receive_ciao t s' refl (work-Moves c l s s' m (omega (arith, p)))

  pub Lowers-turn_ciao_resp :
      (q : Reply ℕ) (rest : List (Reply ℕ))
      → s.ciao_port.resp ≡ q ∷ rest
      → Lowers c z l level turn_ciao_resp t
  unfolding step upper_work offsets_asked unread offsets_left ciao_resp_turn all_words
  Lowers-turn_ciao_resp q rest e =
      let s' : Expand = record s {
        op_status = erase_status q.access.burst_idx s.op_status;
        ciao_buffer = s.ciao_buffer ++ q.values;
        ciao_port = record s.ciao_port { resp = rest };
      } in
      let w : (q.access.len % 4 == 0)
            && all_words (lens_left s.ciao_creating (record s.ciao_port { resp = rest }))
          ≡ true =
        ap all_words (sym (lens_left-cons s.ciao_creating s.ciao_port q rest e)) ∙ r.ciao_words in
      let w1 : q.access.len % 4 == 0 ≡ true = ground (arith, w) in
      let eq : ciao_resp_turn s ≡ some s' = simp (e, w1, ciao_resp_turn) in
      let m : Moves c l s s' = rw eq at (Targets.Moves-ciao_resp_turn c l s r) in
      let e1 = ap length e in
      Lowers-turn c z l level turn_ciao_resp t s' (ap (with_result t) eq)
        (work-Moves c l s s' m (omega (arith, e1)))

  pub Lowers-turn_ciao_end :
      (p : CiaoLoop)
      → z.base_len % 4 ≡ 0
      → s.ciao_loop ≡ some p
      → s.ciao_creating ≡ none
      → ltb p.len p.max_len ≡ false
      → Lowers c z l level turn_ciao t
  unfolding step upper_work offsets_asked ciao_turn
  Lowers-turn_ciao_end p b e f h =
      let s' : Expand = record s { ciao_loop = none } in
      let eq : ciao_turn z s ≡ s' = simp (e, f, h, ciao_turn) in
      let m : Moves c l s s' = rw eq at (Targets.Moves-ciao_turn c l z s b r) in
      let k = unread-Moves c l s s' m refl refl refl in
      Lowers-turn c z l level turn_ciao t s' (ap (λ x. some (with_element t x)) eq)
        (work-Moves c l s s' m (simp e (omega (arith, k))))

  -- A chunk has at least one word.
  chunk_words :
      (p : CiaoLoop)
      → z.base_len % 4 ≡ 0
      → 0 < z.base_len
      → is_aligned l (some p) ≡ true
      → ltb p.len p.max_len ≡ true
      → 0 < chunk_len z p / 4
  chunk_words p b pos a h =
      let at : (p.len % 4 ≡ 0) × (p.max_len % 4 ≡ 0) × (p.len + 1 ≤ p.max_len) =
        ground (arith, a, h) in
      let (a1, a2, a3) = at in ground (arith, a1, a2, a3, b, pos)

  pub Lowers-turn_ciao :
      (p : CiaoLoop)
      → z.base_len % 4 ≡ 0
      → 0 < z.base_len
      → s.ciao_loop ≡ some p
      → s.ciao_creating ≡ none
      → ltb p.len p.max_len ≡ true
      → ltb (length s.ciao_buffer + chunk_len z p / 4) z.ciao_buffer_depth ≡ true
      → Lowers c z l level turn_ciao t
  unfolding step upper_work offsets_asked ciao_turn
  Lowers-turn_ciao p b pos e f h room =
      let n = chunk_len z p in
      let new = new_access s p.mem_addr n in
      let s' : Expand = record s {
        ciao_loop = some (record p { mem_addr = p.mem_addr + n; len = p.len + n });
        ciao_creating = some new;
        next_burst = s.next_burst + 1;
      } in
      let eq : ciao_turn z s ≡ s' = simp (e, f, h, room, ciao_turn) in
      let m : Moves c l s s' = rw eq at (Targets.Moves-ciao_turn c l z s b r) in
      let load = load_words c.ciao l.ciao in
      let same = ap length m.same in
      let g = ap (λ o. length (held load o)) f in
      let size = length-slice c.ciao ((p.mem_addr - l.ciao) / 4) (n / 4) in
      let words = chunk_words p b pos (simp e at r.loop) h in
      let k : unread c l s ≡ n / 4 + unread c l s' =
        omega (arith, same, g, size, length-reads_left c l s, length-reads_left c l s') in
      Lowers-turn c z l level turn_ciao t s' (ap (λ x. some (with_element t x)) eq)
        (work-Moves c l s s' m (simp (e, f) (omega (arith, k, words))))
