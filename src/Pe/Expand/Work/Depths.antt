-- ===== src/Pe/Expand/Work/Depths.antt =====
-- Steps of the threads that read and write depths lower the work.
use graph_accelerator.Common.{
  ℕ, suc, ◌+◌, ◌-◌, ◌*◌, ◌≡◌, refl, ap, true, ltb, leb, List, [], ◌∷◌, ◌++◌, ℤ, eq_ℤ, minus_one,
  none, some, length, length-append, arith, inl, inr, Bool-cases, set, to_char,
}
use graph_accelerator.Bfs.Csr.{Csr}
use graph_accelerator.Memory.Layout.{Layout}
use graph_accelerator.Pe.Port.{Access, Reply, push_req, send, receive}
use graph_accelerator.Pe.Expand.{
  Sizes, Write, Expand, new_access, depth_turn, depth_place, depth_resp_turn, depth_analysis_turn,
  write_place, erase_status,
}
use graph_accelerator.Pe.Expand.Run.{
  System, step, with_element, with_result, load_depth, send_write, receive_write, turn_depth,
  place_depth, send_depth, receive_depth, turn_depth_resp, turn_depth_analysis, place_write,
  sends_write, receives_write,
}
use graph_accelerator.Pe.Expand.Pending.{offsets_left, reads_left}
use graph_accelerator.Pe.Expand.Work.{
  unread, offsets_asked, upper_work, lower_work, work, Lowers, Lowers-turn, port_steps-push_req,
  port_steps-send, port_steps-receive,
}

module _ (c : Csr) (z : Sizes) (l : Layout) (level : ℕ) (t : System) where
  abbrev s : Expand
  s = t.element

  pub Lowers-turn_depth :
      (v : ℕ) (rest : List ℕ)
      → s.depth_creating ≡ none
      → s.ciao_buffer ≡ v ∷ rest
      → ltb (length s.ciao_buffer) z.depth_buffer_depth ≡ true
      → Lowers c z l level turn_depth t
  unfolding step work upper_work lower_work offsets_asked unread offsets_left reads_left depth_turn
  Lowers-turn_depth v rest e f h =
      let s' : Expand = record s {
        vidx_buffer = s.vidx_buffer ++ v ∷ [];
        ciao_buffer = rest;
        depth_creating = some (new_access s (l.depth + v * 1) 1);
        next_burst = s.next_burst + 1;
      } in
      let eq : depth_turn z l s ≡ s' = simp (e, f, (simp f at h), depth_turn) in
      let n = length-append s.vidx_buffer (v ∷ []) in
      let k : length (reads_left c l s) ≡ suc (length (reads_left c l s')) = simp (f, reads_left) in
      Lowers-turn c z l level turn_depth t s' (ap (λ x. some (with_element t x)) eq)
        (simp e (omega (arith, n, k)))

  pub Lowers-place_depth :
      (a : Access) → s.depth_creating ≡ some a → Lowers c z l level place_depth t
  unfolding step work upper_work lower_work offsets_asked unread offsets_left reads_left depth_place
  Lowers-place_depth a e =
      let s' : Expand = record s {
        depth_creating = none;
        depth_port = push_req s.depth_port a;
        op_status = s.op_status ++ a.burst_idx ∷ [];
      } in
      let eq : depth_place s ≡ s' = simp (e, depth_place) in
      let p = port_steps-push_req s.depth_port a in
      Lowers-turn c z l level place_depth t s' (ap (λ x. some (with_element t x)) eq)
        (simp e (omega (arith, p)))

  pub Lowers-send_depth :
      (a : Access) (rest : List Access)
      → s.depth_port.req ≡ a ∷ rest
      → Lowers c z l level send_depth t
  unfolding step work upper_work lower_work offsets_asked unread offsets_left reads_left
  Lowers-send_depth a rest e =
      let p = port_steps-send s.depth_port a rest e in
      Lowers-turn c z l level send_depth t (record s { depth_port = send s.depth_port }) refl
        (omega (arith, p))

  pub Lowers-receive_depth :
      (a : Access) (rest : List Access)
      → s.depth_port.flight ≡ a ∷ rest
      → Lowers c z l level receive_depth t
  unfolding step work upper_work lower_work offsets_asked unread offsets_left reads_left
  Lowers-receive_depth a rest e =
      let p = port_steps-receive (load_depth t.depth l) s.depth_port a rest e in
      Lowers-turn c z l level receive_depth t
        (record s { depth_port = receive (load_depth t.depth l) s.depth_port }) refl
        (omega (arith, p))

  pub Lowers-turn_depth_resp :
      (q : Reply ℤ) (rest : List (Reply ℤ))
      → s.depth_port.resp ≡ q ∷ rest
      → Lowers c z l level turn_depth_resp t
  unfolding step work upper_work lower_work offsets_asked unread offsets_left reads_left
      depth_resp_turn
  Lowers-turn_depth_resp q rest e =
      let s' : Expand = record s {
        op_status = erase_status q.access.burst_idx s.op_status;
        depth_buffer1 = s.depth_buffer1 ++ q.values;
        depth_port = record s.depth_port { resp = rest };
      } in
      let eq : depth_resp_turn s ≡ s' = simp (e, depth_resp_turn) in
      let e1 = ap length e in
      Lowers-turn c z l level turn_depth_resp t s' (ap (λ x. some (with_element t x)) eq)
        (omega (arith, e1))

  pub Lowers-turn_depth_analysis :
      (x : ℤ) (xs : List ℤ) (v : ℕ) (vs : List ℕ)
      → s.write_creating ≡ none
      → s.depth_buffer1 ≡ x ∷ xs
      → s.vidx_buffer ≡ v ∷ vs
      → leb (length s.depth_buffer2) z.depth_buffer_depth ≡ true
      → Lowers c z l level turn_depth_analysis t
  unfolding step work upper_work lower_work offsets_asked unread offsets_left reads_left
      depth_analysis_turn
  Lowers-turn_depth_analysis x xs v vs e f g h = elim (Bool-cases (eq_ℤ x minus_one)) [
    | inl i ↦
        let s' : Expand = record s {
          depth_buffer1 = xs;
          vidx_buffer = vs;
          depth_buffer2 = s.depth_buffer2 ++ to_char (level + 1) ∷ [];
          write_creating = some (new_access s (l.depth + v * 1) 1);
          next_burst = s.next_burst + 1;
        } in
        let eq : depth_analysis_turn z l level s ≡ some s' =
          simp (e, f, g, h, i, depth_analysis_turn) in
        let n = ap length g in
        Lowers-turn c z l level turn_depth_analysis t s' (ap (with_result t) eq)
          (simp e (omega (arith, n)))
    | inr i ↦
        let s' : Expand = record s { depth_buffer1 = xs; vidx_buffer = vs } in
        let eq : depth_analysis_turn z l level s ≡ some s' =
          simp (e, f, g, h, i, depth_analysis_turn) in
        let n = ap length g in
        Lowers-turn c z l level turn_depth_analysis t s' (ap (with_result t) eq) (omega (arith, n))
  ]

  pub Lowers-place_write :
      (a : Access) (x : ℤ) (xs : List ℤ)
      → s.write_creating ≡ some a
      → s.depth_buffer2 ≡ x ∷ xs
      → Lowers c z l level place_write t
  unfolding step work upper_work lower_work offsets_asked unread offsets_left reads_left write_place
  Lowers-place_write a x xs e f =
      let s' : Expand = record s {
        write_creating = none;
        depth_buffer2 = xs;
        write_req = s.write_req ++ (record { access = a; value = x }) ∷ [];
        op_status = s.op_status ++ a.burst_idx ∷ [];
      } in
      let eq : write_place s ≡ some s' = simp (e, f, write_place) in
      let n = length-append s.write_req ((record { access = a; value = x }) ∷ []) in
      Lowers-turn c z l level place_write t s' (ap (with_result t) eq) (simp e (omega (arith, n)))

  pub Lowers-sends_write :
      (w : Write) (rest : List Write) → s.write_req ≡ w ∷ rest → Lowers c z l level sends_write t
  unfolding step work upper_work lower_work offsets_asked unread offsets_left reads_left send_write
  Lowers-sends_write w rest e =
      let s' : Expand = record s { write_req = rest; write_flight = s.write_flight ++ w ∷ [] } in
      let eq : send_write s ≡ s' = simp (e, send_write) in
      let n = length-append s.write_flight (w ∷ []) in
      let e1 = ap length e in
      Lowers-turn c z l level sends_write t s' (ap (λ x. some (with_element t x)) eq)
        (omega (arith, n, e1))

  pub Lowers-receives_write :
      (w : Write) (rest : List Write)
      → s.write_flight ≡ w ∷ rest
      → Lowers c z l level receives_write t
  unfolding step work upper_work lower_work offsets_asked unread offsets_left reads_left
      receive_write
  Lowers-receives_write w rest e =
      let t' : System = record t {
        element = record s { write_flight = rest; write_resp = s.write_resp ++ w ∷ [] };
        depth = set t.depth (w.access.addr - l.depth) w.value;
      } in
      let eq : receive_write l t ≡ t' = simp (e, receive_write) in
      let e1 = ap length e in (t', ap some eq, refl, omega (arith, e1))
