-- ===== src/Pe/Expand/Ends.antt =====
-- `isEndOfBfsIteration` beside the expansion threads: what it tests of them, and what it misses.
use graph_accelerator.Common.{
  ℕ, ◌+◌, ◌<◌, ◌≡◌, true, false, ltb, List, [], ◌∷◌, map, some, arith, length, ◌*◌, ◌%◌,
}
use graph_accelerator.Memory.Layout.{Layout}
use graph_accelerator.Pe.Controller.{
  Buffers, Controller, controller_turn, is_end_of_bfs_iteration, all_empty,
}
use graph_accelerator.Pe.Port.{Access, Port, Reply}
use graph_accelerator.Pe.Expand.{Sizes, Write, Expand, frontier_turn, new_access}
use graph_accelerator.Pe.Expand.Run.{is_idle, port_idle}
use graph_accelerator.Pe.Expand.Level.Done.{Idle-is_idle, none_left-nil}

abbrev access_idxs : List Access → List ℕ
access_idxs = map (λ a. a.burst_idx)

abbrev reply_idxs : {T : Type 0} → List (Reply T) → List ℕ
reply_idxs = map (λ r. r.access.burst_idx)

abbrev write_idxs : List Write → List ℕ
write_idxs = map (λ w. w.access.burst_idx)

-- The containers of an element whose threads that read the depths have nothing left. Of a depth only that it
-- is there matters.
unfoldable pub buffers_of : Expand → Buffers
buffers_of s = record {
  burst_req_queue =
      []
      ∷ []
      ∷ []
      ∷ []
      ∷ access_idxs s.rpao_port.req
      ∷ access_idxs s.ciao_port.req
      ∷ access_idxs s.depth_port.req
      ∷ write_idxs s.write_req
      ∷ [];
  burst_resp_queue =
      []
      ∷ []
      ∷ []
      ∷ []
      ∷ reply_idxs s.rpao_port.resp
      ∷ reply_idxs s.ciao_port.resp
      ∷ reply_idxs s.depth_port.resp
      ∷ write_idxs s.write_resp
      ∷ [];
  burst_op_status = s.op_status;
  depth_buffer0 = [] ∷ [] ∷ [] ∷ [] ∷ [];
  frontier_buffer = s.frontier_buffer;
  rpao_buffer = s.rpao_buffer;
  ciao_buffer = s.ciao_buffer;
  depth_buffer1 = map (λ d. 0) s.depth_buffer1;
  depth_buffer2 = map (λ d. 0) s.depth_buffer2;
}

port_idle-parts : {T : Type 0} (p : Port T) → port_idle p ≡ true → (p.req ≡ []) × (p.resp ≡ [])
port_idle-parts p h =
    (none_left-nil p.req (ground (arith, h)), none_left-nil p.resp (ground (arith, h)))

-- When the element has nothing left but one vertex in `frontierBuffer`, the turn of `frontierAnalysis` that
-- takes it leaves it to none of the containers that `isEndOfBfsIteration` tests, until the wait in
-- the creation of its burst is over: at a clock edge in between, the controller goes to the next level, up to the eight bits of a `char`, though
-- the element is not idle.
pub controller_turn-frontier_turn :
    (z : Sizes) (l : Layout) (s : Expand) (u : ℕ) (k : Controller)
    → 2 < z.rpao_buffer_depth
    → is_idle s ≡ true
    → s.op_status ≡ []
    → s.write_resp ≡ []
    → k.local_counter ≡ 20
    → ((controller_turn
          (buffers_of (frontier_turn z l (record s { frontier_buffer = u ∷ [] })))
          k).level
        ≡ (k.level + 1) % 256)
      × (is_idle (frontier_turn z l (record s { frontier_buffer = u ∷ [] })) ≡ false)
unfolding buffers_of controller_turn is_end_of_bfs_iteration all_empty frontier_turn is_idle
controller_turn-frontier_turn z l s u k room idle no_status no_resp full =
    let i = Idle-is_idle s idle in
    let (p1, p2) = port_idle-parts s.rpao_port i.rpao_port in
    let (q1, q2) = port_idle-parts s.ciao_port i.ciao_port in
    let (r1, r2) = port_idle-parts s.depth_port i.depth_port in
    let fits : ltb (length s.rpao_buffer + 2) z.rpao_buffer_depth ≡ true =
      simp i.rpao_buffer (ground (arith, room)) in
    let eq : frontier_turn z l (record s { frontier_buffer = u ∷ [] }) ≡ record s {
      frontier_buffer = [];
      rpao_creating = some (new_access s (l.rpao + u * 4) (4 * 2));
      next_burst = s.next_burst + 1;
    } =
      simp (i.rpao_creating, fits, frontier_turn) in
    rw eq (
      simp (
        p1, p2, q1, q2, r1, r2, no_status, no_resp, full, i.rpao_buffer, i.ciao_buffer,
        i.depth_buffer1, i.depth_buffer2, i.write_req,
      ),
      ground arith,
    )
