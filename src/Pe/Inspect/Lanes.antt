-- ===== src/Pe/Inspect/Lanes.antt =====
-- The four lanes together.
use graph_accelerator.Common.{
  ℕ, ◌+◌, ◌-◌, ◌*◌, ◌/◌, ◌≤◌, ◌<◌, ◌≡◌, ap, ◌∙◌, true, List, ◌++◌, ℤ, arith, length,
}
use graph_accelerator.Bfs.Depth.{depth_at, at_level}
use graph_accelerator.Pe.Inspect.{partition}
use graph_accelerator.Pe.Expand.Run.{load_depths, port_idle}
use graph_accelerator.Pe.Inspect.Response.{Lane, LaneAction, expected_len, all_arrived, lane_run}
use graph_accelerator.Pe.Inspect.Arrive.{
  load_depths-append, load_depths-all, lane_run-done, since_beginning,
}
use graph_accelerator.Pe.Depths.{later_depths, later_depths-append, at_level-later_depths}

-- Four partitions in a row.
load_depths-parts :
    (d : List ℤ) (q v : ℕ)
    → 3 * q ≤ v
    → load_depths d 0 q
        ++ (load_depths d (1 * q - 0) q
            ++ (load_depths d (2 * q - 0) q ++ load_depths d (3 * q - 0) (v - 3 * q)))
      ≡ load_depths d 0 v
load_depths-parts d q v le =
    let e1 : 1 * q - 0 ≡ 0 + q = omega arith in
    let e2 : 2 * q - 0 ≡ 0 + q + q = omega arith in
    let e3 : 3 * q - 0 ≡ 0 + q + q + q = omega arith in
    let n : q + (q + (q + (v - 3 * q))) ≡ v = omega (arith, le) in
    rw (e1, e2, e3)
      (ap (λ r. load_depths d 0 q ++ (load_depths d (0 + q) q ++ r))
          (load_depths-append d (0 + q + q) q (v - 3 * q))
        ∙ ap (λ r. load_depths d 0 q ++ r) (load_depths-append d (0 + q) q (q + (v - 3 * q)))
        ∙ load_depths-append d 0 q (q + (q + (v - 3 * q)))
        ∙ ap (load_depths d 0) n)

-- The lane of a partition of the depths, which begin at address 0.
abbrev pub lane : ℕ → ℕ → ℕ → (ℕ → List LaneAction) → ℕ → Lane
lane base_len buffer_depth vertex_num actions i =
    lane_run base_len buffer_depth (partition 0 vertex_num i) 0 (actions i)

-- `depthBuffer0`, all four.
abbrev pub buffers : ℕ → ℕ → ℕ → (ℕ → List LaneAction) → List ℤ
buffers base_len buffer_depth vertex_num actions =
    (lane base_len buffer_depth vertex_num actions 0).buffer
    ++ ((lane base_len buffer_depth vertex_num actions 1).buffer
        ++ ((lane base_len buffer_depth vertex_num actions 2).buffer
            ++ (lane base_len buffer_depth vertex_num actions 3).buffer))

module _ (base_len buffer_depth level : ℕ) (d : List ℤ) (actions : ℕ → List LaneAction)
    (since : (i : ℕ) → i < 4 → since_beginning level d (actions i) ≡ true)
    (issued : (i : ℕ)
      → i < 4
      → (lane base_len buffer_depth (length d) actions i).issue.current_len
        ≡ (partition 0 (length d) i).max_len)
    (idle : (i : ℕ)
      → i < 4
      → port_idle (lane base_len buffer_depth (length d) actions i).port ≡ true) where
  part :
      (i : ℕ)
      → i < 4
      → (later_depths level
            (load_depths d ((partition 0 (length d) i).base - 0) (partition 0 (length d) i).max_len)
            (lane base_len buffer_depth (length d) actions i).buffer
          ≡ true)
        × ((lane base_len buffer_depth (length d) actions i).total_len
            ≡ (partition 0 (length d) i).max_len)
  part i lt =
      lane_run-done base_len buffer_depth (partition 0 (length d) i) d 0 level (omega arith)
        (actions i) (since i lt) (issued i lt) (idle i lt)

  expected_len-partition : (v i : ℕ) → i < 4 → expected_len v i ≡ (partition 0 v i).max_len
  unfolding partition expected_len
  expected_len-partition v i lt = ground (arith, lt)

  -- The four lanes, with the depths at address 0, beside threads that write depths: every depth that the
  -- memory gives is the one with which the level began or, where that was -1, the next. Whatever the order of
  -- the turns, when all reads are issued and the ports are idle, the four buffers together hold for each
  -- vertex, in order, its depth of the beginning or, where that was -1, maybe the next; exactly the
  -- vertices of the level are at the level in them; and each lane's test that all its depths have arrived
  -- passes.
  pub lane-depths :
      (later_depths level d (buffers base_len buffer_depth (length d) actions) ≡ true)
      × ((v : ℕ)
          → at_level level (buffers base_len buffer_depth (length d) actions) v
            ≡ at_level level d v)
      × ((i : ℕ)
          → i < 4
          → all_arrived (length d) i (lane base_len buffer_depth (length d) actions i) ≡ true)
  unfolding partition
  lane-depths =
      let (b0, t0) = part 0 (omega arith) in
      let (b1, t1) = part 1 (omega arith) in
      let (b2, t2) = part 2 (omega arith) in
      let (b3, t3) = part 3 (omega arith) in
      let q = length d / 4 in
      let le : 3 * q ≤ length d = omega arith in
      let whole =
        load_depths-parts d q (length d) le
        ∙ load_depths-all d d 0 (λ k. ap (depth_at d) (omega arith)) in
      let all : later_depths level d (buffers base_len buffer_depth (length d) actions) ≡ true =
        rw whole at (
          later_depths-append level _ _ _ _ b0
            (later_depths-append level _ _ _ _ b1 (later_depths-append level _ _ _ _ b2 b3))) in
      (
        all,
        at_level-later_depths level d _ all,
        λ i lt.
            let (b, t) = part i lt in
            let e = expected_len-partition (length d) i lt in ground (arith, t, e),
      )
