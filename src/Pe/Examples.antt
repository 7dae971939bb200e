-- ===== src/Pe/Examples.antt =====
-- Runs of the element's threads.
use graph_accelerator.Common.{
  ℕ, ◌+◌, ◌≤◌, ◌<◌, ◌≡◌, ◌↔◌, List, [], ◌∷◌, arith, update, ℤ, pos, leb, if◌then◌else◌, some,
  get_elem?, length, refl, zero, suc, true, minus_one, ◌%◌,
}
use graph_accelerator.Pe.Inspect.{Partition, partition, issue_run, issue_turn, restart, actual_len}
use graph_accelerator.Pe.Inspect.Cover.{
  AreReads, issue_run-AreReads, issue_run_ends, free_turns, partition-covers,
}
use graph_accelerator.Pe.Analysis.{Analysis, analysis_turn, reset_idx}
use graph_accelerator.Pe.Analysis.Found.{Run, begins, arrives, analyzes, HasFound}
use graph_accelerator.Pe.Analysis.Turns.{Run-HasFound}
use graph_accelerator.Pe.Controller.{
  Buffers, controller_run, starts, levels_ended, controller_run-starts,
}
use graph_accelerator.Burst.{Geometry, BurstOp, read}
use graph_accelerator.Pe.Create.{Ports, create_read_burst_req, create_read_burst_req-placed}
use graph_accelerator.Pe.Inspect.Response.{
  LaneAction, issues, sends, receives, responds, lane_run, lane_step, response_turn, all_arrived,
}
use graph_accelerator.Pe.Inspect.Lanes.{lane, lane-depths, buffers}
use graph_accelerator.Pe.Port.{send, receive}
use graph_accelerator.Pe.Expand.Run.{port_idle, load_depths}
use graph_accelerator.Pe.Depths.{later_depths, may_become}
use graph_accelerator.Pe.Inspect.Arrive.{since_beginning}
use graph_accelerator.Bfs.Depth.{at_level}

-- 2500 bytes, in bursts of 1024 into a buffer of 4096; at the third turn the buffer is full.
abbrev bytes_2500 : Partition
bytes_2500 = record { base = 2500; max_len = 2500 }

abbrev sizes : List ℕ
sizes = 1024 ∷ 3500 ∷ 1024 ∷ 0 ∷ []

issue_run-AreReads_example :
    AreReads 1024 4096 2500
      (2500 + (issue_run 1024 4096 bytes_2500 sizes).0.current_len)
      (issue_run 1024 4096 bytes_2500 sizes).1
    × ((issue_run 1024 4096 bytes_2500 sizes).0.current_len ≤ 2500)
issue_run-AreReads_example = issue_run-AreReads 1024 4096 bytes_2500 sizes (omega arith)

-- Three bytes, one in each burst.
abbrev bytes_3 : Partition
bytes_3 = record { base = 0; max_len = 3 }

bytes_3-free : 3 ≤ free_turns 1 4096 sizes
unfolding free_turns
bytes_3-free = omega arith

issue_run_ends_example : (issue_run 1 4096 bytes_3 sizes).0.current_len ≡ 3
issue_run_ends_example = issue_run_ends 1 4096 bytes_3 sizes (omega arith) bytes_3-free

partition-covers_example :
    (i : ℕ) × (i < 4)
    × ((j : ℕ)
        → j < 4
        → (((partition 0 10 j).base ≤ 7)
            × (7 < (partition 0 10 j).base + (partition 0 10 j).max_len))
          ↔ (j ≡ i))
partition-covers_example = partition-covers 10 7 (omega arith)

-- Eight vertices at level 1; the depths 1 and 0 of vertices 2 and 3 arrive.
abbrev level_start : Analysis
level_start = record {
  idx = reset_idx 8;
  depth_buffer = λ i. [];
  frontier_buffer = [];
  frontier_size = 0;
}

abbrev two_arrived : Analysis
two_arrived = record level_start {
  depth_buffer = update (update level_start.depth_buffer 1 (pos 1 ∷ [])) 1 (pos 1 ∷ pos 0 ∷ []);
}

abbrev came : ℕ → List ℤ
came = update (update (λ i. []) 1 (pos 1 ∷ [])) 1 (pos 1 ∷ pos 0 ∷ [])

turn-Run : Run 8 1 (analysis_turn 4096 1 two_arrived) came []
turn-Run = analyzes 4096 (arrives 1 (pos 0) (arrives 1 (pos 1) begins))

Run-HasFound_example : HasFound 8 1 (analysis_turn 4096 1 two_arrived) came []
Run-HasFound_example = Run-HasFound turn-Run

abbrev drained : Buffers
drained = record {
  burst_req_queue = [];
  burst_resp_queue = [];
  burst_op_status = [];
  depth_buffer0 = [];
  frontier_buffer = [];
  rpao_buffer = [];
  ciao_buffer = [];
  depth_buffer1 = [];
  depth_buffer2 = [];
}

controller_run-starts_example :
    ((controller_run (drained ∷ drained ∷ [])).local_counter ≤ 20)
    × (starts (drained ∷ drained ∷ [])
        ≡ levels_ended (drained ∷ drained ∷ [])
          + (if leb 10 (controller_run (drained ∷ drained ∷ [])).local_counter then 1 else 0))
    × ((controller_run (drained ∷ drained ∷ [])).level
        ≡ levels_ended (drained ∷ drained ∷ []) % 256)
controller_run-starts_example = controller_run-starts (drained ∷ drained ∷ [])

abbrev static_geometry : Geometry
static_geometry = record { burst_len = 64; burst_addr_width = 7 }

abbrev no_bursts : Ports
no_bursts = record {
  bursts = [];
  counters = record { next_req = 0; next_burst = 0 };
  burst_req_queue = λ i. [];
}

create_read_burst_req-placed_example :
    (s' : Ports) × (idx : ℕ) × (op : BurstOp) × (create_read_burst_req static_geometry 0 read 2 100
        200 no_bursts
      ≡ some (s', idx))
    × (get_elem? s'.bursts idx ≡ some op)
    × (op.burst_idx ≡ idx)
    × (op.addr ≡ 100)
    × (op.len ≡ 200)
    × (s'.counters.next_burst ≡ length s'.bursts)
create_read_burst_req-placed_example =
    create_read_burst_req-placed static_geometry 0 read 2 100 200 no_bursts (omega arith) refl

-- Five depths, in four lanes with one burst each.
abbrev five : List ℤ
five = pos 0 ∷ minus_one ∷ pos 1 ∷ minus_one ∷ pos 2 ∷ []

-- The depths when the bursts arrive: vertex 3 has been found meanwhile.
abbrev five_later : List ℤ
five_later = pos 0 ∷ minus_one ∷ pos 1 ∷ pos 2 ∷ pos 2 ∷ []

abbrev one_burst : ℕ → List LaneAction
one_burst i = responds ∷ receives five_later ∷ sends ∷ issues 0 i ∷ []

one_burst-issued :
    (i : ℕ) → i < 4 → (lane 4 8 5 one_burst i).issue.current_len ≡ (partition 0 5 i).max_len
unfolding lane_run lane_step issue_turn restart actual_len partition response_turn send receive
    load_depths
one_burst-issued zero lt = refl
one_burst-issued (suc zero) lt = refl
one_burst-issued (suc (suc zero)) lt = refl
one_burst-issued (suc (suc (suc zero))) lt = refl
one_burst-issued (suc (suc (suc (suc i)))) lt = absurd (omega arith)

one_burst-idle : (i : ℕ) → i < 4 → port_idle (lane 4 8 5 one_burst i).port ≡ true
unfolding lane_run lane_step issue_turn restart actual_len partition response_turn send receive
    load_depths
one_burst-idle zero lt = refl
one_burst-idle (suc zero) lt = refl
one_burst-idle (suc (suc zero)) lt = refl
one_burst-idle (suc (suc (suc zero))) lt = refl
one_burst-idle (suc (suc (suc (suc i)))) lt = absurd (omega arith)

one_burst-since_beginning : (i : ℕ) → i < 4 → since_beginning 1 five (one_burst i) ≡ true
unfolding since_beginning later_depths may_become
one_burst-since_beginning i lt = refl

lane-depths_example :
    (later_depths 1 five (buffers 4 8 5 one_burst) ≡ true)
    × ((v : ℕ) → at_level 1 (buffers 4 8 5 one_burst) v ≡ at_level 1 five v)
    × ((i : ℕ) → i < 4 → all_arrived 5 i (lane 4 8 5 one_burst i) ≡ true)
lane-depths_example =
    lane-depths 4 8 1 five one_burst one_burst-since_beginning one_burst-issued one_burst-idle
