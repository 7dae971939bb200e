-- ===== src/Pe/Inspect/Response.antt =====
-- `inspectDepthRespThread` and the four threads that call it, beside the thread that issues the reads: a lane
-- is one partition of the depths with its port. `buffer` holds all that has been appended to
-- `depthBuffer0` since the level began, `burstOpStatus` is left out, and the report that the reads are
-- done is a test.
use graph_accelerator.Common.{
  ℕ, ◌+◌, ◌-◌, ◌*◌, ◌/◌, Bool, ◌==◌, List, [], ◌∷◌, ◌++◌, ℤ, Option, none, some, if◌then◌else◌,
}
use graph_accelerator.Pe.Inspect.{Partition, Issue, restart, Read, issue_turn}
use graph_accelerator.Pe.Port.{Port, push_req, send, receive}
use graph_accelerator.Pe.Expand.Run.{load_depths}

pub record Lane : Type 0 where
  pub issue : Issue
  pub port : Port ℤ
  pub buffer : List ℤ
  pub total_len : ℕ

-- `if(bfsIterationStart)`, when the port is empty.
abbrev pub start_lane : Partition → Lane
start_lane p = record {
  issue = restart p;
  port = record { req = []; flight = []; resp = [] };
  buffer = [];
  total_len = 0;
}

-- The read of a turn goes to the queue of the port.
abbrev pub push_access : ℕ → Option Read → Port ℤ → Port ℤ
push_access idx none q = q
push_access idx (some r) q = push_req q (record { burst_idx = idx; addr = r.addr; len = r.len })

-- A turn of `inspectDepthRespThread`.
unfoldable pub response_turn : Lane → Lane
response_turn n = elim n.port.resp [
  | [] ↦ n
  | r ∷ rest ↦ record n {
    buffer = n.buffer ++ r.values;
    port = record (n.port) { resp = rest };
    total_len = n.total_len + r.access.len;
  }
]

-- `expectedLen`
unfoldable pub expected_len : ℕ → ℕ → ℕ
expected_len vertex_num port =
    if port == 3 then vertex_num - port * (vertex_num / 4) else vertex_num / 4

-- `totalLen == expectedLen`
abbrev pub all_arrived : ℕ → ℕ → Lane → Bool
all_arrived vertex_num port n = n.total_len == expected_len vertex_num port

-- A turn of the thread that issues, for the size of the buffer and the index of the next burst, of the port, of
-- the memory with the depths of that time, and of the thread that takes the answers. Other threads
-- write depths between the turns.
pub data LaneAction : Type 0 where
  issues : ℕ → ℕ → LaneAction
  receives : List ℤ → LaneAction
  sends responds : LaneAction

unfoldable pub lane_step : ℕ → ℕ → Partition → ℕ → LaneAction → Lane → Lane
lane_step base_len buffer_depth p depth_addr (issues size idx) n =
    let turn = issue_turn base_len buffer_depth p size n.issue in
    record n { issue = turn.0; port = push_access idx turn.1 n.port }
lane_step base_len buffer_depth p depth_addr sends n = record n { port = send n.port }
lane_step base_len buffer_depth p depth_addr (receives d) n = record n {
  port = receive (λ a. load_depths d (a.addr - depth_addr) a.len) n.port;
}
lane_step base_len buffer_depth p depth_addr responds n = response_turn n

unfoldable pub lane_run : ℕ → ℕ → Partition → ℕ → List LaneAction → Lane
lane_run base_len buffer_depth p depth_addr [] = start_lane p
lane_run base_len buffer_depth p depth_addr (a ∷ before) =
    lane_step base_len buffer_depth p depth_addr a
      (lane_run base_len buffer_depth p depth_addr before)
