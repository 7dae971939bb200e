-- ===== src/Pe/Expand.antt =====
-- The expansion threads of src/pe.cpp: from a frontier vertex the element reads its two row offsets,
-- then the targets of its edges, then the depths of those, and writes the next depth of each that is
-- unvisited. A thread is modelled from wait to wait: the `wait` inside the creation of a burst parts
-- it in two, and `…_creating` holds the burst meanwhile. Flags that only print are left out.
-- The level is the value of the `char` of the source, from 0 to 127; the next level is an `int` that
-- becomes a `char` again in `depthBuffer2`.
pub mod Run
pub mod Pending
pub mod Reading
pub mod Writing
pub mod Level
pub mod Correct
pub mod Ends
pub mod Work
pub mod Asked
pub mod Later
pub mod Stalls
mod Examples
use graph_accelerator.Common.{
  ℕ, zero, suc, ◌+◌, ◌-◌, ◌*◌, ◌/◌, ◌%◌, Bool, true, false, ◌&&◌, ◌||◌, not, ◌==◌, ltb, leb, List,
  [], ◌∷◌, ◌++◌, Option, none, some, ℤ, pos, minus_one, eq_ℤ, if◌then◌else◌, length, to_char,
}
use graph_accelerator.Memory.Layout.{Layout}
use graph_accelerator.Pe.Port.{Access, Reply, Port, push_req}

-- `GL::baseLen` and the depths of the buffers.
pub record Sizes : Type 0 where
  pub base_len : ℕ
  pub rpao_buffer_depth : ℕ
  pub ciao_buffer_depth : ℕ
  pub depth_buffer_depth : ℕ

-- The local variables of the inner loop of `issueExpandCiaoReadReq`.
pub record CiaoLoop : Type 0 where
  pub mem_addr : ℕ
  pub len : ℕ
  pub max_len : ℕ

-- A write of one byte.
pub record Write : Type 0 where
  pub access : Access
  pub value : ℤ

-- Ports 4 to 7 are `rpao_port`, `ciao_port`, `depth_port` and the three lists of writes; `op_status`
-- holds the keys of `burstOpStatus`.
pub record Expand : Type 0 where
  pub next_burst : ℕ
  pub op_status : List ℕ
  pub frontier_buffer : List ℕ
  pub rpao_creating : Option Access
  pub rpao_port : Port ℕ
  pub rpao_buffer : List ℕ
  pub ciao_loop : Option CiaoLoop
  pub ciao_creating : Option Access
  pub ciao_port : Port ℕ
  pub ciao_buffer : List ℕ
  pub vidx_buffer : List ℕ
  pub depth_creating : Option Access
  pub depth_port : Port ℤ
  pub depth_buffer1 : List ℤ
  pub depth_buffer2 : List ℤ
  pub write_creating : Option Access
  pub write_req : List Write
  pub write_flight : List Write
  pub write_resp : List Write

-- `new BurstOp(…)` with the next index.
abbrev pub new_access : Expand → ℕ → ℕ → Access
new_access s addr len = record { burst_idx = s.next_burst; addr = addr; len = len }

-- `burstOpStatus.erase(burstIdx)`
unfoldable pub erase_status : ℕ → List ℕ → List ℕ
erase_status idx [] = []
erase_status idx (x ∷ xs) = let rest = erase_status idx xs in if idx == x then rest else x ∷ rest

-- `frontierAnalysis`, up to the wait.
unfoldable pub frontier_turn : Sizes → Layout → Expand → Expand
frontier_turn z l s = elim s.rpao_creating [
  | some a ↦ s
  | none ↦ elim s.frontier_buffer [
    | [] ↦ s
    | vidx ∷ rest ↦
        if ltb (length s.rpao_buffer + 2) z.rpao_buffer_depth
        then record s {
          frontier_buffer = rest;
          rpao_creating = some (new_access s (l.rpao + vidx * 4) (4 * 2));
          next_burst = s.next_burst + 1;
        }
        else s
  ]
]

-- The end of the creation: `burstReqQueue[portIdx].push_back(burstIdx)`, `burstOpStatus[burstIdx] =
-- false`.
unfoldable pub frontier_place : Expand → Expand
frontier_place s = elim s.rpao_creating [
  | none ↦ s
  | some a ↦ record s {
    rpao_creating = none;
    rpao_port = push_req s.rpao_port a;
    op_status = s.op_status ++ a.burst_idx ∷ [];
  }
]

-- `processExpandRpaoReadResp`; `none` is the exit for a length that is no multiple of four.
unfoldable pub rpao_resp_turn : Expand → Option Expand
rpao_resp_turn s = elim s.rpao_port.resp [
  | [] ↦ some s
  | r ∷ rest ↦ elim (r.access.len % 4 == 0) [
    | false ↦ none
    | true ↦ some (record s {
      op_status = erase_status r.access.burst_idx s.op_status;
      rpao_buffer = s.rpao_buffer ++ r.values;
      rpao_port = record (s.rpao_port) { resp = rest };
    })
  ]
]

-- `issueExpandCiaoReadReq`: it takes two offsets, …
unfoldable pub ciao_take : Layout → Expand → Expand
ciao_take l s = elim s.ciao_loop [
  | some p ↦ s
  | none ↦ elim s.rpao_buffer [
    | [] ↦ s
    | src ∷ ds ↦ elim ds [
      | [] ↦ s
      | dst ∷ rest ↦ record s {
        rpao_buffer = rest;
        ciao_loop =
            some (record { mem_addr = l.ciao + src * 4; len = 0; max_len = 4 * (dst - src) });
      }
    ]
  ]
]

abbrev pub chunk_len : Sizes → CiaoLoop → ℕ
chunk_len z p = if ltb p.max_len (p.len + z.base_len) then p.max_len - p.len else z.base_len

-- … and issues a chunk, or ends, up to the wait.
unfoldable pub ciao_turn : Sizes → Expand → Expand
ciao_turn z s = elim s.ciao_loop [
  | none ↦ s
  | some p ↦ elim s.ciao_creating [
    | some a ↦ s
    | none ↦
        if ltb p.len p.max_len
        then (let n = chunk_len z p in
            if ltb (length s.ciao_buffer + n / 4) z.ciao_buffer_depth
            then record s {
              ciao_loop = some (record p { mem_addr = p.mem_addr + n; len = p.len + n });
              ciao_creating = some (new_access s p.mem_addr n);
              next_burst = s.next_burst + 1;
            }
            else s)
        else record s { ciao_loop = none }
  ]
]

unfoldable pub ciao_place : Expand → Expand
ciao_place s = elim s.ciao_creating [
  | none ↦ s
  | some a ↦ record s {
    ciao_creating = none;
    ciao_port = push_req s.ciao_port a;
    op_status = s.op_status ++ a.burst_idx ∷ [];
  }
]

-- `processExpandCiaoReadResp`
unfoldable pub ciao_resp_turn : Expand → Option Expand
ciao_resp_turn s = elim s.ciao_port.resp [
  | [] ↦ some s
  | r ∷ rest ↦ elim (r.access.len % 4 == 0) [
    | false ↦ none
    | true ↦ some (record s {
      op_status = erase_status r.access.burst_idx s.op_status;
      ciao_buffer = s.ciao_buffer ++ r.values;
      ciao_port = record (s.ciao_port) { resp = rest };
    })
  ]
]

-- `issueExpandDepthReadReq`, up to the wait.
unfoldable pub depth_turn : Sizes → Layout → Expand → Expand
depth_turn z l s = elim s.depth_creating [
  | some a ↦ s
  | none ↦ elim s.ciao_buffer [
    | [] ↦ s
    | vidx ∷ rest ↦
        if ltb (length s.ciao_buffer) z.depth_buffer_depth
        then record s {
          vidx_buffer = s.vidx_buffer ++ vidx ∷ [];
          ciao_buffer = rest;
          depth_creating = some (new_access s (l.depth + vidx * 1) 1);
          next_burst = s.next_burst + 1;
        }
        else s
  ]
]

unfoldable pub depth_place : Expand → Expand
depth_place s = elim s.depth_creating [
  | none ↦ s
  | some a ↦ record s {
    depth_creating = none;
    depth_port = push_req s.depth_port a;
    op_status = s.op_status ++ a.burst_idx ∷ [];
  }
]

-- `processExpandDepthReadResp`
unfoldable pub depth_resp_turn : Expand → Expand
depth_resp_turn s = elim s.depth_port.resp [
  | [] ↦ s
  | r ∷ rest ↦ record s {
    op_status = erase_status r.access.burst_idx s.op_status;
    depth_buffer1 = s.depth_buffer1 ++ r.values;
    depth_port = record (s.depth_port) { resp = rest };
  }
]

-- `expandDepthAnalysis`, up to the wait; `none` is the front of an empty `vidxBuffer`.
unfoldable pub depth_analysis_turn : Sizes → Layout → ℕ → Expand → Option Expand
depth_analysis_turn z l level s = elim s.write_creating [
  | some a ↦ some s
  | none ↦ elim s.depth_buffer1 [
    | [] ↦ some s
    | d ∷ ds ↦ elim (leb (length s.depth_buffer2) z.depth_buffer_depth) [
      | false ↦ some s
      | true ↦ elim s.vidx_buffer [
        | [] ↦ none
        | vidx ∷ vs ↦ some (
            if eq_ℤ d minus_one
            then record s {
              depth_buffer1 = ds;
              vidx_buffer = vs;
              depth_buffer2 = s.depth_buffer2 ++ to_char (level + 1) ∷ [];
              write_creating = some (new_access s (l.depth + vidx * 1) 1);
              next_burst = s.next_burst + 1;
            }
            else record s { depth_buffer1 = ds; vidx_buffer = vs })
      ]
    ]
  ]
]

-- The end of `createWriteBurstReq`: the byte moves from `depthBuffer2` to the burst; `none` is the front
-- of an empty list.
unfoldable pub write_place : Expand → Option Expand
write_place s = elim s.write_creating [
  | none ↦ some s
  | some a ↦ elim s.depth_buffer2 [
    | [] ↦ none
    | d ∷ ds ↦ some (record s {
      write_creating = none;
      depth_buffer2 = ds;
      write_req = s.write_req ++ (record { access = a; value = d }) ∷ [];
      op_status = s.op_status ++ a.burst_idx ∷ [];
    })
  ]
]

-- `processExpandDepthWriteResp`
unfoldable pub write_resp_turn : Expand → Expand
write_resp_turn s = elim s.write_resp [
  | [] ↦ s
  | w ∷ rest ↦ record s {
    op_status = erase_status w.access.burst_idx s.op_status;
    write_resp = rest;
  }
]
