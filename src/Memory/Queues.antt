-- ===== src/Memory/Queues.antt =====
-- The queues of `MemWrapper`: `getBurstReq`, the completion of a request in `run_acc`, and
-- `sendBurstResp`. A vector with one entry for each port and a `std::map` are functions. A signal
-- without a burst, -1 in the source, is `none`.
pub mod Order
pub mod Once
use graph_accelerator.Common.{
  ℕ, ◌+◌, Bool, true, false, ◌==◌, leb, List, [], ◌∷◌, ◌++◌, Option, none, some, if◌then◌else◌,
  get_elem?, set, contains, update,
}
use graph_accelerator.Burst.{
  Geometry, ReqType, read, write, refresh, powerdown, selfrefresh, extension, max, BurstOp,
  get_req_num,
}
use graph_accelerator.Burst.Requests.{Request, convert_to_req}
use graph_accelerator.Burst.Transfer.{ram_to_req, req_to_ram}

-- `bursts` is `GL::bursts`.
pub record Wrapper : Type 0 where
  pub bursts : List BurstOp
  pub burst_req_queue : ℕ → List ℕ
  pub burst_resp_queue : ℕ → List ℕ
  pub req_queue : List Request
  pub total_req_num : ℕ → ℕ
  pub processed_req_num : ℕ → ℕ
  pub burst_resp : ℕ → Option ℕ
  pub ram : List ℕ

-- `getBurstReq` for the burst that the signal of port `i` holds; `none` is an access out of range.
unfoldable pub accept : Geometry → ℕ → ℕ → Wrapper → Option Wrapper
accept g i burst_idx w = elim (get_elem? w.bursts burst_idx) [
  | none ↦ none
  | some op ↦ elim (convert_to_req g op w.req_queue) [
    | none ↦ none
    | some req_queue ↦ some (record w {
      burst_req_queue = update w.burst_req_queue i (w.burst_req_queue i ++ burst_idx ∷ []);
      total_req_num = update w.total_req_num burst_idx (get_req_num g op);
      processed_req_num = update w.processed_req_num burst_idx 0;
      req_queue = req_queue;
    })
  ]
]

-- Work on `*GL::bursts[i]`.
unfoldable pub modify_burst : List BurstOp → ℕ → (BurstOp → BurstOp) → List BurstOp
modify_burst ops i f = elim (get_elem? ops i) [ none ↦ ops | some op ↦ set ops i (f op) ]

-- A request is done, as `read_complete` and the branch for writes have it: the times are those of its
-- user data.
unfoldable pub complete : Request → Wrapper → Wrapper
complete r w =
    let n = w.processed_req_num r.burst_idx + 1 in
    let arrived =
      if n == 1
      then modify_burst w.bursts r.burst_idx
          (λ op. record op { arrive_mem_time = r.arrive_mem_time })
      else w.bursts in
    record w {
      processed_req_num = update w.processed_req_num r.burst_idx n;
      bursts =
          if n == w.total_req_num r.burst_idx
          then modify_burst arrived r.burst_idx
              (λ op. record op { depart_mem_time = r.depart_mem_time })
          else arrived;
      burst_resp_queue =
          if n == w.total_req_num r.burst_idx
          then update w.burst_resp_queue r.port_idx
              (w.burst_resp_queue r.port_idx ++ r.burst_idx ∷ [])
          else w.burst_resp_queue;
    }

-- `burstRespQueue[i].erase(it)`, for the first entry that is `idx`.
unfoldable pub erase_first : ℕ → List ℕ → List ℕ
erase_first idx [] = []
erase_first idx (x ∷ xs) = if idx == x then xs else x ∷ erase_first idx xs

-- The move of the data when a burst is answered; `none` is an access out of range.
unfoldable pub transfer : ℕ → BurstOp → Wrapper → Option Wrapper
transfer idx op w = elim op.req_type [
  | write ↦ elim (req_to_ram op w.ram) [ none ↦ none | some ram ↦ some (record w { ram = ram }) ]
  | _ ↦ elim (ram_to_req op w.ram) [
    | none ↦ none
    | some op' ↦ some (record w { bursts = set w.bursts idx op' })
  ]
]

-- `sendBurstResp` for port `i` at time `now`; `none` is an access out of range. A burst that is not due
-- leaves the signal as it is.
unfoldable pub respond : ℕ → ℕ → Wrapper → Option Wrapper
respond now i w = elim (w.burst_req_queue i) [
  | [] ↦ some (record w { burst_resp = update w.burst_resp i none })
  | idx ∷ rest ↦ elim (contains idx (w.burst_resp_queue i)) [
    | false ↦ some (record w { burst_resp = update w.burst_resp i none })
    | true ↦ elim (get_elem? w.bursts idx) [
      | none ↦ none
      | some op ↦ elim (leb op.depart_mem_time now) [
        | false ↦ some w
        | true ↦ elim (transfer idx op w) [
          | none ↦ none
          | some w' ↦ some (record w' {
            burst_resp = update w.burst_resp i (some idx);
            burst_req_queue = update w.burst_req_queue i rest;
            burst_resp_queue = update w.burst_resp_queue i (erase_first idx (w.burst_resp_queue i));
          })
        ]
      ]
    ]
  ]
]
