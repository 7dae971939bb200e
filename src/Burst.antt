-- ===== src/Burst.antt =====
-- The burst operations of src/common.h and src/common.cpp: `BurstOp`, and the counters of `GL` that
-- number bursts and requests. Addresses and lengths are taken to be non-negative, and bytes are
-- numbers below 256. Printing and tracing are left out.
pub mod Width
pub mod Cover
pub mod Early
pub mod Transfer
pub mod Requests
pub mod Examples
use graph_accelerator.Common.{
  ℕ, zero, suc, ◌+◌, ◌-◌, ◌*◌, ◌/◌, ◌%◌, ◌^◌, Bool, true, false, ◌&&◌, ◌==◌, ltb, leb, List, [],
  ◌∷◌, ◌++◌, Option, none, some, if◌then◌else◌, get_elem?, set, for_range,
}

-- `ramulator::Request::Type`
pub data ReqType : Type 0 where
  read write refresh powerdown selfrefresh extension max : ReqType

-- `GL::burstLen` and `GL::burstAddrWidth`.
pub record Geometry : Type 0 where
  pub burst_len : ℕ
  pub burst_addr_width : ℕ

-- The next values of `GL::getReqIdx()` and `GL::getBurstIdx()`: the source keeps the last ones.
pub record Counters : Type 0 where
  pub next_req : ℕ
  pub next_burst : ℕ

pub get_req_idx : Counters → ℕ × Counters
get_req_idx k = (k.next_req, record k { next_req = k.next_req + 1 })

unfoldable pub get_burst_idx : Counters → ℕ × Counters
get_burst_idx k = (k.next_burst, record k { next_burst = k.next_burst + 1 })

pub record BurstOp : Type 0 where
  pub valid : Bool
  pub req_type : ReqType
  pub port_idx : ℕ
  pub burst_idx : ℕ
  pub pe_idx : ℕ
  pub addr : ℕ
  pub len : ℕ
  pub req_vec : List ℕ
  pub addr_vec : List ℕ
  pub bytes : List ℕ
  pub depart_pe_time : ℕ
  pub arrive_mem_time : ℕ
  pub depart_mem_time : ℕ
  pub arrive_pe_time : ℕ

-- The constructor.
unfoldable pub new_burst : ReqType → ℕ → ℕ → ℕ → ℕ → ℕ → BurstOp
new_burst t port burst pe addr len = record {
  valid = true;
  req_type = t;
  port_idx = port;
  burst_idx = burst;
  pe_idx = pe;
  addr = addr;
  len = len;
  req_vec = [];
  addr_vec = [];
  bytes = [];
  depart_pe_time = 0;
  arrive_mem_time = 0;
  depart_mem_time = 0;
  arrive_pe_time = 0;
}

-- The loop of `GL::getBurstAddrWidth()`, with `n` rounds left; `none` is the exit of the program.
pub width_loop : ℕ → ℕ → ℕ → ℕ → Option ℕ
width_loop len zero width val = none
width_loop len (suc n) width val =
    let rest = width_loop len n (width + 1) (val * 2) in if val == len then some width else rest

pub get_burst_addr_width : ℕ → Option ℕ
unfolding width_loop
get_burst_addr_width len = width_loop len 11 1 1

-- `(addr >> GL::burstAddrWidth) << GL::burstAddrWidth`
unfoldable pub get_aligned_addr : Geometry → BurstOp → ℕ
get_aligned_addr g op = op.addr / 2 ^ g.burst_addr_width * 2 ^ g.burst_addr_width

unfoldable pub get_offset : Geometry → BurstOp → ℕ
unfolding get_aligned_addr
get_offset g op = op.addr - get_aligned_addr g op

-- `x / len`, rounded up as the source does it.
abbrev pub round_up : ℕ → ℕ → ℕ
round_up x len = if x % len == 0 then x / len else x / len + 1

-- `residueLen` may be negative in the source; here `offset` is added to both sides of the test and
-- to the difference.
unfoldable pub get_req_num : Geometry → BurstOp → ℕ
get_req_num g op =
    let offset = get_offset g op in
    if offset == 0
    then round_up op.len g.burst_len
    else if ltb g.burst_len (op.len + offset)
    then 1 + round_up (op.len + offset - g.burst_len) g.burst_len
    else 1

-- `updateReqVec()`
unfoldable pub req_loop : ℕ → Counters → List ℕ → List ℕ × Counters
req_loop zero k vec = (vec, k)
req_loop (suc n) k vec =
    req_loop n (record k { next_req = k.next_req + 1 }) (vec ++ k.next_req ∷ [])

pub update_req_vec : Geometry → BurstOp → Counters → BurstOp × Counters
update_req_vec g op k =
    let (vec, k') = req_loop (get_req_num g op) k op.req_vec in (record op { req_vec = vec }, k')

-- The `for` loop of `updateAddrVec()`: `n` addresses from `req_addr` on.
unfoldable pub aligned_loop : Geometry → ℕ → ℕ → List ℕ → List ℕ
aligned_loop g zero req_addr vec = vec
aligned_loop g (suc n) req_addr vec =
    aligned_loop g n (req_addr + g.burst_len) (vec ++ req_addr ∷ [])

-- Its `while` loop. `req_len` and `len` are those of the source with `offset` added, since `reqLen`
-- may start below zero. `none` means that the fuel ran out.
unfoldable pub residue_loop : Geometry → ℕ → ℕ → ℕ → ℕ → List ℕ → Option (List ℕ)
residue_loop g zero req_len len req_addr vec = none
residue_loop g (suc fuel) req_len len req_addr vec =
    let next = req_addr + g.burst_len in
    let rest =
      residue_loop g fuel (if leb (req_len + g.burst_len) len then req_len + g.burst_len else len)
        len next (vec ++ next ∷ []) in
    if ltb req_len len then rest else some vec

-- `updateAddrVec()`; a round adds a byte at least, so there are at most as many as bytes.
pub update_addr_vec : Geometry → BurstOp → Option BurstOp
update_addr_vec g op =
    let offset = get_offset g op in
    if offset == 0
    then some (record op { addr_vec = aligned_loop g (get_req_num g op) op.addr op.addr_vec })
    else (let first = get_aligned_addr g op in
        let vec =
          residue_loop g (op.len + offset + 1) g.burst_len (op.len + offset) first
            (op.addr_vec ++ first ∷ []) in
        elim vec [ none ↦ none | some v ↦ some (record op { addr_vec = v }) ])
