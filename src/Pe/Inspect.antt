-- ===== src/Pe/Inspect.antt =====
-- `inspectDepthReqThread` and the four threads that call it: each reads one partition of the depths,
-- in bursts of at most `GL::baseLen` bytes. A depth is one byte. Flags that only print are left out.
pub mod Cover
pub mod Response
pub mod Arrive
pub mod Lanes
use graph_accelerator.Common.{
  ℕ, ◌+◌, ◌-◌, ◌*◌, ◌/◌, Bool, true, false, ◌==◌, ltb, List, [], ◌∷◌, Option, none, some,
  if◌then◌else◌,
}

-- `baseDepthMemAddr` and `maxLen` of `issueInspectDepthReadReq0` to `3`, with `GL::depthMemAddr` of the
-- first, which the others leave out.
pub record Partition : Type 0 where
  pub base : ℕ
  pub max_len : ℕ

unfoldable pub partition : ℕ → ℕ → ℕ → Partition
partition depth_mem_addr vertex_num port =
    if port == 0 then record { base = depth_mem_addr; max_len = vertex_num / 4 } else record {
      base = port * (vertex_num / 4);
      max_len = if port == 3 then vertex_num - 3 * (vertex_num / 4) else vertex_num / 4;
    }

-- The variables of the thread.
pub record Issue : Type 0 where
  pub mem_addr : ℕ
  pub current_len : ℕ

-- `if(bfsIterationStart)`
unfoldable pub restart : Partition → Issue
restart p = record { mem_addr = p.base; current_len = 0 }

-- The length of the next burst.
unfoldable pub actual_len : ℕ → Partition → Issue → ℕ
actual_len base_len p s =
    if ltb p.max_len (s.current_len + base_len) then p.max_len - s.current_len else base_len

pub record Read : Type 0 where
  pub addr : ℕ
  pub len : ℕ

-- One test of the inner loop, with the size of the buffer at that time and the buffer's depth: the read
-- that it issues, if any. A full buffer makes it wait.
unfoldable pub issue_turn : ℕ → ℕ → Partition → ℕ → Issue → Issue × Option Read
issue_turn base_len buffer_depth p buffer_size s =
    let len = actual_len base_len p s in
    if ltb s.current_len p.max_len
    then (if ltb buffer_depth (buffer_size + len) then (s, none) else (
      record { mem_addr = s.mem_addr + len; current_len = s.current_len + len },
      some (record { addr = s.mem_addr; len = len }),
    ))
    else (s, none)

abbrev pub push_read : Option Read → List Read → List Read
push_read none reads = reads
push_read (some r) reads = r ∷ reads

-- A run of the thread, for the buffer sizes that it meets, with its reads, the last first.
unfoldable pub issue_run : ℕ → ℕ → Partition → List ℕ → Issue × List Read
issue_run base_len buffer_depth p [] = (restart p, [])
issue_run base_len buffer_depth p (size ∷ sizes) =
    let (s, reads) = issue_run base_len buffer_depth p sizes in
    let (s', r) = issue_turn base_len buffer_depth p size s in (s', push_read r reads)
