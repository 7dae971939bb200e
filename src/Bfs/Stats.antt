-- ===== src/Bfs/Stats.antt =====
-- The memory traffic that the searches of bfs/graph.cpp count, and `CSR::getBurstNum`. The counters
-- are `int`s that are taken not to overflow.
use graph_accelerator.Common.{ℕ, ◌+◌, ◌*◌, ◌/◌, ◌%◌, ◌==◌, if◌then◌else◌}

pub record Stats : Type 0 where
  pub read_bytes : ℕ
  pub write_bytes : ℕ
  pub read_bursts : ℕ
  pub write_bursts : ℕ

abbrev pub no_traffic : Stats
no_traffic = record { read_bytes = 0; write_bytes = 0; read_bursts = 0; write_bursts = 0 }

-- `readBytes += bytes; readBursts += bursts;`
abbrev pub read : ℕ → ℕ → Stats → Stats
read bytes bursts s = record s {
  read_bytes = s.read_bytes + bytes;
  read_bursts = s.read_bursts + bursts;
}

-- `writeBytes += bytes; writeBursts += bursts;`
abbrev pub write : ℕ → ℕ → Stats → Stats
write bytes bursts s = record s {
  write_bytes = s.write_bytes + bytes;
  write_bursts = s.write_bursts + bursts;
}

abbrev pub burstlen : ℕ
burstlen = 64

-- `getBurstNum(num, size)`
unfoldable pub burst_num : ℕ → ℕ → ℕ
burst_num num size =
    let len = num * size in if len % burstlen == 0 then len / burstlen else len / burstlen + 1
