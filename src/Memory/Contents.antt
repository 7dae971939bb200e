-- ===== src/Memory/Contents.antt =====
-- What `ramInit` writes to the memory, and what a burst reads of it. The bytes of an
-- `int` are a parameter, `encode` and `decode`: their order in memory is that of the machine.
pub mod Words
pub mod Init
pub mod Depths
use graph_accelerator.Common.{ℕ, ◌+◌, ◌*◌, List, [], ◌∷◌, Option, none, some}
use graph_accelerator.Bfs.Csr.{Csr}
use graph_accelerator.Memory.Layout.{Layout}
use graph_accelerator.Memory.Reset.{update_single, fill, minus_one_bytes}

-- `fillMem`, for values of `width` bytes.
unfoldable pub fill_mem : ℕ → (ℕ → List ℕ) → List ℕ → ℕ → List ℕ → Option (List ℕ)
fill_mem width encode [] addr ram = some ram
fill_mem width encode (x ∷ xs) addr ram = elim (update_single width addr (encode x) ram) [
  | none ↦ none
  | some ram' ↦ fill_mem width encode xs (addr + width) ram'
]

abbrev pub and_then : Option (List ℕ) → (List ℕ → Option (List ℕ)) → Option (List ℕ)
and_then none f = none
and_then (some ram) f = f ram

-- The depths, the four arrays and the frontier, in turn; each depth and each entry of the frontier is -1.
unfoldable pub init_ram : (ℕ → List ℕ) → Csr → Layout → List ℕ → Option (List ℕ)
init_ram encode c l ram = and_then (fill c.v_num 1 l.depth (minus_one_bytes 1) ram) λ r.
    and_then (fill_mem 4 encode c.rpao l.rpao r) λ r.
      and_then (fill_mem 4 encode c.ciao l.ciao r) λ r.
        and_then (fill_mem 4 encode c.rpai l.rpai r) λ r.
          and_then (fill_mem 4 encode c.ciai l.ciai r)
            (fill c.v_num 4 l.frontier (minus_one_bytes 4))
