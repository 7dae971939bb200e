-- ===== src/Burst/Transfer.antt =====
-- How the bytes of a burst move: `ramToReq` and `reqToRam` between the burst and the memory,
-- `bufferToBurstReq` and `burstReqToBuffer` between the burst and the buffers of an element. The
-- representation of a value by `width` bytes is a parameter, `encode` and `decode`.
pub mod Copy
pub mod Chunks
use graph_accelerator.Common.{
  ℕ, zero, suc, ◌+◌, ◌/◌, ◌%◌, ◌==◌, Bool, true, false, List, [], ◌∷◌, ◌++◌, Option, none, some,
  get_elem?, set, length, ltb, if◌then◌else◌,
}
use graph_accelerator.Burst.{BurstOp}

-- The loop of `ramToReq`, with `n` rounds left; `none` is a read out of range.
unfoldable pub load_bytes : ℕ → ℕ → List ℕ → List ℕ → Option (List ℕ)
load_bytes zero at ram bytes = some bytes
load_bytes (suc n) at ram bytes = elim (get_elem? ram at) [
  | none ↦ none
  | some b ↦ load_bytes n (suc at) ram (bytes ++ b ∷ [])
]

unfoldable pub ram_to_req : BurstOp → List ℕ → Option BurstOp
ram_to_req op ram = elim (load_bytes op.len op.addr ram op.bytes) [
  | none ↦ none
  | some bytes ↦ some (record op { bytes = bytes })
]

-- The loop of `reqToRam`, at byte `i` of the burst; `none` is an access out of range.
unfoldable pub store_bytes : ℕ → ℕ → ℕ → List ℕ → List ℕ → Option (List ℕ)
store_bytes zero i at bytes ram = some ram
store_bytes (suc n) i at bytes ram = elim (get_elem? bytes i) [
  | none ↦ none
  | some b ↦ elim (ltb at (length ram)) [
    | true ↦ store_bytes n (suc i) (suc at) bytes (set ram at b)
    | false ↦ none
  ]
]

unfoldable pub req_to_ram : BurstOp → List ℕ → Option (List ℕ)
req_to_ram op ram = store_bytes op.len 0 op.addr op.bytes ram

-- The bytes of one value, from byte `i` of the burst on; `none` is a read out of range.
unfoldable pub take_bytes : ℕ → ℕ → List ℕ → Option (List ℕ)
take_bytes zero i bytes = some []
take_bytes (suc n) i bytes = elim (get_elem? bytes i) [
  | none ↦ none
  | some b ↦ elim (take_bytes n (suc i) bytes) [ none ↦ none | some bs ↦ some (b ∷ bs) ]
]

module _ {ℓ} {T : Type ℓ} (width : ℕ) where
  -- The outer loop of `burstReqToBuffer`, with `n` values left.
  unfoldable pub take_values : (List ℕ → T) → ℕ → ℕ → List ℕ → List T → Option (List T)
  take_values decode zero i bytes buffer = some buffer
  take_values decode (suc n) i bytes buffer = elim (take_bytes width i bytes) [
    | none ↦ none
    | some bs ↦ take_values decode n (i + width) bytes (buffer ++ decode bs ∷ [])
  ]

  -- `none` is also the exit for a length that is no multiple of the width.
  unfoldable pub burst_req_to_buffer : (List ℕ → T) → BurstOp → List T → Option (List T)
  burst_req_to_buffer decode op buffer = elim (op.len % width == 0) [
    | true ↦ take_values decode (op.len / width) 0 op.bytes buffer
    | false ↦ none
  ]

  -- The loop of `bufferToBurstReq`; `none` is the front of an empty list.
  unfoldable pub put_values : (T → List ℕ) → ℕ → List T → List ℕ → Option (List T × List ℕ)
  put_values encode zero buffer bytes = some (buffer, bytes)
  put_values encode (suc n) [] bytes = none
  put_values encode (suc n) (x ∷ buffer) bytes = put_values encode n buffer (bytes ++ encode x)

  unfoldable pub buffer_to_burst_req : (T → List ℕ) → List T → BurstOp → Option (List T × BurstOp)
  buffer_to_burst_req encode buffer op = elim (put_values encode (op.len / width) buffer op.bytes) [
    | none ↦ none
    | some (rest, bytes) ↦ some (rest, record op { bytes = bytes })
  ]
