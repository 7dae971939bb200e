-- ===== src/Memory/Contents/Depths.antt =====
-- The depths of the element's model beside the bytes of the memory: what `ramToReq` and then
-- `burstReqToBuffer<char>` of src/common.h and src/common.cpp bring of them.
use graph_accelerator.Common.{
  ℕ, zero, suc, ◌+◌, ◌-◌, ◌/◌, ◌%◌, ◌==◌, ◌≤◌, ◌<◌, ◌≡◌, refl, sym, ap, ◌∙◌, true, List, [], ◌∷◌,
  ◌++◌, map, some, length, get_or, slice, arith, ℤ, pos, to_char, length-slice,
}
use mathlib.Core.List.{append_assoc, append-nil}
use graph_accelerator.Bfs.Depth.{depth_at}
use graph_accelerator.Burst.{BurstOp}
use graph_accelerator.Burst.Transfer.{take_bytes, take_values, ram_to_req, burst_req_to_buffer}
use graph_accelerator.Burst.Transfer.Copy.{load_bytes-slice}
use graph_accelerator.Burst.Transfer.Chunks.{take_bytes-append, length-append}
use graph_accelerator.Memory.Layout.{Layout}
use graph_accelerator.Pe.Expand.Run.{load_depths, load_depth}

-- The `char` of one byte.
abbrev pub as_char : List ℕ → ℤ
as_char (b ∷ []) = to_char b
as_char _ = pos 0

take_values-chars :
    (bs before : List ℕ) (buffer : List ℤ)
    → take_values 1 as_char (length bs) (length before) (before ++ bs) buffer
      ≡ some (buffer ++ map to_char bs)
unfolding take_values
take_values-chars [] before buffer = ap some (sym (append-nil buffer))
take_values-chars (b ∷ bs) before buffer =
    let first : take_bytes 1 (length before) (before ++ (b ∷ bs)) ≡ some (b ∷ []) =
      take_bytes-append before (b ∷ []) bs in
    let rest = take_values-chars bs (before ++ b ∷ []) (buffer ++ to_char b ∷ []) in
    let next : length (before ++ b ∷ []) ≡ length before + 1 = length-append before (b ∷ []) in
    let rest' =
      rw
        (
          next,
          append_assoc before (b ∷ []) bs,
          append_assoc buffer (to_char b ∷ []) (map to_char bs),
        )
        at rest in
    rw (first, take_values) rest'

-- The memory holds these depths, a signed byte each.
abbrev pub HoldsDepths : Layout → List ℤ → List ℕ → Type 0
HoldsDepths l d ram = (v : ℕ) → v < length d → to_char (get_or ram (l.depth + v) 0) ≡ depth_at d v

chars-load_depths :
    (l : Layout) (d : List ℤ) (ram : List ℕ)
    → HoldsDepths l d ram
    → (v n : ℕ) → v + n ≤ length d
    → map to_char (slice ram (l.depth + v) n) ≡ load_depths d v n
unfolding slice load_depths
chars-load_depths l d ram h v zero le = refl
chars-load_depths l d ram h v (suc n) le =
    let first = h v (omega (arith, le)) in
    let e : suc (l.depth + v) ≡ l.depth + suc v = omega arith in
    let rest = chars-load_depths l d ram h (suc v) n (omega (arith, le)) in rw (first, e, rest) refl

-- When the memory holds the depths as signed bytes from their address on, a fresh burst inside them brings
-- to a buffer, by `ramToReq` and then `burstReqToBuffer<char>`, exactly the depths that the
-- element's threads take it to bring.
pub burst_req_to_buffer-load_depth :
    (l : Layout) (d : List ℤ) (ram : List ℕ) (op : BurstOp) (v n : ℕ) (buffer : List ℤ)
    → HoldsDepths l d ram
    → l.depth + length d ≤ length ram
    → v + n ≤ length d
    → op.addr ≡ l.depth + v
    → op.len ≡ n
    → op.bytes ≡ []
    → (u : BurstOp) × (ram_to_req op ram ≡ some u)
      × (burst_req_to_buffer 1 as_char u buffer
          ≡ some (
              buffer
              ++ load_depth d l
                  (record { burst_idx = op.burst_idx; addr = op.addr; len = op.len })))
unfolding ram_to_req burst_req_to_buffer
burst_req_to_buffer-load_depth l d ram op v n buffer h room inside addr len fresh =
    let bs = slice ram (l.depth + v) n in
    let read = load_bytes-slice n (l.depth + v) ram [] (omega (arith, room, inside)) in
    let at : l.depth + v - l.depth ≡ v = omega arith in
    let whole : n % 1 == 0 ≡ true = ground arith in
    let count : n / 1 ≡ length bs = omega arith ∙ sym (length-slice ram (l.depth + v) n) in
    (
      record op { bytes = bs },
      simp (len, addr, fresh, read, ram_to_req),
      simp (len, addr, at, whole, count, burst_req_to_buffer)
          (take_values-chars bs [] buffer
            ∙ ap (λ r. some (buffer ++ r)) (chars-load_depths l d ram h v n inside)),
    )
