-- ===== src/Burst/Examples.antt =====
-- Runs of the burst operations.
use graph_accelerator.Common.{
  ℕ, ◌+◌, ◌≤◌, ◌<◌, ◌≡◌, refl, true, List, [], ◌∷◌, some, length, contains, arith, ◌++◌, get_or,
  slice, ◌⊎◌,
}
use graph_accelerator.Burst.{
  Geometry, read, BurstOp, new_burst, get_burst_addr_width, get_req_num, update_addr_vec,
  get_offset, residue_loop, Counters, update_req_vec, get_aligned_addr, write,
}
use graph_accelerator.Burst.Cover.{update_addr_vec-covers}
use graph_accelerator.Burst.Early.{update_addr_vec_early}
use graph_accelerator.Burst.Requests.{convert_to_req, numbered, convert_to_req-numbered}
use graph_accelerator.Burst.Transfer.{
  ram_to_req, req_to_ram, burst_req_to_buffer, buffer_to_burst_req,
}
use graph_accelerator.Burst.Transfer.Copy.{ram_to_req-req_to_ram}
use graph_accelerator.Burst.Transfer.Chunks.{burst_req_to_buffer-buffer_to_burst_req}

-- The burst length of the static initialiser, with its address width.
abbrev static_geometry : Geometry
static_geometry = record { burst_len = 64; burst_addr_width = 7 }

abbrev unaligned : BurstOp
unaligned = new_burst read 0 1 0 100 200

unaligned-update_addr_vec :
    update_addr_vec static_geometry unaligned
    ≡ some (record unaligned { addr_vec = 0 ∷ 64 ∷ 128 ∷ 192 ∷ 256 ∷ [] })
unfolding update_addr_vec new_burst get_offset residue_loop
unaligned-update_addr_vec = refl

update_addr_vec-covers_example :
    (t : BurstOp) × (update_addr_vec static_geometry unaligned ≡ some t)
    × (length t.addr_vec ≡ get_req_num static_geometry unaligned)
    × ((b : ℕ)
        → 100 ≤ b
        → b < 300
        → (x : ℕ) × (contains x t.addr_vec ≡ true) × (x ≤ b) × (b < x + 64))
unfolding new_burst
update_addr_vec-covers_example = update_addr_vec-covers static_geometry unaligned (omega arith) refl

width-static : get_burst_addr_width 64 ≡ some 7
unfolding get_burst_addr_width
width-static = refl

update_addr_vec_early_example :
    (t : BurstOp) × (first : ℕ) × (rest : List ℕ) × (update_addr_vec static_geometry unaligned
      ≡ some t)
    × (t.addr_vec ≡ first ∷ rest)
    × (first + 64 ≤ 100)
unfolding new_burst
update_addr_vec_early_example =
    update_addr_vec_early static_geometry unaligned (omega arith) width-static refl (omega arith)

abbrev unaligned_counters : Counters
unaligned_counters = record { next_req = 10; next_burst = 3 }

convert_to_req-numbered_example :
    (t : BurstOp) × (update_addr_vec static_geometry
        (update_req_vec static_geometry unaligned unaligned_counters).0
      ≡ some t)
    × (convert_to_req static_geometry t []
        ≡ some (
            []
            ++ numbered unaligned 64
                (get_req_num static_geometry unaligned)
                (get_aligned_addr static_geometry unaligned)
                10))
    × ((update_req_vec static_geometry unaligned unaligned_counters).1.next_req
        ≡ 10 + get_req_num static_geometry unaligned)
unfolding new_burst
convert_to_req-numbered_example =
    convert_to_req-numbered static_geometry unaligned unaligned_counters [] (omega arith) refl refl

-- A burst that writes two bytes at address 1.
abbrev two_bytes : BurstOp
two_bytes = record (new_burst write 0 1 0 1 2) { bytes = 7 ∷ 8 ∷ [] }

ram_to_req-req_to_ram_example :
    (after : List ℕ) × (req_to_ram two_bytes (1 ∷ 2 ∷ 3 ∷ 4 ∷ []) ≡ some after)
    × (length after ≡ 4)
    × ((j : ℕ) → (j < 1) ⊎ (1 + 2 ≤ j) → get_or after j 0 ≡ get_or (1 ∷ 2 ∷ 3 ∷ 4 ∷ []) j 0)
    × (ram_to_req (record two_bytes { bytes = [] }) after
        ≡ some (record two_bytes { bytes = slice (7 ∷ 8 ∷ []) 0 2 }))
unfolding new_burst
ram_to_req-req_to_ram_example =
    ram_to_req-req_to_ram two_bytes (1 ∷ 2 ∷ 3 ∷ 4 ∷ []) (omega arith) (omega arith)

-- Values of two bytes.
abbrev encode_pair : ℕ × ℕ → List ℕ
encode_pair (a, b) = a ∷ b ∷ []

abbrev decode_pair : List ℕ → ℕ × ℕ
decode_pair (a ∷ b ∷ []) = (a, b)
decode_pair _ = (0, 0)

burst_req_to_buffer-buffer_to_burst_req_example :
    (t : BurstOp) × (buffer_to_burst_req 2 encode_pair
        (((1, 2) ∷ (3, 4) ∷ []) ++ (5, 6) ∷ [])
        (new_burst write 0 1 0 0 4)
      ≡ some ((5, 6) ∷ [], t))
    × (burst_req_to_buffer 2 decode_pair t [] ≡ some ([] ++ (1, 2) ∷ (3, 4) ∷ []))
unfolding new_burst
burst_req_to_buffer-buffer_to_burst_req_example =
    burst_req_to_buffer-buffer_to_burst_req 2 encode_pair decode_pair (λ x. refl) (λ x. refl)
      (new_burst write 0 1 0 0 4) ((1, 2) ∷ (3, 4) ∷ []) ((5, 6) ∷ []) [] refl (omega arith) refl
