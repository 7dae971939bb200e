-- ===== src/Memory/Examples.antt =====
-- Runs of the memory wrapper.
use graph_accelerator.Common.{
  ℕ, ◌+◌, ◌*◌, ◌≤◌, ◌<◌, ◌≡◌, refl, ◌==◌, ltb, leb, ◌&&◌, List, [], ◌∷◌, ◌++◌, none, some,
  if◌then◌else◌, length, get_or, replicate, length-replicate, arith, count, update, ◌≢◌, contains,
  true, ◌/◌, ◌%◌, Option, zero, suc, ◌^◌, ℤ, pos, minus_one,
}
use graph_accelerator.Burst.{
  Geometry, BurstOp, read, new_burst, get_req_num, get_offset, get_aligned_addr,
}
use graph_accelerator.Burst.Requests.{Request, request_at, convert_to_req, convert_loop}
use graph_accelerator.Memory.Layout.{
  IsLayout, new_layout, new_layout-IsLayout, ram_size, ram_size-fits, ram_size_overflow, Layout,
}
use graph_accelerator.Memory.Reset.{clean_ram, set_new_start_vertex, set_new_start_vertex-clean_ram}
use graph_accelerator.Memory.Queues.{
  Wrapper, accept, respond, complete, transfer, modify_burst, erase_first,
}
use graph_accelerator.Memory.Queues.Order.{
  Run, start, accepts, Run-in_order, completes, responds, answer, ShowsLast,
}
use graph_accelerator.Memory.Queues.Once.{requests_of, complete_all, complete_all-once}
use graph_accelerator.Bfs.Csr.{Csr}
use graph_accelerator.Bfs.Graph.{Graph}
use graph_accelerator.Bfs.Graph.Rows.{HavePairs}
use graph_accelerator.Memory.Graph.{load_graph, init_arrays}
use graph_accelerator.Burst.Transfer.{ram_to_req, burst_req_to_buffer, load_bytes}
use graph_accelerator.Memory.Contents.{init_ram}
use graph_accelerator.Memory.Contents.Init.{HasSizes, init_ram-load_words}
use graph_accelerator.Pe.Expand.Run.{load_words, load_depth}
use graph_accelerator.Memory.Graph.Sizes.{HasSizes-init_arrays-load_graph}
use graph_accelerator.Bfs.Graph.Totals.{loops}
use graph_accelerator.Memory.Contents.Depths.{as_char, HoldsDepths, burst_req_to_buffer-load_depth}

new_layout-IsLayout_example :
    IsLayout 100 300 (new_layout 100 300)
    × ((new_layout 100 300).frontier + 4 * 100 < 13 * 100 + 8 * 300 + 8 + 1280)
new_layout-IsLayout_example = new_layout-IsLayout 100 300

ram_size-fits_example : (new_layout 100 400).frontier + 4 * 100 ≤ ram_size 400
ram_size-fits_example = ram_size-fits 100 400 (omega arith)

ram_size_overflow_example : ram_size 150 < (new_layout 100 150).frontier + 4 * 100
ram_size_overflow_example = ram_size_overflow 100 150 (omega arith)

abbrev zeros : List ℕ
zeros = replicate 3000 0

zeros-room : (new_layout 5 6).frontier + 4 * 5 ≤ length zeros
zeros-room =
    let size = length-replicate {A = ℕ} 3000 0 in
    let (_, top) = new_layout-IsLayout 5 6 in omega (arith, size, top)

set_new_start_vertex-clean_ram_example :
    let l = new_layout 5 6 in
    (mid after : List ℕ) × (clean_ram l 5 zeros ≡ some mid)
    × (set_new_start_vertex l 2 mid ≡ some after)
    × (length after ≡ length zeros)
    × ((v : ℕ) → v < 5 → get_or after (l.depth + v) 0 ≡ (if v == 2 then 0 else 255))
    × ((j : ℕ) → l.frontier ≤ j → j < l.frontier + 4 * 5 → get_or after j 0 ≡ 255)
    × ((j : ℕ) → l.rpao ≤ j → j < l.frontier → get_or after j 0 ≡ get_or zeros j 0)
set_new_start_vertex-clean_ram_example =
    set_new_start_vertex-clean_ram (new_layout 5 6) 5 6 2 zeros (new_layout-IsLayout 5 6).0
      zeros-room (omega arith)

abbrev static_geometry : Geometry
static_geometry = record { burst_len = 64; burst_addr_width = 7 }

-- A burst of one request.
abbrev aligned_burst : BurstOp
aligned_burst = record (new_burst read 0 0 0 0 2) { req_vec = 0 ∷ []; addr_vec = 0 ∷ [] }

abbrev idle : Wrapper
idle = record {
  bursts = aligned_burst ∷ [];
  burst_req_queue = λ i. [];
  burst_resp_queue = λ i. [];
  req_queue = [];
  total_req_num = λ b. 0;
  processed_req_num = λ b. 0;
  burst_resp = λ i. none;
  ram = 7 ∷ 8 ∷ [];
}

abbrev waiting : Wrapper
waiting = record idle {
  burst_req_queue = update idle.burst_req_queue 0 (0 ∷ []);
  total_req_num = update idle.total_req_num 0 1;
  processed_req_num = update idle.processed_req_num 0 0;
  req_queue = request_at aligned_burst 0 0 ∷ [];
}

idle-accept : accept static_geometry 0 0 idle ≡ some waiting
unfolding accept convert_to_req convert_loop get_req_num get_offset get_aligned_addr new_burst
idle-accept = refl

waiting-Run : Run static_geometry 0 waiting (0 ∷ []) []
waiting-Run = accepts 0 0 (start refl refl) idle-accept

-- Its request is done, and the burst is answered.
abbrev completed : Wrapper
completed = complete (request_at aligned_burst 0 0) waiting

abbrev or_idle : Option Wrapper → Wrapper
or_idle none = idle
or_idle (some w) = w

abbrev answered : Wrapper
answered = or_idle (respond 5 0 completed)

completed-respond : respond 5 0 completed ≡ some answered
unfolding respond complete transfer modify_burst ram_to_req load_bytes contains erase_first
    new_burst
completed-respond = refl

answered-answer : answer 0 completed answered ≡ 0 ∷ []
unfolding respond complete transfer modify_burst ram_to_req load_bytes contains erase_first answer
    new_burst
answered-answer = refl

Run-in_order_example :
    (0 ∷ [] ≡ ([] ++ answer 0 completed answered) ++ answered.burst_req_queue 0)
    × ShowsLast (answered.burst_resp 0) ([] ++ answer 0 completed answered)
Run-in_order_example =
    Run-in_order
      (responds 5 0 (completes (request_at aligned_burst 0 0) waiting-Run) completed-respond)

-- Two requests of burst 0 around one of burst 1.
abbrev request_of : ℕ → Request
request_of b = record (request_at aligned_burst 0 0) { burst_idx = b }

abbrev two_bursts : Wrapper
two_bursts = record idle { total_req_num = update (λ b. 1) 0 2 }

complete_all-once_example :
    count 0 (
      (complete_all (request_of 0 ∷ request_of 1 ∷ request_of 0 ∷ []) two_bursts).burst_resp_queue
        0)
    ≡ 0
      + (if ltb 0 2 && leb 2 (0 + requests_of 0 (request_of 0 ∷ request_of 1 ∷ request_of 0 ∷ []))
          then 1
          else 0)
unfolding count new_burst
complete_all-once_example =
    complete_all-once 0 0 (request_of 0 ∷ request_of 1 ∷ request_of 0 ∷ []) two_bursts
      ((λ e. refl), ((λ e. refl), ((λ e. refl), tt)))

-- The lines of a file; the last is a loop.
abbrev lines : List (List ℕ)
lines = (0 ∷ 1 ∷ []) ∷ (1 ∷ 2 ∷ []) ∷ (2 ∷ 2 ∷ []) ∷ []

lines-nonempty : lines ≢ []
lines-nonempty e = cc

lines-HavePairs : HavePairs lines
lines-HavePairs = (omega arith, (omega arith, (omega arith, tt)))

HasSizes-init_arrays-load_graph_example :
    (g : Graph) × (load_graph true lines ≡ some g)
    × HasSizes (init_arrays g) g.edge_num
    × (length (init_arrays g).ciao + loops lines ≡ g.edge_num)
    × (length (init_arrays g).ciai + loops lines ≡ g.edge_num)
HasSizes-init_arrays-load_graph_example =
    HasSizes-init_arrays-load_graph true lines lines-nonempty lines-HavePairs

-- The four bytes of an `int`, the lowest first.
abbrev four_bytes : ℕ → List ℕ
four_bytes x = x % 256 ∷ x / 256 % 256 ∷ x / 65536 % 256 ∷ x / 16777216 % 256 ∷ []

abbrev from_bytes : List ℕ → ℕ
from_bytes (a ∷ b ∷ c ∷ d ∷ []) = a + 256 * b + 65536 * c + 16777216 * d
from_bytes _ = 0

-- The arrays of the edge 0 → 1.
abbrev one_edge : Csr
one_edge = record {
  v_num = 2;
  e_num = 1;
  rpao = 0 ∷ 1 ∷ 1 ∷ [];
  ciao = 1 ∷ [];
  rpai = 0 ∷ 0 ∷ 1 ∷ [];
  ciai = 0 ∷ [];
}

one_edge-HasSizes : HasSizes one_edge 1
one_edge-HasSizes = record {
  rpao_size = refl;
  rpai_size = refl;
  ciao_size = omega arith;
  ciai_size = omega arith;
}

one_edge-room : (new_layout 2 1).frontier + 4 * 2 ≤ length zeros
one_edge-room =
    let size = length-replicate {A = ℕ} 3000 0 in
    let (_, top) = new_layout-IsLayout 2 1 in omega (arith, size, top)

one_edge-rpao : (k : ℕ) → get_or one_edge.rpao k 0 < 2 ^ 31
one_edge-rpao zero = omega arith
one_edge-rpao (suc zero) = omega arith
one_edge-rpao (suc (suc zero)) = omega arith
one_edge-rpao (suc (suc (suc k))) = omega arith

one_edge-ciao : (k : ℕ) → get_or one_edge.ciao k 0 < 2 ^ 31
one_edge-ciao zero = omega arith
one_edge-ciao (suc k) = omega arith

init_ram-load_words_example :
    let l = new_layout 2 1 in
    let op = new_burst read 4 0 0 (l.rpao + 1 * 4) (2 * 4) in
    let op' = new_burst read 5 1 0 (l.ciao + 0 * 4) (1 * 4) in
    (after : List ℕ) × (u u' : BurstOp) × (init_ram four_bytes one_edge l zeros ≡ some after)
    × (ram_to_req op after ≡ some u)
    × (burst_req_to_buffer 4 from_bytes u []
        ≡ some (
            []
            ++ load_words
                (0 ∷ 1 ∷ 1 ∷ [])
                l.rpao
                (record { burst_idx = 0; addr = l.rpao + 1 * 4; len = 2 * 4 })))
    × (ram_to_req op' after ≡ some u')
    × (burst_req_to_buffer 4 from_bytes u' []
        ≡ some (
            []
            ++ load_words
                (1 ∷ [])
                l.ciao
                (record { burst_idx = 1; addr = l.ciao + 0 * 4; len = 1 * 4 })))
unfolding new_burst
init_ram-load_words_example =
    let l = new_layout 2 1 in
    init_ram-load_words four_bytes from_bytes (λ x. refl) (λ x lt. omega arith) one_edge l 1 zeros
      one_edge-rpao one_edge-ciao (new_layout-IsLayout 2 1).0 one_edge-HasSizes one_edge-room
      (new_burst read 4 0 0 (l.rpao + 1 * 4) (2 * 4))
      (new_burst read 5 1 0 (l.ciao + 0 * 4) (1 * 4)) 1 2 0 1 [] (omega arith) refl refl refl
      (omega arith) refl refl refl

-- The bytes of the depths -1, 0 and 1.
abbrev three_depths : List ℤ
three_depths = minus_one ∷ pos 0 ∷ pos 1 ∷ []

abbrev three_bytes : List ℕ
three_bytes = 255 ∷ 0 ∷ 1 ∷ []

abbrev three_layout : Layout
three_layout = record {
  depth = 0;
  rpao = 256;
  ciao = 512;
  rpai = 768;
  ciai = 1024;
  frontier = 1280;
}

three_bytes-HoldsDepths : HoldsDepths three_layout three_depths three_bytes
three_bytes-HoldsDepths zero lt = refl
three_bytes-HoldsDepths (suc zero) lt = refl
three_bytes-HoldsDepths (suc (suc zero)) lt = refl
three_bytes-HoldsDepths (suc (suc (suc v))) lt = absurd (omega arith)

burst_req_to_buffer-load_depth_example :
    let op = new_burst read 6 0 0 1 2 in
    (u : BurstOp) × (ram_to_req op three_bytes ≡ some u)
    × (burst_req_to_buffer 1 as_char u []
        ≡ some (
            []
            ++ load_depth three_depths three_layout (record { burst_idx = 0; addr = 1; len = 2 })))
unfolding new_burst
burst_req_to_buffer-load_depth_example =
    burst_req_to_buffer-load_depth three_layout three_depths three_bytes (new_burst read 6 0 0 1 2)
      1 2 [] three_bytes-HoldsDepths (omega arith) (omega arith) refl refl refl
