-- ===== src/Pe/Expand/Examples.antt =====
-- Runs of the expansion threads on a graph of two vertices.
use graph_accelerator.Common.{
  ℕ, zero, suc, ◌+◌, ◌<◌, ◌≡◌, refl, true, false, List, [], ◌∷◌, ◌++◌, pos, none, some, contains,
  arith, all_in, slice, all_from, length, ◌%◌,
}
use graph_accelerator.Bfs.Csr.{Csr}
use graph_accelerator.Bfs.Checked.{is_csr, is_csr_sound, eq_bool}
use graph_accelerator.Bfs.Depth.{at_level, start_depth}
use graph_accelerator.Bfs.Advance.{advance}
use graph_accelerator.Bfs.Levels.{NoneAt}
use graph_accelerator.Bfs.Shortest.{IsShortest}
use graph_accelerator.Bfs.TopDown.Round.{all_out}
use graph_accelerator.Memory.Layout.{Layout}
use graph_accelerator.Pe.Controller.{Controller, controller_turn}
use graph_accelerator.Pe.Port.{Port, send, receive}
use graph_accelerator.Pe.Expand.{
  Sizes, Expand, frontier_turn, frontier_place, rpao_resp_turn, ciao_take, ciao_turn, ciao_place,
  ciao_resp_turn, depth_turn, depth_place, depth_resp_turn, depth_analysis_turn, write_place,
  write_resp_turn, erase_status,
}
use graph_accelerator.Pe.Expand.Run.{
  System, Action, finds, turn_frontier, place_frontier, send_rpao, receive_rpao, turn_rpao_resp,
  take_ciao, turn_ciao, place_ciao, send_ciao, receive_ciao, turn_ciao_resp, turn_depth,
  place_depth, send_depth, receive_depth, turn_depth_resp, turn_depth_analysis, place_write,
  sends_write, receives_write, turn_write_resp, run, is_idle, step, send_write, receive_write,
  load_depths,
}
use graph_accelerator.Pe.Expand.Pending.{reads_left}
use graph_accelerator.Pe.Expand.Correct.{
  begin_level, run-advance, Levels, start, next, IsShortest-Levels,
}
use graph_accelerator.Pe.Expand.Work.Done.{HasRoom, Ends, run-Ends, run-completes}
use graph_accelerator.Pe.Expand.Ends.{buffers_of, controller_turn-frontier_turn}
use graph_accelerator.Pe.Expand.Stalls.{is_full, run_stalls}
use graph_accelerator.Pe.Expand.Asked.{depth_reads, addresses}
use graph_accelerator.Pe.Expand.Asked.Order.{run-order}
use graph_accelerator.Pe.Expand.Later.{run-later_depths}
use graph_accelerator.Pe.Depths.{later_depths}

-- The edge 0 → 1.
abbrev two : Csr
two = record {
  v_num = 2;
  e_num = 1;
  rpao = 0 ∷ 1 ∷ 1 ∷ [];
  ciao = 1 ∷ [];
  rpai = 0 ∷ 0 ∷ 1 ∷ [];
  ciai = 0 ∷ [];
}

two-is_csr : is_csr two ≡ true
unfolding is_csr contains all_from all_in slice eq_bool
two-is_csr = refl

abbrev two_layout : Layout
two_layout = record { depth = 0; rpao = 256; ciao = 512; rpai = 768; ciai = 1024; frontier = 1280 }

abbrev two_sizes : Sizes
two_sizes = record {
  base_len = 8;
  rpao_buffer_depth = 4;
  ciao_buffer_depth = 4;
  depth_buffer_depth = 4;
}

abbrev no_port : {T : Type 0} → Port T
no_port = record { req = []; flight = []; resp = [] }

-- Nothing to do.
abbrev idle_element : Expand
idle_element = record {
  next_burst = 0;
  op_status = [];
  frontier_buffer = [];
  rpao_creating = none;
  rpao_port = no_port;
  rpao_buffer = [];
  ciao_loop = none;
  ciao_creating = none;
  ciao_port = no_port;
  ciao_buffer = [];
  vidx_buffer = [];
  depth_creating = none;
  depth_port = no_port;
  depth_buffer1 = [];
  depth_buffer2 = [];
  write_creating = none;
  write_req = [];
  write_flight = [];
  write_resp = [];
}

idle_element-is_idle : is_idle idle_element ≡ true
unfolding is_idle
idle_element-is_idle = refl

-- A vertex, from the frontier to the write of its target's depth.
abbrev reads : ℕ → List Action
reads u =
    finds u
    ∷ turn_frontier
    ∷ place_frontier
    ∷ send_rpao
    ∷ receive_rpao
    ∷ turn_rpao_resp
    ∷ take_ciao
    ∷ turn_ciao
    ∷ place_ciao
    ∷ turn_ciao
    ∷ send_ciao
    ∷ receive_ciao
    ∷ turn_ciao_resp
    ∷ turn_depth
    ∷ place_depth
    ∷ send_depth
    ∷ receive_depth
    ∷ turn_depth_resp
    ∷ []

abbrev writes : List Action
writes = turn_depth_analysis ∷ place_write ∷ sends_write ∷ receives_write ∷ turn_write_resp ∷ []

abbrev after_first : System
after_first = record {
  element = record idle_element { next_burst = 4 };
  depth = pos 0 ∷ pos 1 ∷ [];
  found = 0 ∷ [];
}

abbrev after_second : System
after_second = record {
  element = record idle_element { next_burst = 5 };
  depth = pos 0 ∷ pos 1 ∷ [];
  found = 1 ∷ [];
}

first_level :
    run two two_sizes two_layout 0
      (reads 0 ++ writes)
      (begin_level idle_element (start_depth two 0))
    ≡ some after_first
unfolding run step frontier_turn frontier_place rpao_resp_turn ciao_take ciao_turn ciao_place
    ciao_resp_turn depth_turn depth_place depth_resp_turn depth_analysis_turn write_place
    write_resp_turn send_write receive_write send receive load_depths slice erase_status
first_level = refl

second_level :
    run two two_sizes two_layout 1 (reads 1) (begin_level after_first.element after_first.depth)
    ≡ some after_second
unfolding run step frontier_turn frontier_place rpao_resp_turn ciao_take ciao_turn ciao_place
    ciao_resp_turn depth_turn depth_place depth_resp_turn depth_analysis_turn write_place
    write_resp_turn send_write receive_write send receive load_depths slice erase_status
second_level = refl

all_found : (u : ℕ) → u < 2 → at_level 0 (start_depth two 0) u ≡ true → contains u (0 ∷ []) ≡ true
unfolding contains
all_found zero lt at = refl
all_found (suc zero) lt at = cc
all_found (suc (suc u)) lt at = absurd (omega arith)

all_found_next :
    (u : ℕ) → u < 2 → at_level 1 (pos 0 ∷ pos 1 ∷ []) u ≡ true → contains u (1 ∷ []) ≡ true
unfolding contains
all_found_next zero lt at = cc
all_found_next (suc zero) lt at = refl
all_found_next (suc (suc u)) lt at = absurd (omega arith)

after-is_idle : (n : ℕ) → is_idle (record idle_element { next_burst = n }) ≡ true
unfolding is_idle
after-is_idle n = refl

run-order_example :
    (t : System) × (run two two_sizes two_layout 0
        (reads 0)
        (begin_level idle_element (start_depth two 0))
      ≡ some t)
    × (depth_reads two two_sizes two_layout 0
            (reads 0)
            (begin_level idle_element (start_depth two 0))
          ++ addresses two_layout (reads_left two two_layout t.element)
        ≡ addresses two_layout (all_out two t.found))
run-order_example =
    run-order two two_sizes two_layout 0 idle_element (start_depth two 0) (reads 0) refl
      idle_element-is_idle

run-later_depths_example : later_depths 0 (start_depth two 0) (pos 0 ∷ pos 1 ∷ []) ≡ true
run-later_depths_example =
    run-later_depths two two_sizes two_layout 0 idle_element (start_depth two 0) (reads 0 ++ writes)
      after_first refl idle_element-is_idle first_level

run-advance_example : after_first.depth ≡ advance two 0 (start_depth two 0)
run-advance_example =
    run-advance two two_sizes two_layout 0 idle_element (start_depth two 0) (reads 0 ++ writes) refl
      idle_element-is_idle (is_csr_sound two two-is_csr) refl (omega arith) after_first first_level
      all_found (after-is_idle 4)

two-Levels : Levels two two_sizes two_layout 0 2 after_second.element after_second.depth
two-Levels =
    next (reads 1) after_second
      (next (reads 0 ++ writes) after_first (start idle_element-is_idle) first_level all_found
        (after-is_idle 4))
      second_level all_found_next (after-is_idle 5)

NoneAt-two : NoneAt two 2 (pos 0 ∷ pos 1 ∷ [])
NoneAt-two zero lt = refl
NoneAt-two (suc zero) lt = refl
NoneAt-two (suc (suc v)) lt = absurd (omega arith)

IsShortest-Levels_example : IsShortest two 0 (pos 0 ∷ pos 1 ∷ [])
IsShortest-Levels_example =
    IsShortest-Levels two two_sizes two_layout 0 refl (is_csr_sound two two-is_csr) (omega arith) 2
      after_second.element after_second.depth two-Levels (omega arith) NoneAt-two

-- Buffers of one target, and a burst that brings two.
abbrev small_sizes : Sizes
small_sizes = record two_sizes { depth_buffer_depth = 1 }

abbrev full_element : Expand
full_element = record idle_element { ciao_buffer = 0 ∷ 1 ∷ [] }

abbrev full_system : System
full_system = begin_level full_element (start_depth two 0)

full_element-is_full : is_full small_sizes full_element ≡ true
unfolding is_full
full_element-is_full = refl

full_run : run two small_sizes two_layout 0 (turn_depth ∷ []) full_system ≡ some full_system
unfolding run step depth_turn
full_run = refl

run_stalls_example : (is_full small_sizes full_element ≡ true) × (is_idle full_element ≡ false)
run_stalls_example =
    run_stalls two small_sizes two_layout 0 (turn_depth ∷ []) full_system full_system (omega arith)
      full_element-is_full full_run

abbrev ready : Controller
ready = record { local_counter = 20; level = 3; bfs_iteration_start = false }

controller_turn-frontier_turn_example :
    ((controller_turn
        (buffers_of
          (frontier_turn two_sizes two_layout (record idle_element { frontier_buffer = 0 ∷ [] })))
        ready).level
      ≡ (3 + 1) % 256)
    × (is_idle
          (frontier_turn two_sizes two_layout (record idle_element { frontier_buffer = 0 ∷ [] }))
        ≡ false)
controller_turn-frontier_turn_example =
    controller_turn-frontier_turn two_sizes two_layout idle_element 0 ready (omega arith)
      idle_element-is_idle refl refl refl

two-HasRoom : HasRoom two_sizes
two-HasRoom = record {
  whole = refl;
  some_len = omega arith;
  ciao_room = omega arith;
  rpao_room = omega arith;
}

-- Vertex 0 has been given and taken.
abbrev begun : System
begun = record {
  element = record idle_element {
    next_burst = 1;
    rpao_creating = some (record { burst_idx = 0; addr = 256; len = 8 });
  };
  depth = start_depth two 0;
  found = 0 ∷ [];
}

steps_reach :
    run two two_sizes two_layout 0
      (finds 0 ∷ turn_frontier ∷ [])
      (begin_level idle_element (start_depth two 0))
    ≡ some begun
unfolding run step frontier_turn
steps_reach = refl

run-Ends_example : Ends two two_sizes two_layout 0 begun
run-Ends_example =
    run-Ends two two_sizes two_layout 0 idle_element (start_depth two 0)
      (finds 0 ∷ turn_frontier ∷ []) two-HasRoom idle_element-is_idle begun steps_reach

few_targets : length (all_out two (0 ∷ [])) < 4
unfolding all_out slice
few_targets = omega arith

run-completes_example :
    (more : List Action) × (t' : System) × (run two two_sizes two_layout 0 more begun ≡ some t')
    × (is_idle t'.element ≡ true)
    × (t'.depth ≡ advance two 0 (start_depth two 0))
run-completes_example =
    run-completes two two_sizes two_layout 0 idle_element (start_depth two 0)
      (finds 0 ∷ turn_frontier ∷ []) two-HasRoom idle_element-is_idle begun steps_reach
      (is_csr_sound two two-is_csr) refl (omega arith) all_found few_targets
