-- ===== src/Pe/Controller.antt =====
-- `bfsController` and `isEndOfBfsIteration`: when the element starts a level and when it goes to the
-- next. The level is a `char`, of which the model
-- has the eight bits, as a number below 256.
use graph_accelerator.Common.{
  ℕ, suc, ◌+◌, ◌≤◌, ◌≡◌, refl, Bool, true, false, ◌&&◌, ◌==◌, ltb, leb, List, [], ◌∷◌,
  if◌then◌else◌, arith, ◌%◌,
}

-- The containers that `isEndOfBfsIteration` tests; of what they hold only the number matters.
pub record Buffers : Type 0 where
  pub burst_req_queue : List (List ℕ)
  pub burst_resp_queue : List (List ℕ)
  pub burst_op_status : List ℕ
  pub depth_buffer0 : List (List ℕ)
  pub frontier_buffer : List ℕ
  pub rpao_buffer : List ℕ
  pub ciao_buffer : List ℕ
  pub depth_buffer1 : List ℕ
  pub depth_buffer2 : List ℕ

abbrev pub no_items {ℓ} : {A : Type ℓ} → List A → Bool
no_items [] = true
no_items (x ∷ xs) = false

-- `isBurstReqQueueEmpty`, `isBurstRespQueueEmpty` and the loop over `depthBuffer0`.
unfoldable pub all_empty : List (List ℕ) → Bool
all_empty [] = true
all_empty (q ∷ qs) = no_items q && all_empty qs

unfoldable pub is_end_of_bfs_iteration : Buffers → Bool
is_end_of_bfs_iteration b =
    all_empty b.burst_req_queue
    && all_empty b.burst_resp_queue
    && no_items b.burst_op_status
    && all_empty b.depth_buffer0
    && no_items b.frontier_buffer
    && no_items b.rpao_buffer
    && no_items b.ciao_buffer
    && no_items b.depth_buffer1
    && no_items b.depth_buffer2

pub record Controller : Type 0 where
  pub local_counter : ℕ
  pub level : ℕ
  pub bfs_iteration_start : Bool

-- `init()` and the constructor.
pub start_controller : Controller
start_controller = record { local_counter = 0; level = 0; bfs_iteration_start = false }

-- A clock edge, with the containers of that time. `burstOpStatus` is empty when it is cleared.
unfoldable pub controller_turn : Buffers → Controller → Controller
controller_turn b s =
    let counter = if ltb s.local_counter 20 then s.local_counter + 1 else s.local_counter in
    if is_end_of_bfs_iteration b && counter == 20
    then record {
      local_counter = 0;
      level = (s.level + 1) % 256;
      bfs_iteration_start = counter == 10;
    }
    else record { local_counter = counter; level = s.level; bfs_iteration_start = counter == 10 }

-- The clock edges from the start, the last first.
pub controller_run : List Buffers → Controller
controller_run [] = start_controller
controller_run (b ∷ bs) = controller_turn b (controller_run bs)

-- The clock edges at which `bfsIterationStart` is set.
unfoldable pub starts : List Buffers → ℕ
starts [] = 0
starts (b ∷ bs) =
    if (controller_run (b ∷ bs)).bfs_iteration_start then suc (starts bs) else starts bs

-- The clock edges at which a level ends: nothing is left, and the counter was at 19 at least.
unfoldable pub levels_ended : List Buffers → ℕ
levels_ended [] = 0
levels_ended (b ∷ bs) =
    if is_end_of_bfs_iteration b && ltb 18 (controller_run bs).local_counter
    then suc (levels_ended bs)
    else levels_ended bs

abbrev begun : ℕ → ℕ
begun counter = if leb 10 counter then 1 else 0

turn_starts :
    (b : Buffers) (s : Controller) (n m : ℕ)
    → s.local_counter ≤ 20
    → n ≡ m + begun s.local_counter
    → s.level ≡ m % 256
    → ((controller_turn b s).local_counter ≤ 20)
      × ((if (controller_turn b s).bfs_iteration_start then suc n else n)
          ≡ (if is_end_of_bfs_iteration b && ltb 18 s.local_counter then suc m else m)
            + begun (controller_turn b s).local_counter)
      × ((controller_turn b s).level
          ≡ (if is_end_of_bfs_iteration b && ltb 18 s.local_counter then suc m else m) % 256)
unfolding controller_turn
turn_starts b s n m le e f = ground arith

-- Whatever the containers hold at each clock edge, each level is started once: there have been as many
-- starts as levels ended, and one more from the tenth edge of a level on. The level is the number of
-- levels ended, up to the eight bits of a `char`.
pub controller_run-starts :
    (bs : List Buffers)
    → ((controller_run bs).local_counter ≤ 20)
      × (starts bs ≡ levels_ended bs + (if leb 10 (controller_run bs).local_counter then 1 else 0))
      × ((controller_run bs).level ≡ levels_ended bs % 256)
unfolding controller_run starts levels_ended start_controller
controller_run-starts [] = (omega arith, refl, refl)
controller_run-starts (b ∷ bs) =
    let (le, e, f) = controller_run-starts bs in
    turn_starts b (controller_run bs) (starts bs) (levels_ended bs) le e f
