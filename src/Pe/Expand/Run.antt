-- ===== src/Pe/Expand/Run.antt =====
-- Runs of the expansion threads beside the memory: the steps of the threads, of the ports and of the
-- memory in any order.
use graph_accelerator.Common.{
  ℕ, zero, suc, ◌-◌, ◌/◌, Bool, true, false, ◌&&◌, ltb, List, [], ◌∷◌, ◌++◌, Option, none, some, ℤ,
  if◌then◌else◌, set, slice,
}
use graph_accelerator.Bfs.Csr.{Csr}
use graph_accelerator.Bfs.Depth.{depth_at, at_level}
use graph_accelerator.Memory.Layout.{Layout}
use graph_accelerator.Pe.Port.{Access, Port, send, receive}
use graph_accelerator.Pe.Expand.{
  Sizes, Expand, frontier_turn, frontier_place, rpao_resp_turn, ciao_take, ciao_turn, ciao_place,
  ciao_resp_turn, depth_turn, depth_place, depth_resp_turn, depth_analysis_turn, write_place,
  write_resp_turn,
}

-- The element; the depths in the memory, the value of the signed byte at the address of each vertex,
-- which only writes of bytes change; and the vertices that the depth analysis has pushed so far.
pub record System : Type 0 where
  pub element : Expand
  pub depth : List ℤ
  pub found : List ℕ

-- The data that a burst brings: words of an array of offsets or of targets from an address on, or the
-- depths at some addresses.
abbrev pub load_words : List ℕ → ℕ → Access → List ℕ
load_words words base a = slice words ((a.addr - base) / 4) (a.len / 4)

unfoldable pub load_depths : List ℤ → ℕ → ℕ → List ℤ
load_depths d i zero = []
load_depths d i (suc n) = depth_at d i ∷ load_depths d (suc i) n

abbrev pub load_depth : List ℤ → Layout → Access → List ℤ
load_depth d l a = load_depths d (a.addr - l.depth) a.len

-- The port of the writes.
unfoldable pub send_write : Expand → Expand
send_write s = elim s.write_req [
  | [] ↦ s
  | w ∷ rest ↦ record s { write_req = rest; write_flight = s.write_flight ++ w ∷ [] }
]

unfoldable pub receive_write : Layout → System → System
receive_write l t = elim t.element.write_flight [
  | [] ↦ t
  | w ∷ rest ↦ record t {
    element = record (t.element) {
      write_flight = rest;
      write_resp = t.element.write_resp ++ w ∷ [];
    };
    depth = set t.depth (w.access.addr - l.depth) w.value;
  }
]

-- A step: the analysis of the depths pushes a vertex, or one of the threads, of the ports or of the
-- memory takes its turn.
pub data Action : Type 0 where
  finds : ℕ → Action
  turn_frontier place_frontier send_rpao receive_rpao turn_rpao_resp : Action
  take_ciao turn_ciao place_ciao send_ciao receive_ciao turn_ciao_resp : Action
  turn_depth place_depth send_depth receive_depth turn_depth_resp : Action
  turn_depth_analysis place_write sends_write receives_write turn_write_resp : Action

abbrev pub with_element : System → Expand → System
with_element t s = record t { element = s }

abbrev pub with_result : System → Option Expand → Option System
with_result t none = none
with_result t (some s) = some (with_element t s)

-- `none` is a fault of the program: an exit for a burst that is no whole number of words, or the front
-- of an empty list.
unfoldable pub step : Csr → Sizes → Layout → ℕ → Action → System → Option System
step c z l level (finds u) t = some (
    if ltb u c.v_num && at_level level t.depth u
    then record t {
      element = record (t.element) { frontier_buffer = t.element.frontier_buffer ++ u ∷ [] };
      found = t.found ++ u ∷ [];
    }
    else t)
step c z l level turn_frontier t = some (with_element t (frontier_turn z l t.element))
step c z l level place_frontier t = some (with_element t (frontier_place t.element))
step c z l level send_rpao t =
    some (with_element t (record (t.element) { rpao_port = send t.element.rpao_port }))
step c z l level receive_rpao t = some (
    with_element t
      (record (t.element) { rpao_port = receive (load_words c.rpao l.rpao) t.element.rpao_port }))
step c z l level turn_rpao_resp t = with_result t (rpao_resp_turn t.element)
step c z l level take_ciao t = some (with_element t (ciao_take l t.element))
step c z l level turn_ciao t = some (with_element t (ciao_turn z t.element))
step c z l level place_ciao t = some (with_element t (ciao_place t.element))
step c z l level send_ciao t =
    some (with_element t (record (t.element) { ciao_port = send t.element.ciao_port }))
step c z l level receive_ciao t = some (
    with_element t
      (record (t.element) { ciao_port = receive (load_words c.ciao l.ciao) t.element.ciao_port }))
step c z l level turn_ciao_resp t = with_result t (ciao_resp_turn t.element)
step c z l level turn_depth t = some (with_element t (depth_turn z l t.element))
step c z l level place_depth t = some (with_element t (depth_place t.element))
step c z l level send_depth t =
    some (with_element t (record (t.element) { depth_port = send t.element.depth_port }))
step c z l level receive_depth t = some (
    with_element t
      (record (t.element) { depth_port = receive (load_depth t.depth l) t.element.depth_port }))
step c z l level turn_depth_resp t = some (with_element t (depth_resp_turn t.element))
step c z l level turn_depth_analysis t = with_result t (depth_analysis_turn z l level t.element)
step c z l level place_write t = with_result t (write_place t.element)
step c z l level sends_write t = some (with_element t (send_write t.element))
step c z l level receives_write t = some (receive_write l t)
step c z l level turn_write_resp t = some (with_element t (write_resp_turn t.element))

unfoldable pub run : Csr → Sizes → Layout → ℕ → List Action → System → Option System
run c z l level [] t = some t
run c z l level (a ∷ rest) t = elim (step c z l level a t) [
  | none ↦ none
  | some t' ↦ run c z l level rest t'
]

-- Nothing is left to do for the threads but to take the answers of writes.
abbrev pub none_left {ℓ} : {A : Type ℓ} → List A → Bool
none_left [] = true
none_left (x ∷ xs) = false

abbrev pub nothing_held {ℓ} : {A : Type ℓ} → Option A → Bool
nothing_held none = true
nothing_held (some a) = false

abbrev pub port_idle : {T : Type 0} → Port T → Bool
port_idle p = none_left p.req && (none_left p.flight && none_left p.resp)

unfoldable pub is_idle : Expand → Bool
is_idle s =
    none_left s.frontier_buffer
    && nothing_held s.rpao_creating
    && port_idle s.rpao_port
    && none_left s.rpao_buffer
    && nothing_held s.ciao_loop
    && nothing_held s.ciao_creating
    && port_idle s.ciao_port
    && none_left s.ciao_buffer
    && none_left s.vidx_buffer
    && nothing_held s.depth_creating
    && port_idle s.depth_port
    && none_left s.depth_buffer1
    && none_left s.depth_buffer2
    && nothing_held s.write_creating
    && none_left s.write_req
    && none_left s.write_flight
