-- ===== src/Pe/Port.antt =====
-- A port of the element: `burstReqQueue[i]`, the bursts that the memory has not answered, and
-- `burstRespQueue[i]`, with a turn of `sendMemReq` and of `getMemResp` for it. A queue of burst
-- indices is the queue of the bursts that they name, here with the index, the address and the length.
-- The time stamps are left out.
pub mod Flow
use graph_accelerator.Common.{ℕ, List, [], ◌∷◌, ◌++◌}

pub record Access : Type 0 where
  pub burst_idx : ℕ
  pub addr : ℕ
  pub len : ℕ

-- A burst that is answered, with the values of its data.
pub record Reply (T : Type 0) : Type 0 where
  pub access : Access
  pub values : List T

pub record Port (T : Type 0) : Type 0 where
  pub req : List Access
  pub flight : List Access
  pub resp : List (Reply T)

-- `burstReqQueue[portIdx].push_back(burstIdx)`
abbrev pub push_req : {T : Type 0} → Port T → Access → Port T
push_req p a = record p { req = p.req ++ a ∷ [] }

-- `sendMemReq`: the front of the queue goes to the memory.
unfoldable pub send : {T : Type 0} → Port T → Port T
send p = elim p.req [ [] ↦ p | a ∷ rest ↦ record p { req = rest; flight = p.flight ++ a ∷ [] } ]

-- `getMemResp`: the memory answers the bursts of a port in their order, with the values that `load`
-- finds in it.
unfoldable pub receive : {T : Type 0} → (Access → List T) → Port T → Port T
receive load p = elim p.flight [
  | [] ↦ p
  | a ∷ rest ↦ record p {
    flight = rest;
    resp = p.resp ++ (record { access = a; values = load a }) ∷ [];
  }
]
