-- ===== src/Pe/Create.antt =====
-- `createReadBurstReq`: a new burst, its place in `GL::bursts` and in the queue of its port.
use graph_accelerator.Common.{
  ℕ, ◌+◌, ◌<◌, ◌≡◌, refl, ap, List, [], ◌∷◌, ◌++◌, Option, none, some, get_elem?, length, update,
  arith,
}
use graph_accelerator.Burst.{
  Geometry, Counters, ReqType, BurstOp, new_burst, get_burst_idx, update_req_vec, update_addr_vec,
  get_req_num, get_aligned_addr,
}
use graph_accelerator.Burst.Cover.{addresses}
use graph_accelerator.Burst.Requests.{ids, update_req_vec-eq, update_addr_vec-vec}
use mathlib.Core.Path.{subst, sym}

-- `bursts` and `counters` are those of `GL`.
pub record Ports : Type 0 where
  pub bursts : List BurstOp
  pub counters : Counters
  pub burst_req_queue : ℕ → List ℕ

-- `GL::bursts.push_back(ptr)` and `burstReqQueue[portIdx].push_back(burstIdx)`
abbrev place : Ports → BurstOp → Counters → ℕ → ℕ → Ports
place s op k port burst_idx = record {
  bursts = s.bursts ++ op ∷ [];
  counters = k;
  burst_req_queue = update s.burst_req_queue port (s.burst_req_queue port ++ burst_idx ∷ []);
}

-- With the index of the burst.
pub create_read_burst_req : Geometry → ℕ → ReqType → ℕ → ℕ → ℕ → Ports → Option (Ports × ℕ)
create_read_burst_req g pe_idx t port addr len s =
    let (burst_idx, k) = get_burst_idx s.counters in
    let (op, k') = update_req_vec g (new_burst t port burst_idx pe_idx addr len) k in
    elim (update_addr_vec g op) [
      | none ↦ none
      | some op' ↦ some (place s op' k' port burst_idx, burst_idx)
    ]

length-concat : (xs : List BurstOp) (x : BurstOp) → length (xs ++ x ∷ []) ≡ length xs + 1
length-concat [] x = refl
length-concat (y ∷ xs) x = let e = length-concat xs x in omega (arith, e)

get_elem?-concat : (xs : List BurstOp) (x : BurstOp) → get_elem? (xs ++ x ∷ []) (length xs) ≡ some x
get_elem?-concat [] x = refl
get_elem?-concat (y ∷ xs) x = get_elem?-concat xs x

-- With a positive burst length, and when the next burst index is the number of bursts, the burst is
-- created, its index is its place in `GL::bursts`, where it has that index, the address and the length
-- asked for, and the next index is again the number of bursts.
pub create_read_burst_req-placed :
    (g : Geometry) (pe_idx : ℕ) (t : ReqType) (port addr len : ℕ) (s : Ports)
    → 0 < g.burst_len
    → s.counters.next_burst ≡ length s.bursts
    → (s' : Ports) × (idx : ℕ) × (op : BurstOp) × (create_read_burst_req g pe_idx t port addr len s
        ≡ some (s', idx))
      × (get_elem? s'.bursts idx ≡ some op)
      × (op.burst_idx ≡ idx)
      × (op.addr ≡ addr)
      × (op.len ≡ len)
      × (s'.counters.next_burst ≡ length s'.bursts)
unfolding create_read_burst_req get_burst_idx new_burst
create_read_burst_req-placed g pe_idx t port addr len s pos placed =
    let idx = s.counters.next_burst in
    let k = record s.counters { next_burst = idx + 1 } in
    let op = new_burst t port idx pe_idx addr len in
    let vec = ids (get_req_num g op) k.next_req in
    let op' : BurstOp = record op {
      req_vec = vec;
      addr_vec = addresses g.burst_len (get_req_num g op) (get_aligned_addr g op);
    } in
    let e1 = update_req_vec-eq g op k refl in
    let e2 = update_addr_vec-vec g op vec pos refl in
    (
      place s op' (record k { next_req = k.next_req + get_req_num g op }) port idx,
      idx,
      op',
      rw (e1, e2, create_read_burst_req) (ap (λ r. some (place s op' r.1 port idx, idx)) e1),
      subst (λ i. get_elem? (s.bursts ++ op' ∷ []) i ≡ some op') (sym placed)
          (get_elem?-concat s.bursts op'),
      refl,
      refl,
      refl,
      let n = length-concat s.bursts op' in omega (arith, n, placed),
    )
