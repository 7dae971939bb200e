-- ===== src/Burst/Requests.antt =====
-- `BurstOp::convertToReq`: the requests of a burst, with the fields of `ramulator::Request` that it
-- sets.
use graph_accelerator.Common.{
  ℕ, zero, suc, ◌+◌, ◌*◌, ◌<◌, ◌≡◌, refl, sym, ap, ◌∙◌, List, [], ◌∷◌, ◌++◌, Option, none, some,
  get_elem?, length, arith,
}
use mathlib.Core.List.{append_assoc, append-nil}
use graph_accelerator.Burst.{
  Geometry, ReqType, BurstOp, Counters, get_req_num, get_aligned_addr, update_req_vec,
  update_addr_vec, req_loop, get_offset,
}
use graph_accelerator.Burst.Cover.{addresses, update_addr_vec-eq}
use mathlib.Core.Path.{ap₂}

pub record Request : Type 0 where
  pub req_type : ReqType
  pub addr : ℕ
  pub burst_idx : ℕ
  pub req_idx : ℕ
  pub pe_idx : ℕ
  pub port_idx : ℕ
  pub arrive_mem_time : ℕ
  pub depart_mem_time : ℕ

abbrev pub request_at : BurstOp → ℕ → ℕ → Request
request_at op addr req_idx = record {
  req_type = op.req_type;
  addr = addr;
  burst_idx = op.burst_idx;
  req_idx = req_idx;
  pe_idx = op.pe_idx;
  port_idx = op.port_idx;
  arrive_mem_time = op.arrive_mem_time;
  depart_mem_time = op.depart_mem_time;
}

-- The loop, at round `i` with `n` rounds left; `none` is a read of a vector out of range.
unfoldable pub convert_loop : BurstOp → ℕ → ℕ → List Request → Option (List Request)
convert_loop op zero i queue = some queue
convert_loop op (suc n) i queue = elim (get_elem? op.addr_vec i) [
  | none ↦ none
  | some addr ↦ elim (get_elem? op.req_vec i) [
    | none ↦ none
    | some req_idx ↦ convert_loop op n (suc i) (queue ++ request_at op addr req_idx ∷ [])
  ]
]

unfoldable pub convert_to_req : Geometry → BurstOp → List Request → Option (List Request)
convert_to_req g op queue = convert_loop op (get_req_num g op) 0 queue

-- `n` requests, `burst_len` apart from `addr` on and numbered from `k` on.
pub numbered : BurstOp → ℕ → ℕ → ℕ → ℕ → List Request
numbered op burst_len zero addr k = []
numbered op burst_len (suc n) addr k =
    request_at op addr k ∷ numbered op burst_len n (addr + burst_len) (suc k)

length-numbered :
    (op : BurstOp) (burst_len n addr k : ℕ) → length (numbered op burst_len n addr k) ≡ n
unfolding numbered
length-numbered op burst_len zero addr k = refl
length-numbered op burst_len (suc n) addr k =
    ap suc (length-numbered op burst_len n (addr + burst_len) (suc k))

-- `n` numbers from `k` on.
pub ids : ℕ → ℕ → List ℕ
ids zero k = []
ids (suc n) k = k ∷ ids n (suc k)

req_loop_lem :
    (n : ℕ) (c : Counters) (vec : List ℕ)
    → req_loop n c vec ≡ (vec ++ ids n c.next_req, record c { next_req = c.next_req + n })
unfolding req_loop ids
req_loop_lem zero c vec =
    let p : c.next_req ≡ c.next_req + 0 = omega arith in
    ap₂ (λ xs k. (xs, record c { next_req = k })) (sym (append-nil vec)) p
req_loop_lem (suc n) c vec =
    let p : c.next_req + 1 ≡ suc c.next_req = omega arith in
    let q : suc c.next_req + n ≡ c.next_req + suc n = omega arith in
    req_loop_lem n (record c { next_req = c.next_req + 1 }) (vec ++ c.next_req ∷ [])
    ∙ ap₂ (λ xs k. (xs, record c { next_req = k }))
        (append_assoc vec (c.next_req ∷ []) (ids n (c.next_req + 1))
          ∙ ap (λ k. vec ++ c.next_req ∷ ids n k) p)
        (omega arith)

get_elem?-addresses : (len n a i : ℕ) → i < n → get_elem? (addresses len n a) i ≡ some (a + i * len)
unfolding addresses
get_elem?-addresses len zero a i h = absurd (omega arith)
get_elem?-addresses len (suc n) a zero h = ap some (omega arith)
get_elem?-addresses len (suc n) a (suc i) h =
    get_elem?-addresses len n (a + len) i (omega arith) ∙ ap some (grind arith)

get_elem?-ids : (n k i : ℕ) → i < n → get_elem? (ids n k) i ≡ some (k + i)
unfolding ids
get_elem?-ids zero k i h = absurd (omega arith)
get_elem?-ids (suc n) k zero h = ap some (omega arith)
get_elem?-ids (suc n) k (suc i) h = get_elem?-ids n (suc k) i (omega arith) ∙ ap some (omega arith)

convert_loop_lem :
    (op : BurstOp) (len total a k n i : ℕ) (queue : List Request)
    → op.addr_vec ≡ addresses len total a
    → op.req_vec ≡ ids total k
    → i + n ≡ total
    → convert_loop op n i queue ≡ some (queue ++ numbered op len n (a + i * len) (k + i))
unfolding convert_loop numbered
convert_loop_lem op len total a k zero i queue ea er e = ap some (sym (append-nil queue))
convert_loop_lem op len total a k (suc n) i queue ea er e =
    let addr : get_elem? op.addr_vec i ≡ some (a + i * len) =
      rw ea (get_elem?-addresses len total a i (omega arith)) in
    let idx : get_elem? op.req_vec i ≡ some (k + i) =
      rw er (get_elem?-ids total k i (omega arith)) in
    let next_addr : a + suc i * len ≡ a + i * len + len = grind arith in
    let next_idx : k + suc i ≡ suc (k + i) = omega arith in
    let rest =
      convert_loop_lem op len total a k n (suc i)
        (queue ++ request_at op (a + i * len) (k + i) ∷ []) ea er (omega arith) in
    rw (addr, idx, convert_loop)
      (rest
        ∙ ap some (
            append_assoc queue (request_at op (a + i * len) (k + i) ∷ []) _
            ∙ ap₂ (λ x y. queue ++ request_at op (a + i * len) (k + i) ∷ numbered op len n x y)
                next_addr next_idx))

numbered-vec :
    (op : BurstOp) (vec addr_vec : List ℕ) (len n a k : ℕ)
    → numbered (record op { req_vec = vec; addr_vec = addr_vec }) len n a k ≡ numbered op len n a k
unfolding numbered
numbered-vec op vec addr_vec len zero a k = refl
numbered-vec op vec addr_vec len (suc n) a k =
    ap (λ rest. request_at op a k ∷ rest) (numbered-vec op vec addr_vec len n (a + len) (suc k))

-- The vectors have no influence on the addresses.
pub update_addr_vec-vec :
    (g : Geometry) (op : BurstOp) (vec : List ℕ)
    → 0 < g.burst_len
    → op.addr_vec ≡ []
    → update_addr_vec g (record op { req_vec = vec })
      ≡ some (record op {
        req_vec = vec;
        addr_vec = addresses g.burst_len (get_req_num g op) (get_aligned_addr g op);
      })
unfolding get_req_num get_offset get_aligned_addr
update_addr_vec-vec g op vec pos fresh =
    update_addr_vec-eq g (record op { req_vec = vec }) pos fresh

convert_to_req-vec :
    (g : Geometry) (op : BurstOp) (queue : List Request) (k : ℕ)
    → convert_to_req g
        (record op {
          req_vec = ids (get_req_num g op) k;
          addr_vec = addresses g.burst_len (get_req_num g op) (get_aligned_addr g op);
        })
        queue
      ≡ some (queue ++ numbered op g.burst_len (get_req_num g op) (get_aligned_addr g op) k)
unfolding convert_to_req get_req_num get_offset get_aligned_addr
convert_to_req-vec g op queue k =
    let n = get_req_num g op in
    let a = get_aligned_addr g op in
    let vec = ids n k in
    let addr_vec = addresses g.burst_len n a in
    let p : a + 0 * g.burst_len ≡ a = omega arith in
    let q : k + 0 ≡ k = omega arith in
    convert_loop_lem (record op { req_vec = vec; addr_vec = addr_vec }) g.burst_len n a k n 0 queue
      refl refl (omega arith)
    ∙ ap some (
        ap (λ rest. queue ++ rest)
          (numbered-vec op vec addr_vec g.burst_len n (a + 0 * g.burst_len) (k + 0)
            ∙ ap₂ (numbered op g.burst_len n) p q))

pub update_req_vec-eq :
    (g : Geometry) (op : BurstOp) (c : Counters)
    → op.req_vec ≡ []
    → update_req_vec g op c ≡ (
      record op { req_vec = ids (get_req_num g op) c.next_req },
      record c { next_req = c.next_req + get_req_num g op },
    )
unfolding update_req_vec
update_req_vec-eq g op c fresh =
    ap (λ vec. finish (req_loop (get_req_num g op) c vec)) fresh
    ∙ ap finish (req_loop_lem (get_req_num g op) c [])
  where
    finish : List ℕ × Counters → BurstOp × Counters
    finish r = (record op { req_vec = r.0 }, r.1)

-- With a positive burst length, a burst without numbers and addresses gets both from `updateReqVec` and
-- `updateAddrVec`, and `convertToReq` then appends to any queue the requests of the burst: as many as
-- `getReqNum` says, a burst length apart from the aligned address on, and numbered without a gap from
-- the next free number on, which moves on by as many.
pub convert_to_req-numbered :
    (g : Geometry) (op : BurstOp) (c : Counters) (queue : List Request)
    → 0 < g.burst_len
    → op.req_vec ≡ []
    → op.addr_vec ≡ []
    → (t : BurstOp) × (update_addr_vec g (update_req_vec g op c).0 ≡ some t)
      × (convert_to_req g t queue
          ≡ some (
              queue
              ++ numbered op g.burst_len (get_req_num g op) (get_aligned_addr g op) c.next_req))
      × ((update_req_vec g op c).1.next_req ≡ c.next_req + get_req_num g op)
convert_to_req-numbered g op c queue pos fresh_req fresh_addr =
    let made = update_req_vec-eq g op c fresh_req in
    (
      record op {
        req_vec = ids (get_req_num g op) c.next_req;
        addr_vec = addresses g.burst_len (get_req_num g op) (get_aligned_addr g op);
      },
      rw made (update_addr_vec-vec g op (ids (get_req_num g op) c.next_req) pos fresh_addr),
      convert_to_req-vec g op queue c.next_req,
      rw made refl,
    )
