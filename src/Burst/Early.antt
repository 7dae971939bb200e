-- ===== src/Burst/Early.antt =====
-- With the width that `getBurstAddrWidth` finds, a burst may begin with a request that ends before it.
use graph_accelerator.Common.{ℕ, ◌+◌, ◌*◌, ◌%◌, ◌/◌, ◌≤◌, ◌<◌, ◌≡◌, List, [], ◌∷◌, some, arith}
use graph_accelerator.Burst.{
  Geometry, BurstOp, get_burst_addr_width, get_aligned_addr, get_req_num, update_addr_vec,
}
use graph_accelerator.Burst.Cover.{addresses, update_addr_vec-eq, req_num-positive}
use graph_accelerator.Burst.Width.{width_double, aligned-double}

early : (a len : ℕ) → 0 < len → len ≤ a % (2 * len) → a / (2 * len) * (2 * len) + len ≤ a
early a len pos h = grind arith

-- With a burst length that `getBurstAddrWidth` knows and the width that it finds for it, a fresh burst
-- whose address is in the upper half of a block of twice the burst length gets a first request that
-- ends at or before the burst's address.
pub update_addr_vec_early :
    (g : Geometry) (op : BurstOp)
    → 0 < g.burst_len
    → get_burst_addr_width g.burst_len ≡ some g.burst_addr_width
    → op.addr_vec ≡ []
    → g.burst_len ≤ op.addr % (2 * g.burst_len)
    → (t : BurstOp) × (first : ℕ) × (rest : List ℕ) × (update_addr_vec g op ≡ some t)
      × (t.addr_vec ≡ first ∷ rest)
      × (first + g.burst_len ≤ op.addr)
unfolding addresses
update_addr_vec_early g op pos found fresh upper =
    let width = width_double g.burst_len g.burst_addr_width found in
    let at = aligned-double g op width in
    let before : get_aligned_addr g op + g.burst_len ≤ op.addr =
      rw at (early op.addr g.burst_len pos upper) in
    let (n, e) = req_num-positive g op (omega (arith, before, pos)) in
    (
      record op { addr_vec = addresses g.burst_len (get_req_num g op) (get_aligned_addr g op) },
      get_aligned_addr g op,
      addresses g.burst_len n (get_aligned_addr g op + g.burst_len),
      update_addr_vec-eq g op pos fresh,
      rw (e, addresses),
      before,
    )
