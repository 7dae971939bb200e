-- ===== src/Burst/Cover.antt =====
-- The requests that a burst is split into: how many there are, and that they cover its bytes.
use graph_accelerator.Common.{
  ℕ, zero, suc, ◌+◌, ◌-◌, ◌*◌, ◌≤◌, ◌<◌, ◌≡◌, refl, sym, ap, ◌∙◌, true, false, ◌==◌, ltb, leb, List,
  [], ◌∷◌, ◌++◌, some, if◌then◌else◌, length, inl, inr, Bool-cases, contains, arith,
}
use mathlib.Core.List.{append_assoc, append-nil}
use graph_accelerator.Burst.{
  Geometry, BurstOp, get_aligned_addr, get_offset, round_up, get_req_num, aligned_loop,
  residue_loop, update_addr_vec,
}
use native.Mathlib.Decide.{dec_lt}

-- `n` addresses from `a` on, a burst length apart.
unfoldable pub addresses : ℕ → ℕ → ℕ → List ℕ
addresses len zero a = []
addresses len (suc n) a = a ∷ addresses len n (a + len)

pub length-addresses : (len n a : ℕ) → length (addresses len n a) ≡ n
unfolding addresses
length-addresses len zero a = refl
length-addresses len (suc n) a = ap suc (length-addresses len n (a + len))

round_up_small : (x len : ℕ) → 0 < x → x ≤ len → round_up x len ≡ 1
round_up_small x len h le = grind arith

round_up_step : (x len : ℕ) → 0 < len → len ≤ x → round_up x len ≡ round_up (x - len) len + 1
round_up_step x len h le = grind arith

round_up_covers : (x len : ℕ) → 0 < len → x ≤ round_up x len * len
round_up_covers x len h = grind arith

aligned_loop_lem :
    (g : Geometry) (n a : ℕ) (vec : List ℕ)
    → aligned_loop g n a vec ≡ vec ++ addresses g.burst_len n a
unfolding aligned_loop addresses
aligned_loop_lem g zero a vec = sym (append-nil vec)
aligned_loop_lem g (suc n) a vec =
    aligned_loop_lem g n (a + g.burst_len) (vec ++ a ∷ [])
    ∙ append_assoc vec (a ∷ []) (addresses g.burst_len n (a + g.burst_len))

-- The rounds of the `while` loop: one for each burst length begun after `req_len`.
residue_num : ℕ → ℕ → ℕ → ℕ
residue_num burst_len req_len len =
    if ltb req_len len then round_up (len - req_len) burst_len else 0

-- `reqLen` after a round.
abbrev next_len : ℕ → ℕ → ℕ → ℕ
next_len burst_len req_len len = if leb (req_len + burst_len) len then req_len + burst_len else len

sub_sub : (a b k : ℕ) → a - b - k ≡ a - (b + k)
sub_sub a b k = omega arith

residue_num_step :
    (burst_len req_len len : ℕ)
    → 0 < burst_len
    → req_len < len
    → residue_num burst_len req_len len
      ≡ suc (residue_num burst_len (next_len burst_len req_len len) len)
unfolding residue_num
residue_num_step burst_len req_len len pos more = ground (
  arith,
  round_up_step (len - req_len) burst_len,
  round_up_small (len - req_len) burst_len,
  sub_sub len req_len burst_len,
)

residue_num_done :
    (burst_len req_len len : ℕ) → ltb req_len len ≡ false → residue_num burst_len req_len len ≡ 0
unfolding residue_num
residue_num_done burst_len req_len len done = rw done

residue_loop_lem :
    (g : Geometry) (fuel req_len len a : ℕ) (vec : List ℕ)
    → 0 < g.burst_len
    → len - req_len < fuel
    → residue_loop g fuel req_len len a vec
      ≡ some (vec ++ addresses g.burst_len (residue_num g.burst_len req_len len) (a + g.burst_len))
unfolding residue_loop addresses
residue_loop_lem g zero req_len len a vec pos room = absurd (omega arith)
residue_loop_lem g (suc fuel) req_len len a vec pos room = elim (Bool-cases (ltb req_len len)) [
  | inl more ↦
      let next = next_len g.burst_len req_len len in
      let lt : req_len < len = ground arith in
      rw (more, residue_loop)
        (residue_loop_lem g fuel next len (a + g.burst_len) (vec ++ (a + g.burst_len) ∷ []) pos
            (ground arith)
          ∙ ap some (
              append_assoc vec ((a + g.burst_len) ∷ []) _
              ∙ ap (λ k. vec ++ addresses g.burst_len k (a + g.burst_len))
                  (sym (residue_num_step g.burst_len req_len len pos lt))))
  | inr done ↦
      rw (done, residue_loop, residue_num_done g.burst_len req_len len done)
        (ap some (sym (append-nil vec)))
]

aligned-le : (g : Geometry) (op : BurstOp) → get_aligned_addr g op ≤ op.addr
unfolding get_aligned_addr
aligned-le g op = grind arith

addr-eq : (g : Geometry) (op : BurstOp) → op.addr ≡ get_aligned_addr g op + get_offset g op
unfolding get_offset
addr-eq g op = omega (arith, aligned-le g op)

suc_mul : (r len : ℕ) → (1 + r) * len ≡ len + r * len
suc_mul r len = grind arith

-- `getReqNum` by its length and offset.
abbrev req_num : ℕ → ℕ → ℕ → ℕ
req_num burst_len len offset =
    if offset == 0
    then round_up len burst_len
    else if ltb burst_len (len + offset)
    then 1 + round_up (len + offset - burst_len) burst_len
    else 1

req_num_lem :
    (burst_len len offset : ℕ)
    → 0 < burst_len
    → len + offset ≤ req_num burst_len len offset * burst_len
req_num_lem burst_len len offset pos = elim (Bool-cases (offset == 0)) [
  | inl e ↦
      let all = round_up_covers len burst_len pos in
      let z : offset ≡ 0 = ground arith in rw e (omega (arith, all, z))
  | inr e ↦ rw e (elim (Bool-cases (ltb burst_len (len + offset))) [
    | inl m ↦
        let r = round_up (len + offset - burst_len) burst_len in
        let rest : len + offset - burst_len ≤ r * burst_len =
          round_up_covers (len + offset - burst_len) burst_len pos in
        rw (m, suc_mul r burst_len) (omega (arith, rest))
    | inr m ↦ rw m (ground arith)
  ])
]

-- The requests are long enough for the bytes from the aligned address on.
req_num-covers :
    (g : Geometry) (op : BurstOp)
    → 0 < g.burst_len
    → op.len + get_offset g op ≤ get_req_num g op * g.burst_len
unfolding get_req_num
req_num-covers g op pos = req_num_lem g.burst_len op.len (get_offset g op) pos

addresses-cover :
    (len n a b : ℕ)
    → a ≤ b
    → b < a + n * len
    → (x : ℕ) × (contains x (addresses len n a) ≡ true) × (x ≤ b) × (b < x + len)
unfolding addresses contains
addresses-cover len zero a b le lt = absurd (omega arith)
addresses-cover len (suc n) a b le lt = elim (dec_lt b (a + len)) [
  | yes p ↦ (a, ground arith, le, p)
  | no q ↦
      let (x, m, lo, hi) = addresses-cover len n (a + len) b (omega arith) (grind arith) in
      (x, ground arith, lo, hi)
]

req_num-residue :
    (g : Geometry) (op : BurstOp)
    → get_offset g op == 0 ≡ false
    → get_req_num g op ≡ suc (residue_num g.burst_len g.burst_len (op.len + get_offset g op))
unfolding get_req_num residue_num
req_num-residue g op e = rw e (ground arith)

-- A burst that does not begin at its aligned address has a request.
pub req_num-positive :
    (g : Geometry) (op : BurstOp)
    → get_aligned_addr g op < op.addr
    → (n : ℕ) × (get_req_num g op ≡ suc n)
req_num-positive g op h =
    let at = addr-eq g op in
    let inside : get_offset g op == 0 ≡ false = ground arith in
    (residue_num g.burst_len g.burst_len (op.len + get_offset g op), req_num-residue g op inside)

aligned-same :
    (g : Geometry) (op : BurstOp) → get_offset g op == 0 ≡ true → op.addr ≡ get_aligned_addr g op
aligned-same g op e =
    let at = addr-eq g op in let z : get_offset g op ≡ 0 = ground arith in omega (arith, at, z)

residue-eq :
    (g : Geometry) (op : BurstOp) (vec : List ℕ)
    → 0 < g.burst_len
    → get_offset g op == 0 ≡ false
    → vec ≡ []
    → residue_loop g
        (op.len + get_offset g op + 1)
        g.burst_len
        (op.len + get_offset g op)
        (get_aligned_addr g op)
        (vec ++ get_aligned_addr g op ∷ [])
      ≡ some (addresses g.burst_len (get_req_num g op) (get_aligned_addr g op))
unfolding addresses
residue-eq g op vec pos e fresh =
    rw (req_num-residue g op e, fresh, addresses)
      (residue_loop_lem g (op.len + get_offset g op + 1) g.burst_len (op.len + get_offset g op)
        (get_aligned_addr g op) (get_aligned_addr g op ∷ []) pos (omega arith))

aligned-vec :
    (g : Geometry) (op : BurstOp) (vec : List ℕ)
    → get_offset g op == 0 ≡ true
    → vec ≡ []
    → aligned_loop g (get_req_num g op) op.addr vec
      ≡ addresses g.burst_len (get_req_num g op) (get_aligned_addr g op)
aligned-vec g op vec e fresh =
    aligned_loop_lem g (get_req_num g op) op.addr vec
    ∙ ap (λ v. v ++ addresses g.burst_len (get_req_num g op) op.addr) fresh
    ∙ ap (addresses g.burst_len (get_req_num g op)) (aligned-same g op e)

-- The addresses of a fresh burst.
pub update_addr_vec-eq :
    (g : Geometry) (op : BurstOp)
    → 0 < g.burst_len
    → op.addr_vec ≡ []
    → update_addr_vec g op
      ≡ some (record op {
        addr_vec = addresses g.burst_len (get_req_num g op) (get_aligned_addr g op);
      })
unfolding update_addr_vec
update_addr_vec-eq g op pos fresh = elim (Bool-cases (get_offset g op == 0)) [
  | inl e ↦
      simp e (ap (λ v. some (record op { addr_vec = v })) (aligned-vec g op op.addr_vec e fresh))
  | inr e ↦ simp (e, residue-eq g op op.addr_vec pos e fresh) refl
]

-- With a positive burst length, `updateAddrVec` ends on a fresh burst and leaves as many addresses as
-- `getReqNum` says, and each byte of the burst lies in the request at one of them.
pub update_addr_vec-covers :
    (g : Geometry) (op : BurstOp)
    → 0 < g.burst_len
    → op.addr_vec ≡ []
    → (t : BurstOp) × (update_addr_vec g op ≡ some t)
      × (length t.addr_vec ≡ get_req_num g op)
      × ((b : ℕ)
          → op.addr ≤ b
          → b < op.addr + op.len
          → (x : ℕ) × (contains x t.addr_vec ≡ true) × (x ≤ b) × (b < x + g.burst_len))
update_addr_vec-covers g op pos fresh = (
  record op { addr_vec = addresses g.burst_len (get_req_num g op) (get_aligned_addr g op) },
  update_addr_vec-eq g op pos fresh,
  length-addresses g.burst_len (get_req_num g op) (get_aligned_addr g op),
  λ b lo hi.
      let at = addr-eq g op in
      let room = req_num-covers g op pos in
      addresses-cover g.burst_len (get_req_num g op) (get_aligned_addr g op) b (omega arith)
        (omega arith),
)
