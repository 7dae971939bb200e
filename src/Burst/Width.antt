-- ===== src/Burst/Width.antt =====
-- The address width that `getBurstAddrWidth` finds is one more than the burst length's logarithm.
use graph_accelerator.Common.{
  ℕ, zero, suc, ◌+◌, ◌*◌, ◌^◌, ◌≤◌, ◌≡◌, Option, none, some, refl, inl, inr, Bool-cases, ◌==◌,
  arith, ◌<◌, ◌/◌, ◌%◌, Bool, true, false, all_below, all_below_sound, all_from,
}
use graph_accelerator.Burst.{width_loop, get_burst_addr_width, Geometry, BurstOp, get_aligned_addr}
use native.Mathlib.Nat.{pow-suc}
use native.Mathlib.Numerals.{towards_suc}

gives : Option ℕ → ℕ → Bool
gives none w = false
gives (some v) w = v == w

gives-eq : (o : Option ℕ) (w : ℕ) → gives o w ≡ true → o ≡ some w
unfolding gives
gives-eq none w h = cc
gives-eq (some v) w h = ground arith

-- Over this range every value is checked by evaluation.
width_table : all_below 11 (λ k. gives (get_burst_addr_width (2 ^ k)) (k + 1)) ≡ true
unfolding all_from gives get_burst_addr_width
width_table = refl

-- For each burst length that the loop knows, the powers of two from 1 to 1024, the width is one more
-- than the logarithm.
get_burst_addr_width_lem : (k : ℕ) → k ≤ 10 → get_burst_addr_width (2 ^ k) ≡ some (k + 1)
get_burst_addr_width_lem k h = gives-eq _ (k + 1) (
    all_below_sound 11 (λ j. gives (get_burst_addr_width (2 ^ j)) (j + 1)) k width_table
      (omega arith))

width_loop_double :
    (len n width val w : ℕ)
    → width_loop len n width val ≡ some w
    → 2 ^ width ≡ 2 * val
    → 2 ^ w ≡ 2 * len
unfolding width_loop
width_loop_double len zero width val w h e = cc
width_loop_double len (suc n) width val w h e = elim (Bool-cases (val == len)) [
  | inl q ↦
      let found : width ≡ w = ground arith in
      let same : val ≡ len = ground arith in rw (← found, ← same) e
  | inr q ↦
      width_loop_double len n (width + 1) (val * 2) w (rw (q, width_loop) at h)
        (simp towards_suc (rw pow-suc (omega (arith, e))))
]

pub width_double : (len w : ℕ) → get_burst_addr_width len ≡ some w → 2 ^ w ≡ 2 * len
width_double len w h = unfold get_burst_addr_width in width_loop_double len 11 1 1 w h refl

pub aligned-double :
    (g : Geometry) (op : BurstOp)
    → 2 ^ g.burst_addr_width ≡ 2 * g.burst_len
    → get_aligned_addr g op ≡ op.addr / (2 * g.burst_len) * (2 * g.burst_len)
unfolding get_aligned_addr
aligned-double g op e = rw e

pow_positive : (w : ℕ) → 0 < 2 ^ w
pow_positive zero = omega arith
pow_positive (suc w) = let p = pow_positive w in rw pow-suc (omega (arith, p))

block : (a m : ℕ) → 0 < m → (a / m * m ≤ a) × (a < a / m * m + m)
block a m h = grind arith

-- With the width that `getBurstAddrWidth` finds for the burst length, the address to which
-- `getAlignedAddr` moves a burst is the largest multiple of twice the burst length that is not above the
-- burst's address; and it finds a width for each power of two from 1 to 1024.
pub get_burst_addr_width_double :
    ((g : Geometry) (op : BurstOp)
      → get_burst_addr_width g.burst_len ≡ some g.burst_addr_width
      → (get_aligned_addr g op % (2 * g.burst_len) ≡ 0)
        × (get_aligned_addr g op ≤ op.addr)
        × (op.addr < get_aligned_addr g op + 2 * g.burst_len))
    × ((k : ℕ) → k ≤ 10 → get_burst_addr_width (2 ^ k) ≡ some (k + 1))
get_burst_addr_width_double = (
  λ g op found.
      let e = width_double g.burst_len g.burst_addr_width found in
      let p = pow_positive g.burst_addr_width in
      let positive : 0 < 2 * g.burst_len = omega (arith, e, p) in
      let (low, high) = block op.addr (2 * g.burst_len) positive in
      let at = aligned-double g op e in
      (
        rw at (multiple (op.addr / (2 * g.burst_len)) (2 * g.burst_len) positive),
        rw at low,
        rw at high,
      ),
  get_burst_addr_width_lem,
)
  where
    multiple : (n m : ℕ) → 0 < m → n * m % m ≡ 0
    multiple n m h = grind arith
