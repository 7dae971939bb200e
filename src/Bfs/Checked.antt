-- ===== src/Bfs/Checked.antt =====
-- A test for `IsCsr`, for graphs given by their arrays.
use graph_accelerator.Common.{
  ℕ, ◌≡◌, Bool, true, ◌&&◌, not, if◌then◌else◌, contains, ltb, all_below, all_below_sound, all_in,
  all_in_sound, arith,
}
use graph_accelerator.Bfs.Csr.{Csr, IsCsr, out_ngbs, in_ngbs}

unfoldable pub eq_bool : Bool → Bool → Bool
eq_bool a b = if a then b else not b

eq_bool_sound : (a b : Bool) → eq_bool a b ≡ true → a ≡ b
unfolding eq_bool
eq_bool_sound a b h = ground arith

abbrev pub out_below : Csr → ℕ → Bool
out_below c u = all_in (λ v. ltb v c.v_num) (out_ngbs c u)

abbrev pub in_below : Csr → ℕ → Bool
in_below c v = all_in (λ u. ltb u c.v_num) (in_ngbs c v)

abbrev pub same_edge : Csr → ℕ → ℕ → Bool
same_edge c u v = eq_bool (contains v (out_ngbs c u)) (contains u (in_ngbs c v))

unfoldable pub is_csr : Csr → Bool
is_csr c =
    all_below c.v_num (out_below c)
    && all_below c.v_num (in_below c)
    && all_below c.v_num (λ u. all_below c.v_num (same_edge c u))

split : (a b c : Bool) → (a && b && c) ≡ true → (a ≡ true) × (b ≡ true) × (c ≡ true)
split a b c h = ground arith

pub is_csr_sound : (c : Csr) → is_csr c ≡ true → IsCsr c
unfolding is_csr
is_csr_sound c h =
    let (outs, ins, same) =
      split (all_below c.v_num (out_below c)) (all_below c.v_num (in_below c)) _ h in
    record {
      out_lt = λ u v hu m.
          let lt = all_in_sound _ _ v (all_below_sound c.v_num (out_below c) u outs hu) m in
          ground arith;
      in_lt = λ u v hv m.
          let lt = all_in_sound _ _ u (all_below_sound c.v_num (in_below c) v ins hv) m in
          ground arith;
      transposed = λ u v hu hv. eq_bool_sound _ _ (
          all_below_sound c.v_num (same_edge c u) v
            (all_below_sound c.v_num (λ w. all_below c.v_num (same_edge c w)) u same hu) hv);
    }
