-- ===== src/Pe/Depths.antt =====
-- The depths in the memory while a level runs: the expansion threads of src/pe.cpp write the next depth
-- where -1 stood, and the inspection threads read them meanwhile.
use graph_accelerator.Common.{
  ℕ, zero, suc, ◌+◌, ◌≡◌, refl, Bool, true, false, ◌&&◌, ◌||◌, List, [], ◌∷◌, ◌++◌, ℤ, minus_one,
  eq_ℤ, eq_ℤ_refl, to_char, to_char-next, arith, length, pos,
}
use graph_accelerator.Bfs.Depth.{depth_at, at_level}
use graph_accelerator.Pe.Expand.Run.{load_depths}

-- A depth that may stand where `x` stood when the level began.
unfoldable pub may_become : ℕ → ℤ → ℤ → Bool
may_become level x y = eq_ℤ y x || (eq_ℤ x minus_one && eq_ℤ y (to_char (level + 1)))

-- The same for a list of depths.
unfoldable pub later_depths : ℕ → List ℤ → List ℤ → Bool
later_depths level [] [] = true
later_depths level [] (y ∷ ys) = false
later_depths level (x ∷ xs) [] = false
later_depths level (x ∷ xs) (y ∷ ys) = may_become level x y && later_depths level xs ys

module _ (level : ℕ) where
  pub may_become_refl : (x : ℤ) → may_become level x x ≡ true
  unfolding may_become
  may_become_refl x = simp (eq_ℤ_refl x)

  may_become_trans :
      (x y z : ℤ)
      → may_become level x y ≡ true
      → may_become level y z ≡ true
      → may_become level x z ≡ true
  unfolding may_become
  may_become_trans x y z h k = let n = to_char (level + 1) in go n h k
    where
      go :
          (n : ℤ)
          → (eq_ℤ y x || (eq_ℤ x minus_one && eq_ℤ y n)) ≡ true
          → (eq_ℤ z y || (eq_ℤ y minus_one && eq_ℤ z n)) ≡ true
          → (eq_ℤ z x || (eq_ℤ x minus_one && eq_ℤ z n)) ≡ true
      go n h k = ground (arith, h, k)

  pub later_depths_refl : (xs : List ℤ) → later_depths level xs xs ≡ true
  unfolding later_depths
  later_depths_refl [] = refl
  later_depths_refl (x ∷ xs) = simp (may_become_refl x) (later_depths_refl xs)

  pub later_depths_trans :
      (xs ys zs : List ℤ)
      → later_depths level xs ys ≡ true
      → later_depths level ys zs ≡ true
      → later_depths level xs zs ≡ true
  unfolding later_depths
  later_depths_trans [] [] [] h k = refl
  later_depths_trans [] [] (z ∷ zs) h k = cc
  later_depths_trans [] (y ∷ ys) zs h k = cc
  later_depths_trans (x ∷ xs) [] zs h k = cc
  later_depths_trans (x ∷ xs) (y ∷ ys) [] h k = cc
  later_depths_trans (x ∷ xs) (y ∷ ys) (z ∷ zs) h k =
      ground (arith, may_become_trans x y z, later_depths_trans xs ys zs, h, k)

  pub later_depths-append :
      (xs ys us vs : List ℤ)
      → later_depths level xs us ≡ true
      → later_depths level ys vs ≡ true
      → later_depths level (xs ++ ys) (us ++ vs) ≡ true
  unfolding later_depths
  later_depths-append [] ys [] vs h k = k
  later_depths-append [] ys (u ∷ us) vs h k = cc
  later_depths-append (x ∷ xs) ys [] vs h k = cc
  later_depths-append (x ∷ xs) ys (u ∷ us) vs h k =
      ground (arith, later_depths-append xs ys us vs, h, k)

  pub later_depths-at :
      (xs ys : List ℤ)
      → later_depths level xs ys ≡ true
      → (v : ℕ) → may_become level (depth_at xs v) (depth_at ys v) ≡ true
  unfolding later_depths
  later_depths-at [] [] h v = may_become_refl minus_one
  later_depths-at [] (y ∷ ys) h v = cc
  later_depths-at (x ∷ xs) [] h v = cc
  later_depths-at (x ∷ xs) (y ∷ ys) h zero = ground (arith, h)
  later_depths-at (x ∷ xs) (y ∷ ys) h (suc v) = later_depths-at xs ys (ground (arith, h)) v

  pub later_depths-intro :
      (xs ys : List ℤ)
      → length xs ≡ length ys
      → ((v : ℕ) → may_become level (depth_at xs v) (depth_at ys v) ≡ true)
      → later_depths level xs ys ≡ true
  unfolding later_depths
  later_depths-intro [] [] n h = refl
  later_depths-intro [] (y ∷ ys) n h = absurd (omega (arith, n))
  later_depths-intro (x ∷ xs) [] n h = absurd (omega (arith, n))
  later_depths-intro (x ∷ xs) (y ∷ ys) n h =
      let first = h 0 in
      let rest = later_depths-intro xs ys (omega (arith, n)) (λ v. h (suc v)) in
      ground (arith, first, rest)

  pub later_depths-load_depths :
      (xs ys : List ℤ)
      → later_depths level xs ys ≡ true
      → (i n : ℕ) → later_depths level (load_depths xs i n) (load_depths ys i n) ≡ true
  unfolding later_depths load_depths
  later_depths-load_depths xs ys h i zero = refl
  later_depths-load_depths xs ys h i (suc n) =
      let first = later_depths-at xs ys h i in
      let rest = later_depths-load_depths xs ys h (suc i) n in ground (arith, first, rest)

  -- The vertices of the level stay the same.
  pub at_level-later_depths :
      (xs ys : List ℤ)
      → later_depths level xs ys ≡ true
      → (v : ℕ) → at_level level ys v ≡ at_level level xs v
  unfolding may_become
  at_level-later_depths xs ys h v =
      let k = later_depths-at xs ys h v in
      let other = to_char-next level in
      same (depth_at xs v) (depth_at ys v) (to_char (level + 1)) k other
    where
      same :
          (x y n : ℤ)
          → (eq_ℤ y x || (eq_ℤ x minus_one && eq_ℤ y n)) ≡ true
          → eq_ℤ n (pos level) ≡ false
          → eq_ℤ y (pos level) ≡ eq_ℤ x (pos level)
      same x y n h k = ground (arith, h, k)
