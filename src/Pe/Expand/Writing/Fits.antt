-- ===== src/Pe/Expand/Writing/Fits.antt =====
-- Lemmas on the tests of the invariant.
use graph_accelerator.Common.{
  ℕ, ◌-◌, ◌≡◌, refl, true, false, ◌&&◌, ◌||◌, List, [], ◌∷◌, ◌++◌, ℤ, arith, contains-concat,
}
use graph_accelerator.Memory.Layout.{Layout}
use graph_accelerator.Pe.Port.{Access}
use graph_accelerator.Pe.Expand.{Write}
use graph_accelerator.Pe.Expand.Writing.{
  Entry, known, asked, fits_one, fits, is_next, all_next, writing, is_open,
}

module _ (l : Layout) (level : ℕ) (d0 d : List ℤ) where
  pub fits-concat :
      (vs : List ℕ) (es : List Entry) (v : ℕ) (e : Entry)
      → fits l level d0 d vs es ≡ true
      → fits_one l level d0 d v e ≡ true
      → fits l level d0 d (vs ++ v ∷ []) (es ++ e ∷ []) ≡ true
  unfolding fits
  fits-concat [] [] v e h k = ground (arith, k)
  fits-concat [] (f ∷ es) v e h k = cc
  fits-concat (u ∷ vs) [] v e h k = cc
  fits-concat (u ∷ vs) (f ∷ es) v e h k = ground (arith, fits-concat vs es v e, h, k)

  -- One entry for another.
  pub fits-replace :
      (vs : List ℕ) (xs ys : List Entry) (e f : Entry)
      → ((v : ℕ) → fits_one l level d0 d v e ≡ true → fits_one l level d0 d v f ≡ true)
      → fits l level d0 d vs (xs ++ e ∷ ys) ≡ true
      → fits l level d0 d vs (xs ++ f ∷ ys) ≡ true
  unfolding fits
  fits-replace [] [] ys e f k h = cc
  fits-replace [] (x ∷ xs) ys e f k h = cc
  fits-replace (v ∷ vs) [] ys e f k h = ground (arith, k v, h)
  fits-replace (v ∷ vs) (x ∷ xs) ys e f k h = ground (arith, fits-replace vs xs ys e f k, h)

  -- A burst that reads a depth reads one byte.
  pub fits-len :
      (vs : List ℕ) (xs ys : List Entry) (a : Access)
      → fits l level d0 d vs (xs ++ asked a ∷ ys) ≡ true
      → a.len ≡ 1
  unfolding fits fits_one
  fits-len [] [] ys a h = cc
  fits-len [] (x ∷ xs) ys a h = cc
  fits-len (v ∷ vs) [] ys a h = ground (arith, h)
  fits-len (v ∷ vs) (x ∷ xs) ys a h = fits-len vs xs ys a (ground (arith, h))

  -- Depths that are written make no vertex unvisited.
  pub fits-later :
      (d' : List ℤ) (vs : List ℕ) (es : List Entry)
      → ((v : ℕ) → is_open level d v ≡ false → is_open level d' v ≡ false)
      → fits l level d0 d vs es ≡ true
      → fits l level d0 d' vs es ≡ true
  unfolding fits fits_one
  fits-later d' [] [] k h = refl
  fits-later d' [] (e ∷ es) k h = cc
  fits-later d' (v ∷ vs) [] k h = cc
  fits-later d' (v ∷ vs) (known x ∷ es) k h = ground (arith, fits-later d' vs es k, k v, h)
  fits-later d' (v ∷ vs) (asked a ∷ es) k h = ground (arith, fits-later d' vs es k, h)

module _ (l : Layout) (level : ℕ) (d0 : List ℤ) where
  pub all_next-append :
      (seen : List ℕ) (vs ws : List Write)
      → all_next l level d0 seen (vs ++ ws)
        ≡ (all_next l level d0 seen vs && all_next l level d0 seen ws)
  unfolding all_next
  all_next-append seen [] ws = refl
  all_next-append seen (v ∷ vs) ws = ground (arith, all_next-append seen vs ws)

  pub all_next-seen :
      (seen : List ℕ) (u : ℕ) (ws : List Write)
      → all_next l level d0 seen ws ≡ true
      → all_next l level d0 (seen ++ u ∷ []) ws ≡ true
  unfolding all_next is_next
  all_next-seen seen u [] h = refl
  all_next-seen seen u (w ∷ ws) h =
      ground (arith, all_next-seen seen u ws, contains-concat (w.access.addr - l.depth) u seen, h)

  pub writing-append :
      (v : ℕ) (us ws : List Write) → writing l v (us ++ ws) ≡ (writing l v us || writing l v ws)
  unfolding writing
  writing-append v [] ws = refl
  writing-append v (u ∷ us) ws = ground (arith, writing-append v us ws)
