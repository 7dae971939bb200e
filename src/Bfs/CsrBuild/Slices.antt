-- ===== src/Bfs/CsrBuild/Slices.antt =====
-- The offsets are the sums of the degrees, and each row is a slice of the columns.
use graph_accelerator.Common.{
  ℕ, zero, suc, ◌+◌, ◌-◌, ◌≤◌, ◌<◌, ◌≡◌, refl, sym, ap, ◌∙◌, List, [], ◌∷◌, ◌++◌, length, get_or,
  set, replicate, for_range_inv, slice, arith, length-append, length-set, length-replicate,
  get_or-set_self, get_or-set_ne,
}
use mathlib.Core.List.{append_assoc, append-nil}
use native.Mathlib.Decide.{ℕ_discrete}
use graph_accelerator.Bfs.Csr.{entry}
use graph_accelerator.Bfs.CsrBuild.{offsets, push_all, columns}

-- The sum of the degrees below `k`.
unfoldable pub sum_below : (ℕ → ℕ) → ℕ → ℕ
sum_below f zero = 0
sum_below f (suc k) = sum_below f k + f k

pub sum_below_width : (f : ℕ → ℕ) (v : ℕ) → sum_below f (suc v) - sum_below f v ≡ f v
unfolding sum_below
sum_below_width f v = omega arith

sum_below_le : (f : ℕ → ℕ) (v n : ℕ) → v < n → sum_below f v + f v ≤ sum_below f n
unfolding sum_below
sum_below_le f v zero h = absurd (omega arith)
sum_below_le f v (suc n) h = elim (ℕ_discrete v n) [
  | yes e ↦ rw e (omega arith)
  | no ne ↦ let rest = sum_below_le f v n (omega arith) in omega arith
]

record IsFilled (n : ℕ) (f : ℕ → ℕ) (i : ℕ) (s : List ℕ) : Type 0 where
  size : length s ≡ suc n
  sums : (k : ℕ) → k ≤ i → entry s k ≡ sum_below f k

-- `rpao[k]` is the number of edges out of the vertices below `k`.
pub entry-offsets : (n : ℕ) (f : ℕ → ℕ) (k : ℕ) → k ≤ n → entry (offsets n f) k ≡ sum_below f k
unfolding offsets
entry-offsets n f k h =
    (for_range_inv (IsFilled n f) n _ keep n 0 (set (replicate (suc n) 0) 0 0) (omega arith)
        start).sums
      k h
  where
    starts : (j : ℕ) → j ≤ 0 → entry (set (replicate {A = ℕ} (suc n) 0) 0 0) j ≡ sum_below f j
    starts zero le = unfold sum_below in refl
    starts (suc j) le = absurd (omega arith)

    start : IsFilled n f 0 (set (replicate (suc n) 0) 0 0)
    start = record {
      size = length-set (replicate {A = ℕ} (suc n) 0) 0 0 ∙ length-replicate {A = ℕ} (suc n) 0;
      sums = λ j le. starts j (omega arith);
    }

    keep :
        (i : ℕ) (s : List ℕ)
        → i < n
        → IsFilled n f i s
        → IsFilled n f (suc i) (set s (suc i) (entry s i + f i))
    keep i s lt fill = record {
      size = length-set s (suc i) (entry s i + f i) ∙ fill.size;
      sums = λ j le. elim (ℕ_discrete j (suc i)) [
        | yes e ↦
            rw
              (e, get_or-set_self s (suc i) (entry s i + f i) 0 (let n' = fill.size in omega arith))
              (unfold sum_below in ap (λ m. m + f i) (fill.sums i (omega arith)))
        | no ne ↦ get_or-set_ne s (suc i) j (entry s i + f i) 0 ne ∙ fill.sums j (omega arith)
      ];
    }

push_all_lem : (s ids : List ℕ) → push_all s ids ≡ s ++ ids
push_all_lem s [] = sym (append-nil s)
push_all_lem s (x ∷ ids) = push_all_lem (s ++ x ∷ []) ids ∙ append_assoc s (x ∷ []) ids

-- The rows below `k`, one after the other.
pub rows_below : (ℕ → List ℕ) → ℕ → List ℕ
rows_below ids zero = []
rows_below ids (suc k) = rows_below ids k ++ ids k

pub columns_lem : (n : ℕ) (ids : ℕ → List ℕ) → columns n ids ≡ rows_below ids n
unfolding columns rows_below
columns_lem n ids =
    for_range_inv (λ i s. s ≡ rows_below ids i) n _
      (λ i s lt e. push_all_lem s (ids i) ∙ ap (λ t. t ++ ids i) e) n 0 [] (omega arith) refl

pub length-rows_below :
    (ids : ℕ → List ℕ) (k : ℕ) → length (rows_below ids k) ≡ sum_below (λ i. length (ids i)) k
unfolding rows_below sum_below
length-rows_below ids zero = refl
length-rows_below ids (suc k) =
    length-append (rows_below ids k) (ids k)
    ∙ ap (λ m. m + length (ids k)) (length-rows_below ids k)

get_or-append_left :
    (xs ys : List ℕ) (i : ℕ) → i < length xs → get_or (xs ++ ys) i 0 ≡ get_or xs i 0
get_or-append_left [] ys i h = absurd (omega arith)
get_or-append_left (x ∷ xs) ys zero h = refl
get_or-append_left (x ∷ xs) ys (suc i) h = get_or-append_left xs ys i (omega arith)

slice-append_left :
    (xs ys : List ℕ) (i k : ℕ) → i + k ≤ length xs → slice (xs ++ ys) i k ≡ slice xs i k
unfolding slice
slice-append_left xs ys i zero h = refl
slice-append_left xs ys i (suc k) h =
    cc (get_or-append_left xs ys i (omega arith), slice-append_left xs ys (suc i) k (omega arith))

slice-cons : (x : ℕ) (xs : List ℕ) (i k : ℕ) → slice (x ∷ xs) (suc i) k ≡ slice xs i k
unfolding slice
slice-cons x xs i zero = refl
slice-cons x xs i (suc k) = ap (λ t. get_or xs i 0 ∷ t) (slice-cons x xs (suc i) k)

slice_all : (xs : List ℕ) → slice xs 0 (length xs) ≡ xs
unfolding slice
slice_all [] = refl
slice_all (x ∷ xs) = ap (λ t. x ∷ t) (slice-cons x xs 0 (length xs) ∙ slice_all xs)

slice-append_right : (xs ys : List ℕ) → slice (xs ++ ys) (length xs) (length ys) ≡ ys
slice-append_right [] ys = slice_all ys
slice-append_right (x ∷ xs) ys =
    slice-cons x (xs ++ ys) (length xs) (length ys) ∙ slice-append_right xs ys

-- The slice of row `v` is row `v`.
pub slice-rows_below :
    (ids : ℕ → List ℕ) (n v : ℕ)
    → v < n
    → slice (rows_below ids n) (sum_below (λ i. length (ids i)) v) (length (ids v)) ≡ ids v
unfolding rows_below
slice-rows_below ids zero v h = absurd (omega arith)
slice-rows_below ids (suc n) v h = elim (ℕ_discrete v n) [
  | yes e ↦ rw (e, ← length-rows_below ids n) (slice-append_right (rows_below ids n) (ids n))
  | no ne ↦
      let size = length-rows_below ids n in
      let fits = sum_below_le (λ i. length (ids i)) v n (omega arith) in
      slice-append_left (rows_below ids n) (ids n) _ (length (ids v)) (omega arith)
      ∙ slice-rows_below ids n v (omega arith)
]
