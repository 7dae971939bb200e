-- ===== src/Common/Lists.antt =====
-- Lists measured and indexed by native numbers, and membership as a test.
use Prim.Native.Nat.{ℕ, zero, suc, ◌+◌, ◌<◌}
use mathlib.Core.Path.{◌≡◌, refl, ap, ◌∙◌}
use mathlib.Core.Logic.{◌≢◌, inl, inr}
use mathlib.Core.Bool.{Bool, true, false, ◌||◌}
use mathlib.Core.Option.{Option, none, some}
use mathlib.Core.List.{List, [], ◌∷◌, ◌++◌}
use native.Mathlib.Omega.{arith}
use graph_accelerator.Common.Tests.{◌==◌, Bool-cases}
use graph_accelerator.Common.Tests.{if◌then◌else◌}

module _ {ℓ} {A : Type ℓ} where
  abbrev pub length : List A → ℕ
  length [] = 0
  length (x ∷ xs) = suc (length xs)

  abbrev pub get_elem? : List A → ℕ → Option A
  get_elem? [] i = none
  get_elem? (x ∷ xs) zero = some x
  get_elem? (x ∷ xs) (suc i) = get_elem? xs i

  abbrev pub get_or : List A → ℕ → A → A
  get_or [] i d = d
  get_or (x ∷ xs) zero d = x
  get_or (x ∷ xs) (suc i) d = get_or xs i d

  -- A write out of bounds changes nothing.
  abbrev pub set : List A → ℕ → A → List A
  set [] i v = []
  set (x ∷ xs) zero v = v ∷ xs
  set (x ∷ xs) (suc i) v = x ∷ set xs i v

  abbrev pub replicate : ℕ → A → List A
  replicate zero a = []
  replicate (suc n) a = a ∷ replicate n a

  pub length-append : (xs ys : List A) → length (xs ++ ys) ≡ length xs + length ys
  length-append [] ys = omega arith
  length-append (x ∷ xs) ys = omega (arith, length-append xs ys)

  pub length-set : (xs : List A) (i : ℕ) (v : A) → length (set xs i v) ≡ length xs
  length-set [] i v = refl
  length-set (x ∷ xs) zero v = refl
  length-set (x ∷ xs) (suc i) v = ap suc (length-set xs i v)

  pub length-replicate : (n : ℕ) (a : A) → length (replicate n a) ≡ n
  length-replicate zero a = refl
  length-replicate (suc n) a = ap suc (length-replicate n a)

  pub get_or-replicate : (n i : ℕ) (a : A) → get_or (replicate n a) i a ≡ a
  get_or-replicate zero i a = refl
  get_or-replicate (suc n) zero a = refl
  get_or-replicate (suc n) (suc i) a = get_or-replicate n i a

  pub get_or-set_self :
      (xs : List A) (i : ℕ) (v d : A) → i < length xs → get_or (set xs i v) i d ≡ v
  get_or-set_self [] i v d h = absurd (omega arith)
  get_or-set_self (x ∷ xs) zero v d h = refl
  get_or-set_self (x ∷ xs) (suc i) v d h = get_or-set_self xs i v d (omega arith)

  pub get_or-set_ne :
      (xs : List A) (i j : ℕ) (v d : A) → j ≢ i → get_or (set xs i v) j d ≡ get_or xs j d
  get_or-set_ne (x ∷ xs) zero zero v d h = absurd (h refl)
  get_or-set_ne (x ∷ xs) zero (suc j) v d h = refl
  get_or-set_ne (x ∷ xs) (suc i) zero v d h = refl
  get_or-set_ne (x ∷ xs) (suc i) (suc j) v d h = get_or-set_ne xs i j v d (omega arith)
  get_or-set_ne [] i j v d h = refl

  -- Lists of one length with equal entries are equal.
  pub List-ext :
      (d : A) (xs ys : List A)
      → length xs ≡ length ys
      → ((i : ℕ) → i < length xs → get_or xs i d ≡ get_or ys i d)
      → xs ≡ ys
  List-ext d [] [] n e = refl
  List-ext d [] (y ∷ ys) n e = absurd (omega arith)
  List-ext d (x ∷ xs) [] n e = absurd (omega arith)
  List-ext d (x ∷ xs) (y ∷ ys) n e =
      let tail : xs ≡ ys = List-ext d xs ys (omega arith) (λ i h. e (suc i) (omega arith)) in
      cc (tail, e 0 (omega arith))

  -- The entries `f i, …, f (i + n - 1)`.
  unfoldable pub tabulate : ℕ → ℕ → (ℕ → A) → List A
  tabulate zero i f = []
  tabulate (suc n) i f = f i ∷ tabulate n (suc i) f

  pub length-tabulate : (n i : ℕ) (f : ℕ → A) → length (tabulate n i f) ≡ n
  unfolding tabulate
  length-tabulate zero i f = refl
  length-tabulate (suc n) i f = ap suc (length-tabulate n (suc i) f)

  pub get_or-tabulate :
      (n i k : ℕ) (f : ℕ → A) (d : A) → k < n → get_or (tabulate n i f) k d ≡ f (k + i)
  unfolding tabulate
  get_or-tabulate zero i k f d h = absurd (omega arith)
  get_or-tabulate (suc n) i zero f d h = ap f (omega arith)
  get_or-tabulate (suc n) i (suc k) f d h =
      get_or-tabulate n (suc i) k f d (omega arith) ∙ ap f (omega arith)

-- `std::find(buffer.begin(), buffer.end(), idx) != buffer.end()`, and membership in the statements.
unfoldable pub contains : ℕ → List ℕ → Bool
contains a [] = false
contains a (x ∷ xs) = a == x || contains a xs

pub contains-append :
    (a : ℕ) (xs ys : List ℕ) → contains a (xs ++ ys) ≡ (contains a xs || contains a ys)
unfolding contains
contains-append a [] ys = refl
contains-append a (x ∷ xs) ys = ground (arith, contains-append a xs ys)

pub contains-concat :
    (a x : ℕ) (xs : List ℕ) → contains a (xs ++ x ∷ []) ≡ (contains a xs || a == x)
unfolding contains
contains-concat a x [] = ground arith
contains-concat a x (y ∷ xs) = ground (arith, contains-concat a x xs)

-- How often a number occurs.
unfoldable pub count : ℕ → List ℕ → ℕ
count a [] = 0
count a (x ∷ xs) = if a == x then suc (count a xs) else count a xs

pub count-concat :
    (a x : ℕ) (xs : List ℕ)
    → count a (xs ++ x ∷ []) ≡ (if a == x then suc (count a xs) else count a xs)
unfolding count
count-concat a x [] = refl
count-concat a x (y ∷ xs) = ground (arith, count-concat a x xs)

-- Some item passes the test.
unfoldable pub any : (ℕ → Bool) → List ℕ → Bool
any p [] = false
any p (x ∷ xs) = p x || any p xs

pub any-intro :
    (p : ℕ → Bool) (x : ℕ) (xs : List ℕ) → contains x xs ≡ true → p x ≡ true → any p xs ≡ true
unfolding any contains
any-intro p x [] m h = cc
any-intro p x (y ∷ xs) m h = elim (Bool-cases (x == y)) [
  | inl e ↦ let q : x ≡ y = ground arith in rw (← q, h)
  | inr e ↦ ground (arith, any-intro p x xs)
]

pub any-elim :
    (p : ℕ → Bool) (xs : List ℕ) → any p xs ≡ true → (x : ℕ) × (contains x xs ≡ true) × (p x ≡ true)
unfolding any contains
any-elim p [] h = cc
any-elim p (x ∷ xs) h = elim (Bool-cases (p x)) [
  | inl e ↦ (x, ground arith, e)
  | inr e ↦ let (y, m, q) = any-elim p xs (ground arith) in (y, ground arith, q)
]

-- `n` entries from index `i`, as a loop over them reads them.
unfoldable pub slice : List ℕ → ℕ → ℕ → List ℕ
slice xs i zero = []
slice xs i (suc n) = get_or xs i 0 ∷ slice xs (suc i) n

pub slice-append :
    (xs : List ℕ) (i n m : ℕ) → slice xs i n ++ slice xs (i + n) m ≡ slice xs i (n + m)
unfolding slice
slice-append xs i zero m =
    let e : i + 0 ≡ i = omega arith in
    let f : m ≡ 0 + m = omega arith in ap (λ k. slice xs k m) e ∙ ap (slice xs i) f
slice-append xs i (suc n) m =
    let e : i + suc n ≡ suc i + n = omega arith in
    let f : suc (n + m) ≡ suc n + m = omega arith in
    ap (λ k. get_or xs i 0 ∷ (slice xs (suc i) n ++ slice xs k m)) e
    ∙ ap (λ r. get_or xs i 0 ∷ r) (slice-append xs (suc i) n m)
    ∙ ap (slice xs i) f

pub length-slice : (xs : List ℕ) (i n : ℕ) → length (slice xs i n) ≡ n
unfolding slice
length-slice xs i zero = refl
length-slice xs i (suc n) = ap suc (length-slice xs (suc i) n)

pub get_or-slice :
    (xs : List ℕ) (i n k : ℕ) → k < n → get_or (slice xs i n) k 0 ≡ get_or xs (i + k) 0
unfolding slice
get_or-slice xs i zero k h = absurd (omega arith)
get_or-slice xs i (suc n) zero h = ap (λ j. get_or xs j 0) (omega arith)
get_or-slice xs i (suc n) (suc k) h =
    get_or-slice xs (suc i) n k (omega arith) ∙ ap (λ j. get_or xs j 0) (omega arith)
