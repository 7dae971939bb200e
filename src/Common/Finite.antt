-- ===== src/Common/Finite.antt =====
-- Tests of all numbers below a bound, and of all members of a list.
use Prim.Native.Nat.{ℕ, zero, suc, ◌<◌}
use mathlib.Core.Path.{◌≡◌}
use mathlib.Core.Bool.{Bool, true, ◌&&◌}
use mathlib.Core.List.{List, [], ◌∷◌}
use native.Mathlib.Omega.{arith}
use graph_accelerator.Common.Lists.{contains}
use Prim.Native.Nat.{◌+◌, ◌≤◌}
use graph_accelerator.Common.Tests.{◌==◌, Bool-cases}
use mathlib.Core.Logic.{inl, inr}

-- All of `i, …, i + n - 1`.
unfoldable pub all_from : ℕ → ℕ → (ℕ → Bool) → Bool
all_from i zero test = true
all_from i (suc n) test = test i && all_from (suc i) n test

all_from_sound :
    (n i k : ℕ) (test : ℕ → Bool) → all_from i n test ≡ true → i ≤ k → k < i + n → test k ≡ true
unfolding all_from
all_from_sound zero i k test ok low high = absurd (omega arith)
all_from_sound (suc n) i k test ok low high = elim (Bool-cases (k == i)) [
  | inl e ↦ let at : k ≡ i = ground arith in let first : test i ≡ true = ground arith in rw at first
  | inr e ↦ all_from_sound n (suc i) k test (ground arith) (ground arith) (omega arith)
]

abbrev pub all_below : ℕ → (ℕ → Bool) → Bool
all_below = all_from 0

pub all_below_sound :
    (n : ℕ) (test : ℕ → Bool) (k : ℕ) → all_below n test ≡ true → k < n → test k ≡ true
all_below_sound n test k ok high = all_from_sound n 0 k test ok (omega arith) (omega arith)

unfoldable pub all_in : (ℕ → Bool) → List ℕ → Bool
all_in p [] = true
all_in p (x ∷ xs) = p x && all_in p xs

pub all_in_sound :
    (p : ℕ → Bool) (xs : List ℕ) (x : ℕ) → all_in p xs ≡ true → contains x xs ≡ true → p x ≡ true
unfolding all_in contains
all_in_sound p [] x h m = cc
all_in_sound p (y ∷ xs) x h m = ground (arith, all_in_sound p xs x)
