-- ===== src/Common/Select.antt =====
-- The indices that pass a test, in order: what a scanning loop pushes into its vector.
use Prim.Native.Nat.{ℕ, zero, suc, ◌+◌, ◌≤◌, ◌<◌}
use mathlib.Core.Path.{◌≡◌}
use mathlib.Core.Logic.{◌↔◌, inl, inr}
use mathlib.Core.Bool.{Bool, true}
use mathlib.Core.List.{List, [], ◌∷◌, ◌++◌, append_assoc, append-nil}
use native.Mathlib.Omega.{arith}
use graph_accelerator.Common.Tests.{if◌then◌else◌, Bool-cases}
use graph_accelerator.Common.Lists.{contains}
use graph_accelerator.Common.Loop.{for_range}

unfoldable pub select : ℕ → ℕ → (ℕ → Bool) → List ℕ
select zero i p = []
select (suc n) i p = if p i then i ∷ select n (suc i) p else select n (suc i) p

pub contains-select :
    (n i v : ℕ) (p : ℕ → Bool)
    → (contains v (select n i p) ≡ true) ↔ ((i ≤ v) × (v < i + n) × (p v ≡ true))
unfolding select contains
contains-select zero i v p = ground arith
contains-select (suc n) i v p = ground (arith, contains-select n (suc i) v p)

module _ {ℓ} {S : Type ℓ} (items : S → List ℕ) (test : ℕ → Bool) (body : ℕ → S → S) where
  -- A loop that pushes the indices that pass a test.
  pub for_range-select :
      ((k : ℕ) (s : S) → items (body k s) ≡ (if test k then items s ++ k ∷ [] else items s))
      → (n i : ℕ) (s : S) → items (for_range n i body s) ≡ items s ++ select n i test
  unfolding for_range select
  for_range-select push zero i s = rw append-nil
  for_range-select push (suc n) i s = elim (Bool-cases (test i)) [
    | inl e ↦
        rw (for_range-select push n (suc i) (body i s), push i s, e)
          (append_assoc (items s) (i ∷ []) (select n (suc i) test))
    | inr e ↦ rw (for_range-select push n (suc i) (body i s), push i s, e)
  ]
