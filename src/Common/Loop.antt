-- ===== src/Common/Loop.antt =====
-- Counted loops, and their invariant rule.
use Prim.Native.Nat.{ℕ, zero, suc, ◌+◌, ◌<◌}
use mathlib.Core.Path.{◌≡◌, subst}
use native.Mathlib.Omega.{arith}
use graph_accelerator.Common.Tests.{if◌then◌else◌, ◌==◌}

-- `for (k = i; k < i + n; k++) s = body k s`
unfoldable pub for_range {ℓ} : {S : Type ℓ} → ℕ → ℕ → (ℕ → S → S) → S → S
for_range zero k body t = t
for_range (suc n) k body t = for_range n (suc k) body (body k t)

pub for_range_inv {ℓ κ} :
    {S : Type ℓ} (Inv : ℕ → S → Type κ) (stop : ℕ) (body : ℕ → S → S)
    → ((k : ℕ) (t : S) → k < stop → Inv k t → Inv (suc k) (body k t))
    → (n k : ℕ) (t : S) → k + n ≡ stop
    → Inv k t
    → Inv stop (for_range n k body t)
unfolding for_range
for_range_inv Inv stop body keep zero k t e now = subst (λ j. Inv j t) (omega arith) now
for_range_inv Inv stop body keep (suc n) k t e now =
    let later = keep k t (omega arith) now in
    for_range_inv Inv stop body keep n (suc k) (body k t) (omega arith) later

-- An array or a map with one entry replaced.
abbrev pub update {ℓ} : {A : Type ℓ} → (ℕ → A) → ℕ → A → ℕ → A
update f i a j = if i == j then a else f j
