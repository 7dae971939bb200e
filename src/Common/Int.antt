-- ===== src/Common/Int.antt =====
-- Signed integers over the native numbers (`negsuc n` is -(n + 1)) and their equality test.
use Prim.Native.Nat.{ℕ, ◌+◌, ◌-◌, ◌%◌, ◌<◌}
use mathlib.Core.Path.{◌≡◌}
use mathlib.Core.Logic.{◌↔◌}
use mathlib.Core.Bool.{Bool, true, false}
use native.Mathlib.Omega.{arith}
use graph_accelerator.Common.Tests.{◌==◌, ltb, if◌then◌else◌}

pub data ℤ : Type 0 where
  pos : ℕ → ℤ
  negsuc : ℕ → ℤ

abbrev pub eq_ℤ : ℤ → ℤ → Bool
eq_ℤ (pos a) (pos b) = a == b
eq_ℤ (pos a) (negsuc b) = false
eq_ℤ (negsuc a) (pos b) = false
eq_ℤ (negsuc a) (negsuc b) = a == b

-- The -1 that marks a vertex as unvisited.
abbrev pub minus_one : ℤ
minus_one = negsuc 0

-- The conversion of a number to `char`, which has eight bits and a sign.
abbrev pub to_char : ℕ → ℤ
to_char n = if ltb (n % 256) 128 then pos (n % 256) else negsuc (255 - n % 256)

pub to_char-lt : (n : ℕ) → n < 128 → to_char n ≡ pos n
to_char-lt n h = ground arith

-- The next level never looks like the one before.
pub to_char-next : (n : ℕ) → eq_ℤ (to_char (n + 1)) (pos n) ≡ false
to_char-next n = ground arith

pub eq_ℤ_iff : (a b : ℤ) → (eq_ℤ a b ≡ true) ↔ (a ≡ b)
eq_ℤ_iff a b = ground arith

pub eq_ℤ_refl : (a : ℤ) → eq_ℤ a a ≡ true
eq_ℤ_refl a = ground arith
