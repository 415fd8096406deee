-- ===== src/Prelude/Int.antt =====
-- Signed integers over the native numbers: the values that the program passes on or compares with 0.
use Prim.Native.Nat.{ℕ}
use mathlib.Core.Path.{◌≡◌}
use mathlib.Core.Logic.{◌↔◌}
use mathlib.Core.Bool.{Bool, true, false}
use native.Mathlib.Omega.{arith}
use claude_chakra.Prelude.Tests.{◌==◌, ==_iff}

-- `negsuc n` is -(n + 1).
pub data ℤ : Type 0 where
  pos : ℕ → ℤ
  negsuc : ℕ → ℤ

-- max(0, x).
abbrev pub pos_part : ℤ → ℕ
pos_part (pos n) = n
pos_part (negsuc n) = 0

abbrev pub eqℤ : ℤ → ℤ → Bool
eqℤ (pos a) (pos b) = a == b
eqℤ (negsuc a) (negsuc b) = a == b
eqℤ _ _ = false

pub eqℤ_iff : (a b : ℤ) → (eqℤ a b ≡ true) ↔ (a ≡ b)
eqℤ_iff (pos a) (pos b) = ground (arith, ==_iff a b)
eqℤ_iff (negsuc a) (negsuc b) = ground (arith, ==_iff a b)
eqℤ_iff (pos a) (negsuc b) = (λ h. cc, λ h. cc)
eqℤ_iff (negsuc a) (pos b) = (λ h. cc, λ h. cc)
