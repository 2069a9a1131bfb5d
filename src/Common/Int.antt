-- ===== src/Common/Int.antt =====
-- Signed integers over the native numbers, under the library's names.
use Prim.Native.Nat.{ℕ}
use mathlib.Core.Path.{◌≡◌}
use mathlib.Core.Bool.{Bool, true, false}
use native.Mathlib.Omega.{arith}
use custom_public_library_rl.Common.Tests.{◌==◌}

-- `negsuc n` is -(n + 1).
pub data ℤ : Type 0 where
  pos : ℕ → ℤ
  negsuc : ℕ → ℤ

infix 50 ◌==ℤ◌
abbrev pub ◌==ℤ◌ : ℤ → ℤ → Bool
◌==ℤ◌ (pos a) (pos b) = a == b
◌==ℤ◌ (pos a) (negsuc b) = false
◌==ℤ◌ (negsuc a) (pos b) = false
◌==ℤ◌ (negsuc a) (negsuc b) = a == b

pub ==ℤ_refl : (a : ℤ) → ◌==ℤ◌ a a ≡ true
==ℤ_refl (pos a) = ground arith
==ℤ_refl (negsuc a) = ground arith

pub ==ℤ→eq : (a b : ℤ) → ◌==ℤ◌ a b ≡ true → a ≡ b
==ℤ→eq (pos a) (pos b) h = ground arith
==ℤ→eq (pos a) (negsuc b) h = ground arith
==ℤ→eq (negsuc a) (pos b) h = ground arith
==ℤ→eq (negsuc a) (negsuc b) h = ground arith
