-- ===== src/Prelude/Int.antt =====
-- Signed integers, and their order as a test. `negsuc n` is -(n + 1).
use Prim.Native.Nat.{ℕ, ◌≤◌}
use mathlib.Core.Bool.{Bool, true, false}
use xiaozhi_esp32_golang_ser.Prelude.Tests.{ltb}

pub data ℤ : Type 0 where
  pos : ℕ → ℤ
  negsuc : ℕ → ℤ

unfoldable pub lt_ℤ : ℤ → ℤ → Bool
lt_ℤ (pos a) (pos b) = ltb a b
lt_ℤ (pos a) (negsuc b) = false
lt_ℤ (negsuc a) (pos b) = true
lt_ℤ (negsuc a) (negsuc b) = ltb b a

-- A number from `lo` to `hi`.
pub data Between (lo hi : ℕ) : ℤ → Type 0 where
  between : {n : ℕ} → lo ≤ n → n ≤ hi → Between lo hi (pos n)
