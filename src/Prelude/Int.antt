-- ===== src/Prelude/Int.antt =====
-- An `int` whose range a model writes out where it matters.
use Prim.Native.Nat.{ℕ}
use mathlib.Core.Bool.{Bool, false}
use cpp_util.Prelude.Tests.{◌==◌}

-- `negsuc n` is -(n + 1).
pub data ℤ : Type 0 where
  pos : ℕ → ℤ
  negsuc : ℕ → ℤ

infix 50 ◌==ℤ◌
abbrev pub ◌==ℤ◌ : ℤ → ℤ → Bool
pos m ==ℤ pos n = m == n
negsuc m ==ℤ negsuc n = m == n
pos m ==ℤ negsuc n = false
negsuc m ==ℤ pos n = false
