-- ===== src/Prelude/Int.antt =====
-- The part of Go's signed `int` that the program uses: a cell's coordinate moved by an offset.
use Prim.Native.Nat.{ℕ, ◌+◌, ◌-◌}
use mathlib.Core.Bool.{Bool, false}
use knighttour.Prelude.Tests.{ltb, if◌then◌else◌}
use Prim.Native.Nat.{suc}

-- `negsuc n` is -(n + 1).
pub data ℤ : Type 0 where
  pos : ℕ → ℤ
  negsuc : ℕ → ℤ

-- `x + d` for a coordinate `x`.
abbrev pub add_offset : ℕ → ℤ → ℤ
add_offset x (pos n) = pos (x + n)
add_offset x (negsuc n) = if ltb n x then pos (x - suc n) else negsuc (n - x)

-- `v >= 0 && v < size`.
abbrev pub in_range : ℤ → ℕ → Bool
in_range (pos n) size = ltb n size
in_range (negsuc n) size = false

-- The value of an integer that is not negative.
abbrev pub to_ℕ : ℤ → ℕ
to_ℕ (pos n) = n
to_ℕ (negsuc n) = 0
