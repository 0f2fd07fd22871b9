-- ===== src/Words.antt =====
-- The machine words of the program: binary digits of a `uint64`, and what `math/bits` computes.
-- A word is a native number below 2 ^ 64.
pub mod Digits
pub mod Fields
use knighttour.Prelude.{ℕ, zero, suc, ◌+◌, ◌-◌, ◌/◌, ◌%◌, ◌^◌, ◌==◌, if◌then◌else◌}

abbrev pub word_mod : ℕ
word_mod = 2 ^ 64

-- `1 << pos` in a `uint64`: a shift by 64 or more gives 0.
unfoldable pub shl_one : ℕ → ℕ
shl_one pos = 2 ^ pos % word_mod

-- `^x` in a `uint64`.
unfoldable pub complement : ℕ → ℕ
complement x = word_mod - 1 - x

-- `bits.OnesCount64`, `bits.TrailingZeros64` (64 at 0) and `bits.Len64`, digit by digit.
unfoldable pub ones_count : ℕ → ℕ → ℕ
ones_count zero x = 0
ones_count (suc k) x = x % 2 + ones_count k (x / 2)

unfoldable pub trailing_zeros : ℕ → ℕ → ℕ
trailing_zeros zero x = 0
trailing_zeros (suc k) x = if x % 2 == 1 then 0 else suc (trailing_zeros k (x / 2))

unfoldable pub len : ℕ → ℕ → ℕ
len zero x = 0
len (suc k) x = if x == 0 then 0 else suc (len k (x / 2))
