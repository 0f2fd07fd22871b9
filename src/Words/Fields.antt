-- ===== src/Words/Fields.antt =====
-- Bit fields as arithmetic: `|` of fields that do not overlap is a sum, `&` with a low mask a
-- remainder.
use Prim.Native.Nat.{bit_and, bit_or}
use native.Mathlib.Nat.{pow-suc, one-le-pow, mod-lt, div-add-mod', pow-le-pow_right, lt_of_lt_of_le}
use knighttour.Prelude.{ℕ, zero, suc, ◌+◌, ◌-◌, ◌*◌, ◌/◌, ◌%◌, ◌^◌, ◌<◌}
use knighttour.Prelude.{◌≡◌, refl, ap, ltb, if◌then◌else◌, arith}
use knighttour.Words.Digits.{
  digit, digit-lt, digit-zero, digit-bit_or, digit-bit_and, digit-high, digit-complement, digit_ext,
  bit_or-lt, bit_and-lt_left, lt-two_pow,
}

scale : (q k : ℕ) → q * 2 ^ suc k ≡ q * 2 ^ k * 2
scale q k = omega (arith, ap (λ (t : ℕ). q * t) (pow-suc 2 k))

-- The digits of a number with `k` low digits `r` and the rest `q`.
pub digit-fields :
    (k q r i : ℕ)
    → r < 2 ^ k
    → digit (q * 2 ^ k + r) i ≡ (if ltb i k then digit r i else digit q (i - k))
unfolding digit
digit-fields zero q r i h =
    let e : q * 2 ^ 0 + r ≡ q = omega arith in
    let same : i - 0 ≡ i = omega arith in rw (e, same) (ground arith)
digit-fields (suc k) q r zero h = ground (arith, scale q k)
digit-fields (suc k) q r (suc i) h =
    let half : (q * 2 ^ suc k + r) / 2 ≡ q * 2 ^ k + r / 2 = omega (arith, scale q k) in
    let same : suc i - suc k ≡ i - k = omega arith in
    rw (half, same) (ground (arith, digit-fields k q (r / 2) i (omega (arith, pow-suc 2 k))))

pub bit_or_fields : (k q r : ℕ) → r < 2 ^ k → bit_or (q * 2 ^ k) r ≡ q * 2 ^ k + r
bit_or_fields k q r h = digit_ext n _ _ fits (omega (arith, lt-two_pow (q * 2 ^ k + r))) same
  where
    n : ℕ
    n = q * 2 ^ k + r

    wide : 2 ^ (q * 2 ^ k + r) ≡ 2 ^ n
    wide = refl

    fits : bit_or (q * 2 ^ k) r < 2 ^ n
    fits =
        bit_or-lt n (q * 2 ^ k) r
          (lt_of_lt_of_le (lt-two_pow (q * 2 ^ k)) (pow-le-pow_right (omega arith) (omega arith)))
          (lt_of_lt_of_le (lt-two_pow r) (pow-le-pow_right (omega arith) (omega arith)))

    none : q * 2 ^ k ≡ q * 2 ^ k + 0
    none = omega arith

    same : (i : ℕ) → i < n → digit (bit_or (q * 2 ^ k) r) i ≡ digit (q * 2 ^ k + r) i
    same i lt = ground (
      arith,
      digit-bit_or (q * 2 ^ k) r i,
      ap (λ (t : ℕ). digit t i) none,
      digit-fields k q 0 i (one-le-pow k 2 (omega arith)),
      digit-fields k q r i h,
      digit-zero i,
      digit-high k r i h,
    )

pub bit_and_mask : (k x : ℕ) → bit_and x (2 ^ k - 1) ≡ x % 2 ^ k
bit_and_mask k x = digit_ext x _ _ (bit_and-lt_left x x (2 ^ k - 1) (lt-two_pow x)) small same
  where
    pos : 0 < 2 ^ k
    pos = one-le-pow k 2 (omega arith)

    split : x / 2 ^ k * 2 ^ k + x % 2 ^ k ≡ x
    split = div-add-mod' x (2 ^ k)

    small : x % 2 ^ k < 2 ^ x
    small = omega (arith, lt-two_pow x, split)

    same : (i : ℕ) → i < x → digit (bit_and x (2 ^ k - 1)) i ≡ digit (x % 2 ^ k) i
    same i lt = ground (
      arith,
      digit-bit_and x (2 ^ k - 1) i,
      ap (λ (t : ℕ). digit t i) split,
      digit-fields k (x / 2 ^ k) (x % 2 ^ k) i (mod-lt x pos),
      digit-complement k 0 i pos,
      digit-zero i,
      digit-high k (2 ^ k - 1) i (omega (arith, pos)),
      digit-high k (x % 2 ^ k) i (mod-lt x pos),
      digit-lt x i,
    )
