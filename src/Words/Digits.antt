-- ===== src/Words/Digits.antt =====
-- The binary digits of a number, lowest first, and how `&`, `|`, complement and powers of two
-- act on them. Two words with the same digits are equal.
use Prim.Native.Nat.{digits, bit_and, bit_or, bit_and-bitwise, bit_or-bitwise}
use native.Mathlib.Nat.{pow-suc, one-le-pow}
use knighttour.Prelude.{ℕ, zero, suc, ◌+◌, ◌-◌, ◌*◌, ◌/◌, ◌%◌, ◌^◌, ◌≤◌, ◌<◌, min, max}
use knighttour.Prelude.{◌≡◌, refl, ◌==◌, if◌then◌else◌, arith}

unfoldable pub digit : ℕ → ℕ → ℕ
digit x zero = x % 2
digit x (suc i) = digit (x / 2) i

pub digit-lt : (x i : ℕ) → digit x i < 2
unfolding digit
digit-lt x zero = omega arith
digit-lt x (suc i) = digit-lt (x / 2) i

pub digit-zero : (i : ℕ) → digit 0 i ≡ 0
unfolding digit
digit-zero zero = refl
digit-zero (suc i) = digit-zero i

-- An operation on pairs of digits, read off one place.
digit-digits :
    (z : ℕ → ℕ) (f : ℕ → ℕ → ℕ)
    → ((b i : ℕ) → digit (z b) i ≡ f 0 (digit b i))
    → ((x y : ℕ) → x < 2 → y < 2 → f x y < 2)
    → (n a b i : ℕ) → a ≤ n
    → digit (digits z f n a b) i ≡ f (digit a i) (digit b i)
unfolding digit
digit-digits z f hz small zero zero b i h = rw (digit-zero i) (hz b i)
digit-digits z f hz small zero (suc a) b i h = absurd (omega arith)
digit-digits z f hz small (suc n) zero b i h = rw (digit-zero i) (hz b i)
digit-digits z f hz small (suc n) (suc a) b zero h =
    let r = small (suc a % 2) (b % 2) (omega arith) (omega arith) in omega arith
digit-digits z f hz small (suc n) (suc a) b (suc i) h =
    let r = small (suc a % 2) (b % 2) (omega arith) (omega arith) in
    let D = digits z f n (suc a / 2) (b / 2) in
    let halves : (D * 2 + f (suc a % 2) (b % 2)) / 2 ≡ D = omega arith in
    rw halves (digit-digits z f hz small n (suc a / 2) (b / 2) i (omega arith))

pub digit-bit_or : (a b i : ℕ) → digit (bit_or a b) i ≡ max (digit a i) (digit b i)
digit-bit_or a b i =
    rw (bit_or-bitwise a b) (
      digit-digits (λ y. y) max (λ c j. omega arith) (λ x y p q. omega arith) a a b i (omega arith))

pub digit-bit_and : (a b i : ℕ) → digit (bit_and a b) i ≡ min (digit a i) (digit b i)
digit-bit_and a b i = rw (bit_and-bitwise a b) (
    digit-digits (λ y. 0) min (λ c j. omega (arith, digit-zero j)) (λ x y p q. omega arith) a a b i
      (omega arith))

-- The only digit of a power of two.
pub digit-pow : (p i : ℕ) → digit (2 ^ p) i ≡ (if p == i then 1 else 0)
unfolding digit
digit-pow zero zero = refl
digit-pow zero (suc i) = ground (arith, digit-zero i)
digit-pow (suc p) zero = ground (arith, pow-suc 2 p)
digit-pow (suc p) (suc i) =
    let half : 2 ^ suc p / 2 ≡ 2 ^ p = omega (arith, pow-suc 2 p) in
    rw half (ground (arith, digit-pow p i))

-- The digits above the width are 0.
pub digit-high : (k x i : ℕ) → x < 2 ^ k → k ≤ i → digit x i ≡ 0
unfolding digit
digit-high zero x i h le = let none : x ≡ 0 = omega arith in rw none (digit-zero i)
digit-high (suc k) x zero h le = absurd (omega arith)
digit-high (suc k) x (suc i) h le =
    digit-high k (x / 2) i (omega (arith, pow-suc 2 k)) (omega arith)

-- The complement within a width.
pub digit-complement : (k x i : ℕ) → x < 2 ^ k → i < k → digit (2 ^ k - 1 - x) i ≡ 1 - digit x i
unfolding digit
digit-complement zero x i h lt = absurd (omega arith)
digit-complement (suc k) x zero h lt = omega (arith, pow-suc 2 k)
digit-complement (suc k) x (suc i) h lt =
    let half : (2 ^ suc k - 1 - x) / 2 ≡ 2 ^ k - 1 - x / 2 = omega (arith, pow-suc 2 k) in
    rw half (digit-complement k (x / 2) i (omega (arith, pow-suc 2 k)) (omega arith))

-- Words with the same digits are equal.
pub digit_ext :
    (k x y : ℕ) → x < 2 ^ k → y < 2 ^ k → ((i : ℕ) → i < k → digit x i ≡ digit y i) → x ≡ y
unfolding digit
digit_ext zero x y hx hy same = omega arith
digit_ext (suc k) x y hx hy same =
    let low : x % 2 ≡ y % 2 = same 0 (omega arith) in
    let rest =
      digit_ext k (x / 2) (y / 2) (omega (arith, pow-suc 2 k)) (omega (arith, pow-suc 2 k))
        (λ i h. same (suc i) (omega arith)) in
    omega arith

-- A number all of whose digits from `k` on are 0 fits `k` digits.
lt_of_digits_below : (n k x : ℕ) → x < 2 ^ n → ((i : ℕ) → k ≤ i → digit x i ≡ 0) → x < 2 ^ k
unfolding digit
lt_of_digits_below zero zero x h z = omega arith
lt_of_digits_below zero (suc k) x h z = omega (arith, h, one-le-pow (suc k) 2)
lt_of_digits_below (suc n) zero x h z =
    let low : x % 2 ≡ 0 = z 0 (omega arith) in
    let rest =
      lt_of_digits_below n 0 (x / 2) (omega (arith, pow-suc 2 n))
        (λ i le. z (suc i) (omega arith)) in
    omega arith
lt_of_digits_below (suc n) (suc k) x h z =
    let rest =
      lt_of_digits_below n k (x / 2) (omega (arith, pow-suc 2 n))
        (λ i le. z (suc i) (omega arith)) in
    omega (arith, pow-suc 2 k)

pub lt-two_pow : (x : ℕ) → x < 2 ^ x
lt-two_pow zero = omega arith
lt-two_pow (suc x) = omega (arith, pow-suc 2 x, lt-two_pow x)

pub lt_of_digits : (k x : ℕ) → ((i : ℕ) → k ≤ i → digit x i ≡ 0) → x < 2 ^ k
lt_of_digits k x z = lt_of_digits_below x k x (lt-two_pow x) z

pub bit_or-lt : (k a b : ℕ) → a < 2 ^ k → b < 2 ^ k → bit_or a b < 2 ^ k
bit_or-lt k a b ha hb =
    lt_of_digits k (bit_or a b)
      λ i le. omega (arith, digit-bit_or a b i, digit-high k a i ha le, digit-high k b i hb le)

-- One bounded side is enough for `&`.
pub bit_and-lt_left : (k a b : ℕ) → a < 2 ^ k → bit_and a b < 2 ^ k
bit_and-lt_left k a b ha =
    lt_of_digits k (bit_and a b) λ i le. omega (arith, digit-bit_and a b i, digit-high k a i ha le)

pub bit_and-lt_right : (k a b : ℕ) → b < 2 ^ k → bit_and a b < 2 ^ k
bit_and-lt_right k a b hb =
    lt_of_digits k (bit_and a b) λ i le. omega (arith, digit-bit_and a b i, digit-high k b i hb le)
