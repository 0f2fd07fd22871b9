-- ===== src/State/Ones.antt =====
-- The loops over the ones of a word, `for m := s; m != 0; m &= m - 1`, of state/state.go and
-- symmetry/symmetry.go.
use Prim.Native.Nat.{bit_and}
use native.Mathlib.Decide.{dec_lt}
use native.Mathlib.Nat.{pow-suc, one-le-pow, mul-pos, lt_of_lt_of_le, pow-le-pow_right}
use knighttour.Prelude.{ℕ, zero, suc, ◌+◌, ◌-◌, ◌*◌, ◌/◌, ◌%◌, ◌^◌, ◌≤◌, ◌<◌}
use knighttour.Prelude.{◌≡◌, refl, sym, ap, ◌∙◌, ◌==◌, if◌then◌else◌, arith}
use knighttour.Prelude.{◌↔◌, inl, inr, Bool-cases, ==→≡, List, [], ◌∷◌, ◌∈◌}
use knighttour.Words.{trailing_zeros}
use knighttour.Words.Digits.{lt-two_pow, digit, digit-bit_and, digit_ext, bit_and-lt_left}

-- The places of the ones among the `k` lowest digits of `s`, counted from `off`.
unfoldable pub ones_at : ℕ → ℕ → ℕ → List ℕ
ones_at zero off s = []
ones_at (suc k) off s =
    let rest = ones_at k (suc off) (s / 2) in if s % 2 == 1 then off ∷ rest else rest

-- `m & (m - 1)` takes the lowest one of an odd number away, and works on the half of an even one.
clear_odd : (m : ℕ) → m % 2 ≡ 1 → bit_and m (m - 1) ≡ m - 1
clear_odd m odd =
    digit_ext m _ _ (bit_and-lt_left m m (m - 1) (lt-two_pow m)) (omega (arith, lt-two_pow m)) same
  where
    same : (i : ℕ) → i < m → digit (bit_and m (m - 1)) i ≡ digit (m - 1) i
    same zero lt = unfold digit in rw (digit-bit_and m (m - 1) 0) (omega arith)
    same (suc i) lt =
        let half : (m - 1) / 2 ≡ m / 2 = omega arith in
        unfold digit in rw (digit-bit_and m (m - 1) (suc i)) (rw half (omega arith))

down : (n : ℕ) → 0 < n → n ≡ suc (n - 1)
down n h = omega arith

clear_even : (m : ℕ) → 0 < m → bit_and (m * 2) (m * 2 - 1) ≡ bit_and m (m - 1) * 2
clear_even m pos =
    digit_ext (m * 2) _ _ (bit_and-lt_left (m * 2) (m * 2) (m * 2 - 1) (lt-two_pow (m * 2))) small
      same
  where
    small : bit_and m (m - 1) * 2 < 2 ^ (m * 2)
    small =
        let fits =
          bit_and-lt_left (m * 2 - 1) m (m - 1)
            (lt_of_lt_of_le (lt-two_pow m) (pow-le-pow_right (omega arith) (omega arith))) in
        omega (arith, pow-suc 2 (m * 2 - 1), ap (λ (t : ℕ). 2 ^ t) (down (m * 2) (omega arith)))

    same :
        (i : ℕ)
        → i < m * 2
        → digit (bit_and (m * 2) (m * 2 - 1)) i ≡ digit (bit_and m (m - 1) * 2) i
    same zero lt = unfold digit in rw (digit-bit_and (m * 2) (m * 2 - 1) 0) (omega arith)
    same (suc i) lt =
        let half : (m * 2 - 1) / 2 ≡ m - 1 = omega arith in
        let back : m * 2 / 2 ≡ m = omega arith in
        let whole : bit_and m (m - 1) * 2 / 2 ≡ bit_and m (m - 1) = omega arith in
        unfold digit in
        rw (digit-bit_and (m * 2) (m * 2 - 1) (suc i))
          (rw (half, back, whole) (sym (digit-bit_and m (m - 1) i)))

twice_pow : (s off : ℕ) → s * 2 ^ suc off ≡ s * 2 ^ off * 2
twice_pow s off = omega (arith, ap (λ (t : ℕ). s * t) (pow-suc 2 off))

clear_shifted :
    (off s : ℕ) → s % 2 ≡ 1 → bit_and (s * 2 ^ off) (s * 2 ^ off - 1) ≡ (s - 1) * 2 ^ off
clear_shifted zero s odd =
    let one : s * 2 ^ 0 ≡ s = omega arith in rw one (clear_odd s odd ∙ omega arith)
clear_shifted (suc off) s odd =
    let pos : 0 < s * 2 ^ off = mul-pos (omega arith) (one-le-pow off 2 (omega arith)) in
    rw (twice_pow s off)
      (clear_even (s * 2 ^ off) pos ∙ rw (clear_shifted off s odd) (sym (twice_pow (s - 1) off)))

pub trailing_zeros-shifted :
    (off k s : ℕ) → off < k → s % 2 ≡ 1 → trailing_zeros k (s * 2 ^ off) ≡ off
unfolding trailing_zeros
trailing_zeros-shifted off zero s h odd = absurd (omega arith)
trailing_zeros-shifted zero (suc k) s h odd = ground arith
trailing_zeros-shifted (suc off) (suc k) s h odd =
    let half : s * 2 ^ suc off / 2 ≡ s * 2 ^ off = omega (arith, twice_pow s off) in
    let even : s * 2 ^ suc off % 2 ≡ 0 = omega (arith, twice_pow s off) in
    rw (even, half) (ground (arith, trailing_zeros-shifted off k s))

-- A round of a loop at a word whose remaining digits are those of `s`, moved up by `off` places.
pub clear_lowest :
    (off s : ℕ) → s % 2 ≡ 1 → bit_and (s * 2 ^ off) (s * 2 ^ off - 1) ≡ s / 2 * 2 ^ suc off
clear_lowest off s odd =
    let even_part : s - 1 ≡ s / 2 * 2 = omega arith in
    clear_shifted off s odd
    ∙ omega (arith, twice_pow (s / 2) off, ap (λ (t : ℕ). t * 2 ^ off) even_part)

pub skip_zero : (off s : ℕ) → s % 2 ≡ 0 → s * 2 ^ off ≡ s / 2 * 2 ^ suc off
skip_zero off s even =
    let whole : s ≡ s / 2 * 2 = omega arith in
    omega (arith, twice_pow (s / 2) off, ap (λ (t : ℕ). t * 2 ^ off) whole)

pub shifted_pos : (off s : ℕ) → s % 2 ≡ 1 → 0 < s * 2 ^ off
shifted_pos off s odd = mul-pos (omega arith) (one-le-pow off 2 (omega arith))

digit-next : (off s q : ℕ) → suc off ≤ q → digit s (q - off) ≡ digit (s / 2) (q - suc off)
digit-next off s q h =
    let e : q - off ≡ suc (q - suc off) = omega arith in rw e (unfold digit in refl)

digit-first : (off s q : ℕ) → q ≡ off → digit s (q - off) ≡ s % 2
digit-first off s q h = let e : q - off ≡ 0 = omega arith in rw e (unfold digit in refl)

digit-here :
    (off s q k : ℕ)
    → suc off ≤ q
    → q < suc off + k
    → digit (s / 2) (q - suc off) ≡ 1
    → (off ≤ q) × (q < off + suc k) × (digit s (q - off) ≡ 1)
digit-here off s q k a b c = (omega arith, omega arith, digit-next off s q a ∙ c)

pub mem-ones_at :
    (k off s q : ℕ) → (q ∈ ones_at k off s) ↔ ((off ≤ q) × (q < off + k) × (digit s (q - off) ≡ 1))
unfolding ones_at
mem-ones_at zero off s q = (λ m. absurd m, λ h. absurd (omega arith))
mem-ones_at (suc k) off s q =
    let rest = mem-ones_at k (suc off) (s / 2) q in
    let next = digit-next off s q in
    let later = λ (h : suc off ≤ q) (lt : q < off + suc k) (d : digit s (q - off) ≡ 1).
      rest.1 (h, omega arith, sym (next h) ∙ d) in
    let back = λ (m : q ∈ ones_at k (suc off) (s / 2)).
      let (a, b, c) = rest.0 m in digit-here off s q k a b c in
    elim (Bool-cases (s % 2 == 1)) [
      | inl odd ↦ rw odd (
        elim [
          | inl e ↦ (omega arith, omega arith, digit-first off s q e ∙ ==→≡ (s % 2) 1 odd)
          | inr m ↦ back m
        ],
        λ h. elim (dec_lt off q) [ yes lt ↦ inr (later lt h.1 h.2) | no ge ↦ inl (omega arith) ],
      )
      | inr even ↦ rw even (
        back,
        λ h. elim (dec_lt off q) [
          | yes lt ↦ later lt h.1 h.2
          | no ge ↦ absurd (ground (arith, digit-first off s q))
        ],
      )
    ]

pub mem-ones : (k s q : ℕ) → (q ∈ ones_at k 0 s) ↔ ((q < k) × (digit s q ≡ 1))
mem-ones k s q =
    let e : q - 0 ≡ q = omega arith in
    let m = rw e at (mem-ones_at k 0 s q) in
    (
      λ i. let (a, b, c) = m.0 i in (omega arith, c),
      λ h. m.1 (omega arith, omega (arith, h.0), h.1),
    )

-- A loop over the ones of a word of `w` bits that updates a value at each, with `fuel` rounds.
module _ {ℓ} {A : Type ℓ} (w : ℕ) (step : ℕ → A → A) where
  unfoldable pub ones_loop : ℕ → ℕ → A → A
  ones_loop zero m a = a
  ones_loop (suc fuel) m a =
      let rest = ones_loop fuel (bit_and m (m - 1)) (step (trailing_zeros w m) a) in
      if m == 0 then a else rest

  abbrev pub each : List ℕ → A → A
  each [] a = a
  each (t ∷ ts) a = each ts (step t a)

  pub ones_loop-each :
      (k off s f : ℕ) (a : A)
      → s < 2 ^ k
      → off + k ≤ w
      → k ≤ f
      → ones_loop f (s * 2 ^ off) a ≡ each (ones_at k off s) a
  unfolding ones_loop ones_at
  ones_loop-each zero off s zero a h l e = refl
  ones_loop-each zero off s (suc f) a h l e =
      let none : s ≡ 0 = omega arith in rw none (ground arith)
  ones_loop-each (suc k) off s zero a h l e = absurd (omega arith)
  ones_loop-each (suc k) off s (suc f) a h l e =
      let small : s / 2 < 2 ^ k = omega (arith, pow-suc 2 k) in
      elim (Bool-cases (s % 2 == 1)) [
        | inl odd ↦
            let is_odd = ==→≡ (s % 2) 1 odd in
            let pos = shifted_pos off s is_odd in
            rw
              (
                odd,
                clear_lowest off s is_odd,
                trailing_zeros-shifted off w s (omega arith) is_odd,
                ones_loop-each k (suc off) (s / 2) f (step off a) small (omega arith) (omega arith),
              )
              (ground arith)
        | inr even ↦ rw even (
            rw (skip_zero off s (ground arith))
              (ones_loop-each k (suc off) (s / 2) (suc f) a small (omega arith) (omega arith)))
      ]
