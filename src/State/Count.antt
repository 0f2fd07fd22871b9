-- ===== src/State/Count.antt =====
-- state/state.go, `CountBits` and `TrailingZeroBits`: the number of cells, and the lowest cell.
use knighttour.Prelude.{ℕ, zero, suc, ◌/◌, ◌≤◌, ◌<◌, ◌==◌, false}
use knighttour.Prelude.{
  ◌≡◌, refl, sym, ◌∙◌, inl, inr, List, [], ◌∷◌, ◌∈◌, length, arith, Bool-cases,
}
use knighttour.Words.{ones_count}
use knighttour.Words.Digits.{digit, digit-lt}
use knighttour.State.{State, is_empty, count_bits, all_visited, visited_loop, trailing_zero_bits}
use knighttour.State.Bits.{IsWord, is_visited-digit, is_empty-cells}
use knighttour.State.Cells.{
  In, AscendsFrom, all_visited-AscendsFrom, mem-all_visited, length-all_visited,
}

no_members : {A : Type 0} (xs : List A) (x : A) → length xs ≡ 0 → ¬ (x ∈ xs)
no_members [] x e m = m
no_members (y ∷ ys) x e m = absurd (omega arith)

one_member : {A : Type 0} (xs : List A) (x y : A) → length xs ≡ 1 → x ∈ xs → y ∈ xs → x ≡ y
one_member [] x y e m k = absurd m
one_member (z ∷ []) x y e m k = ground arith
one_member (z ∷ w ∷ ws) x y e m k = absurd (omega arith)

visited_loop-head :
    (fuel m : ℕ) → (m == 0) ≡ false → trailing_zero_bits m ∈ visited_loop (suc fuel) m
unfolding visited_loop
visited_loop-head fuel m e = rw e (inl refl)

module _ (s : State) (w : IsWord s) where
  pub count_zero : count_bits s ≡ 0 → (q : ℕ) → ¬ In s q
  count_zero e q i =
      no_members (all_visited s) q (length-all_visited s w ∙ e) ((mem-all_visited s q w).1 i)

  pub count_one : count_bits s ≡ 1 → (q r : ℕ) → In s q → In s r → q ≡ r
  count_one e q r i j =
      let m = mem-all_visited s in
      one_member (all_visited s) q r (length-all_visited s w ∙ e) ((m q w).1 i) ((m r w).1 j)

  -- `TrailingZeroBits` of a state with a cell is a cell.
  pub trailing_zero_bits-In : is_empty s ≡ false → In s (trailing_zero_bits s)
  trailing_zero_bits-In e =
      (mem-all_visited s (trailing_zero_bits s) w).0
        (unfold all_visited in visited_loop-head 63 s (unfold is_empty in e))

  pub In-nonempty : (q : ℕ) → In s q → is_empty s ≡ false
  In-nonempty q (hq, v) = elim (Bool-cases (is_empty s)) [
    | inl e ↦ cc (is_empty-cells s w e q hq)
    | inr e ↦ e
  ]

all_same_length :
    (lo : ℕ) (xs : List ℕ) (n : ℕ)
    → AscendsFrom lo xs
    → n ∈ xs
    → ((q : ℕ) → q ∈ xs → q ≡ n)
    → length xs ≡ 1
all_same_length lo [] n up m same = absurd m
all_same_length lo (x ∷ []) n up m same = refl
all_same_length lo (x ∷ y ∷ ys) n up m same =
    absurd (omega (arith, same x (inl refl), same y (inr (inl refl))))

-- A state with one cell counts 1.
pub single_count :
    (s : State) → IsWord s → (n : ℕ) → In s n → ((q : ℕ) → In s q → q ≡ n) → count_bits s ≡ 1
single_count s w n i same =
    sym (length-all_visited s w)
    ∙ all_same_length 0 (all_visited s) n (all_visited-AscendsFrom s w)
        ((mem-all_visited s n w).1 i) (λ q m. same q ((mem-all_visited s q w).0 m))

-- Fewer ones.
ones_count-le :
    (k x y : ℕ) → ((i : ℕ) → i < k → digit x i ≤ digit y i) → ones_count k x ≤ ones_count k y
unfolding ones_count digit
ones_count-le zero x y h = omega arith
ones_count-le (suc k) x y h =
    omega
      (arith, h 0 (omega arith), ones_count-le k (x / 2) (y / 2) (λ i lt. h (suc i) (omega arith)))

ones_count-lt :
    (k x y j : ℕ)
    → ((i : ℕ) → i < k → digit x i ≤ digit y i)
    → j < k
    → digit x j < digit y j
    → ones_count k x < ones_count k y
unfolding ones_count digit
ones_count-lt zero x y j h lt d = absurd (omega arith)
ones_count-lt (suc k) x y zero h lt d =
    omega (arith, ones_count-le k (x / 2) (y / 2) (λ i l. h (suc i) (omega arith)))
ones_count-lt (suc k) x y (suc j) h lt d = omega (
  arith,
  h 0 (omega arith),
  ones_count-lt k (x / 2) (y / 2) j (λ i l. h (suc i) (omega arith)) (omega arith) d,
)

ones_count-bound : (k x : ℕ) → ones_count k x ≤ k
unfolding ones_count
ones_count-bound zero x = omega arith
ones_count-bound (suc k) x = omega (arith, ones_count-bound k (x / 2))

pub count_bits-bound : (s : State) → count_bits s ≤ 64
unfolding count_bits
count_bits-bound s = ones_count-bound 64 s

-- A larger set has more cells.
pub count_bits-lt :
    (s t : State) (q : ℕ)
    → ((p : ℕ) → In s p → In t p)
    → In t q
    → ¬ In s q
    → count_bits s < count_bits t
unfolding count_bits
count_bits-lt s t q sub (hq, v) out =
    ones_count-lt 64 s t q
      (λ i lt. ground (
        arith,
        sub i,
        is_visited-digit s i lt,
        is_visited-digit t i lt,
        digit-lt s i,
        digit-lt t i,
      ))
      hq
      (ground
        (arith, out, is_visited-digit s q hq, is_visited-digit t q hq, digit-lt s q, digit-lt t q))
