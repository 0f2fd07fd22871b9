-- ===== src/State/Cells.antt =====
-- state/state.go, `AllVisited` and `CountBits`: the cells of a state as a list.
use native.Mathlib.Nat.{pow-suc}
use knighttour.Prelude.{ℕ, zero, suc, ◌+◌, ◌-◌, ◌*◌, ◌/◌, ◌%◌, ◌^◌, ◌≤◌, ◌<◌}
use knighttour.Prelude.{◌≡◌, refl, ap, ◌∙◌, ◌==◌, true, arith}
use knighttour.Prelude.{◌↔◌, inl, inr, Bool-cases, ==→≡, List, [], ◌∷◌, ◌∈◌, length}
use knighttour.Words.{ones_count}
use knighttour.Words.Digits.{digit}
use knighttour.State.{State, is_visited, all_visited, visited_loop, trailing_zero_bits, count_bits}
use knighttour.State.Bits.{IsWord, is_visited-digit}
use knighttour.State.Ones.{
  ones_at, trailing_zeros-shifted, clear_lowest, skip_zero, shifted_pos, mem-ones_at,
}

-- The loop at a word whose remaining digits are those of `s`, moved up by `off` places.
visited_loop-ones_at :
    (k off s f : ℕ)
    → s < 2 ^ k
    → off + k ≤ 64
    → k ≤ f
    → visited_loop f (s * 2 ^ off) ≡ ones_at k off s
unfolding visited_loop ones_at trailing_zero_bits
visited_loop-ones_at zero off s zero h w e = refl
visited_loop-ones_at zero off s (suc f) h w e =
    let none : s ≡ 0 = omega arith in rw none (ground arith)
visited_loop-ones_at (suc k) off s zero h w e = absurd (omega arith)
visited_loop-ones_at (suc k) off s (suc f) h w e =
    let small : s / 2 < 2 ^ k = omega (arith, pow-suc 2 k) in
    elim (Bool-cases (s % 2 == 1)) [
      | inl odd ↦
          let is_odd = ==→≡ (s % 2) 1 odd in
          let pos = shifted_pos off s is_odd in
          rw
            (
              odd,
              clear_lowest off s is_odd,
              trailing_zeros-shifted off 64 s (omega arith) is_odd,
              visited_loop-ones_at k (suc off) (s / 2) f small (omega arith) (omega arith),
            )
            (ground arith)
      | inr even ↦ rw even (
          rw (skip_zero off s (ground arith))
            (visited_loop-ones_at k (suc off) (s / 2) (suc f) small (omega arith) (omega arith)))
    ]

all_visited-ones_at : (s : State) → IsWord s → all_visited s ≡ ones_at 64 0 s
unfolding all_visited
all_visited-ones_at s h =
    let one : s * 2 ^ 0 ≡ s = omega arith in
    rw one at (visited_loop-ones_at 64 0 s 64 h (omega arith) (omega arith))

-- A cell of a state.
abbrev pub In : State → ℕ → Type 0
In u q = (q < 64) × (is_visited u q ≡ true)

-- Strictly ascending, from `lo` on.
abbrev pub AscendsFrom : ℕ → List ℕ → Type 0
AscendsFrom lo [] = Unit
AscendsFrom lo (x ∷ xs) = (lo ≤ x) × AscendsFrom (suc x) xs

AscendsFrom-weaken : (lo : ℕ) (xs : List ℕ) → AscendsFrom (suc lo) xs → AscendsFrom lo xs
AscendsFrom-weaken lo [] a = a
AscendsFrom-weaken lo (x ∷ xs) a = (omega arith, a.1)

ones_at-AscendsFrom : (k off s : ℕ) → AscendsFrom off (ones_at k off s)
unfolding ones_at
ones_at-AscendsFrom zero off s = tt
ones_at-AscendsFrom (suc k) off s =
    let rest = ones_at-AscendsFrom k (suc off) (s / 2) in
    elim (Bool-cases (s % 2 == 1)) [
      | inl odd ↦ rw odd (omega arith, rest)
      | inr even ↦ rw even (AscendsFrom-weaken off _ rest)
    ]

length-ones_at : (k off s : ℕ) → length (ones_at k off s) ≡ ones_count k s
unfolding ones_at ones_count
length-ones_at zero off s = refl
length-ones_at (suc k) off s = ground (arith, length-ones_at k (suc off) (s / 2))

-- The cells of a state are yielded in strictly ascending order.
pub all_visited-AscendsFrom : (s : State) → IsWord s → AscendsFrom 0 (all_visited s)
all_visited-AscendsFrom s h = rw (all_visited-ones_at s h) (ones_at-AscendsFrom 64 0 s)

pub mem-all_visited : (s : State) (q : ℕ) → IsWord s → (q ∈ all_visited s) ↔ In s q
mem-all_visited s q h =
    let m = rw (← all_visited-ones_at s h) at (mem-ones_at 64 0 s q) in
    let e : q - 0 ≡ q = omega arith in
    (
      λ i.
          let (a, b, c) = m.0 i in
          (omega arith, is_visited-digit s q (omega arith) ∙ ground (arith, ap (digit s) e)),
      λ (lt, v).
          m.1 (omega arith, omega arith, ground (arith, is_visited-digit s q lt, ap (digit s) e)),
    )

pub length-all_visited : (s : State) → IsWord s → length (all_visited s) ≡ count_bits s
unfolding count_bits
length-all_visited s h = rw (all_visited-ones_at s h) (length-ones_at 64 0 s)

-- For every word `AllVisited` yields its cells in strictly ascending order, exactly those that
-- `IsVisited` reports below 64, and as many as `CountBits` counts.
pub all_visited_cells :
    (s : State)
    → IsWord s
    → AscendsFrom 0 (all_visited s)
      × ((q : ℕ) → (q ∈ all_visited s) ↔ ((q < 64) × (is_visited s q ≡ true)))
      × (length (all_visited s) ≡ count_bits s)
all_visited_cells s h =
    (all_visited-AscendsFrom s h, λ q. mem-all_visited s q h, length-all_visited s h)
