-- ===== src/Cache/Classes.antt =====
-- cache/cache.go: the classes of a record, each once and all of them cells, so that a record never
-- has more than 64.
use knighttour.Prelude.{
  ℕ, zero, suc, ◌+◌, ◌≤◌, ◌<◌, ◌==◌, ltb, if◌then◌else◌, max, List, [], ◌∷◌, length,
}
use knighttour.Prelude.{◌≡◌, refl, ◌∙◌, inl, inr, arith, Bool-cases, ==→≡, ==_self}
use knighttour.Cache.Contents.{add_pair}

-- The sum of the weights of a class.
unfoldable pub pair_total : ℕ → List (ℕ × ℕ) → ℕ
pair_total r [] = 0
pair_total r ((q, w) ∷ ps) = (if q == r then w else 0) + pair_total r ps

-- The number of pairs of a class.
unfoldable pub pair_count : ℕ → List (ℕ × ℕ) → ℕ
pair_count r [] = 0
pair_count r ((q, w) ∷ ps) = (if q == r then 1 else 0) + pair_count r ps

pub pair_total-add_pair :
    (r rep weight : ℕ) (ps : List (ℕ × ℕ))
    → pair_total r (add_pair rep weight ps) ≡ (if rep == r then weight else 0) + pair_total r ps
unfolding pair_total add_pair
pair_total-add_pair r rep weight [] = omega arith
pair_total-add_pair r rep weight ((q, w) ∷ ps) = elim (Bool-cases (q == rep)) [
  | inl here ↦ rw here (rw (==→≡ q rep here) (ground arith))
  | inr later ↦ rw later (omega (arith, pair_total-add_pair r rep weight ps))
]

pair_count-add_pair :
    (r rep weight : ℕ) (ps : List (ℕ × ℕ))
    → pair_count r (add_pair rep weight ps)
      ≡ (if rep == r then max 1 (pair_count r ps) else pair_count r ps)
unfolding pair_count add_pair
pair_count-add_pair r rep weight [] = ground arith
pair_count-add_pair r rep weight ((q, w) ∷ ps) = elim (Bool-cases (q == rep)) [
  | inl here ↦ rw here (rw (==→≡ q rep here) (ground arith))
  | inr later ↦ rw later (ground (arith, ==→≡ rep r, pair_count-add_pair r rep weight ps))
]

-- Each class of a record has one pair, and is a cell of the board.
unfoldable pub HasClasses : List (ℕ × ℕ) → Type 0
HasClasses ps = ((r : ℕ) → pair_count r ps ≤ 1) × ((r : ℕ) → 64 ≤ r → pair_count r ps ≡ 0)

pub HasClasses-empty : HasClasses []
unfolding HasClasses pair_count
HasClasses-empty = (λ r. omega arith, λ r h. refl)

pub add_pair-HasClasses :
    (rep weight : ℕ) (ps : List (ℕ × ℕ))
    → rep < 64
    → HasClasses ps
    → HasClasses (add_pair rep weight ps)
unfolding HasClasses
add_pair-HasClasses rep weight ps lt h = (
  λ r. ground (arith, pair_count-add_pair r rep weight ps, h.0 r),
  λ r far. ground (arith, pair_count-add_pair r rep weight ps, h.1 r far),
)

-- The pairs of the classes below `n`.
below : ℕ → List (ℕ × ℕ) → ℕ
below zero ps = 0
below (suc n) ps = pair_count n ps + below n ps

below-cons :
    (n q w : ℕ) (ps : List (ℕ × ℕ))
    → below n ((q, w) ∷ ps) ≡ (if ltb q n then 1 else 0) + below n ps
unfolding below pair_count
below-cons zero q w ps = ground arith
below-cons (suc n) q w ps = ground (arith, below-cons n q w ps)

below-empty : (n : ℕ) → below n [] ≡ 0
unfolding below pair_count
below-empty zero = refl
below-empty (suc n) = omega (arith, below-empty n)

below-all : (ps : List (ℕ × ℕ)) → ((r : ℕ) → 64 ≤ r → pair_count r ps ≡ 0) → below 64 ps ≡ length ps
unfolding pair_count
below-all [] h = below-empty 64
below-all ((q, w) ∷ ps) h =
    let ih = below-all ps (λ r far. omega (arith, h r far)) in
    elim (Bool-cases (ltb q 64)) [
      | inl cell ↦ below-cons 64 q w ps ∙ rw cell (omega (arith, ih))
      | inr far ↦ absurd (ground (arith, h q, ==_self q))
    ]

below-le : (n : ℕ) (ps : List (ℕ × ℕ)) → ((r : ℕ) → pair_count r ps ≤ 1) → below n ps ≤ n
unfolding below
below-le zero ps h = omega arith
below-le (suc n) ps h = omega (arith, h n, below-le n ps h)

pub HasClasses-length : (ps : List (ℕ × ℕ)) → HasClasses ps → length ps ≤ 64
unfolding HasClasses
HasClasses-length ps h = omega (arith, below-all ps h.1, below-le 64 ps h.0)
