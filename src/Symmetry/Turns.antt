-- ===== src/Symmetry/Turns.antt =====
-- symmetry/symmetry.go: sums over the eight transforms, and the loop of `CellOrbitSize` as one.
use knighttour.Prelude.{
  ℕ, zero, suc, ◌+◌, ◌*◌, ◌/◌, ◌%◌, ◌^◌, ◌<◌, ◌==◌, if◌then◌else◌, true, false, arith,
}
use knighttour.Prelude.{◌≡◌, refl, ◌∙◌, inl, inr, Bool-cases, ==→≡}
use knighttour.Words.Digits.{digit}
use knighttour.State.Ones.{ones_at, ones_loop, ones_loop-each, each}
use knighttour.Symmetry.{Symmetry, byte, perm, fixed_loop}
use knighttour.Symmetry.Distinct.{ind}
use knighttour.Symmetry.Square.{Turn, turn, index, after, over}

-- A sum over the symmetries, in the order of the table.
abbrev pub total : (Turn → ℕ) → ℕ
total f =
    f (turn false false false)
    + f (turn true false true)
    + f (turn false true true)
    + f (turn true true false)
    + f (turn false false true)
    + f (turn false true false)
    + f (turn true false false)
    + f (turn true true true)

pub total-after : (f : Turn → ℕ) (h : Turn) → total (λ k. f (after k h)) ≡ total f
total-after f (turn false false false) = omega arith
total-after f (turn true false true) = omega arith
total-after f (turn false true true) = omega arith
total-after f (turn true true false) = omega arith
total-after f (turn false false true) = omega arith
total-after f (turn false true false) = omega arith
total-after f (turn true false false) = omega arith
total-after f (turn true true true) = omega arith

pub after-total : (f : Turn → ℕ) (h : Turn) → total (λ k. f (after h k)) ≡ total f
after-total f (turn false false false) = omega arith
after-total f (turn true false true) = omega arith
after-total f (turn false true true) = omega arith
after-total f (turn true true false) = omega arith
after-total f (turn false false true) = omega arith
after-total f (turn false true false) = omega arith
after-total f (turn true false false) = omega arith
after-total f (turn true true true) = omega arith

pub over-total : (f : Turn → ℕ) (h : Turn) → total (λ k. f (over k h)) ≡ total f
over-total f (turn false false false) = omega arith
over-total f (turn true false true) = omega arith
over-total f (turn false true true) = omega arith
over-total f (turn true true false) = omega arith
over-total f (turn false false true) = omega arith
over-total f (turn false true false) = omega arith
over-total f (turn true false false) = omega arith
over-total f (turn true true true) = omega arith

pub total_same : (f g : Turn → ℕ) → ((k : Turn) → f k ≡ g k) → total f ≡ total g
total_same f g same = cc (
  same (turn false false false),
  same (turn true false true),
  same (turn false true true),
  same (turn true true false),
  same (turn false false true),
  same (turn false true false),
  same (turn true false false),
  same (turn true true true),
)

-- A round of `CellOrbitSize`.
abbrev pub fixed_round : Symmetry → ℕ → ℕ → ℕ → ℕ
fixed_round s cell t fixed = if perm s.perms t cell == byte cell then fixed + 1 else fixed

pub fixed_loop-ones_loop :
    (s : Symmetry) (cell fuel m fixed : ℕ)
    → fixed_loop s fuel m cell fixed ≡ ones_loop 8 (fixed_round s cell) fuel m fixed
unfolding fixed_loop ones_loop
fixed_loop-ones_loop s cell zero m fixed = refl
fixed_loop-ones_loop s cell (suc fuel) m fixed = rw (fixed_loop-ones_loop s cell fuel _ _) refl

-- The ones among the digits that fix the cell.
abbrev pub fixing : Symmetry → ℕ → ℕ → ℕ → ℕ → ℕ
fixing s cell zero off m = 0
fixing s cell (suc k) off m =
    m % 2 * ind (perm s.perms off cell == byte cell) + fixing s cell k (suc off) (m / 2)

pub each-fixing :
    (s : Symmetry) (cell k off m fixed : ℕ)
    → each 8 (fixed_round s cell) (ones_at k off m) fixed ≡ fixed + fixing s cell k off m
unfolding ones_at
each-fixing s cell zero off m fixed = omega arith
each-fixing s cell (suc k) off m fixed =
    let later = each-fixing s cell k (suc off) (m / 2) in
    elim (Bool-cases (m % 2 == 1)) [
      | inl odd ↦ elim (Bool-cases (perm s.perms off cell == byte cell)) [
        | inl hit ↦
            let one = ==→≡ (m % 2) 1 odd in
            rw (odd, hit, one, later (fixed_round s cell off fixed)) (ground arith)
        | inr miss ↦
            let one = ==→≡ (m % 2) 1 odd in
            rw (odd, miss, one, later (fixed_round s cell off fixed)) (ground arith)
      ]
      | inr even ↦ let none : m % 2 ≡ 0 = ground arith in rw (even, none, later fixed) (omega arith)
    ]

pub fixing-digits :
    (s : Symmetry) (cell m : ℕ)
    → fixing s cell 8 0 m
      ≡ total (λ k. digit m (index k) * ind (perm s.perms (index k) cell == byte cell))
unfolding digit
fixing-digits s cell m = omega arith

pub fixed_loop-fixing :
    (s : Symmetry) (cell m : ℕ) → m < 2 ^ 8 → fixed_loop s 8 m cell 0 ≡ fixing s cell 8 0 m
fixed_loop-fixing s cell m h =
    let one : m * 2 ^ 0 ≡ m = omega arith in
    rw one at (
      fixed_loop-ones_loop s cell 8 (m * 2 ^ 0) 0
      ∙ ones_loop-each 8 (fixed_round s cell) 8 0 m 8 0 h (omega arith) (omega arith))
    ∙ each-fixing s cell 8 0 m 0
    ∙ omega arith
