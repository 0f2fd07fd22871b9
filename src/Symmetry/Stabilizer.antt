-- ===== src/Symmetry/Stabilizer.antt =====
-- symmetry/symmetry.go, `ClassRep` and `getCanonicalPosition`: the least image of a cell.
use knighttour.Prelude.{ℕ, range, zero, suc, ◌*◌, ◌^◌, ◌≤◌, ◌<◌, ltb, if◌then◌else◌, arith}
use knighttour.Prelude.{◌≡◌, refl, ap, ◌∙◌, ◌⊎◌, inl, inr, List, [], ◌∷◌, ◌∈◌, Bool-cases}
use knighttour.Words.Digits.{digit}
use knighttour.State.Ones.{ones_at, mem-ones, ones_loop, ones_loop-each, each}
use knighttour.Symmetry.{Symmetry, byte, perm, class_loop, class_rep, best_position}
use knighttour.Symmetry.Compose.{mem-range}

-- A round of `ClassRep`.
abbrev least_round : Symmetry → ℕ → ℕ → ℕ → ℕ
least_round s cell t rep = if ltb (perm s.perms t cell) rep then perm s.perms t cell else rep

class_loop-ones_loop :
    (s : Symmetry) (cell fuel m rep : ℕ)
    → class_loop s fuel m cell rep ≡ ones_loop 8 (least_round s cell) fuel m rep
unfolding class_loop ones_loop
class_loop-ones_loop s cell zero m rep = refl
class_loop-ones_loop s cell (suc fuel) m rep = rw (class_loop-ones_loop s cell fuel _ _) refl

-- The least of a start value and of the images of a cell.
record LeastOf (s : Symmetry) (cell : ℕ) (ts : List ℕ) (start r : ℕ) : Type 0 where
  below_start : r ≤ start
  below : (t : ℕ) → t ∈ ts → r ≤ perm s.perms t cell
  source : (r ≡ start) ⊎ ((t : ℕ) × (t ∈ ts) × (r ≡ perm s.perms t cell))

each-LeastOf :
    (s : Symmetry) (cell : ℕ) (ts : List ℕ) (start : ℕ)
    → LeastOf s cell ts start (each 8 (least_round s cell) ts start)
each-LeastOf s cell [] start = record {
  below_start = omega arith;
  below = λ t m. absurd m;
  source = inl refl;
}
each-LeastOf s cell (t ∷ ts) start =
    let next = least_round s cell t start in
    let h = each-LeastOf s cell ts next in
    let first = round_le s cell t start in
    record {
      below_start = omega (arith, h.below_start, first.0);
      below = λ u. elim [
        | inl e ↦ omega (arith, h.below_start, first.1, ap (λ v. perm s.perms v cell) e)
        | inr m ↦ h.below u m
      ];
      source = elim h.source [
        | inl e ↦ elim first.2 [ inl d ↦ inl (e ∙ d) | inr d ↦ inr (t, inl refl, e ∙ d) ]
        | inr (u, m, e) ↦ inr (u, inr m, e)
      ];
    }
  where
    round_le :
        (s : Symmetry) (cell t start : ℕ)
        → (least_round s cell t start ≤ start)
          × (least_round s cell t start ≤ perm s.perms t cell)
          × ((least_round s cell t start ≡ start)
              ⊎ (least_round s cell t start ≡ perm s.perms t cell))
    round_le s cell t start = elim (Bool-cases (ltb (perm s.perms t cell) start)) [
      | inl e ↦ rw e (ground arith, omega arith, inr refl)
      | inr e ↦ rw e (omega arith, ground arith, inl refl)
    ]

-- The representative is at most the cell and its images under the transforms of the stabilizer, and
-- is one of them.
pub class_rep-least :
    (s : Symmetry) (stab cell : ℕ)
    → stab < 2 ^ 8
    → cell < 2 ^ 8
    → (class_rep s stab cell ≤ cell)
      × ((t : ℕ) → t < 8 → digit stab t ≡ 1 → class_rep s stab cell ≤ perm s.perms t cell)
      × ((class_rep s stab cell ≡ cell)
          ⊎ ((t : ℕ) × (t < 8)
              × (digit stab t ≡ 1)
              × (class_rep s stab cell ≡ perm s.perms t cell)))
unfolding class_rep
class_rep-least s stab cell hs hc =
    let one : stab * 2 ^ 0 ≡ stab = omega arith in
    let start : byte cell ≡ cell = omega arith in
    let loop = rw one at (
      class_loop-ones_loop s cell 8 (stab * 2 ^ 0) cell
      ∙ ones_loop-each 8 (least_round s cell) 8 0 stab 8 cell hs (omega arith) (omega arith)) in
    let least = each-LeastOf s cell (ones_at 8 0 stab) cell in
    let place = λ (t : ℕ). mem-ones 8 stab t in
    rw (start, loop)
      (
        least.below_start,
        λ t lt d. least.below t ((place t).1 (lt, d)),
        elim least.source [
          | inl e ↦ inl e
          | inr (t, m, e) ↦ let (b, d) = (place t).0 m in inr (t, b, d, e)
        ],
      )

best_position-each :
    (s : Symmetry) (cell : ℕ) (ts : List ℕ) (best : ℕ)
    → best_position s.perms cell ts best ≡ each 8 (least_round s cell) ts best
unfolding best_position
best_position-each s cell [] best = refl
best_position-each s cell (t ∷ ts) best = best_position-each s cell ts _

-- The canonical position is at most the cell and its images, and is one of them.
pub best_position_least :
    (s : Symmetry) (cell : ℕ)
    → (best_position s.perms cell (range 0 8) cell ≤ cell)
      × ((t : ℕ) → t < 8 → best_position s.perms cell (range 0 8) cell ≤ perm s.perms t cell)
      × ((best_position s.perms cell (range 0 8) cell ≡ cell)
          ⊎ ((t : ℕ) × (t < 8)
              × (best_position s.perms cell (range 0 8) cell ≡ perm s.perms t cell)))
best_position_least s cell =
    let least = each-LeastOf s cell (range 0 8) cell in
    rw (best_position-each s cell (range 0 8) cell) (
      least.below_start,
      λ t lt. least.below t ((mem-range 0 8 t).1 (omega arith, omega arith)),
      elim least.source [
        | inl e ↦ inl e
        | inr (t, m, e) ↦ inr (t, omega (arith, ((mem-range 0 8 t).0 m).1), e)
      ],
    )
