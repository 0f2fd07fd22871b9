-- ===== src/Symmetry/OrbitSize.antt =====
-- symmetry/symmetry.go, `CellOrbitSize`: the orbit size is the number of different images of a mask
-- with its end cell.
use native.Mathlib.Nat.{mul-div_right, zero-lt-suc}
use knighttour.Prelude.{ℕ, zero, suc, ◌*◌, ◌/◌, ◌≤◌, ◌<◌, ◌==◌, true, false, arith}
use knighttour.Prelude.{
  ◌≡◌, sym, ap, ◌∙◌, ◌↔◌, ◌&&◌, inl, inr, List, ◌∈◌, map, range, Bool-cases, ==→≡,
}
use knighttour.Words.Digits.{digit, digit-lt}
use knighttour.State.{State}
use knighttour.Symmetry.{
  new_symmetry, byte, transform_cell, transform_state, canonical_mask_frame, fixed_loop,
  cell_orbit_size, canonical_class,
}
use knighttour.Symmetry.Distinct.{
  same_pair, same_pair-eq, eq-same_pair, ind, count_of, distinct, distinct-mul,
}
use knighttour.Symmetry.Square.{
  Turn, turn, index, turn_of, square_lt, on_cell, on_cell-lt, on_cell-after, after, over,
  after-over,
}
use knighttour.Symmetry.Canonical.{IsOnBoard, image, image-image, image-IsOnBoard, same_test}
use knighttour.Symmetry.Frame.{canonical_mask_frame_least}
use knighttour.Symmetry.Fixing.{stab-lt, stab-digit}
use knighttour.Symmetry.Class.{
  canonical_class-IsLeastPair, identity, image-identity, on_cell-identity, image-over, on_cell-over,
}
use knighttour.Symmetry.Turns.{
  total, total-after, after-total, total_same, fixing, fixing-digits, fixed_loop-fixing,
}

both_tests : (d a b c e : ℕ) → d < 2 → (d ≡ 1) ↔ (a ≡ b) → d * ind (c == e) ≡ ind (a == b && c == e)
both_tests d a b c e lt iff = elim (Bool-cases (a == b)) [
  | inl same ↦ let one = iff.1 (==→≡ a b same) in rw (same, one) (omega arith)
  | inr other ↦ let none : d ≡ 0 = ground (arith, iff.0) in rw (other, none) (omega arith)
]

div_of_mul : (a d : ℕ) → a * d ≡ 8 → 8 / a ≡ d
div_of_mul zero d e = absurd (omega arith)
div_of_mul (suc a) d e = ap (λ v. v / suc a) (sym e) ∙ mul-div_right d (zero-lt-suc a)

-- The images of a state with an end cell.
abbrev pub pair_images : ℕ → State → ℕ → List (ℕ × ℕ)
pair_images n st end =
    map (λ t. (transform_state (new_symmetry n) t st, transform_cell (new_symmetry n) t end))
      (range 0 8)

module _ (n : ℕ) (small : n ≤ 8) (st : State) (end : ℕ) (b : IsOnBoard n st)
    (lt : end < n * n) where
  -- The image of the state with the end cell.
  abbrev moved : Turn → ℕ × ℕ
  moved g = (image n small g st, on_cell n g end)

  moved-after :
      (m g : Turn) → (image n small m (moved g).0, on_cell n m (moved g).1) ≡ moved (after m g)
  moved-after m g = cc (image-image n small m g st b, on_cell-after n small m g end lt)

  -- A symmetry can be taken back.
  undo :
      (m g : Turn)
      → (
        image n small (over identity m) (moved (after m g)).0,
        on_cell n (over identity m) (moved (after m g)).1,
      )
        ≡ moved g
  undo m g =
      let gb = image-IsOnBoard n small g st b in
      let inside = on_cell-lt n small g end lt in
      let state = image-over n small (moved g).0 (moved g).1 gb inside identity m in
      let cell = on_cell-over n small (moved g).0 (moved g).1 gb inside identity m in
      cc (
        sym (moved-after m g),
        state,
        cell,
        image-identity n small (moved g).0 gb,
        on_cell-identity n small (moved g).1 inside,
      )

  abbrev alike : Turn → Turn → ℕ
  alike g h = ind (same_pair (moved g) (moved h))

  alike-after : (m g h : Turn) → alike g h ≡ alike (after m g) (after m h)
  alike-after m g h = ap ind (same_test _ _ forth back)
    where
      forth :
          same_pair (moved g) (moved h) ≡ true
          → same_pair (moved (after m g)) (moved (after m h)) ≡ true
      forth e = eq-same_pair (
          sym (moved-after m g)
          ∙ ap (λ x. (image n small m x.0, on_cell n m x.1)) (same_pair-eq _ _ e)
          ∙ moved-after m h)

      back :
          same_pair (moved (after m g)) (moved (after m h)) ≡ true
          → same_pair (moved g) (moved h) ≡ true
      back e = eq-same_pair (
          sym (undo m g)
          ∙ ap (λ x. (image n small (over identity m) x.0, on_cell n (over identity m) x.1))
              (same_pair-eq _ _ e)
          ∙ undo m h)

  alike_total : (g h : Turn) → total (λ k. alike k g) ≡ total (λ k. alike k h)
  alike_total g h =
      let m = over g h in
      sym (after-total (λ k. alike k g) m)
      ∙ total_same _ _
          (λ k. ap (λ u. alike (after m k) u) (sym (after-over g h)) ∙ sym (alike-after m k h))

  count-pair_images :
      (x : ℕ × ℕ) → count_of x (pair_images n st end) ≡ total (λ k. ind (same_pair (moved k) x))
  count-pair_images x = omega arith

  mem-pair_images : (x : ℕ × ℕ) → x ∈ (pair_images n st end) → (g : Turn) × (x ≡ moved g)
  mem-pair_images x = elim [
    | inl e ↦ (turn false false false, e)
    | inr (inl e) ↦ (turn true false true, e)
    | inr (inr (inl e)) ↦ (turn false true true, e)
    | inr (inr (inr (inl e))) ↦ (turn true true false, e)
    | inr (inr (inr (inr (inl e)))) ↦ (turn false false true, e)
    | inr (inr (inr (inr (inr (inl e))))) ↦ (turn false true false, e)
    | inr (inr (inr (inr (inr (inr (inl e)))))) ↦ (turn true false false, e)
    | inr (inr (inr (inr (inr (inr (inr (inl e))))))) ↦ (turn true true true, e)
    | inr (inr (inr (inr (inr (inr (inr (inr m))))))) ↦ absurd m
  ]

  orbit_stabilizer : (h : Turn) → total (λ k. alike k h) * distinct (pair_images n st end) ≡ 8
  orbit_stabilizer h = distinct-mul (pair_images n st end) (total (λ k. alike k h)) λ x m.
      let (g, e) = mem-pair_images x m in
      count-pair_images x ∙ ap (λ v. total (λ k. ind (same_pair (moved k) v))) e ∙ alike_total g h

  orbit_div : (h : Turn) → 8 / total (λ k. alike k h) ≡ distinct (pair_images n st end)
  orbit_div h = div_of_mul _ _ (orbit_stabilizer h)

  -- A bit of the stabilizer, where the transform fixes the cell.
  fixing_term :
      (h k : Turn)
      → (canonical_mask_frame (new_symmetry n) st).mask ≡ image n small h st
      → digit (canonical_mask_frame (new_symmetry n) st).stab (index k)
          * ind (on_cell n k (on_cell n h end) == byte (on_cell n h end))
        ≡ alike (after k h) h
  fixing_term h k e =
      let c = on_cell n h end in
      let whole : byte c ≡ c = omega (arith, on_cell-lt n small h end lt, square_lt n small) in
      let bit = rw e at (stab-digit n small st b k) in
      ap
        (λ v.
          digit (canonical_mask_frame (new_symmetry n) st).stab (index k)
          * ind (on_cell n k c == v))
        whole
      ∙ both_tests _ _ _ (on_cell n k c) c (digit-lt _ (index k)) bit
      ∙ ap (λ x. ind (same_pair x (moved h))) (moved-after k h)

  -- The stabilizer bits that fix the cell.
  fixing_total :
      (h : Turn)
      → (canonical_mask_frame (new_symmetry n) st).mask ≡ image n small h st
      → fixing
          (new_symmetry n)
          (on_cell n h end)
          8
          0
          (canonical_mask_frame (new_symmetry n) st).stab
        ≡ total (λ k. alike k h)
  unfolding transform_cell
  fixing_total h e =
      fixing-digits (new_symmetry n) (on_cell n h end) _
      ∙ total_same _ _ (λ k. fixing_term h k e)
      ∙ total-after (λ g. alike g h) h

module _ (n : ℕ) (small : n ≤ 8) (st : State) (end : ℕ) (b : IsOnBoard n st)
    (lt : end < n * n) where
  abbrev stabilizer : ℕ
  stabilizer = (canonical_mask_frame (new_symmetry n) st).stab

  -- The orbit size of a cell that a symmetry to the canonical mask takes the end to.
  cell_orbit_size-distinct :
      (h : Turn) (c : ℕ)
      → (canonical_mask_frame (new_symmetry n) st).mask ≡ image n small h st
      → c ≡ on_cell n h end
      → cell_orbit_size (new_symmetry n) stabilizer c ≡ distinct (pair_images n st end)
  unfolding cell_orbit_size
  cell_orbit_size-distinct h c reach cell =
      ap (λ v. 8 / fixed_loop (new_symmetry n) 8 stabilizer v 0) cell
      ∙ ap (λ v. 8 / v)
          (fixed_loop-fixing (new_symmetry n) (on_cell n h end) stabilizer (stab-lt n small st)
            ∙ fixing_total n small st end b lt h reach)
      ∙ orbit_div n small st end b lt h

-- For a board of side at most 8, a state of its cells and an end cell of the board, the orbit size
-- that `CanonicalClass` returns is the number of different pairs among the eight images of the
-- state with the end.
pub canonical_class-distinct :
    (n : ℕ)
    → n ≤ 8
    → (st : State) (end : ℕ) → IsOnBoard n st
    → end < n * n
    → (canonical_class (new_symmetry n) st end).orbit_size ≡ distinct (pair_images n st end)
unfolding canonical_class transform_cell
canonical_class-distinct n small st end b lt =
    let f = canonical_mask_frame (new_symmetry n) st in
    let (below, small_frame, e, first) = canonical_mask_frame_least (new_symmetry n) st in
    let (h, at) = turn_of f.frame small_frame in
    cell_orbit_size-distinct n small st end b lt h _
      (e ∙ ap (λ t. transform_state (new_symmetry n) t st) (sym at))
      (ap (λ t. transform_cell (new_symmetry n) t end) (sym at))

-- A reader asks for the orbit size of the representative, which is that of the class.
pub cell_orbit_size-rep :
    (n : ℕ)
    → n ≤ 8
    → (st : State) (end : ℕ) → IsOnBoard n st
    → end < n * n
    → (cell_orbit_size
          (new_symmetry n)
          (canonical_mask_frame (new_symmetry n) st).stab
          (canonical_class (new_symmetry n) st end).rep
        ≡ (canonical_class (new_symmetry n) st end).orbit_size)
      × (0 < (canonical_class (new_symmetry n) st end).orbit_size)
unfolding canonical_class
cell_orbit_size-rep n small st end b lt =
    let size = canonical_class-distinct n small st end b lt in
    let (g, to_k, to_rep) = (canonical_class-IsLeastPair n small st end b lt).reached in
    let eight = orbit_stabilizer n small st end b lt identity in
    let some_images : 0 < distinct (pair_images n st end) = positive_factor _ _ eight in
    (
      cell_orbit_size-distinct n small st end b lt g _ (sym to_k) (sym to_rep) ∙ sym size,
      omega (arith, size, some_images),
    )
  where
    positive_factor : (a d : ℕ) → a * d ≡ 8 → 0 < d
    positive_factor a zero e = absurd (omega arith)
    positive_factor a (suc d) e = omega arith
