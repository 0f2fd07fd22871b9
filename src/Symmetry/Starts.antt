-- ===== src/Symmetry/Starts.antt =====
-- symmetry/symmetry.go, `getCanonicalPosition`: two cells have one canonical position exactly when a
-- transform relates them.
use knighttour.Prelude.{ℕ, ◌*◌, ◌≤◌, ◌<◌, arith, get_or-map_upto, range}
use knighttour.Prelude.{◌≡◌, sym, ap, ◌∙◌, inl, inr, ◌↔◌}
use knighttour.Symmetry.{new_symmetry, best_position, transform_cell, get_canonical_position}
use knighttour.Symmetry.Square.{
  Turn, index, turn_of, index-lt, on_cell, on_cell-after, after, over, after-over,
}
use knighttour.Symmetry.Class.{identity, on_cell-identity}
use knighttour.Symmetry.Stabilizer.{best_position_least}

module _ (n : ℕ) (small : n ≤ 8) where
  -- The least of the images of a cell.
  record IsLeastImage (p r : ℕ) : Type 0 where
    below : (g : Turn) → r ≤ on_cell n g p
    reached : (g : Turn) × (on_cell n g p ≡ r)

  get_canonical_position-IsLeastImage :
      (p : ℕ) → p < n * n → IsLeastImage p (get_canonical_position (new_symmetry n) p)
  unfolding get_canonical_position new_symmetry transform_cell
  get_canonical_position-IsLeastImage p lt =
      let (start, images, source) = best_position_least (new_symmetry n) p in
      let value =
        get_or-map_upto (λ c. best_position (new_symmetry n).perms c (range 0 8) c) 0 (n * n) p
          lt in
      record {
        below = λ g. omega (arith, value, images (index g) (index-lt g));
        reached = elim source [
          | inl e ↦ (identity, on_cell-identity n small p lt ∙ sym e ∙ sym value)
          | inr (t, lt_t, e) ↦
              let (g, at) = turn_of t lt_t in
              (g, ap (λ u. transform_cell (new_symmetry n) u p) at ∙ sym e ∙ sym value)
        ];
      }

  on_cell_back :
      (g h : Turn) (p : ℕ) → p < n * n → on_cell n (over g h) (on_cell n h p) ≡ on_cell n g p
  on_cell_back g h p lt =
      on_cell-after n small (over g h) h p lt ∙ ap (λ u. on_cell n u p) (after-over g h)

  same_least :
      (h : Turn) (p r r' : ℕ)
      → p < n * n
      → IsLeastImage p r
      → IsLeastImage (on_cell n h p) r'
      → r ≡ r'
  same_least h p r r' lt l l' =
      let (g, e) = l.reached in
      let (g', e') = l'.reached in
      omega (
        arith,
        e,
        e',
        l.below (after g' h),
        on_cell-after n small g' h p lt,
        l'.below (over g h),
        on_cell_back g h p lt,
      )

  -- On a board of side at most 8, the canonical position of a cell is at most each of its eight
  -- images and is one of them, and two cells have one canonical position exactly when a transform
  -- takes the first to the second.
  pub get_canonical_position_orbits :
      (p q : ℕ)
      → p < n * n
      → q < n * n
      → ((t : ℕ)
          → t < 8
          → get_canonical_position (new_symmetry n) p ≤ transform_cell (new_symmetry n) t p)
        × ((t : ℕ) × (t < 8)
            × (transform_cell (new_symmetry n) t p ≡ get_canonical_position (new_symmetry n) p))
        × ((get_canonical_position (new_symmetry n) p ≡ get_canonical_position (new_symmetry n) q)
            ↔ ((t : ℕ) × (t < 8) × (transform_cell (new_symmetry n) t p ≡ q)))
  get_canonical_position_orbits p q lt lq =
      let l = get_canonical_position-IsLeastImage p lt in
      let l' = get_canonical_position-IsLeastImage q lq in
      let (g, e) = l.reached in
      let (g', e') = l'.reached in
      let back = over identity g' in
      (
        λ t small_t. let (k, at) = turn_of t small_t in rw (sym at) (l.below k),
        (index g, index-lt g, e),
        (
          λ same. (
            index (after back g),
            index-lt (after back g),
            sym (on_cell-after n small back g p lt)
                ∙ ap (λ c. on_cell n back c) (e ∙ same ∙ sym e')
                ∙ on_cell_back identity g' q lq
                ∙ on_cell-identity n small q lq,
          ),
          λ (t, small_t, to_q).
              let (h, at) = turn_of t small_t in
              let cell : on_cell n h p ≡ q =
                ap (λ u. transform_cell (new_symmetry n) u p) at ∙ to_q in
              same_least h p _ _ lt l (rw cell l'),
        ),
      )
