-- ===== src/Symmetry/Orbits.antt =====
-- symmetry/symmetry.go, `CanonicalClass`: two pairs have one class exactly when they are related.
use knighttour.Prelude.{ℕ, ◌*◌, ◌≤◌, ◌<◌}
use knighttour.Prelude.{◌≡◌, sym, ap, ◌∙◌, ◌↔◌}
use knighttour.State.{State}
use knighttour.Symmetry.{new_symmetry, transform_cell, transform_state, canonical_class}
use knighttour.Symmetry.Square.{index, turn_of, index-lt, on_cell, on_cell-after, after, over}
use knighttour.Symmetry.Canonical.{IsOnBoard, image, image-image}
use knighttour.Symmetry.Class.{
  canonical_class-IsLeastPair, identity, image-identity, on_cell-identity, least_of_image,
  image-over, on_cell-over,
}

-- For a board of side at most 8, two states of its cells and two end cells of the board,
-- `CanonicalClass` returns the same mask and representative for the two pairs exactly when one of
-- the eight transforms takes the first state to the second and the first end to the second.
pub canonical_class_related :
    (n : ℕ)
    → n ≤ 8
    → (st st' : State) (end end' : ℕ) → IsOnBoard n st
    → IsOnBoard n st'
    → end < n * n
    → end' < n * n
    → (((canonical_class (new_symmetry n) st end).mask
          ≡ (canonical_class (new_symmetry n) st' end').mask)
        × ((canonical_class (new_symmetry n) st end).rep
            ≡ (canonical_class (new_symmetry n) st' end').rep))
      ↔ ((t : ℕ) × (t < 8)
          × (transform_state (new_symmetry n) t st ≡ st')
          × (transform_cell (new_symmetry n) t end ≡ end'))
canonical_class_related n small st st' end end' b b' lt lt' = (
  λ (same_mask, same_rep).
      let (g, to_k, to_rep) = (canonical_class-IsLeastPair n small st end b lt).reached in
      let (g', to_k', to_rep') = (canonical_class-IsLeastPair n small st' end' b' lt').reached in
      let back = over identity g' in
      (
        index (after back g),
        index-lt (after back g),
        sym (image-image n small back g st b)
            ∙ ap (λ u. image n small back u) (to_k ∙ same_mask ∙ sym to_k')
            ∙ image-over n small st' end' b' lt' identity g'
            ∙ image-identity n small st' b',
        sym (on_cell-after n small back g end lt)
            ∙ ap (λ c. on_cell n back c) (to_rep ∙ same_rep ∙ sym to_rep')
            ∙ on_cell-over n small st' end' b' lt' identity g'
            ∙ on_cell-identity n small end' lt',
      ),
  λ (t, small_t, to_st, to_end).
      let (h, at) = turn_of t small_t in
      let moved : image n small h st ≡ st' =
        ap (λ u. transform_state (new_symmetry n) u st) at ∙ to_st in
      let cell : on_cell n h end ≡ end' =
        ap (λ u. transform_cell (new_symmetry n) u end) at ∙ to_end in
      least_of_image n small st end b lt h _ _ _ _ (canonical_class-IsLeastPair n small st end b lt)
        (rw (moved, cell) (canonical_class-IsLeastPair n small st' end' b' lt')),
)
