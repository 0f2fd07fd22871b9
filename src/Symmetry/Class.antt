-- ===== src/Symmetry/Class.antt =====
-- symmetry/symmetry.go, `CanonicalClass`: the class of a mask with an end cell is the least of its
-- eight images, and two of them have one class exactly when a transform takes one to the other.
use mathlib.Core.Path.{subst}
use native.Mathlib.Nat.{div-add-mod}
use knighttour.Prelude.{ℕ, ◌*◌, ◌≤◌, ◌<◌, false, arith}
use knighttour.Prelude.{◌≡◌, sym, ap, ◌∙◌, inl, inr}
use knighttour.State.{State}
use knighttour.State.Cells.{In}
use knighttour.Symmetry.{
  new_symmetry, transform_cell, transform_state, canonical_mask_frame, canonical_class,
}
use knighttour.Words.Digits.{digit}
use knighttour.Symmetry.Frame.{canonical_mask_frame_least}
use knighttour.Symmetry.Square.{
  Turn, turn, index, turn_of, index-lt, on_cell, on_cell-eq, on_cell-lt, on_cell-after, after, over,
  after-over, square_lt,
}
use knighttour.Symmetry.Canonical.{
  IsOnBoard, image, image-image, image-IsOnBoard, mask_le, same_cells, image-In,
}
use knighttour.Symmetry.Stabilizer.{class_rep-least}
use knighttour.Symmetry.Fixing.{stab-lt, stab-digit}

abbrev pub identity : Turn
identity = turn false false false

module _ (n : ℕ) (small : n ≤ 8) where
  -- The least pair of a mask and a cell among the images of a pair.
  pub record IsLeastPair (st : State) (end : ℕ) (k rep : ℕ) : Type 0 where
    pub least_mask : (g : Turn) → k ≤ image n small g st
    pub least_rep : (g : Turn) → image n small g st ≡ k → rep ≤ on_cell n g end
    pub reached : (g : Turn) × (image n small g st ≡ k) × (on_cell n g end ≡ rep)

  pub canonical_class-IsLeastPair :
      (st : State) (end : ℕ)
      → IsOnBoard n st
      → end < n * n
      → IsLeastPair st end
          (canonical_class (new_symmetry n) st end).mask
          (canonical_class (new_symmetry n) st end).rep
  unfolding canonical_class transform_cell
  canonical_class-IsLeastPair st end b lt =
      let f = canonical_mask_frame (new_symmetry n) st in
      let (below, small_frame, e, first) = canonical_mask_frame_least (new_symmetry n) st in
      let (h, at) = turn_of f.frame small_frame in
      let reach : image n small h st ≡ f.mask =
        ap (λ t. transform_state (new_symmetry n) t st) at ∙ sym e in
      let moved : on_cell n h end ≡ transform_cell (new_symmetry n) f.frame end =
        ap (λ t. transform_cell (new_symmetry n) t end) at in
      let inside = on_cell-lt n small h end lt in
      let (rep_start, rep_below, rep_source) =
        class_rep-least (new_symmetry n) f.stab (transform_cell (new_symmetry n) f.frame end)
          (stab-lt n small st) (omega (arith, inside, moved, square_lt n small)) in
      record {
        least_mask = mask_le n small st;
        least_rep = λ g hit.
            let k = over g h in
            let fixed : image n small k f.mask ≡ f.mask =
              ap (λ u. image n small k u) (sym reach)
              ∙ image-image n small k h st b
              ∙ ap (λ u. image n small u st) (after-over g h)
              ∙ hit in
            let cell : on_cell n k (transform_cell (new_symmetry n) f.frame end) ≡ on_cell n g end =
              ap (λ c. on_cell n k c) (sym moved)
              ∙ on_cell-after n small k h end lt
              ∙ ap (λ u. on_cell n u end) (after-over g h) in
            omega
              (arith, cell, rep_below (index k) (index-lt k) ((stab-digit n small st b k).1 fixed));
        reached = elim rep_source [
          | inl start ↦ (h, reach, moved ∙ sym start)
          | inr (t, small_t, one, image_rep) ↦
              let (k, is_t) = turn_of t small_t in
              let fixed : image n small k f.mask ≡ f.mask =
                (stab-digit n small st b k).0 (ap (λ u. digit f.stab u) is_t ∙ one) in
              let cell = transform_cell (new_symmetry n) f.frame end in
              (
                after k h,
                sym (image-image n small k h st b) ∙ ap (λ u. image n small k u) reach ∙ fixed,
                sym (on_cell-after n small k h end lt)
                    ∙ ap (λ c. on_cell n k c) moved
                    ∙ ap (λ u. transform_cell (new_symmetry n) u cell) is_t
                    ∙ sym image_rep,
              )
        ];
      }

  -- For a board of side at most 8, a state of its cells and an end cell of the board,
  -- `CanonicalClass` returns the lexicographically least pair among the eight images of the state
  -- and the end: its mask is at most every image of the state, its representative at most the image
  -- of the end under every transform that takes the state to the mask, and one transform takes the
  -- state to the mask and the end to the representative.
  pub canonical_class_least :
      (st : State) (end : ℕ)
      → IsOnBoard n st
      → end < n * n
      → ((t : ℕ)
          → t < 8
          → (canonical_class (new_symmetry n) st end).mask ≤ transform_state (new_symmetry n) t st)
        × ((t : ℕ)
            → t < 8
            → transform_state (new_symmetry n) t st ≡ (canonical_class (new_symmetry n) st end).mask
            → (canonical_class (new_symmetry n) st end).rep ≤ transform_cell (new_symmetry n) t end)
        × ((t : ℕ) × (t < 8)
            × (transform_state (new_symmetry n) t st
                ≡ (canonical_class (new_symmetry n) st end).mask)
            × (transform_cell (new_symmetry n) t end
                ≡ (canonical_class (new_symmetry n) st end).rep))
  canonical_class_least st end b lt =
      let h = canonical_class-IsLeastPair st end b lt in
      let (g, to_mask, to_rep) = h.reached in
      (
        λ t small_t. let (k, at) = turn_of t small_t in rw (sym at) (h.least_mask k),
        λ t small_t. let (k, at) = turn_of t small_t in rw (sym at) (h.least_rep k),
        (index g, index-lt g, to_mask, to_rep),
      )

  pub on_cell-identity : (c : ℕ) → c < n * n → on_cell n identity c ≡ c
  on_cell-identity c lt = on_cell-eq n small identity c lt ∙ omega (arith, div-add-mod c n)

  pub image-identity : (st : State) → IsOnBoard n st → image n small identity st ≡ st
  image-identity st b = same_cells _ _ (image-IsOnBoard n small identity st b).0 b.0 λ q. (
    λ i.
        let (c, j, e) = (image-In n small identity st b q).0 i in
        subst (λ v. In st v) (sym (on_cell-identity c (b.1 c j)) ∙ e) j,
    λ i. (image-In n small identity st b q).1 (q, i, on_cell-identity q (b.1 q i)),
  )

  module _ (st : State) (end : ℕ) (b : IsOnBoard n st) (lt : end < n * n) where
    abbrev there : Turn → State
    there h = image n small h st

    -- What a symmetry before `h` does to the image under `h`.
    pub image-over : (g h : Turn) → image n small (over g h) (there h) ≡ there g
    image-over g h =
        image-image n small (over g h) h st b ∙ ap (λ u. image n small u st) (after-over g h)

    pub on_cell-over : (g h : Turn) → on_cell n (over g h) (on_cell n h end) ≡ on_cell n g end
    on_cell-over g h =
        on_cell-after n small (over g h) h end lt ∙ ap (λ u. on_cell n u end) (after-over g h)

    -- The least pair of an image is that of the pair.
    pub least_of_image :
        (h : Turn) (k rep k' rep' : ℕ)
        → IsLeastPair st end k rep
        → IsLeastPair (there h) (on_cell n h end) k' rep'
        → (k ≡ k') × (rep ≡ rep')
    least_of_image h k rep k' rep' l l' =
        let (g, to_k, to_rep) = l.reached in
        let (g', to_k', to_rep') = l'.reached in
        let step = image-image n small g' h st b in
        let cell = on_cell-after n small g' h end lt in
        let same : k ≡ k' =
          omega
            (arith, l.least_mask (after g' h), l'.least_mask (over g h), image-over g h, step) in
        (
          same,
          omega (
            arith,
            l.least_rep (after g' h) (sym step ∙ to_k' ∙ sym same),
            l'.least_rep (over g h) (image-over g h ∙ to_k ∙ same),
            cell,
            on_cell-over g h,
          ),
        )
