-- ===== src/Symmetry/Frame.antt =====
-- symmetry/symmetry.go, `CanonicalMaskFrame`: the choice among the eight images.
use knighttour.Prelude.{ℕ, zero, suc, ◌+◌, ◌≤◌, ◌<◌, ltb, Bool-cases, ltb→lt, arith}
use knighttour.Prelude.{
  ◌≡◌, refl, sym, ap, ◌∙◌, ◌⊎◌, inl, inr, List, [], ◌∷◌, map, length, get_or, range,
  get_or-map-range,
}
use knighttour.State.{State}
use knighttour.Symmetry.{Symmetry, transform_state, least_image, canonical_mask_frame}

-- The first place of a list that holds its least member, below `k`.
record FirstLeast (imgs : List State) (t : ℕ) (k : State) (r : State × ℕ) : Type 0 where
  place : ℕ
  inside : place < length imgs
  less : r.0 < k
  at : r.1 ≡ t + place
  value : r.0 ≡ get_or imgs place 0
  first : (j : ℕ) → j < place → r.0 < get_or imgs j 0

record Least (imgs : List State) (t : ℕ) (k : State) (frame : ℕ) (r : State × ℕ) : Type 0 where
  below : (i : ℕ) → i < length imgs → r.0 ≤ get_or imgs i 0
  below_start : r.0 ≤ k
  source : ((r.0 ≡ k) × (r.1 ≡ frame)) ⊎ FirstLeast imgs t k r

-- A property of the members of a list below `n`, from the first and the later ones.
at_first :
    (P : ℕ → Type 0) (img : State) (imgs : List State) (n : ℕ)
    → P img
    → ((i : ℕ) → i < n → P (get_or imgs i 0))
    → (i : ℕ) → i < suc n
    → P (get_or (img ∷ imgs) i 0)
at_first P img imgs n h later zero lt = h
at_first P img imgs n h later (suc i) lt = later i (omega arith)

least_image-Least :
    (imgs : List State) (t : ℕ) (k : State) (frame : ℕ)
    → Least imgs t k frame (least_image imgs t k frame)
unfolding least_image
least_image-Least [] t k frame = record {
  below = λ i lt. absurd (omega arith);
  below_start = omega arith;
  source = inl (refl, refl);
}
least_image-Least (img ∷ imgs) t k frame = elim (Bool-cases (ltb img k)) [
  | inl less ↦
      let h = least_image-Least imgs (t + 1) img t in
      let smaller = ltb→lt img k less in
      rw less (record {
        below =
            at_first (λ v. (least_image imgs (t + 1) img t).0 ≤ v) img imgs _ h.below_start h.below;
        below_start = omega (arith, h.below_start);
        source = elim h.source [
          | inl (e, f) ↦ inr (record {
            place = 0;
            inside = omega arith;
            less = omega arith;
            at = omega arith;
            value = e;
            first = λ j lt. absurd (omega arith);
          })
          | inr q ↦ inr (record {
            place = suc q.place;
            inside = omega (arith, q.inside);
            less = omega (arith, q.less);
            at = omega (arith, q.at);
            value = q.value;
            first =
                at_first (λ v. (least_image imgs (t + 1) img t).0 < v) img imgs _ q.less q.first;
          })
        ];
      })
  | inr more ↦
      let h = least_image-Least imgs (t + 1) k frame in
      let larger : k ≤ img = ground arith in
      let low : (least_image imgs (t + 1) k frame).0 ≤ img = omega (arith, h.below_start) in
      let before : (least_image imgs (t + 1) k frame).0 < k
          → (least_image imgs (t + 1) k frame).0 < img =
        λ lt. omega arith in
      rw more (record {
        below = at_first (λ v. (least_image imgs (t + 1) k frame).0 ≤ v) img imgs _ low h.below;
        below_start = h.below_start;
        source = elim h.source [
          | inl e ↦ inl e
          | inr q ↦ inr (record {
            place = suc q.place;
            inside = omega (arith, q.inside);
            less = q.less;
            at = omega (arith, q.at);
            value = q.value;
            first =
                at_first (λ v. (least_image imgs (t + 1) k frame).0 < v) img imgs _ (before q.less)
                  q.first;
          })
        ];
      })
]

images : Symmetry → State → List State
images s st = map (λ t. transform_state s t st) (range 1 7)

chosen : Symmetry → State → State × ℕ
chosen s st = least_image (images s st) 1 (transform_state s 0 st) 0

image_at :
    (s : Symmetry) (st : State) (t : ℕ)
    → t < 7
    → get_or (images s st) t 0 ≡ transform_state s (suc t) st
unfolding images
image_at s st t lt =
    get_or-map-range (λ u. transform_state s u st) 0 7 1 t lt
    ∙ ap (λ u. transform_state s u st) (omega arith)

length-images : (s : Symmetry) (st : State) → length (images s st) ≡ 7
unfolding images
length-images s st = refl

chosen_lem :
    (s : Symmetry) (st : State) → Least (images s st) 1 (transform_state s 0 st) 0 (chosen s st)
unfolding chosen
chosen_lem s st = least_image-Least (images s st) 1 (transform_state s 0 st) 0

module _ (s : Symmetry) (st : State) where
  image_le : (t : ℕ) → t < 8 → (chosen s st).0 ≤ transform_state s t st
  image_le zero lt = (chosen_lem s st).below_start
  image_le (suc t) lt = omega (
    arith,
    (chosen_lem s st).below t (omega (arith, length-images s st)),
    image_at s st t (omega arith),
  )

  earlier :
      FirstLeast (images s st) 1 (transform_state s 0 st) (chosen s st)
      → (t : ℕ) → t < (chosen s st).1
      → (chosen s st).0 < transform_state s t st
  earlier q zero lt = q.less
  earlier q (suc t) lt = omega (
    arith,
    q.first t (omega (arith, q.at)),
    image_at s st t (omega (arith, q.at, q.inside, length-images s st)),
  )

  reached :
      ((chosen s st).1 < 8)
      × ((chosen s st).0 ≡ transform_state s (chosen s st).1 st)
      × ((t : ℕ) → t < (chosen s st).1 → (chosen s st).0 < transform_state s t st)
  reached = elim (chosen_lem s st).source [
    | inl (e, f) ↦
        (omega arith, e ∙ ap (λ u. transform_state s u st) (sym f), λ t lt. absurd (omega arith))
    | inr q ↦ (
      omega (arith, q.inside, q.at, length-images s st),
      q.value
          ∙ image_at s st q.place (omega (arith, q.inside, length-images s st))
          ∙ ap (λ u. transform_state s u st) (omega (arith, q.at)),
      earlier q,
    )
  ]

-- For every mask `CanonicalMaskFrame` returns the least of the eight images of the mask, and the
-- first transform that reaches it: it is one of the eight, its image is the canonical mask, and
-- every earlier transform has a larger image.
pub canonical_mask_frame_least :
    (s : Symmetry) (st : State)
    → ((t : ℕ) → t < 8 → (canonical_mask_frame s st).mask ≤ transform_state s t st)
      × ((canonical_mask_frame s st).frame < 8)
      × ((canonical_mask_frame s st).mask ≡ transform_state s (canonical_mask_frame s st).frame st)
      × ((t : ℕ)
          → t < (canonical_mask_frame s st).frame
          → (canonical_mask_frame s st).mask < transform_state s t st)
unfolding canonical_mask_frame chosen images
canonical_mask_frame_least s st =
    let (small, at, first) = reached s st in (image_le s st, small, at, first)
