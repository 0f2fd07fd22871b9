-- ===== src/Symmetry/Fixing.antt =====
-- symmetry/symmetry.go, the stabilizer in `CanonicalMaskFrame`: its bits are the transforms that fix
-- the canonical mask.
use knighttour.Prelude.{ℕ, ◌^◌, ◌≤◌, ◌<◌, ◌==◌, Bool, true, arith}
use knighttour.Prelude.{
  ◌≡◌, refl, sym, ap, ◌∙◌, ◌⊎◌, inl, inr, ◌↔◌, List, [], ◌∷◌, ◌∈◌, map, get_or, range, Bool-cases,
  ==→≡, get_or-map_upto,
}
use Prim.Native.Nat.{bit_or}
use knighttour.State.{State}
use knighttour.State.Bits.{two_pow-lt}
use knighttour.Words.Digits.{digit, digit-lt, digit-bit_or, digit-pow, digit-zero, bit_or-lt}
use knighttour.Symmetry.{
  Symmetry, new_symmetry, byte, stab_loop, transform_state, canonical_mask_frame,
}
use knighttour.Symmetry.Frame.{canonical_mask_frame_least}
use knighttour.Symmetry.Square.{Turn, index, turn_of, index-lt}
use knighttour.Symmetry.Canonical.{IsOnBoard, image, image_same}
use knighttour.Symmetry.Compose.{mem-range, compose-acts}

module _ (s : Symmetry) (imgs : List State) (k frame : ℕ) where
  -- The test of a round.
  abbrev fixes : ℕ → Bool
  fixes t = get_or imgs (get_or (get_or s.compose t []) frame 0) 0 == k

  stab_loop-lt : (ts : List ℕ) (stab : ℕ) → stab < 2 ^ 8 → stab_loop s imgs k frame ts stab < 2 ^ 8
  unfolding stab_loop
  stab_loop-lt [] stab h = h
  stab_loop-lt (t ∷ ts) stab h = elim (Bool-cases (fixes t)) [
    | inl e ↦ rw e (stab_loop-lt ts _ (bit_or-lt 8 stab (byte (2 ^ t)) h (omega arith)))
    | inr e ↦ rw e (stab_loop-lt ts stab h)
  ]

  stab_loop-digit :
      (ts : List ℕ) (stab q : ℕ)
      → ((t : ℕ) → t ∈ ts → t < 8)
      → (digit (stab_loop s imgs k frame ts stab) q ≡ 1)
        ↔ ((digit stab q ≡ 1) ⊎ ((q ∈ ts) × (fixes q ≡ true)))
  unfolding stab_loop
  stab_loop-digit [] stab q h = (λ e. inl e, elim [ inl e ↦ e | inr (m, e) ↦ absurd m ])
  stab_loop-digit (t ∷ ts) stab q h = elim (Bool-cases (fixes t)) [
    | inl e ↦
        let rest = stab_loop-digit ts (bit_or stab (byte (2 ^ t))) q (λ u m. h u (inr m)) in
        let set = set_digit stab t q (h t (inl refl)) in
        rw e (
          λ d. elim (rest.0 d) [
            | inl one ↦ elim (set.0 one) [
              | inl old ↦ inl old
              | inr here ↦ inr (inl here, ap fixes here ∙ e)
            ]
            | inr (m, f) ↦ inr (inr m, f)
          ],
          elim [
            | inl old ↦ rest.1 (inl (set.1 (inl old)))
            | inr (inl here, f) ↦ rest.1 (inl (set.1 (inr here)))
            | inr (inr m, f) ↦ rest.1 (inr (m, f))
          ],
        )
    | inr e ↦
        let rest = stab_loop-digit ts stab q (λ u m. h u (inr m)) in
        rw e (
          λ d. elim (rest.0 d) [ inl old ↦ inl old | inr (m, f) ↦ inr (inr m, f) ],
          elim [
            | inl old ↦ rest.1 (inl old)
            | inr (inl here, f) ↦ absurd (ground (arith, ap fixes here))
            | inr (inr m, f) ↦ rest.1 (inr (m, f))
          ],
        )
  ]
    where
      set_digit :
          (stab t q : ℕ)
          → t < 8
          → (digit (bit_or stab (byte (2 ^ t))) q ≡ 1) ↔ ((digit stab q ≡ 1) ⊎ (q ≡ t))
      set_digit stab t q lt =
          let whole : byte (2 ^ t) ≡ 2 ^ t = omega (arith, two_pow-lt t 8 lt) in
          let both = digit-bit_or stab (2 ^ t) q in
          let pow = digit-pow t q in
          rw whole (
            λ d. elim (Bool-cases (t == q)) [
              | inl e ↦ inr (sym (==→≡ t q e))
              | inr e ↦ inl (ground arith)
            ],
            elim [
              | inl d ↦ ground (arith, digit-lt (2 ^ t) q)
              | inr e ↦ ground (arith, digit-lt stab q)
            ],
          )

module _ (n : ℕ) (small : n ≤ 8) where
  pub stab-lt : (st : State) → (canonical_mask_frame (new_symmetry n) st).stab < 2 ^ 8
  unfolding canonical_mask_frame
  stab-lt st = stab_loop-lt (new_symmetry n) _ _ _ (range 0 8) 0 (omega arith)

  abbrev images_of : State → List State
  images_of st = map (λ t. transform_state (new_symmetry n) t st) (range 0 8)

  -- The image that a round of the loop looks up.
  composed_image :
      (st : State)
      → IsOnBoard n st
      → (g : Turn) (frame : ℕ) → frame < 8
      → get_or (images_of st) (get_or (get_or (new_symmetry n).compose (index g) []) frame 0) 0
        ≡ image n small g (transform_state (new_symmetry n) frame st)
  composed_image st b g frame lt =
      let (h, at) = turn_of frame lt in
      let (k, entry, alike) = compose-acts n small g h in
      rw (sym at, entry)
        (get_or-map_upto (λ t. transform_state (new_symmetry n) t st) 0 8 (index k) (index-lt k)
          ∙ sym (image_same n small g h k alike st b))

  -- The bits of the stabilizer are the transforms that fix the canonical mask.
  pub stab-digit :
      (st : State)
      → IsOnBoard n st
      → (g : Turn)
      → (digit (canonical_mask_frame (new_symmetry n) st).stab (index g) ≡ 1) ↔ (
          image n small g (canonical_mask_frame (new_symmetry n) st).mask
          ≡ (canonical_mask_frame (new_symmetry n) st).mask)
  unfolding canonical_mask_frame
  stab-digit st b g =
      let (below, lt, e, rest) = canonical_mask_frame_least (new_symmetry n) st in
      let loop =
        stab_loop-digit (new_symmetry n) (images_of st)
          (canonical_mask_frame (new_symmetry n) st).mask
          (canonical_mask_frame (new_symmetry n) st).frame (range 0 8) 0 (index g)
          λ t m. omega (arith, ((mem-range 0 8 t).0 m).1) in
      let value = composed_image st b g _ lt ∙ ap (λ k. image n small g k) (sym e) in
      (
        λ d. elim (loop.0 d) [
          | inl none ↦ absurd (omega (arith, digit-zero (index g)))
          | inr (m, hit) ↦ sym value ∙ ==→≡ _ _ hit
        ],
        λ fixed. loop.1 (
            inr (
              (mem-range 0 8 (index g)).1 (omega arith, omega (arith, index-lt g)),
              ground (arith, value),
            )),
      )
