-- ===== src/Symmetry/Canonical.antt =====
-- symmetry/symmetry.go, `transformState`: the image of a state, cell by cell, and the images of
-- an image.
use knighttour.Prelude.{ℕ, ◌*◌, ◌≤◌, ◌<◌, ◌==◌, Bool, true, false, arith}
use knighttour.Prelude.{
  ◌≡◌, refl, sym, ap, ◌∙◌, ◌⊎◌, inl, inr, ◌↔◌, List, [], ◌∷◌, ◌∈◌, Bool-cases, ==→≡,
}
use knighttour.State.{State, visit, all_visited, new_state}
use knighttour.State.Bits.{IsWord, is_visited-digit, is_visited-visit, visit-IsWord, state_ext}
use knighttour.State.Cells.{In, mem-all_visited}
use knighttour.Words.Digits.{digit-zero}
use knighttour.Symmetry.{
  Symmetry, new_symmetry, perm, transform_cell, move_cells, transform_state, canonical_mask_frame,
}
use knighttour.Symmetry.Frame.{canonical_mask_frame_least}
use knighttour.Symmetry.Square.{
  Turn, index, turn_of, index-lt, on_cell, on_cell-lt, on_cell-after, after, square_lt,
}

-- The cells of a state after a visit.
visit-In : (s : State) (p q : ℕ) → p < 64 → In (visit s p) q ↔ ((p ≡ q) × (q < 64)) ⊎ In s q
visit-In s p q hp = (
  λ (lt, v).
      let split = sym (is_visited-visit s p q hp lt) ∙ v in
      elim (Bool-cases (p == q)) [ inl e ↦ inl (==→≡ p q e, lt) | inr e ↦ inr (lt, ground arith) ],
  elim [
    | inl (e, lt) ↦ (lt, is_visited-visit s p q hp lt ∙ ground arith)
    | inr (lt, v) ↦ (lt, is_visited-visit s p q hp lt ∙ ground arith)
  ],
)

empty-In : (q : ℕ) → In (new_state []) q → ⊥
unfolding new_state
empty-In q (lt, v) = ground (arith, is_visited-digit 0 q lt, digit-zero q)

module _ (s : Symmetry) (t : ℕ) where
  move_cells-IsWord : (cells : List ℕ) (u : State) → IsWord u → IsWord (move_cells s t cells u)
  unfolding move_cells
  move_cells-IsWord [] u w = w
  move_cells-IsWord (c ∷ cells) u w = move_cells-IsWord cells _ (visit-IsWord u 0 w _)

  -- The cells that the loop has moved.
  move_cells-In :
      (cells : List ℕ) (u : State)
      → ((c : ℕ) → c ∈ cells → perm s.perms t c < 64)
      → (q : ℕ)
      → In (move_cells s t cells u) q ↔ (In u q ⊎ ((c : ℕ) × (c ∈ cells) × (perm s.perms t c ≡ q)))
  unfolding move_cells
  move_cells-In [] u h q = (λ i. inl i, elim [ inl i ↦ i | inr (c, m, e) ↦ absurd m ])
  move_cells-In (c ∷ cells) u h q =
      let rest = move_cells-In cells (visit u (perm s.perms t c)) (λ d m. h d (inr m)) q in
      let step = visit-In u (perm s.perms t c) q (h c (inl refl)) in
      (
        λ i. elim (rest.0 i) [
          | inl v ↦ elim (step.0 v) [ inl (e, lt) ↦ inr (c, inl refl, e) | inr old ↦ inl old ]
          | inr (d, m, e) ↦ inr (d, inr m, e)
        ],
        elim [
          | inl old ↦ rest.1 (inl (step.1 (inr old)))
          | inr (d, inl here, e) ↦
              let hit : perm s.perms t c ≡ q = ap (λ k. perm s.perms t k) (sym here) ∙ e in
              let below = h c (inl refl) in rest.1 (inl (step.1 (inl (hit, omega arith))))
          | inr (d, inr m, e) ↦ rest.1 (inr (d, m, e))
        ],
      )

pub same_test : (a b : Bool) → (a ≡ true → b ≡ true) → (b ≡ true → a ≡ true) → a ≡ b
same_test true b f g = sym (f refl)
same_test false true f g = g refl
same_test false false f g = refl

pub same_cells : (s t : State) → IsWord s → IsWord t → ((q : ℕ) → In s q ↔ In t q) → s ≡ t
same_cells s t ws wt same =
    state_ext s t ws wt
      λ q lt. same_test _ _ (λ v. ((same q).0 (lt, v)).1) (λ v. ((same q).1 (lt, v)).1)

-- A state of a board of side `n`.
abbrev pub IsOnBoard : ℕ → State → Type 0
IsOnBoard n s = IsWord s × ((c : ℕ) → In s c → c < n * n)

module _ (n : ℕ) (small : n ≤ 8) where
  abbrev pub image : Turn → State → State
  image g s = transform_state (new_symmetry n) (index g) s

  pub image-In :
      (g : Turn) (s : State)
      → IsOnBoard n s
      → (q : ℕ) → In (image g s) q ↔ ((c : ℕ) × In s c × (on_cell n g c ≡ q))
  unfolding transform_state transform_cell
  image-In g s (w, inside) q =
      let cell = λ (c : ℕ). mem-all_visited s c w in
      let below : (c : ℕ) → c ∈ all_visited s → on_cell n g c < 64 =
        λ c m. omega (arith, on_cell-lt n small g c (inside c ((cell c).0 m)), square_lt n small) in
      let moved = move_cells-In (new_symmetry n) (index g) (all_visited s) (new_state []) below q in
      (
        λ i. elim (moved.0 i) [
          | inl v ↦ absurd (empty-In q v)
          | inr (c, m, e) ↦ (c, (cell c).0 m, e)
        ],
        λ (c, i, e). moved.1 (inr (c, (cell c).1 i, e)),
      )

  pub image-IsOnBoard : (g : Turn) (s : State) → IsOnBoard n s → IsOnBoard n (image g s)
  unfolding transform_state new_state
  image-IsOnBoard g s b = (
    move_cells-IsWord (new_symmetry n) (index g) (all_visited s) 0 (omega arith),
    λ q i.
        let (c, j, e) = (image-In g s b q).0 i in omega (arith, on_cell-lt n small g c (b.1 c j)),
  )

  -- Symmetries that act alike on the cells have the same images.
  pub image_same :
      (g h k : Turn)
      → ((c : ℕ) → c < n * n → on_cell n k c ≡ on_cell n (after g h) c)
      → (s : State) → IsOnBoard n s
      → image g (image h s) ≡ image k s
  image_same g h k alike s b =
      let hb = image-IsOnBoard h s b in
      same_cells _ _ (image-IsOnBoard g _ hb).0 (image-IsOnBoard k s b).0 λ q. (
        λ i.
            let (d, j, e) = (image-In g _ hb q).0 i in
            let (c, m, f) = (image-In h s b d).0 j in
            let moved = on_cell-after n small g h c (b.1 c m) in
            (image-In k s b q).1
              (c, m, alike c (b.1 c m) ∙ sym moved ∙ ap (λ p. on_cell n g p) f ∙ e),
        λ i.
            let (c, m, e) = (image-In k s b q).0 i in
            let moved = on_cell-after n small g h c (b.1 c m) in
            (image-In g _ hb q).1 (
              on_cell n h c,
              (image-In h s b _).1 (c, m, refl),
              moved ∙ sym (alike c (b.1 c m)) ∙ e,
            ),
      )

  pub image-image :
      (g h : Turn) (s : State) → IsOnBoard n s → image g (image h s) ≡ image (after g h) s
  image-image g h s b = image_same g h (after g h) (λ c lt. refl) s b

  -- The canonical mask is at most the image under each symmetry, and is one of them.
  pub mask_le : (s : State) (g : Turn) → (canonical_mask_frame (new_symmetry n) s).mask ≤ image g s
  mask_le s g = (canonical_mask_frame_least (new_symmetry n) s).0 (index g) (index-lt g)

  pub mask_image :
      (s : State) → (g : Turn) × ((canonical_mask_frame (new_symmetry n) s).mask ≡ image g s)
  mask_image s =
      let (below, lt, e, rest) = canonical_mask_frame_least (new_symmetry n) s in
      let (g, at) = turn_of _ lt in (g, e ∙ ap (λ t. transform_state (new_symmetry n) t s) (sym at))
