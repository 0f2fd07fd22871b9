-- ===== src/Symmetry/Compose.antt =====
-- symmetry/symmetry.go, `buildCompose` and the stabilizer in `CanonicalMaskFrame`: the table of
-- compositions names the composed symmetry, and the bits of the stabilizer are the symmetries that
-- fix the canonical mask.
use mathlib.Core.Path.{subst}
use knighttour.Prelude.{ℕ, zero, suc, ◌+◌, ◌*◌, ◌≤◌, ◌<◌, ◌==◌, true, arith}
use knighttour.Prelude.{
  ◌≡◌, refl, sym, ap, ◌∙◌, inl, inr, ◌↔◌, List, [], ◌∷◌, ◌∈◌, map, get_or, range, get_or-map_upto,
  Bool-cases, ==→≡,
}
use knighttour.Symmetry.{
  new_symmetry, perm, perm_row, get_symmetries, composed_equal, index_of_composition, build_compose,
  transform_cell,
}
use knighttour.Symmetry.Square.{Turn, index, turn_of, index-lt, on_cell, on_cell-after, after}

pub mem-range : (lo n q : ℕ) → (q ∈ range lo n) ↔ ((lo ≤ q) × (q < lo + n))
mem-range lo zero q = (λ m. absurd m, λ h. absurd (omega arith))
mem-range lo (suc n) q =
    let rest = mem-range (suc lo) n q in
    (
      elim [
        | inl e ↦ (omega arith, omega arith)
        | inr m ↦ let h = rest.0 m in (omega (arith, h.0), omega (arith, h.1))
      ],
      λ h. elim (Bool-cases (q == lo)) [
        | inl e ↦ inl (==→≡ q lo e)
        | inr e ↦ inr (rest.1 (ground arith, omega arith))
      ],
    )

module _ (perms : List (List ℕ)) (i j : ℕ) where
  composed_equal-true :
      (k : ℕ) (cs : List ℕ)
      → (composed_equal perms i j k cs ≡ true)
        ↔ ((c : ℕ) → c ∈ cs → perm perms k c ≡ perm perms i (perm perms j c))
  unfolding composed_equal
  composed_equal-true k [] = (λ e c m. absurd m, λ h. refl)
  composed_equal-true k (d ∷ cs) =
      let rest = composed_equal-true k cs in
      elim (Bool-cases (perm perms k d == perm perms i (perm perms j d))) [
        | inl e ↦ rw e (
          λ t c. elim [ inl here ↦ rw here (==→≡ _ _ e) | inr m ↦ rest.0 t c m ],
          λ h. rest.1 λ c m. h c (inr m),
        )
        | inr e ↦ rw e (λ t. absurd (ground arith), λ h. ground (arith, h d (inl refl)))
      ]

  index_of_composition-found :
      (size : ℕ) (ks : List ℕ)
      → ((k : ℕ) × (k ∈ ks) × (composed_equal perms i j k (range 0 (size * size)) ≡ true))
      → (index_of_composition perms size i j ks ∈ ks)
        × (composed_equal perms i j (index_of_composition perms size i j ks) (range 0 (size * size))
            ≡ true)
  unfolding index_of_composition
  index_of_composition-found size [] (k, m, e) = absurd m
  index_of_composition-found size (l ∷ ks) (k, m, e) =
      elim (Bool-cases (composed_equal perms i j l (range 0 (size * size)))) [
        | inl hit ↦ rw hit (inl refl, hit)
        | inr miss ↦ elim m [
          | inl here ↦
              absurd
                (ground (arith, ap (λ v. composed_equal perms i j v (range 0 (size * size))) here))
          | inr later ↦
              let (inside, hit) = index_of_composition-found size ks (k, later, e) in
              let next : index_of_composition perms size i j (l ∷ ks)
                  ≡ index_of_composition perms size i j ks =
                rw miss refl in
              (
                inr (subst (λ v. v ∈ ks) (sym next) inside),
                ap (λ v. composed_equal perms i j v (range 0 (size * size))) next ∙ hit,
              )
        ]
      ]

build_compose-at :
    (perms : List (List ℕ)) (size t f : ℕ)
    → t < 8
    → f < 8
    → get_or (get_or (build_compose perms size) t []) f 0
      ≡ index_of_composition perms size t f (range 0 8)
unfolding build_compose
build_compose-at perms size t f ht hf =
    let entry = λ (i j : ℕ). index_of_composition perms size i j (range 0 8) in
    ap (λ row. get_or row f 0) (get_or-map_upto (λ i. map (entry i) (range 0 8)) [] 8 t ht)
    ∙ get_or-map_upto (entry t) 0 8 f hf

module _ (n : ℕ) (small : n ≤ 8) where
  abbrev rows : List (List ℕ)
  rows = map (perm_row n) get_symmetries

  rows_act : (g : Turn) (c : ℕ) → perm rows (index g) c ≡ on_cell n g c
  unfolding transform_cell new_symmetry
  rows_act g c = refl

  composes :
      (g h : Turn)
      → composed_equal rows (index g) (index h) (index (after g h)) (range 0 (n * n)) ≡ true
  unfolding transform_cell new_symmetry
  composes g h =
      (composed_equal-true rows (index g) (index h) (index (after g h)) (range 0 (n * n))).1
        λ c m. sym (on_cell-after n small g h c (omega (arith, ((mem-range 0 (n * n) c).0 m).1)))

  -- The entry of the table is the index of a symmetry that acts as the composition.
  pub compose-acts :
      (g h : Turn)
      → (k : Turn) × (get_or (get_or (new_symmetry n).compose (index g) []) (index h) 0 ≡ index k)
        × ((c : ℕ) → c < n * n → on_cell n k c ≡ on_cell n (after g h) c)
  unfolding new_symmetry transform_cell
  compose-acts g h =
      let (inside, hit) = index_of_composition-found rows (index g) (index h) n (range 0 8) (
        index (after g h),
        (mem-range 0 8 _).1 (omega arith, index-lt (after g h)),
        composes g h,
      ) in
      let (k, at) = turn_of _ ((mem-range 0 8 _).0 inside).1 in
      (
        k,
        build_compose-at rows n (index g) (index h) (index-lt g) (index-lt h) ∙ sym at,
        λ c lt.
            ap (λ t. perm rows t c) at
            ∙ (composed_equal-true rows (index g) (index h) _ (range 0 (n * n))).0 hit c
                ((mem-range 0 (n * n) c).1 (omega arith, omega arith))
            ∙ on_cell-after n small g h c lt,
      )
