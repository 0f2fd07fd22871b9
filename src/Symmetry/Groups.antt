-- ===== src/Symmetry/Groups.antt =====
-- symmetry/symmetry.go, `buildCanonicalGroups`: the groups of starting cells part the board.
use knighttour.Prelude.{ℕ, zero, suc, ◌+◌, ◌*◌, ◌≤◌, ◌<◌, ◌==◌, ltb, arith}
use knighttour.Prelude.{
  ◌≡◌, refl, sym, ◌∙◌, ◌⊎◌, inl, inr, ◌↔◌, List, [], ◌∷◌, ◌++◌, map, length, sum, range, get_or,
  Bool-cases, ltb→lt,
}
use knighttour.Symmetry.{
  CanonicalGroup, new_symmetry, add_position, insert_group, insert_int, sort_ints, group_cells,
  finish_groups, build_canonical_groups, get_canonical_position, get_canonical_groups,
  transform_cell,
}
use knighttour.Symmetry.Compose.{mem-range}
use knighttour.Symmetry.Starts.{get_canonical_position_orbits}
use knighttour.Symmetry.Members.{
  Some, IsAt, HasKey, group_cells-IsAt, insert_group-Some, finished, finish_groups-Some,
  finished-IsAt,
}

-- The keys of the groups ascend.
abbrev pub KeysAscend : List CanonicalGroup → Type 0
KeysAscend [] = Unit
KeysAscend (g ∷ gs) = ((k : ℕ) → Some (HasKey k) gs → g.canonical < k) × KeysAscend gs

abbrev KeysDiffer : List CanonicalGroup → Type 0
KeysDiffer [] = Unit
KeysDiffer (g ∷ gs) = (Some (HasKey g.canonical) gs → ⊥) × KeysDiffer gs

insert_group-KeysAscend :
    (g : CanonicalGroup) (gs : List CanonicalGroup)
    → (Some (HasKey g.canonical) gs → ⊥)
    → KeysAscend gs
    → KeysAscend (insert_group g gs)
unfolding insert_group
insert_group-KeysAscend g [] new a = (λ k m. absurd m, tt)
insert_group-KeysAscend g (x ∷ xs) new (above, a) =
    elim (Bool-cases (ltb x.canonical g.canonical)) [
      | inl e ↦
          let less = ltb→lt x.canonical g.canonical e in
          rw e (
            λ k m. elim ((insert_group-Some (HasKey k) g xs).0 m) [
              | inl h ↦ omega arith
              | inr l ↦ above k l
            ],
            insert_group-KeysAscend g xs (λ l. new (inr l)) a,
          )
      | inr e ↦
          let other : x.canonical ≡ g.canonical → ⊥ = λ q. new (inl q) in
          let less : g.canonical < x.canonical = ground arith in
          rw e (λ k. elim [ inl h ↦ omega arith | inr l ↦ omega (arith, above k l) ], (above, a))
    ]

finish_groups-KeysAscend :
    (gs : List CanonicalGroup) → KeysDiffer gs → KeysAscend (finish_groups gs)
unfolding finish_groups
finish_groups-KeysAscend [] d = tt
finish_groups-KeysAscend (g ∷ gs) (new, d) =
    insert_group-KeysAscend (finished g) (finish_groups gs)
      (λ m. new ((finish_groups-Some (HasKey g.canonical) gs).0 m)) (finish_groups-KeysAscend gs d)

add_position-HasKey :
    (key c : ℕ) (gs : List CanonicalGroup) (k : ℕ)
    → Some (HasKey k) (add_position key c gs)
    → Some (HasKey k) gs ⊎ (key ≡ k)
unfolding add_position
add_position-HasKey key c [] k = elim [ inl e ↦ inr e | inr m ↦ absurd m ]
add_position-HasKey key c (x ∷ xs) k =
    let rest = add_position-HasKey key c xs k in
    elim (Bool-cases (x.canonical == key)) [
      | inl e ↦ rw e (λ m. inl m)
      | inr e ↦ rw e (elim [
        | inl h ↦ inl (inl h)
        | inr m ↦ elim (rest m) [ inl l ↦ inl (inr l) | inr h ↦ inr h ]
      ])
    ]

add_position-KeysDiffer :
    (key c : ℕ) (gs : List CanonicalGroup) → KeysDiffer gs → KeysDiffer (add_position key c gs)
unfolding add_position
add_position-KeysDiffer key c [] d = (λ m. absurd m, tt)
add_position-KeysDiffer key c (x ∷ xs) (new, d) =
    let rest = add_position-KeysDiffer key c xs d in
    let keys = add_position-HasKey key c xs x.canonical in
    elim (Bool-cases (x.canonical == key)) [
      | inl e ↦ rw e (new, d)
      | inr e ↦ rw e (λ m. elim (keys m) [ inl l ↦ new l | inr h ↦ absurd (ground arith) ], rest)
    ]

group_cells-KeysDiffer :
    (canonical cells : List ℕ) (gs : List CanonicalGroup)
    → KeysDiffer gs
    → KeysDiffer (group_cells canonical cells gs)
unfolding group_cells
group_cells-KeysDiffer canonical [] gs d = d
group_cells-KeysDiffer canonical (c ∷ cells) gs d =
    group_cells-KeysDiffer canonical cells _ (add_position-KeysDiffer _ c gs d)

length-insert_int : (n : ℕ) (xs : List ℕ) → length (insert_int n xs) ≡ suc (length xs)
unfolding insert_int
length-insert_int n [] = refl
length-insert_int n (x ∷ xs) = ground (arith, length-insert_int n xs)

length-sort_ints : (xs : List ℕ) → length (sort_ints xs) ≡ length xs
unfolding sort_ints
length-sort_ints [] = refl
length-sort_ints (x ∷ xs) = omega (arith, length-insert_int x (sort_ints xs), length-sort_ints xs)

-- The numbers of cells of the groups.
abbrev pub cells_of : CanonicalGroup → ℕ
cells_of g = length g.positions

abbrev pub IsSized : List CanonicalGroup → Type 0
IsSized [] = Unit
IsSized (g ∷ gs) = (g.orbit_size ≡ length g.positions) × IsSized gs

insert_group-IsSized :
    (g : CanonicalGroup) (gs : List CanonicalGroup)
    → (g.orbit_size ≡ length g.positions)
    → IsSized gs
    → IsSized (insert_group g gs)
      × (sum (map cells_of (insert_group g gs)) ≡ length g.positions + sum (map cells_of gs))
unfolding insert_group
insert_group-IsSized g [] e s = ((e, s), refl)
insert_group-IsSized g (x ∷ xs) e (h, s) =
    let (sized, total) = insert_group-IsSized g xs e s in
    elim (Bool-cases (ltb x.canonical g.canonical)) [
      | inl q ↦ rw q ((h, sized), omega arith)
      | inr q ↦ rw q ((e, (h, s)), refl)
    ]

finish_groups-IsSized :
    (gs : List CanonicalGroup)
    → IsSized (finish_groups gs) × (sum (map cells_of (finish_groups gs)) ≡ sum (map cells_of gs))
unfolding finish_groups
finish_groups-IsSized [] = (tt, refl)
finish_groups-IsSized (g ∷ gs) =
    let (sized, total) = finish_groups-IsSized gs in
    let (all_sized, all_total) =
      insert_group-IsSized (finished g) (finish_groups gs) (sym (length-sort_ints g.positions))
        sized in
    (all_sized, omega (arith, all_total, length-sort_ints g.positions))

length_snoc : (xs : List ℕ) (c : ℕ) → length (xs ++ c ∷ []) ≡ suc (length xs)
length_snoc [] c = refl
length_snoc (x ∷ xs) c = omega (arith, length_snoc xs c)

add_position_total :
    (key c : ℕ) (gs : List CanonicalGroup)
    → sum (map cells_of (add_position key c gs)) ≡ suc (sum (map cells_of gs))
unfolding add_position
add_position_total key c [] = refl
add_position_total key c (x ∷ xs) =
    let rest = add_position_total key c xs in
    elim (Bool-cases (x.canonical == key)) [
      | inl e ↦ rw e (omega (arith, length_snoc x.positions c))
      | inr e ↦ rw e (omega (arith, rest))
    ]

group_cells_total :
    (canonical cells : List ℕ) (gs : List CanonicalGroup)
    → sum (map cells_of (group_cells canonical cells gs)) ≡ length cells + sum (map cells_of gs)
unfolding group_cells
group_cells_total canonical [] gs = omega arith
group_cells_total canonical (c ∷ cells) gs =
    let rest = group_cells_total canonical cells (add_position (get_or canonical c 0) c gs) in
    omega (arith, rest, add_position_total (get_or canonical c 0) c gs)

length-range : (lo n : ℕ) → length (range lo n) ≡ n
length-range lo zero = refl
length-range lo (suc n) = omega (arith, length-range (suc lo) n)

-- The groups of a symmetry table: ascending keys, the cells of each key, the sizes and their sum.
groups_parts :
    (size : ℕ)
    → KeysAscend (get_canonical_groups (new_symmetry size))
      × ((k p : ℕ)
          → Some (IsAt k p) (get_canonical_groups (new_symmetry size))
            ↔ ((p < size * size) × (get_canonical_position (new_symmetry size) p ≡ k)))
      × IsSized (get_canonical_groups (new_symmetry size))
      × (sum (map cells_of (get_canonical_groups (new_symmetry size))) ≡ size * size)
unfolding new_symmetry build_canonical_groups get_canonical_position
groups_parts size =
    let canonical = (new_symmetry size).canonical in
    let cells = range 0 (size * size) in
    let groups = group_cells canonical cells [] in
    let (sized, total) = finish_groups-IsSized groups in
    (
      finish_groups-KeysAscend groups (group_cells-KeysDiffer canonical cells [] tt),
      λ k p.
          let done = finish_groups-Some (IsAt k p) groups in
          let same = finished-IsAt k p groups in
          let placed = group_cells-IsAt canonical cells [] k p in
          let inside = mem-range 0 (size * size) p in
          (
            λ m. elim (placed.0 (same.0 (done.0 m))) [
              | inl none ↦ absurd none
              | inr (i, e) ↦ (omega (arith, (inside.0 i).1), e)
            ],
            λ h. done.1 (same.1 (placed.1 (inr (inside.1 (omega arith, omega (arith, h.0)), h.1)))),
          ),
      sized,
      omega (arith, total, group_cells_total canonical cells [], length-range 0 (size * size)),
    )

-- For a board of side at most 8, the groups of `GetCanonicalGroups` stand in ascending order of their
-- canonical cells, which all differ; a cell stands in the group of a key exactly when it is a cell
-- of the board whose canonical position is the key; two cells of the board stand in one group
-- exactly when one of the eight transforms takes the first to the second; the orbit size of each
-- group is the number of its cells, and these numbers add up to the cells of the board.
pub get_canonical_groups_parts :
    (size : ℕ)
    → size ≤ 8
    → KeysAscend (get_canonical_groups (new_symmetry size))
      × ((k p : ℕ)
          → Some (IsAt k p) (get_canonical_groups (new_symmetry size))
            ↔ ((p < size * size) × (get_canonical_position (new_symmetry size) p ≡ k)))
      × ((p q : ℕ)
          → p < size * size
          → q < size * size
          → ((k : ℕ) × Some (IsAt k p) (get_canonical_groups (new_symmetry size))
              × Some (IsAt k q) (get_canonical_groups (new_symmetry size)))
            ↔ ((t : ℕ) × (t < 8) × (transform_cell (new_symmetry size) t p ≡ q)))
      × IsSized (get_canonical_groups (new_symmetry size))
      × (sum (map cells_of (get_canonical_groups (new_symmetry size))) ≡ size * size)
get_canonical_groups_parts size small =
    let (ascend, cells, sized, total) = groups_parts size in
    (
      ascend,
      cells,
      λ p q lp lq.
          let orbit = (get_canonical_position_orbits size small p q lp lq).2 in
          (
            λ (k, at_p, at_q). orbit.0 (((cells k p).0 at_p).1 ∙ sym ((cells k q).0 at_q).1),
            λ related.
                let same = orbit.1 related in
                (_, (cells _ p).1 (lp, same), (cells _ q).1 (lq, refl)),
          ),
      sized,
      total,
    )
