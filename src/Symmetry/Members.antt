-- ===== src/Symmetry/Members.antt =====
-- symmetry/symmetry.go, `buildCanonicalGroups`: the cells that its groups hold, step by step.
use knighttour.Prelude.{ℕ, ◌==◌, ltb}
use knighttour.Prelude.{
  ◌≡◌, sym, ap, ◌∙◌, ◌⊎◌, inl, inr, ◌↔◌, List, [], ◌∷◌, ◌++◌, ◌∈◌, length, get_or, Bool-cases, ==→≡,
}
use knighttour.Symmetry.{
  CanonicalGroup, add_position, insert_group, insert_int, sort_ints, group_cells, finish_groups,
}

-- One alternative past another.
past : {A B C D : Type 0} → (A ↔ (B ⊎ C)) → ((D ⊎ A) ↔ (B ⊎ (D ⊎ C)))
past rest = (
  elim [ inl d ↦ inr (inl d) | inr a ↦ elim (rest.0 a) [ inl b ↦ inl b | inr c ↦ inr (inr c) ] ],
  elim [ inl b ↦ inr (rest.1 (inl b)) | inr (inl d) ↦ inl d | inr (inr c) ↦ inr (rest.1 (inr c)) ],
)

mem-insert_int : (n : ℕ) (xs : List ℕ) (p : ℕ) → (p ∈ insert_int n xs) ↔ ((p ≡ n) ⊎ (p ∈ xs))
unfolding insert_int
mem-insert_int n [] p = (λ m. m, λ m. m)
mem-insert_int n (x ∷ xs) p =
    let rest = mem-insert_int n xs p in
    elim (Bool-cases (ltb x n)) [ inl e ↦ rw e (past rest) | inr e ↦ rw e (λ m. m, λ m. m) ]

pub mem-sort_ints : (xs : List ℕ) (p : ℕ) → (p ∈ sort_ints xs) ↔ (p ∈ xs)
unfolding sort_ints
mem-sort_ints [] p = (λ m. m, λ m. m)
mem-sort_ints (x ∷ xs) p =
    let rest = mem-sort_ints xs p in
    let first = mem-insert_int x (sort_ints xs) p in
    (
      λ m. elim (first.0 m) [ inl h ↦ inl h | inr l ↦ inr (rest.0 l) ],
      elim [ inl h ↦ first.1 (inl h) | inr l ↦ first.1 (inr (rest.1 l)) ],
    )

-- Some group of a list has a property.
abbrev pub Some : (CanonicalGroup → Type 0) → List CanonicalGroup → Type 0
Some P [] = ⊥
Some P (g ∷ gs) = P g ⊎ Some P gs

-- A cell stands in the group of a key.
abbrev pub IsAt : ℕ → ℕ → CanonicalGroup → Type 0
IsAt k p g = (g.canonical ≡ k) × (p ∈ g.positions)

abbrev pub HasKey : ℕ → CanonicalGroup → Type 0
HasKey k g = g.canonical ≡ k

mem_snoc : (xs : List ℕ) (c p : ℕ) → (p ∈ (xs ++ c ∷ [])) ↔ ((p ∈ xs) ⊎ (p ≡ c))
mem_snoc [] c p =
    (elim [ inl e ↦ inr e | inr m ↦ absurd m ], elim [ inl m ↦ absurd m | inr e ↦ inl e ])
mem_snoc (x ∷ xs) c p =
    let rest = mem_snoc xs c p in
    (
      elim [
        | inl e ↦ inl (inl e)
        | inr m ↦ elim (rest.0 m) [ inl l ↦ inl (inr l) | inr e ↦ inr e ]
      ],
      elim [
        | inl (inl e) ↦ inl e
        | inl (inr l) ↦ inr (rest.1 (inl l))
        | inr e ↦ inr (rest.1 (inr e))
      ],
    )

pub add_position-IsAt :
    (key c : ℕ) (gs : List CanonicalGroup) (k p : ℕ)
    → Some (IsAt k p) (add_position key c gs) ↔ (Some (IsAt k p) gs ⊎ ((key ≡ k) × (p ≡ c)))
unfolding add_position
add_position-IsAt key c [] k p = (
  elim [ inl (e, inl h) ↦ inr (e, h) | inl (e, inr m) ↦ absurd m | inr m ↦ absurd m ],
  elim [ inl m ↦ absurd m | inr (e, h) ↦ inl (e, inl h) ],
)
add_position-IsAt key c (x ∷ xs) k p =
    let rest = add_position-IsAt key c xs k p in
    let more = mem_snoc x.positions c p in
    elim (Bool-cases (x.canonical == key)) [
      | inl e ↦
          let here = ==→≡ x.canonical key e in
          rw e (
            elim [
              | inl (q, m) ↦ elim (more.0 m) [
                | inl l ↦ inl (inl (q, l))
                | inr h ↦ inr (sym here ∙ q, h)
              ]
              | inr m ↦ inl (inr m)
            ],
            elim [
              | inl (inl (q, l)) ↦ inl (q, more.1 (inl l))
              | inl (inr m) ↦ inr m
              | inr (q, h) ↦ inl (here ∙ q, more.1 (inr h))
            ],
          )
      | inr e ↦ rw e (
        elim [
          | inl h ↦ inl (inl h)
          | inr m ↦ elim (rest.0 m) [ inl l ↦ inl (inr l) | inr h ↦ inr h ]
        ],
        elim [
          | inl (inl h) ↦ inl h
          | inl (inr m) ↦ inr (rest.1 (inl m))
          | inr h ↦ inr (rest.1 (inr h))
        ],
      )
    ]

pub group_cells-IsAt :
    (canonical cells : List ℕ) (gs : List CanonicalGroup) (k p : ℕ)
    → Some (IsAt k p) (group_cells canonical cells gs)
      ↔ (Some (IsAt k p) gs ⊎ ((p ∈ cells) × (get_or canonical p 0 ≡ k)))
unfolding group_cells
group_cells-IsAt canonical [] gs k p = (λ m. inl m, elim [ inl m ↦ m | inr (m, e) ↦ absurd m ])
group_cells-IsAt canonical (c ∷ cells) gs k p =
    let rest = group_cells-IsAt canonical cells (add_position (get_or canonical c 0) c gs) k p in
    let step = add_position-IsAt (get_or canonical c 0) c gs k p in
    (
      λ m. elim (rest.0 m) [
        | inl l ↦ elim (step.0 l) [
          | inl old ↦ inl old
          | inr (e, h) ↦ inr (inl h, ap (λ v. get_or canonical v 0) h ∙ e)
        ]
        | inr (l, e) ↦ inr (inr l, e)
      ],
      elim [
        | inl old ↦ rest.1 (inl (step.1 (inl old)))
        | inr (inl h, e) ↦
            rest.1 (inl (step.1 (inr (ap (λ v. get_or canonical v 0) (sym h) ∙ e, h))))
        | inr (inr l, e) ↦ rest.1 (inr (l, e))
      ],
    )

pub insert_group-Some :
    (P : CanonicalGroup → Type 0) (g : CanonicalGroup) (gs : List CanonicalGroup)
    → Some P (insert_group g gs) ↔ (P g ⊎ Some P gs)
unfolding insert_group
insert_group-Some P g [] = (λ m. m, λ m. m)
insert_group-Some P g (x ∷ xs) =
    let rest = insert_group-Some P g xs in
    elim (Bool-cases (ltb x.canonical g.canonical)) [
      | inl e ↦ rw e (past rest)
      | inr e ↦ rw e (λ m. m, λ m. m)
    ]

-- A group as `buildCanonicalGroups` returns it.
abbrev pub finished : CanonicalGroup → CanonicalGroup
finished g = record g { orbit_size = length g.positions; positions = sort_ints g.positions }

pub finish_groups-Some :
    (P : CanonicalGroup → Type 0) (gs : List CanonicalGroup)
    → Some P (finish_groups gs) ↔ Some (λ g. P (finished g)) gs
unfolding finish_groups
finish_groups-Some P [] = (λ m. m, λ m. m)
finish_groups-Some P (g ∷ gs) =
    let rest = finish_groups-Some P gs in
    let first = insert_group-Some P (finished g) (finish_groups gs) in
    (
      λ m. elim (first.0 m) [ inl h ↦ inl h | inr l ↦ inr (rest.0 l) ],
      elim [ inl h ↦ first.1 (inl h) | inr l ↦ first.1 (inr (rest.1 l)) ],
    )

pub finished-IsAt :
    (k p : ℕ) (gs : List CanonicalGroup) → Some (λ g. IsAt k p (finished g)) gs ↔ Some (IsAt k p) gs
finished-IsAt k p [] = (λ m. m, λ m. m)
finished-IsAt k p (g ∷ gs) =
    let rest = finished-IsAt k p gs in
    let sorted = mem-sort_ints g.positions p in
    (
      elim [ inl (e, m) ↦ inl (e, sorted.0 m) | inr l ↦ inr (rest.0 l) ],
      elim [ inl (e, m) ↦ inl (e, sorted.1 m) | inr l ↦ inr (rest.1 l) ],
    )
