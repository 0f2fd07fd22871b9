-- ===== src/Searcher/Answers.antt =====
-- searcher/searcher.go, `completions`: the count that the table answers with.
use native.Mathlib.Nat.{mul-div_cancel}
use knighttour.Prelude.{ℕ, zero, suc, ◌+◌, ◌*◌, ◌/◌, ◌≤◌, ◌<◌, ◌≡◌, refl, sym, ap, ◌∙◌, arith}
use knighttour.Prelude.{inl, inr, none, some, Option-cases, List, [], ◌∷◌, ◌∈◌, map, sum, Option}
use knighttour.State.{State, intersect}
use knighttour.State.Bits.{intersect-IsWord, is_visited-intersect}
use knighttour.State.Cells.{mem-all_visited}
use knighttour.Graph.{get_neighbor_mask}
use knighttour.Types.{Result}
use knighttour.Symmetry.{
  new_symmetry, canonical_mask_frame, canonical_class, class_rep, cell_orbit_size, transform_cell,
}
use knighttour.Symmetry.Canonical.{IsOnBoard}
use knighttour.Symmetry.OrbitSize.{cell_orbit_size-rep}
use knighttour.Cache.{Value, View, seal, view_get, value_weight}
use knighttour.Cache.Slots.{or_zero}
use knighttour.Cache.Table.{read}
use knighttour.Searcher.{Searcher, probe, candidates, completions}

-- The weight that a probe finds in the value of a mask, if there is one.
abbrev found_in : Option Value → ℕ → ℕ
found_in none rep = 0
found_in (some val) rep = or_zero (value_weight val rep)

found_in-read : (c : View) (key rep : ℕ) → found_in (view_get c key) rep ≡ or_zero (read c key rep)
unfolding read seal
found_in-read c key rep = elim (Option-cases (view_get c key)) [
  | inl e ↦ rw (e, read) refl
  | inr (val, e) ↦ rw (e, read) refl
]

no_factor : (a b : ℕ) → 0 < b → 0 ≡ a * b → a ≡ 0
no_factor zero b pos e = refl
no_factor (suc a) b pos e = absurd (omega arith)

-- The probes add up the numbers that the found weights are multiples of.
module _ (s : Searcher) (frame stab : ℕ) (f : ℕ → ℕ) where
  abbrev rep_of : ℕ → ℕ
  rep_of u = class_rep s.sym stab (transform_cell s.sym frame u)

  abbrev orbit_of : ℕ → ℕ
  orbit_of u = cell_orbit_size s.sym stab (rep_of u)

  probe-sum :
      (slot : Option Value) (us : List ℕ) (found : ℕ) (res : Result)
      → ((u : ℕ) → u ∈ us → (0 < orbit_of u) × (found_in slot (rep_of u) ≡ f u * orbit_of u))
      → (probe s frame stab slot us found res).0 ≡ found + sum (map f us)
  unfolding probe
  probe-sum slot [] found res h = omega arith
  probe-sum none (u ∷ us) found res h =
      let (pos, e) = h u (inl refl) in
      let nothing = no_factor (f u) (orbit_of u) pos e in
      let rest =
        probe-sum none us found (record res { cache_misses = res.cache_misses + 1 })
          (λ v m. h v (inr m)) in
      omega (arith, nothing, rest)
  probe-sum (some val) (u ∷ us) found res h =
      let (pos, e) = h u (inl refl) in
      elim (Option-cases (value_weight val (rep_of u))) [
        | inl miss ↦
            let nothing = no_factor (f u) (orbit_of u) pos (ap or_zero (sym miss) ∙ e) in
            rw (miss, probe)
              (probe-sum (some val) us found (record res { cache_misses = res.cache_misses + 1 })
                  (λ v m. h v (inr m))
                ∙ omega (arith, nothing))
        | inr (weight, hit) ↦
            let exact : weight / orbit_of u ≡ f u =
              ap (λ w. w / orbit_of u) (ap or_zero (sym hit) ∙ e) ∙ mul-div_cancel (f u) pos in
            rw (hit, probe)
              (probe-sum (some val) us (found + weight / orbit_of u)
                  (record res { cache_hits = res.cache_hits + 1 }) (λ v m. h v (inr m))
                ∙ omega (arith, exact))
      ]

module _ (n : ℕ) (small : n ≤ 8) (s : Searcher) (table : s.sym ≡ new_symmetry n) (unvisited : State)
    (b : IsOnBoard n unvisited) where
  candidates-lt : (end u : ℕ) → u ∈ candidates s unvisited end → u < n * n
  unfolding candidates
  candidates-lt end u m =
      let mask = get_neighbor_mask s.graph end in
      let (lt, seen) =
        (mem-all_visited (intersect mask unvisited) u (intersect-IsWord unvisited mask b.0)).0 m in
      let both = sym (is_visited-intersect mask unvisited u lt) ∙ seen in b.1 u (lt, ground arith)

  entry :
      (c : View) (u k : ℕ)
      → u < n * n
      → or_zero (
          read c
            (canonical_class (new_symmetry n) unvisited u).mask
            (canonical_class (new_symmetry n) unvisited u).rep)
        ≡ k * (canonical_class (new_symmetry n) unvisited u).orbit_size
      → let frame = canonical_mask_frame s.sym unvisited in
        let rep = class_rep s.sym frame.stab (transform_cell s.sym frame.frame u) in
        let orbit = cell_orbit_size s.sym frame.stab rep in
        (0 < orbit) × (found_in (view_get c frame.mask) rep ≡ k * orbit)
  unfolding canonical_class
  entry c u k lt holds =
      let (same, pos) = cell_orbit_size-rep n small unvisited u b lt in
      rw table (omega (arith, same, pos), found_in-read c _ _ ∙ holds ∙ ap (λ o. k * o) (sym same))

  -- On a board of side at most 8, for unvisited cells of it, an end and a table that holds, for the
  -- class of the unvisited cells with each unvisited neighbour of the end, the orbit size of the
  -- class times a number `f` of the neighbour (nothing for 0), `completions` answers with the sum of
  -- these numbers over the neighbours, each once.
  pub completions-sum :
      (end : ℕ) (c : View) (res : Result) (f : ℕ → ℕ)
      → ((u : ℕ)
          → u ∈ candidates s unvisited end
          → or_zero (
              read c
                (canonical_class (new_symmetry n) unvisited u).mask
                (canonical_class (new_symmetry n) unvisited u).rep)
            ≡ f u * (canonical_class (new_symmetry n) unvisited u).orbit_size)
      → (completions s unvisited end c res).0 ≡ sum (map f (candidates s unvisited end))
  unfolding completions
  completions-sum end c res f holds =
      let frame = canonical_mask_frame s.sym unvisited in
      probe-sum s frame.frame frame.stab f (view_get c frame.mask) (candidates s unvisited end) 0
        res (λ u m. entry c u (f u) (candidates-lt end u m) (holds u m))
      ∙ omega arith
