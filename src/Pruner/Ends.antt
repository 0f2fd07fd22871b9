-- ===== src/Pruner/Ends.antt =====
-- pruner/pruner.go, `globalCheck`: how the flood fill ends.
use knighttour.Prelude.{
  ℕ, zero, suc, ◌+◌, ◌<◌, ◌==◌, ltb, true, false, ◌≡◌, ◌≢◌, refl, ◌⊎◌, inl, inr, List, [], ◌∷◌,
  arith, Bool-cases, Bool,
}
use knighttour.State.{State, union, and_not, is_empty, count_bits, all_visited, intersect}
use knighttour.State.Bits.{IsWord, union-IsWord, and_not-IsWord, is_visited-empty}
use knighttour.State.Cells.{In}
use knighttour.State.Count.{count_bits-bound}
use knighttour.Graph.{Graph, get_neighbor_mask}
use knighttour.Graph.Masks.{IsBoard}
use knighttour.Pruner.{
  Reason, endpoints, dead_end, Flood, Outcome, cut, done, stuck, scan_cell, scan, flood,
}
use knighttour.Pruner.Frontier.{nbrs-IsWord}
use knighttour.Pruner.Fill.{grows, In-and_not}

-- A round ends with a cut, or with a next frontier that is a word.
Ended : Outcome Flood → Type 0
Ended r = ((x : Reason) × (r ≡ cut x)) ⊎ ((f : Flood) × (r ≡ done f) × IsWord f.next)

is_stuck : {A : Type 0} → Outcome A → Bool
is_stuck stuck = true
is_stuck (cut r) = false
is_stuck (done a) = false

module _ (g : Graph) (b : IsBoard g) (u : State) (w : IsWord u) where
  scan_cell-Ended : (q : ℕ) (f : Flood) → IsWord f.next → Ended (scan_cell g u q f)
  unfolding scan_cell Ended
  scan_cell-Ended q f wf =
      let nbrs = intersect (get_neighbor_mask g q) u in
      let word = union-IsWord f.next nbrs wf (nbrs-IsWord g b u w q) in
      elim (Bool-cases (count_bits nbrs == 0)) [
        | inl isolated ↦ rw isolated (inl (dead_end, refl))
        | inr some_left ↦ elim (Bool-cases (count_bits nbrs == 1)) [
          | inl one ↦ elim (Bool-cases (ltb 2 (f.deg1_count + 1))) [
            | inl over ↦ rw (some_left, one, over) (inl (endpoints, refl))
            | inr few ↦ rw (some_left, one, few) (inr (_, refl, word))
          ]
          | inr more ↦ rw (some_left, more) (inr (_, refl, word))
        ]
      ]

  scan-Ended : (us : List ℕ) (f : Flood) → IsWord f.next → Ended (scan g u us f)
  unfolding scan Ended
  scan-Ended [] f wf = inr (f, refl, wf)
  scan-Ended (q ∷ us) f wf = elim (scan_cell-Ended q f wf) [
    | inl (r, e) ↦ rw e (inl (r, refl))
    | inr (f', e, wf') ↦ rw e (scan-Ended us f' wf')
  ]

  flood-ends :
      (fuel : ℕ) (frontier seen : State) (f : Flood)
      → IsWord frontier
      → IsWord seen
      → ((q : ℕ) → In frontier q → ¬ In seen q)
      → 64 < count_bits seen + fuel
      → is_stuck (flood g fuel u frontier seen f) ≡ false
  unfolding flood is_stuck Ended
  flood-ends zero frontier seen f wf ws apart enough = absurd (omega (arith, count_bits-bound seen))
  flood-ends (suc fuel) frontier seen f wf ws apart enough = elim (Bool-cases (is_empty frontier)) [
    | inl ended ↦ rw ended refl
    | inr more ↦
        let seen' = union seen frontier in
        let word = union-IsWord seen frontier ws wf in
        let up = grows frontier seen wf more apart in
        elim (scan-Ended (all_visited frontier) (record f { next = 0 }) (omega arith)) [
          | inl (r, e) ↦ rw (more, e) refl
          | inr (f', e, wf') ↦
              rw (more, e)
                (flood-ends fuel (and_not f'.next seen') seen' f' (and_not-IsWord f'.next seen' wf')
                  word (λ q i. (In-and_not f'.next seen' q word i).1) (omega arith))
        ]
  ]

-- On a board, from any frontier and for every remainder, the flood fill ends within its fuel of
-- one round for each cell and a last test: it returns a cut or the cells it has seen, never `stuck`.
pub flood_ends :
    (g : Graph) (u frontier : State) (f : Flood)
    → IsBoard g
    → IsWord u
    → IsWord frontier
    → flood g 65 u frontier 0 f ≢ stuck
flood_ends g u frontier f b w wf e =
    let ends =
      flood-ends g b u w 65 frontier 0 f wf (omega arith)
        (λ q i j. cc (is_visited-empty q j.0, j.1)) (omega arith) in
    unfold is_stuck in cc (ends, e)
