-- ===== src/Pruner.antt =====
-- pruner/pruner.go: the checks that cut a branch of the descent. The pruner has no state but its
-- graph, which every function takes.
pub mod Chain
pub mod Path
pub mod Frontier
pub mod Fill
pub mod Sound
pub mod Ends
use knighttour.Prelude.{
  ℕ, zero, suc, ◌+◌, ◌==◌, ltb, if◌then◌else◌, Bool, true, false, not, ◌&&◌, ◌||◌,
}
use knighttour.Prelude.{List, [], ◌∷◌}
use knighttour.State.{
  State, bit, visit, intersect, union, and_not, is_empty, count_bits, trailing_zero_bits,
  all_visited,
}
use knighttour.Graph.{Graph, get_neighbor_mask}

pub data Reason : Type 0 where
  no_reason dead_end no_continuation disconnected endpoints forced_chain : Reason

-- The variables of the flood fill that a round of its inner loop changes.
pub record Flood : Type 0 where
  pub deg1_mask : State
  pub deg1_count : ℕ
  pub next : State

-- How a part of `globalCheck` ends: a `return true, reason`, or the values it leaves. `stuck` is
-- the loop of the model without fuel.
pub data Outcome {ℓ} (A : Type ℓ) : Type ℓ where
  cut : Reason → Outcome A
  done : A → Outcome A
  stuck : Outcome A

infixl 5 ◌>>=◌
abbrev pub ◌>>=◌ {ℓ κ} : {A : Type ℓ} {B : Type κ} → Outcome A → (A → Outcome B) → Outcome B
cut r >>= f = cut r
done a >>= f = f a
stuck >>= f = stuck

module _ (g : Graph) where
  -- The loop over the unvisited neighbours of `last`.
  unfoldable pub isolates : State → List ℕ → Bool
  isolates unvisited [] = false
  isolates unvisited (u ∷ us) =
      is_empty (intersect (get_neighbor_mask g u) unvisited) || isolates unvisited us

  -- The body of the loop over the frontier: the `switch` on the degree, then `next`.
  unfoldable pub scan_cell : State → ℕ → Flood → Outcome Flood
  scan_cell unvisited u f =
      let nbrs = intersect (get_neighbor_mask g u) unvisited in
      let next = union f.next nbrs in
      let count = f.deg1_count + 1 in
      if count_bits nbrs == 0
      then cut dead_end
      else if count_bits nbrs == 1
      then (if ltb 2 count
          then cut endpoints
          else done (record { deg1_mask = visit f.deg1_mask u; deg1_count = count; next = next }))
      else done (record f { next = next })

  unfoldable pub scan : State → List ℕ → Flood → Outcome Flood
  scan unvisited [] f = done f
  scan unvisited (u ∷ us) f = scan_cell unvisited u f >>= scan unvisited us

  -- The outer loop. A round moves a non-empty frontier into `seen`, so one round for each of the 64
  -- bits and a last test are enough.
  unfoldable pub flood : ℕ → State → State → State → Flood → Outcome (State × Flood)
  flood zero unvisited frontier seen f = stuck
  flood (suc fuel) unvisited frontier seen f =
      let seen' = union seen frontier in
      let round = scan unvisited (all_visited frontier) (record f { next = 0 }) >>= λ f'.
      flood fuel unvisited (and_not f'.next seen') seen' f' in
      if is_empty frontier then done (seen, f) else round

  -- The two tests after the fill.
  unfoldable pub judge : ℕ → State → Outcome (State × Flood) → Bool × Reason
  judge last unvisited (cut r) = (true, r)
  judge last unvisited stuck = (false, no_reason)
  judge last unvisited (done (seen, f)) =
      if not (seen == unvisited)
      then (true, disconnected)
      else if f.deg1_count == 2 && is_empty (intersect (get_neighbor_mask g last) f.deg1_mask)
      then (true, endpoints)
      else (false, no_reason)

  unfoldable pub global_check : ℕ → State → Bool × Reason
  global_check last unvisited =
      if is_empty (intersect (get_neighbor_mask g last) unvisited)
      then (true, no_continuation)
      else judge last unvisited (
          flood 65 unvisited (bit (trailing_zero_bits unvisited)) 0
            (record { deg1_mask = 0; deg1_count = 0; next = 0 }))

  unfoldable pub should_prune_after_visit : ℕ → State → Bool × Reason
  should_prune_after_visit last unvisited =
      if is_empty unvisited
      then (false, no_reason)
      else if count_bits unvisited == 1
      then (if is_empty (intersect (get_neighbor_mask g (trailing_zero_bits unvisited)) (bit last))
          then (true, dead_end)
          else (false, no_reason))
      else if isolates unvisited (all_visited (intersect (get_neighbor_mask g last) unvisited))
      then (true, dead_end)
      else global_check last unvisited
