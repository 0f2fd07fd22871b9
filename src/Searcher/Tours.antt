-- ===== src/Searcher/Tours.antt =====
-- searcher/searcher.go, `CountPathsWithCacheReversal` without a stop level.
use knighttour.Prelude.{ℕ, ◌<◌, false, arith}
use knighttour.Prelude.{◌≡◌, ◌↔◌, List, length, ◌∈◌}
use knighttour.Prelude.{Option, none}
use knighttour.State.{State, invert, count_bits}
use knighttour.State.Count.{count_bits-bound}
use knighttour.Graph.{Graph}
use knighttour.Graph.Masks.{IsBoard}
use knighttour.Pruner.Path.{Completes}
use knighttour.Cache.{Entry, View}
use knighttour.Types.{finalize}
use knighttour.Searcher.{
  Searcher, Context, max_depth, start_run, stop_level, count_paths_with_cache_reversal,
}
use knighttour.Searcher.Paths.{Distinct, OnBoard}
use knighttour.Searcher.Descent.{dfs_count-Some}
use knighttour.Searcher.Branches.{Some}

-- `found` is the number of ways to complete a path that ends at `last` through exactly the cells of
-- `u`: the length of a list, without repetition, of exactly the paths that complete it.
unfoldable pub IsCount : Graph → ℕ → State → ℕ → Type 0
IsCount g last u found =
    (paths : List (List ℕ)) × (length paths ≡ found)
    × Distinct paths
    × ((p : List ℕ) → (p ∈ paths) ↔ Completes g last u p)

-- The same for a number that may leave some of them out.
unfoldable pub IsLowerCount : Graph → ℕ → State → ℕ → Type 0
IsLowerCount g last u found =
    (paths : List (List ℕ)) × (length paths ≡ found)
    × Distinct paths
    × ((p : List ℕ) → p ∈ paths → Completes g last u p)

module _ (s : Searcher) (b : IsBoard s.graph) (ctx : Context) (task : Entry)
    (o : OnBoard s.graph.total_cells task.mask) (c : Option View) (d : ℕ)
    (off : stop_level s c d ≡ none) where
  enough : count_bits (invert task.mask s.graph.total_cells) < max_depth
  enough = omega (arith, count_bits-bound (invert task.mask s.graph.total_cells))

  run_Some :
      (Q : Type 0)
      → (Q → (n : ℕ) → ctx n ≡ false)
      → Some Q s.graph task.rep
          (invert task.mask s.graph.total_cells)
          (count_paths_with_cache_reversal s ctx task c d).total_paths_found
  unfolding count_paths_with_cache_reversal finalize
  run_Some Q never =
      rw off (dfs_count-Some Q s b ctx max_depth task.mask task.rep start_run o enough never)

-- Without a stop level (no view, or a depth `d` with `2 d` above the number of cells), on a board
-- and a task whose mask is on it, if the context has not ended at any poll, then
-- `CountPathsWithCacheReversal` reports exactly the number of paths that complete the task: no
-- branch that the pruner cuts is missing from the count, and the recursion ends in time.
pub count_paths_with_cache_reversal-IsCount :
    (s : Searcher) (ctx : Context) (task : Entry) (c : Option View) (d : ℕ)
    → IsBoard s.graph
    → OnBoard s.graph.total_cells task.mask
    → stop_level s c d ≡ none
    → ((n : ℕ) → ctx n ≡ false)
    → IsCount s.graph task.rep
        (invert task.mask s.graph.total_cells)
        (count_paths_with_cache_reversal s ctx task c d).total_paths_found
unfolding IsCount
count_paths_with_cache_reversal-IsCount s ctx task c d b o off never =
    let r = run_Some s b ctx task o c d off (Unit {0}) (λ _. never) in
    (r.paths, r.counted, r.distinct, λ p. (r.sound p, r.all tt p))

-- Under the same conditions but with a context that may end at any poll, the report never exceeds
-- the number of paths: it counts distinct paths that complete the task.
pub count_paths_with_cache_reversal-IsLowerCount :
    (s : Searcher) (ctx : Context) (task : Entry) (c : Option View) (d : ℕ)
    → IsBoard s.graph
    → OnBoard s.graph.total_cells task.mask
    → stop_level s c d ≡ none
    → IsLowerCount s.graph task.rep
        (invert task.mask s.graph.total_cells)
        (count_paths_with_cache_reversal s ctx task c d).total_paths_found
unfolding IsLowerCount
count_paths_with_cache_reversal-IsLowerCount s ctx task c d b o off =
    let r = run_Some s b ctx task o c d off ⊥ (λ out. absurd out) in
    (r.paths, r.counted, r.distinct, r.sound)
