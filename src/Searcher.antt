-- ===== src/Searcher.antt =====
-- searcher/searcher.go: the descents over the board. `ctx.Err()` is polled: the context is an
-- oracle that says at which polls it has ended, and a run counts its polls.
pub mod Paths
pub mod Tasks
pub mod Writes
pub mod Probes
pub mod Answers
pub mod Branches
pub mod Descent
pub mod Tours
use knighttour.Prelude.{
  ℕ, zero, suc, ◌+◌, ◌-◌, ◌*◌, ◌/◌, ◌==◌, ltb, leb, if◌then◌else◌, Bool, true, false, not, ◌&&◌,
}
use knighttour.Prelude.{Option, none, some, List, [], ◌∷◌}
use knighttour.State.{
  State, new_state, visit, unvisit, invert, intersect, is_empty, count_bits, all_visited,
}
use knighttour.Graph.{Graph, get_neighbor_mask, should_skip}
use knighttour.Pruner.{Reason, should_prune_after_visit}
use knighttour.Pruner.Chain.{should_prune_state}
use knighttour.Types.{Result, zero_result, count_prune, finalize}
use knighttour.Symmetry.{
  Symmetry, canonical_mask_frame, canonical_class, class_rep, transform_cell, cell_orbit_size,
}
use knighttour.Cache.{Entry, View, view_get, value_weight, Value}

pub record Searcher : Type 0 where
  pub graph : Graph
  pub sym : Symmetry

-- The context: whether the poll of this number finds it ended.
abbrev pub Context : Type 0
Context = ℕ → Bool

-- What a descent changes besides its sink: the number of polls made, and the statistics.
pub record Run : Type 0 where
  pub polls : ℕ
  pub result : Result

abbrev pub start_run : Run
start_run = record { polls = 0; result = zero_result }

abbrev pub poll : Run → Run
poll run = record run { polls = run.polls + 1 }

-- The test that both descents make before they visit `n`: the reason to cut the branch, if any.
unfoldable pub cut_reason : Searcher → State → ℕ → Option Reason
cut_reason s unvisited n =
    let left = unvisit unvisited n in
    let (pruned, reason) = should_prune_after_visit s.graph n left in
    if is_empty left then none else if pruned then some reason else none

unfoldable pub candidates : Searcher → State → ℕ → List ℕ
candidates s unvisited end = all_visited (intersect (get_neighbor_mask s.graph end) unvisited)

-- The loop of `completions` over the candidates, with the value of the remainder's mask.
unfoldable pub probe : Searcher → ℕ → ℕ → Option Value → List ℕ → ℕ → Result → ℕ × Result
probe s frame stab found_value [] found res = (found, res)
probe s frame stab none (u ∷ us) found res =
    probe s frame stab none us found (record res { cache_misses = res.cache_misses + 1 })
probe s frame stab (some val) (u ∷ us) found res =
    let rep = class_rep s.sym stab (transform_cell s.sym frame u) in
    elim (value_weight val rep) [
      | none ↦
          probe s frame stab (some val) us found
            (record res { cache_misses = res.cache_misses + 1 })
      | some weight ↦
          probe s frame stab (some val) us (found + weight / cell_orbit_size s.sym stab rep)
            (record res { cache_hits = res.cache_hits + 1 })
    ]

unfoldable pub completions : Searcher → State → ℕ → View → Result → ℕ × Result
completions s unvisited end c res =
    let f = canonical_mask_frame s.sym unvisited in
    probe s f.frame f.stab (view_get c f.mask) (candidates s unvisited end) 0 res

-- Where the count stops: the level and the view that answers there, or nothing for a full descent
-- (the sentinel -1, with which the view is never read).
abbrev pub Stop : Type 0
Stop = Option (ℕ × View)

unfoldable pub stop_answer : Searcher → Stop → ℕ → State → ℕ → Result → Option (ℕ × Result)
stop_answer s none bits unvisited end res = none
stop_answer s (some (level, c)) bits unvisited end res =
    if bits == level then some (completions s unvisited end c res) else none

-- The loop of `dfsCount` over the candidates, with the recursive call as `descend`.
unfoldable pub count_loop :
    Searcher → (State → ℕ → Run → ℕ × Run) → State → State → List ℕ → ℕ → Run → ℕ × Run
count_loop s descend st unvisited [] found run = (found, run)
count_loop s descend st unvisited (n ∷ ns) found run = elim (cut_reason s unvisited n) [
  | some reason ↦
      count_loop s descend st unvisited ns found
        (record run { result = count_prune run.result reason })
  | none ↦
      let (sub, run') = descend (visit st n) n run in
      count_loop s descend st unvisited ns (found + sub) run'
]

-- `dfsCount`: a call visits one cell more than its caller, so 65 calls deep are enough.
unfoldable pub dfs_count : Searcher → Context → Stop → ℕ → State → ℕ → Run → ℕ × Run
dfs_count s ctx stop zero st end run = (0, run)
dfs_count s ctx stop (suc fuel) st end run =
    let total = s.graph.total_cells in
    let unvisited = invert st total in
    let run' = poll run in
    if ctx run.polls
    then (0, run')
    else if leb total (count_bits st)
    then (1, run')
    else elim (stop_answer s stop (count_bits st) unvisited end run.result) [
      | some (found, res) ↦ (found, record run' { result = res })
      | none ↦
          count_loop s (dfs_count s ctx stop fuel) st unvisited (candidates s unvisited end) 0 run'
    ]

abbrev pub max_depth : ℕ
max_depth = 65

-- `stopLevel` and its condition.
unfoldable pub stop_level : Searcher → Option View → ℕ → Stop
stop_level s none d = none
stop_level s (some c) d =
    if leb (2 * d) s.graph.total_cells then some (s.graph.total_cells - d, c) else none

unfoldable pub count_paths_with_cache_reversal :
    Searcher → Context → Entry → Option View → ℕ → Result
count_paths_with_cache_reversal s ctx task c d =
    let (found, run) = dfs_count s ctx (stop_level s c d) max_depth task.mask task.rep start_run in
    finalize (record run.result { total_paths_found = found })
