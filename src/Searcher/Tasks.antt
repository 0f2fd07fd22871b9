-- ===== src/Searcher/Tasks.antt =====
-- searcher/searcher.go: the generation descents, which write tasks into a sink. A sink is a type of
-- its own here, with the operation `put` that `Set` is.
use knighttour.Prelude.{ℕ, zero, suc, ◌+◌, leb, if◌then◌else◌}
use knighttour.Prelude.{none, some, List, [], ◌∷◌, ◌++◌}
use knighttour.State.{State, new_state, visit, invert, count_bits}
use knighttour.Graph.{should_skip}
use knighttour.Pruner.Chain.{should_prune_state}
use knighttour.Types.{Result, zero_result, count_prune, finalize}
use knighttour.Symmetry.{canonical_class}
use knighttour.Cache.{Entry}
use knighttour.Searcher.{Searcher, Context, cut_reason, candidates, max_depth}

-- What a generation descent changes.
pub record TaskRun (S : Type 0) : Type 0 where
  pub sink : S
  pub polls : ℕ
  pub result : Result

abbrev pub first_run : {S : Type 0} → S → TaskRun S
first_run sink = record { sink = sink; polls = 0; result = zero_result }

module _ {S : Type 0} (put : S → State → ℕ → ℕ → S) (s : Searcher) where
  -- `c.Set(K, rep, weight)` and `CacheWrites++`.
  unfoldable pub write : State → ℕ → ℕ → TaskRun S → TaskRun S
  write key rep weight run = record run {
    sink = put run.sink key rep weight;
    result = record run.result { cache_writes = run.result.cache_writes + 1 };
  }

  -- The leaf of `dfsTask`: the write gate, then the write of the canonical class.
  unfoldable pub task_leaf : State → ℕ → ℕ → TaskRun S → TaskRun S
  unfolding write
  task_leaf st end weight run =
      let (cut, reason) = should_prune_state s.graph end (invert st s.graph.total_cells) in
      let k = canonical_class s.sym st end in
      if cut
      then record run { result = count_prune run.result reason }
      else write k.mask k.rep weight run

  -- The loop of `dfsTask` over the candidates, with the recursive call as `descend`.
  unfoldable pub task_loop :
      (State → ℕ → TaskRun S → TaskRun S) → State → State → List ℕ → TaskRun S → TaskRun S
  task_loop descend st unvisited [] run = run
  task_loop descend st unvisited (n ∷ ns) run =
      task_loop descend st unvisited ns (elim (cut_reason s unvisited n) [
        | some reason ↦ record run { result = count_prune run.result reason }
        | none ↦ descend (visit st n) n run
      ])

  -- `dfsTask`: a call visits one cell more than its caller, so 65 calls deep are enough.
  unfoldable pub dfs_task : Context → ℕ → ℕ → ℕ → State → ℕ → TaskRun S → TaskRun S
  unfolding task_leaf task_loop
  dfs_task ctx depth weight zero st end run = run
  dfs_task ctx depth weight (suc fuel) st end run =
      let unvisited = invert st s.graph.total_cells in
      let run' = record run { polls = run.polls + 1 } in
      let leaf = task_leaf st end weight run' in
      let deeper =
        task_loop (dfs_task ctx depth weight fuel) st unvisited (candidates s unvisited end) run' in
      if ctx run.polls then run' else if leb depth (count_bits st) then leaf else deeper

  -- The `Result` of the run, and the sink it leaves.
  unfoldable pub generate_tasks : Context → S → ℕ → ℕ → ℕ → Result × S
  unfolding dfs_task
  generate_tasks ctx sink start orbit_size depth =
      let run =
        dfs_task ctx depth orbit_size max_depth (new_state (start ∷ [])) start (first_run sink) in
      if should_skip s.graph start then (zero_result, sink) else (finalize run.result, run.sink)

  unfoldable pub extend_task : Context → S → Entry → ℕ → Result × S
  unfolding dfs_task write
  extend_task ctx sink e depth =
      let run =
        if leb depth (count_bits e.mask)
        then write e.mask e.rep e.weight (first_run sink)
        else dfs_task ctx depth e.weight max_depth e.mask e.rep (first_run sink) in
      (finalize run.result, run.sink)

-- The sink that keeps the writes in order.
abbrev pub record_write : List Entry → State → ℕ → ℕ → List Entry
record_write log key rep weight = log ++ record { mask = key; rep = rep; weight = weight } ∷ []

-- All writes of a list into a sink.
unfoldable pub put_all : {S : Type 0} → (S → State → ℕ → ℕ → S) → S → List Entry → S
put_all put sink [] = sink
put_all put sink (e ∷ es) = put_all put (put sink e.mask e.rep e.weight) es
