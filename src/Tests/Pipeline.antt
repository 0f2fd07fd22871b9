-- ===== src/Tests/Pipeline.antt =====
-- The properties of the fan-out and of the pipeline's phases at concrete inputs.
use mathlib.Core.List.Perm
use knighttour.Prelude.{
  ℕ, ◌%◌, ◌^◌, ◌≤◌, ◌<◌, ◌≡◌, refl, arith, ◌⊎◌, true, false, some, [], ◌∷◌, ◌++◌, length, get_or,
}
use knighttour.Prelude.Int.{ℤ}
use knighttour.WorkerPool.Fanout.{
  waiting, done, busy, Fan, slots, start_fan, Consume, receive, drained, consumed, send, close,
  by_consumer, FanReaches, here, next,
}
use knighttour.WorkerPool.Delivered.{received-sent, fanout_progress}
use knighttour.Cache.{
  Cache, new_cache, set_weight, seal, view_len, is_inline, shard_index, add, store, word_at, find,
  pack,
}
use knighttour.Cache.Sums.{sum_over}
use knighttour.Cache.Walk.{view_all, walk_data, yield_record}
use knighttour.Monitor.{PhaseStats, new_monitor, begin_phase}
use knighttour.Counter.{count_sizing, effective_batch}
use knighttour.Counter.Dispatch.{dispatch_entries}
use knighttour.Counter.Counting.{counting, Schedule, count_tasks, count_dispatch}
use knighttour.Counter.Totals.{never, weighted, count_tasks-sum_over, count_tasks_progress}
use knighttour.Counter.Phases.{
  task, exit, Counter, World, Schedules, parallel_count_with_depth, census_with_depth,
}
use knighttour.Counter.Census.{parallel_count_with_depth-census_with_depth}
use knighttour.Cache.{Entry}
use knighttour.Counter.Phases.{Event, GenSchedule, generate_intermediate, extend_tasks}
use knighttour.Searcher.Tasks.{generate_tasks, dfs_task, extend_task, write}
use knighttour.State.{count_bits}
use knighttour.Cache.Histogram.{total, IsAffordable}
use knighttour.Cache.Fresh.{new_cache-IsAffordable}
use knighttour.Cache.Walk.{stored_walk, materialize_worklist}
use knighttour.Cache.Table.{read}
use knighttour.Cache.Slots.{or_zero}
use knighttour.Prelude.{List, min}
use knighttour.Symmetry.{get_canonical_groups}
use knighttour.Counter.{base_depth}
use knighttour.Counter.Generation.{
  extend_writes, Crewed, settled, extend_tasks-total, generate_writes, generate_intermediate-total,
}
use knighttour.Graph.{should_skip, new, build_row, get_neighbor_mask, try_move, try_moves}
use knighttour.Symmetry.{
  new_symmetry, build_canonical_groups, finish_groups, group_cells, add_position, best_position,
  perm_row, insert_group, build_compose, canonical_class, canonical_mask_frame, class_loop,
  class_rep, composed_equal, compute_orbit_size, images, index_of_composition, insert_int,
  least_image, move_cells, sort_ints, stab_loop, transform_cell, transform_state,
}
use knighttour.State.{
  new_state, all_visited, and_not, bit, full_mask, intersect, invert, is_empty, trailing_zero_bits,
  union, unvisit, visit, visited_loop,
}
use knighttour.Pruner.Chain.{
  should_prune_state, forced_chain_cut, degrees, add_edge, chain_loop, edges_of, forced_vertex,
  singletons, uf_find,
}
use knighttour.Searcher.Tasks.{task_leaf}
use knighttour.Types.{finalize}
use knighttour.Words.{complement, ones_count, shl_one, trailing_zeros}
use knighttour.Tests.Boards.{searcher}

-- One consumer and a buffer of one slot: a value is sent, received and consumed, then the channel
-- is closed and drained.
abbrev fan₀ : Fan ℕ
fan₀ = record { buffer = []; closed = false; consumers = waiting ∷ []; sent = []; received = [] }

abbrev fan₁ : Fan ℕ
fan₁ = record fan₀ { buffer = 7 ∷ []; sent = 7 ∷ [] }

abbrev fan₂ : Fan ℕ
fan₂ = record fan₁ { buffer = []; consumers = busy 7 ∷ []; received = 7 ∷ [] }

abbrev fan₃ : Fan ℕ
fan₃ = record fan₂ { closed = true }

abbrev fan₄ : Fan ℕ
fan₄ = record fan₃ { consumers = waiting ∷ [] }

abbrev fan₅ : Fan ℕ
fan₅ = record fan₃ { consumers = done ∷ [] }

fan_run : FanReaches 1 (start_fan 1) fan₅
unfolding start_fan
fan_run =
    next {g = fan₄}
      (next {g = fan₃}
        (next {g = fan₂}
          (next {g = fan₁} (next {g = fan₀} here (send 7 refl (omega arith)))
            (by_consumer (receive 0 7 [] refl refl)))
          (close refl))
        (by_consumer (consumed 0 7 refl)))
      (by_consumer (drained 0 refl refl refl))

received-sent_example :
    (fan₅.sent ≡ fan₅.received ++ fan₅.buffer)
    × (length fan₅.buffer ≤ slots 1)
    × ((w : ℕ)
        → get_or fan₅.consumers w waiting ≡ done
        → (fan₅.closed ≡ true) × (fan₅.received ≡ fan₅.sent))
received-sent_example = received-sent 1 1 fan₅ fan_run

fanout_progress_example :
    ((fan₅.closed ≡ true)
      × ((w : ℕ) → w < length fan₅.consumers → get_or fan₅.consumers w waiting ≡ done))
    ⊎ ((g : Fan ℕ) × Consume fan₅ g)
    ⊎ ((fan₅.closed ≡ false) × (length fan₅.buffer < slots 1))
fanout_progress_example = fanout_progress 1 1 fan₅ fan_run (omega arith)

-- A table with one task, and a schedule that nothing cuts short.
abbrev table : Cache
table = set_weight new_cache 5 3 8

abbrev calm : Schedule
calm = record {
  walk = stored_walk;
  deliver = λ _. true;
  alive = true;
  arrange = λ es. es;
  tasks = λ _. never;
}

count_tasks-sum_over_example :
    ((count_tasks searcher calm 9 4 table 2 10000 new_monitor).total
      ≡ sum_over (weighted searcher (seal table) 2) (view_all stored_walk (seal table)) % 2 ^ 64)
    × ((ph : PhaseStats) × ((count_tasks searcher calm 9 4 table 2 10000 new_monitor).monitor.active
          ≡ some ph)
        × (ph.paths_found ≡ (count_tasks searcher calm 9 4 table 2 10000 new_monitor).total)
        × (ph.tasks ≡ length (view_all stored_walk (seal table)) % 2 ^ 64)
        × (ph.completed ≡ length (view_all stored_walk (seal table)) % 2 ^ 64))
count_tasks-sum_over_example =
    count_tasks-sum_over searcher calm 9 4 table 2 10000 new_monitor (λ _. refl) refl (λ _. refl)
      (λ _ d. Perm.refl d) (λ _ _. refl) (λ es. Perm.refl es)

-- A schedule whose context ends before the tasks are counted.
abbrev cut_short : Schedule
cut_short = record calm { tasks = λ _ _. true }

one_registered : (count_dispatch cut_short 4 (seal table) 10000).1 ≡ 1
unfolding count_dispatch count_sizing effective_batch view_len dispatch_entries view_all walk_data
    yield_record is_inline set_weight new_cache shard_index add store word_at find pack seal
one_registered = refl

count_tasks_progress_example :
    (ph : PhaseStats) × ((count_tasks searcher cut_short 9 4 table 2 10000
        new_monitor).monitor.active
      ≡ some ph)
    × (ph.paths_found ≡ (count_tasks searcher cut_short 9 4 table 2 10000 new_monitor).total)
    × (ph.tasks ≡ (count_dispatch cut_short 4 (seal table) 10000).1)
    × (ph.completed ≤ ph.tasks)
count_tasks_progress_example =
    count_tasks_progress searcher cut_short 9 4 table 2 10000 new_monitor (λ es. Perm.refl es)
      (omega (arith, one_registered))

-- Two workers that share the first start group's entries.
abbrev schedules : Schedules
schedules = record {
  phase_a = record { events = task 0 0 never ∷ exit 0 ∷ []; walk = stored_walk };
  phase_b = task 0 0 never ∷ task 1 1 never ∷ exit 0 ∷ exit 1 ∷ [];
  phase_count = calm;
  clock = λ n. n;
}

abbrev counter : Counter
counter = record { searcher = searcher; gc_percent = ℤ.pos 40 }

abbrev world : World
world = record { gc = ℤ.pos 100; monitor = new_monitor }

parallel_count_with_depth-census_with_depth_example :
    ((parallel_count_with_depth counter schedules 2 3 world).1.monitor.closed
      ≡ (begin_phase counting 2 (census_with_depth counter schedules 3 world).1.monitor).closed)
    × ((parallel_count_with_depth counter schedules 2 3 world).1.gc ≡ world.gc)
    × ((census_with_depth counter schedules 3 world).1.gc ≡ world.gc)
parallel_count_with_depth-census_with_depth_example =
    parallel_count_with_depth-census_with_depth counter schedules 2 3 world

abbrev events_a : List Event
events_a = task 0 0 never ∷ exit 0 ∷ []

abbrev written_a : List Entry
written_a = generate_writes searcher (get_canonical_groups searcher.sym) (base_depth 1) events_a

abbrev one_write : List Entry
one_write = record { mask = 1; rep = 0; weight = 4 } ∷ []

written_a-value : written_a ≡ one_write
unfolding generate_writes generate_tasks dfs_task base_depth write should_skip new new_symmetry
    build_canonical_groups finish_groups group_cells add_position best_position perm_row
    insert_group count_bits new_state should_prune_state forced_chain_cut degrees all_visited
    build_row get_neighbor_mask try_move try_moves add_edge chain_loop edges_of forced_vertex
    singletons uf_find task_leaf and_not bit full_mask intersect invert is_empty trailing_zero_bits
    union unvisit visit visited_loop build_compose canonical_class canonical_mask_frame class_loop
    class_rep composed_equal compute_orbit_size images index_of_composition insert_int least_image
    move_cells sort_ints stab_loop transform_cell transform_state finalize complement ones_count
    shl_one trailing_zeros
written_a-value = refl

one_Affordable : IsAffordable new_cache one_write
one_Affordable =
    new_cache-IsAffordable one_write (unfold sum_over in refl)
      (λ key rep. unfold sum_over in ground arith) (omega arith)

abbrev schedule_a : GenSchedule
schedule_a = record { events = events_a; walk = stored_walk }

generate_intermediate-total_example :
    total (generate_intermediate searcher schedule_a 3 1 new_monitor).sink 1 0
    ≡ total
        (generate_writes searcher (get_canonical_groups searcher.sym) (base_depth 1) events_a)
        1
        0
generate_intermediate-total_example =
    generate_intermediate-total searcher schedule_a 3 1 new_monitor 1 0 (λ _. refl)
      (λ _ d. Perm.refl d) (rw written_a-value one_Affordable)

-- One worker, whose one task is at its depth already.
abbrev events_b : List Event
events_b = task 0 0 never ∷ exit 0 ∷ []

events_b-settled : (w : ℕ) → settled w true events_b ≡ true
unfolding settled
events_b-settled w = ground arith

one_crew : Crewed (min 4 (length one_write)) events_b
unfolding Crewed
one_crew = (omega arith, (omega arith, tt))

written_b-value : extend_writes searcher one_write 1 events_b ≡ one_write
unfolding extend_writes extend_task write count_bits
written_b-value = refl

extend_tasks-total_example :
    (total
        (materialize_worklist stored_walk
          (extend_tasks searcher events_b 5 4 one_write 1 new_monitor).sink)
        1
        0
      ≡ total (extend_writes searcher one_write 1 events_b) 1 0)
    × (or_zero (read (extend_tasks searcher events_b 5 4 one_write 1 new_monitor).sink 1 0)
        ≡ total (extend_writes searcher one_write 1 events_b) 1 0)
extend_tasks-total_example =
    extend_tasks-total searcher events_b 5 4 one_write 1 new_monitor 1 0 stored_walk (λ _. refl)
      (λ _ d. Perm.refl d) one_crew events_b-settled (rw written_b-value one_Affordable)
