-- ===== src/Tests/Runs.antt =====
-- The properties of the crew, the sizes, the dispatch, the monitor and the arguments at concrete
-- inputs.
use knighttour.Prelude.{List}
use knighttour.Prelude.{◌*◌, ◌≤◌, ◌≡◌, refl, arith, true, false, some, [], ◌∷◌, range, min}
use knighttour.Prelude.Int.{ℤ}
use knighttour.Counter.Dispatch.{dispatch_entries}
use knighttour.Counter.Delivery.{concat, IsFit, concat-dispatch_entries}
use knighttour.Cache.{Entry}
use knighttour.Prelude.{max}
use knighttour.Cache.{add64}
use knighttour.WorkerPool.{
  Crew, ready, checked, finished, broken, working, start_crew, Reaches, stay, then_step, go_on,
  claim, exhausted, body_done, break_out,
}
use knighttour.WorkerPool.Claims.{claimed_all, claimed-range}
use knighttour.Main.{
  size_flag, is_flag_set, Flags, AppArgs, ok, parse_args, check_flags, chosen_depth,
}
use knighttour.Main.Args.{IsRunnable, parse_args-IsRunnable}
use knighttour.Counter.{default_precompute_depth, count_sizing, dispatch_claim_batch}
use knighttour.Counter.Sizes.{count_sizing_bounds}
use knighttour.Monitor.{PhaseStats, Monitor, new_monitor, open_phase, totals, report_subtask}
use knighttour.Monitor.Sums.{totals-report_subtask}
use knighttour.Prelude.{ℕ, ◌%◌, ◌^◌, ◌<◌, ◌++◌, ◌∈◌, sum}
use knighttour.Monitor.{pruned_total}
use knighttour.Monitor.Report.{Text, lit, num, prune_breakdown, finish_lines}
use knighttour.Monitor.Printed.{numbers, numbers-prune_breakdown, finish_lines-totals}
use knighttour.Main.{depth_flag, default_flags}
use knighttour.Main.Outcome.{Outcome, IsChosen, parse_args-Outcome}
use knighttour.Types.{Result, zero_result, finalize}

-- A run of two workers over one index: the first takes it, the second finds none left.
-- The first of two workers breaks out with index 0, the second takes index 1 and finds no more.
abbrev crew₀ : Crew
crew₀ = record { cursor = 0; workers = ready ∷ ready ∷ []; ended = false; claimed = [] }

abbrev crew₁ : Crew
crew₁ = record crew₀ { workers = checked ∷ ready ∷ [] }

abbrev crew₂ : Crew
crew₂ = record { cursor = 1; workers = working 0 ∷ ready ∷ []; ended = false; claimed = 0 ∷ [] }

abbrev crew₃ : Crew
crew₃ = record crew₂ { workers = broken ∷ ready ∷ [] }

abbrev crew₄ : Crew
crew₄ = record crew₂ { workers = broken ∷ checked ∷ [] }

abbrev crew₅ : Crew
crew₅ = record {
  cursor = 2;
  workers = broken ∷ working 1 ∷ [];
  ended = false;
  claimed = 0 ∷ 1 ∷ [];
}

abbrev crew₆ : Crew
crew₆ = record crew₅ { workers = broken ∷ ready ∷ [] }

abbrev crew₇ : Crew
crew₇ = record crew₅ { workers = broken ∷ checked ∷ [] }

abbrev crew₈ : Crew
crew₈ = record crew₅ { cursor = 3; workers = broken ∷ finished ∷ [] }

first_half : Reaches 2 (start_crew 2 2) crew₄
unfolding start_crew
first_half =
    then_step crew₀ crew₃ crew₄
      (then_step crew₀ crew₂ crew₃
        (then_step crew₀ crew₁ crew₂
          (then_step crew₀ crew₀ crew₁ (stay crew₀) (go_on crew₀ 0 refl refl))
          (claim crew₁ 0 refl (omega arith)))
        (break_out crew₂ 0 0 refl))
      (go_on crew₃ 1 refl refl)

whole_run : Reaches 2 (start_crew 2 2) crew₈
whole_run =
    then_step _ crew₇ crew₈
      (then_step _ crew₆ crew₇
        (then_step _ crew₅ crew₆
          (then_step _ crew₄ crew₅ first_half (claim crew₄ 1 refl (omega arith)))
          (body_done crew₅ 1 1 refl))
        (go_on crew₆ 1 refl refl))
      (exhausted crew₇ 1 refl (omega arith))

claimed_all_example : crew₈.claimed ≡ range 0 2
claimed_all_example = claimed_all 2 2 1 crew₈ whole_run refl refl

claimed-range_example : crew₈.claimed ≡ range 0 (min 3 2)
claimed-range_example = claimed-range 2 2 crew₈ whole_run

-- The flags of a run on the board of 7 by 7 with the defaults for the rest.
abbrev flags : Flags
flags = record (default_flags 4) { size = ℤ.pos 7; set_flags = size_flag ∷ [] }

abbrev args : AppArgs
args = record {
  size = ℤ.pos 7;
  workers = ℤ.pos 4;
  precompute_depth = ℤ.pos 22;
  gc_percent = ℤ.pos 40;
}

flags_accepted : parse_args (some flags) ≡ ok args
unfolding parse_args check_flags chosen_depth default_precompute_depth is_flag_set
flags_accepted = refl

parse_args-IsRunnable_example : IsRunnable args
parse_args-IsRunnable_example = parse_args-IsRunnable flags args flags_accepted

count_sizing_bounds_example :
    (1 ≤ (count_sizing 8 1000 10000).consumers)
    × ((count_sizing 8 1000 10000).consumers ≤ max 8 1)
    × (1 ≤ (count_sizing 8 1000 10000).batch)
    × ((count_sizing 8 1000 10000).batch ≤ dispatch_claim_batch)
    × (1 ≤ (count_sizing 8 1000 10000).slots)
    × ((count_sizing 8 1000 10000).capacity
        ≤ (count_sizing 8 1000 10000).slots * (count_sizing 8 1000 10000).batch)
count_sizing_bounds_example = count_sizing_bounds 8 1000 10000

abbrev first_phase : PhaseStats
first_phase = open_phase "gen A" 5

abbrev monitor : Monitor
monitor = record new_monitor { active = some first_phase }

abbrev subtask : Result
subtask = record zero_result { cache_writes = 3; pruned_dead_end = 2; pruned_endpoints = 1 }

totals-report_subtask_example :
    ((totals (report_subtask subtask monitor)).pruned
      ≡ add64 (totals monitor).pruned (finalize subtask).pruned)
    × ((totals (report_subtask subtask monitor)).cache_writes
        ≡ add64 (totals monitor).cache_writes 3)
    × ((totals (report_subtask subtask monitor)).cache_hits ≡ add64 (totals monitor).cache_hits 0)
    × ((totals (report_subtask subtask monitor)).cache_misses
        ≡ add64 (totals monitor).cache_misses 0)
    × ((totals (report_subtask subtask monitor)).paths_found ≡ (totals monitor).paths_found)
totals-report_subtask_example = totals-report_subtask monitor first_phase subtask refl

abbrev three_entries : List Entry
three_entries =
    record { mask = 5; rep = 0; weight = 8 }
    ∷ record { mask = 5; rep = 2; weight = 4 }
    ∷ record { mask = 9; rep = 0; weight = 8 }
    ∷ []

concat-dispatch_entries_example :
    (concat (dispatch_entries (λ n. true) true 2 three_entries).sent ≡ three_entries)
    × IsFit 2 (dispatch_entries (λ n. true) true 2 three_entries).sent
    × ((dispatch_entries (λ n. true) true 2 three_entries).added ≡ 3)
concat-dispatch_entries_example =
    concat-dispatch_entries (λ n. true) 2 three_entries (λ n. refl) (omega arith)

-- Two cuts of one kind and one of another.
abbrev cut_phase : PhaseStats
cut_phase = record first_phase { pruned_dead_end = 2; pruned_endpoints = 1 }

numbers-prune_breakdown_example :
    (sum (numbers (prune_breakdown cut_phase)) % 2 ^ 64 ≡ pruned_total cut_phase)
    × ((n : ℕ) → n ∈ numbers (prune_breakdown cut_phase) → 0 < n)
numbers-prune_breakdown_example = numbers-prune_breakdown cut_phase

abbrev running : Monitor
running = record monitor { started = true }

finish_lines-totals_example :
    (before : List Text) × (finish_lines 9 running
      ≡ before ++ (lit "Total paths: " ∷ num (totals running).paths_found ∷ []) ∷ [])
finish_lines-totals_example = finish_lines-totals 9 running refl refl

-- A depth beyond half the cells of the board of 6 by 6.
abbrev deep_flags : Flags
deep_flags = record flags {
  size = ℤ.pos 6;
  precompute_depth = ℤ.pos 19;
  set_flags = depth_flag ∷ [];
}

parse_args-Outcome_example :
    Outcome deep_flags (parse_args (some deep_flags))
    × IsChosen deep_flags (chosen_depth deep_flags)
parse_args-Outcome_example = parse_args-Outcome deep_flags
