-- ===== src/Monitor.antt =====
-- monitoring/monitor.go: the counters of the phases, and their sums. Times are what the clock is
-- asked for.
pub mod Sums
pub mod Report
pub mod Printed
use Prim.Native.String.{String}
use knighttour.Prelude.Names.{same_name}
use knighttour.Prelude.{
  ℕ, zero, suc, ◌+◌, ◌-◌, ◌*◌, ◌/◌, ◌==◌, ltb, leb, if◌then◌else◌, Bool, true, false, ◌||◌, Option,
  none, some, List, [], ◌∷◌, ◌++◌,
}
use knighttour.Cache.{add64}
use knighttour.Types.{Result}

-- The counters are `uint64`, whose sums wrap.
pub record PhaseStats : Type 0 where
  pub name : String
  pub start_time : ℕ
  pub end_time : Option ℕ
  pub tasks : ℕ
  pub completed : ℕ
  pub subtasks : ℕ
  pub paths_found : ℕ
  pub cache_writes : ℕ
  pub cache_hits : ℕ
  pub cache_misses : ℕ
  pub pruned_dead_end : ℕ
  pub pruned_no_cont : ℕ
  pub pruned_disconn : ℕ
  pub pruned_endpoints : ℕ
  pub pruned_forced_chain : ℕ

abbrev pub open_phase : String → ℕ → PhaseStats
open_phase name now = record {
  name = name;
  start_time = now;
  end_time = none;
  tasks = 0;
  completed = 0;
  subtasks = 0;
  paths_found = 0;
  cache_writes = 0;
  cache_hits = 0;
  cache_misses = 0;
  pruned_dead_end = 0;
  pruned_no_cont = 0;
  pruned_disconn = 0;
  pruned_endpoints = 0;
  pruned_forced_chain = 0;
}

unfoldable pub pruned_total : PhaseStats → ℕ
pruned_total ph =
    add64
      (add64 (add64 (add64 ph.pruned_dead_end ph.pruned_no_cont) ph.pruned_disconn)
        ph.pruned_endpoints)
      ph.pruned_forced_chain

-- Zero while the phase is open. The clock does not go back.
unfoldable pub duration : PhaseStats → ℕ
duration ph = elim ph.end_time [ none ↦ 0 | some t ↦ t - ph.start_time ]

-- The phases before the active one, oldest first, and the active phase. `BeginPhase` appends the new
-- phase to `phases` and makes it the active one, so the active phase is always the last.
pub record Monitor : Type 0 where
  pub closed : List PhaseStats
  pub active : Option PhaseStats
  pub start_time : ℕ
  pub started : Bool
  pub verbose : Bool

abbrev pub monitor_with : Bool → Monitor
monitor_with verbose = record {
  closed = [];
  active = none;
  start_time = 0;
  started = false;
  verbose = verbose;
}

abbrev pub new_monitor : Monitor
new_monitor = monitor_with true

abbrev pub new_fake_monitor : Monitor
new_fake_monitor = monitor_with false

-- `Start`; the goroutine that it starts for a verbose monitor is `loop` of Monitor/Report.
unfoldable pub start : ℕ → Monitor → Monitor
start now m = record m { start_time = now; started = true }

unfoldable pub begin_phase : String → ℕ → Monitor → Monitor
begin_phase name now m =
    let older : List PhaseStats = elim m.active [
      | none ↦ m.closed
      | some prev ↦ m.closed ++ record prev { end_time = some now } ∷ []
    ] in
    record m { closed = older; active = some (open_phase name now) }

-- `if ph := m.active.Load(); ph != nil { … }`
abbrev pub on_active : (PhaseStats → PhaseStats) → Monitor → Monitor
on_active f m = elim m.active [ none ↦ m | some ph ↦ record m { active = some (f ph) } ]

unfoldable pub add_tasks : ℕ → Monitor → Monitor
add_tasks count m = on_active (λ ph. record ph { tasks = add64 ph.tasks count }) m

unfoldable pub report_task_completed : Monitor → Monitor
report_task_completed m = on_active (λ ph. record ph { completed = add64 ph.completed 1 }) m

unfoldable pub report_paths_found : ℕ → Monitor → Monitor
report_paths_found count m =
    on_active (λ ph. record ph { paths_found = add64 ph.paths_found count }) m

unfoldable pub fold_result : Result → PhaseStats → PhaseStats
fold_result r ph = record ph {
  subtasks = add64 ph.subtasks 1;
  cache_writes = add64 ph.cache_writes r.cache_writes;
  cache_hits = add64 ph.cache_hits r.cache_hits;
  cache_misses = add64 ph.cache_misses r.cache_misses;
  pruned_dead_end = add64 ph.pruned_dead_end r.pruned_dead_end;
  pruned_no_cont = add64 ph.pruned_no_cont r.pruned_no_cont;
  pruned_disconn = add64 ph.pruned_disconn r.pruned_disconn;
  pruned_endpoints = add64 ph.pruned_endpoints r.pruned_endpoints;
  pruned_forced_chain = add64 ph.pruned_forced_chain r.pruned_forced_chain;
}

unfoldable pub report_subtask : Result → Monitor → Monitor
report_subtask r m = on_active (fold_result r) m

-- `PhaseStats` of the code: the sums that `Phase` and `Totals` return.
pub record Snapshot : Type 0 where
  pub tasks : ℕ
  pub completed : ℕ
  pub subtasks : ℕ
  pub paths_found : ℕ
  pub cache_writes : ℕ
  pub cache_hits : ℕ
  pub cache_misses : ℕ
  pub pruned : ℕ
  pub pruned_dead_end : ℕ
  pub pruned_no_cont : ℕ
  pub pruned_disconn : ℕ
  pub pruned_endpoints : ℕ
  pub pruned_forced_chain : ℕ
  pub duration : ℕ

abbrev pub zero_snapshot : Snapshot
zero_snapshot = record {
  tasks = 0;
  completed = 0;
  subtasks = 0;
  paths_found = 0;
  cache_writes = 0;
  cache_hits = 0;
  cache_misses = 0;
  pruned = 0;
  pruned_dead_end = 0;
  pruned_no_cont = 0;
  pruned_disconn = 0;
  pruned_endpoints = 0;
  pruned_forced_chain = 0;
  duration = 0;
}

unfoldable pub add : Snapshot → PhaseStats → Snapshot
add a ph = record {
  tasks = add64 a.tasks ph.tasks;
  completed = add64 a.completed ph.completed;
  subtasks = add64 a.subtasks ph.subtasks;
  paths_found = add64 a.paths_found ph.paths_found;
  cache_writes = add64 a.cache_writes ph.cache_writes;
  cache_hits = add64 a.cache_hits ph.cache_hits;
  cache_misses = add64 a.cache_misses ph.cache_misses;
  pruned = add64 a.pruned (pruned_total ph);
  pruned_dead_end = add64 a.pruned_dead_end ph.pruned_dead_end;
  pruned_no_cont = add64 a.pruned_no_cont ph.pruned_no_cont;
  pruned_disconn = add64 a.pruned_disconn ph.pruned_disconn;
  pruned_endpoints = add64 a.pruned_endpoints ph.pruned_endpoints;
  pruned_forced_chain = add64 a.pruned_forced_chain ph.pruned_forced_chain;
  duration = a.duration + duration ph;
}

abbrev pub all_phases : Monitor → List PhaseStats
all_phases m = elim m.active [ none ↦ m.closed | some ph ↦ m.closed ++ ph ∷ [] ]

unfoldable pub sum_all : Snapshot → List PhaseStats → Snapshot
sum_all a [] = a
sum_all a (ph ∷ phs) = sum_all (add a ph) phs

unfoldable pub sum_named : String → Snapshot → List PhaseStats → Snapshot
sum_named name a [] = a
sum_named name a (ph ∷ phs) = sum_named name (if same_name ph.name name then add a ph else a) phs

unfoldable pub totals : Monitor → Snapshot
totals m = sum_all zero_snapshot (all_phases m)

unfoldable pub phase : Monitor → String → Snapshot
phase m name = sum_named name zero_snapshot (all_phases m)

abbrev pub close : ℕ → PhaseStats → PhaseStats
close now ph = elim ph.end_time [ none ↦ record ph { end_time = some now } | some t ↦ ph ]

-- What `Finish` does to the state: the active phase is closed, if the monitor was started.
unfoldable pub finish : ℕ → Monitor → Monitor
finish now m = if m.started then record (on_active (close now) m) { started = false } else m

-- An estimate in the clock's unit; the `int64` product does not wrap for the times of a run.
unfoldable pub estimate_remaining : ℕ → ℕ → ℕ → Option ℕ
estimate_remaining elapsed completed total =
    if completed == 0 || total == 0
    then none
    else if leb total completed
    then some 0
    else some (elapsed * (total - completed) / completed)
