-- ===== src/Counter/Phases.antt =====
-- counter/counter.go: the generation phases and the pipelines that join the phases. A worker runs
-- whole tasks; the order of the workers' tasks and exits is given by a list of events.
use knighttour.Prelude.{
  ℕ, min, ltb, if◌then◌else◌, Bool, false, List, [], ◌∷◌, length, get_or, set, replicate,
}
use knighttour.Prelude.Int.{ℤ}
use knighttour.State.{State}
use knighttour.Graph.{Graph}
use knighttour.Symmetry.{CanonicalGroup, get_canonical_groups, new_symmetry}
use knighttour.Cache.{Entry, Cache, new_cache, set_weight, null_set}
use knighttour.Cache.Staging.{Staging, new_staging, staging_set, flush}
use knighttour.Cache.Walk.{Walker, materialize_worklist}
use knighttour.Searcher.{Searcher, Context}
use knighttour.Searcher.Tasks.{generate_tasks, extend_task}
use knighttour.Types.{Result}
use knighttour.Monitor.{Monitor, begin_phase, add_tasks, report_subtask, report_task_completed}
use knighttour.Counter.{
  base_depth, default_precompute_depth, dispatch_capacity_per_consumer, staging_flush_limit,
}
use knighttour.Counter.Counting.{gen_a, gen_b, Schedule, count_tasks}

-- What the workers of a generation phase share: the sink, or sinks, and the monitor.
pub record Gen (S : Type 0) : Type 0 where
  pub sink : S
  pub monitor : Monitor

-- `monitor.ReportSubtask(&result)` and `monitor.ReportTaskCompleted()` after a task.
unfoldable pub report_task : {S : Type 0} → Result × S → Monitor → Gen S
report_task (result, sink) monitor = record {
  sink = sink;
  monitor = report_task_completed (report_subtask result monitor);
}

-- What a crew does, in order: a worker takes an index and does its task, or leaves its loop.
pub data Event : Type 0 where
  task : ℕ → ℕ → Context → Event
  exit : ℕ → Event

abbrev pub no_group : CanonicalGroup
no_group = record { positions = []; canonical = 0; orbit_size = 0 }

abbrev pub no_entry : Entry
no_entry = record { mask = 0; rep = 0; weight = 0 }

-- The worker function of `generateIntermediate`.
unfoldable pub generate_loop :
    Searcher → List CanonicalGroup → ℕ → List Event → Gen Cache → Gen Cache
unfolding report_task
generate_loop s groups base [] g = g
generate_loop s groups base (exit w ∷ events) g = generate_loop s groups base events g
generate_loop s groups base (task w i ctx ∷ events) g =
    let group = get_or groups i no_group in
    generate_loop s groups base events (
      report_task (generate_tasks set_weight s ctx g.sink group.canonical group.orbit_size base)
        g.monitor)

-- What the context and the scheduler decide in the phase: the events of the crew, and how the
-- walk over the intermediate table goes.
pub record GenSchedule : Type 0 where
  pub events : List Event
  pub walk : Walker

unfoldable pub generate_intermediate : Searcher → GenSchedule → ℕ → ℕ → Monitor → Gen (List Entry)
unfolding generate_loop
generate_intermediate s sched now precompute_depth monitor =
    let groups = get_canonical_groups s.sym in
    let g = generate_loop s groups (base_depth precompute_depth) sched.events (record {
      sink = new_cache;
      monitor = add_tasks (length groups) (begin_phase gen_a now monitor);
    }) in
    record { sink = materialize_worklist sched.walk g.sink; monitor = g.monitor }

-- The sinks of the workers: what a write of worker `w` does, and its release.
pub record Sinks (S : Type 0) : Type 0 where
  pub put : ℕ → S → State → ℕ → ℕ → S
  pub release : ℕ → S → S

-- The worker function of `extendInto`.
unfoldable pub extend_loop :
    {S : Type 0} → Sinks S → Searcher → List Entry → ℕ → List Event → Gen S → Gen S
unfolding report_task
extend_loop sinks s intermediate depth [] g = g
extend_loop sinks s intermediate depth (exit w ∷ events) g =
    extend_loop sinks s intermediate depth events (record g { sink = sinks.release w g.sink })
extend_loop sinks s intermediate depth (task w i ctx ∷ events) g =
    extend_loop sinks s intermediate depth events (
      report_task (extend_task (sinks.put w) s ctx g.sink (get_or intermediate i no_entry) depth)
        g.monitor)

unfoldable pub extend_into :
    {S : Type 0} → Sinks S → S → Searcher → List Event → ℕ → List Entry → ℕ → Monitor → Gen S
unfolding extend_loop
extend_into sinks sink s events now intermediate depth monitor =
    extend_loop sinks s intermediate depth events (record {
      sink = sink;
      monitor = add_tasks (length intermediate) (begin_phase gen_b now monitor);
    })

-- The task cache that the workers share, and the staging writer of each of them, whose `cache` is
-- a pointer to it.
pub record Desks : Type 0 where
  pub cache : Cache
  pub stagings : List Staging

-- Worker `w` does `step` with its writer.
abbrev pub at_desk : (Staging → Staging) → ℕ → Desks → Desks
at_desk step w d =
    let own = step (record (get_or d.stagings w (new_staging d.cache staging_flush_limit)) {
      cache = d.cache;
    }) in
    record { cache = own.cache; stagings = set d.stagings w own }

unfoldable pub staging_sinks : Sinks Desks
staging_sinks = record {
  put = λ w d key rep weight. at_desk (λ st. staging_set st key rep weight) w d;
  release = λ w d. at_desk flush w d;
}

unfoldable pub extend_tasks : Searcher → List Event → ℕ → ℕ → List Entry → ℕ → Monitor → Gen Cache
unfolding extend_into staging_sinks
extend_tasks s events now workers intermediate depth monitor =
    let desks : Desks = record {
      cache = new_cache;
      stagings =
          replicate (min workers (length intermediate)) (new_staging new_cache staging_flush_limit);
    } in
    let g = extend_into staging_sinks desks s events now intermediate depth monitor in
    record { sink = g.sink.cache; monitor = g.monitor }

-- `cache.NullSink{}` with a release that does nothing.
unfoldable pub null_sinks : Sinks (Unit {0})
null_sinks = record { put = λ w. null_set; release = λ w sink. sink }

-- `Counter`, without the graph, which is the searcher's.
pub record Counter : Type 0 where
  pub searcher : Searcher
  pub gc_percent : ℤ

abbrev pub default_gc_percent_reversal : ℤ
default_gc_percent_reversal = ℤ.pos 40

unfoldable pub new_counter : Graph → Counter
new_counter g = record {
  searcher = record { graph = g; sym = new_symmetry g.size };
  gc_percent = default_gc_percent_reversal;
}

unfoldable pub set_gc_percent : ℤ → Counter → Counter
set_gc_percent p c = record c { gc_percent = p }

-- The runtime's percentage, which `debug.SetGCPercent` sets and returns, and the monitor.
pub record World : Type 0 where
  pub gc : ℤ
  pub monitor : Monitor

abbrev pub is_positive : ℤ → Bool
is_positive (ℤ.pos n) = ltb 0 n
is_positive (ℤ.negsuc n) = false

-- The first lines of both pipelines, with the deferred call; the percentage has no other effect.
unfoldable pub gc_scope : {A : Type 0} → ℤ → (World → A × World) → World → A × World
gc_scope percent body w =
    let scoped = body (record w { gc = percent }) in
    let plain = body w in
    if is_positive percent then (scoped.0, record scoped.1 { gc = w.gc }) else plain

-- The schedules of the phases, and the time at which each phase begins.
pub record Schedules : Type 0 where
  pub phase_a : GenSchedule
  pub phase_b : List Event
  pub phase_count : Schedule
  pub clock : ℕ → ℕ

unfoldable pub pipeline : Counter → Schedules → ℕ → ℕ → World → ℕ × World
unfolding generate_intermediate extend_tasks
pipeline c sched workers depth w =
    let a = generate_intermediate c.searcher sched.phase_a (sched.clock 0) depth w.monitor in
    let b = extend_tasks c.searcher sched.phase_b (sched.clock 1) workers a.sink depth a.monitor in
    let t =
      count_tasks c.searcher sched.phase_count (sched.clock 2) workers b.sink depth
        dispatch_capacity_per_consumer b.monitor in
    (t.total, record w { monitor = t.monitor })

unfoldable pub parallel_count_with_depth : Counter → Schedules → ℕ → ℕ → World → ℕ × World
unfolding pipeline gc_scope
parallel_count_with_depth c sched workers depth w =
    gc_scope c.gc_percent (pipeline c sched workers depth) w

unfoldable pub parallel_count : Counter → Schedules → ℕ → World → ℕ × World
unfolding parallel_count_with_depth
parallel_count c sched workers w =
    parallel_count_with_depth c sched workers (default_precompute_depth c.searcher.graph.size) w

unfoldable pub census : Counter → Schedules → ℕ → World → Unit {0} × World
unfolding generate_intermediate extend_into null_sinks
census c sched depth w =
    let a = generate_intermediate c.searcher sched.phase_a (sched.clock 0) depth w.monitor in
    let b =
      extend_into null_sinks tt c.searcher sched.phase_b (sched.clock 1) a.sink depth a.monitor in
    (tt, record w { monitor = b.monitor })

unfoldable pub census_with_depth : Counter → Schedules → ℕ → World → Unit {0} × World
unfolding census gc_scope
census_with_depth c sched depth w = gc_scope c.gc_percent (census c sched depth) w
