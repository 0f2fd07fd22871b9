-- ===== src/Counter/Census.antt =====
-- counter/counter.go, `CensusWithDepth` beside `ParallelCountWithDepth`: what the monitors are told.
use knighttour.Prelude.{ℕ, suc, List, [], ◌∷◌, get_or, Option-cases, Bool-cases}
use knighttour.Prelude.{◌≡◌, refl, sym, ap, ◌∙◌, inl, inr}
use knighttour.Cache.{Entry, View, Cache, seal}
use knighttour.Types.{Result}
use knighttour.Searcher.{Searcher, Context}
use knighttour.Searcher.Writes.{extend_task_writes}
use knighttour.Monitor.{
  Monitor, begin_phase, add_tasks, report_paths_found, report_subtask, report_task_completed,
}
use knighttour.Counter.Counting.{
  counting, Tally, Schedule, count_one_task, count_all_tasks, count_tasks,
}
use knighttour.Counter.Phases.{
  Gen, Event, task, exit, Sinks, report_task, extend_loop, extend_into, extend_tasks, Counter,
  World, Schedules, gc_scope, is_positive, pipeline, parallel_count_with_depth, census,
  census_with_depth, no_entry,
}

-- The monitor after a generation loop does not depend on the sinks.
extend_loop-monitor :
    {S R : Type 0} (a : Sinks S) (b : Sinks R) (s : Searcher) (intermediate : List Entry)
    (depth : ℕ) (events : List Event) (g : Gen S) (h : Gen R)
    → g.monitor ≡ h.monitor
    → (extend_loop a s intermediate depth events g).monitor
      ≡ (extend_loop b s intermediate depth events h).monitor
unfolding extend_loop report_task
extend_loop-monitor a b s intermediate depth [] g h same = same
extend_loop-monitor a b s intermediate depth (exit w ∷ events) g h same =
    extend_loop-monitor a b s intermediate depth events _ _ same
extend_loop-monitor a b s intermediate depth (task w i ctx ∷ events) g h same =
    let e = get_or intermediate i no_entry in
    let result =
      (extend_task_writes (a.put w) s ctx g.sink e depth).0
      ∙ sym (extend_task_writes (b.put w) s ctx h.sink e depth).0 in
    extend_loop-monitor a b s intermediate depth events _ _ (rw (result, same) refl)

report_one-closed :
    (r : Result) (paths : ℕ) (m : Monitor)
    → (report_task_completed (report_subtask r (report_paths_found paths m))).closed ≡ m.closed
unfolding report_paths_found report_subtask report_task_completed
report_one-closed r paths m = elim (Option-cases m.active) [
  | inl idle ↦ rw idle refl
  | inr (ph, e) ↦ rw e refl
]

count_one_task-closed :
    (s : Searcher) (ctx : Context) (memo : View) (depth : ℕ) (e : Entry) (t : Tally)
    → (count_one_task s ctx memo depth e t).monitor.closed ≡ t.monitor.closed
unfolding count_one_task
count_one_task-closed s ctx memo depth e t = elim (Bool-cases (ctx 0)) [
  | inl over ↦ rw (over, count_one_task) refl
  | inr on ↦ rw (on, count_one_task) (report_one-closed _ _ t.monitor)
]

count_all_tasks-closed :
    (s : Searcher) (ctxs : ℕ → Context) (memo : View) (depth i : ℕ) (es : List Entry) (t : Tally)
    → (count_all_tasks s ctxs memo depth i es t).monitor.closed ≡ t.monitor.closed
unfolding count_all_tasks
count_all_tasks-closed s ctxs memo depth i [] t = refl
count_all_tasks-closed s ctxs memo depth i (e ∷ es) t =
    count_all_tasks-closed s ctxs memo depth (suc i) es _
    ∙ count_one_task-closed s (ctxs i) memo depth e t

count_tasks-closed :
    (s : Searcher) (sched : Schedule) (now workers : ℕ) (task_cache : Cache) (depth k : ℕ)
    (monitor : Monitor)
    → (count_tasks s sched now workers task_cache depth k monitor).monitor.closed
      ≡ (begin_phase counting now monitor).closed
unfolding count_tasks add_tasks begin_phase
count_tasks-closed s sched now workers task_cache depth k monitor =
    count_all_tasks-closed s sched.tasks (seal task_cache) depth 0 _ _

module _ (c : Counter) (sched : Schedules) (workers depth : ℕ) where
  pipeline-census :
      (w : World)
      → (pipeline c sched workers depth w).1.monitor.closed
        ≡ (begin_phase counting (sched.clock 2) (census c sched depth w).1.monitor).closed
  unfolding pipeline census extend_tasks extend_into
  pipeline-census w =
      count_tasks-closed c.searcher sched.phase_count (sched.clock 2) workers _ depth _ _
      ∙ ap (λ (m : Monitor). (begin_phase counting (sched.clock 2) m).closed)
          (extend_loop-monitor _ _ c.searcher _ depth sched.phase_b _ _ refl)

-- With the same crew in both generation phases, a census and a full run to the same depth report
-- the same: the phases that the full run has behind it at its end are those of the census, with the
-- last closed when the counting begins. Both leave the runtime's percentage as they found it.
pub parallel_count_with_depth-census_with_depth :
    (c : Counter) (sched : Schedules) (workers depth : ℕ) (w : World)
    → ((parallel_count_with_depth c sched workers depth w).1.monitor.closed
        ≡ (begin_phase counting
            (sched.clock 2)
            (census_with_depth c sched depth w).1.monitor).closed)
      × ((parallel_count_with_depth c sched workers depth w).1.gc ≡ w.gc)
      × ((census_with_depth c sched depth w).1.gc ≡ w.gc)
unfolding parallel_count_with_depth census_with_depth gc_scope
parallel_count_with_depth-census_with_depth c sched workers depth w =
    elim (Bool-cases (is_positive c.gc_percent)) [
      | inl scoped ↦
          rw scoped
            (pipeline-census c sched workers depth (record w { gc = c.gc_percent }), refl, refl)
      | inr plain ↦
          rw plain (
            pipeline-census c sched workers depth w,
            unfold pipeline in refl,
            unfold census in refl,
          )
    ]
