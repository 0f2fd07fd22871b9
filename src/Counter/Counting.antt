-- ===== src/Counter/Counting.antt =====
-- counter/counter.go: the counting phase, `countTasks` and `countOneTask`.
use Prim.Native.String.{String}
use knighttour.Prelude.{ℕ, suc, ◌*◌, ◌%◌, ◌^◌, if◌then◌else◌, Bool, List, [], ◌∷◌, some}
use knighttour.Cache.{Entry, Cache, View, add64, seal, view_len}
use knighttour.Cache.Walk.{Walker, view_all}
use knighttour.Searcher.{Searcher, Context, count_paths_with_cache_reversal}
use knighttour.Monitor.{
  Monitor, begin_phase, add_tasks, report_paths_found, report_subtask, report_task_completed,
}
use knighttour.Counter.{count_sizing}
use knighttour.Counter.Dispatch.{dispatch_entries}
use knighttour.Counter.Delivery.{concat}

-- The names of the phases.
abbrev pub gen_a : String
gen_a = "gen A"

abbrev pub gen_b : String
gen_b = "gen B"

abbrev pub counting : String
counting = "counting"

-- The atomic total and the monitor, which the consumers share.
pub record Tally : Type 0 where
  pub total : ℕ
  pub monitor : Monitor

-- The context is asked once before the descent, which goes on with the polls after.
unfoldable pub count_one_task : Searcher → Context → View → ℕ → Entry → Tally → Tally
count_one_task s ctx memo depth task t =
    let result = count_paths_with_cache_reversal s (λ n. ctx (suc n)) task (some memo) depth in
    let paths = result.total_paths_found * task.weight % 2 ^ 64 in
    if ctx 0 then t else record {
      total = add64 t.total paths;
      monitor = report_task_completed (report_subtask result (report_paths_found paths t.monitor));
    }

-- The consumers' loops: the records in the order in which they are counted, each with a context.
unfoldable pub count_all_tasks :
    Searcher → (ℕ → Context) → View → ℕ → ℕ → List Entry → Tally → Tally
unfolding count_one_task
count_all_tasks s ctxs memo depth i [] t = t
count_all_tasks s ctxs memo depth i (e ∷ es) t =
    count_all_tasks s ctxs memo depth (suc i) es (count_one_task s (ctxs i) memo depth e t)

-- What the scheduler and the context decide in the counting phase: how the walk goes, which sends
-- find a slot, whether the context is alive after the walk, the order in which the consumers
-- count what is delivered, and what each of these descents polls.
pub record Schedule : Type 0 where
  pub walk : Walker
  pub deliver : ℕ → Bool
  pub alive : Bool
  pub arrange : List Entry → List Entry
  pub tasks : ℕ → Context

-- The records that reach the consumers, and the tasks registered on the way.
unfoldable pub count_dispatch : Schedule → ℕ → View → ℕ → List Entry × ℕ
count_dispatch sched workers view capacity_per_consumer =
    let sizing = count_sizing workers (view_len view) capacity_per_consumer in
    let d = dispatch_entries sched.deliver sched.alive sizing.batch (view_all sched.walk view) in
    (concat d.sent, d.added)

unfoldable pub count_tasks : Searcher → Schedule → ℕ → ℕ → Cache → ℕ → ℕ → Monitor → Tally
unfolding count_dispatch
count_tasks s sched now workers task_cache depth capacity_per_consumer monitor =
    let view = seal task_cache in
    let (delivered, added) = count_dispatch sched workers view capacity_per_consumer in
    count_all_tasks s sched.tasks view depth 0 (sched.arrange delivered)
      (record { total = 0; monitor = add_tasks added (begin_phase counting now monitor) })
