-- ===== src/Counter/Totals.antt =====
-- counter/counter.go, `countTasks`: the total, and what the monitor knows of it.
use mathlib.Core.Path.{fun_ext}
use mathlib.Core.List.{Perm}
use knighttour.Prelude.{
  ℕ, suc, ◌+◌, ◌*◌, ◌%◌, ◌^◌, ◌≤◌, ◌<◌, if◌then◌else◌, Bool, true, false, List, [], ◌∷◌, length,
  some,
}
use knighttour.Prelude.{◌≡◌, refl, sym, ap, ◌∙◌, inl, inr, arith, Bool-cases}
use knighttour.Cache.{Entry, Cache, View, add64, seal, view_len}
use knighttour.Cache.Sums.{sum_over, sum_over-Perm, sum_over-ones, length-Perm}
use knighttour.Cache.Walk.{IsFair, stored_walk, view_all}
use knighttour.Cache.Worklist.{sum_over-view_all}
use knighttour.Searcher.{Searcher, Context, count_paths_with_cache_reversal}
use knighttour.Monitor.{
  PhaseStats, Monitor, begin_phase, add_tasks, report_paths_found, report_subtask,
  report_task_completed, fold_result,
}
use knighttour.Counter.{count_sizing}
use knighttour.Counter.Sizes.{count_sizing_bounds}
use knighttour.Counter.Delivery.{concat-dispatch_entries, dispatch_entries_registered}
use knighttour.Counter.Counting.{
  counting, Tally, Schedule, count_one_task, count_all_tasks, count_dispatch, count_tasks,
}

-- The context that does not end.
abbrev pub never : ℕ → Bool
never n = false

-- A task's paths with its weight.
unfoldable pub weighted : Searcher → View → ℕ → Entry → ℕ
weighted s memo depth task =
    (count_paths_with_cache_reversal s never task (some memo) depth).total_paths_found * task.weight

-- The tasks that find the context alive.
counted : (ℕ → Context) → ℕ → List Entry → ℕ
counted ctxs i [] = 0
counted ctxs i (e ∷ es) = (if ctxs i 0 then 0 else 1) + counted ctxs (suc i) es

counted-le : (ctxs : ℕ → Context) (i : ℕ) (es : List Entry) → counted ctxs i es ≤ length es
unfolding counted
counted-le ctxs i [] = omega arith
counted-le ctxs i (e ∷ es) = ground (arith, counted-le ctxs (suc i) es)

counted-all :
    (ctxs : ℕ → Context) (i : ℕ) (es : List Entry)
    → ((n : ℕ) → ctxs n ≡ never)
    → counted ctxs i es ≡ length es
unfolding counted
counted-all ctxs i [] on = refl
counted-all ctxs i (e ∷ es) on =
    let alive = ap (λ (c : Context). c 0) (on i) in
    rw alive (omega (arith, counted-all ctxs (suc i) es on))

-- The active phase of a tally, of which `n` tasks have been completed.
record Tracks (tasks n : ℕ) (t : Tally) : Type 0 where
  phase : PhaseStats
  active : t.monitor.active ≡ some phase
  paths : phase.paths_found ≡ t.total
  registered : phase.tasks ≡ tasks
  completed : phase.completed ≡ n % 2 ^ 64

module _ (s : Searcher) (memo : View) (depth tasks : ℕ) where
  count_one_task-Tracks :
      (ctx : Context) (e : Entry) (n : ℕ) (t : Tally)
      → Tracks tasks n t
      → Tracks tasks (n + (if ctx 0 then 0 else 1)) (count_one_task s ctx memo depth e t)
  unfolding count_one_task report_paths_found report_subtask report_task_completed fold_result
  count_one_task-Tracks ctx e n t h = elim (Bool-cases (ctx 0)) [
    | inl over ↦ let same : n + 0 ≡ n = omega arith in rw (over, count_one_task, same) h
    | inr on ↦
        rw (on, count_one_task, h.active)
          (record {
            phase = _;
            active = refl;
            paths = ap (λ p. add64 p _) h.paths;
            registered = h.registered;
            completed = omega (arith, h.completed);
          })
  ]

  count_all_tasks-Tracks :
      (ctxs : ℕ → Context) (i : ℕ) (es : List Entry) (n : ℕ) (t : Tally)
      → Tracks tasks n t
      → Tracks tasks (n + counted ctxs i es) (count_all_tasks s ctxs memo depth i es t)
  unfolding count_all_tasks counted
  count_all_tasks-Tracks ctxs i [] n t h = let same : n + 0 ≡ n = omega arith in rw same h
  count_all_tasks-Tracks ctxs i (e ∷ es) n t h =
      let rest =
        count_all_tasks-Tracks ctxs (suc i) es _ _ (count_one_task-Tracks (ctxs i) e n t h) in
      let same : n + (if ctxs i 0 then 0 else 1) + counted ctxs (suc i) es
          ≡ n + ((if ctxs i 0 then 0 else 1) + counted ctxs (suc i) es) =
        omega arith in
      rw same at rest

  count_one_task-total :
      (ctx : Context) (e : Entry) (t : Tally)
      → ctx ≡ never
      → (count_one_task s ctx memo depth e t).total ≡ (t.total + weighted s memo depth e) % 2 ^ 64
  unfolding count_one_task weighted
  count_one_task-total ctx e t on = rw (on, count_one_task) (omega arith)

  count_all_tasks-total :
      (ctxs : ℕ → Context) (i : ℕ) (es : List Entry) (t : Tally)
      → ((n : ℕ) → ctxs n ≡ never)
      → t.total < 2 ^ 64
      → (count_all_tasks s ctxs memo depth i es t).total
        ≡ (t.total + sum_over (weighted s memo depth) es) % 2 ^ 64
  unfolding count_all_tasks sum_over
  count_all_tasks-total ctxs i [] t on small = omega arith
  count_all_tasks-total ctxs i (e ∷ es) t on small =
      let one = count_one_task-total (ctxs i) e t (on i) in
      let next = count_one_task s (ctxs i) memo depth e t in
      omega (arith, one, count_all_tasks-total ctxs (suc i) es next on (omega (arith, one)))

-- The tally with which the consumers begin.
abbrev first_tally : ℕ → ℕ → Monitor → Tally
first_tally now added monitor = record {
  total = 0;
  monitor = add_tasks added (begin_phase counting now monitor);
}

first_tally-Tracks :
    (now added : ℕ) (monitor : Monitor) → Tracks (added % 2 ^ 64) 0 (first_tally now added monitor)
unfolding add_tasks begin_phase
first_tally-Tracks now added monitor = record {
  phase = _;
  active = refl;
  paths = refl;
  registered = omega arith;
  completed = omega arith;
}

concat-registered :
    (sched : Schedule) (workers : ℕ) (view : View) (k : ℕ)
    → length (count_dispatch sched workers view k).0 ≤ (count_dispatch sched workers view k).1
unfolding count_dispatch
concat-registered sched workers view k =
    dispatch_entries_registered sched.deliver sched.alive
      (count_sizing workers (view_len view) k).batch (view_all sched.walk view)

module _ (s : Searcher) (sched : Schedule) (now workers : ℕ) (task_cache : Cache) (depth k : ℕ)
    (monitor : Monitor) where
  -- The records that reach the consumers, the tasks registered, and the tally at the end.
  abbrev dispatched : List Entry × ℕ
  dispatched = count_dispatch sched workers (seal task_cache) k

  abbrev end_tally : Tally
  end_tally = count_tasks s sched now workers task_cache depth k monitor

  count_tasks-consumers :
      end_tally
      ≡ count_all_tasks s sched.tasks
          (seal task_cache)
          depth
          0
          (sched.arrange dispatched.0)
          (first_tally now dispatched.1 monitor)
  unfolding count_tasks
  count_tasks-consumers = refl

  count_tasks-Tracks :
      Tracks (dispatched.1 % 2 ^ 64) (counted sched.tasks 0 (sched.arrange dispatched.0)) end_tally
  count_tasks-Tracks =
      let n = counted sched.tasks 0 (sched.arrange dispatched.0) in
      let from_zero : 0 + n ≡ n = omega arith in
      let h =
        count_all_tasks-Tracks s (seal task_cache) depth (dispatched.1 % 2 ^ 64) sched.tasks 0
          (sched.arrange dispatched.0) 0 _ (first_tally-Tracks now dispatched.1 monitor) in
      rw count_tasks-consumers (rw from_zero at h)

  -- A run that nothing cuts short.
  module _ (deliver : (n : ℕ) → sched.deliver n ≡ true) (alive : sched.alive ≡ true)
      (walk : (n : ℕ) → sched.walk.polls n ≡ false) (fair : IsFair sched.walk) where
    walked :
        (f : Entry → ℕ)
        → sum_over f (view_all sched.walk (seal task_cache))
          ≡ sum_over f (view_all stored_walk (seal task_cache))
    walked f = sum_over-view_all f sched.walk (seal task_cache) walk fair

    walked_length :
        length (view_all sched.walk (seal task_cache))
        ≡ length (view_all stored_walk (seal task_cache))
    walked_length = sym (sum_over-ones _) ∙ walked (λ _. 1) ∙ sum_over-ones _

    all_dispatched :
        (dispatched.0 ≡ view_all sched.walk (seal task_cache))
        × (dispatched.1 ≡ length (view_all stored_walk (seal task_cache)))
    unfolding count_dispatch
    all_dispatched =
        let sizing = count_sizing workers (view_len (seal task_cache)) k in
        let (order, _, added) =
          concat-dispatch_entries sched.deliver sizing.batch (view_all sched.walk (seal task_cache))
            deliver
            (omega (arith, (count_sizing_bounds workers (view_len (seal task_cache)) k).2)) in
        rw alive (order, added ∙ walked_length)

    module _ (tasks : (n i : ℕ) → sched.tasks n i ≡ false)
        (order : (es : List Entry) → Perm es (sched.arrange es)) where
      whole-total :
          end_tally.total
          ≡ sum_over (weighted s (seal task_cache) depth) (view_all stored_walk (seal task_cache))
            % 2 ^ 64
      whole-total =
          let sum =
            count_all_tasks-total s (seal task_cache) depth (dispatched.1 % 2 ^ 64) sched.tasks 0
              (sched.arrange dispatched.0) (first_tally now dispatched.1 monitor)
              (λ n. fun_ext (tasks n)) (omega arith) in
          let f = weighted s (seal task_cache) depth in
          let same = sum_over-Perm f _ _ (order dispatched.0) in
          ap (λ (t : Tally). t.total) count_tasks-consumers
          ∙ sum
          ∙ omega (arith, same, ap (sum_over f) all_dispatched.0, walked f)

      whole-counted :
          counted sched.tasks 0 (sched.arrange dispatched.0)
          ≡ length (view_all stored_walk (seal task_cache))
      whole-counted =
          counted-all sched.tasks 0 (sched.arrange dispatched.0) (λ n. fun_ext (tasks n))
          ∙ sym (length-Perm _ _ (order dispatched.0))
          ∙ ap length all_dispatched.0
          ∙ walked_length

-- When every send finds a slot, the context does not end, the walk takes the maps in any order,
-- each record once, and the consumers count what is delivered in any order, the total is the sum of
-- the tasks' paths with their weights over all records of the sealed table, modulo 2 ^ 64; the
-- monitor's active phase has that total as its paths found, and has registered and completed as
-- many tasks as there are records, modulo 2 ^ 64.
pub count_tasks-sum_over :
    (s : Searcher) (sched : Schedule) (now workers : ℕ) (task_cache : Cache) (depth k : ℕ)
    (monitor : Monitor)
    → ((n : ℕ) → sched.deliver n ≡ true)
    → sched.alive ≡ true
    → ((n : ℕ) → sched.walk.polls n ≡ false)
    → IsFair sched.walk
    → ((n i : ℕ) → sched.tasks n i ≡ false)
    → ((es : List Entry) → Perm es (sched.arrange es))
    → ((count_tasks s sched now workers task_cache depth k monitor).total
        ≡ sum_over (weighted s (seal task_cache) depth) (view_all stored_walk (seal task_cache))
          % 2 ^ 64)
      × ((ph : PhaseStats) × ((count_tasks s sched now workers task_cache depth k
              monitor).monitor.active
            ≡ some ph)
          × (ph.paths_found ≡ (count_tasks s sched now workers task_cache depth k monitor).total)
          × (ph.tasks ≡ length (view_all stored_walk (seal task_cache)) % 2 ^ 64)
          × (ph.completed ≡ length (view_all stored_walk (seal task_cache)) % 2 ^ 64))
count_tasks-sum_over s sched now workers task_cache depth k monitor deliver alive walk fair tasks
      order =
    let h = count_tasks-Tracks s sched now workers task_cache depth k monitor in
    let (_, added) =
      all_dispatched s sched now workers task_cache depth k monitor deliver alive walk fair in
    let n =
      whole-counted s sched now workers task_cache depth k monitor deliver alive walk fair tasks
        order in
    (
      whole-total s sched now workers task_cache depth k monitor deliver alive walk fair tasks
          order,
      (
        h.phase,
        h.active,
        h.paths,
        h.registered ∙ ap (λ (t : ℕ). t % 2 ^ 64) added,
        h.completed ∙ ap (λ (t : ℕ). t % 2 ^ 64) n,
      ),
    )

-- However the phase goes - sends that fail, a context that ends at any time, records in any order -
-- the paths found of the monitor's active phase are the total that is returned, and, with fewer than
-- 2 ^ 64 tasks registered, no more tasks are completed than are registered.
pub count_tasks_progress :
    (s : Searcher) (sched : Schedule) (now workers : ℕ) (task_cache : Cache) (depth k : ℕ)
    (monitor : Monitor)
    → ((es : List Entry) → Perm es (sched.arrange es))
    → (count_dispatch sched workers (seal task_cache) k).1 < 2 ^ 64
    → (ph : PhaseStats) × ((count_tasks s sched now workers task_cache depth k
          monitor).monitor.active
        ≡ some ph)
      × (ph.paths_found ≡ (count_tasks s sched now workers task_cache depth k monitor).total)
      × (ph.tasks ≡ (count_dispatch sched workers (seal task_cache) k).1)
      × (ph.completed ≤ ph.tasks)
count_tasks_progress s sched now workers task_cache depth k monitor order few =
    let h = count_tasks-Tracks s sched now workers task_cache depth k monitor in
    let (delivered, added) = count_dispatch sched workers (seal task_cache) k in
    let registered = concat-registered sched workers (seal task_cache) k in
    let le = counted-le sched.tasks 0 (sched.arrange delivered) in
    let same = length-Perm _ _ (order delivered) in
    (
      h.phase,
      h.active,
      h.paths,
      omega (arith, h.registered, few),
      omega (arith, h.registered, h.completed, few, registered, le, same),
    )
