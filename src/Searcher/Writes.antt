-- ===== src/Searcher/Writes.antt =====
-- searcher/searcher.go, `GenerateTasks` with different sinks.
use knighttour.Prelude.{ℕ, zero, suc, ◌+◌, leb, arith, Bool, true, false, if◌then◌else◌}
use knighttour.Prelude.{
  ◌≡◌, inl, inr, refl, sym, ap, ◌∙◌, List, [], ◌∷◌, ◌++◌, length, length-append, Bool-cases,
  Option-cases,
}
use knighttour.State.{State, new_state, visit, invert, count_bits}
use knighttour.Pruner.{
  Reason, no_reason, dead_end, no_continuation, disconnected, endpoints, forced_chain,
}
use knighttour.Graph.{should_skip}
use knighttour.Pruner.Chain.{should_prune_state}
use knighttour.Types.{Result, count_prune, finalize}
use knighttour.Symmetry.{canonical_class}
use knighttour.Cache.{Entry}
use knighttour.Searcher.{Searcher, Context, cut_reason, candidates, max_depth}
use knighttour.Searcher.Tasks.{
  TaskRun, first_run, write, task_leaf, task_loop, dfs_task, generate_tasks, extend_task,
  record_write, put_all,
}

count_prune-cache_writes :
    (r : Result) (x : Reason) → (count_prune r x).cache_writes ≡ r.cache_writes
unfolding count_prune
count_prune-cache_writes r no_reason = refl
count_prune-cache_writes r dead_end = refl
count_prune-cache_writes r no_continuation = refl
count_prune-cache_writes r disconnected = refl
count_prune-cache_writes r endpoints = refl
count_prune-cache_writes r forced_chain = refl

module _ {S : Type 0} (put : S → State → ℕ → ℕ → S) where
  put_all-snoc :
      (es : List Entry) (sink : S) (e : Entry)
      → put_all put sink (es ++ e ∷ []) ≡ put (put_all put sink es) e.mask e.rep e.weight
  unfolding put_all
  put_all-snoc [] sink e = refl
  put_all-snoc (d ∷ es) sink e = put_all-snoc es (put sink d.mask d.rep d.weight) e

  module _ (s : Searcher) (sink₀ : S) where
    -- A run into `put` and a run that records agree.
    record Follows (a : TaskRun S) (l : TaskRun (List Entry)) : Type 0 where
      polls : a.polls ≡ l.polls
      result : a.result ≡ l.result
      sink : a.sink ≡ put_all put sink₀ l.sink
      writes : l.result.cache_writes ≡ length l.sink

    Follows-prune :
        (a : TaskRun S) (l : TaskRun (List Entry)) (r : Reason)
        → Follows a l
        → Follows
            (record a { result = count_prune a.result r })
            (record l { result = count_prune l.result r })
    Follows-prune a l r h = record {
      polls = h.polls;
      result = ap (λ t. count_prune t r) h.result;
      sink = h.sink;
      writes = count_prune-cache_writes l.result r ∙ h.writes;
    }

    Follows-poll :
        (a : TaskRun S) (l : TaskRun (List Entry))
        → Follows a l
        → Follows (record a { polls = a.polls + 1 }) (record l { polls = l.polls + 1 })
    Follows-poll a l h = record {
      polls = ap (λ t. t + 1) h.polls;
      result = h.result;
      sink = h.sink;
      writes = h.writes;
    }

    Follows-write :
        (key rep weight : ℕ) (a : TaskRun S) (l : TaskRun (List Entry))
        → Follows a l
        → Follows (write put s key rep weight a) (write record_write s key rep weight l)
    unfolding write
    Follows-write key rep weight a l h =
        let e : Entry = record { mask = key; rep = rep; weight = weight } in
        record {
          polls = h.polls;
          result = ap {A = Result} (λ t. record t { cache_writes = t.cache_writes + 1 }) h.result;
          sink = ap (λ t. put t key rep weight) h.sink ∙ sym (put_all-snoc l.sink sink₀ e);
          writes = omega (arith, h.writes, length-append l.sink (e ∷ []));
        }

    task_leaf-Follows :
        (st : State) (end weight : ℕ) (a : TaskRun S) (l : TaskRun (List Entry))
        → Follows a l
        → Follows (task_leaf put s st end weight a) (task_leaf record_write s st end weight l)
    unfolding task_leaf
    task_leaf-Follows st end weight a l h =
        let gate = should_prune_state s.graph end (invert st s.graph.total_cells) in
        let k = canonical_class s.sym st end in
        elim (Bool-cases gate.0) [
          | inl cut ↦ rw (cut, task_leaf) (Follows-prune a l gate.1 h)
          | inr keep ↦ rw (keep, task_leaf) (Follows-write k.mask k.rep weight a l h)
        ]

    task_loop-Follows :
        (d : State → ℕ → TaskRun S → TaskRun S)
        (e : State → ℕ → TaskRun (List Entry) → TaskRun (List Entry))
        → ((st : State) (n : ℕ) (a : TaskRun S) (l : TaskRun (List Entry))
            → Follows a l
            → Follows (d st n a) (e st n l))
        → (st u : State) (ns : List ℕ) (a : TaskRun S) (l : TaskRun (List Entry)) → Follows a l
        → Follows (task_loop put s d st u ns a) (task_loop record_write s e st u ns l)
    unfolding task_loop
    task_loop-Follows d e ih st u [] a l h = h
    task_loop-Follows d e ih st u (n ∷ ns) a l h = elim (Option-cases (cut_reason s u n)) [
      | inr (r, cut) ↦
          rw (cut, task_loop) (task_loop-Follows d e ih st u ns _ _ (Follows-prune a l r h))
      | inl keep ↦
          rw (keep, task_loop) (task_loop-Follows d e ih st u ns _ _ (ih (visit st n) n a l h))
    ]

    dfs_task-Follows :
        (ctx : Context) (depth weight fuel : ℕ) (st : State) (end : ℕ) (a : TaskRun S)
        (l : TaskRun (List Entry))
        → Follows a l
        → Follows
            (dfs_task put s ctx depth weight fuel st end a)
            (dfs_task record_write s ctx depth weight fuel st end l)
    unfolding dfs_task
    dfs_task-Follows ctx depth weight zero st end a l h = h
    dfs_task-Follows ctx depth weight (suc fuel) st end a l h =
        let u = invert st s.graph.total_cells in
        let polled = Follows-poll a l h in
        let same = ap ctx h.polls in
        elim (Bool-cases (ctx l.polls)) [
          | inl over ↦ rw (same, over, dfs_task) polled
          | inr on ↦ elim (Bool-cases (leb depth (count_bits st))) [
            | inl leaf ↦ rw (same, on, leaf, dfs_task) (task_leaf-Follows st end weight _ _ polled)
            | inr inner ↦
                rw (same, on, inner, dfs_task)
                  (task_loop-Follows _ _ (dfs_task-Follows ctx depth weight fuel) st u
                    (candidates s u end) _ _ polled)
          ]
        ]

    if-Follows :
        (b : Bool) (a a' : TaskRun S) (l l' : TaskRun (List Entry))
        → Follows a l
        → Follows a' l'
        → Follows (if b then a else a') (if b then l else l')
    if-Follows true a a' l l' h h' = h
    if-Follows false a a' l l' h h' = h'

    first-Follows : Follows (first_run sink₀) (first_run [])
    first-Follows = record {
      polls = refl;
      result = refl;
      sink = unfold put_all in refl;
      writes = refl;
    }

-- What `GenerateTasks` reports is the same for every sink, its cache writes are the writes that it
-- makes, and the sink ends up as those writes make it in their order: a census that discards the
-- writes counts what a run into the table writes.
pub generate_tasks_writes :
    {S : Type 0} (put : S → State → ℕ → ℕ → S) (s : Searcher) (ctx : Context) (sink : S)
    (start orbit_size depth : ℕ)
    → ((generate_tasks put s ctx sink start orbit_size depth).0
        ≡ (generate_tasks record_write s ctx [] start orbit_size depth).0)
      × ((generate_tasks put s ctx sink start orbit_size depth).1
          ≡ put_all put sink (generate_tasks record_write s ctx [] start orbit_size depth).1)
      × ((generate_tasks record_write s ctx [] start orbit_size depth).0.cache_writes
          ≡ length (generate_tasks record_write s ctx [] start orbit_size depth).1)
unfolding generate_tasks
generate_tasks_writes put s ctx sink start orbit_size depth =
    let h =
      dfs_task-Follows put s sink ctx depth orbit_size max_depth (new_state (start ∷ [])) start
        (first_run sink) (first_run []) (first-Follows put s sink) in
    elim (Bool-cases (should_skip s.graph start)) [
      | inl skip ↦ rw skip (refl, unfold put_all in refl, refl)
      | inr go ↦ rw go (ap finalize h.result, h.sink, unfold finalize in h.writes)
    ]

-- The same of `ExtendTask`, for an entry that is at the depth already and for one that is not.
pub extend_task_writes :
    {S : Type 0} (put : S → State → ℕ → ℕ → S) (s : Searcher) (ctx : Context) (sink : S) (e : Entry)
    (depth : ℕ)
    → ((extend_task put s ctx sink e depth).0 ≡ (extend_task record_write s ctx [] e depth).0)
      × ((extend_task put s ctx sink e depth).1
          ≡ put_all put sink (extend_task record_write s ctx [] e depth).1)
unfolding extend_task
extend_task_writes put s ctx sink e depth =
    let first = first-Follows put s sink in
    let h =
      if-Follows put s sink (leb depth (count_bits e.mask)) _ _ _ _
        (Follows-write put s sink e.mask e.rep e.weight _ _ first)
        (dfs_task-Follows put s sink ctx depth e.weight max_depth e.mask e.rep _ _ first) in
    (ap finalize h.result, h.sink)
