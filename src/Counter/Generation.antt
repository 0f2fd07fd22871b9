-- ===== src/Counter/Generation.antt =====
-- counter/counter.go, the generation phases: what is in their tables at the end.
use knighttour.Prelude.{
  ℕ, zero, suc, ◌≤◌, ◌<◌, ◌==◌, min, if◌then◌else◌, Bool, true, false, List, [], ◌∷◌, ◌++◌, length,
  get_or, set, replicate, length-replicate, Bool-cases, get_or-set_self, get_or-set_ne,
}
use knighttour.Prelude.{◌≡◌, refl, sym, ap, ◌∙◌, inl, inr, arith, ==→≡, ==→≢}
use mathlib.Core.List.{append_assoc, append-nil}
use mathlib.Core.Path.{fun_ext}
use knighttour.Symmetry.{CanonicalGroup, get_canonical_groups}
use knighttour.Cache.{Entry, Cache, new_cache, set_weight}
use knighttour.Cache.Slots.{or_zero}
use knighttour.Cache.Sums.{sum_over, sum_over-ones, share, stray, SameSums}
use knighttour.Cache.Staging.{Staging, new_staging, flush}
use knighttour.Cache.Table.{read, get_or-replicate}
use knighttour.Cache.Walk.{Walker, IsFair, materialize_worklist}
use knighttour.Cache.Histogram.{set_all, total, IsAffordable}
use knighttour.Cache.Worklist.{worklist-SameSums}
use knighttour.Cache.Flushed.{set_all-append, flat, kept, flat-flush, new_staging-IsWriter}
use knighttour.Searcher.{Searcher}
use knighttour.Searcher.Tasks.{generate_tasks, extend_task, record_write, put_all}
use knighttour.Searcher.Writes.{generate_tasks_writes, extend_task_writes}
use knighttour.Monitor.{Monitor}
use knighttour.Counter.{base_depth, staging_flush_limit}
use knighttour.Counter.Desks.{
  blank, desk, pending, Holds, put_at, length-at_desk, release_at-Holds, put_all-Holds,
  put_all-other, length-put_all,
}
use knighttour.Counter.Phases.{
  Gen, Event, task, exit, Desks, staging_sinks, report_task, generate_loop, GenSchedule,
  generate_intermediate, extend_loop, extend_into, extend_tasks, no_group, no_entry,
}

-- The writes of the tasks of a phase, in the order of the events.
unfoldable pub extend_writes : Searcher → List Entry → ℕ → List Event → List Entry
extend_writes s intermediate depth [] = []
extend_writes s intermediate depth (exit w ∷ events) = extend_writes s intermediate depth events
extend_writes s intermediate depth (task w i ctx ∷ events) =
    (extend_task record_write s ctx [] (get_or intermediate i no_entry) depth).1
    ++ extend_writes s intermediate depth events

-- The events are those of workers below `n`.
unfoldable pub Crewed : ℕ → List Event → Type 0
Crewed n [] = Unit
Crewed n (exit w ∷ events) = (w < n) × Crewed n events
Crewed n (task w i ctx ∷ events) = (w < n) × Crewed n events

-- Whether worker `w` has left its loop after its last task; `idle` says whether it has none open yet.
unfoldable pub settled : ℕ → Bool → List Event → Bool
settled w idle [] = idle
settled w idle (exit v ∷ events) = settled w (if v == w then true else idle) events
settled w idle (task v i ctx ∷ events) = settled w (if v == w then false else idle) events

emptied_desk :
    (ss : List Staging) (v w : ℕ) (own b : Staging)
    → v ≡ w
    → v < length ss
    → flat own.baskets ≡ []
    → flat (get_or (set ss v own) w b).baskets ≡ []
emptied_desk ss v w own b same lt e =
    ap (λ (j : ℕ). flat (get_or (set ss v own) j b).baskets) (sym same)
    ∙ ap (λ (st : Staging). flat st.baskets) (get_or-set_self ss v own b lt)
    ∙ e

module _ (s : Searcher) (intermediate : List Entry) (depth : ℕ) where
  abbrev run : List Event → Gen Desks → Gen Desks
  run = extend_loop staging_sinks s intermediate depth

  extend_loop-Holds :
      (n : ℕ) (events : List Event) (log : List Entry) (g : Gen Desks)
      → length g.sink.stagings ≡ n
      → Crewed n events
      → Holds log g.sink
      → Holds (log ++ extend_writes s intermediate depth events) (run events g).sink
        × (length (run events g).sink.stagings ≡ n)
  unfolding extend_loop report_task staging_sinks extend_writes Crewed
  extend_loop-Holds n [] log g size crew h = (rw (append-nil log) h, size)
  extend_loop-Holds n (exit w ∷ events) log g size crew h =
      extend_loop-Holds n events log _ (length-at_desk flush w g.sink ∙ size) crew.1
        (release_at-Holds log g.sink w (omega (arith, crew.0, size)) h)
  extend_loop-Holds n (task w i ctx ∷ events) log g size crew h =
      let e = get_or intermediate i no_entry in
      let writes = (extend_task record_write s ctx [] e depth).1 in
      let held = put_all-Holds log writes g.sink w (omega (arith, crew.0, size)) h in
      let sink = (extend_task_writes (put_at w) s ctx g.sink e depth).1 in
      let (rest, same) =
        extend_loop-Holds n events (log ++ writes) _
          (ap (λ (d : Desks). length d.stagings) sink ∙ length-put_all writes g.sink w ∙ size)
          crew.1 (rw sink held) in
      ((rw (append_assoc log writes (extend_writes s intermediate depth events)) at rest), same)

  -- A worker that has left its loop has empty baskets.
  extend_loop-empty :
      (n : ℕ) (events : List Event) (w : ℕ) (idle : Bool) (b : Staging) (g : Gen Desks)
      → length g.sink.stagings ≡ n
      → w < n
      → settled w idle events ≡ true
      → (idle ≡ true → flat (get_or g.sink.stagings w b).baskets ≡ [])
      → flat (get_or (run events g).sink.stagings w b).baskets ≡ []
  unfolding extend_loop report_task staging_sinks settled
  extend_loop-empty n [] w idle b g size lt e h = h e
  extend_loop-empty n (exit v ∷ events) w idle b g size lt e h =
      let size' = length-at_desk flush v g.sink ∙ size in
      elim (Bool-cases (v == w)) [
        | inl same ↦ extend_loop-empty n events w true b _ size' lt (rw same at e) λ _.
            emptied_desk g.sink.stagings v w (flush (desk v g.sink)) b (==→≡ v w same)
              (omega (arith, ==→≡ v w same, lt, size)) (flat-flush (desk v g.sink))
        | inr apart ↦ extend_loop-empty n events w idle b _ size' lt (rw apart at e) λ quiet.
            ap (λ (st : Staging). flat st.baskets)
              (get_or-set_ne g.sink.stagings v w (flush (desk v g.sink)) b (==→≢ v w apart))
            ∙ h quiet
      ]
  extend_loop-empty n (task v i ctx ∷ events) w idle b g size lt e h =
      let t = get_or intermediate i no_entry in
      let writes = (extend_task record_write s ctx [] t depth).1 in
      let sink = (extend_task_writes (put_at v) s ctx g.sink t depth).1 in
      let size' =
        ap (λ (d : Desks). length d.stagings) sink ∙ length-put_all writes g.sink v ∙ size in
      elim (Bool-cases (v == w)) [
        | inl same ↦ extend_loop-empty n events w false b _ size' lt (rw same at e) λ f. cc f
        | inr apart ↦ extend_loop-empty n events w idle b _ size' lt (rw apart at e) λ quiet.
            ap (λ (d : Desks). flat (get_or d.stagings w b).baskets) sink
            ∙ ap (λ (st : Staging). flat st.baskets)
                (put_all-other writes g.sink v w b (==→≢ v w apart))
            ∙ h quiet
      ]

pending-empty :
    (f : Entry → ℕ) (ss : List Staging) (b : Staging)
    → ((w : ℕ) → w < length ss → flat (get_or ss w b).baskets ≡ [])
    → pending f ss ≡ 0
unfolding pending
pending-empty f [] b h = refl
pending-empty f (s ∷ ss) b h =
    let first : sum_over f (flat s.baskets) ≡ 0 =
      ap (sum_over f) (h 0 (omega arith)) ∙ unfold sum_over in refl in
    omega (arith, first, pending-empty f ss b (λ w lt. h (suc w) (omega arith)))

-- The contributions that are not 0.
nonzero : List Entry → List Entry
nonzero [] = []
nonzero (e ∷ es) = let rest = nonzero es in if e.weight == 0 then rest else e ∷ rest

sum_over-nonzero :
    (f : Entry → ℕ) (es : List Entry) → sum_over f (nonzero es) ≡ sum_over (kept f) es
unfolding nonzero sum_over
sum_over-nonzero f [] = refl
sum_over-nonzero f (e ∷ es) = elim (Bool-cases (e.weight == 0)) [
  | inl nothing ↦ rw nothing (omega (arith, sum_over-nonzero f es))
  | inr live ↦ rw live (omega (arith, sum_over-nonzero f es))
]

sum_over-kept : (f : Entry → ℕ) (es : List Entry) → sum_over (kept f) es ≤ sum_over f es
unfolding sum_over
sum_over-kept f [] = omega arith
sum_over-kept f (e ∷ es) = ground (arith, sum_over-kept f es)

total-nonzero : (es : List Entry) (key r : ℕ) → total (nonzero es) key r ≡ total es key r
total-nonzero es key r =
    sum_over-nonzero (share key r) es
    ∙ ap (λ (f : Entry → ℕ). sum_over f es) (fun_ext (no_share key r))
  where
    no_share : (key r : ℕ) (e : Entry) → kept (share key r) e ≡ share key r e
    no_share key r e = ground arith

nonzero-IsAffordable :
    (c : Cache) (es : List Entry) → IsAffordable c es → IsAffordable c (nonzero es)
nonzero-IsAffordable c es a = record {
  cells = omega (arith, a.cells, sum_over-nonzero stray es, sum_over-kept stray es);
  small = λ key rep. omega (arith, a.small key rep, total-nonzero es key rep);
  room = λ key. omega (
    arith,
    a.room key,
    sum_over-nonzero (λ _. 1) es,
    sum_over-kept (λ _. 1) es,
    sum_over-ones es,
    sum_over-ones (nonzero es),
  );
}

abbrev fresh_desks : ℕ → Desks
fresh_desks n = record {
  cache = new_cache;
  stagings = replicate n (new_staging new_cache staging_flush_limit);
}

fresh_desks-Holds : (n : ℕ) → Holds [] (fresh_desks n)
fresh_desks-Holds n =
    let (writer, empty) = new_staging-IsWriter new_cache staging_flush_limit in
    record {
      out = [];
      made = unfold set_all in refl;
      writers = λ w b lt.
          rw (get_or-replicated n w _ b (omega (arith, lt, length-replicate n (blank new_cache))))
            writer;
      balance = λ f.
          let none_pending =
            pending-empty f (replicate n (blank new_cache)) (blank new_cache)
              (λ w lt. rw (get_or-replicate n w (blank new_cache)) empty) in
          unfold sum_over in omega (arith, none_pending);
    }
  where
    get_or-replicated : (n w : ℕ) (st b : Staging) → w < n → get_or (replicate n st) w b ≡ st
    get_or-replicated zero w st b lt = absurd (omega arith)
    get_or-replicated (suc n) zero st b lt = refl
    get_or-replicated (suc n) (suc w) st b lt = get_or-replicated n w st b (omega arith)

crew_total :
    (s : Searcher) (intermediate : List Entry) (depth n : ℕ) (events : List Event) (m : Monitor)
    (key r : ℕ) (walk : Walker)
    → ((n : ℕ) → walk.polls n ≡ false)
    → IsFair walk
    → Crewed n events
    → ((w : ℕ) → settled w true events ≡ true)
    → IsAffordable new_cache (extend_writes s intermediate depth events)
    → let c =
        (run s intermediate depth events
          (record { sink = fresh_desks n; monitor = m })).sink.cache in
      (total (materialize_worklist walk c) key r
        ≡ total (extend_writes s intermediate depth events) key r)
      × (or_zero (read c key r) ≡ total (extend_writes s intermediate depth events) key r)
crew_total s intermediate depth n events m key r walk on fair crew over room =
    let log = extend_writes s intermediate depth events in
    let g : Gen Desks = record { sink = fresh_desks n; monitor = m } in
    let b = blank new_cache in
    let size = length-replicate n b in
    let (h, size') =
      extend_loop-Holds s intermediate depth n events [] g size crew (fresh_desks-Holds n) in
    let d = (run s intermediate depth events g).sink in
    let empty : (w : ℕ) → w < length d.stagings → flat (get_or d.stagings w b).baskets ≡ [] =
      λ w lt.
        extend_loop-empty s intermediate depth n events w true b g size (omega (arith, lt, size'))
          (over w)
          (λ _.
            ap (λ (st : Staging). flat st.baskets) (get_or-replicate n w b)
            ∙ (new_staging-IsWriter new_cache staging_flush_limit).1) in
    let same : SameSums (nonzero log) h.out =
      λ f. omega (arith, sum_over-nonzero f log, h.balance f, pending-empty f d.stagings b empty) in
    let (walked, found) =
      worklist-SameSums walk (nonzero log) h.out key r on fair same
        (nonzero-IsAffordable new_cache log room) in
    (
      ap (λ (c : Cache). total (materialize_worklist walk c) key r) h.made
          ∙ walked
          ∙ total-nonzero log key r,
      ap (λ (c : Cache). or_zero (read c key r)) h.made ∙ found ∙ total-nonzero log key r,
    )

-- When every worker that takes a task leaves its loop at the end, and the table has room for what
-- the tasks write, the task cache of the second generation phase holds for each mask and class the
-- sum of the weights that the tasks wrote: so a whole walk, in any order, and a reader find it,
-- whatever the workers had in their baskets when, and in whatever order they flushed.
pub extend_tasks-total :
    (s : Searcher) (events : List Event) (now workers : ℕ) (intermediate : List Entry) (depth : ℕ)
    (monitor : Monitor) (key r : ℕ) (walk : Walker)
    → ((n : ℕ) → walk.polls n ≡ false)
    → IsFair walk
    → Crewed (min workers (length intermediate)) events
    → ((w : ℕ) → settled w true events ≡ true)
    → IsAffordable new_cache (extend_writes s intermediate depth events)
    → (total
          (materialize_worklist walk
            (extend_tasks s events now workers intermediate depth monitor).sink)
          key
          r
        ≡ total (extend_writes s intermediate depth events) key r)
      × (or_zero (read (extend_tasks s events now workers intermediate depth monitor).sink key r)
          ≡ total (extend_writes s intermediate depth events) key r)
unfolding extend_tasks extend_into
extend_tasks-total s events now workers intermediate depth monitor key r crew over room =
    crew_total s intermediate depth (min workers (length intermediate)) events _ key r crew over
      room

-- The writes of the tasks of the first phase, in the order of the events.
unfoldable pub generate_writes : Searcher → List CanonicalGroup → ℕ → List Event → List Entry
generate_writes s groups base [] = []
generate_writes s groups base (exit w ∷ events) = generate_writes s groups base events
generate_writes s groups base (task w i ctx ∷ events) =
    let group = get_or groups i no_group in
    (generate_tasks record_write s ctx [] group.canonical group.orbit_size base).1
    ++ generate_writes s groups base events

put_all-set_weight : (c : Cache) (es : List Entry) → put_all set_weight c es ≡ set_all c es
unfolding put_all set_all
put_all-set_weight c [] = refl
put_all-set_weight c (e ∷ es) = put_all-set_weight (set_weight c e.mask e.rep e.weight) es

generate_loop-set_all :
    (s : Searcher) (groups : List CanonicalGroup) (base : ℕ) (events : List Event) (g : Gen Cache)
    → (generate_loop s groups base events g).sink
      ≡ set_all g.sink (generate_writes s groups base events)
unfolding generate_loop report_task generate_writes
generate_loop-set_all s groups base [] g = unfold set_all in refl
generate_loop-set_all s groups base (exit w ∷ events) g =
    generate_loop-set_all s groups base events g
generate_loop-set_all s groups base (task w i ctx ∷ events) g =
    let group = get_or groups i no_group in
    let writes = (generate_tasks record_write s ctx [] group.canonical group.orbit_size base).1 in
    let later = generate_writes s groups base events in
    let written =
      (generate_tasks_writes set_weight s ctx g.sink group.canonical group.orbit_size base).1
      ∙ put_all-set_weight g.sink writes in
    generate_loop-set_all s groups base events _
    ∙ ap (λ (c : Cache). set_all c later) written
    ∙ sym (set_all-append g.sink writes later)

-- When the table has room for what the tasks write and the context does not end the walk, which
-- takes the maps in any order, the worklist of the second phase has for each mask and class the sum
-- of the weights that the tasks of the first phase wrote, with the start groups claimed in any
-- order.
pub generate_intermediate-total :
    (s : Searcher) (sched : GenSchedule) (now precompute_depth : ℕ) (monitor : Monitor) (key r : ℕ)
    → ((n : ℕ) → sched.walk.polls n ≡ false)
    → IsFair sched.walk
    → IsAffordable new_cache
        (generate_writes s (get_canonical_groups s.sym) (base_depth precompute_depth) sched.events)
    → total (generate_intermediate s sched now precompute_depth monitor).sink key r
      ≡ total
          (generate_writes s
            (get_canonical_groups s.sym)
            (base_depth precompute_depth)
            sched.events)
          key
          r
unfolding generate_intermediate
generate_intermediate-total s sched now precompute_depth monitor key r on fair room =
    let log =
      generate_writes s (get_canonical_groups s.sym) (base_depth precompute_depth) sched.events in
    rw
      (generate_loop-set_all s (get_canonical_groups s.sym) (base_depth precompute_depth)
        sched.events (record { sink = new_cache; monitor = _ }))
      (worklist-SameSums sched.walk log log key r on fair (λ f. refl) room).0
