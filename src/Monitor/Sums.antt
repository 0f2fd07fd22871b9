-- ===== src/Monitor/Sums.antt =====
-- monitoring/monitor.go, `ReportSubtask` and `Totals`: the sums over the phases.
use knighttour.Prelude.{◌≡◌, refl, arith, List, [], ◌∷◌, ◌++◌, some}
use knighttour.Cache.{add64}
use knighttour.Types.{Result, finalize}
use knighttour.Monitor.{
  PhaseStats, Snapshot, zero_snapshot, Monitor, pruned_total, add, sum_all, totals, report_subtask,
  fold_result,
}

pub sum_all-snoc :
    (phs : List PhaseStats) (a : Snapshot) (ph : PhaseStats)
    → sum_all a (phs ++ ph ∷ []) ≡ add (sum_all a phs) ph
unfolding sum_all
sum_all-snoc [] a ph = refl
sum_all-snoc (x ∷ phs) a ph = sum_all-snoc phs (add a x) ph

module _ (ph : PhaseStats) (r : Result) where
  pruned_total-fold : pruned_total (fold_result r ph) ≡ add64 (pruned_total ph) (finalize r).pruned
  unfolding pruned_total fold_result finalize
  pruned_total-fold = omega arith

  module _ (a : Snapshot) where
    add-pruned : (add a (fold_result r ph)).pruned ≡ add64 (add a ph).pruned (finalize r).pruned
    unfolding add
    add-pruned = omega (arith, pruned_total-fold)

    add-paths : (add a (fold_result r ph)).paths_found ≡ (add a ph).paths_found
    unfolding add fold_result
    add-paths = refl

    add-writes :
        (add a (fold_result r ph)).cache_writes ≡ add64 (add a ph).cache_writes r.cache_writes
    unfolding add fold_result
    add-writes = omega arith

    add-probes :
        ((add a (fold_result r ph)).cache_hits ≡ add64 (add a ph).cache_hits r.cache_hits)
        × ((add a (fold_result r ph)).cache_misses ≡ add64 (add a ph).cache_misses r.cache_misses)
    unfolding add fold_result
    add-probes = (omega arith, omega arith)

-- While a phase is active, a report of a subtask's result adds its cuts, its cache writes and its
-- probes to the totals over all phases, modulo 2 ^ 64; the cuts it adds are the `Pruned` that `Finalize`
-- computes, and the paths found stay as they are.
pub totals-report_subtask :
    (m : Monitor) (ph : PhaseStats) (r : Result)
    → m.active ≡ some ph
    → ((totals (report_subtask r m)).pruned ≡ add64 (totals m).pruned (finalize r).pruned)
      × ((totals (report_subtask r m)).cache_writes ≡ add64 (totals m).cache_writes r.cache_writes)
      × ((totals (report_subtask r m)).cache_hits ≡ add64 (totals m).cache_hits r.cache_hits)
      × ((totals (report_subtask r m)).cache_misses ≡ add64 (totals m).cache_misses r.cache_misses)
      × ((totals (report_subtask r m)).paths_found ≡ (totals m).paths_found)
unfolding totals report_subtask
totals-report_subtask m ph r e =
    let a = sum_all zero_snapshot m.closed in
    let probes = add-probes ph r a in
    rw
      (
        e,
        sum_all-snoc m.closed zero_snapshot (fold_result r ph),
        sum_all-snoc m.closed zero_snapshot ph,
      )
      (add-pruned ph r a, add-writes ph r a, probes.0, probes.1, add-paths ph r a)
