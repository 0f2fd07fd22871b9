-- ===== src/Counter.antt =====
-- counter/counter.go: the numbers that the pipeline chooses.
pub mod Sizes
pub mod Dispatch
pub mod Delivery
pub mod Counting
pub mod Phases
pub mod Totals
pub mod Census
pub mod Desks
pub mod Generation
use knighttour.Prelude.{
  ℕ, zero, suc, ◌+◌, ◌-◌, ◌*◌, ◌/◌, ◌==◌, ltb, if◌then◌else◌, min, max, Bool, true, false, List, [],
  ◌∷◌, ◌++◌, length,
}
use knighttour.Cache.{Entry}

abbrev pub two_phase_base_depth : ℕ
two_phase_base_depth = 5

abbrev pub dispatch_capacity_per_consumer : ℕ
dispatch_capacity_per_consumer = 10000

abbrev pub dispatch_claim_batch : ℕ
dispatch_claim_batch = 16

abbrev pub staging_flush_limit : ℕ
staging_flush_limit = 8192

abbrev pub dispatch_granularity_c : ℕ
dispatch_granularity_c = 4

-- The map `defaultPrecomputeDepths`, with the fallback.
unfoldable pub default_precompute_depth : ℕ → ℕ
default_precompute_depth size =
    if size == 5
    then 6
    else if size == 6
    then 14
    else if size == 7
    then 22
    else if size == 8
    then 14
    else two_phase_base_depth + 1

-- `min(precomputeDepth, TwoPhaseBaseDepth)` of `generateIntermediate`.
unfoldable pub base_depth : ℕ → ℕ
base_depth precompute_depth = min precompute_depth two_phase_base_depth

unfoldable pub effective_batch : ℕ → ℕ → ℕ → ℕ → ℕ
effective_batch records consumers claim_b granularity_c =
    let ceiling = max claim_b 1 in
    let claims_per_consumer = records / max (consumers * max granularity_c 1) 1 in
    min ceiling (max 1 claims_per_consumer)

-- The sizes of `countTasks`: the consumers, the batch, the capacity in records, and the slots of the
-- channel's buffer.
pub record Sizing : Type 0 where
  pub consumers : ℕ
  pub batch : ℕ
  pub capacity : ℕ
  pub slots : ℕ

unfoldable pub count_sizing : ℕ → ℕ → ℕ → Sizing
count_sizing workers records capacity_per_consumer =
    let consumers = max (min workers records) 1 in
    let batch = effective_batch records consumers dispatch_claim_batch dispatch_granularity_c in
    let capacity = max (min (consumers * capacity_per_consumer) records) 1 in
    record {
      consumers = consumers;
      batch = batch;
      capacity = capacity;
      slots = (capacity + batch - 1) / batch;
    }
