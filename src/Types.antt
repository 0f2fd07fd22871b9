-- ===== src/Types.antt =====
-- types/types.go: the statistics that a descent collects for its caller.
pub mod Counts
use knighttour.Prelude.{ℕ, ◌+◌}
use knighttour.Pruner.{
  Reason, no_reason, dead_end, no_continuation, disconnected, endpoints, forced_chain,
}

-- The `int` counters never decrease. A run that counts to 2 ^ 63 is out of reach, so they do not
-- wrap here.
pub record Result : Type 0 where
  pub total_paths_found : ℕ
  pub cache_writes : ℕ
  pub cache_hits : ℕ
  pub cache_misses : ℕ
  pub pruned : ℕ
  pub pruned_dead_end : ℕ
  pub pruned_no_cont : ℕ
  pub pruned_disconn : ℕ
  pub pruned_endpoints : ℕ
  pub pruned_forced_chain : ℕ

-- The zero value.
abbrev pub zero_result : Result
zero_result = record {
  total_paths_found = 0;
  cache_writes = 0;
  cache_hits = 0;
  cache_misses = 0;
  pruned = 0;
  pruned_dead_end = 0;
  pruned_no_cont = 0;
  pruned_disconn = 0;
  pruned_endpoints = 0;
  pruned_forced_chain = 0;
}

unfoldable pub count_prune : Result → Reason → Result
count_prune r no_reason = r
count_prune r dead_end = record r { pruned_dead_end = r.pruned_dead_end + 1 }
count_prune r no_continuation = record r { pruned_no_cont = r.pruned_no_cont + 1 }
count_prune r disconnected = record r { pruned_disconn = r.pruned_disconn + 1 }
count_prune r endpoints = record r { pruned_endpoints = r.pruned_endpoints + 1 }
count_prune r forced_chain = record r { pruned_forced_chain = r.pruned_forced_chain + 1 }

unfoldable pub finalize : Result → Result
finalize r = record r {
  pruned =
      r.pruned_dead_end + r.pruned_no_cont + r.pruned_disconn + r.pruned_endpoints
      + r.pruned_forced_chain;
}
