-- ===== src/Types/Counts.antt =====
-- types/types.go, `CountPrune` and `Finalize` over a sequence of cuts.
use knighttour.Prelude.{ℕ, ◌+◌, ◌≡◌, arith, List, [], ◌∷◌, Bool, true, false, if◌then◌else◌}
use knighttour.Pruner.{
  Reason, no_reason, dead_end, no_continuation, disconnected, endpoints, forced_chain,
}
use knighttour.Types.{Result, count_prune, finalize}

-- The reasons that stand for a cut.
pub is_cut : Reason → Bool
is_cut no_reason = false
is_cut _ = true

pub count_all : Result → List Reason → Result
unfolding count_prune
count_all r [] = r
count_all r (x ∷ xs) = count_all (count_prune r x) xs

pub cuts : List Reason → ℕ
cuts [] = 0
cuts (x ∷ xs) = (if is_cut x then 1 else 0) + cuts xs

count_prune-total :
    (r : Result) (x : Reason)
    → (finalize (count_prune r x)).pruned ≡ (if is_cut x then 1 else 0) + (finalize r).pruned
unfolding count_prune finalize is_cut
count_prune-total r no_reason = omega arith
count_prune-total r dead_end = omega arith
count_prune-total r no_continuation = omega arith
count_prune-total r disconnected = omega arith
count_prune-total r endpoints = omega arith
count_prune-total r forced_chain = omega arith

-- After any sequence of cuts, `Finalize` sets `Pruned` to its former sum and one for each cut:
-- every cut is counted under exactly one reason, and `NoReason` under none.
pub finalize-count_all :
    (r : Result) (xs : List Reason)
    → (finalize (count_all r xs)).pruned ≡ (finalize r).pruned + cuts xs
unfolding count_all cuts
finalize-count_all r [] = omega arith
finalize-count_all r (x ∷ xs) =
    omega (arith, finalize-count_all (count_prune r x) xs, count_prune-total r x)
