-- ===== src/Tests/Tables.antt =====
-- The properties of the cache and of the statistics at concrete inputs.
use knighttour.Cache.Histogram.{set_all, total, IsAffordable, read-set_all}
use mathlib.Core.List.{Perm, reverse, reverse_perm}
use mathlib.Core.List.Perm
use knighttour.Cache.Sums.{sum_over}
use knighttour.Cache.Classes.{pair_total}
use knighttour.Cache.Fresh.{new_cache-IsAffordable}
use knighttour.Cache.Worklist.{materialize_worklist-set_all, materialize_worklist-read, enters}
use knighttour.Cache.Staging.{Staging, HasBaskets}
use knighttour.Cache.Histogram.{stage_all, flush-stage_all}
use knighttour.Prelude.{false, ltb}
use knighttour.Prelude.{List}
use knighttour.Cache.Walk.{Walker, materialize_worklist}
use knighttour.Prelude.{ℕ, ◌+◌, ◌≡◌, ◌≢◌, refl, arith, true, false, none, some, [], ◌∷◌}
use knighttour.Prelude.{ltb, if◌then◌else◌}
use knighttour.Pruner.{no_reason, dead_end, forced_chain}
use knighttour.Cache.{
  Entry, new_cache, set_weight, is_inline, pack, unpack, make_ref, slab_parts, empty_shard,
  shard_index, find,
}
use knighttour.Cache.Pack.{stored_word_forms}
use knighttour.Cache.Inline.{Contract}
use knighttour.Cache.Shard.{lookup-none}
use knighttour.Cache.Slots.{or_zero}
use package.knighttour.Cache.Table
use knighttour.Cache.Table.{read, held, shard_of, read-set_weight, new_cache-IsValid}
use knighttour.Cache.Staging.{new_staging, flush}
use knighttour.Types.{zero_result, finalize}
use knighttour.Types.Counts.{count_all, cuts, finalize-count_all}

first_shard : shard_of new_cache 5 ≡ empty_shard
unfolding new_cache shard_index
first_shard = refl

no_record : find 5 (shard_of new_cache 5).data_map ≡ none
unfolding find new_cache shard_index
no_record = refl

first_Contract : Contract 5 3 8 (shard_of new_cache 5)
first_Contract = record {
  tag = omega arith;
  positive = omega arith;
  small = rw (lookup-none (shard_of new_cache 5) 5 3 no_record) (omega arith);
  addressable = rw first_shard (omega arith);
}

read-set_weight_example :
    Table.IsValid (set_weight new_cache 5 3 8)
    × (read (set_weight new_cache 5 3 8) 5 3 ≡ some (or_zero (read new_cache 5 3) + 8))
    × ((r : ℕ) → r ≢ 3 → read (set_weight new_cache 5 3 8) 5 r ≡ read new_cache 5 r)
    × ((k r : ℕ) → k ≢ 5 → read (set_weight new_cache 5 3 8) k r ≡ read new_cache k r)
read-set_weight_example = read-set_weight new_cache 5 3 8 new_cache-IsValid first_Contract

finalize-count_all_example :
    (finalize (count_all zero_result (dead_end ∷ no_reason ∷ forced_chain ∷ []))).pruned
    ≡ (finalize zero_result).pruned + cuts (dead_end ∷ no_reason ∷ forced_chain ∷ [])
finalize-count_all_example =
    finalize-count_all zero_result (dead_end ∷ no_reason ∷ forced_chain ∷ [])

stored_word_forms_example :
    (is_inline (pack 9 1000) ≡ true)
    × (unpack (pack 9 1000) ≡ (9, 1000))
    × (is_inline (make_ref 2 40) ≡ false)
    × (make_ref 2 40 ≢ 0)
    × (slab_parts (make_ref 2 40) ≡ (2, 40))
stored_word_forms_example =
    stored_word_forms 9 1000 2 40 (omega arith) (omega arith) (omega arith) (omega arith)

-- The context ends before the shard of the one mask that is stored.
-- A walk whose context ends before the twelfth shard, and one that takes the maps backwards.
abbrev early : Walker
early = record { polls = λ n. ltb 10 n; order = λ _ d. reverse d }

abbrev backwards : Walker
backwards = record { polls = λ _. false; order = λ _ d. reverse d }

-- Two classes of one mask: the second contribution moves the record into a block.
abbrev two_classes : List Entry
two_classes =
    record { mask = 5; rep = 3; weight = 8 } ∷ record { mask = 5; rep = 4; weight = 2 } ∷ []

two_Affordable : IsAffordable new_cache two_classes
two_Affordable =
    new_cache-IsAffordable two_classes (unfold sum_over in refl)
      (λ key rep. unfold sum_over in ground arith) (omega arith)

read-set_all_example :
    Table.IsValid (set_all new_cache two_classes)
    × (or_zero (read (set_all new_cache two_classes) 5 4)
        ≡ total two_classes 5 4 + or_zero (read new_cache 5 4))
    × (pair_total 4 (held (set_all new_cache two_classes) 5)
        ≡ total two_classes 5 4 + pair_total 4 (held new_cache 5))
read-set_all_example = read-set_all new_cache two_classes 5 4 new_cache-IsValid two_Affordable

two_IsValid : Table.IsValid (set_all new_cache two_classes)
two_IsValid = (read-set_all new_cache two_classes 5 4 new_cache-IsValid two_Affordable).0

materialize_worklist-read_example :
    total (materialize_worklist early (set_all new_cache two_classes)) 5 4 ≡ (
      if enters early.polls 0 (shard_index 5)
      then or_zero (read (set_all new_cache two_classes) 5 4)
      else 0)
materialize_worklist-read_example =
    materialize_worklist-read early (set_all new_cache two_classes) 5 4
      (λ _ d. Perm.symm (reverse_perm d)) two_IsValid

-- The same contributions in the other order.
abbrev swapped : List Entry
swapped = record { mask = 5; rep = 4; weight = 2 } ∷ record { mask = 5; rep = 3; weight = 8 } ∷ []

two_swapped : Perm two_classes swapped
two_swapped = Perm.swap _ _ []

materialize_worklist-set_all_example :
    (total (materialize_worklist backwards (set_all new_cache swapped)) 5 4 ≡ total two_classes 5 4)
    × (or_zero (read (set_all new_cache swapped) 5 4) ≡ total two_classes 5 4)
materialize_worklist-set_all_example =
    materialize_worklist-set_all backwards two_classes swapped 5 4 (λ _. refl)
      (λ _ d. Perm.symm (reverse_perm d)) two_swapped two_Affordable

-- A writer that flushes by itself after every second contribution.
abbrev writer : Staging
writer = new_staging new_cache 2

writer-HasBaskets : HasBaskets writer
unfolding HasBaskets new_staging new_cache
writer-HasBaskets = refl

flush-stage_all_example :
    (flush (stage_all writer two_classes)).cache ≡ set_all (flush writer).cache two_classes
flush-stage_all_example = flush-stage_all writer two_classes writer-HasBaskets
