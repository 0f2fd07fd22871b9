-- ===== src/Cache/Fresh.antt =====
-- cache/cache.go, `NewCache`: what a new table holds, and what it has room for.
use knighttour.Prelude.{ℕ, ◌*◌, ◌^◌, ◌<◌, none, List, [], length}
use knighttour.Prelude.{◌≡◌, refl, ap, ◌∙◌, arith}
use knighttour.State.{State}
use knighttour.Cache.{Entry, empty_shard, num_shards, find, new_cache, shard_index}
use knighttour.Cache.Slots.{or_zero}
use knighttour.Cache.Shard.{contents-none, lookup-none}
use knighttour.Cache.Table.{held, read, read-lookup, shard_of, get_or-replicate}
use knighttour.Cache.Histogram.{total, Cells, IsAffordable}

pub new_cache-held : (key : State) → held new_cache key ≡ []
unfolding new_cache
new_cache-held key =
    rw (get_or-replicate num_shards (shard_index key) empty_shard)
      (contents-none empty_shard key (unfold find in refl))

pub new_cache-read : (key r : ℕ) → read new_cache key r ≡ none
unfolding new_cache
new_cache-read key r =
    read-lookup new_cache key r
    ∙ rw (get_or-replicate num_shards (shard_index key) empty_shard)
        (lookup-none empty_shard key r (unfold find in refl))

new_cache-shard_of : (key : State) → shard_of new_cache key ≡ empty_shard
unfolding new_cache
new_cache-shard_of key = get_or-replicate num_shards (shard_index key) empty_shard

pub new_cache-IsAffordable :
    (es : List Entry)
    → Cells es
    → ((key rep : ℕ) → total es key rep < 2 ^ 56)
    → 64 * length es < 2 ^ 56
    → IsAffordable new_cache es
new_cache-IsAffordable es cells small room = record {
  cells = cells;
  small = λ key rep. omega (arith, small key rep, ap or_zero (new_cache-read key rep));
  room = λ key. rw (new_cache-shard_of key) (omega (arith, room));
}
