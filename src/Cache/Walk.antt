-- ===== src/Cache/Walk.antt =====
-- cache/cache.go: the walk `View.All`, for a consumer that takes every record it is offered. The
-- context is asked before each shard, and the order within a shard is that of a Go map.
use knighttour.Prelude.{ℕ, zero, suc, if◌then◌else◌, Bool, false, List, [], ◌∷◌, ◌++◌, get_or}
use mathlib.Core.List.{Perm}
use knighttour.State.{State}
use knighttour.Cache.{
  Entry, Data, CacheShard, Cache, View, Value, seal, is_inline, unpack, slab_parts,
}

abbrev pub entry : State → ℕ × ℕ → Entry
entry key (r, w) = record { mask = key; rep = r; weight = w }

-- The live positions of a block, from `i` on.
unfoldable pub yield_slots : State → ℕ → ℕ → List ℕ → List Entry
yield_slots key i zero slab = []
yield_slots key i (suc left) slab =
    entry key (unpack (get_or slab i 0)) ∷ yield_slots key (suc i) left slab

unfoldable pub yield_record : State → Value → List Entry
unfolding yield_slots
yield_record key val =
    if is_inline val.word
    then entry key (unpack val.word) ∷ []
    else let (n, idx) = slab_parts val.word in yield_slots key idx n val.slab

unfoldable pub walk_data : Data → List ℕ → List Entry
unfolding yield_record
walk_data [] slab = []
walk_data ((key, word) ∷ d) slab =
    yield_record key (record { slab = slab; word = word }) ++ walk_data d slab

-- What a walk does not decide itself: which polls, one before each shard, find the context ended,
-- and the order in which the range takes the map of each shard.
pub record Walker : Type 0 where
  pub polls : ℕ → Bool
  pub order : ℕ → Data → Data

-- A range over a map takes each record once.
abbrev pub IsFair : Walker → Type 0
IsFair w = (i : ℕ) (d : Data) → Perm d (w.order i d)

unfoldable pub walk_shards : Walker → ℕ → List CacheShard → List Entry
unfolding walk_data
walk_shards w i [] = []
walk_shards w i (sh ∷ shs) =
    let rest = walk_shards w (suc i) shs in
    if w.polls i then [] else walk_data (w.order i sh.data_map) sh.slab ++ rest

unfoldable pub view_all : Walker → View → List Entry
unfolding walk_shards
view_all w v = walk_shards w 0 v.shards

-- `materializeWorklist` of counter/counter.go: the worklist of the second generation phase.
unfoldable pub materialize_worklist : Walker → Cache → List Entry
unfolding view_all
materialize_worklist w c = view_all w (seal c)

-- The whole walk in the order in which the model stores the maps.
abbrev pub stored_walk : Walker
stored_walk = record { polls = λ _. false; order = λ i d. d }
