-- ===== src/Cache/Worklist.antt =====
-- cache/cache.go, `View.All`, and counter/counter.go, `materializeWorklist`: the sums of a walk.
use knighttour.Prelude.{
  ℕ, zero, suc, ◌+◌, ◌≤◌, ◌==◌, if◌then◌else◌, true, false, Bool, not, ◌&&◌, List, [], ◌∷◌, get_or,
  Option-cases,
}
use knighttour.Prelude.{◌≡◌, refl, sym, ap, ◌∙◌, inl, inr, arith, Bool-cases}
use mathlib.Core.List.{Perm, foldr}
use mathlib.Core.List.Perm
use native.Mathlib.Nat.{ℕ_set}
use knighttour.State.{State}
use knighttour.Cache.{
  Entry, Data, CacheShard, Cache, View, empty_shard, find, is_inline, slab_parts, seal, new_cache,
  shard_index,
}
use knighttour.Cache.Keys.{key_count}
use knighttour.Cache.Contents.{slot_pairs, word_pairs}
use knighttour.Cache.Classes.{pair_total}
use knighttour.Cache.Readers.{pair_total-read}
use knighttour.Cache.Shard.{contents, contents-none, contents-some}
use package.knighttour.Cache.Table
use knighttour.Cache.Table.{held, read, read-lookup, get_or-replicate, new_cache-IsValid}
use knighttour.Cache.Walk.{
  yield_slots, yield_record, walk_data, walk_shards, view_all, materialize_worklist, Walker, IsFair,
  stored_walk,
}
use knighttour.Cache.Slots.{or_zero}
use knighttour.Cache.Histogram.{total, set_all, IsAffordable, read-set_all}
use knighttour.Cache.Sums.{
  sum_over, sum_over-append, sum_over-Perm, sum_over-ones, share, stray, SameSums,
}
use knighttour.Cache.Fresh.{new_cache-held, new_cache-read}

total-yield_slots :
    (k i n : ℕ) (slab : List ℕ) (key r : ℕ)
    → total (yield_slots k i n slab) key r
      ≡ (if k == key then pair_total r (slot_pairs i n slab) else 0)
unfolding sum_over yield_slots pair_total slot_pairs
total-yield_slots k i zero slab key r = ground arith
total-yield_slots k i (suc n) slab key r = elim (Bool-cases (k == key)) [
  | inl here ↦ rw here (ground (arith, total-yield_slots k (suc i) n slab key r))
  | inr apart ↦ rw apart (ground (arith, total-yield_slots k (suc i) n slab key r))
]

total-yield_record :
    (k w : ℕ) (slab : List ℕ) (key r : ℕ)
    → total (yield_record k (record { slab = slab; word = w })) key r
      ≡ (if k == key then pair_total r (word_pairs slab w) else 0)
unfolding yield_record word_pairs
total-yield_record k w slab key r = elim (Bool-cases (is_inline w)) [
  | inl one ↦ rw one (unfold sum_over pair_total in ground arith)
  | inr many ↦ rw many (total-yield_slots k (slab_parts w).1 (slab_parts w).0 slab key r)
]

abbrev shard_with : Data → List ℕ → CacheShard
shard_with d slab = record { data_map = d; slab = slab; free = [] }

-- The pairs of a mask in a map.
abbrev pairs_in : Data → List ℕ → State → List (ℕ × ℕ)
pairs_in d slab key = contents (shard_with d slab) key

total-walk_data-absent :
    (d : Data) (slab : List ℕ) (key r : ℕ)
    → key_count key d ≡ 0
    → total (walk_data d slab) key r ≡ 0
unfolding walk_data key_count
total-walk_data-absent [] slab key r e = unfold sum_over in refl
total-walk_data-absent ((k, w) ∷ d) slab key r e =
    let apart : (k == key) ≡ false = ground arith in
    let rest = total-walk_data-absent d slab key r (ground (arith, e)) in
    sum_over-append (share key r) (yield_record k _) (walk_data d slab)
    ∙ rw (total-yield_record k w slab key r, apart, rest) (omega arith)

pairs_in-here :
    (k w : ℕ) (d : Data) (slab : List ℕ) (key : ℕ)
    → (k == key) ≡ true
    → pairs_in ((k, w) ∷ d) slab key ≡ word_pairs slab w
pairs_in-here k w d slab key here = contents-some _ key w (unfold find in rw here refl)

pairs_in-later :
    (k w : ℕ) (d : Data) (slab : List ℕ) (key : ℕ)
    → (k == key) ≡ false
    → pairs_in ((k, w) ∷ d) slab key ≡ pairs_in d slab key
pairs_in-later k w d slab key later =
    let skip : find key ((k, w) ∷ d) ≡ find key d = unfold find in rw later refl in
    let sh = shard_with d slab in
    let longer = shard_with ((k, w) ∷ d) slab in
    elim (Option-cases (find key d)) [
      | inl e ↦ contents-none longer key (skip ∙ e) ∙ sym (contents-none sh key e)
      | inr (u, e) ↦ contents-some longer key u (skip ∙ e) ∙ sym (contents-some sh key u e)
    ]

total-walk_data :
    (d : Data) (slab : List ℕ) (key r : ℕ)
    → key_count key d ≤ 1
    → total (walk_data d slab) key r ≡ pair_total r (pairs_in d slab key)
unfolding walk_data key_count
total-walk_data [] slab key r once =
    rw (contents-none (shard_with [] slab) key (unfold find in refl))
      (unfold sum_over pair_total in refl)
total-walk_data ((k, w) ∷ d) slab key r once =
    sum_over-append (share key r) (yield_record k _) (walk_data d slab)
    ∙ elim (Bool-cases (k == key)) [
      | inl here ↦
          let rest = total-walk_data-absent d slab key r (ground (arith, once, here)) in
          rw (total-yield_record k w slab key r, here, rest, pairs_in-here k w d slab key here)
            (omega arith)
      | inr apart ↦
          let rest = total-walk_data d slab key r (ground (arith, once, apart)) in
          rw (total-yield_record k w slab key r, apart, pairs_in-later k w d slab key apart)
            (omega (arith, rest))
    ]

-- Whether the polls of a walk, from number `i` on, let it into the shard that is `own` further on.
abbrev pub enters : (ℕ → Bool) → ℕ → ℕ → Bool
enters ctx i zero = not (ctx i)
enters ctx i (suc own) = not (ctx i) && enters ctx (suc i) own

enters-never : (ctx : ℕ → Bool) (i own : ℕ) → ((n : ℕ) → ctx n ≡ false) → enters ctx i own ≡ true
enters-never ctx i zero on = rw (on i) refl
enters-never ctx i (suc own) on = rw (on i) (enters-never ctx (suc i) own on)

-- The order in which a map is walked does not show in a sum.
abbrev record_sum : (Entry → ℕ) → List ℕ → State × ℕ → ℕ
record_sum f slab (k, w) = sum_over f (yield_record k (record { slab = slab; word = w }))

walk_data-foldr :
    (f : Entry → ℕ) (d : Data) (slab : List ℕ)
    → sum_over f (walk_data d slab) ≡ foldr (λ p acc. record_sum f slab p + acc) 0 d
unfolding walk_data
walk_data-foldr f [] slab = unfold sum_over in refl
walk_data-foldr f ((k, w) ∷ d) slab =
    sum_over-append f (yield_record k _) (walk_data d slab)
    ∙ ap (λ t. record_sum f slab (k, w) + t) (walk_data-foldr f d slab)

sum_over-walk_data :
    (f : Entry → ℕ) (d d' : Data) (slab : List ℕ)
    → Perm d d'
    → sum_over f (walk_data d slab) ≡ sum_over f (walk_data d' slab)
sum_over-walk_data f d d' slab p =
    walk_data-foldr f d slab
    ∙ Perm.foldr-eq ℕ_set (λ q acc. record_sum f slab q + acc) (λ a b c. omega arith) p 0
    ∙ sym (walk_data-foldr f d' slab)

-- A whole walk has the sums of the walk in stored order.
pub sum_over-view_all :
    (f : Entry → ℕ) (w : Walker) (v : View)
    → ((n : ℕ) → w.polls n ≡ false)
    → IsFair w
    → sum_over f (view_all w v) ≡ sum_over f (view_all stored_walk v)
unfolding view_all walk_shards
sum_over-view_all f w v on fair = shards_sum 0 v.shards
  where
    shards_sum :
        (i : ℕ) (shs : List CacheShard)
        → sum_over f (walk_shards w i shs) ≡ sum_over f (walk_shards stored_walk i shs)
    shards_sum i [] = refl
    shards_sum i (sh ∷ shs) = rw (on i) (
        sum_over-append f (walk_data (w.order i sh.data_map) sh.slab) _
        ∙ omega (
          arith,
          sum_over-walk_data f _ _ sh.slab (fair i sh.data_map),
          shards_sum (suc i) shs,
          sum_over-append f (walk_data sh.data_map sh.slab) (walk_shards stored_walk (suc i) shs),
        ))

module _ (w : Walker) (fair : IsFair w) (key r : ℕ) where
  -- The records of a shard, in the order of the walk.
  in_any_order :
      (i : ℕ) (sh : CacheShard)
      → total (walk_data (w.order i sh.data_map) sh.slab) key r
        ≡ total (walk_data sh.data_map sh.slab) key r
  in_any_order i sh = sym (sum_over-walk_data (share key r) _ _ sh.slab (fair i sh.data_map))

  -- Shards that do not have the mask.
  total-walk_shards-absent :
      (i : ℕ) (shs : List CacheShard)
      → ((j : ℕ) → key_count key (get_or shs j empty_shard).data_map ≡ 0)
      → total (walk_shards w i shs) key r ≡ 0
  unfolding walk_shards
  total-walk_shards-absent i [] none_there = unfold sum_over in refl
  total-walk_shards-absent i (sh ∷ shs) none_there =
      let rest = total-walk_shards-absent (suc i) shs (λ j. none_there (suc j)) in
      elim (Bool-cases (w.polls i)) [
        | inl over ↦ rw over (unfold sum_over in refl)
        | inr more ↦ rw more (
            sum_over-append (share key r) (walk_data (w.order i sh.data_map) sh.slab) _
            ∙ rw
                (
                  in_any_order i sh,
                  total-walk_data-absent sh.data_map sh.slab key r (none_there 0),
                  rest,
                )
                (omega arith))
      ]

  -- Shards from number `i` on, of which only the mask's own has it, once.
  total-walk_shards :
      (i own : ℕ) (shs : List CacheShard)
      → ((j : ℕ) → key_count key (get_or shs j empty_shard).data_map ≤ (if own == j then 1 else 0))
      → total (walk_shards w i shs) key r ≡ (
          if enters w.polls i own
          then pair_total r (contents (get_or shs own empty_shard) key)
          else 0)
  unfolding walk_shards
  total-walk_shards i own [] placed =
      rw (contents-none empty_shard key (unfold find in refl))
        (unfold sum_over pair_total in ground arith)
  total-walk_shards i zero (sh ∷ shs) placed =
      let rest = total-walk_shards-absent (suc i) shs (λ j. ground (arith, placed (suc j))) in
      elim (Bool-cases (w.polls i)) [
        | inl over ↦ rw over (unfold sum_over in refl)
        | inr more ↦ rw more (
            sum_over-append (share key r) (walk_data (w.order i sh.data_map) sh.slab) _
            ∙ rw
                (
                  in_any_order i sh,
                  total-walk_data sh.data_map sh.slab key r (ground (arith, placed 0)),
                  rest,
                )
                (unfold contents in omega arith))
      ]
  total-walk_shards i (suc own) (sh ∷ shs) placed =
      let rest = total-walk_shards (suc i) own shs (λ j. ground (arith, placed (suc j))) in
      elim (Bool-cases (w.polls i)) [
        | inl over ↦ rw over (unfold sum_over in refl)
        | inr more ↦ rw more (
            sum_over-append (share key r) (walk_data (w.order i sh.data_map) sh.slab) _
            ∙ rw
                (
                  in_any_order i sh,
                  total-walk_data-absent sh.data_map sh.slab key r (ground (arith, placed 0)),
                )
                (omega (arith, rest)))
      ]

-- The walk over a valid table yields for each mask and class the pairs that the table holds for
-- them, or nothing if the context ends before the mask's shard.
total_entered :
    (w : Walker) (c : Cache) (key r : ℕ)
    → IsFair w
    → Table.IsValid c
    → total (materialize_worklist w c) key r
      ≡ (if enters w.polls 0 (shard_index key) then pair_total r (held c key) else 0)
unfolding materialize_worklist view_all seal
total_entered w c key r fair v =
    total-walk_shards w fair key r 0 (shard_index key) c.shards (λ j. v.placed j key)

pub total-materialize_worklist :
    (w : Walker) (c : Cache) (key r : ℕ)
    → ((n : ℕ) → w.polls n ≡ false)
    → IsFair w
    → Table.IsValid c
    → total (materialize_worklist w c) key r ≡ pair_total r (held c key)
total-materialize_worklist w c key r on fair v =
    total_entered w c key r fair v ∙ rw (enters-never w.polls 0 (shard_index key) on) refl

-- For a valid table, a context that may end at any shard and maps that are walked in any order,
-- each record once, the worklist has for each mask and class exactly the weight that a reader of
-- the table finds for them, if the context had not ended at any shard up to the mask's own, and no
-- weight otherwise: a context that ends cuts whole shards off, and changes or repeats nothing
-- before.
pub materialize_worklist-read :
    (w : Walker) (c : Cache) (key r : ℕ)
    → IsFair w
    → Table.IsValid c
    → total (materialize_worklist w c) key r
      ≡ (if enters w.polls 0 (shard_index key) then or_zero (read c key r) else 0)
materialize_worklist-read w c key r fair v =
    total_entered w c key r fair v
    ∙ ap (λ k. if enters w.polls 0 (shard_index key) then k else 0) (pair_total-read c key r v)

SameSums-IsAffordable :
    (c : Cache) (es ds : List Entry) → SameSums es ds → IsAffordable c es → IsAffordable c ds
SameSums-IsAffordable c es ds same a = record {
  cells = sym (same stray) ∙ a.cells;
  small = λ key rep. omega (arith, a.small key rep, same (share key rep));
  room = λ key. omega (arith, a.room key, same (λ _. 1), sum_over-ones es, sum_over-ones ds);
}

pub worklist-SameSums :
    (w : Walker) (es ds : List Entry) (key r : ℕ)
    → ((n : ℕ) → w.polls n ≡ false)
    → IsFair w
    → SameSums es ds
    → IsAffordable new_cache es
    → (total (materialize_worklist w (set_all new_cache ds)) key r ≡ total es key r)
      × (or_zero (read (set_all new_cache ds) key r) ≡ total es key r)
worklist-SameSums w es ds key r on fair same a =
    let (v, reads, pairs) =
      read-set_all new_cache ds key r new_cache-IsValid
        (SameSums-IsAffordable new_cache es ds same a) in
    let empty : pair_total r (held new_cache key) ≡ 0 =
      rw (new_cache-held key) (unfold pair_total in refl) in
    (
      total-materialize_worklist w (set_all new_cache ds) key r on fair v
          ∙ omega (arith, pairs, empty, same (share key r)),
      omega (arith, reads, ap or_zero (new_cache-read key r), same (share key r)),
    )

-- For contributions that a new table has room for, written by `Set` in any order, as the workers of
-- a phase interleave them, the worklist that a whole walk of the table yields, which takes the maps
-- in any order, has for each mask and class the sum of the weights that were contributed to them,
-- which is also what a reader finds: no contribution is lost or counted twice between the phase
-- that writes the table and the phase that walks it, and the order does not show.
pub materialize_worklist-set_all :
    (w : Walker) (es ds : List Entry) (key r : ℕ)
    → ((n : ℕ) → w.polls n ≡ false)
    → IsFair w
    → Perm es ds
    → IsAffordable new_cache es
    → (total (materialize_worklist w (set_all new_cache ds)) key r ≡ total es key r)
      × (or_zero (read (set_all new_cache ds) key r) ≡ total es key r)
materialize_worklist-set_all w es ds key r on fair p a =
    worklist-SameSums w es ds key r on fair (λ f. sum_over-Perm f es ds p) a
