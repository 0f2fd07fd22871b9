-- ===== src/Cache/Staging.antt =====
-- cache/cache.go: the batched writer `Staging`.
use knighttour.Prelude.{length-set, suc}
use knighttour.Prelude.{ℕ, zero, suc, ◌+◌, ◌==◌, if◌then◌else◌, max, arith, Bool-cases}
use knighttour.Prelude.{
  ◌≡◌, refl, ap, ◌∙◌, inl, inr, List, [], ◌∷◌, ◌++◌, map, length, get_or, set, replicate,
}
use knighttour.State.{State}
use knighttour.Cache.{
  Entry, CacheShard, Cache, num_shards, shard_index, add, empty_shard, set_weight,
}

pub record Staging : Type 0 where
  pub cache : Cache
  pub baskets : List (List Entry)
  pub pending : ℕ
  pub limit : ℕ

unfoldable pub new_staging : Cache → ℕ → Staging
new_staging c limit = record {
  cache = c;
  baskets = replicate num_shards [];
  pending = 0;
  limit = max limit 1;
}

-- The inner loop of `Flush`.
unfoldable pub add_basket : CacheShard → List Entry → CacheShard
add_basket sh [] = sh
add_basket sh (e ∷ es) = add_basket (add sh e.mask e.rep e.weight) es

-- The outer loop, over the shards and their baskets.
unfoldable pub flush_shards : List CacheShard → List (List Entry) → List CacheShard
unfolding add_basket
flush_shards [] bs = []
flush_shards (sh ∷ shs) [] = sh ∷ shs
flush_shards (sh ∷ shs) (b ∷ bs) = add_basket sh b ∷ flush_shards shs bs

unfoldable pub flush : Staging → Staging
unfolding flush_shards
flush s = record s {
  cache = record { shards = flush_shards s.cache.shards s.baskets };
  baskets = map (λ _. []) s.baskets;
  pending = 0;
}

unfoldable pub staging_set : Staging → State → ℕ → ℕ → Staging
staging_set s key rep weight =
    let i = shard_index key in
    let e : Entry = record { mask = key; rep = rep; weight = weight } in
    let s' = record s {
      baskets = set s.baskets i (get_or s.baskets i [] ++ e ∷ []);
      pending = s.pending + 1;
    } in
    if weight == 0 then s else if s'.pending == s'.limit then flush s' else s'

add_basket-snoc :
    (es : List Entry) (sh : CacheShard) (e : Entry)
    → add_basket sh (es ++ e ∷ []) ≡ add (add_basket sh es) e.mask e.rep e.weight
unfolding add_basket
add_basket-snoc [] sh e = refl
add_basket-snoc (x ∷ es) sh e = add_basket-snoc es (add sh x.mask x.rep x.weight) e

flush_shards-set :
    (shs : List CacheShard) (bs : List (List Entry)) (i : ℕ) (e : Entry)
    → length shs ≡ length bs
    → flush_shards shs (set bs i (get_or bs i [] ++ e ∷ []))
      ≡ set
          (flush_shards shs bs)
          i
          (add (get_or (flush_shards shs bs) i empty_shard) e.mask e.rep e.weight)
unfolding flush_shards
flush_shards-set [] bs i e same = refl
flush_shards-set (sh ∷ shs) [] i e same = absurd (omega arith)
flush_shards-set (sh ∷ shs) (b ∷ bs) zero e same =
    ap (λ t. t ∷ flush_shards shs bs) (add_basket-snoc b sh e)
flush_shards-set (sh ∷ shs) (b ∷ bs) (suc i) e same =
    ap (λ t. add_basket sh b ∷ t) (flush_shards-set shs bs i e (omega arith))

flush_shards-empty :
    (shs : List CacheShard) (bs : List (List Entry)) → flush_shards shs (map (λ _. []) bs) ≡ shs
unfolding flush_shards add_basket
flush_shards-empty [] bs = refl
flush_shards-empty (sh ∷ shs) [] = refl
flush_shards-empty (sh ∷ shs) (b ∷ bs) = ap (λ t. sh ∷ t) (flush_shards-empty shs bs)

length-flush_shards :
    (shs : List CacheShard) (bs : List (List Entry)) → length (flush_shards shs bs) ≡ length shs
unfolding flush_shards
length-flush_shards [] bs = refl
length-flush_shards (sh ∷ shs) [] = refl
length-flush_shards (sh ∷ shs) (b ∷ bs) = ap suc (length-flush_shards shs bs)

abbrev pub nil : List Entry
nil = []

pub length-emptied :
    (bs : List (List Entry)) → length (map (λ (_ : List Entry). nil) bs) ≡ length bs
length-emptied [] = refl
length-emptied (b ∷ bs) = ap suc (length-emptied bs)

-- A writer has a basket for each shard.
unfoldable pub HasBaskets : Staging → Type 0
HasBaskets s = length s.cache.shards ≡ length s.baskets

pub staging_set-HasBaskets :
    (s : Staging) (key rep weight : ℕ) → HasBaskets s → HasBaskets (staging_set s key rep weight)
unfolding HasBaskets staging_set flush
staging_set-HasBaskets s key rep weight h = elim (Bool-cases (weight == 0)) [
  | inl nothing ↦ rw nothing h
  | inr some_weight ↦
      let i = shard_index key in
      let bs =
        set s.baskets i
          (get_or s.baskets i [] ++ record { mask = key; rep = rep; weight = weight } ∷ []) in
      let same =
        length-set s.baskets i
          (get_or s.baskets i [] ++ record { mask = key; rep = rep; weight = weight } ∷ []) in
      elim (Bool-cases (s.pending + 1 == s.limit)) [
        | inl full ↦
            rw (some_weight, full)
              (omega (arith, length-flush_shards s.cache.shards bs, length-emptied bs, same))
        | inr room ↦ rw (some_weight, room) (omega (arith, same))
      ]
]

-- Whether or not `Staging.Set` flushes by itself, the table after a flush is the one that writing
-- the contribution directly after a flush gives: batching changes neither the contents nor the
-- layout of a shard.
pub flush-staging_set :
    (s : Staging) (key rep weight : ℕ)
    → HasBaskets s
    → (flush (staging_set s key rep weight)).cache ≡ set_weight (flush s).cache key rep weight
unfolding flush staging_set set_weight HasBaskets
flush-staging_set s key rep weight same = elim (Bool-cases (weight == 0)) [
  | inl nothing ↦ rw nothing refl
  | inr some_weight ↦
      let i = shard_index key in
      let e : Entry = record { mask = key; rep = rep; weight = weight } in
      let bs = set s.baskets i (get_or s.baskets i [] ++ e ∷ []) in
      let direct = flush_shards-set s.cache.shards s.baskets i e same in
      elim (Bool-cases (s.pending + 1 == s.limit)) [
        | inl full ↦
            rw (some_weight, full)
              (ap {B = Cache} (λ t. record { shards = t })
                (flush_shards-empty (flush_shards s.cache.shards bs) bs ∙ direct))
        | inr room ↦ rw (some_weight, room) (ap {B = Cache} (λ t. record { shards = t }) direct)
      ]
]
