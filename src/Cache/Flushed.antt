-- ===== src/Cache/Flushed.antt =====
-- cache/cache.go, `Staging`: what a writer contributes to the table that it shares with others, and
-- what it keeps in its baskets.
use knighttour.Prelude.{
  ℕ, zero, suc, ◌+◌, ◌<◌, ◌==◌, if◌then◌else◌, false, List, [], ◌∷◌, ◌++◌, map, length, get_or, set,
  replicate, length-set, length-append, length-replicate, Bool-cases,
}
use knighttour.Prelude.{◌≡◌, refl, sym, ap, ◌∙◌, inl, inr, arith}
use mathlib.Core.List.{append_assoc}
use knighttour.Cache.{
  Entry, CacheShard, Cache, num_shards, shard_index, add, empty_shard, set_weight,
}
use knighttour.Cache.Sums.{sum_over, sum_over-append}
use knighttour.Cache.Staging.{
  Staging, new_staging, staging_set, add_basket, flush_shards, flush, nil, length-emptied,
}
use knighttour.Cache.Histogram.{set_all}

pub set_all-append :
    (c : Cache) (es ds : List Entry) → set_all c (es ++ ds) ≡ set_all (set_all c es) ds
unfolding set_all
set_all-append c [] ds = refl
set_all-append c (e ∷ es) ds = set_all-append (set_weight c e.mask e.rep e.weight) es ds

length-set_weight :
    (c : Cache) (key rep weight : ℕ) → length (set_weight c key rep weight).shards ≡ length c.shards
unfolding set_weight
length-set_weight c key rep weight = elim (Bool-cases (weight == 0)) [
  | inl nothing ↦ rw nothing refl
  | inr some_weight ↦ rw some_weight (length-set c.shards _ _)
]

pub length-set_all : (c : Cache) (es : List Entry) → length (set_all c es).shards ≡ length c.shards
unfolding set_all
length-set_all c [] = refl
length-set_all c (e ∷ es) =
    length-set_all (set_weight c e.mask e.rep e.weight) es
    ∙ length-set_weight c e.mask e.rep e.weight

-- All entries of the baskets.
unfoldable pub flat : List (List Entry) → List Entry
flat [] = []
flat (b ∷ bs) = b ++ flat bs

-- A basket for shard `i`, of contributions that are not 0.
unfoldable pub BasketOf : ℕ → List Entry → Type 0
BasketOf i [] = Unit
BasketOf i (e ∷ es) = (shard_index e.mask ≡ i) × ((e.weight == 0) ≡ false) × BasketOf i es

-- The baskets from shard `i` on.
unfoldable pub BasketsFrom : ℕ → List (List Entry) → Type 0
BasketsFrom i [] = Unit
BasketsFrom i (b ∷ bs) = BasketOf i b × BasketsFrom (suc i) bs

get_or-middle :
    (pre : List CacheShard) (sh : CacheShard) (shs : List CacheShard)
    → get_or (pre ++ sh ∷ shs) (length pre) empty_shard ≡ sh
get_or-middle [] sh shs = refl
get_or-middle (p ∷ pre) sh shs = get_or-middle pre sh shs

set-middle :
    (pre : List CacheShard) (sh v : CacheShard) (shs : List CacheShard)
    → set (pre ++ sh ∷ shs) (length pre) v ≡ pre ++ v ∷ shs
set-middle [] sh v shs = refl
set-middle (p ∷ pre) sh v shs = ap (λ t. p ∷ t) (set-middle pre sh v shs)

abbrev cache_of : List CacheShard → Cache
cache_of shs = record { shards = shs }

set_all-add_basket :
    (pre : List CacheShard) (sh : CacheShard) (shs : List CacheShard) (b : List Entry)
    → BasketOf (length pre) b
    → set_all (cache_of (pre ++ sh ∷ shs)) b ≡ cache_of (pre ++ add_basket sh b ∷ shs)
unfolding set_all BasketOf add_basket
set_all-add_basket pre sh shs [] h = refl
set_all-add_basket pre sh shs (e ∷ es) h =
    let now : set_weight (cache_of (pre ++ sh ∷ shs)) e.mask e.rep e.weight
        ≡ cache_of (pre ++ add sh e.mask e.rep e.weight ∷ shs) =
      unfold set_weight in rw (h.1, h.0, get_or-middle pre sh shs, set-middle pre sh _ shs) refl in
    ap (λ c. set_all c es) now ∙ set_all-add_basket pre (add sh e.mask e.rep e.weight) shs es h.2

set_all-flush_shards :
    (pre shs : List CacheShard) (bs : List (List Entry))
    → BasketsFrom (length pre) bs
    → length shs ≡ length bs
    → set_all (cache_of (pre ++ shs)) (flat bs) ≡ cache_of (pre ++ flush_shards shs bs)
unfolding flat BasketsFrom flush_shards
set_all-flush_shards pre [] [] h same = unfold set_all in refl
set_all-flush_shards pre (sh ∷ shs) [] h same = unfold set_all in refl
set_all-flush_shards pre [] (b ∷ bs) h same = absurd (omega arith)
set_all-flush_shards pre (sh ∷ shs) (b ∷ bs) h same =
    let sh' = add_basket sh b in
    let longer : length (pre ++ sh' ∷ []) ≡ suc (length pre) =
      omega (arith, length-append pre (sh' ∷ [])) in
    let rest =
      set_all-flush_shards (pre ++ sh' ∷ []) shs bs (rw longer h.1) (omega (arith, same)) in
    set_all-append _ b (flat bs)
    ∙ ap (λ c. set_all c (flat bs)) (set_all-add_basket pre sh shs b h.0)
    ∙ (rw (append_assoc pre (sh' ∷ []) shs, append_assoc pre (sh' ∷ []) (flush_shards shs bs)) at
        rest)

-- A writer with a basket for each shard, and in it contributions for that shard.
unfoldable pub IsWriter : Staging → Type 0
IsWriter s = (length s.baskets ≡ num_shards) × BasketsFrom 0 s.baskets

pub flush-set_all :
    (s : Staging)
    → IsWriter s
    → length s.cache.shards ≡ num_shards
    → (flush s).cache ≡ set_all s.cache (flat s.baskets)
unfolding flush IsWriter
flush-set_all s w all = sym (set_all-flush_shards [] s.cache.shards s.baskets w.1 (all ∙ sym w.0))

emptied :
    (i : ℕ) (bs : List (List Entry))
    → BasketsFrom i (map (λ _. nil) bs) × (flat (map (λ _. nil) bs) ≡ [])
unfolding BasketsFrom BasketOf flat
emptied i [] = (tt, refl)
emptied i (b ∷ bs) = let (h, e) = emptied (suc i) bs in ((tt, h), e)

-- What a step of a writer does to the shared table and to its baskets: contributions move into the
-- table, and none but `extra` is new.
pub record Moves (s own : Staging) (extra : (Entry → ℕ) → ℕ) : Type 0 where
  pub out : List Entry
  pub made : own.cache ≡ set_all s.cache out
  pub writer : IsWriter own
  pub balance :
      (f : Entry → ℕ)
      → sum_over f out + sum_over f (flat own.baskets) ≡ sum_over f (flat s.baskets) + extra f

pub flush-Moves :
    (s : Staging) → IsWriter s → length s.cache.shards ≡ num_shards → Moves s (flush s) (λ f. 0)
flush-Moves s w all =
    let (empty_from, empty) = emptied 0 s.baskets in
    record {
      out = flat s.baskets;
      made = flush-set_all s w all;
      writer = unfold IsWriter flush in (length-emptied s.baskets ∙ w.0, empty_from);
      balance = λ f. unfold flush in rw empty (unfold sum_over in omega arith);
    }

pub flat-flush : (s : Staging) → flat (flush s).baskets ≡ []
unfolding flush
flat-flush s = (emptied 0 s.baskets).1

BasketsFrom-nil : (n i : ℕ) → BasketsFrom i (replicate n nil) × (flat (replicate n nil) ≡ [])
unfolding BasketsFrom BasketOf flat
BasketsFrom-nil zero i = (tt, refl)
BasketsFrom-nil (suc n) i = let (h, e) = BasketsFrom-nil n (suc i) in ((tt, h), e)

-- A new writer has empty baskets.
pub new_staging-IsWriter :
    (c : Cache) (limit : ℕ)
    → IsWriter (new_staging c limit) × (flat (new_staging c limit).baskets ≡ [])
unfolding new_staging IsWriter
new_staging-IsWriter c limit =
    let (h, e) = BasketsFrom-nil num_shards 0 in ((length-replicate num_shards nil, h), e)

BasketOf-snoc :
    (i : ℕ) (b : List Entry) (e : Entry)
    → BasketOf i b
    → shard_index e.mask ≡ i
    → (e.weight == 0) ≡ false
    → BasketOf i (b ++ e ∷ [])
unfolding BasketOf
BasketOf-snoc i [] e h here live = (here, live, tt)
BasketOf-snoc i (d ∷ b) e h here live = (h.0, h.1, BasketOf-snoc i b e h.2 here live)

BasketsFrom-set :
    (i j : ℕ) (bs : List (List Entry)) (e : Entry)
    → BasketsFrom i bs
    → shard_index e.mask ≡ i + j
    → (e.weight == 0) ≡ false
    → BasketsFrom i (set bs j (get_or bs j [] ++ e ∷ []))
unfolding BasketsFrom
BasketsFrom-set i j [] e h here live = tt
BasketsFrom-set i zero (b ∷ bs) e h here live =
    (BasketOf-snoc i b e h.0 (here ∙ omega arith) live, h.1)
BasketsFrom-set i (suc j) (b ∷ bs) e h here live =
    (h.0, BasketsFrom-set (suc i) j bs e h.1 (here ∙ omega arith) live)

sum_over-set :
    (f : Entry → ℕ) (j : ℕ) (bs : List (List Entry)) (e : Entry)
    → j < length bs
    → sum_over f (flat (set bs j (get_or bs j [] ++ e ∷ []))) ≡ sum_over f (flat bs) + f e
unfolding flat
sum_over-set f j [] e lt = absurd (omega arith)
sum_over-set f zero (b ∷ bs) e lt =
    let one : sum_over f (e ∷ []) ≡ f e = unfold sum_over in omega arith in
    omega (
      arith,
      one,
      sum_over-append f (b ++ e ∷ []) (flat bs),
      sum_over-append f b (e ∷ []),
      sum_over-append f b (flat bs),
    )
sum_over-set f (suc j) (b ∷ bs) e lt =
    let rest = sum_over-set f j bs e (omega arith) in
    omega (
      arith,
      rest,
      sum_over-append f b (flat (set bs j (get_or bs j [] ++ e ∷ []))),
      sum_over-append f b (flat bs),
    )

-- A contribution of weight 0 is none.
abbrev pub kept : (Entry → ℕ) → Entry → ℕ
kept f e = if e.weight == 0 then 0 else f e

shard_index-lt : (key : ℕ) → shard_index key < num_shards
unfolding shard_index
shard_index-lt key = omega arith

module _ (s : Staging) (e : Entry) (w : IsWriter s) (all : length s.cache.shards ≡ num_shards) where
  -- The writer with the contribution in its basket, before it may flush.
  abbrev with_entry : Staging
  with_entry = record s {
    baskets =
        set s.baskets (shard_index e.mask) (get_or s.baskets (shard_index e.mask) [] ++ e ∷ []);
    pending = s.pending + 1;
  }

  with_entry-IsWriter : (e.weight == 0) ≡ false → IsWriter with_entry
  with_entry-IsWriter live =
      unfold IsWriter in
      (
        length-set s.baskets _ _ ∙ w.0,
        BasketsFrom-set 0 (shard_index e.mask) s.baskets e w.1 (omega arith) live,
      )

  with_entry-sum :
      (f : Entry → ℕ) → sum_over f (flat with_entry.baskets) ≡ sum_over f (flat s.baskets) + f e
  unfolding IsWriter
  with_entry-sum f =
      sum_over-set f (shard_index e.mask) s.baskets e (omega (arith, shard_index-lt e.mask, w.0))

  pub staging_set-Moves : Moves s (staging_set s e.mask e.rep e.weight) (λ f. kept f e)
  unfolding staging_set
  staging_set-Moves = elim (Bool-cases (e.weight == 0)) [
    | inl nothing ↦ rw nothing (record {
      out = [];
      made = unfold set_all in refl;
      writer = w;
      balance = λ f. unfold sum_over in omega arith;
    })
    | inr live ↦ elim (Bool-cases (s.pending + 1 == s.limit)) [
      | inl full ↦
          let m = flush-Moves with_entry (with_entry-IsWriter live) all in
          rw (live, full)
            (record {
              out = m.out;
              made = m.made;
              writer = m.writer;
              balance = λ f. omega (arith, m.balance f, with_entry-sum f);
            })
      | inr room ↦
          rw (live, room)
            (record {
              out = [];
              made = unfold set_all in refl;
              writer = with_entry-IsWriter live;
              balance = λ f.
                  let none_out : sum_over f [] ≡ 0 = unfold sum_over in refl in
                  omega (arith, none_out, with_entry-sum f);
            })
    ]
  ]
