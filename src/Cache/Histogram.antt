-- ===== src/Cache/Histogram.antt =====
-- cache/cache.go, sequences of `Set` and of a `Staging`, and their abstract view: for each mask and
-- class, a sum of weights.
use knighttour.Prelude.{
  ℕ, ◌+◌, ◌*◌, ◌^◌, ◌≤◌, ◌<◌, ◌==◌, false, arith, Bool-cases, ==→≡, ==→≢, ==_self,
}
use knighttour.Prelude.{◌≡◌, refl, sym, ap, ◌∙◌, inl, inr, List, [], ◌∷◌, length}
use knighttour.State.{State}
use knighttour.Cache.{Entry, Cache, set_weight}
use knighttour.Cache.Slots.{or_zero}
use knighttour.Cache.Inline.{Contract}
use knighttour.Cache.Sums.{sum_over, share, stray}
use knighttour.Cache.Classes.{pair_total, pair_total-add_pair}
use knighttour.Cache.Staging.{
  Staging, staging_set, flush, HasBaskets, staging_set-HasBaskets, flush-staging_set,
}
use package.knighttour.Cache.Table
use knighttour.Cache.Table.{read, read-lookup, shard_of, held, read-set_weight, held-set_weight}

-- The contributions of a list, by `Cache.Set` one after the other.
unfoldable pub set_all : Cache → List Entry → Cache
set_all c [] = c
set_all c (e ∷ es) = set_all (set_weight c e.mask e.rep e.weight) es

-- The histogram that the list describes, without any table.
abbrev pub total : List Entry → State → ℕ → ℕ
total es key rep = sum_over (share key rep) es

-- The classes of the contributions are cells.
abbrev pub Cells : List Entry → Type 0
Cells es = sum_over stray es ≡ 0

-- Contributions that the table has room for, in any order: the classes are cells, no sum overflows its
-- 56 bits, and an index of 56 bits addresses every slab to the end.
pub record IsAffordable (c : Cache) (es : List Entry) : Type 0 where
  pub cells : Cells es
  pub small : (key rep : ℕ) → total es key rep + or_zero (read c key rep) < 2 ^ 56
  pub room : (key : ℕ) → length (shard_of c key).slab + 64 * length es < 2 ^ 56

-- One contribution, for every mask and class at once.
read-set_weight_any :
    (c : Cache) (e : Entry) (key rep : ℕ)
    → Table.IsValid c
    → Contract e.mask e.rep e.weight (shard_of c e.mask)
    → or_zero (read (set_weight c e.mask e.rep e.weight) key rep)
      ≡ share key rep e + or_zero (read c key rep)
read-set_weight_any c e key rep v contract =
    let (_, self, class, other) = read-set_weight c e.mask e.rep e.weight v contract in
    elim (Bool-cases (e.mask == key)) [
      | inr apart ↦
          rw apart (ap or_zero (other key rep (λ same. ==→≢ _ _ apart (sym same))) ∙ omega arith)
      | inl here ↦
          let k = ==→≡ e.mask key here in
          elim (Bool-cases (e.rep == rep)) [
            | inl both ↦
                let r = ==→≡ e.rep rep both in
                rw (← k, ← r) (rw (==_self e.mask, ==_self e.rep) (ap or_zero self ∙ omega arith))
            | inr apart ↦ rw (← k) (
                rw (==_self e.mask, apart)
                  (ap or_zero (class rep (λ same. ==→≢ _ _ apart (sym same))) ∙ omega arith))
          ]
    ]

-- What one contribution leaves: a valid table, the sums that readers find, the sums of the pairs
-- held, and slabs that grew by one block at most.
record Grows (c c' : Cache) (e : Entry) : Type 0 where
  valid : Table.IsValid c'
  reads : (key rep : ℕ) → or_zero (read c' key rep) ≡ share key rep e + or_zero (read c key rep)
  holds :
      (key rep : ℕ) → pair_total rep (held c' key) ≡ share key rep e + pair_total rep (held c key)
  slabs : (key : ℕ) → length (shard_of c' key).slab ≤ length (shard_of c key).slab + 64

affordable-Contract :
    (c : Cache) (e : Entry) (es : List Entry)
    → IsAffordable c (e ∷ es)
    → (e.weight == 0) ≡ false
    → Contract e.mask e.rep e.weight (shard_of c e.mask)
unfolding sum_over
affordable-Contract c e es a some_weight =
    let own : share e.mask e.rep e ≡ e.weight = rw (==_self e.mask, ==_self e.rep) refl in
    record {
      tag = ground (arith, a.cells);
      positive = ground arith;
      small = omega (arith, a.small e.mask e.rep, own, ap or_zero (read-lookup c e.mask e.rep));
      addressable = omega (arith, a.room e.mask);
    }

set_weight-Grows :
    (c : Cache) (e : Entry) (es : List Entry)
    → Table.IsValid c
    → IsAffordable c (e ∷ es)
    → Grows c (set_weight c e.mask e.rep e.weight) e
set_weight-Grows c e es v a = elim (Bool-cases (e.weight == 0)) [
  | inl nothing ↦
      let none_added : (key rep : ℕ) → share key rep e ≡ 0 = λ key rep. ground arith in
      unfold set_weight in
      rw nothing (record {
        valid = v;
        reads = λ key rep. omega (arith, none_added key rep);
        holds = λ key rep. omega (arith, none_added key rep);
        slabs = λ key. omega arith;
      })
  | inr some_weight ↦
      let contract = affordable-Contract c e es a some_weight in
      let (pairs, slabs) = held-set_weight c e.mask e.rep e.weight v contract in
      record {
        valid = (read-set_weight c e.mask e.rep e.weight v contract).0;
        reads = λ key rep. read-set_weight_any c e key rep v contract;
        holds = λ key rep. ap (pair_total rep) (pairs key) ∙ elim (Bool-cases (e.mask == key)) [
          | inl here ↦ rw here (pair_total-add_pair rep e.rep e.weight (held c key))
          | inr apart ↦ rw apart (omega arith)
        ];
        slabs = slabs;
      }
]

later-IsAffordable :
    (c c' : Cache) (e : Entry) (es : List Entry)
    → IsAffordable c (e ∷ es)
    → Grows c c' e
    → IsAffordable c' es
unfolding sum_over
later-IsAffordable c c' e es a g = record {
  cells = omega (arith, a.cells);
  small = λ key rep. omega (arith, a.small key rep, g.reads key rep);
  room = λ key. omega (arith, a.room key, g.slabs key);
}

-- For a valid table and any sequence of contributions by `Set` that the table has room for, the
-- table is valid afterwards, and what a reader finds for a mask and a class is what it found before
-- and the sum of the weights that were contributed to them; the pairs that the table holds for them
-- grow by the same sum. The layout, the order and the moves of blocks do not show.
pub read-set_all :
    (c : Cache) (es : List Entry) (key rep : ℕ)
    → Table.IsValid c
    → IsAffordable c es
    → Table.IsValid (set_all c es)
      × (or_zero (read (set_all c es) key rep) ≡ total es key rep + or_zero (read c key rep))
      × (pair_total rep (held (set_all c es) key) ≡ total es key rep + pair_total rep (held c key))
unfolding set_all sum_over
read-set_all c [] key rep v a = (v, omega arith, omega arith)
read-set_all c (e ∷ es) key rep v a =
    let g = set_weight-Grows c e es v a in
    let c' = set_weight c e.mask e.rep e.weight in
    let (later, sum, pairs) =
      read-set_all c' es key rep g.valid (later-IsAffordable c c' e es a g) in
    (later, omega (arith, sum, g.reads key rep), omega (arith, pairs, g.holds key rep))

-- The contributions of a list, through a staging writer.
unfoldable pub stage_all : Staging → List Entry → Staging
stage_all s [] = s
stage_all s (e ∷ es) = stage_all (staging_set s e.mask e.rep e.weight) es

-- For a writer with a basket for each shard and any sequence of contributions, wherever the writer
-- flushes by itself, the table after a last flush is the one that `Cache.Set` makes of the same
-- sequence after a flush, with the same layout of every shard.
pub flush-stage_all :
    (s : Staging) (es : List Entry)
    → HasBaskets s
    → (flush (stage_all s es)).cache ≡ set_all (flush s).cache es
unfolding stage_all set_all
flush-stage_all s [] h = refl
flush-stage_all s (e ∷ es) h =
    flush-stage_all (staging_set s e.mask e.rep e.weight) es
      (staging_set-HasBaskets s e.mask e.rep e.weight h)
    ∙ ap (λ t. set_all t es) (flush-staging_set s e.mask e.rep e.weight h)
