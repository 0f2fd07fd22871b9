-- ===== src/Cache.antt =====
-- cache/cache.go: the sharded table from a canonical mask to the histogram of its end classes.
-- A Go map is an association list; locks are taken and released inside one operation, so an
-- operation is one step of the table.
pub mod Pack
pub mod Slots
pub mod Sums
pub mod Keys
pub mod Contents
pub mod Classes
pub mod Capacity
pub mod Blocks
pub mod Shard
pub mod Inline
pub mod Slab
pub mod Relocate
pub mod Add
pub mod Table
pub mod Staging
pub mod Walk
pub mod Histogram
pub mod Fresh
pub mod Worklist
pub mod Readers
pub mod Flushed
use Prim.Native.Nat.{bit_and, bit_or}
use package.knighttour.Prelude.{
  ℕ, zero, suc, ◌+◌, ◌-◌, ◌*◌, ◌/◌, ◌%◌, ◌^◌, ◌==◌, leb, if◌then◌else◌, Bool, true, false, not, max,
}
use package.knighttour.Prelude.{
  Option, none, some, List, [], ◌∷◌, ◌++◌, map, length, get_or, set, replicate, take, drop, sum,
  range,
}
use package.knighttour.Words.{word_mod, len, trailing_zeros}
use package.knighttour.State.{State}

abbrev pub num_shards : ℕ
num_shards = 128

abbrev pub w_bits : ℕ
w_bits = 56

abbrev pub w_mask : ℕ
w_mask = 2 ^ 56 - 1

abbrev pub tag_bit : ℕ
tag_bit = 2 ^ 63

abbrev pub class_mask : ℕ
class_mask = 127

abbrev pub max_classes : ℕ
max_classes = 64

abbrev pub num_free_classes : ℕ
num_free_classes = 7

abbrev pub min_block_cap : ℕ
min_block_cap = 2

pub record Entry : Type 0 where
  pub mask : State
  pub rep : ℕ
  pub weight : ℕ

-- `uint64(rep)<<wBits | weight`.
unfoldable pub pack : ℕ → ℕ → ℕ
pack rep weight = bit_or (rep * 2 ^ w_bits % word_mod) weight

unfoldable pub unpack : ℕ → ℕ × ℕ
unpack p = (p / 2 ^ w_bits % 256, bit_and p w_mask)

unfoldable pub make_ref : ℕ → ℕ → ℕ
make_ref k idx = bit_or (bit_or tag_bit (k * 2 ^ w_bits % word_mod)) (bit_and idx w_mask)

unfoldable pub slab_parts : ℕ → ℕ × ℕ
slab_parts word = (bit_and (word / 2 ^ w_bits) class_mask, bit_and word w_mask)

-- `1 << bits.Len64(uint64(k-1))`, for k ≥ 1.
unfoldable pub capacity_for : ℕ → ℕ
unfolding len
capacity_for k = 2 ^ len 64 (k - 1)

unfoldable pub free_class : ℕ → ℕ
unfolding trailing_zeros
free_class capacity = trailing_zeros 64 capacity

unfoldable pub is_inline : ℕ → Bool
is_inline word = bit_and word tag_bit == 0

unfoldable pub shard_index : State → ℕ
shard_index k = k * 0x9E3779B97F4A7C15 % word_mod / 2 ^ 57

-- `uint64` addition.
abbrev pub add64 : ℕ → ℕ → ℕ
add64 a b = (a + b) % word_mod

-- The map of a shard.
abbrev pub Data : Type 0
Data = List (State × ℕ)

unfoldable pub find : State → Data → Option ℕ
find k [] = none
find k ((j, v) ∷ d) = if j == k then some v else find k d

unfoldable pub store : State → ℕ → Data → Data
store k v [] = (k, v) ∷ []
store k v ((j, w) ∷ d) = if j == k then (j, v) ∷ d else (j, w) ∷ store k v d

-- `m[k]`, 0 on a missing key.
unfoldable pub word_at : State → Data → ℕ
word_at k d = elim (find k d) [ none ↦ 0 | some v ↦ v ]

pub record CacheShard : Type 0 where
  pub data_map : Data
  pub slab : List ℕ
  pub free : List (List ℕ)

-- The head of a basket is the end of the slice.
unfoldable pub alloc_block : CacheShard → ℕ → ℕ × CacheShard
alloc_block sh capacity =
    let c = free_class capacity in
    elim (get_or sh.free c []) [
      | idx ∷ rest ↦ (idx, record sh { free = set sh.free c rest })
      | [] ↦ (length sh.slab, record sh { slab = sh.slab ++ replicate capacity 0 })
    ]

unfoldable pub free_block : CacheShard → ℕ → ℕ → CacheShard
free_block sh idx capacity =
    let c = free_class capacity in record sh { free = set sh.free c (idx ∷ get_or sh.free c []) }

-- The loop over the `left` slots from `i` on, in place in the slab; `none` is `false`.
unfoldable pub add_in_slots : ℕ → ℕ → ℕ → ℕ → List ℕ → Option (List ℕ)
add_in_slots i zero rep weight slab = none
add_in_slots i (suc left) rep weight slab =
    let (r, w) = unpack (get_or slab i 0) in
    if r == rep
    then some (set slab i (pack rep (add64 w weight)))
    else add_in_slots (suc i) left rep weight slab

-- `copy` of `k` words inside the slab, between blocks that do not overlap.
unfoldable pub copy_words : ℕ → ℕ → ℕ → List ℕ → List ℕ
copy_words dst src zero slab = slab
copy_words dst src (suc k) slab =
    copy_words (suc dst) (suc src) k (set slab dst (get_or slab src 0))

unfoldable pub relocate : CacheShard → State → ℕ → ℕ → ℕ → ℕ → CacheShard
relocate sh key idx k rep weight =
    let old_cap = capacity_for k in
    let (new_idx, sh₁) = alloc_block sh (capacity_for (k + 1)) in
    let slab' = set (copy_words new_idx idx k sh₁.slab) (new_idx + k) (pack rep weight) in
    let sh₂ = free_block (record sh₁ { slab = slab' }) idx old_cap in
    record sh₂ { data_map = store key (make_ref (k + 1) new_idx) sh₂.data_map }

-- The rest of `addSlab`, once the mask's word is taken apart.
unfoldable pub add_block : CacheShard → State → ℕ → ℕ → ℕ → ℕ → CacheShard
add_block sh key k idx rep weight = elim (add_in_slots idx k rep weight sh.slab) [
  | some slab' ↦ record sh { slab = slab' }
  | none ↦
      if capacity_for (k + 1) == capacity_for k
      then record sh {
        slab = set sh.slab (idx + k) (pack rep weight);
        data_map = store key (make_ref (k + 1) idx) sh.data_map;
      }
      else relocate sh key idx k rep weight
]

unfoldable pub add_slab : CacheShard → State → ℕ → ℕ → ℕ → CacheShard
add_slab sh key word rep weight =
    let (k, idx) = slab_parts word in add_block sh key k idx rep weight

unfoldable pub add_inline : CacheShard → State → ℕ → ℕ → ℕ → CacheShard
add_inline sh key word rep weight =
    let (r, w) = unpack word in
    if r == rep
    then record sh { data_map = store key (pack rep (add64 w weight)) sh.data_map }
    else let (idx, sh₁) = alloc_block sh (capacity_for min_block_cap) in
      record sh₁ {
        slab = set (set sh₁.slab idx word) (idx + 1) (pack rep weight);
        data_map = store key (make_ref min_block_cap idx) sh₁.data_map;
      }

unfoldable pub add : CacheShard → State → ℕ → ℕ → CacheShard
add sh key rep weight =
    let word = word_at key sh.data_map in
    if word == 0
    then record sh { data_map = store key (pack rep weight) sh.data_map }
    else if is_inline word
    then add_inline sh key word rep weight
    else add_slab sh key word rep weight

pub record Cache : Type 0 where
  pub shards : List CacheShard

abbrev pub empty_shard : CacheShard
empty_shard = record { data_map = []; slab = []; free = replicate num_free_classes [] }

unfoldable pub new_cache : Cache
new_cache = record { shards = replicate num_shards empty_shard }

unfoldable pub set_weight : Cache → State → ℕ → ℕ → Cache
set_weight c key rep weight =
    if weight == 0
    then c
    else let i = shard_index key in
      record { shards = set c.shards i (add (get_or c.shards i empty_shard) key rep weight) }

-- `NullSink.Set`.
unfoldable pub null_set : Unit {0} → State → ℕ → ℕ → Unit {0}
null_set sink key rep weight = sink

-- The read side. The zero `Value` is an absent mask.
pub record Value : Type 0 where
  pub slab : List ℕ
  pub word : ℕ

unfoldable pub find_weight : ℕ → ℕ → ℕ → List ℕ → Option ℕ
find_weight i zero rep slab = none
find_weight i (suc left) rep slab =
    let (r, w) = unpack (get_or slab i 0) in
    if r == rep then some w else find_weight (suc i) left rep slab

unfoldable pub value_weight : Value → ℕ → Option ℕ
value_weight val rep =
    if val.word == 0
    then none
    else if is_inline val.word
    then (let (r, w) = unpack val.word in if r == rep then some w else none)
    else let (k, idx) = slab_parts val.word in find_weight idx k rep val.slab

-- `Seal` gives a handle on the same table, so a view is the table itself.
abbrev pub View : Type 0
View = Cache

unfoldable pub seal : Cache → View
seal c = c

unfoldable pub view_get : View → State → Option Value
view_get v key =
    let sh = get_or v.shards (shard_index key) empty_shard in
    elim (find key sh.data_map) [
      | none ↦ none
      | some word ↦ some (record { slab = sh.slab; word = word })
    ]

unfoldable pub view_len : View → ℕ
view_len v = sum (map (λ sh. length sh.data_map) v.shards)
