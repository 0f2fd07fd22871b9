-- ===== src/Cache/Shard.antt =====
-- cache/cache.go, `cacheShard`: its invariant, what it holds for a reader, and the frame of one
-- contribution.
use knighttour.Prelude.{ℕ, ◌+◌, ◌^◌, ◌≤◌, ◌<◌, ◌==◌, if◌then◌else◌, false}
use knighttour.Prelude.{
  ◌≡◌, ◌≢◌, refl, sym, ap, ◌∙◌, inl, inr, arith, Bool-cases, Option-cases, ==→≢, ==_self,
}
use knighttour.Prelude.{Option, none, some, List, [], length, get_or}
use mathlib.Core.Path.{subst}
use knighttour.State.{State}
use knighttour.Cache.{
  CacheShard, find, word_at, make_ref, unpack, capacity_for, find_weight, value_weight,
}
use knighttour.Cache.Pack.{
  IsPair, IsPair-is_inline, slab_parts-make_ref, is_inline-make_ref, make_ref-ne-zero,
}
use knighttour.Cache.Contents.{word_pairs, word_pairs-pair, word_pairs-ref, slot_pairs-Agree}
use knighttour.Cache.Slots.{Pairs, Agree, find_weight-Agree}
use knighttour.Cache.Blocks.{
  in_block, in_word, cover_data, cover_free, room, in_word-le, in_word-two, in_word-zero, some_word,
}
use knighttour.Cache.Capacity.{Capacity-of}

-- A stored word is an inline pair, or refers to a block of two or more live pairs.
pub data WordOk (slab : List ℕ) (w : ℕ) : Type 0 where
  inline : IsPair w → WordOk slab w
  block :
      (k idx : ℕ)
      → w ≡ make_ref k idx
      → 2 ≤ k
      → k ≤ 64
      → idx < 2 ^ 56
      → Pairs slab idx k
      → WordOk slab w

pub record IsValid (sh : CacheShard) : Type 0 where
  pub seven : length sh.free ≡ 7
  pub covered : (i : ℕ) → cover_data sh.data_map i + cover_free 0 sh.free i ≤ room sh.slab i
  pub words : (k w : ℕ) → find k sh.data_map ≡ some w → WordOk sh.slab w

-- What a reader finds for a class of a word.
abbrev pub weight_in : List ℕ → ℕ → ℕ → Option ℕ
weight_in slab w rep = value_weight (record { slab = slab; word = w }) rep

-- What a reader finds for a class of a mask.
unfoldable pub lookup : CacheShard → State → ℕ → Option ℕ
lookup sh key rep = elim (find key sh.data_map) [ none ↦ none | some w ↦ weight_in sh.slab w rep ]

pub lookup-none :
    (sh : CacheShard) (key rep : ℕ) → find key sh.data_map ≡ none → lookup sh key rep ≡ none
unfolding lookup
lookup-none sh key rep e = rw (e, lookup) refl

pub lookup-some :
    (sh : CacheShard) (key rep w : ℕ)
    → find key sh.data_map ≡ some w
    → lookup sh key rep ≡ weight_in sh.slab w rep
unfolding lookup
lookup-some sh key rep w e = rw (e, lookup) refl

pub weight_in-pair :
    (slab : List ℕ) (p rep : ℕ)
    → IsPair p
    → weight_in slab p rep ≡ (if (unpack p).0 == rep then some (unpack p).1 else none)
unfolding value_weight
weight_in-pair slab p rep h =
    let nonzero : (p == 0) ≡ false = ground arith in rw (nonzero, IsPair-is_inline p h) refl

pub weight_in-ref :
    (slab : List ℕ) (k idx rep : ℕ)
    → k ≤ 64
    → idx < 2 ^ 56
    → weight_in slab (make_ref k idx) rep ≡ find_weight idx k rep slab
unfolding value_weight
weight_in-ref slab k idx rep hk hi =
    let nonzero : (make_ref k idx == 0) ≡ false =
      ground (arith, make_ref-ne-zero k idx (omega arith) hi) in
    rw
      (
        nonzero,
        is_inline-make_ref k idx (omega arith) hi,
        slab_parts-make_ref k idx (omega arith) hi,
      )
      refl

pub in_word-ref :
    (k idx i : ℕ)
    → k ≤ 64
    → idx < 2 ^ 56
    → in_word (make_ref k idx) i ≡ in_block idx (capacity_for k) i
in_word-ref k idx i hk hi =
    rw (is_inline-make_ref k idx (omega arith) hi, slab_parts-make_ref k idx (omega arith) hi) refl

pub in_word-pair : (p i : ℕ) → IsPair p → in_word p i ≡ 0
in_word-pair p i h = rw (IsPair-is_inline p h) refl

in_block_live : (idx size i : ℕ) → idx ≤ i → i < idx + size → in_block idx size i ≡ 1
in_block_live idx size i lo hi = ground arith

-- Two slabs that agree on the block of a word say the same of it.
pub WordOk-Agree :
    (slab slab' : List ℕ) (w : ℕ)
    → WordOk slab w
    → ((i : ℕ) → in_word w i ≡ 1 → get_or slab' i 0 ≡ get_or slab i 0)
    → WordOk slab' w
      × ((rep : ℕ) → weight_in slab' w rep ≡ weight_in slab w rep)
      × (word_pairs slab' w ≡ word_pairs slab w)
WordOk-Agree slab slab' w (inline p) same = (
  inline p,
  λ rep. weight_in-pair slab' w rep p ∙ sym (weight_in-pair slab w rep p),
  word_pairs-pair slab' w p ∙ sym (word_pairs-pair slab w p),
)
WordOk-Agree slab slab' w (block k idx e two most small pairs) same = (
  block k idx e two most small (λ j lo hi. rw (agree j lo hi) (pairs j lo hi)),
  λ rep. rw e (
      weight_in-ref slab' k idx rep most small
      ∙ find_weight-Agree k idx rep slab slab' agree
      ∙ sym (weight_in-ref slab k idx rep most small)),
  rw e (
      word_pairs-ref slab' k idx most small
      ∙ slot_pairs-Agree k idx slab slab' agree
      ∙ sym (word_pairs-ref slab k idx most small)),
)
  where
    agree : Agree slab slab' idx k
    agree j lo hi =
        let enough = (Capacity-of k (omega arith) most).enough in
        same j (
          ap (λ (t : ℕ). in_word t j) e
          ∙ in_word-ref k idx j most small
          ∙ in_block_live idx (capacity_for k) j lo (omega arith))

-- The pairs of the record of a mask.
unfoldable pub contents : CacheShard → State → List (ℕ × ℕ)
contents sh key = elim (find key sh.data_map) [ none ↦ [] | some w ↦ word_pairs sh.slab w ]

pub contents-none : (sh : CacheShard) (key : ℕ) → find key sh.data_map ≡ none → contents sh key ≡ []
unfolding contents
contents-none sh key e = rw (e, contents) refl

pub contents-some :
    (sh : CacheShard) (key w : ℕ)
    → find key sh.data_map ≡ some w
    → contents sh key ≡ word_pairs sh.slab w
unfolding contents
contents-some sh key w e = rw (e, contents) refl

-- A change of the shard that concerns the record of `key` alone, whose word becomes `new`.
pub record Step (sh sh' : CacheShard) (key new : ℕ) : Type 0 where
  pub seven : length sh'.free ≡ 7
  pub finds : (k : ℕ) → find k sh'.data_map ≡ (if key == k then some new else find k sh.data_map)
  pub data_cover :
      (i : ℕ)
      → cover_data sh'.data_map i + in_word (word_at key sh.data_map) i
        ≡ cover_data sh.data_map i + in_word new i
  pub free_cover :
      (i : ℕ)
      → in_word new i + cover_free 0 sh'.free i + room sh.slab i
        ≤ in_word (word_at key sh.data_map) i + cover_free 0 sh.free i + room sh'.slab i
  pub kept :
      (i : ℕ)
      → i < length sh.slab
      → in_word (word_at key sh.data_map) i ≡ 0
      → cover_free 0 sh.free i ≡ 0
      → get_or sh'.slab i 0 ≡ get_or sh.slab i 0
  pub new_ok : WordOk sh'.slab new

pub word_at-find :
    (key : ℕ) (sh : CacheShard) (w : ℕ)
    → find key sh.data_map ≡ some w
    → word_at key sh.data_map ≡ w
unfolding word_at
word_at-find key sh w e = rw (e, word_at) refl

pub word_at-none :
    (key : ℕ) (sh : CacheShard) → find key sh.data_map ≡ none → word_at key sh.data_map ≡ 0
unfolding word_at
word_at-none key sh e = rw (e, word_at) refl

module _ (sh sh' : CacheShard) (key new : ℕ) (v : IsValid sh) (s : Step sh sh' key new) where
  -- The block of another key is not in the way of the step.
  other_block :
      (k w i : ℕ)
      → key ≢ k
      → find k sh.data_map ≡ some w
      → in_word w i ≡ 1
      → (i < length sh.slab)
        × (in_word (word_at key sh.data_map) i ≡ 0)
        × (cover_free 0 sh.free i ≡ 0)
  other_block k w i ne e inside = elim (Option-cases (find key sh.data_map)) [
    | inl absent ↦
        let le = in_word-le sh.data_map k w i e in
        let z = ap (λ (t : ℕ). in_word t i) (word_at-none key sh absent) in
        (ground (arith, v.covered i), z ∙ in_word-zero i, ground (arith, v.covered i))
    | inr (w₀, present) ↦
        let le = in_word-two sh.data_map key k w₀ w i ne present e in
        let z = ap (λ (t : ℕ). in_word t i) (word_at-find key sh w₀ present) in
        (ground (arith, v.covered i), ground (arith, v.covered i, z), ground (arith, v.covered i))
  ]

  other_same :
      (k w : ℕ)
      → key ≢ k
      → find k sh.data_map ≡ some w
      → WordOk sh'.slab w
        × ((rep : ℕ) → weight_in sh'.slab w rep ≡ weight_in sh.slab w rep)
        × (word_pairs sh'.slab w ≡ word_pairs sh.slab w)
  other_same k w ne e =
      WordOk-Agree sh.slab sh'.slab w (v.words k w e)
        λ i inside. let (a, b, c) = other_block k w i ne e inside in s.kept i a b c

  finds_other : (k : ℕ) → key ≢ k → find k sh'.data_map ≡ find k sh.data_map
  finds_other k ne = s.finds k ∙ ground arith

  pub Step-IsValid : IsValid sh'
  Step-IsValid = record {
    seven = s.seven;
    covered = λ i. omega (arith, v.covered i, s.data_cover i, s.free_cover i);
    words = λ k w e. elim (Bool-cases (key == k)) [
      | inl same ↦
          let f : some new ≡ some w = sym (s.finds k ∙ ground arith) ∙ e in
          subst (λ (t : ℕ). WordOk sh'.slab t) (some_word new w f) s.new_ok
      | inr other ↦ let ne = ==→≢ key k other in (other_same k w ne (sym (finds_other k ne) ∙ e)).0
    ];
  }

  pub Step-self : (rep : ℕ) → lookup sh' key rep ≡ weight_in sh'.slab new rep
  Step-self rep = lookup-some sh' key rep new (s.finds key ∙ ground (arith, ==_self key))

  pub Step-other : (k rep : ℕ) → key ≢ k → lookup sh' k rep ≡ lookup sh k rep
  Step-other k rep ne = elim (Option-cases (find k sh.data_map)) [
    | inl e ↦ lookup-none sh' k rep (finds_other k ne ∙ e) ∙ sym (lookup-none sh k rep e)
    | inr (w, e) ↦
        lookup-some sh' k rep w (finds_other k ne ∙ e)
        ∙ (other_same k w ne e).1 rep
        ∙ sym (lookup-some sh k rep w e)
  ]

  pub contents_self : contents sh' key ≡ word_pairs sh'.slab new
  contents_self = contents-some sh' key new (s.finds key ∙ ground (arith, ==_self key))

  pub contents_other : (k : ℕ) → key ≢ k → contents sh' k ≡ contents sh k
  contents_other k ne = elim (Option-cases (find k sh.data_map)) [
    | inl e ↦ contents-none sh' k (finds_other k ne ∙ e) ∙ sym (contents-none sh k e)
    | inr (w, e) ↦
        contents-some sh' k w (finds_other k ne ∙ e)
        ∙ (other_same k w ne e).2
        ∙ sym (contents-some sh k w e)
  ]
