-- ===== src/Cache/Inline.antt =====
-- cache/cache.go, `add` and `addInline`: contributions to a mask that has no record, or the record of
-- one class.
use knighttour.Prelude.{ℕ, suc, ◌+◌, ◌^◌, ◌≤◌, ◌<◌, ◌==◌, ltb, if◌then◌else◌, true, false}
use knighttour.Prelude.{
  ◌≡◌, ◌≢◌, refl, sym, ap, ◌∙◌, ◌⊎◌, inl, inr, arith, Bool-cases, ==→≡, ==_self,
}
use knighttour.Prelude.{
  none, some, [], ◌∷◌, length, get_or, set, length-set, get_or-set_self, get_or-set_ne,
}
use knighttour.Cache.{
  CacheShard, Data, find, store, word_at, pack, unpack, add64, make_ref, capacity_for, find_weight,
  alloc_block, min_block_cap,
}
use knighttour.Cache.Pack.{Fits, IsPair, unpack-pack, pack-IsPair}
use knighttour.Cache.Slots.{Pairs, or_zero}
use knighttour.Cache.Blocks.{
  in_block, in_word, cover_data, cover_data-store, cover_free, room, Allocated,
  alloc_block-Allocated, find-store, in_word-zero,
}
use knighttour.Cache.Capacity.{Capacity-of}
use knighttour.Cache.Keys.{KeysKept, store-KeysKept}
use knighttour.Cache.Contents.{slot_pairs, word_pairs, word_pairs-pair, word_pairs-ref, add_pair}
use knighttour.Cache.Shard.{
  contents, contents-none, contents-some, contents_self, contents_other, inline, block, IsValid,
  lookup, lookup-none, lookup-some, weight_in, weight_in-pair, weight_in-ref, in_word-ref,
  in_word-pair, Step, Step-IsValid, Step-self, Step-other, word_at-find, word_at-none,
}

-- What a contribution of `weight` to class `rep` of `key` does to a shard.
pub record Adds (key rep weight : ℕ) (sh sh' : CacheShard) : Type 0 where
  pub valid : IsValid sh'
  pub self : lookup sh' key rep ≡ some (or_zero (lookup sh key rep) + weight)
  pub other_class : (r : ℕ) → r ≢ rep → lookup sh' key r ≡ lookup sh key r
  pub other_key : (k r : ℕ) → key ≢ k → lookup sh' k r ≡ lookup sh k r
  pub held : contents sh' key ≡ add_pair rep weight (contents sh key)
  pub keys : KeysKept key sh.data_map sh'.data_map
  pub other_held : (k : ℕ) → key ≢ k → contents sh' k ≡ contents sh k
  pub grows : length sh'.slab ≤ length sh.slab + 64

-- The writer's contract: a class below 64, a weight that is not 0 and does not overflow its 56
-- bits, and a slab that an index of 56 bits can address.
pub record Contract (key rep weight : ℕ) (sh : CacheShard) : Type 0 where
  pub tag : rep < 64
  pub positive : 0 < weight
  pub small : or_zero (lookup sh key rep) + weight < 2 ^ 56
  pub addressable : length sh.slab + 64 < 2 ^ 56

module _ (key rep weight : ℕ) (sh : CacheShard) (v : IsValid sh)
    (c : Contract key rep weight sh) where
  pub fits : Fits rep weight
  fits = (omega (arith, c.tag), omega (arith, c.small))

  -- A shard whose map alone changes, to an inline pair, from no block.
  inline_Step :
      (p : ℕ)
      → IsPair p
      → ((i : ℕ) → in_word (word_at key sh.data_map) i ≡ 0)
      → Step sh (record sh { data_map = store key p sh.data_map }) key p
  inline_Step p pair no_block = record {
    seven = v.seven;
    finds = λ k. find-store sh.data_map key k p;
    data_cover = λ i. cover_data-store sh.data_map key p i;
    free_cover = λ i. omega (arith, in_word-pair p i pair);
    kept = λ i lt a b. refl;
    new_ok = inline pair;
  }

  pub fresh-Adds :
      find key sh.data_map ≡ none
      → Adds key rep weight sh (record sh { data_map = store key (pack rep weight) sh.data_map })
  fresh-Adds absent = record {
    valid = Step-IsValid sh _ key p v step;
    self =
        Step-self sh _ key p v step rep
        ∙ weight_in-pair sh.slab p rep pair
        ∙ rw (unpack-pack rep weight fits, ==_self rep, lookup-none sh key rep absent)
            (ap some (omega arith));
    other_class = λ r ne.
        Step-self sh _ key p v step r
        ∙ weight_in-pair sh.slab p r pair
        ∙ rw (unpack-pack rep weight fits, lookup-none sh key r absent) (ground arith);
    other_key = λ k r ne. Step-other sh _ key p v step k r ne;
    held =
        contents_self sh _ key p v step
        ∙ word_pairs-pair sh.slab p pair
        ∙ rw (unpack-pack rep weight fits, contents-none sh key absent) (unfold add_pair in refl);
    keys = store-KeysKept key p sh.data_map;
    other_held = λ k ne. contents_other sh _ key p v step k ne;
    grows = omega arith;
  }
    where
      p : ℕ
      p = pack rep weight

      pair : IsPair p
      pair = pack-IsPair rep weight fits c.positive

      step : Step sh (record sh { data_map = store key p sh.data_map }) key p
      step =
          inline_Step p pair
            (λ i. ap (λ (t : ℕ). in_word t i) (word_at-none key sh absent) ∙ in_word-zero i)

  module _ (word : ℕ) (present : find key sh.data_map ≡ some word) (pair : IsPair word) where
    no_block : (i : ℕ) → in_word (word_at key sh.data_map) i ≡ 0
    no_block i =
        ap (λ (t : ℕ). in_word t i) (word_at-find key sh word present) ∙ in_word-pair word i pair

    before :
        (r : ℕ) → lookup sh key r ≡ (if (unpack word).0 == r then some (unpack word).1 else none)
    before r = lookup-some sh key r word present ∙ weight_in-pair sh.slab word r pair

    pairs_before : contents sh key ≡ unpack word ∷ []
    pairs_before = contents-some sh key word present ∙ word_pairs-pair sh.slab word pair

    pub same_class-Adds :
        ((unpack word).0 == rep) ≡ true
        → Adds key rep weight sh (record sh {
          data_map = store key (pack rep (add64 (unpack word).1 weight)) sh.data_map;
        })
    same_class-Adds same = record {
      valid = Step-IsValid sh _ key p v step;
      self =
          Step-self sh _ key p v step rep
          ∙ weight_in-pair sh.slab p rep pair'
          ∙ rw (unpack-pack rep total ok, ==_self rep, now) (ap some exact);
      other_class = λ r ne.
          Step-self sh _ key p v step r
          ∙ weight_in-pair sh.slab p r pair'
          ∙ rw (unpack-pack rep total ok, before r) (ground (arith, ==→≡ (unpack word).0 rep same));
      other_key = λ k r ne. Step-other sh _ key p v step k r ne;
      held =
          contents_self sh _ key p v step
          ∙ word_pairs-pair sh.slab p pair'
          ∙ rw (unpack-pack rep total ok, exact, pairs_before) (unfold add_pair in rw same refl);
      keys = store-KeysKept key p sh.data_map;
      other_held = λ k ne. contents_other sh _ key p v step k ne;
      grows = omega arith;
    }
      where
        total : ℕ
        total = add64 (unpack word).1 weight

        now : lookup sh key rep ≡ some (unpack word).1
        now = before rep ∙ rw same refl

        bound : (unpack word).1 + weight < 2 ^ 56
        bound = rw now at c.small

        exact : total ≡ (unpack word).1 + weight
        exact = omega (arith, bound)

        ok : Fits rep total
        ok = (omega (arith, c.tag), omega (arith, exact, bound))

        p : ℕ
        p = pack rep total

        pair' : IsPair p
        pair' = pack-IsPair rep total ok (omega (arith, exact, c.positive))

        step : Step sh (record sh { data_map = store key p sh.data_map }) key p
        step = inline_Step p pair' no_block

pub not_in_block : (idx size i : ℕ) → in_block idx size i ≡ 0 → (i < idx) ⊎ (idx + size ≤ i)
not_in_block idx size i h = ground arith

-- A block from `alloc_block` lies inside the slab, and takes no position that was in use.
module _ (sh : CacheShard) (v : IsValid sh) (k : ℕ) (r : ℕ × CacheShard)
    (a : Allocated sh k r) where
  pub alloc_inside : (i : ℕ) → in_block r.0 (capacity_for k) i ≡ 1 → i < length r.1.slab
  alloc_inside i inside = ground (arith, a.cover i, v.covered i)

  pub alloc_outside :
      (i : ℕ)
      → i < length sh.slab
      → cover_free 0 sh.free i ≡ 0
      → in_block r.0 (capacity_for k) i ≡ 0
  alloc_outside i lt unused = ground (arith, a.cover i, a.longer)

pub capacity_two : capacity_for 2 ≡ 2
unfolding capacity_for
capacity_two = refl

module _ (key rep weight : ℕ) (sh : CacheShard) (v : IsValid sh)
    (c : Contract key rep weight sh) where
  module _ (word : ℕ) (present : find key sh.data_map ≡ some word) (pair : IsPair word)
      (other : ((unpack word).0 == rep) ≡ false) where
    abbrev grown : ℕ × CacheShard
    grown = alloc_block sh (capacity_for min_block_cap)

    abbrev promoted : CacheShard
    promoted = record (grown.1) {
      slab = set (set grown.1.slab grown.0 word) (grown.0 + 1) (pack rep weight);
      data_map = store key (make_ref min_block_cap grown.0) grown.1.data_map;
    }

    a : Allocated sh 2 grown
    a = alloc_block-Allocated sh 2 (Capacity-of 2 (omega arith) (omega arith)) v.seven

    second : grown.0 + 1 < length grown.1.slab
    second = alloc_inside sh v 2 grown a (grown.0 + 1) (rw capacity_two (ground arith))

    small_idx : grown.0 < 2 ^ 56
    small_idx = omega (arith, second, a.at_most, c.addressable)

    pair' : IsPair (pack rep weight)
    pair' = pack-IsPair rep weight (fits key rep weight sh v c) c.positive

    slot_0 : get_or promoted.slab grown.0 0 ≡ word
    slot_0 =
        get_or-set_ne _ (grown.0 + 1) grown.0 (pack rep weight) 0 (omega arith)
        ∙ get_or-set_self grown.1.slab grown.0 word 0 (omega (arith, second))

    slot_1 : get_or promoted.slab (grown.0 + 1) 0 ≡ pack rep weight
    slot_1 =
        get_or-set_self (set grown.1.slab grown.0 word) (grown.0 + 1) (pack rep weight) 0
          (rw (length-set grown.1.slab grown.0 word) second)

    promoted-Pairs : Pairs promoted.slab grown.0 2
    promoted-Pairs j lo hi = elim (Bool-cases (grown.0 == j)) [
      | inl e ↦ rw (← ==→≡ grown.0 j e, slot_0) pair
      | inr e ↦ let next : j ≡ grown.0 + 1 = ground arith in rw (next, slot_1) pair'
    ]

    promoted-length : length promoted.slab ≡ length grown.1.slab
    promoted-length =
        length-set (set grown.1.slab grown.0 word) (grown.0 + 1) (pack rep weight)
        ∙ length-set grown.1.slab grown.0 word

    step : Step sh promoted key (make_ref 2 grown.0)
    step = record {
      seven = a.seven ∙ v.seven;
      finds = λ k.
          ap (λ (d : Data). find k (store key (make_ref 2 grown.0) d)) a.data_map
          ∙ find-store sh.data_map key k (make_ref 2 grown.0);
      data_cover = λ i.
          ap
            (λ (d : Data).
              cover_data (store key (make_ref 2 grown.0) d) i + in_word (word_at key sh.data_map) i)
            a.data_map
          ∙ cover_data-store sh.data_map key (make_ref 2 grown.0) i;
      free_cover = λ i.
          let same : room promoted.slab i ≡ room grown.1.slab i =
            ap (λ (n : ℕ). if ltb i n then 1 else 0) promoted-length in
          omega (arith, same, a.cover i, in_word-ref 2 grown.0 i (omega arith) small_idx);
      kept = λ i lt none unused.
          let out =
            not_in_block grown.0 (capacity_for 2) i (alloc_outside sh v 2 grown a i lt unused) in
          get_or-set_ne _ (grown.0 + 1) i (pack rep weight) 0 (omega (arith, capacity_two))
          ∙ get_or-set_ne grown.1.slab grown.0 i word 0 (omega (arith, capacity_two))
          ∙ a.kept i lt;
      new_ok = block 2 grown.0 refl (omega arith) (omega arith) small_idx promoted-Pairs;
    }

    scan_two :
        (r : ℕ)
        → weight_in promoted.slab (make_ref 2 grown.0) r ≡ (
            if (unpack word).0 == r
            then some (unpack word).1
            else if rep == r
            then some weight
            else none)
    unfolding find_weight
    scan_two r =
        let e : grown.0 + 1 ≡ suc grown.0 = omega arith in
        let slot_1' : get_or promoted.slab (suc grown.0) 0 ≡ pack rep weight =
          ap (λ (j : ℕ). get_or promoted.slab j 0) (sym e) ∙ slot_1 in
        weight_in-ref promoted.slab 2 grown.0 r (omega arith) small_idx
        ∙ rw (slot_0, slot_1', unpack-pack rep weight (fits key rep weight sh v c)) refl

    pairs_two : word_pairs promoted.slab (make_ref 2 grown.0) ≡ unpack word ∷ (rep, weight) ∷ []
    unfolding slot_pairs
    pairs_two =
        let e : suc grown.0 ≡ grown.0 + 1 = omega arith in
        word_pairs-ref promoted.slab 2 grown.0 (omega arith) small_idx
        ∙ rw (e, slot_0, slot_1, unpack-pack rep weight (fits key rep weight sh v c)) refl

    pub promote-Adds : Adds key rep weight sh promoted
    promote-Adds = record {
      valid = Step-IsValid sh promoted key (make_ref 2 grown.0) v step;
      self =
          Step-self sh promoted key (make_ref 2 grown.0) v step rep
          ∙ scan_two rep
          ∙ rw (before key rep weight sh v c word present pair rep) (ground (arith, ==_self rep));
      other_class = λ r ne.
          Step-self sh promoted key (make_ref 2 grown.0) v step r
          ∙ scan_two r
          ∙ rw (before key rep weight sh v c word present pair r) (ground arith);
      other_key = λ k r ne. Step-other sh promoted key (make_ref 2 grown.0) v step k r ne;
      held =
          contents_self sh promoted key (make_ref 2 grown.0) v step
          ∙ pairs_two
          ∙ rw (pairs_before key rep weight sh v c word present pair)
              (unfold add_pair in rw other refl);
      keys = rw a.data_map (store-KeysKept key (make_ref 2 grown.0) sh.data_map);
      other_held = λ k ne. contents_other sh promoted key (make_ref 2 grown.0) v step k ne;
      grows = omega (arith, a.at_most, promoted-length);
    }
