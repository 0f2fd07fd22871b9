-- ===== src/Cache/Slab.antt =====
-- cache/cache.go, `addSlab`: contributions into the slot of a class, or behind the live slots.
use knighttour.Prelude.{ℕ, suc, ◌+◌, ◌-◌, ◌^◌, ◌≤◌, ◌<◌, ◌==◌, ltb, if◌then◌else◌}
use knighttour.Prelude.{◌≡◌, refl, sym, ap, ◌∙◌, inl, inr, arith, Bool-cases, ==→≡, ==_self}
use knighttour.Prelude.{
  Option, none, some, List, length, get_or, set, length-set, get_or-set_self, get_or-set_ne,
}
use knighttour.Cache.{
  CacheShard, find, store, word_at, pack, make_ref, capacity_for, find_weight, add_in_slots,
}
use knighttour.Cache.Pack.{unpack-pack, pack-IsPair}
use knighttour.Cache.Keys.{store-KeysKept, same-KeysKept}
use knighttour.Cache.Contents.{
  slot_pairs, word_pairs-ref, add_pair, slot_pairs-Agree, slot_pairs-snoc, slot_pairs-absent,
  slot_pairs-add_in_slots,
}
use knighttour.Cache.Slots.{
  Pairs, or_zero, or_else, find_weight-Agree, find_weight-snoc, Added, add_in_slots-none,
  add_in_slots-Added,
}
use knighttour.Cache.Blocks.{
  in_block, in_word, cover_data-store, cover_free, room, find-store, in_word-le,
}
use knighttour.Cache.Capacity.{Capacity, Capacity-of}
use knighttour.Cache.Shard.{
  contents, contents-some, contents_self, contents_other, block, IsValid, lookup, lookup-some,
  weight_in-ref, in_word-ref, Step, Step-IsValid, Step-self, Step-other, word_at-find,
}
use knighttour.Cache.Inline.{Adds, Contract, fits, not_in_block}

-- A record with a block of `k` classes at `idx`.
pub record HasBlock (key : ℕ) (sh : CacheShard) (k idx : ℕ) : Type 0 where
  pub present : find key sh.data_map ≡ some (make_ref k idx)
  pub two : 2 ≤ k
  pub most : k ≤ 64
  pub small_idx : idx < 2 ^ 56
  pub pairs : Pairs sh.slab idx k

module _ (key rep weight : ℕ) (sh : CacheShard) (v : IsValid sh) (c : Contract key rep weight sh)
    (k idx : ℕ) (h : HasBlock key sh k idx) where
  pub block_before : (r : ℕ) → lookup sh key r ≡ find_weight idx k r sh.slab
  block_before r =
      lookup-some sh key r (make_ref k idx) h.present
      ∙ weight_in-ref sh.slab k idx r h.most h.small_idx

  pub old_word : (i : ℕ) → in_word (word_at key sh.data_map) i ≡ in_block idx (capacity_for k) i
  old_word i =
      ap (λ (t : ℕ). in_word t i) (word_at-find key sh (make_ref k idx) h.present)
      ∙ in_word-ref k idx i h.most h.small_idx

  pub block_inside :
      (i : ℕ)
      → in_block idx (capacity_for k) i ≡ 1
      → (i < length sh.slab) × (cover_free 0 sh.free i ≡ 0)
  block_inside i inside =
      let le = in_word-le sh.data_map key (make_ref k idx) i h.present in
      let e = in_word-ref k idx i h.most h.small_idx in
      (ground (arith, v.covered i), ground (arith, v.covered i))

  pub fit : Capacity k
  fit = Capacity-of k (omega (arith, h.two)) h.most

  pub block_end : idx + k ≤ length sh.slab
  block_end =
      let last =
        (block_inside (idx + k - 1)
          (live (idx + k - 1) (omega (arith, h.two)) (omega (arith, h.two, fit.enough)))).0 in
      omega (arith, last, h.two)
    where
      live : (i : ℕ) → idx ≤ i → i < idx + capacity_for k → in_block idx (capacity_for k) i ≡ 1
      live i lo hi = ground arith

  pub pairs_before : contents sh key ≡ slot_pairs idx k sh.slab
  pairs_before =
      contents-some sh key (make_ref k idx) h.present
      ∙ word_pairs-ref sh.slab k idx h.most h.small_idx

  -- The slots that hold no pair of the class, moved or not, with a new pair behind them.
  pub pairs_after :
      (slab : List ℕ) (i : ℕ)
      → slot_pairs i k slab ≡ slot_pairs idx k sh.slab
      → get_or slab (i + k) 0 ≡ pack rep weight
      → find_weight idx k rep sh.slab ≡ none
      → slot_pairs i (suc k) slab ≡ add_pair rep weight (contents sh key)
  pairs_after slab i same last none_yet =
      slot_pairs-snoc k i slab
      ∙ rw (same, last, unpack-pack rep weight (fits key rep weight sh v c), pairs_before)
          (sym (slot_pairs-absent k idx rep weight sh.slab none_yet))

  -- The class has a slot.
  pub slot-Adds :
      (slab' : List ℕ)
      → add_in_slots idx k rep weight sh.slab ≡ some slab'
      → Adds key rep weight sh (record sh { slab = slab' })
  slot-Adds slab' e = record {
    valid = Step-IsValid sh sh' key word v step;
    self = after rep ∙ rw (a.now, block_before rep, a.was) refl;
    other_class = λ r ne. after r ∙ a.others r ne ∙ sym (block_before r);
    other_key = λ j r ne. Step-other sh sh' key word v step j r ne;
    held =
        contents_self sh sh' key word v step
        ∙ word_pairs-ref slab' k idx h.most h.small_idx
        ∙ (slot_pairs-add_in_slots k idx rep weight sh.slab slab' (omega (arith, c.tag)) e block_end
            (rw (block_before rep) at c.small)).1
        ∙ ap (add_pair rep weight) (sym pairs_before);
    keys = same-KeysKept key sh.data_map;
    other_held = λ j ne. contents_other sh sh' key word v step j ne;
    grows = omega (arith, a.same_length);
  }
    where
      word : ℕ
      word = make_ref k idx

      sh' : CacheShard
      sh' = record sh { slab = slab' }

      a : Added idx k rep weight sh.slab slab'
      a =
          add_in_slots-Added rep weight (omega (arith, c.tag)) k idx sh.slab slab' e block_end
            h.pairs (rw (block_before rep) at c.small)

      step : Step sh sh' key word
      step = record {
        seven = v.seven;
        finds = λ j. elim (Bool-cases (key == j)) [
          | inl same ↦
              rw same (ap (λ (t : ℕ). find t sh.data_map) (sym (==→≡ key j same)) ∙ h.present)
          | inr other ↦ rw other
        ];
        data_cover =
            λ i. omega (arith, ap (λ (t : ℕ). in_word t i) (word_at-find key sh word h.present));
        free_cover = λ i.
            let same : room slab' i ≡ room sh.slab i =
              ap (λ (n : ℕ). if ltb i n then 1 else 0) a.same_length in
            omega (arith, same, ap (λ (t : ℕ). in_word t i) (word_at-find key sh word h.present));
        kept = λ i lt none unused. a.outside i (
            omega
              (arith, not_in_block idx (capacity_for k) i (sym (old_word i) ∙ none), fit.enough));
        new_ok = block k idx refl h.two h.most h.small_idx a.pairs;
      }

      after : (r : ℕ) → lookup sh' key r ≡ find_weight idx k r slab'
      after r = Step-self sh sh' key word v step r ∙ weight_in-ref slab' k idx r h.most h.small_idx

  -- A new pair behind `k` slots that hold no pair of its class.
  pub scan_new :
      (slab : List ℕ) (i : ℕ)
      → ((r : ℕ) → find_weight i k r slab ≡ find_weight idx k r sh.slab)
      → get_or slab (i + k) 0 ≡ pack rep weight
      → find_weight idx k rep sh.slab ≡ none
      → (r : ℕ)
      → find_weight i (suc k) r slab
        ≡ (if rep == r then some (or_zero (lookup sh key rep) + weight) else lookup sh key r)
  unfolding find_weight
  scan_new slab i same last none_yet r =
      find_weight-snoc k i r slab
      ∙ rw
          (
            same r,
            last,
            unpack-pack rep weight (fits key rep weight sh v c),
            block_before rep,
            block_before r,
            none_yet,
          )
          (elim (Bool-cases (rep == r)) [
            | inl e ↦ rw (e, ← ==→≡ rep r e, none_yet) (ap some (omega arith))
            | inr e ↦ rw e (right (find_weight idx k r sh.slab))
          ])
    where
      right : (o : Option ℕ) → or_else o none ≡ o
      right none = refl
      right (some w) = refl

  -- The capacity reserve has room.
  pub extend-Adds :
      add_in_slots idx k rep weight sh.slab ≡ none
      → capacity_for (k + 1) ≡ capacity_for k
      → k < 64
      → Adds key rep weight sh (record sh {
        slab = set sh.slab (idx + k) (pack rep weight);
        data_map = store key (make_ref (k + 1) idx) sh.data_map;
      })
  extend-Adds absent same_cap below = record {
    valid = Step-IsValid sh sh' key word v step;
    self = after rep ∙ ground (arith, ==_self rep);
    other_class = λ r ne. after r ∙ ground arith;
    other_key = λ j r ne. Step-other sh sh' key word v step j r ne;
    held =
        let e : k + 1 ≡ suc k = omega arith in
        contents_self sh sh' key word v step
        ∙ word_pairs-ref slab' (k + 1) idx (omega arith) h.small_idx
        ∙ rw e (
            pairs_after slab' idx (slot_pairs-Agree k idx sh.slab slab' before_last) last
              (add_in_slots-none k idx rep weight sh.slab absent));
    keys = store-KeysKept key word sh.data_map;
    other_held = λ j ne. contents_other sh sh' key word v step j ne;
    grows = omega (arith, length-set sh.slab (idx + k) (pack rep weight));
  }
    where
      word : ℕ
      word = make_ref (k + 1) idx

      slab' : List ℕ
      slab' = set sh.slab (idx + k) (pack rep weight)

      sh' : CacheShard
      sh' = record sh { slab = slab'; data_map = store key word sh.data_map }

      enough : k + 1 ≤ capacity_for k
      enough = omega (arith, (Capacity-of (k + 1) (omega arith) (omega arith)).enough, same_cap)

      slot : idx + k < length sh.slab
      slot = (block_inside (idx + k) (live (idx + k) (omega arith) (omega (arith, enough)))).0
        where
          live : (i : ℕ) → idx ≤ i → i < idx + capacity_for k → in_block idx (capacity_for k) i ≡ 1
          live i lo hi = ground arith

      last : get_or slab' (idx + k) 0 ≡ pack rep weight
      last = get_or-set_self sh.slab (idx + k) (pack rep weight) 0 slot

      before_last : (j : ℕ) → idx ≤ j → j < idx + k → get_or slab' j 0 ≡ get_or sh.slab j 0
      before_last j lo hi = get_or-set_ne sh.slab (idx + k) j (pack rep weight) 0 (omega arith)

      live-Pairs : Pairs slab' idx (k + 1)
      live-Pairs j lo hi = elim (Bool-cases (j == idx + k)) [
        | inl e ↦
            rw (==→≡ j (idx + k) e, last)
              (pack-IsPair rep weight (fits key rep weight sh v c) c.positive)
        | inr e ↦ let lt : j < idx + k = ground arith in rw (before_last j lo lt) (h.pairs j lo lt)
      ]

      step : Step sh sh' key word
      step = record {
        seven = v.seven;
        finds = λ j. find-store sh.data_map key j word;
        data_cover = λ i. cover_data-store sh.data_map key word i;
        free_cover = λ i.
            let same : room slab' i ≡ room sh.slab i =
              ap (λ (n : ℕ). if ltb i n then 1 else 0)
                (length-set sh.slab (idx + k) (pack rep weight)) in
            let new = in_word-ref (k + 1) idx i (omega arith) h.small_idx in
            let size = ap (λ (t : ℕ). in_block idx t i) same_cap in
            omega (arith, same, new, size, old_word i);
        kept = λ i lt none unused.
            get_or-set_ne sh.slab (idx + k) i (pack rep weight) 0 (
              omega (arith, not_in_block idx (capacity_for k) i (sym (old_word i) ∙ none), enough));
        new_ok = block (k + 1) idx refl (omega (arith, h.two)) (omega arith) h.small_idx live-Pairs;
      }

      after :
          (r : ℕ)
          → lookup sh' key r
            ≡ (if rep == r then some (or_zero (lookup sh key rep) + weight) else lookup sh key r)
      after r =
          let e : k + 1 ≡ suc k = omega arith in
          Step-self sh sh' key word v step r
          ∙ weight_in-ref slab' (k + 1) idx r (omega arith) h.small_idx
          ∙ rw e (
              scan_new slab' idx (λ q. find_weight-Agree k idx q sh.slab slab' before_last) last
                (add_in_slots-none k idx rep weight sh.slab absent) r)
