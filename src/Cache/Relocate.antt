-- ===== src/Cache/Relocate.antt =====
-- cache/cache.go, `relocate`: a full block moves to a larger one.
use knighttour.Prelude.{ℕ, zero, suc, ◌+◌, ◌-◌, ◌^◌, ◌≤◌, ◌<◌, ◌==◌, ltb, if◌then◌else◌}
use knighttour.Prelude.{◌≡◌, refl, sym, ap, ◌∙◌, ◌⊎◌, inl, inr, arith, Bool-cases, ==→≡, ==_self}
use knighttour.Prelude.{
  none, some, List, length, get_or, set, length-set, get_or-set_self, get_or-set_ne,
}
use knighttour.Cache.{
  CacheShard, Data, find, store, word_at, pack, make_ref, capacity_for, find_weight, add_in_slots,
  copy_words, alloc_block, free_block, relocate,
}
use knighttour.Cache.Pack.{pack-IsPair}
use knighttour.Cache.Slots.{Pairs, or_zero, add_in_slots-none}
use knighttour.Cache.Blocks.{
  in_block, in_word, cover_data, cover_data-store, room, find-store, Allocated,
  alloc_block-Allocated, free_block-cover,
}
use knighttour.Cache.Capacity.{Capacity, Capacity-of}
use mathlib.Core.Path.{subst}
use knighttour.Cache.Keys.{KeysKept, store-KeysKept}
use knighttour.Cache.Contents.{slot_pairs, word_pairs-ref, add_pair, slot_pairs-moved}
use knighttour.Cache.Shard.{
  contents, contents_self, contents_other, block, IsValid, lookup, weight_in-ref, in_word-ref, Step,
  Step-IsValid, Step-self, Step-other,
}
use knighttour.Cache.Inline.{Adds, Contract, fits, not_in_block, alloc_inside, alloc_outside}
use knighttour.Cache.Slab.{HasBlock, old_word, block_inside, fit, block_end, scan_new, pairs_after}

-- `copy` between two stretches of the slab that do not meet.
record Copied (dst src k : ℕ) (slab out : List ℕ) : Type 0 where
  same_length : length out ≡ length slab
  copied : (j : ℕ) → j < k → get_or out (dst + j) 0 ≡ get_or slab (src + j) 0
  elsewhere : (i : ℕ) → (i < dst) ⊎ (dst + k ≤ i) → get_or out i 0 ≡ get_or slab i 0

copy_words-Copied :
    (k dst src : ℕ) (slab : List ℕ)
    → dst + k ≤ length slab
    → (dst + k ≤ src) ⊎ (src + k ≤ dst)
    → Copied dst src k slab (copy_words dst src k slab)
unfolding copy_words
copy_words-Copied zero dst src slab room apart = record {
  same_length = refl;
  copied = λ j lt. absurd (omega arith);
  elsewhere = λ i h. refl;
}
copy_words-Copied (suc k) dst src slab room apart =
    let v = get_or slab src 0 in
    let rest =
      copy_words-Copied k (suc dst) (suc src) (set slab dst v)
        (rw (length-set slab dst v) (omega arith)) (ground arith) in
    record {
      same_length = rest.same_length ∙ length-set slab dst v;
      copied = λ j lt. elim (Bool-cases (j == 0)) [
        | inl e ↦
            let zero_j = ==→≡ j 0 e in
            let d : dst + j ≡ dst = omega arith in
            let s : src + j ≡ src = omega arith in
            rw (d, s)
              (rest.elsewhere dst (inl (omega arith)) ∙ get_or-set_self slab dst v 0 (omega arith))
        | inr e ↦
            let d : dst + j ≡ suc dst + (j - 1) = ground arith in
            let s : src + j ≡ suc src + (j - 1) = ground arith in
            rw (d, s)
              (rest.copied (j - 1) (ground arith)
                ∙ get_or-set_ne slab dst (suc src + (j - 1)) v 0 (ground arith))
      ];
      elsewhere =
          λ i h. rest.elsewhere i (ground arith) ∙ get_or-set_ne slab dst i v 0 (ground arith);
    }

-- A scan depends on the words alone, not on where they stand.
find_weight-moved :
    (k src dst q : ℕ) (slab out : List ℕ)
    → ((j : ℕ) → j < k → get_or out (dst + j) 0 ≡ get_or slab (src + j) 0)
    → find_weight dst k q out ≡ find_weight src k q slab
unfolding find_weight
find_weight-moved zero src dst q slab out same = refl
find_weight-moved (suc k) src dst q slab out same =
    let d : dst + 0 ≡ dst = omega arith in
    let s : src + 0 ≡ src = omega arith in
    let first : get_or out dst 0 ≡ get_or slab src 0 = rw (d, s) at (same 0 (omega arith)) in
    let rest = find_weight-moved k (suc src) (suc dst) q slab out λ j lt.
      let d' : suc dst + j ≡ dst + suc j = omega arith in
      let s' : suc src + j ≡ src + suc j = omega arith in
      rw (d', s') (same (suc j) (omega arith)) in
    rw (first, rest) refl

module _ (key rep weight : ℕ) (sh : CacheShard) (v : IsValid sh) (c : Contract key rep weight sh)
    (k idx : ℕ) (h : HasBlock key sh k idx) (below : k < 64) where
  abbrev grown : ℕ × CacheShard
  grown = alloc_block sh (capacity_for (k + 1))

  bigger : Capacity (k + 1)
  bigger = Capacity-of (k + 1) (omega arith) (omega arith)

  a : Allocated sh (k + 1) grown
  a = alloc_block-Allocated sh (k + 1) bigger v.seven

  live : (start size i : ℕ) → start ≤ i → i < start + size → in_block start size i ≡ 1
  live start size i lo hi = ground arith

  -- The new block lies in the slab, and does not meet the old one.
  new_inside : grown.0 + (k + 1) ≤ length grown.1.slab
  new_inside =
      let last = alloc_inside sh v (k + 1) grown a (grown.0 + k) (
        live grown.0 (capacity_for (k + 1)) (grown.0 + k) (omega arith)
          (omega (arith, bigger.enough))) in
      omega (arith, last)

  new_apart : (i : ℕ) → idx ≤ i → i < idx + k → (i < grown.0) ⊎ (grown.0 + capacity_for (k + 1) ≤ i)
  new_apart i lo hi =
      let (lt, unused) = block_inside key rep weight sh v c k idx h i (
        live idx (capacity_for k) i lo
          (omega (arith, (fit key rep weight sh v c k idx h).enough))) in
      not_in_block grown.0 (capacity_for (k + 1)) i (alloc_outside sh v (k + 1) grown a i lt unused)

  -- Two stretches of which the first has none of its points in the second, from a shorter one.
  disjoint : (grown.0 + k ≤ idx) ⊎ (idx + k ≤ grown.0)
  disjoint =
      let two = h.two in
      let wide = bigger.enough in
      let first = new_apart idx (omega arith) (omega arith) in
      let last = new_apart (idx + k - 1) (omega arith) (omega arith) in ground arith

  abbrev out : List ℕ
  out = copy_words grown.0 idx k grown.1.slab

  copied : Copied grown.0 idx k grown.1.slab out
  copied = copy_words-Copied k grown.0 idx grown.1.slab (omega (arith, new_inside)) disjoint

  abbrev slab' : List ℕ
  slab' = set out (grown.0 + k) (pack rep weight)

  slab'-length : length slab' ≡ length grown.1.slab
  slab'-length = length-set out (grown.0 + k) (pack rep weight) ∙ copied.same_length

  last_slot : get_or slab' (grown.0 + k) 0 ≡ pack rep weight
  last_slot =
      get_or-set_self out (grown.0 + k) (pack rep weight) 0
        (omega (arith, copied.same_length, new_inside))

  live_slot : (j : ℕ) → j < k → get_or slab' (grown.0 + j) 0 ≡ get_or sh.slab (idx + j) 0
  live_slot j lt =
      get_or-set_ne out (grown.0 + k) (grown.0 + j) (pack rep weight) 0 (omega arith)
      ∙ copied.copied j lt
      ∙ a.kept (idx + j) (omega (arith, block_end key rep weight sh v c k idx h))

  small_idx : grown.0 < 2 ^ 56
  small_idx = omega (arith, new_inside, a.at_most, c.addressable)

  live-Pairs : Pairs slab' grown.0 (k + 1)
  live-Pairs j lo hi = elim (Bool-cases (j == grown.0 + k)) [
    | inl e ↦
        rw (==→≡ j (grown.0 + k) e, last_slot)
          (pack-IsPair rep weight (fits key rep weight sh v c) c.positive)
    | inr e ↦
        let lt : j - grown.0 < k = ground arith in
        let there : j ≡ grown.0 + (j - grown.0) = omega arith in
        rw (there, live_slot (j - grown.0) lt)
          (h.pairs (idx + (j - grown.0)) (omega arith) (omega arith))
  ]

  abbrev word : ℕ
  word = make_ref (k + 1) grown.0

  -- The scan of the copy finds what the scan of the old block found.
  scan_copy : (q : ℕ) → find_weight grown.0 k q slab' ≡ find_weight idx k q sh.slab
  scan_copy q = find_weight-moved k idx grown.0 q sh.slab slab' live_slot

  -- The shard between the copy and the store.
  abbrev copied_shard : CacheShard
  copied_shard = record (grown.1) { slab = slab' }

  abbrev freed : CacheShard
  freed = free_block copied_shard idx (capacity_for k)

  abbrev moved_shard : CacheShard
  moved_shard = record freed { data_map = store key word freed.data_map }

  freed_same : (freed.slab ≡ slab') × (freed.data_map ≡ sh.data_map) × (length freed.free ≡ 7)
  unfolding free_block
  freed_same = (refl, a.data_map, length-set grown.1.free _ _ ∙ a.seven ∙ v.seven)

  relocate_Step : Step sh moved_shard key word
  relocate_Step = record {
    seven = freed_same.2;
    finds = λ j.
        ap (λ (d : Data). find j (store key word d)) freed_same.1
        ∙ find-store sh.data_map key j word;
    data_cover = λ i.
        ap (λ (d : Data). cover_data (store key word d) i + in_word (word_at key sh.data_map) i)
          freed_same.1
        ∙ cover_data-store sh.data_map key word i;
    free_cover = λ i.
        let same : room freed.slab i ≡ room grown.1.slab i =
          ap (λ (n : ℕ). if ltb i n then 1 else 0) (ap length freed_same.0 ∙ slab'-length) in
        let new = in_word-ref (k + 1) grown.0 i (omega arith) small_idx in
        let back =
          free_block-cover copied_shard idx k i (fit key rep weight sh v c k idx h)
            (a.seven ∙ v.seven) in
        omega (arith, same, new, back, a.cover i, old_word key rep weight sh v c k idx h i);
    kept = λ i lt none unused.
        let out_new =
          not_in_block grown.0 (capacity_for (k + 1)) i
            (alloc_outside sh v (k + 1) grown a i lt unused) in
        ap (λ (s : List ℕ). get_or s i 0) freed_same.0
        ∙ get_or-set_ne out (grown.0 + k) i (pack rep weight) 0
            (omega (arith, out_new, bigger.enough))
        ∙ copied.elsewhere i (omega (arith, out_new, bigger.enough))
        ∙ a.kept i lt;
    new_ok =
        rw freed_same.0
          (block (k + 1) grown.0 refl (omega (arith, h.two)) (omega arith) small_idx live-Pairs);
  }

  after_move :
      add_in_slots idx k rep weight sh.slab ≡ none
      → (r : ℕ)
      → lookup moved_shard key r
        ≡ (if rep == r then some (or_zero (lookup sh key rep) + weight) else lookup sh key r)
  after_move absent r =
      let e : k + 1 ≡ suc k = omega arith in
      Step-self sh moved_shard key word v relocate_Step r
      ∙ weight_in-ref freed.slab (k + 1) grown.0 r (omega arith) small_idx
      ∙ ap (λ (n : ℕ). find_weight grown.0 n r freed.slab) e
      ∙ ap (λ (s : List ℕ). find_weight grown.0 (suc k) r s) freed_same.0
      ∙ scan_new key rep weight sh v c k idx h slab' grown.0 scan_copy last_slot
          (add_in_slots-none k idx rep weight sh.slab absent) r

  pairs_moved :
      add_in_slots idx k rep weight sh.slab ≡ none
      → contents moved_shard key ≡ add_pair rep weight (contents sh key)
  pairs_moved absent =
      let e : k + 1 ≡ suc k = omega arith in
      contents_self sh moved_shard key word v relocate_Step
      ∙ word_pairs-ref freed.slab (k + 1) grown.0 (omega arith) small_idx
      ∙ ap (λ (n : ℕ). slot_pairs grown.0 n freed.slab) e
      ∙ ap (λ (s : List ℕ). slot_pairs grown.0 (suc k) s) freed_same.0
      ∙ pairs_after key rep weight sh v c k idx h slab' grown.0
          (slot_pairs-moved k idx grown.0 sh.slab slab' live_slot) last_slot
          (add_in_slots-none k idx rep weight sh.slab absent)

  pub relocate-Adds :
      add_in_slots idx k rep weight sh.slab ≡ none
      → Adds key rep weight sh (relocate sh key idx k rep weight)
  unfolding relocate
  relocate-Adds absent = record {
    valid = Step-IsValid sh moved_shard key word v relocate_Step;
    self = after_move absent rep ∙ ground (arith, ==_self rep);
    other_class = λ r ne. after_move absent r ∙ ground arith;
    other_key = λ j r ne. Step-other sh moved_shard key word v relocate_Step j r ne;
    held = pairs_moved absent;
    keys =
        subst (λ (d : Data). KeysKept key sh.data_map (store key word d)) (sym freed_same.1)
          (store-KeysKept key word sh.data_map);
    other_held = λ j ne. contents_other sh moved_shard key word v relocate_Step j ne;
    grows = omega (arith, ap length freed_same.0, slab'-length, a.at_most);
  }
