-- ===== src/Cache/Add.antt =====
-- cache/cache.go, `add` with all its branches: one contribution to a shard.
use knighttour.Prelude.{ℕ, ◌+◌, ◌≤◌, ◌<◌, ◌==◌, false}
use knighttour.Prelude.{◌≡◌, ap, ◌∙◌, inl, inr, arith, Bool-cases, Option-cases, ==→≡}
use knighttour.Prelude.{none, some}
use knighttour.Cache.{
  CacheShard, find, make_ref, unpack, capacity_for, add_in_slots, add, add_inline, add_slab,
  add_block,
}
use knighttour.Cache.Pack.{
  IsPair, IsPair-is_inline, is_inline-make_ref, make_ref-ne-zero, slab_parts-make_ref,
}
use knighttour.Prelude.{[], ◌∷◌, length, length-append}
use knighttour.Cache.Shard.{contents, WordOk, inline, block, IsValid, word_at-find, word_at-none}
use knighttour.Cache.Inline.{Adds, Contract, fresh-Adds, same_class-Adds, promote-Adds}
use knighttour.Cache.Contents.{slot_pairs, length-slot_pairs, slot_pairs-absent, add_pair}
use knighttour.Cache.Slots.{add_in_slots-none}
use knighttour.Cache.Slab.{HasBlock, pairs_before, slot-Adds, extend-Adds}
use knighttour.Cache.Relocate.{relocate-Adds}

module _ (key rep weight : ℕ) (sh : CacheShard) (v : IsValid sh) (c : Contract key rep weight sh)
    (below : length (add_pair rep weight (contents sh key)) ≤ 64) where
  -- A class that has no slot finds room for one.
  room_left :
      (k idx : ℕ) → HasBlock key sh k idx → add_in_slots idx k rep weight sh.slab ≡ none → k < 64
  room_left k idx h e =
      let ps = slot_pairs idx k sh.slab in
      let now =
        ap (λ t. length (add_pair rep weight t)) (pairs_before key rep weight sh v c k idx h)
        ∙ ap length (
            slot_pairs-absent k idx rep weight sh.slab
              (add_in_slots-none k idx rep weight sh.slab e))
        ∙ length-append ps ((rep, weight) ∷ []) in
      omega (arith, now, length-slot_pairs k idx sh.slab, below)

  add_block-Adds :
      (k idx : ℕ)
      → HasBlock key sh k idx
      → Adds key rep weight sh (add_block sh key k idx rep weight)
  unfolding add_block
  add_block-Adds k idx h = elim (Option-cases (add_in_slots idx k rep weight sh.slab)) [
    | inr (slab', e) ↦ rw (e, add_block) (slot-Adds key rep weight sh v c k idx h slab' e)
    | inl e ↦
        let lt = room_left k idx h e in
        rw (e, add_block)
          (elim (Bool-cases (capacity_for (k + 1) == capacity_for k)) [
            | inl same ↦ rw same (extend-Adds key rep weight sh v c k idx h e (==→≡ _ _ same) lt)
            | inr more ↦ rw more (relocate-Adds key rep weight sh v c k idx h lt e)
          ])
  ]

  block-Adds :
      (k idx : ℕ)
      → HasBlock key sh k idx
      → Adds key rep weight sh (add_slab sh key (make_ref k idx) rep weight)
  unfolding add_slab
  block-Adds k idx h =
      rw (slab_parts-make_ref k idx (omega (arith, h.most)) h.small_idx) (add_block-Adds k idx h)

  inline-Adds :
      (word : ℕ)
      → find key sh.data_map ≡ some word
      → IsPair word
      → Adds key rep weight sh (add_inline sh key word rep weight)
  unfolding add_inline
  inline-Adds word e pair = elim (Bool-cases ((unpack word).0 == rep)) [
    | inl same ↦ rw same (same_class-Adds key rep weight sh v c word e pair same)
    | inr other ↦ rw other (promote-Adds key rep weight sh v c word e pair other)
  ]

  present-Adds :
      (word : ℕ)
      → find key sh.data_map ≡ some word
      → WordOk sh.slab word
      → Adds key rep weight sh (add sh key rep weight)
  unfolding add
  present-Adds word e (inline pair) =
      let nonzero : (word == 0) ≡ false = ground arith in
      rw (word_at-find key sh word e, nonzero, IsPair-is_inline word pair) (inline-Adds word e pair)
  present-Adds word e (block k idx r two most small pairs) =
      let ref = make_ref k idx in
      let present : find key sh.data_map ≡ some ref = e ∙ ap some r in
      let nonzero : (ref == 0) ≡ false =
        ground (arith, make_ref-ne-zero k idx (omega arith) small) in
      let tagged = is_inline-make_ref k idx (omega arith) small in
      rw (word_at-find key sh ref present, nonzero, tagged)
        (block-Adds k idx
          (record { present = present; two = two; most = most; small_idx = small; pairs = pairs }))

  -- Every branch of `add`: the contribution is in the sum of its class, no other sum changes.
  pub add-Adds : Adds key rep weight sh (add sh key rep weight)
  add-Adds = elim (Option-cases (find key sh.data_map)) [
    | inl absent ↦
        unfold add in rw (word_at-none key sh absent) (fresh-Adds key rep weight sh v c absent)
    | inr (word, e) ↦ present-Adds word e (v.words key word e)
  ]
