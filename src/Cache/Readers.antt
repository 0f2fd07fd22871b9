-- ===== src/Cache/Readers.antt =====
-- cache/cache.go, `Value.Weight`: a reader finds for a class the pairs that the record holds for it.
use knighttour.Prelude.{
  ℕ, zero, suc, ◌≤◌, ◌==◌, Option-cases, List, [], ◌∷◌, get_or, Bool-cases, ==→≡,
}
use knighttour.Prelude.{◌≡◌, refl, inl, inr, arith}
use knighttour.Cache.{Cache, unpack, is_inline, slab_parts, find_weight, value_weight, find}
use knighttour.Cache.Contents.{slot_pairs, word_pairs}
use knighttour.Cache.Classes.{pair_total, pair_count, HasClasses}
use knighttour.Cache.Slots.{or_zero}
use knighttour.Cache.Shard.{weight_in, lookup-none, lookup-some, contents-none, contents-some}
use package.knighttour.Cache.Table
use knighttour.Cache.Table.{read, held, shard_of, read-lookup}

pair_total-absent : (r : ℕ) (ps : List (ℕ × ℕ)) → pair_count r ps ≡ 0 → pair_total r ps ≡ 0
unfolding pair_total pair_count
pair_total-absent r [] e = refl
pair_total-absent r ((q, w) ∷ ps) e = ground (arith, pair_total-absent r ps)

pair_total-find_weight :
    (k i r : ℕ) (slab : List ℕ)
    → pair_count r (slot_pairs i k slab) ≤ 1
    → pair_total r (slot_pairs i k slab) ≡ or_zero (find_weight i k r slab)
unfolding pair_total pair_count slot_pairs find_weight
pair_total-find_weight zero i r slab once = refl
pair_total-find_weight (suc k) i r slab once =
    elim (Bool-cases ((unpack (get_or slab i 0)).0 == r)) [
      | inl here ↦
          let rest : pair_total r (slot_pairs (suc i) k slab) ≡ 0 =
            pair_total-absent r _ (ground (arith, once, here)) in
          rw (here, rest) (omega arith)
      | inr later ↦
          let rest = pair_total-find_weight k (suc i) r slab (ground (arith, once, later)) in
          rw later (omega (arith, rest))
    ]

pair_total-weight_in :
    (slab : List ℕ) (w r : ℕ)
    → pair_count r (word_pairs slab w) ≤ 1
    → pair_total r (word_pairs slab w) ≡ or_zero (weight_in slab w r)
unfolding word_pairs value_weight
pair_total-weight_in slab w r once = elim (Bool-cases (w == 0)) [
  | inl e ↦ rw (==→≡ w 0 e) (unfold is_inline unpack pair_total in ground arith)
  | inr e ↦ elim (Bool-cases (is_inline w)) [
    | inl one ↦ rw (e, one) (unfold pair_total in ground arith)
    | inr many ↦
        rw (e, many)
          (pair_total-find_weight (slab_parts w).0 (slab_parts w).1 r slab (rw many at once))
  ]
]

-- What a reader of a valid table finds for a class of a mask.
pub pair_total-read :
    (c : Cache) (key r : ℕ) → Table.IsValid c → pair_total r (held c key) ≡ or_zero (read c key r)
unfolding HasClasses
pair_total-read c key r v =
    let sh = shard_of c key in
    let once = (v.classes key).0 r in
    elim (Option-cases (find key sh.data_map)) [
      | inl e ↦
          rw (contents-none sh key e, read-lookup c key r, lookup-none sh key r e)
            (unfold pair_total in refl)
      | inr (w, e) ↦
          rw (contents-some sh key w e, read-lookup c key r, lookup-some sh key r w e)
            (pair_total-weight_in sh.slab w r (rw (contents-some sh key w e) at once))
    ]
