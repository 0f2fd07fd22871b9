-- ===== src/Cache/Table.antt =====
-- cache/cache.go, `Cache.Set` and the sealed view: the whole table.
use knighttour.Prelude.{
  ℕ, zero, suc, ◌+◌, ◌≤◌, ◌<◌, ◌==◌, if◌then◌else◌, true, false, arith, Bool-cases, ==→≡, ==→≢,
  ==_self,
}
use knighttour.Prelude.{
  ◌≡◌, ◌≢◌, refl, sym, ap, ◌∙◌, inl, inr, Option, none, some, Option-cases, List, [], length,
  get_or, set,
}
use knighttour.Prelude.{replicate, length-set, length-replicate, get_or-set_self, get_or-set_ne}
use knighttour.State.{State}
use knighttour.Cache.{
  CacheShard, Cache, num_shards, shard_index, find, add, empty_shard, new_cache, set_weight, seal,
  view_get, value_weight,
}
use knighttour.Cache.Slots.{or_zero}
use knighttour.Cache.Blocks.{cover_data-empty, cover_free-empty}
use knighttour.Cache.Shard.{contents, contents-none, lookup, lookup-none, lookup-some}
use package.knighttour.Cache.Shard
use knighttour.Cache.Inline.{Adds, Contract}
use knighttour.Cache.Keys.{key_count}
use knighttour.Cache.Contents.{add_pair}
use knighttour.Cache.Classes.{HasClasses, HasClasses-empty, add_pair-HasClasses, HasClasses-length}
use knighttour.Cache.Add.{add-Adds}

-- What a reader of the sealed table finds: `Get`, then `Weight`.
unfoldable pub read : Cache → State → ℕ → Option ℕ
read c key rep = elim (view_get (seal c) key) [ none ↦ none | some val ↦ value_weight val rep ]

abbrev pub shard_of : Cache → State → CacheShard
shard_of c key = get_or c.shards (shard_index key) empty_shard

-- The pairs of a mask's record.
abbrev pub held : Cache → State → List (ℕ × ℕ)
held c key = contents (shard_of c key) key

pub record IsValid (c : Cache) : Type 0 where
  pub all : length c.shards ≡ num_shards
  pub shards : (key : State) → Shard.IsValid (shard_of c key)
  pub placed :
      (j : ℕ) (k : State)
      → key_count k (get_or c.shards j empty_shard).data_map ≤ (if shard_index k == j then 1 else 0)
  pub classes : (key : State) → HasClasses (held c key)

shard_index-lt : (key : State) → shard_index key < num_shards
unfolding shard_index
shard_index-lt key = omega arith

pub read-lookup : (c : Cache) (key rep : ℕ) → read c key rep ≡ lookup (shard_of c key) key rep
unfolding read view_get seal
read-lookup c key rep = elim (Option-cases (find key (shard_of c key).data_map)) [
  | inl e ↦ rw (e, read, view_get, seal) (sym (lookup-none (shard_of c key) key rep e))
  | inr (w, e) ↦ rw (e, read, view_get, seal) (sym (lookup-some (shard_of c key) key rep w e))
]

nothing_found : (k w : ℕ) → find k [] ≢ some w
unfolding find
nothing_found k w e = cc e

empty_shard-IsValid : Shard.IsValid empty_shard
empty_shard-IsValid = record {
  seven = refl;
  covered = λ i. omega (arith, cover_data-empty i, cover_free-empty 7 0 i);
  words = λ k w e. absurd (nothing_found k w e);
}

pub get_or-replicate : {A : Type 0} (n i : ℕ) (a : A) → get_or (replicate n a) i a ≡ a
get_or-replicate zero i a = refl
get_or-replicate (suc n) zero a = refl
get_or-replicate (suc n) (suc i) a = get_or-replicate n i a

-- The table that `NewCache` makes is valid.
pub new_cache-IsValid : IsValid new_cache
unfolding new_cache
new_cache-IsValid = record {
  all = length-replicate num_shards empty_shard;
  shards =
      λ key. rw (get_or-replicate num_shards (shard_index key) empty_shard) empty_shard-IsValid;
  placed = λ j k. rw (get_or-replicate num_shards j empty_shard) (unfold key_count in omega arith);
  classes = λ key.
      rw
        (
          get_or-replicate num_shards (shard_index key) empty_shard,
          contents-none empty_shard key (unfold find in refl),
        )
        HasClasses-empty;
}

module _ (c : Cache) (v : IsValid c) (key : State) (sh : CacheShard) where
  -- The table with one shard replaced.
  abbrev after : Cache
  after = record { shards = set c.shards (shard_index key) sh }

  same_shard : (k : State) → shard_index k ≡ shard_index key → shard_of after k ≡ sh
  same_shard k e =
      ap (λ t. get_or after.shards t empty_shard) e
      ∙ get_or-set_self c.shards (shard_index key) sh empty_shard
          (omega (arith, v.all, shard_index-lt key))

  other_shard : (k : State) → shard_index k ≢ shard_index key → shard_of after k ≡ shard_of c k
  other_shard k ne =
      get_or-set_ne c.shards (shard_index key) (shard_index k) sh empty_shard (λ e. ne (sym e))

  -- What the table holds after a contribution to the shard.
  held-after :
      (rep weight : ℕ)
      → Adds key rep weight (shard_of c key) sh
      → (k : State) → held after k ≡ (if key == k then add_pair rep weight (held c k) else held c k)
  held-after rep weight h k = elim (Bool-cases (shard_index k == shard_index key)) [
    | inr apart ↦
        let ne = ==→≢ _ _ apart in
        let other : (key == k) ≡ false = elim (Bool-cases (key == k)) [
          | inl self ↦ absurd (ne (ap shard_index (sym (==→≡ key k self))))
          | inr o ↦ o
        ] in
        ap (λ t. contents t k) (other_shard k ne) ∙ rw other refl
    | inl e ↦
        let same = ==→≡ _ _ e in
        let there : shard_of c key ≡ shard_of c k =
          ap (λ t. get_or c.shards t empty_shard) (sym same) in
        ap (λ t. contents t k) (same_shard k same) ∙ elim (Bool-cases (key == k)) [
          | inl self ↦ let k_key = ==→≡ key k self in rw self (rw (← k_key) h.held)
          | inr other ↦ rw other (h.other_held k (==→≢ key k other) ∙ ap (λ t. contents t k) there)
        ]
  ]

  placed_here :
      (rep weight : ℕ)
      → Adds key rep weight (shard_of c key) sh
      → (j k : ℕ) → j ≡ shard_index key
      → key_count k (get_or after.shards j empty_shard).data_map
        ≤ (if shard_index k == j then 1 else 0)
  placed_here rep weight h j k e =
      let now : get_or after.shards j empty_shard ≡ sh =
        ap (λ t. get_or after.shards t empty_shard) e ∙ same_shard key refl in
      let old = v.placed (shard_index key) k in
      rw (now, e)
        (elim (Bool-cases (key == k)) [
          | inl self ↦
              let home : (shard_index k == shard_index key) ≡ true =
                rw (==→≡ key k self) (==_self (shard_index k)) in
              ground (arith, h.keys k, old, home)
          | inr other ↦ ground (arith, h.keys k, old, other)
        ])

  after-IsValid :
      (rep weight : ℕ) → rep < 64 → Adds key rep weight (shard_of c key) sh → IsValid after
  after-IsValid rep weight lt h = record {
    all = length-set c.shards (shard_index key) sh ∙ v.all;
    shards = λ k. elim (Bool-cases (shard_index k == shard_index key)) [
      | inl e ↦ rw (same_shard k (==→≡ _ _ e)) h.valid
      | inr ne ↦ rw (other_shard k (==→≢ _ _ ne)) (v.shards k)
    ];
    placed = λ j k. elim (Bool-cases (j == shard_index key)) [
      | inl e ↦ placed_here rep weight h j k (==→≡ _ _ e)
      | inr ne ↦
          rw (get_or-set_ne c.shards (shard_index key) j sh empty_shard (λ e. ==→≢ _ _ ne (sym e)))
            (v.placed j k)
    ];
    classes = λ k. rw (held-after rep weight h k) (elim (Bool-cases (key == k)) [
      | inl self ↦ rw self (add_pair-HasClasses rep weight (held c k) lt (v.classes k))
      | inr other ↦ rw other (v.classes k)
    ]);
  }

  -- A mask that reads the same in the new shard reads the same in the table.
  read_kept :
      (k r : ℕ)
      → (shard_index k ≡ shard_index key → lookup sh k r ≡ lookup (shard_of c key) k r)
      → read after k r ≡ read c k r
  read_kept k r kept =
      read-lookup after k r
      ∙ elim (Bool-cases (shard_index k == shard_index key)) [
        | inl e ↦
            let same = ==→≡ _ _ e in
            ap (λ t. lookup t k r) (same_shard k same)
            ∙ kept same
            ∙ ap (λ t. lookup (get_or c.shards t empty_shard) k r) (sym same)
        | inr ne ↦ ap (λ t. lookup t k r) (other_shard k (==→≢ _ _ ne))
      ]
      ∙ sym (read-lookup c k r)

set_weight-Adds :
    (c : Cache) (key rep weight : ℕ)
    → IsValid c
    → Contract key rep weight (shard_of c key)
    → Adds key rep weight (shard_of c key) (add (shard_of c key) key rep weight)
set_weight-Adds c key rep weight v contract =
    add-Adds key rep weight (shard_of c key) (v.shards key) contract (
      HasClasses-length _
        (add_pair-HasClasses rep weight (held c key) contract.tag (v.classes key)))

-- What the table holds after `Set`: the contribution is in its mask's record, and the slab of no shard
-- has grown by more than 64 words.
pub held-set_weight :
    (c : Cache) (key rep weight : ℕ)
    → IsValid c
    → Contract key rep weight (shard_of c key)
    → ((k : State)
        → held (set_weight c key rep weight) k
          ≡ (if key == k then add_pair rep weight (held c k) else held c k))
      × ((k : State)
          → length (shard_of (set_weight c key rep weight) k).slab
            ≤ length (shard_of c k).slab + 64)
unfolding set_weight
held-set_weight c key rep weight v contract =
    let nonzero : (weight == 0) ≡ false = ground (arith, contract.positive) in
    let sh = add (shard_of c key) key rep weight in
    let h = set_weight-Adds c key rep weight v contract in
    rw nonzero (
      held-after c v key sh rep weight h,
      λ k. elim (Bool-cases (shard_index k == shard_index key)) [
        | inl e ↦
            let same = ==→≡ _ _ e in
            let there : shard_of c k ≡ shard_of c key =
              ap (λ t. get_or c.shards t empty_shard) same in
            rw (same_shard c v key sh k same, there) h.grows
        | inr ne ↦ rw (other_shard c v key sh k (==→≢ _ _ ne)) (omega arith)
      ],
    )

-- `Set` on a valid table, where the contribution keeps to the writer's contract, gives a valid
-- table: the contribution is added to what a reader finds for its class, and no other class and no
-- other mask reads differently.
pub read-set_weight :
    (c : Cache) (key rep weight : ℕ)
    → IsValid c
    → Contract key rep weight (shard_of c key)
    → IsValid (set_weight c key rep weight)
      × (read (set_weight c key rep weight) key rep ≡ some (or_zero (read c key rep) + weight))
      × ((r : ℕ) → r ≢ rep → read (set_weight c key rep weight) key r ≡ read c key r)
      × ((k r : ℕ) → k ≢ key → read (set_weight c key rep weight) k r ≡ read c k r)
unfolding set_weight
read-set_weight c key rep weight v contract =
    let nonzero : (weight == 0) ≡ false = ground (arith, contract.positive) in
    let sh = add (shard_of c key) key rep weight in
    let h = set_weight-Adds c key rep weight v contract in
    rw nonzero (
      after-IsValid c v key sh rep weight contract.tag h,
      read-lookup _ key rep
          ∙ ap (λ t. lookup t key rep) (same_shard c v key sh key refl)
          ∙ h.self
          ∙ ap (λ t. some (or_zero t + weight)) (sym (read-lookup c key rep)),
      λ r ne. read_kept c v key sh key r (λ _. h.other_class r ne),
      λ k r ne. read_kept c v key sh k r (λ _. h.other_key k r (λ e. ne (sym e))),
    )
