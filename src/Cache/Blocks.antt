-- ===== src/Cache/Blocks.antt =====
-- cache/cache.go: which slab positions the blocks take up, those that the map refers to and those
-- that wait in the free baskets. `allocBlock` and `freeBlock` move blocks between the two.
use knighttour.Prelude.{
  ℕ, zero, suc, ◌+◌, ◌^◌, ◌≤◌, ◌<◌, ◌==◌, ltb, leb, if◌then◌else◌, false, ◌&&◌,
}
use knighttour.Prelude.{◌≡◌, ◌≢◌, refl, ap, ◌∙◌, inl, inr, arith, Bool-cases, ==→≡}
use knighttour.Prelude.{
  some, List, [], ◌∷◌, ◌++◌, length, get_or, set, replicate, length-append, length-replicate,
  length-set, get_or-append,
}
use mathlib.Core.Path.{subst}
use knighttour.Cache.Capacity.{Capacity}
use knighttour.Cache.{
  CacheShard, Data, find, store, word_at, alloc_block, free_block, capacity_for, free_class,
  is_inline, slab_parts,
}

-- Position `i` lies in the block of `cap` words at `idx`.
abbrev pub in_block : ℕ → ℕ → ℕ → ℕ
in_block idx cap i = if leb idx i && ltb i (idx + cap) then 1 else 0

-- The block that a stored word refers to.
abbrev pub in_word : ℕ → ℕ → ℕ
in_word word i =
    if is_inline word then 0 else in_block (slab_parts word).1 (capacity_for (slab_parts word).0) i

pub cover_data : Data → ℕ → ℕ
cover_data [] i = 0
cover_data ((k, w) ∷ d) i = in_word w i + cover_data d i

abbrev pub cover_basket : ℕ → List ℕ → ℕ → ℕ
cover_basket cap [] i = 0
cover_basket cap (idx ∷ b) i = in_block idx cap i + cover_basket cap b i

-- The baskets from class `c` on.
pub cover_free : ℕ → List (List ℕ) → ℕ → ℕ
cover_free c [] i = 0
cover_free c (b ∷ bs) i = cover_basket (2 ^ c) b i + cover_free (suc c) bs i

-- Nothing is covered in an empty shard.
pub cover_data-empty : (i : ℕ) → cover_data [] i ≡ 0
unfolding cover_data
cover_data-empty i = refl

pub cover_free-empty : (n c i : ℕ) → cover_free c (replicate n []) i ≡ 0
unfolding cover_free
cover_free-empty zero c i = refl
cover_free-empty (suc n) c i = omega (arith, cover_free-empty n (suc c) i)

-- A basket taken at its own class.
cover_free-set :
    (bs : List (List ℕ)) (c j i : ℕ) (b : List ℕ)
    → j < length bs
    → cover_free c (set bs j b) i + cover_basket (2 ^ (c + j)) (get_or bs j []) i
      ≡ cover_free c bs i + cover_basket (2 ^ (c + j)) b i
unfolding cover_free
cover_free-set [] c j i b h = absurd (omega arith)
cover_free-set (x ∷ bs) c zero i b h = let e : c + 0 ≡ c = omega arith in rw e (omega arith)
cover_free-set (x ∷ bs) c (suc j) i b h =
    let e : c + suc j ≡ suc c + j = omega arith in
    rw e (omega (arith, cover_free-set bs (suc c) j i b (omega arith)))

cover_free-set_at :
    (bs : List (List ℕ)) (j i : ℕ) (b : List ℕ) (size : ℕ)
    → j < length bs
    → 2 ^ j ≡ size
    → cover_free 0 (set bs j b) i + cover_basket size (get_or bs j []) i
      ≡ cover_free 0 bs i + cover_basket size b i
cover_free-set_at bs j i b size h e =
    subst
      (λ t.
        cover_free 0 (set bs j b) i + cover_basket t (get_or bs j []) i
        ≡ cover_free 0 bs i + cover_basket t b i)
      (ap (λ (t : ℕ). 2 ^ t) (omega arith) ∙ e) (cover_free-set bs 0 j i b h)

-- One for a position of the slab.
abbrev pub room : List ℕ → ℕ → ℕ
room slab i = if ltb i (length slab) then 1 else 0

-- The block that `alloc_block` hands out was free, or is new at the end of the slab.
pub record Allocated (sh : CacheShard) (k : ℕ) (r : ℕ × CacheShard) : Type 0 where
  pub data_map : r.1.data_map ≡ sh.data_map
  pub seven : length r.1.free ≡ length sh.free
  pub longer : length sh.slab ≤ length r.1.slab
  pub at_most : length r.1.slab ≤ length sh.slab + 64
  pub kept : (i : ℕ) → i < length sh.slab → get_or r.1.slab i 0 ≡ get_or sh.slab i 0
  pub cover :
      (i : ℕ)
      → cover_free 0 r.1.free i + in_block r.0 (capacity_for k) i + room sh.slab i
        ≡ cover_free 0 sh.free i + room r.1.slab i

pub alloc_block-Allocated :
    (sh : CacheShard) (k : ℕ)
    → Capacity k
    → length sh.free ≡ 7
    → Allocated sh k (alloc_block sh (capacity_for k))
unfolding alloc_block
alloc_block-Allocated sh k fit seven = go (get_or sh.free c []) refl
  where
    size : ℕ
    size = capacity_for k

    c : ℕ
    c = free_class size

    go :
        (b : List ℕ)
        → get_or sh.free c [] ≡ b
        → Allocated sh k (elim b [
          | idx ∷ rest ↦ (idx, record sh { free = set sh.free c rest })
          | [] ↦ (length sh.slab, record sh { slab = sh.slab ++ replicate size 0 })
        ])
    go [] e = record {
      data_map = refl;
      seven = refl;
      longer = omega (arith, length-append sh.slab (replicate size 0));
      at_most = omega (
        arith,
        fit.bounded,
        length-append sh.slab (replicate size 0),
        length-replicate {A = ℕ} size 0,
      );
      kept = λ i h. get_or-append sh.slab (replicate size 0) i 0 h;
      cover = λ i.
          ground (arith, length-append sh.slab (replicate size 0), length-replicate {A = ℕ} size 0);
    }
    go (idx ∷ rest) e = record {
      data_map = refl;
      seven = length-set sh.free c rest;
      longer = omega arith;
      at_most = omega arith;
      kept = λ i h. refl;
      cover = λ i.
          let moved =
            cover_free-set_at sh.free c i rest size (omega (arith, fit.class_lt)) fit.power in
          omega (arith, rw e at moved);
    }

-- `free_block` gives the block to the baskets, and touches nothing else.
pub free_block-cover :
    (sh : CacheShard) (idx k i : ℕ)
    → Capacity k
    → length sh.free ≡ 7
    → cover_free 0 (free_block sh idx (capacity_for k)).free i
      ≡ cover_free 0 sh.free i + in_block idx (capacity_for k) i
unfolding free_block
free_block-cover sh idx k i fit seven =
    let c = free_class (capacity_for k) in
    omega (
      arith,
      cover_free-set_at sh.free c i (idx ∷ get_or sh.free c []) (capacity_for k)
          (omega (arith, fit.class_lt)) fit.power,
    )

pub some_word : (a b : ℕ) → some a ≡ some b → a ≡ b
some_word a b e = cc

-- Word 0, a missing key, refers to no block.
pub in_word-zero : (i : ℕ) → in_word 0 i ≡ 0
in_word-zero i = unfold is_inline in refl

-- What a stored word covers stands in the cover of the map, once for each of two keys.
pub in_word-le : (d : Data) (k w i : ℕ) → find k d ≡ some w → in_word w i ≤ cover_data d i
unfolding find cover_data
in_word-le [] k w i e = cc
in_word-le ((j, v) ∷ d) k w i e = elim (Bool-cases (j == k)) [
  | inl same ↦ omega (
    arith,
    some_word v w (rw same at e),
    ap (λ (t : ℕ). in_word t i) (some_word v w (rw same at e)),
  )
  | inr other ↦ omega (arith, in_word-le d k w i (rw other at e))
]

pub in_word-two :
    (d : Data) (k k' w w' i : ℕ)
    → k ≢ k'
    → find k d ≡ some w
    → find k' d ≡ some w'
    → in_word w i + in_word w' i ≤ cover_data d i
unfolding find cover_data
in_word-two [] k k' w w' i ne e e' = cc
in_word-two ((j, v) ∷ d) k k' w w' i ne e e' = elim (Bool-cases (j == k)) [
  | inl same ↦
      let f : (j == k') ≡ false = ground (arith, ==→≡ j k same) in
      omega (
        arith,
        ap (λ (t : ℕ). in_word t i) (some_word v w (rw same at e)),
        in_word-le d k' w' i (rw f at e'),
      )
  | inr other ↦ elim (Bool-cases (j == k')) [
    | inl same ↦ omega (
      arith,
      ap (λ (t : ℕ). in_word t i) (some_word v w' (rw same at e')),
      in_word-le d k w i (rw other at e),
    )
    | inr f ↦ omega (arith, in_word-two d k k' w w' i ne (rw other at e) (rw f at e'))
  ]
]

word_at-nil : (k : ℕ) → word_at k [] ≡ 0
unfolding word_at find
word_at-nil k = refl

word_at-cons : (j k v : ℕ) (d : Data) → word_at k ((j, v) ∷ d) ≡ (if j == k then v else word_at k d)
unfolding word_at find
word_at-cons j k v d = elim (Bool-cases (j == k)) [
  | inl same ↦ rw (same, word_at) refl
  | inr other ↦ rw (other, word_at) refl
]

-- Storing a word exchanges the old block of the key for the new one.
pub cover_data-store :
    (d : Data) (k w i : ℕ)
    → cover_data (store k w d) i + in_word (word_at k d) i ≡ cover_data d i + in_word w i
unfolding cover_data store
cover_data-store [] k w i = rw (word_at-nil k) (omega (arith, in_word-zero i))
cover_data-store ((j, v) ∷ d) k w i = rw (word_at-cons j k v d) (elim (Bool-cases (j == k)) [
  | inl same ↦ rw same (omega arith)
  | inr other ↦ rw other (omega (arith, cover_data-store d k w i))
])

pub find-store :
    (d : Data) (k k' w : ℕ) → find k' (store k w d) ≡ (if k == k' then some w else find k' d)
unfolding find store
find-store [] k k' w = refl
find-store ((j, v) ∷ d) k k' w = ground (arith, find-store d k k' w)
