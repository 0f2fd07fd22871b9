-- ===== src/Cache/Pack.antt =====
-- cache/cache.go, `pack`, `unpack`, `makeRef`, `slabParts` and the tag bit: the stored words.
use Prim.Native.Nat.{bit_and, bit_or}
use knighttour.Prelude.{ℕ, ◌+◌, ◌-◌, ◌*◌, ◌/◌, ◌%◌, ◌^◌, ◌<◌}
use knighttour.Prelude.{
  ◌≡◌, ◌≢◌, refl, ap, ◌∙◌, ◌==◌, if◌then◌else◌, true, false, arith, inl, inr, Bool-cases, ==→≡,
}
use knighttour.Words.Digits.{
  digit, digit-lt, digit-zero, digit-bit_and, digit-pow, digit-high, digit_ext, bit_and-lt_right,
}
use knighttour.Words.Fields.{bit_or_fields, bit_and_mask, digit-fields}
use knighttour.Cache.{pack, unpack, make_ref, slab_parts, is_inline}

-- The writer's contract: the class tag leaves bit 63 clear, and the weight has its 56 bits.
abbrev pub Fits : ℕ → ℕ → Type 0
Fits rep weight = (rep < 128) × (weight < 2 ^ 56)

pub pack-eq : (rep weight : ℕ) → Fits rep weight → pack rep weight ≡ rep * 2 ^ 56 + weight
unfolding pack
pack-eq rep weight h =
    let e : rep * 2 ^ 56 % 2 ^ 64 ≡ rep * 2 ^ 56 = omega arith in
    rw e (bit_or_fields 56 rep weight h.1)

pub unpack-eq : (p : ℕ) → unpack p ≡ (p / 2 ^ 56 % 256, p % 2 ^ 56)
unfolding unpack
unpack-eq p = rw (bit_and_mask 56 p)

-- A packed pair reads back.
pub unpack-pack : (rep weight : ℕ) → Fits rep weight → unpack (pack rep weight) ≡ (rep, weight)
unpack-pack rep weight h =
    rw (pack-eq rep weight h, unpack-eq (rep * 2 ^ 56 + weight)) (ground arith)

tag_and : (x : ℕ) → bit_and x (2 ^ 63) ≡ (if digit x 63 == 1 then 2 ^ 63 else 0)
tag_and x = elim (Bool-cases (digit x 63 == 1)) [
  | inl on ↦ rw on (
      digit_ext 64 _ _ (bit_and-lt_right 64 x (2 ^ 63) (omega arith)) (omega arith)
        λ i lt. ground (arith, digit-bit_and x (2 ^ 63) i, digit-pow 63 i, ==→≡ _ 1 on))
  | inr off ↦ rw off (
      digit_ext 64 _ _ (bit_and-lt_right 64 x (2 ^ 63) (omega arith)) (omega arith) λ i lt.
        ground (arith, digit-bit_and x (2 ^ 63) i, digit-pow 63 i, digit-zero i, digit-lt x 63))
]

is_inline-digit : (x : ℕ) → is_inline x ≡ (if digit x 63 == 1 then false else true)
unfolding is_inline
is_inline-digit x = rw (tag_and x) (ground arith)

pub is_inline-pack : (rep weight : ℕ) → Fits rep weight → is_inline (pack rep weight) ≡ true
is_inline-pack rep weight h =
    rw
      (
        is_inline-digit (pack rep weight),
        digit-high 63 (pack rep weight) 63 (omega (arith, pack-eq rep weight h)) (omega arith),
      )
      refl

make_ref-eq : (k idx : ℕ) → k < 128 → idx < 2 ^ 56 → make_ref k idx ≡ (128 + k) * 2 ^ 56 + idx
unfolding make_ref
make_ref-eq k idx hk hi =
    let e : k * 2 ^ 56 % 2 ^ 64 ≡ k * 2 ^ 56 = omega arith in
    let top : bit_or (2 ^ 63) (k * 2 ^ 56) ≡ (128 + k) * 2 ^ 56 =
      bit_or_fields 63 1 (k * 2 ^ 56) (omega arith) ∙ omega arith in
    let low : bit_and idx (2 ^ 56 - 1) ≡ idx = bit_and_mask 56 idx ∙ omega arith in
    rw (e, top, low) (bit_or_fields 56 (128 + k) idx hi)

-- A slab reference reads back.
pub slab_parts-make_ref :
    (k idx : ℕ) → k < 128 → idx < 2 ^ 56 → slab_parts (make_ref k idx) ≡ (k, idx)
unfolding slab_parts
slab_parts-make_ref k idx hk hi =
    rw
      (
        make_ref-eq k idx hk hi,
        bit_and_mask 7 (((128 + k) * 2 ^ 56 + idx) / 2 ^ 56),
        bit_and_mask 56 ((128 + k) * 2 ^ 56 + idx),
      )
      (ground arith)

pub is_inline-make_ref : (k idx : ℕ) → k < 128 → idx < 2 ^ 56 → is_inline (make_ref k idx) ≡ false
is_inline-make_ref k idx hk hi =
    let e : make_ref k idx ≡ 1 * 2 ^ 63 + (k * 2 ^ 56 + idx) =
      make_ref-eq k idx hk hi ∙ omega arith in
    let top : digit (make_ref k idx) 63 ≡ 1 =
      ap (λ (t : ℕ). digit t 63) e
      ∙ digit-fields 63 1 (k * 2 ^ 56 + idx) 63 (omega arith)
      ∙ (unfold digit in refl) in
    rw (is_inline-digit (make_ref k idx), top) refl

pub make_ref-ne-zero : (k idx : ℕ) → k < 128 → idx < 2 ^ 56 → make_ref k idx ≢ 0
make_ref-ne-zero k idx hk hi = omega (arith, make_ref-eq k idx hk hi)

pub pack-ne-zero : (rep weight : ℕ) → Fits rep weight → 0 < weight → pack rep weight ≢ 0
pack-ne-zero rep weight h pos = omega (arith, pack-eq rep weight h)

-- A stored pair: bit 63 clear, and a weight that is not 0.
abbrev pub IsPair : ℕ → Type 0
IsPair p = (p < 2 ^ 63) × (0 < p % 2 ^ 56)

pub pack-IsPair : (rep weight : ℕ) → Fits rep weight → 0 < weight → IsPair (pack rep weight)
pack-IsPair rep weight h pos = omega (arith, pack-eq rep weight h)

pub IsPair-is_inline : (p : ℕ) → IsPair p → is_inline p ≡ true
IsPair-is_inline p h = rw (is_inline-digit p, digit-high 63 p 63 h.0 (omega arith)) refl

-- The two forms of a stored word do not mix and read back: a packed pair of a tag below 128 and a
-- weight below 2 ^ 56 is inline and unpacks to the pair, a reference to fewer than 128 classes
-- at an index below 2 ^ 56 is not inline, is not 0, and splits into its parts.
pub stored_word_forms :
    (rep weight k idx : ℕ)
    → rep < 128
    → weight < 2 ^ 56
    → k < 128
    → idx < 2 ^ 56
    → (is_inline (pack rep weight) ≡ true)
      × (unpack (pack rep weight) ≡ (rep, weight))
      × (is_inline (make_ref k idx) ≡ false)
      × (make_ref k idx ≢ 0)
      × (slab_parts (make_ref k idx) ≡ (k, idx))
stored_word_forms rep weight k idx hr hw hk hi = (
  is_inline-pack rep weight (hr, hw),
  unpack-pack rep weight (hr, hw),
  is_inline-make_ref k idx hk hi,
  make_ref-ne-zero k idx hk hi,
  slab_parts-make_ref k idx hk hi,
)
