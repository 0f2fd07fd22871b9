-- ===== src/Cache/Contents.antt =====
-- cache/cache.go: what a record holds, as a list of classes with their weights: an abstract view of
-- the stored word and of its block.
use knighttour.Prelude.{
  ℕ, zero, suc, ◌+◌, ◌^◌, ◌≤◌, ◌<◌, ◌==◌, if◌then◌else◌, none, some, List, [], ◌∷◌, ◌++◌, length,
  get_or, set, get_or-set_self, get_or-set_ne,
}
use knighttour.Prelude.{◌≡◌, refl, ap, inl, inr, arith, Bool-cases}
use knighttour.Cache.{
  pack, unpack, add64, slab_parts, is_inline, make_ref, add_in_slots, find_weight,
}
use knighttour.Cache.Pack.{
  Fits, IsPair, IsPair-is_inline, unpack-pack, is_inline-make_ref, slab_parts-make_ref,
}
use knighttour.Cache.Slots.{Agree, or_zero}

-- The pairs in the `k` slots from `i` on.
unfoldable pub slot_pairs : ℕ → ℕ → List ℕ → List (ℕ × ℕ)
slot_pairs i zero slab = []
slot_pairs i (suc k) slab = unpack (get_or slab i 0) ∷ slot_pairs (suc i) k slab

-- The pairs of a stored word.
unfoldable pub word_pairs : List ℕ → ℕ → List (ℕ × ℕ)
word_pairs slab w =
    if is_inline w then unpack w ∷ [] else let (k, idx) = slab_parts w in slot_pairs idx k slab

-- A contribution, without any layout: to the class's pair, or a new pair at the end.
unfoldable pub add_pair : ℕ → ℕ → List (ℕ × ℕ) → List (ℕ × ℕ)
add_pair rep weight [] = (rep, weight) ∷ []
add_pair rep weight ((r, w) ∷ ps) =
    let rest = add_pair rep weight ps in if r == rep then (rep, w + weight) ∷ ps else (r, w) ∷ rest

pub word_pairs-pair : (slab : List ℕ) (p : ℕ) → IsPair p → word_pairs slab p ≡ unpack p ∷ []
unfolding word_pairs
word_pairs-pair slab p h = rw (IsPair-is_inline p h) refl

pub word_pairs-ref :
    (slab : List ℕ) (k idx : ℕ)
    → k ≤ 64
    → idx < 2 ^ 56
    → word_pairs slab (make_ref k idx) ≡ slot_pairs idx k slab
unfolding word_pairs
word_pairs-ref slab k idx most small =
    rw (is_inline-make_ref k idx (omega arith) small, slab_parts-make_ref k idx (omega arith) small)
      refl

pub slot_pairs-moved :
    (k src dst : ℕ) (slab out : List ℕ)
    → ((j : ℕ) → j < k → get_or out (dst + j) 0 ≡ get_or slab (src + j) 0)
    → slot_pairs dst k out ≡ slot_pairs src k slab
unfolding slot_pairs
slot_pairs-moved zero src dst slab out same = refl
slot_pairs-moved (suc k) src dst slab out same =
    let d : dst + 0 ≡ dst = omega arith in
    let s : src + 0 ≡ src = omega arith in
    let first : get_or out dst 0 ≡ get_or slab src 0 = rw (d, s) at (same 0 (omega arith)) in
    let rest = slot_pairs-moved k (suc src) (suc dst) slab out λ j lt.
      let d' : suc dst + j ≡ dst + suc j = omega arith in
      let s' : suc src + j ≡ src + suc j = omega arith in
      rw (d', s') (same (suc j) (omega arith)) in
    rw (first, rest) refl

pub slot_pairs-Agree :
    (k i : ℕ) (slab slab' : List ℕ)
    → Agree slab slab' i k
    → slot_pairs i k slab' ≡ slot_pairs i k slab
slot_pairs-Agree k i slab slab' same =
    slot_pairs-moved k i i slab slab' (λ j lt. same (i + j) (omega arith) (omega arith))

pub length-slot_pairs : (k i : ℕ) (slab : List ℕ) → length (slot_pairs i k slab) ≡ k
unfolding slot_pairs
length-slot_pairs zero i slab = refl
length-slot_pairs (suc k) i slab = ap suc (length-slot_pairs k (suc i) slab)

-- One slot more.
pub slot_pairs-snoc :
    (k i : ℕ) (slab : List ℕ)
    → slot_pairs i (suc k) slab ≡ slot_pairs i k slab ++ unpack (get_or slab (i + k) 0) ∷ []
unfolding slot_pairs
slot_pairs-snoc zero i slab = let e : i + 0 ≡ i = omega arith in rw e refl
slot_pairs-snoc (suc k) i slab =
    let e : i + suc k ≡ suc i + k = omega arith in
    rw e (ap (λ t. unpack (get_or slab i 0) ∷ t) (slot_pairs-snoc k (suc i) slab))

some_list : (a b : List ℕ) → some a ≡ some b → a ≡ b
some_list a b e = cc

-- The slots of a class that has none: the pair goes to the end.
pub slot_pairs-absent :
    (k i rep weight : ℕ) (slab : List ℕ)
    → find_weight i k rep slab ≡ none
    → add_pair rep weight (slot_pairs i k slab) ≡ slot_pairs i k slab ++ (rep, weight) ∷ []
unfolding slot_pairs add_pair find_weight
slot_pairs-absent zero i rep weight slab e = refl
slot_pairs-absent (suc k) i rep weight slab e =
    elim (Bool-cases ((unpack (get_or slab i 0)).0 == rep)) [
      | inl here ↦ let bad : some (unpack (get_or slab i 0)).1 ≡ none = rw here at e in cc bad
      | inr later ↦ rw later (
          ap (λ t. unpack (get_or slab i 0) ∷ t)
            (slot_pairs-absent k (suc i) rep weight slab (rw later at e)))
    ]

-- The slots of a class that has one.
pub slot_pairs-add_in_slots :
    (k i rep weight : ℕ) (slab slab' : List ℕ)
    → rep < 128
    → add_in_slots i k rep weight slab ≡ some slab'
    → i + k ≤ length slab
    → or_zero (find_weight i k rep slab) + weight < 2 ^ 56
    → ((j : ℕ) → j < i → get_or slab' j 0 ≡ get_or slab j 0)
      × (slot_pairs i k slab' ≡ add_pair rep weight (slot_pairs i k slab))
unfolding slot_pairs add_pair add_in_slots find_weight
slot_pairs-add_in_slots zero i rep weight slab slab' tag e room small = cc
slot_pairs-add_in_slots (suc k) i rep weight slab slab' tag e room small =
    elim (Bool-cases ((unpack (get_or slab i 0)).0 == rep)) [
      | inl here ↦
          let old = (unpack (get_or slab i 0)).1 in
          let v = pack rep (add64 old weight) in
          let bound : old + weight < 2 ^ 56 = rw here at small in
          let exact : add64 old weight ≡ old + weight = omega (arith, bound) in
          let fits : Fits rep (old + weight) = (tag, bound) in
          let written : get_or (set slab i v) i 0 ≡ v = get_or-set_self slab i v 0 (omega arith) in
          let rest =
            slot_pairs-Agree k (suc i) slab (set slab i v)
              (λ j lo hi. get_or-set_ne slab i j v 0 (omega arith)) in
          rw (← some_list _ slab' (rw here at e)) (
            λ j lt. get_or-set_ne slab i j v 0 (omega arith),
            rw (written, rest, exact, unpack-pack rep (old + weight) fits, here) refl,
          )
      | inr later ↦
          let (before, rest) =
            slot_pairs-add_in_slots k (suc i) rep weight slab slab' tag (rw later at e)
              (omega arith) (rw later at small) in
          (
            λ j lt. before j (omega arith),
            rw (before i (omega arith), later) (ap (λ t. unpack (get_or slab i 0) ∷ t) rest),
          )
    ]
