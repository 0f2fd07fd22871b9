-- ===== src/Cache/Slots.antt =====
-- cache/cache.go, `addInSlots` and `findWeight`: the slots of one block.
use knighttour.Prelude.{ℕ, zero, suc, ◌+◌, ◌^◌, ◌≤◌, ◌<◌, ◌==◌, true, false}
use knighttour.Prelude.{◌≡◌, ◌≢◌, refl, ap, ◌⊎◌, inl, inr, arith, Bool-cases, ==→≡, ==→≢, ==_self}
use knighttour.Prelude.{
  Option, none, some, List, length, get_or, set, length-set, get_or-set_self, get_or-set_ne,
}
use mathlib.Core.Path.{subst}
use knighttour.Cache.{pack, unpack, add64, add_in_slots, find_weight}
use knighttour.Cache.Pack.{Fits, IsPair, unpack-eq, unpack-pack, pack-IsPair}

abbrev pub or_zero : Option ℕ → ℕ
or_zero none = 0
or_zero (some w) = w

abbrev pub or_else : Option ℕ → Option ℕ → Option ℕ
or_else none o = o
or_else (some w) o = some w

-- The words in `[i, i + k)` are pairs.
abbrev pub Pairs : List ℕ → ℕ → ℕ → Type 0
Pairs slab i k = (j : ℕ) → i ≤ j → j < i + k → IsPair (get_or slab j 0)

-- Two slabs agree on `[i, i + k)`.
abbrev pub Agree : List ℕ → List ℕ → ℕ → ℕ → Type 0
Agree slab slab' i k = (j : ℕ) → i ≤ j → j < i + k → get_or slab' j 0 ≡ get_or slab j 0

pub find_weight-Agree :
    (k i rep : ℕ) (slab slab' : List ℕ)
    → Agree slab slab' i k
    → find_weight i k rep slab' ≡ find_weight i k rep slab
unfolding find_weight
find_weight-Agree zero i rep slab slab' same = refl
find_weight-Agree (suc k) i rep slab slab' same =
    rw
      (
        same i (omega arith) (omega arith),
        find_weight-Agree k (suc i) rep slab slab' (λ j lo hi. same j (omega arith) (omega arith)),
      )
      refl

-- A scan of one slot more.
pub find_weight-snoc :
    (k i rep : ℕ) (slab : List ℕ)
    → find_weight i (suc k) rep slab
      ≡ or_else (find_weight i k rep slab) (find_weight (i + k) 1 rep slab)
unfolding find_weight
find_weight-snoc zero i rep slab = let e : i + 0 ≡ i = omega arith in rw e refl
find_weight-snoc (suc k) i rep slab =
    let e : i + suc k ≡ suc i + k = omega arith in
    let ih = find_weight-snoc k (suc i) rep slab in
    elim (Bool-cases ((unpack (get_or slab i 0)).0 == rep)) [
      | inl here ↦ rw here
      | inr later ↦ rw (later, e) ih
    ]

-- What a contribution that finds its slot leaves.
pub record Added (i k rep weight : ℕ) (slab slab' : List ℕ) : Type 0 where
  pub same_length : length slab' ≡ length slab
  pub outside : (j : ℕ) → (j < i) ⊎ (i + k ≤ j) → get_or slab' j 0 ≡ get_or slab j 0
  pub pairs : Pairs slab' i k
  pub old : ℕ
  pub was : find_weight i k rep slab ≡ some old
  pub now : find_weight i k rep slab' ≡ some (old + weight)
  pub others : (r : ℕ) → r ≢ rep → find_weight i k r slab' ≡ find_weight i k r slab

pub add_in_slots-none :
    (k i rep weight : ℕ) (slab : List ℕ)
    → add_in_slots i k rep weight slab ≡ none
    → find_weight i k rep slab ≡ none
unfolding add_in_slots find_weight
add_in_slots-none zero i rep weight slab e = refl
add_in_slots-none (suc k) i rep weight slab e =
    ground (arith, add_in_slots-none k (suc i) rep weight slab)

some_list : (a b : List ℕ) → some a ≡ some b → a ≡ b
some_list a b e = cc

module _ (rep weight : ℕ) (hr : rep < 128) where
  -- The slot at `i` takes the contribution.
  Added-here :
      (k i : ℕ) (slab : List ℕ)
      → ((unpack (get_or slab i 0)).0 == rep) ≡ true
      → i + suc k ≤ length slab
      → Pairs slab i (suc k)
      → (unpack (get_or slab i 0)).1 + weight < 2 ^ 56
      → Added i
          (suc k)
          rep
          weight
          slab
          (set slab i (pack rep (add64 (unpack (get_or slab i 0)).1 weight)))
  unfolding find_weight
  Added-here k i slab here fits pairs small = record {
    same_length = length-set slab i v;
    outside = λ j h. get_or-set_ne slab i j v 0 (omega arith);
    pairs = λ j lo hi. elim (Bool-cases (i == j)) [
      | inl e ↦ rw (← ==→≡ i j e, written) (pack-IsPair rep total ok positive)
      | inr e ↦ rw (get_or-set_ne slab i j v 0 (==→≢ i j e)) (pairs j lo hi)
    ];
    old = was;
    was = rw here;
    now = rw (written, unpack-pack rep total ok, ==_self rep, exact) refl;
    others = λ r ne.
        rw (written, unpack-pack rep total ok)
          (rw
            (find_weight-Agree k (suc i) r slab (set slab i v)
              (λ j lo hi. get_or-set_ne slab i j v 0 (omega arith)))
            (ground (arith, ==→≡ (unpack (get_or slab i 0)).0 rep here)));
  }
    where
      was : ℕ
      was = (unpack (get_or slab i 0)).1

      total : ℕ
      total = add64 was weight

      v : ℕ
      v = pack rep total

      written : get_or (set slab i v) i 0 ≡ v
      written = get_or-set_self slab i v 0 (omega arith)

      exact : total ≡ was + weight
      exact = omega arith

      ok : Fits rep total
      ok = (hr, omega (arith, exact))

      positive : 0 < total
      positive = omega (
        arith,
        exact,
        (pairs i (omega arith) (omega arith)).1,
        ap (λ (t : ℕ × ℕ). t.1) (unpack-eq (get_or slab i 0)),
      )

  -- The slot at `i` belongs to another class, and a later one takes the contribution.
  Added-later :
      (k i : ℕ) (slab slab' : List ℕ)
      → ((unpack (get_or slab i 0)).0 == rep) ≡ false
      → Pairs slab i (suc k)
      → Added (suc i) k rep weight slab slab'
      → Added i (suc k) rep weight slab slab'
  unfolding find_weight
  Added-later k i slab slab' other pairs a =
      let first = a.outside i (inl (omega arith)) in
      record {
        same_length = a.same_length;
        outside = λ j h. a.outside j (ground arith);
        pairs = λ j lo hi. elim (Bool-cases (i == j)) [
          | inl e ↦ rw (a.outside j (inl (ground arith))) (pairs j lo hi)
          | inr e ↦ a.pairs j (ground arith) (omega arith)
        ];
        old = a.old;
        was = rw other a.was;
        now = rw (first, other) a.now;
        others = λ r ne. rw (first, a.others r ne) refl;
      }

  pub add_in_slots-Added :
      (k i : ℕ) (slab slab' : List ℕ)
      → add_in_slots i k rep weight slab ≡ some slab'
      → i + k ≤ length slab
      → Pairs slab i k
      → or_zero (find_weight i k rep slab) + weight < 2 ^ 56
      → Added i k rep weight slab slab'
  unfolding add_in_slots find_weight
  add_in_slots-Added zero i slab slab' e fits pairs small = cc
  add_in_slots-Added (suc k) i slab slab' e fits pairs small =
      elim (Bool-cases ((unpack (get_or slab i 0)).0 == rep)) [
        | inl here ↦
            subst (λ s. Added i (suc k) rep weight slab s) (some_list _ slab' (rw here at e))
              (Added-here k i slab here fits pairs (rw here at small))
        | inr later ↦ Added-later k i slab slab' later pairs (
            add_in_slots-Added k (suc i) slab slab' (rw later at e) (omega arith)
              (λ j lo hi. pairs j (omega arith) (omega arith)) (rw later at small))
      ]
