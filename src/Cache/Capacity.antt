-- ===== src/Cache/Capacity.antt =====
-- cache/cache.go, `capacityFor` and `freeClass`: the sizes of the blocks and their baskets.
use knighttour.Prelude.{ℕ, zero, suc, ◌+◌, ◌^◌, ◌≤◌, ◌<◌, ◌==◌, ltb, leb, Bool, true, ◌&&◌}
use knighttour.Prelude.{◌≡◌, refl, arith}
use knighttour.Cache.{capacity_for, free_class}

-- The capacities of the blocks, checked for each number of classes.
all_to : ℕ → (ℕ → Bool) → Bool
all_to zero p = true
all_to (suc n) p = p n && all_to n p

all_to_sound : (n : ℕ) (p : ℕ → Bool) (x : ℕ) → all_to n p ≡ true → x < n → p x ≡ true
unfolding all_to
all_to_sound zero p x e h = absurd (omega arith)
all_to_sound (suc n) p x e h = ground (arith, all_to_sound n p x)

capacity_ok : ℕ → Bool
capacity_ok k =
    let cap = capacity_for (k + 1) in
    leb (k + 1) cap && leb cap 64 && ltb (free_class cap) 7 && (2 ^ free_class cap == cap)

capacity_table : all_to 64 capacity_ok ≡ true
unfolding all_to capacity_ok capacity_for free_class
capacity_table = refl

pub record Capacity (k : ℕ) : Type 0 where
  pub enough : k ≤ capacity_for k
  pub bounded : capacity_for k ≤ 64
  pub class_lt : free_class (capacity_for k) < 7
  pub power : 2 ^ free_class (capacity_for k) ≡ capacity_for k

Capacity-facts :
    (k : ℕ)
    → (leb k (capacity_for k)
        && leb (capacity_for k) 64
        && ltb (free_class (capacity_for k)) 7
        && (2 ^ free_class (capacity_for k) == capacity_for k))
      ≡ true
    → Capacity k
Capacity-facts k h = record {
  enough = ground arith;
  bounded = ground arith;
  class_lt = ground arith;
  power = ground arith;
}

-- A block of `capacityFor k` words holds k classes, and has a basket of its own size.
pub Capacity-of : (k : ℕ) → 0 < k → k ≤ 64 → Capacity k
unfolding capacity_ok
Capacity-of zero pos h = absurd (omega arith)
Capacity-of (suc k) pos h =
    let checked = all_to_sound 64 capacity_ok k capacity_table (omega arith) in
    let e : k + 1 ≡ suc k = omega arith in Capacity-facts (suc k) (rw e at checked)
