-- ===== src/State/Bits.antt =====
-- state/state.go: the operations of a state, cell by cell.
use Prim.Native.Nat.{bit_and}
use native.Mathlib.Nat.{mod-eq_of_lt, pow-suc, one-le-pow}
use knighttour.Prelude.{ℕ, zero, suc, ◌-◌, ◌^◌, ◌≤◌, ◌<◌}
use knighttour.Prelude.{
  ◌≡◌, refl, sym, ◌∙◌, ◌==◌, ltb, if◌then◌else◌, true, false, not, ◌&&◌, ◌||◌, arith,
}
use knighttour.Prelude.{inl, inr, Bool-cases, ==→≡}
use knighttour.Words.{word_mod, shl_one, complement}
use knighttour.Words.Digits.{
  digit, digit-lt, digit-zero, digit-bit_or, digit-bit_and, digit-pow, digit-high, digit-complement,
  digit_ext, bit_or-lt, bit_and-lt_left, bit_and-lt_right,
}
use knighttour.State.{
  State, bit, is_visited, visit, unvisit, full_mask, intersect, union, and_not, invert, is_empty,
}

-- A state is a 64-bit word.
abbrev pub IsWord : State → Type 0
IsWord s = s < word_mod

pub two_pow-lt : (p k : ℕ) → p < k → 2 ^ p < 2 ^ k
two_pow-lt p zero h = absurd (omega arith)
two_pow-lt zero (suc k) h = omega (arith, pow-suc 2 k, one-le-pow k 2)
two_pow-lt (suc p) (suc k) h = omega (arith, pow-suc 2 p, pow-suc 2 k, two_pow-lt p k (omega arith))

shl_one-eq : (p : ℕ) → p < 64 → shl_one p ≡ 2 ^ p
unfolding shl_one
shl_one-eq p h = mod-eq_of_lt (two_pow-lt p 64 h)

pub bit-IsWord : (p : ℕ) → IsWord (bit p)
unfolding bit shl_one
bit-IsWord p = omega arith

-- `s & (1 << p)` is nothing but the digit at `p`.
bit_and-shl_one : (s p : ℕ) → p < 64 → bit_and s (shl_one p) ≡ (if digit s p == 1 then 2 ^ p else 0)
bit_and-shl_one s p h = rw (shl_one-eq p h) (elim (Bool-cases (digit s p == 1)) [
  | inl on ↦ rw on (
      digit_ext 64 _ _ (bit_and-lt_right 64 s (2 ^ p) small) small
        λ i lt. ground (arith, digit-bit_and s (2 ^ p) i, digit-pow p i, digit-lt s i))
  | inr off ↦ rw off (
      digit_ext 64 _ 0 (bit_and-lt_right 64 s (2 ^ p) small) (omega arith) λ i lt.
        ground (arith, digit-bit_and s (2 ^ p) i, digit-pow p i, digit-lt s p, digit-zero i))
])
  where
    small : 2 ^ p < 2 ^ 64
    small = two_pow-lt p 64 h

-- `IsVisited` reads one digit.
pub is_visited-digit : (s p : ℕ) → p < 64 → is_visited s p ≡ (digit s p == 1)
unfolding is_visited
is_visited-digit s p h = rw (bit_and-shl_one s p h) (ground (arith, one-le-pow p 2))

digit-shl_one : (p i : ℕ) → p < 64 → digit (shl_one p) i ≡ (if p == i then 1 else 0)
digit-shl_one p i h = rw (shl_one-eq p h) (digit-pow p i)

shl_one-lt : (p : ℕ) → shl_one p < word_mod
unfolding shl_one
shl_one-lt p = omega arith

digit-complement_word : (s i : ℕ) → s < word_mod → i < 64 → digit (complement s) i ≡ 1 - digit s i
unfolding complement
digit-complement_word s i h lt = digit-complement 64 s i h lt

-- The mask of a board has its cells and no other, the board of 64 cells included.
pub full_mask-eq : (n : ℕ) → n ≤ 64 → full_mask n ≡ 2 ^ n - 1
unfolding full_mask
full_mask-eq n h = elim (Bool-cases (n == 64)) [
  | inl e ↦ rw (==→≡ n 64 e) (unfold shl_one in refl)
  | inr e ↦
      let below : n < 64 = ground arith in
      rw (shl_one-eq n below) (omega (arith, two_pow-lt n 64 below, one-le-pow n 2))
]

digit-full_mask : (n i : ℕ) → n ≤ 64 → digit (full_mask n) i ≡ (if ltb i n then 1 else 0)
digit-full_mask n i h = rw (full_mask-eq n h) (
    ground
      (arith, digit-complement n 0 i, digit-zero i, one-le-pow n 2, digit-high n (2 ^ n - 1) i))

pub full_mask-IsWord : (n : ℕ) → IsWord (full_mask n)
unfolding full_mask
full_mask-IsWord n = omega arith

-- What each operation does to each cell of the board.
module _ (s p q : ℕ) (hp : p < 64) (hq : q < 64) where
  pub is_visited-visit : is_visited (visit s p) q ≡ (p == q || is_visited s q)
  unfolding visit
  is_visited-visit =
      rw (is_visited-digit _ q hq, is_visited-digit s q hq)
        (ground (arith, digit-bit_or s (shl_one p) q, digit-shl_one p q, digit-lt s q))

  pub is_visited-unvisit : is_visited (unvisit s p) q ≡ (not (p == q) && is_visited s q)
  unfolding unvisit
  is_visited-unvisit =
      rw (is_visited-digit _ q hq, is_visited-digit s q hq)
        (ground (
          arith,
          digit-bit_and s (complement (shl_one p)) q,
          digit-complement_word (shl_one p) q (shl_one-lt p) hq,
          digit-shl_one p q,
          digit-lt s q,
        ))

module _ (s t q : ℕ) (hq : q < 64) where
  pub is_visited-intersect : is_visited (intersect s t) q ≡ (is_visited s q && is_visited t q)
  unfolding intersect
  is_visited-intersect =
      rw (is_visited-digit _ q hq, is_visited-digit s q hq, is_visited-digit t q hq)
        (ground (arith, digit-bit_and s t q, digit-lt s q, digit-lt t q))

  pub is_visited-union : is_visited (union s t) q ≡ (is_visited s q || is_visited t q)
  unfolding union
  is_visited-union =
      rw (is_visited-digit _ q hq, is_visited-digit s q hq, is_visited-digit t q hq)
        (ground (arith, digit-bit_or s t q, digit-lt s q, digit-lt t q))

  pub is_visited-and_not :
      IsWord t → is_visited (and_not s t) q ≡ (is_visited s q && not (is_visited t q))
  unfolding and_not
  is_visited-and_not ht =
      rw (is_visited-digit _ q hq, is_visited-digit s q hq, is_visited-digit t q hq)
        (ground (
          arith,
          digit-bit_and s (complement t) q,
          digit-complement_word t q ht hq,
          digit-lt s q,
          digit-lt t q,
        ))

pub is_visited-invert :
    (s n q : ℕ)
    → IsWord s
    → n ≤ 64
    → q < 64
    → is_visited (invert s n) q ≡ (ltb q n && not (is_visited s q))
unfolding invert
is_visited-invert s n q hs hn hq =
    rw (is_visited-digit _ q hq, is_visited-digit s q hq)
      (ground (
        arith,
        digit-bit_and (full_mask n) (complement s) q,
        digit-full_mask n q hn,
        digit-complement_word s q hs hq,
        digit-lt s q,
      ))

pub is_visited-empty : (q : ℕ) → q < 64 → is_visited 0 q ≡ false
is_visited-empty q h = rw (is_visited-digit 0 q h) (ground (arith, digit-zero q))

pub is_visited-bit : (p q : ℕ) → p < 64 → q < 64 → is_visited (bit p) q ≡ (p == q)
unfolding bit
is_visited-bit p q hp hq = rw (is_visited-digit _ q hq) (ground (arith, digit-shl_one p q hp))

-- Two words with the same cells are equal.
pub state_ext :
    (s t : ℕ) → IsWord s → IsWord t → ((q : ℕ) → q < 64 → is_visited s q ≡ is_visited t q) → s ≡ t
state_ext s t hs ht same = digit_ext 64 s t hs ht λ i lt.
    ground (arith, same i, is_visited-digit s i, is_visited-digit t i, digit-lt s i, digit-lt t i)

module _ (s t : State) (hs : IsWord s) where
  pub visit-IsWord : (p : ℕ) → IsWord (visit s p)
  unfolding visit
  visit-IsWord p = bit_or-lt 64 s (shl_one p) hs (shl_one-lt p)

  pub unvisit-IsWord : (p : ℕ) → IsWord (unvisit s p)
  unfolding unvisit
  unvisit-IsWord p = bit_and-lt_left 64 s (complement (shl_one p)) hs

  pub intersect-IsWord : IsWord (intersect t s)
  unfolding intersect
  intersect-IsWord = bit_and-lt_right 64 t s hs

  pub intersect-IsWord_left : IsWord (intersect s t)
  unfolding intersect
  intersect-IsWord_left = bit_and-lt_left 64 s t hs

  pub union-IsWord : IsWord t → IsWord (union s t)
  unfolding union
  union-IsWord ht = bit_or-lt 64 s t hs ht

  pub and_not-IsWord : IsWord (and_not s t)
  unfolding and_not
  and_not-IsWord = bit_and-lt_left 64 s (complement t) hs

pub invert-IsWord : (s n : ℕ) → IsWord (invert s n)
unfolding invert
invert-IsWord s n = bit_and-lt_left 64 (full_mask n) (complement s) (full_mask-IsWord n)

-- `IsEmpty` is the absence of cells.
pub is_empty-cells :
    (s : State) → IsWord s → is_empty s ≡ true → (q : ℕ) → q < 64 → is_visited s q ≡ false
unfolding is_empty
is_empty-cells s hs e q hq = rw (==→≡ s 0 e) (is_visited-empty q hq)

pub cells-is_empty :
    (s : State) → IsWord s → ((q : ℕ) → q < 64 → is_visited s q ≡ false) → is_empty s ≡ true
unfolding is_empty
cells-is_empty s hs none =
    let zero_word = state_ext s 0 hs (omega arith) (λ q h. none q h ∙ sym (is_visited-empty q h)) in
    rw zero_word refl

-- What each operation of a state does to each cell `q`, for words and cells below 64: `Visit` adds
-- and `Unvisit` takes away the one cell, `Intersect`, `Union` and `AndNot` are those of sets, and
-- `Invert` is the complement on a board of at most 64 cells.
pub is_visited_operations :
    (s t p q n : ℕ)
    → IsWord s
    → IsWord t
    → p < 64
    → q < 64
    → n ≤ 64
    → (is_visited (visit s p) q ≡ (p == q || is_visited s q))
      × (is_visited (unvisit s p) q ≡ (not (p == q) && is_visited s q))
      × (is_visited (intersect s t) q ≡ (is_visited s q && is_visited t q))
      × (is_visited (union s t) q ≡ (is_visited s q || is_visited t q))
      × (is_visited (and_not s t) q ≡ (is_visited s q && not (is_visited t q)))
      × (is_visited (invert s n) q ≡ (ltb q n && not (is_visited s q)))
is_visited_operations s t p q n hs ht hp hq hn = (
  is_visited-visit s p q hp hq,
  is_visited-unvisit s p q hp hq,
  is_visited-intersect s t q hq,
  is_visited-union s t q hq,
  is_visited-and_not s t q hq ht,
  is_visited-invert s n q hs hn hq,
)
