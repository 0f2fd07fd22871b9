-- ===== src/Symmetry/Distinct.antt =====
-- The number of different members of a list of pairs, and how often each of them occurs.
use native.Mathlib.Nat.{mul-suc}
use knighttour.Prelude.{ℕ, ◌+◌, ◌*◌, ◌==◌, if◌then◌else◌, Bool, true, false, ◌&&◌, ◌||◌, arith}
use knighttour.Prelude.{◌≡◌, refl, sym, ap, ◌∙◌, inl, inr, List, [], ◌∷◌, ◌∈◌, length, Bool-cases}

abbrev pub same_pair : ℕ × ℕ → ℕ × ℕ → Bool
same_pair (a, b) (c, d) = a == c && b == d

abbrev pub ind : Bool → ℕ
ind true = 1
ind false = 0

pub same_pair-eq : (x y : ℕ × ℕ) → same_pair x y ≡ true → x ≡ y
same_pair-eq (a, b) (c, d) e =
    let first : a ≡ c = ground arith in let second : b ≡ d = ground arith in cc (first, second)

pub same_pair_self : (x : ℕ × ℕ) → same_pair x x ≡ true
same_pair_self (a, b) = ground arith

pub eq-same_pair : {x y : ℕ × ℕ} → x ≡ y → same_pair x y ≡ true
eq-same_pair {x} p = ap (λ v. same_pair x v) (sym p) ∙ same_pair_self x

abbrev occurs : ℕ × ℕ → List (ℕ × ℕ) → Bool
occurs x [] = false
occurs x (y ∷ ys) = same_pair y x || occurs x ys

abbrev pub count_of : ℕ × ℕ → List (ℕ × ℕ) → ℕ
count_of x [] = 0
count_of x (y ∷ ys) = ind (same_pair y x) + count_of x ys

-- The last occurrences.
abbrev different : List (ℕ × ℕ) → List (ℕ × ℕ)
different [] = []
different (x ∷ xs) = let rest = different xs in if occurs x xs then rest else x ∷ rest

abbrev pub distinct : List (ℕ × ℕ) → ℕ
distinct xs = length (different xs)

count-different : (x : ℕ × ℕ) (xs : List (ℕ × ℕ)) → count_of x (different xs) ≡ ind (occurs x xs)
count-different x [] = refl
count-different x (y ∷ ys) =
    let rest = count-different x ys in
    elim (Bool-cases (occurs y ys)) [
      | inl e ↦ elim (Bool-cases (same_pair y x)) [
        | inl same ↦
            let found : occurs x ys ≡ true =
              ap (λ v. occurs v ys) (sym (same_pair-eq y x same)) ∙ e in
            rw (e, same) (rest ∙ ap ind found)
        | inr other ↦ rw (e, other) (omega (arith, rest))
      ]
      | inr e ↦ elim (Bool-cases (same_pair y x)) [
        | inl same ↦
            let none : occurs x ys ≡ false =
              ap (λ v. occurs v ys) (sym (same_pair-eq y x same)) ∙ e in
            rw (e, same) (omega (arith, rest, ap ind none))
        | inr other ↦ rw (e, other) (omega (arith, rest))
      ]
    ]

count-none : (x : ℕ × ℕ) (xs : List (ℕ × ℕ)) → occurs x xs ≡ false → count_of x xs ≡ 0
count-none x [] e = refl
count-none x (y ∷ ys) e = elim (Bool-cases (same_pair y x)) [
  | inl same ↦ absurd (ground arith)
  | inr other ↦ rw other (omega (arith, count-none x ys (ground arith)))
]

-- The occurrences of the members of a list in another one, one list after the other.
abbrev counts : List (ℕ × ℕ) → List (ℕ × ℕ) → ℕ
counts [] ys = 0
counts (x ∷ xs) ys = count_of x ys + counts xs ys

same_pair_sym : (x y : ℕ × ℕ) → same_pair x y ≡ same_pair y x
same_pair_sym (a, b) (c, d) = ground arith

counts-cons : (xs ys : List (ℕ × ℕ)) (y : ℕ × ℕ) → counts xs (y ∷ ys) ≡ counts xs ys + count_of y xs
counts-cons [] ys y = refl
counts-cons (x ∷ xs) ys y = omega (arith, counts-cons xs ys y, ap ind (same_pair_sym x y))

counts-different : (xs : List (ℕ × ℕ)) → counts (different xs) xs ≡ length xs
counts-different [] = refl
counts-different (x ∷ xs) =
    let rest = counts-different xs in
    let old = counts-cons (different xs) xs x in
    let present = count-different x xs in
    elim (Bool-cases (occurs x xs)) [
      | inl e ↦ rw e (omega (arith, ap ind e))
      | inr e ↦ rw e (omega (arith, ap ind e, count-none x xs e, ap ind (same_pair_self x)))
    ]

different-sub : (xs : List (ℕ × ℕ)) (x : ℕ × ℕ) → x ∈ different xs → x ∈ xs
different-sub [] x m = m
different-sub (y ∷ ys) x m = elim (Bool-cases (occurs y ys)) [
  | inl e ↦ inr (different-sub ys x (rw e at m))
  | inr e ↦ elim (rw e at m) [ inl here ↦ inl here | inr later ↦ inr (different-sub ys x later) ]
]

counts-constant :
    (xs ys : List (ℕ × ℕ)) (n : ℕ)
    → ((x : ℕ × ℕ) → x ∈ xs → count_of x ys ≡ n)
    → counts xs ys ≡ n * length xs
counts-constant [] ys n h = omega arith
counts-constant (x ∷ xs) ys n h =
    omega
      (arith, h x (inl refl), counts-constant xs ys n (λ z m. h z (inr m)), mul-suc n (length xs))

-- Where every member occurs `n` times, the different members times `n` are all members.
pub distinct-mul :
    (xs : List (ℕ × ℕ)) (n : ℕ)
    → ((x : ℕ × ℕ) → x ∈ xs → count_of x xs ≡ n)
    → n * distinct xs ≡ length xs
distinct-mul xs n h =
    sym (counts-constant (different xs) xs n (λ x m. h x (different-sub xs x m)))
    ∙ counts-different xs
