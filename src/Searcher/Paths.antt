-- ===== src/Searcher/Paths.antt =====
-- For searcher/searcher.go: lists of paths without repetition, and the cells that a state leaves
-- unvisited.
use knighttour.Prelude.{
  ℕ, zero, suc, ◌+◌, ◌-◌, ◌≤◌, ◌<◌, ◌/◌, ltb, leb, ◌==◌, if◌then◌else◌, true, false, arith,
}
use knighttour.Prelude.{
  ◌≡◌, refl, ap, ◌∙◌, ◌↔◌, ◌⊎◌, inl, inr, List, [], ◌∷◌, ◌++◌, map, length, ◌∈◌, Bool-cases, ==→≡,
  min,
}
use knighttour.Words.{ones_count}
use knighttour.Words.Digits.{digit, digit-lt}
use knighttour.State.{State, visit, unvisit, invert, count_bits, is_empty, is_visited}
use knighttour.State.Bits.{
  IsWord, is_visited-digit, is_visited-invert, is_visited-unvisit, is_visited-visit, invert-IsWord,
  unvisit-IsWord, visit-IsWord, state_ext, cells-is_empty,
}
use knighttour.State.Cells.{In}
use knighttour.State.Count.{count_zero}

module _ {A : Type 0} where
  -- No member of the list is there twice.
  unfoldable pub Distinct : List A → Type 0
  Distinct [] = Unit
  Distinct (x ∷ xs) = ¬ (x ∈ xs) × Distinct xs

  pub mem-append : (x : A) (xs ys : List A) → (x ∈ (xs ++ ys)) ↔ ((x ∈ xs) ⊎ (x ∈ ys))
  mem-append x [] ys = (inr, elim [ inl e ↦ absurd e | inr m ↦ m ])
  mem-append x (y ∷ xs) ys =
      let m = mem-append x xs ys in
      (
        elim [ inl e ↦ inl (inl e) | inr l ↦ elim (m.0 l) [ inl a ↦ inl (inr a) | inr b ↦ inr b ] ],
        elim [ inl (inl e) ↦ inl e | inl (inr a) ↦ inr (m.1 (inl a)) | inr b ↦ inr (m.1 (inr b)) ],
      )

  pub Distinct-append :
      (xs ys : List A)
      → Distinct xs
      → Distinct ys
      → ((x : A) → x ∈ xs → ¬ (x ∈ ys))
      → Distinct (xs ++ ys)
  unfolding Distinct
  Distinct-append [] ys d e apart = e
  Distinct-append (x ∷ xs) ys d e apart = (
    λ m. elim ((mem-append x xs ys).0 m) [ inl a ↦ d.0 a | inr b ↦ apart x (inl refl) b ],
    Distinct-append xs ys d.1 e (λ z a. apart z (inr a)),
  )

-- Putting `n` before every path.
pub mem-map_cons :
    (n : ℕ) (ps : List (List ℕ)) (p : List ℕ)
    → (p ∈ map (λ q. n ∷ q) ps) ↔ ((q : List ℕ) × (p ≡ n ∷ q) × (q ∈ ps))
mem-map_cons n [] p = (absurd, λ h. h.2)
mem-map_cons n (q ∷ ps) p =
    let m = mem-map_cons n ps p in
    (
      elim [ inl e ↦ (q, e, inl refl) | inr l ↦ let (r, e, i) = m.0 l in (r, e, inr i) ],
      λ (r, e, i). elim i [ inl f ↦ inl (e ∙ ap (λ t. n ∷ t) f) | inr l ↦ inr (m.1 (r, e, l)) ],
    )

head_or : ℕ → List ℕ → ℕ
head_or d [] = d
head_or d (x ∷ xs) = x

tail_of : List ℕ → List ℕ
tail_of [] = []
tail_of (x ∷ xs) = xs

pub cons_head : (n m : ℕ) (p q : List ℕ) → n ∷ p ≡ m ∷ q → n ≡ m
unfolding head_or
cons_head n m p q e = ap (head_or 0) e

pub cons_tail : (n m : ℕ) (p q : List ℕ) → n ∷ p ≡ m ∷ q → p ≡ q
unfolding tail_of
cons_tail n m p q e = ap tail_of e

pub Distinct-map_cons : (n : ℕ) (ps : List (List ℕ)) → Distinct ps → Distinct (map (λ q. n ∷ q) ps)
unfolding Distinct
Distinct-map_cons n [] d = d
Distinct-map_cons n (q ∷ ps) d = (
  λ m. let (r, e, i) = (mem-map_cons n ps (n ∷ q)).0 m in d.0 (rw (cons_tail n n q r e) i),
  Distinct-map_cons n ps d.1,
)

pub length-map : {A : Type 0} {B : Type 0} (f : A → B) (xs : List A) → length (map f xs) ≡ length xs
length-map f [] = refl
length-map f (x ∷ xs) = ap suc (length-map f xs)

-- Two words whose ones part the digits below `n` between them.
ones_split :
    (k n s t : ℕ)
    → ((i : ℕ) → i < k → digit s i + digit t i ≡ (if ltb i n then 1 else 0))
    → ones_count k s + ones_count k t ≡ min n k
unfolding ones_count digit
ones_split zero n s t h = omega arith
ones_split (suc k) n s t h = ground (
  arith,
  h 0 (omega arith),
  ones_split k (n - 1) (s / 2) (t / 2) (λ i lt. h (suc i) (omega arith) ∙ ground arith),
)

-- A state whose cells are on the board.
pub record OnBoard (total : ℕ) (st : State) : Type 0 where
  pub word : IsWord st
  pub inside : (q : ℕ) → In st q → q < total

module _ (total : ℕ) (fits : total ≤ 64) (st : State) (o : OnBoard total st) where
  -- The visited and the unvisited cells are all cells.
  pub count_bits-invert : count_bits st + count_bits (invert st total) ≡ total
  unfolding count_bits
  count_bits-invert = ones_split 64 total st (invert st total) split ∙ omega arith
    where
      split :
          (i : ℕ) → i < 64 → digit st i + digit (invert st total) i ≡ (if ltb i total then 1 else 0)
      split i lt = ground (
        arith,
        is_visited-digit st i lt,
        is_visited-digit (invert st total) i lt,
        is_visited-invert st total i o.word fits lt,
        o.inside i,
        digit-lt st i,
        digit-lt (invert st total) i,
      )

  pub full-is_empty : leb total (count_bits st) ≡ true → is_empty (invert st total) ≡ true
  full-is_empty full =
      let none : count_bits (invert st total) ≡ 0 = ground (arith, count_bits-invert) in
      let w = invert-IsWord st total in
      cells-is_empty (invert st total) w λ q lt.
        elim (Bool-cases (is_visited (invert st total) q)) [
          | inl v ↦ absurd (count_zero (invert st total) w none q (lt, v))
          | inr f ↦ f
        ]

  pub more-is_empty : leb total (count_bits st) ≡ false → is_empty (invert st total) ≡ false
  unfolding is_empty
  more-is_empty more = elim (Bool-cases (invert st total == 0)) [
    | inl e ↦
        let none : count_bits (invert st total) ≡ 0 =
          ap count_bits (==→≡ _ 0 e) ∙ (unfold count_bits ones_count in refl) in
        absurd (ground (arith, count_bits-invert))
    | inr f ↦ f
  ]

  module _ (n : ℕ) (lt : n < total) where
    pub invert-visit : invert (visit st n) total ≡ unvisit (invert st total) n
    invert-visit =
        state_ext _ _ (invert-IsWord (visit st n) total)
          (unvisit-IsWord (invert st total) 0 (invert-IsWord st total) n)
          λ q hq. ground (
            arith,
            is_visited-invert (visit st n) total q (visit-IsWord st 0 o.word n) fits hq,
            is_visited-visit st n q (omega arith) hq,
            is_visited-unvisit (invert st total) n q (omega arith) hq,
            is_visited-invert st total q o.word fits hq,
          )

    pub OnBoard-visit : OnBoard total (visit st n)
    OnBoard-visit = record {
      word = visit-IsWord st 0 o.word n;
      inside = λ q (hq, v). ground (arith, v, is_visited-visit st n q (omega arith) hq, o.inside q);
    }
