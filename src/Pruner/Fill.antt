-- ===== src/Pruner/Fill.antt =====
-- pruner/pruner.go, `globalCheck`: the invariant of the flood fill on a remainder that a path covers.
use knighttour.Prelude.{ℕ, zero, suc, ◌+◌, ◌<◌, true, false}
use knighttour.Prelude.{◌≡◌, sym, ◌∙◌, ◌⊎◌, inl, inr, List, ◌∷◌, arith, Bool-cases, ||-true}
use knighttour.State.{
  State, is_visited, union, and_not, is_empty, count_bits, all_visited, trailing_zero_bits,
}
use knighttour.State.Bits.{
  IsWord, union-IsWord, and_not-IsWord, is_visited-union, is_visited-and_not, state_ext,
  is_empty-cells, is_visited-empty,
}
use knighttour.State.Cells.{In, all_visited-AscendsFrom, mem-all_visited}
use knighttour.State.Count.{count_bits-lt, count_bits-bound, trailing_zero_bits-In}
use knighttour.Graph.{Graph}
use knighttour.Graph.Masks.{IsBoard}
use knighttour.Pruner.{Flood, Outcome, done, flood}
use knighttour.Pruner.Path.{Completes, Adjacent, Closed, Closed-covers}
use knighttour.Pruner.Frontier.{Counts, ScanOk, scan-ScanOk, absent}

In-union : (s t q : ℕ) → In (union s t) q → In s q ⊎ In t q
In-union s t q (hq, v) = elim (||-true _ _ (sym (is_visited-union s t q hq) ∙ v)) [
  | inl e ↦ inl (hq, e)
  | inr e ↦ inr (hq, e)
]

union-In : (s t q : ℕ) → In s q ⊎ In t q → In (union s t) q
union-In s t q (inl (hq, v)) = (hq, is_visited-union s t q hq ∙ ground arith)
union-In s t q (inr (hq, v)) = (hq, is_visited-union s t q hq ∙ ground arith)

pub In-and_not : (s t q : ℕ) → IsWord t → In (and_not s t) q → In s q × ¬ In t q
In-and_not s t q w (hq, v) =
    let e = sym (is_visited-and_not s t q hq w) ∙ v in
    ((hq, ground arith), λ i. ground (arith, i.1))

and_not-In : (s t q : ℕ) → IsWord t → In s q → ¬ In t q → In (and_not s t) q
and_not-In s t q w (hq, v) out =
    (hq, is_visited-and_not s t q hq w ∙ ground (arith, absent t q hq out))

-- A non-empty frontier outside `seen` makes `seen` grow.
pub grows :
    (frontier seen : State)
    → IsWord frontier
    → is_empty frontier ≡ false
    → ((q : ℕ) → In frontier q → ¬ In seen q)
    → count_bits seen < count_bits (union seen frontier)
grows frontier seen w e apart =
    let i = trailing_zero_bits-In frontier w e in
    count_bits-lt seen (union seen frontier) (trailing_zero_bits frontier)
      (λ q j. union-In seen frontier q (inl j)) (union-In seen frontier _ (inr i))
      (apart (trailing_zero_bits frontier) i)

module _ (g : Graph) (b : IsBoard g) (u : State) (w : IsWord u) (last n m : ℕ) (p : List ℕ)
    (path : Completes g last u (n ∷ m ∷ p)) (start : ℕ) where
  pub record FillInv (frontier seen : State) (f : Flood) : Type 0 where
    pub frontier_word : IsWord frontier
    pub seen_word : IsWord seen
    pub seen_in : (q : ℕ) → In seen q → In u q
    pub frontier_in : (q : ℕ) → In frontier q → In u q
    pub apart : (q : ℕ) → In frontier q → ¬ In seen q
    pub begun : In seen start ⊎ In frontier start
    pub closed : (x y : ℕ) → In seen x → In u y → Adjacent g x y → In seen y ⊎ In frontier y
    pub marks : (q : ℕ) → In f.deg1_mask q → In seen q
    pub counts : Counts g b u w last n m p path f

  -- The fill ends with every cell seen, and with a count of ends of the path.
  pub record FillOk (r : Outcome (State × Flood)) : Type 0 where
    pub out : Flood
    pub returns : r ≡ done (u, out)
    pub counts : Counts g b u w last n m p path out

  -- The frontier is empty: `seen` is closed and holds the start, so it is the remainder.
  FillInv-done :
      (frontier seen : State) (f : Flood)
      → FillInv frontier seen f
      → In u start
      → is_empty frontier ≡ true
      → seen ≡ u
  FillInv-done frontier seen f v s ended = state_ext seen u v.seen_word w same
    where
      none : (q : ℕ) → ¬ In frontier q
      none q (hq, i) = cc (is_empty-cells frontier v.frontier_word ended q hq)

      close : Closed g b seen u
      close x y ix iy edge = elim (v.closed x y ix iy edge) [
        | inl i ↦ i
        | inr i ↦ absurd (none y i)
      ]

      from : In seen start
      from = elim v.begun [ inl i ↦ i | inr i ↦ absurd (none start i) ]

      same : (q : ℕ) → q < 64 → is_visited seen q ≡ is_visited u q
      same q hq =
          let all =
            λ (i : In u q). Closed-covers g b seen last u n (m ∷ p) close path w start s from q i in
          ground (arith, v.seen_in q, all)

  -- The round that moves the frontier into `seen`.
  module _ (frontier seen : State) (f : Flood) (v : FillInv frontier seen f) where
    abbrev begin : Flood
    begin = record f { next = 0 }

    round : ScanOk g b u w last n m p path (all_visited frontier) begin
    round =
        scan-ScanOk g b u w last n m p path (all_visited frontier) 0 begin
          (all_visited-AscendsFrom frontier v.frontier_word)
          (λ q mem.
            let i = (mem-all_visited frontier q v.frontier_word).0 mem in
            (v.frontier_in q i, λ marked. v.apart q i (v.marks q marked)))
          v.counts (omega arith)

    abbrev seen' : State
    seen' = union seen frontier

    round-FillInv : FillInv (and_not round.out.next seen') seen' round.out
    round-FillInv = record {
      frontier_word = and_not-IsWord round.out.next seen' round.word;
      seen_word = seen_word';
      seen_in = λ q i. elim (In-union seen frontier q i) [
        | inl j ↦ v.seen_in q j
        | inr j ↦ v.frontier_in q j
      ];
      frontier_in = λ q i. elim (round.only q (In-and_not round.out.next seen' q seen_word' i).0) [
        | inl zero_next ↦ cc (is_visited-empty q zero_next.0)
        | inr j ↦ j
      ];
      apart = λ q i. (In-and_not round.out.next seen' q seen_word' i).1;
      begun = inl (union-In seen frontier start v.begun);
      closed = λ x y ix iy edge. elim (In-union seen frontier x ix) [
        | inl j ↦ inl (union-In seen frontier y (v.closed x y j iy edge))
        | inr j ↦
            next_cell y (round.adds x y ((mem-all_visited frontier x v.frontier_word).1 j) iy edge)
      ];
      marks = λ q i. elim (round.marked q i.0 i) [
        | inl j ↦ union-In seen frontier q (inl (v.marks q j))
        | inr j ↦ union-In seen frontier q (inr ((mem-all_visited frontier q v.frontier_word).0 j))
      ];
      counts = round.counts;
    }
      where
        seen_word' : IsWord seen'
        seen_word' = union-IsWord seen frontier v.seen_word v.frontier_word

        next_cell : (y : ℕ) → In round.out.next y → In seen' y ⊎ In (and_not round.out.next seen') y
        next_cell y i = elim (Bool-cases (is_visited seen' y)) [
          | inl e ↦ inl (i.0, e)
          | inr e ↦ inr (and_not-In round.out.next seen' y seen_word' i (λ j. cc (e, j.1)))
        ]

  pub flood-FillOk :
      (fuel : ℕ) (frontier seen : State) (f : Flood)
      → FillInv frontier seen f
      → In u start
      → 64 < count_bits seen + fuel
      → FillOk (flood g fuel u frontier seen f)
  unfolding flood
  flood-FillOk zero frontier seen f v s enough = absurd (omega (arith, count_bits-bound seen))
  flood-FillOk (suc fuel) frontier seen f v s enough = elim (Bool-cases (is_empty frontier)) [
    | inl ended ↦ record {
      out = f;
      returns = rw (ended, FillInv-done frontier seen f v s ended);
      counts = v.counts;
    }
    | inr more ↦
        let r = round frontier seen f v in
        let up = grows frontier seen v.frontier_word more v.apart in
        let rest =
          flood-FillOk fuel _ (union seen frontier) r.out (round-FillInv frontier seen f v) s
            (omega arith) in
        record { out = rest.out; returns = rw (more, r.returns) rest.returns; counts = rest.counts }
  ]
