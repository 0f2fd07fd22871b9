-- ===== src/Pruner/Sound.antt =====
-- pruner/pruner.go, `ShouldPruneAfterVisit` on a branch that has a completion.
use knighttour.Prelude.{ℕ, ◌+◌, ◌<◌, ◌==◌, true, false}
use knighttour.Prelude.{
  ◌≡◌, refl, sym, ◌∙◌, inl, inr, List, [], ◌∷◌, ◌∈◌, arith, Bool-cases, ==→≡, ==_self,
}
use knighttour.State.{
  State, bit, is_visited, intersect, unvisit, is_empty, count_bits, all_visited, trailing_zero_bits,
}
use knighttour.State.Bits.{
  IsWord, is_visited-empty, intersect-IsWord_left, bit-IsWord, is_visited-intersect, is_visited-bit,
  unvisit-IsWord,
}
use knighttour.State.Cells.{In, mem-all_visited}
use knighttour.State.Count.{count_one, single_count, trailing_zero_bits-In, In-nonempty}
use knighttour.Graph.{Graph, get_neighbor_mask}
use knighttour.Graph.Masks.{IsBoard}
use knighttour.Pruner.{
  no_reason, Flood, Outcome, isolates, judge, global_check, should_prune_after_visit,
}
use knighttour.Pruner.Path.{
  Completes, Adjacent, has_neighbour, In-cases, nothing_left, last_of, last_of-In,
}
use knighttour.Pruner.Frontier.{indicator, nbrs-In, In-nbrs, nbrs-IsWord}
use knighttour.Pruner.Fill.{FillInv, FillOk, flood-FillOk}

both_ends :
    (D : State) (n m : ℕ) {c : ℕ}
    → c ≡ indicator D n + indicator D m
    → c ≡ 2
    → is_visited D n ≡ true
both_ends D n m e two = ground arith

module _ (g : Graph) (b : IsBoard g) (last : ℕ) (hl : last < 64) (u : State) (w : IsWord u) where
  -- The first step of a path shows that `last` has an unvisited neighbour.
  first_step :
      (n : ℕ) (p : List ℕ)
      → Completes g last u (n ∷ p)
      → is_empty (intersect (get_neighbor_mask g last) u) ≡ false
  unfolding Completes
  first_step n p c = In-nonempty _ (nbrs-IsWord g b u w last) n (In-nbrs g b u w last n c.0 c.1)

  module _ (n m : ℕ) (p : List ℕ) (path : Completes g last u (n ∷ m ∷ p)) where
    isolates-false : (us : List ℕ) → ((q : ℕ) → q ∈ us → In u q) → isolates g u us ≡ false
    unfolding isolates
    isolates-false [] inside = refl
    isolates-false (q ∷ us) inside =
        let (r, ir, edge) = has_neighbour g b last u n m p path w q (inside q (inl refl)) in
        let some_left = In-nonempty _ (nbrs-IsWord g b u w q) r (In-nbrs g b u w q r ir edge) in
        rw some_left (isolates-false us (λ x later. inside x (inr later)))

    abbrev start : ℕ
    start = trailing_zero_bits u

    nonempty : is_empty u ≡ false
    nonempty = In-nonempty u w n (unfold Completes in path.0)

    start-In : In u start
    start-In = trailing_zero_bits-In u w nonempty

    begin-FillInv :
        FillInv g b u w last n m p path start
          (bit start)
          0
          (record { deg1_mask = 0; deg1_count = 0; next = 0 })
    begin-FillInv = record {
      frontier_word = bit-IsWord start;
      seen_word = omega arith;
      seen_in = λ q i. absurd (none q i);
      frontier_in = λ q i. rw (only q i) start-In;
      apart = λ q i j. none q j;
      begun = inr (start-In.0, is_visited-bit start start start-In.0 start-In.0 ∙ ==_self start);
      closed = λ x y i iy edge. absurd (none x i);
      marks = λ q i. absurd (none q i);
      counts = ground (arith, is_visited-empty n first.0, is_visited-empty (last_of m p) final.0);
    }
      where
        first : In u n
        first = unfold Completes in path.0

        final : In u (last_of m p)
        final = unfold last_of in last_of-In g b last u n (m ∷ p) path

        none : (q : ℕ) → ¬ In 0 q
        none q i = cc (is_visited-empty q i.0, i.1)

        only : (q : ℕ) → In (bit start) q → q ≡ start
        only q i = sym (==→≡ start q (sym (is_visited-bit start q start-In.0 i.0) ∙ i.1))

    judge_keeps :
        (r : Outcome (State × Flood))
        → FillOk g b u w last n m p path start r
        → judge g last u r ≡ (false, no_reason)
    unfolding judge
    judge_keeps r ok = rw ok.returns (ground (arith, ==_self u, reached))
      where
        D : State
        D = ok.out.deg1_mask

        hn : n < 64
        hn = unfold Completes in path.0.0

        edge : Adjacent g last n
        edge = unfold Completes in path.1

        reached : ok.out.deg1_count ≡ 2 → is_empty (intersect (get_neighbor_mask g last) D) ≡ false
        reached two =
            let first : is_visited D n ≡ true = both_ends D n (last_of m p) ok.counts two in
            In-nonempty _ (intersect-IsWord_left (get_neighbor_mask g last) D (b.word last)) n
              (hn, is_visited-intersect (get_neighbor_mask g last) D n hn ∙ ground (arith, edge))

    global_check_keeps : global_check g last u ≡ (false, no_reason)
    unfolding global_check
    global_check_keeps = rw (first_step n (m ∷ p) path) (
        judge_keeps _ (
          flood-FillOk g b u w last n m p path start 65 (bit start) 0 _ begin-FillInv start-In
            (omega arith)))

  two_or_more :
      (n m : ℕ) (p : List ℕ)
      → Completes g last u (n ∷ m ∷ p)
      → (count_bits u == 1) ≡ false
      → should_prune_after_visit g last u ≡ (false, no_reason)
  unfolding should_prune_after_visit
  two_or_more n m p path many =
      rw (nonempty n m p path, many, isolates-false n m p path _ inside)
        (global_check_keeps n m p path)
    where
      inside : (q : ℕ) → q ∈ all_visited (intersect (get_neighbor_mask g last) u) → In u q
      inside q mem =
          (nbrs-In g b u w last q (
            (mem-all_visited (intersect (get_neighbor_mask g last) u) q
                (nbrs-IsWord g b u w last)).0
              mem)).0

  -- The branch for a single unvisited cell.
  lone_cell :
      (n : ℕ) (p : List ℕ)
      → Completes g last u (n ∷ p)
      → (count_bits u == 1) ≡ true
      → should_prune_after_visit g last u ≡ (false, no_reason)
  unfolding should_prune_after_visit Completes
  lone_cell n p c one =
      let some_left = In-nonempty u w n c.0 in
      let lone =
        count_one u w (==→≡ _ 1 one) (trailing_zero_bits u) n (trailing_zero_bits-In u w some_left)
          c.0 in
      let back = b.symm last n hl c.0.0 c.1 in
      let edge =
        In-nonempty _ (intersect-IsWord_left (get_neighbor_mask g n) (bit last) (b.word n)) last (
          hl,
          is_visited-intersect (get_neighbor_mask g n) (bit last) last hl
              ∙ rw (back, is_visited-bit last last hl hl) (==_self last),
        ) in
      rw (some_left, one, lone, edge)

-- On a board, for `last` below 64 and a word of unvisited cells, `ShouldPruneAfterVisit` keeps
-- every branch that has a completion: if some path goes on from `last` through exactly the
-- unvisited cells, the branch is not cut.
pub should_prune_after_visit_sound :
    (g : Graph)
    → IsBoard g
    → (last : ℕ) (u : State) (path : List ℕ) → last < 64
    → IsWord u
    → Completes g last u path
    → should_prune_after_visit g last u ≡ (false, no_reason)
unfolding Completes
should_prune_after_visit_sound g b last u [] hl w c = unfold should_prune_after_visit in rw c
should_prune_after_visit_sound g b last u (n ∷ []) hl w c =
    lone_cell g b last hl u w n [] c (rw one refl)
  where
    one : count_bits u ≡ 1
    one = single_count u w n c.0 λ q i. elim (In-cases u n q c.0.0 i) [
      | inl e ↦ e
      | inr later ↦ absurd (nothing_left g b (unvisit u n) q (unvisit-IsWord u 0 w n) c.2 later)
    ]
should_prune_after_visit_sound g b last u (n ∷ m ∷ p) hl w c =
    elim (Bool-cases (count_bits u == 1)) [
      | inl one ↦ lone_cell g b last hl u w n (m ∷ p) c one
      | inr many ↦ two_or_more g b last hl u w n m p c many
    ]
