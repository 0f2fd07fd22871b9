-- ===== src/Searcher/Descent.antt =====
-- searcher/searcher.go, `dfsCount` without a stop level, by recursion on its depth.
use knighttour.Prelude.{ℕ, zero, suc, ◌+◌, ◌<◌, leb, true, false, Bool-cases, arith}
use knighttour.Prelude.{◌≡◌, refl, ap, ◌∙◌, ◌↔◌, inl, inr, List, [], ◌∷◌, ◌∈◌}
use knighttour.Prelude.{none}
use mathlib.Core.Path.{subst}
use knighttour.State.{State, visit, unvisit, invert, count_bits, is_empty, intersect}
use knighttour.State.Bits.{IsWord, is_visited-invert, invert-IsWord, intersect-IsWord}
use knighttour.State.Cells.{In, mem-all_visited, all_visited-AscendsFrom}
use knighttour.State.Count.{count_bits-lt}
use knighttour.Graph.{get_neighbor_mask}
use knighttour.Graph.Masks.{IsBoard}
use knighttour.Pruner.Path.{Completes, Adjacent, In-unvisit, nothing_left}
use knighttour.Pruner.Frontier.{nbrs-In, In-nbrs}
use knighttour.Searcher.{Searcher, Context, Run, poll, candidates, stop_answer, dfs_count}
use knighttour.Searcher.Paths.{
  Distinct, OnBoard, full-is_empty, more-is_empty, invert-visit, OnBoard-visit,
}
use knighttour.Searcher.Branches.{Some, From, Completes-first, count_loop-From}

zero_add : (k : ℕ) → 0 + k ≡ k
zero_add k = omega arith

module _ (Q : Type 0) (s : Searcher) (b : IsBoard s.graph) (ctx : Context) where
  candidate :
      (u : State) (last n : ℕ)
      → IsWord u
      → (n ∈ candidates s u last) ↔ (In u n × Adjacent s.graph last n)
  unfolding candidates
  candidate u last n w =
      let m =
        mem-all_visited (intersect (get_neighbor_mask s.graph last) u) n
          (intersect-IsWord u (get_neighbor_mask s.graph last) w) in
      (
        λ i. nbrs-In s.graph b u w last n (m.0 i),
        λ (i, edge). m.1 (In-nbrs s.graph b u w last n i edge),
      )

  Some-empty : (u : State) (last : ℕ) → IsWord u → is_empty u ≡ true → Some Q s.graph last u 1
  Some-empty u last w e = record {
    paths = [] ∷ [];
    counted = refl;
    distinct = unfold Distinct in (λ i. i, tt);
    sound = λ p i. elim i [ inl f ↦ rw f (unfold Completes in e) | inr out ↦ absurd out ];
    all = λ holds p c. inl (only p c);
  }
    where
      only : (p : List ℕ) → Completes s.graph last u p → p ≡ []
      only [] c = refl
      only (n ∷ p) c =
          absurd (nothing_left s.graph b u n w e (Completes-first s.graph last u n p c).0)

  Some-From :
      (u : State) (last k : ℕ)
      → IsWord u
      → is_empty u ≡ false
      → From Q s.graph u (candidates s u last) k
      → Some Q s.graph last u k
  Some-From u last k w e f = record {
    paths = f.paths;
    counted = f.counted;
    distinct = f.distinct;
    sound = λ p i.
        let (n, q, same, m, c) = f.sound p i in
        let (inside, edge) = (candidate u last n w).0 m in
        rw same (unfold Completes in (inside, edge, c));
    all = every;
  }
    where
      every : Q → (p : List ℕ) → Completes s.graph last u p → p ∈ f.paths
      every holds [] c = let c' : is_empty u ≡ true = unfold Completes in c in cc (e, c')
      every holds (n ∷ q) c =
          let (inside, edge, rest) = Completes-first s.graph last u n q c in
          f.all holds n q ((candidate u last n w).1 (inside, edge)) rest

  unvisited_lt :
      (st : State) (n : ℕ)
      → OnBoard s.graph.total_cells st
      → In (invert st s.graph.total_cells) n
      → n < s.graph.total_cells
  unvisited_lt st n o (lt, v) =
      ground (arith, v, is_visited-invert st s.graph.total_cells n o.word b.fits lt)

  next_Some :
      (fuel : ℕ) (st : State)
      → OnBoard s.graph.total_cells st
      → count_bits (invert st s.graph.total_cells) < suc fuel
      → ((st' : State) (n : ℕ) (run : Run)
          → OnBoard s.graph.total_cells st'
          → count_bits (invert st' s.graph.total_cells) < fuel
          → Some Q s.graph n
              (invert st' s.graph.total_cells)
              (dfs_count s ctx none fuel st' n run).0)
      → (n : ℕ) (run : Run) → In (invert st s.graph.total_cells) n
      → Some Q s.graph n
          (unvisit (invert st s.graph.total_cells) n)
          (dfs_count s ctx none fuel (visit st n) n run).0
  next_Some fuel st o lt deeper n run i =
      let u = invert st s.graph.total_cells in
      let inside = unvisited_lt st n o i in
      let next = invert-visit s.graph.total_cells b.fits st o n inside in
      let fewer =
        count_bits-lt (unvisit u n) u n (λ p j. (In-unvisit u n p i.0 j).0) i
          (λ j. (In-unvisit u n n i.0 j).1 refl) in
      subst (λ v. Some Q s.graph n v (dfs_count s ctx none fuel (visit st n) n run).0) next
        (deeper (visit st n) n run (OnBoard-visit s.graph.total_cells b.fits st o n inside)
          (omega (arith, ap count_bits next, fewer)))

  pub dfs_count-Some :
      (fuel : ℕ) (st : State) (end : ℕ) (run : Run)
      → OnBoard s.graph.total_cells st
      → count_bits (invert st s.graph.total_cells) < fuel
      → (Q → (n : ℕ) → ctx n ≡ false)
      → Some Q s.graph end (invert st s.graph.total_cells) (dfs_count s ctx none fuel st end run).0
  unfolding dfs_count stop_answer
  dfs_count-Some zero st end run o lt never = absurd (omega arith)
  dfs_count-Some (suc fuel) st end run o lt never =
      let total = s.graph.total_cells in
      let u = invert st total in
      let w = invert-IsWord st total in
      elim (Bool-cases (ctx run.polls)) [
        | inl e ↦
            rw (e, dfs_count)
              (record {
                paths = [];
                counted = refl;
                distinct = unfold Distinct in tt;
                sound = λ p i. absurd i;
                all = λ h p c. cc (e, never h run.polls);
              })
        | inr e ↦ elim (Bool-cases (leb total (count_bits st))) [
          | inl full ↦
              rw (e, full, dfs_count) (Some-empty u end w (full-is_empty total b.fits st o full))
          | inr more ↦
              let descend = dfs_count s ctx none fuel in
              let (k, eq, f) =
                count_loop-From Q s b u w descend st
                  (next_Some fuel st o lt
                    (λ st' n run' o' lt'. dfs_count-Some fuel st' n run' o' lt' never))
                  (candidates s u end) 0 0 (poll run)
                  (unfold candidates in
                    all_visited-AscendsFrom _
                      (intersect-IsWord u (get_neighbor_mask s.graph end) w))
                  (λ n i. ((candidate u end n w).0 i).0) in
              rw (e, more, dfs_count)
                (rw (eq ∙ zero_add k)
                  (Some-From u end k w (more-is_empty total b.fits st o more) f))
        ]
      ]
