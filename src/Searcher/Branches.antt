-- ===== src/Searcher/Branches.antt =====
-- searcher/searcher.go, `dfsCount`: the loop over the candidates, and the paths of its branches.
use knighttour.Prelude.{ℕ, suc, ◌+◌, ◌≤◌, ◌<◌, Bool-cases, arith}
use knighttour.Prelude.{
  ◌≡◌, refl, sym, ap, ◌∙◌, inl, inr, List, [], ◌∷◌, ◌++◌, map, length, length-append, ◌∈◌,
}
use knighttour.Prelude.{none, some, Option-cases}
use knighttour.State.{State, visit, unvisit, is_empty}
use knighttour.State.Bits.{IsWord, unvisit-IsWord}
use knighttour.State.Cells.{In, AscendsFrom}
use knighttour.Graph.{Graph}
use knighttour.Graph.Masks.{IsBoard}
use knighttour.Pruner.{Reason}
use knighttour.Pruner.Path.{Completes, Adjacent}
use knighttour.Pruner.Sound.{should_prune_after_visit_sound}
use knighttour.Types.{count_prune}
use knighttour.Searcher.{Searcher, Run, cut_reason, count_loop}
use knighttour.Searcher.Paths.{
  Distinct, mem-append, Distinct-append, mem-map_cons, cons_head, Distinct-map_cons, length-map,
}

-- `found` is the number of some paths that go on from `last` through exactly the cells of `u`; they
-- are all of them if the statement `Q` holds.
pub record Some (Q : Type 0) (g : Graph) (last : ℕ) (u : State) (found : ℕ) : Type 0 where
  pub paths : List (List ℕ)
  pub counted : length paths ≡ found
  pub distinct : Distinct paths
  pub sound : (p : List ℕ) → p ∈ paths → Completes g last u p
  pub all : Q → (p : List ℕ) → Completes g last u p → p ∈ paths

-- The same for the paths whose first cell is one of `ns`.
pub record From (Q : Type 0) (g : Graph) (u : State) (ns : List ℕ) (found : ℕ) : Type 0 where
  pub paths : List (List ℕ)
  pub counted : length paths ≡ found
  pub distinct : Distinct paths
  pub sound :
      (p : List ℕ)
      → p ∈ paths
      → (n : ℕ) × (q : List ℕ) × (p ≡ n ∷ q) × (n ∈ ns) × Completes g n (unvisit u n) q
  pub all : Q → (n : ℕ) (q : List ℕ) → n ∈ ns → Completes g n (unvisit u n) q → (n ∷ q) ∈ paths

pub Completes-first :
    (g : Graph) (last : ℕ) (u : State) (n : ℕ) (p : List ℕ)
    → Completes g last u (n ∷ p)
    → In u n × Adjacent g last n × Completes g n (unvisit u n) p
unfolding Completes
Completes-first g last u n p c = c

ascends_lt : (lo n : ℕ) (ns : List ℕ) → AscendsFrom lo ns → n ∈ ns → lo ≤ n
ascends_lt lo n [] up m = absurd m
ascends_lt lo n (k ∷ ns) up (inl e) = omega (arith, up.0)
ascends_lt lo n (k ∷ ns) up (inr m) = omega (arith, ascends_lt (suc k) n ns up.1 m, up.0)

module _ (Q : Type 0) (s : Searcher) (b : IsBoard s.graph) (u : State) (w : IsWord u) where
  -- The pruner cuts no branch that has a completion.
  cut_reason-none :
      (n : ℕ) (q : List ℕ) → n < 64 → Completes s.graph n (unvisit u n) q → cut_reason s u n ≡ none
  unfolding cut_reason
  cut_reason-none n q lt c =
      rw (should_prune_after_visit_sound s.graph b n (unvisit u n) q lt (unvisit-IsWord u 0 w n) c)
        (elim (Bool-cases (is_empty (unvisit u n))) [ inl e ↦ rw e refl | inr e ↦ rw e refl ])

  From-cons :
      (n : ℕ) (ns : List ℕ) (k rest : ℕ)
      → AscendsFrom (suc n) ns
      → Some Q s.graph n (unvisit u n) k
      → From Q s.graph u ns rest
      → From Q s.graph u (n ∷ ns) (k + rest)
  From-cons n ns k rest up here there = record {
    paths = map (λ q. n ∷ q) here.paths ++ there.paths;
    counted = omega (
      arith,
      length-append (map (λ q. n ∷ q) here.paths) there.paths,
      length-map (λ q. n ∷ q) here.paths,
      here.counted,
      there.counted,
    );
    distinct =
        Distinct-append _ _ (Distinct-map_cons n here.paths here.distinct) there.distinct λ p i j.
          let (q, e, m) = (mem-map_cons n here.paths p).0 i in
          let (n', q', e', m', c) = there.sound p j in
          omega (arith, cons_head n n' q q' (sym e ∙ e'), ascends_lt (suc n) n' ns up m');
    sound = λ p i. elim ((mem-append p (map (λ q. n ∷ q) here.paths) there.paths).0 i) [
      | inl a ↦
          let (q, e, m) = (mem-map_cons n here.paths p).0 a in (n, q, e, inl refl, here.sound q m)
      | inr a ↦ let (n', q', e', m', c) = there.sound p a in (n', q', e', inr m', c)
    ];
    all = λ holds n' q m c. elim m [
      | inl e ↦ (mem-append (n' ∷ q) (map (λ q. n ∷ q) here.paths) there.paths).1 (
          inl (
            (mem-map_cons n here.paths (n' ∷ q)).1
              (q, ap (λ t. t ∷ q) e, here.all holds q (rw (← e) c))))
      | inr later ↦
          (mem-append (n' ∷ q) (map (λ q. n ∷ q) here.paths) there.paths).1
            (inr (there.all holds n' q later c))
    ];
  }

  From-skip :
      (n : ℕ) (ns : List ℕ) (rest : ℕ) (r : Reason)
      → n < 64
      → cut_reason s u n ≡ some r
      → From Q s.graph u ns rest
      → From Q s.graph u (n ∷ ns) rest
  From-skip n ns rest r lt cut there = record {
    paths = there.paths;
    counted = there.counted;
    distinct = there.distinct;
    sound = λ p i. let (n', q', e', m', c) = there.sound p i in (n', q', e', inr m', c);
    all = λ holds n' q m c. elim m [
      | inl e ↦ cc (cut, cut_reason-none n q lt (rw (← e) c))
      | inr later ↦ there.all holds n' q later c
    ];
  }

  module _ (descend : State → ℕ → Run → ℕ × Run) (st : State)
      (counts : (n : ℕ) (run : Run)
        → In u n
        → Some Q s.graph n (unvisit u n) (descend (visit st n) n run).0) where
    pub count_loop-From :
        (ns : List ℕ) (lo found : ℕ) (run : Run)
        → AscendsFrom lo ns
        → ((n : ℕ) → n ∈ ns → In u n)
        → (k : ℕ) × ((count_loop s descend st u ns found run).0 ≡ found + k) × From Q s.graph u ns k
    unfolding count_loop
    count_loop-From [] lo found run up inside = (
      0,
      omega arith,
      record {
        paths = [];
        counted = refl;
        distinct = unfold Distinct in tt;
        sound = λ p i. absurd i;
        all = λ h n q m c. absurd m;
      },
    )
    count_loop-From (n ∷ ns) lo found run up inside =
        let later = λ (m : ℕ) (i : m ∈ ns). inside m (inr i) in
        elim (Option-cases (cut_reason s u n)) [
          | inr (r, e) ↦
              let (k, eq, f) =
                count_loop-From ns (suc n) found (record run { result = count_prune run.result r })
                  up.1 later in
              rw (e, count_loop) (k, eq, From-skip n ns k r (inside n (inl refl)).0 e f)
          | inl e ↦
              let sub = descend (visit st n) n run in
              let (k, eq, f) = count_loop-From ns (suc n) (found + sub.0) sub.1 up.1 later in
              rw (e, count_loop)
                (
                  sub.0 + k,
                  omega (arith, eq),
                  From-cons n ns sub.0 k up.1 (counts n run (inside n (inl refl))) f,
                )
        ]
