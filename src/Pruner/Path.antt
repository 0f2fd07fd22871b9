-- ===== src/Pruner/Path.antt =====
-- The paths that a branch of searcher/searcher.go's descent may still take: they leave `last` by an
-- edge and visit each unvisited cell once. Degrees and connectivity along such a path.
use knighttour.Prelude.{ℕ, ◌<◌, ◌==◌, true}
use knighttour.Prelude.{
  ◌≡◌, ◌≢◌, sym, ◌∙◌, ◌⊎◌, inl, inr, List, [], ◌∷◌, arith, Bool-cases, ==→≡, ==_self,
}
use knighttour.State.{State, is_visited, unvisit, is_empty}
use knighttour.State.Bits.{IsWord, unvisit-IsWord, is_visited-unvisit, is_empty-cells}
use knighttour.State.Cells.{In}
use knighttour.Graph.{Graph, get_neighbor_mask}
use knighttour.Graph.Masks.{IsBoard}

module _ (g : Graph) where
  abbrev pub Adjacent : ℕ → ℕ → Type 0
  Adjacent p q = is_visited (get_neighbor_mask g p) q ≡ true

  -- `path` goes on from `last` through exactly the cells of `u`, each once.
  unfoldable pub Completes : ℕ → State → List ℕ → Type 0
  Completes last u [] = is_empty u ≡ true
  Completes last u (n ∷ path) = In u n × Adjacent last n × Completes n (unvisit u n) path

  -- A cell with two neighbours among the cells of `u`.
  pub record Internal (u : State) (q : ℕ) : Type 0 where
    pub one : ℕ
    pub other : ℕ
    pub apart : one ≢ other
    pub one_in : In u one
    pub other_in : In u other
    pub to_one : Adjacent q one
    pub to_other : Adjacent q other

-- The cells of `unvisit u n`.
pub In-unvisit : (u n q : ℕ) → n < 64 → In (unvisit u n) q → In u q × (q ≢ n)
In-unvisit u n q hn (hq, v) =
    let e = sym (is_visited-unvisit u n q hn hq) ∙ v in
    ((hq, ground arith), λ same. ground (arith, ==_self q))

pub In-cases : (u n q : ℕ) → n < 64 → In u q → (q ≡ n) ⊎ In (unvisit u n) q
In-cases u n q hn (hq, v) = elim (Bool-cases (n == q)) [
  | inl e ↦ inl (sym (==→≡ n q e))
  | inr e ↦ inr (hq, is_visited-unvisit u n q hn hq ∙ ground arith)
]

unfoldable pub last_of : ℕ → List ℕ → ℕ
last_of n [] = n
last_of n (m ∷ p) = last_of m p

module _ (g : Graph) (b : IsBoard g) where
  Internal-unvisit : (u n q : ℕ) → n < 64 → Internal g (unvisit u n) q → Internal g u q
  Internal-unvisit u n q hn i = record {
    one = i.one;
    other = i.other;
    apart = i.apart;
    one_in = (In-unvisit u n i.one hn i.one_in).0;
    other_in = (In-unvisit u n i.other hn i.other_in).0;
    to_one = i.to_one;
    to_other = i.to_other;
  }

  pub nothing_left : (u q : ℕ) → IsWord u → is_empty u ≡ true → ¬ In u q
  nothing_left u q w e (hq, v) = cc (is_empty-cells u w e q hq)

  pub last_of-In : (last u n : ℕ) (p : List ℕ) → Completes g last u (n ∷ p) → In u (last_of n p)
  unfolding Completes last_of
  last_of-In last u n [] c = c.0
  last_of-In last u n (m ∷ p) c =
      (In-unvisit u n (last_of m p) c.0.0 (last_of-In n (unvisit u n) m p c.2)).0

  -- The second cell of a path, and its last, differ from the first.
  pub last_of-ne : (last u n m : ℕ) (p : List ℕ) → Completes g last u (n ∷ m ∷ p) → last_of m p ≢ n
  unfolding Completes
  last_of-ne last u n m p c =
      (In-unvisit u n (last_of m p) c.0.0 (last_of-In n (unvisit u n) m p c.2)).1

  -- Only the ends of a path can have fewer than two neighbours in what it covers.
  pub ends_or_Internal :
      (last u n : ℕ) (p : List ℕ)
      → IsWord u
      → Completes g last u (n ∷ p)
      → (q : ℕ) → In u q
      → (q ≡ n) ⊎ (q ≡ last_of n p) ⊎ Internal g u q
  unfolding Completes last_of
  ends_or_Internal last u n [] w c q i = elim (In-cases u n q c.0.0 i) [
    | inl e ↦ inl e
    | inr later ↦ absurd (nothing_left (unvisit u n) q (unvisit-IsWord u 0 w n) c.2 later)
  ]
  ends_or_Internal last u n (m ∷ p) w c q i = elim (In-cases u n q c.0.0 i) [
    | inl e ↦ inl e
    | inr later ↦ elim (ends_or_Internal n (unvisit u n) m p (unvisit-IsWord u 0 w n) c.2 q later) [
      | inl e ↦ second p c e
      | inr (inl e) ↦ inr (inl e)
      | inr (inr inner) ↦ inr (inr (Internal-unvisit u n q c.0.0 inner))
    ]
  ]
    where
      second :
          (p : List ℕ)
          → Completes g last u (n ∷ m ∷ p)
          → q ≡ m
          → (q ≡ n) ⊎ (q ≡ last_of m p) ⊎ Internal g u q
      second [] d e = inr (inl e)
      second (k ∷ p') d e =
          let third = In-unvisit (unvisit u n) m k d.2.0.0 d.2.2.0 in
          let there = In-unvisit u n k d.0.0 third.0 in
          inr (
            inr (record {
              one = n;
              other = k;
              apart = λ same. there.1 (sym same);
              one_in = d.0;
              other_in = there.0;
              to_one = rw e (b.symm n m d.0.0 d.2.0.0 d.2.1);
              to_other = rw e d.2.2.1;
            }))

  -- A path of two or more cells leaves no cell without a neighbour.
  pub has_neighbour :
      (last u n m : ℕ) (p : List ℕ)
      → Completes g last u (n ∷ m ∷ p)
      → IsWord u
      → (q : ℕ) → In u q
      → (r : ℕ) × In u r × Adjacent g q r
  unfolding Completes
  has_neighbour last u n m [] c w q i = elim (In-cases u n q c.0.0 i) [
    | inl e ↦ (m, (In-unvisit u n m c.0.0 c.2.0).0, rw e c.2.1)
    | inr later ↦ elim (In-cases (unvisit u n) m q c.2.0.0 later) [
      | inl e ↦ (n, c.0, rw e (b.symm n m c.0.0 c.2.0.0 c.2.1))
      | inr nowhere ↦ absurd (
          nothing_left (unvisit (unvisit u n) m) q
            (unvisit-IsWord (unvisit u n) 0 (unvisit-IsWord u 0 w n) m) c.2.2 nowhere)
    ]
  ]
  has_neighbour last u n m (k ∷ p) c w q i = elim (In-cases u n q c.0.0 i) [
    | inl e ↦ (m, (In-unvisit u n m c.0.0 c.2.0).0, rw e c.2.1)
    | inr later ↦
        let (r, inside, edge) =
          has_neighbour n (unvisit u n) m k p c.2 (unvisit-IsWord u 0 w n) q later in
        (r, (In-unvisit u n r c.0.0 inside).0, edge)
  ]

  -- A set of cells that takes in every neighbour, within `u`, of its members.
  abbrev pub Closed : (S u : State) → Type 0
  Closed S u = (x y : ℕ) → In S x → In u y → Adjacent g x y → In S y

  Closed-unvisit : (S u n : ℕ) → n < 64 → Closed S u → Closed S (unvisit u n)
  Closed-unvisit S u n hn close x y ix iy edge = close x y ix (In-unvisit u n y hn iy).0 edge

  reaches_first :
      (S last u n : ℕ) (p : List ℕ)
      → Closed S u
      → Completes g last u (n ∷ p)
      → IsWord u
      → (q : ℕ) → In u q
      → In S q
      → In S n
  unfolding Completes
  reaches_first S last u n [] close c w q i s = elim (In-cases u n q c.0.0 i) [
    | inl e ↦ rw (← e) s
    | inr later ↦ absurd (nothing_left (unvisit u n) q (unvisit-IsWord u 0 w n) c.2 later)
  ]
  reaches_first S last u n (m ∷ p) close c w q i s = elim (In-cases u n q c.0.0 i) [
    | inl e ↦ rw (← e) s
    | inr later ↦
        let next =
          reaches_first S n (unvisit u n) m p (Closed-unvisit S u n c.0.0 close) c.2
            (unvisit-IsWord u 0 w n) q later s in
        close m n next c.0 (b.symm n m c.0.0 c.2.0.0 c.2.1)
  ]

  reaches_all :
      (S last u n : ℕ) (p : List ℕ)
      → Closed S u
      → Completes g last u (n ∷ p)
      → IsWord u
      → In S n
      → (q : ℕ) → In u q
      → In S q
  unfolding Completes
  reaches_all S last u n [] close c w s q i = elim (In-cases u n q c.0.0 i) [
    | inl e ↦ rw e s
    | inr later ↦ absurd (nothing_left (unvisit u n) q (unvisit-IsWord u 0 w n) c.2 later)
  ]
  reaches_all S last u n (m ∷ p) close c w s q i = elim (In-cases u n q c.0.0 i) [
    | inl e ↦ rw e s
    | inr later ↦
        reaches_all S n (unvisit u n) m p (Closed-unvisit S u n c.0.0 close) c.2
          (unvisit-IsWord u 0 w n) (close n m s (In-unvisit u n m c.0.0 c.2.0).0 c.2.1) q later
  ]

  -- A closed set that holds one cell of a path holds them all.
  pub Closed-covers :
      (S last u n : ℕ) (p : List ℕ)
      → Closed S u
      → Completes g last u (n ∷ p)
      → IsWord u
      → (q₀ : ℕ) → In u q₀
      → In S q₀
      → (q : ℕ) → In u q
      → In S q
  Closed-covers S last u n p close c w q₀ i s =
      reaches_all S last u n p close c w (reaches_first S last u n p close c w q₀ i s)
