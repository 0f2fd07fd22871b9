-- ===== src/Graph/Masks.antt =====
-- graph/graph.go, the neighbour masks, and the interface of a board.
use native.Mathlib.Decide.{dec_lt}
use knighttour.Prelude.{ℕ, zero, suc, ◌+◌, ◌*◌, ◌/◌, ◌%◌, ◌≤◌, ◌<◌}
use knighttour.Prelude.{true, false, ◌&&◌, ◌≡◌, refl, ap, ◌↔◌, inl, inr, arith}
use knighttour.Prelude.{List, [], ◌∷◌, ◌∈◌, length, get_or, range, map, Bool-cases}
use knighttour.Prelude.Int.{add_offset, in_range, to_ℕ}
use knighttour.State.{is_visited}
use knighttour.State.Bits.{IsWord, is_visited-visit, is_visited-empty, visit-IsWord}
use knighttour.Graph.{
  Graph, Move, possible_moves, Row, try_move, try_moves, build_row, new, get_neighbors,
  get_neighbor_mask,
}
use knighttour.Graph.Moves.{
  IsKnightMove, IsKnightMove-symm, IsKnightMove-irrefl, Target-lt, mem-snoc, neighbors-row,
  mask-row, get_neighbors-IsKnightMove,
}

-- The mask of a row has the cells of its list.
record Agrees (row : Row) : Type 0 where
  word : IsWord row.mask
  bits : (q : ℕ) → q < 64 → (is_visited row.mask q ≡ true) ↔ (q ∈ row.cells)

module _ (size x y : ℕ) (small : size * size ≤ 64) where
  try_move-Agrees : (m : Move) (row : Row) → Agrees row → Agrees (try_move size x y m row)
  unfolding try_move
  try_move-Agrees m row a =
      let nx = add_offset x m.dx in
      let ny = add_offset y m.dy in
      let n = to_ℕ nx * size + to_ℕ ny in
      elim (Bool-cases (in_range nx size && in_range ny size)) [
        | inr off ↦ rw off a
        | inl on ↦
            let lt : n < 64 = omega (arith, Target-lt size x y n nx ny on refl) in
            rw on (record {
              word = visit-IsWord row.mask 0 a.word n;
              bits = λ q hq.
                  let (f, g) = mem-snoc q n row.cells in
                  let (b, c) = a.bits q hq in
                  (
                    ground (arith, is_visited-visit row.mask n q lt hq, g, b),
                    ground (arith, is_visited-visit row.mask n q lt hq, f, c),
                  );
            })
      ]

  try_moves-Agrees : (ms : List Move) (row : Row) → Agrees row → Agrees (try_moves size x y ms row)
  unfolding try_moves
  try_moves-Agrees [] row a = a
  try_moves-Agrees (m ∷ ms) row a = try_moves-Agrees ms _ (try_move-Agrees m row a)

empty-Agrees : Agrees (record { cells = []; mask = 0 })
empty-Agrees = record {
  word = omega arith;
  bits = λ q hq. (λ e. cc (is_visited-empty q hq), λ m. absurd m);
}

build_row-Agrees : (size p : ℕ) → size * size ≤ 64 → Agrees (build_row size p)
unfolding build_row
build_row-Agrees size p h =
    try_moves-Agrees size (p / size) (p % size) h possible_moves _ empty-Agrees

get_or-beyond : {A : Type 0} (d : A) (xs : List A) (i : ℕ) → length xs ≤ i → get_or xs i d ≡ d
get_or-beyond d [] i h = refl
get_or-beyond d (x ∷ xs) zero h = absurd (omega arith)
get_or-beyond d (x ∷ xs) (suc i) h = get_or-beyond d xs i (omega arith)

-- On a board of at most 64 cells, for a cell `p` of the board and `q` below 64, bit `q` of the
-- mask of `p` says whether `q` is in the list of `p`.
pub get_neighbor_mask-get_neighbors :
    (size p q : ℕ)
    → size * size ≤ 64
    → p < size * size
    → q < 64
    → (is_visited (get_neighbor_mask (new size) p) q ≡ true) ↔ (q ∈ get_neighbors (new size) p)
get_neighbor_mask-get_neighbors size p q small h hq =
    rw (mask-row size p h, neighbors-row size p h) ((build_row-Agrees size p small).bits q hq)

-- What the pruner and the searcher ask of a graph: a board of at most 64 cells whose neighbour
-- masks are words with board cells only, symmetric and without loops.
pub record IsBoard (g : Graph) : Type 0 where
  pub fits : g.total_cells ≤ 64
  pub word : (p : ℕ) → IsWord (get_neighbor_mask g p)
  pub symm :
      (p q : ℕ)
      → p < 64
      → q < 64
      → is_visited (get_neighbor_mask g p) q ≡ true
      → is_visited (get_neighbor_mask g q) p ≡ true
  pub on_board :
      (p q : ℕ) → q < 64 → is_visited (get_neighbor_mask g p) q ≡ true → q < g.total_cells
  pub no_loop : (p : ℕ) → p < 64 → is_visited (get_neighbor_mask g p) p ≡ false

length-map-range : {A : Type 0} (f : ℕ → A) (n lo : ℕ) → length (map f (range lo n)) ≡ n
length-map-range f zero lo = refl
length-map-range f (suc n) lo = ap suc (length-map-range f n (suc lo))

module _ (size : ℕ) (small : size * size ≤ 64) where
  outside : (p : ℕ) → size * size ≤ p → get_neighbor_mask (new size) p ≡ 0
  unfolding get_neighbor_mask new
  outside p h =
      get_or-beyond 0 _ p
        (rw (length-map-range (λ pos. (build_row size pos).mask) (size * size) 0) h)

  mask-word : (p : ℕ) → IsWord (get_neighbor_mask (new size) p)
  mask-word p = elim (dec_lt p (size * size)) [
    | yes h ↦ rw (mask-row size p h) (build_row-Agrees size p small).word
    | no h ↦ rw (outside p (omega arith)) (omega arith)
  ]

  mask-IsKnightMove :
      (p q : ℕ)
      → q < 64
      → (is_visited (get_neighbor_mask (new size) p) q ≡ true)
        ↔ ((p < size * size) × (q < size * size) × IsKnightMove size p q)
  mask-IsKnightMove p q hq = elim (dec_lt p (size * size)) [
    | yes h ↦
        let (f, g) = get_neighbor_mask-get_neighbors size p q small h hq in
        let (f', g') = get_neighbors-IsKnightMove size p q h in
        (λ e. let (a, b) = f' (f e) in (h, a, b), λ (_, a, b). g (g' (a, b)))
    | no h ↦ (
      λ e. cc (rw (outside p (omega arith)) at e, is_visited-empty q hq),
      λ (a, _, _). absurd (h a),
    )
  ]

  new_board : IsBoard (new size)
  unfolding new
  new_board = record {
    fits = small;
    word = mask-word;
    symm = λ p q hp hq e.
        let (a, b, k) = (mask-IsKnightMove p q hq).0 e in
        (mask-IsKnightMove q p hp).1 (b, a, IsKnightMove-symm size p q k);
    on_board = λ p q hq e. ((mask-IsKnightMove p q hq).0 e).1;
    no_loop = λ p hp. elim (Bool-cases (is_visited (get_neighbor_mask (new size) p) p)) [
      | inl e ↦ absurd (IsKnightMove-irrefl size p ((mask-IsKnightMove p p hp).0 e).2)
      | inr e ↦ e
    ];
  }

-- A board that `New` makes with at most 64 cells meets the interface: every neighbour mask is a word
-- of board cells, and the masks are symmetric and without loops.
pub new-IsBoard : (size : ℕ) → size * size ≤ 64 → IsBoard (new size)
new-IsBoard size small = new_board size small
