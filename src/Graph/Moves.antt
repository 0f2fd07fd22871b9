-- ===== src/Graph/Moves.antt =====
-- graph/graph.go, `buildNeighbors`: the neighbour lists and the knight's move as a relation.
use native.Mathlib.Nat.{mul-add-div_right, div-lt_iff_lt-mul, div-add-mod', mod-lt, div-eq_of_lt}
use knighttour.Prelude.{ℕ, suc, ◌+◌, ◌*◌, ◌/◌, ◌%◌, ◌<◌}
use knighttour.Prelude.{true, ◌&&◌, ◌≡◌, sym, ap, ◌∙◌, ◌↔◌, ◌⊎◌, inl, inr, arith}
use knighttour.Prelude.{List, [], ◌∷◌, ◌++◌, get_or-map-range, ◌∈◌, &&-true, ltb, ltb→lt}
use knighttour.Prelude.Int.{ℤ, add_offset, in_range, to_ℕ}
use knighttour.Graph.{
  Move, possible_moves, Row, try_move, try_moves, build_row, new, get_neighbors, get_neighbor_mask,
}

-- Two steps one way and one the other, between cells given by their coordinates.
abbrev Apart : ℕ → ℕ → ℕ → Type 0
Apart d a b = (a + d ≡ b) ⊎ (b + d ≡ a)

unfoldable pub IsKnightMove : ℕ → ℕ → ℕ → Type 0
IsKnightMove size p q =
    (Apart 1 (p / size) (q / size) × Apart 2 (p % size) (q % size))
    ⊎ (Apart 2 (p / size) (q / size) × Apart 1 (p % size) (q % size))

pub IsKnightMove-symm : (size p q : ℕ) → IsKnightMove size p q → IsKnightMove size q p
unfolding IsKnightMove
IsKnightMove-symm size p q h = ground arith

pub IsKnightMove-irrefl : (size p : ℕ) → ¬ IsKnightMove size p p
unfolding IsKnightMove
IsKnightMove-irrefl size p h = ground arith

-- The coordinates of a cell.
cell_coords : (size x y : ℕ) → y < size → ((x * size + y) / size ≡ x) × ((x * size + y) % size ≡ y)
cell_coords size x y h =
    let quotient : (x * size + y) / size ≡ x =
      mul-add-div_right (omega arith) x y ∙ omega (arith, div-eq_of_lt h) in
    (quotient, omega (arith, div-add-mod' (x * size + y) size, ap (λ (t : ℕ). t * size) quotient))

-- The test and the index of a round, for the moved coordinates `a` and `b`.
inside_coords :
    (size q : ℕ) (a b : ℤ)
    → q < size * size
    → (((in_range a size && in_range b size) ≡ true) × (q ≡ to_ℕ a * size + to_ℕ b))
      ↔ ((a ≡ ℤ.pos (q / size)) × (b ≡ ℤ.pos (q % size)))
inside_coords size q (ℤ.pos n) (ℤ.pos k) h = (
  λ (test, e).
      let (hn, hk) = &&-true (ltb n size) (ltb k size) test in
      let (quotient, remainder) = cell_coords size n k (ltb→lt k size hk) in
      (
        ap ℤ.pos (sym (ap (λ (t : ℕ). t / size) e ∙ quotient)),
        ap ℤ.pos (sym (ap (λ (t : ℕ). t % size) e ∙ remainder)),
      ),
  λ (e, f).
      let pos_size : 0 < size = grind arith in
      let row : n ≡ q / size = ground (arith, e) in
      let column : k ≡ q % size = ground (arith, f) in
      let small = (div-lt_iff_lt-mul {k = size} {x = q} {y = size} pos_size).1 h in
      let narrow = mod-lt q pos_size in
      (ground arith, rw (row, column) (sym (div-add-mod' q size))),
)
inside_coords size q (ℤ.pos n) (ℤ.negsuc k) h = (λ (test, e). ground arith, λ (e, f). cc)
inside_coords size q (ℤ.negsuc n) b h = (λ (test, e). ground arith, λ (e, f). cc)

-- A cell is a target of the move: the loop's test passes, and the index that it stores is `q`.
abbrev pub Target : ℕ → ℕ → ℕ → Move → ℕ → Type 0
Target size x y m q =
    ((in_range (add_offset x m.dx) size && in_range (add_offset y m.dy) size) ≡ true)
    × (q ≡ to_ℕ (add_offset x m.dx) * size + to_ℕ (add_offset y m.dy))

abbrev AnyTarget : ℕ → ℕ → ℕ → List Move → ℕ → Type 0
AnyTarget size x y [] q = ⊥
AnyTarget size x y (m ∷ ms) q = Target size x y m q ⊎ AnyTarget size x y ms q

pub mem-snoc : (q n : ℕ) (xs : List ℕ) → (q ∈ (xs ++ n ∷ [])) ↔ ((q ∈ xs) ⊎ (q ≡ n))
mem-snoc q n [] = (ground arith, ground arith)
mem-snoc q n (x ∷ xs) = let (f, g) = mem-snoc q n xs in (ground (arith, f), ground (arith, g))

-- A coordinate moved by an offset.
abbrev Offset : ℤ → ℕ → ℕ → Type 0
Offset (ℤ.pos n) a b = a + n ≡ b
Offset (ℤ.negsuc n) a b = b + suc n ≡ a

add_offset-Offset : (d : ℤ) (a b : ℕ) → (add_offset a d ≡ ℤ.pos b) ↔ Offset d a b
add_offset-Offset (ℤ.pos n) a b = (ground arith, ground arith)
add_offset-Offset (ℤ.negsuc n) a b = (ground arith, ground arith)

abbrev AnyOffset : ℕ → ℕ → ℕ → ℕ → List Move → Type 0
AnyOffset x y x' y' [] = ⊥
AnyOffset x y x' y' (m ∷ ms) = Offset m.dx x x' × Offset m.dy y y' ⊎ AnyOffset x y x' y' ms

module _ (size x y q : ℕ) where
  pub mem-try_move :
      (m : Move) (row : Row)
      → (q ∈ (try_move size x y m row).cells) ↔ ((q ∈ row.cells) ⊎ Target size x y m q)
  unfolding try_move
  mem-try_move m row =
      let n = to_ℕ (add_offset x m.dx) * size + to_ℕ (add_offset y m.dy) in
      let (f, g) = mem-snoc q n row.cells in (ground (arith, f), ground (arith, g))

  mem-try_moves :
      (ms : List Move) (row : Row)
      → (q ∈ (try_moves size x y ms row).cells) ↔ ((q ∈ row.cells) ⊎ AnyTarget size x y ms q)
  unfolding try_moves
  mem-try_moves [] row = (ground arith, ground arith)
  mem-try_moves (m ∷ ms) row =
      let (f, g) = mem-try_moves ms (try_move size x y m row) in
      let (f', g') = mem-try_move m row in (ground (arith, f, f'), ground (arith, g, g'))

  Target-offsets :
      (m : Move)
      → q < size * size
      → Target size x y m q ↔ (Offset m.dx x (q / size) × Offset m.dy y (q % size))
  Target-offsets m h =
      let (f, g) = inside_coords size q (add_offset x m.dx) (add_offset y m.dy) h in
      let (f₁, g₁) = add_offset-Offset m.dx x (q / size) in
      let (f₂, g₂) = add_offset-Offset m.dy y (q % size) in
      (λ t. (f₁ (f t).0, f₂ (f t).1), λ (a, b). g (g₁ a, g₂ b))

  AnyTarget-offsets :
      (ms : List Move)
      → q < size * size
      → AnyTarget size x y ms q ↔ AnyOffset x y (q / size) (q % size) ms
  AnyTarget-offsets [] h = (λ t. t, λ t. t)
  AnyTarget-offsets (m ∷ ms) h =
      let (f, g) = Target-offsets m h in
      let (f', g') = AnyTarget-offsets ms h in
      (
        elim [ inl t ↦ inl (f t) | inr t ↦ inr (f' t) ],
        elim [ inl t ↦ inl (g t) | inr t ↦ inr (g' t) ],
      )

  mem-build :
      q < size * size
      → (q ∈ (try_moves size x y possible_moves (record { cells = []; mask = 0 })).cells)
        ↔ AnyOffset x y (q / size) (q % size) possible_moves
  mem-build h =
      let (f, g) = mem-try_moves possible_moves (record { cells = []; mask = 0 }) in
      let (f', g') = AnyTarget-offsets possible_moves h in
      (λ t. elim (f t) [ inl nowhere ↦ absurd nowhere | inr u ↦ f' u ], λ t. g (inr (g' t)))

knight_offsets :
    (x y x' y' : ℕ)
    → AnyOffset x y x' y' possible_moves
      ↔ ((Apart 1 x x' × Apart 2 y y') ⊎ (Apart 2 x x' × Apart 1 y y'))
knight_offsets x y x' y' = (ground arith, ground arith)

index-lt : (size n k : ℕ) → n < size → k < size → n * size + k < size * size
index-lt size n k h h' = grind arith

-- A target of a move lies on the board.
pub Target-lt :
    (size x y q : ℕ) (a b : ℤ)
    → ((in_range a size && in_range b size) ≡ true)
    → q ≡ to_ℕ a * size + to_ℕ b
    → q < size * size
Target-lt size x y q (ℤ.pos n) (ℤ.pos k) test e =
    let (hn, hk) = &&-true (ltb n size) (ltb k size) test in
    rw e (index-lt size n k (ltb→lt n size hn) (ltb→lt k size hk))
Target-lt size x y q (ℤ.pos n) (ℤ.negsuc k) test e = ground arith
Target-lt size x y q (ℤ.negsuc n) b test e = cc

AnyTarget-lt : (size x y q : ℕ) (ms : List Move) → AnyTarget size x y ms q → q < size * size
AnyTarget-lt size x y q [] t = absurd t
AnyTarget-lt size x y q (m ∷ ms) (inl t) =
    Target-lt size x y q (add_offset x m.dx) (add_offset y m.dy) t.0 t.1
AnyTarget-lt size x y q (m ∷ ms) (inr t) = AnyTarget-lt size x y q ms t

pub neighbors-row :
    (size p : ℕ) → p < size * size → get_neighbors (new size) p ≡ (build_row size p).cells
unfolding get_neighbors new
neighbors-row size p h =
    get_or-map-range (λ pos. (build_row size pos).cells) [] (size * size) 0 p h
    ∙ ap (λ pos. (build_row size pos).cells) (omega arith)

pub mask-row :
    (size p : ℕ) → p < size * size → get_neighbor_mask (new size) p ≡ (build_row size p).mask
unfolding get_neighbor_mask new
mask-row size p h =
    get_or-map-range (λ pos. (build_row size pos).mask) 0 (size * size) 0 p h
    ∙ ap (λ pos. (build_row size pos).mask) (omega arith)

-- On a board of any size, for each of its cells, the neighbours that `GetNeighbors` lists are
-- exactly the cells of the board a knight's move away.
pub get_neighbors-IsKnightMove :
    (size p q : ℕ)
    → p < size * size
    → (q ∈ get_neighbors (new size) p) ↔ ((q < size * size) × IsKnightMove size p q)
unfolding IsKnightMove build_row
get_neighbors-IsKnightMove size p q h =
    let row = neighbors-row size p h in
    let (f, g) =
      mem-try_moves size (p / size) (p % size) q possible_moves (record { cells = []; mask = 0 }) in
    let both = λ (lt : q < size * size). mem-build size (p / size) (p % size) q lt in
    let (out, back) = knight_offsets (p / size) (p % size) (q / size) (q % size) in
    (
      rw row (λ t.
          let lt : q < size * size = elim (f t) [
            | inl nowhere ↦ absurd nowhere
            | inr u ↦ AnyTarget-lt size (p / size) (p % size) q possible_moves u
          ] in
          (lt, out ((both lt).0 t))),
      rw row (λ (lt, k). (both lt).1 (back k)),
    )
