-- ===== src/Graph.antt =====
-- graph/graph.go: the knight's moves on a square board, as neighbour lists and neighbour masks.
pub mod Moves
pub mod Masks
use knighttour.Prelude.{
  ℕ, zero, suc, ◌+◌, ◌*◌, ◌/◌, ◌%◌, ◌==◌, if◌then◌else◌, Bool, true, false, not, ◌&&◌,
}
use knighttour.Prelude.{List, [], ◌∷◌, ◌++◌, map, length, get_or, range}
use knighttour.Prelude.Int.{ℤ, add_offset, in_range, to_ℕ}
use knighttour.State.{State, visit}

pub record Graph : Type 0 where
  pub neighbors : List (List ℕ)
  pub neighbor_masks : List State
  pub size : ℕ
  pub total_cells : ℕ

pub record Move : Type 0 where
  pub dx : ℤ
  pub dy : ℤ

abbrev pub move : ℤ → ℤ → Move
move a b = record { dx = a; dy = b }

abbrev pub possible_moves : List Move
possible_moves =
    move (ℤ.negsuc 1) (ℤ.negsuc 0)
    ∷ move (ℤ.negsuc 1) (ℤ.pos 1)
    ∷ move (ℤ.negsuc 0) (ℤ.negsuc 1)
    ∷ move (ℤ.negsuc 0) (ℤ.pos 2)
    ∷ move (ℤ.pos 1) (ℤ.negsuc 1)
    ∷ move (ℤ.pos 1) (ℤ.pos 2)
    ∷ move (ℤ.pos 2) (ℤ.negsuc 0)
    ∷ move (ℤ.pos 2) (ℤ.pos 1)
    ∷ []

-- The cell's row of both tables, as `buildNeighbors` grows it.
pub record Row : Type 0 where
  pub cells : List ℕ
  pub mask : State

-- One round of the inner loop.
unfoldable pub try_move : ℕ → ℕ → ℕ → Move → Row → Row
unfolding visit
try_move size x y m row =
    let nx = add_offset x m.dx in
    let ny = add_offset y m.dy in
    let n = to_ℕ nx * size + to_ℕ ny in
    if in_range nx size && in_range ny size
    then record { cells = row.cells ++ n ∷ []; mask = visit row.mask n }
    else row

unfoldable pub try_moves : ℕ → ℕ → ℕ → List Move → Row → Row
unfolding try_move
try_moves size x y [] row = row
try_moves size x y (m ∷ ms) row = try_moves size x y ms (try_move size x y m row)

unfoldable pub build_row : ℕ → ℕ → Row
unfolding try_moves
build_row size pos =
    try_moves size (pos / size) (pos % size) possible_moves (record { cells = []; mask = 0 })

-- `New` with `buildNeighbors`: the outer loop fills both tables cell by cell.
unfoldable pub new : ℕ → Graph
unfolding build_row
new size = record {
  neighbors = map (λ pos. (build_row size pos).cells) (range 0 (size * size));
  neighbor_masks = map (λ pos. (build_row size pos).mask) (range 0 (size * size));
  size = size;
  total_cells = size * size;
}

unfoldable pub should_skip : Graph → ℕ → Bool
should_skip g pos = if not (g.size % 2 == 0) then not (pos % 2 == 0) else false

-- A cell off the board, on which Go panics, has no neighbours; the callers pass board cells only.
unfoldable pub get_neighbors : Graph → ℕ → List ℕ
get_neighbors g pos = get_or g.neighbors pos []

unfoldable pub get_degree : Graph → ℕ → ℕ
unfolding get_neighbors
get_degree g pos = length (get_neighbors g pos)

unfoldable pub get_neighbor_mask : Graph → ℕ → State
get_neighbor_mask g pos = get_or g.neighbor_masks pos 0
