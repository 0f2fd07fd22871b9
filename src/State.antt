-- ===== src/State.antt =====
-- state/state.go: a set of board cells as a `uint64`, one bit a cell.
-- Cells are the non-negative values of the code's `int`.
pub mod Bits
pub mod Cells
pub mod Count
pub mod Ones
use Prim.Native.Nat.{bit_and, bit_or}
use knighttour.Prelude.{ℕ, zero, suc, ◌+◌, ◌-◌, ◌%◌, ◌==◌, if◌then◌else◌, Bool, not}
use knighttour.Prelude.{List, [], ◌∷◌}
use knighttour.Words.{word_mod, shl_one, complement, ones_count, trailing_zeros}

abbrev pub State : Type 0
State = ℕ

unfoldable pub bit : ℕ → State
unfolding shl_one
bit pos = shl_one pos

unfoldable pub is_visited : State → ℕ → Bool
unfolding shl_one
is_visited s pos = not (bit_and s (shl_one pos) == 0)

unfoldable pub visit : State → ℕ → State
unfolding shl_one
visit s pos = bit_or s (shl_one pos)

-- `NewState(visited...)`: the loop visits its arguments in order.
visit_each : State → List ℕ → State
visit_each state [] = state
visit_each state (v ∷ vs) = visit_each (visit state v) vs

unfoldable pub new_state : List ℕ → State
unfolding visit visit_each
new_state visited = visit_each 0 visited

-- `s &^ (1 << pos)`.
unfoldable pub unvisit : State → ℕ → State
unfolding shl_one complement
unvisit s pos = bit_and s (complement (shl_one pos))

-- `State((1 << cellsCount) - 1)`; the 1 has the type of the conversion, so the difference wraps.
unfoldable pub full_mask : ℕ → State
unfolding shl_one
full_mask cells_count = (shl_one cells_count + word_mod - 1) % word_mod

unfoldable pub is_full : State → ℕ → Bool
unfolding full_mask
is_full s cells_count = s == full_mask cells_count

unfoldable pub count_bits : State → ℕ
unfolding ones_count
count_bits s = ones_count 64 s

unfoldable pub is_unvisited : State → ℕ → Bool
unfolding is_visited
is_unvisited s pos = not (is_visited s pos)

unfoldable pub intersect : State → State → State
intersect s mask = bit_and s mask

unfoldable pub union : State → State → State
union s mask = bit_or s mask

unfoldable pub is_empty : State → Bool
is_empty s = s == 0

unfoldable pub trailing_zero_bits : State → ℕ
unfolding trailing_zeros
trailing_zero_bits s = trailing_zeros 64 s

-- The loop of `AllVisited` with fuel: `m &= m - 1` clears the lowest bit, so 64 rounds are enough.
unfoldable pub visited_loop : ℕ → State → List ℕ
visited_loop zero m = []
visited_loop (suc fuel) m =
    let rest = visited_loop fuel (bit_and m (m - 1)) in
    if m == 0 then [] else trailing_zero_bits m ∷ rest

-- The cells in the order in which the iterator yields them.
unfoldable pub all_visited : State → List ℕ
all_visited s = visited_loop 64 s

unfoldable pub and_not : State → State → State
unfolding complement
and_not s mask = bit_and s (complement mask)

unfoldable pub invert : State → ℕ → State
unfolding full_mask complement
invert s cells_count = bit_and (full_mask cells_count) (complement s)
