-- ===== src/Tests/Boards.antt =====
-- The properties of the sets, the board, the pruner, the symmetry and the descents at concrete inputs.
use knighttour.Prelude.{
  ℕ, ◌+◌, ◌^◌, ◌≤◌, ◌<◌, ◌≡◌, ◌≢◌, ◌↔◌, refl, arith, true, false, none, [], ◌∷◌, ◌∈◌, length, map,
  sum,
}
use knighttour.Prelude.{◌==◌, ◌||◌, ◌&&◌, not, ltb}
use native.Mathlib.Decide.{dec_lt}
use knighttour.Words.Digits.{digit-high}
use knighttour.State.{
  is_visited, visit, unvisit, intersect, union, and_not, invert, all_visited, count_bits, bit,
  is_empty,
}
use knighttour.State.Bits.{is_visited_operations, is_visited-bit, bit-IsWord, is_visited-digit}
use knighttour.State.Cells.{AscendsFrom, all_visited_cells}
use knighttour.Graph.{Graph, new, get_neighbors, get_neighbor_mask, build_row, try_move, try_moves}
use knighttour.Graph.Moves.{IsKnightMove, get_neighbors-IsKnightMove}
use knighttour.Graph.Masks.{IsBoard, new-IsBoard, get_neighbor_mask-get_neighbors}
use knighttour.Pruner.{no_reason, should_prune_after_visit}
use knighttour.Pruner.{flood, stuck}
use knighttour.Pruner.Ends.{flood_ends}
use knighttour.Searcher.{completions}
use knighttour.Searcher.Probes.{completions_probes}
use knighttour.Pruner.Path.{Completes}
use knighttour.Pruner.Sound.{should_prune_after_visit_sound}
use knighttour.Symmetry.{
  new_symmetry, transform_state, transform_cell, canonical_class, get_canonical_groups,
  get_canonical_position,
}
use knighttour.Symmetry.Canonical.{IsOnBoard}
use knighttour.Symmetry.Class.{canonical_class_least}
use knighttour.Symmetry.Distinct.{distinct}
use knighttour.Symmetry.OrbitSize.{pair_images, canonical_class-distinct}
use knighttour.Symmetry.Orbits.{canonical_class_related}
use knighttour.Symmetry.Starts.{get_canonical_position_orbits}
use knighttour.Symmetry.Members.{Some, IsAt}
use knighttour.Symmetry.Groups.{KeysAscend, IsSized, cells_of, get_canonical_groups_parts}
use knighttour.Cache.{Entry, new_cache, null_set}
use knighttour.Types.{zero_result}
use knighttour.Searcher.{Searcher, Context, count_paths_with_cache_reversal, stop_level}
use knighttour.Searcher.Paths.{OnBoard}
use knighttour.Searcher.Tours.{
  IsCount, IsLowerCount, count_paths_with_cache_reversal-IsCount,
  count_paths_with_cache_reversal-IsLowerCount,
}
use knighttour.Searcher.Tasks.{generate_tasks, record_write, put_all}
use knighttour.Searcher.Writes.{generate_tasks_writes}

abbrev board : Graph
board = new 3

board-IsBoard : IsBoard board
board-IsBoard = new-IsBoard 3 (omega arith)

abbrev pub searcher : Searcher
searcher = record { graph = board; sym = new_symmetry 3 }

-- A context that does not end, and one that ends at the poll after the second.
abbrev never : Context
never n = false

abbrev soon : Context
soon n = ltb 2 n

-- The corner cell, and nothing else, visited.
abbrev corner : Entry
corner = record { mask = bit 0; rep = 0; weight = 4 }

corner-OnBoard : OnBoard board.total_cells corner.mask
unfolding new
corner-OnBoard = record {
  word = bit-IsWord 0;
  inside = λ q (hq, v). ground (arith, v, is_visited-bit 0 q (omega arith) hq);
}

get_neighbors-IsKnightMove_example : (7 ∈ get_neighbors (new 5) 0) ↔ ((7 < 25) × IsKnightMove 5 0 7)
get_neighbors-IsKnightMove_example = get_neighbors-IsKnightMove 5 0 7 (omega arith)

get_neighbor_mask-get_neighbors_example :
    (is_visited (get_neighbor_mask (new 5) 0) 7 ≡ true) ↔ (7 ∈ get_neighbors (new 5) 0)
get_neighbor_mask-get_neighbors_example =
    get_neighbor_mask-get_neighbors 5 0 7 (omega arith) (omega arith) (omega arith)

new-IsBoard_example : IsBoard (new 8)
new-IsBoard_example = new-IsBoard 8 (omega arith)

-- The two cells 5 and 6 are left, and 0, 5, 6 are knight's moves apart.
two_left : Completes board 0 96 (5 ∷ 6 ∷ [])
unfolding Completes get_neighbor_mask new build_row try_moves try_move visit is_visited unvisit
    is_empty
two_left = ((omega arith, refl), refl, ((omega arith, refl), refl, refl))

should_prune_after_visit_sound_example : should_prune_after_visit board 0 96 ≡ (false, no_reason)
should_prune_after_visit_sound_example =
    should_prune_after_visit_sound board board-IsBoard 0 96 (5 ∷ 6 ∷ []) (omega arith) (omega arith)
      two_left

count_paths_with_cache_reversal-IsCount_example :
    IsCount board 0
      (invert (bit 0) board.total_cells)
      (count_paths_with_cache_reversal searcher never corner none 2).total_paths_found
count_paths_with_cache_reversal-IsCount_example =
    count_paths_with_cache_reversal-IsCount searcher never corner none 2 board-IsBoard
      corner-OnBoard (unfold stop_level in refl) (λ n. refl)

count_paths_with_cache_reversal-IsLowerCount_example :
    IsLowerCount board 0
      (invert (bit 0) board.total_cells)
      (count_paths_with_cache_reversal searcher soon corner none 2).total_paths_found
count_paths_with_cache_reversal-IsLowerCount_example =
    count_paths_with_cache_reversal-IsLowerCount searcher soon corner none 2 board-IsBoard
      corner-OnBoard (unfold stop_level in refl)

generate_tasks_writes_example :
    ((generate_tasks null_set searcher never tt 0 4 3).0
      ≡ (generate_tasks record_write searcher never [] 0 4 3).0)
    × ((generate_tasks null_set searcher never tt 0 4 3).1
        ≡ put_all null_set tt (generate_tasks record_write searcher never [] 0 4 3).1)
    × ((generate_tasks record_write searcher never [] 0 4 3).0.cache_writes
        ≡ length (generate_tasks record_write searcher never [] 0 4 3).1)
generate_tasks_writes_example = generate_tasks_writes null_set searcher never tt 0 4 3

all_visited_cells_example :
    AscendsFrom 0 (all_visited 1153)
    × ((q : ℕ) → (q ∈ all_visited 1153) ↔ ((q < 64) × (is_visited 1153 q ≡ true)))
    × (length (all_visited 1153) ≡ count_bits 1153)
all_visited_cells_example = all_visited_cells 1153 (omega arith)

is_visited_operations_example :
    (is_visited (visit 5 3) 2 ≡ (3 == 2 || is_visited 5 2))
    × (is_visited (unvisit 5 3) 2 ≡ (not (3 == 2) && is_visited 5 2))
    × (is_visited (intersect 5 6) 2 ≡ (is_visited 5 2 && is_visited 6 2))
    × (is_visited (union 5 6) 2 ≡ (is_visited 5 2 || is_visited 6 2))
    × (is_visited (and_not 5 6) 2 ≡ (is_visited 5 2 && not (is_visited 6 2)))
    × (is_visited (invert 5 25) 2 ≡ (ltb 2 25 && not (is_visited 5 2)))
is_visited_operations_example =
    is_visited_operations 5 6 3 2 25 (omega arith) (omega arith) (omega arith) (omega arith)
      (omega arith)

flood_ends_example :
    flood board 65 96 32 0 (record { deg1_mask = 0; deg1_count = 0; next = 0 }) ≢ stuck
flood_ends_example =
    flood_ends board 96 32 (record { deg1_mask = 0; deg1_count = 0; next = 0 }) board-IsBoard
      (omega arith) (omega arith)

completions_probes_example :
    (completions searcher 96 0 new_cache zero_result).1.cache_hits
      + (completions searcher 96 0 new_cache zero_result).1.cache_misses
    ≡ zero_result.cache_hits
      + zero_result.cache_misses
      + count_bits (intersect (get_neighbor_mask board 0) 96)
completions_probes_example = completions_probes searcher 96 0 new_cache zero_result (omega arith)

pub IsOnBoard-below : (s : ℕ) → s < 2 ^ 9 → IsOnBoard 3 s
IsOnBoard-below s h = (
  omega arith,
  λ c (lt, v). elim (dec_lt c 9) [
    | yes inside ↦ inside
    | no out ↦ absurd (ground (arith, is_visited-digit s c lt, digit-high 9 s c h (omega arith)))
  ],
)

canonical_class_least_example :
    ((t : ℕ)
      → t < 8
      → (canonical_class (new_symmetry 3) 384 7).mask ≤ transform_state (new_symmetry 3) t 384)
    × ((t : ℕ)
        → t < 8
        → transform_state (new_symmetry 3) t 384 ≡ (canonical_class (new_symmetry 3) 384 7).mask
        → (canonical_class (new_symmetry 3) 384 7).rep ≤ transform_cell (new_symmetry 3) t 7)
    × ((t : ℕ) × (t < 8)
        × (transform_state (new_symmetry 3) t 384 ≡ (canonical_class (new_symmetry 3) 384 7).mask)
        × (transform_cell (new_symmetry 3) t 7 ≡ (canonical_class (new_symmetry 3) 384 7).rep))
canonical_class_least_example =
    canonical_class_least 3 (omega arith) 384 7 (IsOnBoard-below 384 (omega arith)) (omega arith)

canonical_class_related_example :
    (((canonical_class (new_symmetry 3) 6 1).mask ≡ (canonical_class (new_symmetry 3) 384 7).mask)
      × ((canonical_class (new_symmetry 3) 6 1).rep ≡ (canonical_class (new_symmetry 3) 384 7).rep))
    ↔ ((t : ℕ) × (t < 8)
        × (transform_state (new_symmetry 3) t 6 ≡ 384)
        × (transform_cell (new_symmetry 3) t 1 ≡ 7))
canonical_class_related_example =
    canonical_class_related 3 (omega arith) 6 384 1 7 (IsOnBoard-below 6 (omega arith))
      (IsOnBoard-below 384 (omega arith)) (omega arith) (omega arith)

canonical_class-distinct_example :
    (canonical_class (new_symmetry 3) 384 7).orbit_size ≡ distinct (pair_images 3 384 7)
canonical_class-distinct_example =
    canonical_class-distinct 3 (omega arith) 384 7 (IsOnBoard-below 384 (omega arith)) (omega arith)

get_canonical_groups_parts_example :
    KeysAscend (get_canonical_groups (new_symmetry 3))
    × ((k p : ℕ)
        → Some (IsAt k p) (get_canonical_groups (new_symmetry 3))
          ↔ ((p < 9) × (get_canonical_position (new_symmetry 3) p ≡ k)))
    × ((p q : ℕ)
        → p < 9
        → q < 9
        → ((k : ℕ) × Some (IsAt k p) (get_canonical_groups (new_symmetry 3))
            × Some (IsAt k q) (get_canonical_groups (new_symmetry 3)))
          ↔ ((t : ℕ) × (t < 8) × (transform_cell (new_symmetry 3) t p ≡ q)))
    × IsSized (get_canonical_groups (new_symmetry 3))
    × (sum (map cells_of (get_canonical_groups (new_symmetry 3))) ≡ 9)
get_canonical_groups_parts_example = get_canonical_groups_parts 3 (omega arith)

get_canonical_position_orbits_example :
    ((t : ℕ)
      → t < 8
      → get_canonical_position (new_symmetry 5) 7 ≤ transform_cell (new_symmetry 5) t 7)
    × ((t : ℕ) × (t < 8)
        × (transform_cell (new_symmetry 5) t 7 ≡ get_canonical_position (new_symmetry 5) 7))
    × ((get_canonical_position (new_symmetry 5) 7 ≡ get_canonical_position (new_symmetry 5) 17)
        ↔ ((t : ℕ) × (t < 8) × (transform_cell (new_symmetry 5) t 7 ≡ 17)))
get_canonical_position_orbits_example =
    get_canonical_position_orbits 5 (omega arith) 7 17 (omega arith) (omega arith)
