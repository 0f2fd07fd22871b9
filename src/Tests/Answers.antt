-- ===== src/Tests/Answers.antt =====
-- `completions` on the board of 3 by 3, where the corner has two unvisited neighbours of one class.
use knighttour.Prelude.{ℕ, ◌*◌, ◌≡◌, refl, ap, ◌∙◌, arith, inl, inr, none, [], ◌∷◌, ◌∈◌, map, sum}
use mathlib.Core.Path.{subst}
use knighttour.State.{
  all_visited, visited_loop, visit, new_state, trailing_zero_bits, intersect, bit,
}
use knighttour.Words.{shl_one, trailing_zeros}
use knighttour.Graph.{get_neighbor_mask, new, build_row, try_move, try_moves}
use knighttour.Symmetry.{
  new_symmetry, canonical_class, MaskClass, canonical_mask_frame, class_rep, cell_orbit_size,
  least_image, class_loop, fixed_loop, transform_state, perm_row, stab_loop, build_compose,
  index_of_composition, composed_equal, transform_cell,
}
use knighttour.Searcher.{candidates, completions}
use knighttour.Searcher.Answers.{completions-sum}
use knighttour.Types.{zero_result}
use knighttour.Cache.{Cache, new_cache, set_weight, find, shard_index, empty_shard}
use knighttour.Cache.Inline.{Contract}
use knighttour.Cache.Shard.{lookup-none}
use knighttour.Cache.Slots.{or_zero}
use knighttour.Cache.Fresh.{new_cache-read}
use knighttour.Cache.Table.{read, shard_of, read-set_weight, new_cache-IsValid}
use knighttour.Tests.Boards.{searcher, IsOnBoard-below}

abbrev pair_class : MaskClass
pair_class = record { mask = 10; rep = 1; orbit_size = 8 }

class_5 : canonical_class (new_symmetry 3) 160 5 ≡ pair_class
unfolding canonical_class canonical_mask_frame class_rep cell_orbit_size least_image class_loop
    fixed_loop transform_state all_visited visited_loop visit new_state new_symmetry perm_row
    trailing_zero_bits stab_loop build_compose index_of_composition composed_equal transform_cell
class_5 = refl

class_7 : canonical_class (new_symmetry 3) 160 7 ≡ pair_class
unfolding canonical_class canonical_mask_frame class_rep cell_orbit_size least_image class_loop
    fixed_loop transform_state all_visited visited_loop visit new_state new_symmetry perm_row
    trailing_zero_bits stab_loop build_compose index_of_composition composed_equal transform_cell
class_7 = refl

neighbours : candidates searcher 160 0 ≡ 5 ∷ 7 ∷ []
unfolding candidates get_neighbor_mask new build_row try_move try_moves intersect all_visited
    visited_loop trailing_zero_bits bit shl_one trailing_zeros
neighbours = refl

-- The table holds the orbit size of the class, for one path to the end of each pair of the class.
abbrev table : Cache
table = set_weight new_cache 10 1 8

own_shard : shard_of new_cache 10 ≡ empty_shard
unfolding new_cache shard_index
own_shard = refl

no_record : find 10 (shard_of new_cache 10).data_map ≡ none
unfolding find new_cache shard_index
no_record = refl

table_Contract : Contract 10 1 8 (shard_of new_cache 10)
table_Contract = record {
  tag = omega arith;
  positive = omega arith;
  small = rw (lookup-none (shard_of new_cache 10) 10 1 no_record) (omega arith);
  addressable = rw own_shard (omega arith);
}

table-read : or_zero (read table 10 1) ≡ 8
table-read =
    ap or_zero ((read-set_weight new_cache 10 1 8 new_cache-IsValid table_Contract).1)
    ∙ rw (new_cache-read 10 1) refl

holds_class :
    (c : MaskClass) → c ≡ pair_class → or_zero (read table c.mask c.rep) ≡ 1 * c.orbit_size
holds_class c e = rw e table-read

holds :
    (u : ℕ)
    → u ∈ candidates searcher 160 0
    → or_zero (
        read table
          (canonical_class (new_symmetry 3) 160 u).mask
          (canonical_class (new_symmetry 3) 160 u).rep)
      ≡ 1 * (canonical_class (new_symmetry 3) 160 u).orbit_size
holds u m = elim (subst (λ us. u ∈ us) neighbours m) [
  | inl e ↦ rw e (holds_class _ class_5)
  | inr (inl e) ↦ rw e (holds_class _ class_7)
  | inr (inr n) ↦ absurd n
]

completions-sum_example :
    (completions searcher 160 0 table zero_result).0
    ≡ sum (map (λ u. 1) (candidates searcher 160 0))
completions-sum_example =
    completions-sum 3 (omega arith) searcher refl 160 (IsOnBoard-below 160 (omega arith)) 0 table
      zero_result (λ u. 1) holds
