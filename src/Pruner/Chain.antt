-- ===== src/Pruner/Chain.antt =====
-- pruner/pruner.go: the write gate `ShouldPruneState`, with `forcedChainCut` and its union-find.
use knighttour.Prelude.{
  ℕ, zero, suc, ◌+◌, ◌==◌, ltb, leb, if◌then◌else◌, Bool, true, false, not, ◌&&◌, ◌||◌,
}
use knighttour.Prelude.{Option, none, some, List, [], ◌∷◌, get_or, set, replicate}
use Prim.Native.Nat.{bit_or}
use knighttour.State.{State, bit, intersect, count_bits, all_visited}
use knighttour.Graph.{Graph, get_neighbor_mask}
use knighttour.Pruner.{Reason, no_reason, forced_chain}

-- The arrays of `forcedChainCut` hold small counts and cells; `t` is the pinned end, none for -1.
pub record Degrees : Type 0 where
  pub deg : List ℕ
  pub deg1_count : ℕ
  pub t : Option ℕ

pub record Chains : Type 0 where
  pub uf : List ℕ
  pub verts : List ℕ
  pub edges : List ℕ
  pub fdeg : List ℕ

abbrev pub zeros : List ℕ
zeros = replicate 64 0

abbrev pub at : List ℕ → ℕ → ℕ
at xs i = get_or xs i 0

abbrev pub incr : List ℕ → ℕ → ℕ → List ℕ
incr xs i n = set xs i (at xs i + n)

-- The first loop.
unfoldable pub degrees : Graph → ℕ → State → List ℕ → Degrees → Degrees
degrees g cur h [] d = d
degrees g cur h (v ∷ vs) d =
    let n = count_bits (intersect (get_neighbor_mask g v) h) in
    let deg' = set d.deg v n in
    degrees g cur h vs (
      if not (v == cur) && n == 1
      then record { deg = deg'; deg1_count = d.deg1_count + 1; t = some v }
      else record d { deg = deg' })

-- The second loop.
unfoldable pub singletons : List ℕ → Chains → Chains
singletons [] c = c
singletons (v ∷ vs) c = singletons vs (record c { uf = set c.uf v v; verts = set c.verts v 1 })

abbrev pub is_end : Option ℕ → ℕ → Bool
is_end none v = false
is_end (some t) v = v == t

unfoldable pub forced_vertex : List ℕ → ℕ → Option ℕ → ℕ → Bool
forced_vertex deg cur t v = if v == cur || is_end t v then at deg v == 1 else at deg v == 2

-- The loop of `ufFind`: the root, and the array with the path halved. A step goes to the grandparent
-- of the cell; 64 steps pass every cell of a path.
unfoldable pub uf_find : ℕ → List ℕ → ℕ → ℕ × List ℕ
uf_find zero uf v = (v, uf)
uf_find (suc fuel) uf v =
    let uf' = set uf v (at uf (at uf v)) in
    let rest = uf_find fuel uf' (at uf' v) in if at uf v == v then (v, uf) else rest

-- What a forced edge between `v` and `w` does: none for `return true`.
unfoldable pub add_edge : ℕ → ℕ → ℕ → Chains → Option Chains
add_edge cur v w c =
    let fdeg = incr (incr c.fdeg v 1) w 1 in
    let (ra, uf₁) = uf_find 64 c.uf v in
    let (rb, uf₂) = uf_find 64 uf₁ w in
    let edges₁ = incr c.edges ra 1 in
    let verts₂ = incr c.verts ra (at c.verts rb) in
    let edges₂ = incr c.edges ra (at c.edges rb + 1) in
    if ltb 1 (at fdeg cur)
      || (not (v == cur) && ltb 2 (at fdeg v))
      || (not (w == cur) && ltb 2 (at fdeg w))
    then none
    else if ra == rb
    then (if leb (at c.verts ra) (at edges₁ ra)
        then none
        else some (record { uf = uf₂; verts = c.verts; edges = edges₁; fdeg = fdeg }))
    else if leb (at verts₂ ra) (at edges₂ ra)
    then none
    else some (record { uf = set uf₂ rb ra; verts = verts₂; edges = edges₂; fdeg = fdeg })

-- The inner loop over the neighbours of `v`: none for `return true`.
unfoldable pub edges_of : List ℕ → ℕ → Option ℕ → ℕ → List ℕ → Chains → Option Chains
edges_of deg cur t v [] c = some c
edges_of deg cur t v (w ∷ ws) c =
    if leb w v || (not (forced_vertex deg cur t v) && not (forced_vertex deg cur t w))
    then edges_of deg cur t v ws c
    else elim (add_edge cur v w c) [ none ↦ none | some c' ↦ edges_of deg cur t v ws c' ]

-- The outer loop: whether it returns true.
unfoldable pub chain_loop : Graph → List ℕ → ℕ → Option ℕ → State → List ℕ → Chains → Bool
chain_loop g deg cur t h [] c = false
chain_loop g deg cur t h (v ∷ vs) c =
    elim (edges_of deg cur t v (all_visited (intersect (get_neighbor_mask g v) h)) c) [
      | none ↦ true
      | some c' ↦ chain_loop g deg cur t h vs c'
    ]

unfoldable pub forced_chain_cut : Graph → ℕ → State → Bool
forced_chain_cut g cur todo =
    let h = bit_or todo (bit cur) in
    let d = degrees g cur h (all_visited h) (record { deg = zeros; deg1_count = 0; t = none }) in
    let c =
      singletons (all_visited h)
        (record { uf = zeros; verts = zeros; edges = zeros; fdeg = zeros }) in
    if not (d.deg1_count == 1) then false else chain_loop g d.deg cur d.t h (all_visited h) c

unfoldable pub should_prune_state : Graph → ℕ → State → Bool × Reason
should_prune_state g cur todo =
    if forced_chain_cut g cur todo then (true, forced_chain) else (false, no_reason)
