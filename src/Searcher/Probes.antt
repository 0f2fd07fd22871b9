-- ===== src/Searcher/Probes.antt =====
-- searcher/searcher.go, `completions`: the statistics of its probes.
use knighttour.Prelude.{
  ℕ, ◌+◌, ◌≡◌, inl, inr, refl, none, some, Option-cases, List, [], ◌∷◌, length, arith,
}
use knighttour.State.{State, intersect, count_bits}
use knighttour.State.Bits.{IsWord, intersect-IsWord}
use knighttour.State.Cells.{length-all_visited}
use knighttour.Graph.{get_neighbor_mask}
use knighttour.Types.{Result}
use knighttour.Symmetry.{canonical_mask_frame, class_rep, transform_cell}
use knighttour.Cache.{Value, View, view_get, value_weight}
use knighttour.Searcher.{Searcher, probe, candidates, completions}

-- The probes counted so far, and the other statistics, which stay.
abbrev probes : Result → ℕ
probes res = res.cache_hits + res.cache_misses

module _ (s : Searcher) (frame stab : ℕ) where
  probe-none :
      (us : List ℕ) (found : ℕ) (res : Result)
      → ((probe s frame stab none us found res).0 ≡ found)
        × (probes (probe s frame stab none us found res).1 ≡ probes res + length us)
        × ((probe s frame stab none us found res).1.cache_hits ≡ res.cache_hits)
  unfolding probe
  probe-none [] found res = (refl, omega arith, refl)
  probe-none (u ∷ us) found res =
      let (a, b, c) = probe-none us found (record res { cache_misses = res.cache_misses + 1 }) in
      (a, omega (arith, b), c)

  probe-some :
      (val : Value) (us : List ℕ) (found : ℕ) (res : Result)
      → probes (probe s frame stab (some val) us found res).1 ≡ probes res + length us
  unfolding probe
  probe-some val [] found res = omega arith
  probe-some val (u ∷ us) found res =
      elim (Option-cases (value_weight val (class_rep s.sym stab (transform_cell s.sym frame u)))) [
        | inl e ↦
            rw (e, probe)
              (omega (
                arith,
                probe-some val us found (record res { cache_misses = res.cache_misses + 1 }),
              ))
        | inr (weight, e) ↦
            rw (e, probe)
              (omega (arith, probe-some val us _ (record res { cache_hits = res.cache_hits + 1 })))
      ]

-- At the stop level, for a word of unvisited cells, every unvisited neighbour of the end is probed
-- once, as a hit or as a miss: the hits and misses together grow by the number of those
-- neighbours.
pub completions_probes :
    (s : Searcher) (unvisited : State) (end : ℕ) (c : View) (res : Result)
    → IsWord unvisited
    → (completions s unvisited end c res).1.cache_hits
        + (completions s unvisited end c res).1.cache_misses
      ≡ res.cache_hits
        + res.cache_misses
        + count_bits (intersect (get_neighbor_mask s.graph end) unvisited)
unfolding completions candidates
completions_probes s unvisited end c res w =
    let f = canonical_mask_frame s.sym unvisited in
    let cells = intersect (get_neighbor_mask s.graph end) unvisited in
    let size =
      length-all_visited cells (intersect-IsWord unvisited (get_neighbor_mask s.graph end) w) in
    elim (Option-cases (view_get c f.mask)) [
      | inl e ↦
          rw (e, completions)
            (omega
              (arith, (probe-none s f.frame f.stab (candidates s unvisited end) 0 res).1, size))
      | inr (val, e) ↦
          rw (e, completions)
            (omega
              (arith, probe-some s f.frame f.stab val (candidates s unvisited end) 0 res, size))
    ]
