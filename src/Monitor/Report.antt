-- ===== src/Monitor/Report.antt =====
-- monitoring/monitor.go: what is printed, and when. A text is a list of pieces; how a number, a
-- percentage or a duration is spelled is left to the standard library.
use Prim.Native.String.{String}
use knighttour.Prelude.{
  ℕ, ◌-◌, ◌==◌, ltb, if◌then◌else◌, Bool, true, false, not, ◌&&◌, none, some, List, [], ◌∷◌, ◌++◌,
}
use knighttour.Cache.{add64}
use knighttour.Monitor.{
  PhaseStats, Monitor, pruned_total, duration, estimate_remaining, all_phases, finish,
}

-- A literal, a number (`%d`), a share as `%.1f%%` of a hundred, and a duration.
pub data Piece : Type 0 where
  lit : String → Piece
  num : ℕ → Piece
  percent : ℕ → ℕ → Piece
  time : ℕ → Piece

abbrev pub Text : Type 0
Text = List Piece

-- `hitsSegment`.
unfoldable pub hits_segment : Bool → PhaseStats → Text
hits_segment lowercase ph =
    if ph.cache_hits == 0 && ph.cache_misses == 0
    then []
    else lit (if lowercase then " | hits " else " | Hits ")
      ∷ num ph.cache_hits
      ∷ lit "/"
      ∷ num ph.cache_misses
      ∷ []

-- The counters of `pruneBreakdown` with their names, in its order.
abbrev pub prune_counters : PhaseStats → List (String × ℕ)
prune_counters ph =
    ("deadend", ph.pruned_dead_end)
    ∷ ("nocont", ph.pruned_no_cont)
    ∷ ("disconn", ph.pruned_disconn)
    ∷ ("endpoints", ph.pruned_endpoints)
    ∷ ("chain", ph.pruned_forced_chain)
    ∷ []

-- The loop over the counters: a part for each that is not 0.
unfoldable pub prune_parts : List (String × ℕ) → List Text
prune_parts [] = []
prune_parts ((name, v) ∷ cs) =
    let rest = prune_parts cs in if ltb 0 v then (lit name ∷ lit " " ∷ num v ∷ []) ∷ rest else rest

-- `strings.Join(parts, ", ")`.
unfoldable pub join : List Text → Text
join [] = []
join (p ∷ []) = p
join (p ∷ q ∷ ps) = p ++ lit ", " ∷ join (q ∷ ps)

-- The end of `pruneBreakdown`.
unfoldable pub in_brackets : List Text → Text
unfolding join
in_brackets [] = []
in_brackets (p ∷ ps) = lit " (" ∷ join (p ∷ ps) ++ lit ")" ∷ []

unfoldable pub prune_breakdown : PhaseStats → Text
unfolding prune_parts in_brackets
prune_breakdown ph = in_brackets (prune_parts (prune_counters ph))

unfoldable pub summary : PhaseStats → Text
unfolding hits_segment prune_breakdown pruned_total
summary ph =
    (lit "tasks " ∷ num ph.completed ∷ lit "/" ∷ num ph.tasks ∷ [])
    ++ (lit " | paths " ∷ num ph.paths_found ∷ [])
    ++ (if ltb 0 ph.cache_writes then lit " | writes " ∷ num ph.cache_writes ∷ [] else [])
    ++ hits_segment true ph
    ++ (lit " | pruned " ∷ num (pruned_total ph) ∷ [])
    ++ prune_breakdown ph

-- The line of `report` for a phase, from the clock's time and the run's start.
unfoldable pub progress_line : ℕ → ℕ → PhaseStats → Text
unfolding hits_segment pruned_total estimate_remaining
progress_line now start_time ph =
    let eta : Piece = elim (estimate_remaining (now - ph.start_time) ph.completed ph.tasks) [
      | some remaining ↦ time remaining
      | none ↦ lit "--"
    ] in
    (lit "[" ∷ time (now - start_time) ∷ lit "] Phase " ∷ lit ph.name ∷ [])
    ++ (lit " | Tasks: " ∷ num ph.completed ∷ lit "/" ∷ num ph.tasks ∷ [])
    ++ (lit " (" ∷ percent ph.completed ph.tasks ∷ lit ") | Paths " ∷ num ph.paths_found ∷ [])
    ++ (if ltb 0 ph.cache_writes then lit " | Writes " ∷ num ph.cache_writes ∷ [] else [])
    ++ hits_segment false ph
    ++ (lit " | Pruned " ∷ num (pruned_total ph) ∷ lit " | ETA " ∷ eta ∷ [])

-- The lines that a call of `report` prints: none, or one that overwrites the terminal's line.
unfoldable pub report : ℕ → Monitor → List Text
unfolding progress_line
report now m =
    if not m.verbose
    then []
    else elim m.active [ none ↦ [] | some ph ↦ progress_line now m.start_time ph ∷ [] ]

-- The lines of the phases in the final report, and the sum of their paths.
unfoldable pub phase_lines : List PhaseStats → List Text
unfolding duration summary
phase_lines [] = []
phase_lines (ph ∷ phs) =
    ((lit "Phase " ∷ lit ph.name ∷ lit " [" ∷ time (duration ph) ∷ lit "]: " ∷ []) ++ summary ph)
    ∷ phase_lines phs

unfoldable pub total_paths : ℕ → List PhaseStats → ℕ
total_paths sum [] = sum
total_paths sum (ph ∷ phs) = total_paths (add64 sum ph.paths_found) phs

-- The final report over the phases.
unfoldable pub final_report : ℕ → ℕ → List PhaseStats → List Text
unfolding phase_lines total_paths
final_report now start_time phs =
    ((lit "=== Final ===" ∷ []) ∷ (lit "Total time: " ∷ time (now - start_time) ∷ []) ∷ [])
    ++ phase_lines phs
    ++ ((lit "Total paths: " ∷ num (total_paths 0 phs) ∷ []) ∷ [])

-- What `Finish` prints.
unfoldable pub finish_lines : ℕ → Monitor → List Text
unfolding report final_report
finish_lines now m =
    let final = final_report now m.start_time (all_phases (finish now m)) in
    if m.started then report now m ++ (if m.verbose then final else []) else []

-- What wakes `loop`: a second that has gone by, or the end of the context.
pub data Wake : Type 0 where
  tick ended : Wake

-- What `loop` prints when it is woken in turn, each time with the clock and the monitor as they are
-- then.
unfoldable pub loop : List (Wake × ℕ × Monitor) → List Text
unfolding report
loop [] = []
loop ((tick, now, m) ∷ ws) = let rest = loop ws in if m.started then report now m ++ rest else []
loop ((ended, now, m) ∷ ws) = if m.started then report now m else []
