-- ===== src/Counter/Dispatch.antt =====
-- counter/counter.go: the dispatch of the sealed table's records in batches. The records are what
-- the walk yields; whether the n-th send finds a slot before the context ends is an oracle.
use knighttour.Prelude.{
  ℕ, ◌+◌, ltb, if◌then◌else◌, Bool, true, false, ◌&&◌, List, [], ◌∷◌, ◌++◌, length,
}
use knighttour.Cache.{Entry}

-- The batch that is being filled, the batches in the channel so far, the tasks registered with the
-- monitor, and the number of sends tried.
pub record Dispatch : Type 0 where
  pub filling : List Entry
  pub sent : List (List Entry)
  pub added : ℕ
  pub sends : ℕ

abbrev pub start_dispatch : Dispatch
start_dispatch = record { filling = []; sent = []; added = 0; sends = 0 }

-- `monitor.AddTasks(b.n)` and `sendBatch`: the state after, and whether the batch was delivered.
unfoldable pub send_batch : (ℕ → Bool) → Dispatch → Bool × Dispatch
send_batch deliver d =
    let d' = record d { added = d.added + length d.filling; sends = d.sends + 1 } in
    if deliver d.sends
    then (true, record d' { sent = d.sent ++ d.filling ∷ []; filling = [] })
    else (false, d')

-- The body of the loop over the records: whether it goes on. The array of a batch has 16 cells,
-- which a batch size above 16 would leave; `effectiveBatch` keeps it within them.
unfoldable pub take_record : (ℕ → Bool) → ℕ → Entry → Dispatch → Bool × Dispatch
unfolding send_batch
take_record deliver batch e d =
    let d' = record d { filling = d.filling ++ e ∷ [] } in
    if ltb (length d'.filling) batch then (true, d') else send_batch deliver d'

unfoldable pub dispatch_walk : (ℕ → Bool) → ℕ → List Entry → Dispatch → Bool × Dispatch
unfolding take_record
dispatch_walk deliver batch [] d = (true, d)
dispatch_walk deliver batch (e ∷ es) d =
    let next = take_record deliver batch e d in
    let rest = dispatch_walk deliver batch es next.1 in if next.0 then rest else (false, next.1)

-- `dispatchEntries`, with whether `ctx.Err()` is nil at the end.
unfoldable pub dispatch_entries : (ℕ → Bool) → Bool → ℕ → List Entry → Dispatch
unfolding dispatch_walk send_batch
dispatch_entries deliver alive batch es =
    let (whole, d) = dispatch_walk deliver batch es start_dispatch in
    if whole && ltb 0 (length d.filling) && alive then (send_batch deliver d).1 else d
