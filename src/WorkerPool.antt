-- ===== src/WorkerPool.antt =====
-- workerpool/workerpool.go: the crew of `Run`, whose workers claim indices from one atomic cursor.
pub mod Claims
pub mod Fanout
pub mod Delivered
use knighttour.Prelude.{
  ℕ, ◌+◌, ◌≤◌, ◌<◌, min, ◌≡◌, Bool, true, false, List, [], ◌∷◌, ◌++◌, get_or, set, replicate,
}

-- Where a worker is in the loop of `claims`: before `ctx.Err()`, before `cursor.Add(1)`, in the
-- body with an index, out of the loop by its condition or by the end of the indices, or out of it
-- since the body broke out (`yield` returned false).
pub data Phase : Type 0 where
  ready checked finished broken : Phase
  working : ℕ → Phase

-- The shared state of a `Run` over `n` indices: the cursor, the workers, whether the context has
-- ended, and the indices handed out so far, in order.
pub record Crew : Type 0 where
  pub cursor : ℕ
  pub workers : List Phase
  pub ended : Bool
  pub claimed : List ℕ

unfoldable pub start_crew : ℕ → ℕ → Crew
start_crew workers n = record {
  cursor = 0;
  workers = replicate (min workers n) ready;
  ended = false;
  claimed = [];
}

-- The steps of the workers, in any order, and of the context.
pub data Step (n : ℕ) : Crew → Crew → Type 0 where
  end_context : (c : Crew) → Step n c (record c { ended = true })
  go_on :
      (c : Crew) (w : ℕ)
      → get_or c.workers w finished ≡ ready
      → c.ended ≡ false
      → Step n c (record c { workers = set c.workers w checked })
  give_up :
      (c : Crew) (w : ℕ)
      → get_or c.workers w finished ≡ ready
      → c.ended ≡ true
      → Step n c (record c { workers = set c.workers w finished })
  claim :
      (c : Crew) (w : ℕ)
      → get_or c.workers w finished ≡ checked
      → c.cursor < n
      → Step n c (record c {
        cursor = c.cursor + 1;
        workers = set c.workers w (working c.cursor);
        claimed = c.claimed ++ c.cursor ∷ [];
      })
  exhausted :
      (c : Crew) (w : ℕ)
      → get_or c.workers w finished ≡ checked
      → n ≤ c.cursor
      → Step n c (record c { cursor = c.cursor + 1; workers = set c.workers w finished })
  body_done :
      (c : Crew) (w i : ℕ)
      → get_or c.workers w finished ≡ working i
      → Step n c (record c { workers = set c.workers w ready })
  break_out :
      (c : Crew) (w i : ℕ)
      → get_or c.workers w finished ≡ working i
      → Step n c (record c { workers = set c.workers w broken })

pub data Reaches (n : ℕ) : Crew → Crew → Type 0 where
  stay : (c : Crew) → Reaches n c c
  then_step : (a b c : Crew) → Reaches n a b → Step n b c → Reaches n a c
