-- ===== src/WorkerPool/Fanout.antt =====
-- workerpool/workerpool.go, `Fanout`: one producer and a crew of consumers over a buffered channel.
use knighttour.Prelude.{
  ℕ, ◌<◌, max, ◌≡◌, Bool, true, false, List, [], ◌∷◌, ◌++◌, length, get_or, set, replicate,
}

-- Where a consumer is: at the receive of its `range` loop, in the body with a value, or out of it.
pub data Consumer (T : Type 0) : Type 0 where
  waiting done : Consumer T
  busy : T → Consumer T

-- The channel with its buffer, whether it is closed, and the consumers; what was sent and what was
-- received so far, in order.
pub record Fan (T : Type 0) : Type 0 where
  pub buffer : List T
  pub closed : Bool
  pub consumers : List (Consumer T)
  pub sent : List T
  pub received : List T

-- `max(bufSize, 1)`.
abbrev pub slots : ℕ → ℕ
slots buf_size = max buf_size 1

unfoldable pub start_fan : {T : Type 0} → ℕ → Fan T
start_fan consumers = record {
  buffer = [];
  closed = false;
  consumers = replicate consumers waiting;
  sent = [];
  received = [];
}

-- What the consumers can do by themselves: `range ch` takes the first value or leaves the loop of a
-- closed and drained channel, and `consume` returns.
pub data Consume {T : Type 0} (f : Fan T) : Fan T → Type 0 where
  receive :
      (w : ℕ) (v : T) (rest : List T)
      → get_or f.consumers w done ≡ waiting
      → f.buffer ≡ v ∷ rest
      → Consume f (record f {
        buffer = rest;
        consumers = set f.consumers w (busy v);
        received = f.received ++ v ∷ [];
      })
  drained :
      (w : ℕ)
      → get_or f.consumers w done ≡ waiting
      → f.buffer ≡ []
      → f.closed ≡ true
      → Consume f (record f { consumers = set f.consumers w done })
  consumed :
      (w : ℕ) (v : T)
      → get_or f.consumers w done ≡ busy v
      → Consume f (record f { consumers = set f.consumers w waiting })

-- All steps: the producer sends any value when the buffer has room, and closes when it returns.
pub data FanStep {T : Type 0} (buf_size : ℕ) (f : Fan T) : Fan T → Type 0 where
  send :
      (v : T)
      → f.closed ≡ false
      → length f.buffer < slots buf_size
      → FanStep buf_size f (record f { buffer = f.buffer ++ v ∷ []; sent = f.sent ++ v ∷ [] })
  close : f.closed ≡ false → FanStep buf_size f (record f { closed = true })
  by_consumer : {g : Fan T} → Consume f g → FanStep buf_size f g

pub data FanReaches {T : Type 0} (buf_size : ℕ) (f : Fan T) : Fan T → Type 0 where
  here : FanReaches buf_size f f
  next : {g h : Fan T} → FanReaches buf_size f g → FanStep buf_size g h → FanReaches buf_size f h
