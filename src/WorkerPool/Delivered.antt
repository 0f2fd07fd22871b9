-- ===== src/WorkerPool/Delivered.antt =====
-- workerpool/workerpool.go, `Fanout`: what the consumers receive, and who can act when.
use knighttour.Prelude.{
  ℕ, zero, suc, ◌≤◌, ◌<◌, ◌≡◌, ◌≢◌, refl, sym, ap, ◌∙◌, ◌⊎◌, inl, inr, Bool, true, false, arith,
}
use knighttour.Prelude.{
  List, [], ◌∷◌, ◌++◌, length, length-append, length-set, length-replicate, get_or, set, replicate,
  Bool-cases,
}
use mathlib.Core.List.{append_assoc, append-nil}
use knighttour.WorkerPool.Fanout.{
  Consumer, waiting, done, busy, Fan, slots, start_fan, Consume, receive, drained, consumed,
  FanStep, send, close, by_consumer, FanReaches, here, next,
}

module _ {T : Type 0} where
  is_done : Consumer T → Bool
  is_done done = true
  is_done _ = false

  record IsValid (buf_size n : ℕ) (f : Fan T) : Type 0 where
    order : f.sent ≡ f.received ++ f.buffer
    crew : length f.consumers ≡ n
    fits : length f.buffer ≤ slots buf_size
    ended : (w : ℕ) → get_or f.consumers w waiting ≡ done → (f.closed ≡ true) × (f.buffer ≡ [])

  -- A consumer that changes to another place than the end, or may be at the end.
  moved :
      (Q : Type 0) (cs : List (Consumer T)) (w : ℕ) (c : Consumer T)
      → ((v : ℕ) → get_or cs v waiting ≡ done → Q)
      → (c ≡ done → Q)
      → (v : ℕ) → get_or (set cs w c) v waiting ≡ done
      → Q
  moved Q [] w c old new v e = old v e
  moved Q (x ∷ cs) zero c old new zero e = new e
  moved Q (x ∷ cs) zero c old new (suc v) e = old (suc v) e
  moved Q (x ∷ cs) (suc w) c old new zero e = old zero e
  moved Q (x ∷ cs) (suc w) c old new (suc v) e = moved Q cs w c (λ u. old (suc u)) new v e

  Consume-IsValid :
      (buf_size n : ℕ) {f g : Fan T} → Consume f g → IsValid buf_size n f → IsValid buf_size n g
  Consume-IsValid buf_size n {f} (receive w v rest e b) h = record {
    order = h.order ∙ ap (λ t. f.received ++ t) b ∙ sym (append_assoc f.received (v ∷ []) rest);
    crew = length-set f.consumers w (busy v) ∙ h.crew;
    fits = omega (arith, ap length b, h.fits);
    ended = moved _ f.consumers w (busy v) (λ u d. cc (b, (h.ended u d).1)) (λ e. cc);
  }
  Consume-IsValid buf_size n {f} (drained w e b c) h = record {
    order = h.order;
    crew = length-set f.consumers w done ∙ h.crew;
    fits = h.fits;
    ended = moved _ f.consumers w done h.ended (λ _. (c, b));
  }
  Consume-IsValid buf_size n {f} (consumed w v e) h = record {
    order = h.order;
    crew = length-set f.consumers w waiting ∙ h.crew;
    fits = h.fits;
    ended = moved _ f.consumers w waiting h.ended (λ e. cc);
  }

  FanStep-IsValid :
      (buf_size n : ℕ) {f g : Fan T}
      → FanStep buf_size f g
      → IsValid buf_size n f
      → IsValid buf_size n g
  FanStep-IsValid buf_size n {f} (send v open_still room) h = record {
    order = ap (λ t. t ++ v ∷ []) h.order ∙ append_assoc f.received f.buffer (v ∷ []);
    crew = h.crew;
    fits = omega (arith, length-append f.buffer (v ∷ []));
    ended = λ w e. cc (open_still, (h.ended w e).0);
  }
  FanStep-IsValid buf_size n {f} (close open_still) h = record {
    order = h.order;
    crew = h.crew;
    fits = h.fits;
    ended = λ w e. (refl, (h.ended w e).1);
  }
  FanStep-IsValid buf_size n (by_consumer c) h = Consume-IsValid buf_size n c h

  none_done : (k w : ℕ) → get_or {A = Consumer T} (replicate k waiting) w waiting ≢ done
  none_done zero w e = cc e
  none_done (suc k) zero e = cc e
  none_done (suc k) (suc w) e = none_done k w e

  start-IsValid : (buf_size n : ℕ) → IsValid buf_size n (start_fan n)
  unfolding start_fan
  start-IsValid buf_size n = record {
    order = refl;
    crew = length-replicate n waiting;
    fits = omega arith;
    ended = λ w e. absurd (none_done n w e);
  }

  FanReaches-IsValid :
      (buf_size n : ℕ) {f g : Fan T}
      → IsValid buf_size n f
      → FanReaches buf_size f g
      → IsValid buf_size n g
  FanReaches-IsValid buf_size n h here = h
  FanReaches-IsValid buf_size n h (next r s) =
      FanStep-IsValid buf_size n s (FanReaches-IsValid buf_size n h r)

  -- A consumer that is not at the end, if there is one.
  data Crew (cs : List (Consumer T)) : Type 0 where
    all_done : ((w : ℕ) → w < length cs → get_or cs w waiting ≡ done) → Crew cs
    one_waiting : (w : ℕ) → get_or cs w done ≡ waiting → Crew cs
    one_busy : (w : ℕ) (v : T) → get_or cs w done ≡ busy v → Crew cs

  one_more :
      (c : Consumer T) (cs : List (Consumer T))
      → c ≡ done
      → ((w : ℕ) → w < length cs → get_or cs w waiting ≡ done)
      → (w : ℕ) → w < length (c ∷ cs)
      → get_or (c ∷ cs) w waiting ≡ done
  one_more c cs e rest zero lt = e
  one_more c cs e rest (suc w) lt = rest w (omega (arith, lt))

  behind : (c : Consumer T) (cs : List (Consumer T)) → c ≡ done → Crew cs → Crew (c ∷ cs)
  behind c cs e (all_done rest) = all_done (one_more c cs e rest)
  behind c cs e (one_waiting w f) = one_waiting (suc w) f
  behind c cs e (one_busy w v f) = one_busy (suc w) v f

  crew_of : (cs : List (Consumer T)) → Crew cs
  crew_of [] = all_done (λ w lt. absurd (omega arith))
  crew_of (waiting ∷ cs) = one_waiting 0 refl
  crew_of (busy v ∷ cs) = one_busy 0 v refl
  crew_of (done ∷ cs) = behind done cs refl (crew_of cs)

  -- What a run can be waiting for.
  abbrev Progress : ℕ → Fan T → Type 0
  Progress buf_size f =
      ((f.closed ≡ true) × ((w : ℕ) → w < length f.consumers → get_or f.consumers w waiting ≡ done))
      ⊎ ((g : Fan T) × Consume f g)
      ⊎ ((f.closed ≡ false) × (length f.buffer < slots buf_size))

  waiting-Progress :
      (buf_size : ℕ) (f : Fan T) (w : ℕ) (buffer : List T)
      → f.buffer ≡ buffer
      → get_or f.consumers w done ≡ waiting
      → Progress buf_size f
  waiting-Progress buf_size f w (v ∷ rest) b e = inr (inl (_, receive w v rest e b))
  waiting-Progress buf_size f w [] b e = elim (Bool-cases f.closed) [
    | inl c ↦ inr (inl (_, drained w e b c))
    | inr c ↦ inr (inr (c, omega (arith, ap length b)))
  ]

  crew-Progress :
      (buf_size n : ℕ) (f : Fan T)
      → IsValid buf_size n f
      → 0 < n
      → Crew f.consumers
      → Progress buf_size f
  crew-Progress buf_size n f h some_crew (all_done all) =
      inl ((h.ended 0 (all 0 (omega (arith, h.crew)))).0, all)
  crew-Progress buf_size n f h some_crew (one_waiting w e) =
      waiting-Progress buf_size f w f.buffer refl e
  crew-Progress buf_size n f h some_crew (one_busy w v e) = inr (inl (_, consumed w v e))

-- In every reachable state the values received and, after them, those in the buffer are the values
-- sent, in the order of sending, each once; the buffer never holds more than its slots; and once a
-- consumer has left its loop the channel is closed and every value sent has been received.
pub received-sent :
    {T : Type 0} (buf_size n : ℕ) (f : Fan T)
    → FanReaches buf_size (start_fan n) f
    → (f.sent ≡ f.received ++ f.buffer)
      × (length f.buffer ≤ slots buf_size)
      × ((w : ℕ) → get_or f.consumers w waiting ≡ done → (f.closed ≡ true) × (f.received ≡ f.sent))
received-sent buf_size n f r =
    let h = FanReaches-IsValid buf_size n (start-IsValid buf_size n) r in
    (
      h.order,
      h.fits,
      λ w e.
          let (closed, drained_buffer) = h.ended w e in
          (
            closed,
            sym (h.order ∙ ap (λ t. f.received ++ t) drained_buffer ∙ append-nil f.received),
          ),
    )

-- With at least one consumer no reachable state is stuck: the channel is closed and every consumer
-- has left its loop, or a consumer can act, or the channel is open and its buffer has room, so that
-- a send does not block.
pub fanout_progress :
    {T : Type 0} (buf_size n : ℕ) (f : Fan T)
    → FanReaches buf_size (start_fan n) f
    → 0 < n
    → ((f.closed ≡ true) × ((w : ℕ) → w < length f.consumers → get_or f.consumers w waiting ≡ done))
      ⊎ ((g : Fan T) × Consume f g)
      ⊎ ((f.closed ≡ false) × (length f.buffer < slots buf_size))
fanout_progress buf_size n f r some_crew =
    crew-Progress buf_size n f (FanReaches-IsValid buf_size n (start-IsValid buf_size n) r)
      some_crew (crew_of f.consumers)
