-- ===== src/Counter/Sizes.antt =====
-- counter/counter.go, `effectiveBatch` and `countTasks`: the sizes of the counting phase.
use native.Mathlib.Nat.{div-le_of_le-mul, le-div_iff_mul-le, lt-div-mul-add, mul-pos}
use knighttour.Prelude.{ℕ, ◌+◌, ◌-◌, ◌*◌, ◌/◌, ◌≤◌, ◌<◌, min, max, ◌≡◌, arith}
use knighttour.Counter.{effective_batch, count_sizing, dispatch_claim_batch, dispatch_granularity_c}

effective_batch_range :
    (records consumers b c : ℕ)
    → 0 < b
    → (1 ≤ effective_batch records consumers b c) × (effective_batch records consumers b c ≤ b)
unfolding effective_batch
effective_batch_range records consumers b c hb = (omega arith, omega arith)

claims : (consumers c : ℕ) → 0 < consumers → 0 < c → max (consumers * max c 1) 1 ≡ consumers * c
claims consumers c hn hc =
    let one : max c 1 ≡ c = omega arith in rw one (omega (arith, mul-pos hn hc))

-- With at least one consumer, a ceiling `b` and a granularity `c` of at least 1, up to
-- `consumers * c` records are delivered record by record, from `b * (consumers * c)` records on the
-- batch is the ceiling, and every batch has from one to `b` records.
pub effective_batch_ends :
    (records consumers b c : ℕ)
    → 0 < consumers
    → 0 < b
    → 0 < c
    → (records ≤ consumers * c → effective_batch records consumers b c ≡ 1)
      × (b * (consumers * c) ≤ records → effective_batch records consumers b c ≡ b)
      × (1 ≤ effective_batch records consumers b c)
      × (effective_batch records consumers b c ≤ b)
unfolding effective_batch
effective_batch_ends records consumers b c hn hb hc = (
  λ few.
      let q : records / (consumers * c) ≤ 1 = div-le_of_le-mul (consumers * c) (omega arith) in
      rw (claims consumers c hn hc) (omega arith),
  λ many.
      let q : b ≤ records / (consumers * c) = (le-div_iff_mul-le (mul-pos hn hc)).1 many in
      rw (claims consumers c hn hc) (omega arith),
  rw (claims consumers c hn hc) (omega arith),
  rw (claims consumers c hn hc) (omega arith),
)

slots_enough : (capacity batch : ℕ) → 0 < batch → capacity ≤ (capacity + batch - 1) / batch * batch
slots_enough capacity batch h =
    let fits : capacity + batch - 1 < (capacity + batch - 1) / batch * batch + batch =
      lt-div-mul-add h in
    omega arith

-- For every crew, table and depth of the channel: there is at least one consumer, and no more than
-- workers (or one); a batch has from one to the 16 records of its array; the buffer has at least
-- one slot, and its slots in batches hold the capacity.
pub count_sizing_bounds :
    (workers records k : ℕ)
    → (1 ≤ (count_sizing workers records k).consumers)
      × ((count_sizing workers records k).consumers ≤ max workers 1)
      × (1 ≤ (count_sizing workers records k).batch)
      × ((count_sizing workers records k).batch ≤ dispatch_claim_batch)
      × (1 ≤ (count_sizing workers records k).slots)
      × ((count_sizing workers records k).capacity
          ≤ (count_sizing workers records k).slots * (count_sizing workers records k).batch)
unfolding count_sizing
count_sizing_bounds workers records k =
    let consumers = max (min workers records) 1 in
    let batch = effective_batch records consumers dispatch_claim_batch dispatch_granularity_c in
    let range =
      effective_batch_range records consumers dispatch_claim_batch dispatch_granularity_c
        (omega arith) in
    let capacity = max (min (consumers * k) records) 1 in
    (
      omega arith,
      omega arith,
      range.0,
      range.1,
      (le-div_iff_mul-le range.0).1 (omega arith),
      slots_enough capacity batch range.0,
    )
