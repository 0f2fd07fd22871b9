-- ===== src/Counter/Delivery.antt =====
-- counter/counter.go, `dispatchEntries`: what reaches the consumers of the counting phase.
use knighttour.Prelude.{
  ℕ, ◌≤◌, ◌<◌, ltb, Bool, true, false, ◌&&◌, List, [], ◌∷◌, ◌++◌, length, length-append, arith,
  Bool-cases,
}
use knighttour.Prelude.{◌≡◌, refl, sym, ap, ◌∙◌, inl, inr}
use knighttour.Cache.{Entry}
use knighttour.Counter.Dispatch.{
  Dispatch, start_dispatch, send_batch, take_record, dispatch_walk, dispatch_entries,
}

-- All records of the batches, in order.
unfoldable pub concat : List (List Entry) → List Entry
concat [] = []
concat (b ∷ bs) = b ++ concat bs

-- Every batch has a record, and no more than `batch`.
unfoldable pub IsFit : ℕ → List (List Entry) → Type 0
IsFit batch [] = Unit
IsFit batch (b ∷ bs) = (1 ≤ length b) × (length b ≤ batch) × IsFit batch bs

append_assoc : (xs ys zs : List Entry) → (xs ++ ys) ++ zs ≡ xs ++ (ys ++ zs)
append_assoc [] ys zs = refl
append_assoc (x ∷ xs) ys zs = ap (λ t. x ∷ t) (append_assoc xs ys zs)

append_nil : (xs : List Entry) → xs ++ [] ≡ xs
append_nil [] = refl
append_nil (x ∷ xs) = ap (λ t. x ∷ t) (append_nil xs)

concat-snoc : (bs : List (List Entry)) (b : List Entry) → concat (bs ++ b ∷ []) ≡ concat bs ++ b
unfolding concat
concat-snoc [] b = append_nil b
concat-snoc (c ∷ bs) b = ap (λ t. c ++ t) (concat-snoc bs b) ∙ sym (append_assoc c (concat bs) b)

IsFit-snoc :
    (batch : ℕ) (bs : List (List Entry)) (b : List Entry)
    → IsFit batch bs
    → 1 ≤ length b
    → length b ≤ batch
    → IsFit batch (bs ++ b ∷ [])
unfolding IsFit
IsFit-snoc batch [] b f lo hi = (lo, hi, tt)
IsFit-snoc batch (c ∷ bs) b f lo hi = (f.0, f.1, IsFit-snoc batch bs b f.2 lo hi)

-- After the records `seen` have been taken: what is sent and what is being filled are those records,
-- in order; the batches fit, and the sent records have been registered.
record IsValid (batch : ℕ) (seen : List Entry) (d : Dispatch) : Type 0 where
  order : concat d.sent ++ d.filling ≡ seen
  fit : IsFit batch d.sent
  room : length d.filling < batch
  registered : d.added ≡ length (concat d.sent)

module _ (batch : ℕ) (positive : 0 < batch) where
  start-IsValid : IsValid batch [] start_dispatch
  start-IsValid = record {
    order = unfold concat in refl;
    fit = unfold IsFit in tt;
    room = positive;
    registered = unfold concat in refl;
  }

  send_batch-IsValid :
      (deliver : ℕ → Bool) (seen : List Entry) (d : Dispatch)
      → concat d.sent ++ d.filling ≡ seen
      → IsFit batch d.sent
      → 1 ≤ length d.filling
      → length d.filling ≤ batch
      → d.added ≡ length (concat d.sent)
      → deliver d.sends ≡ true
      → ((send_batch deliver d).0 ≡ true) × IsValid batch seen (send_batch deliver d).1
  unfolding send_batch
  send_batch-IsValid deliver seen d order fit lo hi registered ok = rw ok (
    refl,
    record {
      order = append_nil _ ∙ concat-snoc d.sent d.filling ∙ order;
      fit = IsFit-snoc batch d.sent d.filling fit lo hi;
      room = positive;
      registered = omega (
        arith,
        registered,
        ap length (concat-snoc d.sent d.filling),
        length-append (concat d.sent) d.filling,
      );
    },
  )

  take_record-IsValid :
      (deliver : ℕ → Bool) (seen : List Entry) (e : Entry) (d : Dispatch)
      → ((n : ℕ) → deliver n ≡ true)
      → IsValid batch seen d
      → ((take_record deliver batch e d).0 ≡ true)
        × IsValid batch (seen ++ e ∷ []) (take_record deliver batch e d).1
  unfolding take_record
  take_record-IsValid deliver seen e d ok v =
      let grown = length-append d.filling (e ∷ []) in
      let order =
        sym (append_assoc (concat d.sent) d.filling (e ∷ [])) ∙ ap (λ t. t ++ e ∷ []) v.order in
      elim (Bool-cases (ltb (length (d.filling ++ e ∷ [])) batch)) [
        | inl more ↦ rw more (
          refl,
          record { order = order; fit = v.fit; room = ground arith; registered = v.registered },
        )
        | inr full ↦ rw full (
            send_batch-IsValid deliver (seen ++ e ∷ []) (record d { filling = d.filling ++ e ∷ [] })
              order v.fit (omega (arith, grown)) (omega (arith, grown, v.room)) v.registered
              (ok d.sends))
      ]

  dispatch_walk-IsValid :
      (deliver : ℕ → Bool) (es seen : List Entry) (d : Dispatch)
      → ((n : ℕ) → deliver n ≡ true)
      → IsValid batch seen d
      → ((dispatch_walk deliver batch es d).0 ≡ true)
        × IsValid batch (seen ++ es) (dispatch_walk deliver batch es d).1
  unfolding dispatch_walk
  dispatch_walk-IsValid deliver [] seen d ok v = (refl, rw (append_nil seen) v)
  dispatch_walk-IsValid deliver (e ∷ es) seen d ok v =
      let (on, next) = take_record-IsValid deliver seen e d ok v in
      rw (on, ← append_assoc seen (e ∷ []) es)
        (dispatch_walk-IsValid deliver es (seen ++ e ∷ []) _ ok next)

no_records : (xs : List Entry) → ltb 0 (length xs) ≡ false → xs ≡ []
no_records [] e = refl
no_records (x ∷ xs) e = absurd (ground arith)

-- A dispatch that is valid and has nothing left to send.
settled :
    (batch : ℕ) (es : List Entry) (d : Dispatch)
    → IsValid batch es d
    → d.filling ≡ []
    → (concat d.sent ≡ es) × IsFit batch d.sent × (d.added ≡ length es)
settled batch es d v nothing =
    let all =
      sym (append_nil (concat d.sent)) ∙ ap (λ t. concat d.sent ++ t) (sym nothing) ∙ v.order in
    (all, v.fit, v.registered ∙ ap length all)

sent_filling :
    (deliver : ℕ → Bool) (d : Dispatch)
    → deliver d.sends ≡ true
    → (send_batch deliver d).1.filling ≡ []
unfolding send_batch
sent_filling deliver d ok = rw ok refl

-- For a batch size of at least 1, if every send finds a slot and the context has not ended after
-- the walk, the batches that are sent, one after the other, are exactly the records of the walk in
-- their order; each has from one to `batch` records, and as many tasks are registered as there are
-- records.
pub concat-dispatch_entries :
    (deliver : ℕ → Bool) (batch : ℕ) (es : List Entry)
    → ((n : ℕ) → deliver n ≡ true)
    → 0 < batch
    → (concat (dispatch_entries deliver true batch es).sent ≡ es)
      × IsFit batch (dispatch_entries deliver true batch es).sent
      × ((dispatch_entries deliver true batch es).added ≡ length es)
unfolding dispatch_entries
concat-dispatch_entries deliver batch es ok positive =
    let d = (dispatch_walk deliver batch es start_dispatch).1 in
    let (on, v) =
      dispatch_walk-IsValid batch positive deliver es [] start_dispatch ok
        (start-IsValid batch positive) in
    elim (Bool-cases (ltb 0 (length d.filling))) [
      | inl more ↦
          let (_, v') =
            send_batch-IsValid batch positive deliver es d v.order v.fit (ground arith)
              (omega (arith, v.room)) v.registered (ok d.sends) in
          rw (on, more)
            (settled batch es (send_batch deliver d).1 v' (sent_filling deliver d (ok d.sends)))
      | inr none_left ↦ rw (on, none_left) (settled batch es d v (no_records d.filling none_left))
    ]

send_batch_registered :
    (deliver : ℕ → Bool) (d : Dispatch)
    → length (concat d.sent) ≤ d.added
    → length (concat (send_batch deliver d).1.sent) ≤ (send_batch deliver d).1.added
unfolding send_batch
send_batch_registered deliver d h = elim (Bool-cases (deliver d.sends)) [
  | inl ok ↦ rw ok (
      omega
        (arith, ap length (concat-snoc d.sent d.filling), length-append (concat d.sent) d.filling))
  | inr lost ↦ rw lost (omega arith)
]

dispatch_walk_registered :
    (deliver : ℕ → Bool) (batch : ℕ) (es : List Entry) (d : Dispatch)
    → length (concat d.sent) ≤ d.added
    → length (concat (dispatch_walk deliver batch es d).1.sent)
      ≤ (dispatch_walk deliver batch es d).1.added
unfolding dispatch_walk take_record
dispatch_walk_registered deliver batch [] d h = h
dispatch_walk_registered deliver batch (e ∷ es) d h =
    let d' : Dispatch = record d { filling = d.filling ++ e ∷ [] } in
    elim (Bool-cases (ltb (length d'.filling) batch)) [
      | inl more ↦ rw more (dispatch_walk_registered deliver batch es d' h)
      | inr full ↦ elim (Bool-cases (send_batch deliver d').0) [
        | inl on ↦
            rw (full, on)
              (dispatch_walk_registered deliver batch es _ (send_batch_registered deliver d' h))
        | inr stop ↦ rw (full, stop) (send_batch_registered deliver d' h)
      ]
    ]

-- No record is sent that has not been registered before.
pub dispatch_entries_registered :
    (deliver : ℕ → Bool) (alive : Bool) (batch : ℕ) (es : List Entry)
    → length (concat (dispatch_entries deliver alive batch es).sent)
      ≤ (dispatch_entries deliver alive batch es).added
unfolding dispatch_entries
dispatch_entries_registered deliver alive batch es =
    let (whole, d) = dispatch_walk deliver batch es start_dispatch in
    let h =
      dispatch_walk_registered deliver batch es start_dispatch (unfold concat in omega arith) in
    elim (Bool-cases (whole && ltb 0 (length d.filling) && alive)) [
      | inl tail ↦ rw tail (send_batch_registered deliver d h)
      | inr over ↦ rw over h
    ]
