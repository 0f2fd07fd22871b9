-- ===== src/Counter/Desks.antt =====
-- counter/counter.go, `extendTasks`: the writers of the workers and the table that they share.
use knighttour.Prelude.{
  ℕ, zero, suc, ◌+◌, ◌<◌, ◌==◌, List, [], ◌∷◌, ◌++◌, length, get_or, set, length-set,
  length-replicate, Bool-cases, get_or-set_self, get_or-set_ne,
}
use knighttour.Prelude.{◌≡◌, ◌≢◌, refl, sym, ap, ◌∙◌, inl, inr, arith, ==→≡, ==→≢}
use mathlib.Core.List.{append_assoc, append-nil}
use knighttour.State.{State}
use knighttour.Cache.{Entry, Cache, num_shards, empty_shard, new_cache}
use knighttour.Cache.Sums.{sum_over, sum_over-append}
use knighttour.Cache.Staging.{Staging, new_staging, staging_set, flush}
use knighttour.Cache.Histogram.{set_all}
use knighttour.Cache.Flushed.{
  set_all-append, length-set_all, flat, IsWriter, Moves, flush-Moves, staging_set-Moves, kept,
}
use knighttour.Searcher.Tasks.{put_all}
use knighttour.Counter.{staging_flush_limit}
use knighttour.Counter.Phases.{Desks, at_desk}

abbrev pub blank : Cache → Staging
blank c = new_staging c staging_flush_limit

-- Worker `w`'s writer, on the shared table.
abbrev pub desk : ℕ → Desks → Staging
desk w d = record (get_or d.stagings w (blank d.cache)) { cache = d.cache }

-- A sum over what is in the baskets.
unfoldable pub pending : (Entry → ℕ) → List Staging → ℕ
pending f [] = 0
pending f (s ∷ ss) = sum_over f (flat s.baskets) + pending f ss

pending-set :
    (f : Entry → ℕ) (ss : List Staging) (w : ℕ) (own d : Staging)
    → w < length ss
    → pending f (set ss w own) + sum_over f (flat (get_or ss w d).baskets)
      ≡ pending f ss + sum_over f (flat own.baskets)
unfolding pending
pending-set f [] w own d lt = absurd (omega arith)
pending-set f (s ∷ ss) zero own d lt = omega arith
pending-set f (s ∷ ss) (suc w) own d lt = omega (arith, pending-set f ss w own d (omega arith))

-- The shared table is made of contributions which, with those in the baskets, are the ones of `log`.
pub record Holds (log : List Entry) (d : Desks) : Type 0 where
  pub out : List Entry
  pub made : d.cache ≡ set_all new_cache out
  pub writers : (w : ℕ) (b : Staging) → w < length d.stagings → IsWriter (get_or d.stagings w b)
  pub balance : (f : Entry → ℕ) → sum_over f out + pending f d.stagings ≡ sum_over (kept f) log

Holds-shards : (log : List Entry) (d : Desks) → Holds log d → length d.cache.shards ≡ num_shards
unfolding new_cache
Holds-shards log d h =
    ap (λ (c : Cache). length c.shards) h.made
    ∙ length-set_all new_cache h.out
    ∙ length-replicate num_shards empty_shard

-- A step of one writer.
at_desk-Holds :
    (log new : List Entry) (d : Desks) (w : ℕ) (step : Staging → Staging) (extra : (Entry → ℕ) → ℕ)
    → w < length d.stagings
    → Holds log d
    → Moves (desk w d) (step (desk w d)) extra
    → ((f : Entry → ℕ) → sum_over (kept f) new ≡ extra f)
    → Holds (log ++ new) (at_desk step w d)
at_desk-Holds log new d w step extra lt h m same = record {
  out = h.out ++ m.out;
  made = m.made ∙ ap (λ c. set_all c m.out) h.made ∙ sym (set_all-append new_cache h.out m.out);
  writers = λ v b lv. elim (Bool-cases (w == v)) [
    | inl e ↦ rw (← ==→≡ w v e, get_or-set_self d.stagings w (step (desk w d)) b lt) m.writer
    | inr e ↦
        rw (get_or-set_ne d.stagings w v (step (desk w d)) b (==→≢ w v e))
          (h.writers v b (omega (arith, lv, length-set d.stagings w (step (desk w d)))))
  ];
  balance = λ f. omega (
    arith,
    pending-set f d.stagings w (step (desk w d)) (blank d.cache) lt,
    m.balance f,
    h.balance f,
    same f,
    sum_over-append f h.out m.out,
    sum_over-append (kept f) log new,
  );
}

-- A write of worker `w`, and all of its writes in turn.
abbrev pub put_at : ℕ → Desks → State → ℕ → ℕ → Desks
put_at w d key rep weight = at_desk (λ st. staging_set st key rep weight) w d

pub length-at_desk :
    (step : Staging → Staging) (w : ℕ) (d : Desks)
    → length (at_desk step w d).stagings ≡ length d.stagings
length-at_desk step w d = length-set d.stagings w (step (desk w d))

put_at-Holds :
    (log : List Entry) (d : Desks) (w : ℕ) (e : Entry)
    → w < length d.stagings
    → Holds log d
    → Holds (log ++ e ∷ []) (put_at w d e.mask e.rep e.weight)
unfolding IsWriter
put_at-Holds log d w e lt h =
    at_desk-Holds log (e ∷ []) d w (λ st. staging_set st e.mask e.rep e.weight) (λ f. kept f e) lt h
      (staging_set-Moves (desk w d) e (h.writers w (blank d.cache) lt) (Holds-shards log d h))
      (λ f. unfold sum_over in omega arith)

pub release_at-Holds :
    (log : List Entry) (d : Desks) (w : ℕ)
    → w < length d.stagings
    → Holds log d
    → Holds log (at_desk flush w d)
unfolding IsWriter
release_at-Holds log d w lt h =
    let g =
      at_desk-Holds log [] d w flush (λ f. 0) lt h
        (flush-Moves (desk w d) (h.writers w (blank d.cache) lt) (Holds-shards log d h))
        (λ f. unfold sum_over in refl) in
    rw (append-nil log) at g

pub put_all-Holds :
    (log es : List Entry) (d : Desks) (w : ℕ)
    → w < length d.stagings
    → Holds log d
    → Holds (log ++ es) (put_all (put_at w) d es)
unfolding put_all
put_all-Holds log [] d w lt h = rw (append-nil log) h
put_all-Holds log (e ∷ es) d w lt h =
    let same = length-at_desk (λ st. staging_set st e.mask e.rep e.weight) w d in
    let g =
      put_all-Holds (log ++ e ∷ []) es (put_at w d e.mask e.rep e.weight) w
        (omega (arith, same, lt)) (put_at-Holds log d w e lt h) in
    rw (append_assoc log (e ∷ []) es) at g

-- The baskets of the other workers stay.
pub put_all-other :
    (es : List Entry) (d : Desks) (w v : ℕ) (b : Staging)
    → w ≢ v
    → get_or (put_all (put_at w) d es).stagings v b ≡ get_or d.stagings v b
unfolding put_all
put_all-other [] d w v b ne = refl
put_all-other (e ∷ es) d w v b ne =
    put_all-other es (put_at w d e.mask e.rep e.weight) w v b ne
    ∙ get_or-set_ne d.stagings w v _ b ne

pub length-put_all :
    (es : List Entry) (d : Desks) (w : ℕ)
    → length (put_all (put_at w) d es).stagings ≡ length d.stagings
unfolding put_all
length-put_all [] d w = refl
length-put_all (e ∷ es) d w =
    length-put_all es (put_at w d e.mask e.rep e.weight) w
    ∙ length-at_desk (λ st. staging_set st e.mask e.rep e.weight) w d
