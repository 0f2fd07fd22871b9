-- ===== src/WorkerPool/Claims.antt =====
-- workerpool/workerpool.go, `claims`: the indices that the workers of a `Run` take.
use knighttour.Prelude.{
  ℕ, zero, suc, ◌+◌, ◌≤◌, ◌<◌, min, ◌≡◌, ◌≢◌, refl, sym, ap, ◌∙◌, Bool, true, false, arith,
}
use knighttour.Prelude.{List, [], ◌∷◌, ◌++◌, get_or, set, replicate, range}
use knighttour.WorkerPool.{
  Phase, ready, checked, finished, broken, working, Crew, start_crew, Step, end_context, go_on,
  give_up, claim, exhausted, body_done, break_out, Reaches, stay, then_step,
}

range-snoc : (lo n : ℕ) → range lo n ++ (lo + n) ∷ [] ≡ range lo (suc n)
range-snoc lo zero = ap (λ t. t ∷ []) (omega arith)
range-snoc lo (suc n) =
    let same : lo + suc n ≡ suc lo + n = omega arith in
    rw same (ap (λ t. lo ∷ t) (range-snoc (suc lo) n))

range_claim :
    (cursor n : ℕ)
    → cursor < n
    → range 0 (min cursor n) ++ cursor ∷ [] ≡ range 0 (min (cursor + 1) n)
range_claim cursor n lt =
    let a : min cursor n ≡ cursor = omega arith in
    let b : min (cursor + 1) n ≡ suc cursor = omega arith in
    let z : 0 + cursor ≡ cursor = omega arith in rw (a, b) (rw z at (range-snoc 0 cursor))

is_finished : Phase → Bool
is_finished finished = true
is_finished _ = false

record IsValid (n : ℕ) (c : Crew) : Type 0 where
  in_order : c.claimed ≡ range 0 (min c.cursor n)
  at_end : c.ended ≡ false → (w : ℕ) → get_or c.workers w ready ≡ finished → n ≤ c.cursor

-- A worker that moves to another phase than the last, or after the indices are exhausted.
moved :
    (n cursor : ℕ) (workers : List Phase) (w : ℕ) (p : Phase)
    → ((v : ℕ) → get_or workers v ready ≡ finished → n ≤ cursor)
    → (p ≡ finished → n ≤ cursor)
    → (v : ℕ) → get_or (set workers w p) v ready ≡ finished
    → n ≤ cursor
moved n cursor [] w p old new v e = old v e
moved n cursor (x ∷ workers) zero p old new zero e = new e
moved n cursor (x ∷ workers) zero p old new (suc v) e = old (suc v) e
moved n cursor (x ∷ workers) (suc w) p old new zero e = old zero e
moved n cursor (x ∷ workers) (suc w) p old new (suc v) e =
    moved n cursor workers w p (λ u. old (suc u)) new v e

not_finished : (p : Phase) → is_finished p ≡ false → p ≢ finished
unfolding is_finished
not_finished p e same = cc (e, ap is_finished same)

Step-IsValid : (n : ℕ) (c d : Crew) → Step n c d → IsValid n c → IsValid n d
unfolding is_finished
Step-IsValid n c d (end_context _) v = record { in_order = v.in_order; at_end = λ e. cc e }
Step-IsValid n c d (go_on _ w e on) v = record {
  in_order = v.in_order;
  at_end = λ same.
      moved n c.cursor c.workers w checked (v.at_end same)
        (λ f. absurd (not_finished checked refl f));
}
Step-IsValid n c d (give_up _ w e over) v = record {
  in_order = v.in_order;
  at_end = λ same. cc (same, over);
}
Step-IsValid n c d (claim _ w e lt) v = record {
  in_order = ap (λ t. t ++ c.cursor ∷ []) v.in_order ∙ range_claim c.cursor n lt;
  at_end = λ same.
      moved n (c.cursor + 1) c.workers w (working c.cursor)
        (λ u f. omega (arith, v.at_end same u f))
        (λ f. absurd (not_finished (working c.cursor) refl f));
}
Step-IsValid n c d (exhausted _ w e le) v = record {
  in_order = v.in_order ∙ ap (range 0) (omega arith);
  at_end = λ same u f. omega arith;
}
Step-IsValid n c d (body_done _ w i e) v = record {
  in_order = v.in_order;
  at_end = λ same.
      moved n c.cursor c.workers w ready (v.at_end same) (λ f. absurd (not_finished ready refl f));
}
Step-IsValid n c d (break_out _ w i e) v = record {
  in_order = v.in_order;
  at_end = λ same.
      moved n c.cursor c.workers w broken (v.at_end same)
        (λ f. absurd (not_finished broken refl f));
}

start_no_finished : (k w : ℕ) → get_or (replicate k ready) w ready ≢ finished
start_no_finished zero w f = not_finished ready (unfold is_finished in refl) f
start_no_finished (suc k) zero f = not_finished ready (unfold is_finished in refl) f
start_no_finished (suc k) (suc w) f = start_no_finished k w f

start-IsValid : (workers n : ℕ) → IsValid n (start_crew workers n)
unfolding start_crew
start-IsValid workers n = record {
  in_order = ap (range 0) (sym (zero_min n));
  at_end = λ e w f. absurd (start_no_finished (min workers n) w f);
}
  where
    zero_min : (n : ℕ) → min 0 n ≡ 0
    zero_min n = omega arith

Reaches-IsValid : (n : ℕ) (c d : Crew) → Reaches n c d → IsValid n c → IsValid n d
Reaches-IsValid n c d (stay _) v = v
Reaches-IsValid n c d (then_step _ b _ r s) v = Step-IsValid n b d s (Reaches-IsValid n c b r v)

-- Whatever the workers' order, whichever bodies break out of the loop and whenever the context ends,
-- the indices handed out are 0, 1, 2, … in this order, each once and none beyond the last.
pub claimed-range :
    (workers n : ℕ) (c : Crew)
    → Reaches n (start_crew workers n) c
    → c.claimed ≡ range 0 (min c.cursor n)
claimed-range workers n c r = (Reaches-IsValid n _ c r (start-IsValid workers n)).in_order

-- If the context has not ended and one worker has left its loop without breaking out of it, then all
-- indices were handed out, each once, whichever other workers have broken out.
pub claimed_all :
    (workers n w : ℕ) (c : Crew)
    → Reaches n (start_crew workers n) c
    → c.ended ≡ false
    → get_or c.workers w ready ≡ finished
    → c.claimed ≡ range 0 n
claimed_all workers n w c r on e =
    let v = Reaches-IsValid n _ c r (start-IsValid workers n) in
    let all : min c.cursor n ≡ n = omega (arith, v.at_end on w e) in v.in_order ∙ ap (range 0) all
