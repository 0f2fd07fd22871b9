-- ===== src/Monitor/Printed.antt =====
-- monitoring/monitor.go, `pruneBreakdown` and `Finish`: the numbers that are printed.
use Prim.Native.String.{String}
use mathlib.Core.List.{append-nil, append_assoc}
use knighttour.Prelude.{
  ℕ, ◌+◌, ◌-◌, ◌%◌, ◌^◌, ◌<◌, ltb, if◌then◌else◌, Bool, true, Bool-cases, Option-cases, List, [],
  ◌∷◌, ◌++◌, sum, ◌∈◌,
}
use knighttour.Prelude.{◌≡◌, refl, sym, ap, ◌∙◌, inl, inr, arith}
use knighttour.Cache.{add64}
use knighttour.Monitor.{
  PhaseStats, Snapshot, Monitor, pruned_total, totals, sum_all, add, zero_snapshot, all_phases,
  close, finish,
}
use knighttour.Monitor.Sums.{sum_all-snoc}
use knighttour.Monitor.Report.{
  lit, num, percent, time, Text, prune_counters, prune_parts, join, in_brackets, prune_breakdown,
  report, phase_lines, total_paths, final_report, finish_lines,
}

-- The numbers of a text.
unfoldable pub numbers : Text → List ℕ
numbers [] = []
numbers (num n ∷ t) = n ∷ numbers t
numbers (lit s ∷ t) = numbers t
numbers (percent a b ∷ t) = numbers t
numbers (time d ∷ t) = numbers t

numbers-append : (t u : Text) → numbers (t ++ u) ≡ numbers t ++ numbers u
unfolding numbers
numbers-append [] u = refl
numbers-append (num n ∷ t) u = ap (λ ns. n ∷ ns) (numbers-append t u)
numbers-append (lit s ∷ t) u = numbers-append t u
numbers-append (percent a b ∷ t) u = numbers-append t u
numbers-append (time d ∷ t) u = numbers-append t u

numbers-join :
    (p : Text) (ps : List Text) → numbers (join (p ∷ ps)) ≡ numbers p ++ numbers (join ps)
unfolding join
numbers-join p [] =
    sym (append-nil (numbers p) ∙ refl) ∙ ap (λ ns. numbers p ++ ns) (unfold numbers in refl)
numbers-join p (q ∷ ps) = numbers-append p (lit ", " ∷ join (q ∷ ps)) ∙ unfold numbers in refl

numbers-in_brackets : (ps : List Text) → numbers (in_brackets ps) ≡ numbers (join ps)
unfolding in_brackets numbers
numbers-in_brackets [] = unfold join in refl
numbers-in_brackets (p ∷ ps) =
    numbers-append (join (p ∷ ps)) (lit ")" ∷ []) ∙ append-nil (numbers (join (p ∷ ps)))

-- The counters that are not 0.
positives : List (String × ℕ) → List ℕ
positives [] = []
positives ((name, v) ∷ cs) = let rest = positives cs in if ltb 0 v then v ∷ rest else rest

numbers-prune_parts : (cs : List (String × ℕ)) → numbers (join (prune_parts cs)) ≡ positives cs
unfolding prune_parts positives numbers
numbers-prune_parts [] = unfold join in refl
numbers-prune_parts ((name, v) ∷ cs) = elim (Bool-cases (ltb 0 v)) [
  | inl some_cut ↦ rw some_cut (
      numbers-join (lit name ∷ lit " " ∷ num v ∷ []) (prune_parts cs)
      ∙ ap (λ ns. v ∷ ns) (numbers-prune_parts cs))
  | inr nothing ↦ rw nothing (numbers-prune_parts cs)
]

values : List (String × ℕ) → ℕ
values [] = 0
values ((name, v) ∷ cs) = v + values cs

sum-positives : (cs : List (String × ℕ)) → sum (positives cs) ≡ values cs
unfolding positives values
sum-positives [] = refl
sum-positives ((name, v) ∷ cs) = ground (arith, sum-positives cs)

in-positives : (cs : List (String × ℕ)) (n : ℕ) → n ∈ positives cs → 0 < n
unfolding positives
in-positives [] n = λ i. absurd i
in-positives ((name, v) ∷ cs) n = elim (Bool-cases (ltb 0 v)) [
  | inl some_cut ↦
      rw some_cut λ i. elim i [ inl e ↦ ground arith | inr later ↦ in-positives cs n later ]
  | inr nothing ↦ rw nothing (in-positives cs n)
]

-- The numbers that the breakdown of a phase's cuts prints are none of them 0, and add up, modulo
-- 2 ^ 64, to the total that the summary prints before it.
pub numbers-prune_breakdown :
    (ph : PhaseStats)
    → (sum (numbers (prune_breakdown ph)) % 2 ^ 64 ≡ pruned_total ph)
      × ((n : ℕ) → n ∈ numbers (prune_breakdown ph) → 0 < n)
unfolding prune_breakdown
numbers-prune_breakdown ph =
    let cs = prune_counters ph in
    let printed = numbers-in_brackets (prune_parts cs) ∙ numbers-prune_parts cs in
    rw printed (
      ap (λ n. n % 2 ^ 64) (sum-positives cs) ∙ unfold values pruned_total in omega arith,
      in-positives cs,
    )

total_paths-sum_all :
    (phs : List PhaseStats) (a : Snapshot)
    → total_paths a.paths_found phs ≡ (sum_all a phs).paths_found
unfolding total_paths sum_all add
total_paths-sum_all [] a = refl
total_paths-sum_all (ph ∷ phs) a = total_paths-sum_all phs (add a ph)

close-paths : (now : ℕ) (ph : PhaseStats) → (close now ph).paths_found ≡ ph.paths_found
close-paths now ph = elim (Option-cases ph.end_time) [
  | inl still_open ↦ rw still_open refl
  | inr (t, e) ↦ rw e refl
]

snoc-paths :
    (phs : List PhaseStats) (ph : PhaseStats)
    → (sum_all zero_snapshot (phs ++ ph ∷ [])).paths_found
      ≡ add64 (sum_all zero_snapshot phs).paths_found ph.paths_found
unfolding add
snoc-paths phs ph = ap (λ (s : Snapshot). s.paths_found) (sum_all-snoc phs zero_snapshot ph)

finish-paths :
    (now : ℕ) (m : Monitor) → (totals (finish now m)).paths_found ≡ (totals m).paths_found
unfolding totals finish
finish-paths now m = elim (Bool-cases m.started) [
  | inr off ↦ rw off refl
  | inl on ↦ elim (Option-cases m.active) [
    | inl idle ↦ rw (on, idle) refl
    | inr (ph, e) ↦
        rw (on, e)
          (snoc-paths m.closed (close now ph)
            ∙ ap (λ n. add64 (sum_all zero_snapshot m.closed).paths_found n) (close-paths now ph)
            ∙ sym (snoc-paths m.closed ph))
  ]
]

both_on :
    (started verbose : Bool) (ts us : List Text)
    → started ≡ true
    → verbose ≡ true
    → (if started then ts ++ (if verbose then us else []) else []) ≡ ts ++ us
both_on started verbose ts us on loud = rw (on, loud) refl

-- For a verbose monitor that was started, the last line that `Finish` prints is the total of the
-- paths over all phases, which is the `PathsFound` that `Totals` returns.
pub finish_lines-totals :
    (now : ℕ) (m : Monitor)
    → m.started ≡ true
    → m.verbose ≡ true
    → (before : List Text) × (finish_lines now m
        ≡ before ++ (lit "Total paths: " ∷ num (totals m).paths_found ∷ []) ∷ [])
unfolding finish_lines final_report
finish_lines-totals now m started verbose =
    let phs = all_phases (finish now m) in
    let total = total_paths-sum_all phs zero_snapshot ∙ all_phases-paths now m in
    let lines =
      ((lit "=== Final ===" ∷ []) ∷ (lit "Total time: " ∷ time (now - m.start_time) ∷ []) ∷ [])
      ++ phase_lines phs in
    (
      report now m ++ lines,
      both_on m.started m.verbose (report now m) _ started verbose
          ∙ ap (λ (n : ℕ). report now m ++ (lines ++ (lit "Total paths: " ∷ num n ∷ []) ∷ [])) total
          ∙ sym (append_assoc (report now m) lines _),
    )
  where
    all_phases-paths :
        (now : ℕ) (m : Monitor)
        → (sum_all zero_snapshot (all_phases (finish now m))).paths_found ≡ (totals m).paths_found
    all_phases-paths now m = unfold totals in finish-paths now m
