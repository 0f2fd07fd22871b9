-- ===== src/Main/Outcome.antt =====
-- main.go, `parseArgs`: which of its checks decides.
use knighttour.Prelude.{ℕ, ◌≤◌, true, ◌||◌, some}
use knighttour.Prelude.{◌≡◌, ◌≢◌, refl, sym, ap, arith, inl, inr, ◌↔◌, Bool-cases, ==→≡}
use knighttour.Prelude.{false, List, [], ◌∷◌, ◌∈◌}
use knighttour.Counter.{default_precompute_depth}
use knighttour.Prelude.Int.{ℤ, to_ℕ}
use knighttour.Main.{
  FlagName, size_flag, workers_flag, depth_flag, gc_flag, same_flag, is_flag_set, is_zero, Flags,
  bad_size, bad_workers, bad_gc_percent, bad_depth, Parsed, ok, error, less, more, chosen_depth,
  max_depth_of, check_flags, parse_args,
}
use knighttour.Main.Args.{Within, less-more-Within, at_least, args_of}

-- An integer from `lo` on.
unfoldable pub AtLeast : ℕ → ℤ → Type 0
AtLeast lo v = (v ≡ ℤ.pos (to_ℕ v)) × (lo ≤ to_ℕ v)

-- What the flags must be for each result: an error is that of the first value that is out of its
-- range, in the order size, depth, workers, percentage.
pub data Outcome (f : Flags) : Parsed → Type 0 where
  size_off : ¬ Within 5 f.size 8 → Outcome f (error bad_size)
  depth_off :
      Within 5 f.size 8
      → ¬ Within 1 (chosen_depth f) (max_depth_of f.size)
      → Outcome f (error (bad_depth (max_depth_of f.size)))
  workers_off :
      Within 5 f.size 8
      → Within 1 (chosen_depth f) (max_depth_of f.size)
      → ¬ AtLeast 1 f.workers
      → Outcome f (error bad_workers)
  gc_off :
      Within 5 f.size 8
      → Within 1 (chosen_depth f) (max_depth_of f.size)
      → AtLeast 1 f.workers
      → ¬ AtLeast 0 f.gc_percent
      → Outcome f (error bad_gc_percent)
  accepted :
      Within 5 f.size 8
      → Within 1 (chosen_depth f) (max_depth_of f.size)
      → AtLeast 1 f.workers
      → AtLeast 0 f.gc_percent
      → Outcome f (ok (args_of f))

not_Within : (v : ℤ) (lo hi : ℕ) → (less v lo || more v hi) ≡ true → ¬ Within lo v hi
unfolding Within
not_Within (ℤ.pos n) lo hi h w = ground arith
not_Within (ℤ.negsuc n) lo hi h w = cc (w.0)

not_AtLeast : (v : ℤ) (lo : ℕ) → less v lo ≡ true → ¬ AtLeast lo v
unfolding AtLeast
not_AtLeast (ℤ.pos n) lo h w = ground arith
not_AtLeast (ℤ.negsuc n) lo h w = cc (w.0)

-- Only the depth flag has its name.
same_flag-depth : (g : FlagName) → same_flag g depth_flag ≡ true → g ≡ depth_flag
same_flag-depth size_flag e = absurd (ground arith)
same_flag-depth workers_flag e = absurd (ground arith)
same_flag-depth depth_flag e = refl
same_flag-depth gc_flag e = absurd (ground arith)

is_flag_set-found : (fs : List FlagName) → is_flag_set fs depth_flag true ≡ true
unfolding is_flag_set
is_flag_set-found [] = refl
is_flag_set-found (g ∷ fs) = elim (Bool-cases (same_flag g depth_flag)) [
  | inl e ↦ rw e (is_flag_set-found fs)
  | inr e ↦ rw e (is_flag_set-found fs)
]

is_flag_set-true :
    (fs : List FlagName) → (is_flag_set fs depth_flag false ≡ true) ↔ (depth_flag ∈ fs)
unfolding is_flag_set
is_flag_set-true [] = (λ e. absurd (ground arith), λ m. absurd m)
is_flag_set-true (g ∷ fs) = elim (Bool-cases (same_flag g depth_flag)) [
  | inl e ↦ rw e (λ t. inl (sym (same_flag-depth g e)), λ m. is_flag_set-found fs)
  | inr e ↦
      let rest = is_flag_set-true fs in
      rw e (
        λ t. inr (rest.0 t),
        elim [
          | inl here ↦ absurd (ground (arith, ap (λ k. same_flag k depth_flag) here))
          | inr m ↦ rest.1 m
        ],
      )
]

is_zero-eq : (v : ℤ) → is_zero v ≡ true → v ≡ ℤ.pos 0
is_zero-eq (ℤ.pos v) e = ap ℤ.pos (==→≡ v 0 e)
is_zero-eq (ℤ.negsuc v) e = absurd (ground arith)

-- The depth of the flag, where it is given or not 0, and the default of the size otherwise.
unfoldable pub IsChosen : Flags → ℤ → Type 0
IsChosen f depth =
    ((depth_flag ∈ f.set_flags → depth ≡ f.precompute_depth)
      × (f.precompute_depth ≢ ℤ.pos 0 → depth ≡ f.precompute_depth)
      × (¬ (depth_flag ∈ f.set_flags)
          → f.precompute_depth ≡ ℤ.pos 0
          → depth ≡ ℤ.pos (default_precompute_depth (to_ℕ f.size))))

chosen_depth-IsChosen : (f : Flags) → IsChosen f (chosen_depth f)
unfolding chosen_depth IsChosen
chosen_depth-IsChosen f =
    let given = is_flag_set-true f.set_flags in
    (
      λ m. rw (given.1 m) (ground arith),
      λ other. elim (Bool-cases (is_zero f.precompute_depth)) [
        | inl e ↦ absurd (other (is_zero-eq f.precompute_depth e))
        | inr e ↦ rw e refl
      ],
      λ absent zero. elim (Bool-cases (is_flag_set f.set_flags depth_flag false)) [
        | inl e ↦ absurd (absent (given.0 e))
        | inr e ↦ rw (e, zero) refl
      ],
    )

parse_args_outcome : (f : Flags) → Outcome f (parse_args (some f))
unfolding parse_args check_flags AtLeast args_of
parse_args_outcome f = elim (Bool-cases (less f.size 5 || more f.size 8)) [
  | inl bad ↦ rw bad (size_off (not_Within f.size 5 8 bad))
  | inr size ↦
      let s = less-more-Within f.size 5 8 size in
      elim (Bool-cases (less (chosen_depth f) 1 || more (chosen_depth f) (max_depth_of f.size))) [
        | inl bad ↦ rw (size, bad) (depth_off s (not_Within _ 1 _ bad))
        | inr depth ↦
            let d = less-more-Within (chosen_depth f) 1 (max_depth_of f.size) depth in
            elim (Bool-cases (less f.workers 1)) [
              | inl bad ↦ rw (size, depth, bad) (workers_off s d (not_AtLeast f.workers 1 bad))
              | inr workers ↦
                  let w = at_least f.workers 1 workers in
                  elim (Bool-cases (less f.gc_percent 0)) [
                    | inl bad ↦
                        rw (size, depth, workers, bad)
                          (gc_off s d w (not_AtLeast f.gc_percent 0 bad))
                    | inr gc ↦
                        rw (size, depth, workers, gc) (accepted s d w (at_least f.gc_percent 0 gc))
                  ]
            ]
      ]
]

-- `parseArgs` fails with the error of the first value that is out of its range - the size 5 to 8, the
-- chosen depth 1 to half the cells, at least one worker, a percentage that is not negative - and
-- accepts exactly when all are in their ranges, with the values of the flags and the chosen depth.
-- That is the depth of the flag where the flag is given or its value is not 0, and the default of
-- the size otherwise.
pub parse_args-Outcome : (f : Flags) → Outcome f (parse_args (some f)) × IsChosen f (chosen_depth f)
parse_args-Outcome f = (parse_args_outcome f, chosen_depth-IsChosen f)
