-- ===== src/Main/Args.antt =====
-- main.go, `parseArgs`: what the accepted arguments are.
use native.Mathlib.Nat.{mul-le-mul}
use knighttour.Prelude.{ℕ, ◌*◌, ◌/◌, ◌≤◌, Bool, true, false, ◌||◌, Option, none, some}
use knighttour.Prelude.{◌≡◌, sym, ap, ◌∙◌, ◌⊎◌, inl, inr, arith, Bool-cases, refl}
use knighttour.Prelude.Int.{ℤ, to_ℕ}
use knighttour.Graph.{new}
use knighttour.Graph.Masks.{IsBoard, new-IsBoard}
use knighttour.Main.{
  Flags, AppArgs, Parsed, ok, error, chosen_depth, max_depth_of, check_flags, parse_args, less,
  more,
}

ok_args : Parsed → Option AppArgs
ok_args (ok a) = some a
ok_args (error e) = none

-- An integer between two bounds.
unfoldable pub Within : ℕ → ℤ → ℕ → Type 0
Within lo v hi = (v ≡ ℤ.pos (to_ℕ v)) × (lo ≤ to_ℕ v) × (to_ℕ v ≤ hi)

pub less-more-Within : (v : ℤ) (lo hi : ℕ) → (less v lo || more v hi) ≡ false → Within lo v hi
unfolding Within
less-more-Within (ℤ.pos n) lo hi h = (refl, ground arith, ground arith)
less-more-Within (ℤ.negsuc n) lo hi h = absurd (ground arith)

-- What `check_flags` has made sure of when it accepts.
record Accepted (f : Flags) : Type 0 where
  size : (less f.size 5 || more f.size 8) ≡ false
  depth : (less (chosen_depth f) 1 || more (chosen_depth f) (max_depth_of f.size)) ≡ false
  workers : less f.workers 1 ≡ false
  gc : less f.gc_percent 0 ≡ false

is_ok : Parsed → Bool
is_ok (ok a) = true
is_ok (error e) = false

-- The arguments that `check_flags` returns when it accepts.
unfoldable pub args_of : Flags → AppArgs
args_of f = record {
  size = f.size;
  workers = f.workers;
  precompute_depth = chosen_depth f;
  gc_percent = f.gc_percent;
}

check_flags-cases :
    (f : Flags) → (is_ok (check_flags f) ≡ false) ⊎ ((check_flags f ≡ ok (args_of f)) × Accepted f)
unfolding check_flags is_ok args_of
check_flags-cases f = elim (Bool-cases (less f.size 5 || more f.size 8)) [
  | inl bad ↦ inl (rw bad refl)
  | inr size ↦
      elim (Bool-cases (less (chosen_depth f) 1 || more (chosen_depth f) (max_depth_of f.size))) [
        | inl bad ↦ inl (rw (size, bad) refl)
        | inr depth ↦ elim (Bool-cases (less f.workers 1)) [
          | inl bad ↦ inl (rw (size, depth, bad) refl)
          | inr workers ↦ elim (Bool-cases (less f.gc_percent 0)) [
            | inl bad ↦ inl (rw (size, depth, workers, bad) refl)
            | inr gc ↦ inr (
              rw (size, depth, workers, gc) refl,
              record { size = size; depth = depth; workers = workers; gc = gc },
            )
          ]
        ]
      ]
]

pub at_least : (v : ℤ) (n : ℕ) → less v n ≡ false → (v ≡ ℤ.pos (to_ℕ v)) × (n ≤ to_ℕ v)
at_least (ℤ.pos v) n h = (refl, ground arith)
at_least (ℤ.negsuc v) n h = absurd (ground arith)

square_bound : (n : ℕ) → n ≤ 8 → n * n ≤ 64
square_bound n h = mul-le-mul h h

half_le : (d m : ℕ) → d ≤ m / 2 → 2 * d ≤ m
half_le d m h = omega arith

-- Arguments for which the pipeline is well defined: a board of 25 to 64 cells, at least one worker,
-- a depth from 1 on of which twice is still on the board, and a percentage that is not negative.
pub record IsRunnable (a : AppArgs) : Type 0 where
  pub size : (a.size ≡ ℤ.pos (to_ℕ a.size)) × (5 ≤ to_ℕ a.size) × (to_ℕ a.size ≤ 8)
  pub workers : (a.workers ≡ ℤ.pos (to_ℕ a.workers)) × (1 ≤ to_ℕ a.workers)
  pub gc : a.gc_percent ≡ ℤ.pos (to_ℕ a.gc_percent)
  pub depth : (a.precompute_depth ≡ ℤ.pos (to_ℕ a.precompute_depth)) × (1 ≤ to_ℕ a.precompute_depth)
  pub dual : 2 * to_ℕ a.precompute_depth ≤ (new (to_ℕ a.size)).total_cells
  pub board : IsBoard (new (to_ℕ a.size))

Accepted-IsRunnable : (f : Flags) → Accepted f → IsRunnable (args_of f)
unfolding args_of Within
Accepted-IsRunnable f h =
    let size = less-more-Within f.size 5 8 h.size in
    let depth = less-more-Within (chosen_depth f) 1 (max_depth_of f.size) h.depth in
    record {
      size = size;
      workers = at_least f.workers 1 h.workers;
      gc = (at_least f.gc_percent 0 h.gc).0;
      depth = (depth.0, depth.1);
      dual = unfold new in half_le (to_ℕ (chosen_depth f)) (to_ℕ f.size * to_ℕ f.size) depth.2;
      board = new-IsBoard (to_ℕ f.size) (square_bound (to_ℕ f.size) size.2);
    }

-- Arguments that `parseArgs` accepts are runnable: the size is 5 to 8 and gives a board of at most 64
-- cells on which all the neighbour masks are right, there is a worker, the depth is at least 1
-- and twice the depth is at most the number of cells, the percentage is not negative.
pub parse_args-IsRunnable : (f : Flags) (a : AppArgs) → parse_args (some f) ≡ ok a → IsRunnable a
unfolding parse_args
parse_args-IsRunnable f a e = elim (check_flags-cases f) [
  | inl bad ↦ absurd (unfold is_ok in cc (bad, e))
  | inr (good, h) ↦
      let same : some (args_of f) ≡ some a = unfold ok_args in ap ok_args (sym good ∙ e) in
      rw (← some_same _ _ same) (Accepted-IsRunnable f h)
]
  where
    some_same : (b c : AppArgs) → some b ≡ some c → b ≡ c
    some_same b c s = cc s
