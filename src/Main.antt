-- ===== src/Main.antt =====
-- main.go: the checks of `parseArgs`, `run` and `main`. The `flag` package is not modelled: what it
-- parses is an argument.
pub mod Args
pub mod Outcome
use knighttour.Prelude.{
  ℕ, ◌+◌, ◌*◌, ◌/◌, ◌≤◌, ◌<◌, ltb, ◌==◌, if◌then◌else◌, Bool, true, false, not, ◌&&◌, ◌||◌, Option,
  none, some, List, [], ◌∷◌, ◌++◌,
}
use knighttour.Prelude.Int.{ℤ, to_ℕ}
use knighttour.Graph.{new}
use knighttour.Counter.{default_precompute_depth}
use knighttour.Counter.Phases.{
  World, Schedules, default_gc_percent_reversal, new_counter, set_gc_percent,
  parallel_count_with_depth,
}
use knighttour.Monitor.{new_monitor, start}
use knighttour.Monitor.Report.{Text, lit, finish_lines}

pub data FlagName : Type 0 where
  size_flag workers_flag depth_flag gc_flag : FlagName

abbrev pub same_flag : FlagName → FlagName → Bool
same_flag size_flag size_flag = true
same_flag workers_flag workers_flag = true
same_flag depth_flag depth_flag = true
same_flag gc_flag gc_flag = true
same_flag _ _ = false

-- The values of the flags after `fs.Parse`, and the flags that `fs.Visit` visits: those that were
-- set on the command line.
pub record Flags : Type 0 where
  pub size : ℤ
  pub workers : ℤ
  pub precompute_depth : ℤ
  pub gc_percent : ℤ
  pub set_flags : List FlagName

pub record AppArgs : Type 0 where
  pub size : ℤ
  pub workers : ℤ
  pub precompute_depth : ℤ
  pub gc_percent : ℤ

pub data ArgError : Type 0 where
  parse_flags bad_size bad_workers bad_gc_percent : ArgError
  bad_depth : ℕ → ArgError

pub data Parsed : Type 0 where
  ok : AppArgs → Parsed
  error : ArgError → Parsed

-- `v < n` and `v > n` for an `int` `v`.
abbrev pub less : ℤ → ℕ → Bool
less (ℤ.pos v) n = ltb v n
less (ℤ.negsuc v) n = true

abbrev pub more : ℤ → ℕ → Bool
more (ℤ.pos v) n = ltb n v
more (ℤ.negsuc v) n = false

abbrev pub is_zero : ℤ → Bool
is_zero (ℤ.pos v) = v == 0
is_zero (ℤ.negsuc v) = false

-- `*size * *size / 2`, where the size has been checked.
abbrev pub max_depth_of : ℤ → ℕ
max_depth_of size = to_ℕ size * to_ℕ size / 2

-- The values of the flags that are not set, on a machine with `cpus` processors.
abbrev pub default_flags : ℕ → Flags
default_flags cpus = record {
  size = ℤ.pos 5;
  workers = ℤ.pos cpus;
  precompute_depth = ℤ.pos 0;
  gc_percent = default_gc_percent_reversal;
  set_flags = [];
}

-- `isFlagSet`: the visit goes over all set flags.
unfoldable pub is_flag_set : List FlagName → FlagName → Bool → Bool
is_flag_set [] name found = found
is_flag_set (f ∷ fs) name found = is_flag_set fs name (if same_flag f name then true else found)

unfoldable pub chosen_depth : Flags → ℤ
unfolding is_flag_set
chosen_depth f =
    if is_zero f.precompute_depth && not (is_flag_set f.set_flags depth_flag false)
    then ℤ.pos (default_precompute_depth (to_ℕ f.size))
    else f.precompute_depth

unfoldable pub check_flags : Flags → Parsed
check_flags f =
    let depth = chosen_depth f in
    let max_depth = max_depth_of f.size in
    if less f.size 5 || more f.size 8
    then error bad_size
    else if less depth 1 || more depth max_depth
    then error (bad_depth max_depth)
    else if less f.workers 1
    then error bad_workers
    else if less f.gc_percent 0
    then error bad_gc_percent
    else ok (record {
      size = f.size;
      workers = f.workers;
      precompute_depth = depth;
      gc_percent = f.gc_percent;
    })

-- `parseArgs`, on what `fs.Parse` leaves: none for its error.
unfoldable pub parse_args : Option Flags → Parsed
parse_args none = error parse_flags
parse_args (some f) = check_flags f

-- `run`, for arguments that `parse_args` has accepted.
unfoldable pub run : Schedules → AppArgs → World → ℕ × World
run sched a w =
    let c = set_gc_percent a.gc_percent (new_counter (new (to_ℕ a.size))) in
    parallel_count_with_depth c sched (to_ℕ a.workers) (to_ℕ a.precompute_depth) w

-- How `main` ends: by `log.Fatal`, or with what it prints at the end.
pub data Exit : Type 0 where
  fatal : ArgError → Exit
  reported : List Text → Exit

-- `main`: the monitor starts, `run` fills it, a remark says whether the context was cancelled, and the
-- deferred `Finish` prints. The lines of the monitor's goroutine in between are those of `loop`.
unfoldable pub main : Schedules → ℕ → ℕ → Bool → ℤ → Option Flags → Exit
unfolding run
main sched begin end cancelled gc flags = elim (parse_args flags) [
  | error e ↦ fatal e
  | ok a ↦
      let (_, w) = run sched a (record { gc = gc; monitor = start begin new_monitor }) in
      let remark = lit "Interrupted: showing partial results" ∷ [] in
      reported ((if cancelled then remark ∷ [] else []) ++ finish_lines end w.monitor)
]
