-- ===== src/Lib.antt =====
-- The knight's tour counter: a program in Go that counts the open knight's tours of a square
-- board of side 5 to 8, in parallel.
--
-- The program's parts, and the files that model them:
--
-- * state/state.go, a set of cells as a 64-bit mask: State. A `uint64` is a native number below
--   2 ^ 64 (`IsWord`), shifts and complements are written out in Words, and Words/Digits and
--   Words/Fields read such a number digit by digit. State/Bits says what each operation does to
--   each cell, State/Cells what the iterator `AllVisited` yields, State/Count what `CountBits`
--   counts.
-- * graph/graph.go, the board's neighbour tables: Graph. Graph/Moves compares the lists with the
--   knight's move, Graph/Masks the masks with the lists, and states the interface `IsBoard`,
--   which is all that the pruner and the searcher ask of a board.
-- * pruner/pruner.go, the checks that cut a branch: Pruner (`ShouldPruneAfterVisit` with the
--   flood fill) and Pruner/Chain (`ShouldPruneState` with its union-find). Pruner/Path says what
--   a path through the rest of the board is, Pruner/Frontier and Pruner/Fill follow the fill on
--   a board that has such a path, Pruner/Sound puts the checks together, Pruner/Ends is about
--   the end of the fill.
-- * types/types.go, the statistics of a descent: Types and Types/Counts.
-- * symmetry/symmetry.go, the eight symmetries as tables, and the canonical form of a mask with
--   an end cell: Symmetry, with the least image in Symmetry/Frame. Symmetry/Square reads the table
--   as the symmetries of a square, Symmetry/Canonical follows them on states, Symmetry/Compose and
--   Symmetry/Fixing are about the table of compositions and the stabilizer, Symmetry/Stabilizer
--   about the representative of a cell, Symmetry/Class and Symmetry/Orbits about the class of a
--   mask with an end cell, Symmetry/OrbitSize about the size of its orbit (with the sums of
--   Symmetry/Turns and the lists of Symmetry/Distinct). Symmetry/Starts is about the
--   canonical starting cell; the boards of these files have a side of at most 8, since a mask is
--   a word of 64 bits. Symmetry/Members and Symmetry/Groups are about the groups of starting
--   cells.
-- * cache/cache.go, the sharded table from a canonical mask to the weights of its end classes:
--   Cache, Cache/Staging and the walk Cache/Walk. Cache/Pack is about the stored words,
--   Cache/Slots about a block of pairs, Cache/Capacity about its size, Cache/Blocks about who
--   owns a word of the slab, Cache/Keys about the masks of a map, Cache/Contents views a record as
--   a list of pairs, whose classes Cache/Classes counts, Cache/Shard is about the invariant of a
--   shard. The branches of `add` are in Cache/Inline, Cache/Slab and Cache/Relocate, which
--   Cache/Add joins, and Cache/Table lifts to the whole table and its readers; Cache/Histogram is
--   the abstract view of a sequence of contributions (with Cache/Sums and, for the new table,
--   Cache/Fresh), Cache/Worklist compares it with the walk, Cache/Readers the pairs of
--   a record with what a reader finds, and Cache/Flushed says what a staging
--   writer contributes to a table that it shares.
-- * searcher/searcher.go, the descents: Searcher (counting) and Searcher/Tasks (generation into
--   a sink). Searcher/Paths has lists of paths, Searcher/Branches and Searcher/Descent follow
--   the count, Searcher/Tours says what it is, Searcher/Writes how a generation run depends on
--   its sink, Searcher/Probes what is counted at the stop level, Searcher/Answers what the table
--   answers there.
-- * workerpool/workerpool.go, as step relations over all interleavings: the crew of `Run` in
--   WorkerPool with WorkerPool/Claims, the channel of `Fanout` in WorkerPool/Fanout with
--   WorkerPool/Delivered.
-- * counter/counter.go, the numbers that the pipeline chooses: Counter and Counter/Sizes; the
--   batches of the dispatch: Counter/Dispatch and Counter/Delivery; the counting phase:
--   Counter/Counting and Counter/Totals; the generation phases and the pipelines:
--   Counter/Phases, with the census beside the full run in Counter/Census, the writers of the
--   workers in Counter/Desks, and what the tables hold at the end in Counter/Generation.
-- * monitoring/monitor.go, the counters of the phases: Monitor and Monitor/Sums; what is printed,
--   as pieces of text: Monitor/Report and Monitor/Printed.
-- * main.go, the command line and `run`: Main, with what accepted arguments are in Main/Args and
--   which check decides in Main/Outcome.
--
-- How they interact: `Main.parse_args` admits a size and a depth, from which the board and the
-- task depth are made; the searcher asks the graph for candidates, the pruner which of them to
-- leave out, and the symmetry for the canonical class that it writes to a sink, which is the
-- cache, a staging writer or a sink that discards; it reports to a `Result`, which the monitor
-- folds into a phase. Prelude has what all of them share: Boolean tests, lists, the few signed
-- numbers and the comparison of names.
--
-- Correspondence. A function of the source has its name in lower case with underscores; a method
-- takes its receiver first; a loop is recursion on the list it walks, or on fuel. The bounds: a
-- loop that clears the lowest bit of a mask has fuel 64, one round for each bit; the flood fill
-- has fuel 65, one round for each cell and the last test; a descent has depth 65, since a call
-- visits one cell more than its caller; union-find has 64 steps, the cells of a path. Where the
-- fuel could end a flood fill the model says so with an outcome of its own, `stuck`. A context is
-- an oracle that says of each poll whether the context has ended. A Go map is an association
-- list, which a range takes in an order that is an argument (`Walker`). A lock is held within one
-- operation, so that each operation of the cache is one step. The `int` statistics of a descent
-- are taken without a bound, the counters of the monitor and the weights of the cache wrap at 2 ^
-- 64.
--
-- In the pipelines a worker runs whole tasks, in an order that is given as a list of events, and
-- the consumers count the delivered records in an order that is given as a function; the clock and
-- the garbage collector's percentage are part of the state.
--
-- Not modelled: how numbers and durations are spelled, how the clock runs, the `flag` package,
-- signals, what a percentage does to the garbage collector, the panics of an index out of range (a
-- side above 8, a batch above 16), the measuring scripts and the tests.
pub mod Prelude
pub mod Words
pub mod State
pub mod Graph
pub mod Pruner
pub mod Types
pub mod Symmetry
pub mod Cache
pub mod Searcher
pub mod WorkerPool
pub mod Counter
pub mod Monitor
pub mod Main
mod Tests
