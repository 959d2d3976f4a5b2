-- ===== src/Lib.antt =====
-- Verification of unico, a library of stackful coroutines.
--
-- The parts of the program, from the bottom up, and the files that model them:
--   stack/src/lib.rs: stacks with their destructors, and the blanket `StackAllocator`.
--     Stack (the code), Stack/Sizes (`layouts`), Stack/Ownership (`allocate`), Stack/Held and
--     Stack/Pool (sequences).
--     The allocator is a parameter `find_block`; the memory is the live blocks and the closures that
--     `write_dropper` stored.
--   context/src/lib.rs and context/src/page.rs: switching between contexts, and where a context is
--     placed. Context (`layout_union`, `stack_top`), Context/Top, and Context/Machine: the contract of
--     the `Resume` trait as a machine of suspended stacks with a step function. Where `new_on`
--     puts a context, if it does, is a parameter `context_at`.
--   ful/src/sym/layout.rs: Ful/Extend, Ful/Extend/Bounds.
--   ful/src/sym/raw.rs and ful/src/sym/raw/panicking.rs: Ful/Raw (the record at the top of a stack,
--     and its place), Ful/Raw/Fields, Ful/Raw/Placement, Ful/Coroutine (creation, entry, exit, panics),
--     Ful/Coroutine/Creation, Ful/Coroutine/Failure.
--   ful/src/sym.rs: Ful/Sym, the operations of a handle `Co`; Ful/Sym/Script (coroutines that take turns,
--     as the tests there do), Turn, Lives and Created.
--   ful/src/asym.rs: Ful/Asym (`Gn`, `YieldHandle`), Ful/Asym/Spec (generators without stacks), and
--     Ful/Asym/Memory, Cycle, Ending, Represents, Refine, Drive, Create, Freed, Whole,
--     Dropped and Twice.
--   context/src/ucx.rs: Context/Ucx (the module over a machine of the C library), Context/Ucx/Runs,
--     Simulation, Calls and Creation (step by step), Refine (whole runs).
--   context/src/boost.rs: Context/Boost.
--   context/build.rs: Context/Build, Context/Build/Files (the files of context/src/asm).
--   ful/src/builder.rs: Ful/Builder, Ful/Builder/Global.
--   async/src/sym.rs and async/src/sym/cx.rs: Sched (tasks, the scheduler as an interface, `wait`,
--     `wake`), Sched/Wait, Sched/Yield; Sched/Lock (`wait` and `wake` on several threads, as
--     steps), Sched/Lock/Exclusion and
--     Progress; Sched/SymWait. Sched/Fifo (the scheduler of the tests), and in it Ring, Slice, Pass, Turns,
--     Plan, Freed, Whole, Spawned and Tasks: programs of tasks that yield. Loops that spin have a count of
--     rounds.
--   async/src/asym.rs: Future (`Asym`, `wait_with` with a count of polls), Future/Polls,
--     Future/Polls/Once; Future/Local (`sync`, `wait`, `CX` and `block_on` on one thread),
--     Future/Local/Lent, Blocking and Nested; Future/Awaited (`sync_with` and `into_future`). The
--     loops of `wait_with` and `block_on` have a count of polls; the theorems give one that is enough.
--   demo/demo-fatfs/src/backend: Disk/Pages (`PageRange`), Disk/Io (results and the `Backend`
--     interface), Disk/Cached, Disk/Count, Disk/Cover (the pages of a range), Disk/Below
--     and Disk/View (the backend below as documented, and the bytes that the cached one stands for),
--     Disk/Rounds and Disk/Reads, Disk/Stores and Disk/Written, Disk/Writes, Disk/Flushes,
--     Disk/Invariant, Disk/Upheld, Disk/WriteUpheld, Disk/FlushUpheld and Disk/Sessions,
--     Disk/Transparent; Disk/Files (opening and creating images, over a file system).
--     A buffer is a length with a function; a loop over pages has as many rounds as bytes.
--   Layout and Layout/Bounds are `core::alloc::Layout`, as documented; Common has the helpers.
--   Ful/Effect is the language in which the code of one stack is written: a computation takes what
--     follows it in normal return and in a panic. A panic that leaves an entry function aborts.
-- `usize` has 64 bits. The machine's `run` takes a number of rounds, and `Reaches` says that some
-- number of rounds leads from one state to another, so a theorem with `Reaches` in its result shows
-- that the code gets there. The record's closure and hook go to the entry function as values. The
-- unwinding features are on.
-- The closure that `allocate` stores has a type whose size and alignment are a parameter; a read or a write
-- at a place that is not aligned for it is undefined. `needs_drop` is whether the type that a
-- generator returns has a destructor: the wrapper drops its local of that type, out of which
-- `Gn::resume` has moved the value. It is `false` in theorems on generators that complete, but for
-- Ful/Asym/Twice, where it is `true`.
-- The counts of the counting backend overflow with a panic, as sums of `u64` do elsewhere.
-- A future that is waited on has polls that change it alone, where a theorem says so.
-- Not modelled: the assembly of the contexts, timing, input and output; threads, but for the steps of
-- Sched/Lock; the conversions of a waker reference; and the reads and writes of the file backends.
pub mod Common
pub mod Layout
pub mod Stack
pub mod Context
pub mod Ful
pub mod Sched
pub mod Future
pub mod Disk
pub mod Examples
