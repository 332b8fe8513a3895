-- ===== src/Lib.antt =====
-- XiTAO: a runtime that runs graphs of tasks, each on a place of several threads (a leading thread
-- and a width) which the runtime may choose by the times that it has measured.
--
-- Parts and how they interact. The layout tables say which places the threads form; they come from
-- a file or by default from the number of threads. The performance model keeps a table of times by
-- leader and width, and picks from the layout the place at which a ready task runs. Loop tasks are
-- the tasks that run one loop on the threads of their place. A task that commits counts down its
-- successors and puts those that become ready into a ready queue, or, for a critical task, into the
-- assembly queues of the place that the performance model picks. The scheduler sets up the layout,
-- takes in tasks, and runs on each thread a loop that executes them, steals them from other threads,
-- and takes off what is done. Beside the runtime, the tools of loi/ record the memory accesses of
-- kernels as traces and merge, cut and compare them.
--
--   Prelude   shared types: `int` as ℤ, arrays as functions, lists with a membership by recursion,
--             results with an error.
--   Layout    src/xitao_ptt.cpp: read_layout_table, prepare_default_layout,
--             clear_layout_partitions; the record Layout is the tables ptt_layout and
--             inclusive_partitions, static_resource_mapper and xitao_nthreads.
--             Layout/Consistent, Cover, Widths, Leaders, Default and File are about what the tables hold.
--   ParFor    include/tao.h: ParForTask and xitao_looper; include/xitao_api.h:
--             xitao_vec_multiparallel. ParFor/Made, Span, Blocks, Static, Dynamic and Multi are
--             about which iterations run.
--   Perf      include/perf_model.h and the tables of src/xitao_ptt.cpp and src/poly_task.cpp.
--             Perf/Table, Search and Mold are about what is stored and chosen.
--   Tables    src/xitao_ptt.cpp and src/xitao_ptt_key.cpp: the map from the class and workload of a
--             task to its table of times. Tables/Sharing and Reset are about who shares one.
--   Tasks     src/poly_task.cpp, include/queue_manager.h and step 4 of worker_loop in
--             src/tao_sched.cpp: the graph of tasks, their reference counts, the queues that
--             woken tasks enter, and the accounting of pending tasks. Runtime is the state;
--             Tasks/Runs has the steps of a run and Tasks/Safety the properties of every run; Counts,
--             Rounds, Effects, Counted, Build, Commit and Flush are the invariant of the counts,
--             Offers, Tracked and Takes that of the queues, and Upheld keeps both along a run;
--             Queues is about the assembly queues, Pops about the ready queues.
--   LfQueue   include/lfq-fifo.h: the linked queue on a heap of nodes. LfQueue/Chain, Operations
--             and Fifo relate it to a list.
--   Barriers  src/barriers.cpp: the spinning barrier, one atomic access per turn. Barriers/Sums
--             has the invariant, Modes and Turns its steps, Meeting the properties of every order of turns.
--   Trace     loi/krd.h, loi/krd_common.c, loi/krd_trace.c: the traces of memory accesses that the
--             kernels record and the tools that work on them. The record Krd is threadtraces and
--             krd_trace_magic; Trace/Files has the reading and writing of traces, Trace/Tools the
--             merge and the coherence tool, Trace/Interleave the interleaving and the dump tool,
--             Trace/Partition the tool that cuts a trace into partitions.
--             Trace/Adding, Transfer, Saved, Schedule, Order, Taken, Output, Merge, Coherence,
--             Invalidations, Conflicts, Positions, Rows and Cuts are about what they record.
--   Reuse     loi/krd.c: the entries of the stack of reuse distances and the helpers that compare
--             blocks of bytes. Reuse/Overlap is about the bytes that blocks have in common.
--   Config    src/config.cpp: the options and how they are found among the arguments of the program.
--             Config/Words and Accepted are about what is found and accepted.
--   Sched     src/tao_sched.cpp: the record Scheduler is the globals of src/xitao_workspace.cpp;
--             Sched/Worker has worker_loop, one round at a time, over the record Worker. Sched/Mask,
--             Places, Push, Single, Assembly and Stealing are about what they set up and do.
--   Tests     runs at concrete inputs.
--
-- `int` is ℤ without overflow, but for the counters of the spinning barrier, which wrap around;
-- `float` is an abstract type with its operations and the laws that its order has.
-- The values of `rand()`, `std::stoi` and the lines of the layout file are arguments. Loops take
-- rounds: `end - start` for a loop from start to end, the number of threads for the loops over
-- divisors and leaders, which step by at least one, so the rounds do not run out before the loop.
-- The branches of `execute` on a task width of 0 divide by zero, and the model says so.
-- The order of the atomic increments of a dynamic loop task is an arbitrary list of threads.
-- What is printed, the locks and the debug output are left out.
-- The operating system is an argument: the answers of `read` and `write` for a trace, of `mmap` and
-- `calloc`, of `getopt_long`, `rand_r` and `sched_getcpu`, and the environment. The rounds of the
-- loops that read and write are more than the bytes of the trace, since each call moves one byte at
-- least; those of the search for a queue are the number of threads, which it goes through in turn.
-- The arguments of the trace tools are numbers, and no more than 1024 traces are given to a tool. A
-- header of four bytes is written and read by one call. The threads of the scheduler take their
-- rounds one at a time.
-- Not modelled: the walk over the stack of reuse distances in loi/krd.c and the statistics of
-- loi/loi.c, which are planned; the counters of src/runtime_stats.cpp and the barrier with a
-- condition variable in src/barriers.cpp, which are planned; the clocks and the affinity of threads;
-- the programs under benchmarks/, which use the runtime.
pub mod Prelude
pub mod Barriers
pub mod Config
pub mod Layout
pub mod LfQueue
pub mod ParFor
pub mod Perf
pub mod Reuse
pub mod Sched
pub mod Tables
pub mod Tasks
pub mod Trace
pub mod Tests
