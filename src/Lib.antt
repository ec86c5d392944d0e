-- ===== src/Lib.antt =====
-- Verification of the concurrent queue fairness benchmark.
--
-- The program runs worker threads on concurrent queues, lets every queue log four timestamps for each
-- element (invocation and linearization of its enqueue and of its dequeue), and computes from the logs
-- how often operations are overtaken. The command line (src/args.cpp) chooses the queues; the driver
-- (src/BenchmarkDriver.cpp) runs each queue under three workloads (include/Workloads.hpp) for each
-- thread count and trial; the queues commit the logs of their threads to one list of records; the
-- fairness metrics (src/FairnessLogger.cpp) turn these records into a row of a table.
--
-- The parts, and the files that model them:
--   Common         shared names, Boolean tests, lists, families updated at one index, and the lowest
--                  bit of a word (`x & -x`)
--   Fairness       include/FairnessLogger.hpp and src/FairnessLogger.cpp: Log (records, get_field),
--                  Fenwick (add, sum_prefix), Sort (stable_sort, sort, unique, lower_bound of the
--                  library), Sweep (the loop from the largest first event to the smallest), Metrics
--                  (compute_overtake_metrics, enqueue_fairness, dequeue_fairness). Metrics.Reference is
--                  the specification, which counts over all pairs.
--   Remap          include/CacheRemap.hpp: CacheRemap, IdentityRemap, ConditionalCacheRemap
--   FlatCombining  include/fcqueue.hpp: Slot is what a thread and the combiner do to a slot, System the
--                  interleaving of enqueue, dequeue and scan_combine_apply. System.History has the
--                  sequential specification, Local, Moves and Service the invariant of the slots,
--                  Safety what it gives.
--   MsQueue        include/msqueue.hpp: the steps of enqueue and dequeue, one shared access each (Steps);
--                  Chain to Invariant are the invariant of the linked nodes, Safety, During
--                  and Empty what it gives
--   Segment        QueueSegmentBase of include/LinkedRingQueue.hpp: the tickets of a ring segment and the
--                  bit that closes it; Cells is the constructor of PRQueue in include/LPRQueue.hpp and
--                  the words of its cells
--   FaaArrayQueue  FAAArrayQueue of include/FAAArrayQueue.hpp: the steps of enqueue and dequeue (Steps), the
--                  invariant of nodes, slots and tickets (Inv to Invariant, During), History, Order, Behind
--                  and Empty what it gives
--   PrQueue        PRQueue of include/LPRQueue.hpp, with closeSegment and fixState of
--                  include/LinkedRingQueue.hpp: the steps of enqueue and dequeue (Updates, Steps), the
--                  invariant of the cells and of what threads have read (Inv to Invariant), History and
--                  Closed what it gives. A ring has one cell at least.
--   CrQueue        CRQueue of include/LCRQueue.hpp, whose cells are exchanged as a whole: Updates and
--                  Steps, the invariant of the cells (Inv), History, and a run of one thread (Solo)
--   LinkedRing     LinkedRingQueue of include/LinkedRingQueue.hpp over any type of segment: Steps, the
--                  invariant of the list (Inv), Order what it gives. Nothing is assumed of a segment: its
--                  enqueue and dequeue may have any result. PrQueue and CrQueue are the models of the
--                  segments themselves.
--   Adapter        PRQueueAdapter of include/LPRQueue.hpp, CRQueueAdapter of include/LCRQueue.hpp,
--                  FAAArrayQueueAdapter of include/FAAArrayQueue.hpp, and commit_thread_logs of all
--   Workload       include/Workloads.hpp: worker, make_ops_with_ratio
--   Args           src/args.cpp and include/args.hpp: split_csv, parse_args
--   Driver         src/BenchmarkDriver.cpp: main, run_benchmark and the worker threads of a trial
--
-- Threads are numbered and their number is not bounded. A concurrent queue is a step relation on a
-- record of its shared state and of each thread's place in the code; every order of steps is a run.
-- Steps are sequentially consistent. A clock time is any number that is not below the time before.
--
-- Numbers and bounds: timestamps are 64-bit words and are modelled as natural numbers; the sum of the
-- depths wraps at 2 ^ 64 as in the code, and the index arithmetic of the Fenwick tree is on 32-bit
-- words. The counters of the Michael-Scott pointers wrap at 2 ^ 32. enqidx and deqidx of the FAA
-- array queue and the counts of a worker are of type int in the code and natural numbers here, which
-- are to stay below 2 ^ 31; the indices of PrQueue and CrQueue are to stay below 2 ^ 63, where the
-- mark of the word begins; Segment has the words with their wrap-around. The loops of the Fenwick tree run
-- on fuel: an index grows or falls in each round, so that the size and the index are enough; the sweep
-- takes a pair at least in each round, so that the number of pairs is enough.
--
-- Parameters: the machine's doubles (Double), the clock, the memory of the nodes and the
-- wrapped queue of an adapter (Underlying, which relies on the clock alone), rounding and shuffling (Machine), std::stoi (Ints), the records of a trial (run).
--
-- Not modelled: files, the console, timing, PAPI and core affinity; weak memory orders; the reuse of
-- an address by the allocator and the undefined behaviour of reading a freed node; hazard pointers,
-- which are taken to keep what is still read; the check under CAUTIOUS_DEQUEUE and the code under
-- DISABLE_HP, which the build does not define; include/lcrqueue_old.hpp, which is not built;
-- include/SCQueue.hpp and include/HazardPointers.hpp, which are copies of other projects; the Python
-- scripts.
pub mod Common
pub mod Fairness
pub mod Remap
pub mod FlatCombining
pub mod MsQueue
pub mod Segment
pub mod FaaArrayQueue
pub mod PrQueue
pub mod CrQueue
pub mod LinkedRing
pub mod Adapter
pub mod Workload
pub mod Args
pub mod Driver
