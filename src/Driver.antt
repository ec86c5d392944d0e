-- ===== src/Driver.antt =====
-- src/BenchmarkDriver.cpp: which benchmarks run, and the rows that one of them writes.
pub mod Rows
pub mod Threads
mod Tests
use ispass2026_concurrent_qu.Common.{
  ◌&&◌, ◌==◌, ℕ, zero, suc, ◌+◌, ◌*◌, ◌≡◌, List, [], ◌∷◌, ◌++◌, Bool, true, false, ltb,
  if◌then◌else◌, Option, none, some, length, drop, min,
}
use ispass2026_concurrent_qu.Workload.{
  Workload, enqueue_heavy, dequeue_heavy, enqueue_dequeue_pair, Call, arrive_and_wait, Machine,
  prefill_from, worker,
}
use ispass2026_concurrent_qu.Fairness.Log.{LogRecord}
use ispass2026_concurrent_qu.Fairness.Metrics.{
  Double, OvertakeMetrics, no_overtakes, enqueue_fairness, dequeue_fairness,
}
use ispass2026_concurrent_qu.Args.{Text, codes, text_eq}

-- The queue types of `main`.
pub data QueueKind : Type 0 where
  ms_queue fc_queue lprq faa_array_queue : QueueKind

-- The if-chain of `main`; `none` for "Unknown queue type".
unfoldable pub queue_kind : Text → Option QueueKind
unfolding text_eq
queue_kind qname =
    if text_eq qname (codes "ms")
    then some ms_queue
    else if text_eq qname (codes "fc")
    then some fc_queue
    else if text_eq qname (codes "lprq")
    then some lprq
    else if text_eq qname (codes "faa")
    then some faa_array_queue
    else none

abbrev pub workloads : List Text
workloads = codes "enqueueheavy" ∷ codes "pair" ∷ codes "dequeueheavy" ∷ []

-- The benchmarks of one queue name, in order: the kind and the workload.
runs_of : Option QueueKind → List Text → List (QueueKind × Text)
runs_of none ws = []
runs_of (some k) [] = []
runs_of (some k) (w ∷ ws) = (k, w) ∷ runs_of (some k) ws

unfoldable pub main_runs : List Text → List (QueueKind × Text)
unfolding runs_of queue_kind
main_runs [] = []
main_runs (qname ∷ qnames) = runs_of (queue_kind qname) workloads ++ main_runs qnames

-- `workload_name` as a `Workload`; an unknown name is reported and runs as the pair workload.
unfoldable pub workload_of : Text → Workload
unfolding text_eq
workload_of workload_name =
    if text_eq workload_name (codes "enqueueheavy")
    then enqueue_heavy
    else if text_eq workload_name (codes "dequeueheavy")
    then dequeue_heavy
    else if text_eq workload_name (codes "pair")
    then enqueue_dequeue_pair
    else enqueue_dequeue_pair

-- The calls of `worker_thread`, those of `worker` among them.
unfoldable pub worker_thread : Machine → Text → ℕ → ℕ → ℕ → List Call
unfolding text_eq workload_of prefill_from worker
worker_thread machine workload_name tid num_ops num_threads =
    (if text_eq workload_name (codes "pair") && tid == 0 then prefill_from 0 5000 else [])
    ++ (arrive_and_wait ∷ worker machine (workload_of workload_name) tid num_ops num_threads)

unfoldable pub local_accesses : Text → ℕ → ℕ
unfolding text_eq
local_accesses workload_name num_ops =
    if text_eq workload_name (codes "pair") then num_ops * 2 else num_ops

module _ (double : Double) where
  pub record Row : Type 0 where
    pub threads : ℕ
    pub trial : ℕ
    pub enq : OvertakeMetrics double
    pub deq : OvertakeMetrics double

  -- The first records of a trial are left out: `std::min(200 * num_threads, records_size)` of them.
  unfoldable pub warmed_up : ℕ → List LogRecord → List LogRecord
  warmed_up num_threads records = drop (min (200 * num_threads) (length records)) records

  -- The variables `enq_…` and `deq_…` of a trial, which start at 0.
  measured : ℕ → ℕ → List LogRecord → Row
  measured num_threads trial [] = record {
    threads = num_threads;
    trial = trial;
    enq = no_overtakes double;
    deq = no_overtakes double;
  }
  measured num_threads trial (r ∷ records) = record {
    threads = num_threads;
    trial = trial;
    enq = enqueue_fairness double (r ∷ records);
    deq = dequeue_fairness double (r ∷ records);
  }

  unfoldable pub trial_row : ℕ → ℕ → List LogRecord → Row
  unfolding measured warmed_up
  trial_row num_threads trial records = measured num_threads trial (warmed_up num_threads records)

  -- The loop over the trials from `trial` on, and the loop over the thread counts. `run` gives the
  -- records that the workers of a trial commit.
  trials_from : (ℕ → ℕ → List LogRecord) → ℕ → ℕ → ℕ → List Row
  trials_from run num_threads trial zero = []
  trials_from run num_threads trial (suc left) =
      trial_row num_threads trial (run num_threads trial)
      ∷ trials_from run num_threads (trial + 1) left

  threads_from : (ℕ → ℕ → List LogRecord) → ℕ → ℕ → ℕ → List Row
  threads_from run trials num_threads zero = []
  threads_from run trials num_threads (suc left) =
      trials_from run num_threads 0 trials ++ threads_from run trials (num_threads + 1) left

  -- The rows of the CSV file of `run_benchmark`, for counts that are not negative.
  unfoldable pub run_benchmark : (ℕ → ℕ → List LogRecord) → ℕ → ℕ → List Row
  unfolding trials_from threads_from trial_row
  run_benchmark run trials max_threads = threads_from run trials 1 max_threads
