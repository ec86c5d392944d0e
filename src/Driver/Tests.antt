-- ===== src/Driver/Tests.antt =====
-- Which queue names run, and the rows of a small benchmark.
use ispass2026_concurrent_qu.Common.{
  ◌==◌, if◌then◌else◌, arith, ◌≤◌, ◌+◌, inl, inr, ℕ, ◌+◌, ◌*◌, ◌^◌, ◌<◌, ◌≡◌, refl, List, none,
  some, length, get_elem?, replicate, ltb, ◌/◌,
}
use native.Mathlib.Nat.{div-add-mod, mod-lt}
use ispass2026_concurrent_qu.Fairness.Log.{LogRecord}
use ispass2026_concurrent_qu.Fairness.Metrics.{Double}
use ispass2026_concurrent_qu.Args.{codes, all_queues}
use ispass2026_concurrent_qu.Driver.{
  workload_of, worker_thread, local_accesses, queue_kind, main_runs, run_benchmark,
}
use ispass2026_concurrent_qu.Workload.{Machine, Rounds}
use ispass2026_concurrent_qu.Workload.Counts.{enqueues, dequeues}
use ispass2026_concurrent_qu.Workload.Arrivals.{arrivals}
use ispass2026_concurrent_qu.Driver.Threads.{
  setup_limit, worker_thread-arrivals, local_accesses_lem,
}
use ispass2026_concurrent_qu.Driver.Rows.{expected_row, run_benchmark_rows}

-- The usage text names `lcrq`, which `main` does not know; nor does it know `all` in a list.
unknown_names : (queue_kind (codes "lcrq") ≡ none) × (queue_kind (codes "all") ≡ none)
unfolding queue_kind
unknown_names = (refl, refl)

default_runs : length (main_runs all_queues) ≡ 12
unfolding main_runs
default_runs = refl

-- Whole numbers in place of doubles.
abbrev whole : Double
whole = record {
  F = ℕ;
  of_ℕ = λ n. n;
  div = λ a b. a / b;
  mul = λ a b. a * b;
  is_pos = λ n. ltb 0 n;
  is_pos-of_ℕ = λ n. refl;
}

-- Each thread leaves 201 records.
abbrev sample_run : ℕ → ℕ → List LogRecord
sample_run num_threads trial = replicate (201 * num_threads) (trial, 2, 3, 4)

run_benchmark_rows_example :
    (length (run_benchmark whole sample_run 2 2) ≡ 2 * 2)
    × ((i t : ℕ)
        → i < 2
        → t < 2
        → get_elem? (run_benchmark whole sample_run 2 2) (i * 2 + t)
          ≡ some (expected_row whole (1 + i) t (sample_run (1 + i) t)))
run_benchmark_rows_example = run_benchmark_rows whole sample_run 2 2

-- Rounding in whole numbers, and nothing is shuffled.
scale-Rounds : (p n : ℕ) → p ≤ 100 → n < 2 ^ 31 → Rounds p n ((p * n + 50) / 100)
scale-Rounds p n le lt =
    omega (arith, div-add-mod (p * n + 50) 100, mod-lt (p * n + 50) {m = 100} (omega arith))

abbrev machine : Machine
machine = record {
  scaled = λ p n. (p * n + 50) / 100;
  scaled-Rounds = scale-Rounds;
  shuffle = λ seed l. l;
  shuffle-ops_with = λ seed op l. refl;
}

worker_thread-arrivals_example : arrivals (worker_thread machine (codes "dequeueheavy") 1 10 4) ≡ 4
worker_thread-arrivals_example = worker_thread-arrivals machine (codes "dequeueheavy") 1 10 4

local_accesses_example :
    enqueues (worker_thread machine (codes "dequeueheavy") 0 10 4)
      + dequeues (worker_thread machine (codes "dequeueheavy") 0 10 4)
    ≤ local_accesses (codes "dequeueheavy") 10
      + (if 0 == 0 then setup_limit (workload_of (codes "dequeueheavy")) 10 4 else 0)
local_accesses_example =
    local_accesses_lem machine (codes "dequeueheavy") 0 10 4 (inr (inr (inl refl))) (omega arith)
      (omega arith)
