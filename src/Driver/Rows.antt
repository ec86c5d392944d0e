-- ===== src/Driver/Rows.antt =====
-- The rows of a benchmark: one for each thread count and trial, with the metrics of the records
-- behind the warm-up.
use ispass2026_concurrent_qu.Common.{
  ℕ, zero, suc, ◌+◌, ◌*◌, ◌<◌, ◌≡◌, refl, ap, ◌∙◌, List, [], ◌∷◌, some, arith, length, drop, min,
  ap₂, length-append, get_elem?-append_left, get_elem?-append_right, get_elem?,
}
use native.Mathlib.Nat.{zero-min, min-zero, suc-min-suc}
use ispass2026_concurrent_qu.Fairness.Log.{LogRecord}
use ispass2026_concurrent_qu.Fairness.Metrics.{Double, enqueue_fairness, dequeue_fairness}
use ispass2026_concurrent_qu.Driver.{
  Row, warmed_up, measured, trial_row, trials_from, threads_from, run_benchmark,
}

drop-min : (n : ℕ) (l : List LogRecord) → drop (min n (length l)) l ≡ drop n l
drop-min zero l = rw (zero-min (length l))
drop-min (suc n) [] = rw (min-zero (suc n))
drop-min (suc n) (r ∷ l) = rw (suc-min-suc n (length l)) (drop-min n l)

module _ (double : Double) where
  -- The row that a trial should have: the metrics of all records behind the first 200 a thread.
  abbrev pub expected_row : ℕ → ℕ → List LogRecord → Row double
  expected_row num_threads trial records = record {
    threads = num_threads;
    trial = trial;
    enq = enqueue_fairness double (drop (200 * num_threads) records);
    deq = dequeue_fairness double (drop (200 * num_threads) records);
  }

  measured_lem :
      (n t : ℕ) (l : List LogRecord)
      → measured double n t l ≡ record {
        threads = n;
        trial = t;
        enq = enqueue_fairness double l;
        deq = dequeue_fairness double l;
      }
  unfolding measured enqueue_fairness dequeue_fairness
  measured_lem n t [] = refl
  measured_lem n t (r ∷ l) = refl

  trial_row_lem :
      (n t : ℕ) (records : List LogRecord) → trial_row double n t records ≡ expected_row n t records
  unfolding trial_row warmed_up
  trial_row_lem n t records =
      measured_lem n t (warmed_up double n records)
      ∙ ap
          (λ l. record {
            threads = n;
            trial = t;
            enq = enqueue_fairness double l;
            deq = dequeue_fairness double l;
          })
          (drop-min (200 * n) records)

  module _ (run : ℕ → ℕ → List LogRecord) where
    abbrev row : ℕ → ℕ → Row double
    row n t = expected_row n t (run n t)

    length-trials : (n t left : ℕ) → length (trials_from double run n t left) ≡ left
    unfolding trials_from
    length-trials n t zero = refl
    length-trials n t (suc left) = ap suc (length-trials n (t + 1) left)

    get-trials :
        (n t left i : ℕ)
        → i < left
        → get_elem? (trials_from double run n t left) i ≡ some (row n (t + i))
    unfolding trials_from
    get-trials n t zero i h = absurd (omega arith)
    get-trials n t (suc left) zero h =
        ap some (trial_row_lem n t (run n t)) ∙ ap (λ k. some (row n k)) (plus_zero t)
      where
        plus_zero : (t : ℕ) → t ≡ t + 0
        plus_zero t = omega arith
    get-trials n t (suc left) (suc i) h =
        get-trials n (t + 1) left i (omega arith) ∙ ap (λ k. some (row n k)) (move t i)
      where
        move : (t i : ℕ) → t + 1 + i ≡ t + suc i
        move t i = omega arith

    length-threads :
        (trials n left : ℕ) → length (threads_from double run trials n left) ≡ left * trials
    unfolding threads_from
    length-threads trials n zero = omega arith
    length-threads trials n (suc left) = omega (
      arith,
      length-append (trials_from double run n 0 trials)
          (threads_from double run trials (n + 1) left),
      length-trials n 0 trials,
      length-threads trials (n + 1) left,
    )

    get-threads :
        (trials n left i t : ℕ)
        → i < left
        → t < trials
        → get_elem? (threads_from double run trials n left) (i * trials + t) ≡ some (row (n + i) t)
    unfolding threads_from
    get-threads trials n zero i t hi ht = absurd (omega arith)
    get-threads trials n (suc left) zero t hi ht =
        get_elem?-append_left (trials_from double run n 0 trials) _ (zero * trials + t)
          (omega (arith, length-trials n 0 trials))
        ∙ get-trials n 0 trials (zero * trials + t) (omega arith)
        ∙ ap₂ (λ a b. some (row a b)) (plus_zero n) (plain trials t)
      where
        plus_zero : (n : ℕ) → n ≡ n + zero
        plus_zero n = omega arith

        plain : (trials t : ℕ) → 0 + (zero * trials + t) ≡ t
        plain trials t = omega arith
    get-threads trials n (suc left) (suc i) t hi ht =
        get_elem?-append_right (trials_from double run n 0 trials)
          (threads_from double run trials (n + 1) left) (suc i * trials + t) (i * trials + t)
          (omega (arith, length-trials n 0 trials))
        ∙ get-threads trials (n + 1) left i t (omega arith) ht
        ∙ ap (λ a. some (row a t)) (move n i)
      where
        move : (n i : ℕ) → n + 1 + i ≡ n + suc i
        move n i = omega arith

    -- `run_benchmark` writes one row for each thread count from 1 to the maximum and each trial, in
    -- this order; the row of a trial holds the enqueue and the dequeue metrics of the records that
    -- it committed, without the first 200 for each thread.
    pub run_benchmark_rows :
        (trials max_threads : ℕ)
        → (length (run_benchmark double run trials max_threads) ≡ max_threads * trials)
          × ((i t : ℕ)
              → i < max_threads
              → t < trials
              → get_elem? (run_benchmark double run trials max_threads) (i * trials + t)
                ≡ some (expected_row (1 + i) t (run (1 + i) t)))
    unfolding run_benchmark
    run_benchmark_rows trials max_threads = (
      length-threads trials 1 max_threads,
      λ i t hi ht. get-threads trials 1 max_threads i t hi ht,
    )
