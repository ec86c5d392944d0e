-- ===== src/Workload/Tests.antt =====
-- Workers of a small machine, and the theorems there.
use ispass2026_concurrent_qu.Common.{
  ℕ, ◌+◌, ◌*◌, ◌/◌, ◌^◌, ◌≤◌, ◌<◌, ◌≡◌, ◌≢◌, refl, [], ◌∷◌, arith,
}
use native.Mathlib.Nat.{div-add-mod, mod-lt}
use ispass2026_concurrent_qu.Workload.{
  enqueue_heavy, dequeue_heavy, enqueue, dequeue, arrive_and_wait, Machine, Rounds, ratio, worker,
}
use ispass2026_concurrent_qu.Workload.Counts.{
  enqueues, dequeues, Expected, worker_counts, all_enqueues, all_dequeues, prefill_covers,
}

-- Rounding in whole numbers.
scale : ℕ → ℕ → ℕ
scale p n = (p * n + 50) / 100

scale-Rounds : (p n : ℕ) → p ≤ 100 → n < 2 ^ 31 → Rounds p n (scale p n)
unfolding scale
scale-Rounds p n le lt =
    omega (arith, div-add-mod (p * n + 50) 100, mod-lt (p * n + 50) {m = 100} (omega arith))

-- No shuffling.
abbrev machine : Machine
machine = record {
  scaled = scale;
  scaled-Rounds = scale-Rounds;
  shuffle = λ seed l. l;
  shuffle-ops_with = λ seed op l. refl;
}

second_worker :
    worker machine dequeue_heavy 1 3 2
    ≡ arrive_and_wait ∷ arrive_and_wait ∷ enqueue 1 ∷ dequeue ∷ dequeue ∷ arrive_and_wait ∷ []
unfolding worker scale ratio
second_worker = refl

worker_counts_example :
    Expected machine dequeue_heavy 0 100 4
      (enqueues (worker machine dequeue_heavy 0 100 4))
      (dequeues (worker machine dequeue_heavy 0 100 4))
worker_counts_example = worker_counts machine dequeue_heavy 0 100 4 (omega arith)

heavy_ne : dequeue_heavy ≢ enqueue_heavy
heavy_ne h = cc

prefill_covers_example :
    all_dequeues machine dequeue_heavy 100 4 4 ≤ all_enqueues machine dequeue_heavy 100 4 4
prefill_covers_example = prefill_covers machine dequeue_heavy 100 3 heavy_ne (omega arith)
