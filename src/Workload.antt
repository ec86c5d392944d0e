-- ===== src/Workload.antt =====
-- include/Workloads.hpp: the calls that a worker thread makes of a queue.
pub mod Counts
pub mod Arrivals
mod Tests
use ispass2026_concurrent_qu.Common.{
  ℕ, zero, suc, ◌+◌, ◌-◌, ◌*◌, ◌/◌, ◌^◌, ◌≡◌, ◌≤◌, ◌<◌, List, [], ◌∷◌, ◌++◌, map, Bool, true, false,
  ◌&&◌, ltb, ◌==◌, if◌then◌else◌, replicate,
}

pub data Workload : Type 0 where
  enqueue_heavy dequeue_heavy enqueue_dequeue_pair : Workload

-- What a worker does to the queue and to the barrier, in order.
pub data Call : Type 0 where
  enqueue : ℕ → Call
  dequeue : Call
  arrive_and_wait : Call

-- `e` is `p` hundredths of `n`, rounded.
abbrev pub Rounds : ℕ → ℕ → ℕ → Type 0
Rounds p n e = (100 * e ≤ p * n + 50) × (p * n ≤ 100 * e + 50)

-- What the code takes of the machine and of the library. `scaled p n` is `int(std::round(n * ratio))`
-- for the double `ratio` nearest to `p` hundredths, and an `int` `n`: such a product is off by less
-- than a millionth. `shuffle` is `std::shuffle` with an engine seeded by the number, and keeps how
-- often each value occurs.
abbrev pub ops_with : ℕ → List ℕ → ℕ
ops_with op [] = 0
ops_with op (x ∷ xs) = (if x == op then 1 else 0) + ops_with op xs

pub record Machine : Type 0 where
  pub scaled : ℕ → ℕ → ℕ
  pub scaled-Rounds : (p n : ℕ) → p ≤ 100 → n < 2 ^ 31 → Rounds p n (scaled p n)
  pub shuffle : ℕ → List ℕ → List ℕ
  pub shuffle-ops_with : (seed op : ℕ) (l : List ℕ) → ops_with op (shuffle seed l) ≡ ops_with op l

-- `i`, `i + 1`, … : the values of a prefill of `n`.
unfoldable pub prefill_from : ℕ → ℕ → List Call
prefill_from i zero = []
prefill_from i (suc n) = enqueue i ∷ prefill_from (i + 1) n

-- The loop of the pair workload.
pairs_from : ℕ → ℕ → List Call
pairs_from i zero = []
pairs_from i (suc n) = enqueue i ∷ dequeue ∷ pairs_from (i + 1) n

-- The loop over `ops`, where 0 stands for an enqueue.
perform : List ℕ → List Call
perform [] = []
perform (op ∷ ops) = (if op == 0 then enqueue 1 else dequeue) ∷ perform ops

unfoldable pub is_pair : Workload → Bool
is_pair enqueue_dequeue_pair = true
is_pair _ = false

-- The switch over the workload, in hundredths.
unfoldable pub ratio : Workload → ℕ
ratio enqueue_heavy = 67
ratio dequeue_heavy = 33
ratio enqueue_dequeue_pair = 100

module _ (machine : Machine) where
  open machine use {scaled, shuffle}

  unfoldable pub total_enq : Workload → ℕ → ℕ → ℕ
  unfolding ratio
  total_enq w num_ops num_threads = scaled (ratio w) (num_threads * num_ops)

  unfoldable pub total_deq : Workload → ℕ → ℕ → ℕ
  unfolding total_enq
  total_deq w num_ops num_threads = num_threads * num_ops - total_enq w num_ops num_threads

  -- `std::max(0, deficit) + 1000`: the subtraction stops at 0.
  unfoldable pub prefill_size : Workload → ℕ → ℕ → ℕ
  unfolding total_enq total_deq
  prefill_size enqueue_heavy num_ops num_threads = 0
  prefill_size dequeue_heavy num_ops num_threads =
      total_deq dequeue_heavy num_ops num_threads
      - total_enq dequeue_heavy num_ops num_threads
      + 1000
  prefill_size enqueue_dequeue_pair num_ops num_threads = 1000

  unfoldable pub worker_ops : Workload → ℕ → ℕ → ℕ → List ℕ
  unfolding total_enq total_deq
  worker_ops w tid num_ops num_threads = shuffle tid (
      replicate (total_enq w num_ops num_threads / num_threads) 0
      ++ replicate (total_deq w num_ops num_threads / num_threads) 1)

  -- The calls of `worker`, between its first line and its return.
  unfoldable pub worker : Workload → ℕ → ℕ → ℕ → List Call
  unfolding prefill_size worker_ops prefill_from pairs_from perform is_pair
  worker w tid num_ops num_threads =
      (if tid == 0 && ltb 0 (prefill_size w num_ops num_threads)
        then prefill_from 0 (prefill_size w num_ops num_threads)
        else [])
      ++ (arrive_and_wait
          ∷ arrive_and_wait
          ∷ ((if is_pair w
                then pairs_from 0 num_ops
                else perform (worker_ops w tid num_ops num_threads))
              ++ (arrive_and_wait ∷ [])))

-- `make_ops_with_ratio`, with `e` for `int(std::round(total * enq_frac))` before it is clamped from
-- above; the lower bound 0 is that of ℕ.
unfoldable pub make_ops : (List ℕ → List ℕ) → ℕ → ℕ → List ℕ
make_ops shuffled total e =
    let enq = if ltb total e then total else e in
    shuffled (replicate enq 0 ++ replicate (total - enq) 1)
