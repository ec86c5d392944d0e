-- ===== src/Driver/Threads.antt =====
-- The threads of a trial: how often each arrives at the barrier, and how many operations it makes.
use ispass2026_concurrent_qu.Common.{
  ◌-◌, ℕ, ◌+◌, ◌*◌, ◌/◌, ◌^◌, ◌≡◌, ◌≤◌, ◌<◌, refl, List, [], ◌∷◌, ◌&&◌, ◌==◌, if◌then◌else◌, arith,
  In, inl, inr,
}
use native.Mathlib.Nat.{div-add-mod, mod-lt, mul-div-le, le_of_mul-le-mul_left}
use ispass2026_concurrent_qu.Workload.{
  Workload, Call, arrive_and_wait, Machine, prefill_from, is_pair, worker, total_enq, total_deq,
  prefill_size, ratio, enqueue_heavy, dequeue_heavy, enqueue_dequeue_pair,
}
use ispass2026_concurrent_qu.Workload.Counts.{
  enqueues, dequeues, enqueues-append, dequeues-append, prefill_counts, enqueues_of, dequeues_of,
  worker_calls,
}
use ispass2026_concurrent_qu.Workload.Arrivals.{
  arrivals, arrivals-append, arrivals-prefill, arrivals-worker,
}
use ispass2026_concurrent_qu.Args.{Text, codes, text_eq}
use ispass2026_concurrent_qu.Driver.{workloads, workload_of, worker_thread, local_accesses}

limit :
    (name : Text) (n : ℕ)
    → In name workloads
    → (if is_pair (workload_of name) then n * 2 else n) ≡ local_accesses name n
unfolding workload_of local_accesses is_pair
limit name n (inl e) = rw e refl
limit name n (inr (inl e)) = rw e refl
limit name n (inr (inr (inl e))) = rw e refl
limit name n (inr (inr (inr missing))) = absurd missing

is_pair-name :
    (name : Text) → In name workloads → is_pair (workload_of name) ≡ text_eq name (codes "pair")
unfolding workload_of is_pair text_eq
is_pair-name name (inl e) = rw e refl
is_pair-name name (inr (inl e)) = rw e refl
is_pair-name name (inr (inr (inl e))) = rw e refl
is_pair-name name (inr (inr (inr missing))) = absurd missing

-- The most enqueues by which thread 0 prepares a trial: none, 1000 and the deficit of enqueues, which
-- is 34 hundredths of the operations and one for rounding, or 6000.
abbrev pub setup_limit : Workload → ℕ → ℕ → ℕ
setup_limit enqueue_heavy n k = 0
setup_limit dequeue_heavy n k = 1001 + 17 * (k * n) / 50
setup_limit enqueue_dequeue_pair n k = 6000

module _ (machine : Machine) where
  -- Every thread of a trial, under every workload name, arrives at the barrier four times, so that
  -- none waits for a round in which another does not arrive.
  pub worker_thread-arrivals :
      (workload_name : Text) (tid num_ops num_threads : ℕ)
      → arrivals (worker_thread machine workload_name tid num_ops num_threads) ≡ 4
  unfolding worker_thread
  worker_thread-arrivals name tid n k = omega (
    arith,
    arrivals-append first (arrive_and_wait ∷ worker machine (workload_of name) tid n k),
    first_none,
    arrivals-worker machine (workload_of name) tid n k,
  )
    where
      first : List Call
      first = if text_eq name (codes "pair") && tid == 0 then prefill_from 0 5000 else []

      first_none : arrivals first ≡ 0
      first_none = ground (arith, arrivals-prefill 0 5000)

  scaled-le : (w : Workload) (n : ℕ) → n < 2 ^ 31 → machine.scaled (ratio w) n ≤ n
  unfolding ratio
  scaled-le enqueue_heavy n lt = omega (arith, machine.scaled-Rounds 67 n (omega arith) lt)
  scaled-le dequeue_heavy n lt = omega (arith, machine.scaled-Rounds 33 n (omega arith) lt)
  scaled-le enqueue_dequeue_pair n lt = omega (arith, machine.scaled-Rounds 100 n (omega arith) lt)

  share-le :
      (w : Workload) (n k : ℕ)
      → 0 < k
      → k * n < 2 ^ 31
      → total_enq machine w n k / k + total_deq machine w n k / k ≤ n
  unfolding total_enq total_deq
  share-le w n k pos lt =
      le_of_mul-le-mul_left {m = e / k + d / k} {n = n} {k = k}
        (omega (
          arith,
          mul-div-le e k,
          mul-div-le d k,
          scaled-le w (k * n) lt,
          mul_add k (e / k) (d / k),
        ))
        pos
    where
      e : ℕ
      e = machine.scaled (ratio w) (k * n)

      d : ℕ
      d = k * n - machine.scaled (ratio w) (k * n)

      mul_add : (a b c : ℕ) → a * (b + c) ≡ a * b + a * c
      mul_add a b c = omega arith

  made-le :
      (w : Workload) (n k : ℕ)
      → 0 < k
      → k * n < 2 ^ 31
      → enqueues_of machine w n k + dequeues_of machine w n k ≤ (if is_pair w then n * 2 else n)
  made-le w n k pos lt = ground (arith, share-le w n k pos lt)

  -- The prefill of `worker`, within what `setup_limit` leaves beside the 5000 of `worker_thread`.
  prefill-le :
      (w : Workload) (n k : ℕ)
      → k * n < 2 ^ 31
      → prefill_size machine w n k + (if is_pair w then 5000 else 0) ≤ setup_limit w n k
  unfolding prefill_size total_enq total_deq is_pair ratio
  prefill-le enqueue_heavy n k lt = omega arith
  prefill-le dequeue_heavy n k lt = omega (
    arith,
    machine.scaled-Rounds 33 (k * n) (omega arith) lt,
    div-add-mod (17 * (k * n)) 50,
    mod-lt (17 * (k * n)) {m = 50} (omega arith),
  )
  prefill-le enqueue_dequeue_pair n k lt = omega arith

  thread-made :
      (name : Text) (tid n k : ℕ)
      → In name workloads
      → (enqueues (worker_thread machine name tid n k)
          ≡ (if tid == 0
              then (if is_pair (workload_of name) then 5000 else 0)
                + prefill_size machine (workload_of name) n k
              else 0)
            + enqueues_of machine (workload_of name) n k)
        × (dequeues (worker_thread machine name tid n k)
            ≡ dequeues_of machine (workload_of name) n k)
  unfolding worker_thread
  thread-made name tid n k known = (
    ground (
      arith,
      enqueues-append first (arrive_and_wait ∷ worker machine (workload_of name) tid n k),
      (worker_calls machine (workload_of name) tid n k).0,
      first_counts.0,
    ),
    omega (
      arith,
      dequeues-append first (arrive_and_wait ∷ worker machine (workload_of name) tid n k),
      (worker_calls machine (workload_of name) tid n k).1,
      first_counts.1,
    ),
  )
    where
      first : List Call
      first = if text_eq name (codes "pair") && tid == 0 then prefill_from 0 5000 else []

      first_counts :
          (enqueues first
            ≡ (if tid == 0 then (if is_pair (workload_of name) then 5000 else 0) else 0))
          × (dequeues first ≡ 0)
      first_counts = ground (arith, is_pair-name name known, prefill_counts 0 5000)

  -- A thread of a trial of one of the three workloads, with fewer than 2 ^ 31 operations in all, makes
  -- at most as many operations as `local_accesses` counts for its cache miss rate; thread 0, which
  -- prefills, makes besides at most `setup_limit` enqueues, which the count leaves out.
  pub local_accesses_lem :
      (workload_name : Text) (tid num_ops num_threads : ℕ)
      → In workload_name workloads
      → 0 < num_threads
      → num_threads * num_ops < 2 ^ 31
      → enqueues (worker_thread machine workload_name tid num_ops num_threads)
          + dequeues (worker_thread machine workload_name tid num_ops num_threads)
        ≤ local_accesses workload_name num_ops
          + (if tid == 0 then setup_limit (workload_of workload_name) num_ops num_threads else 0)
  local_accesses_lem name tid n k known pos lt = ground (
    arith,
    thread-made name tid n k known,
    made-le (workload_of name) n k pos lt,
    prefill-le (workload_of name) n k lt,
    limit name n known,
  )
