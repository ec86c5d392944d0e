-- ===== src/Workload/Counts.antt =====
-- How often a worker enqueues and dequeues, and that the prefill covers the dequeues.
use ispass2026_concurrent_qu.Common.{
  ℕ, zero, suc, ◌+◌, ◌-◌, ◌*◌, ◌/◌, ◌^◌, ◌<◌, ◌≡◌, ◌≢◌, ◌≤◌, refl, ap, ◌∙◌, List, [], ◌∷◌, ◌++◌,
  ◌&&◌, ltb, ◌==◌, if◌then◌else◌, replicate, arith, Bool-cases, inl, inr,
}
use native.Mathlib.Nat.{div-add-mod, mod-lt}
use ispass2026_concurrent_qu.Workload.{
  Workload, enqueue_heavy, dequeue_heavy, enqueue_dequeue_pair, Call, enqueue, dequeue,
  arrive_and_wait, ops_with, Machine, Rounds, ratio, prefill_from, pairs_from, perform, is_pair,
  total_enq, total_deq, prefill_size, worker_ops, worker,
}

abbrev pub enqueues : List Call → ℕ
enqueues [] = 0
enqueues (enqueue v ∷ cs) = 1 + enqueues cs
enqueues (dequeue ∷ cs) = enqueues cs
enqueues (arrive_and_wait ∷ cs) = enqueues cs

abbrev pub dequeues : List Call → ℕ
dequeues [] = 0
dequeues (enqueue v ∷ cs) = dequeues cs
dequeues (dequeue ∷ cs) = 1 + dequeues cs
dequeues (arrive_and_wait ∷ cs) = dequeues cs

pub enqueues-append : (cs ds : List Call) → enqueues (cs ++ ds) ≡ enqueues cs + enqueues ds
enqueues-append [] ds = omega arith
enqueues-append (enqueue v ∷ cs) ds = omega (arith, enqueues-append cs ds)
enqueues-append (dequeue ∷ cs) ds = enqueues-append cs ds
enqueues-append (arrive_and_wait ∷ cs) ds = enqueues-append cs ds

pub dequeues-append : (cs ds : List Call) → dequeues (cs ++ ds) ≡ dequeues cs + dequeues ds
dequeues-append [] ds = omega arith
dequeues-append (enqueue v ∷ cs) ds = dequeues-append cs ds
dequeues-append (dequeue ∷ cs) ds = omega (arith, dequeues-append cs ds)
dequeues-append (arrive_and_wait ∷ cs) ds = dequeues-append cs ds

pub prefill_counts :
    (i n : ℕ) → (enqueues (prefill_from i n) ≡ n) × (dequeues (prefill_from i n) ≡ 0)
unfolding prefill_from
prefill_counts i zero = (refl, refl)
prefill_counts i (suc n) = omega (arith, prefill_counts (i + 1) n)

pairs_counts : (i n : ℕ) → (enqueues (pairs_from i n) ≡ n) × (dequeues (pairs_from i n) ≡ n)
unfolding pairs_from
pairs_counts i zero = (refl, refl)
pairs_counts i (suc n) = omega (arith, pairs_counts (i + 1) n)

-- Only the values 0 and 1 occur.
abbrev Binary : List ℕ → Type 0
Binary l = (op : ℕ) → op ≢ 0 → op ≢ 1 → ops_with op l ≡ 0

perform-enqueues : (l : List ℕ) → enqueues (perform l) ≡ ops_with 0 l
unfolding perform
perform-enqueues [] = refl
perform-enqueues (op ∷ l) = ground (arith, perform-enqueues l)

perform-dequeues : (l : List ℕ) → Binary l → dequeues (perform l) ≡ ops_with 1 l
unfolding perform
perform-dequeues [] b = refl
perform-dequeues (op ∷ l) b =
    ground (arith, b op, perform-dequeues l (λ o p q. ground (arith, b o p q)))

ops_with-replicate :
    (op n a : ℕ) (l : List ℕ)
    → ops_with op (replicate n a ++ l) ≡ (if a == op then n else 0) + ops_with op l
ops_with-replicate op zero a l = ground arith
ops_with-replicate op (suc n) a l = ground (arith, ops_with-replicate op n a l)

ops_with-only : (op n a : ℕ) → ops_with op (replicate n a) ≡ (if a == op then n else 0)
ops_with-only op zero a = ground arith
ops_with-only op (suc n) a = ground (arith, ops_with-only op n a)

module _ (machine : Machine) where
  open machine use {scaled, scaled-Rounds, shuffle, shuffle-ops_with}

  ops-counts :
      (w : Workload) (tid n k op : ℕ)
      → ops_with op (worker_ops machine w tid n k)
        ≡ (if 0 == op then total_enq machine w n k / k else 0)
          + (if 1 == op then total_deq machine w n k / k else 0)
  unfolding worker_ops
  ops-counts w tid n k op =
      shuffle-ops_with tid op _
      ∙ ops_with-replicate op (total_enq machine w n k / k) 0
          (replicate (total_deq machine w n k / k) 1)
      ∙ ap (λ m. (if 0 == op then total_enq machine w n k / k else 0) + m)
          (ops_with-only op (total_deq machine w n k / k) 1)

  perform-counts :
      (w : Workload) (tid n k : ℕ)
      → (enqueues (perform (worker_ops machine w tid n k)) ≡ total_enq machine w n k / k)
        × (dequeues (perform (worker_ops machine w tid n k)) ≡ total_deq machine w n k / k)
  perform-counts w tid n k = (
    omega (arith, perform-enqueues (worker_ops machine w tid n k), ops-counts w tid n k 0),
    omega (
      arith,
      perform-dequeues (worker_ops machine w tid n k)
          (λ op p q. ground (arith, ops-counts w tid n k op)),
      ops-counts w tid n k 1,
    ),
  )

  abbrev pub enqueues_of : Workload → ℕ → ℕ → ℕ
  enqueues_of w n k = if is_pair w then n else total_enq machine w n k / k

  abbrev pub dequeues_of : Workload → ℕ → ℕ → ℕ
  dequeues_of w n k = if is_pair w then n else total_deq machine w n k / k

  first_counts :
      (w : Workload) (tid n k : ℕ)
      → let first =
          if tid == 0 && ltb 0 (prefill_size machine w n k)
          then prefill_from 0 (prefill_size machine w n k)
          else [] in
        (enqueues first ≡ (if tid == 0 then prefill_size machine w n k else 0))
        × (dequeues first ≡ 0)
  first_counts w tid n k = ground (arith, prefill_counts 0 (prefill_size machine w n k))

  body_counts :
      (w : Workload) (tid n k : ℕ)
      → let body = if is_pair w then pairs_from 0 n else perform (worker_ops machine w tid n k) in
        (enqueues body ≡ enqueues_of w n k) × (dequeues body ≡ dequeues_of w n k)
  body_counts w tid n k = elim (Bool-cases (is_pair w)) [
    | inl pair ↦ rw pair (pairs_counts 0 n)
    | inr other ↦ rw other (perform-counts w tid n k)
  ]

  -- The calls of a worker in the terms of the code.
  pub worker_calls :
      (w : Workload) (tid n k : ℕ)
      → (enqueues (worker machine w tid n k)
          ≡ (if tid == 0 then prefill_size machine w n k else 0) + enqueues_of w n k)
        × (dequeues (worker machine w tid n k) ≡ dequeues_of w n k)
  unfolding worker
  worker_calls w tid n k = (
    enqueues-append first rest
        ∙ omega (
          arith,
          enqueues-append body (arrive_and_wait ∷ []),
          (first_counts w tid n k).0,
          (body_counts w tid n k).0,
        ),
    dequeues-append first rest
        ∙ omega (
          arith,
          dequeues-append body (arrive_and_wait ∷ []),
          (first_counts w tid n k).1,
          (body_counts w tid n k).1,
        ),
  )
    where
      first : List Call
      first =
          if tid == 0 && ltb 0 (prefill_size machine w n k)
          then prefill_from 0 (prefill_size machine w n k)
          else []

      body : List Call
      body = if is_pair w then pairs_from 0 n else perform (worker_ops machine w tid n k)

      rest : List Call
      rest = arrive_and_wait ∷ arrive_and_wait ∷ (body ++ (arrive_and_wait ∷ []))

  -- How often a worker of `k` with `n` operations each enqueues (`enq`) and dequeues (`deq`).
  abbrev pub Expected : Workload → (tid n k enq deq : ℕ) → Type 0
  Expected enqueue_heavy tid n k enq deq =
      (e : ℕ) × Rounds 67 (k * n) e × (enq ≡ e / k) × (deq ≡ (k * n - e) / k)
  Expected dequeue_heavy tid n k enq deq =
      (e : ℕ) × Rounds 33 (k * n) e
      × (enq ≡ (if tid == 0 then k * n - e - e + 1000 else 0) + e / k)
      × (deq ≡ (k * n - e) / k)
  Expected enqueue_dequeue_pair tid n k enq deq =
      (enq ≡ (if tid == 0 then 1000 else 0) + n) × (deq ≡ n)

  -- With fewer than 2 ^ 31 operations in all, a worker of `k` that makes `n` operations each: in the
  -- enqueue-heavy workload it enqueues its share, rounded down, of 67 hundredths of the `k * n`
  -- operations, rounded, and dequeues its share of the rest; in the dequeue-heavy workload the same
  -- with 33 hundredths, and worker 0 enqueues 1000 and the deficit of enqueues besides; in the pair
  -- workload it does each `n` times, and worker 0 enqueues 1000 besides.
  pub worker_counts :
      (w : Workload) (tid n k : ℕ)
      → k * n < 2 ^ 31
      → Expected w tid n k
          (enqueues (worker machine w tid n k))
          (dequeues (worker machine w tid n k))
  unfolding ratio total_enq total_deq prefill_size is_pair
  worker_counts enqueue_heavy tid n k lt =
      let (enq, deq) = worker_calls enqueue_heavy tid n k in
      (scaled 67 (k * n), scaled-Rounds 67 (k * n) (omega arith) lt, ground (arith, enq), deq)
  worker_counts dequeue_heavy tid n k lt =
      let (enq, deq) = worker_calls dequeue_heavy tid n k in
      (scaled 33 (k * n), scaled-Rounds 33 (k * n) (omega arith) lt, enq, deq)
  worker_counts enqueue_dequeue_pair tid n k lt = worker_calls enqueue_dequeue_pair tid n k

  -- The calls of the first `j` workers.
  abbrev pub all_enqueues : Workload → ℕ → ℕ → ℕ → ℕ
  all_enqueues w n k zero = 0
  all_enqueues w n k (suc j) = all_enqueues w n k j + enqueues (worker machine w j n k)

  abbrev pub all_dequeues : Workload → ℕ → ℕ → ℕ → ℕ
  all_dequeues w n k zero = 0
  all_dequeues w n k (suc j) = all_dequeues w n k j + dequeues (worker machine w j n k)

  all_enqueues_lem :
      (w : Workload) (n k j : ℕ)
      → all_enqueues w n k (suc j) ≡ prefill_size machine w n k + suc j * enqueues_of w n k
  all_enqueues_lem w n k zero = omega (arith, (worker_calls w 0 n k).0)
  all_enqueues_lem w n k (suc j) =
      ground (arith, all_enqueues_lem w n k j, (worker_calls w (suc j) n k).0)

  all_dequeues_lem : (w : Workload) (n k j : ℕ) → all_dequeues w n k j ≡ j * dequeues_of w n k
  all_dequeues_lem w n k zero = omega arith
  all_dequeues_lem w n k (suc j) = omega (arith, all_dequeues_lem w n k j, (worker_calls w j n k).1)

  -- In the dequeue-heavy and in the pair workload, with 1 to 1001 threads, all workers together
  -- dequeue at most as often as they enqueue, the prefill included.
  pub prefill_covers :
      (w : Workload) (n j : ℕ)
      → w ≢ enqueue_heavy
      → j ≤ 1000
      → all_dequeues w n (suc j) (suc j) ≤ all_enqueues w n (suc j) (suc j)
  unfolding prefill_size total_deq is_pair
  prefill_covers enqueue_heavy n j ne le = absurd (ne refl)
  prefill_covers enqueue_dequeue_pair n j ne le = omega (
    arith,
    all_enqueues_lem enqueue_dequeue_pair n (suc j) j,
    all_dequeues_lem enqueue_dequeue_pair n (suc j) (suc j),
  )
  prefill_covers dequeue_heavy n j ne le = omega (
    arith,
    all_enqueues_lem dequeue_heavy n (suc j) j,
    all_dequeues_lem dequeue_heavy n (suc j) (suc j),
    div-add-mod (total_enq machine dequeue_heavy n (suc j)) (suc j),
    div-add-mod (total_deq machine dequeue_heavy n (suc j)) (suc j),
    mod-lt (total_enq machine dequeue_heavy n (suc j)) {m = suc j} (omega arith),
  )
