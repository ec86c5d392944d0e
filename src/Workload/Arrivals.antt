-- ===== src/Workload/Arrivals.antt =====
-- How often a worker arrives at the barrier.
use ispass2026_concurrent_qu.Common.{
  ℕ, zero, suc, ◌+◌, ◌≡◌, refl, List, [], ◌∷◌, ◌++◌, ◌&&◌, ltb, ◌==◌, if◌then◌else◌, arith,
}
use ispass2026_concurrent_qu.Workload.{
  Workload, Call, enqueue, dequeue, arrive_and_wait, Machine, prefill_from, pairs_from, perform,
  is_pair, prefill_size, worker_ops, worker,
}

abbrev pub arrivals : List Call → ℕ
arrivals [] = 0
arrivals (enqueue v ∷ cs) = arrivals cs
arrivals (dequeue ∷ cs) = arrivals cs
arrivals (arrive_and_wait ∷ cs) = 1 + arrivals cs

pub arrivals-append : (cs ds : List Call) → arrivals (cs ++ ds) ≡ arrivals cs + arrivals ds
arrivals-append [] ds = omega arith
arrivals-append (enqueue v ∷ cs) ds = arrivals-append cs ds
arrivals-append (dequeue ∷ cs) ds = arrivals-append cs ds
arrivals-append (arrive_and_wait ∷ cs) ds = omega (arith, arrivals-append cs ds)

pub arrivals-prefill : (i n : ℕ) → arrivals (prefill_from i n) ≡ 0
unfolding prefill_from
arrivals-prefill i zero = refl
arrivals-prefill i (suc n) = arrivals-prefill (i + 1) n

arrivals-pairs : (i n : ℕ) → arrivals (pairs_from i n) ≡ 0
unfolding pairs_from
arrivals-pairs i zero = refl
arrivals-pairs i (suc n) = arrivals-pairs (i + 1) n

arrivals-perform : (l : List ℕ) → arrivals (perform l) ≡ 0
unfolding perform
arrivals-perform [] = refl
arrivals-perform (op ∷ l) = ground (arith, arrivals-perform l)

module _ (machine : Machine) where
  pub arrivals-worker : (w : Workload) (tid n k : ℕ) → arrivals (worker machine w tid n k) ≡ 3
  unfolding worker
  arrivals-worker w tid n k = omega (
    arith,
    arrivals-append first rest,
    arrivals-append body (arrive_and_wait ∷ []),
    first_none,
    body_none,
  )
    where
      first : List Call
      first =
          if tid == 0 && ltb 0 (prefill_size machine w n k)
          then prefill_from 0 (prefill_size machine w n k)
          else []

      body : List Call
      body = if is_pair w then pairs_from 0 n else perform (worker_ops machine w tid n k)

      rest : List Call
      rest = arrive_and_wait ∷ arrive_and_wait ∷ (body ++ (arrive_and_wait ∷ []))

      first_none : arrivals first ≡ 0
      first_none = ground (arith, arrivals-prefill 0 (prefill_size machine w n k))

      body_none : arrivals body ≡ 0
      body_none =
          ground (arith, arrivals-pairs 0 n, arrivals-perform (worker_ops machine w tid n k))
