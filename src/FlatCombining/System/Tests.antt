-- ===== src/FlatCombining/System/Tests.antt =====
-- A run of two threads: 0 enqueues 7 and combines for itself, then 1 dequeues; the theorems there.
use ispass2026_concurrent_qu.Common.{ℕ, ◌+◌, ◌≡◌, refl, [], ◌∷◌, ◌++◌, some, arith, ℕ_discrete}
use ispass2026_concurrent_qu.Fairness.Sort.Laws.{IsAscending}
use ispass2026_concurrent_qu.FlatCombining.System.{
  enq, deq, idle, System, begin_enqueue, begin_dequeue, locked, scan, scanned, init, Reach, start,
  later, call_enqueue, call_dequeue, lock_ok, scan_slot, unlock, finish_dequeue,
}
use ispass2026_concurrent_qu.FlatCombining.System.History.{Fifo, Reach-Fifo}
use ispass2026_concurrent_qu.FlatCombining.System.Local.{events_of, answer, pending}
use ispass2026_concurrent_qu.FlatCombining.System.Safety.{
  combiner_unique, served_once, dequeue_returns, pushes, pops, no_overtaking,
}

-- Thread 0 has published 7 and holds the lock.
abbrev combining : System
combining = lock_ok 0 enq (call_enqueue 0 10 7 init)

combining-Reach : Reach 2 combining
unfolding call_enqueue lock_ok ℕ_discrete
combining-Reach =
    later (later start (begin_enqueue 0 10 7 (omega arith) (omega arith) refl))
      (locked 0 enq refl refl)

-- It has served both slots and left.
abbrev enqueued : System
enqueued = unlock 0 enq (scan_slot 0 enq 1 12 (scan_slot 0 enq 0 11 combining))

enqueued-Reach : Reach 2 enqueued
unfolding call_enqueue lock_ok scan_slot unlock ℕ_discrete
enqueued-Reach =
    later
      (later (later combining-Reach (scan 0 enq 0 11 refl (omega arith) (omega arith)))
        (scan 0 enq 1 12 refl (omega arith) (omega arith)))
      (scanned 0 enq 2 refl (omega arith))

-- Thread 1 has had its dequeue served by itself.
abbrev dequeued : System
dequeued =
    unlock 1 deq
      (scan_slot 1 deq 1 22 (scan_slot 1 deq 0 21 (lock_ok 1 deq (call_dequeue 1 20 enqueued))))

dequeued-Reach : Reach 2 dequeued
unfolding call_enqueue call_dequeue lock_ok scan_slot unlock ℕ_discrete
dequeued-Reach =
    later
      (later
        (later
          (later (later enqueued-Reach (begin_dequeue 1 20 (omega arith) (omega arith) refl))
            (locked 1 deq refl refl))
          (scan 1 deq 0 21 refl (omega arith) (omega arith)))
        (scan 1 deq 1 22 refl (omega arith) (omega arith)))
      (scanned 1 deq 2 refl (omega arith))

dequeue_gets_seven : (finish_dequeue 1 dequeued).returned 1 ≡ some 7
unfolding call_enqueue call_dequeue lock_ok scan_slot unlock finish_dequeue ℕ_discrete
dequeue_gets_seven = refl

logged : (finish_dequeue 1 dequeued).log 1 ≡ (10, 11, 20, 22) ∷ []
unfolding call_enqueue call_dequeue lock_ok scan_slot unlock finish_dequeue ℕ_discrete
logged = refl

Reach-Fifo_example : Fifo dequeued.trace dequeued.q
Reach-Fifo_example = Reach-Fifo dequeued-Reach

combiner_unique_example : (◌≡◌ {A = ℕ} 0 0) × (combining.lock ≡ some 0)
unfolding call_enqueue lock_ok ℕ_discrete
combiner_unique_example = combiner_unique combining-Reach 0 0 enq enq 0 0 refl refl

served_once_example :
    (enqueued.calls 0 ≡ events_of 0 enqueued.trace + pending (enqueued.slots 0).opcode)
    × (enqueued.pc 0 ≡ idle → enqueued.calls 0 ≡ events_of 0 enqueued.trace)
served_once_example = served_once enqueued-Reach 0

dequeue_returns_example : (finish_dequeue 1 dequeued).returned 1 ≡ answer 1 dequeued.trace
unfolding call_enqueue call_dequeue lock_ok scan_slot unlock ℕ_discrete
dequeue_returns_example = dequeue_returns dequeued-Reach 1 refl

no_overtaking_example :
    (pops enqueued.trace ++ enqueued.q ≡ pushes enqueued.trace)
    × IsAscending (λ n. n.enq_lin_ts) (pops enqueued.trace ++ enqueued.q)
no_overtaking_example = no_overtaking enqueued-Reach
