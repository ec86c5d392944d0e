-- ===== src/CrQueue/Tests.antt =====
-- Runs of a ring of one cell, and the theorems there.
use ispass2026_concurrent_qu.Common.{◌∷◌, [], ℕ, ◌≡◌, refl, ◌⊎◌, some, arith, ℕ_discrete}
use ispass2026_concurrent_qu.PrQueue.{plain}
use ispass2026_concurrent_qu.CrQueue.{
  idle, enq_fetch, enq_idx, enq_val, enq_cas, deq_fetch, deq_idx, deq_val, deq_seen, deq_take,
  popped, push, pop, System,
}
use ispass2026_concurrent_qu.CrQueue.Updates.{go_to, fetch_tail, fetch_head, put, take}
use ispass2026_concurrent_qu.CrQueue.Steps.{
  begin_enqueue, ticket, load_idx, safe_null, put_item, begin_dequeue, head_ticket, load_deq_idx,
  load_val, found, took, init, Reach, begin, later,
}
use ispass2026_concurrent_qu.CrQueue.Inv.{Stored}
use ispass2026_concurrent_qu.CrQueue.History.{IsTicketwise, Reach-IsTicketwise, put_stays}
use ispass2026_concurrent_qu.CrQueue.Solo.{Run, enqueue_then_dequeue}

abbrev one_place : ℕ → ℕ
one_place c = 0

-- Thread 0 has put its item into the only cell.
abbrev one : System
one = put 0 7 0 0 (
    go_to 0 (enq_cas 7 0 0 (plain 0)) (
      go_to 0 (enq_val 7 0 0 (plain 0))
        (fetch_tail 0 (enq_idx 7 0 0) (go_to 0 (enq_fetch 7 0) (init one_place 0)))))

one-Reach : Reach one_place 1 one_place 0 one
unfolding go_to fetch_tail fetch_head put take ℕ_discrete
one-Reach =
    later
      (later
        (later (later (later begin (begin_enqueue 0 7 refl)) (ticket 0 7 0 refl refl))
          (load_idx 0 7 0 0 refl))
        (safe_null 0 7 0 0 (plain 0) refl refl (omega arith) refl))
      (put_item 0 7 0 0 (plain 0) refl (refl, refl))

-- Thread 1 has taken it.
abbrev one_taken : System
one_taken = take 1 7 0 0 (plain 1) (
    go_to 1 (deq_take 0 0 7 (plain 0) (plain 0)) (
      go_to 1 (deq_seen 0 0 (plain 0) (plain 0) (some 7)) (
        go_to 1 (deq_val 0 0 (plain 0) (plain 0))
          (fetch_head 1 (deq_idx 0 0 (plain 0)) (go_to 1 deq_fetch one)))))

one_taken-Reach : Reach one_place 1 one_place 0 one_taken
unfolding go_to fetch_tail fetch_head put take ℕ_discrete
one_taken-Reach =
    later
      (later
        (later
          (later (later (later one-Reach (begin_dequeue 1 refl)) (head_ticket 1 refl))
            (load_deq_idx 1 0 0 (plain 0) refl))
          (load_val 1 0 0 (plain 0) (plain 0) refl))
        (found 1 0 0 7 (plain 0) (plain 0) refl refl))
      (took 1 0 0 7 (plain 0) (plain 0) refl (refl, refl))

Reach-IsTicketwise_example : IsTicketwise one_taken.trace
Reach-IsTicketwise_example = Reach-IsTicketwise one_place 1 (omega arith) one_taken-Reach

put_stays_example : (popped one.trace 0 ≡ some 7) ⊎ Stored one_place 1 one.val one.idx 0 7
unfolding go_to fetch_tail fetch_head put take ℕ_discrete
put_stays_example = put_stays one_place 1 (omega arith) one-Reach 0 7 refl

enqueue_then_dequeue_example :
    (t : System) × Run one_place 1 (init one_place 0) t
    × (t.pc 4 ≡ idle)
    × (t.returned 4 ≡ some 9)
    × (t.trace ≡ pop 4 9 0 ∷ push 4 9 0 ∷ [])
enqueue_then_dequeue_example =
    enqueue_then_dequeue one_place 1 (init one_place 0) 4 9 refl refl refl refl (omega arith) refl
