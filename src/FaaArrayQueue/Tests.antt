-- ===== src/FaaArrayQueue/Tests.antt =====
-- Runs of a queue whose nodes have two slots, and the theorems there.
use ispass2026_concurrent_qu.Common.{ℕ, ◌<◌, ◌≡◌, refl, ◌⊎◌, inr, some, arith, ℕ_discrete}
use ispass2026_concurrent_qu.FaaArrayQueue.{
  item, enq_load, enq_fetch, enq_cas, deq_load, deq_fetch, deq_take, deq_next, deq_fix, got_at,
  System,
}
use ispass2026_concurrent_qu.FaaArrayQueue.Steps.{
  go_to, fetch_enq, fetch_deq, put, take, spoil, begin_enqueue, load_tail, fetched_slot, put_item,
  begin_dequeue, load_head, claimed, took, spoiled, no_more_slots, no_more_nodes, fixed, set_enq,
  init, Reach, start, later,
}
use ispass2026_concurrent_qu.FaaArrayQueue.History.{IsHistory, Reach-IsHistory}
use ispass2026_concurrent_qu.FaaArrayQueue.Order.{Before, IsClaimed, none_lost, dequeue_in_order}
use ispass2026_concurrent_qu.FaaArrayQueue.Behind.{enqueue_behind}
use ispass2026_concurrent_qu.FaaArrayQueue.During.{WasEmpty}
use ispass2026_concurrent_qu.FaaArrayQueue.Empty.{null_means_empty}

abbrev plain : ℕ → ℕ
plain c = c

plain-injective : (c d : ℕ) → c < 2 → d < 2 → plain c ≡ plain d → c ≡ d
plain-injective c d _ _ e = e

-- Thread `i` has put `x` into slot `c` of the first node.
abbrev enqueued : ℕ → ℕ → ℕ → System → System
enqueued i x c s =
    put plain 2 i x 0 c
      (fetch_enq i 0 (enq_cas x 0 c) (go_to i (enq_fetch x 0) (go_to i (enq_load x) s)))

-- Thread `i` has claimed slot `c` of the first node.
abbrev claiming : ℕ → ℕ → System → System
claiming i c s = fetch_deq i 0 (deq_take 0 c) (go_to i (deq_fetch 0) (go_to i deq_load s))

abbrev one : System
one = enqueued 0 7 0 init

abbrev one_taken : System
one_taken = take plain 2 1 7 0 0 (claiming 1 0 one)

one-Reach : Reach plain 2 one
unfolding go_to fetch_enq put ℕ_discrete
one-Reach =
    later
      (later (later (later start (begin_enqueue 0 7 refl)) (load_tail 0 7 refl))
        (fetched_slot 0 7 0 refl (omega arith)))
      (put_item 0 7 0 0 refl refl)

one_taken-Reach : Reach plain 2 one_taken
unfolding go_to fetch_enq fetch_deq put take ℕ_discrete
one_taken-Reach =
    later
      (later (later (later one-Reach (begin_dequeue 1 refl)) (load_head 1 refl))
        (claimed 1 0 refl (omega arith)))
      (took 1 7 0 0 refl refl)

-- A second enqueuer is about to claim a slot.
abbrev second : System
second = go_to 2 (enq_fetch 8 0) (go_to 2 (enq_load 8) one)

second-Reach : Reach plain 2 second
unfolding go_to fetch_enq put ℕ_discrete
second-Reach = later (later one-Reach (begin_enqueue 2 8 refl)) (load_tail 2 8 refl)

-- Two items: the dequeuer of the first has its ticket, that of the second is done.
abbrev overtaking : System
overtaking = take plain 2 4 8 0 1 (claiming 4 1 (claiming 1 0 (enqueued 2 8 1 one)))

overtaking-Reach : Reach plain 2 overtaking
unfolding go_to fetch_enq fetch_deq put take ℕ_discrete
overtaking-Reach =
    later
      (later
        (later
          (later
            (later
              (later
                (later
                  (later (later second-Reach (fetched_slot 2 8 0 refl (omega arith)))
                    (put_item 2 8 0 1 refl refl))
                  (begin_dequeue 1 refl))
                (load_head 1 refl))
              (claimed 1 0 refl (omega arith)))
            (begin_dequeue 4 refl))
          (load_head 4 refl))
        (claimed 4 0 refl (omega arith)))
      (took 4 8 0 1 refl refl)

-- A dequeuer finds nothing behind the item that was taken.
abbrev nothing_left : System
nothing_left = spoil plain 2 3 0 1 (claiming 3 1 one_taken)

nothing_left-Reach : Reach plain 2 nothing_left
unfolding go_to fetch_enq fetch_deq put take spoil ℕ_discrete
nothing_left-Reach =
    later
      (later (later (later one_taken-Reach (begin_dequeue 3 refl)) (load_head 3 refl))
        (claimed 3 0 refl (omega arith)))
      (spoiled 3 0 1 refl refl)

Reach-IsHistory_example : IsHistory one_taken.trace
Reach-IsHistory_example = Reach-IsHistory plain 2 (omega arith) plain-injective one_taken-Reach

none_lost_example : (one.items 0 0 ≡ item 7) ⊎ (got_at one.trace 0 0 ≡ some 7)
unfolding put
none_lost_example = none_lost plain 2 (omega arith) plain-injective one-Reach 0 0 7 refl

enqueue_behind_example : Before 0 0 0 1
unfolding go_to fetch_enq put ℕ_discrete
enqueue_behind_example =
    enqueue_behind plain 2 (omega arith) plain-injective second-Reach
      (fetched_slot 2 8 0 refl (omega arith)) 2 8 0 8 0 1 0 0 7 refl refl refl

dequeue_in_order_example : IsClaimed overtaking 0 0 7
unfolding go_to fetch_enq fetch_deq put take ℕ_discrete
dequeue_in_order_example =
    dequeue_in_order plain 2 (omega arith) plain-injective overtaking-Reach 0 1 8 0 0 7 refl
      (inr (refl, omega arith)) refl

-- It has read that there is no next node.
abbrev at_end : System
at_end = go_to 3 (deq_fix 0 1 1) (go_to 3 (deq_next 0 1 1) nothing_left)

at_end-Reach : Reach plain 2 at_end
unfolding go_to fetch_enq fetch_deq put take spoil ℕ_discrete
at_end-Reach =
    later (later nothing_left-Reach (no_more_slots 3 0 1 refl (omega arith)))
      (no_more_nodes 3 0 1 1 refl refl)

null_means_empty_example : WasEmpty plain 2 at_end 3
unfolding go_to fetch_enq fetch_deq put take spoil set_enq ℕ_discrete
null_means_empty_example =
    null_means_empty plain 2 (omega arith) plain-injective at_end-Reach (fixed 3 0 1 1 refl refl) 3
      tt refl refl
