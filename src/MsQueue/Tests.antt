-- ===== src/MsQueue/Tests.antt =====
-- A run of two threads: 0 enqueues 7, then 1 dequeues it; the theorems there. A second run of 1 on
-- the empty queue.
use ispass2026_concurrent_qu.Common.{
  ℕ, ◌≡◌, refl, ◌⊎◌, true, List, [], ◌∷◌, ◌++◌, none, some, arith, ℕ_discrete,
}
use ispass2026_concurrent_qu.MsQueue.{
  counted, Pc, enq_next, enq_check, enq_link, deq_check, deq_next, deq_tail, pushes, pops, System,
}
use ispass2026_concurrent_qu.MsQueue.Steps.{
  go_to, call_enqueue, link, move_tail, stamp, call_dequeue, move_head, free, begin_enqueue,
  load_tail, load_next, tail_is_last, linked, begin_dequeue, load_head, load_deq_tail,
  load_deq_next, found_empty, return_false, null, dummy, init, Reach, start, later,
}
use ispass2026_concurrent_qu.MsQueue.Safety.{Walk, Reach-Walk, Reach-tail}
use ispass2026_concurrent_qu.MsQueue.Empty.{false_means_empty}
use ispass2026_concurrent_qu.MsQueue.During.{WasEmpty}

-- Thread 0 has linked its node, at address 5, and not moved the tail yet.
abbrev before_link : System
before_link =
    go_to 0 (enq_link 5 dummy null) (
      go_to 0 (enq_check 5 dummy null) (go_to 0 (enq_next 5 dummy) (call_enqueue 0 10 7 5 99 init)))

before_link-Reach : Reach before_link
unfolding go_to call_enqueue ℕ_discrete
before_link-Reach =
    later
      (later
        (later (later start (begin_enqueue 0 10 7 5 99 (omega arith) refl refl))
          (load_tail 0 5 refl))
        (load_next 0 5 0 dummy refl refl refl))
      (tail_is_last 0 5 dummy null refl refl refl)

abbrev linked_five : System
linked_five = link 0 5 0 dummy null before_link

linked_five-Reach : Reach linked_five
unfolding go_to call_enqueue link ℕ_discrete
linked_five-Reach = later before_link-Reach (linked 0 5 0 dummy null refl refl refl refl)

-- Thread 1 has read a null `next` of the dummy.
abbrev seen_empty : System
seen_empty =
    go_to 1 (deq_check 3 dummy dummy null true)
      (go_to 1 (deq_next 3 dummy dummy) (go_to 1 (deq_tail 3 dummy) (call_dequeue 1 3 init)))

seen_empty-Reach : Reach seen_empty
unfolding go_to call_dequeue ℕ_discrete
seen_empty-Reach =
    later
      (later (later (later start (begin_dequeue 1 3 (omega arith) refl)) (load_head 1 3 refl))
        (load_deq_tail 1 3 dummy refl))
      (load_deq_next 1 3 0 dummy dummy refl refl refl)

-- The run goes on: the tail moves, and thread 1 takes 7.
abbrev enqueued : System
enqueued = move_tail 0 (some 5) dummy Pc.idle (stamp 0 5 dummy 12 linked_five)

abbrev taking : System
taking = move_head 1 13 dummy (counted (some 5) null) 7 10 12 15 (call_dequeue 1 13 enqueued)

taken_seven : ((free 1 0 7 taking).returned 1 ≡ some 7) × (taking.log 1 ≡ (10, 12, 13, 15) ∷ [])
unfolding go_to call_enqueue link stamp move_tail call_dequeue move_head free ℕ_discrete
taken_seven = (refl, refl)

Reach-Walk_example :
    (a : ℕ) × (l : List ℕ) × (linked_five.head.ptr ≡ some a)
    × Walk linked_five.node a l
    × (pops linked_five.trace ++ l ≡ pushes linked_five.trace)
Reach-Walk_example = Reach-Walk linked_five-Reach

Reach-tail_example :
    (a : ℕ) × (linked_five.tail.ptr ≡ some a)
    × (((linked_five.node a).next.ptr ≡ none)
        ⊎ ((b : ℕ) × ((linked_five.node a).next.ptr ≡ some b)
            × ((linked_five.node b).next.ptr ≡ none)))
Reach-tail_example = Reach-tail linked_five-Reach

false_means_empty_example : WasEmpty seen_empty 1
unfolding go_to call_dequeue return_false ℕ_discrete
false_means_empty_example =
    false_means_empty seen_empty-Reach 1 tt
      (found_empty 1 3 dummy dummy null true refl refl refl refl) refl refl
