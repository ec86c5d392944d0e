-- ===== src/LinkedRing/Tests.antt =====
-- A run with a segment that refuses an item, and the theorems there.
use ispass2026_concurrent_qu.Common.{ℕ, ◌+◌, ◌≤◌, ◌<◌, ◌≡◌, refl, none, some, ℕ_discrete}
use ispass2026_concurrent_qu.LinkedRing.{
  idle, enq_load, enq_check, enq_next, enq_seg, enq_link, deq_load, deq_check, deq_seg, deq_next,
  deq_again, deq_swing, System,
}
use ispass2026_concurrent_qu.LinkedRing.Steps.{
  init, Reach, start, later, go_to, cas_tail, cas_head, enqueued, refuse, link, dequeued, miss,
  begin_enqueue, load_tail, tail_same, no_next, seg_accepted, seg_refused, start_index, link_ok,
  swung, begin_dequeue, load_head, head_same, seg_item, seg_none, found_next, again_none,
  head_swung,
}
use ispass2026_concurrent_qu.LinkedRing.Order.{IsOrdered, Reach-IsOrdered, Reach-list}

-- Thread `i` is about to call enqueue of segment 0.
abbrev at_segment : ℕ → ℕ → System → System
at_segment i x s =
    go_to i (enq_seg x 0)
      (go_to i (enq_next x 0) (go_to i (enq_check x 0) (go_to i (enq_load x) s)))

-- Segment 0 has taken the 5 of thread 0.
abbrev one : System
one = enqueued 0 5 0 (at_segment 0 5 init)

one-Reach : Reach one
unfolding go_to enqueued ℕ_discrete
one-Reach =
    later
      (later
        (later (later (later start (begin_enqueue 0 5 refl)) (load_tail 0 5 refl))
          (tail_same 0 5 0 refl refl))
        (no_next 0 5 0 refl refl))
      (seg_accepted 0 5 0 refl)

-- It has refused the 6 of thread 1, which has linked segment 1.
abbrev two : System
two = cas_tail 1 1 idle (link 1 6 0 (go_to 1 (enq_link 6 0 3) (refuse 1 6 0 (at_segment 1 6 one))))

two-Reach : Reach two
unfolding go_to enqueued refuse link cas_tail ℕ_discrete
two-Reach =
    later
      (later
        (later
          (later
            (later
              (later (later (later one-Reach (begin_enqueue 1 6 refl)) (load_tail 1 6 refl))
                (tail_same 1 6 0 refl refl))
              (no_next 1 6 0 refl refl))
            (seg_refused 1 6 0 refl))
          (start_index 1 6 0 3 refl))
        (link_ok 1 6 0 3 refl refl))
      (swung 1 0 1 refl refl)

-- Thread 2 has returned the 5, found segment 0 empty, and returned the 6 of segment 1.
abbrev three : System
three = dequeued 2 5 0 (go_to 2 (deq_seg 0) (go_to 2 (deq_check 0) (go_to 2 deq_load two)))

abbrev four : System
four = cas_head 2 0 1 (deq_check 1) (
    miss 2 0 (deq_swing 0 1) (
      go_to 2 (deq_again 0 1) (
        miss 2 0 (deq_next 0)
          (go_to 2 (deq_seg 0) (go_to 2 (deq_check 0) (go_to 2 deq_load three))))))

abbrev five : System
five = dequeued 2 6 1 (go_to 2 (deq_seg 1) four)

three-Reach : Reach three
unfolding go_to enqueued refuse link cas_tail dequeued ℕ_discrete
three-Reach =
    later
      (later (later (later two-Reach (begin_dequeue 2 refl)) (load_head 2 refl))
        (head_same 2 0 refl refl))
      (seg_item 2 5 0 refl)

four-Reach : Reach four
unfolding go_to enqueued refuse link cas_tail dequeued miss cas_head ℕ_discrete
four-Reach =
    later
      (later
        (later
          (later
            (later (later (later three-Reach (begin_dequeue 2 refl)) (load_head 2 refl))
              (head_same 2 0 refl refl))
            (seg_none 2 0 refl))
          (found_next 2 0 1 refl refl))
        (again_none 2 0 1 refl))
      (head_swung 2 0 1 refl refl)

five-Reach : Reach five
unfolding go_to enqueued refuse link cas_tail dequeued miss cas_head ℕ_discrete
five-Reach = later (later four-Reach (head_same 2 1 refl refl)) (seg_item 2 6 1 refl)

Reach-IsOrdered_example : IsOrdered five.trace
Reach-IsOrdered_example = Reach-IsOrdered five-Reach

Reach-list_example :
    (five.head ≤ five.last)
    × (five.tail ≤ five.last)
    × ((k : ℕ) → k < five.last → five.next k ≡ some (k + 1))
    × (five.next five.last ≡ none)
Reach-list_example = Reach-list five-Reach
