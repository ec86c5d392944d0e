-- ===== src/CrQueue/Solo.antt =====
-- A thread that runs alone finishes what it does.
use ispass2026_concurrent_qu.Common.{
  ℕ, ◌+◌, ◌≤◌, ◌≡◌, refl, sym, ap, ◌∙◌, false, none, some, ◌∷◌, arith, update_here,
}
use ispass2026_concurrent_qu.PrQueue.{word, plain}
use ispass2026_concurrent_qu.CrQueue.{
  idle, enq_fetch, enq_idx, enq_val, enq_cas, enq_stamp, deq_fetch, deq_idx, deq_val, deq_seen,
  deq_take, deq_stamp, push, pop, System,
}
use ispass2026_concurrent_qu.CrQueue.Updates.{
  go_to, fetch_tail, fetch_head, stamp_enq, stamp_deq, put, take,
}
use ispass2026_concurrent_qu.CrQueue.Steps.{
  slot, Step, begin_enqueue, ticket, load_idx, safe_null, put_item, stamped, begin_dequeue,
  head_ticket, load_deq_idx, load_val, found, took, stamped_taken,
}

module _ (remap : ℕ → ℕ) (size : ℕ) where
  pub data Run (s : System) : System → Type 0 where
    stop : Run s s
    go : {t u : System} → Run s t → Step remap size t u → Run s u

  Run-append : {s t u : System} → Run s t → Run t u → Run s u
  Run-append r stop = r
  Run-append r (go q st) = go (Run-append r q) st

  module _ (s : System) (i x : ℕ) (free : s.pc i ≡ idle) where
    -- The states of a dequeue that finds its item, and of an enqueue that finds its cell null.
    abbrev deq_state1 : System
    deq_state1 = go_to i deq_fetch s

    abbrev deq_state2 : System
    deq_state2 = fetch_head i (deq_idx s.head 0 (plain 0)) deq_state1

    abbrev deq_state3 : System
    deq_state3 = go_to i (deq_val s.head 0 (plain 0) (s.idx (slot remap size s.head))) deq_state2

    abbrev deq_state4 : System
    deq_state4 =
        go_to i
          (deq_seen s.head 0 (plain 0) (s.idx (slot remap size s.head))
            (s.val (slot remap size s.head)))
          deq_state3

    abbrev deq_state5 : System
    deq_state5 = go_to i (deq_take s.head 0 x (plain 0) (s.idx (slot remap size s.head))) deq_state4

    abbrev deq_state6 : System
    deq_state6 =
        take i x s.head (slot remap size s.head)
          (word (s.idx (slot remap size s.head)).marked (s.head + size)) deq_state5

    abbrev deq_state7 : System
    deq_state7 = stamp_deq i x s.clock deq_state6

    abbrev enq_state1 : System
    enq_state1 = go_to i (enq_fetch x 0) s

    abbrev enq_state2 : System
    enq_state2 = fetch_tail i (enq_idx x 0 s.tail.index) enq_state1

    abbrev enq_state3 : System
    enq_state3 =
        go_to i (enq_val x 0 s.tail.index (s.idx (slot remap size s.tail.index))) enq_state2

    abbrev enq_state4 : System
    enq_state4 =
        go_to i (enq_cas x 0 s.tail.index (s.idx (slot remap size s.tail.index))) enq_state3

    abbrev enq_state5 : System
    enq_state5 = put i x s.tail.index (slot remap size s.tail.index) enq_state4

    abbrev enq_state6 : System
    enq_state6 = stamp_enq i x s.clock enq_state5

    dequeue_alone :
        s.val (slot remap size s.head) ≡ some x
        → (s.idx (slot remap size s.head)).index ≡ s.head
        → Run s deq_state7
    unfolding go_to fetch_head take stamp_deq
    dequeue_alone item_there in_time =
        go
          (go
            (go
              (go
                (go
                  (go (go stop (begin_dequeue i free))
                    (head_ticket i (update_here s.pc i deq_fetch)))
                  (load_deq_idx i s.head 0 (plain 0)
                    (update_here deq_state1.pc i (deq_idx s.head 0 (plain 0)))))
                (load_val i s.head 0 (plain 0) (s.idx (slot remap size s.head)) (
                  update_here deq_state2.pc i
                    (deq_val s.head 0 (plain 0) (s.idx (slot remap size s.head))))))
              (found i s.head 0 x (plain 0) (s.idx (slot remap size s.head))
                (update_here deq_state3.pc i (
                    deq_seen s.head 0 (plain 0) (s.idx (slot remap size s.head))
                      (s.val (slot remap size s.head)))
                  ∙ ap (deq_seen s.head 0 (plain 0) (s.idx (slot remap size s.head))) item_there)
                in_time))
            (took i s.head 0 x (plain 0) (s.idx (slot remap size s.head))
              (update_here deq_state4.pc i
                (deq_take s.head 0 x (plain 0) (s.idx (slot remap size s.head))))
              (item_there, refl)))
          (stamped_taken i x s.clock (update_here deq_state5.pc i (deq_stamp x)) (omega arith))

    deq_state7_lem : (deq_state7.pc i ≡ idle) × (deq_state7.returned i ≡ some x)
    unfolding go_to fetch_head take stamp_deq
    deq_state7_lem = (update_here deq_state6.pc i idle, update_here s.returned i (some x))

    enqueue_alone :
        s.tail.marked ≡ false
        → s.val (slot remap size s.tail.index) ≡ none
        → (s.idx (slot remap size s.tail.index)).index ≤ s.tail.index
        → (s.idx (slot remap size s.tail.index)).marked ≡ false
        → Run s enq_state6
    unfolding go_to fetch_tail put stamp_enq
    enqueue_alone is_open null le safe =
        go
          (go
            (go
              (go
                (go (go stop (begin_enqueue i x free))
                  (ticket i x 0 (update_here s.pc i (enq_fetch x 0)) is_open))
                (load_idx i x 0 s.tail.index
                  (update_here enq_state1.pc i (enq_idx x 0 s.tail.index))))
              (safe_null i x 0 s.tail.index (s.idx (slot remap size s.tail.index))
                (update_here enq_state2.pc i
                  (enq_val x 0 s.tail.index (s.idx (slot remap size s.tail.index))))
                null le safe))
            (put_item i x 0 s.tail.index (s.idx (slot remap size s.tail.index))
              (update_here enq_state3.pc i
                (enq_cas x 0 s.tail.index (s.idx (slot remap size s.tail.index))))
              (null, refl)))
          (stamped i x s.clock (update_here enq_state4.pc i (enq_stamp x)) (omega arith))

    enq_state6_lem :
        (enq_state6.pc i ≡ idle)
        × (enq_state6.head ≡ s.head)
        × (enq_state6.val (slot remap size s.tail.index) ≡ some x)
        × (enq_state6.idx (slot remap size s.tail.index) ≡ plain s.tail.index)
    unfolding go_to fetch_tail put stamp_enq
    enq_state6_lem = (
      update_here enq_state5.pc i idle,
      refl,
      update_here s.val (slot remap size s.tail.index) (some x),
      update_here s.idx (slot remap size s.tail.index) (plain s.tail.index),
    )

  -- From a state in which a thread is idle, the ring is open and has given out as many head as tail
  -- tickets, and the cell of the next ticket is null, safe and not ahead of it, there is a run in which
  -- the thread puts an item in and takes it out again, with nothing else put in or taken out, and
  -- after which it is idle and has returned this item.
  pub enqueue_then_dequeue :
      (s : System) (i x : ℕ)
      → s.pc i ≡ idle
      → s.tail.marked ≡ false
      → s.head ≡ s.tail.index
      → s.val (slot remap size s.tail.index) ≡ none
      → (s.idx (slot remap size s.tail.index)).index ≤ s.tail.index
      → (s.idx (slot remap size s.tail.index)).marked ≡ false
      → (t : System) × Run s t
        × (t.pc i ≡ idle)
        × (t.returned i ≡ some x)
        × (t.trace ≡ pop i x s.head ∷ push i x s.tail.index ∷ s.trace)
  unfolding go_to fetch_tail fetch_head put take stamp_enq stamp_deq
  enqueue_then_dequeue s i x free is_open empty null le safe =
      let (ready, same, v, w) = enq_state6_lem s i x free in
      let t = enq_state6 s i x free in
      let at : t.head ≡ s.tail.index = same ∙ empty in
      (
        deq_state7 t i x ready,
        Run-append (enqueue_alone s i x free is_open null le safe) (
            dequeue_alone t i x ready (ap (λ n. t.val (slot remap size n)) at ∙ v)
              (ap (λ n. (t.idx (slot remap size n)).index) at ∙ ap (λ z. z.index) w ∙ sym at)),
        (deq_state7_lem t i x ready).0,
        (deq_state7_lem t i x ready).1,
        refl,
      )
