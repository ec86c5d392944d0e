-- ===== src/PrQueue/Tests.antt =====
-- Runs of a ring of one cell, and the theorems there.
use ispass2026_concurrent_qu.Common.{
  ℕ, ◌+◌, ◌≤◌, ◌≡◌, refl, inl, inr, true, [], ◌∷◌, arith, ℕ_discrete,
}
use ispass2026_concurrent_qu.PrQueue.{
  word, plain, empty, item, bottom, enq_fetch, enq_idx, enq_val, enq_bottom, enq_idx_cas, enq_item,
  enq_full, enq_close, deq_fetch, deq_idx, deq_val, deq_seen, deq_wait, deq_clear, deq_move,
  deq_store, deq_after, fix_tail, fix_head, fix_check, fix_cas, push, pop, System,
}
use ispass2026_concurrent_qu.PrQueue.Updates.{
  go_to, refuse, dequeued_none, fetch_tail, fetch_head, close, fix, stamp_enq, stamp_deq, set_val,
  set_idx, put, take,
}
use ispass2026_concurrent_qu.PrQueue.Steps.{
  held, slot, init, Reach, begin, later, begin_enqueue, closed, ticket, load_idx, not_null,
  safe_null, put_bottom, put_idx, put_item, no_item, ring_full, ring_open, close_ok, begin_dequeue,
  head_ticket, load_deq_idx, load_val, found, load_last, give_up_bottom, cleared, moved, stored,
  no_more_tickets, fix_load_tail, fix_load_head, fix_needed, fixed,
}
use ispass2026_concurrent_qu.PrQueue.Inv.{code, Pushed}
use ispass2026_concurrent_qu.PrQueue.Invariant.{item_epoch, cells_forward}
use ispass2026_concurrent_qu.PrQueue.History.{IsFed, Reach-IsFed}
use ispass2026_concurrent_qu.PrQueue.Closed.{refused_means_closed, closed_for_good}

abbrev one_place : ℕ → ℕ
one_place c = 0

-- Thread 0 has reserved the cell with ticket 0 and moved its index, but not put its item yet.
abbrev reserved : System
reserved = set_idx 0 0 (plain 1) (enq_item 7 0 0) (
    set_val 0 0 (bottom 0) (enq_idx_cas 7 0 0 (plain 0)) (
      go_to 0 (enq_bottom 7 0 0 (plain 0)) (
        go_to 0 (enq_val 7 0 0 (plain 0))
          (fetch_tail 0 (enq_idx 7 0 0) (go_to 0 (enq_fetch 7 0) (init one_place 0))))))

reserved-Reach : Reach one_place 1 one_place 0 reserved
unfolding go_to refuse dequeued_none fetch_tail fetch_head close fix stamp_enq stamp_deq set_val
    set_idx put take ℕ_discrete
reserved-Reach =
    later
      (later
        (later
          (later (later (later begin (begin_enqueue 0 7 refl)) (ticket 0 7 0 refl refl))
            (load_idx 0 7 0 0 refl))
          (safe_null 0 7 0 0 (plain 0) refl refl (omega arith) refl))
        (put_bottom 0 7 0 0 (plain 0) refl refl))
      (put_idx 0 7 0 0 (plain 0) refl refl)

-- Thread 1 has head ticket 0 and has read the index.
abbrev stalled : System
stalled =
    go_to 1 (deq_val 0 0 (plain 0) (plain 1))
      (fetch_head 1 (deq_idx 0 0 (plain 0)) (go_to 1 deq_fetch reserved))

stalled-Reach : Reach one_place 1 one_place 0 stalled
unfolding go_to refuse dequeued_none fetch_tail fetch_head close fix stamp_enq stamp_deq set_val
    set_idx put take ℕ_discrete
stalled-Reach =
    later (later (later reserved-Reach (begin_dequeue 1 refl)) (head_ticket 1 refl))
      (load_deq_idx 1 0 0 (plain 0) refl)

-- Thread 2 has head ticket 1, gives up waiting and clears the reserved cell.
abbrev cleared_cell : System
cleared_cell = set_val 2 0 empty (deq_move 1 0 (plain 1) (plain 1)) (
    go_to 2 (deq_clear 1 0 (plain 1) (plain 1) 0) (
      go_to 2 (deq_wait 1 0 (plain 1) (plain 1) (bottom 0)) (
        go_to 2 (deq_seen 1 0 (plain 0) (plain 1) (bottom 0)) (
          go_to 2 (deq_val 1 0 (plain 0) (plain 1))
            (fetch_head 2 (deq_idx 1 0 (plain 0)) (go_to 2 deq_fetch stalled))))))

cleared_cell-Reach : Reach one_place 1 one_place 0 cleared_cell
unfolding go_to refuse dequeued_none fetch_tail fetch_head close fix stamp_enq stamp_deq set_val
    set_idx put take ℕ_discrete
cleared_cell-Reach =
    later
      (later
        (later
          (later
            (later (later (later stalled-Reach (begin_dequeue 2 refl)) (head_ticket 2 refl))
              (load_deq_idx 2 1 0 (plain 0) refl))
            (load_val 2 1 0 (plain 0) (plain 1) refl))
          (load_last 2 1 0 (plain 0) (plain 1) (bottom 0) refl (held 0) (omega arith) refl))
        (give_up_bottom 2 1 0 0 (plain 1) (plain 1) refl (inr (inl (omega arith)))))
      (cleared 2 1 0 0 (plain 1) (plain 1) refl refl)

-- It moves the index on and returns, after `fixState` has moved the tail to the head.
abbrev given_up : System
given_up = fix 2 2 (
    go_to 2 (fix_cas (plain 1) 2) (
      go_to 2 (fix_check (plain 1) 2) (
        go_to 2 (fix_head (plain 1))
          (go_to 2 fix_tail (set_idx 2 0 (plain 2) (deq_after 1) cleared_cell)))))

given_up-Reach : Reach one_place 1 one_place 0 given_up
unfolding go_to refuse dequeued_none fetch_tail fetch_head close fix stamp_enq stamp_deq set_val
    set_idx put take ℕ_discrete
given_up-Reach =
    later
      (later
        (later
          (later
            (later (later cleared_cell-Reach (moved 2 1 0 (plain 1) (plain 1) refl refl))
              (no_more_tickets 2 1 refl (omega arith)))
            (fix_load_tail 2 refl))
          (fix_load_head 2 (plain 1) refl))
        (fix_needed 2 2 (plain 1) refl refl refl (omega arith)))
      (fixed 2 2 (plain 1) refl refl)

-- Thread 0 finds the cell cleared, and puts its item into it with ticket 2.
abbrev placed : System
placed = put 0 7 2 0 (
    set_idx 0 0 (plain 3) (enq_item 7 0 2) (
      set_val 0 0 (bottom 0) (enq_idx_cas 7 0 2 (plain 2)) (
        go_to 0 (enq_bottom 7 0 2 (plain 2)) (
          go_to 0 (enq_val 7 0 2 (plain 2)) (
            fetch_tail 0 (enq_idx 7 0 2)
              (go_to 0 (enq_fetch 7 0) (go_to 0 (enq_full 7 0 0) given_up)))))))

placed-Reach : Reach one_place 1 one_place 0 placed
unfolding go_to refuse dequeued_none fetch_tail fetch_head close fix stamp_enq stamp_deq set_val
    set_idx put take ℕ_discrete
placed-Reach =
    later
      (later
        (later
          (later
            (later
              (later
                (later (later given_up-Reach (no_item 0 7 0 0 refl (λ e. cc)))
                  (ring_open 0 7 0 0 refl (omega arith)))
                (ticket 0 7 0 refl refl))
              (load_idx 0 7 0 2 refl))
            (safe_null 0 7 0 2 (plain 2) refl refl (omega arith) refl))
          (put_bottom 0 7 0 2 (plain 2) refl refl))
        (put_idx 0 7 0 2 (plain 2) refl refl))
      (put_item 0 7 0 2 refl refl)

-- Thread 3 has head ticket 2; it and thread 1, whose index is an old one, both read the item and
-- both take it.
abbrev taken_twice : System
taken_twice = take 1 7 0 0 (
    take 3 7 2 0 (
      go_to 1 (deq_store 0 7) (
        go_to 1 (deq_seen 0 0 (plain 0) (plain 1) (item 7)) (
          go_to 3 (deq_store 2 7) (
            go_to 3 (deq_seen 2 0 (plain 0) (plain 3) (item 7)) (
              go_to 3 (deq_val 2 0 (plain 0) (plain 3))
                (fetch_head 3 (deq_idx 2 0 (plain 0)) (go_to 3 deq_fetch placed))))))))

taken_twice-Reach : Reach one_place 1 one_place 0 taken_twice
unfolding go_to refuse dequeued_none fetch_tail fetch_head close fix stamp_enq stamp_deq set_val
    set_idx put take ℕ_discrete
taken_twice-Reach =
    later
      (later
        (later
          (later
            (later
              (later
                (later (later (later placed-Reach (begin_dequeue 3 refl)) (head_ticket 3 refl))
                  (load_deq_idx 3 2 0 (plain 0) refl))
                (load_val 3 2 0 (plain 0) (plain 3) refl))
              (found 3 2 0 7 (plain 0) (plain 3) refl refl))
            (load_val 1 0 0 (plain 0) (plain 1) refl))
          (found 1 0 0 7 (plain 0) (plain 1) refl refl))
        (stored 3 2 7 refl))
      (stored 1 0 7 refl)

-- Both takes are in the trace of a reachable state: one item is dequeued twice.
taken_twice_trace : taken_twice.trace ≡ pop 1 7 0 ∷ pop 3 7 2 ∷ push 0 7 2 ∷ []
unfolding take put fix go_to fetch_head fetch_tail set_val set_idx
taken_twice_trace = refl

-- Thread 6 finds the ring full and closes the segment.
abbrev full : System
full = close 6 (word true 2) (
    go_to 6 (enq_close 8 1 1) (
      go_to 6 (enq_full 8 0 1) (
        go_to 6 (enq_val 8 0 1 (plain 1))
          (fetch_tail 6 (enq_idx 8 0 1) (go_to 6 (enq_fetch 8 0) reserved)))))

full-Reach : Reach one_place 1 one_place 0 full
unfolding go_to refuse dequeued_none fetch_tail fetch_head close fix stamp_enq stamp_deq set_val
    set_idx put take ℕ_discrete
full-Reach =
    later
      (later
        (later
          (later (later (later reserved-Reach (begin_enqueue 6 8 refl)) (ticket 6 8 0 refl refl))
            (load_idx 6 8 0 1 refl))
          (not_null 6 8 0 1 (plain 1) refl (λ e. cc)))
        (ring_full 6 8 0 1 refl (omega arith)))
      (close_ok 6 8 1 1 refl (omega arith) refl)

-- Thread 7 is about to fetch the tail of the closed segment.
abbrev knocking : System
knocking = go_to 7 (enq_fetch 9 0) full

knocking-Reach : Reach one_place 1 one_place 0 knocking
unfolding go_to refuse dequeued_none fetch_tail fetch_head close fix stamp_enq stamp_deq set_val
    set_idx put take ℕ_discrete
knocking-Reach = later full-Reach (begin_enqueue 7 9 refl)

Reach-IsFed_example : IsFed taken_twice.trace
Reach-IsFed_example = Reach-IsFed one_place 1 (omega arith) taken_twice-Reach

item_epoch_example :
    (u : ℕ) × (((placed.idx 0).index ≡ u + 1) × Pushed 7 u placed.trace × (slot one_place 1 u ≡ 0))
unfolding go_to refuse dequeued_none fetch_tail fetch_head close fix stamp_enq stamp_deq set_val
    set_idx put take ℕ_discrete
item_epoch_example = item_epoch one_place 1 (omega arith) placed-Reach 0 7 refl

cells_forward_example :
    code (cleared_cell.idx 0) ≤ code ((set_idx 2 0 (plain 2) (deq_after 1) cleared_cell).idx 0)
unfolding go_to refuse dequeued_none fetch_tail fetch_head close fix stamp_enq stamp_deq set_val
    set_idx put take ℕ_discrete
cells_forward_example =
    cells_forward one_place 1 (omega arith) cleared_cell-Reach
      (moved 2 1 0 (plain 1) (plain 1) refl refl) 0

refused_means_closed_example : full.tail.marked ≡ true
unfolding go_to refuse dequeued_none fetch_tail fetch_head close fix stamp_enq stamp_deq set_val
    set_idx put take ℕ_discrete
refused_means_closed_example = refused_means_closed one_place 1 full-Reach 6 refl

closed_for_good_example :
    (knocking.tail.marked ≡ true → (refuse 7 knocking).tail.marked ≡ true)
    × (knocking.tail.index ≤ (refuse 7 knocking).tail.index)
unfolding go_to refuse dequeued_none fetch_tail fetch_head close fix stamp_enq stamp_deq set_val
    set_idx put take ℕ_discrete
closed_for_good_example = closed_for_good one_place 1 knocking-Reach (closed 7 9 0 refl refl)
