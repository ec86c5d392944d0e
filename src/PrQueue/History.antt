-- ===== src/PrQueue/History.antt =====
-- What dequeuers take.
use ispass2026_concurrent_qu.Common.{ℕ, ◌<◌, List, [], ◌∷◌}
use ispass2026_concurrent_qu.PrQueue.{Event, push, pop, System}
use ispass2026_concurrent_qu.PrQueue.Updates.{
  go_to, refuse, dequeued_none, fetch_tail, fetch_head, close, fix, stamp_enq, stamp_deq, set_val,
  set_idx, put, take,
}
use ispass2026_concurrent_qu.PrQueue.Steps.{
  Step, Reach, begin, later, begin_enqueue, closed, ticket, load_idx, not_null, too_late, safe_null,
  unsafe_null, head_behind, head_ahead, put_bottom, no_bottom, put_idx, no_idx, put_item, no_item,
  reset, no_reset, ring_full, ring_open, close_ok, close_fails, force_ok, force_late, stamped,
  begin_dequeue, head_ticket, load_deq_idx, load_val, passed, found, old_unsafe, old_safe,
  again_same, again_changed, marked, not_marked, load_last, keep_last, wait_more, give_up_null,
  give_up_bottom, cleared, not_cleared, moved, not_moved, stored, stamped_taken, more_tickets,
  no_more_tickets, fix_load_tail, fix_load_head, fix_tail_moved, fix_nothing, fix_needed, fixed,
  not_fixed,
}
use ispass2026_concurrent_qu.PrQueue.Inv.{PushedFrom, view, Inv}
use ispass2026_concurrent_qu.PrQueue.Keep.{known}
use ispass2026_concurrent_qu.PrQueue.Invariant.{Reach-Inv}

-- Each item that was taken with head ticket `h` had been put before, with tail ticket `h` or a later
-- one.
abbrev pub IsFed : List Event → Type 0
IsFed [] = Unit
IsFed (push i x t ∷ tr) = IsFed tr
IsFed (pop i x h ∷ tr) = PushedFrom x h tr × IsFed tr

module _ (remap : ℕ → ℕ) (size : ℕ) (pos : 0 < size) where
  Step-IsFed :
      {s t : System} → Inv remap size (view s) → Step remap size s t → IsFed s.trace → IsFed t.trace
  unfolding go_to refuse dequeued_none fetch_tail fetch_head close fix stamp_enq stamp_deq set_val
      set_idx put take
  Step-IsFed v (begin_enqueue i x e) k = k
  Step-IsFed v (closed i x n e f) k = k
  Step-IsFed v (ticket i x n e f) k = k
  Step-IsFed v (load_idx i x n t e) k = k
  Step-IsFed v (not_null i x n t w e f) k = k
  Step-IsFed v (too_late i x n t w e f) k = k
  Step-IsFed v (safe_null i x n t w e f le m) k = k
  Step-IsFed v (unsafe_null i x n t w e f le m) k = k
  Step-IsFed v (head_behind i x n t w e le) k = k
  Step-IsFed v (head_ahead i x n t w e lt) k = k
  Step-IsFed v (put_bottom i x n t w e f) k = k
  Step-IsFed v (no_bottom i x n t w e f) k = k
  Step-IsFed v (put_idx i x n t w e f) k = k
  Step-IsFed v (no_idx i x n t w e f) k = k
  Step-IsFed v (put_item i x n t e f) k = k
  Step-IsFed v (no_item i x n t e f) k = k
  Step-IsFed v (reset i x n t e f) k = k
  Step-IsFed v (no_reset i x n t e f) k = k
  Step-IsFed v (ring_full i x n t e le) k = k
  Step-IsFed v (ring_open i x n t e lt) k = k
  Step-IsFed v (close_ok i x n t e le f) k = k
  Step-IsFed v (close_fails i x n t e le f) k = k
  Step-IsFed v (force_ok i x n t e lt f) k = k
  Step-IsFed v (force_late i x n t e lt f) k = k
  Step-IsFed v (stamped i x t e le) k = k
  Step-IsFed v (begin_dequeue i e) k = k
  Step-IsFed v (head_ticket i e) k = k
  Step-IsFed v (load_deq_idx i h r last e) k = k
  Step-IsFed v (load_val i h r last w e) k = k
  Step-IsFed v (passed i h r last w u e lt) k = k
  Step-IsFed v (found i h r x last w e f) k = k
  Step-IsFed v (old_unsafe i h r x last w e lt m) k = k
  Step-IsFed v (old_safe i h r x last w e lt m) k = k
  Step-IsFed v (again_same i h r last w e f) k = k
  Step-IsFed v (again_changed i h r last w e f) k = k
  Step-IsFed v (marked i h r last w e f) k = k
  Step-IsFed v (not_marked i h r last w e f) k = k
  Step-IsFed v (load_last i h r last w u e f le q) k = k
  Step-IsFed v (keep_last i h r last w u e f le q) k = k
  Step-IsFed v (wait_more i h r last w u e f) k = k
  Step-IsFed v (give_up_null i h r last w e f) k = k
  Step-IsFed v (give_up_bottom i h r j last w e f) k = k
  Step-IsFed v (cleared i h r j last w e f) k = k
  Step-IsFed v (not_cleared i h r j last w e f) k = k
  Step-IsFed v (moved i h r last w e f) k = k
  Step-IsFed v (not_moved i h r last w e f) k = k
  Step-IsFed {s} v (stored i h x e) k = (known remap size s v i e, k)
  Step-IsFed v (stamped_taken i x t e le) k = k
  Step-IsFed v (more_tickets i h e lt) k = k
  Step-IsFed v (no_more_tickets i h e le) k = k
  Step-IsFed v (fix_load_tail i e) k = k
  Step-IsFed v (fix_load_head i t e) k = k
  Step-IsFed v (fix_tail_moved i h t e f) k = k
  Step-IsFed v (fix_nothing i h t e f o) k = k
  Step-IsFed v (fix_needed i h t e f m lt) k = k
  Step-IsFed v (fixed i h t e f) k = k
  Step-IsFed v (not_fixed i h t e f) k = k

  -- In every run, what a dequeuer takes was put into the ring before, by an enqueuer whose tail
  -- ticket is the dequeuer's head ticket or a later one: no item comes from nowhere, and none that
  -- was put with an earlier ticket is taken.
  pub Reach-IsFed :
      {idx0 : ℕ → ℕ} {start : ℕ} {s : System} → Reach remap size idx0 start s → IsFed s.trace
  Reach-IsFed begin = tt
  Reach-IsFed (later r st) = Step-IsFed (Reach-Inv remap size pos r) st (Reach-IsFed r)
