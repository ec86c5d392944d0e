-- ===== src/PrQueue/Invariant.antt =====
-- The invariant holds in every reachable state, and what it says of the cells.
use ispass2026_concurrent_qu.Common.{ℕ, ◌+◌, ◌≤◌, ◌<◌, ◌≡◌, refl, arith}
use ispass2026_concurrent_qu.PrQueue.{empty, item, enq_full, System}
use ispass2026_concurrent_qu.PrQueue.Updates.{
  go_to, refuse, dequeued_none, fetch_tail, fetch_head, close, fix, stamp_enq, stamp_deq, set_val,
  set_idx, put, take,
}
use ispass2026_concurrent_qu.PrQueue.Steps.{
  slot, Step, init, Reach, begin, later, begin_enqueue, closed, ticket, load_idx, not_null,
  too_late, safe_null, unsafe_null, head_behind, head_ahead, put_bottom, no_bottom, put_idx, no_idx,
  put_item, no_item, reset, no_reset, ring_full, ring_open, close_ok, close_fails, force_ok,
  force_late, stamped, begin_dequeue, head_ticket, load_deq_idx, load_val, passed, found,
  old_unsafe, old_safe, again_same, again_changed, marked, not_marked, load_last, keep_last,
  wait_more, give_up_null, give_up_bottom, cleared, not_cleared, moved, not_moved, stored,
  stamped_taken, more_tickets, no_more_tickets, fix_load_tail, fix_load_head, fix_tail_moved,
  fix_nothing, fix_needed, fixed, not_fixed,
}
use ispass2026_concurrent_qu.PrQueue.Inv.{code, Pushed, view, Inv, Next}
use ispass2026_concurrent_qu.PrQueue.Keep.{
  Seen-now, known, stays, empty-Next, bottom-Next, put-Next, take-Next, clear-Next, put_idx-Next,
  mark-Next, move-Next,
}

module _ (remap : ℕ → ℕ) (size : ℕ) (pos : 0 < size) where
  Step-Next :
      {s t : System}
      → Inv remap size (view s)
      → Step remap size s t
      → Next remap size (view s) (view t)
  unfolding go_to refuse dequeued_none fetch_tail fetch_head close fix stamp_enq stamp_deq set_val
      set_idx put take
  Step-Next {s} v (begin_enqueue i x e) = stays remap size s v i _ refl tt
  Step-Next {s} v (closed i x n e f) = stays remap size s v i _ refl tt
  Step-Next {s} v (ticket i x n e f) = stays remap size s v i _ refl tt
  Step-Next {s} v (load_idx i x n t e) = stays remap size s v i _ refl (omega arith)
  Step-Next {s} v (not_null i x n t w e f) = stays remap size s v i _ refl tt
  Step-Next {s} v (too_late i x n t w e f) = stays remap size s v i _ refl tt
  Step-Next {s} v (safe_null i x n t w e f le m) =
      stays remap size s v i _ refl (known remap size s v i e, le)
  Step-Next {s} v (unsafe_null i x n t w e f le m) =
      stays remap size s v i _ refl (known remap size s v i e, le)
  Step-Next {s} v (head_behind i x n t w e le) =
      stays remap size s v i _ refl (known remap size s v i e)
  Step-Next {s} v (head_ahead i x n t w e lt) = stays remap size s v i _ refl tt
  Step-Next {s} v (put_bottom i x n t w e f) = bottom-Next remap size s v i x n t w e
  Step-Next {s} v (no_bottom i x n t w e f) = stays remap size s v i _ refl tt
  Step-Next {s} v (put_idx i x n t w e f) = put_idx-Next remap size s v i x n t w pos e f
  Step-Next {s} v (no_idx i x n t w e f) = stays remap size s v i _ refl tt
  Step-Next {s} v (put_item i x n t e f) = put-Next remap size s v i x n t e f
  Step-Next {s} v (no_item i x n t e f) = stays remap size s v i _ refl tt
  Step-Next {s} v (reset i x n t e f) =
      empty-Next remap size s v i (slot remap size t) empty (enq_full x n t) s.trace refl
        (λ y u q. q) refl tt
  Step-Next {s} v (no_reset i x n t e f) = stays remap size s v i _ refl tt
  Step-Next {s} v (ring_full i x n t e le) = stays remap size s v i _ refl tt
  Step-Next {s} v (ring_open i x n t e lt) = stays remap size s v i _ refl tt
  Step-Next {s} v (close_ok i x n t e le f) = stays remap size s v i _ refl tt
  Step-Next {s} v (close_fails i x n t e le f) = stays remap size s v i _ refl tt
  Step-Next {s} v (force_ok i x n t e lt f) = stays remap size s v i _ refl tt
  Step-Next {s} v (force_late i x n t e lt f) = stays remap size s v i _ refl tt
  Step-Next {s} v (stamped i x t e le) = stays remap size s v i _ refl tt
  Step-Next {s} v (begin_dequeue i e) = stays remap size s v i _ refl tt
  Step-Next {s} v (head_ticket i e) = stays remap size s v i _ refl tt
  Step-Next {s} v (load_deq_idx i h r last e) = stays remap size s v i _ refl (omega arith)
  Step-Next {s} v (load_val i h r last w e) = stays remap size s v i _ refl (
    known remap size s v i e,
    Seen-now remap size (view s) (slot remap size h) w (s.val (slot remap size h)) v
        (known remap size s v i e) refl,
  )
  Step-Next {s} v (passed i h r last w u e lt) = stays remap size s v i _ refl tt
  Step-Next {s} v (found i h r x last w e f) =
      stays remap size s v i _ refl
        (let (l, (q, (u, p, le))) = known remap size s v i e in (u, p, omega (arith, f, le)))
  Step-Next {s} v (old_unsafe i h r x last w e lt m) = stays remap size s v i _ refl tt
  Step-Next {s} v (old_safe i h r x last w e lt m) =
      stays remap size s v i _ refl (let (l, (q, b)) = known remap size s v i e in (l, q, m))
  Step-Next {s} v (again_same i h r last w e f) = stays remap size s v i _ refl tt
  Step-Next {s} v (again_changed i h r last w e f) = stays remap size s v i _ refl tt
  Step-Next {s} v (marked i h r last w e f) = mark-Next remap size s v i h r last w e f
  Step-Next {s} v (not_marked i h r last w e f) = stays remap size s v i _ refl tt
  Step-Next {s} v (load_last i h r last w u e f le q) =
      stays remap size s v i _ refl (let (l, b) = known remap size s v i e in (l, b, le))
  Step-Next {s} v (keep_last i h r last w u e f le q) =
      stays remap size s v i _ refl (let (l, b) = known remap size s v i e in (l, b, le))
  Step-Next {s} v (wait_more i h r last w u e f) = stays remap size s v i _ refl tt
  Step-Next {s} v (give_up_null i h r last w e f) =
      stays remap size s v i _ refl (known remap size s v i e)
  Step-Next {s} v (give_up_bottom i h r j last w e f) =
      stays remap size s v i _ refl (let (l, b, le) = known remap size s v i e in (l, le))
  Step-Next {s} v (cleared i h r j last w e f) = clear-Next remap size s v i h r j last w e
  Step-Next {s} v (not_cleared i h r j last w e f) = stays remap size s v i _ refl tt
  Step-Next {s} v (moved i h r last w e f) = move-Next remap size s v i h r last w e f
  Step-Next {s} v (not_moved i h r last w e f) = stays remap size s v i _ refl tt
  Step-Next {s} v (stored i h x e) = take-Next remap size s v i x h (slot remap size h)
  Step-Next {s} v (stamped_taken i x t e le) = stays remap size s v i _ refl tt
  Step-Next {s} v (more_tickets i h e lt) = stays remap size s v i _ refl tt
  Step-Next {s} v (no_more_tickets i h e le) = stays remap size s v i _ refl tt
  Step-Next {s} v (fix_load_tail i e) = stays remap size s v i _ refl tt
  Step-Next {s} v (fix_load_head i t e) = stays remap size s v i _ refl tt
  Step-Next {s} v (fix_tail_moved i h t e f) = stays remap size s v i _ refl tt
  Step-Next {s} v (fix_nothing i h t e f o) = stays remap size s v i _ refl tt
  Step-Next {s} v (fix_needed i h t e f m lt) = stays remap size s v i _ refl tt
  Step-Next {s} v (fixed i h t e f) = stays remap size s v i _ refl tt
  Step-Next {s} v (not_fixed i h t e f) = stays remap size s v i _ refl tt

  init-Inv : (idx0 : ℕ → ℕ) (start : ℕ) → Inv remap size (view (init idx0 start))
  init-Inv idx0 start = record { entries = λ c x e. absurd cc; guards = λ j. tt }

  module _ {idx0 : ℕ → ℕ} {start : ℕ} where
    pub Reach-Inv : {s : System} → Reach remap size idx0 start s → Inv remap size (view s)
    Reach-Inv begin = init-Inv idx0 start
    Reach-Inv (later r st) = (Step-Next (Reach-Inv r) st).inv

    -- In every reachable state, an item that a cell holds was put by an enqueuer whose ticket `u`
    -- belongs to this cell and is the cell's index less the ring's size.
    pub item_epoch :
        {s : System}
        → Reach remap size idx0 start s
        → (c x : ℕ) → s.val c ≡ item x
        → (u : ℕ) × (((s.idx c).index ≡ u + size) × Pushed x u s.trace × (slot remap size u ≡ c))
    item_epoch r = (Reach-Inv r).entries

    -- A step from a reachable state never takes the index of a cell back, nor the mark of an index
    -- that stays.
    pub cells_forward :
        {s t : System}
        → Reach remap size idx0 start s
        → Step remap size s t
        → (c : ℕ) → code (s.idx c) ≤ code (t.idx c)
    cells_forward r st = (Step-Next (Reach-Inv r) st).grows
