-- ===== src/PrQueue/Updates.antt =====
-- What the accesses of `enqueue` and `dequeue` of include/LPRQueue.hpp write, with those of `closeSegment`
-- and `fixState` of include/LinkedRingQueue.hpp.
use ispass2026_concurrent_qu.Common.{ℕ, ◌+◌, true, false, ◌∷◌, none, some, update}
use ispass2026_concurrent_qu.PrQueue.{
  Word, word, plain, Val, empty, item, Pc, idle, enq_stamp, deq_stamp, push, pop, System,
}

unfoldable pub go_to : ℕ → Pc → System → System
go_to i p s = record s { pc = update s.pc i p }

-- The tail is fetched and found closed.
unfoldable pub refuse : ℕ → System → System
refuse i s = record s {
  tail = word s.tail.marked (s.tail.index + 1);
  pc = update s.pc i idle;
  refused = update s.refused i true;
}

-- `fixState` leaves the tail, and the dequeue finds nothing.
unfoldable pub dequeued_none : ℕ → System → System
dequeued_none i s = record s { pc = update s.pc i idle; returned = update s.returned i none }

unfoldable pub fetch_tail : ℕ → Pc → System → System
fetch_tail i p s = record s { tail = word s.tail.marked (s.tail.index + 1); pc = update s.pc i p }

unfoldable pub fetch_head : ℕ → Pc → System → System
fetch_head i p s = record s { head = s.head + 1; pc = update s.pc i p }

-- `closeSegment` succeeds, and the enqueue fails; `fixState` succeeds, and the dequeue finds nothing.
unfoldable pub close : ℕ → Word → System → System
close i w s = record s { tail = w; pc = update s.pc i idle; refused = update s.refused i true }

unfoldable pub fix : ℕ → ℕ → System → System
fix i h s = record s {
  tail = plain h;
  pc = update s.pc i idle;
  returned = update s.returned i none;
}

unfoldable pub stamp_enq : ℕ → ℕ → ℕ → System → System
stamp_enq i x t s = record s {
  clock = t;
  enq_lin_ts = update s.enq_lin_ts x t;
  pc = update s.pc i idle;
  refused = update s.refused i false;
}

unfoldable pub stamp_deq : ℕ → ℕ → ℕ → System → System
stamp_deq i x t s = record s {
  clock = t;
  deq_lin_ts = update s.deq_lin_ts x t;
  pc = update s.pc i idle;
  returned = update s.returned i (some x);
}

-- A compare-exchange of a cell's `val` or `idx` succeeds.
unfoldable pub set_val : ℕ → ℕ → Val → Pc → System → System
set_val i c v p s = record s { val = update s.val c v; pc = update s.pc i p }

unfoldable pub set_idx : ℕ → ℕ → Word → Pc → System → System
set_idx i c w p s = record s { idx = update s.idx c w; pc = update s.pc i p }

-- An item is put into a cell, or taken out.
unfoldable pub put : ℕ → ℕ → ℕ → ℕ → System → System
put i x t c s = record s {
  val = update s.val c (item x);
  pc = update s.pc i (enq_stamp x);
  trace = push i x t ∷ s.trace;
}

unfoldable pub take : ℕ → ℕ → ℕ → ℕ → System → System
take i x h c s = record s {
  val = update s.val c empty;
  pc = update s.pc i (deq_stamp x);
  trace = pop i x h ∷ s.trace;
}
