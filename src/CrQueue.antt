-- ===== src/CrQueue.antt =====
-- `CRQueue` of include/LCRQueue.hpp: a ring of cells that are exchanged as a whole.
pub mod Updates
pub mod Steps
pub mod Inv
pub mod History
pub mod Solo
mod Tests
use ispass2026_concurrent_qu.Common.{ℕ, Bool, List, [], ◌∷◌, Option, none, some, update}
use ispass2026_concurrent_qu.PrQueue.{Word}

-- Where a thread stands in `enqueue(x)` or `dequeue`, before the access that it makes next, with its
-- local variables: `n` is `try_close`, `t` the tail ticket, `h` the head ticket, `w` the `idx` and
-- `v` the `val` that were read, `last` the tail that `dequeue` read last.
pub data Pc : Type 0 where
  idle : Pc
  enq_fetch : (x n : ℕ) → Pc
  enq_idx : (x n t : ℕ) → Pc
  enq_val : (x n t : ℕ) (w : Word) → Pc
  enq_head : (x n t : ℕ) (w : Word) → Pc
  enq_cas : (x n t : ℕ) (w : Word) → Pc
  enq_full : (x n t : ℕ) → Pc
  enq_close : (x n t : ℕ) → Pc
  enq_stamp : (x : ℕ) → Pc
  deq_fetch : Pc
  deq_idx : (h r : ℕ) (last : Word) → Pc
  deq_val : (h r : ℕ) (last w : Word) → Pc
  deq_seen : (h r : ℕ) (last w : Word) (v : Option ℕ) → Pc
  deq_take : (h r x : ℕ) (last w : Word) → Pc
  deq_mark : (h r x : ℕ) (last w : Word) → Pc
  deq_wait : (h r : ℕ) (last w : Word) → Pc
  deq_move : (h r : ℕ) (last w : Word) → Pc
  deq_stamp : (x : ℕ) → Pc
  deq_after : (h : ℕ) → Pc
  fix_tail : Pc
  fix_head : (t : Word) → Pc
  fix_check : (t : Word) (h : ℕ) → Pc
  fix_cas : (t : Word) (h : ℕ) → Pc

-- The effects, the newest first: thread `i` puts an item with its tail ticket, or takes one with its
-- head ticket.
pub data Event : Type 0 where
  push : (i x t : ℕ) → Event
  pop : (i x h : ℕ) → Event

-- The item that was put, or taken, with a ticket.
abbrev pub pushed : List Event → ℕ → Option ℕ
pushed [] u = none
pushed (push i x t ∷ tr) u = update (pushed tr) t (some x) u
pushed (pop i x h ∷ tr) u = pushed tr u

abbrev pub popped : List Event → ℕ → Option ℕ
popped [] u = none
popped (push i x t ∷ tr) u = popped tr u
popped (pop i x h ∷ tr) u = update (popped tr) h (some x) u

-- `trace`, `returned` and `refused` (an enqueue that returned false) are observations.
pub record System : Type 0 where
  pub head : ℕ
  pub tail : Word
  pub val : ℕ → Option ℕ
  pub idx : ℕ → Word
  pub pc : ℕ → Pc
  pub clock : ℕ
  pub enq_lin_ts : ℕ → ℕ
  pub deq_lin_ts : ℕ → ℕ
  pub trace : List Event
  pub returned : ℕ → Option ℕ
  pub refused : ℕ → Bool
