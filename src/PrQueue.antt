-- ===== src/PrQueue.antt =====
-- `PRQueue` of include/LPRQueue.hpp: a ring of cells that enqueuers and dequeuers claim by tickets.
pub mod Updates
pub mod Steps
pub mod Inv
pub mod Frame
pub mod Keep
pub mod Invariant
pub mod History
pub mod Closed
mod Tests
use ispass2026_concurrent_qu.Common.{ℕ, Bool, false, List, Option}

-- A 64-bit word with a mark in its top bit: the `idx` of a cell, marked unsafe, or the tail, marked
-- closed. Indices stay below 2 ^ 63.
pub record Word : Type 0 where
  pub marked : Bool
  pub index : ℕ

abbrev pub word : Bool → ℕ → Word
word m n = record { marked = m; index = n }

abbrev pub plain : ℕ → Word
plain n = word false n

-- A cell's `val`: null, an item (an even address), or the odd number that stands for a thread.
pub data Val : Type 0 where
  empty : Val
  item : ℕ → Val
  bottom : ℕ → Val

-- Where a thread stands in `enqueue(x)` or `dequeue`, before the access that it makes next, with its
-- local variables: `n` is `try_close`, `t` the tail ticket, `h` the head ticket, `w` the `idx` that
-- was read, `v` the `val` that was read.
pub data Pc : Type 0 where
  idle : Pc
  enq_fetch : (x n : ℕ) → Pc
  enq_idx : (x n t : ℕ) → Pc
  enq_val : (x n t : ℕ) (w : Word) → Pc
  enq_head : (x n t : ℕ) (w : Word) → Pc
  enq_bottom : (x n t : ℕ) (w : Word) → Pc
  enq_idx_cas : (x n t : ℕ) (w : Word) → Pc
  enq_item : (x n t : ℕ) → Pc
  enq_reset : (x n t : ℕ) → Pc
  enq_full : (x n t : ℕ) → Pc
  enq_close : (x n t : ℕ) → Pc
  enq_stamp : (x : ℕ) → Pc
  deq_fetch : Pc
  deq_idx : (h r : ℕ) (last : Word) → Pc
  deq_val : (h r : ℕ) (last w : Word) → Pc
  deq_seen : (h r : ℕ) (last w : Word) (v : Val) → Pc
  deq_wait : (h r : ℕ) (last w : Word) (v : Val) → Pc
  deq_clear : (h r : ℕ) (last w : Word) (j : ℕ) → Pc
  deq_move : (h r : ℕ) (last w : Word) → Pc
  deq_again : (h r : ℕ) (last w : Word) → Pc
  deq_mark : (h r : ℕ) (last w : Word) → Pc
  deq_store : (h x : ℕ) → Pc
  deq_stamp : (x : ℕ) → Pc
  deq_after : (h : ℕ) → Pc
  fix_tail : Pc
  fix_head : (t : Word) → Pc
  fix_check : (t : Word) (h : ℕ) → Pc
  fix_cas : (t : Word) (h : ℕ) → Pc

-- The effects, the newest first: thread `i` puts an item into the cell of its tail ticket, or takes
-- one out of the cell of its head ticket.
pub data Event : Type 0 where
  push : (i x t : ℕ) → Event
  pop : (i x h : ℕ) → Event

-- `trace`, `returned` and `refused` (an enqueue that returned false) are observations.
pub record System : Type 0 where
  pub head : ℕ
  pub tail : Word
  pub val : ℕ → Val
  pub idx : ℕ → Word
  pub pc : ℕ → Pc
  pub clock : ℕ
  pub enq_lin_ts : ℕ → ℕ
  pub deq_lin_ts : ℕ → ℕ
  pub trace : List Event
  pub returned : ℕ → Option ℕ
  pub refused : ℕ → Bool
