-- ===== src/FaaArrayQueue.antt =====
-- `FAAArrayQueue` of include/FAAArrayQueue.hpp: a list of nodes, each with an array of slots that
-- threads claim by fetch-and-add.
pub mod Steps
pub mod Inv
pub mod Frame
pub mod Slots
pub mod Claims
pub mod Link
pub mod Keep
pub mod Invariant
pub mod History
pub mod Order
pub mod Behind
pub mod During
pub mod Empty
mod Tests
use ispass2026_concurrent_qu.Common.{
  ℕ, ◌+◌, Bool, List, [], ◌∷◌, Option, none, some, ◌==◌, ◌&&◌, if◌then◌else◌, update,
}

-- A slot of `items`: null, an item, or the marker `taken`. An item is an address other than those.
pub data Cell : Type 0 where
  empty : Cell
  item : ℕ → Cell
  taken : Cell

-- Where a thread stands in `enqueue(x)` or `dequeue`, before the access that it makes next, with its
-- local variables: `a` is `ltail` or `lhead`, `b` a node behind it, `c` is `idx`.
pub data Pc : Type 0 where
  idle : Pc
  enq_load : (x : ℕ) → Pc
  enq_fetch : (x a : ℕ) → Pc
  enq_full : (x a : ℕ) → Pc
  enq_next : (x a : ℕ) → Pc
  enq_new : (x a : ℕ) → Pc
  enq_help : (x a b : ℕ) → Pc
  enq_stamp_new : (x a b : ℕ) → Pc
  enq_tail : (a b : ℕ) → Pc
  enq_cas : (x a c : ℕ) → Pc
  enq_stamp : (x : ℕ) → Pc
  deq_load : Pc
  deq_fetch : (a : ℕ) → Pc
  deq_drained : (a : ℕ) → Pc
  deq_head : (a b : ℕ) → Pc
  deq_take : (a c : ℕ) → Pc
  deq_stamp : (x : ℕ) → Pc
  deq_marker : (a c : ℕ) → Pc  -- has taken the marker itself for an item
  deq_check : (a c : ℕ) → Pc
  deq_next : (a c t : ℕ) → Pc
  deq_fix : (a c t : ℕ) → Pc

-- The effects, the newest first: thread `i` puts an item into slot `c` of node `a`, or takes it out.
pub data Event : Type 0 where
  push : (i x a c : ℕ) → Event
  pop : (i x a c : ℕ) → Event

-- The item that was put into a slot, and the one that was taken out.
abbrev pub put_at : List Event → ℕ → ℕ → Option ℕ
put_at [] k d = none
put_at (push i x a c ∷ tr) k d = if a == k && c == d then some x else put_at tr k d
put_at (pop i x a c ∷ tr) k d = put_at tr k d

abbrev pub got_at : List Event → ℕ → ℕ → Option ℕ
got_at [] k d = none
got_at (push i x a c ∷ tr) k d = got_at tr k d
got_at (pop i x a c ∷ tr) k d = if a == k && c == d then some x else got_at tr k d

-- The fields of a node are families: a node is named by the number of nodes that were linked before
-- it, from 0 to `last`. A new node that loses its compare-exchange is seen by no other thread, and
-- has no name. `trace` and `returned` are observations.
pub record System : Type 0 where
  pub deqidx : ℕ → ℕ
  pub enqidx : ℕ → ℕ
  pub next : ℕ → Option ℕ
  pub items : ℕ → ℕ → Cell
  pub start_index_offset : ℕ → ℕ
  pub last : ℕ
  pub head : ℕ
  pub tail : ℕ
  pub pc : ℕ → Pc
  pub clock : ℕ
  pub enq_lin_ts : ℕ → ℕ
  pub deq_lin_ts : ℕ → ℕ
  pub trace : List Event
  pub returned : ℕ → Option ℕ

-- A slot of a node is written.
abbrev pub store : (ℕ → ℕ → Cell) → ℕ → ℕ → Cell → ℕ → ℕ → Cell
store items a c v = update items a (update (items a) c v)
