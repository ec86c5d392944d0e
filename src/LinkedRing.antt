-- ===== src/LinkedRing.antt =====
-- `LinkedRingQueue` of include/LinkedRingQueue.hpp: a list of segments, over any type of segment. A
-- call of a segment may have any result, as `PRQueue` and `CRQueue` let threads meet in it in any order;
-- what is said here is what the list itself keeps.
pub mod Steps
pub mod Inv
pub mod Order
mod Tests
use ispass2026_concurrent_qu.Common.{ℕ, ◌+◌, List, Option}

-- Where a thread stands in `enqueue(x)` or `dequeue`, before the access that it makes next: `a` is
-- `ltail` or `lhead`, `b` is `lnext`, `n` the start index of `newTail`.
pub data Pc : Type 0 where
  idle : Pc
  enq_load : (x : ℕ) → Pc
  enq_check : (x a : ℕ) → Pc
  enq_next : (x a : ℕ) → Pc
  enq_help : (x a b : ℕ) → Pc
  enq_seg : (x a : ℕ) → Pc
  enq_start : (x a : ℕ) → Pc
  enq_link : (x a n : ℕ) → Pc
  enq_tail : (a b : ℕ) → Pc
  deq_load : Pc
  deq_check : (a : ℕ) → Pc
  deq_seg : (a : ℕ) → Pc
  deq_next : (a : ℕ) → Pc
  deq_again : (a b : ℕ) → Pc
  deq_swing : (a b : ℕ) → Pc

-- The effects, the newest first: segment `k` takes or refuses the item of an enqueue, a new segment
-- `k` that was given the item is linked, a dequeue of segment `k` returns an item or null, and the head
-- moves on from segment `k`.
pub data Event : Type 0 where
  accepted : (i x k : ℕ) → Event
  refused : (i x k : ℕ) → Event
  linked : (i x k : ℕ) → Event
  took : (i x k : ℕ) → Event
  missed : (i k : ℕ) → Event
  left : (i k : ℕ) → Event

-- The segments are numbered in the order in which they were linked, up to `last`. `trace` and
-- `returned` are observations.
pub record System : Type 0 where
  pub next : ℕ → Option ℕ
  pub last : ℕ
  pub head : ℕ
  pub tail : ℕ
  pub pc : ℕ → Pc
  pub trace : List Event
  pub returned : ℕ → Option ℕ
