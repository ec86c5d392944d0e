-- ===== src/MsQueue.antt =====
-- `MSQueue` of include/msqueue.hpp: a linked queue, with head and tail moved by compare-exchange.
pub mod Steps
pub mod Chain
pub mod Frame
pub mod Linked
pub mod Link
pub mod Keep
pub mod Preserve
pub mod Invariant
pub mod Safety
pub mod During
pub mod Empty
mod Tests
use ispass2026_concurrent_qu.Common.{
  ℕ, ◌+◌, ◌%◌, ◌^◌, Bool, List, [], ◌∷◌, ◌++◌, Option, none, some, update, length, ◌==◌,
}
use ispass2026_concurrent_qu.Fairness.Log.{LogRecord}

-- `MSPointer`: an address or null, and a 32-bit counter.
pub record Pointer : Type 0 where
  pub ptr : Option ℕ
  pub count : ℕ

-- `MSPointer(p, c + 1)`, where `c` is the counter of another pointer.
abbrev pub counted : Option ℕ → Pointer → Pointer
counted p c = record { ptr = p; count = (c.count + 1) % 2 ^ 32 }

pub record MsNode : Type 0 where
  pub value : ℕ
  pub next : Pointer
  pub enq_inv_ts : ℕ
  pub enq_lin_ts : ℕ

-- Where a thread stands in `enqueue` or `dequeue`, before the access that it makes next, with its
-- local variables. The flag of `deq_check` is an observation: was the queue empty when `next` was
-- read?
pub data Pc : Type 0 where
  idle : Pc
  enq_load : (node : ℕ) → Pc
  enq_next : (node : ℕ) (cur_tail : Pointer) → Pc
  enq_check : (node : ℕ) (cur_tail next : Pointer) → Pc
  enq_link : (node : ℕ) (cur_tail next : Pointer) → Pc
  enq_help : (node : ℕ) (cur_tail next : Pointer) → Pc
  enq_stamp : (node : ℕ) (cur_tail : Pointer) → Pc
  enq_swing : (node : ℕ) (cur_tail : Pointer) → Pc
  deq_head : (inv : ℕ) → Pc
  deq_tail : (inv : ℕ) (cur_head : Pointer) → Pc
  deq_next : (inv : ℕ) (cur_head cur_tail : Pointer) → Pc
  deq_check : (inv : ℕ) (cur_head cur_tail next : Pointer) (saw_empty : Bool) → Pc
  deq_help : (inv : ℕ) (cur_tail next : Pointer) → Pc
  deq_read : (inv : ℕ) (cur_head next : Pointer) → Pc
  deq_swing : (inv : ℕ) (cur_head next : Pointer) (value enq_inv enq_lin : ℕ) → Pc
  deq_free : (cur_head : Pointer) (value : ℕ) → Pc

-- The effects, the newest first: a node is linked behind the last, or the head is moved.
pub data Event : Type 0 where
  push : ℕ → ℕ → Event
  pop : ℕ → ℕ → Event

-- The values pushed, and those popped, the oldest first.
abbrev pub pushes : List Event → List ℕ
pushes [] = []
pushes (push i v ∷ tr) = pushes tr ++ v ∷ []
pushes (pop i v ∷ tr) = pushes tr

abbrev pub pops : List Event → List ℕ
pops [] = []
pops (push i v ∷ tr) = pops tr
pops (pop i v ∷ tr) = pops tr ++ v ∷ []

-- As much has been popped as pushed.
abbrev pub drained : List Event → Bool
drained tr = length (pops tr) == length (pushes tr)

-- `used` marks the addresses that `new` has given out, `freed` those that `delete` took back. `trace`
-- and `returned` are observations.
pub record System : Type 0 where
  pub node : ℕ → MsNode
  pub used : ℕ → Bool
  pub freed : ℕ → Bool
  pub head : Pointer
  pub tail : Pointer
  pub pc : ℕ → Pc
  pub clock : ℕ
  pub enq_retries : ℕ
  pub log : ℕ → List LogRecord
  pub trace : List Event
  pub returned : ℕ → Option ℕ
