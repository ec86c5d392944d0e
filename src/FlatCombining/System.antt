-- ===== src/FlatCombining/System.antt =====
-- Threads that call `enqueue` and `dequeue` of include/fcqueue.hpp, interleaved in any order. A step
-- is one access to the lock or to an `opcode`, with the accesses to the slot's other fields that it
-- orders: a thread writes those before it stores an opcode and reads them after it has seen `Done`,
-- and the combiner touches them in between.
pub mod History
pub mod Local
pub mod Moves
pub mod Service
pub mod Safety
mod Tests
use ispass2026_concurrent_qu.Common.{
  ℕ, ◌+◌, ◌≤◌, ◌<◌, ◌≡◌, ◌≢◌, Bool, true, false, List, [], ◌∷◌, ◌++◌, Option, none, some, update,
}
use ispass2026_concurrent_qu.Fairness.Log.{LogRecord}
use ispass2026_concurrent_qu.FlatCombining.Slot.{
  Opcode, FcNode, Operation, publish_enqueue, publish_dequeue, pushed_node, serve, log_record,
}

-- Which operation a thread is in.
pub data Mode : Type 0 where
  enq deq : Mode

pub data Pc : Type 0 where
  idle : Pc  -- outside the queue
  waiting : Mode → Pc  -- before `try_lock`
  checking : Mode → Pc  -- before the load of its own opcode
  scanning : Mode → ℕ → Pc  -- in `scan_combine_apply`, at this slot
  finishing : Pc  -- behind the loop of `dequeue`

-- An operation takes effect: a node is pushed, or is popped, or the queue is found empty.
pub data Event : Type 0 where
  push : ℕ → FcNode → Event
  pop : ℕ → Option FcNode → Event

-- `log` is `fc_tls_log` of each thread. `trace` (the newest event first), `calls` (the calls begun by
-- each thread) and `returned` (the last result of each thread's `dequeue`) are observations only.
pub record System : Type 0 where
  pub slots : ℕ → Operation
  pub q : List FcNode
  pub lock : Option ℕ
  pub pc : ℕ → Pc
  pub clock : ℕ
  pub log : ℕ → List LogRecord
  pub trace : List Event
  pub calls : ℕ → ℕ
  pub returned : ℕ → Option ℕ

-- The event of a round of the scan, if it serves somebody.
event_of : Opcode → ℕ → ℕ → Operation → List FcNode → List Event
event_of Opcode.done j t slot q = []
event_of Opcode.enqueue j t slot q = push j (pushed_node t slot) ∷ []
event_of Opcode.dequeue j t slot [] = pop j none ∷ []
event_of Opcode.dequeue j t slot (n ∷ q) = pop j (some n) ∷ []

unfoldable pub serve_event : ℕ → ℕ → Operation → List FcNode → List Event
unfolding event_of pushed_node
serve_event j t slot q = event_of slot.opcode j t slot q

-- Behind the loops: `enqueue` returns, `dequeue` goes on to read its slot.
abbrev pub leave : Mode → Pc
leave enq = idle
leave deq = finishing

unfoldable pub call_enqueue : ℕ → ℕ → ℕ → System → System
unfolding publish_enqueue
call_enqueue i t item s = record s {
  slots = update s.slots i (publish_enqueue t item (s.slots i));
  pc = update s.pc i (waiting enq);
  clock = t;
  calls = update s.calls i (s.calls i + 1);
}

unfoldable pub call_dequeue : ℕ → ℕ → System → System
unfolding publish_dequeue
call_dequeue i t s = record s {
  slots = update s.slots i (publish_dequeue t (s.slots i));
  pc = update s.pc i (waiting deq);
  clock = t;
  calls = update s.calls i (s.calls i + 1);
}

unfoldable pub lock_ok : ℕ → Mode → System → System
lock_ok i m s = record s { lock = some i; pc = update s.pc i (scanning m 0) }

unfoldable pub go_to : ℕ → Pc → System → System
go_to i p s = record s { pc = update s.pc i p }

-- Thread `i` serves slot `j`.
unfoldable pub scan_slot : ℕ → Mode → ℕ → ℕ → System → System
unfolding serve serve_event
scan_slot i m j t s =
    let (slot, q) = serve t (s.slots j) s.q in
    record s {
      slots = update s.slots j slot;
      q = q;
      pc = update s.pc i (scanning m (j + 1));
      clock = t;
      trace = serve_event j t (s.slots j) s.q ++ s.trace;
    }

unfoldable pub unlock : ℕ → Mode → System → System
unlock i m s = record s { lock = none; pc = update s.pc i (leave m) }

-- The end of `dequeue`: on success `*out` is set and a record logged.
finish_slot : Bool → ℕ → System → System
finish_slot true i s = record s {
  pc = update s.pc i idle;
  log = update s.log i (s.log i ++ log_record (s.slots i) ∷ []);
  returned = update s.returned i (some (s.slots i).node.value);
}
finish_slot false i s = record s { pc = update s.pc i idle; returned = update s.returned i none }

unfoldable pub finish_dequeue : ℕ → System → System
unfolding finish_slot log_record
finish_dequeue i s = finish_slot (s.slots i).success i s

-- One step of thread `i` of `n`. `now()` never goes back; `try_lock` may fail for no reason.
pub data Step (n : ℕ) (s : System) : System → Type 0 where
  begin_enqueue :
      (i t item : ℕ) → i < n → s.clock ≤ t → s.pc i ≡ idle → Step n s (call_enqueue i t item s)
  begin_dequeue : (i t : ℕ) → i < n → s.clock ≤ t → s.pc i ≡ idle → Step n s (call_dequeue i t s)
  locked : (i : ℕ) (m : Mode) → s.pc i ≡ waiting m → s.lock ≡ none → Step n s (lock_ok i m s)
  busy : (i : ℕ) (m : Mode) → s.pc i ≡ waiting m → Step n s (go_to i (checking m) s)
  served :
      (i : ℕ) (m : Mode)
      → s.pc i ≡ checking m
      → (s.slots i).opcode ≡ Opcode.done
      → Step n s (go_to i (leave m) s)
  again :
      (i : ℕ) (m : Mode)
      → s.pc i ≡ checking m
      → (s.slots i).opcode ≢ Opcode.done
      → Step n s (go_to i (waiting m) s)
  scan :
      (i : ℕ) (m : Mode) (j t : ℕ)
      → s.pc i ≡ scanning m j
      → j < n
      → s.clock ≤ t
      → Step n s (scan_slot i m j t s)
  scanned : (i : ℕ) (m : Mode) (j : ℕ) → s.pc i ≡ scanning m j → n ≤ j → Step n s (unlock i m s)
  finish : (i : ℕ) → s.pc i ≡ finishing → Step n s (finish_dequeue i s)

abbrev no_node : FcNode
no_node = record { value = 0; enq_inv_ts = 0; enq_lin_ts = 0; deq_inv_ts = 0; deq_lin_ts = 0 }

-- The constructor: every slot is free and the queue empty.
abbrev pub init : System
init = record {
  slots = λ i. record { opcode = Opcode.done; node = no_node; success = false };
  q = [];
  lock = none;
  pc = λ i. idle;
  clock = 0;
  log = λ i. [];
  trace = [];
  calls = λ i. 0;
  returned = λ i. none;
}

pub data Reach (n : ℕ) : System → Type 0 where
  start : Reach n init
  later : {s t : System} → Reach n s → Step n s t → Reach n t
