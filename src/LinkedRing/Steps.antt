-- ===== src/LinkedRing/Steps.antt =====
-- The steps of `enqueue` and `dequeue` of include/LinkedRingQueue.hpp, one access of the list or call
-- of a segment each, for any number of threads. The step of a call is its return. Hazard pointers keep
-- every segment that a thread may still call.
use ispass2026_concurrent_qu.Common.{ℕ, ◌+◌, ◌≡◌, ◌≢◌, [], ◌∷◌, none, some, update}
use ispass2026_concurrent_qu.LinkedRing.{
  idle, Pc, enq_load, enq_check, enq_next, enq_help, enq_seg, enq_start, enq_link, enq_tail,
  deq_load, deq_check, deq_seg, deq_next, deq_again, deq_swing, accepted, refused, linked, took,
  missed, left, System,
}

unfoldable pub go_to : ℕ → Pc → System → System
go_to i p s = record s { pc = update s.pc i p }

unfoldable pub cas_tail : ℕ → ℕ → Pc → System → System
cas_tail i b p s = record s { tail = b; pc = update s.pc i p }

unfoldable pub cas_head : ℕ → ℕ → ℕ → Pc → System → System
cas_head i a b p s = record s { head = b; pc = update s.pc i p; trace = left i a ∷ s.trace }

-- Segment `a` takes the item, or refuses it.
unfoldable pub enqueued : ℕ → ℕ → ℕ → System → System
enqueued i x a s = record s { pc = update s.pc i idle; trace = accepted i x a ∷ s.trace }

unfoldable pub refuse : ℕ → ℕ → ℕ → System → System
refuse i x a s = record s { pc = update s.pc i (enq_start x a); trace = refused i x a ∷ s.trace }

-- A new segment, of which `enqueue` was called with the item, is linked behind `a`.
unfoldable pub link : ℕ → ℕ → ℕ → System → System
link i x a s = record s {
  next = update (update s.next (s.last + 1) none) a (some (s.last + 1));
  last = s.last + 1;
  pc = update s.pc i (enq_tail a (s.last + 1));
  trace = linked i x (s.last + 1) ∷ s.trace;
}

-- A dequeue of segment `a` returns an item, or null.
unfoldable pub dequeued : ℕ → ℕ → ℕ → System → System
dequeued i x a s = record s {
  pc = update s.pc i idle;
  trace = took i x a ∷ s.trace;
  returned = update s.returned i (some x);
}

unfoldable pub miss : ℕ → ℕ → Pc → System → System
miss i a p s = record s { pc = update s.pc i p; trace = missed i a ∷ s.trace }

unfoldable pub return_none : ℕ → System → System
return_none i s = record s { pc = update s.pc i idle; returned = update s.returned i none }

pub data Step (s : System) : System → Type 0 where
  begin_enqueue : (i x : ℕ) → s.pc i ≡ idle → Step s (go_to i (enq_load x) s)
  load_tail : (i x : ℕ) → s.pc i ≡ enq_load x → Step s (go_to i (enq_check x s.tail) s)
  tail_same : (i x a : ℕ) → s.pc i ≡ enq_check x a → s.tail ≡ a → Step s (go_to i (enq_next x a) s)
  tail_moved :
      (i x a : ℕ) → s.pc i ≡ enq_check x a → s.tail ≢ a → Step s (go_to i (enq_check x s.tail) s)
  no_next : (i x a : ℕ) → s.pc i ≡ enq_next x a → s.next a ≡ none → Step s (go_to i (enq_seg x a) s)
  has_next :
      (i x a b : ℕ)
      → s.pc i ≡ enq_next x a
      → s.next a ≡ some b
      → Step s (go_to i (enq_help x a b) s)
  helped :
      (i x a b : ℕ) → s.pc i ≡ enq_help x a b → s.tail ≡ a → Step s (cas_tail i b (enq_check x b) s)
  not_helped :
      (i x a b : ℕ) → s.pc i ≡ enq_help x a b → s.tail ≢ a → Step s (go_to i (enq_load x) s)
  seg_accepted : (i x a : ℕ) → s.pc i ≡ enq_seg x a → Step s (enqueued i x a s)
  seg_refused : (i x a : ℕ) → s.pc i ≡ enq_seg x a → Step s (refuse i x a s)
  start_index : (i x a n : ℕ) → s.pc i ≡ enq_start x a → Step s (go_to i (enq_link x a n) s)
  link_ok : (i x a n : ℕ) → s.pc i ≡ enq_link x a n → s.next a ≡ none → Step s (link i x a s)
  not_linked :
      (i x a n b : ℕ)
      → s.pc i ≡ enq_link x a n
      → s.next a ≡ some b
      → Step s (go_to i (enq_check x b) s)
  swung : (i a b : ℕ) → s.pc i ≡ enq_tail a b → s.tail ≡ a → Step s (cas_tail i b idle s)
  not_swung : (i a b : ℕ) → s.pc i ≡ enq_tail a b → s.tail ≢ a → Step s (go_to i idle s)
  begin_dequeue : (i : ℕ) → s.pc i ≡ idle → Step s (go_to i deq_load s)
  load_head : (i : ℕ) → s.pc i ≡ deq_load → Step s (go_to i (deq_check s.head) s)
  head_same : (i a : ℕ) → s.pc i ≡ deq_check a → s.head ≡ a → Step s (go_to i (deq_seg a) s)
  head_moved : (i a : ℕ) → s.pc i ≡ deq_check a → s.head ≢ a → Step s (go_to i (deq_check s.head) s)
  seg_item : (i x a : ℕ) → s.pc i ≡ deq_seg a → Step s (dequeued i x a s)
  seg_none : (i a : ℕ) → s.pc i ≡ deq_seg a → Step s (miss i a (deq_next a) s)
  found_end : (i a : ℕ) → s.pc i ≡ deq_next a → s.next a ≡ none → Step s (return_none i s)
  found_next :
      (i a b : ℕ) → s.pc i ≡ deq_next a → s.next a ≡ some b → Step s (go_to i (deq_again a b) s)
  again_item : (i x a b : ℕ) → s.pc i ≡ deq_again a b → Step s (dequeued i x a s)
  again_none : (i a b : ℕ) → s.pc i ≡ deq_again a b → Step s (miss i a (deq_swing a b) s)
  head_swung :
      (i a b : ℕ) → s.pc i ≡ deq_swing a b → s.head ≡ a → Step s (cas_head i a b (deq_check b) s)
  head_lost :
      (i a b : ℕ) → s.pc i ≡ deq_swing a b → s.head ≢ a → Step s (go_to i (deq_check s.head) s)

abbrev pub init : System
init = record {
  next = λ k. none;
  last = 0;
  head = 0;
  tail = 0;
  pc = λ i. idle;
  trace = [];
  returned = λ i. none;
}

pub data Reach : System → Type 0 where
  start : Reach init
  later : {s t : System} → Reach s → Step s t → Reach t
