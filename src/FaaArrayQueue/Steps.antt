-- ===== src/FaaArrayQueue/Steps.antt =====
-- The steps of `enqueue` and `dequeue` of include/FAAArrayQueue.hpp, one shared access each, for any
-- number of threads. Hazard pointers keep every node that a thread may still read, so that no node
-- is freed or named anew here; `protect` returns what its last load of the pointer gave. A call with
-- a null item throws before its first access. The loop in which `dequeue` waits for a slot only
-- reads, and is no step.
use ispass2026_concurrent_qu.Common.{
  ℕ, ◌+◌, ◌≤◌, ◌<◌, ◌≡◌, ◌≢◌, [], ◌∷◌, Option, none, some, update,
}
use ispass2026_concurrent_qu.FaaArrayQueue.{
  empty, item, taken, Pc, idle, enq_load, enq_fetch, enq_full, enq_next, enq_new, enq_help,
  enq_stamp_new, enq_tail, enq_cas, enq_stamp, deq_load, deq_fetch, deq_drained, deq_head, deq_take,
  deq_stamp, deq_marker, deq_check, deq_next, deq_fix, push, pop, System, store,
}

unfoldable pub go_to : ℕ → Pc → System → System
go_to i p s = record s { pc = update s.pc i p }

unfoldable pub leave : ℕ → Option ℕ → System → System
leave i r s = record s { pc = update s.pc i idle; returned = update s.returned i r }

-- `fetch_add(1)` of an index of node `a`.
unfoldable pub fetch_enq : ℕ → ℕ → Pc → System → System
fetch_enq i a p s = record s { enqidx = update s.enqidx a (s.enqidx a + 1); pc = update s.pc i p }

unfoldable pub fetch_deq : ℕ → ℕ → Pc → System → System
fetch_deq i a p s = record s { deqidx = update s.deqidx a (s.deqidx a + 1); pc = update s.pc i p }

-- A compare-exchange of `enqidx` succeeds.
unfoldable pub set_enq : ℕ → ℕ → ℕ → System → System
set_enq i a n s = record s {
  enqidx = update s.enqidx a n;
  pc = update s.pc i idle;
  returned = update s.returned i none;
}

unfoldable pub cas_tail : ℕ → ℕ → Pc → System → System
cas_tail i b p s = record s { tail = b; pc = update s.pc i p }

unfoldable pub cas_head : ℕ → ℕ → System → System
cas_head i b s = record s { head = b; pc = update s.pc i deq_load }

unfoldable pub stamp_enq : ℕ → ℕ → ℕ → Pc → System → System
stamp_enq i x t p s = record s {
  clock = t;
  enq_lin_ts = update s.enq_lin_ts x t;
  pc = update s.pc i p;
}

unfoldable pub stamp_deq : ℕ → ℕ → ℕ → System → System
stamp_deq i x t s = record s {
  clock = t;
  deq_lin_ts = update s.deq_lin_ts x t;
  pc = update s.pc i idle;
  returned = update s.returned i (some x);
}

module _ (remap : ℕ → ℕ) (buffer_size : ℕ) where
  -- `new Node(x, …)` is linked behind `a`.
  unfoldable pub link : ℕ → ℕ → ℕ → System → System
  link i x a s = record s {
    deqidx = update s.deqidx (s.last + 1) 0;
    enqidx = update s.enqidx (s.last + 1) 1;
    next = update (update s.next (s.last + 1) none) a (some (s.last + 1));
    items = update s.items (s.last + 1) (update (λ c. empty) (remap 0) (item x));
    start_index_offset =
        update s.start_index_offset (s.last + 1) (s.start_index_offset a + buffer_size);
    last = s.last + 1;
    pc = update s.pc i (enq_stamp_new x a (s.last + 1));
    trace = push i x (s.last + 1) 0 ∷ s.trace;
  }

  -- The compare-exchange of a slot from null succeeds.
  unfoldable pub put : ℕ → ℕ → ℕ → ℕ → System → System
  put i x a c s = record s {
    items = store s.items a (remap c) (item x);
    pc = update s.pc i (enq_stamp x);
    trace = push i x a c ∷ s.trace;
  }

  -- The exchange of a slot with `taken` finds an item, or null.
  unfoldable pub take : ℕ → ℕ → ℕ → ℕ → System → System
  take i x a c s = record s {
    items = store s.items a (remap c) taken;
    pc = update s.pc i (deq_stamp x);
    trace = pop i x a c ∷ s.trace;
  }

  unfoldable pub spoil : ℕ → ℕ → ℕ → System → System
  spoil i a c s = record s {
    items = store s.items a (remap c) taken;
    pc = update s.pc i (deq_check a c);
  }

  pub data Step (s : System) : System → Type 0 where
    begin_enqueue : (i x : ℕ) → s.pc i ≡ idle → Step s (go_to i (enq_load x) s)
    load_tail : (i x : ℕ) → s.pc i ≡ enq_load x → Step s (go_to i (enq_fetch x s.tail) s)
    fetched_slot :
        (i x a : ℕ)
        → s.pc i ≡ enq_fetch x a
        → s.enqidx a < buffer_size
        → Step s (fetch_enq i a (enq_cas x a (s.enqidx a)) s)
    fetched_full :
        (i x a : ℕ)
        → s.pc i ≡ enq_fetch x a
        → buffer_size ≤ s.enqidx a
        → Step s (fetch_enq i a (enq_full x a) s)
    tail_moved : (i x a : ℕ) → s.pc i ≡ enq_full x a → a ≢ s.tail → Step s (go_to i (enq_load x) s)
    tail_same : (i x a : ℕ) → s.pc i ≡ enq_full x a → a ≡ s.tail → Step s (go_to i (enq_next x a) s)
    no_next :
        (i x a : ℕ) → s.pc i ≡ enq_next x a → s.next a ≡ none → Step s (go_to i (enq_new x a) s)
    has_next :
        (i x a b : ℕ)
        → s.pc i ≡ enq_next x a
        → s.next a ≡ some b
        → Step s (go_to i (enq_help x a b) s)
    linked : (i x a : ℕ) → s.pc i ≡ enq_new x a → s.next a ≡ none → Step s (link i x a s)
    not_linked :
        (i x a : ℕ) → s.pc i ≡ enq_new x a → s.next a ≢ none → Step s (go_to i (enq_load x) s)
    helped :
        (i x a b : ℕ) → s.pc i ≡ enq_help x a b → s.tail ≡ a → Step s (cas_tail i b (enq_load x) s)
    not_helped :
        (i x a b : ℕ) → s.pc i ≡ enq_help x a b → s.tail ≢ a → Step s (go_to i (enq_load x) s)
    stamped_new :
        (i x a b t : ℕ)
        → s.pc i ≡ enq_stamp_new x a b
        → s.clock ≤ t
        → Step s (stamp_enq i x t (enq_tail a b) s)
    swung : (i a b : ℕ) → s.pc i ≡ enq_tail a b → s.tail ≡ a → Step s (cas_tail i b idle s)
    not_swung : (i a b : ℕ) → s.pc i ≡ enq_tail a b → s.tail ≢ a → Step s (go_to i idle s)
    put_item :
        (i x a c : ℕ)
        → s.pc i ≡ enq_cas x a c
        → s.items a (remap c) ≡ empty
        → Step s (put i x a c s)
    put_fails :
        (i x a c : ℕ)
        → s.pc i ≡ enq_cas x a c
        → s.items a (remap c) ≢ empty
        → Step s (go_to i (enq_load x) s)
    stamped : (i x t : ℕ) → s.pc i ≡ enq_stamp x → s.clock ≤ t → Step s (stamp_enq i x t idle s)
    begin_dequeue : (i : ℕ) → s.pc i ≡ idle → Step s (go_to i deq_load s)
    load_head : (i : ℕ) → s.pc i ≡ deq_load → Step s (go_to i (deq_fetch s.head) s)
    claimed :
        (i a : ℕ)
        → s.pc i ≡ deq_fetch a
        → s.deqidx a < buffer_size
        → Step s (fetch_deq i a (deq_take a (s.deqidx a)) s)
    found_drained :
        (i a : ℕ)
        → s.pc i ≡ deq_fetch a
        → buffer_size ≤ s.deqidx a
        → Step s (fetch_deq i a (deq_drained a) s)
    found_end : (i a : ℕ) → s.pc i ≡ deq_drained a → s.next a ≡ none → Step s (leave i none s)
    found_next :
        (i a b : ℕ) → s.pc i ≡ deq_drained a → s.next a ≡ some b → Step s (go_to i (deq_head a b) s)
    head_swung : (i a b : ℕ) → s.pc i ≡ deq_head a b → s.head ≡ a → Step s (cas_head i b s)
    head_moved : (i a b : ℕ) → s.pc i ≡ deq_head a b → s.head ≢ a → Step s (go_to i deq_load s)
    took :
        (i x a c : ℕ)
        → s.pc i ≡ deq_take a c
        → s.items a (remap c) ≡ item x
        → Step s (take i x a c s)
    spoiled :
        (i a c : ℕ) → s.pc i ≡ deq_take a c → s.items a (remap c) ≡ empty → Step s (spoil i a c s)
    took_marker :
        (i a c : ℕ)
        → s.pc i ≡ deq_take a c
        → s.items a (remap c) ≡ taken
        → Step s (go_to i (deq_marker a c) s)
    stamped_taken : (i x t : ℕ) → s.pc i ≡ deq_stamp x → s.clock ≤ t → Step s (stamp_deq i x t s)
    more_slots :
        (i a c : ℕ) → s.pc i ≡ deq_check a c → c + 1 < s.enqidx a → Step s (go_to i (deq_fetch a) s)
    no_more_slots :
        (i a c : ℕ)
        → s.pc i ≡ deq_check a c
        → s.enqidx a ≤ c + 1
        → Step s (go_to i (deq_next a c (s.enqidx a)) s)
    more_nodes :
        (i a c t b : ℕ)
        → s.pc i ≡ deq_next a c t
        → s.next a ≡ some b
        → Step s (go_to i (deq_fetch a) s)
    no_more_nodes :
        (i a c t : ℕ)
        → s.pc i ≡ deq_next a c t
        → s.next a ≡ none
        → Step s (go_to i (deq_fix a c t) s)
    fixed : (i a c t : ℕ) → s.pc i ≡ deq_fix a c t → s.enqidx a ≡ t → Step s (set_enq i a (c + 1) s)
    not_fixed : (i a c t : ℕ) → s.pc i ≡ deq_fix a c t → s.enqidx a ≢ t → Step s (leave i none s)

-- The constructor: one node, with nothing in it.
abbrev pub init : System
init = record {
  deqidx = λ a. 0;
  enqidx = λ a. 0;
  next = λ a. none;
  items = λ a c. empty;
  start_index_offset = λ a. 0;
  last = 0;
  head = 0;
  tail = 0;
  pc = λ i. idle;
  clock = 0;
  enq_lin_ts = λ x. 0;
  deq_lin_ts = λ x. 0;
  trace = [];
  returned = λ i. none;
}

module _ (remap : ℕ → ℕ) (buffer_size : ℕ) where
  pub data Reach : System → Type 0 where
    start : Reach init
    later : {s t : System} → Reach s → Step remap buffer_size s t → Reach t
