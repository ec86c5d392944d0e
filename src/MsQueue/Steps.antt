-- ===== src/MsQueue/Steps.antt =====
-- The steps of `enqueue` and `dequeue` of include/msqueue.hpp, one shared access each, for any
-- number of threads. `new` gives an address that it has not given before; a step that would follow a
-- pointer to a freed node is no step here, since the program is undefined from there on. The
-- compare-exchanges are weak ones: each may fail whatever it finds.
use ispass2026_concurrent_qu.Common.{
  ℕ, ◌+◌, ◌≤◌, ◌≡◌, ◌≢◌, Bool, true, false, [], ◌∷◌, ◌++◌, Option, none, some, update,
}
use ispass2026_concurrent_qu.MsQueue.{
  Pointer, counted, Pc, idle, enq_load, enq_next, enq_check, enq_link, enq_help, enq_stamp,
  enq_swing, deq_head, deq_tail, deq_next, deq_check, deq_help, deq_read, deq_swing, deq_free, push,
  pop, drained, System,
}

unfoldable pub go_to : ℕ → Pc → System → System
go_to i p s = record s { pc = update s.pc i p }

-- `new MSNode<T>(value)` at the address `a`; the stamp `junk` is not initialised.
unfoldable pub call_enqueue : ℕ → ℕ → ℕ → ℕ → ℕ → System → System
call_enqueue i t v a junk s = record s {
  node = update s.node a (record {
    value = v;
    next = record { ptr = none; count = 0 };
    enq_inv_ts = t;
    enq_lin_ts = junk;
  });
  used = update s.used a true;
  pc = update s.pc i (enq_load a);
  clock = t;
}

-- The compare-exchange of `cur_tail.ptr->next` succeeds: node `n` is linked behind `a`.
unfoldable pub link : ℕ → ℕ → ℕ → Pointer → Pointer → System → System
link i n a ct nx s = record s {
  node = update s.node a (record (s.node a) { next = counted (some n) nx });
  pc = update s.pc i (enq_stamp n ct);
  trace = push i (s.node n).value ∷ s.trace;
}

unfoldable pub link_fails : ℕ → ℕ → System → System
link_fails i n s = record s { pc = update s.pc i (enq_load n); enq_retries = s.enq_retries + 1 }

-- A compare-exchange of `tail` from `ct` succeeds.
unfoldable pub move_tail : ℕ → Option ℕ → Pointer → Pc → System → System
move_tail i p ct pc s = record s { tail = counted p ct; pc = update s.pc i pc }

unfoldable pub stamp : ℕ → ℕ → Pointer → ℕ → System → System
stamp i n ct t s = record s {
  node = update s.node n (record (s.node n) { enq_lin_ts = t });
  pc = update s.pc i (enq_swing n ct);
  clock = t;
}

unfoldable pub call_dequeue : ℕ → ℕ → System → System
call_dequeue i t s = record s { pc = update s.pc i (deq_head t); clock = t }

unfoldable pub return_false : ℕ → System → System
return_false i s = record s { pc = update s.pc i idle; returned = update s.returned i none }

-- The compare-exchange of `head` succeeds at time `t`; a record is logged.
unfoldable pub move_head : ℕ → ℕ → Pointer → Pointer → ℕ → ℕ → ℕ → ℕ → System → System
move_head i inv ch nx v enq_inv enq_lin t s = record s {
  head = counted nx.ptr ch;
  pc = update s.pc i (deq_free ch v);
  clock = t;
  log = update s.log i (s.log i ++ (enq_inv, enq_lin, inv, t) ∷ []);
  trace = pop i v ∷ s.trace;
}

-- `delete cur_head.ptr; return true;`
unfoldable pub free : ℕ → ℕ → ℕ → System → System
free i a v s = record s {
  freed = update s.freed a true;
  pc = update s.pc i idle;
  returned = update s.returned i (some v);
}

pub data Step (s : System) : System → Type 0 where
  begin_enqueue :
      (i t v a junk : ℕ)
      → s.clock ≤ t
      → s.used a ≡ false
      → s.pc i ≡ idle
      → Step s (call_enqueue i t v a junk s)
  load_tail : (i n : ℕ) → s.pc i ≡ enq_load n → Step s (go_to i (enq_next n s.tail) s)
  load_next :
      (i n a : ℕ) (ct : Pointer)
      → s.pc i ≡ enq_next n ct
      → ct.ptr ≡ some a
      → s.freed a ≡ false
      → Step s (go_to i (enq_check n ct (s.node a).next) s)
  tail_is_last :
      (i n : ℕ) (ct nx : Pointer)
      → s.pc i ≡ enq_check n ct nx
      → ct ≡ s.tail
      → nx.ptr ≡ none
      → Step s (go_to i (enq_link n ct nx) s)
  tail_is_behind :
      (i n b : ℕ) (ct nx : Pointer)
      → s.pc i ≡ enq_check n ct nx
      → ct ≡ s.tail
      → nx.ptr ≡ some b
      → Step s (go_to i (enq_help n ct nx) s)
  tail_moved :
      (i n : ℕ) (ct nx : Pointer)
      → s.pc i ≡ enq_check n ct nx
      → ct ≢ s.tail
      → Step s (go_to i (enq_load n) s)
  linked :
      (i n a : ℕ) (ct nx : Pointer)
      → s.pc i ≡ enq_link n ct nx
      → ct.ptr ≡ some a
      → s.freed a ≡ false
      → (s.node a).next ≡ nx
      → Step s (link i n a ct nx s)
  not_linked : (i n : ℕ) (ct nx : Pointer) → s.pc i ≡ enq_link n ct nx → Step s (link_fails i n s)
  helped :
      (i n : ℕ) (ct nx : Pointer)
      → s.pc i ≡ enq_help n ct nx
      → s.tail ≡ ct
      → Step s (move_tail i nx.ptr ct (enq_load n) s)
  not_helped :
      (i n : ℕ) (ct nx : Pointer) → s.pc i ≡ enq_help n ct nx → Step s (go_to i (enq_load n) s)
  stamped :
      (i n t : ℕ) (ct : Pointer)
      → s.pc i ≡ enq_stamp n ct
      → s.freed n ≡ false
      → s.clock ≤ t
      → Step s (stamp i n ct t s)
  swung :
      (i n : ℕ) (ct : Pointer)
      → s.pc i ≡ enq_swing n ct
      → s.tail ≡ ct
      → Step s (move_tail i (some n) ct idle s)
  not_swung : (i n : ℕ) (ct : Pointer) → s.pc i ≡ enq_swing n ct → Step s (go_to i idle s)
  begin_dequeue : (i t : ℕ) → s.clock ≤ t → s.pc i ≡ idle → Step s (call_dequeue i t s)
  load_head : (i inv : ℕ) → s.pc i ≡ deq_head inv → Step s (go_to i (deq_tail inv s.head) s)
  load_deq_tail :
      (i inv : ℕ) (ch : Pointer)
      → s.pc i ≡ deq_tail inv ch
      → Step s (go_to i (deq_next inv ch s.tail) s)
  load_deq_next :
      (i inv a : ℕ) (ch ct : Pointer)
      → s.pc i ≡ deq_next inv ch ct
      → ch.ptr ≡ some a
      → s.freed a ≡ false
      → Step s (go_to i (deq_check inv ch ct (s.node a).next (drained s.trace)) s)
  found_empty :
      (i inv : ℕ) (ch ct nx : Pointer) (saw : Bool)
      → s.pc i ≡ deq_check inv ch ct nx saw
      → ch ≡ s.head
      → ch.ptr ≡ ct.ptr
      → nx.ptr ≡ none
      → Step s (return_false i s)
  found_behind :
      (i inv b : ℕ) (ch ct nx : Pointer) (saw : Bool)
      → s.pc i ≡ deq_check inv ch ct nx saw
      → ch ≡ s.head
      → ch.ptr ≡ ct.ptr
      → nx.ptr ≡ some b
      → Step s (go_to i (deq_help inv ct nx) s)
  found_gap :
      (i inv : ℕ) (ch ct nx : Pointer) (saw : Bool)
      → s.pc i ≡ deq_check inv ch ct nx saw
      → ch ≡ s.head
      → ch.ptr ≢ ct.ptr
      → nx.ptr ≡ none
      → Step s (go_to i (deq_head inv) s)
  found_node :
      (i inv b : ℕ) (ch ct nx : Pointer) (saw : Bool)
      → s.pc i ≡ deq_check inv ch ct nx saw
      → ch ≡ s.head
      → ch.ptr ≢ ct.ptr
      → nx.ptr ≡ some b
      → Step s (go_to i (deq_read inv ch nx) s)
  head_moved :
      (i inv : ℕ) (ch ct nx : Pointer) (saw : Bool)
      → s.pc i ≡ deq_check inv ch ct nx saw
      → ch ≢ s.head
      → Step s (go_to i (deq_head inv) s)
  deq_helped :
      (i inv : ℕ) (ct nx : Pointer)
      → s.pc i ≡ deq_help inv ct nx
      → s.tail ≡ ct
      → Step s (move_tail i nx.ptr ct (deq_head inv) s)
  not_deq_helped :
      (i inv : ℕ) (ct nx : Pointer)
      → s.pc i ≡ deq_help inv ct nx
      → Step s (go_to i (deq_head inv) s)
  read :
      (i inv b : ℕ) (ch nx : Pointer)
      → s.pc i ≡ deq_read inv ch nx
      → nx.ptr ≡ some b
      → s.freed b ≡ false
      → Step s (
          go_to i
            (deq_swing inv ch nx (s.node b).value (s.node b).enq_inv_ts (s.node b).enq_lin_ts)
            s)
  taken :
      (i inv v enq_inv enq_lin t : ℕ) (ch nx : Pointer)
      → s.pc i ≡ deq_swing inv ch nx v enq_inv enq_lin
      → s.head ≡ ch
      → s.clock ≤ t
      → Step s (move_head i inv ch nx v enq_inv enq_lin t s)
  not_taken :
      (i inv v enq_inv enq_lin : ℕ) (ch nx : Pointer)
      → s.pc i ≡ deq_swing inv ch nx v enq_inv enq_lin
      → Step s (go_to i (deq_head inv) s)
  deleted :
      (i a v : ℕ) (ch : Pointer) → s.pc i ≡ deq_free ch v → ch.ptr ≡ some a → Step s (free i a v s)

-- The constructor: one dummy node, at address 0.
abbrev pub null : Pointer
null = record { ptr = none; count = 0 }

abbrev pub dummy : Pointer
dummy = record { ptr = some 0; count = 0 }

abbrev pub init : System
init = record {
  node = λ a. record { value = 0; next = null; enq_inv_ts = 0; enq_lin_ts = 0 };
  used = update (λ a. false) 0 true;
  freed = λ a. false;
  head = dummy;
  tail = dummy;
  pc = λ i. idle;
  clock = 0;
  enq_retries = 0;
  log = λ i. [];
  trace = [];
  returned = λ i. none;
}

pub data Reach : System → Type 0 where
  start : Reach init
  later : {s t : System} → Reach s → Step s t → Reach t
