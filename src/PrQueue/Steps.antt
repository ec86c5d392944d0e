-- ===== src/PrQueue/Steps.antt =====
-- The steps of `enqueue` and `dequeue` of include/LPRQueue.hpp, with `closeSegment` and `fixState` of
-- include/LinkedRingQueue.hpp, one shared access each, for any number of threads.
use ispass2026_concurrent_qu.Common.{
  ℕ, ◌+◌, ◌%◌, ◌^◌, ◌≤◌, ◌<◌, ◌≡◌, ◌≢◌, ◌⊎◌, true, false, [], none,
}
use ispass2026_concurrent_qu.PrQueue.{
  Word, word, plain, Val, empty, item, bottom, idle, enq_fetch, enq_idx, enq_val, enq_head,
  enq_bottom, enq_idx_cas, enq_item, enq_reset, enq_full, enq_close, enq_stamp, deq_fetch, deq_idx,
  deq_val, deq_seen, deq_wait, deq_clear, deq_move, deq_again, deq_mark, deq_store, deq_stamp,
  deq_after, fix_tail, fix_head, fix_check, fix_cas, System,
}
use ispass2026_concurrent_qu.PrQueue.Updates.{
  go_to, refuse, dequeued_none, fetch_tail, fetch_head, close, fix, stamp_enq, stamp_deq, set_val,
  set_idx, put, take,
}

-- `val == nullptr || isBottom(val)`
pub data IsFree : Val → Type 0 where
  null : IsFree empty
  held : (j : ℕ) → IsFree (bottom j)

-- `unsafe || t < headticket + 1 || crq_closed || r > 4*1024`
abbrev pub GivesUp : ℕ → ℕ → Word → Word → Type 0
GivesUp h r last w =
    (w.marked ≡ true) ⊎ ((last.index < h + 1) ⊎ ((last.marked ≡ true) ⊎ (4096 < r)))

module _ (remap : ℕ → ℕ) (size : ℕ) where
  abbrev pub slot : ℕ → ℕ
  slot t = remap (t % size)

  pub data Step (s : System) : System → Type 0 where
    begin_enqueue : (i x : ℕ) → s.pc i ≡ idle → Step s (go_to i (enq_fetch x 0) s)
    closed : (i x n : ℕ) → s.pc i ≡ enq_fetch x n → s.tail.marked ≡ true → Step s (refuse i s)
    ticket :
        (i x n : ℕ)
        → s.pc i ≡ enq_fetch x n
        → s.tail.marked ≡ false
        → Step s (fetch_tail i (enq_idx x n s.tail.index) s)
    load_idx :
        (i x n t : ℕ) → s.pc i ≡ enq_idx x n t → Step s (go_to i (enq_val x n t (s.idx (slot t))) s)
    not_null :
        (i x n t : ℕ) (w : Word)
        → s.pc i ≡ enq_val x n t w
        → s.val (slot t) ≢ empty
        → Step s (go_to i (enq_full x n t) s)
    too_late :
        (i x n t : ℕ) (w : Word)
        → s.pc i ≡ enq_val x n t w
        → t < w.index
        → Step s (go_to i (enq_full x n t) s)
    safe_null :
        (i x n t : ℕ) (w : Word)
        → s.pc i ≡ enq_val x n t w
        → s.val (slot t) ≡ empty
        → w.index ≤ t
        → w.marked ≡ false
        → Step s (go_to i (enq_bottom x n t w) s)
    unsafe_null :
        (i x n t : ℕ) (w : Word)
        → s.pc i ≡ enq_val x n t w
        → s.val (slot t) ≡ empty
        → w.index ≤ t
        → w.marked ≡ true
        → Step s (go_to i (enq_head x n t w) s)
    head_behind :
        (i x n t : ℕ) (w : Word)
        → s.pc i ≡ enq_head x n t w
        → s.head ≤ t
        → Step s (go_to i (enq_bottom x n t w) s)
    head_ahead :
        (i x n t : ℕ) (w : Word)
        → s.pc i ≡ enq_head x n t w
        → t < s.head
        → Step s (go_to i (enq_full x n t) s)
    put_bottom :
        (i x n t : ℕ) (w : Word)
        → s.pc i ≡ enq_bottom x n t w
        → s.val (slot t) ≡ empty
        → Step s (set_val i (slot t) (bottom i) (enq_idx_cas x n t w) s)
    no_bottom :
        (i x n t : ℕ) (w : Word)
        → s.pc i ≡ enq_bottom x n t w
        → s.val (slot t) ≢ empty
        → Step s (go_to i (enq_full x n t) s)
    put_idx :
        (i x n t : ℕ) (w : Word)
        → s.pc i ≡ enq_idx_cas x n t w
        → s.idx (slot t) ≡ w
        → Step s (set_idx i (slot t) (plain (t + size)) (enq_item x n t) s)
    no_idx :
        (i x n t : ℕ) (w : Word)
        → s.pc i ≡ enq_idx_cas x n t w
        → s.idx (slot t) ≢ w
        → Step s (go_to i (enq_reset x n t) s)
    put_item :
        (i x n t : ℕ)
        → s.pc i ≡ enq_item x n t
        → s.val (slot t) ≡ bottom i
        → Step s (put i x t (slot t) s)
    no_item :
        (i x n t : ℕ)
        → s.pc i ≡ enq_item x n t
        → s.val (slot t) ≢ bottom i
        → Step s (go_to i (enq_full x n t) s)
    reset :
        (i x n t : ℕ)
        → s.pc i ≡ enq_reset x n t
        → s.val (slot t) ≡ bottom i
        → Step s (set_val i (slot t) empty (enq_full x n t) s)
    no_reset :
        (i x n t : ℕ)
        → s.pc i ≡ enq_reset x n t
        → s.val (slot t) ≢ bottom i
        → Step s (go_to i (enq_full x n t) s)
    ring_full :
        (i x n t : ℕ)
        → s.pc i ≡ enq_full x n t
        → s.head + size ≤ t
        → Step s (go_to i (enq_close x (n + 1) t) s)
    ring_open :
        (i x n t : ℕ)
        → s.pc i ≡ enq_full x n t
        → t < s.head + size
        → Step s (go_to i (enq_fetch x n) s)
    close_ok :
        (i x n t : ℕ)
        → s.pc i ≡ enq_close x n t
        → n ≤ 10
        → s.tail ≡ plain (t + 1)
        → Step s (close i (word true (t + 1)) s)
    close_fails :
        (i x n t : ℕ)
        → s.pc i ≡ enq_close x n t
        → n ≤ 10
        → s.tail ≢ plain (t + 1)
        → Step s (go_to i (enq_fetch x n) s)
    force_ok :
        (i x n t : ℕ)
        → s.pc i ≡ enq_close x n t
        → 10 < n
        → s.tail.marked ≡ false
        → Step s (close i (word true s.tail.index) s)
    force_late :
        (i x n t : ℕ)
        → s.pc i ≡ enq_close x n t
        → 10 < n
        → s.tail.marked ≡ true
        → Step s (go_to i (enq_fetch x n) s)
    stamped : (i x t : ℕ) → s.pc i ≡ enq_stamp x → s.clock ≤ t → Step s (stamp_enq i x t s)
    begin_dequeue : (i : ℕ) → s.pc i ≡ idle → Step s (go_to i deq_fetch s)
    head_ticket :
        (i : ℕ) → s.pc i ≡ deq_fetch → Step s (fetch_head i (deq_idx s.head 0 (plain 0)) s)
    load_deq_idx :
        (i h r : ℕ) (last : Word)
        → s.pc i ≡ deq_idx h r last
        → Step s (go_to i (deq_val h r last (s.idx (slot h))) s)
    load_val :
        (i h r : ℕ) (last w : Word)
        → s.pc i ≡ deq_val h r last w
        → Step s (go_to i (deq_seen h r last w (s.val (slot h))) s)
    passed :
        (i h r : ℕ) (last w : Word) (v : Val)
        → s.pc i ≡ deq_seen h r last w v
        → h + size < w.index
        → Step s (go_to i (deq_after h) s)
    found :
        (i h r x : ℕ) (last w : Word)
        → s.pc i ≡ deq_seen h r last w (item x)
        → w.index ≡ h + size
        → Step s (go_to i (deq_store h x) s)
    old_unsafe :
        (i h r x : ℕ) (last w : Word)
        → s.pc i ≡ deq_seen h r last w (item x)
        → w.index < h + size
        → w.marked ≡ true
        → Step s (go_to i (deq_again h r last w) s)
    old_safe :
        (i h r x : ℕ) (last w : Word)
        → s.pc i ≡ deq_seen h r last w (item x)
        → w.index < h + size
        → w.marked ≡ false
        → Step s (go_to i (deq_mark h r last w) s)
    again_same :
        (i h r : ℕ) (last w : Word)
        → s.pc i ≡ deq_again h r last w
        → s.idx (slot h) ≡ w
        → Step s (go_to i (deq_after h) s)
    again_changed :
        (i h r : ℕ) (last w : Word)
        → s.pc i ≡ deq_again h r last w
        → s.idx (slot h) ≢ w
        → Step s (go_to i (deq_idx h r last) s)
    marked :
        (i h r : ℕ) (last w : Word)
        → s.pc i ≡ deq_mark h r last w
        → s.idx (slot h) ≡ w
        → Step s (set_idx i (slot h) (word true w.index) (deq_after h) s)
    not_marked :
        (i h r : ℕ) (last w : Word)
        → s.pc i ≡ deq_mark h r last w
        → s.idx (slot h) ≢ w
        → Step s (go_to i (deq_idx h r last) s)
    load_last :
        (i h r : ℕ) (last w : Word) (v : Val)
        → s.pc i ≡ deq_seen h r last w v
        → IsFree v
        → w.index ≤ h + size
        → r % 2 ^ 8 ≡ 0
        → Step s (go_to i (deq_wait h r s.tail w v) s)
    keep_last :
        (i h r : ℕ) (last w : Word) (v : Val)
        → s.pc i ≡ deq_seen h r last w v
        → IsFree v
        → w.index ≤ h + size
        → r % 2 ^ 8 ≢ 0
        → Step s (go_to i (deq_wait h r last w v) s)
    wait_more :
        (i h r : ℕ) (last w : Word) (v : Val)
        → s.pc i ≡ deq_wait h r last w v
        → ¬ GivesUp h r last w
        → Step s (go_to i (deq_idx h (r + 1) last) s)
    give_up_null :
        (i h r : ℕ) (last w : Word)
        → s.pc i ≡ deq_wait h r last w empty
        → GivesUp h r last w
        → Step s (go_to i (deq_move h r last w) s)
    give_up_bottom :
        (i h r j : ℕ) (last w : Word)
        → s.pc i ≡ deq_wait h r last w (bottom j)
        → GivesUp h r last w
        → Step s (go_to i (deq_clear h r last w j) s)
    cleared :
        (i h r j : ℕ) (last w : Word)
        → s.pc i ≡ deq_clear h r last w j
        → s.val (slot h) ≡ bottom j
        → Step s (set_val i (slot h) empty (deq_move h r last w) s)
    not_cleared :
        (i h r j : ℕ) (last w : Word)
        → s.pc i ≡ deq_clear h r last w j
        → s.val (slot h) ≢ bottom j
        → Step s (go_to i (deq_idx h r last) s)
    moved :
        (i h r : ℕ) (last w : Word)
        → s.pc i ≡ deq_move h r last w
        → s.idx (slot h) ≡ w
        → Step s (set_idx i (slot h) (word w.marked (h + size)) (deq_after h) s)
    not_moved :
        (i h r : ℕ) (last w : Word)
        → s.pc i ≡ deq_move h r last w
        → s.idx (slot h) ≢ w
        → Step s (go_to i (deq_idx h (r + 1) last) s)
    stored : (i h x : ℕ) → s.pc i ≡ deq_store h x → Step s (take i x h (slot h) s)
    stamped_taken : (i x t : ℕ) → s.pc i ≡ deq_stamp x → s.clock ≤ t → Step s (stamp_deq i x t s)
    more_tickets :
        (i h : ℕ) → s.pc i ≡ deq_after h → h + 1 < s.tail.index → Step s (go_to i deq_fetch s)
    no_more_tickets :
        (i h : ℕ) → s.pc i ≡ deq_after h → s.tail.index ≤ h + 1 → Step s (go_to i fix_tail s)
    fix_load_tail : (i : ℕ) → s.pc i ≡ fix_tail → Step s (go_to i (fix_head s.tail) s)
    fix_load_head :
        (i : ℕ) (t : Word) → s.pc i ≡ fix_head t → Step s (go_to i (fix_check t s.head) s)
    fix_tail_moved :
        (i h : ℕ) (t : Word) → s.pc i ≡ fix_check t h → s.tail ≢ t → Step s (go_to i fix_tail s)
    fix_nothing :
        (i h : ℕ) (t : Word)
        → s.pc i ≡ fix_check t h
        → s.tail ≡ t
        → (t.marked ≡ true) ⊎ (h ≤ t.index)
        → Step s (dequeued_none i s)
    fix_needed :
        (i h : ℕ) (t : Word)
        → s.pc i ≡ fix_check t h
        → s.tail ≡ t
        → t.marked ≡ false
        → t.index < h
        → Step s (go_to i (fix_cas t h) s)
    fixed : (i h : ℕ) (t : Word) → s.pc i ≡ fix_cas t h → s.tail ≡ t → Step s (fix i h s)
    not_fixed :
        (i h : ℕ) (t : Word) → s.pc i ≡ fix_cas t h → s.tail ≢ t → Step s (go_to i fix_tail s)

-- `PRQueue(start)`: `idx0` is what the constructor writes into the cells.
abbrev pub init : (ℕ → ℕ) → ℕ → System
init idx0 start = record {
  head = start;
  tail = plain start;
  val = λ c. empty;
  idx = λ c. plain (idx0 c);
  pc = λ i. idle;
  clock = 0;
  enq_lin_ts = λ x. 0;
  deq_lin_ts = λ x. 0;
  trace = [];
  returned = λ i. none;
  refused = λ i. false;
}

module _ (remap : ℕ → ℕ) (size : ℕ) where
  pub data Reach (idx0 : ℕ → ℕ) (start : ℕ) : System → Type 0 where
    begin : Reach idx0 start (init idx0 start)
    later : {s t : System} → Reach idx0 start s → Step remap size s t → Reach idx0 start t
