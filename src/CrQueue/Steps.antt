-- ===== src/CrQueue/Steps.antt =====
-- The steps of `enqueue` and `dequeue` of include/LCRQueue.hpp, with `closeSegment` and `fixState` of
-- include/LinkedRingQueue.hpp, one shared access each, for any number of threads. `CAS2` exchanges
-- the `val` and the `idx` of a cell together.
use ispass2026_concurrent_qu.Common.{
  ℕ, ◌+◌, ◌%◌, ◌^◌, ◌≤◌, ◌<◌, ◌≡◌, ◌≢◌, ◌⊎◌, true, false, [], Option, none, some,
}
use ispass2026_concurrent_qu.PrQueue.{Word, word, plain}
use ispass2026_concurrent_qu.CrQueue.{
  idle, enq_fetch, enq_idx, enq_val, enq_head, enq_cas, enq_full, enq_close, enq_stamp, deq_fetch,
  deq_idx, deq_val, deq_seen, deq_take, deq_mark, deq_wait, deq_move, deq_stamp, deq_after,
  fix_tail, fix_head, fix_check, fix_cas, System,
}
use ispass2026_concurrent_qu.CrQueue.Updates.{
  go_to, refuse, dequeued_none, fetch_tail, fetch_head, close, fix, stamp_enq, stamp_deq, set_idx,
  put, take,
}

-- The cell is as the thread has read it.
abbrev pub IsSame : System → ℕ → Option ℕ → Word → Type 0
IsSame s c v w = (s.val c ≡ v) × (s.idx c ≡ w)

-- `unsafe || t < headticket + 1 || crq_closed || r > 4*1024`
abbrev pub GivesUp : ℕ → ℕ → Word → Word → Type 0
GivesUp h r last w =
    (w.marked ≡ true) ⊎ ((last.index < h + 1) ⊎ ((last.marked ≡ true) ⊎ (4096 < r)))

module _ (remap : ℕ → ℕ) (size : ℕ) where
  abbrev pub slot : ℕ → ℕ
  slot t = remap (t % size)

  pub data Step (s : System) : System → Type 0 where
    begin_enqueue : (i x : ℕ) → s.pc i ≡ idle → Step s (go_to i (enq_fetch x 0) s)
    closed : (i x n : ℕ) → s.pc i ≡ enq_fetch x n → s.tail.marked ≡ true → Step s (refuse i s)
    ticket :
        (i x n : ℕ)
        → s.pc i ≡ enq_fetch x n
        → s.tail.marked ≡ false
        → Step s (fetch_tail i (enq_idx x n s.tail.index) s)
    load_idx :
        (i x n t : ℕ) → s.pc i ≡ enq_idx x n t → Step s (go_to i (enq_val x n t (s.idx (slot t))) s)
    not_null :
        (i x n t : ℕ) (w : Word)
        → s.pc i ≡ enq_val x n t w
        → s.val (slot t) ≢ none
        → Step s (go_to i (enq_full x n t) s)
    too_late :
        (i x n t : ℕ) (w : Word)
        → s.pc i ≡ enq_val x n t w
        → t < w.index
        → Step s (go_to i (enq_full x n t) s)
    safe_null :
        (i x n t : ℕ) (w : Word)
        → s.pc i ≡ enq_val x n t w
        → s.val (slot t) ≡ none
        → w.index ≤ t
        → w.marked ≡ false
        → Step s (go_to i (enq_cas x n t w) s)
    unsafe_null :
        (i x n t : ℕ) (w : Word)
        → s.pc i ≡ enq_val x n t w
        → s.val (slot t) ≡ none
        → w.index ≤ t
        → w.marked ≡ true
        → Step s (go_to i (enq_head x n t w) s)
    head_behind :
        (i x n t : ℕ) (w : Word)
        → s.pc i ≡ enq_head x n t w
        → s.head < t
        → Step s (go_to i (enq_cas x n t w) s)
    head_ahead :
        (i x n t : ℕ) (w : Word)
        → s.pc i ≡ enq_head x n t w
        → t ≤ s.head
        → Step s (go_to i (enq_full x n t) s)
    put_item :
        (i x n t : ℕ) (w : Word)
        → s.pc i ≡ enq_cas x n t w
        → IsSame s (slot t) none w
        → Step s (put i x t (slot t) s)
    put_fails :
        (i x n t : ℕ) (w : Word)
        → s.pc i ≡ enq_cas x n t w
        → ¬ IsSame s (slot t) none w
        → Step s (go_to i (enq_full x n t) s)
    ring_full :
        (i x n t : ℕ)
        → s.pc i ≡ enq_full x n t
        → s.head + size ≤ t
        → Step s (go_to i (enq_close x (n + 1) t) s)
    ring_open :
        (i x n t : ℕ)
        → s.pc i ≡ enq_full x n t
        → t < s.head + size
        → Step s (go_to i (enq_fetch x n) s)
    close_ok :
        (i x n t : ℕ)
        → s.pc i ≡ enq_close x n t
        → n ≤ 10
        → s.tail ≡ plain (t + 1)
        → Step s (close i (word true (t + 1)) s)
    close_fails :
        (i x n t : ℕ)
        → s.pc i ≡ enq_close x n t
        → n ≤ 10
        → s.tail ≢ plain (t + 1)
        → Step s (go_to i (enq_fetch x n) s)
    force_ok :
        (i x n t : ℕ)
        → s.pc i ≡ enq_close x n t
        → 10 < n
        → s.tail.marked ≡ false
        → Step s (close i (word true s.tail.index) s)
    force_late :
        (i x n t : ℕ)
        → s.pc i ≡ enq_close x n t
        → 10 < n
        → s.tail.marked ≡ true
        → Step s (go_to i (enq_fetch x n) s)
    stamped : (i x t : ℕ) → s.pc i ≡ enq_stamp x → s.clock ≤ t → Step s (stamp_enq i x t s)
    begin_dequeue : (i : ℕ) → s.pc i ≡ idle → Step s (go_to i deq_fetch s)
    head_ticket :
        (i : ℕ) → s.pc i ≡ deq_fetch → Step s (fetch_head i (deq_idx s.head 0 (plain 0)) s)
    load_deq_idx :
        (i h r : ℕ) (last : Word)
        → s.pc i ≡ deq_idx h r last
        → Step s (go_to i (deq_val h r last (s.idx (slot h))) s)
    load_val :
        (i h r : ℕ) (last w : Word)
        → s.pc i ≡ deq_val h r last w
        → Step s (go_to i (deq_seen h r last w (s.val (slot h))) s)
    passed :
        (i h r : ℕ) (last w : Word) (v : Option ℕ)
        → s.pc i ≡ deq_seen h r last w v
        → h < w.index
        → Step s (go_to i (deq_after h) s)
    found :
        (i h r x : ℕ) (last w : Word)
        → s.pc i ≡ deq_seen h r last w (some x)
        → w.index ≡ h
        → Step s (go_to i (deq_take h r x last w) s)
    took :
        (i h r x : ℕ) (last w : Word)
        → s.pc i ≡ deq_take h r x last w
        → IsSame s (slot h) (some x) w
        → Step s (take i x h (slot h) (word w.marked (h + size)) s)
    not_took :
        (i h r x : ℕ) (last w : Word)
        → s.pc i ≡ deq_take h r x last w
        → ¬ IsSame s (slot h) (some x) w
        → Step s (go_to i (deq_idx h r last) s)
    found_old :
        (i h r x : ℕ) (last w : Word)
        → s.pc i ≡ deq_seen h r last w (some x)
        → w.index < h
        → Step s (go_to i (deq_mark h r x last w) s)
    marked :
        (i h r x : ℕ) (last w : Word)
        → s.pc i ≡ deq_mark h r x last w
        → IsSame s (slot h) (some x) w
        → Step s (set_idx i (slot h) (word true w.index) (deq_after h) s)
    not_marked :
        (i h r x : ℕ) (last w : Word)
        → s.pc i ≡ deq_mark h r x last w
        → ¬ IsSame s (slot h) (some x) w
        → Step s (go_to i (deq_idx h r last) s)
    load_last :
        (i h r : ℕ) (last w : Word)
        → s.pc i ≡ deq_seen h r last w none
        → w.index ≤ h
        → r % 2 ^ 8 ≡ 0
        → Step s (go_to i (deq_wait h r s.tail w) s)
    keep_last :
        (i h r : ℕ) (last w : Word)
        → s.pc i ≡ deq_seen h r last w none
        → w.index ≤ h
        → r % 2 ^ 8 ≢ 0
        → Step s (go_to i (deq_wait h r last w) s)
    wait_more :
        (i h r : ℕ) (last w : Word)
        → s.pc i ≡ deq_wait h r last w
        → ¬ GivesUp h r last w
        → Step s (go_to i (deq_idx h (r + 1) last) s)
    give_up :
        (i h r : ℕ) (last w : Word)
        → s.pc i ≡ deq_wait h r last w
        → GivesUp h r last w
        → Step s (go_to i (deq_move h r last w) s)
    moved :
        (i h r : ℕ) (last w : Word)
        → s.pc i ≡ deq_move h r last w
        → IsSame s (slot h) none w
        → Step s (set_idx i (slot h) (word w.marked (h + size)) (deq_after h) s)
    not_moved :
        (i h r : ℕ) (last w : Word)
        → s.pc i ≡ deq_move h r last w
        → ¬ IsSame s (slot h) none w
        → Step s (go_to i (deq_idx h (r + 1) last) s)
    stamped_taken : (i x t : ℕ) → s.pc i ≡ deq_stamp x → s.clock ≤ t → Step s (stamp_deq i x t s)
    more_tickets :
        (i h : ℕ) → s.pc i ≡ deq_after h → h + 1 < s.tail.index → Step s (go_to i deq_fetch s)
    no_more_tickets :
        (i h : ℕ) → s.pc i ≡ deq_after h → s.tail.index ≤ h + 1 → Step s (go_to i fix_tail s)
    fix_load_tail : (i : ℕ) → s.pc i ≡ fix_tail → Step s (go_to i (fix_head s.tail) s)
    fix_load_head :
        (i : ℕ) (t : Word) → s.pc i ≡ fix_head t → Step s (go_to i (fix_check t s.head) s)
    fix_tail_moved :
        (i h : ℕ) (t : Word) → s.pc i ≡ fix_check t h → s.tail ≢ t → Step s (go_to i fix_tail s)
    fix_nothing :
        (i h : ℕ) (t : Word)
        → s.pc i ≡ fix_check t h
        → s.tail ≡ t
        → (t.marked ≡ true) ⊎ (h ≤ t.index)
        → Step s (dequeued_none i s)
    fix_needed :
        (i h : ℕ) (t : Word)
        → s.pc i ≡ fix_check t h
        → s.tail ≡ t
        → t.marked ≡ false
        → t.index < h
        → Step s (go_to i (fix_cas t h) s)
    fixed : (i h : ℕ) (t : Word) → s.pc i ≡ fix_cas t h → s.tail ≡ t → Step s (fix i h s)
    not_fixed :
        (i h : ℕ) (t : Word) → s.pc i ≡ fix_cas t h → s.tail ≢ t → Step s (go_to i fix_tail s)

-- `CRQueue(start)`: `idx0` is what the constructor writes into the cells.
abbrev pub init : (ℕ → ℕ) → ℕ → System
init idx0 start = record {
  head = start;
  tail = plain start;
  val = λ c. none;
  idx = λ c. plain (idx0 c);
  pc = λ i. idle;
  clock = 0;
  enq_lin_ts = λ x. 0;
  deq_lin_ts = λ x. 0;
  trace = [];
  returned = λ i. none;
  refused = λ i. false;
}

module _ (remap : ℕ → ℕ) (size : ℕ) where
  pub data Reach (idx0 : ℕ → ℕ) (start : ℕ) : System → Type 0 where
    begin : Reach idx0 start (init idx0 start)
    later : {s t : System} → Reach idx0 start s → Step remap size s t → Reach idx0 start t
