-- ===== src/PrQueue/Closed.antt =====
-- The tail of the ring: `closeSegment` closes it for good, and `fixState` only moves it on.
use ispass2026_concurrent_qu.Common.{
  ℕ, ◌+◌, ◌≤◌, ◌<◌, ◌≡◌, refl, subst, ap, ◌∙◌, Bool, true, false, arith, update, update_elim,
}
use ispass2026_concurrent_qu.PrQueue.{Word, word, plain, Pc, fix_cas, idle, System}
use ispass2026_concurrent_qu.PrQueue.Updates.{
  go_to, refuse, dequeued_none, fetch_tail, fetch_head, close, fix, stamp_enq, stamp_deq, set_val,
  set_idx, put, take,
}
use ispass2026_concurrent_qu.PrQueue.Steps.{
  Step, Reach, begin, later, begin_enqueue, closed, ticket, load_idx, not_null, too_late, safe_null,
  unsafe_null, head_behind, head_ahead, put_bottom, no_bottom, put_idx, no_idx, put_item, no_item,
  reset, no_reset, ring_full, ring_open, close_ok, close_fails, force_ok, force_late, stamped,
  begin_dequeue, head_ticket, load_deq_idx, load_val, passed, found, old_unsafe, old_safe,
  again_same, again_changed, marked, not_marked, load_last, keep_last, wait_more, give_up_null,
  give_up_bottom, cleared, not_cleared, moved, not_moved, stored, stamped_taken, more_tickets,
  no_more_tickets, fix_load_tail, fix_load_head, fix_tail_moved, fix_nothing, fix_needed, fixed,
  not_fixed,
}

-- What `fixState` has checked before its compare-exchange.
abbrev pub Fixing : Pc → Type 0
Fixing (fix_cas t h) = (t.marked ≡ false) × (t.index < h)
Fixing _ = Unit

-- The tail only moves on, and a closed one stays closed.
abbrev pub Onward : Word → Word → Type 0
Onward w u = (w.marked ≡ true → u.marked ≡ true) × (w.index ≤ u.index)

pub record Shut (tail : Word) (refused : ℕ → Bool) (pc : ℕ → Pc) : Type 0 where
  pub refused_closed : (j : ℕ) → refused j ≡ true → tail.marked ≡ true
  pub fixing : (j : ℕ) → Fixing (pc j)

abbrev Advance : System → System → Type 0
Advance s t = Shut t.tail t.refused t.pc × Onward s.tail t.tail

true≢false : {b : Bool} → b ≡ true → ¬ (b ≡ false)
true≢false e f = cc

module _ {tail : Word} {refused : ℕ → Bool} {pc : ℕ → Pc} (v : Shut tail refused pc) (i : ℕ)
    (p : Pc) (fx : Fixing p) where
  Fixing-after : (j : ℕ) → Fixing (update pc i p j)
  Fixing-after j = update_elim Fixing pc i p j (λ _. fx) (λ _. v.fixing j)

  -- The tail moves on, and who was refused is the same.
  tail_on : (w : Word) → Onward tail w → Shut w refused (update pc i p) × Onward tail w
  tail_on w (m, le) =
      (record { refused_closed = λ j e. m (v.refused_closed j e); fixing = Fixing-after }, (m, le))

  same_tail : Shut tail refused (update pc i p) × Onward tail tail
  same_tail = tail_on tail (λ e. e, omega arith)

  -- The thread is refused, the tail being closed.
  refused_now :
      (w : Word)
      → w.marked ≡ true
      → tail.index ≤ w.index
      → Shut w (update refused i true) (update pc i p) × Onward tail w
  refused_now w m le = (record { refused_closed = λ j _. m; fixing = Fixing-after }, (λ _. m, le))

  accepted_now : Shut tail (update refused i false) (update pc i p) × Onward tail tail
  accepted_now = (
    record {
      refused_closed = λ j.
          update_elim (λ b. b ≡ true → tail.marked ≡ true) refused i false j (λ _ e. absurd cc)
            (λ _ e. v.refused_closed j e);
      fixing = Fixing-after;
    },
    (λ e. e, omega arith),
  )

module _ (remap : ℕ → ℕ) (size : ℕ) where
  Step-Shut : {s t : System} → Shut s.tail s.refused s.pc → Step remap size s t → Advance s t
  unfolding go_to refuse dequeued_none fetch_tail fetch_head close fix stamp_enq stamp_deq set_val
      set_idx put take
  Step-Shut {s} v (begin_enqueue i x e) = same_tail v i _ tt
  Step-Shut {s} v (closed i x n e f) =
      refused_now v i idle tt (word s.tail.marked (s.tail.index + 1)) f (omega arith)
  Step-Shut {s} v (ticket i x n e f) =
      tail_on v i _ tt (word s.tail.marked (s.tail.index + 1)) (λ b. b, omega arith)
  Step-Shut {s} v (load_idx i x n t e) = same_tail v i _ tt
  Step-Shut {s} v (not_null i x n t w e f) = same_tail v i _ tt
  Step-Shut {s} v (too_late i x n t w e f) = same_tail v i _ tt
  Step-Shut {s} v (safe_null i x n t w e f le m) = same_tail v i _ tt
  Step-Shut {s} v (unsafe_null i x n t w e f le m) = same_tail v i _ tt
  Step-Shut {s} v (head_behind i x n t w e le) = same_tail v i _ tt
  Step-Shut {s} v (head_ahead i x n t w e lt) = same_tail v i _ tt
  Step-Shut {s} v (put_bottom i x n t w e f) = same_tail v i _ tt
  Step-Shut {s} v (no_bottom i x n t w e f) = same_tail v i _ tt
  Step-Shut {s} v (put_idx i x n t w e f) = same_tail v i _ tt
  Step-Shut {s} v (no_idx i x n t w e f) = same_tail v i _ tt
  Step-Shut {s} v (put_item i x n t e f) = same_tail v i _ tt
  Step-Shut {s} v (no_item i x n t e f) = same_tail v i _ tt
  Step-Shut {s} v (reset i x n t e f) = same_tail v i _ tt
  Step-Shut {s} v (no_reset i x n t e f) = same_tail v i _ tt
  Step-Shut {s} v (ring_full i x n t e le) = same_tail v i _ tt
  Step-Shut {s} v (ring_open i x n t e lt) = same_tail v i _ tt
  Step-Shut {s} v (close_ok i x n t e le f) =
      refused_now v i idle tt (word true (t + 1)) refl (omega (arith, ap (λ u. u.index) f))
  Step-Shut {s} v (close_fails i x n t e le f) = same_tail v i _ tt
  Step-Shut {s} v (force_ok i x n t e lt f) =
      refused_now v i idle tt (word true s.tail.index) refl (omega arith)
  Step-Shut {s} v (force_late i x n t e lt f) = same_tail v i _ tt
  Step-Shut {s} v (stamped i x t e le) = accepted_now v i idle tt
  Step-Shut {s} v (begin_dequeue i e) = same_tail v i _ tt
  Step-Shut {s} v (head_ticket i e) = same_tail v i _ tt
  Step-Shut {s} v (load_deq_idx i h r last e) = same_tail v i _ tt
  Step-Shut {s} v (load_val i h r last w e) = same_tail v i _ tt
  Step-Shut {s} v (passed i h r last w u e lt) = same_tail v i _ tt
  Step-Shut {s} v (found i h r x last w e f) = same_tail v i _ tt
  Step-Shut {s} v (old_unsafe i h r x last w e lt m) = same_tail v i _ tt
  Step-Shut {s} v (old_safe i h r x last w e lt m) = same_tail v i _ tt
  Step-Shut {s} v (again_same i h r last w e f) = same_tail v i _ tt
  Step-Shut {s} v (again_changed i h r last w e f) = same_tail v i _ tt
  Step-Shut {s} v (marked i h r last w e f) = same_tail v i _ tt
  Step-Shut {s} v (not_marked i h r last w e f) = same_tail v i _ tt
  Step-Shut {s} v (load_last i h r last w u e f le q) = same_tail v i _ tt
  Step-Shut {s} v (keep_last i h r last w u e f le q) = same_tail v i _ tt
  Step-Shut {s} v (wait_more i h r last w u e f) = same_tail v i _ tt
  Step-Shut {s} v (give_up_null i h r last w e f) = same_tail v i _ tt
  Step-Shut {s} v (give_up_bottom i h r j last w e f) = same_tail v i _ tt
  Step-Shut {s} v (cleared i h r j last w e f) = same_tail v i _ tt
  Step-Shut {s} v (not_cleared i h r j last w e f) = same_tail v i _ tt
  Step-Shut {s} v (moved i h r last w e f) = same_tail v i _ tt
  Step-Shut {s} v (not_moved i h r last w e f) = same_tail v i _ tt
  Step-Shut {s} v (stored i h x e) = same_tail v i _ tt
  Step-Shut {s} v (stamped_taken i x t e le) = same_tail v i _ tt
  Step-Shut {s} v (more_tickets i h e lt) = same_tail v i _ tt
  Step-Shut {s} v (no_more_tickets i h e le) = same_tail v i _ tt
  Step-Shut {s} v (fix_load_tail i e) = same_tail v i _ tt
  Step-Shut {s} v (fix_load_head i t e) = same_tail v i _ tt
  Step-Shut {s} v (fix_tail_moved i h t e f) = same_tail v i _ tt
  Step-Shut {s} v (fix_nothing i h t e f o) = same_tail v i _ tt
  Step-Shut {s} v (fix_needed i h t e f m lt) = same_tail v i (fix_cas t h) (m, lt)
  Step-Shut {s} v (fixed i h t e f) =
      let (m, lt) = subst Fixing e (v.fixing i) in
      tail_on v i idle tt (plain h) (
        λ b. absurd (true≢false b (ap (λ u. u.marked) f ∙ m)),
        omega (arith, lt, ap (λ u. u.index) f),
      )
  Step-Shut {s} v (not_fixed i h t e f) = same_tail v i _ tt

  module _ {idx0 : ℕ → ℕ} {start : ℕ} where
    pub Reach-Shut : {s : System} → Reach remap size idx0 start s → Shut s.tail s.refused s.pc
    Reach-Shut begin = record { refused_closed = λ j e. absurd cc; fixing = λ j. tt }
    Reach-Shut (later r st) = (Step-Shut (Reach-Shut r) st).0

    -- In every reachable state, if the last enqueue of a thread returned false, then the segment is
    -- closed.
    pub refused_means_closed :
        {s : System}
        → Reach remap size idx0 start s
        → (i : ℕ) → s.refused i ≡ true
        → s.tail.marked ≡ true
    refused_means_closed r = (Reach-Shut r).refused_closed

    -- No step from a reachable state opens a closed segment again or takes the tail's index back,
    -- `fixState` included.
    pub closed_for_good :
        {s t : System}
        → Reach remap size idx0 start s
        → Step remap size s t
        → (s.tail.marked ≡ true → t.tail.marked ≡ true) × (s.tail.index ≤ t.tail.index)
    closed_for_good r st = (Step-Shut (Reach-Shut r) st).1
