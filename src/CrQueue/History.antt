-- ===== src/CrQueue/History.antt =====
-- The runs of the ring, ticket by ticket.
use ispass2026_concurrent_qu.Common.{
  ℕ, ◌+◌, ◌≤◌, ◌<◌, ◌≡◌, ◌⊎◌, sym, subst, ap, ◌∙◌, inl, inr, true, List, [], ◌∷◌, none, some, arith,
  update, update_elim,
}
use ispass2026_concurrent_qu.PrQueue.{word}
use ispass2026_concurrent_qu.CrQueue.{
  Pc, enq_head, enq_cas, enq_stamp, deq_take, deq_wait, deq_move, deq_stamp, deq_after, Event, push,
  pop, pushed, popped, System,
}
use ispass2026_concurrent_qu.CrQueue.Updates.{
  go_to, refuse, dequeued_none, fetch_tail, fetch_head, close, fix, stamp_enq, stamp_deq, set_idx,
  put, take,
}
use ispass2026_concurrent_qu.CrQueue.Steps.{
  slot, Step, Reach, begin, later, begin_enqueue, closed, ticket, load_idx, not_null, too_late,
  safe_null, unsafe_null, head_behind, head_ahead, put_item, put_fails, ring_full, ring_open,
  close_ok, close_fails, force_ok, force_late, stamped, begin_dequeue, head_ticket, load_deq_idx,
  load_val, passed, found, took, not_took, found_old, marked, not_marked, load_last, keep_last,
  wait_more, give_up, moved, not_moved, stamped_taken, more_tickets, no_more_tickets, fix_load_tail,
  fix_load_head, fix_tail_moved, fix_nothing, fix_needed, fixed, not_fixed,
}
use ispass2026_concurrent_qu.CrQueue.Inv.{
  Stored, Cells, not_pushed, not_popped, put_before, idx-Cells, put-Cells, take-Cells,
}

-- What a thread has checked before its exchange.
abbrev pub Guard : Pc → Type 0
Guard (enq_head x n t w) = w.index ≤ t
Guard (enq_cas x n t w) = w.index ≤ t
Guard (deq_take h r x last w) = w.index ≡ h
Guard (deq_wait h r last w) = w.index ≤ h
Guard (deq_move h r last w) = w.index ≤ h
Guard _ = Unit

-- Ticket by ticket: at most one item is put with a ticket, and what is taken with a ticket is the
-- item that was put with it, and was not taken before.
abbrev pub IsTicketwise : List Event → Type 0
IsTicketwise [] = Unit
IsTicketwise (push i x t ∷ tr) = (pushed tr t ≡ none) × IsTicketwise tr
IsTicketwise (pop i x h ∷ tr) = (pushed tr h ≡ some x) × (popped tr h ≡ none) × IsTicketwise tr

module _ (remap : ℕ → ℕ) (size : ℕ) (pos : 0 < size) where
  pub record Inv (s : System) : Type 0 where
    pub cells : Cells remap size s.val s.idx s.trace
    pub guards : (j : ℕ) → Guard (s.pc j)

  known : {s : System} {p : Pc} → Inv s → (i : ℕ) → s.pc i ≡ p → Guard p
  known v i e = subst Guard e (v.guards i)

  after : (s : System) → Inv s → (i : ℕ) (p : Pc) → Guard p → (j : ℕ) → Guard (update s.pc i p j)
  after s v i p g j = update_elim Guard s.pc i p j (λ _. g) (λ _. v.guards j)

  Step-Inv : {s t : System} → Inv s → Step remap size s t → Inv t
  unfolding go_to refuse dequeued_none fetch_tail fetch_head close fix stamp_enq stamp_deq set_idx
      put take
  Step-Inv {s} v (begin_enqueue i x e) = record { cells = v.cells; guards = after s v i _ (tt) }
  Step-Inv {s} v (closed i x n e f) = record { cells = v.cells; guards = after s v i _ (tt) }
  Step-Inv {s} v (ticket i x n e f) = record { cells = v.cells; guards = after s v i _ (tt) }
  Step-Inv {s} v (load_idx i x n t e) = record { cells = v.cells; guards = after s v i _ (tt) }
  Step-Inv {s} v (not_null i x n t w e f) = record { cells = v.cells; guards = after s v i _ (tt) }
  Step-Inv {s} v (too_late i x n t w e f) = record { cells = v.cells; guards = after s v i _ (tt) }
  Step-Inv {s} v (safe_null i x n t w e f le m) = record {
    cells = v.cells;
    guards = after s v i _ (le);
  }
  Step-Inv {s} v (unsafe_null i x n t w e f le m) = record {
    cells = v.cells;
    guards = after s v i _ (le);
  }
  Step-Inv {s} v (head_behind i x n t w e lt) = record {
    cells = v.cells;
    guards = after s v i _ (known v i e);
  }
  Step-Inv {s} v (head_ahead i x n t w e le) = record {
    cells = v.cells;
    guards = after s v i _ (tt);
  }
  Step-Inv {s} v (put_item i x n t w e (f, g)) = record {
    cells = put-Cells remap size v.cells i x t f (subst (λ z. z.index ≤ t) (sym g) (known v i e));
    guards = after s v i (enq_stamp x) tt;
  }
  Step-Inv {s} v (put_fails i x n t w e f) = record { cells = v.cells; guards = after s v i _ (tt) }
  Step-Inv {s} v (ring_full i x n t e le) = record { cells = v.cells; guards = after s v i _ (tt) }
  Step-Inv {s} v (ring_open i x n t e lt) = record { cells = v.cells; guards = after s v i _ (tt) }
  Step-Inv {s} v (close_ok i x n t e le f) = record { cells = v.cells; guards = after s v i _ (tt) }
  Step-Inv {s} v (close_fails i x n t e le f) = record {
    cells = v.cells;
    guards = after s v i _ (tt);
  }
  Step-Inv {s} v (force_ok i x n t e lt f) = record { cells = v.cells; guards = after s v i _ (tt) }
  Step-Inv {s} v (force_late i x n t e lt f) = record {
    cells = v.cells;
    guards = after s v i _ (tt);
  }
  Step-Inv {s} v (stamped i x t e le) = record { cells = v.cells; guards = after s v i _ (tt) }
  Step-Inv {s} v (begin_dequeue i e) = record { cells = v.cells; guards = after s v i _ (tt) }
  Step-Inv {s} v (head_ticket i e) = record { cells = v.cells; guards = after s v i _ (tt) }
  Step-Inv {s} v (load_deq_idx i h r last e) = record {
    cells = v.cells;
    guards = after s v i _ (tt);
  }
  Step-Inv {s} v (load_val i h r last w e) = record { cells = v.cells; guards = after s v i _ (tt) }
  Step-Inv {s} v (passed i h r last w u e lt) = record {
    cells = v.cells;
    guards = after s v i _ (tt);
  }
  Step-Inv {s} v (found i h r x last w e f) = record { cells = v.cells; guards = after s v i _ (f) }
  Step-Inv {s} v (took i h r x last w e (f, g)) = record {
    cells =
        take-Cells remap size v.cells i x h (word w.marked (h + size)) f
          (ap (λ z. z.index) g ∙ known v i e) (omega (arith, pos));
    guards = after s v i (deq_stamp x) tt;
  }
  Step-Inv {s} v (not_took i h r x last w e f) = record {
    cells = v.cells;
    guards = after s v i _ (tt);
  }
  Step-Inv {s} v (found_old i h r x last w e f) = record {
    cells = v.cells;
    guards = after s v i _ (tt);
  }
  Step-Inv {s} v (marked i h r x last w e (f, g)) = record {
    cells =
        idx-Cells remap size v.cells (slot remap size h) (word true w.index)
          (subst (λ z. z.index ≤ w.index) (sym g) (omega arith)) (inr (ap (λ z. z.index) (sym g)));
    guards = after s v i (deq_after h) tt;
  }
  Step-Inv {s} v (not_marked i h r x last w e f) = record {
    cells = v.cells;
    guards = after s v i _ (tt);
  }
  Step-Inv {s} v (load_last i h r last w e le f) = record {
    cells = v.cells;
    guards = after s v i _ (le);
  }
  Step-Inv {s} v (keep_last i h r last w e le f) = record {
    cells = v.cells;
    guards = after s v i _ (le);
  }
  Step-Inv {s} v (wait_more i h r last w e f) = record {
    cells = v.cells;
    guards = after s v i _ (tt);
  }
  Step-Inv {s} v (give_up i h r last w e f) = record {
    cells = v.cells;
    guards = after s v i _ (known v i e);
  }
  Step-Inv {s} v (moved i h r last w e (f, g)) = record {
    cells =
        idx-Cells remap size v.cells (slot remap size h) (word w.marked (h + size))
          (subst (λ z. z.index ≤ h + size) (sym g) (omega (arith, known v i e))) (inl f);
    guards = after s v i (deq_after h) tt;
  }
  Step-Inv {s} v (not_moved i h r last w e f) = record {
    cells = v.cells;
    guards = after s v i _ (tt);
  }
  Step-Inv {s} v (stamped_taken i x t e le) = record {
    cells = v.cells;
    guards = after s v i _ (tt);
  }
  Step-Inv {s} v (more_tickets i h e lt) = record { cells = v.cells; guards = after s v i _ (tt) }
  Step-Inv {s} v (no_more_tickets i h e le) = record {
    cells = v.cells;
    guards = after s v i _ (tt);
  }
  Step-Inv {s} v (fix_load_tail i e) = record { cells = v.cells; guards = after s v i _ (tt) }
  Step-Inv {s} v (fix_load_head i t e) = record { cells = v.cells; guards = after s v i _ (tt) }
  Step-Inv {s} v (fix_tail_moved i h t e f) = record {
    cells = v.cells;
    guards = after s v i _ (tt);
  }
  Step-Inv {s} v (fix_nothing i h t e f o) = record { cells = v.cells; guards = after s v i _ (tt) }
  Step-Inv {s} v (fix_needed i h t e f m lt) = record {
    cells = v.cells;
    guards = after s v i _ (tt);
  }
  Step-Inv {s} v (fixed i h t e f) = record { cells = v.cells; guards = after s v i _ (tt) }
  Step-Inv {s} v (not_fixed i h t e f) = record { cells = v.cells; guards = after s v i _ (tt) }

  Step-IsTicketwise :
      {s t : System} → Inv s → Step remap size s t → IsTicketwise s.trace → IsTicketwise t.trace
  unfolding go_to refuse dequeued_none fetch_tail fetch_head close fix stamp_enq stamp_deq set_idx
      put take
  Step-IsTicketwise v (begin_enqueue i x e) k = k
  Step-IsTicketwise v (closed i x n e f) k = k
  Step-IsTicketwise v (ticket i x n e f) k = k
  Step-IsTicketwise v (load_idx i x n t e) k = k
  Step-IsTicketwise v (not_null i x n t w e f) k = k
  Step-IsTicketwise v (too_late i x n t w e f) k = k
  Step-IsTicketwise v (safe_null i x n t w e f le m) k = k
  Step-IsTicketwise v (unsafe_null i x n t w e f le m) k = k
  Step-IsTicketwise v (head_behind i x n t w e lt) k = k
  Step-IsTicketwise v (head_ahead i x n t w e le) k = k
  Step-IsTicketwise {s} v (put_item i x n t w e (f, g)) k =
      (not_pushed remap size v.cells t f (subst (λ z. z.index ≤ t) (sym g) (known v i e)), k)
  Step-IsTicketwise v (put_fails i x n t w e f) k = k
  Step-IsTicketwise v (ring_full i x n t e le) k = k
  Step-IsTicketwise v (ring_open i x n t e lt) k = k
  Step-IsTicketwise v (close_ok i x n t e le f) k = k
  Step-IsTicketwise v (close_fails i x n t e le f) k = k
  Step-IsTicketwise v (force_ok i x n t e lt f) k = k
  Step-IsTicketwise v (force_late i x n t e lt f) k = k
  Step-IsTicketwise v (stamped i x t e le) k = k
  Step-IsTicketwise v (begin_dequeue i e) k = k
  Step-IsTicketwise v (head_ticket i e) k = k
  Step-IsTicketwise v (load_deq_idx i h r last e) k = k
  Step-IsTicketwise v (load_val i h r last w e) k = k
  Step-IsTicketwise v (passed i h r last w u e lt) k = k
  Step-IsTicketwise v (found i h r x last w e f) k = k
  Step-IsTicketwise {s} v (took i h r x last w e (f, g)) k =
      let at = ap (λ z. z.index) g ∙ known v i e in
      (put_before remap size v.cells h x f at, not_popped remap size v.cells h at, k)
  Step-IsTicketwise v (not_took i h r x last w e f) k = k
  Step-IsTicketwise v (found_old i h r x last w e f) k = k
  Step-IsTicketwise v (marked i h r x last w e f) k = k
  Step-IsTicketwise v (not_marked i h r x last w e f) k = k
  Step-IsTicketwise v (load_last i h r last w e le f) k = k
  Step-IsTicketwise v (keep_last i h r last w e le f) k = k
  Step-IsTicketwise v (wait_more i h r last w e f) k = k
  Step-IsTicketwise v (give_up i h r last w e f) k = k
  Step-IsTicketwise v (moved i h r last w e f) k = k
  Step-IsTicketwise v (not_moved i h r last w e f) k = k
  Step-IsTicketwise v (stamped_taken i x t e le) k = k
  Step-IsTicketwise v (more_tickets i h e lt) k = k
  Step-IsTicketwise v (no_more_tickets i h e le) k = k
  Step-IsTicketwise v (fix_load_tail i e) k = k
  Step-IsTicketwise v (fix_load_head i t e) k = k
  Step-IsTicketwise v (fix_tail_moved i h t e f) k = k
  Step-IsTicketwise v (fix_nothing i h t e f o) k = k
  Step-IsTicketwise v (fix_needed i h t e f m lt) k = k
  Step-IsTicketwise v (fixed i h t e f) k = k
  Step-IsTicketwise v (not_fixed i h t e f) k = k

  module _ {idx0 : ℕ → ℕ} {start : ℕ} where
    pub Reach-Inv : {s : System} → Reach remap size idx0 start s → Inv s
    Reach-Inv begin = record {
      cells = record {
        holds = λ c x e. absurd cc;
        put_stays = λ u x e. absurd cc;
        got_bound = λ u x e. absurd cc;
      };
      guards = λ j. tt;
    }
    Reach-Inv (later r st) = Step-Inv (Reach-Inv r) st

    -- In every run of the CRQ, at most one item is put with a ticket; what a dequeuer takes with its
    -- head ticket is the item that was put with the equal tail ticket, and at most one item is taken
    -- with a ticket.
    pub Reach-IsTicketwise : {s : System} → Reach remap size idx0 start s → IsTicketwise s.trace
    Reach-IsTicketwise begin = tt
    Reach-IsTicketwise (later r st) = Step-IsTicketwise (Reach-Inv r) st (Reach-IsTicketwise r)

    -- In every reachable state, an item that was put with a ticket was taken, or it is in the cell of
    -- its ticket with the ticket as the cell's index.
    pub put_stays :
        {s : System}
        → Reach remap size idx0 start s
        → (u x : ℕ) → pushed s.trace u ≡ some x
        → (popped s.trace u ≡ some x) ⊎ Stored remap size s.val s.idx u x
    put_stays r = (Reach-Inv r).cells.put_stays
