-- ===== src/FaaArrayQueue/History.antt =====
-- The runs of the queue, place by place.
use ispass2026_concurrent_qu.Common.{
  ℕ, ◌+◌, ◌<◌, ◌≡◌, subst, ap, inl, inr, List, [], ◌∷◌, none, some, arith, Option-cases,
}
use ispass2026_concurrent_qu.FaaArrayQueue.{Event, push, pop, put_at, got_at, System}
use ispass2026_concurrent_qu.FaaArrayQueue.Steps.{
  go_to, leave, fetch_enq, fetch_deq, set_enq, cas_tail, cas_head, stamp_enq, stamp_deq, link, put,
  take, spoil, Step, begin_enqueue, load_tail, fetched_slot, fetched_full, tail_moved, tail_same,
  no_next, has_next, linked, not_linked, helped, not_helped, stamped_new, swung, not_swung,
  put_item, put_fails, stamped, begin_dequeue, load_head, claimed, found_drained, found_end,
  found_next, head_swung, head_moved, took, spoiled, took_marker, stamped_taken, more_slots,
  no_more_slots, more_nodes, no_more_nodes, fixed, not_fixed, Reach, start, later,
}
use ispass2026_concurrent_qu.FaaArrayQueue.Inv.{Fits, ticket, Inv}
use ispass2026_concurrent_qu.FaaArrayQueue.Keep.{known}
use ispass2026_concurrent_qu.FaaArrayQueue.Invariant.{Reach-Inv}

-- Place by place: an item goes into a place that had none yet, and the item that is taken out of a
-- place is the one that went in, and was not taken out before.
abbrev pub IsHistory : List Event → Type 0
IsHistory [] = Unit
IsHistory (push i x a c ∷ tr) = (put_at tr a c ≡ none) × IsHistory tr
IsHistory (pop i x a c ∷ tr) = (put_at tr a c ≡ some x) × (got_at tr a c ≡ none) × IsHistory tr

module _ (remap : ℕ → ℕ) (size : ℕ) (pos : 0 < size)
    (injective : (c d : ℕ) → c < size → d < size → remap c ≡ remap d → c ≡ d) where
  Step-IsHistory :
      {s t : System}
      → Inv size remap s
      → Step remap size s t
      → IsHistory s.trace
      → IsHistory t.trace
  unfolding go_to leave fetch_enq fetch_deq set_enq cas_tail cas_head stamp_enq stamp_deq link put
      take spoil
  Step-IsHistory v (begin_enqueue i x e) h = h
  Step-IsHistory v (load_tail i x e) h = h
  Step-IsHistory v (fetched_slot i x a e lt) h = h
  Step-IsHistory v (fetched_full i x a e le) h = h
  Step-IsHistory v (tail_moved i x a e f) h = h
  Step-IsHistory v (tail_same i x a e f) h = h
  Step-IsHistory v (no_next i x a e f) h = h
  Step-IsHistory v (has_next i x a b e f) h = h
  Step-IsHistory {s} v (linked i x a e f) h = (nothing, h)
    where
      nothing : put_at s.trace (s.last + 1) 0 ≡ none
      nothing = elim (Option-cases (put_at s.trace (s.last + 1) 0)) [
        | inl e ↦ e
        | inr (y, e) ↦ absurd (omega (arith, v.slots.put_bound (s.last + 1) 0 y e))
      ]
  Step-IsHistory v (not_linked i x a e f) h = h
  Step-IsHistory v (helped i x a b e f) h = h
  Step-IsHistory v (not_helped i x a b e f) h = h
  Step-IsHistory v (stamped_new i x a b t e le) h = h
  Step-IsHistory v (swung i a b e f) h = h
  Step-IsHistory v (not_swung i a b e f) h = h
  Step-IsHistory {s} v (put_item i x a c e f) h =
      let l = known remap size pos injective s v i e in
      (
        (subst (λ w. Fits w (put_at s.trace a c) (got_at s.trace a c)) f
            (v.slots.fits a c l.0 l.1)).0,
        h,
      )
  Step-IsHistory v (put_fails i x a c e f) h = h
  Step-IsHistory v (stamped i x t e le) h = h
  Step-IsHistory v (begin_dequeue i e) h = h
  Step-IsHistory v (load_head i e) h = h
  Step-IsHistory v (claimed i a e lt) h = h
  Step-IsHistory v (found_drained i a e le) h = h
  Step-IsHistory v (found_end i a e f) h = h
  Step-IsHistory v (found_next i a b e f) h = h
  Step-IsHistory v (head_swung i a b e f) h = h
  Step-IsHistory v (head_moved i a b e f) h = h
  Step-IsHistory {s} v (took i x a c e f) h =
      let (al, cs, lt, ok) = v.tickets.held i a c (ap ticket e) in
      let now =
        subst (λ w. Fits w (put_at s.trace a c) (got_at s.trace a c)) f (v.slots.fits a c al cs) in
      (now.0, now.1, h)
  Step-IsHistory v (spoiled i a c e f) h = h
  Step-IsHistory v (took_marker i a c e f) h = h
  Step-IsHistory v (stamped_taken i x t e le) h = h
  Step-IsHistory v (more_slots i a c e lt) h = h
  Step-IsHistory v (no_more_slots i a c e le) h = h
  Step-IsHistory v (more_nodes i a c t b e f) h = h
  Step-IsHistory v (no_more_nodes i a c t e f) h = h
  Step-IsHistory v (fixed i a c t e f) h = h
  Step-IsHistory v (not_fixed i a c t e f) h = h

  -- In every run, an item goes only into a place that never had one; what is taken out of a place is
  -- the item that went into it, and no place is emptied twice.
  pub Reach-IsHistory : {s : System} → Reach remap size s → IsHistory s.trace
  Reach-IsHistory start = tt
  Reach-IsHistory (later r st) =
      Step-IsHistory (Reach-Inv remap size pos injective r) st (Reach-IsHistory r)
