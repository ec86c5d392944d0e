-- ===== src/FaaArrayQueue/Invariant.antt =====
-- The invariant holds in every reachable state.
use ispass2026_concurrent_qu.Common.{
  ℕ, ◌+◌, ◌≤◌, ◌<◌, ◌≡◌, refl, ap, Option, none, some, arith, update, update_here,
}
use ispass2026_concurrent_qu.FaaArrayQueue.{
  idle, enq_load, enq_full, enq_help, enq_tail, enq_cas, deq_fetch, deq_head, deq_next, deq_fix,
  System,
}
use ispass2026_concurrent_qu.FaaArrayQueue.Steps.{
  go_to, leave, fetch_enq, set_enq, stamp_enq, stamp_deq, Step, begin_enqueue, load_tail,
  fetched_slot, fetched_full, tail_moved, tail_same, no_next, has_next, linked, not_linked, helped,
  not_helped, stamped_new, swung, not_swung, put_item, put_fails, stamped, begin_dequeue, load_head,
  claimed, found_drained, found_end, found_next, head_swung, head_moved, took, spoiled, took_marker,
  stamped_taken, more_slots, no_more_slots, more_nodes, no_more_nodes, fixed, not_fixed, init,
  Reach, start, later,
}
use ispass2026_concurrent_qu.FaaArrayQueue.Inv.{ticket, Inv}
use ispass2026_concurrent_qu.FaaArrayQueue.Link.{next_is_behind}
use ispass2026_concurrent_qu.FaaArrayQueue.Keep.{
  known, off, on_last, stays, enq_grows, claimed-Inv, drained-Inv, head-Inv, tail-Inv, link-Inv,
  put-Inv, took-Inv, spoiled-Inv,
}

module _ (remap : ℕ → ℕ) (size : ℕ) (pos : 0 < size)
    (injective : (c d : ℕ) → c < size → d < size → remap c ≡ remap d → c ≡ d) where
  -- A node behind `ltail`, or behind `lhead`.
  ahead : (s : System) → Inv size remap s → (a b : ℕ) → a ≤ s.last → s.next a ≡ some b → b ≤ s.last
  ahead s v a b le e = (next_is_behind size v.shape a b le e).1

  -- The invariant does not read the clock, the stamps and the results.
  unread :
      {s : System} (t : ℕ) (f g : ℕ → ℕ) (r : ℕ → Option ℕ)
      → Inv size remap s
      → Inv size remap (record s { clock = t; enq_lin_ts = f; deq_lin_ts = g; returned = r })
  unread t f g r v = record {
    shape = v.shape;
    slots = v.slots;
    tickets = v.tickets;
    local = v.local;
  }

  Step-Inv : {s t : System} → Inv size remap s → Step remap size s t → Inv size remap t
  unfolding go_to leave fetch_enq set_enq stamp_enq stamp_deq
  Step-Inv {s} v (begin_enqueue i x e) =
      stays remap size pos injective s v i _ (off remap size pos injective s v i e refl) refl tt
  Step-Inv {s} v (load_tail i x e) =
      stays remap size pos injective s v i _ (off remap size pos injective s v i e refl) refl
        v.shape.tail-le
  Step-Inv {s} v (fetched_slot i x a e lt) =
      enq_grows remap size pos injective s v i a (s.enqidx a + 1) (enq_cas x a (s.enqidx a))
        (omega arith) (off remap size pos injective s v i e refl) refl
        (
          known remap size pos injective s v i e,
          lt,
          omega (arith, update_here s.enqidx a (s.enqidx a + 1)),
        )
  Step-Inv {s} v (fetched_full i x a e le) =
      enq_grows remap size pos injective s v i a (s.enqidx a + 1) (enq_full x a) (omega arith)
        (off remap size pos injective s v i e refl) refl
        (
          known remap size pos injective s v i e,
          omega (arith, le, update_here s.enqidx a (s.enqidx a + 1)),
        )
  Step-Inv {s} v (tail_moved i x a e f) =
      stays remap size pos injective s v i _ (off remap size pos injective s v i e refl) refl tt
  Step-Inv {s} v (tail_same i x a e f) =
      stays remap size pos injective s v i _ (off remap size pos injective s v i e refl) refl
        (known remap size pos injective s v i e)
  Step-Inv {s} v (no_next i x a e f) =
      stays remap size pos injective s v i _ (off remap size pos injective s v i e refl) refl
        (known remap size pos injective s v i e)
  Step-Inv {s} v (has_next i x a b e f) =
      stays remap size pos injective s v i (enq_help x a b)
        (off remap size pos injective s v i e refl) refl
        (ahead s v a b (known remap size pos injective s v i e).0 f)
  Step-Inv {s} v (linked i x a e f) = link-Inv remap size pos injective s v i x a e f
  Step-Inv {s} v (not_linked i x a e f) =
      stays remap size pos injective s v i _ (off remap size pos injective s v i e refl) refl tt
  Step-Inv {s} v (helped i x a b e f) =
      tail-Inv remap size pos injective s v i b (enq_load x)
        (known remap size pos injective s v i e) (off remap size pos injective s v i e refl) refl tt
  Step-Inv {s} v (not_helped i x a b e f) =
      stays remap size pos injective s v i _ (off remap size pos injective s v i e refl) refl tt
  Step-Inv {s} v (stamped_new i x a b t e le) =
      unread t (update s.enq_lin_ts x t) s.deq_lin_ts s.returned (
        stays remap size pos injective s v i (enq_tail a b)
          (off remap size pos injective s v i e refl) refl (known remap size pos injective s v i e))
  Step-Inv {s} v (swung i a b e f) =
      tail-Inv remap size pos injective s v i b idle (known remap size pos injective s v i e)
        (off remap size pos injective s v i e refl) refl tt
  Step-Inv {s} v (not_swung i a b e f) =
      stays remap size pos injective s v i idle (off remap size pos injective s v i e refl) refl tt
  Step-Inv {s} v (put_item i x a c e f) = put-Inv remap size pos injective s v i x a c e f
  Step-Inv {s} v (put_fails i x a c e f) =
      stays remap size pos injective s v i _ (off remap size pos injective s v i e refl) refl tt
  Step-Inv {s} v (stamped i x t e le) = unread t (update s.enq_lin_ts x t) s.deq_lin_ts s.returned (
      stays remap size pos injective s v i idle (off remap size pos injective s v i e refl) refl tt)
  Step-Inv {s} v (begin_dequeue i e) =
      stays remap size pos injective s v i _ (off remap size pos injective s v i e refl) refl tt
  Step-Inv {s} v (load_head i e) =
      stays remap size pos injective s v i (deq_fetch s.head)
        (off remap size pos injective s v i e refl) refl (omega arith)
  Step-Inv {s} v (claimed i a e lt) = claimed-Inv remap size pos injective s v i a e lt
  Step-Inv {s} v (found_drained i a e le) = drained-Inv remap size pos injective s v i a e le
  Step-Inv {s} v (found_end i a e f) =
      unread s.clock s.enq_lin_ts s.deq_lin_ts (update s.returned i none) (
        stays remap size pos injective s v i idle (off remap size pos injective s v i e refl) refl
          tt)
  Step-Inv {s} v (found_next i a b e f) =
      let l = known remap size pos injective s v i e in
      let n = next_is_behind size v.shape a b (on_last remap size pos injective s v a l.0) f in
      stays remap size pos injective s v i (deq_head a b)
        (off remap size pos injective s v i e refl) refl (l.0, l.1, n.0, n.1)
  Step-Inv {s} v (head_swung i a b e f) = head-Inv remap size pos injective s v i a b e f
  Step-Inv {s} v (head_moved i a b e f) =
      stays remap size pos injective s v i _ (off remap size pos injective s v i e refl) refl tt
  Step-Inv {s} v (took i x a c e f) = took-Inv remap size pos injective s v i x a c e f
  Step-Inv {s} v (spoiled i a c e f) = spoiled-Inv remap size pos injective s v i a c e f
  Step-Inv {s} v (took_marker i a c e f) = absurd ((v.tickets.held i a c (ap ticket e)).3 f)
  Step-Inv {s} v (stamped_taken i x t e le) =
      unread t s.enq_lin_ts (update s.deq_lin_ts x t) (update s.returned i (some x)) (
        stays remap size pos injective s v i idle (off remap size pos injective s v i e refl) refl
          tt)
  Step-Inv {s} v (more_slots i a c e lt) =
      stays remap size pos injective s v i (deq_fetch a) (off remap size pos injective s v i e refl)
        refl (known remap size pos injective s v i e).0
  Step-Inv {s} v (no_more_slots i a c e le) =
      stays remap size pos injective s v i (deq_next a c (s.enqidx a))
        (off remap size pos injective s v i e refl) refl
        ((known remap size pos injective s v i e).0, le)
  Step-Inv {s} v (more_nodes i a c t b e f) =
      stays remap size pos injective s v i (deq_fetch a) (off remap size pos injective s v i e refl)
        refl (known remap size pos injective s v i e).0
  Step-Inv {s} v (no_more_nodes i a c t e f) =
      stays remap size pos injective s v i (deq_fix a c t)
        (off remap size pos injective s v i e refl) refl (known remap size pos injective s v i e)
  Step-Inv {s} v (fixed i a c t e f) =
      unread s.clock s.enq_lin_ts s.deq_lin_ts (update s.returned i none) (
        enq_grows remap size pos injective s v i a (c + 1) idle
          (omega (arith, f, (known remap size pos injective s v i e).1))
          (off remap size pos injective s v i e refl) refl tt)
  Step-Inv {s} v (not_fixed i a c t e f) =
      unread s.clock s.enq_lin_ts s.deq_lin_ts (update s.returned i none) (
        stays remap size pos injective s v i idle (off remap size pos injective s v i e refl) refl
          tt)

  init-Inv : Inv size remap init
  init-Inv = record {
    shape = record {
      head-le = omega arith;
      tail-le = omega arith;
      links = λ k lt. absurd (omega (arith, lt));
      end_null = refl;
      full = λ k lt. absurd (omega (arith, lt));
      drained = λ k lt. absurd (omega (arith, lt));
      untouched = λ k lt. refl;
    };
    slots = record {
      fits = λ k c _ _. (refl, refl);
      put_bound = λ k c x e. absurd cc;
      got_put = λ k c x e. absurd cc;
      unclaimed = λ k c _ _ _ e. cc;
    };
    tickets = record {
      holder = λ i j a c h. absurd cc;
      held = λ i a c h. absurd cc;
      served = λ k c _ _ lt. absurd (omega (arith, lt));
    };
    local = λ j. tt;
  }

  pub Reach-Inv : {s : System} → Reach remap size s → Inv size remap s
  Reach-Inv start = init-Inv
  Reach-Inv (later r st) = Step-Inv (Reach-Inv r) st
