-- ===== src/FaaArrayQueue/Behind.antt =====
-- The slots that enqueuers claim.
use ispass2026_concurrent_qu.Common.{ℕ, ◌+◌, ◌<◌, ◌≡◌, subst, some, update_moved}
use ispass2026_concurrent_qu.FaaArrayQueue.{
  put_at, System, idle, enq_load, enq_fetch, enq_full, enq_next, enq_new, enq_help, enq_stamp_new,
  enq_tail, enq_cas, enq_stamp, deq_load, deq_fetch, deq_drained, deq_head, deq_take, deq_stamp,
  deq_marker, deq_check, deq_next, deq_fix,
}
use ispass2026_concurrent_qu.FaaArrayQueue.Steps.{
  Step, Reach, go_to, leave, fetch_enq, fetch_deq, set_enq, cas_tail, cas_head, stamp_enq,
  stamp_deq, link, put, take, spoil, begin_enqueue, load_tail, fetched_slot, fetched_full,
  tail_moved, tail_same, no_next, has_next, linked, not_linked, helped, not_helped, stamped_new,
  swung, not_swung, put_item, put_fails, stamped, begin_dequeue, load_head, claimed, found_drained,
  found_end, found_next, head_swung, head_moved, took, spoiled, took_marker, stamped_taken,
  more_slots, no_more_slots, more_nodes, no_more_nodes, fixed, not_fixed,
}
use ispass2026_concurrent_qu.FaaArrayQueue.Order.{Before, slot_behind}

slot_inj : {x y a b c d : ℕ} → enq_cas x a c ≡ enq_cas y b d → (a ≡ b) × (c ≡ d)
slot_inj e = (cc, cc)

module _ (remap : ℕ → ℕ) (size : ℕ) (pos : 0 < size)
    (injective : (c d : ℕ) → c < size → d < size → remap c ≡ remap d → c ≡ d) where
  -- A slot that a thread claims for its item in a step from a reachable state is behind every place
  -- into which an item was put so far.
  pub enqueue_behind :
      {s t : System}
      → Reach remap size s
      → Step remap size s t
      → (i x a y b c k d z : ℕ) → s.pc i ≡ enq_fetch x a
      → t.pc i ≡ enq_cas y b c
      → put_at s.trace k d ≡ some z
      → Before k d b c
  unfolding go_to leave fetch_enq fetch_deq set_enq cas_tail cas_head stamp_enq stamp_deq link put
      take spoil
  enqueue_behind {s} r (begin_enqueue j x1 e) i x a y b c k d z at now full =
      update_moved s.pc i j (enq_load x1) e at now (λ f. absurd cc) (λ _ f g. absurd cc)
  enqueue_behind {s} r (load_tail j x1 e) i x a y b c k d z at now full =
      update_moved s.pc i j (enq_fetch x1 s.tail) e at now (λ f. absurd cc) (λ _ f g. absurd cc)
  enqueue_behind {s} r (fetched_slot j x1 a1 e h1) i x a y b c k d z at now full =
      update_moved s.pc i j (enq_cas x1 a1 (s.enqidx a1)) e at now (λ f. absurd cc)
        (λ _ f g.
          let (same, at_slot) = slot_inj g in
          subst (λ m. Before k d m c) same
            (subst (Before k d a1) at_slot
              (slot_behind remap size pos injective r j x1 a1 k d z e h1 full)))
  enqueue_behind {s} r (fetched_full j x1 a1 e h1) i x a y b c k d z at now full =
      update_moved s.pc i j (enq_full x1 a1) e at now (λ f. absurd cc) (λ _ f g. absurd cc)
  enqueue_behind {s} r (tail_moved j x1 a1 e h1) i x a y b c k d z at now full =
      update_moved s.pc i j (enq_load x1) e at now (λ f. absurd cc) (λ _ f g. absurd cc)
  enqueue_behind {s} r (tail_same j x1 a1 e h1) i x a y b c k d z at now full =
      update_moved s.pc i j (enq_next x1 a1) e at now (λ f. absurd cc) (λ _ f g. absurd cc)
  enqueue_behind {s} r (no_next j x1 a1 e h1) i x a y b c k d z at now full =
      update_moved s.pc i j (enq_new x1 a1) e at now (λ f. absurd cc) (λ _ f g. absurd cc)
  enqueue_behind {s} r (has_next j x1 a1 b1 e h1) i x a y b c k d z at now full =
      update_moved s.pc i j (enq_help x1 a1 b1) e at now (λ f. absurd cc) (λ _ f g. absurd cc)
  enqueue_behind {s} r (linked j x1 a1 e h1) i x a y b c k d z at now full =
      update_moved s.pc i j (enq_stamp_new x1 a1 (s.last + 1)) e at now (λ f. absurd cc)
        (λ _ f g. absurd cc)
  enqueue_behind {s} r (not_linked j x1 a1 e h1) i x a y b c k d z at now full =
      update_moved s.pc i j (enq_load x1) e at now (λ f. absurd cc) (λ _ f g. absurd cc)
  enqueue_behind {s} r (helped j x1 a1 b1 e h1) i x a y b c k d z at now full =
      update_moved s.pc i j (enq_load x1) e at now (λ f. absurd cc) (λ _ f g. absurd cc)
  enqueue_behind {s} r (not_helped j x1 a1 b1 e h1) i x a y b c k d z at now full =
      update_moved s.pc i j (enq_load x1) e at now (λ f. absurd cc) (λ _ f g. absurd cc)
  enqueue_behind {s} r (stamped_new j x1 a1 b1 t1 e h1) i x a y b c k d z at now full =
      update_moved s.pc i j (enq_tail a1 b1) e at now (λ f. absurd cc) (λ _ f g. absurd cc)
  enqueue_behind {s} r (swung j a1 b1 e h1) i x a y b c k d z at now full =
      update_moved s.pc i j idle e at now (λ f. absurd cc) (λ _ f g. absurd cc)
  enqueue_behind {s} r (not_swung j a1 b1 e h1) i x a y b c k d z at now full =
      update_moved s.pc i j idle e at now (λ f. absurd cc) (λ _ f g. absurd cc)
  enqueue_behind {s} r (put_item j x1 a1 c1 e h1) i x a y b c k d z at now full =
      update_moved s.pc i j (enq_stamp x1) e at now (λ f. absurd cc) (λ _ f g. absurd cc)
  enqueue_behind {s} r (put_fails j x1 a1 c1 e h1) i x a y b c k d z at now full =
      update_moved s.pc i j (enq_load x1) e at now (λ f. absurd cc) (λ _ f g. absurd cc)
  enqueue_behind {s} r (stamped j x1 t1 e h1) i x a y b c k d z at now full =
      update_moved s.pc i j idle e at now (λ f. absurd cc) (λ _ f g. absurd cc)
  enqueue_behind {s} r (begin_dequeue j e) i x a y b c k d z at now full =
      update_moved s.pc i j deq_load e at now (λ f. absurd cc) (λ _ f g. absurd cc)
  enqueue_behind {s} r (load_head j e) i x a y b c k d z at now full =
      update_moved s.pc i j (deq_fetch s.head) e at now (λ f. absurd cc) (λ _ f g. absurd cc)
  enqueue_behind {s} r (claimed j a1 e h1) i x a y b c k d z at now full =
      update_moved s.pc i j (deq_take a1 (s.deqidx a1)) e at now (λ f. absurd cc)
        (λ _ f g. absurd cc)
  enqueue_behind {s} r (found_drained j a1 e h1) i x a y b c k d z at now full =
      update_moved s.pc i j (deq_drained a1) e at now (λ f. absurd cc) (λ _ f g. absurd cc)
  enqueue_behind {s} r (found_end j a1 e h1) i x a y b c k d z at now full =
      update_moved s.pc i j idle e at now (λ f. absurd cc) (λ _ f g. absurd cc)
  enqueue_behind {s} r (found_next j a1 b1 e h1) i x a y b c k d z at now full =
      update_moved s.pc i j (deq_head a1 b1) e at now (λ f. absurd cc) (λ _ f g. absurd cc)
  enqueue_behind {s} r (head_swung j a1 b1 e h1) i x a y b c k d z at now full =
      update_moved s.pc i j deq_load e at now (λ f. absurd cc) (λ _ f g. absurd cc)
  enqueue_behind {s} r (head_moved j a1 b1 e h1) i x a y b c k d z at now full =
      update_moved s.pc i j deq_load e at now (λ f. absurd cc) (λ _ f g. absurd cc)
  enqueue_behind {s} r (took j x1 a1 c1 e h1) i x a y b c k d z at now full =
      update_moved s.pc i j (deq_stamp x1) e at now (λ f. absurd cc) (λ _ f g. absurd cc)
  enqueue_behind {s} r (spoiled j a1 c1 e h1) i x a y b c k d z at now full =
      update_moved s.pc i j (deq_check a1 c1) e at now (λ f. absurd cc) (λ _ f g. absurd cc)
  enqueue_behind {s} r (took_marker j a1 c1 e h1) i x a y b c k d z at now full =
      update_moved s.pc i j (deq_marker a1 c1) e at now (λ f. absurd cc) (λ _ f g. absurd cc)
  enqueue_behind {s} r (stamped_taken j x1 t1 e h1) i x a y b c k d z at now full =
      update_moved s.pc i j idle e at now (λ f. absurd cc) (λ _ f g. absurd cc)
  enqueue_behind {s} r (more_slots j a1 c1 e h1) i x a y b c k d z at now full =
      update_moved s.pc i j (deq_fetch a1) e at now (λ f. absurd cc) (λ _ f g. absurd cc)
  enqueue_behind {s} r (no_more_slots j a1 c1 e h1) i x a y b c k d z at now full =
      update_moved s.pc i j (deq_next a1 c1 (s.enqidx a1)) e at now (λ f. absurd cc)
        (λ _ f g. absurd cc)
  enqueue_behind {s} r (more_nodes j a1 c1 t1 b1 e h1) i x a y b c k d z at now full =
      update_moved s.pc i j (deq_fetch a1) e at now (λ f. absurd cc) (λ _ f g. absurd cc)
  enqueue_behind {s} r (no_more_nodes j a1 c1 t1 e h1) i x a y b c k d z at now full =
      update_moved s.pc i j (deq_fix a1 c1 t1) e at now (λ f. absurd cc) (λ _ f g. absurd cc)
  enqueue_behind {s} r (fixed j a1 c1 t1 e h1) i x a y b c k d z at now full =
      update_moved s.pc i j idle e at now (λ f. absurd cc) (λ _ f g. absurd cc)
  enqueue_behind {s} r (not_fixed j a1 c1 t1 e h1) i x a y b c k d z at now full =
      update_moved s.pc i j idle e at now (λ f. absurd cc) (λ _ f g. absurd cc)
