-- ===== src/FaaArrayQueue/Empty.antt =====
-- What a dequeue that finds nothing tells.
use ispass2026_concurrent_qu.Common.{
  ℕ, ◌+◌, ◌<◌, ◌≡◌, refl, sym, subst, inl, inr, Option, none, some, update, update_elim,
  update_here, update_moved, arith, ◌≤◌,
}
use ispass2026_concurrent_qu.FaaArrayQueue.{
  Pc, System, idle, enq_load, enq_fetch, enq_full, enq_next, enq_new, enq_help, enq_stamp_new,
  enq_tail, enq_cas, enq_stamp, deq_load, deq_fetch, deq_drained, deq_head, deq_take, deq_stamp,
  deq_marker, deq_check, deq_next, deq_fix,
}
use ispass2026_concurrent_qu.FaaArrayQueue.Steps.{
  Step, Reach, start, later, go_to, leave, fetch_enq, fetch_deq, set_enq, cas_tail, cas_head,
  stamp_enq, stamp_deq, link, put, take, spoil, begin_enqueue, load_tail, fetched_slot,
  fetched_full, tail_moved, tail_same, no_next, has_next, linked, not_linked, helped, not_helped,
  stamped_new, swung, not_swung, put_item, put_fails, stamped, begin_dequeue, load_head, claimed,
  found_drained, found_end, found_next, head_swung, head_moved, took, spoiled, took_marker,
  stamped_taken, more_slots, no_more_slots, more_nodes, no_more_nodes, fixed, not_fixed,
}
use ispass2026_concurrent_qu.FaaArrayQueue.Order.{end-IsClaimed}
use ispass2026_concurrent_qu.FaaArrayQueue.Keep.{known}
use ispass2026_concurrent_qu.FaaArrayQueue.Invariant.{Reach-Inv}
use ispass2026_concurrent_qu.FaaArrayQueue.During.{
  InDequeue, stop, more, WasEmpty, Past, was_null, step-Past,
}

module _ (remap : ℕ → ℕ) (size : ℕ) (pos : 0 < size)
    (injective : (c d : ℕ) → c < size → d < size → remap c ≡ remap d → c ≡ d) where
  node_bound : {s : System} → Reach remap size s → (i a c : ℕ) → s.pc i ≡ deq_check a c → a ≤ s.last
  node_bound {s} r i a c e =
      let v = Reach-Inv remap size pos injective r in
      omega (arith, (known remap size pos injective s v i e).0, v.shape.head-le)

  Step-Past :
      {s t : System}
      → Reach remap size s
      → Step remap size s t
      → ((i : ℕ) → Past remap size s i (s.pc i))
      → (i : ℕ) → Past remap size t i (t.pc i)
  unfolding go_to leave fetch_enq fetch_deq set_enq cas_tail cas_head stamp_enq stamp_deq link put
      take spoil
  Step-Past {s} r (begin_enqueue j x e) old =
      step-Past remap size {s = s} j (enq_load x) (begin_enqueue j x e) refl old tt
  Step-Past {s} r (load_tail j x e) old =
      step-Past remap size {s = s} j (enq_fetch x s.tail) (load_tail j x e) refl old tt
  Step-Past {s} r (fetched_slot j x a e h1) old =
      step-Past remap size {s = s} j (enq_cas x a (s.enqidx a)) (fetched_slot j x a e h1) refl old
        tt
  Step-Past {s} r (fetched_full j x a e h1) old =
      step-Past remap size {s = s} j (enq_full x a) (fetched_full j x a e h1) refl old tt
  Step-Past {s} r (tail_moved j x a e h1) old =
      step-Past remap size {s = s} j (enq_load x) (tail_moved j x a e h1) refl old tt
  Step-Past {s} r (tail_same j x a e h1) old =
      step-Past remap size {s = s} j (enq_next x a) (tail_same j x a e h1) refl old tt
  Step-Past {s} r (no_next j x a e h1) old =
      step-Past remap size {s = s} j (enq_new x a) (no_next j x a e h1) refl old tt
  Step-Past {s} r (has_next j x a b e h1) old =
      step-Past remap size {s = s} j (enq_help x a b) (has_next j x a b e h1) refl old tt
  Step-Past {s} r (linked j x a e h1) old =
      step-Past remap size {s = s} j (enq_stamp_new x a (s.last + 1)) (linked j x a e h1) refl old
        tt
  Step-Past {s} r (not_linked j x a e h1) old =
      step-Past remap size {s = s} j (enq_load x) (not_linked j x a e h1) refl old tt
  Step-Past {s} r (helped j x a b e h1) old =
      step-Past remap size {s = s} j (enq_load x) (helped j x a b e h1) refl old tt
  Step-Past {s} r (not_helped j x a b e h1) old =
      step-Past remap size {s = s} j (enq_load x) (not_helped j x a b e h1) refl old tt
  Step-Past {s} r (stamped_new j x a b t e h1) old =
      step-Past remap size {s = s} j (enq_tail a b) (stamped_new j x a b t e h1) refl old tt
  Step-Past {s} r (swung j a b e h1) old =
      step-Past remap size {s = s} j idle (swung j a b e h1) refl old tt
  Step-Past {s} r (not_swung j a b e h1) old =
      step-Past remap size {s = s} j idle (not_swung j a b e h1) refl old tt
  Step-Past {s} r (put_item j x a c e h1) old =
      step-Past remap size {s = s} j (enq_stamp x) (put_item j x a c e h1) refl old tt
  Step-Past {s} r (put_fails j x a c e h1) old =
      step-Past remap size {s = s} j (enq_load x) (put_fails j x a c e h1) refl old tt
  Step-Past {s} r (stamped j x t e h1) old =
      step-Past remap size {s = s} j idle (stamped j x t e h1) refl old tt
  Step-Past {s} r (begin_dequeue j e) old =
      step-Past remap size {s = s} j deq_load (begin_dequeue j e) refl old tt
  Step-Past {s} r (load_head j e) old =
      step-Past remap size {s = s} j (deq_fetch s.head) (load_head j e) refl old tt
  Step-Past {s} r (claimed j a e h1) old =
      step-Past remap size {s = s} j (deq_take a (s.deqidx a)) (claimed j a e h1) refl old tt
  Step-Past {s} r (found_drained j a e h1) old =
      step-Past remap size {s = s} j (deq_drained a) (found_drained j a e h1) refl old tt
  Step-Past {s} r (found_end j a e h1) old =
      step-Past remap size {s = s} j idle (found_end j a e h1) refl old tt
  Step-Past {s} r (found_next j a b e h1) old =
      step-Past remap size {s = s} j (deq_head a b) (found_next j a b e h1) refl old tt
  Step-Past {s} r (head_swung j a b e h1) old =
      step-Past remap size {s = s} j deq_load (head_swung j a b e h1) refl old tt
  Step-Past {s} r (head_moved j a b e h1) old =
      step-Past remap size {s = s} j deq_load (head_moved j a b e h1) refl old tt
  Step-Past {s} r (took j x a c e h1) old =
      step-Past remap size {s = s} j (deq_stamp x) (took j x a c e h1) refl old tt
  Step-Past {s} r (spoiled j a c e h1) old =
      step-Past remap size {s = s} j (deq_check a c) (spoiled j a c e h1) refl old tt
  Step-Past {s} r (took_marker j a c e h1) old =
      step-Past remap size {s = s} j (deq_marker a c) (took_marker j a c e h1) refl old tt
  Step-Past {s} r (stamped_taken j x t e h1) old =
      step-Past remap size {s = s} j idle (stamped_taken j x t e h1) refl old tt
  Step-Past {s} r (more_slots j a c e h1) old =
      step-Past remap size {s = s} j (deq_fetch a) (more_slots j a c e h1) refl old tt
  Step-Past {s} r (no_more_slots j a c e h1) old =
      step-Past remap size {s = s} j (deq_next a c (s.enqidx a)) (no_more_slots j a c e h1) refl old
        (
          s,
          r,
          subst InDequeue (sym e) tt,
          more stop (no_more_slots j a c e h1)
              (subst InDequeue (sym (update_here s.pc j (deq_next a c (s.enqidx a)))) tt),
          node_bound r j a c e,
          λ nul. end-IsClaimed remap size pos injective r j a nul (inr (c, e, h1)),
        )
  Step-Past {s} r (more_nodes j a c t b e h1) old =
      step-Past remap size {s = s} j (deq_fetch a) (more_nodes j a c t b e h1) refl old tt
  Step-Past {s} r (no_more_nodes j a c t e h1) old =
      step-Past remap size {s = s} j (deq_fix a c t) (no_more_nodes j a c t e h1) refl old (
        let (w, reach, inside, run, le, h) = subst (Past remap size s j) e (old j) in
        (
          w,
          reach,
          inside,
          more run (no_more_nodes j a c t e h1)
              (subst InDequeue (sym (update_here s.pc j (deq_fix a c t))) tt),
          h (was_null remap size j a run le h1),
        ))
  Step-Past {s} r (fixed j a c t e h1) old =
      step-Past remap size {s = s} j idle (fixed j a c t e h1) refl old tt
  Step-Past {s} r (not_fixed j a c t e h1) old =
      step-Past remap size {s = s} j idle (not_fixed j a c t e h1) refl old tt

  Reach-Past : {s : System} → Reach remap size s → (i : ℕ) → Past remap size s i (s.pc i)
  Reach-Past start i = tt
  Reach-Past (later r st) i = Step-Past r st (Reach-Past r) i

  not_none : (f : ℕ → Option ℕ) (j i x : ℕ) → j ≡ i → ¬ (update f j (some x) i ≡ none)
  not_none f j i x same =
      update_elim (λ q. ¬ (q ≡ none)) f j (some x) i (λ _ q. cc) (λ ne. absurd (ne same))

  -- A thread inside `dequeue` is idle after a step: the step is its own.
  dequeue_left :
      {R : Type 0} (s : System) (i j : ℕ) {x : Pc} (p : Pc)
      → s.pc j ≡ x
      → InDequeue (s.pc i)
      → update s.pc j p i ≡ idle
      → (j ≡ i → s.pc i ≡ x → InDequeue x → p ≡ idle → R)
      → R
  dequeue_left s i j p was inside now own =
      update_moved s.pc i j p was refl now (λ f. absurd (subst InDequeue f inside))
        (λ same f g. own same (sym f) (subst InDequeue (sym f) inside) g)

  -- If a step takes a thread out of `dequeue` with the result null, then there was a state during this
  -- call in which every item that had been put into the queue was taken out, or another dequeuer had
  -- the ticket to take it.
  pub null_means_empty :
      {s t : System}
      → Reach remap size s
      → Step remap size s t
      → (i : ℕ) → InDequeue (s.pc i)
      → t.pc i ≡ idle
      → t.returned i ≡ none
      → WasEmpty remap size s i
  unfolding go_to leave fetch_enq fetch_deq set_enq cas_tail cas_head stamp_enq stamp_deq link put
      take spoil
  null_means_empty {s} r (begin_enqueue j x e) i inside now nul =
      dequeue_left s i j (enq_load x) e inside now (λ _ _ _ g. absurd cc)
  null_means_empty {s} r (load_tail j x e) i inside now nul =
      dequeue_left s i j (enq_fetch x s.tail) e inside now (λ _ _ _ g. absurd cc)
  null_means_empty {s} r (fetched_slot j x a e h1) i inside now nul =
      dequeue_left s i j (enq_cas x a (s.enqidx a)) e inside now (λ _ _ _ g. absurd cc)
  null_means_empty {s} r (fetched_full j x a e h1) i inside now nul =
      dequeue_left s i j (enq_full x a) e inside now (λ _ _ _ g. absurd cc)
  null_means_empty {s} r (tail_moved j x a e h1) i inside now nul =
      dequeue_left s i j (enq_load x) e inside now (λ _ _ _ g. absurd cc)
  null_means_empty {s} r (tail_same j x a e h1) i inside now nul =
      dequeue_left s i j (enq_next x a) e inside now (λ _ _ _ g. absurd cc)
  null_means_empty {s} r (no_next j x a e h1) i inside now nul =
      dequeue_left s i j (enq_new x a) e inside now (λ _ _ _ g. absurd cc)
  null_means_empty {s} r (has_next j x a b e h1) i inside now nul =
      dequeue_left s i j (enq_help x a b) e inside now (λ _ _ _ g. absurd cc)
  null_means_empty {s} r (linked j x a e h1) i inside now nul =
      dequeue_left s i j (enq_stamp_new x a (s.last + 1)) e inside now (λ _ _ _ g. absurd cc)
  null_means_empty {s} r (not_linked j x a e h1) i inside now nul =
      dequeue_left s i j (enq_load x) e inside now (λ _ _ _ g. absurd cc)
  null_means_empty {s} r (helped j x a b e h1) i inside now nul =
      dequeue_left s i j (enq_load x) e inside now (λ _ _ _ g. absurd cc)
  null_means_empty {s} r (not_helped j x a b e h1) i inside now nul =
      dequeue_left s i j (enq_load x) e inside now (λ _ _ _ g. absurd cc)
  null_means_empty {s} r (stamped_new j x a b t e h1) i inside now nul =
      dequeue_left s i j (enq_tail a b) e inside now (λ _ _ _ g. absurd cc)
  null_means_empty {s} r (swung j a b e h1) i inside now nul =
      dequeue_left s i j idle e inside now (λ _ _ out _. absurd out)
  null_means_empty {s} r (not_swung j a b e h1) i inside now nul =
      dequeue_left s i j idle e inside now (λ _ _ out _. absurd out)
  null_means_empty {s} r (put_item j x a c e h1) i inside now nul =
      dequeue_left s i j (enq_stamp x) e inside now (λ _ _ _ g. absurd cc)
  null_means_empty {s} r (put_fails j x a c e h1) i inside now nul =
      dequeue_left s i j (enq_load x) e inside now (λ _ _ _ g. absurd cc)
  null_means_empty {s} r (stamped j x t e h1) i inside now nul =
      dequeue_left s i j idle e inside now (λ _ _ out _. absurd out)
  null_means_empty {s} r (begin_dequeue j e) i inside now nul =
      dequeue_left s i j deq_load e inside now (λ _ _ _ g. absurd cc)
  null_means_empty {s} r (load_head j e) i inside now nul =
      dequeue_left s i j (deq_fetch s.head) e inside now (λ _ _ _ g. absurd cc)
  null_means_empty {s} r (claimed j a e h1) i inside now nul =
      dequeue_left s i j (deq_take a (s.deqidx a)) e inside now (λ _ _ _ g. absurd cc)
  null_means_empty {s} r (found_drained j a e h1) i inside now nul =
      dequeue_left s i j (deq_drained a) e inside now (λ _ _ _ g. absurd cc)
  null_means_empty {s} r (found_end j a e h1) i inside now nul =
      dequeue_left s i j idle e inside now
        (λ _ f _ _. (s, r, inside, stop, end-IsClaimed remap size pos injective r i a h1 (inl f)))
  null_means_empty {s} r (found_next j a b e h1) i inside now nul =
      dequeue_left s i j (deq_head a b) e inside now (λ _ _ _ g. absurd cc)
  null_means_empty {s} r (head_swung j a b e h1) i inside now nul =
      dequeue_left s i j deq_load e inside now (λ _ _ _ g. absurd cc)
  null_means_empty {s} r (head_moved j a b e h1) i inside now nul =
      dequeue_left s i j deq_load e inside now (λ _ _ _ g. absurd cc)
  null_means_empty {s} r (took j x a c e h1) i inside now nul =
      dequeue_left s i j (deq_stamp x) e inside now (λ _ _ _ g. absurd cc)
  null_means_empty {s} r (spoiled j a c e h1) i inside now nul =
      dequeue_left s i j (deq_check a c) e inside now (λ _ _ _ g. absurd cc)
  null_means_empty {s} r (took_marker j a c e h1) i inside now nul =
      dequeue_left s i j (deq_marker a c) e inside now (λ _ _ _ g. absurd cc)
  null_means_empty {s} r (stamped_taken j x t e h1) i inside now nul =
      dequeue_left s i j idle e inside now
        (λ same _ _ _. absurd (not_none s.returned j i x same nul))
  null_means_empty {s} r (more_slots j a c e h1) i inside now nul =
      dequeue_left s i j (deq_fetch a) e inside now (λ _ _ _ g. absurd cc)
  null_means_empty {s} r (no_more_slots j a c e h1) i inside now nul =
      dequeue_left s i j (deq_next a c (s.enqidx a)) e inside now (λ _ _ _ g. absurd cc)
  null_means_empty {s} r (more_nodes j a c t b e h1) i inside now nul =
      dequeue_left s i j (deq_fetch a) e inside now (λ _ _ _ g. absurd cc)
  null_means_empty {s} r (no_more_nodes j a c t e h1) i inside now nul =
      dequeue_left s i j (deq_fix a c t) e inside now (λ _ _ _ g. absurd cc)
  null_means_empty {s} r (fixed j a c t e h1) i inside now nul =
      dequeue_left s i j idle e inside now
        (λ _ f _ _. subst (Past remap size s i) f (Reach-Past r i))
  null_means_empty {s} r (not_fixed j a c t e h1) i inside now nul =
      dequeue_left s i j idle e inside now
        (λ _ f _ _. subst (Past remap size s i) f (Reach-Past r i))
