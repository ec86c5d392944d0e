-- ===== src/MsQueue/Empty.antt =====
-- What the return of false by `dequeue` tells.
use ispass2026_concurrent_qu.Common.{
  ℕ, ◌≡◌, sym, subst, refl, none, some, Option, update, update_elim, update_moved,
}
use ispass2026_concurrent_qu.MsQueue.{
  Pc, System, drained, idle, enq_load, enq_next, enq_check, enq_link, enq_help, enq_stamp,
  enq_swing, deq_head, deq_tail, deq_next, deq_check, deq_help, deq_read, deq_swing, deq_free,
}
use ispass2026_concurrent_qu.MsQueue.Steps.{
  go_to, call_enqueue, link, link_fails, move_tail, stamp, call_dequeue, return_false, move_head,
  free, Step, Reach, begin_enqueue, load_tail, load_next, tail_is_last, tail_is_behind, tail_moved,
  linked, not_linked, helped, not_helped, stamped, swung, not_swung, begin_dequeue, load_head,
  load_deq_tail, load_deq_next, found_empty, found_behind, found_gap, found_node, head_moved,
  deq_helped, not_deq_helped, read, taken, not_taken, deleted,
}
use ispass2026_concurrent_qu.MsQueue.Safety.{null_next_empty}
use ispass2026_concurrent_qu.MsQueue.During.{InDequeue, WasEmpty, Past, Reach-Past}

-- A thread inside `dequeue` is idle after a step: the step is its own.
dequeue_left :
    {R : Type 0} (s : System) (i j : ℕ) {x : Pc} (p : Pc)
    → s.pc j ≡ x
    → InDequeue (s.pc i)
    → update s.pc j p i ≡ idle
    → (j ≡ i → s.pc i ≡ x → InDequeue x → p ≡ idle → R)
    → R
dequeue_left s i j p was inside now own =
    update_moved s.pc i j p was refl now (λ f. absurd (subst InDequeue f inside))
      (λ same f g. own same (sym f) (subst InDequeue (sym f) inside) g)

not_none : (f : ℕ → Option ℕ) (j i v : ℕ) → j ≡ i → ¬ (update f j (some v) i ≡ none)
not_none f j i v same =
    update_elim (λ q. ¬ (q ≡ none)) f j (some v) i (λ _ q. cc) (λ ne. absurd (ne same))

module _ {s : System} (r : Reach s) (i : ℕ) (inside : InDequeue (s.pc i)) where
  -- If a step takes a thread out of `dequeue` with the result false, then there was a state during
  -- this call in which every value that had been pushed so far was popped.
  pub false_means_empty :
      {t : System} → Step s t → t.pc i ≡ idle → t.returned i ≡ none → WasEmpty s i
  unfolding go_to call_enqueue link link_fails move_tail stamp call_dequeue return_false move_head
      free
  false_means_empty (begin_enqueue j t v a junk h0 h1 e) now nul =
      dequeue_left s i j (enq_load a) e inside now (λ _ _ _ g. absurd cc)
  false_means_empty (load_tail j n e) now nul =
      dequeue_left s i j (enq_next n s.tail) e inside now (λ _ _ _ g. absurd cc)
  false_means_empty (load_next j n a ct e h1 h2) now nul =
      dequeue_left s i j (enq_check n ct (s.node a).next) e inside now (λ _ _ _ g. absurd cc)
  false_means_empty (tail_is_last j n ct nx e h1 h2) now nul =
      dequeue_left s i j (enq_link n ct nx) e inside now (λ _ _ _ g. absurd cc)
  false_means_empty (tail_is_behind j n b ct nx e h1 h2) now nul =
      dequeue_left s i j (enq_help n ct nx) e inside now (λ _ _ _ g. absurd cc)
  false_means_empty (tail_moved j n ct nx e h1) now nul =
      dequeue_left s i j (enq_load n) e inside now (λ _ _ _ g. absurd cc)
  false_means_empty (linked j n a ct nx e h1 h2 h3) now nul =
      dequeue_left s i j (enq_stamp n ct) e inside now (λ _ _ _ g. absurd cc)
  false_means_empty (not_linked j n ct nx e) now nul =
      dequeue_left s i j (enq_load n) e inside now (λ _ _ _ g. absurd cc)
  false_means_empty (helped j n ct nx e h1) now nul =
      dequeue_left s i j (enq_load n) e inside now (λ _ _ _ g. absurd cc)
  false_means_empty (not_helped j n ct nx e) now nul =
      dequeue_left s i j (enq_load n) e inside now (λ _ _ _ g. absurd cc)
  false_means_empty (stamped j n t ct e h1 h2) now nul =
      dequeue_left s i j (enq_swing n ct) e inside now (λ _ _ _ g. absurd cc)
  false_means_empty (swung j n ct e h1) now nul =
      dequeue_left s i j idle e inside now (λ _ _ out _. absurd out)
  false_means_empty (not_swung j n ct e) now nul =
      dequeue_left s i j idle e inside now (λ _ _ out _. absurd out)
  false_means_empty (begin_dequeue j t h0 e) now nul =
      dequeue_left s i j (deq_head t) e inside now (λ _ _ _ g. absurd cc)
  false_means_empty (load_head j inv e) now nul =
      dequeue_left s i j (deq_tail inv s.head) e inside now (λ _ _ _ g. absurd cc)
  false_means_empty (load_deq_tail j inv ch e) now nul =
      dequeue_left s i j (deq_next inv ch s.tail) e inside now (λ _ _ _ g. absurd cc)
  false_means_empty (load_deq_next j inv a ch ct e h1 h2) now nul =
      dequeue_left s i j (deq_check inv ch ct (s.node a).next (drained s.trace)) e inside now
        (λ _ _ _ g. absurd cc)
  false_means_empty (found_empty j inv ch ct nx saw e h1 h2 h3) now nul =
      dequeue_left s i j idle e inside now
        (λ _ f _ _. subst (Past s i) f (Reach-Past r i) (null_next_empty r i inv ch ct nx saw f h3))
  false_means_empty (found_behind j inv b ch ct nx saw e h1 h2 h3) now nul =
      dequeue_left s i j (deq_help inv ct nx) e inside now (λ _ _ _ g. absurd cc)
  false_means_empty (found_gap j inv ch ct nx saw e h1 h2 h3) now nul =
      dequeue_left s i j (deq_head inv) e inside now (λ _ _ _ g. absurd cc)
  false_means_empty (found_node j inv b ch ct nx saw e h1 h2 h3) now nul =
      dequeue_left s i j (deq_read inv ch nx) e inside now (λ _ _ _ g. absurd cc)
  false_means_empty (head_moved j inv ch ct nx saw e h1) now nul =
      dequeue_left s i j (deq_head inv) e inside now (λ _ _ _ g. absurd cc)
  false_means_empty (deq_helped j inv ct nx e h1) now nul =
      dequeue_left s i j (deq_head inv) e inside now (λ _ _ _ g. absurd cc)
  false_means_empty (not_deq_helped j inv ct nx e) now nul =
      dequeue_left s i j (deq_head inv) e inside now (λ _ _ _ g. absurd cc)
  false_means_empty (read j inv b ch nx e h1 h2) now nul =
      dequeue_left s i j
        (deq_swing inv ch nx (s.node b).value (s.node b).enq_inv_ts (s.node b).enq_lin_ts) e inside
        now (λ _ _ _ g. absurd cc)
  false_means_empty (taken j inv v enq_inv enq_lin t ch nx e h1 h2) now nul =
      dequeue_left s i j (deq_free ch v) e inside now (λ _ _ _ g. absurd cc)
  false_means_empty (not_taken j inv v enq_inv enq_lin ch nx e) now nul =
      dequeue_left s i j (deq_head inv) e inside now (λ _ _ _ g. absurd cc)
  false_means_empty (deleted j a v ch e h1) now nul =
      dequeue_left s i j idle e inside now
        (λ same _ _ _. absurd (not_none s.returned j i v same nul))
