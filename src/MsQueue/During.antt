-- ===== src/MsQueue/During.antt =====
-- What a thread inside one call of `dequeue` has seen.
use ispass2026_concurrent_qu.Common.{
  ℕ, ◌≡◌, sym, subst, ap, ◌∙◌, refl, true, update, update_elim, update_here,
}
use ispass2026_concurrent_qu.MsQueue.{
  Pc, System, drained, idle, enq_load, enq_next, enq_check, enq_link, enq_help, enq_stamp,
  enq_swing, deq_head, deq_tail, deq_next, deq_check, deq_help, deq_read, deq_swing, deq_free,
}
use ispass2026_concurrent_qu.MsQueue.Steps.{
  go_to, call_enqueue, link, link_fails, move_tail, stamp, call_dequeue, return_false, move_head,
  free, Step, Reach, start, later, begin_enqueue, load_tail, load_next, tail_is_last,
  tail_is_behind, tail_moved, linked, not_linked, helped, not_helped, stamped, swung, not_swung,
  begin_dequeue, load_head, load_deq_tail, load_deq_next, found_empty, found_behind, found_gap,
  found_node, head_moved, deq_helped, not_deq_helped, read, taken, not_taken, deleted,
}

-- The thread is inside `dequeue`.
abbrev pub InDequeue : Pc → Type 0
InDequeue (deq_head inv) = Unit
InDequeue (deq_tail inv ch) = Unit
InDequeue (deq_next inv ch ct) = Unit
InDequeue (deq_check inv ch ct nx saw) = Unit
InDequeue (deq_help inv ct nx) = Unit
InDequeue (deq_read inv ch nx) = Unit
InDequeue (deq_swing inv ch nx v enq_inv enq_lin) = Unit
InDequeue (deq_free ch v) = Unit
InDequeue _ = ⊥

-- A run in which thread `i` stays inside one call of `dequeue`.
pub data During (i : ℕ) (r : System) : System → Type 0 where
  stop : During i r r
  more : {s t : System} → During i r s → Step s t → InDequeue (t.pc i) → During i r t

-- At some state since the call began, every value that was pushed so far was popped.
abbrev pub WasEmpty : System → ℕ → Type 0
WasEmpty s i = (r : System) × Reach r × InDequeue (r.pc i) × During i r s × (drained r.trace ≡ true)

abbrev pub Past : System → ℕ → Pc → Type 0
Past s i (deq_check inv ch ct nx saw) = saw ≡ true → WasEmpty s i
Past s i _ = Unit

kept-Past : {s t : System} (i : ℕ) (p : Pc) → Step s t → t.pc i ≡ p → Past s i p → Past t i p
kept-Past i idle st e h = tt
kept-Past i (enq_load a) st e h = tt
kept-Past i (enq_next a b) st e h = tt
kept-Past i (enq_check a b c) st e h = tt
kept-Past i (enq_link a b c) st e h = tt
kept-Past i (enq_help a b c) st e h = tt
kept-Past i (enq_stamp a b) st e h = tt
kept-Past i (enq_swing a b) st e h = tt
kept-Past i (deq_head a) st e h = tt
kept-Past i (deq_tail a b) st e h = tt
kept-Past i (deq_next a b c) st e h = tt
kept-Past i (deq_help a b c) st e h = tt
kept-Past i (deq_read a b c) st e h = tt
kept-Past i (deq_swing a b c d f g) st e h = tt
kept-Past i (deq_free a b) st e h = tt
kept-Past i (deq_check a b c d f) st e h = λ saw.
    let (r, reach, inside, run, empty) = h saw in
    (r, reach, inside, more run st (subst InDequeue (sym e) tt), empty)

step-Past :
    {s t : System} (j : ℕ) (p : Pc)
    → Step s t
    → t.pc ≡ update s.pc j p
    → ((i : ℕ) → Past s i (s.pc i))
    → Past t j p
    → (i : ℕ) → Past t i (t.pc i)
step-Past {s} {t} j p st e old new i = subst (Past t i) (sym (ap (λ f. f i) e)) (
    update_elim (λ q. update s.pc j p i ≡ q → Past t i q) s.pc j p i
      (λ same _. subst (λ m. Past t m p) same new)
      (λ ne eq. kept-Past i (s.pc i) st (ap (λ f. f i) e ∙ eq) (old i)) refl)

Step-Past :
    {s t : System}
    → Reach s
    → Step s t
    → ((i : ℕ) → Past s i (s.pc i))
    → (i : ℕ) → Past t i (t.pc i)
unfolding go_to call_enqueue link link_fails move_tail stamp call_dequeue return_false move_head
    free
Step-Past {s} r (begin_enqueue j t v a junk h0 h1 e) old =
    step-Past {s = s} j (enq_load a) (begin_enqueue j t v a junk h0 h1 e) refl old tt
Step-Past {s} r (load_tail j n e) old =
    step-Past {s = s} j (enq_next n s.tail) (load_tail j n e) refl old tt
Step-Past {s} r (load_next j n a ct e h1 h2) old =
    step-Past {s = s} j (enq_check n ct (s.node a).next) (load_next j n a ct e h1 h2) refl old tt
Step-Past {s} r (tail_is_last j n ct nx e h1 h2) old =
    step-Past {s = s} j (enq_link n ct nx) (tail_is_last j n ct nx e h1 h2) refl old tt
Step-Past {s} r (tail_is_behind j n b ct nx e h1 h2) old =
    step-Past {s = s} j (enq_help n ct nx) (tail_is_behind j n b ct nx e h1 h2) refl old tt
Step-Past {s} r (tail_moved j n ct nx e h1) old =
    step-Past {s = s} j (enq_load n) (tail_moved j n ct nx e h1) refl old tt
Step-Past {s} r (linked j n a ct nx e h1 h2 h3) old =
    step-Past {s = s} j (enq_stamp n ct) (linked j n a ct nx e h1 h2 h3) refl old tt
Step-Past {s} r (not_linked j n ct nx e) old =
    step-Past {s = s} j (enq_load n) (not_linked j n ct nx e) refl old tt
Step-Past {s} r (helped j n ct nx e h1) old =
    step-Past {s = s} j (enq_load n) (helped j n ct nx e h1) refl old tt
Step-Past {s} r (not_helped j n ct nx e) old =
    step-Past {s = s} j (enq_load n) (not_helped j n ct nx e) refl old tt
Step-Past {s} r (stamped j n t ct e h1 h2) old =
    step-Past {s = s} j (enq_swing n ct) (stamped j n t ct e h1 h2) refl old tt
Step-Past {s} r (swung j n ct e h1) old = step-Past {s = s} j idle (swung j n ct e h1) refl old tt
Step-Past {s} r (not_swung j n ct e) old = step-Past {s = s} j idle (not_swung j n ct e) refl old tt
Step-Past {s} r (begin_dequeue j t h0 e) old =
    step-Past {s = s} j (deq_head t) (begin_dequeue j t h0 e) refl old tt
Step-Past {s} r (load_head j inv e) old =
    step-Past {s = s} j (deq_tail inv s.head) (load_head j inv e) refl old tt
Step-Past {s} r (load_deq_tail j inv ch e) old =
    step-Past {s = s} j (deq_next inv ch s.tail) (load_deq_tail j inv ch e) refl old tt
Step-Past {s} r (load_deq_next j inv a ch ct e h1 h2) old =
    step-Past {s = s} j (deq_check inv ch ct (s.node a).next (drained s.trace))
      (load_deq_next j inv a ch ct e h1 h2) refl old
      (λ empty. (
        s,
        r,
        subst InDequeue (sym e) tt,
        more stop (load_deq_next j inv a ch ct e h1 h2) (
            subst InDequeue
              (sym (update_here s.pc j (deq_check inv ch ct (s.node a).next (drained s.trace))))
              tt),
        empty,
      ))
Step-Past {s} r (found_empty j inv ch ct nx saw e h1 h2 h3) old =
    step-Past {s = s} j idle (found_empty j inv ch ct nx saw e h1 h2 h3) refl old tt
Step-Past {s} r (found_behind j inv b ch ct nx saw e h1 h2 h3) old =
    step-Past {s = s} j (deq_help inv ct nx) (found_behind j inv b ch ct nx saw e h1 h2 h3) refl old
      tt
Step-Past {s} r (found_gap j inv ch ct nx saw e h1 h2 h3) old =
    step-Past {s = s} j (deq_head inv) (found_gap j inv ch ct nx saw e h1 h2 h3) refl old tt
Step-Past {s} r (found_node j inv b ch ct nx saw e h1 h2 h3) old =
    step-Past {s = s} j (deq_read inv ch nx) (found_node j inv b ch ct nx saw e h1 h2 h3) refl old
      tt
Step-Past {s} r (head_moved j inv ch ct nx saw e h1) old =
    step-Past {s = s} j (deq_head inv) (head_moved j inv ch ct nx saw e h1) refl old tt
Step-Past {s} r (deq_helped j inv ct nx e h1) old =
    step-Past {s = s} j (deq_head inv) (deq_helped j inv ct nx e h1) refl old tt
Step-Past {s} r (not_deq_helped j inv ct nx e) old =
    step-Past {s = s} j (deq_head inv) (not_deq_helped j inv ct nx e) refl old tt
Step-Past {s} r (read j inv b ch nx e h1 h2) old =
    step-Past {s = s} j
      (deq_swing inv ch nx (s.node b).value (s.node b).enq_inv_ts (s.node b).enq_lin_ts)
      (read j inv b ch nx e h1 h2) refl old tt
Step-Past {s} r (taken j inv v enq_inv enq_lin t ch nx e h1 h2) old =
    step-Past {s = s} j (deq_free ch v) (taken j inv v enq_inv enq_lin t ch nx e h1 h2) refl old tt
Step-Past {s} r (not_taken j inv v enq_inv enq_lin ch nx e) old =
    step-Past {s = s} j (deq_head inv) (not_taken j inv v enq_inv enq_lin ch nx e) refl old tt
Step-Past {s} r (deleted j a v ch e h1) old =
    step-Past {s = s} j idle (deleted j a v ch e h1) refl old tt

pub Reach-Past : {s : System} → Reach s → (i : ℕ) → Past s i (s.pc i)
Reach-Past start i = tt
Reach-Past (later r st) i = Step-Past r st (Reach-Past r) i
