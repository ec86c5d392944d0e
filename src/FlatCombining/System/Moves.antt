-- ===== src/FlatCombining/System/Moves.antt =====
-- The invariant of the flat combining queue, and the steps that leave all slots to their threads.
use ispass2026_concurrent_qu.Common.{
  ℕ, ◌+◌, ◌≤◌, ◌<◌, ◌≡◌, refl, sym, ◌∙◌, ap, subst, Bool, true, false, List, none, some, arith,
  update, update_elim, update_elim_three, some_inj,
}
use ispass2026_concurrent_qu.FlatCombining.Slot.{
  Opcode, Operation, publish_enqueue, publish_dequeue,
}
use ispass2026_concurrent_qu.FlatCombining.System.{
  Mode, enq, deq, Pc, idle, waiting, scanning, Event, System, leave, lock_ok, go_to, unlock,
}
use ispass2026_concurrent_qu.FlatCombining.System.Local.{Fits, in_dequeue, Local}

abbrev pub is_scanning : Pc → Bool
is_scanning (scanning m j) = true
is_scanning _ = false

pub record Inv (n : ℕ) (s : System) : Type 0 where
  pub local : (k : ℕ) → Local n k (s.pc k) (s.slots k) s.trace (s.calls k)
  pub holds : (k : ℕ) → is_scanning (s.pc k) ≡ true → s.lock ≡ some k
  pub held : (k : ℕ) → s.lock ≡ some k → is_scanning (s.pc k) ≡ true

-- A move of one thread that keeps its slot.
pub move-Local :
    {n k : ℕ} {p p' : Pc} {slot : Operation} {tr : List Event} {calls : ℕ}
    → Local n k p slot tr calls
    → Fits n k p' slot.opcode
    → (in_dequeue p' ≡ true → slot.opcode ≡ Opcode.done → in_dequeue p ≡ true)
    → Local n k p' slot tr calls
move-Local h f d = record { fits = f; once = h.once; answered = λ e o. h.answered (d e o) o }

module _ {n : ℕ} {s : System} (inv : Inv n s) where
  -- A step that changes nothing but where thread `i` stands.
  pub go_to-local :
      (i : ℕ) (p : Pc)
      → Local n i p (s.slots i) s.trace (s.calls i)
      → (k : ℕ) → Local n k (update s.pc i p k) (s.slots k) s.trace (s.calls k)
  go_to-local i p h k =
      update_elim (λ x. Local n k x (s.slots k) s.trace (s.calls k)) s.pc i p k
        (λ e. subst (λ j. Local n j p (s.slots j) s.trace (s.calls j)) e h) (λ ne. inv.local k)

  -- A new call.
  pub call-Local :
      (i : ℕ) (p : Pc) (slot : Operation)
      → Local n i p slot s.trace (s.calls i + 1)
      → (k : ℕ)
      → Local n k
          (update s.pc i p k)
          (update s.slots i slot k)
          s.trace
          (update s.calls i (s.calls i + 1) k)
  call-Local i p slot h k =
      update_elim_three (λ x y c. Local n k x y s.trace c) s.pc s.slots s.calls i p slot
        (s.calls i + 1) k (λ e. subst (λ j. Local n j p slot s.trace (s.calls i + 1)) e h)
        (λ ne. inv.local k)

  pub begin_enqueue-Local :
      (i t item : ℕ)
      → i < n
      → s.pc i ≡ idle
      → Local n i (waiting enq) (publish_enqueue t item (s.slots i)) s.trace (s.calls i + 1)
  unfolding publish_enqueue
  begin_enqueue-Local i t item lt e = ground (arith, inv.local i)

  pub begin_dequeue-Local :
      (i t : ℕ)
      → i < n
      → s.pc i ≡ idle
      → Local n i (waiting deq) (publish_dequeue t (s.slots i)) s.trace (s.calls i + 1)
  unfolding publish_dequeue
  begin_dequeue-Local i t lt e = ground (arith, inv.local i)

  -- A step of thread `i` that neither takes nor frees the lock.
  pub same-holds :
      (i : ℕ) (p : Pc)
      → is_scanning p ≡ is_scanning (s.pc i)
      → (k : ℕ) → is_scanning (update s.pc i p k) ≡ true
      → s.lock ≡ some k
  same-holds i p e k =
      update_elim (λ x. is_scanning x ≡ true → s.lock ≡ some k) s.pc i p k
        (λ q h. inv.holds k (ap (λ j. is_scanning (s.pc j)) (sym q) ∙ sym e ∙ h))
        (λ ne. inv.holds k)

  pub same-held :
      (i : ℕ) (p : Pc)
      → is_scanning p ≡ is_scanning (s.pc i)
      → (k : ℕ) → s.lock ≡ some k
      → is_scanning (update s.pc i p k) ≡ true
  same-held i p e k h =
      update_elim (λ x. is_scanning x ≡ true) s.pc i p k
        (λ q. e ∙ ap (λ j. is_scanning (s.pc j)) q ∙ inv.held k h) (λ ne. inv.held k h)

  pub go_to-Inv :
      (i : ℕ) (p : Pc)
      → is_scanning p ≡ is_scanning (s.pc i)
      → Local n i p (s.slots i) s.trace (s.calls i)
      → Inv n (go_to i p s)
  unfolding go_to
  go_to-Inv i p e h = record {
    local = go_to-local i p h;
    holds = same-holds i p e;
    held = same-held i p e;
  }

  pub locked-Inv : (i : ℕ) (m : Mode) → s.pc i ≡ waiting m → s.lock ≡ none → Inv n (lock_ok i m s)
  unfolding lock_ok
  locked-Inv i m e free = record {
    local = go_to-local i (scanning m 0) (ground (arith, inv.local i));
    holds = λ k.
        update_elim (λ x. is_scanning x ≡ true → some i ≡ some k) s.pc i (scanning m 0) k
          (λ q h. ap some q) (λ ne h. absurd (none_held k h));
    held = λ k h.
        update_elim (λ x. is_scanning x ≡ true) s.pc i (scanning m 0) k (λ q. refl)
          (λ ne. absurd (ne (some_inj h)));
  }
    where
      none_held : (k : ℕ) → is_scanning (s.pc k) ≡ true → ⊥
      none_held k h = let e : s.lock ≡ some k = inv.holds k h in cc

  pub scanned-Inv :
      (i : ℕ) (m : Mode) (j : ℕ) → s.pc i ≡ scanning m j → n ≤ j → Inv n (unlock i m s)
  unfolding unlock
  scanned-Inv i m j e le = record {
    local = go_to-local i (leave m) (left m e);
    holds = λ k.
        update_elim (λ x. is_scanning x ≡ true → none ≡ some k) s.pc i (leave m) k
          (λ q h. absurd (not_scanning m h)) (λ ne h. absurd (ne (one k h)));
    held = λ k h. cc;
  }
    where
      left :
          (m : Mode) → s.pc i ≡ scanning m j → Local n i (leave m) (s.slots i) s.trace (s.calls i)
      left enq e = ground (arith, inv.local i)
      left deq e = ground (arith, inv.local i)

      not_scanning : (m : Mode) → is_scanning (leave m) ≡ true → ⊥
      not_scanning enq h = cc
      not_scanning deq h = cc

      one : (k : ℕ) → is_scanning (s.pc k) ≡ true → i ≡ k
      one k h = some_inj (sym (inv.holds i (ap is_scanning e)) ∙ inv.holds k h)
