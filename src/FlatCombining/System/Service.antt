-- ===== src/FlatCombining/System/Service.antt =====
-- Every request is served once, before its call returns, and by the one thread that has the lock.
use ispass2026_concurrent_qu.Common.{
  ℕ, ◌+◌, ◌<◌, ◌≡◌, refl, sym, ◌∙◌, ap, subst, Bool, true, false, ◌++◌, arith, update, update_elim,
  ℕ_discrete,
}
use ispass2026_concurrent_qu.FlatCombining.Slot.{Opcode, publish_enqueue, publish_dequeue, serve}
use ispass2026_concurrent_qu.FlatCombining.System.{
  Mode, enq, deq, idle, waiting, checking, scanning, finishing, System, leave, serve_event, Step,
  begin_enqueue, begin_dequeue, locked, busy, served, again, scan, scanned, finish, init, Reach,
  start, later, call_enqueue, call_dequeue, go_to, scan_slot, finish_slot, finish_dequeue,
}
use ispass2026_concurrent_qu.FlatCombining.System.Local.{
  Fits, in_dequeue, Local, serve-done, serve-Local, other-Local,
}
use ispass2026_concurrent_qu.FlatCombining.System.Moves.{
  is_scanning, Inv, go_to-local, call-Local, begin_enqueue-Local, begin_dequeue-Local, same-holds,
  same-held, go_to-Inv, locked-Inv, scanned-Inv,
}

module _ {n : ℕ} {s : System} (inv : Inv n s) where
  -- The served slot, and the others; then the scanning thread goes on.
  scan-slots :
      (j t : ℕ) (k : ℕ)
      → Local n k
          (s.pc k)
          (update s.slots j (serve t (s.slots j) s.q).0 k)
          (serve_event j t (s.slots j) s.q ++ s.trace)
          (s.calls k)
  scan-slots j t k =
      update_elim
        (λ x. Local n k (s.pc k) x (serve_event j t (s.slots j) s.q ++ s.trace) (s.calls k)) s.slots
        j (serve t (s.slots j) s.q).0 k
        (λ e.
          subst
            (λ i.
              Local n i (s.pc i) (serve t (s.slots j) s.q).0
                (serve_event j t (s.slots j) s.q ++ s.trace) (s.calls i))
            e (serve-Local t s.q (inv.local j)))
        (λ ne. other-Local j t (s.slots j) s.q ne (inv.local k))

  scan-Inv :
      (i : ℕ) (m : Mode) (j t : ℕ) → s.pc i ≡ scanning m j → j < n → Inv n (scan_slot i m j t s)
  unfolding scan_slot
  scan-Inv i m j t e lt = record {
    local = λ k.
        update_elim
          (λ x.
            Local n k x (update s.slots j (serve t (s.slots j) s.q).0 k)
              (serve_event j t (s.slots j) s.q ++ s.trace) (s.calls k))
          s.pc i (scanning m (j + 1)) k (λ q. advance k q) (λ ne. scan-slots j t k);
    holds = same-holds inv i (scanning m (j + 1)) (sym (ap is_scanning e));
    held = same-held inv i (scanning m (j + 1)) (sym (ap is_scanning e));
  }
    where
      advance :
          (k : ℕ)
          → i ≡ k
          → Local n k
              (scanning m (j + 1))
              (update s.slots j (serve t (s.slots j) s.q).0 k)
              (serve_event j t (s.slots j) s.q ++ s.trace)
              (s.calls k)
      advance k q = record {
        fits = (old.0, λ h. split h, omega arith);
        once = moved.once;
        answered = λ d o. moved.answered (dequeues d) o;
      }
        where
          here : s.pc k ≡ scanning m j
          here = ap s.pc (sym q) ∙ e

          moved :
              Local n k
                (s.pc k)
                (update s.slots j (serve t (s.slots j) s.q).0 k)
                (serve_event j t (s.slots j) s.q ++ s.trace)
                (s.calls k)
          moved = scan-slots j t k

          old : Fits n k (scanning m j) (update s.slots j (serve t (s.slots j) s.q).0 k).opcode
          old = rw here at moved.fits

          split : k < j + 1 → (update s.slots j (serve t (s.slots j) s.q).0 k).opcode ≡ Opcode.done
          split h = elim (ℕ_discrete j k) [
            | yes here ↦
                update_elim (λ x. x.opcode ≡ Opcode.done) s.slots j (serve t (s.slots j) s.q).0 k
                  (λ _. serve-done t (s.slots j) s.q) (λ ne. absurd (ne here))
            | no other ↦ old.1 (omega arith)
          ]

          dequeues : in_dequeue (scanning m (j + 1)) ≡ true → in_dequeue (s.pc k) ≡ true
          dequeues d = rw here (same m d)
            where
              same :
                  (m : Mode)
                  → in_dequeue (scanning m (j + 1)) ≡ true
                  → in_dequeue (scanning m j) ≡ true
              same enq d = d
              same deq d = d

  served-Inv :
      (i : ℕ) (m : Mode)
      → s.pc i ≡ checking m
      → (s.slots i).opcode ≡ Opcode.done
      → Inv n (go_to i (leave m) s)
  served-Inv i enq e d = go_to-Inv inv i idle (sym (ap is_scanning e)) (ground (arith, inv.local i))
  served-Inv i deq e d =
      go_to-Inv inv i finishing (sym (ap is_scanning e)) (ground (arith, inv.local i))

  ask-Inv : (i : ℕ) (m : Mode) → s.pc i ≡ waiting m → Inv n (go_to i (checking m) s)
  ask-Inv i enq e =
      go_to-Inv inv i (checking enq) (sym (ap is_scanning e)) (ground (arith, inv.local i))
  ask-Inv i deq e =
      go_to-Inv inv i (checking deq) (sym (ap is_scanning e)) (ground (arith, inv.local i))

  again-Inv : (i : ℕ) (m : Mode) → s.pc i ≡ checking m → Inv n (go_to i (waiting m) s)
  again-Inv i enq e =
      go_to-Inv inv i (waiting enq) (sym (ap is_scanning e)) (ground (arith, inv.local i))
  again-Inv i deq e =
      go_to-Inv inv i (waiting deq) (sym (ap is_scanning e)) (ground (arith, inv.local i))

  begin_enqueue-Inv : (i t item : ℕ) → i < n → s.pc i ≡ idle → Inv n (call_enqueue i t item s)
  unfolding call_enqueue
  begin_enqueue-Inv i t item lt e = record {
    local =
        call-Local inv i (waiting enq) (publish_enqueue t item (s.slots i))
          (begin_enqueue-Local inv i t item lt e);
    holds = same-holds inv i (waiting enq) (sym (ap is_scanning e));
    held = same-held inv i (waiting enq) (sym (ap is_scanning e));
  }

  begin_dequeue-Inv : (i t : ℕ) → i < n → s.pc i ≡ idle → Inv n (call_dequeue i t s)
  unfolding call_dequeue
  begin_dequeue-Inv i t lt e = record {
    local =
        call-Local inv i (waiting deq) (publish_dequeue t (s.slots i))
          (begin_dequeue-Local inv i t lt e);
    holds = same-holds inv i (waiting deq) (sym (ap is_scanning e));
    held = same-held inv i (waiting deq) (sym (ap is_scanning e));
  }

  finish-Inv : (i : ℕ) → s.pc i ≡ finishing → Inv n (finish_dequeue i s)
  unfolding finish_dequeue
  finish-Inv i e = finished (s.slots i).success
    where
      back : Local n i idle (s.slots i) s.trace (s.calls i)
      back = ground (arith, inv.local i)

      finished : (b : Bool) → Inv n (finish_slot b i s)
      finished true = record {
        local = go_to-local inv i idle back;
        holds = same-holds inv i idle (sym (ap is_scanning e));
        held = same-held inv i idle (sym (ap is_scanning e));
      }
      finished false = record {
        local = go_to-local inv i idle back;
        holds = same-holds inv i idle (sym (ap is_scanning e));
        held = same-held inv i idle (sym (ap is_scanning e));
      }

-- Every step keeps the invariant.
Step-Inv : {n : ℕ} {s t : System} → Step n s t → Inv n s → Inv n t
Step-Inv (begin_enqueue i t item lt le e) inv = begin_enqueue-Inv inv i t item lt e
Step-Inv (begin_dequeue i t lt le e) inv = begin_dequeue-Inv inv i t lt e
Step-Inv (locked i m e f) inv = locked-Inv inv i m e f
Step-Inv (busy i m e) inv = ask-Inv inv i m e
Step-Inv (served i m e d) inv = served-Inv inv i m e d
Step-Inv (again i m e d) inv = again-Inv inv i m e
Step-Inv (scan i m j t e lt le) inv = scan-Inv inv i m j t e lt
Step-Inv (scanned i m j e le) inv = scanned-Inv inv i m j e le
Step-Inv (finish i e) inv = finish-Inv inv i e

init-Inv : (n : ℕ) → Inv n init
init-Inv n = record {
  local = λ k. record { fits = refl; once = omega arith; answered = λ d o. cc };
  holds = λ k h. cc;
  held = λ k h. cc;
}

pub Reach-Inv : {n : ℕ} {s : System} → Reach n s → Inv n s
Reach-Inv {n} start = init-Inv n
Reach-Inv (later r st) = Step-Inv st (Reach-Inv r)
