-- ===== src/FlatCombining/System/Safety.antt =====
-- What holds in every reachable state of the flat-combining queue.
use ispass2026_concurrent_qu.Common.{
  ℕ, ◌+◌, ◌≤◌, ◌≡◌, refl, sym, ◌∙◌, ap, Bool, true, false, List, [], ◌∷◌, ◌++◌, none, some, All,
  arith, some_inj,
}
use mathlib.Core.List.{append_assoc}
use ispass2026_concurrent_qu.Fairness.Sort.Laws.{IsAscending}
use ispass2026_concurrent_qu.FlatCombining.Slot.{Opcode, FcNode, Operation, pushed_node}
use ispass2026_concurrent_qu.FlatCombining.System.{
  Mode, idle, scanning, finishing, Event, push, pop, System, event_of, Step, begin_enqueue,
  begin_dequeue, locked, busy, served, again, scan, scanned, finish, Reach, start, later,
  call_enqueue, call_dequeue, lock_ok, go_to, scan_slot, unlock, finish_slot, finish_dequeue,
}
use ispass2026_concurrent_qu.FlatCombining.System.History.{
  Fifo, fresh, pushed, popped, found_empty, Reach-Fifo,
}
use ispass2026_concurrent_qu.FlatCombining.System.Local.{events_of, answer, pending, result, Local}
use ispass2026_concurrent_qu.FlatCombining.System.Moves.{Inv}
use ispass2026_concurrent_qu.FlatCombining.System.Service.{Reach-Inv}

-- In every reachable state at most one thread is inside `scan_combine_apply`, and it holds the lock.
pub combiner_unique :
    {n : ℕ} {s : System}
    → Reach n s
    → (i j : ℕ) (m m' : Mode) (a b : ℕ) → s.pc i ≡ scanning m a
    → s.pc j ≡ scanning m' b
    → (i ≡ j) × (s.lock ≡ some i)
combiner_unique {n} {s} r i j m m' a b p q = (some_inj (sym first ∙ second), first)
  where
    inv : Inv n s
    inv = Reach-Inv r

    first : s.lock ≡ some i
    first = inv.holds i (rw p refl)

    second : s.lock ≡ some j
    second = inv.holds j (rw q refl)

-- In every reachable state each thread has as many pushes and pops in the trace as it has begun
-- calls, less one if its request is still in its slot; a thread that is outside the queue has no
-- such request. So each call takes effect once, before it returns.
pub served_once :
    {n : ℕ} {s : System}
    → Reach n s
    → (i : ℕ)
    → (s.calls i ≡ events_of i s.trace + pending (s.slots i).opcode)
      × (s.pc i ≡ idle → s.calls i ≡ events_of i s.trace)
served_once {n} {s} r i = (here.once, λ e. outside e)
  where
    here : Local n i (s.pc i) (s.slots i) s.trace (s.calls i)
    here = (Reach-Inv r).local i

    outside : s.pc i ≡ idle → s.calls i ≡ events_of i s.trace
    outside e = ground (arith, here)

result-finish :
    (b : Bool) (i : ℕ) (s : System)
    → (s.slots i).success ≡ b
    → (finish_slot b i s).returned i ≡ result (s.slots i)
unfolding finish_slot
result-finish true i s e = ground arith
result-finish false i s e = ground arith

-- A `dequeue` that returns from a reachable state returns what the last pop of its thread found: the
-- value of the node that was popped for it, or nothing if the queue was empty.
pub dequeue_returns :
    {n : ℕ} {s : System}
    → Reach n s
    → (i : ℕ) → s.pc i ≡ finishing
    → (finish_dequeue i s).returned i ≡ answer i s.trace
unfolding finish_dequeue
dequeue_returns {s} r i e =
    result-finish (s.slots i).success i s refl ∙ ground (arith, (Reach-Inv r).local i)

-- The nodes pushed, and those popped, the oldest first.
abbrev pub pushes : List Event → List FcNode
pushes [] = []
pushes (push i n ∷ tr) = pushes tr ++ n ∷ []
pushes (pop i r ∷ tr) = pushes tr

abbrev pub pops : List Event → List FcNode
pops [] = []
pops (push i n ∷ tr) = pops tr
pops (pop i none ∷ tr) = pops tr
pops (pop i (some n) ∷ tr) = pops tr ++ n ∷ []

pushes-pops : {tr : List Event} {q : List FcNode} → Fifo tr q → pushes tr ≡ pops tr ++ q
pushes-pops fresh = refl
pushes-pops (pushed {tr} {q} i n h) =
    ap (λ l. l ++ n ∷ []) (pushes-pops h) ∙ append_assoc (pops tr) q (n ∷ [])
pushes-pops (popped {tr} {q} i n h) = pushes-pops h ∙ sym (append_assoc (pops tr) (n ∷ []) q)
pushes-pops (found_empty i h) = pushes-pops h

-- The pushes so far are stamped in order, up to the clock.
abbrev Stamped : ℕ → List FcNode → Type 0
Stamped clock ns = IsAscending (λ n. n.enq_lin_ts) ns × All (λ n. n.enq_lin_ts ≤ clock) ns

All-le_trans :
    (a b : ℕ) (ns : List FcNode)
    → a ≤ b
    → All (λ n. n.enq_lin_ts ≤ a) ns
    → All (λ n. n.enq_lin_ts ≤ b) ns
All-le_trans a b [] le h = tt
All-le_trans a b (n ∷ ns) le h = (omega (arith, h.0), All-le_trans a b ns le h.1)

Stamped-push :
    (t : ℕ) (n : FcNode) (ns : List FcNode)
    → n.enq_lin_ts ≡ t
    → Stamped t ns
    → Stamped t (ns ++ n ∷ [])
Stamped-push t n [] e h = ((tt, tt), (omega arith, tt))
Stamped-push t n (m ∷ ns) e h =
    let (up, le) = Stamped-push t n ns e (h.0.1, h.1.1) in
    ((last_le m ns h.0.0 (omega (arith, h.1.0)), up), (h.1.0, le))
  where
    last_le :
        (m : FcNode) (ns : List FcNode)
        → All (λ x. m.enq_lin_ts ≤ x.enq_lin_ts) ns
        → m.enq_lin_ts ≤ n.enq_lin_ts
        → All (λ x. m.enq_lin_ts ≤ x.enq_lin_ts) (ns ++ n ∷ [])
    last_le m [] h le = (le, tt)
    last_le m (x ∷ ns) h le = (h.0, last_le m ns h.1 le)

Stamped-serve :
    (o : Opcode) (j t : ℕ) (slot : Operation) (q : List FcNode) (tr : List Event)
    → Stamped t (pushes tr)
    → Stamped t (pushes (event_of o j t slot q ++ tr))
unfolding event_of pushed_node
Stamped-serve Opcode.done j t slot q tr h = h
Stamped-serve Opcode.enqueue j t slot q tr h =
    Stamped-push t (pushed_node t slot) (pushes tr) refl h
Stamped-serve Opcode.dequeue j t slot [] tr h = h
Stamped-serve Opcode.dequeue j t slot (n ∷ q) tr h = h

Stamped-finish :
    (b : Bool) (i : ℕ) (s : System)
    → Stamped s.clock (pushes s.trace)
    → Stamped (finish_slot b i s).clock (pushes (finish_slot b i s).trace)
unfolding finish_slot
Stamped-finish true i s h = h
Stamped-finish false i s h = h

Step-Stamped :
    {n : ℕ} {s t : System}
    → Step n s t
    → Stamped s.clock (pushes s.trace)
    → Stamped t.clock (pushes t.trace)
unfolding call_enqueue call_dequeue lock_ok go_to scan_slot unlock finish_dequeue
Step-Stamped {s} (begin_enqueue i t item lt le e) h = (h.0, All-le_trans s.clock t _ le h.1)
Step-Stamped {s} (begin_dequeue i t lt le e) h = (h.0, All-le_trans s.clock t _ le h.1)
Step-Stamped (locked i m e f) h = h
Step-Stamped (busy i m e) h = h
Step-Stamped (served i m e d) h = h
Step-Stamped (again i m e d) h = h
Step-Stamped {s} (scan i m j t e lt le) h =
    Stamped-serve (s.slots j).opcode j t (s.slots j) s.q s.trace
      (h.0, All-le_trans s.clock t _ le h.1)
Step-Stamped (scanned i m j e le) h = h
Step-Stamped {s} (finish i e) h = Stamped-finish (s.slots i).success i s h

Reach-Stamped : {n : ℕ} {s : System} → Reach n s → Stamped s.clock (pushes s.trace)
Reach-Stamped start = (tt, tt)
Reach-Stamped (later r st) = Step-Stamped st (Reach-Stamped r)

-- In every reachable state the nodes popped so far, followed by those in the queue, are the nodes
-- pushed so far, in the order of the pushes, and their enqueue linearization timestamps ascend: no
-- node of the flat-combining queue overtakes another between the two linearization points.
pub no_overtaking :
    {n : ℕ} {s : System}
    → Reach n s
    → (pops s.trace ++ s.q ≡ pushes s.trace) × IsAscending (λ n. n.enq_lin_ts) (pops s.trace ++ s.q)
no_overtaking {s} r = let e = sym (pushes-pops (Reach-Fifo r)) in (e, rw e (Reach-Stamped r).0)
