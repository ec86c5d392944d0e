-- ===== src/FlatCombining/System/History.antt =====
-- The trace of a run is a history of a sequential queue: `scan_combine_apply` refines a FIFO.
use ispass2026_concurrent_qu.Common.{ℕ, Bool, true, false, List, [], ◌∷◌, ◌++◌, none, some}
use ispass2026_concurrent_qu.FlatCombining.Slot.{
  Opcode, FcNode, Operation, pushed_node, serve_opcode,
}
use ispass2026_concurrent_qu.FlatCombining.System.{
  Event, push, pop, System, event_of, Step, begin_enqueue, begin_dequeue, locked, busy, served,
  again, scan, scanned, finish, Reach, start, later, call_enqueue, call_dequeue, lock_ok, go_to,
  scan_slot, unlock, finish_slot, finish_dequeue,
}

-- The histories of a FIFO queue, the newest event first, with the queue that each leaves.
pub data Fifo : List Event → List FcNode → Type 0 where
  fresh : Fifo [] []
  pushed :
      {tr : List Event} {q : List FcNode} (i : ℕ) (n : FcNode)
      → Fifo tr q
      → Fifo (push i n ∷ tr) (q ++ n ∷ [])
  popped :
      {tr : List Event} {q : List FcNode} (i : ℕ) (n : FcNode)
      → Fifo tr (n ∷ q)
      → Fifo (pop i (some n) ∷ tr) q
  found_empty : {tr : List Event} (i : ℕ) → Fifo tr [] → Fifo (pop i none ∷ tr) []

serve-Fifo :
    (o : Opcode) (j t : ℕ) (slot : Operation) (q : List FcNode) (tr : List Event)
    → Fifo tr q
    → Fifo (event_of o j t slot q ++ tr) (serve_opcode o t slot q).1
unfolding event_of serve_opcode
serve-Fifo Opcode.done j t slot q tr h = h
serve-Fifo Opcode.enqueue j t slot q tr h = pushed j (pushed_node t slot) h
serve-Fifo Opcode.dequeue j t slot [] tr h = found_empty j h
serve-Fifo Opcode.dequeue j t slot (n ∷ q) tr h = popped j n h

finish-Fifo :
    (b : Bool) (i : ℕ) (s : System)
    → Fifo s.trace s.q
    → Fifo (finish_slot b i s).trace (finish_slot b i s).q
unfolding finish_slot
finish-Fifo true i s h = h
finish-Fifo false i s h = h

Step-Fifo : {n : ℕ} {s t : System} → Step n s t → Fifo s.trace s.q → Fifo t.trace t.q
unfolding call_enqueue call_dequeue lock_ok go_to scan_slot unlock finish_dequeue
Step-Fifo (begin_enqueue i t item lt le e) h = h
Step-Fifo (begin_dequeue i t lt le e) h = h
Step-Fifo (locked i m e f) h = h
Step-Fifo (busy i m e) h = h
Step-Fifo (served i m e d) h = h
Step-Fifo (again i m e d) h = h
Step-Fifo {s} (scan i m j t e lt le) h = serve-Fifo (s.slots j).opcode j t (s.slots j) s.q s.trace h
Step-Fifo (scanned i m j e le) h = h
Step-Fifo {s} (finish i e) h = finish-Fifo (s.slots i).success i s h

-- In every reachable state the pushes and pops that took effect so far, in that order, are a
-- history of a FIFO queue, and `q_` is the queue that this history leaves: each pop took the oldest
-- node that was pushed and not yet popped, and one that found nothing met an empty queue.
pub Reach-Fifo : {n : ℕ} {s : System} → Reach n s → Fifo s.trace s.q
Reach-Fifo start = fresh
Reach-Fifo (later r st) = Step-Fifo st (Reach-Fifo r)
