-- ===== src/LinkedRing/Order.antt =====
-- The order of what happens to the segments of the list.
use ispass2026_concurrent_qu.Common.{
  ℕ, ◌+◌, ◌≤◌, ◌<◌, ◌≡◌, some, refl, sym, subst, inl, inr, List, [], ◌∷◌, Option, none, arith, In,
  update,
}
use ispass2026_concurrent_qu.LinkedRing.{
  idle, Pc, enq_load, enq_check, enq_next, enq_help, enq_seg, enq_start, enq_link, enq_tail,
  deq_load, deq_check, deq_seg, deq_next, deq_again, deq_swing, Event, accepted, refused, linked,
  took, missed, left, System,
}
use ispass2026_concurrent_qu.LinkedRing.Steps.{
  Step, Reach, start, later, go_to, cas_tail, cas_head, enqueued, refuse, link, dequeued, miss,
  return_none, begin_enqueue, load_tail, tail_same, tail_moved, no_next, has_next, helped,
  not_helped, seg_accepted, seg_refused, start_index, link_ok, not_linked, swung, not_swung,
  begin_dequeue, load_head, head_same, head_moved, seg_item, seg_none, found_end, found_next,
  again_item, again_none, head_swung, head_lost,
}
use ispass2026_concurrent_qu.LinkedRing.Inv.{
  IsLinked, Emptied, Local, Inv, same-Longer, more-Longer, step-Local, event-Shape, end_is_last,
  next_behind, link-Shape,
}

-- A segment is linked at most once, by a thread whose item the segment before it has refused; and the
-- head leaves a segment only when a dequeue of it has found nothing although the next was linked.
abbrev pub IsOrdered : List Event → Type 0
IsOrdered [] = Unit
IsOrdered (linked i x k ∷ tr) =
    ((m : ℕ) × (k ≡ m + 1) × In (refused i x m) tr) × (¬ IsLinked k tr) × IsOrdered tr
IsOrdered (left i k ∷ tr) = Emptied k tr × IsOrdered tr
IsOrdered (accepted i x k ∷ tr) = IsOrdered tr
IsOrdered (refused i x k ∷ tr) = IsOrdered tr
IsOrdered (took i x k ∷ tr) = IsOrdered tr
IsOrdered (missed i k ∷ tr) = IsOrdered tr

-- No link among these events.
abbrev IsOther : Event → Type 0
IsOther (linked i x k) = ⊥
IsOther _ = Unit

not_new : (e : Event) (tr : List Event) → IsOther e → (k : ℕ) → IsLinked k (e ∷ tr) → IsLinked k tr
not_new e tr other k (i, x, inl same) = absurd (subst IsOther (sym same) other)
not_new e tr other k (i, x, inr h) = (i, x, h)

module _ (s : System) (v : Inv s) (i : ℕ) where
  known : {p : Pc} → s.pc i ≡ p → Local s.last s.head s.trace i p
  known e = subst (Local s.last s.head s.trace i) e (v.local i)

  -- The thread writes the tail at most.
  stays :
      (tail' : ℕ) (p : Pc) (f : ℕ → Option ℕ)
      → tail' ≤ s.last
      → Local s.last s.head s.trace i p
      → Inv (record s { tail = tail'; pc = update s.pc i p; returned = f })
  stays tail' p f le l = record {
    shape = event-Shape s.head tail' (same-Longer s.trace) (λ k h. h) v.shape.head-le le v.shape;
    local = step-Local s.pc (same-Longer s.trace) (omega arith) (omega arith) i p v.local l;
  }

  -- A call of a segment returns, or the head moves on.
  happens :
      (e : Event) (head' : ℕ) (p : Pc) (f : ℕ → Option ℕ)
      → IsOther e
      → s.head ≤ head'
      → head' ≤ s.last
      → Local s.last head' (e ∷ s.trace) i p
      → Inv (record s { head = head'; pc = update s.pc i p; trace = e ∷ s.trace; returned = f })
  happens e head' p f other le lt l = record {
    shape =
        event-Shape head' s.tail (more-Longer e s.trace) (not_new e s.trace other) lt
          v.shape.tail-le v.shape;
    local = step-Local s.pc (more-Longer e s.trace) (omega arith) le i p v.local l;
  }

  -- A call returns, and the head stays.
  returns :
      (e : Event) (p : Pc) (f : ℕ → Option ℕ)
      → IsOther e
      → Local s.last s.head (e ∷ s.trace) i p
      → Inv (record s { pc = update s.pc i p; trace = e ∷ s.trace; returned = f })
  returns e p f other l = happens e s.head p f other (omega arith) v.shape.head-le l

  behind : (a b : ℕ) → a ≤ s.last → s.next a ≡ some b → b ≤ s.last
  behind a b le f = let (lt, e) = next_behind v.shape a b le f in omega (arith, lt, e)

Step-Inv : {s t : System} → Inv s → Step s t → Inv t
unfolding go_to cas_tail cas_head enqueued refuse link dequeued miss return_none
Step-Inv {s} v (begin_enqueue i x e) = stays s v i s.tail (enq_load x) s.returned v.shape.tail-le tt
Step-Inv {s} v (load_tail i x e) =
    stays s v i s.tail (enq_check x s.tail) s.returned v.shape.tail-le v.shape.tail-le
Step-Inv {s} v (tail_same i x a e h1) =
    stays s v i s.tail (enq_next x a) s.returned v.shape.tail-le (known s v i e)
Step-Inv {s} v (tail_moved i x a e h1) =
    stays s v i s.tail (enq_check x s.tail) s.returned v.shape.tail-le v.shape.tail-le
Step-Inv {s} v (no_next i x a e h1) =
    stays s v i s.tail (enq_seg x a) s.returned v.shape.tail-le (known s v i e)
Step-Inv {s} v (has_next i x a b e h1) =
    stays s v i s.tail (enq_help x a b) s.returned v.shape.tail-le
      (behind s v i a b (known s v i e) h1)
Step-Inv {s} v (helped i x a b e h1) =
    stays s v i b (enq_check x b) s.returned (known s v i e) (known s v i e)
Step-Inv {s} v (not_helped i x a b e h1) =
    stays s v i s.tail (enq_load x) s.returned v.shape.tail-le tt
Step-Inv {s} v (seg_accepted i x a e) = returns s v i (accepted i x a) idle s.returned tt tt
Step-Inv {s} v (seg_refused i x a e) =
    returns s v i (refused i x a) (enq_start x a) s.returned tt (known s v i e, inl refl)
Step-Inv {s} v (start_index i x a n e) =
    stays s v i s.tail (enq_link x a n) s.returned v.shape.tail-le (known s v i e)
Step-Inv {s} v (link_ok i x a n e h1) =
    let (le, h) = known s v i e in
    record {
      shape = link-Shape v.shape i x a (end_is_last v.shape a le h1);
      local =
          step-Local s.pc (more-Longer (linked i x (s.last + 1)) s.trace) (omega arith)
            (omega arith) i (enq_tail a (s.last + 1)) v.local (omega arith);
    }
Step-Inv {s} v (not_linked i x a n b e h1) =
    stays s v i s.tail (enq_check x b) s.returned v.shape.tail-le
      (behind s v i a b (known s v i e).0 h1)
Step-Inv {s} v (swung i a b e h1) = stays s v i b idle s.returned (known s v i e) tt
Step-Inv {s} v (not_swung i a b e h1) = stays s v i s.tail idle s.returned v.shape.tail-le tt
Step-Inv {s} v (begin_dequeue i e) = stays s v i s.tail deq_load s.returned v.shape.tail-le tt
Step-Inv {s} v (load_head i e) =
    stays s v i s.tail (deq_check s.head) s.returned v.shape.tail-le (omega arith)
Step-Inv {s} v (head_same i a e h1) =
    stays s v i s.tail (deq_seg a) s.returned v.shape.tail-le (known s v i e)
Step-Inv {s} v (head_moved i a e h1) =
    stays s v i s.tail (deq_check s.head) s.returned v.shape.tail-le (omega arith)
Step-Inv {s} v (seg_item i x a e) =
    returns s v i (took i x a) idle (update s.returned i (some x)) tt tt
Step-Inv {s} v (seg_none i a e) =
    returns s v i (missed i a) (deq_next a) s.returned tt (known s v i e)
Step-Inv {s} v (found_end i a e h1) =
    stays s v i s.tail idle (update s.returned i none) v.shape.tail-le tt
Step-Inv {s} v (found_next i a b e h1) =
    stays s v i s.tail (deq_again a b) s.returned v.shape.tail-le
      (next_behind v.shape a b (omega (arith, known s v i e, v.shape.head-le)) h1)
Step-Inv {s} v (again_item i x a b e) =
    returns s v i (took i x a) idle (update s.returned i (some x)) tt tt
Step-Inv {s} v (again_none i a b e) =
    (let (lt, at) = known s v i e in
      returns s v i (missed i a) (deq_swing a b) s.returned tt
        (lt, at, inl (refl, v.shape.was_linked a lt)))
Step-Inv {s} v (head_swung i a b e h1) =
    (let (lt, at, h) = known s v i e in
      happens s v i (left i a) b (deq_check b) s.returned tt (omega (arith, at, h1))
        (omega (arith, lt, at)) (omega arith))
Step-Inv {s} v (head_lost i a b e h1) =
    stays s v i s.tail (deq_check s.head) s.returned v.shape.tail-le (omega arith)

Step-IsOrdered : {s t : System} → Inv s → Step s t → IsOrdered s.trace → IsOrdered t.trace
unfolding go_to cas_tail cas_head enqueued refuse link dequeued miss return_none
Step-IsOrdered v (begin_enqueue i x e) k = k
Step-IsOrdered v (load_tail i x e) k = k
Step-IsOrdered v (tail_same i x a e h1) k = k
Step-IsOrdered v (tail_moved i x a e h1) k = k
Step-IsOrdered v (no_next i x a e h1) k = k
Step-IsOrdered v (has_next i x a b e h1) k = k
Step-IsOrdered v (helped i x a b e h1) k = k
Step-IsOrdered v (not_helped i x a b e h1) k = k
Step-IsOrdered v (seg_accepted i x a e) k = k
Step-IsOrdered v (seg_refused i x a e) k = k
Step-IsOrdered v (start_index i x a n e) k = k
Step-IsOrdered {s} v (link_ok i x a n e h1) k =
    let (le, h) = known s v i e in
    let at = end_is_last v.shape a le h1 in
    ((a, omega (arith, at), h), v.shape.not_linked_yet (s.last + 1) (omega arith), k)
Step-IsOrdered v (not_linked i x a n b e h1) k = k
Step-IsOrdered v (swung i a b e h1) k = k
Step-IsOrdered v (not_swung i a b e h1) k = k
Step-IsOrdered v (begin_dequeue i e) k = k
Step-IsOrdered v (load_head i e) k = k
Step-IsOrdered v (head_same i a e h1) k = k
Step-IsOrdered v (head_moved i a e h1) k = k
Step-IsOrdered v (seg_item i x a e) k = k
Step-IsOrdered v (seg_none i a e) k = k
Step-IsOrdered v (found_end i a e h1) k = k
Step-IsOrdered v (found_next i a b e h1) k = k
Step-IsOrdered v (again_item i x a b e) k = k
Step-IsOrdered v (again_none i a b e) k = k
Step-IsOrdered {s} v (head_swung i a b e h1) k = ((known s v i e).2, k)
Step-IsOrdered v (head_lost i a b e h1) k = k

pub Reach-Inv : {s : System} → Reach s → Inv s
Reach-Inv start = record {
  shape = record {
    head-le = omega arith;
    tail-le = omega arith;
    links = λ k lt. absurd (omega (arith, lt));
    end_null = refl;
    was_linked = λ k lt. absurd (omega (arith, lt));
    not_linked_yet = λ k lt (i, x, h). h;
  };
  local = λ j. tt;
}
Reach-Inv (later r st) = Step-Inv (Reach-Inv r) st

-- Whatever the calls of the segments return: a segment is linked only once and only by a thread whose
-- item the segment before it has refused, and the head leaves a segment, which is then retired, only
-- when a dequeue of it has found nothing after the next segment was linked.
pub Reach-IsOrdered : {s : System} → Reach s → IsOrdered s.trace
Reach-IsOrdered start = tt
Reach-IsOrdered (later r st) = Step-IsOrdered (Reach-Inv r) st (Reach-IsOrdered r)

-- Whatever the calls of the segments return: head and tail point into the list, in which each segment
-- but the last leads to the next and the last to null.
pub Reach-list :
    {s : System}
    → Reach s
    → (s.head ≤ s.last)
      × (s.tail ≤ s.last)
      × ((k : ℕ) → k < s.last → s.next k ≡ some (k + 1))
      × (s.next s.last ≡ none)
Reach-list r = let v = (Reach-Inv r).shape in (v.head-le, v.tail-le, v.links, v.end_null)
