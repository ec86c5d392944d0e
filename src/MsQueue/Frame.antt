-- ===== src/MsQueue/Frame.antt =====
-- What one thread's step leaves of what the other threads know.
use ispass2026_concurrent_qu.Common.{
  ℕ, ◌+◌, ◌≤◌, ◌<◌, ◌≡◌, ◌≢◌, refl, subst, ap, sym, ◌∙◌, inl, inr, Bool, List, Option, some, update,
  update_elim, arith,
}
use ispass2026_concurrent_qu.MsQueue.{
  Pointer, MsNode, Pc, idle, enq_load, enq_next, enq_check, enq_link, enq_help, enq_stamp,
  enq_swing, deq_head, deq_tail, deq_next, deq_check, deq_help, deq_read, deq_swing, deq_free,
  Event,
}
use ispass2026_concurrent_qu.MsQueue.Chain.{Ghost, Mine, NextOf, Ahead, Ends, Local, Shape, Inv}

-- The chain only grows, the values in it stay, and the nodes that thread `j` owns are left alone.
pub record Grows (g g' : Ghost) (node node' : ℕ → MsNode) : Type 0 where
  pub h-le : g.h ≤ g'.h
  pub t-le : g.t ≤ g'.t
  pub last-le : g.last ≤ g'.last
  pub at_same : (k : ℕ) → k ≤ g.last → g'.at k ≡ g.at k
  pub value_same : (k : ℕ) → k ≤ g.last → (node' (g.at k)).value ≡ (node (g.at k)).value

abbrev pub Spares : Ghost → Ghost → (ℕ → MsNode) → (ℕ → MsNode) → ℕ → Type 0
Spares g g' node node' j = (n : ℕ) → Mine g node j n → Mine g' node' j n

pub Grows-same : (g : Ghost) (node : ℕ → MsNode) → Grows g g node node
Grows-same g node = record {
  h-le = omega arith;
  t-le = omega arith;
  last-le = omega arith;
  at_same = λ k _. refl;
  value_same = λ k _. refl;
}

module _ {g g' : Ghost} {node node' : ℕ → MsNode} (w : Grows g g' node node') where
  linked_at : (k : ℕ) {p : Option ℕ} → k ≤ g.last → p ≡ some (g.at k) → p ≡ some (g'.at k)
  linked_at k le e = e ∙ ap some (sym (w.at_same k le))

  NextOf-frame : (j k : ℕ) (p : Option ℕ) → NextOf g node j k p → NextOf g' node' j k p
  NextOf-frame j k p (inl e) = inl e
  NextOf-frame j k p (inr (e, le)) = inr (linked_at (k + 1) le e, omega (arith, le, w.last-le))

  Ahead-frame : (j : ℕ) (p q : Option ℕ) → Ahead g node j p q → Ahead g' node' j p q
  Ahead-frame j p q (k, e, e', le) =
      (k, linked_at k (omega (arith, le)) e, linked_at (k + 1) le e', omega (arith, le, w.last-le))

  module _ (ht : g.h ≤ g.t) (tl : g.t ≤ g.last) where
    Ends-frame : (j k : ℕ) (p q : Option ℕ) → Ends g node j k p q → Ends g' node' j k p q
    Ends-frame j k p q (le, e, (m, km, mt, e')) = (
      omega (arith, le, w.h-le),
      linked_at k (omega (arith, le, ht, tl)) e,
      (m, km, omega (arith, mt, w.t-le), linked_at m (omega (arith, mt, tl)) e'),
    )

    pub Local-frame :
        (j : ℕ) (p : Pc) → Spares g g' node node' j → Local g node j p → Local g' node' j p
    Local-frame j idle m l = l
    Local-frame j (enq_load n) m l = m n l
    Local-frame j (enq_next n ct) m (l, (k, le, e)) =
        (m n l, (k, omega (arith, le, w.t-le), linked_at k (omega (arith, le, tl)) e))
    Local-frame j (enq_check n ct nx) m (l, (k, le, e, f)) = (
      m n l,
      (
        k,
        omega (arith, le, w.t-le),
        linked_at k (omega (arith, le, tl)) e,
        NextOf-frame j k nx.ptr f,
      ),
    )
    Local-frame j (enq_link n ct nx) m (l, (k, le, e, f)) =
        (m n l, (k, omega (arith, le, w.t-le), linked_at k (omega (arith, le, tl)) e, f))
    Local-frame j (enq_help n ct nx) m (l, f) = (m n l, Ahead-frame j ct.ptr nx.ptr f)
    Local-frame j (enq_stamp n ct) m f = Ahead-frame j ct.ptr (some n) f
    Local-frame j (enq_swing n ct) m f = Ahead-frame j ct.ptr (some n) f
    Local-frame j (deq_head inv) m l = l
    Local-frame j (deq_tail inv ch) m (k, le, e) =
        (k, omega (arith, le, w.h-le), linked_at k (omega (arith, le, ht, tl)) e)
    Local-frame j (deq_next inv ch ct) m (k, f) = (k, Ends-frame j k ch.ptr ct.ptr f)
    Local-frame j (deq_check inv ch ct nx saw) m (k, f, n, e) =
        (k, Ends-frame j k ch.ptr ct.ptr f, NextOf-frame j k nx.ptr n, e)
    Local-frame j (deq_help inv ct nx) m f = Ahead-frame j ct.ptr nx.ptr f
    Local-frame j (deq_read inv ch nx) m (k, le, e, f) = (
      k,
      omega (arith, le, w.t-le),
      linked_at k (omega (arith, le, tl)) e,
      linked_at (k + 1) (omega (arith, le, tl)) f,
    )
    Local-frame j (deq_swing inv ch nx v enq_inv enq_lin) m (k, le, e, f, val) = (
      k,
      omega (arith, le, w.t-le),
      linked_at k (omega (arith, le, tl)) e,
      linked_at (k + 1) (omega (arith, le, tl)) f,
      moved k le val,
    )
      where
        moved :
            (k : ℕ) → k < g.t → v ≡ (node (g.at (k + 1))).value → v ≡ (node' (g'.at (k + 1))).value
        moved k lt val =
            rw (w.at_same (k + 1) (omega (arith, lt, tl)))
              (val ∙ sym (w.value_same (k + 1) (omega (arith, lt, tl))))
    Local-frame j (deq_free ch v) m l = l

-- A step of thread `i` to `p`, if the chain after it is as it should be.
pub moved-Inv :
    {g g' : Ghost} {node node' : ℕ → MsNode} {used used' : ℕ → Bool}
    {head head' tail tail' : Pointer} {tr tr' : List Event} {pc : ℕ → Pc} (i : ℕ) (p : Pc)
    → Inv g node used head tail tr pc
    → Shape g' node' used' head' tail' tr'
    → Grows g g' node node'
    → ((j : ℕ) → i ≢ j → Spares g g' node node' j)
    → Local g' node' i p
    → Inv g' node' used' head' tail' tr' (update pc i p)
moved-Inv {g' = g'} {node' = node'} {pc = pc} i p v sh w spares l = record {
  shape = sh;
  local = λ j.
      update_elim (Local g' node' j) pc i p j (λ e. subst (λ x. Local g' node' x p) e l)
        (λ ne. Local-frame w v.shape.h-le v.shape.t-le j (pc j) (spares j ne) (v.local j));
}
