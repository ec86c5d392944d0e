-- ===== src/MsQueue/Preserve.antt =====
-- The invariant over the steps that change nodes or the head.
use ispass2026_concurrent_qu.Common.{
  ℕ, ◌+◌, ◌≤◌, ◌≡◌, ◌≢◌, refl, subst, ap, sym, ◌∙◌, true, false, ◌∷◌, none, some, update,
  update_elim, update_here, update_there, arith, some_inj, ℕ_discrete,
}
use ispass2026_concurrent_qu.MsQueue.{
  Pointer, counted, MsNode, enq_load, enq_link, enq_stamp, enq_swing, deq_swing, deq_free, push,
  System,
}
use ispass2026_concurrent_qu.MsQueue.Steps.{call_enqueue, link, stamp, move_head}
use ispass2026_concurrent_qu.MsQueue.Chain.{Ghost, Local}
use ispass2026_concurrent_qu.MsQueue.Frame.{moved-Inv}
use ispass2026_concurrent_qu.MsQueue.Linked.{
  null_is_last, same_number, head_moved-Shape, outside-Shape,
}
use ispass2026_concurrent_qu.MsQueue.Link.{
  linked_ghost, linked_nodes, at_new, link-Grows, link-Spares, link-Shape,
}
use ispass2026_concurrent_qu.MsQueue.Keep.{InvOf, known}

module _ (g : Ghost) (s : System) (v : InvOf g s) where
  -- `new`, and the call of `enqueue`.
  abbrev pub given : ℕ → ℕ → Ghost
  given a i = record g { owner = update g.owner a (some i) }

  pub called-Inv :
      (i t x a junk : ℕ) → s.used a ≡ false → InvOf (given a i) (call_enqueue i t x a junk s)
  unfolding call_enqueue
  called-Inv i t x a junk e =
      moved-Inv i (enq_load a) v
        (outside-Shape v.shape _ (update s.used a true) (update g.owner a (some i))
          (λ k le. ap (λ m. m.next.ptr) (update_there s.node a fresh (g.at k) (outside k le)))
          (λ k le. ap (λ m. m.value) (update_there s.node a fresh (g.at k) (outside k le)))
          (λ k le. update_there s.used a true (g.at k) (outside k le) ∙ v.shape.linked_used k le)
          (λ k le.
            update_there g.owner a (some i) (g.at k) (outside k le) ∙ v.shape.linked_free k le)
          owned)
        (record {
          h-le = omega arith;
          t-le = omega arith;
          last-le = omega arith;
          at_same = λ k _. refl;
          value_same =
              λ k le. ap (λ m. m.value) (update_there s.node a fresh (g.at k) (outside k le));
        })
        (λ j ne n m. (
          update_there g.owner a (some i) n (other j n m.0) ∙ m.0,
          ap (λ m. m.next.ptr) (update_there s.node a fresh n (other j n m.0)) ∙ m.1,
        ))
        (update_here g.owner a (some i), ap (λ m. m.next.ptr) (update_here s.node a fresh))
    where
      fresh : MsNode
      fresh = record {
        value = x;
        next = record { ptr = none; count = 0 };
        enq_inv_ts = t;
        enq_lin_ts = junk;
      }

      outside : (k : ℕ) → k ≤ g.last → a ≢ g.at k
      outside k le f = let u : s.used (g.at k) ≡ true = v.shape.linked_used k le in cc

      other : (j n : ℕ) → g.owner n ≡ some j → a ≢ n
      other j n o f = let u : s.used n ≡ true = v.shape.owned_used n j o in cc

      owned : (b j : ℕ) → update g.owner a (some i) b ≡ some j → update s.used a true b ≡ true
      owned b j = elim (ℕ_discrete a b) [
        | yes f ↦ λ _. subst (λ c. update s.used a true c ≡ true) f (update_here s.used a true)
        | no ne ↦ λ o.
            update_there s.used a true b ne
            ∙ v.shape.owned_used b j (sym (update_there g.owner a (some i) b ne) ∙ o)
      ]

  pub linked-Inv :
      (i n a : ℕ) (ct nx : Pointer)
      → s.pc i ≡ enq_link n ct nx
      → ct.ptr ≡ some a
      → (s.node a).next ≡ nx
      → InvOf (linked_ghost g n) (link i n a ct nx s)
  unfolding link
  linked-Inv i n a ct nx e at_a next_nx = go (known g s v i e)
    where
      go : Local g s.node i (enq_link n ct nx) → InvOf (linked_ghost g n) (link i n a ct nx s)
      go (mine, (k, le, at_k, nul)) =
          let a_k : a ≡ g.at k = some_inj (sym at_a ∙ at_k) in
          let k_last : k ≡ g.last =
            null_is_last v.shape k (omega (arith, le, v.shape.t-le))
              (subst (λ b. (s.node b).next.ptr ≡ none) a_k (ap (λ q. q.ptr) next_nx ∙ nul)) in
          let a_last : g.at g.last ≡ a = sym (a_k ∙ ap g.at k_last) in
          subst
            (λ b. InvOf (linked_ghost g n) (record s {
              node = linked_nodes s.node b (counted (some n) nx);
              pc = update s.pc i (enq_stamp n ct);
              trace = push i (s.node n).value ∷ s.trace;
            }))
            a_last
            (moved-Inv i (enq_stamp n ct) v
              (link-Shape v.shape i n (counted (some n) nx) mine refl i
                (omega (arith, le, k_last, v.shape.t-le)))
              (link-Grows v.shape i n (counted (some n) nx) mine refl)
              (link-Spares v.shape i n (counted (some n) nx) mine refl)
              (
                g.last,
                at_k
                    ∙ ap (λ m. some (g.at m)) k_last
                    ∙ ap some (sym (update_there g.at (g.last + 1) n g.last (omega arith))),
                ap some (sym (at_new v.shape i n (counted (some n) nx) mine refl)),
                omega arith,
              ))

  pub stamped-Inv :
      (i n t : ℕ) (ct : Pointer) → s.pc i ≡ enq_stamp n ct → InvOf g (stamp i n ct t s)
  unfolding stamp
  stamped-Inv i n t ct e =
      moved-Inv i (enq_swing n ct) v
        (outside-Shape v.shape _ s.used g.owner (λ k _. ap (λ q. q.ptr) (next_same (g.at k)))
          (λ k _. value_same (g.at k)) v.shape.linked_used v.shape.linked_free v.shape.owned_used)
        (record {
          h-le = omega arith;
          t-le = omega arith;
          last-le = omega arith;
          at_same = λ k _. refl;
          value_same = λ k _. value_same (g.at k);
        })
        (λ j ne x m. (m.0, ap (λ q. q.ptr) (next_same x) ∙ m.1)) (known g s v i e)
    where
      new : MsNode
      new = record (s.node n) { enq_lin_ts = t }

      next_same :
          (x : ℕ)
          → (update s.node n (record (s.node n) { enq_lin_ts = t }) x).next ≡ (s.node x).next
      next_same x =
          update_elim (λ m. m.next ≡ (s.node x).next) s.node n
            (record (s.node n) { enq_lin_ts = t }) x (λ f. ap (λ y. (s.node y).next) f) (λ _. refl)

      value_same :
          (x : ℕ)
          → (update s.node n (record (s.node n) { enq_lin_ts = t }) x).value ≡ (s.node x).value
      value_same x =
          update_elim (λ m. m.value ≡ (s.node x).value) s.node n
            (record (s.node n) { enq_lin_ts = t }) x (λ f. ap (λ y. (s.node y).value) f) (λ _. refl)

  pub taken-Inv :
      (i inv x enq_inv enq_lin t : ℕ) (ch nx : Pointer)
      → s.pc i ≡ deq_swing inv ch nx x enq_inv enq_lin
      → s.head ≡ ch
      → InvOf (record g { h = g.h + 1 }) (move_head i inv ch nx x enq_inv enq_lin t s)
  unfolding move_head
  taken-Inv i inv x enq_inv enq_lin t ch nx e at_head = go (known g s v i e)
    where
      go :
          Local g s.node i (deq_swing inv ch nx x enq_inv enq_lin)
          → InvOf (record g { h = g.h + 1 }) (move_head i inv ch nx x enq_inv enq_lin t s)
      go (k, lt, at_k, next, val) =
          let k_h : k ≡ g.h =
            same_number v.shape k g.h (omega (arith, lt, v.shape.t-le))
              (omega (arith, v.shape.h-le, v.shape.t-le)) at_k
              (subst (λ c. c.ptr ≡ some (g.at g.h)) at_head v.shape.head_at) in
          moved-Inv i (deq_free ch x) v
            (head_moved-Shape v.shape ch i x nx.ptr (omega (arith, k_h, lt))
              (subst (λ m. nx.ptr ≡ some (g.at (m + 1))) k_h next)
              (subst (λ m. x ≡ (s.node (g.at (m + 1))).value) k_h val))
            (record {
              h-le = omega arith;
              t-le = omega arith;
              last-le = omega arith;
              at_same = λ k _. refl;
              value_same = λ k _. refl;
            })
            (λ j _ n m. m) tt
