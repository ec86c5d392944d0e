-- ===== src/MsQueue/Invariant.antt =====
-- The invariant holds in every reachable state.
use ispass2026_concurrent_qu.Common.{
  ℕ, ◌+◌, ◌≤◌, ◌≡◌, ◌≢◌, refl, subst, ap, sym, ◌∙◌, inl, inr, Bool, true, false, Option, none, some,
  update_here, arith, some_inj,
}
use ispass2026_concurrent_qu.MsQueue.{
  Pointer, idle, enq_next, enq_check, enq_link, enq_help, deq_head, deq_tail, deq_next, deq_check,
  deq_help, deq_read, deq_swing, drained, System,
}
use ispass2026_concurrent_qu.MsQueue.Steps.{
  go_to, call_enqueue, link, link_fails, move_tail, stamp, call_dequeue, return_false, move_head,
  free, Step, begin_enqueue, load_tail, load_next, tail_is_last, tail_is_behind, tail_moved, linked,
  not_linked, helped, not_helped, stamped, swung, not_swung, begin_dequeue, load_head,
  load_deq_tail, load_deq_next, found_empty, found_behind, found_gap, found_node, head_moved,
  deq_helped, not_deq_helped, read, taken, not_taken, deleted, init, Reach, start, later,
}
use ispass2026_concurrent_qu.MsQueue.Chain.{Ghost, NextOf, Ahead, Local}
use ispass2026_concurrent_qu.MsQueue.Linked.{next_of, null_is_last}
use ispass2026_concurrent_qu.MsQueue.Link.{linked_ghost}
use ispass2026_concurrent_qu.MsQueue.Keep.{InvOf, known, stays, advanced, advance, last-drained}
use ispass2026_concurrent_qu.MsQueue.Preserve.{
  given, called-Inv, linked-Inv, stamped-Inv, taken-Inv,
}

-- What a thread knows after a read, by what it knew before.
module _ (g : Ghost) (s : System) (v : InvOf g s) (i : ℕ) where
  next_at :
      (a k : ℕ) (p : Pointer)
      → k ≤ g.last
      → p.ptr ≡ some a
      → p.ptr ≡ some (g.at k)
      → NextOf g s.node i k (s.node a).next.ptr
  next_at a k p le at_a at_k =
      subst (λ b. NextOf g s.node i k (s.node b).next.ptr) (some_inj (sym at_k ∙ at_a))
        (next_of v.shape i k le)

  read_next :
      (n a : ℕ) (ct : Pointer)
      → ct.ptr ≡ some a
      → Local g s.node i (enq_next n ct)
      → Local g s.node i (enq_check n ct (s.node a).next)
  read_next n a ct at_a (mine, (k, le, at_k)) =
      (mine, (k, le, at_k, next_at a k ct (omega (arith, le, v.shape.t-le)) at_a at_k))

  see_last :
      (n : ℕ) (ct nx : Pointer)
      → nx.ptr ≡ none
      → Local g s.node i (enq_check n ct nx)
      → Local g s.node i (enq_link n ct nx)
  see_last n ct nx e (mine, (k, le, at_k, next)) = (mine, (k, le, at_k, e))

  Ahead-of :
      (k b : ℕ) (p q : Option ℕ)
      → p ≡ some (g.at k)
      → q ≡ some b
      → NextOf g s.node i k q
      → Ahead g s.node i p q
  Ahead-of k b p q e f (inl o) = absurd cc
  Ahead-of k b p q e f (inr (o, le)) = (k, e, o, le)

  see_behind :
      (n b : ℕ) (ct nx : Pointer)
      → nx.ptr ≡ some b
      → Local g s.node i (enq_check n ct nx)
      → Local g s.node i (enq_help n ct nx)
  see_behind n b ct nx e (mine, (k, le, at_k, next)) =
      (mine, Ahead-of k b ct.ptr nx.ptr at_k e next)

  read_deq_tail :
      (inv : ℕ) (ch : Pointer)
      → Local g s.node i (deq_tail inv ch)
      → Local g s.node i (deq_next inv ch s.tail)
  read_deq_tail inv ch (k, le, at_k) =
      (k, (le, at_k, (g.t, omega (arith, le, v.shape.h-le), omega arith, v.shape.tail_at)))

  read_deq_next :
      (inv a : ℕ) (ch ct : Pointer)
      → ch.ptr ≡ some a
      → Local g s.node i (deq_next inv ch ct)
      → Local g s.node i (deq_check inv ch ct (s.node a).next (drained s.trace))
  read_deq_next inv a ch ct at_a (k, (le, at_k, f)) = (
    k,
    (le, at_k, f),
    next_at a k ch bound at_a at_k,
    λ e. last-drained v.shape (
        omega (
          arith,
          le,
          v.shape.h-le,
          v.shape.t-le,
          null_is_last v.shape k bound
              (subst (λ b. (s.node b).next.ptr ≡ none) (some_inj (sym at_a ∙ at_k)) e),
        )),
  )
    where
      bound : k ≤ g.last
      bound = omega (arith, le, v.shape.h-le, v.shape.t-le)

  see_deq_behind :
      (inv b : ℕ) (ch ct nx : Pointer) (saw : Bool)
      → ch.ptr ≡ ct.ptr
      → nx.ptr ≡ some b
      → Local g s.node i (deq_check inv ch ct nx saw)
      → Local g s.node i (deq_help inv ct nx)
  see_deq_behind inv b ch ct nx saw same e (k, (le, at_k, f), next, o) =
      Ahead-of k b ct.ptr nx.ptr (sym same ∙ at_k) e next

  see_node :
      (inv b : ℕ) (ch ct nx : Pointer) (saw : Bool)
      → ch.ptr ≢ ct.ptr
      → nx.ptr ≡ some b
      → Local g s.node i (deq_check inv ch ct nx saw)
      → Local g s.node i (deq_read inv ch nx)
  see_node inv b ch ct nx saw differ e (k, (le, at_k, (m, km, mt, at_m)), inl o, w) = absurd cc
  see_node inv b ch ct nx saw differ e (k, (le, at_k, (m, km, mt, at_m)), inr (o, lt), w) =
      (k, omega (arith, km, mt, apart), at_k, o)
    where
      apart : k ≢ m
      apart f = differ (at_k ∙ ap (λ x. some (g.at x)) f ∙ sym at_m)

  read_node :
      (inv b : ℕ) (ch nx : Pointer)
      → nx.ptr ≡ some b
      → Local g s.node i (deq_read inv ch nx)
      → Local g s.node i
          (deq_swing inv ch nx (s.node b).value (s.node b).enq_inv_ts (s.node b).enq_lin_ts)
  read_node inv b ch nx e (k, lt, at_k, next) =
      (k, lt, at_k, next, ap (λ a. (s.node a).value) (some_inj (sym e ∙ next)))

Step-Inv : {s t : System} (g : Ghost) → InvOf g s → Step s t → (g' : Ghost) × InvOf g' t
unfolding go_to call_enqueue link link_fails move_tail stamp call_dequeue return_false move_head
    free
Step-Inv {s} g v (begin_enqueue i t x a junk le e f) =
    (given g s v a i, called-Inv g s v i t x a junk e)
Step-Inv {s} g v (load_tail i n e) =
    (g, stays g s v i _ (known g s v i e, (g.t, omega arith, v.shape.tail_at)))
Step-Inv {s} g v (load_next i n a ct e at_a f) =
    (g, stays g s v i _ (read_next g s v i n a ct at_a (known g s v i e)))
Step-Inv {s} g v (tail_is_last i n ct nx e f o) =
    (g, stays g s v i _ (see_last g s v i n ct nx o (known g s v i e)))
Step-Inv {s} g v (tail_is_behind i n b ct nx e f o) =
    (g, stays g s v i _ (see_behind g s v i n b ct nx o (known g s v i e)))
Step-Inv {s} g v (tail_moved i n ct nx e f) = (g, stays g s v i _ (known g s v i e).0)
Step-Inv {s} g v (linked i n a ct nx e at_a f o) =
    (linked_ghost g n, linked-Inv g s v i n a ct nx e at_a o)
Step-Inv {s} g v (not_linked i n ct nx e) = (g, stays g s v i _ (known g s v i e).0)
Step-Inv {s} g v (helped i n ct nx e f) =
    (advanced g s v, advance g s v i _ ct nx.ptr f (known g s v i e).1 (known g s v i e).0)
Step-Inv {s} g v (not_helped i n ct nx e) = (g, stays g s v i _ (known g s v i e).0)
Step-Inv {s} g v (stamped i n t ct e f le) = (g, stamped-Inv g s v i n t ct e)
Step-Inv {s} g v (swung i n ct e f) =
    (advanced g s v, advance g s v i idle ct (some n) f (known g s v i e) tt)
Step-Inv {s} g v (not_swung i n ct e) = (g, stays g s v i idle tt)
Step-Inv {s} g v (begin_dequeue i t le e) = (g, stays g s v i (deq_head t) tt)
Step-Inv {s} g v (load_head i inv e) =
    (g, stays g s v i (deq_tail inv s.head) (g.h, omega arith, v.shape.head_at))
Step-Inv {s} g v (load_deq_tail i inv ch e) =
    (g, stays g s v i _ (read_deq_tail g s v i inv ch (known g s v i e)))
Step-Inv {s} g v (load_deq_next i inv a ch ct e at_a f) =
    (g, stays g s v i _ (read_deq_next g s v i inv a ch ct at_a (known g s v i e)))
Step-Inv {s} g v (found_empty i inv ch ct nx saw e f o w) = (g, stays g s v i idle tt)
Step-Inv {s} g v (found_behind i inv b ch ct nx saw e f o w) =
    (g, stays g s v i _ (see_deq_behind g s v i inv b ch ct nx saw o w (known g s v i e)))
Step-Inv {s} g v (found_gap i inv ch ct nx saw e f o w) = (g, stays g s v i (deq_head inv) tt)
Step-Inv {s} g v (found_node i inv b ch ct nx saw e f o w) =
    (g, stays g s v i _ (see_node g s v i inv b ch ct nx saw o w (known g s v i e)))
Step-Inv {s} g v (head_moved i inv ch ct nx saw e f) = (g, stays g s v i (deq_head inv) tt)
Step-Inv {s} g v (deq_helped i inv ct nx e f) =
    (advanced g s v, advance g s v i (deq_head inv) ct nx.ptr f (known g s v i e) tt)
Step-Inv {s} g v (not_deq_helped i inv ct nx e) = (g, stays g s v i (deq_head inv) tt)
Step-Inv {s} g v (read i inv b ch nx e at_b f) =
    (g, stays g s v i _ (read_node g s v i inv b ch nx at_b (known g s v i e)))
Step-Inv {s} g v (taken i inv x enq_inv enq_lin t ch nx e f le) =
    (record g { h = g.h + 1 }, taken-Inv g s v i inv x enq_inv enq_lin t ch nx e f)
Step-Inv {s} g v (not_taken i inv x enq_inv enq_lin ch nx e) = (g, stays g s v i (deq_head inv) tt)
Step-Inv {s} g v (deleted i a x ch e at_a) = (g, stays g s v i idle tt)

abbrev first : Ghost
first = record { at = λ k. 0; h = 0; t = 0; last = 0; owner = λ a. none }

init-Inv : InvOf first init
init-Inv = record {
  shape = record {
    h-le = omega arith;
    t-le = omega arith;
    last-le = omega arith;
    head_at = refl;
    tail_at = refl;
    links = λ k lt. absurd (omega (arith, lt));
    end_null = refl;
    distinct = λ j k lj lk _. omega (arith, lj, lk);
    linked_used = λ k _. update_here (λ a. false) 0 true;
    linked_free = λ k _. refl;
    owned_used = λ a j e. absurd cc;
    fifo = refl;
  };
  local = λ j. tt;
}

pub Reach-Inv : {s : System} → Reach s → (g : Ghost) × InvOf g s
Reach-Inv start = (first, init-Inv)
Reach-Inv (later r st) = let (g, v) = Reach-Inv r in Step-Inv g v st
