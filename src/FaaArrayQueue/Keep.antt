-- ===== src/FaaArrayQueue/Keep.antt =====
-- Every step keeps the invariant.
use ispass2026_concurrent_qu.Common.{
  ℕ, ◌+◌, ◌≤◌, ◌<◌, ◌≡◌, refl, sym, subst, ap, ◌∙◌, none, some, arith, update, update_elim,
  update_here, update_there, ℕ_discrete,
}
use ispass2026_concurrent_qu.FaaArrayQueue.{
  empty, item, Pc, enq_new, enq_stamp_new, enq_cas, enq_stamp, deq_load, deq_fetch, deq_drained,
  deq_head, deq_take, deq_stamp, deq_check, System,
}
use ispass2026_concurrent_qu.FaaArrayQueue.Steps.{
  go_to, fetch_deq, cas_tail, cas_head, link, put, take, spoil,
}
use ispass2026_concurrent_qu.FaaArrayQueue.Inv.{ticket, Shape, Local, Tickets, Inv}
use ispass2026_concurrent_qu.FaaArrayQueue.Frame.{
  Grows, Grows-at, step-Local, quiet-Tickets, grown-Slots, grown-Shape,
}
use ispass2026_concurrent_qu.FaaArrayQueue.Slots.{put-Slots, take-Slots, spoil-Slots}
use ispass2026_concurrent_qu.FaaArrayQueue.Claims.{put-Tickets, claimed-Tickets, marked-Tickets}
use ispass2026_concurrent_qu.FaaArrayQueue.Link.{
  Grows-new, null_is_last, link-Shape, link-Slots, link-Tickets,
}

same : (f : ℕ → ℕ) (last : ℕ) → Grows f f last
same f last k _ = omega arith

module _ (remap : ℕ → ℕ) (size : ℕ) (pos : 0 < size)
    (injective : (c d : ℕ) → c < size → d < size → remap c ≡ remap d → c ≡ d) (s : System)
    (v : Inv size remap s) where
  -- What thread `i` knows where it stands.
  pub known : (i : ℕ) {p : Pc} → s.pc i ≡ p → Local size s.last s.head s.enqidx s.deqidx p
  known i e = subst (Local size s.last s.head s.enqidx s.deqidx) e (v.local i)

  pub off : (i : ℕ) {p : Pc} → s.pc i ≡ p → ticket p ≡ none → ticket (s.pc i) ≡ none
  off i e none_at = ap ticket e ∙ none_at

  pub on_last : (a : ℕ) → a ≤ s.head → a ≤ s.last
  on_last a le = omega (arith, le, v.shape.head-le)

  -- Only the place of thread `i` changes.
  pub stays :
      (i : ℕ) (p : Pc)
      → ticket (s.pc i) ≡ none
      → ticket p ≡ none
      → Local size s.last s.head s.enqidx s.deqidx p
      → Inv size remap (go_to i p s)
  unfolding go_to
  stays i p was now l = record {
    shape = v.shape;
    slots = v.slots;
    tickets = quiet-Tickets size remap i p was now v.tickets;
    local =
        step-Local size s.pc (omega arith) (omega arith) v.shape.head-le (same s.enqidx s.last)
          (same s.deqidx s.last) i p v.local l;
  }

  -- `enqidx` of node `a` grows to `n`.
  pub enq_grows :
      (i a n : ℕ) (p : Pc)
      → s.enqidx a ≤ n
      → ticket (s.pc i) ≡ none
      → ticket p ≡ none
      → Local size s.last s.head (update s.enqidx a n) s.deqidx p
      → Inv size remap (record s { enqidx = update s.enqidx a n; pc = update s.pc i p })
  enq_grows i a n p le was now l = record {
    shape =
        grown-Shape size (Grows-at s.enqidx a n s.last le) (same s.deqidx s.last) v.shape.untouched
          v.shape;
    slots = grown-Slots size remap (Grows-at s.enqidx a n s.last le) (same s.deqidx s.last) v.slots;
    tickets = quiet-Tickets size remap i p was now v.tickets;
    local =
        step-Local size s.pc (omega arith) (omega arith) v.shape.head-le
          (Grows-at s.enqidx a n s.last le) (same s.deqidx s.last) i p v.local l;
  }

  one_more : (f : ℕ → ℕ) (a : ℕ) → Grows f (update f a (f a + 1)) s.last
  one_more f a = Grows-at f a (f a + 1) s.last (omega arith)

  untouched_by :
      (a : ℕ) → a ≤ s.head → (k : ℕ) → s.head < k → update s.deqidx a (s.deqidx a + 1) k ≡ 0
  untouched_by a le k lt =
      update_there s.deqidx a (s.deqidx a + 1) k (omega (arith, le, lt)) ∙ v.shape.untouched k lt

  pub claimed-Inv :
      (i a : ℕ)
      → s.pc i ≡ deq_fetch a
      → s.deqidx a < size
      → Inv size remap (fetch_deq i a (deq_take a (s.deqidx a)) s)
  unfolding fetch_deq
  claimed-Inv i a e lt = record {
    shape =
        grown-Shape size (same s.enqidx s.last) (one_more s.deqidx a) (untouched_by a (known i e))
          v.shape;
    slots = grown-Slots size remap (same s.enqidx s.last) (one_more s.deqidx a) v.slots;
    tickets =
        claimed-Tickets size remap injective v.tickets a i al lt
          (v.slots.unclaimed a (s.deqidx a) al lt (omega arith)) (off i e refl);
    local =
        step-Local size s.pc (omega arith) (omega arith) v.shape.head-le (same s.enqidx s.last)
          (one_more s.deqidx a) i (deq_take a (s.deqidx a)) v.local (known i e, lt);
  }
    where
      al : a ≤ s.last
      al = on_last a (known i e)

  pub drained-Inv :
      (i a : ℕ)
      → s.pc i ≡ deq_fetch a
      → size ≤ s.deqidx a
      → Inv size remap (fetch_deq i a (deq_drained a) s)
  unfolding fetch_deq
  drained-Inv i a e le = record {
    shape =
        grown-Shape size (same s.enqidx s.last) (one_more s.deqidx a) (untouched_by a (known i e))
          v.shape;
    slots = grown-Slots size remap (same s.enqidx s.last) (one_more s.deqidx a) v.slots;
    tickets = more-Tickets;
    local =
        step-Local size s.pc (omega arith) (omega arith) v.shape.head-le (same s.enqidx s.last)
          (one_more s.deqidx a) i (deq_drained a) v.local
          (known i e, omega (arith, le, update_here s.deqidx a (s.deqidx a + 1)));
  }
    where
      -- The ticket is beyond the array, and stands for no slot.
      fewer : (k d : ℕ) → d < size → d < update s.deqidx a (s.deqidx a + 1) k → d < s.deqidx k
      fewer k d ds =
          update_elim (λ n. d < n → d < s.deqidx k) s.deqidx a (s.deqidx a + 1) k
            (λ f lt. subst (λ z. d < s.deqidx z) f (omega (arith, ds, le))) (λ _ lt. lt)

      more-Tickets :
          Tickets size remap s.last s.items
            (update s.deqidx a (s.deqidx a + 1))
            (update s.pc i (deq_drained a))
      more-Tickets = quiet-Tickets size remap i (deq_drained a) (off i e refl) refl (record {
        holder = v.tickets.holder;
        held = λ j b d h.
            let (bl, ds, lt, ok) = v.tickets.held j b d h in
            (bl, ds, omega (arith, lt, one_more s.deqidx a b bl), ok);
        served = λ k d kl ds lt. v.tickets.served k d kl ds (fewer k d ds lt);
      })

  pub head-Inv : (i a b : ℕ) → s.pc i ≡ deq_head a b → s.head ≡ a → Inv size remap (cas_head i b s)
  unfolding cas_head
  head-Inv i a b e at_head = record {
    shape = record {
      head-le = omega (arith, known i e);
      tail-le = v.shape.tail-le;
      links = v.shape.links;
      end_null = v.shape.end_null;
      full = v.shape.full;
      drained = λ k lt. elim (ℕ_discrete a k) [
        | yes f ↦ subst (λ z. size ≤ s.deqidx z) f (known i e).1
        | no ne ↦ v.shape.drained k (omega (arith, lt, ne, at_head, known i e))
      ];
      untouched = λ k lt. v.shape.untouched k (omega (arith, lt, at_head, known i e));
    };
    slots = v.slots;
    tickets = quiet-Tickets size remap i deq_load (off i e refl) refl v.tickets;
    local =
        step-Local size s.pc (omega arith) (omega (arith, at_head, known i e)) v.shape.head-le
          (same s.enqidx s.last) (same s.deqidx s.last) i deq_load v.local tt;
  }

  pub tail-Inv :
      (i b : ℕ) (p : Pc)
      → b ≤ s.last
      → ticket (s.pc i) ≡ none
      → ticket p ≡ none
      → Local size s.last s.head s.enqidx s.deqidx p
      → Inv size remap (cas_tail i b p s)
  unfolding cas_tail
  tail-Inv i b p le was now l = record {
    shape = record {
      head-le = v.shape.head-le;
      tail-le = le;
      links = v.shape.links;
      end_null = v.shape.end_null;
      full = v.shape.full;
      drained = v.shape.drained;
      untouched = v.shape.untouched;
    };
    slots = v.slots;
    tickets = quiet-Tickets size remap i p was now v.tickets;
    local =
        step-Local size s.pc (omega arith) (omega arith) v.shape.head-le (same s.enqidx s.last)
          (same s.deqidx s.last) i p v.local l;
  }

  pub link-Inv :
      (i x a : ℕ)
      → s.pc i ≡ enq_new x a
      → s.next a ≡ none
      → Inv size remap (link remap size i x a s)
  unfolding link
  link-Inv i x a e nul = record {
    shape =
        subst
          (λ z.
            Shape size (s.last + 1) s.head s.tail
              (update (update s.next (s.last + 1) none) z (some (s.last + 1)))
              (update s.enqidx (s.last + 1) 1) (update s.deqidx (s.last + 1) 0))
          (sym at_last)
          (link-Shape size v.shape (subst (λ z. size ≤ s.enqidx z) at_last (known i e).1));
    slots = link-Slots size remap injective pos v.slots i x;
    tickets =
        quiet-Tickets size remap i (enq_stamp_new x a (s.last + 1)) (off i e refl) refl (
          link-Tickets size remap injective pos v.tickets (update (λ c. empty) (remap 0) (item x)));
    local =
        step-Local size s.pc (omega arith) (omega arith) v.shape.head-le
          (Grows-new s.enqidx s.last 1) (Grows-new s.deqidx s.last 0) i
          (enq_stamp_new x a (s.last + 1)) v.local (omega arith);
  }
    where
      at_last : a ≡ s.last
      at_last = null_is_last size v.shape a (known i e).0 nul

  pub put-Inv :
      (i x a c : ℕ)
      → s.pc i ≡ enq_cas x a c
      → s.items a (remap c) ≡ empty
      → Inv size remap (put remap size i x a c s)
  unfolding put
  put-Inv i x a c e free = record {
    shape = v.shape;
    slots =
        put-Slots size remap injective v.slots a c (known i e).0 (known i e).1 i x (known i e).2
          free;
    tickets =
        put-Tickets size remap injective v.tickets a c x i (enq_stamp x) (known i e).1 free
          (off i e refl) refl;
    local =
        step-Local size s.pc (omega arith) (omega arith) v.shape.head-le (same s.enqidx s.last)
          (same s.deqidx s.last) i (enq_stamp x) v.local tt;
  }

  pub took-Inv :
      (i x a c : ℕ)
      → s.pc i ≡ deq_take a c
      → s.items a (remap c) ≡ item x
      → Inv size remap (take remap size i x a c s)
  unfolding take
  took-Inv i x a c e found =
      let (al, cs, lt, ok) = v.tickets.held i a c (ap ticket e) in
      record {
        shape = v.shape;
        slots = take-Slots size remap injective v.slots a c al cs i x lt found;
        tickets =
            marked-Tickets size remap injective v.tickets a c i (deq_stamp x) (ap ticket e) refl;
        local =
            step-Local size s.pc (omega arith) (omega arith) v.shape.head-le (same s.enqidx s.last)
              (same s.deqidx s.last) i (deq_stamp x) v.local tt;
      }

  pub spoiled-Inv :
      (i a c : ℕ)
      → s.pc i ≡ deq_take a c
      → s.items a (remap c) ≡ empty
      → Inv size remap (spoil remap size i a c s)
  unfolding spoil
  spoiled-Inv i a c e found =
      let (al, cs, lt, ok) = v.tickets.held i a c (ap ticket e) in
      record {
        shape = v.shape;
        slots = spoil-Slots size remap injective v.slots a c al cs lt found;
        tickets =
            marked-Tickets size remap injective v.tickets a c i (deq_check a c) (ap ticket e) refl;
        local =
            step-Local size s.pc (omega arith) (omega arith) v.shape.head-le (same s.enqidx s.last)
              (same s.deqidx s.last) i (deq_check a c) v.local ((known i e).0, lt);
      }
