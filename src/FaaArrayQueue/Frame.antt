-- ===== src/FaaArrayQueue/Frame.antt =====
-- What a step of one thread leaves to the others, and steps that leave the slots alone.
use ispass2026_concurrent_qu.Common.{
  ℕ, ◌≤◌, ◌<◌, ◌≡◌, ◌≢◌, sym, subst, inl, inr, List, Option, none, some, arith, update, update_elim,
}
use ispass2026_concurrent_qu.FaaArrayQueue.{
  Cell, Pc, idle, enq_load, enq_fetch, enq_full, enq_next, enq_new, enq_help, enq_stamp_new,
  enq_tail, enq_cas, enq_stamp, deq_load, deq_fetch, deq_drained, deq_head, deq_take, deq_stamp,
  deq_marker, deq_check, deq_next, deq_fix, Event,
}
use ispass2026_concurrent_qu.FaaArrayQueue.Inv.{ticket, Takes, Shape, Local, Slots, Tickets}

-- Indices only grow.
abbrev pub Grows : (ℕ → ℕ) → (ℕ → ℕ) → ℕ → Type 0
Grows f f' last = (k : ℕ) → k ≤ last → f k ≤ f' k

pub Grows-at : (f : ℕ → ℕ) (a n last : ℕ) → f a ≤ n → Grows f (update f a n) last
Grows-at f a n last le k _ =
    update_elim (λ m. f k ≤ m) f a n k (λ e. subst (λ m. f m ≤ n) e le) (λ _. omega arith)

not_both : {q : Option (ℕ × ℕ)} {x : ℕ × ℕ} → q ≡ none → ¬ (q ≡ some x)
not_both e f = cc

-- A thread that moves to where it holds no ticket: who holds one after, held it before.
pub Takes-before :
    (pc : ℕ → Pc) (i : ℕ) (p : Pc) (j a c : ℕ)
    → ticket p ≡ none
    → Takes (update pc i p j) a c
    → Takes (pc j) a c
Takes-before pc i p j a c now =
    update_elim (λ q. Takes q a c → Takes (pc j) a c) pc i p j (λ _ h. absurd (not_both now h))
      (λ _ h. h)

pub Takes-after :
    (pc : ℕ → Pc) (i : ℕ) (p : Pc) (j a c : ℕ)
    → Takes (pc j) a c
    → i ≢ j
    → Takes (update pc i p j) a c
Takes-after pc i p j a c h other =
    update_elim (λ q. Takes q a c) pc i p j (λ e. absurd (other e)) (λ _. h)

module _ (size : ℕ) where
  pub Local-frame :
      {last last' head head' : ℕ} {enqidx enqidx' deqidx deqidx' : ℕ → ℕ}
      → last ≤ last'
      → head ≤ head'
      → head ≤ last
      → Grows enqidx enqidx' last
      → Grows deqidx deqidx' last
      → (p : Pc) → Local size last head enqidx deqidx p
      → Local size last' head' enqidx' deqidx' p
  Local-frame ll hh hl ee dd idle l = l
  Local-frame ll hh hl ee dd (enq_load x) l = l
  Local-frame ll hh hl ee dd (enq_fetch x a) l = omega (arith, l)
  Local-frame ll hh hl ee dd (enq_full x a) l = omega (arith, l, ee a l.0)
  Local-frame ll hh hl ee dd (enq_next x a) l = omega (arith, l, ee a l.0)
  Local-frame ll hh hl ee dd (enq_new x a) l = omega (arith, l, ee a l.0)
  Local-frame ll hh hl ee dd (enq_help x a b) l = omega (arith, l)
  Local-frame ll hh hl ee dd (enq_stamp_new x a b) l = omega (arith, l)
  Local-frame ll hh hl ee dd (enq_tail a b) l = omega (arith, l)
  Local-frame ll hh hl ee dd (enq_cas x a c) l = omega (arith, l, ee a l.0)
  Local-frame ll hh hl ee dd (enq_stamp x) l = l
  Local-frame ll hh hl ee dd deq_load l = l
  Local-frame ll hh hl ee dd (deq_fetch a) l = omega (arith, l)
  Local-frame ll hh hl ee dd (deq_drained a) l = omega (arith, l, dd a (omega (arith, l, hl)))
  Local-frame ll hh hl ee dd (deq_head a b) l = omega (arith, l, dd a (omega (arith, l, hl)))
  Local-frame ll hh hl ee dd (deq_take a c) l = omega (arith, l)
  Local-frame ll hh hl ee dd (deq_stamp x) l = l
  Local-frame ll hh hl ee dd (deq_marker a c) l = l
  Local-frame ll hh hl ee dd (deq_check a c) l = omega (arith, l, dd a (omega (arith, l, hl)))
  Local-frame ll hh hl ee dd (deq_next a c t) l = omega (arith, l)
  Local-frame ll hh hl ee dd (deq_fix a c t) l = omega (arith, l)

  -- The locals after a step of thread `i` to `p`.
  pub step-Local :
      {last last' head head' : ℕ} {enqidx enqidx' deqidx deqidx' : ℕ → ℕ} (pc : ℕ → Pc)
      → last ≤ last'
      → head ≤ head'
      → head ≤ last
      → Grows enqidx enqidx' last
      → Grows deqidx deqidx' last
      → (i : ℕ) (p : Pc) → ((j : ℕ) → Local size last head enqidx deqidx (pc j))
      → Local size last' head' enqidx' deqidx' p
      → (j : ℕ) → Local size last' head' enqidx' deqidx' (update pc i p j)
  step-Local {last' = last'} {head' = head'} {enqidx' = enqidx'} {deqidx' = deqidx'} pc ll hh hl ee
        dd i p old new j =
      update_elim (Local size last' head' enqidx' deqidx') pc i p j (λ _. new)
        (λ _. Local-frame ll hh hl ee dd (pc j) (old j))

  module _ (remap : ℕ → ℕ) where
    -- A thread that holds no ticket moves to where it holds none.
    pub quiet-Tickets :
        {last : ℕ} {items : ℕ → ℕ → Cell} {deqidx : ℕ → ℕ} {pc : ℕ → Pc} (i : ℕ) (p : Pc)
        → ticket (pc i) ≡ none
        → ticket p ≡ none
        → Tickets size remap last items deqidx pc
        → Tickets size remap last items deqidx (update pc i p)
    quiet-Tickets {items = items} {deqidx = deqidx} {pc = pc} i p was now t = record {
      holder = λ j k a c hj hk. t.holder j k a c (before j a c hj) (before k a c hk);
      held = λ j a c h. t.held j a c (before j a c h);
      served = λ k c le lt given. elim (t.served k c le lt given) [
        | inl e ↦ inl e
        | inr (j, h) ↦ inr (j, after j k c h)
      ];
    }
      where
        before : (j a c : ℕ) → Takes (update pc i p j) a c → Takes (pc j) a c
        before j a c = Takes-before pc i p j a c now

        after : (j a c : ℕ) → Takes (pc j) a c → Takes (update pc i p j) a c
        after j a c h =
            Takes-after pc i p j a c h (λ e. not_both was (subst (λ m. Takes (pc m) a c) (sym e) h))

    pub grown-Slots :
        {last : ℕ} {items : ℕ → ℕ → Cell} {enqidx enqidx' deqidx deqidx' : ℕ → ℕ} {tr : List Event}
        → Grows enqidx enqidx' last
        → Grows deqidx deqidx' last
        → Slots size remap last items enqidx deqidx tr
        → Slots size remap last items enqidx' deqidx' tr
    grown-Slots ee dd v = record {
      fits = v.fits;
      put_bound = λ k c x e. omega (arith, v.put_bound k c x e, ee k (v.put_bound k c x e).0);
      got_put = v.got_put;
      unclaimed = λ k c le lt free. v.unclaimed k c le lt (omega (arith, free, dd k le));
    }

  pub grown-Shape :
      {last head tail : ℕ} {next : ℕ → Option ℕ} {enqidx enqidx' deqidx deqidx' : ℕ → ℕ}
      → Grows enqidx enqidx' last
      → Grows deqidx deqidx' last
      → ((k : ℕ) → head < k → deqidx' k ≡ 0)
      → Shape size last head tail next enqidx deqidx
      → Shape size last head tail next enqidx' deqidx'
  grown-Shape ee dd zero_behind v = record {
    head-le = v.head-le;
    tail-le = v.tail-le;
    links = v.links;
    end_null = v.end_null;
    full = λ k lt. omega (arith, v.full k lt, ee k (omega (arith, lt)));
    drained = λ k lt. omega (arith, v.drained k lt, dd k (omega (arith, lt, v.head-le)));
    untouched = zero_behind;
  }
