-- ===== src/FaaArrayQueue/Order.antt =====
-- No item is lost, and none overtakes.
use ispass2026_concurrent_qu.Common.{
  ℕ, ◌+◌, ◌≤◌, ◌<◌, ◌≡◌, ◌≢◌, refl, sym, subst, ap, ◌∙◌, ◌⊎◌, inl, inr, none, some, arith,
  ℕ_discrete, dec_lt, some_inj,
}
use ispass2026_concurrent_qu.FaaArrayQueue.{
  Cell, empty, item, taken, enq_fetch, deq_drained, deq_marker, deq_check, put_at, got_at, System,
}
use ispass2026_concurrent_qu.FaaArrayQueue.Steps.{put, Reach}
use ispass2026_concurrent_qu.FaaArrayQueue.Inv.{Fits, Takes, Inv}
use ispass2026_concurrent_qu.FaaArrayQueue.Link.{null_is_last}
use ispass2026_concurrent_qu.FaaArrayQueue.Keep.{known}
use ispass2026_concurrent_qu.FaaArrayQueue.Invariant.{Reach-Inv}

-- The order of the places: by node, then by slot.
abbrev pub Before : ℕ → ℕ → ℕ → ℕ → Type 0
Before k d a c = (k < a) ⊎ ((k ≡ a) × (d < c))

-- Taken out, or about to be by a dequeuer that holds the ticket of the place.
abbrev pub IsClaimed : System → ℕ → ℕ → ℕ → Type 0
IsClaimed s k d x = (got_at s.trace k d ≡ some x) ⊎ ((j : ℕ) × Takes (s.pc j) k d)

module _ (remap : ℕ → ℕ) (size : ℕ) (pos : 0 < size)
    (injective : (c d : ℕ) → c < size → d < size → remap c ≡ remap d → c ≡ d) where
  -- In every reachable state an item that was put into a place is still in its slot, unless it was
  -- taken out of it: no item is lost.
  pub none_lost :
      {s : System}
      → Reach remap size s
      → (k c x : ℕ) → put_at s.trace k c ≡ some x
      → (s.items k (remap c) ≡ item x) ⊎ (got_at s.trace k c ≡ some x)
  none_lost {s} r k c x e = go (s.items k (remap c)) refl
    where
      v : Inv size remap s
      v = Reach-Inv remap size pos injective r

      fit : (w : Cell) → w ≡ s.items k (remap c) → Fits w (put_at s.trace k c) (got_at s.trace k c)
      fit w q =
          let (kl, cs, _) = v.slots.put_bound k c x e in
          subst (λ y. Fits y (put_at s.trace k c) (got_at s.trace k c)) (sym q)
            (v.slots.fits k c kl cs)

      go :
          (w : Cell)
          → w ≡ s.items k (remap c)
          → (s.items k (remap c) ≡ item x) ⊎ (got_at s.trace k c ≡ some x)
      go empty q = let f = (fit empty q).0 in absurd cc
      go (item y) q = let f = (fit (item y) q).0 in inl (sym q ∙ ap item (some_inj (sym f ∙ e)))
      go taken q = inr (fit taken q ∙ e)

  -- No thread of a reachable state has taken the marker itself for an item.
  pub no_marker : {s : System} → Reach remap size s → (i a c : ℕ) → s.pc i ≢ deq_marker a c
  no_marker {s} r i a c e =
      known remap size pos injective s (Reach-Inv remap size pos injective r) i e

  -- The next slot of a node is behind every item that was put into the queue so far.
  pub slot_behind :
      {s : System}
      → Reach remap size s
      → (i x a k c y : ℕ) → s.pc i ≡ enq_fetch x a
      → s.enqidx a < size
      → put_at s.trace k c ≡ some y
      → Before k c a (s.enqidx a)
  slot_behind {s} r i x a k c y e room put = elim (dec_lt k a) [
    | yes lt ↦ inl lt
    | no ge ↦ elim (ℕ_discrete a k) [
      | yes same ↦ inr (sym same, subst (λ z. c < s.enqidx z) (sym same) bound.2)
      | no ne ↦ absurd (omega (arith, room, v.shape.full a (omega (arith, ge, ne, bound))))
    ]
  ]
    where
      v : Inv size remap s
      v = Reach-Inv remap size pos injective r

      bound : (k ≤ s.last) × (c < size) × (c < s.enqidx k)
      bound = v.slots.put_bound k c y put

  module _ {s : System} (v : Inv size remap s) where
    -- A place whose ticket is given out.
    given-IsClaimed : (k d x : ℕ) → d < s.deqidx k → put_at s.trace k d ≡ some x → IsClaimed s k d x
    given-IsClaimed k d x lt put =
        let (kl, ds, _) = v.slots.put_bound k d x put in
        elim (v.tickets.served k d kl ds lt) [
          | inr h ↦ inr h
          | inl m ↦ inl (
              subst (λ w. Fits w (put_at s.trace k d) (got_at s.trace k d)) m
                (v.slots.fits k d kl ds)
              ∙ put)
        ]

    -- All tickets are given out before a place from which an item was taken.
    tickets_before : (a c y : ℕ) → got_at s.trace a c ≡ some y → (c < s.deqidx a) × (a ≤ s.head)
    tickets_before a c y got = elim (dec_lt c (s.deqidx a)) [
      | yes lt ↦ (
        lt,
        elim (dec_lt s.head a) [
          | yes far ↦ absurd (omega (arith, lt, v.shape.untouched a far))
          | no near ↦ omega (arith, near)
        ],
      )
      | no ge ↦ absurd (
          v.slots.unclaimed a c bound.0 bound.1 (omega (arith, ge)) (go (s.items a (remap c)) refl))
    ]
      where
        bound : (a ≤ s.last) × (c < size) × (c < s.enqidx a)
        bound = v.slots.put_bound a c y (v.slots.got_put a c y got)

        go : (w : Cell) → w ≡ s.items a (remap c) → s.items a (remap c) ≡ taken
        go w q = fit w q (
            subst (λ z. Fits z (put_at s.trace a c) (got_at s.trace a c)) (sym q)
              (v.slots.fits a c bound.0 bound.1))
          where
            fit :
                (w : Cell)
                → w ≡ s.items a (remap c)
                → Fits w (put_at s.trace a c) (got_at s.trace a c)
                → s.items a (remap c) ≡ taken
            fit empty q f = let g = f.1 in absurd cc
            fit (item z) q f = let g = f.1 in absurd cc
            fit taken q f = sym q

  -- If an item was taken out of a place, every item that was put into a place before it is taken out
  -- too, or a dequeuer has the ticket to take it: no item overtakes.
  pub dequeue_in_order :
      {s : System}
      → Reach remap size s
      → (a c y k d x : ℕ) → got_at s.trace a c ≡ some y
      → Before k d a c
      → put_at s.trace k d ≡ some x
      → IsClaimed s k d x
  dequeue_in_order {s} r a c y k d x got before put = given-IsClaimed v k d x (given before) put
    where
      v : Inv size remap s
      v = Reach-Inv remap size pos injective r

      given : Before k d a c → d < s.deqidx k
      given (inl lt) = omega (
        arith,
        (v.slots.put_bound k d x put).1,
        v.shape.drained k (omega (arith, lt, (tickets_before v a c y got).1)),
      )
      given (inr (e, lt)) =
          subst (λ z. d < s.deqidx z) (sym e) (omega (arith, lt, (tickets_before v a c y got).0))

  -- Behind a last node that is drained, or whose slot was empty with no enqueuer behind it, nothing is
  -- unclaimed.
  pub end-IsClaimed :
      {s : System}
      → Reach remap size s
      → (i a : ℕ) → s.next a ≡ none
      → (s.pc i ≡ deq_drained a) ⊎ ((c : ℕ) × (s.pc i ≡ deq_check a c) × (s.enqidx a ≤ c + 1))
      → (k d x : ℕ) → put_at s.trace k d ≡ some x
      → IsClaimed s k d x
  end-IsClaimed {s} r i a nul at k d x put = given-IsClaimed v k d x (given at) put
    where
      v : Inv size remap s
      v = Reach-Inv remap size pos injective r

      bound : (k ≤ s.last) × (d < size) × (d < s.enqidx k)
      bound = v.slots.put_bound k d x put

      last_is : a ≤ s.head → a ≡ s.last
      last_is le = null_is_last size v.shape a (omega (arith, le, v.shape.head-le)) nul

      given :
          (s.pc i ≡ deq_drained a) ⊎ ((c : ℕ) × (s.pc i ≡ deq_check a c) × (s.enqidx a ≤ c + 1))
          → d < s.deqidx k
      given (inl e) =
          let l = known remap size pos injective s v i e in
          elim (ℕ_discrete a k) [
            | yes f ↦ subst (λ z. d < s.deqidx z) f (omega (arith, l.1, bound.1))
            | no ne ↦ omega (
              arith,
              bound.1,
              v.shape.drained k (omega (arith, l.0, bound.0, ne, last_is l.0, v.shape.head-le)),
            )
          ]
      given (inr (c, e, le)) =
          let l = known remap size pos injective s v i e in
          elim (ℕ_discrete a k) [
            | yes f ↦
                subst (λ z. d < s.deqidx z) f
                  (omega (arith, l.1, le, subst (λ z. d < s.enqidx z) (sym f) bound.2))
            | no ne ↦ omega (
              arith,
              bound.1,
              v.shape.drained k (omega (arith, l.0, bound.0, ne, last_is l.0, v.shape.head-le)),
            )
          ]
