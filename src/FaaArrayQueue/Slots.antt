-- ===== src/FaaArrayQueue/Slots.antt =====
-- The steps that write a slot, or give out a dequeue ticket.
use ispass2026_concurrent_qu.Common.{
  ℕ, ◌≤◌, ◌<◌, ◌≡◌, ◌≢◌, refl, sym, subst, ap, ◌∙◌, ◌⊎◌, inl, inr, List, ◌∷◌, Option, none, some,
  arith, ℕ_discrete, update_two_elim,
}
use ispass2026_concurrent_qu.FaaArrayQueue.{
  Cell, empty, item, taken, Event, push, pop, put_at, got_at, store,
}
use ispass2026_concurrent_qu.FaaArrayQueue.Inv.{Fits, Slots}

pub put_at-here : (i x a c : ℕ) (tr : List Event) → put_at (push i x a c ∷ tr) a c ≡ some x
put_at-here i x a c tr = ground arith

pub put_at-there :
    (i x a c k d : ℕ) (tr : List Event)
    → (a ≡ k → c ≢ d)
    → put_at (push i x a c ∷ tr) k d ≡ put_at tr k d
put_at-there i x a c k d tr ne = ground (arith, ne)

pub got_at-here : (i x a c : ℕ) (tr : List Event) → got_at (pop i x a c ∷ tr) a c ≡ some x
got_at-here i x a c tr = ground arith

pub got_at-there :
    (i x a c k d : ℕ) (tr : List Event)
    → (a ≡ k → c ≢ d)
    → got_at (pop i x a c ∷ tr) k d ≡ got_at tr k d
got_at-there i x a c k d tr ne = ground (arith, ne)

-- Is it the same place?
abbrev pub Same : ℕ → ℕ → ℕ → ℕ → Type 0
Same a c k d = ((a ≡ k) × (c ≡ d)) ⊎ (a ≡ k → c ≢ d)

pub Same-place : (a c k d : ℕ) → Same a c k d
Same-place a c k d = elim (ℕ_discrete a k) [
  | no ne ↦ inr (λ e. absurd (ne e))
  | yes e ↦ elim (ℕ_discrete c d) [ yes f ↦ inl (e, f) | no ne ↦ inr (λ _. ne) ]
]

pub Fits-cast : (v : Cell) {p p' g g' : Option ℕ} → Fits v p g → p' ≡ p → g' ≡ g → Fits v p' g'
Fits-cast v {p} {p'} {g} {g'} h e f = subst (λ q. Fits v q g') (sym e) (subst (Fits v p) (sym f) h)

module _ (size : ℕ) (remap : ℕ → ℕ)
    (injective : (c d : ℕ) → c < size → d < size → remap c ≡ remap d → c ≡ d) where
  -- What is read from a slot that was written.
  pub store_elim {ℓ} :
      (P : Cell → Type ℓ) (items : ℕ → ℕ → Cell) (a c : ℕ) (v : Cell) (k d : ℕ)
      → c < size
      → d < size
      → (a ≡ k → c ≡ d → P v)
      → ((a ≡ k → c ≢ d) → P (items k (remap d)))
      → P (store items a (remap c) v k (remap d))
  store_elim P items a c v k d cs ds here there =
      update_two_elim P items a (remap c) v k (remap d) (λ e f. here e (injective c d cs ds f))
        (λ ne. there (λ e f. ne e (ap remap f)))

  module _ {last : ℕ} {items : ℕ → ℕ → Cell} {enqidx deqidx : ℕ → ℕ} {tr : List Event}
      (v : Slots size remap last items enqidx deqidx tr) (a c : ℕ) (al : a ≤ last)
      (cs : c < size) where
    pub put-Slots :
        (i x : ℕ)
        → c < enqidx a
        → items a (remap c) ≡ empty
        → Slots size remap last (store items a (remap c) (item x)) enqidx deqidx (push i x a c ∷ tr)
    put-Slots i x ce e = record {
      fits = λ k d le ds.
          store_elim (λ w. Fits w (put_at (push i x a c ∷ tr) k d) (got_at tr k d)) items a c
            (item x) k d cs ds
            (λ p q. (
              subst (λ m. put_at (push i x a c ∷ tr) m d ≡ some x) p
                  (subst (λ m. put_at (push i x a c ∷ tr) a m ≡ some x) q (put_at-here i x a c tr)),
              subst (λ m. got_at tr m d ≡ none) p (subst (λ m. got_at tr a m ≡ none) q none_got),
            ))
            (λ ne.
              Fits-cast (items k (remap d)) (v.fits k d le ds) (put_at-there i x a c k d tr ne)
                refl);
      put_bound = λ k d y h. elim (Same-place a c k d) [
        | inl (p, q) ↦ (
          omega (arith, p, al),
          omega (arith, q, cs),
          subst (λ m. d < enqidx m) p (omega (arith, q, ce)),
        )
        | inr ne ↦ v.put_bound k d y (sym (put_at-there i x a c k d tr ne) ∙ h)
      ];
      got_put = λ k d y h. elim (Same-place a c k d) [
        | inl (p, q) ↦ absurd (
            clash
              (subst (λ m. got_at tr a m ≡ some y) (sym q)
                (subst (λ m. got_at tr m d ≡ some y) (sym p) h))
              none_got)
        | inr ne ↦ put_at-there i x a c k d tr ne ∙ v.got_put k d y h
      ];
      unclaimed = λ k d le ds free.
          store_elim (λ w. w ≢ taken) items a c (item x) k d cs ds (λ _ _ q. cc)
            (λ _. v.unclaimed k d le ds free);
    }
      where
        none_got : got_at tr a c ≡ none
        none_got = (subst (λ w. Fits w (put_at tr a c) (got_at tr a c)) e (v.fits a c al cs)).1

        clash : {q : Option ℕ} {y : ℕ} → q ≡ some y → ¬ (q ≡ none)
        clash h n = cc

    late : {k d : ℕ} → c < deqidx a → a ≡ k → c ≡ d → ¬ (deqidx k ≤ d)
    late {d = d} cd p q free = omega (arith, cd, q, subst (λ m. deqidx m ≤ d) (sym p) free)

    -- A slot is marked by its ticket holder: an item in it is taken out, if there was one.
    pub take-Slots :
        (i x : ℕ)
        → c < deqidx a
        → items a (remap c) ≡ item x
        → Slots size remap last (store items a (remap c) taken) enqidx deqidx (pop i x a c ∷ tr)
    take-Slots i x cd e = record {
      fits = λ k d le ds.
          store_elim (λ w. Fits w (put_at tr k d) (got_at (pop i x a c ∷ tr) k d)) items a c taken k
            d cs ds
            (λ p q.
              subst (λ m. got_at (pop i x a c ∷ tr) m d ≡ put_at tr m d) p
                (subst (λ m. got_at (pop i x a c ∷ tr) a m ≡ put_at tr a m) q
                  (got_at-here i x a c tr ∙ sym put_x)))
            (λ ne.
              Fits-cast (items k (remap d)) (v.fits k d le ds) refl
                (got_at-there i x a c k d tr ne));
      put_bound = v.put_bound;
      got_put = λ k d y h. elim (Same-place a c k d) [
        | inl (p, q) ↦
            subst (λ m. put_at tr m d ≡ some y) p
              (subst (λ m. put_at tr a m ≡ some y) q
                (put_x
                  ∙ sym (got_at-here i x a c tr)
                  ∙ subst (λ m. got_at (pop i x a c ∷ tr) a m ≡ some y) (sym q)
                      (subst (λ m. got_at (pop i x a c ∷ tr) m d ≡ some y) (sym p) h)))
        | inr ne ↦ v.got_put k d y (sym (got_at-there i x a c k d tr ne) ∙ h)
      ];
      unclaimed = λ k d le ds free.
          store_elim (λ w. w ≢ taken) items a c taken k d cs ds (λ p q. absurd (late cd p q free))
            (λ _. v.unclaimed k d le ds free);
    }
      where
        put_x : put_at tr a c ≡ some x
        put_x = (subst (λ w. Fits w (put_at tr a c) (got_at tr a c)) e (v.fits a c al cs)).0

    pub spoil-Slots :
        c < deqidx a
        → items a (remap c) ≡ empty
        → Slots size remap last (store items a (remap c) taken) enqidx deqidx tr
    spoil-Slots cd e = record {
      fits = λ k d le ds.
          store_elim (λ w. Fits w (put_at tr k d) (got_at tr k d)) items a c taken k d cs ds
            (λ p q.
              subst (λ m. got_at tr m d ≡ put_at tr m d) p
                (subst (λ m. got_at tr a m ≡ put_at tr a m) q (neither.1 ∙ sym neither.0)))
            (λ _. v.fits k d le ds);
      put_bound = v.put_bound;
      got_put = v.got_put;
      unclaimed = λ k d le ds free.
          store_elim (λ w. w ≢ taken) items a c taken k d cs ds (λ p q. absurd (late cd p q free))
            (λ _. v.unclaimed k d le ds free);
    }
      where
        neither : (put_at tr a c ≡ none) × (got_at tr a c ≡ none)
        neither = subst (λ w. Fits w (put_at tr a c) (got_at tr a c)) e (v.fits a c al cs)
