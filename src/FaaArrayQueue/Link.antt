-- ===== src/FaaArrayQueue/Link.antt =====
-- The step that links a new node behind the last one.
use ispass2026_concurrent_qu.Common.{
  ℕ, ◌+◌, ◌≤◌, ◌<◌, ◌≡◌, ◌≢◌, refl, sym, subst, ap, ◌∙◌, inl, inr, List, ◌∷◌, Option, none, some,
  arith, update, update_elim, update_here, update_there, ℕ_discrete, dec_lt, some_inj, Option-cases,
}
use ispass2026_concurrent_qu.FaaArrayQueue.{
  Cell, empty, item, taken, Pc, Event, push, put_at, got_at,
}
use ispass2026_concurrent_qu.FaaArrayQueue.Inv.{Fits, Shape, Slots, Tickets}
use ispass2026_concurrent_qu.FaaArrayQueue.Frame.{Grows}
use ispass2026_concurrent_qu.FaaArrayQueue.Slots.{Same-place, put_at-here, put_at-there, Fits-cast}

-- A family that gets a value for the node behind the last keeps the others.
pub old_node {ℓ} :
    {A : Type ℓ} (f : ℕ → A) (last : ℕ) (v : A) (k : ℕ) → k ≤ last → update f (last + 1) v k ≡ f k
old_node f last v k le = update_there f (last + 1) v k (omega (arith, le))

pub Grows-new : (f : ℕ → ℕ) (last n : ℕ) → Grows f (update f (last + 1) n) last
Grows-new f last n k le = omega (arith, old_node f last n k le)

module _ (size : ℕ) where
  pub null_is_last :
      {last head tail : ℕ} {next : ℕ → Option ℕ} {enqidx deqidx : ℕ → ℕ}
      → Shape size last head tail next enqidx deqidx
      → (a : ℕ) → a ≤ last
      → next a ≡ none
      → a ≡ last
  null_is_last {last} {next = next} v a le e = elim (dec_lt a last) [
    | yes lt ↦ let f : next a ≡ some (a + 1) = v.links a lt in cc
    | no ge ↦ omega (arith, le, ge)
  ]

  pub next_is_behind :
      {last head tail : ℕ} {next : ℕ → Option ℕ} {enqidx deqidx : ℕ → ℕ}
      → Shape size last head tail next enqidx deqidx
      → (a b : ℕ) → a ≤ last
      → next a ≡ some b
      → (b ≡ a + 1) × (b ≤ last)
  next_is_behind {last} {next = next} v a b le e = elim (dec_lt a last) [
    | yes lt ↦ let f : b ≡ a + 1 = some_inj (sym e ∙ v.links a lt) in (f, omega (arith, f, lt))
    | no ge ↦
        let f : next a ≡ none = subst (λ z. next z ≡ none) (omega (arith, le, ge)) v.end_null in
        absurd cc
  ]

  pub link-Shape :
      {last head tail : ℕ} {next : ℕ → Option ℕ} {enqidx deqidx : ℕ → ℕ}
      → Shape size last head tail next enqidx deqidx
      → size ≤ enqidx last
      → Shape size
          (last + 1)
          head
          tail
          (update (update next (last + 1) none) last (some (last + 1)))
          (update enqidx (last + 1) 1)
          (update deqidx (last + 1) 0)
  link-Shape {last} {next = next} {enqidx = enqidx} {deqidx = deqidx} v filled = record {
    head-le = omega (arith, v.head-le);
    tail-le = omega (arith, v.tail-le);
    links = λ k lt. elim (ℕ_discrete last k) [
      | yes e ↦
          subst (λ z. next' z ≡ some (z + 1)) e
            (update_here (update next (last + 1) none) last (some (last + 1)))
      | no ne ↦
          update_there (update next (last + 1) none) last (some (last + 1)) k ne
          ∙ old_node next last none k (omega (arith, lt))
          ∙ v.links k (omega (arith, lt, ne))
    ];
    end_null =
        update_there (update next (last + 1) none) last (some (last + 1)) (last + 1) (omega arith)
        ∙ update_here next (last + 1) none;
    full = λ k lt. elim (ℕ_discrete last k) [
      | yes e ↦ omega (
        arith,
        old_node enqidx last 1 k (omega (arith, lt)),
        subst (λ z. size ≤ enqidx z) e filled,
      )
      | no ne ↦
          omega
            (arith, old_node enqidx last 1 k (omega (arith, lt)), v.full k (omega (arith, lt, ne)))
    ];
    drained = λ k lt.
        omega (arith, old_node deqidx last 0 k (omega (arith, lt, v.head-le)), v.drained k lt);
    untouched =
        λ k lt. update_elim (λ n. n ≡ 0) deqidx (last + 1) 0 k (λ _. refl) (λ _. v.untouched k lt);
  }
    where
      next' : ℕ → Option ℕ
      next' = update (update next (last + 1) none) last (some (last + 1))

  module _ (remap : ℕ → ℕ) (injective : (c d : ℕ) → c < size → d < size → remap c ≡ remap d → c ≡ d)
      (pos : 0 < size) where
    module _ {last : ℕ} {items : ℕ → ℕ → Cell} {enqidx deqidx : ℕ → ℕ} {tr : List Event}
        (v : Slots size remap last items enqidx deqidx tr) (i x : ℕ) where
      abbrev row : ℕ → Cell
      row = update (λ c. empty) (remap 0) (item x)

      abbrev tr' : List Event
      tr' = push i x (last + 1) 0 ∷ tr

      no_put : (c : ℕ) → put_at tr (last + 1) c ≡ none
      no_put c = elim (Option-cases (put_at tr (last + 1) c)) [
        | inl e ↦ e
        | inr (y, e) ↦ absurd (omega (arith, v.put_bound (last + 1) c y e))
      ]

      no_got : (c : ℕ) → got_at tr (last + 1) c ≡ none
      no_got c = elim (Option-cases (got_at tr (last + 1) c)) [
        | inl e ↦ e
        | inr (y, e) ↦
            absurd (omega (arith, v.put_bound (last + 1) c y (v.got_put (last + 1) c y e)))
      ]

      new_row :
          (c : ℕ)
          → c < size
          → Fits (row (remap c)) (put_at tr' (last + 1) c) (got_at tr (last + 1) c)
      new_row c cs =
          update_elim (λ w. Fits w (put_at tr' (last + 1) c) (got_at tr (last + 1) c)) (λ c. empty)
            (remap 0) (item x) (remap c)
            (λ e. (
              subst (λ z. put_at tr' (last + 1) z ≡ some x) (injective 0 c pos cs e)
                  (put_at-here i x (last + 1) 0 tr),
              no_got c,
            ))
            (λ ne. (
              put_at-there i x (last + 1) 0 (last + 1) c tr (λ _ e. ne (ap remap e)) ∙ no_put c,
              no_got c,
            ))

      unmarked_row : (d : ℕ) → row d ≢ taken
      unmarked_row d =
          update_elim (λ w. w ≢ taken) (λ c. empty) (remap 0) (item x) d (λ _ e. cc) (λ _ e. cc)

      pub link-Slots :
          Slots size remap
            (last + 1)
            (update items (last + 1) row)
            (update enqidx (last + 1) 1)
            (update deqidx (last + 1) 0)
            tr'
      link-Slots = record {
        fits = λ k c le cs.
            update_elim (λ r. Fits (r (remap c)) (put_at tr' k c) (got_at tr k c)) items (last + 1)
              row k
              (λ e.
                subst (λ z. Fits (row (remap c)) (put_at tr' z c) (got_at tr z c)) e (new_row c cs))
              (λ ne.
                Fits-cast (items k (remap c)) (v.fits k c (omega (arith, le, ne)) cs)
                  (put_at-there i x (last + 1) 0 k c tr (λ e. absurd (ne e))) refl);
        put_bound = λ k c y h. elim (Same-place (last + 1) 0 k c) [
          | inl (p, q) ↦ (
            omega (arith, p),
            omega (arith, q, pos),
            subst (λ z. c < update enqidx (last + 1) 1 z) p
                (omega (arith, q, update_here enqidx (last + 1) 1)),
          )
          | inr ne ↦
              let old = v.put_bound k c y (sym (put_at-there i x (last + 1) 0 k c tr ne) ∙ h) in
              omega (arith, old, old_node enqidx last 1 k old.0)
        ];
        got_put = λ k c y h. elim (Same-place (last + 1) 0 k c) [
          | inl (p, q) ↦
              let f : got_at tr k c ≡ none = subst (λ z. got_at tr z c ≡ none) p (no_got c) in
              absurd cc
          | inr ne ↦ put_at-there i x (last + 1) 0 k c tr ne ∙ v.got_put k c y h
        ];
        unclaimed = λ k c le cs. elim (ℕ_discrete (last + 1) k) [
          | yes e ↦ λ _.
              subst (λ z. update items (last + 1) row z (remap c) ≢ taken) e
                (subst (λ r. r (remap c) ≢ taken) (sym (update_here items (last + 1) row))
                  (unmarked_row (remap c)))
          | no ne ↦ λ free.
              subst (λ r. r (remap c) ≢ taken) (sym (update_there items (last + 1) row k ne))
                (v.unclaimed k c (omega (arith, le, ne)) cs
                  (omega (arith, free, update_there deqidx (last + 1) 0 k ne)))
        ];
      }

    pub link-Tickets :
        {last : ℕ} {items : ℕ → ℕ → Cell} {deqidx : ℕ → ℕ} {pc : ℕ → Pc}
        → Tickets size remap last items deqidx pc
        → (row : ℕ → Cell)
        → Tickets size remap
            (last + 1)
            (update items (last + 1) row)
            (update deqidx (last + 1) 0)
            pc
    link-Tickets {last} {items} {deqidx} {pc} t row = record {
      holder = t.holder;
      held = λ j a c h.
          let (al, cs, lt, ok) = t.held j a c h in
          (
            omega (arith, al),
            cs,
            omega (arith, lt, old_node deqidx last 0 a al),
            subst (λ r. r (remap c) ≢ taken) (sym (old_node items last row a al)) ok,
          );
      served = λ k c le cs lt. elim (ℕ_discrete (last + 1) k) [
        | yes e ↦ absurd (
            omega (
              arith,
              subst (λ z. c < update deqidx (last + 1) 0 z) (sym e) lt,
              update_here deqidx (last + 1) 0,
            ))
        | no ne ↦
            elim (t.served k c (omega (arith, le, ne)) cs
              (omega (arith, lt, update_there deqidx (last + 1) 0 k ne))) [
                | inl m ↦ inl (
                    subst (λ r. r (remap c) ≡ taken) (sym (update_there items (last + 1) row k ne))
                      m)
                | inr h ↦ inr h
              ]
      ];
    }
