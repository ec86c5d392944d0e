-- ===== src/FaaArrayQueue/Claims.antt =====
-- The steps by which dequeue tickets are given out and used up.
use ispass2026_concurrent_qu.Common.{
  ℕ, ◌+◌, ◌≤◌, ◌<◌, ◌≡◌, ◌≢◌, refl, sym, subst, ap, ap₂, ◌∙◌, ◌⊎◌, inl, inr, none, some, arith,
  update, update_elim, update_here, some_inj,
}
use ispass2026_concurrent_qu.FaaArrayQueue.{Cell, empty, item, taken, Pc, deq_take, store}
use ispass2026_concurrent_qu.FaaArrayQueue.Inv.{ticket, Takes, Tickets}
use ispass2026_concurrent_qu.FaaArrayQueue.Frame.{
  Takes-before, Takes-after, quiet-Tickets, Grows-at,
}
use ispass2026_concurrent_qu.FaaArrayQueue.Slots.{Same-place, store_elim}

pub Takes-same : (p : Pc) {a c k d : ℕ} → Takes p a c → Takes p k d → (a ≡ k) × (c ≡ d)
Takes-same p {a} {c} {k} {d} h h' = (ap (λ x. x.0) same, ap (λ x. x.1) same)
  where
    same : ◌≡◌ {A = ℕ × ℕ} (a, c) (k, d)
    same = some_inj (sym h ∙ h')

module _ (size : ℕ) (remap : ℕ → ℕ)
    (injective : (c d : ℕ) → c < size → d < size → remap c ≡ remap d → c ≡ d) {last : ℕ}
    {items : ℕ → ℕ → Cell} {deqidx : ℕ → ℕ} {pc : ℕ → Pc}
    (t : Tickets size remap last items deqidx pc) where
  -- An item is put into an empty slot.
  pub put-Tickets :
      (a c x i : ℕ) (p : Pc)
      → c < size
      → items a (remap c) ≡ empty
      → ticket (pc i) ≡ none
      → ticket p ≡ none
      → Tickets size remap last (store items a (remap c) (item x)) deqidx (update pc i p)
  put-Tickets a c x i p cs e was now = quiet-Tickets size remap i p was now (record {
    holder = t.holder;
    held = λ j k d h.
        let (bl, ds, lt, ok) = t.held j k d h in
        (
          bl,
          ds,
          lt,
          store_elim size remap injective (λ w. w ≢ taken) items a c (item x) k d cs ds
              (λ _ _ q. cc) (λ _. ok),
        );
    served = λ k d le ds lt. elim (t.served k d le ds lt) [
      | inr h ↦ inr h
      | inl m ↦ inl (
          store_elim size remap injective (λ w. w ≡ taken) items a c (item x) k d cs ds
            (λ p q. absurd (unmarked p q m)) (λ _. m))
    ];
  })
    where
      unmarked : {k d : ℕ} → a ≡ k → c ≡ d → ¬ (items k (remap d) ≡ taken)
      unmarked {k} {d} p q m =
          let m' : items a (remap c) ≡ taken =
            subst (λ z. items z (remap c) ≡ taken) (sym p)
              (subst (λ z. items k (remap z) ≡ taken) (sym q) m) in
          cc

  -- A ticket is given out by `fetch_add`.
  pub claimed-Tickets :
      (a i : ℕ)
      → a ≤ last
      → deqidx a < size
      → items a (remap (deqidx a)) ≢ taken
      → ticket (pc i) ≡ none
      → Tickets size remap last items
          (update deqidx a (deqidx a + 1))
          (update pc i (deq_take a (deqidx a)))
  claimed-Tickets a i al cs ok was = record {
    holder = λ j k b d hj hk. holder' j k b d hj hk;
    held = λ j b d h. elim (mine j b d h) [
      | inl (e, p, q) ↦ (
        omega (arith, p, al),
        omega (arith, q, cs),
        subst (λ z. d < update deqidx a (deqidx a + 1) z) p
            (subst (λ z. d < z) (sym (update_here deqidx a (deqidx a + 1))) (omega (arith, q))),
        subst (λ z. items z (remap d) ≢ taken) p (subst (λ z. items a (remap z) ≢ taken) q ok),
      )
      | inr old ↦ let (bl, ds, lt, fine) = t.held j b d old in (bl, ds, more b d lt, fine)
    ];
    served = λ k d le ds lt. elim (Same-place a (deqidx a) k d) [
      | inl (p, q) ↦
          inr
            (i, ap ticket (update_here pc i (deq_take a (deqidx a))) ∙ ap₂ (λ x y. some (x, y)) p q)
      | inr ne ↦ elim (t.served k d le ds (fewer k d ne lt)) [
        | inl m ↦ inl m
        | inr (j, h) ↦
            inr (j, Takes-after pc i (deq_take a (deqidx a)) j k d h (λ e. absurd (none_held e h)))
      ]
    ];
  }
    where
      none_held : {j k d : ℕ} → i ≡ j → ¬ Takes (pc j) k d
      none_held {j} {k} {d} e h =
          let h' : ticket (pc i) ≡ some (k, d) =
            subst (λ z. ticket (pc z) ≡ some (k, d)) (sym e) h in
          cc

      more : (k d : ℕ) → d < deqidx k → d < update deqidx a (deqidx a + 1) k
      more k d lt =
          omega (arith, lt, Grows-at deqidx a (deqidx a + 1) k (omega arith) k (omega arith))

      -- The new ticket, or an old one.
      mine :
          (j b d : ℕ)
          → Takes (update pc i (deq_take a (deqidx a)) j) b d
          → ((i ≡ j) × (a ≡ b) × (deqidx a ≡ d)) ⊎ Takes (pc j) b d
      mine j b d =
          update_elim (λ p. Takes p b d → ((i ≡ j) × (a ≡ b) × (deqidx a ≡ d)) ⊎ Takes (pc j) b d)
            pc i (deq_take a (deqidx a)) j
            (λ e h. let (x, y) = Takes-same (deq_take a (deqidx a)) refl h in inl (e, x, y))
            (λ _ h. inr h)

      fewer :
          (k d : ℕ) → (a ≡ k → deqidx a ≢ d) → d < update deqidx a (deqidx a + 1) k → d < deqidx k
      fewer k d ne =
          update_elim (λ n. d < n → d < deqidx k) deqidx a (deqidx a + 1) k
            (λ e lt. subst (λ z. d < deqidx z) e (omega (arith, lt, ne e))) (λ _ lt. lt)

      new_old : (j k b d : ℕ) → a ≡ b → deqidx a ≡ d → ¬ Takes (pc k) b d
      new_old j k b d p q h = omega (arith, (t.held k b d h).2, subst (λ z. deqidx z ≡ d) p q)

      holder' :
          (j k b d : ℕ)
          → Takes (update pc i (deq_take a (deqidx a)) j) b d
          → Takes (update pc i (deq_take a (deqidx a)) k) b d
          → j ≡ k
      holder' j k b d hj hk = elim (mine j b d hj) [
        | inl (e, p, q) ↦ elim (mine k b d hk) [
          | inl (f, _, _) ↦ sym e ∙ f
          | inr old ↦ absurd (new_old j k b d p q old)
        ]
        | inr oldj ↦ elim (mine k b d hk) [
          | inl (f, p, q) ↦ absurd (new_old k j b d p q oldj)
          | inr oldk ↦ t.holder j k b d oldj oldk
        ]
      ]

  -- The holder of a ticket marks its slot, and holds no ticket any more.
  pub marked-Tickets :
      (a c i : ℕ) (p : Pc)
      → Takes (pc i) a c
      → ticket p ≡ none
      → Tickets size remap last (store items a (remap c) taken) deqidx (update pc i p)
  marked-Tickets a c i p mine now = record {
    holder = λ j k b d hj hk. t.holder j k b d (before j b d hj) (before k b d hk);
    held = λ j b d h.
        let (bl, ds, lt, ok) = t.held j b d (before j b d h) in
        (
          bl,
          ds,
          lt,
          store_elim size remap injective (λ w. w ≢ taken) items a c taken b d cs ds
              (λ e f. absurd (gone j b d h e f)) (λ _. ok),
        );
    served = λ k d le ds lt. elim (Same-place a c k d) [
      | inl (e, f) ↦ inl (
          store_elim size remap injective (λ w. w ≡ taken) items a c taken k d cs ds (λ _ _. refl)
            (λ ne. absurd (ne e f)))
      | inr ne ↦ elim (t.served k d le ds lt) [
        | inl m ↦ inl (
            store_elim size remap injective (λ w. w ≡ taken) items a c taken k d cs ds (λ _ _. refl)
              (λ _. m))
        | inr (j, h) ↦ inr (
          j,
          Takes-after pc i p j k d h (λ e.
              let (x, y) = Takes-same (pc j) (subst (λ z. Takes (pc z) a c) e mine) h in ne x y),
        )
      ]
    ];
  }
    where
      cs : c < size
      cs = (t.held i a c mine).1

      before : (j b d : ℕ) → Takes (update pc i p j) b d → Takes (pc j) b d
      before j b d = Takes-before pc i p j b d now

      gone : (j b d : ℕ) → Takes (update pc i p j) b d → a ≡ b → c ≡ d → ⊥
      gone j b d h e f =
          let same : i ≡ j =
            t.holder i j b d
              (subst (λ z. Takes (pc i) z d) e (subst (λ z. Takes (pc i) a z) f mine))
              (before j b d h) in
          let h' : ticket p ≡ some (b, d) =
            subst (λ q. Takes q b d) (update_here pc i p)
              (subst (λ z. Takes (update pc i p z) b d) (sym same) h) in
          cc
