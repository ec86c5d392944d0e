-- ===== src/PrQueue/Keep.antt =====
-- The invariant over each kind of access: a step of one thread that writes no cell, and the
-- compare-exchanges of `val` and of `idx`.
use ispass2026_concurrent_qu.Common.{
  ℕ, ◌+◌, ◌<◌, ◌≡◌, refl, sym, subst, ap, ◌∙◌, ◌⊎◌, inl, inr, true, List, ◌∷◌, Option, none, some,
  indicator, arith, dec_lt, some_inj, update, update_here, update_elim,
}
use ispass2026_concurrent_qu.PrQueue.{
  Word, word, plain, Val, empty, item, bottom, Pc, enq_bottom, enq_idx_cas, enq_item, enq_stamp,
  deq_clear, deq_move, deq_mark, deq_after, deq_stamp, Event, push, pop, System,
}
use ispass2026_concurrent_qu.PrQueue.Updates.{set_val, set_idx, put, take}
use ispass2026_concurrent_qu.PrQueue.Steps.{slot}
use ispass2026_concurrent_qu.PrQueue.Inv.{
  code, Pushed, pending, View, view, Low, NoPending, Seen, Guard, Entry, Inv, Next,
}
use ispass2026_concurrent_qu.PrQueue.Frame.{
  code_index, index_code, Guard-frame, val-Keeps, val-Next, idx-Next,
}

bottom_inj : {i j : ℕ} → bottom i ≡ bottom j → i ≡ j
bottom_inj e = cc

not_both : {o : Option ℕ} {t : ℕ} → o ≡ none → ¬ (o ≡ some t)
not_both e f = cc

module _ (remap : ℕ → ℕ) (size : ℕ) where
  -- What is known just after `val` was read, with `idx` read before it.
  pub Seen-now :
      (v : View) (c : ℕ) (w : Word) (u : Val)
      → Inv remap size v
      → Low v c w
      → v.val c ≡ u
      → Seen remap size v c w u
  Seen-now v c w empty inv l e = λ _. ((λ x f. cc), (λ j t p q f. cc))
  Seen-now v c w (item x) inv l e =
      let (u, (f, p, r)) = inv.entries c x e in
      ((λ _ j t q g b. cc), (u, p, omega (arith, f, code_index w (v.idx c) l)))
  Seen-now v c w (bottom j) inv l e = tt

  module _ (s : System) (inv : Inv remap size (view s)) (i : ℕ) where
    pub known : {p : Pc} → s.pc i ≡ p → Guard remap size (view s) i p
    known e = subst (Guard remap size (view s) i) e (inv.guards i)

    -- The thread writes no cell.
    pub stays :
        (p : Pc)
        → pending p ≡ none
        → Guard remap size (view s) i p
        → Next remap size
            (view s)
            (record { val = s.val; idx = s.idx; pc = update s.pc i p; trace = s.trace })
    stays p calm g =
        val-Next remap size (view s) i p s.val s.trace calm (λ d j e. inl e) (λ d y e. inl e)
          (λ x u q. q) inv
          (Guard-frame remap size
            (val-Keeps remap size (view s) i p s.val s.trace calm (λ d j e. inl e) (λ d y e. inl e)
              (λ x u q. q))
            i p (λ t e. absurd (not_both calm e)) g)

    -- The thread writes the `val` of one cell.
    module _ (c : ℕ) (u : Val) (p : Pc) (tr : List Event) (calm : pending p ≡ none)
        (more : (x t : ℕ) → Pushed x t s.trace → Pushed x t tr) where
      abbrev pub wrote : View
      wrote = record { val = update s.val c u; idx = s.idx; pc = update s.pc i p; trace = tr }

      pub val_at-Next :
          ((j : ℕ) → u ≡ bottom j → i ≡ j)
          → ((y : ℕ)
              → u ≡ item y
              → (¬ NoPending remap size (view s) c) × Entry remap size wrote c y)
          → Guard remap size wrote i p
          → Next remap size (view s) wrote
      val_at-Next mine entry g =
          val-Next remap size (view s) i p (update s.val c u) tr calm
            (λ d j.
              update_elim (λ z. z ≡ bottom j → (s.val d ≡ bottom j) ⊎ (i ≡ j)) s.val c u d
                (λ _ e. inr (mine j e)) (λ _ e. inl e))
            (λ d y.
              update_elim
                (λ z.
                  z ≡ item y
                  → (s.val d ≡ item y)
                    ⊎ ((¬ NoPending remap size (view s) d) × Entry remap size wrote d y))
                s.val c u d
                (λ same e. inr (
                  subst (λ m. (¬ NoPending remap size (view s) m) × Entry remap size wrote m y) same
                    (entry y e)))
                (λ _ e. inl e))
            more inv g

      pub empty-Next : u ≡ empty → Guard remap size wrote i p → Next remap size (view s) wrote
      empty-Next e g = val_at-Next (λ j f. absurd cc) (λ y f. absurd cc) g

    pub bottom-Next :
        (x n t : ℕ) (w : Word)
        → s.pc i ≡ enq_bottom x n t w
        → Next remap size
            (view s)
            (view (set_val i (slot remap size t) (bottom i) (enq_idx_cas x n t w) s))
    unfolding set_val
    bottom-Next x n t w e =
        let (l, le) = known e in
        let c = slot remap size t in
        val_at-Next c (bottom i) (enq_idx_cas x n t w) s.trace refl (λ y u q. q) (λ j. bottom_inj)
          (λ y f. absurd (not_item f))
          (
            l,
            le,
            λ _. (
              (λ y f. absurd (not_item (sym (update_here s.val c (bottom i)) ∙ f))),
              (λ j t' q f b. mine j t' (bottom_inj (sym (update_here s.val c (bottom i)) ∙ b)) q),
            ),
          )
      where
        not_item : {y : ℕ} → ¬ (bottom i ≡ item y)
        not_item f = cc

        mine : (j t' : ℕ) → i ≡ j → ¬ (pending (update s.pc i (enq_idx_cas x n t w) j) ≡ some t')
        mine j t' same =
            update_elim (λ q. ¬ (pending q ≡ some t')) s.pc i (enq_idx_cas x n t w) j (λ _ q. cc)
              (λ ne. absurd (ne same))

    pub put-Next :
        (x n t : ℕ)
        → s.pc i ≡ enq_item x n t
        → s.val (slot remap size t) ≡ bottom i
        → Next remap size (view s) (view (put i x t (slot remap size t) s))
    unfolding put
    put-Next x n t e f =
        let c = slot remap size t in
        val_at-Next c (item x) (enq_stamp x) (push i x t ∷ s.trace) refl (λ y u q. inr q)
          (λ j g. absurd cc)
          (λ y g. (
            (λ h. h i t (ap pending e) refl f),
            (t, (ap (λ u. u.index) (known e f), inl (item_inj g, refl), refl)),
          ))
          tt
      where
        item_inj : {a b : ℕ} → item a ≡ item b → a ≡ b
        item_inj g = cc

    pub take-Next : (x h c : ℕ) → Next remap size (view s) (view (take i x h c s))
    unfolding take
    take-Next x h c =
        empty-Next c empty (deq_stamp x) (pop i x h ∷ s.trace) refl (λ y u q. q) refl tt

    pub clear-Next :
        (h r j : ℕ) (last w : Word)
        → s.pc i ≡ deq_clear h r last w j
        → Next remap size
            (view s)
            (view (set_val i (slot remap size h) empty (deq_move h r last w) s))
    unfolding set_val
    clear-Next h r j last w e =
        let (l, le) = known e in
        let c = slot remap size h in
        empty-Next c empty (deq_move h r last w) s.trace refl (λ y u q. q) refl
          (
            l,
            (λ _. (
              (λ y f. absurd (other (sym (update_here s.val c empty) ∙ f) tt)),
              (λ k t p q f. absurd (other (sym (update_here s.val c empty) ∙ f) tt)),
            )),
            le,
          )
      where
        IsNull : Val → Type 0
        IsNull empty = Unit
        IsNull _ = ⊥

        other : {u : Val} → empty ≡ u → IsNull empty → IsNull u
        other f h' = subst IsNull f h'

    pub put_idx-Next :
        (x n t : ℕ) (w : Word)
        → 0 < size
        → s.pc i ≡ enq_idx_cas x n t w
        → s.idx (slot remap size t) ≡ w
        → Next remap size
            (view s)
            (view (set_idx i (slot remap size t) (plain (t + size)) (enq_item x n t) s))
    unfolding set_idx
    put_idx-Next x n t w pos e f =
        let (l, le, cl) = known e in
        let c = slot remap size t in
        idx-Next remap size (view s) i (enq_item x n t) c (plain (t + size)) (cl f).1 (inl (cl f).0)
          (inl (
            subst (λ u. code u < code (plain (t + size))) (sym f)
              (index_code w (plain (t + size)) (omega (arith, le, pos)))))
          (λ t' g. ap (slot remap size) (sym (some_inj g))) inv
          (λ _. update_here s.idx c (plain (t + size)))

    pub mark-Next :
        (h r : ℕ) (last w : Word)
        → s.pc i ≡ deq_mark h r last w
        → s.idx (slot remap size h) ≡ w
        → Next remap size
            (view s)
            (view (set_idx i (slot remap size h) (word true w.index) (deq_after h) s))
    unfolding set_idx
    mark-Next h r last w e f =
        let (l, q, m) = known e in
        let c = slot remap size h in
        let w' : Word = word true w.index in
        idx-Next remap size (view s) i (deq_after h) c w' (q f) (inr (ap (λ u. u.index) (sym f)))
          (inl (subst (λ u. code u < code w') (sym f) (omega (arith, ap indicator m))))
          (λ t' g. absurd cc) inv tt

    pub move-Next :
        (h r : ℕ) (last w : Word)
        → s.pc i ≡ deq_move h r last w
        → s.idx (slot remap size h) ≡ w
        → Next remap size
            (view s)
            (view (set_idx i (slot remap size h) (word w.marked (h + size)) (deq_after h) s))
    unfolding set_idx
    move-Next h r last w e f =
        let (l, cl, le) = known e in
        let c = slot remap size h in
        let w' : Word = word w.marked (h + size) in
        idx-Next remap size (view s) i (deq_after h) c w' (cl f).1 (inl (cl f).0)
          (elim (dec_lt w.index (h + size)) [
            | yes lt ↦ inl (subst (λ u. code u < code w') (sym f) (index_code w w' lt))
            | no ge ↦ inr (ap (word w.marked) (omega (arith, ge, le)) ∙ sym f, refl)
          ])
          (λ t' g. absurd cc) inv tt
