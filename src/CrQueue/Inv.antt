-- ===== src/CrQueue/Inv.antt =====
-- What holds of the cells of the ring, and the steps that exchange a cell.
use ispass2026_concurrent_qu.Common.{
  ℕ, ◌≤◌, ◌<◌, ◌≡◌, refl, sym, subst, ap, ◌∙◌, ◌⊎◌, inl, inr, List, ◌∷◌, Option, none, some, arith,
  Option-cases, update, update_here, update_elim, update_elim_three,
}
use ispass2026_concurrent_qu.PrQueue.{Word, plain}
use ispass2026_concurrent_qu.CrQueue.{Event, push, pop, pushed, popped}
use ispass2026_concurrent_qu.CrQueue.Steps.{slot}

-- The item that was put with a ticket is in the ticket's cell, under the ticket as its index.
abbrev pub Stored : (ℕ → ℕ) → ℕ → (ℕ → Option ℕ) → (ℕ → Word) → ℕ → ℕ → Type 0
Stored remap size val idx u x =
    ((idx (slot remap size u)).index ≡ u) × (val (slot remap size u) ≡ some x)

null_some : {x : ℕ} → ¬ (none ≡ some x)
null_some e = cc

module _ (remap : ℕ → ℕ) (size : ℕ) where
  pub record Cells (val : ℕ → Option ℕ) (idx : ℕ → Word) (tr : List Event) : Type 0 where
    pub holds :
        (c x : ℕ)
        → val c ≡ some x
        → (pushed tr (idx c).index ≡ some x) × (slot remap size (idx c).index ≡ c)
    pub put_stays :
        (u x : ℕ) → pushed tr u ≡ some x → (popped tr u ≡ some x) ⊎ Stored remap size val idx u x
    pub got_bound :
        (u x : ℕ)
        → popped tr u ≡ some x
        → (u < (idx (slot remap size u)).index) × (pushed tr u ≡ some x)

  module _ {val : ℕ → Option ℕ} {idx : ℕ → Word} {tr : List Event} (v : Cells val idx tr) where
    -- Nothing was put with the ticket of an enqueuer that finds the cell null.
    pub not_pushed :
        (t : ℕ)
        → val (slot remap size t) ≡ none
        → (idx (slot remap size t)).index ≤ t
        → pushed tr t ≡ none
    not_pushed t e le = elim (Option-cases (pushed tr t)) [
      | inl f ↦ f
      | inr (x, f) ↦ elim (v.put_stays t x f) [
        | inl g ↦ absurd (omega (arith, le, (v.got_bound t x g).0))
        | inr (_, g) ↦ absurd cc
      ]
    ]

    -- An item in a cell under its ticket was not taken.
    pub not_popped : (h : ℕ) → (idx (slot remap size h)).index ≡ h → popped tr h ≡ none
    not_popped h e = elim (Option-cases (popped tr h)) [
      | inl f ↦ f
      | inr (x, f) ↦ absurd (omega (arith, e, (v.got_bound h x f).0))
    ]

    -- An item in a cell under its ticket was put with the ticket.
    pub put_before :
        (h x : ℕ)
        → val (slot remap size h) ≡ some x
        → (idx (slot remap size h)).index ≡ h
        → pushed tr h ≡ some x
    put_before h x found same =
        subst (λ m. pushed tr m ≡ some x) same (v.holds (slot remap size h) x found).0

    -- Only the index of a cell changes: it stays as it is, or the cell is null and it grows.
    pub idx-Cells :
        (c : ℕ) (w : Word)
        → (idx c).index ≤ w.index
        → (val c ≡ none) ⊎ (w.index ≡ (idx c).index)
        → Cells val (update idx c w) tr
    idx-Cells c w le why = record {
      holds = λ d x e. (
        subst (λ m. pushed tr m ≡ some x) (sym (index_same d x e)) (v.holds d x e).0,
        ap (slot remap size) (index_same d x e) ∙ (v.holds d x e).1,
      );
      put_stays = λ u x e. elim (v.put_stays u x e) [
        | inl f ↦ inl f
        | inr (f, g) ↦ inr (index_same (slot remap size u) x g ∙ f, g)
      ];
      got_bound = λ u x e.
          let (lt, p) = v.got_bound u x e in
          (
            update_elim (λ z. u < z.index) idx c w (slot remap size u)
                (λ same. omega (arith, le, subst (λ m. u < (idx m).index) (sym same) lt)) (λ _. lt),
            p,
          );
    }
      where
        index_same : (d x : ℕ) → val d ≡ some x → (update idx c w d).index ≡ (idx d).index
        index_same d x e =
            update_elim (λ z. z.index ≡ (idx d).index) idx c w d
              (λ same. elim why [
                | inl f ↦ absurd (null_some (sym f ∙ ap val same ∙ e))
                | inr f ↦ f ∙ ap (λ m. (idx m).index) same
              ])
              (λ _. refl)

    module _ (i x t : ℕ) (free : val (slot remap size t) ≡ none)
        (le : (idx (slot remap size t)).index ≤ t) where
      abbrev put_cell : ℕ
      put_cell = slot remap size t

      abbrev put_val : ℕ → Option ℕ
      put_val = update val put_cell (some x)

      abbrev put_idx : ℕ → Word
      put_idx = update idx put_cell (plain t)

      pub put-Cells :
          Cells
            (update val (slot remap size t) (some x))
            (update idx (slot remap size t) (plain t))
            (push i x t ∷ tr)
      put-Cells = record {
        holds = λ d y.
            update_elim_three
              (λ a b _.
                a ≡ some y
                → (update (pushed tr) t (some x) b.index ≡ some y) × (slot remap size b.index ≡ d))
              val idx idx put_cell (some x) (plain t) (plain t) d
              (λ same e. (update_here (pushed tr) t (some x) ∙ e, same))
              (λ _ e. (more (idx d).index y (v.holds d y e).0, (v.holds d y e).1));
        put_stays = λ u y.
            update_elim
              (λ z. z ≡ some y → (popped tr u ≡ some y) ⊎ Stored remap size put_val put_idx u y)
              (pushed tr) t (some x) u
              (λ same e. inr (
                subst (λ m. Stored remap size put_val put_idx m y) same
                  (
                    ap (λ z. z.index) (update_here idx put_cell (plain t)),
                    update_here val put_cell (some x) ∙ e,
                  )))
              (λ _ e. elim (v.put_stays u y e) [
                | inl f ↦ inl f
                | inr (f, g) ↦ inr (other u y f g)
              ]);
        got_bound = λ u y e.
            let (lt, p) = v.got_bound u y e in
            (
              update_elim (λ z. u < z.index) idx put_cell (plain t) (slot remap size u)
                  (λ same. omega (arith, le, subst (λ m. u < (idx m).index) (sym same) lt))
                  (λ _. lt),
              more u y p,
            );
      }
        where
          more : (u y : ℕ) → pushed tr u ≡ some y → update (pushed tr) t (some x) u ≡ some y
          more u y e =
              update_elim (λ z. z ≡ some y) (pushed tr) t (some x) u
                (λ same. absurd (null_some (sym (not_pushed t free le) ∙ ap (pushed tr) same ∙ e)))
                (λ _. e)

          other :
              (u y : ℕ)
              → (idx (slot remap size u)).index ≡ u
              → val (slot remap size u) ≡ some y
              → Stored remap size put_val put_idx u y
          other u y f g =
              update_elim_three (λ a b _. (b.index ≡ u) × (a ≡ some y)) val idx idx put_cell
                (some x) (plain t) (plain t) (slot remap size u)
                (λ same. absurd (null_some (sym free ∙ ap val same ∙ g))) (λ _. (f, g))

    module _ (i x h : ℕ) (w : Word) (found : val (slot remap size h) ≡ some x)
        (same : (idx (slot remap size h)).index ≡ h) (up : h < w.index) where
      abbrev took_cell : ℕ
      took_cell = slot remap size h

      pub take-Cells :
          Cells
            (update val (slot remap size h) none)
            (update idx (slot remap size h) w)
            (pop i x h ∷ tr)
      take-Cells = record {
        holds = λ d y.
            update_elim_three
              (λ a b _. a ≡ some y → (pushed tr b.index ≡ some y) × (slot remap size b.index ≡ d))
              val idx idx took_cell none w w d (λ _ e. absurd (null_some e)) (λ _ e. v.holds d y e);
        put_stays = λ u y e. elim (v.put_stays u y e) [
          | inl f ↦ inl (
              update_elim (λ z. z ≡ some y) (popped tr) h (some x) u
                (λ at. absurd (null_some (sym (not_popped h same) ∙ ap (popped tr) at ∙ f)))
                (λ _. f))
          | inr (f, g) ↦
              update_elim_three
                (λ a b _.
                  (update (popped tr) h (some x) u ≡ some y) ⊎ ((b.index ≡ u) × (a ≡ some y)))
                val idx idx took_cell none w w (slot remap size u)
                (λ at. inl (
                  subst (λ m. update (popped tr) h (some x) m ≡ some y)
                    (sym same ∙ ap (λ m. (idx m).index) at ∙ f)
                    (update_here (popped tr) h (some x) ∙ sym found ∙ ap val at ∙ g)))
                (λ _. inr (f, g))
        ];
        got_bound = λ u y.
            update_elim
              (λ z.
                z ≡ some y
                → (u < (update idx took_cell w (slot remap size u)).index) × (pushed tr u ≡ some y))
              (popped tr) h (some x) u
              (λ at e.
                subst
                  (λ m.
                    (m < (update idx took_cell w (slot remap size m)).index)
                    × (pushed tr m ≡ some y))
                  at
                  (
                    subst (λ z. h < z.index) (sym (update_here idx took_cell w)) up,
                    put_before h x found same ∙ e,
                  ))
              (λ _ e. (later_index u (v.got_bound u y e).0, (v.got_bound u y e).1));
      }
        where
          later_index :
              (u : ℕ)
              → u < (idx (slot remap size u)).index
              → u < (update idx took_cell w (slot remap size u)).index
          later_index u lt =
              update_elim (λ z. u < z.index) idx took_cell w (slot remap size u)
                (λ at. omega (arith, same, up, subst (λ m. u < (idx m).index) (sym at) lt))
                (λ _. lt)
