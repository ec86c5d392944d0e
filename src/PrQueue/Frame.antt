-- ===== src/PrQueue/Frame.antt =====
-- What a step of one thread leaves to the others: a step that writes no `idx`, and one that does.
use ispass2026_concurrent_qu.Common.{
  ℕ, ◌+◌, ◌≤◌, ◌<◌, ◌≡◌, ◌≢◌, refl, sym, subst, ap, ◌∙◌, ◌⊎◌, inl, inr, Bool, true, false, List,
  Option, none, some, indicator, arith, update, update_elim,
}
use ispass2026_concurrent_qu.PrQueue.{
  Word, plain, Val, empty, item, bottom, Pc, idle, enq_fetch, enq_idx, enq_val, enq_head,
  enq_bottom, enq_idx_cas, enq_item, enq_reset, enq_full, enq_close, enq_stamp, deq_fetch, deq_idx,
  deq_val, deq_seen, deq_wait, deq_clear, deq_move, deq_again, deq_mark, deq_store, deq_stamp,
  deq_after, fix_tail, fix_head, fix_check, fix_cas, Event,
}
use ispass2026_concurrent_qu.PrQueue.Steps.{slot}
use ispass2026_concurrent_qu.PrQueue.Inv.{
  code, Pushed, pending, View, Low, NoItem, NoPending, Clear, Quiet, Own, Seen, Guard, Entry, Inv,
  Next,
}

indicator_le : (b : Bool) → indicator b ≤ 1
indicator_le true = omega arith
indicator_le false = omega arith

-- An earlier word has no larger index.
pub code_index : (w u : Word) → code w ≤ code u → w.index ≤ u.index
code_index w u le = omega (arith, le, indicator_le w.marked, indicator_le u.marked)

pub index_code : (w u : Word) → w.index < u.index → code w < code u
index_code w u lt = omega (arith, lt, indicator_le w.marked, indicator_le u.marked)

abbrev pub PushedMore : View → View → Type 0
PushedMore v v' = (x u : ℕ) → Pushed x u v.trace → Pushed x u v'.trace

module _ (remap : ℕ → ℕ) (size : ℕ) where
  -- What a step leaves of what was known of the cells.
  pub record Keeps (v v' : View) : Type 0 where
    pub low : (c : ℕ) → code (v.idx c) ≤ code (v'.idx c)
    pub clear : (c : ℕ) (w : Word) → Low v c w → Clear remap size v c w → Clear remap size v' c w
    pub quiet : (c : ℕ) (w : Word) → Low v c w → Quiet remap size v c w → Quiet remap size v' c w
    pub pushed : PushedMore v v'

  module _ {v v' : View} (k : Keeps v v') where
    Low-after : (c : ℕ) (w : Word) → Low v c w → Low v' c w
    Low-after c w l = omega (arith, l, k.low c)

    Seen-frame :
        (c : ℕ) (w : Word) (u : Val)
        → Low v c w
        → Seen remap size v c w u
        → Seen remap size v' c w u
    Seen-frame c w empty l h = k.clear c w l h
    Seen-frame c w (item x) l (q, (u, p, le)) = (k.quiet c w l q, (u, k.pushed x u p, le))
    Seen-frame c w (bottom j) l h = tt

    pub Guard-frame :
        (j : ℕ) (p : Pc)
        → ((t : ℕ) → pending p ≡ some t → Own remap size v j t → Own remap size v' j t)
        → Guard remap size v j p
        → Guard remap size v' j p
    Guard-frame j idle own g = tt
    Guard-frame j (enq_fetch x n) own g = tt
    Guard-frame j (enq_idx x n t) own g = tt
    Guard-frame j (enq_val x n t w) own g = Low-after (slot remap size t) w g
    Guard-frame j (enq_head x n t w) own g = (Low-after (slot remap size t) w g.0, g.1)
    Guard-frame j (enq_bottom x n t w) own g = (Low-after (slot remap size t) w g.0, g.1)
    Guard-frame j (enq_idx_cas x n t w) own (l, le, h) =
        (Low-after (slot remap size t) w l, le, k.clear (slot remap size t) w l h)
    Guard-frame j (enq_item x n t) own g = own t refl g
    Guard-frame j (enq_reset x n t) own g = tt
    Guard-frame j (enq_full x n t) own g = tt
    Guard-frame j (enq_close x n t) own g = tt
    Guard-frame j (enq_stamp x) own g = tt
    Guard-frame j deq_fetch own g = tt
    Guard-frame j (deq_idx h r last) own g = tt
    Guard-frame j (deq_val h r last w) own g = Low-after (slot remap size h) w g
    Guard-frame j (deq_seen h r last w u) own (l, s) =
        (Low-after (slot remap size h) w l, Seen-frame (slot remap size h) w u l s)
    Guard-frame j (deq_wait h r last w u) own (l, s, le) =
        (Low-after (slot remap size h) w l, Seen-frame (slot remap size h) w u l s, le)
    Guard-frame j (deq_clear h r last w i) own (l, le) = (Low-after (slot remap size h) w l, le)
    Guard-frame j (deq_move h r last w) own (l, c, le) =
        (Low-after (slot remap size h) w l, k.clear (slot remap size h) w l c, le)
    Guard-frame j (deq_again h r last w) own g = tt
    Guard-frame j (deq_mark h r last w) own (l, q, e) =
        (Low-after (slot remap size h) w l, k.quiet (slot remap size h) w l q, e)
    Guard-frame j (deq_store h x) own (u, p, le) = (u, k.pushed x u p, le)
    Guard-frame j (deq_stamp x) own g = tt
    Guard-frame j (deq_after h) own g = tt
    Guard-frame j fix_tail own g = tt
    Guard-frame j (fix_head t) own g = tt
    Guard-frame j (fix_check t h) own g = tt
    Guard-frame j (fix_cas t h) own g = tt

  not_both : {o : Option ℕ} {t : ℕ} → o ≡ none → ¬ (o ≡ some t)
  not_both e f = cc

  -- Thread `i` moves to `p`; who is pending after, and is not `i`, was so before.
  pending_before :
      (pc : ℕ → Pc) (i : ℕ) (p : Pc) (j t : ℕ)
      → pending (update pc i p j) ≡ some t
      → ((i ≡ j) × (pending p ≡ some t)) ⊎ (pending (pc j) ≡ some t)
  pending_before pc i p j t =
      update_elim
        (λ q. pending q ≡ some t → ((i ≡ j) × (pending p ≡ some t)) ⊎ (pending (pc j) ≡ some t)) pc
        i p j (λ e h. inl (e, h)) (λ _ h. inr h)

  -- All guards after a step of thread `i`: its own is given, the others are framed.
  pub step-guards :
      {v v' : View} (i : ℕ) (p : Pc)
      → Keeps v v'
      → ((j t : ℕ)
          → i ≢ j
          → pending (v.pc j) ≡ some t
          → Own remap size v j t
          → Own remap size v' j t)
      → ((j : ℕ) → Guard remap size v j (v.pc j))
      → Guard remap size v' i p
      → (j : ℕ) → Guard remap size v' j (update v.pc i p j)
  step-guards {v} {v'} i p k own old new j =
      update_elim (Guard remap size v' j) v.pc i p j
        (λ e. subst (λ m. Guard remap size v' m p) e new)
        (λ ne. Guard-frame k j (v.pc j) (λ t. own j t ne) (old j))

  -- A step that writes no `idx`: an odd number in a cell is the thread's own or was there.
  module _ (v : View) (i : ℕ) (p : Pc) (val' : ℕ → Val) (tr' : List Event) (calm : pending p ≡ none)
      (bottoms : (d j : ℕ) → val' d ≡ bottom j → (v.val d ≡ bottom j) ⊎ (i ≡ j))
      (items : (d y : ℕ)
        → val' d ≡ item y
        → (v.val d ≡ item y)
          ⊎ ((¬ NoPending remap size v d)
              × Entry remap size
                  (record { val = val'; idx = v.idx; pc = update v.pc i p; trace = tr' })
                  d
                  y))
      (more : (x u : ℕ) → Pushed x u v.trace → Pushed x u tr') where
    abbrev written : View
    written = record { val = val'; idx = v.idx; pc = update v.pc i p; trace = tr' }

    calm_after : (d : ℕ) → NoPending remap size v d → NoPending remap size written d
    calm_after d h j t e f g = elim (pending_before v.pc i p j t e) [
      | inl (_, s) ↦ not_both calm s
      | inr s ↦ elim (bottoms d j g) [
        | inl b ↦ h j t s f b
        | inr m ↦
            update_elim (λ q. pending q ≡ some t → i ≡ j → ⊥) v.pc i p j
              (λ _ s' _. not_both calm s') (λ ne _ m'. ne m') e m
      ]
    ]

    pub val-Keeps : Keeps v written
    val-Keeps = record {
      low = λ c. omega arith;
      clear = λ c w l h e. (
        (λ y f. elim (items c y f) [ inl g ↦ (h e).0 y g | inr (bad, _) ↦ bad (h e).1 ]),
        calm_after c (h e).1,
      );
      quiet = λ c w l h e. calm_after c (h e);
      pushed = more;
    }

    pub val-Next : Inv remap size v → Guard remap size written i p → Next remap size v written
    val-Next inv new = record {
      inv = record {
        entries = λ c y f. elim (items c y f) [
          | inl g ↦ let (u, (e, q, r)) = inv.entries c y g in (u, (e, more y u q, r))
          | inr (_, n) ↦ n
        ];
        guards =
            step-guards i p val-Keeps
              (λ j t ne e o b. elim (bottoms (slot remap size t) j b) [
                | inl f ↦ o f
                | inr f ↦ absurd (ne f)
              ])
              inv.guards new;
      };
      grows = λ c. omega arith;
    }

  -- A step that writes `idx`, where no item is pending.
  module _ (v : View) (i : ℕ) (p : Pc) (c : ℕ) (w : Word) (free : NoPending remap size v c)
      (entry : NoItem v c ⊎ (w.index ≡ (v.idx c).index))
      (up : (code (v.idx c) < code w) ⊎ ((w ≡ v.idx c) × (pending p ≡ none)))
      (place : (t : ℕ) → pending p ≡ some t → slot remap size t ≡ c) where
    abbrev moved : View
    moved = record { val = v.val; idx = update v.idx c w; pc = update v.pc i p; trace = v.trace }

    grows_idx : (d : ℕ) → code (v.idx d) ≤ code (update v.idx c w d)
    grows_idx d =
        update_elim (λ u. code (v.idx d) ≤ code u) v.idx c w d
          (λ e.
            subst (λ m. code (v.idx m) ≤ code w) e
              (elim up [
                | inl lt ↦ omega (arith, lt)
                | inr (f, _) ↦ subst (λ u. code (v.idx c) ≤ code u) (sym f) (omega arith)
              ]))
          (λ _. omega arith)

    -- The word is still the cell's only where it was, and nothing is pending there.
    still :
        (d : ℕ) (u : Word)
        → Low v d u
        → update v.idx c w d ≡ u
        → (v.idx d ≡ u) × (c ≡ d → pending p ≡ none)
    still d u =
        update_elim (λ z. Low v d u → z ≡ u → (v.idx d ≡ u) × (c ≡ d → pending p ≡ none)) v.idx c w
          d
          (λ e l f. elim up [
            | inl lt ↦ absurd (
                subst (λ m. code u ≤ code (v.idx m) → ⊥) e
                  (subst (λ z. code z ≤ code (v.idx c) → ⊥) f (λ le. omega (arith, lt, le))) l)
            | inr (g, q) ↦ (ap v.idx (sym e) ∙ sym g ∙ f, λ _. q)
          ])
          (λ ne _ f. (f, λ e. absurd (ne e)))

    still_quiet :
        (d : ℕ)
        → (c ≡ d → pending p ≡ none)
        → NoPending remap size v d
        → NoPending remap size moved d
    still_quiet d q h j t e f = elim (pending_before v.pc i p j t e) [
      | inl (_, s) ↦ absurd (not_both (q (sym (place t s) ∙ f)) s)
      | inr s ↦ h j t s f
    ]

    pub idx-Keeps : Keeps v moved
    idx-Keeps = record {
      low = grows_idx;
      clear = λ d u l h e. let (f, q) = still d u l e in ((h f).0, still_quiet d q (h f).1);
      quiet = λ d u l h e. let (f, q) = still d u l e in still_quiet d q (h f);
      pushed = λ x u q. q;
    }

    pub idx-Next : Inv remap size v → Guard remap size moved i p → Next remap size v moved
    idx-Next inv new = record {
      inv = record {
        entries = λ d y f.
            let (u, (e, q, r)) = inv.entries d y f in
            (
              u,
              (
                update_elim (λ z. z.index ≡ u + size) v.idx c w d
                    (λ same. elim entry [
                      | inl no_item ↦ absurd (no_item y (ap v.val same ∙ f))
                      | inr g ↦ g ∙ ap (λ m. (v.idx m).index) same ∙ e
                    ])
                    (λ _. e),
                q,
                r,
              ),
            );
        guards =
            step-guards i p idx-Keeps
              (λ j t _ e o b.
                update_elim (λ z. z ≡ plain (t + size)) v.idx c w (slot remap size t)
                  (λ same. absurd (free j t e (sym same) (ap v.val same ∙ b))) (λ _. o b))
              inv.guards new;
      };
      grows = grows_idx;
    }
