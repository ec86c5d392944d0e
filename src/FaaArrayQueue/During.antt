-- ===== src/FaaArrayQueue/During.antt =====
-- What a thread inside one call of `dequeue` has seen.
use ispass2026_concurrent_qu.Common.{
  ℕ, ◌+◌, ◌≡◌, refl, sym, subst, ap, ◌∙◌, inl, inr, Option, none, some, Option-cases, update,
  update_elim, update_here, update_there, ℕ_discrete, arith, ◌≤◌,
}
use ispass2026_concurrent_qu.FaaArrayQueue.{
  Pc, put_at, System, idle, enq_load, enq_fetch, enq_full, enq_next, enq_new, enq_help,
  enq_stamp_new, enq_tail, enq_cas, enq_stamp, deq_load, deq_fetch, deq_drained, deq_head, deq_take,
  deq_stamp, deq_marker, deq_check, deq_next, deq_fix,
}
use ispass2026_concurrent_qu.FaaArrayQueue.Steps.{
  Step, Reach, go_to, leave, fetch_enq, fetch_deq, set_enq, cas_tail, cas_head, stamp_enq,
  stamp_deq, link, put, take, spoil, begin_enqueue, load_tail, fetched_slot, fetched_full,
  tail_moved, tail_same, no_next, has_next, linked, not_linked, helped, not_helped, stamped_new,
  swung, not_swung, put_item, put_fails, stamped, begin_dequeue, load_head, claimed, found_drained,
  found_end, found_next, head_swung, head_moved, took, spoiled, took_marker, stamped_taken,
  more_slots, no_more_slots, more_nodes, no_more_nodes, fixed, not_fixed,
}
use ispass2026_concurrent_qu.FaaArrayQueue.Order.{IsClaimed}

-- The thread is inside `dequeue`.
abbrev pub InDequeue : Pc → Type 0
InDequeue deq_load = Unit
InDequeue (deq_fetch a) = Unit
InDequeue (deq_drained a) = Unit
InDequeue (deq_head a c) = Unit
InDequeue (deq_take a c) = Unit
InDequeue (deq_stamp a) = Unit
InDequeue (deq_marker a c) = Unit
InDequeue (deq_check a c) = Unit
InDequeue (deq_next a c d) = Unit
InDequeue (deq_fix a c d) = Unit
InDequeue _ = ⊥

-- Every item that was put into the queue is taken out, or a dequeuer has the ticket to take it.
abbrev pub AllClaimed : System → Type 0
AllClaimed s = (k d x : ℕ) → put_at s.trace k d ≡ some x → IsClaimed s k d x

module _ (remap : ℕ → ℕ) (size : ℕ) where
  -- A run in which thread `i` stays inside one call of `dequeue`.
  pub data During (i : ℕ) (r : System) : System → Type 0 where
    stop : During i r r
    more : {s t : System} → During i r s → Step remap size s t → InDequeue (t.pc i) → During i r t

  -- At some state since the call began, all was claimed, if `next` of node `a` was null there.
  abbrev pub Seen : System → ℕ → ℕ → Type 0
  Seen s i a =
      (r : System) × Reach remap size r
      × InDequeue (r.pc i)
      × During i r s
      × (a ≤ r.last)
      × (r.next a ≡ none → AllClaimed r)

  -- At some state since the call began, all was claimed.
  abbrev pub WasEmpty : System → ℕ → Type 0
  WasEmpty s i =
      (r : System) × Reach remap size r × InDequeue (r.pc i) × During i r s × AllClaimed r

  abbrev pub Past : System → ℕ → Pc → Type 0
  Past s i (deq_next a c t) = Seen s i a
  Past s i (deq_fix a c t) = WasEmpty s i
  Past s i _ = Unit

  -- A linked node stays linked.
  Step-next :
      {s t : System} (a b : ℕ)
      → Step remap size s t
      → a ≤ s.last
      → s.next a ≡ some b
      → (a ≤ t.last) × ((d : ℕ) × (t.next a ≡ some d))
  unfolding go_to leave fetch_enq fetch_deq set_enq cas_tail cas_head stamp_enq stamp_deq link put
      take spoil
  Step-next a b (begin_enqueue j x1 e) le f = (le, (b, f))
  Step-next a b (load_tail j x1 e) le f = (le, (b, f))
  Step-next a b (fetched_slot j x1 a1 e h1) le f = (le, (b, f))
  Step-next a b (fetched_full j x1 a1 e h1) le f = (le, (b, f))
  Step-next a b (tail_moved j x1 a1 e h1) le f = (le, (b, f))
  Step-next a b (tail_same j x1 a1 e h1) le f = (le, (b, f))
  Step-next a b (no_next j x1 a1 e h1) le f = (le, (b, f))
  Step-next a b (has_next j x1 a1 b1 e h1) le f = (le, (b, f))
  Step-next {s} a b (linked j x1 a1 e h1) le f = (
    omega (arith, le),
    (elim (ℕ_discrete a1 a) [
      | yes same ↦ (
        s.last + 1,
        subst
            (λ m.
              update (update s.next (s.last + 1) none) a1 (some (s.last + 1)) m ≡ some (s.last + 1))
            same (update_here (update s.next (s.last + 1) none) a1 (some (s.last + 1))),
      )
      | no ne ↦ (
        b,
        update_there (update s.next (s.last + 1) none) a1 (some (s.last + 1)) a ne
            ∙ update_there s.next (s.last + 1) none a (λ at. omega (arith, at, le))
            ∙ f,
      )
    ]),
  )
  Step-next a b (not_linked j x1 a1 e h1) le f = (le, (b, f))
  Step-next a b (helped j x1 a1 b1 e h1) le f = (le, (b, f))
  Step-next a b (not_helped j x1 a1 b1 e h1) le f = (le, (b, f))
  Step-next a b (stamped_new j x1 a1 b1 t1 e h1) le f = (le, (b, f))
  Step-next a b (swung j a1 b1 e h1) le f = (le, (b, f))
  Step-next a b (not_swung j a1 b1 e h1) le f = (le, (b, f))
  Step-next a b (put_item j x1 a1 c1 e h1) le f = (le, (b, f))
  Step-next a b (put_fails j x1 a1 c1 e h1) le f = (le, (b, f))
  Step-next a b (stamped j x1 t1 e h1) le f = (le, (b, f))
  Step-next a b (begin_dequeue j e) le f = (le, (b, f))
  Step-next a b (load_head j e) le f = (le, (b, f))
  Step-next a b (claimed j a1 e h1) le f = (le, (b, f))
  Step-next a b (found_drained j a1 e h1) le f = (le, (b, f))
  Step-next a b (found_end j a1 e h1) le f = (le, (b, f))
  Step-next a b (found_next j a1 b1 e h1) le f = (le, (b, f))
  Step-next a b (head_swung j a1 b1 e h1) le f = (le, (b, f))
  Step-next a b (head_moved j a1 b1 e h1) le f = (le, (b, f))
  Step-next a b (took j x1 a1 c1 e h1) le f = (le, (b, f))
  Step-next a b (spoiled j a1 c1 e h1) le f = (le, (b, f))
  Step-next a b (took_marker j a1 c1 e h1) le f = (le, (b, f))
  Step-next a b (stamped_taken j x1 t1 e h1) le f = (le, (b, f))
  Step-next a b (more_slots j a1 c1 e h1) le f = (le, (b, f))
  Step-next a b (no_more_slots j a1 c1 e h1) le f = (le, (b, f))
  Step-next a b (more_nodes j a1 c1 t1 b1 e h1) le f = (le, (b, f))
  Step-next a b (no_more_nodes j a1 c1 t1 e h1) le f = (le, (b, f))
  Step-next a b (fixed j a1 c1 t1 e h1) le f = (le, (b, f))
  Step-next a b (not_fixed j a1 c1 t1 e h1) le f = (le, (b, f))

  During-next :
      (i a b : ℕ) {r s : System}
      → During i r s
      → a ≤ r.last
      → r.next a ≡ some b
      → (a ≤ s.last) × ((d : ℕ) × (s.next a ≡ some d))
  During-next i a b stop le f = (le, (b, f))
  During-next i a b (more run st _) le f =
      let (lt, (d, g)) = During-next i a b run le f in Step-next a d st lt g

  not_both : {o : Option ℕ} {d : ℕ} → o ≡ none → ¬ (o ≡ some d)
  not_both e f = cc

  pub was_null :
      {r s : System} (i a : ℕ) → During i r s → a ≤ r.last → s.next a ≡ none → r.next a ≡ none
  was_null {r} i a run le nul = elim (Option-cases (r.next a)) [
    | inl e ↦ e
    | inr (b, e) ↦ absurd (not_both nul (During-next i a b run le e).1.1)
  ]

  -- A step of another thread, or one that does not read `next`.
  kept-Past :
      {s t : System} (i : ℕ) (p : Pc) → Step remap size s t → t.pc i ≡ p → Past s i p → Past t i p
  kept-Past i idle st e h = tt
  kept-Past i (enq_load a) st e h = tt
  kept-Past i (enq_fetch a c) st e h = tt
  kept-Past i (enq_full a c) st e h = tt
  kept-Past i (enq_next a c) st e h = tt
  kept-Past i (enq_new a c) st e h = tt
  kept-Past i (enq_help a c n) st e h = tt
  kept-Past i (enq_stamp_new a c n) st e h = tt
  kept-Past i (enq_tail a c) st e h = tt
  kept-Past i (enq_cas a c n) st e h = tt
  kept-Past i (enq_stamp a) st e h = tt
  kept-Past i deq_load st e h = tt
  kept-Past i (deq_fetch a) st e h = tt
  kept-Past i (deq_drained a) st e h = tt
  kept-Past i (deq_head a c) st e h = tt
  kept-Past i (deq_take a c) st e h = tt
  kept-Past i (deq_stamp a) st e h = tt
  kept-Past i (deq_marker a c) st e h = tt
  kept-Past i (deq_check a c) st e h = tt
  kept-Past i (deq_next a c n) st e (r, reach, inside, run, le, h) =
      (r, reach, inside, more run st (subst InDequeue (sym e) tt), le, h)
  kept-Past i (deq_fix a c n) st e (r, reach, inside, run, h) =
      (r, reach, inside, more run st (subst InDequeue (sym e) tt), h)

  pub step-Past :
      {s t : System} (j : ℕ) (p : Pc)
      → Step remap size s t
      → t.pc ≡ update s.pc j p
      → ((i : ℕ) → Past s i (s.pc i))
      → Past t j p
      → (i : ℕ) → Past t i (t.pc i)
  step-Past {s} {t} j p st e old new i = subst (Past t i) (sym (ap (λ f. f i) e)) (
      update_elim (λ q. update s.pc j p i ≡ q → Past t i q) s.pc j p i
        (λ same _. subst (λ m. Past t m p) same new)
        (λ ne eq. kept-Past i (s.pc i) st (ap (λ f. f i) e ∙ eq) (old i)) refl)
