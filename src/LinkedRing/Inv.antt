-- ===== src/LinkedRing/Inv.antt =====
-- What holds of the list of segments and of what threads have read.
use ispass2026_concurrent_qu.Common.{
  ℕ, ◌+◌, ◌≤◌, ◌<◌, ◌≡◌, sym, subst, ap, ◌∙◌, ◌⊎◌, inl, inr, List, [], ◌∷◌, Option, none, some,
  arith, In, ℕ_discrete, dec_lt, some_inj, update, update_here, update_there, update_elim,
}
use ispass2026_concurrent_qu.LinkedRing.{
  Pc, idle, enq_load, enq_check, enq_next, enq_help, enq_seg, enq_start, enq_link, enq_tail,
  deq_load, deq_check, deq_seg, deq_next, deq_again, deq_swing, Event, accepted, refused, linked,
  took, missed, left, System,
}

abbrev pub IsLinked : ℕ → List Event → Type 0
IsLinked k tr = (i : ℕ) × (x : ℕ) × In (linked i x k) tr

-- A dequeue of segment `k` found nothing when the segment behind it was linked.
abbrev pub Emptied : ℕ → List Event → Type 0
Emptied k [] = ⊥
Emptied k (missed i a ∷ tr) = ((a ≡ k) × IsLinked (k + 1) tr) ⊎ Emptied k tr
Emptied k (accepted i x a ∷ tr) = Emptied k tr
Emptied k (refused i x a ∷ tr) = Emptied k tr
Emptied k (linked i x a ∷ tr) = Emptied k tr
Emptied k (took i x a ∷ tr) = Emptied k tr
Emptied k (left i a ∷ tr) = Emptied k tr

pub Emptied-more : (e : Event) (k : ℕ) (tr : List Event) → Emptied k tr → Emptied k (e ∷ tr)
Emptied-more (missed i a) k tr h = inr h
Emptied-more (accepted i x a) k tr h = h
Emptied-more (refused i x a) k tr h = h
Emptied-more (linked i x a) k tr h = h
Emptied-more (took i x a) k tr h = h
Emptied-more (left i a) k tr h = h

-- What thread `i` knows of the list from its local variables.
abbrev pub Local : ℕ → ℕ → List Event → ℕ → Pc → Type 0
Local last head tr i (enq_check x a) = a ≤ last
Local last head tr i (enq_next x a) = a ≤ last
Local last head tr i (enq_help x a b) = b ≤ last
Local last head tr i (enq_seg x a) = a ≤ last
Local last head tr i (enq_start x a) = (a ≤ last) × In (refused i x a) tr
Local last head tr i (enq_link x a n) = (a ≤ last) × In (refused i x a) tr
Local last head tr i (enq_tail a b) = b ≤ last
Local last head tr i (deq_check a) = a ≤ head
Local last head tr i (deq_seg a) = a ≤ head
Local last head tr i (deq_next a) = a ≤ head
Local last head tr i (deq_again a b) = (a < last) × (b ≡ a + 1)
Local last head tr i (deq_swing a b) = (a < last) × (b ≡ a + 1) × Emptied a tr
Local last head tr i _ = Unit

pub record Shape (next : ℕ → Option ℕ) (last head tail : ℕ) (tr : List Event) : Type 0 where
  pub head-le : head ≤ last
  pub tail-le : tail ≤ last
  pub links : (k : ℕ) → k < last → next k ≡ some (k + 1)
  pub end_null : next last ≡ none
  pub was_linked : (k : ℕ) → k < last → IsLinked (k + 1) tr
  pub not_linked_yet : (k : ℕ) → last < k → ¬ IsLinked k tr

pub record Inv (s : System) : Type 0 where
  pub shape : Shape s.next s.last s.head s.tail s.trace
  pub local : (j : ℕ) → Local s.last s.head s.trace j (s.pc j)

-- A longer trace.
pub record Longer (tr tr' : List Event) : Type 0 where
  pub still_in : (e : Event) → In e tr → In e tr'
  pub still_empty : (k : ℕ) → Emptied k tr → Emptied k tr'

pub same-Longer : (tr : List Event) → Longer tr tr
same-Longer tr = record { still_in = λ e h. h; still_empty = λ k h. h }

pub more-Longer : (e : Event) (tr : List Event) → Longer tr (e ∷ tr)
more-Longer e tr = record { still_in = λ f h. inr h; still_empty = λ k h. Emptied-more e k tr h }

pub Local-frame :
    {last last' head head' : ℕ} {tr tr' : List Event}
    → Longer tr tr'
    → last ≤ last'
    → head ≤ head'
    → (i : ℕ) (p : Pc) → Local last head tr i p
    → Local last' head' tr' i p
Local-frame w ll hh i idle l = tt
Local-frame w ll hh i (enq_load x) l = tt
Local-frame w ll hh i (enq_check x a) l = omega (arith, l, ll)
Local-frame w ll hh i (enq_next x a) l = omega (arith, l, ll)
Local-frame w ll hh i (enq_help x a b) l = omega (arith, l, ll)
Local-frame w ll hh i (enq_seg x a) l = omega (arith, l, ll)
Local-frame w ll hh i (enq_start x a) (l, r) = (omega (arith, l, ll), w.still_in (refused i x a) r)
Local-frame w ll hh i (enq_link x a n) (l, r) = (omega (arith, l, ll), w.still_in (refused i x a) r)
Local-frame w ll hh i (enq_tail a b) l = omega (arith, l, ll)
Local-frame w ll hh i deq_load l = tt
Local-frame w ll hh i (deq_check a) l = omega (arith, l, hh)
Local-frame w ll hh i (deq_seg a) l = omega (arith, l, hh)
Local-frame w ll hh i (deq_next a) l = omega (arith, l, hh)
Local-frame w ll hh i (deq_again a b) (lt, e) = (omega (arith, lt, ll), e)
Local-frame w ll hh i (deq_swing a b) (lt, e, h) = (omega (arith, lt, ll), e, w.still_empty a h)

-- The locals after a step of thread `i` to `p`.
pub step-Local :
    {last last' head head' : ℕ} {tr tr' : List Event} (pc : ℕ → Pc)
    → Longer tr tr'
    → last ≤ last'
    → head ≤ head'
    → (i : ℕ) (p : Pc) → ((j : ℕ) → Local last head tr j (pc j))
    → Local last' head' tr' i p
    → (j : ℕ) → Local last' head' tr' j (update pc i p j)
step-Local {last' = last'} {head' = head'} {tr' = tr'} pc w ll hh i p old new j =
    update_elim (Local last' head' tr' j) pc i p j
      (λ e. subst (λ m. Local last' head' tr' m p) e new)
      (λ _. Local-frame w ll hh j (pc j) (old j))

-- An event other than a link keeps the shape, with a head and a tail in the list.
pub event-Shape :
    {next : ℕ → Option ℕ} {last head tail : ℕ} {tr tr' : List Event} (head' tail' : ℕ)
    → Longer tr tr'
    → ((k : ℕ) → IsLinked k tr' → IsLinked k tr)
    → head' ≤ last
    → tail' ≤ last
    → Shape next last head tail tr
    → Shape next last head' tail' tr'
event-Shape head' tail' w back hl tl v = record {
  head-le = hl;
  tail-le = tl;
  links = v.links;
  end_null = v.end_null;
  was_linked =
      λ k lt. let (i, x, h) = v.was_linked k lt in (i, x, w.still_in (linked i x (k + 1)) h);
  not_linked_yet = λ k lt h. v.not_linked_yet k lt (back k h);
}

not_none : {x : ℕ} → ¬ (none ≡ some x)
not_none e = cc

module _ {next : ℕ → Option ℕ} {last head tail : ℕ} {tr : List Event}
    (v : Shape next last head tail tr) where
  pub end_is_last : (a : ℕ) → a ≤ last → next a ≡ none → a ≡ last
  end_is_last a le e = elim (dec_lt a last) [
    | no ge ↦ omega (arith, ge, le)
    | yes lt ↦ absurd (not_none (sym e ∙ v.links a lt))
  ]

  pub next_behind : (a b : ℕ) → a ≤ last → next a ≡ some b → (a < last) × (b ≡ a + 1)
  next_behind a b le e = elim (dec_lt a last) [
    | yes lt ↦ (lt, some_inj (sym e ∙ v.links a lt))
    | no ge ↦
        let at : last ≡ a = omega (arith, ge, le) in
        absurd (not_none (sym v.end_null ∙ ap next at ∙ e))
  ]

  -- A segment is linked behind the last.
  pub link-Shape :
      (i x a : ℕ)
      → a ≡ last
      → Shape
          (update (update next (last + 1) none) a (some (last + 1)))
          (last + 1)
          head
          tail
          (linked i x (last + 1) ∷ tr)
  link-Shape i x a at = record {
    head-le = omega (arith, v.head-le);
    tail-le = omega (arith, v.tail-le);
    links = λ k lt.
        update_elim (λ z. z ≡ some (k + 1)) (update next (last + 1) none) a (some (last + 1)) k
          (λ c. let here : last ≡ k = omega (arith, c, at) in ap (λ m. some (m + 1)) here)
          (λ c.
            update_there next (last + 1) none k (λ d. omega (arith, d, lt))
            ∙ v.links k (omega (arith, c, at, lt)));
    end_null =
        update_there (update next (last + 1) none) a (some (last + 1)) (last + 1)
          (λ c. omega (arith, c, at))
        ∙ update_here next (last + 1) none;
    was_linked = λ k lt. elim (ℕ_discrete k last) [
      | yes e ↦ (i, x, inl (ap (λ m. linked i x (m + 1)) e))
      | no ne ↦ let (j, y, h) = v.was_linked k (omega (arith, ne, lt)) in (j, y, inr h)
    ];
    not_linked_yet = λ k lt (j, y, h). elim h [
      | inl e ↦ omega (arith, lt, number e)
      | inr old ↦ v.not_linked_yet k (omega (arith, lt)) (j, y, old)
    ];
  }
    where
      number : {j y k l : ℕ} → linked j y k ≡ linked i x l → k ≡ l
      number e = cc
