-- ===== src/MsQueue/Link.antt =====
-- The step that links a node behind the last one.
use ispass2026_concurrent_qu.Common.{
  ℕ, suc, ◌+◌, ◌-◌, ◌≤◌, ◌<◌, ◌≡◌, ◌≢◌, refl, subst, ap, ap₂, sym, ◌∙◌, Bool, true, List, [], ◌∷◌,
  ◌++◌, none, some, update, update_elim, update_here, update_there, arith, some_inj, ℕ_discrete,
  append_assoc,
}
use ispass2026_concurrent_qu.MsQueue.{Pointer, MsNode, Event, push, pushes, pops}
use ispass2026_concurrent_qu.MsQueue.Chain.{Ghost, Mine, values, Shape}
use ispass2026_concurrent_qu.MsQueue.Linked.{values-snoc, values_same}
use ispass2026_concurrent_qu.MsQueue.Frame.{Grows, Spares}

-- The chain with node `n` behind it.
abbrev pub linked_ghost : Ghost → ℕ → Ghost
linked_ghost g n = record g {
  at = update g.at (g.last + 1) n;
  last = g.last + 1;
  owner = update g.owner n none;
}

abbrev pub linked_nodes : (ℕ → MsNode) → ℕ → Pointer → ℕ → MsNode
linked_nodes node a p = update node a (record (node a) { next = p })

pub linked-value :
    (node : ℕ → MsNode) (a : ℕ) (p : Pointer) (x : ℕ)
    → (linked_nodes node a p x).value ≡ (node x).value
linked-value node a p x =
    update_elim (λ m. m.value ≡ (node x).value) node a (record (node a) { next = p }) x
      (λ e. ap (λ y. (node y).value) e) (λ _. refl)

pub linked-next :
    (node : ℕ → MsNode) (a : ℕ) (p : Pointer) (x : ℕ)
    → a ≢ x
    → (linked_nodes node a p x).next ≡ (node x).next
linked-next node a p x ne = ap (λ m. m.next) (update_there node a _ x ne)

module _ {g : Ghost} {node : ℕ → MsNode} {used : ℕ → Bool} {head tail : Pointer} {tr : List Event}
    (sh : Shape g node used head tail tr) (i n : ℕ) (p : Pointer) (mine : Mine g node i n)
    (goes : p.ptr ≡ some n) where
  abbrev g' : Ghost
  g' = linked_ghost g n

  abbrev node' : ℕ → MsNode
  node' = linked_nodes node (g.at g.last) p

  outside : (k : ℕ) → k ≤ g.last → n ≢ g.at k
  outside k le e =
      let f : g.owner (g.at k) ≡ none = sh.linked_free k le in
      let o : g.owner n ≡ some i = mine.0 in cc

  at_old : (k : ℕ) → k ≤ g.last → g'.at k ≡ g.at k
  at_old k le = update_there g.at (g.last + 1) n k (omega (arith, le))

  pub at_new : g'.at (g.last + 1) ≡ n
  at_new = update_here g.at (g.last + 1) n

  pub link-Grows : Grows g g' node node'
  link-Grows = record {
    h-le = omega arith;
    t-le = omega arith;
    last-le = omega arith;
    at_same = at_old;
    value_same = λ k _. linked-value node (g.at g.last) p (g.at k);
  }

  pub link-Spares : (j : ℕ) → i ≢ j → Spares g g' node node' j
  link-Spares j ne m (own, nul) =
      (owned, ap (λ q. q.ptr) (linked-next node (g.at g.last) p m last_not) ∙ nul)
    where
      last_not : g.at g.last ≢ m
      last_not e = let f : g.owner (g.at g.last) ≡ none = sh.linked_free g.last (omega arith) in cc

      not_mine : n ≢ m
      not_mine e = ne (some_inj (sym mine.0 ∙ ap g.owner e ∙ own))

      owned : update g.owner n none m ≡ some j
      owned = update_there g.owner n none m not_mine ∙ own

  -- A property of every node of the longer chain.
  at_elim :
      (P : ℕ → Type 0) (k : ℕ)
      → k ≤ g.last + 1
      → (k ≤ g.last → P (g.at k))
      → (k ≡ g.last + 1 → P n)
      → P (g'.at k)
  at_elim P k le old new = elim (ℕ_discrete (g.last + 1) k) [
    | yes e ↦ subst P (sym (ap g'.at (sym e) ∙ at_new)) (new (sym e))
    | no ne ↦ subst P (sym (at_old k (omega (arith, le, ne)))) (old (omega (arith, le, ne)))
  ]

  link_last : (node' (g'.at g.last)).next.ptr ≡ some (g'.at (g.last + 1))
  link_last =
      ap (λ a. (node' a).next.ptr) (at_old g.last (omega arith))
      ∙ ap (λ m. m.next.ptr)
          (update_here node (g.at g.last) (record (node (g.at g.last)) { next = p }))
      ∙ goes
      ∙ ap some (sym at_new)

  links' : (k : ℕ) → k < g.last + 1 → (node' (g'.at k)).next.ptr ≡ some (g'.at (k + 1))
  links' k lt = elim (ℕ_discrete k g.last) [
    | yes e ↦ subst (λ m. (node' (g'.at m)).next.ptr ≡ some (g'.at (m + 1))) (sym e) link_last
    | no ne ↦
        ap (λ a. (node' a).next.ptr) (at_old k (omega (arith, lt)))
        ∙ ap (λ q. q.ptr) (linked-next node (g.at g.last) p (g.at k) (not_last ne))
        ∙ sh.links k (omega (arith, lt, ne))
        ∙ ap some (sym (at_old (k + 1) (omega (arith, lt, ne))))
  ]
    where
      not_last : k ≢ g.last → g.at g.last ≢ g.at k
      not_last ne e = ne (sym (sh.distinct g.last k (omega arith) (omega (arith, lt)) e))

  distinct' : (j k : ℕ) → j ≤ g.last + 1 → k ≤ g.last + 1 → g'.at j ≡ g'.at k → j ≡ k
  distinct' j k lj lk =
      at_elim (λ a. a ≡ g'.at k → j ≡ k) j lj
        (λ le.
          at_elim (λ b. g.at j ≡ b → j ≡ k) k lk (λ le'. sh.distinct j k le le')
            (λ _ e. absurd (outside j le (sym e))))
        (λ e.
          at_elim (λ b. n ≡ b → j ≡ k) k lk (λ le f. absurd (outside k le f)) (λ e' _. e ∙ sym e'))

  free' : (k : ℕ) → k ≤ g.last + 1 → g'.owner (g'.at k) ≡ none
  free' k le =
      at_elim (λ a. g'.owner a ≡ none) k le
        (λ le'. update_there g.owner n none (g.at k) (outside k le') ∙ sh.linked_free k le')
        (λ _. update_here g.owner n none)

  owned' : (a j : ℕ) → g'.owner a ≡ some j → used a ≡ true
  owned' a j =
      update_elim (λ o. o ≡ some j → used a ≡ true) g.owner n none a (λ _ e. absurd cc)
        (λ _ e. sh.owned_used a j e)

  values' : values node' g'.at g.h (g.last - g.h) ≡ values node g.at g.h (g.last - g.h)
  values' =
      values_same node node' g.at g'.at g.last g.h (g.last - g.h) (omega (arith, sh.h-le, sh.t-le))
        (λ j le.
          ap (λ a. (node' a).value) (at_old j le) ∙ linked-value node (g.at g.last) p (g.at j))

  value_new : (node' (g'.at (g.last + 1))).value ≡ (node n).value
  value_new = ap (λ a. (node' a).value) at_new ∙ linked-value node (g.at g.last) p n

  fifo' : pops tr ++ values node' g'.at g.h (g.last + 1 - g.h) ≡ pushes tr ++ (node n).value ∷ []
  fifo' =
      ap (λ m. pops tr ++ values node' g'.at g.h m) longer
      ∙ ap (λ l. pops tr ++ l) (values-snoc node' g'.at g.h (g.last - g.h))
      ∙ ap (λ m. pops tr ++ (values node' g'.at g.h (g.last - g.h) ++ (node' (g'.at m)).value ∷ []))
          end
      ∙ ap₂ (λ l v. pops tr ++ (l ++ v ∷ [])) values' value_new
      ∙ sym (append_assoc (pops tr) (values node g.at g.h (g.last - g.h)) ((node n).value ∷ []))
      ∙ ap (λ l. l ++ (node n).value ∷ []) sh.fifo
    where
      longer : g.last + 1 - g.h ≡ suc (g.last - g.h)
      longer = omega (arith, sh.h-le, sh.t-le)

      end : g.h + (g.last - g.h) + 1 ≡ g.last + 1
      end = omega (arith, sh.h-le, sh.t-le)

  -- If `tail` was at the last node, the chain is as it should be.
  pub link-Shape :
      (j : ℕ) → g.t ≡ g.last → Shape g' node' used head tail (push j (node n).value ∷ tr)
  link-Shape j e = record {
    h-le = sh.h-le;
    t-le = omega (arith, e);
    last-le = omega (arith, e);
    head_at = sh.head_at ∙ ap some (sym (at_old g.h (omega (arith, sh.h-le, sh.t-le))));
    tail_at = sh.tail_at ∙ ap some (sym (at_old g.t sh.t-le));
    links = links';
    end_null =
        ap (λ a. (node' a).next.ptr) at_new
        ∙ ap (λ q. q.ptr)
            (linked-next node (g.at g.last) p n (λ f. outside g.last (omega arith) (sym f)))
        ∙ mine.1;
    distinct = distinct';
    linked_used = λ k le.
        at_elim (λ a. used a ≡ true) k le (sh.linked_used k) (λ _. sh.owned_used n i mine.0);
    linked_free = free';
    owned_used = owned';
    fifo = fifo';
  }
