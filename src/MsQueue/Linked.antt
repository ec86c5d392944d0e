-- ===== src/MsQueue/Linked.antt =====
-- What a step does to the chain: the tail advances, the head advances, a node is linked, or nodes
-- outside of the chain change.
use ispass2026_concurrent_qu.Common.{
  ℕ, zero, suc, ◌+◌, ◌-◌, ◌≤◌, ◌<◌, ◌≡◌, refl, subst, ap, ap₂, sym, ◌∙◌, inl, inr, Bool, true, List,
  [], ◌∷◌, ◌++◌, Option, none, some, arith, some_inj, dec_lt, append_assoc,
}
use ispass2026_concurrent_qu.MsQueue.{Pointer, counted, MsNode, Event, pop, pops}
use ispass2026_concurrent_qu.MsQueue.Chain.{Ghost, values, NextOf, Ahead, Shape}

pub values-snoc :
    (node : ℕ → MsNode) (at : ℕ → ℕ) (k n : ℕ)
    → values node at k (suc n) ≡ values node at k n ++ (node (at (k + n + 1))).value ∷ []
values-snoc node at k zero = ap (λ m. (node (at m)).value ∷ []) (arith_zero k)
  where
    arith_zero : (k : ℕ) → k + 1 ≡ k + zero + 1
    arith_zero k = omega arith
values-snoc node at k (suc n) =
    ap (λ l. (node (at (k + 1))).value ∷ l)
      (values-snoc node at (k + 1) n
        ∙ ap (λ m. values node at (k + 1) n ++ (node (at m)).value ∷ []) (arith_suc k n))
  where
    arith_suc : (k n : ℕ) → k + 1 + n + 1 ≡ k + suc n + 1
    arith_suc k n = omega arith

-- Chains that agree up to `last` have the same values.
pub values_same :
    (node node' : ℕ → MsNode) (at at' : ℕ → ℕ) (last k n : ℕ)
    → k + n ≤ last
    → ((j : ℕ) → j ≤ last → (node' (at' j)).value ≡ (node (at j)).value)
    → values node' at' k n ≡ values node at k n
values_same node node' at at' last k zero le same = refl
values_same node node' at at' last k (suc n) le same =
    ap₂ (λ v l. v ∷ l) (same (k + 1) (omega arith))
      (values_same node node' at at' last (k + 1) n (omega arith) same)

module _ {g : Ghost} {node : ℕ → MsNode} {used : ℕ → Bool} {head tail : Pointer} {tr : List Event}
    (sh : Shape g node used head tail tr) where
  -- What `next` of a linked node says.
  pub next_of : (i k : ℕ) → k ≤ g.last → NextOf g node i k (node (g.at k)).next.ptr
  next_of i k le = elim (dec_lt k g.last) [
    | yes lt ↦ inr (sh.links k lt, omega (arith, lt))
    | no ge ↦ inl (subst (λ m. (node (g.at m)).next.ptr ≡ none) (omega (arith, le, ge)) sh.end_null)
  ]

  -- A linked node without a next is the last.
  pub null_is_last : (k : ℕ) → k ≤ g.last → (node (g.at k)).next.ptr ≡ none → k ≡ g.last
  null_is_last k le e = elim (dec_lt k g.last) [
    | yes lt ↦ let f : (node (g.at k)).next.ptr ≡ some (g.at (k + 1)) = sh.links k lt in cc
    | no ge ↦ omega (arith, le, ge)
  ]

  pub same_number :
      (j k : ℕ) {p : Option ℕ}
      → j ≤ g.last
      → k ≤ g.last
      → p ≡ some (g.at j)
      → p ≡ some (g.at k)
      → j ≡ k
  same_number j k lj lk e f = sh.distinct j k lj lk (some_inj (sym e ∙ f))

  -- `tail` moves to the next node.
  pub tail_moved-Shape :
      (q : Option ℕ) (c : Pointer) (i : ℕ)
      → Ahead g node i tail.ptr q
      → Shape (record g { t = g.t + 1 }) node used head (counted q c) tr
  tail_moved-Shape q c i (k, e, f, le) =
      let k_t : k ≡ g.t = same_number k g.t (omega (arith, le)) sh.t-le e sh.tail_at in
      record {
        h-le = omega (arith, sh.h-le);
        t-le = omega (arith, le, k_t);
        last-le = omega (arith, sh.last-le);
        head_at = sh.head_at;
        tail_at = subst (λ m. q ≡ some (g.at (m + 1))) k_t f;
        links = sh.links;
        end_null = sh.end_null;
        distinct = sh.distinct;
        linked_used = sh.linked_used;
        linked_free = sh.linked_free;
        owned_used = sh.owned_used;
        fifo = sh.fifo;
      }

  -- `head` moves to the next node, and its value is popped.
  pub head_moved-Shape :
      (c : Pointer) (i v : ℕ) (q : Option ℕ)
      → g.h < g.t
      → q ≡ some (g.at (g.h + 1))
      → v ≡ (node (g.at (g.h + 1))).value
      → Shape (record g { h = g.h + 1 }) node used (counted q c) tail (pop i v ∷ tr)
  head_moved-Shape c i v q lt e val = record {
    h-le = omega (arith, lt);
    t-le = sh.t-le;
    last-le = sh.last-le;
    head_at = e;
    tail_at = sh.tail_at;
    links = sh.links;
    end_null = sh.end_null;
    distinct = sh.distinct;
    linked_used = sh.linked_used;
    linked_free = sh.linked_free;
    owned_used = sh.owned_used;
    fifo =
        append_assoc (pops tr) (v ∷ []) (values node g.at (g.h + 1) (g.last - (g.h + 1)))
        ∙ ap (λ x. pops tr ++ x ∷ values node g.at (g.h + 1) (g.last - (g.h + 1))) val
        ∙ ap (λ n. pops tr ++ values node g.at g.h n) left
        ∙ sh.fifo;
  }
    where
      left : suc (g.last - (g.h + 1)) ≡ g.last - g.h
      left = omega (arith, lt, sh.t-le)

  -- Nodes outside of the chain change, or what is not kept in it; others get owners.
  pub outside-Shape :
      (node' : ℕ → MsNode) (used' : ℕ → Bool) (owner' : ℕ → Option ℕ)
      → ((k : ℕ) → k ≤ g.last → (node' (g.at k)).next.ptr ≡ (node (g.at k)).next.ptr)
      → ((k : ℕ) → k ≤ g.last → (node' (g.at k)).value ≡ (node (g.at k)).value)
      → ((k : ℕ) → k ≤ g.last → used' (g.at k) ≡ true)
      → ((k : ℕ) → k ≤ g.last → owner' (g.at k) ≡ none)
      → ((a j : ℕ) → owner' a ≡ some j → used' a ≡ true)
      → Shape (record g { owner = owner' }) node' used' head tail tr
  outside-Shape node' used' owner' next_same val_same us free own = record {
    h-le = sh.h-le;
    t-le = sh.t-le;
    last-le = sh.last-le;
    head_at = sh.head_at;
    tail_at = sh.tail_at;
    links = λ k lt. next_same k (omega (arith, lt)) ∙ sh.links k lt;
    end_null = next_same g.last (omega arith) ∙ sh.end_null;
    distinct = sh.distinct;
    linked_used = us;
    linked_free = free;
    owned_used = own;
    fifo =
        ap (λ l. pops tr ++ l)
          (values_same node node' g.at g.at g.last g.h (g.last - g.h)
            (omega (arith, sh.h-le, sh.t-le)) val_same)
        ∙ sh.fifo;
  }
