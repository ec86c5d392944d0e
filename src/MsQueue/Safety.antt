-- ===== src/MsQueue/Safety.antt =====
-- What the invariant gives: the order of the values, where the tail is, and an empty queue's answer.
use ispass2026_concurrent_qu.Common.{
  ℕ, zero, suc, ◌+◌, ◌-◌, ◌≡◌, subst, ◌⊎◌, inl, inr, Bool, true, List, [], ◌∷◌, ◌++◌, none, some,
  arith, dec_lt,
}
use ispass2026_concurrent_qu.MsQueue.{Pointer, MsNode, deq_check, Event, pushes, pops, System}
use ispass2026_concurrent_qu.MsQueue.Steps.{Reach}
use ispass2026_concurrent_qu.MsQueue.Chain.{Ghost, values, Local, Shape}
use ispass2026_concurrent_qu.MsQueue.Keep.{InvOf, known}
use ispass2026_concurrent_qu.MsQueue.Invariant.{Reach-Inv}

-- The values behind a node, found by following `next` up to null.
pub data Walk (node : ℕ → MsNode) : ℕ → List ℕ → Type 0 where
  at_end : (a : ℕ) → (node a).next.ptr ≡ none → Walk node a []
  hop :
      (a b : ℕ) (l : List ℕ)
      → (node a).next.ptr ≡ some b
      → Walk node b l
      → Walk node a ((node b).value ∷ l)

module _ {g : Ghost} {node : ℕ → MsNode} {used : ℕ → Bool} {head tail : Pointer} {tr : List Event}
    (sh : Shape g node used head tail tr) where
  values-Walk : (n k : ℕ) → k + n ≡ g.last → Walk node (g.at k) (values node g.at k n)
  values-Walk zero k e =
      at_end (g.at k) (subst (λ m. (node (g.at m)).next.ptr ≡ none) (omega (arith, e)) sh.end_null)
  values-Walk (suc n) k e =
      hop (g.at k) (g.at (k + 1)) (values node g.at (k + 1) n) (sh.links k (omega (arith, e)))
        (values-Walk n (k + 1) (omega (arith, e)))

-- In every reachable state `head` points to a node from which the `next` pointers lead through a
-- list of values to null, and the values that were popped, in the order of their pops, followed by
-- that list, are the values that were pushed, in the order in which they were linked.
pub Reach-Walk :
    {s : System}
    → Reach s
    → (a : ℕ) × (l : List ℕ) × (s.head.ptr ≡ some a)
      × Walk s.node a l
      × (pops s.trace ++ l ≡ pushes s.trace)
Reach-Walk {s} r = go (Reach-Inv r)
  where
    go :
        (g : Ghost) × InvOf g s
        → (a : ℕ) × (l : List ℕ) × (s.head.ptr ≡ some a)
          × Walk s.node a l
          × (pops s.trace ++ l ≡ pushes s.trace)
    go (g, v) = (
      g.at g.h,
      values s.node g.at g.h (g.last - g.h),
      v.shape.head_at,
      values-Walk v.shape (g.last - g.h) g.h (omega (arith, v.shape.h-le, v.shape.t-le)),
      v.shape.fifo,
    )

-- In every reachable state `tail` points to the last node or to the one before it: its `next` is
-- null, or leads to a node whose `next` is null.
pub Reach-tail :
    {s : System}
    → Reach s
    → (a : ℕ) × (s.tail.ptr ≡ some a)
      × (((s.node a).next.ptr ≡ none)
          ⊎ ((b : ℕ) × ((s.node a).next.ptr ≡ some b) × ((s.node b).next.ptr ≡ none)))
Reach-tail {s} r = go (Reach-Inv r)
  where
    go :
        (g : Ghost) × InvOf g s
        → (a : ℕ) × (s.tail.ptr ≡ some a)
          × (((s.node a).next.ptr ≡ none)
              ⊎ ((b : ℕ) × ((s.node a).next.ptr ≡ some b) × ((s.node b).next.ptr ≡ none)))
    go (g, v) = (
      g.at g.t,
      v.shape.tail_at,
      elim (dec_lt g.t g.last) [
        | yes lt ↦ inr (
          g.at (g.t + 1),
          v.shape.links g.t lt,
          subst (λ m. (s.node (g.at m)).next.ptr ≡ none) (omega (arith, lt, v.shape.last-le))
              v.shape.end_null,
        )
        | no ge ↦ inl (
            subst (λ m. (s.node (g.at m)).next.ptr ≡ none) (omega (arith, ge, v.shape.t-le))
              v.shape.end_null)
      ],
    )

-- A null `next` behind the head is read while every value pushed so far was popped.
pub null_next_empty :
    {s : System}
    → Reach s
    → (i inv : ℕ) (ch ct nx : Pointer) (saw_empty : Bool)
    → s.pc i ≡ deq_check inv ch ct nx saw_empty
    → nx.ptr ≡ none
    → saw_empty ≡ true
null_next_empty {s} r i inv ch ct nx saw e nul = go (Reach-Inv r)
  where
    go : (g : Ghost) × InvOf g s → saw ≡ true
    go (g, v) = use_it (known g s v i e)
      where
        use_it : Local g s.node i (deq_check inv ch ct nx saw) → saw ≡ true
        use_it (k, f, n, w) = w nul
