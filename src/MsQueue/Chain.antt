-- ===== src/MsQueue/Chain.antt =====
-- The nodes that were ever linked, in their order, and what each thread's variables say of them.
use ispass2026_concurrent_qu.Common.{
  ℕ, zero, suc, ◌+◌, ◌-◌, ◌≤◌, ◌<◌, ◌≡◌, ◌⊎◌, Bool, true, List, [], ◌∷◌, ◌++◌, Option, none, some,
}
use ispass2026_concurrent_qu.MsQueue.{
  Pointer, MsNode, Pc, idle, enq_load, enq_next, enq_check, enq_link, enq_help, enq_stamp,
  enq_swing, deq_head, deq_tail, deq_next, deq_check, deq_help, deq_read, deq_swing, deq_free,
  Event, pushes, pops,
}

-- Node number `k` is at address `at k`, for k from 0 to `last`; `head` and `tail` point to those
-- numbered `h` and `t`. A node that is not linked yet belongs to its thread.
pub record Ghost : Type 0 where
  pub at : ℕ → ℕ
  pub h : ℕ
  pub t : ℕ
  pub last : ℕ
  pub owner : ℕ → Option ℕ

-- The values of the `n` nodes behind number `k`.
abbrev pub values : (ℕ → MsNode) → (ℕ → ℕ) → ℕ → ℕ → List ℕ
values node at k zero = []
values node at k (suc n) = (node (at (k + 1))).value ∷ values node at (k + 1) n

module _ (g : Ghost) (node : ℕ → MsNode) (i : ℕ) where
  abbrev pub Mine : ℕ → Type 0
  Mine n = (g.owner n ≡ some i) × ((node n).next.ptr ≡ none)

  -- What was read from `next` of node `k`.
  abbrev pub NextOf : ℕ → Option ℕ → Type 0
  NextOf k p = (p ≡ none) ⊎ ((p ≡ some (g.at (k + 1))) × (k + 1 ≤ g.last))

  -- A node and the one behind it.
  abbrev pub Ahead : Option ℕ → Option ℕ → Type 0
  Ahead p q = (k : ℕ) × (p ≡ some (g.at k)) × (q ≡ some (g.at (k + 1))) × (k + 1 ≤ g.last)

  -- A head, and a tail that is not before it.
  abbrev pub Ends : ℕ → Option ℕ → Option ℕ → Type 0
  Ends k p q =
      (k ≤ g.h) × (p ≡ some (g.at k)) × ((m : ℕ) × (k ≤ m) × (m ≤ g.t) × (q ≡ some (g.at m)))

  abbrev pub Local : Pc → Type 0
  Local idle = Unit
  Local (enq_load n) = Mine n
  Local (enq_next n ct) = Mine n × ((k : ℕ) × (k ≤ g.t) × (ct.ptr ≡ some (g.at k)))
  Local (enq_check n ct nx) =
      Mine n × ((k : ℕ) × (k ≤ g.t) × (ct.ptr ≡ some (g.at k)) × NextOf k nx.ptr)
  Local (enq_link n ct nx) =
      Mine n × ((k : ℕ) × (k ≤ g.t) × (ct.ptr ≡ some (g.at k)) × (nx.ptr ≡ none))
  Local (enq_help n ct nx) = Mine n × Ahead ct.ptr nx.ptr
  Local (enq_stamp n ct) = Ahead ct.ptr (some n)
  Local (enq_swing n ct) = Ahead ct.ptr (some n)
  Local (deq_head inv) = Unit
  Local (deq_tail inv ch) = (k : ℕ) × (k ≤ g.h) × (ch.ptr ≡ some (g.at k))
  Local (deq_next inv ch ct) = (k : ℕ) × Ends k ch.ptr ct.ptr
  Local (deq_check inv ch ct nx saw) =
      (k : ℕ) × Ends k ch.ptr ct.ptr × NextOf k nx.ptr × (nx.ptr ≡ none → saw ≡ true)
  Local (deq_help inv ct nx) = Ahead ct.ptr nx.ptr
  Local (deq_read inv ch nx) =
      (k : ℕ) × (k < g.t) × (ch.ptr ≡ some (g.at k)) × (nx.ptr ≡ some (g.at (k + 1)))
  Local (deq_swing inv ch nx v enq_inv enq_lin) =
      (k : ℕ) × (k < g.t)
      × (ch.ptr ≡ some (g.at k))
      × (nx.ptr ≡ some (g.at (k + 1)))
      × (v ≡ (node (g.at (k + 1))).value)
  Local (deq_free ch v) = Unit

pub record Shape (g : Ghost) (node : ℕ → MsNode) (used : ℕ → Bool) (head tail : Pointer)
    (tr : List Event) : Type 0 where
  pub h-le : g.h ≤ g.t
  pub t-le : g.t ≤ g.last
  pub last-le : g.last ≤ g.t + 1
  pub head_at : head.ptr ≡ some (g.at g.h)
  pub tail_at : tail.ptr ≡ some (g.at g.t)
  pub links : (k : ℕ) → k < g.last → (node (g.at k)).next.ptr ≡ some (g.at (k + 1))
  pub end_null : (node (g.at g.last)).next.ptr ≡ none
  pub distinct : (j k : ℕ) → j ≤ g.last → k ≤ g.last → g.at j ≡ g.at k → j ≡ k
  pub linked_used : (k : ℕ) → k ≤ g.last → used (g.at k) ≡ true
  pub linked_free : (k : ℕ) → k ≤ g.last → g.owner (g.at k) ≡ none
  pub owned_used : (a j : ℕ) → g.owner a ≡ some j → used a ≡ true
  pub fifo : pops tr ++ values node g.at g.h (g.last - g.h) ≡ pushes tr

pub record Inv (g : Ghost) (node : ℕ → MsNode) (used : ℕ → Bool) (head tail : Pointer)
    (tr : List Event) (pc : ℕ → Pc) : Type 0 where
  pub shape : Shape g node used head tail tr
  pub local : (j : ℕ) → Local g node j (pc j)
