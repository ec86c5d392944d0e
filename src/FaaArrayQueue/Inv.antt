-- ===== src/FaaArrayQueue/Inv.antt =====
-- What holds of the nodes, of their slots and of the threads that hold a ticket.
use ispass2026_concurrent_qu.Common.{ℕ, ◌+◌, ◌≤◌, ◌<◌, ◌≡◌, ◌≢◌, ◌⊎◌, List, Option, none, some}
use ispass2026_concurrent_qu.FaaArrayQueue.{
  Cell, empty, item, taken, Pc, enq_fetch, enq_full, enq_next, enq_new, enq_help, enq_stamp_new,
  enq_tail, enq_cas, deq_fetch, deq_drained, deq_head, deq_take, deq_marker, deq_check, deq_next,
  deq_fix, Event, put_at, got_at, System,
}

-- A slot against what was put into it and what was taken out.
abbrev pub Fits : Cell → Option ℕ → Option ℕ → Type 0
Fits empty p g = (p ≡ none) × (g ≡ none)
Fits (item x) p g = (p ≡ some x) × (g ≡ none)
Fits taken p g = g ≡ p

-- The ticket of a dequeuer before its exchange with a slot.
abbrev pub ticket : Pc → Option (ℕ × ℕ)
ticket (deq_take a c) = some (a, c)
ticket _ = none

abbrev pub Takes : Pc → ℕ → ℕ → Type 0
Takes p a c = ticket p ≡ some (a, c)

module _ (size : ℕ) where
  -- The list: nodes behind `last` are not linked; all before it are full, all before `head`
  -- drained, and from those behind it nothing is taken yet.
  pub record Shape (last head tail : ℕ) (next : ℕ → Option ℕ) (enqidx deqidx : ℕ → ℕ) : Type 0 where
    pub head-le : head ≤ last
    pub tail-le : tail ≤ last
    pub links : (k : ℕ) → k < last → next k ≡ some (k + 1)
    pub end_null : next last ≡ none
    pub full : (k : ℕ) → k < last → size ≤ enqidx k
    pub drained : (k : ℕ) → k < head → size ≤ deqidx k
    pub untouched : (k : ℕ) → head < k → deqidx k ≡ 0

  -- What the local variables of a thread say of the list.
  abbrev pub Local : ℕ → ℕ → (ℕ → ℕ) → (ℕ → ℕ) → Pc → Type 0
  Local last head enqidx deqidx (enq_fetch x a) = a ≤ last
  Local last head enqidx deqidx (enq_full x a) = (a ≤ last) × (size ≤ enqidx a)
  Local last head enqidx deqidx (enq_next x a) = (a ≤ last) × (size ≤ enqidx a)
  Local last head enqidx deqidx (enq_new x a) = (a ≤ last) × (size ≤ enqidx a)
  Local last head enqidx deqidx (enq_help x a b) = b ≤ last
  Local last head enqidx deqidx (enq_stamp_new x a b) = b ≤ last
  Local last head enqidx deqidx (enq_tail a b) = b ≤ last
  Local last head enqidx deqidx (enq_cas x a c) = (a ≤ last) × (c < size) × (c < enqidx a)
  Local last head enqidx deqidx (deq_fetch a) = a ≤ head
  Local last head enqidx deqidx (deq_drained a) = (a ≤ head) × (size ≤ deqidx a)
  Local last head enqidx deqidx (deq_head a b) =
      (a ≤ head) × (size ≤ deqidx a) × (b ≡ a + 1) × (b ≤ last)
  Local last head enqidx deqidx (deq_take a c) = (a ≤ head) × (c < size)
  Local last head enqidx deqidx (deq_marker a c) = ⊥
  Local last head enqidx deqidx (deq_check a c) = (a ≤ head) × (c < deqidx a)
  Local last head enqidx deqidx (deq_next a c t) = (a ≤ head) × (t ≤ c + 1)
  Local last head enqidx deqidx (deq_fix a c t) = (a ≤ head) × (t ≤ c + 1)
  Local last head enqidx deqidx _ = Unit

  module _ (remap : ℕ → ℕ) where
    -- The slots: each holds what the trace says; a slot whose dequeue ticket is not given out yet
    -- holds no marker, and nothing is put where no enqueue ticket is given out.
    pub record Slots (last : ℕ) (items : ℕ → ℕ → Cell) (enqidx deqidx : ℕ → ℕ) (tr : List Event)
        : Type 0 where
      pub fits :
          (k c : ℕ) → k ≤ last → c < size → Fits (items k (remap c)) (put_at tr k c) (got_at tr k c)
      pub put_bound :
          (k c x : ℕ) → put_at tr k c ≡ some x → (k ≤ last) × (c < size) × (c < enqidx k)
      pub got_put : (k c x : ℕ) → got_at tr k c ≡ some x → put_at tr k c ≡ some x
      pub unclaimed : (k c : ℕ) → k ≤ last → c < size → deqidx k ≤ c → items k (remap c) ≢ taken

    -- The dequeue tickets: each is held by at most one thread, which will find no marker; one that
    -- was given out is held, or its slot is marked.
    pub record Tickets (last : ℕ) (items : ℕ → ℕ → Cell) (deqidx : ℕ → ℕ) (pc : ℕ → Pc)
        : Type 0 where
      pub holder : (i j a c : ℕ) → Takes (pc i) a c → Takes (pc j) a c → i ≡ j
      pub held :
          (i a c : ℕ)
          → Takes (pc i) a c
          → (a ≤ last) × (c < size) × (c < deqidx a) × (items a (remap c) ≢ taken)
      pub served :
          (k c : ℕ)
          → k ≤ last
          → c < size
          → c < deqidx k
          → (items k (remap c) ≡ taken) ⊎ ((j : ℕ) × Takes (pc j) k c)

    pub record Inv (s : System) : Type 0 where
      pub shape : Shape s.last s.head s.tail s.next s.enqidx s.deqidx
      pub slots : Slots s.last s.items s.enqidx s.deqidx s.trace
      pub tickets : Tickets s.last s.items s.deqidx s.pc
      pub local : (j : ℕ) → Local s.last s.head s.enqidx s.deqidx (s.pc j)
