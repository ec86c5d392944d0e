-- ===== src/PrQueue/Inv.antt =====
-- What holds of the cells of the ring and of the threads that read or reserve one.
use ispass2026_concurrent_qu.Common.{
  ℕ, ◌+◌, ◌*◌, ◌≤◌, ◌≡◌, ◌≢◌, ◌⊎◌, false, indicator, List, [], ◌∷◌, Option, none, some,
}
use ispass2026_concurrent_qu.PrQueue.{
  Word, plain, Val, empty, item, bottom, Pc, enq_val, enq_head, enq_bottom, enq_idx_cas, enq_item,
  deq_val, deq_seen, deq_wait, deq_clear, deq_move, deq_mark, deq_store, Event, push, pop, System,
}
use ispass2026_concurrent_qu.PrQueue.Steps.{slot}

-- The order in which the words of a cell follow each other: by index, unmarked before marked.
abbrev pub code : Word → ℕ
code w = indicator w.marked + 2 * w.index

-- Item `x` was put into the cell of ticket `u`.
abbrev pub Pushed : ℕ → ℕ → List Event → Type 0
Pushed x u [] = ⊥
Pushed x u (push i y t ∷ tr) = ((y ≡ x) × (t ≡ u)) ⊎ Pushed x u tr
Pushed x u (pop i y h ∷ tr) = Pushed x u tr

-- Item `x` was put with a ticket that is `n` or later.
abbrev pub PushedFrom : ℕ → ℕ → List Event → Type 0
PushedFrom x n tr = (u : ℕ) × Pushed x u tr × (n ≤ u)

-- The ticket of an enqueuer that has moved `idx` and will exchange its odd number for the item.
abbrev pub pending : Pc → Option ℕ
pending (enq_item x n t) = some t
pending _ = none

-- The part of the state that the argument is about.
pub record View : Type 0 where
  pub val : ℕ → Val
  pub idx : ℕ → Word
  pub pc : ℕ → Pc
  pub trace : List Event

abbrev pub view : System → View
view s = record { val = s.val; idx = s.idx; pc = s.pc; trace = s.trace }

-- The word was read from the cell.
abbrev pub Low : View → ℕ → Word → Type 0
Low v c w = code w ≤ code (v.idx c)

abbrev pub NoItem : View → ℕ → Type 0
NoItem v c = (x : ℕ) → v.val c ≢ item x

module _ (remap : ℕ → ℕ) (size : ℕ) where
  -- No enqueuer is about to put its item into the cell and can still succeed.
  abbrev pub NoPending : View → ℕ → Type 0
  NoPending v c = (j t : ℕ) → pending (v.pc j) ≡ some t → slot remap size t ≡ c → v.val c ≢ bottom j

  -- As long as the word is the cell's.
  abbrev pub Clear : View → ℕ → Word → Type 0
  Clear v c w = v.idx c ≡ w → NoItem v c × NoPending v c

  abbrev pub Quiet : View → ℕ → Word → Type 0
  Quiet v c w = v.idx c ≡ w → NoPending v c

  abbrev pub Own : View → ℕ → ℕ → Type 0
  Own v i t = v.val (slot remap size t) ≡ bottom i → v.idx (slot remap size t) ≡ plain (t + size)

  -- What a dequeuer knows after it read `idx` and then `val`.
  abbrev pub Seen : View → ℕ → Word → Val → Type 0
  Seen v c w empty = Clear v c w
  Seen v c w (item x) = Quiet v c w × ((u : ℕ) × Pushed x u v.trace × (w.index ≤ u + size))
  Seen v c w (bottom j) = Unit

  -- What the local variables of thread `i` say of the cells.
  abbrev pub Guard : View → ℕ → Pc → Type 0
  Guard v i (enq_val x n t w) = Low v (slot remap size t) w
  Guard v i (enq_head x n t w) = Low v (slot remap size t) w × (w.index ≤ t)
  Guard v i (enq_bottom x n t w) = Low v (slot remap size t) w × (w.index ≤ t)
  Guard v i (enq_idx_cas x n t w) =
      Low v (slot remap size t) w × (w.index ≤ t) × Clear v (slot remap size t) w
  Guard v i (enq_item x n t) = Own v i t
  Guard v i (deq_val h r last w) = Low v (slot remap size h) w
  Guard v i (deq_seen h r last w u) = Low v (slot remap size h) w × Seen v (slot remap size h) w u
  Guard v i (deq_wait h r last w u) =
      Low v (slot remap size h) w × Seen v (slot remap size h) w u × (w.index ≤ h + size)
  Guard v i (deq_clear h r last w j) = Low v (slot remap size h) w × (w.index ≤ h + size)
  Guard v i (deq_move h r last w) =
      Low v (slot remap size h) w × Clear v (slot remap size h) w × (w.index ≤ h + size)
  Guard v i (deq_mark h r last w) =
      Low v (slot remap size h) w × Quiet v (slot remap size h) w × (w.marked ≡ false)
  Guard v i (deq_store h x) = PushedFrom x h v.trace
  Guard v i _ = Unit

  -- The item of a cell was put there by the enqueuer whose ticket the cell's index names.
  abbrev pub Entry : View → ℕ → ℕ → Type 0
  Entry v c x =
      (u : ℕ) × (((v.idx c).index ≡ u + size) × Pushed x u v.trace × (slot remap size u ≡ c))

  pub record Inv (v : View) : Type 0 where
    pub entries : (c x : ℕ) → v.val c ≡ item x → Entry v c x
    pub guards : (j : ℕ) → Guard v j (v.pc j)

  -- A step keeps the invariant, and no cell goes back to an earlier word.
  pub record Next (v v' : View) : Type 0 where
    pub inv : Inv v'
    pub grows : (c : ℕ) → code (v.idx c) ≤ code (v'.idx c)
