-- ===== src/FlatCombining/System/Local.antt =====
-- What holds of one thread: its slot against where it stands, against its calls and its events.
use ispass2026_concurrent_qu.Common.{
  ℕ, ◌+◌, ◌≤◌, ◌<◌, ◌≡◌, ◌≢◌, refl, sym, ◌∙◌, ap, ◌⊎◌, inl, Bool, true, false, List, [], ◌∷◌, ◌++◌,
  Option, none, some, ◌==◌, if◌then◌else◌, arith,
}
use ispass2026_concurrent_qu.FlatCombining.Slot.{Opcode, FcNode, Operation, serve_opcode, serve}
use ispass2026_concurrent_qu.FlatCombining.System.{
  Mode, enq, deq, Pc, idle, waiting, checking, scanning, finishing, Event, push, pop, event_of,
  serve_event,
}

-- The events of thread `i`.
abbrev pub events_of : ℕ → List Event → ℕ
events_of i [] = 0
events_of i (push j n ∷ tr) = (if j == i then 1 else 0) + events_of i tr
events_of i (pop j r ∷ tr) = (if j == i then 1 else 0) + events_of i tr

abbrev pub value_of : Option FcNode → Option ℕ
value_of none = none
value_of (some n) = some n.value

-- What the last pop of thread `i` found.
abbrev pub answer : ℕ → List Event → Option ℕ
answer i [] = none
answer i (push j n ∷ tr) = answer i tr
answer i (pop j r ∷ tr) = if j == i then value_of r else answer i tr

-- A request that is published and not yet served.
abbrev pub pending : Opcode → ℕ
pending Opcode.done = 0
pending Opcode.enqueue = 1
pending Opcode.dequeue = 1

abbrev pub request : Mode → Opcode
request enq = Opcode.enqueue
request deq = Opcode.dequeue

abbrev Asks : ℕ → ℕ → Mode → Opcode → Type 0
Asks n i m o = (i < n) × ((o ≡ Opcode.done) ⊎ (o ≡ request m))

-- The opcode of thread `i` of `n`, by where the thread stands.
abbrev pub Fits : ℕ → ℕ → Pc → Opcode → Type 0
Fits n i idle o = o ≡ Opcode.done
Fits n i (waiting m) o = Asks n i m o
Fits n i (checking m) o = Asks n i m o
Fits n i (scanning m j) o = Asks n i m o × (i < j → o ≡ Opcode.done) × (j ≤ n)
Fits n i finishing o = (i < n) × (o ≡ Opcode.done)

abbrev pub in_dequeue : Pc → Bool
in_dequeue idle = false
in_dequeue (waiting enq) = false
in_dequeue (waiting deq) = true
in_dequeue (checking enq) = false
in_dequeue (checking deq) = true
in_dequeue (scanning enq j) = false
in_dequeue (scanning deq j) = true
in_dequeue finishing = true

-- What a dequeue would return from the slot.
abbrev pub result : Operation → Option ℕ
result slot = if slot.success then some slot.node.value else none

pub record Local (n i : ℕ) (p : Pc) (slot : Operation) (tr : List Event) (calls : ℕ) : Type 0 where
  pub fits : Fits n i p slot.opcode
  pub once : calls ≡ events_of i tr + pending slot.opcode
  pub answered : in_dequeue p ≡ true → slot.opcode ≡ Opcode.done → result slot ≡ answer i tr

serve_opcode-done :
    (o : Opcode) (t : ℕ) (slot : Operation) (q : List FcNode)
    → slot.opcode ≡ o
    → (serve_opcode o t slot q).0.opcode ≡ Opcode.done
unfolding serve_opcode
serve_opcode-done Opcode.done t slot q e = e
serve_opcode-done Opcode.enqueue t slot q e = refl
serve_opcode-done Opcode.dequeue t slot [] e = refl
serve_opcode-done Opcode.dequeue t slot (n ∷ q) e = refl

-- A served slot is free.
pub serve-done :
    (t : ℕ) (slot : Operation) (q : List FcNode) → (serve t slot q).0.opcode ≡ Opcode.done
unfolding serve
serve-done t slot q = serve_opcode-done slot.opcode t slot q refl

serve_opcode-once :
    (o : Opcode) (i t : ℕ) (slot : Operation) (q : List FcNode) (tr : List Event)
    → events_of i (event_of o i t slot q ++ tr) ≡ events_of i tr + pending o
unfolding event_of
serve_opcode-once Opcode.done i t slot q tr = omega arith
serve_opcode-once Opcode.enqueue i t slot q tr = ground arith
serve_opcode-once Opcode.dequeue i t slot [] tr = ground arith
serve_opcode-once Opcode.dequeue i t slot (n ∷ q) tr = ground arith

serve_opcode-answer :
    (o : Opcode) (i t : ℕ) (slot : Operation) (q : List FcNode) (tr : List Event)
    → o ≢ Opcode.enqueue
    → (o ≡ Opcode.done → result slot ≡ answer i tr)
    → result (serve_opcode o t slot q).0 ≡ answer i (event_of o i t slot q ++ tr)
unfolding serve_opcode event_of
serve_opcode-answer Opcode.done i t slot q tr ne h = h refl
serve_opcode-answer Opcode.enqueue i t slot q tr ne h = absurd (ne refl)
serve_opcode-answer Opcode.dequeue i t slot [] tr ne h = ground arith
serve_opcode-answer Opcode.dequeue i t slot (n ∷ q) tr ne h = ground arith

not_enqueue :
    (n i : ℕ) (p : Pc) (o : Opcode) → in_dequeue p ≡ true → Fits n i p o → o ≢ Opcode.enqueue
not_enqueue n i idle o d f = cc
not_enqueue n i (waiting enq) o d f = cc
not_enqueue n i (waiting deq) o d f = ground arith
not_enqueue n i (checking enq) o d f = cc
not_enqueue n i (checking deq) o d f = ground arith
not_enqueue n i (scanning enq j) o d f = cc
not_enqueue n i (scanning deq j) o d f = ground arith
not_enqueue n i finishing o d f = ground arith

Fits-done : (n i : ℕ) (p : Pc) (o o' : Opcode) → Fits n i p o → o' ≡ Opcode.done → Fits n i p o'
Fits-done n i idle o o' f e = e
Fits-done n i (waiting m) o o' f e = (f.0, inl e)
Fits-done n i (checking m) o o' f e = (f.0, inl e)
Fits-done n i (scanning m j) o o' f e = ((f.0.0, inl e), λ h. e, f.2)
Fits-done n i finishing o o' f e = (f.0, e)

-- Being served keeps what holds of a thread.
pub serve-Local :
    {n i : ℕ} {p : Pc} {slot : Operation} {tr : List Event} {calls : ℕ} (t : ℕ) (q : List FcNode)
    → Local n i p slot tr calls
    → Local n i p (serve t slot q).0 (serve_event i t slot q ++ tr) calls
unfolding serve serve_event
serve-Local {n} {i} {p} {slot} {tr} t q h = record {
  fits = Fits-done n i p slot.opcode _ h.fits free;
  once =
      h.once ∙ sym (serve_opcode-once slot.opcode i t slot q tr) ∙ omega (arith, ap pending free);
  answered = λ d e.
      serve_opcode-answer slot.opcode i t slot q tr (not_enqueue n i p slot.opcode d h.fits)
        (h.answered d);
}
  where
    free : (serve_opcode slot.opcode t slot q).0.opcode ≡ Opcode.done
    free = serve_opcode-done slot.opcode t slot q refl

event-other :
    (o : Opcode) (i j t : ℕ) (slot : Operation) (q : List FcNode) (tr : List Event)
    → j ≢ i
    → (events_of i (event_of o j t slot q ++ tr) ≡ events_of i tr)
      × (answer i (event_of o j t slot q ++ tr) ≡ answer i tr)
unfolding event_of
event-other Opcode.done i j t slot q tr ne = (refl, refl)
event-other Opcode.enqueue i j t slot q tr ne = (ground arith, refl)
event-other Opcode.dequeue i j t slot [] tr ne = (ground arith, ground arith)
event-other Opcode.dequeue i j t slot (n ∷ q) tr ne = (ground arith, ground arith)

-- So does the service of another slot.
pub other-Local :
    {n i : ℕ} {p : Pc} {slot : Operation} {tr : List Event} {calls : ℕ} (j t : ℕ)
    (slot' : Operation) (q : List FcNode)
    → j ≢ i
    → Local n i p slot tr calls
    → Local n i p slot (serve_event j t slot' q ++ tr) calls
unfolding serve_event
other-Local {i} {tr} j t slot' q ne h = record {
  fits = h.fits;
  once = omega (arith, h.once, (event-other slot'.opcode i j t slot' q tr ne).0);
  answered = λ d e. h.answered d e ∙ sym (event-other slot'.opcode i j t slot' q tr ne).1;
}
