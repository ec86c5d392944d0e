-- ===== src/Segment/Closed.antt =====
-- A closed segment stays closed, and keeps its index when it is closed.
use ispass2026_concurrent_qu.Common.{
  ℕ, suc, ◌+◌, ◌%◌, ◌^◌, ◌<◌, ◌≡◌, refl, sym, ap, ◌∙◌, ◌⊎◌, inl, inr, bit_or, Bool, true, false,
  List, [], ◌∷◌, ltb, ◌==◌, length, All, arith, Bool-cases, ltb→lt, ◌||◌, if◌then◌else◌, ℕ_discrete,
}
use ispass2026_concurrent_qu.Common.TopBit.{
  mask_open, mask_closed, top_open, top_closed, set_open, set_closed,
}
use ispass2026_concurrent_qu.Segment.{
  closed_bit, tail_index, is_closed, Segment, fetch_tail, fetch_head, cas_tail, fix_round,
  close_segment, get_next_segment_start_index, Access, take_tail, take_head, fix, close, access,
  accesses,
}

-- The tail of a segment that has the index `r`, open or closed.
abbrev pub open_at : ℕ → ℕ
open_at r = r

abbrev pub closed_at : ℕ → ℕ
closed_at r = 2 ^ 63 + r

pub tail_index_lem :
    (r : ℕ)
    → r < 2 ^ 63
    → (tail_index (open_at r) ≡ r)
      × (is_closed (open_at r) ≡ false)
      × (tail_index (closed_at r) ≡ r)
      × (is_closed (closed_at r) ≡ true)
unfolding tail_index is_closed
tail_index_lem r h =
    (mask_open 63 r h, rw (top_open 63 r h) refl, mask_closed 63 r h, rw (top_closed 63 r h) refl)

set_closed_bit :
    (t r : ℕ) → r < 2 ^ 63 → (t ≡ open_at r) ⊎ (t ≡ closed_at r) → bit_or t closed_bit ≡ closed_at r
set_closed_bit t r h (inl e) = rw e (set_open 63 r h)
set_closed_bit t r h (inr e) = rw e (set_closed 63 r h)

abbrev pub segment_at : ℕ → ℕ → Segment
segment_at h t = record { head = h; tail = t }

small_word : (n : ℕ) → n < 2 ^ 63 → n % 2 ^ 64 ≡ n
small_word n h = omega (arith, h)

cas_open :
    (h ticket r : ℕ)
    → ticket < 2 ^ 63
    → cas_tail ticket (bit_or ticket closed_bit) (segment_at h (open_at r)) ≡ (
        if ticket == r
        then (true, segment_at h (closed_at r))
        else (false, segment_at h (open_at r)))
unfolding cas_tail
cas_open h ticket r k =
    rw (set_open 63 ticket k)
      (elim (ℕ_discrete ticket r) [ yes e ↦ rw e (ground arith) | no ne ↦ ground (arith, ne) ])

close_open :
    (h ticket r : ℕ) (force : Bool)
    → r < 2 ^ 63
    → ticket + 1 < 2 ^ 63
    → close_segment ticket force (segment_at h (open_at r)) ≡ (
        if force || ((ticket + 1) == r)
        then (true, segment_at h (closed_at r))
        else (false, segment_at h (open_at r)))
unfolding close_segment
close_open h ticket r true lt k = rw (top_open 63 r lt) (rw (set_open 63 r lt) refl)
close_open h ticket r false lt k = rw (small_word (ticket + 1) k) (cas_open h (ticket + 1) r k)

close_closed :
    (h ticket r : ℕ) (force : Bool)
    → r < 2 ^ 63
    → ticket + 1 < 2 ^ 63
    → close_segment ticket force (segment_at h (closed_at r)) ≡ (false, segment_at h (closed_at r))
unfolding close_segment cas_tail
close_closed h ticket r true lt k = rw (top_closed 63 r lt) (rw (set_closed 63 r lt) refl)
close_closed h ticket r false lt k = rw (small_word (ticket + 1) k) (ground (arith, k))

-- `closeSegment` for a tail of index `r`, which is `r` if the segment is open and has the top bit
-- besides if it is closed. On an open segment it sets the bit and returns true if it is forced or the
-- index is the one behind the ticket, and else it changes nothing and returns false; on a closed
-- segment it changes nothing and returns false. The segment after a closed one starts one below its
-- index.
pub close_segment_lem :
    (h ticket r : ℕ) (force : Bool)
    → r < 2 ^ 63
    → ticket + 1 < 2 ^ 63
    → (close_segment ticket force (segment_at h (open_at r)) ≡ (
        if force || ((ticket + 1) == r)
        then (true, segment_at h (closed_at r))
        else (false, segment_at h (open_at r))))
      × (close_segment ticket force (segment_at h (closed_at r))
          ≡ (false, segment_at h (closed_at r)))
      × (is_closed (open_at r) ≡ false)
      × (is_closed (closed_at r) ≡ true)
      × (tail_index (open_at r) ≡ r)
      × (tail_index (closed_at r) ≡ r)
      × (0 < r → get_next_segment_start_index (segment_at h (closed_at r)) + 1 ≡ r)
unfolding get_next_segment_start_index
close_segment_lem h ticket r force lt k =
    let (index, is_open, closed_index, closed) = tail_index_lem r lt in
    (
      close_open h ticket r force lt k,
      close_closed h ticket r force lt k,
      is_open,
      closed,
      index,
      closed_index,
      λ pos. omega (arith, pos, lt, closed_index),
    )

-- The head that a round of `fixState` read is no closed word.
abbrev pub Plain : Access → Type 0
Plain take_tail = Unit
Plain take_head = Unit
Plain (fix t h t2) = h < 2 ^ 63
Plain (close tailticket force) = Unit

abbrev pub IsClosedBelow : ℕ → Segment → Type 0
IsClosedBelow n s = (r : ℕ) × (r + n < 2 ^ 63) × (s.tail ≡ closed_at r)

cas-closed :
    (old new r : ℕ) (s : Segment)
    → (s.tail ≡ old → new ≡ s.tail)
    → s.tail ≡ closed_at r
    → (cas_tail old new s).1.tail ≡ closed_at r
unfolding cas_tail
cas-closed old new r s same e = ground (arith, same)

fix-closed :
    (t h t2 r : ℕ) (s : Segment)
    → h < 2 ^ 63
    → s.tail ≡ closed_at r
    → (fix_round t h t2 s).1.tail ≡ closed_at r
unfolding fix_round
fix-closed t h t2 r s le e = elim (Bool-cases (t2 == t)) [
  | inr off ↦ rw off e
  | inl on ↦ rw on (elim (Bool-cases (ltb t h)) [
    | inr off ↦ rw off e
    | inl below ↦
        rw below
          (cas-closed t h r s (λ same. absurd (omega (arith, ltb→lt t h below, le, e, same))) e)
  ])
]

close-closed :
    (tailticket r : ℕ) (force : Bool) (s : Segment)
    → r < 2 ^ 63
    → s.tail ≡ closed_at r
    → (close_segment tailticket force s).1.tail ≡ closed_at r
unfolding close_segment
close-closed tailticket r true s h e = set_closed_bit s.tail r h (inr e)
close-closed tailticket r false s h e =
    cas-closed ((tailticket + 1) % 2 ^ 64) (bit_or ((tailticket + 1) % 2 ^ 64) closed_bit) r s
      (λ same. ap (λ t. bit_or t closed_bit) (sym same) ∙ set_closed_bit s.tail r h (inr e) ∙ sym e)
      e

access-closed :
    (a : Access) (n : ℕ) (s : Segment)
    → Plain a
    → IsClosedBelow (suc n) s
    → IsClosedBelow n (access a s)
unfolding access fetch_tail fetch_head
access-closed take_tail n s p (r, le, e) = (r + 1, omega (arith, le), omega (arith, le, e))
access-closed take_head n s p (r, le, e) = (r, omega (arith, le), e)
access-closed (fix t h t2) n s p (r, le, e) = (r, omega (arith, le), fix-closed t h t2 r s p e)
access-closed (close tailticket force) n s p (r, le, e) =
    (r, omega (arith, le), close-closed tailticket r force s (omega (arith, le)) e)

-- A closed segment whose tail index leaves room below 2 ^ 63 stays closed whatever threads do to it,
-- as long as every head that a round of `fixState` read is below 2 ^ 63: each ticket that is taken
-- from its tail later on says that the segment is closed.
pub accesses-closed :
    (l : List Access) (s : Segment) (r : ℕ)
    → All Plain l
    → s.tail ≡ closed_at r
    → r + length l < 2 ^ 63
    → is_closed (fetch_tail (accesses l s)).0 ≡ true
unfolding accesses fetch_tail
accesses-closed [] s r p e le = ap is_closed e ∙ (tail_index_lem r (omega (arith, le))).3
accesses-closed (a ∷ l) s r (p, ps) e le =
    let (r', le', e') = access-closed a (length l) s p (r, omega (arith, le), e) in
    accesses-closed l (access a s) r' ps e' le'
