-- ===== src/Segment.antt =====
-- `QueueSegmentBase` of include/LinkedRingQueue.hpp: the tickets of a segment, and the bit of `tail`
-- that closes it. Words have 64 bits. A function here is one atomic access, or a test of what was
-- read; an operation of a thread is a list of them.
pub mod Closed
pub mod Cells
mod Tests
use ispass2026_concurrent_qu.Common.{
  ℕ, ◌+◌, ◌-◌, ◌%◌, ◌^◌, ◌≡◌, ◌<◌, bit_and, bit_or, Bool, true, false, not, List, [], ◌∷◌, ltb, leb,
  ◌==◌, if◌then◌else◌,
}

-- `1ull << 63`, and its complement.
abbrev pub closed_bit : ℕ
closed_bit = 2 ^ 63

abbrev pub index_mask : ℕ
index_mask = 2 ^ 63 - 1

unfoldable pub tail_index : ℕ → ℕ
tail_index t = bit_and t index_mask

unfoldable pub is_closed : ℕ → Bool
is_closed t = not (bit_and t closed_bit == 0)

pub record Segment : Type 0 where
  pub head : ℕ
  pub tail : ℕ

-- `tail.fetch_add(1)` and `head.fetch_add(1)`: the ticket is the number before.
unfoldable pub fetch_tail : Segment → ℕ × Segment
fetch_tail s = (s.tail, record s { tail = (s.tail + 1) % 2 ^ 64 })

unfoldable pub fetch_head : Segment → ℕ × Segment
fetch_head s = (s.head, record s { head = (s.head + 1) % 2 ^ 64 })

-- A compare-exchange of `tail`.
unfoldable pub cas_tail : ℕ → ℕ → Segment → Bool × Segment
cas_tail old new s = if s.tail == old then (true, record s { tail = new }) else (false, s)

-- One round of `fixState`, whose loads gave `t`, `h` and `t2`; the result is true if the loop ends.
unfoldable pub fix_round : ℕ → ℕ → ℕ → Segment → Bool × Segment
unfolding cas_tail
fix_round t h t2 s = if t2 == t then (if ltb t h then cas_tail t h s else (true, s)) else (false, s)

unfoldable pub close_segment : ℕ → Bool → Segment → Bool × Segment
unfolding cas_tail
close_segment tailticket false s =
    cas_tail ((tailticket + 1) % 2 ^ 64) (bit_or ((tailticket + 1) % 2 ^ 64) closed_bit) s
close_segment tailticket true s =
    (bit_and s.tail closed_bit == 0, record s { tail = bit_or s.tail closed_bit })

unfoldable pub is_empty : Segment → Bool
unfolding tail_index
is_empty s = leb (tail_index s.tail) s.head

unfoldable pub get_next_segment_start_index : Segment → ℕ
unfolding tail_index
get_next_segment_start_index s = (tail_index s.tail + (2 ^ 64 - 1)) % 2 ^ 64

-- What threads do to a segment.
pub data Access : Type 0 where
  take_tail : Access
  take_head : Access
  fix : (t h t2 : ℕ) → Access
  close : (tailticket : ℕ) (force : Bool) → Access

unfoldable pub access : Access → Segment → Segment
unfolding fetch_tail fetch_head fix_round close_segment
access take_tail s = (fetch_tail s).1
access take_head s = (fetch_head s).1
access (fix t h t2) s = (fix_round t h t2 s).1
access (close tailticket force) s = (close_segment tailticket force s).1

unfoldable pub accesses : List Access → Segment → Segment
unfolding access
accesses [] s = s
accesses (a ∷ more) s = accesses more (access a s)
