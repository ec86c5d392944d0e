-- ===== src/Segment/Tests.antt =====
-- A segment of two tickets: its closing, and what comes after.
use ispass2026_concurrent_qu.Common.{
  ◌%◌, ◌+◌, ◌<◌, ◌≡◌, refl, true, false, ◌||◌, ◌==◌, if◌then◌else◌, List, [], ◌∷◌, arith,
}
use ispass2026_concurrent_qu.Remap.{Layout, IsLayout, conditional_remap}
use ispass2026_concurrent_qu.Segment.Cells.{
  node_index, set_unsafe, node_unsafe, set_unsafe_lem, init_cells, init_cells_lem,
}
use ispass2026_concurrent_qu.Segment.{
  closed_bit, tail_index, is_closed, Segment, fetch_tail, close_segment,
  get_next_segment_start_index, Access, take_tail, take_head, fix, close, accesses,
}
use ispass2026_concurrent_qu.Segment.Closed.{
  closed_at, segment_at, close_segment_lem, accesses-closed,
}

abbrev two_tickets : Segment
two_tickets = record { head = 1; tail = 2 }

abbrev closed_two : Segment
closed_two = record { head = 1; tail = closed_at 2 }

abbrev sample_accesses : List Access
sample_accesses = take_tail ∷ fix 1 7 1 ∷ close 2 true ∷ take_head ∷ []

close_two : close_segment 1 true two_tickets ≡ (true, closed_two)
unfolding close_segment
close_two = refl

close_segment_example :
    (close_segment 1 false (segment_at 1 2)
      ≡ (if false || (2 == 2) then (true, segment_at 1 (closed_at 2)) else (false, segment_at 1 2)))
    × (close_segment 1 false (segment_at 1 (closed_at 2)) ≡ (false, segment_at 1 (closed_at 2)))
    × (is_closed 2 ≡ false)
    × (is_closed (closed_at 2) ≡ true)
    × (tail_index 2 ≡ 2)
    × (tail_index (closed_at 2) ≡ 2)
    × (0 < 2 → get_next_segment_start_index (segment_at 1 (closed_at 2)) + 1 ≡ 2)
close_segment_example = close_segment_lem 1 1 2 false (omega arith) (omega arith)

accesses-closed_example : is_closed (fetch_tail (accesses sample_accesses closed_two)).0 ≡ true
accesses-closed_example =
    accesses-closed sample_accesses closed_two 2 (tt, (omega arith, (tt, (tt, tt)))) refl
      (omega arith)

abbrev ring : Layout
ring = record { size = 1024; cell_size = 16; cache_line_size = 128 }

ring-IsLayout : IsLayout ring
ring-IsLayout = record {
  cell_pos = omega arith;
  line_pos = omega arith;
  whole_cells = refl;
  whole_lines = refl;
}

set_unsafe_example :
    (node_index (set_unsafe 5) ≡ node_index 5)
    × (node_unsafe 5 ≡ 0)
    × (node_unsafe (set_unsafe 5) ≡ closed_bit)
    × (set_unsafe (set_unsafe 5) ≡ set_unsafe 5)
set_unsafe_example = set_unsafe_lem 5 (omega arith)

init_cells_example :
    init_cells true ring 1000 (λ c. 0) (conditional_remap true ring (1100 % 1024)) ≡ 1100
init_cells_example =
    init_cells_lem true ring 1000 1100 (λ c. 0) ring-IsLayout (omega arith) (omega arith)
      (omega arith)
