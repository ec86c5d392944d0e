-- ===== src/Remap/Tests.antt =====
-- The ring of the benchmark's LPRQ: 1024 cells of 16 bytes, lines of 128.
use ispass2026_concurrent_qu.Common.{ℕ, ◌/◌, ◌<◌, ◌≡◌, ◌≢◌, refl, true, arith}
use ispass2026_concurrent_qu.Remap.{Layout, IsLayout, cache_remap, conditional_remap}
use ispass2026_concurrent_qu.Remap.Laws.{cache_remap_separates, conditional_remap_bijective}

abbrev lprq_ring : Layout
lprq_ring = record { size = 1024; cell_size = 16; cache_line_size = 128 }

lprq_ring-IsLayout : IsLayout lprq_ring
lprq_ring-IsLayout = record {
  cell_pos = omega arith;
  line_pos = omega arith;
  whole_cells = refl;
  whole_lines = refl;
}

neighbours : (cache_remap lprq_ring 0 ≡ 0) × (cache_remap lprq_ring 1 ≡ 8)
unfolding cache_remap
neighbours = (refl, refl)

-- Index 127 is in the last line, and 128 in the first.
cache_remap_separates_example : cache_remap lprq_ring 127 / 8 ≢ cache_remap lprq_ring 128 / 8
cache_remap_separates_example =
    cache_remap_separates lprq_ring-IsLayout 127 (omega arith) (omega arith)

conditional_remap_example :
    ((i : ℕ) → i < 1024 → conditional_remap true lprq_ring i < 1024)
    × ((i j : ℕ)
        → i < 1024
        → j < 1024
        → conditional_remap true lprq_ring i ≡ conditional_remap true lprq_ring j
        → i ≡ j)
    × ((j : ℕ) → j < 1024 → (i : ℕ) × (i < 1024) × (conditional_remap true lprq_ring i ≡ j))
conditional_remap_example = conditional_remap_bijective true lprq_ring lprq_ring-IsLayout
