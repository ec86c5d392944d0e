-- ===== src/Remap.antt =====
-- include/CacheRemap.hpp: where a ring index lies in the array, so that neighbours share no line.
pub mod Laws
mod Tests
use ispass2026_concurrent_qu.Common.{
  ℕ, ◌+◌, ◌*◌, ◌/◌, ◌%◌, ◌<◌, ◌≡◌, Bool, ◌&&◌, leb, if◌then◌else◌,
}

-- The template's arguments.
pub record Layout : Type 0 where
  pub size : ℕ
  pub cell_size : ℕ
  pub cache_line_size : ℕ

abbrev pub cells_per_cache_line : Layout → ℕ
cells_per_cache_line l = l.cache_line_size / l.cell_size

abbrev pub num_cache_lines : Layout → ℕ
num_cache_lines l = l.size * l.cell_size / l.cache_line_size

-- The static assertions, and that a cell and a line are not empty.
pub record IsLayout (l : Layout) : Type 0 where
  pub cell_pos : 0 < l.cell_size
  pub line_pos : 0 < l.cache_line_size
  pub whole_cells : l.cache_line_size % l.cell_size ≡ 0
  pub whole_lines : l.size * l.cell_size % l.cache_line_size ≡ 0

-- `CacheRemap::operator[]`
unfoldable pub cache_remap : Layout → ℕ → ℕ
cache_remap l i = i % num_cache_lines l * cells_per_cache_line l + i / num_cache_lines l

-- `IdentityRemap::operator[]`
unfoldable pub identity_remap : ℕ → ℕ
identity_remap i = i

-- `ConditionalCacheRemap`
unfoldable pub conditional_remap : Bool → Layout → ℕ → ℕ
unfolding cache_remap identity_remap
conditional_remap remap l i =
    if remap && leb l.cache_line_size (l.size * l.cell_size)
    then cache_remap l i
    else identity_remap i
