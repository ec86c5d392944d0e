-- ===== src/Segment/Cells.antt =====
-- The cells of `PRQueue` in include/LPRQueue.hpp: the words of a cell, and the constructor.
use ispass2026_concurrent_qu.Common.{
  ℕ, zero, suc, ◌+◌, ◌*◌, ◌/◌, ◌%◌, ◌^◌, ◌≤◌, ◌<◌, ◌≡◌, ◌≢◌, refl, sym, subst, ap, ◌∙◌, bit_and,
  bit_or, Bool, update, update_here, update_there, arith, dec_lt, ℕ_discrete,
}
use ispass2026_concurrent_qu.Segment.{closed_bit, index_mask}
use ispass2026_concurrent_qu.Common.TopBit.{
  mask_open, mask_closed, top_open, top_closed, set_open, set_closed,
}
use ispass2026_concurrent_qu.Remap.{Layout, IsLayout, conditional_remap}
use ispass2026_concurrent_qu.Remap.Laws.{conditional_remap_bijective}
use native.Mathlib.Nat.{div-add-mod, mod-lt, mul-le-mul_left}

unfoldable pub node_index : ℕ → ℕ
node_index i = bit_and i index_mask

unfoldable pub set_unsafe : ℕ → ℕ
set_unsafe i = bit_or i closed_bit

unfoldable pub node_unsafe : ℕ → ℕ
node_unsafe i = bit_and i closed_bit

-- The loop of the constructor: `n` cells are left from ticket `i` on.
unfoldable pub init_from : (ℕ → ℕ) → ℕ → ℕ → ℕ → (ℕ → ℕ) → ℕ → ℕ
init_from remap ring_size i zero idx = idx
init_from remap ring_size i (suc n) idx =
    init_from remap ring_size (i + 1) n (update idx (remap (i % ring_size)) i)

-- The `idx` fields after `PRQueue(start)`, for a start whose first round does not wrap.
unfoldable pub init_cells : Bool → Layout → ℕ → (ℕ → ℕ) → ℕ → ℕ
unfolding init_from conditional_remap
init_cells cache_remap l start idx =
    init_from (conditional_remap cache_remap l) l.size start l.size idx

-- Marking a cell unsafe keeps its index, sets its mark, and does nothing to a marked cell.
pub set_unsafe_lem :
    (i : ℕ)
    → i < 2 ^ 63
    → (node_index (set_unsafe i) ≡ node_index i)
      × (node_unsafe i ≡ 0)
      × (node_unsafe (set_unsafe i) ≡ closed_bit)
      × (set_unsafe (set_unsafe i) ≡ set_unsafe i)
unfolding node_index set_unsafe node_unsafe
set_unsafe_lem i h = (
  ap (λ x. bit_and x index_mask) (set_open 63 i h) ∙ mask_closed 63 i h ∙ sym (mask_open 63 i h),
  top_open 63 i h,
  ap (λ x. bit_and x closed_bit) (set_open 63 i h) ∙ top_closed 63 i h,
  ap (λ x. bit_or x closed_bit) (set_open 63 i h) ∙ set_closed 63 i h ∙ sym (set_open 63 i h),
)

-- Numbers less than `m` apart differ modulo `m`.
mod-apart : (m i j : ℕ) → 0 < m → i < j → j < i + m → i % m ≢ j % m
mod-apart m i j pos lt near e = elim (dec_lt (i / m) (j / m)) [
  | yes up ↦
      absurd (
        omega
          (arith, div-add-mod i m, div-add-mod j m, mul-le-mul_left m (next up), step m (i / m)))
  | no down ↦ absurd (omega (arith, div-add-mod i m, div-add-mod j m, mul-le-mul_left m (le down)))
]
  where
    step : (a b : ℕ) → a * (b + 1) ≡ a * b + a
    step a b = omega arith

    next : i / m < j / m → i / m + 1 ≤ j / m
    next up = omega (arith, up)

    le : ¬ (i / m < j / m) → j / m ≤ i / m
    le down = omega (arith, down)

module _ (remap : ℕ → ℕ) (m : ℕ) (pos : 0 < m)
    (injective : (a b : ℕ) → a < m → b < m → remap a ≡ remap b → a ≡ b) where
  apart : (i j : ℕ) → i < j → j < i + m → remap (j % m) ≢ remap (i % m)
  apart i j lt near e =
      mod-apart m i j pos lt near (sym (injective (j % m) (i % m) (mod-lt j pos) (mod-lt i pos) e))

  -- Cells of tickets before `i` are left alone.
  init_from-before :
      (i n k : ℕ) (idx : ℕ → ℕ)
      → k < i
      → i + n ≤ k + m
      → init_from remap m i n idx (remap (k % m)) ≡ idx (remap (k % m))
  unfolding init_from
  init_from-before i zero k idx lt near = refl
  init_from-before i (suc n) k idx lt near =
      init_from-before (i + 1) n k (update idx (remap (i % m)) i) (omega (arith, lt))
        (omega (arith, near))
      ∙ update_there idx (remap (i % m)) i (remap (k % m)) (apart k i lt (omega (arith, near)))

  init_from-at :
      (i n k : ℕ) (idx : ℕ → ℕ)
      → i ≤ k
      → k < i + n
      → n ≤ m
      → init_from remap m i n idx (remap (k % m)) ≡ k
  unfolding init_from
  init_from-at i zero k idx le lt near = absurd (omega (arith, le, lt))
  init_from-at i (suc n) k idx le lt near = elim (ℕ_discrete i k) [
    | yes e ↦
        subst (λ x. init_from remap m (i + 1) n (update idx (remap (i % m)) i) (remap (x % m)) ≡ x)
          e
          (init_from-before (i + 1) n i (update idx (remap (i % m)) i) (omega arith)
              (omega (arith, near))
            ∙ update_here idx (remap (i % m)) i)
    | no ne ↦
        init_from-at (i + 1) n k (update idx (remap (i % m)) i) (omega (arith, le, ne))
          (omega (arith, lt)) (omega (arith, near))
  ]

-- After the constructor of a ring that starts at `start`, each ticket of the first round finds its own
-- number in the `idx` of its cell, whether or not the cells are remapped.
pub init_cells_lem :
    (cache_remap : Bool) (l : Layout) (start ticket : ℕ) (idx : ℕ → ℕ)
    → IsLayout l
    → 0 < l.size
    → start ≤ ticket
    → ticket < start + l.size
    → init_cells cache_remap l start idx (conditional_remap cache_remap l (ticket % l.size))
      ≡ ticket
unfolding init_cells
init_cells_lem cache_remap l start ticket idx v pos le lt =
    init_from-at (conditional_remap cache_remap l) l.size pos
      ((conditional_remap_bijective cache_remap l v).1) start l.size ticket idx le lt (omega arith)
