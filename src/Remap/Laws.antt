-- ===== src/Remap/Laws.antt =====
-- The remapped index stays in the array, is met once, and moves neighbours to other cache lines.
use ispass2026_concurrent_qu.Common.{
  ℕ, ◌+◌, ◌*◌, ◌/◌, ◌%◌, ◌<◌, ◌≡◌, ◌≢◌, refl, sym, ap, ◌∙◌, Bool, ◌&&◌, leb, arith, Bool-cases,
  dec_lt, inl, inr,
}
use native.Mathlib.Nat.{
  mod-lt, eq_of_mul-eq-mul_right, mul_assoc, mul_comm, div-lt_iff_lt-mul, mul-add-mod_self_right,
  mod-eq_of_lt, div-eq_of_lt, div-add-mod', mod-add-mod, mod_self, mul-le-mul_right,
  mul-add-div_right,
}
use ispass2026_concurrent_qu.Remap.{
  Layout, cells_per_cache_line, num_cache_lines, IsLayout, cache_remap, conditional_remap,
}

-- An index of a table with `lines` rows of `cells`, after the table is transposed.
abbrev transpose : ℕ → ℕ → ℕ → ℕ
transpose lines cells i = i % lines * cells + i / lines

module _ (lines cells i : ℕ) (h : i < lines * cells) where
  lines_pos : 0 < lines
  lines_pos = elim (dec_lt 0 lines) [
    | yes p ↦ p
    | no p ↦ let e : lines ≡ 0 = omega arith in absurd (omega (arith, ap (λ n. n * cells) e))
  ]

  row_lt : i / lines < cells
  row_lt = (div-lt_iff_lt-mul lines_pos).1 (omega (arith, mul_comm lines cells))

  transpose-lt : transpose lines cells i < lines * cells
  transpose-lt = omega (
    arith,
    row_lt,
    mul-le-mul_right {m = i % lines + 1} {n = lines} cells (omega (arith, mod-lt i lines_pos)),
  )

  transpose-div : transpose lines cells i / cells ≡ i % lines
  transpose-div = omega (
    arith,
    mul-add-div_right {m = cells} (omega (arith, row_lt)) (i % lines) (i / lines),
    div-eq_of_lt row_lt,
  )

  transpose-mod : transpose lines cells i % cells ≡ i / lines
  transpose-mod = mul-add-mod_self_right (i % lines) cells (i / lines) ∙ mod-eq_of_lt row_lt

  -- Transposing back.
  transpose-transpose : transpose cells lines (transpose lines cells i) ≡ i
  transpose-transpose = rw (transpose-mod, transpose-div) (div-add-mod' i lines)

next_row_ne : (i lines : ℕ) → 1 < lines → i % lines ≢ (i + 1) % lines
next_row_ne i lines h e = elim (dec_lt (i % lines + 1) lines) [
  | yes p ↦ omega (arith, mod-add-mod i lines 1, mod-eq_of_lt p)
  | no p ↦
      let full : i % lines + 1 ≡ lines = omega (arith, mod-lt i {m = lines} (omega arith)) in
      omega (arith, mod-add-mod i lines 1, ap (λ n. n % lines) full, mod_self lines)
]

module _ {l : Layout} (v : IsLayout l) where
  -- The array is a whole number of lines.
  lines-mul-cells : num_cache_lines l * cells_per_cache_line l ≡ l.size
  lines-mul-cells = eq_of_mul-eq-mul_right l.cell_size v.cell_pos _ _ (
      mul_assoc (num_cache_lines l) (cells_per_cache_line l) l.cell_size
      ∙ ap (λ n. num_cache_lines l * n) whole_line
      ∙ whole)
    where
      whole_line : cells_per_cache_line l * l.cell_size ≡ l.cache_line_size
      whole_line = omega (arith, div-add-mod' l.cache_line_size l.cell_size, v.whole_cells)

      whole : num_cache_lines l * l.cache_line_size ≡ l.size * l.cell_size
      whole = omega (arith, div-add-mod' (l.size * l.cell_size) l.cache_line_size, v.whole_lines)

  inside : {i : ℕ} → i < l.size → i < num_cache_lines l * cells_per_cache_line l
  inside h = omega (arith, lines-mul-cells)

  cache_remap-lt : (i : ℕ) → i < l.size → cache_remap l i < l.size
  unfolding cache_remap
  cache_remap-lt i h = omega (
    arith,
    transpose-lt (num_cache_lines l) (cells_per_cache_line l) i (inside h),
    lines-mul-cells,
  )

  cache_remap-injective :
      (i j : ℕ) → i < l.size → j < l.size → cache_remap l i ≡ cache_remap l j → i ≡ j
  unfolding cache_remap
  cache_remap-injective i j hi hj e =
      sym (transpose-transpose lines cells i (inside hi))
      ∙ ap (transpose cells lines) e
      ∙ transpose-transpose lines cells j (inside hj)
    where
      lines : ℕ
      lines = num_cache_lines l

      cells : ℕ
      cells = cells_per_cache_line l

  -- Under the class's static assertions, and with at least two cache lines, neighbouring indices
  -- are remapped into different cache lines.
  pub cache_remap_separates :
      (i : ℕ)
      → i + 1 < l.size
      → 1 < num_cache_lines l
      → cache_remap l i / cells_per_cache_line l ≢ cache_remap l (i + 1) / cells_per_cache_line l
  unfolding cache_remap
  cache_remap_separates i h two e = next_row_ne i lines two (
      sym (transpose-div lines cells i (inside (omega arith)))
      ∙ e
      ∙ transpose-div lines cells (i + 1) (inside h))
    where
      lines : ℕ
      lines = num_cache_lines l

      cells : ℕ
      cells = cells_per_cache_line l

  -- Every cell of the array is the place of some index.
  cache_remap_onto : (j : ℕ) → j < l.size → (i : ℕ) × (i < l.size) × (cache_remap l i ≡ j)
  unfolding cache_remap
  cache_remap_onto j h = (
    transpose cells lines j,
    omega (arith, transpose-lt cells lines j back, lines-mul-cells, mul_comm cells lines),
    transpose-transpose cells lines j back,
  )
    where
      lines : ℕ
      lines = num_cache_lines l

      cells : ℕ
      cells = cells_per_cache_line l

      back : j < cells * lines
      back = omega (arith, inside h, mul_comm cells lines)

-- Under the class's static assertions, whichever map the condition selects, it is a bijection of the indices below the size: its values
-- are below the size, it is injective, and every index below the size is a value.
pub conditional_remap_bijective :
    (remap : Bool) (l : Layout)
    → IsLayout l
    → ((i : ℕ) → i < l.size → conditional_remap remap l i < l.size)
      × ((i j : ℕ)
          → i < l.size
          → j < l.size
          → conditional_remap remap l i ≡ conditional_remap remap l j
          → i ≡ j)
      × ((j : ℕ) → j < l.size → (i : ℕ) × (i < l.size) × (conditional_remap remap l i ≡ j))
unfolding conditional_remap
conditional_remap_bijective remap l v =
    elim (Bool-cases (remap && leb l.cache_line_size (l.size * l.cell_size))) [
      | inl on ↦ rw on (
        λ i h. cache_remap-lt v i h,
        λ i j hi hj. cache_remap-injective v i j hi hj,
        λ j h. cache_remap_onto v j h,
      )
      | inr off ↦ rw off (λ i h. h, λ i j hi hj e. e, λ j h. (j, h, refl))
    ]
