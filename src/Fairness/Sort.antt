-- ===== src/Fairness/Sort.antt =====
-- What `compute_overtake_metrics` uses of <algorithm>: `stable_sort`, `sort`, `unique` and
-- `lower_bound`. A stable sort is determined by its input; on numbers `sort` is the same function.
pub mod Laws
pub mod Rank
use ispass2026_concurrent_qu.Common.{ℕ, suc, List, [], ◌∷◌, Bool, ltb, ◌==◌, if◌then◌else◌}

module _ {ℓ} {A : Type ℓ} (less : A → A → Bool) where
  unfoldable pub insert_before : A → List A → List A
  insert_before x [] = x ∷ []
  insert_before x (y ∷ ys) = if less y x then y ∷ insert_before x ys else x ∷ y ∷ ys

  unfoldable pub stable_sort : List A → List A
  unfolding insert_before
  stable_sort [] = []
  stable_sort (x ∷ xs) = insert_before x (stable_sort xs)

-- `erase(unique(…), end)`: of equal neighbours the first stays.
keep_new : ℕ → List ℕ → List ℕ
keep_new x [] = x ∷ []
keep_new x (y ∷ ys) = if x == y then keep_new x ys else x ∷ keep_new y ys

unfoldable pub unique : List ℕ → List ℕ
unfolding keep_new
unique [] = []
unique (x ∷ xs) = keep_new x xs

-- The index of the first element that is not below `v`.
unfoldable pub lower_bound : List ℕ → ℕ → ℕ
lower_bound [] v = 0
lower_bound (x ∷ xs) v = if ltb x v then suc (lower_bound xs v) else 0
