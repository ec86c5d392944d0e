-- ===== src/Fairness/Sort/Rank.antt =====
-- The index by `lower_bound` in an ascending list compares as the values do.
use ispass2026_concurrent_qu.Common.{
  ℕ, ◌+◌, ◌≤◌, ◌<◌, ◌≡◌, inl, inr, List, [], ◌∷◌, ltb, leb, All, In, length, arith, dec_lt,
}
use ispass2026_concurrent_qu.Fairness.Sort.{lower_bound}
use ispass2026_concurrent_qu.Fairness.Sort.Laws.{IsAscending}

abbrev Ascending : List ℕ → Type 0
Ascending = IsAscending (λ n. n)

le_of_In : (a v : ℕ) (l : List ℕ) → All (λ y. a ≤ y) l → In v l → a ≤ v
le_of_In a v [] h m = absurd m
le_of_In a v (x ∷ xs) h (inl e) = omega arith
le_of_In a v (x ∷ xs) h (inr m) = le_of_In a v xs h.1 m

lower_bound_mono : (l : List ℕ) (u v : ℕ) → u ≤ v → lower_bound l u ≤ lower_bound l v
unfolding lower_bound
lower_bound_mono [] u v h = omega arith
lower_bound_mono (x ∷ xs) u v h = ground (arith, lower_bound_mono xs u v h)

lower_bound_strict :
    (l : List ℕ) (u v : ℕ) → Ascending l → In u l → u < v → lower_bound l u < lower_bound l v
unfolding lower_bound
lower_bound_strict [] u v s m h = absurd m
lower_bound_strict (x ∷ xs) u v s (inl e) h = ground arith
lower_bound_strict (x ∷ xs) u v s (inr m) h =
    ground (arith, lower_bound_strict xs u v s.1 m h, le_of_In x u xs s.0 m)

pub lower_bound-lt-length : (l : List ℕ) (v : ℕ) → Ascending l → In v l → lower_bound l v < length l
unfolding lower_bound
lower_bound-lt-length [] v s m = absurd m
lower_bound-lt-length (x ∷ xs) v s (inl e) = ground arith
lower_bound-lt-length (x ∷ xs) v s (inr m) = ground (arith, lower_bound-lt-length xs v s.1 m)

-- A member is below another exactly when its one-based rank is at most the other's index.
pub lower_bound_compare :
    (l : List ℕ) (u v : ℕ)
    → Ascending l
    → In u l
    → leb (lower_bound l u + 1) (lower_bound l v) ≡ ltb u v
lower_bound_compare l u v s m = elim (dec_lt u v) [
  | yes below ↦ ground (arith, lower_bound_strict l u v s m below)
  | no other ↦ ground (arith, lower_bound_mono l v u (omega arith))
]
