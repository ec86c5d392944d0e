-- ===== src/Fairness/Metrics/Depths.antt =====
-- The depths that `pair_depths` finds, from the laws of sorting, ranking and the sweep.
use ispass2026_concurrent_qu.Common.{
  ℕ, suc, ◌+◌, ◌^◌, ◌≤◌, ◌<◌, ◌≡◌, refl, ap, sym, ◌∙◌, inl, inr, List, [], ◌∷◌, map, Bool, true,
  ltb, All, In, length, arith, length-replicate, length-map,
}
use mathlib.Core.Path.{fun_ext}
use mathlib.Core.List.{append-nil}
use ispass2026_concurrent_qu.Fairness.Log.{TsPair}
use ispass2026_concurrent_qu.Fairness.Fenwick.{make}
use ispass2026_concurrent_qu.Fairness.Fenwick.Laws.{make-Holds}
use ispass2026_concurrent_qu.Fairness.Sort.{stable_sort, unique}
use ispass2026_concurrent_qu.Fairness.Sort.Laws.{
  gather, gather-stable_sort, In-stable_sort, IsAscending, stable_sort-IsAscending, In-unique,
  unique-IsAscending, length-unique,
}
use ispass2026_concurrent_qu.Fairness.Sweep.{sweep}
use ispass2026_concurrent_qu.Fairness.Sweep.Group.{
  count, overtakes, rev_onto, rev_onto-rev_onto, All-rev_onto, length-rev_onto,
  rev_onto-IsDescending, count-rev_onto,
}
use ispass2026_concurrent_qu.Fairness.Sweep.Depth.{Swept, Known, Above, sweep-depth_of}
use ispass2026_concurrent_qu.Fairness.Metrics.{before, pair_depths}
use ispass2026_concurrent_qu.Fairness.Metrics.Invariance.{count-sorted, length-sorted}

before_le : (x y : TsPair) → before x y ≡ true → x.0 ≤ y.0
before_le x y h = ground arith

not_before_le : (x y : TsPair) → before x y ≡ Bool.false → y.0 ≤ x.0
not_before_le x y h = ground arith

ltb_le : (x y : ℕ) → ltb x y ≡ true → x ≤ y
ltb_le x y h = ground arith

not_ltb_le : (x y : ℕ) → ltb x y ≡ Bool.false → y ≤ x
not_ltb_le x y h = ground arith

All-weaken :
    (P Q : TsPair → Type 0) → ((p : TsPair) → P p → Q p) → (ps : List TsPair) → All P ps → All Q ps
All-weaken P Q f [] h = tt
All-weaken P Q f (p ∷ ps) h = (f p h.0, All-weaken P Q f ps h.1)

seconds : List TsPair → List ℕ
seconds = map (λ p. p.1)

In-seconds : (ps : List TsPair) → All (λ p. In p.1 (seconds ps)) ps
unfolding seconds
In-seconds [] = tt
In-seconds (p ∷ ps) = (
  inl refl,
  All-weaken (λ q. In q.1 (seconds ps)) (λ q. In q.1 (seconds (p ∷ ps))) (λ q m. inr m) ps
      (In-seconds ps),
)

sort_values : List ℕ → List ℕ
sort_values = stable_sort ltb

length-sort_values : (l : List ℕ) → length (sort_values l) ≡ length l
unfolding sort_values
length-sort_values l =
    as_fold (stable_sort ltb l)
    ∙ gather-stable_sort ltb (λ p n. suc n) 0 (λ x y b. refl) l
    ∙ sym (as_fold l)
  where
    as_fold : (l : List ℕ) → length l ≡ gather (λ p n. suc n) 0 l
    as_fold [] = refl
    as_fold (x ∷ xs) = ap suc (as_fold xs)

module _ (sorted : List TsPair) where
  compressed : List ℕ
  unfolding seconds sort_values
  compressed = unique (sort_values (seconds sorted))

  compressed-IsAscending : IsAscending (λ n. n) compressed
  unfolding compressed
  compressed-IsAscending =
      unique-IsAscending _ (stable_sort-IsAscending ltb (λ n. n) ltb_le not_ltb_le (seconds sorted))

  compressed-Known : All (Known compressed compressed-IsAscending) sorted
  unfolding compressed
  compressed-Known =
      All-weaken (λ q. In q.1 (seconds sorted)) (Known compressed compressed-IsAscending)
        (λ q m. In-unique q.1 _ (In-stable_sort ltb q.1 (seconds sorted) m)) sorted
        (In-seconds sorted)

  length-compressed : length compressed ≤ length sorted
  unfolding compressed
  length-compressed = omega (
    arith,
    length-unique (sort_values (seconds sorted)),
    length-sort_values (seconds sorted),
    length-map {0, 0} (λ (p : TsPair). p.1) sorted,
  )

  nothing_done :
      length sorted < 2 ^ 30 → Swept compressed compressed-IsAscending (make (length compressed)) []
  unfolding make
  nothing_done h = record {
    size = length-replicate (length compressed + 1) 0;
    tree = make-Holds (length compressed) (omega (arith, length-compressed));
    known = tt;
  }

  none_over : (rest : List TsPair) → Above compressed compressed-IsAscending [] rest
  none_over [] = tt
  none_over (p ∷ rest) = (tt, none_over rest)

  apart : (ps : List TsPair) → All (λ p. All {A = TsPair} (λ q. q.0 ≤ p.0) []) ps
  apart [] = tt
  apart (p ∷ ps) = (tt, apart ps)

  sweep_all :
      length sorted < 2 ^ 30
      → IsAscending (λ p. p.0) sorted
      → sweep (length sorted) compressed (make (length compressed)) (rev_onto sorted []) []
        ≡ map (λ p. count (overtakes p) sorted) sorted
  sweep_all small up =
      sweep-depth_of compressed compressed-IsAscending sorted (length sorted)
        (make (length compressed)) [] (rev_onto sorted []) []
        (omega (arith, length-rev_onto sorted [])) (nothing_done small)
        (λ f. omega (arith, count-rev_onto f sorted []))
        (All-rev_onto (Known compressed compressed-IsAscending) sorted [] compressed-Known tt)
        (rev_onto-IsDescending sorted [] up tt (apart sorted)) (none_over (rev_onto sorted []))
      ∙ append-nil (map (λ p. count (overtakes p) sorted) (rev_onto (rev_onto sorted []) []))
      ∙ ap (map (λ p. count (overtakes p) sorted))
          (rev_onto-rev_onto sorted [] [] ∙ append-nil sorted)

-- The depths, in the order of the sorted pairs.
pub pair_depths_lem :
    (ps : List TsPair)
    → length ps < 2 ^ 30
    → pair_depths ps ≡ map (λ p. count (overtakes p) ps) (stable_sort before ps)
unfolding pair_depths compressed seconds sort_values
pair_depths_lem ps small =
    sweep_all (stable_sort before ps) (omega (arith, length-sorted ps))
      (stable_sort-IsAscending before (λ p. p.0) before_le not_before_le ps)
    ∙ ap (λ f. map f (stable_sort before ps)) (fun_ext (λ p. count-sorted (overtakes p) ps))
