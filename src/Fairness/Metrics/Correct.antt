-- ===== src/Fairness/Metrics/Correct.antt =====
-- `compute_overtake_metrics` computes the reference.
use ispass2026_concurrent_qu.Common.{
  ℕ, suc, ◌+◌, ◌*◌, ◌%◌, ◌^◌, ◌≤◌, ◌<◌, ◌≡◌, refl, ap, ◌∙◌, List, [], ◌∷◌, map, Bool, max, ltb,
  if◌then◌else◌, length, arith, length-map, lt→ltb,
}
use native.Mathlib.Nat.{mul-le-mul}
use ispass2026_concurrent_qu.Fairness.Log.{TsPair, LogRecord, EventTimestamp, ts_pairs}
use ispass2026_concurrent_qu.Fairness.Sort.{stable_sort}
use ispass2026_concurrent_qu.Fairness.Sweep.Group.{count, overtakes}
use ispass2026_concurrent_qu.Fairness.Metrics.{
  Double, before, Stats, aggregate, pair_depths, finish, pair_metrics, compute_overtake_metrics,
}
use ispass2026_concurrent_qu.Fairness.Metrics.Reference.{
  total, maximum, positives, overtake_depths, reference_metrics,
}
use ispass2026_concurrent_qu.Fairness.Metrics.Invariance.{
  length-sorted, total-sorted, maximum-sorted, positives-sorted,
}
use ispass2026_concurrent_qu.Fairness.Metrics.Depths.{pair_depths_lem}

-- The loop over the depths: the sum modulo 2 ^ 64, the maximum, the number of positive ones.
aggregate_lem :
    (ds : List ℕ) (s : Stats)
    → s.sum < 2 ^ 64
    → aggregate s ds ≡ record {
      sum = (s.sum + total ds) % 2 ^ 64;
      max_depth = max s.max_depth (maximum ds);
      count = s.count + positives ds;
    }
unfolding aggregate
aggregate_lem [] s h = ground arith
aggregate_lem (d ∷ ds) s h = ground (
  arith,
  aggregate_lem ds (record {
    sum = (s.sum + d) % 2 ^ 64;
    max_depth = if ltb s.max_depth d then d else s.max_depth;
    count = if ltb 0 d then s.count + 1 else s.count;
  }),
)

count-le-length : (f : TsPair → Bool) (ps : List TsPair) → count f ps ≤ length ps
count-le-length f [] = omega arith
count-le-length f (p ∷ ps) = ground (arith, count-le-length f ps)

total-le :
    (f : TsPair → ℕ) (k : ℕ)
    → ((p : TsPair) → f p ≤ k)
    → (ps : List TsPair) → total (map f ps) ≤ length ps * k
total-le f k h [] = omega arith
total-le f k h (p ∷ ps) = omega (arith, h p, total-le f k h ps)

-- No depth exceeds the number of pairs, so that their sum fits a uint64_t.
pub total-overtake_depths-lt :
    (ps : List TsPair) → length ps < 2 ^ 30 → total (overtake_depths ps) < 2 ^ 64
total-overtake_depths-lt ps small = omega (
  arith,
  total-le (λ p. count (overtakes p) ps) (length ps) (λ p. count-le-length (overtakes p) ps) ps,
  square,
)
  where
    le : length ps ≤ 2 ^ 30
    le = omega arith

    square : length ps * length ps ≤ 2 ^ 30 * 2 ^ 30
    square = mul-le-mul le le

stats_of_depths :
    (ps : List TsPair)
    → length ps < 2 ^ 30
    → aggregate (record { sum = 0; max_depth = 0; count = 0 }) (pair_depths ps) ≡ record {
      sum = total (overtake_depths ps);
      max_depth = maximum (overtake_depths ps);
      count = positives (overtake_depths ps);
    }
stats_of_depths ps small = rw (pair_depths_lem ps small) (
    ground (
      arith,
      aggregate_lem (map depth (stable_sort before ps))
          (record { sum = 0; max_depth = 0; count = 0 }),
      total-sorted depth ps,
      maximum-sorted depth ps,
      positives-sorted depth ps,
      total-overtake_depths-lt ps small,
    ))
  where
    depth : TsPair → ℕ
    depth p = count (overtakes p) ps

length-pair_depths : (ps : List TsPair) → length ps < 2 ^ 30 → length (pair_depths ps) ≡ length ps
length-pair_depths ps small =
    ap length (pair_depths_lem ps small)
    ∙ length-map (λ p. count (overtakes p) ps) (stable_sort before ps)
    ∙ length-sorted ps

length-ts_pairs :
    (records : List LogRecord) (event1 event2 : EventTimestamp)
    → length (ts_pairs records event1 event2) ≤ length records
unfolding ts_pairs
length-ts_pairs [] event1 event2 = omega arith
length-ts_pairs (r ∷ records) event1 event2 = ground (arith, length-ts_pairs records event1 event2)

module _ (double : Double) where
  open double use {of_ℕ, is_pos-of_ℕ}

  pub pair_metrics_lem :
      (ps : List TsPair) → length ps < 2 ^ 30 → pair_metrics double ps ≡ reference_metrics double ps
  unfolding pair_metrics finish
  pair_metrics_lem [] small = refl
  pair_metrics_lem (p ∷ ps) small =
      rw (stats_of_depths (p ∷ ps) small, length-pair_depths (p ∷ ps) small)
        (rw (is_pos-of_ℕ (suc (length ps)), lt→ltb 0 (suc (length ps)) (omega arith)))

  -- For a log of fewer than 2 ^ 30 records, `compute_overtake_metrics` returns the reference
  -- metrics of the pairs of the two events: a record whose first event is 0 is left out; the depth
  -- of a pair is the number of pairs with a strictly larger first and a strictly smaller second
  -- event; the results are the mean depth, the mean depth of the overtaken pairs, the maximum, the
  -- number of overtaken pairs and their percentage.
  pub compute_overtake_metrics_lem :
      (records : List LogRecord) (event1 event2 : EventTimestamp)
      → length records < 2 ^ 30
      → compute_overtake_metrics double records event1 event2
        ≡ reference_metrics double (ts_pairs records event1 event2)
  unfolding compute_overtake_metrics
  compute_overtake_metrics_lem [] event1 event2 small = refl
  compute_overtake_metrics_lem (r ∷ records) event1 event2 small =
      pair_metrics_lem (ts_pairs (r ∷ records) event1 event2)
        (omega (arith, length-ts_pairs (r ∷ records) event1 event2))
