-- ===== src/Fairness/Metrics.antt =====
-- `compute_overtake_metrics` of src/FairnessLogger.cpp, and the two calls of it in
-- include/FairnessLogger.hpp.
pub mod Reference
mod Invariance
mod Depths
pub mod Correct
mod Tests
use ispass2026_concurrent_qu.Common.{
  ℕ, ◌+◌, ◌%◌, ◌^◌, ◌≡◌, List, [], ◌∷◌, map, Bool, ltb, ◌==◌, if◌then◌else◌, length,
}
use ispass2026_concurrent_qu.Fairness.Log.{
  EventTimestamp, enqueue_inv, enqueue_lin, dequeue_inv, dequeue_lin, LogRecord, TsPair, ts_pairs,
}
use ispass2026_concurrent_qu.Fairness.Fenwick.{make}
use ispass2026_concurrent_qu.Fairness.Sort.{stable_sort, unique}
use ispass2026_concurrent_qu.Fairness.Sweep.{sweep}
use ispass2026_concurrent_qu.Fairness.Sweep.Group.{rev_onto}

-- The machine's `double`, as far as the metrics use it: conversion from an unsigned integer, `/`,
-- `*` and `> 0`. A converted integer is positive exactly when the integer is.
pub record Double : Type 1 where
  pub F : Type 0
  pub of_ℕ : ℕ → F
  pub div : F → F → F
  pub mul : F → F → F
  pub is_pos : F → Bool
  pub is_pos-of_ℕ : (n : ℕ) → is_pos (of_ℕ n) ≡ ltb 0 n

-- The order of `stable_sort`: by the first event, then by the second.
abbrev pub before : TsPair → TsPair → Bool
before a b = if a.0 == b.0 then ltb a.1 b.1 else ltb a.0 b.0

-- The loop over `depth`: `sum` is a uint64_t.
pub record Stats : Type 0 where
  pub sum : ℕ
  pub max_depth : ℕ
  pub count : ℕ

unfoldable pub aggregate : Stats → List ℕ → Stats
aggregate s [] = s
aggregate s (d ∷ depth) =
    aggregate
      (record {
        sum = (s.sum + d) % 2 ^ 64;
        max_depth = if ltb s.max_depth d then d else s.max_depth;
        count = if ltb 0 d then s.count + 1 else s.count;
      })
      depth

-- The depth of each pair: sort, compress the second events, sweep from the end.
unfoldable pub pair_depths : List TsPair → List ℕ
unfolding stable_sort unique make sweep
pair_depths pairs =
    let sorted = stable_sort before pairs in
    let e2_vals = unique (stable_sort ltb (map (λ p. p.1) sorted)) in
    sweep (length sorted) e2_vals (make (length e2_vals)) (rev_onto sorted []) []

module _ (double : Double) where
  open double use {F, of_ℕ, div, mul, is_pos}

  pub record OvertakeMetrics : Type 0 where
    pub mean_all_elements : F
    pub mean_overtaken_elements : F
    pub max_depth : ℕ
    pub count : ℕ
    pub pct : F

  -- The initialisers of the struct.
  abbrev pub no_overtakes : OvertakeMetrics
  no_overtakes = record {
    mean_all_elements = of_ℕ 0;
    mean_overtaken_elements = of_ℕ 0;
    max_depth = 0;
    count = 0;
    pct = of_ℕ 0;
  }

  unfoldable pub finish : ℕ → Stats → OvertakeMetrics
  finish size s = record {
    mean_all_elements = if is_pos (of_ℕ size) then div (of_ℕ s.sum) (of_ℕ size) else of_ℕ 0;
    mean_overtaken_elements = if ltb 0 s.count then div (of_ℕ s.sum) (of_ℕ s.count) else of_ℕ 0;
    max_depth = s.max_depth;
    count = s.count;
    pct = if is_pos (of_ℕ size) then div (mul (of_ℕ 100) (of_ℕ s.count)) (of_ℕ size) else of_ℕ 0;
  }

  unfoldable pub pair_metrics : List TsPair → OvertakeMetrics
  unfolding pair_depths aggregate finish
  pair_metrics [] = no_overtakes
  pair_metrics (p ∷ pairs) =
      let depth = pair_depths (p ∷ pairs) in
      finish (length depth) (aggregate (record { sum = 0; max_depth = 0; count = 0 }) depth)

  unfoldable pub compute_overtake_metrics :
      List LogRecord → EventTimestamp → EventTimestamp → OvertakeMetrics
  unfolding pair_metrics ts_pairs
  compute_overtake_metrics [] event1 event2 = no_overtakes
  compute_overtake_metrics (r ∷ records) event1 event2 =
      pair_metrics (ts_pairs (r ∷ records) event1 event2)

  unfoldable pub enqueue_fairness : List LogRecord → OvertakeMetrics
  unfolding compute_overtake_metrics
  enqueue_fairness records = compute_overtake_metrics records enqueue_inv enqueue_lin

  unfoldable pub dequeue_fairness : List LogRecord → OvertakeMetrics
  unfolding compute_overtake_metrics
  dequeue_fairness records = compute_overtake_metrics records dequeue_inv dequeue_lin
