-- ===== src/Fairness/Metrics/Reference.antt =====
-- What the metrics mean, with no sorting and no tree: for each pair of the log count the pairs that
-- overtake it.
use ispass2026_concurrent_qu.Common.{ℕ, ◌+◌, max, List, [], ◌∷◌, map, ltb, if◌then◌else◌, length}
use ispass2026_concurrent_qu.Fairness.Log.{TsPair}
use ispass2026_concurrent_qu.Fairness.Sweep.Group.{count, overtakes}
use ispass2026_concurrent_qu.Fairness.Metrics.{Double, OvertakeMetrics, no_overtakes}

abbrev pub total : List ℕ → ℕ
total [] = 0
total (d ∷ ds) = d + total ds

abbrev pub maximum : List ℕ → ℕ
maximum [] = 0
maximum (d ∷ ds) = max d (maximum ds)

abbrev pub positives : List ℕ → ℕ
positives [] = 0
positives (d ∷ ds) = (if ltb 0 d then 1 else 0) + positives ds

-- The depth of each pair, in the order of the log.
abbrev pub overtake_depths : List TsPair → List ℕ
overtake_depths pairs = map (λ p. count (overtakes p) pairs) pairs

module _ (double : Double) where
  open double use {of_ℕ, div, mul}

  -- The mean over all pairs and over the overtaken ones, the maximum, the number of overtaken pairs,
  -- and their share in percent; all 0 for an empty log.
  abbrev pub reference_metrics : List TsPair → OvertakeMetrics double
  reference_metrics [] = no_overtakes double
  reference_metrics (p ∷ pairs) =
      let depths = overtake_depths (p ∷ pairs) in
      let n = length (p ∷ pairs) in
      record {
        mean_all_elements = div (of_ℕ (total depths)) (of_ℕ n);
        mean_overtaken_elements =
            if ltb 0 (positives depths)
            then div (of_ℕ (total depths)) (of_ℕ (positives depths))
            else of_ℕ 0;
        max_depth = maximum depths;
        count = positives depths;
        pct = div (mul (of_ℕ 100) (of_ℕ (positives depths))) (of_ℕ n);
      }
