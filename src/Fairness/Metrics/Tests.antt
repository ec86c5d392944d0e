-- ===== src/Fairness/Metrics/Tests.antt =====
-- Runs of the metrics on small logs, and their theorems at a concrete log.
use ispass2026_concurrent_qu.Common.{ℕ, ◌*◌, ◌/◌, ◌≡◌, refl, List, [], ◌∷◌, ltb, arith}
use ispass2026_concurrent_qu.Fairness.Log.{LogRecord, TsPair, ts_pairs, enqueue_inv, enqueue_lin}
use ispass2026_concurrent_qu.Fairness.Metrics.{Double, pair_depths, compute_overtake_metrics}
use ispass2026_concurrent_qu.Fairness.Metrics.Reference.{reference_metrics}
use ispass2026_concurrent_qu.Fairness.Metrics.Correct.{compute_overtake_metrics_lem}

-- Three operations: the first begins first and takes effect last.
abbrev sample_log : List LogRecord
sample_log = (1, 9, 20, 30) ∷ (2, 5, 21, 31) ∷ (0, 4, 22, 32) ∷ (3, 6, 23, 33) ∷ []

abbrev sample_pairs : List TsPair
sample_pairs = (1, 9) ∷ (2, 5) ∷ (3, 6) ∷ []

ts_pairs-sample : ts_pairs sample_log enqueue_inv enqueue_lin ≡ sample_pairs
unfolding ts_pairs
ts_pairs-sample = refl

pair_depths-sample : pair_depths sample_pairs ≡ 2 ∷ 0 ∷ 0 ∷ []
unfolding pair_depths
pair_depths-sample = refl

-- Whole numbers in place of doubles.
abbrev whole : Double
whole = record {
  F = ℕ;
  of_ℕ = λ n. n;
  div = λ a b. a / b;
  mul = λ a b. a * b;
  is_pos = λ n. ltb 0 n;
  is_pos-of_ℕ = λ n. refl;
}

compute-sample : compute_overtake_metrics whole sample_log enqueue_inv enqueue_lin ≡ record {
  mean_all_elements = 0;
  mean_overtaken_elements = 2;
  max_depth = 2;
  count = 1;
  pct = 33;
}
unfolding compute_overtake_metrics
compute-sample = refl

compute_overtake_metrics_example :
    compute_overtake_metrics whole sample_log enqueue_inv enqueue_lin
    ≡ reference_metrics whole (ts_pairs sample_log enqueue_inv enqueue_lin)
compute_overtake_metrics_example =
    compute_overtake_metrics_lem whole sample_log enqueue_inv enqueue_lin (omega arith)
