-- ===== src/Fairness/Metrics/Invariance.antt =====
-- Sorting the pairs changes no count, sum or maximum over them.
use ispass2026_concurrent_qu.Common.{
  ℕ, suc, ◌+◌, ◌≡◌, refl, ap, sym, ◌∙◌, List, [], ◌∷◌, map, Bool, max, ltb, if◌then◌else◌, length,
  arith,
}
use ispass2026_concurrent_qu.Fairness.Log.{TsPair}
use ispass2026_concurrent_qu.Fairness.Sort.{stable_sort}
use ispass2026_concurrent_qu.Fairness.Sort.Laws.{gather, gather-stable_sort}
use ispass2026_concurrent_qu.Fairness.Sweep.Group.{count}
use ispass2026_concurrent_qu.Fairness.Metrics.{before}
use ispass2026_concurrent_qu.Fairness.Metrics.Reference.{total, maximum, positives}

-- A fold that does not depend on the order, over the sorted pairs.
sorted_gather :
    {B : Type 0} (op : TsPair → B → B) (e : B)
    → ((x y : TsPair) (b : B) → op x (op y b) ≡ op y (op x b))
    → (ps : List TsPair) → gather op e (stable_sort before ps) ≡ gather op e ps
sorted_gather op e swap ps = gather-stable_sort before op e swap ps

count-gather :
    (f : TsPair → Bool) (ps : List TsPair)
    → count f ps ≡ gather (λ p n. n + (if f p then 1 else 0)) 0 ps
count-gather f [] = refl
count-gather f (p ∷ ps) = ap (λ n. n + (if f p then 1 else 0)) (count-gather f ps)

pub count-sorted :
    (f : TsPair → Bool) (ps : List TsPair) → count f (stable_sort before ps) ≡ count f ps
count-sorted f ps =
    count-gather f (stable_sort before ps)
    ∙ sorted_gather (λ p n. n + (if f p then 1 else 0)) 0 (λ x y b. omega arith) ps
    ∙ sym (count-gather f ps)

length-gather : (ps : List TsPair) → length ps ≡ gather (λ p n. suc n) 0 ps
length-gather [] = refl
length-gather (p ∷ ps) = ap suc (length-gather ps)

pub length-sorted : (ps : List TsPair) → length (stable_sort before ps) ≡ length ps
length-sorted ps =
    length-gather (stable_sort before ps)
    ∙ sorted_gather (λ p n. suc n) 0 (λ x y b. refl) ps
    ∙ sym (length-gather ps)

module _ (f : TsPair → ℕ) where
  total-gather : (ps : List TsPair) → total (map f ps) ≡ gather (λ p n. f p + n) 0 ps
  total-gather [] = refl
  total-gather (p ∷ ps) = ap (λ n. f p + n) (total-gather ps)

  pub total-sorted : (ps : List TsPair) → total (map f (stable_sort before ps)) ≡ total (map f ps)
  total-sorted ps =
      total-gather (stable_sort before ps)
      ∙ sorted_gather (λ p n. f p + n) 0 (λ x y b. omega arith) ps
      ∙ sym (total-gather ps)

  maximum-gather : (ps : List TsPair) → maximum (map f ps) ≡ gather (λ p n. max (f p) n) 0 ps
  maximum-gather [] = refl
  maximum-gather (p ∷ ps) = ap (max (f p)) (maximum-gather ps)

  pub maximum-sorted :
      (ps : List TsPair) → maximum (map f (stable_sort before ps)) ≡ maximum (map f ps)
  maximum-sorted ps =
      maximum-gather (stable_sort before ps)
      ∙ sorted_gather (λ p n. max (f p) n) 0 (λ x y b. omega arith) ps
      ∙ sym (maximum-gather ps)

  positives-gather :
      (ps : List TsPair)
      → positives (map f ps) ≡ gather (λ p n. (if ltb 0 (f p) then 1 else 0) + n) 0 ps
  positives-gather [] = refl
  positives-gather (p ∷ ps) = ap (λ n. (if ltb 0 (f p) then 1 else 0) + n) (positives-gather ps)

  pub positives-sorted :
      (ps : List TsPair) → positives (map f (stable_sort before ps)) ≡ positives (map f ps)
  positives-sorted ps =
      positives-gather (stable_sort before ps)
      ∙ sorted_gather (λ p n. (if ltb 0 (f p) then 1 else 0) + n) 0 (λ x y b. omega arith) ps
      ∙ sym (positives-gather ps)
