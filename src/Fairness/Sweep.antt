-- ===== src/Fairness/Sweep.antt =====
-- The sweep of `compute_overtake_metrics` in src/FairnessLogger.cpp, from the largest first event
-- to the smallest. The pairs come in descending order, as the loops index them from the end.
pub mod Group
pub mod Depth
use ispass2026_concurrent_qu.Common.{
  ℕ, zero, suc, ◌+◌, ◌-◌, List, [], ◌∷◌, ◌++◌, map, ltb, ◌==◌, if◌then◌else◌,
}
use ispass2026_concurrent_qu.Fairness.Log.{TsPair}
use ispass2026_concurrent_qu.Fairness.Fenwick.{Fenwick, add, sum_prefix}
use ispass2026_concurrent_qu.Fairness.Sort.{lower_bound}

-- 1-based
unfoldable pub rank_e2 : List ℕ → ℕ → ℕ
unfolding lower_bound
rank_e2 e2_vals v = lower_bound e2_vals v + 1

-- `while (j > 0 && ts_pairs[j-1].first == e1) --j`: the group, ascending, and what is left.
unfoldable pub take_group : ℕ → List TsPair → List TsPair → List TsPair × List TsPair
take_group e1 [] group = (group, [])
take_group e1 (p ∷ rest) group =
    if p.0 == e1 then take_group e1 rest (p ∷ group) else (group, p ∷ rest)

-- Only strictly smaller second events count.
unfoldable pub query_depth : List ℕ → Fenwick → TsPair → ℕ
unfolding rank_e2 sum_prefix
query_depth e2_vals bit p =
    let r = rank_e2 e2_vals p.1 in if ltb 1 r then sum_prefix bit (r - 1) else 0

unfoldable pub insert_group : List ℕ → Fenwick → List TsPair → Fenwick
unfolding rank_e2 add
insert_group e2_vals bit [] = bit
insert_group e2_vals bit (p ∷ group) = insert_group e2_vals (add bit (rank_e2 e2_vals p.1) 1) group

-- The loop `while (i > 0)`: `rest` is `ts_pairs[0..i)` from its end, `depth` is `depth[i..)`. Each
-- round takes a pair at least, so that the number of pairs is fuel enough.
unfoldable pub sweep : ℕ → List ℕ → Fenwick → List TsPair → List ℕ → List ℕ
unfolding take_group query_depth insert_group
sweep zero e2_vals bit rest depth = depth
sweep (suc fuel) e2_vals bit [] depth = depth
sweep (suc fuel) e2_vals bit (p ∷ rest) depth =
    let (group, rest') = take_group p.0 (p ∷ rest) [] in
    sweep fuel e2_vals (insert_group e2_vals bit group) rest'
      (map (query_depth e2_vals bit) group ++ depth)
