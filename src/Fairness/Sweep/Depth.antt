-- ===== src/Fairness/Sweep/Depth.antt =====
-- The depth that the sweep finds for a pair is the number of pairs that overtake it.
use ispass2026_concurrent_qu.Common.{
  ℕ, zero, suc, ◌+◌, ◌≤◌, ◌<◌, ◌≡◌, refl, ap, sym, ◌∙◌, List, [], ◌∷◌, ◌++◌, map, Bool, false, leb,
  All, In, length, arith, ==_iff,
}
use native.Mathlib.Nat.{le_refl}
use mathlib.Core.List.{append_assoc, map-append}
use ispass2026_concurrent_qu.Fairness.Log.{TsPair}
use ispass2026_concurrent_qu.Fairness.Fenwick.{Fenwick, add}
use ispass2026_concurrent_qu.Fairness.Fenwick.Laws.{Holds, add-Holds, sum_prefix_lem, length-add}
use ispass2026_concurrent_qu.Fairness.Sort.{lower_bound}
use ispass2026_concurrent_qu.Fairness.Sort.Laws.{IsAscending}
use ispass2026_concurrent_qu.Fairness.Sort.Rank.{lower_bound-lt-length, lower_bound_compare}
use ispass2026_concurrent_qu.Fairness.Sweep.{rank_e2, take_group, query_depth, insert_group, sweep}
use ispass2026_concurrent_qu.Fairness.Sweep.Group.{
  count, overtakes, count_congr, count_none, count-rev_onto, All-map, map_congr, rev_onto,
  rev_onto-append, All-rev_onto, IsDescending, Group, take_group-Group, All-take_group,
}

module _ (vals : List ℕ) (asc : IsAscending (λ n. n) vals) where
  abbrev pub Known : TsPair → Type 0
  Known q = In q.1 vals

  -- The tree counts the pairs done, by rank.
  pub record Swept (t : Fenwick) (done : List TsPair) : Type 0 where
    pub size : length t.bit ≡ length vals + 1
    pub tree : Holds t (λ i. count (λ q. leb (rank_e2 vals q.1) i) done)
    pub known : All Known done

  same_tests :
      (p : TsPair) (done : List TsPair)
      → All Known done
      → All (λ q. p.0 < q.0) done
      → All (λ q. leb (rank_e2 vals q.1) (lower_bound vals p.1) ≡ overtakes p q) done
  unfolding rank_e2
  same_tests p [] k h = tt
  same_tests p (q ∷ done) k h =
      (ground (arith, lower_bound_compare vals q.1 p.1 asc k.0), same_tests p done k.1 h.1)

  query_depth-count :
      (t : Fenwick) (done : List TsPair) (p : TsPair)
      → Swept t done
      → Known p
      → All (λ q. p.0 < q.0) done
      → query_depth vals t p ≡ count (overtakes p) done
  unfolding query_depth rank_e2
  query_depth-count t done p w k above = ground (
    arith,
    w.tree.start,
    sum_prefix_lem (lower_bound vals p.1) w.tree
        (omega (arith, w.size, lower_bound-lt-length vals p.1 asc k)),
    count_congr (λ q. leb (rank_e2 vals q.1) (lower_bound vals p.1)) (overtakes p) done
        (same_tests p done w.known above),
  )

  add-Swept :
      (t : Fenwick) (done : List TsPair) (p : TsPair)
      → Swept t done
      → Known p
      → Swept (add t (rank_e2 vals p.1) 1) (p ∷ done)
  unfolding rank_e2
  add-Swept t done p w k = record {
    size = length-add t (lower_bound vals p.1 + 1) 1 ∙ w.size;
    tree = add-Holds (lower_bound vals p.1 + 1) 1 (omega arith) w.tree;
    known = (k, w.known);
  }

  insert_group-Swept :
      (g : List TsPair) (t : Fenwick) (done : List TsPair)
      → All Known g
      → Swept t done
      → Swept (insert_group vals t g) (rev_onto g done)
  unfolding insert_group
  insert_group-Swept [] t done k w = w
  insert_group-Swept (p ∷ g) t done k w =
      insert_group-Swept g (add t (rank_e2 vals p.1) 1) (p ∷ done) k.1 (add-Swept t done p w k.0)

  -- Every pair that is left stands strictly before all that are done.
  abbrev pub Above : List TsPair → List TsPair → Type 0
  Above done rest = All (λ p. All (λ q. p.0 < q.0) done) rest

  none_overtakes :
      (e1 : ℕ) (p : TsPair) (rest : List TsPair)
      → p.0 ≡ e1
      → All (λ q. q.0 ≤ e1) rest
      → count (overtakes p) rest ≡ 0
  none_overtakes e1 p rest e le =
      count_none (overtakes p) rest
        (All-map (λ q. q.0 ≤ e1) (λ q. overtakes p q ≡ false) (λ q h. ground arith) rest le)

  sweep_none : (fuel : ℕ) (t : Fenwick) (depth : List ℕ) → sweep fuel vals t [] depth ≡ depth
  unfolding sweep
  sweep_none zero t depth = refl
  sweep_none (suc fuel) t depth = refl

  sweep_step :
      (fuel : ℕ) (t : Fenwick) (p : TsPair) (rest : List TsPair) (depth : List ℕ)
      → let (group, rest') = take_group p.0 rest (p ∷ []) in
        sweep (suc fuel) vals t (p ∷ rest) depth
        ≡ sweep fuel vals
            (insert_group vals t group)
            rest'
            (map (query_depth vals t) group ++ depth)
  unfolding sweep
  sweep_step fuel t p rest depth = rw ((==_iff p.0 p.0).1 refl)

  module _ (all : List TsPair) where
    -- The reference: how many pairs of the whole log overtake this one.
    abbrev pub depth_of : TsPair → ℕ
    depth_of p = count (overtakes p) all

    abbrev pub Parts : List TsPair → List TsPair → Type 0
    Parts done rest = (f : TsPair → Bool) → count f all ≡ count f done + count f rest

    group_depths :
        (e1 : ℕ) (t : Fenwick) (done rest g : List TsPair)
        → Swept t done
        → Parts done rest
        → All (λ q. q.0 ≤ e1) rest
        → All (λ p. p.0 ≡ e1) g
        → All Known g
        → Above done g
        → All (λ p. query_depth vals t p ≡ depth_of p) g
    group_depths e1 t done rest [] w parts le same k above = tt
    group_depths e1 t done rest (p ∷ g) w parts le same k above = (
      omega (
        arith,
        query_depth-count t done p w k.0 above.0,
        parts (overtakes p),
        none_overtakes e1 p rest same.0 le,
      ),
      group_depths e1 t done rest g w parts le same.1 k.1 above.1,
    )

    pub sweep-depth_of :
        (fuel : ℕ) (t : Fenwick) (done rest : List TsPair) (depth : List ℕ)
        → length rest ≤ fuel
        → Swept t done
        → Parts done rest
        → All Known rest
        → IsDescending rest
        → Above done rest
        → sweep fuel vals t rest depth ≡ map depth_of (rev_onto rest []) ++ depth
    sweep-depth_of zero t done [] depth enough w parts k d above = sweep_none zero t depth
    sweep-depth_of zero t done (p ∷ rest) depth enough w parts k d above = absurd (omega arith)
    sweep-depth_of (suc fuel) t done [] depth enough w parts k d above =
        sweep_none (suc fuel) t depth
    sweep-depth_of (suc fuel) t done (p ∷ rest) depth enough w parts k d above =
        sweep_step fuel t p rest depth
        ∙ sweep-depth_of fuel (insert_group vals t g) (rev_onto g done) rest'
            (map (query_depth vals t) g ++ depth) (omega (arith, split.shorter))
            (insert_group-Swept g t done known.0 w)
            (λ f. omega (arith, parts f, split.counts f, count-rev_onto f g done)) known.1
            split.desc (still_above g rest' split.same split.below clear.1)
        ∙ ap (λ ds. map depth_of (rev_onto rest' []) ++ (ds ++ depth))
            (map_congr (query_depth vals t) depth_of g (
              group_depths p.0 t done (p ∷ rest) g w parts (le_refl p.0, d.0) split.same known.0
                clear.0))
        ∙ sym (append_assoc (map depth_of (rev_onto rest' [])) (map depth_of g) depth)
        ∙ ap (λ ds. ds ++ depth) (sym (map-append depth_of (rev_onto rest' []) g))
        ∙ ap (λ ps. map depth_of ps ++ depth) (sym (rev_onto-append rest' [] g) ∙ split.order)
      where
        g : List TsPair
        g = (take_group p.0 rest (p ∷ [])).0

        rest' : List TsPair
        rest' = (take_group p.0 rest (p ∷ [])).1

        split : Group p.0 rest (p ∷ []) (take_group p.0 rest (p ∷ []))
        split = take_group-Group p.0 rest (p ∷ []) d.0 d.1 (refl, tt)

        known : All Known g × All Known rest'
        known = All-take_group Known p.0 rest (p ∷ []) k.1 (k.0, tt)

        clear : Above done g × Above done rest'
        clear =
            All-take_group (λ q. All (λ r. q.0 < r.0) done) p.0 rest (p ∷ []) above.1 (above.0, tt)

        still_above :
            (g ps : List TsPair)
            → All (λ q. q.0 ≡ p.0) g
            → All (λ q. q.0 < p.0) ps
            → Above done ps
            → Above (rev_onto g done) ps
        still_above g [] same below h = tt
        still_above g (q ∷ ps) same below h = (
          All-rev_onto (λ r. q.0 < r.0) g done
              (All-map (λ r. r.0 ≡ p.0) (λ r. q.0 < r.0) (λ r e. omega arith) g same) h.0,
          still_above g ps same below.1 h.1,
        )
