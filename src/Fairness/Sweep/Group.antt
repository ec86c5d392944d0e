-- ===== src/Fairness/Sweep/Group.antt =====
-- Counting pairs, and the split of a descending list at the end of its first group.
use ispass2026_concurrent_qu.Common.{
  ℕ, ◌+◌, ◌≤◌, ◌<◌, ◌≡◌, refl, ap₂, List, [], ◌∷◌, ◌++◌, map, Bool, false, ◌&&◌, ltb, ◌==◌,
  if◌then◌else◌, All, length, arith, Bool-cases, ==_iff, inl, inr,
}
use ispass2026_concurrent_qu.Fairness.Log.{TsPair}
use ispass2026_concurrent_qu.Fairness.Sort.Laws.{IsAscending}
use ispass2026_concurrent_qu.Fairness.Sweep.{take_group}

abbrev pub count : (TsPair → Bool) → List TsPair → ℕ
count f [] = 0
count f (p ∷ ps) = count f ps + (if f p then 1 else 0)

-- `q` overtakes `p`: it begins after `p` and ends before it.
abbrev pub overtakes : TsPair → TsPair → Bool
overtakes p q = ltb p.0 q.0 && ltb q.1 p.1

pub count_congr :
    (f g : TsPair → Bool) (ps : List TsPair) → All (λ p. f p ≡ g p) ps → count f ps ≡ count g ps
count_congr f g [] h = refl
count_congr f g (p ∷ ps) h =
    ap₂ (λ n (b : Bool). n + (if b then 1 else 0)) (count_congr f g ps h.1) h.0

pub count_none : (f : TsPair → Bool) (ps : List TsPair) → All (λ p. f p ≡ false) ps → count f ps ≡ 0
count_none f [] h = refl
count_none f (p ∷ ps) h = ground (arith, count_none f ps h.1)

pub All-map :
    (P Q : TsPair → Type 0) → ((p : TsPair) → P p → Q p) → (ps : List TsPair) → All P ps → All Q ps
All-map P Q f [] h = tt
All-map P Q f (p ∷ ps) h = (f p h.0, All-map P Q f ps h.1)

pub map_congr :
    (f g : TsPair → ℕ) (ps : List TsPair) → All (λ p. f p ≡ g p) ps → map f ps ≡ map g ps
map_congr f g [] h = refl
map_congr f g (p ∷ ps) h = ap₂ ◌∷◌ h.0 (map_congr f g ps h.1)

-- The first list, turned round, before the second.
abbrev pub rev_onto : List TsPair → List TsPair → List TsPair
rev_onto [] qs = qs
rev_onto (p ∷ ps) qs = rev_onto ps (p ∷ qs)

pub rev_onto-append : (ps qs rs : List TsPair) → rev_onto ps (qs ++ rs) ≡ rev_onto ps qs ++ rs
rev_onto-append [] qs rs = refl
rev_onto-append (p ∷ ps) qs rs = rev_onto-append ps (p ∷ qs) rs

pub count-rev_onto :
    (f : TsPair → Bool) (ps qs : List TsPair) → count f (rev_onto ps qs) ≡ count f ps + count f qs
count-rev_onto f [] qs = omega arith
count-rev_onto f (p ∷ ps) qs = omega (arith, count-rev_onto f ps (p ∷ qs))

pub All-rev_onto :
    (P : TsPair → Type 0) (ps qs : List TsPair) → All P ps → All P qs → All P (rev_onto ps qs)
All-rev_onto P [] qs hp hq = hq
All-rev_onto P (p ∷ ps) qs hp hq = All-rev_onto P ps (p ∷ qs) hp.1 (hp.0, hq)

abbrev pub IsDescending : List TsPair → Type 0
IsDescending [] = Unit
IsDescending (p ∷ ps) = All (λ q. q.0 ≤ p.0) ps × IsDescending ps

-- `take_group` splits the list at the end of the group.
pub record Group (e1 : ℕ) (rest g : List TsPair) (out : List TsPair × List TsPair) : Type 0 where
  pub order : rev_onto out.1 out.0 ≡ rev_onto rest g
  pub same : All (λ q. q.0 ≡ e1) out.0
  pub below : All (λ q. q.0 < e1) out.1
  pub desc : IsDescending out.1
  pub shorter : length out.1 ≤ length rest
  pub counts : (f : TsPair → Bool) → count f out.0 + count f out.1 ≡ count f g + count f rest

pub take_group-Group :
    (e1 : ℕ) (rest g : List TsPair)
    → All (λ q. q.0 ≤ e1) rest
    → IsDescending rest
    → All (λ q. q.0 ≡ e1) g
    → Group e1 rest g (take_group e1 rest g)
unfolding take_group
take_group-Group e1 [] g le d same = record {
  order = refl;
  same = same;
  below = tt;
  desc = tt;
  shorter = omega arith;
  counts = λ f. refl;
}
take_group-Group e1 (p ∷ rest) g le d same = elim (Bool-cases (p.0 == e1)) [
  | inl eq ↦
      let more = take_group-Group e1 rest (p ∷ g) le.1 d.1 ((==_iff p.0 e1).0 eq, same) in
      rw eq (record {
        order = more.order;
        same = more.same;
        below = more.below;
        desc = more.desc;
        shorter = omega (arith, more.shorter);
        counts = λ f. omega (arith, more.counts f);
      })
  | inr ne ↦ rw ne (record {
    order = refl;
    same = same;
    below = (ground arith, All-map (λ q. q.0 ≤ p.0) (λ q. q.0 < e1) (λ q h. ground arith) rest d.0);
    desc = d;
    shorter = omega arith;
    counts = λ f. refl;
  })
]

pub All-take_group :
    (P : TsPair → Type 0) (e1 : ℕ) (rest g : List TsPair)
    → All P rest
    → All P g
    → All P (take_group e1 rest g).0 × All P (take_group e1 rest g).1
unfolding take_group
All-take_group P e1 [] g hr hg = (hg, tt)
All-take_group P e1 (p ∷ rest) g hr hg = elim (Bool-cases (p.0 == e1)) [
  | inl eq ↦ rw eq (All-take_group P e1 rest (p ∷ g) hr.1 (hr.0, hg))
  | inr ne ↦ rw ne (hg, hr)
]

pub rev_onto-rev_onto :
    (ps qs rs : List TsPair) → rev_onto (rev_onto ps qs) rs ≡ rev_onto qs (ps ++ rs)
rev_onto-rev_onto [] qs rs = refl
rev_onto-rev_onto (p ∷ ps) qs rs = rev_onto-rev_onto ps (p ∷ qs) rs

pub length-rev_onto : (ps qs : List TsPair) → length (rev_onto ps qs) ≡ length ps + length qs
length-rev_onto [] qs = omega arith
length-rev_onto (p ∷ ps) qs = omega (arith, length-rev_onto ps (p ∷ qs))

-- An ascending list is descending from its end.
pub rev_onto-IsDescending :
    (ps qs : List TsPair)
    → IsAscending (λ p. p.0) ps
    → IsDescending qs
    → All (λ p. All (λ q. q.0 ≤ p.0) qs) ps
    → IsDescending (rev_onto ps qs)
rev_onto-IsDescending [] qs up down apart = down
rev_onto-IsDescending (p ∷ ps) qs up down apart =
    rev_onto-IsDescending ps (p ∷ qs) up.1 (apart.0, down) (both ps up.0 apart.1)
  where
    both :
        (rs : List TsPair)
        → All (λ r. p.0 ≤ r.0) rs
        → All (λ r. All (λ q. q.0 ≤ r.0) qs) rs
        → All (λ r. All (λ q. q.0 ≤ r.0) (p ∷ qs)) rs
    both [] h k = tt
    both (r ∷ rs) h k = ((h.0, k.0), both rs h.1 k.1)
