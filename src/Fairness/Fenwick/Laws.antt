-- ===== src/Fairness/Fenwick/Laws.antt =====
-- The tree of `Fenwick` answers prefix sums: `add` and `sum_prefix` against a function `P`, where
-- `P i` is the sum of all that was added at 1 … i.
use ispass2026_concurrent_qu.Common.{
  ℕ, zero, suc, ◌+◌, ◌-◌, ◌^◌, ◌≤◌, ◌<◌, ◌≡◌, refl, sym, ◌∙◌, List, length, get_or, set, ltb, leb,
  if◌then◌else◌, arith, Bool, ◌&&◌, length-set, get_or-set_self, get_or-set_ne, length-replicate,
  get_or-replicate, dec_lt, ℕ_discrete,
}
use ispass2026_concurrent_qu.Common.Bits.{lowbit, lowbit_bounds, lowbit_next}
use ispass2026_concurrent_qu.Fairness.Fenwick.{Fenwick, make, add_loop, add, sum_loop, sum_prefix}

-- Node `i` answers for the range (i - lowbit i, i].
abbrev covers : ℕ → ℕ → Bool
covers i j = ltb (i - lowbit 32 i) j && leb j i

pub record Holds (t : Fenwick) (P : ℕ → ℕ) : Type 0 where
  pub small : length t.bit ≤ 2 ^ 30
  pub start : P 0 ≡ 0
  pub node : (i : ℕ) → 0 < i → i < length t.bit → get_or t.bit i 0 + P (i - lowbit 32 i) ≡ P i

pub make-Holds : (n : ℕ) → n < 2 ^ 30 → Holds (make n) (λ i. 0)
unfolding make
make-Holds n h = record {
  small = omega (arith, length-replicate {0} {A = ℕ} (n + 1) 0);
  start = refl;
  node = λ i p q. omega (arith, get_or-replicate {0} {A = ℕ} (n + 1) i 0);
}

length-add_loop :
    (fuel : ℕ) (bit : List ℕ) (idx val : ℕ) → length (add_loop fuel bit idx val) ≡ length bit
unfolding add_loop
length-add_loop zero bit idx val = refl
length-add_loop (suc fuel) bit idx val = ground (
  arith,
  length-add_loop fuel (set bit idx (get_or bit idx 0 + val)) (idx + lowbit 32 idx) val,
  length-set bit idx (get_or bit idx 0 + val),
)

covers_self : (j : ℕ) → 0 < j → j < 2 ^ 30 → covers j j ≡ Bool.true
covers_self j p h = ground (arith, lowbit_bounds 32 j p (omega arith))

-- Past its own index a node is not met again.
covers_next_self : (j : ℕ) → 0 < j → j < 2 ^ 30 → covers j (j + lowbit 32 j) ≡ Bool.false
covers_next_self j p h = ground (arith, lowbit_bounds 32 j p (omega arith))

same_test :
    (lo a b hi : ℕ)
    → ((lo < a) × (a ≤ hi) → (lo < b) × (b ≤ hi))
    → ((lo < b) × (b ≤ hi) → (lo < a) × (a ≤ hi))
    → (ltb lo a && leb a hi) ≡ (ltb lo b && leb b hi)
same_test lo a b hi to from = ground arith

covers_next :
    (i j : ℕ)
    → 0 < i
    → 0 < j
    → i < 2 ^ 30
    → j < 2 ^ 30
    → ¬ (i ≡ j)
    → covers i j ≡ covers i (j + lowbit 32 j)
covers_next i j pi pj hi hj ne =
    let (to, from) = lowbit_next 32 i j pi pj (omega arith) (omega arith) ne in
    same_test (i - lowbit 32 i) j (j + lowbit 32 j) i to from

-- `add` touches exactly the nodes that answer for its index.
get_or-add_loop :
    (fuel : ℕ) (bit : List ℕ) (j val : ℕ)
    → 0 < j
    → length bit ≤ 2 ^ 30
    → length bit ≤ fuel + j
    → (i : ℕ) → 0 < i
    → i < length bit
    → get_or (add_loop fuel bit j val) i 0 ≡ get_or bit i 0 + (if covers i j then val else 0)
unfolding add_loop
get_or-add_loop zero bit j val pj small enough i pi hi = ground arith
get_or-add_loop (suc fuel) bit j val pj small enough i pi hi = elim (dec_lt j (length bit)) [
  | yes inside ↦
      let bit' = set bit j (get_or bit j 0 + val) in
      let same : length bit' ≡ length bit = length-set bit j (get_or bit j 0 + val) in
      let later =
        get_or-add_loop fuel bit' (j + lowbit 32 j) val (omega arith) (omega arith)
          (omega (arith, lowbit_bounds 32 j pj (omega arith))) i pi (omega arith) in
      elim (ℕ_discrete i j) [
        | yes here ↦ ground (
          arith,
          later,
          get_or-set_self bit j (get_or bit j 0 + val) 0 inside,
          covers_self j pj (omega arith),
          covers_next_self j pj (omega arith),
        )
        | no elsewhere ↦ ground (
          arith,
          later,
          get_or-set_ne bit j i (get_or bit j 0 + val) 0 (λ e. elsewhere (sym e)),
          covers_next i j pi pj (omega arith) (omega arith) elsewhere,
        )
      ]
  | no outside ↦ ground arith
]

pub add-Holds :
    {t : Fenwick} {P : ℕ → ℕ} (r val : ℕ)
    → 0 < r
    → Holds t P
    → Holds (add t r val) (λ i. P i + (if leb r i then val else 0))
unfolding add
add-Holds {t} {P} r val pos h = record {
  small = omega (arith, h.small, length-add_loop (length t.bit) t.bit r val);
  start = ground (arith, h.start);
  node = λ i pi hi.
      let hi' : i < length t.bit = omega (arith, length-add_loop (length t.bit) t.bit r val) in
      ground (
        arith,
        h.node i pi hi',
        get_or-add_loop (length t.bit) t.bit r val pos h.small (omega arith) i pi hi',
        lowbit_bounds 32 i pi (omega (arith, h.small)),
      );
}

sum_loop-eq :
    {t : Fenwick} {P : ℕ → ℕ}
    → Holds t P
    → (fuel i s : ℕ) → i ≤ fuel
    → i < length t.bit
    → sum_loop fuel t.bit i s ≡ s + P i
unfolding sum_loop
sum_loop-eq {t} {P} h zero zero s e q = omega (arith, h.start)
sum_loop-eq {t} {P} h zero (suc i) s e q = absurd (omega arith)
sum_loop-eq {t} {P} h (suc fuel) zero s e q = omega (arith, h.start)
sum_loop-eq {t} {P} h (suc fuel) (suc i) s e q =
    let bounds = lowbit_bounds 32 (suc i) (omega arith) (omega (arith, h.small)) in
    let rest =
      sum_loop-eq h fuel (suc i - lowbit 32 (suc i)) (s + get_or t.bit (suc i) 0)
        (omega (arith, bounds)) (omega arith) in
    ground (arith, rest, h.node (suc i) (omega arith) q)

pub sum_prefix_lem :
    {t : Fenwick} {P : ℕ → ℕ} (i : ℕ) → Holds t P → i < length t.bit → sum_prefix t i ≡ P i
unfolding sum_prefix
sum_prefix_lem i h q = sum_loop-eq h i i 0 (omega arith) q ∙ omega arith

pub length-add : (t : Fenwick) (r val : ℕ) → length (add t r val).bit ≡ length t.bit
unfolding add
length-add t r val = length-add_loop (length t.bit) t.bit r val
