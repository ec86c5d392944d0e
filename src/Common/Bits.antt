-- ===== src/Common/Bits.antt =====
-- `x & -x` on machine words of any width: the lowest set bit.
use Prim.Native.Nat.{digits, bit_and-bitwise}
use ispass2026_concurrent_qu.Common.{
  ℕ, zero, suc, ◌+◌, ◌-◌, ◌*◌, ◌/◌, ◌%◌, ◌^◌, ◌≤◌, ◌<◌, min, bit_and, ◌≡◌, ◌≢◌, ◌↔◌, refl, ap,
  arith, ℕ_discrete,
}
use native.Mathlib.Nat.{two-pow-succ}

-- The digits of a conjunction do not depend on the fuel, once it covers the first number.
conj : ℕ → ℕ → ℕ → ℕ
conj n a b = digits (λ b. zero) min n a b

conj_enough : (n m a b : ℕ) → a ≤ n → a ≤ m → conj n a b ≡ conj m a b
unfolding conj
conj_enough zero zero a b p q = refl
conj_enough zero (suc m) zero b p q = refl
conj_enough zero (suc m) (suc a) b p q = absurd (omega arith)
conj_enough (suc n) zero zero b p q = refl
conj_enough (suc n) zero (suc a) b p q = absurd (omega arith)
conj_enough (suc n) (suc m) zero b p q = refl
conj_enough (suc n) (suc m) (suc a) b p q =
    omega (arith, conj_enough n m (suc a / 2) (b / 2) (omega arith) (omega arith))

bit_and-conj : (a b : ℕ) → bit_and a b ≡ conj a a b
unfolding conj
bit_and-conj a b = bit_and-bitwise a b

-- The lowest digit, and the rest.
pub bit_and_halves : (a b : ℕ) → bit_and a b ≡ bit_and (a / 2) (b / 2) * 2 + min (a % 2) (b % 2)
unfolding conj
bit_and_halves zero b = omega (arith, bit_and-conj 0 b, bit_and-conj 0 (b / 2))
bit_and_halves (suc a) b = omega (
  arith,
  bit_and-conj (suc a) b,
  bit_and-conj (suc a / 2) (b / 2),
  conj_enough a (suc a / 2) (suc a / 2) (b / 2) (omega arith) (omega arith),
)

-- A word and its complement have no common bit.
bit_and-complement : (w x : ℕ) → x < 2 ^ w → bit_and x (2 ^ w - 1 - x) ≡ 0
bit_and-complement zero zero h = refl
bit_and-complement zero (suc x) h = absurd (omega arith)
bit_and-complement (suc w) x h = omega (
  arith,
  two-pow-succ w,
  bit_and_halves x (2 ^ suc w - 1 - x),
  ap (bit_and (x / 2)) half,
  bit_and-complement w (x / 2) (omega (arith, two-pow-succ w)),
)
  where
    half : (2 ^ suc w - 1 - x) / 2 ≡ 2 ^ w - 1 - x / 2
    half = omega (arith, two-pow-succ w)

-- `x & -x` on `w`-bit words: `-x` is the pattern of 2 ^ w - x.
unfoldable pub lowbit : ℕ → ℕ → ℕ
lowbit w x = bit_and x (2 ^ w - x)

pub lowbit_odd : (w x : ℕ) → x < 2 ^ suc w → x % 2 ≡ 1 → lowbit (suc w) x ≡ 1
unfolding lowbit
lowbit_odd w x h odd = omega (
  arith,
  two-pow-succ w,
  bit_and_halves x (2 ^ suc w - x),
  ap (bit_and (x / 2)) half,
  bit_and-complement w (x / 2) (omega (arith, two-pow-succ w)),
)
  where
    half : (2 ^ suc w - x) / 2 ≡ 2 ^ w - 1 - x / 2
    half = omega (arith, two-pow-succ w)

pub lowbit_even : (w x : ℕ) → x < 2 ^ suc w → x % 2 ≡ 0 → lowbit (suc w) x ≡ 2 * lowbit w (x / 2)
unfolding lowbit
lowbit_even w x h even =
    omega (arith, two-pow-succ w, bit_and_halves x (2 ^ suc w - x), ap (bit_and (x / 2)) half)
  where
    half : (2 ^ suc w - x) / 2 ≡ 2 ^ w - x / 2
    half = omega (arith, two-pow-succ w)

-- The lowest set bit of a positive number is positive, and at most the number.
pub lowbit_bounds : (w x : ℕ) → 0 < x → x < 2 ^ w → (0 < lowbit w x) × (lowbit w x ≤ x)
lowbit_bounds zero x pos h = absurd (omega arith)
lowbit_bounds (suc w) x pos h = elim (ℕ_discrete (x % 2) 1) [
  | yes odd ↦ omega (arith, lowbit_odd w x h odd)
  | no even ↦ omega (
    arith,
    lowbit_even w x h (omega arith),
    lowbit_bounds w (x / 2) (omega arith) (omega (arith, two-pow-succ w)),
  )
]

-- The range (i - lowbit i, i] holds `j` exactly when it holds `j + lowbit j`, unless i = j.
pub lowbit_next :
    (w i j : ℕ)
    → 0 < i
    → 0 < j
    → i < 2 ^ w
    → j < 2 ^ w
    → i ≢ j
    → ((i - lowbit w i < j) × (j ≤ i)) ↔ ((i - lowbit w i < j + lowbit w j) × (j + lowbit w j ≤ i))
lowbit_next zero i j pi pj hi hj ne = absurd (omega arith)
lowbit_next (suc w) i j pi pj hi hj ne = elim (ℕ_discrete (i % 2) 1) [
  | yes iodd ↦ elim (ℕ_discrete (j % 2) 1) [
    | yes jodd ↦ omega (arith, lowbit_odd w i hi iodd, lowbit_odd w j hj jodd)
    | no jeven ↦ omega (arith, lowbit_odd w i hi iodd, lowbit_even w j hj (omega arith))
  ]
  | no ieven ↦ elim (ℕ_discrete (j % 2) 1) [
    | yes jodd ↦ omega (arith, lowbit_even w i hi (omega arith), lowbit_odd w j hj jodd)
    | no jeven ↦
        let (to, from) =
          lowbit_next w (i / 2) (j / 2) (omega arith) (omega arith) (omega (arith, two-pow-succ w))
            (omega (arith, two-pow-succ w)) (omega arith) in
        (
          λ h. omega (
            arith,
            lowbit_even w i hi (omega arith),
            lowbit_even w j hj (omega arith),
            to (omega (arith, lowbit_even w i hi (omega arith)), omega arith),
          ),
          λ h. omega (
            arith,
            lowbit_even w i hi (omega arith),
            lowbit_even w j hj (omega arith),
            from (
              omega (arith, lowbit_even w i hi (omega arith), lowbit_even w j hj (omega arith)),
              omega (arith, lowbit_even w j hj (omega arith)),
            ),
          ),
        )
  ]
]
