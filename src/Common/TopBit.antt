-- ===== src/Common/TopBit.antt =====
-- The top bit of a word of `w + 1` bits: reading it, setting it and masking it out.
use Prim.Native.Nat.{digits, bit_or-bitwise}
use ispass2026_concurrent_qu.Common.{
  ℕ, zero, suc, ◌+◌, ◌-◌, ◌*◌, ◌/◌, ◌%◌, ◌^◌, ◌≤◌, ◌<◌, max, bit_and, bit_or, ◌≡◌, refl, ap, ap₂,
  arith,
}
use ispass2026_concurrent_qu.Common.Bits.{bit_and_halves}
use native.Mathlib.Nat.{two-pow-succ}

disj : ℕ → ℕ → ℕ → ℕ
disj n a b = digits (λ b. b) max n a b

disj_enough : (n m a b : ℕ) → a ≤ n → a ≤ m → disj n a b ≡ disj m a b
unfolding disj
disj_enough zero zero a b p q = refl
disj_enough zero (suc m) zero b p q = refl
disj_enough zero (suc m) (suc a) b p q = absurd (omega arith)
disj_enough (suc n) zero zero b p q = refl
disj_enough (suc n) zero (suc a) b p q = absurd (omega arith)
disj_enough (suc n) (suc m) zero b p q = refl
disj_enough (suc n) (suc m) (suc a) b p q =
    omega (arith, disj_enough n m (suc a / 2) (b / 2) (omega arith) (omega arith))

bit_or-disj : (a b : ℕ) → bit_or a b ≡ disj a a b
unfolding disj
bit_or-disj a b = bit_or-bitwise a b

bit_or_halves : (a b : ℕ) → bit_or a b ≡ bit_or (a / 2) (b / 2) * 2 + max (a % 2) (b % 2)
unfolding disj
bit_or_halves zero b = omega (arith, bit_or-disj 0 b, bit_or-disj 0 (b / 2))
bit_or_halves (suc a) b = omega (
  arith,
  bit_or-disj (suc a) b,
  bit_or-disj (suc a / 2) (b / 2),
  disj_enough a (suc a / 2) (suc a / 2) (b / 2) (omega arith) (omega arith),
)

pub mask_open : (w r : ℕ) → r < 2 ^ w → bit_and r (2 ^ w - 1) ≡ r
mask_open zero zero h = refl
mask_open zero (suc r) h = absurd (omega arith)
mask_open (suc w) r h = omega (
  arith,
  two-pow-succ w,
  bit_and_halves r (2 ^ suc w - 1),
  ap (bit_and (r / 2)) half,
  mask_open w (r / 2) (omega (arith, two-pow-succ w)),
)
  where
    half : (2 ^ suc w - 1) / 2 ≡ 2 ^ w - 1
    half = omega (arith, two-pow-succ w)

pub mask_closed : (w r : ℕ) → r < 2 ^ w → bit_and (2 ^ w + r) (2 ^ w - 1) ≡ r
mask_closed zero zero h = refl
mask_closed zero (suc r) h = absurd (omega arith)
mask_closed (suc w) r h = omega (
  arith,
  two-pow-succ w,
  bit_and_halves (2 ^ suc w + r) (2 ^ suc w - 1),
  ap₂ bit_and rest half,
  mask_closed w (r / 2) (omega (arith, two-pow-succ w)),
)
  where
    half : (2 ^ suc w - 1) / 2 ≡ 2 ^ w - 1
    half = omega (arith, two-pow-succ w)

    rest : (2 ^ suc w + r) / 2 ≡ 2 ^ w + r / 2
    rest = omega (arith, two-pow-succ w)

pub top_open : (w r : ℕ) → r < 2 ^ w → bit_and r (2 ^ w) ≡ 0
top_open zero zero h = refl
top_open zero (suc r) h = absurd (omega arith)
top_open (suc w) r h = omega (
  arith,
  two-pow-succ w,
  bit_and_halves r (2 ^ suc w),
  ap (bit_and (r / 2)) half,
  top_open w (r / 2) (omega (arith, two-pow-succ w)),
)
  where
    half : 2 ^ suc w / 2 ≡ 2 ^ w
    half = omega (arith, two-pow-succ w)

pub top_closed : (w r : ℕ) → r < 2 ^ w → bit_and (2 ^ w + r) (2 ^ w) ≡ 2 ^ w
top_closed zero zero h = refl
top_closed zero (suc r) h = absurd (omega arith)
top_closed (suc w) r h = omega (
  arith,
  two-pow-succ w,
  bit_and_halves (2 ^ suc w + r) (2 ^ suc w),
  ap₂ bit_and rest half,
  top_closed w (r / 2) (omega (arith, two-pow-succ w)),
)
  where
    half : 2 ^ suc w / 2 ≡ 2 ^ w
    half = omega (arith, two-pow-succ w)

    rest : (2 ^ suc w + r) / 2 ≡ 2 ^ w + r / 2
    rest = omega (arith, two-pow-succ w)

pub set_open : (w r : ℕ) → r < 2 ^ w → bit_or r (2 ^ w) ≡ 2 ^ w + r
set_open zero zero h = refl
set_open zero (suc r) h = absurd (omega arith)
set_open (suc w) r h = omega (
  arith,
  two-pow-succ w,
  bit_or_halves r (2 ^ suc w),
  ap (bit_or (r / 2)) half,
  set_open w (r / 2) (omega (arith, two-pow-succ w)),
)
  where
    half : 2 ^ suc w / 2 ≡ 2 ^ w
    half = omega (arith, two-pow-succ w)

pub set_closed : (w r : ℕ) → r < 2 ^ w → bit_or (2 ^ w + r) (2 ^ w) ≡ 2 ^ w + r
set_closed zero zero h = refl
set_closed zero (suc r) h = absurd (omega arith)
set_closed (suc w) r h = omega (
  arith,
  two-pow-succ w,
  bit_or_halves (2 ^ suc w + r) (2 ^ suc w),
  ap₂ bit_or rest half,
  set_closed w (r / 2) (omega (arith, two-pow-succ w)),
)
  where
    half : 2 ^ suc w / 2 ≡ 2 ^ w
    half = omega (arith, two-pow-succ w)

    rest : (2 ^ suc w + r) / 2 ≡ 2 ^ w + r / 2
    rest = omega (arith, two-pow-succ w)
