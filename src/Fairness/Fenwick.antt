-- ===== src/Fairness/Fenwick.antt =====
-- `Fenwick` of src/FairnessLogger.cpp: a binary indexed tree of prefix counts.
pub mod Laws
use ispass2026_concurrent_qu.Common.{
  ℕ, zero, suc, ◌+◌, ◌-◌, List, length, get_or, set, replicate, ltb, if◌then◌else◌,
}
use ispass2026_concurrent_qu.Common.Bits.{lowbit}

pub record Fenwick : Type 0 where
  pub bit : List ℕ

unfoldable pub make : ℕ → Fenwick
make n = record { bit = replicate (n + 1) 0 }

-- The loop of `add`, with fuel; `idx & -idx` is on 32-bit words.
add_loop : ℕ → List ℕ → ℕ → ℕ → List ℕ
add_loop zero bit idx val = bit
add_loop (suc fuel) bit idx val =
    let rest = add_loop fuel (set bit idx (get_or bit idx 0 + val)) (idx + lowbit 32 idx) val in
    if ltb idx (length bit) then rest else bit

-- A positive index grows in each round, so that the size is fuel enough.
unfoldable pub add : Fenwick → ℕ → ℕ → Fenwick
unfolding add_loop lowbit
add t idx val = record { bit = add_loop (length t.bit) t.bit idx val }

-- The loop of `sum_prefix`, with fuel.
sum_loop : ℕ → List ℕ → ℕ → ℕ → ℕ
sum_loop zero bit idx s = s
sum_loop (suc fuel) bit idx s =
    let rest = sum_loop fuel bit (idx - lowbit 32 idx) (s + get_or bit idx 0) in
    if ltb 0 idx then rest else s

-- The index falls in each round, so that it is fuel enough.
unfoldable pub sum_prefix : Fenwick → ℕ → ℕ
unfolding sum_loop lowbit
sum_prefix t idx = sum_loop idx t.bit idx 0
