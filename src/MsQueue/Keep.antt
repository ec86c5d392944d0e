-- ===== src/MsQueue/Keep.antt =====
-- Every step keeps the chain and what the threads know of it.
use ispass2026_concurrent_qu.Common.{
  ℕ, ◌+◌, ◌-◌, ◌≡◌, refl, subst, ap, sym, Bool, true, List, Option, update, arith, length, ==_iff,
  length-append,
}
use ispass2026_concurrent_qu.MsQueue.{
  Pointer, counted, MsNode, Pc, Event, pushes, pops, drained, System,
}
use ispass2026_concurrent_qu.MsQueue.Chain.{Ghost, values, Ahead, Local, Shape, Inv}
use ispass2026_concurrent_qu.MsQueue.Frame.{Grows-same, moved-Inv}
use ispass2026_concurrent_qu.MsQueue.Linked.{tail_moved-Shape}

abbrev pub InvOf : Ghost → System → Type 0
InvOf g s = Inv g s.node s.used s.head s.tail s.trace s.pc

-- If all the pushed values are popped, the history says so.
pub last-drained :
    {g : Ghost} {node : ℕ → MsNode} {used : ℕ → Bool} {head tail : Pointer} {tr : List Event}
    → Shape g node used head tail tr
    → g.h ≡ g.last
    → drained tr ≡ true
last-drained {g} {node} {tr = tr} sh e = (==_iff (length (pops tr)) (length (pushes tr))).1 same
  where
    none_left : (n : ℕ) → n ≡ 0 → length (values node g.at g.h n) ≡ 0
    none_left n e = rw e refl

    same : length (pops tr) ≡ length (pushes tr)
    same = omega (
      arith,
      none_left (g.last - g.h) (omega (arith, e)),
      length-append (pops tr) (values node g.at g.h (g.last - g.h)),
      ap length sh.fifo,
    )

module _ (g : Ghost) (s : System) (v : InvOf g s) where
  pub known : (i : ℕ) {p : Pc} → s.pc i ≡ p → Local g s.node i p
  known i e = subst (Local g s.node i) e (v.local i)

  -- A step that changes only where thread `i` stands.
  pub stays :
      (i : ℕ) (p : Pc)
      → Local g s.node i p
      → Inv g s.node s.used s.head s.tail s.trace (update s.pc i p)
  stays i p l = moved-Inv i p v v.shape (Grows-same g s.node) (λ j _ n m. m) l

  abbrev pub advanced : Ghost
  advanced = record g { t = g.t + 1 }

  pub advance :
      (i : ℕ) (p : Pc) (ct : Pointer) (q : Option ℕ)
      → s.tail ≡ ct
      → Ahead g s.node i ct.ptr q
      → Local advanced s.node i p
      → Inv advanced s.node s.used s.head (counted q ct) s.trace (update s.pc i p)
  advance i p ct q e f l =
      moved-Inv i p v
        (tail_moved-Shape v.shape q ct i (subst (λ c. Ahead g s.node i c.ptr q) (sym e) f))
        (record {
          h-le = omega arith;
          t-le = omega arith;
          last-le = omega arith;
          at_same = λ k _. refl;
          value_same = λ k _. refl;
        })
        (λ j _ n m. m) l
