-- ===== src/Adapter/Tests.antt =====
-- A queue of one thread below the adapters, and their theorems there.
use ispass2026_concurrent_qu.Common.{
  ℕ, ◌+◌, ◌≤◌, ◌≡◌, refl, List, [], ◌∷◌, ◌++◌, Option, none, some, arith, length, update,
  ℕ_discrete, if◌then◌else◌,
}
use ispass2026_concurrent_qu.Adapter.{
  Node, Underlying, Logs, prq_adapter_dequeue, faa_adapter_dequeue, prq, calls,
}
use ispass2026_concurrent_qu.Adapter.Commit.{Records, commit_all, gathered, member, commit_all_lem}
use ispass2026_concurrent_qu.Adapter.Laws.{found, Ascends, calls-Ascends}
use ispass2026_concurrent_qu.Fairness.Log.{LogRecord}

-- A clock that ticks at each reading, the nodes in the queue, and the node that was taken out last.
record Quiet : Type 0 where
  time : ℕ
  nodes : List Node
  out : Node

abbrev blank : Node
blank = record { value = 0; enq_inv_ts = 0; enq_lin_ts = 0; deq_inv_ts = 0; deq_lin_ts = 0 }

stamped : ℕ → Node → Node
stamped t n = record n { deq_lin_ts = t }

-- The first node, at address 1, is stamped and taken out.
take_first : ℕ → List Node → Option ℕ × Quiet
take_first t [] = (none, record { time = t; nodes = []; out = blank })
take_first t (n ∷ ns) = (some 1, record { time = t + 1; nodes = ns; out = stamped (t + 1) n })

take_first-clock : (t : ℕ) (ns : List Node) → t ≤ (take_first t ns).1.time
unfolding take_first
take_first-clock t [] = omega arith
take_first-clock t (n ∷ ns) = omega arith

le_next : (t : ℕ) → (t ≤ t + 1) × (t + 1 ≤ t + 1)
le_next t = omega arith

abbrev quiet : Underlying
quiet = record {
  World = Quiet;
  clock = λ w. w.time;
  node = λ w ptr. w.out;
  now = λ w. (w.time + 1, record w { time = w.time + 1 });
  enqueue = λ n tid w. record {
    time = w.time + 1;
    nodes = w.nodes ++ record n { enq_lin_ts = w.time + 1 } ∷ [];
    out = w.out;
  };
  dequeue = λ tid w. take_first w.time w.nodes;
  delete_node = λ ptr w. w;
  now-ge = λ w. le_next w.time;
  dequeue-clock = λ tid w. take_first-clock w.time w.nodes;
  delete-clock = λ ptr w. omega arith;
}

abbrev clock_of : Quiet → ℕ
clock_of w = w.time

abbrev filled : Quiet
filled = record {
  time = 5;
  nodes =
      record { value = 42; enq_inv_ts = 3; enq_lin_ts = 4; deq_inv_ts = 0; deq_lin_ts = 0 } ∷ [];
  out = blank;
}

abbrev no_logs : Logs
no_logs tid = []

prq_logs : (prq_adapter_dequeue quiet 0 filled no_logs).2 0 ≡ (3, 4, 7, 6) ∷ []
unfolding prq_adapter_dequeue take_first stamped ℕ_discrete
prq_logs = refl

faa_logs : (faa_adapter_dequeue quiet 0 filled no_logs).2 0 ≡ (3, 4, 6, 7) ∷ []
unfolding faa_adapter_dequeue take_first stamped ℕ_discrete
faa_logs = refl

calls-Ascends_example :
    let (outs, w', logs') = calls quiet prq 0 2 filled no_logs in
    (rs : List LogRecord) × (logs' 0 ≡ [] ++ rs)
    × (length rs ≡ found outs)
    × Ascends (clock_of filled) rs (clock_of w')
calls-Ascends_example = calls-Ascends quiet prq 0 2 filled no_logs

-- Two threads commit, the second first, and the first once more.
abbrev two_logs : Records
two_logs = record {
  records = [];
  logs = update (update no_logs 0 ((1, 2, 3, 4) ∷ [])) 1 ((5, 6, 7, 8) ∷ []);
}

commit_all_example :
    ((commit_all (1 ∷ 0 ∷ 0 ∷ []) two_logs).records
      ≡ two_logs.records ++ gathered (1 ∷ 0 ∷ 0 ∷ []) two_logs.logs)
    × ((k : ℕ)
        → (commit_all (1 ∷ 0 ∷ 0 ∷ []) two_logs).logs k
          ≡ (if member k (1 ∷ 0 ∷ 0 ∷ []) then [] else two_logs.logs k))
commit_all_example = commit_all_lem (1 ∷ 0 ∷ 0 ∷ []) two_logs
