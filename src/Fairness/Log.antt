-- ===== src/Fairness/Log.antt =====
-- include/FairnessLogger.hpp: the events of an operation, and a log record of four timestamps.
use ispass2026_concurrent_qu.Common.{ℕ, List, [], ◌∷◌, ◌==◌, if◌then◌else◌}

pub data EventTimestamp : Type 0 where
  enqueue_inv enqueue_lin dequeue_inv dequeue_lin : EventTimestamp

-- The tuple of a log: enqueue invocation and linearization, then those of the dequeue.
abbrev pub LogRecord : Type 0
LogRecord = ℕ × ℕ × ℕ × ℕ

-- The `return 0.0` behind the switch is reached by no enumerator.
unfoldable pub get_field : LogRecord → EventTimestamp → ℕ
get_field tup EventTimestamp.enqueue_inv = tup.0
get_field tup EventTimestamp.enqueue_lin = tup.1
get_field tup EventTimestamp.dequeue_inv = tup.2
get_field tup EventTimestamp.dequeue_lin = tup.3

-- Two timestamps of one operation.
abbrev pub TsPair : Type 0
TsPair = ℕ × ℕ

-- The pairs (e1, e2) of the records, in their order; a record with e1 = 0 is skipped.
unfoldable pub ts_pairs : List LogRecord → EventTimestamp → EventTimestamp → List TsPair
unfolding get_field
ts_pairs [] event1 event2 = []
ts_pairs (rec ∷ records) event1 event2 =
    if get_field rec event1 == 0
    then ts_pairs records event1 event2
    else (get_field rec event1, get_field rec event2) ∷ ts_pairs records event1 event2
