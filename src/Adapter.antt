-- ===== src/Adapter.antt =====
-- The adapters of the benchmark: `PRQueueAdapter` of include/LPRQueue.hpp, `CRQueueAdapter` of
-- include/LCRQueue.hpp and `FAAArrayQueueAdapter` of include/FAAArrayQueue.hpp. Each wraps a queue
-- of pointers to stamped nodes and logs a record for each dequeue.
pub mod Laws
pub mod Commit
mod Tests
use ispass2026_concurrent_qu.Common.{
  ℕ, zero, suc, ◌+◌, ◌≤◌, ◌≡◌, List, [], ◌∷◌, ◌++◌, Bool, true, false, Option, none, some, update,
}
use ispass2026_concurrent_qu.Fairness.Log.{LogRecord}

-- `Node` of include/LCRQueue.hpp, at element type `int`.
pub record Node : Type 0 where
  pub value : ℕ
  pub enq_inv_ts : ℕ
  pub enq_lin_ts : ℕ
  pub deq_inv_ts : ℕ
  pub deq_lin_ts : ℕ

-- What an adapter calls. A world holds the queue, the nodes by their addresses, the clock, and all that
-- other threads will do in the calls; a pointer that `dequeue` returns may be read and written by
-- others until it is deleted, so that its fields are those of the world they are read in. All that
-- the adapters rely on is that the clock never goes back.
pub record Underlying : Type 1 where
  pub World : Type 0
  pub clock : World → ℕ
  pub node : World → ℕ → Node
  pub now : World → ℕ × World
  pub enqueue : Node → ℕ → World → World
  pub dequeue : ℕ → World → Option ℕ × World
  pub delete_node : ℕ → World → World
  pub now-ge : (w : World) → (clock w ≤ (now w).0) × ((now w).0 ≤ clock (now w).1)
  pub dequeue-clock : (tid : ℕ) (w : World) → clock w ≤ clock (dequeue tid w).1
  pub delete-clock : (ptr : ℕ) (w : World) → clock w ≤ clock (delete_node ptr w)

-- `g_tls_log` of each thread.
abbrev pub Logs : Type 0
Logs = ℕ → List LogRecord

abbrev append_log : ℕ → LogRecord → Logs → Logs
append_log tid r logs = update logs tid (logs tid ++ r ∷ [])

pub data Kind : Type 0 where
  prq crq faa : Kind

module _ (below : Underlying) where
  open below use {World, node, now, enqueue, dequeue, delete_node}

  -- `enqueue` of all three adapters.
  unfoldable pub adapter_enqueue : ℕ → ℕ → World → Bool × World
  adapter_enqueue v tid w =
      let (inv, w') = now w in
      (
        true,
        enqueue
            (record { value = v; enq_inv_ts = inv; enq_lin_ts = 0; deq_inv_ts = 0; deq_lin_ts = 0 })
            tid w',
      )

  -- `PRQueueAdapter::dequeue` behind the call of the queue: the result is `*out`, or nothing for
  -- `false`.
  prq_finish : ℕ → Option ℕ × World → Logs → Option ℕ × World × Logs
  prq_finish tid (none, w) logs = (none, w, logs)
  prq_finish tid (some ptr, w) logs =
      let (current_deq_inv, w') = now w in
      let n = node w' ptr in
      (
        some (node w ptr).value,
        delete_node ptr w',
        append_log tid (n.enq_inv_ts, n.enq_lin_ts, current_deq_inv, n.deq_lin_ts) logs,
      )

  unfoldable pub prq_adapter_dequeue : ℕ → World → Logs → Option ℕ × World × Logs
  unfolding prq_finish
  prq_adapter_dequeue tid w logs = prq_finish tid (dequeue tid w) logs

  -- `CRQueueAdapter::dequeue`.
  crq_finish : ℕ → Option ℕ × World → Logs → Option ℕ × World × Logs
  crq_finish tid (none, w) logs = (none, w, logs)
  crq_finish tid (some ptr, w) logs =
      let (current_deq_inv, w') = now w in
      let n = node w' ptr in
      (
        some (node w ptr).value,
        delete_node ptr w',
        append_log tid (n.enq_inv_ts, n.enq_lin_ts, current_deq_inv, n.deq_lin_ts) logs,
      )

  unfoldable pub crq_adapter_dequeue : ℕ → World → Logs → Option ℕ × World × Logs
  unfolding crq_finish
  crq_adapter_dequeue tid w logs = crq_finish tid (dequeue tid w) logs

  -- `FAAArrayQueueAdapter::dequeue` reads the clock before the call. The time is written to the
  -- node's `deq_inv_ts` and read back at once.
  faa_finish : ℕ → ℕ → Option ℕ × World → Logs → Option ℕ × World × Logs
  faa_finish inv tid (none, w) logs = (none, w, logs)
  faa_finish inv tid (some ptr, w) logs =
      let n = node w ptr in
      (
        some n.value,
        delete_node ptr w,
        append_log tid (n.enq_inv_ts, n.enq_lin_ts, inv, n.deq_lin_ts) logs,
      )

  unfoldable pub faa_adapter_dequeue : ℕ → World → Logs → Option ℕ × World × Logs
  unfolding faa_finish
  faa_adapter_dequeue tid w logs = let (inv, w') = now w in faa_finish inv tid (dequeue tid w') logs

  -- The calls of `dequeue` that a thread makes of one of the adapters, with the values that they
  -- returned.
  abbrev pub call : Kind → ℕ → World → Logs → Option ℕ × World × Logs
  call prq tid w logs = prq_adapter_dequeue tid w logs
  call crq tid w logs = crq_adapter_dequeue tid w logs
  call faa tid w logs = faa_adapter_dequeue tid w logs

  abbrev pub calls : Kind → ℕ → ℕ → World → Logs → List (Option ℕ) × World × Logs
  calls kind tid zero w logs = ([], w, logs)
  calls kind tid (suc n) w logs =
      let (out, w', logs') = call kind tid w logs in
      let (outs, w'', logs'') = calls kind tid n w' logs' in (out ∷ outs, w'', logs'')
