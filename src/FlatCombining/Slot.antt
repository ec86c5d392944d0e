-- ===== src/FlatCombining/Slot.antt =====
-- The data of include/fcqueue.hpp, and what a thread and the combiner do to one slot.
use ispass2026_concurrent_qu.Common.{ℕ, Bool, true, false, List, [], ◌∷◌, ◌++◌}
use ispass2026_concurrent_qu.Fairness.Log.{LogRecord}

pub data Opcode : Type 0 where
  done enqueue dequeue : Opcode

pub record FcNode : Type 0 where
  pub value : ℕ
  pub enq_inv_ts : ℕ
  pub enq_lin_ts : ℕ
  pub deq_inv_ts : ℕ
  pub deq_lin_ts : ℕ

pub record Operation : Type 0 where
  pub opcode : Opcode
  pub node : FcNode
  pub success : Bool

-- The first lines of `enqueue`, at the time `t` of its `now()`.
unfoldable pub publish_enqueue : ℕ → ℕ → Operation → Operation
publish_enqueue t item slot = record slot {
  opcode = Opcode.enqueue;
  node = record (slot.node) { value = item; enq_inv_ts = t };
}

-- The first lines of `dequeue`; the default value of the element type is 0.
unfoldable pub publish_dequeue : ℕ → Operation → Operation
publish_dequeue t slot = record {
  opcode = Opcode.dequeue;
  node = record (slot.node) { value = 0; deq_inv_ts = t };
  success = false;
}

-- The node that the combiner pushes, with its linearization time.
unfoldable pub pushed_node : ℕ → Operation → FcNode
pushed_node t slot = record (slot.node) { enq_lin_ts = t }

-- The slot of a dequeue that got the node `n` at time `t`.
unfoldable pub deliver : ℕ → FcNode → Operation → Operation
deliver t n slot = record {
  opcode = Opcode.done;
  node = record (slot.node) {
    value = n.value;
    enq_inv_ts = n.enq_inv_ts;
    enq_lin_ts = n.enq_lin_ts;
    deq_lin_ts = t;
  };
  success = true;
}

-- One round of the loop of `scan_combine_apply` at a slot and the queue `q_`, oldest first.
unfoldable pub serve_opcode : Opcode → ℕ → Operation → List FcNode → Operation × List FcNode
unfolding pushed_node deliver
serve_opcode Opcode.done t slot q = (slot, q)
serve_opcode Opcode.enqueue t slot q =
    (record slot { opcode = Opcode.done }, q ++ pushed_node t slot ∷ [])
serve_opcode Opcode.dequeue t slot [] = (record slot { opcode = Opcode.done; success = false }, [])
serve_opcode Opcode.dequeue t slot (n ∷ q) = (deliver t n slot, q)

unfoldable pub serve : ℕ → Operation → List FcNode → Operation × List FcNode
unfolding serve_opcode
serve t slot q = serve_opcode slot.opcode t slot q

-- What `dequeue` returns from its slot, and the record that it logs.
unfoldable pub log_record : Operation → LogRecord
log_record slot =
    (slot.node.enq_inv_ts, slot.node.enq_lin_ts, slot.node.deq_inv_ts, slot.node.deq_lin_ts)
