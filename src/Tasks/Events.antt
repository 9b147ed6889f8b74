-- ===== src/Tasks/Events.antt =====
-- `process_events` of pallets/tasks/src/lib.rs.
use timechain.Prelude.{ℕ, Option, none, some, List, [], ◌∷◌}
use timechain.Storage.{get, insert, remove}
use timechain.Primitives.Gmp.{
  GmpMessage, send_message, GmpEvent, shard_registered, shard_unregistered, batch_executed,
  message_id,
}
use timechain.Primitives.Gmp.{
  GmpEvent.message_received as received, GmpEvent.message_executed as executed,
}
use timechain.Primitives.Task.{success}
use timechain.Tasks.Queue
use timechain.Tasks.State.{State, Config, message_received, message_executed}
use timechain.Tasks.Core.{finish_task}

unfoldable pub finish_batch : State → ℕ → Option ℕ → State
finish_batch s network none = s
finish_batch s network (some task_id) = finish_task s network task_id success

unfoldable pub note_tx_hash : State → ℕ → Option ℕ → State
note_tx_hash s batch_id none = s
note_tx_hash s batch_id (some hash) = record s {
  batch_tx_hash = insert s.batch_tx_hash batch_id hash;
}

-- The message waits in the queue of its destination.
receive : Config → State → ℕ → GmpMessage → State
receive cfg s task_id msg =
    let msg_id = message_id cfg.keccak256 msg in
    record s {
      ops = Queue.push s.ops msg.dest_network (send_message msg);
      message_received_task_id = insert s.message_received_task_id msg_id task_id;
      events = message_received msg_id ∷ s.events;
    }

unfoldable pub process_event : Config → State → ℕ → ℕ → GmpEvent → State
unfolding finish_batch note_tx_hash receive
process_event cfg s network task_id (shard_registered pubkey) = record s {
  shard_registered = insert s.shard_registered pubkey tt;
}
process_event cfg s network task_id (shard_unregistered pubkey) = record s {
  shard_registered = remove s.shard_registered pubkey;
}
process_event cfg s network task_id (received msg) = receive cfg s task_id msg
process_event cfg s network task_id (executed msg_id) = record s {
  message_executed_task_id = insert s.message_executed_task_id msg_id task_id;
  events = message_executed msg_id ∷ s.events;
}
process_event cfg s network task_id (batch_executed batch_id tx_hash) =
    let closed : State = record s { pending_batches = remove s.pending_batches batch_id } in
    note_tx_hash (finish_batch closed network (get closed.batch_task_id batch_id)) batch_id tx_hash

unfoldable pub process_events : Config → State → ℕ → ℕ → List GmpEvent → State
process_events cfg s network task_id [] = s
process_events cfg s network task_id (event ∷ events) =
    process_events cfg (process_event cfg s network task_id event) network task_id events
