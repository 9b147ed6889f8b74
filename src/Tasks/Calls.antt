-- ===== src/Tasks/Calls.antt =====
-- The extrinsics of pallets/tasks/src/lib.rs. An extrinsic that returns an error leaves no change
-- behind: the runtime rolls its writes back.
pub mod Authority
use timechain.Prelude.{
  ℕ, Option, none, some, List, [], ◌∷◌, ◌==◌, if◌then◌else◌, unwrap_or, contains, length,
}
use timechain.Storage.{get, insert, remove, contains_key}
use timechain.Outcome.{
  Outcome, ok, err, ◌>>=◌, ◌>>◌, Origin, ensure_admin, ensure_signed, ok_or, ensure, unknown_task,
  unassigned_task, unknown_shard, invalid_signer, invalid_task_result, cannot_remove_task,
  invalid_batch_id,
}
use timechain.Primitives.Gmp.{
  GmpMessage, GatewayOp, send_message, GatewayMessage, GmpEvent, batch_executed, message_id,
}
use timechain.Primitives.Task.{
  Task, read_gateway_events, submit_gateway_message, TaskResult, read_result, submit_error, Output,
  success, failure, max_gmp_events,
}
use timechain.Tasks.State.{State, Config, batch_restarted}
use timechain.Tasks.Core.{create_task, finish_task, read_events, verify_signature}
use timechain.Tasks.Events.{process_events}

unfoldable pub clear_output : State → Option ℕ → State
clear_output s none = s
clear_output s (some task_id) = record s { task_output = remove s.task_output task_id }

module _ (cfg : Config) where
  -- The sync height moves to the end of the range, unless an admin has set it meanwhile.
  unfoldable pub advance_sync : State → ℕ → ℕ → ℕ → State
  advance_sync s network start end =
      if unwrap_or (get s.sync_height network) 0 == start
      then record s { sync_height = insert s.sync_height network end }
      else s

  -- The next read task, unless the network was stopped.
  unfoldable pub read_next : State → ℕ → Outcome State
  read_next s network =
      if contains_key s.read_events_task network
      then (read_events cfg s network >>= λ r. ok r.0)
      else ok s

  -- The `match` on the task and the result: the state, and the output of a task that is done.
  unfoldable pub settle :
      State → ℕ → ℕ → ℕ → ℕ → Task → TaskResult → Outcome (State × Option Output)
  unfolding advance_sync read_next
  settle s signer network shard task_id (read_gateway_events start end) (read_result events sig) =
      do
        verify_signature cfg shard (cfg.encode_gmp_events task_id events) sig
        next ← read_next (advance_sync s network start end) network
        let done = process_events cfg next network task_id events
        ok (done, (if length events == max_gmp_events then none else some success))
  settle s signer network shard task_id (submit_gateway_message batch_id) (submit_error error) = do
    ensure (contains (cfg.shard_members shard) signer) invalid_signer
    ok (
      record s {
        pending_batches = remove s.pending_batches batch_id;
        failed_batch_ids = insert s.failed_batch_ids batch_id tt;
      },
      some (failure error),
    )
  settle s signer network shard task_id task result = err invalid_task_result

  unfoldable pub finish_settled : ℕ → ℕ → State × Option Output → Outcome State
  finish_settled network task_id (s, none) = ok s
  finish_settled network task_id (s, some output) = ok (finish_task s network task_id output)

  unfoldable pub submit_task_result : State → Origin → ℕ → TaskResult → Outcome State
  unfolding finish_settled
  submit_task_result s origin task_id result = do
    signer ← ensure_signed origin
    task ← ok_or (get s.tasks task_id) unknown_task
    if contains_key s.task_output task_id then ok s else (do
      shard ← ok_or (get s.task_shard task_id) unassigned_task
      network ← ok_or (cfg.shard_network shard) unknown_shard
      settled ← settle s signer network shard task_id task result
      finish_settled network task_id settled)

  -- A batch that was executed after all is no longer failed, and its task may finish again.
  unfoldable pub reopen : State → List GmpEvent → State
  reopen s [] = s
  reopen s (batch_executed batch_id tx_hash ∷ events) =
      let cleared : State = record s { failed_batch_ids = remove s.failed_batch_ids batch_id } in
      reopen (clear_output cleared (get cleared.batch_task_id batch_id)) events
  reopen s (other ∷ events) = reopen s events

  unfoldable pub submit_gmp_events : State → Origin → ℕ → List GmpEvent → Outcome State
  unfolding reopen
  submit_gmp_events s origin network events = do
    ensure_admin origin
    ok (process_events cfg (reopen s events) network 0 events)

  unfoldable pub sync_network : State → Origin → ℕ → ℕ → Outcome State
  sync_network s origin network block = do
    ensure_admin origin
    ok (record s { sync_height = insert s.sync_height network block })

  unfoldable pub stop_network : State → Origin → ℕ → Outcome State
  stop_network s origin network = do
    ensure_admin origin
    ok (record s { read_events_task = remove s.read_events_task network })

  unfoldable pub forget_ids : State → GmpMessage → State
  forget_ids s msg =
      let id = message_id cfg.keccak256 msg in
      record s {
        message_received_task_id = remove s.message_received_task_id id;
        message_batch_id = remove s.message_batch_id id;
      }

  -- The messages of a batch are forgotten.
  unfoldable pub forget_messages : State → List GatewayOp → State
  forget_messages s [] = s
  forget_messages s (send_message msg ∷ ops) = forget_messages (forget_ids s msg) ops
  forget_messages s (other ∷ ops) = forget_messages s ops

  unfoldable pub forget_message : State → ℕ → Option GatewayMessage → State
  forget_message s batch_id none = s
  forget_message s batch_id (some msg) =
      forget_messages (record s { batch_message = remove s.batch_message batch_id }) msg.ops

  unfoldable pub forget_batch : State → Option Task → State
  unfolding forget_message
  forget_batch s (some (submit_gateway_message batch_id)) =
      let forgotten = forget_message s batch_id (get s.batch_message batch_id) in
      record forgotten { batch_task_id = remove forgotten.batch_task_id batch_id }
  forget_batch s other = s

  unfoldable pub remove_task : State → Origin → ℕ → Outcome State
  unfolding forget_batch
  remove_task s origin task = do
    ensure_admin origin
    ensure (contains_key s.task_output task) cannot_remove_task
    let taken : State = record s {
      task_output = remove s.task_output task;
      tasks = remove s.tasks task;
    }
    let forgotten = forget_batch taken (get s.tasks task)
    ok (record forgotten { task_network = remove forgotten.task_network task })

  unfoldable pub restart_batch : State → Origin → ℕ → Outcome State
  restart_batch s origin batch_id = do
    ensure_admin origin
    old_task_id ← ok_or (get s.batch_task_id batch_id) invalid_batch_id
    network ← ok_or (get s.task_network old_task_id) unknown_task
    let (created, new_task_id) = create_task s network (submit_gateway_message batch_id)
    ok (record created {
      batch_task_id = insert created.batch_task_id batch_id new_task_id;
      pending_batches = insert created.pending_batches batch_id tt;
      failed_batch_ids = remove created.failed_batch_ids batch_id;
      events = batch_restarted old_task_id new_task_id ∷ created.events;
    })
