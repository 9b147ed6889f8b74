-- ===== src/Tasks/Batches.antt =====
-- `prepare_batches` and `start_batch` of pallets/tasks/src/lib.rs, and `on_initialize`.
pub mod Starting
pub mod Filling
pub mod Conserving
use timechain.Prelude.{
  ℕ, zero, suc, Option, none, some, List, [], ◌∷◌, ◌==◌, if◌then◌else◌, saturating_add,
  saturating_sub, u32_max, u64_max,
}
use timechain.Storage.{Map, insert}
use timechain.Primitives.Gmp.{
  GatewayOp, send_message, register_shard, unregister_shard, GatewayMessage, message_id,
}
use timechain.Primitives.Batch
use timechain.Primitives.Batch.{BatchBuilder}
use timechain.Primitives.Task.{submit_gateway_message}
use timechain.Tasks.Queue
use timechain.Tasks.State.{State, Config}
use timechain.Tasks.Core.{create_task}
use timechain.Tasks.Schedule.{schedule_tasks}

-- One round for each slot of the queue, and one to find it empty.
abbrev pub rounds : State → ℕ → ℕ
rounds s network = suc (Queue.insert_at s.ops network)

module _ (cfg : Config) where
  unfoldable pub note_op : State → ℕ → GatewayOp → State
  note_op s batch_id (send_message msg) = record s {
    message_batch_id = insert s.message_batch_id (message_id cfg.keccak256 msg) batch_id;
  }
  note_op s batch_id (register_shard key) = record s {
    shard_register_batch_id = insert s.shard_register_batch_id key batch_id;
  }
  note_op s batch_id (unregister_shard key) = record s {
    shard_unregister_batch_id = insert s.shard_unregister_batch_id key batch_id;
  }

  unfoldable pub note_ops : State → ℕ → List GatewayOp → State
  note_ops s batch_id [] = s
  note_ops s batch_id (op ∷ ops) = note_ops (note_op s batch_id op) batch_id ops

  unfoldable pub start_batch : State → ℕ → GatewayMessage → State
  start_batch s network msg =
      let batch_id = s.batch_id_counter in
      let counted : State = record s { batch_id_counter = saturating_add u64_max batch_id 1 } in
      let noted = note_ops counted batch_id msg.ops in
      let stored : State = record noted {
        batch_message = insert noted.batch_message batch_id msg;
      } in
      let (created, task_id) = create_task stored network (submit_gateway_message batch_id) in
      record created {
        pending_batches = insert created.pending_batches batch_id tt;
        batch_task_id = insert created.batch_task_id batch_id task_id;
      }

  -- A batch that the builder gave out is started and counted.
  unfoldable pub start_some : State → ℕ → ℕ → Option GatewayMessage → State × ℕ
  start_some s network started none = (s, started)
  start_some s network started (some msg) =
      (start_batch s network msg, saturating_add u32_max started 1)

  -- The `while let` loop over the queue, with fuel; it breaks at one batch less than the maximum.
  unfoldable pub fill_batches : ℕ → State → ℕ → BatchBuilder → ℕ → State × BatchBuilder × ℕ
  fill_batches zero s network batcher started = (s, batcher, started)
  fill_batches (suc fuel) s network batcher started =
      let (queue, popped) = Queue.pop s.ops network in
      elim popped [
        | none ↦ (record s { ops = queue }, batcher, started)
        | some op ↦
            let (batcher', batch) = Batch.push batcher op in
            let (s', started') = start_some (record s { ops = queue }) network started batch in
            let rest = fill_batches fuel s' network batcher' started' in
            if started' == saturating_sub cfg.max_batches_per_block 1
            then (s', batcher', started')
            else rest
      ]

  unfoldable pub prepare_network : State → ℕ → ℕ → State × ℕ
  prepare_network s network started =
      let (s', batcher, started') =
        fill_batches (rounds s network) s network (Batch.new (cfg.batch_gas_limit network))
          started in
      let (_, last) = Batch.take_batch batcher in start_some s' network started' last

  unfoldable pub prepare_networks : Map ℕ → State → ℕ → State × ℕ
  prepare_networks [] s started = (s, started)
  prepare_networks ((network, _) ∷ networks) s started =
      let (s', started') = prepare_network s network started in
      prepare_networks networks s' started'

  unfoldable pub prepare_batches : State → State × ℕ
  prepare_batches s = prepare_networks s.read_events_task s 0

  -- The block hook.
  unfoldable pub on_initialize : State → State
  on_initialize s = (schedule_tasks cfg (prepare_batches s).0).0
