-- ===== src/Tasks/State.antt =====
-- The storage, the events and the configuration of pallets/tasks/src/lib.rs.
use timechain.Prelude.{ℕ, Bool, Option, List}
use timechain.Storage.{Map, DoubleMap}
use timechain.Primitives.Gmp.{GatewayOp, GatewayMessage, GmpEvent}
use timechain.Primitives.Task.{Task, Output}
use timechain.Tasks.Queue.{QueueImpl}

pub data Event : Type 0 where
  task_created : ℕ → Event
  task_result : ℕ → Output → Event
  batch_restarted : ℕ → ℕ → Event
  message_received : ℕ → Event
  message_executed : ℕ → Event

-- One field for each storage of the pallet; the three storages of a queue stand together.
-- `events` is what the pallet has deposited, the latest first.
pub record State : Type 0 where
  pub ua_tasks : QueueImpl ℕ
  pub ops : QueueImpl GatewayOp
  pub shard_tasks : DoubleMap (Unit {0})
  pub task_shard : Map ℕ
  pub network_shards : DoubleMap (Unit {0})
  pub task_id_counter : ℕ
  pub task_count : Map ℕ
  pub executed_task_count : Map ℕ
  pub shard_task_count : Map ℕ
  pub tasks : Map Task
  pub task_output : Map Output
  pub task_network : Map ℕ
  pub shard_register_batch_id : Map ℕ
  pub shard_unregister_batch_id : Map ℕ
  pub shard_registered : Map (Unit {0})
  pub read_events_task : Map ℕ
  pub sync_height : Map ℕ
  pub message_received_task_id : Map ℕ
  pub message_executed_task_id : Map ℕ
  pub message_batch_id : Map ℕ
  pub batch_id_counter : ℕ
  pub batch_message : Map GatewayMessage
  pub batch_task_id : Map ℕ
  pub pending_batches : Map (Unit {0})
  pub failed_batch_ids : Map (Unit {0})
  pub batch_tx_hash : Map ℕ
  pub events : List Event

-- The trait `Config`: the constants, the reading halves of `ShardsInterface` and
-- `NetworksInterface`, and the functions of other crates that the pallet calls. `next_batch_size`
-- is `none` where the call panics.
pub record Config : Type 0 where
  pub max_tasks_per_block : ℕ
  pub max_batches_per_block : ℕ
  pub shard_network : ℕ → Option ℕ
  pub shard_members : ℕ → List ℕ
  pub tss_public_key : ℕ → Option ℕ
  pub is_shard_online : ℕ → Bool
  pub gateway : ℕ → Option ℕ
  pub next_batch_size : ℕ → ℕ → Option ℕ
  pub batch_gas_limit : ℕ → ℕ
  pub shard_task_limit : ℕ → ℕ
  pub keccak256 : List ℕ → ℕ
  -- The SCALE encoding of a task id with a list of events.
  pub encode_gmp_events : ℕ → List GmpEvent → List ℕ
  -- `schnorr_evm`: whether a key, some bytes and a signature decode and agree.
  pub schnorr_verify : ℕ → List ℕ → ℕ → Bool
