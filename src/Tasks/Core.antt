-- ===== src/Tasks/Core.antt =====
-- The internal functions of pallets/tasks/src/lib.rs that make, assign and finish tasks.
pub mod Finish
use timechain.Prelude.{
  ℕ, Bool, false, Option, none, some, List, ◌∷◌, if◌then◌else◌, unwrap_or, saturating_add,
  saturating_sub, u32_max, u64_max,
}
use timechain.Storage.{get, insert, remove, contains_key, insert₂, remove₂}
use timechain.Outcome.{Outcome, ok, panic, ◌>>=◌, unknown_shard, invalid_signature, ok_or, ensure}
use timechain.Primitives.Task.{Task, read_gateway_events, needs_registration, Output}
use timechain.Tasks.Queue
use timechain.Tasks.State.{State, Config, task_created, task_result}

-- Where a new task waits: a read task in its network's slot, any other in the queue.
file_task : State → ℕ → Task → ℕ → State
file_task s network task task_id =
    if needs_registration task
    then record s { ua_tasks = Queue.push s.ua_tasks network task_id }
    else record s { read_events_task = insert s.read_events_task network task_id }

unfoldable pub create_task : State → ℕ → Task → State × ℕ
unfolding file_task
create_task s network task =
    let task_id = saturating_add u64_max s.task_id_counter 1 in
    let stored : State = record s {
      tasks = insert s.tasks task_id task;
      task_network = insert s.task_network task_id network;
      task_id_counter = task_id;
    } in
    let filed = file_task stored network task task_id in
    let count = saturating_add u64_max (unwrap_or (get filed.task_count network) 0) 1 in
    (
      record filed {
        task_count = insert filed.task_count network count;
        events = task_created task_id ∷ filed.events;
      },
      task_id,
    )

-- The task leaves its shard, and counts as executed by its network.
release_task : State → ℕ → ℕ → ℕ → State
release_task s network task_id shard = record s {
  task_shard = remove s.task_shard task_id;
  shard_tasks = remove₂ s.shard_tasks shard task_id;
  shard_task_count =
      insert s.shard_task_count shard
        (saturating_sub (unwrap_or (get s.shard_task_count shard) 0) 1);
  executed_task_count =
      insert s.executed_task_count network
        (saturating_add u64_max (unwrap_or (get s.executed_task_count network) 0) 1);
}

release_assigned : State → ℕ → ℕ → Option ℕ → State
release_assigned s network task_id none = s
release_assigned s network task_id (some shard) = release_task s network task_id shard

unfoldable pub finish_task : State → ℕ → ℕ → Output → State
unfolding release_assigned release_task
finish_task s network task_id result =
    if contains_key s.task_output task_id
    then s
    else let stored : State = record s { task_output = insert s.task_output task_id result } in
      let freed = release_assigned stored network task_id (get stored.task_shard task_id) in
      record freed { events = task_result task_id result ∷ freed.events }

unfoldable pub assign_task : State → ℕ → ℕ → State
assign_task s shard task_id = record s {
  shard_tasks = insert₂ s.shard_tasks shard task_id tt;
  task_shard = insert s.task_shard task_id shard;
  shard_task_count =
      insert s.shard_task_count shard
        (saturating_add u32_max (unwrap_or (get s.shard_task_count shard) 0) 1);
}

-- A read task for the next blocks, of the size that the networks pallet answers.
unfoldable pub read_blocks : State → ℕ → ℕ → Option ℕ → Outcome (State × ℕ)
read_blocks s network block none = panic
read_blocks s network block (some size) =
    ok (create_task s network (read_gateway_events block (saturating_add u64_max block size)))

module _ (cfg : Config) where
  -- `read_gateway_events`, the function of the source.
  unfoldable pub read_events : State → ℕ → Outcome (State × ℕ)
  read_events s network =
      let block = unwrap_or (get s.sync_height network) 0 in
      read_blocks s network block (cfg.next_batch_size network block)

  unfoldable pub verify_signature : ℕ → List ℕ → ℕ → Outcome (Unit {0})
  verify_signature shard bytes signature = do
    key ← ok_or (cfg.tss_public_key shard) unknown_shard
    ensure (cfg.schnorr_verify key bytes signature) invalid_signature

  unfoldable pub is_shard_registered : State → ℕ → Bool
  is_shard_registered s shard = elim (cfg.tss_public_key shard) [
    | none ↦ false
    | some key ↦ contains_key s.shard_registered key
  ]
