-- ===== src/Tasks/Interface.antt =====
-- `TasksInterface` of pallets/tasks/src/lib.rs: what the shards and networks pallets call.
use timechain.Prelude.{
  ℕ, Option, none, some, [], ◌∷◌, ◌==◌, not, if◌then◌else◌, Bool, false, is_some,
}
use timechain.Storage.{Map, get, insert, remove, prefix, insert₂, remove₂, drain_prefix}
use timechain.Outcome.{Outcome, ok, ◌>>=◌}
use timechain.Primitives.Gmp.{GatewayOp, register_shard, unregister_shard}
use timechain.Tasks.Queue
use timechain.Tasks.State.{State, Config}
use timechain.Tasks.Core.{read_events}

unfoldable pub queue_op : State → ℕ → (ℕ → GatewayOp) → Option ℕ → State
queue_op s network op none = s
queue_op s network op (some key) = record s { ops = Queue.push s.ops network (op key) }

-- Whether `Some(task_id)` is the network's read task.
abbrev pub is_read_task : Option ℕ → ℕ → Bool
is_read_task none task_id = false
is_read_task (some read) task_id = task_id == read

-- A task of a shard that went offline: a read task stays where it is, any other is queued again.
unfoldable pub unassign_task : State → ℕ → Option ℕ → ℕ → State
unassign_task s network read_events_task_id task_id =
    let freed : State = record s { task_shard = remove s.task_shard task_id } in
    if not (is_read_task read_events_task_id task_id)
    then record freed { ua_tasks = Queue.push freed.ua_tasks network task_id }
    else freed

unfoldable pub unassign_tasks : State → ℕ → Option ℕ → Map (Unit {0}) → State
unassign_tasks s network read [] = s
unassign_tasks s network read ((task_id, _) ∷ tasks) =
    unassign_tasks (unassign_task s network read task_id) network read tasks

module _ (cfg : Config) where
  unfoldable pub shard_online : State → ℕ → ℕ → State
  unfolding queue_op
  shard_online s shard_id network =
      let joined : State = record s {
        network_shards = insert₂ s.network_shards network shard_id tt;
      } in
      if is_some (cfg.gateway network)
      then queue_op joined network register_shard (cfg.tss_public_key shard_id)
      else joined

  unfoldable pub shard_offline : State → ℕ → ℕ → State
  unfolding queue_op
  shard_offline s shard_id network =
      let left : State = record s { network_shards = remove₂ s.network_shards network shard_id } in
      let read_events_task_id = get left.read_events_task network in
      let drained : State = record left { shard_tasks = drain_prefix left.shard_tasks shard_id } in
      let freed =
        unassign_tasks drained network read_events_task_id (prefix left.shard_tasks shard_id) in
      let reset : State = record freed {
        shard_task_count = insert freed.shard_task_count shard_id 0;
      } in
      queue_op reset network unregister_shard (cfg.tss_public_key shard_id)

  unfoldable pub gateway_registered : State → ℕ → ℕ → Outcome State
  gateway_registered s network block =
      read_events cfg (record s { sync_height = insert s.sync_height network block }) network
      >>= λ r. ok r.0
