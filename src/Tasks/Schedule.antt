-- ===== src/Tasks/Schedule.antt =====
-- `schedule_tasks` of pallets/tasks/src/lib.rs. Its result is the state and the number that it
-- hands to the weight function.
pub mod Rule
pub mod Budget
use timechain.Prelude.{
  ℕ, zero, suc, ◌/◌, ◌%◌, min, ◌&&◌, none, some, List, [], ◌∷◌, ltb, ◌==◌, if◌then◌else◌, unwrap_or,
  is_none, is_empty, length, retain, saturating_add, saturating_sub, wrapping_add, wrapping_sub,
  u32_max, u32_mod, u64_mod,
}
use timechain.Storage.{Map, get, keys, prefix}
use timechain.Tasks.Queue
use timechain.Tasks.State.{State, Config}
use timechain.Tasks.Core.{assign_task, is_shard_registered}

-- Where a loop goes on with the state and the count, or the function returns with the state.
pub data Flow : Type 0 where
  continue : State → ℕ → Flow
  return : State → Flow

-- The tasks that a shard holds.
abbrev pub held : State → ℕ → ℕ
held s shard = unwrap_or (get s.shard_task_count shard) 0

-- The `for` loop over the capacity, which breaks when the queue is empty.
unfoldable pub schedule_tasks_shard : ℕ → State → ℕ → ℕ → State × ℕ
schedule_tasks_shard zero s network shard = (s, 0)
schedule_tasks_shard (suc capacity) s network shard =
    let (queue, popped) = Queue.pop s.ua_tasks network in
    elim popped [
      | none ↦ (record s { ua_tasks = queue }, 0)
      | some task ↦
          let (s', n) =
            schedule_tasks_shard capacity (assign_task (record s { ua_tasks = queue }) shard task)
              network shard in
          (s', saturating_add u32_max n 1)
    ]

module _ (cfg : Config) where
  -- The read task goes to the first shard of the network with room for it.
  unfoldable pub assign_read_task : List ℕ → State → ℕ → ℕ → ℕ → Flow
  assign_read_task [] s assigned limit task_id = continue s assigned
  assign_read_task (shard ∷ shards) s assigned limit task_id =
      if ltb (held s shard) limit
      then if assigned == cfg.max_tasks_per_block
        then return s
        else continue (assign_task s shard task_id) (saturating_add u32_max assigned 1)
      else assign_read_task shards s assigned limit task_id

  -- The shards of the network that are registered and online.
  unfoldable pub registered_shards : State → ℕ → List ℕ
  registered_shards s network =
      retain (λ shard. is_shard_registered cfg s shard && cfg.is_shard_online shard)
        (keys (prefix s.network_shards network))

  -- `(x - 1) / y + 1` on `u32`, after a subtraction on `u64` and a cast.
  unfoldable pub tasks_per_shard : State → ℕ → ℕ → ℕ
  tasks_per_shard s network shards =
      let task_count = unwrap_or (get s.task_count network) 0 in
      let executed_task_count = unwrap_or (get s.executed_task_count network) 0 in
      let assignable_task_count = wrapping_sub u64_mod task_count executed_task_count in
      min
        (wrapping_add u32_mod (wrapping_sub u32_mod (assignable_task_count % u32_mod) 1 / shards) 1)
        (cfg.shard_task_limit network)

  -- The `for` loop over the registered shards of a network.
  unfoldable pub assign_shards : List ℕ → State → ℕ → ℕ → ℕ → Flow
  assign_shards [] s network assigned per_shard = continue s assigned
  assign_shards (shard ∷ shards) s network assigned per_shard =
      let capacity = saturating_sub per_shard (held s shard) in
      let (s', n) = schedule_tasks_shard capacity s network shard in
      let rest = assign_shards shards s' network (saturating_add u32_max assigned n) per_shard in
      if ltb (saturating_add u32_max assigned capacity) cfg.max_tasks_per_block
      then rest
      else return
          (schedule_tasks_shard (saturating_sub cfg.max_tasks_per_block assigned) s network shard).0

  -- The second half of the loop over the networks.
  unfoldable pub assign_queued : State → ℕ → ℕ → Flow
  assign_queued s network assigned =
      let shards = registered_shards s network in
      if is_empty shards
      then continue s assigned
      else assign_shards shards s network assigned (tasks_per_shard s network (length shards))

  unfoldable pub schedule_network : State → ℕ → ℕ → ℕ → Flow
  schedule_network s assigned network task_id =
      let read =
        if is_none (get s.task_shard task_id)
        then assign_read_task (keys (prefix s.network_shards network)) s assigned
            (cfg.shard_task_limit network) task_id
        else continue s assigned in
      elim read [
        | continue s' assigned' ↦ assign_queued s' network assigned'
        | return s' ↦ return s'
      ]

  unfoldable pub schedule_networks : Map ℕ → State → ℕ → State × ℕ
  schedule_networks [] s assigned = (s, assigned)
  schedule_networks ((network, task_id) ∷ networks) s assigned =
      elim (schedule_network s assigned network task_id) [
        | continue s' assigned' ↦ schedule_networks networks s' assigned'
        | return s' ↦ (s', cfg.max_tasks_per_block)
      ]

  unfoldable pub schedule_tasks : State → State × ℕ
  schedule_tasks s = schedule_networks s.read_events_task s 0
