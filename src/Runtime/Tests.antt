-- ===== src/Runtime/Tests.antt =====
-- Tests of the shards and tasks pallets as the runtime joins them, and the theorem at a concrete run.
use timechain.Prelude.{
  ℕ, none, ◌⊎◌, ◌==◌, ◌≡◌, ◌<◌, refl, some, Bool-cases, inl, inr, [], ◌∷◌, arith, u64_max, false,
}
use timechain.Storage.{get, get₂, insert, insert₂, prefix, remove, remove₂}
use timechain.Outcome.{ok, Origin}
use timechain.Shards as Shards
use timechain.Shards.{
  added, committed, ready, created, group_committed, online, shard_created, shard_committed,
}
use timechain.Shards.Calls.{
  commit, execute_commit, commit_shard, commitments, group_commitment, add_all, mark_ready,
  execute_ready, ready_shard,
}
use timechain.Shards.Interface.{create_shard, add_members, tss_public_key}
use timechain.Tasks.State as Tasks
use timechain.Tasks.Batches.{
  on_initialize, prepare_batches, prepare_networks, prepare_network, fill_batches, start_some,
  start_batch, note_ops, note_op,
}
use timechain.Tasks.Core.{read_events, read_blocks, create_task, is_shard_registered, assign_task}
use timechain.Tasks.Interface.{shard_online, gateway_registered, queue_op}
use timechain.Tasks.Queue.{push, pop, skip, insert_at}
use timechain.Tasks.Schedule.{
  schedule_tasks, schedule_networks, schedule_network, assign_read_task, assign_queued,
  assign_shards, registered_shards, tasks_per_shard, schedule_tasks_shard,
}
use timechain.Tasks.Tests as TaskTests
use timechain.Shards.Tests as ShardTests
use timechain.Primitives.Task.{needs_registration, read_gateway_events, submit_gateway_message}
use timechain.Primitives.Gmp.{gas}
use timechain.Primitives.Batch
use timechain.Primitives.Batch.{new, take_batch}
use timechain.Runtime.{tasks_config, shards_config}
use timechain.Runtime.Effects.{IsJoined}
use timechain.Runtime.Online.{Online}
use timechain.Runtime.Keeping.{batch_task_kept}
use timechain.Runtime.Reach.{
  Pallets, init, Reach, here, next, creates, commits, readies, registers, schedules,
  runtime-IsJoined,
}

abbrev both : Shards.Config (Unit {0} × Tasks.State)
both = shards_config ShardTests.answers TaskTests.answers

-- Member 21 alone is shard 0 of network 4; it commits, is ready, and reads the gateway.
abbrev made : Shards.State
made = record init.shards {
  shard_id_counter = 1;
  shard_network = (0, 4) ∷ [];
  shard_state = (0, created) ∷ [];
  dkg_timeout_counter = (17, 1) ∷ [];
  dkg_timeout = (17, (0, tt) ∷ []) ∷ [];
  shard_threshold = (0, 1) ∷ [];
  member_shard = (21, 0) ∷ [];
  shard_members = (0, (21, added) ∷ []) ∷ [];
  shard_members_online = (0, 1) ∷ [];
  events = shard_created 0 4 ∷ [];
}

abbrev keyed : Shards.State
keyed = record made {
  shard_members = (0, (21, committed (31 ∷ [])) ∷ []) ∷ [];
  shard_commitment = (0, 31 ∷ []) ∷ [];
  shard_state = (0, group_committed) ∷ [];
  events = shard_committed 0 (31 ∷ []) ∷ made.events;
}

abbrev working : Shards.State
working = record keyed {
  shard_members = (0, (21, ready) ∷ []) ∷ [];
  shard_state = (0, online) ∷ [];
  events = Shards.shard_online 0 31 ∷ keyed.events;
}

abbrev member : Origin
member = record { signer = some 21; is_admin = false }

creates_made : create_shard both init.shards 7 4 (21 ∷ []) 1 ≡ ok (made, 0)
unfolding create_shard add_members insert insert₂ prefix get
creates_made = refl

commits_keyed : commit both made (tt, init.tasks) member 0 (31 ∷ []) 9 ≡ ok keyed
unfolding commit execute_commit commit_shard commitments group_commitment add_all insert insert₂
    prefix get
commits_keyed = refl

abbrev joined : Tasks.State
joined = shard_online (tasks_config TaskTests.answers working) init.tasks 0 4

readies_working : mark_ready both keyed (tt, init.tasks) member 0 ≡ ok (working, (tt, joined))
unfolding mark_ready execute_ready ready_shard insert insert₂ prefix get
readies_working = refl

abbrev registered : Tasks.State
registered =
    (create_task (record joined { sync_height = insert [] 4 100 }) 4
      (read_gateway_events 100 110)).0

registers_run :
    gateway_registered (tasks_config TaskTests.answers working) joined 4 100 ≡ ok registered
unfolding gateway_registered read_events read_blocks insert get create_task shard_online queue_op
    tss_public_key push insert₂ prefix
registers_run = refl

abbrev scheduled : Tasks.State
scheduled = on_initialize (tasks_config TaskTests.answers working) registered

abbrev running : Pallets
running = record { shards = working; tasks = scheduled }

below : {n m : ℕ} → n ≡ m → m < u64_max → n < u64_max
below e h = omega arith

counter_registered : registered.task_id_counter ≡ 1
unfolding shard_online queue_op tss_public_key push insert insert₂ prefix get create_task
    needs_registration
counter_registered = refl

counter_scheduled : scheduled.task_id_counter ≡ 2
unfolding on_initialize prepare_batches prepare_networks prepare_network fill_batches start_some
    start_batch note_ops note_op new take_batch Batch.push gas push pop skip get insert prefix
    insert₂ remove₂ remove create_task needs_registration shard_online schedule_tasks
    schedule_networks schedule_network assign_read_task assign_queued assign_shards
    registered_shards tasks_per_shard schedule_tasks_shard is_shard_registered assign_task queue_op
    tss_public_key
counter_scheduled = refl

run_to_running : Reach (Unit {0}) init running
run_to_running =
    let answers = TaskTests.answers in
    next
      (next
        (next
          (next
            (next here (
              creates ShardTests.answers answers 7 4 (21 ∷ []) 1 0 (omega arith) creates_made refl))
            (commits ShardTests.answers answers tt member 0 (31 ∷ []) 9 commits_keyed refl))
          (readies ShardTests.answers answers tt tt member 0 readies_working))
        (registers answers 4 100 registers_run (below counter_registered (omega arith)) refl))
      (schedules answers refl (below counter_scheduled (omega arith)) refl)

runtime-IsJoined_example : IsJoined working scheduled
runtime-IsJoined_example = runtime-IsJoined (Unit {0}) run_to_running

-- The read task of the network is in the shard.
scheduled_read : get scheduled.task_shard 1 ≡ some 0
unfolding on_initialize prepare_batches prepare_networks prepare_network fill_batches start_some
    start_batch note_ops note_op new take_batch Batch.push gas push pop skip get insert prefix
    insert₂ remove₂ remove create_task needs_registration shard_online schedule_tasks
    schedule_networks schedule_network assign_read_task assign_queued assign_shards
    registered_shards tasks_per_shard schedule_tasks_shard is_shard_registered assign_task queue_op
    tss_public_key
scheduled_read = refl

-- The task that registers the shard waits in the queue.
batch_task_kept_example :
    ((n : ℕ) × (i : ℕ) × (get₂ scheduled.ua_tasks.queue n i ≡ some 2))
    ⊎ ((k : ℕ) × (n : ℕ) × (get scheduled.task_shard 2 ≡ some k) × Online working n k)
unfolding on_initialize prepare_batches prepare_networks prepare_network fill_batches start_some
    start_batch note_ops note_op new take_batch Batch.push gas push pop skip get insert prefix
    insert₂ remove₂ remove create_task needs_registration shard_online schedule_tasks
    schedule_networks schedule_network assign_read_task assign_queued assign_shards
    registered_shards tasks_per_shard schedule_tasks_shard is_shard_registered assign_task queue_op
    tss_public_key
batch_task_kept_example = batch_task_kept (Unit {0}) run_to_running 2 0 sends no_output room
  where
    sends : get scheduled.tasks 2 ≡ some (submit_gateway_message 0)
    sends = refl

    no_output : get scheduled.task_output 2 ≡ none
    no_output = refl

    room : (n : ℕ) → insert_at scheduled.ua_tasks n < u64_max
    room n = elim (Bool-cases (n == 4)) [
      | inl same ↦ rw same (omega arith)
      | inr other ↦ rw other (omega arith)
    ]
