-- ===== src/Tasks/Tests.antt =====
-- Tests of the model of pallets/tasks/src, and the theorems at concrete states.
use timechain.Prelude.{
  ℕ, ◌≡◌, ◌∙◌, sym, ◌<◌, ◌≤◌, ◌+◌, refl, List, [], ◌∷◌, ◌++◌, none, some, arith, u64_max, true,
  length,
}
use timechain.Storage.{get, insert, insert₂, remove₂, drain_prefix, remove, prefix}
use timechain.Outcome.{ok}
use timechain.Primitives.Task.{read_gateway_events, Output, success, failure}
use timechain.Tasks.Queue.{QueueImpl, push, pop, insert_at}
use timechain.Tasks.Queue.Slots.{collect}
use timechain.Tasks.Queue.Fifo.{view, IsValid as InOrder, view-push, pop-Pops, Pops}
use timechain.Tasks.Queue.Refinement.{pushes, pops, QueueCall, run-Agrees, Agrees}
use timechain.Tasks.State.{State, Config}
use timechain.Tasks.Core.{finish_task, create_task, read_events, read_blocks}
use timechain.Tasks.Core.Finish.{finish_task_done}
use timechain.Tasks.Interface.{shard_online, shard_offline, gateway_registered}
use timechain.Primitives.Task.{needs_registration}
use timechain.Primitives.Gmp.{gas}
use timechain.Primitives.Batch
use timechain.Primitives.Batch.{new, take_batch}
use timechain.Tasks.Queue.{skip}
use timechain.Tasks.Core.{is_shard_registered, assign_task}
use timechain.Tasks.Interface.{unassign_tasks, unassign_task, queue_op}
use timechain.Tasks.Schedule.{
  schedule_tasks, schedule_networks, schedule_network, assign_read_task, assign_queued,
  assign_shards, registered_shards, tasks_per_shard, schedule_tasks_shard,
}
use timechain.Tasks.Batches.{
  on_initialize, prepare_batches, prepare_networks, prepare_network, fill_batches, start_some,
  start_batch, note_ops, note_op,
}
use timechain.Outcome.{Origin}
use timechain.Prelude.{false, ◌⊎◌}
use timechain.Primitives.Task.{submit_error, submit_gateway_message}
use timechain.Tasks.Calls.{submit_task_result, settle}
use timechain.Tasks.Calls.Authority.{Authority, submit_task_result-Authority}
use timechain.Tasks.Schedule.Budget.{schedule_tasks_budget}
use timechain.Tasks.Batches.Conserving.{Prepared, prepare_network-Prepared}
use timechain.Primitives.Gmp.{register_shard}
use timechain.Tasks.Assignment.{ledger, IsValid}
use timechain.Tasks.Reach.{
  init, Reach, here, next, registers, onlines, offlines, initializes, Reach-IsValid,
}

-- A queue with the values 8 and 9 for network 2.
abbrev two : QueueImpl ℕ
two = record {
  insert_index = (2, 2) ∷ [];
  remove_index = [];
  queue = (2, (0, 8) ∷ (1, 9) ∷ []) ∷ [];
}

two-InOrder : InOrder two 2
unfolding get prefix
two-InOrder = record { ordered = omega arith; in_range = omega arith; at_head = λ h. refl }

two-view : view two 2 ≡ 8 ∷ 9 ∷ []
unfolding view collect get prefix
two-view = refl

abbrev calls : List (QueueCall ℕ)
calls = pops ∷ pushes 10 ∷ pops ∷ pops ∷ pops ∷ []

run-Agrees_example : Agrees two 2 (8 ∷ 9 ∷ []) calls
unfolding get
run-Agrees_example = run-Agrees two 2 (8 ∷ 9 ∷ []) calls two-InOrder room two-view
  where
    room : insert_at two 2 + length calls ≤ u64_max
    room = omega arith

-- Task 5 is assigned to shard 7 of network 2, and task 4 has its output.
abbrev assigned : State
assigned = record init {
  shard_tasks = (7, (5, tt) ∷ []) ∷ [];
  task_shard = (5, 7) ∷ [];
  shard_task_count = (7, 1) ∷ [];
  task_output = (4, success) ∷ [];
}

abbrev failed : Output
failed = failure (1 ∷ [])

finish_task_done_example : finish_task assigned 2 4 failed ≡ assigned
unfolding get
finish_task_done_example = finish_task_done assigned 2 4 success failed done
  where
    done : get assigned.task_output 4 ≡ some success
    done = refl

pop-Pops_example : Pops two 2 (pop two 2)
pop-Pops_example = pop-Pops two 2 two-InOrder

view-push_example : view (push two 2 10) 2 ≡ view two 2 ++ 10 ∷ []
unfolding get
view-push_example = view-push two 2 10 two-InOrder room
  where
    room : insert_at two 2 < u64_max
    room = omega arith

-- What the other pallets answer: network 1 has batches of 10 blocks and up to 10 tasks in a shard.
abbrev pub answers : Config
answers = record {
  max_tasks_per_block = 3;
  max_batches_per_block = 2;
  shard_network = λ shard. some 1;
  shard_members = λ shard. 11 ∷ [];
  tss_public_key = λ shard. some 33;
  is_shard_online = λ shard. true;
  gateway = λ n. some 44;
  next_batch_size = λ n block. some 10;
  batch_gas_limit = λ n. 100000;
  shard_task_limit = λ n. 10;
  keccak256 = λ bytes. 0;
  encode_gmp_events = λ t es. [];
  schnorr_verify = λ key bytes signature. true;
}

-- The gateway of network 1 is registered, shard 7 goes online, its first task is assigned, and it
-- goes offline.
abbrev registered : State
registered =
    (create_task (record init { sync_height = insert [] 1 100 }) 1 (read_gateway_events 100 110)).0

abbrev online : State
online = shard_online answers registered 7 1

abbrev scheduled : State
scheduled = on_initialize answers online

abbrev offline : State
offline = shard_offline answers scheduled 7 1

abbrev Home : ℕ → ℕ → Type 0
Home n shard = (n ≡ 1) × (shard ≡ 7)

one : (n m k : ℕ) → Home n k → Home m k → n ≡ m
one n m k h h' = h.0 ∙ sym h'.0

registers_run : gateway_registered answers init 1 100 ≡ ok registered
unfolding gateway_registered read_events read_blocks create_task insert get
registers_run = refl

counter_registered : registered.task_id_counter ≡ 1
unfolding create_task insert get needs_registration
counter_registered = refl

counter_online : online.task_id_counter ≡ 1
unfolding create_task insert get needs_registration shard_online
counter_online = refl

counter_scheduled : scheduled.task_id_counter ≡ 2
unfolding on_initialize prepare_batches prepare_networks prepare_network fill_batches start_some
    start_batch note_ops note_op new take_batch Batch.push gas push pop skip get insert prefix
    insert₂ remove₂ remove create_task needs_registration shard_online schedule_tasks
    schedule_networks schedule_network assign_read_task assign_queued assign_shards
    registered_shards tasks_per_shard schedule_tasks_shard is_shard_registered assign_task
counter_scheduled = refl

counter_offline : offline.task_id_counter ≡ 2
unfolding on_initialize prepare_batches prepare_networks prepare_network fill_batches start_some
    start_batch note_ops note_op new take_batch Batch.push gas push pop skip get insert insert₂
    remove₂ drain_prefix prefix remove create_task needs_registration shard_online schedule_tasks
    schedule_networks schedule_network assign_read_task assign_queued assign_shards
    registered_shards tasks_per_shard schedule_tasks_shard is_shard_registered assign_task
    shard_offline unassign_tasks unassign_task queue_op
counter_offline = refl

below : {n m : ℕ} → n ≡ m → m < u64_max → n < u64_max
below e h = omega arith

run_to_scheduled : Reach Home init scheduled
run_to_scheduled =
    next
      (next
        (next here (registers answers 1 100 registers_run) (below counter_registered (omega arith)))
        (onlines answers 7 1 (refl, refl) refl) (below counter_online (omega arith)))
      (initializes answers refl) (below counter_scheduled (omega arith))

run_to_offline : Reach Home init offline
run_to_offline =
    next run_to_scheduled (offlines answers 7 1 (refl, refl) refl)
      (below counter_offline (omega arith))

Reach-IsValid_example : IsValid Home (ledger offline)
Reach-IsValid_example = Reach-IsValid Home one run_to_offline

-- The read task was assigned to the shard, and then it is free again.
scheduled_read : get scheduled.task_shard 1 ≡ some 7
unfolding on_initialize prepare_batches prepare_networks prepare_network fill_batches start_some
    start_batch note_ops note_op new take_batch Batch.push gas push pop skip get insert prefix
    insert₂ remove₂ remove create_task needs_registration shard_online schedule_tasks
    schedule_networks schedule_network assign_read_task assign_queued assign_shards
    registered_shards tasks_per_shard schedule_tasks_shard is_shard_registered assign_task
scheduled_read = refl

offline_read : get offline.task_shard 1 ≡ none
unfolding on_initialize prepare_batches prepare_networks prepare_network fill_batches start_some
    start_batch note_ops note_op new take_batch Batch.push gas push pop skip get insert insert₂
    remove₂ drain_prefix prefix remove create_task needs_registration shard_online schedule_tasks
    schedule_networks schedule_network assign_read_task assign_queued assign_shards
    registered_shards tasks_per_shard schedule_tasks_shard is_shard_registered assign_task
    shard_offline unassign_tasks unassign_task queue_op
offline_read = refl

-- Two operations wait for network 1.
abbrev loaded : State
loaded = record init {
  ops = record {
    insert_index = (1, 2) ∷ [];
    remove_index = [];
    queue = (1, (0, register_shard 5) ∷ (1, register_shard 6) ∷ []) ∷ [];
  };
}

loaded-InOrder : InOrder loaded.ops 1
unfolding get prefix
loaded-InOrder = record { ordered = omega arith; in_range = omega arith; at_head = λ h. refl }

prepare_network-Prepared_example : Prepared answers loaded 1 0 (prepare_network answers loaded 1 0)
unfolding get
prepare_network-Prepared_example =
    prepare_network-Prepared answers loaded 1 0 loaded-InOrder (omega arith)

schedule_tasks_budget_example :
    length (schedule_tasks answers online).0.task_shard
    ≤ length online.task_shard + answers.max_tasks_per_block
schedule_tasks_budget_example = schedule_tasks_budget answers online (omega arith)

-- Task 5, which sends batch 3, is held by shard 7, and a member of it reports a failure.
abbrev sending : State
sending = record assigned { tasks = (5, submit_gateway_message 3) ∷ [] }

abbrev member : Origin
member = record { signer = some 11; is_admin = false }

reports : (s' : State) × (submit_task_result answers sending member 5 (submit_error []) ≡ ok s')
unfolding submit_task_result settle get
reports = (_, refl)

submit_task_result-Authority_example :
    (reports.0 ≡ sending) ⊎ Authority answers sending member 5 (submit_error [])
submit_task_result-Authority_example =
    submit_task_result-Authority answers sending reports.0 member 5 (submit_error []) reports.1
