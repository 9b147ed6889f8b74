-- ===== src/Tasks/Reach.antt =====
-- The runs of the tasks pallet: any sequence of its extrinsics, its block hook and the calls of the
-- other pallets, in any order.
use mathlib.Core.Path.{subst}
use timechain.Prelude.{ℕ, ◌<◌, ◌≡◌, [], u64_max, List}
use timechain.Storage.{get, prefix}
use timechain.Outcome.{Outcome, ok, Origin, After}
use timechain.Primitives.Gmp.{GmpEvent}
use timechain.Primitives.Task.{TaskResult}
use timechain.Tasks.Queue.{QueueImpl}
use timechain.Tasks.State.{State, Config}
use timechain.Tasks.Calls.{
  submit_task_result, submit_gmp_events, sync_network, stop_network, remove_task, restart_batch,
}
use timechain.Tasks.Interface.{shard_online, shard_offline, gateway_registered}
use timechain.Tasks.Schedule.Rule.{schedule_tasks_counter}
use timechain.Tasks.Batches.{prepare_batches, on_initialize}
use timechain.Tasks.Assignment.{ledger, IsValid}
use timechain.Tasks.Assignment.Counting.{rehome-IsValid}
use timechain.Tasks.Assignment.Scheduling.{schedule_tasks-IsValid}
use timechain.Tasks.Assignment.Preparing.{prepare_batches-IsValid}
use timechain.Tasks.Assignment.Submitting.{Sound, submit_task_result-Sound}
use timechain.Tasks.Assignment.Governing.{
  submit_gmp_events-Sound, sync_network-Sound, stop_network-Sound, remove_task-Sound,
  restart_batch-Sound,
}
use timechain.Tasks.Assignment.Interfacing.{
  shard_online-IsValid, shard_offline-IsValid, gateway_registered-Sound,
}

-- The pallet before anything has happened.
abbrev pub empty_queue : {V : Type 0} → QueueImpl V
empty_queue = record { insert_index = []; remove_index = []; queue = [] }

abbrev pub init : State
init = record {
  ua_tasks = empty_queue;
  ops = empty_queue;
  shard_tasks = [];
  task_shard = [];
  network_shards = [];
  task_id_counter = 0;
  task_count = [];
  executed_task_count = [];
  shard_task_count = [];
  tasks = [];
  task_output = [];
  task_network = [];
  shard_register_batch_id = [];
  shard_unregister_batch_id = [];
  shard_registered = [];
  read_events_task = [];
  sync_height = [];
  message_received_task_id = [];
  message_executed_task_id = [];
  message_batch_id = [];
  batch_id_counter = 0;
  batch_message = [];
  batch_task_id = [];
  pending_batches = [];
  failed_batch_ids = [];
  batch_tx_hash = [];
  events = [];
}

-- One step: `cfg` is what the other pallets answer at that time. A shard goes online or offline for
-- the network that it may work for.
pub data Step (Home : ℕ → ℕ → Type 0) (s s' : State) : Type 0 where
  submits :
      (cfg : Config) (o : Origin) (t : ℕ) (r : TaskResult)
      → submit_task_result cfg s o t r ≡ ok s'
      → Step Home s s'
  injects :
      (cfg : Config) (o : Origin) (n : ℕ) (es : List GmpEvent)
      → submit_gmp_events cfg s o n es ≡ ok s'
      → Step Home s s'
  syncs :
      (cfg : Config) (o : Origin) (n block : ℕ)
      → sync_network cfg s o n block ≡ ok s'
      → Step Home s s'
  stops : (cfg : Config) (o : Origin) (n : ℕ) → stop_network cfg s o n ≡ ok s' → Step Home s s'
  removes : (cfg : Config) (o : Origin) (t : ℕ) → remove_task cfg s o t ≡ ok s' → Step Home s s'
  restarts : (cfg : Config) (o : Origin) (b : ℕ) → restart_batch cfg s o b ≡ ok s' → Step Home s s'
  initializes : (cfg : Config) → on_initialize cfg s ≡ s' → Step Home s s'
  onlines :
      (cfg : Config) (shard n : ℕ) → Home n shard → shard_online cfg s shard n ≡ s' → Step Home s s'
  offlines :
      (cfg : Config) (shard n : ℕ)
      → Home n shard
      → shard_offline cfg s shard n ≡ s'
      → Step Home s s'
  registers :
      (cfg : Config) (n block : ℕ) → gateway_registered cfg s n block ≡ ok s' → Step Home s s'

-- A run in which task ids never reach the largest number of their type.
pub data Reach (Home : ℕ → ℕ → Type 0) (s : State) : State → Type 0 where
  here : Reach Home s s
  next :
      {t u : State} → Reach Home s t → Step Home t u → u.task_id_counter < u64_max → Reach Home s u

module _ (Home : ℕ → ℕ → Type 0) (one : (n m k : ℕ) → Home n k → Home m k → n ≡ m) where
  after_ok : {A : Type 0} (P : A → Type 0) (m : Outcome A) {a : A} → After P m → m ≡ ok a → P a
  after_ok P m h e = subst (After P) e h

  on_initialize-Sound :
      (cfg : Config) (s : State) → IsValid Home (ledger s) → Sound Home cfg (on_initialize cfg s)
  unfolding on_initialize
  on_initialize-Sound cfg s v room =
      let prepared = (prepare_batches cfg s).0 in
      schedule_tasks-IsValid Home cfg prepared (
        prepare_batches-IsValid Home cfg s v
          (subst (λ c. c < u64_max) (schedule_tasks_counter cfg prepared) room))

  -- Every step keeps the assignment valid.
  pub Step-IsValid :
      (s s' : State)
      → IsValid Home (ledger s)
      → Step Home s s'
      → s'.task_id_counter < u64_max
      → IsValid Home (ledger s')
  Step-IsValid s s' v (submits cfg o t r e) =
      after_ok (Sound Home cfg) (submit_task_result cfg s o t r)
        (submit_task_result-Sound Home cfg s o t r v) e
  Step-IsValid s s' v (injects cfg o n es e) =
      after_ok (Sound Home cfg) (submit_gmp_events cfg s o n es)
        (submit_gmp_events-Sound Home cfg s v o n es) e
  Step-IsValid s s' v (syncs cfg o n b e) =
      after_ok (Sound Home cfg) (sync_network cfg s o n b) (sync_network-Sound Home cfg s v o n b) e
  Step-IsValid s s' v (stops cfg o n e) =
      after_ok (Sound Home cfg) (stop_network cfg s o n) (stop_network-Sound Home cfg s v o n) e
  Step-IsValid s s' v (removes cfg o t e) =
      after_ok (Sound Home cfg) (remove_task cfg s o t) (remove_task-Sound Home cfg s v o t) e
  Step-IsValid s s' v (restarts cfg o b e) =
      after_ok (Sound Home cfg) (restart_batch cfg s o b) (restart_batch-Sound Home cfg s v o b) e
  Step-IsValid s s' v (initializes cfg e) = subst (Sound Home cfg) e (on_initialize-Sound cfg s v)
  Step-IsValid s s' v (onlines cfg shard n made e) =
      λ _. subst (λ x. IsValid Home (ledger x)) e (shard_online-IsValid Home cfg s v shard n made)
  Step-IsValid s s' v (offlines cfg shard n made e) = λ _.
      subst (λ x. IsValid Home (ledger x)) e
        (rehome-IsValid (λ m k. Home m k × (k ≡ shard → ⊥)) Home _ (λ m t k h w. w.0)
          (λ m k h w. w.0)
          (shard_offline-IsValid Home cfg s v shard n (λ m h. one m n shard h made)))
  Step-IsValid s s' v (registers cfg n b e) =
      after_ok (Sound Home cfg) (gateway_registered cfg s n b)
        (gateway_registered-Sound Home cfg s v n b) e

  pub init-IsValid : IsValid Home (ledger init)
  unfolding get prefix
  init-IsValid = record {
    held = λ k t h. cc;
    listed = λ t k h. cc;
    waiting = λ n i t h. cc;
    once = λ n i m j t h k. cc;
    unread = λ n t m i r h. cc;
    read_once = λ n m t a b. cc;
    read_home = λ n t k r h. absurd cc;
    alive = λ t k h. absurd cc;
    kept = λ t h. absurd cc;
    unread_pending = λ n t r h. absurd cc;
    within = λ n i t h. absurd cc;
    members = λ n k h. absurd cc;
    known_slot = λ n i t h. cc;
    known_held = λ t k h. cc;
    known_read = λ n t h. cc;
    unique_shards = λ k. tt;
    unique_read = tt;
  }

  -- After every run the assignment is valid: the two maps between tasks and shards agree, a queued
  -- task is in no shard and in one slot only, a task is only ever in a shard that may work for some
  -- network, and the read task of a network is not queued and only ever in a shard that may work for
  -- that network. A task that sends a batch and has no output is queued or in a shard, unless a queue
  -- has had all its slots. A shard may work for one network at most, goes online and offline for that
  -- one, and the task ids of every step stay below the largest number of their type.
  pub Reach-IsValid : {s : State} → Reach Home init s → IsValid Home (ledger s)
  Reach-IsValid here = init-IsValid
  Reach-IsValid (next {t} {u} r st room) = Step-IsValid t u (Reach-IsValid r) st room
