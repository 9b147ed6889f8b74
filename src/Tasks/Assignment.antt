-- ===== src/Tasks/Assignment.antt =====
-- Which shard holds which task: the part of the state of pallets/tasks/src/lib.rs that says so, and
-- the invariant that it keeps.
pub mod Updates
pub mod Adding
pub mod Counting
pub mod Steps
pub mod Popping
pub mod Scheduling
pub mod Processing
pub mod Preparing
pub mod Submitting
pub mod Reopening
pub mod Governing
pub mod Draining
pub mod Interfacing
use timechain.Prelude.{
  ℕ, ◌≤◌, ◌<◌, ◌≡◌, ◌⊎◌, Bool, true, false, Option, none, some, is_none, if◌then◌else◌, u64_max,
}
use timechain.Storage.{Map, get, get₂, prefix, Unique}
use timechain.Primitives.Task.{Task, read_gateway_events, submit_gateway_message, Output}
use timechain.Tasks.Queue.{insert_at}
use timechain.Tasks.State.{State}

-- The storages that an assignment reads, as the lookups that they answer.
pub record Ledger : Type 0 where
  -- `UATasks`: the task in a slot of a network's queue.
  pub slot : ℕ → ℕ → Option ℕ
  -- `ShardTasks` and `TaskShard`.
  pub shard_map : ℕ → Map (Unit {0})
  pub shard_of : ℕ → Option ℕ
  -- `NetworkShards`.
  pub member : ℕ → ℕ → Option (Unit {0})
  -- `ReadEventsTask`.
  pub read_map : Map ℕ
  -- `TaskIdCounter`.
  pub counter : ℕ
  -- Whether a task sends a batch and has no output yet.
  pub pending : ℕ → Bool
  -- The slot that is next in a network's queue.
  pub end : ℕ → ℕ

abbrev pub is_pending : Option Task → Option Output → Bool
is_pending none output = false
is_pending (some (read_gateway_events start end)) output = false
is_pending (some (submit_gateway_message batch)) output = is_none output

abbrev pub ledger : State → Ledger
ledger s = record {
  slot = get₂ s.ua_tasks.queue;
  shard_map = prefix s.shard_tasks;
  shard_of = get s.task_shard;
  member = get₂ s.network_shards;
  read_map = s.read_events_task;
  counter = s.task_id_counter;
  pending = λ t. is_pending (get s.tasks t) (get s.task_output t);
  end = insert_at s.ua_tasks;
}

-- The ledger where some tasks do not count as pending.
abbrev pub except : (ℕ → Bool) → Ledger → Ledger
except hidden l = record l { pending = λ t. if hidden t then false else l.pending t }

abbrev pub holds : Ledger → ℕ → ℕ → Option (Unit {0})
holds l shard t = get (l.shard_map shard) t

abbrev pub read : Ledger → ℕ → Option ℕ
read l n = get l.read_map n

-- The queue of some network has had all its slots.
abbrev pub IsFull : Ledger → Type 0
IsFull l = (n : ℕ) × (u64_max ≤ l.end n)

-- The task is queued or in a shard, unless a queue has had all its slots.
abbrev pub IsPlaced : Ledger → ℕ → Type 0
IsPlaced l t =
    ((n : ℕ) × (i : ℕ) × (l.slot n i ≡ some t)) ⊎ (((k : ℕ) × (l.shard_of t ≡ some k)) ⊎ IsFull l)

-- `Home n shard` says that a shard may work for network `n`.
pub record IsValid (Home : ℕ → ℕ → Type 0) (l : Ledger) : Type 0 where
  -- The two maps between tasks and shards agree: a task is in at most one shard.
  pub held : (shard t : ℕ) → holds l shard t ≡ some tt → l.shard_of t ≡ some shard
  pub listed : (t shard : ℕ) → l.shard_of t ≡ some shard → holds l shard t ≡ some tt
  -- A queued task is in no shard, and stands in one slot of one queue.
  pub waiting : (n i t : ℕ) → l.slot n i ≡ some t → l.shard_of t ≡ none
  pub once : (n i m j t : ℕ) → l.slot n i ≡ some t → l.slot m j ≡ some t → (n ≡ m) × (i ≡ j)
  -- A network's read task is not queued, belongs to no other network, and is only ever in a shard
  -- of its network.
  pub unread : (n t m i : ℕ) → read l n ≡ some t → l.slot m i ≡ some t → ⊥
  pub read_once : (n m t : ℕ) → read l n ≡ some t → read l m ≡ some t → n ≡ m
  pub read_home : (n t shard : ℕ) → read l n ≡ some t → l.shard_of t ≡ some shard → Home n shard
  -- A task is only ever in a shard that may work, and the shards of a network may work for it.
  pub alive : (t shard : ℕ) → l.shard_of t ≡ some shard → (n : ℕ) × Home n shard
  pub members : (n shard : ℕ) → l.member n shard ≡ some tt → Home n shard
  -- No task that sends a batch is lost, and no read task is one; a slot that is in use comes before
  -- the next one.
  pub kept : (t : ℕ) → l.pending t ≡ true → IsPlaced l t
  pub unread_pending : (n t : ℕ) → read l n ≡ some t → l.pending t ≡ true → ⊥
  pub within : (n i t : ℕ) → l.slot n i ≡ some t → (i < l.end n) ⊎ (u64_max ≤ l.end n)
  -- Every task id in use has been given out.
  pub known_slot : (n i t : ℕ) → l.slot n i ≡ some t → t ≤ l.counter
  pub known_held : (t shard : ℕ) → l.shard_of t ≡ some shard → t ≤ l.counter
  pub known_read : (n t : ℕ) → read l n ≡ some t → t ≤ l.counter
  -- The maps that are iterated over have no key twice.
  pub unique_shards : (shard : ℕ) → Unique (l.shard_map shard)
  pub unique_read : Unique l.read_map
