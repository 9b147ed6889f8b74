-- ===== src/Runtime/Keeping.antt =====
-- The tasks of pallets/tasks/src/lib.rs that send batches, in the runtime.
use timechain.Prelude.{ℕ, ◌≡◌, ◌<◌, ◌⊎◌, inl, inr, none, some, true, arith, u64_max, refl}
use timechain.Storage.{get, get₂}
use timechain.Primitives.Task.{submit_gateway_message}
use timechain.Tasks.Queue.{insert_at}
use timechain.Tasks.Assignment.{is_pending}
use timechain.Runtime.Online.{Online}
use timechain.Runtime.Reach.{Pallets, init, Reach, runtime-IsJoined}

-- After every run of the shards pallet and the tasks pallet joined as in the runtime, a task that sends
-- a batch and has no output stands in the queue of a network, or it is in a shard that is online for
-- some network. No queue of tasks has had all the slots that its index can count, and shard ids and
-- task ids do not run out.
pub batch_task_kept :
    (E : Type 0) {p : Pallets}
    → Reach E init p
    → (t batch : ℕ) → get p.tasks.tasks t ≡ some (submit_gateway_message batch)
    → get p.tasks.task_output t ≡ none
    → ((n : ℕ) → insert_at p.tasks.ua_tasks n < u64_max)
    → ((n : ℕ) × (i : ℕ) × (get₂ p.tasks.ua_tasks.queue n i ≡ some t))
      ⊎ ((k : ℕ) × (n : ℕ) × (get p.tasks.task_shard t ≡ some k) × Online p.shards n k)
batch_task_kept E {p} run t batch sends no_output room =
    let v = (runtime-IsJoined E run).assigned in
    let pending : is_pending (get p.tasks.tasks t) (get p.tasks.task_output t) ≡ true =
      rw (sends, no_output) refl in
    elim (v.kept t pending) [
      | inl queued ↦ inl queued
      | inr (inl (k, held)) ↦ let (n, home) = v.alive t k held in inr (k, n, held, home)
      | inr (inr (n, full)) ↦ absurd (omega (arith, room n, full))
    ]
