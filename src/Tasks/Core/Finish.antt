-- ===== src/Tasks/Core/Finish.antt =====
-- What `finish_task` of pallets/tasks/src/lib.rs does on each of its branches.
use timechain.Prelude.{
  ℕ, ◌-◌, ◌≡◌, refl, none, some, ◌∷◌, arith, unwrap_or, saturating_add, u64_max, Option-cases,
  if◌then◌else◌, ◌==◌,
}
use timechain.Storage.{get, get₂, get-insert, get-insert_self, get-remove_self, get₂-remove₂}
use timechain.Primitives.Task.{Output}
use timechain.Tasks.State.{State, task_result}
use timechain.Tasks.Core.{finish_task}

-- A task that has an output is finished: finishing it again changes nothing.
pub finish_task_done :
    (s : State) (network task_id : ℕ) (first second : Output)
    → get s.task_output task_id ≡ some first
    → finish_task s network task_id second ≡ s
unfolding finish_task
finish_task_done s network task_id first second h = ground arith

-- The output of a task is written once: after a finish every task that had an output still has
-- it, and the task that was finished has its old output or the new one.
pub finish_task-output :
    (s : State) (network task_id j : ℕ) (result : Output)
    → get (finish_task s network task_id result).task_output j ≡ (
        if j == task_id
        then some (unwrap_or (get s.task_output task_id) result)
        else get s.task_output j)
unfolding finish_task
finish_task-output s network task_id j result =
    ground
      (arith, Option-cases (get s.task_shard task_id), get-insert s.task_output task_id j result)

-- What becomes of the bookkeeping when task `task_id` of `shard` is finished for `network`.
record Freed (s s' : State) (network task_id shard : ℕ) (result : Output) : Type 0 where
  stored : get s'.task_output task_id ≡ some result
  unassigned : get s'.task_shard task_id ≡ none
  released : get₂ s'.shard_tasks shard task_id ≡ none
  fewer :
      unwrap_or (get s'.shard_task_count shard) 0 ≡ unwrap_or (get s.shard_task_count shard) 0 - 1
  executed :
      unwrap_or (get s'.executed_task_count network) 0
      ≡ saturating_add u64_max (unwrap_or (get s.executed_task_count network) 0) 1
  reported : s'.events ≡ task_result task_id result ∷ s.events

-- Finishing a task that is assigned and has no output stores the output, takes the task from its
-- shard, counts one task less for the shard and one executed task more for the network, and
-- deposits the event.
finish_task-Freed :
    (s : State) (network task_id shard : ℕ) (result : Output)
    → get s.task_output task_id ≡ none
    → get s.task_shard task_id ≡ some shard
    → Freed s (finish_task s network task_id result) network task_id shard result
unfolding finish_task
finish_task-Freed s network task_id shard result fresh assigned =
    let count : ℕ = unwrap_or (get s.shard_task_count shard) 0 - 1 in
    let executed : ℕ = saturating_add u64_max (unwrap_or (get s.executed_task_count network) 0) 1 in
    rw (fresh, assigned)
      (record {
        stored = get-insert_self s.task_output task_id result;
        unassigned = get-remove_self s.task_shard task_id;
        released = ground (arith, get₂-remove₂ s.shard_tasks shard task_id shard task_id);
        fewer = rw (get-insert_self s.shard_task_count shard count);
        executed = rw (get-insert_self s.executed_task_count network executed);
        reported = refl;
      })
