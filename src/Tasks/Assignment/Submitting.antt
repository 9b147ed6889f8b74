-- ===== src/Tasks/Assignment/Submitting.antt =====
-- The extrinsics of pallets/tasks/src/lib.rs keep the assignment valid.
use timechain.Prelude.{
  ℕ, false, ◌<◌, inl, inr, Option, none, some, List, u64_max, subst, Bool-cases, ◌==◌, unwrap_or,
  contains,
}
use timechain.Storage.{get, contains_key}
use timechain.Outcome.{
  ok, Origin, ensure, ensure_signed, ok_or, unknown_task, unassigned_task, unknown_shard,
  invalid_signer, After, After-bind, After-skip,
}
use timechain.Primitives.Gmp.{GmpEvent}
use timechain.Primitives.Task.{
  Task, read_gateway_events, submit_gateway_message, TaskResult, read_result, submit_error, Output,
}
use timechain.Tasks.State.{State, Config}
use timechain.Tasks.Core.{read_events, read_blocks, verify_signature}
use timechain.Tasks.Events.{process_events}
use timechain.Tasks.Calls.{settle, finish_settled, read_next, advance_sync, submit_task_result}
use timechain.Tasks.Assignment.{ledger, IsValid}
use timechain.Tasks.Assignment.Steps.{finish_task-IsValid, create_task-IsValid, create_task_room}
use timechain.Tasks.Assignment.Processing.{
  process_events-IsValid, process_events_counter, finish_task_counter,
}

module _ (Home : ℕ → ℕ → Type 0) (cfg : Config) where
  -- Valid, unless task ids have run out.
  abbrev pub Sound : State → Type 0
  Sound s = s.task_id_counter < u64_max → IsValid Home (ledger s)

  pub process_events-Sound :
      (s : State) (n t : ℕ) (es : List GmpEvent) → Sound s → Sound (process_events cfg s n t es)
  process_events-Sound s n t es v room =
      process_events-IsValid Home cfg (λ u. false) s n t es
        (v (subst (λ c. c < u64_max) (process_events_counter cfg s n t es) room))

  read_blocks-Sound :
      (s : State) (n block : ℕ) (size : Option ℕ)
      → IsValid Home (ledger s)
      → After (λ (r : State × ℕ). Sound r.0) (read_blocks s n block size)
  unfolding read_blocks
  read_blocks-Sound s n block none v = tt
  read_blocks-Sound s n block (some size) v =
      λ room. create_task-IsValid Home s n _ v (create_task_room s n _ room)

  pub read_events-Sound :
      (s : State) (n : ℕ)
      → IsValid Home (ledger s)
      → After (λ (r : State × ℕ). Sound r.0) (read_events cfg s n)
  unfolding read_events
  read_events-Sound s n v = read_blocks-Sound s n _ _ v

  advance_sync-IsValid :
      (s : State) (n start end : ℕ)
      → IsValid Home (ledger s)
      → IsValid Home (ledger (advance_sync cfg s n start end))
  unfolding advance_sync
  advance_sync-IsValid s n start end v =
      elim (Bool-cases (unwrap_or (get s.sync_height n) 0 == start)) [
        | inl e ↦ rw e v
        | inr e ↦ rw e v
      ]

  read_next-Sound : (s : State) (n : ℕ) → IsValid Home (ledger s) → After Sound (read_next cfg s n)
  unfolding read_next
  read_next-Sound s n v = elim (Bool-cases (contains_key s.read_events_task n)) [
    | inl running ↦ rw running (
        After-bind (λ (r : State × ℕ). Sound r.0) Sound (read_events cfg s n) (λ r. ok r.0)
          (read_events-Sound s n v) (λ r h. h))
    | inr stopped ↦ rw stopped (λ room. v)
  ]

  settle-Sound :
      (s : State) (signer n shard t : ℕ) (task : Task) (result : TaskResult)
      → IsValid Home (ledger s)
      → After (λ (r : State × Option Output). Sound r.0) (settle cfg s signer n shard t task result)
  unfolding settle
  settle-Sound s signer n shard t (read_gateway_events start end) (read_result events sig) v =
      After-skip _ (verify_signature cfg shard (cfg.encode_gmp_events t events) sig) _ λ _ _.
        After-bind Sound _ (read_next cfg (advance_sync cfg s n start end) n) _
          (read_next-Sound _ n (advance_sync-IsValid s n start end v))
          (λ next h. process_events-Sound next n t events h)
  settle-Sound s signer n shard t (submit_gateway_message b) (submit_error error) v =
      After-skip _ (ensure (contains (cfg.shard_members shard) signer) invalid_signer) _
        (λ _ _ room. v)
  settle-Sound s signer n shard t (read_gateway_events start end) (submit_error error) v = tt
  settle-Sound s signer n shard t (submit_gateway_message b) (read_result events sig) v = tt

  finish_settled-Sound :
      (n t : ℕ) (r : State × Option Output) → Sound r.0 → After Sound (finish_settled cfg n t r)
  unfolding finish_settled
  finish_settled-Sound n t (s, none) h = h
  finish_settled-Sound n t (s, some output) h = λ room.
      finish_task-IsValid Home (λ u. false) s n t output
        (h (subst (λ c. c < u64_max) (finish_task_counter s n t output) room))

  -- A result that is accepted keeps the assignment valid.
  pub submit_task_result-Sound :
      (s : State) (origin : Origin) (t : ℕ) (result : TaskResult)
      → IsValid Home (ledger s)
      → After Sound (submit_task_result cfg s origin t result)
  unfolding submit_task_result
  submit_task_result-Sound s origin t result v =
      After-skip Sound (ensure_signed origin) _ λ signer _.
        After-skip Sound (ok_or (get s.tasks t) unknown_task) _ λ task _.
          elim (Bool-cases (contains_key s.task_output t)) [
            | inl done ↦ rw done (λ room. v)
            | inr fresh ↦ rw fresh (
                After-skip Sound (ok_or (get s.task_shard t) unassigned_task) _ λ shard _.
                  After-skip Sound (ok_or (cfg.shard_network shard) unknown_shard) _ λ n _.
                    After-bind (λ (r : State × Option Output). Sound r.0) Sound
                      (settle cfg s signer n shard t task result) _
                      (settle-Sound s signer n shard t task result v)
                      (λ r h. finish_settled-Sound n t r h))
          ]
