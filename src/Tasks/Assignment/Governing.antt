-- ===== src/Tasks/Assignment/Governing.antt =====
-- The administrators' extrinsics of pallets/tasks/src/lib.rs keep the assignment valid.
use timechain.Prelude.{
  ℕ, ◌≢◌, true, Bool-cases, inl, inr, ◌==◌, ◌≡◌, refl, sym, subst, Option, none, some, List, [],
  ◌∷◌, arith,
}
use timechain.Storage.{get, contains_key, remove, get-remove, get-remove_ne, remove-Unique}
use timechain.Outcome.{
  Origin, After, After-skip, ensure_admin, ensure, ok_or, cannot_remove_task, invalid_batch_id,
  unknown_task,
}
use timechain.Primitives.Gmp.{
  GatewayOp, send_message, register_shard, unregister_shard, GatewayMessage, GmpEvent,
}
use timechain.Primitives.Task.{Task, read_gateway_events, submit_gateway_message}
use timechain.Tasks.State.{State, Config}
use timechain.Tasks.Calls.{
  forget_ids, forget_messages, forget_message, forget_batch, submit_gmp_events, sync_network,
  stop_network, remove_task, restart_batch,
}
use timechain.Tasks.Assignment.{ledger, is_pending, IsValid}
use timechain.Tasks.Assignment.Updates.{shrink-IsValid}
use timechain.Tasks.Assignment.Steps.{create_task-IsValid, create_task_room}
use timechain.Tasks.Assignment.Submitting.{Sound}
use timechain.Tasks.Assignment.Reopening.{process_reopened-IsValid}

module _ (cfg : Config) where
  forget_messages-ledger :
      (s : State) (ops : List GatewayOp) → ledger (forget_messages cfg s ops) ≡ ledger s
  unfolding forget_messages forget_ids
  forget_messages-ledger s [] = refl
  forget_messages-ledger s (send_message msg ∷ ops) =
      forget_messages-ledger (forget_ids cfg s msg) ops
  forget_messages-ledger s (register_shard key ∷ ops) = forget_messages-ledger s ops
  forget_messages-ledger s (unregister_shard key ∷ ops) = forget_messages-ledger s ops

  forget_message-ledger :
      (s : State) (b : ℕ) (msg : Option GatewayMessage)
      → ledger (forget_message cfg s b msg) ≡ ledger s
  unfolding forget_message
  forget_message-ledger s b none = refl
  forget_message-ledger s b (some msg) = forget_messages-ledger _ msg.ops

  forget_batch-ledger :
      (s : State) (task : Option Task) → ledger (forget_batch cfg s task) ≡ ledger s
  unfolding forget_batch
  forget_batch-ledger s none = refl
  forget_batch-ledger s (some (read_gateway_events start end)) = refl
  forget_batch-ledger s (some (submit_gateway_message b)) =
      forget_message-ledger s b (get s.batch_message b)

module _ (Home : ℕ → ℕ → Type 0) (cfg : Config) (s : State) (v : IsValid Home (ledger s)) where
  pub submit_gmp_events-Sound :
      (origin : Origin) (n : ℕ) (es : List GmpEvent)
      → After (Sound Home cfg) (submit_gmp_events cfg s origin n es)
  unfolding submit_gmp_events
  submit_gmp_events-Sound origin n es =
      After-skip _ (ensure_admin origin) _
        λ _ _. λ room. process_reopened-IsValid Home cfg s v n 0 es

  pub sync_network-Sound :
      (origin : Origin) (n block : ℕ) → After (Sound Home cfg) (sync_network cfg s origin n block)
  unfolding sync_network
  sync_network-Sound origin n block = After-skip _ (ensure_admin origin) _ (λ _ _ room. v)

  pub stop_network-Sound :
      (origin : Origin) (n : ℕ) → After (Sound Home cfg) (stop_network cfg s origin n)
  unfolding stop_network
  stop_network-Sound origin n = After-skip _ (ensure_admin origin) _ λ _ _ room.
      shrink-IsValid Home (ledger s) _ v (λ m j t h. h) (λ m k h. h)
        (λ m t h. ground (arith, get-remove s.read_events_task n m)) refl refl (omega arith)
        (λ u h. h) (λ m j u h g. g) refl (remove-Unique s.read_events_task n v.unique_read)

  taken_pending :
      (t u : ℕ)
      → is_pending (get (remove s.tasks t) u) (get (remove s.task_output t) u) ≡ true
      → is_pending (get s.tasks u) (get s.task_output u) ≡ true
  taken_pending t u h = elim (Bool-cases (u == t)) [
    | inl same ↦
        let gone : get (remove s.tasks t) u ≡ none = ground (arith, same, get-remove s.tasks t u) in
        let g : is_pending none (get (remove s.task_output t) u) ≡ true = rw gone at h in absurd cc
    | inr other ↦
        let ne : u ≢ t = λ e. ground (arith, e, other) in
        rw (get-remove_ne s.tasks t u ne, get-remove_ne s.task_output t u ne) at h
  ]

  pub remove_task-Sound :
      (origin : Origin) (t : ℕ) → After (Sound Home cfg) (remove_task cfg s origin t)
  unfolding remove_task
  remove_task-Sound origin t = After-skip _ (ensure_admin origin) _ λ _ _.
      After-skip _ (ensure (contains_key s.task_output t) cannot_remove_task) _ λ _ _ room.
        subst (IsValid Home) (sym (forget_batch-ledger cfg _ (get s.tasks t))) (
          shrink-IsValid Home (ledger s) _ v (λ n i u h. h) (λ n k h. h) (λ n u h. h) refl refl
            (omega arith) (λ u h. taken_pending t u h) (λ n i u h g. g) refl v.unique_read)

  pub restart_batch-Sound :
      (origin : Origin) (b : ℕ) → After (Sound Home cfg) (restart_batch cfg s origin b)
  unfolding restart_batch
  restart_batch-Sound origin b = After-skip _ (ensure_admin origin) _ λ _ _.
      After-skip _ (ok_or (get s.batch_task_id b) invalid_batch_id) _ λ t _.
        After-skip _ (ok_or (get s.task_network t) unknown_task) _ λ n _ room.
          create_task-IsValid Home s n (submit_gateway_message b) v
            (create_task_room s n (submit_gateway_message b) room)
