-- ===== src/Tasks/Assignment/Processing.antt =====
-- `process_events` of pallets/tasks/src/lib.rs keeps the assignment valid and gives out no task id.
use timechain.Prelude.{ℕ, Bool, ◌≡◌, refl, ◌∙◌, Option, none, some, List, [], ◌∷◌, arith}
use timechain.Storage.{get, remove}
use timechain.Primitives.Gmp.{
  GmpEvent, shard_registered, shard_unregistered, message_received, message_executed,
  batch_executed,
}
use timechain.Primitives.Task.{success, Output}
use timechain.Tasks.State.{State, Config}
use timechain.Tasks.Core.{finish_task}
use timechain.Tasks.Events.{process_event, process_events, note_tx_hash, finish_batch}
use timechain.Tasks.Assignment.{ledger, except, IsValid}
use timechain.Tasks.Assignment.Steps.{finish_task-IsValid}

module _ (Home : ℕ → ℕ → Type 0) (cfg : Config) (hidden : ℕ → Bool) where
  note_hash-IsValid :
      (s : State) (batch : ℕ) (hash : Option ℕ)
      → IsValid Home (except hidden (ledger s))
      → IsValid Home (except hidden (ledger (note_tx_hash s batch hash)))
  unfolding note_tx_hash
  note_hash-IsValid s batch none v = v
  note_hash-IsValid s batch (some h) v = v

  finish_batch-IsValid :
      (s : State) (n : ℕ) (task : Option ℕ)
      → IsValid Home (except hidden (ledger s))
      → IsValid Home (except hidden (ledger (finish_batch s n task)))
  unfolding finish_batch
  finish_batch-IsValid s n none v = v
  finish_batch-IsValid s n (some t) v = finish_task-IsValid Home hidden s n t success v

  pub process_event-IsValid :
      (s : State) (n t : ℕ) (e : GmpEvent)
      → IsValid Home (except hidden (ledger s))
      → IsValid Home (except hidden (ledger (process_event cfg s n t e)))
  unfolding process_event
  process_event-IsValid s n t (shard_registered key) v = v
  process_event-IsValid s n t (shard_unregistered key) v = v
  process_event-IsValid s n t (message_received msg) v = v
  process_event-IsValid s n t (message_executed id) v = v
  process_event-IsValid s n t (batch_executed batch hash) v = note_hash-IsValid _ batch hash (
      finish_batch-IsValid (record s { pending_batches = remove s.pending_batches batch }) n
        (get s.batch_task_id batch) v)

  pub process_events-IsValid :
      (s : State) (n t : ℕ) (es : List GmpEvent)
      → IsValid Home (except hidden (ledger s))
      → IsValid Home (except hidden (ledger (process_events cfg s n t es)))
  unfolding process_events
  process_events-IsValid s n t [] v = v
  process_events-IsValid s n t (e ∷ es) v =
      process_events-IsValid (process_event cfg s n t e) n t es (process_event-IsValid s n t e v)

pub finish_task_counter :
    (s : State) (n t : ℕ) (o : Output) → (finish_task s n t o).task_id_counter ≡ s.task_id_counter
unfolding finish_task
finish_task_counter s n t o = ground arith

note_hash_counter :
    (s : State) (batch : ℕ) (hash : Option ℕ)
    → (note_tx_hash s batch hash).task_id_counter ≡ s.task_id_counter
unfolding note_tx_hash
note_hash_counter s batch none = refl
note_hash_counter s batch (some h) = refl

finish_batch_counter :
    (s : State) (n : ℕ) (task : Option ℕ)
    → (finish_batch s n task).task_id_counter ≡ s.task_id_counter
unfolding finish_batch
finish_batch_counter s n none = refl
finish_batch_counter s n (some t) = finish_task_counter s n t success

process_event_counter :
    (cfg : Config) (s : State) (n t : ℕ) (e : GmpEvent)
    → (process_event cfg s n t e).task_id_counter ≡ s.task_id_counter
unfolding process_event
process_event_counter cfg s n t (shard_registered key) = refl
process_event_counter cfg s n t (shard_unregistered key) = refl
process_event_counter cfg s n t (message_received msg) = refl
process_event_counter cfg s n t (message_executed id) = refl
process_event_counter cfg s n t (batch_executed batch hash) =
    note_hash_counter _ batch hash
    ∙ finish_batch_counter (record s { pending_batches = remove s.pending_batches batch }) n
        (get s.batch_task_id batch)

pub process_events_counter :
    (cfg : Config) (s : State) (n t : ℕ) (es : List GmpEvent)
    → (process_events cfg s n t es).task_id_counter ≡ s.task_id_counter
unfolding process_events
process_events_counter cfg s n t [] = refl
process_events_counter cfg s n t (e ∷ es) =
    process_events_counter cfg (process_event cfg s n t e) n t es
    ∙ process_event_counter cfg s n t e
