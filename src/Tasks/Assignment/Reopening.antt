-- ===== src/Tasks/Assignment/Reopening.antt =====
-- `submit_gmp_events` of pallets/tasks/src/lib.rs reopens the tasks of the batches that were executed,
-- and closes them again.
use timechain.Prelude.{
  ℕ, ◌≡◌, refl, sym, ap, ◌∙◌, Bool, true, false, Option, none, some, List, [], ◌∷◌, arith, ◌==◌,
  ◌||◌, ◌≤◌, is_some, Bool-cases, Option-cases, inl, inr, subst,
}
use timechain.Storage.{Map, Unique, get, remove, get-remove}
use timechain.Primitives.Gmp.{
  GmpEvent, shard_registered, shard_unregistered, message_received, message_executed,
  batch_executed,
}
use timechain.Primitives.Task.{Task, Output, success}
use timechain.Tasks.State.{State, Config}
use timechain.Tasks.Core.{finish_task}
use timechain.Tasks.Core.Finish.{finish_task-output}
use timechain.Tasks.Calls.{reopen, clear_output}
use timechain.Tasks.Events.{process_event, process_events, note_tx_hash, finish_batch}
use timechain.Tasks.Assignment.{Ledger, ledger, is_pending, except, IsValid}
use timechain.Tasks.Assignment.Updates.{shrink-IsValid}
use timechain.Tasks.Assignment.Steps.{stored_closed}
use timechain.Tasks.Assignment.Processing.{process_events-IsValid}

abbrev names : Option ℕ → ℕ → Bool
names none t = false
names (some u) t = t == u

-- Whether task `t` sends a batch that an event, or one of the events, tells of.
abbrev closed_by : Map ℕ → GmpEvent → ℕ → Bool
closed_by tasks (batch_executed b hash) t = names (get tasks b) t
closed_by tasks (shard_registered key) t = false
closed_by tasks (shard_unregistered key) t = false
closed_by tasks (message_received msg) t = false
closed_by tasks (message_executed id) t = false

unfoldable closes : Map ℕ → List GmpEvent → ℕ → Bool
closes tasks [] t = false
closes tasks (e ∷ es) t = closed_by tasks e t || closes tasks es t

or_false : (a b : Bool) → (a || b) ≡ false → (a ≡ false) × (b ≡ false)
or_false true b h = absurd cc
or_false false b h = (refl, h)

-- Everything but which tasks are open.
abbrev bare : State → Ledger
bare s = except (λ t. true) (ledger s)

-- What the reopening leaves.
record Reopened (s : State) (closing : ℕ → Bool) (s' : State) : Type 0 where
  same : bare s' ≡ bare s
  tasks : s'.tasks ≡ s.tasks
  batches : s'.batch_task_id ≡ s.batch_task_id
  outputs : (t : ℕ) → closing t ≡ false → get s'.task_output t ≡ get s.task_output t

module _ (cfg : Config) where
  clear_output-Reopened : (s : State) (t : Option ℕ) → Reopened s (names t) (clear_output s t)
  unfolding clear_output
  clear_output-Reopened s none = record {
    same = refl;
    tasks = refl;
    batches = refl;
    outputs = λ t h. refl;
  }
  clear_output-Reopened s (some u) = record {
    same = refl;
    tasks = refl;
    batches = refl;
    outputs = λ t h. ground (arith, h, get-remove s.task_output u t);
  }

  reopen-Reopened :
      (s : State) (es : List GmpEvent) → Reopened s (closes s.batch_task_id es) (reopen cfg s es)
  unfolding reopen closes
  reopen-Reopened s [] = record { same = refl; tasks = refl; batches = refl; outputs = λ t h. refl }
  reopen-Reopened s (shard_registered key ∷ es) = reopen-Reopened s es
  reopen-Reopened s (shard_unregistered key ∷ es) = reopen-Reopened s es
  reopen-Reopened s (message_received msg ∷ es) = reopen-Reopened s es
  reopen-Reopened s (message_executed id ∷ es) = reopen-Reopened s es
  reopen-Reopened s (batch_executed b hash ∷ es) =
      let cleared : State = record s { failed_batch_ids = remove s.failed_batch_ids b } in
      let first = clear_output-Reopened cleared (get s.batch_task_id b) in
      let rest = reopen-Reopened (clear_output cleared (get s.batch_task_id b)) es in
      record {
        same = rest.same ∙ first.same;
        tasks = rest.tasks ∙ first.tasks;
        batches = rest.batches ∙ first.batches;
        outputs = λ t h.
            let (now, later) = or_false (names (get s.batch_task_id b) t) _ h in
            rest.outputs t (rw first.batches later) ∙ first.outputs t now;
      }

  -- What an event leaves of the outputs and the batches.
  record Closed (s : State) (s' : State) : Type 0 where
    outputs : (t : ℕ) → is_some (get s.task_output t) ≡ true → is_some (get s'.task_output t) ≡ true
    batches : s'.batch_task_id ≡ s.batch_task_id

  finish_task-Closed : (s : State) (n t : ℕ) (o : Output) → Closed s (finish_task s n t o)
  unfolding finish_task
  finish_task-Closed s n t o = record {
    outputs = λ u h. ground (arith, h, finish_task-output s n t u o);
    batches = ground (arith, Option-cases (get s.task_shard t));
  }

  finish_batch-Closed : (s : State) (n : ℕ) (t : Option ℕ) → Closed s (finish_batch s n t)
  unfolding finish_batch
  finish_batch-Closed s n none = record { outputs = λ t h. h; batches = refl }
  finish_batch-Closed s n (some t) = finish_task-Closed s n t success

  note_tx_hash-Closed : (s : State) (b : ℕ) (h : Option ℕ) → Closed s (note_tx_hash s b h)
  unfolding note_tx_hash
  note_tx_hash-Closed s b none = record { outputs = λ t h. h; batches = refl }
  note_tx_hash-Closed s b (some x) = record { outputs = λ t h. h; batches = refl }

  process_event-Closed : (s : State) (n t : ℕ) (e : GmpEvent) → Closed s (process_event cfg s n t e)
  unfolding process_event
  process_event-Closed s n t (shard_registered key) = record { outputs = λ t h. h; batches = refl }
  process_event-Closed s n t (shard_unregistered key) = record {
    outputs = λ t h. h;
    batches = refl;
  }
  process_event-Closed s n t (message_received msg) = record { outputs = λ t h. h; batches = refl }
  process_event-Closed s n t (message_executed id) = record { outputs = λ t h. h; batches = refl }
  process_event-Closed s n t (batch_executed b hash) =
      let closed : State = record s { pending_batches = remove s.pending_batches b } in
      let first = finish_batch-Closed closed n (get s.batch_task_id b) in
      let second = note_tx_hash-Closed (finish_batch closed n (get s.batch_task_id b)) b hash in
      record {
        outputs = λ u h. second.outputs u (first.outputs u h);
        batches = second.batches ∙ first.batches;
      }

  process_events_keeps :
      (es : List GmpEvent) (s : State) (n t u : ℕ)
      → is_some (get s.task_output u) ≡ true
      → is_some (get (process_events cfg s n t es).task_output u) ≡ true
  unfolding process_events
  process_events_keeps [] s n t u h = h
  process_events_keeps (e ∷ es) s n t u h =
      process_events_keeps es (process_event cfg s n t e) n t u
        ((process_event-Closed s n t e).outputs u h)

  -- After a batch was executed its task has an output.
  finish_batch-closes :
      (s : State) (n u : ℕ) (t : Option ℕ)
      → names t u ≡ true
      → is_some (get (finish_batch s n t).task_output u) ≡ true
  unfolding finish_batch
  finish_batch-closes s n u none h = absurd cc
  finish_batch-closes s n u (some t) h = ground (arith, h, finish_task-output s n t u success)

  process_event-closes :
      (s : State) (n t u : ℕ) (e : GmpEvent)
      → closed_by s.batch_task_id e u ≡ true
      → is_some (get (process_event cfg s n t e).task_output u) ≡ true
  unfolding process_event
  process_event-closes s n t u (batch_executed b hash) h =
      let closed : State = record s { pending_batches = remove s.pending_batches b } in
      (note_tx_hash-Closed (finish_batch closed n (get s.batch_task_id b)) b hash).outputs u
        (finish_batch-closes closed n u (get s.batch_task_id b) h)
  process_event-closes s n t u (shard_registered key) h = absurd cc
  process_event-closes s n t u (shard_unregistered key) h = absurd cc
  process_event-closes s n t u (message_received msg) h = absurd cc
  process_event-closes s n t u (message_executed id) h = absurd cc

  process_events-closes :
      (es : List GmpEvent) (s : State) (n t u : ℕ)
      → closes s.batch_task_id es u ≡ true
      → is_some (get (process_events cfg s n t es).task_output u) ≡ true
  unfolding process_events closes
  process_events-closes [] s n t u h = absurd cc
  process_events-closes (e ∷ es) s n t u h = elim (Bool-cases (closed_by s.batch_task_id e u)) [
    | inl now ↦
        process_events_keeps es (process_event cfg s n t e) n t u
          (process_event-closes s n t u e now)
    | inr later ↦
        process_events-closes es (process_event cfg s n t e) n t u
          (rw (process_event-Closed s n t e).batches (rw later at h))
  ]

output_closed :
    (task : Option Task) (o : Option Output) → is_some o ≡ true → is_pending task o ≡ true → ⊥
output_closed task none h g = absurd cc
output_closed task (some o) h g =
    let e : is_pending task (some o) ≡ false = stored_closed task o in absurd cc

module _ (Home : ℕ → ℕ → Type 0) (cfg : Config) (s : State) (v : IsValid Home (ledger s)) where
  -- The tasks that are reopened do not count until they are closed.
  reopen-IsValid :
      (es : List GmpEvent)
      → IsValid Home (except (closes s.batch_task_id es) (ledger (reopen cfg s es)))
  reopen-IsValid es =
      let closing = closes s.batch_task_id es in
      let r = reopen-Reopened cfg s es in
      let s' = reopen cfg s es in
      shrink-IsValid Home (ledger s) _ v (λ n i t h. ap (λ l. l.slot n i) (sym r.same) ∙ h)
        (λ n k h. ap (λ l. l.member n k) (sym r.same) ∙ h)
        (λ n t h. ap (λ l. get l.read_map n) (sym r.same) ∙ h) (ap (λ l. l.shard_map) r.same)
        (ap (λ l. l.shard_of) r.same)
        (subst (λ c. s.task_id_counter ≤ c) (sym (ap (λ l. l.counter) r.same)) (omega arith))
        (λ u h. elim (Bool-cases (closing u)) [
          | inl masked ↦ absurd (ground (arith, masked, h))
          | inr counts ↦
              let was : is_pending (get s'.tasks u) (get s'.task_output u) ≡ true =
                rw counts at h in
              rw (r.tasks, r.outputs u counts) at was
        ])
        (λ n i u h g. ap (λ l. l.slot n i) r.same ∙ g) (ap (λ l. l.end) r.same)
        (subst Unique (sym (ap (λ l. l.read_map) r.same)) v.unique_read)

  pub process_reopened-IsValid :
      (n t : ℕ) (es : List GmpEvent)
      → IsValid Home (ledger (process_events cfg (reopen cfg s es) n t es))
  process_reopened-IsValid n t es =
      let closing = closes s.batch_task_id es in
      let r = reopen-Reopened cfg s es in
      let s' = process_events cfg (reopen cfg s es) n t es in
      let w =
        process_events-IsValid Home cfg closing (reopen cfg s es) n t es (reopen-IsValid es) in
      shrink-IsValid Home (except closing (ledger s')) (ledger s') w (λ n i t h. h) (λ n k h. h)
        (λ n t h. h) refl refl (omega arith)
        (λ u h. elim (Bool-cases (closing u)) [
          | inr counts ↦ rw counts h
          | inl reopened ↦
              let again : closes (reopen cfg s es).batch_task_id es u ≡ true =
                rw r.batches reopened in
              absurd (
                output_closed (get s'.tasks u) (get s'.task_output u)
                  (process_events-closes cfg es (reopen cfg s es) n t u again) h)
        ])
        (λ n i u h g. g) refl w.unique_read
