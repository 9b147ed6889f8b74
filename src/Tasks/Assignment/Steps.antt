-- ===== src/Tasks/Assignment/Steps.antt =====
-- The functions of pallets/tasks/src/lib.rs that make, assign and finish one task keep the
-- assignment valid.
use timechain.Prelude.{
  ℕ, suc, ◌≤◌, ◌<◌, ◌≡◌, refl, inl, inr, none, some, arith, u64_max, saturating_add, Bool-cases,
  Bool, true, false, Option, ◌==◌, ◌≢◌, if◌then◌else◌, unwrap_or, Option-cases,
}
use timechain.Storage.{
  get, get₂, contains_key, prefix, insert-Unique, remove-Unique, prefix-insert₂, prefix-remove₂,
  insert, get-insert, get-insert_self, get-insert_ne, get-remove, get₂-insert₂, get₂-remove₂,
}
use timechain.Primitives.Task.{
  Task, read_gateway_events, submit_gateway_message, needs_registration, Output,
}
use timechain.Tasks.Queue.{QueueImpl, push, insert_at}
use timechain.Tasks.State.{State}
use timechain.Tasks.Core.{create_task, finish_task, assign_task}
use timechain.Tasks.Assignment.{ledger, is_pending, except, IsValid}
use timechain.Tasks.Assignment.Updates.{shrink-IsValid, assign-IsValid, release-IsValid}
use timechain.Tasks.Assignment.Adding.{enqueue-IsValid, new_read-IsValid}

pub push_end :
    {V : Type 0} (q : QueueImpl V) (n m : ℕ)
    → unwrap_or (get (insert q.insert_index n (saturating_add u64_max (insert_at q n) 1)) m) 0
      ≡ (if m == n then saturating_add u64_max (insert_at q n) 1 else insert_at q m)
push_end q n m =
    ground (arith, get-insert q.insert_index n m (saturating_add u64_max (insert_at q n) 1))

-- A task is made with an id that no other has.
other_pending :
    (s : State) (t u : ℕ) (task : Task)
    → is_pending (get (insert s.tasks t task) u) (get s.task_output u) ≡ true
    → u ≢ t
    → is_pending (get s.tasks u) (get s.task_output u) ≡ true
other_pending s t u task h ne = rw (get-insert_ne s.tasks t u task ne) at h

read_pending :
    (s : State) (t u a b : ℕ)
    → is_pending (get (insert s.tasks t (read_gateway_events a b)) u) (get s.task_output u) ≡ true
    → is_pending (get s.tasks u) (get s.task_output u) ≡ true
read_pending s t u a b h = elim (Bool-cases (u == t)) [
  | inl same ↦
      let new : get (insert s.tasks t (read_gateway_events a b)) u
          ≡ some (read_gateway_events a b) =
        ground (arith, same, get-insert s.tasks t u (read_gateway_events a b)) in
      absurd (read_closed (get s.task_output u) (rw new at h))
  | inr other ↦ other_pending s t u (read_gateway_events a b) h (λ e. ground (arith, e, other))
]
  where
    read_closed : (o : Option Output) → is_pending (some (read_gateway_events a b)) o ≡ true → ⊥
    read_closed o h = cc

pub stored_closed : (task : Option Task) (o : Output) → is_pending task (some o) ≡ false
stored_closed none o = refl
stored_closed (some (read_gateway_events start end)) o = refl
stored_closed (some (submit_gateway_message batch)) o = refl

-- A task that is pending when task `t` has an output is another task, and was pending.
finish_pending :
    (hidden : ℕ → Bool) (s : State) (t u : ℕ) (o : Output)
    → (if hidden u then false else is_pending (get s.tasks u) (get (insert s.task_output t o) u))
      ≡ true
    → ((if hidden u then false else is_pending (get s.tasks u) (get s.task_output u)) ≡ true)
      × (u ≢ t)
finish_pending hidden s t u o h = elim (Bool-cases (u == t)) [
  | inl same ↦
      let stored : get (insert s.task_output t o) u ≡ some o =
        ground (arith, same, get-insert s.task_output t u o) in
      absurd (finish_closed (hidden u) (get s.tasks u) o (rw stored at h))
  | inr other ↦
      let kept : get (insert s.task_output t o) u ≡ get s.task_output u =
        ground (arith, other, get-insert s.task_output t u o) in
      (rw kept at h, λ e. ground (arith, e, other))
]
  where
    finish_closed :
        (b : Bool) (task : Option Task) (o : Output)
        → (if b then false else is_pending task (some o)) ≡ true
        → ⊥
    finish_closed true task o h = cc
    finish_closed false task o h =
        let e : is_pending task (some o) ≡ false = stored_closed task o in cc

module _ (Home : ℕ → ℕ → Type 0) where
  -- A task that is in no shard and no queue may be assigned to a shard that may work; a
  -- read task only to a shard that may work for its network.
  pub assign_task-IsValid :
      (s : State) (shard t : ℕ)
      → IsValid Home (except (λ u. u == t) (ledger s))
      → get s.task_shard t ≡ none
      → ((n i : ℕ) → get₂ s.ua_tasks.queue n i ≡ some t → ⊥)
      → ((n : ℕ) × Home n shard)
      → ((n : ℕ) → get s.read_events_task n ≡ some t → Home n shard)
      → ((n : ℕ) → get s.read_events_task n ≡ some t → (ledger s).pending t ≡ true → ⊥)
      → t ≤ s.task_id_counter
      → IsValid Home (ledger (assign_task s shard t))
  unfolding assign_task
  assign_task-IsValid s shard t v free unqueued may read closed known =
      assign-IsValid Home (except (λ u. u == t) (ledger s)) _ v shard t free unqueued may read
        closed (λ u h ne. let apart : (u == t) ≡ false = ground (arith, ne) in rw apart h) refl
        known (λ k u. get₂-insert₂ s.shard_tasks shard t k u tt)
        (λ u. get-insert s.task_shard t u shard) refl refl refl refl
        (λ k. ground (
          arith,
          prefix-insert₂ s.shard_tasks shard t k tt,
          insert-Unique (prefix s.shard_tasks shard) t tt (v.unique_shards shard),
          v.unique_shards k,
        ))

  pub finish_task-IsValid :
      (hidden : ℕ → Bool) (s : State) (network t : ℕ) (result : Output)
      → IsValid Home (except hidden (ledger s))
      → IsValid Home (except hidden (ledger (finish_task s network t result)))
  unfolding finish_task
  finish_task-IsValid hidden s network t result v =
      elim (Bool-cases (contains_key s.task_output t)) [
        | inl done ↦ rw done v
        | inr fresh ↦ rw fresh (elim (Option-cases (get s.task_shard t)) [
          | inl e ↦
              rw (e, finish_task)
                (shrink-IsValid Home (except hidden (ledger s)) _ v (λ n i u h. h) (λ n k h. h)
                  (λ n u h. h) refl refl (omega arith)
                  (λ u h. (finish_pending hidden s t u result h).0) (λ n i u h g. g) refl
                  v.unique_read)
          | inr (shard, e) ↦
              rw (e, finish_task)
                (release-IsValid Home (except hidden (ledger s)) _ v shard t e
                  (λ k u. get₂-remove₂ s.shard_tasks shard t k u) (λ u. get-remove s.task_shard t u)
                  (λ u h. finish_pending hidden s t u result h) refl refl refl refl refl
                  (λ k. ground (
                    arith,
                    prefix-remove₂ s.shard_tasks shard t k,
                    remove-Unique (prefix s.shard_tasks shard) t (v.unique_shards shard),
                    v.unique_shards k,
                  )))
        ])
      ]

  -- The next task id is in no shard, in no queue and no read task.
  new_unassigned :
      (s : State) (t : ℕ)
      → IsValid Home (ledger s)
      → s.task_id_counter < t
      → get s.task_shard t ≡ none
  new_unassigned s t v fresh = elim (Option-cases (get s.task_shard t)) [
    | inl e ↦ e
    | inr (shard, e) ↦ absurd (omega (arith, v.known_held t shard e))
  ]

  -- A new task, with its id below the largest number that ids can have.
  pub create_task-IsValid :
      (s : State) (network : ℕ) (task : Task)
      → IsValid Home (ledger s)
      → s.task_id_counter < u64_max
      → IsValid Home (ledger (create_task s network task).0)
  unfolding create_task push needs_registration
  create_task-IsValid s network (submit_gateway_message b) v room =
      let next : saturating_add u64_max s.task_id_counter 1 ≡ suc s.task_id_counter = omega arith in
      rw next (
        enqueue-IsValid Home (ledger s) _ v network (insert_at s.ua_tasks network) _
          (new_unassigned s _ v (omega arith))
          (λ m j h. absurd (omega (arith, v.known_slot m j _ h)))
          (λ m h. absurd (omega (arith, v.known_read m _ h))) (omega arith) (omega arith)
          (λ m j. get₂-insert₂ s.ua_tasks.queue network (insert_at s.ua_tasks network) m j _)
          (λ u h ne. other_pending s _ u (submit_gateway_message b) h ne) refl
          (λ m. push_end s.ua_tasks network m) refl refl refl refl)
  create_task-IsValid s network (read_gateway_events a b) v room =
      let next : saturating_add u64_max s.task_id_counter 1 ≡ suc s.task_id_counter = omega arith in
      rw next (
        new_read-IsValid Home (ledger s) _ v network _ (omega arith) (omega arith)
          (λ m. get-insert s.read_events_task network m _)
          (rw (get-insert_self s.tasks _ (read_gateway_events a b)) refl)
          (λ u h. read_pending s _ u a b h) refl refl refl refl refl
          (insert-Unique s.read_events_task network _ v.unique_read))

-- A task id is given out for each new task.
pub create_task_counter :
    (s : State) (network : ℕ) (task : Task)
    → (create_task s network task).0.task_id_counter ≡ saturating_add u64_max s.task_id_counter 1
unfolding create_task needs_registration
create_task_counter s network (submit_gateway_message b) = refl
create_task_counter s network (read_gateway_events a b) = refl

-- Where ids have not run out after a task was made, they had not before.
pub create_task_room :
    (s : State) (network : ℕ) (task : Task)
    → (create_task s network task).0.task_id_counter < u64_max
    → s.task_id_counter < u64_max
create_task_room s network task h = omega (arith, create_task_counter s network task)
