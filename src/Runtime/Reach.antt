-- ===== src/Runtime/Reach.antt =====
-- The runs of the shards pallet and the tasks pallet together, as the runtime joins them.
use timechain.Prelude.{ℕ, refl, ◌<◌, ◌≡◌, sym, List, [], ◌∷◌, u64_max, subst}
use timechain.Storage.{get, prefix}
use timechain.Outcome.{ok, Origin, After-skip, After_ok, ensure_signed, ensure_admin}
use timechain.Primitives.Gmp.{GmpEvent}
use timechain.Primitives.Task.{TaskResult}
use timechain.Shards as Shards
use timechain.Shards.Calls.{commit, mark_ready, force_shard_offline, on_initialize}
use timechain.Shards.Interface.{member_online, members_offline, create_shard, next_signer}
use timechain.Shards.Reach as ShardRuns
use timechain.Tasks.State as Tasks
use timechain.Tasks.Calls.{
  submit_task_result, submit_gmp_events, sync_network, stop_network, remove_task, restart_batch,
}
use timechain.Tasks.Interface.{gateway_registered}
use timechain.Tasks.Batches as Batches
use timechain.Tasks.Reach as TaskRuns
use timechain.Runtime.{tasks_config, shards_config}
use timechain.Runtime.Online.{
  Online, Online_one, Steady, member_online-Steady, next_signer-Steady, execute_commit-Steady,
}
use timechain.Runtime.Creating.{create_shard-Steady}
use timechain.Runtime.Effects.{
  IsJoined, Steady-IsJoined, members_offline-IsJoined, remove_shards_offline-IsJoined,
  timeout_dkgs-IsJoined, execute_ready-IsJoined,
}

pub record Pallets : Type 0 where
  pub shards : Shards.State
  pub tasks : Tasks.State

-- The two pallets before anything has happened.
abbrev pub init : Pallets
init = record { shards = ShardRuns.init; tasks = TaskRuns.init }

module _ (E : Type 0) where
  -- One call of the two pallets. The elections and the members pallet, with their state of that time,
  -- and the networks pallet may answer anything. A shard is made as long as shard ids are left, and
  -- a call of the tasks pallet leaves task ids.
  pub data Step (p p' : Pallets) : Type 0 where
    commits :
        (base : Shards.Config E) (cfg : Tasks.Config) (e : E) (o : Origin) (k : ℕ) (c : List ℕ)
        (proof : ℕ)
        → commit (shards_config base cfg) p.shards (e, p.tasks) o k c proof ≡ ok p'.shards
        → p'.tasks ≡ p.tasks
        → Step p p'
    readies :
        (base : Shards.Config E) (cfg : Tasks.Config) (e e' : E) (o : Origin) (k : ℕ)
        → mark_ready (shards_config base cfg) p.shards (e, p.tasks) o k
          ≡ ok (p'.shards, (e', p'.tasks))
        → Step p p'
    forces :
        (base : Shards.Config E) (cfg : Tasks.Config) (e e' : E) (o : Origin) (k : ℕ)
        → force_shard_offline (shards_config base cfg) p.shards (e, p.tasks) o k
          ≡ ok (p'.shards, (e', p'.tasks))
        → Step p p'
    times :
        (base : Shards.Config E) (cfg : Tasks.Config) (e e' : E) (n : ℕ)
        → on_initialize (shards_config base cfg) p.shards (e, p.tasks) n
          ≡ (p'.shards, (e', p'.tasks))
        → Step p p'
    onlines : (m : ℕ) → member_online p.shards m ≡ p'.shards → p'.tasks ≡ p.tasks → Step p p'
    offlines :
        (base : Shards.Config E) (cfg : Tasks.Config) (e e' : E) (members : List ℕ)
        → members_offline (shards_config base cfg) p.shards (e, p.tasks) members
          ≡ (p'.shards, (e', p'.tasks))
        → Step p p'
    creates :
        (base : Shards.Config E) (cfg : Tasks.Config) (block network : ℕ) (members : List ℕ)
        (threshold k : ℕ)
        → p.shards.shard_id_counter < u64_max
        → create_shard (shards_config base cfg) p.shards block network members threshold
          ≡ ok (p'.shards, k)
        → p'.tasks ≡ p.tasks
        → Step p p'
    signs :
        (base : Shards.Config E) (cfg : Tasks.Config) (e : E) (k signer : ℕ)
        → next_signer (shards_config base cfg) p.shards (e, p.tasks) k ≡ ok (p'.shards, signer)
        → p'.tasks ≡ p.tasks
        → Step p p'
    submits :
        (cfg : Tasks.Config) (o : Origin) (t : ℕ) (r : TaskResult)
        → submit_task_result (tasks_config cfg p.shards) p.tasks o t r ≡ ok p'.tasks
        → p'.tasks.task_id_counter < u64_max
        → p'.shards ≡ p.shards
        → Step p p'
    injects :
        (cfg : Tasks.Config) (o : Origin) (n : ℕ) (es : List GmpEvent)
        → submit_gmp_events (tasks_config cfg p.shards) p.tasks o n es ≡ ok p'.tasks
        → p'.tasks.task_id_counter < u64_max
        → p'.shards ≡ p.shards
        → Step p p'
    syncs :
        (cfg : Tasks.Config) (o : Origin) (n block : ℕ)
        → sync_network (tasks_config cfg p.shards) p.tasks o n block ≡ ok p'.tasks
        → p'.tasks.task_id_counter < u64_max
        → p'.shards ≡ p.shards
        → Step p p'
    stops :
        (cfg : Tasks.Config) (o : Origin) (n : ℕ)
        → stop_network (tasks_config cfg p.shards) p.tasks o n ≡ ok p'.tasks
        → p'.tasks.task_id_counter < u64_max
        → p'.shards ≡ p.shards
        → Step p p'
    removes :
        (cfg : Tasks.Config) (o : Origin) (t : ℕ)
        → remove_task (tasks_config cfg p.shards) p.tasks o t ≡ ok p'.tasks
        → p'.tasks.task_id_counter < u64_max
        → p'.shards ≡ p.shards
        → Step p p'
    restarts :
        (cfg : Tasks.Config) (o : Origin) (b : ℕ)
        → restart_batch (tasks_config cfg p.shards) p.tasks o b ≡ ok p'.tasks
        → p'.tasks.task_id_counter < u64_max
        → p'.shards ≡ p.shards
        → Step p p'
    schedules :
        (cfg : Tasks.Config)
        → Batches.on_initialize (tasks_config cfg p.shards) p.tasks ≡ p'.tasks
        → p'.tasks.task_id_counter < u64_max
        → p'.shards ≡ p.shards
        → Step p p'
    registers :
        (cfg : Tasks.Config) (n block : ℕ)
        → gateway_registered (tasks_config cfg p.shards) p.tasks n block ≡ ok p'.tasks
        → p'.tasks.task_id_counter < u64_max
        → p'.shards ≡ p.shards
        → Step p p'

  pub data Reach (p : Pallets) : Pallets → Type 0 where
    here : Reach p p
    next : {q r : Pallets} → Reach p q → Step q r → Reach p r

  same-IsJoined :
      (p p' : Pallets)
      → Steady p.shards p'.shards
      → p'.tasks ≡ p.tasks
      → IsJoined p.shards p.tasks
      → IsJoined p'.shards p'.tasks
  same-IsJoined p p' st same j =
      subst (IsJoined p'.shards) (sym same) (Steady-IsJoined p.shards p'.shards p.tasks st j)

  -- A call of the tasks pallet alone.
  task-IsJoined :
      (p p' : Pallets)
      → TaskRuns.Step (Online p.shards) p.tasks p'.tasks
      → p'.tasks.task_id_counter < u64_max
      → p'.shards ≡ p.shards
      → IsJoined p.shards p.tasks
      → IsJoined p'.shards p'.tasks
  task-IsJoined p p' st room same j =
      subst (λ s. IsJoined s p'.tasks) (sym same)
        (record {
          sound = j.sound;
          assigned =
              TaskRuns.Step-IsValid (Online p.shards) (Online_one p.shards) p.tasks p'.tasks
                j.assigned st room;
        })

  Step-IsJoined :
      (p p' : Pallets) → IsJoined p.shards p.tasks → Step p p' → IsJoined p'.shards p'.tasks
  unfolding commit mark_ready force_shard_offline
  Step-IsJoined p p' j (commits base cfg e o k c proof h same) =
      same-IsJoined p p'
        (After_ok (Steady p.shards)
          (commit (shards_config base cfg) p.shards (e, p.tasks) o k c proof)
          (After-skip (Steady p.shards) (ensure_signed o) _ λ m _.
            execute_commit-Steady (shards_config base cfg) p.shards (e, p.tasks) m k c proof
              j.sound)
          h)
        same j
  Step-IsJoined p p' j (readies base cfg e e' o k h) =
      let Q : Shards.State × (E × Tasks.State) → Type 0 = λ r. IsJoined r.0 r.1.1 in
      After_ok Q (mark_ready (shards_config base cfg) p.shards (e, p.tasks) o k)
        (After-skip Q (ensure_signed o) _
          λ m _. execute_ready-IsJoined base cfg p.shards (e, p.tasks) m k j)
        h
  Step-IsJoined p p' j (forces base cfg e e' o k h) =
      let Q : Shards.State × (E × Tasks.State) → Type 0 = λ r. IsJoined r.0 r.1.1 in
      After_ok Q (force_shard_offline (shards_config base cfg) p.shards (e, p.tasks) o k)
        (After-skip Q (ensure_admin o) _ λ _ _.
          remove_shards_offline-IsJoined base cfg p.shards p.shards (e, p.tasks) (k ∷ []) j refl
            refl refl refl)
        h
  Step-IsJoined p p' j (times base cfg e e' n h) =
      subst (λ (r : Shards.State × (E × Tasks.State)). IsJoined r.0 r.1.1) h
        (timeout_dkgs-IsJoined base cfg p.shards (e, p.tasks) n j)
  Step-IsJoined p p' j (onlines m h same) =
      same-IsJoined p p' (subst (Steady p.shards) h (member_online-Steady p.shards m j.sound)) same
        j
  Step-IsJoined p p' j (offlines base cfg e e' members h) =
      subst (λ (r : Shards.State × (E × Tasks.State)). IsJoined r.0 r.1.1) h
        (members_offline-IsJoined base cfg p.shards (e, p.tasks) members j)
  Step-IsJoined p p' j (creates base cfg block n members threshold k room h same) =
      same-IsJoined p p'
        (After_ok (λ (r : Shards.State × ℕ). Steady p.shards r.0)
          (create_shard (shards_config base cfg) p.shards block n members threshold)
          (create_shard-Steady (shards_config base cfg) p.shards block n members threshold room
            j.sound)
          h)
        same j
  Step-IsJoined p p' j (signs base cfg e k signer h same) =
      same-IsJoined p p'
        (After_ok (λ (r : Shards.State × ℕ). Steady p.shards r.0)
          (next_signer (shards_config base cfg) p.shards (e, p.tasks) k)
          (next_signer-Steady (shards_config base cfg) p.shards (e, p.tasks) k j.sound) h)
        same j
  Step-IsJoined p p' j (submits cfg o t r h room same) =
      task-IsJoined p p' (TaskRuns.submits (tasks_config cfg p.shards) o t r h) room same j
  Step-IsJoined p p' j (injects cfg o n es h room same) =
      task-IsJoined p p' (TaskRuns.injects (tasks_config cfg p.shards) o n es h) room same j
  Step-IsJoined p p' j (syncs cfg o n b h room same) =
      task-IsJoined p p' (TaskRuns.syncs (tasks_config cfg p.shards) o n b h) room same j
  Step-IsJoined p p' j (stops cfg o n h room same) =
      task-IsJoined p p' (TaskRuns.stops (tasks_config cfg p.shards) o n h) room same j
  Step-IsJoined p p' j (removes cfg o t h room same) =
      task-IsJoined p p' (TaskRuns.removes (tasks_config cfg p.shards) o t h) room same j
  Step-IsJoined p p' j (restarts cfg o b h room same) =
      task-IsJoined p p' (TaskRuns.restarts (tasks_config cfg p.shards) o b h) room same j
  Step-IsJoined p p' j (schedules cfg h room same) =
      task-IsJoined p p' (TaskRuns.initializes (tasks_config cfg p.shards) h) room same j
  Step-IsJoined p p' j (registers cfg n b h room same) =
      task-IsJoined p p' (TaskRuns.registers (tasks_config cfg p.shards) n b h) room same j

  init-IsJoined : IsJoined ShardRuns.init TaskRuns.init
  unfolding get prefix
  init-IsJoined = record {
    sound = record { met = λ k m st h g. absurd cc; known = λ k n h. absurd cc };
    assigned = TaskRuns.init-IsValid (Online ShardRuns.init) (Online_one ShardRuns.init);
  }

  -- After every run of the shards pallet and the tasks pallet, each with the other as in the runtime,
  -- in any order of their calls and blocks and with any answers of the other pallets, the assignment
  -- of the tasks is valid for the shards that are online: a task is in one shard at most and that
  -- shard is online, a queued task is in none, the shards that a network lists are online and have
  -- that network, and so is the shard that holds its read task. Every member of an online shard is
  -- ready, and every shard with a network was given its id. Shard ids and task ids do not run out.
  pub runtime-IsJoined : {p : Pallets} → Reach init p → IsJoined p.shards p.tasks
  runtime-IsJoined here = init-IsJoined
  runtime-IsJoined (next {q} {r} run st) = Step-IsJoined q r (runtime-IsJoined run) st
