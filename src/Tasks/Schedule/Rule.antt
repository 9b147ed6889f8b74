-- ===== src/Tasks/Schedule/Rule.antt =====
-- A rule for `schedule_tasks` of pallets/tasks/src/lib.rs: it only pops from the queue of
-- unassigned tasks and assigns, so what these two keep it keeps.
use timechain.Prelude.{
  ℕ, zero, suc, ◌-◌, inl, inr, List, [], ◌∷◌, Bool-cases, Option-cases, ltb, ◌==◌, saturating_add,
  u32_max, is_empty, is_none, if◌then◌else◌, ◌≡◌, refl,
}
use timechain.Storage.{Map, get, keys, prefix}
use timechain.Tasks.Queue.{QueueImpl, pop}
use timechain.Tasks.State.{State, Config}
use timechain.Tasks.Core.{assign_task}
use timechain.Tasks.Schedule.{
  schedule_tasks_shard, Flow, continue, return, held, assign_read_task, assign_shards,
  assign_queued, schedule_network, schedule_networks, schedule_tasks, registered_shards,
}

module _ (cfg : Config) (P : State → Type 0)
    (pops : (s : State) (q : QueueImpl ℕ) → P s → P (record s { ua_tasks = q }))
    (assigns : (s : State) (shard t : ℕ) → P s → P (assign_task s shard t)) where
  shard_rule :
      (capacity : ℕ) (s : State) (n shard : ℕ) → P s → P (schedule_tasks_shard capacity s n shard).0
  unfolding schedule_tasks_shard
  shard_rule zero s n shard p = p
  shard_rule (suc capacity) s n shard p =
      let popped : State = record s { ua_tasks = (pop s.ua_tasks n).0 } in
      elim (Option-cases (pop s.ua_tasks n).1) [
        | inl e ↦ rw (e, schedule_tasks_shard) (pops s (pop s.ua_tasks n).0 p)
        | inr (t, e) ↦
            rw (e, schedule_tasks_shard)
              (shard_rule capacity (assign_task popped shard t) n shard
                (assigns popped shard t (pops s (pop s.ua_tasks n).0 p)))
      ]

  abbrev Left : Flow → Type 0
  Left (continue s assigned) = P s
  Left (return s) = P s

  read_rule :
      (shards : List ℕ) (s : State) (assigned limit t : ℕ)
      → P s
      → Left (assign_read_task cfg shards s assigned limit t)
  unfolding assign_read_task
  read_rule [] s assigned limit t p = p
  read_rule (shard ∷ shards) s assigned limit t p = elim (Bool-cases (ltb (held s shard) limit)) [
    | inl room ↦ rw room (elim (Bool-cases (assigned == cfg.max_tasks_per_block)) [
      | inl full ↦ rw full p
      | inr more ↦ rw more (assigns s shard t p)
    ])
    | inr none_left ↦ rw none_left (read_rule shards s assigned limit t p)
  ]

  shards_rule :
      (shards : List ℕ) (s : State) (n assigned per_shard : ℕ)
      → P s
      → Left (assign_shards cfg shards s n assigned per_shard)
  unfolding assign_shards
  shards_rule [] s n assigned per_shard p = p
  shards_rule (shard ∷ shards) s n assigned per_shard p =
      let capacity : ℕ = per_shard - held s shard in
      let done = schedule_tasks_shard capacity s n shard in
      elim (Bool-cases (ltb (saturating_add u32_max assigned capacity) cfg.max_tasks_per_block)) [
        | inl more ↦ rw more (
            shards_rule shards done.0 n (saturating_add u32_max assigned done.1) per_shard
              (shard_rule capacity s n shard p))
        | inr last ↦ rw last (shard_rule (cfg.max_tasks_per_block - assigned) s n shard p)
      ]

  queued_rule : (s : State) (n assigned : ℕ) → P s → Left (assign_queued cfg s n assigned)
  unfolding assign_queued
  queued_rule s n assigned p = elim (Bool-cases (is_empty (registered_shards cfg s n))) [
    | inl no_shard ↦ rw no_shard p
    | inr shards ↦ rw shards (shards_rule _ s n assigned _ p)
  ]

  then_rule :
      (f : Flow) (n : ℕ)
      → Left f
      → Left (elim f [ continue s a ↦ assign_queued cfg s n a | return s ↦ return s ])
  then_rule (continue s a) n p = queued_rule s n a p
  then_rule (return s) n p = p

  part_rule :
      (s : State) (assigned n t : ℕ)
      → P s
      → Left (
          if is_none (get s.task_shard t)
          then assign_read_task cfg
              (keys (prefix s.network_shards n))
              s
              assigned
              (cfg.shard_task_limit n)
              t
          else continue s assigned)
  part_rule s assigned n t p = elim (Option-cases (get s.task_shard t)) [
    | inl free ↦ rw (free, Left) (read_rule _ s assigned _ t p)
    | inr (shard, busy) ↦ rw (busy, Left) p
  ]

  network_rule : (s : State) (assigned n t : ℕ) → P s → Left (schedule_network cfg s assigned n t)
  unfolding schedule_network
  network_rule s assigned n t p = then_rule _ n (part_rule s assigned n t p)

  -- The rest of the loop over the networks, after the round of one network.
  after_network : Map ℕ → Flow → State × ℕ
  after_network entries (continue s assigned) = schedule_networks cfg entries s assigned
  after_network entries (return s) = (s, cfg.max_tasks_per_block)

  go_on :
      (entries : Map ℕ) (f : Flow)
      → Left f
      → ((s : State) (assigned : ℕ) → P s → P (schedule_networks cfg entries s assigned).0)
      → P (after_network entries f).0
  unfolding after_network
  go_on entries (continue s assigned) p rest = rest s assigned p
  go_on entries (return s) p rest = p

  networks_rule :
      (entries : Map ℕ) (s : State) (assigned : ℕ)
      → P s
      → P (schedule_networks cfg entries s assigned).0
  unfolding schedule_networks after_network
  networks_rule [] s assigned p = p
  networks_rule ((n, t) ∷ entries) s assigned p =
      go_on entries (schedule_network cfg s assigned n t) (network_rule s assigned n t p)
        (λ s' a p'. networks_rule entries s' a p')

  pub schedule_tasks_rule : (s : State) → P s → P (schedule_tasks cfg s).0
  unfolding schedule_tasks
  schedule_tasks_rule s p = networks_rule s.read_events_task s 0 p

pub schedule_tasks_counter :
    (cfg : Config) (s : State) → (schedule_tasks cfg s).0.task_id_counter ≡ s.task_id_counter
unfolding assign_task
schedule_tasks_counter cfg s =
    schedule_tasks_rule cfg (λ x. x.task_id_counter ≡ s.task_id_counter) (λ x q e. e) (λ x k t e. e)
      s refl
