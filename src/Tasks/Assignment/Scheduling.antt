-- ===== src/Tasks/Assignment/Scheduling.antt =====
-- `schedule_tasks` of pallets/tasks/src/lib.rs keeps the assignment valid.
use timechain.Prelude.{
  ℕ, zero, suc, ◌≡◌, refl, inl, inr, none, some, List, [], ◌∷◌, arith, All, is_none, Bool-cases,
  Option-cases, ltb, ◌==◌, ◌-◌, saturating_add, u32_max, is_empty, if◌then◌else◌, subst, ◌&&◌,
  false,
}
use timechain.Storage.{Map, get, keys, prefix}
use timechain.Tasks.Queue.{pop}
use timechain.Tasks.State.{State, Config}
use timechain.Tasks.Core.{assign_task, is_shard_registered}
use timechain.Tasks.Schedule.{
  schedule_tasks_shard, Flow, continue, return, held, assign_read_task, assign_shards,
  assign_queued, schedule_network, schedule_networks, schedule_tasks, registered_shards,
}
use timechain.Tasks.Assignment.{ledger, IsValid}
use timechain.Tasks.Assignment.Counting.{except-IsValid}
use timechain.Tasks.Assignment.Steps.{assign_task-IsValid}
use timechain.Tasks.Assignment.Popping.{
  keys-All, entries-All, retain-All, pop-IsValid, pop_assign-IsValid,
}

module _ (Home : ℕ → ℕ → Type 0) where
  -- A valid assignment whose read tasks are the entries `r`.
  abbrev Kept : Map ℕ → State → Type 0
  Kept r s = IsValid Home (ledger s) × (s.read_events_task ≡ r)

  module _ (r : Map ℕ) where
    assign_task-Kept :
        (s : State) (shard t : ℕ)
        → s.read_events_task ≡ r
        → IsValid Home (ledger (assign_task s shard t))
        → Kept r (assign_task s shard t)
    unfolding assign_task
    assign_task-Kept s shard t e v = (v, e)

    schedule_tasks_shard-Kept :
        (capacity : ℕ) (s : State) (n shard : ℕ)
        → Home n shard
        → Kept r s
        → Kept r (schedule_tasks_shard capacity s n shard).0
    unfolding schedule_tasks_shard
    schedule_tasks_shard-Kept zero s n shard may k = k
    schedule_tasks_shard-Kept (suc capacity) s n shard may (v, e) =
        elim (Option-cases (pop s.ua_tasks n).1) [
          | inl none_left ↦
              rw (none_left, schedule_tasks_shard)
                (
                  pop-IsValid Home s n (λ u. false) v
                      (λ u h. absurd (ground (arith, none_left, h))),
                  e,
                )
          | inr (t, popped) ↦
              rw (popped, schedule_tasks_shard)
                (schedule_tasks_shard-Kept capacity _ n shard may
                  (assign_task-Kept _ shard t e (pop_assign-IsValid Home s n shard t v popped may)))
        ]

    -- The state that a loop leaves, whichever way it goes on.
    abbrev Keeps : Flow → Type 0
    Keeps (continue s assigned) = Kept r s
    Keeps (return s) = Kept r s

    module _ (cfg : Config) where
      -- The rest of the loop over the networks, after the round of one network.
      after_network : Map ℕ → Flow → State × ℕ
      after_network entries (continue s assigned) = schedule_networks cfg entries s assigned
      after_network entries (return s) = (s, cfg.max_tasks_per_block)

      assign_read_task-Keeps :
          (shards : List ℕ) (s : State) (assigned limit n t : ℕ)
          → All (Home n) shards
          → Kept r s
          → get s.task_shard t ≡ none
          → get r n ≡ some t
          → Keeps (assign_read_task cfg shards s assigned limit t)
      unfolding assign_read_task
      assign_read_task-Keeps [] s assigned limit n t ours k free current = k
      assign_read_task-Keeps (shard ∷ shards) s assigned limit n t ours (v, e) free current =
          let now : get s.read_events_task n ≡ some t = rw e current in
          elim (Bool-cases (ltb (held s shard) limit)) [
            | inl room ↦ rw room (elim (Bool-cases (assigned == cfg.max_tasks_per_block)) [
              | inl full ↦ rw full (v, e)
              | inr more ↦ rw more (
                  assign_task-Kept s shard t e (
                    assign_task-IsValid Home s shard t
                      (except-IsValid Home (ledger s) (λ u. u == t) v) free
                      (λ m i h. v.unread n t m i now h) (n, ours.0)
                      (λ m h. subst (λ x. Home x shard) (v.read_once n m t now h) ours.0)
                      (λ m h. v.unread_pending m t h) (v.known_read n t now)))
            ])
            | inr none_left ↦
                rw none_left
                  (assign_read_task-Keeps shards s assigned limit n t ours.1 (v, e) free current)
          ]

      assign_shards-Keeps :
          (shards : List ℕ) (s : State) (n assigned per_shard : ℕ)
          → All (Home n) shards
          → Kept r s
          → Keeps (assign_shards cfg shards s n assigned per_shard)
      unfolding assign_shards
      assign_shards-Keeps [] s n assigned per_shard ours k = k
      assign_shards-Keeps (shard ∷ shards) s n assigned per_shard ours k =
          let capacity : ℕ = per_shard - held s shard in
          elim (Bool-cases
            (ltb (saturating_add u32_max assigned capacity) cfg.max_tasks_per_block)) [
              | inl more ↦ rw more (
                  assign_shards-Keeps shards _ n _ per_shard ours.1
                    (schedule_tasks_shard-Kept capacity s n shard ours.0 k))
              | inr last ↦ rw last (
                  schedule_tasks_shard-Kept (cfg.max_tasks_per_block - assigned) s n shard ours.0 k)
            ]

      -- The registered shards of a network may work for it.
      registered_shards-All :
          (s : State) (n : ℕ) → IsValid Home (ledger s) → All (Home n) (registered_shards cfg s n)
      unfolding registered_shards
      registered_shards-All s n v =
          retain-All (Home n)
            (λ shard. is_shard_registered cfg s shard && cfg.is_shard_online shard)
            (keys (prefix s.network_shards n))
            (keys-All {P = Home n} (prefix s.network_shards n) (λ k h. v.members n k h))

      assign_queued-Keeps :
          (s : State) (n assigned : ℕ) → Kept r s → Keeps (assign_queued cfg s n assigned)
      unfolding assign_queued
      assign_queued-Keeps s n assigned k =
          elim (Bool-cases (is_empty (registered_shards cfg s n))) [
            | inl no_shard ↦ rw no_shard k
            | inr shards ↦
                rw shards (assign_shards-Keeps _ s n assigned _ (registered_shards-All s n k.0) k)
          ]

      then_queued :
          (f : Flow) (n : ℕ)
          → Keeps f
          → Keeps (elim f [
            | continue s' assigned' ↦ assign_queued cfg s' n assigned'
            | return s' ↦ return s'
          ])
      then_queued (continue s assigned) n k = assign_queued-Keeps s n assigned k
      then_queued (return s) n k = k

      read_part-Keeps :
          (s : State) (assigned n t : ℕ)
          → Kept r s
          → get r n ≡ some t
          → Keeps (
              if is_none (get s.task_shard t)
              then assign_read_task cfg
                  (keys (prefix s.network_shards n))
                  s
                  assigned
                  (cfg.shard_task_limit n)
                  t
              else continue s assigned)
      read_part-Keeps s assigned n t (v, e) current = elim (Option-cases (get s.task_shard t)) [
        | inl free ↦
            rw (free, Keeps)
              (assign_read_task-Keeps (keys (prefix s.network_shards n)) s assigned _ n t
                (keys-All {P = Home n} (prefix s.network_shards n) (λ k h. v.members n k h)) (v, e)
                free current)
        | inr (shard, busy) ↦ rw (busy, Keeps) (v, e)
      ]

      schedule_network-Keeps :
          (s : State) (assigned n t : ℕ)
          → Kept r s
          → get r n ≡ some t
          → Keeps (schedule_network cfg s assigned n t)
      unfolding schedule_network
      schedule_network-Keeps s assigned n t k current =
          then_queued _ n (read_part-Keeps s assigned n t k current)

      go_on :
          (entries : Map ℕ) (f : Flow)
          → Keeps f
          → ((s : State) (assigned : ℕ)
              → Kept r s
              → Kept r (schedule_networks cfg entries s assigned).0)
          → Kept r (after_network entries f).0
      unfolding after_network
      go_on entries (continue s assigned) k rest = rest s assigned k
      go_on entries (return s) k rest = k

      schedule_networks-Kept :
          (entries : Map ℕ) (s : State) (assigned : ℕ)
          → All (λ (e : ℕ × ℕ). get r e.0 ≡ some e.1) entries
          → Kept r s
          → Kept r (schedule_networks cfg entries s assigned).0
      unfolding schedule_networks after_network
      schedule_networks-Kept [] s assigned current k = k
      schedule_networks-Kept ((n, t) ∷ entries) s assigned current k =
          go_on entries (schedule_network cfg s assigned n t)
            (schedule_network-Keeps s assigned n t k current.0)
            (λ s' a k'. schedule_networks-Kept entries s' a current.1 k')

  -- Scheduling keeps a valid assignment valid, whatever the networks, limits and shards are.
  pub schedule_tasks-IsValid :
      (cfg : Config) (s : State)
      → IsValid Home (ledger s)
      → IsValid Home (ledger (schedule_tasks cfg s).0)
  unfolding schedule_tasks
  schedule_tasks-IsValid cfg s v =
      (schedule_networks-Kept s.read_events_task cfg s.read_events_task s 0
        (entries-All s.read_events_task v.unique_read) (v, refl)).0
