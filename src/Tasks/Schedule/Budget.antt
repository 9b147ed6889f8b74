-- ===== src/Tasks/Schedule/Budget.antt =====
-- How many tasks one block assigns: `schedule_tasks` of pallets/tasks/src/lib.rs against its constant
-- `MaxTasksPerBlock`.
use timechain.Prelude.{
  ℕ, zero, suc, ◌+◌, ◌-◌, ◌≤◌, ◌≡◌, arith, Bool-cases, Option-cases, inl, inr, List, [], ◌∷◌,
  length, ltb, ◌==◌, saturating_add, u32_max, is_empty, is_none, if◌then◌else◌,
}
use timechain.Storage.{Map, get, insert, keys, prefix}
use timechain.Tasks.Queue.{pop}
use timechain.Tasks.State.{State, Config}
use timechain.Tasks.Core.{assign_task}
use timechain.Tasks.Schedule.{
  schedule_tasks_shard, Flow, continue, return, held, assign_read_task, assign_shards,
  assign_queued, schedule_network, schedule_networks, schedule_tasks, registered_shards,
  tasks_per_shard,
}

length-insert : {V : Type 0} (m : Map V) (k : ℕ) (v : V) → length (insert m k v) ≤ suc (length m)
unfolding insert
length-insert [] k v = omega arith
length-insert ((j, w) ∷ m) k v = elim (Bool-cases (k == j)) [
  | inl same ↦ rw same (omega arith)
  | inr other ↦ let rest = length-insert m k v in rw other (omega (arith, rest))
]

abbrev count : State → ℕ
count s = length s.task_shard

count-assign_task : (s : State) (k t : ℕ) → count (assign_task s k t) ≤ suc (count s)
unfolding assign_task
count-assign_task s k t = length-insert s.task_shard t k

-- A shard gets at most the tasks that are counted, and no more than its capacity.
record Bounded (capacity : ℕ) (s : State) (r : State × ℕ) : Type 0 where
  pub grown : count r.0 ≤ count s + r.1
  pub few : r.1 ≤ capacity

schedule_tasks_shard-Bounded :
    (capacity : ℕ) (s : State) (n k : ℕ)
    → capacity ≤ u32_max
    → Bounded capacity s (schedule_tasks_shard capacity s n k)
unfolding schedule_tasks_shard
schedule_tasks_shard-Bounded zero s n k small = record { grown = omega arith; few = omega arith }
schedule_tasks_shard-Bounded (suc capacity) s n k small =
    let popped : State = record s { ua_tasks = (pop s.ua_tasks n).0 } in
    elim (Option-cases (pop s.ua_tasks n).1) [
      | inl e ↦ rw (e, schedule_tasks_shard) (record { grown = omega arith; few = omega arith })
      | inr (t, e) ↦
          let rest =
            schedule_tasks_shard-Bounded capacity (assign_task popped k t) n k (omega arith) in
          let one = count-assign_task popped k t in
          rw (e, schedule_tasks_shard)
            (record {
              grown = omega (arith, rest.grown, rest.few, one);
              few = omega (arith, rest.few);
            })
    ]

module _ (cfg : Config) (base : ℕ) (word : cfg.max_tasks_per_block ≤ u32_max) where
  -- What has been assigned since there were `base` tasks in shards.
  abbrev Within : Flow → Type 0
  Within (continue s assigned) = (count s ≤ base + assigned) × (assigned ≤ cfg.max_tasks_per_block)
  Within (return s) = count s ≤ base + cfg.max_tasks_per_block

  assign_read_task-Within :
      (shards : List ℕ) (s : State) (assigned limit t : ℕ)
      → count s ≤ base + assigned
      → assigned ≤ cfg.max_tasks_per_block
      → Within (assign_read_task cfg shards s assigned limit t)
  unfolding assign_read_task
  assign_read_task-Within [] s assigned limit t g h = (g, h)
  assign_read_task-Within (k ∷ shards) s assigned limit t g h =
      elim (Bool-cases (ltb (held s k) limit)) [
        | inr none_left ↦ rw none_left (assign_read_task-Within shards s assigned limit t g h)
        | inl room ↦ rw room (elim (Bool-cases (assigned == cfg.max_tasks_per_block)) [
          | inl full ↦ rw full (omega (arith, g, h))
          | inr more ↦
              let one = count-assign_task s k t in
              let next : saturating_add u32_max assigned 1 ≡ suc assigned = ground arith in
              rw (more, next) (omega (arith, one), ground arith)
        ])
      ]

  assign_shards-Within :
      (shards : List ℕ) (s : State) (n assigned per_shard : ℕ)
      → per_shard ≤ u32_max
      → count s ≤ base + assigned
      → assigned ≤ cfg.max_tasks_per_block
      → Within (assign_shards cfg shards s n assigned per_shard)
  unfolding assign_shards
  assign_shards-Within [] s n assigned per_shard small g h = (g, h)
  assign_shards-Within (k ∷ shards) s n assigned per_shard small g h =
      let capacity : ℕ = per_shard - held s k in
      let done = schedule_tasks_shard capacity s n k in
      let one = schedule_tasks_shard-Bounded capacity s n k (omega arith) in
      elim (Bool-cases (ltb (saturating_add u32_max assigned capacity) cfg.max_tasks_per_block)) [
        | inl more ↦
            let fits : assigned + capacity ≤ cfg.max_tasks_per_block = ground arith in
            let next : saturating_add u32_max assigned done.1 ≡ assigned + done.1 =
              omega (arith, one.few) in
            rw more (
              assign_shards-Within shards done.0 n (saturating_add u32_max assigned done.1)
                per_shard small (omega (arith, next, one.grown)) (omega (arith, next, one.few)))
        | inr last ↦
            let rest =
              schedule_tasks_shard-Bounded (cfg.max_tasks_per_block - assigned) s n k
                (omega arith) in
            rw last (omega (arith, rest.grown, rest.few))
      ]

  assign_queued-Within :
      (s : State) (n assigned : ℕ)
      → count s ≤ base + assigned
      → assigned ≤ cfg.max_tasks_per_block
      → Within (assign_queued cfg s n assigned)
  unfolding assign_queued tasks_per_shard
  assign_queued-Within s n assigned g h = elim (Bool-cases (is_empty (registered_shards cfg s n))) [
    | inl no_shard ↦ rw no_shard (g, h)
    | inr shards ↦
        rw shards
          (assign_shards-Within (registered_shards cfg s n) s n assigned _ (omega arith) g h)
  ]

  then-Within :
      (f : Flow) (n : ℕ)
      → Within f
      → Within (elim f [ continue s a ↦ assign_queued cfg s n a | return s ↦ return s ])
  then-Within (continue s a) n w = assign_queued-Within s n a w.0 w.1
  then-Within (return s) n w = w

  read_part :
      (s : State) (assigned n t : ℕ)
      → count s ≤ base + assigned
      → assigned ≤ cfg.max_tasks_per_block
      → Within (
          if is_none (get s.task_shard t)
          then assign_read_task cfg
              (keys (prefix s.network_shards n))
              s
              assigned
              (cfg.shard_task_limit n)
              t
          else continue s assigned)
  read_part s assigned n t g h = elim (Option-cases (get s.task_shard t)) [
    | inl free ↦ rw (free, Within) (assign_read_task-Within _ s assigned _ t g h)
    | inr (k, busy) ↦ rw (busy, Within) (g, h)
  ]

  after_round : Map ℕ → Flow → State × ℕ
  after_round entries (continue s assigned) = schedule_networks cfg entries s assigned
  after_round entries (return s) = (s, cfg.max_tasks_per_block)

  rest-Within :
      (entries : Map ℕ) (f : Flow)
      → Within f
      → ((s : State) (assigned : ℕ)
          → count s ≤ base + assigned
          → assigned ≤ cfg.max_tasks_per_block
          → count (schedule_networks cfg entries s assigned).0 ≤ base + cfg.max_tasks_per_block)
      → count (after_round entries f).0 ≤ base + cfg.max_tasks_per_block
  unfolding after_round
  rest-Within entries (continue s a) w rest = rest s a w.0 w.1
  rest-Within entries (return s) w rest = w

  networks-Within :
      (entries : Map ℕ) (s : State) (assigned : ℕ)
      → count s ≤ base + assigned
      → assigned ≤ cfg.max_tasks_per_block
      → count (schedule_networks cfg entries s assigned).0 ≤ base + cfg.max_tasks_per_block
  unfolding schedule_networks after_round schedule_network
  networks-Within [] s assigned g h = omega (arith, g, h)
  networks-Within ((n, t) ∷ entries) s assigned g h =
      rest-Within entries (schedule_network cfg s assigned n t)
        (then-Within _ n (read_part s assigned n t g h))
        (λ s' a g' h'. networks-Within entries s' a g' h')

-- One call of `schedule_tasks` puts at most `MaxTasksPerBlock` more tasks into shards, a constant of
-- 32 bits, whatever the networks, shards and limits are.
pub schedule_tasks_budget :
    (cfg : Config) (s : State)
    → cfg.max_tasks_per_block ≤ u32_max
    → length (schedule_tasks cfg s).0.task_shard ≤ length s.task_shard + cfg.max_tasks_per_block
unfolding schedule_tasks
schedule_tasks_budget cfg s word =
    networks-Within cfg (count s) word s.read_events_task s 0 (omega arith) (omega arith)
