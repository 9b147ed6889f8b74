-- ===== src/Tasks/Assignment/Draining.antt =====
-- The tasks that a shard hands back when it goes offline, in pallets/tasks/src/lib.rs.
use mathlib.Core.Path.{fun_ext}
use timechain.Prelude.{
  ℕ, ◌≡◌, refl, sym, subst, ◌∙◌, ap, inl, inr, true, false, Option, none, some, [], ◌∷◌, arith,
  Bool-cases, if◌then◌else◌, ◌==◌, ==_refl, ==→eq,
}
use timechain.Storage.{Map, Unique, get, remove, prefix, get-remove, get-remove_self, get₂-insert₂}
use timechain.Tasks.Queue.{push, insert_at}
use timechain.Tasks.State.{State}
use timechain.Tasks.Interface.{is_read_task, unassign_task, unassign_tasks}
use timechain.Tasks.Assignment.{Ledger, ledger, except, IsValid}
use timechain.Tasks.Assignment.Updates.{release-IsValid}
use timechain.Tasks.Assignment.Adding.{enqueue-IsValid}
use timechain.Tasks.Assignment.Counting.{include-IsValid, except_other}
use timechain.Tasks.Assignment.Steps.{push_end}

-- The assignment of `s`, where `shard` holds what `m` lists: what is left of a drained prefix.
abbrev pub draining : State → ℕ → Map (Unit {0}) → Ledger
draining s shard m = record (ledger s) {
  shard_map = λ k. if k == shard then m else prefix s.shard_tasks k;
}

pub none≢some {ℓ} : {A : Type ℓ} {a : A} → none ≡ some a → ⊥
none≢some e = cc

not_read : (read : Option ℕ) (t : ℕ) → is_read_task read t ≡ false → read ≡ some t → ⊥
not_read none t h e = cc
not_read (some r) t h e = ground arith

is_read : (read : Option ℕ) (t : ℕ) → is_read_task read t ≡ true → read ≡ some t
is_read none t h = cc
is_read (some r) t h = ground arith

module _ (Home : ℕ → ℕ → Type 0) (shard n : ℕ) (only : (m : ℕ) → Home m shard → m ≡ n)
    (read_task : Option ℕ) where
  drained-Unique : (s : State) (m : Map (Unit {0})) → IsValid Home (draining s shard m) → Unique m
  drained-Unique s m v = rw (==_refl shard) at (v.unique_shards shard)

  -- The first task that is listed leaves the shard.
  freed-IsValid :
      (s : State) (t : ℕ) (m : Map (Unit {0}))
      → IsValid Home (draining s shard ((t, tt) ∷ m))
      → get s.task_shard t ≡ some shard
      → IsValid Home (
          except (λ x. x == t) (draining (record s { task_shard = remove s.task_shard t }) shard m))
  unfolding get
  freed-IsValid s t m v assigned =
      let unique = drained-Unique s ((t, tt) ∷ m) v in
      release-IsValid Home (draining s shard ((t, tt) ∷ m)) _ v shard t assigned
        (λ k u. elim (Bool-cases (k == shard)) [
          | inl same ↦ rw (same, ==_refl shard) (ground (arith, unique.0))
          | inr other ↦ rw other
        ])
        (λ u. get-remove s.task_shard t u)
        (λ u h. elim (Bool-cases (u == t)) [
          | inl same ↦ absurd (ground (arith, same, h))
          | inr other ↦ (rw other at h, λ e. ground (arith, e, other))
        ])
        refl refl refl refl refl
        (λ k. elim (Bool-cases (k == shard)) [
          | inl same ↦ rw same unique.1
          | inr other ↦ rw other (rw other at (v.unique_shards k))
        ])

  first_held :
      (s : State) (t : ℕ) (m : Map (Unit {0}))
      → IsValid Home (draining s shard ((t, tt) ∷ m))
      → get s.task_shard t ≡ some shard
  unfolding get
  first_held s t m v = v.held shard t (rw (==_refl shard) (rw (==_refl t)))

  -- It goes back into the queue, unless it is the network's read task.
  unassign_task-IsValid :
      (s : State) (t : ℕ) (m : Map (Unit {0}))
      → IsValid Home (draining s shard ((t, tt) ∷ m))
      → get s.read_events_task n ≡ read_task
      → IsValid Home (draining (unassign_task s n read_task t) shard m)
        × (get (unassign_task s n read_task t).read_events_task n ≡ read_task)
  unfolding unassign_task push
  unassign_task-IsValid s t m v current =
      let assigned = first_held s t m v in
      let freed = freed-IsValid s t m v assigned in
      elim (Bool-cases (is_read_task read_task t)) [
        | inl stays ↦ rw stays (
          include-IsValid Home _ t (v.unread_pending n t (current ∙ is_read read_task t stays))
              freed,
          current,
        )
        | inr other ↦ rw other (
          enqueue-IsValid Home _ _ freed n (insert_at s.ua_tasks n) t
              (get-remove_self s.task_shard t)
              (λ k j h. none≢some (sym (v.waiting k j t h) ∙ assigned))
              (λ k r. not_read read_task t other (
                sym current
                ∙ subst (λ x. get s.read_events_task x ≡ some t)
                    (only k (v.read_home k t shard r assigned)) r))
              (v.known_held t shard assigned) (omega arith)
              (λ k j. get₂-insert₂ s.ua_tasks.queue n (insert_at s.ua_tasks n) k j t)
              (λ u h ne. except_other (draining s shard m) t u h ne) refl
              (λ k. push_end s.ua_tasks n k) refl refl refl refl,
          current,
        )
      ]

  pub unassign_tasks-IsValid :
      (m : Map (Unit {0})) (s : State)
      → IsValid Home (draining s shard m)
      → get s.read_events_task n ≡ read_task
      → IsValid Home (draining (unassign_tasks s n read_task m) shard [])
  unfolding unassign_tasks
  unassign_tasks-IsValid [] s v current = v
  unassign_tasks-IsValid ((t, u) ∷ m) s v current =
      let (v', current') = unassign_task-IsValid s t m v current in
      unassign_tasks-IsValid m (unassign_task s n read_task t) v' current'

unassign_task_maps :
    (s : State) (n t : ℕ) (read : Option ℕ)
    → (let s' = unassign_task s n read t in
        (s'.shard_tasks ≡ s.shard_tasks) × (s'.network_shards ≡ s.network_shards))
unfolding unassign_task
unassign_task_maps s n t read = elim (Bool-cases (is_read_task read t)) [
  | inl stays ↦ rw stays (refl, refl)
  | inr other ↦ rw other (refl, refl)
]

pub unassign_tasks_maps :
    (m : Map (Unit {0})) (s : State) (n : ℕ) (read : Option ℕ)
    → (let s' = unassign_tasks s n read m in
        (s'.shard_tasks ≡ s.shard_tasks) × (s'.network_shards ≡ s.network_shards))
unfolding unassign_tasks
unassign_tasks_maps [] s n read = (refl, refl)
unassign_tasks_maps ((t, u) ∷ m) s n read =
    let rest = unassign_tasks_maps m (unassign_task s n read t) n read in
    let first = unassign_task_maps s n t read in (rest.0 ∙ first.0, rest.1 ∙ first.1)

-- To list what a shard holds beside its map is the map itself.
pub draining_whole :
    (s : State) (shard : ℕ) (m : Map (Unit {0}))
    → prefix s.shard_tasks shard ≡ m
    → draining s shard m ≡ ledger s
draining_whole s shard m e =
    ap (λ (f : ℕ → Map (Unit {0})). record (ledger s) { shard_map = f })
      (fun_ext λ k. elim (Bool-cases (k == shard)) [
        | inl same ↦ rw same (rw (==→eq k shard same) (sym e))
        | inr other ↦ rw other
      ])
