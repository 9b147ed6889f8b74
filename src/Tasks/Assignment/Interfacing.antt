-- ===== src/Tasks/Assignment/Interfacing.antt =====
-- `TasksInterface` of pallets/tasks/src/lib.rs keeps the assignment valid: a shard goes online or
-- offline, or a gateway is registered.
use mathlib.Core.Path.{fun_ext}
use timechain.Prelude.{
  ℕ, ◌≡◌, refl, sym, subst, ◌∙◌, ap, inl, inr, Option, none, some, [], arith, Bool-cases, ◌==◌,
  ==_refl, ==→eq, is_some,
}
use timechain.Storage.{
  get, remove₂, insert₂, prefix, drain_prefix, prefix-drain_prefix, get₂, get₂-insert₂,
  get₂-remove₂,
}
use timechain.Outcome.{After, After-bind}
use timechain.Primitives.Gmp.{GatewayOp, register_shard, unregister_shard}
use timechain.Tasks.State.{State, Config}
use timechain.Tasks.Interface.{
  queue_op, unassign_tasks, shard_online, shard_offline, gateway_registered,
}
use timechain.Tasks.Core.{read_events}
use timechain.Tasks.Assignment.{ledger, IsValid}
use timechain.Tasks.Assignment.Updates.{shrink-IsValid}
use timechain.Tasks.Assignment.Adding.{join-IsValid}
use timechain.Tasks.Assignment.Counting.{rehome-IsValid}
use timechain.Tasks.Assignment.Submitting.{Sound, read_events-Sound}
use timechain.Tasks.Assignment.Draining.{
  draining, none≢some, unassign_tasks-IsValid, unassign_tasks_maps, draining_whole,
}

queue_op-ledger :
    (s : State) (n : ℕ) (op : ℕ → GatewayOp) (key : Option ℕ)
    → ledger (queue_op s n op key) ≡ ledger s
unfolding queue_op
queue_op-ledger s n op none = refl
queue_op-ledger s n op (some k) = refl

module _ (Home : ℕ → ℕ → Type 0) (cfg : Config) (s : State) (v : IsValid Home (ledger s)) where
  -- Before the first task is handed back: the drained prefix is listed beside the map.
  drained_start :
      (shard n : ℕ)
      → IsValid Home (
          draining
            (record s {
              network_shards = remove₂ s.network_shards n shard;
              shard_tasks = drain_prefix s.shard_tasks shard;
            })
            shard
            (prefix s.shard_tasks shard))
  drained_start shard n =
      shrink-IsValid Home (ledger s) _ v (λ m j t h. h)
        (λ m k h. ground (arith, get₂-remove₂ s.network_shards n shard m k)) (λ m t h. h)
        (fun_ext λ k. elim (Bool-cases (k == shard)) [
          | inl same ↦ rw same (rw (==→eq k shard same))
          | inr other ↦ rw other (ground (arith, prefix-drain_prefix s.shard_tasks shard k))
        ])
        refl (omega arith) (λ u h. h) (λ m j u h g. g) refl v.unique_read

  -- After a shard has gone offline for the one network that it may work for, no task is in it and no
  -- network lists it.
  pub shard_offline-IsValid :
      (shard n : ℕ)
      → ((m : ℕ) → Home m shard → m ≡ n)
      → IsValid (λ m k. Home m k × (k ≡ shard → ⊥)) (ledger (shard_offline cfg s shard n))
  unfolding shard_offline get
  shard_offline-IsValid shard n only =
      let drained : State = record s {
        network_shards = remove₂ s.network_shards n shard;
        shard_tasks = drain_prefix s.shard_tasks shard;
      } in
      let read = get s.read_events_task n in
      let tasks = prefix s.shard_tasks shard in
      let freed = unassign_tasks drained n read tasks in
      let kept = unassign_tasks_maps tasks drained n read in
      let none_left : prefix freed.shard_tasks shard ≡ [] =
        ap (λ m. prefix m shard) kept.0
        ∙ (prefix-drain_prefix s.shard_tasks shard shard ∙ rw (==_refl shard) refl) in
      let valid : IsValid Home (ledger freed) =
        subst (IsValid Home) (draining_whole freed shard [] none_left) (
          unassign_tasks-IsValid Home shard n only read tasks drained (drained_start shard n)
            refl) in
      let empty : (t k : ℕ) → get freed.task_shard t ≡ some k → k ≡ shard → ⊥ = λ t k h e.
        none≢some
          (ap (λ m. get m t) (sym none_left) ∙ valid.listed t shard (h ∙ ap (λ j. some j) e)) in
      let unlisted : (m k : ℕ)
          → get₂ freed.network_shards m k ≡ some tt
          → Home m k
          → k ≡ shard
          → ⊥ =
        λ m k h home e.
          let at : m ≡ n = only m (subst (Home m) e home) in
          ground (
            arith,
            at,
            e,
            ap (λ d. get₂ d m k) (sym kept.1) ∙ h,
            get₂-remove₂ s.network_shards n shard m k,
          ) in
      subst (IsValid (λ m k. Home m k × (k ≡ shard → ⊥)))
        (sym (queue_op-ledger _ n unregister_shard _))
        (rehome-IsValid Home _ (ledger freed) (λ m t k h home. (home, empty t k h))
          (λ m k h home. (home, unlisted m k h home)) valid)

  pub shard_online-IsValid :
      (shard n : ℕ) → Home n shard → IsValid Home (ledger (shard_online cfg s shard n))
  unfolding shard_online
  shard_online-IsValid shard n made =
      let joined =
        join-IsValid Home (ledger s)
          (ledger (record s { network_shards = insert₂ s.network_shards n shard tt })) v n shard
          made (λ m k. get₂-insert₂ s.network_shards n shard m k tt) refl refl refl refl refl refl
          refl in
      elim (Bool-cases (is_some (cfg.gateway n))) [
        | inl known ↦
            rw known (subst (IsValid Home) (sym (queue_op-ledger _ n register_shard _)) joined)
        | inr unknown ↦ rw unknown joined
      ]

  pub gateway_registered-Sound :
      (n block : ℕ) → After (Sound Home cfg) (gateway_registered cfg s n block)
  unfolding gateway_registered
  gateway_registered-Sound n block =
      After-bind (λ (r : State × ℕ). Sound Home cfg r.0) _ (read_events cfg _ n) _
        (read_events-Sound Home cfg _ n v) (λ r h. h)
