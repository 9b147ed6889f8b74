-- ===== src/Runtime.antt =====
-- runtime/src/configs/custom.rs: the shards pallet and the tasks pallet, each as the other's
-- parameter. The elections and members pallets stay a parameter of the shards pallet, with the
-- state `E`, and the networks pallet one of the tasks pallet.
pub mod Online
pub mod Creating
pub mod Removing
pub mod Leaving
pub mod Effects
pub mod Reach
pub mod Keeping
pub mod Tests
use timechain.Prelude.{ℕ, List, Option, none}
use timechain.Outcome.{Outcome, ok, err, panic}
use timechain.Shards as Shards
use timechain.Shards.Interface.{shard_network, shard_members, tss_public_key, is_shard_online}
use timechain.Tasks.State as Tasks
use timechain.Tasks.Interface.{shard_online, shard_offline}

-- The key of a shard. With an empty commitment the shards pallet panics; there is no key then.
abbrev pub key_of : Outcome (Option ℕ) → Option ℕ
key_of (ok key) = key
key_of (err e) = none
key_of panic = none

-- `impl pallet_tasks::Config for Runtime`.
abbrev pub tasks_config : Tasks.Config → Shards.State → Tasks.Config
tasks_config cfg s = record cfg {
  max_tasks_per_block = 50;
  max_batches_per_block = 10;
  shard_network = shard_network s;
  shard_members = shard_members s;
  tss_public_key = λ k. key_of (tss_public_key s k);
  is_shard_online = is_shard_online s;
}

-- `impl pallet_shards::Config for Runtime`, over the answers of the other pallets.
abbrev pub shards_config :
    {E : Type 0} → Shards.Config E → Tasks.Config → Shards.Config (E × Tasks.State)
shards_config base cfg = record {
  dkg_timeout = 10;
  max_elections_per_block = 25;
  member_peer_id = λ w m. base.member_peer_id w.0 m;
  member_public_key = λ w m. base.member_public_key w.0 m;
  tasks_shard_online = λ s w k n. (w.0, shard_online (tasks_config cfg s) w.1 k n);
  tasks_shard_offline = λ s w k n. (w.0, shard_offline (tasks_config cfg s) w.1 k n);
  elections_shard_offline = λ s w n members. (base.elections_shard_offline s w.0 n members, w.1);
  is_verifying_key = base.is_verifying_key;
  add_keys = base.add_keys;
  verify_proof_of_knowledge = base.verify_proof_of_knowledge;
}
