-- ===== src/Networks/FirstRead.antt =====
-- A chain is registered in pallets/networks/src/lib.rs, with pallets/tasks/src/lib.rs as the tasks
-- pallet.
use timechain.Prelude.{ℕ, suc, ◌≡◌, none, some, saturating_add, u64_max}
use timechain.Storage.{get, insert}
use timechain.Primitives.Task.{read_gateway_events}
use timechain.Tasks.State as Tasks
use timechain.Tasks.Core.{create_task}
use timechain.Tasks.Interface.{gateway_registered}
use timechain.Networks.{
  State, Network, TasksInterface, next_batch_size, gateway, batch_gas_limit, shard_task_limit,
}

-- The tasks pallet asks this pallet about the networks.
abbrev pub asking : Tasks.Config → State → Tasks.Config
asking cfg s = record cfg {
  gateway = gateway s;
  next_batch_size = next_batch_size s;
  batch_gas_limit = batch_gas_limit s;
  shard_task_limit = shard_task_limit s;
}

abbrev pub tasks_pallet : Tasks.Config → TasksInterface Tasks.State
tasks_pallet cfg = record {
  gateway_registered = λ s t network block. gateway_registered (asking cfg s) t network block;
}

-- A chain of which nothing is stored.
pub record Unknown (s : State) (n : ℕ) : Type 0 where
  pub network : get s.networks n ≡ none
  pub gateway : get s.network_gateway_address n ≡ none
  pub batch_size : get s.network_batch_size n ≡ none
  pub batch_offset : get s.network_batch_offset n ≡ none

-- The first read task of the chain: blocks `block` to `end`, under the next task id.
pub record Opened (t t' : Tasks.State) (n block end : ℕ) : Type 0 where
  pub task : get t'.tasks (suc t.task_id_counter) ≡ some (read_gateway_events block end)
  pub reads : get t'.read_events_task n ≡ some (suc t.task_id_counter)
  pub height : get t'.sync_height n ≡ some block

abbrev opened : Tasks.State → ℕ → ℕ → ℕ → Tasks.State
opened t n block size =
    (create_task (record t { sync_height = insert t.sync_height n block }) n
      (read_gateway_events block (saturating_add u64_max block size))).0

-- The state that the tasks pallet sees when the gateway is registered.
abbrev told : State → Network → State
told s network = record s {
  networks = insert s.networks network.id network.id;
  network_name = insert s.network_name network.id network.chain_name;
  network_gateway_address = insert s.network_gateway_address network.id network.gateway;
  network_gateway_block = insert s.network_gateway_block network.id network.gateway_block;
}
