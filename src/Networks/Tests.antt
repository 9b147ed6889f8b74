-- ===== src/Networks/Tests.antt =====
-- Tests of the model of pallets/networks/src/lib.rs, and the theorems at concrete chains.
use timechain.Prelude.{
  ℕ, ◌+◌, ◌%◌, ◌≡◌, ◌↔◌, ◌<◌, ◌≤◌, refl, true, some, none, [], ◌∷◌, arith, unwrap_or, suc,
}
use timechain.Storage.{get, insert}
use timechain.Outcome.{ok, Origin}
use timechain.Tasks.State as Tasks
use timechain.Tasks.Reach.{init as start}
use timechain.Networks.{
  network_config_changed, network_registered, State, Network, NetworkConfig, TasksInterface,
  register_network, set_network_config, next_batch_size, insert_network, register_gateway,
  note_gateway, insert_network_config, store_config,
}
use timechain.Networks.Config.{init, here, next, registers, IsValid, sizes, reachable-IsValid}
use timechain.Networks.Alignment.{next_batch_size-aligned}
use timechain.Networks.Lifecycle.{Accepted, Configured, set_network_config-eq_iff}

abbrev admin : Origin
admin = record { signer = none; is_admin = true }

abbrev config : NetworkConfig
config = record {
  batch_size = 10;
  batch_offset = 3;
  batch_gas_limit = 5000;
  shard_task_limit = 4;
  shard_size = 3;
  shard_threshold = 2;
  cctp_contracts = none;
  cctp_url = none;
}

abbrev chain : Network
chain = record { id = 1; chain_name = 65 ∷ []; gateway = 44; gateway_block = 100; config = config }

-- A tasks pallet that only counts the gateways.
abbrev counting : TasksInterface ℕ
counting = record { gateway_registered = λ s w network block. ok (suc w) }

abbrev registered : State
registered = record init {
  networks = (1, 1) ∷ [];
  network_name = (1, 65 ∷ []) ∷ [];
  network_gateway_address = (1, 44) ∷ [];
  network_gateway_block = (1, 100) ∷ [];
  network_batch_size = (1, 10) ∷ [];
  network_batch_offset = (1, 3) ∷ [];
  network_batch_gas_limit = (1, 5000) ∷ [];
  network_shard_task_limit = (1, 4) ∷ [];
  network_shard_size = (1, 3) ∷ [];
  network_shard_threshold = (1, 2) ∷ [];
  events = network_config_changed 1 config ∷ network_registered 1 44 100 ∷ [];
}

registers_chain : register_network counting init 0 admin chain ≡ ok (registered, 1)
unfolding register_network insert_network note_gateway register_gateway insert_network_config
    store_config get insert
registers_chain = refl

reachable-IsValid_example : IsValid (sizes registered)
reachable-IsValid_example =
    reachable-IsValid (next here (registers counting 0 1 admin chain registers_chain))

-- Of the batch from block 100 on, 7 blocks are left: 100 + 3 + 7 is a multiple of 10.
seven : next_batch_size registered 1 100 ≡ some 7
unfolding next_batch_size get
seven = refl

next_batch_size-aligned_example :
    (0 < 7)
    × (7 ≤ unwrap_or (get registered.network_batch_size 1) 32)
    × ((100 + unwrap_or (get registered.network_batch_offset 1) 0 + 7)
          % unwrap_or (get registered.network_batch_size 1) 32
        ≡ 0)
unfolding get
next_batch_size-aligned_example = next_batch_size-aligned registered 1 100 7 seven (omega arith)

set_network_config-eq_iff_example :
    ((s' : State) × (set_network_config registered admin 1 config ≡ ok s')
      × Configured registered s' 1 config)
    ↔ Accepted registered admin 1 config
set_network_config-eq_iff_example = set_network_config-eq_iff registered admin 1 config

accepted : Accepted registered admin 1 config
unfolding get
accepted = record { admin = refl; known = refl; small = omega arith; fits = omega arith }
