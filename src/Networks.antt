-- ===== src/Networks.antt =====
-- pallets/networks/src/lib.rs: the connected chains and their configuration. Chain names, URLs and
-- lists of contracts are lists of numbers, whose bounds their types already hold.
pub mod Config
pub mod Alignment
pub mod Lifecycle
pub mod FirstRead
pub mod Tests
use timechain.Prelude.{
  ℕ, ◌-◌, ◌%◌, Bool, false, Option, none, some, List, [], ◌∷◌, ◌==◌, leb, if◌then◌else◌, is_none,
  unwrap_or, map, wrapping_add, u64_mod,
}
use timechain.Storage.{Map, get, insert, remove, contains_key}
use timechain.Outcome.{
  Outcome, ok, err, panic, ◌>>=◌, ◌>>◌, ensure, network_exists, network_not_found,
  shard_size_above_max, threshold_larger_than_size, Origin, ensure_admin,
}

-- primitives/src/network.rs and primitives/src/shard.rs.
pub record NetworkConfig : Type 0 where
  pub batch_size : ℕ
  pub batch_offset : ℕ
  pub batch_gas_limit : ℕ
  pub shard_task_limit : ℕ
  pub shard_size : ℕ
  pub shard_threshold : ℕ
  pub cctp_contracts : Option (List ℕ)
  pub cctp_url : Option (List ℕ)

pub record Network : Type 0 where
  pub id : ℕ
  pub chain_name : List ℕ
  pub gateway : ℕ
  pub gateway_block : ℕ
  pub config : NetworkConfig

abbrev pub max_shard_size : ℕ
max_shard_size = 100

pub data Event : Type 0 where
  network_registered : ℕ → ℕ → ℕ → Event
  network_config_changed : ℕ → NetworkConfig → Event

-- One field for each storage; `events` is what has been deposited, the latest first.
pub record State : Type 0 where
  pub networks : Map ℕ
  pub network_name : Map (List ℕ)
  pub network_gateway_address : Map ℕ
  pub network_gateway_block : Map ℕ
  pub network_batch_size : Map ℕ
  pub network_batch_offset : Map ℕ
  pub network_batch_gas_limit : Map ℕ
  pub network_shard_task_limit : Map ℕ
  pub network_shard_size : Map ℕ
  pub network_shard_threshold : Map ℕ
  pub network_cctp_contracts : Map (List ℕ)
  pub network_cctp_url : Map (List ℕ)
  pub events : List Event

-- What the pallet calls of the tasks pallet, whose state is `W`. The callee may read this pallet.
pub record TasksInterface (W : Type 0) : Type 0 where
  pub gateway_registered : State → W → ℕ → ℕ → Outcome W

abbrev pub insert_some : Map (List ℕ) → ℕ → Option (List ℕ) → Map (List ℕ)
insert_some m network none = m
insert_some m network (some v) = insert m network v

-- `insert_network_config` after its checks.
unfoldable pub store_config : State → ℕ → NetworkConfig → State
store_config s network config = record s {
  network_batch_size = insert s.network_batch_size network config.batch_size;
  network_batch_offset = insert s.network_batch_offset network config.batch_offset;
  network_batch_gas_limit = insert s.network_batch_gas_limit network config.batch_gas_limit;
  network_shard_task_limit = insert s.network_shard_task_limit network config.shard_task_limit;
  network_shard_size = insert s.network_shard_size network config.shard_size;
  network_shard_threshold = insert s.network_shard_threshold network config.shard_threshold;
  network_cctp_contracts = insert_some s.network_cctp_contracts network config.cctp_contracts;
  network_cctp_url = insert_some s.network_cctp_url network config.cctp_url;
  events = network_config_changed network config ∷ s.events;
}

unfoldable pub insert_network_config : State → ℕ → NetworkConfig → Outcome State
insert_network_config s network config =
    ensure (contains_key s.networks network) network_not_found
    >> (ensure (leb config.shard_size max_shard_size) shard_size_above_max
        >> (ensure (leb config.shard_threshold config.shard_size) threshold_larger_than_size
            >> ok (store_config s network config)))

abbrev pub is_address : ℕ → Option ℕ → Bool
is_address a none = false
is_address a (some b) = a == b

module _ {W : Type 0} (tasks : TasksInterface W) where
  -- The gateway is new: it is stored, and the tasks pallet is told.
  unfoldable pub register_gateway : State → W → Network → Outcome (State × W)
  register_gateway s w network =
      let stored : State = record s {
        network_gateway_address = insert s.network_gateway_address network.id network.gateway;
        network_gateway_block = insert s.network_gateway_block network.id network.gateway_block;
      } in
      tasks.gateway_registered stored w network.id network.gateway_block >>= λ w'. ok (
        record stored {
          events = network_registered network.id network.gateway network.gateway_block ∷ s.events;
        },
        w',
      )

  -- A gateway that is known already is left alone.
  unfoldable pub note_gateway : State → W → Network → Outcome (State × W)
  note_gateway s w network =
      if is_address network.gateway (get s.network_gateway_address network.id)
      then ok (s, w)
      else register_gateway s w network

  unfoldable pub insert_network : State → W → Network → Outcome (State × W)
  insert_network s w network =
      ensure (is_none (get s.networks network.id)) network_exists
      >> (let named : State = record s {
        networks = insert s.networks network.id network.id;
        network_name = insert s.network_name network.id network.chain_name;
      } in
          note_gateway named w network >>= λ r.
          insert_network_config r.0 network.id network.config >>= λ s'. ok (s', r.1))

  -- `GenesisConfig::build`, which expects every network to be inserted.
  pub build : State → W → List Network → Outcome (State × W)
  build s w [] = ok (s, w)
  build s w (network ∷ networks) = elim (insert_network s w network) [
    | ok r ↦ build r.0 r.1 networks
    | err e ↦ panic
    | panic ↦ panic
  ]

  unfoldable pub register_network : State → W → Origin → Network → Outcome (State × W)
  register_network s w origin network = ensure_admin origin >> insert_network s w network

unfoldable pub set_network_config : State → Origin → ℕ → NetworkConfig → Outcome State
set_network_config s origin network config =
    ensure_admin origin >> insert_network_config s network config

-- `NetworkBatchOffset` stays as it is.
unfoldable pub remove_network : State → Origin → ℕ → Outcome State
remove_network s origin network =
    ensure_admin origin
    >> ok (record s {
      networks = remove s.networks network;
      network_name = remove s.network_name network;
      network_gateway_address = remove s.network_gateway_address network;
      network_gateway_block = remove s.network_gateway_block network;
      network_batch_size = remove s.network_batch_size network;
      network_batch_gas_limit = remove s.network_batch_gas_limit network;
      network_shard_task_limit = remove s.network_shard_task_limit network;
      network_shard_size = remove s.network_shard_size network;
      network_shard_threshold = remove s.network_shard_threshold network;
      network_cctp_contracts = remove s.network_cctp_contracts network;
      network_cctp_url = remove s.network_cctp_url network;
    })

-- `NetworksInterface`.
pub get_networks : State → List ℕ
get_networks s = map (λ e. e.0) s.network_name

pub gateway : State → ℕ → Option ℕ
gateway s network = get s.network_gateway_address network

-- A batch size of 0 is a division by zero, which panics.
unfoldable pub next_batch_size : State → ℕ → ℕ → Option ℕ
next_batch_size s network block_height =
    let network_batch_size = unwrap_or (get s.network_batch_size network) 32 in
    let network_offset = unwrap_or (get s.network_batch_offset network) 0 in
    if network_batch_size == 0
    then none
    else some (
        network_batch_size
        - (wrapping_add u64_mod block_height network_offset) % network_batch_size)

unfoldable pub batch_gas_limit : State → ℕ → ℕ
batch_gas_limit s network = unwrap_or (get s.network_batch_gas_limit network) 10000

unfoldable pub shard_task_limit : State → ℕ → ℕ
shard_task_limit s network = unwrap_or (get s.network_shard_task_limit network) 10

unfoldable pub shard_size : State → ℕ → ℕ
shard_size s network = unwrap_or (get s.network_shard_size network) 3

unfoldable pub shard_threshold : State → ℕ → ℕ
shard_threshold s network = unwrap_or (get s.network_shard_threshold network) 2
