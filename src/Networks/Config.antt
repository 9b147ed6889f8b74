-- ===== src/Networks/Config.antt =====
-- What pallets/networks/src/lib.rs keeps true of the configuration of every chain, over all its
-- calls in any order.
use timechain.Prelude.{
  ℕ, ◌≤◌, ◌≡◌, refl, List, [], arith, leb, unwrap_or, Bool-cases, inl, inr, is_none,
}
use timechain.Storage.{Map, get, insert, get-insert, get-remove, contains_key}
use timechain.Outcome.{
  ok, Origin, After, After-skip, After-bind, After_ok, ensure, ensure_ok, ensure_admin,
  shard_size_above_max, threshold_larger_than_size, network_not_found, network_exists,
}
use timechain.Networks.{
  State, Network, NetworkConfig, TasksInterface, max_shard_size, store_config,
  insert_network_config, register_gateway, note_gateway, insert_network, register_network,
  set_network_config, remove_network, is_address,
}

-- The part of a state that the invariant reads.
pub record Sizes : Type 0 where
  pub networks : Map ℕ
  pub names : Map (List ℕ)
  pub size : Map ℕ
  pub threshold : Map ℕ

abbrev pub sizes : State → Sizes
sizes s = record {
  networks = s.networks;
  names = s.network_name;
  size = s.network_shard_size;
  threshold = s.network_shard_threshold;
}

-- A shard of any chain has at most 100 members and needs at most all of them, and a chain has a
-- name exactly when it is registered.
pub record IsValid (c : Sizes) : Type 0 where
  pub bounded : (n : ℕ) → unwrap_or (get c.size n) 3 ≤ max_shard_size
  pub reachable : (n : ℕ) → unwrap_or (get c.threshold n) 2 ≤ unwrap_or (get c.size n) 3
  pub named : (n : ℕ) → contains_key c.names n ≡ contains_key c.networks n

store_config-IsValid :
    (s : State) (n : ℕ) (c : NetworkConfig)
    → IsValid (sizes s)
    → c.shard_size ≤ max_shard_size
    → c.shard_threshold ≤ c.shard_size
    → IsValid (sizes (store_config s n c))
unfolding store_config
store_config-IsValid s n c v small fits = record {
  bounded = λ m. ground (arith, get-insert s.network_shard_size n m c.shard_size, v.bounded m);
  reachable = λ m. ground (
    arith,
    get-insert s.network_shard_size n m c.shard_size,
    get-insert s.network_shard_threshold n m c.shard_threshold,
    v.reachable m,
  );
  named = v.named;
}

insert_network_config-Keeps :
    (s : State) (n : ℕ) (c : NetworkConfig)
    → IsValid (sizes s)
    → After (λ s'. IsValid (sizes s')) (insert_network_config s n c)
unfolding insert_network_config
insert_network_config-Keeps s n c v =
    After-skip _ (ensure (contains_key s.networks n) network_not_found) _ λ _ _.
      After-skip _ (ensure (leb c.shard_size max_shard_size) shard_size_above_max) _ λ _ small.
        After-skip _ (ensure (leb c.shard_threshold c.shard_size) threshold_larger_than_size) _
          λ _ fits.
            let small' = ensure_ok (leb c.shard_size max_shard_size) shard_size_above_max small in
            let fits' =
              ensure_ok (leb c.shard_threshold c.shard_size) threshold_larger_than_size fits in
            store_config-IsValid s n c v (ground arith) (ground arith)

named_network : State → Network → State
named_network s network = record s {
  networks = insert s.networks network.id network.id;
  network_name = insert s.network_name network.id network.chain_name;
}

named_network-IsValid :
    (s : State) (network : Network) → IsValid (sizes s) → IsValid (sizes (named_network s network))
unfolding named_network
named_network-IsValid s network v = record {
  bounded = v.bounded;
  reachable = v.reachable;
  named = λ m. ground (
    arith,
    get-insert s.networks network.id m network.id,
    get-insert s.network_name network.id m network.chain_name,
    v.named m,
  );
}

remove_network-Keeps :
    (s : State) (origin : Origin) (n : ℕ)
    → IsValid (sizes s)
    → After (λ s'. IsValid (sizes s')) (remove_network s origin n)
unfolding remove_network
remove_network-Keeps s origin n v =
    After-skip (λ s'. IsValid (sizes s')) (ensure_admin origin) _
      λ _ _. record {
        bounded = λ m. ground (arith, get-remove s.network_shard_size n m, v.bounded m);
        reachable = λ m. ground (
          arith,
          get-remove s.network_shard_size n m,
          get-remove s.network_shard_threshold n m,
          v.reachable m,
        );
        named = λ m.
            ground (arith, get-remove s.networks n m, get-remove s.network_name n m, v.named m);
      }

module _ {W : Type 0} (tasks : TasksInterface W) where
  register_gateway-Keeps :
      (s : State) (w : W) (network : Network)
      → IsValid (sizes s)
      → After (λ (r : State × W). IsValid (sizes r.0)) (register_gateway tasks s w network)
  unfolding register_gateway
  register_gateway-Keeps s w network v =
      After-skip (λ (r : State × W). IsValid (sizes r.0)) (tasks.gateway_registered _ w _ _) _
        λ _ _. v

  insert_network-Keeps :
      (s : State) (w : W) (network : Network)
      → IsValid (sizes s)
      → After (λ (r : State × W). IsValid (sizes r.0)) (insert_network tasks s w network)
  unfolding insert_network note_gateway named_network
  insert_network-Keeps s w network v =
      let named = named_network s network in
      let named_ok = named_network-IsValid s network v in
      let Q : State × W → Type 0 = λ r. IsValid (sizes r.0) in
      After-skip Q (ensure (is_none (get s.networks network.id)) network_exists) _ λ _ _.
        After-bind Q Q (note_gateway tasks named w network) _
          (elim (Bool-cases
            (is_address network.gateway (get s.network_gateway_address network.id))) [
              | inl same ↦ rw same named_ok
              | inr new ↦ rw new (register_gateway-Keeps named w network named_ok)
            ])
          λ r ok_r.
            After-bind (λ (s' : State). IsValid (sizes s')) Q _ _
              (insert_network_config-Keeps r.0 network.id network.config ok_r) λ s' ok'. ok'

-- One call of the pallet, by any origin, with any tasks pallet.
pub data Step (s s' : State) : Type 1 where
  registers :
      {W : Type 0} (tasks : TasksInterface W) (w w' : W) (o : Origin) (network : Network)
      → register_network tasks s w o network ≡ ok (s', w')
      → Step s s'
  configures :
      (o : Origin) (n : ℕ) (c : NetworkConfig) → set_network_config s o n c ≡ ok s' → Step s s'
  removes : (o : Origin) (n : ℕ) → remove_network s o n ≡ ok s' → Step s s'

pub data Reach (s : State) : State → Type 1 where
  here : Reach s s
  next : {t u : State} → Reach s t → Step t u → Reach s u

Step-IsValid : (s s' : State) → IsValid (sizes s) → Step s s' → IsValid (sizes s')
unfolding register_network set_network_config
Step-IsValid s s' v (registers {W} tasks w w' o network e) =
    After_ok (λ (r : State × W). IsValid (sizes r.0)) (register_network tasks s w o network)
      (After-skip _ (ensure_admin o) _ λ _ _. insert_network-Keeps tasks s w network v) e
Step-IsValid s s' v (configures o n c e) =
    After_ok (λ x. IsValid (sizes x)) (set_network_config s o n c)
      (After-skip _ (ensure_admin o) _ λ _ _. insert_network_config-Keeps s n c v) e
Step-IsValid s s' v (removes o n e) =
    After_ok (λ x. IsValid (sizes x)) (remove_network s o n) (remove_network-Keeps s o n v) e

abbrev pub init : State
init = record {
  networks = [];
  network_name = [];
  network_gateway_address = [];
  network_gateway_block = [];
  network_batch_size = [];
  network_batch_offset = [];
  network_batch_gas_limit = [];
  network_shard_task_limit = [];
  network_shard_size = [];
  network_shard_threshold = [];
  network_cctp_contracts = [];
  network_cctp_url = [];
  events = [];
}

init-IsValid : IsValid (sizes init)
unfolding get
init-IsValid = record {
  bounded = λ m. omega arith;
  reachable = λ m. omega arith;
  named = λ m. refl;
}

-- After every sequence of calls, by any origins and with any tasks pallet, a shard of any chain has
-- at most 100 members, its threshold is at most its size, and a chain has a name exactly when it is
-- registered.
pub reachable-IsValid : {s : State} → Reach init s → IsValid (sizes s)
reachable-IsValid here = init-IsValid
reachable-IsValid (next {t} {u} r st) = Step-IsValid t u (reachable-IsValid r) st
