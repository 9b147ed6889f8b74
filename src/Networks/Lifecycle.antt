-- ===== src/Networks/Lifecycle.antt =====
-- What a chain's configuration answers after the calls of pallets/networks/src/lib.rs.
use timechain.Prelude.{
  ℕ, ◌-◌, ◌%◌, ◌≤◌, ◌≡◌, ◌↔◌, refl, true, Option, none, some, List, arith, leb, if◌then◌else◌, ◌==◌,
  wrapping_add, u64_mod,
}
use timechain.Storage.{Map, get, get-insert, contains_key}
use timechain.Outcome.{
  ok, Origin, After-skip, After_ok, ensure, ensure_admin, ensure_ok, shard_size_above_max,
  threshold_larger_than_size, network_not_found,
}
use timechain.Networks.{
  State, NetworkConfig, max_shard_size, insert_some, store_config, insert_network_config,
  set_network_config, shard_size, shard_threshold, batch_gas_limit, shard_task_limit,
  next_batch_size,
}

-- The length of the next batch of a chain with the configuration `c`; a batch size of 0 panics.
pub batch_from : NetworkConfig → ℕ → Option ℕ
batch_from c block =
    if c.batch_size == 0
    then none
    else some (c.batch_size - (wrapping_add u64_mod block c.batch_offset) % c.batch_size)

-- A configuration without a value keeps the value before.
pub given_or : Option (List ℕ) → Option (List ℕ) → Option (List ℕ)
given_or none before = before
given_or (some v) before = some v

-- Chain `n` answers in `s'` what `c` says, and every other chain answers as in `s`.
pub record Configured (s s' : State) (n : ℕ) (c : NetworkConfig) : Type 0 where
  pub size : (m : ℕ) → shard_size s' m ≡ (if m == n then c.shard_size else shard_size s m)
  pub threshold :
      (m : ℕ) → shard_threshold s' m ≡ (if m == n then c.shard_threshold else shard_threshold s m)
  pub gas :
      (m : ℕ) → batch_gas_limit s' m ≡ (if m == n then c.batch_gas_limit else batch_gas_limit s m)
  pub tasks :
      (m : ℕ)
      → shard_task_limit s' m ≡ (if m == n then c.shard_task_limit else shard_task_limit s m)
  pub batch_size :
      (m : ℕ)
      → get s'.network_batch_size m
        ≡ (if m == n then some c.batch_size else get s.network_batch_size m)
  pub batch_offset :
      (m : ℕ)
      → get s'.network_batch_offset m
        ≡ (if m == n then some c.batch_offset else get s.network_batch_offset m)
  pub batches :
      (m block : ℕ)
      → next_batch_size s' m block
        ≡ (if m == n then batch_from c block else next_batch_size s m block)
  pub contracts :
      (m : ℕ)
      → get s'.network_cctp_contracts m ≡ (
          if m == n
          then given_or c.cctp_contracts (get s.network_cctp_contracts m)
          else get s.network_cctp_contracts m)
  pub url :
      (m : ℕ)
      → get s'.network_cctp_url m ≡ (
          if m == n
          then given_or c.cctp_url (get s.network_cctp_url m)
          else get s.network_cctp_url m)

-- When a configuration is accepted: by an admin, for a chain that is registered, with at most 100
-- members in a shard and a threshold of at most its size.
pub record Accepted (s : State) (o : Origin) (n : ℕ) (c : NetworkConfig) : Type 0 where
  pub admin : o.is_admin ≡ true
  pub known : contains_key s.networks n ≡ true
  pub small : c.shard_size ≤ max_shard_size
  pub fits : c.shard_threshold ≤ c.shard_size

Accepted-runs :
    (s : State) (o : Origin) (n : ℕ) (c : NetworkConfig)
    → Accepted s o n c
    → set_network_config s o n c ≡ ok (store_config s n c)
unfolding set_network_config insert_network_config
Accepted-runs s o n c a =
    let small : leb c.shard_size max_shard_size ≡ true = ground (arith, a.small) in
    let fits : leb c.shard_threshold c.shard_size ≡ true = ground (arith, a.fits) in
    rw (a.admin, a.known, small, fits) refl

get-insert_some :
    (l : Map (List ℕ)) (n m : ℕ) (v : Option (List ℕ))
    → get (insert_some l n v) m ≡ (if m == n then given_or v (get l m) else get l m)
unfolding given_or
get-insert_some l n m none = ground arith
get-insert_some l n m (some v) = ground (arith, get-insert l n m v)

store_config-Configured :
    (s : State) (n : ℕ) (c : NetworkConfig) → Configured s (store_config s n c) n c
unfolding store_config shard_size shard_threshold batch_gas_limit shard_task_limit next_batch_size
    batch_from
store_config-Configured s n c = record {
  size = λ m. ground (arith, get-insert s.network_shard_size n m c.shard_size);
  threshold = λ m. ground (arith, get-insert s.network_shard_threshold n m c.shard_threshold);
  gas = λ m. ground (arith, get-insert s.network_batch_gas_limit n m c.batch_gas_limit);
  tasks = λ m. ground (arith, get-insert s.network_shard_task_limit n m c.shard_task_limit);
  batch_size = λ m. get-insert s.network_batch_size n m c.batch_size;
  batch_offset = λ m. get-insert s.network_batch_offset n m c.batch_offset;
  contracts = λ m. get-insert_some s.network_cctp_contracts n m c.cctp_contracts;
  url = λ m. get-insert_some s.network_cctp_url n m c.cctp_url;
  batches = λ m block. ground (
    arith,
    get-insert s.network_batch_size n m c.batch_size,
    get-insert s.network_batch_offset n m c.batch_offset,
  );
}

-- A configuration is stored exactly when it is accepted: by an admin, for a chain that is registered,
-- with at most 100 members in a shard and a threshold of at most its size. It is then what the chain
-- answers with: shard size, threshold, gas limit, task limit, batch size, batch offset and the length
-- of the next batch that follows from them, and the contracts and the URL, if it has any; every
-- other chain answers as before.
pub set_network_config-eq_iff :
    (s : State) (o : Origin) (n : ℕ) (c : NetworkConfig)
    → ((s' : State) × (set_network_config s o n c ≡ ok s') × Configured s s' n c) ↔ Accepted s o n c
unfolding set_network_config insert_network_config
set_network_config-eq_iff s o n c = (
  λ r.
      After_ok (λ x. Accepted s o n c) (set_network_config s o n c)
        (After-skip (λ x. Accepted s o n c) (ensure_admin o) _
          λ _ admin.
            After-skip _ (ensure (contains_key s.networks n) network_not_found) _ λ _ known.
              After-skip _ (ensure (leb c.shard_size max_shard_size) shard_size_above_max) _
                λ _ small.
                  After-skip _
                    (ensure (leb c.shard_threshold c.shard_size) threshold_larger_than_size) _
                    λ _ fits.
                      let small' =
                        ensure_ok (leb c.shard_size max_shard_size) shard_size_above_max small in
                      let fits' =
                        ensure_ok (leb c.shard_threshold c.shard_size) threshold_larger_than_size
                          fits in
                      record {
                        admin = ensure_ok o.is_admin _ admin;
                        known = ensure_ok (contains_key s.networks n) network_not_found known;
                        small = ground arith;
                        fits = ground arith;
                      })
        r.1,
  λ a. (store_config s n c, Accepted-runs s o n c a, store_config-Configured s n c),
)
