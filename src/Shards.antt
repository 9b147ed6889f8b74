-- ===== src/Shards.antt =====
-- pallets/shards/src/lib.rs: the shards, their members and the keys that they commit to. Public
-- keys and peer ids are numbers.
pub mod Calls
pub mod Interface
pub mod Membership
pub mod Keeping
pub mod Joining
pub mod Reach
pub mod Signers
pub mod Quorum
pub mod Tests
use timechain.Prelude.{
  ℕ, Bool, true, false, Option, none, some, List, [], ◌∷◌, ◌++◌, map, ltb, ◌==◌, if◌then◌else◌,
}
use timechain.Storage.{Map, DoubleMap, get, insert, remove, keys, prefix, drain_prefix}

-- primitives/src/shard.rs.
pub data MemberStatus : Type 0 where
  added : MemberStatus
  committed : List ℕ → MemberStatus
  ready : MemberStatus

pub data ShardStatus : Type 0 where
  created group_committed online offline : ShardStatus

abbrev pub commitment_of : MemberStatus → Option (List ℕ)
commitment_of added = none
commitment_of (committed c) = some c
commitment_of ready = none

abbrev pub is_committed : MemberStatus → Bool
is_committed added = false
is_committed (committed c) = true
is_committed ready = false

abbrev pub is_added : Option MemberStatus → Bool
is_added none = false
is_added (some added) = true
is_added (some (committed c)) = false
is_added (some ready) = false

abbrev pub is_ready : MemberStatus → Bool
is_ready added = false
is_ready (committed c) = false
is_ready ready = true

abbrev pub is_some_committed : Option MemberStatus → Bool
is_some_committed none = false
is_some_committed (some status) = is_committed status

-- `Created | Committed`.
abbrev pub is_dkg : ShardStatus → Bool
is_dkg created = true
is_dkg group_committed = true
is_dkg online = false
is_dkg offline = false

abbrev pub is_online : Option ShardStatus → Bool
is_online none = false
is_online (some created) = false
is_online (some group_committed) = false
is_online (some online) = true
is_online (some offline) = false

abbrev pub is_offline : ShardStatus → Bool
is_offline created = false
is_offline group_committed = false
is_offline online = false
is_offline offline = true

pub data Event : Type 0 where
  shard_created : ℕ → ℕ → Event
  shard_committed : ℕ → List ℕ → Event
  shard_online : ℕ → ℕ → Event
  shards_offline : List ℕ → Event

-- One field for each storage; `events` is what has been deposited, the latest first.
pub record State : Type 0 where
  pub shard_id_counter : ℕ
  pub shard_network : Map ℕ
  pub shard_state : Map ShardStatus
  pub dkg_timeout_counter : Map ℕ
  pub dkg_timeout : DoubleMap (Unit {0})
  pub shard_threshold : Map ℕ
  pub shard_commitment : Map (List ℕ)
  pub member_shard : Map ℕ
  pub signer_index : Map ℕ
  pub shard_members : DoubleMap MemberStatus
  pub shard_members_online : Map ℕ
  pub events : List Event

-- The trait `Config`: the constants, the other pallets, whose state is `W` and which may read this
-- pallet, and the functions of `schnorr_evm`: whether a key decodes, the sum of two keys, which is
-- `none` where the code panics, and the check of a proof.
pub record Config (W : Type 0) : Type 0 where
  pub dkg_timeout : ℕ
  pub max_elections_per_block : ℕ
  pub member_peer_id : W → ℕ → Option ℕ
  pub member_public_key : W → ℕ → Option ℕ
  pub tasks_shard_online : State → W → ℕ → ℕ → W
  pub tasks_shard_offline : State → W → ℕ → ℕ → W
  pub elections_shard_offline : State → W → ℕ → List ℕ → W
  pub is_verifying_key : ℕ → Bool
  pub add_keys : ℕ → ℕ → Option ℕ
  pub verify_proof_of_knowledge : ℕ → List ℕ → ℕ → Bool

-- A `BTreeMap` from networks to members: `entry(network).or_default().extend(members)`.
unfoldable pub extend_entry : Map (List ℕ) → ℕ → List ℕ → Map (List ℕ)
extend_entry [] n ms = (n, ms) ∷ []
extend_entry ((m, l) ∷ updates) n ms =
    if n == m
    then (m, l ++ ms) ∷ updates
    else if ltb n m
    then (n, ms) ∷ (m, l) ∷ updates
    else (m, l) ∷ extend_entry updates n ms

unfoldable pub release_members : Map ℕ → List ℕ → Map ℕ
release_members member_shard [] = member_shard
release_members member_shard (m ∷ members) = release_members (remove member_shard m) members

module _ {W : Type 0} (cfg : Config W) where
  -- The first pass of `remove_shards_offline` at a shard that has a network.
  unfoldable pub drain_shard : State → W → Map (List ℕ) → ℕ → Option ℕ → State × W × Map (List ℕ)
  drain_shard s w updates shard_id none = (s, w, updates)
  drain_shard s w updates shard_id (some network) =
      let w' = cfg.tasks_shard_offline s w shard_id network in
      let members = keys (prefix s.shard_members shard_id) in
      (
        record s {
          shard_members = drain_prefix s.shard_members shard_id;
          member_shard = release_members s.member_shard members;
        },
        w',
        extend_entry updates network members,
      )

  unfoldable pub remove_shard : State → W → Map (List ℕ) → ℕ → State × W × Map (List ℕ)
  remove_shard s w updates shard_id =
      drain_shard
        (record s {
          shard_state = insert s.shard_state shard_id offline;
          shard_threshold = remove s.shard_threshold shard_id;
          shard_network = remove s.shard_network shard_id;
        })
        w updates shard_id (get s.shard_network shard_id)

  unfoldable pub remove_shards : State → W → Map (List ℕ) → List ℕ → State × W × Map (List ℕ)
  remove_shards s w updates [] = (s, w, updates)
  remove_shards s w updates (shard_id ∷ shards) =
      let (s', w', updates') = remove_shard s w updates shard_id in
      remove_shards s' w' updates' shards

  -- The elections pallet hears of all members of a network at once.
  unfoldable pub update_elections : State → W → Map (List ℕ) → W
  update_elections s w [] = w
  update_elections s w ((network, members) ∷ updates) =
      update_elections s (cfg.elections_shard_offline s w network members) updates

  unfoldable pub remove_shards_offline : State → W → List ℕ → State × W
  remove_shards_offline s w shards =
      let (s', w', updates) = remove_shards s w [] shards in
      (record s' { events = shards_offline shards ∷ s'.events }, update_elections s' w' updates)
