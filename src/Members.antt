-- ===== src/Members.antt =====
-- pallets/members/src/lib.rs: the registered members, their heartbeats and whether they are online.
-- Accounts, public keys and peer ids are numbers; `into_account` of a public key is a parameter.
pub mod Timeouts
pub mod Waiting
pub mod Periods
pub mod Expiry
pub mod Reach
pub mod Absence
pub mod Stranded
pub mod Tests
use timechain.Prelude.{
  ℕ, suc, ◌%◌, Bool, true, false, Option, none, some, List, [], ◌∷◌, ◌++◌, leb, ◌==◌, not,
  if◌then◌else◌, is_none, is_some, retain,
}
use timechain.Storage.{Map, get, insert, remove, keys, contains_key}
use timechain.Outcome.{
  Outcome, ok, panic, ◌>>=◌, ◌>>◌, ensure, ok_or, not_member, not_registered,
  already_submitted_heartbeat, Origin, ensure_admin, ensure_signed,
}
use timechain.Shards.{extend_entry}

pub data Event : Type 0 where
  registered_member : ℕ → ℕ → ℕ → Event
  heartbeat_received : ℕ → Event
  went_online : ℕ → Event
  went_offline : List ℕ → Event
  unregistered_member : ℕ → ℕ → Event

-- One field for each storage; `events` is what has been deposited, the latest first.
pub record State : Type 0 where
  pub member_network : Map ℕ
  pub member_peer_id : Map ℕ
  pub member_public_key : Map ℕ
  pub member_online : Map (Unit {0})
  pub heartbeat : Map (Unit {0})
  pub timed_out : List ℕ
  pub member_registered : Map (Unit {0})
  pub events : List Event

-- The trait `Config`: the constants and the other pallets, whose state is `W`. The elections pallet
-- may call `do_unregister_member` back.
pub record Config (W : Type 0) : Type 0 where
  pub heartbeat_timeout : ℕ
  pub max_timeouts_per_block : ℕ
  pub into_account : ℕ → ℕ
  pub is_shard_member : W → ℕ → Bool
  pub elections_member_online : State → W → ℕ → ℕ → State × W
  pub elections_members_offline : State → W → List ℕ → ℕ → State × W

unfoldable pub remove_online : Map (Unit {0}) → List ℕ → Map (Unit {0})
remove_online online [] = online
remove_online online (m ∷ members) = remove_online (remove online m) members

-- The loop over the members that timed out: those that go offline, by network, and those that are
-- put off, because the block has had its timeouts or the network of the member is not known.
unfoldable pub sort_out : State → ℕ → List ℕ → ℕ → Map (List ℕ) → List ℕ → Map (List ℕ) × List ℕ
sort_out s limit [] n current next = (current, next)
sort_out s limit (m ∷ members) n current next =
    let put_off = sort_out s limit members n current (next ++ m ∷ []) in
    if leb limit n then put_off else elim (get s.member_network m) [
      | none ↦ put_off
      | some network ↦ sort_out s limit members (suc n) (extend_entry current network (m ∷ [])) next
    ]

pub member_peer_id : State → ℕ → Option ℕ
member_peer_id s account = get s.member_peer_id account

pub member_public_key : State → ℕ → Option ℕ
member_public_key s account = get s.member_public_key account

abbrev pub is_member_online : State → ℕ → Bool
is_member_online s account = contains_key s.member_online account

abbrev pub is_member_registered : State → ℕ → Bool
is_member_registered s account = contains_key s.member_registered account

module _ {W : Type 0} (cfg : Config W) where
  unfoldable pub do_unregister_member : State → W → ℕ → State
  do_unregister_member s w account =
      if not (cfg.is_shard_member w account)
      then record s {
        member_network = remove s.member_network account;
        member_peer_id = remove s.member_peer_id account;
        member_public_key = remove s.member_public_key account;
      }
      else s

  unfoldable pub mark_online : State → W → ℕ → ℕ → State × W
  mark_online s w member network =
      cfg.elections_member_online
        (record s {
          member_online = insert s.member_online member tt;
          events = went_online member ∷ s.events;
        })
        w member network

  unfoldable pub members_offline : State → W → List ℕ → ℕ → State × W
  members_offline s w members network =
      cfg.elections_members_offline
        (record s {
          member_online = remove_online s.member_online members;
          events = went_offline members ∷ s.events;
        })
        w members network

  unfoldable pub execute_register_member : State → ℕ → ℕ → ℕ → State
  execute_register_member s network public_key peer_id =
      let member = cfg.into_account public_key in
      record s {
        member_network = insert s.member_network member network;
        member_public_key = insert s.member_public_key member public_key;
        member_peer_id = insert s.member_peer_id member peer_id;
        member_registered = insert s.member_registered member tt;
        events = registered_member member network peer_id ∷ s.events;
      }

  unfoldable pub greet : State → W → ℕ → ℕ → State × W
  greet s w member network =
      if not (is_member_online s member) then mark_online s w member network else (s, w)

  unfoldable pub execute_send_heartbeat : State → W → ℕ → Outcome (State × W)
  execute_send_heartbeat s w member =
      ensure (is_none (get s.heartbeat member)) already_submitted_heartbeat
      >> (ok_or (get s.member_network member) not_member >>= λ network.
          let (s', w') = greet s w member network in
          ok (
            record s' {
              heartbeat = insert s'.heartbeat member tt;
              timed_out = retain (λ m. not (m == member)) s'.timed_out;
              events = heartbeat_received member ∷ s'.events;
            },
            w',
          ))

  unfoldable pub execute_unregister_member : State → W → ℕ → Outcome State
  execute_unregister_member s w member =
      ok_or (get s.member_network member) not_member >>= λ network.
      ensure (is_some (get s.member_registered member)) not_registered
      >> (let taken : State = record s { member_registered = remove s.member_registered member } in
          let freed = do_unregister_member taken w member in
          ok (record freed { events = unregistered_member member network ∷ freed.events }))

  unfoldable pub register_member : State → Origin → ℕ → ℕ → ℕ → Outcome State
  register_member s origin network public_key peer_id =
      ensure_admin origin >> ok (execute_register_member s network public_key peer_id)

  unfoldable pub unregister_member : State → W → Origin → ℕ → Outcome State
  unregister_member s w origin member = ensure_admin origin >> execute_unregister_member s w member

  unfoldable pub send_heartbeat : State → W → Origin → Outcome (State × W)
  send_heartbeat s w origin = ensure_signed origin >>= λ member. execute_send_heartbeat s w member

  unfoldable pub offline_by_network : State → W → Map (List ℕ) → State × W
  offline_by_network s w [] = (s, w)
  offline_by_network s w ((network, members) ∷ current) =
      let (s', w') = members_offline s w members network in offline_by_network s' w' current

  unfoldable pub timeout_heartbeats : State → W → State × W
  timeout_heartbeats s w =
      let taken : State = record s { timed_out = [] } in
      let (current, next) = sort_out taken cfg.max_timeouts_per_block s.timed_out 0 [] [] in
      let (s', w') = offline_by_network taken w current in
      (record s' { heartbeat = []; timed_out = next ++ keys s'.heartbeat }, w')

  -- A timeout of 0 is a remainder by zero.
  unfoldable pub on_initialize : State → W → ℕ → Outcome (State × W)
  on_initialize s w n =
      if cfg.heartbeat_timeout == 0
      then panic
      else ok (if (n % cfg.heartbeat_timeout) == 0 then timeout_heartbeats s w else (s, w))
