-- ===== src/Members/Tests.antt =====
-- Tests of the model of pallets/members/src/lib.rs, and the theorems at concrete members.
use timechain.Prelude.{◌≡◌, ◌==◌, refl, true, false, some, none, [], ◌∷◌}
use timechain.Storage.{get, insert, remove}
use timechain.Outcome.{ok, Origin}
use timechain.Shards.{extend_entry}
use timechain.Members.{
  State, Config, sort_out, unregister_member, execute_unregister_member, do_unregister_member,
  unregistered_member, send_heartbeat, register_member, execute_register_member,
  execute_send_heartbeat, greet, mark_online, on_initialize, timeout_heartbeats, offline_by_network,
  members_offline, remove_online, heartbeat_received, went_online,
}
use timechain.Members.Expiry.{Spared}
use timechain.Members.Periods.{LeavesMembers, IsTimed}
use timechain.Members.Reach.{
  init, Reach, here, next, registers, heartbeats, initializes, run-IsTimed, on_initialize-Spared,
}
use timechain.Members.Absence.{GivesNone}
use timechain.Members.Stranded.{Later, at_once, later, Stranded, unregister_member-Stranded}

-- Nobody but account 9 is in a shard, and the other pallets have no state.
abbrev answers : Config (Unit {0})
answers = record {
  heartbeat_timeout = 100;
  max_timeouts_per_block = 1;
  into_account = λ key. key;
  is_shard_member = λ w m. m == 9;
  elections_member_online = λ s w m n. (s, w);
  elections_members_offline = λ s w members n. (s, w);
}

-- Members 5 and 6 of network 2 are online, and both wait for their timeout.
abbrev two : State
two = record {
  member_network = (5, 2) ∷ (6, 2) ∷ [];
  member_peer_id = (5, 55) ∷ (6, 66) ∷ [];
  member_public_key = (5, 5) ∷ (6, 6) ∷ [];
  member_online = (5, tt) ∷ (6, tt) ∷ [];
  heartbeat = [];
  timed_out = 5 ∷ 6 ∷ [];
  member_registered = (5, tt) ∷ (6, tt) ∷ [];
  events = [];
}

-- One timeout in a block: member 5 goes offline, member 6 is put off.
one_timeout : sort_out two 1 (5 ∷ 6 ∷ []) 0 [] [] ≡ ((2, 5 ∷ []) ∷ [], 6 ∷ [])
unfolding sort_out extend_entry get
one_timeout = refl

abbrev admin : Origin
admin = record { signer = none; is_admin = true }

abbrev fifth : Origin
fifth = record { signer = some 5; is_admin = false }

leaves_members : LeavesMembers answers
leaves_members = record {
  arrives = λ s w m n. record { online = refl; heartbeat = refl; timed_out = refl };
  departs = λ s w ms n. record { online = refl; heartbeat = refl; timed_out = refl };
}

-- Member 5 is registered and sends a heartbeat, and the period ends.
abbrev registered : State
registered = execute_register_member answers init 2 5 55

abbrev beating : State
beating = record registered {
  member_online = (5, tt) ∷ [];
  heartbeat = (5, tt) ∷ [];
  events = heartbeat_received 5 ∷ went_online 5 ∷ registered.events;
}

abbrev waiting : State
waiting = record beating { heartbeat = []; timed_out = 5 ∷ [] }

registers_run : register_member answers init admin 2 5 55 ≡ ok registered
unfolding register_member
registers_run = refl

heartbeats_run : send_heartbeat answers registered tt fifth ≡ ok (beating, tt)
unfolding send_heartbeat execute_send_heartbeat greet mark_online execute_register_member insert get
heartbeats_run = refl

initializes_run : on_initialize answers beating tt 100 ≡ ok (waiting, tt)
unfolding on_initialize timeout_heartbeats offline_by_network sort_out execute_register_member
initializes_run = refl

run_to_waiting : Reach (Unit {0}) init waiting
run_to_waiting =
    next
      (next (next here (registers answers admin 2 5 55 registers_run))
        (heartbeats answers tt tt fifth leaves_members heartbeats_run))
      (initializes answers tt tt 100 leaves_members initializes_run)

run-IsTimed_example : IsTimed waiting
run-IsTimed_example = run-IsTimed (Unit {0}) run_to_waiting

on_initialize-Spared_example :
    (s' : State) × (w' : Unit {0}) × (on_initialize answers waiting tt 200 ≡ ok (s', w'))
    × Spared 1 waiting s'
on_initialize-Spared_example =
    on_initialize-Spared (Unit {0}) answers tt 200 run_to_waiting leaves_members (λ e. absurd cc)
      refl

-- The member that waited goes offline.
goes_offline : get (timeout_heartbeats answers waiting tt).0.member_online 5 ≡ none
unfolding timeout_heartbeats offline_by_network members_offline remove_online sort_out extend_entry
    execute_register_member insert remove get
goes_offline = refl

gives_none : GivesNone answers
gives_none = record { arrives = λ s w m n x h. h; departs = λ s w ms n x h. h }

-- Member 5 is unregistered after its heartbeat, and two periods end.
abbrev unregistered : State
unregistered = record beating {
  member_network = [];
  member_peer_id = [];
  member_public_key = [];
  member_registered = [];
  events = unregistered_member 5 2 ∷ beating.events;
}

abbrev put_off : State
put_off = record unregistered { heartbeat = []; timed_out = 5 ∷ [] }

unregisters_run : unregister_member answers beating tt admin 5 ≡ ok unregistered
unfolding unregister_member execute_unregister_member do_unregister_member execute_register_member
    insert remove get
unregisters_run = refl

first_period : on_initialize answers unregistered tt 100 ≡ ok (put_off, tt)
unfolding on_initialize timeout_heartbeats offline_by_network sort_out execute_register_member
first_period = refl

second_period : on_initialize answers put_off tt 200 ≡ ok (put_off, tt)
unfolding on_initialize timeout_heartbeats offline_by_network sort_out execute_register_member get
second_period = refl

run_to_beating : Reach (Unit {0}) init beating
run_to_beating =
    next (next here (registers answers admin 2 5 55 registers_run))
      (heartbeats answers tt tt fifth leaves_members heartbeats_run)

two_periods : Later (Unit {0}) 5 unregistered put_off
two_periods =
    later (later at_once (initializes answers tt tt 100 leaves_members first_period) gives_none)
      (initializes answers tt tt 200 leaves_members second_period) gives_none

unregister_member-Stranded_example : Stranded (Unit {0}) 5 put_off
unfolding get execute_register_member
unregister_member-Stranded_example =
    unregister_member-Stranded (Unit {0}) answers tt admin 5 run_to_beating refl refl
      unregisters_run two_periods
