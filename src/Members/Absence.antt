-- ===== src/Members/Absence.antt =====
-- A member of pallets/members/src/lib.rs that is online without a network: each call against it.
use timechain.Prelude.{
  ℕ, ◌≡◌, ◌≢◌, ◌%◌, ap, ◌∙◌, some, none, List, [], ◌∷◌, arith, not, Bool-cases, inl, inr, ◌==◌,
  is_some, is_none,
}
use timechain.Storage.{Map, get, remove, get-insert, get-remove}
use timechain.Outcome.{
  Origin, After, After-skip, ensure, ensure_admin, ensure_signed, ok_or, not_member, not_registered,
  already_submitted_heartbeat,
}
use timechain.Members.{
  State, Config, sort_out, do_unregister_member, register_member, execute_register_member,
  unregister_member, execute_unregister_member, send_heartbeat, execute_send_heartbeat, greet,
  mark_online, members_offline, offline_by_network, timeout_heartbeats, on_initialize,
  is_member_online,
}
use timechain.Members.Timeouts.{everyone}
use timechain.Members.Waiting.{count, sort_out_absent}
use timechain.Members.Periods.{LeavesMembers, offline_by_network-Left}

-- Online, and without a network.
pub record Adrift (m : ℕ) (t : State) : Type 0 where
  pub online : get t.member_online m ≡ some tt
  pub network : get t.member_network m ≡ none

module _ {W : Type 0} where
  -- The elections pallet gives no member a network.
  pub record GivesNone (cfg : Config W) : Type 0 where
    pub arrives :
        (s : State) (w : W) (m n x : ℕ)
        → get s.member_network x ≡ none
        → get (cfg.elections_member_online s w m n).0.member_network x ≡ none
    pub departs :
        (s : State) (w : W) (ms : List ℕ) (n x : ℕ)
        → get s.member_network x ≡ none
        → get (cfg.elections_members_offline s w ms n).0.member_network x ≡ none

  pub do_unregister_member-Adrift :
      (cfg : Config W) (s : State) (w : W) (m x : ℕ)
      → Adrift x s
      → Adrift x (do_unregister_member cfg s w m)
  unfolding do_unregister_member
  do_unregister_member-Adrift cfg s w m x a = elim (Bool-cases (not (cfg.is_shard_member w m))) [
    | inl free ↦ rw free (record {
      online = a.online;
      network = ground (arith, get-remove s.member_network m x, a.network);
    })
    | inr held ↦ rw held a
  ]

  pub unregister_member-Adrift :
      (cfg : Config W) (s : State) (w : W) (o : Origin) (m x : ℕ)
      → Adrift x s
      → After (Adrift x) (unregister_member cfg s w o m)
  unfolding unregister_member execute_unregister_member
  unregister_member-Adrift cfg s w o m x a = After-skip (Adrift x) (ensure_admin o) _ λ _ _.
      After-skip (Adrift x) (ok_or (get s.member_network m) not_member) _ λ n _.
        After-skip (Adrift x) (ensure (is_some (get s.member_registered m)) not_registered) _ λ _ _.
          let b =
            do_unregister_member-Adrift cfg
              (record s { member_registered = remove s.member_registered m }) w m x
              (record { online = a.online; network = a.network }) in
          record { online = b.online; network = b.network }

  pub register_member-Adrift :
      (cfg : Config W) (s : State) (o : Origin) (n key peer x : ℕ)
      → cfg.into_account key ≢ x
      → Adrift x s
      → After (Adrift x) (register_member cfg s o n key peer)
  unfolding register_member execute_register_member
  register_member-Adrift cfg s o n key peer x other a =
      After-skip (Adrift x) (ensure_admin o) _ λ _ _. record {
        online = a.online;
        network =
            ground
              (arith, get-insert s.member_network (cfg.into_account key) x n, a.network, other);
      }

  greet-Adrift :
      (cfg : Config W) (s : State) (w : W) (m n x : ℕ)
      → LeavesMembers cfg
      → GivesNone cfg
      → Adrift x s
      → Adrift x (greet cfg s w m n).0
  unfolding greet mark_online
  greet-Adrift cfg s w m n x elects gives a = elim (Bool-cases (not (is_member_online s m))) [
    | inr there ↦ rw there a
    | inl away ↦ rw away (
        let same = elects.arrives _ w m n in
        record {
          online =
              ap (λ l. get l x) same.online
              ∙ ground (arith, get-insert s.member_online m x tt, a.online);
          network = gives.arrives _ w m n x a.network;
        })
  ]

  pub send_heartbeat-Adrift :
      (cfg : Config W) (s : State) (w : W) (o : Origin) (x : ℕ)
      → LeavesMembers cfg
      → GivesNone cfg
      → Adrift x s
      → After (λ (r : State × W). Adrift x r.0) (send_heartbeat cfg s w o)
  unfolding send_heartbeat execute_send_heartbeat
  send_heartbeat-Adrift cfg s w o x elects gives a =
      let Q : State × W → Type 0 = λ r. Adrift x r.0 in
      After-skip Q (ensure_signed o) _ λ m _.
        After-skip Q (ensure (is_none (get s.heartbeat m)) already_submitted_heartbeat) _ λ _ _.
          After-skip Q (ok_or (get s.member_network m) not_member) _ λ n _.
            let b = greet-Adrift cfg s w m n x elects gives a in
            record { online = b.online; network = b.network }

  offline_by_network-none :
      (cfg : Config W) (current : Map (List ℕ)) (s : State) (w : W) (x : ℕ)
      → GivesNone cfg
      → get s.member_network x ≡ none
      → get (offline_by_network cfg s w current).0.member_network x ≡ none
  unfolding offline_by_network members_offline
  offline_by_network-none cfg [] s w x gives absent = absent
  offline_by_network-none cfg ((n, ms) ∷ current) s w x gives absent =
      offline_by_network-none cfg current _ _ x gives (gives.departs _ w ms n x absent)

  -- A member without a network is put off at every timeout.
  timeout_heartbeats-Adrift :
      (cfg : Config W) (s : State) (w : W) (x : ℕ)
      → LeavesMembers cfg
      → GivesNone cfg
      → Adrift x s
      → Adrift x (timeout_heartbeats cfg s w).0
  unfolding timeout_heartbeats everyone count
  timeout_heartbeats-Adrift cfg s w x elects gives a =
      let limit : ℕ = cfg.max_timeouts_per_block in
      let taken : State = record s { timed_out = [] } in
      let r = sort_out taken limit s.timed_out 0 [] [] in
      let (online, _, _) = offline_by_network-Left cfg elects r.0 taken w in
      let passed : count x (everyone r.0) ≡ 0 =
        sort_out_absent x taken limit s.timed_out 0 [] [] a.network in
      record {
        online = ground (arith, online x, passed, a.online);
        network = offline_by_network-none cfg r.0 taken w x gives a.network;
      }

  pub on_initialize-Adrift :
      (cfg : Config W) (s : State) (w : W) (n x : ℕ)
      → LeavesMembers cfg
      → GivesNone cfg
      → Adrift x s
      → After (λ (r : State × W). Adrift x r.0) (on_initialize cfg s w n)
  unfolding on_initialize
  on_initialize-Adrift cfg s w n x elects gives a = elim (Bool-cases (cfg.heartbeat_timeout == 0)) [
    | inl never ↦ rw never tt
    | inr some_time ↦ rw some_time (elim (Bool-cases ((n % cfg.heartbeat_timeout) == 0)) [
      | inl now ↦ rw now (timeout_heartbeats-Adrift cfg s w x elects gives a)
      | inr later ↦ rw later a
    ])
  ]
