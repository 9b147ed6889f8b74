-- ===== src/Members/Reach.antt =====
-- The runs of pallets/members/src/lib.rs: its extrinsics, its block hook and the calls of the elections
-- pallet, in any order.
use timechain.Prelude.{
  ℕ, ◌≡◌, ◌≢◌, ◌%◌, refl, true, false, subst, [], arith, Bool-cases, inl, inr, ◌==◌,
}
use timechain.Storage.{get}
use timechain.Outcome.{ok, Origin, After-skip, After_ok, ensure_admin, ensure_signed}
use timechain.Members.{
  State, Config, do_unregister_member, execute_register_member, register_member, unregister_member,
  send_heartbeat, timeout_heartbeats, on_initialize,
}
use timechain.Members.Waiting.{count}
use timechain.Members.Expiry.{Spared, timeout_heartbeats-Spared}
use timechain.Members.Periods.{
  Same, LeavesMembers, IsTimed, Same-IsTimed, do_unregister_member-Same,
  execute_unregister_member-Same, execute_send_heartbeat-IsTimed,
}

-- The pallet before anything has happened.
abbrev pub init : State
init = record {
  member_network = [];
  member_peer_id = [];
  member_public_key = [];
  member_online = [];
  heartbeat = [];
  timed_out = [];
  member_registered = [];
  events = [];
}

module _ (W : Type 0) where
  -- One step. The other pallets may answer anything, but change no member but by unregistering it.
  pub data Step (s s' : State) : Type 0 where
    registers :
        (cfg : Config W) (o : Origin) (n key peer : ℕ)
        → register_member cfg s o n key peer ≡ ok s'
        → Step s s'
    unregisters :
        (cfg : Config W) (w : W) (o : Origin) (m : ℕ)
        → unregister_member cfg s w o m ≡ ok s'
        → Step s s'
    heartbeats :
        (cfg : Config W) (w w' : W) (o : Origin)
        → LeavesMembers cfg
        → send_heartbeat cfg s w o ≡ ok (s', w')
        → Step s s'
    initializes :
        (cfg : Config W) (w w' : W) (n : ℕ)
        → LeavesMembers cfg
        → on_initialize cfg s w n ≡ ok (s', w')
        → Step s s'
    frees : (cfg : Config W) (w : W) (m : ℕ) → do_unregister_member cfg s w m ≡ s' → Step s s'

  pub data Reach (s : State) : State → Type 0 where
    here : Reach s s
    next : {t u : State} → Reach s t → Step t u → Reach s u

  Step-IsTimed : (s s' : State) → IsTimed s → Step s s' → IsTimed s'
  unfolding register_member execute_register_member unregister_member send_heartbeat on_initialize
  Step-IsTimed s s' v (registers cfg o n key peer e) =
      Same-IsTimed s s'
        (After_ok (Same s) (register_member cfg s o n key peer)
          (After-skip (Same s) (ensure_admin o) _
            λ _ _. record { online = refl; heartbeat = refl; timed_out = refl })
          e)
        v
  Step-IsTimed s s' v (unregisters cfg w o m e) =
      Same-IsTimed s s'
        (After_ok (Same s) (unregister_member cfg s w o m)
          (After-skip (Same s) (ensure_admin o) _ λ _ _. execute_unregister_member-Same cfg s w m)
          e)
        v
  Step-IsTimed s s' v (heartbeats cfg w w' o elects e) =
      let Q : State × W → Type 0 = λ r. IsTimed r.0 in
      After_ok Q (send_heartbeat cfg s w o)
        (After-skip Q (ensure_signed o) _ λ m _. execute_send_heartbeat-IsTimed cfg elects s w m v)
        e
  Step-IsTimed s s' v (initializes cfg w w' n elects e) =
      let Q : State × W → Type 0 = λ r. IsTimed r.0 in
      After_ok Q (on_initialize cfg s w n)
        (elim (Bool-cases (cfg.heartbeat_timeout == 0)) [
          | inl never ↦ rw never tt
          | inr some_time ↦ rw some_time (elim (Bool-cases ((n % cfg.heartbeat_timeout) == 0)) [
            | inl now ↦ rw now (timeout_heartbeats-Spared cfg elects s w v).0
            | inr later ↦ rw later v
          ])
        ])
        e
  Step-IsTimed s s' v (frees cfg w m e) =
      subst IsTimed e (Same-IsTimed s _ (do_unregister_member-Same cfg s w m) v)

  init-IsTimed : IsTimed init
  unfolding get count
  init-IsTimed = record {
    watched = λ m h. absurd cc;
    once = λ m. omega arith;
    silent = λ m h. refl;
    unique = tt;
  }

  -- After every run of the members pallet, in any order of its calls and blocks, whoever is online has
  -- sent a heartbeat in this period or waits for its timeout, nobody waits twice, and who has sent a
  -- heartbeat does not wait. The other pallets change no member but by unregistering it.
  pub run-IsTimed : {s : State} → Reach init s → IsTimed s
  run-IsTimed here = init-IsTimed
  run-IsTimed (next {t} {u} run st) = Step-IsTimed t u (run-IsTimed run) st

  -- After every run, the block hook at the end of a period returns: at most as many members as a
  -- block may time out go offline, all of them had been waiting; a member that has sent its heartbeat
  -- stays online and waits once for the next one; and if all fit into the block, whoever waited and
  -- has a network is offline. The timeout is not 0, and the elections pallet changes no member but by
  -- unregistering it.
  pub on_initialize-Spared :
      {s : State} (cfg : Config W) (w : W) (n : ℕ)
      → Reach init s
      → LeavesMembers cfg
      → cfg.heartbeat_timeout ≢ 0
      → n % cfg.heartbeat_timeout ≡ 0
      → (s' : State) × (w' : W) × (on_initialize cfg s w n ≡ ok (s', w'))
        × Spared cfg.max_timeouts_per_block s s'
  unfolding on_initialize
  on_initialize-Spared {s} cfg w n run elects period now =
      let t = timeout_heartbeats cfg s w in
      let never : (cfg.heartbeat_timeout == 0) ≡ false = ground arith in
      let due : ((n % cfg.heartbeat_timeout) == 0) ≡ true = ground (arith, now) in
      (
        t.0,
        t.1,
        rw (never, due) refl,
        (timeout_heartbeats-Spared cfg elects s w (run-IsTimed run)).1,
      )
