-- ===== src/Members/Stranded.antt =====
-- A member of pallets/members/src/lib.rs that was unregistered outside a shard, in the runs that follow.
use timechain.Prelude.{
  ℕ, ◌≤◌, ◌≡◌, ◌≢◌, ◌⊎◌, refl, false, none, some, arith, subst, ap, ◌∙◌, is_some, is_none,
}
use timechain.Storage.{get, get-remove_self}
use timechain.Outcome.{
  ok, Origin, After_ok, ensure, ensure_admin, ensure_signed, ok_or, After-skip, not_member,
  not_registered, already_submitted_heartbeat,
}
use timechain.Members.{
  State, Config, do_unregister_member, unregister_member, execute_unregister_member, send_heartbeat,
  execute_send_heartbeat,
}
use timechain.Members.Waiting.{count}
use timechain.Members.Absence.{
  Adrift, GivesNone, do_unregister_member-Adrift, unregister_member-Adrift, register_member-Adrift,
  send_heartbeat-Adrift, on_initialize-Adrift,
}
use timechain.Members.Reach.{
  init, Step, Reach, next, registers, unregisters, heartbeats, initializes, frees, run-IsTimed,
}

module _ (W : Type 0) where
  -- A step that does not register `m`, while the elections pallet gives no member a network.
  abbrev pub Apart : ℕ → {s s' : State} → Step W s s' → Type 0
  Apart m (registers cfg o n key peer e) = cfg.into_account key ≢ m
  Apart m (unregisters cfg w o k e) = Unit
  Apart m (heartbeats cfg w w' o elects e) = GivesNone cfg
  Apart m (initializes cfg w w' n elects e) = GivesNone cfg
  Apart m (frees cfg w k e) = Unit

  -- The runs in which `m` is not registered.
  pub data Later (m : ℕ) (s : State) : State → Type 0 where
    at_once : Later m s s
    later : {t u : State} → Later m s t → (st : Step W t u) → Apart m st → Later m s u

  Step-Adrift : (s s' : State) (m : ℕ) (st : Step W s s') → Apart m st → Adrift m s → Adrift m s'
  Step-Adrift s s' m (registers cfg o n key peer e) other a =
      After_ok (Adrift m) _ (register_member-Adrift cfg s o n key peer m other a) e
  Step-Adrift s s' m (unregisters cfg w o k e) _ a =
      After_ok (Adrift m) _ (unregister_member-Adrift cfg s w o k m a) e
  Step-Adrift s s' m (heartbeats cfg w w' o elects e) gives a =
      After_ok (λ (r : State × W). Adrift m r.0) _
        (send_heartbeat-Adrift cfg s w o m elects gives a) e
  Step-Adrift s s' m (initializes cfg w w' n elects e) gives a =
      After_ok (λ (r : State × W). Adrift m r.0) _ (on_initialize-Adrift cfg s w n m elects gives a)
        e
  Step-Adrift s s' m (frees cfg w k e) _ a =
      subst (Adrift m) e (do_unregister_member-Adrift cfg s w k m a)

  Later-Adrift : {m : ℕ} {s t : State} → Later m s t → Adrift m s → Adrift m t
  Later-Adrift at_once a = a
  Later-Adrift {m} (later {t} {u} run st apart) a = Step-Adrift t u m st apart (Later-Adrift run a)

  Later-Reach : {m : ℕ} {s t : State} → Later m s t → Reach W init s → Reach W init t
  Later-Reach at_once r = r
  Later-Reach (later run st apart) r = next (Later-Reach run r) st

  -- What has become of a member that nobody can time out.
  pub record Stranded (m : ℕ) (t : State) : Type 0 where
    pub online : get t.member_online m ≡ some tt
    pub network : get t.member_network m ≡ none
    pub watched : (get t.heartbeat m ≡ some tt) ⊎ (1 ≤ count m t.timed_out)
    pub silenced :
        (cfg : Config W) (w : W) (o : Origin) (r : State × W)
        → o.signer ≡ some m
        → send_heartbeat cfg t w o ≢ ok r

  unregistered_network :
      (cfg : Config W) (s s' : State) (w : W) (o : Origin) (m : ℕ)
      → cfg.is_shard_member w m ≡ false
      → unregister_member cfg s w o m ≡ ok s'
      → (get s'.member_network m ≡ none) × (s'.member_online ≡ s.member_online)
  unfolding unregister_member execute_unregister_member do_unregister_member
  unregistered_network cfg s s' w o m free h =
      After_ok
        (λ (x : State). (get x.member_network m ≡ none) × (x.member_online ≡ s.member_online))
        (unregister_member cfg s w o m)
        (After-skip _ (ensure_admin o) _ λ _ _.
          After-skip _ (ok_or (get s.member_network m) not_member) _ λ n _.
            After-skip _ (ensure (is_some (get s.member_registered m)) not_registered) _
              λ _ _. rw free (get-remove_self s.member_network m, refl))
        h

  silent_without_network :
      (cfg : Config W) (t : State) (w : W) (o : Origin) (m : ℕ) (r : State × W)
      → get t.member_network m ≡ none
      → o.signer ≡ some m
      → send_heartbeat cfg t w o ≢ ok r
  unfolding send_heartbeat execute_send_heartbeat
  silent_without_network cfg t w o m r absent signed h =
      After_ok (λ (x : State × W). ⊥) (send_heartbeat cfg t w o)
        (After-skip _ (ensure_signed o) _ λ k by.
          After-skip _ (ensure (is_none (get t.heartbeat k)) already_submitted_heartbeat) _ λ _ _.
            After-skip _ (ok_or (get t.member_network k) not_member) _ λ n there.
              let same : k ≡ m = ground (arith, by, signed) in
              absurd (ground (arith, same, there, absent)))
        h

  -- After every run of the members pallet, an online member that is in no shard is unregistered. Then,
  -- in every run that follows and does not register it again, in any order of calls and blocks, it
  -- stays online, however many periods end: it has no network, each of its heartbeats is refused, and
  -- it is still counted for this period or waits for its timeout. The elections pallet changes no
  -- member but by unregistering it, and gives none a network.
  pub unregister_member-Stranded :
      {s s' t : State} (cfg : Config W) (w : W) (o : Origin) (m : ℕ)
      → Reach W init s
      → get s.member_online m ≡ some tt
      → cfg.is_shard_member w m ≡ false
      → unregister_member cfg s w o m ≡ ok s'
      → Later m s' t
      → Stranded m t
  unregister_member-Stranded {s} {s'} {t} cfg w o m run online free h after =
      let (absent, same) = unregistered_network cfg s s' w o m free h in
      let a =
        Later-Adrift after
          (record { online = ap (λ l. get l m) same ∙ online; network = absent }) in
      let v = run-IsTimed W (Later-Reach after (next run (unregisters cfg w o m h))) in
      record {
        online = a.online;
        network = a.network;
        watched = v.watched m a.online;
        silenced = λ c x by r signed. silent_without_network c t x by m r a.network signed;
      }
