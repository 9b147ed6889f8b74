-- ===== src/Members/Periods.antt =====
-- Who is online, who has sent a heartbeat and who waits for its timeout in
-- pallets/members/src/lib.rs: the invariant, and each call against it.
use timechain.Prelude.{
  ℕ, ◌≤◌, ◌≡◌, ◌⊎◌, refl, sym, ap, ◌∙◌, none, some, List, [], ◌∷◌, arith, retain, not, Bool-cases,
  inl, inr, ◌==◌, if◌then◌else◌, is_some, is_none,
}
use timechain.Storage.{Map, get, insert, Unique, get-insert, insert-Unique}
use timechain.Outcome.{
  After, After-skip, ensure, ok_or, not_member, not_registered, already_submitted_heartbeat,
}
use timechain.Members.{
  State, Config, do_unregister_member, mark_online, members_offline, greet, execute_send_heartbeat,
  execute_unregister_member, offline_by_network, is_member_online,
}
use timechain.Members.Timeouts.{everyone}
use timechain.Members.Waiting.{count, count-append, count-retain, get-remove_online}

-- The members that are online, their heartbeats and those that wait for their timeout are the same.
pub record Same (s s' : State) : Type 0 where
  pub online : s'.member_online ≡ s.member_online
  pub heartbeat : s'.heartbeat ≡ s.heartbeat
  pub timed_out : s'.timed_out ≡ s.timed_out

-- The elections pallet calls this pallet back only to unregister members.
pub record LeavesMembers {W : Type 0} (cfg : Config W) : Type 0 where
  pub arrives : (s : State) (w : W) (m n : ℕ) → Same s (cfg.elections_member_online s w m n).0
  pub departs :
      (s : State) (w : W) (ms : List ℕ) (n : ℕ) → Same s (cfg.elections_members_offline s w ms n).0

-- Whoever is online has sent a heartbeat in this period or waits for its timeout; who waits, waits
-- once, and has sent no heartbeat.
pub record IsTimed (s : State) : Type 0 where
  pub watched :
      (m : ℕ)
      → get s.member_online m ≡ some tt
      → (get s.heartbeat m ≡ some tt) ⊎ (1 ≤ count m s.timed_out)
  pub once : (m : ℕ) → count m s.timed_out ≤ 1
  pub silent : (m : ℕ) → get s.heartbeat m ≡ some tt → count m s.timed_out ≡ 0
  pub unique : Unique s.heartbeat

pub Same-IsTimed : (s s' : State) → Same s s' → IsTimed s → IsTimed s'
Same-IsTimed s s' e v = record {
  watched = rw (e.online, e.heartbeat, e.timed_out) v.watched;
  once = rw e.timed_out v.once;
  silent = rw (e.heartbeat, e.timed_out) v.silent;
  unique = rw e.heartbeat v.unique;
}

module _ {W : Type 0} (cfg : Config W) where
  pub do_unregister_member-Same :
      (s : State) (w : W) (m : ℕ) → Same s (do_unregister_member cfg s w m)
  unfolding do_unregister_member
  do_unregister_member-Same s w m = elim (Bool-cases (not (cfg.is_shard_member w m))) [
    | inl free ↦ rw free (record { online = refl; heartbeat = refl; timed_out = refl })
    | inr held ↦ rw held (record { online = refl; heartbeat = refl; timed_out = refl })
  ]

  pub execute_unregister_member-Same :
      (s : State) (w : W) (m : ℕ) → After (Same s) (execute_unregister_member cfg s w m)
  unfolding execute_unregister_member
  execute_unregister_member-Same s w m =
      After-skip (Same s) (ok_or (get s.member_network m) not_member) _ λ n _.
        After-skip (Same s) (ensure (is_some (get s.member_registered m)) not_registered) _ λ _ _.
          let same = do_unregister_member-Same _ w m in
          record { online = same.online; heartbeat = same.heartbeat; timed_out = same.timed_out }

  module _ (elects : LeavesMembers cfg) where
    -- A member that sends its heartbeat comes online, if it is not.
    record Greeted (s : State) (m : ℕ) (t : State) : Type 0 where
      online :
          (x : ℕ) → get t.member_online x ≡ some tt → (x ≡ m) ⊎ (get s.member_online x ≡ some tt)
      heartbeat : t.heartbeat ≡ s.heartbeat
      timed_out : t.timed_out ≡ s.timed_out

    greet-Greeted : (s : State) (w : W) (m n : ℕ) → Greeted s m (greet cfg s w m n).0
    unfolding greet mark_online
    greet-Greeted s w m n = elim (Bool-cases (not (is_member_online s m))) [
      | inr there ↦ rw there (record { online = λ x h. inr h; heartbeat = refl; timed_out = refl })
      | inl away ↦ rw away (
          let same = elects.arrives _ w m n in
          record {
            online = λ x h.
                let g : get (insert s.member_online m tt) x ≡ some tt =
                  ap (λ o. get o x) (sym same.online) ∙ h in
                elim (Bool-cases (x == m)) [
                  | inl here ↦ inl (ground (arith, here))
                  | inr other ↦ inr (ground (arith, g, other, get-insert s.member_online m x tt))
                ];
            heartbeat = same.heartbeat;
            timed_out = same.timed_out;
          })
    ]

    pub execute_send_heartbeat-IsTimed :
        (s : State) (w : W) (m : ℕ)
        → IsTimed s
        → After (λ (r : State × W). IsTimed r.0) (execute_send_heartbeat cfg s w m)
    unfolding execute_send_heartbeat
    execute_send_heartbeat-IsTimed s w m v =
        let Q : State × W → Type 0 = λ r. IsTimed r.0 in
        After-skip Q (ensure (is_none (get s.heartbeat m)) already_submitted_heartbeat) _ λ _ _.
          After-skip Q (ok_or (get s.member_network m) not_member) _ λ n _.
            let t = (greet cfg s w m n).0 in
            let g = greet-Greeted s w m n in
            let beats : (x : ℕ)
                → get (insert t.heartbeat m tt) x
                  ≡ (if x == m then some tt else get s.heartbeat x) =
              λ x. rw g.heartbeat (get-insert s.heartbeat m x tt) in
            let waits : (x : ℕ)
                → count x (retain (λ j. not (j == m)) t.timed_out)
                  ≡ (if x == m then 0 else count x s.timed_out) =
              λ x. rw g.timed_out (count-retain x m s.timed_out) in
            record {
              watched = λ x h. elim (Bool-cases (x == m)) [
                | inl here ↦ inl (ground (arith, here, beats x))
                | inr other ↦ elim (g.online x h) [
                  | inl e ↦ absurd (ground (arith, e, other))
                  | inr on ↦ elim (v.watched x on) [
                    | inl sent ↦ inl (ground (arith, other, sent, beats x))
                    | inr waiting ↦ inr (ground (arith, other, waiting, waits x))
                  ]
                ]
              ];
              once = λ x. ground (arith, v.once x, waits x);
              silent = λ x h. ground (arith, v.silent x, beats x, waits x, h);
              unique = rw g.heartbeat (insert-Unique s.heartbeat m tt v.unique);
            }

    pub offline_by_network-Left :
        (current : Map (List ℕ)) (s : State) (w : W)
        → (let t = (offline_by_network cfg s w current).0 in
            ((x : ℕ)
              → get t.member_online x
                ≡ (if count x (everyone current) == 0 then get s.member_online x else none))
            × (t.heartbeat ≡ s.heartbeat)
            × (t.timed_out ≡ s.timed_out))
    unfolding offline_by_network members_offline everyone count
    offline_by_network-Left [] s w = (λ x. refl, refl, refl)
    offline_by_network-Left ((n, ms) ∷ current) s w =
        let same = elects.departs _ w ms n in
        let (online, heartbeat, timed_out) = offline_by_network-Left current _ _ in
        (
          λ x. ground (
            arith,
            online x,
            ap (λ o. get o x) same.online,
            get-remove_online s.member_online ms x,
            count-append x ms (everyone current),
          ),
          heartbeat ∙ same.heartbeat,
          timed_out ∙ same.timed_out,
        )
