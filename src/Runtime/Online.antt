-- ===== src/Runtime/Online.antt =====
-- Which shards of pallets/shards/src/lib.rs are online and for which network, and the calls that
-- leave the tasks pallet alone.
use timechain.Prelude.{
  ℕ, ◌≡◌, ◌≢◌, ◌<◌, refl, sym, ap, subst, ◌∙◌, some, List, true, arith, unwrap_or, ◌==◌, Bool-cases,
  Option-cases, inl, inr, all, length, get_elem?,
}
use timechain.Storage.{get, get₂, get-insert_self, get-insert_ne, get₂-insert₂}
use timechain.Outcome.{
  After, After-skip, ensure, ensure_ok, ok_or, unexpected_commit, invalid_proof_of_knowledge,
  commitment_len_not_equal_to_threshold, invalid_verifying_key_in_commitment,
  member_peer_id_not_found,
}
use timechain.Shards.{
  State, Config, MemberStatus, committed, ready, is_added, is_committed, is_dkg, ShardStatus,
  created, group_committed, online, offline,
}
use timechain.Shards.Calls.{statuses, commit_shard, execute_commit, group_commitment, commitments}
use timechain.Shards.Interface.{member_online, next_signer, shard_members}

-- `shard` is online for network `n`.
abbrev pub Online : State → ℕ → ℕ → Type 0
Online s n shard = (get s.shard_network shard ≡ some n) × (get s.shard_state shard ≡ some online)

pub Online_one : (s : State) (n m k : ℕ) → Online s n k → Online s m k → n ≡ m
Online_one s n m k h h' = ap (λ o. unwrap_or o 0) (sym h.0 ∙ h'.0)

pub record IsSound (s : State) : Type 0 where
  -- Every member of an online shard is ready.
  pub met :
      (k m : ℕ) (status : MemberStatus)
      → get s.shard_state k ≡ some online
      → get₂ s.shard_members k m ≡ some status
      → status ≡ ready
  -- Every shard with a network was given its id.
  pub known : (k n : ℕ) → get s.shard_network k ≡ some n → k < s.shard_id_counter

-- No shard goes offline, and none gets a network.
pub record Steady (s s' : State) : Type 0 where
  pub sound : IsSound s'
  pub still : (n k : ℕ) → Online s n k → Online s' n k

pub same-Steady :
    (s s' : State)
    → IsSound s
    → s'.shard_network ≡ s.shard_network
    → s'.shard_id_counter ≡ s.shard_id_counter
    → s'.shard_members ≡ s.shard_members
    → s'.shard_state ≡ s.shard_state
    → Steady s s'
same-Steady s s' v network counter members status = record {
  sound = record { met = rw (members, status) v.met; known = rw (network, counter) v.known };
  still = rw (network, status) (λ n k h. h);
}

-- A shard that is not online changes, and is not online after that.
pub change-Steady :
    (s s' : State) (shard : ℕ)
    → IsSound s
    → (get s.shard_state shard ≡ some online → ⊥)
    → (get s'.shard_state shard ≡ some online → ⊥)
    → s'.shard_network ≡ s.shard_network
    → s'.shard_id_counter ≡ s.shard_id_counter
    → ((k m : ℕ) → k ≢ shard → get₂ s'.shard_members k m ≡ get₂ s.shard_members k m)
    → ((k : ℕ) → k ≢ shard → get s'.shard_state k ≡ get s.shard_state k)
    → Steady s s'
change-Steady s s' shard v before after network counter members states = record {
  sound = record {
    met = λ k m st h g.
        let ne : k ≢ shard = λ e. after (subst (λ j. get s'.shard_state j ≡ some online) e h) in
        v.met k m st (sym (states k ne) ∙ h) (sym (members k m ne) ∙ g);
    known = rw (network, counter) v.known;
  };
  still = λ n k h.
      let ne : k ≢ shard = λ e. before (subst (λ j. get s.shard_state j ≡ some online) e h.1) in
      (rw network h.0, states k ne ∙ h.1);
}

status_off : (status : ShardStatus) → is_dkg status ≡ true → some status ≡ some online → ⊥
status_off created d e = absurd cc
status_off group_committed d e = absurd cc
status_off online d e = absurd cc
status_off offline d e = absurd cc

pub member_online-Steady : (s : State) (m : ℕ) → IsSound s → Steady s (member_online s m)
unfolding member_online
member_online-Steady s m v = elim (Option-cases (get s.member_shard m)) [
  | inl alone ↦ rw (alone, member_online) (same-Steady s s v refl refl refl refl)
  | inr (k, e) ↦ elim (Option-cases (get s.shard_state k)) [
    | inl unknown ↦ rw (e, unknown, member_online) (same-Steady s s v refl refl refl refl)
    | inr (old, e') ↦ elim (Bool-cases (is_dkg old)) [
      | inl d ↦
          rw (e, e', d, member_online)
            (change-Steady s _ k v (λ h. status_off old d (sym e' ∙ h))
              (λ h.
                status_off created refl
                  (ground (arith, h, get-insert_self s.shard_state k offline)))
              refl refl (λ j m ne. refl) (λ j ne. get-insert_ne s.shard_state k j offline ne))
      | inr d ↦ rw (e, e', d, member_online) (same-Steady s _ v refl refl refl refl)
    ]
  ]
]

module _ {W : Type 0} (cfg : Config W) where
  pub next_signer-Steady :
      (s : State) (w : W) (k : ℕ)
      → IsSound s
      → After (λ (r : State × ℕ). Steady s r.0) (next_signer cfg s w k)
  unfolding next_signer
  next_signer-Steady s w k v =
      elim (Option-cases (get_elem? (shard_members s k) (unwrap_or (get s.signer_index k) 0))) [
        | inl past ↦ rw (past, next_signer) tt
        | inr (m, e) ↦ elim (Option-cases (cfg.member_public_key w m)) [
          | inl keyless ↦ rw (e, keyless, next_signer) tt
          | inr (key, e') ↦ rw (e, e', next_signer) (same-Steady s _ v refl refl refl refl)
        ]
      ]

  -- `marked` is `s` with the commitment of member `m`.
  commit_shard-Steady :
      (s marked : State) (k : ℕ)
      → IsSound s
      → (get s.shard_state k ≡ some online → ⊥)
      → marked.shard_network ≡ s.shard_network
      → marked.shard_id_counter ≡ s.shard_id_counter
      → ((j m : ℕ) → j ≢ k → get₂ marked.shard_members j m ≡ get₂ s.shard_members j m)
      → marked.shard_state ≡ s.shard_state
      → After (Steady s) (commit_shard cfg marked k)
  unfolding commit_shard
  commit_shard-Steady s marked k v off network counter members states =
      elim (Bool-cases (all is_committed (statuses marked k))) [
        | inl whole ↦ rw whole (
            After-skip (Steady s) (group_commitment cfg (commitments (statuses marked k))) _ λ c _.
              change-Steady s _ k v off
                (λ h.
                  status_off group_committed refl
                    (ground (arith, h, get-insert_self marked.shard_state k group_committed)))
                network counter members
                (λ j ne.
                  get-insert_ne marked.shard_state k j group_committed ne
                  ∙ ap (λ m. get m j) states))
        | inr part ↦ rw part (
            change-Steady s marked k v off (λ h. off (rw (← states) h)) network counter members
              (λ j ne. ap (λ m. get m j) states))
      ]

  -- A member that was just added is in no online shard.
  added_off :
      (s : State) (k m : ℕ)
      → IsSound s
      → is_added (get₂ s.shard_members k m) ≡ true
      → get s.shard_state k ≡ some online
      → ⊥
  added_off s k m v fresh h = elim (Option-cases (get₂ s.shard_members k m)) [
    | inl absent ↦ absurd (ground (arith, absent, fresh))
    | inr (st, e) ↦
        let is_met : st ≡ ready = v.met k m st h e in
        let e' : get₂ s.shard_members k m ≡ some ready = e ∙ ap (λ x. some x) is_met in
        absurd (ground (arith, e', fresh))
  ]

  pub execute_commit-Steady :
      (s : State) (w : W) (m k : ℕ) (c : List ℕ) (proof : ℕ)
      → IsSound s
      → After (Steady s) (execute_commit cfg s w m k c proof)
  unfolding execute_commit
  execute_commit-Steady s w m k c proof v =
      After-skip (Steady s) (ensure (is_added (get₂ s.shard_members k m)) unexpected_commit) _
        λ _ fresh.
          After-skip (Steady s)
            (ensure (length c == unwrap_or (get s.shard_threshold k) 0)
              commitment_len_not_equal_to_threshold)
            _
            λ _ _.
              After-skip (Steady s)
                (ensure (all cfg.is_verifying_key c) invalid_verifying_key_in_commitment) _
                λ _ _.
                  After-skip (Steady s) (ok_or (cfg.member_peer_id w m) member_peer_id_not_found) _
                    λ peer _.
                      After-skip (Steady s)
                        (ensure (cfg.verify_proof_of_knowledge peer c proof)
                          invalid_proof_of_knowledge)
                        _
                        λ _ _.
                          commit_shard-Steady s _ k v
                            (added_off s k m v (ensure_ok _ unexpected_commit fresh)) refl refl
                            (λ j i ne.
                              ground
                                (arith, ne, get₂-insert₂ s.shard_members k m j i (committed c)))
                            refl
