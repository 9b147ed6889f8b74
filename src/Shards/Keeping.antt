-- ===== src/Shards/Keeping.antt =====
-- Each extrinsic and the block hook of pallets/shards/src/lib.rs against the membership.
use timechain.Prelude.{
  ℕ, ◌≡◌, refl, true, Option, none, some, List, [], ◌∷◌, is_some, is_empty, Bool-cases,
  Option-cases, inl, inr, ◌==◌, all, get_elem?, length, unwrap_or,
}
use timechain.Storage.{Map, get, keys, prefix, get₂, insert₂, drain_prefix}
use timechain.Outcome.{
  After, After-skip, ensure, ensure_ok, ok_or, unexpected_commit, unexpected_ready,
  commitment_len_not_equal_to_threshold, invalid_verifying_key_in_commitment,
  member_peer_id_not_found, invalid_proof_of_knowledge, unknown_shard_network,
  unknown_shard_commitment,
}
use timechain.Shards.{
  State, Config, MemberStatus, committed, ready, drain_shard, remove_shard, remove_shards,
  remove_shards_offline, is_added, is_ready, is_committed, is_some_committed,
}
use timechain.Shards.Calls.{
  commit_shard, execute_commit, ready_shard, execute_ready, timeout_dkgs, timed_out, statuses,
  group_commitment, commitments,
}
use timechain.Shards.Membership.{
  crews, IsValid, change-IsValid, remove_network-IsValid, drain-IsValid,
}

abbrev pub Valid : State → Type 0
Valid s = IsValid (crews s)

module _ {W : Type 0} (cfg : Config W) where
  remove_shard-IsValid :
      (s : State) (w : W) (updates : Map (List ℕ)) (k : ℕ)
      → Valid s
      → Valid (remove_shard cfg s w updates k).0
  unfolding remove_shard drain_shard
  remove_shard-IsValid s w updates k v = elim (Option-cases (get s.shard_network k)) [
    | inl alone ↦ rw (alone, drain_shard) (remove_network-IsValid (crews s) k alone v)
    | inr (network, e) ↦ rw (e, drain_shard) (drain-IsValid (crews s) k v)
  ]

  remove_shards-IsValid :
      (shards : List ℕ) (s : State) (w : W) (updates : Map (List ℕ))
      → Valid s
      → Valid (remove_shards cfg s w updates shards).0
  unfolding remove_shards
  remove_shards-IsValid [] s w updates v = v
  remove_shards-IsValid (k ∷ shards) s w updates v =
      let (s', w', updates') = remove_shard cfg s w updates k in
      remove_shards-IsValid shards s' w' updates' (remove_shard-IsValid s w updates k v)

  pub remove_shards_offline-IsValid :
      (s : State) (w : W) (shards : List ℕ)
      → Valid s
      → Valid (remove_shards_offline cfg s w shards).0
  unfolding remove_shards_offline
  remove_shards_offline-IsValid s w shards v = remove_shards-IsValid shards s w [] v

  pub timeout_dkgs-IsValid :
      (s : State) (w : W) (n : ℕ) → Valid s → Valid (timeout_dkgs cfg s w n).0
  unfolding timeout_dkgs
  timeout_dkgs-IsValid s w n v =
      let drained : State = record s { dkg_timeout = drain_prefix s.dkg_timeout n } in
      let shards = timed_out drained (keys (prefix s.dkg_timeout n)) in
      elim (Bool-cases (is_empty shards)) [
        | inl quiet ↦ rw quiet v
        | inr late ↦ rw late (remove_shards_offline-IsValid drained w shards v)
      ]

  commit_shard-IsValid : (s : State) (k : ℕ) → Valid s → After Valid (commit_shard cfg s k)
  unfolding commit_shard
  commit_shard-IsValid s k v = elim (Bool-cases (all is_committed (statuses s k))) [
    | inl whole ↦
        rw whole (After-skip Valid (group_commitment cfg (commitments (statuses s k))) _ λ c _. v)
    | inr part ↦ rw part v
  ]

  is_added_some : (o : Option MemberStatus) → is_added o ≡ true → is_some o ≡ true
  is_added_some none h = absurd (cc)
  is_added_some (some st) h = refl

  is_committed_some : (o : Option MemberStatus) → is_some_committed o ≡ true → is_some o ≡ true
  is_committed_some none h = absurd (cc)
  is_committed_some (some st) h = refl

  pub execute_commit-IsValid :
      (s : State) (w : W) (m k : ℕ) (c : List ℕ) (proof : ℕ)
      → Valid s
      → After Valid (execute_commit cfg s w m k c proof)
  unfolding execute_commit
  execute_commit-IsValid s w m k c proof v =
      After-skip Valid (ensure (is_added (get₂ s.shard_members k m)) unexpected_commit) _ λ _ new.
        After-skip Valid
          (ensure (length c == unwrap_or (get s.shard_threshold k) 0)
            commitment_len_not_equal_to_threshold)
          _
          λ _ _.
            After-skip Valid
              (ensure (all cfg.is_verifying_key c) invalid_verifying_key_in_commitment) _
              λ _ _.
                After-skip Valid (ok_or (cfg.member_peer_id w m) member_peer_id_not_found) _
                  λ peer _.
                    After-skip Valid
                      (ensure (cfg.verify_proof_of_knowledge peer c proof)
                        invalid_proof_of_knowledge)
                      _
                      λ _ _.
                        let there =
                          is_added_some (get₂ s.shard_members k m) (
                            ensure_ok (is_added (get₂ s.shard_members k m)) unexpected_commit
                              new) in
                        commit_shard-IsValid
                          (record s { shard_members = insert₂ s.shard_members k m (committed c) }) k
                          (change-IsValid (crews s) k m (committed c) there v)

  ready_shard-IsValid :
      (s : State) (w : W) (k n : ℕ) (c : List ℕ)
      → Valid s
      → After (λ (r : State × W). Valid r.0) (ready_shard cfg s w k n c)
  unfolding ready_shard
  ready_shard-IsValid s w k n c v = elim (Bool-cases (all is_ready (statuses s k))) [
    | inr part ↦ rw part v
    | inl whole ↦
        rw whole
          (elim (Option-cases (get_elem? c 0)) [ inl empty ↦ rw empty tt | inr (key, e) ↦ rw e v ])
  ]

  pub execute_ready-IsValid :
      (s : State) (w : W) (m k : ℕ)
      → Valid s
      → After (λ (r : State × W). Valid r.0) (execute_ready cfg s w m k)
  unfolding execute_ready
  execute_ready-IsValid s w m k v =
      let Q : State × W → Type 0 = λ r. Valid r.0 in
      After-skip Q (ensure (is_some_committed (get₂ s.shard_members k m)) unexpected_ready) _
        λ _ was. After-skip Q (ok_or (get s.shard_network k) unknown_shard_network) _ λ n _.
          After-skip Q (ok_or (get s.shard_commitment k) unknown_shard_commitment) _ λ c _.
            let there =
              is_committed_some (get₂ s.shard_members k m)
                (ensure_ok (is_some_committed (get₂ s.shard_members k m)) unexpected_ready was) in
            ready_shard-IsValid (record s { shard_members = insert₂ s.shard_members k m ready }) w k
              n c (change-IsValid (crews s) k m ready there v)
