-- ===== src/Shards/Calls.antt =====
-- The extrinsics and the block hook of pallets/shards/src/lib.rs.
use timechain.Prelude.{
  ℕ, Option, none, some, List, [], ◌∷◌, ◌==◌, if◌then◌else◌, unwrap_or, length, all, is_empty, map,
  get_elem?,
}
use timechain.Storage.{get, insert, remove, keys, prefix, drain_prefix, get₂, insert₂}
use timechain.Outcome.{
  Outcome, ok, err, panic, ◌>>=◌, ◌>>◌, ensure, ok_or, unexpected_commit,
  commitment_len_not_equal_to_threshold, invalid_verifying_key_in_commitment,
  member_peer_id_not_found, invalid_proof_of_knowledge, invalid_commitment, unexpected_ready,
  unknown_shard_network, unknown_shard_commitment, Origin, ensure_admin, ensure_signed,
}
use timechain.Shards.{
  MemberStatus, committed, ready, group_committed, online, commitment_of, is_committed, is_added,
  is_ready, is_some_committed, is_dkg, shard_committed, shard_online, State, Config,
  remove_shards_offline,
}

abbrev pub statuses : State → ℕ → List MemberStatus
statuses s shard_id = map (λ e. e.1) (prefix s.shard_members shard_id)

-- `filter_map(|(_, status)| status.commitment())`.
unfoldable pub commitments : List MemberStatus → List (List ℕ)
commitments [] = []
commitments (status ∷ l) =
    let rest = commitments l in elim (commitment_of status) [ none ↦ rest | some c ↦ c ∷ rest ]

-- A panic of the `expect` is `none`.
abbrev or_panic {ℓ} : {A : Type ℓ} → Option A → Outcome A
or_panic none = panic
or_panic (some a) = ok a

-- The shards that are still generating their key.
unfoldable pub timed_out : State → List ℕ → List ℕ
timed_out s [] = []
timed_out s (shard_id ∷ shards) =
    let rest = timed_out s shards in
    elim (get s.shard_state shard_id) [
      | none ↦ rest
      | some status ↦ if is_dkg status then shard_id ∷ rest else rest
    ]

module _ {W : Type 0} (cfg : Config W) where
  -- `zip`: what one commitment has beyond the other stays as it is.
  pub add_commitment : List ℕ → List ℕ → Option (List ℕ)
  add_commitment [] cs = some []
  add_commitment (g ∷ gs) [] = some (g ∷ gs)
  add_commitment (g ∷ gs) (c ∷ cs) = elim (cfg.add_keys g c) [
    | none ↦ none
    | some k ↦ elim (add_commitment gs cs) [ none ↦ none | some ks ↦ some (k ∷ ks) ]
  ]

  unfoldable pub add_all : List ℕ → List (List ℕ) → Option (List ℕ)
  add_all g [] = some g
  add_all g (c ∷ cs) = elim (add_commitment g c) [ none ↦ none | some g' ↦ add_all g' cs ]

  -- `reduce`, and the error of an empty sequence.
  unfoldable pub group_commitment : List (List ℕ) → Outcome (List ℕ)
  group_commitment [] = err invalid_commitment
  group_commitment (c ∷ cs) = or_panic (add_all c cs)

  -- When all members have committed, the shard has.
  unfoldable pub commit_shard : State → ℕ → Outcome State
  commit_shard s shard_id =
      if all is_committed (statuses s shard_id)
      then (group_commitment (commitments (statuses s shard_id)) >>= λ c. ok (record s {
        shard_commitment = insert s.shard_commitment shard_id c;
        shard_state = insert s.shard_state shard_id group_committed;
        events = shard_committed shard_id c ∷ s.events;
      }))
      else ok s

  unfoldable pub execute_commit : State → W → ℕ → ℕ → List ℕ → ℕ → Outcome State
  execute_commit s w member shard_id commitment proof_of_knowledge =
      ensure (is_added (get₂ s.shard_members shard_id member)) unexpected_commit
      >> (ensure (length commitment == unwrap_or (get s.shard_threshold shard_id) 0)
            commitment_len_not_equal_to_threshold
          >> (ensure (all cfg.is_verifying_key commitment) invalid_verifying_key_in_commitment
              >> (ok_or (cfg.member_peer_id w member) member_peer_id_not_found >>= λ peer_id.
                  ensure (cfg.verify_proof_of_knowledge peer_id commitment proof_of_knowledge)
                    invalid_proof_of_knowledge
                  >> commit_shard
                      (record s {
                        shard_members =
                            insert₂ s.shard_members shard_id member (committed commitment);
                      })
                      shard_id)))

  -- When all members are ready, the shard is online; its key is the first of the commitment, whose
  -- absence is an index out of bounds.
  unfoldable pub ready_shard : State → W → ℕ → ℕ → List ℕ → Outcome (State × W)
  ready_shard s w shard_id network commitment =
      if all is_ready (statuses s shard_id)
      then elim (get_elem? commitment 0) [
        | none ↦ panic
        | some key ↦
            let s' : State = record s {
              shard_state = insert s.shard_state shard_id online;
              events = shard_online shard_id key ∷ s.events;
            } in
            ok (s', cfg.tasks_shard_online s' w shard_id network)
      ]
      else ok (s, w)

  unfoldable pub execute_ready : State → W → ℕ → ℕ → Outcome (State × W)
  execute_ready s w member shard_id =
      ensure (is_some_committed (get₂ s.shard_members shard_id member)) unexpected_ready
      >> (ok_or (get s.shard_network shard_id) unknown_shard_network >>= λ network.
          ok_or (get s.shard_commitment shard_id) unknown_shard_commitment >>= λ commitment.
          ready_shard (record s { shard_members = insert₂ s.shard_members shard_id member ready }) w
            shard_id network commitment)

  unfoldable pub commit : State → W → Origin → ℕ → List ℕ → ℕ → Outcome State
  commit s w origin shard_id commitment proof =
      ensure_signed origin >>= λ member. execute_commit s w member shard_id commitment proof

  unfoldable pub mark_ready : State → W → Origin → ℕ → Outcome (State × W)
  mark_ready s w origin shard_id =
      ensure_signed origin >>= λ member. execute_ready s w member shard_id

  unfoldable pub force_shard_offline : State → W → Origin → ℕ → Outcome (State × W)
  force_shard_offline s w origin shard_id =
      ensure_admin origin >> ok (remove_shards_offline cfg s w (shard_id ∷ []))

  unfoldable pub timeout_dkgs : State → W → ℕ → State × W
  timeout_dkgs s w n =
      let drained : State = record s { dkg_timeout = drain_prefix s.dkg_timeout n } in
      let shards_to_remove = timed_out drained (keys (prefix s.dkg_timeout n)) in
      let (s', w') =
        if is_empty shards_to_remove
        then (drained, w)
        else remove_shards_offline cfg drained w shards_to_remove in
      (record s' { dkg_timeout_counter = remove s'.dkg_timeout_counter n }, w')

  abbrev pub on_initialize : State → W → ℕ → State × W
  on_initialize s w n = timeout_dkgs s w n
