-- ===== src/Shards/Quorum.antt =====
-- When a shard goes offline in pallets/shards/src/lib.rs.
use timechain.Prelude.{
  ℕ, ◌-◌, ◌≡◌, refl, Option, none, some, List, [], ◌∷◌, ltb, Bool-cases, inl, inr, if◌then◌else◌,
  ==_refl, unwrap_or,
}
use timechain.Storage.{Map, get, insert, get-insert_self}
use timechain.Shards.{
  State, Config, ShardStatus, online, offline, drain_shard, remove_shard, remove_shards,
  remove_shards_offline,
}
use timechain.Shards.Interface.{members_offline, note_all, note_offline, note_status, apply_updates}

insert_twice : {V : Type 0} (k : ℕ) (a b : V) → insert (insert [] k a) k b ≡ (k, b) ∷ []
unfolding insert
insert_twice k a b = rw (==_refl k) refl

-- What the first pass notes of one member.
noted :
    (s : State) (m k threshold : ℕ)
    → get s.member_shard m ≡ some k
    → get s.shard_state k ≡ some online
    → get s.shard_threshold k ≡ some threshold
    → note_all s ([], []) (m ∷ []) ≡ (
        let left : ℕ = unwrap_or (get s.shard_members_online k) 0 - 1 in
        (
          (k, (left, some (if ltb left threshold then offline else online))) ∷ [],
          (if ltb left threshold then k ∷ [] else []),
        ))
unfolding note_all note_offline note_status get
noted s m k threshold at on needs =
    let left : ℕ = unwrap_or (get s.shard_members_online k) 0 - 1 in
    rw (at, note_offline, on, needs, note_status)
      (elim (Bool-cases (ltb left threshold)) [
        | inl few ↦ rw few (
            rw
              (insert_twice {V = ℕ × Option ShardStatus} k (left, get s.shard_state k)
                (left, some offline))
              refl)
        | inr enough ↦ rw enough (
            rw
              (insert_twice {V = ℕ × Option ShardStatus} k (left, get s.shard_state k)
                (left, some online))
              refl)
      ])

module _ {W : Type 0} (cfg : Config W) where
  drain_shard_state :
      (s : State) (w : W) (updates : Map (List ℕ)) (k : ℕ) (network : Option ℕ)
      → (drain_shard cfg s w updates k network).0.shard_state ≡ s.shard_state
  unfolding drain_shard
  drain_shard_state s w updates k none = refl
  drain_shard_state s w updates k (some network) = refl

  removed_offline :
      (s : State) (w : W) (k : ℕ)
      → get (remove_shards_offline cfg s w (k ∷ [])).0.shard_state k ≡ some offline
  unfolding remove_shards_offline remove_shards remove_shard
  removed_offline s w k =
      rw (drain_shard_state _ w [] k (get s.shard_network k))
        (get-insert_self s.shard_state k offline)

  -- When one member of an online shard goes offline, the shard stays online exactly when the
  -- members that are left online are as many as its threshold, and else it is offline.
  pub members_offline_quorum :
      (s : State) (w : W) (m k threshold : ℕ)
      → get s.member_shard m ≡ some k
      → get s.shard_state k ≡ some online
      → get s.shard_threshold k ≡ some threshold
      → get (members_offline cfg s w (m ∷ [])).0.shard_state k
        ≡ some (
            if ltb (unwrap_or (get s.shard_members_online k) 0 - 1) threshold
            then offline
            else online)
  unfolding members_offline apply_updates
  members_offline_quorum s w m k threshold at on needs =
      let left : ℕ = unwrap_or (get s.shard_members_online k) 0 - 1 in
      rw (noted s m k threshold at on needs, members_offline)
        (elim (Bool-cases (ltb left threshold)) [
          | inl few ↦ rw few (removed_offline _ w k)
          | inr enough ↦ rw enough (get-insert_self s.shard_state k online)
        ])
