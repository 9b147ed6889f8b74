-- ===== src/Shards/Joining.antt =====
-- `create_shard` and the notices about members of pallets/shards/src/lib.rs against the membership.
use timechain.Prelude.{
  ℕ, ◌<◌, ◌≡◌, ◌⊎◌, refl, sym, subst, true, false, Option, none, some, List, [], ◌∷◌, arith,
  is_some, is_empty, All, All-map, Bool-cases, Option-cases, inl, inr, ◌==◌, saturating_add,
  u64_max, u32_max, ltb, unwrap_or,
}
use timechain.Storage.{Map, get, insert, insert₂, get-insert, get-insert_self, contains_key}
use timechain.Outcome.{After, After-skip, ensure, max_shards_created_this_block}
use timechain.Shards.{State, Config, ShardStatus, added, created, is_dkg}
use timechain.Shards.Interface.{
  member_online, members_offline, note_all, apply_updates, add_members, create_shard,
}
use timechain.Shards.Membership.{Crews, crews, IsValid, join-IsValid}
use timechain.Shards.Keeping.{Valid, remove_shards_offline-IsValid}

-- Nobody of the list is in a shard, or only in shard `k`.
abbrev Free : State → ℕ → ℕ → Type 0
Free s k m = (get s.member_shard m ≡ none) ⊎ (get s.member_shard m ≡ some k)

abbrev join : State → ℕ → ℕ → State
join s k m = record s {
  shard_members = insert₂ s.shard_members k m added;
  member_shard = insert s.member_shard m k;
}

join-Free : (s : State) (k m j : ℕ) → Free s k j → Free (join s k m) k j
join-Free s k m j free = elim (Bool-cases (j == m)) [
  | inl same ↦ inr (ground (arith, get-insert s.member_shard m j k))
  | inr other ↦
      subst (λ o. (o ≡ none) ⊎ (o ≡ some k)) (ground (arith, get-insert s.member_shard m j k)) free
]

add_members-IsValid :
    (members : List ℕ) (s : State) (k : ℕ)
    → is_some (get s.shard_network k) ≡ true
    → All (Free s k) members
    → Valid s
    → Valid (add_members s k members)
unfolding add_members
add_members-IsValid [] s k alive free v = v
add_members-IsValid (m ∷ members) s k alive free v =
    add_members-IsValid members (join s k m) k alive
      (All-map (Free s k) (Free (join s k m) k) (λ j. join-Free s k m j) members free.1)
      (join-IsValid (crews s) k m alive free.0 v)

member_online-Same : (s : State) (m : ℕ) → crews (member_online s m) ≡ crews s
unfolding member_online
member_online-Same s m = elim (Option-cases (get s.member_shard m)) [
  | inl alone ↦ rw (alone, member_online) refl
  | inr (k, e) ↦ elim (Option-cases (get s.shard_state k)) [
    | inl unknown ↦ rw (e, unknown, member_online) refl
    | inr (old, e') ↦ elim (Bool-cases (is_dkg old)) [
      | inl d ↦ rw (e, e', d, member_online) refl
      | inr d ↦ rw (e, e', d, member_online) refl
    ]
  ]
]

pub member_online-IsValid : (s : State) (m : ℕ) → Valid s → Valid (member_online s m)
member_online-IsValid s m v = subst IsValid (sym (member_online-Same s m)) v

apply_updates-Same :
    (updates : Map (ℕ × Option ShardStatus)) (s : State) → crews (apply_updates s updates) ≡ crews s
unfolding apply_updates
apply_updates-Same [] s = refl
apply_updates-Same ((k, (count, none)) ∷ updates) s = apply_updates-Same updates _
apply_updates-Same ((k, (count, some status)) ∷ updates) s = apply_updates-Same updates _

module _ {W : Type 0} (cfg : Config W) where
  pub members_offline-IsValid :
      (s : State) (w : W) (members : List ℕ) → Valid s → Valid (members_offline cfg s w members).0
  unfolding members_offline
  members_offline-IsValid s w members v =
      let (updates, to_remove) = note_all s ([], []) members in
      let updated = apply_updates s updates in
      let ok' : Valid updated = subst IsValid (sym (apply_updates-Same updates s)) v in
      elim (Bool-cases (is_empty to_remove)) [
        | inl quiet ↦ rw quiet ok'
        | inr late ↦ rw late (remove_shards_offline-IsValid cfg updated w to_remove ok')
      ]

  -- The new shard, before its members join.
  fresh-IsValid :
      (c : Crews) (network : ℕ)
      → c.counter < u64_max
      → IsValid c
      → IsValid (record c {
        network = insert c.network c.counter network;
        counter = saturating_add u64_max c.counter 1;
      })
  fresh-IsValid c network room v = record {
    listed = v.listed;
    placed = v.placed;
    manned = λ k m h. ground (arith, get-insert c.network c.counter k network, v.manned k m h);
    known = λ k h. ground (arith, get-insert c.network c.counter k network, v.known k);
  }

  pub create_shard-IsValid :
      (s : State) (block network : ℕ) (members : List ℕ) (threshold : ℕ)
      → s.shard_id_counter < u64_max
      → All (λ (m : ℕ). contains_key s.member_shard m ≡ false) members
      → Valid s
      → After (λ (r : State × ℕ). Valid r.0) (create_shard cfg s block network members threshold)
  unfolding create_shard
  create_shard-IsValid s block network members threshold room free v =
      let end : ℕ = saturating_add u32_max block cfg.dkg_timeout in
      let made : State = record s {
        dkg_timeout_counter =
            insert s.dkg_timeout_counter end
              (saturating_add u32_max (unwrap_or (get s.dkg_timeout_counter end) 0) 1);
        shard_id_counter = saturating_add u64_max s.shard_id_counter 1;
        shard_network = insert s.shard_network s.shard_id_counter network;
        shard_state = insert s.shard_state s.shard_id_counter created;
        dkg_timeout = insert₂ s.dkg_timeout end s.shard_id_counter tt;
        shard_threshold = insert s.shard_threshold s.shard_id_counter threshold;
      } in
      let alive : is_some (get made.shard_network s.shard_id_counter) ≡ true =
        rw (get-insert_self s.shard_network s.shard_id_counter network) refl in
      After-skip (λ (r : State × ℕ). Valid r.0)
        (ensure (ltb (unwrap_or (get s.dkg_timeout_counter end) 0) cfg.max_elections_per_block)
          max_shards_created_this_block)
        _
        λ _ _.
          add_members-IsValid members made s.shard_id_counter alive
            (All-map _ (Free made s.shard_id_counter) (λ m h. inl (ground arith)) members free)
            (fresh-IsValid (crews s) network room v)
