-- ===== src/Shards/Interface.antt =====
-- `ShardsInterface` of pallets/shards/src/lib.rs: what the elections and tasks pallets call.
use timechain.Prelude.{
  ℕ, Bool, Option, none, some, List, [], ◌∷◌, ltb, leb, ◌==◌, ◌&&◌, not, if◌then◌else◌, unwrap_or,
  length, is_empty, get_elem?, ◌++◌, ◌%◌, saturating_add, saturating_sub, u16_max, u32_max, u64_max,
  u16_mod, u32_mod,
}
use timechain.Storage.{Map, get, insert, keys, prefix, insert₂, contains_key}
use timechain.Outcome.{Outcome, ok, panic, ◌>>◌, ensure, max_shards_created_this_block}
use timechain.Shards.{
  added, ShardStatus, created, group_committed, online, offline, is_dkg, is_online, is_offline,
  shard_created, State, Config, remove_shards_offline,
}

unfoldable pub member_online : State → ℕ → State
member_online s id = elim (get s.member_shard id) [
  | none ↦ s
  | some shard_id ↦ elim (get s.shard_state shard_id) [
    | none ↦ s
    | some old_status ↦
        let counted : State = record s {
          shard_members_online =
              insert s.shard_members_online shard_id
                (saturating_add u16_max (unwrap_or (get s.shard_members_online shard_id) 0) 1);
        } in
        if is_dkg old_status
        then record counted { shard_state = insert s.shard_state shard_id offline }
        else counted
  ]
]

-- The status that a shard gets when `online_count` of its members are left.
abbrev pub next_status : ShardStatus → ℕ → ℕ → ShardStatus
next_status created online_count threshold = offline
next_status group_committed online_count threshold = offline
next_status online online_count threshold = if ltb online_count threshold then offline else online
next_status offline online_count threshold = offline

-- The map from shards to the count and the status that they are to get, and the shards to remove.
abbrev pub Updates : Type 0
Updates = Map (ℕ × Option ShardStatus) × List ℕ

abbrev pub entry : State → Map (ℕ × Option ShardStatus) → ℕ → ℕ × Option ShardStatus
entry s updates shard_id =
    unwrap_or (get updates shard_id)
      (unwrap_or (get s.shard_members_online shard_id) 0, get s.shard_state shard_id)

unfoldable pub note_status : Updates → ℕ → ℕ → Option ShardStatus → Option ℕ → Updates
note_status (updates, to_remove) shard_id count none threshold = (updates, to_remove)
note_status (updates, to_remove) shard_id count (some old_status) none = (updates, to_remove)
note_status (updates, to_remove) shard_id count (some old_status) (some threshold) =
    let new_status = next_status old_status count threshold in
    (
      insert updates shard_id (count, some new_status),
      (if is_offline new_status && not (is_offline old_status)
          then to_remove ++ shard_id ∷ []
          else to_remove),
    )

-- One member of the first pass of `members_offline`.
unfoldable pub note_offline : State → Updates → ℕ → Updates
note_offline s (updates, to_remove) member = elim (get s.member_shard member) [
  | none ↦ (updates, to_remove)
  | some shard_id ↦
      let (online_count, status) = entry s updates shard_id in
      let count = saturating_sub online_count 1 in
      note_status (insert updates shard_id (count, status), to_remove) shard_id count status
        (get s.shard_threshold shard_id)
]

unfoldable pub note_all : State → Updates → List ℕ → Updates
note_all s updates [] = updates
note_all s updates (member ∷ members) = note_all s (note_offline s updates member) members

-- The batch of storage updates; each shard is in it once, so their order plays no part.
unfoldable pub apply_updates : State → Map (ℕ × Option ShardStatus) → State
apply_updates s [] = s
apply_updates s ((shard_id, (count, status)) ∷ updates) =
    let counted : State = record s {
      shard_members_online =
          insert s.shard_members_online shard_id (if leb count u16_max then count else 0);
    } in
    apply_updates
      (elim status [
        | none ↦ counted
        | some new_status ↦ record counted {
          shard_state = insert s.shard_state shard_id new_status;
        }
      ])
      updates

unfoldable pub add_members : State → ℕ → List ℕ → State
add_members s shard_id [] = s
add_members s shard_id (member ∷ members) =
    add_members
      (record s {
        shard_members = insert₂ s.shard_members shard_id member added;
        member_shard = insert s.member_shard member shard_id;
      })
      shard_id members

pub is_shard_online : State → ℕ → Bool
is_shard_online s shard_id = is_online (get s.shard_state shard_id)

pub is_shard_member : State → ℕ → Bool
is_shard_member s member = contains_key s.member_shard member

pub shard_network : State → ℕ → Option ℕ
shard_network s shard_id = get s.shard_network shard_id

abbrev pub shard_members : State → ℕ → List ℕ
shard_members s shard_id = keys (prefix s.shard_members shard_id)

-- The first key of the commitment; an empty commitment is an index out of bounds.
unfoldable pub tss_public_key : State → ℕ → Outcome (Option ℕ)
tss_public_key s shard_id = elim (get s.shard_commitment shard_id) [
  | none ↦ ok none
  | some c ↦ elim (get_elem? c 0) [ none ↦ panic | some k ↦ ok (some k) ]
]

module _ {W : Type 0} (cfg : Config W) where
  unfoldable pub members_offline : State → W → List ℕ → State × W
  members_offline s w members =
      let (shard_updates, shards_to_remove_offline) = note_all s ([], []) members in
      let updated = apply_updates s shard_updates in
      if is_empty shards_to_remove_offline
      then (updated, w)
      else remove_shards_offline cfg updated w shards_to_remove_offline

  -- `block` is the current block; numbers of blocks are `u32`.
  unfoldable pub create_shard : State → ℕ → ℕ → List ℕ → ℕ → Outcome (State × ℕ)
  create_shard s block network members threshold =
      let dkg_timeout_block = saturating_add u32_max block cfg.dkg_timeout in
      let counter = unwrap_or (get s.dkg_timeout_counter dkg_timeout_block) 0 in
      ensure (ltb counter cfg.max_elections_per_block) max_shards_created_this_block
      >> (let shard_id = s.shard_id_counter in
          let made : State = record s {
            dkg_timeout_counter =
                insert s.dkg_timeout_counter dkg_timeout_block (saturating_add u32_max counter 1);
            shard_id_counter = saturating_add u64_max shard_id 1;
            shard_network = insert s.shard_network shard_id network;
            shard_state = insert s.shard_state shard_id created;
            dkg_timeout = insert₂ s.dkg_timeout dkg_timeout_block shard_id tt;
            shard_threshold = insert s.shard_threshold shard_id threshold;
          } in
          let filled = add_members made shard_id members in
          ok (
            record filled {
              shard_members_online =
                  insert filled.shard_members_online shard_id (length members % u16_mod);
              events = shard_created shard_id network ∷ filled.events;
            },
            shard_id,
          ))

  -- An index past the members, or a signer without a key, panics.
  unfoldable pub next_signer : State → W → ℕ → Outcome (State × ℕ)
  next_signer s w shard_id =
      let members = shard_members s shard_id in
      let signer_index = unwrap_or (get s.signer_index shard_id) 0 in
      elim (get_elem? members signer_index) [
        | none ↦ panic
        | some member ↦ elim (cfg.member_public_key w member) [
          | none ↦ panic
          | some signer ↦
              let next_signer_index =
                if (length members % u32_mod) == saturating_add u32_max signer_index 1
                then 0
                else saturating_add u64_max signer_index 1 in
              ok (
                record s {
                  signer_index = insert s.signer_index shard_id (next_signer_index % u32_mod);
                },
                signer,
              )
        ]
      ]
