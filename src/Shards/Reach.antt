-- ===== src/Shards/Reach.antt =====
-- The runs of the shards pallet: its extrinsics, its block hook and the calls of the other pallets, in
-- any order.
use timechain.Prelude.{
  ℕ, ◌<◌, ◌≡◌, subst, false, List, [], ◌∷◌, All, u64_max, Option-cases, inl, inr, get_elem?,
  unwrap_or,
}
use timechain.Storage.{get, prefix, contains_key}
use timechain.Outcome.{ok, Origin, After, After-skip, After_ok, ensure_signed, ensure_admin}
use timechain.Shards.{State, Config}
use timechain.Shards.Calls.{commit, mark_ready, force_shard_offline, on_initialize}
use timechain.Shards.Interface.{
  member_online, members_offline, create_shard, next_signer, shard_members,
}
use timechain.Shards.Membership.{crews, IsValid}
use timechain.Shards.Keeping.{
  Valid, remove_shards_offline-IsValid, timeout_dkgs-IsValid, execute_commit-IsValid,
  execute_ready-IsValid,
}
use timechain.Shards.Joining.{member_online-IsValid, members_offline-IsValid, create_shard-IsValid}

-- The pallet before anything has happened.
abbrev pub init : State
init = record {
  shard_id_counter = 0;
  shard_network = [];
  shard_state = [];
  dkg_timeout_counter = [];
  dkg_timeout = [];
  shard_threshold = [];
  shard_commitment = [];
  member_shard = [];
  signer_index = [];
  shard_members = [];
  shard_members_online = [];
  events = [];
}

module _ (W : Type 0) where
  -- One step, with any answers of the other pallets. A shard is made of accounts that are in no
  -- shard, and as long as shard ids are left.
  pub data Step (s s' : State) : Type 0 where
    commits :
        (cfg : Config W) (w : W) (o : Origin) (k : ℕ) (c : List ℕ) (proof : ℕ)
        → commit cfg s w o k c proof ≡ ok s'
        → Step s s'
    readies :
        (cfg : Config W) (w w' : W) (o : Origin) (k : ℕ)
        → mark_ready cfg s w o k ≡ ok (s', w')
        → Step s s'
    forces :
        (cfg : Config W) (w w' : W) (o : Origin) (k : ℕ)
        → force_shard_offline cfg s w o k ≡ ok (s', w')
        → Step s s'
    initializes : (cfg : Config W) (w : W) (n : ℕ) → (on_initialize cfg s w n).0 ≡ s' → Step s s'
    onlines : (m : ℕ) → member_online s m ≡ s' → Step s s'
    offlines :
        (cfg : Config W) (w : W) (members : List ℕ)
        → (members_offline cfg s w members).0 ≡ s'
        → Step s s'
    creates :
        (cfg : Config W) (block network : ℕ) (members : List ℕ) (threshold k : ℕ)
        → s.shard_id_counter < u64_max
        → All (λ (m : ℕ). contains_key s.member_shard m ≡ false) members
        → create_shard cfg s block network members threshold ≡ ok (s', k)
        → Step s s'
    signs :
        (cfg : Config W) (w : W) (k signer : ℕ)
        → next_signer cfg s w k ≡ ok (s', signer)
        → Step s s'

  pub data Reach (s : State) : State → Type 0 where
    here : Reach s s
    next : {t u : State} → Reach s t → Step t u → Reach s u

  next_signer-IsValid :
      (cfg : Config W) (s : State) (w : W) (k : ℕ)
      → Valid s
      → After (λ (r : State × ℕ). Valid r.0) (next_signer cfg s w k)
  unfolding next_signer
  next_signer-IsValid cfg s w k v =
      let Q : State × ℕ → Type 0 = λ r. Valid r.0 in
      elim (Option-cases (get_elem? (shard_members s k) (unwrap_or (get s.signer_index k) 0))) [
        | inl past ↦ rw (past, next_signer) tt
        | inr (m, e) ↦ elim (Option-cases (cfg.member_public_key w m)) [
          | inl keyless ↦ rw (e, keyless, next_signer) tt
          | inr (key, e') ↦ rw (e, e', next_signer) v
        ]
      ]

  Step-IsValid : (s s' : State) → Valid s → Step s s' → Valid s'
  unfolding commit mark_ready force_shard_offline
  Step-IsValid s s' v (commits cfg w o k c proof e) =
      After_ok Valid (commit cfg s w o k c proof)
        (After-skip Valid (ensure_signed o) _ λ m _. execute_commit-IsValid cfg s w m k c proof v) e
  Step-IsValid s s' v (readies cfg w w' o k e) =
      let Q : State × W → Type 0 = λ r. Valid r.0 in
      After_ok Q (mark_ready cfg s w o k)
        (After-skip Q (ensure_signed o) _ λ m _. execute_ready-IsValid cfg s w m k v) e
  Step-IsValid s s' v (forces cfg w w' o k e) =
      let Q : State × W → Type 0 = λ r. Valid r.0 in
      After_ok Q (force_shard_offline cfg s w o k)
        (After-skip Q (ensure_admin o) _ λ _ _. remove_shards_offline-IsValid cfg s w (k ∷ []) v) e
  Step-IsValid s s' v (initializes cfg w n e) = subst Valid e (timeout_dkgs-IsValid cfg s w n v)
  Step-IsValid s s' v (onlines m e) = subst Valid e (member_online-IsValid s m v)
  Step-IsValid s s' v (offlines cfg w members e) =
      subst Valid e (members_offline-IsValid cfg s w members v)
  Step-IsValid s s' v (creates cfg block n members threshold k room free e) =
      After_ok (λ (r : State × ℕ). Valid r.0) (create_shard cfg s block n members threshold)
        (create_shard-IsValid cfg s block n members threshold room free v) e
  Step-IsValid s s' v (signs cfg w k signer e) =
      After_ok (λ (r : State × ℕ). Valid r.0) (next_signer cfg s w k)
        (next_signer-IsValid cfg s w k v) e

  init-IsValid : Valid init
  unfolding get prefix
  init-IsValid = record {
    listed = λ k m h. cc;
    placed = λ m k h. cc;
    manned = λ k m h. cc;
    known = λ k h. absurd (cc);
  }

  -- After every run in which shards are made of accounts that are in no shard, every account is in one
  -- shard at most: the map from accounts to shards and the lists of the members agree. A shard with
  -- members belongs to a network, and every shard id in use is one that was given out.
  pub run-IsValid : {s : State} → Reach init s → IsValid (crews s)
  run-IsValid here = init-IsValid
  run-IsValid (next {t} {u} r st) = Step-IsValid t u (run-IsValid r) st
