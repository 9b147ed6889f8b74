-- ===== src/Shards/Tests.antt =====
-- Tests of the model of pallets/shards/src/lib.rs, and the theorems at concrete shards.
use timechain.Prelude.{
  ℕ, ◌-◌, ◌≡◌, refl, true, false, some, [], ◌∷◌, arith, ltb, All, unwrap_or, if◌then◌else◌,
}
use timechain.Storage.{get, insert, insert₂, prefix, contains_key}
use timechain.Outcome.{ok, Origin}
use timechain.Shards.{State, Config, added, committed, created, online, offline, shard_created}
use timechain.Shards.Calls.{commit, execute_commit, commit_shard}
use timechain.Shards.Interface.{create_shard, add_members, members_offline}
use timechain.Shards.Membership.{crews, IsValid}
use timechain.Shards.Reach.{init, Reach, here, next, creates, commits, run-IsValid}
use timechain.Shards.Signers.{Signed, next_signer-Signed}
use timechain.Shards.Quorum.{members_offline_quorum}

-- Members have the number of their account as peer id and key, every key and proof is good, and a
-- sum of keys is the first. The other pallets have no state.
abbrev pub answers : Config (Unit {0})
answers = record {
  dkg_timeout = 10;
  max_elections_per_block = 5;
  member_peer_id = λ w m. some m;
  member_public_key = λ w m. some m;
  tasks_shard_online = λ s w k n. tt;
  tasks_shard_offline = λ s w k n. tt;
  elections_shard_offline = λ s w n members. tt;
  is_verifying_key = λ k. true;
  add_keys = λ a b. some a;
  verify_proof_of_knowledge = λ peer c proof. true;
}

abbrev pair : State
pair = record init {
  shard_id_counter = 1;
  shard_network = (0, 4) ∷ [];
  shard_state = (0, created) ∷ [];
  dkg_timeout_counter = (17, 1) ∷ [];
  dkg_timeout = (17, (0, tt) ∷ []) ∷ [];
  shard_threshold = (0, 2) ∷ [];
  member_shard = (21, 0) ∷ (22, 0) ∷ [];
  shard_members = (0, (21, added) ∷ (22, added) ∷ []) ∷ [];
  shard_members_online = (0, 2) ∷ [];
  events = shard_created 0 4 ∷ [];
}

creates_pair : create_shard answers init 7 4 (21 ∷ 22 ∷ []) 2 ≡ ok (pair, 0)
unfolding create_shard add_members insert insert₂ prefix get
creates_pair = refl

abbrev first : Origin
first = record { signer = some 21; is_admin = false }

abbrev half : State
half = record pair { shard_members = (0, (21, committed (31 ∷ 32 ∷ [])) ∷ (22, added) ∷ []) ∷ [] }

commits_half : commit answers pair tt first 0 (31 ∷ 32 ∷ []) 9 ≡ ok half
unfolding commit execute_commit commit_shard insert insert₂ prefix get
commits_half = refl

free : All (λ (m : ℕ). contains_key init.member_shard m ≡ false) (21 ∷ 22 ∷ [])
unfolding get
free = (refl, (refl, tt))

run_to_half : Reach (Unit {0}) init half
run_to_half =
    next (next here (creates answers 7 4 (21 ∷ 22 ∷ []) 2 0 (omega arith) free creates_pair))
      (commits answers tt first 0 (31 ∷ 32 ∷ []) 9 commits_half)

run-IsValid_example : IsValid (crews half)
run-IsValid_example = run-IsValid (Unit {0}) run_to_half

next_signer-Signed_example : Signed answers half tt 0
unfolding get prefix
next_signer-Signed_example =
    next_signer-Signed answers half tt 0 (omega arith) (omega arith) (refl, (refl, tt))

abbrev running : State
running = record pair { shard_state = (0, online) ∷ [] }

members_offline_quorum_example :
    get (members_offline answers running tt (21 ∷ [])).0.shard_state 0
    ≡ some
        (if ltb (unwrap_or (get running.shard_members_online 0) 0 - 1) 2 then offline else online)
unfolding get
members_offline_quorum_example = members_offline_quorum answers running tt 21 0 2 refl refl refl
