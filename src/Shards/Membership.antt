-- ===== src/Shards/Membership.antt =====
-- Which account is in which shard: the storages `MemberShard` and `ShardMembers` of
-- pallets/shards/src/lib.rs, and what each of the operations does to them.
use timechain.Prelude.{
  ℕ, ◌<◌, ◌≡◌, ◌⊎◌, refl, true, none, some, [], ◌∷◌, arith, is_some, if◌then◌else◌,
}
use timechain.Storage.{
  Map, DoubleMap, get, insert, remove, keys, prefix, get₂, insert₂, drain_prefix, get-insert,
  get-remove, get₂-insert₂, get₂-drain_prefix,
}
use timechain.Shards.{State, MemberStatus, added, release_members}

-- The storages that the membership reads.
pub record Crews : Type 0 where
  pub shard_of : Map ℕ
  pub members : DoubleMap MemberStatus
  pub network : Map ℕ
  pub counter : ℕ

abbrev pub crews : State → Crews
crews s = record {
  shard_of = s.member_shard;
  members = s.shard_members;
  network = s.shard_network;
  counter = s.shard_id_counter;
}

pub record IsValid (c : Crews) : Type 0 where
  -- The two maps agree, and so an account is in one shard at most.
  pub listed : (k m : ℕ) → is_some (get₂ c.members k m) ≡ true → get c.shard_of m ≡ some k
  pub placed : (m k : ℕ) → get c.shard_of m ≡ some k → is_some (get₂ c.members k m) ≡ true
  -- A shard with members has a network.
  pub manned : (k m : ℕ) → is_some (get₂ c.members k m) ≡ true → is_some (get c.network k) ≡ true
  -- Every shard id in use has been given out.
  pub known : (k : ℕ) → is_some (get c.network k) ≡ true → k < c.counter

-- A member gets another status.
pub change-IsValid :
    (c : Crews) (k m : ℕ) (st : MemberStatus)
    → is_some (get₂ c.members k m) ≡ true
    → IsValid c
    → IsValid (record c { members = insert₂ c.members k m st })
change-IsValid c k m st there v = record {
  listed =
      λ k' m' h. ground (arith, get₂-insert₂ c.members k m k' m' st, v.listed k' m', v.listed k m);
  placed = λ m' k' h. ground (arith, get₂-insert₂ c.members k m k' m' st, v.placed m' k' h);
  manned =
      λ k' m' h. ground (arith, get₂-insert₂ c.members k m k' m' st, v.manned k' m', v.manned k m);
  known = v.known;
}

get-release_members :
    {V : Type 0} (e : Map V) (shard_of : Map ℕ) (m : ℕ)
    → get (release_members shard_of (keys e)) m
      ≡ (if is_some (get e m) then none else get shard_of m)
unfolding release_members get
get-release_members [] shard_of m = refl
get-release_members ((k, v) ∷ e) shard_of m =
    ground (arith, get-release_members e (remove shard_of k) m, get-remove shard_of k m)

-- A shard without a network is taken off the maps of its own: it had no members.
pub remove_network-IsValid :
    (c : Crews) (k : ℕ)
    → get c.network k ≡ none
    → IsValid c
    → IsValid (record c { network = remove c.network k })
remove_network-IsValid c k none_left v = record {
  listed = v.listed;
  placed = v.placed;
  manned = λ k' m h. ground (arith, get-remove c.network k k', v.manned k' m h);
  known = λ k' h. ground (arith, get-remove c.network k k', v.known k');
}

-- A shard is drained: its members are in no shard any more.
pub drain-IsValid :
    (c : Crews) (k : ℕ)
    → IsValid c
    → IsValid (record c {
      network = remove c.network k;
      members = drain_prefix c.members k;
      shard_of = release_members c.shard_of (keys (prefix c.members k));
    })
drain-IsValid c k v = record {
  listed = λ k' m h. ground (
    arith,
    get₂-drain_prefix c.members k k' m,
    get-release_members (prefix c.members k) c.shard_of m,
    v.listed k' m,
    v.listed k m,
  );
  placed = λ m k' h. ground (
    arith,
    get₂-drain_prefix c.members k k' m,
    get-release_members (prefix c.members k) c.shard_of m,
    v.placed m k',
  );
  manned = λ k' m h.
      ground (arith, get₂-drain_prefix c.members k k' m, get-remove c.network k k', v.manned k' m);
  known = λ k' h. ground (arith, get-remove c.network k k', v.known k');
}

-- An account joins shard `k`: it is in no shard, or in this one.
pub join-IsValid :
    (c : Crews) (k m : ℕ)
    → is_some (get c.network k) ≡ true
    → (get c.shard_of m ≡ none) ⊎ (get c.shard_of m ≡ some k)
    → IsValid c
    → IsValid (record c { members = insert₂ c.members k m added; shard_of = insert c.shard_of m k })
join-IsValid c k m alive free v = record {
  listed = λ k' m' h. ground (
    arith,
    get₂-insert₂ c.members k m k' m' added,
    get-insert c.shard_of m m' k,
    v.listed k' m',
    free,
  );
  placed = λ m' k' h.
      ground (
        arith,
        get₂-insert₂ c.members k m k' m' added,
        get-insert c.shard_of m m' k,
        v.placed m' k',
      );
  manned = λ k' m' h. ground (arith, get₂-insert₂ c.members k m k' m' added, v.manned k' m', alive);
  known = v.known;
}
