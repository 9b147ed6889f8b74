-- ===== src/Runtime/Removing.antt =====
-- The shards that pallets/shards/src/lib.rs takes offline, with the tasks pallet beside it.
use timechain.Prelude.{
  ℕ, ◌≡◌, ◌≢◌, refl, sym, ◌∙◌, subst, none, some, List, [], ◌∷◌, arith, Option-cases, inl, inr,
}
use timechain.Storage.{
  Map, get, insert, remove, get₂, get-insert_self, get-insert_ne, get-remove, get-remove_ne,
  get₂-drain_prefix,
}
use timechain.Shards as Shards
use timechain.Shards.{
  MemberStatus, online, offline, drain_shard, remove_shard, remove_shards, update_elections,
  remove_shards_offline,
}
use timechain.Tasks.State as Tasks
use timechain.Tasks.Assignment.{ledger, IsValid}
use timechain.Tasks.Assignment.Counting.{rehome-IsValid}
use timechain.Tasks.Assignment.Interfacing.{shard_offline-IsValid}
use timechain.Runtime.{tasks_config, shards_config}

-- `k` is none of the shards.
abbrev pub Outside : List ℕ → ℕ → Type 0
Outside [] k = Unit
Outside (j ∷ shards) k = (k ≢ j) × Outside shards k

-- What the removal of the shards does to the storages: the shards are offline, and the others are
-- as they were.
pub record Removed (shards : List ℕ) (s s' : Shards.State) : Type 0 where
  pub network : (k : ℕ) → Outside shards k → get s'.shard_network k ≡ get s.shard_network k
  pub fewer : (k n : ℕ) → get s'.shard_network k ≡ some n → get s.shard_network k ≡ some n
  pub status : (k : ℕ) → Outside shards k → get s'.shard_state k ≡ get s.shard_state k
  pub out : (k : ℕ) → get s'.shard_state k ≡ some online → Outside shards k
  pub members :
      (k m : ℕ) (st : MemberStatus)
      → get₂ s'.shard_members k m ≡ some st
      → get₂ s.shard_members k m ≡ some st
  pub counter : s'.shard_id_counter ≡ s.shard_id_counter

-- The shards that may work have their network in the storage.
abbrev pub Named : (ℕ → ℕ → Type 0) → Shards.State → Type 0
Named Home s = (n k : ℕ) → Home n k → get s.shard_network k ≡ some n

module _ {E : Type 0} (base : Shards.Config E) (cfg : Tasks.Config) where
  abbrev Both : Type 0
  Both = E × Tasks.State

  abbrev answers : Shards.Config Both
  answers = shards_config base cfg

  remove_shard-Removed :
      (s : Shards.State) (w : Both) (updates : Map (List ℕ)) (k : ℕ)
      → Removed (k ∷ []) s (remove_shard answers s w updates k).0
  unfolding remove_shard drain_shard
  remove_shard-Removed s w updates k =
      let networks : (j : ℕ)
          → Outside (k ∷ []) j
          → get (remove s.shard_network k) j ≡ get s.shard_network j =
        λ j o. get-remove_ne s.shard_network k j o.0 in
      let fewer : (j n : ℕ)
          → get (remove s.shard_network k) j ≡ some n
          → get s.shard_network j ≡ some n =
        λ j n h. ground (arith, h, get-remove s.shard_network k j) in
      let states : (j : ℕ)
          → Outside (k ∷ []) j
          → get (insert s.shard_state k offline) j ≡ get s.shard_state j =
        λ j o. get-insert_ne s.shard_state k j offline o.0 in
      let out : (j : ℕ)
          → get (insert s.shard_state k offline) j ≡ some online
          → Outside (k ∷ []) j =
        λ j h. (
          λ e.
              let g = subst (λ i. get (insert s.shard_state k offline) i ≡ some online) e h in
              absurd (ground (arith, g, get-insert_self s.shard_state k offline)),
          tt,
        ) in
      elim (Option-cases (get s.shard_network k)) [
        | inl alone ↦
            rw (alone, drain_shard)
              (record {
                network = networks;
                fewer = fewer;
                status = states;
                out = out;
                members = λ j m st h. h;
                counter = refl;
              })
        | inr (n, e) ↦
            rw (e, drain_shard)
              (record {
                network = networks;
                fewer = fewer;
                status = states;
                out = out;
                members = λ j m st h. ground (arith, h, get₂-drain_prefix s.shard_members k j m);
                counter = refl;
              })
      ]

  remove_shards-Removed :
      (shards : List ℕ) (s : Shards.State) (w : Both) (updates : Map (List ℕ))
      → Removed shards s (remove_shards answers s w updates shards).0
  unfolding remove_shards
  remove_shards-Removed [] s w updates = record {
    network = λ k o. refl;
    fewer = λ k n h. h;
    status = λ k o. refl;
    out = λ k h. tt;
    members = λ k m st h. h;
    counter = refl;
  }
  remove_shards-Removed (j ∷ shards) s w updates =
      let r = remove_shard answers s w updates j in
      let first = remove_shard-Removed s w updates j in
      let rest = remove_shards-Removed shards r.0 r.1 r.2 in
      record {
        network = λ k o. rest.network k o.1 ∙ first.network k (o.0, tt);
        fewer = λ k n h. first.fewer k n (rest.fewer k n h);
        status = λ k o. rest.status k o.1 ∙ first.status k (o.0, tt);
        out = λ k h. let o = rest.out k h in ((first.out k (sym (rest.status k o) ∙ h)).0, o);
        members = λ k m st h. first.members k m st (rest.members k m st h);
        counter = rest.counter ∙ first.counter;
      }

  remove_shard-IsValid :
      (Home : ℕ → ℕ → Type 0) (s : Shards.State) (w : Both) (updates : Map (List ℕ)) (k : ℕ)
      → Named Home s
      → IsValid Home (ledger w.1)
      → IsValid (λ m j. Home m j × (j ≢ k)) (ledger (remove_shard answers s w updates k).1.1)
  unfolding remove_shard drain_shard
  remove_shard-IsValid Home s w updates k named v = elim (Option-cases (get s.shard_network k)) [
    | inl alone ↦
        rw (alone, drain_shard)
          (rehome-IsValid Home (λ m j. Home m j × (j ≢ k)) (ledger w.1)
            (λ m t j h home. (home, λ e. unnamed alone m (subst (Home m) e home)))
            (λ m j h home. (home, λ e. unnamed alone m (subst (Home m) e home))) v)
    | inr (n, e) ↦
        rw (e, drain_shard)
          (shard_offline-IsValid Home (tasks_config cfg _) w.1 v k n
            (λ m home. ground (arith, e, named m k home)))
  ]
    where
      unnamed : get s.shard_network k ≡ none → (m : ℕ) → Home m k → ⊥
      unnamed alone m home = ground (arith, alone, named m k home)

  remove_shards-IsValid :
      (shards : List ℕ) (Home : ℕ → ℕ → Type 0) (s : Shards.State) (w : Both)
      (updates : Map (List ℕ))
      → Named Home s
      → IsValid Home (ledger w.1)
      → IsValid
          (λ n k. Home n k × Outside shards k)
          (ledger (remove_shards answers s w updates shards).1.1)
  unfolding remove_shards
  remove_shards-IsValid [] Home s w updates named v =
      rehome-IsValid Home _ (ledger w.1) (λ n t k h home. (home, tt)) (λ n k h home. (home, tt)) v
  remove_shards-IsValid (j ∷ shards) Home s w updates named v =
      let r = remove_shard answers s w updates j in
      let first = remove_shard-Removed s w updates j in
      let rest =
        remove_shards-IsValid shards (λ n k. Home n k × (k ≢ j)) r.0 r.1 r.2
          (λ n k home. first.network k (home.1, tt) ∙ named n k home.0)
          (remove_shard-IsValid Home s w updates j named v) in
      rehome-IsValid _ (λ n k. Home n k × Outside (j ∷ shards) k) _
        (λ n t k h home. (home.0.0, (home.0.1, home.1)))
        (λ n k h home. (home.0.0, (home.0.1, home.1))) rest

  update_elections-tasks :
      (updates : Map (List ℕ)) (s : Shards.State) (w : Both)
      → (update_elections answers s w updates).1 ≡ w.1
  unfolding update_elections
  update_elections-tasks [] s w = refl
  update_elections-tasks ((n, members) ∷ updates) s w = update_elections-tasks updates s _

  pub remove_shards_offline-Removed :
      (s : Shards.State) (w : Both) (shards : List ℕ)
      → Removed shards s (remove_shards_offline answers s w shards).0
  unfolding remove_shards_offline
  remove_shards_offline-Removed s w shards =
      let f = remove_shards-Removed shards s w [] in
      record {
        network = f.network;
        fewer = f.fewer;
        status = f.status;
        out = f.out;
        members = f.members;
        counter = f.counter;
      }

  -- The shards that are removed hold no task after that.
  pub remove_shards_offline-IsValid :
      (Home : ℕ → ℕ → Type 0) (s : Shards.State) (w : Both) (shards : List ℕ)
      → Named Home s
      → IsValid Home (ledger w.1)
      → IsValid
          (λ n k. Home n k × Outside shards k)
          (ledger (remove_shards_offline answers s w shards).1.1)
  unfolding remove_shards_offline
  remove_shards_offline-IsValid Home s w shards named v =
      let r = remove_shards answers s w [] shards in
      subst (λ t. IsValid (λ n k. Home n k × Outside shards k) (ledger t))
        (sym (update_elections-tasks r.2 _ r.1)) (remove_shards-IsValid shards Home s w [] named v)
