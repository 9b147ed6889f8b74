-- ===== src/Runtime/Creating.antt =====
-- A new shard of pallets/shards/src/lib.rs against the shards that are online.
use timechain.Prelude.{
  ℕ, ◌≡◌, ◌≢◌, ◌<◌, refl, sym, ap, subst, ◌∙◌, some, List, [], ◌∷◌, arith, u32_max, u64_max, ltb,
  saturating_add, unwrap_or,
}
use timechain.Storage.{
  get, get₂, insert, insert₂, get-insert, get-insert_self, get-insert_ne, get₂-insert₂,
}
use timechain.Outcome.{After, After-skip, ensure, max_shards_created_this_block}
use timechain.Shards.{State, Config, added, created, online}
use timechain.Shards.Interface.{add_members, create_shard}
use timechain.Runtime.Online.{IsSound, Steady}

-- The members are added to one shard only.
record Filled (s : State) (k : ℕ) (t : State) : Type 0 where
  network : t.shard_network ≡ s.shard_network
  counter : t.shard_id_counter ≡ s.shard_id_counter
  status : t.shard_state ≡ s.shard_state
  members : (j m : ℕ) → j ≢ k → get₂ t.shard_members j m ≡ get₂ s.shard_members j m

add_members-Filled : (members : List ℕ) (s : State) (k : ℕ) → Filled s k (add_members s k members)
unfolding add_members
add_members-Filled [] s k = record {
  network = refl;
  counter = refl;
  status = refl;
  members = λ j m ne. refl;
}
add_members-Filled (i ∷ members) s k =
    let rest = add_members-Filled members _ k in
    record {
      network = rest.network;
      counter = rest.counter;
      status = rest.status;
      members = λ j m ne.
          rest.members j m ne ∙ ground (arith, ne, get₂-insert₂ s.shard_members k i j m added);
    }

-- The id of a new shard is the counter, which no shard with a network has.
new_shard-Steady :
    (s t : State) (network : ℕ)
    → s.shard_id_counter < u64_max
    → IsSound s
    → t.shard_network ≡ insert s.shard_network s.shard_id_counter network
    → t.shard_id_counter ≡ saturating_add u64_max s.shard_id_counter 1
    → t.shard_state ≡ insert s.shard_state s.shard_id_counter created
    → ((j m : ℕ) → j ≢ s.shard_id_counter → get₂ t.shard_members j m ≡ get₂ s.shard_members j m)
    → Steady s t
new_shard-Steady s t network room v networks counter states members =
    let id : ℕ = s.shard_id_counter in
    let fresh : (k : ℕ) → get t.shard_state k ≡ some online → k ≢ id = λ k h e.
      let g : get (insert s.shard_state id created) id ≡ some online =
        ap (λ m. get m id) (sym states) ∙ subst (λ j. get t.shard_state j ≡ some online) e h in
      absurd (ground (arith, g, get-insert_self s.shard_state id created)) in
    record {
      sound = record {
        met = λ k m st h g.
            let ne = fresh k h in
            v.met k m st
              (sym (get-insert_ne s.shard_state id k created ne)
                ∙ (ap (λ x. get x k) (sym states) ∙ h))
              (sym (members k m ne) ∙ g);
        known = λ k n h.
            let g : get (insert s.shard_network id network) k ≡ some n =
              ap (λ x. get x k) (sym networks) ∙ h in
            ground (arith, g, v.known k n, counter, room, get-insert s.shard_network id k network);
      };
      still = λ n k h.
          let below : k < id = v.known k n h.0 in
          let ne : k ≢ id = λ e. omega arith in
          (
            ap (λ x. get x k) networks ∙ (get-insert_ne s.shard_network id k network ne ∙ h.0),
            ap (λ x. get x k) states ∙ (get-insert_ne s.shard_state id k created ne ∙ h.1),
          );
    }

pub create_shard-Steady :
    {W : Type 0} (cfg : Config W) (s : State) (block network : ℕ) (members : List ℕ) (threshold : ℕ)
    → s.shard_id_counter < u64_max
    → IsSound s
    → After (λ (r : State × ℕ). Steady s r.0) (create_shard cfg s block network members threshold)
unfolding create_shard
create_shard-Steady cfg s block network members threshold room v =
    let end : ℕ = saturating_add u32_max block cfg.dkg_timeout in
    let opened : State = record s {
      dkg_timeout_counter =
          insert s.dkg_timeout_counter end
            (saturating_add u32_max (unwrap_or (get s.dkg_timeout_counter end) 0) 1);
      shard_id_counter = saturating_add u64_max s.shard_id_counter 1;
      shard_network = insert s.shard_network s.shard_id_counter network;
      shard_state = insert s.shard_state s.shard_id_counter created;
      dkg_timeout = insert₂ s.dkg_timeout end s.shard_id_counter tt;
      shard_threshold = insert s.shard_threshold s.shard_id_counter threshold;
    } in
    let filled = add_members-Filled members opened s.shard_id_counter in
    After-skip (λ (r : State × ℕ). Steady s r.0)
      (ensure (ltb (unwrap_or (get s.dkg_timeout_counter end) 0) cfg.max_elections_per_block)
        max_shards_created_this_block)
      _
      λ _ _.
        new_shard-Steady s _ network room v filled.network filled.counter filled.status
          filled.members
