-- ===== src/Elections/Order.antt =====
-- The members that a shard leaves behind in pallets/elections/src/lib.rs, and their order.
use mathlib.Core.List.{Perm}
use timechain.Prelude.{ℕ, ◌≡◌, ◌≢◌, refl, true, List, [], ◌∷◌, ◌++◌, All, retain}
use timechain.Storage.{get-insert_self, get-insert_ne}
use timechain.Elections.{State, Config, waiting, returning, shard_offline, sort_reverse}
use timechain.Elections.Lists.{Falling, sort_reverse-Perm, sort_reverse-Falling}

module _ {W : Type 0} (cfg : Config W) where
  returning-registered :
      (w : W) (members : List ℕ)
      → All (λ (m : ℕ). cfg.is_member_registered w m ≡ true) members
      → returning cfg w members ≡ (w, retain (cfg.is_member_online w) members)
  unfolding returning
  returning-registered w [] all = refl
  returning-registered w (m ∷ members) all = rw (all.0, returning-registered w members all.1) refl

  -- What is left when a shard of registered members went offline.
  pub record Returned (s : State) (w : W) (network : ℕ) (members : List ℕ) (s' : State) (w' : W)
      : Type 0 where
    pub added :
        Perm (waiting s' network) (waiting s network ++ retain (cfg.is_member_online w) members)
    pub falling : Falling (waiting s' network)
    pub others : (m : ℕ) → m ≢ network → waiting s' m ≡ waiting s m
    pub world : w' ≡ w

  -- When a shard whose members are all registered goes offline, those of them that are online wait
  -- again, beside the members that waited before, each as often as then; the members are in falling
  -- order, the other networks and the members pallet are left alone.
  pub shard_offline-Returned :
      (s : State) (w : W) (network : ℕ) (members : List ℕ)
      → All (λ (m : ℕ). cfg.is_member_registered w m ≡ true) members
      → Returned s w network members
          (shard_offline cfg s w network members).0
          (shard_offline cfg s w network members).1
  unfolding shard_offline
  shard_offline-Returned s w network members all =
      let l = waiting s network ++ retain (cfg.is_member_online w) members in
      let sorted = sort_reverse l in
      rw (returning-registered w members all) (record {
        added = rw (get-insert_self s.unassigned network sorted) (sort_reverse-Perm l);
        falling = rw (get-insert_self s.unassigned network sorted) (sort_reverse-Falling l);
        others = λ m other. rw (get-insert_ne s.unassigned network m sorted other) refl;
        world = refl;
      })
