-- ===== src/Elections/Tests.antt =====
-- Tests of the model of pallets/elections/src/lib.rs, and the theorems at concrete members.
use timechain.Prelude.{
  Bool-cases, inl, inr, ◌==◌, if◌then◌else◌, ℕ, ◌≡◌, ◌≤◌, ◌<◌, refl, Bool, true, false, some, List,
  [], ◌∷◌, arith, length, leb, u32_mod,
}
use timechain.Storage.{get}
use timechain.Outcome.{ok}
use timechain.Elections.{State, Config, waiting, try_elect_shards, shard_offline, on_initialize}
use timechain.Elections.Conservation.{Elected, try_elect_shards-Elected}
use timechain.Elections.Rounds.{on_initialize-Returns}
use timechain.Elections.Order.{Returned, shard_offline-Returned}

-- The world of these tests is the list of the shards that were made, the latest first; two at most
-- can be made. Members from 10 on are online.
abbrev room_left : List (List ℕ) → Bool
room_left [] = true
room_left (a ∷ []) = true
room_left (a ∷ b ∷ l) = false

abbrev config : Config (List (List ℕ))
config = record {
  max_elections_per_block = 5;
  get_networks = 1 ∷ 2 ∷ [];
  shard_size = λ n. 2;
  shard_threshold = λ n. 2;
  is_shard_member = λ w m. false;
  create_shard = λ w n members threshold. ((if room_left w then members ∷ w else w), room_left w);
  shards_member_online = λ w m n. w;
  shards_members_offline = λ s w members. (s, w);
  is_member_registered = λ w m. true;
  is_member_online = λ w m. leb 10 m;
  do_unregister_member = λ w m. w;
}

abbrev seven : State
seven = record { network_counter = 1; unassigned = (1, 17 ∷ 16 ∷ 15 ∷ 14 ∷ 13 ∷ 12 ∷ 11 ∷ []) ∷ [] }

try_elect_shards-Elected_example :
    (s' : State) × (w' : List (List ℕ)) × (n : ℕ) × (try_elect_shards config seven [] 1 3
      ≡ ok (s', w', n))
    × Elected config 2 1 2 3 seven [] s' w' n
unfolding get
try_elect_shards-Elected_example =
    try_elect_shards-Elected config seven [] 1 3 (omega arith) (omega arith)

short : (m : ℕ) → length (waiting seven m) < u32_mod
unfolding get
short m = elim (Bool-cases (m == 1)) [ inl e ↦ rw e (omega arith) | inr e ↦ rw e (omega arith) ]

on_initialize-Returns_example :
    (s' : State) × (w' : List (List ℕ)) × (n : ℕ) × (on_initialize config seven []
      ≡ some (ok (s', w', n)))
    × (n ≤ 5)
on_initialize-Returns_example =
    on_initialize-Returns config (λ n. omega arith) (omega arith) seven [] short

shard_offline-Returned_example :
    Returned config seven [] 1
      (20 ∷ 5 ∷ [])
      (shard_offline config seven [] 1 (20 ∷ 5 ∷ [])).0
      (shard_offline config seven [] 1 (20 ∷ 5 ∷ [])).1
shard_offline-Returned_example =
    shard_offline-Returned config seven [] 1 (20 ∷ 5 ∷ []) (refl, (refl, tt))
