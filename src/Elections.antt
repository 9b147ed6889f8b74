-- ===== src/Elections.antt =====
-- pallets/elections/src/lib.rs: members that wait for a shard, and the shards that are made of them.
-- Account ids are byte strings of one length, compared as such, and so as numbers here.
pub mod Lists
pub mod Conservation
pub mod Rounds
pub mod Order
pub mod Tests
use timechain.Prelude.{
  ℕ, zero, suc, ◌*◌, ◌/◌, ◌%◌, min, Bool, true, false, Option, none, some, List, [], ◌∷◌, ◌++◌, ltb,
  ◌==◌, not, if◌then◌else◌, unwrap_or, length, take, drop, get_elem?, retain, contains, is_empty,
  saturating_add, saturating_sub, wrapping_add, u32_max, u32_mod,
}
use timechain.Storage.{Map, get, insert}
use timechain.Outcome.{Outcome, ok, err, panic, ◌>>=◌}

pub record State : Type 0 where
  pub network_counter : ℕ
  pub unassigned : Map (List ℕ)

-- The trait `Config`: the other pallets, whose state is `W`. `create_shard` says whether it was
-- `Ok`. `members_offline` of the shards pallet calls this pallet back.
pub record Config (W : Type 0) : Type 0 where
  pub max_elections_per_block : ℕ
  pub get_networks : List ℕ
  pub shard_size : ℕ → ℕ
  pub shard_threshold : ℕ → ℕ
  pub is_shard_member : W → ℕ → Bool
  pub create_shard : W → ℕ → List ℕ → ℕ → W × Bool
  pub shards_member_online : W → ℕ → ℕ → W
  pub shards_members_offline : State → W → List ℕ → State × W
  pub is_member_registered : W → ℕ → Bool
  pub is_member_online : W → ℕ → Bool
  pub do_unregister_member : W → ℕ → W

abbrev pub waiting : State → ℕ → List ℕ
waiting s network = unwrap_or (get s.unassigned network) []

-- `sort_by(|a, b| a.cmp(b).reverse())`: the largest first.
pub insert_sorted : ℕ → List ℕ → List ℕ
insert_sorted a [] = a ∷ []
insert_sorted a (b ∷ l) = if ltb a b then b ∷ insert_sorted a l else a ∷ b ∷ l

pub sort_reverse : List ℕ → List ℕ
sort_reverse [] = []
sort_reverse (a ∷ l) = insert_sorted a (sort_reverse l)

-- `chunks(size)`, with the length of the list as fuel.
pub chunks_of : ℕ → ℕ → List ℕ → List (List ℕ)
chunks_of zero size l = []
chunks_of (suc fuel) size l =
    let rest = chunks_of fuel size (drop size l) in if is_empty l then [] else take size l ∷ rest

abbrev pub chunks : ℕ → List ℕ → List (List ℕ)
chunks size l = chunks_of (length l) size l

abbrev pub flatten : List (List ℕ) → List ℕ
flatten [] = []
flatten (c ∷ cs) = c ++ flatten cs

-- How many members are put into shards: the length is cast to `u32`.
abbrev pub num_elected : ℕ → ℕ → ℕ → ℕ
num_elected len shard_size max_elections =
    min ((len % u32_mod) / shard_size) max_elections * shard_size % u32_mod

module _ {W : Type 0} (cfg : Config W) where
  -- The members of a shard that are online go back to the unassigned; one that was unregistered
  -- meanwhile is forgotten.
  pub returning : W → List ℕ → W × List ℕ
  returning w [] = (w, [])
  returning w (member ∷ members) =
      if not (cfg.is_member_registered w member)
      then returning (cfg.do_unregister_member w member) members
      else let (w', batch) = returning w members in
        (w', (if cfg.is_member_online w member then member ∷ batch else batch))

  unfoldable pub shard_offline : State → W → ℕ → List ℕ → State × W
  shard_offline s w network members =
      let (w', batch) = returning w members in
      (
        record s {
          unassigned = insert s.unassigned network (sort_reverse (waiting s network ++ batch));
        },
        w',
      )

  unfoldable pub member_online : State → W → ℕ → ℕ → State × W
  member_online s w member network =
      let joined : State =
        if not (cfg.is_shard_member w member)
        then record s {
          unassigned =
              insert s.unassigned network (sort_reverse (waiting s network ++ member ∷ []));
        }
        else s in
      (joined, cfg.shards_member_online w member network)

  unfoldable pub members_offline : State → W → List ℕ → ℕ → State × W
  members_offline s w members network =
      let left : State = record s {
        unassigned =
            insert s.unassigned network
              (retain (λ m. not (contains members m)) (waiting s network));
      } in
      cfg.shards_members_offline left w members

  -- The `for` loop over the chunks: the shards that were made, and the members that are left over
  -- when one could not be made.
  pub create_shards : W → ℕ → ℕ → List (List ℕ) → W × ℕ × List ℕ
  create_shards w network threshold [] = (w, 0, [])
  create_shards w network threshold (c ∷ cs) =
      let (w', created) = cfg.create_shard w network c threshold in
      let (w'', n, rest) = create_shards w' network threshold cs in
      if created then (w'', suc n, rest) else (w', 0, flatten (c ∷ cs))

  -- A shard size of 0 is a division by zero.
  unfoldable pub try_elect_shards : State → W → ℕ → ℕ → Outcome (State × W × ℕ)
  try_elect_shards s w network max_elections =
      let shard_size = cfg.shard_size network in
      let unassigned = waiting s network in
      let n = num_elected (length unassigned) shard_size max_elections in
      let (w', elections, rest) =
        create_shards w network (cfg.shard_threshold network)
          (chunks shard_size (take n unassigned)) in
      if shard_size == 0
      then panic
      else ok (
        record s { unassigned = insert s.unassigned network (drop n unassigned ++ rest) },
        w',
        elections,
      )

  -- What the `while` loop of `on_initialize` leaves: the counter, and whether every network had
  -- its turn.
  pub record Turns : Type 0 where
    pub state : State
    pub world : W
    pub num_elections : ℕ
    pub net_counter : ℕ
    pub all_nets_elected : Bool

  -- `none` is out of fuel.
  pub turns : ℕ → State → W → ℕ → ℕ → ℕ → Option (Outcome Turns)
  turns zero s w num_elections net_counter net_counter0 = none
  turns (suc fuel) s w num_elections net_counter net_counter0 =
      if ltb num_elections cfg.max_elections_per_block
      then elim (get_elem? cfg.get_networks net_counter) [
        | none ↦ some (
            ok (record {
              state = s;
              world = w;
              num_elections = num_elections;
              net_counter = 0;
              all_nets_elected = false;
            }))
        | some network ↦
            elim (try_elect_shards s w network
              (saturating_sub cfg.max_elections_per_block num_elections)) [
                | ok (s', w', elected) ↦
                    let total = saturating_add u32_max num_elections elected in
                    let next = wrapping_add u32_mod net_counter 1 % length cfg.get_networks in
                    if next == net_counter0
                    then some (
                        ok (record {
                          state = s';
                          world = w';
                          num_elections = total;
                          net_counter = next;
                          all_nets_elected = true;
                        }))
                    else turns fuel s' w' total next net_counter0
                | err e ↦ some (err e)
                | panic ↦ some panic
              ]
      ]
      else some (
          ok (record {
            state = s;
            world = w;
            num_elections = num_elections;
            net_counter = net_counter;
            all_nets_elected = false;
          }))

  -- The counter is written unless every network had its turn.
  abbrev pub finish_turns : Turns → State × W × ℕ
  finish_turns t =
      if not t.all_nets_elected
      then (record t.state { network_counter = t.net_counter }, t.world, t.num_elections)
      else (t.state, t.world, t.num_elections)

  -- The block hook, with one turn for each network and one more.
  unfoldable pub on_initialize : State → W → Option (Outcome (State × W × ℕ))
  on_initialize s w =
      elim (turns (suc (length cfg.get_networks)) s w 0 s.network_counter s.network_counter) [
        | none ↦ none
        | some r ↦ some (r >>= λ t. ok (finish_turns t))
      ]
