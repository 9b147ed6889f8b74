-- ===== src/Elections/Conservation.antt =====
-- An election of pallets/elections/src/lib.rs neither loses nor doubles a member.
use mathlib.Core.List.{Perm, append_assoc}
use mathlib.Core.List.Perm
use mathlib.Core.Path.{subst}
use native.Mathlib.Nat.{
  div-add-mod, mod-eq_of_lt, mul_comm, min-le_left, min-le_right, mul-le-mul_right,
}
use timechain.Prelude.{
  ℕ, suc, ◌*◌, ◌/◌, ◌%◌, ◌≤◌, ◌<◌, ◌≡◌, ◌≢◌, refl, sym, ap, ◌∙◌, true, false, List, [], ◌∷◌, ◌++◌,
  arith, min, length, take, drop, All, Bool-cases, inl, inr, ◌==◌, u32_mod, take-append-drop,
  length-take, length-append,
}
use timechain.Storage.{insert, get-insert_self, get-insert_ne}
use timechain.Outcome.{ok}
use timechain.Elections.{
  State, Config, waiting, chunks, flatten, create_shards, num_elected, try_elect_shards,
}
use timechain.Elections.Lists.{chunks_of-Cut, append_comm-Perm}

-- The number of members that are drawn is a whole number of shards, and no more than there are.
record Drawn (len size max_elections n : ℕ) : Type 0 where
  pub shards : ℕ
  pub exact : n ≡ shards * size
  pub enough : n ≤ len
  pub few : shards ≤ max_elections

num_elected-Drawn :
    (len size max_elections : ℕ)
    → 0 < size
    → len < u32_mod
    → Drawn len size max_elections (num_elected len size max_elections)
num_elected-Drawn len size max_elections h room =
    let k : ℕ = min ((len % u32_mod) / size) max_elections in
    let below : k * size ≤ ((len % u32_mod) / size) * size =
      mul-le-mul_right size (min-le_left ((len % u32_mod) / size) max_elections) in
    let whole : len % u32_mod ≡ len = mod-eq_of_lt room in
    let fits : k * size ≤ len =
      omega
        (arith, below, div-add-mod (len % u32_mod) size, mul_comm ((len % u32_mod) / size) size) in
    let exact : num_elected len size max_elections ≡ k * size = mod-eq_of_lt (omega arith) in
    record {
      shards = k;
      exact = exact;
      enough = omega arith;
      few = min-le_right ((len % u32_mod) / size) max_elections;
    }

regroup : (l a d r t : List ℕ) → a ++ r ≡ t → t ++ d ≡ l → Perm (a ++ (d ++ r)) l
regroup l a d r t front whole = Perm.trans (Perm.append_left a (append_comm-Perm d r)) (
    subst (λ x. Perm (a ++ (r ++ d)) x) (sym (append_assoc a r d) ∙ ap (λ x. x ++ d) front ∙ whole)
      (Perm.refl (a ++ (r ++ d))))

shorten : (d r a t l : List ℕ) → a ++ r ≡ t → t ++ d ≡ l → length (d ++ r) ≤ length l
shorten d r a t l front whole = omega (
  arith,
  length-append d r,
  length-append a r,
  length-append t d,
  ap length front,
  ap length whole,
)

module _ {W : Type 0} (cfg : Config W) where
  -- The calls of `create_shard`: one for each shard that was made, and perhaps one that failed.
  pub data Calls (network threshold : ℕ) : W → List (List ℕ) → W → Type 0 where
    all_made : {w : W} → Calls network threshold w [] w
    refused :
        {w : W} (c : List ℕ) {w' : W}
        → cfg.create_shard w network c threshold ≡ (w', false)
        → Calls network threshold w [] w'
    made :
        {w : W} (c : List ℕ) {w' : W} {cs : List (List ℕ)} {w'' : W}
        → cfg.create_shard w network c threshold ≡ (w', true)
        → Calls network threshold w' cs w''
        → Calls network threshold w (c ∷ cs) w''

  -- What the loop over the chunks does with them.
  pub record Made (size network threshold : ℕ) (w : W) (cs : List (List ℕ)) (r : W × ℕ × List ℕ)
      : Type 0 where
    pub shards : List (List ℕ)
    pub count : r.1 ≡ length shards
    pub full : All (λ (c : List ℕ). length c ≡ size) shards
    pub fewer : length shards ≤ length cs
    pub whole : flatten shards ++ r.2 ≡ flatten cs
    pub calls : Calls network threshold w shards r.0

  create_shards-Made :
      (size network threshold : ℕ) (w : W) (cs : List (List ℕ))
      → All (λ (c : List ℕ). length c ≡ size) cs
      → Made size network threshold w cs (create_shards cfg w network threshold cs)
  unfolding create_shards
  create_shards-Made size network threshold w [] all = record {
    shards = [];
    count = refl;
    full = tt;
    fewer = omega arith;
    whole = refl;
    calls = all_made;
  }
  create_shards-Made size network threshold w (c ∷ cs) all =
      let call = cfg.create_shard w network c threshold in
      let rest = create_shards-Made size network threshold call.0 cs all.1 in
      elim (Bool-cases call.1) [
        | inl good ↦ rw good (record {
          shards = c ∷ rest.shards;
          count = ap suc rest.count;
          full = (all.0, rest.full);
          fewer = omega (arith, rest.fewer);
          whole = append_assoc c (flatten rest.shards) _ ∙ ap (λ l. c ++ l) rest.whole;
          calls = made c (λ i. (call.0, good i)) rest.calls;
        })
        | inr bad ↦ rw bad (record {
          shards = [];
          count = refl;
          full = tt;
          fewer = omega arith;
          whole = refl;
          calls = refused c (λ i. (call.0, bad i));
        })
      ]

  -- What an election leaves: `shards` were made, each with `size` members, and with those that
  -- still wait they are the members that waited before. Nobody of another network is touched.
  pub record Elected (size network threshold max_elections : ℕ) (s : State) (w : W) (s' : State)
      (w' : W) (n : ℕ) : Type 0 where
    pub shards : List (List ℕ)
    pub count : n ≡ length shards
    pub full : All (λ (c : List ℕ). length c ≡ size) shards
    pub bounded : n ≤ max_elections
    pub kept : Perm (flatten shards ++ waiting s' network) (waiting s network)
    pub shorter : length (waiting s' network) ≤ length (waiting s network)
    pub others : (m : ℕ) → m ≢ network → waiting s' m ≡ waiting s m
    pub calls : Calls network threshold w shards w'

  -- An election always returns when the shard size of the network is not 0 and the number of members
  -- that wait fits its type. It makes at most as many shards as it may, each with as many members as
  -- a shard of the network has; the members of the shards and those that wait afterwards are the
  -- members that waited before, each as often as then; and the other networks are left alone.
  pub try_elect_shards-Elected :
      (s : State) (w : W) (network max_elections : ℕ)
      → 0 < cfg.shard_size network
      → length (waiting s network) < u32_mod
      → (s' : State) × (w' : W) × (n : ℕ) × (try_elect_shards cfg s w network max_elections
          ≡ ok (s', w', n))
        × Elected
            (cfg.shard_size network)
            network
            (cfg.shard_threshold network)
            max_elections
            s
            w
            s'
            w'
            n
  unfolding try_elect_shards
  try_elect_shards-Elected s w network max_elections some_size room =
      let size : ℕ = cfg.shard_size network in
      let l = waiting s network in
      let n : ℕ = num_elected (length l) size max_elections in
      let drawn = num_elected-Drawn (length l) size max_elections some_size room in
      let cut =
        chunks_of-Cut (length (take n l)) size drawn.shards (take n l) some_size
          (omega (arith, length-take n l, drawn.exact, drawn.enough)) (omega arith) in
      let r = create_shards cfg w network (cfg.shard_threshold network) (chunks size (take n l)) in
      let run =
        create_shards-Made size network (cfg.shard_threshold network) w (chunks size (take n l))
          cut.full in
      let left : List ℕ = drop n l ++ r.2 in
      let positive : (size == 0) ≡ false = ground arith in
      (
        record s { unassigned = insert s.unassigned network left },
        r.0,
        r.1,
        rw positive refl,
        record {
          shards = run.shards;
          count = run.count;
          full = run.full;
          bounded = omega (arith, run.count, run.fewer, cut.count, drawn.few);
          kept = rw (get-insert_self s.unassigned network left) (
              regroup l (flatten run.shards) (drop n l) r.2 (take n l) (run.whole ∙ cut.whole)
                (take-append-drop n l));
          shorter = rw (get-insert_self s.unassigned network left) (
              shorten (drop n l) r.2 (flatten run.shards) (take n l) l (run.whole ∙ cut.whole)
                (take-append-drop n l));
          others = λ m other. rw (get-insert_ne s.unassigned network m left other) refl;
          calls = run.calls;
        },
      )
