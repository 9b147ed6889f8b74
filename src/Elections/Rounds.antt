-- ===== src/Elections/Rounds.antt =====
-- The loop over the networks in `on_initialize` of pallets/elections/src/lib.rs.
use native.Mathlib.Nat.{mod-eq_of_lt, mod_self}
use timechain.Prelude.{
  ℕ, zero, suc, ◌+◌, ◌-◌, ◌%◌, ◌≤◌, ◌<◌, ◌≡◌, refl, ap, ◌∙◌, false, Option, none, some, List, [],
  ◌∷◌, arith, length, get_elem?, Bool-cases, Option-cases, inl, inr, if◌then◌else◌, ◌==◌, ==→eq,
  ltb, u32_mod, u32_max, saturating_add, wrapping_add,
}
use timechain.Outcome.{Outcome, ok}
use timechain.Elections.{State, Config, waiting, Turns, turns, on_initialize}
use timechain.Elections.Conservation.{Elected, try_elect_shards-Elected}

get_elem_end : (l : List ℕ) (i : ℕ) → length l ≤ i → get_elem? l i ≡ none
get_elem_end [] i h = refl
get_elem_end (x ∷ l) zero h = absurd (omega arith)
get_elem_end (x ∷ l) (suc i) h = get_elem_end l i (omega arith)

-- How many turns are left until the counter is back at `c0`.
abbrev turns_left : ℕ → ℕ → ℕ → ℕ
turns_left len c c0 = if ltb c c0 then c0 - c else (len - c) + c0

next_value :
    (len c : ℕ)
    → c < len
    → len < u32_mod
    → wrapping_add u32_mod c 1 % len ≡ (if suc c == len then 0 else suc c)
next_value len c h small =
    let plain : wrapping_add u32_mod c 1 ≡ suc c = omega arith in
    rw plain (elim (Bool-cases (suc c == len)) [
      | inl last ↦ rw last (ap (λ x. x % len) (==→eq (suc c) len last) ∙ mod_self len)
      | inr more ↦ rw more (mod-eq_of_lt (ground arith))
    ])

next_turn :
    (len c c0 fuel : ℕ)
    → c < len
    → c0 < len
    → len < u32_mod
    → turns_left len c c0 ≤ suc fuel
    → (wrapping_add u32_mod c 1 % len < len)
      × ((wrapping_add u32_mod c 1 % len == c0) ≡ false
          → turns_left len (wrapping_add u32_mod c 1 % len) c0 ≤ fuel)
next_turn len c c0 fuel h h0 small left =
    rw (next_value len c h small) (elim (Bool-cases (suc c == len)) [
      | inl last ↦ rw last (omega arith, λ other. ground arith)
      | inr more ↦ rw more (ground arith, λ other. ground arith)
    ])

module _ {W : Type 0} (cfg : Config W) where
  abbrev Returns : Option (Outcome (Turns cfg)) → Type 0
  Returns r = (t : Turns cfg) × (r ≡ some (ok t)) × (t.num_elections ≤ cfg.max_elections_per_block)

  abbrev Room : State → Type 0
  Room s = (m : ℕ) → length (waiting s m) < u32_mod

  Elected-Room :
      (size network threshold max_elections : ℕ) (s : State) (w : W) (s' : State) (w' : W) (n : ℕ)
      → Elected cfg size network threshold max_elections s w s' w' n
      → Room s
      → Room s'
  Elected-Room size network threshold max_elections s w s' w' n e room m =
      elim (Bool-cases (m == network)) [
        | inl same ↦
            let at : m ≡ network = ==→eq m network same in
            rw at (omega (arith, e.shorter, room network))
        | inr other ↦ rw (e.others m (ground arith)) (room m)
      ]

  module _ (sizes : (n : ℕ) → 0 < cfg.shard_size n)
      (small : length cfg.get_networks < u32_mod) where
    turns-Returns :
        (fuel : ℕ) (s : State) (w : W) (num c c0 : ℕ)
        → Room s
        → num ≤ cfg.max_elections_per_block
        → c < length cfg.get_networks
        → c0 < length cfg.get_networks
        → turns_left (length cfg.get_networks) c c0 ≤ fuel
        → Returns (turns cfg fuel s w num c c0)
    unfolding turns
    turns-Returns zero s w num c c0 room few h h0 left = absurd (ground arith)
    turns-Returns (suc fuel) s w num c c0 room few h h0 left =
        elim (Bool-cases (ltb num cfg.max_elections_per_block)) [
          | inr full ↦ rw full (_, refl, few)
          | inl more ↦ rw more (elim (Option-cases (get_elem? cfg.get_networks c)) [
            | inl out ↦ rw out (_, refl, few)
            | inr (network, e) ↦
                let (s', w', n, run, elected) =
                  try_elect_shards-Elected cfg s w network (cfg.max_elections_per_block - num)
                    (sizes network) (room network) in
                let (next_in, fewer) =
                  next_turn (length cfg.get_networks) c c0 fuel h h0 small left in
                let next : ℕ = wrapping_add u32_mod c 1 % length cfg.get_networks in
                let total : saturating_add u32_max num n ≤ cfg.max_elections_per_block =
                  omega (arith, elected.bounded) in
                rw (e, run)
                  (elim (Bool-cases (next == c0)) [
                    | inl back ↦ rw back (_, refl, total)
                    | inr on ↦ rw on (
                        turns-Returns fuel s' w' (saturating_add u32_max num n) next c0
                          (Elected-Room _ _ _ _ s w s' w' n elected room) total next_in h0
                          (fewer on))
                  ])
          ])
        ]

    start_turns :
        (s : State) (w : W)
        → Room s
        → Returns
            (turns cfg (suc (length cfg.get_networks)) s w 0 s.network_counter s.network_counter)
    unfolding turns
    start_turns s w room = elim (Bool-cases (ltb s.network_counter (length cfg.get_networks))) [
      | inl within ↦
          turns-Returns (suc (length cfg.get_networks)) s w 0 s.network_counter s.network_counter
            room (omega arith) (ground arith) (ground arith) (ground arith)
      | inr past ↦
          let out = get_elem_end cfg.get_networks s.network_counter (ground arith) in
          elim (Bool-cases (ltb 0 cfg.max_elections_per_block)) [
            | inl more ↦ rw more (rw out (_, refl, omega arith))
            | inr full ↦ rw full (_, refl, omega arith)
          ]
    ]

    -- The block hook always returns, within one turn for each network and one more, and elects at
    -- most as many shards as a block may: if no network has shards of no members, if the number of
    -- networks and of the members that wait for each of them fit their types.
    pub on_initialize-Returns :
        (s : State) (w : W)
        → ((m : ℕ) → length (waiting s m) < u32_mod)
        → (s' : State) × (w' : W) × (n : ℕ) × (on_initialize cfg s w ≡ some (ok (s', w', n)))
          × (n ≤ cfg.max_elections_per_block)
    unfolding on_initialize
    on_initialize-Returns s w room =
        let (t, run, few) = start_turns s w room in
        elim (Bool-cases t.all_nets_elected) [
          | inl all ↦ (t.state, t.world, t.num_elections, rw (run, all, on_initialize) refl, few)
          | inr part ↦ (
            record t.state { network_counter = t.net_counter },
            t.world,
            t.num_elections,
            rw (run, part, on_initialize) refl,
            few,
          )
        ]
