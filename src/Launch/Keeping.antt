-- ===== src/Launch/Keeping.antt =====
-- Parsing the data of a stage of pallets/launch leaves the storage version as it is.
use timechain.Prelude.{ℕ, ◌≡◌, refl, List, [], ◌∷◌, arith}
use timechain.Launch.{
  Text, RawMint, Stage, retired, deposit_from_unlocked, deposit_as_vested, airdrop_from_unlocked,
  airdrop_transfer, Config, State, Event, deposit_event,
}
use timechain.Launch.Stages.{parse_with_schedule, parse_deposits, parse_mints, parse_transfers}
use timechain.Launch.Airdrops.{sum}

module _ {W : Type 0} (cfg : Config W) where
  abbrev Same : State W → State W → Type 0
  Same s s' = s'.stage_version ≡ s.stage_version

  parse_with_schedule-Same :
      (s : State W) (raw : List RawMint) → Same s (parse_with_schedule cfg s raw).0
  unfolding parse_with_schedule
  parse_with_schedule-Same s [] = refl
  parse_with_schedule-Same s ((id, amount, vs) ∷ raw) =
      let rest : (e : Event) → Same s (parse_with_schedule cfg (deposit_event s e) raw).0 =
        λ e. parse_with_schedule-Same (deposit_event s e) raw in
      grind (arith, rest, parse_with_schedule-Same s raw)

  parse_deposits-Same : (s : State W) (raw : List (Text × ℕ)) → Same s (parse_deposits cfg s raw).0
  unfolding parse_deposits
  parse_deposits-Same s [] = refl
  parse_deposits-Same s ((id, amount) ∷ raw) =
      let rest : (e : Event) → Same s (parse_deposits cfg (deposit_event s e) raw).0 =
        λ e. parse_deposits-Same (deposit_event s e) raw in
      grind (arith, rest, parse_deposits-Same s raw)

  parse_mints-Same : (s : State W) (raw : List RawMint) → Same s (parse_mints cfg s raw).0
  unfolding parse_mints
  parse_mints-Same s [] = refl
  parse_mints-Same s ((id, amount, vs) ∷ raw) =
      let rest : (e : Event) → Same s (parse_mints cfg (deposit_event s e) raw).0 =
        λ e. parse_mints-Same (deposit_event s e) raw in
      grind (arith, rest, parse_mints-Same s raw)

  parse_transfers-Same :
      (s : State W) (raw : List (Text × Text)) → Same s (parse_transfers cfg s raw).0
  unfolding parse_transfers
  parse_transfers-Same s [] = refl
  parse_transfers-Same s ((from, to) ∷ raw) =
      let rest : (e : Event) → Same s (parse_transfers cfg (deposit_event s e) raw).0 =
        λ e. parse_transfers-Same (deposit_event s e) raw in
      grind (arith, rest, parse_transfers-Same s raw)

  pub sum-stage_version :
      (s : State W) (stage : Stage) → (sum cfg s stage).0.stage_version ≡ s.stage_version
  unfolding sum
  sum-stage_version s retired = refl
  sum-stage_version s (deposit_from_unlocked raw) = parse_with_schedule-Same s raw
  sum-stage_version s (deposit_as_vested raw) = parse_deposits-Same s raw
  sum-stage_version s (airdrop_from_unlocked raw) = parse_mints-Same s raw
  sum-stage_version s (airdrop_transfer raw) = parse_transfers-Same s raw
