-- ===== src/Launch/Airdrops.antt =====
-- pallets/launch/src/airdrops.rs: the airdrops of a stage are minted against the wallet of an
-- allocation, or moved; then `sum`, `hash` and `execute` of pallets/launch/src/stage.rs.
use timechain.Prelude.{ℕ, Bool, true, false, List, [], ◌∷◌}
use timechain.Outcome.{
  Outcome, ok, err, panic, ◌>>=◌, Error, already_has_claim, vesting_not_possible, has_no_claim,
}
use timechain.Airdrop
use timechain.Airdrop.{mint_airdrop, add_airdrop, move_airdrop}
use timechain.Launch.{
  Details, Stage, retired, deposit_from_unlocked, deposit_as_vested, airdrop_from_unlocked,
  airdrop_transfer, Config, State, Event, airdrop_mint_exists, airdrop_mint_too_large,
  airdrop_mint_failed, airdrop_transfer_missing, airdrop_transfer_exists, airdrop_transfer_failed,
  deposit_event, with_balances, account_id,
}
use timechain.Launch.Allocations.{Allocation}
use timechain.Launch.Stages.{
  total_of, parse_with_schedule, parse_deposits, parse_mints, parse_transfers, transfer_unlocked,
  transfer_as_vested,
}

module _ {W : Type 0} (cfg : Config W) where
  abbrev pub with_airdrop : State W → Airdrop.State W → State W
  with_airdrop s a = record s { airdrop = a }

  -- The event of a failed mint.
  abbrev pub mint_event : ℕ → Error → Event
  mint_event target already_has_claim = airdrop_mint_exists target
  mint_event target _ = airdrop_mint_failed

  abbrev pub add_event : ℕ → Error → Event
  add_event target vesting_not_possible = airdrop_mint_exists target
  add_event target _ = airdrop_mint_failed

  abbrev pub move_event : ℕ → ℕ → Error → Event
  move_event from to has_no_claim = airdrop_transfer_missing from
  move_event from to already_has_claim = airdrop_transfer_exists to
  move_event from to _ = airdrop_transfer_failed

  -- One airdrop: the tokens leave the wallet, and then the claim is made, or fails.
  unfoldable pub mint_one : State W → Allocation → Details → Outcome (State W)
  mint_one s source (target, amount, vs) =
      elim (cfg.withdraw s.airdrop.balances (account_id cfg source) amount) [
        | err e ↦ ok (deposit_event s (airdrop_mint_too_large target))
        | panic ↦ panic
        | ok w ↦
            let paid = with_balances s w in
            elim (mint_airdrop cfg.airdrop paid.airdrop target amount vs) [
              | ok a ↦ ok (with_airdrop paid a)
              | err e ↦ ok (deposit_event paid (mint_event target e))
              | panic ↦ panic
            ]
      ]

  unfoldable pub mint : State W → List Details → Allocation → Outcome (State W)
  mint s [] source = ok s
  mint s (d ∷ ds) source = mint_one s source d >>= λ s'. mint s' ds source

  unfoldable pub mint_or_add_one : State W → Allocation → Details → Outcome (State W)
  mint_or_add_one s source (target, amount, vs) =
      elim (cfg.withdraw s.airdrop.balances (account_id cfg source) amount) [
        | err e ↦ ok (deposit_event s (airdrop_mint_too_large target))
        | panic ↦ panic
        | ok w ↦
            let paid = with_balances s w in
            elim (add_airdrop cfg.airdrop paid.airdrop target amount vs) [
              | ok a ↦ ok (with_airdrop paid a)
              | err e ↦ ok (deposit_event paid (add_event target e))
              | panic ↦ panic
            ]
      ]

  unfoldable pub mint_or_add : State W → List Details → Allocation → Outcome (State W)
  mint_or_add s [] source = ok s
  mint_or_add s (d ∷ ds) source = mint_or_add_one s source d >>= λ s'. mint_or_add s' ds source

  unfoldable pub move_one : State W → ℕ × ℕ → Outcome (State W)
  move_one s (from, to) = elim (move_airdrop cfg.airdrop s.airdrop from to) [
    | ok a ↦ ok (with_airdrop s a)
    | err e ↦ ok (deposit_event s (move_event from to e))
    | panic ↦ panic
  ]

  unfoldable pub transfer : State W → List (ℕ × ℕ) → Outcome (State W)
  transfer s [] = ok s
  transfer s (d ∷ ds) = move_one s d >>= λ s'. transfer s' ds

  -- `Stage::is_executable`.
  abbrev pub is_executable : Stage → Bool
  is_executable retired = false
  is_executable (deposit_from_unlocked raw) = true
  is_executable (deposit_as_vested raw) = true
  is_executable (airdrop_from_unlocked raw) = true
  is_executable (airdrop_transfer raw) = true

  -- `Stage::sum`, whose parsing deposits events.
  unfoldable pub sum : State W → Stage → State W × ℕ
  sum s retired = (s, 0)
  sum s (deposit_from_unlocked raw) = let r = parse_with_schedule cfg s raw in (r.0, total_of 0 r.1)
  sum s (deposit_as_vested raw) = let r = parse_deposits cfg s raw in (r.0, total_of 0 r.1)
  sum s (airdrop_from_unlocked raw) = let r = parse_mints cfg s raw in (r.0, total_of 0 r.1)
  sum s (airdrop_transfer raw) = ((parse_transfers cfg s raw).0, 0)

  -- `Stage::execute`.
  unfoldable pub execute : State W → Stage → Allocation → Outcome (State W)
  execute s retired source = ok s
  execute s (deposit_from_unlocked raw) source =
      let r = parse_with_schedule cfg s raw in transfer_unlocked cfg r.0 r.1 source
  execute s (deposit_as_vested raw) source =
      let r = parse_deposits cfg s raw in transfer_as_vested cfg r.0 r.1 source
  execute s (airdrop_from_unlocked raw) source =
      let r = parse_mints cfg s raw in mint r.0 r.1 source
  execute s (airdrop_transfer raw) source = let r = parse_transfers cfg s raw in transfer r.0 r.1

  -- `Stage::hash`, of the data; the default of a retired stage is 0.
  abbrev pub hash : Stage → ℕ
  hash retired = 0
  hash (deposit_from_unlocked raw) = cfg.hash_of (deposit_from_unlocked raw)
  hash (deposit_as_vested raw) = cfg.hash_of (deposit_as_vested raw)
  hash (airdrop_from_unlocked raw) = cfg.hash_of (airdrop_from_unlocked raw)
  hash (airdrop_transfer raw) = cfg.hash_of (airdrop_transfer raw)
